-- ===== src/Framer/Pieces.antt =====
-- The framer gives the messages of its stream whatever the pieces in which the bytes arrive
-- (fep/src/framer.c).
use trading_sor_mock.Base.{
  ℕ, zero, suc, ◌+◌, ◌≤◌, ◌≡◌, refl, sym, ap, ◌∙◌, inl, inr, true, List, [], ◌∷◌, ◌++◌, arith,
  subst, append_assoc, append-nil, lt→ltb, le→ltb_false, compare_cases, length, take, drop,
  length-append, length-drop, drop-drop,
}
use trading_sor_mock.Types.{ErrorCode, ok, is_ok, Result-cases}
use trading_sor_mock.Wire.{Bytes, wire_header_len, wire_decode_header}
use trading_sor_mock.Framer.{
  Framer, framer_push, Message, Next, need_more, bad_stream, got, framer_next,
}
use trading_sor_mock.Framer.Stream.{
  Scan, short, broken, first, scan, Parsed, parse, drain, waiting, scan_cases, parse_short,
  parse_broken, parse_first, parse_fuel, parse_rest, parse-append, length-parse_rest,
}
use trading_sor_mock.Framer.Push.{Inside, framer_push-waiting}

-- A piece of the stream, pushed and then cut into messages.
abbrev pub receive : Framer → Bytes → List Message × Framer
receive fr bytes = let fr' = (framer_push fr bytes).1 in drain (suc (length (waiting fr'))) fr'

abbrev pub delivered : Framer → List Bytes → List Message
delivered fr [] = []
delivered fr (piece ∷ pieces) = (receive fr piece).0 ++ delivered (receive fr piece).1 pieces

-- Every piece finds room.
abbrev pub Accepted : Framer → List Bytes → Type 0
Accepted fr [] = Unit
Accepted fr (piece ∷ pieces) =
    ((framer_push fr piece).0 ≡ ok) × Accepted (receive fr piece).1 pieces

abbrev pub concat : List Bytes → Bytes
concat [] = []
concat (piece ∷ pieces) = piece ++ concat pieces

-- What `framer_next` does on the outcome of a scan.
abbrev answer : Framer → Scan → Next × Framer
answer fr short = (need_more, fr)
answer fr (broken rc) = (bad_stream rc, record fr { err = rc })
answer fr (first m _) = (got m, record fr { off = fr.off + (wire_header_len + m.0.body_len) })

framer_next-scan :
    (fr : Framer) → is_ok fr.err ≡ true → framer_next fr ≡ answer fr (scan (waiting fr))
unfolding framer_next scan
framer_next-scan fr good =
    let bytes = waiting fr in
    elim (compare_cases (length bytes) wire_header_len) [
      | inl lt ↦ rw (good, lt→ltb (length bytes) wire_header_len lt) refl
      | inr ge ↦ elim (Result-cases (wire_decode_header bytes)) [
        | inr (rc, e) ↦ rw (good, le→ltb_false (length bytes) wire_header_len ge, e) refl
        | inl (h, e) ↦ elim (compare_cases (length bytes) (wire_header_len + h.body_len)) [
          | inl lt ↦
              rw
                (
                  good,
                  le→ltb_false (length bytes) wire_header_len ge,
                  e,
                  lt→ltb (length bytes) (wire_header_len + h.body_len) lt,
                )
                refl
          | inr all ↦
              rw
                (
                  good,
                  le→ltb_false (length bytes) wire_header_len ge,
                  e,
                  le→ltb_false (length bytes) (wire_header_len + h.body_len) all,
                )
                refl
        ]
      ]
    ]

-- The outcome of draining as the parse of the bytes that wait.
abbrev Agrees : List Message × Framer → Parsed → Type 0
Agrees r p = (r.0 ≡ p.messages) × (waiting r.1 ≡ p.rest) × (r.1.err ≡ p.err)

abbrev drained : Framer → List Message × Framer
drained fr = ([], fr)

abbrev got_and_drained : ℕ → Message → Framer → List Message × Framer
got_and_drained f m fr = (m ∷ (drain f fr).0, (drain f fr).1)

drain_short : (f : ℕ) (fr : Framer) → framer_next fr ≡ (need_more, fr) → drain (suc f) fr ≡ ([], fr)
unfolding drain
drain_short f fr e = rw (e, drain) refl

drain_broken :
    (f : ℕ) (fr fr' : Framer) (rc : ErrorCode)
    → framer_next fr ≡ (bad_stream rc, fr')
    → drain (suc f) fr ≡ ([], fr')
unfolding drain
drain_broken f fr fr' rc e = rw (e, drain) (ap (λ (r : Next × Framer). drained r.1) e)

drain_first :
    (f : ℕ) (fr fr' : Framer) (m : Message)
    → framer_next fr ≡ (got m, fr')
    → drain (suc f) fr ≡ (m ∷ (drain f fr').0, (drain f fr').1)
unfolding drain
drain_first f fr fr' m e = rw (e, drain) (ap (λ (r : Next × Framer). got_and_drained f m r.1) e)

drain-parse : (f : ℕ) (fr : Framer) → fr.err ≡ ok → Agrees (drain f fr) (parse f (waiting fr))
unfolding drain parse
drain-parse zero fr good = (refl, refl, good)
drain-parse (suc f) fr good =
    let step = framer_next-scan fr (ap is_ok good) in
    elim (scan_cases (waiting fr)) [
      | inl e ↦
          rw (drain_short f fr (step ∙ ap (answer fr) e), parse_short (suc f) (waiting fr) e)
            (refl, refl, good)
      | inr (inl (rc, e, _, _)) ↦
          rw (drain_broken f fr _ rc (step ∙ ap (answer fr) e), parse_broken f (waiting fr) rc e)
            (refl, refl, refl)
      | inr (inr (h, e, _, _)) ↦
          let rest = drop (wire_header_len + h.body_len) (waiting fr) in
          let m : Message = (h, take h.body_len (drop wire_header_len (waiting fr))) in
          let fr' : Framer = record fr { off = fr.off + (wire_header_len + h.body_len) } in
          let ih = drain-parse f fr' good in
          let same : waiting fr' ≡ rest =
            sym (drop-drop (wire_header_len + h.body_len) fr.off fr.buf) in
          let ih' : Agrees (drain f fr') (parse f rest) =
            subst (λ (w : Bytes). Agrees (drain f fr') (parse f w)) same ih in
          rw (drain_first f fr fr' m (step ∙ ap (answer fr) e), parse_first f (waiting fr) m rest e)
            (ap (λ ms. m ∷ ms) ih'.0, ih'.1, ih'.2)
    ]

drain-Inside : (f : ℕ) (fr : Framer) → fr.err ≡ ok → Inside fr → Inside (drain f fr).1
unfolding drain
drain-Inside zero fr good inside = inside
drain-Inside (suc f) fr good inside =
    let step = framer_next-scan fr (ap is_ok good) in
    elim (scan_cases (waiting fr)) [
      | inl e ↦ rw (drain_short f fr (step ∙ ap (answer fr) e)) inside
      | inr (inl (rc, e, _, _)) ↦ rw (drain_broken f fr _ rc (step ∙ ap (answer fr) e)) inside
      | inr (inr (h, e, long, _)) ↦ rw (drain_first f fr _ _ (step ∙ ap (answer fr) e)) (
          drain-Inside f (record fr { off = fr.off + (wire_header_len + h.body_len) }) good
            (omega (arith, long, length-drop fr.off fr.buf)))
    ]

-- The receipt of an accepted piece: the messages and the rest of what then waits.
receive-parse :
    (fr : Framer) (piece : Bytes)
    → Inside fr
    → (framer_push fr piece).0 ≡ ok
    → Agrees (receive fr piece) (parse (suc (length (waiting fr ++ piece))) (waiting fr ++ piece))
      × Inside (receive fr piece).1
receive-parse fr piece inside accepted =
    let (_, there, good, inside') = framer_push-waiting fr piece inside accepted in
    let fr' = (framer_push fr piece).1 in
    let n = suc (length (waiting fr')) in
    (
      subst (λ (w : Bytes). Agrees (receive fr piece) (parse (suc (length w)) w)) there
          (drain-parse n fr' good),
      drain-Inside n fr' good inside',
    )

-- The pieces of a stream that find room give the messages of the stream.
pub delivered-parse :
    (g : ℕ) (fr : Framer) (pieces : List Bytes)
    → Inside fr
    → scan (waiting fr) ≡ short
    → Accepted fr pieces
    → length (waiting fr ++ concat pieces) ≤ g
    → delivered fr pieces ≡ (parse g (waiting fr ++ concat pieces)).messages
delivered-parse g fr [] inside unfinished _ enough =
    rw (append-nil (waiting fr), parse_short g (waiting fr) unfinished) refl
delivered-parse g fr (piece ∷ []) inside unfinished (accepted, _) enough =
    let ((ms, _, _), _) = receive-parse fr piece inside accepted in
    let enough' : length (waiting fr ++ piece) ≤ g = rw (append-nil piece) at enough in
    rw (append-nil (receive fr piece).0, append-nil piece, ms)
      (ap (λ p. p.messages)
        (parse_fuel (suc (length (waiting fr ++ piece))) g (waiting fr ++ piece) (omega arith)
          enough'))
delivered-parse g fr (piece ∷ piece' ∷ pieces) inside unfinished (accepted, more) enough =
    let ((ms, rest, err), inside') = receive-parse fr piece inside accepted in
    let (good, _, _, _) = framer_push-waiting (receive fr piece).1 piece' inside' more.0 in
    let w = waiting fr ++ piece in
    let later = concat (piece' ∷ pieces) in
    let fine : is_ok (parse (suc (length w)) w).err ≡ true = ap is_ok (sym err ∙ good) in
    let after : List Message × Framer = receive fr piece in
    let unfinished' : scan (waiting after.1) ≡ short =
      ap scan rest ∙ parse_rest (suc (length w)) w (omega arith) fine in
    let split : waiting fr ++ (piece ++ later) ≡ w ++ later =
      sym (append_assoc (waiting fr) piece later) in
    let fits : length w + length later ≤ g =
      subst (λ (n : ℕ). n ≤ g) (ap length split ∙ length-append w later) enough in
    let ih = delivered-parse g after.1 (piece' ∷ pieces) inside' unfinished' more (
      omega (
        arith,
        fits,
        length-append (waiting after.1) later,
        length-parse_rest (suc (length w)) w,
        ap length rest,
      )) in
    ap (λ ds. after.0 ++ ds) ih
    ∙ ap (λ ds. ds ++ (parse g (waiting after.1 ++ later)).messages) ms
    ∙ ap (λ (r : Bytes). (parse (suc (length w)) w).messages ++ (parse g (r ++ later)).messages)
        rest
    ∙ sym (parse-append (suc (length w)) g w later (omega arith) fits fine)
    ∙ ap (λ (b : Bytes). (parse g b).messages) (sym split)
