-- ===== src/Framer/Delivery.antt =====
-- What a sender frames, the receiver's framer delivers (fep/src/framer.c, core/src/wire.c).
use trading_sor_mock.Base.{
  ℕ, zero, suc, ◌+◌, ◌≤◌, ◌≡◌, refl, sym, ap, ◌∙◌, List, [], ◌∷◌, ◌++◌, arith, subst, append_assoc,
  length, take, drop, length-append, All, drop-drop,
}
use trading_sor_mock.Wire.{Bytes, wire_header_len, header_bytes, wire_decode_header}
use trading_sor_mock.Wire.Header.{HeaderFits, length-header_bytes, wire_decode_header-header_bytes}
use trading_sor_mock.Framer.{framer_init, Message}
use trading_sor_mock.Framer.Stream.{
  first, scan, parse, scan_done, parse_short, parse_first, scan_short,
}
use trading_sor_mock.Framer.Pieces.{delivered, Accepted, concat, delivered-parse}

-- The bytes of a message: its header and its body.
abbrev pub frame_bytes : Message → Bytes
frame_bytes m = header_bytes m.0 ++ m.1

abbrev pub stream_bytes : List Message → Bytes
stream_bytes [] = []
stream_bytes (m ∷ ms) = frame_bytes m ++ stream_bytes ms

-- A message whose header fits its fields and counts the body.
abbrev pub MessageFits : Message → Type 0
MessageFits m = HeaderFits m.0 × (length m.1 ≡ m.0.body_len)

take-length : (xs ys : Bytes) → take (length xs) (xs ++ ys) ≡ xs
take-length [] ys = refl
take-length (x ∷ xs) ys = ap (λ zs. x ∷ zs) (take-length xs ys)

drop-length : (xs ys : Bytes) → drop (length xs) (xs ++ ys) ≡ ys
drop-length [] ys = refl
drop-length (x ∷ xs) ys = drop-length xs ys

scan-frame_bytes :
    (m : Message) (more : Bytes) → MessageFits m → scan (frame_bytes m ++ more) ≡ first m more
scan-frame_bytes m more (fits, counted) =
    let head = header_bytes m.0 in
    let all : frame_bytes m ++ more ≡ head ++ (m.1 ++ more) = append_assoc head m.1 more in
    let behind : drop wire_header_len (frame_bytes m ++ more) ≡ m.1 ++ more =
      ap (drop wire_header_len) all
      ∙ subst (λ (n : ℕ). drop n (head ++ (m.1 ++ more)) ≡ m.1 ++ more) (length-header_bytes m.0)
          (drop-length head (m.1 ++ more)) in
    let body : take m.0.body_len (m.1 ++ more) ≡ m.1 =
      subst (λ (n : ℕ). take n (m.1 ++ more) ≡ m.1) counted (take-length m.1 more) in
    let tail : drop (wire_header_len + m.0.body_len) (frame_bytes m ++ more) ≡ more =
      sym (drop-drop m.0.body_len wire_header_len (frame_bytes m ++ more))
      ∙ ap (drop m.0.body_len) behind
      ∙ subst (λ (n : ℕ). drop n (m.1 ++ more) ≡ more) counted (drop-length m.1 more) in
    scan_done (frame_bytes m ++ more) m.0
      (omega (
        arith,
        ap length all,
        length-append head (m.1 ++ more),
        length-append m.1 more,
        length-header_bytes m.0,
        counted,
      ))
      (ap wire_decode_header all ∙ wire_decode_header-header_bytes m.0 (m.1 ++ more) fits)
    ∙ ap
        (λ (b : Bytes).
          first (m.0, b) (drop (wire_header_len + m.0.body_len) (frame_bytes m ++ more)))
        (ap (take m.0.body_len) behind ∙ body)
    ∙ ap (λ (c : Bytes). first m c) tail

length-frame_bytes : (m : Message) → 24 ≤ length (frame_bytes m)
length-frame_bytes m = omega (arith, length-append (header_bytes m.0) m.1, length-header_bytes m.0)

parse-stream_bytes :
    (f : ℕ) (ms : List Message)
    → All MessageFits ms
    → length (stream_bytes ms) ≤ f
    → (parse f (stream_bytes ms)).messages ≡ ms
parse-stream_bytes f [] fits enough = rw (parse_short f [] (scan_short [] (omega arith))) refl
parse-stream_bytes zero (m ∷ ms) fits enough =
    absurd
      (omega (arith, enough, length-frame_bytes m, length-append (frame_bytes m) (stream_bytes ms)))
parse-stream_bytes (suc f) (m ∷ ms) (fit, fits) enough =
    let one = scan-frame_bytes m (stream_bytes ms) fit in
    let shorter : length (stream_bytes ms) ≤ f =
      omega
        (arith, enough, length-frame_bytes m, length-append (frame_bytes m) (stream_bytes ms)) in
    rw (parse_first f (stream_bytes (m ∷ ms)) m (stream_bytes ms) one)
      (ap (λ rest. m ∷ rest) (parse-stream_bytes f ms fits shorter))

-- Messages that fit, framed one behind the other and cut into any pieces, each of which the framer
-- accepts, are delivered as they are: none is lost, doubled, changed or out of order.
pub delivered-stream_bytes :
    (ms : List Message) (pieces : List Bytes)
    → All MessageFits ms
    → concat pieces ≡ stream_bytes ms
    → Accepted framer_init pieces
    → delivered framer_init pieces ≡ ms
unfolding framer_init
delivered-stream_bytes ms pieces fits cut accepted =
    let n = length (stream_bytes ms) in
    delivered-parse n framer_init pieces (omega arith) (scan_short [] (omega arith)) accepted
      (omega (arith, ap length cut))
    ∙ ap (λ (b : Bytes). (parse n b).messages) cut
    ∙ parse-stream_bytes n ms fits (omega arith)
