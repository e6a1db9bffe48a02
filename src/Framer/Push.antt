-- ===== src/Framer/Push.antt =====
-- What `framer_push` does with the bytes that wait (fep/src/framer.c).
use trading_sor_mock.Base.{
  ℕ, suc, ◌+◌, ◌-◌, ◌≤◌, ◌<◌, ◌≡◌, refl, sym, ap, ◌∙◌, ◌≢◌, ◌↔◌, inl, inr, true, false, ◌&&◌, [],
  ◌∷◌, ◌++◌, arith, append-nil, ltb, ◌==◌, lt→ltb, le→ltb_false, ==_false, Bool-cases,
  compare_cases, length, length-append, length-drop, drop-append,
}
use trading_sor_mock.Types.{ok, not_supported, pool_exhausted, is_ok, is_ok→ok}
use trading_sor_mock.Wire.{Bytes, wire_frame_max}
use trading_sor_mock.Framer.{Framer, framer_pending, make_room, framer_push}
use trading_sor_mock.Framer.Stream.{waiting}

abbrev pub Inside : Framer → Type 0
Inside fr = fr.off ≤ length fr.buf

pub make_room-waiting : (fr : Framer) (n : ℕ) → waiting (make_room fr n) ≡ waiting fr
unfolding make_room
make_room-waiting fr n =
    elim (Bool-cases (ltb wire_frame_max (length fr.buf + n) && ltb 0 fr.off)) [
      | inl e ↦ rw (e) refl
      | inr e ↦ rw (e) refl
    ]

make_room-Inside : (fr : Framer) (n : ℕ) → Inside fr → Inside (make_room fr n)
unfolding make_room
make_room-Inside fr n inside =
    elim (Bool-cases (ltb wire_frame_max (length fr.buf + n) && ltb 0 fr.off)) [
      | inl e ↦ rw (e) (omega arith)
      | inr e ↦ rw (e) inside
    ]

make_room-err : (fr : Framer) (n : ℕ) → (make_room fr n).err ≡ fr.err
unfolding make_room
make_room-err fr n = elim (Bool-cases (ltb wire_frame_max (length fr.buf + n) && ltb 0 fr.off)) [
  | inl e ↦ rw (e) refl
  | inr e ↦ rw (e) refl
]

framer_push_broken :
    (fr : Framer) (bytes : Bytes)
    → is_ok fr.err ≡ false
    → framer_push fr bytes ≡ (not_supported, fr)
unfolding framer_push
framer_push_broken fr bytes bad = rw (bad) refl

framer_push_empty : (fr : Framer) → is_ok fr.err ≡ true → framer_push fr [] ≡ (ok, fr)
unfolding framer_push
framer_push_empty fr good = rw (good) refl

suc≢0 : (n : ℕ) → (suc n == 0) ≡ false
suc≢0 n = ==_false (suc n) 0 (omega arith)

framer_push_full :
    (fr : Framer) (b : ℕ) (bs : Bytes)
    → is_ok fr.err ≡ true
    → wire_frame_max < length (make_room fr (length (b ∷ bs))).buf + length (b ∷ bs)
    → framer_push fr (b ∷ bs) ≡ (pool_exhausted, make_room fr (length (b ∷ bs)))
unfolding framer_push
framer_push_full fr b bs good full =
    rw
      (
        good,
        suc≢0 (length bs),
        lt→ltb wire_frame_max (length (make_room fr (length (b ∷ bs))).buf + length (b ∷ bs)) full,
      )
      refl

framer_push_fits :
    (fr : Framer) (b : ℕ) (bs : Bytes)
    → is_ok fr.err ≡ true
    → length (make_room fr (length (b ∷ bs))).buf + length (b ∷ bs) ≤ wire_frame_max
    → framer_push fr (b ∷ bs) ≡ (
      ok,
      record (make_room fr (length (b ∷ bs))) {
        buf = (make_room fr (length (b ∷ bs))).buf ++ (b ∷ bs);
      },
    )
unfolding framer_push
framer_push_fits fr b bs good fits =
    rw
      (
        good,
        suc≢0 (length bs),
        le→ltb_false wire_frame_max (length (make_room fr (length (b ∷ bs))).buf + length (b ∷ bs))
            fits,
      )
      refl

-- A piece that is accepted is put behind what waits.
pub framer_push-waiting :
    (fr : Framer) (bytes : Bytes)
    → Inside fr
    → (framer_push fr bytes).0 ≡ ok
    → (fr.err ≡ ok)
      × (waiting (framer_push fr bytes).1 ≡ waiting fr ++ bytes)
      × ((framer_push fr bytes).1.err ≡ ok)
      × Inside (framer_push fr bytes).1
framer_push-waiting fr bytes inside accepted = elim (Bool-cases (is_ok fr.err)) [
  | inr bad ↦
      absurd (never_accepted (sym (ap (λ r. r.0) (framer_push_broken fr bytes bad)) ∙ accepted))
  | inl good ↦ on bytes good accepted
]
  where
    never_accepted : not_supported ≢ ok
    never_accepted e = cc e

    no_room : pool_exhausted ≢ ok
    no_room e = cc e

    on :
        (bytes : Bytes)
        → is_ok fr.err ≡ true
        → (framer_push fr bytes).0 ≡ ok
        → (fr.err ≡ ok)
          × (waiting (framer_push fr bytes).1 ≡ waiting fr ++ bytes)
          × ((framer_push fr bytes).1.err ≡ ok)
          × Inside (framer_push fr bytes).1
    on [] good accepted =
        let fine = is_ok→ok fr.err good in
        rw (framer_push_empty fr good) (fine, sym (append-nil (waiting fr)), fine, inside)
    on (b ∷ bs) good accepted =
        let fine = is_ok→ok fr.err good in
        let roomy = make_room fr (length (b ∷ bs)) in
        let inside' = make_room-Inside fr (length (b ∷ bs)) inside in
        elim (compare_cases wire_frame_max (length roomy.buf + length (b ∷ bs))) [
          | inl full ↦
              absurd (no_room (sym (ap (λ r. r.0) (framer_push_full fr b bs good full)) ∙ accepted))
          | inr fits ↦ rw (framer_push_fits fr b bs good fits) (
            fine,
            drop-append roomy.off roomy.buf (b ∷ bs) inside'
                ∙ ap (λ w. w ++ (b ∷ bs)) (make_room-waiting fr (length (b ∷ bs))),
            make_room-err fr (length (b ∷ bs)) ∙ fine,
            omega (arith, inside', length-append roomy.buf (b ∷ bs)),
          )
        ]

length-waiting : (fr : Framer) → length (waiting fr) ≡ framer_pending fr
unfolding framer_pending
length-waiting fr = length-drop fr.off fr.buf

make_room_holds : (fr : Framer) (n : ℕ) → framer_pending fr ≤ length (make_room fr n).buf
make_room_holds fr n = omega (
  arith,
  length-waiting fr,
  ap length (make_room-waiting fr n),
  length-drop (make_room fr n).off (make_room fr n).buf,
)

behind_nothing :
    (len n off : ℕ)
    → (ltb wire_frame_max (len + n) && ltb 0 off) ≡ false
    → wire_frame_max < len + n
    → len ≤ len - off
behind_nothing len n off e full = ground arith

make_room_tight :
    (fr : Framer) (n : ℕ)
    → wire_frame_max < length (make_room fr n).buf + n
    → length (make_room fr n).buf ≤ framer_pending fr
unfolding make_room framer_pending
make_room_tight fr n = elim (Bool-cases (ltb wire_frame_max (length fr.buf + n) && ltb 0 fr.off)) [
  | inl e ↦ rw (e) (λ _. omega (arith, length-drop fr.off fr.buf))
  | inr e ↦ rw (e) (λ full. behind_nothing (length fr.buf) n fr.off e full)
]

accepted_if : {P : Type 0} → P → (ok ≡ ok) ↔ P
accepted_if p = (λ _. p, λ _. refl)

no_room : pool_exhausted ≢ ok
no_room e = cc e

refused_if : {a b : ℕ} → b < a → (pool_exhausted ≡ ok) ↔ (a ≤ b)
refused_if lt = (λ e. absurd (no_room e), λ le. absurd (omega (arith, lt, le)))

-- A good framer that holds at most `wire_frame_max` bytes accepts a piece if and only if the bytes that
-- wait and those of the piece are at most `wire_frame_max`, wherever they lie in the buffer.
pub framer_push_accepts :
    (fr : Framer) (bytes : Bytes)
    → Inside fr
    → length fr.buf ≤ wire_frame_max
    → fr.err ≡ ok
    → ((framer_push fr bytes).0 ≡ ok) ↔ (framer_pending fr + length bytes ≤ wire_frame_max)
framer_push_accepts fr [] inside held good =
    rw (framer_push_empty fr (ap is_ok good))
      (accepted_if (omega (arith, held, length-waiting fr, length-drop fr.off fr.buf)))
framer_push_accepts fr (b ∷ bs) inside held good =
    let n = length (b ∷ bs) in
    let roomy = make_room fr n in
    elim (compare_cases wire_frame_max (length roomy.buf + n)) [
      | inl full ↦
          rw (framer_push_full fr b bs (ap is_ok good) full)
            (refused_if (omega (arith, full, make_room_tight fr n full)))
      | inr fits ↦
          rw (framer_push_fits fr b bs (ap is_ok good) fits)
            (accepted_if (omega (arith, fits, make_room_holds fr n)))
    ]
