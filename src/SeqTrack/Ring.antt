-- ===== src/SeqTrack/Ring.antt =====
-- The sender's ring (`seqstore_put` and `seqstore_get` of fep/src/seqtrack.c).
use trading_sor_mock.Base.{
  ℕ, zero, suc, ◌+◌, ◌-◌, ◌≤◌, ◌<◌, min, ◌≡◌, refl, sym, ap, ◌∙◌, ◌≢◌, ◌⊎◌, inl, inr, Bool, true,
  false, ◌&&◌, ◌||◌, List, arith, subst, ltb, leb, ◌==◌, if◌then◌else◌, lt→ltb, le→ltb_false,
  ==_iff, ==_refl, ==_false, Bool-cases, compare_cases, length,
}
use trading_sor_mock.Types.{ErrorCode, ok, invalid_arg, not_found, Result, done, fail}
use trading_sor_mock.SeqTrack.{
  seqstore_frame_max, seqstore_keep, SeqStore, seqstore_init, ring_place, seqstore_put,
  seqstore_get, seqstore_oldest,
}

-- The ring with a message in its place.
abbrev stored : SeqStore → ℕ → List ℕ → SeqStore
stored st seq frame =
    let count = if ltb st.count seqstore_keep then st.count + 1 else st.count in
    record {
      slot = λ i. if i == ring_place seq then record { seq = seq; frame = frame } else st.slot i;
      oldest = seq - count + 1;
      newest = seq;
      count = count;
    }

-- A message is refused, and the ring stays as it is, or it is put in its place.
put_cases :
    (st : SeqStore) (seq : ℕ) (frame : List ℕ)
    → (seqstore_put st seq frame ≡ (invalid_arg, st))
      ⊎ ((seqstore_put st seq frame ≡ (ok, stored st seq frame))
          × (seq ≢ 0)
          × (length frame ≢ 0)
          × (0 < st.count → st.newest < seq))
unfolding seqstore_put
put_cases st seq frame =
    elim (Bool-cases (seq == 0 || length frame == 0 || ltb seqstore_frame_max (length frame))) [
      | inl e ↦ inl (rw e refl)
      | inr e ↦ elim (Bool-cases (ltb 0 st.count && leb seq st.newest)) [
        | inl f ↦ inl (rw (e, f) refl)
        | inr f ↦ inr (
          rw (e, f) refl,
          λ z. ground (arith, e, z),
          λ z. ground (arith, e, z),
          λ c. ground (arith, f, c),
        )
      ]
    ]

-- The ring with an accepted message: the message is read back; a message that it replaced is no
-- longer found; each other one is read as before.
pub seqstore_put-seqstore_get :
    (st : SeqStore) (seq : ℕ) (frame : List ℕ) (q cap : ℕ)
    → (seqstore_put st seq frame).0 ≡ ok
    → seqstore_get (seqstore_put st seq frame).1 q cap ≡ (
        if q == seq
        then if ltb cap (length frame) then fail invalid_arg else done frame
        else if ring_place q == ring_place seq
        then fail not_found
        else seqstore_get st q cap)
unfolding seqstore_get
seqstore_put-seqstore_get st seq frame q cap e = elim (put_cases st seq frame) [
  | inl refused ↦ absurd (not_accepted (sym (ap (λ (a : ErrorCode × SeqStore). a.0) refused) ∙ e))
  | inr (accepted, _, full, _) ↦ rw accepted (elim (Bool-cases (q == seq)) [
    | inl same ↦
        rw
          (
            same,
            (==_iff q seq).0 same,
            ==_refl (ring_place seq),
            ==_refl seq,
            ==_false (length frame) 0 full,
          )
          refl
    | inr other ↦ elim (Bool-cases (ring_place q == ring_place seq)) [
      | inl f ↦ rw (other, f, ==_false seq q (λ z. cc (==_refl q, z, other))) refl
      | inr f ↦ rw (other, f) refl
    ]
  ])
]
  where
    not_accepted : invalid_arg ≢ ok
    not_accepted e = cc

-- Two of any 256 consecutive numbers have different places.
place_apart : (q seq : ℕ) → q < seq → seq < q + seqstore_keep → ring_place q ≢ ring_place seq
unfolding ring_place
place_apart q seq lt near e = omega (arith, e)

-- Numbers with one place are the same or 256 or more apart.
place_far :
    (q seq : ℕ) → (ring_place q == ring_place seq) ≡ true → q < seq → q + seqstore_keep ≤ seq
unfolding ring_place
place_far q seq e lt = ground (arith, e)

-- The ring after the first `n` of the messages `frames`, which are numbered from `first` on.
abbrev pub store_run : (first : ℕ) → (frames : ℕ → List ℕ) → (n : ℕ) → SeqStore
store_run first frames zero = seqstore_init
store_run first frames (suc n) =
    (seqstore_put (store_run first frames n) (first + n) (frames (first + n))).1

-- A message that fits into a slot.
abbrev pub Fits : List ℕ → Type 0
Fits frame = (0 < length frame) × (length frame ≤ seqstore_frame_max)

-- Whether `q` is one of the last 256 of the `n` numbers from `first` on.
abbrev pub kept : (first n q : ℕ) → Bool
kept first n q = leb first q && ltb q (first + n) && leb (first + n) (q + seqstore_keep)

-- The fields of the ring after `n` messages.
record Counted (first n : ℕ) (st : SeqStore) : Type 0 where
  counted : st.count ≡ min n seqstore_keep
  last : 0 < n → st.newest + 1 ≡ first + n
  oldest_kept : 0 < n → st.oldest + min n seqstore_keep ≡ first + n

put_accepts :
    (st : SeqStore) (first n : ℕ) (frame : List ℕ)
    → 0 < first
    → Fits frame
    → Counted first n st
    → seqstore_put st (first + n) frame ≡ (ok, stored st (first + n) frame)
unfolding seqstore_put
put_accepts st first n frame pos (some_bytes, room) c =
    rw
      (
        ==_false (first + n) 0 (λ e. omega (arith, e)),
        ==_false (length frame) 0 (λ e. omega (arith, e)),
        le→ltb_false seqstore_frame_max (length frame) room,
        newer,
      )
      refl
  where
    newer : (ltb 0 st.count && leb (first + n) st.newest) ≡ false
    newer = elim (compare_cases 0 n) [
      | inl h ↦ ground (arith, c.last h)
      | inr h ↦ ground (arith, h, c.counted)
    ]

stored-Counted :
    (st : SeqStore) (first n : ℕ) (frame : List ℕ)
    → 0 < first
    → Counted first n st
    → Counted first (suc n) (stored st (first + n) frame)
stored-Counted st first n frame pos c = elim (compare_cases st.count seqstore_keep) [
  | inl h ↦
      fields (st.count + 1)
        (ap (λ (b : Bool). if b then st.count + 1 else st.count) (lt→ltb st.count seqstore_keep h))
        (omega (arith, h, c.counted))
  | inr h ↦
      fields st.count
        (ap (λ (b : Bool). if b then st.count + 1 else st.count)
          (le→ltb_false st.count seqstore_keep h))
        (omega (arith, h, c.counted))
]
  where
    oldest_lem :
        (k : ℕ)
        → (stored st (first + n) frame).count ≡ k
        → k ≡ min (suc n) seqstore_keep
        → (stored st (first + n) frame).oldest + min (suc n) seqstore_keep ≡ first + suc n
    oldest_lem k e m = rw e (omega (arith, pos, m))

    fields :
        (k : ℕ)
        → (stored st (first + n) frame).count ≡ k
        → k ≡ min (suc n) seqstore_keep
        → Counted first (suc n) (stored st (first + n) frame)
    fields k e m = record {
      counted = e ∙ m;
      last = λ _. omega arith;
      oldest_kept = λ _. oldest_lem k e m;
    }

store_run-Counted :
    (first : ℕ) (frames : ℕ → List ℕ) (n : ℕ)
    → 0 < first
    → ((q : ℕ) → Fits (frames q))
    → Counted first n (store_run first frames n)
unfolding seqstore_init
store_run-Counted first frames zero pos fits = record {
  counted = refl;
  last = λ h. absurd (omega arith);
  oldest_kept = λ h. absurd (omega arith);
}
store_run-Counted first frames (suc n) pos fits =
    let c = store_run-Counted first frames n pos fits in
    subst (Counted first (suc n))
      (sym (
        ap (λ (a : ErrorCode × SeqStore). a.1)
          (put_accepts (store_run first frames n) first n (frames (first + n)) pos
            (fits (first + n)) c)))
      (stored-Counted (store_run first frames n) first n (frames (first + n)) pos c)

-- What `seqstore_get` answers for a message.
abbrev pub read_frame : (cap : ℕ) → List ℕ → Result (List ℕ)
read_frame cap frame = if ltb cap (length frame) then fail invalid_arg else done frame

kept_new : (first n q : ℕ) → (q == first + n) ≡ true → kept first (suc n) q ≡ true
kept_new first n q e = ground (arith, e)

kept_lost :
    (first n q : ℕ)
    → (q == first + n) ≡ false
    → (ring_place q == ring_place (first + n)) ≡ true
    → kept first (suc n) q ≡ false
kept_lost first n q e f = ground (arith, e, place_far q (first + n) f)

kept_old :
    (first n q : ℕ)
    → (q == first + n) ≡ false
    → (ring_place q == ring_place (first + n)) ≡ false
    → kept first (suc n) q ≡ kept first n q
unfolding ring_place
kept_old first n q e f = ground (arith, e, f)

store_run-get :
    (first : ℕ) (frames : ℕ → List ℕ) (n q cap : ℕ)
    → 0 < first
    → ((q : ℕ) → Fits (frames q))
    → seqstore_get (store_run first frames n) q cap
      ≡ (if kept first n q then read_frame cap (frames q) else fail not_found)
unfolding seqstore_init seqstore_get
store_run-get first frames zero q cap pos fits = elim (Bool-cases (kept first 0 q)) [
  | inl e ↦ absurd (none_kept e)
  | inr e ↦ rw e (elim (Bool-cases (0 == q)) [ inl f ↦ rw f refl | inr f ↦ rw f refl ])
]
  where
    none_kept : kept first 0 q ≢ true
    none_kept e = ground (arith, e)
store_run-get first frames (suc n) q cap pos fits =
    let st = store_run first frames n in
    let seq = first + n in
    let accepted =
      put_accepts st first n (frames seq) pos (fits seq)
        (store_run-Counted first frames n pos fits) in
    let answer =
      seqstore_put-seqstore_get st seq (frames seq) q cap
        (ap (λ (a : ErrorCode × SeqStore). a.0) accepted) in
    answer ∙ elim (Bool-cases (q == seq)) [
      | inl e ↦ rw (e, kept_new first n q e, (==_iff q seq).0 e) refl
      | inr e ↦ elim (Bool-cases (ring_place q == ring_place seq)) [
        | inl f ↦ rw (e, f, kept_lost first n q e f) refl
        | inr f ↦ rw (e, f, kept_old first n q e f) (store_run-get first frames n q cap pos fits)
      ]
    ]

-- Of any run of messages that are numbered without gaps, from any number above 0, the ring keeps
-- exactly the last 256: each of these is read back as it was put in (or refused, if the buffer is
-- too small for it); no other number is found; `count` is the number of messages kept, and
-- `seqstore_oldest` the first of their numbers, or 0 if there is none.
pub seqstore_get-store_run :
    (first : ℕ) (frames : ℕ → List ℕ) (n : ℕ)
    → 0 < first
    → ((q : ℕ) → Fits (frames q))
    → ((q cap : ℕ)
        → seqstore_get (store_run first frames n) q cap
          ≡ (if kept first n q then read_frame cap (frames q) else fail not_found))
      × ((store_run first frames n).count ≡ min n seqstore_keep)
      × (seqstore_oldest (store_run first frames n)
          ≡ (if n == 0 then 0 else first + n - min n seqstore_keep))
unfolding seqstore_oldest
seqstore_get-store_run first frames n pos fits =
    let c = store_run-Counted first frames n pos fits in
    (
      λ q cap. store_run-get first frames n q cap pos fits,
      c.counted,
      elim (compare_cases 0 n) [
        | inl h ↦ ground (arith, h, c.counted, c.oldest_kept h)
        | inr h ↦ ground (arith, h, c.counted)
      ],
    )
