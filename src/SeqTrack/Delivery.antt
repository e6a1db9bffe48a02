-- ===== src/SeqTrack/Delivery.antt =====
-- What the receiver passes on, whatever the order in which messages arrive
-- (`seqtrack_on` of fep/src/seqtrack.c).
use trading_sor_mock.Base.{
  ℕ, zero, suc, ◌+◌, ◌≡◌, refl, sym, ap, ◌∙◌, ◌⊎◌, inl, inr, false, List, [], ◌∷◌, arith, subst,
  ltb, ◌==◌, ==_iff, Bool-cases,
}
use trading_sor_mock.SeqTrack.{
  SeqVerdict, seq_ok, seq_dup, seq_gap, seq_wait, SeqTracker, seqtrack_on,
}

-- The receiver after a sequence of arrivals.
abbrev pub run_arrivals : SeqTracker → List ℕ → SeqTracker
run_arrivals tr [] = tr
run_arrivals tr (seq ∷ arrivals) = run_arrivals (seqtrack_on tr seq).1 arrivals

abbrev pub deliver : SeqVerdict → ℕ → List ℕ → List ℕ
deliver seq_ok seq rest = seq ∷ rest
deliver seq_dup seq rest = rest
deliver seq_gap seq rest = rest
deliver seq_wait seq rest = rest

-- The messages that are passed on: those with the verdict SEQ_OK.
abbrev pub delivered : SeqTracker → List ℕ → List ℕ
delivered tr [] = []
delivered tr (seq ∷ arrivals) =
    deliver (seqtrack_on tr seq).0 seq (delivered (seqtrack_on tr seq).1 arrivals)

-- `n` consecutive numbers from `from`.
abbrev pub consecutive : (from n : ℕ) → List ℕ
consecutive from zero = []
consecutive from (suc n) = from ∷ consecutive (from + 1) n

-- A message is the expected one, or it is not passed on and the same one stays expected.
on_cases :
    (tr : SeqTracker) (seq : ℕ)
    → ((seq ≡ tr.expected)
        × (seqtrack_on tr seq
            ≡ (seq_ok, record tr { expected = tr.expected + 1; recovering = false })))
      ⊎ (((rest : List ℕ) → deliver (seqtrack_on tr seq).0 seq rest ≡ rest)
          × ((seqtrack_on tr seq).1.expected ≡ tr.expected))
unfolding seqtrack_on
on_cases tr seq = elim (Bool-cases (seq == tr.expected)) [
  | inl e ↦ inl ((==_iff seq tr.expected).0 e, rw e refl)
  | inr e ↦ elim (Bool-cases (ltb seq tr.expected)) [
    | inl f ↦ inr (rw (e, f) (λ rest. refl, refl))
    | inr f ↦ elim (Bool-cases tr.recovering) [
      | inl g ↦ inr (rw (e, f, g) (λ rest. refl, refl))
      | inr g ↦ inr (rw (e, f, g) (λ rest. refl, refl))
    ]
  ]
]

-- `n` messages are passed on, from the expected one on.
abbrev Passed : SeqTracker → List ℕ → (passed : List ℕ) → SeqTracker → Type 0
Passed tr arrivals passed last =
    (n : ℕ) × (passed ≡ consecutive tr.expected n) × (last.expected ≡ tr.expected + n)

-- Whatever arrives, the messages passed on are consecutive: none is lost between two others, none
-- is passed on twice, and they come in order. They run from the number expected at the start to
-- the one expected at the end.
pub delivered-consecutive :
    (tr : SeqTracker) (arrivals : List ℕ)
    → (n : ℕ) × (delivered tr arrivals ≡ consecutive tr.expected n)
      × ((run_arrivals tr arrivals).expected ≡ tr.expected + n)
delivered-consecutive tr [] = (0, refl, omega arith)
delivered-consecutive tr (seq ∷ arrivals) = elim (on_cases tr seq) [
  | inl (same, answer) ↦
      let next = record tr { expected = tr.expected + 1; recovering = false } in
      let (n, passed, last) = delivered-consecutive next arrivals in
      subst
        (λ (a : SeqVerdict × SeqTracker).
          Passed tr arrivals (deliver a.0 seq (delivered a.1 arrivals)) (run_arrivals a.1 arrivals))
        (sym answer) (suc n, cons_eq same passed, omega (arith, last))
  | inr (skip, same) ↦
      let (n, passed, last) = delivered-consecutive (seqtrack_on tr seq).1 arrivals in
      (n, skip _ ∙ passed ∙ ap (λ x. consecutive x n) same, last ∙ ap (λ (x : ℕ). x + n) same)
]
  where
    cons_eq : {a b : ℕ} {xs ys : List ℕ} → a ≡ b → xs ≡ ys → (a ∷ xs) ≡ (b ∷ ys)
    cons_eq e f = cc (e, f)
