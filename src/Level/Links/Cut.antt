-- ===== src/Level/Links/Cut.antt =====
-- Taking an order out of the linked list of a level (`level_remove` of
-- exchange/src/book/price_level.c).
use trading_sor_mock.Base.{
  ℕ, ◌≡◌, refl, sym, ap, ◌∙◌, ◌≢◌, ◌⊎◌, inl, inr, true, false, Option, none, some, List, [], ◌∷◌,
  subst, if◌then◌else◌, is_some, ==_refl, ==_false, All,
}
use trading_sor_mock.Level.{head?, unlink}
use trading_sor_mock.Level.Queue.{Absent, Distinct, Linked}
use trading_sor_mock.Level.Links.{
  Links, points, write_link, unlink_links, Runs, Represents, Runs-same, apart,
}

-- The predecessor of a slot of a run is one of the run, or what stands before it.
prev_inside :
    (nx pv : ℕ → Option ℕ) (b : Option ℕ) (q : List ℕ) (e : Option ℕ) (p : ℕ)
    → Runs nx pv b q e
    → Linked p q
    → (pv p ≡ b) ⊎ ((z : ℕ) × (pv p ≡ some z) × Linked z q)
prev_inside nx pv b [] e p r k = elim k [ ]
prev_inside nx pv b (x ∷ q) e p (rp, rn, r) (inl k) = inl (ap pv (sym k) ∙ rp)
prev_inside nx pv b (x ∷ q) e p (rp, rn, r) (inr k) = elim (prev_inside nx pv (some x) q e p r k) [
  | inl is ↦ inr (x, is, inl refl)
  | inr (z, is, inside) ↦ inr (z, is, inr inside)
]

-- So is its successor, unless it is the last.
next_inside :
    (nx pv : ℕ → Option ℕ) (b : Option ℕ) (q : List ℕ) (e : Option ℕ) (p : ℕ)
    → Runs nx pv b q e
    → Linked p q
    → (nx p ≡ none) ⊎ ((z : ℕ) × (nx p ≡ some z) × Linked z q)
next_inside nx pv b [] e p r k = elim k [ ]
next_inside nx pv b (x ∷ []) e p (rp, rn, r) (inl k) = inl (ap nx (sym k) ∙ rn)
next_inside nx pv b (x ∷ []) e p (rp, rn, r) (inr k) = elim k [ ]
next_inside nx pv b (x ∷ y ∷ q) e p (rp, rn, r) (inl k) =
    inr (y, ap nx (sym k) ∙ rn, inr (inl refl))
next_inside nx pv b (x ∷ y ∷ q) e p (rp, rn, r) (inr k) =
    elim (next_inside nx pv (some x) (y ∷ q) e p r k) [
      | inl is ↦ inl is
      | inr (z, is, inside) ↦ inr (z, is, inr inside)
    ]

-- The links after a slot is taken out.
abbrev cut_next : (nx pv : ℕ → Option ℕ) → ℕ → ℕ → Option ℕ
cut_next nx pv p = write_link (write_link nx (pv p) (nx p)) (some p) none

abbrev cut_prev : (nx pv : ℕ → Option ℕ) → ℕ → ℕ → Option ℕ
cut_prev nx pv p = write_link (write_link pv (nx p) (pv p)) (some p) none

abbrev cut_last : (nx pv : ℕ → Option ℕ) → Option ℕ → ℕ → Option ℕ
cut_last nx pv e p = if is_some (nx p) then e else pv p

-- A pointer to none of the slots of a list.
abbrev Outside : Option ℕ → List ℕ → Type 0
Outside b = All (λ y. points b y ≡ false)

Absent-Outside : (x : ℕ) (q : List ℕ) → Absent x q → Outside (some x) q
Absent-Outside x [] a = tt
Absent-Outside x (y ∷ q) (n, a) = (==_false y x n, Absent-Outside x q a)

Outside-none : (q : List ℕ) → Outside none q
Outside-none [] = tt
Outside-none (y ∷ q) = (refl, Outside-none q)

cut_rest :
    (nx pv : ℕ → Option ℕ) (b : Option ℕ) (p y : ℕ) (q : List ℕ)
    → pv p ≡ b
    → nx p ≡ some y
    → Outside b q
    → Absent p q
    → Absent y q
    → All (λ z. (cut_next nx pv p z ≡ nx z) × (cut_prev nx pv p z ≡ pv z)) q
cut_rest nx pv b p y [] ep en out ap' ay = tt
cut_rest nx pv b p y (z ∷ q) ep en (o, out) (np, ap') (ny, ay) = (
  (rw (==_false z p np, ep, o) refl, rw (==_false z p np, en, ==_false z y ny) refl),
  cut_rest nx pv b p y q ep en out ap' ay,
)

-- Taking out the first slot of a run.
Runs-cut_first :
    (nx pv : ℕ → Option ℕ) (b : Option ℕ) (p : ℕ) (q : List ℕ) (e : Option ℕ)
    → Outside b (p ∷ q)
    → Runs nx pv b (p ∷ q) e
    → Distinct (p ∷ q)
    → Runs (cut_next nx pv p) (cut_prev nx pv p) b q (cut_last nx pv e p)
Runs-cut_first nx pv b p [] e out (rp, rn, r) d = rw rn rp
Runs-cut_first nx pv b p (y ∷ q) e (_, (o, out)) (rp, rn, (rp', rn', r)) ((n, a), (ay, d)) = rw rn (
  rw (==_false y p n, ==_refl y) rp,
  rw (==_false y p n, rp, o) rn',
  Runs-same nx pv (cut_next nx pv p) (cut_prev nx pv p) (some y) q e
      (cut_rest nx pv b p y q rp rn out a ay) r,
)

unlink_first : (p : ℕ) (q : List ℕ) → unlink p (p ∷ q) ≡ q
unfolding unlink
unlink_first p q = rw (==_refl p) refl

unlink_later : (x p : ℕ) (q : List ℕ) → x ≢ p → unlink p (x ∷ q) ≡ x ∷ unlink p q
unfolding unlink
unlink_later x p q n = rw (==_false x p n) refl

-- Taking out a slot of a run.
Runs-cut :
    (nx pv : ℕ → Option ℕ) (b : Option ℕ) (p : ℕ) (q : List ℕ) (e : Option ℕ)
    → Outside b q
    → Runs nx pv b q e
    → Distinct q
    → Linked p q
    → Runs (cut_next nx pv p) (cut_prev nx pv p) b (unlink p q) (cut_last nx pv e p)
Runs-cut nx pv b p [] e out r d k = elim k [ ]
Runs-cut nx pv b p (x ∷ q) e out r d (inl k) =
    subst
      (λ (z : ℕ).
        Runs (cut_next nx pv z) (cut_prev nx pv z) b (unlink z (x ∷ q)) (cut_last nx pv e z))
      k
      (subst (λ (l : List ℕ). Runs (cut_next nx pv x) (cut_prev nx pv x) b l (cut_last nx pv e x))
        (sym (unlink_first x q)) (Runs-cut_first nx pv b x q e out r d))
Runs-cut nx pv b p (x ∷ []) e out r d (inr k) = elim k [ ]
Runs-cut nx pv b p (x ∷ y ∷ q) e (o, out) (rp, rn, r) (a, d) (inr k) =
    let n : x ≢ p = apart x p (y ∷ q) a k in
    subst (λ (l : List ℕ). Runs (cut_next nx pv p) (cut_prev nx pv p) b l (cut_last nx pv e p))
      (sym (unlink_later x p (y ∷ q) n))
      (
        kept_prev n (next_inside nx pv (some x) (y ∷ q) e p r k),
        kept_next n k r,
        Runs-cut nx pv (some x) p (y ∷ q) e (Absent-Outside x (y ∷ q) a) r d k,
      )
  where
    kept_prev :
        x ≢ p
        → (nx p ≡ none) ⊎ ((z : ℕ) × (nx p ≡ some z) × Linked z (y ∷ q))
        → cut_prev nx pv p x ≡ b
    kept_prev n (inl is) = rw (==_false x p n, is) rp
    kept_prev n (inr (z, is, inside)) =
        rw (==_false x p n, is, ==_false x z (apart x z (y ∷ q) a inside)) rp

    passes : x ≢ p → Linked p q → Runs nx pv (some y) q e → points (pv p) x ≡ false
    passes n k' r' = elim (prev_inside nx pv (some y) q e p r' k') [
      | inl is ↦ rw (is, ==_false x y (λ h. a.0 (sym h))) refl
      | inr (z, is, inside) ↦ rw (is, ==_false x z (apart x z q a.1 inside)) refl
    ]

    kept_next :
        x ≢ p
        → Linked p (y ∷ q)
        → Runs nx pv (some x) (y ∷ q) e
        → cut_next nx pv p x ≡ head? (unlink p (y ∷ q))
    kept_next n (inl is) (rp', rn', r') =
        rw (==_false x p n, ap pv (sym is) ∙ rp', ==_refl x)
          (ap nx (sym is)
            ∙ rn'
            ∙ sym (ap head? (ap (λ (z : ℕ). unlink z (y ∷ q)) (sym is) ∙ unlink_first y q)))
    kept_next n (inr k') (rp', rn', r') =
        rw (==_false x p n, passes n k' r')
          (rn ∙ sym (ap head? (unlink_later y p q (apart y p q d.0 k'))))

-- No slot of a run is its own predecessor.
prev_apart :
    (nx pv : ℕ → Option ℕ) (b : Option ℕ) (p : ℕ) (q : List ℕ) (e : Option ℕ)
    → points b p ≡ false
    → Runs nx pv b q e
    → Distinct q
    → Linked p q
    → points (pv p) p ≡ false
prev_apart nx pv b p [] e out r d k = elim k [ ]
prev_apart nx pv b p (x ∷ q) e out (rp, rn, r) d (inl k) = rw (ap pv (sym k) ∙ rp) out
prev_apart nx pv b p (x ∷ q) e out (rp, rn, r) (a, d) (inr k) =
    prev_apart nx pv (some x) p q e (==_false p x (λ h. apart x p q a k (sym h))) r d k

-- The head after a slot is taken out.
cut_head :
    (l : Links) (q : List ℕ) (p : ℕ)
    → Represents l q
    → Distinct q
    → Linked p q
    → (if is_some (l.prev p) then l.head else l.next p) ≡ head? (unlink p q)
cut_head l [] p h d k = elim k [ ]
cut_head l (x ∷ q) p h d (inl k) = rw (ap l.prev (sym k) ∙ h.runs.0) (
    ap l.next (sym k)
    ∙ h.runs.1
    ∙ sym (ap head? (ap (λ (z : ℕ). unlink z (x ∷ q)) (sym k) ∙ unlink_first x q)))
cut_head l (x ∷ q) p h d (inr k) =
    rw (some_prev (prev_inside l.next l.prev (some x) q l.tail p h.runs.2 k))
      (h.head_ok ∙ sym (ap head? (unlink_later x p q (apart x p q d.0 k))))
  where
    some_prev :
        (l.prev p ≡ some x) ⊎ ((z : ℕ) × (l.prev p ≡ some z) × Linked z q)
        → is_some (l.prev p) ≡ true
    some_prev (inl is) = rw is refl
    some_prev (inr (z, is, _)) = rw is refl

-- The writes of `level_remove` to the links of a level that link the slots of a queue, each of them
-- once, take one of these out: the links then represent the queue without it, in the same order,
-- forwards and backwards and with the right head and tail, wherever the slot stood.
pub unlink_links-Represents :
    (l : Links) (q : List ℕ) (p : ℕ)
    → Represents l q
    → Distinct q
    → Linked p q
    → Represents (unlink_links p l) (unlink p q)
unfolding unlink_links
unlink_links-Represents l q p h d k =
    let own : points (l.prev p) p ≡ false =
      prev_apart l.next l.prev none p q l.tail refl h.runs d k in
    record {
      head_ok = cut_head l q p h d k;
      runs = rw own (Runs-cut l.next l.prev none p q l.tail (Outside-none q) h.runs d k);
    }
