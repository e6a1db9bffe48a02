-- ===== src/Level/Links.antt =====
-- The doubly linked list of a level (exchange/src/book/price_level.c): what the writes of
-- `level_push_back` and `level_remove` to the links of the orders do to the list that they link.
pub mod Cut
use trading_sor_mock.Base.{
  ℕ, ◌≡◌, refl, sym, ◌∙◌, ◌≢◌, inl, inr, Bool, true, false, Option, none, some, List, [], ◌∷◌, ◌++◌,
  ◌==◌, if◌then◌else◌, is_some, ==_refl, ==_false, All,
}
use trading_sor_mock.Level.{head?}
use trading_sor_mock.Level.Queue.{Absent, Distinct, Linked}

-- The links: `next` and `prev` of each slot, `head` and `tail` of the level; `none` is NULL.
pub record Links : Type 0 where
  pub next : ℕ → Option ℕ
  pub prev : ℕ → Option ℕ
  pub head : Option ℕ
  pub tail : Option ℕ

-- Whether a pointer points to a slot.
abbrev pub points : Option ℕ → ℕ → Bool
points none p = false
points (some z) p = p == z

-- A write of a link of the slot that a pointer points to.
abbrev pub write_link : (ℕ → Option ℕ) → Option ℕ → Option ℕ → ℕ → Option ℕ
write_link f at v p = if points at p then v else f p

-- The writes of `level_push_back` to links.
unfoldable pub link_back : ℕ → Links → Links
link_back p l = record {
  next = write_link (write_link l.next (some p) none) l.tail (some p);
  prev = write_link l.prev (some p) l.tail;
  head = if is_some l.tail then l.head else some p;
  tail = some p;
}

-- The writes of `level_remove` to links.
unfoldable pub unlink_links : ℕ → Links → Links
unlink_links p l =
    let before = l.prev p in
    let next = write_link l.next before (l.next p) in
    let after = next p in
    record {
      next = write_link next (some p) none;
      prev = write_link (write_link l.prev after before) (some p) none;
      head = if is_some before then l.head else l.next p;
      tail = if is_some after then l.tail else before;
    }

-- From a slot whose predecessor is `before`, the links run through the slots of the list, in both
-- directions, and end at `last`.
abbrev pub Runs :
    (next prev : ℕ → Option ℕ) → (before : Option ℕ) → List ℕ → (last : Option ℕ) → Type 0
Runs next prev before [] last = last ≡ before
Runs next prev before (p ∷ q) last =
    (prev p ≡ before) × (next p ≡ head? q) × Runs next prev (some p) q last

-- The links of a level link the slots of the list.
pub record Represents (l : Links) (q : List ℕ) : Type 0 where
  pub head_ok : l.head ≡ head? q
  pub runs : Runs l.next l.prev none q l.tail

-- Links that agree on the slots of a list run through it alike.
pub Runs-same :
    (nx pv nx' pv' : ℕ → Option ℕ) (b : Option ℕ) (q : List ℕ) (e : Option ℕ)
    → All (λ p. (nx' p ≡ nx p) × (pv' p ≡ pv p)) q
    → Runs nx pv b q e
    → Runs nx' pv' b q e
Runs-same nx pv nx' pv' b [] e a r = r
Runs-same nx pv nx' pv' b (p ∷ q) e ((an, ap'), a) (rp, rn, r) =
    (ap' ∙ rp, an ∙ rn, Runs-same nx pv nx' pv' (some p) q e a r)

-- A run through some slots ends at one of them.
pub last_inside :
    (nx pv : ℕ → Option ℕ) (b : Option ℕ) (x : ℕ) (q : List ℕ) (e : Option ℕ)
    → Runs nx pv b (x ∷ q) e
    → (z : ℕ) × (e ≡ some z) × Linked z (x ∷ q)
last_inside nx pv b x [] e (_, _, r) = (x, r, inl refl)
last_inside nx pv b x (y ∷ q) e (_, _, r) =
    let (z, is, within) = last_inside nx pv (some x) y q e r in (z, is, inr within)

pub apart : (x z : ℕ) (q : List ℕ) → Absent x q → Linked z q → x ≢ z
apart x z [] _ k = elim k [ ]
apart x z (y ∷ q) (n, a) (inl e) = λ h. n (e ∙ sym h)
apart x z (y ∷ q) (n, a) (inr k) = apart x z q a k

write_other :
    (f : ℕ → Option ℕ) (z : ℕ) (v : Option ℕ) (p : ℕ) → p ≢ z → write_link f (some z) v p ≡ f p
write_other f z v p n = rw (==_false p z n) refl

write_same : (f : ℕ → Option ℕ) (z : ℕ) (v : Option ℕ) → write_link f (some z) v z ≡ v
write_same f z v = rw (==_refl z) refl

-- Linking a slot behind the last one.
Runs-back :
    (nx pv : ℕ → Option ℕ) (b : Option ℕ) (q : List ℕ) (e : Option ℕ) (p : ℕ)
    → points b p ≡ false
    → Runs nx pv b q e
    → Distinct q
    → Absent p q
    → Runs
        (write_link (write_link nx (some p) none) e (some p))
        (write_link pv (some p) e)
        b
        (q ++ (p ∷ []))
        (some p)
Runs-back nx pv b [] e p out r d a = (write_same pv p e ∙ r, rw (r, out, ==_refl p) refl, refl)
Runs-back nx pv b (x ∷ []) e p out (rp, rn, r) d a = (
  write_other pv p e x a.0 ∙ rp,
  rw (r, ==_refl x) refl,
  Runs-back nx pv (some x) [] e p (==_false p x (λ h. a.0 (sym h))) r tt tt,
)
Runs-back nx pv b (x ∷ y ∷ q) e p out (rp, rn, r) d a =
    let (z, is, inside) = last_inside nx pv (some x) y q e r in
    let other : x ≢ z = apart x z (y ∷ q) d.0 inside in
    (
      write_other pv p e x a.0 ∙ rp,
      rw (is, ==_false x z other, ==_false x p a.0) rn,
      Runs-back nx pv (some x) (y ∷ q) e p (==_false p x (λ h. a.0 (sym h))) r d.1 a.1,
    )

tail_some : (l : Links) (x : ℕ) (q : List ℕ) → Represents l (x ∷ q) → is_some l.tail ≡ true
tail_some l x q h = let (z, is, _) = last_inside l.next l.prev none x q l.tail h.runs in rw is refl

-- `level_push_back` links an order behind all others: the links then represent the queue with the
-- order at its end.
pub link_back-Represents :
    (l : Links) (q : List ℕ) (p : ℕ)
    → Represents l q
    → Distinct q
    → Absent p q
    → Represents (link_back p l) (q ++ (p ∷ []))
unfolding link_back
link_back-Represents l [] p h d a = record {
  head_ok = rw h.runs refl;
  runs = Runs-back l.next l.prev none [] l.tail p refl h.runs d a;
}
link_back-Represents l (x ∷ q) p h d a = record {
  head_ok = rw (tail_some l x q h) h.head_ok;
  runs = Runs-back l.next l.prev none (x ∷ q) l.tail p refl h.runs d a;
}
