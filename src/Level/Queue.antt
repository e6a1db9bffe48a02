-- ===== src/Level/Queue.antt =====
-- The queue of a price level (exchange/include/price_level.h): its quantity, its slots, and writes
-- to them.
use trading_sor_mock.Base.{
  ℕ, ◌+◌, ◌≤◌, ◌<◌, ◌≡◌, refl, sym, ◌∙◌, ◌≢◌, ◌⊎◌, inl, inr, List, [], ◌∷◌, ◌++◌, arith, subst,
  ◌==◌, ==_iff, ==_refl, Bool-cases, length, All,
}
use trading_sor_mock.Types.{Order, order_remaining_qty}
use trading_sor_mock.Level.{Slots, store, unlink}

-- The open quantity of the orders in a queue.
unfoldable pub queue_qty : Slots → List ℕ → ℕ
queue_qty slots [] = 0
queue_qty slots (p ∷ q) = order_remaining_qty (slots p) + queue_qty slots q

abbrev pub Absent : ℕ → List ℕ → Type 0
Absent p = All (λ q. q ≢ p)

abbrev pub Distinct : List ℕ → Type 0
Distinct [] = Unit
Distinct (p ∷ q) = Absent p q × Distinct q

-- A slot of the queue.
abbrev pub Linked : ℕ → List ℕ → Type 0
Linked p [] = ⊥
Linked p (q ∷ qs) = (q ≡ p) ⊎ Linked p qs

-- Every order in the queue has something open.
abbrev pub AllOpen : Slots → List ℕ → Type 0
AllOpen slots = All (λ p. 0 < order_remaining_qty (slots p))

pub store_same : (slots : Slots) (p : ℕ) (o : Order) → store slots p o p ≡ o
unfolding store
store_same slots p o = ground arith

pub store_other : (slots : Slots) (p q : ℕ) (o : Order) → q ≢ p → store slots p o q ≡ slots q
unfolding store
store_other slots p q o h = ground arith

-- A write to a slot that is not in the queue is not seen there.
pub queue_qty-store :
    (slots : Slots) (p : ℕ) (o : Order) (q : List ℕ)
    → Absent p q
    → queue_qty (store slots p o) q ≡ queue_qty slots q
unfolding queue_qty
queue_qty-store slots p o [] h = refl
queue_qty-store slots p o (x ∷ q) h =
    rw (store_other slots p x o h.0, queue_qty-store slots p o q h.1)

pub AllOpen-store :
    (slots : Slots) (p : ℕ) (o : Order) (q : List ℕ)
    → Absent p q
    → AllOpen slots q
    → AllOpen (store slots p o) q
AllOpen-store slots p o [] h a = tt
AllOpen-store slots p o (x ∷ q) h a =
    (rw (store_other slots p x o h.0) a.0, AllOpen-store slots p o q h.1 a.1)

pub queue_qty-append :
    (slots : Slots) (q : List ℕ) (p : ℕ)
    → queue_qty slots (q ++ (p ∷ [])) ≡ queue_qty slots q + order_remaining_qty (slots p)
unfolding queue_qty
queue_qty-append slots [] p = omega arith
queue_qty-append slots (x ∷ q) p = omega (arith, queue_qty-append slots q p)

pub Absent-append : (p : ℕ) (q : List ℕ) (x : ℕ) → Absent p q → x ≢ p → Absent p (q ++ (x ∷ []))
Absent-append p [] x h n = (n, tt)
Absent-append p (y ∷ q) x h n = (h.0, Absent-append p q x h.1 n)

pub Distinct-append : (q : List ℕ) (p : ℕ) → Distinct q → Absent p q → Distinct (q ++ (p ∷ []))
Distinct-append [] p d a = (tt, tt)
Distinct-append (x ∷ q) p d a =
    (Absent-append x q p d.0 (λ e. a.0 (sym e)), Distinct-append q p d.1 a.1)

pub Absent-unlink : (x p : ℕ) (q : List ℕ) → Absent x q → Absent x (unlink p q)
unfolding unlink
Absent-unlink x p [] h = tt
Absent-unlink x p (y ∷ q) h = ground (arith, Absent-unlink x p q h.1)

pub Distinct-unlink : (p : ℕ) (q : List ℕ) → Distinct q → Distinct (unlink p q)
unfolding unlink
Distinct-unlink p [] d = tt
Distinct-unlink p (x ∷ q) d = ground (arith, Distinct-unlink p q d.1, Absent-unlink x p q d.0)

pub AllOpen-unlink :
    (slots : Slots) (p : ℕ) (q : List ℕ) → AllOpen slots q → AllOpen slots (unlink p q)
unfolding unlink
AllOpen-unlink slots p [] a = tt
AllOpen-unlink slots p (x ∷ q) a = ground (arith, AllOpen-unlink slots p q a.1)

pub queue_qty-unlink :
    (slots : Slots) (p : ℕ) (q : List ℕ)
    → Linked p q
    → queue_qty slots (unlink p q) + order_remaining_qty (slots p) ≡ queue_qty slots q
unfolding unlink queue_qty
queue_qty-unlink slots p [] l = elim l [ ]
queue_qty-unlink slots p (x ∷ q) (inl e) = rw (e, ==_refl, unlink) (ground arith)
queue_qty-unlink slots p (x ∷ q) (inr l) = ground (arith, queue_qty-unlink slots p q l)

pub length-unlink : (p : ℕ) (q : List ℕ) → Linked p q → length (unlink p q) + 1 ≡ length q
unfolding unlink
length-unlink p [] l = elim l [ ]
length-unlink p (x ∷ q) (inl e) = ground arith
length-unlink p (x ∷ q) (inr l) = ground (arith, length-unlink p q l)

-- A slot that was unlinked from a queue of distinct slots is gone from it.
pub Absent-unlink_self : (p : ℕ) (q : List ℕ) → Distinct q → Absent p (unlink p q)
unfolding unlink
Absent-unlink_self p [] d = tt
Absent-unlink_self p (x ∷ q) d = elim (Bool-cases (x == p)) [
  | inl e ↦
      subst (λ (z : List ℕ). Absent p z) (unfold unlink in sym (rw e))
        (subst (λ z. Absent z q) ((==_iff x p).0 e) d.0)
  | inr e ↦ rw (e, unlink) (ground arith, Absent-unlink_self p q d.1)
]

pub Absent-ne : (x p : ℕ) (q : List ℕ) → Absent x q → Linked p q → x ≢ p
Absent-ne x p [] a l = elim l [ ]
Absent-ne x p (y ∷ q) a (inl e) = λ f. a.0 (e ∙ sym f)
Absent-ne x p (y ∷ q) a (inr l) = Absent-ne x p q a.1 l

-- A write to one of the distinct slots of a queue changes its sum by the difference.
pub queue_qty-store-Linked :
    (slots : Slots) (p : ℕ) (o : Order) (q : List ℕ)
    → Distinct q
    → Linked p q
    → queue_qty (store slots p o) q + order_remaining_qty (slots p)
      ≡ queue_qty slots q + order_remaining_qty o
unfolding queue_qty
queue_qty-store-Linked slots p o [] d l = elim l [ ]
queue_qty-store-Linked slots p o (x ∷ q) d (inl e) =
    let a : Absent p q = subst (λ z. Absent z q) e d.0 in
    rw (e, store_same, queue_qty-store slots p o q a) (omega arith)
queue_qty-store-Linked slots p o (x ∷ q) d (inr l) =
    rw (store_other slots p x o (Absent-ne x p q d.0 l))
      (omega (arith, queue_qty-store-Linked slots p o q d.1 l))

pub AllOpen-store-Linked :
    (slots : Slots) (p : ℕ) (o : Order) (q : List ℕ)
    → 0 < order_remaining_qty o
    → AllOpen slots q
    → AllOpen (store slots p o) q
AllOpen-store-Linked slots p o [] h a = tt
AllOpen-store-Linked slots p o (x ∷ q) h a =
    (unfold store in ground arith, AllOpen-store-Linked slots p o q h a.1)

pub Linked-le :
    (slots : Slots) (p : ℕ) (q : List ℕ)
    → Linked p q
    → order_remaining_qty (slots p) ≤ queue_qty slots q
unfolding queue_qty
Linked-le slots p [] l = elim l [ ]
Linked-le slots p (x ∷ q) (inl e) = rw e (omega arith)
Linked-le slots p (x ∷ q) (inr l) = omega (arith, Linked-le slots p q l)

pub Linked-open :
    (slots : Slots) (p : ℕ) (q : List ℕ)
    → Linked p q
    → AllOpen slots q
    → 0 < order_remaining_qty (slots p)
Linked-open slots p [] l a = elim l [ ]
Linked-open slots p (x ∷ q) (inl e) a = rw (← e) a.0
Linked-open slots p (x ∷ q) (inr l) a = Linked-open slots p q l a.1
