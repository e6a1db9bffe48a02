-- ===== src/Pool/FreeList.antt =====
-- The free list of the pool (core/src/order_pool.c): the free slots, each once.
use trading_sor_mock.Base.{
  ℕ, ◌<◌, ◌≡◌, refl, sym, ap, ◌∙◌, ◌≢◌, ◌⊎◌, inl, inr, Option, none, some, List, [], ◌∷◌, ◌==◌,
  if◌then◌else◌, lt→leb_false, ==_refl, ==_false, Bool-cases, All,
}
use trading_sor_mock.Level.{store}
use trading_sor_mock.Level.Queue.{Absent, Distinct}
use trading_sor_mock.Pool.{
  SlotLink, slot_nil, slot_in_use, slot_at, OrderPool, cleared_order, set_next, order_pool_acquire,
  order_pool_release,
}

-- A list of slots that are linked one to the next from a head.
abbrev pub FreeFrom : (next : ℕ → SlotLink) → (head : SlotLink) → List ℕ → Type 0
FreeFrom next head [] = head ≡ slot_nil
FreeFrom next head (i ∷ free) = (head ≡ slot_at i) × FreeFrom next (next i) free

pub record PoolOk (pool : OrderPool) : Type 0 where
  pub free : List ℕ
  pub chain : FreeFrom pool.next pool.free_head free
  pub distinct : Distinct free
  pub bounded : All (λ i. i < pool.capacity) free

-- A slot that is given out.
abbrev pub InUse : OrderPool → ℕ → Type 0
InUse pool p = (pool.next p ≡ slot_in_use) × (p < pool.capacity)

abbrev with_link : (ℕ → SlotLink) → ℕ → SlotLink → ℕ → SlotLink
with_link next i link j = if j == i then link else next j

FreeFrom-with_link :
    (next : ℕ → SlotLink) (head : SlotLink) (free : List ℕ) (i : ℕ) (link : SlotLink)
    → Absent i free
    → FreeFrom next head free
    → FreeFrom (with_link next i link) head free
FreeFrom-with_link next head [] i link absent chain = chain
FreeFrom-with_link next head (j ∷ free) i link (ne, absent) (at, chain) =
    (at, rw (==_false j i ne) (FreeFrom-with_link next (next j) free i link absent chain))

-- A free slot is not in use.
head_free :
    (next : ℕ → SlotLink) (head : SlotLink) (free : List ℕ)
    → FreeFrom next head free
    → head ≢ slot_in_use
head_free next head [] at e = cc (sym at ∙ e)
head_free next head (i ∷ free) (at, _) e = cc (sym at ∙ e)

free_unused :
    (next : ℕ → SlotLink) (head : SlotLink) (free : List ℕ) (p : ℕ)
    → FreeFrom next head free
    → next p ≡ slot_in_use
    → Absent p free
free_unused next head [] p chain used = tt
free_unused next head (i ∷ free) p (at, chain) used = (
  (λ e. head_free next (next i) free chain (ap next e ∙ used)),
  free_unused next (next i) free p chain used,
)

-- What `order_pool_acquire` gives at a head of the free list.
acquired : OrderPool → SlotLink → Option ℕ × OrderPool
unfolding set_next
acquired pool slot_nil = (none, pool)
acquired pool slot_in_use = (none, pool)
acquired pool (slot_at i) = (
  some i,
  record (set_next pool i slot_in_use) {
    free_head = pool.next i;
    slots = store pool.slots i cleared_order;
  },
)

acquire_at : (pool : OrderPool) → order_pool_acquire pool ≡ acquired pool pool.free_head
unfolding order_pool_acquire acquired
acquire_at pool = by_head pool.free_head
  where
    by_head :
        (link : SlotLink)
        → elim link [
          | slot_nil ↦ (none, pool)
          | slot_in_use ↦ (none, pool)
          | slot_at i ↦ (
            some i,
            record (set_next pool i slot_in_use) {
              free_head = pool.next i;
              slots = store pool.slots i cleared_order;
            },
          )
        ]
          ≡ acquired pool link
    by_head slot_nil = refl
    by_head slot_in_use = refl
    by_head (slot_at i) = refl

-- Acquiring: the pool is used up, or it gives a slot that was not in use and marks it.
pub acquire_cases :
    (pool : OrderPool)
    → PoolOk pool
    → (order_pool_acquire pool ≡ (none, pool))
      ⊎ ((i : ℕ) × (pool' : OrderPool) × (order_pool_acquire pool ≡ (some i, pool'))
          × (pool.next i ≢ slot_in_use)
          × (pool'.slots ≡ store pool.slots i cleared_order)
          × PoolOk pool'
          × InUse pool' i
          × ((p : ℕ) → InUse pool p → InUse pool' p))
unfolding acquired set_next
acquire_cases pool h = by_free h.free h.chain h.distinct h.bounded
  where
    by_free :
        (free : List ℕ)
        → FreeFrom pool.next pool.free_head free
        → Distinct free
        → All (λ i. i < pool.capacity) free
        → (order_pool_acquire pool ≡ (none, pool))
          ⊎ ((i : ℕ) × (pool' : OrderPool) × (order_pool_acquire pool ≡ (some i, pool'))
              × (pool.next i ≢ slot_in_use)
              × (pool'.slots ≡ store pool.slots i cleared_order)
              × PoolOk pool'
              × InUse pool' i
              × ((p : ℕ) → InUse pool p → InUse pool' p))
    by_free [] chain _ _ = inl (acquire_at pool ∙ ap (acquired pool) chain)
    by_free (i ∷ free) (at, chain) (absent, distinct) (lt, bounded) = inr (
      i,
      _,
      acquire_at pool ∙ ap (acquired pool) at,
      head_free pool.next (pool.next i) free chain,
      refl,
      record {
        free = free;
        chain = FreeFrom-with_link pool.next (pool.next i) free i slot_in_use absent chain;
        distinct = distinct;
        bounded = bounded;
      },
      (rw (==_refl i) refl, lt),
      λ p used.
          (elim (Bool-cases (p == i)) [ inl e ↦ rw (e) refl | inr e ↦ rw (e) used.0 ], used.1),
    )

-- Releasing a slot in use keeps the other ones in use.
pub order_pool_release_lem :
    (pool : OrderPool) (i : ℕ)
    → PoolOk pool
    → InUse pool i
    → PoolOk (order_pool_release pool i)
      × ((p : ℕ) → p ≢ i → InUse pool p → InUse (order_pool_release pool i) p)
unfolding order_pool_release set_next
order_pool_release_lem pool i h (used, lt) =
    let absent = free_unused pool.next pool.free_head h.free i h.chain used in
    rw (lt→leb_false pool.capacity i lt, used)
      (
        record {
          free = i ∷ h.free;
          chain = (
            refl,
            rw (==_refl i) (
                FreeFrom-with_link pool.next pool.free_head h.free i pool.free_head absent h.chain),
          );
          distinct = (absent, h.distinct);
          bounded = (lt, h.bounded);
        },
        λ p ne used_p. (rw (==_false p i ne) used_p.0, used_p.1),
      )
