-- ===== src/Engine/Rest.antt =====
-- Resting what remains of an order keeps the book, its orders and the pool in agreement
-- (`match_rest` of exchange/src/match/match_engine.c).
use mathlib.Core.Path.{fun_ext}
use trading_sor_mock.Base.{
  ℕ, ◌-◌, ◌≡◌, refl, sym, ap, ◌≢◌, inl, inr, Option, some, subst, ◌==◌, ==_iff, Bool-cases,
}
use trading_sor_mock.Types.{Order, is_ok}
use trading_sor_mock.Level.{Slots, store}
use trading_sor_mock.Level.Queue.{Absent-ne}
use trading_sor_mock.Book.Prices.{OrderBook}
use trading_sor_mock.Book.{book_insert, book_remove}
use trading_sor_mock.Book.Insert.{book_insert-Cached, book_insert-Grid}
use trading_sor_mock.Book.Placed.{BookOk, Unlinked, Absent-intro}
use trading_sor_mock.Book.Taking.{Standing, book_remove-BookOk, book_remove-NoNew}
use trading_sor_mock.Book.Inserting.{store-BookOk, Inserted, book_insert_cases}
use trading_sor_mock.Index.{index_put}
use trading_sor_mock.Pool.{
  slot_in_use, OrderPool, cleared_order, order_pool_acquire, order_pool_release,
}
use trading_sor_mock.Pool.FreeList.{PoolOk, InUse, acquire_cases, order_pool_release_lem}
use trading_sor_mock.Engine.State.{ExecResult, MatchEngine}
use trading_sor_mock.Engine.{match_rest}
use trading_sor_mock.Engine.Taking.{order_pool_release-slots}
use trading_sor_mock.Engine.Invariant.{Consistent, EngineConsistent, with_slots-PoolOk}

-- Releasing a slot that no level links.
released-Consistent :
    (book : OrderBook) (pool : OrderPool) (p : ℕ)
    → Consistent book pool
    → InUse pool p
    → Unlinked p book
    → Consistent book (order_pool_release pool p)
released-Consistent book pool p h used unlinked =
    let (pool_ok, others) = order_pool_release_lem pool p h.pool_ok used in
    record {
      book_ok =
          subst (λ (s : Slots). BookOk s book) (sym (order_pool_release-slots pool p)) h.book_ok;
      pool_ok = pool_ok;
      held = λ s i x l.
          others x (λ e. Absent-ne p x (book.levels s i).queue (unlinked s i) l (sym e))
            (h.held s i x l);
    }

store_self : (slots : Slots) (p : ℕ) → store slots p (slots p) ≡ slots
unfolding store
store_self slots p = fun_ext (λ x. elim (Bool-cases (x == p)) [
  | inl e ↦ rw (e) (ap slots (sym ((==_iff x p).0 e)))
  | inr e ↦ rw (e) refl
])

-- Taking an order out of the book again, its slot being kept.
removed-Consistent :
    (book : OrderBook) (pool : OrderPool) (idx p : ℕ)
    → Consistent book pool
    → Standing pool.slots book idx p
    → Consistent (book_remove pool.slots book p).1 pool
      × Unlinked p (book_remove pool.slots book p).1
removed-Consistent book pool idx p h standing =
    let (no_new, unlinked) = book_remove-NoNew pool.slots book idx p h.book_ok.orders standing in
    (
      record {
        book_ok =
            subst (λ (s : Slots). BookOk s (book_remove pool.slots book p).1)
              (store_self pool.slots p)
              (book_remove-BookOk pool.slots book idx p (pool.slots p) h.book_ok standing
                (refl, refl));
        pool_ok = h.pool_ok;
        held = λ s i x l. h.held s i x (no_new s i x l);
      },
      unlinked,
    )

-- The book with the order inserted.
Inserted-Consistent :
    (book : OrderBook) (pool : OrderPool) (p : ℕ)
    → Consistent book pool
    → InUse pool p
    → Inserted pool.slots book (book_insert pool.slots book p).1 p
    → Consistent (book_insert pool.slots book p).1 pool
Inserted-Consistent book pool p h used there = record {
  book_ok = record {
    grid = book_insert-Grid pool.slots book p h.book_ok.grid;
    cached = book_insert-Cached pool.slots book p h.book_ok.grid h.book_ok.cached;
    orders = there.orders_ok;
  };
  pool_ok = h.pool_ok;
  held = λ s i x l. elim (there.new_only s i x l) [
    | inl m ↦ h.held s i x m
    | inr same ↦ subst (λ y. InUse pool y) (sym same) used
  ];
}

-- The slot that was acquired, with the order in it.
filled_slot-Consistent :
    (eng : MatchEngine) (pool : OrderPool) (p : ℕ) (o : Order)
    → EngineConsistent eng
    → eng.pool.next p ≢ slot_in_use
    → pool.slots ≡ store eng.pool.slots p cleared_order
    → PoolOk pool
    → ((x : ℕ) → InUse eng.pool x → InUse pool x)
    → Consistent eng.book (record pool { slots = store pool.slots p o }) × Unlinked p eng.book
filled_slot-Consistent eng pool p o h fresh slots_at pool_ok keeps =
    let unlinked : Unlinked p eng.book =
      λ s i. Absent-intro p (eng.book.levels s i).queue (λ l. fresh (h.held s i p l).0) in
    let cleared : BookOk pool.slots eng.book =
      subst (λ (s : Slots). BookOk s eng.book) (sym slots_at)
        (store-BookOk eng.pool.slots eng.book p cleared_order unlinked h.book_ok) in
    (
      record {
        book_ok = store-BookOk pool.slots eng.book p o unlinked cleared;
        pool_ok = with_slots-PoolOk pool (store pool.slots p o) pool_ok;
        held = λ s i x l. keeps x (h.held s i x l);
      },
      unlinked,
    )

pub match_rest-Consistent :
    (eng : MatchEngine) (req : Order) (remaining : ℕ) (out : ExecResult)
    → EngineConsistent eng
    → EngineConsistent (match_rest eng req remaining out).1
unfolding match_rest
match_rest-Consistent eng req remaining out h = elim (acquire_cases eng.pool h.pool_ok) [
  | inl e ↦ rw (e, match_rest) h
  | inr (p, pool, e, fresh, slots_at, pool_ok, used, keeps) ↦
      let given : (order_pool_acquire eng.pool).0 ≡ some p =
        ap (λ (r : Option ℕ × OrderPool). r.0) e in
      let left_over : (order_pool_acquire eng.pool).1 ≡ pool =
        ap (λ (r : Option ℕ × OrderPool). r.1) e in
      let o : Order = record req { filled_qty = req.qty - remaining } in
      let pool' : OrderPool = record pool { slots = store pool.slots p o } in
      let (ready, unlinked) = filled_slot-Consistent eng pool p o h fresh slots_at pool_ok keeps in
      elim (book_insert_cases pool'.slots eng.book p ready.book_ok.grid ready.book_ok.orders
        unlinked) [
          | inl (refused, same) ↦
              rw (given, left_over, refused, match_rest)
                (subst (λ (b : OrderBook). Consistent b (order_pool_release pool' p)) (sym same)
                  (released-Consistent eng.book pool' p ready used unlinked))
          | inr (accepted, there) ↦
              let inserted = Inserted-Consistent eng.book pool' p ready used there in
              elim (Bool-cases (is_ok (index_put eng.index req.id p).0)) [
                | inl indexed ↦ rw (given, left_over, accepted, indexed, match_rest) inserted
                | inr full ↦
                    let (idx, standing) = there.stands in
                    let (left, gone) =
                      removed-Consistent (book_insert pool'.slots eng.book p).1 pool' idx p inserted
                        standing in
                    rw (given, left_over, accepted, full, match_rest)
                      (released-Consistent
                        (book_remove pool'.slots (book_insert pool'.slots eng.book p).1 p).1 pool' p
                        left used gone)
              ]
        ]
]
