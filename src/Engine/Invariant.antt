-- ===== src/Engine/Invariant.antt =====
-- The book, its orders and the pool of an engine agree, and a sweep keeps it so
-- (exchange/src/match/match_engine.c).
use trading_sor_mock.Base.{
  ℕ, zero, suc, ◌-◌, ◌≤◌, ◌<◌, ◌≡◌, refl, sym, ◌≢◌, inl, inr, false, List, arith, subst, ◌==◌,
  Bool-cases,
}
use trading_sor_mock.Types.{Side, Order, order_remaining_qty, opposite}
use trading_sor_mock.Level.{Slots, store}
use trading_sor_mock.Level.Queue.{Absent, Linked, Absent-ne}
use trading_sor_mock.Book.Prices.{OrderBook}
use trading_sor_mock.Book.{book_remove, book_reduce_qty}
use trading_sor_mock.Book.Placed.{BookOk}
use trading_sor_mock.Book.Taking.{
  Standing, book_remove-BookOk, filled_order, book_reduce_qty-BookOk, book_remove-NoNew,
  book_reduce_qty-NoNew,
}
use trading_sor_mock.Pool.{OrderPool}
use trading_sor_mock.Pool.FreeList.{PoolOk, InUse, order_pool_release_lem}
use trading_sor_mock.Engine.State.{OrderEvent, ExecResult, MatchEngine, match_emit}
use trading_sor_mock.Engine.{record_fill, take_maker, fill_of, emit_fill, sweep_from, match_sweep}
use trading_sor_mock.Engine.Taking.{order_pool_release-slots}
use trading_sor_mock.Engine.Finish.{
  SameOrders, match_emit-SameOrders, emit_fill-SameOrders, next_maker_cases, Standing-open,
}

-- The book has its invariant, the free list has, and every linked slot is given out.
pub record Consistent (book : OrderBook) (pool : OrderPool) : Type 0 where
  pub book_ok : BookOk pool.slots book
  pub pool_ok : PoolOk pool
  pub held : (s : Side) (i x : ℕ) → Linked x (book.levels s i).queue → InUse pool x

abbrev pub EngineConsistent : MatchEngine → Type 0
EngineConsistent eng = Consistent eng.book eng.pool

pub same-Consistent :
    (eng eng' : MatchEngine) → SameOrders eng' eng → EngineConsistent eng → EngineConsistent eng'
same-Consistent eng eng' (b, p) h =
    subst (λ (x : OrderPool). Consistent eng'.book x) (sym p)
      (subst (λ (x : OrderBook). Consistent x eng.pool) (sym b) h)

pub match_emit-Consistent :
    (eng : MatchEngine) (ev : OrderEvent)
    → EngineConsistent eng
    → EngineConsistent (match_emit eng ev)
match_emit-Consistent eng ev h =
    same-Consistent eng (match_emit eng ev) (match_emit-SameOrders eng ev) h

pub with_slots-PoolOk :
    (pool : OrderPool) (slots : Slots) → PoolOk pool → PoolOk (record pool { slots = slots })
with_slots-PoolOk pool slots h = record {
  free = h.free;
  chain = h.chain;
  distinct = h.distinct;
  bounded = h.bounded;
}

take_maker-Consistent :
    (eng : MatchEngine) (idx p fill_qty : ℕ)
    → EngineConsistent eng
    → Standing eng.pool.slots eng.book idx p
    → 0 < fill_qty
    → fill_qty ≤ order_remaining_qty (eng.pool.slots p)
    → EngineConsistent (take_maker eng p fill_qty)
unfolding take_maker
take_maker-Consistent eng idx p fill_qty h standing pos le =
    let slots = eng.pool.slots in
    let used = h.held (slots p).side idx p standing.1 in
    elim (Bool-cases (fill_qty == order_remaining_qty (slots p))) [
      | inl e ↦
          let (no_new, unlinked) =
            book_remove-NoNew slots eng.book idx p h.book_ok.orders standing in
          let filled : OrderPool = record eng.pool {
            slots = store slots p (filled_order (slots p) fill_qty);
          } in
          let (pool_ok, others) =
            order_pool_release_lem filled p (with_slots-PoolOk eng.pool filled.slots h.pool_ok)
              used in
          rw (e) record {
            book_ok =
                subst (λ (s : Slots). BookOk s (book_remove slots eng.book p).1)
                  (sym (order_pool_release-slots filled p))
                  (book_remove-BookOk slots eng.book idx p (filled_order (slots p) fill_qty)
                    h.book_ok standing (refl, refl));
            pool_ok = pool_ok;
            held = λ s i x l.
                others x
                  (apart p x ((book_remove slots eng.book p).1.levels s i).queue (unlinked s i) l)
                  (h.held s i x (no_new s i x l));
          }
      | inr e ↦
          let part = less fill_qty (order_remaining_qty (slots p)) e le in
          rw (e) record {
            book_ok =
                book_reduce_qty-BookOk slots eng.book idx p fill_qty h.book_ok standing pos part;
            pool_ok =
                with_slots-PoolOk eng.pool (book_reduce_qty slots eng.book p fill_qty).1 h.pool_ok;
            held = λ s i x l.
                h.held s i x
                  (book_reduce_qty-NoNew slots eng.book idx p fill_qty standing.0 pos part s i x l);
          }
    ]
  where
    less : (a b : ℕ) → (a == b) ≡ false → a ≤ b → a < b
    less a b e le = ground arith

    apart : (p x : ℕ) (q : List ℕ) → Absent p q → Linked x q → x ≢ p
    apart p x q absent l e = Absent-ne p x q absent l (sym e)

sweep_from-Consistent :
    (fuel : ℕ) (eng : MatchEngine) (taker : Order) (bound remaining : ℕ) (out : ExecResult)
    → EngineConsistent eng
    → EngineConsistent (sweep_from fuel eng taker bound remaining out).1
unfolding sweep_from fill_of
sweep_from-Consistent zero eng taker bound remaining out h = h
sweep_from-Consistent (suc fuel) eng taker bound remaining out h =
    elim (next_maker_cases eng taker bound remaining h.book_ok) [
      | inl (e, _) ↦ rw (e, sweep_from) h
      | inr (p, wanted, e, (idx, standing), _, _) ↦
          let best = eng.book.best (opposite taker.side) in
          let open_qty = Standing-open eng idx p h.book_ok standing in
          let fill = fill_of eng taker best p remaining in
          let eng' = take_maker eng p fill.qty in
          let taken =
            take_maker-Consistent eng idx p fill.qty h standing (omega (arith, wanted, open_qty))
              (omega arith) in
          let emitted = emit_fill eng' taker (eng.pool.slots p) fill (remaining - fill.qty) in
          rw (e, sweep_from)
            (sweep_from-Consistent fuel emitted taker bound (remaining - fill.qty)
              (record_fill out fill)
              (same-Consistent eng' emitted
                (emit_fill-SameOrders eng' taker (eng.pool.slots p) fill (remaining - fill.qty))
                taken))
    ]

pub match_sweep-Consistent :
    (eng : MatchEngine) (taker : Order) (bound : ℕ) (out : ExecResult)
    → EngineConsistent eng
    → EngineConsistent (match_sweep eng taker bound out).1
unfolding match_sweep
match_sweep-Consistent eng taker bound out h =
    sweep_from-Consistent taker.qty eng taker bound taker.qty out h
