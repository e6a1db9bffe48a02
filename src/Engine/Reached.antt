-- ===== src/Engine/Reached.antt =====
-- From its creation on, an engine is in agreement (exchange/src/match/match_engine.c).
use trading_sor_mock.Base.{
  ℕ, zero, suc, ◌+◌, ◌≤◌, ◌<◌, ◌≡◌, refl, sym, ap, ◌≢◌, inl, inr, Option, none, some, List, [], ◌∷◌,
  arith, subst, ltb, ◌==◌, if◌then◌else◌, lt→ltb, le→ltb_false, ==_false, Bool-cases, Option-cases,
  All,
}
use trading_sor_mock.Types.{Side, price_min, price_max, Order}
use trading_sor_mock.Tick.{TickTable}
use trading_sor_mock.Level.{PriceLevel, empty_level}
use trading_sor_mock.Level.Queue.{queue_qty, Absent, Distinct, Linked}
use trading_sor_mock.Level.Laws.{LevelOk}
use trading_sor_mock.Book.Prices.{OrderBook, book_price_none}
use trading_sor_mock.Book.Grid.{Grid}
use trading_sor_mock.Book.Create.{book_create_in_lem}
use trading_sor_mock.Book.Cache.{empty-Cached}
use trading_sor_mock.Index.{index_create}
use trading_sor_mock.Pool.{SlotLink, slot_nil, slot_at, OrderPool, order_pool_create}
use trading_sor_mock.Pool.FreeList.{FreeFrom, PoolOk}
use trading_sor_mock.Engine.State.{ExecResult, MatchEngine, match_engine_create_in}
use trading_sor_mock.Engine.{match_sweep}
use trading_sor_mock.Engine.Orders.{match_limit, match_market, match_ioc, match_fok}
use trading_sor_mock.Engine.Finish.{Swept, match_sweep-Swept}
use trading_sor_mock.Engine.Invariant.{Consistent, EngineConsistent}
use trading_sor_mock.Engine.Submit.{submit-EngineConsistent}

-- The slots from `k` on.
range : (k count : ℕ) → List ℕ
range k zero = []
range k (suc n) = k ∷ range (suc k) n

fresh_next : (capacity : ℕ) → ℕ → SlotLink
fresh_next capacity i = if ltb (i + 1) capacity then slot_at (i + 1) else slot_nil

fresh_chain :
    (capacity k n : ℕ)
    → k + suc n ≡ capacity
    → FreeFrom (fresh_next capacity) (slot_at k) (range k (suc n))
unfolding range fresh_next
fresh_chain capacity k zero e = (refl, rw (le→ltb_false (k + 1) capacity (omega (arith, e))) refl)
fresh_chain capacity k (suc n) e = (
  refl,
  let head : fresh_next capacity k ≡ slot_at (suc k) =
        rw (lt→ltb (k + 1) capacity (omega (arith, e))) (ap slot_at (omega arith)) in
      subst (λ (h : SlotLink). FreeFrom (fresh_next capacity) h (range (suc k) (suc n))) (sym head)
        (fresh_chain capacity (suc k) n (omega (arith, e))),
)

range_above : (p k n : ℕ) → p < k → Absent p (range k n)
unfolding range
range_above p k zero lt = tt
range_above p k (suc n) lt =
    ((λ e. omega (arith, e, lt)), range_above p (suc k) n (omega (arith, lt)))

range-Distinct : (k n : ℕ) → Distinct (range k n)
unfolding range
range-Distinct k zero = tt
range-Distinct k (suc n) = (range_above k (suc k) n (omega arith), range-Distinct (suc k) n)

range_below : (capacity k n : ℕ) → k + n ≤ capacity → All (λ i. i < capacity) (range k n)
unfolding range
range_below capacity k zero le = tt
range_below capacity k (suc n) le =
    (omega (arith, le), range_below capacity (suc k) n (omega (arith, le)))

-- A new pool: every slot is free.
pub order_pool_create-PoolOk :
    (capacity : ℕ) (pool : OrderPool) → order_pool_create capacity ≡ some pool → PoolOk pool
unfolding order_pool_create fresh_next
order_pool_create-PoolOk zero pool e = absurd (no_pool e)
  where
    no_pool : ◌≢◌ {A = Option OrderPool} none (some pool)
    no_pool e = cc e
order_pool_create-PoolOk (suc n) pool e =
    subst PoolOk (same (rw (==_false (suc n) 0 (omega arith)) at e)) record {
      free = range 0 (suc n);
      chain = fresh_chain (suc n) 0 n (omega arith);
      distinct = range-Distinct 0 (suc n);
      bounded = range_below (suc n) 0 (suc n) (omega arith);
    }
  where
    same : {a b : OrderPool} → ◌≡◌ {A = Option OrderPool} (some a) (some b) → a ≡ b
    same {a = a} e = ap (λ (o : Option OrderPool). elim o [ none ↦ a | some x ↦ x ]) e

some_injective : {A : Type 0} {a b : A} → some a ≡ some b → a ≡ b
some_injective {A = A} {a = a} e = ap (λ (o : Option A). elim o [ none ↦ a | some x ↦ x ]) e

none_not_some : {A : Type 0} {a : A} → ◌≢◌ {A = Option A} none (some a)
none_not_some e = cc e

-- A book without orders, with the slots of any pool.
empty-Consistent :
    (book : OrderBook) (pool : OrderPool)
    → Grid book
    → ((s : Side) (i : ℕ) → book.levels s i ≡ empty_level)
    → ((s : Side) → book.best s ≡ book_price_none)
    → PoolOk pool
    → Consistent book pool
unfolding queue_qty
empty-Consistent book pool g levels best pool_ok = record {
  book_ok = record {
    grid = g;
    cached = empty-Cached book levels best;
    orders = record {
      levels_ok = λ s i.
          subst (LevelOk pool.slots) (sym (levels s i))
            record { total = refl; count = refl; distinct = tt; open_orders = tt };
      placed = λ s i p l. absurd (subst (λ (y : PriceLevel). Linked p y.queue) (levels s i) l);
    };
  };
  pool_ok = pool_ok;
  held = λ s i x l. absurd (subst (λ (y : PriceLevel). Linked x y.queue) (levels s i) l);
}

created-Consistent :
    (table : TickTable) (base capacity : ℕ) (eng : MatchEngine)
    → price_min ≤ base
    → base ≤ price_max
    → match_engine_create_in table base capacity ≡ some eng
    → EngineConsistent eng
unfolding match_engine_create_in
created-Consistent table base capacity eng lo hi h =
    let (book, made, _, _, _, priced, levels, best) = book_create_in_lem table base lo hi in
    elim (Bool-cases (capacity == 0)) [
      | inl e ↦ absurd (none_not_some (rw (e) at h))
      | inr e ↦ elim (Option-cases (order_pool_create capacity)) [
        | inl f ↦ absurd (none_not_some (rw (e, made, f) at h))
        | inr (pool, f) ↦ elim (Option-cases (index_create capacity)) [
          | inl i ↦ absurd (none_not_some (rw (e, made, f, i) at h))
          | inr (index, i) ↦ subst EngineConsistent (some_injective (rw (e, made, f, i) at h)) (
              empty-Consistent book pool priced.grid levels best
                (order_pool_create-PoolOk capacity pool f))
        ]
      ]
    ]

-- The kinds of orders, and submitting one after the other.
pub data Submission : Type 0 where
  limit_order market_order ioc_order fok_order : Order → Submission

abbrev pub submit : MatchEngine → Submission → MatchEngine
submit eng (limit_order req) = (match_limit eng req).1
submit eng (market_order req) = (match_market eng req).1
submit eng (ioc_order req) = (match_ioc eng req).1
submit eng (fok_order req) = (match_fok eng req).1

abbrev pub submit_all : MatchEngine → List Submission → MatchEngine
submit_all eng [] = eng
submit_all eng (s ∷ ss) = submit_all (submit eng s) ss

submit_all-Consistent :
    (eng : MatchEngine) (ss : List Submission)
    → EngineConsistent eng
    → EngineConsistent (submit_all eng ss)
submit_all-Consistent eng [] h = h
submit_all-Consistent eng (limit_order req ∷ ss) h =
    submit_all-Consistent (match_limit eng req).1 ss (submit-EngineConsistent eng req h).0
submit_all-Consistent eng (market_order req ∷ ss) h =
    submit_all-Consistent (match_market eng req).1 ss (submit-EngineConsistent eng req h).1
submit_all-Consistent eng (ioc_order req ∷ ss) h =
    submit_all-Consistent (match_ioc eng req).1 ss (submit-EngineConsistent eng req h).2
submit_all-Consistent eng (fok_order req ∷ ss) h =
    submit_all-Consistent (match_fok eng req).1 ss (submit-EngineConsistent eng req h).3

-- An engine created for a base price in the range of prices, after any orders of any kind one after
-- the other, is in agreement: levels, orders, best prices and slots, as `Consistent` says. So a sweep of
-- any further order ends by its own condition, with everything filled or nothing left that crosses.
pub submit_all-Reached :
    (table : TickTable) (base capacity : ℕ) (eng : MatchEngine) (ss : List Submission)
    → price_min ≤ base
    → base ≤ price_max
    → match_engine_create_in table base capacity ≡ some eng
    → EngineConsistent (submit_all eng ss)
      × ((taker : Order) (bound : ℕ) (out : ExecResult)
          → Swept taker bound (match_sweep (submit_all eng ss) taker bound out))
submit_all-Reached table base capacity eng ss lo hi made =
    let h = submit_all-Consistent eng ss (created-Consistent table base capacity eng lo hi made) in
    (h, λ taker bound out. match_sweep-Swept (submit_all eng ss) taker bound out h.book_ok)
