-- ===== src/Engine/Checks.antt =====
-- The theorems on the engine's invariant at an engine with two asks, and at one just created.
use trading_sor_mock.Base.{
  ℕ, zero, suc, ◌≡◌, refl, inl, inr, none, some, List, [], ◌∷◌, arith, subst, leb, le→leb,
  Bool-cases,
}
use trading_sor_mock.Types.{Side, buy, sell, Order}
use trading_sor_mock.Tick.{krx_table, tick_size_in, round_to_tick_in, tick_segment_end_in}
use trading_sor_mock.Level.{Slots, empty_level}
use trading_sor_mock.Book.Prices.{
  index_in, find_price, price_to_index, find_index, index_to_price, compute_band, segment_at,
  segments_from, book_create_in,
}
use trading_sor_mock.Book.{improves}
use trading_sor_mock.Index.{buckets_for, index_create}
use trading_sor_mock.Pool.{order_pool_create}
use trading_sor_mock.Engine.State.{
  ExecResult, MatchEngine, match_engine_create_in, match_result_init,
}
use trading_sor_mock.Engine.{match_sweep}
use trading_sor_mock.Engine.Orders.{match_limit, match_market, match_ioc, match_fok}
use trading_sor_mock.Level.Queue.{queue_qty, Linked}
use trading_sor_mock.Level.Laws.{LevelOk}
use trading_sor_mock.Book.Grid.{Grid}
use trading_sor_mock.Book.Best.{Cached}
use trading_sor_mock.Book.Placed.{Placed}
use trading_sor_mock.Engine.Taking.{EngineOk}
use trading_sor_mock.Engine.Finish.{Swept, match_sweep-Swept}
use trading_sor_mock.Engine.Complete.{FokOutcome, match_fok-FokOutcome}
use trading_sor_mock.Pool.FreeList.{PoolOk, InUse}
use trading_sor_mock.Engine.Invariant.{EngineConsistent}
use trading_sor_mock.Engine.Submit.{submit-EngineConsistent}
use trading_sor_mock.Engine.Reached.{
  Submission, limit_order, ioc_order, fok_order, submit_all, submit_all-Reached,
}
use trading_sor_mock.Engine.Examples.{order_of, day_start, asks_book, asks, two_asks, bid_seven}

asks-Grid : Grid asks_book
unfolding price_to_index find_price index_in index_to_price find_index
asks-Grid = record {
  index_ok = λ price idx e. ground arith;
  price_ok = λ idx lt. ground (arith, lt);
  mono = λ i j ij jn. ground (arith, ij, jn);
  positive = λ idx lt. ground (arith, lt);
}

asks-Cached : Cached asks_book
unfolding index_to_price find_index improves
asks-Cached buy = record {
  beats = λ j lt full. absurd (full refl);
  held = λ some_best. absurd (some_best refl);
}
asks-Cached sell = record {
  beats = λ j lt full. (omega arith, ground arith);
  held = λ _. (0, omega arith, omega arith, refl);
}

one_ask : (i : ℕ) → LevelOk asks (record { queue = i ∷ []; total_qty = 5; order_count = 1 })
unfolding queue_qty
one_ask i = record {
  total = refl;
  count = refl;
  distinct = (tt, tt);
  open_orders = (omega arith, tt);
}

no_orders : (slots : Slots) → LevelOk slots empty_level
unfolding queue_qty
no_orders slots = record { total = refl; count = refl; distinct = tt; open_orders = tt }

placed_ask :
    (i p : ℕ)
    → Linked p (asks_book.levels sell i).queue
    → price_to_index asks_book (asks p).price ≡ some i
unfolding price_to_index find_price index_in
placed_ask zero p (inl e) = subst (λ x. price_to_index asks_book (asks x).price ≡ some 0) e refl
placed_ask zero p (inr l) = elim l [ ]
placed_ask (suc zero) p (inl e) =
    subst (λ x. price_to_index asks_book (asks x).price ≡ some 1) e refl
placed_ask (suc zero) p (inr l) = elim l [ ]
placed_ask (suc (suc i)) p l = absurd (rw (le→leb 2 (suc (suc i)) (omega arith)) at l)

asks-Placed : Placed asks asks_book
asks-Placed = record { levels_ok = levels_ok; placed = placed }
  where
    levels_ok : (s : Side) (i : ℕ) → LevelOk asks (asks_book.levels s i)
    levels_ok buy i = no_orders asks
    levels_ok sell i = elim (Bool-cases (leb 2 i)) [
      | inl e ↦ rw (e) (no_orders asks)
      | inr e ↦ rw (e) (one_ask i)
    ]

    placed :
        (s : Side) (i p : ℕ)
        → Linked p (asks_book.levels s i).queue
        → ((asks p).side ≡ s) × (price_to_index asks_book (asks p).price ≡ some i)
    placed buy i p l = elim l [ ]
    placed sell i p l = (refl, placed_ask i p l)

two_asks-EngineOk : EngineOk two_asks
two_asks-EngineOk = record { grid = asks-Grid; cached = asks-Cached; orders = asks-Placed }

two_asks-PoolOk : PoolOk two_asks.pool
two_asks-PoolOk = record {
  free = 2 ∷ 3 ∷ 4 ∷ 5 ∷ 6 ∷ 7 ∷ [];
  chain = (refl, (refl, (refl, (refl, (refl, (refl, refl))))));
  distinct = ground arith;
  bounded = ground arith;
}

two_asks-held : (s : Side) (i x : ℕ) → Linked x (asks_book.levels s i).queue → InUse two_asks.pool x
two_asks-held buy i x l = elim l [ ]
two_asks-held sell zero x (inl e) = subst (InUse two_asks.pool) e (refl, omega arith)
two_asks-held sell zero x (inr l) = elim l [ ]
two_asks-held sell (suc zero) x (inl e) = subst (InUse two_asks.pool) e (refl, omega arith)
two_asks-held sell (suc zero) x (inr l) = elim l [ ]
two_asks-held sell (suc (suc i)) x l = absurd (rw (le→leb 2 (suc (suc i)) (omega arith)) at l)

two_asks-Consistent : EngineConsistent two_asks
two_asks-Consistent = record {
  book_ok = two_asks-EngineOk;
  pool_ok = two_asks-PoolOk;
  held = two_asks-held;
}

submit-EngineConsistent_example :
    EngineConsistent (match_limit two_asks bid_seven).1
    × EngineConsistent (match_market two_asks bid_seven).1
    × EngineConsistent (match_ioc two_asks bid_seven).1
    × EngineConsistent (match_fok two_asks bid_seven).1
submit-EngineConsistent_example = submit-EngineConsistent two_asks bid_seven two_asks-Consistent

match_sweep-Swept_example :
    Swept bid_seven 10_010 (match_sweep two_asks bid_seven 10_010 (match_result_init 7))
match_sweep-Swept_example =
    match_sweep-Swept two_asks bid_seven 10_010 (match_result_init 7) two_asks-EngineOk

match_fok-FokOutcome_example : FokOutcome two_asks bid_seven (match_fok two_asks bid_seven)
match_fok-FokOutcome_example = match_fok-FokOutcome two_asks bid_seven two_asks-EngineOk

-- An engine for a base price of 10,000 with room for eight orders.
abbrev day_engine : MatchEngine
day_engine = elim (match_engine_create_in krx_table 10_000 8) [ none ↦ two_asks | some eng ↦ eng ]

day_engine_created : match_engine_create_in krx_table 10_000 8 ≡ some day_engine
unfolding match_engine_create_in book_create_in compute_band segments_from segment_at
    round_to_tick_in tick_size_in tick_segment_end_in order_pool_create index_create buckets_for
day_engine_created = refl

abbrev some_orders : List Submission
some_orders =
    limit_order (order_of 1 10_010 5 sell day_start)
    ∷ ioc_order (order_of 2 10_010 3 buy day_start)
    ∷ fok_order (order_of 3 10_010 9 buy day_start)
    ∷ []

submit_all-Reached_example :
    EngineConsistent (submit_all day_engine some_orders)
    × ((taker : Order) (bound : ℕ) (out : ExecResult)
        → Swept taker bound (match_sweep (submit_all day_engine some_orders) taker bound out))
submit_all-Reached_example =
    submit_all-Reached krx_table 10_000 8 day_engine some_orders (omega arith) (omega arith)
      day_engine_created
