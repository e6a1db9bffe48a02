-- ===== src/Engine/Finish.antt =====
-- The sweep ends by its own condition, and leaves nothing behind that it could take
-- (`match_sweep` of exchange/src/match/match_engine.c).
use trading_sor_mock.Base.{
  ℕ, zero, suc, ◌-◌, ◌≤◌, ◌<◌, ◌≡◌, refl, sym, ap, ◌∙◌, ◌≢◌, ◌⊎◌, inl, inr, true, false, none, some,
  List, [], ◌∷◌, arith, subst, ◌==◌, ==_iff, Bool-cases, Option-cases, length,
}
use trading_sor_mock.Types.{Side, buy, sell, Order, order_remaining_qty, opposite}
use trading_sor_mock.Level.{Slots, head?}
use trading_sor_mock.Level.Queue.{Linked-open}
use trading_sor_mock.Book.Prices.{OrderBook, book_price_none, price_to_index, index_to_price}
use trading_sor_mock.Book.{improves, book_front}
use trading_sor_mock.Book.Placed.{BookOk}
use trading_sor_mock.Book.Taking.{Standing}
use trading_sor_mock.Pool.{OrderPool}
use trading_sor_mock.Engine.State.{OrderEvent, Fill, ExecResult, MatchEngine, match_emit}
use trading_sor_mock.Engine.{
  crosses, record_fill, next_maker, take_maker, fill_of, emit_fill, sweep_from, match_sweep,
}
use trading_sor_mock.Engine.Taking.{EngineOk, book_front-Standing, take_maker-EngineOk}

-- No order of the other side is at a price that the bound allows.
abbrev pub NothingCrosses : MatchEngine → Order → ℕ → Type 0
NothingCrosses eng taker bound =
    (j : ℕ)
    → j < eng.book.level_count
    → (eng.book.levels (opposite taker.side) j).order_count ≢ 0
    → crosses taker.side bound (index_to_price eng.book j) ≡ false

-- The fields of an engine that hold its orders.
abbrev pub SameOrders : MatchEngine → MatchEngine → Type 0
SameOrders eng eng' = (eng.book ≡ eng'.book) × (eng.pool ≡ eng'.pool)

pub match_emit-SameOrders :
    (eng : MatchEngine) (ev : OrderEvent) → SameOrders (match_emit eng ev) eng
unfolding match_emit
match_emit-SameOrders eng ev = elim (Option-cases eng.sink) [
  | inl e ↦ rw (e) (refl, refl)
  | inr (events, e) ↦ rw (e) (refl, refl)
]

pub emit_fill-SameOrders :
    (eng : MatchEngine) (taker maker : Order) (fill : Fill) (remaining : ℕ)
    → SameOrders (emit_fill eng taker maker fill remaining) eng
unfolding emit_fill
emit_fill-SameOrders eng taker maker fill remaining =
    let (b, p) = match_emit-SameOrders _ _ in
    let (b', p') = match_emit-SameOrders _ _ in (b ∙ b', p ∙ p')

pub emit_fill-EngineOk :
    (eng : MatchEngine) (taker maker : Order) (fill : Fill) (remaining : ℕ)
    → EngineOk eng
    → EngineOk (emit_fill eng taker maker fill remaining)
emit_fill-EngineOk eng taker maker fill remaining h =
    let (b, p) = emit_fill-SameOrders eng taker maker fill remaining in
    subst (λ (x : OrderPool). BookOk x.slots (emit_fill eng taker maker fill remaining).book)
      (sym p) (subst (BookOk eng.pool.slots) (sym b) h)

-- A price that the bound refuses stays refused further from the best one.
crosses_beyond :
    (side : Side) (bound price best : ℕ)
    → crosses side bound best ≡ false
    → improves (opposite side) price best ≡ false
    → crosses side bound price ≡ false
unfolding crosses improves
crosses_beyond buy bound price best h k = ground arith
crosses_beyond sell bound price best h k = ground arith

-- The head of a queue that holds orders.
head_of_full : (q : List ℕ) → length q ≢ 0 → (p : ℕ) × (head? q ≡ some p)
head_of_full [] h = absurd (h refl)
head_of_full (p ∷ q) h = (p, refl)

-- The best level has a front.
best_front :
    (slots : Slots) (book : OrderBook) (side : Side)
    → BookOk slots book
    → book.best side ≢ 0
    → (p : ℕ) × (book_front book side (book.best side) ≡ some p)
unfolding book_front
best_front slots book side h some_best =
    let (i, lt, full, price) = (h.cached side).held some_best in
    let (p, e) =
      head_of_full (book.levels side i).queue
        (λ none_left. full ((h.orders.levels_ok side i).count ∙ none_left)) in
    let at : price_to_index book (book.best side) ≡ some i =
      subst (λ x. price_to_index book x ≡ some i) price (h.grid.price_ok i lt) in
    (p, rw (at, book_front) e)

-- The condition of the loop, at an engine with the invariant: nothing is wanted, nothing crosses, or
-- there is an order to take from.
pub next_maker_cases :
    (eng : MatchEngine) (taker : Order) (bound remaining : ℕ)
    → EngineOk eng
    → ((next_maker eng taker bound remaining ≡ none)
        × ((remaining ≡ 0) ⊎ NothingCrosses eng taker bound))
      ⊎ ((p : ℕ) × (0 < remaining)
          × (next_maker eng taker bound remaining ≡ some (eng.book.best (opposite taker.side), p))
          × ((idx : ℕ) × Standing eng.pool.slots eng.book idx p)
          × ((eng.pool.slots p).side ≡ opposite taker.side)
          × (crosses taker.side bound (eng.pool.slots p).price ≡ true))
unfolding next_maker
next_maker_cases eng taker bound remaining h =
    let side = opposite taker.side in
    let best = eng.book.best side in
    elim (Bool-cases (remaining == 0)) [
      | inl e ↦ inl (rw (e) refl, inl ((==_iff remaining 0).0 e))
      | inr e ↦ elim (Bool-cases (best == book_price_none)) [
        | inl f ↦ inl (
          rw (e, f) refl,
          inr (λ j lt full. absurd (((h.cached side).beats j lt full).0 ((==_iff best 0).0 f))),
        )
        | inr f ↦ elim (Bool-cases (crosses taker.side bound best)) [
          | inr g ↦ inl (
            rw (e, f, g) refl,
            inr (λ j lt full.
                crosses_beyond taker.side bound (index_to_price eng.book j) best g
                  ((h.cached side).beats j lt full).1),
          )
          | inl g ↦
              let (p, front) = best_front eng.pool.slots eng.book side h (λ z. is_zero best z f) in
              let (standing, on_side, at_price) =
                book_front-Standing eng.pool.slots eng.book side best p h.grid h.orders front in
              inr (
                p,
                ground arith,
                rw (e, f, g, front) refl,
                standing,
                on_side,
                ap (crosses taker.side bound) at_price ∙ g,
              )
        ]
      ]
    ]
  where
    is_zero : (n : ℕ) → n ≡ 0 → ¬ ((n == 0) ≡ false)
    is_zero n z f = ground arith

-- The state in which a sweep has done all that it can.
abbrev pub Swept : Order → ℕ → ℕ × MatchEngine × ExecResult → Type 0
Swept taker bound r = EngineOk r.1 × ((r.0 ≡ 0) ⊎ NothingCrosses r.1 taker bound)

-- The open quantity of a standing order.
pub Standing-open :
    (eng : MatchEngine) (idx p : ℕ)
    → EngineOk eng
    → Standing eng.pool.slots eng.book idx p
    → 0 < order_remaining_qty (eng.pool.slots p)
Standing-open eng idx p h (_, linked) =
    let s = (eng.pool.slots p).side in
    Linked-open eng.pool.slots p (eng.book.levels s idx).queue linked
      (h.orders.levels_ok s idx).open_orders

sweep_from-Swept :
    (fuel : ℕ) (eng : MatchEngine) (taker : Order) (bound remaining : ℕ) (out : ExecResult)
    → EngineOk eng
    → remaining ≤ fuel
    → Swept taker bound (sweep_from fuel eng taker bound remaining out)
unfolding sweep_from fill_of
sweep_from-Swept zero eng taker bound remaining out h enough = (h, inl (omega (arith, enough)))
sweep_from-Swept (suc fuel) eng taker bound remaining out h enough =
    elim (next_maker_cases eng taker bound remaining h) [
      | inl (e, ended) ↦ rw (e, sweep_from) (h, ended)
      | inr (p, wanted, e, (idx, standing), _, _) ↦
          let best = eng.book.best (opposite taker.side) in
          let open_qty = Standing-open eng idx p h standing in
          let fill = fill_of eng taker best p remaining in
          let taken =
            take_maker-EngineOk eng idx p fill.qty h standing (omega (arith, wanted, open_qty))
              (omega arith) in
          rw (e, sweep_from)
            (sweep_from-Swept fuel
              (emit_fill (take_maker eng p fill.qty) taker (eng.pool.slots p) fill
                (remaining - fill.qty))
              taker bound (remaining - fill.qty) (record_fill out fill)
              (emit_fill-EngineOk (take_maker eng p fill.qty) taker (eng.pool.slots p) fill
                (remaining - fill.qty) taken)
              (omega (arith, enough, wanted, open_qty)))
    ]

-- On a book with the invariant (levels that agree with their queues, orders at the level of their side
-- and price, right best prices), the sweep of an order ends by its own condition, with the order's
-- quantity as fuel: either the whole quantity is filled, or no order of the other side is left at a
-- price that the bound allows. And the book has the invariant again.
pub match_sweep-Swept :
    (eng : MatchEngine) (taker : Order) (bound : ℕ) (out : ExecResult)
    → EngineOk eng
    → Swept taker bound (match_sweep eng taker bound out)
unfolding match_sweep
match_sweep-Swept eng taker bound out h =
    sweep_from-Swept taker.qty eng taker bound taker.qty out h (omega arith)
