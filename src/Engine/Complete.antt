-- ===== src/Engine/Complete.antt =====
-- A fill-or-kill order that is answered `ok` is filled as a whole
-- (exchange/src/match/match_ioc_fok.c).
use trading_sor_mock.Base.{
  ℕ, zero, suc, ◌+◌, ◌-◌, ◌≤◌, ◌<◌, min, ◌≡◌, refl, sym, ap, ◌∙◌, ◌⊎◌, inl, inr, true, false, not,
  arith, subst, ◌==◌, ==_iff, Bool-cases,
}
use trading_sor_mock.Base.Int.{ℤ, pos, ◌≤ℤ◌, ltb_ℤ}
use trading_sor_mock.Types.{
  Side, buy, sell, filled, ErrorCode, ok, Order, order_remaining_qty, is_ok, opposite,
}
use trading_sor_mock.Book.Prices.{OrderBook, index_to_price}
use trading_sor_mock.Book.{scan_index, within, book_qty_up_to}
use trading_sor_mock.Book.Best.{scan_index_lt}
use trading_sor_mock.Book.Taking.{Standing}
use trading_sor_mock.Book.Depth.{total_within, book_qty_up_to-le}
use trading_sor_mock.Book.Totals.{available}
use trading_sor_mock.Book.Available.{book_remove-available, book_reduce_qty-available}
use trading_sor_mock.Engine.State.{ExecResult, MatchEngine, match_result_init, match_gate_submit}
use trading_sor_mock.Engine.{
  match_validate, crosses, record_fill, take_maker, fill_of, emit_fill, sweep_from, match_sweep,
}
use trading_sor_mock.Engine.Orders.{Answer, reject, check_price, match_fok}
use trading_sor_mock.Engine.Sweep.{match_sweep-Accounted}
use trading_sor_mock.Engine.Refusals.{Refused, reject-Refused}
use trading_sor_mock.Engine.Taking.{EngineOk, take_maker-EngineOk}
use trading_sor_mock.Engine.Finish.{
  NothingCrosses, emit_fill-SameOrders, emit_fill-EngineOk, next_maker_cases, Standing-open,
  match_sweep-Swept,
}

-- The bound of the sweep is the bound of the count.
crosses-within :
    (side : Side) (bound price : ℕ) → crosses side bound price ≡ within (opposite side) bound price
unfolding crosses within
crosses-within buy bound price = refl
crosses-within sell bound price = refl

nothing_within :
    (eng : MatchEngine) (taker : Order) (bound r : ℕ)
    → NothingCrosses eng taker bound
    → r ≤ eng.book.level_count
    → total_within eng.book (opposite taker.side) bound r ≡ 0
nothing_within eng taker bound zero nothing le = refl
nothing_within eng taker bound (suc r) nothing le =
    let side = opposite taker.side in
    let i = scan_index side eng.book.level_count r in
    let rest = nothing_within eng taker bound r nothing (omega (arith, le)) in
    elim (Bool-cases ((eng.book.levels side i).order_count == 0)) [
      | inl e ↦ rw (e) (omega (arith, rest))
      | inr e ↦
          let out =
            sym (crosses-within taker.side bound (index_to_price eng.book i))
            ∙ nothing i (scan_index_lt side eng.book.level_count r (omega (arith, le)))
                (λ z. is_zero (eng.book.levels side i).order_count z e) in
          rw (e, out) (omega (arith, rest))
    ]
  where
    is_zero : (n : ℕ) → n ≡ 0 → ¬ ((n == 0) ≡ false)
    is_zero n z f = ground arith

-- A round takes from what is available as much as it fills.
take_maker-available :
    (eng : MatchEngine) (idx p fill_qty : ℕ) (side : Side) (bound : ℕ)
    → EngineOk eng
    → Standing eng.pool.slots eng.book idx p
    → (eng.pool.slots p).side ≡ side
    → within side bound (eng.pool.slots p).price ≡ true
    → 0 < fill_qty
    → fill_qty ≤ order_remaining_qty (eng.pool.slots p)
    → available (take_maker eng p fill_qty).book side bound + fill_qty
      ≡ available eng.book side bound
unfolding take_maker
take_maker-available eng idx p fill_qty side bound h standing on_side inside fills_some le =
    let slots = eng.pool.slots in
    let inside' : within (slots p).side bound (slots p).price ≡ true =
      subst (λ s. within s bound (slots p).price ≡ true) (sym on_side) inside in
    subst
      (λ s.
        available (take_maker eng p fill_qty).book s bound + fill_qty ≡ available eng.book s bound)
      on_side
      (elim (Bool-cases (fill_qty == order_remaining_qty (slots p))) [
        | inl e ↦
            let whole = (==_iff fill_qty (order_remaining_qty (slots p))).0 e in
            rw (e) (
              omega
                (arith, whole, book_remove-available slots eng.book idx p bound h standing inside'))
        | inr e ↦ rw (e) (
            book_reduce_qty-available slots eng.book idx p fill_qty bound h standing fills_some
              (less fill_qty (order_remaining_qty (slots p)) e le) inside')
      ])
  where
    less : (a b : ℕ) → (a == b) ≡ false → a ≤ b → a < b
    less a b e le = ground arith

sweep_from_complete :
    (fuel : ℕ) (eng : MatchEngine) (taker : Order) (bound remaining : ℕ) (out : ExecResult)
    → EngineOk eng
    → remaining ≤ fuel
    → remaining ≤ available eng.book (opposite taker.side) bound
    → (sweep_from fuel eng taker bound remaining out).0 ≡ 0
unfolding sweep_from fill_of
sweep_from_complete zero eng taker bound remaining out h enough there = omega (arith, enough)
sweep_from_complete (suc fuel) eng taker bound remaining out h enough there =
    elim (next_maker_cases eng taker bound remaining h) [
      | inl (e, inl none_left) ↦ rw (e, sweep_from) none_left
      | inl (e, inr nothing) ↦
          rw (e, sweep_from)
            (omega (
              arith,
              there,
              nothing_within eng taker bound eng.book.level_count nothing (omega arith),
            ))
      | inr (p, wanted, e, (idx, standing), on_side, crossing) ↦
          let side = opposite taker.side in
          let best = eng.book.best side in
          let open_qty = Standing-open eng idx p h standing in
          let fill = fill_of eng taker best p remaining in
          let eng' = take_maker eng p fill.qty in
          let fills_some : 0 < fill.qty = omega (arith, wanted, open_qty) in
          let taken = take_maker-EngineOk eng idx p fill.qty h standing fills_some (omega arith) in
          let moved =
            take_maker-available eng idx p fill.qty side bound h standing on_side
              (sym (crosses-within taker.side bound (eng.pool.slots p).price) ∙ crossing) fills_some
              (omega arith) in
          let (book_same, _) =
            emit_fill-SameOrders eng' taker (eng.pool.slots p) fill (remaining - fill.qty) in
          rw (e, sweep_from)
            (sweep_from_complete fuel
              (emit_fill eng' taker (eng.pool.slots p) fill (remaining - fill.qty)) taker bound
              (remaining - fill.qty) (record_fill out fill)
              (emit_fill-EngineOk eng' taker (eng.pool.slots p) fill (remaining - fill.qty) taken)
              (omega (arith, enough, fills_some))
              (omega
                (arith, there, moved, ap (λ (b : OrderBook). available b side bound) book_same)))
    ]

-- What a fill-or-kill order leads to: all of it is filled, or it is refused and nothing changes.
abbrev pub FokOutcome : MatchEngine → Order → Answer → Type 0
FokOutcome eng req a =
    ((a.0 ≡ ok)
      × (a.2.filled_qty ≡ req.qty)
      × (a.2.remaining_qty ≡ 0)
      × (a.2.status ≡ filled)
      × EngineOk a.1)
    ⊎ Refused eng a.0 a

refused_fok :
    (eng : MatchEngine) (req : Order) (rc : ErrorCode) (out : ExecResult)
    → FokOutcome eng req (reject eng req rc out)
refused_fok eng req rc out =
    let r = reject-Refused eng req rc out in
    inr (record { code = refl; same = r.same; status = r.status })

-- Enough was counted, so the sweep fills everything.
filled_fok :
    (eng : MatchEngine) (req : Order)
    → EngineOk eng
    → ltb_ℤ (book_qty_up_to eng.book (opposite req.side) req.price req.qty) (pos req.qty) ≡ false
    → let r = match_sweep eng req req.price (match_result_init req.qty) in
      (r.2.filled_qty ≡ req.qty) × (r.0 ≡ 0) × EngineOk r.1
filled_fok eng req h counted =
    let side = opposite req.side in
    let r = match_sweep eng req req.price (match_result_init req.qty) in
    let enough : req.qty ≤ available eng.book side req.price =
      covered req.qty (book_qty_up_to eng.book side req.price req.qty)
        (available eng.book side req.price) (book_qty_up_to-le eng.book side req.price req.qty)
        counted in
    let all : r.0 ≡ 0 =
      unfold match_sweep in
      sweep_from_complete req.qty eng req req.price req.qty (match_result_init req.qty) h
        (omega arith) enough in
    let accounted = match_sweep-Accounted eng req req.price in
    let (good, _) = match_sweep-Swept eng req req.price (match_result_init req.qty) h in
    (omega (arith, accounted.conserved, all), all, good)
  where
    covered :
        (qty : ℕ) (found : ℤ) (total : ℕ)
        → found ≤ℤ pos (min qty total)
        → ltb_ℤ found (pos qty) ≡ false
        → qty ≤ total
    covered qty found total e counted = ground arith

-- On a book with the invariant, a fill-or-kill order is either filled as a whole, and the book keeps the
-- invariant, or it is refused with no order of the book filled, moved or removed: it is never filled
-- in part.
pub match_fok-FokOutcome :
    (eng : MatchEngine) (req : Order) → EngineOk eng → FokOutcome eng req (match_fok eng req)
unfolding match_fok
match_fok-FokOutcome eng req h =
    elim (Bool-cases (not (is_ok (match_gate_submit eng req.ts req.type)))) [
      | inl e ↦ rw (e, match_fok) (refused_fok eng req _ _)
      | inr e ↦ elim (Bool-cases (not (is_ok (check_price eng req)))) [
        | inl f ↦ rw (e, f, match_fok) (refused_fok eng req _ _)
        | inr f ↦ elim (Bool-cases (not (is_ok (match_validate eng req)))) [
          | inl g ↦ rw (e, f, g, match_fok) (refused_fok eng req _ _)
          | inr g ↦
              elim (Bool-cases (
                ltb_ℤ (book_qty_up_to eng.book (opposite req.side) req.price req.qty)
                  (pos req.qty))) [
                    | inl few ↦ rw (e, f, g, few, match_fok) (refused_fok eng req _ _)
                    | inr counted ↦
                        let (whole, none_left, good) = filled_fok eng req h counted in
                        rw (e, f, g, counted, match_fok) (inl (refl, whole, none_left, refl, good))
                  ]
        ]
      ]
    ]
