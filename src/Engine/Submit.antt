-- ===== src/Engine/Submit.antt =====
-- Submitting an order of any kind keeps the book, its orders and the pool in agreement
-- (exchange/src/match).
use trading_sor_mock.Base.{ℕ, inl, inr, not, ltb, ◌==◌, Bool-cases}
use trading_sor_mock.Base.Int.{pos, ltb_ℤ}
use trading_sor_mock.Types.{ErrorCode, Order, is_ok, opposite}
use trading_sor_mock.Book.Prices.{book_price_none}
use trading_sor_mock.Book.{book_qty_up_to}
use trading_sor_mock.Engine.State.{
  ExecResult, MatchEngine, match_result_init, match_reject, match_gate_submit, match_resolve_price,
}
use trading_sor_mock.Engine.{match_validate, match_sweep, match_rest}
use trading_sor_mock.Engine.Orders.{
  reject, check_price, limit_rest, limit_at, match_limit, cancel_rest, match_market, match_ioc,
  match_fok,
}
use trading_sor_mock.Engine.Invariant.{
  EngineConsistent, match_emit-Consistent, match_sweep-Consistent,
}
use trading_sor_mock.Engine.Rest.{match_rest-Consistent}

reject-Consistent :
    (eng : MatchEngine) (req : Order) (rc : ErrorCode) (out : ExecResult)
    → EngineConsistent eng
    → EngineConsistent (reject eng req rc out).1
unfolding reject match_reject
reject-Consistent eng req rc out h = match_emit-Consistent eng _ h

limit_rest-Consistent :
    (req : Order) (remaining : ℕ) (eng : MatchEngine) (out : ExecResult)
    → EngineConsistent eng
    → EngineConsistent (limit_rest req remaining eng out).1
unfolding limit_rest
limit_rest-Consistent req remaining eng out h = elim (Bool-cases (ltb 0 remaining)) [
  | inr e ↦ rw (e) h
  | inl e ↦
      let rested = match_rest-Consistent eng req remaining out h in
      elim (Bool-cases (is_ok (match_rest eng req remaining out).0)) [
        | inl f ↦ rw (e, f) (match_emit-Consistent (match_rest eng req remaining out).1 _ rested)
        | inr f ↦ rw (e, f) (match_emit-Consistent (match_rest eng req remaining out).1 _ rested)
      ]
]

limit_at-Consistent :
    (eng : MatchEngine) (req : Order) (out : ExecResult)
    → EngineConsistent eng
    → EngineConsistent (limit_at eng req out).1
unfolding limit_at
limit_at-Consistent eng req out h = elim (Bool-cases (req.price == book_price_none)) [
  | inl e ↦ rw (e) (reject-Consistent eng req _ out h)
  | inr e ↦ elim (Bool-cases (not (is_ok (check_price eng req)))) [
    | inl f ↦ rw (e, f) (reject-Consistent eng req _ out h)
    | inr f ↦ elim (Bool-cases (not (is_ok (match_validate eng req)))) [
      | inl g ↦ rw (e, f, g) (reject-Consistent eng req _ out h)
      | inr g ↦
          let r = match_sweep eng req req.price out in
          rw (e, f, g)
            (limit_rest-Consistent req r.0 r.1 (record r.2 { remaining_qty = r.0 })
              (match_sweep-Consistent eng req req.price out h))
    ]
  ]
]

cancel_rest-Consistent :
    (req : Order) (remaining : ℕ) (eng : MatchEngine) (out : ExecResult)
    → EngineConsistent eng
    → EngineConsistent (cancel_rest req remaining eng out).1
unfolding cancel_rest
cancel_rest-Consistent req remaining eng out h = elim (Bool-cases (ltb 0 remaining)) [
  | inl e ↦ rw (e) (match_emit-Consistent eng _ h)
  | inr e ↦ rw (e) h
]

limit-Consistent :
    (eng : MatchEngine) (req : Order)
    → EngineConsistent eng
    → EngineConsistent (match_limit eng req).1
unfolding match_limit
limit-Consistent eng req h =
    elim (Bool-cases (not (is_ok (match_gate_submit eng req.ts req.type)))) [
      | inl e ↦ rw (e) (reject-Consistent eng req _ _ h)
      | inr e ↦ rw (e) (
          limit_at-Consistent eng (record req { price = match_resolve_price eng req })
            (match_result_init req.qty) h)
    ]

market-Consistent :
    (eng : MatchEngine) (req : Order)
    → EngineConsistent eng
    → EngineConsistent (match_market eng req).1
unfolding match_market
market-Consistent eng req h =
    elim (Bool-cases (not (is_ok (match_gate_submit eng req.ts req.type)))) [
      | inl e ↦ rw (e) (reject-Consistent eng req _ _ h)
      | inr e ↦ elim (Bool-cases (not (is_ok (match_validate eng req)))) [
        | inl f ↦ rw (e, f) (reject-Consistent eng req _ _ h)
        | inr f ↦ elim (Bool-cases (eng.book.best (opposite req.side) == book_price_none)) [
          | inl g ↦ rw (e, f, g) (reject-Consistent eng req _ _ h)
          | inr g ↦
              let r = match_sweep eng req book_price_none (match_result_init req.qty) in
              rw (e, f, g)
                (cancel_rest-Consistent req r.0 r.1 r.2
                  (match_sweep-Consistent eng req book_price_none (match_result_init req.qty) h))
        ]
      ]
    ]

ioc-Consistent :
    (eng : MatchEngine) (req : Order)
    → EngineConsistent eng
    → EngineConsistent (match_ioc eng req).1
unfolding match_ioc
ioc-Consistent eng req h = elim (Bool-cases (not (is_ok (match_gate_submit eng req.ts req.type)))) [
  | inl e ↦ rw (e) (reject-Consistent eng req _ _ h)
  | inr e ↦ elim (Bool-cases (not (is_ok (check_price eng req)))) [
    | inl f ↦ rw (e, f) (reject-Consistent eng req _ _ h)
    | inr f ↦ elim (Bool-cases (not (is_ok (match_validate eng req)))) [
      | inl g ↦ rw (e, f, g) (reject-Consistent eng req _ _ h)
      | inr g ↦
          let r = match_sweep eng req req.price (match_result_init req.qty) in
          let swept = match_sweep-Consistent eng req req.price (match_result_init req.qty) h in
          elim (Bool-cases (r.2.filled_qty == 0)) [
            | inl z ↦ rw (e, f, g, z) (reject-Consistent r.1 req _ _ swept)
            | inr z ↦ rw (e, f, g, z) (cancel_rest-Consistent req r.0 r.1 r.2 swept)
          ]
    ]
  ]
]

fok-Consistent :
    (eng : MatchEngine) (req : Order)
    → EngineConsistent eng
    → EngineConsistent (match_fok eng req).1
unfolding match_fok
fok-Consistent eng req h = elim (Bool-cases (not (is_ok (match_gate_submit eng req.ts req.type)))) [
  | inl e ↦ rw (e) (reject-Consistent eng req _ _ h)
  | inr e ↦ elim (Bool-cases (not (is_ok (check_price eng req)))) [
    | inl f ↦ rw (e, f) (reject-Consistent eng req _ _ h)
    | inr f ↦ elim (Bool-cases (not (is_ok (match_validate eng req)))) [
      | inl g ↦ rw (e, f, g) (reject-Consistent eng req _ _ h)
      | inr g ↦
          elim (Bool-cases
            (ltb_ℤ (book_qty_up_to eng.book (opposite req.side) req.price req.qty) (pos req.qty))) [
              | inl z ↦ rw (e, f, g, z) (reject-Consistent eng req _ _ h)
              | inr z ↦
                  rw (e, f, g, z)
                    (match_sweep-Consistent eng req req.price (match_result_init req.qty) h)
            ]
    ]
  ]
]

-- An order of any kind, whatever becomes of it, leaves the engine in agreement: each level's quantity,
-- count and queue agree; every order in the book has something open, stands at the level of its side and
-- price, and is in a slot that is given out; the cached best prices are right; and the free list holds
-- each of its slots once, none of them given out.
pub submit-EngineConsistent :
    (eng : MatchEngine) (req : Order)
    → EngineConsistent eng
    → EngineConsistent (match_limit eng req).1
      × EngineConsistent (match_market eng req).1
      × EngineConsistent (match_ioc eng req).1
      × EngineConsistent (match_fok eng req).1
submit-EngineConsistent eng req h = (
  limit-Consistent eng req h,
  market-Consistent eng req h,
  ioc-Consistent eng req h,
  fok-Consistent eng req h,
)
