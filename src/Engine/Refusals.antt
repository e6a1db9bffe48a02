-- ===== src/Engine/Refusals.antt =====
-- Orders that the engine refuses (exchange/src/match/match_limit.c, match_market.c and
-- match_ioc_fok.c).
use trading_sor_mock.Base.{◌≡◌, refl, ◌⊎◌, inl, inr, not, ◌==◌, Bool-cases, Option-cases}
use trading_sor_mock.Base.Int.{pos, ltb_ℤ}
use trading_sor_mock.Types.{rejected, ErrorCode, ok, Order, is_ok, opposite}
use trading_sor_mock.Book.Prices.{book_price_none}
use trading_sor_mock.Book.{book_qty_up_to}
use trading_sor_mock.Engine.State.{
  OrderEvent, ExecResult, MatchEngine, match_emit, match_reject, match_gate_submit,
}
use trading_sor_mock.Engine.{match_validate}
use trading_sor_mock.Engine.Orders.{
  Answer, reject, check_price, cancel_rest, match_market, match_fok,
}

-- The book, the pool and the index are as before; only events were given out.
pub record SameMarket (eng eng' : MatchEngine) : Type 0 where
  pub same_book : eng'.book ≡ eng.book
  pub same_pool : eng'.pool ≡ eng.pool
  pub same_index : eng'.index ≡ eng.index

match_emit-SameMarket : (eng : MatchEngine) (ev : OrderEvent) → SameMarket eng (match_emit eng ev)
unfolding match_emit
match_emit-SameMarket eng ev = elim (Option-cases eng.sink) [
  | inl e ↦ rw e (record { same_book = refl; same_pool = refl; same_index = refl })
  | inr (events, e) ↦ rw e (record { same_book = refl; same_pool = refl; same_index = refl })
]

-- An answer that refuses the order with the code, and changes nothing.
pub record Refused (eng : MatchEngine) (rc : ErrorCode) (a : Answer) : Type 0 where
  pub code : a.0 ≡ rc
  pub same : SameMarket eng a.1
  pub status : a.2.status ≡ rejected

pub reject-Refused :
    (eng : MatchEngine) (req : Order) (rc : ErrorCode) (out : ExecResult)
    → Refused eng rc (reject eng req rc out)
unfolding reject match_reject
reject-Refused eng req rc out = record {
  code = refl;
  same = match_emit-SameMarket eng _;
  status = refl;
}

-- Either the answer is `ok`, or nothing has changed.
abbrev pub AllOrNothing : MatchEngine → Answer → Type 0
AllOrNothing eng a = (a.0 ≡ ok) ⊎ Refused eng a.0 a

reject-AllOrNothing :
    (eng : MatchEngine) (req : Order) (rc : ErrorCode) (out : ExecResult)
    → AllOrNothing eng (reject eng req rc out)
reject-AllOrNothing eng req rc out =
    let r = reject-Refused eng req rc out in
    inr (record { code = refl; same = r.same; status = r.status })

fok-AllOrNothing : (eng : MatchEngine) (req : Order) → AllOrNothing eng (match_fok eng req)
unfolding match_fok
fok-AllOrNothing eng req = elim (Bool-cases (not (is_ok (match_gate_submit eng req.ts req.type)))) [
  | inl e ↦ rw (e, match_fok) (reject-AllOrNothing eng req _ _)
  | inr e ↦ elim (Bool-cases (not (is_ok (check_price eng req)))) [
    | inl f ↦ rw (e, f, match_fok) (reject-AllOrNothing eng req _ _)
    | inr f ↦ elim (Bool-cases (not (is_ok (match_validate eng req)))) [
      | inl g ↦ rw (e, f, g, match_fok) (reject-AllOrNothing eng req _ _)
      | inr g ↦
          elim (Bool-cases
            (ltb_ℤ (book_qty_up_to eng.book (opposite req.side) req.price req.qty) (pos req.qty))) [
              | inl h ↦ rw (e, f, g, h, match_fok) (reject-AllOrNothing eng req _ _)
              | inr h ↦ inl (rw (e, f, g, h, match_fok))
            ]
    ]
  ]
]

market-AllOrNothing : (eng : MatchEngine) (req : Order) → AllOrNothing eng (match_market eng req)
unfolding match_market cancel_rest
market-AllOrNothing eng req =
    elim (Bool-cases (not (is_ok (match_gate_submit eng req.ts req.type)))) [
      | inl e ↦ rw (e, match_market) (reject-AllOrNothing eng req _ _)
      | inr e ↦ elim (Bool-cases (not (is_ok (match_validate eng req)))) [
        | inl g ↦ rw (e, g, match_market) (reject-AllOrNothing eng req _ _)
        | inr g ↦ elim (Bool-cases (eng.book.best (opposite req.side) == book_price_none)) [
          | inl h ↦ rw (e, g, h, match_market) (reject-AllOrNothing eng req _ _)
          | inr h ↦ inl (rw (e, g, h, match_market))
        ]
      ]
    ]

-- A fill-or-kill order and a market order that are not answered `ok` have changed nothing: no order
-- of the book is filled, moved or removed, and the answer says that it is rejected.
pub fok_market-AllOrNothing :
    (eng : MatchEngine) (req : Order)
    → AllOrNothing eng (match_fok eng req) × AllOrNothing eng (match_market eng req)
fok_market-AllOrNothing eng req = (fok-AllOrNothing eng req, market-AllOrNothing eng req)
