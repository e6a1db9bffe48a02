-- ===== src/Engine/Limit.antt =====
-- What the engine answers to a limit order (exchange/src/match/match_limit.c).
use trading_sor_mock.Base.{
  ℕ, ◌+◌, ◌-◌, ◌≡◌, refl, sym, ◌∙◌, ◌≢◌, ◌⊎◌, inl, inr, Bool, true, false, not, List, [], ◌∷◌,
  arith, ltb, ◌==◌, if◌then◌else◌, ==_false, Bool-cases, Option-cases, All,
}
use trading_sor_mock.Types.{
  OrderStatus, new, filled, rejected, ErrorCode, invalid_price, Order, is_ok,
}
use trading_sor_mock.Level.{store}
use trading_sor_mock.Book.Prices.{book_price_none}
use trading_sor_mock.Book.{book_insert}
use trading_sor_mock.Index.{index_put}
use trading_sor_mock.Pool.{order_pool_acquire}
use trading_sor_mock.Engine.State.{
  Fill, ExecResult, MatchEngine, match_result_init, match_reject, match_gate_submit,
  match_resolve_price,
}
use trading_sor_mock.Engine.{match_validate, crosses, match_sweep, match_rest}
use trading_sor_mock.Engine.Orders.{
  reject, check_price, partial_or, limit_rest, limit_at, match_limit,
}
use trading_sor_mock.Engine.Sweep.{match_sweep-Accounted}

-- The status of a limit order that is answered `ok`.
abbrev limit_status : ExecResult → OrderStatus
limit_status out = if out.remaining_qty == 0 then filled else partial_or out new

-- A limit order's answer.
pub record LimitOutcome (req : Order) (price : ℕ) (rc : ErrorCode) (out : ExecResult) : Type 0 where
  pub conserved : out.filled_qty + out.remaining_qty ≡ req.qty
  pub at_price : All (λ f. crosses req.side price f.price ≡ true) out.fills
  pub rests : is_ok rc ≡ true → out.resting ≡ ltb 0 out.remaining_qty
  pub status_ok : is_ok rc ≡ true → out.status ≡ limit_status out
  pub failed : is_ok rc ≡ false → (out.resting ≡ false) × (out.status ≡ partial_or out rejected)

match_rest_lem :
    (eng : MatchEngine) (req : Order) (remaining : ℕ) (out : ExecResult)
    → let (rc, _, out') = match_rest eng req remaining out in
      ((is_ok rc ≡ true) × (out' ≡ record out { resting = true }))
      ⊎ ((is_ok rc ≡ false) × (out' ≡ out))
unfolding match_rest
match_rest_lem eng req remaining out = elim (Option-cases (order_pool_acquire eng.pool).0) [
  | inl e ↦ rw (e, match_rest) (inr (refl, refl))
  | inr (p, e) ↦
      let pool = (order_pool_acquire eng.pool).1 in
      let slots = store pool.slots p (record req { filled_qty = req.qty - remaining }) in
      let rc = (book_insert slots eng.book p).0 in
      let rc' = (index_put eng.index req.id p).0 in
      elim (Bool-cases (is_ok rc)) [
        | inr f ↦ rw (e, f, match_rest) (inr (f, refl))
        | inl f ↦ elim (Bool-cases (is_ok rc')) [
          | inr g ↦ rw (e, f, g, match_rest) (inr (g, refl))
          | inl g ↦ rw (e, f, g, match_rest) (inl (refl, refl))
        ]
      ]
]

limit_rest-LimitOutcome :
    (eng : MatchEngine) (req : Order) (price remaining : ℕ) (out : ExecResult)
    → out.filled_qty + remaining ≡ req.qty
    → out.remaining_qty ≡ remaining
    → out.resting ≡ false
    → All (λ f. crosses req.side price f.price ≡ true) out.fills
    → let (rc, _, out') = limit_rest req remaining eng out in LimitOutcome req price rc out'
unfolding limit_rest
limit_rest-LimitOutcome eng req price remaining out sum rem no_rest fills =
    elim (Bool-cases (ltb 0 remaining)) [
      | inl e ↦ elim (match_rest_lem eng req remaining out) [
        | inl (good, same) ↦
            rw (e, good, same, limit_rest)
              (record {
                conserved = omega (arith, sum, rem);
                at_price = fills;
                rests = λ _. sym (rw rem e);
                status_ok =
                    λ _. rw (rem, ==_false remaining 0 (λ z. absurd_zero remaining e z)) refl;
                failed = λ x. cc x;
              })
        | inr (bad, same) ↦
            rw (e, bad, same, limit_rest)
              (record {
                conserved = omega (arith, sum, rem);
                at_price = fills;
                rests = λ x. cc (bad, x);
                status_ok = λ x. cc (bad, x);
                failed = λ _. (no_rest, refl);
              })
      ]
      | inr e ↦
          rw (e, limit_rest)
            (record {
              conserved = omega (arith, sum, rem);
              at_price = fills;
              rests = λ _. no_rest ∙ sym (rw rem e);
              status_ok = λ _. rw (rem, zero_of remaining e) refl;
              failed = λ x. cc x;
            })
    ]
  where
    absurd_zero : (n : ℕ) → ltb 0 n ≡ true → n ≢ 0
    absurd_zero n e z = ground arith

    zero_of : (n : ℕ) → ltb 0 n ≡ false → n ≡ 0
    zero_of n e = ground arith

reject-LimitOutcome :
    (eng : MatchEngine) (req req' : Order) (price : ℕ) (rc : ErrorCode)
    → is_ok rc ≡ false
    → let (rc', _, out) = reject eng req rc (match_result_init req'.qty) in
      LimitOutcome req' price rc' out
unfolding reject match_reject match_result_init
reject-LimitOutcome eng req req' price rc bad = record {
  conserved = omega arith;
  at_price = tt;
  rests = λ x. cc (bad, x);
  status_ok = λ x. cc (bad, x);
  failed = λ _. (refl, refl);
}

not_ok : (b : Bool) → not b ≡ true → b ≡ false
not_ok true e = cc
not_ok false e = refl

All-map : {P Q : Fill → Type 0} (xs : List Fill) → ((f : Fill) → P f → Q f) → All P xs → All Q xs
All-map [] g h = tt
All-map (x ∷ xs) g h = (g x h.0, All-map xs g h.1)

limit_at-LimitOutcome :
    (eng : MatchEngine) (req : Order)
    → let (rc, _, out) = limit_at eng req (match_result_init req.qty) in
      LimitOutcome req req.price rc out
unfolding limit_at
limit_at-LimitOutcome eng req = elim (Bool-cases (req.price == book_price_none)) [
  | inl e ↦ rw (e, limit_at) (reject-LimitOutcome eng req req req.price invalid_price refl)
  | inr e ↦ elim (Bool-cases (not (is_ok (check_price eng req)))) [
    | inl f ↦ rw (e, f, limit_at) (reject-LimitOutcome eng req req req.price _ (not_ok _ f))
    | inr f ↦ elim (Bool-cases (not (is_ok (match_validate eng req)))) [
      | inl g ↦ rw (e, f, g, limit_at) (reject-LimitOutcome eng req req req.price _ (not_ok _ g))
      | inr g ↦
          let swept = match_sweep-Accounted eng req req.price in
          let (remaining, eng', out) = match_sweep eng req req.price (match_result_init req.qty) in
          rw (e, f, g, limit_at)
            (limit_rest-LimitOutcome eng' req req.price remaining
              (record out { remaining_qty = remaining }) swept.conserved refl swept.not_resting
              (All-map out.fills (λ f h. h.price_ok) swept.fills_ok))
    ]
  ]
]

-- A limit order's answer, on every path: what was filled and what remains make its quantity, and
-- each fill is at a price not worse than the one that the market's rules gave the order. If it is
-- `ok`, the order rests exactly if something remains, and the status is filled, partial or new by
-- what was filled and what remains. Otherwise nothing rests, and the status is partial if something
-- was filled, else rejected.
pub match_limit-LimitOutcome :
    (eng : MatchEngine) (req : Order)
    → let (rc, _, out) = match_limit eng req in
      LimitOutcome req (match_resolve_price eng req) rc out
unfolding match_limit
match_limit-LimitOutcome eng req =
    elim (Bool-cases (not (is_ok (match_gate_submit eng req.ts req.type)))) [
      | inl e ↦
          rw (e, match_limit)
            (reject-LimitOutcome eng req req (match_resolve_price eng req) _ (not_ok _ e))
      | inr e ↦
          let price = match_resolve_price eng req in
          let h = limit_at-LimitOutcome eng (record req { price = price }) in
          rw (e, match_limit)
            (record {
              conserved = h.conserved;
              at_price = h.at_price;
              rests = h.rests;
              status_ok = h.status_ok;
              failed = h.failed;
            })
    ]
