-- ===== src/Engine/Sweep.antt =====
-- What the sweep reports of its fills (`match_sweep` in exchange/src/match/match_engine.c).
use trading_sor_mock.Base.{
  ℕ, zero, suc, ◌+◌, ◌-◌, ◌*◌, ◌≤◌, ◌≡◌, refl, ◌≢◌, inl, inr, Bool, true, false, ◌||◌, not, Option,
  none, some, List, [], ◌∷◌, ◌++◌, arith, ◌==◌, lt→ltb, le→ltb_false, Bool-cases, Option-cases,
  compare_cases, length, All, All-append,
}
use trading_sor_mock.Types.{Order, opposite}
use trading_sor_mock.Book.Prices.{book_price_none}
use trading_sor_mock.Book.{book_front}
use trading_sor_mock.Engine.State.{Fill, exec_fills_max, ExecResult, MatchEngine, match_result_init}
use trading_sor_mock.Engine.{
  crosses, record_fill, next_maker, take_maker, fill_of, emit_fill, sweep_from, match_sweep,
}

-- The quantity and the amount of a list of fills.
abbrev pub fills_qty : List Fill → ℕ
fills_qty [] = 0
fills_qty (f ∷ fills) = f.qty + fills_qty fills

abbrev pub fills_notional : List Fill → ℕ
fills_notional [] = 0
fills_notional (f ∷ fills) = f.price * f.qty + fills_notional fills

fills_qty-append : (xs ys : List Fill) → fills_qty (xs ++ ys) ≡ fills_qty xs + fills_qty ys
fills_qty-append [] ys = omega arith
fills_qty-append (f ∷ xs) ys = omega (arith, fills_qty-append xs ys)

fills_notional-append :
    (xs ys : List Fill) → fills_notional (xs ++ ys) ≡ fills_notional xs + fills_notional ys
fills_notional-append [] ys = omega arith
fills_notional-append (f ∷ xs) ys = omega (arith, fills_notional-append xs ys)

-- A fill of the taker, at a price that its bound allows.
pub record FillOk (taker : Order) (bound : ℕ) (f : Fill) : Type 0 where
  pub price_pos : f.price ≢ 0
  pub price_ok : crosses taker.side bound f.price ≡ true
  pub taker_ok : f.taker_id ≡ taker.id
  pub ts_ok : f.ts ≡ taker.ts

-- A result that accounts for all but `remaining` of the taker's quantity.
pub record Accounted (taker : Order) (bound remaining : ℕ) (out : ExecResult) : Type 0 where
  pub conserved : out.filled_qty + remaining ≡ taker.qty
  pub room : length out.fills ≤ exec_fills_max
  pub fills_ok : All (FillOk taker bound) out.fills
  pub not_resting : out.resting ≡ false
  pub exact_qty : out.truncated ≡ false → fills_qty out.fills ≡ out.filled_qty
  pub exact_notional : out.truncated ≡ false → fills_notional out.fills ≡ out.notional

length-snoc : (xs : List Fill) (f : Fill) → length (xs ++ (f ∷ [])) ≡ length xs + 1
length-snoc [] f = refl
length-snoc (g ∷ xs) f = omega (arith, length-snoc xs f)

record_fill-Accounted :
    (taker : Order) (bound remaining : ℕ) (out : ExecResult) (f : Fill)
    → Accounted taker bound remaining out
    → FillOk taker bound f
    → f.qty ≤ remaining
    → Accounted taker bound (remaining - f.qty) (record_fill out f)
unfolding record_fill
record_fill-Accounted taker bound remaining out f a ok_f le =
    elim (compare_cases (length out.fills) exec_fills_max) [
      | inl h ↦ rw (lt→ltb (length out.fills) exec_fills_max h) (record {
        conserved = omega (arith, a.conserved, le);
        room = omega (arith, length-snoc out.fills f, h);
        fills_ok = All-append (FillOk taker bound) out.fills (f ∷ []) a.fills_ok (ok_f, tt);
        not_resting = a.not_resting;
        exact_qty = λ t. omega (arith, fills_qty-append out.fills (f ∷ []), a.exact_qty t);
        exact_notional =
            λ t. omega (arith, fills_notional-append out.fills (f ∷ []), a.exact_notional t);
      })
      | inr h ↦ rw (le→ltb_false (length out.fills) exec_fills_max h) (record {
        conserved = omega (arith, a.conserved, le);
        room = a.room;
        fills_ok = a.fills_ok;
        not_resting = a.not_resting;
        exact_qty = λ t. cc t;
        exact_notional = λ t. cc t;
      })
    ]

-- The maker's price that a round takes is one that the bound allows.
next_maker_ok :
    (eng : MatchEngine) (taker : Order) (bound remaining best p : ℕ)
    → next_maker eng taker bound remaining ≡ some (best, p)
    → (best ≢ 0) × (crosses taker.side bound best ≡ true)
unfolding next_maker
next_maker_ok eng taker bound remaining best p e =
    let price = eng.book.best (opposite taker.side) in
    let c = crosses taker.side bound price in
    elim (Bool-cases (remaining == 0 || price == book_price_none || not c)) [
      | inl t ↦ absurd (none_not_some (rw t at e))
      | inr f ↦ elim (Option-cases (book_front eng.book (opposite taker.side) price)) [
        | inl n ↦ absurd (none_not_some (rw (f, n) at e))
        | inr (q, g) ↦
            let same = taken price best (rw (f, g) at e) in
            let (ne, cr) = passed remaining price c f in (rw (← same) ne, rw (← same) cr)
      ]
    ]
  where
    none_not_some : {x : ℕ × ℕ} → ◌≢◌ {A = Option (ℕ × ℕ)} none (some x)
    none_not_some e = cc

    taken :
        (price best : ℕ) {q p : ℕ}
        → ◌≡◌ {A = Option (ℕ × ℕ)} (some (price, q)) (some (best, p))
        → price ≡ best
    taken price best e = ground arith

    passed :
        (remaining price : ℕ) (c : Bool)
        → (remaining == 0 || price == book_price_none || not c) ≡ false
        → (price ≢ 0) × (c ≡ true)
    passed remaining price c h = (ground arith, ground arith)

sweep_from-Accounted :
    (fuel : ℕ) (eng : MatchEngine) (taker : Order) (bound remaining : ℕ) (out : ExecResult)
    → Accounted taker bound remaining out
    → let (rest, _, out') = sweep_from fuel eng taker bound remaining out in
      Accounted taker bound rest out'
unfolding sweep_from fill_of
sweep_from-Accounted zero eng taker bound remaining out a = a
sweep_from-Accounted (suc fuel) eng taker bound remaining out a =
    elim (Option-cases (next_maker eng taker bound remaining)) [
      | inl e ↦ rw (e, sweep_from) a
      | inr ((best, p), e) ↦
          let fill = fill_of eng taker best p remaining in
          let (ne, cr) = next_maker_ok eng taker bound remaining best p e in
          rw (e, sweep_from)
            (sweep_from-Accounted fuel
              (emit_fill (take_maker eng p fill.qty) taker (eng.pool.slots p) fill
                (remaining - fill.qty))
              taker bound (remaining - fill.qty) (record_fill out fill)
              (record_fill-Accounted taker bound remaining out fill a
                (record { price_pos = ne; price_ok = cr; taker_ok = refl; ts_ok = refl })
                (omega arith)))
    ]

-- The result of a sweep adds up, whatever the book holds: what is filled and what remains make the
-- order's quantity; at most 64 fills are listed, each of them for this order and at a price that
-- the bound allows; and if the list is not cut short, its quantities add up to the filled quantity
-- and its amounts to the total amount; and the order does not rest.
pub match_sweep-Accounted :
    (eng : MatchEngine) (taker : Order) (bound : ℕ)
    → let (rest, _, out) = match_sweep eng taker bound (match_result_init taker.qty) in
      Accounted taker bound rest out
unfolding match_sweep match_result_init
match_sweep-Accounted eng taker bound =
    sweep_from-Accounted taker.qty eng taker bound taker.qty (match_result_init taker.qty) (record {
      conserved = omega arith;
      room = omega arith;
      fills_ok = tt;
      not_resting = refl;
      exact_qty = λ _. refl;
      exact_notional = λ _. refl;
    })
