-- ===== src/Book/Insert.antt =====
-- `book_insert` (exchange/src/book/order_book.c) keeps the cached best prices right.
use trading_sor_mock.Base.{
  ℕ, ◌+◌, ◌-◌, ◌<◌, ◌≡◌, refl, sym, ◌≢◌, ◌⊎◌, inl, inr, Bool, true, false, ◌||◌, arith, subst, ltb,
  ◌==◌, if◌then◌else◌, Bool-cases, Option-cases,
}
use trading_sor_mock.Types.{Side, buy, sell, int32_max, order_remaining_qty, is_ok, side_eq}
use trading_sor_mock.Level.{Slots, PriceLevel, level_push_back}
use trading_sor_mock.Book.Prices.{OrderBook, book_price_none, price_to_index, index_to_price}
use trading_sor_mock.Book.Grid.{Grid}
use trading_sor_mock.Book.{set_level, set_best, improves, book_insert}
use trading_sor_mock.Book.Best.{IsBest, Cached, not_improved_by_self}
use trading_sor_mock.Book.Cache.{
  set_level-Grid, shrink-IsBest, grow-IsBest, set_best-IsBest, set_best-Grid,
}

-- The test of `book_insert` for a new best price.
abbrev is_better : OrderBook → Side → ℕ → Bool
is_better book side price =
    book.best side == book_price_none || improves side price (book.best side)

better_not_worse :
    (book : OrderBook) (s side : Side) (price : ℕ)
    → side_eq s side ≡ true
    → is_better book side price ≡ true
    → book.best s ≢ 0
    → improves s (book.best s) price ≡ false
unfolding improves
better_not_worse book buy buy price e h ne = ground arith
better_not_worse book sell sell price e h ne = ground arith
better_not_worse book buy sell price e h ne = cc
better_not_worse book sell buy price e h ne = cc

not_better :
    (book : OrderBook) (s side : Side) (price : ℕ)
    → side_eq s side ≡ true
    → is_better book side price ≡ false
    → (book.best s ≢ 0) × (improves s price (book.best s) ≡ false)
not_better book buy buy price e h = (ground arith, ground arith)
not_better book sell sell price e h = (ground arith, ground arith)
not_better book buy sell price e h = cc
not_better book sell buy price e h = cc

-- The book that `book_insert` leaves where the level takes the order.
inserted-Cached :
    (book : OrderBook) (side : Side) (idx : ℕ) (level : PriceLevel) (price : ℕ)
    → Cached book
    → level.order_count ≢ 0
    → idx < book.level_count
    → index_to_price book idx ≡ price
    → 0 < price
    → Cached (
        if is_better book side price
        then set_best (set_level book side idx level) side price
        else set_level book side idx level)
unfolding set_best set_level
inserted-Cached book side idx level price c full lt at_idx hp s =
    elim (Bool-cases (side_eq s side)) [
      | inr es ↦
          let other : IsBest (set_level book side idx level) s (book.best s) =
            shrink-IsBest book side idx level s (book.best s) (c s) (λ e. cc (e, es))
              (λ _ e. cc (e, es)) in
          elim (Bool-cases (is_better book side price)) [
            | inl e ↦
                rw (e, es)
                  (set_best-IsBest (set_level book side idx level) side price s (book.best s) other)
            | inr e ↦ rw e other
          ]
      | inl es ↦ elim (Bool-cases (is_better book side price)) [
        | inl e ↦
            rw (e, es)
              (set_best-IsBest (set_level book side idx level) side price s price (
                grow-IsBest book side idx level s (book.best s) (c s) price full es lt
                  (λ z. omega (arith, hp, z)) (rw at_idx (not_improved_by_self s price))
                  (inl (sym at_idx, better_not_worse book s side price es e))))
        | inr e ↦
            let (ne, worse) = not_better book s side price es e in
            rw e (
              grow-IsBest book side idx level s (book.best s) (c s) (book.best s) full es lt ne
                (rw at_idx worse) (inr refl))
      ]
    ]

-- `level_push_back` fails, or its level has an order.
push_cases :
    (slots : Slots) (level : PriceLevel) (p : ℕ)
    → (is_ok (level_push_back slots level p).0 ≡ false)
      ⊎ ((is_ok (level_push_back slots level p).0 ≡ true)
          × ((level_push_back slots level p).1.order_count ≢ 0))
unfolding level_push_back
push_cases slots level p =
    let rem = order_remaining_qty (slots p) in
    elim (Bool-cases (rem == 0)) [
      | inl e ↦ inl (rw e)
      | inr e ↦ elim (Bool-cases (ltb (int32_max - level.total_qty) rem)) [
        | inl f ↦ inl (rw (e, f))
        | inr f ↦ inr (rw (e, f), rw (e, f) (λ (z : level.order_count + 1 ≡ 0). omega (arith, z)))
      ]
    ]

-- The book after an order is inserted keeps its best prices right.
pub book_insert-Cached :
    (slots : Slots) (book : OrderBook) (p : ℕ)
    → Grid book
    → Cached book
    → Cached (book_insert slots book p).1
unfolding book_insert
book_insert-Cached slots book p g c =
    let o = slots p in
    elim (Bool-cases (ltb o.price book.low || ltb book.high o.price)) [
      | inl e ↦ rw e c
      | inr e ↦ elim (Option-cases (price_to_index book o.price)) [
        | inl f ↦ rw (e, f) c
        | inr (idx, f) ↦
            let (lt, at_idx) = g.index_ok o.price idx f in
            elim (push_cases slots (book.levels o.side idx) p) [
              | inl bad ↦ rw (e, f, bad) c
              | inr (good, full) ↦
                  rw (e, f, good)
                    (inserted-Cached book o.side idx
                      (level_push_back slots (book.levels o.side idx) p).1 o.price c full lt at_idx
                      (subst (λ x. 0 < x) at_idx (g.positive idx lt)))
            ]
      ]
    ]

inserted-Grid :
    (book : OrderBook) (b : Bool) (side : Side) (idx : ℕ) (level : PriceLevel) (price : ℕ)
    → Grid book
    → Grid (
        if b
        then set_best (set_level book side idx level) side price
        else set_level book side idx level)
inserted-Grid book true side idx level price g =
    set_best-Grid (set_level book side idx level) side price (set_level-Grid book side idx level g)
inserted-Grid book false side idx level price g = set_level-Grid book side idx level g

pub book_insert-Grid :
    (slots : Slots) (book : OrderBook) (p : ℕ) → Grid book → Grid (book_insert slots book p).1
unfolding book_insert
book_insert-Grid slots book p g =
    let o = slots p in
    elim (Bool-cases (ltb o.price book.low || ltb book.high o.price)) [
      | inl e ↦ rw e g
      | inr e ↦ elim (Option-cases (price_to_index book o.price)) [
        | inl f ↦ rw (e, f) g
        | inr (idx, f) ↦
            elim (Bool-cases (is_ok (level_push_back slots (book.levels o.side idx) p).0)) [
              | inr h ↦ rw (e, f, h) g
              | inl h ↦
                  rw (e, f, h)
                    (inserted-Grid book (is_better book o.side o.price) o.side idx
                      (level_push_back slots (book.levels o.side idx) p).1 o.price g)
            ]
      ]
    ]
