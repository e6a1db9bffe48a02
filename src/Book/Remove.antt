-- ===== src/Book/Remove.antt =====
-- `book_remove` (exchange/src/book/order_book.c) keeps the cached best prices right.
use trading_sor_mock.Base.{
  ℕ, ◌≡◌, refl, sym, ap, ◌∙◌, ◌≢◌, inl, inr, true, false, ◌&&◌, arith, subst, ◌==◌, if◌then◌else◌,
  Bool-cases, Option-cases,
}
use trading_sor_mock.Types.{Side, buy, sell, side_eq}
use trading_sor_mock.Level.{Slots, PriceLevel, level_remove}
use trading_sor_mock.Book.Prices.{OrderBook, price_to_index, index_to_price}
use trading_sor_mock.Book.Grid.{Grid}
use trading_sor_mock.Book.{set_level, set_best, best_from, recompute_best, book_remove}
use trading_sor_mock.Book.Best.{IsBest, Cached, best_from-IsBest}
use trading_sor_mock.Book.Cache.{set_level-Grid, shrink-IsBest, set_best-IsBest}

-- A removed order leaves a level with orders only where there were some.
remove_keeps :
    (slots : Slots) (level : PriceLevel) (p : ℕ)
    → (level_remove slots level p).order_count ≢ 0
    → level.order_count ≢ 0
unfolding level_remove
remove_keeps slots level p h e = h (omega (arith, e))

pub side_same : (s side : Side) → side_eq s side ≡ true → s ≡ side
side_same buy buy e = refl
side_same sell sell e = refl
side_same buy sell e = cc
side_same sell buy e = cc

-- A full scan replaces the cached price of its side only.
recompute_best-IsBest :
    (book : OrderBook) (side s : Side)
    → Grid book
    → (side_eq s side ≡ false → IsBest book s (book.best s))
    → IsBest (recompute_best book side) s ((recompute_best book side).best s)
unfolding recompute_best set_best
recompute_best-IsBest book side s g other =
    let b = best_from book side book.level_count in
    elim (Bool-cases (side_eq s side)) [
      | inl es ↦ rw es (
          set_best-IsBest book side b s b (
            subst (λ x. IsBest book s (best_from book x book.level_count)) (side_same s side es)
              (best_from-IsBest book s g)))
      | inr es ↦ rw es (set_best-IsBest book side b s (book.best s) (other es))
    ]

not_the_best :
    (count price best_price other : ℕ)
    → (count == 0 && price == best_price) ≡ false
    → count ≡ 0
    → best_price ≡ other
    → price ≢ other
not_the_best count price best_price other e z same h = ground arith

-- The book that `book_remove` leaves.
removed-Cached :
    (book : OrderBook) (side : Side) (idx : ℕ) (level : PriceLevel) (price : ℕ)
    → Grid book
    → Cached book
    → (level.order_count ≢ 0 → (book.levels side idx).order_count ≢ 0)
    → index_to_price book idx ≡ price
    → Cached (
        if level.order_count == 0 && price == book.best side
        then recompute_best (set_level book side idx level) side
        else set_level book side idx level)
unfolding set_level
removed-Cached book side idx level price g c keeps at_idx s =
    elim (Bool-cases (level.order_count == 0 && price == book.best side)) [
      | inl e ↦ rw e (
          recompute_best-IsBest (set_level book side idx level) side s
            (set_level-Grid book side idx level g) (λ es. kept (λ _ f. cc (f, es))))
      | inr e ↦ rw e (
          kept (λ z es h.
            not_the_best level.order_count price (book.best side) (book.best s) e z
              (ap book.best (sym (side_same s side es))) (sym at_idx ∙ h)))
    ]
  where
    kept :
        (level.order_count ≡ 0 → side_eq s side ≡ true → index_to_price book idx ≢ book.best s)
        → IsBest (set_level book side idx level) s ((set_level book side idx level).best s)
    kept = shrink-IsBest book side idx level s (book.best s) (c s) (λ _. keeps)

-- The book after an order is removed keeps its best prices right.
pub book_remove-Cached :
    (slots : Slots) (book : OrderBook) (p : ℕ)
    → Grid book
    → Cached book
    → Cached (book_remove slots book p).1
unfolding book_remove
book_remove-Cached slots book p g c =
    let o = slots p in
    elim (Option-cases (price_to_index book o.price)) [
      | inl f ↦ rw (f, book_remove) c
      | inr (idx, f) ↦
          rw (f, book_remove)
            (removed-Cached book o.side idx (level_remove slots (book.levels o.side idx) p) o.price
              g c (remove_keeps slots (book.levels o.side idx) p) (g.index_ok o.price idx f).1)
    ]
