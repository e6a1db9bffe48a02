-- ===== src/Book/Totals.antt =====
-- The quantity that a side of the book offers within a price bound, for two books that differ at one
-- level (exchange/src/book/order_book.c).
use trading_sor_mock.Base.{
  ℕ, zero, suc, ◌+◌, ◌≤◌, ◌<◌, ◌≡◌, refl, sym, ◌≢◌, inl, inr, arith, subst, ==_false, Bool-cases,
  compare_cases,
}
use trading_sor_mock.Types.{Side, buy, sell, side_eq}
use trading_sor_mock.Level.{PriceLevel}
use trading_sor_mock.Book.Prices.{OrderBook, index_to_price}
use trading_sor_mock.Book.{set_level, scan_index}
use trading_sor_mock.Book.Depth.{level_within, total_within}

-- All that a side offers within the bound.
abbrev pub available : OrderBook → Side → (bound : ℕ) → ℕ
available book side bound = total_within book side bound book.level_count

pub scan_index_injective :
    (s : Side) (n k r : ℕ) → k < n → r < n → scan_index s n k ≡ scan_index s n r → k ≡ r
unfolding scan_index
scan_index_injective buy n k r hk hr e = e
scan_index_injective sell n k r hk hr e = omega (arith, e)

-- Two books that differ on a side at most at the index of round `k` of a scan, in the quantities
-- within the bound.
pub record DifferAt (book book' : OrderBook) (side : Side) (bound k : ℕ) : Type 0 where
  pub count_same : book'.level_count ≡ book.level_count
  pub others :
      (r : ℕ)
      → r < book.level_count
      → r ≢ k
      → level_within book' side bound (scan_index side book.level_count r)
        ≡ level_within book side bound (scan_index side book.level_count r)

pub total_from : OrderBook → Side → (bound n r : ℕ) → ℕ
total_from book side bound n zero = 0
total_from book side bound n (suc r) =
    level_within book side bound (scan_index side n r) + total_from book side bound n r

pub total_from_lem :
    (book : OrderBook) (side : Side) (bound r : ℕ)
    → total_within book side bound r ≡ total_from book side bound book.level_count r
unfolding total_from
total_from_lem book side bound zero = refl
total_from_lem book side bound (suc r) = omega (arith, total_from_lem book side bound r)

total_before :
    (book book' : OrderBook) (side : Side) (bound k r : ℕ)
    → DifferAt book book' side bound k
    → r ≤ k
    → k < book.level_count
    → total_from book' side bound book.level_count r ≡ total_from book side bound book.level_count r
unfolding total_from
total_before book book' side bound k zero d le lt = refl
total_before book book' side bound k (suc r) d le lt = omega (
  arith,
  total_before book book' side bound k r d (omega (arith, le)) lt,
  d.others r (omega (arith, le, lt)) (λ e. omega (arith, e, le)),
)

pub total_behind :
    (book book' : OrderBook) (side : Side) (bound k r : ℕ)
    → DifferAt book book' side bound k
    → k < r
    → r ≤ book.level_count
    → total_from book' side bound book.level_count r
        + level_within book side bound (scan_index side book.level_count k)
      ≡ total_from book side bound book.level_count r
        + level_within book' side bound (scan_index side book.level_count k)
unfolding total_from
total_behind book book' side bound k zero d lt le = absurd (omega (arith, lt))
total_behind book book' side bound k (suc r) d lt le = elim (compare_cases k r) [
  | inl before ↦ omega (
    arith,
    total_behind book book' side bound k r d before (omega (arith, le)),
    d.others r (omega (arith, le)) (λ e. omega (arith, e, before)),
  )
  | inr after ↦
      let same : k ≡ r = omega (arith, after, lt) in
      let here =
        total_before book book' side bound k r d (omega (arith, after))
          (omega (arith, lt, le, same)) in
      subst
        (λ x.
          level_within book' side bound (scan_index side book.level_count r)
            + total_from book' side bound book.level_count r
            + level_within book side bound (scan_index side book.level_count x)
          ≡ level_within book side bound (scan_index side book.level_count r)
            + total_from book side bound book.level_count r
            + level_within book' side bound (scan_index side book.level_count x))
        (sym same) (omega (arith, here))
]

pub level_within_other :
    (book : OrderBook) (side : Side) (idx : ℕ) (level : PriceLevel) (bound j : ℕ)
    → j ≢ idx
    → level_within (set_level book side idx level) side bound j ≡ level_within book side bound j
unfolding set_level index_to_price
level_within_other book side idx level bound j ne = elim (Bool-cases (side_eq side side)) [
  | inl e ↦ rw (e, ==_false j idx ne) refl
  | inr e ↦ rw (e) refl
]
