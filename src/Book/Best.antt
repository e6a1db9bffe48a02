-- ===== src/Book/Best.antt =====
-- The cached best prices of a book (`best` in exchange/src/book/order_book.c).
use trading_sor_mock.Base.{
  ℕ, zero, suc, ◌-◌, ◌≤◌, ◌<◌, ◌≡◌, refl, sym, ap, ◌∙◌, ◌≢◌, ◌⊎◌, inl, inr, false, arith, subst,
  le→ltb_false, ==_false, compare_cases,
}
use trading_sor_mock.Types.{Side, buy, sell}
use trading_sor_mock.Book.Prices.{OrderBook, index_to_price}
use trading_sor_mock.Book.Grid.{Grid}
use trading_sor_mock.Book.{scan_index, best_from, improves}

-- `b` is the best price of a side: a level that holds orders is not better than it, and it is the
-- price of such a level, or 0 where there is none.
pub record IsBest (book : OrderBook) (s : Side) (b : ℕ) : Type 0 where
  pub beats :
      (j : ℕ)
      → j < book.level_count
      → (book.levels s j).order_count ≢ 0
      → (b ≢ 0) × (improves s (index_to_price book j) b ≡ false)
  pub held :
      b ≢ 0
      → (i : ℕ) × (i < book.level_count)
        × ((book.levels s i).order_count ≢ 0)
        × (index_to_price book i ≡ b)

-- The cache is right on both sides.
abbrev pub Cached : OrderBook → Type 0
Cached book = (s : Side) → IsBest book s (book.best s)

pub scan_index_lt : (s : Side) (n k : ℕ) → k < n → scan_index s n k < n
unfolding scan_index
scan_index_lt buy n k h = h
scan_index_lt sell n k h = omega arith

-- Each index is visited.
pub scan_index_of : (s : Side) (n j : ℕ) → j < n → (k : ℕ) × (k < n) × (scan_index s n k ≡ j)
unfolding scan_index
scan_index_of buy n j h = (j, h, refl)
scan_index_of sell n j h = (n - suc j, omega arith, omega arith)

-- An index that is visited later is not better.
later_not_better :
    (book : OrderBook) (s : Side) (k r : ℕ)
    → Grid book
    → k < r
    → r < book.level_count
    → improves s
        (index_to_price book (scan_index s book.level_count k))
        (index_to_price book (scan_index s book.level_count r))
      ≡ false
unfolding scan_index improves
later_not_better book buy k r g kr rn = le→ltb_false _ _ (omega (arith, g.mono k r kr rn))
later_not_better book sell k r g kr rn = le→ltb_false _ _ (
    omega (
      arith,
      g.mono (book.level_count - suc r) (book.level_count - suc k) (omega arith) (omega arith),
    ))

-- What a scan of `r` rounds finds.
record Scanned (book : OrderBook) (s : Side) (r b : ℕ) : Type 0 where
  beats :
      (k : ℕ)
      → k < r
      → (book.levels s (scan_index s book.level_count k)).order_count ≢ 0
      → (b ≢ 0) × (improves s (index_to_price book (scan_index s book.level_count k)) b ≡ false)
  held :
      b ≢ 0
      → (i : ℕ) × (i < book.level_count)
        × ((book.levels s i).order_count ≢ 0)
        × (index_to_price book i ≡ b)

pub not_improved_by_self : (s : Side) (b : ℕ) → improves s b b ≡ false
unfolding improves
not_improved_by_self buy b = le→ltb_false b b (omega arith)
not_improved_by_self sell b = le→ltb_false b b (omega arith)

last_or_before : (k r : ℕ) → k < suc r → (k < r) ⊎ (k ≡ r)
last_or_before k r h = elim (compare_cases k r) [ inl l ↦ inl l | inr g ↦ inr (omega arith) ]

best_from-Scanned :
    (book : OrderBook) (s : Side) (r : ℕ)
    → Grid book
    → r ≤ book.level_count
    → Scanned book s r (best_from book s r)
unfolding best_from
best_from-Scanned book s zero g h = record {
  beats = λ k lt _. absurd (omega (arith, lt));
  held = λ ne. absurd (ne refl);
}
best_from-Scanned book s (suc r) g h =
    let i = scan_index s book.level_count r in
    let before = best_from-Scanned book s r g (omega arith) in
    let i_lt = scan_index_lt s book.level_count r h in
    let positive = g.positive i i_lt in
    elim (zero_cases (book.levels s i).order_count) [
      | inl e ↦ rw e (record {
        beats = λ k lt ne. elim (last_or_before k r lt) [
          | inl l ↦ before.beats k l ne
          | inr same ↦ absurd (
              ne (ap (λ x. (book.levels s (scan_index s book.level_count x)).order_count) same ∙ e))
        ];
        held = before.held;
      })
      | inr ne ↦ rw (==_false (book.levels s i).order_count 0 ne) (record {
        beats = λ k lt _. (
          λ z. omega (arith, positive, z),
          elim (last_or_before k r lt) [
            | inl l ↦ later_not_better book s k r g l h
            | inr same ↦
                ap
                  (λ x.
                    improves s (index_to_price book (scan_index s book.level_count x))
                      (index_to_price book i))
                  same
                ∙ not_improved_by_self s (index_to_price book i)
          ],
        );
        held = λ _. (i, i_lt, ne, refl);
      })
    ]
  where
    zero_cases : (n : ℕ) → (n ≡ 0) ⊎ (n ≢ 0)
    zero_cases zero = inl refl
    zero_cases (suc n) = inr (λ e. omega (arith, e))

-- A full scan finds the best price.
pub best_from-IsBest :
    (book : OrderBook) (s : Side) → Grid book → IsBest book s (best_from book s book.level_count)
best_from-IsBest book s g =
    let all = best_from-Scanned book s book.level_count g (omega arith) in
    record {
      beats = λ j lt ne.
          let (k, k_lt, at_j) = scan_index_of s book.level_count j lt in
          let (pos_b, worse) =
            all.beats k k_lt (subst (λ x. (book.levels s x).order_count ≢ 0) (sym at_j) ne) in
          (
            pos_b,
            subst
                (λ x.
                  improves s (index_to_price book x) (best_from book s book.level_count) ≡ false)
                at_j worse,
          );
      held = all.held;
    }
