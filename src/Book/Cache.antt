-- ===== src/Book/Cache.antt =====
-- How a write to a level of the book changes what the best price is
-- (exchange/src/book/order_book.c).
use trading_sor_mock.Base.{
  ℕ, ◌<◌, ◌≡◌, sym, ap, ◌∙◌, ◌≢◌, ◌⊎◌, inl, inr, true, false, arith, subst, ◌==◌, ==_iff, ==_refl,
  Bool-cases,
}
use trading_sor_mock.Types.{Side, buy, sell, side_eq}
use trading_sor_mock.Level.{PriceLevel, empty_level}
use trading_sor_mock.Book.Prices.{OrderBook, book_price_none, price_to_index, index_to_price}
use trading_sor_mock.Book.Grid.{Grid}
use trading_sor_mock.Book.{set_level, set_best, improves}
use trading_sor_mock.Book.Best.{IsBest, Cached}

-- The grid depends on the segments only.
pub set_level-Grid :
    (book : OrderBook) (side : Side) (idx : ℕ) (level : PriceLevel)
    → Grid book
    → Grid (set_level book side idx level)
unfolding set_level price_to_index index_to_price
set_level-Grid book side idx level g = record {
  index_ok = g.index_ok;
  price_ok = g.price_ok;
  mono = g.mono;
  positive = g.positive;
}

-- The level at an index after a write.
level_cases :
    (book : OrderBook) (side : Side) (idx : ℕ) (level : PriceLevel) (s : Side) (j : ℕ)
    → ((side_eq s side ≡ true) × (j ≡ idx) × ((set_level book side idx level).levels s j ≡ level))
      ⊎ ((set_level book side idx level).levels s j ≡ book.levels s j)
unfolding set_level
level_cases book side idx level s j = elim (Bool-cases (side_eq s side)) [
  | inr e ↦ inr (rw e)
  | inl e ↦ elim (Bool-cases (j == idx)) [
    | inr f ↦ inr (rw (e, f))
    | inl f ↦ inl (e, (==_iff j idx).0 f, rw (e, f))
  ]
]

improves_trans :
    (s : Side) (x y z : ℕ)
    → improves s x y ≡ false
    → improves s y z ≡ false
    → improves s x z ≡ false
unfolding improves
improves_trans buy x y z h k = ground arith
improves_trans sell x y z h k = ground arith

-- Only a write to a level of the side matters, and only one that changes whether the level is
-- empty.
module _ (book : OrderBook) (side : Side) (idx : ℕ) (level : PriceLevel) (s : Side) (b : ℕ)
    (best : IsBest book s b) where
  -- A write that leaves no new level with orders, and not empties the best one.
  pub shrink-IsBest :
      (side_eq s side ≡ true → level.order_count ≢ 0 → (book.levels side idx).order_count ≢ 0)
      → (level.order_count ≡ 0 → side_eq s side ≡ true → index_to_price book idx ≢ b)
      → IsBest (set_level book side idx level) s b
  unfolding index_to_price set_level
  shrink-IsBest keeps other = record {
    beats = λ j lt ne. elim (level_cases book side idx level s j) [
      | inr same ↦ best.beats j lt (λ e. ne (ap (λ (l : PriceLevel). l.order_count) same ∙ e))
      | inl (es, ej, new_level) ↦ best.beats j lt (
          side_of s side es (
            subst (λ x. (book.levels side x).order_count ≢ 0) (sym ej)
              (keeps es (λ e. ne (ap (λ (l : PriceLevel). l.order_count) new_level ∙ e)))))
    ];
    held = λ ne.
        let (i, lt, full, price) = best.held ne in
        (
          i,
          lt,
          elim (level_cases book side idx level s i) [
            | inr same ↦ λ e. full (sym (ap (λ (l : PriceLevel). l.order_count) same) ∙ e)
            | inl (es, ei, new_level) ↦ λ e.
                other (sym (ap (λ (l : PriceLevel). l.order_count) new_level) ∙ e) es
                  (subst (λ x. index_to_price book x ≡ b) ei price)
          ],
          price,
        );
  }
    where
      side_of :
          (s side : Side) {j : ℕ}
          → side_eq s side ≡ true
          → (book.levels side j).order_count ≢ 0
          → (book.levels s j).order_count ≢ 0
      side_of buy buy e h = h
      side_of sell sell e h = h
      side_of buy sell e h = cc
      side_of sell buy e h = cc

  -- A write of a level with orders, at a price that the new best is not worse than.
  pub grow-IsBest :
      (b' : ℕ)
      → level.order_count ≢ 0
      → side_eq s side ≡ true
      → idx < book.level_count
      → b' ≢ 0
      → improves s (index_to_price book idx) b' ≡ false
      → ((b' ≡ index_to_price book idx) × (b ≢ 0 → improves s b b' ≡ false)) ⊎ (b' ≡ b)
      → IsBest (set_level book side idx level) s b'
  unfolding index_to_price set_level
  grow-IsBest b' full es lt ne worse which = record {
    beats = λ j j_lt j_full. (
      ne,
      elim (level_cases book side idx level s j) [
        | inl (_, ej, _) ↦ subst (λ x. improves s (index_to_price book x) b' ≡ false) (sym ej) worse
        | inr same ↦
            let old =
              best.beats j j_lt (λ e. j_full (ap (λ (l : PriceLevel). l.order_count) same ∙ e)) in
            elim which [
              | inl (_, better) ↦ improves_trans s (index_to_price book j) b b' old.1 (better old.0)
              | inr kept ↦
                  subst (λ x. improves s (index_to_price book j) x ≡ false) (sym kept) old.1
            ]
      ],
    );
    held = λ _. elim which [
      | inl (at_idx, _) ↦ (idx, lt, at_write s side idx es, sym at_idx)
      | inr kept ↦
          let (i, i_lt, i_full, price) = best.held (λ e. ne (kept ∙ e)) in
          (
            i,
            i_lt,
            (elim (level_cases book side idx level s i) [
              | inr same ↦ λ e. i_full (sym (ap (λ (l : PriceLevel). l.order_count) same) ∙ e)
              | inl (_, _, new_level) ↦
                  λ e. full (sym (ap (λ (l : PriceLevel). l.order_count) new_level) ∙ e)
            ]),
            price ∙ sym kept,
          )
    ];
  }
    where
      at_write :
          (s side : Side) (idx : ℕ)
          → side_eq s side ≡ true
          → ((set_level book side idx level).levels s idx).order_count ≢ 0
      at_write s side idx e = rw (e, ==_refl idx) full

-- The cache is no part of what the best price depends on.
pub set_best-IsBest :
    (book : OrderBook) (side : Side) (price : ℕ) (s : Side) (b : ℕ)
    → IsBest book s b
    → IsBest (set_best book side price) s b
unfolding set_best index_to_price
set_best-IsBest book side price s b h = record { beats = h.beats; held = h.held }

-- A book without orders, and no best price.
pub empty-Cached :
    (book : OrderBook)
    → ((s : Side) (i : ℕ) → book.levels s i ≡ empty_level)
    → ((s : Side) → book.best s ≡ book_price_none)
    → Cached book
empty-Cached book levels best s = record {
  beats = λ j _ full. absurd (full (ap (λ (l : PriceLevel). l.order_count) (levels s j)));
  held = λ some_best. absurd (some_best (best s));
}

pub set_best-Grid :
    (book : OrderBook) (side : Side) (price : ℕ) → Grid book → Grid (set_best book side price)
unfolding set_best price_to_index index_to_price
set_best-Grid book side price g = record {
  index_ok = g.index_ok;
  price_ok = g.price_ok;
  mono = g.mono;
  positive = g.positive;
}
