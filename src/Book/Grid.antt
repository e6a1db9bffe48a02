-- ===== src/Book/Grid.antt =====
-- The valid prices of the band and the indices of the levels correspond one to one, in order
-- (`price_to_index` and `index_to_price` of exchange/src/book/order_book.c).
use trading_sor_mock.Base.{ℕ, ◌≤◌, ◌<◌, ◌≡◌, sym, ◌∙◌, true, some, arith, is_some}
use trading_sor_mock.Tick.{is_valid_tick_in}
use trading_sor_mock.Book.Prices.{OrderBook, find_price, price_to_index, find_index, index_to_price}
use trading_sor_mock.Book.Segments.{Chain}
use trading_sor_mock.Book.Chain.{
  find_price-Chain, find_index-Chain, find_index_mono, find_price_valid,
}

-- What the rest of the book needs of its prices and indices.
pub record Grid (book : OrderBook) : Type 0 where
  pub index_ok :
      (price idx : ℕ)
      → price_to_index book price ≡ some idx
      → (idx < book.level_count) × (index_to_price book idx ≡ price)
  pub price_ok :
      (idx : ℕ) → idx < book.level_count → price_to_index book (index_to_price book idx) ≡ some idx
  pub mono :
      (i j : ℕ) → i < j → j < book.level_count → index_to_price book i < index_to_price book j
  pub positive : (idx : ℕ) → idx < book.level_count → 0 < index_to_price book idx

-- The prices with a level are the valid prices of the band.
pub record Priced (book : OrderBook) : Type 0 where
  pub grid : Grid book
  pub complete :
      (price : ℕ)
      → book.low ≤ price
      → price ≤ book.high
      → is_valid_tick_in book.tick_table price ≡ true
      → is_some (price_to_index book price) ≡ true
  pub sound :
      (price idx : ℕ)
      → price_to_index book price ≡ some idx
      → (book.low ≤ price) × (price ≤ book.high) × (is_valid_tick_in book.tick_table price ≡ true)

module _ (book : OrderBook)
    (chain : Chain book.tick_table book.high 0 book.low book.seg book.level_count)
    (low_pos : 0 < book.low) where
  in_band :
      (price : ℕ)
      → book.low ≤ price
      → price ≤ book.high
      → price_to_index book price ≡ find_price book.seg price
  unfolding price_to_index
  in_band price lo hi = ground arith

  out_of_band :
      (price : ℕ) {idx : ℕ}
      → price_to_index book price ≡ some idx
      → (book.low ≤ price) × (price ≤ book.high)
  unfolding price_to_index
  out_of_band price e = ground arith

  found :
      (price idx : ℕ)
      → price_to_index book price ≡ some idx
      → (is_valid_tick_in book.tick_table price ≡ true)
        × (idx < book.level_count)
        × (index_to_price book idx ≡ price)
  unfolding index_to_price
  found price idx e =
      let (lo, hi) = out_of_band price e in
      let e' = sym (in_band price lo hi) ∙ e in
      let v =
        find_price_valid book.tick_table book.high 0 book.low book.seg book.level_count price chain
          lo hi e' in
      let (i, f, _, small, back) =
        find_price-Chain book.tick_table book.high 0 book.low book.seg book.level_count price chain
          v lo hi in
      let same : i ≡ idx = ground (arith, f, e') in (v, rw (← same) small, rw (← same) back)

  pub Chain-Priced : Priced book
  unfolding index_to_price
  Chain-Priced = record {
    grid = record {
      index_ok = λ price idx e. let (_, small, back) = found price idx e in (small, back);
      price_ok = λ idx h.
          let (above, below, _, f) =
            find_index-Chain book.tick_table book.high 0 book.low book.seg book.level_count idx
              chain (omega arith) h in
          in_band (find_index book.seg idx) above below ∙ f;
      mono = λ i j lt h.
          find_index_mono book.tick_table book.high 0 book.low book.seg book.level_count i j chain
            (omega arith) lt h;
      positive = λ idx h.
          let (above, _, _, _) =
            find_index-Chain book.tick_table book.high 0 book.low book.seg book.level_count idx
              chain (omega arith) h in
          omega (arith, above, low_pos);
    };
    complete = λ price lo hi v.
        let (i, f, _, _, _) =
          find_price-Chain book.tick_table book.high 0 book.low book.seg book.level_count price
            chain v lo hi in
        rw (in_band price lo hi, f);
    sound = λ price idx e. let (lo, hi) = out_of_band price e in (lo, hi, (found price idx e).0);
  }
