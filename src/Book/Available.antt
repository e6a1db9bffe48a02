-- ===== src/Book/Available.antt =====
-- How taking from the book changes the quantity that is within a price bound
-- (exchange/src/book/order_book.c).
use trading_sor_mock.Base.{
  ℕ, zero, suc, ◌+◌, ◌-◌, ◌<◌, ◌≡◌, refl, sym, ap, ◌∙◌, inl, inr, true, List, [], ◌∷◌, arith, subst,
  ◌==◌, ==_iff, Bool-cases, length,
}
use trading_sor_mock.Types.{Side, ErrorCode, order_remaining_qty}
use trading_sor_mock.Level.{Slots, store, PriceLevel, level_remove}
use trading_sor_mock.Level.Queue.{queue_qty, Linked-le}
use trading_sor_mock.Level.Laws.{LevelOk, level_remove-LevelOk, level_reduce_qty-LevelOk}
use trading_sor_mock.Book.Prices.{OrderBook, index_to_price}
use trading_sor_mock.Book.{set_level, set_best, scan_index, book_remove, book_reduce_qty, within}
use trading_sor_mock.Book.Best.{scan_index_of}
use trading_sor_mock.Book.Placed.{BookOk, level_written}
use trading_sor_mock.Book.Taking.{
  removed_book, book_remove_at, by_recompute, Standing, filled_order, level_reduce_qty_in,
  book_reduce_qty_in,
}
use trading_sor_mock.Book.Depth.{level_within, total_within}
use trading_sor_mock.Book.Totals.{
  available, scan_index_injective, DifferAt, total_from, total_from_lem, total_behind,
  level_within_other,
}

-- A write to one level moves the available quantity by the difference of that level's.
pub available-set_level :
    (book : OrderBook) (side : Side) (idx : ℕ) (level : PriceLevel) (bound : ℕ)
    → idx < book.level_count
    → available (set_level book side idx level) side bound + level_within book side bound idx
      ≡ available book side bound + level_within (set_level book side idx level) side bound idx
available-set_level book side idx level bound lt =
    let n = book.level_count in
    let book' = set_level book side idx level in
    let (k, k_lt, at) = scan_index_of side n idx lt in
    let differ : DifferAt book book' side bound k = record {
      count_same = unfold set_level in refl;
      others = λ r r_lt ne.
          level_within_other book side idx level bound (scan_index side n r)
            (λ e. ne (scan_index_injective side n r k r_lt k_lt (e ∙ sym at)));
    } in
    let moved = total_behind book book' side bound k n differ k_lt (omega arith) in
    let after : available book' side bound ≡ total_from book' side bound n n =
      unfold set_level in total_from_lem book' side bound n in
    let before = total_from_lem book side bound n in
    subst
      (λ j.
        available book' side bound + level_within book side bound j
        ≡ available book side bound + level_within book' side bound j)
      at (omega (arith, after, before, moved))

total-set_best :
    (book : OrderBook) (s side : Side) (price bound r : ℕ)
    → total_within (set_best book s price) side bound r ≡ total_within book side bound r
unfolding set_best index_to_price
total-set_best book s side price bound zero = refl
total-set_best book s side price bound (suc r) =
    omega (arith, total-set_best book s side price bound r)

-- The cached best prices do not matter.
available-set_best :
    (book : OrderBook) (s side : Side) (price bound : ℕ)
    → available (set_best book s price) side bound ≡ available book side bound
unfolding set_best
available-set_best book s side price bound = total-set_best book s side price bound book.level_count

-- What a level adds, where it agrees with its queue.
level_adds :
    (slots : Slots) (level : PriceLevel)
    → LevelOk slots level
    → level.order_count ≡ 0
    → level.total_qty ≡ 0
unfolding queue_qty
level_adds slots level v none_left = v.total ∙ no_queue level.queue (sym v.count ∙ none_left)
  where
    no_queue : (q : List ℕ) → length q ≡ 0 → queue_qty slots q ≡ 0
    no_queue [] e = refl
    no_queue (p ∷ q) e = absurd (omega (arith, e))

level_within-LevelOk :
    (slots : Slots) (book : OrderBook) (side : Side) (bound idx : ℕ)
    → LevelOk slots (book.levels side idx)
    → within side bound (index_to_price book idx) ≡ true
    → level_within book side bound idx ≡ (book.levels side idx).total_qty
level_within-LevelOk slots book side bound idx v inside =
    elim (Bool-cases ((book.levels side idx).order_count == 0)) [
      | inr e ↦ rw (e, inside) refl
      | inl e ↦ rw (e) (
          sym (
            level_adds slots (book.levels side idx) v
              ((==_iff (book.levels side idx).order_count 0).0 e)))
    ]

-- A write of a level that agrees with its queue, within the bound.
available_written :
    (slots slots' : Slots) (book : OrderBook) (side : Side) (idx : ℕ) (level : PriceLevel)
    (bound : ℕ)
    → idx < book.level_count
    → within side bound (index_to_price book idx) ≡ true
    → LevelOk slots (book.levels side idx)
    → LevelOk slots' level
    → available (set_level book side idx level) side bound + (book.levels side idx).total_qty
      ≡ available book side bound + level.total_qty
available_written slots slots' book side idx level bound lt inside v v' =
    let book' = set_level book side idx level in
    let at = level_written book side idx level in
    let inside' : within side bound (index_to_price book' idx) ≡ true =
      unfold set_level index_to_price in inside in
    let new_adds =
      level_within-LevelOk slots' book' side bound idx (subst (LevelOk slots') (sym at) v') inside'
      ∙ ap (λ (l : PriceLevel). l.total_qty) at in
    let old_adds = level_within-LevelOk slots book side bound idx v inside in
    omega (arith, available-set_level book side idx level bound lt, new_adds, old_adds)

-- Taking an order out takes its open quantity from what is available.
pub book_remove-available :
    (slots : Slots) (book : OrderBook) (idx p bound : ℕ)
    → BookOk slots book
    → Standing slots book idx p
    → within (slots p).side bound (slots p).price ≡ true
    → available (book_remove slots book p).1 (slots p).side bound + order_remaining_qty (slots p)
      ≡ available book (slots p).side bound
book_remove-available slots book idx p bound h (at, linked) inside =
    let s = (slots p).side in
    let level = book.levels s idx in
    let left = level_remove slots level p in
    let (lt, price) = h.grid.index_ok (slots p).price idx at in
    let good = h.orders.levels_ok s idx in
    let (left_ok, _) = level_remove-LevelOk slots level p good linked in
    let written =
      available_written slots slots book s idx left bound lt (ap (within s bound) price ∙ inside)
        good left_ok in
    let total : left.total_qty + order_remaining_qty (slots p) ≡ level.total_qty =
      unfold level_remove in omega (arith, good.total, Linked-le slots p level.queue linked) in
    let same : available (removed_book slots book idx p) s bound
        ≡ available (set_level book s idx left) s bound =
      by_recompute
        (λ (b : OrderBook). available b s bound ≡ available (set_level book s idx left) s bound)
        slots book idx p (λ b side best e. available-set_best b side s best bound ∙ e) refl in
    omega (
      arith,
      ap (λ (b : OrderBook). available b s bound) (book_remove_at slots book idx p at),
      same,
      written,
      total,
    )

-- Taking a part of an order takes that part from what is available.
pub book_reduce_qty-available :
    (slots : Slots) (book : OrderBook) (idx p qty bound : ℕ)
    → BookOk slots book
    → Standing slots book idx p
    → 0 < qty
    → qty < order_remaining_qty (slots p)
    → within (slots p).side bound (slots p).price ≡ true
    → available (book_reduce_qty slots book p qty).2 (slots p).side bound + qty
      ≡ available book (slots p).side bound
book_reduce_qty-available slots book idx p qty bound h (at, linked) pos part inside =
    let s = (slots p).side in
    let level = book.levels s idx in
    let left : PriceLevel = record level { total_qty = level.total_qty - qty } in
    let (lt, price) = h.grid.index_ok (slots p).price idx at in
    let good = h.orders.levels_ok s idx in
    let good' : LevelOk (store slots p (filled_order (slots p) qty)) left =
      subst (λ (r : ErrorCode × Slots × PriceLevel). LevelOk r.1 r.2)
        (level_reduce_qty_in slots level p qty pos part)
        (level_reduce_qty-LevelOk slots level p qty good linked) in
    let written =
      available_written slots (store slots p (filled_order (slots p) qty)) book s idx left bound lt
        (ap (within s bound) price ∙ inside) good good' in
    omega (
      arith,
      ap (λ (r : ErrorCode × Slots × OrderBook). available r.2 s bound)
          (book_reduce_qty_in slots book idx p qty at pos part),
      written,
      good.total,
      Linked-le slots p level.queue linked,
      part,
    )
