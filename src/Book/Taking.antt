-- ===== src/Book/Taking.antt =====
-- Taking from an order of the book, as a whole or in part, keeps the book's invariant
-- (`book_remove` and `book_reduce_qty` of exchange/src/book/order_book.c).
use trading_sor_mock.Base.{
  ℕ, ◌+◌, ◌-◌, ◌<◌, ◌≡◌, refl, sym, ap, ◌∙◌, inl, inr, false, ◌&&◌, some, List, [], ◌∷◌, arith,
  subst, ◌==◌, if◌then◌else◌, lt→leb_false, ==_false, Bool-cases, length,
}
use trading_sor_mock.Types.{Side, ErrorCode, ok, Order, order_remaining_qty}
use trading_sor_mock.Level.{Slots, store, PriceLevel, unlink, level_remove, level_reduce_qty}
use trading_sor_mock.Level.Queue.{Absent, Linked}
use trading_sor_mock.Level.Laws.{LevelOk, level_remove-LevelOk, level_reduce_qty-LevelOk}
use trading_sor_mock.Book.Prices.{OrderBook, price_to_index, index_to_price}
use trading_sor_mock.Book.Grid.{Grid}
use trading_sor_mock.Book.{
  set_level, set_best, best_from, recompute_best, book_remove, book_reduce_qty,
}
use trading_sor_mock.Book.Cache.{set_level-Grid, shrink-IsBest, set_best-Grid}
use trading_sor_mock.Book.Remove.{book_remove-Cached}
use trading_sor_mock.Book.Placed.{
  Placed, BookOk, Unlinked, NoNew, LevelOk-store, set_best-Placed, write_cases, Linked-once,
  SamePlace, set_level-Placed,
}

Linked-unlink : (x p : ℕ) (q : List ℕ) → Linked x (unlink p q) → Linked x q
unfolding unlink
Linked-unlink x p [] l = l
Linked-unlink x p (y ∷ q) l = elim (Bool-cases (y == p)) [
  | inl e ↦ inr (rw (e, unlink) at l)
  | inr e ↦ later (Linked-unlink x p q) (rw (e, unlink) at l)
]
  where
    later : (Linked x (unlink p q) → Linked x q) → Linked x (y ∷ unlink p q) → Linked x (y ∷ q)
    later tail (inl same) = inl same
    later tail (inr there) = inr (tail there)

pub Linked-length : (p : ℕ) (q : List ℕ) → Linked p q → 0 < length q
Linked-length p [] l = elim l [ ]
Linked-length p (x ∷ q) l = omega arith

-- What `book_remove` makes of an order whose price has a level.
pub removed_book : Slots → OrderBook → (idx p : ℕ) → OrderBook
removed_book slots book idx p =
    let o = slots p in
    let level = level_remove slots (book.levels o.side idx) p in
    let book' = set_level book o.side idx level in
    if level.order_count == 0 && o.price == book.best o.side
    then recompute_best book' o.side
    else book'

pub book_remove_at :
    (slots : Slots) (book : OrderBook) (idx p : ℕ)
    → price_to_index book (slots p).price ≡ some idx
    → (book_remove slots book p).1 ≡ removed_book slots book idx p
unfolding book_remove removed_book
book_remove_at slots book idx p f = rw (f, book_remove) refl

-- What holds of a book and stays when the best prices are computed again, holds after a removal.
pub by_recompute :
    (P : OrderBook → Type 0) (slots : Slots) (book : OrderBook) (idx p : ℕ)
    → ((b : OrderBook) (s : Side) (price : ℕ) → P b → P (set_best b s price))
    → P (set_level book (slots p).side idx (level_remove slots (book.levels (slots p).side idx) p))
    → P (removed_book slots book idx p)
unfolding removed_book recompute_best
by_recompute P slots book idx p keeps h =
    let o = slots p in
    let level = level_remove slots (book.levels o.side idx) p in
    let book' = set_level book o.side idx level in
    elim (Bool-cases (level.order_count == 0 && o.price == book.best o.side)) [
      | inl e ↦ rw (e) (keeps book' o.side (best_from book' o.side book'.level_count) h)
      | inr e ↦ rw (e) h
    ]

-- The order in slot `p` is linked where its side and price say.
abbrev pub Standing : Slots → OrderBook → (idx p : ℕ) → Type 0
Standing slots book idx p =
    (price_to_index book (slots p).price ≡ some idx)
    × Linked p (book.levels (slots p).side idx).queue

pub book_remove-BookOk :
    (slots : Slots) (book : OrderBook) (idx p : ℕ) (o : Order)
    → BookOk slots book
    → Standing slots book idx p
    → SamePlace o (slots p)
    → BookOk (store slots p o) (book_remove slots book p).1
book_remove-BookOk slots book idx p o h (at, linked) same =
    let s = (slots p).side in
    let level = book.levels s idx in
    let left = level_remove slots level p in
    let (left_ok, gone) = level_remove-LevelOk slots level p (h.orders.levels_ok s idx) linked in
    let written =
      set_level-Placed slots book s idx p o left h.orders linked same
        (LevelOk-store slots left p o gone left_ok)
        (λ x l. Linked-unlink x p level.queue (unfold level_remove in l)) in
    record {
      grid = rw (book_remove_at slots book idx p at) (
          by_recompute Grid slots book idx p set_best-Grid (set_level-Grid book s idx left h.grid));
      cached = book_remove-Cached slots book p h.grid h.cached;
      orders = rw (book_remove_at slots book idx p at) (
          by_recompute (Placed (store slots p o)) slots book idx p
            (set_best-Placed (store slots p o)) written);
    }

-- The order after a fill of `qty`.
abbrev pub filled_order : Order → ℕ → Order
filled_order o qty = record o { filled_qty = o.filled_qty + qty }

pub level_reduce_qty_in :
    (slots : Slots) (level : PriceLevel) (p qty : ℕ)
    → 0 < qty
    → qty < order_remaining_qty (slots p)
    → level_reduce_qty slots level p qty ≡ (
      ok,
      store slots p (filled_order (slots p) qty),
      record level { total_qty = level.total_qty - qty },
    )
unfolding level_reduce_qty
level_reduce_qty_in slots level p qty pos part =
    let first : (qty == 0) ≡ false = ==_false qty 0 (λ e. omega (arith, e, pos)) in
    rw (first, lt→leb_false (order_remaining_qty (slots p)) qty part) refl

pub book_reduce_qty_in :
    (slots : Slots) (book : OrderBook) (idx p qty : ℕ)
    → price_to_index book (slots p).price ≡ some idx
    → 0 < qty
    → qty < order_remaining_qty (slots p)
    → book_reduce_qty slots book p qty ≡ (
      ok,
      store slots p (filled_order (slots p) qty),
      set_level book (slots p).side idx (record (book.levels (slots p).side idx) {
        total_qty = (book.levels (slots p).side idx).total_qty - qty;
      }),
    )
unfolding book_reduce_qty
book_reduce_qty_in slots book idx p qty at pos part =
    rw
      (
        at,
        level_reduce_qty_in slots (book.levels (slots p).side idx) p qty pos part,
        book_reduce_qty,
      )
      refl

pub book_reduce_qty-BookOk :
    (slots : Slots) (book : OrderBook) (idx p qty : ℕ)
    → BookOk slots book
    → Standing slots book idx p
    → 0 < qty
    → qty < order_remaining_qty (slots p)
    → BookOk (book_reduce_qty slots book p qty).1 (book_reduce_qty slots book p qty).2
unfolding index_to_price set_level
book_reduce_qty-BookOk slots book idx p qty h (at, linked) pos part =
    let s = (slots p).side in
    let level = book.levels s idx in
    let o = filled_order (slots p) qty in
    let left : PriceLevel = record level { total_qty = level.total_qty - qty } in
    let level_in = level_reduce_qty_in slots level p qty pos part in
    let good : LevelOk (store slots p o) left =
      subst (λ (r : ErrorCode × Slots × PriceLevel). LevelOk r.1 r.2) level_in
        (level_reduce_qty-LevelOk slots level p qty (h.orders.levels_ok s idx) linked) in
    let result : BookOk (store slots p o) (set_level book s idx left) = record {
      grid = set_level-Grid book s idx left h.grid;
      cached = λ side.
          shrink-IsBest book s idx left side (book.best side) (h.cached side) (λ _ ne. ne)
            (λ none_left _. absurd (
              omega (
                arith,
                none_left,
                (h.orders.levels_ok s idx).count,
                Linked-length p level.queue linked,
              )));
      orders =
          set_level-Placed slots book s idx p o left h.orders linked (refl, refl) good (λ x l. l);
    } in
    subst (λ (r : ErrorCode × Slots × OrderBook). BookOk r.1 r.2)
      (sym (book_reduce_qty_in slots book idx p qty at pos part)) result

-- What a removal leaves linked was linked before, and the removed order is not.
pub book_remove-NoNew :
    (slots : Slots) (book : OrderBook) (idx p : ℕ)
    → Placed slots book
    → Standing slots book idx p
    → NoNew book (book_remove slots book p).1 × Unlinked p (book_remove slots book p).1
unfolding set_best
book_remove-NoNew slots book idx p h (at, linked) =
    let side = (slots p).side in
    let level = book.levels side idx in
    let left = level_remove slots level p in
    let (_, gone) = level_remove-LevelOk slots level p (h.levels_ok side idx) linked in
    let written : NoNew book (set_level book side idx left)
        × Unlinked p (set_level book side idx left) =
      (
        (λ s i x l. elim (write_cases book side idx left s i) [
          | inr (_, e) ↦ subst (λ (y : PriceLevel). Linked x y.queue) e l
          | inl (es, ei, e) ↦
              subst (λ (y : PriceLevel). Linked x y.queue)
                (ap (λ y. book.levels y idx) (sym es) ∙ ap (book.levels s) (sym ei))
                (Linked-unlink x p level.queue
                  (unfold level_remove in subst (λ (y : PriceLevel). Linked x y.queue) e l))
        ]),
        (λ s i. elim (write_cases book side idx left s i) [
          | inl (_, _, e) ↦ subst (λ (y : PriceLevel). Absent p y.queue) (sym e) gone
          | inr (apart, e) ↦
              subst (λ (y : PriceLevel). Absent p y.queue) (sym e)
                (Linked-once slots book side s idx i p h linked apart)
        ]),
      ) in
    rw (book_remove_at slots book idx p at) (
      by_recompute (λ (b : OrderBook). NoNew book b × Unlinked p b) slots book idx p
        (λ b s price kept. kept) written)

pub book_reduce_qty-NoNew :
    (slots : Slots) (book : OrderBook) (idx p qty : ℕ)
    → price_to_index book (slots p).price ≡ some idx
    → 0 < qty
    → qty < order_remaining_qty (slots p)
    → NoNew book (book_reduce_qty slots book p qty).2
book_reduce_qty-NoNew slots book idx p qty at pos part =
    let side = (slots p).side in
    let level = book.levels side idx in
    let left : PriceLevel = record level { total_qty = level.total_qty - qty } in
    let written : NoNew book (set_level book side idx left) = λ s i x l.
      elim (write_cases book side idx left s i) [
        | inr (_, e) ↦ subst (λ (y : PriceLevel). Linked x y.queue) e l
        | inl (es, ei, e) ↦
            subst (λ (y : PriceLevel). Linked x y.queue)
              (ap (λ y. book.levels y idx) (sym es) ∙ ap (book.levels s) (sym ei))
              (subst (λ (y : PriceLevel). Linked x y.queue) e l)
      ] in
    subst (λ (r : ErrorCode × Slots × OrderBook). NoNew book r.2)
      (sym (book_reduce_qty_in slots book idx p qty at pos part)) written
