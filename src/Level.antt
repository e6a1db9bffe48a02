-- ===== src/Level.antt =====
-- exchange/src/book/price_level.c: the orders at one price, first come first served. A pointer to
-- an order is the number of its slot in the pool; the doubly linked list of a level, from `head` to
-- `tail`, is the list of the slots that it links.
pub mod Queue
pub mod Links
pub mod Laws
pub mod Tests
use trading_sor_mock.Base.{
  ℕ, ◌+◌, ◌-◌, ◌||◌, Option, none, some, List, [], ◌∷◌, ◌++◌, ltb, leb, ◌==◌, if◌then◌else◌,
}
use trading_sor_mock.Types.{
  ErrorCode, ok, invalid_qty, book_full, int32_max, Order, order_remaining_qty,
}

-- `order_pool.slots`
abbrev pub Slots : Type 0
Slots = ℕ → Order

-- A write through a pointer.
unfoldable pub store : Slots → ℕ → Order → Slots
store slots p o q = if q == p then o else slots q

-- `price_level_t`; `head` and `tail` are the ends of `queue`.
pub record PriceLevel : Type 0 where
  pub queue : List ℕ
  pub total_qty : ℕ
  pub order_count : ℕ

-- A level of a fresh array (`calloc`).
abbrev pub empty_level : PriceLevel
empty_level = record { queue = []; total_qty = 0; order_count = 0 }

abbrev pub head? : List ℕ → Option ℕ
head? [] = none
head? (p ∷ q) = some p

-- Unlinking a slot from the list.
unfoldable pub unlink : ℕ → List ℕ → List ℕ
unlink p [] = []
unlink p (q ∷ qs) = if q == p then qs else q ∷ unlink p qs

unfoldable pub level_push_back : Slots → PriceLevel → ℕ → ErrorCode × PriceLevel
level_push_back slots level p =
    let rem = order_remaining_qty (slots p) in
    if rem == 0
    then (invalid_qty, level)
    else if ltb (int32_max - level.total_qty) rem
    then (book_full, level)
    else (
      ok,
      record {
        queue = level.queue ++ (p ∷ []);
        total_qty = level.total_qty + rem;
        order_count = level.order_count + 1;
      },
    )

unfoldable pub level_remove : Slots → PriceLevel → ℕ → PriceLevel
unfolding unlink
level_remove slots level p = record {
  queue = unlink p level.queue;
  total_qty = level.total_qty - order_remaining_qty (slots p);
  order_count = level.order_count - 1;
}

unfoldable pub level_pop_front : Slots → PriceLevel → Option ℕ × PriceLevel
unfolding level_remove
level_pop_front slots level = elim (head? level.queue) [
  | none ↦ (none, level)
  | some p ↦ (some p, level_remove slots level p)
]

unfoldable pub level_reduce_qty : Slots → PriceLevel → ℕ → ℕ → ErrorCode × Slots × PriceLevel
unfolding store
level_reduce_qty slots level p qty =
    let o = slots p in
    if qty == 0 || leb (order_remaining_qty o) qty then (invalid_qty, slots, level) else (
      ok,
      store slots p (record o { filled_qty = o.filled_qty + qty }),
      record level { total_qty = level.total_qty - qty },
    )

unfoldable pub level_amend_qty : Slots → PriceLevel → ℕ → ℕ → ErrorCode × Slots × PriceLevel
unfolding store
level_amend_qty slots level p new_qty =
    let o = slots p in
    if leb new_qty o.filled_qty || leb o.qty new_qty then (invalid_qty, slots, level) else (
      ok,
      store slots p (record o { qty = new_qty }),
      record level { total_qty = level.total_qty - (o.qty - new_qty) },
    )
