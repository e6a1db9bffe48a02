-- ===== src/Level/Laws.antt =====
-- The invariant of a price level (exchange/include/price_level.h) and its operations: the totals
-- agree with the queue, whose order is the order of arrival.
use trading_sor_mock.Base.{
  ℕ, ◌+◌, ◌-◌, ◌<◌, ◌≡◌, inl, inr, ◌||◌, [], ◌∷◌, arith, ltb, leb, ◌==◌, Bool-cases, length,
  length-append, All-append,
}
use trading_sor_mock.Types.{int32_max, Order, order_remaining_qty}
use trading_sor_mock.Level.{
  Slots, store, PriceLevel, level_push_back, level_remove, level_reduce_qty, level_amend_qty,
}
use trading_sor_mock.Level.Queue.{
  queue_qty, Absent, Distinct, Linked, AllOpen, queue_qty-append, Distinct-append, Distinct-unlink,
  AllOpen-unlink, queue_qty-unlink, length-unlink, Absent-unlink_self, queue_qty-store-Linked,
  AllOpen-store-Linked, Linked-le,
}

pub record LevelOk (slots : Slots) (level : PriceLevel) : Type 0 where
  pub total : level.total_qty ≡ queue_qty slots level.queue
  pub count : level.order_count ≡ length level.queue
  pub distinct : Distinct level.queue
  pub open_orders : AllOpen slots level.queue

-- Linking an order that is not in the queue keeps the level's invariant, whatever
-- `level_push_back` answers: the total and the count agree with the queue, no order is in it twice,
-- and each has something open.
pub level_push_back-LevelOk :
    (slots : Slots) (level : PriceLevel) (p : ℕ)
    → LevelOk slots level
    → Absent p level.queue
    → LevelOk slots (level_push_back slots level p).1
unfolding level_push_back
level_push_back-LevelOk slots level p v a = elim (Bool-cases (order_remaining_qty (slots p) == 0)) [
  | inl e ↦ rw e v
  | inr e ↦
      rw e (elim (Bool-cases (ltb (int32_max - level.total_qty) (order_remaining_qty (slots p)))) [
        | inl f ↦ rw f v
        | inr f ↦ rw f (record {
          total = omega (arith, v.total, queue_qty-append slots level.queue p);
          count = omega (arith, v.count, length-append level.queue (p ∷ []));
          distinct = Distinct-append level.queue p v.distinct a;
          open_orders =
              All-append (λ x. 0 < order_remaining_qty (slots x)) level.queue (p ∷ []) v.open_orders
                (ground arith, tt);
        })
      ])
]

-- Unlinking an order of the queue keeps the level's invariant, and the order is then not in the
-- queue.
pub level_remove-LevelOk :
    (slots : Slots) (level : PriceLevel) (p : ℕ)
    → LevelOk slots level
    → Linked p level.queue
    → LevelOk slots (level_remove slots level p) × Absent p (level_remove slots level p).queue
unfolding level_remove
level_remove-LevelOk slots level p v l = (
  record {
    total = omega (arith, v.total, queue_qty-unlink slots p level.queue l);
    count = omega (arith, v.count, length-unlink p level.queue l);
    distinct = Distinct-unlink p level.queue v.distinct;
    open_orders = AllOpen-unlink slots p level.queue v.open_orders;
  },
  Absent-unlink_self p level.queue v.distinct,
)

-- A write to a linked order, with the total moved by the same difference.
level_store-LevelOk :
    (slots : Slots) (level : PriceLevel) (p : ℕ) (o : Order) (total : ℕ)
    → LevelOk slots level
    → Linked p level.queue
    → 0 < order_remaining_qty o
    → total + order_remaining_qty (slots p) ≡ level.total_qty + order_remaining_qty o
    → LevelOk (store slots p o) (record level { total_qty = total })
level_store-LevelOk slots level p o total v l h e = record {
  total = omega (arith, e, v.total, queue_qty-store-Linked slots p o level.queue v.distinct l);
  count = v.count;
  distinct = v.distinct;
  open_orders = AllOpen-store-Linked slots p o level.queue h v.open_orders;
}

-- A partial fill of an order of the queue keeps the level's invariant, whatever `level_reduce_qty`
-- answers.
pub level_reduce_qty-LevelOk :
    (slots : Slots) (level : PriceLevel) (p qty : ℕ)
    → LevelOk slots level
    → Linked p level.queue
    → let (_, slots', level') = level_reduce_qty slots level p qty in LevelOk slots' level'
unfolding level_reduce_qty
level_reduce_qty-LevelOk slots level p qty v l =
    elim (Bool-cases (qty == 0 || leb (order_remaining_qty (slots p)) qty)) [
      | inl e ↦ rw e v
      | inr e ↦
          let le = Linked-le slots p level.queue l in
          rw e (
            level_store-LevelOk slots level p
              (record (slots p) { filled_qty = (slots p).filled_qty + qty }) (level.total_qty - qty)
              v l (ground arith) (ground (arith, v.total, le)))
    ]

-- Lowering the quantity of an order of the queue keeps the level's invariant, whatever
-- `level_amend_qty` answers.
pub level_amend_qty-LevelOk :
    (slots : Slots) (level : PriceLevel) (p qty : ℕ)
    → LevelOk slots level
    → Linked p level.queue
    → let (_, slots', level') = level_amend_qty slots level p qty in LevelOk slots' level'
unfolding level_amend_qty
level_amend_qty-LevelOk slots level p qty v l =
    elim (Bool-cases (leb qty (slots p).filled_qty || leb (slots p).qty qty)) [
      | inl e ↦ rw e v
      | inr e ↦
          let le = Linked-le slots p level.queue l in
          rw e (
            level_store-LevelOk slots level p (record (slots p) { qty = qty })
              (level.total_qty - ((slots p).qty - qty)) v l (ground arith)
              (ground (arith, v.total, le)))
    ]
