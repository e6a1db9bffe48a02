-- ===== src/Level/Tests.antt =====
-- The theorems on a price level at a level of two orders.
use trading_sor_mock.Base.{◌+◌, refl, inl, inr, none, some, [], ◌∷◌, arith, ◌==◌, if◌then◌else◌}
use trading_sor_mock.Base.Int.{pos}
use trading_sor_mock.Types.{buy, limit, krx}
use trading_sor_mock.Level.{
  Slots, PriceLevel, unlink, level_push_back, level_remove, level_reduce_qty, level_amend_qty,
}
use trading_sor_mock.Level.Queue.{queue_qty, Absent}
use trading_sor_mock.Level.Laws.{
  LevelOk, level_push_back-LevelOk, level_remove-LevelOk, level_reduce_qty-LevelOk,
  level_amend_qty-LevelOk,
}
use trading_sor_mock.Level.Links.{Links, unlink_links, Represents}
use trading_sor_mock.Level.Links.Cut.{unlink_links-Represents}

abbrev orders : Slots
orders p = record {
  id = p + 1;
  client_order_id = 0;
  ts = pos p;
  price = 1000;
  qty = 10;
  filled_qty = 0;
  side = buy;
  type = limit;
  market = krx;
}

abbrev two_orders : PriceLevel
two_orders = record { queue = 0 ∷ 1 ∷ []; total_qty = 20; order_count = 2 }

two_orders-LevelOk : LevelOk orders two_orders
unfolding queue_qty
two_orders-LevelOk = record {
  total = refl;
  count = refl;
  distinct = ((λ e. omega (arith, e), tt), (tt, tt));
  open_orders = (omega arith, (omega arith, tt));
}

level_push_back-LevelOk_example : LevelOk orders (level_push_back orders two_orders 2).1
level_push_back-LevelOk_example =
    level_push_back-LevelOk orders two_orders 2 two_orders-LevelOk
      (λ e. omega (arith, e), (λ e. omega (arith, e), tt))

level_remove-LevelOk_example :
    LevelOk orders (level_remove orders two_orders 1)
    × Absent 1 (level_remove orders two_orders 1).queue
level_remove-LevelOk_example =
    level_remove-LevelOk orders two_orders 1 two_orders-LevelOk (inr (inl refl))

level_reduce_qty-LevelOk_example :
    let (_, slots', level') = level_reduce_qty orders two_orders 1 4 in LevelOk slots' level'
level_reduce_qty-LevelOk_example =
    level_reduce_qty-LevelOk orders two_orders 1 4 two_orders-LevelOk (inr (inl refl))

level_amend_qty-LevelOk_example :
    let (_, slots', level') = level_amend_qty orders two_orders 1 7 in LevelOk slots' level'
level_amend_qty-LevelOk_example =
    level_amend_qty-LevelOk orders two_orders 1 7 two_orders-LevelOk (inr (inl refl))

-- The links of a level of the slots 4, 7 and 2.
abbrev three_links : Links
three_links = record {
  next = λ p. if p == 4 then some 7 else if p == 7 then some 2 else none;
  prev = λ p. if p == 7 then some 4 else if p == 2 then some 7 else none;
  head = some 4;
  tail = some 2;
}

three_links-Represents : Represents three_links (4 ∷ 7 ∷ 2 ∷ [])
three_links-Represents = record {
  head_ok = refl;
  runs = (refl, refl, (refl, refl, (refl, refl, refl)));
}

unlink_links-Represents_example :
    Represents (unlink_links 7 three_links) (unlink 7 (4 ∷ 7 ∷ 2 ∷ []))
unlink_links-Represents_example =
    unlink_links-Represents three_links (4 ∷ 7 ∷ 2 ∷ []) 7 three_links-Represents
      (
        (λ e. omega (arith, e), (λ e. omega (arith, e), tt)),
        ((λ e. omega (arith, e), tt), (tt, tt)),
      )
      (inr (inl refl))
