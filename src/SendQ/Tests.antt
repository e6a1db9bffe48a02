-- ===== src/SendQ/Tests.antt =====
-- Runs of the send queue (fep/src/sendq.c).
use trading_sor_mock.Base.{min, ◌≡◌, refl, List, [], ◌∷◌, length}
use trading_sor_mock.Wire.{Bytes}
use trading_sor_mock.SendQ.{
  sendq_init, move_front, sendq_push, Written, wrote, would_block, sendq_flush,
}
use trading_sor_mock.SendQ.Order.{SendCall, push, flush, all_sent}

-- A `write` that takes two bytes at a time.
abbrev two_bytes : Bytes → Written
two_bytes bytes = wrote (min 2 (length bytes))

abbrev calls : List SendCall
calls =
    push (1 ∷ 2 ∷ 3 ∷ [])
    ∷ flush two_bytes
    ∷ push []
    ∷ push (4 ∷ [])
    ∷ flush (λ _. would_block)
    ∷ flush two_bytes
    ∷ []

calls_run : all_sent sendq_init calls ≡ 1 ∷ 2 ∷ 3 ∷ 4 ∷ []
unfolding sendq_init sendq_push move_front sendq_flush
calls_run = refl
