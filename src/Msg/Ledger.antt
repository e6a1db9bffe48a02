-- ===== src/Msg/Ledger.antt =====
-- core/src/msg.c and core/include/msg.h: the bodies of the messages on the synthetic participants, legs and accounts.
pub mod RoundTrip
use trading_sor_mock.Msg.Reader.{◌>>=◌}
use trading_sor_mock.Base.{ℕ, [], ◌∷◌, length}
use trading_sor_mock.Base.Int.{ℤ}
use trading_sor_mock.Types.{Result}
use trading_sor_mock.Wire.{
  Bytes, wire_put_u8, wire_put_u64, wire_put_i32, wire_put_i64, wire_put_str,
}
use trading_sor_mock.Msg.Lengths.{
  msg_account_len, msg_tick_set_len, msg_tick_ack_len, msg_leg_ack_len, msg_account_open_len,
  msg_account_ack_len,
}
use trading_sor_mock.Msg.Reader.{
  written, Reader, pure, get_u8, get_u64, get_i32, get_i64, get_str, enc_check, dec_check,
  unless_failed,
}

-- `msg_tick_set_t`
pub record TickSet : Type 0 where
  pub on : ℕ

-- The bytes of a `msg_tick_set_t`, field by field.
abbrev pub tick_set_bytes : TickSet → Bytes
tick_set_bytes m = written (wire_put_u8 m.on ∷ [])

unfoldable pub msg_encode_tick_set : TickSet → (cap : ℕ) → Result Bytes
msg_encode_tick_set m cap = unless_failed (enc_check cap msg_tick_set_len) (tick_set_bytes m)

abbrev pub read_tick_set : Reader TickSet
read_tick_set = do on ← get_u8; pure (record { on = on })

unfoldable pub msg_decode_tick_set : Bytes → Result TickSet
msg_decode_tick_set buf =
    unless_failed (dec_check (length buf) msg_tick_set_len) (read_tick_set buf).0

-- `msg_tick_ack_t`
pub record TickAck : Type 0 where
  pub on : ℕ
  pub code : ℤ

-- The bytes of a `msg_tick_ack_t`, field by field.
abbrev pub tick_ack_bytes : TickAck → Bytes
tick_ack_bytes m = written (wire_put_u8 m.on ∷ wire_put_i32 m.code ∷ [])

unfoldable pub msg_encode_tick_ack : TickAck → (cap : ℕ) → Result Bytes
msg_encode_tick_ack m cap = unless_failed (enc_check cap msg_tick_ack_len) (tick_ack_bytes m)

abbrev pub read_tick_ack : Reader TickAck
read_tick_ack = do on ← get_u8; code ← get_i32; pure (record { on = on; code = code })

unfoldable pub msg_decode_tick_ack : Bytes → Result TickAck
msg_decode_tick_ack buf =
    unless_failed (dec_check (length buf) msg_tick_ack_len) (read_tick_ack buf).0

-- `msg_leg_ack_t`
pub record LegAck : Type 0 where
  pub cl_ord_id : ℕ
  pub order_id : ℕ
  pub reason : ℤ
  pub filled_qty : ℤ
  pub notional : ℤ
  pub resting : ℕ

-- The bytes of a `msg_leg_ack_t`, field by field.
abbrev pub leg_ack_bytes : LegAck → Bytes
leg_ack_bytes m = written (
    wire_put_u64 m.cl_ord_id
    ∷ wire_put_u64 m.order_id
    ∷ wire_put_i32 m.reason
    ∷ wire_put_i32 m.filled_qty
    ∷ wire_put_i64 m.notional
    ∷ wire_put_u8 m.resting
    ∷ [])

unfoldable pub msg_encode_leg_ack : LegAck → (cap : ℕ) → Result Bytes
msg_encode_leg_ack m cap = unless_failed (enc_check cap msg_leg_ack_len) (leg_ack_bytes m)

abbrev pub read_leg_ack : Reader LegAck
read_leg_ack = do
  cl_ord_id ← get_u64
  order_id ← get_u64
  reason ← get_i32
  filled_qty ← get_i32
  notional ← get_i64
  resting ← get_u8
  pure (record {
    cl_ord_id = cl_ord_id;
    order_id = order_id;
    reason = reason;
    filled_qty = filled_qty;
    notional = notional;
    resting = resting;
  })

unfoldable pub msg_decode_leg_ack : Bytes → Result LegAck
msg_decode_leg_ack buf = unless_failed (dec_check (length buf) msg_leg_ack_len) (read_leg_ack buf).0

-- `msg_account_open_t`
pub record AccountOpen : Type 0 where
  pub account : Bytes
  pub cash : ℤ
  pub pos_qty : ℤ
  pub pos_cost : ℤ

-- The bytes of a `msg_account_open_t`, field by field.
abbrev pub account_open_bytes : AccountOpen → Bytes
account_open_bytes m = written (
    wire_put_str msg_account_len m.account
    ∷ wire_put_i64 m.cash
    ∷ wire_put_i64 m.pos_qty
    ∷ wire_put_i64 m.pos_cost
    ∷ [])

unfoldable pub msg_encode_account_open : AccountOpen → (cap : ℕ) → Result Bytes
msg_encode_account_open m cap =
    unless_failed (enc_check cap msg_account_open_len) (account_open_bytes m)

abbrev pub read_account_open : Reader AccountOpen
read_account_open = do
  account ← get_str msg_account_len
  cash ← get_i64
  pos_qty ← get_i64
  pos_cost ← get_i64
  pure (record { account = account; cash = cash; pos_qty = pos_qty; pos_cost = pos_cost })

unfoldable pub msg_decode_account_open : Bytes → Result AccountOpen
msg_decode_account_open buf =
    unless_failed (dec_check (length buf) msg_account_open_len) (read_account_open buf).0

-- `msg_account_ack_t`
pub record AccountAck : Type 0 where
  pub account : Bytes
  pub code : ℤ
  pub cash : ℤ
  pub reserved : ℤ
  pub pos_qty : ℤ
  pub pos_cost : ℤ
  pub realized : ℤ

-- The bytes of a `msg_account_ack_t`, field by field.
abbrev pub account_ack_bytes : AccountAck → Bytes
account_ack_bytes m = written (
    wire_put_str msg_account_len m.account
    ∷ wire_put_i32 m.code
    ∷ wire_put_i64 m.cash
    ∷ wire_put_i64 m.reserved
    ∷ wire_put_i64 m.pos_qty
    ∷ wire_put_i64 m.pos_cost
    ∷ wire_put_i64 m.realized
    ∷ [])

unfoldable pub msg_encode_account_ack : AccountAck → (cap : ℕ) → Result Bytes
msg_encode_account_ack m cap =
    unless_failed (enc_check cap msg_account_ack_len) (account_ack_bytes m)

abbrev pub read_account_ack : Reader AccountAck
read_account_ack = do
  account ← get_str msg_account_len
  code ← get_i32
  cash ← get_i64
  reserved ← get_i64
  pos_qty ← get_i64
  pos_cost ← get_i64
  realized ← get_i64
  pure (record {
    account = account;
    code = code;
    cash = cash;
    reserved = reserved;
    pos_qty = pos_qty;
    pos_cost = pos_cost;
    realized = realized;
  })

unfoldable pub msg_decode_account_ack : Bytes → Result AccountAck
msg_decode_account_ack buf =
    unless_failed (dec_check (length buf) msg_account_ack_len) (read_account_ack buf).0
