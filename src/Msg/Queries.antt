-- ===== src/Msg/Queries.antt =====
-- core/src/msg.c and core/include/msg.h: the bodies of the messages on queries, details and balances.
pub mod RoundTrip
use trading_sor_mock.Msg.Reader.{◌>>=◌}
use trading_sor_mock.Base.{ℕ, Bool, List, [], ◌∷◌, length}
use trading_sor_mock.Base.Int.{ℤ}
use trading_sor_mock.Types.{Result}
use trading_sor_mock.Wire.{
  Bytes, wire_put_u8, wire_put_u64, wire_put_i32, wire_put_i64, wire_put_str,
}
use trading_sor_mock.Msg.Lengths.{
  msg_account_len, msg_symbol_len, msg_query_req_len, msg_query_ack_len, msg_leg_slots,
  msg_detail_req_len, msg_detail_ack_len, msg_balance_req_len, msg_balance_ack_len,
}
use trading_sor_mock.Msg.Reader.{
  written, Reader, pure, get_u8, get_u64, get_i32, get_i64, get_str, put_bool, get_bool, put_i32s,
  get_i32s, put_i64s, get_i64s, enc_check, dec_check, unless_failed,
}

-- `msg_query_req_t`
pub record QueryReq : Type 0 where
  pub account : Bytes
  pub order_id : ℕ

-- The bytes of a `msg_query_req_t`, field by field.
abbrev pub query_req_bytes : QueryReq → Bytes
query_req_bytes m = written (wire_put_str msg_account_len m.account ∷ wire_put_u64 m.order_id ∷ [])

unfoldable pub msg_encode_query_req : QueryReq → (cap : ℕ) → Result Bytes
msg_encode_query_req m cap = unless_failed (enc_check cap msg_query_req_len) (query_req_bytes m)

abbrev pub read_query_req : Reader QueryReq
read_query_req = do
  account ← get_str msg_account_len
  order_id ← get_u64
  pure (record { account = account; order_id = order_id })

unfoldable pub msg_decode_query_req : Bytes → Result QueryReq
msg_decode_query_req buf =
    unless_failed (dec_check (length buf) msg_query_req_len) (read_query_req buf).0

-- `msg_query_ack_t`
pub record QueryAck : Type 0 where
  pub order_id : ℕ
  pub cl_ord_id : ℕ
  pub symbol : Bytes
  pub status : ℕ
  pub price : ℤ
  pub qty : ℤ
  pub filled_qty : ℤ
  pub last : Bool

-- The bytes of a `msg_query_ack_t`, field by field.
abbrev pub query_ack_bytes : QueryAck → Bytes
query_ack_bytes m = written (
    wire_put_u64 m.order_id
    ∷ wire_put_u64 m.cl_ord_id
    ∷ wire_put_str msg_symbol_len m.symbol
    ∷ wire_put_u8 m.status
    ∷ wire_put_i32 m.price
    ∷ wire_put_i32 m.qty
    ∷ wire_put_i32 m.filled_qty
    ∷ put_bool m.last
    ∷ [])

unfoldable pub msg_encode_query_ack : QueryAck → (cap : ℕ) → Result Bytes
msg_encode_query_ack m cap = unless_failed (enc_check cap msg_query_ack_len) (query_ack_bytes m)

abbrev pub read_query_ack : Reader QueryAck
read_query_ack = do
  order_id ← get_u64
  cl_ord_id ← get_u64
  symbol ← get_str msg_symbol_len
  status ← get_u8
  price ← get_i32
  qty ← get_i32
  filled_qty ← get_i32
  last ← get_bool
  pure (record {
    order_id = order_id;
    cl_ord_id = cl_ord_id;
    symbol = symbol;
    status = status;
    price = price;
    qty = qty;
    filled_qty = filled_qty;
    last = last;
  })

unfoldable pub msg_decode_query_ack : Bytes → Result QueryAck
msg_decode_query_ack buf =
    unless_failed (dec_check (length buf) msg_query_ack_len) (read_query_ack buf).0

-- `msg_detail_req_t`
pub record DetailReq : Type 0 where
  pub account : Bytes
  pub order_id : ℕ

-- The bytes of a `msg_detail_req_t`, field by field.
abbrev pub detail_req_bytes : DetailReq → Bytes
detail_req_bytes m = written (wire_put_str msg_account_len m.account ∷ wire_put_u64 m.order_id ∷ [])

unfoldable pub msg_encode_detail_req : DetailReq → (cap : ℕ) → Result Bytes
msg_encode_detail_req m cap = unless_failed (enc_check cap msg_detail_req_len) (detail_req_bytes m)

abbrev pub read_detail_req : Reader DetailReq
read_detail_req = do
  account ← get_str msg_account_len
  order_id ← get_u64
  pure (record { account = account; order_id = order_id })

unfoldable pub msg_decode_detail_req : Bytes → Result DetailReq
msg_decode_detail_req buf =
    unless_failed (dec_check (length buf) msg_detail_req_len) (read_detail_req buf).0

-- `msg_detail_ack_t`
pub record DetailAck : Type 0 where
  pub order_id : ℕ
  pub cl_ord_id : ℕ
  pub reason : ℤ
  pub side : ℕ
  pub status : ℕ
  pub market : ℕ
  pub price : ℤ
  pub qty : ℤ
  pub filled : ℤ
  pub canceled : ℤ
  pub working : ℤ
  pub notional : ℤ
  pub leg_sent : List ℤ
  pub leg_filled : List ℤ
  pub leg_canceled : List ℤ
  pub leg_notional : List ℤ

-- The bytes of a `msg_detail_ack_t`, field by field.
abbrev pub detail_ack_bytes : DetailAck → Bytes
detail_ack_bytes m = written (
    wire_put_u64 m.order_id
    ∷ wire_put_u64 m.cl_ord_id
    ∷ wire_put_i32 m.reason
    ∷ wire_put_u8 m.side
    ∷ wire_put_u8 m.status
    ∷ wire_put_u8 m.market
    ∷ wire_put_i32 m.price
    ∷ wire_put_i32 m.qty
    ∷ wire_put_i32 m.filled
    ∷ wire_put_i32 m.canceled
    ∷ wire_put_i32 m.working
    ∷ wire_put_i64 m.notional
    ∷ put_i32s m.leg_sent
    ∷ put_i32s m.leg_filled
    ∷ put_i32s m.leg_canceled
    ∷ put_i64s m.leg_notional
    ∷ [])

unfoldable pub msg_encode_detail_ack : DetailAck → (cap : ℕ) → Result Bytes
msg_encode_detail_ack m cap = unless_failed (enc_check cap msg_detail_ack_len) (detail_ack_bytes m)

abbrev pub read_detail_ack : Reader DetailAck
read_detail_ack = do
  order_id ← get_u64
  cl_ord_id ← get_u64
  reason ← get_i32
  side ← get_u8
  status ← get_u8
  market ← get_u8
  price ← get_i32
  qty ← get_i32
  filled ← get_i32
  canceled ← get_i32
  working ← get_i32
  notional ← get_i64
  leg_sent ← get_i32s msg_leg_slots
  leg_filled ← get_i32s msg_leg_slots
  leg_canceled ← get_i32s msg_leg_slots
  leg_notional ← get_i64s msg_leg_slots
  pure (record {
    order_id = order_id;
    cl_ord_id = cl_ord_id;
    reason = reason;
    side = side;
    status = status;
    market = market;
    price = price;
    qty = qty;
    filled = filled;
    canceled = canceled;
    working = working;
    notional = notional;
    leg_sent = leg_sent;
    leg_filled = leg_filled;
    leg_canceled = leg_canceled;
    leg_notional = leg_notional;
  })

unfoldable pub msg_decode_detail_ack : Bytes → Result DetailAck
msg_decode_detail_ack buf =
    unless_failed (dec_check (length buf) msg_detail_ack_len) (read_detail_ack buf).0

-- `msg_balance_req_t`
pub record BalanceReq : Type 0 where
  pub account : Bytes

-- The bytes of a `msg_balance_req_t`, field by field.
abbrev pub balance_req_bytes : BalanceReq → Bytes
balance_req_bytes m = written (wire_put_str msg_account_len m.account ∷ [])

unfoldable pub msg_encode_balance_req : BalanceReq → (cap : ℕ) → Result Bytes
msg_encode_balance_req m cap =
    unless_failed (enc_check cap msg_balance_req_len) (balance_req_bytes m)

abbrev pub read_balance_req : Reader BalanceReq
read_balance_req = do account ← get_str msg_account_len; pure (record { account = account })

unfoldable pub msg_decode_balance_req : Bytes → Result BalanceReq
msg_decode_balance_req buf =
    unless_failed (dec_check (length buf) msg_balance_req_len) (read_balance_req buf).0

-- `msg_balance_ack_t`
pub record BalanceAck : Type 0 where
  pub account : Bytes
  pub reason : ℤ
  pub cash : ℤ
  pub reserved : ℤ

-- The bytes of a `msg_balance_ack_t`, field by field.
abbrev pub balance_ack_bytes : BalanceAck → Bytes
balance_ack_bytes m = written (
    wire_put_str msg_account_len m.account
    ∷ wire_put_i32 m.reason
    ∷ wire_put_i64 m.cash
    ∷ wire_put_i64 m.reserved
    ∷ [])

unfoldable pub msg_encode_balance_ack : BalanceAck → (cap : ℕ) → Result Bytes
msg_encode_balance_ack m cap =
    unless_failed (enc_check cap msg_balance_ack_len) (balance_ack_bytes m)

abbrev pub read_balance_ack : Reader BalanceAck
read_balance_ack = do
  account ← get_str msg_account_len
  reason ← get_i32
  cash ← get_i64
  reserved ← get_i64
  pure (record { account = account; reason = reason; cash = cash; reserved = reserved })

unfoldable pub msg_decode_balance_ack : Bytes → Result BalanceAck
msg_decode_balance_ack buf =
    unless_failed (dec_check (length buf) msg_balance_ack_len) (read_balance_ack buf).0
