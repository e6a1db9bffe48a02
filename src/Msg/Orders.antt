-- ===== src/Msg/Orders.antt =====
-- core/src/msg.c and core/include/msg.h: the bodies of the messages on orders, cancels and modifications.
pub mod RoundTrip
use trading_sor_mock.Msg.Reader.{◌>>=◌}
use trading_sor_mock.Base.{ℕ, [], ◌∷◌, length}
use trading_sor_mock.Base.Int.{ℤ}
use trading_sor_mock.Types.{Result}
use trading_sor_mock.Wire.{Bytes, wire_put_u8, wire_put_u64, wire_put_i32, wire_put_str}
use trading_sor_mock.Msg.Lengths.{
  msg_account_len, msg_symbol_len, msg_order_req_len, msg_order_ack_len, msg_cancel_req_len,
  msg_cancel_ack_len, msg_modify_req_len, msg_modify_ack_len,
}
use trading_sor_mock.Msg.Reader.{
  written, Reader, pure, get_u8, get_u64, get_i32, get_str, enc_check, dec_check, unless_failed,
}

-- `msg_order_req_t`
pub record OrderReq : Type 0 where
  pub account : Bytes
  pub symbol : Bytes
  pub cl_ord_id : ℕ
  pub side : ℕ
  pub type : ℕ
  pub market : ℕ
  pub price : ℤ
  pub qty : ℤ

-- The bytes of a `msg_order_req_t`, field by field.
abbrev pub order_req_bytes : OrderReq → Bytes
order_req_bytes m = written (
    wire_put_str msg_account_len m.account
    ∷ wire_put_str msg_symbol_len m.symbol
    ∷ wire_put_u64 m.cl_ord_id
    ∷ wire_put_u8 m.side
    ∷ wire_put_u8 m.type
    ∷ wire_put_u8 m.market
    ∷ wire_put_i32 m.price
    ∷ wire_put_i32 m.qty
    ∷ [])

unfoldable pub msg_encode_order_req : OrderReq → (cap : ℕ) → Result Bytes
msg_encode_order_req m cap = unless_failed (enc_check cap msg_order_req_len) (order_req_bytes m)

abbrev pub read_order_req : Reader OrderReq
read_order_req = do
  account ← get_str msg_account_len
  symbol ← get_str msg_symbol_len
  cl_ord_id ← get_u64
  side ← get_u8
  type ← get_u8
  market ← get_u8
  price ← get_i32
  qty ← get_i32
  pure (record {
    account = account;
    symbol = symbol;
    cl_ord_id = cl_ord_id;
    side = side;
    type = type;
    market = market;
    price = price;
    qty = qty;
  })

unfoldable pub msg_decode_order_req : Bytes → Result OrderReq
msg_decode_order_req buf =
    unless_failed (dec_check (length buf) msg_order_req_len) (read_order_req buf).0

-- `msg_order_ack_t`
pub record OrderAck : Type 0 where
  pub cl_ord_id : ℕ
  pub order_id : ℕ
  pub status : ℕ
  pub reason : ℤ
  pub filled_qty : ℤ
  pub price : ℤ

-- The bytes of a `msg_order_ack_t`, field by field.
abbrev pub order_ack_bytes : OrderAck → Bytes
order_ack_bytes m = written (
    wire_put_u64 m.cl_ord_id
    ∷ wire_put_u64 m.order_id
    ∷ wire_put_u8 m.status
    ∷ wire_put_i32 m.reason
    ∷ wire_put_i32 m.filled_qty
    ∷ wire_put_i32 m.price
    ∷ [])

unfoldable pub msg_encode_order_ack : OrderAck → (cap : ℕ) → Result Bytes
msg_encode_order_ack m cap = unless_failed (enc_check cap msg_order_ack_len) (order_ack_bytes m)

abbrev pub read_order_ack : Reader OrderAck
read_order_ack = do
  cl_ord_id ← get_u64
  order_id ← get_u64
  status ← get_u8
  reason ← get_i32
  filled_qty ← get_i32
  price ← get_i32
  pure (record {
    cl_ord_id = cl_ord_id;
    order_id = order_id;
    status = status;
    reason = reason;
    filled_qty = filled_qty;
    price = price;
  })

unfoldable pub msg_decode_order_ack : Bytes → Result OrderAck
msg_decode_order_ack buf =
    unless_failed (dec_check (length buf) msg_order_ack_len) (read_order_ack buf).0

-- `msg_cancel_req_t`
pub record CancelReq : Type 0 where
  pub account : Bytes
  pub order_id : ℕ
  pub cl_ord_id : ℕ

-- The bytes of a `msg_cancel_req_t`, field by field.
abbrev pub cancel_req_bytes : CancelReq → Bytes
cancel_req_bytes m = written (
    wire_put_str msg_account_len m.account
    ∷ wire_put_u64 m.order_id
    ∷ wire_put_u64 m.cl_ord_id
    ∷ [])

unfoldable pub msg_encode_cancel_req : CancelReq → (cap : ℕ) → Result Bytes
msg_encode_cancel_req m cap = unless_failed (enc_check cap msg_cancel_req_len) (cancel_req_bytes m)

abbrev pub read_cancel_req : Reader CancelReq
read_cancel_req = do
  account ← get_str msg_account_len
  order_id ← get_u64
  cl_ord_id ← get_u64
  pure (record { account = account; order_id = order_id; cl_ord_id = cl_ord_id })

unfoldable pub msg_decode_cancel_req : Bytes → Result CancelReq
msg_decode_cancel_req buf =
    unless_failed (dec_check (length buf) msg_cancel_req_len) (read_cancel_req buf).0

-- `msg_cancel_ack_t`
pub record CancelAck : Type 0 where
  pub order_id : ℕ
  pub cl_ord_id : ℕ
  pub status : ℕ
  pub reason : ℤ
  pub canceled_qty : ℤ

-- The bytes of a `msg_cancel_ack_t`, field by field.
abbrev pub cancel_ack_bytes : CancelAck → Bytes
cancel_ack_bytes m = written (
    wire_put_u64 m.order_id
    ∷ wire_put_u64 m.cl_ord_id
    ∷ wire_put_u8 m.status
    ∷ wire_put_i32 m.reason
    ∷ wire_put_i32 m.canceled_qty
    ∷ [])

unfoldable pub msg_encode_cancel_ack : CancelAck → (cap : ℕ) → Result Bytes
msg_encode_cancel_ack m cap = unless_failed (enc_check cap msg_cancel_ack_len) (cancel_ack_bytes m)

abbrev pub read_cancel_ack : Reader CancelAck
read_cancel_ack = do
  order_id ← get_u64
  cl_ord_id ← get_u64
  status ← get_u8
  reason ← get_i32
  canceled_qty ← get_i32
  pure (record {
    order_id = order_id;
    cl_ord_id = cl_ord_id;
    status = status;
    reason = reason;
    canceled_qty = canceled_qty;
  })

unfoldable pub msg_decode_cancel_ack : Bytes → Result CancelAck
msg_decode_cancel_ack buf =
    unless_failed (dec_check (length buf) msg_cancel_ack_len) (read_cancel_ack buf).0

-- `msg_modify_req_t`
pub record ModifyReq : Type 0 where
  pub account : Bytes
  pub order_id : ℕ
  pub cl_ord_id : ℕ
  pub new_price : ℤ
  pub new_qty : ℤ

-- The bytes of a `msg_modify_req_t`, field by field.
abbrev pub modify_req_bytes : ModifyReq → Bytes
modify_req_bytes m = written (
    wire_put_str msg_account_len m.account
    ∷ wire_put_u64 m.order_id
    ∷ wire_put_u64 m.cl_ord_id
    ∷ wire_put_i32 m.new_price
    ∷ wire_put_i32 m.new_qty
    ∷ [])

unfoldable pub msg_encode_modify_req : ModifyReq → (cap : ℕ) → Result Bytes
msg_encode_modify_req m cap = unless_failed (enc_check cap msg_modify_req_len) (modify_req_bytes m)

abbrev pub read_modify_req : Reader ModifyReq
read_modify_req = do
  account ← get_str msg_account_len
  order_id ← get_u64
  cl_ord_id ← get_u64
  new_price ← get_i32
  new_qty ← get_i32
  pure (record {
    account = account;
    order_id = order_id;
    cl_ord_id = cl_ord_id;
    new_price = new_price;
    new_qty = new_qty;
  })

unfoldable pub msg_decode_modify_req : Bytes → Result ModifyReq
msg_decode_modify_req buf =
    unless_failed (dec_check (length buf) msg_modify_req_len) (read_modify_req buf).0

-- `msg_modify_ack_t`
pub record ModifyAck : Type 0 where
  pub order_id : ℕ
  pub cl_ord_id : ℕ
  pub status : ℕ
  pub reason : ℤ
  pub price : ℤ

-- The bytes of a `msg_modify_ack_t`, field by field.
abbrev pub modify_ack_bytes : ModifyAck → Bytes
modify_ack_bytes m = written (
    wire_put_u64 m.order_id
    ∷ wire_put_u64 m.cl_ord_id
    ∷ wire_put_u8 m.status
    ∷ wire_put_i32 m.reason
    ∷ wire_put_i32 m.price
    ∷ [])

unfoldable pub msg_encode_modify_ack : ModifyAck → (cap : ℕ) → Result Bytes
msg_encode_modify_ack m cap = unless_failed (enc_check cap msg_modify_ack_len) (modify_ack_bytes m)

abbrev pub read_modify_ack : Reader ModifyAck
read_modify_ack = do
  order_id ← get_u64
  cl_ord_id ← get_u64
  status ← get_u8
  reason ← get_i32
  price ← get_i32
  pure (record {
    order_id = order_id;
    cl_ord_id = cl_ord_id;
    status = status;
    reason = reason;
    price = price;
  })

unfoldable pub msg_decode_modify_ack : Bytes → Result ModifyAck
msg_decode_modify_ack buf =
    unless_failed (dec_check (length buf) msg_modify_ack_len) (read_modify_ack buf).0
