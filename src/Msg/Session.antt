-- ===== src/Msg/Session.antt =====
-- core/src/msg.c and core/include/msg.h: the bodies of the messages on fill notices and the session.
pub mod RoundTrip
use trading_sor_mock.Msg.Reader.{◌>>=◌}
use trading_sor_mock.Base.{ℕ, [], ◌∷◌, length}
use trading_sor_mock.Base.Int.{ℤ}
use trading_sor_mock.Types.{Result}
use trading_sor_mock.Wire.{Bytes, wire_put_u8, wire_put_u64, wire_put_i32, wire_put_str}
use trading_sor_mock.Msg.Lengths.{
  msg_symbol_len, msg_session_len, msg_fill_noti_len, msg_login_req_len, msg_login_ack_len,
  msg_resend_req_len, msg_gap_fill_len,
}
use trading_sor_mock.Msg.Reader.{
  written, Reader, pure, get_u8, get_u64, get_i32, get_str, enc_check, dec_check, unless_failed,
}

-- `msg_fill_noti_t`
pub record FillNoti : Type 0 where
  pub order_id : ℕ
  pub cl_ord_id : ℕ
  pub symbol : Bytes
  pub market : ℕ
  pub side : ℕ
  pub price : ℤ
  pub qty : ℤ
  pub remaining_qty : ℤ
  pub exec_id : ℕ

-- The bytes of a `msg_fill_noti_t`, field by field.
abbrev pub fill_noti_bytes : FillNoti → Bytes
fill_noti_bytes m = written (
    wire_put_u64 m.order_id
    ∷ wire_put_u64 m.cl_ord_id
    ∷ wire_put_str msg_symbol_len m.symbol
    ∷ wire_put_u8 m.market
    ∷ wire_put_u8 m.side
    ∷ wire_put_i32 m.price
    ∷ wire_put_i32 m.qty
    ∷ wire_put_i32 m.remaining_qty
    ∷ wire_put_u64 m.exec_id
    ∷ [])

unfoldable pub msg_encode_fill_noti : FillNoti → (cap : ℕ) → Result Bytes
msg_encode_fill_noti m cap = unless_failed (enc_check cap msg_fill_noti_len) (fill_noti_bytes m)

abbrev pub read_fill_noti : Reader FillNoti
read_fill_noti = do
  order_id ← get_u64
  cl_ord_id ← get_u64
  symbol ← get_str msg_symbol_len
  market ← get_u8
  side ← get_u8
  price ← get_i32
  qty ← get_i32
  remaining_qty ← get_i32
  exec_id ← get_u64
  pure (record {
    order_id = order_id;
    cl_ord_id = cl_ord_id;
    symbol = symbol;
    market = market;
    side = side;
    price = price;
    qty = qty;
    remaining_qty = remaining_qty;
    exec_id = exec_id;
  })

unfoldable pub msg_decode_fill_noti : Bytes → Result FillNoti
msg_decode_fill_noti buf =
    unless_failed (dec_check (length buf) msg_fill_noti_len) (read_fill_noti buf).0

-- `msg_login_req_t`
pub record LoginReq : Type 0 where
  pub session_id : Bytes

-- The bytes of a `msg_login_req_t`, field by field.
abbrev pub login_req_bytes : LoginReq → Bytes
login_req_bytes m = written (wire_put_str msg_session_len m.session_id ∷ [])

unfoldable pub msg_encode_login_req : LoginReq → (cap : ℕ) → Result Bytes
msg_encode_login_req m cap = unless_failed (enc_check cap msg_login_req_len) (login_req_bytes m)

abbrev pub read_login_req : Reader LoginReq
read_login_req = do session_id ← get_str msg_session_len; pure (record { session_id = session_id })

unfoldable pub msg_decode_login_req : Bytes → Result LoginReq
msg_decode_login_req buf =
    unless_failed (dec_check (length buf) msg_login_req_len) (read_login_req buf).0

-- `msg_login_ack_t`
pub record LoginAck : Type 0 where
  pub result : ℤ

-- The bytes of a `msg_login_ack_t`, field by field.
abbrev pub login_ack_bytes : LoginAck → Bytes
login_ack_bytes m = written (wire_put_i32 m.result ∷ [])

unfoldable pub msg_encode_login_ack : LoginAck → (cap : ℕ) → Result Bytes
msg_encode_login_ack m cap = unless_failed (enc_check cap msg_login_ack_len) (login_ack_bytes m)

abbrev pub read_login_ack : Reader LoginAck
read_login_ack = do result ← get_i32; pure (record { result = result })

unfoldable pub msg_decode_login_ack : Bytes → Result LoginAck
msg_decode_login_ack buf =
    unless_failed (dec_check (length buf) msg_login_ack_len) (read_login_ack buf).0

-- `msg_resend_req_t`
pub record ResendReq : Type 0 where
  pub from_seq : ℕ

-- The bytes of a `msg_resend_req_t`, field by field.
abbrev pub resend_req_bytes : ResendReq → Bytes
resend_req_bytes m = written (wire_put_u64 m.from_seq ∷ [])

unfoldable pub msg_encode_resend_req : ResendReq → (cap : ℕ) → Result Bytes
msg_encode_resend_req m cap = unless_failed (enc_check cap msg_resend_req_len) (resend_req_bytes m)

abbrev pub read_resend_req : Reader ResendReq
read_resend_req = do from_seq ← get_u64; pure (record { from_seq = from_seq })

unfoldable pub msg_decode_resend_req : Bytes → Result ResendReq
msg_decode_resend_req buf =
    unless_failed (dec_check (length buf) msg_resend_req_len) (read_resend_req buf).0

-- `msg_gap_fill_t`
pub record GapFill : Type 0 where
  pub next_seq : ℕ

-- The bytes of a `msg_gap_fill_t`, field by field.
abbrev pub gap_fill_bytes : GapFill → Bytes
gap_fill_bytes m = written (wire_put_u64 m.next_seq ∷ [])

unfoldable pub msg_encode_gap_fill : GapFill → (cap : ℕ) → Result Bytes
msg_encode_gap_fill m cap = unless_failed (enc_check cap msg_gap_fill_len) (gap_fill_bytes m)

abbrev pub read_gap_fill : Reader GapFill
read_gap_fill = do next_seq ← get_u64; pure (record { next_seq = next_seq })

unfoldable pub msg_decode_gap_fill : Bytes → Result GapFill
msg_decode_gap_fill buf =
    unless_failed (dec_check (length buf) msg_gap_fill_len) (read_gap_fill buf).0
