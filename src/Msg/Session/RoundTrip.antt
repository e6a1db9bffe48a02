-- ===== src/Msg/Session/RoundTrip.antt =====
-- The bodies on fill notices and the session are read back (core/src/msg.c).
use trading_sor_mock.Base.{ℕ, ◌^◌, ◌≤◌, ◌<◌, refl}
use trading_sor_mock.Wire.Integers.{IsInt32}
use trading_sor_mock.Msg.Lengths.{
  msg_symbol_len, msg_session_len, msg_fill_noti_len, msg_login_req_len, msg_login_ack_len,
  msg_resend_req_len, msg_gap_fill_len,
}
use trading_sor_mock.Msg.Codec.{
  no_field-Sized, field-Sized, get_u8-Codes, get_u64-Codes, get_i32-Codes, StrFits, get_str-Codes,
  Recovers, codec-Recovers,
}
use trading_sor_mock.Msg.Session.{
  FillNoti, fill_noti_bytes, msg_encode_fill_noti, read_fill_noti, msg_decode_fill_noti, LoginReq,
  login_req_bytes, msg_encode_login_req, read_login_req, msg_decode_login_req, LoginAck,
  login_ack_bytes, msg_encode_login_ack, read_login_ack, msg_decode_login_ack, ResendReq,
  resend_req_bytes, msg_encode_resend_req, read_resend_req, msg_decode_resend_req, GapFill,
  gap_fill_bytes, msg_encode_gap_fill, read_gap_fill, msg_decode_gap_fill,
}
use trading_sor_mock.Msg.Reader.{◌>>=◌}

-- What fits the fields of a `msg_fill_noti_t`.
pub record FillNotiFits (m : FillNoti) : Type 0 where
  pub order_id_ok : m.order_id < 2 ^ 64
  pub cl_ord_id_ok : m.cl_ord_id < 2 ^ 64
  pub symbol_ok : StrFits msg_symbol_len m.symbol
  pub market_ok : m.market < 2 ^ 8
  pub side_ok : m.side < 2 ^ 8
  pub price_ok : IsInt32 m.price
  pub qty_ok : IsInt32 m.qty
  pub remaining_qty_ok : IsInt32 m.remaining_qty
  pub exec_id_ok : m.exec_id < 2 ^ 64

pub msg_decode-msg_encode_fill_noti :
    (m : FillNoti) (cap : ℕ)
    → FillNotiFits m
    → msg_fill_noti_len ≤ cap
    → Recovers msg_fill_noti_len (msg_encode_fill_noti m cap) msg_decode_fill_noti m
unfolding msg_encode_fill_noti msg_decode_fill_noti ◌>>=◌
msg_decode-msg_encode_fill_noti m cap fits room =
    codec-Recovers (fill_noti_bytes m) read_fill_noti msg_fill_noti_len cap room
      (field-Sized (get_u64-Codes m.order_id fits.order_id_ok) (
        field-Sized (get_u64-Codes m.cl_ord_id fits.cl_ord_id_ok) (
          field-Sized (get_str-Codes msg_symbol_len m.symbol fits.symbol_ok) (
            field-Sized (get_u8-Codes m.market fits.market_ok) (
              field-Sized (get_u8-Codes m.side fits.side_ok) (
                field-Sized (get_i32-Codes m.price fits.price_ok) (
                  field-Sized (get_i32-Codes m.qty fits.qty_ok) (
                    field-Sized (get_i32-Codes m.remaining_qty fits.remaining_qty_ok) (
                      field-Sized (get_u64-Codes m.exec_id fits.exec_id_ok)
                        (no_field-Sized))))))))))
      (rw
        (
          (get_u64-Codes m.order_id fits.order_id_ok).reads,
          (get_u64-Codes m.cl_ord_id fits.cl_ord_id_ok).reads,
          (get_str-Codes msg_symbol_len m.symbol fits.symbol_ok).reads,
          (get_u8-Codes m.market fits.market_ok).reads,
          (get_u8-Codes m.side fits.side_ok).reads,
          (get_i32-Codes m.price fits.price_ok).reads,
          (get_i32-Codes m.qty fits.qty_ok).reads,
          (get_i32-Codes m.remaining_qty fits.remaining_qty_ok).reads,
          (get_u64-Codes m.exec_id fits.exec_id_ok).reads,
        )
        refl)

-- What fits the fields of a `msg_login_req_t`.
pub record LoginReqFits (m : LoginReq) : Type 0 where
  pub session_id_ok : StrFits msg_session_len m.session_id

pub msg_decode-msg_encode_login_req :
    (m : LoginReq) (cap : ℕ)
    → LoginReqFits m
    → msg_login_req_len ≤ cap
    → Recovers msg_login_req_len (msg_encode_login_req m cap) msg_decode_login_req m
unfolding msg_encode_login_req msg_decode_login_req ◌>>=◌
msg_decode-msg_encode_login_req m cap fits room =
    codec-Recovers (login_req_bytes m) read_login_req msg_login_req_len cap room
      (field-Sized (get_str-Codes msg_session_len m.session_id fits.session_id_ok) (no_field-Sized))
      (rw ((get_str-Codes msg_session_len m.session_id fits.session_id_ok).reads) refl)

-- What fits the fields of a `msg_login_ack_t`.
pub record LoginAckFits (m : LoginAck) : Type 0 where
  pub result_ok : IsInt32 m.result

pub msg_decode-msg_encode_login_ack :
    (m : LoginAck) (cap : ℕ)
    → LoginAckFits m
    → msg_login_ack_len ≤ cap
    → Recovers msg_login_ack_len (msg_encode_login_ack m cap) msg_decode_login_ack m
unfolding msg_encode_login_ack msg_decode_login_ack ◌>>=◌
msg_decode-msg_encode_login_ack m cap fits room =
    codec-Recovers (login_ack_bytes m) read_login_ack msg_login_ack_len cap room
      (field-Sized (get_i32-Codes m.result fits.result_ok) (no_field-Sized))
      (rw ((get_i32-Codes m.result fits.result_ok).reads) refl)

-- What fits the fields of a `msg_resend_req_t`.
pub record ResendReqFits (m : ResendReq) : Type 0 where
  pub from_seq_ok : m.from_seq < 2 ^ 64

pub msg_decode-msg_encode_resend_req :
    (m : ResendReq) (cap : ℕ)
    → ResendReqFits m
    → msg_resend_req_len ≤ cap
    → Recovers msg_resend_req_len (msg_encode_resend_req m cap) msg_decode_resend_req m
unfolding msg_encode_resend_req msg_decode_resend_req ◌>>=◌
msg_decode-msg_encode_resend_req m cap fits room =
    codec-Recovers (resend_req_bytes m) read_resend_req msg_resend_req_len cap room
      (field-Sized (get_u64-Codes m.from_seq fits.from_seq_ok) (no_field-Sized))
      (rw ((get_u64-Codes m.from_seq fits.from_seq_ok).reads) refl)

-- What fits the fields of a `msg_gap_fill_t`.
pub record GapFillFits (m : GapFill) : Type 0 where
  pub next_seq_ok : m.next_seq < 2 ^ 64

pub msg_decode-msg_encode_gap_fill :
    (m : GapFill) (cap : ℕ)
    → GapFillFits m
    → msg_gap_fill_len ≤ cap
    → Recovers msg_gap_fill_len (msg_encode_gap_fill m cap) msg_decode_gap_fill m
unfolding msg_encode_gap_fill msg_decode_gap_fill ◌>>=◌
msg_decode-msg_encode_gap_fill m cap fits room =
    codec-Recovers (gap_fill_bytes m) read_gap_fill msg_gap_fill_len cap room
      (field-Sized (get_u64-Codes m.next_seq fits.next_seq_ok) (no_field-Sized))
      (rw ((get_u64-Codes m.next_seq fits.next_seq_ok).reads) refl)
