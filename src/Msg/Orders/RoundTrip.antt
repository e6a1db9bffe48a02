-- ===== src/Msg/Orders/RoundTrip.antt =====
-- The bodies on orders, cancels and modifications are read back (core/src/msg.c).
use trading_sor_mock.Base.{ℕ, ◌^◌, ◌≤◌, ◌<◌, refl}
use trading_sor_mock.Wire.Integers.{IsInt32}
use trading_sor_mock.Msg.Lengths.{
  msg_account_len, msg_symbol_len, msg_order_req_len, msg_order_ack_len, msg_cancel_req_len,
  msg_cancel_ack_len, msg_modify_req_len, msg_modify_ack_len,
}
use trading_sor_mock.Msg.Codec.{
  no_field-Sized, field-Sized, get_u8-Codes, get_u64-Codes, get_i32-Codes, StrFits, get_str-Codes,
  Recovers, codec-Recovers,
}
use trading_sor_mock.Msg.Orders.{
  OrderReq, order_req_bytes, msg_encode_order_req, read_order_req, msg_decode_order_req, OrderAck,
  order_ack_bytes, msg_encode_order_ack, read_order_ack, msg_decode_order_ack, CancelReq,
  cancel_req_bytes, msg_encode_cancel_req, read_cancel_req, msg_decode_cancel_req, CancelAck,
  cancel_ack_bytes, msg_encode_cancel_ack, read_cancel_ack, msg_decode_cancel_ack, ModifyReq,
  modify_req_bytes, msg_encode_modify_req, read_modify_req, msg_decode_modify_req, ModifyAck,
  modify_ack_bytes, msg_encode_modify_ack, read_modify_ack, msg_decode_modify_ack,
}
use trading_sor_mock.Msg.Reader.{◌>>=◌}

-- What fits the fields of a `msg_order_req_t`.
pub record OrderReqFits (m : OrderReq) : Type 0 where
  pub account_ok : StrFits msg_account_len m.account
  pub symbol_ok : StrFits msg_symbol_len m.symbol
  pub cl_ord_id_ok : m.cl_ord_id < 2 ^ 64
  pub side_ok : m.side < 2 ^ 8
  pub type_ok : m.type < 2 ^ 8
  pub market_ok : m.market < 2 ^ 8
  pub price_ok : IsInt32 m.price
  pub qty_ok : IsInt32 m.qty

pub msg_decode-msg_encode_order_req :
    (m : OrderReq) (cap : ℕ)
    → OrderReqFits m
    → msg_order_req_len ≤ cap
    → Recovers msg_order_req_len (msg_encode_order_req m cap) msg_decode_order_req m
unfolding msg_encode_order_req msg_decode_order_req ◌>>=◌
msg_decode-msg_encode_order_req m cap fits room =
    codec-Recovers (order_req_bytes m) read_order_req msg_order_req_len cap room
      (field-Sized (get_str-Codes msg_account_len m.account fits.account_ok) (
        field-Sized (get_str-Codes msg_symbol_len m.symbol fits.symbol_ok) (
          field-Sized (get_u64-Codes m.cl_ord_id fits.cl_ord_id_ok) (
            field-Sized (get_u8-Codes m.side fits.side_ok) (
              field-Sized (get_u8-Codes m.type fits.type_ok) (
                field-Sized (get_u8-Codes m.market fits.market_ok) (
                  field-Sized (get_i32-Codes m.price fits.price_ok)
                    (field-Sized (get_i32-Codes m.qty fits.qty_ok) (no_field-Sized)))))))))
      (rw
        (
          (get_str-Codes msg_account_len m.account fits.account_ok).reads,
          (get_str-Codes msg_symbol_len m.symbol fits.symbol_ok).reads,
          (get_u64-Codes m.cl_ord_id fits.cl_ord_id_ok).reads,
          (get_u8-Codes m.side fits.side_ok).reads,
          (get_u8-Codes m.type fits.type_ok).reads,
          (get_u8-Codes m.market fits.market_ok).reads,
          (get_i32-Codes m.price fits.price_ok).reads,
          (get_i32-Codes m.qty fits.qty_ok).reads,
        )
        refl)

-- What fits the fields of a `msg_order_ack_t`.
pub record OrderAckFits (m : OrderAck) : Type 0 where
  pub cl_ord_id_ok : m.cl_ord_id < 2 ^ 64
  pub order_id_ok : m.order_id < 2 ^ 64
  pub status_ok : m.status < 2 ^ 8
  pub reason_ok : IsInt32 m.reason
  pub filled_qty_ok : IsInt32 m.filled_qty
  pub price_ok : IsInt32 m.price

pub msg_decode-msg_encode_order_ack :
    (m : OrderAck) (cap : ℕ)
    → OrderAckFits m
    → msg_order_ack_len ≤ cap
    → Recovers msg_order_ack_len (msg_encode_order_ack m cap) msg_decode_order_ack m
unfolding msg_encode_order_ack msg_decode_order_ack ◌>>=◌
msg_decode-msg_encode_order_ack m cap fits room =
    codec-Recovers (order_ack_bytes m) read_order_ack msg_order_ack_len cap room
      (field-Sized (get_u64-Codes m.cl_ord_id fits.cl_ord_id_ok) (
        field-Sized (get_u64-Codes m.order_id fits.order_id_ok) (
          field-Sized (get_u8-Codes m.status fits.status_ok) (
            field-Sized (get_i32-Codes m.reason fits.reason_ok) (
              field-Sized (get_i32-Codes m.filled_qty fits.filled_qty_ok)
                (field-Sized (get_i32-Codes m.price fits.price_ok) (no_field-Sized)))))))
      (rw
        (
          (get_u64-Codes m.cl_ord_id fits.cl_ord_id_ok).reads,
          (get_u64-Codes m.order_id fits.order_id_ok).reads,
          (get_u8-Codes m.status fits.status_ok).reads,
          (get_i32-Codes m.reason fits.reason_ok).reads,
          (get_i32-Codes m.filled_qty fits.filled_qty_ok).reads,
          (get_i32-Codes m.price fits.price_ok).reads,
        )
        refl)

-- What fits the fields of a `msg_cancel_req_t`.
pub record CancelReqFits (m : CancelReq) : Type 0 where
  pub account_ok : StrFits msg_account_len m.account
  pub order_id_ok : m.order_id < 2 ^ 64
  pub cl_ord_id_ok : m.cl_ord_id < 2 ^ 64

pub msg_decode-msg_encode_cancel_req :
    (m : CancelReq) (cap : ℕ)
    → CancelReqFits m
    → msg_cancel_req_len ≤ cap
    → Recovers msg_cancel_req_len (msg_encode_cancel_req m cap) msg_decode_cancel_req m
unfolding msg_encode_cancel_req msg_decode_cancel_req ◌>>=◌
msg_decode-msg_encode_cancel_req m cap fits room =
    codec-Recovers (cancel_req_bytes m) read_cancel_req msg_cancel_req_len cap room
      (field-Sized (get_str-Codes msg_account_len m.account fits.account_ok) (
        field-Sized (get_u64-Codes m.order_id fits.order_id_ok)
          (field-Sized (get_u64-Codes m.cl_ord_id fits.cl_ord_id_ok) (no_field-Sized))))
      (rw
        (
          (get_str-Codes msg_account_len m.account fits.account_ok).reads,
          (get_u64-Codes m.order_id fits.order_id_ok).reads,
          (get_u64-Codes m.cl_ord_id fits.cl_ord_id_ok).reads,
        )
        refl)

-- What fits the fields of a `msg_cancel_ack_t`.
pub record CancelAckFits (m : CancelAck) : Type 0 where
  pub order_id_ok : m.order_id < 2 ^ 64
  pub cl_ord_id_ok : m.cl_ord_id < 2 ^ 64
  pub status_ok : m.status < 2 ^ 8
  pub reason_ok : IsInt32 m.reason
  pub canceled_qty_ok : IsInt32 m.canceled_qty

pub msg_decode-msg_encode_cancel_ack :
    (m : CancelAck) (cap : ℕ)
    → CancelAckFits m
    → msg_cancel_ack_len ≤ cap
    → Recovers msg_cancel_ack_len (msg_encode_cancel_ack m cap) msg_decode_cancel_ack m
unfolding msg_encode_cancel_ack msg_decode_cancel_ack ◌>>=◌
msg_decode-msg_encode_cancel_ack m cap fits room =
    codec-Recovers (cancel_ack_bytes m) read_cancel_ack msg_cancel_ack_len cap room
      (field-Sized (get_u64-Codes m.order_id fits.order_id_ok) (
        field-Sized (get_u64-Codes m.cl_ord_id fits.cl_ord_id_ok) (
          field-Sized (get_u8-Codes m.status fits.status_ok) (
            field-Sized (get_i32-Codes m.reason fits.reason_ok)
              (field-Sized (get_i32-Codes m.canceled_qty fits.canceled_qty_ok) (no_field-Sized))))))
      (rw
        (
          (get_u64-Codes m.order_id fits.order_id_ok).reads,
          (get_u64-Codes m.cl_ord_id fits.cl_ord_id_ok).reads,
          (get_u8-Codes m.status fits.status_ok).reads,
          (get_i32-Codes m.reason fits.reason_ok).reads,
          (get_i32-Codes m.canceled_qty fits.canceled_qty_ok).reads,
        )
        refl)

-- What fits the fields of a `msg_modify_req_t`.
pub record ModifyReqFits (m : ModifyReq) : Type 0 where
  pub account_ok : StrFits msg_account_len m.account
  pub order_id_ok : m.order_id < 2 ^ 64
  pub cl_ord_id_ok : m.cl_ord_id < 2 ^ 64
  pub new_price_ok : IsInt32 m.new_price
  pub new_qty_ok : IsInt32 m.new_qty

pub msg_decode-msg_encode_modify_req :
    (m : ModifyReq) (cap : ℕ)
    → ModifyReqFits m
    → msg_modify_req_len ≤ cap
    → Recovers msg_modify_req_len (msg_encode_modify_req m cap) msg_decode_modify_req m
unfolding msg_encode_modify_req msg_decode_modify_req ◌>>=◌
msg_decode-msg_encode_modify_req m cap fits room =
    codec-Recovers (modify_req_bytes m) read_modify_req msg_modify_req_len cap room
      (field-Sized (get_str-Codes msg_account_len m.account fits.account_ok) (
        field-Sized (get_u64-Codes m.order_id fits.order_id_ok) (
          field-Sized (get_u64-Codes m.cl_ord_id fits.cl_ord_id_ok) (
            field-Sized (get_i32-Codes m.new_price fits.new_price_ok)
              (field-Sized (get_i32-Codes m.new_qty fits.new_qty_ok) (no_field-Sized))))))
      (rw
        (
          (get_str-Codes msg_account_len m.account fits.account_ok).reads,
          (get_u64-Codes m.order_id fits.order_id_ok).reads,
          (get_u64-Codes m.cl_ord_id fits.cl_ord_id_ok).reads,
          (get_i32-Codes m.new_price fits.new_price_ok).reads,
          (get_i32-Codes m.new_qty fits.new_qty_ok).reads,
        )
        refl)

-- What fits the fields of a `msg_modify_ack_t`.
pub record ModifyAckFits (m : ModifyAck) : Type 0 where
  pub order_id_ok : m.order_id < 2 ^ 64
  pub cl_ord_id_ok : m.cl_ord_id < 2 ^ 64
  pub status_ok : m.status < 2 ^ 8
  pub reason_ok : IsInt32 m.reason
  pub price_ok : IsInt32 m.price

pub msg_decode-msg_encode_modify_ack :
    (m : ModifyAck) (cap : ℕ)
    → ModifyAckFits m
    → msg_modify_ack_len ≤ cap
    → Recovers msg_modify_ack_len (msg_encode_modify_ack m cap) msg_decode_modify_ack m
unfolding msg_encode_modify_ack msg_decode_modify_ack ◌>>=◌
msg_decode-msg_encode_modify_ack m cap fits room =
    codec-Recovers (modify_ack_bytes m) read_modify_ack msg_modify_ack_len cap room
      (field-Sized (get_u64-Codes m.order_id fits.order_id_ok) (
        field-Sized (get_u64-Codes m.cl_ord_id fits.cl_ord_id_ok) (
          field-Sized (get_u8-Codes m.status fits.status_ok) (
            field-Sized (get_i32-Codes m.reason fits.reason_ok)
              (field-Sized (get_i32-Codes m.price fits.price_ok) (no_field-Sized))))))
      (rw
        (
          (get_u64-Codes m.order_id fits.order_id_ok).reads,
          (get_u64-Codes m.cl_ord_id fits.cl_ord_id_ok).reads,
          (get_u8-Codes m.status fits.status_ok).reads,
          (get_i32-Codes m.reason fits.reason_ok).reads,
          (get_i32-Codes m.price fits.price_ok).reads,
        )
        refl)
