-- ===== src/Msg/Queries/RoundTrip.antt =====
-- The bodies on queries, details and balances are read back (core/src/msg.c).
use trading_sor_mock.Base.{ℕ, ◌^◌, ◌≤◌, ◌<◌, ◌≡◌, refl, length, All}
use trading_sor_mock.Wire.Integers.{IsInt64, IsInt32}
use trading_sor_mock.Msg.Lengths.{
  msg_account_len, msg_symbol_len, msg_query_req_len, msg_query_ack_len, msg_leg_slots,
  msg_detail_req_len, msg_detail_ack_len, msg_balance_req_len, msg_balance_ack_len,
}
use trading_sor_mock.Msg.Codec.{
  no_field-Sized, field-Sized, get_u8-Codes, get_u64-Codes, get_i32-Codes, get_i64-Codes,
  get_bool-Codes, StrFits, get_str-Codes, get_i32s-Codes, get_i64s-Codes, Recovers, codec-Recovers,
}
use trading_sor_mock.Msg.Queries.{
  QueryReq, query_req_bytes, msg_encode_query_req, read_query_req, msg_decode_query_req, QueryAck,
  query_ack_bytes, msg_encode_query_ack, read_query_ack, msg_decode_query_ack, DetailReq,
  detail_req_bytes, msg_encode_detail_req, read_detail_req, msg_decode_detail_req, DetailAck,
  detail_ack_bytes, msg_encode_detail_ack, read_detail_ack, msg_decode_detail_ack, BalanceReq,
  balance_req_bytes, msg_encode_balance_req, read_balance_req, msg_decode_balance_req, BalanceAck,
  balance_ack_bytes, msg_encode_balance_ack, read_balance_ack, msg_decode_balance_ack,
}
use trading_sor_mock.Msg.Reader.{◌>>=◌}

-- What fits the fields of a `msg_query_req_t`.
pub record QueryReqFits (m : QueryReq) : Type 0 where
  pub account_ok : StrFits msg_account_len m.account
  pub order_id_ok : m.order_id < 2 ^ 64

pub msg_decode-msg_encode_query_req :
    (m : QueryReq) (cap : ℕ)
    → QueryReqFits m
    → msg_query_req_len ≤ cap
    → Recovers msg_query_req_len (msg_encode_query_req m cap) msg_decode_query_req m
unfolding msg_encode_query_req msg_decode_query_req ◌>>=◌
msg_decode-msg_encode_query_req m cap fits room =
    codec-Recovers (query_req_bytes m) read_query_req msg_query_req_len cap room
      (field-Sized (get_str-Codes msg_account_len m.account fits.account_ok)
        (field-Sized (get_u64-Codes m.order_id fits.order_id_ok) (no_field-Sized)))
      (rw
        (
          (get_str-Codes msg_account_len m.account fits.account_ok).reads,
          (get_u64-Codes m.order_id fits.order_id_ok).reads,
        )
        refl)

-- What fits the fields of a `msg_query_ack_t`.
pub record QueryAckFits (m : QueryAck) : Type 0 where
  pub order_id_ok : m.order_id < 2 ^ 64
  pub cl_ord_id_ok : m.cl_ord_id < 2 ^ 64
  pub symbol_ok : StrFits msg_symbol_len m.symbol
  pub status_ok : m.status < 2 ^ 8
  pub price_ok : IsInt32 m.price
  pub qty_ok : IsInt32 m.qty
  pub filled_qty_ok : IsInt32 m.filled_qty

pub msg_decode-msg_encode_query_ack :
    (m : QueryAck) (cap : ℕ)
    → QueryAckFits m
    → msg_query_ack_len ≤ cap
    → Recovers msg_query_ack_len (msg_encode_query_ack m cap) msg_decode_query_ack m
unfolding msg_encode_query_ack msg_decode_query_ack ◌>>=◌
msg_decode-msg_encode_query_ack m cap fits room =
    codec-Recovers (query_ack_bytes m) read_query_ack msg_query_ack_len cap room
      (field-Sized (get_u64-Codes m.order_id fits.order_id_ok) (
        field-Sized (get_u64-Codes m.cl_ord_id fits.cl_ord_id_ok) (
          field-Sized (get_str-Codes msg_symbol_len m.symbol fits.symbol_ok) (
            field-Sized (get_u8-Codes m.status fits.status_ok) (
              field-Sized (get_i32-Codes m.price fits.price_ok) (
                field-Sized (get_i32-Codes m.qty fits.qty_ok) (
                  field-Sized (get_i32-Codes m.filled_qty fits.filled_qty_ok)
                    (field-Sized (get_bool-Codes m.last) (no_field-Sized)))))))))
      (rw
        (
          (get_u64-Codes m.order_id fits.order_id_ok).reads,
          (get_u64-Codes m.cl_ord_id fits.cl_ord_id_ok).reads,
          (get_str-Codes msg_symbol_len m.symbol fits.symbol_ok).reads,
          (get_u8-Codes m.status fits.status_ok).reads,
          (get_i32-Codes m.price fits.price_ok).reads,
          (get_i32-Codes m.qty fits.qty_ok).reads,
          (get_i32-Codes m.filled_qty fits.filled_qty_ok).reads,
          (get_bool-Codes m.last).reads,
        )
        refl)

-- What fits the fields of a `msg_detail_req_t`.
pub record DetailReqFits (m : DetailReq) : Type 0 where
  pub account_ok : StrFits msg_account_len m.account
  pub order_id_ok : m.order_id < 2 ^ 64

pub msg_decode-msg_encode_detail_req :
    (m : DetailReq) (cap : ℕ)
    → DetailReqFits m
    → msg_detail_req_len ≤ cap
    → Recovers msg_detail_req_len (msg_encode_detail_req m cap) msg_decode_detail_req m
unfolding msg_encode_detail_req msg_decode_detail_req ◌>>=◌
msg_decode-msg_encode_detail_req m cap fits room =
    codec-Recovers (detail_req_bytes m) read_detail_req msg_detail_req_len cap room
      (field-Sized (get_str-Codes msg_account_len m.account fits.account_ok)
        (field-Sized (get_u64-Codes m.order_id fits.order_id_ok) (no_field-Sized)))
      (rw
        (
          (get_str-Codes msg_account_len m.account fits.account_ok).reads,
          (get_u64-Codes m.order_id fits.order_id_ok).reads,
        )
        refl)

-- What fits the fields of a `msg_detail_ack_t`.
pub record DetailAckFits (m : DetailAck) : Type 0 where
  pub order_id_ok : m.order_id < 2 ^ 64
  pub cl_ord_id_ok : m.cl_ord_id < 2 ^ 64
  pub reason_ok : IsInt32 m.reason
  pub side_ok : m.side < 2 ^ 8
  pub status_ok : m.status < 2 ^ 8
  pub market_ok : m.market < 2 ^ 8
  pub price_ok : IsInt32 m.price
  pub qty_ok : IsInt32 m.qty
  pub filled_ok : IsInt32 m.filled
  pub canceled_ok : IsInt32 m.canceled
  pub working_ok : IsInt32 m.working
  pub notional_ok : IsInt64 m.notional
  pub leg_sent_ok : (length m.leg_sent ≡ msg_leg_slots) × All IsInt32 m.leg_sent
  pub leg_filled_ok : (length m.leg_filled ≡ msg_leg_slots) × All IsInt32 m.leg_filled
  pub leg_canceled_ok : (length m.leg_canceled ≡ msg_leg_slots) × All IsInt32 m.leg_canceled
  pub leg_notional_ok : (length m.leg_notional ≡ msg_leg_slots) × All IsInt64 m.leg_notional

pub msg_decode-msg_encode_detail_ack :
    (m : DetailAck) (cap : ℕ)
    → DetailAckFits m
    → msg_detail_ack_len ≤ cap
    → Recovers msg_detail_ack_len (msg_encode_detail_ack m cap) msg_decode_detail_ack m
unfolding msg_encode_detail_ack msg_decode_detail_ack ◌>>=◌
msg_decode-msg_encode_detail_ack m cap fits room =
    codec-Recovers (detail_ack_bytes m) read_detail_ack msg_detail_ack_len cap room
      (field-Sized (get_u64-Codes m.order_id fits.order_id_ok) (
        field-Sized (get_u64-Codes m.cl_ord_id fits.cl_ord_id_ok) (
          field-Sized (get_i32-Codes m.reason fits.reason_ok) (
            field-Sized (get_u8-Codes m.side fits.side_ok) (
              field-Sized (get_u8-Codes m.status fits.status_ok) (
                field-Sized (get_u8-Codes m.market fits.market_ok) (
                  field-Sized (get_i32-Codes m.price fits.price_ok) (
                    field-Sized (get_i32-Codes m.qty fits.qty_ok) (
                      field-Sized (get_i32-Codes m.filled fits.filled_ok) (
                        field-Sized (get_i32-Codes m.canceled fits.canceled_ok) (
                          field-Sized (get_i32-Codes m.working fits.working_ok) (
                            field-Sized (get_i64-Codes m.notional fits.notional_ok) (
                              field-Sized
                                (get_i32s-Codes m.leg_sent fits.leg_sent_ok.0 fits.leg_sent_ok.1)
                                (field-Sized
                                  (get_i32s-Codes m.leg_filled fits.leg_filled_ok.0
                                    fits.leg_filled_ok.1)
                                  (field-Sized
                                    (get_i32s-Codes m.leg_canceled fits.leg_canceled_ok.0
                                      fits.leg_canceled_ok.1)
                                    (field-Sized
                                      (get_i64s-Codes m.leg_notional fits.leg_notional_ok.0
                                        fits.leg_notional_ok.1)
                                      (no_field-Sized)))))))))))))))))
      (rw
        (
          (get_u64-Codes m.order_id fits.order_id_ok).reads,
          (get_u64-Codes m.cl_ord_id fits.cl_ord_id_ok).reads,
          (get_i32-Codes m.reason fits.reason_ok).reads,
          (get_u8-Codes m.side fits.side_ok).reads,
          (get_u8-Codes m.status fits.status_ok).reads,
          (get_u8-Codes m.market fits.market_ok).reads,
          (get_i32-Codes m.price fits.price_ok).reads,
          (get_i32-Codes m.qty fits.qty_ok).reads,
          (get_i32-Codes m.filled fits.filled_ok).reads,
          (get_i32-Codes m.canceled fits.canceled_ok).reads,
          (get_i32-Codes m.working fits.working_ok).reads,
          (get_i64-Codes m.notional fits.notional_ok).reads,
          (get_i32s-Codes m.leg_sent fits.leg_sent_ok.0 fits.leg_sent_ok.1).reads,
          (get_i32s-Codes m.leg_filled fits.leg_filled_ok.0 fits.leg_filled_ok.1).reads,
          (get_i32s-Codes m.leg_canceled fits.leg_canceled_ok.0 fits.leg_canceled_ok.1).reads,
          (get_i64s-Codes m.leg_notional fits.leg_notional_ok.0 fits.leg_notional_ok.1).reads,
        )
        refl)

-- What fits the fields of a `msg_balance_req_t`.
pub record BalanceReqFits (m : BalanceReq) : Type 0 where
  pub account_ok : StrFits msg_account_len m.account

pub msg_decode-msg_encode_balance_req :
    (m : BalanceReq) (cap : ℕ)
    → BalanceReqFits m
    → msg_balance_req_len ≤ cap
    → Recovers msg_balance_req_len (msg_encode_balance_req m cap) msg_decode_balance_req m
unfolding msg_encode_balance_req msg_decode_balance_req ◌>>=◌
msg_decode-msg_encode_balance_req m cap fits room =
    codec-Recovers (balance_req_bytes m) read_balance_req msg_balance_req_len cap room
      (field-Sized (get_str-Codes msg_account_len m.account fits.account_ok) (no_field-Sized))
      (rw ((get_str-Codes msg_account_len m.account fits.account_ok).reads) refl)

-- What fits the fields of a `msg_balance_ack_t`.
pub record BalanceAckFits (m : BalanceAck) : Type 0 where
  pub account_ok : StrFits msg_account_len m.account
  pub reason_ok : IsInt32 m.reason
  pub cash_ok : IsInt64 m.cash
  pub reserved_ok : IsInt64 m.reserved

pub msg_decode-msg_encode_balance_ack :
    (m : BalanceAck) (cap : ℕ)
    → BalanceAckFits m
    → msg_balance_ack_len ≤ cap
    → Recovers msg_balance_ack_len (msg_encode_balance_ack m cap) msg_decode_balance_ack m
unfolding msg_encode_balance_ack msg_decode_balance_ack ◌>>=◌
msg_decode-msg_encode_balance_ack m cap fits room =
    codec-Recovers (balance_ack_bytes m) read_balance_ack msg_balance_ack_len cap room
      (field-Sized (get_str-Codes msg_account_len m.account fits.account_ok) (
        field-Sized (get_i32-Codes m.reason fits.reason_ok) (
          field-Sized (get_i64-Codes m.cash fits.cash_ok)
            (field-Sized (get_i64-Codes m.reserved fits.reserved_ok) (no_field-Sized)))))
      (rw
        (
          (get_str-Codes msg_account_len m.account fits.account_ok).reads,
          (get_i32-Codes m.reason fits.reason_ok).reads,
          (get_i64-Codes m.cash fits.cash_ok).reads,
          (get_i64-Codes m.reserved fits.reserved_ok).reads,
        )
        refl)
