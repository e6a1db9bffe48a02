-- ===== src/Msg/Ledger/RoundTrip.antt =====
-- The bodies on the synthetic participants, legs and accounts are read back (core/src/msg.c).
use trading_sor_mock.Base.{ℕ, ◌^◌, ◌≤◌, ◌<◌, refl}
use trading_sor_mock.Wire.Integers.{IsInt64, IsInt32}
use trading_sor_mock.Msg.Lengths.{
  msg_account_len, msg_tick_set_len, msg_tick_ack_len, msg_leg_ack_len, msg_account_open_len,
  msg_account_ack_len,
}
use trading_sor_mock.Msg.Codec.{
  no_field-Sized, field-Sized, get_u8-Codes, get_u64-Codes, get_i32-Codes, get_i64-Codes, StrFits,
  get_str-Codes, Recovers, codec-Recovers,
}
use trading_sor_mock.Msg.Ledger.{
  TickSet, tick_set_bytes, msg_encode_tick_set, read_tick_set, msg_decode_tick_set, TickAck,
  tick_ack_bytes, msg_encode_tick_ack, read_tick_ack, msg_decode_tick_ack, LegAck, leg_ack_bytes,
  msg_encode_leg_ack, read_leg_ack, msg_decode_leg_ack, AccountOpen, account_open_bytes,
  msg_encode_account_open, read_account_open, msg_decode_account_open, AccountAck,
  account_ack_bytes, msg_encode_account_ack, read_account_ack, msg_decode_account_ack,
}
use trading_sor_mock.Msg.Reader.{◌>>=◌}

-- What fits the fields of a `msg_tick_set_t`.
pub record TickSetFits (m : TickSet) : Type 0 where
  pub on_ok : m.on < 2 ^ 8

pub msg_decode-msg_encode_tick_set :
    (m : TickSet) (cap : ℕ)
    → TickSetFits m
    → msg_tick_set_len ≤ cap
    → Recovers msg_tick_set_len (msg_encode_tick_set m cap) msg_decode_tick_set m
unfolding msg_encode_tick_set msg_decode_tick_set ◌>>=◌
msg_decode-msg_encode_tick_set m cap fits room =
    codec-Recovers (tick_set_bytes m) read_tick_set msg_tick_set_len cap room
      (field-Sized (get_u8-Codes m.on fits.on_ok) (no_field-Sized))
      (rw ((get_u8-Codes m.on fits.on_ok).reads) refl)

-- What fits the fields of a `msg_tick_ack_t`.
pub record TickAckFits (m : TickAck) : Type 0 where
  pub on_ok : m.on < 2 ^ 8
  pub code_ok : IsInt32 m.code

pub msg_decode-msg_encode_tick_ack :
    (m : TickAck) (cap : ℕ)
    → TickAckFits m
    → msg_tick_ack_len ≤ cap
    → Recovers msg_tick_ack_len (msg_encode_tick_ack m cap) msg_decode_tick_ack m
unfolding msg_encode_tick_ack msg_decode_tick_ack ◌>>=◌
msg_decode-msg_encode_tick_ack m cap fits room =
    codec-Recovers (tick_ack_bytes m) read_tick_ack msg_tick_ack_len cap room
      (field-Sized (get_u8-Codes m.on fits.on_ok)
        (field-Sized (get_i32-Codes m.code fits.code_ok) (no_field-Sized)))
      (rw ((get_u8-Codes m.on fits.on_ok).reads, (get_i32-Codes m.code fits.code_ok).reads) refl)

-- What fits the fields of a `msg_leg_ack_t`.
pub record LegAckFits (m : LegAck) : Type 0 where
  pub cl_ord_id_ok : m.cl_ord_id < 2 ^ 64
  pub order_id_ok : m.order_id < 2 ^ 64
  pub reason_ok : IsInt32 m.reason
  pub filled_qty_ok : IsInt32 m.filled_qty
  pub notional_ok : IsInt64 m.notional
  pub resting_ok : m.resting < 2 ^ 8

pub msg_decode-msg_encode_leg_ack :
    (m : LegAck) (cap : ℕ)
    → LegAckFits m
    → msg_leg_ack_len ≤ cap
    → Recovers msg_leg_ack_len (msg_encode_leg_ack m cap) msg_decode_leg_ack m
unfolding msg_encode_leg_ack msg_decode_leg_ack ◌>>=◌
msg_decode-msg_encode_leg_ack m cap fits room =
    codec-Recovers (leg_ack_bytes m) read_leg_ack msg_leg_ack_len cap room
      (field-Sized (get_u64-Codes m.cl_ord_id fits.cl_ord_id_ok) (
        field-Sized (get_u64-Codes m.order_id fits.order_id_ok) (
          field-Sized (get_i32-Codes m.reason fits.reason_ok) (
            field-Sized (get_i32-Codes m.filled_qty fits.filled_qty_ok) (
              field-Sized (get_i64-Codes m.notional fits.notional_ok)
                (field-Sized (get_u8-Codes m.resting fits.resting_ok) (no_field-Sized)))))))
      (rw
        (
          (get_u64-Codes m.cl_ord_id fits.cl_ord_id_ok).reads,
          (get_u64-Codes m.order_id fits.order_id_ok).reads,
          (get_i32-Codes m.reason fits.reason_ok).reads,
          (get_i32-Codes m.filled_qty fits.filled_qty_ok).reads,
          (get_i64-Codes m.notional fits.notional_ok).reads,
          (get_u8-Codes m.resting fits.resting_ok).reads,
        )
        refl)

-- What fits the fields of a `msg_account_open_t`.
pub record AccountOpenFits (m : AccountOpen) : Type 0 where
  pub account_ok : StrFits msg_account_len m.account
  pub cash_ok : IsInt64 m.cash
  pub pos_qty_ok : IsInt64 m.pos_qty
  pub pos_cost_ok : IsInt64 m.pos_cost

pub msg_decode-msg_encode_account_open :
    (m : AccountOpen) (cap : ℕ)
    → AccountOpenFits m
    → msg_account_open_len ≤ cap
    → Recovers msg_account_open_len (msg_encode_account_open m cap) msg_decode_account_open m
unfolding msg_encode_account_open msg_decode_account_open ◌>>=◌
msg_decode-msg_encode_account_open m cap fits room =
    codec-Recovers (account_open_bytes m) read_account_open msg_account_open_len cap room
      (field-Sized (get_str-Codes msg_account_len m.account fits.account_ok) (
        field-Sized (get_i64-Codes m.cash fits.cash_ok) (
          field-Sized (get_i64-Codes m.pos_qty fits.pos_qty_ok)
            (field-Sized (get_i64-Codes m.pos_cost fits.pos_cost_ok) (no_field-Sized)))))
      (rw
        (
          (get_str-Codes msg_account_len m.account fits.account_ok).reads,
          (get_i64-Codes m.cash fits.cash_ok).reads,
          (get_i64-Codes m.pos_qty fits.pos_qty_ok).reads,
          (get_i64-Codes m.pos_cost fits.pos_cost_ok).reads,
        )
        refl)

-- What fits the fields of a `msg_account_ack_t`.
pub record AccountAckFits (m : AccountAck) : Type 0 where
  pub account_ok : StrFits msg_account_len m.account
  pub code_ok : IsInt32 m.code
  pub cash_ok : IsInt64 m.cash
  pub reserved_ok : IsInt64 m.reserved
  pub pos_qty_ok : IsInt64 m.pos_qty
  pub pos_cost_ok : IsInt64 m.pos_cost
  pub realized_ok : IsInt64 m.realized

pub msg_decode-msg_encode_account_ack :
    (m : AccountAck) (cap : ℕ)
    → AccountAckFits m
    → msg_account_ack_len ≤ cap
    → Recovers msg_account_ack_len (msg_encode_account_ack m cap) msg_decode_account_ack m
unfolding msg_encode_account_ack msg_decode_account_ack ◌>>=◌
msg_decode-msg_encode_account_ack m cap fits room =
    codec-Recovers (account_ack_bytes m) read_account_ack msg_account_ack_len cap room
      (field-Sized (get_str-Codes msg_account_len m.account fits.account_ok) (
        field-Sized (get_i32-Codes m.code fits.code_ok) (
          field-Sized (get_i64-Codes m.cash fits.cash_ok) (
            field-Sized (get_i64-Codes m.reserved fits.reserved_ok) (
              field-Sized (get_i64-Codes m.pos_qty fits.pos_qty_ok) (
                field-Sized (get_i64-Codes m.pos_cost fits.pos_cost_ok)
                  (field-Sized (get_i64-Codes m.realized fits.realized_ok) (no_field-Sized))))))))
      (rw
        (
          (get_str-Codes msg_account_len m.account fits.account_ok).reads,
          (get_i32-Codes m.code fits.code_ok).reads,
          (get_i64-Codes m.cash fits.cash_ok).reads,
          (get_i64-Codes m.reserved fits.reserved_ok).reads,
          (get_i64-Codes m.pos_qty fits.pos_qty_ok).reads,
          (get_i64-Codes m.pos_cost fits.pos_cost_ok).reads,
          (get_i64-Codes m.realized fits.realized_ok).reads,
        )
        refl)
