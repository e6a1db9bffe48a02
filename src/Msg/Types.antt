-- ===== src/Msg/Types.antt =====
-- core/include/msg.h and core/src/msg.c: the types of the messages.
use trading_sor_mock.Base.{ℕ, Bool, Option, none, some, List, [], ◌∷◌, ◌==◌, if◌then◌else◌, is_some}
use trading_sor_mock.Msg.Lengths.{
  msg_order_req_len, msg_order_ack_len, msg_cancel_req_len, msg_cancel_ack_len, msg_modify_req_len,
  msg_modify_ack_len, msg_query_req_len, msg_query_ack_len, msg_fill_noti_len, msg_login_req_len,
  msg_login_ack_len, msg_heartbeat_len, msg_resend_req_len, msg_gap_fill_len, msg_book_req_len,
  msg_book_ack_len, msg_detail_req_len, msg_detail_ack_len, msg_balance_req_len,
  msg_balance_ack_len, msg_book_feed_len, msg_symbol_set_len, msg_symbol_ack_len, msg_tick_set_len,
  msg_tick_ack_len, msg_leg_req_len, msg_leg_ack_len, msg_account_open_len, msg_account_ack_len,
}

-- The types of the messages: `MSG_TYPE_LIST` with the length of each body.
abbrev pub msg_unknown : ℕ
msg_unknown = 0

abbrev pub msg_order_req : ℕ
msg_order_req = 1

abbrev pub msg_order_ack : ℕ
msg_order_ack = 2

abbrev pub msg_cancel_req : ℕ
msg_cancel_req = 3

abbrev pub msg_cancel_ack : ℕ
msg_cancel_ack = 4

abbrev pub msg_modify_req : ℕ
msg_modify_req = 5

abbrev pub msg_modify_ack : ℕ
msg_modify_ack = 6

abbrev pub msg_query_req : ℕ
msg_query_req = 7

abbrev pub msg_query_ack : ℕ
msg_query_ack = 8

abbrev pub msg_fill_noti : ℕ
msg_fill_noti = 9

abbrev pub msg_login_req : ℕ
msg_login_req = 10

abbrev pub msg_login_ack : ℕ
msg_login_ack = 11

abbrev pub msg_heartbeat : ℕ
msg_heartbeat = 12

abbrev pub msg_resend_req : ℕ
msg_resend_req = 13

abbrev pub msg_gap_fill : ℕ
msg_gap_fill = 14

abbrev pub msg_book_req : ℕ
msg_book_req = 15

abbrev pub msg_book_ack : ℕ
msg_book_ack = 16

abbrev pub msg_detail_req : ℕ
msg_detail_req = 17

abbrev pub msg_detail_ack : ℕ
msg_detail_ack = 18

abbrev pub msg_balance_req : ℕ
msg_balance_req = 19

abbrev pub msg_balance_ack : ℕ
msg_balance_ack = 20

abbrev pub msg_book_feed : ℕ
msg_book_feed = 21

abbrev pub msg_symbol_set : ℕ
msg_symbol_set = 22

abbrev pub msg_symbol_ack : ℕ
msg_symbol_ack = 23

abbrev pub msg_account_open : ℕ
msg_account_open = 24

abbrev pub msg_account_ack : ℕ
msg_account_ack = 25

abbrev pub msg_tick_set : ℕ
msg_tick_set = 26

abbrev pub msg_tick_ack : ℕ
msg_tick_ack = 27

abbrev pub msg_leg_req : ℕ
msg_leg_req = 28

abbrev pub msg_leg_ack : ℕ
msg_leg_ack = 29

abbrev pub msg_type_list : List (ℕ × ℕ)
msg_type_list =
    (msg_order_req, msg_order_req_len)
    ∷ (msg_order_ack, msg_order_ack_len)
    ∷ (msg_cancel_req, msg_cancel_req_len)
    ∷ (msg_cancel_ack, msg_cancel_ack_len)
    ∷ (msg_modify_req, msg_modify_req_len)
    ∷ (msg_modify_ack, msg_modify_ack_len)
    ∷ (msg_query_req, msg_query_req_len)
    ∷ (msg_query_ack, msg_query_ack_len)
    ∷ (msg_fill_noti, msg_fill_noti_len)
    ∷ (msg_login_req, msg_login_req_len)
    ∷ (msg_login_ack, msg_login_ack_len)
    ∷ (msg_heartbeat, msg_heartbeat_len)
    ∷ (msg_resend_req, msg_resend_req_len)
    ∷ (msg_gap_fill, msg_gap_fill_len)
    ∷ (msg_book_req, msg_book_req_len)
    ∷ (msg_book_ack, msg_book_ack_len)
    ∷ (msg_detail_req, msg_detail_req_len)
    ∷ (msg_detail_ack, msg_detail_ack_len)
    ∷ (msg_balance_req, msg_balance_req_len)
    ∷ (msg_balance_ack, msg_balance_ack_len)
    ∷ (msg_book_feed, msg_book_feed_len)
    ∷ (msg_symbol_set, msg_symbol_set_len)
    ∷ (msg_symbol_ack, msg_symbol_ack_len)
    ∷ (msg_account_open, msg_account_open_len)
    ∷ (msg_account_ack, msg_account_ack_len)
    ∷ (msg_tick_set, msg_tick_set_len)
    ∷ (msg_tick_ack, msg_tick_ack_len)
    ∷ (msg_leg_req, msg_leg_req_len)
    ∷ (msg_leg_ack, msg_leg_ack_len)
    ∷ []

-- The value at a key, as a `switch` finds it.
abbrev pub lookup : List (ℕ × ℕ) → ℕ → Option ℕ
lookup [] key = none
lookup ((k, v) ∷ rows) key = if k == key then some v else lookup rows key

-- `msg_body_len`, where `none` is -1.
unfoldable pub msg_body_len : (type : ℕ) → Option ℕ
msg_body_len type = lookup msg_type_list type

unfoldable pub msg_is_known : (type : ℕ) → Bool
msg_is_known type = is_some (msg_body_len type)

abbrev pub reply_rows : List (ℕ × ℕ)
reply_rows =
    (msg_order_req, msg_order_ack)
    ∷ (msg_cancel_req, msg_cancel_ack)
    ∷ (msg_modify_req, msg_modify_ack)
    ∷ (msg_query_req, msg_query_ack)
    ∷ (msg_book_req, msg_book_ack)
    ∷ (msg_book_feed, msg_book_ack)
    ∷ (msg_symbol_set, msg_symbol_ack)
    ∷ (msg_leg_req, msg_leg_ack)
    ∷ (msg_account_open, msg_account_ack)
    ∷ (msg_tick_set, msg_tick_ack)
    ∷ (msg_detail_req, msg_detail_ack)
    ∷ (msg_balance_req, msg_balance_ack)
    ∷ []

unfoldable pub msg_reply_type : (req_type : ℕ) → ℕ
msg_reply_type req_type = elim (lookup reply_rows req_type) [ none ↦ msg_unknown | some t ↦ t ]
