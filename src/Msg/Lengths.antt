-- ===== src/Msg/Lengths.antt =====
-- core/include/msg.h: the lengths of the fields and of the bodies.
use trading_sor_mock.Base.{ℕ, ◌+◌, ◌*◌}

abbrev pub msg_account_len : ℕ
msg_account_len = 12

abbrev pub msg_symbol_len : ℕ
msg_symbol_len = 8

abbrev pub msg_session_len : ℕ
msg_session_len = 16

abbrev pub msg_order_req_len : ℕ
msg_order_req_len = msg_account_len + msg_symbol_len + 8 + 1 + 1 + 1 + 4 + 4

abbrev pub msg_order_ack_len : ℕ
msg_order_ack_len = 8 + 8 + 1 + 4 + 4 + 4

abbrev pub msg_cancel_req_len : ℕ
msg_cancel_req_len = msg_account_len + 8 + 8

abbrev pub msg_cancel_ack_len : ℕ
msg_cancel_ack_len = 8 + 8 + 1 + 4 + 4

abbrev pub msg_modify_req_len : ℕ
msg_modify_req_len = msg_account_len + 8 + 8 + 4 + 4

abbrev pub msg_modify_ack_len : ℕ
msg_modify_ack_len = 8 + 8 + 1 + 4 + 4

abbrev pub msg_query_req_len : ℕ
msg_query_req_len = msg_account_len + 8

abbrev pub msg_query_ack_len : ℕ
msg_query_ack_len = 8 + 8 + msg_symbol_len + 1 + 4 + 4 + 4 + 1

abbrev pub msg_fill_noti_len : ℕ
msg_fill_noti_len = 8 + 8 + msg_symbol_len + 1 + 1 + 4 + 4 + 4 + 8

abbrev pub msg_login_req_len : ℕ
msg_login_req_len = msg_session_len

abbrev pub msg_login_ack_len : ℕ
msg_login_ack_len = 4

abbrev pub msg_heartbeat_len : ℕ
msg_heartbeat_len = 0

abbrev pub msg_resend_req_len : ℕ
msg_resend_req_len = 8

abbrev pub msg_gap_fill_len : ℕ
msg_gap_fill_len = 8

abbrev pub msg_book_depth : ℕ
msg_book_depth = 10

abbrev pub msg_book_req_len : ℕ
msg_book_req_len = msg_symbol_len + 1

abbrev pub msg_book_ack_len : ℕ
msg_book_ack_len = msg_symbol_len + 1 + msg_book_depth * 4 * 4 + 4 + 8

abbrev pub msg_leg_slots : ℕ
msg_leg_slots = 2

abbrev pub msg_detail_req_len : ℕ
msg_detail_req_len = msg_account_len + 8

abbrev pub msg_detail_ack_len : ℕ
msg_detail_ack_len = 8 + 8 + 4 + 1 + 1 + 1 + 4 * 5 + 8 + msg_leg_slots * 4 * 3 + msg_leg_slots * 8

abbrev pub msg_balance_req_len : ℕ
msg_balance_req_len = msg_account_len

abbrev pub msg_balance_ack_len : ℕ
msg_balance_ack_len = msg_account_len + 4 + 8 + 8

abbrev pub msg_book_feed_len : ℕ
msg_book_feed_len = msg_symbol_len + 1 + 1 + 8 + msg_book_depth * 4 * 4

abbrev pub msg_symbol_set_len : ℕ
msg_symbol_set_len = msg_symbol_len + 4 + 1

abbrev pub msg_symbol_ack_len : ℕ
msg_symbol_ack_len = msg_symbol_len + 4 + 4 + 1 + 1

abbrev pub msg_tick_set_len : ℕ
msg_tick_set_len = 1

abbrev pub msg_tick_ack_len : ℕ
msg_tick_ack_len = 1 + 4

abbrev pub msg_leg_req_len : ℕ
msg_leg_req_len = msg_order_req_len

abbrev pub msg_leg_ack_len : ℕ
msg_leg_ack_len = 8 + 8 + 4 + 4 + 8 + 1

abbrev pub msg_account_open_len : ℕ
msg_account_open_len = msg_account_len + 8 + 8 + 8

abbrev pub msg_account_ack_len : ℕ
msg_account_ack_len = msg_account_len + 4 + 8 + 8 + 8 + 8 + 8
