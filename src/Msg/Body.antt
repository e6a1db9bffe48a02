-- ===== src/Msg/Body.antt =====
-- The bodies of all messages, with the types under which they travel (core/src/msg.c).
pub mod Recovery
use trading_sor_mock.Base.{ℕ, ◌==◌, if◌then◌else◌}
use trading_sor_mock.Types.{not_supported, Result, done, fail}
use trading_sor_mock.Wire.{Bytes}
use trading_sor_mock.Msg.Lengths.{
  msg_order_req_len, msg_order_ack_len, msg_cancel_req_len, msg_cancel_ack_len, msg_modify_req_len,
  msg_modify_ack_len, msg_query_req_len, msg_query_ack_len, msg_fill_noti_len, msg_login_req_len,
  msg_login_ack_len, msg_resend_req_len, msg_gap_fill_len, msg_book_req_len, msg_book_ack_len,
  msg_detail_req_len, msg_detail_ack_len, msg_balance_req_len, msg_balance_ack_len,
  msg_book_feed_len, msg_symbol_set_len, msg_symbol_ack_len, msg_tick_set_len, msg_tick_ack_len,
  msg_leg_req_len, msg_leg_ack_len, msg_account_open_len, msg_account_ack_len,
}
use trading_sor_mock.Msg.Types.{
  msg_order_req, msg_order_ack, msg_cancel_req, msg_cancel_ack, msg_modify_req, msg_modify_ack,
  msg_query_req, msg_query_ack, msg_fill_noti, msg_login_req, msg_login_ack, msg_resend_req,
  msg_gap_fill, msg_book_req, msg_book_ack, msg_detail_req, msg_detail_ack, msg_balance_req,
  msg_balance_ack, msg_book_feed, msg_symbol_set, msg_symbol_ack, msg_account_open, msg_account_ack,
  msg_tick_set, msg_tick_ack, msg_leg_req, msg_leg_ack,
}
use trading_sor_mock.Msg.Orders.{
  OrderReq, msg_encode_order_req, msg_decode_order_req, OrderAck, msg_encode_order_ack,
  msg_decode_order_ack, CancelReq, msg_encode_cancel_req, msg_decode_cancel_req, CancelAck,
  msg_encode_cancel_ack, msg_decode_cancel_ack, ModifyReq, msg_encode_modify_req,
  msg_decode_modify_req, ModifyAck, msg_encode_modify_ack, msg_decode_modify_ack,
}
use trading_sor_mock.Msg.Session.{
  FillNoti, msg_encode_fill_noti, msg_decode_fill_noti, LoginReq, msg_encode_login_req,
  msg_decode_login_req, LoginAck, msg_encode_login_ack, msg_decode_login_ack, ResendReq,
  msg_encode_resend_req, msg_decode_resend_req, GapFill, msg_encode_gap_fill, msg_decode_gap_fill,
}
use trading_sor_mock.Msg.Market.{
  BookReq, msg_encode_book_req, msg_decode_book_req, BookAck, msg_encode_book_ack,
  msg_decode_book_ack, BookFeed, msg_encode_book_feed, msg_decode_book_feed, SymbolSet,
  msg_encode_symbol_set, msg_decode_symbol_set, SymbolAck, msg_encode_symbol_ack,
  msg_decode_symbol_ack,
}
use trading_sor_mock.Msg.Ledger.{
  TickSet, msg_encode_tick_set, msg_decode_tick_set, TickAck, msg_encode_tick_ack,
  msg_decode_tick_ack, LegAck, msg_encode_leg_ack, msg_decode_leg_ack, AccountOpen,
  msg_encode_account_open, msg_decode_account_open, AccountAck, msg_encode_account_ack,
  msg_decode_account_ack,
}
use trading_sor_mock.Msg.Queries.{
  QueryReq, msg_encode_query_req, msg_decode_query_req, QueryAck, msg_encode_query_ack,
  msg_decode_query_ack, DetailReq, msg_encode_detail_req, msg_decode_detail_req, DetailAck,
  msg_encode_detail_ack, msg_decode_detail_ack, BalanceReq, msg_encode_balance_req,
  msg_decode_balance_req, BalanceAck, msg_encode_balance_ack, msg_decode_balance_ack,
}

-- The messages that have a body; `leg_req` has that of an order.
pub data Body : Type 0 where
  order_req : OrderReq → Body
  order_ack : OrderAck → Body
  cancel_req : CancelReq → Body
  cancel_ack : CancelAck → Body
  modify_req : ModifyReq → Body
  modify_ack : ModifyAck → Body
  fill_noti : FillNoti → Body
  login_req : LoginReq → Body
  login_ack : LoginAck → Body
  resend_req : ResendReq → Body
  gap_fill : GapFill → Body
  book_req : BookReq → Body
  book_ack : BookAck → Body
  book_feed : BookFeed → Body
  symbol_set : SymbolSet → Body
  symbol_ack : SymbolAck → Body
  tick_set : TickSet → Body
  tick_ack : TickAck → Body
  leg_ack : LegAck → Body
  account_open : AccountOpen → Body
  account_ack : AccountAck → Body
  query_req : QueryReq → Body
  query_ack : QueryAck → Body
  detail_req : DetailReq → Body
  detail_ack : DetailAck → Body
  balance_req : BalanceReq → Body
  balance_ack : BalanceAck → Body
  leg_req : OrderReq → Body

abbrev pub type_of : Body → ℕ
type_of (order_req _) = msg_order_req
type_of (order_ack _) = msg_order_ack
type_of (cancel_req _) = msg_cancel_req
type_of (cancel_ack _) = msg_cancel_ack
type_of (modify_req _) = msg_modify_req
type_of (modify_ack _) = msg_modify_ack
type_of (fill_noti _) = msg_fill_noti
type_of (login_req _) = msg_login_req
type_of (login_ack _) = msg_login_ack
type_of (resend_req _) = msg_resend_req
type_of (gap_fill _) = msg_gap_fill
type_of (book_req _) = msg_book_req
type_of (book_ack _) = msg_book_ack
type_of (book_feed _) = msg_book_feed
type_of (symbol_set _) = msg_symbol_set
type_of (symbol_ack _) = msg_symbol_ack
type_of (tick_set _) = msg_tick_set
type_of (tick_ack _) = msg_tick_ack
type_of (leg_ack _) = msg_leg_ack
type_of (account_open _) = msg_account_open
type_of (account_ack _) = msg_account_ack
type_of (query_req _) = msg_query_req
type_of (query_ack _) = msg_query_ack
type_of (detail_req _) = msg_detail_req
type_of (detail_ack _) = msg_detail_ack
type_of (balance_req _) = msg_balance_req
type_of (balance_ack _) = msg_balance_ack
type_of (leg_req _) = msg_leg_req

abbrev pub len_of : Body → ℕ
len_of (order_req _) = msg_order_req_len
len_of (order_ack _) = msg_order_ack_len
len_of (cancel_req _) = msg_cancel_req_len
len_of (cancel_ack _) = msg_cancel_ack_len
len_of (modify_req _) = msg_modify_req_len
len_of (modify_ack _) = msg_modify_ack_len
len_of (fill_noti _) = msg_fill_noti_len
len_of (login_req _) = msg_login_req_len
len_of (login_ack _) = msg_login_ack_len
len_of (resend_req _) = msg_resend_req_len
len_of (gap_fill _) = msg_gap_fill_len
len_of (book_req _) = msg_book_req_len
len_of (book_ack _) = msg_book_ack_len
len_of (book_feed _) = msg_book_feed_len
len_of (symbol_set _) = msg_symbol_set_len
len_of (symbol_ack _) = msg_symbol_ack_len
len_of (tick_set _) = msg_tick_set_len
len_of (tick_ack _) = msg_tick_ack_len
len_of (leg_ack _) = msg_leg_ack_len
len_of (account_open _) = msg_account_open_len
len_of (account_ack _) = msg_account_ack_len
len_of (query_req _) = msg_query_req_len
len_of (query_ack _) = msg_query_ack_len
len_of (detail_req _) = msg_detail_req_len
len_of (detail_ack _) = msg_detail_ack_len
len_of (balance_req _) = msg_balance_req_len
len_of (balance_ack _) = msg_balance_ack_len
len_of (leg_req _) = msg_leg_req_len

-- The encoder of a body.
abbrev pub encode_body : Body → (cap : ℕ) → Result Bytes
encode_body (order_req m) = msg_encode_order_req m
encode_body (order_ack m) = msg_encode_order_ack m
encode_body (cancel_req m) = msg_encode_cancel_req m
encode_body (cancel_ack m) = msg_encode_cancel_ack m
encode_body (modify_req m) = msg_encode_modify_req m
encode_body (modify_ack m) = msg_encode_modify_ack m
encode_body (fill_noti m) = msg_encode_fill_noti m
encode_body (login_req m) = msg_encode_login_req m
encode_body (login_ack m) = msg_encode_login_ack m
encode_body (resend_req m) = msg_encode_resend_req m
encode_body (gap_fill m) = msg_encode_gap_fill m
encode_body (book_req m) = msg_encode_book_req m
encode_body (book_ack m) = msg_encode_book_ack m
encode_body (book_feed m) = msg_encode_book_feed m
encode_body (symbol_set m) = msg_encode_symbol_set m
encode_body (symbol_ack m) = msg_encode_symbol_ack m
encode_body (tick_set m) = msg_encode_tick_set m
encode_body (tick_ack m) = msg_encode_tick_ack m
encode_body (leg_ack m) = msg_encode_leg_ack m
encode_body (account_open m) = msg_encode_account_open m
encode_body (account_ack m) = msg_encode_account_ack m
encode_body (query_req m) = msg_encode_query_req m
encode_body (query_ack m) = msg_encode_query_ack m
encode_body (detail_req m) = msg_encode_detail_req m
encode_body (detail_ack m) = msg_encode_detail_ack m
encode_body (balance_req m) = msg_encode_balance_req m
encode_body (balance_ack m) = msg_encode_balance_ack m
encode_body (leg_req m) = msg_encode_order_req m

abbrev pub on_done : {A B : Type 0} → (A → B) → Result A → Result B
on_done f (done a) = done (f a)
on_done f (fail rc) = fail rc

-- The decoder that a receiver picks by the type in the header.
abbrev pub decode_body : (type : ℕ) → Bytes → Result Body
decode_body type w =
    if type == msg_order_req
    then on_done order_req (msg_decode_order_req w)
    else if type == msg_order_ack
    then on_done order_ack (msg_decode_order_ack w)
    else if type == msg_cancel_req
    then on_done cancel_req (msg_decode_cancel_req w)
    else if type == msg_cancel_ack
    then on_done cancel_ack (msg_decode_cancel_ack w)
    else if type == msg_modify_req
    then on_done modify_req (msg_decode_modify_req w)
    else if type == msg_modify_ack
    then on_done modify_ack (msg_decode_modify_ack w)
    else if type == msg_fill_noti
    then on_done fill_noti (msg_decode_fill_noti w)
    else if type == msg_login_req
    then on_done login_req (msg_decode_login_req w)
    else if type == msg_login_ack
    then on_done login_ack (msg_decode_login_ack w)
    else if type == msg_resend_req
    then on_done resend_req (msg_decode_resend_req w)
    else if type == msg_gap_fill
    then on_done gap_fill (msg_decode_gap_fill w)
    else if type == msg_book_req
    then on_done book_req (msg_decode_book_req w)
    else if type == msg_book_ack
    then on_done book_ack (msg_decode_book_ack w)
    else if type == msg_book_feed
    then on_done book_feed (msg_decode_book_feed w)
    else if type == msg_symbol_set
    then on_done symbol_set (msg_decode_symbol_set w)
    else if type == msg_symbol_ack
    then on_done symbol_ack (msg_decode_symbol_ack w)
    else if type == msg_tick_set
    then on_done tick_set (msg_decode_tick_set w)
    else if type == msg_tick_ack
    then on_done tick_ack (msg_decode_tick_ack w)
    else if type == msg_leg_ack
    then on_done leg_ack (msg_decode_leg_ack w)
    else if type == msg_account_open
    then on_done account_open (msg_decode_account_open w)
    else if type == msg_account_ack
    then on_done account_ack (msg_decode_account_ack w)
    else if type == msg_query_req
    then on_done query_req (msg_decode_query_req w)
    else if type == msg_query_ack
    then on_done query_ack (msg_decode_query_ack w)
    else if type == msg_detail_req
    then on_done detail_req (msg_decode_detail_req w)
    else if type == msg_detail_ack
    then on_done detail_ack (msg_decode_detail_ack w)
    else if type == msg_balance_req
    then on_done balance_req (msg_decode_balance_req w)
    else if type == msg_balance_ack
    then on_done balance_ack (msg_decode_balance_ack w)
    else if type == msg_leg_req
    then on_done leg_req (msg_decode_order_req w)
    else fail not_supported
