-- ===== src/Msg/Body/Recovery.antt =====
-- Every message is read back from what its encoder writes (core/src/msg.c).
use trading_sor_mock.Base.{ℕ, ◌≤◌, ◌≡◌, refl, ap, some, length}
use trading_sor_mock.Types.{Result, done}
use trading_sor_mock.Wire.{Bytes}
use trading_sor_mock.Msg.Types.{msg_body_len}
use trading_sor_mock.Msg.Reader.{written}
use trading_sor_mock.Msg.Codec.{Recovers}
use trading_sor_mock.Msg.Orders.RoundTrip.{
  OrderReqFits, msg_decode-msg_encode_order_req, OrderAckFits, msg_decode-msg_encode_order_ack,
  CancelReqFits, msg_decode-msg_encode_cancel_req, CancelAckFits, msg_decode-msg_encode_cancel_ack,
  ModifyReqFits, msg_decode-msg_encode_modify_req, ModifyAckFits, msg_decode-msg_encode_modify_ack,
}
use trading_sor_mock.Msg.Session.RoundTrip.{
  FillNotiFits, msg_decode-msg_encode_fill_noti, LoginReqFits, msg_decode-msg_encode_login_req,
  LoginAckFits, msg_decode-msg_encode_login_ack, ResendReqFits, msg_decode-msg_encode_resend_req,
  GapFillFits, msg_decode-msg_encode_gap_fill,
}
use trading_sor_mock.Msg.Market.RoundTrip.{
  BookReqFits, msg_decode-msg_encode_book_req, BookAckFits, msg_decode-msg_encode_book_ack,
  BookFeedFits, msg_decode-msg_encode_book_feed, SymbolSetFits, msg_decode-msg_encode_symbol_set,
  SymbolAckFits, msg_decode-msg_encode_symbol_ack,
}
use trading_sor_mock.Msg.Ledger.RoundTrip.{
  TickSetFits, msg_decode-msg_encode_tick_set, TickAckFits, msg_decode-msg_encode_tick_ack,
  LegAckFits, msg_decode-msg_encode_leg_ack, AccountOpenFits, msg_decode-msg_encode_account_open,
  AccountAckFits, msg_decode-msg_encode_account_ack,
}
use trading_sor_mock.Msg.Queries.RoundTrip.{
  QueryReqFits, msg_decode-msg_encode_query_req, QueryAckFits, msg_decode-msg_encode_query_ack,
  DetailReqFits, msg_decode-msg_encode_detail_req, DetailAckFits, msg_decode-msg_encode_detail_ack,
  BalanceReqFits, msg_decode-msg_encode_balance_req, BalanceAckFits,
  msg_decode-msg_encode_balance_ack,
}
use trading_sor_mock.Msg.Body.{
  Body, order_req, order_ack, cancel_req, cancel_ack, modify_req, modify_ack, fill_noti, login_req,
  login_ack, resend_req, gap_fill, book_req, book_ack, book_feed, symbol_set, symbol_ack, tick_set,
  tick_ack, leg_ack, account_open, account_ack, query_req, query_ack, detail_req, detail_ack,
  balance_req, balance_ack, leg_req, type_of, len_of, encode_body, on_done, decode_body,
}

-- What fits the fields of a body.
abbrev pub BodyFits : Body → Type 0
BodyFits (order_req m) = OrderReqFits m
BodyFits (order_ack m) = OrderAckFits m
BodyFits (cancel_req m) = CancelReqFits m
BodyFits (cancel_ack m) = CancelAckFits m
BodyFits (modify_req m) = ModifyReqFits m
BodyFits (modify_ack m) = ModifyAckFits m
BodyFits (fill_noti m) = FillNotiFits m
BodyFits (login_req m) = LoginReqFits m
BodyFits (login_ack m) = LoginAckFits m
BodyFits (resend_req m) = ResendReqFits m
BodyFits (gap_fill m) = GapFillFits m
BodyFits (book_req m) = BookReqFits m
BodyFits (book_ack m) = BookAckFits m
BodyFits (book_feed m) = BookFeedFits m
BodyFits (symbol_set m) = SymbolSetFits m
BodyFits (symbol_ack m) = SymbolAckFits m
BodyFits (tick_set m) = TickSetFits m
BodyFits (tick_ack m) = TickAckFits m
BodyFits (leg_ack m) = LegAckFits m
BodyFits (account_open m) = AccountOpenFits m
BodyFits (account_ack m) = AccountAckFits m
BodyFits (query_req m) = QueryReqFits m
BodyFits (query_ack m) = QueryAckFits m
BodyFits (detail_req m) = DetailReqFits m
BodyFits (detail_ack m) = DetailAckFits m
BodyFits (balance_req m) = BalanceReqFits m
BodyFits (balance_ack m) = BalanceAckFits m
BodyFits (leg_req m) = OrderReqFits m

-- Some bytes that the encoder writes, as many as the table says, from which the decoder of the type
-- gives the body again.
abbrev pub Recovered : Body → ℕ → Type 0
Recovered b cap =
    (w : Bytes) × (encode_body b cap ≡ done w)
    × (length w ≡ len_of b)
    × (decode_body (type_of b) w ≡ done b)

under :
    {A B : Type 0} {n : ℕ} {encoded : Result Bytes} {decode : Bytes → Result A} {a : A} (f : A → B)
    → Recovers n encoded decode a
    → (w : Bytes) × (encoded ≡ done w) × (length w ≡ n) × (on_done f (decode w) ≡ done (f a))
under f (w, written, counted, read) = (w, written, counted, ap (on_done f) read)

-- A body whose fields fit, encoded into a buffer that has room for it, gives as many bytes as
-- `msg_body_len` says of its type, and decoding them by that type gives the same body: for each of the
-- 28 types that have a body.
pub decode_body-encode_body :
    (b : Body) (cap : ℕ)
    → BodyFits b
    → len_of b ≤ cap
    → (msg_body_len (type_of b) ≡ some (len_of b)) × Recovered b cap
unfolding msg_body_len
decode_body-encode_body (order_req m) cap fits room =
    (refl, under order_req (msg_decode-msg_encode_order_req m cap fits room))
decode_body-encode_body (order_ack m) cap fits room =
    (refl, under order_ack (msg_decode-msg_encode_order_ack m cap fits room))
decode_body-encode_body (cancel_req m) cap fits room =
    (refl, under cancel_req (msg_decode-msg_encode_cancel_req m cap fits room))
decode_body-encode_body (cancel_ack m) cap fits room =
    (refl, under cancel_ack (msg_decode-msg_encode_cancel_ack m cap fits room))
decode_body-encode_body (modify_req m) cap fits room =
    (refl, under modify_req (msg_decode-msg_encode_modify_req m cap fits room))
decode_body-encode_body (modify_ack m) cap fits room =
    (refl, under modify_ack (msg_decode-msg_encode_modify_ack m cap fits room))
decode_body-encode_body (fill_noti m) cap fits room =
    (refl, under fill_noti (msg_decode-msg_encode_fill_noti m cap fits room))
decode_body-encode_body (login_req m) cap fits room =
    (refl, under login_req (msg_decode-msg_encode_login_req m cap fits room))
decode_body-encode_body (login_ack m) cap fits room =
    (refl, under login_ack (msg_decode-msg_encode_login_ack m cap fits room))
decode_body-encode_body (resend_req m) cap fits room =
    (refl, under resend_req (msg_decode-msg_encode_resend_req m cap fits room))
decode_body-encode_body (gap_fill m) cap fits room =
    (refl, under gap_fill (msg_decode-msg_encode_gap_fill m cap fits room))
decode_body-encode_body (book_req m) cap fits room =
    (refl, under book_req (msg_decode-msg_encode_book_req m cap fits room))
decode_body-encode_body (book_ack m) cap fits room =
    (refl, under book_ack (msg_decode-msg_encode_book_ack m cap fits room))
decode_body-encode_body (book_feed m) cap fits room =
    (refl, under book_feed (msg_decode-msg_encode_book_feed m cap fits room))
decode_body-encode_body (symbol_set m) cap fits room =
    (refl, under symbol_set (msg_decode-msg_encode_symbol_set m cap fits room))
decode_body-encode_body (symbol_ack m) cap fits room =
    (refl, under symbol_ack (msg_decode-msg_encode_symbol_ack m cap fits room))
decode_body-encode_body (tick_set m) cap fits room =
    (refl, under tick_set (msg_decode-msg_encode_tick_set m cap fits room))
decode_body-encode_body (tick_ack m) cap fits room =
    (refl, under tick_ack (msg_decode-msg_encode_tick_ack m cap fits room))
decode_body-encode_body (leg_ack m) cap fits room =
    (refl, under leg_ack (msg_decode-msg_encode_leg_ack m cap fits room))
decode_body-encode_body (account_open m) cap fits room =
    (refl, under account_open (msg_decode-msg_encode_account_open m cap fits room))
decode_body-encode_body (account_ack m) cap fits room =
    (refl, under account_ack (msg_decode-msg_encode_account_ack m cap fits room))
decode_body-encode_body (query_req m) cap fits room =
    (refl, under query_req (msg_decode-msg_encode_query_req m cap fits room))
decode_body-encode_body (query_ack m) cap fits room =
    (refl, under query_ack (msg_decode-msg_encode_query_ack m cap fits room))
decode_body-encode_body (detail_req m) cap fits room =
    (refl, under detail_req (msg_decode-msg_encode_detail_req m cap fits room))
decode_body-encode_body (detail_ack m) cap fits room =
    (refl, under detail_ack (msg_decode-msg_encode_detail_ack m cap fits room))
decode_body-encode_body (balance_req m) cap fits room =
    (refl, under balance_req (msg_decode-msg_encode_balance_req m cap fits room))
decode_body-encode_body (balance_ack m) cap fits room =
    (refl, under balance_ack (msg_decode-msg_encode_balance_ack m cap fits room))
decode_body-encode_body (leg_req m) cap fits room =
    (refl, under leg_req (msg_decode-msg_encode_order_req m cap fits room))
