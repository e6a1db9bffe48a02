-- ===== src/Msg/Tests.antt =====
-- Runs of the messages, and the theorems at concrete ones (core/src/msg.c).
use trading_sor_mock.Base.{◌≡◌, refl, some, List, [], ◌∷◌, arith, take, drop}
use trading_sor_mock.Base.Int.{pos, negsuc}
use trading_sor_mock.Types.{done}
use trading_sor_mock.Wire.{
  Bytes, wire_put_u8, wire_put_u16, wire_put_u32, wire_put_u64, wire_put_i32, wire_put_i64,
  wire_get_u8, wire_get_u16, wire_get_u32, wire_get_u64, wire_get_i64, wire_put_str, header_bytes,
  wire_decode_header,
}
use trading_sor_mock.Framer.{framer_init, make_room, framer_push, framer_next}
use trading_sor_mock.Framer.Stream.{drain}
use trading_sor_mock.Framer.Pieces.{delivered}
use trading_sor_mock.Framer.Delivery.{stream_bytes}
use trading_sor_mock.Msg.Types.{msg_order_req, msg_body_len}
use trading_sor_mock.Msg.Reader.{enc_check}
use trading_sor_mock.Msg.Orders.{OrderReq, msg_encode_order_req}
use trading_sor_mock.Msg.Session.{LoginAck, msg_encode_login_ack}
use trading_sor_mock.Msg.Body.{order_req, login_ack}
use trading_sor_mock.Msg.Body.Recovery.{BodyFits, Recovered, decode_body-encode_body}
use trading_sor_mock.Msg.Delivery.{Sending, messages_of, decode_all, decode_all-delivered}

-- A sell order of account "7" for symbol "A".
abbrev order : OrderReq
order = record {
  account = 55 ∷ [];
  symbol = 65 ∷ [];
  cl_ord_id = 12;
  side = 1;
  type = 0;
  market = 255;
  price = pos 70_000;
  qty = pos 3;
}

order_fits : BodyFits (order_req order)
order_fits = record {
  account_ok = (((omega arith), tt), omega arith);
  symbol_ok = (((omega arith), tt), omega arith);
  cl_ord_id_ok = omega arith;
  side_ok = omega arith;
  type_ok = omega arith;
  market_ok = omega arith;
  price_ok = (omega arith, omega arith);
  qty_ok = (omega arith, omega arith);
}

abbrev refusal : LoginAck
refusal = record { result = negsuc 18 }

refusal_fits : BodyFits (login_ack refusal)
refusal_fits = record { result_ok = (omega arith, omega arith) }

decode_body-encode_body_example :
    (msg_body_len msg_order_req ≡ some 39) × Recovered (order_req order) 100
decode_body-encode_body_example =
    decode_body-encode_body (order_req order) 100 order_fits (omega arith)

abbrev sendings : List Sending
sendings =
    record { body = order_req order; seq = 1; ts = pos 5_000_000 }
    ∷ record { body = login_ack refusal; seq = 2; ts = pos 6_000_000 }
    ∷ []

-- Cut inside the first header, and inside the second message.
abbrev cut_stream : Bytes → List Bytes
cut_stream stream = take 3 stream ∷ take 70 (drop 3 stream) ∷ drop 73 stream ∷ []

login_ack_run : msg_encode_login_ack refusal 4 ≡ done (255 ∷ 255 ∷ 255 ∷ 237 ∷ [])
unfolding msg_encode_login_ack enc_check wire_put_i32 wire_put_u32
login_ack_run = refl

decode_all-delivered_example :
    decode_all (delivered framer_init (cut_stream (stream_bytes (messages_of sendings))))
    ≡ done (order_req order) ∷ done (login_ack refusal) ∷ []
unfolding framer_init framer_push make_room framer_next header_bytes wire_put_u8 wire_put_u16
    wire_put_u32 wire_put_u64 wire_put_i32 wire_put_i64 wire_put_str wire_get_u8 wire_get_u16
    wire_get_u32 wire_get_u64 wire_get_i64 wire_decode_header drain msg_encode_order_req
    msg_encode_login_ack enc_check
decode_all-delivered_example =
    decode_all-delivered sendings (cut_stream (stream_bytes (messages_of sendings)))
      (
        (order_fits, omega arith, (omega arith, omega arith)),
        ((refusal_fits, omega arith, (omega arith, omega arith)), tt),
      )
      refl (refl, (refl, (refl, tt)))
