-- ===== src/Msg/Delivery.antt =====
-- From the fields of messages to those that the receiver decodes: core/src/msg.c, core/src/wire.c and
-- fep/src/framer.c together.
use trading_sor_mock.Base.{
  ℕ, ◌^◌, ◌≤◌, ◌<◌, ◌≡◌, refl, sym, ap, ◌∙◌, List, [], ◌∷◌, arith, subst, length, All,
}
use trading_sor_mock.Base.Int.{ℤ}
use trading_sor_mock.Types.{Result, done, fail}
use trading_sor_mock.Wire.{Bytes, wire_version, wire_body_max, WireHeader}
use trading_sor_mock.Wire.Integers.{IsInt64}
use trading_sor_mock.Framer.{framer_init, Message}
use trading_sor_mock.Framer.Pieces.{delivered, Accepted, concat}
use trading_sor_mock.Framer.Delivery.{stream_bytes, MessageFits, delivered-stream_bytes}
use trading_sor_mock.Msg.Body.{
  Body, order_req, order_ack, cancel_req, cancel_ack, modify_req, modify_ack, fill_noti, login_req,
  login_ack, resend_req, gap_fill, book_req, book_ack, book_feed, symbol_set, symbol_ack, tick_set,
  tick_ack, leg_ack, account_open, account_ack, query_req, query_ack, detail_req, detail_ack,
  balance_req, balance_ack, leg_req, type_of, len_of, encode_body, decode_body,
}
use trading_sor_mock.Msg.Body.Recovery.{BodyFits, decode_body-encode_body}

-- A body to send, with the sequence number and the time of its header.
pub record Sending : Type 0 where
  pub body : Body
  pub seq : ℕ
  pub ts : ℤ

abbrev pub SendingFits : Sending → Type 0
SendingFits s = BodyFits s.body × (s.seq < 2 ^ 64) × IsInt64 s.ts

abbrev encoded_body : Result Bytes → Bytes
encoded_body (done w) = w
encoded_body (fail _) = []

-- The header of a body, as `enqueue` of fep/src/session.c fills it.
abbrev header_for : Sending → Bytes → WireHeader
header_for s w = record {
  version = wire_version;
  type = type_of s.body;
  body_len = length w;
  seq = s.seq;
  ts = s.ts;
}

-- The message: the encoded body under a header with its type and length.
abbrev pub message_of : Sending → Message
message_of s = let w = encoded_body (encode_body s.body wire_body_max) in (header_for s w, w)

-- What the receiver decodes of a message, by the type in its header.
abbrev pub decode_message : Message → Result Body
decode_message m = decode_body m.0.type m.1

abbrev pub messages_of : List Sending → List Message
messages_of [] = []
messages_of (s ∷ ss) = message_of s ∷ messages_of ss

abbrev pub decode_all : List Message → List (Result Body)
decode_all [] = []
decode_all (m ∷ ms) = decode_message m ∷ decode_all ms

abbrev pub bodies_of : List Sending → List (Result Body)
bodies_of [] = []
bodies_of (s ∷ ss) = done s.body ∷ bodies_of ss

type_of-lt : (b : Body) → type_of b < 2 ^ 8
type_of-lt (order_req _) = omega arith
type_of-lt (order_ack _) = omega arith
type_of-lt (cancel_req _) = omega arith
type_of-lt (cancel_ack _) = omega arith
type_of-lt (modify_req _) = omega arith
type_of-lt (modify_ack _) = omega arith
type_of-lt (fill_noti _) = omega arith
type_of-lt (login_req _) = omega arith
type_of-lt (login_ack _) = omega arith
type_of-lt (resend_req _) = omega arith
type_of-lt (gap_fill _) = omega arith
type_of-lt (book_req _) = omega arith
type_of-lt (book_ack _) = omega arith
type_of-lt (book_feed _) = omega arith
type_of-lt (symbol_set _) = omega arith
type_of-lt (symbol_ack _) = omega arith
type_of-lt (tick_set _) = omega arith
type_of-lt (tick_ack _) = omega arith
type_of-lt (leg_ack _) = omega arith
type_of-lt (account_open _) = omega arith
type_of-lt (account_ack _) = omega arith
type_of-lt (query_req _) = omega arith
type_of-lt (query_ack _) = omega arith
type_of-lt (detail_req _) = omega arith
type_of-lt (detail_ack _) = omega arith
type_of-lt (balance_req _) = omega arith
type_of-lt (balance_ack _) = omega arith
type_of-lt (leg_req _) = omega arith

len_of-le : (b : Body) → len_of b ≤ 1024
len_of-le (order_req _) = omega arith
len_of-le (order_ack _) = omega arith
len_of-le (cancel_req _) = omega arith
len_of-le (cancel_ack _) = omega arith
len_of-le (modify_req _) = omega arith
len_of-le (modify_ack _) = omega arith
len_of-le (fill_noti _) = omega arith
len_of-le (login_req _) = omega arith
len_of-le (login_ack _) = omega arith
len_of-le (resend_req _) = omega arith
len_of-le (gap_fill _) = omega arith
len_of-le (book_req _) = omega arith
len_of-le (book_ack _) = omega arith
len_of-le (book_feed _) = omega arith
len_of-le (symbol_set _) = omega arith
len_of-le (symbol_ack _) = omega arith
len_of-le (tick_set _) = omega arith
len_of-le (tick_ack _) = omega arith
len_of-le (leg_ack _) = omega arith
len_of-le (account_open _) = omega arith
len_of-le (account_ack _) = omega arith
len_of-le (query_req _) = omega arith
len_of-le (query_ack _) = omega arith
len_of-le (detail_req _) = omega arith
len_of-le (detail_ack _) = omega arith
len_of-le (balance_req _) = omega arith
len_of-le (balance_ack _) = omega arith
len_of-le (leg_req _) = omega arith

-- The message of a body that fits, fits its header and decodes to the body.
message_fits :
    (s : Sending)
    → SendingFits s
    → MessageFits (message_of s) × (decode_message (message_of s) ≡ done s.body)
message_fits s (fits, seq_fits, ts_fits) =
    let (_, (w, encoded, counted, decoded)) =
      decode_body-encode_body s.body wire_body_max fits (omega (arith, len_of-le s.body)) in
    subst
      (λ (r : Result Bytes).
        MessageFits (header_for s (encoded_body r), encoded_body r)
        × (decode_body (type_of s.body) (encoded_body r) ≡ done s.body))
      (sym encoded)
      (
        (
          record {
            version_ok = refl;
            type_ok = type_of-lt s.body;
            body_ok = omega (arith, counted, len_of-le s.body);
            seq_ok = seq_fits;
            ts_ok = ts_fits;
          },
          refl,
        ),
        decoded,
      )

messages_fit : (ss : List Sending) → All SendingFits ss → All MessageFits (messages_of ss)
messages_fit [] _ = tt
messages_fit (s ∷ ss) (fit, fits) = ((message_fits s fit).0, messages_fit ss fits)

decode_all-messages_of :
    (ss : List Sending) → All SendingFits ss → decode_all (messages_of ss) ≡ bodies_of ss
decode_all-messages_of [] _ = refl
decode_all-messages_of (s ∷ ss) (fit, fits) =
    rw ((message_fits s fit).1, decode_all-messages_of ss fits) refl

-- Bodies that fit, encoded, put under their headers, sent one behind the other and arriving in any
-- pieces that the framer accepts: the receiver decodes exactly these bodies, each once and in order.
pub decode_all-delivered :
    (ss : List Sending) (pieces : List Bytes)
    → All SendingFits ss
    → concat pieces ≡ stream_bytes (messages_of ss)
    → Accepted framer_init pieces
    → decode_all (delivered framer_init pieces) ≡ bodies_of ss
decode_all-delivered ss pieces fits cut accepted =
    ap decode_all
      (delivered-stream_bytes (messages_of ss) pieces (messages_fit ss fits) cut accepted)
    ∙ decode_all-messages_of ss fits
