-- ===== src/Framer/Tests.antt =====
-- Runs of the framer, at streams of two messages (fep/src/framer.c).
use trading_sor_mock.Base.{◌+◌, ◌≤◌, ◌≡◌, refl, ◌↔◌, List, [], ◌∷◌, ◌++◌, arith, take, drop}
use trading_sor_mock.Base.Int.{pos, negsuc}
use trading_sor_mock.Types.{ok}
use trading_sor_mock.Wire.{
  Bytes, wire_put_u8, wire_put_u16, wire_put_u32, wire_put_u64, wire_put_i64, wire_get_u8,
  wire_get_u16, wire_get_u32, wire_get_u64, wire_get_i64, zeros, wire_frame_max, header_bytes,
  wire_decode_header,
}
use trading_sor_mock.Framer.{
  Framer, framer_init, framer_pending, make_room, framer_push, Message, framer_next,
}
use trading_sor_mock.Framer.Stream.{scan, parse, drain, waiting}
use trading_sor_mock.Framer.Push.{framer_push_accepts}
use trading_sor_mock.Framer.Pieces.{delivered, concat, delivered-parse}
use trading_sor_mock.Framer.Delivery.{
  frame_bytes, stream_bytes, MessageFits, delivered-stream_bytes,
}

abbrev hello : Message
hello =
    (record { version = 1; type = 16; body_len = 3; seq = 7; ts = pos 1000 }, 104 ∷ 101 ∷ 121 ∷ [])

abbrev bye : Message
bye = (record { version = 1; type = 17; body_len = 0; seq = 8; ts = negsuc 4 }, [])

abbrev stream : Bytes
stream = stream_bytes (hello ∷ bye ∷ [])

-- The cut goes through the first header and through the second one.
abbrev pieces : List Bytes
pieces = take 5 stream ∷ take 25 (drop 5 stream) ∷ drop 30 stream ∷ []

hello_fits : MessageFits hello
hello_fits = (
  record {
    version_ok = refl;
    type_ok = omega arith;
    body_ok = omega arith;
    seq_ok = omega arith;
    ts_ok = omega arith;
  },
  refl,
)

bye_fits : MessageFits bye
bye_fits = (
  record {
    version_ok = refl;
    type_ok = omega arith;
    body_ok = omega arith;
    seq_ok = omega arith;
    ts_ok = omega arith;
  },
  refl,
)

delivered-stream_bytes_example : delivered framer_init pieces ≡ hello ∷ bye ∷ []
unfolding framer_init framer_push make_room framer_next header_bytes wire_put_u8 wire_put_u16
    wire_put_u32 wire_put_u64 wire_put_i64 wire_get_u8 wire_get_u16 wire_get_u32 wire_get_u64
    wire_get_i64 wire_decode_header drain
delivered-stream_bytes_example =
    delivered-stream_bytes (hello ∷ bye ∷ []) pieces (hello_fits, (bye_fits, tt)) refl
      (refl, (refl, (refl, tt)))

abbrev half_full : Framer
half_full = record { buf = 1 ∷ 2 ∷ 3 ∷ 4 ∷ []; off = 3; err = ok }

framer_push_accepts_example :
    ((framer_push half_full (9 ∷ [])).0 ≡ ok) ↔ (framer_pending half_full + 1 ≤ wire_frame_max)
framer_push_accepts_example =
    framer_push_accepts half_full (9 ∷ []) (omega arith) (omega arith) refl

-- A stream that breaks after its first message.
abbrev damaged : Bytes
damaged = frame_bytes hello ++ zeros 24

delivered-parse_example :
    delivered framer_init (take 10 damaged ∷ drop 10 damaged ∷ [])
    ≡ (parse 100 (waiting framer_init ++ concat (take 10 damaged ∷ drop 10 damaged ∷ []))).messages
unfolding framer_init framer_push make_room framer_next header_bytes wire_put_u8 wire_put_u16
    wire_put_u32 wire_put_u64 wire_put_i64 wire_get_u8 wire_get_u16 wire_get_u32 wire_get_u64
    wire_get_i64 wire_decode_header drain scan
delivered-parse_example =
    delivered-parse 100 framer_init (take 10 damaged ∷ drop 10 damaged ∷ []) (omega arith) refl
      (refl, (refl, tt)) (omega arith)
