-- ===== src/Msg/Market.antt =====
-- core/src/msg.c and core/include/msg.h: the bodies of the messages on books and symbols.
pub mod RoundTrip
use trading_sor_mock.Msg.Reader.{◌>>=◌}
use trading_sor_mock.Base.{ℕ, List, [], ◌∷◌, length}
use trading_sor_mock.Base.Int.{ℤ}
use trading_sor_mock.Types.{Result}
use trading_sor_mock.Wire.{Bytes, wire_put_u8, wire_put_i32, wire_put_i64, wire_put_str}
use trading_sor_mock.Msg.Lengths.{
  msg_symbol_len, msg_book_depth, msg_book_req_len, msg_book_ack_len, msg_book_feed_len,
  msg_symbol_set_len, msg_symbol_ack_len,
}
use trading_sor_mock.Msg.Reader.{
  written, Reader, pure, get_u8, get_i32, get_i64, get_str, put_i32s, get_i32s, enc_check,
  dec_check, unless_failed,
}

-- `msg_book_req_t`
pub record BookReq : Type 0 where
  pub symbol : Bytes
  pub market : ℕ

-- The bytes of a `msg_book_req_t`, field by field.
abbrev pub book_req_bytes : BookReq → Bytes
book_req_bytes m = written (wire_put_str msg_symbol_len m.symbol ∷ wire_put_u8 m.market ∷ [])

unfoldable pub msg_encode_book_req : BookReq → (cap : ℕ) → Result Bytes
msg_encode_book_req m cap = unless_failed (enc_check cap msg_book_req_len) (book_req_bytes m)

abbrev pub read_book_req : Reader BookReq
read_book_req = do
  symbol ← get_str msg_symbol_len
  market ← get_u8
  pure (record { symbol = symbol; market = market })

unfoldable pub msg_decode_book_req : Bytes → Result BookReq
msg_decode_book_req buf =
    unless_failed (dec_check (length buf) msg_book_req_len) (read_book_req buf).0

-- `msg_book_ack_t`
pub record BookAck : Type 0 where
  pub symbol : Bytes
  pub market : ℕ
  pub bid_price : List ℤ
  pub bid_qty : List ℤ
  pub ask_price : List ℤ
  pub ask_qty : List ℤ
  pub last_price : ℤ
  pub traded_qty : ℤ

-- The bytes of a `msg_book_ack_t`, field by field.
abbrev pub book_ack_bytes : BookAck → Bytes
book_ack_bytes m = written (
    wire_put_str msg_symbol_len m.symbol
    ∷ wire_put_u8 m.market
    ∷ put_i32s m.bid_price
    ∷ put_i32s m.bid_qty
    ∷ put_i32s m.ask_price
    ∷ put_i32s m.ask_qty
    ∷ wire_put_i32 m.last_price
    ∷ wire_put_i64 m.traded_qty
    ∷ [])

unfoldable pub msg_encode_book_ack : BookAck → (cap : ℕ) → Result Bytes
msg_encode_book_ack m cap = unless_failed (enc_check cap msg_book_ack_len) (book_ack_bytes m)

abbrev pub read_book_ack : Reader BookAck
read_book_ack = do
  symbol ← get_str msg_symbol_len
  market ← get_u8
  bid_price ← get_i32s msg_book_depth
  bid_qty ← get_i32s msg_book_depth
  ask_price ← get_i32s msg_book_depth
  ask_qty ← get_i32s msg_book_depth
  last_price ← get_i32
  traded_qty ← get_i64
  pure (record {
    symbol = symbol;
    market = market;
    bid_price = bid_price;
    bid_qty = bid_qty;
    ask_price = ask_price;
    ask_qty = ask_qty;
    last_price = last_price;
    traded_qty = traded_qty;
  })

unfoldable pub msg_decode_book_ack : Bytes → Result BookAck
msg_decode_book_ack buf =
    unless_failed (dec_check (length buf) msg_book_ack_len) (read_book_ack buf).0

-- `msg_book_feed_t`
pub record BookFeed : Type 0 where
  pub symbol : Bytes
  pub market : ℕ
  pub flags : ℕ
  pub feed_ts : ℤ
  pub bid_price : List ℤ
  pub bid_qty : List ℤ
  pub ask_price : List ℤ
  pub ask_qty : List ℤ

-- The bytes of a `msg_book_feed_t`, field by field.
abbrev pub book_feed_bytes : BookFeed → Bytes
book_feed_bytes m = written (
    wire_put_str msg_symbol_len m.symbol
    ∷ wire_put_u8 m.market
    ∷ wire_put_u8 m.flags
    ∷ wire_put_i64 m.feed_ts
    ∷ put_i32s m.bid_price
    ∷ put_i32s m.bid_qty
    ∷ put_i32s m.ask_price
    ∷ put_i32s m.ask_qty
    ∷ [])

unfoldable pub msg_encode_book_feed : BookFeed → (cap : ℕ) → Result Bytes
msg_encode_book_feed m cap = unless_failed (enc_check cap msg_book_feed_len) (book_feed_bytes m)

abbrev pub read_book_feed : Reader BookFeed
read_book_feed = do
  symbol ← get_str msg_symbol_len
  market ← get_u8
  flags ← get_u8
  feed_ts ← get_i64
  bid_price ← get_i32s msg_book_depth
  bid_qty ← get_i32s msg_book_depth
  ask_price ← get_i32s msg_book_depth
  ask_qty ← get_i32s msg_book_depth
  pure (record {
    symbol = symbol;
    market = market;
    flags = flags;
    feed_ts = feed_ts;
    bid_price = bid_price;
    bid_qty = bid_qty;
    ask_price = ask_price;
    ask_qty = ask_qty;
  })

unfoldable pub msg_decode_book_feed : Bytes → Result BookFeed
msg_decode_book_feed buf =
    unless_failed (dec_check (length buf) msg_book_feed_len) (read_book_feed buf).0

-- `msg_symbol_set_t`
pub record SymbolSet : Type 0 where
  pub symbol : Bytes
  pub ref_price : ℤ
  pub kind : ℕ

-- The bytes of a `msg_symbol_set_t`, field by field.
abbrev pub symbol_set_bytes : SymbolSet → Bytes
symbol_set_bytes m =
    written
      (wire_put_str msg_symbol_len m.symbol ∷ wire_put_i32 m.ref_price ∷ wire_put_u8 m.kind ∷ [])

unfoldable pub msg_encode_symbol_set : SymbolSet → (cap : ℕ) → Result Bytes
msg_encode_symbol_set m cap = unless_failed (enc_check cap msg_symbol_set_len) (symbol_set_bytes m)

abbrev pub read_symbol_set : Reader SymbolSet
read_symbol_set = do
  symbol ← get_str msg_symbol_len
  ref_price ← get_i32
  kind ← get_u8
  pure (record { symbol = symbol; ref_price = ref_price; kind = kind })

unfoldable pub msg_decode_symbol_set : Bytes → Result SymbolSet
msg_decode_symbol_set buf =
    unless_failed (dec_check (length buf) msg_symbol_set_len) (read_symbol_set buf).0

-- `msg_symbol_ack_t`
pub record SymbolAck : Type 0 where
  pub symbol : Bytes
  pub ref_price : ℤ
  pub code : ℤ
  pub kind : ℕ
  pub venue : ℕ

-- The bytes of a `msg_symbol_ack_t`, field by field.
abbrev pub symbol_ack_bytes : SymbolAck → Bytes
symbol_ack_bytes m = written (
    wire_put_str msg_symbol_len m.symbol
    ∷ wire_put_i32 m.ref_price
    ∷ wire_put_i32 m.code
    ∷ wire_put_u8 m.kind
    ∷ wire_put_u8 m.venue
    ∷ [])

unfoldable pub msg_encode_symbol_ack : SymbolAck → (cap : ℕ) → Result Bytes
msg_encode_symbol_ack m cap = unless_failed (enc_check cap msg_symbol_ack_len) (symbol_ack_bytes m)

abbrev pub read_symbol_ack : Reader SymbolAck
read_symbol_ack = do
  symbol ← get_str msg_symbol_len
  ref_price ← get_i32
  code ← get_i32
  kind ← get_u8
  venue ← get_u8
  pure (record { symbol = symbol; ref_price = ref_price; code = code; kind = kind; venue = venue })

unfoldable pub msg_decode_symbol_ack : Bytes → Result SymbolAck
msg_decode_symbol_ack buf =
    unless_failed (dec_check (length buf) msg_symbol_ack_len) (read_symbol_ack buf).0
