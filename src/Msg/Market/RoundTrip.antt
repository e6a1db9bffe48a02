-- ===== src/Msg/Market/RoundTrip.antt =====
-- The bodies on books and symbols are read back (core/src/msg.c).
use trading_sor_mock.Base.{ℕ, ◌^◌, ◌≤◌, ◌<◌, ◌≡◌, refl, length, All}
use trading_sor_mock.Wire.Integers.{IsInt64, IsInt32}
use trading_sor_mock.Msg.Lengths.{
  msg_symbol_len, msg_book_depth, msg_book_req_len, msg_book_ack_len, msg_book_feed_len,
  msg_symbol_set_len, msg_symbol_ack_len,
}
use trading_sor_mock.Msg.Codec.{
  no_field-Sized, field-Sized, get_u8-Codes, get_i32-Codes, get_i64-Codes, StrFits, get_str-Codes,
  get_i32s-Codes, Recovers, codec-Recovers,
}
use trading_sor_mock.Msg.Market.{
  BookReq, book_req_bytes, msg_encode_book_req, read_book_req, msg_decode_book_req, BookAck,
  book_ack_bytes, msg_encode_book_ack, read_book_ack, msg_decode_book_ack, BookFeed,
  book_feed_bytes, msg_encode_book_feed, read_book_feed, msg_decode_book_feed, SymbolSet,
  symbol_set_bytes, msg_encode_symbol_set, read_symbol_set, msg_decode_symbol_set, SymbolAck,
  symbol_ack_bytes, msg_encode_symbol_ack, read_symbol_ack, msg_decode_symbol_ack,
}
use trading_sor_mock.Msg.Reader.{◌>>=◌}

-- What fits the fields of a `msg_book_req_t`.
pub record BookReqFits (m : BookReq) : Type 0 where
  pub symbol_ok : StrFits msg_symbol_len m.symbol
  pub market_ok : m.market < 2 ^ 8

pub msg_decode-msg_encode_book_req :
    (m : BookReq) (cap : ℕ)
    → BookReqFits m
    → msg_book_req_len ≤ cap
    → Recovers msg_book_req_len (msg_encode_book_req m cap) msg_decode_book_req m
unfolding msg_encode_book_req msg_decode_book_req ◌>>=◌
msg_decode-msg_encode_book_req m cap fits room =
    codec-Recovers (book_req_bytes m) read_book_req msg_book_req_len cap room
      (field-Sized (get_str-Codes msg_symbol_len m.symbol fits.symbol_ok)
        (field-Sized (get_u8-Codes m.market fits.market_ok) (no_field-Sized)))
      (rw
        (
          (get_str-Codes msg_symbol_len m.symbol fits.symbol_ok).reads,
          (get_u8-Codes m.market fits.market_ok).reads,
        )
        refl)

-- What fits the fields of a `msg_book_ack_t`.
pub record BookAckFits (m : BookAck) : Type 0 where
  pub symbol_ok : StrFits msg_symbol_len m.symbol
  pub market_ok : m.market < 2 ^ 8
  pub bid_price_ok : (length m.bid_price ≡ msg_book_depth) × All IsInt32 m.bid_price
  pub bid_qty_ok : (length m.bid_qty ≡ msg_book_depth) × All IsInt32 m.bid_qty
  pub ask_price_ok : (length m.ask_price ≡ msg_book_depth) × All IsInt32 m.ask_price
  pub ask_qty_ok : (length m.ask_qty ≡ msg_book_depth) × All IsInt32 m.ask_qty
  pub last_price_ok : IsInt32 m.last_price
  pub traded_qty_ok : IsInt64 m.traded_qty

pub msg_decode-msg_encode_book_ack :
    (m : BookAck) (cap : ℕ)
    → BookAckFits m
    → msg_book_ack_len ≤ cap
    → Recovers msg_book_ack_len (msg_encode_book_ack m cap) msg_decode_book_ack m
unfolding msg_encode_book_ack msg_decode_book_ack ◌>>=◌
msg_decode-msg_encode_book_ack m cap fits room =
    codec-Recovers (book_ack_bytes m) read_book_ack msg_book_ack_len cap room
      (field-Sized (get_str-Codes msg_symbol_len m.symbol fits.symbol_ok) (
        field-Sized (get_u8-Codes m.market fits.market_ok) (
          field-Sized (get_i32s-Codes m.bid_price fits.bid_price_ok.0 fits.bid_price_ok.1) (
            field-Sized (get_i32s-Codes m.bid_qty fits.bid_qty_ok.0 fits.bid_qty_ok.1) (
              field-Sized (get_i32s-Codes m.ask_price fits.ask_price_ok.0 fits.ask_price_ok.1) (
                field-Sized (get_i32s-Codes m.ask_qty fits.ask_qty_ok.0 fits.ask_qty_ok.1) (
                  field-Sized (get_i32-Codes m.last_price fits.last_price_ok) (
                    field-Sized (get_i64-Codes m.traded_qty fits.traded_qty_ok)
                      (no_field-Sized)))))))))
      (rw
        (
          (get_str-Codes msg_symbol_len m.symbol fits.symbol_ok).reads,
          (get_u8-Codes m.market fits.market_ok).reads,
          (get_i32s-Codes m.bid_price fits.bid_price_ok.0 fits.bid_price_ok.1).reads,
          (get_i32s-Codes m.bid_qty fits.bid_qty_ok.0 fits.bid_qty_ok.1).reads,
          (get_i32s-Codes m.ask_price fits.ask_price_ok.0 fits.ask_price_ok.1).reads,
          (get_i32s-Codes m.ask_qty fits.ask_qty_ok.0 fits.ask_qty_ok.1).reads,
          (get_i32-Codes m.last_price fits.last_price_ok).reads,
          (get_i64-Codes m.traded_qty fits.traded_qty_ok).reads,
        )
        refl)

-- What fits the fields of a `msg_book_feed_t`.
pub record BookFeedFits (m : BookFeed) : Type 0 where
  pub symbol_ok : StrFits msg_symbol_len m.symbol
  pub market_ok : m.market < 2 ^ 8
  pub flags_ok : m.flags < 2 ^ 8
  pub feed_ts_ok : IsInt64 m.feed_ts
  pub bid_price_ok : (length m.bid_price ≡ msg_book_depth) × All IsInt32 m.bid_price
  pub bid_qty_ok : (length m.bid_qty ≡ msg_book_depth) × All IsInt32 m.bid_qty
  pub ask_price_ok : (length m.ask_price ≡ msg_book_depth) × All IsInt32 m.ask_price
  pub ask_qty_ok : (length m.ask_qty ≡ msg_book_depth) × All IsInt32 m.ask_qty

pub msg_decode-msg_encode_book_feed :
    (m : BookFeed) (cap : ℕ)
    → BookFeedFits m
    → msg_book_feed_len ≤ cap
    → Recovers msg_book_feed_len (msg_encode_book_feed m cap) msg_decode_book_feed m
unfolding msg_encode_book_feed msg_decode_book_feed ◌>>=◌
msg_decode-msg_encode_book_feed m cap fits room =
    codec-Recovers (book_feed_bytes m) read_book_feed msg_book_feed_len cap room
      (field-Sized (get_str-Codes msg_symbol_len m.symbol fits.symbol_ok) (
        field-Sized (get_u8-Codes m.market fits.market_ok) (
          field-Sized (get_u8-Codes m.flags fits.flags_ok) (
            field-Sized (get_i64-Codes m.feed_ts fits.feed_ts_ok) (
              field-Sized (get_i32s-Codes m.bid_price fits.bid_price_ok.0 fits.bid_price_ok.1) (
                field-Sized (get_i32s-Codes m.bid_qty fits.bid_qty_ok.0 fits.bid_qty_ok.1) (
                  field-Sized (get_i32s-Codes m.ask_price fits.ask_price_ok.0 fits.ask_price_ok.1) (
                    field-Sized (get_i32s-Codes m.ask_qty fits.ask_qty_ok.0 fits.ask_qty_ok.1)
                      (no_field-Sized)))))))))
      (rw
        (
          (get_str-Codes msg_symbol_len m.symbol fits.symbol_ok).reads,
          (get_u8-Codes m.market fits.market_ok).reads,
          (get_u8-Codes m.flags fits.flags_ok).reads,
          (get_i64-Codes m.feed_ts fits.feed_ts_ok).reads,
          (get_i32s-Codes m.bid_price fits.bid_price_ok.0 fits.bid_price_ok.1).reads,
          (get_i32s-Codes m.bid_qty fits.bid_qty_ok.0 fits.bid_qty_ok.1).reads,
          (get_i32s-Codes m.ask_price fits.ask_price_ok.0 fits.ask_price_ok.1).reads,
          (get_i32s-Codes m.ask_qty fits.ask_qty_ok.0 fits.ask_qty_ok.1).reads,
        )
        refl)

-- What fits the fields of a `msg_symbol_set_t`.
pub record SymbolSetFits (m : SymbolSet) : Type 0 where
  pub symbol_ok : StrFits msg_symbol_len m.symbol
  pub ref_price_ok : IsInt32 m.ref_price
  pub kind_ok : m.kind < 2 ^ 8

pub msg_decode-msg_encode_symbol_set :
    (m : SymbolSet) (cap : ℕ)
    → SymbolSetFits m
    → msg_symbol_set_len ≤ cap
    → Recovers msg_symbol_set_len (msg_encode_symbol_set m cap) msg_decode_symbol_set m
unfolding msg_encode_symbol_set msg_decode_symbol_set ◌>>=◌
msg_decode-msg_encode_symbol_set m cap fits room =
    codec-Recovers (symbol_set_bytes m) read_symbol_set msg_symbol_set_len cap room
      (field-Sized (get_str-Codes msg_symbol_len m.symbol fits.symbol_ok) (
        field-Sized (get_i32-Codes m.ref_price fits.ref_price_ok)
          (field-Sized (get_u8-Codes m.kind fits.kind_ok) (no_field-Sized))))
      (rw
        (
          (get_str-Codes msg_symbol_len m.symbol fits.symbol_ok).reads,
          (get_i32-Codes m.ref_price fits.ref_price_ok).reads,
          (get_u8-Codes m.kind fits.kind_ok).reads,
        )
        refl)

-- What fits the fields of a `msg_symbol_ack_t`.
pub record SymbolAckFits (m : SymbolAck) : Type 0 where
  pub symbol_ok : StrFits msg_symbol_len m.symbol
  pub ref_price_ok : IsInt32 m.ref_price
  pub code_ok : IsInt32 m.code
  pub kind_ok : m.kind < 2 ^ 8
  pub venue_ok : m.venue < 2 ^ 8

pub msg_decode-msg_encode_symbol_ack :
    (m : SymbolAck) (cap : ℕ)
    → SymbolAckFits m
    → msg_symbol_ack_len ≤ cap
    → Recovers msg_symbol_ack_len (msg_encode_symbol_ack m cap) msg_decode_symbol_ack m
unfolding msg_encode_symbol_ack msg_decode_symbol_ack ◌>>=◌
msg_decode-msg_encode_symbol_ack m cap fits room =
    codec-Recovers (symbol_ack_bytes m) read_symbol_ack msg_symbol_ack_len cap room
      (field-Sized (get_str-Codes msg_symbol_len m.symbol fits.symbol_ok) (
        field-Sized (get_i32-Codes m.ref_price fits.ref_price_ok) (
          field-Sized (get_i32-Codes m.code fits.code_ok) (
            field-Sized (get_u8-Codes m.kind fits.kind_ok)
              (field-Sized (get_u8-Codes m.venue fits.venue_ok) (no_field-Sized))))))
      (rw
        (
          (get_str-Codes msg_symbol_len m.symbol fits.symbol_ok).reads,
          (get_i32-Codes m.ref_price fits.ref_price_ok).reads,
          (get_i32-Codes m.code fits.code_ok).reads,
          (get_u8-Codes m.kind fits.kind_ok).reads,
          (get_u8-Codes m.venue fits.venue_ok).reads,
        )
        refl)
