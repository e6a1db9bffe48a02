-- ===== src/Framer.antt =====
-- fep/src/framer.c: cutting the byte stream of a connection into messages. A pointer is not NULL; the
-- bytes of the buffer are the list of those below `len`.
pub mod Stream
pub mod Push
pub mod Pieces
pub mod Delivery
pub mod Tests
use trading_sor_mock.Base.{
  ℕ, ◌+◌, ◌-◌, Bool, ◌&&◌, not, [], ◌++◌, ltb, ◌==◌, if◌then◌else◌, length, take, drop,
}
use trading_sor_mock.Types.{ErrorCode, ok, not_supported, pool_exhausted, is_ok, done, fail}
use trading_sor_mock.Wire.{Bytes, wire_header_len, wire_frame_max, WireHeader, wire_decode_header}

-- `framer_t`
pub record Framer : Type 0 where
  pub buf : Bytes
  pub off : ℕ
  pub err : ErrorCode

unfoldable pub framer_init : Framer
framer_init = record { buf = []; off = 0; err = ok }

unfoldable pub framer_pending : Framer → ℕ
framer_pending fr = length fr.buf - fr.off

unfoldable pub framer_broken : Framer → Bool
framer_broken fr = not (is_ok fr.err)

-- The `memmove` of `framer_push`, where the bytes do not fit behind.
unfoldable pub make_room : Framer → (n : ℕ) → Framer
make_room fr n =
    if ltb wire_frame_max (length fr.buf + n) && ltb 0 fr.off
    then record fr { buf = drop fr.off fr.buf; off = 0 }
    else fr

unfoldable pub framer_push : Framer → Bytes → ErrorCode × Framer
framer_push fr bytes =
    let fr' = make_room fr (length bytes) in
    if not (is_ok fr.err)
    then (not_supported, fr)
    else if length bytes == 0
    then (ok, fr)
    else if ltb wire_frame_max (length fr'.buf + length bytes)
    then (pool_exhausted, fr')
    else (ok, record fr' { buf = fr'.buf ++ bytes })

-- A message: its header and its body.
abbrev pub Message : Type 0
Message = WireHeader × Bytes

-- The answers of `framer_next`: 0, an error code, or 1 with a message.
pub data Next : Type 0 where
  need_more : Next
  bad_stream : ErrorCode → Next
  got : Message → Next

unfoldable pub framer_next : Framer → Next × Framer
framer_next fr =
    let bytes = drop fr.off fr.buf in
    if not (is_ok fr.err)
    then (bad_stream fr.err, fr)
    else if ltb (length bytes) wire_header_len
    then (need_more, fr)
    else elim (wire_decode_header bytes) [
      | fail rc ↦ (bad_stream rc, record fr { err = rc })
      | done h ↦ if ltb (length bytes) (wire_header_len + h.body_len) then (need_more, fr) else (
        got (h, take h.body_len (drop wire_header_len bytes)),
        record fr { off = fr.off + (wire_header_len + h.body_len) },
      )
    ]
