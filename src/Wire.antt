-- ===== src/Wire.antt =====
-- core/src/wire.c: integers, strings and the header in the bytes of a message, big-endian.
--
-- A byte is a number below 256. An encoder's writes one after the other are the list of the bytes
-- it writes; a decoder reads at an offset of the list. `|` of shifted bytes, which share no bit, is
-- a sum.
pub mod Integers
pub mod Header
pub mod Tests
use trading_sor_mock.Base.{
  ℕ, zero, suc, ◌+◌, ◌-◌, ◌*◌, ◌/◌, ◌%◌, ◌^◌, not, none, some, List, [], ◌∷◌, ◌++◌, ltb, ◌==◌,
  if◌then◌else◌, length, get_elem?, take, drop,
}
use trading_sor_mock.Base.Int.{ℤ, pos, negsuc, sub_ℕ}
use trading_sor_mock.Types.{invalid_arg, not_supported, Result, done, fail}

abbrev pub Bytes : Type 0
Bytes = List ℕ

-- The byte at an offset; the code reads below the length that it has checked.
abbrev pub byte_at : Bytes → ℕ → ℕ
byte_at p i = elim (get_elem? p i) [ none ↦ 0 | some b ↦ b ]

unfoldable pub wire_put_u8 : ℕ → Bytes
wire_put_u8 v = v % 256 ∷ []

unfoldable pub wire_put_u16 : ℕ → Bytes
wire_put_u16 v = v / 2 ^ 8 % 256 ∷ v % 256 ∷ []

unfoldable pub wire_put_u32 : ℕ → Bytes
wire_put_u32 v = v / 2 ^ 24 % 256 ∷ v / 2 ^ 16 % 256 ∷ v / 2 ^ 8 % 256 ∷ v % 256 ∷ []

unfoldable pub wire_put_u64 : ℕ → Bytes
wire_put_u64 v =
    v / 2 ^ 56 % 256
    ∷ v / 2 ^ 48 % 256
    ∷ v / 2 ^ 40 % 256
    ∷ v / 2 ^ 32 % 256
    ∷ v / 2 ^ 24 % 256
    ∷ v / 2 ^ 16 % 256
    ∷ v / 2 ^ 8 % 256
    ∷ v % 256
    ∷ []

-- The cast of a signed number to an unsigned one of a given modulus.
abbrev pub to_unsigned : (modulus : ℕ) → ℤ → ℕ
to_unsigned modulus (pos n) = n % modulus
to_unsigned modulus (negsuc n) = modulus - 1 - n % modulus

unfoldable pub wire_put_i32 : ℤ → Bytes
wire_put_i32 v = wire_put_u32 (to_unsigned (2 ^ 32) v)

unfoldable pub wire_put_i64 : ℤ → Bytes
wire_put_i64 v = wire_put_u64 (to_unsigned (2 ^ 64) v)

unfoldable pub wire_get_u8 : Bytes → (at : ℕ) → ℕ
wire_get_u8 p at = byte_at p at

unfoldable pub wire_get_u16 : Bytes → (at : ℕ) → ℕ
wire_get_u16 p at = byte_at p at * 2 ^ 8 + byte_at p (at + 1)

unfoldable pub wire_get_u32 : Bytes → (at : ℕ) → ℕ
wire_get_u32 p at =
    byte_at p at * 2 ^ 24
    + byte_at p (at + 1) * 2 ^ 16
    + byte_at p (at + 2) * 2 ^ 8
    + byte_at p (at + 3)

unfoldable pub wire_get_u64 : Bytes → (at : ℕ) → ℕ
wire_get_u64 p at =
    byte_at p at * 2 ^ 56
    + byte_at p (at + 1) * 2 ^ 48
    + byte_at p (at + 2) * 2 ^ 40
    + byte_at p (at + 3) * 2 ^ 32
    + byte_at p (at + 4) * 2 ^ 24
    + byte_at p (at + 5) * 2 ^ 16
    + byte_at p (at + 6) * 2 ^ 8
    + byte_at p (at + 7)

-- The signed number of a two's complement pattern, as `wire_get_i32` and `wire_get_i64` compute it.
abbrev pub from_unsigned : (half u : ℕ) → ℤ
from_unsigned half u = if ltb u half then pos u else sub_ℕ (u - half) half

unfoldable pub wire_get_i32 : Bytes → (at : ℕ) → ℤ
wire_get_i32 p at = from_unsigned (2 ^ 31) (wire_get_u32 p at)

unfoldable pub wire_get_i64 : Bytes → (at : ℕ) → ℤ
wire_get_i64 p at = from_unsigned (2 ^ 63) (wire_get_u64 p at)

abbrev pub zeros : ℕ → Bytes
zeros zero = []
zeros (suc n) = 0 ∷ zeros n

-- `wire_put_str` of a string, which is its bytes before the terminating zero.
unfoldable pub wire_put_str : (field_len : ℕ) → Bytes → Bytes
wire_put_str field_len s = take field_len s ++ zeros (field_len - length s)

-- The loop of `wire_get_str`.
unfoldable pub until_zero : Bytes → Bytes
until_zero [] = []
until_zero (b ∷ bs) = if b == 0 then [] else b ∷ until_zero bs

unfoldable pub wire_get_str : Bytes → (at field_len : ℕ) → Bytes
wire_get_str p at field_len = until_zero (take field_len (drop at p))

abbrev pub wire_magic : ℕ
wire_magic = 0x4D53

abbrev pub wire_version : ℕ
wire_version = 1

abbrev pub wire_header_len : ℕ
wire_header_len = 24

abbrev pub wire_body_max : ℕ
wire_body_max = 65536

abbrev pub wire_frame_max : ℕ
wire_frame_max = wire_header_len + wire_body_max

-- `wire_header_t`
pub record WireHeader : Type 0 where
  pub version : ℕ
  pub type : ℕ
  pub body_len : ℕ
  pub seq : ℕ
  pub ts : ℤ

-- The bytes that `wire_encode_header` writes.
unfoldable pub header_bytes : WireHeader → Bytes
header_bytes h =
    wire_put_u16 wire_magic
    ++ (wire_put_u8 wire_version
        ++ (wire_put_u8 h.type
            ++ (wire_put_u32 h.body_len ++ (wire_put_u64 h.seq ++ wire_put_i64 h.ts))))

unfoldable pub wire_encode_header : WireHeader → (cap : ℕ) → Result Bytes
wire_encode_header h cap =
    if ltb cap wire_header_len
    then fail invalid_arg
    else if ltb wire_body_max h.body_len
    then fail invalid_arg
    else done (header_bytes h)

unfoldable pub wire_decode_header : Bytes → Result WireHeader
wire_decode_header buf =
    if ltb (length buf) wire_header_len
    then fail invalid_arg
    else if not (wire_get_u16 buf 0 == wire_magic)
    then fail invalid_arg
    else if not (wire_get_u8 buf 2 == wire_version)
    then fail not_supported
    else if ltb wire_body_max (wire_get_u32 buf 4)
    then fail invalid_arg
    else done (record {
      version = wire_get_u8 buf 2;
      type = wire_get_u8 buf 3;
      body_len = wire_get_u32 buf 4;
      seq = wire_get_u64 buf 8;
      ts = wire_get_i64 buf 16;
    })
