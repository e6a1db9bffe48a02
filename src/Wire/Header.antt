-- ===== src/Wire/Header.antt =====
-- The header of a message (`wire_encode_header` and `wire_decode_header` of core/src/wire.c).
use trading_sor_mock.Base.{
  ℕ, ◌+◌, ◌^◌, ◌≤◌, ◌<◌, ◌≡◌, refl, ap, ◌∙◌, ◌≢◌, inl, inr, false, not, Option, none, some, ◌++◌,
  arith, ltb, ◌==◌, le→ltb_false, Bool-cases, length, length-append, get_elem?-append,
}
use trading_sor_mock.Types.{ErrorCode, invalid_arg, not_supported, is_ok, Result, done, fail}
use trading_sor_mock.Wire.{
  Bytes, byte_at, wire_put_u8, wire_put_u16, wire_put_u32, wire_put_u64, to_unsigned, wire_put_i64,
  wire_get_u8, wire_get_u16, wire_get_u32, wire_get_u64, from_unsigned, wire_get_i64, wire_magic,
  wire_version, wire_header_len, wire_body_max, WireHeader, header_bytes, wire_decode_header,
}
use trading_sor_mock.Wire.Integers.{
  u32_bytes, u64_bytes, IsInt64, from_unsigned-to_unsigned_64, to_unsigned_64-lt,
}

-- What fits the fields of a header.
pub record HeaderFits (h : WireHeader) : Type 0 where
  pub version_ok : h.version ≡ wire_version
  pub type_ok : h.type < 256
  pub body_ok : h.body_len ≤ wire_body_max
  pub seq_ok : h.seq < 2 ^ 64
  pub ts_ok : IsInt64 h.ts

pub length-header_bytes : (h : WireHeader) → length (header_bytes h) ≡ wire_header_len
unfolding header_bytes wire_put_u16 wire_put_u8 wire_put_u32 wire_put_u64 wire_put_i64
length-header_bytes h = refl

length_with_header :
    (h : WireHeader) (rest : Bytes) → length (header_bytes h ++ rest) ≡ 24 + length rest
length_with_header h rest =
    omega (arith, length-append (header_bytes h) rest, length-header_bytes h)

fields :
    (h : WireHeader) (rest : Bytes)
    → HeaderFits h
    → (wire_get_u16 (header_bytes h ++ rest) 0 ≡ wire_magic)
      × (wire_get_u8 (header_bytes h ++ rest) 2 ≡ wire_version)
      × (wire_get_u8 (header_bytes h ++ rest) 3 ≡ h.type)
      × (wire_get_u32 (header_bytes h ++ rest) 4 ≡ h.body_len)
      × (wire_get_u64 (header_bytes h ++ rest) 8 ≡ h.seq)
      × (wire_get_i64 (header_bytes h ++ rest) 16 ≡ h.ts)
unfolding header_bytes wire_put_u16 wire_put_u8 wire_put_u32 wire_put_u64 wire_put_i64 wire_get_u16
    wire_get_u8 wire_get_u32 wire_get_u64 wire_get_i64
fields h rest f = (
  refl,
  refl,
  omega (arith, f.type_ok),
  u32_bytes h.body_len (omega (arith, f.body_ok)),
  u64_bytes h.seq f.seq_ok,
  ap (from_unsigned (2 ^ 63)) (u64_bytes (to_unsigned (2 ^ 64) h.ts) (to_unsigned_64-lt h.ts))
      ∙ from_unsigned-to_unsigned_64 h.ts f.ts_ok,
)

-- A header whose fields fit is read back from its 24 bytes, whatever bytes follow them.
pub wire_decode_header-header_bytes :
    (h : WireHeader) (rest : Bytes)
    → HeaderFits h
    → wire_decode_header (header_bytes h ++ rest) ≡ done h
unfolding wire_decode_header
wire_decode_header-header_bytes h rest f =
    let (magic, version, type, body, seq, ts) = fields h rest f in
    let long : 24 ≤ length (header_bytes h ++ rest) = omega (arith, length_with_header h rest) in
    rw
      (
        le→ltb_false (length (header_bytes h ++ rest)) wire_header_len long,
        magic,
        version,
        type,
        body,
        seq,
        ts,
        le→ltb_false wire_body_max h.body_len f.body_ok,
        ← f.version_ok,
      )
      refl

-- A refusal has an error code.
pub wire_decode_header_fail :
    (buf : Bytes) (rc : ErrorCode) → wire_decode_header buf ≡ fail rc → is_ok rc ≡ false
unfolding wire_decode_header
wire_decode_header_fail buf rc e = elim (Bool-cases (ltb (length buf) wire_header_len)) [
  | inl a ↦ code_of invalid_arg rc refl (rw a at e)
  | inr a ↦ elim (Bool-cases (not (wire_get_u16 buf 0 == wire_magic))) [
    | inl b ↦ code_of invalid_arg rc refl (rw (a, b) at e)
    | inr b ↦ elim (Bool-cases (not (wire_get_u8 buf 2 == wire_version))) [
      | inl c ↦ code_of not_supported rc refl (rw (a, b, c) at e)
      | inr c ↦ elim (Bool-cases (ltb wire_body_max (wire_get_u32 buf 4))) [
        | inl d ↦ code_of invalid_arg rc refl (rw (a, b, c, d) at e)
        | inr d ↦ absurd (not_done (rw (a, b, c, d) at e))
      ]
    ]
  ]
]
  where
    code_of :
        (c rc : ErrorCode)
        → is_ok c ≡ false
        → ◌≡◌ {A = Result WireHeader} (fail c) (fail rc)
        → is_ok rc ≡ false
    code_of c rc bad e = ground (arith, bad, e)

    not_done : {h : WireHeader} {rc : ErrorCode} → done h ≢ fail rc
    not_done e = cc

-- Reading below the length of a list does not see what is behind it.
module _ (buf more : Bytes) where
  byte_at-append : (i : ℕ) → i < length buf → byte_at (buf ++ more) i ≡ byte_at buf i
  byte_at-append i h =
      ap (λ (o : Option ℕ). elim o [ none ↦ 0 | some b ↦ b ]) (get_elem?-append buf more i h)

  wire_get_u8-append :
      (at : ℕ) → at < length buf → wire_get_u8 (buf ++ more) at ≡ wire_get_u8 buf at
  unfolding wire_get_u8
  wire_get_u8-append at h = byte_at-append at h

  wire_get_u16-append :
      (at : ℕ) → at + 2 ≤ length buf → wire_get_u16 (buf ++ more) at ≡ wire_get_u16 buf at
  unfolding wire_get_u16
  wire_get_u16-append at h =
      rw (byte_at-append at (omega (arith, h)), byte_at-append (at + 1) (omega (arith, h)))

  wire_get_u32-append :
      (at : ℕ) → at + 4 ≤ length buf → wire_get_u32 (buf ++ more) at ≡ wire_get_u32 buf at
  unfolding wire_get_u32
  wire_get_u32-append at h = rw (
    byte_at-append at (omega (arith, h)),
    byte_at-append (at + 1) (omega (arith, h)),
    byte_at-append (at + 2) (omega (arith, h)),
    byte_at-append (at + 3) (omega (arith, h)),
  )

  wire_get_u64-append :
      (at : ℕ) → at + 8 ≤ length buf → wire_get_u64 (buf ++ more) at ≡ wire_get_u64 buf at
  unfolding wire_get_u64
  wire_get_u64-append at h = rw (
    byte_at-append at (omega (arith, h)),
    byte_at-append (at + 1) (omega (arith, h)),
    byte_at-append (at + 2) (omega (arith, h)),
    byte_at-append (at + 3) (omega (arith, h)),
    byte_at-append (at + 4) (omega (arith, h)),
    byte_at-append (at + 5) (omega (arith, h)),
    byte_at-append (at + 6) (omega (arith, h)),
    byte_at-append (at + 7) (omega (arith, h)),
  )

  -- The header of a stream does not depend on what comes behind its 24 bytes.
  pub wire_decode_header-append :
      wire_header_len ≤ length buf → wire_decode_header (buf ++ more) ≡ wire_decode_header buf
  unfolding wire_decode_header wire_get_i64
  wire_decode_header-append h = rw (
    le→ltb_false (length (buf ++ more)) wire_header_len (omega (arith, h, length-append buf more)),
    le→ltb_false (length buf) wire_header_len h,
    wire_get_u16-append 0 (omega (arith, h)),
    wire_get_u8-append 2 (omega (arith, h)),
    wire_get_u8-append 3 (omega (arith, h)),
    wire_get_u32-append 4 (omega (arith, h)),
    wire_get_u64-append 8 (omega (arith, h)),
    wire_get_u64-append 16 (omega (arith, h)),
  )
