-- ===== src/Framer/Stream.antt =====
-- The messages that the framer gives, however the bytes of the stream arrive (fep/src/framer.c).
use trading_sor_mock.Base.{
  ℕ, zero, suc, ◌+◌, ◌≤◌, ◌<◌, ◌≡◌, refl, sym, ap, ◌∙◌, ◌≢◌, ◌⊎◌, inl, inr, true, List, [], ◌∷◌,
  ◌++◌, arith, ltb, if◌then◌else◌, lt→ltb, le→ltb_false, compare_cases, length, take, drop,
  length-append, length-drop, take-append, drop-append,
}
use trading_sor_mock.Types.{ErrorCode, ok, is_ok, done, fail, Result-cases}
use trading_sor_mock.Wire.{Bytes, wire_header_len, WireHeader, wire_decode_header}
use trading_sor_mock.Wire.Header.{wire_decode_header_fail, wire_decode_header-append}
use trading_sor_mock.Framer.{Framer, Message, need_more, bad_stream, got, framer_next}

-- The first message of some bytes and the bytes behind it.
pub data Scan : Type 0 where
  short : Scan
  broken : ErrorCode → Scan
  first : Message → Bytes → Scan

unfoldable pub scan : Bytes → Scan
scan bytes = if ltb (length bytes) wire_header_len then short else elim (wire_decode_header bytes) [
  | fail rc ↦ broken rc
  | done h ↦
      if ltb (length bytes) (wire_header_len + h.body_len)
      then short
      else first (h, take h.body_len (drop wire_header_len bytes))
          (drop (wire_header_len + h.body_len) bytes)
]

-- All messages of some bytes, the bytes of an unfinished one, and the error that ends the stream.
pub record Parsed : Type 0 where
  pub messages : List Message
  pub rest : Bytes
  pub err : ErrorCode

unfoldable pub parse : (fuel : ℕ) → Bytes → Parsed
parse zero bytes = record { messages = []; rest = bytes; err = ok }
parse (suc fuel) bytes = elim (scan bytes) [
  | short ↦ record { messages = []; rest = bytes; err = ok }
  | broken rc ↦ record { messages = []; rest = bytes; err = rc }
  | first m rest ↦ let p = parse fuel rest in record p { messages = m ∷ p.messages }
]

-- Calling `framer_next` until it gives no message.
unfoldable pub drain : (fuel : ℕ) → Framer → List Message × Framer
drain zero fr = ([], fr)
drain (suc fuel) fr = elim (framer_next fr).0 [
  | need_more ↦ ([], fr)
  | bad_stream _ ↦ ([], (framer_next fr).1)
  | got m ↦ let (ms, fr') = drain fuel (framer_next fr).1 in (m ∷ ms, fr')
]

-- The bytes that wait in the framer.
abbrev pub waiting : Framer → Bytes
waiting fr = drop fr.off fr.buf

-- What a scan has seen.
pub scan_cases :
    (bytes : Bytes)
    → (scan bytes ≡ short)
      ⊎ (((rc : ErrorCode) × (scan bytes ≡ broken rc)
            × (wire_header_len ≤ length bytes)
            × (wire_decode_header bytes ≡ fail rc))
          ⊎ ((h : WireHeader) × (scan bytes
                ≡ first
                    (h, take h.body_len (drop wire_header_len bytes))
                    (drop (wire_header_len + h.body_len) bytes))
              × (wire_header_len + h.body_len ≤ length bytes)
              × (wire_decode_header bytes ≡ done h)))
unfolding scan
scan_cases bytes = elim (compare_cases (length bytes) wire_header_len) [
  | inl lt ↦ inl (rw (lt→ltb (length bytes) wire_header_len lt) refl)
  | inr ge ↦ elim (Result-cases (wire_decode_header bytes)) [
    | inr (rc, e) ↦
        inr (inl (rc, rw (le→ltb_false (length bytes) wire_header_len ge, e) refl, ge, e))
    | inl (h, e) ↦ elim (compare_cases (length bytes) (wire_header_len + h.body_len)) [
      | inl lt ↦ inl (
          rw
            (
              le→ltb_false (length bytes) wire_header_len ge,
              e,
              lt→ltb (length bytes) (wire_header_len + h.body_len) lt,
            )
            refl)
      | inr all ↦ inr (
          inr (
            h,
            rw
                (
                  le→ltb_false (length bytes) wire_header_len ge,
                  e,
                  le→ltb_false (length bytes) (wire_header_len + h.body_len) all,
                )
                refl,
            all,
            e,
          ))
    ]
  ]
]

pub scan_done :
    (bytes : Bytes) (h : WireHeader)
    → wire_header_len + h.body_len ≤ length bytes
    → wire_decode_header bytes ≡ done h
    → scan bytes
      ≡ first
          (h, take h.body_len (drop wire_header_len bytes))
          (drop (wire_header_len + h.body_len) bytes)
unfolding scan
scan_done bytes h le e =
    rw
      (
        le→ltb_false (length bytes) wire_header_len (omega (arith, le)),
        e,
        le→ltb_false (length bytes) (wire_header_len + h.body_len) le,
      )
      refl

scan_fail :
    (bytes : Bytes) (rc : ErrorCode)
    → wire_header_len ≤ length bytes
    → wire_decode_header bytes ≡ fail rc
    → scan bytes ≡ broken rc
unfolding scan
scan_fail bytes rc le e = rw (le→ltb_false (length bytes) wire_header_len le, e) refl

-- A message that is there stays the first one when more bytes come.
scan-append_first :
    (bytes more : Bytes) (h : WireHeader)
    → wire_header_len + h.body_len ≤ length bytes
    → wire_decode_header bytes ≡ done h
    → scan (bytes ++ more)
      ≡ first
          (h, take h.body_len (drop wire_header_len bytes))
          (drop (wire_header_len + h.body_len) bytes ++ more)
scan-append_first bytes more h le e =
    let long = length-append bytes more in
    let head : 24 ≤ length bytes = omega (arith, le) in
    rw
      (
        scan_done (bytes ++ more) h (omega (arith, le, long))
            (wire_decode_header-append bytes more head ∙ e),
        drop-append wire_header_len bytes more head,
        take-append h.body_len (drop wire_header_len bytes) more
            (omega (arith, le, length-drop wire_header_len bytes)),
        drop-append (wire_header_len + h.body_len) bytes more le,
      )
      refl

pub parse_short :
    (f : ℕ) (bytes : Bytes)
    → scan bytes ≡ short
    → parse f bytes ≡ record { messages = []; rest = bytes; err = ok }
unfolding parse
parse_short zero bytes e = refl
parse_short (suc f) bytes e = rw (e, parse) refl

pub parse_broken :
    (f : ℕ) (bytes : Bytes) (rc : ErrorCode)
    → scan bytes ≡ broken rc
    → parse (suc f) bytes ≡ record { messages = []; rest = bytes; err = rc }
unfolding parse
parse_broken f bytes rc e = rw (e, parse) refl

-- A message in front.
abbrev pub cons_message : Message → Parsed → Parsed
cons_message m p = record p { messages = m ∷ p.messages }

pub parse_first :
    (f : ℕ) (bytes : Bytes) (m : Message) (rest : Bytes)
    → scan bytes ≡ first m rest
    → parse (suc f) bytes ≡ cons_message m (parse f rest)
unfolding parse
parse_first f bytes m rest e = rw (e, parse) refl

pub scan_short : (bytes : Bytes) → length bytes < wire_header_len → scan bytes ≡ short
unfolding scan
scan_short bytes lt = rw (lt→ltb (length bytes) wire_header_len lt) refl

-- The fuel of `parse` is enough if it is not below the number of bytes.
pub parse_fuel :
    (f g : ℕ) (bytes : Bytes) → length bytes ≤ f → length bytes ≤ g → parse f bytes ≡ parse g bytes
parse_fuel zero g bytes hf hg =
    let e = scan_short bytes (omega (arith, hf)) in
    parse_short zero bytes e ∙ sym (parse_short g bytes e)
parse_fuel (suc f) zero bytes hf hg =
    let e = scan_short bytes (omega (arith, hg)) in
    parse_short (suc f) bytes e ∙ sym (parse_short zero bytes e)
parse_fuel (suc f) (suc g) bytes hf hg = elim (scan_cases bytes) [
  | inl e ↦ parse_short (suc f) bytes e ∙ sym (parse_short (suc g) bytes e)
  | inr (inl (rc, e, _, _)) ↦ parse_broken f bytes rc e ∙ sym (parse_broken g bytes rc e)
  | inr (inr (h, e, long, _)) ↦
      let rest = drop (wire_header_len + h.body_len) bytes in
      let shorter = length-drop (wire_header_len + h.body_len) bytes in
      parse_first f bytes _ rest e
      ∙ ap (cons_message (h, take h.body_len (drop wire_header_len bytes))) (
          parse_fuel f g rest (omega (arith, shorter, hf, long)) (omega (arith, shorter, hg, long)))
      ∙ sym (parse_first g bytes _ rest e)
]

pub never_ok :
    (bytes : Bytes) (rc : ErrorCode) → wire_decode_header bytes ≡ fail rc → is_ok rc ≢ true
never_ok bytes rc bad good = cc (wire_decode_header_fail bytes rc bad, good)

-- The unfinished rest has no message.
pub parse_rest :
    (f : ℕ) (bytes : Bytes)
    → length bytes ≤ f
    → is_ok (parse f bytes).err ≡ true
    → scan (parse f bytes).rest ≡ short
parse_rest zero bytes hf good =
    let e = scan_short bytes (omega (arith, hf)) in rw (parse_short zero bytes e) e
parse_rest (suc f) bytes hf good = elim (scan_cases bytes) [
  | inl e ↦ rw (parse_short (suc f) bytes e) e
  | inr (inl (rc, e, long, bad)) ↦
      absurd (never_ok bytes rc bad (rw (parse_broken f bytes rc e) at good))
  | inr (inr (h, e, long, _)) ↦
      let rest = drop (wire_header_len + h.body_len) bytes in
      let shorter = length-drop (wire_header_len + h.body_len) bytes in
      rw (parse_first f bytes _ rest e) (
        parse_rest f rest (omega (arith, shorter, hf, long))
          (rw (parse_first f bytes _ rest e) at good))
]

-- Behind the messages of some bytes, the rest and what comes later are parsed as they stand.
pub parse-append :
    (f g : ℕ) (bytes more : Bytes)
    → length bytes ≤ f
    → length bytes + length more ≤ g
    → is_ok (parse f bytes).err ≡ true
    → (parse g (bytes ++ more)).messages
      ≡ (parse f bytes).messages ++ (parse g ((parse f bytes).rest ++ more)).messages
parse-append zero g bytes more hf hg good =
    let e = scan_short bytes (omega (arith, hf)) in rw (parse_short zero bytes e) refl
parse-append (suc f) g bytes more hf hg good = elim (scan_cases bytes) [
  | inl e ↦ rw (parse_short (suc f) bytes e) refl
  | inr (inl (rc, e, long, bad)) ↦
      absurd (never_ok bytes rc bad (rw (parse_broken f bytes rc e) at good))
  | inr (inr (h, e, long, dec)) ↦
      let rest = drop (wire_header_len + h.body_len) bytes in
      let shorter = length-drop (wire_header_len + h.body_len) bytes in
      let joined = length-append bytes more in
      let front = parse_first f bytes _ rest e in
      let ih =
        parse-append f g rest more (omega (arith, shorter, hf, long))
          (omega (arith, shorter, hg, long)) (rw front at good) in
      rw
        (
          parse_fuel g (suc g) (bytes ++ more) (omega (arith, joined, hg))
              (omega (arith, joined, hg)),
          parse_first g (bytes ++ more) _ (rest ++ more) (scan-append_first bytes more h long dec),
          front,
        )
        (ap (λ ms. (h, take h.body_len (drop wire_header_len bytes)) ∷ ms) ih)
]

-- The rest is an end of the bytes.
pub length-parse_rest : (f : ℕ) (bytes : Bytes) → length (parse f bytes).rest ≤ length bytes
unfolding parse
length-parse_rest zero bytes = omega arith
length-parse_rest (suc f) bytes = elim (scan_cases bytes) [
  | inl e ↦ rw (parse_short (suc f) bytes e) (omega arith)
  | inr (inl (rc, e, _, _)) ↦ rw (parse_broken f bytes rc e) (omega arith)
  | inr (inr (h, e, _, _)) ↦
      let rest = drop (wire_header_len + h.body_len) bytes in
      rw (parse_first f bytes _ rest e)
        (omega (arith, length-parse_rest f rest, length-drop (wire_header_len + h.body_len) bytes))
]
