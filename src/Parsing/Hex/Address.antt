-- ===== src/Parsing/Hex/Address.antt =====
-- The addresses of /proc/net/tcp and udp as the kernel prints them, read back.
use ai_sre_platform_for_auto.Common.{
  ℕ, ◌+◌, ◌*◌, ◌/◌, ◌%◌, ◌<◌, ◌≡◌, refl, ap, ◌∙◌, arith, pos, Text, Bool, some, true, false, [],
  ◌∷◌, ◌++◌, ◌==◌, ltb, is_space, lit, show, if◌then◌else◌,
}
use ai_sre_platform_for_auto.Parsing.{NumberTables, digit_of, signed}
use ai_sre_platform_for_auto.Parsing.Numbers.{IsSolid, strip-IsSolid}
use ai_sre_platform_for_auto.Parsing.Hex.{
  hex_digit_of, read_hex, unsigned_hex, parse_hex, octet, dotted, dotted_or_unknown, parse_hex_ipv4,
}
use ai_sre_platform_for_auto.Common.{ap}
use ai_sre_platform_for_auto.Parsing.Hex.{hex_sign}

-- a digit below 16
unfoldable pub nibble : ℕ → ℕ
nibble k = if ltb k 10 then 48 + k else 55 + k

-- two digits of a byte
unfoldable pub hex_byte : ℕ → Text → Text
hex_byte n rest = nibble (n / 16) ∷ nibble (n % 16) ∷ rest

-- `%08X` of the little-endian word of the address a.b.c.d
unfoldable pub hex_address : ℕ → ℕ → ℕ → ℕ → Text
unfolding hex_byte
hex_address a b c d = hex_byte d (hex_byte c (hex_byte b (hex_byte a [])))

nibble-not-space : (k : ℕ) → k < 16 → is_space (nibble k) ≡ false
unfolding nibble is_space
nibble-not-space k h = ground arith

nibble-plain :
    (k : ℕ)
    → k < 16
    → ((nibble k == b'-') ≡ false)
      × (((nibble k == b'+') ≡ false)
          × (((nibble k == b'x') ≡ false) × ((nibble k == b'X') ≡ false)))
unfolding nibble
nibble-plain k h = (ground arith, (ground arith, (ground arith, ground arith)))

hex_byte-IsSolid : (n : ℕ) (s : Text) → n < 256 → IsSolid s → IsSolid (hex_byte n s)
unfolding hex_byte
hex_byte-IsSolid n s h k =
    (nibble-not-space (n / 16) (omega arith), (nibble-not-space (n % 16) (omega arith), k))

module _ (tables : NumberTables) where
  hex_digit_of-nibble : (k : ℕ) → k < 16 → hex_digit_of tables (nibble k) ≡ some k
  unfolding hex_digit_of digit_of nibble
  hex_digit_of-nibble k h = ground arith

  read_hex-nibble :
      (due : Bool) (n k m : ℕ) (s : Text)
      → k < 16
      → n * 16 + k ≡ m
      → read_hex tables due n (nibble k ∷ s) ≡ read_hex tables false m s
  unfolding read_hex
  read_hex-nibble due n k m s h e = rw (read_hex, hex_digit_of-nibble k h, e) refl

  read_hex-hex_byte :
      (due : Bool) (n k m : ℕ) (s : Text)
      → k < 256
      → n * 256 + k ≡ m
      → read_hex tables due n (hex_byte k s) ≡ read_hex tables false m s
  unfolding hex_byte
  read_hex-hex_byte due n k m s h e =
      read_hex-nibble due n (k / 16) (n * 16 + k / 16) (nibble (k % 16) ∷ s) (omega arith) refl
      ∙ read_hex-nibble false (n * 16 + k / 16) (k % 16) m s (omega arith) (omega arith)

  unsigned_hex-plain :
      (c x : ℕ) (s : Text)
      → (x == b'x') ≡ false
      → (x == b'X') ≡ false
      → unsigned_hex tables (c ∷ x ∷ s) ≡ read_hex tables true 0 (c ∷ x ∷ s)
  unfolding unsigned_hex
  unsigned_hex-plain c x s h k = ground arith

  hex_sign-plain :
      (c : ℕ) (s : Text)
      → (c == b'-') ≡ false
      → (c == b'+') ≡ false
      → hex_sign tables (c ∷ s) ≡ signed false (unsigned_hex tables (c ∷ s))
  hex_sign-plain c s h k = rw (h, k) refl

  -- no sign, and no `0x`
  parse_hex-nibbles :
      (j k : ℕ) (s : Text)
      → j < 16
      → k < 16
      → IsSolid s
      → parse_hex tables (nibble j ∷ nibble k ∷ s)
        ≡ signed false (read_hex tables true 0 (nibble j ∷ nibble k ∷ s))
  unfolding parse_hex
  parse_hex-nibbles j k s hj hk hs =
      let (minus, (plus, rest)) = nibble-plain j hj in
      let (m, (p, (x, y))) = nibble-plain k hk in
      ap (hex_sign tables) (
        strip-IsSolid (nibble j ∷ nibble k ∷ s)
          (nibble-not-space j hj, (nibble-not-space k hk, hs)))
      ∙ hex_sign-plain (nibble j) (nibble k ∷ s) minus plus
      ∙ ap (signed false) (unsigned_hex-plain (nibble j) (nibble k) s x y)

  word : (n : ℕ) → signed false (read_hex tables false n []) ≡ some (pos n)
  unfolding read_hex
  word n = refl

  parse_hex-hex_address :
      (a b c d : ℕ)
      → a < 256
      → b < 256
      → c < 256
      → d < 256
      → parse_hex tables (hex_address a b c d) ≡ some (pos (((d * 256 + c) * 256 + b) * 256 + a))
  unfolding hex_address
  parse_hex-hex_address a b c d ha hb hc hd =
      parse_hex-nibbles (d / 16) (d % 16) (hex_byte c (hex_byte b (hex_byte a []))) (omega arith)
        (omega arith)
        (hex_byte-IsSolid c (hex_byte b (hex_byte a [])) hc
          (hex_byte-IsSolid b (hex_byte a []) hb (hex_byte-IsSolid a [] ha tt)))
      ∙ ap (signed false) (
          read_hex-hex_byte true 0 d d (hex_byte c (hex_byte b (hex_byte a []))) hd (omega arith)
          ∙ read_hex-hex_byte false d c (d * 256 + c) (hex_byte b (hex_byte a [])) hc refl
          ∙ read_hex-hex_byte false (d * 256 + c) b ((d * 256 + c) * 256 + b) (hex_byte a []) hb
              refl
          ∙ read_hex-hex_byte false ((d * 256 + c) * 256 + b) a
              (((d * 256 + c) * 256 + b) * 256 + a) [] ha refl)
      ∙ word (((d * 256 + c) * 256 + b) * 256 + a)

octets :
    (a b c d : ℕ)
    → a < 256
    → b < 256
    → c < 256
    → d < 256
    → let val = pos (((d * 256 + c) * 256 + b) * 256 + a) in
      (octet 1 val ≡ a) × ((octet 256 val ≡ b) × ((octet 65536 val ≡ c) × (octet 16777216 val ≡ d)))
unfolding octet
octets a b c d ha hb hc hd = (omega arith, (omega arith, (omega arith, omega arith)))

-- An address whose octets are below 256, printed by the kernel as the hexadecimal digits of its
-- little-endian word, is read as its dotted form.
pub parse_hex_ipv4-hex_address :
    (tables : NumberTables) (a b c d : ℕ)
    → a < 256
    → b < 256
    → c < 256
    → d < 256
    → parse_hex_ipv4 tables (hex_address a b c d)
      ≡ show a ++ (lit "." ++ (show b ++ (lit "." ++ (show c ++ (lit "." ++ show d)))))
unfolding parse_hex_ipv4 hex_address hex_byte dotted
parse_hex_ipv4-hex_address tables a b c d ha hb hc hd =
    let (p, (q, (r, t))) = octets a b c d ha hb hc hd in
    ap dotted_or_unknown (parse_hex-hex_address tables a b c d ha hb hc hd)
    ∙ rw (dotted, p, q, r, t) refl
