-- ===== src/Parsing/Hex.antt =====
-- Hexadecimal numbers and addresses of the files under /proc/net
-- (`parse_hex_ipv4` and `parse_hex_port` of src/application/parsers/network_parser.py).
pub mod Address
use ai_sre_platform_for_auto.Common.{
  ℕ, zero, suc, ◌+◌, ◌*◌, ◌-◌, ◌/◌, ◌%◌, ℤ, pos, negsuc, Text, Option, List, Bool, none, some, true,
  false, not, [], ◌∷◌, ◌++◌, ◌==◌, ◌&&◌, ◌||◌, leb, length, lit, show, strip, if◌then◌else◌,
}
use ai_sre_platform_for_auto.Parsing.{NumberTables, digit_of, signed, or_else}

module _ (tables : NumberTables) where
  unfoldable pub hex_digit_of : ℕ → Option ℕ
  unfolding digit_of
  hex_digit_of c =
      if leb b'a' c && leb c b'f'
      then some (c - 87)
      else if leb b'A' c && leb c b'F'
      then some (c - 55)
      else digit_of tables c

  -- The value of the digits read so far; an underscore stands between two digits, and `due` says
  -- that a digit must come.
  unfoldable pub read_hex : Bool → ℕ → Text → Option ℕ
  unfolding hex_digit_of
  read_hex due n [] = if due then none else some n
  read_hex due n (c ∷ s) = elim (hex_digit_of c) [
    | some d ↦ read_hex false (n * 16 + d) s
    | none ↦ elim (c == b'_' && not due) [ true ↦ read_hex true n s | false ↦ none ]
  ]

  abbrev is_zero_digit : Option ℕ → Bool
  is_zero_digit none = false
  is_zero_digit (some d) = d == 0

  -- the digits after a prefix `0x`, which an underscore may follow
  abbrev prefixed : Text → Option ℕ
  prefixed [] = none
  prefixed (c ∷ s) = if c == b'_' then read_hex true 0 s else read_hex true 0 (c ∷ s)

  unfoldable pub unsigned_hex : Text → Option ℕ
  unfolding read_hex
  unsigned_hex (c ∷ x ∷ s) =
      if is_zero_digit (digit_of tables c) && (x == b'x' || x == b'X')
      then prefixed s
      else read_hex true 0 (c ∷ x ∷ s)
  unsigned_hex s = read_hex true 0 s

  abbrev pub hex_sign : Text → Option ℤ
  hex_sign [] = none
  hex_sign (c ∷ s) =
      if c == b'-'
      then signed true (unsigned_hex s)
      else if c == b'+'
      then signed false (unsigned_hex s)
      else signed false (unsigned_hex (c ∷ s))

  -- `int(s, 16)`; `none` is a ValueError
  unfoldable pub parse_hex : Text → Option ℤ
  unfolding unsigned_hex
  parse_hex s = hex_sign (strip s)

-- `(val >> k) & 0xFF` where `shift` is `2 ** k`; `>>` and `&` read a negative number in two's
-- complement
unfoldable pub octet : ℕ → ℤ → ℕ
octet shift (pos n) = n / shift % 256
octet shift (negsuc n) = 255 - n / shift % 256

unfoldable pub dotted : ℤ → Text
unfolding octet
dotted val =
    show (octet 1 val)
    ++ (lit "."
        ++ (show (octet 256 val)
            ++ (lit "." ++ (show (octet 65536 val) ++ (lit "." ++ show (octet 16777216 val))))))

abbrev pub dotted_or_unknown : Option ℤ → Text
dotted_or_unknown none = lit "unknown"
dotted_or_unknown (some val) = dotted val

module _ (tables : NumberTables) where
  unfoldable pub parse_hex_ipv4 : Text → Text
  unfolding parse_hex dotted
  parse_hex_ipv4 hex_str =
      if length hex_str == 8 then dotted_or_unknown (parse_hex tables hex_str) else lit "unknown"

  unfoldable pub parse_hex_port : Text → ℤ
  unfolding parse_hex
  parse_hex_port hex_str = or_else (pos 0) (parse_hex tables hex_str)
