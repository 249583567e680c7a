-- ===== src/Parsing.antt =====
-- What the parsers of src/application/parsers share: `int` of a text, and splitting at a character.
pub mod Numbers
pub mod Words
pub mod Suite
mod Tests
pub mod Memory
pub mod Disk
pub mod Cpu
pub mod Service
pub mod Log
pub mod Docker
pub mod Hex
pub mod Network
pub mod Uptime
pub mod System
use ai_sre_platform_for_auto.Common.{
  ℕ, zero, suc, ◌+◌, ◌*◌, ◌-◌, ℤ, pos, negsuc, Text, Option, List, Bool, none, some, true, false,
  not, [], ◌∷◌, ◌&&◌, ◌==◌, leb, ltb, reverse, strip, if◌then◌else◌,
}
use ai_sre_platform_for_auto.Common.{starts_with, text_eq}
use ai_sre_platform_for_auto.Common.{length, refl, ◌≡◌, arith}
use ai_sre_platform_for_auto.Common.{◌++◌}

-- What the interpreter knows of the code points from 128 on: the value of a decimal digit, and
-- `str.isdigit`.
pub record NumberTables : Type 0 where
  pub decimal : ℕ → Option ℕ
  pub is_digit : ℕ → Bool

abbrev pub ascii_numbers : NumberTables
ascii_numbers = record { decimal = λ c. none; is_digit = λ c. false }

-- The longest text of digits that `int` reads, `sys.int_info.default_max_str_digits`.
abbrev pub max_str_digits : ℕ
max_str_digits = 4300

abbrev pub within : Option (ℕ × ℕ) → Option ℕ
within none = none
within (some (n, count)) = if leb count max_str_digits then some n else none

abbrev pub negated : ℕ → ℤ
negated zero = pos 0
negated (suc n) = negsuc n

abbrev pub signed : Bool → Option ℕ → Option ℤ
signed minus none = none
signed minus (some n) = some (if minus then negated n else pos n)

module _ (tables : NumberTables) where
  unfoldable pub digit_of : ℕ → Option ℕ
  digit_of c =
      if ltb c 128 then (if leb 48 c && leb c 57 then some (c - 48) else none) else tables.decimal c

  -- The value of the digits read so far and their number; an underscore stands between two digits,
  -- and `due` says that a digit must come.
  unfoldable pub read_digits : Bool → ℕ → ℕ → Text → Option (ℕ × ℕ)
  unfolding digit_of
  read_digits due n count [] = if due then none else some (n, count)
  read_digits due n count (c ∷ s) = elim (digit_of c) [
    | some d ↦ read_digits false (n * 10 + d) (count + 1) s
    | none ↦ elim (c == b'_' && not due) [ true ↦ read_digits true n count s | false ↦ none ]
  ]

  abbrev pub with_sign : Text → Option ℤ
  with_sign [] = none
  with_sign (c ∷ s) =
      if c == b'-'
      then signed true (within (read_digits true 0 0 s))
      else if c == b'+'
      then signed false (within (read_digits true 0 0 s))
      else signed false (within (read_digits true 0 0 (c ∷ s)))

  -- `int(s)`; `none` is a ValueError
  unfoldable pub parse_int : Text → Option ℤ
  unfolding read_digits
  parse_int s = with_sign (strip s)

  abbrev is_digit_char : ℕ → Bool
  is_digit_char c = if ltb c 128 then leb 48 c && leb c 57 else tables.is_digit c

  all_digits : Text → Bool
  all_digits [] = true
  all_digits (c ∷ s) = is_digit_char c && all_digits s

  -- `s.isdigit()`
  unfoldable pub isdigit : Text → Bool
  unfolding all_digits
  isdigit [] = false
  isdigit (c ∷ s) = all_digits (c ∷ s)

-- `s.split(c, 1)` where `c` is in the text
unfoldable pub split_once : ℕ → Text → Option (Text × Text)
split_once c [] = none
split_once c (d ∷ s) =
    let rest = split_once c s in
    if d == c then some ([], s) else elim rest [ none ↦ none | some (a, b) ↦ some (d ∷ a, b) ]

-- `s.lstrip(c)` and `s.rstrip(c)` of one character
unfoldable pub lstrip_char : ℕ → Text → Text
lstrip_char c [] = []
lstrip_char c (d ∷ s) = let rest = lstrip_char c s in if d == c then rest else d ∷ s

unfoldable pub rstrip_char : ℕ → Text → Text
unfolding lstrip_char
rstrip_char c s = reverse (lstrip_char c (reverse s))

-- `s.strip(c)`
unfoldable pub strip_char : ℕ → Text → Text
unfolding rstrip_char
strip_char c s = rstrip_char c (lstrip_char c s)

-- `s.split(c)` of one character; `cur` is the part that is being read
unfoldable pub parts_from : ℕ → Text → Text → List Text
parts_from c cur [] = cur ∷ []
parts_from c cur (d ∷ s) =
    let closed = parts_from c [] s in
    let longer = parts_from c (cur ++ d ∷ []) s in if d == c then cur ∷ closed else longer

unfoldable pub last : List Text → Option Text
last [] = none
last (p ∷ []) = some p
last (p ∷ q ∷ ps) = last (q ∷ ps)

pub below-nothing : (i : ℕ) → ltb i 0 ≡ true → ⊥
below-nothing i h = ground arith

pub below-tail : (i n : ℕ) → ltb (suc i) (suc n) ≡ true → ltb i n ≡ true
below-tail i n h = ground arith

pub below-leb : (i n m : ℕ) → ltb i n ≡ true → leb n m ≡ true → ltb i m ≡ true
below-leb i n m h k = ground arith

-- `parts[i]`, for an index that is in range; Python raises an IndexError elsewhere.
unfoldable pub item : (parts : List Text) (i : ℕ) → ltb i (length parts) ≡ true → Text
item [] i h = absurd (below-nothing i h)
item (p ∷ ps) zero h = p
item (p ∷ ps) (suc i) h = item ps i (below-tail i (length ps) h)

-- The parts after a test that there are at least `n` of them.
pub record Row (n : ℕ) : Type 0 where
  pub parts : List Text
  pub enough : leb n (length parts) ≡ true

-- `parts[i]` after such a test, which `i < n` needs.
unfoldable pub part : {n : ℕ} (row : Row n) (i : ℕ) → ltb i n ≡ true → Text
unfolding item
part {n} row i h = item row.parts i (below-leb i n (length row.parts) h row.enough)

-- `if len(parts) >= n: …` with the statements of both branches
unfoldable pub tested :
    {A : Type 0}
    → (n : ℕ) (parts : List Text) (b : Bool) → leb n (length parts) ≡ b
    → A
    → (Row n → A)
    → A
tested n parts true h short rest = rest (record { parts = parts; enough = h })
tested n parts false h short rest = short

unfoldable pub columns : {A : Type 0} → (n : ℕ) → List Text → A → (Row n → A) → A
unfolding tested
columns n parts short rest = tested n parts (leb n (length parts)) refl short rest

-- `s.split(c)[0]`
unfoldable pub first_part : ℕ → Text → Text
unfolding split_once
first_part c s = elim (split_once c s) [ none ↦ s | some (a, b) ↦ a ]

-- `parts[n:]`
unfoldable pub drop : ℕ → List Text → List Text
drop zero ps = ps
drop (suc n) [] = []
drop (suc n) (p ∷ ps) = drop n ps

-- `not s or not s.strip()`
unfoldable pub is_empty : Text → Bool
is_empty s = elim (strip s) [ [] ↦ true | c ∷ t ↦ false ]

-- `parts[i]` where it is in the list
unfoldable pub part? : List Text → ℕ → Option Text
part? [] i = none
part? (p ∷ ps) zero = some p
part? (p ∷ ps) (suc i) = part? ps i

-- the statements of a `try` block after one that may raise a ValueError
module _ {A B : Type 0} where
  infixl 5 ◌>>=◌
  abbrev pub ◌>>=◌ : Option A → (A → Option B) → Option B
  ◌>>=◌ none rest = none
  ◌>>=◌ (some a) rest = rest a

  -- what a loop appends, where a line gives something
  unfoldable pub gather : (A → Option B) → List A → List B
  gather read [] = []
  gather read (x ∷ xs) = elim (read x) [ none ↦ gather read xs | some b ↦ b ∷ gather read xs ]

module _ {A : Type 0} where
  -- the variable that an `except` clause leaves as it was
  abbrev pub or_else : A → Option A → A
  or_else default none = default
  or_else default (some a) = a

-- `parts.index(key)`, and the part after it where there is one
unfoldable pub following : Text → List Text → Option Text
unfolding part?
following key [] = none
following key (p ∷ ps) = let rest = following key ps in if text_eq p key then part? ps 0 else rest

-- `s[n:]`
unfoldable pub after : ℕ → Text → Text
after zero s = s
after (suc n) [] = []
after (suc n) (c ∷ s) = after n s

-- `s.split(sep, 1)` where `sep` is in the text
unfoldable pub split_at : Text → Text → Option (Text × Text)
unfolding after
split_at sep [] = none
split_at sep (c ∷ s) =
    let rest = split_at sep s in
    if starts_with (c ∷ s) sep
    then some ([], after (length sep) (c ∷ s))
    else elim rest [ none ↦ none | some (a, b) ↦ some (c ∷ a, b) ]
