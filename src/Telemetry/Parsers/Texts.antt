-- ===== src/Telemetry/Parsers/Texts.antt =====
-- The text functions of src/application/telemetry/parsers.py: `replace`, `split(maxsplit)` and the
-- regular expression of the idle time.
use ai_sre_platform_for_auto.Common.{
  ℕ, zero, suc, ◌-◌, Text, Option, List, Bool, none, some, false, [], ◌∷◌, ◌++◌, ◌==◌, ◌&&◌, lit,
  length, is_space, lstrip, starts_with, if◌then◌else◌,
}
use ai_sre_platform_for_auto.Parsing.{NumberTables, digit_of}

-- `s.replace(old, "")`; `skipped` characters of an occurrence are still to be left out
unfoldable pub removed : Text → ℕ → Text → Text
removed old skipped [] = []
removed old (suc skipped) (c ∷ s) = removed old skipped s
removed old zero (c ∷ s) =
    let shorter = removed old (length old - 1) s in
    let longer = c ∷ removed old zero s in if starts_with (c ∷ s) old then shorter else longer

-- the first word of a text that starts with one, and the rest
unfoldable pub first_word : Text → Text × Text
first_word [] = ([], [])
first_word (c ∷ s) =
    let (word, rest) = first_word s in if is_space c then ([], c ∷ s) else (c ∷ word, rest)

-- `s.split(maxsplit=n)`
unfoldable pub split_at_most : ℕ → Text → List Text
unfolding first_word
split_at_most zero s = elim (lstrip s) [ [] ↦ [] | c ∷ t ↦ (c ∷ t) ∷ [] ]
split_at_most (suc n) s =
    let (word, rest) = first_word (lstrip s) in
    let more = split_at_most n rest in elim (lstrip s) [ [] ↦ [] | c ∷ t ↦ word ∷ more ]

-- `for line in lines[1:]`
abbrev pub below_header : List Text → List Text
below_header [] = []
below_header (header ∷ lines) = lines

module _ (numbers : NumberTables) where
  -- `\d+`: the digits and what follows them
  unfoldable pub digits_of : Text → Text × Text
  digits_of [] = ([], [])
  digits_of (c ∷ s) =
      let (ds, rest) = digits_of s in
      elim (digit_of numbers c) [ none ↦ ([], c ∷ s) | some d ↦ (c ∷ ds, rest) ]

  -- `\s+id`
  abbrev id_follows : Text → Bool
  id_follows [] = false
  id_follows (c ∷ s) = is_space c && starts_with (lstrip s) (lit "id")

  abbrev after_point : Text → Text × Text → Option Text
  after_point whole ([], rest) = none
  after_point whole (d ∷ ds, rest) = if id_follows rest then some (whole ++ b'.' ∷ d ∷ ds) else none

  abbrev after_whole : Text × Text → Option Text
  after_whole ([], rest) = none
  after_whole (d ∷ ds, []) = none
  after_whole (d ∷ ds, c ∷ rest) = if c == b'.' then after_point (d ∷ ds) (digits_of rest) else none

  -- the group of `re.search(r"(\d+\.\d+)\s+id", s)`
  unfoldable pub search_idle : Text → Option Text
  unfolding digits_of
  search_idle [] = none
  search_idle (c ∷ s) =
      let rest = search_idle s in
      elim (after_whole (digits_of (c ∷ s))) [ none ↦ rest | some group ↦ some group ]
