-- ===== src/Discovery/Parsers/Texts.antt =====
-- `OSParser`, `TimezoneParser` and `UptimeParser` of src/application/discovery/parsers.py.
use ai_sre_platform_for_auto.Common.{
  Text, Option, List, Bool, none, some, false, [], ◌∷◌, ◌++◌, ◌==◌, ◌&&◌, ◌||◌, lit, length,
  is_space, splitlines, strip, contains, starts_with, if◌then◌else◌,
}
use ai_sre_platform_for_auto.Parsing.{NumberTables, after, digit_of, or_else, split_once}

-- the text before a quote, when it is not empty
unfoldable pub quoted : Text → Option Text
quoted [] = none
quoted (c ∷ s) =
    let rest = quoted s in
    if c == 34 then none else elim s [
      | [] ↦ none
      | d ∷ t ↦ if d == 34 then some (c ∷ []) else elim rest [ none ↦ none | some v ↦ some (c ∷ v) ]
    ]

-- `re.search(prefix + r'([^"]+)"', s)` for a prefix without special characters
unfoldable pub search_quoted : Text → Text → Option Text
unfolding quoted
search_quoted prefix [] = none
search_quoted prefix (c ∷ s) =
    let rest = search_quoted prefix s in
    if starts_with (c ∷ s) prefix
    then elim (quoted (after (length prefix) (c ∷ s))) [ none ↦ rest | some v ↦ some v ]
    else rest

-- `OSParser`
unfoldable pub os_parse : Text → Text
unfolding search_quoted
os_parse output = elim (search_quoted (lit "PRETTY_NAME=" ++ 34 ∷ []) output) [
  | some name ↦ name
  | none ↦ or_else (lit "Unknown Linux") (search_quoted (lit "NAME=" ++ 34 ∷ []) output)
]

-- `line.split(":", 1)[1].strip()` of a line with a colon
unfoldable pub value_of : Text → Text
value_of line = elim (split_once b':' line) [ none ↦ [] | some (key, value) ↦ strip value ]

-- `TimezoneParser`
unfoldable pub timezone_in : List Text → Text
unfolding value_of
timezone_in [] = lit "UTC"
timezone_in (line ∷ lines) =
    let rest = timezone_in lines in
    if contains line (lit "Time zone:") || contains line (lit "Timezone:")
    then value_of line
    else rest

unfoldable pub timezone_parse : Text → Text
unfolding timezone_in
timezone_parse output = timezone_in (splitlines output)

-- `\s+`
unfoldable pub skip_spaces : Text → Text
unfolding is_space
skip_spaces [] = []
skip_spaces (c ∷ s) = let rest = skip_spaces s in if is_space c then rest else c ∷ s

abbrev some_spaces : Text → Option Text
some_spaces [] = none
some_spaces (c ∷ s) = if is_space c then some (skip_spaces s) else none

-- The group `(.*?)` before the first comma that `follows` holds after; the group has no newline.
unfoldable pub up_to_comma : (Text → Bool) → Text → Option Text
up_to_comma follows [] = none
up_to_comma follows (c ∷ s) =
    let rest = up_to_comma follows s in
    if c == b',' && follows s
    then some []
    else if c == 10
    then none
    else elim rest [ none ↦ none | some group ↦ some (c ∷ group) ]

-- `re.search(r"up\s+(.*?),...", s)`
unfoldable pub search_up : (Text → Bool) → Text → Option Text
unfolding up_to_comma skip_spaces
search_up follows [] = none
search_up follows (c ∷ s) =
    let rest = search_up follows s in
    if starts_with (c ∷ s) (lit "up")
    then elim (some_spaces (after 2 (c ∷ s))) [
      | none ↦ rest
      | some t ↦ elim (up_to_comma follows t) [ none ↦ rest | some group ↦ some group ]
    ]
    else rest

-- `\s+load`
unfoldable pub load_follows : Text → Bool
unfolding skip_spaces
load_follows s = elim (some_spaces s) [ none ↦ false | some t ↦ starts_with t (lit "load") ]

module _ (tables : NumberTables) where
  unfoldable pub skip_digits : Text → Text
  skip_digits [] = []
  skip_digits (c ∷ s) =
      let rest = skip_digits s in elim (digit_of tables c) [ none ↦ c ∷ s | some d ↦ rest ]

  abbrev some_digits : Text → Option Text
  some_digits [] = none
  some_digits (c ∷ s) = elim (digit_of tables c) [ none ↦ none | some d ↦ some (skip_digits s) ]

  -- `\s+\d+\s+user`
  unfoldable pub users_follow : Text → Bool
  unfolding skip_digits
  users_follow s = elim (some_spaces s) [
    | none ↦ false
    | some t ↦ elim (some_digits t) [
      | none ↦ false
      | some u ↦ elim (some_spaces u) [ none ↦ false | some v ↦ starts_with v (lit "user") ]
    ]
  ]

  -- `UptimeParser`
  unfoldable pub uptime_parse : Text → Text
  unfolding search_up users_follow load_follows
  uptime_parse output = elim (search_up users_follow output) [
    | some group ↦ group
    | none ↦ or_else (strip output) (search_up load_follows output)
  ]
