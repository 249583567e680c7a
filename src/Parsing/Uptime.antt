-- ===== src/Parsing/Uptime.antt =====
-- `SystemParser.parse_uptime_to_seconds` (src/application/parsers/system_parser.py).
use ai_sre_platform_for_auto.Common.{
  ℕ, suc, ◌+◌, ◌*◌, ◌-◌, ℤ, pos, negsuc, Text, CaseTables, Option, List, none, some, not, [], ◌∷◌,
  ◌||◌, lit, leb, contains, join, lower, split, strip, if◌then◌else◌,
}
use ai_sre_platform_for_auto.Parsing.{
  NumberTables, last, lstrip_char, negated, or_else, parse_int, parts_from, split_at, split_once,
  ◌>>=◌,
}

abbrev difference : ℕ → ℕ → ℤ
difference a b = if leb b a then pos (a - b) else negated (b - a)

infixl 40 ◌+ℤ◌
unfoldable pub ◌+ℤ◌ : ℤ → ℤ → ℤ
pos a +ℤ pos b = pos (a + b)
pos a +ℤ negsuc b = difference a (suc b)
negsuc a +ℤ pos b = difference b (suc a)
negsuc a +ℤ negsuc b = negsuc (suc (a + b))

-- a number times a positive one
unfoldable pub times : ℕ → ℤ → ℤ
times k (pos n) = pos (n * k)
times k (negsuc n) = negated (suc n * k)

-- the values of `days`, `hours` and `minutes`
pub record Spans : Type 0 where
  pub days : ℤ
  pub hours : ℤ
  pub minutes : ℤ

unfoldable pub seconds_of : Spans → ℤ
unfolding ◌+ℤ◌ times
seconds_of s = times 86400 s.days +ℤ times 3600 s.hours +ℤ times 60 s.minutes

module _ (tables : NumberTables) (cases : CaseTables) where
  -- `int(s.split()[-1])`; `none` is an IndexError or a ValueError
  unfoldable pub last_int : Text → Option ℤ
  last_int s = do token ← last (split s); parse_int tables token

  -- the segments before the first about users or the load
  unfoldable pub valid_segments : List Text → List Text
  valid_segments [] = []
  valid_segments (s ∷ segments) =
      let rest = valid_segments segments in
      let s_lower = lower cases s in
      if contains s_lower (lit "user") || contains s_lower (lit "load") then [] else s ∷ rest

  -- step 1: the days and what is left of the text
  abbrev day_parts : Text → Option (ℤ × Text)
  day_parts time_part = do
    (day_section, rest) ← split_at (lit "day") time_part
    days ← last_int day_section
    some (days, strip (lstrip_char b',' (lstrip_char b's' (strip rest))))

  unfoldable pub read_days : Text → ℤ × Text
  unfolding last_int
  read_days time_part = or_else (pos 0, time_part) (day_parts time_part)

  -- step 2
  abbrev minutes_in : Option (Text × Text) → Option ℤ
  minutes_in none = none
  minutes_in (some (min_section, rest)) = last_int min_section

  unfoldable pub read_minutes : Text → ℤ
  unfolding last_int
  read_minutes time_part = or_else (pos 0) (minutes_in (split_at (lit "min") time_part))

  -- step 3; the hours stay read where the minutes fail
  abbrev clock_spans : ℤ → ℤ → Option (Text × Text) → Spans
  clock_spans days minutes none = record { days = days; hours = pos 0; minutes = minutes }
  clock_spans days minutes (some (h_str, m_str)) = elim (parse_int tables h_str) [
    | none ↦ record { days = days; hours = pos 0; minutes = minutes }
    | some hours ↦ record {
      days = days;
      hours = hours;
      minutes = or_else minutes (parse_int tables m_str);
    }
  ]

  unfoldable pub read_clock : ℤ → ℤ → Text → Spans
  unfolding last_int
  read_clock days minutes time_part =
      if contains time_part (lit ":")
      then clock_spans days minutes (last (split time_part) >>= split_once b':')
      else record { days = days; hours = pos 0; minutes = or_else minutes (last_int time_part) }

  abbrev pub read_spans : ℤ × Text → Spans
  read_spans (days, time_part) = read_clock days (read_minutes time_part) time_part

  abbrev pub after_up : Option (Text × Text) → ℤ
  after_up none = pos 0
  after_up (some (before, time_part)) = seconds_of (read_spans (read_days (strip time_part)))

  -- The number that is made a float at the end.
  unfoldable pub uptime_seconds : Text → ℤ
  unfolding read_days read_minutes read_clock seconds_of valid_segments
  uptime_seconds uptime_str =
      let stripped = strip uptime_str in
      if not (contains stripped (lit "up"))
      then pos 0
      else after_up
          (split_at (lit "up") (join (lit ",") (valid_segments (parts_from b',' [] stripped))))
