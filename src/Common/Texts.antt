-- ===== src/Common/Texts.antt =====
-- Python's `str`: a list of code points, with the string methods that the program calls.
use Prim.Native.Nat.{ℕ, zero, suc, ◌+◌, ◌-◌, ◌/◌, ◌%◌}
use Prim.Native.Char.{code}
use Prim.Native.String.{String}
use mathlib.Core.Path.{◌≡◌, refl}
use mathlib.Core.Logic.{◌↔◌}
use mathlib.Core.Bool.{Bool, true, false, ◌&&◌, ◌||◌}
use mathlib.Core.List.{List, [], ◌∷◌, ◌++◌, reverse}
use native.Mathlib.Omega.{arith}
use ai_sre_platform_for_auto.Common.Tests.{ltb, leb, ◌==◌, if◌then◌else◌}
use mathlib.Core.Logic.{◌≢◌}

abbrev pub Text : Type 0
Text = List ℕ

codes : String → Text
codes String.[] = []
codes (String.◌∷◌ c s) = code c ∷ codes s

-- A text literal of the source. It stays shut, so that messages stay short in goals.
unfoldable pub lit : String → Text
unfolding codes
lit s = codes s

unfoldable pub text_eq : Text → Text → Bool
text_eq [] [] = true
text_eq (c ∷ s) (d ∷ t) = c == d && text_eq s t
text_eq _ _ = false

text_eq_sound : (s t : Text) → text_eq s t ≡ true → s ≡ t
unfolding text_eq
text_eq_sound [] [] h = refl
text_eq_sound (c ∷ s) (d ∷ t) h = ground (arith, text_eq_sound s t)
text_eq_sound [] (d ∷ t) h = ground arith
text_eq_sound (c ∷ s) [] h = ground arith

pub text_eq_refl : (s : Text) → text_eq s s ≡ true
unfolding text_eq
text_eq_refl [] = refl
text_eq_refl (c ∷ s) = ground (arith, text_eq_refl s)

pub text_eq_iff : (s t : Text) → (text_eq s t ≡ true) ↔ (s ≡ t)
text_eq_iff s t = (text_eq_sound s t, λ e. rw e (text_eq_refl t))

pub text_ne : (s t : Text) → text_eq s t ≡ false → s ≢ t
text_ne s t h e = ground (arith, text_eq_iff s t)

-- `str.isspace` of one character, over the whole of Unicode.
unfoldable pub is_space : ℕ → Bool
is_space c =
    (leb 9 c && leb c 13)
    || (leb 28 c && leb c 32)
    || c == 133
    || c == 160
    || c == 5760
    || (leb 8192 c && leb c 8202)
    || c == 8232
    || c == 8233
    || c == 8239
    || c == 8287
    || c == 12288

unfoldable pub lstrip : Text → Text
unfolding is_space
lstrip [] = []
lstrip (c ∷ s) = let rest = lstrip s in if is_space c then rest else c ∷ s

-- `s.strip()`
unfoldable pub strip : Text → Text
unfolding lstrip
strip s = reverse (lstrip (reverse (lstrip s)))

abbrev pub flush : Text → List Text → List Text
flush [] ws = ws
flush (c ∷ s) ws = (c ∷ s) ∷ ws

-- `s.split()`; `cur` is the word that is being read
unfoldable pub split_from : Text → Text → List Text
split_from cur [] = flush cur []
split_from cur (c ∷ s) =
    let closed = split_from [] s in
    let longer = split_from (cur ++ c ∷ []) s in if is_space c then flush cur closed else longer

unfoldable pub split : Text → List Text
unfolding split_from is_space
split s = split_from [] s

-- `sep.join(parts)`
unfoldable pub join : Text → List Text → Text
join sep [] = []
join sep (p ∷ []) = p
join sep (p ∷ q ∷ ps) = p ++ (sep ++ join sep (q ∷ ps))

-- `s.startswith(p)`
unfoldable pub starts_with : Text → Text → Bool
starts_with s [] = true
starts_with [] (d ∷ p) = false
starts_with (c ∷ s) (d ∷ p) = c == d && starts_with s p

-- `p in s`
unfoldable pub contains : Text → Text → Bool
unfolding starts_with
contains [] p = starts_with [] p
contains (c ∷ s) p = starts_with (c ∷ s) p || contains s p

unfoldable pub member : Text → List Text → Bool
unfolding text_eq
member s [] = false
member s (t ∷ ts) = text_eq s t || member s ts

-- The decimal digits of `n`, before `acc`; `n + 1` rounds are enough.
unfoldable pub digits_from : ℕ → ℕ → Text → Text
digits_from zero n acc = acc
digits_from (suc fuel) n acc =
    let rest = digits_from fuel (n / 10) ((48 + n % 10) ∷ acc) in
    if ltb n 10 then (48 + n) ∷ acc else rest

-- `str(n)`
unfoldable pub show : ℕ → Text
unfolding digits_from
show n = digits_from (suc n) n []

-- What the interpreter's case tables say of the code points from 128 on, one at a time.
pub record CaseTables : Type 0 where
  pub lower : ℕ → Text
  pub upper : ℕ → Text

abbrev pub ascii_tables : CaseTables
ascii_tables = record { lower = λ c. c ∷ []; upper = λ c. c ∷ [] }

abbrev is_upper : ℕ → Bool
is_upper c = leb b'A' c && leb c b'Z'

abbrev is_lower : ℕ → Bool
is_lower c = leb b'a' c && leb c b'z'

module _ (tables : CaseTables) where
  -- `s.lower()`
  unfoldable pub lower : Text → Text
  lower [] = []
  lower (c ∷ s) =
      (if ltb c 128 then (if is_upper c then c + 32 else c) ∷ [] else tables.lower c) ++ lower s

  -- `s.upper()`
  unfoldable pub upper : Text → Text
  upper [] = []
  upper (c ∷ s) =
      (if ltb c 128 then (if is_lower c then c - 32 else c) ∷ [] else tables.upper c) ++ upper s

-- `s.endswith(p)`
unfoldable pub ends_with : Text → Text → Bool
unfolding starts_with
ends_with s p = starts_with (reverse s) (reverse p)

-- the line boundaries of `str.splitlines`
unfoldable pub is_line_break : ℕ → Bool
is_line_break c =
    (leb 10 c && leb c 13) || (leb 28 c && leb c 30) || c == 133 || c == 8232 || c == 8233

-- The lines of the rest of a text, after the line `cur` that is being read; a text that ends in a
-- break has no empty last line, and `\r\n` is one break.
unfoldable pub lines_from : Text → Text → List Text
unfolding is_line_break
lines_from cur [] = flush cur []
lines_from cur (c ∷ []) =
    let more = (cur ++ c ∷ []) ∷ [] in if is_line_break c then cur ∷ [] else more
lines_from cur (c ∷ d ∷ s) =
    let after_pair = lines_from [] s in
    let after_break = lines_from [] (d ∷ s) in
    let longer = lines_from (cur ++ c ∷ []) (d ∷ s) in
    if c == 13 && d == 10
    then cur ∷ after_pair
    else if is_line_break c
    then cur ∷ after_break
    else longer

unfoldable pub splitlines : Text → List Text
unfolding lines_from
splitlines s = lines_from [] s
