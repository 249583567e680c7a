-- ===== src/Server/Hostname.antt =====
-- `ServerService._validate_hostname` (src/application/services/server_service.py) and its regular
-- expression. `$` also matches before a newline that ends the text, so one such newline is dropped;
-- a label ends at the next dot or at the end, since no label holds a dot.
use ai_sre_platform_for_auto.Common.{ℕ, [], ◌∷◌, ◌++◌, refl}
use ai_sre_platform_for_auto.Errors.{Result, ok, raise, validation}
use ai_sre_platform_for_auto.Common.{Bool, Text}
use ai_sre_platform_for_auto.Common.{List, false, if◌then◌else◌, leb, length, not, ◌≡◌}
use ai_sre_platform_for_auto.Common.{ap, lit, ◌&&◌, ◌==◌}
use ai_sre_platform_for_auto.Common.{all, ltb, ◌||◌}
use ai_sre_platform_for_auto.Common.{strip}

unfoldable pub chomp : Text → Text
chomp [] = []
chomp (c ∷ []) = if c == 10 then [] else c ∷ []
chomp (c ∷ d ∷ s) = c ∷ chomp (d ∷ s)

unfoldable pub is_digit : ℕ → Bool
is_digit c = leb b'0' c && leb c b'9'

-- `[a-zA-Z0-9-]`
unfoldable pub is_label_char : ℕ → Bool
unfolding is_digit
is_label_char c =
    (leb b'a' c && leb c b'z') || (leb b'A' c && leb c b'Z') || is_digit c || c == b'-'

unfoldable pub is_label : Text → Bool
unfolding is_label_char
is_label l = leb 1 (length l) && leb (length l) 63 && all is_label_char l

unfoldable pub starts_hyphen : Text → Bool
starts_hyphen [] = false
starts_hyphen (c ∷ s) = c == b'-'

unfoldable pub ends_hyphen : Text → Bool
ends_hyphen [] = false
ends_hyphen (c ∷ []) = c == b'-'
ends_hyphen (c ∷ d ∷ s) = ends_hyphen (d ∷ s)

-- the text up to the first dot, and the labels after it
unfoldable pub first_label : Text → Text
first_label [] = []
first_label (c ∷ s) = let rest = first_label s in if c == b'.' then [] else c ∷ rest

unfoldable pub later_labels : Text → List Text
unfolding first_label
later_labels [] = []
later_labels (c ∷ s) = let rest = later_labels s in if c == b'.' then first_label s ∷ rest else rest

-- the pattern on a text whose final newline is dropped
unfoldable pub body_matches : Text → Bool
unfolding is_label starts_hyphen ends_hyphen later_labels is_digit
body_matches s =
    not (leb 1 (length s) && all is_digit s)
    && not (starts_hyphen s)
    && is_label (first_label s)
    && not (ends_hyphen (first_label s))
    && all is_label (later_labels s)

-- `re.match(hostname_regex, hostname)`
unfoldable pub hostname_matches : Text → Bool
unfolding chomp body_matches
hostname_matches s = body_matches (chomp s)

unfoldable pub is_blank : Text → Bool
is_blank s = length s == 0 || length (strip s) == 0

unfoldable pub validate_hostname : Text → Result (Unit {0})
unfolding is_blank hostname_matches
validate_hostname hostname =
    if is_blank hostname
    then raise validation (lit "Hostname cannot be empty.")
    else if ltb 253 (length hostname)
    then raise validation (lit "Hostname cannot be longer than 253 characters.")
    else if hostname_matches hostname
    then ok tt
    else raise validation (lit "Invalid hostname format: '" ++ (hostname ++ lit "'"))

chomp_newline : (s : Text) → chomp (s ++ (10 ∷ [])) ≡ s
unfolding chomp
chomp_newline [] = refl
chomp_newline (c ∷ []) = refl
chomp_newline (c ∷ d ∷ s) = ap (λ t. c ∷ t) (chomp_newline (d ∷ s))

-- A text with a newline after it matches exactly when the text before the newline is a hostname:
-- the newline is let through.
pub hostname_matches-newline : (s : Text) → hostname_matches (s ++ (10 ∷ [])) ≡ body_matches s
unfolding hostname_matches
hostname_matches-newline s = ap body_matches (chomp_newline s)
