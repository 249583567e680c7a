-- ===== src/Parsing/Words.antt =====
-- What `strip`, `split` and `splitlines` do on words and lines.
use ai_sre_platform_for_auto.Common.{
  ℕ, ◌≤◌, ◌≡◌, refl, ap, ◌∙◌, arith, Text, some, false, [], ◌∷◌, ◌++◌, ◌==◌, length, reverse,
  is_space, is_line_break, lstrip, strip, split_from, flush, lines_from, All, Bool-cases, inl, inr,
}
use mathlib.Core.List.{reverse-append, reverse-cons, append-nil, append_assoc}
use ai_sre_platform_for_auto.Parsing.{is_empty, split_once}
use ai_sre_platform_for_auto.Parsing.Numbers.{IsSolid}

abbrev pub IsUnbroken : Text → Type 0
IsUnbroken = All (λ c. is_line_break c ≡ false)

pub solid-unbroken : (c : ℕ) → is_space c ≡ false → is_line_break c ≡ false
unfolding is_space is_line_break
solid-unbroken c h = ground arith

pub no_return : (c : ℕ) → is_line_break c ≡ false → (c == 13) ≡ false
unfolding is_line_break
no_return c h = ground arith

pub lines_from-line :
    (cur s rest : Text)
    → IsUnbroken s
    → lines_from cur (s ++ 10 ∷ rest) ≡ (cur ++ s) ∷ lines_from [] rest
unfolding lines_from is_line_break
lines_from-line cur [] [] h = rw (append-nil cur) refl
lines_from-line cur [] (d ∷ rest) h = rw (append-nil cur) refl
lines_from-line cur (c ∷ []) rest (h, hs) =
    rw (no_return c h, h)
      (lines_from-line (cur ++ c ∷ []) [] rest tt
        ∙ ap (λ l. l ∷ lines_from [] rest) (append-nil (cur ++ c ∷ [])))
lines_from-line cur (c ∷ d ∷ s) rest (h, hs) =
    rw (no_return c h, h)
      (lines_from-line (cur ++ c ∷ []) (d ∷ s) rest hs
        ∙ ap (λ l. l ∷ lines_from [] rest) (append_assoc cur (c ∷ []) (d ∷ s)))

pub split_from-word :
    (cur s rest : Text)
    → IsSolid s
    → split_from cur (s ++ 32 ∷ rest) ≡ flush (cur ++ s) (split_from [] rest)
unfolding split_from is_space
split_from-word cur [] rest h = rw (append-nil cur) refl
split_from-word cur (c ∷ s) rest (h, hs) = rw h (
    split_from-word (cur ++ c ∷ []) s rest hs
    ∙ ap (λ w. flush w (split_from [] rest)) (append_assoc cur (c ∷ []) s))

pub split_once-key :
    (key rest : Text)
    → All (λ c. (c == b':') ≡ false) key
    → split_once b':' (key ++ b':' ∷ rest) ≡ some (key, rest)
unfolding split_once
split_once-key [] rest h = refl
split_once-key (c ∷ key) rest (h, hs) = rw (split_once, h, split_once-key key rest hs) refl

pub lstrip-word : (s rest : Text) → 1 ≤ length s → IsSolid s → lstrip (s ++ rest) ≡ s ++ rest
unfolding lstrip
lstrip-word [] rest l h = ground arith
lstrip-word (c ∷ s) rest l (h, hs) = rw (lstrip, h) refl

pub strip-space : (s : Text) → strip (32 ∷ s) ≡ strip s
unfolding strip lstrip is_space
strip-space s = refl

pub lstrip-last :
    (s : Text) (c : ℕ) → is_space c ≡ false → (t : Text) × (lstrip (s ++ c ∷ []) ≡ t ++ c ∷ [])
unfolding lstrip
lstrip-last [] c h = ([], rw h refl)
lstrip-last (x ∷ s) c h = elim (Bool-cases (is_space x)) [
  | inl t ↦ rw t (lstrip-last s c h)
  | inr f ↦ rw f (x ∷ s, refl)
]

pub lstrip-solid : (c : ℕ) (s : Text) → is_space c ≡ false → lstrip (c ∷ s) ≡ c ∷ s
unfolding lstrip
lstrip-solid c s h = rw (lstrip, h) refl

pub strip-solid : (c : ℕ) (s : Text) → is_space c ≡ false → (t : Text) × (strip (c ∷ s) ≡ c ∷ t)
unfolding strip
strip-solid c s h =
    let (t, e) = lstrip-last (reverse s) c h in
    (
      reverse t,
      ap (λ w. reverse (lstrip (reverse w))) (lstrip-solid c s h)
          ∙ ap (λ w. reverse (lstrip w)) (reverse-cons c s)
          ∙ ap reverse e
          ∙ reverse-append t (c ∷ []),
    )

-- A text that starts with a character that is no white space is not empty.
pub is_empty-solid : (c : ℕ) (s : Text) → is_space c ≡ false → is_empty (c ∷ s) ≡ false
unfolding is_empty
is_empty-solid c s h = let (t, e) = strip-solid c s h in rw (is_empty, e) refl
