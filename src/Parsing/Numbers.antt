-- ===== src/Parsing/Numbers.antt =====
-- That `int` reads back what `str` writes of a number.
use ai_sre_platform_for_auto.Common.{
  ℕ, zero, suc, ◌+◌, ◌*◌, ◌/◌, ◌%◌, ◌≤◌, ◌<◌, ◌≡◌, refl, sym, ◌∙◌, arith, pos, Text, Bool, some,
  true, false, [], ◌∷◌, ◌++◌, ltb, length, reverse, is_space, lstrip, strip, show, digits_from, All,
  All-map, Bool-cases, inl, inr, if◌then◌else◌,
}
use mathlib.Core.List.{reverse-reverse, reverse-cons}
use ai_sre_platform_for_auto.Parsing.{
  NumberTables, max_str_digits, digit_of, read_digits, within, signed, with_sign, parse_int,
}

abbrev pub IsSolid : Text → Type 0
IsSolid = All (λ c. is_space c ≡ false)

pub lstrip-IsSolid : (s : Text) → IsSolid s → lstrip s ≡ s
unfolding lstrip
lstrip-IsSolid [] h = refl
lstrip-IsSolid (c ∷ s) (h, hs) = rw h refl

pub append-IsSolid : (s t : Text) → IsSolid s → IsSolid t → IsSolid (s ++ t)
append-IsSolid [] t hs ht = ht
append-IsSolid (c ∷ s) t (h, hs) ht = (h, append-IsSolid s t hs ht)

pub reverse-IsSolid : (s : Text) → IsSolid s → IsSolid (reverse s)
reverse-IsSolid [] h = h
reverse-IsSolid (c ∷ s) (h, hs) =
    rw (reverse-cons c s) (append-IsSolid (reverse s) (c ∷ []) (reverse-IsSolid s hs) (h, tt))

-- Nothing is stripped from a text without white space.
pub strip-IsSolid : (s : Text) → IsSolid s → strip s ≡ s
unfolding strip
strip-IsSolid s h =
    rw (lstrip-IsSolid s h, lstrip-IsSolid (reverse s) (reverse-IsSolid s h)) (reverse-reverse s)

-- The number of decimal digits, in the steps of `digits_from`.
digit_count : ℕ → ℕ → ℕ
digit_count zero n = 0
digit_count (suc fuel) n = let rest = digit_count fuel (n / 10) in if ltb n 10 then 1 else rest + 1

length-digits_from :
    (fuel n : ℕ) (acc : Text) → length (digits_from fuel n acc) ≡ digit_count fuel n + length acc
unfolding digits_from digit_count
length-digits_from zero n acc = omega arith
length-digits_from (suc fuel) n acc =
    ground (arith, length-digits_from fuel (n / 10) ((48 + n % 10) ∷ acc))

abbrev pub IsDigit : ℕ → Type 0
IsDigit c = (48 ≤ c) × (c ≤ 57)

pub digits_from-IsDigit :
    (fuel n : ℕ) (acc : Text) → All IsDigit acc → All IsDigit (digits_from fuel n acc)
unfolding digits_from
digits_from-IsDigit zero n acc h = h
digits_from-IsDigit (suc fuel) n acc h = elim (Bool-cases (ltb n 10)) [
  | inl t ↦ rw (digits_from, t) ((omega arith, ground arith), h)
  | inr f ↦
      rw (digits_from, f)
        (digits_from-IsDigit fuel (n / 10) ((48 + n % 10) ∷ acc) ((omega arith, omega arith), h))
]

digit-not-space : (c : ℕ) → IsDigit c → is_space c ≡ false
unfolding is_space
digit-not-space c h = ground arith

one_digit : (count fuel n : ℕ) → ltb n 10 ≡ true → count + digit_count (suc fuel) n ≡ count + 1
unfolding digit_count
one_digit count fuel n t = rw (digit_count, t) refl

more_digits :
    (count fuel n : ℕ)
    → ltb n 10 ≡ false
    → count + digit_count (suc fuel) n ≡ count + digit_count fuel (n / 10) + 1
unfolding digit_count
more_digits count fuel n f = rw (digit_count, f) (omega arith)

digit_count-positive : (fuel n : ℕ) → 1 ≤ digit_count (suc fuel) n
unfolding digit_count
digit_count-positive fuel n = ground arith

pub digits-IsSolid : (s : Text) → All IsDigit s → IsSolid s
digits-IsSolid = All-map digit-not-space

-- `str(n)` is written in digits, and in one at least.
pub show-IsSolid : (n : ℕ) → IsSolid (show n)
unfolding show
show-IsSolid n = digits-IsSolid (show n) (digits_from-IsDigit (suc n) n [] tt)

pub show-positive : (n : ℕ) → 1 ≤ length (show n)
unfolding show
show-positive n = omega (arith, length-digits_from (suc n) n [], digit_count-positive n n)

module _ (tables : NumberTables) where
  digit_of-digit : (d : ℕ) → d < 10 → digit_of tables (48 + d) ≡ some d
  unfolding digit_of
  digit_of-digit d h = ground arith

  read_digits-digit :
      (due : Bool) (n count d m k : ℕ) (s : Text)
      → d < 10
      → n * 10 + d ≡ m
      → count + 1 ≡ k
      → read_digits tables due n count ((48 + d) ∷ s) ≡ read_digits tables false m k s
  unfolding read_digits
  read_digits-digit due n count d m k s h e f = rw (read_digits, digit_of-digit d h, e, f) refl

  -- The digits that `digits_from` writes are read as the number.
  read_digits-digits_from :
      (fuel n count k : ℕ) (due : Bool) (acc : Text)
      → n < fuel
      → count + digit_count fuel n ≡ k
      → read_digits tables due 0 count (digits_from fuel n acc) ≡ read_digits tables false n k acc
  unfolding digits_from read_digits
  read_digits-digits_from zero n count k due acc h e = ground arith
  read_digits-digits_from (suc fuel) n count k due acc h e = elim (Bool-cases (ltb n 10)) [
    | inl t ↦
        rw (digits_from, t)
          (read_digits-digit due 0 count n n k acc (ground arith) (omega arith)
            (sym (one_digit count fuel n t) ∙ e))
    | inr f ↦
        rw (digits_from, f)
          (read_digits-digits_from fuel (n / 10) count (count + digit_count fuel (n / 10)) due
              ((48 + n % 10) ∷ acc) (ground arith) refl
            ∙ read_digits-digit false (n / 10) (count + digit_count fuel (n / 10)) (n % 10) n k acc
                (omega arith) (omega arith) (sym (more_digits count fuel n f) ∙ e))
  ]

  within_count : (n k : ℕ) → k ≤ max_str_digits → within (some (n, k)) ≡ some n
  within_count n k h = ground arith

  with_sign-digits :
      (s : Text)
      → All IsDigit s
      → 1 ≤ length s
      → with_sign tables s ≡ signed false (within (read_digits tables true 0 0 s))
  with_sign-digits [] h l = ground arith
  with_sign-digits (c ∷ s) ((h, k), hs) l = ground arith

  parse_int-digits :
      (s : Text)
      → All IsDigit s
      → 1 ≤ length s
      → parse_int tables s ≡ signed false (within (read_digits tables true 0 0 s))
  unfolding parse_int
  parse_int-digits s h l = rw (strip-IsSolid s (digits-IsSolid s h)) (with_sign-digits s h l)

  -- `int` reads back what `str` writes of a number with at most 4300 digits.
  pub parse_int-show :
      (n : ℕ) → length (show n) ≤ max_str_digits → parse_int tables (show n) ≡ some (pos n)
  unfolding show read_digits
  parse_int-show n h =
      let count = length-digits_from (suc n) n [] in
      parse_int-digits (show n) (digits_from-IsDigit (suc n) n [] tt)
        (omega (arith, count, digit_count-positive n n))
      ∙ rw
          (
            read_digits-digits_from (suc n) n 0 (digit_count (suc n) n) true [] (omega arith)
                (omega arith),
            within_count n (digit_count (suc n) n) (omega (arith, count)),
          )
          refl
