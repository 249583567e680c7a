-- ===== src/Parsing/Memory/Printed.antt =====
-- The text of /proc/meminfo as the kernel prints it, read back.
use ai_sre_platform_for_auto.Common.{
  ℕ, ◌≤◌, ◌≡◌, ◌≢◌, refl, ap, sym, ◌∙◌, arith, ℤ, pos, Text, Dict, Option, List, Bool, none, some,
  true, false, [], ◌∷◌, ◌++◌, ◌==◌, lit, length, reverse, is_space, is_line_break, lstrip, strip,
  split, split_from, flush, splitlines, show, All-map, All-append, insert, lookup, text_eq, All,
  Bool-cases, inl, inr, if◌then◌else◌, lookup-insert,
}
use mathlib.Core.List.{reverse-append, reverse-reverse, append_assoc, cons-ne-nil}
use ai_sre_platform_for_auto.Errors.{ok}
use ai_sre_platform_for_auto.Parsing.{NumberTables, max_str_digits, is_empty, parse_int}
use ai_sre_platform_for_auto.Parsing.Numbers.{
  IsSolid, strip-IsSolid, parse_int-show, show-IsSolid, show-positive,
}
use ai_sre_platform_for_auto.Parsing.Memory.{
  MemoryMetrics, or_zero, field_of, first_int, meminfo_line, noted, read_lines, metrics_of,
  parse_memory,
}
use ai_sre_platform_for_auto.Parsing.Words.{
  IsUnbroken, solid-unbroken, lines_from-line, split_from-word, split_once-key, lstrip-word,
  is_empty-solid, strip-space,
}

-- no white space and no colon
abbrev pub IsKey : Text → Type 0
IsKey key = (1 ≤ length key) × (IsSolid key × All (λ c. (c == b':') ≡ false) key)

abbrev pub IsPrintable : Dict ℕ → Type 0
IsPrintable = All (λ (key, n). IsKey key × (length (show n) ≤ max_str_digits))

-- ` kB`
abbrev unit : Text
unit = 32 ∷ 107 ∷ 66 ∷ []

unfoldable pub printed_line : Text → ℕ → Text
printed_line key n = key ++ b':' ∷ 32 ∷ (show n ++ unit)

-- A line for each key, ending in a newline.
unfoldable pub printed : Dict ℕ → Text
unfolding printed_line
printed [] = []
printed ((key, n) ∷ entries) = printed_line key n ++ 10 ∷ printed entries

-- the value of the last entry of a key
unfoldable pub last_value : Text → Dict ℕ → Option ℤ
last_value key [] = none
last_value key ((k, n) ∷ entries) = elim (last_value key entries) [
  | some v ↦ some v
  | none ↦ if text_eq k key then some (pos n) else none
]

reverse-unit : (s t : Text) → reverse (s ++ (t ++ unit)) ≡ reverse unit ++ reverse (s ++ t)
reverse-unit s t = ap reverse (sym (append_assoc s t unit)) ∙ reverse-append (s ++ t) unit

lstrip-reverse-unit :
    (s t : Text) → lstrip (reverse (s ++ (t ++ unit))) ≡ reverse (s ++ (t ++ unit))
unfolding lstrip is_space
lstrip-reverse-unit s t = rw (reverse-unit s t) refl

-- Nothing is stripped from a text that starts with a word and ends in a unit.
strip-unit : (s t : Text) → 1 ≤ length s → IsSolid s → strip (s ++ (t ++ unit)) ≡ s ++ (t ++ unit)
unfolding strip
strip-unit s t l h =
    rw (lstrip-word s (t ++ unit) l h, lstrip-reverse-unit s t) (reverse-reverse (s ++ (t ++ unit)))

-- the dictionary of the entries
noted_all : Dict ℤ → Dict ℕ → Dict ℤ
noted_all d [] = d
noted_all d ((key, n) ∷ entries) = noted_all (insert key (pos n) d) entries

abbrev or_last : Option ℤ → Option ℤ → Option ℤ
or_last none o = o
or_last (some v) o = some v

or_last-last :
    (later : Option ℤ) (b : Bool) (v : ℤ) (o : Option ℤ)
    → or_last later (if b then some v else o)
      ≡ or_last (elim later [ some w ↦ some w | none ↦ if b then some v else none ]) o
or_last-last (some w) b v o = refl
or_last-last none true v o = refl
or_last-last none false v o = refl

or_last-nothing : (o : Option ℤ) → or_last o none ≡ o
or_last-nothing none = refl
or_last-nothing (some v) = refl

lookup-noted_all :
    (key : Text) (d : Dict ℤ) (entries : Dict ℕ)
    → lookup key (noted_all d entries) ≡ or_last (last_value key entries) (lookup key d)
unfolding noted_all last_value
lookup-noted_all key d [] = refl
lookup-noted_all key d ((k, n) ∷ entries) =
    lookup-noted_all key (insert k (pos n) d) entries
    ∙ ap (or_last (last_value key entries)) (lookup-insert k key (pos n) d)
    ∙ or_last-last (last_value key entries) (text_eq k key) (pos n) (lookup key d)

insert-ne-nil : (k : Text) (v : ℤ) (d : Dict ℤ) → insert k v d ≢ []
unfolding insert
insert-ne-nil k v [] = cons-ne-nil (k, v) []
insert-ne-nil k v ((j, w) ∷ d) = elim (Bool-cases (text_eq j k)) [
  | inl t ↦ rw t (cons-ne-nil (j, v) d)
  | inr f ↦ rw f (cons-ne-nil (j, w) (insert k v d))
]

noted_all-ne-nil : (d : Dict ℤ) (entries : Dict ℕ) → d ≢ [] → noted_all d entries ≢ []
unfolding noted_all
noted_all-ne-nil d [] h = h
noted_all-ne-nil d ((k, n) ∷ entries) h =
    noted_all-ne-nil (insert k (pos n) d) entries (insert-ne-nil k (pos n) d)

noted_all-first : (key : Text) (n : ℕ) (entries : Dict ℕ) → noted_all [] ((key, n) ∷ entries) ≢ []
unfolding noted_all
noted_all-first key n entries =
    noted_all-ne-nil (insert key (pos n) []) entries (insert-ne-nil key (pos n) [])

-- The metrics whose fields are read from the keys of the kernel.
abbrev pub metrics_by : (Text → ℤ) → ℕ → MemoryMetrics
metrics_by read timestamp = record {
  total_memory_kb = read (lit "MemTotal");
  free_memory_kb = read (lit "MemFree");
  available_memory_kb = read (lit "MemAvailable");
  buffers_kb = read (lit "Buffers");
  cached_kb = read (lit "Cached");
  swap_total_kb = read (lit "SwapTotal");
  swap_free_kb = read (lit "SwapFree");
  dirty_kb = read (lit "Dirty");
  timestamp = timestamp;
}

metrics_of-entries :
    (d : Dict ℤ) (t : ℕ) → d ≢ [] → metrics_of d t ≡ ok (metrics_by (λ key. field_of key d) t)
metrics_of-entries [] t h = absurd (h refl)
metrics_of-entries (entry ∷ d) t h = refl

field_of-noted_all :
    (key : Text) (entries : Dict ℕ)
    → field_of key (noted_all [] entries) ≡ or_zero (last_value key entries)
unfolding field_of lookup
field_of-noted_all key entries =
    ap or_zero (lookup-noted_all key [] entries ∙ or_last-nothing (last_value key entries))

module _ (tables : NumberTables) where
  first_int-flush :
      (s : Text) (rest : List Text)
      → 1 ≤ length s
      → first_int tables (flush s rest) ≡ parse_int tables s
  first_int-flush [] rest l = ground arith
  first_int-flush (c ∷ s) rest l = refl

  first_int-unit :
      (n : ℕ)
      → length (show n) ≤ max_str_digits
      → first_int tables (split (strip (32 ∷ (show n ++ unit)))) ≡ some (pos n)
  unfolding split
  first_int-unit n h =
      rw
        (
          strip-space (show n ++ unit),
          strip-unit (show n) [] (show-positive n) (show-IsSolid n),
          split_from-word [] (show n) (107 ∷ 66 ∷ []) (show-IsSolid n),
        )
        (first_int-flush (show n) (split_from [] (107 ∷ 66 ∷ [])) (show-positive n)
          ∙ parse_int-show tables n h)

  abbrev with_key : Text → Option ℤ → Option (Text × ℤ)
  with_key key none = none
  with_key key (some n) = some (strip key, n)

  meminfo_line-printed_line :
      (key : Text) (n : ℕ)
      → IsKey key
      → length (show n) ≤ max_str_digits
      → meminfo_line tables (printed_line key n) ≡ some (key, pos n)
  unfolding meminfo_line printed_line
  meminfo_line-printed_line key n (l, (solid, plain)) h =
      rw
        (
          strip-unit key (b':' ∷ 32 ∷ show n) l solid,
          split_once-key key (32 ∷ (show n ++ unit)) plain,
        )
        (ap (with_key key) (first_int-unit n h)
          ∙ ap (λ k. some (k, pos n)) (strip-IsSolid key solid))

  IsSolid-IsUnbroken : (s : Text) → IsSolid s → IsUnbroken s
  IsSolid-IsUnbroken = All-map solid-unbroken

  printed_line-IsUnbroken : (key : Text) (n : ℕ) → IsKey key → IsUnbroken (printed_line key n)
  unfolding printed_line is_line_break
  printed_line-IsUnbroken key n (l, (solid, plain)) =
      All-append _ key (b':' ∷ 32 ∷ (show n ++ unit)) (IsSolid-IsUnbroken key solid) (
        refl,
        (
          refl,
          All-append _ (show n) unit (IsSolid-IsUnbroken (show n) (show-IsSolid n))
              (refl, (refl, (refl, tt))),
        ),
      )

  read_lines-printed :
      (d : Dict ℤ) (entries : Dict ℕ)
      → IsPrintable entries
      → read_lines tables d (splitlines (printed entries)) ≡ noted_all d entries
  unfolding read_lines splitlines printed noted_all
  read_lines-printed d [] h = refl
  read_lines-printed d ((key, n) ∷ entries) ((k, l), hs) =
      ap (read_lines tables d) (
        lines_from-line [] (printed_line key n) (printed entries) (printed_line-IsUnbroken key n k))
      ∙ ap (λ o. read_lines tables (noted tables o d) (splitlines (printed entries)))
          (meminfo_line-printed_line key n k l)
      ∙ read_lines-printed (insert key (pos n) d) entries hs

  is_empty-printed :
      (key : Text) (n : ℕ) (entries : Dict ℕ)
      → IsKey key
      → is_empty (printed ((key, n) ∷ entries)) ≡ false
  unfolding printed printed_line
  is_empty-printed [] n entries (l, h) = ground arith
  is_empty-printed (c ∷ key) n entries (l, ((h, hs), plain)) = is_empty-solid c _ h

  -- The text of /proc/meminfo, with a line `Key: n kB` for each entry, is read as the metrics whose
  -- fields are the values of the last entries of their keys, and 0 where there is none; the keys
  -- have no white space and no colon, and a number has at most 4300 digits.
  pub parse_memory-printed :
      (key : Text) (n : ℕ) (entries : Dict ℕ) (t : ℕ)
      → IsPrintable ((key, n) ∷ entries)
      → parse_memory tables (printed ((key, n) ∷ entries)) t
        ≡ ok (metrics_by (λ k. or_zero (last_value k ((key, n) ∷ entries))) t)
  unfolding parse_memory
  parse_memory-printed key n entries t h =
      let all = (key, n) ∷ entries in
      rw (is_empty-printed key n entries h.0.0, read_lines-printed [] all h)
        (metrics_of-entries (noted_all [] all) t (noted_all-first key n entries)
          ∙ ap (λ read. ok (metrics_by read t)) (λ i k. field_of-noted_all k all i))
