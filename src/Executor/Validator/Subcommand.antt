-- ===== src/Executor/Validator/Subcommand.antt =====
-- `_extract_subcommand` (src/domain/executor/command_validator.py) against a description of its
-- result.
use ai_sre_platform_for_auto.Common.{
  ℕ, zero, suc, ◌≤◌, ◌<◌, Text, lit, true, false, none, some, List, [], ◌∷◌, ◌++◌, ◌≡◌, refl, ap,
  ◌↔◌, ◌⊎◌, inl, inr, join, length, All, arith, Bool-cases,
}
use ai_sre_platform_for_auto.Executor.Validator.{is_flag, take_parts, extract_subcommand}

-- What may follow the parts: nothing, a flag, or anything behind `n` parts.
abbrev pub Ends : ℕ → List Text → List Text → Type 0
Ends n parts [] = Unit
Ends n parts (r ∷ rest) = (is_flag r ≡ true) ⊎ (length parts ≡ n)

-- The longest run of non-flags, of at most `n`, that `args` begins with.
record IsRun (n : ℕ) (args parts : List Text) : Type 0 where
  rest : List Text
  splits : args ≡ parts ++ rest
  no_flags : All (λ p. is_flag p ≡ false) parts
  short : length parts ≤ n
  ends : Ends n parts rest

Ends-suc :
    (n : ℕ) (a : Text) (parts rest : List Text) → Ends n parts rest → Ends (suc n) (a ∷ parts) rest
Ends-suc n a parts [] h = tt
Ends-suc n a parts (r ∷ rest) h = ground arith

IsRun-cons :
    (n : ℕ) (a : Text) (args parts : List Text)
    → is_flag a ≡ false
    → IsRun n args parts
    → IsRun (suc n) (a ∷ args) (a ∷ parts)
IsRun-cons n a args parts part run = record {
  rest = run.rest;
  splits = ap (λ l. a ∷ l) run.splits;
  no_flags = (part, run.no_flags);
  short = omega (arith, run.short);
  ends = Ends-suc n a parts run.rest run.ends;
}

IsRun-nil : (n : ℕ) (args : List Text) → Ends n [] args → IsRun n args []
IsRun-nil n args h = record {
  rest = args;
  splits = refl;
  no_flags = tt;
  short = omega arith;
  ends = h;
}

take_parts-IsRun : (n : ℕ) (args : List Text) → IsRun n args (take_parts n args)
unfolding take_parts
take_parts-IsRun zero [] = IsRun-nil 0 [] tt
take_parts-IsRun zero (a ∷ args) = IsRun-nil 0 (a ∷ args) (inr refl)
take_parts-IsRun (suc n) [] = IsRun-nil (suc n) [] tt
take_parts-IsRun (suc n) (a ∷ args) = elim (Bool-cases (is_flag a)) [
  | inl flag ↦ rw flag (IsRun-nil (suc n) (a ∷ args) (inl flag))
  | inr part ↦ rw part (IsRun-cons n a args (take_parts n args) part (take_parts-IsRun n args))
]

-- Where a sub-command comes from: behind leading flags, up to three arguments that are no flags,
-- as many as there are, joined by spaces.
pub record IsSubcommand (args : List Text) (sub : Text) : Type 0 where
  pub flags : List Text
  pub parts : List Text
  pub rest : List Text
  pub splits : args ≡ flags ++ (parts ++ rest)
  pub all_flags : All (λ f. is_flag f ≡ true) flags
  pub no_flags : All (λ p. is_flag p ≡ false) parts
  pub nonempty : 0 < length parts
  pub short : length parts ≤ 3
  pub ends : Ends 3 parts rest
  pub joined : sub ≡ join (lit " ") parts

IsSubcommand-cons :
    (flag : Text) (args : List Text) (sub : Text)
    → is_flag flag ≡ true
    → IsSubcommand args sub
    → IsSubcommand (flag ∷ args) sub
IsSubcommand-cons flag args sub h s = record {
  flags = flag ∷ s.flags;
  parts = s.parts;
  rest = s.rest;
  splits = ap (λ l. flag ∷ l) s.splits;
  all_flags = (h, s.all_flags);
  no_flags = s.no_flags;
  nonempty = s.nonempty;
  short = s.short;
  ends = s.ends;
  joined = s.joined;
}

IsSubcommand-run :
    (a : Text) (args parts : List Text)
    → is_flag a ≡ false
    → IsRun 2 args parts
    → IsSubcommand (a ∷ args) (join (lit " ") (a ∷ parts))
IsSubcommand-run a args parts part run = record {
  flags = [];
  parts = a ∷ parts;
  rest = run.rest;
  splits = ap (λ l. a ∷ l) run.splits;
  all_flags = tt;
  no_flags = (part, run.no_flags);
  nonempty = omega arith;
  short = omega (arith, run.short);
  ends = Ends-suc 2 a parts run.rest run.ends;
  joined = refl;
}

-- The sub-command that is extracted is the run described above.
pub extract_subcommand-IsSubcommand :
    (args : List Text) (sub : Text) → extract_subcommand args ≡ some sub → IsSubcommand args sub
unfolding extract_subcommand
extract_subcommand-IsSubcommand [] sub h = cc
extract_subcommand-IsSubcommand (a ∷ args) sub h = elim (Bool-cases (is_flag a)) [
  | inl flag ↦
      IsSubcommand-cons a args sub flag (extract_subcommand-IsSubcommand args sub (ground arith))
  | inr part ↦
      let e : sub ≡ join (lit " ") (a ∷ take_parts 2 args) = ground arith in
      rw e (IsSubcommand-run a args (take_parts 2 args) part (take_parts-IsRun 2 args))
]

-- There is none exactly where every argument is a flag.
pub extract_subcommand-none_iff :
    (args : List Text) → (extract_subcommand args ≡ none) ↔ All (λ a. is_flag a ≡ true) args
unfolding extract_subcommand
extract_subcommand-none_iff [] = ground arith
extract_subcommand-none_iff (a ∷ args) = ground (arith, extract_subcommand-none_iff args)
