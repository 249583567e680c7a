-- ===== src/Repository/Memory.antt =====
-- A table in memory: the contract of `IRepository` can be met. Tests run on it.
use ai_sre_platform_for_auto.Common.{
  ℕ, zero, suc, true, false, Option, none, some, List, [], ◌∷◌, ◌≡◌, refl, ◌==◌, ==_iff, arith,
  if◌then◌else◌, length, take, Bool-cases, inl, inr, ap, ◌∙◌,
}
use ai_sre_platform_for_auto.Errors.{ok}
use ai_sre_platform_for_auto.Repository.{Repository, Keyed, IsRepository, key_or}

module _ {E : Type 0} where
  abbrev pub get_at : List (Option E) → ℕ → Option E
  get_at [] n = none
  get_at (r ∷ rows) zero = r
  get_at (r ∷ rows) (suc n) = get_at rows n

  -- A write behind the last row leaves empty rows between.
  abbrev pub set_at : List (Option E) → ℕ → Option E → List (Option E)
  set_at [] zero r = r ∷ []
  set_at [] (suc n) r = none ∷ set_at [] n r
  set_at (q ∷ rows) zero r = r ∷ rows
  set_at (q ∷ rows) (suc n) r = q ∷ set_at rows n r

  pub get_at-length : (rows : List (Option E)) → get_at rows (length rows) ≡ none
  get_at-length [] = refl
  get_at-length (r ∷ rows) = get_at-length rows

  get_at-set_at :
      (rows : List (Option E)) (n m : ℕ) (r : Option E)
      → get_at (set_at rows n r) m ≡ (if m == n then r else get_at rows m)
  get_at-set_at [] zero zero r = refl
  get_at-set_at [] zero (suc m) r = ground arith
  get_at-set_at [] (suc n) zero r = ground arith
  get_at-set_at [] (suc n) (suc m) r = ground (arith, get_at-set_at [] n m r)
  get_at-set_at (q ∷ rows) zero zero r = refl
  get_at-set_at (q ∷ rows) zero (suc m) r = ground arith
  get_at-set_at (q ∷ rows) (suc n) zero r = ground arith
  get_at-set_at (q ∷ rows) (suc n) (suc m) r = ground (arith, get_at-set_at rows n m r)

  abbrev pub present : List (Option E) → List E
  present [] = []
  present (none ∷ rows) = present rows
  present (some e ∷ rows) = e ∷ present rows

  abbrev pub skip : ℕ → List E → List E
  skip zero es = es
  skip (suc n) [] = []
  skip (suc n) (e ∷ es) = skip n es

module _ {S E : Type 0} (keyed : Keyed E) (rows : S → List (Option E))
    (put : S → List (Option E) → S) where
  abbrev pub name_row : ℕ → Option E → Option E
  name_row n none = none
  name_row n (some e) = some (keyed.with_id e n)

  -- The row under a key, with that key.
  abbrev pub read : S → ℕ → Option E
  read s n = name_row n (get_at (rows s) n)

  abbrev pub key : S → E → ℕ
  key s e = key_or (keyed.id_of e) (length (rows s))

  abbrev pub write : S → E → S
  write s e = put s (set_at (rows s) (key s e) (some e))

  abbrev pub memory : Repository S E
  memory = record {
    save = λ e s. (ok (keyed.with_id e (key s e)), write s e);
    get_by_id = λ n s. (ok (read s n), s);
    get_all = λ limit offset s. (ok (take limit (skip offset (present (rows s)))), s);
    delete = λ n s. (
      ok (elim (get_at (rows s) n) [ none ↦ false | some e ↦ true ]),
      put s (set_at (rows s) n none),
    );
  }

  module _ (rows-put : (s : S) (l : List (Option E)) → rows (put s l) ≡ l)
      (id_of-with_id : (e : E) (n : ℕ) → keyed.id_of (keyed.with_id e n) ≡ some n) where
    pub read-write :
        (s : S) (e : E) (m : ℕ)
        → read (write s e) m ≡ (if m == key s e then some (keyed.with_id e (key s e)) else read s m)
    read-write s e m =
        ap (name_row m) (rw (rows-put s _) (get_at-set_at (rows s) (key s e) m (some e)))
        ∙ choose (get_at (rows s) m)
      where
        choose :
            (old : Option E)
            → name_row m (if m == key s e then some e else old)
              ≡ (if m == key s e then some (keyed.with_id e (key s e)) else name_row m old)
        choose old = elim (Bool-cases (m == key s e)) [
          | inl same ↦ rw (same, (==_iff m (key s e)).0 same)
          | inr other ↦ rw other
        ]

    named-row : (n : ℕ) (r : Option E) (e : E) → name_row n r ≡ some e → keyed.id_of e ≡ some n
    named-row n none e h = cc
    named-row n (some d) e h = ground (arith, id_of-with_id d n)

    pub read-named : (s : S) (n : ℕ) (e : E) → read s n ≡ some e → keyed.id_of e ≡ some n
    read-named s n e h = named-row n (get_at (rows s) n) e h

    abbrev pub memory-IsRepository : IsRepository keyed memory read
    memory-IsRepository = record {
      fresh = λ s. length (rows s);
      after = write;
      fresh_unused = λ s. ap (name_row (length (rows s))) (get_at-length (rows s));
      named = read-named;
      reads = λ s n. refl;
      saves = λ s e. refl;
      stores = read-write;
    }
