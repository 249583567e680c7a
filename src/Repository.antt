-- ===== src/Repository.antt =====
-- The interface `IRepository` (src/domain/interfaces/repositories.py) and its contract, which
-- clients rely on. The PostgreSQL classes stand behind it.
pub mod Memory
use ai_sre_platform_for_auto.Common.{ℕ, Bool, Option, none, some, List, ◌≡◌, ◌==◌, if◌then◌else◌}
use ai_sre_platform_for_auto.Errors.{Result, ok}
use ai_sre_platform_for_auto.Effects.{Exec}

pub record Repository (S E : Type 0) : Type 0 where
  pub save : E → Exec S E
  pub get_by_id : ℕ → Exec S (Option E)
  pub get_all : ℕ → ℕ → Exec S (List E)
  pub delete : ℕ → Exec S Bool

-- The identity field of an entity, `None` until it is saved.
pub record Keyed (E : Type 0) : Type 0 where
  pub id_of : E → Option ℕ
  pub with_id : E → ℕ → E

abbrev pub key_or : Option ℕ → ℕ → ℕ
key_or none fresh = fresh
key_or (some n) fresh = n

-- What a repository promises while its store works: `get_by_id` reads what is stored under the key
-- that the entity carries, and changes nothing, and
-- `save` returns the entity with its key, the one that it came with or an unused one, and stores
-- it under that key alone.
pub record IsRepository {S E : Type 0} (keyed : Keyed E) (repo : Repository S E)
    (stored : S → ℕ → Option E) : Type 0 where
  pub fresh : S → ℕ
  pub after : S → E → S
  pub fresh_unused : (s : S) → stored s (fresh s) ≡ none
  pub named : (s : S) (n : ℕ) (e : E) → stored s n ≡ some e → keyed.id_of e ≡ some n
  pub reads : (s : S) (n : ℕ) → repo.get_by_id n s ≡ (ok (stored s n), s)
  pub saves :
      (s : S) (e : E)
      → repo.save e s ≡ (ok (keyed.with_id e (key_or (keyed.id_of e) (fresh s))), after s e)
  pub stores :
      (s : S) (e : E) (m : ℕ)
      → stored (after s e) m ≡ (
          if m == key_or (keyed.id_of e) (fresh s)
          then some (keyed.with_id e (key_or (keyed.id_of e) (fresh s)))
          else stored s m)
