-- ===== src/Collector/Registry/Laws.antt =====
-- What the registry of collectors keeps.
use ai_sre_platform_for_auto.Common.{
  none, some, [], ◌∷◌, ◌++◌, refl, lookup, insert, remove, Bool-cases, inl, inr, if◌then◌else◌,
}
use ai_sre_platform_for_auto.Errors.{ok, raise, not_found, conflict}
use ai_sre_platform_for_auto.Collector.{Collector}
use ai_sre_platform_for_auto.Collector.Registry.{
  CollectorRegistry, exists, register, unregister, get, list,
}
use ai_sre_platform_for_auto.Collector.Registry.{insert, lookup, remove}
use ai_sre_platform_for_auto.Common.{◌≡◌}
use ai_sre_platform_for_auto.Collector.{Text}
use ai_sre_platform_for_auto.Common.{arith}
use ai_sre_platform_for_auto.Common.{text_eq_refl}
use ai_sre_platform_for_auto.Collector.Registry.{false, lit, true}
use ai_sre_platform_for_auto.Common.{All, text_eq}
use ai_sre_platform_for_auto.Common.{Option-cases, lookup-insert, text_eq_iff, ◌⊎◌}
use ai_sre_platform_for_auto.Common.{All-map, sym}
use ai_sre_platform_for_auto.Common.{ap}

already : Text → Text
already name = lit "Collector '" ++ (name ++ lit "' is already registered.")

unknown : Text → Text
unknown name = lit "Collector '" ++ (name ++ lit "' is not registered.")

module _ {S Executor Float : Type 0} where
  -- Every collector stands under its own name, and no name stands twice.
  abbrev pub IsRegistry : CollectorRegistry S Executor Float → Type 0
  IsRegistry [] = Unit
  IsRegistry ((k, c) ∷ r) = (k ≡ c.name) × (lookup k r ≡ none) × IsRegistry r

  lookup-remove :
      (r : CollectorRegistry S Executor Float) (k j : Text)
      → IsRegistry r
      → lookup j (remove k r) ≡ (if text_eq k j then none else lookup j r)
  unfolding lookup remove
  lookup-remove [] k j v = ground arith
  lookup-remove ((i, c) ∷ r) k j (n, u, v) =
      ground (arith, u, text_eq_iff k j, text_eq_iff i k, text_eq_iff i j, lookup-remove r k j v)

  insert-IsRegistry :
      (r : CollectorRegistry S Executor Float) (c : Collector S Executor Float)
      → lookup c.name r ≡ none
      → IsRegistry r
      → IsRegistry (insert c.name c r)
  unfolding insert lookup
  insert-IsRegistry [] c h v = (refl, refl, tt)
  insert-IsRegistry ((i, d) ∷ r) c h (n, u, v) = elim (Bool-cases (text_eq i c.name)) [
    | inl t ↦ ground arith
    | inr f ↦ rw f (
      n,
      ground (arith, u, f, lookup-insert c.name i c r, text_eq_iff c.name i, text_eq_iff i c.name),
      insert-IsRegistry r c (ground arith) v,
    )
  ]

  remove-IsRegistry :
      (r : CollectorRegistry S Executor Float) (k : Text) → IsRegistry r → IsRegistry (remove k r)
  unfolding remove
  remove-IsRegistry [] k v = tt
  remove-IsRegistry ((i, c) ∷ r) k (n, u, v) = elim (Bool-cases (text_eq i k)) [
    | inl t ↦ rw t v
    | inr f ↦ rw f (n, ground (arith, u, lookup-remove r k i v), remove-IsRegistry r k v)
  ]

  remove-insert :
      (r : CollectorRegistry S Executor Float) (k : Text) (c : Collector S Executor Float)
      → lookup k r ≡ none
      → remove k (insert k c r) ≡ r
  unfolding remove insert lookup
  remove-insert [] k c h = ground (arith, text_eq_refl k)
  remove-insert ((i, d) ∷ r) k c h = ground (arith, h, remove-insert r k c)

  pub exists-none :
      (r : CollectorRegistry S Executor Float) (n : Text) → exists r n ≡ false → lookup n r ≡ none
  unfolding exists
  exists-none r n h = ground (arith, Option-cases (lookup n r))

  exists-insert :
      (r : CollectorRegistry S Executor Float) (c : Collector S Executor Float)
      → exists (insert c.name c r) c.name ≡ true
  unfolding exists
  exists-insert r c = ground (arith, lookup-insert c.name c.name c r, text_eq_refl c.name)

  -- A name that is taken is refused with ConflictError; any other collector is added under its name,
  -- the registry stays well formed, and nothing else of it changes.
  pub register_lem :
      (r : CollectorRegistry S Executor Float) (c : Collector S Executor Float)
      → IsRegistry r
      → ((exists r c.name ≡ true) × ((message : Text) × (register r c ≡ raise conflict message)))
        ⊎ ((exists r c.name ≡ false)
            × ((r' : CollectorRegistry S Executor Float) × (register r c ≡ ok r')
                × IsRegistry r'
                × ((n : Text) → lookup n r' ≡ (if text_eq c.name n then some c else lookup n r))))
  unfolding register already
  register_lem r c v = elim (Bool-cases (exists r c.name)) [
    | inl t ↦ inl (t, (already c.name, rw t refl))
    | inr f ↦ inr (
      f,
      (
        insert c.name c r,
        rw f refl,
        insert-IsRegistry r c (exists-none r c.name f) v,
        λ n. lookup-insert c.name n c r,
      ),
    )
  ]

  -- A name that is not registered is refused with NotFoundError; any other is removed, the registry
  -- stays well formed, and nothing else of it changes.
  pub unregister_lem :
      (r : CollectorRegistry S Executor Float) (name : Text)
      → IsRegistry r
      → ((exists r name ≡ false)
          × ((message : Text) × (unregister r name ≡ raise not_found message)))
        ⊎ ((exists r name ≡ true)
            × ((r' : CollectorRegistry S Executor Float) × (unregister r name ≡ ok r')
                × IsRegistry r'
                × ((n : Text) → lookup n r' ≡ (if text_eq name n then none else lookup n r))))
  unfolding unregister unknown
  unregister_lem r name v = elim (Bool-cases (exists r name)) [
    | inl t ↦
        inr
          (t, (remove name r, rw t refl, remove-IsRegistry r name v, λ n. lookup-remove r name n v))
    | inr f ↦ inl (f, (unknown name, rw f refl))
  ]

  -- Unregistering the collector that was just registered gives the registry back as it was, in the
  -- same order.
  pub unregister-register :
      (r r' : CollectorRegistry S Executor Float) (c : Collector S Executor Float)
      → register r c ≡ ok r'
      → unregister r' c.name ≡ ok r
  unfolding register unregister
  unregister-register r r' c h = elim (Bool-cases (exists r c.name)) [
    | inl t ↦ ground arith
    | inr f ↦
        let e : insert c.name c r ≡ r' = ground arith in
        rw (sym e)
          (rw (exists-insert r c) (ap ok (remove-insert r c.name c (exists-none r c.name f))))
  ]

  later_found :
      (k : Text) (c d : Collector S Executor Float) (r : CollectorRegistry S Executor Float)
      → lookup k r ≡ none
      → lookup d.name r ≡ some d
      → lookup d.name ((k, c) ∷ r) ≡ some d
  unfolding lookup
  later_found k c d r u h = ground (arith, u, h, text_eq_iff k d.name)

  lookup-list :
      (r : CollectorRegistry S Executor Float)
      → IsRegistry r
      → All (λ c. lookup c.name r ≡ some c) (list r)
  unfolding list lookup
  lookup-list [] v = tt
  lookup-list ((k, c) ∷ r) (n, u, v) = (
    ground (arith, n, text_eq_iff k c.name),
    All-map (λ d h. later_found k c d r u h) (list r) (lookup-list r v),
  )

  -- In a well-formed registry every listed collector is what its name finds.
  pub list-found :
      (r : CollectorRegistry S Executor Float)
      → IsRegistry r
      → All (λ c. get r c.name ≡ ok c) (list r)
  unfolding get
  list-found r v = All-map (λ c h. rw h refl) (list r) (lookup-list r v)
