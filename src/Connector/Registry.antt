-- ===== src/Connector/Registry.antt =====
-- The registry of connector factories (src/infrastructure/connectors/connector_registry.py) and the
-- resolver (src/infrastructure/connectors/connector_resolver.py). `show_type` is how a
-- `ConnectorType` prints.
use ai_sre_platform_for_auto.Common.{Text, List, Option, Bool, [], ◌∷◌, none, some, lit, ◌++◌}
use ai_sre_platform_for_auto.Errors.{Result, ok, raise, value_error}
use ai_sre_platform_for_auto.Errors.{◌>>=◌}
use ai_sre_platform_for_auto.Inventory.{
  ConnectorType, ssh, hostinger, aws, azure, docker, kubernetes,
}
use ai_sre_platform_for_auto.Connector.{Connector}
use ai_sre_platform_for_auto.Common.{if◌then◌else◌, refl, ℕ, ◌==◌, ◌≡◌}
use ai_sre_platform_for_auto.Common.{arith}

unfoldable pub number_of : ConnectorType → ℕ
number_of ssh = 0
number_of hostinger = 1
number_of aws = 2
number_of azure = 3
number_of docker = 4
number_of kubernetes = 5

unfoldable pub same_type : ConnectorType → ConnectorType → Bool
same_type a b = number_of a == number_of b

-- A factory takes the keyword arguments `K`.
abbrev pub Factories : Type 0 → Type 0 → Type 0 → Type 0
Factories K W Float = List (ConnectorType × (K → Result (Connector W Float)))

module _ {K W Float : Type 0} where
  unfoldable pub factory_of :
      ConnectorType → Factories K W Float → Option (K → Result (Connector W Float))
  factory_of t [] = none
  factory_of t ((u, factory) ∷ factories) =
      if same_type u t then some factory else factory_of t factories

  unfoldable pub register_factory :
      ConnectorType → (K → Result (Connector W Float)) → Factories K W Float → Factories K W Float
  register_factory t factory [] = (t, factory) ∷ []
  register_factory t factory ((u, other) ∷ factories) =
      let rest = register_factory t factory factories in
      if same_type u t then (u, factory) ∷ factories else (u, other) ∷ rest

  module _ (show_type : ConnectorType → Text) where
    abbrev required :
        ConnectorType
        → Option (K → Result (Connector W Float))
        → Result (K → Result (Connector W Float))
    required t none =
        raise value_error (lit "No connector implementation registered for type: " ++ show_type t)
    required t (some factory) = ok factory

    unfoldable pub get_factory :
        Factories K W Float → ConnectorType → Result (K → Result (Connector W Float))
    unfolding factory_of
    get_factory factories t = required t (factory_of t factories)

    -- `ConnectorResolver.resolve`
    unfoldable pub resolve : Factories K W Float → ConnectorType → K → Result (Connector W Float)
    unfolding get_factory
    resolve factories t arguments = do factory ← get_factory factories t; factory arguments

  -- the registrations at the end of the module
  unfoldable pub default_factories :
      (K → Result (Connector W Float)) → (K → Result (Connector W Float)) → Factories K W Float
  unfolding register_factory
  default_factories linux_ssh vps =
      register_factory hostinger vps (register_factory ssh linux_ssh [])

  -- A registration is found under its own type alone: under any other type the registry answers as
  -- before.
  pub factory_of-register_factory :
      (t u : ConnectorType) (factory : K → Result (Connector W Float))
      (factories : Factories K W Float)
      → factory_of u (register_factory t factory factories)
        ≡ (if same_type t u then some factory else factory_of u factories)
  unfolding factory_of register_factory same_type
  factory_of-register_factory t u factory [] = refl
  factory_of-register_factory t u factory ((v, other) ∷ factories) =
      ground (arith, factory_of-register_factory t u factory factories)
