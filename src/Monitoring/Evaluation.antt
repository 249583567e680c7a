-- ===== src/Monitoring/Evaluation.antt =====
-- What `RuleEngine.evaluate_server` reads, saves and raises, over working repositories.
use ai_sre_platform_for_auto.Common.{ℕ, [], ◌∷◌, refl, ◌++◌, none, some}
use ai_sre_platform_for_auto.Errors.{ok, raise, not_found}
use ai_sre_platform_for_auto.Server.{Server}
use ai_sre_platform_for_auto.Inventory.{Inventory}
use ai_sre_platform_for_auto.Health.{ServerHealth}
use ai_sre_platform_for_auto.Values.{end}
use ai_sre_platform_for_auto.Monitoring.{TelemetryMetric, EvaluationContext}
use ai_sre_platform_for_auto.Monitoring.Engine.{
  Ports, evaluate_server, run_rules, score, status_of, gather, collected, assess, metric_types,
  find_server, find_inventory,
}
use ai_sre_platform_for_auto.Common.{CaseTables, Option}
use ai_sre_platform_for_auto.Common.{List, Text, lookup, ◌≡◌}
use ai_sre_platform_for_auto.Common.{Dict, member, ◌⊎◌}
use ai_sre_platform_for_auto.Common.{if◌then◌else◌}
use ai_sre_platform_for_auto.Common.{Bool-cases, inl, text_eq}
use ai_sre_platform_for_auto.Common.{arith, inr}
use ai_sre_platform_for_auto.Common.{lookup-insert}
use ai_sre_platform_for_auto.Common.{Option-cases, text_eq_iff}
use ai_sre_platform_for_auto.Common.{sym}
use ai_sre_platform_for_auto.Common.{ap}
use ai_sre_platform_for_auto.Common.{lit, ◌==◌, false}
use ai_sre_platform_for_auto.Common.{show}

unknown_server : ℕ → Text
unknown_server n = lit "Server with ID " ++ (show n ++ lit " not found.")

unknown_inventory : ℕ → Text
unknown_inventory n = lit "Inventory record for server ID " ++ (show n ++ lit " not found.")

-- What `RuleEngine` relies on in its repositories while the database works.
pub record Works {S Float : Type 0} (ports : Ports S Float) : Type 0 where
  pub servers : S → ℕ → Option (Server Float)
  pub inventories : S → ℕ → Option (Inventory Float)
  pub latest : S → ℕ → Text → Option (TelemetryMetric Float)
  pub healths : S → ℕ → Option (ServerHealth Float)
  pub reads_server : (s : S) (n : ℕ) → ports.server_repository.get_by_id n s ≡ (ok (servers s n), s)
  pub reads_inventory : (s : S) (n : ℕ) → ports.get_by_server_id n s ≡ (ok (inventories s n), s)
  pub reads_latest :
      (s : S) (n : ℕ) (t : Text) → ports.get_latest_by_server_id n t s ≡ (ok (latest s n t), s)
  -- a new record of health is stored under an unused key, and nothing else is written
  pub fresh : S → ℕ
  pub after : S → ServerHealth Float → S
  pub fresh_unused : (s : S) → healths s (fresh s) ≡ none
  pub saves :
      (s : S) (h : ServerHealth Float)
      → h.id ≡ none
      → ports.health_repository.save h s ≡ (ok (record h { id = some (fresh s) }), after s h)
  pub stores :
      (s : S) (h : ServerHealth Float) (m : ℕ)
      → h.id ≡ none
      → healths (after s h) m
        ≡ (if m == fresh s then some (record h { id = some (fresh s) }) else healths s m)

module _ {A : Type 0} where
  or_else : Option A → Option A → Option A
  or_else none o = o
  or_else (some a) o = some a

  or_else-none : (o : Option A) → or_else o none ≡ o
  unfolding or_else
  or_else-none none = refl
  or_else-none (some a) = refl

  or_else-again : (m o : Option A) → or_else m (or_else m o) ≡ or_else m o
  unfolding or_else
  or_else-again none o = refl
  or_else-again (some a) o = refl

module _ {S Float : Type 0} (tables : CaseTables) (ports : Ports S Float)
    (works : Works ports) where
  -- the dictionary that step 3 makes from the types that are still to come
  pub snapshot : S → ℕ → List Text → Dict (TelemetryMetric Float) → Dict (TelemetryMetric Float)
  snapshot s n [] d = d
  snapshot s n (t ∷ ts) d = snapshot s n ts (collected tables ports t (works.latest s n t) d)

  gather-snapshot :
      (s : S) (n : ℕ) (ts : List Text) (d : Dict (TelemetryMetric Float))
      → gather tables ports n ts d s ≡ (ok (snapshot s n ts d), s)
  unfolding gather snapshot
  gather-snapshot s n [] d = refl
  gather-snapshot s n (t ∷ ts) d =
      rw (works.reads_latest s n t)
        (gather-snapshot s n ts (collected tables ports t (works.latest s n t) d))

  abbrev pub context_of : S → ℕ → Inventory Float → EvaluationContext Float
  context_of s n inventory = record {
    inventory = inventory;
    latest_telemetry = snapshot s n (metric_types tables ports) [];
    timestamp = ports.now s;
    metadata = end;
  }

  lookup-collected :
      (u t : Text) (m : Option (TelemetryMetric Float)) (d : Dict (TelemetryMetric Float))
      → lookup t (collected tables ports u m d)
        ≡ (if text_eq u t then or_else m (lookup t d) else lookup t d)
  unfolding or_else
  lookup-collected u t none d = ground arith
  lookup-collected u t (some m) d = lookup-insert u t m d

  lookup-snapshot :
      (s : S) (n : ℕ) (t : Text) (ts : List Text) (d : Dict (TelemetryMetric Float))
      → lookup t (snapshot s n ts d)
        ≡ (if member t ts then or_else (works.latest s n t) (lookup t d) else lookup t d)
  unfolding snapshot member
  lookup-snapshot s n t [] d = refl
  lookup-snapshot s n t (u ∷ ts) d =
      let m = works.latest s n u in
      let d' = collected tables ports u m d in
      let from_d' = lookup-snapshot s n t ts d' in
      elim (Bool-cases (text_eq t u)) [
        | inl h ↦
            let e = (text_eq_iff t u).0 h in
            ground (
              arith,
              h,
              from_d',
              lookup-collected u t m d,
              text_eq_iff u t,
              sym e,
              ap (works.latest s n) e,
              or_else-again (works.latest s n t) (lookup t d),
            )
        | inr h ↦
            ground (arith, h, from_d', lookup-collected u t m d, text_eq_iff u t, text_eq_iff t u)
      ]

  -- Of the latest metrics, the rules see exactly those of the five types, as they are stored.
  pub context_of-lookup :
      (s : S) (n : ℕ) (inventory : Inventory Float) (t : Text)
      → lookup t (context_of s n inventory).latest_telemetry
        ≡ (if member t (metric_types tables ports) then works.latest s n t else none)
  unfolding lookup
  context_of-lookup s n inventory t =
      rw (lookup-snapshot s n t (metric_types tables ports) [])
        (rw (or_else-none (works.latest s n t)) refl)

  -- The health of a server that is not known, or has no inventory, is not evaluated: the error is
  -- NotFoundError, and nothing is written.
  pub evaluate_server-missing :
      (s : S) (n : ℕ)
      → (works.servers s n ≡ none) ⊎ (works.inventories s n ≡ none)
      → (message : Text) × (evaluate_server tables ports n s ≡ (raise not_found message, s))
  unfolding evaluate_server find_server find_inventory unknown_server unknown_inventory
  evaluate_server-missing s n h = elim h [
    | inl e ↦ (unknown_server n, rw (works.reads_server s n) (rw e refl))
    | inr e ↦ elim (Option-cases (works.servers s n)) [
      | inl none_known ↦ (unknown_server n, rw (works.reads_server s n) (rw none_known refl))
      | inr (server, known) ↦ (
        unknown_inventory n,
        rw (works.reads_server s n) (rw known (rw (works.reads_inventory s n) (rw e refl))),
      )
    ]
  ]

  -- The context of the rules: the stored inventory, the time of the call, and of the latest
  -- metrics those of the five types, as they are stored.
  pub record IsContext (s : S) (n : ℕ) (inventory : Inventory Float) (c : EvaluationContext Float)
      : Type 0 where
    pub of_inventory : c.inventory ≡ inventory
    pub at_call : c.timestamp ≡ ports.now s
    pub latest_metrics :
        (t : Text)
        → lookup t c.latest_telemetry ≡ (
            if member t (lit "cpu" ∷ lit "memory" ∷ lit "disk" ∷ lit "network" ∷ lit "service" ∷ [])
            then works.latest s n t
            else none)

  -- For a known server that has an inventory, its health is returned and stored under a key that
  -- was not in use, and every other record of health is as it was. Its findings are those of the
  -- rules on the stored inventory, the time of the call, and exactly the latest stored metrics of the
  -- types cpu, memory, disk, network and service; its score and status are those of the findings.
  pub evaluate_server-saves :
      (s : S) (n : ℕ) {server : Server Float} {inventory : Inventory Float}
      → works.servers s n ≡ some server
      → works.inventories s n ≡ some inventory
      → (key : ℕ) × (after : S) × (health : ServerHealth Float) × (c : EvaluationContext Float)
        × (evaluate_server tables ports n s ≡ (ok health, after))
        × (works.healths s key ≡ none)
        × (works.healths after key ≡ some health)
        × ((m : ℕ) → (m == key) ≡ false → works.healths after m ≡ works.healths s m)
        × (IsContext s n inventory c)
        × (health.id ≡ some key)
        × (health.server_id ≡ n)
        × (health.findings ≡ run_rules c ports.rules)
        × (health.health_score ≡ ports.of_ℕ (score tables health.findings))
        × (health.overall_status ≡ status_of (score tables health.findings))
        × (health.evaluation_timestamp ≡ ports.now s)
  unfolding evaluate_server find_server find_inventory assess
  evaluate_server-saves s n {inventory = inventory} h i =
      let c = context_of s n inventory in
      let health = assess tables ports n c in
      let key = works.fresh s in
      (
        key,
        works.after s health,
        record health { id = some key },
        c,
        rw (works.reads_server s n) (
            rw h (
              rw (works.reads_inventory s n) (
                rw i (
                  rw (gather-snapshot s n (metric_types tables ports) [])
                    (works.saves s health refl))))),
        works.fresh_unused s,
        rw (works.stores s health key refl) (ground arith),
        λ m other. rw (works.stores s health m refl, other) refl,
        record {
          of_inventory = refl;
          at_call = refl;
          latest_metrics = context_of-lookup s n inventory;
        },
        refl,
        refl,
        refl,
        refl,
        refl,
        refl,
      )
