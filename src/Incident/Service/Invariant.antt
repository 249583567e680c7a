-- ===== src/Incident/Service/Invariant.antt =====
-- What holds of every stored incident after any requests, and how the timeline grows
-- (src/application/services/incident_service.py).
use ai_sre_platform_for_auto.Common.{
  ℕ, ◌≤◌, ◌+◌, Text, Option, none, some, List, [], ◌∷◌, ◌++◌, ◌≡◌, refl, sym, ◌∙◌, CaseTables, ◌==◌,
  arith, if◌then◌else◌, length, length-append, Bool-cases, inl, inr,
}
use mathlib.Core.List.{append-nil, append_assoc}
use ai_sre_platform_for_auto.Errors.{Result, ok, raise}
use ai_sre_platform_for_auto.Incident.{Incident, TimelineEntry}
use ai_sre_platform_for_auto.Incident.Lifecycle.{Stage, IsAt, transition_to-IsAt, Stamps}
use ai_sre_platform_for_auto.Incident.Service.{Ports}
use ai_sre_platform_for_auto.Incident.Service.Contract.{Works}
use ai_sre_platform_for_auto.Incident.Service.Effect.{key, keyed, entry, committed}
use ai_sre_platform_for_auto.Incident.Service.Request.{
  Request, perform, SameLife, Change, edited, moved, failed, saved, unlogged, perform-Atomic,
}

-- The status and the dates of an incident agree, at some stage.
abbrev pub IsCoherent : {Float : Type 0} → ℕ → Incident Float → Type 0
IsCoherent now i = (stage : Stage) × IsAt stage now i

abbrev pub OnSome : {A : Type 0} → (A → Type 0) → Option A → Type 0
OnSome P none = Unit
OnSome P (some a) = P a

Stamps-later :
    (stage : Stage) (created before now : ℕ) (a r c : Option ℕ)
    → before ≤ now
    → Stamps stage created before a r c
    → Stamps stage created now a r c
Stamps-later Stage.opened created before now a r c le h = (omega (arith, h.0), h.1, h.2, h.3)
Stamps-later Stage.acknowledged created before now a r c le (t, p, q, x, y, z) =
    (t, p, omega arith, x, y, z)
Stamps-later Stage.in_progress created before now a r c le (t, p, q, x, y, z) =
    (t, p, omega arith, x, y, z)
Stamps-later Stage.resolved created before now a r c le (t, u, p, q, w, x, y, z) =
    (t, u, p, q, omega arith, x, y, z)
Stamps-later Stage.closed created before now a r c le (t, u, v, p, q, w, l, x, y, z) =
    (t, u, v, p, q, w, omega arith, x, y, z)

module _ {Float : Type 0} where
  IsAt-later :
      (stage : Stage) (before now : ℕ) (i : Incident Float)
      → before ≤ now
      → IsAt stage before i
      → IsAt stage now i
  IsAt-later stage before now i le at = record {
    named = at.named;
    stamps =
        Stamps-later stage i.created_at before now i.acknowledged_at i.resolved_at i.closed_at le
          at.stamps;
  }

  IsAt-SameLife :
      (stage : Stage) (now : ℕ) (i j : Incident Float)
      → SameLife i j
      → IsAt stage now j
      → IsAt stage now i
  IsAt-SameLife stage now i j same at = record {
    named = same.status ∙ at.named;
    stamps = rw (same.created_at, same.acknowledged_at, same.resolved_at, same.closed_at) at.stamps;
  }

  IsAt-key :
      (stage : Stage) (now : ℕ) (i : Incident Float) (n : Option ℕ)
      → IsAt stage now i
      → IsAt stage now (record i { id = n })
  IsAt-key stage now i n at = record { named = at.named; stamps = at.stamps }

module _ {S Float : Type 0} (tables : CaseTables) (ports : Ports S Float)
    (works : Works ports) where
  -- Every stored incident is coherent.
  abbrev pub AllCoherent : S → Type 0
  AllCoherent s = (n : ℕ) → OnSome (IsCoherent (ports.now s)) (works.stored s n)

  Change-IsCoherent :
      (s : S) (i : Incident Float)
      → AllCoherent s
      → Change tables ports works s i
      → IsCoherent (ports.now s) i
  Change-IsCoherent s i all (Change.opened p q c a r d) =
      (Stage.opened, record { named = q; stamps = (omega (arith, c), a, r, d) })
  Change-IsCoherent s i all (edited n o h same) =
      let (stage, at) : IsCoherent (ports.now s) o = rw h at (all n) in
      (stage, IsAt-SameLife stage (ports.now s) i o same at)
  Change-IsCoherent s i all (moved n o j new_status h e same) =
      let (stage, at) : IsCoherent (ports.now s) o = rw h at (all n) in
      let (after, _, there, _) =
        transition_to-IsAt tables stage o j new_status (ports.now s) (ports.now s) at (omega arith)
          e in
      (after, IsAt-SameLife after (ports.now s) i j same there)

  IsCoherent-later :
      (before now : ℕ) (i : Incident Float) → before ≤ now → IsCoherent before i → IsCoherent now i
  IsCoherent-later before now i le (stage, at) = (stage, IsAt-later stage before now i le at)

  OnSome-later :
      (before now : ℕ) (o : Option (Incident Float))
      → before ≤ now
      → OnSome (IsCoherent before) o
      → OnSome (IsCoherent now) o
  OnSome-later before now none le h = tt
  OnSome-later before now (some i) le h = IsCoherent-later before now i le h

  -- A state that stores the incident under its key, and nothing else, at a later time.
  stored-AllCoherent :
      (s : S) (i : Incident Float) (s' : S)
      → ports.now s ≤ ports.now s'
      → ((m : ℕ)
          → works.stored s' m ≡ (
              if m == key tables ports works s i
              then some (keyed tables ports works s i)
              else works.stored s m))
      → AllCoherent s
      → Change tables ports works s i
      → AllCoherent s'
  stored-AllCoherent s i s' le stores all change m =
      elim (Bool-cases (m == key tables ports works s i)) [
        | inl same ↦
            rw (stores m, same)
              (let (stage, at) = Change-IsCoherent s i all change in
                (
                  stage,
                  IsAt-key stage (ports.now s') i (some (key tables ports works s i))
                      (IsAt-later stage (ports.now s) (ports.now s') i le at),
                ))
        | inr other ↦
            rw (stores m, other)
              (OnSome-later (ports.now s) (ports.now s') (works.stored s m) le (all m))
      ]

  module _ (s : S) (i : Incident Float) (event message actor : Text) where
    abbrev after : S
    after = committed tables ports works s i event message actor

    later : ports.now s ≤ ports.now after
    later = omega (
      arith,
      works.save_later s i,
      works.log_later (works.incidents.after s i)
          (entry tables ports works s i event message actor),
    )

    stored_after :
        (m : ℕ)
        → works.stored after m ≡ (
            if m == key tables ports works s i
            then some (keyed tables ports works s i)
            else works.stored s m)
    stored_after m =
        works.log_keeps (works.incidents.after s i)
          (entry tables ports works s i event message actor) m
        ∙ works.incidents.stores s i m

    timeline_after :
        works.timeline after
        ≡ works.timeline s
          ++ record (entry tables ports works s i event message actor) {
            id = some (works.entry_id (works.incidents.after s i));
          }
            ∷ []
    timeline_after = rw (
      works.logged (works.incidents.after s i) (entry tables ports works s i event message actor),
      works.save_keeps s i,
    )

    committed-AllCoherent : AllCoherent s → Change tables ports works s i → AllCoherent after
    committed-AllCoherent all change = stored-AllCoherent s i after later stored_after all change

  unlogged-AllCoherent :
      (s : S) (i : Incident Float)
      → AllCoherent s
      → Change tables ports works s i
      → AllCoherent (works.incidents.after s i)
  unlogged-AllCoherent s i all change =
      stored-AllCoherent s i (works.incidents.after s i) (works.save_later s i)
        (λ m. works.incidents.stores s i m) all change

  -- Each request keeps every stored incident coherent.
  pub perform-AllCoherent :
      (s : S) (r : Request Float) → AllCoherent s → AllCoherent (perform tables ports r s).1
  perform-AllCoherent s r all = elim (perform-Atomic tables ports works s r) [
    | failed k m e ↦ rw e all
    | saved i event message actor e change accepts ↦
        rw e (committed-AllCoherent s i event message actor all change)
    | unlogged i k m e change rejects old ↦ rw e (unlogged-AllCoherent s i all change)
  ]

  -- A request that raises ends alone, as each HTTP request does.
  unfoldable pub serve : S → List (Request Float) → S
  serve s [] = s
  serve s (r ∷ rs) = serve (perform tables ports r s).1 rs

  -- If every stored incident is coherent, it stays so after any requests, in any order.
  pub serve-AllCoherent :
      (s : S) (rs : List (Request Float)) → AllCoherent s → AllCoherent (serve s rs)
  unfolding serve
  serve-AllCoherent s [] all = all
  serve-AllCoherent s (r ∷ rs) all =
      serve-AllCoherent (perform tables ports r s).1 rs (perform-AllCoherent s r all)

  abbrev pub accepted : Result (Incident Float) → ℕ
  accepted (ok i) = 1
  accepted (raise k m) = 0

  -- How many of the requests do not raise.
  unfoldable pub successes : S → List (Request Float) → ℕ
  successes s [] = 0
  successes s (r ∷ rs) =
      accepted (perform tables ports r s).0 + successes (perform tables ports r s).1 rs

  abbrev Adds : S → S → ℕ → Type 0
  Adds s s' n =
      (added : List TimelineEntry) × (works.timeline s' ≡ works.timeline s ++ added)
      × (length added ≡ n)

  perform-Adds :
      (s : S) (r : Request Float)
      → Adds s (perform tables ports r s).1 (accepted (perform tables ports r s).0)
  perform-Adds s r = elim (perform-Atomic tables ports works s r) [
    | failed k m e ↦ rw e ([], sym (append-nil _), refl)
    | saved i event message actor e change accepts ↦
        rw e (_, timeline_after s i event message actor, refl)
    | unlogged i k m e change rejects old ↦
        rw e ([], (works.save_keeps s i) ∙ sym (append-nil _), refl)
  ]

  -- The timeline is append-only, and gets one entry for each request that does not raise.
  pub serve-timeline :
      (s : S) (rs : List (Request Float))
      → (added : List TimelineEntry) × (works.timeline (serve s rs) ≡ works.timeline s ++ added)
        × (length added ≡ successes s rs)
  unfolding serve successes
  serve-timeline s [] = ([], sym (append-nil _), refl)
  serve-timeline s (r ∷ rs) =
      let (first, e, n) = perform-Adds s r in
      let (rest, f, m) = serve-timeline (perform tables ports r s).1 rs in
      (
        first ++ rest,
        f ∙ (rw e (append_assoc (works.timeline s) first rest)),
        omega (arith, length-append first rest),
      )
