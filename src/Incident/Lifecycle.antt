-- ===== src/Incident/Lifecycle.antt =====
-- The life of an incident: which transitions `transition_to` makes, and what the status and the
-- timestamps say of one another afterwards (src/domain/entities/incident.py).
mod Tests
use ai_sre_platform_for_auto.Common.{
  ℕ, ◌≤◌, Text, lit, Bool, true, false, Option, none, some, List, [], ◌∷◌, ◌++◌, ◌≡◌, refl, sym,
  ◌∙◌, ◌⊎◌, inl, inr, ◌↔◌, CaseTables, upper, lookup, member, text_eq, text_eq_iff, arith,
}
use ai_sre_platform_for_auto.Errors.{Kind, Result, ok, raise, value_error}
use ai_sre_platform_for_auto.Incident.{Incident, allowed, targets_of, enter, transition_to}

-- The transitions that the domain names.
pub data Edge (current target : Text) : Type 0 where
  acknowledge : current ≡ lit "OPEN" → target ≡ lit "ACKNOWLEDGED" → Edge current target
  start : current ≡ lit "ACKNOWLEDGED" → target ≡ lit "IN_PROGRESS" → Edge current target
  resolve : current ≡ lit "IN_PROGRESS" → target ≡ lit "RESOLVED" → Edge current target
  close : current ≡ lit "RESOLVED" → target ≡ lit "CLOSED" → Edge current target

cases_of :
    (current target : Text)
    → member target (targets_of (lookup current allowed)) ≡ true
    → ((current ≡ lit "OPEN") × (target ≡ lit "ACKNOWLEDGED"))
      ⊎ ((current ≡ lit "ACKNOWLEDGED") × (target ≡ lit "IN_PROGRESS"))
      ⊎ ((current ≡ lit "IN_PROGRESS") × (target ≡ lit "RESOLVED"))
      ⊎ ((current ≡ lit "RESOLVED") × (target ≡ lit "CLOSED"))
unfolding allowed lookup member
cases_of current target h = ground (
  arith,
  text_eq_iff (lit "OPEN") current,
  text_eq_iff (lit "ACKNOWLEDGED") current,
  text_eq_iff (lit "IN_PROGRESS") current,
  text_eq_iff (lit "RESOLVED") current,
  text_eq_iff (lit "CLOSED") current,
  text_eq_iff target (lit "ACKNOWLEDGED"),
  text_eq_iff target (lit "IN_PROGRESS"),
  text_eq_iff target (lit "RESOLVED"),
  text_eq_iff target (lit "CLOSED"),
)

member-Edge :
    (current target : Text)
    → member target (targets_of (lookup current allowed)) ≡ true
    → Edge current target
unfolding allowed lookup member
member-Edge current target h = elim (cases_of current target h) [
  | inl (p, q) ↦ acknowledge p q
  | inr (inl (p, q)) ↦ start p q
  | inr (inr (inl (p, q))) ↦ resolve p q
  | inr (inr (inr (p, q))) ↦ close p q
]

Edge-member :
    (current target : Text)
    → Edge current target
    → member target (targets_of (lookup current allowed)) ≡ true
Edge-member current target (acknowledge p q) =
    rw (p, q) (unfold allowed lookup member text_eq lit in refl)
Edge-member current target (start p q) =
    rw (p, q) (unfold allowed lookup member text_eq lit in refl)
Edge-member current target (resolve p q) =
    rw (p, q) (unfold allowed lookup member text_eq lit in refl)
Edge-member current target (close p q) =
    rw (p, q) (unfold allowed lookup member text_eq lit in refl)

module _ {Float : Type 0} (tables : CaseTables) where
  -- `transition_to` succeeds exactly along the edges, and then enters the target.
  pub transition_to-ok_iff :
      (i j : Incident Float) (new_status : Text) (now : ℕ)
      → (transition_to tables i new_status now ≡ ok j) ↔ (
          Edge (upper tables i.status) (upper tables new_status)
          × (j ≡ enter i (upper tables new_status) now))
  unfolding transition_to
  transition_to-ok_iff i j new_status now = (
    λ h. (member-Edge _ _ (ground arith), ground arith),
    λ p. ground (arith, Edge-member _ _ p.0),
  )

-- The stages in order, and what the timestamps of an incident at a stage are.
pub data Stage : Type 0 where
  opened acknowledged in_progress resolved closed : Stage

abbrev pub name : Stage → Text
name opened = lit "OPEN"
name acknowledged = lit "ACKNOWLEDGED"
name in_progress = lit "IN_PROGRESS"
name resolved = lit "RESOLVED"
name closed = lit "CLOSED"

abbrev pub next : Stage → Option Stage
next opened = some acknowledged
next acknowledged = some in_progress
next in_progress = some resolved
next resolved = some closed
next closed = none

-- A date that is missing, or is there between two others.
abbrev pub Missing : Option ℕ → Type 0
Missing o = o ≡ none

abbrev pub Dated : Option ℕ → ℕ → Type 0
Dated o t = o ≡ some t

abbrev pub Stamps : Stage → ℕ → ℕ → Option ℕ → Option ℕ → Option ℕ → Type 0
Stamps opened created now a r c = (created ≤ now) × Missing a × Missing r × Missing c
Stamps acknowledged created now a r c =
    (t : ℕ) × (created ≤ t) × (t ≤ now) × Dated a t × Missing r × Missing c
Stamps in_progress created now a r c =
    (t : ℕ) × (created ≤ t) × (t ≤ now) × Dated a t × Missing r × Missing c
Stamps resolved created now a r c =
    (t : ℕ) × (u : ℕ) × (created ≤ t) × (t ≤ u) × (u ≤ now) × Dated a t × Dated r u × Missing c
Stamps closed created now a r c =
    (t : ℕ) × (u : ℕ) × (v : ℕ) × (created ≤ t)
    × (t ≤ u)
    × (u ≤ v)
    × (v ≤ now)
    × Dated a t
    × Dated r u
    × Dated c v

next_of :
    (stage : Stage) (target : Text)
    → member target (targets_of (lookup (name stage) allowed)) ≡ true
    → (after : Stage) × (next stage ≡ some after) × (target ≡ name after)
unfolding allowed lookup text_eq lit member
next_of opened target h =
    (acknowledged, refl, (text_eq_iff target (lit "ACKNOWLEDGED")).0 (ground arith))
next_of acknowledged target h =
    (in_progress, refl, (text_eq_iff target (lit "IN_PROGRESS")).0 (ground arith))
next_of in_progress target h =
    (resolved, refl, (text_eq_iff target (lit "RESOLVED")).0 (ground arith))
next_of resolved target h = (closed, refl, (text_eq_iff target (lit "CLOSED")).0 (ground arith))
next_of closed target h = cc

next-member :
    (stage after : Stage)
    → next stage ≡ some after
    → member (name after) (targets_of (lookup (name stage) allowed)) ≡ true
unfolding allowed lookup text_eq lit member
next-member opened acknowledged e = refl
next-member acknowledged in_progress e = refl
next-member in_progress resolved e = refl
next-member resolved closed e = refl
next-member stage after e = ground arith

upper-name : (tables : CaseTables) (stage : Stage) → upper tables (name stage) ≡ name stage
unfolding upper lit
upper-name tables opened = refl
upper-name tables acknowledged = refl
upper-name tables in_progress = refl
upper-name tables resolved = refl
upper-name tables closed = refl

module _ {Float : Type 0} where
  -- The status is the stage's name, and just the dates of the stages that were entered are there,
  -- in order, none of them after `now`.
  pub record IsAt (stage : Stage) (now : ℕ) (i : Incident Float) : Type 0 where
    pub named : i.status ≡ name stage
    pub stamps : Stamps stage i.created_at now i.acknowledged_at i.resolved_at i.closed_at

  enter-IsAt :
      (stage after : Stage) (i : Incident Float) (before now : ℕ)
      → IsAt stage before i
      → before ≤ now
      → next stage ≡ some after
      → IsAt after now (enter i (name after) now)
  unfolding enter text_eq lit
  enter-IsAt opened acknowledged i before now at le e = record {
    named = refl;
    stamps = (now, omega (arith, at.stamps.0), omega arith, refl, at.stamps.2, at.stamps.3);
  }
  enter-IsAt acknowledged in_progress i before now at le e = record {
    named = refl;
    stamps = let (t, p, q, a, r, c) = at.stamps in (t, p, omega arith, a, r, c);
  }
  enter-IsAt in_progress resolved i before now at le e = record {
    named = refl;
    stamps =
        let (t, p, q, a, r, c) = at.stamps in (t, now, p, omega arith, omega arith, a, refl, c);
  }
  enter-IsAt resolved closed i before now at le e = record {
    named = refl;
    stamps =
        let (t, u, p, q, w, a, r, c) = at.stamps in
        (t, u, now, p, q, omega arith, omega arith, a, r, refl);
  }
  enter-IsAt stage after i before now at le e = absurd (ground arith)

  -- From a stage, a transition that succeeds leads to the next stage, dated with the clock.
  pub transition_to-IsAt :
      (tables : CaseTables) (stage : Stage) (i j : Incident Float) (new_status : Text)
      (before now : ℕ)
      → IsAt stage before i
      → before ≤ now
      → transition_to tables i new_status now ≡ ok j
      → (after : Stage) × (next stage ≡ some after)
        × IsAt after now j
        × (upper tables new_status ≡ name after)
  unfolding transition_to
  transition_to-IsAt tables stage i j new_status before now at le h =
      let current : upper tables i.status ≡ name stage = rw at.named (upper-name tables stage) in
      let (after, e, target) = next_of stage (upper tables new_status) (
        rw current at (Edge-member _ _ ((transition_to-ok_iff tables i j new_status now).0 h).0)) in
      let entered = ((transition_to-ok_iff tables i j new_status now).0 h).1 in
      (after, e, rw (entered, target) (enter-IsAt stage after i before now at le e), target)

  -- The state machine is total on its stages: the next stage can be entered, in any spelling of its
  -- name that upper-cases to it.
  pub transition_to-advances :
      (tables : CaseTables) (stage after : Stage) (i : Incident Float) (new_status : Text) (now : ℕ)
      → i.status ≡ name stage
      → next stage ≡ some after
      → upper tables new_status ≡ name after
      → transition_to tables i new_status now ≡ ok (enter i (name after) now)
  unfolding transition_to
  transition_to-advances tables stage after i new_status now named e target =
      rw (named, upper-name tables stage, target, next-member stage after e)

  -- A closed incident stays closed: every transition raises `ValueError` with both statuses.
  pub transition_to-closed :
      (tables : CaseTables) (i : Incident Float) (new_status : Text) (now : ℕ)
      → i.status ≡ name closed
      → transition_to tables i new_status now
        ≡ raise value_error (
            lit "Invalid state transition from "
            ++ (lit "CLOSED" ++ (lit " to " ++ upper tables new_status)))
  unfolding transition_to
  transition_to-closed tables i new_status now named =
      rw (named, upper-name tables closed) (unfold allowed lookup text_eq lit member in refl)

  -- One transition that succeeds, at a time that is not before the last.
  pub data History (tables : CaseTables) (i : Incident Float) (now : ℕ)
      : Incident Float → ℕ → Type 0 where
    begun : History tables i now i now
    moved :
        {j k : Incident Float} {t : ℕ} (new_status : Text) (later : ℕ)
        → History tables i now j t
        → t ≤ later
        → transition_to tables j new_status later ≡ ok k
        → History tables i now k later

  -- Whatever transitions an incident has been through since it stood at a stage, its status and its
  -- dates agree, and the dates stand in order.
  pub History-IsAt :
      {tables : CaseTables} {i : Incident Float} {now : ℕ} {j : Incident Float} {t : ℕ}
      (stage : Stage)
      → IsAt stage now i
      → History tables i now j t
      → (after : Stage) × IsAt after t j
  History-IsAt stage at begun = (stage, at)
  History-IsAt {tables = tables} stage at (moved {j} {k} {t} new_status later h le e) =
      let (mid, there) = History-IsAt stage at h in
      let (after, _, here, _) = transition_to-IsAt tables mid j k new_status t later there le e in
      (after, here)
