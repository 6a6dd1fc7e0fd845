-- ===== src/State/Idle.antt =====
-- The state machine of crates/usahp-core/src/state.rs with every switch let up.
use usahp_core.Base.{
  inr, inl, Bool-cases, ◌≡◌, refl, sym, ◌∙◌, ap, none, some, List, [], ◌∷◌, map, Option,
}
use usahp_core.Str.{Str}
use usahp_core.Collections.BTreeMap
use usahp_core.Collections.BTreeMap.{BTreeMap}
use usahp_core.Collections.BTreeSet
use usahp_core.Collections.BTreeSet.{BTreeSet}
use usahp_core.Protocol.Float.{F32}
use usahp_core.Protocol.{Action, SwitchState, SwitchSnapshot}
use usahp_core.State.{
  with_active, SwitchStateMachine, Outcome, apply, apply_edge, release_all, release_entries,
  snapshot_entry, snapshots,
}
use usahp_core.State.Invariant.{IsWellFormed, apply_cases}

-- The snapshots with every switch up.
abbrev pub idle_snapshots : SwitchStateMachine → List SwitchSnapshot
idle_snapshots m = snapshots (release_all m).1

release_entries-again :
    (l : BTreeMap BTreeSet) → (release_entries (release_entries l).1).1 ≡ (release_entries l).1
unfolding release_entries
release_entries-again [] = refl
release_entries-again ((k, []) ∷ l) = ap (λ r. (k, []) ∷ r) (release_entries-again l)
release_entries-again ((k, x ∷ s) ∷ l) = ap (λ r. (k, []) ∷ r) (release_entries-again l)

pub release_all-again :
    (m : SwitchStateMachine) → idle_snapshots (release_all m).1 ≡ snapshots (release_all m).1
unfolding release_all snapshots
release_all-again m = ap (λ l. map snapshot_entry l) (release_entries-again m.active_by_switch)

abbrev up : Str × BTreeSet → SwitchSnapshot
up e = record { switch_id = e.0; state = SwitchState.released; confidence = none }

idle_entries : (l : BTreeMap BTreeSet) → map snapshot_entry (release_entries l).1 ≡ map up l
unfolding release_entries
idle_entries [] = refl
idle_entries ((k, []) ∷ l) = ap (λ r. up (k, []) ∷ r) (idle_entries l)
idle_entries ((k, x ∷ s) ∷ l) = ap (λ r. up (k, []) ∷ r) (idle_entries l)

up-set : (k : Str) (s : BTreeSet) (l : BTreeMap BTreeSet) → map up (BTreeMap.set k s l) ≡ map up l
unfolding BTreeMap.set
up-set k s [] = refl
up-set k s ((j, x) ∷ l) = ap (λ r. up (j, x) ∷ r) (up-set k s l)

-- The same switches as before, after `apply`.
abbrev pub SameIdle : SwitchStateMachine → Option (SwitchStateMachine × Outcome) → Type 0
SameIdle m none = Unit
SameIdle m (some (m', o)) = idle_snapshots m' ≡ idle_snapshots m

with_active-SameIdle :
    (m : SwitchStateMachine) (k : Str) (s : BTreeSet)
    → idle_snapshots (with_active m k s) ≡ idle_snapshots m
unfolding release_all snapshots
with_active-SameIdle m k s =
    idle_entries (BTreeMap.set k s m.active_by_switch)
    ∙ up-set k s m.active_by_switch
    ∙ sym (idle_entries m.active_by_switch)

apply_edge-SameIdle :
    (m : SwitchStateMachine) (id k : Str) (s : BTreeSet) (a : Action) (c : Option F32)
    → SameIdle m (some (apply_edge m id k s a c))
unfolding apply_edge
apply_edge-SameIdle m id k s Action.pressed c = elim (Bool-cases (BTreeSet.contains id s)) [
  | inl old ↦ rw old
  | inr new ↦ rw new (with_active-SameIdle m k (BTreeSet.insert id s))
]
apply_edge-SameIdle m id k s Action.released c = elim (Bool-cases (BTreeSet.contains id s)) [
  | inl old ↦ rw old (with_active-SameIdle m k (BTreeSet.remove id s))
  | inr new ↦ rw new
]

-- An edge, successful or not, leaves the same switches.
pub apply-SameIdle :
    (m : SwitchStateMachine) (id : Str) (a : Action) (c : Option F32)
    → IsWellFormed m
    → SameIdle m (apply m id a c)
apply-SameIdle m id a c h =
    apply_cases (SameIdle m) m id a c h (λ e. refl) (λ k s e f. apply_edge-SameIdle m id k s a c)
