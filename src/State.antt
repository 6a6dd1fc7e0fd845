-- ===== src/State.antt =====
-- crates/usahp-core/src/state.rs: physical mappings are folded into logical switches.
pub mod Invariant
pub mod Edges
pub mod Mirror
pub mod Release
pub mod Idle
use usahp_core.Base.{
  ℕ, Bool, true, false, not, List, [], ◌∷◌, map, Option, none, some, nat_eqb, if◌then◌else◌, length,
}
use usahp_core.Str.{Str, str_eq}
use usahp_core.Collections.HashMap
use usahp_core.Collections.BTreeMap
use usahp_core.Collections.BTreeSet
use usahp_core.Collections.HashMap.{HashMap}
use usahp_core.Collections.BTreeMap.{BTreeMap}
use usahp_core.Collections.BTreeSet.{BTreeSet, is_empty}
use usahp_core.Protocol.Float.{F32, f32_zero}
use usahp_core.Protocol.{Action, SwitchState, SwitchSnapshot}
use usahp_core.Config.{Mapping}

pub record LogicalTransition : Type 0 where
  pub switch_id : Str
  pub action : Action
  pub confidence : Option F32

pub data StateError : Type 0 where
  unknown_mapping : Str → StateError
  invalid_transition : Str → Action → StateError

pub record SwitchStateMachine : Type 0 where
  pub mapping_to_switch : HashMap Str Str
  pub active_by_switch : BTreeMap BTreeSet

-- `Result<Option<LogicalTransition>, StateError>`
pub data Outcome : Type 0 where
  ok : Option LogicalTransition → Outcome
  err : StateError → Outcome

abbrev add_switches : List Mapping → BTreeMap BTreeSet → BTreeMap BTreeSet
add_switches [] m = m
add_switches (mapping ∷ rest) m = add_switches rest (BTreeMap.or_insert mapping.switch_id [] m)

unfoldable pub new : List Mapping → SwitchStateMachine
unfolding HashMap.collect_from BTreeMap.or_insert
new mappings = record {
  mapping_to_switch = HashMap.collect_from [] (map (λ (m : Mapping). (m.id, m.switch_id)) mappings);
  active_by_switch = add_switches mappings [];
}

abbrev pub with_active : SwitchStateMachine → Str → BTreeSet → SwitchStateMachine
with_active m switch_id active = record m {
  active_by_switch = BTreeMap.set switch_id active m.active_by_switch;
}

-- The `match action` of `apply`, at the switch of the mapping and its active set.
unfoldable pub apply_edge :
    SwitchStateMachine → Str → Str → BTreeSet → Action → Option F32 → SwitchStateMachine × Outcome
apply_edge m mapping_id switch_id active Action.pressed confidence =
    let active' = BTreeSet.insert mapping_id active in
    if BTreeSet.contains mapping_id active
    then (m, err (invalid_transition mapping_id Action.pressed))
    else (
      with_active m switch_id active',
      ok (
          if nat_eqb (length active') 1
          then some
              (record { switch_id = switch_id; action = Action.pressed; confidence = confidence })
          else none),
    )
apply_edge m mapping_id switch_id active Action.released confidence =
    let active' = BTreeSet.remove mapping_id active in
    if not (BTreeSet.contains mapping_id active)
    then (m, err (invalid_transition mapping_id Action.released))
    else (
      with_active m switch_id active',
      ok (
          if is_empty active'
          then some
              (record { switch_id = switch_id; action = Action.released; confidence = confidence })
          else none),
    )

-- `none` is the panic of `get_mut(&switch_id).unwrap()`.
unfoldable pub apply :
    SwitchStateMachine → Str → Action → Option F32 → Option (SwitchStateMachine × Outcome)
unfolding apply_edge
apply m mapping_id action confidence = elim (HashMap.get mapping_id m.mapping_to_switch) [
  | none ↦ some (m, err (unknown_mapping mapping_id))
  | some switch_id ↦ elim (BTreeMap.get switch_id m.active_by_switch) [
    | none ↦ none
    | some active ↦ some (apply_edge m mapping_id switch_id active action confidence)
  ]
]

abbrev pub level : BTreeSet → SwitchState
level active = if is_empty active then SwitchState.released else SwitchState.pressed

abbrev pub snapshot_entry : Str × BTreeSet → SwitchSnapshot
snapshot_entry (switch_id, active) = record {
  switch_id = switch_id;
  state = level active;
  confidence = none;
}

unfoldable pub snapshots : SwitchStateMachine → List SwitchSnapshot
snapshots m = map snapshot_entry m.active_by_switch

-- `iter_mut().filter_map(…)` of `release_all`: the transitions, and the map with its sets cleared.
unfoldable pub release_entries : BTreeMap BTreeSet → List LogicalTransition × BTreeMap BTreeSet
release_entries [] = ([], [])
release_entries ((switch_id, active) ∷ rest) =
    let (releases, cleared) = release_entries rest in
    if is_empty active then (releases, (switch_id, active) ∷ cleared) else (
      record { switch_id = switch_id; action = Action.released; confidence = some f32_zero }
          ∷ releases,
      (switch_id, []) ∷ cleared,
    )

unfoldable pub release_all : SwitchStateMachine → List LogicalTransition × SwitchStateMachine
unfolding release_entries
release_all m =
    let (releases, cleared) = release_entries m.active_by_switch in
    (releases, record m { active_by_switch = cleared })
