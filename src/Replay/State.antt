-- ===== src/Replay/State.antt =====
-- Tests of crates/usahp-core/src/state.rs, replayed. `assert!` of a sequence of steps is the conjunction.
use usahp_core.Base.{
  ◌≡◌, refl, Bool, true, false, not, ◌&&◌, List, [], ◌∷◌, ◌++◌, map, Option, none, some, is_some,
  nat_eqb, length, all, ◌==◌,
}
use usahp_core.Str.{Str, str, str_eq}
use usahp_core.Protocol.{Action, SwitchState, SwitchSnapshot}
use usahp_core.Config.{Mapping, keyboard}
use usahp_core.State.{
  LogicalTransition, SwitchStateMachine, StateError, unknown_mapping, invalid_transition, Outcome,
  ok, err, new, apply, release_all, snapshots,
}

abbrev key_of : Str → Mapping
key_of id = record {
  id = id;
  switch_id = str "switch_1";
  input = keyboard;
  code = id;
  device = none;
}

abbrev pub mappings : List Mapping
mappings = map key_of (str "space" ∷ str "enter" ∷ [])

-- The machine after a successful `apply`, and whether there was a transition; `none` is a panic of the test.
abbrev applied : Option (SwitchStateMachine × Outcome) → Option (SwitchStateMachine × Bool)
applied none = none
applied (some (m, ok t)) = some (m, is_some t)
applied (some (m, err e)) = none

-- `state.apply(…).unwrap()` and what follows.
abbrev then_apply : Str → Action → (Bool → SwitchStateMachine → Bool) → SwitchStateMachine → Bool
then_apply id a next m = elim (applied (apply m id a none)) [
  | none ↦ false
  | some (m', moved) ↦ next moved m'
]

abbrev is_invalid : Option (SwitchStateMachine × Outcome) → Bool
is_invalid none = false
is_invalid (some (m, ok t)) = false
is_invalid (some (m, err (invalid_transition id a))) = true
is_invalid (some (m, err (unknown_mapping id))) = false

abbrev pub many_to_one_emits_only_outer_edges : Bool
many_to_one_emits_only_outer_edges =
    then_apply (str "space") Action.pressed
      (λ first. then_apply (str "enter") Action.pressed (λ second.
        then_apply (str "space") Action.released (λ third.
          then_apply (str "enter") Action.released
            (λ fourth m. first && not second && not third && fourth))))
      (new mappings)

abbrev pub rejects_duplicate_edges : Bool
rejects_duplicate_edges =
    then_apply (str "space") Action.pressed
      (λ moved m. is_invalid (apply m (str "space") Action.pressed none)) (new mappings)

abbrev is_up : SwitchState → Bool
is_up SwitchState.pressed = false
is_up SwitchState.released = true

abbrev are_switches : List Str → List LogicalTransition → Bool
are_switches [] [] = true
are_switches [] (t ∷ ts) = false
are_switches (k ∷ ks) [] = false
are_switches (k ∷ ks) (t ∷ ts) = t.switch_id == k && are_switches ks ts

-- What the test says of `release_all`.
abbrev releases_both : SwitchStateMachine → Bool
releases_both m =
    let (releases, m') = release_all m in
    nat_eqb (length releases) 2
    && are_switches (str "switch_0" ∷ str "switch_1" ∷ []) releases
    && all (λ (s : SwitchSnapshot). is_up s.state) (snapshots m')
    && is_invalid (apply m' (str "space") Action.released none)

abbrev pub release_all_clears_many_to_one_state_in_switch_order : Bool
release_all_clears_many_to_one_state_in_switch_order =
    then_apply (str "space") Action.pressed
      (λ first.
        then_apply (str "enter") Action.pressed
          (λ second. then_apply (str "z") Action.pressed (λ third m. releases_both m)))
      (new (
        mappings
        ++ record {
          id = str "z";
          switch_id = str "switch_0";
          input = keyboard;
          code = str "z";
          device = none;
        }
          ∷ []))

state_passes :
    (many_to_one_emits_only_outer_edges && rejects_duplicate_edges
      && release_all_clears_many_to_one_state_in_switch_order)
    ≡ true
unfolding new apply release_all snapshots usahp_core.Str.str_eqb usahp_core.Str.str_ltb
    usahp_core.State.apply_edge usahp_core.State.release_entries usahp_core.Collections.HashMap.get
    usahp_core.Collections.HashMap.insert usahp_core.Collections.HashMap.collect_from
    usahp_core.Collections.BTreeMap.get usahp_core.Collections.BTreeMap.set
    usahp_core.Collections.BTreeMap.or_insert usahp_core.Collections.BTreeSet.contains
    usahp_core.Collections.BTreeSet.insert usahp_core.Collections.BTreeSet.remove
state_passes = refl
