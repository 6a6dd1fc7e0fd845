-- ===== src/Simulator.antt =====
-- crates/usahp-daemon/src/simulator.rs, and the mappings that crates/usahp-daemon/src/main.rs gives to
-- the broker: a line on the standard input presses or releases a switch by its name. The thread that
-- reads the lines is a function of the lines; `none` is a failed read.
pub mod Collect
pub mod Routes
use usahp_core.Base.{
  ℕ, Bool, true, false, not, List, [], ◌∷◌, ◌++◌, map, Option, none, some, ◌==◌, is_nil,
  if◌then◌else◌,
}
use usahp_core.Str.{str_eqb, Str, str, str_eq}
use usahp_core.Collections.HashMap
use usahp_core.Collections.HashMap.{HashMap}
use usahp_core.Collections.BTreeSet
use usahp_core.Collections.BTreeSet.{BTreeSet}
use usahp_core.Protocol.{Action}
use usahp_core.Config.{Config, Mapping, keyboard, is_whitespace}
use usahp_core.Broker.Types.{PhysicalEvent}
use usahp_core.Input.Grab.{Inbox, physical}

-- `format!("sim:{}", switch_id)`
abbrev pub sim_id : Str → Str
sim_id switch_id = str "sim:" ++ switch_id

abbrev pub simulation_mapping : Str → Mapping
simulation_mapping switch_id = record {
  id = sim_id switch_id;
  switch_id = switch_id;
  input = keyboard;
  code = str "simulator";
  device = none;
}

-- The `filter_map` of `mappings_for`; `switch_ids` is what was inserted so far.
unfoldable pub mappings_from : BTreeSet → List Mapping → List Mapping
unfolding BTreeSet.contains BTreeSet.insert
mappings_from switch_ids [] = []
mappings_from switch_ids (mapping ∷ rest) =
    let others = mappings_from (BTreeSet.insert mapping.switch_id switch_ids) rest in
    if BTreeSet.contains mapping.switch_id switch_ids
    then others
    else simulation_mapping mapping.switch_id ∷ others

unfoldable pub mappings_for : List Mapping → List Mapping
unfolding mappings_from
mappings_for mappings = mappings_from [] mappings

-- `broker_mappings` of `main`.
unfoldable pub broker_mappings : Config → List Mapping
unfolding mappings_for
broker_mappings config =
    if config.simulator.stdin
    then config.mappings ++ mappings_for config.mappings
    else config.mappings

-- `known` of `spawn_stdin`.
unfoldable pub known : List Mapping → HashMap Str Str
unfolding HashMap.collect_from
known mappings =
    HashMap.collect_from [] (map (λ (m : Mapping). (m.switch_id, sim_id m.switch_id)) mappings)

-- `str::split_whitespace`: the first part holds the part that the text begins in.
unfoldable pub parts_from : Str → List Str × Str
parts_from [] = ([], [])
parts_from (c ∷ s) =
    let (parts, first) = parts_from s in
    if is_whitespace c
    then (if is_nil first then (parts, []) else (first ∷ parts, []))
    else (parts, c ∷ first)

unfoldable pub split_whitespace : Str → List Str
unfolding parts_from
split_whitespace s =
    let (parts, first) = parts_from s in if is_nil first then parts else first ∷ parts

-- `match parts.next()`; `none` is a `continue`.
unfoldable pub parse_action : Str → Option Action
unfolding str_eqb
parse_action word =
    if word == str "press"
    then some Action.pressed
    else if word == str "release"
    then some Action.released
    else none

abbrev pub event_of : HashMap Str Str → Option Action → Str → Option PhysicalEvent
event_of ids none switch_id = none
event_of ids (some action) switch_id = elim (HashMap.get switch_id ids) [
  | none ↦ none
  | some mapping_id ↦ some (physical action mapping_id)
]

unfoldable pub parse_parts : HashMap Str Str → List Str → Option PhysicalEvent
unfolding parse_action HashMap.get
parse_parts ids [] = none
parse_parts ids (word ∷ []) = none
parse_parts ids (word ∷ switch_id ∷ others) = event_of ids (parse_action word) switch_id

-- The event of a line, if it has one.
unfoldable pub parse_line : HashMap Str Str → Str → Option PhysicalEvent
unfolding parse_parts split_whitespace
parse_line ids line = parse_parts ids (split_whitespace line)

module _ {I : Type 0} ⦃inbox : Inbox I⦄ where
  -- The loop of `spawn_stdin`.
  unfoldable pub simulate : HashMap Str Str → I → List (Option Str) → I
  unfolding parse_line
  simulate ids i [] = i
  simulate ids i (none ∷ lines) = i
  simulate ids i (some line ∷ lines) = elim (parse_line ids line) [
    | none ↦ simulate ids i lines
    | some event ↦
        let (i', sent) = inbox.blocking_send i event in
        let rest = simulate ids i' lines in if sent then rest else i'
  ]
