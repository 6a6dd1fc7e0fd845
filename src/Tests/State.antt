-- ===== src/Tests/State.antt =====
-- Examples for crates/usahp-core.
use usahp_core.Base.{[], ◌∷◌, ◌≡◌, ◌↔◌, ◌⊎◌, ◌≤◌, true, false, none, some, length, All, arith, map}
use usahp_core.Str.{Str, str}
use usahp_core.Protocol.{Action}
use usahp_core.Protocol.Float.{f32_hundred}
use usahp_core.Protocol.Confidence.{validate_confidence, IsPercentage, validate_confidence_iff}
use usahp_core.Protocol.AppId.{valid_app_id, IsNameChar, valid_app_id_iff}
use usahp_core.Config.{Config, validate}
use usahp_core.Config.Valid.{IsValid, validate_iff}
use usahp_core.State.{SwitchStateMachine, new, apply, release_all, snapshots}
use usahp_core.State.Invariant.{new-IsWellFormed}
use usahp_core.State.Edges.{Applied, apply-Applied, switch_of}
use usahp_core.State.Mirror.{Needed, Mirrored, apply-Mirrored, observe_all}
use usahp_core.State.Release.{IsAllReleased, down_switches, release_of, release_all_lem}
use usahp_core.Tests.{three_mappings}

-- The 32-bit pattern of 45.0.
validate_confidence_iff_example :
    ((validate_confidence 0x42340000 ≡ some 0x42340000) ↔ IsPercentage 0x42340000)
    × ((validate_confidence 0x42340000 ≡ none) ⊎ (validate_confidence 0x42340000 ≡ some 0x42340000))
validate_confidence_iff_example = validate_confidence_iff 0x42340000 (omega arith)

valid_app_id_iff_example : (valid_app_id (str "org.app") ≡ true) ↔ (
    (1 ≤ length (str "org.app")) × (length (str "org.app") ≤ 128) × All IsNameChar (str "org.app"))
valid_app_id_iff_example = valid_app_id_iff (str "org.app")

abbrev three_config : Config
three_config = record {
  server = record { port = 7312; client_queue_capacity = 256 };
  simulator = record { stdin = false };
  mappings = three_mappings;
}

validate_iff_example : (validate three_config ≡ none) ↔ IsValid three_config
validate_iff_example = validate_iff three_config

apply-Applied_example :
    Applied
      (new three_mappings)
      (str "k1")
      Action.pressed
      (some f32_hundred)
      (apply (new three_mappings) (str "k1") Action.pressed (some f32_hundred))
apply-Applied_example =
    apply-Applied (new three_mappings) (str "k1") Action.pressed (some f32_hundred)
      (new-IsWellFormed three_mappings)

apply-Mirrored_example :
    Mirrored
      (new three_mappings)
      (apply (new three_mappings) (str "k3") Action.pressed (some f32_hundred))
    × Needed
        (new three_mappings)
        (apply (new three_mappings) (str "k3") Action.pressed (some f32_hundred))
apply-Mirrored_example =
    apply-Mirrored (new three_mappings) (str "k3") Action.pressed (some f32_hundred)
      (new-IsWellFormed three_mappings)

-- The first key is down.
abbrev held_machine : SwitchStateMachine
held_machine = record (new three_mappings) {
  active_by_switch = (str "left", str "k1" ∷ []) ∷ (str "right", []) ∷ [];
}

release_all_lem_example :
    ((release_all held_machine).0 ≡ map release_of (down_switches held_machine.active_by_switch))
    × IsAllReleased (release_all held_machine).1
    × ((id : Str) → switch_of (release_all held_machine).1 id ≡ switch_of held_machine id)
    × (observe_all (release_all held_machine).0 (snapshots held_machine)
        ≡ snapshots (release_all held_machine).1)
release_all_lem_example = release_all_lem held_machine
