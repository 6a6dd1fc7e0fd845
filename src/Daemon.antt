-- ===== src/Daemon.antt =====
-- `main` of crates/usahp-daemon/src/main.rs and `spawn` of crates/usahp-daemon/src/input.rs: how the
-- daemon starts. The file system, the TOML parser and the binding of the socket are arguments; the start
-- of a thread succeeds; command line and log are left out.
pub mod Entries
pub mod Known
pub mod Sources
pub mod Start
pub mod Sending
use usahp_core.Base.{ℕ, Bool, true, false, ◌⊎◌, List, [], Option, none, some, is_nil, if◌then◌else◌}
use usahp_core.Str.{Str, str_eq}
use usahp_core.Collections.HashMap.{HashMap}
use usahp_core.Config.{Config, ConfigError, Mapping, Loaded, loaded, not_loaded, load, address}
use usahp_core.Input.{Os, linux, macos, other_os, InputError, validate}
use usahp_core.Input.Keys.{Key}
use usahp_core.Input.Keycodes.{key_eq}
use usahp_core.Input.Grab.{keyboard_mappings, by_key_from, by_keycode_from}
use usahp_core.Input.Pads.{Tables, tables, bad_code, no_device, gamepad_mappings, by_device_from}
use usahp_core.Simulator.{broker_mappings, known}

-- The tables of the threads that `spawn` of crates/usahp-daemon/src/input.rs starts: of the keyboard
-- callback, or of the macOS event tap, and of the gamepads.
pub record Capturing : Type 0 where
  pub grab : Option (HashMap Key (List Str))
  pub tap : Option (HashMap ℕ (List Str))
  pub pads : HashMap Str (HashMap ℕ (List Str))

-- `Result<()>` of `spawn`, or a panic.
pub data Spawned : Type 0 where
  spawned : Capturing → Spawned
  spawn_error spawn_panic : Spawned

-- `spawn_gamepads`, which does nothing off Linux.
unfoldable pub spawn_gamepads : Os → List Mapping → Tables
unfolding gamepad_mappings by_device_from
spawn_gamepads linux mappings = by_device_from [] (gamepad_mappings mappings)
spawn_gamepads macos mappings = tables []
spawn_gamepads other_os mappings = tables []

abbrev pub with_pads :
    Option (HashMap Key (List Str)) → Option (HashMap ℕ (List Str)) → Tables → Spawned
with_pads grab tap (tables pads) = spawned (record { grab = grab; tap = tap; pads = pads })
with_pads grab tap bad_code = spawn_error
with_pads grab tap no_device = spawn_panic

-- Without an entry the event tap is not installed.
abbrev pub tap_of : HashMap ℕ (List Str) → Option (HashMap ℕ (List Str))
tap_of by_key = if is_nil by_key then none else some by_key

-- `spawn_keyboard` and then `spawn_gamepads`.
unfoldable pub spawn_keyboard : Os → List Mapping → Tables → Spawned
unfolding by_key_from by_keycode_from keyboard_mappings
spawn_keyboard macos keyboard pads =
    with_pads none (tap_of (by_keycode_from [] (keyboard_mappings keyboard))) pads
spawn_keyboard linux keyboard pads = elim (by_key_from [] keyboard) [
  | none ↦ spawn_error
  | some by_key ↦ with_pads (some by_key) none pads
]
spawn_keyboard other_os keyboard pads = elim (by_key_from [] keyboard) [
  | none ↦ spawn_error
  | some by_key ↦ with_pads (some by_key) none pads
]

unfoldable pub spawn : Os → List Mapping → Spawned
unfolding spawn_keyboard spawn_gamepads keyboard_mappings
spawn os mappings =
    let keyboard = keyboard_mappings mappings in
    let pads = spawn_gamepads os mappings in
    if is_nil keyboard then with_pads none none pads else spawn_keyboard os keyboard pads

-- What runs once `main` waits: the broker over its mappings, the input threads, the simulator with its
-- table, the focus watcher, and the server.
pub record Daemon : Type 0 where
  pub config : Config
  pub broker_mappings : List Mapping
  pub capturing : Capturing
  pub simulator : Option (HashMap Str Str)
  pub watches_focus : Bool
  pub queue_capacity : ℕ

pub data StartError : Type 0 where
  config_refused : ConfigError → StartError
  input_refused : InputError → StartError
  capture_refused : StartError
  bind_refused : Str → StartError

pub data StartUp : Type 0 where
  started : Daemon → StartUp
  not_started : StartError → StartUp
  panicked : StartUp

abbrev pub is_macos : Os → Bool
is_macos linux = false
is_macos macos = true
is_macos other_os = false

unfoldable pub daemon : Os → Config → Capturing → Daemon
unfolding broker_mappings known
daemon os config capturing = record {
  config = config;
  broker_mappings = broker_mappings config;
  capturing = capturing;
  simulator = if config.simulator.stdin then some (known config.mappings) else none;
  watches_focus = is_macos os;
  queue_capacity = config.server.client_queue_capacity;
}

module _ (bind : List ℕ × ℕ → Option Str) where
  -- From `input::spawn` on; `bind` gives an error's text.
  unfoldable pub after_spawn : Os → Config → Spawned → StartUp
  unfolding daemon
  after_spawn os config (spawned capturing) = elim (bind (address config.server)) [
    | none ↦ started (daemon os config capturing)
    | some error ↦ not_started (bind_refused error)
  ]
  after_spawn os config spawn_error = not_started capture_refused
  after_spawn os config spawn_panic = panicked

  -- From `input::validate` on.
  unfoldable pub after_load : Os → Config → StartUp
  unfolding after_spawn spawn validate
  after_load os config = elim (validate os config.mappings) [
    | none ↦ after_spawn os config (spawn os config.mappings)
    | some error ↦ not_started (input_refused error)
  ]

  module _ (from_str : Str → Str ⊎ Config) (read_to_string : Str → Str ⊎ Str) where
    unfoldable pub main : Os → Str → StartUp
    unfolding after_load load
    main os path = elim (load from_str read_to_string path) [
      | loaded config ↦ after_load os config
      | not_loaded error ↦ not_started (config_refused error)
    ]
