-- ===== src/Daemon/Start.antt =====
-- `main` of crates/usahp-daemon/src/main.rs: how a start can end.
use usahp_core.Base.{
  ℕ, ◌≡◌, ◌⊎◌, inl, inr, refl, subst, List, [], Option, none, some, is_nil, Bool-cases,
  Option-cases, nat_eq,
}
use usahp_core.Str.{Str, str_eq}
use usahp_core.Collections.HashMap.{HashMap}
use usahp_core.Config.{ConfigError, Config, Mapping, Loaded, loaded, not_loaded, load}
use usahp_core.Input.{Os, parse_u16}
use usahp_core.Input.Keycodes.{key_eq}
use usahp_core.Input.Grab.{keyboard_mappings}
use usahp_core.Input.Pads.{tables}
use usahp_core.Input.{linux, macos, other_os}
use usahp_core.Input.Pads.{by_device_lem}
use usahp_core.Input.Table.{by_key_lem}
use usahp_core.Daemon.{
  Capturing, spawned, spawn_gamepads, spawn_keyboard, spawn, Daemon, config_refused, input_refused,
  capture_refused, bind_refused, StartUp, started, not_started, panicked, daemon, after_spawn,
  after_load, main,
}
use usahp_core.Config.Valid.{IsValid, load-IsValid}
use usahp_core.Config.{address}
use usahp_core.Input

spawn_gamepads-total :
    (os : Os) (ms : List Mapping)
    → Input.validate os ms ≡ none
    → (t : HashMap Str (HashMap ℕ (List Str))) × (spawn_gamepads os ms ≡ tables t)
unfolding spawn_gamepads
spawn_gamepads-total linux ms h = let (t, built, _) = by_device_lem ms h in (t, built)
spawn_gamepads-total macos ms h = ([], refl)
spawn_gamepads-total other_os ms h = ([], refl)

spawn_keyboard-total :
    (os : Os) (ms : List Mapping) (t : HashMap Str (HashMap ℕ (List Str)))
    → Input.validate os ms ≡ none
    → (x : Capturing) × (spawn_keyboard os (keyboard_mappings ms) (tables t) ≡ spawned x)
unfolding spawn_keyboard
spawn_keyboard-total linux ms t h =
    let (keys, built, _) = by_key_lem linux ms h in
    (record { grab = some keys; tap = none; pads = t }, rw (built, spawn_keyboard) refl)
spawn_keyboard-total macos ms t h = (_, refl)
spawn_keyboard-total other_os ms t h =
    let (keys, built, _) = by_key_lem other_os ms h in
    (record { grab = some keys; tap = none; pads = t }, rw (built, spawn_keyboard) refl)

-- Once the mappings are validated, the threads are started without an error or a panic.
spawn-total :
    (os : Os) (ms : List Mapping)
    → Input.validate os ms ≡ none
    → (x : Capturing) × (spawn os ms ≡ spawned x)
unfolding spawn
spawn-total os ms h =
    let (t, pads) = spawn_gamepads-total os ms h in
    elim (Bool-cases (is_nil (keyboard_mappings ms))) [
      | inl empty ↦ (record { grab = none; tap = none; pads = t }, rw (empty, pads) refl)
      | inr full ↦ let (x, e) = spawn_keyboard-total os ms t h in (x, rw (full, pads) e)
    ]

Loaded-cases :
    (l : Loaded) → ((c : Config) × (l ≡ loaded c)) ⊎ ((e : ConfigError) × (l ≡ not_loaded e))
Loaded-cases (loaded c) = inl (c, refl)
Loaded-cases (not_loaded e) = inr (e, refl)

module _ (bind : List ℕ × ℕ → Option Str) (from_str : Str → Str ⊎ Config)
    (read_to_string : Str → Str ⊎ Str) where
  -- A start with this configuration.
  pub record Begun (os : Os) (path : Str) (d : Daemon) : Type 0 where
    pub loads : load from_str read_to_string path ≡ loaded d.config
    pub valid : IsValid d.config
    pub reads : Input.validate os d.config.mappings ≡ none
    pub spawns : spawn os d.config.mappings ≡ spawned d.capturing
    pub binds : bind (address d.config.server) ≡ none
    pub same : d ≡ daemon os d.config d.capturing

  -- Why a start ended as it did.
  abbrev pub Explains : Os → Str → StartUp → Type 0
  Explains os path (started d) = Begun os path d
  Explains os path (not_started (config_refused e)) =
      load from_str read_to_string path ≡ not_loaded e
  Explains os path (not_started (input_refused e)) =
      (c : Config) × (load from_str read_to_string path ≡ loaded c)
      × (Input.validate os c.mappings ≡ some e)
  Explains os path (not_started capture_refused) = ⊥
  Explains os path (not_started (bind_refused e)) =
      (c : Config) × (load from_str read_to_string path ≡ loaded c)
      × (Input.validate os c.mappings ≡ none)
      × (bind (address c.server) ≡ some e)
  Explains os path panicked = ⊥

  after_load-Explains :
      (os : Os) (path : Str) (c : Config)
      → load from_str read_to_string path ≡ loaded c
      → Explains os path (after_load bind os c)
  unfolding after_load after_spawn daemon
  after_load-Explains os path c h = elim (Option-cases (Input.validate os c.mappings)) [
    | inr (e, fails) ↦ rw (fails, after_load) (c, h, fails)
    | inl passes ↦
        let (x, spawns) = spawn-total os c.mappings passes in
        elim (Option-cases (bind (address c.server))) [
          | inr (e, fails) ↦
              rw (passes, after_load, spawns, after_spawn, fails) (c, h, passes, fails)
          | inl binds ↦
              rw (passes, after_load, spawns, after_spawn, binds)
                (record {
                  loads = h;
                  valid = load-IsValid from_str read_to_string path c h;
                  reads = passes;
                  spawns = spawns;
                  binds = binds;
                  same = refl;
                })
        ]
  ]

  pub main_lem :
      (os : Os) (path : Str) → Explains os path (main bind from_str read_to_string os path)
  unfolding main
  main_lem os path = elim (Loaded-cases (load from_str read_to_string path)) [
    | inl (c, e) ↦ rw (e, main) (after_load-Explains os path c e)
    | inr (x, e) ↦ rw (e, main) e
  ]

  pub main-Begun :
      (os : Os) (path : Str) (d : Daemon)
      → main bind from_str read_to_string os path ≡ started d
      → Begun os path d
  main-Begun os path d e = subst (Explains os path) e (main_lem os path)
