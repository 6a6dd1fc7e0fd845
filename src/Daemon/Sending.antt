-- ===== src/Daemon/Sending.antt =====
-- What the sources of events that `main` of crates/usahp-daemon/src/main.rs starts may send to the
-- broker, in all states of the broker.
use mathlib.Core.List.{Memᴰ}
use usahp_core.Base.{
  ℕ, ◌≡◌, ◌⊎◌, inl, inr, refl, sym, ◌∙◌, ap, subst, true, List, Option, none, some, some_inj,
  is_some, Bool-cases, nat_eq,
}
use usahp_core.Str.{Str, str_eq}
use usahp_core.Collections.HashMap
use usahp_core.Collections.HashMap.{HashMap, All-insert, get-insert}
use usahp_core.Config.{Config}
use usahp_core.State.{new}
use usahp_core.State.Edges.{switch_of}
use usahp_core.Input.{Os}
use usahp_core.Input.Keys.{Key}
use usahp_core.Input.Keycodes.{key_eq}
use usahp_core.Input.Grab.{ids_of}
use usahp_core.Input.Pads.{ids_at}
use usahp_core.Simulator.{broker_mappings}
use usahp_core.Channel.{Channel}
use usahp_core.Capture.{Backend, new_enabled}
use usahp_core.Broker.Types.{PhysicalEvent, Runtime, start}
use usahp_core.Broker.Loop.{Round, run}
use usahp_core.Broker.Routes.{run-start-SameRoutes}
use usahp_core.Simulator.{known, parse_line}
use usahp_core.Simulator.Routes.{parse_line_lem}
use usahp_core.Daemon.{Capturing, Daemon, started, daemon, main}
use usahp_core.Daemon.Entries.{All-Mem, get-AreIds, ids_at-All}
use usahp_core.Daemon.Known.{IsKnown, broker_mappings-IsKnown}
use usahp_core.Daemon.Sources.{spawn-AreCaptured}
use usahp_core.Daemon.Start.{Begun, main-Begun}

-- An identifier that some source of events of the daemon may send: one in the table of the keyboard
-- callback, of the event tap or of a gamepad, or one that the simulator finds for a line.
pub data IsSource (d : Daemon) : Str → Type 0 where
  from_grab :
      {id : Str} (table : HashMap Key (List Str)) (key : Key)
      → d.capturing.grab ≡ some table
      → Memᴰ id (ids_of (HashMap.get key table))
      → IsSource d id
  from_tap :
      {id : Str} (table : HashMap ℕ (List Str)) (keycode : ℕ)
      → d.capturing.tap ≡ some table
      → Memᴰ id (ids_of (HashMap.get keycode table))
      → IsSource d id
  from_pad :
      {id : Str} (device : Str) (code : ℕ)
      → Memᴰ id (ids_at device code d.capturing.pads)
      → IsSource d id
  from_line :
      (table : HashMap Str Str) (line : Str) (e : PhysicalEvent)
      → d.simulator ≡ some table
      → parse_line table line ≡ some e
      → IsSource d e.mapping_id

parse_line-IsKnown :
    (os : Os) (c : Config) (x : Capturing) (table : HashMap Str Str) (line : Str)
    (e : PhysicalEvent)
    → (daemon os c x).simulator ≡ some table
    → parse_line table line ≡ some e
    → IsKnown (broker_mappings c) e.mapping_id
unfolding daemon
parse_line-IsKnown os c x table line e there reads = elim (Bool-cases c.simulator.stdin) [
  | inl on ↦
      let same : known c.mappings ≡ table = some_inj (rw on at there) in
      let asks =
        parse_line_lem c line e on (subst (λ t. parse_line t line ≡ some e) (sym same) reads) in
      ap is_some asks.leads
  | inr off ↦ absurd (cc (rw off at there))
]

module _ (bind : List ℕ × ℕ → Option Str) (from_str : Str → Str ⊎ Config)
    (read_to_string : Str → Str ⊎ Str) where
  source-IsKnown :
      (os : Os) (path : Str) (d : Daemon) (id : Str)
      → Begun bind from_str read_to_string os path d
      → IsSource d id
      → IsKnown (broker_mappings d.config) id
  source-IsKnown os path d id h source =
      let held =
        spawn-AreCaptured (IsKnown (broker_mappings d.config)) os d.config.mappings d.capturing
          (broker_mappings-IsKnown d.config) h.spawns in
      elim source [
        | from_grab table key there m ↦
            All-Mem _ id _
              (get-AreIds (IsKnown (broker_mappings d.config)) key table (held.grab table there)) m
        | from_tap table keycode there m ↦
            All-Mem _ id _
              (get-AreIds (IsKnown (broker_mappings d.config)) keycode table (held.tap table there))
              m
        | from_pad device code m ↦
            All-Mem _ id _
              (ids_at-All (IsKnown (broker_mappings d.config)) device code d.capturing.pads
                held.pads)
              m
        | from_line table line e there reads ↦
            parse_line-IsKnown os d.config d.capturing table line e
              (ap (λ (x : Daemon). x.simulator) (sym h.same) ∙ there) reads
      ]

is_some-cases : {A : Type 0} (o : Option A) → is_some o ≡ true → (a : A) × (o ≡ some a)
is_some-cases none h = absurd (cc (h))
is_some-cases (some a) h = (a, refl)

module _ {S B : Type 0} ⦃ch : Channel S⦄ ⦃be : Backend B⦄ (bind : List ℕ × ℕ → Option Str)
    (from_str : Str → Str ⊎ Config) (read_to_string : Str → Str ⊎ Str) where
  -- In a daemon that has started, on any platform, whatever a source of events sends is for a mapping
  -- that the broker's machine leads to a switch, in every state that the broker can reach: the
  -- keyboard callbacks, the gamepads and the simulator never send an identifier that the broker refuses
  -- as unknown.
  pub source-known :
      (os : Os) (path : Str) (d : Daemon) (backends : List B) (now : ℕ) (rounds : List (Round S))
      (r : Runtime S B) (id : Str)
      → main bind from_str read_to_string os path ≡ started d
      → run (start d.broker_mappings (new_enabled backends) now) rounds ≡ some r
      → IsSource d id
      → (switch_id : Str) × (switch_of r.state id ≡ some switch_id)
  unfolding daemon
  source-known os path d backends now rounds r id e q source =
      let begun = main-Begun bind from_str read_to_string os path d e in
      let mappings = ap (λ (x : Daemon). x.broker_mappings) begun.same in
      let (k, there) =
        is_some-cases (switch_of (new (broker_mappings d.config)) id)
          (source-IsKnown bind from_str read_to_string os path d id begun source) in
      (
        k,
        run-start-SameRoutes d.broker_mappings backends now rounds r q id
            ∙ ap (λ ms. switch_of (new ms) id) mappings
            ∙ there,
      )
