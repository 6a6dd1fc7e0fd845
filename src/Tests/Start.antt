-- ===== src/Tests/Start.antt =====
-- Examples for the start of the daemon, crates/usahp-daemon/src/main.rs, and for its gamepad tables.
use mathlib.Core.List.Memᴰ.{head}
use usahp_core.Base.{ℕ, ◌≡◌, ◌⊎◌, inr, refl, Option, none, some, List, [], ◌∷◌}
use usahp_core.Str.{str_eqb, Str, str, str_eq}
use usahp_core.Collections.HashMap
use usahp_core.Collections.HashMap.{HashMap}
use usahp_core.Config.{Config, Mapping, gamepad}
use usahp_core.State.Edges.{switch_of}
use usahp_core.Capture.{new_enabled}
use usahp_core.Broker.Types.{BrokerCommand, Runtime, start}
use usahp_core.Broker.Loop.{Round, run, step, on_command}
use usahp_core.Input.{linux, validate, parse_u16}
use usahp_core.Input.Keys.{Key}
use usahp_core.Input.Pads.{
  tables, ids_at, ids_for_button, gamepad_mappings, by_device_from, by_device_lem,
}
use usahp_core.Daemon.{Daemon, daemon, main, started}
use usahp_core.Daemon.Sending.{IsSource, from_grab, source-known}
use usahp_core.Tests.{press, round, Queue, Thread, queue_channel, thread_backend, good_thread}
use usahp_core.Tests.Daemon.{simulated}

abbrev pad_mapping : Str → Str → Mapping
pad_mapping id code = record {
  id = id;
  switch_id = str "left";
  input = gamepad;
  code = code;
  device = some (str "/dev/input/event3");
}

abbrev pad_mappings : List Mapping
pad_mappings = pad_mapping (str "g1") (str "304") ∷ pad_mapping (str "g2") (str "+304") ∷ []

by_device_lem_example :
    (table : HashMap Str (HashMap ℕ (List Str))) × (by_device_from []
        (gamepad_mappings pad_mappings)
      ≡ tables table)
    × ((device : Str) (code : ℕ)
        → ids_at device code table ≡ ids_for_button device code (gamepad_mappings pad_mappings))
unfolding validate usahp_core.Input.validate_mapping usahp_core.Input.validate_gamepad parse_u16
    usahp_core.Input.parse_digits
by_device_lem_example = by_device_lem pad_mappings refl

-- A file that holds the simulated configuration, and a port that is free.
abbrev read_any : Str → Str ⊎ Str
read_any path = inr (str "...")

abbrev from_any : Str → Str ⊎ Config
from_any content = inr simulated

abbrev bind_any : List ℕ × ℕ → Option Str
bind_any address = none

abbrev key_table : HashMap Key (List Str)
key_table =
    (Key.space, str "k1" ∷ []) ∷ (Key.return, str "k2" ∷ []) ∷ (Key.key_a, str "k3" ∷ []) ∷ []

abbrev linux_daemon : Daemon
linux_daemon = daemon linux simulated (record { grab = some key_table; tap = none; pads = [] })

abbrev idle_broker : Runtime Queue Thread
idle_broker = start linux_daemon.broker_mappings (new_enabled (good_thread ∷ [])) 0

abbrev or_idle : Option (Runtime Queue Thread) → Runtime Queue Thread
or_idle none = idle_broker
or_idle (some r) = r

abbrev one_press : List (Round Queue)
one_press = round 1000 (BrokerCommand.input (press (str "k2"))) ∷ []

abbrev pressed_broker : Runtime Queue Thread
pressed_broker = or_idle (run idle_broker one_press)

one_press-ran : run idle_broker one_press ≡ some pressed_broker
unfolding run step on_command usahp_core.Broker.Loop.input start new_enabled
    usahp_core.Broker.Loop.tick usahp_core.Broker.Loop.heartbeat usahp_core.Broker.Sessions.revoke
    usahp_core.Broker.Sessions.rejection usahp_core.Str.str_eqb usahp_core.Str.str_ltb
    usahp_core.Broker.Loop.after_apply usahp_core.Broker.Loop.emit usahp_core.Broker.Loop.route
    usahp_core.Broker.Send.broadcast usahp_core.Broker.Send.broadcast_all
    usahp_core.Broker.Send.event usahp_core.Broker.Send.events_of
    usahp_core.Broker.Send.release_messages usahp_core.Broker.Send.send_each
    usahp_core.Broker.Send.send_or_drop usahp_core.Broker.Send.send_response
    usahp_core.Broker.Sessions.handshake usahp_core.Broker.Sessions.register
    usahp_core.Broker.Sessions.acquire usahp_core.Broker.Sessions.answer
    usahp_core.Broker.Sessions.confirm usahp_core.Broker.Sessions.enter
    usahp_core.Broker.Sessions.open_session usahp_core.Broker.Sessions.release_if_passive
    usahp_core.Broker.Sessions.take_over usahp_core.Protocol.AppId.valid_app_id
    usahp_core.Protocol.AppId.bytes usahp_core.Protocol.AppId.utf8 usahp_core.State.new
    usahp_core.State.apply usahp_core.State.apply_edge usahp_core.State.release_all
    usahp_core.State.release_entries usahp_core.State.snapshots usahp_core.Collections.HashMap.get
    usahp_core.Collections.HashMap.insert usahp_core.Collections.HashMap.remove
    usahp_core.Collections.HashMap.collect_from usahp_core.Collections.BTreeMap.get
    usahp_core.Collections.BTreeMap.set usahp_core.Collections.BTreeMap.or_insert
    usahp_core.Collections.BTreeSet.contains usahp_core.Collections.BTreeSet.insert
    usahp_core.Collections.BTreeSet.remove usahp_core.Protocol.Confidence.validate_confidence
    usahp_core.Protocol.Float.is_finite usahp_core.Protocol.Float.f32_leb daemon
    usahp_core.Simulator.broker_mappings usahp_core.Simulator.mappings_for
    usahp_core.Simulator.mappings_from
one_press-ran = refl

linux_started : main bind_any from_any read_any linux (str "usahp.toml") ≡ started linux_daemon
unfolding main daemon str_eqb usahp_core.Str.str_ltb
linux_started = refl

return-IsSource : IsSource linux_daemon (str "k2")
unfolding HashMap.get daemon
return-IsSource = from_grab key_table Key.return refl (head refl)

source-known_example :
    (switch_id : Str) × (switch_of pressed_broker.state (str "k2") ≡ some switch_id)
source-known_example =
    source-known bind_any from_any read_any linux (str "usahp.toml") linux_daemon (good_thread ∷ [])
      0 one_press pressed_broker (str "k2") linux_started one_press-ran return-IsSource
