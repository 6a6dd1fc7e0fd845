-- ===== src/Replay/Broker.antt =====
-- Tests of crates/usahp-daemon/src/broker.rs, replayed: the helpers, and the tests of clients.
use usahp_core.Base.{ℕ, ◌≡◌, refl, true, not, ◌&&◌, [], ◌∷◌, none, some, nat_eqb}
use usahp_core.Str.{Str, str, str_eq}
use usahp_core.Protocol.{
  protocol_version, Action, Handshake, SwitchState, ServerMessage, exclusive_foreground,
  unsupported, hello, SwitchSnapshot, protocol_mismatch, invalid_app_id, unsupported_mode,
  session_busy, capture_unavailable, heartbeat_timeout, explicit_revocation, focus_lost,
  escape_hatch,
}
use usahp_core.Protocol.Float.{f32_hundred, f32_zero}
use usahp_core.Config.{Mapping, keyboard}
use usahp_core.Broker.Types.{BrokerCommand}
use usahp_core.Broker.Loop.{step, run, on_command}
use usahp_core.Capture.{new_enabled}
use usahp_core.Broker.Types.{start}
use usahp_core.Replay.Mail.{Mail, mail_channel, failing_backend}
use usahp_core.Replay.Scripts.{
  Script, ◌>>=◌, ◌>>◌, assert, send, spawn, enabled, register_client, try_recv, recv, passes,
}
use usahp_core.Replay.Patterns.{
  is_event, is_accepted, is_rejected, received_as, is_empty_queue, is_disconnected,
}

abbrev pub mapping : Str → Str → Mapping
mapping id switch_id = record {
  id = id;
  switch_id = switch_id;
  input = keyboard;
  code = str "Space";
  device = none;
}

abbrev pub handshake_of : Str → Handshake
handshake_of app_id = record {
  protocol_version = protocol_version;
  app_id = app_id;
  requested_mode = exclusive_foreground;
  pid = none;
}

abbrev pub handshake_with_pid : Str → ℕ → Handshake
handshake_with_pid app_id pid = record {
  protocol_version = protocol_version;
  app_id = app_id;
  requested_mode = exclusive_foreground;
  pid = some pid;
}

-- The input of the tests: the mapping `a`, at 100.0 or 0.0.
abbrev pub press : BrokerCommand Mail
press =
    BrokerCommand.input
      (record { mapping_id = str "a"; action = Action.pressed; confidence = some f32_hundred })

abbrev pub release : BrokerCommand Mail
release =
    BrokerCommand.input
      (record { mapping_id = str "a"; action = Action.released; confidence = some f32_zero })

abbrev pub spawn_one : Script (Unit {0})
spawn_one = spawn (mapping (str "a") (str "switch_1") ∷ [])

abbrev pub passive_clients_receive_snapshot_and_ordered_events : Script (Unit {0})
passive_clients_receive_snapshot_and_ordered_events = do
  spawn_one
  first ← register_client 4
  second ← register_client 4
  recv first
  recv second
  send press
  m ← recv first
  assert (is_event (λ a n. nat_eqb n 1) m)
  m' ← recv second
  assert (is_event (λ a n. nat_eqb n 1) m')

abbrev pub handshake_is_exclusive_and_busy_is_rejected : Script (Unit {0})
handshake_is_exclusive_and_busy_is_rejected = do
  spawn_one
  first ← register_client 8
  second ← register_client 8
  recv first
  recv second
  send (BrokerCommand.handshake first (handshake_of (str "org.first")))
  response ← recv first
  assert (is_accepted response)
  send (BrokerCommand.handshake second (handshake_of (str "org.second")))
  busy ← recv second
  assert (is_rejected session_busy busy)
  send press
  event ← recv first
  assert (is_event (λ a n. true) event)
  rest ← try_recv second
  assert (is_empty_queue rest)

abbrev pub rejects_invalid_version_id_and_mode : Script (Unit {0})
rejects_invalid_version_id_and_mode = do
  spawn_one
  id ← register_client 8
  recv id
  send (
      BrokerCommand.handshake id
        (record (handshake_of (str "app")) { protocol_version = str "0.1" }))
  m ← recv id
  assert (is_rejected protocol_mismatch m)
  send (BrokerCommand.handshake id (handshake_of (str "bad id")))
  m' ← recv id
  assert (is_rejected invalid_app_id m')
  send (
      BrokerCommand.handshake id
        (record (handshake_of (str "app")) { requested_mode = unsupported (str "shared") }))
  m'' ← recv id
  assert (is_rejected unsupported_mode m'')

-- The capture is off after the overflow, and the client is gone once it has read what it had.
abbrev pub session_queue_overflow_revokes_and_pauses_capture : Script (Unit {0})
session_queue_overflow_revokes_and_pauses_capture = do
  spawn_one
  id ← register_client 1
  recv id
  send (BrokerCommand.handshake id (handshake_of (str "app")))
  send press
  waiting ← try_recv id
  assert (received_as (λ m. true) waiting)
  on ← enabled
  assert (not on)
  rest ← try_recv id
  assert (is_disconnected rest)

abbrev pub passive_queue_overflow_disconnects_the_slow_client : Script (Unit {0})
passive_queue_overflow_disconnects_the_slow_client = do
  spawn_one
  id ← register_client 1
  send press
  waiting ← try_recv id
  assert (received_as (λ m. true) waiting)
  rest ← try_recv id
  assert (is_disconnected rest)

clients_pass :
    (passes passive_clients_receive_snapshot_and_ordered_events
      && passes handshake_is_exclusive_and_busy_is_rejected
      && passes rejects_invalid_version_id_and_mode
      && passes session_queue_overflow_revokes_and_pauses_capture
      && passes passive_queue_overflow_disconnects_the_slow_client)
    ≡ true
unfolding run step on_command usahp_core.Broker.Loop.input start new_enabled
    usahp_core.Broker.Loop.tick usahp_core.Broker.Loop.heartbeat usahp_core.Broker.Sessions.revoke
    usahp_core.Broker.Sessions.rejection usahp_core.Str.str_eqb usahp_core.Str.str_ltb
    usahp_core.Broker.Loop.after_apply usahp_core.Broker.Loop.emit usahp_core.Broker.Loop.route
    usahp_core.Broker.Send.broadcast usahp_core.Broker.Send.broadcast_all
    usahp_core.Broker.Send.event usahp_core.Broker.Send.events_of
    usahp_core.Broker.Send.release_messages usahp_core.Broker.Send.send_each
    usahp_core.Broker.Send.send_or_drop usahp_core.Broker.Send.send_response
    usahp_core.Broker.Sessions.handshake usahp_core.Broker.Sessions.register
    usahp_core.Broker.Sessions.acquire usahp_core.Broker.Sessions.answer
    usahp_core.Broker.Sessions.confirm usahp_core.Broker.Sessions.enter
    usahp_core.Broker.Sessions.open_session usahp_core.Broker.Sessions.release_if_passive
    usahp_core.Broker.Sessions.take_over usahp_core.Protocol.AppId.valid_app_id
    usahp_core.Protocol.AppId.bytes usahp_core.Protocol.AppId.utf8 usahp_core.State.new
    usahp_core.State.apply usahp_core.State.apply_edge usahp_core.State.release_all
    usahp_core.State.release_entries usahp_core.State.snapshots usahp_core.Collections.HashMap.get
    usahp_core.Collections.HashMap.insert usahp_core.Collections.HashMap.remove
    usahp_core.Collections.HashMap.collect_from usahp_core.Collections.BTreeMap.get
    usahp_core.Collections.BTreeMap.set usahp_core.Collections.BTreeMap.or_insert
    usahp_core.Collections.BTreeSet.contains usahp_core.Collections.BTreeSet.insert
    usahp_core.Collections.BTreeSet.remove usahp_core.Protocol.Confidence.validate_confidence
    usahp_core.Protocol.Float.is_finite usahp_core.Protocol.Float.f32_leb usahp_core.Capture.pause
    usahp_core.Capture.resume usahp_core.Capture.command_backends usahp_core.Capture.send_commands
    usahp_core.Capture.await_replies usahp_core.Broker.Loop.focus_changed
clients_pass = refl
