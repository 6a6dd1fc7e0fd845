-- ===== src/Replay/Server.antt =====
-- Tests of crates/usahp-daemon/src/server.rs, replayed: a connection is its commands, in the order in
-- which the test makes them.
use usahp_core.Base.{◌≡◌, refl, true, ◌&&◌, List, [], ◌∷◌, Option, some, nat_eqb}
use usahp_core.Str.{Str, str, str_eq}
use usahp_core.Protocol.{
  protocol_version, Action, Handshake, SwitchState, ServerMessage, exclusive_foreground,
  unsupported, hello, SwitchSnapshot, protocol_mismatch, invalid_app_id, unsupported_mode,
  session_busy, capture_unavailable, heartbeat_timeout, explicit_revocation, focus_lost,
  escape_hatch,
}
use usahp_core.Protocol.Float.{f32_hundred, f32_zero}
use usahp_core.Broker.Types.{BrokerCommand}
use usahp_core.Broker.Loop.{step, run, on_command}
use usahp_core.Capture.{new_enabled}
use usahp_core.Broker.Types.{start}
use usahp_core.Replay.Mail.{Mail, mail_channel, failing_backend}
use usahp_core.Replay.Scripts.{
  Script, ◌>>=◌, ◌>>◌, pure, assert, send, spawn, register_client, recv, passes,
}
use usahp_core.Replay.Patterns.{is_hello, is_event, is_accepted, is_rejected}
use usahp_core.Replay.Broker.{mapping, handshake_of}
use usahp_core.Protocol.{ClientMessage}
use usahp_core.Server.{command_of}

abbrev send_all : List (BrokerCommand Mail) → Script (Unit {0})
send_all [] = pure tt
send_all (c ∷ cs) = do send c; send_all cs

abbrev spawn_physical : Script (Unit {0})
spawn_physical = spawn (mapping (str "physical") (str "switch_1") ∷ [])

abbrev request : Str → Option ClientMessage
request app_id = some (ClientMessage.handshake (handshake_of app_id))

abbrev pub websocket_sends_snapshot_then_events : Script (Unit {0})
websocket_sends_snapshot_then_events = do
  spawn_physical
  id ← register_client 8
  greeting ← recv id
  assert (is_hello greeting)
  send (
      BrokerCommand.input (record {
        mapping_id = str "physical";
        action = Action.pressed;
        confidence = some f32_hundred;
      }))
  event ← recv id
  assert (is_event (λ a n. nat_eqb n 1) event)

abbrev pub websocket_managed_session_rejects_competitor_and_allows_reconnect : Script (Unit {0})
websocket_managed_session_rejects_competitor_and_allows_reconnect = do
  spawn_physical
  first ← register_client 8
  second ← register_client 8
  recv first
  recv second
  send_all (command_of first (request (str "org.first")))
  response ← recv first
  assert (is_accepted response)
  send_all (command_of second (request (str "org.second")))
  busy ← recv second
  assert (is_rejected session_busy busy)
  send (BrokerCommand.unregister first)
  send_all (command_of second (request (str "org.second")))
  again ← recv second
  assert (is_accepted again)

server_passes :
    (passes websocket_sends_snapshot_then_events
      && passes websocket_managed_session_rejects_competitor_and_allows_reconnect)
    ≡ true
unfolding run step on_command usahp_core.Broker.Loop.input start new_enabled
    usahp_core.Broker.Loop.tick usahp_core.Broker.Loop.heartbeat usahp_core.Broker.Sessions.revoke
    usahp_core.Broker.Sessions.rejection usahp_core.Str.str_eqb usahp_core.Str.str_ltb
    usahp_core.Broker.Loop.after_apply usahp_core.Broker.Loop.emit usahp_core.Broker.Loop.route
    usahp_core.Broker.Send.broadcast usahp_core.Broker.Send.broadcast_all
    usahp_core.Broker.Send.event usahp_core.Broker.Send.events_of
    usahp_core.Broker.Send.release_messages usahp_core.Broker.Send.send_each
    usahp_core.Broker.Send.send_or_drop usahp_core.Broker.Send.send_response
    usahp_core.Broker.Sessions.handshake usahp_core.Broker.Sessions.register
    usahp_core.Broker.Sessions.acquire usahp_core.Broker.Sessions.answer
    usahp_core.Broker.Sessions.confirm usahp_core.Broker.Sessions.enter
    usahp_core.Broker.Sessions.open_session usahp_core.Broker.Sessions.release_if_passive
    usahp_core.Broker.Sessions.take_over usahp_core.Protocol.AppId.valid_app_id
    usahp_core.Protocol.AppId.bytes usahp_core.Protocol.AppId.utf8 usahp_core.State.new
    usahp_core.State.apply usahp_core.State.apply_edge usahp_core.State.release_all
    usahp_core.State.release_entries usahp_core.State.snapshots usahp_core.Collections.HashMap.get
    usahp_core.Collections.HashMap.insert usahp_core.Collections.HashMap.remove
    usahp_core.Collections.HashMap.collect_from usahp_core.Collections.BTreeMap.get
    usahp_core.Collections.BTreeMap.set usahp_core.Collections.BTreeMap.or_insert
    usahp_core.Collections.BTreeSet.contains usahp_core.Collections.BTreeSet.insert
    usahp_core.Collections.BTreeSet.remove usahp_core.Protocol.Confidence.validate_confidence
    usahp_core.Protocol.Float.is_finite usahp_core.Protocol.Float.f32_leb usahp_core.Capture.pause
    usahp_core.Capture.resume usahp_core.Capture.command_backends usahp_core.Capture.send_commands
    usahp_core.Capture.await_replies usahp_core.Broker.Loop.focus_changed
    usahp_core.Broker.Sessions.unregister
server_passes = refl
