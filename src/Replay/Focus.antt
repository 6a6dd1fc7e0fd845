-- ===== src/Replay/Focus.antt =====
-- Tests of crates/usahp-daemon/src/broker.rs, replayed: changes of the focus.
use usahp_core.Base.{◌≡◌, refl, true, not, ◌&&◌, some}
use usahp_core.Str.{Str, str, str_eq}
use usahp_core.Protocol.{
  protocol_version, Action, Handshake, SwitchState, ServerMessage, exclusive_foreground,
  unsupported, hello, SwitchSnapshot, protocol_mismatch, invalid_app_id, unsupported_mode,
  session_busy, capture_unavailable, heartbeat_timeout, explicit_revocation, focus_lost,
  escape_hatch,
}
use usahp_core.Protocol.Float.{f32_hundred, f32_zero}
use usahp_core.Broker.Types.{BrokerCommand}
use usahp_core.Broker.Loop.{step, run, on_command}
use usahp_core.Capture.{new_enabled}
use usahp_core.Broker.Types.{start}
use usahp_core.Replay.Mail.{mail_channel, failing_backend}
use usahp_core.Replay.Scripts.{
  Script, ◌>>=◌, ◌>>◌, assert, send, register_client, try_recv, recv, passes,
}
use usahp_core.Replay.Patterns.{is_revoked, received_as}
use usahp_core.Replay.Broker.{handshake_of, handshake_with_pid, spawn_one}

abbrev pub focus_changed_revokes_session_with_mismatched_pid : Script (Unit {0})
focus_changed_revokes_session_with_mismatched_pid = do
  spawn_one
  client_id ← register_client 8
  recv client_id
  send (BrokerCommand.handshake client_id (handshake_with_pid (str "com.test.app") 1000))
  recv client_id
  send (BrokerCommand.focus_changed (some 2000))
  m ← try_recv client_id
  assert (received_as (λ x. is_revoked focus_lost x) m)

abbrev pub focus_changed_same_pid_keeps_session : Script (Unit {0})
focus_changed_same_pid_keeps_session = do
  spawn_one
  client_id ← register_client 8
  recv client_id
  send (BrokerCommand.handshake client_id (handshake_with_pid (str "com.test.app") 1000))
  recv client_id
  send (BrokerCommand.focus_changed (some 1000))
  m ← try_recv client_id
  assert (not (received_as (λ x. true) m))

abbrev pub focus_changed_no_session_pid_does_not_revoke : Script (Unit {0})
focus_changed_no_session_pid_does_not_revoke = do
  spawn_one
  client_id ← register_client 8
  recv client_id
  send (BrokerCommand.handshake client_id (handshake_of (str "com.test.app")))
  recv client_id
  send (BrokerCommand.focus_changed (some 9999))
  m ← try_recv client_id
  assert (not (received_as (λ x. true) m))

focus_passes :
    (passes focus_changed_revokes_session_with_mismatched_pid
      && passes focus_changed_same_pid_keeps_session
      && passes focus_changed_no_session_pid_does_not_revoke)
    ≡ true
unfolding run step on_command usahp_core.Broker.Loop.input start new_enabled
    usahp_core.Broker.Loop.tick usahp_core.Broker.Loop.heartbeat usahp_core.Broker.Sessions.revoke
    usahp_core.Broker.Sessions.rejection usahp_core.Str.str_eqb usahp_core.Str.str_ltb
    usahp_core.Broker.Loop.after_apply usahp_core.Broker.Loop.emit usahp_core.Broker.Loop.route
    usahp_core.Broker.Send.broadcast usahp_core.Broker.Send.broadcast_all
    usahp_core.Broker.Send.event usahp_core.Broker.Send.events_of
    usahp_core.Broker.Send.release_messages usahp_core.Broker.Send.send_each
    usahp_core.Broker.Send.send_or_drop usahp_core.Broker.Send.send_response
    usahp_core.Broker.Sessions.handshake usahp_core.Broker.Sessions.register
    usahp_core.Broker.Sessions.acquire usahp_core.Broker.Sessions.answer
    usahp_core.Broker.Sessions.confirm usahp_core.Broker.Sessions.enter
    usahp_core.Broker.Sessions.open_session usahp_core.Broker.Sessions.release_if_passive
    usahp_core.Broker.Sessions.take_over usahp_core.Protocol.AppId.valid_app_id
    usahp_core.Protocol.AppId.bytes usahp_core.Protocol.AppId.utf8 usahp_core.State.new
    usahp_core.State.apply usahp_core.State.apply_edge usahp_core.State.release_all
    usahp_core.State.release_entries usahp_core.State.snapshots usahp_core.Collections.HashMap.get
    usahp_core.Collections.HashMap.insert usahp_core.Collections.HashMap.remove
    usahp_core.Collections.HashMap.collect_from usahp_core.Collections.BTreeMap.get
    usahp_core.Collections.BTreeMap.set usahp_core.Collections.BTreeMap.or_insert
    usahp_core.Collections.BTreeSet.contains usahp_core.Collections.BTreeSet.insert
    usahp_core.Collections.BTreeSet.remove usahp_core.Protocol.Confidence.validate_confidence
    usahp_core.Protocol.Float.is_finite usahp_core.Protocol.Float.f32_leb usahp_core.Capture.pause
    usahp_core.Capture.resume usahp_core.Capture.command_backends usahp_core.Capture.send_commands
    usahp_core.Capture.await_replies usahp_core.Broker.Loop.focus_changed
focus_passes = refl
