-- ===== src/Replay/Sessions.antt =====
-- Tests of crates/usahp-daemon/src/broker.rs, replayed: the lease and the capture of a session.
use usahp_core.Base.{◌≡◌, refl, Bool, true, false, not, ◌&&◌, List, [], ◌∷◌}
use usahp_core.Str.{Str, str, str_eq}
use usahp_core.Protocol.{
  protocol_version, Action, Handshake, SwitchState, ServerMessage, exclusive_foreground,
  unsupported, hello, switch_event, handshake_response, session_revoked, SwitchSnapshot,
  protocol_mismatch, invalid_app_id, unsupported_mode, session_busy, capture_unavailable,
  heartbeat_timeout, explicit_revocation, focus_lost, escape_hatch,
}
use usahp_core.Protocol.Float.{f32_hundred, f32_zero}
use usahp_core.Broker.Types.{BrokerCommand}
use usahp_core.Broker.Loop.{step, run, on_command}
use usahp_core.Capture.{new_enabled}
use usahp_core.Broker.Types.{start}
use usahp_core.Replay.Mail.{mail_channel, failing_backend}
use usahp_core.Replay.Scripts.{
  Script, ◌>>=◌, ◌>>◌, assert, send, advance, enabled, fail_resume, register_client, try_recv, recv,
  passes,
}
use usahp_core.Replay.Patterns.{
  is_event, is_released, acceptance_of, is_accepted, is_rejected, is_revoked, is_empty_queue,
  unwrap,
}
use usahp_core.Replay.Broker.{handshake_of, press, release, spawn_one}

abbrev first_is_released : List SwitchSnapshot → Bool
first_is_released [] = false
first_is_released (s ∷ ss) = is_up s.state
  where
    is_up : SwitchState → Bool
    is_up SwitchState.pressed = false
    is_up SwitchState.released = true

abbrev greets_released : ServerMessage → Bool
greets_released (hello h) = first_is_released h.switches
greets_released (switch_event e) = false
greets_released (handshake_response r) = false
greets_released (session_revoked s) = false

abbrev pub timeout_releases_held_state_and_pauses_until_reacquired : Script (Unit {0})
timeout_releases_held_state_and_pauses_until_reacquired = do
  spawn_one
  id ← register_client 16
  recv id
  send (BrokerCommand.handshake id (handshake_of (str "app")))
  recv id
  send press
  recv id
  advance 1600
  event ← recv id
  assert (is_event (λ a n. is_released a) event)
  revoked ← recv id
  assert (is_revoked heartbeat_timeout revoked)
  on ← enabled
  assert (not on)
  other ← register_client 4
  snapshot ← recv other
  assert (greets_released snapshot)
  send release
  send (BrokerCommand.handshake id (handshake_of (str "app")))
  response ← recv id
  assert (is_accepted response)
  on' ← enabled
  assert on'

abbrev pub matching_session_heartbeat_extends_the_lease : Script (Unit {0})
matching_session_heartbeat_extends_the_lease = do
  spawn_one
  id ← register_client 8
  recv id
  send (BrokerCommand.handshake id (handshake_of (str "app")))
  response ← recv id
  session_id ← unwrap (acceptance_of response)
  advance 1000
  send (BrokerCommand.heartbeat id session_id)
  advance 1000
  rest ← try_recv id
  assert (is_empty_queue rest)

abbrev pub reacquisition_failure_has_typed_rejection : Script (Unit {0})
reacquisition_failure_has_typed_rejection = do
  spawn_one
  id ← register_client 8
  recv id
  send (BrokerCommand.handshake id (handshake_of (str "app")))
  recv id
  send (BrokerCommand.revoke_session explicit_revocation)
  recv id
  fail_resume
  send (BrokerCommand.handshake id (handshake_of (str "app")))
  response ← recv id
  assert (is_rejected capture_unavailable response)

sessions_pass :
    (passes timeout_releases_held_state_and_pauses_until_reacquired
      && passes matching_session_heartbeat_extends_the_lease
      && passes reacquisition_failure_has_typed_rejection)
    ≡ true
unfolding run step on_command usahp_core.Broker.Loop.input start new_enabled
    usahp_core.Broker.Loop.tick usahp_core.Broker.Loop.heartbeat usahp_core.Broker.Sessions.revoke
    usahp_core.Broker.Sessions.rejection usahp_core.Str.str_eqb usahp_core.Str.str_ltb
    usahp_core.Broker.Loop.after_apply usahp_core.Broker.Loop.emit usahp_core.Broker.Loop.route
    usahp_core.Broker.Send.broadcast usahp_core.Broker.Send.broadcast_all
    usahp_core.Broker.Send.event usahp_core.Broker.Send.events_of
    usahp_core.Broker.Send.release_messages usahp_core.Broker.Send.send_each
    usahp_core.Broker.Send.send_or_drop usahp_core.Broker.Send.send_response
    usahp_core.Broker.Sessions.handshake usahp_core.Broker.Sessions.register
    usahp_core.Broker.Sessions.acquire usahp_core.Broker.Sessions.answer
    usahp_core.Broker.Sessions.confirm usahp_core.Broker.Sessions.enter
    usahp_core.Broker.Sessions.open_session usahp_core.Broker.Sessions.release_if_passive
    usahp_core.Broker.Sessions.take_over usahp_core.Protocol.AppId.valid_app_id
    usahp_core.Protocol.AppId.bytes usahp_core.Protocol.AppId.utf8 usahp_core.State.new
    usahp_core.State.apply usahp_core.State.apply_edge usahp_core.State.release_all
    usahp_core.State.release_entries usahp_core.State.snapshots usahp_core.Collections.HashMap.get
    usahp_core.Collections.HashMap.insert usahp_core.Collections.HashMap.remove
    usahp_core.Collections.HashMap.collect_from usahp_core.Collections.BTreeMap.get
    usahp_core.Collections.BTreeMap.set usahp_core.Collections.BTreeMap.or_insert
    usahp_core.Collections.BTreeSet.contains usahp_core.Collections.BTreeSet.insert
    usahp_core.Collections.BTreeSet.remove usahp_core.Protocol.Confidence.validate_confidence
    usahp_core.Protocol.Float.is_finite usahp_core.Protocol.Float.f32_leb usahp_core.Capture.pause
    usahp_core.Capture.resume usahp_core.Capture.command_backends usahp_core.Capture.send_commands
    usahp_core.Capture.await_replies usahp_core.Broker.Loop.focus_changed
sessions_pass = refl
