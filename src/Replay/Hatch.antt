-- ===== src/Replay/Hatch.antt =====
-- Tests of crates/usahp-daemon/src/broker.rs, replayed: the escape hatch.
use usahp_core.Base.{ℕ, zero, suc, ◌≡◌, refl, Bool, true, false, not, ◌&&◌, ◌||◌, none, some}
use usahp_core.Str.{Str, str, str_eq}
use usahp_core.Protocol.{
  protocol_version, Action, Handshake, SwitchState, ServerMessage, exclusive_foreground,
  unsupported, hello, SwitchSnapshot, protocol_mismatch, invalid_app_id, unsupported_mode,
  session_busy, capture_unavailable, heartbeat_timeout, explicit_revocation, focus_lost,
  escape_hatch,
}
use usahp_core.Protocol.Float.{f32_hundred, f32_zero}
use usahp_core.Broker.Types.{BrokerCommand}
use usahp_core.Broker.Loop.{step, run, on_command}
use usahp_core.Capture.{new_enabled}
use usahp_core.Broker.Types.{start}
use usahp_core.Replay.Mail.{mail_channel, failing_backend}
use usahp_core.Replay.Scripts.{
  Script, ◌>>=◌, ◌>>◌, pure, assert, send, sleep, register_client, try_recv, recv, passes,
}
use usahp_core.Replay.Patterns.{acceptance_of, is_revoked, received_as, unwrap}
use usahp_core.Replay.Broker.{handshake_of, press, release, spawn_one}

-- The task of heartbeats: it waits, and then sends.
abbrev wait_and_beat : ℕ → ℕ → Str → Script (Unit {0})
wait_and_beat zero id session_id = pure tt
wait_and_beat (suc n) id session_id = do
  sleep 4
  send (BrokerCommand.heartbeat id session_id)
  wait_and_beat n id session_id

-- So many heartbeats, each with so many tenths of a second after it.
abbrev beat_and_wait : ℕ → ℕ → ℕ → Str → Script (Unit {0})
beat_and_wait zero tenths id session_id = pure tt
beat_and_wait (suc n) tenths id session_id = do
  send (BrokerCommand.heartbeat id session_id)
  sleep tenths
  beat_and_wait n tenths id session_id

-- Is one of the next messages of this kind?
abbrev finds : ℕ → (ServerMessage → Bool) → ℕ → Script Bool
finds zero p id = pure false
finds (suc n) p id = do m ← try_recv id; rest ← finds n p id; pure (received_as p m || rest)

-- The first acceptance among the next messages.
abbrev accepted_within : ℕ → ℕ → Script Str
accepted_within zero id = unwrap none
accepted_within (suc n) id = do
  m ← recv id
  elim (acceptance_of m) [ none ↦ accepted_within n id | some session_id ↦ pure session_id ]

abbrev pub escape_hatch_revokes_session_on_sustained_hold : Script (Unit {0})
escape_hatch_revokes_session_on_sustained_hold = do
  spawn_one
  client_id ← register_client 8
  recv client_id
  send (BrokerCommand.handshake client_id (handshake_of (str "com.test.app")))
  response ← recv client_id
  session_id ← unwrap (acceptance_of response)
  send press
  try_recv client_id
  wait_and_beat 20 client_id session_id
  found_escape ← finds 30 (λ m. is_revoked escape_hatch m) client_id
  assert found_escape

abbrev pub escape_hatch_does_not_fire_if_switch_released_in_time : Script (Unit {0})
escape_hatch_does_not_fire_if_switch_released_in_time = do
  spawn_one
  client_id ← register_client 8
  recv client_id
  send (BrokerCommand.handshake client_id (handshake_of (str "com.test.app")))
  response ← recv client_id
  session_id ← unwrap (acceptance_of response)
  send press
  try_recv client_id
  send release
  try_recv client_id
  beat_and_wait 12 4 client_id session_id
  m ← try_recv client_id
  assert (not (received_as (λ x. is_revoked escape_hatch x) m))

abbrev pub escape_hatch_tracker_cleared_on_new_session : Script (Unit {0})
escape_hatch_tracker_cleared_on_new_session = do
  spawn_one
  client_id ← register_client 8
  recv client_id
  send press
  try_recv client_id
  sleep 42
  send (BrokerCommand.handshake client_id (handshake_of (str "com.test.app")))
  session_id ← accepted_within 10 client_id
  beat_and_wait 5 2 client_id session_id
  m ← try_recv client_id
  assert (not (received_as (λ x. is_revoked escape_hatch x) m))

hatch_passes :
    (passes escape_hatch_revokes_session_on_sustained_hold
      && passes escape_hatch_does_not_fire_if_switch_released_in_time
      && passes escape_hatch_tracker_cleared_on_new_session)
    ≡ true
unfolding run step on_command usahp_core.Broker.Loop.input start new_enabled
    usahp_core.Broker.Loop.tick usahp_core.Broker.Loop.heartbeat usahp_core.Broker.Sessions.revoke
    usahp_core.Broker.Sessions.rejection usahp_core.Str.str_eqb usahp_core.Str.str_ltb
    usahp_core.Broker.Loop.after_apply usahp_core.Broker.Loop.emit usahp_core.Broker.Loop.route
    usahp_core.Broker.Send.broadcast usahp_core.Broker.Send.broadcast_all
    usahp_core.Broker.Send.event usahp_core.Broker.Send.events_of
    usahp_core.Broker.Send.release_messages usahp_core.Broker.Send.send_each
    usahp_core.Broker.Send.send_or_drop usahp_core.Broker.Send.send_response
    usahp_core.Broker.Sessions.handshake usahp_core.Broker.Sessions.register
    usahp_core.Broker.Sessions.acquire usahp_core.Broker.Sessions.answer
    usahp_core.Broker.Sessions.confirm usahp_core.Broker.Sessions.enter
    usahp_core.Broker.Sessions.open_session usahp_core.Broker.Sessions.release_if_passive
    usahp_core.Broker.Sessions.take_over usahp_core.Protocol.AppId.valid_app_id
    usahp_core.Protocol.AppId.bytes usahp_core.Protocol.AppId.utf8 usahp_core.State.new
    usahp_core.State.apply usahp_core.State.apply_edge usahp_core.State.release_all
    usahp_core.State.release_entries usahp_core.State.snapshots usahp_core.Collections.HashMap.get
    usahp_core.Collections.HashMap.insert usahp_core.Collections.HashMap.remove
    usahp_core.Collections.HashMap.collect_from usahp_core.Collections.BTreeMap.get
    usahp_core.Collections.BTreeMap.set usahp_core.Collections.BTreeMap.or_insert
    usahp_core.Collections.BTreeSet.contains usahp_core.Collections.BTreeSet.insert
    usahp_core.Collections.BTreeSet.remove usahp_core.Protocol.Confidence.validate_confidence
    usahp_core.Protocol.Float.is_finite usahp_core.Protocol.Float.f32_leb usahp_core.Capture.pause
    usahp_core.Capture.resume usahp_core.Capture.command_backends usahp_core.Capture.send_commands
    usahp_core.Capture.await_replies usahp_core.Broker.Loop.focus_changed
hatch_passes = refl
