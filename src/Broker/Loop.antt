-- ===== src/Broker/Loop.antt =====
-- `input` and the loop of `run` of crates/usahp-daemon/src/broker.rs.
use mathlib.Core.Option
use usahp_core.Base.{
  ℕ, ◌*◌, Bool, not, ◌&&◌, ◌||◌, List, [], ◌∷◌, Option, none, some, ◌==◌, nat_eqb, leb, is_some,
  is_some_and, any, if◌then◌else◌,
}
use usahp_core.Str.{Str, str_eq}
use usahp_core.Collections.HashMap
use usahp_core.Collections.HashMap.{HashMap}
use usahp_core.Protocol.Float.{F32}
use usahp_core.Protocol.Confidence.{validate_confidence}
use usahp_core.Protocol.{Action, ServerMessage, heartbeat_timeout, focus_lost, escape_hatch}
use usahp_core.State.{LogicalTransition, SwitchStateMachine, Outcome, ok, err, apply}
use usahp_core.Channel.{Channel}
use usahp_core.Capture.{Backend}
use usahp_core.Broker.Types.{
  Runtime, Session, PhysicalEvent, BrokerCommand, elapsed, from_millis, heartbeat_interval_ms,
  missed_heartbeat_limit, escape_hold_ms,
}
use usahp_core.Broker.Send.{event, broadcast, send_or_drop}
use usahp_core.Broker.Sessions.{confirm, register, revoke, unregister, handshake}

-- The escape tracker after a transition.
abbrev pub track : Str → Action → ℕ → HashMap Str ℕ → HashMap Str ℕ
track switch_id Action.pressed now tracker = HashMap.insert switch_id now tracker
track switch_id Action.released now tracker = HashMap.remove switch_id tracker

-- A heartbeat counts for the session only from its client and under its id.
abbrev pub beat : Session → ℕ → ℕ → Str → Session
beat s now client_id session_id =
    if nat_eqb s.client_id client_id && s.session_id == session_id
    then record s { last_heartbeat = now }
    else s

-- `is_some_and(|pid| Some(pid) != frontmost_pid)`
abbrev pub lost_focus : Option ℕ → Session → Bool
lost_focus frontmost_pid s =
    is_some_and (λ pid. not (is_some_and (λ front. nat_eqb pid front) frontmost_pid)) s.pid

abbrev pub timed_out : ℕ → Session → Bool
timed_out now s =
    leb (from_millis (heartbeat_interval_ms * missed_heartbeat_limit))
      (elapsed now s.last_heartbeat)

-- Is some switch held for as long as the escape hatch takes?
abbrev pub held_too_long : ℕ → HashMap Str ℕ → Bool
held_too_long now tracker = any (λ e. leb (from_millis escape_hold_ms) (elapsed now e.1)) tracker

module _ {S B : Type 0} ⦃ch : Channel S⦄ ⦃be : Backend B⦄ where
  -- `if let Some(client_id) = self.session…`: to the session's client, or to all.
  unfoldable pub route : Runtime S B → ℕ → ServerMessage → Option Session → Runtime S B
  unfolding confirm
  route r now message none = broadcast r message
  route r now message (some session) = confirm (send_or_drop r session.client_id message) now

  -- `input` from a transition on: it is tracked, numbered and routed.
  unfoldable pub emit : Runtime S B → ℕ → LogicalTransition → Runtime S B
  unfolding route
  emit r now t =
      let tracked = record r { escape_tracker = track t.switch_id t.action now r.escape_tracker } in
      let (r', message) = event tracked now t.switch_id t.action t.confidence in
      route r' now message r.session

  -- What `input` does with the result of `apply`.
  unfoldable pub after_apply : Runtime S B → ℕ → SwitchStateMachine × Outcome → Runtime S B
  unfolding emit
  after_apply r now (state, ok (some t)) = emit (record r { state = state }) now t
  after_apply r now (state, ok none) = record r { state = state }
  after_apply r now (state, err _) = record r { state = state }

  -- `none` is the panic of `apply`.
  unfoldable pub input : Runtime S B → ℕ → PhysicalEvent → Option (Runtime S B)
  unfolding after_apply
  input r now e =
      let confidence : Option F32 = elim e.confidence [
        | none ↦ none
        | some value ↦ validate_confidence value
      ] in
      if r.paused || not r.capture.enabled
      then some r
      else Option.map (after_apply r now) (apply r.state e.mapping_id e.action confidence)

  -- `if let Some(session) = runtime.session.as_mut() && …`
  unfoldable pub heartbeat : Runtime S B → ℕ → ℕ → Str → Runtime S B
  heartbeat r now client_id session_id = record r {
    session = Option.map (λ s. beat s now client_id session_id) r.session;
  }

  unfoldable pub focus_changed : Runtime S B → ℕ → Option ℕ → Runtime S B
  focus_changed r now frontmost_pid =
      let revoked = revoke r now focus_lost in
      if is_some_and (lost_focus frontmost_pid) r.session then revoked else r

  -- The branch of `ticker.tick()`.
  unfoldable pub tick : Runtime S B → ℕ → Runtime S B
  tick r now =
      let late = revoke r now heartbeat_timeout in
      let escaped = revoke r now escape_hatch in
      if is_some_and (timed_out now) r.session
      then late
      else if is_some r.session && held_too_long now r.escape_tracker
      then escaped
      else r

  -- The branch of `receiver.recv()`.
  unfoldable pub on_command : Runtime S B → ℕ → Str → BrokerCommand S → Option (Runtime S B)
  unfolding input
  on_command r now uuid (BrokerCommand.input e) = input r now e
  on_command r now uuid (BrokerCommand.register sender) = some (register r sender).0
  on_command r now uuid (BrokerCommand.unregister client_id) = some (unregister r now client_id)
  on_command r now uuid (BrokerCommand.handshake client_id h) =
      some (handshake r now uuid client_id h)
  on_command r now uuid (BrokerCommand.heartbeat client_id session_id) =
      some (heartbeat r now client_id session_id)
  on_command r now uuid (BrokerCommand.revoke_session reason) = some (revoke r now reason)
  on_command r now uuid (BrokerCommand.focus_changed frontmost_pid) =
      some (focus_changed r now frontmost_pid)

-- What ends a wait of the loop's `select!`.
pub data Wake (S : Type 0) : Type 0 where
  command : BrokerCommand S → Wake S
  ticked : Wake S

-- One round: the instant, the identifier that `Uuid::new_v4` would give, and what woke the loop.
pub record Round (S : Type 0) : Type 0 where
  pub now : ℕ
  pub uuid : Str
  pub wake : Wake S

module _ {S B : Type 0} ⦃ch : Channel S⦄ ⦃be : Backend B⦄ where
  unfoldable pub step : Runtime S B → ℕ → Str → Wake S → Option (Runtime S B)
  unfolding on_command
  step r now uuid (command c) = on_command r now uuid c
  step r now uuid ticked = some (tick r now)

  -- The rounds of the loop; `none` is a panic of the task.
  unfoldable pub run : Runtime S B → List (Round S) → Option (Runtime S B)
  unfolding step
  run r [] = some r
  run r (x ∷ xs) = elim (step r x.now x.uuid x.wake) [ none ↦ none | some r' ↦ run r' xs ]
