-- ===== src/Broker/Refine/Rounds.antt =====
-- The rounds of the loop of crates/usahp-daemon/src/broker.rs as moves of the abstract broker: the
-- other handlers, and the whole round.
use mathlib.Core.Option
use usahp_core.Protocol.Float.{F32}
use usahp_core.Base.{
  ℕ, ◌≡◌, inl, inr, refl, sym, subst, false, ◌&&◌, Option, none, some, arith, ◌==◌, is_some,
  is_some_and, nat_eqb, Bool-cases,
}
use usahp_core.Str.{Str, str_eq}
use usahp_core.Protocol.{
  escape_hatch, focus_lost, heartbeat_timeout, explicit_revocation, Action, ServerMessage,
}
use usahp_core.State.{SwitchStateMachine, Outcome, ok, err, apply}
use usahp_core.Channel.{Channel}
use usahp_core.Capture.{Backend}
use usahp_core.Broker.Types.{Runtime, Session, PhysicalEvent, BrokerCommand}
use usahp_core.Broker.Send.{event, send_or_drop, broadcast}
use usahp_core.Broker.Sessions.{register, revoke, unregister}
use usahp_core.Broker.Cases.{input_cases, validated}
use usahp_core.Broker.Loop.{
  route, emit, after_apply, input, beat, heartbeat, focus_changed, tick, Wake, command, ticked,
  step, timed_out, lost_focus, held_too_long,
}
use usahp_core.Broker.Core.{Core, core, edge, beats, Moves, stay, one}
use usahp_core.Broker.Refine.{confirm-Moves, if-Moves, send-Moves, revoke-Moves}
use usahp_core.Broker.Refine.Opening.{handshake-Moves}

beat-Moves :
    (c : Core) (o : Option Session) (now k : ℕ) (id : Str)
    → c.session ≡ o
    → Moves c (record c { session = Option.map (λ s. beat s now k id) o })
beat-Moves c none now k id e = subst (λ o. Moves c (record c { session = o })) e stay
beat-Moves c (some s) now k id e = elim (Bool-cases (nat_eqb s.client_id k && s.session_id == id)) [
  | inl hit ↦ rw hit (one (beats s now e refl))
  | inr miss ↦ rw miss (subst (λ o. Moves c (record c { session = o })) e stay)
]

module _ {S B : Type 0} ⦃ch : Channel S⦄ ⦃be : Backend B⦄ where
  route-Moves :
      (c : Core) (r : Runtime S B) (now : ℕ) (m : ServerMessage) (o : Option Session)
      → Moves c (core r)
      → Moves c (core (route r now m o))
  unfolding route broadcast
  route-Moves c r now m none p = p
  route-Moves c r now m (some s) p =
      confirm-Moves c (send_or_drop r s.client_id m) now (send-Moves c r s.client_id m p)

  after_apply-Moves :
      (r : Runtime S B) (now : ℕ) (id : Str) (a : Action) (v : Option F32) (m : SwitchStateMachine)
      (o : Outcome)
      → r.paused ≡ false
      → apply r.state id a v ≡ some (m, o)
      → Moves (core r) (core (after_apply r now (m, o)))
  unfolding after_apply emit event
  after_apply-Moves r now id a v m (ok (some t)) p e =
      route-Moves (core r) _ now _ r.session (one (edge id a v now m (ok (some t)) p e refl))
  after_apply-Moves r now id a v m (ok none) p e = one (edge id a v now m (ok none) p e refl)
  after_apply-Moves r now id a v m (err x) p e = one (edge id a v now m (err x) p e refl)

  input-Moves :
      (r r' : Runtime S B) (now : ℕ) (e : PhysicalEvent)
      → input r now e ≡ some r'
      → Moves (core r) (core r')
  input-Moves r r' now e q =
      input_cases (λ x. Moves (core r) (core x)) r r' now e stay
        (λ o on applies.
          after_apply-Moves r now e.mapping_id e.action (validated e.confidence) o.0 o.1 on applies)
        q

  pub core-register : (r : Runtime S B) (s : S) → core (register r s).0 ≡ core r
  unfolding register
  core-register r s = ground arith

  heartbeat-Moves :
      (r : Runtime S B) (now k : ℕ) (id : Str) → Moves (core r) (core (heartbeat r now k id))
  unfolding heartbeat
  heartbeat-Moves r now k id = beat-Moves (core r) r.session now k id refl

  unregister-Moves : (r : Runtime S B) (now k : ℕ) → Moves (core r) (core (unregister r now k))
  unfolding unregister
  unregister-Moves r now k = if-Moves (core r) _ _ _ (revoke-Moves _ now explicit_revocation) stay

  tick-Moves : (r : Runtime S B) (now : ℕ) → Moves (core r) (core (tick r now))
  unfolding tick
  tick-Moves r now =
      if-Moves (core r) (is_some_and (timed_out now) r.session) (revoke r now heartbeat_timeout) _
        (revoke-Moves r now heartbeat_timeout)
        (if-Moves (core r) (is_some r.session && held_too_long now r.escape_tracker)
          (revoke r now escape_hatch) r (revoke-Moves r now escape_hatch) stay)

  focus_changed-Moves :
      (r : Runtime S B) (now : ℕ) (p : Option ℕ) → Moves (core r) (core (focus_changed r now p))
  unfolding focus_changed
  focus_changed-Moves r now p =
      if-Moves (core r) (is_some_and (lost_focus p) r.session) (revoke r now focus_lost) r
        (revoke-Moves r now focus_lost) stay

  done-Moves :
      (r r' q : Runtime S B) → some q ≡ some r' → Moves (core r) (core q) → Moves (core r) (core r')
  done-Moves r r' q e m = let same : q ≡ r' = cc (e) in subst (λ x. Moves (core r) (core x)) same m

  -- Whatever wakes the loop, the round is a row of moves of the abstract broker.
  pub step-Moves :
      (r r' : Runtime S B) (now : ℕ) (uuid : Str) (w : Wake S)
      → step r now uuid w ≡ some r'
      → Moves (core r) (core r')
  unfolding step
  step-Moves r r' now uuid (command (BrokerCommand.input e)) h = input-Moves r r' now e h
  step-Moves r r' now uuid (command (BrokerCommand.register s)) h =
      done-Moves r r' _ h (subst (Moves (core r)) (sym (core-register r s)) stay)
  step-Moves r r' now uuid (command (BrokerCommand.unregister k)) h =
      done-Moves r r' _ h (unregister-Moves r now k)
  step-Moves r r' now uuid (command (BrokerCommand.handshake k hs)) h =
      done-Moves r r' _ h (handshake-Moves r now uuid k hs)
  step-Moves r r' now uuid (command (BrokerCommand.heartbeat k id)) h =
      done-Moves r r' _ h (heartbeat-Moves r now k id)
  step-Moves r r' now uuid (command (BrokerCommand.revoke_session reason)) h =
      done-Moves r r' _ h (revoke-Moves r now reason)
  step-Moves r r' now uuid (command (BrokerCommand.focus_changed p)) h =
      done-Moves r r' _ h (focus_changed-Moves r now p)
  step-Moves r r' now uuid ticked h = done-Moves r r' _ h (tick-Moves r now)
