-- ===== src/Broker/Picture/Rounds.antt =====
-- The pictures of the clients in a round of crates/usahp-daemon/src/broker.rs.
use mathlib.Core.Option
use usahp_core.Base.{
  ℕ, ◌≡◌, ◌⊎◌, inl, inr, refl, sym, ◌∙◌, ap, subst, Bool, true, false, ◌&&◌, List, [], ◌∷◌, Option,
  none, some, arith, nat_eqb, if◌then◌else◌, Bool-cases, is_some, is_some_and,
}
use usahp_core.Str.{Str, str_eq}
use usahp_core.Protocol.{
  protocol_version, hello, SwitchSnapshot, ServerMessage, focus_lost, heartbeat_timeout,
  escape_hatch,
}
use usahp_core.State.{SwitchStateMachine, Outcome, ok, err, snapshots}
use usahp_core.State.Invariant.{IsWellFormed}
use usahp_core.State.Mirror.{Mirrored, apply-Mirrored}
use usahp_core.State.Idle.{idle_snapshots, SameIdle, apply-SameIdle}
use usahp_core.Channel.{Channel}
use usahp_core.Capture.{Backend}
use usahp_core.Broker.Types.{Runtime, Session, PhysicalEvent, BrokerCommand}
use usahp_core.Broker.Send.{event, broadcast, send_or_drop}
use usahp_core.Broker.Sessions.{register}
use usahp_core.Broker.Cases.{input_cases, validated}
use usahp_core.Broker.Loop.{
  timed_out, held_too_long, lost_focus, track, beat, route, emit, after_apply, input, tick,
  focus_changed, heartbeat, Wake, command, ticked,
}
use usahp_core.Broker.Picture.{
  see, see_all, see_all-append, expected, Pictured, IsSeen, Pictured-same,
}
use usahp_core.Broker.Picture.Sends.{Pictured-put, Pictured-send_or_drop, Pictured-broadcast}
use usahp_core.Broker.Picture.Sessions.{
  expected-own, expected-other, send_or_drop-same, seen, revoke-IsSeen, if-IsSeen, confirm-IsSeen,
}

expected_timely :
    (m : SwitchStateMachine) (o : Option Session) (k : ℕ)
    → (o ≡ none) ⊎ (snapshots m ≡ idle_snapshots m)
    → snapshots m ≡ expected m o k
expected_timely m none k h = refl
expected_timely m (some s) k (inl e) = absurd (cc (e))
expected_timely m (some s) k (inr e) = either (nat_eqb s.client_id k)
  where
    either : (b : Bool) → snapshots m ≡ (if b then snapshots m else idle_snapshots m)
    either true = refl
    either false = e

expected_same :
    (m m' : SwitchStateMachine) (o : Option Session) (k : ℕ)
    → snapshots m' ≡ snapshots m
    → idle_snapshots m' ≡ idle_snapshots m
    → expected m o k ≡ expected m' o k
expected_same m m' none k e q = sym e
expected_same m m' (some s) k e q =
    ap (λ (x : List SwitchSnapshot). if nat_eqb s.client_id k then x else idle_snapshots m) (sym e)
    ∙ ap (λ (x : List SwitchSnapshot). if nat_eqb s.client_id k then snapshots m' else x) (sym q)

expected-beat :
    (m : SwitchStateMachine) (o : Option Session) (now k : ℕ) (id : Str) (j : ℕ)
    → expected m o j ≡ expected m (Option.map (λ s. beat s now k id) o) j
expected-beat m none now k id j = refl
expected-beat m (some s) now k id j = ground arith

module _ {S B : Type 0} ⦃ch : Channel S⦄ where
  -- No `Hello` goes out while a session has a switch down.
  abbrev pub IsTimely : Runtime S B → Wake S → Type 0
  IsTimely r (command (BrokerCommand.register _)) =
      (r.session ≡ none) ⊎ (snapshots r.state ≡ idle_snapshots r.state)
  IsTimely r (command (BrokerCommand.input _)) = Unit
  IsTimely r (command (BrokerCommand.unregister _)) = Unit
  IsTimely r (command (BrokerCommand.handshake _ _)) = Unit
  IsTimely r (command (BrokerCommand.heartbeat _ _)) = Unit
  IsTimely r (command (BrokerCommand.revoke_session _)) = Unit
  IsTimely r (command (BrokerCommand.focus_changed _)) = Unit
  IsTimely r ticked = Unit

  pub register-IsSeen :
      (r : Runtime S B) (s : S)
      → (r.session ≡ none) ⊎ (snapshots r.state ≡ idle_snapshots r.state)
      → IsSeen r
      → IsSeen (register r s).0
  unfolding register
  register-IsSeen r s timely h = elim (Bool-cases (ch.try_send s m).1) [
    | inl taken ↦
        rw (taken, register)
          (record {
            pictured =
                Pictured-put r.next_client (ch.try_send s m).0
                  (ap (λ l. see_all l []) (ch.sent_ok s m taken)
                    ∙ see_all-append (ch.sent s) (m ∷ []) []
                    ∙ expected_timely r.state r.session r.next_client timely)
                  (λ j q. refl) h.pictured;
            rests = h.rests;
          })
    | inr full ↦ rw (full, register) (record { pictured = h.pictured; rests = h.rests })
  ]
    where
      m : ServerMessage
      m = hello (record { protocol_version = protocol_version; switches = snapshots r.state })

  module _ ⦃be : Backend B⦄ where
    -- An event to the session's client, or to all, whose pictures it brings up to date.
    route-IsSeen :
        (r : Runtime S B) (m : SwitchStateMachine) (now : ℕ) (message : ServerMessage)
        (o : Option Session)
        → r.session ≡ o
        → r.paused ≡ false
        → see (snapshots m) message ≡ snapshots r.state
        → idle_snapshots m ≡ idle_snapshots r.state
        → Pictured (expected m o) r.clients
        → IsSeen (route r now message o)
    unfolding route broadcast
    route-IsSeen r m now message none e on shown idle h =
        seen (broadcast r message) r.state none refl e (λ p. absurd (cc (p, on)))
          (Pictured-same (λ k. shown) (Pictured-broadcast r message h))
    route-IsSeen r m now message (some s) e on shown idle h =
        let (state, session, paused) = send_or_drop-same r s.client_id message in
        confirm-IsSeen (send_or_drop r s.client_id message).0 (send_or_drop r s.client_id message).1
          now
          (seen (send_or_drop r s.client_id message).0 r.state (some s) state (session ∙ e)
            (λ p. absurd (cc (p, paused, on)))
            (Pictured-send_or_drop r s.client_id message
              (ap (λ xs. see xs message) (expected-own m s) ∙ shown ∙ sym (expected-own r.state s))
              (λ j other.
                expected-other m s j other ∙ idle ∙ sym (expected-other r.state s j other))
              h))

    after_apply-IsSeen :
        (r : Runtime S B) (now : ℕ) (o : SwitchStateMachine × Outcome)
        → r.paused ≡ false
        → Mirrored r.state (some o)
        → SameIdle r.state (some o)
        → IsSeen r
        → IsSeen (after_apply r now o)
    unfolding after_apply emit event
    after_apply-IsSeen r now (m, ok (some t)) on shown idle h =
        let tracked = record r {
          state = m;
          escape_tracker = track t.switch_id t.action now r.escape_tracker;
        } in
        let numbered = event tracked now t.switch_id t.action t.confidence in
        route-IsSeen numbered.0 r.state now numbered.1 r.session refl on (sym shown) (sym idle)
          h.pictured
    after_apply-IsSeen r now (m, ok none) on shown idle h = record {
      pictured = Pictured-same (λ k. expected_same r.state m r.session k shown idle) h.pictured;
      rests = λ p. absurd (cc (p, on));
    }
    after_apply-IsSeen r now (m, err x) on shown idle h = record {
      pictured = Pictured-same (λ k. expected_same r.state m r.session k shown idle) h.pictured;
      rests = λ p. absurd (cc (p, on));
    }

    pub input-IsSeen :
        (r r' : Runtime S B) (now : ℕ) (e : PhysicalEvent)
        → IsWellFormed r.state
        → IsSeen r
        → input r now e ≡ some r'
        → IsSeen r'
    input-IsSeen r r' now e well h q =
        input_cases IsSeen r r' now e h
          (λ o on applies.
            let mirrored =
              (apply-Mirrored r.state e.mapping_id e.action (validated e.confidence) well).0 in
            let same = apply-SameIdle r.state e.mapping_id e.action (validated e.confidence) well in
            after_apply-IsSeen r now o on (subst (Mirrored r.state) applies mirrored)
              (subst (SameIdle r.state) applies same) h)
          q

    pub tick-IsSeen : (r : Runtime S B) (now : ℕ) → IsSeen r → IsSeen (tick r now)
    unfolding tick
    tick-IsSeen r now h =
        if-IsSeen (is_some_and (timed_out now) r.session) (revoke-IsSeen r now heartbeat_timeout h)
          (if-IsSeen (is_some r.session && held_too_long now r.escape_tracker)
            (revoke-IsSeen r now escape_hatch h) h)

    pub focus_changed-IsSeen :
        (r : Runtime S B) (now : ℕ) (pid : Option ℕ) → IsSeen r → IsSeen (focus_changed r now pid)
    unfolding focus_changed
    focus_changed-IsSeen r now pid h =
        if-IsSeen (is_some_and (lost_focus pid) r.session) (revoke-IsSeen r now focus_lost h) h

    pub heartbeat-IsSeen :
        (r : Runtime S B) (now k : ℕ) (id : Str) → IsSeen r → IsSeen (heartbeat r now k id)
    unfolding heartbeat
    heartbeat-IsSeen r now k id h = record {
      pictured = Pictured-same (λ j. expected-beat r.state r.session now k id j) h.pictured;
      rests = h.rests;
    }
