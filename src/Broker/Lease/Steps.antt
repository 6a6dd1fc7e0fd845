-- ===== src/Broker/Lease/Steps.antt =====
-- What a round of crates/usahp-daemon/src/broker.rs does to a session whose client says nothing.
use usahp_core.Base.{
  ℕ, ◌≡◌, ◌≢◌, ◌⊎◌, inl, inr, refl, sym, ap, ◌∙◌, subst, Bool, true, false, ◌&&◌, Option, none,
  some, some_inj, is_some, is_some_and, nat_eqb, if◌then◌else◌, Option-cases, Bool-cases,
}
use usahp_core.Str.{Str}
use usahp_core.Protocol.{
  Handshake, ServerMessage, hello, protocol_version, SessionRevocationReason, focus_lost,
  heartbeat_timeout, escape_hatch, explicit_revocation, queue_overflow,
}
use usahp_core.State.{SwitchStateMachine, Outcome, ok, err, snapshots}
use usahp_core.Channel.{Channel}
use usahp_core.Capture.{Backend}
use usahp_core.Broker.Types.{Runtime, Session, BrokerCommand, put_client}
use usahp_core.Broker.Send.{event, send_or_drop, send_or_drop_cases, send_response, broadcast}
use usahp_core.Broker.Sessions.{revoke, confirm, register, unregister, handshake, answer, rejection}
use usahp_core.Broker.Loop.{
  timed_out, held_too_long, lost_focus, track, route, emit, after_apply, tick, focus_changed, step,
  on_command, Wake, command, ticked,
}
use usahp_core.Broker.Cases.{input_cases}
use usahp_core.Broker.Admission.{rejection_iff}
use usahp_core.Broker.Escape.{revoke-IsClosed}
use usahp_core.Broker.Lease.{heartbeat_lem}

-- The session is as it was, or over.
abbrev pub Lasts : {S B : Type 0} → Session → Runtime S B → Type 0
Lasts s r = (r.session ≡ none) ⊎ (r.session ≡ some s)

-- What wakes the loop is no heartbeat of this session.
abbrev pub IsQuiet : {S : Type 0} → Session → Wake S → Type 0
IsQuiet s (command (BrokerCommand.input _)) = Unit {0}
IsQuiet s (command (BrokerCommand.register _)) = Unit {0}
IsQuiet s (command (BrokerCommand.unregister _)) = Unit {0}
IsQuiet s (command (BrokerCommand.handshake _ _)) = Unit {0}
IsQuiet s (command (BrokerCommand.heartbeat k id)) = (s.client_id ≢ k) ⊎ (s.session_id ≢ id)
IsQuiet s (command (BrokerCommand.revoke_session _)) = Unit {0}
IsQuiet s (command (BrokerCommand.focus_changed _)) = Unit {0}
IsQuiet s ticked = Unit {0}

module _ {S B : Type 0} ⦃ch : Channel S⦄ where
  send_or_drop-session :
      (r : Runtime S B) (k : ℕ) (m : ServerMessage) → (send_or_drop r k m).0.session ≡ r.session
  send_or_drop-session r k m =
      send_or_drop_cases (λ o. o.0.session ≡ r.session) r k m (λ e. refl) (λ s e f. refl)
        (λ s e f. refl)

  register-session : (r : Runtime S B) (x : S) → (register r x).0.session ≡ r.session
  unfolding register
  register-session r x =
      elim (Bool-cases
        (ch.try_send x (
          hello
            (record { protocol_version = protocol_version; switches = snapshots r.state }))).1) [
              | inl taken ↦ rw (taken, register) refl
              | inr full ↦ rw (full, register) refl
            ]

  module _ ⦃be : Backend B⦄ where
    either :
        (b : Bool) (x y : Runtime S B) (s : Session)
        → Lasts s x
        → Lasts s y
        → Lasts s (if b then x else y)
    either true x y s hx hy = hx
    either false x y s hx hy = hy

    revoke-Lasts :
        (r : Runtime S B) (now : ℕ) (reason : SessionRevocationReason) (s : Session)
        → r.session ≡ some s
        → Lasts s (revoke r now reason)
    revoke-Lasts r now reason s e = inl (revoke-IsClosed r now reason s e).no_session

    confirm-Lasts :
        (r : Runtime S B) (b : Bool) (now : ℕ) (s : Session)
        → r.session ≡ some s
        → Lasts s (confirm (r, b) now)
    unfolding confirm
    confirm-Lasts r true now s e = inr e
    confirm-Lasts r false now s e = revoke-Lasts r now queue_overflow s e

    route-Lasts :
        (r : Runtime S B) (now : ℕ) (m : ServerMessage) (o : Option Session) (s : Session)
        → r.session ≡ some s
        → Lasts s (route r now m o)
    unfolding route broadcast
    route-Lasts r now m none s e = inr e
    route-Lasts r now m (some x) s e =
        confirm-Lasts (send_or_drop r x.client_id m).0 (send_or_drop r x.client_id m).1 now s
          (send_or_drop-session r x.client_id m ∙ e)

    after_apply-Lasts :
        (r : Runtime S B) (now : ℕ) (o : SwitchStateMachine × Outcome) (s : Session)
        → r.session ≡ some s
        → Lasts s (after_apply r now o)
    unfolding after_apply emit event
    after_apply-Lasts r now (m, ok (some t)) s e =
        let tracked = record r {
          state = m;
          escape_tracker = track t.switch_id t.action now r.escape_tracker;
        } in
        let numbered = event tracked now t.switch_id t.action t.confidence in
        route-Lasts numbered.0 now numbered.1 r.session s e
    after_apply-Lasts r now (m, ok none) s e = inr e
    after_apply-Lasts r now (m, err x) s e = inr e

    tick-Lasts :
        (r : Runtime S B) (now : ℕ) (s : Session) → r.session ≡ some s → Lasts s (tick r now)
    unfolding tick
    tick-Lasts r now s e =
        let held = is_some r.session && held_too_long now r.escape_tracker in
        let escaped = revoke r now escape_hatch in
        either (is_some_and (timed_out now) r.session) (revoke r now heartbeat_timeout)
          (if held then escaped else r) s (revoke-Lasts r now heartbeat_timeout s e)
          (either held escaped r s (revoke-Lasts r now escape_hatch s e) (inr e))

    unregister-Lasts :
        (r : Runtime S B) (now k : ℕ) (s : Session)
        → r.session ≡ some s
        → Lasts s (unregister r now k)
    unfolding unregister
    unregister-Lasts r now k s e =
        let left = record r { clients = put_client k none r.clients } in
        either (is_some_and (λ (x : Session). nat_eqb x.client_id k) r.session)
          (revoke left now explicit_revocation) left s
          (revoke-Lasts left now explicit_revocation s e) (inr e)

    -- A second handshake is refused, whoever asks.
    handshake-session :
        (r : Runtime S B) (now : ℕ) (uuid : Str) (k : ℕ) (h : Handshake) (s : Session)
        → r.session ≡ some s
        → (handshake r now uuid k h).session ≡ some s
    unfolding handshake answer send_response
    handshake-session r now uuid k h s e = elim (Option-cases (rejection r h)) [
      | inl passes ↦ absurd (cc (e, ((rejection_iff r h).0 passes).1))
      | inr (reason, refused) ↦ rw (refused, answer) (send_or_drop-session r k _ ∙ e)
    ]

    pub step-Lasts :
        (r r' : Runtime S B) (now : ℕ) (uuid : Str) (w : Wake S) (s : Session)
        → IsQuiet s w
        → r.session ≡ some s
        → step r now uuid w ≡ some r'
        → Lasts s r'
    unfolding step on_command focus_changed
    step-Lasts r r' now uuid (command (BrokerCommand.input x)) s w e q =
        input_cases (Lasts s) r r' now x (inr e) (λ o on f. after_apply-Lasts r now o s e) q
    step-Lasts r r' now uuid (command (BrokerCommand.register x)) s w e q =
        inr (ap (λ (y : Runtime S B). y.session) (sym (some_inj q)) ∙ register-session r x ∙ e)
    step-Lasts r r' now uuid (command (BrokerCommand.unregister k)) s w e q =
        subst (Lasts s) (some_inj q) (unregister-Lasts r now k s e)
    step-Lasts r r' now uuid (command (BrokerCommand.handshake k h)) s w e q =
        subst (Lasts s) (some_inj q) (inr (handshake-session r now uuid k h s e))
    step-Lasts r r' now uuid (command (BrokerCommand.heartbeat k id)) s w e q =
        subst (Lasts s) (some_inj q)
          (inr (ap (λ (y : Runtime S B). y.session) ((heartbeat_lem r now k id s e).1 w) ∙ e))
    step-Lasts r r' now uuid (command (BrokerCommand.revoke_session reason)) s w e q =
        subst (Lasts s) (some_inj q) (revoke-Lasts r now reason s e)
    step-Lasts r r' now uuid (command (BrokerCommand.focus_changed p)) s w e q =
        subst (Lasts s) (some_inj q) (
          either (is_some_and (lost_focus p) r.session) (revoke r now focus_lost) r s
            (revoke-Lasts r now focus_lost s e) (inr e))
    step-Lasts r r' now uuid ticked s w e q = subst (Lasts s) (some_inj q) (tick-Lasts r now s e)
