-- ===== src/Broker/Refine.antt =====
-- The rounds of the loop of crates/usahp-daemon/src/broker.rs as moves of the abstract broker: the
-- sends and `revoke`.
pub mod Opening
pub mod Rounds
use usahp_core.Base.{
  ℕ, ◌≡◌, ◌⊎◌, inl, inr, refl, sym, ap, subst, ◌∙◌, Bool, true, false, not, ◌&&◌, ◌||◌, List, [],
  ◌∷◌, Option, none, some, arith, ◌==◌, eq_iff, if◌then◌else◌, is_some, is_some_and, nat_eqb,
  Bool-cases, Option-cases,
}
use usahp_core.Str.{Str, str_eq}
use usahp_core.Protocol.{
  handshake_response, accepted, HandshakeRejectionReason, Handshake, HandshakeResponse,
  ServerMessage, SessionRevocationReason, queue_overflow,
}
use usahp_core.State.{LogicalTransition, SwitchStateMachine, Outcome, ok, err, apply, release_all}
use usahp_core.Channel.{Channel}
use usahp_core.Capture.{Backend, CaptureResult, done, failed, pause, resume}
use usahp_core.Capture.Laws.{pause-resume_lem}
use usahp_core.Broker.Types.{Runtime, Session, PhysicalEvent, BrokerCommand, start}
use usahp_core.Broker.Send.{
  send_or_drop_cases, event, events_of, release_messages, send_or_drop, send_response, broadcast,
  broadcast_all,
}
use usahp_core.Broker.Sessions.{
  acceptance, opened, register, confirm, new_session, release_if_passive, enter, resumed, acquire,
  answer, notify, close_session, revoke_taken, revoke, unregister, rejection, reject, open_session,
  take_over, handshake,
}
use usahp_core.Broker.Loop.{
  emit, after_apply, input, beat, heartbeat, focus_changed, tick, on_command, Wake, command, ticked,
  step, timed_out, lost_focus, held_too_long,
}
use usahp_core.Broker.Core.{
  Core, core, closed, released, track_outcome, Move, edge, open_first, open_again, abandon_first,
  abandon_again, beats, close, Moves, stay, next, Moves-trans, one,
}

module _ {S B : Type 0} where
  core-events_of :
      (r : Runtime S B) (now : ℕ) (ts : List LogicalTransition)
      → core (events_of r now ts).0 ≡ core r
  unfolding events_of
  core-events_of r now [] = refl
  core-events_of r now (t ∷ ts) =
      core-events_of (event r now t.switch_id t.action t.confidence).0 now ts

  pub core-release_messages :
      (r : Runtime S B) (now : ℕ)
      → core (release_messages r now).0 ≡ record (core r) { state = released r.state }
  unfolding release_messages
  core-release_messages r now = core-events_of _ now (release_all r.state).0

  module _ ⦃ch : Channel S⦄ where
    pub core-send_or_drop :
        (r : Runtime S B) (k : ℕ) (m : ServerMessage) → core (send_or_drop r k m).0 ≡ core r
    core-send_or_drop r k m =
        send_or_drop_cases (λ o. core o.0 ≡ core r) r k m (λ e. refl) (λ s e f. refl)
          (λ s e f. refl)

    pub core-broadcast_all :
        (r : Runtime S B) (ms : List ServerMessage) → core (broadcast_all r ms) ≡ core r
    unfolding broadcast_all
    core-broadcast_all r [] = refl
    core-broadcast_all r (m ∷ ms) = core-broadcast_all (broadcast r m) ms

    core-notify :
        (r : Runtime S B) (s : Session) (ms : List ServerMessage) (reason : SessionRevocationReason)
        → core (notify r s ms reason) ≡ core r
    unfolding notify
    core-notify r s ms reason = elim (Option-cases (r.clients s.client_id)) [
      | inl e ↦ rw (e, notify)
      | inr (x, e) ↦ rw (e, notify)
    ]

    module _ ⦃be : Backend B⦄ where
      core-revoke_taken :
          (r : Runtime S B) (now : ℕ) (reason : SessionRevocationReason) (s : Session)
          → core (revoke_taken r now reason (some s)) ≡ record (core r) {
            state = released r.state;
            enabled = false;
            session = none;
            paused = true;
            tracker = [];
          }
      unfolding revoke_taken close_session
      core-revoke_taken r now reason s =
          core-notify (release_messages (close_session r) now).0 s
            (release_messages (close_session r) now).1 reason
          ∙ core-release_messages (close_session r) now
          ∙ ap
              (λ e. record (core r) {
                state = released r.state;
                enabled = e;
                session = none;
                paused = true;
                tracker = [];
              })
              (pause-resume_lem r.capture).0

      revoke_eq :
          (r : Runtime S B) (now : ℕ) (reason : SessionRevocationReason) (o : Option Session)
          → r.session ≡ o
          → revoke r now reason ≡ revoke_taken r now reason o
      unfolding revoke
      revoke_eq r now reason o e = ap (λ s. revoke_taken r now reason s) e

      -- A session that is revoked is closed.
      pub core-revoke :
          (r : Runtime S B) (now : ℕ) (reason : SessionRevocationReason) (s : Session)
          → r.session ≡ some s
          → core (revoke r now reason) ≡ closed (core r)
      core-revoke r now reason s e =
          ap core (revoke_eq r now reason (some s) e) ∙ core-revoke_taken r now reason s

      -- Without one, `revoke` does nothing.
      pub revoke_idle :
          (r : Runtime S B) (now : ℕ) (reason : SessionRevocationReason)
          → r.session ≡ none
          → revoke r now reason ≡ r
      unfolding revoke_taken
      revoke_idle r now reason e = revoke_eq r now reason none e

      pub revoke-Moves :
          (r : Runtime S B) (now : ℕ) (reason : SessionRevocationReason)
          → Moves (core r) (core (revoke r now reason))
      revoke-Moves r now reason = elim (Option-cases r.session) [
        | inl e ↦ subst (λ q. Moves (core r) (core q)) (sym (revoke_idle r now reason e)) stay
        | inr (s, e) ↦ one (close s e (core-revoke r now reason s e))
      ]

      pub confirm-Moves :
          (c : Core) (o : Runtime S B × Bool) (now : ℕ)
          → Moves c (core o.0)
          → Moves c (core (confirm o now))
      unfolding confirm
      confirm-Moves c (r, true) now m = m
      confirm-Moves c (r, false) now m = Moves-trans m (revoke-Moves r now queue_overflow)

      pub if-Moves :
          (c : Core) (b : Bool) (q r : Runtime S B)
          → Moves c (core q)
          → Moves c (core r)
          → Moves c (core (if b then q else r))
      if-Moves c true q r mq mr = mq
      if-Moves c false q r mq mr = mr

      pub send-Moves :
          (c : Core) (r : Runtime S B) (k : ℕ) (m : ServerMessage)
          → Moves c (core r)
          → Moves c (core (send_or_drop r k m).0)
      send-Moves c r k m p = subst (Moves c) (sym (core-send_or_drop r k m)) p
