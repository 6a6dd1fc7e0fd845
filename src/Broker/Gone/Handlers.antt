-- ===== src/Broker/Gone/Handlers.antt =====
-- The handlers of crates/usahp-daemon/src/broker.rs, and a client that the broker has forgotten.
use mathlib.Core.Option
use usahp_core.Base.{
  ◌∙◌, ◌==◌, ℕ, ◌≡◌, ◌≢◌, ◌<◌, refl, ap, Bool, true, false, ◌&&◌, Option, none, some, some_inj,
  is_some, is_some_and, if◌then◌else◌, nat_eqb,
}
use usahp_core.Str.{Str, str_eq}
use usahp_core.Protocol.{
  ServerMessage, SessionRevocationReason, focus_lost, heartbeat_timeout, escape_hatch,
  explicit_revocation, queue_overflow,
}
use usahp_core.State.{SwitchStateMachine, Outcome, ok, err}
use usahp_core.Channel.{Channel}
use usahp_core.Capture.{Backend}
use usahp_core.Broker.Types.{Runtime, Session, PhysicalEvent}
use usahp_core.Broker.Send.{event, send_or_drop, release_messages}
use usahp_core.Broker.Sessions.{close_session, revoke, revoke_taken, confirm, unregister}
use usahp_core.Broker.Loop.{
  track, beat, timed_out, held_too_long, lost_focus, route, emit, after_apply, input, tick,
  focus_changed, heartbeat,
}
use usahp_core.Broker.Cases.{input_cases}
use usahp_core.Broker.Gone.{
  IsGone, dropped, release_messages-IsGone, send_or_drop-IsGone, broadcast-IsGone, notify-IsGone,
}

beat-foreign :
    (k : ℕ) (o : Option Session) (now j : ℕ) (id : Str)
    → ((s : Session) → o ≡ some s → s.client_id ≢ k)
    → (s : Session) → Option.map (λ x. beat x now j id) o ≡ some s
    → s.client_id ≢ k
beat-foreign k none now j id h s e q = absurd (cc (e))
beat-foreign k (some x) now j id h s e q =
    h x refl (kept (nat_eqb x.client_id j && x.session_id == id) (some_inj e) ∙ q)
  where
    kept :
        (b : Bool)
        → (if b then record x { last_heartbeat = now } else x) ≡ s
        → x.client_id ≡ s.client_id
    kept true e = ap (λ (y : Session). y.client_id) e
    kept false e = ap (λ (y : Session). y.client_id) e

module _ {S B : Type 0} {k n : ℕ} where
  pub choice :
      (b : Bool) {x y : Runtime S B} → IsGone k n x → IsGone k n y → IsGone k n (if b then x else y)
  choice true hx hy = hx
  choice false hx hy = hy

  module _ ⦃ch : Channel S⦄ ⦃be : Backend B⦄ where
    -- A session that is taken is nobody's any more, whoever had it.
    pub taken-IsGone :
        (r : Runtime S B) (now : ℕ) (reason : SessionRevocationReason) (s : Session)
        → k < n
        → r.next_client ≡ n
        → r.clients k ≡ none
        → IsGone k n (revoke_taken r now reason (some s))
    unfolding revoke_taken close_session
    taken-IsGone r now reason s given next absent =
        notify-IsGone _ s (release_messages (close_session r) now).1 reason (
          release_messages-IsGone (close_session r) now (record {
            given = given;
            next = next;
            absent = absent;
            foreign = λ x e. absurd (cc (e));
          }))

    revoke_taken-IsGone :
        (r : Runtime S B) (now : ℕ) (reason : SessionRevocationReason) (o : Option Session)
        → IsGone k n r
        → IsGone k n (revoke_taken r now reason o)
    unfolding revoke_taken
    revoke_taken-IsGone r now reason none h = h
    revoke_taken-IsGone r now reason (some s) h =
        taken-IsGone r now reason s h.given h.next h.absent

    pub revoke-IsGone :
        (r : Runtime S B) (now : ℕ) (reason : SessionRevocationReason)
        → IsGone k n r
        → IsGone k n (revoke r now reason)
    unfolding revoke
    revoke-IsGone r now reason h = revoke_taken-IsGone r now reason r.session h

    pub confirm-IsGone :
        (r : Runtime S B) (b : Bool) (now : ℕ) → IsGone k n r → IsGone k n (confirm (r, b) now)
    unfolding confirm
    confirm-IsGone r true now h = h
    confirm-IsGone r false now h = revoke-IsGone r now queue_overflow h

    route-IsGone :
        (r : Runtime S B) (now : ℕ) (m : ServerMessage) (o : Option Session)
        → IsGone k n r
        → IsGone k n (route r now m o)
    unfolding route
    route-IsGone r now m none h = broadcast-IsGone r m h
    route-IsGone r now m (some s) h =
        confirm-IsGone (send_or_drop r s.client_id m).0 (send_or_drop r s.client_id m).1 now
          (send_or_drop-IsGone r s.client_id m h)

    after_apply-IsGone :
        (r : Runtime S B) (now : ℕ) (o : SwitchStateMachine × Outcome)
        → IsGone k n r
        → IsGone k n (after_apply r now o)
    unfolding after_apply emit event
    after_apply-IsGone r now (m, ok (some t)) h =
        let tracked = record r {
          state = m;
          escape_tracker = track t.switch_id t.action now r.escape_tracker;
        } in
        let numbered = event tracked now t.switch_id t.action t.confidence in
        route-IsGone numbered.0 now numbered.1 r.session
          (record { given = h.given; next = h.next; absent = h.absent; foreign = h.foreign })
    after_apply-IsGone r now (m, ok none) h = record {
      given = h.given;
      next = h.next;
      absent = h.absent;
      foreign = h.foreign;
    }
    after_apply-IsGone r now (m, err x) h = record {
      given = h.given;
      next = h.next;
      absent = h.absent;
      foreign = h.foreign;
    }

    pub input-IsGone :
        (r r' : Runtime S B) (now : ℕ) (e : PhysicalEvent)
        → input r now e ≡ some r'
        → IsGone k n r
        → IsGone k n r'
    input-IsGone r r' now e q h =
        input_cases (IsGone k n) r r' now e h (λ o on e. after_apply-IsGone r now o h) q

    pub tick-IsGone : (r : Runtime S B) (now : ℕ) → IsGone k n r → IsGone k n (tick r now)
    unfolding tick
    tick-IsGone r now h =
        choice (is_some_and (timed_out now) r.session) (revoke-IsGone r now heartbeat_timeout h) (
          choice (is_some r.session && held_too_long now r.escape_tracker)
            (revoke-IsGone r now escape_hatch h) h)

    pub focus_changed-IsGone :
        (r : Runtime S B) (now : ℕ) (pid : Option ℕ)
        → IsGone k n r
        → IsGone k n (focus_changed r now pid)
    unfolding focus_changed
    focus_changed-IsGone r now pid h =
        choice (is_some_and (lost_focus pid) r.session) (revoke-IsGone r now focus_lost h) h

    pub heartbeat-IsGone :
        (r : Runtime S B) (now j : ℕ) (id : Str) → IsGone k n r → IsGone k n (heartbeat r now j id)
    unfolding heartbeat
    heartbeat-IsGone r now j id h = record {
      given = h.given;
      next = h.next;
      absent = h.absent;
      foreign = beat-foreign k r.session now j id h.foreign;
    }

    pub unregister-IsGone :
        (r : Runtime S B) (now j : ℕ) → IsGone k n r → IsGone k n (unregister r now j)
    unfolding unregister
    unregister-IsGone r now j h =
        choice (is_some_and (λ (s : Session). nat_eqb s.client_id j) r.session)
          (revoke-IsGone _ now explicit_revocation (dropped j h)) (dropped j h)
