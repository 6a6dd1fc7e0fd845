-- ===== src/Broker/Bounds/Handlers.antt =====
-- The ranges of the messages that the handlers of crates/usahp-daemon/src/broker.rs send.
use usahp_core.Base.{
  ℕ, inl, inr, refl, sym, subst, Bool, true, false, List, [], ◌∷◌, map, Option, none, some,
  some_inj, arith, nat_eqb, if◌then◌else◌, All, Bool-cases, is_some, is_some_and,
}
use usahp_core.Str.{Str}
use usahp_core.Protocol.Float.{F32}
use usahp_core.Protocol.{
  protocol_version, Action, Handshake, HandshakeRejectionReason, ServerMessage,
  SessionRevocationReason, hello, handshake_response, accepted, rejected, queue_overflow,
  explicit_revocation,
}
use usahp_core.State.{SwitchStateMachine, Outcome, ok, err, release_all, snapshots}
use usahp_core.State.Release.{down_switches, release_of, release_all_lem}
use usahp_core.Channel.{Channel}
use usahp_core.Capture.{Backend, CaptureResult, done, failed, resume}
use usahp_core.Broker.Types.{Runtime, Session, put_client}
use usahp_core.Broker.Send.{event, events_of, release_messages, send_or_drop, send_response}
use usahp_core.Broker.Sessions.{
  acceptance, answer, acquire, close_session, confirm, enter, handshake, new_session, open_session,
  opened, reject, rejection, release_if_passive, register, resumed, revoke, revoke_taken, take_over,
  unregister,
}
use usahp_core.Broker.Loop.{track, route, emit, after_apply}
use usahp_core.Broker.Numbers.{release_messages-clients}
use usahp_core.Broker.Bounds.{
  IsLegal, IsInBounds, AreInBounds, IsBounded, greeting-IsInBounds, try_send-AreInBounds,
  IsBounded-drop, IsBounded-put, broadcast-IsBounded, broadcast_all-IsBounded,
  send_or_drop-IsBounded, notify-IsBounded,
}

event-IsInBounds :
    {S B : Type 0} (r : Runtime S B) (now : ℕ) (id : Str) (a : Action) (c : Option F32)
    → IsLegal c
    → IsInBounds (event r now id a c).1
unfolding event
event-IsInBounds r now id a c h = (refl, omega arith, omega arith, h)

releases-AreInBounds :
    {S B : Type 0} (r : Runtime S B) (now : ℕ) (ks : List Str)
    → All IsInBounds (events_of r now (map release_of ks)).1
unfolding events_of
releases-AreInBounds r now [] = tt
releases-AreInBounds r now (k ∷ ks) = (
  event-IsInBounds r now k Action.released (release_of k).confidence (inl (omega arith)),
  releases-AreInBounds (event r now k Action.released (release_of k).confidence).0 now ks,
)

release_messages-AreInBounds :
    {S B : Type 0} (r : Runtime S B) (now : ℕ) → All IsInBounds (release_messages r now).1
unfolding release_messages
release_messages-AreInBounds r now =
    subst (λ ts. All IsInBounds (events_of (record r { state = (release_all r.state).1 }) now ts).1)
      (sym (release_all_lem r.state).0)
      (releases-AreInBounds (record r { state = (release_all r.state).1 }) now
        (down_switches r.state.active_by_switch))

-- A transition that `apply` reports for a legal confidence.
abbrev pub IsLegalOutcome : Outcome → Type 0
IsLegalOutcome (ok (some t)) = IsLegal t.confidence
IsLegalOutcome (ok none) = Unit
IsLegalOutcome (err x) = Unit

module _ {S B : Type 0} ⦃ch : Channel S⦄ where
  pub register-IsBounded :
      (r : Runtime S B) (s : S)
      → AreInBounds s
      → IsBounded r.clients
      → IsBounded (register r s).0.clients
  unfolding register
  register-IsBounded r s own h =
      elim (Bool-cases
        (ch.try_send s (
          hello
            (record { protocol_version = protocol_version; switches = snapshots r.state }))).1) [
              | inl taken ↦
                  rw (taken, register)
                    (IsBounded-put r.next_client _
                      (λ x q.
                        subst AreInBounds (some_inj q)
                          (try_send-AreInBounds s _ (greeting-IsInBounds r.state) own))
                      h)
              | inr full ↦ rw (full, register) h
            ]

  module _ ⦃be : Backend B⦄ where
    revoke_taken-IsBounded :
        (r : Runtime S B) (now : ℕ) (reason : SessionRevocationReason) (o : Option Session)
        → IsBounded r.clients
        → IsBounded (revoke_taken r now reason o).clients
    unfolding revoke_taken close_session
    revoke_taken-IsBounded r now reason none h = h
    revoke_taken-IsBounded r now reason (some s) h =
        let released = release_messages (close_session r) now in
        notify-IsBounded released.0 s released.1 reason
          (release_messages-AreInBounds (close_session r) now)
          (subst IsBounded (sym (release_messages-clients (close_session r) now)) h)

    pub revoke-IsBounded :
        (r : Runtime S B) (now : ℕ) (reason : SessionRevocationReason)
        → IsBounded r.clients
        → IsBounded (revoke r now reason).clients
    unfolding revoke
    revoke-IsBounded r now reason h = revoke_taken-IsBounded r now reason r.session h

    pub if-IsBounded :
        (b : Bool) (x y : Runtime S B)
        → IsBounded x.clients
        → IsBounded y.clients
        → IsBounded (if b then x else y).clients
    if-IsBounded true x y h k = h
    if-IsBounded false x y h k = k

    pub unregister-IsBounded :
        (r : Runtime S B) (now k : ℕ) → IsBounded r.clients → IsBounded (unregister r now k).clients
    unfolding unregister
    unregister-IsBounded r now k h =
        let r' = record r { clients = put_client k none r.clients } in
        if-IsBounded (is_some_and (λ (s : Session). nat_eqb s.client_id k) r.session)
          (revoke r' now explicit_revocation) r'
          (revoke-IsBounded r' now explicit_revocation (IsBounded-drop k h)) (IsBounded-drop k h)

    pub confirm-IsBounded :
        (r : Runtime S B) (b : Bool) (now : ℕ)
        → IsBounded r.clients
        → IsBounded (confirm (r, b) now).clients
    unfolding confirm
    confirm-IsBounded r true now h = h
    confirm-IsBounded r false now h = revoke-IsBounded r now queue_overflow h

    enter-IsBounded :
        (b : Bool) (r : Runtime S B) (now : ℕ) (uuid : Str) (k : ℕ) (x : Handshake)
        → IsBounded r.clients
        → IsBounded (enter b r now uuid k x).clients
    unfolding enter open_session send_response
    enter-IsBounded true r now uuid k x h =
        let message = handshake_response (accepted (acceptance uuid)) in
        let o = opened r (new_session now uuid k x) in
        confirm-IsBounded (send_or_drop o k message).0 (send_or_drop o k message).1 now
          (send_or_drop-IsBounded o k message refl h)
    enter-IsBounded false r now uuid k x h = h

    release_if_passive-IsBounded :
        (b : Bool) (r : Runtime S B) (now : ℕ)
        → IsBounded r.clients
        → IsBounded (release_if_passive b r now).clients
    unfolding release_if_passive
    release_if_passive-IsBounded true r now h = h
    release_if_passive-IsBounded false r now h =
        broadcast_all-IsBounded (release_messages r now).0 (release_messages r now).1
          (release_messages-AreInBounds r now)
          (subst IsBounded (sym (release_messages-clients r now)) h)

    take_over-IsBounded :
        (r : Runtime S B) (now : ℕ) (uuid : Str) (k : ℕ) (x : Handshake)
        → IsBounded r.clients
        → IsBounded (take_over r now uuid k x).clients
    unfolding take_over
    take_over-IsBounded r now uuid k x h =
        enter-IsBounded (is_some ((release_if_passive r.paused r now).clients k))
          (release_if_passive r.paused r now) now uuid k x
          (release_if_passive-IsBounded r.paused r now h)

    reject-IsBounded :
        (r : Runtime S B) (k : ℕ) (reason : HandshakeRejectionReason)
        → IsBounded r.clients
        → IsBounded (reject r k reason).clients
    unfolding send_response
    reject-IsBounded r k reason h =
        send_or_drop-IsBounded r k
          (handshake_response
            (rejected (record { protocol_version = protocol_version; reason = reason })))
          refl h

    resumed-IsBounded :
        (r : Runtime S B) (result : CaptureResult) (now : ℕ) (uuid : Str) (k : ℕ) (x : Handshake)
        → IsBounded r.clients
        → IsBounded (resumed r result now uuid k x).clients
    unfolding resumed
    resumed-IsBounded r done now uuid k x h = take_over-IsBounded r now uuid k x h
    resumed-IsBounded r (failed e) now uuid k x h = reject-IsBounded r k _ h

    acquire-IsBounded :
        (b : Bool) (r : Runtime S B) (now : ℕ) (uuid : Str) (k : ℕ) (x : Handshake)
        → IsBounded r.clients
        → IsBounded (acquire b r now uuid k x).clients
    unfolding acquire
    acquire-IsBounded true r now uuid k x h =
        resumed-IsBounded (record r { capture = (resume r.capture).0 }) (resume r.capture).1 now
          uuid k x h
    acquire-IsBounded false r now uuid k x h = take_over-IsBounded r now uuid k x h

    answer-IsBounded :
        (r : Runtime S B) (o : Option HandshakeRejectionReason) (now : ℕ) (uuid : Str) (k : ℕ)
        (x : Handshake)
        → IsBounded r.clients
        → IsBounded (answer r o now uuid k x).clients
    unfolding answer
    answer-IsBounded r (some reason) now uuid k x h = reject-IsBounded r k reason h
    answer-IsBounded r none now uuid k x h = acquire-IsBounded r.paused r now uuid k x h

    pub handshake-IsBounded :
        (r : Runtime S B) (now : ℕ) (uuid : Str) (k : ℕ) (x : Handshake)
        → IsBounded r.clients
        → IsBounded (handshake r now uuid k x).clients
    unfolding handshake
    handshake-IsBounded r now uuid k x h = answer-IsBounded r (rejection r x) now uuid k x h

    route-IsBounded :
        (r : Runtime S B) (now : ℕ) (m : ServerMessage) (o : Option Session)
        → IsInBounds m
        → IsBounded r.clients
        → IsBounded (route r now m o).clients
    unfolding route
    route-IsBounded r now m none fits h = broadcast-IsBounded r m fits h
    route-IsBounded r now m (some s) fits h =
        confirm-IsBounded (send_or_drop r s.client_id m).0 (send_or_drop r s.client_id m).1 now
          (send_or_drop-IsBounded r s.client_id m fits h)

    pub after_apply-IsBounded :
        (r : Runtime S B) (now : ℕ) (m : SwitchStateMachine) (o : Outcome)
        → IsLegalOutcome o
        → IsBounded r.clients
        → IsBounded (after_apply r now (m, o)).clients
    unfolding after_apply emit event
    after_apply-IsBounded r now m (ok (some t)) legal h =
        let tracked = record r {
          state = m;
          escape_tracker = track t.switch_id t.action now r.escape_tracker;
        } in
        let numbered = event tracked now t.switch_id t.action t.confidence in
        route-IsBounded numbered.0 now numbered.1 r.session
          (event-IsInBounds tracked now t.switch_id t.action t.confidence legal) h
    after_apply-IsBounded r now m (ok none) legal h = h
    after_apply-IsBounded r now m (err x) legal h = h
