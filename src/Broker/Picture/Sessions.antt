-- ===== src/Broker/Picture/Sessions.antt =====
-- The pictures of the clients when a session of crates/usahp-daemon/src/broker.rs opens or ends.
use usahp_core.Base.{
  ℕ, ◌≡◌, ◌≢◌, inl, inr, refl, sym, ◌∙◌, ap, subst, Bool, true, false, List, [], ◌∷◌, Option, none,
  some, arith, nat_eqb, if◌then◌else◌, Option-cases, is_some_and,
}
use usahp_core.Protocol.{
  SwitchSnapshot, ServerMessage, SessionRevocationReason, queue_overflow, explicit_revocation,
}
use usahp_core.State.{LogicalTransition, SwitchStateMachine, release_all, snapshots}
use usahp_core.State.Mirror.{observe_all}
use usahp_core.State.Release.{release_all_lem}
use usahp_core.State.Idle.{idle_snapshots, release_all-again}
use usahp_core.Channel.{Channel}
use usahp_core.Capture.{Backend}
use usahp_core.Broker.Types.{Runtime, Session, put_client}
use usahp_core.Broker.Send.{event, events_of, release_messages, send_or_drop, send_or_drop_cases}
use usahp_core.Broker.Sessions.{close_session, confirm, notify, revoke, revoke_taken, unregister}
use usahp_core.Broker.Numbers.{release_messages-clients}
use usahp_core.Broker.Picture.{observe, see, see_all, expected, Pictured, IsSeen, Pictured-same}
use usahp_core.Broker.Picture.Sends.{Pictured-drop, Pictured-send_or_drop, Pictured-notify}

pub expected-own :
    (m : SwitchStateMachine) (s : Session) → expected m (some s) s.client_id ≡ snapshots m
expected-own m s = ground arith

pub expected-other :
    (m : SwitchStateMachine) (s : Session) (j : ℕ)
    → j ≢ s.client_id
    → expected m (some s) j ≡ idle_snapshots m
expected-other m s j h = ground arith

module _ {S B : Type 0} where
  -- The state, the session and the pause that the releases leave.
  events_of-same :
      (r : Runtime S B) (now : ℕ) (ts : List LogicalTransition)
      → ((events_of r now ts).0.state ≡ r.state)
        × ((events_of r now ts).0.session ≡ r.session)
        × ((events_of r now ts).0.paused ≡ r.paused)
  unfolding events_of
  events_of-same r now [] = (refl, refl, refl)
  events_of-same r now (t ∷ ts) =
      events_of-same (event r now t.switch_id t.action t.confidence).0 now ts

  see_all-events_of :
      (r : Runtime S B) (now : ℕ) (ts : List LogicalTransition) (xs : List SwitchSnapshot)
      → see_all (events_of r now ts).1 xs ≡ observe_all ts xs
  unfolding events_of event observe_all
  see_all-events_of r now [] xs = refl
  see_all-events_of r now (t ∷ ts) xs =
      see_all-events_of (event r now t.switch_id t.action t.confidence).0 now ts
        (observe t.switch_id t.action xs)

  -- A client that sees the releases has every switch up.
  pub see_all-release_messages :
      (r : Runtime S B) (now : ℕ)
      → see_all (release_messages r now).1 (snapshots r.state) ≡ idle_snapshots r.state
  unfolding release_messages
  see_all-release_messages r now =
      see_all-events_of (record r { state = (release_all r.state).1 }) now (release_all r.state).0
        (snapshots r.state)
      ∙ (release_all_lem r.state).3

  pub release_messages-same :
      (r : Runtime S B) (now : ℕ)
      → ((release_messages r now).0.state ≡ (release_all r.state).1)
        × ((release_messages r now).0.session ≡ r.session)
        × ((release_messages r now).0.paused ≡ r.paused)
  unfolding release_messages
  release_messages-same r now =
      events_of-same (record r { state = (release_all r.state).1 }) now (release_all r.state).0

module _ {S B : Type 0} ⦃ch : Channel S⦄ where
  pub send_or_drop-same :
      (r : Runtime S B) (k : ℕ) (m : ServerMessage)
      → ((send_or_drop r k m).0.state ≡ r.state)
        × ((send_or_drop r k m).0.session ≡ r.session)
        × ((send_or_drop r k m).0.paused ≡ r.paused)
  send_or_drop-same r k m =
      send_or_drop_cases
        (λ o. (o.0.state ≡ r.state) × (o.0.session ≡ r.session) × (o.0.paused ≡ r.paused)) r k m
        (λ e. (refl, refl, refl)) (λ s e f. (refl, refl, refl)) (λ s e f. (refl, refl, refl))

  notify-same :
      (r : Runtime S B) (s : Session) (ms : List ServerMessage) (reason : SessionRevocationReason)
      → ((notify r s ms reason).state ≡ r.state)
        × ((notify r s ms reason).session ≡ r.session)
        × ((notify r s ms reason).paused ≡ r.paused)
  unfolding notify
  notify-same r s ms reason = elim (Option-cases (r.clients s.client_id)) [
    | inl e ↦ rw (e, notify) (refl, refl, refl)
    | inr (x, e) ↦ rw (e, notify) (refl, refl, refl)
  ]

  -- `IsSeen` from its parts, at what the broker is known to have.
  pub seen :
      (r : Runtime S B) (m : SwitchStateMachine) (o : Option Session)
      → r.state ≡ m
      → r.session ≡ o
      → (r.paused ≡ true → snapshots m ≡ idle_snapshots m)
      → Pictured (expected m o) r.clients
      → IsSeen r
  seen r m o e q rests h = record {
    pictured =
        Pictured-same
          (λ k. ap (λ x. expected x o k) (sym e) ∙ ap (λ x. expected r.state x k) (sym q)) h;
    rests = λ p. ap snapshots e ∙ rests p ∙ ap idle_snapshots (sym e);
  }

  -- A message that shows nothing of the switches.
  pub send_or_drop-IsSeen :
      (r : Runtime S B) (k : ℕ) (m : ServerMessage)
      → ((xs : List SwitchSnapshot) → see xs m ≡ xs)
      → IsSeen r
      → IsSeen (send_or_drop r k m).0
  send_or_drop-IsSeen r k m silent h =
      let (state, session, paused) = send_or_drop-same r k m in
      seen (send_or_drop r k m).0 r.state r.session state session (λ p. h.rests (sym paused ∙ p))
        (Pictured-send_or_drop r k m (silent (expected r.state r.session k)) (λ j q. refl)
          h.pictured)

  module _ ⦃be : Backend B⦄ where
    revoke_taken-IsSeen :
        (r : Runtime S B) (now : ℕ) (reason : SessionRevocationReason) (o : Option Session)
        → r.session ≡ o
        → IsSeen r
        → IsSeen (revoke_taken r now reason o)
    unfolding revoke_taken close_session
    revoke_taken-IsSeen r now reason none e h = h
    revoke_taken-IsSeen r now reason (some s) e h =
        let c = close_session r in
        let released = release_messages c now in
        let (state, session, _) = release_messages-same c now in
        let (state', session', _) = notify-same released.0 s released.1 reason in
        seen (notify released.0 s released.1 reason) (release_all r.state).1 none (state' ∙ state)
          (session' ∙ session) (λ p. sym (release_all-again r.state))
          (Pictured-notify released.0 s released.1 reason
            (ap (λ xs. see_all released.1 xs) (expected-own r.state s)
              ∙ see_all-release_messages c now)
            (λ j other. expected-other r.state s j other)
            (subst (λ f. Pictured (expected r.state (some s)) f)
              (sym (release_messages-clients c now))
              (Pictured-same (λ k. ap (λ x. expected r.state x k) e) h.pictured)))

    pub revoke-IsSeen :
        (r : Runtime S B) (now : ℕ) (reason : SessionRevocationReason)
        → IsSeen r
        → IsSeen (revoke r now reason)
    unfolding revoke
    revoke-IsSeen r now reason h = revoke_taken-IsSeen r now reason r.session refl h

    pub if-IsSeen :
        (b : Bool) {x y : Runtime S B} → IsSeen x → IsSeen y → IsSeen (if b then x else y)
    if-IsSeen true h k = h
    if-IsSeen false h k = k

    pub unregister-IsSeen : (r : Runtime S B) (now k : ℕ) → IsSeen r → IsSeen (unregister r now k)
    unfolding unregister
    unregister-IsSeen r now k h =
        let dropped : IsSeen (record r { clients = put_client k none r.clients }) = record {
          pictured = Pictured-drop k h.pictured;
          rests = h.rests;
        } in
        if-IsSeen (is_some_and (λ (s : Session). nat_eqb s.client_id k) r.session)
          (revoke-IsSeen (record r { clients = put_client k none r.clients }) now
            explicit_revocation dropped)
          dropped

    pub confirm-IsSeen :
        (r : Runtime S B) (b : Bool) (now : ℕ) → IsSeen r → IsSeen (confirm (r, b) now)
    unfolding confirm
    confirm-IsSeen r true now h = h
    confirm-IsSeen r false now h = revoke-IsSeen r now queue_overflow h
