-- ===== src/Broker/Exclusive.antt =====
-- The queues of the other clients of crates/usahp-daemon/src/broker.rs during a session.
use usahp_core.Base.{
  ℕ, ◌≡◌, ◌≢◌, inl, inr, refl, sym, ◌∙◌, ap, subst, Bool, true, false, ◌&&◌, List, Option, none,
  some, some_inj, arith, is_some, is_some_and, if◌then◌else◌, Option-cases,
}
use usahp_core.Str.{Str}
use usahp_core.Protocol.{
  ServerMessage, SessionRevocationReason, focus_lost, heartbeat_timeout, escape_hatch,
  queue_overflow,
}
use usahp_core.State.{SwitchStateMachine, Outcome, ok, err}
use usahp_core.Channel.{Channel}
use usahp_core.Capture.{Backend}
use usahp_core.Broker.Types.{Runtime, Session, BrokerCommand, PhysicalEvent, put_client}
use usahp_core.Broker.Send.{event, send_or_drop, send_or_drop_cases, release_messages}
use usahp_core.Broker.Sessions.{notify, close_session, revoke, revoke_taken, confirm}
use usahp_core.Broker.Loop.{
  timed_out, held_too_long, lost_focus, track, route, emit, after_apply, input, tick, focus_changed,
  heartbeat, step, on_command, Wake, command, ticked,
}
use usahp_core.Broker.Cases.{input_cases}
use usahp_core.Broker.Numbers.{release_messages-clients}

put_client-other :
    {S : Type 0} (k j : ℕ) (o : Option S) (f : ℕ → Option S) → j ≢ k → put_client k o f j ≡ f j
put_client-other k j o f h = ground arith

module _ {S B : Type 0} ⦃ch : Channel S⦄ where
  pub notify-other :
      (r : Runtime S B) (s : Session) (ms : List ServerMessage) (reason : SessionRevocationReason)
      (j : ℕ)
      → j ≢ s.client_id
      → (notify r s ms reason).clients j ≡ r.clients j
  unfolding notify
  notify-other r s ms reason j h = elim (Option-cases (r.clients s.client_id)) [
    | inl e ↦ rw (e, notify) refl
    | inr (x, e) ↦ rw (e, notify) (put_client-other s.client_id j _ r.clients h)
  ]

  sent-other :
      (r : Runtime S B) (k : ℕ) (m : ServerMessage) (j : ℕ)
      → j ≢ k
      → ((send_or_drop r k m).0.session ≡ r.session)
        × ((send_or_drop r k m).0.clients j ≡ r.clients j)
  sent-other r k m j h =
      send_or_drop_cases (λ o. (o.0.session ≡ r.session) × (o.0.clients j ≡ r.clients j)) r k m
        (λ e. (refl, put_client-other k j none r.clients h))
        (λ s e f. (refl, put_client-other k j none r.clients h))
        (λ s e f. (refl, put_client-other k j (some (ch.try_send s m).0) r.clients h))

  module _ ⦃be : Backend B⦄ where
    revoke_taken-other :
        (r : Runtime S B) (now : ℕ) (reason : SessionRevocationReason) (s : Session) (j : ℕ)
        → j ≢ s.client_id
        → (revoke_taken r now reason (some s)).clients j ≡ r.clients j
    unfolding revoke_taken close_session
    revoke_taken-other r now reason s j h =
        notify-other (release_messages (close_session r) now).0 s
          (release_messages (close_session r) now).1 reason j h
        ∙ ap (λ f. f j) (release_messages-clients (close_session r) now)

    -- Whatever the reason, a revocation leaves the other clients' queues alone.
    revoke-other :
        (r : Runtime S B) (now : ℕ) (reason : SessionRevocationReason) (s : Session) (j : ℕ)
        → r.session ≡ some s
        → j ≢ s.client_id
        → (revoke r now reason).clients j ≡ r.clients j
    unfolding revoke
    revoke-other r now reason s j e h =
        subst (λ o. (revoke_taken r now reason o).clients j ≡ r.clients j) (sym e)
          (revoke_taken-other r now reason s j h)

    confirm-other :
        (q : Runtime S B) (b : Bool) (now : ℕ) (s : Session) (j : ℕ)
        → q.session ≡ some s
        → j ≢ s.client_id
        → (confirm (q, b) now).clients j ≡ q.clients j
    unfolding confirm
    confirm-other q true now s j e h = refl
    confirm-other q false now s j e h = revoke-other q now queue_overflow s j e h

    route-other :
        (r : Runtime S B) (now : ℕ) (m : ServerMessage) (s : Session) (j : ℕ)
        → r.session ≡ some s
        → j ≢ s.client_id
        → (route r now m (some s)).clients j ≡ r.clients j
    unfolding route
    route-other r now m s j e h =
        let (session, queue) = sent-other r s.client_id m j h in
        confirm-other (send_or_drop r s.client_id m).0 (send_or_drop r s.client_id m).1 now s j
          (session ∙ e) h
        ∙ queue

    route-session :
        (r : Runtime S B) (now : ℕ) (m : ServerMessage) (o : Option Session) (s : Session) (j : ℕ)
        → o ≡ some s
        → r.session ≡ some s
        → j ≢ s.client_id
        → (route r now m o).clients j ≡ r.clients j
    route-session r now m none s j q e h = absurd (cc (q))
    route-session r now m (some x) s j q e h =
        subst (λ y. (route r now m (some y)).clients j ≡ r.clients j) (sym (some_inj q))
          (route-other r now m s j e h)

    after_apply-other :
        (r : Runtime S B) (now : ℕ) (o : SwitchStateMachine × Outcome) (s : Session) (j : ℕ)
        → r.session ≡ some s
        → j ≢ s.client_id
        → (after_apply r now o).clients j ≡ r.clients j
    unfolding after_apply emit event
    after_apply-other r now (m, ok (some t)) s j e h =
        let tracked = record r {
          state = m;
          escape_tracker = track t.switch_id t.action now r.escape_tracker;
        } in
        let numbered = event tracked now t.switch_id t.action t.confidence in
        route-session numbered.0 now numbered.1 r.session s j e e h
    after_apply-other r now (m, ok none) s j e h = refl
    after_apply-other r now (m, err x) s j e h = refl

    input-other :
        (r r' : Runtime S B) (now : ℕ) (e : PhysicalEvent) (s : Session) (j : ℕ)
        → r.session ≡ some s
        → j ≢ s.client_id
        → input r now e ≡ some r'
        → r'.clients j ≡ r.clients j
    input-other r r' now e s j inside h q =
        input_cases (λ x. x.clients j ≡ r.clients j) r r' now e refl
          (λ o on e. after_apply-other r now o s j inside h) q

    if-other :
        (b : Bool) (r x y : Runtime S B) (j : ℕ)
        → x.clients j ≡ r.clients j
        → y.clients j ≡ r.clients j
        → (if b then x else y).clients j ≡ r.clients j
    if-other true r x y j f g = f
    if-other false r x y j f g = g

    tick-other :
        (r : Runtime S B) (now : ℕ) (s : Session) (j : ℕ)
        → r.session ≡ some s
        → j ≢ s.client_id
        → (tick r now).clients j ≡ r.clients j
    unfolding tick
    tick-other r now s j e h =
        let held = is_some r.session && held_too_long now r.escape_tracker in
        let escaped = revoke r now escape_hatch in
        if-other (is_some_and (timed_out now) r.session) r (revoke r now heartbeat_timeout)
          (if held then escaped else r) j (revoke-other r now heartbeat_timeout s j e h)
          (if-other held r escaped r j (revoke-other r now escape_hatch s j e h) refl)

    focus_changed-other :
        (r : Runtime S B) (now : ℕ) (pid : Option ℕ) (s : Session) (j : ℕ)
        → r.session ≡ some s
        → j ≢ s.client_id
        → (focus_changed r now pid).clients j ≡ r.clients j
    unfolding focus_changed
    focus_changed-other r now pid s j e h =
        if-other (is_some_and (lost_focus pid) r.session) r (revoke r now focus_lost) r j
          (revoke-other r now focus_lost s j e h) refl

    heartbeat-other :
        (r : Runtime S B) (now k : ℕ) (id : Str) (j : ℕ)
        → (heartbeat r now k id).clients j ≡ r.clients j
    unfolding heartbeat
    heartbeat-other r now k id j = refl

-- A round that is not about one client's connection: an edge, a heartbeat, a revocation, a change of
-- focus or a tick.
abbrev pub IsRouting : {S : Type 0} → Wake S → Type 0
IsRouting (command (BrokerCommand.register _)) = ⊥
IsRouting (command (BrokerCommand.input _)) = Unit {0}
IsRouting (command (BrokerCommand.unregister _)) = ⊥
IsRouting (command (BrokerCommand.handshake _ _)) = ⊥
IsRouting (command (BrokerCommand.heartbeat _ _)) = Unit {0}
IsRouting (command (BrokerCommand.revoke_session _)) = Unit {0}
IsRouting (command (BrokerCommand.focus_changed _)) = Unit {0}
IsRouting ticked = Unit {0}

-- During a session, an edge, a heartbeat, a revocation, a change of focus or a tick leaves every other
-- client as it is: nothing is put into its queue, and it is not dropped, whatever the session's own
-- client's queue does.
pub step-exclusive :
    {S B : Type 0} ⦃ch : Channel S⦄ ⦃be : Backend B⦄ (r r' : Runtime S B) (now : ℕ) (uuid : Str)
    (w : Wake S) (s : Session) (j : ℕ)
    → IsRouting w
    → r.session ≡ some s
    → j ≢ s.client_id
    → step r now uuid w ≡ some r'
    → r'.clients j ≡ r.clients j
unfolding step on_command
step-exclusive r r' now uuid (command (BrokerCommand.input x)) s j w e h q =
    input-other r r' now x s j e h q
step-exclusive r r' now uuid (command (BrokerCommand.register x)) s j w e h q = absurd w
step-exclusive r r' now uuid (command (BrokerCommand.unregister k)) s j w e h q = absurd w
step-exclusive r r' now uuid (command (BrokerCommand.handshake k x)) s j w e h q = absurd w
step-exclusive {S} {B} r r' now uuid (command (BrokerCommand.heartbeat k id)) s j w e h q =
    ap (λ (x : Runtime S B). x.clients j) (sym (some_inj q)) ∙ heartbeat-other r now k id j
step-exclusive {S} {B} r r' now uuid (command (BrokerCommand.revoke_session reason)) s j w e h q =
    ap (λ (x : Runtime S B). x.clients j) (sym (some_inj q)) ∙ revoke-other r now reason s j e h
step-exclusive {S} {B} r r' now uuid (command (BrokerCommand.focus_changed pid)) s j w e h q =
    ap (λ (x : Runtime S B). x.clients j) (sym (some_inj q)) ∙ focus_changed-other r now pid s j e h
step-exclusive {S} {B} r r' now uuid ticked s j w e h q =
    ap (λ (x : Runtime S B). x.clients j) (sym (some_inj q)) ∙ tick-other r now s j e h
