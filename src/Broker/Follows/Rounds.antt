-- ===== src/Broker/Follows/Rounds.antt =====
-- Each round of the loop of crates/usahp-daemon/src/broker.rs follows the specification.
use usahp_core.Base.{
  leb, ℕ, ◌-◌, ◌≤◌, ◌<◌, ◌≡◌, ◌≢◌, ◌⊎◌, inl, inr, refl, sym, ap, ◌∙◌, subst, Bool, true, false, not,
  ◌||◌, ◌&&◌, ◌==◌, [], ◌∷◌, Option, none, some, some_inj, arith, eq_iff, nat_eqb, is_some,
  is_some_and, if◌then◌else◌, Bool-cases, Option-cases,
}
use mathlib.Core.Option
use usahp_core.Str.{Str, str_eq}
use usahp_core.Protocol.{
  SessionRevocationReason, Handshake, explicit_revocation, focus_lost, heartbeat_timeout,
  escape_hatch, ServerMessage, queue_overflow,
}
use usahp_core.State.{SwitchStateMachine, Outcome, LogicalTransition, ok, err, apply}
use usahp_core.Channel.{Channel}
use usahp_core.Capture.{Backend}
use usahp_core.Collections.HashMap
use usahp_core.Collections.HashMap.{HashMap}
use usahp_core.Broker.Types.{
  Runtime, Session, PhysicalEvent, BrokerCommand, from_millis, put_client,
}
use usahp_core.Broker.Send.{event, send_or_drop, broadcast, send_or_drop_cases}
use usahp_core.Broker.Sessions.{revoke, unregister, handshake, rejection, confirm}
use usahp_core.Broker.Loop.{
  beat, track, route, emit, after_apply, input, heartbeat, focus_changed, tick, lost_focus,
  timed_out, held_too_long, Wake, command, ticked, step, on_command,
}
use usahp_core.Broker.Cases.{validated}
use usahp_core.Broker.Core.{Core, core, closed, track_outcome}
use usahp_core.Broker.Refine.{core-revoke, revoke_idle}
use usahp_core.Broker.Refine.Rounds.{core-register}
use usahp_core.Broker.Run.{Sound, step-Sound}
use usahp_core.Broker.Admission.{rejection_iff}
use usahp_core.Broker.Accepted.{handshake-Ends}
use usahp_core.Broker.Refusal.{handshake-Answered}
use usahp_core.Broker.Lease.{heartbeat_lem, tick_late, tick_early, AreYoung, young-held_too_long}
use usahp_core.Broker.Follows.{
  EndsIf, IsOwner, InSession, IsBehind, IsDue, Renews, Applies, Handles, Asks, Follows,
}

nothing : (j : Str) → HashMap.contains_key {V = ℕ} j [] ≡ false
unfolding HashMap.get
nothing j = refl

held_too_long-young : (now : ℕ) (l : HashMap Str ℕ) → held_too_long now l ≡ false → AreYoung now l
held_too_long-young now [] h = tt
held_too_long-young now ((k, t) ∷ l) h =
    (ground (arith, h), held_too_long-young now l (ground (arith, h)))

lost-behind :
    (front o : Option ℕ)
    → is_some_and (λ pid. not (is_some_and (λ q. nat_eqb pid q) front)) o ≡ true
    → (pid : ℕ) × (o ≡ some pid) × (front ≢ some pid)
lost-behind front none h = absurd (cc (h))
lost-behind none (some pid) h = (pid, refl, λ e. cc (e))
lost-behind (some q) (some pid) h =
    (pid, refl, λ e. let same : q ≡ pid = some_inj e in absurd (ground arith))

behind-lost :
    (front o : Option ℕ) (pid : ℕ)
    → o ≡ some pid
    → front ≢ some pid
    → is_some_and (λ pid. not (is_some_and (λ q. nat_eqb pid q) front)) o ≡ true
behind-lost front none pid e h = absurd (cc (e))
behind-lost none (some p) pid e h = refl
behind-lost (some q) (some p) pid e h = elim (Bool-cases (nat_eqb p q)) [
  | inl hit ↦ let same : q ≡ p = ground arith in absurd (h (ap some same ∙ e))
  | inr miss ↦ rw miss
]

module _ {S B : Type 0} ⦃ch : Channel S⦄ ⦃be : Backend B⦄ where
  -- The answer of `confirm`: nothing of the core changes, or the session ends.
  confirm-core :
      (r : Runtime S B) (b : Bool) (now : ℕ) (s : Session)
      → r.session ≡ some s
      → (core (confirm (r, b) now) ≡ core r) ⊎ (core (confirm (r, b) now) ≡ closed (core r))
  unfolding confirm
  confirm-core r true now s e = inl refl
  confirm-core r false now s e = inr (core-revoke r now queue_overflow s e)

  send_or_drop-core :
      (r : Runtime S B) (k : ℕ) (m : ServerMessage) → core (send_or_drop r k m).0 ≡ core r
  send_or_drop-core r k m =
      send_or_drop_cases (λ o. core o.0 ≡ core r) r k m (λ e. refl) (λ s e f. refl) (λ s e f. refl)

  route-core :
      (r : Runtime S B) (now : ℕ) (m : ServerMessage) (o : Option Session)
      → r.session ≡ o
      → (core (route r now m o) ≡ core r)
        ⊎ (InSession (core r) × (core (route r now m o) ≡ closed (core r)))
  unfolding route broadcast
  route-core r now m none e = inl refl
  route-core r now m (some s) e =
      let sent = send_or_drop-core r s.client_id m in
      elim (confirm-core (send_or_drop r s.client_id m).0 (send_or_drop r s.client_id m).1 now s
        (ap (λ (c : Core). c.session) sent ∙ e)) [
          | inl same ↦ inl (same ∙ sent)
          | inr over ↦ inr ((s, e), over ∙ ap closed sent)
        ]

  after_apply-core :
      (r : Runtime S B) (now : ℕ) (m : SwitchStateMachine) (o : Outcome)
      → (core (after_apply r now (m, o))
          ≡ record (core r) { state = m; tracker = track_outcome o now r.escape_tracker })
        ⊎ (InSession (core r)
            × ((t : LogicalTransition) × (o ≡ ok (some t)))
            × (core (after_apply r now (m, o))
                ≡ closed (record (core r) {
                  state = m;
                  tracker = track_outcome o now r.escape_tracker;
                })))
  unfolding after_apply emit event
  after_apply-core r now m (ok (some t)) =
      let tracked = record r {
        state = m;
        escape_tracker = track t.switch_id t.action now r.escape_tracker;
      } in
      let numbered = event tracked now t.switch_id t.action t.confidence in
      elim (route-core numbered.0 now numbered.1 r.session refl) [
        | inl same ↦ inl same
        | inr (inside, over) ↦ inr (inside, (t, refl), over)
      ]
  after_apply-core r now m (ok none) = inl refl
  after_apply-core r now m (err x) = inl refl

  input-Handles :
      (r r' : Runtime S B) (now : ℕ) (e : PhysicalEvent)
      → Sound r
      → input r now e ≡ some r'
      → Handles now e (core r) (core r')
  unfolding input
  input-Handles r r' now e h q = elim (Bool-cases (r.paused || not r.capture.enabled)) [
    | inl off ↦ inl (ground (arith, h.flag), ap core (sym (some_inj (rw off at q))))
    | inr on ↦ inr (ground arith, applied (rw on at q))
  ]
    where
      applied :
          Option.map
              (after_apply r now)
              (apply r.state e.mapping_id e.action (validated e.confidence))
            ≡ some r'
          → Applies now e (core r) (core r')
      applied q =
          elim (Option-cases (apply r.state e.mapping_id e.action (validated e.confidence))) [
            | inl panics ↦ absurd (cc (rw panics at q))
            | inr ((m, o), applies) ↦
                let is : after_apply r now (m, o) ≡ r' = some_inj (rw applies at q) in
                (
                  m,
                  o,
                  applies,
                  elim (after_apply-core r now m o) [
                    | inl same ↦ inl (ap core (sym is) ∙ same)
                    | inr (inside, reported, over) ↦ inr (inside, reported, ap core (sym is) ∙ over)
                  ],
                )
          ]

  -- What a revocation does to the core.
  revoke-EndsIf :
      (P : Type 0) (r : Runtime S B) (now : ℕ) (s : Session) (b : Bool)
      (reason : SessionRevocationReason)
      → r.session ≡ some s
      → (b ≡ true → P)
      → (b ≡ false → P → ⊥)
      → EndsIf P (core r) (core (if b then revoke r now reason else r))
  revoke-EndsIf P r now s true reason e holds never = inl (holds refl, core-revoke r now reason s e)
  revoke-EndsIf P r now s false reason e holds never = inr (never refl, refl)

  session_is : (r : Runtime S B) (s x : Session) → r.session ≡ some s → r.session ≡ some x → s ≡ x
  session_is r s x e f = some_inj (sym e ∙ f)

  unregister-EndsIf :
      (r : Runtime S B) (now k : ℕ)
      → EndsIf (IsOwner k (core r)) (core r) (core (unregister r now k))
  unfolding unregister
  unregister-EndsIf r now k = elim (Option-cases r.session) [
    | inl nobody ↦ inr (λ (s, e, mine). cc (e, nobody), rw nobody refl)
    | inr (s, e) ↦
        let left = record r { clients = put_client k none r.clients } in
        subst
          (λ b.
            EndsIf (IsOwner k (core r)) (core r)
              (core (if b then revoke left now explicit_revocation else left)))
          (sym (ap (is_some_and (λ (x : Session). nat_eqb x.client_id k)) e))
          (revoke-EndsIf (IsOwner k (core r)) left now s (nat_eqb s.client_id k) explicit_revocation
            e (λ q. (s, e, ground arith))
            (λ q p.
              let same = session_is r s p.0 e p.1 in
              let mine : s.client_id ≡ k = ap (λ (x : Session). x.client_id) same ∙ p.2 in
              absurd (ground arith)))
  ]

  heartbeat-Renews :
      (r : Runtime S B) (now k : ℕ) (id : Str)
      → Renews now k id (core r) (core (heartbeat r now k id))
  unfolding heartbeat
  heartbeat-Renews r now k id = elim (Option-cases r.session) [
    | inl nobody ↦ inr (
      λ s e p q. cc (e, nobody),
      ap (λ o. record (core r) { session = o })
          (ap (λ o. Option.map (λ s. beat s now k id) o) nobody ∙ sym nobody),
    )
    | inr (s, e) ↦ elim (Bool-cases (nat_eqb s.client_id k && s.session_id == id)) [
      | inl own ↦
          let mine : s.client_id ≡ k = ground arith in
          let named : s.session_id ≡ id = ground (arith, eq_iff s.session_id id) in
          inl (
            s,
            e,
            mine,
            named,
            ap (λ o. record (core r) { session = o }) ((heartbeat_lem r now k id s e).0 mine named),
          )
      | inr other ↦
          let differs : (s.client_id ≢ k) ⊎ (s.session_id ≢ id) =
            ground (arith, eq_iff s.session_id id) in
          inr (
            λ x f p q.
                let same = session_is r s x e f in
                let mine : s.client_id ≡ k = ap (λ (y : Session). y.client_id) same ∙ p in
                let named : s.session_id ≡ id = ap (λ (y : Session). y.session_id) same ∙ q in
                elim differs [ inl d ↦ d mine | inr d ↦ d named ],
            ap core ((heartbeat_lem r now k id s e).1 differs),
          )
    ]
  ]

  focus_changed-EndsIf :
      (r : Runtime S B) (now : ℕ) (front : Option ℕ)
      → EndsIf (IsBehind front (core r)) (core r) (core (focus_changed r now front))
  unfolding focus_changed
  focus_changed-EndsIf r now front = elim (Option-cases r.session) [
    | inl nobody ↦ inr (λ (s, pid, e, mine, other). cc (e, nobody), rw nobody refl)
    | inr (s, e) ↦
        subst
          (λ b.
            EndsIf (IsBehind front (core r)) (core r)
              (core (if b then revoke r now focus_lost else r)))
          (sym (ap (is_some_and (lost_focus front)) e))
          (revoke-EndsIf (IsBehind front (core r)) r now s (lost_focus front s) focus_lost e
            (λ q. let (pid, mine, other) = lost-behind front s.pid q in (s, pid, e, mine, other))
            (λ q p.
              let same = session_is r s p.0 e p.2 in
              let mine : s.pid ≡ some p.1 = ap (λ (x : Session). x.pid) same ∙ p.3 in
              cc (q, behind-lost front s.pid p.1 mine p.4)))
  ]

  idle_choice :
      (b c : Bool) (x y r : Runtime S B) → x ≡ r → y ≡ r → (if b then x else if c then y else r) ≡ r
  idle_choice true c x y r hx hy = hx
  idle_choice false true x y r hx hy = hy
  idle_choice false false x y r hx hy = refl

  tick_idle : (r : Runtime S B) (now : ℕ) → r.session ≡ none → tick r now ≡ r
  unfolding tick
  tick_idle r now e =
      idle_choice (is_some_and (timed_out now) r.session)
        (is_some r.session && held_too_long now r.escape_tracker) (revoke r now heartbeat_timeout)
        (revoke r now escape_hatch) r (revoke_idle r now heartbeat_timeout e)
        (revoke_idle r now escape_hatch e)

  tick-EndsIf :
      (r : Runtime S B) (now : ℕ) → EndsIf (IsDue now (core r)) (core r) (core (tick r now))
  tick-EndsIf r now = elim (Option-cases r.session) [
    | inl nobody ↦ inr (λ (s, e, why). cc (e, nobody), ap core (tick_idle r now nobody))
    | inr (s, e) ↦ in_session s e (leb (from_millis 1500) (now - s.last_heartbeat)) refl
  ]
    where
      in_session :
          (s : Session)
          → r.session ≡ some s
          → (b : Bool) → leb (from_millis 1500) (now - s.last_heartbeat) ≡ b
          → EndsIf (IsDue now (core r)) (core r) (core (tick r now))
      in_session s e true q =
          let late : from_millis 1500 ≤ now - s.last_heartbeat = ground arith in
          inl (
            (s, e, inl late),
            ap core (tick_late r now s e late) ∙ core-revoke r now heartbeat_timeout s e,
          )
      in_session s e false q =
          let early : now - s.last_heartbeat < from_millis 1500 = ground arith in
          elim (Bool-cases (held_too_long now r.escape_tracker)) [
            | inl old ↦ inl (
              (s, e, inr (λ young. cc (old, young-held_too_long now r.escape_tracker young))),
              ap core (tick_early r now s true e early old) ∙ core-revoke r now escape_hatch s e,
            )
            | inr young ↦ inr (
              λ (x, f, why).
                  let same = session_is r s x e f in
                  elim why [
                    | inl late ↦
                        let is : x.last_heartbeat ≡ s.last_heartbeat =
                          ap (λ (y : Session). y.last_heartbeat) (sym same) in
                        absurd (omega (arith, early, late, is))
                    | inr never ↦ never (held_too_long-young now r.escape_tracker young)
                  ],
              ap core (tick_early r now s false e early young),
            )
          ]

  handshake-Asks :
      (r : Runtime S B) (now : ℕ) (uuid : Str) (k : ℕ) (h : Handshake)
      → Sound (handshake r now uuid k h)
      → Asks now uuid k h (core r) (core (handshake r now uuid k h))
  handshake-Asks r now uuid k h sound = elim (Option-cases (rejection r h)) [
    | inr (reason, refused) ↦ inr (
      λ (a, free). cc (refused, (rejection_iff r h).1 (a, free)),
      (handshake-Answered r now uuid k h reason refused).same_core,
    )
    | inl passes ↦
        let (a, free) = (rejection_iff r h).0 passes in
        inl (
          a,
          free,
          elim (handshake-Ends r now uuid k h passes) [
            | inl o ↦ inl (
              o.session,
              o.on,
              sound.flag ∙ ap not o.on,
              o.fresh,
              λ j.
                  sym (sound.tracked o.on j)
                  ∙ ap (λ m. HashMap.contains_key j m) o.fresh
                  ∙ nothing j,
            )
            | inr o ↦ inr (o.no_session, o.off, sound.flag ∙ ap not o.off, sound.quiet o.off)
          ],
        )
  ]

  pub step-Follows :
      (r : Runtime S B) (now : ℕ) (uuid : Str) (w : Wake S)
      → Sound r
      → (r' : Runtime S B) × (step r now uuid w ≡ some r') × Follows now uuid w (core r) (core r')
  unfolding step on_command
  step-Follows r now uuid w h =
      let (r', e, sound) = step-Sound r now uuid w h in (r', e, followed r r' now uuid w h sound e)
    where
      followed :
          (r r' : Runtime S B) (now : ℕ) (uuid : Str) (w : Wake S)
          → Sound r
          → Sound r'
          → step r now uuid w ≡ some r'
          → Follows now uuid w (core r) (core r')
      followed r r' now uuid (command (BrokerCommand.input e)) h sound q =
          input-Handles r r' now e h q
      followed r r' now uuid (command (BrokerCommand.register s)) h sound q =
          ap core (sym (some_inj q)) ∙ core-register r s
      followed r r' now uuid (command (BrokerCommand.unregister k)) h sound q =
          subst (λ x. EndsIf (IsOwner k (core r)) (core r) (core x)) (some_inj q)
            (unregister-EndsIf r now k)
      followed r r' now uuid (command (BrokerCommand.handshake k x)) h sound q =
          subst (λ y. Asks now uuid k x (core r) (core y)) (some_inj q)
            (handshake-Asks r now uuid k x (subst Sound (sym (some_inj q)) sound))
      followed r r' now uuid (command (BrokerCommand.heartbeat k id)) h sound q =
          subst (λ x. Renews now k id (core r) (core x)) (some_inj q) (heartbeat-Renews r now k id)
      followed r r' now uuid (command (BrokerCommand.revoke_session reason)) h sound q =
          subst (λ x. EndsIf (InSession (core r)) (core r) (core x)) (some_inj q)
            (elim (Option-cases r.session) [
              | inl nobody ↦
                  inr (λ (s, e). cc (e, nobody), ap core (revoke_idle r now reason nobody))
              | inr (s, e) ↦ inl ((s, e), core-revoke r now reason s e)
            ])
      followed r r' now uuid (command (BrokerCommand.focus_changed front)) h sound q =
          subst (λ x. EndsIf (IsBehind front (core r)) (core r) (core x)) (some_inj q)
            (focus_changed-EndsIf r now front)
      followed r r' now uuid ticked h sound q =
          subst (λ x. EndsIf (IsDue now (core r)) (core r) (core x)) (some_inj q)
            (tick-EndsIf r now)
