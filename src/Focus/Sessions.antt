-- ===== src/Focus/Sessions.antt =====
-- The watcher of crates/usahp-daemon/src/focus_watcher.rs and the broker of
-- crates/usahp-daemon/src/broker.rs together: the session of an application that loses the focus.
use usahp_core.Base.{
  ℕ, ◌≡◌, ◌⊎◌, inl, inr, refl, sym, ap, ◌∙◌, subst, Bool, true, false, not, ◌&&◌, ◌==◌, List, [],
  ◌∷◌, Option, none, some, some_inj, any, arith, eq_iff, nat_eqb, is_some_and, Bool-cases,
}
use usahp_core.Str.{Str, str_eq}
use usahp_core.Channel.{Channel}
use usahp_core.Capture.{Backend}
use usahp_core.Protocol.{focus_lost}
use usahp_core.Broker.Types.{Runtime, Session, BrokerCommand}
use usahp_core.Broker.Loop.{
  lost_focus, focus_changed, heartbeat, Wake, command, ticked, Round, on_command, step,
}
use usahp_core.Broker.Reaches.{Reaches-first, Reaches-later}
use usahp_core.Broker.Run.{Sound, step-Sound}
use usahp_core.Broker.Escape.{revoke-IsClosed}
use usahp_core.Broker.Lease.{heartbeat_lem}
use usahp_core.Broker.Lease.Steps.{step-Lasts}
use usahp_core.Broker.Lease.Runs.{Ended}
use usahp_core.Focus.{same_pid, watch}

-- What the broker is told of the focus, in the order of the rounds.
abbrev focus_of : {S : Type 0} → Wake S → List (Option ℕ) → List (Option ℕ)
focus_of (command (BrokerCommand.input _)) rest = rest
focus_of (command (BrokerCommand.register _)) rest = rest
focus_of (command (BrokerCommand.unregister _)) rest = rest
focus_of (command (BrokerCommand.handshake _ _)) rest = rest
focus_of (command (BrokerCommand.heartbeat _ _)) rest = rest
focus_of (command (BrokerCommand.revoke_session _)) rest = rest
focus_of (command (BrokerCommand.focus_changed p)) rest = p ∷ rest
focus_of ticked rest = rest

abbrev pub focus_changes : {S : Type 0} → List (Round S) → List (Option ℕ)
focus_changes [] = []
focus_changes (x ∷ xs) = focus_of x.wake (focus_changes xs)

-- Some poll finds another application in front, or none.
abbrev pub is_left : ℕ → List (Option ℕ) → Bool
is_left p polls = any (λ q. not (same_pid q (some p))) polls

-- Then what the watcher sends begins with such an answer.
watch-left :
    (p : ℕ) (polls : List (Option ℕ))
    → is_left p polls ≡ true
    → (q : Option ℕ) × (rest : List (Option ℕ)) × (watch (some p) polls ≡ q ∷ rest)
      × (same_pid q (some p) ≡ false)
unfolding watch
watch-left p [] h = absurd (cc (h))
watch-left p (q ∷ polls) h = elim (Bool-cases (same_pid q (some p))) [
  | inl same ↦ rw same (watch-left p polls (ground (arith, same, h)))
  | inr other ↦ rw other (q, watch q polls, refl, other)
]

lost_focus-other :
    (s : Session) (p : ℕ) (q : Option ℕ)
    → s.pid ≡ some p
    → same_pid q (some p) ≡ false
    → lost_focus q s ≡ true
lost_focus-other s p none e h = rw e refl
lost_focus-other s p (some q) e h = rw e (ground arith)

-- The session is over, or it is the same but for its last heartbeat.
abbrev Renewed : {S B : Type 0} → Session → Runtime S B → Type 0
Renewed s r = (r.session ≡ none) ⊎ ((t : ℕ) × (r.session ≡ some (record s { last_heartbeat = t })))

module _ {S B : Type 0} ⦃ch : Channel S⦄ ⦃be : Backend B⦄ where
  lasting :
      (r : Runtime S B) (s : Session) → (r.session ≡ none) ⊎ (r.session ≡ some s) → Renewed s r
  lasting r s (inl over) = inl over
  lasting r s (inr same) = inr (s.last_heartbeat, same)

  beat-Renewed :
      (r r' : Runtime S B) (now k : ℕ) (id : Str) (s : Session)
      → r.session ≡ some s
      → heartbeat r now k id ≡ r'
      → Renewed s r'
  beat-Renewed r r' now k id s e q =
      elim (Bool-cases (nat_eqb s.client_id k && s.session_id == id)) [
        | inl own ↦ inr (
          now,
          ap (λ (x : Runtime S B). x.session) (sym q)
              ∙ (heartbeat_lem r now k id s e).0 (ground arith)
                  (ground (arith, eq_iff s.session_id id)),
        )
        | inr other ↦ inr (
          s.last_heartbeat,
          ap (λ (x : Runtime S B). x.session)
                (sym q ∙ (heartbeat_lem r now k id s e).1 (ground (arith, eq_iff s.session_id id)))
              ∙ e,
        )
      ]

  step-Renewed :
      (r r' : Runtime S B) (now : ℕ) (uuid : Str) (w : Wake S) (s : Session)
      → r.session ≡ some s
      → step r now uuid w ≡ some r'
      → Renewed s r'
  unfolding step on_command
  step-Renewed r r' now uuid (command (BrokerCommand.heartbeat k id)) s e q =
      beat-Renewed r r' now k id s e (some_inj q)
  step-Renewed r r' now uuid (command (BrokerCommand.input x)) s e q =
      lasting r' s (step-Lasts r r' now uuid (command (BrokerCommand.input x)) s tt e q)
  step-Renewed r r' now uuid (command (BrokerCommand.register x)) s e q =
      lasting r' s (step-Lasts r r' now uuid (command (BrokerCommand.register x)) s tt e q)
  step-Renewed r r' now uuid (command (BrokerCommand.unregister k)) s e q =
      lasting r' s (step-Lasts r r' now uuid (command (BrokerCommand.unregister k)) s tt e q)
  step-Renewed r r' now uuid (command (BrokerCommand.handshake k x)) s e q =
      lasting r' s (step-Lasts r r' now uuid (command (BrokerCommand.handshake k x)) s tt e q)
  step-Renewed r r' now uuid (command (BrokerCommand.revoke_session x)) s e q =
      lasting r' s (step-Lasts r r' now uuid (command (BrokerCommand.revoke_session x)) s tt e q)
  step-Renewed r r' now uuid (command (BrokerCommand.focus_changed x)) s e q =
      lasting r' s (step-Lasts r r' now uuid (command (BrokerCommand.focus_changed x)) s tt e q)
  step-Renewed r r' now uuid ticked s e q = lasting r' s (step-Lasts r r' now uuid ticked s tt e q)

  -- The round that tells the broker so ends the session.
  focus_changed-none :
      (r : Runtime S B) (now p : ℕ) (q : Option ℕ) (s : Session)
      → r.session ≡ some s
      → s.pid ≡ some p
      → same_pid q (some p) ≡ false
      → (focus_changed r now q).session ≡ none
  unfolding focus_changed
  focus_changed-none r now p q s e mine other =
      let lost : is_some_and (lost_focus q) r.session ≡ true =
        ap (is_some_and (lost_focus q)) e ∙ lost_focus-other s p q mine other in
      rw lost (revoke-IsClosed r now focus_lost s e).no_session

  -- What the wake tells the broker: that the other application is in front, or nothing.
  told :
      (r r' : Runtime S B) (now : ℕ) (uuid : Str) (w : Wake S) (s : Session) (p : ℕ) (q : Option ℕ)
      (later rest : List (Option ℕ))
      → r.session ≡ some s
      → s.pid ≡ some p
      → same_pid q (some p) ≡ false
      → focus_of w later ≡ q ∷ rest
      → step r now uuid w ≡ some r'
      → (r'.session ≡ none) ⊎ (later ≡ q ∷ rest)
  unfolding step on_command
  told r r' now uuid (command (BrokerCommand.focus_changed x)) s p q later rest e mine other h f =
      let same : x ≡ q = cc (h) in
      inl (
        ap (λ (y : Runtime S B). y.session) (sym (some_inj f))
        ∙ focus_changed-none r now p x s e mine
            (subst (λ y. same_pid y (some p) ≡ false) (sym same) other))
  told r r' now uuid (command (BrokerCommand.input x)) s p q later rest e mine other h f = inr h
  told r r' now uuid (command (BrokerCommand.register x)) s p q later rest e mine other h f = inr h
  told r r' now uuid (command (BrokerCommand.unregister k)) s p q later rest e mine other h f =
      inr h
  told r r' now uuid (command (BrokerCommand.handshake k x)) s p q later rest e mine other h f =
      inr h
  told r r' now uuid (command (BrokerCommand.heartbeat k x)) s p q later rest e mine other h f =
      inr h
  told r r' now uuid (command (BrokerCommand.revoke_session x)) s p q later rest e mine other h f =
      inr h
  told r r' now uuid ticked s p q later rest e mine other h f = inr h

  run-left :
      (r : Runtime S B) (rounds : List (Round S)) (s : Session) (p : ℕ) (q : Option ℕ)
      (rest : List (Option ℕ))
      → Sound r
      → r.session ≡ some s
      → s.pid ≡ some p
      → same_pid q (some p) ≡ false
      → focus_changes rounds ≡ q ∷ rest
      → Ended r rounds
  run-left r [] s p q rest h e mine other told_so = absurd (cc (told_so))
  run-left r (x ∷ xs) s p q rest h e mine other told_so =
      let (m, f, sound) = step-Sound r x.now x.uuid x.wake h in
      elim (told r m x.now x.uuid x.wake s p q (focus_changes xs) rest e mine other told_so f) [
        | inl over ↦ Reaches-first (λ y. y.session ≡ none) r m x xs f over
        | inr later ↦ elim (step-Renewed r m x.now x.uuid x.wake s e f) [
          | inl over ↦ Reaches-first (λ y. y.session ≡ none) r m x xs f over
          | inr (t, still) ↦
              Reaches-later (λ y. y.session ≡ none) r m x xs f
                (run-left m xs (record s { last_heartbeat = t }) p q rest sound still mine other
                  later)
        ]
      ]

  -- An application that is left does not keep its session: if the session's application was the one in
  -- front when the watcher last looked, and a later poll finds another one or none, then in any run of a
  -- sound broker whose rounds bring the watcher's messages in their order, among whatever else, the
  -- session ends on the way, without a panic.
  pub watch-Ended :
      (r : Runtime S B) (rounds : List (Round S)) (s : Session) (p : ℕ) (polls : List (Option ℕ))
      → Sound r
      → r.session ≡ some s
      → s.pid ≡ some p
      → is_left p polls ≡ true
      → focus_changes rounds ≡ watch (some p) polls
      → Ended r rounds
  watch-Ended r rounds s p polls h e mine left sent =
      let (q, rest, first, other) = watch-left p polls left in
      run-left r rounds s p q rest h e mine other (sent ∙ first)
