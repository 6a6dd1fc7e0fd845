-- ===== src/Broker/Gone/Runs.antt =====
-- The loop of crates/usahp-daemon/src/broker.rs after the `Unregister` of a client.
use usahp_core.Base.{
  ℕ, ◌+◌, ◌<◌, ◌≤◌, ◌≡◌, ◌≢◌, refl, sym, ap, ◌∙◌, subst, Bool, true, false, List, [], ◌∷◌, Option,
  none, some, some_inj, arith, length, u64_mod, nat_eqb, is_some_and, if◌then◌else◌,
}
use usahp_core.Str.{Str}
use usahp_core.Protocol.{explicit_revocation}
use usahp_core.Channel.{Channel}
use usahp_core.Capture.{Backend}
use usahp_core.Broker.Types.{Runtime, Session, BrokerCommand, put_client}
use usahp_core.Broker.Sessions.{unregister, revoke, revoke_taken}
use usahp_core.Broker.Loop.{on_command, Wake, command, ticked, Round, step, run}
use usahp_core.Broker.Run.{Sound, step-Sound}
use usahp_core.Broker.Gone.{IsGone}
use usahp_core.Broker.Gone.Handlers.{
  taken-IsGone, revoke-IsGone, input-IsGone, tick-IsGone, focus_changed-IsGone, heartbeat-IsGone,
  unregister-IsGone,
}
use usahp_core.Broker.Gone.Opening.{register-IsGone, handshake-IsGone}

module _ {S B : Type 0} ⦃ch : Channel S⦄ ⦃be : Backend B⦄ where
  unregister_self :
      (r : Runtime S B) (now k : ℕ)
      → k < r.next_client
      → IsGone k r.next_client (unregister r now k)
  unfolding unregister revoke
  unregister_self r now k h = of_session r.session refl
    where
      q : Runtime S B
      q = record r { clients = put_client k none r.clients }

      absent : q.clients k ≡ none
      absent = ground arith

      kept : ((s : Session) → r.session ≡ some s → s.client_id ≢ k) → IsGone k r.next_client q
      kept others = record { given = h; next = refl; absent = absent; foreign = others }

      of_client :
          (s : Session) (b : Bool)
          → r.session ≡ some s
          → nat_eqb s.client_id k ≡ b
          → IsGone k r.next_client
              (if b then revoke_taken q now explicit_revocation (some s) else q)
      of_client s true e mine = taken-IsGone q now explicit_revocation s h refl absent
      of_client s false e other = kept (λ x e' same. absurd (ground (arith, some_inj (sym e ∙ e'))))

      of_session :
          (o : Option Session)
          → r.session ≡ o
          → IsGone k r.next_client (
              if is_some_and (λ (s : Session). nat_eqb s.client_id k) o
              then revoke_taken q now explicit_revocation o
              else q)
      of_session none e = kept (λ x e'. absurd (cc (e, e')))
      of_session (some s) e = of_client s (nat_eqb s.client_id k) e refl

  pub step-IsGone :
      (r r' : Runtime S B) (k n now : ℕ) (uuid : Str) (w : Wake S)
      → n + 1 < u64_mod
      → step r now uuid w ≡ some r'
      → IsGone k n r
      → (n' : ℕ) × (n ≤ n') × (n' ≤ n + 1) × IsGone k n' r'
  unfolding step on_command
  step-IsGone r r' k n now uuid (command (BrokerCommand.input e)) room q h =
      (n, omega arith, omega arith, input-IsGone r r' now e q h)
  step-IsGone r r' k n now uuid (command (BrokerCommand.register s)) room q h = (
    n + 1,
    omega arith,
    omega arith,
    subst (IsGone k (n + 1)) (some_inj q) (register-IsGone r s room h),
  )
  step-IsGone r r' k n now uuid (command (BrokerCommand.unregister j)) room q h =
      (n, omega arith, omega arith, subst (IsGone k n) (some_inj q) (unregister-IsGone r now j h))
  step-IsGone r r' k n now uuid (command (BrokerCommand.handshake j x)) room q h = (
    n,
    omega arith,
    omega arith,
    subst (IsGone k n) (some_inj q) (handshake-IsGone r now uuid j x h),
  )
  step-IsGone r r' k n now uuid (command (BrokerCommand.heartbeat j id)) room q h =
      (n, omega arith, omega arith, subst (IsGone k n) (some_inj q) (heartbeat-IsGone r now j id h))
  step-IsGone r r' k n now uuid (command (BrokerCommand.revoke_session reason)) room q h =
      (n, omega arith, omega arith, subst (IsGone k n) (some_inj q) (revoke-IsGone r now reason h))
  step-IsGone r r' k n now uuid (command (BrokerCommand.focus_changed p)) room q h = (
    n,
    omega arith,
    omega arith,
    subst (IsGone k n) (some_inj q) (focus_changed-IsGone r now p h),
  )
  step-IsGone r r' k n now uuid ticked room q h =
      (n, omega arith, omega arith, subst (IsGone k n) (some_inj q) (tick-IsGone r now h))

  pub run-IsGone :
      (r : Runtime S B) (k n : ℕ) (rounds : List (Round S))
      → Sound r
      → n + length rounds < u64_mod
      → IsGone k n r
      → (r' : Runtime S B) × (run r rounds ≡ some r')
        × (n' : ℕ) × (n' ≤ n + length rounds)
        × IsGone k n' r'
  unfolding run
  run-IsGone r k n [] h room gone = (r, refl, n, omega arith, gone)
  run-IsGone r k n (x ∷ xs) h room gone =
      let (m, e, sound) = step-Sound r x.now x.uuid x.wake h in
      let (n', more, few, still) =
        step-IsGone r m k n x.now x.uuid x.wake (omega (arith, room)) e gone in
      let (r', e', n'', most, kept) = run-IsGone m k n' xs sound (omega (arith, room, few)) still in
      (
        r',
        ap (λ o. elim o [ none ↦ none | some q ↦ run q xs ]) e ∙ e',
        n'',
        omega (arith, few, most),
        kept,
      )

  -- Once a sound broker has taken the `Unregister` of an identifier below its next one, the client stays
  -- away, whatever rounds follow, a handshake or a heartbeat that was still under way included, as long
  -- as the counter of the identifiers does not wrap: the loop does not panic, and in the end there is
  -- no queue under the identifier, the session is not its client's, and it is still below the next one.
  pub unregister-run_lem :
      (r : Runtime S B) (now k : ℕ) (uuid : Str) (rounds : List (Round S))
      → Sound r
      → k < r.next_client
      → r.next_client + length rounds < u64_mod
      → (r' : Runtime S B) × (run r (
            record { now = now; uuid = uuid; wake = command (BrokerCommand.unregister k) } ∷ rounds)
          ≡ some r')
        × (r'.clients k ≡ none)
        × (k < r'.next_client)
        × ((s : Session) → r'.session ≡ some s → s.client_id ≢ k)
  unfolding run step on_command
  unregister-run_lem r now k uuid rounds h given room =
      let (m, e, sound) = step-Sound r now uuid (command (BrokerCommand.unregister k)) h in
      let left : IsGone k r.next_client m =
        subst (IsGone k r.next_client) (some_inj e) (unregister_self r now k given) in
      let (r', e', n, most, gone) = run-IsGone m k r.next_client rounds sound room left in
      (
        r',
        ap (λ o. elim o [ none ↦ none | some q ↦ run q rounds ]) e ∙ e',
        gone.absent,
        subst (λ i. k < i) (sym gone.next) gone.given,
        gone.foreign,
      )
