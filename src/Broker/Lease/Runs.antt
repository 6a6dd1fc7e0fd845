-- ===== src/Broker/Lease/Runs.antt =====
-- Runs of the loop of crates/usahp-daemon/src/broker.rs in which a session's client says nothing.
use usahp_core.Base.{
  ℕ, ◌-◌, ◌≤◌, ◌≡◌, ◌⊎◌, inl, inr, refl, sym, subst, List, [], ◌∷◌, none, some, All,
}
use usahp_core.Channel.{Channel}
use usahp_core.Capture.{Backend}
use usahp_core.Protocol.{heartbeat_timeout}
use usahp_core.Broker.Types.{Runtime, Session, from_millis}
use usahp_core.Broker.Loop.{Round, run, tick}
use usahp_core.Broker.Core.{core}
use usahp_core.Broker.Reaches.{Reaches, Reaches-first, Reaches-later, after_round}
use usahp_core.Broker.Run.{Sound, step-Sound}
use usahp_core.Broker.Escape.{IsClosed, revoke-IsClosed}
use usahp_core.Broker.Lease.{tick_late}
use usahp_core.Broker.Lease.Steps.{IsQuiet, step-Lasts}

-- No round is woken by a heartbeat of the session.
abbrev pub IsSilent : {S : Type 0} → Session → List (Round S) → Type 0
IsSilent {S} s rounds = All (λ (x : Round S). IsQuiet s x.wake) rounds

module _ {S B : Type 0} ⦃ch : Channel S⦄ ⦃be : Backend B⦄ where
  -- After some of the rounds there is no session.
  abbrev pub Ended : Runtime S B → List (Round S) → Type 0
  Ended = Reaches (λ q. q.session ≡ none)

  -- A broker's client that has fallen silent cannot keep its session: in any run from a sound broker
  -- in a session, of rounds without a heartbeat from the session's client under its id, the session
  -- ends somewhere on the way; or else the run does not panic, and a tick 1500 ms after the last
  -- heartbeat or later closes the broker.
  pub run-lease :
      (r : Runtime S B) (rounds : List (Round S)) (s : Session) (now : ℕ)
      → Sound r
      → r.session ≡ some s
      → IsSilent s rounds
      → from_millis 1500 ≤ now - s.last_heartbeat
      → Ended r rounds
        ⊎ ((r' : Runtime S B) × (run r rounds ≡ some r') × IsClosed (core (tick r' now)))
  unfolding run
  run-lease r [] s now h e quiet late = inr (
    r,
    refl,
    subst (λ x. IsClosed (core x)) (sym (tick_late r now s e late))
        (revoke-IsClosed r now heartbeat_timeout s e),
  )
  run-lease r (x ∷ xs) s now h e quiet late =
      let (q, f, sound) = step-Sound r x.now x.uuid x.wake h in
      elim (step-Lasts r q x.now x.uuid x.wake s quiet.0 e f) [
        | inl over ↦ inl (Reaches-first (λ y. y.session ≡ none) r q x xs f over)
        | inr still ↦ elim (run-lease q xs s now sound still quiet.1 late) [
          | inl ended ↦ inl (Reaches-later (λ y. y.session ≡ none) r q x xs f ended)
          | inr (r', g, closed) ↦ inr (r', after_round r q x xs (some r') f g, closed)
        ]
      ]
