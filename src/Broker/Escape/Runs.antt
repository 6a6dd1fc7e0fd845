-- ===== src/Broker/Escape/Runs.antt =====
-- The escape hatch of crates/usahp-daemon/src/broker.rs through a run of the loop.
use usahp_core.Base.{
  some_inj, ℕ, ◌-◌, ◌≤◌, ◌≡◌, ◌⊎◌, inl, inr, refl, sym, ap, ◌∙◌, subst, List, [], ◌∷◌, some, false,
}
use usahp_core.Str.{Str, str_eq}
use usahp_core.Protocol.{Handshake}
use usahp_core.Channel.{Channel}
use usahp_core.Capture.{Backend}
use usahp_core.Broker.Types.{Runtime, PhysicalEvent, BrokerCommand, from_millis}
use usahp_core.Broker.Loop.{Wake, command, ticked, Round, run, tick}
use usahp_core.Broker.Cases.{validated}
use usahp_core.Broker.Core.{Core, core, closed, track_outcome}
use usahp_core.Broker.Invariant.{IsSound, apply_result}
use usahp_core.Broker.Run.{Sound, step-Sound}
use usahp_core.Broker.Escape.{IsClosed, IsHeld, IsFree, edge-hold, tick-escape}
use usahp_core.Broker.Reaches.{Reaches, Reaches-first, Reaches-later, after_round}
use usahp_core.Broker.Follows.{EndsIf, Applies, Handles, Asks, Renews, Follows}
use usahp_core.Broker.Follows.Rounds.{step-Follows}

module _ (k : Str) (t : ℕ) where
  -- The switch was let go or the session is over, or the entry is still there.
  abbrev Holds : Core → Type 0
  Holds d = IsFree k d ⊎ IsHeld k t d

  same_hold : {c d : Core} → IsHeld k t c → d ≡ c → Holds d
  same_hold h q = subst Holds (sym q) (inr h)

  closed_hold : (c : Core) {d : Core} → d ≡ closed c → Holds d
  closed_hold c q = inl (inl (ap (λ (x : Core). x.session) q))

  EndsIf-hold : (P : Type 0) {c d : Core} → IsHeld k t c → EndsIf P c d → Holds d
  EndsIf-hold P {c} h (inl (p, q)) = closed_hold c q
  EndsIf-hold P h (inr (p, q)) = same_hold h q

  Applies-hold :
      (now : ℕ) (e : PhysicalEvent) {c d : Core}
      → IsSound c
      → IsHeld k t c
      → c.paused ≡ false
      → Applies now e c d
      → Holds d
  Applies-hold now e {c} h held on (m, o, applies, inr (inside, reported, q)) =
      closed_hold (record c { state = m; tracker = track_outcome o now c.tracker }) q
  Applies-hold now e {c} h held on (m, o, applies, inl q) =
      let (_, applied) =
        apply_result c.state m e.mapping_id e.action (validated e.confidence) o h.well_formed
          applies in
      subst Holds (sym q)
        (elim (edge-hold c.state m e.mapping_id e.action (validated e.confidence) now o c.tracker k
          t applied (h.tracked on k) held.since) [
            | inl up ↦ inl (inr up)
            | inr kept ↦
                inr (record { session = held.session; in_session = held.in_session; since = kept })
          ])

  Handles-hold :
      (now : ℕ) (e : PhysicalEvent) {c d : Core}
      → IsSound c
      → IsHeld k t c
      → Handles now e c d
      → Holds d
  Handles-hold now e h held (inl (off, q)) = same_hold held q
  Handles-hold now e h held (inr (on, f)) = Applies-hold now e h held on f

  Renews-hold : (now j : ℕ) (id : Str) {c d : Core} → IsHeld k t c → Renews now j id c d → Holds d
  Renews-hold now j id held (inl (s, e, mine, named, q)) = subst Holds (sym q) (
      inr (record {
        session = record s { last_heartbeat = now };
        in_session = refl;
        since = held.since;
      }))
  Renews-hold now j id held (inr (other, q)) = same_hold held q

  Asks-hold :
      (now : ℕ) (uuid : Str) (j : ℕ) (x : Handshake) {c d : Core}
      → IsHeld k t c
      → Asks now uuid j x c d
      → Holds d
  Asks-hold now uuid j x held (inl (a, free, f)) = absurd (cc (held.in_session, free))
  Asks-hold now uuid j x held (inr (a, q)) = same_hold held q

  Follows-hold :
      {S : Type 0} (now : ℕ) (uuid : Str) (w : Wake S) {c d : Core}
      → IsSound c
      → IsHeld k t c
      → Follows now uuid w c d
      → Holds d
  Follows-hold now uuid (command (BrokerCommand.input e)) h held f = Handles-hold now e h held f
  Follows-hold now uuid (command (BrokerCommand.register s)) h held f = same_hold held f
  Follows-hold now uuid (command (BrokerCommand.unregister j)) h held f = EndsIf-hold _ held f
  Follows-hold now uuid (command (BrokerCommand.handshake j x)) h held f =
      Asks-hold now uuid j x held f
  Follows-hold now uuid (command (BrokerCommand.heartbeat j id)) h held f =
      Renews-hold now j id held f
  Follows-hold now uuid (command (BrokerCommand.revoke_session reason)) h held f =
      EndsIf-hold _ held f
  Follows-hold now uuid (command (BrokerCommand.focus_changed p)) h held f = EndsIf-hold _ held f
  Follows-hold now uuid ticked h held f = EndsIf-hold _ held f

module _ {S B : Type 0} ⦃ch : Channel S⦄ ⦃be : Backend B⦄ where
  -- After some of the rounds the switch is up, or the session is over.
  abbrev pub Freed : Str → Runtime S B → List (Round S) → Type 0
  Freed k = Reaches (λ q. IsFree k (core q))

  -- The user is never trapped: in any run from a sound broker in a session, with a switch that the
  -- tracker times since `t`, the switch is up or the session over after some of the rounds; or else the
  -- run does not panic, and a tick four seconds after `t` or later closes the broker: no session, capture
  -- off, every switch up.
  pub run-escape :
      (r : Runtime S B) (rounds : List (Round S)) (k : Str) (t now : ℕ)
      → Sound r
      → IsHeld k t (core r)
      → from_millis 4000 ≤ now - t
      → Freed k r rounds
        ⊎ ((r' : Runtime S B) × (run r rounds ≡ some r') × IsClosed (core (tick r' now)))
  unfolding run
  run-escape r [] k t now h held late =
      inr (r, refl, tick-escape r now held.session k t held.in_session held.since late)
  run-escape r (x ∷ xs) k t now h held late =
      let (q, e, follows) = step-Follows r x.now x.uuid x.wake h in
      let (q', e', sound') = step-Sound r x.now x.uuid x.wake h in
      let sound = subst Sound (some_inj (sym e' ∙ e)) sound' in
      elim (Follows-hold k t x.now x.uuid x.wake h held follows) [
        | inl free ↦ inl (Reaches-first (λ y. IsFree k (core y)) r q x xs e free)
        | inr still ↦ elim (run-escape q xs k t now sound still late) [
          | inl freed ↦ inl (Reaches-later (λ y. IsFree k (core y)) r q x xs e freed)
          | inr (r', g, closed_in) ↦ inr (r', after_round r q x xs (some r') e g, closed_in)
        ]
      ]
