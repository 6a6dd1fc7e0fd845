-- ===== src/Broker/Picture/Runs.antt =====
-- The pictures of the clients over the rounds of crates/usahp-daemon/src/broker.rs.
use usahp_core.Base.{ℕ, ◌≡◌, refl, ◌∙◌, ap, subst, List, [], ◌∷◌, none, some, some_inj}
use usahp_core.Str.{Str, str_eq}
use usahp_core.Config.{Mapping}
use usahp_core.State.Invariant.{IsWellFormed}
use usahp_core.Channel.{Channel}
use usahp_core.Capture.{Backend, new_enabled}
use usahp_core.Broker.Types.{Runtime, BrokerCommand, start}
use usahp_core.Broker.Loop.{step, on_command, Wake, command, ticked, Round, run}
use usahp_core.Broker.Run.{Sound, start-IsSound, step-Sound}
use usahp_core.Broker.Picture.{IsSeen}
use usahp_core.Broker.Picture.Sessions.{revoke-IsSeen, unregister-IsSeen}
use usahp_core.Broker.Picture.Opened.{handshake-IsSeen}
use usahp_core.Broker.Picture.Rounds.{
  IsTimely, register-IsSeen, input-IsSeen, tick-IsSeen, focus_changed-IsSeen, heartbeat-IsSeen,
}

module _ {S B : Type 0} ⦃ch : Channel S⦄ ⦃be : Backend B⦄ where
  step-IsSeen :
      (r r' : Runtime S B) (now : ℕ) (uuid : Str) (w : Wake S)
      → IsTimely r w
      → IsWellFormed r.state
      → IsSeen r
      → step r now uuid w ≡ some r'
      → IsSeen r'
  unfolding step on_command
  step-IsSeen r r' now uuid (command (BrokerCommand.input x)) t well h q =
      input-IsSeen r r' now x well h q
  step-IsSeen r r' now uuid (command (BrokerCommand.register s)) t well h q =
      subst IsSeen (some_inj q) (register-IsSeen r s t h)
  step-IsSeen r r' now uuid (command (BrokerCommand.unregister k)) t well h q =
      subst IsSeen (some_inj q) (unregister-IsSeen r now k h)
  step-IsSeen r r' now uuid (command (BrokerCommand.handshake k x)) t well h q =
      subst IsSeen (some_inj q) (handshake-IsSeen r now uuid k x h)
  step-IsSeen r r' now uuid (command (BrokerCommand.heartbeat k id)) t well h q =
      subst IsSeen (some_inj q) (heartbeat-IsSeen r now k id h)
  step-IsSeen r r' now uuid (command (BrokerCommand.revoke_session reason)) t well h q =
      subst IsSeen (some_inj q) (revoke-IsSeen r now reason h)
  step-IsSeen r r' now uuid (command (BrokerCommand.focus_changed pid)) t well h q =
      subst IsSeen (some_inj q) (focus_changed-IsSeen r now pid h)
  step-IsSeen r r' now uuid ticked t well h q = subst IsSeen (some_inj q) (tick-IsSeen r now h)

  -- In no round of a run does a `Hello` go out while a session has a switch down.
  abbrev pub AreTimely : Runtime S B → List (Round S) → Type 0
  AreTimely r [] = Unit
  AreTimely r (x ∷ xs) =
      IsTimely r x.wake
      × elim (step r x.now x.uuid x.wake) [ none ↦ Unit | some r' ↦ AreTimely r' xs ]

  run-IsSeen :
      (r : Runtime S B) (rounds : List (Round S))
      → AreTimely r rounds
      → Sound r
      → IsSeen r
      → (r' : Runtime S B) × (run r rounds ≡ some r') × IsSeen r'
  unfolding run
  run-IsSeen r [] t sound h = (r, refl, h)
  run-IsSeen r (x ∷ xs) t sound h =
      let (r', e, sound') = step-Sound r x.now x.uuid x.wake sound in
      let h' = step-IsSeen r r' x.now x.uuid x.wake t.0 sound.well_formed h e in
      let t' = subst (λ o. elim o [ none ↦ Unit | some q ↦ AreTimely q xs ]) e t.1 in
      let (r'', e', h'') = run-IsSeen r' xs t' sound' h' in
      (r'', ap (λ o. elim o [ none ↦ none | some q ↦ run q xs ]) e ∙ e', h'')

  start-IsSeen :
      (mappings : List Mapping) (backends : List B) (now : ℕ)
      → IsSeen {S = S} (start mappings (new_enabled backends) now)
  unfolding start
  start-IsSeen mappings backends now = record {
    pictured = record { at = λ k s e. absurd (cc (e)) };
    rests = λ p. absurd (cc (p));
  }

  -- The loop, from its start and through any rounds in which no `Hello` goes out while a session has a
  -- switch down, does not panic, and in the end every client that is still there has the right picture
  -- of the switches, if it writes the events it was sent over the snapshots of its `Hello`: outside a
  -- session, and for the session's own client, the machine's own snapshots; for the other clients of a
  -- session, the same switches with all of them up. While the broker is paused, the two are the same.
  pub run-start-IsSeen :
      (mappings : List Mapping) (backends : List B) (now : ℕ) (rounds : List (Round S))
      → AreTimely (start mappings (new_enabled backends) now) rounds
      → (r' : Runtime S B) × (run (start mappings (new_enabled backends) now) rounds ≡ some r')
        × IsSeen r'
  run-start-IsSeen mappings backends now rounds timely =
      run-IsSeen (start mappings (new_enabled backends) now) rounds timely
        (start-IsSound S mappings backends now) (start-IsSeen mappings backends now)
