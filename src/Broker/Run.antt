-- ===== src/Broker/Run.antt =====
-- The loop of crates/usahp-daemon/src/broker.rs from its start, and the broker's invariant.
use mathlib.Core.Option
use usahp_core.Base.{
  ℕ, ◌≡◌, refl, sym, ap, ◌∙◌, Bool, true, false, not, ◌||◌, List, [], ◌∷◌, Option, none, some,
  if◌then◌else◌,
}
use usahp_core.Str.{Str}
use usahp_core.Collections.HashMap
use usahp_core.Protocol.Float.{F32}
use usahp_core.Config.{Mapping}
use usahp_core.State.{apply}
use usahp_core.State.Invariant.{IsWellFormed, new-IsWellFormed, apply-IsWellFormed}
use usahp_core.State.Release.{new-IsAllReleased}
use usahp_core.Channel.{Channel}
use usahp_core.Capture.{Backend, new_enabled}
use usahp_core.Broker.Types.{Runtime, PhysicalEvent, BrokerCommand, start}
use usahp_core.Broker.Cases.{validated}
use usahp_core.Broker.Loop.{after_apply, on_command, Wake, command, ticked, Round, step, run}
use usahp_core.Broker.Core.{core}
use usahp_core.Broker.Refine.Rounds.{step-Moves}
use usahp_core.Broker.Invariant.{IsSound, Moves-IsSound}

abbrev pub Sound : {S B : Type 0} → Runtime S B → Type 0
Sound r = IsSound (core r)

-- The broker that `run` starts with is sound.
pub start-IsSound :
    (S : Type 0) {B : Type 0} (mappings : List Mapping) (backends : List B) (now : ℕ)
    → Sound {S = S} {B = B} (start mappings (new_enabled backends) now)
unfolding start new_enabled HashMap.get
start-IsSound S mappings backends now = record {
  well_formed = new-IsWellFormed mappings;
  flag = refl;
  idle = λ p. absurd (cc (p));
  quiet = λ p. absurd (cc (p));
  tracked = λ p k. sym (new-IsAllReleased mappings k);
}

module _ {S B : Type 0} ⦃ch : Channel S⦄ ⦃be : Backend B⦄ where
  gate-total :
      (r : Runtime S B) (now : ℕ) (e : PhysicalEvent) (v : Option F32) (b : Bool)
      → IsWellFormed r.state
      → (r' : Runtime S B) × ((if b
            then some r
            else Option.map (after_apply r now) (apply r.state e.mapping_id e.action v))
          ≡ some r')
  gate-total r now e v true h = (r, refl)
  gate-total r now e v false h =
      let (x, same, _) = apply-IsWellFormed r.state e.mapping_id e.action v h in
      (after_apply r now x, ap (λ o. Option.map (after_apply r now) o) same)

  command-total :
      (r : Runtime S B) (now : ℕ) (uuid : Str) (c : BrokerCommand S)
      → IsWellFormed r.state
      → (r' : Runtime S B) × (on_command r now uuid c ≡ some r')
  unfolding on_command
  command-total r now uuid (BrokerCommand.input e) h =
      gate-total r now e (validated e.confidence) (r.paused || not r.capture.enabled) h
  command-total r now uuid (BrokerCommand.register s) h = (_, refl)
  command-total r now uuid (BrokerCommand.unregister k) h = (_, refl)
  command-total r now uuid (BrokerCommand.handshake k hs) h = (_, refl)
  command-total r now uuid (BrokerCommand.heartbeat k id) h = (_, refl)
  command-total r now uuid (BrokerCommand.revoke_session reason) h = (_, refl)
  command-total r now uuid (BrokerCommand.focus_changed p) h = (_, refl)

  -- A round of a sound broker, whatever wakes it, does not panic and leaves a sound broker.
  pub step-Sound :
      (r : Runtime S B) (now : ℕ) (uuid : Str) (w : Wake S)
      → Sound r
      → (r' : Runtime S B) × (step r now uuid w ≡ some r') × Sound r'
  unfolding step
  step-Sound r now uuid (command c) h =
      let (r', e) = command-total r now uuid c h.well_formed in
      (r', e, Moves-IsSound h (step-Moves r r' now uuid (command c) e))
  step-Sound r now uuid ticked h = (_, refl, Moves-IsSound h (step-Moves r _ now uuid ticked refl))

  run-Sound :
      (r : Runtime S B) (rounds : List (Round S))
      → Sound r
      → (r' : Runtime S B) × (run r rounds ≡ some r') × Sound r'
  unfolding run
  run-Sound r [] h = (r, refl, h)
  run-Sound r (x ∷ xs) h =
      let (r', e, h') = step-Sound r x.now x.uuid x.wake h in
      let (r'', e', h'') = run-Sound r' xs h' in
      (r'', ap (λ o. elim o [ none ↦ none | some q ↦ run q xs ]) e ∙ e', h'')

  -- The loop, from its start with any mappings and through any rounds, does not panic; and then:
  -- capture is on exactly while the broker is not paused; a paused broker has no session and no
  -- switch down; and else the escape tracker has an entry for exactly the switches that are down.
  pub run-start-Sound :
      (mappings : List Mapping) (backends : List B) (now : ℕ) (rounds : List (Round S))
      → (r' : Runtime S B) × (run (start mappings (new_enabled backends) now) rounds ≡ some r')
        × Sound r'
  run-start-Sound mappings backends now rounds =
      run-Sound (start mappings (new_enabled backends) now) rounds
        (start-IsSound S mappings backends now)
