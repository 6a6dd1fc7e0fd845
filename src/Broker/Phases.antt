-- ===== src/Broker/Phases.antt =====
-- The phases of the broker of crates/usahp-daemon/src/broker.rs: before the first session, in a
-- session, and paused.
use usahp_core.Base.{ℕ, ◌≡◌, ◌≢◌, refl, sym, subst, Bool, true, false, Option, none, some}
use usahp_core.Str.{Str}
use usahp_core.Channel.{Channel}
use usahp_core.Capture.{Backend}
use usahp_core.Broker.Types.{Runtime, Session}
use usahp_core.Broker.Loop.{Wake, step}
use usahp_core.Broker.Core.{
  Core, core, Move, edge, open_first, open_again, abandon_first, abandon_again, beats, close, Moves,
  stay, next,
}
use usahp_core.Broker.Invariant.{IsSound, Moves-IsSound}
use usahp_core.Broker.Refine.Rounds.{step-Moves}
use usahp_core.Broker.Run.{Sound}

pub data Phase : Type 0 where
  passive managed suspended : Phase

abbrev pub phase_of : Bool → Option Session → Phase
phase_of true o = suspended
phase_of false none = passive
phase_of false (some s) = managed

abbrev pub phase : Core → Phase
phase c = phase_of c.paused c.session

infix 40 ◌⟶◌
pub data ◌⟶◌ : Phase → Phase → Type 0 where
  same : {p : Phase} → p ⟶ p
  first : passive ⟶ managed
  lost : passive ⟶ suspended
  revoked : managed ⟶ suspended
  again : suspended ⟶ managed

pub data ◌⟶*◌ : Phase → Phase → Type 0 where
  here : {p : Phase} → ◌⟶*◌ p p
  more : {p q s : Phase} → ◌⟶*◌ p q → q ⟶ s → ◌⟶*◌ p s

Move-⟶ : {c d : Core} → IsSound c → Move c d → phase c ⟶ phase d
Move-⟶ {c} {d} h (edge id a v now m o p e q) = subst (λ x. phase c ⟶ phase x) (sym q) same
Move-⟶ {c} {d} h (open_first s p e q) =
    subst (λ x. phase c ⟶ phase x) (sym q)
      (subst (λ b. phase_of b c.session ⟶ phase_of b (some s)) (sym p)
        (subst (λ o. phase_of false o ⟶ managed) (sym e) first))
Move-⟶ {c} {d} h (open_again s p e q) =
    subst (λ x. phase c ⟶ phase x) (sym q)
      (subst (λ b. phase_of b c.session ⟶ managed) (sym p) again)
Move-⟶ {c} {d} h (abandon_first p e q) =
    subst (λ x. phase c ⟶ phase x) (sym q)
      (subst (λ b. phase_of b c.session ⟶ suspended) (sym p)
        (subst (λ o. phase_of false o ⟶ suspended) (sym e) lost))
Move-⟶ {c} {d} h (abandon_again p q) = subst (λ x. phase c ⟶ phase x) (sym q) same
Move-⟶ {c} {d} h (beats s now e q) =
    subst (λ x. phase c ⟶ phase x) (sym q)
      (subst
        (λ o. phase_of c.paused o ⟶ phase_of c.paused (some (record s { last_heartbeat = now })))
        (sym e) (keep c.paused))
  where
    keep : (b : Bool) → phase_of b (some s) ⟶ phase_of b (some (record s { last_heartbeat = now }))
    keep true = same
    keep false = same
Move-⟶ {c} {d} h (close s e q) =
    subst (λ x. phase c ⟶ phase x) (sym q)
      (subst (λ b. phase_of b c.session ⟶ suspended) (sym (on c.paused refl))
        (subst (λ o. phase_of false o ⟶ suspended) (sym e) revoked))
  where
    on : (b : Bool) → c.paused ≡ b → c.paused ≡ false
    on true p = absurd (cc (h.idle p, e))
    on false p = p

Moves-⟶* : {c d : Core} → IsSound c → Moves c d → ◌⟶*◌ (phase c) (phase d)
Moves-⟶* h stay = here
Moves-⟶* h (next p m) = more (Moves-⟶* h p) (Move-⟶ (Moves-IsSound h p) m)

left_passive : {p q : Phase} → ◌⟶*◌ p q → p ≢ passive → q ≢ passive
left_passive here h = h
left_passive (more r same) h = left_passive r h
left_passive (more r first) h = λ e. cc (e)
left_passive (more r lost) h = λ e. cc (e)
left_passive (more r revoked) h = λ e. cc (e)
left_passive (more r again) h = λ e. cc (e)

-- A round of a sound broker follows the diagram of the phases: passive to managed or suspended,
-- managed to suspended, suspended to managed. So once the passive phase is left, no round leads
-- back to it.
pub step-phases :
    {S B : Type 0} ⦃ch : Channel S⦄ ⦃be : Backend B⦄ (r r' : Runtime S B) (now : ℕ) (uuid : Str)
    (w : Wake S)
    → Sound r
    → step r now uuid w ≡ some r'
    → ◌⟶*◌ (phase (core r)) (phase (core r'))
      × (phase (core r) ≢ passive → phase (core r') ≢ passive)
step-phases r r' now uuid w h e =
    let path = Moves-⟶* h (step-Moves r r' now uuid w e) in (path, left_passive path)
