-- ===== src/Broker/Cases.antt =====
-- A split of `input` of crates/usahp-daemon/src/broker.rs.
use mathlib.Core.Option
use usahp_core.Base.{
  arith, ℕ, ◌≡◌, inl, inr, subst, false, not, ◌||◌, Option, none, some, some_inj, Bool-cases,
  Option-cases,
}
use usahp_core.Protocol.Float.{F32}
use usahp_core.Protocol.Confidence.{validate_confidence}
use usahp_core.State.{SwitchStateMachine, Outcome, apply}
use usahp_core.Channel.{Channel}
use usahp_core.Capture.{Backend}
use usahp_core.Broker.Types.{Runtime, PhysicalEvent}
use usahp_core.Broker.Loop.{after_apply, input}

-- The confidence of an event, if it passes the check.
abbrev pub validated : Option F32 → Option F32
validated none = none
validated (some value) = validate_confidence value

module _ {S B : Type 0} ⦃ch : Channel S⦄ ⦃be : Backend B⦄ where
  -- An input that does not panic leaves the runtime, or the broker is not paused and goes on with what
  -- `apply` returns.
  pub input_cases {ℓ} :
      (P : Runtime S B → Type ℓ) (r r' : Runtime S B) (now : ℕ) (e : PhysicalEvent)
      → P r
      → ((o : SwitchStateMachine × Outcome)
          → r.paused ≡ false
          → apply r.state e.mapping_id e.action (validated e.confidence) ≡ some o
          → P (after_apply r now o))
      → input r now e ≡ some r'
      → P r'
  unfolding input
  input_cases P r r' now e same went q = elim (Bool-cases (r.paused || not r.capture.enabled)) [
    | inl off ↦ subst P (some_inj (rw off at q)) same
    | inr on ↦ applied (ground arith) (rw on at q)
  ]
    where
      applied :
          r.paused ≡ false
          → Option.map
              (after_apply r now)
              (apply r.state e.mapping_id e.action (validated e.confidence))
            ≡ some r'
          → P r'
      applied on q =
          elim (Option-cases (apply r.state e.mapping_id e.action (validated e.confidence))) [
            | inl panics ↦ absurd (cc (rw panics at q))
            | inr (o, applies) ↦ subst P (some_inj (rw applies at q)) (went o on applies)
          ]
