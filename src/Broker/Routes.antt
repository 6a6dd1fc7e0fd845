-- ===== src/Broker/Routes.antt =====
-- Where the mappings lead in the state machine of crates/usahp-daemon/src/broker.rs, over a run.
use usahp_core.Base.{some_inj, ℕ, ◌≡◌, refl, sym, ◌∙◌, ap, List, [], ◌∷◌, Option, some}
use usahp_core.Str.{Str, str_eq}
use usahp_core.Protocol.Float.{F32}
use usahp_core.Protocol.{Action}
use usahp_core.Config.{Mapping}
use usahp_core.State.{SwitchStateMachine, Outcome, ok, err, new}
use usahp_core.State.Edges.{Applied, switch_of}
use usahp_core.State.Release.{release_all_lem}
use usahp_core.Channel.{Channel}
use usahp_core.Capture.{Backend, new_enabled}
use usahp_core.Broker.Types.{Runtime, start}
use usahp_core.Broker.Loop.{Round, run}
use usahp_core.Broker.Core.{
  Core, Move, edge, open_first, open_again, abandon_first, abandon_again, beats, close, Moves, stay,
  next,
}
use usahp_core.Broker.Refine.Rounds.{step-Moves}
use usahp_core.Broker.Invariant.{IsSound, Moves-IsSound, apply_result}
use usahp_core.Broker.Run.{Sound, start-IsSound, step-Sound}

-- The mappings of the second machine lead where those of the first do.
abbrev SameRoutes : SwitchStateMachine → SwitchStateMachine → Type 0
SameRoutes m n = (id : Str) → switch_of n id ≡ switch_of m id

apply-SameRoutes :
    (m n : SwitchStateMachine) (id : Str) (a : Action) (v : Option F32) (o : Outcome)
    → Applied m id a v (some (n, o))
    → SameRoutes m n
apply-SameRoutes m n id a v (ok t) h j = h.routes j
apply-SameRoutes m n id a v (err x) h j = ap (λ x. switch_of x j) h.0

moved : (c : Core) {d e : Core} → d ≡ e → SameRoutes c.state e.state → SameRoutes c.state d.state
moved c q h id = ap (λ (x : Core). switch_of x.state id) q ∙ h id

Move-SameRoutes : {c d : Core} → Move c d → IsSound c → SameRoutes c.state d.state
Move-SameRoutes {c} (edge id a v now m o p e q) h =
    moved c q
      (apply-SameRoutes c.state m id a v o (apply_result c.state m id a v o h.well_formed e).1)
Move-SameRoutes {c} (open_first s p e q) h = moved c q (release_all_lem c.state).2
Move-SameRoutes {c} (open_again s p e q) h = moved c q (λ id. refl)
Move-SameRoutes {c} (abandon_first p e q) h = moved c q (release_all_lem c.state).2
Move-SameRoutes {c} (abandon_again p q) h = moved c q (λ id. refl)
Move-SameRoutes {c} (beats s now e q) h = moved c q (λ id. refl)
Move-SameRoutes {c} (close s e q) h = moved c q (release_all_lem c.state).2

Moves-SameRoutes : {c d : Core} → IsSound c → Moves c d → SameRoutes c.state d.state
Moves-SameRoutes h stay id = refl
Moves-SameRoutes h (next p m) id =
    Move-SameRoutes m (Moves-IsSound h p) id ∙ Moves-SameRoutes h p id

module _ {S B : Type 0} ⦃ch : Channel S⦄ ⦃be : Backend B⦄ where
  run-SameRoutes :
      (r r' : Runtime S B) (rounds : List (Round S))
      → Sound r
      → run r rounds ≡ some r'
      → SameRoutes r.state r'.state
  unfolding run
  run-SameRoutes r r' [] h q id = ap (λ (x : Runtime S B). switch_of x.state id) (some_inj (sym q))
  run-SameRoutes r r' (x ∷ xs) h q id =
      let (n, e, sound) = step-Sound r x.now x.uuid x.wake h in
      run-SameRoutes n r' xs sound (rw (e, run) at q) id
      ∙ Moves-SameRoutes h (step-Moves r n x.now x.uuid x.wake e) id

  -- In every state of a run the mappings lead where they led at its start.
  pub run-start-SameRoutes :
      (mappings : List Mapping) (backends : List B) (now : ℕ) (rounds : List (Round S))
      (r : Runtime S B)
      → run (start mappings (new_enabled backends) now) rounds ≡ some r
      → (id : Str) → switch_of r.state id ≡ switch_of (new mappings) id
  unfolding start
  run-start-SameRoutes mappings backends now rounds r q id =
      run-SameRoutes (start mappings (new_enabled backends) now) r rounds
        (start-IsSound S mappings backends now) q id
