-- ===== src/Broker/Invariant.antt =====
-- The invariant of the broker of crates/usahp-daemon/src/broker.rs, over all rounds of its loop.
use usahp_core.Base.{
  ℕ, ◌≡◌, inl, inr, refl, sym, ap, subst, ◌∙◌, true, false, not, [], Option, none, some, arith,
  ◌==◌, eq_iff, Bool-cases,
}
use usahp_core.Str.{Str, str_eq}
use usahp_core.Collections.HashMap
use usahp_core.Collections.HashMap.{HashMap, get-insert, get-remove}
use usahp_core.Protocol.Float.{F32}
use usahp_core.Protocol.{Action}
use usahp_core.State.{SwitchStateMachine, Outcome, ok, err, apply}
use usahp_core.State.Invariant.{IsWellFormed, apply-IsWellFormed, release_all-IsWellFormed}
use usahp_core.State.Edges.{Applied, apply-Applied, is_down}
use usahp_core.State.Release.{IsAllReleased, release_all_lem}
use usahp_core.Broker.Core.{
  Core, released, track_outcome, Move, edge, open_first, open_again, abandon_first, abandon_again,
  beats, close, Moves, stay, next,
}

pub record IsSound (c : Core) : Type 0 where
  -- The switches can be worked with.
  pub well_formed : IsWellFormed c.state
  -- Capture is on exactly while the broker is not paused.
  pub flag : c.enabled ≡ not c.paused
  -- A paused broker has no session, and no switch is down.
  pub idle : c.paused ≡ true → c.session ≡ none
  pub quiet : c.paused ≡ true → IsAllReleased c.state
  -- Else the escape tracker has an entry for exactly the switches that are down.
  pub tracked : c.paused ≡ false → (k : Str) → HashMap.contains_key k c.tracker ≡ is_down c.state k

-- A tracker that fits the switches that are down.
abbrev Fits : HashMap Str ℕ → SwitchStateMachine → Type 0
Fits tracker m = (k : Str) → HashMap.contains_key k tracker ≡ is_down m k

pub released-quiet : (m : SwitchStateMachine) → IsAllReleased (released m)
released-quiet m = (release_all_lem m).1

empty-Fits : (m : SwitchStateMachine) → IsAllReleased m → Fits [] m
unfolding HashMap.get
empty-Fits m h k = sym (h k)

-- An edge keeps the tracker fitting.
edge-Fits :
    (m m' : SwitchStateMachine) (id : Str) (a : Action) (v : Option F32) (now : ℕ) (o : Outcome)
    (tracker : HashMap Str ℕ)
    → Applied m id a v (some (m', o))
    → Fits tracker m
    → Fits (track_outcome o now tracker) m'
edge-Fits m m' id a v now (err x) tracker h f k = f k ∙ ap (λ n. is_down n k) (sym h.0)
edge-Fits m m' id a v now (ok none) tracker h f k = elim (Bool-cases (k == h.switch)) [
  | inl e ↦ ground (arith, f k, h.moved, eq_iff k h.switch)
  | inr e ↦ f k ∙ sym (h.others k (λ q. cc (e, (eq_iff k h.switch).1 q)))
]
edge-Fits m m' id Action.pressed v now (ok (some t)) tracker h f k =
    elim (Bool-cases (k == h.switch)) [
      | inl e ↦ ground (
        arith,
        h.moved,
        eq_iff k h.switch,
        eq_iff t.switch_id k,
        get-insert k t.switch_id now tracker,
      )
      | inr e ↦ ground (
        arith,
        h.moved,
        f k,
        h.others k (λ q. cc (e, (eq_iff k h.switch).1 q)),
        eq_iff k h.switch,
        eq_iff t.switch_id k,
        get-insert k t.switch_id now tracker,
      )
    ]
edge-Fits m m' id Action.released v now (ok (some t)) tracker h f k =
    elim (Bool-cases (k == h.switch)) [
      | inl e ↦ ground (
        arith,
        h.moved,
        eq_iff k h.switch,
        eq_iff t.switch_id k,
        get-remove k t.switch_id tracker,
      )
      | inr e ↦ ground (
        arith,
        h.moved,
        f k,
        h.others k (λ q. cc (e, (eq_iff k h.switch).1 q)),
        eq_iff k h.switch,
        eq_iff t.switch_id k,
        get-remove k t.switch_id tracker,
      )
    ]

pub apply_result :
    (m m' : SwitchStateMachine) (id : Str) (a : Action) (v : Option F32) (o : Outcome)
    → IsWellFormed m
    → apply m id a v ≡ some (m', o)
    → IsWellFormed m' × Applied m id a v (some (m', o))
apply_result m m' id a v o h e =
    let (r, same, keeps) = apply-IsWellFormed m id a v h in
    let q : r ≡ (m', o) = cc (same, e) in
    (subst (λ x. IsWellFormed x.0) q keeps, subst (Applied m id a v) e (apply-Applied m id a v h))

-- Every move keeps the invariant.
Move-IsSound : {c d : Core} → Move c d → IsSound c → IsSound d
Move-IsSound {c} {d} (edge id a v now m o p e q) h =
    let (keeps, applied) = apply_result c.state m id a v o h.well_formed e in
    subst IsSound (sym q) (record {
      well_formed = keeps;
      flag = h.flag;
      idle = h.idle;
      quiet = λ paused. absurd (cc (paused, p));
      tracked = λ on. edge-Fits c.state m id a v now o c.tracker applied (h.tracked on);
    })
Move-IsSound {c} {d} (open_first s p e q) h = subst IsSound (sym q) (record {
  well_formed = release_all-IsWellFormed c.state h.well_formed;
  flag = h.flag;
  idle = λ paused. absurd (cc (paused, p));
  quiet = λ paused. released-quiet c.state;
  tracked = λ on. empty-Fits (released c.state) (released-quiet c.state);
})
Move-IsSound {c} {d} (open_again s p e q) h = subst IsSound (sym q) (record {
  well_formed = h.well_formed;
  flag = refl;
  idle = λ paused. absurd (cc (paused));
  quiet = λ paused. absurd (cc (paused));
  tracked = λ on. empty-Fits c.state (h.quiet p);
})
Move-IsSound {c} {d} (abandon_first p e q) h = subst IsSound (sym q) (record {
  well_formed = release_all-IsWellFormed c.state h.well_formed;
  flag = refl;
  idle = λ paused. e;
  quiet = λ paused. released-quiet c.state;
  tracked = λ on. absurd (cc (on));
})
Move-IsSound {c} {d} (abandon_again p q) h = subst IsSound (sym q) (record {
  well_formed = h.well_formed;
  flag = ap not (sym p);
  idle = h.idle;
  quiet = h.quiet;
  tracked = h.tracked;
})
Move-IsSound {c} {d} (beats s now e q) h = subst IsSound (sym q) (record {
  well_formed = h.well_formed;
  flag = h.flag;
  idle = λ paused. absurd (cc (h.idle paused, e));
  quiet = h.quiet;
  tracked = h.tracked;
})
Move-IsSound {c} {d} (close s e q) h = subst IsSound (sym q) (record {
  well_formed = release_all-IsWellFormed c.state h.well_formed;
  flag = refl;
  idle = λ paused. refl;
  quiet = λ paused. released-quiet c.state;
  tracked = λ on. absurd (cc (on));
})

pub Moves-IsSound : {c d : Core} → IsSound c → Moves c d → IsSound d
Moves-IsSound h stay = h
Moves-IsSound h (next p m) = Move-IsSound m (Moves-IsSound h p)
