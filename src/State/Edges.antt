-- ===== src/State/Edges.antt =====
-- The abstract view of a state machine of crates/usahp-core/src/state.rs: which mappings are held and
-- which switches are down, before and after `apply`.
use usahp_core.Base.{
  suc, ◌≡◌, ◌≢◌, ◌⊎◌, inl, inr, refl, Bool, true, false, not, [], ◌∷◌, Option, none, some, arith,
  ◌==◌, eq_iff, eq_refl, nat_eqb, if◌then◌else◌, length, is_some_and, Bool-cases, Option-cases,
}
use usahp_core.Str.{Str, str_eq}
use usahp_core.Collections.HashMap
use usahp_core.Collections.BTreeMap
use usahp_core.Collections.BTreeMap.{get-set}
use usahp_core.Collections.BTreeSet
use usahp_core.Collections.BTreeSet.{
  BTreeSet, is_empty, contains-insert, contains-remove, length-insert, insert-not_empty,
  contains-not_empty,
}
use usahp_core.Protocol.Float.{F32}
use usahp_core.Protocol.{Action}
use usahp_core.State.{
  LogicalTransition, StateError, SwitchStateMachine, Outcome, ok, err, unknown_mapping,
  invalid_transition, apply, apply_edge, with_active,
}
use usahp_core.State.Invariant.{IsWellFormed, apply_cases}

-- The switch that a mapping leads to.
abbrev pub switch_of : SwitchStateMachine → Str → Option Str
switch_of m id = HashMap.get id m.mapping_to_switch

-- Is some mapping of the switch held?
abbrev pub is_down : SwitchStateMachine → Str → Bool
is_down m k = is_some_and (λ s. not (is_empty s)) (BTreeMap.get k m.active_by_switch)

-- Is the mapping held?
abbrev pub is_held : SwitchStateMachine → Str → Bool
is_held m id =
    is_some_and (λ k. is_some_and (λ s. BTreeSet.contains id s) (BTreeMap.get k m.active_by_switch))
      (switch_of m id)

abbrev pub is_press : Action → Bool
is_press Action.pressed = true
is_press Action.released = false

-- What one successful edge did: the mapping was on the other side before and is where the action
-- says after; no other switch moved; and a transition is reported exactly if this switch moved.
pub record Edge (m m' : SwitchStateMachine) (id : Str) (a : Action) (c : Option F32)
    (t : Option LogicalTransition) : Type 0 where
  pub switch : Str
  pub leads : switch_of m id ≡ some switch
  pub routes : (j : Str) → switch_of m' j ≡ switch_of m j
  pub was : is_held m id ≡ not (is_press a)
  pub held : (j : Str) → is_held m' j ≡ (if id == j then is_press a else is_held m j)
  pub others : (j : Str) → j ≢ switch → is_down m' j ≡ is_down m j
  pub moved :
      ((is_down m switch ≡ true) × (is_down m' switch ≡ true) × (t ≡ none))
      ⊎ (is_down m switch ≡ not (is_press a))
        × (is_down m' switch ≡ is_press a)
        × (t ≡ some (record { switch_id = switch; action = a; confidence = c }))

length_one : (s : BTreeSet) → nat_eqb (suc (length s)) 1 ≡ is_empty s
length_one [] = refl
length_one (x ∷ s) = ground arith

-- The first of a set is reported, the others are not.
pub first_reported :
    (id : Str) (s : BTreeSet)
    → BTreeSet.contains id s ≡ false
    → nat_eqb (length (BTreeSet.insert id s)) 1 ≡ is_empty s
first_reported id s new = rw (length-insert id s new) (length_one s)

module _ (m : SwitchStateMachine) (id k : Str) (s s' : BTreeSet) (e : switch_of m id ≡ some k)
    (f : BTreeMap.get k m.active_by_switch ≡ some s) where
  held_after :
      (b : Bool) (j : Str)
      → BTreeSet.contains j s' ≡ (if id == j then b else BTreeSet.contains j s)
      → is_held (with_active m k s') j ≡ (if id == j then b else is_held m j)
  held_after b j h = elim (Option-cases (switch_of m j)) [
    | inl out ↦ rw out (ground (arith, eq_iff id j))
    | inr (k', to) ↦
        rw to (ground (arith, get-set k' k s' m.active_by_switch, eq_iff k k', eq_iff id j))
  ]

  others_after : (j : Str) → j ≢ k → is_down (with_active m k s') j ≡ is_down m j
  others_after j h = ground (arith, eq_iff k j, get-set j k s' m.active_by_switch)

  down_after : is_down (with_active m k s') k ≡ not (is_empty s')
  down_after = ground (arith, eq_refl k, get-set k k s' m.active_by_switch)

  module _ (c : Option F32) where
    pressed-Edge :
        s' ≡ BTreeSet.insert id s
        → BTreeSet.contains id s ≡ false
        → Edge m (with_active m k s') id Action.pressed c (
            if nat_eqb (length s') 1
            then some (record { switch_id = k; action = Action.pressed; confidence = c })
            else none)
    pressed-Edge q new = record {
      switch = k;
      leads = e;
      routes = λ j. refl;
      was = rw (e, f) new;
      held = λ j. held_after true j (rw q (ground (arith, contains-insert id j s)));
      others = others_after;
      moved = ground (arith, first_reported id s new, insert-not_empty id s, down_after);
    }

    released-Edge :
        s' ≡ BTreeSet.remove id s
        → BTreeSet.contains id s ≡ true
        → Edge m (with_active m k s') id Action.released c (
            if is_empty s'
            then some (record { switch_id = k; action = Action.released; confidence = c })
            else none)
    released-Edge q old = record {
      switch = k;
      leads = e;
      routes = λ j. refl;
      was = rw (e, f) old;
      held = λ j. held_after false j (rw q (ground (arith, contains-remove id j s)));
      others = others_after;
      moved = ground (arith, contains-not_empty id s, down_after);
    }

-- Why an edge is refused.
abbrev pub Refusal : SwitchStateMachine → Str → Action → StateError → Type 0
Refusal m id a (unknown_mapping j) = (switch_of m id ≡ none) × (j ≡ id)
Refusal m id a (invalid_transition j b) = (is_held m id ≡ is_press a) × (j ≡ id) × (b ≡ a)

abbrev pub Applied :
    SwitchStateMachine → Str → Action → Option F32 → Option (SwitchStateMachine × Outcome) → Type 0
Applied m id a c none = ⊥
Applied m id a c (some (m', ok t)) = Edge m m' id a c t
Applied m id a c (some (m', err x)) = (m' ≡ m) × Refusal m id a x

apply_edge-Applied :
    (m : SwitchStateMachine) (id k : Str) (s : BTreeSet) (a : Action) (c : Option F32)
    → switch_of m id ≡ some k
    → BTreeMap.get k m.active_by_switch ≡ some s
    → Applied m id a c (some (apply_edge m id k s a c))
unfolding apply_edge
apply_edge-Applied m id k s Action.pressed c e f = elim (Bool-cases (BTreeSet.contains id s)) [
  | inl old ↦ rw old (refl, (rw (e, f) old, refl, refl))
  | inr new ↦ rw new (pressed-Edge m id k s (BTreeSet.insert id s) e f c refl new)
]
apply_edge-Applied m id k s Action.released c e f = elim (Bool-cases (BTreeSet.contains id s)) [
  | inl old ↦ rw old (released-Edge m id k s (BTreeSet.remove id s) e f c refl old)
  | inr new ↦ rw new (refl, (rw (e, f) new, refl, refl))
]

-- `apply` on a well-formed machine, every branch: it does not panic; it refuses a mapping that is
-- not configured, and one that is already where the action says, and then changes nothing; else it
-- moves that mapping alone, and reports a transition exactly if the mapping's switch moved.
pub apply-Applied :
    (m : SwitchStateMachine) (id : Str) (a : Action) (c : Option F32)
    → IsWellFormed m
    → Applied m id a c (apply m id a c)
apply-Applied m id a c h =
    apply_cases (Applied m id a c) m id a c h (λ e. (refl, (e, refl)))
      (λ k s e f. apply_edge-Applied m id k s a c e f)
