-- ===== src/State/Mirror.antt =====
-- A client of crates/usahp-core/src/state.rs's transitions: it takes the snapshots of a `Hello` and
-- writes each reported edge over them.
use usahp_core.Base.{
  sym, not, Bool, is_some_and, ◌≢◌, length, All-mono, nat_eqb, ◌≡◌, inl, inr, refl, ◌∙◌, ap, true,
  false, List, [], ◌∷◌, map, Option, none, some, arith, ◌==◌, eq_iff, if◌then◌else◌, All,
  Bool-cases,
}
use usahp_core.Str.{Str, str_eq}
use usahp_core.Collections.BTreeMap
use usahp_core.Collections.BTreeMap.{get_unique, BTreeMap}
use usahp_core.Collections.BTreeSet
use usahp_core.Collections.BTreeSet.{insert-not_empty, contains-not_empty, BTreeSet, is_empty}
use usahp_core.Protocol.Float.{F32}
use usahp_core.Protocol.{Action, SwitchState, SwitchSnapshot}
use usahp_core.State.{
  LogicalTransition, SwitchStateMachine, Outcome, ok, err, apply, apply_edge, with_active, level,
  snapshot_entry, snapshots,
}
use usahp_core.State.Invariant.{apply_cases, IsWellFormed}
use usahp_core.State.Edges.{first_reported, Applied, apply-Applied, is_down, is_press}

abbrev pub state_after : Action → SwitchState
state_after Action.pressed = SwitchState.pressed
state_after Action.released = SwitchState.released

-- One entry of a client's picture after an edge.
abbrev pub observe_entry : Str → Action → SwitchSnapshot → SwitchSnapshot
observe_entry k a x = if x.switch_id == k then record x { state = state_after a } else x

-- What a client does with an edge.
unfoldable pub observe : Str → Action → List SwitchSnapshot → List SwitchSnapshot
observe k a [] = []
observe k a (x ∷ xs) = observe_entry k a x ∷ observe k a xs

unfoldable pub observe_all : List LogicalTransition → List SwitchSnapshot → List SwitchSnapshot
unfolding observe
observe_all [] xs = xs
observe_all (t ∷ ts) xs = observe_all ts (observe t.switch_id t.action xs)

-- What a client does with the result of `apply`.
abbrev pub observe_opt : Option LogicalTransition → List SwitchSnapshot → List SwitchSnapshot
observe_opt none xs = xs
observe_opt (some t) xs = observe t.switch_id t.action xs

snapshots-set :
    (k : Str) (s : BTreeSet) (a : Action) (m : BTreeMap BTreeSet)
    → level s ≡ state_after a
    → map snapshot_entry (BTreeMap.set k s m) ≡ observe k a (map snapshot_entry m)
unfolding BTreeMap.set observe
snapshots-set k s a [] h = refl
snapshots-set k s a ((j, x) ∷ m) h = ground (arith, snapshots-set k s a m h, eq_iff j k)

-- A write that keeps the level of a switch is not seen.
snapshots-set_same :
    (k : Str) (s : BTreeSet) (m : BTreeMap BTreeSet)
    → All (λ e. (e.0 == k ≡ true → level e.1 ≡ level s)) m
    → map snapshot_entry (BTreeMap.set k s m) ≡ map snapshot_entry m
unfolding BTreeMap.set
snapshots-set_same k s [] h = refl
snapshots-set_same k s ((j, x) ∷ m) h = ground (arith, snapshots-set_same k s m h.1, h.0)

-- The entries of a switch, in an ascending map, have the level of its set.
level_unique :
    (k : Str) (s s' : BTreeSet) (m : BTreeMap BTreeSet)
    → level s ≡ level s'
    → All (λ e. (e.0 == k ≡ true → e.1 ≡ s)) m
    → All (λ e. (e.0 == k ≡ true → level e.1 ≡ level s')) m
level_unique k s s' m h =
    All-mono (λ e. (e.0 == k ≡ true → e.1 ≡ s)) (λ e. (e.0 == k ≡ true → level e.1 ≡ level s'))
      (λ e f q. ap level (f q) ∙ h) m

pressed-observe :
    (m : SwitchStateMachine) (id k : Str) (s : BTreeSet) (c : Option F32)
    → IsWellFormed m
    → BTreeMap.get k m.active_by_switch ≡ some s
    → BTreeSet.contains id s ≡ false
    → snapshots (with_active m k (BTreeSet.insert id s))
      ≡ observe_opt
          (if nat_eqb (length (BTreeSet.insert id s)) 1
            then some (record { switch_id = k; action = Action.pressed; confidence = c })
            else none)
          (snapshots m)
unfolding snapshots
pressed-observe m id k s c h f new = elim (Bool-cases (is_empty s)) [
  | inl e ↦
      rw (first_reported id s new, e)
        (snapshots-set k (BTreeSet.insert id s) Action.pressed m.active_by_switch
          (rw (insert-not_empty id s)))
  | inr e ↦
      rw (first_reported id s new, e)
        (snapshots-set_same k (BTreeSet.insert id s) m.active_by_switch (
          level_unique k s (BTreeSet.insert id s) m.active_by_switch (rw (insert-not_empty id s, e))
            (get_unique k s m.active_by_switch h.sorted f)))
]

released-observe :
    (m : SwitchStateMachine) (id k : Str) (s : BTreeSet) (c : Option F32)
    → IsWellFormed m
    → BTreeMap.get k m.active_by_switch ≡ some s
    → BTreeSet.contains id s ≡ true
    → snapshots (with_active m k (BTreeSet.remove id s))
      ≡ observe_opt
          (if is_empty (BTreeSet.remove id s)
            then some (record { switch_id = k; action = Action.released; confidence = c })
            else none)
          (snapshots m)
unfolding snapshots
released-observe m id k s c h f old = elim (Bool-cases (is_empty (BTreeSet.remove id s))) [
  | inl e ↦ rw e (snapshots-set k (BTreeSet.remove id s) Action.released m.active_by_switch (rw e))
  | inr e ↦ rw e (
      snapshots-set_same k (BTreeSet.remove id s) m.active_by_switch (
        level_unique k s (BTreeSet.remove id s) m.active_by_switch
          (rw (e, contains-not_empty id s old)) (get_unique k s m.active_by_switch h.sorted f)))
]

-- What a client's picture must be after `apply`.
abbrev pub Mirrored : SwitchStateMachine → Option (SwitchStateMachine × Outcome) → Type 0
Mirrored m none = ⊥
Mirrored m (some (m', ok t)) = snapshots m' ≡ observe_opt t (snapshots m)
Mirrored m (some (m', err x)) = snapshots m' ≡ snapshots m

apply_edge-Mirrored :
    (m : SwitchStateMachine) (id k : Str) (s : BTreeSet) (a : Action) (c : Option F32)
    → IsWellFormed m
    → BTreeMap.get k m.active_by_switch ≡ some s
    → Mirrored m (some (apply_edge m id k s a c))
unfolding apply_edge
apply_edge-Mirrored m id k s Action.pressed c h f = elim (Bool-cases (BTreeSet.contains id s)) [
  | inl old ↦ rw old
  | inr new ↦ rw new (pressed-observe m id k s c h f new)
]
apply_edge-Mirrored m id k s Action.released c h f = elim (Bool-cases (BTreeSet.contains id s)) [
  | inl old ↦ rw old (released-observe m id k s c h f old)
  | inr new ↦ rw new
]

apply-shown :
    (m : SwitchStateMachine) (id : Str) (a : Action) (c : Option F32)
    → IsWellFormed m
    → Mirrored m (apply m id a c)
apply-shown m id a c h =
    apply_cases (Mirrored m) m id a c h (λ e. refl)
      (λ k s e f. apply_edge-Mirrored m id k s a c h f)

abbrev is_pressed : SwitchState → Bool
is_pressed SwitchState.pressed = true
is_pressed SwitchState.released = false

-- What a client's picture says of a switch.
abbrev down_in : Str → List SwitchSnapshot → Bool
down_in k [] = false
down_in k (x ∷ xs) = if x.switch_id == k then is_pressed x.state else down_in k xs

is_pressed-level : (s : BTreeSet) → is_pressed (level s) ≡ not (is_empty s)
is_pressed-level [] = refl
is_pressed-level (x ∷ s) = refl

get-down_in :
    (k : Str) (m : BTreeMap BTreeSet)
    → is_some_and (λ s. not (is_empty s)) (BTreeMap.get k m) ≡ down_in k (map snapshot_entry m)
unfolding BTreeMap.get
get-down_in k [] = refl
get-down_in k ((j, s) ∷ m) = elim (Bool-cases (j == k)) [
  | inl hit ↦ rw hit (sym (is_pressed-level s))
  | inr miss ↦ rw miss (get-down_in k m)
]

-- The snapshots say which switches are down.
is_down-snapshots : (m : SwitchStateMachine) (k : Str) → is_down m k ≡ down_in k (snapshots m)
unfolding snapshots
is_down-snapshots m k = get-down_in k m.active_by_switch

-- An edge is reported only if it changes the snapshots.
abbrev pub Needed : SwitchStateMachine → Option (SwitchStateMachine × Outcome) → Type 0
Needed m none = ⊥
Needed m (some (m', ok (some t))) = snapshots m' ≢ snapshots m
Needed m (some (m', ok none)) = Unit {0}
Needed m (some (m', err x)) = Unit {0}

Applied-Needed :
    (m : SwitchStateMachine) (id : Str) (a : Action) (c : Option F32)
    (o : Option (SwitchStateMachine × Outcome))
    → Applied m id a c o
    → Needed m o
Applied-Needed m id a c none h = h
Applied-Needed m id a c (some (m', ok none)) h = tt
Applied-Needed m id a c (some (m', err x)) h = tt
Applied-Needed m id a c (some (m', ok (some t))) h = λ same.
    let kept : is_down m' h.switch ≡ is_down m h.switch =
      is_down-snapshots m' h.switch
      ∙ ap (down_in h.switch) same
      ∙ sym (is_down-snapshots m h.switch) in
    elim (h.moved) [
      | inl (was, now, nothing) ↦ cc (nothing)
      | inr (was, now, reported) ↦ flipped a (sym now ∙ kept ∙ was)
    ]
  where
    flipped : (a : Action) → is_press a ≡ not (is_press a) → ⊥
    flipped Action.pressed e = cc (e)
    flipped Action.released e = cc (e)

-- A client that starts from the snapshots and writes the reported edges over them stays at the
-- machine's own snapshots, whatever `apply` is given; and an edge is reported only if it changes the
-- snapshots: the reported edges are enough, and none of them is without need.
pub apply-Mirrored :
    (m : SwitchStateMachine) (id : Str) (a : Action) (c : Option F32)
    → IsWellFormed m
    → Mirrored m (apply m id a c) × Needed m (apply m id a c)
apply-Mirrored m id a c h =
    (apply-shown m id a c h, Applied-Needed m id a c (apply m id a c) (apply-Applied m id a c h))
