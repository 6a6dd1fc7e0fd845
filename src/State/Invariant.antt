-- ===== src/State/Invariant.antt =====
-- The invariant of the state machines of crates/usahp-core/src/state.rs: each mapping leads to a switch
-- that has an active set, and the switches are in ascending order.
use usahp_core.Base.{
  ◌≡◌, refl, ap, ◌∙◌, subst, All-mono, inl, inr, true, List, [], ◌∷◌, map, Option, none, some,
  arith, ◌==◌, eq_refl, is_some, All, Option-cases, Bool-cases,
}
use usahp_core.Str.{str_ltb, Str, str_eq}
use usahp_core.Collections.HashMap
use usahp_core.Collections.HashMap.{HashMap, All-insert}
use usahp_core.Collections.BTreeMap
use usahp_core.Collections.BTreeMap.{
  or_insert-IsSorted, set-IsSorted, BTreeMap, get-set, contains_key-or_insert,
}
use usahp_core.Collections.BTreeSet
use usahp_core.Collections.BTreeSet.{BTreeSet}
use usahp_core.Protocol.Float.{F32}
use usahp_core.Protocol.{Action}
use usahp_core.Config.{Mapping}
use usahp_core.State.{
  SwitchStateMachine, Outcome, err, unknown_mapping, new, add_switches, apply, apply_edge,
  with_active, release_all, release_entries,
}

-- Every switch that a mapping leads to has an entry.
abbrev pub HasSwitch : BTreeMap BTreeSet → Str × Str → Type 0
HasSwitch m (_, switch_id) = BTreeMap.contains_key switch_id m ≡ true

pub record IsWellFormed (m : SwitchStateMachine) : Type 0 where
  pub routed : All (HasSwitch m.active_by_switch) m.mapping_to_switch
  pub sorted : BTreeMap.IsSorted m.active_by_switch

module _ (P : Str × Str → Type 0) where
  All-collect_from :
      (m : HashMap Str Str) (l : List (Str × Str))
      → All P m
      → All P l
      → All P (HashMap.collect_from m l)
  unfolding HashMap.collect_from
  All-collect_from m [] h hl = h
  All-collect_from m ((k, v) ∷ l) h hl =
      All-collect_from (HashMap.insert k v m) l (All-insert P k v m hl.0 h) hl.1

  All-get :
      (k v : Str) (m : HashMap Str Str) → All P m → HashMap.get k m ≡ some v → (j : Str) × P (j, v)
  unfolding HashMap.get
  All-get k v [] h e = absurd (cc)
  All-get k v ((j, w) ∷ m) h e = elim (Bool-cases (j == k)) [
    | inl hit ↦ (j, subst₁ (rw hit at e))
    | inr miss ↦ All-get k v m h.1 (rw miss at e)
  ]
    where
      subst₁ : some w ≡ some v → P (j, v)
      subst₁ p = let q : w ≡ v = cc in subst (λ x. P (j, x)) q h.0

add_switches_keeps :
    (k : Str) (ms : List Mapping) (m : BTreeMap BTreeSet)
    → BTreeMap.contains_key k m ≡ true
    → BTreeMap.contains_key k (add_switches ms m) ≡ true
add_switches_keeps k [] m h = h
add_switches_keeps k (mapping ∷ ms) m h =
    add_switches_keeps k ms (BTreeMap.or_insert mapping.switch_id [] m)
      (rw (contains_key-or_insert k mapping.switch_id [] m, h) (ground arith))

abbrev pairs : List Mapping → List (Str × Str)
pairs = map (λ (m : Mapping). (m.id, m.switch_id))

add_switches_adds :
    (ms : List Mapping) (m : BTreeMap BTreeSet) → All (HasSwitch (add_switches ms m)) (pairs ms)
add_switches_adds [] m = tt
add_switches_adds (mapping ∷ ms) m = (
  add_switches_keeps mapping.switch_id ms _ (
      rw (
        contains_key-or_insert mapping.switch_id mapping.switch_id [] m,
        eq_refl mapping.switch_id,
      )),
  add_switches_adds ms _,
)

add_switches-IsSorted :
    (ms : List Mapping) (m : BTreeMap BTreeSet)
    → BTreeMap.IsSorted m
    → BTreeMap.IsSorted (add_switches ms m)
add_switches-IsSorted [] m h = h
add_switches-IsSorted (mapping ∷ ms) m h =
    add_switches-IsSorted ms (BTreeMap.or_insert mapping.switch_id [] m)
      (or_insert-IsSorted mapping.switch_id [] m h)

-- A new machine, whatever the mappings, is well formed.
pub new-IsWellFormed : (mappings : List Mapping) → IsWellFormed (new mappings)
unfolding new
new-IsWellFormed mappings = record {
  routed =
      All-collect_from (HasSwitch (add_switches mappings [])) [] (pairs mappings) tt
        (add_switches_adds mappings []);
  sorted = add_switches-IsSorted mappings [] tt;
}

contains_key-set :
    (j k : Str) (v : BTreeSet) (m : BTreeMap BTreeSet)
    → BTreeMap.contains_key j m ≡ true
    → BTreeMap.contains_key j (BTreeMap.set k v m) ≡ true
contains_key-set j k v m h = ground (arith, get-set j k v m)

with_active-IsWellFormed :
    (m : SwitchStateMachine) (k : Str) (s : BTreeSet)
    → IsWellFormed m
    → IsWellFormed (with_active m k s)
with_active-IsWellFormed m k s h = record {
  routed =
      All-mono (HasSwitch m.active_by_switch) (HasSwitch (with_active m k s).active_by_switch)
        (λ (_, j) p. contains_key-set j k s m.active_by_switch p) m.mapping_to_switch h.routed;
  sorted = set-IsSorted k s m.active_by_switch h.sorted;
}

pub apply_edge-IsWellFormed :
    (m : SwitchStateMachine) (id k : Str) (s : BTreeSet) (a : Action) (c : Option F32)
    → IsWellFormed m
    → IsWellFormed (apply_edge m id k s a c).0
unfolding apply_edge
apply_edge-IsWellFormed m id k s Action.pressed c h = elim (Bool-cases (BTreeSet.contains id s)) [
  | inl e ↦ rw e h
  | inr e ↦ rw e (with_active-IsWellFormed m k _ h)
]
apply_edge-IsWellFormed m id k s Action.released c h = elim (Bool-cases (BTreeSet.contains id s)) [
  | inl e ↦ rw e (with_active-IsWellFormed m k _ h)
  | inr e ↦ rw e h
]

-- A mapping that leads somewhere leads to a switch with an active set.
pub active_of :
    (m : SwitchStateMachine) (id k : Str)
    → IsWellFormed m
    → HashMap.get id m.mapping_to_switch ≡ some k
    → (s : BTreeSet) × (BTreeMap.get k m.active_by_switch ≡ some s)
active_of m id k h e =
    let there = (All-get (HasSwitch m.active_by_switch) id k m.mapping_to_switch h.routed e).1 in
    elim (Option-cases (BTreeMap.get k m.active_by_switch)) [
      | inl missing ↦ absurd (cc (ap (λ (o : Option BTreeSet). is_some o) missing))
      | inr found ↦ found
    ]

-- A split of `apply` of a well-formed machine: a mapping that is not configured, or an edge.
pub apply_cases {ℓ} :
    (P : Option (SwitchStateMachine × Outcome) → Type ℓ) (m : SwitchStateMachine) (id : Str)
    (a : Action) (c : Option F32)
    → IsWellFormed m
    → (HashMap.get id m.mapping_to_switch ≡ none → P (some (m, err (unknown_mapping id))))
    → ((k : Str) (s : BTreeSet)
        → HashMap.get id m.mapping_to_switch ≡ some k
        → BTreeMap.get k m.active_by_switch ≡ some s
        → P (some (apply_edge m id k s a c)))
    → P (apply m id a c)
unfolding apply
apply_cases P m id a c h missing edge = elim (Option-cases (HashMap.get id m.mapping_to_switch)) [
  | inl e ↦ rw (e, apply) (missing e)
  | inr (k, e) ↦
      let (s, found) = active_of m id k h e in rw (e, apply) (rw (found) (edge k s e found))
]

-- On a well-formed machine `apply` does not panic, and leaves a well-formed machine.
pub apply-IsWellFormed :
    (m : SwitchStateMachine) (id : Str) (a : Action) (c : Option F32)
    → IsWellFormed m
    → (r : SwitchStateMachine × Outcome) × (apply m id a c ≡ some r) × IsWellFormed r.0
apply-IsWellFormed m id a c h =
    apply_cases (λ o. (r : SwitchStateMachine × Outcome) × (o ≡ some r) × IsWellFormed r.0) m id a c
      h (λ e. ((m, err (unknown_mapping id)), refl, h))
      (λ k s e f. (apply_edge m id k s a c, refl, apply_edge-IsWellFormed m id k s a c h))

contains_key-release :
    (j : Str) (l : BTreeMap BTreeSet)
    → BTreeMap.contains_key j (release_entries l).1 ≡ BTreeMap.contains_key j l
unfolding release_entries BTreeMap.get
contains_key-release j [] = refl
contains_key-release j ((k, s) ∷ l) = ground (arith, contains_key-release j l)

release-above :
    (i : Str) (l : BTreeMap BTreeSet)
    → All (λ e. str_ltb i e.0 ≡ true) l
    → All (λ e. str_ltb i e.0 ≡ true) (release_entries l).1
unfolding release_entries
release-above i [] h = tt
release-above i ((k, []) ∷ l) h = (h.0, release-above i l h.1)
release-above i ((k, x ∷ s) ∷ l) h = (h.0, release-above i l h.1)

release-IsSorted :
    (l : BTreeMap BTreeSet) → BTreeMap.IsSorted l → BTreeMap.IsSorted (release_entries l).1
unfolding release_entries
release-IsSorted [] h = tt
release-IsSorted ((k, []) ∷ l) h = (release-above k l h.0, release-IsSorted l h.1)
release-IsSorted ((k, x ∷ s) ∷ l) h = (release-above k l h.0, release-IsSorted l h.1)

pub release_all-IsWellFormed :
    (m : SwitchStateMachine) → IsWellFormed m → IsWellFormed (release_all m).1
unfolding release_all
release_all-IsWellFormed m h = record {
  routed =
      All-mono (HasSwitch m.active_by_switch) (HasSwitch (release_all m).1.active_by_switch)
        (λ (_, j) p. contains_key-release j m.active_by_switch ∙ p) m.mapping_to_switch h.routed;
  sorted = release-IsSorted m.active_by_switch h.sorted;
}
