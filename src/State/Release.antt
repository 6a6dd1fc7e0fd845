-- ===== src/State/Release.antt =====
-- `release_all` of crates/usahp-core/src/state.rs.
use usahp_core.Base.{
  ◌≡◌, inl, inr, refl, ap, Bool, true, false, not, List, [], ◌∷◌, map, none, some, arith, ◌==◌,
  eq_iff, eq_refl, if◌then◌else◌, any, All, Bool-cases, is_some_and,
}
use usahp_core.Str.{Str, str_eq}
use usahp_core.Collections.BTreeMap
use usahp_core.Collections.BTreeMap.{BTreeMap, All-or_insert}
use usahp_core.Collections.BTreeSet.{BTreeSet, is_empty}
use usahp_core.Protocol.Float.{f32_zero}
use usahp_core.Protocol.{Action, SwitchState, SwitchSnapshot}
use usahp_core.Config.{Mapping}
use usahp_core.State.{
  LogicalTransition, new, add_switches, SwitchStateMachine, snapshot_entry, snapshots,
  release_entries, release_all,
}
use usahp_core.State.Edges.{is_down, switch_of}
use usahp_core.State.Mirror.{observe, observe_entry, observe_all}

abbrev pub IsAllReleased : SwitchStateMachine → Type 0
IsAllReleased m = (k : Str) → is_down m k ≡ false

-- The switches that are down, in ascending order.
unfoldable pub down_switches : BTreeMap BTreeSet → List Str
down_switches [] = []
down_switches ((k, s) ∷ l) = let rest = down_switches l in if is_empty s then rest else k ∷ rest

abbrev pub release_of : Str → LogicalTransition
release_of k = record { switch_id = k; action = Action.released; confidence = some f32_zero }

release_entries-transitions :
    (l : BTreeMap BTreeSet) → (release_entries l).0 ≡ map release_of (down_switches l)
unfolding release_entries down_switches
release_entries-transitions [] = refl
release_entries-transitions ((k, []) ∷ l) = release_entries-transitions l
release_entries-transitions ((k, x ∷ s) ∷ l) =
    ap (λ r. release_of k ∷ r) (release_entries-transitions l)

release_entries-empty :
    (k : Str) (l : BTreeMap BTreeSet)
    → is_some_and (λ s. not (is_empty s)) (BTreeMap.get k (release_entries l).1) ≡ false
unfolding release_entries BTreeMap.get
release_entries-empty k [] = refl
release_entries-empty k ((j, []) ∷ l) = ground (arith, release_entries-empty k l)
release_entries-empty k ((j, x ∷ s) ∷ l) = ground (arith, release_entries-empty k l)

-- Is the switch among them?
abbrev among : Str → List Str → Bool
among k ks = any (λ j. j == k) ks

-- What a row of releases makes of one entry.
entry_after : List Str → SwitchSnapshot → SwitchSnapshot
entry_after [] x = x
entry_after (k ∷ ks) x = entry_after ks (observe_entry k Action.released x)

observe_all-cons :
    (ks : List Str) (x : SwitchSnapshot) (xs : List SwitchSnapshot)
    → observe_all (map release_of ks) (x ∷ xs)
      ≡ entry_after ks x ∷ observe_all (map release_of ks) xs
unfolding observe_all entry_after
observe_all-cons [] x xs = refl
observe_all-cons (k ∷ ks) x xs =
    observe_all-cons ks (observe_entry k Action.released x) (observe k Action.released xs)

observe_all-nil : (ks : List Str) → observe_all (map release_of ks) [] ≡ []
unfolding observe_all
observe_all-nil [] = refl
observe_all-nil (k ∷ ks) = observe_all-nil ks

abbrev off : Str → SwitchSnapshot
off k = record { switch_id = k; state = SwitchState.released; confidence = none }

entry_after-off : (ks : List Str) (k : Str) → entry_after ks (off k) ≡ off k
unfolding entry_after
entry_after-off [] k = refl
entry_after-off (j ∷ ks) k = elim (Bool-cases (k == j)) [
  | inl e ↦ rw e (entry_after-off ks k)
  | inr e ↦ rw e (entry_after-off ks k)
]

entry_after-among :
    (ks : List Str) (k : Str) (v : SwitchState)
    → among k ks ≡ true
    → entry_after ks (record { switch_id = k; state = v; confidence = none }) ≡ off k
unfolding entry_after
entry_after-among [] k v h = absurd (cc)
entry_after-among (j ∷ ks) k v h = elim (Bool-cases (k == j)) [
  | inl e ↦ rw e (entry_after-off ks k)
  | inr e ↦ rw e (entry_after-among ks k v (ground (arith, eq_iff k j, eq_iff j k)))
]

observe_all-released :
    (ks : List Str) (l : BTreeMap BTreeSet)
    → All (λ e. (is_empty e.1 ≡ false → among e.0 ks ≡ true)) l
    → observe_all (map release_of ks) (map snapshot_entry l)
      ≡ map snapshot_entry (release_entries l).1
unfolding release_entries
observe_all-released ks [] h = observe_all-nil ks
observe_all-released ks ((k, []) ∷ l) h =
    rw (observe_all-cons, entry_after-off) (ap (λ r. off k ∷ r) (observe_all-released ks l h.1))
observe_all-released ks ((k, x ∷ s) ∷ l) h =
    rw (observe_all-cons, entry_after-among ks k SwitchState.pressed (h.0 refl))
      (ap (λ r. off k ∷ r) (observe_all-released ks l h.1))

among-more :
    (k : Str) (ks : List Str) (l : BTreeMap BTreeSet)
    → All (λ e. (is_empty e.1 ≡ false → among e.0 ks ≡ true)) l
    → All (λ e. (is_empty e.1 ≡ false → among e.0 (k ∷ ks) ≡ true)) l
among-more k ks [] h = tt
among-more k ks ((j, s) ∷ l) h = ((λ e. ground (arith, h.0 e)), among-more k ks l h.1)

down_switches_complete :
    (l : BTreeMap BTreeSet)
    → All (λ e. (is_empty e.1 ≡ false → among e.0 (down_switches l) ≡ true)) l
unfolding down_switches
down_switches_complete [] = tt
down_switches_complete ((k, []) ∷ l) = ((λ e. absurd (cc)), down_switches_complete l)
down_switches_complete ((k, x ∷ s) ∷ l) =
    ((λ e. ground (arith, eq_refl k)), among-more k (down_switches l) l (down_switches_complete l))

-- `release_all`: the transitions are one release, at confidence 0.0, for each switch that is down,
-- in the order of the map; afterwards no switch is down; the mappings still lead where they led; and a
-- client that writes the releases over the old snapshots has the new ones.
pub release_all_lem :
    (m : SwitchStateMachine)
    → ((release_all m).0 ≡ map release_of (down_switches m.active_by_switch))
      × IsAllReleased (release_all m).1
      × ((id : Str) → switch_of (release_all m).1 id ≡ switch_of m id)
      × (observe_all (release_all m).0 (snapshots m) ≡ snapshots (release_all m).1)
unfolding release_all snapshots
release_all_lem m = (
  release_entries-transitions m.active_by_switch,
  (λ k. release_entries-empty k m.active_by_switch),
  (λ id. refl),
  rw (release_entries-transitions m.active_by_switch) (
      observe_all-released (down_switches m.active_by_switch) m.active_by_switch
        (down_switches_complete m.active_by_switch)),
)

add_switches-empty :
    (ms : List Mapping) (m : BTreeMap BTreeSet)
    → All (λ e. e.1 ≡ []) m
    → All (λ e. e.1 ≡ []) (add_switches ms m)
add_switches-empty [] m h = h
add_switches-empty (mapping ∷ ms) m h =
    add_switches-empty ms (BTreeMap.or_insert mapping.switch_id [] m)
      (All-or_insert (λ e. e.1 ≡ []) mapping.switch_id [] m refl h)

get-empty :
    (k : Str) (m : BTreeMap BTreeSet)
    → All (λ e. e.1 ≡ []) m
    → is_some_and (λ s. not (is_empty s)) (BTreeMap.get k m) ≡ false
unfolding BTreeMap.get
get-empty k [] h = refl
get-empty k ((j, []) ∷ m) h = ground (arith, get-empty k m h.1)
get-empty k ((j, x ∷ s) ∷ m) h = absurd (cc (h.0))

-- A new machine has no switch down.
pub new-IsAllReleased : (mappings : List Mapping) → IsAllReleased (new mappings)
unfolding new
new-IsAllReleased mappings k =
    get-empty k (add_switches mappings []) (add_switches-empty mappings [] tt)
