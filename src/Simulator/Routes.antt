-- ===== src/Simulator/Routes.antt =====
-- Where the mappings of a configuration, and those of the simulator, lead in the broker's machine.
use usahp_core.Base.{
  some_inj, ◌≡◌, ◌≢◌, inl, inr, refl, sym, ap, ◌∙◌, subst, true, false, List, [], ◌∷◌, ◌++◌, map,
  Option, none, some, ◌==◌, eq_iff, eq_refl, any, All, Bool-cases, Option-cases, arith,
}
use usahp_core.Str.{Str, str_eq}
use usahp_core.Collections.HashMap
use usahp_core.Collections.HashMap.{HashMap, get-insert}
use usahp_core.Collections.BTreeSet
use usahp_core.Collections.BTreeSet.{BTreeSet, contains-insert}
use usahp_core.Simulator.Collect.{get-collect_from, get-collect_from-none, collect_from-append}
use usahp_core.Config.{Config, Mapping, validate}
use usahp_core.Config.Valid.{AreDistinct, IsValid, validate_iff}
use usahp_core.State.{new}
use usahp_core.State.Edges.{switch_of}
use usahp_core.Protocol.{Action}
use usahp_core.Broker.Types.{PhysicalEvent}
use usahp_core.Input.Grab.{physical}
use usahp_core.Simulator.{
  event_of, parse_action, parse_parts, parse_line, split_whitespace, sim_id, mappings_from,
  mappings_for, broker_mappings, known,
}

abbrev pub route_of : Mapping → Str × Str
route_of m = (m.id, m.switch_id)

pub map-append :
    (xs ys : List Mapping) → map route_of (xs ++ ys) ≡ map route_of xs ++ map route_of ys
map-append [] ys = refl
map-append (x ∷ xs) ys = ap (λ l. route_of x ∷ l) (map-append xs ys)

sim_id_injective : (j k : Str) → sim_id j == sim_id k ≡ true → j ≡ k
sim_id_injective j k h = tails ((eq_iff (sim_id j) (sim_id k)).0 h)
  where
    tails : sim_id j ≡ sim_id k → j ≡ k
    tails e = ap drop_four e
      where
        drop_four : Str → Str
        drop_four (a ∷ b ∷ c ∷ d ∷ s) = s
        drop_four s = s

abbrev known_pair : Mapping → Str × Str
known_pair m = (m.switch_id, sim_id m.switch_id)

known_pairs :
    (k : Str) (ms : List Mapping)
    → All (λ (e : Str × Str). (e.0 == k ≡ true → e.1 ≡ sim_id k)) (map known_pair ms)
known_pairs k [] = tt
known_pairs k (m ∷ ms) = (λ h. ap sim_id ((eq_iff m.switch_id k).0 h), known_pairs k ms)

-- What `known` has for a switch.
get-known :
    (k id : Str) (ms : List Mapping)
    → HashMap.get k (known ms) ≡ some id
    → (id ≡ sim_id k) × (any (λ (e : Str × Str). e.0 == k) (map known_pair ms) ≡ true)
unfolding known HashMap.get
get-known k id ms h = elim (Bool-cases (any (λ (e : Str × Str). e.0 == k) (map known_pair ms))) [
  | inl there ↦ (
    some_inj (
        sym h
        ∙ get-collect_from k (sim_id k) [] (map known_pair ms) (known_pairs k ms) (inr there)),
    there,
  )
  | inr gone ↦ absurd (cc (h, get-collect_from-none k [] (map known_pair ms) refl gone))
]

sim_routes :
    (k : Str) (ids : BTreeSet) (ms : List Mapping)
    → All
        (λ (e : Str × Str). (e.0 == sim_id k ≡ true → e.1 ≡ k))
        (map route_of (mappings_from ids ms))
unfolding mappings_from
sim_routes k ids [] = tt
sim_routes k ids (m ∷ ms) = elim (Bool-cases (BTreeSet.contains m.switch_id ids)) [
  | inl old ↦ rw old (sim_routes k (BTreeSet.insert m.switch_id ids) ms)
  | inr new_one ↦
      rw new_one
        (λ h. sim_id_injective m.switch_id k h, sim_routes k (BTreeSet.insert m.switch_id ids) ms)
]

sim_there :
    (k : Str) (ids : BTreeSet) (ms : List Mapping)
    → BTreeSet.contains k ids ≡ false
    → any (λ (e : Str × Str). e.0 == k) (map known_pair ms) ≡ true
    → any (λ (e : Str × Str). e.0 == sim_id k) (map route_of (mappings_from ids ms)) ≡ true
unfolding mappings_from
sim_there k ids [] h o = o
sim_there k ids (m ∷ ms) h o = elim (Bool-cases (m.switch_id == k)) [
  | inl hit ↦
      let same = (eq_iff m.switch_id k).0 hit in
      let unseen : BTreeSet.contains m.switch_id ids ≡ false =
        subst (λ x. BTreeSet.contains x ids ≡ false) (sym same) h in
      let found : sim_id m.switch_id == sim_id k ≡ true =
        subst (λ x. sim_id m.switch_id == sim_id x ≡ true) same (eq_refl (sim_id m.switch_id)) in
      rw (unseen, found) refl
  | inr miss ↦
      let rest =
        sim_there k (BTreeSet.insert m.switch_id ids) ms
          (contains-insert m.switch_id k ids ∙ rw (miss, h) refl) (ground arith) in
      ground arith
]

simulated_route :
    (c : Config) (k id : Str)
    → c.simulator.stdin ≡ true
    → HashMap.get k (known c.mappings) ≡ some id
    → switch_of (new (broker_mappings c)) id ≡ some k
unfolding broker_mappings mappings_for new BTreeSet.contains
simulated_route c k id on h =
    let (same, there) = get-known k id c.mappings h in
    rw (on, same, map-append c.mappings (mappings_from [] c.mappings))
      (rw
        (collect_from-append [] (map route_of c.mappings)
          (map route_of (mappings_from [] c.mappings)))
        (get-collect_from (sim_id k) k (HashMap.collect_from [] (map route_of c.mappings))
          (map route_of (mappings_from [] c.mappings)) (sim_routes k [] c.mappings)
          (inr (sim_there k [] c.mappings refl there))))

-- What a line asks for: an action, and a switch that the broker's machine leads to.
pub record Asks (c : Config) (line : Str) (e : PhysicalEvent) : Type 0 where
  pub word : Str
  pub switch_id : Str
  pub others : List Str
  pub parts : split_whitespace line ≡ word ∷ switch_id ∷ others
  pub action : parse_action word ≡ some e.action
  pub leads : switch_of (new (broker_mappings c)) e.mapping_id ≡ some switch_id

event_of-leads :
    (c : Config) (a : Option Action) (k : Str) (e : PhysicalEvent)
    → c.simulator.stdin ≡ true
    → event_of (known c.mappings) a k ≡ some e
    → (a ≡ some e.action) × (switch_of (new (broker_mappings c)) e.mapping_id ≡ some k)
event_of-leads c none k e on h = absurd (cc (h))
event_of-leads c (some a) k e on h = elim (Option-cases (HashMap.get k (known c.mappings))) [
  | inl gone ↦ absurd (cc (rw (gone, event_of) at h))
  | inr (id, there) ↦
      let same : physical a id ≡ e = some_inj (rw (there, event_of) at h) in
      subst
        (λ (x : PhysicalEvent).
          (Option.some a ≡ some x.action)
          × (switch_of (new (broker_mappings c)) x.mapping_id ≡ some k))
        same (refl, simulated_route c k id on there)
]

parse_parts-leads :
    (c : Config) (line : Str) (ps : List Str) (e : PhysicalEvent)
    → c.simulator.stdin ≡ true
    → split_whitespace line ≡ ps
    → parse_parts (known c.mappings) ps ≡ some e
    → Asks c line e
unfolding parse_parts
parse_parts-leads c line [] e on q h = absurd (cc (h))
parse_parts-leads c line (w ∷ []) e on q h = absurd (cc (h))
parse_parts-leads c line (w ∷ k ∷ ps) e on q h =
    let (action, leads) = event_of-leads c (parse_action w) k e on h in
    record { word = w; switch_id = k; others = ps; parts = q; action = action; leads = leads }

pub parse_line_lem :
    (c : Config) (line : Str) (e : PhysicalEvent)
    → c.simulator.stdin ≡ true
    → parse_line (known c.mappings) line ≡ some e
    → Asks c line e
unfolding parse_line
parse_line_lem c line e on h = parse_parts-leads c line (split_whitespace line) e on refl h

distinct_routes :
    (x : Mapping) (ms : List Mapping)
    → All (λ (m : Mapping). m.id ≢ x.id) ms
    → All (λ (e : Str × Str). (e.0 == x.id ≡ true → e.1 ≡ x.switch_id)) (map route_of ms)
distinct_routes x [] h = tt
distinct_routes x (m ∷ ms) h =
    (λ e. absurd (h.0 ((eq_iff m.id x.id).0 e)), distinct_routes x ms h.1)

all_routed :
    (start : HashMap Str Str) (ms : List Mapping)
    → AreDistinct ms
    → All
        (λ (m : Mapping).
          HashMap.get m.id (HashMap.collect_from start (map route_of ms)) ≡ some m.switch_id)
        ms
unfolding HashMap.collect_from
all_routed start [] h = tt
all_routed start (m ∷ ms) h = (
  get-collect_from m.id m.switch_id (HashMap.insert m.id m.switch_id start) (map route_of ms)
      (distinct_routes m ms h.0)
      (inl (get-insert m.id m.id m.switch_id start ∙ rw (eq_refl m.id) refl)),
  all_routed (HashMap.insert m.id m.switch_id start) ms h.1,
)

-- No identifier of a mapping is the one that the simulator makes of another switch than its own.
abbrev pub IsClear : List Mapping → Type 0
IsClear ms =
    All
      (λ (m : Mapping).
        All (λ (n : Mapping). (m.id ≡ sim_id n.switch_id → n.switch_id ≡ m.switch_id)) ms)
      ms

clear_sims :
    (m : Mapping) (ids : BTreeSet) (ns : List Mapping)
    → All (λ (n : Mapping). (m.id ≡ sim_id n.switch_id → n.switch_id ≡ m.switch_id)) ns
    → All
        (λ (e : Str × Str). (e.0 == m.id ≡ true → e.1 ≡ m.switch_id))
        (map route_of (mappings_from ids ns))
unfolding mappings_from
clear_sims m ids [] h = tt
clear_sims m ids (n ∷ ns) h = elim (Bool-cases (BTreeSet.contains n.switch_id ids)) [
  | inl old ↦ rw old (clear_sims m (BTreeSet.insert n.switch_id ids) ns h.1)
  | inr new_one ↦ rw new_one (
    λ q. h.0 (sym ((eq_iff (sim_id n.switch_id) m.id).0 q)),
    clear_sims m (BTreeSet.insert n.switch_id ids) ns h.1,
  )
]

-- The simulator's mappings after those of the configuration.
routed_with_sims :
    (base : HashMap Str Str) (sims ms : List Mapping)
    → All
        (λ (m : Mapping).
          All (λ (n : Mapping). (m.id ≡ sim_id n.switch_id → n.switch_id ≡ m.switch_id)) sims)
        ms
    → All (λ (m : Mapping). HashMap.get m.id base ≡ some m.switch_id) ms
    → All
        (λ (m : Mapping).
          HashMap.get m.id (HashMap.collect_from base (map route_of (mappings_from [] sims)))
          ≡ some m.switch_id)
        ms
routed_with_sims base sims [] clear h = tt
routed_with_sims base sims (m ∷ ms) clear h = (
  get-collect_from m.id m.switch_id base (map route_of (mappings_from [] sims))
      (clear_sims m [] sims clear.0) (inl h.0),
  routed_with_sims base sims ms clear.1 h.1,
)

-- In a configuration that `validate` passes, every mapping leads to its own switch in the machine that
-- `main` makes of the configuration: none is lost to another one with its identifier; if the simulator
-- is on, provided that no mapping has the identifier that the simulator makes of another switch.
pub validate_routes :
    (c : Config)
    → validate c ≡ none
    → (c.simulator.stdin ≡ true → IsClear c.mappings)
    → All (λ (m : Mapping). switch_of (new (broker_mappings c)) m.id ≡ some m.switch_id) c.mappings
unfolding new broker_mappings mappings_for
validate_routes c h clear =
    let valid : IsValid c = (validate_iff c).0 h in
    let base = all_routed [] c.mappings valid.distinct in
    elim (Bool-cases c.simulator.stdin) [
      | inr off ↦ rw off base
      | inl on ↦
          rw
            (
              on,
              map-append c.mappings (mappings_from [] c.mappings),
              collect_from-append [] (map route_of c.mappings)
                  (map route_of (mappings_from [] c.mappings)),
            )
            (routed_with_sims (HashMap.collect_from [] (map route_of c.mappings)) c.mappings
              c.mappings (clear on) base)
    ]
