-- ===== src/Daemon/Known.antt =====
-- The mappings of a configuration in the machine that `main` of crates/usahp-daemon/src/main.rs gives to
-- the broker.
use usahp_core.Base.{
  arith, ◌≡◌, inl, inr, true, List, [], ◌∷◌, map, is_some, All, All-mono, Bool-cases, eq_refl,
  nat_eq,
}
use usahp_core.Str.{Str, str_eq}
use usahp_core.Collections.HashMap
use usahp_core.Collections.HashMap.{HashMap, All-insert, get-insert}
use usahp_core.Config.{Config, Mapping}
use usahp_core.State.{new}
use usahp_core.State.Edges.{switch_of}
use usahp_core.Input.Keycodes.{key_eq}
use usahp_core.Simulator.{broker_mappings, mappings_for}
use usahp_core.Simulator.Routes.{route_of, map-append}
use usahp_core.Simulator.Collect.{collect_from-append}

collect_from-keeps :
    (k : Str) (m l : HashMap Str Str)
    → HashMap.contains_key k m ≡ true
    → HashMap.contains_key k (HashMap.collect_from m l) ≡ true
unfolding HashMap.collect_from
collect_from-keeps k m [] h = h
collect_from-keeps k m ((j, v) ∷ l) h =
    collect_from-keeps k (HashMap.insert j v m) l (ground (arith, get-insert k j v m))

collect_from-adds :
    (m l : HashMap Str Str)
    → All (λ (e : Str × Str). HashMap.contains_key e.0 (HashMap.collect_from m l) ≡ true) l
unfolding HashMap.collect_from
collect_from-adds m [] = tt
collect_from-adds m ((k, v) ∷ l) = (
  collect_from-keeps k (HashMap.insert k v m) l (ground (arith, get-insert k k v m, eq_refl k)),
  collect_from-adds (HashMap.insert k v m) l,
)

-- A mapping that the broker's machine has.
abbrev pub IsKnown : List Mapping → Str → Type 0
IsKnown ms id = is_some (switch_of (new ms) id) ≡ true

of_pairs :
    (Q : Str → Type 0) (ms : List Mapping)
    → All (λ (e : Str × Str). Q e.0) (map route_of ms)
    → All (λ (m : Mapping). Q m.id) ms
of_pairs Q [] h = tt
of_pairs Q (m ∷ ms) h = (h.0, of_pairs Q ms h.1)

known_before :
    (ms others : List Mapping)
    → All
        (λ (m : Mapping).
          HashMap.contains_key m.id
            (HashMap.collect_from (HashMap.collect_from [] (map route_of ms)) (map route_of others))
          ≡ true)
        ms
known_before ms others =
    All-mono
      (λ (m : Mapping).
        HashMap.contains_key m.id (HashMap.collect_from [] (map route_of ms)) ≡ true)
      _
      (λ m h.
        collect_from-keeps m.id (HashMap.collect_from [] (map route_of ms)) (map route_of others) h)
      ms
      (of_pairs (λ id. HashMap.contains_key id (HashMap.collect_from [] (map route_of ms)) ≡ true)
        ms (collect_from-adds [] (map route_of ms)))

pub broker_mappings-IsKnown :
    (c : Config) → All (λ (m : Mapping). IsKnown (broker_mappings c) m.id) c.mappings
unfolding broker_mappings new
broker_mappings-IsKnown c = elim (Bool-cases c.simulator.stdin) [
  | inl on ↦
      rw (on, map-append c.mappings (mappings_for c.mappings))
        (rw
          (collect_from-append [] (map route_of c.mappings)
            (map route_of (mappings_for c.mappings)))
          (known_before c.mappings (mappings_for c.mappings)))
  | inr off ↦ rw off (
      of_pairs
        (λ id. HashMap.contains_key id (HashMap.collect_from [] (map route_of c.mappings)) ≡ true)
        c.mappings (collect_from-adds [] (map route_of c.mappings)))
]
