-- ===== src/Config/Valid.antt =====
-- What `validate` of crates/usahp-core/src/config.rs lets through.
use usahp_core.Base.{
  ◌⊎◌, Option-cases, subst, ◌∙◌, ℕ, ◌≡◌, ◌≢◌, ◌↔◌, ◌<◌, inl, inr, refl, Bool, false, is_nil, List,
  [], ◌∷◌, none, arith, eq_iff, nat_eqb, All, All-mono, All-both, all, Bool-cases,
}
use usahp_core.Str.{Str, str_eq}
use usahp_core.Collections.BTreeSet
use usahp_core.Collections.BTreeSet.{BTreeSet, contains-insert}
use usahp_core.Config.{
  Mapping, Config, is_whitespace, trim, trim_start, trim_end, validate_mappings, validate, loaded,
  parse, load,
}

-- Nothing but white space.
abbrev pub is_blank : Str → Bool
is_blank s = all is_whitespace s

is_nil-trim_end : (s : Str) → is_nil (trim_end s) ≡ is_blank s
unfolding trim_end
is_nil-trim_end [] = refl
is_nil-trim_end (c ∷ s) = ground (arith, is_nil-trim_end s)

is_blank-trim_start : (s : Str) → is_blank (trim_start s) ≡ is_blank s
unfolding trim_start
is_blank-trim_start [] = refl
is_blank-trim_start (c ∷ s) = elim (Bool-cases (is_whitespace c)) [
  | inl white ↦ rw white (is_blank-trim_start s)
  | inr ink ↦ rw ink (rw ink refl)
]

is_nil-trim : (s : Str) → is_nil (trim s) ≡ is_blank s
unfolding trim
is_nil-trim s = is_nil-trim_end (trim_start s) ∙ is_blank-trim_start s

-- A mapping that names a switch and a code.
pub record IsNamed (m : Mapping) : Type 0 where
  pub switch_id : is_blank m.switch_id ≡ false
  pub code : is_blank m.code ≡ false

-- No two mappings have one id.
abbrev pub AreDistinct : List Mapping → Type 0
AreDistinct [] = Unit {0}
AreDistinct (m ∷ ms) = All (λ (x : Mapping). x.id ≢ m.id) ms × AreDistinct ms

pub record IsValid (c : Config) : Type 0 where
  pub some_mapping : c.mappings ≢ []
  pub capacity : 0 < c.server.client_queue_capacity
  pub distinct : AreDistinct c.mappings
  pub named : All IsNamed c.mappings

-- The loop lets through what is named, distinct and new.
record Passes (ids : BTreeSet) (ms : List Mapping) : Type 0 where
  new : All (λ (x : Mapping). BTreeSet.contains x.id ids ≡ false) ms
  distinct : AreDistinct ms
  named : All IsNamed ms

passes : (ids : BTreeSet) (ms : List Mapping) → validate_mappings ids ms ≡ none → Passes ids ms
unfolding validate_mappings
passes ids [] h = record { new = tt; distinct = tt; named = tt }
passes ids (m ∷ ms) h =
    let rest : validate_mappings (BTreeSet.insert m.id ids) ms ≡ none = ground arith in
    let p = passes (BTreeSet.insert m.id ids) ms rest in
    record {
      new = (
        ground arith,
        All-mono _ _ (λ x q. ground (arith, contains-insert m.id x.id ids)) ms p.new,
      );
      distinct = (
        All-mono _ _ (λ x q e. ground (arith, contains-insert m.id x.id ids, eq_iff m.id x.id)) ms
            p.new,
        p.distinct,
      );
      named = (
        record {
          switch_id = ground (arith, is_nil-trim m.switch_id);
          code = ground (arith, is_nil-trim m.code);
        },
        p.named,
      );
    }

passed : (ids : BTreeSet) (ms : List Mapping) → Passes ids ms → validate_mappings ids ms ≡ none
unfolding validate_mappings
passed ids [] h = refl
passed ids (m ∷ ms) h =
    let rest = passed (BTreeSet.insert m.id ids) ms (record {
      new =
          All-both (λ (x : Mapping). BTreeSet.contains x.id ids ≡ false)
            (λ (x : Mapping). x.id ≢ m.id)
            (λ (x : Mapping). BTreeSet.contains x.id (BTreeSet.insert m.id ids) ≡ false)
            (λ x old other. ground (arith, contains-insert m.id x.id ids, eq_iff m.id x.id)) ms
            h.new.1 h.distinct.0;
      distinct = h.distinct.1;
      named = h.named.1;
    }) in
    rw (h.new.0, is_nil-trim m.switch_id, h.named.0.switch_id, is_nil-trim m.code, h.named.0.code)
      rest

none_yet : (ms : List Mapping) → All (λ (x : Mapping). BTreeSet.contains x.id [] ≡ false) ms
unfolding BTreeSet.contains
none_yet [] = tt
none_yet (m ∷ ms) = (refl, none_yet ms)

is_nil-cons : (ms : List Mapping) → ms ≢ [] → is_nil ms ≡ false
is_nil-cons [] h = absurd (h refl)
is_nil-cons (m ∷ ms) h = refl

not_nil : (ms : List Mapping) → is_nil ms ≡ false → ms ≢ []
not_nil [] h e = absurd (cc (h))
not_nil (m ∷ ms) h e = absurd (cc (e))

above_zero : {n : ℕ} → 0 < n → nat_eqb n 0 ≡ false
above_zero h = ground arith

-- `validate` passes exactly the configurations with a mapping, room in the queues of the clients,
-- an id of its own for each mapping, and a switch and a code, not blank, in each.
pub validate_iff : (c : Config) → (validate c ≡ none) ↔ IsValid c
unfolding validate
validate_iff c = (sound, complete)
  where
    sound : validate c ≡ none → IsValid c
    sound h =
        let p = passes [] c.mappings (ground arith) in
        record {
          some_mapping = not_nil c.mappings (ground arith);
          capacity = ground arith;
          distinct = p.distinct;
          named = p.named;
        }

    complete : IsValid c → validate c ≡ none
    complete h =
        let p : validate_mappings [] c.mappings ≡ none =
          passed [] c.mappings
            (record { new = none_yet c.mappings; distinct = h.distinct; named = h.named }) in
        rw (is_nil-cons c.mappings h.some_mapping, above_zero h.capacity) p

Sum-cases : {A B : Type 0} (o : A ⊎ B) → ((a : A) × (o ≡ inl a)) ⊎ ((b : B) × (o ≡ inr b))
Sum-cases (inl a) = inl (a, refl)
Sum-cases (inr b) = inr (b, refl)

module _ (from_str : Str → Str ⊎ Config) (read_to_string : Str → Str ⊎ Str) where
  parse-IsValid : (content : Str) (c : Config) → parse from_str content ≡ loaded c → IsValid c
  unfolding parse
  parse-IsValid content c h = elim (Sum-cases (from_str content)) [
    | inl (e, q) ↦ absurd (cc (rw (q, parse) at h))
    | inr (config, q) ↦ elim (Option-cases (validate config)) [
      | inl passed_all ↦
          let same : config ≡ c = cc (rw (q, parse, passed_all) at h) in
          subst IsValid same ((validate_iff config).0 passed_all)
      | inr (e, fails) ↦ absurd (cc (rw (q, parse, fails) at h))
    ]
  ]

  -- A configuration is loaded only when it is valid.
  pub load-IsValid :
      (path : Str) (c : Config) → load from_str read_to_string path ≡ loaded c → IsValid c
  unfolding load
  load-IsValid path c h = elim (Sum-cases (read_to_string path)) [
    | inl (e, q) ↦ absurd (cc (rw (q, load) at h))
    | inr (content, q) ↦ parse-IsValid content c (rw (q, load) at h)
  ]
