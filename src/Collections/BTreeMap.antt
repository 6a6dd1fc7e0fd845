-- ===== src/Collections/BTreeMap.antt =====
-- `BTreeMap<String, V>` as the list of its entries in ascending order of the keys.
use usahp_core.Base.{
  true, ◌≡◌, Bool, ◌&&◌, ◌||◌, List, [], ◌∷◌, Option, none, some, arith, ◌==◌, eq_iff,
  if◌then◌else◌, is_some, All, All-mono, Bool-cases, inl, inr,
}
use usahp_core.Str.{Str, str_eq, str_ltb, str_ltb_irrefl, str_ltb_trans, str_ltb_total}

abbrev pub BTreeMap {ℓ} : Type ℓ → Type ℓ
BTreeMap V = List (Str × V)

module _ {ℓ} {V : Type ℓ} where
  unfoldable pub get : Str → BTreeMap V → Option V
  get k [] = none
  get k ((j, v) ∷ m) = if j == k then some v else get k m

  abbrev pub contains_key : Str → BTreeMap V → Bool
  contains_key k m = is_some (get k m)

  -- `entry(k).or_insert(v)`: the entry that is there, or a new one at its place in the order.
  unfoldable pub or_insert : Str → V → BTreeMap V → BTreeMap V
  or_insert k v [] = (k, v) ∷ []
  or_insert k v ((j, w) ∷ m) =
      if j == k
      then (j, w) ∷ m
      else if str_ltb k j
      then (k, v) ∷ (j, w) ∷ m
      else (j, w) ∷ or_insert k v m

  -- A write through `get_mut(k)`.
  unfoldable pub set : Str → V → BTreeMap V → BTreeMap V
  set k v [] = []
  set k v ((j, w) ∷ m) = (j, if j == k then v else w) ∷ set k v m

  pub contains_key-or_insert :
      (j k : Str) (v : V) (m : BTreeMap V)
      → contains_key j (or_insert k v m) ≡ (k == j || contains_key j m)
  unfolding get or_insert
  contains_key-or_insert j k v [] = ground arith
  contains_key-or_insert j k v ((i, w) ∷ m) =
      ground (arith, eq_iff k j, eq_iff i k, eq_iff i j, contains_key-or_insert j k v m)

  -- A property of every value survives a new entry that has it.
  pub All-or_insert {μ} :
      (P : Str × V → Type μ) (k : Str) (v : V) (m : BTreeMap V)
      → P (k, v)
      → All P m
      → All P (or_insert k v m)
  unfolding or_insert
  All-or_insert P k v [] p h = (p, tt)
  All-or_insert P k v ((j, w) ∷ m) p h = elim (Bool-cases (j == k)) [
    | inl e ↦ rw e h
    | inr e ↦ elim (Bool-cases (str_ltb k j)) [
      | inl lt ↦ rw (e, lt) (p, h)
      | inr ge ↦ rw (e, ge) (h.0, All-or_insert P k v m p h.1)
    ]
  ]

  pub get-set :
      (j k : Str) (v : V) (m : BTreeMap V)
      → get j (set k v m) ≡ (if k == j && contains_key j m then some v else get j m)
  unfolding get set
  get-set j k v [] = ground arith
  get-set j k v ((i, w) ∷ m) = ground (arith, eq_iff k j, eq_iff i k, eq_iff i j, get-set j k v m)

  -- Ascending keys, none twice.
  abbrev pub IsSorted : BTreeMap V → Type 0
  IsSorted [] = Unit {0}
  IsSorted ((k, v) ∷ m) = All (λ e. str_ltb k e.0 ≡ true) m × IsSorted m

  or_insert-above :
      (i k : Str) (v : V) (m : BTreeMap V)
      → str_ltb i k ≡ true
      → All (λ e. str_ltb i e.0 ≡ true) m
      → All (λ e. str_ltb i e.0 ≡ true) (or_insert k v m)
  or_insert-above i k v m = All-or_insert (λ e. str_ltb i e.0 ≡ true) k v m

  pub or_insert-IsSorted :
      (k : Str) (v : V) (m : BTreeMap V) → IsSorted m → IsSorted (or_insert k v m)
  unfolding or_insert
  or_insert-IsSorted k v [] h = (tt, tt)
  or_insert-IsSorted k v ((j, w) ∷ m) h = elim (Bool-cases (j == k)) [
    | inl e ↦ rw e h
    | inr e ↦ elim (Bool-cases (str_ltb k j)) [
      | inl lt ↦
          rw (e, lt)
            (
              (
                lt,
                All-mono (λ x. str_ltb j x.0 ≡ true) (λ x. str_ltb k x.0 ≡ true)
                    (λ x q. str_ltb_trans k j x.0 lt q) m h.0,
              ),
              h,
            )
      | inr ge ↦
          rw (e, ge)
            (
              or_insert-above j k v m
                  (str_ltb_total k j (ground (arith, eq_iff j k, eq_iff k j)) ge) h.0,
              or_insert-IsSorted k v m h.1,
            )
    ]
  ]

  set-above :
      (i k : Str) (v : V) (m : BTreeMap V)
      → All (λ e. str_ltb i e.0 ≡ true) m
      → All (λ e. str_ltb i e.0 ≡ true) (set k v m)
  unfolding set
  set-above i k v [] h = tt
  set-above i k v ((j, w) ∷ m) h = (h.0, set-above i k v m h.1)

  pub set-IsSorted : (k : Str) (v : V) (m : BTreeMap V) → IsSorted m → IsSorted (set k v m)
  unfolding set
  set-IsSorted k v [] h = tt
  set-IsSorted k v ((j, w) ∷ m) h = (set-above j k v m h.0, set-IsSorted k v m h.1)

  -- In an ascending map the entry of a key is the one that `get` finds.
  pub get_unique :
      (k : Str) (v : V) (m : BTreeMap V)
      → IsSorted m
      → get k m ≡ some v
      → All (λ e. (e.0 == k ≡ true → e.1 ≡ v)) m
  unfolding get
  get_unique k v [] h e = tt
  get_unique k v ((j, w) ∷ m) h e = elim (Bool-cases (j == k)) [
    | inl hit ↦ (
      (λ q. ground (arith, rw hit at e)),
      All-mono (λ x. str_ltb j x.0 ≡ true) (λ x. (x.0 == k ≡ true → x.1 ≡ v))
          (λ x lt q. absurd (ground (arith, str_ltb_irrefl k, eq_iff j k, eq_iff x.0 k))) m h.0,
    )
    | inr miss ↦ ((λ q. absurd (cc)), get_unique k v m h.1 (rw miss at e))
  ]
