-- ===== src/Daemon/Entries.antt =====
-- The identifiers in the tables of the input threads of crates/usahp-daemon/src/input.rs and
-- crates/usahp-daemon/src/macos_keyboard.rs.
use mathlib.Core.List.{Memᴰ}
use mathlib.Core.List.Memᴰ.{head, tail}
use usahp_core.Base.{
  ℕ, ◌≡◌, inl, inr, sym, subst, List, [], ◌∷◌, ◌++◌, some, some_inj, All, All-append, Bool-cases,
  Option-cases, Eq, ◌==◌, nat_eq,
}
use usahp_core.Str.{Str, str_eq}
use usahp_core.Collections.HashMap
use usahp_core.Collections.HashMap.{HashMap, All-insert, get-insert}
use usahp_core.Config.{Mapping}
use usahp_core.Input.{parse_u16}
use usahp_core.Input.Keys.{Key, parse_key, to_ascii_lowercase, name_to_keycode}
use usahp_core.Input.Keycodes.{key_eq}
use usahp_core.Input.Grab.{
  ids_of, push_id, is_keyboard, keyboard_mappings, by_key_from, by_keycode_from,
}
use usahp_core.Input.Pads.{codes_of, ids_at, push_code, gamepad_mappings, by_device_from, tables}

pub All-Mem : {A : Type 0} (P : A → Type 0) (x : A) (xs : List A) → All P xs → Memᴰ x xs → P x
All-Mem P x [] h x_in = elim x_in [ ]
All-Mem P x (y ∷ ys) h (head e) = subst P (sym e) h.0
All-Mem P x (y ∷ ys) h (tail m) = All-Mem P x ys h.1 m

pub keyboard_mappings-All :
    (Q : Mapping → Type 0) (ms : List Mapping) → All Q ms → All Q (keyboard_mappings ms)
unfolding keyboard_mappings
keyboard_mappings-All Q [] h = tt
keyboard_mappings-All Q (m ∷ ms) h = elim (Bool-cases (is_keyboard m.input)) [
  | inl key ↦ rw key (h.0, keyboard_mappings-All Q ms h.1)
  | inr pad ↦ rw pad (keyboard_mappings-All Q ms h.1)
]

pub gamepad_mappings-All :
    (Q : Mapping → Type 0) (ms : List Mapping) → All Q ms → All Q (gamepad_mappings ms)
unfolding gamepad_mappings
gamepad_mappings-All Q [] h = tt
gamepad_mappings-All Q (m ∷ ms) h = elim (Bool-cases (is_keyboard m.input)) [
  | inl key ↦ rw key (gamepad_mappings-All Q ms h.1)
  | inr pad ↦ rw pad (h.0, gamepad_mappings-All Q ms h.1)
]

-- Tables of which every entry lists identifiers with a property.
module _ (P : Str → Type 0) where
  abbrev pub AreIds : {K : Type 0} → HashMap K (List Str) → Type 0
  AreIds table = All (λ e. All P e.1) table

  pub get-AreIds :
      {K : Type 0} ⦃eq : Eq K⦄ (k : K) (table : HashMap K (List Str))
      → AreIds table
      → All P (ids_of (HashMap.get k table))
  unfolding HashMap.get
  get-AreIds k [] h = tt
  get-AreIds k ((j, ids) ∷ table) h = elim (Bool-cases (j == k)) [
    | inl hit ↦ rw hit h.0
    | inr miss ↦ rw miss (get-AreIds k table h.1)
  ]

  push_id-AreIds :
      {K : Type 0} ⦃eq : Eq K⦄ (k : K) (id : Str) (table : HashMap K (List Str))
      → P id
      → AreIds table
      → AreIds (push_id k id table)
  unfolding push_id
  push_id-AreIds k id table p h =
      All-insert (λ e. All P e.1) k (ids_of (HashMap.get k table) ++ id ∷ []) table
        (All-append P (ids_of (HashMap.get k table)) (id ∷ []) (get-AreIds k table h) (p, tt)) h

  abbrev pub AreOwn : List Mapping → Type 0
  AreOwn ms = All (λ (m : Mapping). P m.id) ms

  pub by_key_from-AreIds :
      (t t' : HashMap Key (List Str)) (ms : List Mapping)
      → AreIds t
      → AreOwn ms
      → by_key_from t ms ≡ some t'
      → AreIds t'
  unfolding by_key_from
  by_key_from-AreIds t t' [] h own e = subst AreIds (some_inj e) h
  by_key_from-AreIds t t' (m ∷ ms) h own e = elim (Option-cases (parse_key m.code)) [
    | inl fails ↦ absurd (cc (rw (fails, by_key_from) at e))
    | inr (k, reads) ↦
        by_key_from-AreIds (push_id k m.id t) t' ms (push_id-AreIds k m.id t own.0 h) own.1
          (rw (reads, by_key_from) at e)
  ]

  pub by_keycode_from-AreIds :
      (t : HashMap ℕ (List Str)) (ms : List Mapping)
      → AreIds t
      → AreOwn ms
      → AreIds (by_keycode_from t ms)
  unfolding by_keycode_from
  by_keycode_from-AreIds t [] h own = h
  by_keycode_from-AreIds t (m ∷ ms) h own =
      elim (Option-cases (HashMap.get (to_ascii_lowercase m.code) name_to_keycode)) [
        | inl missing ↦ rw (missing, by_keycode_from) (by_keycode_from-AreIds t ms h own.1)
        | inr (k, there) ↦
            rw (there, by_keycode_from)
              (by_keycode_from-AreIds (push_id k m.id t) ms (push_id-AreIds k m.id t own.0 h) own.1)
      ]

  -- The same for a table of tables.
  abbrev pub AreAllIds : HashMap Str (HashMap ℕ (List Str)) → Type 0
  AreAllIds t = All (λ e. AreIds e.1) t

  codes_of-AreIds :
      (device : Str) (t : HashMap Str (HashMap ℕ (List Str)))
      → AreAllIds t
      → AreIds (codes_of (HashMap.get device t))
  unfolding HashMap.get
  codes_of-AreIds device [] h = tt
  codes_of-AreIds device ((j, codes) ∷ t) h = elim (Bool-cases (j == device)) [
    | inl hit ↦ rw hit h.0
    | inr miss ↦ rw miss (codes_of-AreIds device t h.1)
  ]

  pub ids_at-All :
      (device : Str) (code : ℕ) (t : HashMap Str (HashMap ℕ (List Str)))
      → AreAllIds t
      → All P (ids_at device code t)
  ids_at-All device code t h =
      get-AreIds code (codes_of (HashMap.get device t)) (codes_of-AreIds device t h)

  pub by_device_from-AreAllIds :
      (t t' : HashMap Str (HashMap ℕ (List Str))) (ms : List Mapping)
      → AreAllIds t
      → AreOwn ms
      → by_device_from t ms ≡ tables t'
      → AreAllIds t'
  unfolding by_device_from push_code
  by_device_from-AreAllIds t t' [] h own e = let same : t ≡ t' = cc (e) in subst AreAllIds same h
  by_device_from-AreAllIds t t' (m ∷ ms) h own e = elim (Option-cases m.device) [
    | inl absent ↦ absurd (cc (rw (absent, by_device_from) at e))
    | inr (d, there) ↦ elim (Option-cases (parse_u16 m.code)) [
      | inl fails ↦ absurd (cc (rw (there, by_device_from, fails) at e))
      | inr (c, reads) ↦
          by_device_from-AreAllIds (push_code d c m.id t) t' ms
            (All-insert (λ x. AreIds x.1) d (push_id c m.id (codes_of (HashMap.get d t))) t
              (push_id-AreIds c m.id (codes_of (HashMap.get d t)) own.0 (codes_of-AreIds d t h)) h)
            own.1 (rw (there, by_device_from, reads) at e)
    ]
  ]
