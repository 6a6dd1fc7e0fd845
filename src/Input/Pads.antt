-- ===== src/Input/Pads.antt =====
-- The tables from gamepad buttons to mappings of `spawn_gamepads` of crates/usahp-daemon/src/input.rs,
-- for Linux: one table of codes for each device path.
use usahp_core.Base.{
  ℕ, is_some, ◌≡◌, refl, sym, ◌∙◌, ap, Bool, true, false, ◌&&◌, List, [], ◌∷◌, ◌++◌, append_assoc,
  append-nil, Option, none, some, ◌==◌, eq_iff, nat_eq, if◌then◌else◌, arith, All, Bool-cases,
  Option-cases, inl, inr,
}
use usahp_core.Str.{Str, str_eq}
use usahp_core.Collections.HashMap
use usahp_core.Collections.HashMap.{HashMap, get-insert}
use usahp_core.Config.{Mapping, InputKind, keyboard, gamepad}
use usahp_core.Input.Grab.{ids_of, push_id, is_keyboard}
use usahp_core.Input.Table.{get-push_id}
use usahp_core.Input.{linux, parse_u16, validate, validate_mapping, validate_gamepad}

-- `.filter(|m| m.input == InputKind::Gamepad)`
unfoldable pub gamepad_mappings : List Mapping → List Mapping
gamepad_mappings [] = []
gamepad_mappings (m ∷ ms) =
    let rest = gamepad_mappings ms in if is_keyboard m.input then rest else m ∷ rest

-- The codes of a device, or none yet.
abbrev pub codes_of : Option (HashMap ℕ (List Str)) → HashMap ℕ (List Str)
codes_of none = []
codes_of (some codes) = codes

-- `by_device.entry(device).or_default().entry(code).or_default().push(id)`
unfoldable pub push_code :
    Str → ℕ → Str → HashMap Str (HashMap ℕ (List Str)) → HashMap Str (HashMap ℕ (List Str))
unfolding HashMap.insert HashMap.get push_id
push_code device code id table =
    HashMap.insert device (push_id code id (codes_of (HashMap.get device table))) table

-- The tables; or the error of `parse`; or the panic of `device.clone().unwrap()`.
pub data Tables : Type 0 where
  tables : HashMap Str (HashMap ℕ (List Str)) → Tables
  bad_code no_device : Tables

unfoldable pub by_device_from : HashMap Str (HashMap ℕ (List Str)) → List Mapping → Tables
unfolding push_code parse_u16
by_device_from table [] = tables table
by_device_from table (m ∷ ms) = elim m.device [
  | none ↦ no_device
  | some device ↦ elim (parse_u16 m.code) [
    | none ↦ bad_code
    | some code ↦ by_device_from (push_code device code m.id table) ms
  ]
]

-- The mappings that an event of a device is for.
abbrev pub ids_at : Str → ℕ → HashMap Str (HashMap ℕ (List Str)) → List Str
ids_at device code table = ids_of (HashMap.get code (codes_of (HashMap.get device table)))

-- Is the mapping for this button of this device?
abbrev pub is_for : Str → ℕ → Mapping → Bool
is_for device code m = elim m.device [
  | none ↦ false
  | some d ↦ elim (parse_u16 m.code) [ none ↦ false | some c ↦ d == device && c == code ]
]

-- The identifiers of the mappings for a button, in the order of the configuration.
abbrev pub ids_for_button : Str → ℕ → List Mapping → List Str
ids_for_button device code [] = []
ids_for_button device code (m ∷ ms) =
    let rest = ids_for_button device code ms in if is_for device code m then m.id ∷ rest else rest

ids_at-push_code :
    (d device : Str) (c code : ℕ) (id : Str) (t : HashMap Str (HashMap ℕ (List Str)))
    → ids_at device code (push_code d c id t)
      ≡ ids_at device code t ++ (if d == device && c == code then id ∷ [] else [])
unfolding push_code
ids_at-push_code d device c code id t = elim (Bool-cases (d == device)) [
  | inl same ↦
      rw (get-insert device d (push_id c id (codes_of (HashMap.get d t))) t, same)
        (get-push_id code c id (codes_of (HashMap.get d t)) ∙ either same)
  | inr differ ↦
      rw (get-insert device d (push_id c id (codes_of (HashMap.get d t))) t, differ)
        (sym (append-nil (ids_at device code t)))
]
  where
    either :
        d == device ≡ true
        → (if c == code then ids_at d code t ++ id ∷ [] else ids_at d code t)
          ≡ ids_at device code t ++ (if c == code then id ∷ [] else [])
    either same = elim (Bool-cases (c == code)) [
      | inl hit ↦ rw (hit, (eq_iff d device).0 same) refl
      | inr miss ↦ rw (miss, (eq_iff d device).0 same) (sym (append-nil (ids_at device code t)))
    ]

prepend_if :
    (b : Bool) (id : Str) (l : List Str)
    → (if b then id ∷ [] else []) ++ l ≡ (if b then id ∷ l else l)
prepend_if true id l = refl
prepend_if false id l = refl

ids_for_button-cons :
    (d device : Str) (c code : ℕ) (m : Mapping) (ms : List Mapping)
    → m.device ≡ some d
    → parse_u16 m.code ≡ some c
    → (if d == device && c == code then m.id ∷ [] else []) ++ ids_for_button device code ms
      ≡ ids_for_button device code (m ∷ ms)
ids_for_button-cons d device c code m ms there reads =
    rw (ids_for_button, is_for, there, reads)
      (prepend_if (d == device && c == code) m.id (ids_for_button device code ms))

-- A mapping whose device is named and whose code is a number.
abbrev IsButton : Mapping → Type 0
IsButton m = (is_some m.device ≡ true) × (is_some (parse_u16 m.code) ≡ true)

-- What the tables must be.
record AreTables (ms : List Mapping) (t : HashMap Str (HashMap ℕ (List Str))) (o : Tables)
    : Type 0 where
  table : HashMap Str (HashMap ℕ (List Str))
  built : o ≡ tables table
  entries :
      (device : Str) (code : ℕ)
      → ids_at device code table ≡ ids_at device code t ++ ids_for_button device code ms

by_device_from-AreTables :
    (t : HashMap Str (HashMap ℕ (List Str))) (ms : List Mapping)
    → All IsButton ms
    → AreTables ms t (by_device_from t ms)
unfolding by_device_from
by_device_from-AreTables t [] h = record {
  table = t;
  built = refl;
  entries = λ device code. sym (append-nil (ids_at device code t));
}
by_device_from-AreTables t (m ∷ ms) h = elim (Option-cases m.device) [
  | inl absent ↦ absurd (cc (rw absent at h.0.0))
  | inr (d, there) ↦ elim (Option-cases (parse_u16 m.code)) [
    | inl fails ↦ absurd (cc (rw fails at h.0.1))
    | inr (c, reads) ↦
        let rest = by_device_from-AreTables (push_code d c m.id t) ms h.1 in
        record {
          table = rest.table;
          built = rw (there, by_device_from, reads) rest.built;
          entries = λ device code.
              rest.entries device code
              ∙ ap (λ l. l ++ ids_for_button device code ms)
                  (ids_at-push_code d device c code m.id t)
              ∙ append_assoc (ids_at device code t)
                  (if d == device && c == code then m.id ∷ [] else [])
                  (ids_for_button device code ms)
              ∙ ap (λ l. ids_at device code t ++ l)
                  (ids_for_button-cons d device c code m ms there reads);
        }
  ]
]

button :
    (i : InputKind) (m : Mapping)
    → validate_mapping linux i m ≡ none
    → is_keyboard i ≡ false
    → IsButton m
unfolding validate_mapping validate_gamepad
button keyboard m h pad = absurd (cc (pad))
button gamepad m h pad = elim (Option-cases m.device) [
  | inl absent ↦ absurd (cc (rw absent at h))
  | inr (d, there) ↦ (rw there refl, ground arith)
]

validate-AreButtons :
    (ms : List Mapping) → validate linux ms ≡ none → All IsButton (gamepad_mappings ms)
unfolding validate gamepad_mappings
validate-AreButtons [] h = tt
validate-AreButtons (m ∷ ms) h = elim (Option-cases (validate_mapping linux m.input m)) [
  | inl passes ↦
      let rest = validate-AreButtons ms (rw (passes, validate) at h) in
      elim (Bool-cases (is_keyboard m.input)) [
        | inl key ↦ rw key rest
        | inr pad ↦ rw pad (button m.input m passes pad, rest)
      ]
  | inr (error, fails) ↦ absurd (cc (rw (fails, validate) at h))
]

-- Once `validate` has passed the mappings on Linux, the tables of the gamepads are built without an
-- error or a panic, and the entry of a button of a device lists exactly the gamepad mappings of this
-- device whose code is the button's number, in the configuration's order.
pub by_device_lem :
    (ms : List Mapping)
    → validate linux ms ≡ none
    → (table : HashMap Str (HashMap ℕ (List Str))) × (by_device_from [] (gamepad_mappings ms)
        ≡ tables table)
      × ((device : Str) (code : ℕ)
          → ids_at device code table ≡ ids_for_button device code (gamepad_mappings ms))
unfolding HashMap.get
by_device_lem ms h =
    let built = by_device_from-AreTables [] (gamepad_mappings ms) (validate-AreButtons ms h) in
    (built.table, built.built, built.entries)
