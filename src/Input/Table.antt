-- ===== src/Input/Table.antt =====
-- The tables from keys to mappings of crates/usahp-daemon/src/input.rs, and what `validate` has to do
-- with them.
use usahp_core.Base.{
  some_inj, is_some, Eq, ◌≡◌, refl, sym, ◌∙◌, ap, subst, true, List, [], ◌∷◌, ◌++◌, append_assoc,
  append-nil, none, some, ◌==◌, eq_iff, if◌then◌else◌, arith, All, Bool-cases, Option-cases, inl,
  inr,
}
use usahp_core.Str.{Str, str_eq}
use usahp_core.Collections.HashMap
use usahp_core.Collections.HashMap.{HashMap, get-insert}
use usahp_core.Config.{Mapping, InputKind, keyboard, gamepad}
use usahp_core.Input.Keys.{Key, parse_key}
use usahp_core.Input.Keycodes.{key_eq}
use usahp_core.Input.Grab.{ids_of, push_id, by_key_from, keyboard_mappings, is_keyboard}
use usahp_core.Input.{Os, validate, validate_mapping}

-- The identifiers of the mappings whose code names the key, in the order of the configuration.
abbrev pub ids_for : Key → List Mapping → List Str
ids_for k [] = []
ids_for k (m ∷ ms) =
    let rest = ids_for k ms in
    elim (parse_key m.code) [ none ↦ rest | some j ↦ if j == k then m.id ∷ rest else rest ]

pub get-push_id :
    {K : Type 0} ⦃eq : Eq K⦄ (j k : K) (id : Str) (t : HashMap K (List Str))
    → ids_of (HashMap.get j (push_id k id t))
      ≡ (if k == j then ids_of (HashMap.get j t) ++ id ∷ [] else ids_of (HashMap.get j t))
unfolding push_id
get-push_id j k id t = elim (Bool-cases (k == j)) [
  | inl same ↦
      rw (get-insert j k (ids_of (HashMap.get k t) ++ id ∷ []) t, same)
        (rw ((eq_iff k j).0 same) refl)
  | inr differ ↦ rw (get-insert j k (ids_of (HashMap.get k t) ++ id ∷ []) t, differ) refl
]

by_key_from-ids :
    (t t' : HashMap Key (List Str)) (ms : List Mapping) (k : Key)
    → by_key_from t ms ≡ some t'
    → ids_of (HashMap.get k t') ≡ ids_of (HashMap.get k t) ++ ids_for k ms
unfolding by_key_from
by_key_from-ids t t' [] k h =
    subst (λ x. ids_of (HashMap.get k x) ≡ ids_of (HashMap.get k t) ++ []) (some_inj h)
      (sym (append-nil (ids_of (HashMap.get k t))))
by_key_from-ids t t' (m ∷ ms) k h = elim (Option-cases (parse_key m.code)) [
  | inl fails ↦ absurd (cc (rw (fails, by_key_from) at h))
  | inr (j, reads) ↦
      let rest = by_key_from-ids (push_id j m.id t) t' ms k (rw (reads, by_key_from) at h) in
      elim (Bool-cases (j == k)) [
        | inl same ↦
            rw (reads, ids_for, same)
              (rest
                ∙ ap (λ l. l ++ ids_for k ms) (get-push_id k j m.id t ∙ rw same refl)
                ∙ append_assoc (ids_of (HashMap.get k t)) (m.id ∷ []) (ids_for k ms))
        | inr differ ↦
            rw (reads, ids_for, differ)
              (rest ∙ ap (λ l. l ++ ids_for k ms) (get-push_id k j m.id t ∙ rw differ refl))
      ]
]

-- A mapping that `validate` takes on a platform.
abbrev IsReadable : Mapping → Type 0
IsReadable m = is_some (parse_key m.code) ≡ true

readable :
    (os : Os) (i : InputKind) (m : Mapping)
    → validate_mapping os i m ≡ none
    → is_keyboard i ≡ true
    → IsReadable m
unfolding validate_mapping
readable os keyboard m h key = ground arith
readable os gamepad m h key = absurd (cc (key))

validate-IsReadable :
    (os : Os) (ms : List Mapping) → validate os ms ≡ none → All IsReadable (keyboard_mappings ms)
unfolding validate keyboard_mappings
validate-IsReadable os [] h = tt
validate-IsReadable os (m ∷ ms) h = elim (Option-cases (validate_mapping os m.input m)) [
  | inl passes ↦
      let rest = validate-IsReadable os ms (rw (passes, validate) at h) in
      elim (Bool-cases (is_keyboard m.input)) [
        | inl key ↦ rw key (readable os m.input m passes key, rest)
        | inr pad ↦ rw pad rest
      ]
  | inr (error, fails) ↦ absurd (cc (rw (fails, validate) at h))
]

by_key_from-total :
    (t : HashMap Key (List Str)) (ms : List Mapping)
    → All IsReadable ms
    → (t' : HashMap Key (List Str)) × (by_key_from t ms ≡ some t')
unfolding by_key_from
by_key_from-total t [] h = (t, refl)
by_key_from-total t (m ∷ ms) h = elim (Option-cases (parse_key m.code)) [
  | inl fails ↦ absurd (cc (rw fails at h.0))
  | inr (k, reads) ↦
      let (t', e) = by_key_from-total (push_id k m.id t) ms h.1 in (t', rw (reads, by_key_from) e)
]

-- Once `validate` has passed the mappings, the table of the keyboard can be built, and a key's entry
-- in it lists exactly the keyboard mappings whose code names the key, in the configuration's order.
pub by_key_lem :
    (os : Os) (ms : List Mapping)
    → validate os ms ≡ none
    → (table : HashMap Key (List Str)) × (by_key_from [] (keyboard_mappings ms) ≡ some table)
      × ((k : Key) → ids_of (HashMap.get k table) ≡ ids_for k (keyboard_mappings ms))
unfolding HashMap.get
by_key_lem os ms h =
    let (table, built) =
      by_key_from-total [] (keyboard_mappings ms) (validate-IsReadable os ms h) in
    (table, built, λ k. by_key_from-ids [] table (keyboard_mappings ms) k built)
