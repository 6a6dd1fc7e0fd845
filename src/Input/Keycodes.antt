-- ===== src/Input/Keycodes.antt =====
-- The tables of key names of crates/usahp-daemon/src/input.rs and of
-- crates/usahp-daemon/src/macos_keyboard.rs, side by side.
use mathlib.Core.Option
use usahp_core.Base.{
  ℕ, ◌+◌, ◌-◌, nat_eqb, ◌≡◌, ◌↔◌, ◌∙◌, sym, ap, refl, Bool, true, List, [], ◌∷◌, map, Option, none,
  some, leb, if◌then◌else◌, Eq, arith,
}
use usahp_core.Str.{str_eqb, Str, str_eq}
use usahp_core.Collections.HashMap
use usahp_core.Collections.HashMap.{HashMap}
use usahp_core.Input.Keys.{
  Key, space, return, escape, tab, up_arrow, down_arrow, left_arrow, right_arrow, other, key_a,
  key_b, key_c, key_d, key_e, key_f, key_g, key_h, key_i, key_j, key_k, key_l, key_m, key_n, key_o,
  key_p, key_q, key_r, key_s, key_t, key_u, key_v, key_w, key_x, key_y, key_z, to_ascii_lowercase,
  key_names, parse_key, name_to_keycode,
}

-- The virtual key code of a key.
abbrev pub keycode_of : Key → ℕ
keycode_of space = 49
keycode_of return = 36
keycode_of escape = 53
keycode_of tab = 48
keycode_of up_arrow = 126
keycode_of down_arrow = 125
keycode_of left_arrow = 123
keycode_of right_arrow = 124
keycode_of key_a = 0
keycode_of key_b = 11
keycode_of key_c = 8
keycode_of key_d = 2
keycode_of key_e = 14
keycode_of key_f = 3
keycode_of key_g = 5
keycode_of key_h = 4
keycode_of key_i = 34
keycode_of key_j = 38
keycode_of key_k = 40
keycode_of key_l = 37
keycode_of key_m = 46
keycode_of key_n = 45
keycode_of key_o = 31
keycode_of key_p = 35
keycode_of key_q = 12
keycode_of key_r = 15
keycode_of key_s = 1
keycode_of key_t = 17
keycode_of key_u = 32
keycode_of key_v = 9
keycode_of key_w = 13
keycode_of key_x = 7
keycode_of key_y = 16
keycode_of key_z = 6
keycode_of (other n) = 1000 + n

-- The key that has a code.
key_at : ℕ → Key
key_at n = if leb 1000 n then other (n - 1000) else named n key_rows
  where
    key_rows : List (ℕ × Key)
    key_rows =
        (49, space)
        ∷ (36, return)
        ∷ (53, escape)
        ∷ (48, tab)
        ∷ (126, up_arrow)
        ∷ (125, down_arrow)
        ∷ (123, left_arrow)
        ∷ (124, right_arrow)
        ∷ (0, key_a)
        ∷ (11, key_b)
        ∷ (8, key_c)
        ∷ (2, key_d)
        ∷ (14, key_e)
        ∷ (3, key_f)
        ∷ (5, key_g)
        ∷ (4, key_h)
        ∷ (34, key_i)
        ∷ (38, key_j)
        ∷ (40, key_k)
        ∷ (37, key_l)
        ∷ (46, key_m)
        ∷ (45, key_n)
        ∷ (31, key_o)
        ∷ (35, key_p)
        ∷ (12, key_q)
        ∷ (15, key_r)
        ∷ (1, key_s)
        ∷ (17, key_t)
        ∷ (32, key_u)
        ∷ (9, key_v)
        ∷ (13, key_w)
        ∷ (7, key_x)
        ∷ (16, key_y)
        ∷ (6, key_z)
        ∷ []

    named : ℕ → List (ℕ × Key) → Key
    named n [] = other 0
    named n ((c, k) ∷ l) = let rest = named n l in if nat_eqb n c then k else rest

key_at-keycode_of : (k : Key) → key_at (keycode_of k) ≡ k
unfolding key_at
key_at-keycode_of space = refl
key_at-keycode_of return = refl
key_at-keycode_of escape = refl
key_at-keycode_of tab = refl
key_at-keycode_of up_arrow = refl
key_at-keycode_of down_arrow = refl
key_at-keycode_of left_arrow = refl
key_at-keycode_of right_arrow = refl
key_at-keycode_of key_a = refl
key_at-keycode_of key_b = refl
key_at-keycode_of key_c = refl
key_at-keycode_of key_d = refl
key_at-keycode_of key_e = refl
key_at-keycode_of key_f = refl
key_at-keycode_of key_g = refl
key_at-keycode_of key_h = refl
key_at-keycode_of key_i = refl
key_at-keycode_of key_j = refl
key_at-keycode_of key_k = refl
key_at-keycode_of key_l = refl
key_at-keycode_of key_m = refl
key_at-keycode_of key_n = refl
key_at-keycode_of key_o = refl
key_at-keycode_of key_p = refl
key_at-keycode_of key_q = refl
key_at-keycode_of key_r = refl
key_at-keycode_of key_s = refl
key_at-keycode_of key_t = refl
key_at-keycode_of key_u = refl
key_at-keycode_of key_v = refl
key_at-keycode_of key_w = refl
key_at-keycode_of key_x = refl
key_at-keycode_of key_y = refl
key_at-keycode_of key_z = refl
key_at-keycode_of (other n) =
    let big : leb 1000 (1000 + n) ≡ true = ground arith in
    let back : 1000 + n - 1000 ≡ n = omega arith in rw big (ap other back)

keycode_of_injective : (j k : Key) → keycode_of j ≡ keycode_of k → j ≡ k
keycode_of_injective j k e = sym (key_at-keycode_of j) ∙ ap key_at e ∙ key_at-keycode_of k

abbrev pub key_eqb : Key → Key → Bool
key_eqb j k = nat_eqb (keycode_of j) (keycode_of k)

pub key_eqb_sound : (j k : Key) → key_eqb j k ≡ true → j ≡ k
key_eqb_sound j k h = keycode_of_injective j k (ground arith)

pub key_eqb_refl : (k : Key) → key_eqb k k ≡ true
key_eqb_refl k = ground arith

instance abbrev pub key_eq : Eq Key
key_eq = record { eqb = key_eqb; sound = key_eqb_sound; reflexive = key_eqb_refl }

get-map :
    {A B : Type 0} (f : A → B) (k : Str) (m : HashMap Str A)
    → HashMap.get k (map (λ (e : Str × A). (e.0, f e.1)) m) ≡ Option.map f (HashMap.get k m)
unfolding HashMap.get
get-map f k [] = refl
get-map f k ((j, v) ∷ m) = ground (arith, get-map f k m)

tables : map (λ (e : Str × Key). (e.0, keycode_of e.1)) key_names ≡ name_to_keycode
unfolding name_to_keycode HashMap.insert HashMap.collect_from str_eqb
tables = refl

keycodes_lem :
    (code : Str)
    → HashMap.get (to_ascii_lowercase code) name_to_keycode ≡ Option.map keycode_of (parse_key code)
unfolding parse_key
keycodes_lem code =
    ap (HashMap.get (to_ascii_lowercase code)) (sym tables)
    ∙ get-map keycode_of (to_ascii_lowercase code) key_names

map_injective : (x y : Option Key) → Option.map keycode_of x ≡ Option.map keycode_of y → x ≡ y
map_injective none none e = refl
map_injective none (some k) e = absurd (cc (e))
map_injective (some j) none e = absurd (cc (e))
map_injective (some j) (some k) e = ap some (keycode_of_injective j k (cc (e)))

-- The tables of the two platforms agree: a code that `parse_key` refuses has no macOS key code and
-- the other way round, and two codes name one key there exactly if they name one here.
pub name_to_keycode_lem :
    (code code' : Str)
    → ((parse_key code ≡ none) ↔ (HashMap.get (to_ascii_lowercase code) name_to_keycode ≡ none))
      × ((parse_key code ≡ parse_key code') ↔ (
          HashMap.get (to_ascii_lowercase code) name_to_keycode
          ≡ HashMap.get (to_ascii_lowercase code') name_to_keycode))
name_to_keycode_lem code code' = (
  (
    λ h. keycodes_lem code ∙ ap (Option.map keycode_of) h,
    λ h. map_injective (parse_key code) none (sym (keycodes_lem code) ∙ h),
  ),
  (
    λ h. keycodes_lem code ∙ ap (Option.map keycode_of) h ∙ sym (keycodes_lem code'),
    λ h.
        map_injective (parse_key code) (parse_key code')
          (sym (keycodes_lem code) ∙ h ∙ keycodes_lem code'),
  ),
)
