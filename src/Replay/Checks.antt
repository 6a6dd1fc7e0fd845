-- ===== src/Replay/Checks.antt =====
-- Tests of crates/usahp-core/src/protocol.rs, crates/usahp-core/src/config.rs,
-- crates/usahp-daemon/src/input.rs and crates/usahp-daemon/src/macos_keyboard.rs, replayed. Those of the
-- JSON shapes are about serde.
use usahp_core.Base.{
  ℕ, zero, suc, ◌≡◌, ◌⊎◌, inr, refl, Bool, true, false, not, ◌&&◌, List, [], ◌∷◌, Option, none,
  some, is_some, nat_eqb, length, all, ◌==◌,
}
use usahp_core.Str.{Str, str, str_eq}
use usahp_core.Collections.HashMap
use usahp_core.Protocol.Confidence.{validate_confidence}
use usahp_core.Protocol.AppId.{valid_app_id}
use usahp_core.Config.{
  Config, Mapping, keyboard, Loaded, loaded, not_loaded, parse, read_error, parse_error,
  no_mappings, zero_queue_capacity, duplicate_mapping_id, empty_switch_id, empty_code,
}
use usahp_core.Input.Keys.{parse_key, name_to_keycode}

-- `assert_eq!` of optional numbers.
abbrev same : Option ℕ → Option ℕ → Bool
same none none = true
same none (some y) = false
same (some x) none = false
same (some x) (some y) = nat_eqb x y

-- The floats by their bits: 0.0, 100.0, 50.5, -0.1, 100.1, NaN and the two infinities.
abbrev pub validate_confidence_rejects_invalid : Bool
validate_confidence_rejects_invalid =
    same (validate_confidence 0) (some 0)
    && same (validate_confidence 0x42c80000) (some 0x42c80000)
    && same (validate_confidence 0x424a0000) (some 0x424a0000)
    && same (validate_confidence 0xbdcccccd) none
    && same (validate_confidence 0x42c83333) none
    && same (validate_confidence 0x7fc00000) none
    && same (validate_confidence 0x7f800000) none
    && same (validate_confidence 0xff800000) none

-- `"a".repeat(n)`
abbrev repeat_a : ℕ → Str
repeat_a zero = []
repeat_a (suc n) = 97 ∷ repeat_a n

abbrev pub app_ids_are_strict_ascii_identifiers : Bool
app_ids_are_strict_ascii_identifiers =
    all valid_app_id (str "app" ∷ str "org.example.Switch_1" ∷ str "a-b" ∷ [])
    && all (λ s. not (valid_app_id s))
        (str "" ∷ str "has space" ∷ str "café" ∷ str "slash/app" ∷ [])
    && not (valid_app_id (repeat_a 129))

-- The configuration that the test's text has.
abbrev pub valid : Config
valid = record {
  server = record { port = 7312; client_queue_capacity = 8 };
  simulator = record { stdin = true };
  mappings =
      record {
        id = str "space";
        switch_id = str "switch_1";
        input = keyboard;
        code = str "Space";
        device = none;
      }
      ∷ record {
        id = str "enter";
        switch_id = str "switch_1";
        input = keyboard;
        code = str "Return";
        device = none;
      }
      ∷ [];
}

abbrev one_switch : List Mapping → Bool
one_switch [] = false
one_switch (a ∷ []) = false
one_switch (a ∷ b ∷ rest) = a.switch_id == b.switch_id

abbrev is_many_to_one : Loaded → Bool
is_many_to_one (not_loaded e) = false
is_many_to_one (loaded config) =
    nat_eqb (length config.mappings) 2 && one_switch config.mappings && config.simulator.stdin

abbrev read_as : Config → Str → Str ⊎ Config
read_as config content = inr config

abbrev pub parses_many_to_one_mapping : Bool
parses_many_to_one_mapping = is_many_to_one (parse (read_as valid) (str "..."))

-- Every identifier is `space`.
abbrev same_ids : List Mapping → List Mapping
same_ids [] = []
same_ids (m ∷ ms) = record m { id = str "space" } ∷ same_ids ms

abbrev is_duplicate : Loaded → Bool
is_duplicate (loaded config) = false
is_duplicate (not_loaded (duplicate_mapping_id id)) = id == str "space"
is_duplicate (not_loaded (read_error e)) = false
is_duplicate (not_loaded (parse_error e)) = false
is_duplicate (not_loaded no_mappings) = false
is_duplicate (not_loaded zero_queue_capacity) = false
is_duplicate (not_loaded (empty_switch_id id)) = false
is_duplicate (not_loaded (empty_code id)) = false

abbrev pub rejects_duplicate_mapping_ids : Bool
rejects_duplicate_mapping_ids =
    is_duplicate (parse (read_as (record valid { mappings = same_ids valid.mappings })) (str "..."))

abbrev pub accepts_documented_keyboard_codes : Bool
accepts_documented_keyboard_codes =
    all (λ code. is_some (parse_key code))
      (str "Space" ∷ str "Return" ∷ str "Escape" ∷ str "A" ∷ str "Z" ∷ str "LeftArrow" ∷ [])

abbrev pub expected_keycodes : List (Str × ℕ)
expected_keycodes =
    (str "space", 49)
    ∷ (str "return", 36)
    ∷ (str "escape", 53)
    ∷ (str "tab", 48)
    ∷ (str "up", 126)
    ∷ (str "down", 125)
    ∷ (str "left", 123)
    ∷ (str "right", 124)
    ∷ (str "a", 0)
    ∷ (str "b", 11)
    ∷ (str "c", 8)
    ∷ (str "d", 2)
    ∷ (str "e", 14)
    ∷ (str "f", 3)
    ∷ (str "g", 5)
    ∷ (str "h", 4)
    ∷ (str "i", 34)
    ∷ (str "j", 38)
    ∷ (str "k", 40)
    ∷ (str "l", 37)
    ∷ (str "m", 46)
    ∷ (str "n", 45)
    ∷ (str "o", 31)
    ∷ (str "p", 35)
    ∷ (str "q", 12)
    ∷ (str "r", 15)
    ∷ (str "s", 1)
    ∷ (str "t", 17)
    ∷ (str "u", 32)
    ∷ (str "v", 9)
    ∷ (str "w", 13)
    ∷ (str "x", 7)
    ∷ (str "y", 16)
    ∷ (str "z", 6)
    ∷ []

abbrev pub maps_every_documented_keyboard_code : Bool
maps_every_documented_keyboard_code =
    all (λ (e : Str × ℕ). same (HashMap.get e.0 name_to_keycode) (some e.1)) expected_keycodes

abbrev pub aliases_share_virtual_keycodes : Bool
aliases_share_virtual_keycodes =
    all
      (λ (e : Str × Str). same (HashMap.get e.0 name_to_keycode) (HashMap.get e.1 name_to_keycode))
      ((str "enter", str "return")
        ∷ (str "esc", str "escape")
        ∷ (str "uparrow", str "up")
        ∷ (str "downarrow", str "down")
        ∷ (str "leftarrow", str "left")
        ∷ (str "rightarrow", str "right")
        ∷ [])

checks_pass :
    (validate_confidence_rejects_invalid && app_ids_are_strict_ascii_identifiers
      && parses_many_to_one_mapping && rejects_duplicate_mapping_ids
      && accepts_documented_keyboard_codes && maps_every_documented_keyboard_code
      && aliases_share_virtual_keycodes)
    ≡ true
unfolding validate_confidence valid_app_id parse parse_key name_to_keycode HashMap.get
    usahp_core.Str.str_eqb
checks_pass = refl
