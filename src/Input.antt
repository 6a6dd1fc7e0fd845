-- ===== src/Input.antt =====
-- crates/usahp-daemon/src/input.rs and crates/usahp-daemon/src/macos_keyboard.rs: the mappings that
-- can be captured, the tables from keys to mappings, and the callbacks that take a key from the
-- operating system. `CaptureControl` is in the module Capture. Threads and the platforms' event
-- sources are not modelled: a callback is a function of the event and of the broker's inbox.
pub mod Keys
pub mod Keycodes
pub mod Grab
pub mod Grabbed
pub mod Table
pub mod Gamepad
pub mod Pads
use usahp_core.Base.{
  ℕ, ◌+◌, ◌-◌, ◌*◌, Bool, true, false, not, ◌&&◌, List, [], ◌∷◌, map, Option, none, some, ◌==◌, leb,
  nat_eqb, is_some, is_nil, if◌then◌else◌,
}
use usahp_core.Str.{Str, str_eq}
use usahp_core.Config.{Mapping, InputKind, keyboard, gamepad}
use usahp_core.Input.Keys.{Key, parse_key}

-- `target_os`, as far as the program asks for it.
pub data Os : Type 0 where
  linux macos other_os : Os

pub data InputError : Type 0 where
  unsupported_code keyboard_device no_suppression no_device_path code_not_numeric : Str → InputError

-- The digits of `str::parse::<u16>`, with the value so far; a value out of range is an error.
unfoldable pub parse_digits : ℕ → Str → Option ℕ
parse_digits n [] = some n
parse_digits n (c ∷ s) =
    let value = n * 10 + (c - 48) in
    let rest = parse_digits value s in
    if leb 48 c && leb c 57 && leb value 65535 then rest else none

-- A sign `+` may come first; there must be a digit.
unfoldable pub parse_u16 : Str → Option ℕ
unfolding parse_digits
parse_u16 [] = none
parse_u16 (c ∷ s) =
    if nat_eqb c 43 && not (is_nil s) then parse_digits 0 s else parse_digits 0 (c ∷ s)

-- `device.as_deref().unwrap_or_default().is_empty()`
abbrev pub no_path : Option Str → Bool
no_path none = true
no_path (some path) = is_nil path

-- `none` is `Ok(())`.
unfoldable pub validate_gamepad : Os → Mapping → Option InputError
unfolding parse_u16
validate_gamepad linux mapping =
    if no_path mapping.device
    then some (no_device_path mapping.id)
    else if not (is_some (parse_u16 mapping.code))
    then some (code_not_numeric mapping.id)
    else none
validate_gamepad macos mapping = some (no_suppression mapping.id)
validate_gamepad other_os mapping = some (no_suppression mapping.id)

unfoldable pub validate_mapping : Os → InputKind → Mapping → Option InputError
unfolding validate_gamepad parse_key
validate_mapping os keyboard mapping =
    if not (is_some (parse_key mapping.code))
    then some (unsupported_code mapping.id)
    else if is_some mapping.device
    then some (keyboard_device mapping.id)
    else none
validate_mapping os gamepad mapping = validate_gamepad os mapping

unfoldable pub validate : Os → List Mapping → Option InputError
unfolding validate_mapping
validate os [] = none
validate os (mapping ∷ rest) = elim (validate_mapping os mapping.input mapping) [
  | none ↦ validate os rest
  | some error ↦ some error
]
