-- ===== src/Input/Grab.antt =====
-- The tables from keys to mappings and the two keyboard callbacks: `spawn_keyboard` of
-- crates/usahp-daemon/src/input.rs and `spawn` of crates/usahp-daemon/src/macos_keyboard.rs.
use usahp_core.Base.{
  ℕ, Bool, true, false, List, [], ◌∷◌, ◌++◌, Option, none, some, ◌≡◌, if◌then◌else◌, Eq, nat_eq,
}
use usahp_core.Str.{Str, str_eq}
use usahp_core.Collections.HashMap
use usahp_core.Collections.HashMap.{HashMap}
use usahp_core.Protocol.{Action}
use usahp_core.Protocol.Float.{F32, f32_zero, f32_hundred}
use usahp_core.Config.{Mapping, InputKind, keyboard, gamepad}
use usahp_core.Broker.Types.{PhysicalEvent}
use usahp_core.Input.Keys.{Key, parse_key, to_ascii_lowercase, name_to_keycode}

-- The broker's command channel as a callback sees it: `blocking_send` waits for room, and fails only
-- when the broker has gone. What was taken is in the order of the sends.
pub record Inbox (I : Type 0) : Type 0 where
  pub blocking_send : I → PhysicalEvent → I × Bool
  pub taken : I → List PhysicalEvent
  pub taken_ok :
      (i : I) (e : PhysicalEvent)
      → (blocking_send i e).1 ≡ true
      → taken (blocking_send i e).0 ≡ taken i ++ e ∷ []
  pub taken_failed :
      (i : I) (e : PhysicalEvent)
      → (blocking_send i e).1 ≡ false
      → taken (blocking_send i e).0 ≡ taken i

abbrev pub is_keyboard : InputKind → Bool
is_keyboard keyboard = true
is_keyboard gamepad = false

-- `.filter(|mapping| mapping.input == InputKind::Keyboard)`
unfoldable pub keyboard_mappings : List Mapping → List Mapping
keyboard_mappings [] = []
keyboard_mappings (m ∷ ms) =
    let rest = keyboard_mappings ms in if is_keyboard m.input then m ∷ rest else rest

-- The entry of a key, or an empty one.
abbrev pub ids_of : Option (List Str) → List Str
ids_of none = []
ids_of (some ids) = ids

module _ {K : Type 0} ⦃e : Eq K⦄ where
  -- `by_key.entry(key).or_default().push(id)`
  unfoldable pub push_id : K → Str → HashMap K (List Str) → HashMap K (List Str)
  unfolding HashMap.insert HashMap.get
  push_id k id table = HashMap.insert k (ids_of (HashMap.get k table) ++ id ∷ []) table

-- The loop over the mappings of `spawn_keyboard`; `none` is the error of `parse_key`.
unfoldable pub by_key_from :
    ⦃e : Eq Key⦄ → HashMap Key (List Str) → List Mapping → Option (HashMap Key (List Str))
unfolding push_id parse_key
by_key_from table [] = some table
by_key_from table (m ∷ ms) = elim (parse_key m.code) [
  | none ↦ none
  | some key ↦ by_key_from (push_id key m.id table) ms
]

-- The loop over the mappings of the macOS `spawn`: a code without an entry is skipped.
unfoldable pub by_keycode_from : HashMap ℕ (List Str) → List Mapping → HashMap ℕ (List Str)
unfolding push_id HashMap.get name_to_keycode
by_keycode_from table [] = table
by_keycode_from table (m ∷ ms) = elim (HashMap.get (to_ascii_lowercase m.code) name_to_keycode) [
  | none ↦ by_keycode_from table ms
  | some keycode ↦ by_keycode_from (push_id keycode m.id table) ms
]

-- The confidence of a binary switch.
abbrev pub binary_confidence : Action → F32
binary_confidence Action.pressed = f32_hundred
binary_confidence Action.released = f32_zero

abbrev pub physical : Action → Str → PhysicalEvent
physical action id = record {
  mapping_id = id;
  action = action;
  confidence = some (binary_confidence action);
}

-- `rdev::EventType` and `CGEventType`, as far as the callbacks ask: the edge of a key, or anything else.
pub data EventType (K : Type 0) : Type 0 where
  key_press key_release : K → EventType K
  other_event : EventType K

abbrev pub edge : {K : Type 0} → EventType K → Option (K × Action)
edge (key_press key) = some (key, Action.pressed)
edge (key_release key) = some (key, Action.released)
edge other_event = none

module _ {I : Type 0} ⦃inbox : Inbox I⦄ where
  -- The loop over the mappings of a key, which a failed send ends.
  unfoldable pub send_ids : I → Action → List Str → I × Bool
  send_ids i action [] = (i, true)
  send_ids i action (id ∷ ids) =
      let (i', sent) = inbox.blocking_send i (physical action id) in
      let rest = send_ids i' action ids in elim sent [ true ↦ rest | false ↦ (i', false) ]

  -- From `by_key.get(&key)` on: is the key kept from the operating system?
  unfoldable pub grab_entry : I → Action → Option (List Str) → I × Bool
  unfolding send_ids
  grab_entry i action none = (i, false)
  grab_entry i action (some ids) = send_ids i action ids

  unfoldable pub tap_entry : I → Action → Option (List Str) → I × Bool
  unfolding send_ids
  tap_entry i action none = (i, false)
  tap_entry i action (some ids) = ((send_ids i action ids).0, true)

  module _ {K : Type 0} ⦃e : Eq K⦄ where
    unfoldable pub grab_edge : HashMap K (List Str) → I → Option (K × Action) → I × Bool
    unfolding grab_entry HashMap.get
    grab_edge by_key i none = (i, false)
    grab_edge by_key i (some (key, action)) = grab_entry i action (HashMap.get key by_key)

    -- The callback of `rdev::grab`; `true` is `None`, which keeps the key.
    unfoldable pub grab_callback : Bool → HashMap K (List Str) → I → EventType K → I × Bool
    unfolding grab_edge
    grab_callback false by_key i event = (i, false)
    grab_callback true by_key i event = grab_edge by_key i (edge event)

    unfoldable pub tap_edge : HashMap K (List Str) → I → Option (K × Action) → I × Bool
    unfolding tap_entry HashMap.get
    tap_edge by_key i none = (i, false)
    tap_edge by_key i (some (key, action)) = tap_entry i action (HashMap.get key by_key)

    -- The callback of the macOS event tap; `true` is `CallbackResult::Drop`.
    unfoldable pub tap_callback : Bool → HashMap K (List Str) → I → EventType K → I × Bool
    unfolding tap_edge
    tap_callback false by_key i event = (i, false)
    tap_callback true by_key i event = tap_edge by_key i (edge event)
