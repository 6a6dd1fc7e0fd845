-- ===== src/Tests/Input.antt =====
-- Examples for crates/usahp-daemon/src/input.rs and crates/usahp-daemon/src/macos_keyboard.rs.
use usahp_core.Base.{ℕ, ◌≡◌, ◌↔◌, refl, true, false, none, some, List, [], ◌∷◌, is_some, nat_eq}
use usahp_core.Str.{str_eq, str_eqb, Str, str}
use usahp_core.Collections.HashMap
use usahp_core.Collections.HashMap.{HashMap}
use usahp_core.Capture.{CaptureControl, CaptureError, done, failed, pause, resume}
use usahp_core.Capture.Laws.{AllAcknowledge, pause-resume_lem}
use usahp_core.Input.{linux, validate}
use usahp_core.Input.Keys.{Key, parse_key, name_to_keycode, to_ascii_lowercase}
use usahp_core.Input.Keycodes.{key_eq, name_to_keycode_lem}
use usahp_core.Input.Grab.{
  grab_callback, tap_callback, key_press, by_key_from, keyboard_mappings, ids_of,
}
use usahp_core.Input.Grabbed.{Agree, forwards, tap_callback_lem}
use usahp_core.Input.Table.{by_key_lem, ids_for}
use usahp_core.Tests.{box_inbox, thread_backend, Box, three_mappings, Thread, good_thread}

name_to_keycode_lem_example :
    ((parse_key (str "Enter") ≡ none)
      ↔ (HashMap.get (to_ascii_lowercase (str "Enter")) name_to_keycode ≡ none))
    × ((parse_key (str "Enter") ≡ parse_key (str "return")) ↔ (
        HashMap.get (to_ascii_lowercase (str "Enter")) name_to_keycode
        ≡ HashMap.get (to_ascii_lowercase (str "return")) name_to_keycode))
name_to_keycode_lem_example = name_to_keycode_lem (str "Enter") (str "return")

by_key_lem_example :
    (table : HashMap Key (List Str)) × (by_key_from [] (keyboard_mappings three_mappings)
      ≡ some table)
    × ((k : Key) → ids_of (HashMap.get k table) ≡ ids_for k (keyboard_mappings three_mappings))
unfolding validate str_eqb HashMap.get
by_key_lem_example = by_key_lem linux three_mappings refl

abbrev one_box : Box
one_box = record { room = 1; events = [] }

abbrev two_keys : HashMap ℕ (List Str)
two_keys = (49, str "k1" ∷ []) ∷ (36, str "k2" ∷ str "k4" ∷ []) ∷ []

-- The broker is gone after the first of the two mappings.
tap_callback_lem_example :
    ((tap_callback true two_keys one_box (key_press 36)).0
      ≡ (grab_callback true two_keys one_box (key_press 36)).0)
    × ((tap_callback true two_keys one_box (key_press 36)).1
        ≡ is_some (forwards true two_keys (key_press 36)))
    × Agree one_box
        (forwards true two_keys (key_press 36))
        (tap_callback true two_keys one_box (key_press 36))
        (grab_callback true two_keys one_box (key_press 36))
tap_callback_lem_example = tap_callback_lem true two_keys one_box (key_press 36)

abbrev two_threads : CaptureControl Thread
two_threads = record {
  enabled = true;
  backends = good_thread ∷ record good_thread { on_resume = none } ∷ [];
}

pause-resume_lem_example :
    ((pause two_threads).0.enabled ≡ false)
    × (((resume two_threads).1 ≡ done) ↔ AllAcknowledge true two_threads.backends)
    × ((resume two_threads).1 ≡ done → (resume two_threads).0.enabled ≡ true)
    × ((e : CaptureError)
        → (resume two_threads).1 ≡ failed e
        → (resume two_threads).0.enabled ≡ two_threads.enabled)
pause-resume_lem_example = pause-resume_lem two_threads
