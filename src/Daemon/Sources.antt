-- ===== src/Daemon/Sources.antt =====
-- The identifiers that the input threads of `spawn` of crates/usahp-daemon/src/input.rs may send.
use usahp_core.Base.{
  ℕ, ◌≡◌, inl, inr, refl, ◌∙◌, subst, List, [], ◌∷◌, Option, none, some, some_inj, is_nil,
  Bool-cases, Option-cases, nat_eq,
}
use usahp_core.Str.{Str, str_eq}
use usahp_core.Collections.HashMap.{HashMap}
use usahp_core.Config.{Mapping}
use usahp_core.Input.{Os}
use usahp_core.Input.Keys.{Key}
use usahp_core.Input.Keycodes.{key_eq}
use usahp_core.Input.Grab.{keyboard_mappings, by_key_from, by_keycode_from}
use usahp_core.Input.Pads.{gamepad_mappings, tables}
use usahp_core.Input.{linux, macos, other_os}
use usahp_core.Input.Pads.{Tables, bad_code, no_device}
use usahp_core.Daemon.{
  Capturing, spawned, spawn_error, spawn_gamepads, with_pads, tap_of, spawn_keyboard, spawn,
}
use usahp_core.Daemon.Entries.{
  keyboard_mappings-All, gamepad_mappings-All, AreIds, AreOwn, by_key_from-AreIds,
  by_keycode_from-AreIds, AreAllIds, by_device_from-AreAllIds,
}

-- The identifiers that the threads' tables hold have a property.
pub record AreCaptured (P : Str → Type 0) (x : Capturing) : Type 0 where
  pub grab : (t : HashMap Key (List Str)) → x.grab ≡ some t → AreIds P t
  pub tap : (t : HashMap ℕ (List Str)) → x.tap ≡ some t → AreIds P t
  pub pads : AreAllIds P x.pads

with_pads-AreCaptured :
    (P : Str → Type 0) (grab : Option (HashMap Key (List Str)))
    (tap : Option (HashMap ℕ (List Str))) (o : Tables) (x : Capturing)
    → ((t : HashMap Key (List Str)) → grab ≡ some t → AreIds P t)
    → ((t : HashMap ℕ (List Str)) → tap ≡ some t → AreIds P t)
    → ((t : HashMap Str (HashMap ℕ (List Str))) → o ≡ tables t → AreAllIds P t)
    → with_pads grab tap o ≡ spawned x
    → AreCaptured P x
with_pads-AreCaptured P grab tap (tables pads) x g k p e =
    let same : record { grab = grab; tap = tap; pads = pads } ≡ x = cc (e) in
    subst (AreCaptured P) same (record { grab = g; tap = k; pads = p pads refl })
with_pads-AreCaptured P grab tap bad_code x g k p e = absurd (cc (e))
with_pads-AreCaptured P grab tap no_device x g k p e = absurd (cc (e))

module _ (P : Str → Type 0) where
  spawn_gamepads-AreAllIds :
      (os : Os) (ms : List Mapping) (t : HashMap Str (HashMap ℕ (List Str)))
      → AreOwn P ms
      → spawn_gamepads os ms ≡ tables t
      → AreAllIds P t
  unfolding spawn_gamepads
  spawn_gamepads-AreAllIds linux ms t own e =
      by_device_from-AreAllIds P [] t (gamepad_mappings ms) tt
        (gamepad_mappings-All (λ (m : Mapping). P m.id) ms own) e
  spawn_gamepads-AreAllIds macos ms t own e =
      let same : [] ≡ t = cc (e) in subst (AreAllIds P) same tt
  spawn_gamepads-AreAllIds other_os ms t own e =
      let same : [] ≡ t = cc (e) in subst (AreAllIds P) same tt

  nothing : {K : Type 0} (t : HashMap K (List Str)) → none ≡ some t → AreIds P t
  nothing t e = absurd (cc (e))

  grab-AreCaptured :
      (keyboard : List Mapping) (o : Tables) (x : Capturing)
      → AreOwn P keyboard
      → ((t : HashMap Str (HashMap ℕ (List Str))) → o ≡ tables t → AreAllIds P t)
      → elim (by_key_from [] keyboard) [
        | none ↦ spawn_error
        | some by_key ↦ with_pads (some by_key) none o
      ]
        ≡ spawned x
      → AreCaptured P x
  grab-AreCaptured keyboard o x own p e = elim (Option-cases (by_key_from [] keyboard)) [
    | inl fails ↦ absurd (cc (rw fails at e))
    | inr (t, built) ↦
        with_pads-AreCaptured P (some t) none o x
          (λ t' q. by_key_from-AreIds P [] t' keyboard tt own (built ∙ q)) nothing p (rw built at e)
  ]

  tap_of-AreIds : (t t' : HashMap ℕ (List Str)) → AreIds P t → tap_of t ≡ some t' → AreIds P t'
  tap_of-AreIds [] t' h e = absurd (cc (e))
  tap_of-AreIds (x ∷ t) t' h e = subst (AreIds P) (some_inj e) h

  spawn_keyboard-AreCaptured :
      (os : Os) (keyboard : List Mapping) (o : Tables) (x : Capturing)
      → AreOwn P keyboard
      → ((t : HashMap Str (HashMap ℕ (List Str))) → o ≡ tables t → AreAllIds P t)
      → spawn_keyboard os keyboard o ≡ spawned x
      → AreCaptured P x
  unfolding spawn_keyboard
  spawn_keyboard-AreCaptured linux keyboard o x own p e = grab-AreCaptured keyboard o x own p e
  spawn_keyboard-AreCaptured other_os keyboard o x own p e = grab-AreCaptured keyboard o x own p e
  spawn_keyboard-AreCaptured macos keyboard o x own p e =
      with_pads-AreCaptured P none (tap_of (by_keycode_from [] (keyboard_mappings keyboard))) o x
        nothing
        (λ t' q.
          tap_of-AreIds (by_keycode_from [] (keyboard_mappings keyboard)) t'
            (by_keycode_from-AreIds P [] (keyboard_mappings keyboard) tt
              (keyboard_mappings-All (λ (m : Mapping). P m.id) keyboard own))
            q)
        p e

  pub spawn-AreCaptured :
      (os : Os) (ms : List Mapping) (x : Capturing)
      → AreOwn P ms
      → spawn os ms ≡ spawned x
      → AreCaptured P x
  unfolding spawn
  spawn-AreCaptured os ms x own e = elim (Bool-cases (is_nil (keyboard_mappings ms))) [
    | inl empty ↦
        with_pads-AreCaptured P none none (spawn_gamepads os ms) x nothing nothing
          (λ t q. spawn_gamepads-AreAllIds os ms t own q) (rw empty at e)
    | inr full ↦
        spawn_keyboard-AreCaptured os (keyboard_mappings ms) (spawn_gamepads os ms) x
          (keyboard_mappings-All (λ (m : Mapping). P m.id) ms own)
          (λ t q. spawn_gamepads-AreAllIds os ms t own q) (rw full at e)
  ]
