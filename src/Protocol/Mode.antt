-- ===== src/Protocol/Mode.antt =====
-- The two conversions of a requested mode of crates/usahp-core/src/protocol.rs.
use usahp_core.Base.{◌≡◌, ◌≢◌, refl, sym, ap, Bool-cases, inl, inr, ◌==◌, eq_iff}
use usahp_core.Str.{str_eqb, Str, str, str_eq}
use usahp_core.Protocol.{
  RequestedMode, exclusive_foreground, unsupported, mode_from_string, mode_into_string,
}

-- Every string reads as a mode that is written back as that string.
mode_into_string-mode_from_string : (s : Str) → mode_into_string (mode_from_string s) ≡ s
unfolding mode_from_string mode_into_string
mode_into_string-mode_from_string s = elim (Bool-cases (s == str "exclusive_foreground")) [
  | inl e ↦ rw e (sym ((eq_iff s (str "exclusive_foreground")).0 e))
  | inr e ↦ rw e refl
]

-- Strings and modes stand for each other: a string that is read is written back as it was, and a
-- mode that is written is read back as it was, but for an unsupported mode by the supported one's name,
-- which no string reads as.
mode_roundtrip :
    (m : RequestedMode) (s : Str)
    → m ≢ unsupported (str "exclusive_foreground")
    → (mode_into_string (mode_from_string s) ≡ s) × (mode_from_string (mode_into_string m) ≡ m)
unfolding mode_from_string mode_into_string str_eqb
mode_roundtrip exclusive_foreground s h = (mode_into_string-mode_from_string s, refl)
mode_roundtrip (unsupported t) s h = (
  mode_into_string-mode_from_string s,
  elim (Bool-cases (t == str "exclusive_foreground")) [
    | inl e ↦ absurd (h (ap unsupported ((eq_iff t (str "exclusive_foreground")).0 e)))
    | inr e ↦ rw e refl
  ],
)
