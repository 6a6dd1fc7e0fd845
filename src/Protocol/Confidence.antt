-- ===== src/Protocol/Confidence.antt =====
-- `validate_confidence` of crates/usahp-core/src/protocol.rs.
use usahp_core.Base.{◌^◌, ◌≤◌, ◌<◌, ◌≡◌, ◌↔◌, ◌⊎◌, ◌&&◌, Option, none, some, arith, if◌then◌else◌}
use mathlib.Core.Option
use usahp_core.Protocol.Float.{F32, f32_zero, f32_hundred, is_finite, f32_leb}

unfoldable pub validate_confidence : F32 → Option F32
unfolding is_finite f32_leb
validate_confidence value =
    if is_finite value && (f32_leb f32_zero value && f32_leb value f32_hundred)
    then some value
    else none

unfoldable pub validate_confidence_opt : Option F32 → Option (Option F32)
validate_confidence_opt none = some none
validate_confidence_opt (some v) = Option.map some (validate_confidence v)

-- The 32-bit patterns that stand for a number from 0 to 100: those up to the pattern of 100.0, and
-- the negative zero.
abbrev pub IsPercentage : F32 → Type 0
IsPercentage x = (x ≤ 0x42c80000) ⊎ (x ≡ 0x80000000)

-- A confidence passes, unchanged, exactly when it is a number from 0 to 100; NaN, the infinities
-- and every value out of range are refused.
pub validate_confidence_iff :
    (x : F32)
    → x < 2 ^ 32
    → ((validate_confidence x ≡ some x) ↔ IsPercentage x)
      × ((validate_confidence x ≡ none) ⊎ (validate_confidence x ≡ some x))
unfolding validate_confidence
validate_confidence_iff x h = ((λ e. ground arith, λ p. ground arith), ground arith)

-- What is validated stays valid.
pub validate_confidence_twice :
    (x y : F32) → validate_confidence x ≡ some y → validate_confidence y ≡ some y
unfolding validate_confidence
validate_confidence_twice x y e = ground arith
