-- ===== src/Protocol/Float.antt =====
-- `f32` as its 32 bits, a number below 2 ^ 32: the sign in bit 31, eight bits of exponent, 23 of
-- fraction. The tests are those of IEEE 754 that `validate_confidence` uses.
use usahp_core.Base.{ℕ, ◌%◌, ◌^◌, Bool, true, not, ◌&&◌, leb, ltb, nat_eqb, if◌then◌else◌}

abbrev pub F32 : Type 0
F32 = ℕ

-- 0.0 and 100.0
abbrev pub f32_zero : F32
f32_zero = 0

abbrev pub f32_hundred : F32
f32_hundred = 0x42c80000

abbrev pub is_negative : F32 → Bool
is_negative x = leb (2 ^ 31) x

-- The value without its sign orders the finite and infinite values of one sign.
abbrev pub magnitude : F32 → ℕ
magnitude x = x % 2 ^ 31

abbrev pub is_nan : F32 → Bool
is_nan x = ltb 0x7f800000 (magnitude x)

unfoldable pub is_finite : F32 → Bool
is_finite x = ltb (magnitude x) 0x7f800000

-- `<=`: false at a NaN, and the two zeros are equal.
unfoldable pub f32_leb : F32 → F32 → Bool
f32_leb x y =
    not (is_nan x)
    && not (is_nan y)
    && (if is_negative x
        then (if is_negative y then leb (magnitude y) (magnitude x) else true)
        else if is_negative y
        then nat_eqb (magnitude x) 0 && nat_eqb (magnitude y) 0
        else leb (magnitude x) (magnitude y))
