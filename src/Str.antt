-- ===== src/Str.antt =====
-- Rust's `String` and `&str` as the list of their Unicode scalar values. `==` and `<` are those of
-- `str`: UTF-8 keeps the order of scalar values, so the order of the bytes is that of these lists.
use Prim.Native.Char.{code}
use Prim.Native.String.{String}
use usahp_core.Base.{
  ℕ, ◌≡◌, refl, Bool, true, false, ◌&&◌, ◌||◌, List, [], ◌∷◌, arith, ltb, Eq, nat_eqb,
}

abbrev pub Str : Type 0
Str = List ℕ

-- A literal's scalar values.
abbrev pub str : String → Str
str String.[] = []
str (String.◌∷◌ c s) = code c ∷ str s

unfoldable pub str_eqb : Str → Str → Bool
str_eqb [] [] = true
str_eqb [] (b ∷ t) = false
str_eqb (a ∷ s) [] = false
str_eqb (a ∷ s) (b ∷ t) = nat_eqb a b && str_eqb s t

pub str_eqb_refl : (s : Str) → str_eqb s s ≡ true
unfolding str_eqb
str_eqb_refl [] = refl
str_eqb_refl (a ∷ s) = ground (arith, str_eqb_refl s)

pub str_eqb_sound : (s t : Str) → str_eqb s t ≡ true → s ≡ t
unfolding str_eqb
str_eqb_sound [] [] h = refl
str_eqb_sound [] (b ∷ t) h = ground arith
str_eqb_sound (a ∷ s) [] h = ground arith
str_eqb_sound (a ∷ s) (b ∷ t) h = ground (arith, str_eqb_sound s t)

instance abbrev pub str_eq : Eq Str
str_eq = record { eqb = str_eqb; sound = str_eqb_sound; reflexive = str_eqb_refl }

-- `Ord for str`.
unfoldable pub str_ltb : Str → Str → Bool
str_ltb [] [] = false
str_ltb [] (b ∷ t) = true
str_ltb (a ∷ s) [] = false
str_ltb (a ∷ s) (b ∷ t) = ltb a b || (nat_eqb a b && str_ltb s t)

pub str_ltb_irrefl : (s : Str) → str_ltb s s ≡ false
unfolding str_ltb
str_ltb_irrefl [] = refl
str_ltb_irrefl (a ∷ s) = ground (arith, str_ltb_irrefl s)

pub str_ltb_trans : (s t u : Str) → str_ltb s t ≡ true → str_ltb t u ≡ true → str_ltb s u ≡ true
unfolding str_ltb
str_ltb_trans [] [] u p q = absurd (cc)
str_ltb_trans [] (b ∷ t) [] p q = absurd (cc)
str_ltb_trans [] (b ∷ t) (c ∷ u) p q = refl
str_ltb_trans (a ∷ s) [] u p q = absurd (cc)
str_ltb_trans (a ∷ s) (b ∷ t) [] p q = absurd (cc)
str_ltb_trans (a ∷ s) (b ∷ t) (c ∷ u) p q = ground (arith, str_ltb_trans s t u)

-- Of two texts that are not equal and not ascending, the second comes first.
pub str_ltb_total : (s t : Str) → str_eqb s t ≡ false → str_ltb s t ≡ false → str_ltb t s ≡ true
unfolding str_ltb str_eqb
str_ltb_total [] [] p q = absurd (cc)
str_ltb_total [] (b ∷ t) p q = absurd (cc)
str_ltb_total (a ∷ s) [] p q = refl
str_ltb_total (a ∷ s) (b ∷ t) p q = ground (arith, str_ltb_total s t)
