-- ===== src/Protocol/AppId.antt =====
-- `valid_app_id` of crates/usahp-core/src/protocol.rs, with the UTF-8 bytes of a `&str`.
use usahp_core.Base.{
  ℕ, ◌+◌, ◌/◌, ◌%◌, ◌≤◌, ◌≡◌, ◌↔◌, ◌⊎◌, refl, sym, ap, ◌∙◌, subst, Bool, true, ◌&&◌, ◌||◌, List, [],
  ◌∷◌, ◌++◌, arith, leb, ltb, nat_eqb, if◌then◌else◌, length, all, All,
}
use usahp_core.Str.{Str}

-- The bytes of a scalar value.
unfoldable pub utf8 : ℕ → List ℕ
utf8 c =
    if ltb c 0x80
    then c ∷ []
    else if ltb c 0x800
    then (0xc0 + c / 64) ∷ (0x80 + c % 64) ∷ []
    else if ltb c 0x10000
    then (0xe0 + c / 4096) ∷ (0x80 + c / 64 % 64) ∷ (0x80 + c % 64) ∷ []
    else (0xf0 + c / 262144) ∷ (0x80 + c / 4096 % 64) ∷ (0x80 + c / 64 % 64) ∷ (0x80 + c % 64) ∷ []

unfoldable pub bytes : Str → List ℕ
unfolding utf8
bytes [] = []
bytes (c ∷ s) = utf8 c ++ bytes s

abbrev pub is_ascii_alphanumeric : ℕ → Bool
is_ascii_alphanumeric b =
    (leb b'0' b && leb b b'9') || ((leb b'A' b && leb b b'Z') || (leb b'a' b && leb b b'z'))

abbrev pub app_id_byte : ℕ → Bool
app_id_byte b = is_ascii_alphanumeric b || (nat_eqb b b'.' || (nat_eqb b b'_' || nat_eqb b b'-'))

unfoldable pub valid_app_id : Str → Bool
unfolding bytes
valid_app_id app_id =
    (leb 1 (length (bytes app_id)) && leb (length (bytes app_id)) 128)
    && all app_id_byte (bytes app_id)

-- A character of an application's name: a digit, a letter, a dot, an underscore or a dash.
abbrev pub IsNameChar : ℕ → Type 0
IsNameChar c =
    ((b'0' ≤ c) × (c ≤ b'9'))
    ⊎ ((b'A' ≤ c) × (c ≤ b'Z'))
    ⊎ ((b'a' ≤ c) × (c ≤ b'z'))
    ⊎ (c ≡ b'.')
    ⊎ (c ≡ b'_')
    ⊎ (c ≡ b'-')

-- Every byte of a character outside ASCII is refused.
utf8-IsNameChar : (c : ℕ) → (all app_id_byte (utf8 c) ≡ true) ↔ IsNameChar c
unfolding utf8
utf8-IsNameChar c = (λ h. ground arith, λ h. ground arith)

utf8_name_char : (c : ℕ) → IsNameChar c → utf8 c ≡ c ∷ []
unfolding utf8
utf8_name_char c h = ground arith

all-append : (p : ℕ → Bool) (xs ys : List ℕ) → all p (xs ++ ys) ≡ (all p xs && all p ys)
all-append p [] ys = refl
all-append p (x ∷ xs) ys = ground (arith, all-append p xs ys)

all-bytes_sound : (s : Str) → all app_id_byte (bytes s) ≡ true → All IsNameChar s
unfolding bytes
all-bytes_sound [] h = tt
all-bytes_sound (c ∷ s) h =
    let parts : (all app_id_byte (utf8 c) && all app_id_byte (bytes s)) ≡ true =
      sym (all-append app_id_byte (utf8 c) (bytes s)) ∙ h in
    ((utf8-IsNameChar c).0 (ground arith), all-bytes_sound s (ground arith))

all-bytes_complete : (s : Str) → All IsNameChar s → all app_id_byte (bytes s) ≡ true
unfolding bytes
all-bytes_complete [] h = refl
all-bytes_complete (c ∷ s) h = rw (all-append, (utf8-IsNameChar c).1 h.0, all-bytes_complete s h.1)

bytes_ascii : (s : Str) → All IsNameChar s → bytes s ≡ s
unfolding bytes
bytes_ascii [] h = refl
bytes_ascii (c ∷ s) h = rw (utf8_name_char c h.0, bytes_ascii s h.1)

-- An application's name is accepted exactly when it has 1 to 128 characters, each a digit, an ASCII
-- letter, a dot, an underscore or a dash.
pub valid_app_id_iff :
    (s : Str) → (valid_app_id s ≡ true) ↔ ((1 ≤ length s) × (length s ≤ 128) × All IsNameChar s)
unfolding valid_app_id
valid_app_id_iff s = (sound, complete)
  where
    sound : valid_app_id s ≡ true → (1 ≤ length s) × (length s ≤ 128) × All IsNameChar s
    sound h =
        let names = all-bytes_sound s (ground arith) in
        let same = bytes_ascii s names in
        (
          subst (λ b. 1 ≤ length b) same (ground arith),
          subst (λ b. length b ≤ 128) same (ground arith),
          names,
        )

    complete : (1 ≤ length s) × (length s ≤ 128) × All IsNameChar s → valid_app_id s ≡ true
    complete h =
        let same = bytes_ascii s h.2 in
        let fits = all-bytes_complete s h.2 in ground (arith, ap (λ (b : List ℕ). length b) same)
