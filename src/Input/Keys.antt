-- ===== src/Input/Keys.antt =====
-- The two tables of key names: `parse_key` of crates/usahp-daemon/src/input.rs and
-- `name_to_keycode` of crates/usahp-daemon/src/macos_keyboard.rs.
use usahp_core.Base.{ℕ, ◌+◌, ◌&&◌, List, [], ◌∷◌, map, Option, leb, if◌then◌else◌}
use usahp_core.Str.{Str, str, str_eq}
use usahp_core.Collections.HashMap
use usahp_core.Collections.HashMap.{HashMap}

-- The keys of `rdev::Key` that the program names; the others by a number.
pub data Key : Type 0 where
  space return escape tab up_arrow down_arrow left_arrow right_arrow : Key
  key_a key_b key_c key_d key_e key_f key_g key_h key_i key_j key_k key_l key_m : Key
  key_n key_o key_p key_q key_r key_s key_t key_u key_v key_w key_x key_y key_z : Key
  other : ℕ → Key

abbrev pub to_ascii_lowercase : Str → Str
to_ascii_lowercase s = map (λ c. if leb 65 c && leb c 90 then c + 32 else c) s

-- The arms of `parse_key`, in order.
abbrev pub key_names : List (Str × Key)
key_names =
    (str "space", space)
    ∷ (str "return", return)
    ∷ (str "enter", return)
    ∷ (str "escape", escape)
    ∷ (str "esc", escape)
    ∷ (str "tab", tab)
    ∷ (str "up", up_arrow)
    ∷ (str "uparrow", up_arrow)
    ∷ (str "down", down_arrow)
    ∷ (str "downarrow", down_arrow)
    ∷ (str "left", left_arrow)
    ∷ (str "leftarrow", left_arrow)
    ∷ (str "right", right_arrow)
    ∷ (str "rightarrow", right_arrow)
    ∷ (str "a", key_a)
    ∷ (str "b", key_b)
    ∷ (str "c", key_c)
    ∷ (str "d", key_d)
    ∷ (str "e", key_e)
    ∷ (str "f", key_f)
    ∷ (str "g", key_g)
    ∷ (str "h", key_h)
    ∷ (str "i", key_i)
    ∷ (str "j", key_j)
    ∷ (str "k", key_k)
    ∷ (str "l", key_l)
    ∷ (str "m", key_m)
    ∷ (str "n", key_n)
    ∷ (str "o", key_o)
    ∷ (str "p", key_p)
    ∷ (str "q", key_q)
    ∷ (str "r", key_r)
    ∷ (str "s", key_s)
    ∷ (str "t", key_t)
    ∷ (str "u", key_u)
    ∷ (str "v", key_v)
    ∷ (str "w", key_w)
    ∷ (str "x", key_x)
    ∷ (str "y", key_y)
    ∷ (str "z", key_z)
    ∷ []

-- The first arm that matches; `none` is the error.
unfoldable pub parse_key : Str → Option Key
parse_key code = HashMap.get (to_ascii_lowercase code) key_names

-- The entries of `raw`.
abbrev pub raw_keycodes : List (Str × ℕ)
raw_keycodes =
    (str "space", 49)
    ∷ (str "return", 36)
    ∷ (str "enter", 36)
    ∷ (str "escape", 53)
    ∷ (str "esc", 53)
    ∷ (str "tab", 48)
    ∷ (str "up", 126)
    ∷ (str "uparrow", 126)
    ∷ (str "down", 125)
    ∷ (str "downarrow", 125)
    ∷ (str "left", 123)
    ∷ (str "leftarrow", 123)
    ∷ (str "right", 124)
    ∷ (str "rightarrow", 124)
    ∷ (str "a", 0)
    ∷ (str "b", 11)
    ∷ (str "c", 8)
    ∷ (str "d", 2)
    ∷ (str "e", 14)
    ∷ (str "f", 3)
    ∷ (str "g", 5)
    ∷ (str "h", 4)
    ∷ (str "i", 34)
    ∷ (str "j", 38)
    ∷ (str "k", 40)
    ∷ (str "l", 37)
    ∷ (str "m", 46)
    ∷ (str "n", 45)
    ∷ (str "o", 31)
    ∷ (str "p", 35)
    ∷ (str "q", 12)
    ∷ (str "r", 15)
    ∷ (str "s", 1)
    ∷ (str "t", 17)
    ∷ (str "u", 32)
    ∷ (str "v", 9)
    ∷ (str "w", 13)
    ∷ (str "x", 7)
    ∷ (str "y", 16)
    ∷ (str "z", 6)
    ∷ []

unfoldable pub name_to_keycode : HashMap Str ℕ
unfolding HashMap.collect_from
name_to_keycode = HashMap.collect_from [] raw_keycodes
