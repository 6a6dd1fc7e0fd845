-- ===== src/Config.antt =====
-- crates/usahp-core/src/config.rs: the configuration. The file system and the TOML parser are arguments
-- of `load`; what the two report is a text.
pub mod Valid
use usahp_core.Base.{
  ◌⊎◌, inl, inr, ℕ, suc, Bool, true, false, is_nil, not, ◌&&◌, ◌||◌, List, [], ◌∷◌, Option, none,
  some, ◌==◌, leb, nat_eqb, if◌then◌else◌,
}
use usahp_core.Str.{Str, str_eq}
use usahp_core.Collections.BTreeSet
use usahp_core.Collections.BTreeSet.{BTreeSet}

pub data InputKind : Type 0 where
  keyboard gamepad : InputKind

pub record Mapping : Type 0 where
  pub id : Str
  pub switch_id : Str
  pub input : InputKind
  pub code : Str
  pub device : Option Str

pub record ServerConfig : Type 0 where
  pub port : ℕ  -- u16
  pub client_queue_capacity : ℕ

pub record SimulatorConfig : Type 0 where
  pub stdin : Bool

pub record Config : Type 0 where
  pub server : ServerConfig
  pub simulator : SimulatorConfig
  pub mappings : List Mapping

pub data ConfigError : Type 0 where
  no_mappings zero_queue_capacity : ConfigError
  read_error parse_error : Str → ConfigError
  duplicate_mapping_id empty_switch_id empty_code : Str → ConfigError

-- `char::is_whitespace`: the scalar values with the property White_Space.
abbrev pub is_whitespace : ℕ → Bool
is_whitespace c =
    (leb 9 c && leb c 13)
    || nat_eqb c 32
    || nat_eqb c 0x85
    || nat_eqb c 0xa0
    || nat_eqb c 0x1680
    || (leb 0x2000 c && leb c 0x200a)
    || nat_eqb c 0x2028
    || nat_eqb c 0x2029
    || nat_eqb c 0x202f
    || nat_eqb c 0x205f
    || nat_eqb c 0x3000

unfoldable pub trim_start : Str → Str
trim_start [] = []
trim_start (c ∷ s) = let rest = trim_start s in if is_whitespace c then rest else c ∷ s

unfoldable pub trim_end : Str → Str
trim_end [] = []
trim_end (c ∷ s) = let rest = trim_end s in if is_whitespace c && is_nil rest then [] else c ∷ rest

unfoldable pub trim : Str → Str
unfolding trim_start trim_end
trim s = trim_end (trim_start s)

-- The loop of `validate`. `ids` is a `HashSet`, kept in ascending order; `none` is `Ok(())`.
unfoldable pub validate_mappings : BTreeSet → List Mapping → Option ConfigError
unfolding trim BTreeSet.contains BTreeSet.insert
validate_mappings ids [] = none
validate_mappings ids (mapping ∷ rest) =
    let errors = validate_mappings (BTreeSet.insert mapping.id ids) rest in
    if BTreeSet.contains mapping.id ids
    then some (duplicate_mapping_id mapping.id)
    else if is_nil (trim mapping.switch_id)
    then some (empty_switch_id mapping.id)
    else if is_nil (trim mapping.code)
    then some (empty_code mapping.id)
    else errors

unfoldable pub validate : Config → Option ConfigError
unfolding validate_mappings
validate config =
    if is_nil config.mappings
    then some no_mappings
    else if nat_eqb config.server.client_queue_capacity 0
    then some zero_queue_capacity
    else validate_mappings [] config.mappings

-- `Result<Config, ConfigError>`
pub data Loaded : Type 0 where
  loaded : Config → Loaded
  not_loaded : ConfigError → Loaded

module _ (from_str : Str → Str ⊎ Config) where
  -- `toml::from_str` gives a configuration or an error's text.
  unfoldable pub parse : Str → Loaded
  unfolding validate
  parse content = elim (from_str content) [
    | inl error ↦ not_loaded (parse_error error)
    | inr config ↦ elim (validate config) [ none ↦ loaded config | some error ↦ not_loaded error ]
  ]

  -- `fs::read_to_string` gives the file's text or an error's.
  unfoldable pub load : (Str → Str ⊎ Str) → Str → Loaded
  unfolding parse
  load read_to_string path = elim (read_to_string path) [
    | inl error ↦ not_loaded (read_error error)
    | inr content ↦ parse content
  ]

-- `(Ipv4Addr::LOCALHOST, self.port)`
abbrev pub address : ServerConfig → List ℕ × ℕ
address server = (127 ∷ 0 ∷ 0 ∷ 1 ∷ [], server.port)
