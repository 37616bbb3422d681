-- ===== src/Config.antt =====
-- The configuration file: `str_util::split` (src/utils/StringUtil.cpp) and `Server::readConfigFile`
-- (src/Server.cpp). A text is the list of its characters' codes, a file the list of its lines.
pub mod Split
use proj8315server.Base.{
  ℕ, zero, suc, Bool, true, false, ◌&&◌, Option, none, some, List, [], ◌∷◌, map, length, ◌==◌,
  if◌then◌else◌, Dict, put, text_eq, ℤ, find, ◌>>=◌,
}

abbrev pub Text : Type 0
Text = List ℕ

-- What is left of a text behind a prefix, if it has that prefix.
unfoldable pub strip : Text → Text → Option Text
strip [] s = some s
strip (d ∷ ds) [] = none
strip (d ∷ ds) (c ∷ s) = if d == c then strip ds s else none

abbrev pub push_front : ℕ → Option (Text × Text) → Option (Text × Text)
push_front c none = none
push_front c (some (before, after)) = some (c ∷ before, after)

-- `str.find(delim, pos)`: the text before the first occurrence, and the text behind it.
unfoldable pub find_delim : Text → Text → Option (Text × Text)
find_delim delim [] = elim (strip delim []) [ none ↦ none | some rest ↦ some ([], rest) ]
find_delim delim (c ∷ s) =
    let later = push_front c (find_delim delim s) in
    elim (strip delim (c ∷ s)) [ none ↦ later | some rest ↦ some ([], rest) ]

-- The last piece, which is left out if it is empty.
abbrev pub last_piece : Text → List Text
last_piece [] = []
last_piece (c ∷ s) = (c ∷ s) ∷ []

-- The loop; `none` when the fuel runs out.
unfoldable pub split_loop : ℕ → Text → Text → Option (List Text)
split_loop zero delim s = none
split_loop (suc fuel) delim s = elim (find_delim delim s) [
  | none ↦ some (last_piece s)
  | some (before, after) ↦ elim (split_loop fuel delim after) [
    | none ↦ none
    | some pieces ↦ some (before ∷ pieces)
  ]
]

-- One round per character is enough for a delimiter that is not empty.
unfoldable pub split : Text → Text → Option (List Text)
split s delim = split_loop (suc (length s)) delim s

abbrev pub equals_sign : Text
equals_sign = b'=' ∷ []

-- What a line adds to the configuration: only one with two components, the first not empty.
unfoldable pub config_line : List Text → Dict Text Text → Dict Text Text
config_line ([] ∷ v ∷ []) config = config
config_line ((c ∷ k) ∷ v ∷ []) config = put (c ∷ k) v config
config_line _ config = config

unfoldable pub read_config : List Text → Dict Text Text → Option (Dict Text Text)
read_config [] config = some config
read_config (line ∷ lines) config = elim (split line equals_sign) [
  | none ↦ none
  | some pieces ↦ read_config lines (config_line pieces config)
]

-- How `std::stoi` ends: with a number, or by one of its two exceptions.
pub data Conversion : Type 0 where
  converted : ℤ → Conversion
  invalid_argument out_of_range : Conversion

abbrev pub port_key : Text
port_key = b'p' ∷ b'o' ∷ b'r' ∷ b't' ∷ []

-- `_port` after the configuration was read; only the first exception is caught, and `none` is the
-- other.
unfoldable pub assign_port : (Text → Conversion) → Dict Text Text → ℤ → Option ℤ
assign_port stoi config port = elim (find port_key config) [
  | none ↦ some port
  | some text ↦ elim (stoi text) [
    | converted n ↦ some n
    | invalid_argument ↦ some port
    | out_of_range ↦ none
  ]
]

-- What Server's constructor does with the configuration file.
unfoldable pub configure : (Text → Conversion) → List Text → ℤ → Option (Dict Text Text × ℤ)
configure stoi lines port = read_config lines [] >>= λ config.
    assign_port stoi config port >>= λ port'. some (config, port')
