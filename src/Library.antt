-- ===== src/Library.antt =====
-- The object library at the start of the server: src/game/objects/Object.cpp, and `getArray` of
-- src/DatabaseManager.h. `none` is an exception that nothing catches. What the code takes from
-- outside is `Loading`.
pub mod Files
use proj8315server.Base.{
  ℕ, zero, suc, ◌+◌, ◌-◌, ◌%◌, Option, none, some, List, [], ◌∷◌, ◌++◌, map, get_elem?, ℤ, pos,
  negsuc, if◌then◌else◌, ◌>>=◌, String, str_eq,
}
use proj8315server.World.{Env, ObjectInfo}
use proj8315server.Database.{
  Rows, QueryStatus, ok, incomplete, connection_error, syntax_error, unique_violation,
  unexpected_error, QueryResult,
}

-- `pqxx::array_parser::juncture`, as far as the code tells them apart.
pub data Juncture : Type 0 where
  string_value done other : Juncture

pub record Loading : Type 0 where
  pub env : Env
  -- TILE_STATE_MAX_action.
  pub max_action : ℕ
  -- `std::stoi`; `none` is an exception.
  pub stoi : String → Option ℤ
  -- The `int` that `set_tile_thingid` is called with, as its parameter's type.
  pub thing_of_int : ℤ → ℕ
  -- The steps of the parser of an array in a row and a column; `none` is an exception.
  pub as_array : ℕ → ℕ → Option (List (Juncture × String))

-- An `ObjectInfo` with all the fields of its constructor.
pub record Entry : Type 0 where
  pub name : String
  pub description : String
  pub actions : List String
  pub speed : ℕ
  pub initial_state : ℕ

abbrev pub info_of : Entry → ObjectInfo
info_of e = record { name = e.name; speed = e.speed; initial_state = e.initial_state }

-- `(GC_ubyte)i`.
unfoldable pub to_byte : ℤ → ℕ
to_byte (pos n) = n % 256
to_byte (negsuc n) = 255 - n % 256

-- `allRawInfo`, with `currentRawInfo`: lines behind the last delimiter are dropped.
unfoldable pub raw_infos : List String → List String → List (List String)
raw_infos [] current = []
raw_infos (l ∷ ls) current =
    let closed = raw_infos ls [] in
    let open_info = raw_infos ls (current ++ l ∷ []) in
    if str_eq l "---" then current ∷ closed else open_info

-- The n elements from the i-th on; `none` is an access outside the vector.
unfoldable pub elements : ℕ → ℕ → List String → Option (List String)
elements i zero raw = some []
elements i (suc n) raw = do v ← get_elem? raw i; vs ← elements (i + 1) n raw; some (v ∷ vs)

module _ (L : Loading) where
  unfoldable pub read_info : ℕ → List String → Option Entry
  read_info i raw = do
    name ← get_elem? raw 0
    description ← get_elem? raw 1
    actions ← elements 2 (L.max_action + 1) raw
    text ← get_elem? raw (2 + (L.max_action + 1))
    speed ← L.stoi text
    some (record {
      name = name;
      description = description;
      actions = actions;
      speed = to_byte speed;
      initial_state = L.env.set_thingid 0 (L.thing_of_int (pos i));
    })

  unfoldable pub read_infos : ℕ → List (List String) → Option (List Entry)
  read_infos i [] = some []
  read_infos i (raw ∷ raws) = do e ← read_info i raw; es ← read_infos (i + 1) raws; some (e ∷ es)

  -- A file is the list of its lines, or `none` if it cannot be opened.
  unfoldable pub load_obj_info_file : Option (List String) → Option (List Entry)
  load_obj_info_file none = none
  load_obj_info_file (some lines) = read_infos 0 (raw_infos lines [])

  -- `cells`: the strings before the end of the array.
  unfoldable pub cells : List (Juncture × String) → List String
  cells [] = []
  cells ((string_value, s) ∷ js) = s ∷ cells js
  cells ((done, s) ∷ js) = []
  cells ((other, s) ∷ js) = cells js

  -- `getArray`, over n rows from the i-th on; an exception ends it with the rows before.
  unfoldable pub get_array : ℕ → ℕ → ℕ → List (List String)
  get_array column i zero = []
  get_array column i (suc n) =
      let rest = get_array column (i + 1) n in
      elim (L.as_array i column) [ none ↦ [] | some js ↦ cells js ∷ rest ]

  -- The columns of the table of objects: type, name, description, speed and actions.
  abbrev pub action_slot : ℕ
  action_slot = 5

  unfoldable pub entry_at : Rows → List (List String) → ℕ → Entry
  entry_at rows slots i = record {
    name = rows.text_at i 2;
    description = rows.text_at i 3;
    actions = elim (get_elem? slots i) [ none ↦ [] | some s ↦ s ];
    speed = to_byte (rows.int_at i 4);
    initial_state = L.env.set_thingid 0 (L.thing_of_int (rows.int_at i 1));
  }

  unfoldable pub entries_from : Rows → List (List String) → ℕ → ℕ → List Entry
  entries_from rows slots i zero = []
  entries_from rows slots i (suc n) = entry_at rows slots i ∷ entries_from rows slots (i + 1) n

  unfoldable pub load_obj_info_db : QueryResult → List Entry
  load_obj_info_db q =
      let slots = get_array action_slot 0 q.result.size in
      elim q.status [
        | ok ↦ entries_from q.result slots 0 q.result.size
        | incomplete ↦ []
        | connection_error ↦ []
        | syntax_error ↦ []
        | unique_violation ↦ []
        | unexpected_error ↦ []
      ]
