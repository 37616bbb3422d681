-- ===== src/World.antt =====
-- The world that the server simulates: src/game/Game.h and Game.cpp (the tile array and the
-- object types) and src/game/objects/Object.h. The tile layout is Proj8315Common/src/Tile.h, a
-- submodule, and enters by `Env`.
pub mod Loops
pub mod Spawn
pub mod Actions
pub mod Update
pub mod Safety
pub mod Frames
pub mod Spawning
pub mod Moves
pub mod Terrain
pub mod Snapshot
pub mod Areas
pub mod Observing
pub mod Edges
use proj8315server.Base.{
  ℕ, ◌*◌, ◌^◌, ◌&&◌, Bool, true, false, Option, none, some, List, [], ◌∷◌, ◌++◌, length, get_elem?,
  set, ltb, ℤ, pos, negsuc, ◌+ℤ◌, ◌*ℤ◌, if◌then◌else◌, ◌>>=◌, String, str_eq,
}

-- The eight directions, for which the submodule has two families of constants.
pub data Dir : Type 0 where
  dir_n dir_ne dir_e dir_se dir_s dir_sw dir_w dir_nw : Dir

-- What the code reads of a `gamecommon::Faction`.
pub record FactionView : Type 0 where
  pub is_null : Bool
  pub deployment : ℕ → ℕ

-- The functions that the server takes from outside its own sources: those of Tile.h on a 64-bit
-- tile, the `float` operations on bit patterns, and the factions that objects refer to by name.
pub record Env : Type 0 where
  pub thingid : ℕ → ℕ
  pub terrelevation : ℕ → ℕ
  pub set_thingid : ℕ → ℕ → ℕ
  pub set_action : ℕ → ℕ → ℕ
  pub set_facingdir : ℕ → ℕ → ℕ
  pub set_terrelevation : ℕ → ℕ → ℕ
  pub set_temperature : ℕ → ℕ → ℕ
  pub set_terrtype : ℕ → ℕ → ℕ
  -- `transfer_obj_to(from, to)`: the two tiles afterwards.
  pub transfer : ℕ → ℕ → ℕ × ℕ
  pub action_idle : ℕ
  pub action_move : ℕ
  pub action_move_vertical : ℕ
  -- `TILE_STATE_dirX` and `DIR_X`.
  pub dir_value : Dir → ℕ
  pub dir_macro : Dir → ℕ
  pub float_ge : ℕ → ℕ → Bool
  pub float_add : ℕ → ℕ → ℕ
  pub float_mul : ℕ → ℕ → ℕ
  pub faction : String → FactionView

-- The bit patterns of 0.0f, 0.5f and 1.0f.
abbrev pub float_zero : ℕ
float_zero = 0

abbrev pub float_half : ℕ
float_half = 0x3f00_0000

abbrev pub float_one : ℕ
float_one = 0x3f80_0000

-- The fields of `gamecommon::ObjectInfo` that the server reads.
pub record ObjectInfo : Type 0 where
  pub name : String
  pub speed : ℕ
  pub initial_state : ℕ

-- `ObjectInstanceData`; the faction is referred to by its name.
pub record Obj : Type 0 where
  pub x : ℤ
  pub z : ℤ
  pub state : ℕ
  pub obj_type : ℕ
  pub action_queue : List ℕ
  pub faction_ref : String
  pub action_progress : ℕ

pub record World : Type 0 where
  pub world_width : ℕ
  pub tiles : List ℕ
  pub objects : List Obj
  pub object_info : List ObjectInfo
  pub delta_time : ℕ

-- The tile count, `_worldWidth * _worldWidth`.
abbrev pub area : World → ℕ
area g = g.world_width * g.world_width

-- `x + z * worldWidth`.
unfoldable pub tile_index : ℕ → ℤ → ℤ → ℤ
tile_index w x z = x +ℤ z *ℤ w

-- Whether an integer is the value of an `int`.
abbrev pub is_int : ℤ → Bool
is_int (pos n) = ltb n (2 ^ 31)
is_int (negsuc n) = ltb n (2 ^ 31)

-- Whether `x + z * w` is computed without a signed overflow, which would be undefined.
unfoldable pub index_fits : ℕ → ℤ → ℤ → Bool
index_fits w x z = is_int (z *ℤ w) && is_int (tile_index w x z)

-- `index >= 0 && index < n`, with the index as a number if it holds.
abbrev pub checked : ℕ → ℤ → Option ℕ
checked n (pos i) = if ltb i n then some i else none
checked n (negsuc i) = none

-- A read and a write of a plain array; `none` is an access outside it.
abbrev pub load : List ℕ → ℤ → Option ℕ
load ts (pos i) = get_elem? ts i
load ts (negsuc i) = none

abbrev pub store : List ℕ → ℤ → ℕ → Option (List ℕ)
store ts (pos i) v = if ltb i (length ts) then some (set ts i v) else none
store ts (negsuc i) v = none

abbrev pub read_tile : World → ℤ → Option ℕ
read_tile g i = load g.tiles i

abbrev pub write_tile : World → ℤ → ℕ → Option World
write_tile g i v = store g.tiles i v >>= λ ts. some (record g { tiles = ts })

-- `ObjectInstanceData`'s constructor, `setPos` and `setState`.
module _ (E : Env) where
  unfoldable pub new_obj : ℤ → ℤ → ℕ → String → Obj
  new_obj x z current faction = record {
    x = x;
    z = z;
    state = current;
    obj_type = E.thingid current;
    action_queue = [];
    faction_ref = faction;
    action_progress = float_zero;
  }

  unfoldable pub set_state : Obj → ℕ → Obj
  set_state o state = record o { state = state; obj_type = E.thingid state }

unfoldable pub set_pos : Obj → ℤ → ℤ → ℕ → Obj
set_pos o x z tile = record o { x = x; z = z; state = tile }

unfoldable pub add_action : Obj → ℕ → Obj
add_action o id = record o { action_queue = o.action_queue ++ id ∷ [] }

-- `Game::getTileState` and `Game::setTileState`, by index and by coordinates.
unfoldable pub get_tile_state_at : World → ℤ → Option ℕ
get_tile_state_at g index = elim (checked (area g) index) [
  | none ↦ some 0
  | some i ↦ get_elem? g.tiles i
]

unfoldable pub set_tile_state_at : World → ℤ → ℕ → Option World
set_tile_state_at g index state = elim (checked (area g) index) [
  | none ↦ some g
  | some i ↦ write_tile g (pos i) state
]

unfoldable pub valid_coords : World → ℤ → ℤ → Bool
valid_coords g x z = elim (checked (area g) (tile_index g.world_width x z)) [
  | none ↦ false
  | some _ ↦ true
]

unfoldable pub get_tile_state : World → ℤ → ℤ → Option ℕ
get_tile_state g x z =
    if valid_coords g x z then read_tile g (tile_index g.world_width x z) else some 0

unfoldable pub set_tile_state : World → ℤ → ℤ → ℕ → Option World
set_tile_state g x z state =
    if valid_coords g x z then write_tile g (tile_index g.world_width x z) state else some g

-- `Game::getObjInfo`, by index and by name; entry 0 stands in for what is missing.
unfoldable pub get_obj_info : World → ℤ → Option ObjectInfo
get_obj_info g index = elim (checked (length g.object_info) index) [
  | none ↦ get_elem? g.object_info 0
  | some i ↦ get_elem? g.object_info i
]

unfoldable pub find_named : String → List ObjectInfo → Option ObjectInfo
find_named name [] = none
find_named name (i ∷ is) = if str_eq i.name name then some i else find_named name is

unfoldable pub get_obj_info_named : World → String → Option ObjectInfo
unfolding find_named
get_obj_info_named g name = elim (find_named name g.object_info) [
  | none ↦ get_elem? g.object_info 0
  | some i ↦ some i
]
