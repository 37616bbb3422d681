-- ===== src/Common.antt =====
-- What the server takes from outside its own sources: the classes of the submodule Proj8315Common
-- (User, Faction, Message and its requests), the database behind the connection, and
-- `std::to_string`. Nothing is defined of them here.
use proj8315server.Base.{ℕ, Bool, Option, List, String, ℤ}
use proj8315server.World.{Env}
use proj8315server.Database.{Transaction}

-- The fields of a TerrainModRequest.
pub record TerrainMod : Type 0 where
  pub radius : ℕ
  pub target_x : ℤ
  pub target_y : ℤ
  pub elevation : ℕ
  pub temperature : ℕ
  pub terrain_type : ℕ

-- The kinds of client messages that have a handler: MESSAGE_TYPE__X.
pub data Kind : Type 0 where
  server_info login_request logout_request register_request obj_info_lib_request : Kind
  create_faction_request update_observer faction_list_request : Kind
  spawn_request terrain_mod_request : Kind

pub record Common : Type 1 where
  pub env : Env
  pub max_terr_elevation : ℕ
  pub max_temperature : ℕ
  pub max_terr_type : ℕ
  -- `User`: NULL_USER, `User()`, the constructor, the test against NULL_USER and the methods.
  pub User : Type 0
  pub null_user : User
  pub default_user : User
  pub make_user : String → String → Bool → ℤ → ℤ → User
  pub is_null_user : User → Bool
  pub user_id : User → String
  pub user_name : User → String
  pub user_faction_name : User → String
  pub user_is_admin : User → Bool
  pub user_x : User → ℤ
  pub user_z : User → ℤ
  pub observe_radius : User → ℤ
  pub update_observe_properties : User → ℤ → ℤ → ℤ → User
  -- `Faction`.
  pub Faction : Type 0
  pub null_faction : Faction
  pub default_faction : Faction
  pub make_faction : String → String → Faction
  pub is_updated : Faction → Bool
  pub mark_updated : Bool → Faction → Faction
  -- `Message`: its type, and the requests that are read from one; `none` is a request that
  -- equals NULL_MESSAGE.
  pub Msg : Type 0
  pub is_null_msg : Msg → Bool
  pub msg_type : Msg → ℤ
  pub read_login : Msg → Option (String × String)
  pub read_register : Msg → Option (String × String × String)
  pub read_observer : Msg → Option (ℤ × ℤ × ℤ)
  pub read_create_faction : Msg → Option String
  pub read_spawn : Msg → Option (ℕ × ℤ × ℤ)
  pub read_terrain_mod : Msg → Option TerrainMod
  pub kind_value : Kind → ℤ
  pub message_size : ℤ → ℕ
  pub make_message : List ℕ → ℕ → Msg
  -- The database, and what it answers to a statement.
  pub Db : Type 0
  pub transact : Db → String → Db × Transaction
  pub to_string : ℤ → String
