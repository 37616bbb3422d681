-- ===== src/Tests/Samples.antt =====
-- A small world, a tile layout, and a stand-in for the submodule and the database.
use proj8315server.Base.{
  ℕ, ◌+◌, ◌*◌, ◌/◌, ◌%◌, Bool, true, false, some, List, [], ◌∷◌, String, str_eq, leb, ℤ, pos,
}
use proj8315server.World.{
  Dir, dir_n, dir_ne, dir_e, dir_se, dir_s, dir_sw, dir_w, dir_nw, Env, ObjectInfo, Obj, World,
  float_one,
}
use proj8315server.Common.{
  Common, Kind, TerrainMod, server_info, login_request, logout_request, register_request,
  obj_info_lib_request, create_faction_request, update_observer, faction_list_request,
  spawn_request, terrain_mod_request,
}
use proj8315server.Database.{Rows, Transaction}

abbrev pub dir_number : Dir → ℕ
dir_number dir_n = 0
dir_number dir_ne = 1
dir_number dir_e = 2
dir_number dir_se = 3
dir_number dir_s = 4
dir_number dir_sw = 5
dir_number dir_w = 6
dir_number dir_nw = 7

-- Eight bits each for the thing, the action, the direction and the ground.
abbrev pub sample_env : Env
sample_env = record {
  thingid = λ t. t % 256;
  terrelevation = λ t. t / 0x1000000 % 256;
  set_thingid = λ t v. t / 256 * 256 + v % 256;
  set_action = λ t v. t / 0x10000 * 0x10000 + v % 256 * 256 + t % 256;
  set_facingdir = λ t v. t / 0x1000000 * 0x1000000 + v % 256 * 0x10000 + t % 0x10000;
  set_terrelevation = λ t v. v % 256 * 0x1000000 + t % 0x1000000;
  set_temperature = λ t v. t;
  set_terrtype = λ t v. t;
  transfer = λ a b. (a / 0x1000000 * 0x1000000, b / 0x1000000 * 0x1000000 + a % 0x1000000);
  action_idle = 0;
  action_move = 1;
  action_move_vertical = 2;
  dir_value = dir_number;
  dir_macro = dir_number;
  float_ge = λ a b. leb b a;
  float_add = λ a b. a + b;
  float_mul = λ a b. a * b;
  faction = λ n. record { is_null = str_eq n ""; deployment = λ i. 0 };
}

abbrev pub sample_info : List ObjectInfo
sample_info =
    record { name = "empty"; speed = 0; initial_state = 0 }
    ∷ record { name = "tree"; speed = 1; initial_state = 1 }
    ∷ []

-- An object of type 4 at (1, 0), about to arrive in the south.
abbrev pub sample_obj : Obj
sample_obj = record {
  x = pos 1;
  z = pos 0;
  state = 4;
  obj_type = 4;
  action_queue = 5 ∷ [];
  faction_ref = "Neutral";
  action_progress = float_one;
}

abbrev pub sample_world : World
sample_world = record {
  world_width = 2;
  tiles = 0 ∷ 4 ∷ 0 ∷ 0 ∷ [];
  objects = sample_obj ∷ [];
  object_info = sample_info;
  delta_time = 1;
}

pub record SampleUser : Type 0 where
  pub id : String
  pub name : String
  pub faction : String
  pub admin : Bool
  pub x : ℤ
  pub z : ℤ
  pub radius : ℤ

pub record SampleFaction : Type 0 where
  pub id : String
  pub name : String
  pub updated : Bool

abbrev pub nobody : SampleUser
nobody = record {
  id = "";
  name = "";
  faction = "";
  admin = false;
  x = pos 0;
  z = pos 0;
  radius = pos 0;
}

abbrev pub kind_number : Kind → ℤ
kind_number server_info = pos 1
kind_number login_request = pos 2
kind_number logout_request = pos 3
kind_number register_request = pos 4
kind_number obj_info_lib_request = pos 5
kind_number create_faction_request = pos 6
kind_number update_observer = pos 7
kind_number faction_list_request = pos 8
kind_number spawn_request = pos 9
kind_number terrain_mod_request = pos 10

abbrev pub sample_mod : TerrainMod
sample_mod = record {
  radius = 1;
  target_x = pos 0;
  target_y = pos 0;
  elevation = 3;
  temperature = 0;
  terrain_type = 0;
}

-- One row, with a text in every column and no flag set.
abbrev pub sample_rows : Rows
sample_rows = record {
  size = 1;
  text_at = λ i j. "7";
  flag_at = λ i j. false;
  int_at = λ i j. pos 0;
}

abbrev pub head_byte : List ℕ → ℤ
head_byte [] = pos 0
head_byte (b ∷ bs) = pos b

-- The database counts the statements and answers each by `answer`; `sizes` is `get_message_size`.
abbrev pub sample_common : (ℤ → ℕ) → (String → Transaction) → Common
sample_common sizes answer = record {
  env = sample_env;
  max_terr_elevation = 31;
  max_temperature = 7;
  max_terr_type = 31;
  User = SampleUser;
  null_user = nobody;
  default_user = nobody;
  make_user = λ i n a x z. record {
    id = i;
    name = n;
    faction = "";
    admin = a;
    x = x;
    z = z;
    radius = pos 0;
  };
  is_null_user = λ u. str_eq u.id "";
  user_id = λ u. u.id;
  user_name = λ u. u.name;
  user_faction_name = λ u. u.faction;
  user_is_admin = λ u. u.admin;
  user_x = λ u. u.x;
  user_z = λ u. u.z;
  observe_radius = λ u. u.radius;
  update_observe_properties = λ u x z r. record u { x = x; z = z; radius = r };
  Faction = SampleFaction;
  null_faction = record { id = ""; name = ""; updated = false };
  default_faction = record { id = ""; name = ""; updated = false };
  make_faction = λ i n. record { id = i; name = n; updated = true };
  is_updated = λ f. f.updated;
  mark_updated = λ b f. record f { updated = b };
  Msg = ℤ;
  is_null_msg = λ m. false;
  msg_type = λ m. m;
  read_login = λ m. some ("ann", "secret");
  read_register = λ m. some ("ann", "secret", "secret");
  read_observer = λ m. some (pos 1, pos 1, pos 1);
  read_create_faction = λ m. some "Reds";
  read_spawn = λ m. some (1, pos 0, pos 0);
  read_terrain_mod = λ m. some sample_mod;
  kind_value = kind_number;
  message_size = sizes;
  make_message = λ buf size. head_byte buf;
  Db = ℕ;
  transact = λ d q. (d + 1, answer q);
  to_string = λ i. "0";
}
