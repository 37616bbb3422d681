-- ===== src/Messages.antt =====
-- The replies that the handlers of client messages build, by the class of the message and its
-- arguments. The handlers are in the modules below.
pub mod Factions
pub mod General
pub mod Admin
pub mod WorldState
pub mod Invariants
pub mod Permissions
pub mod Updates
use proj8315server.Base.{Bool, List, String, ℤ}
use proj8315server.World.{ObjectInfo}
use proj8315server.Common.{Common}

pub data Reply (C : Common) : Type 0 where
  null_message : Reply C
  server_info_response : String → Reply C
  login_response : Bool → Bool → ℤ → ℤ → C.Faction → String → Reply C
  logout_response : Reply C
  user_register_response : Bool → String → Reply C
  obj_info_lib_response : List ObjectInfo → Reply C
  create_faction_response : Bool → String → C.Faction → Reply C
  faction_list_response : List C.Faction → Reply C
  updated_factions_msg : List C.Faction → Reply C
