-- ===== src/Messages/WorldState.antt =====
-- The messages about factions: src/msgs/WorldState.cpp.
use proj8315server.Base.{Option, none, some}
use proj8315server.Common.{Common}
use proj8315server.Session.{Client, Sys}
use proj8315server.Messages.{Reply, null_message}
use proj8315server.Messages.Factions.{add_faction, get_all_factions}

module _ (C : Common) where
  unfoldable pub get_all_factions_msg : Client → C.Msg → Sys C → Option (Reply C × Sys C)
  get_all_factions_msg c m s = some (get_all_factions C s, s)

  unfoldable pub create_new_faction : Client → C.Msg → Sys C → Option (Reply C × Sys C)
  create_new_faction c m s = elim (C.read_create_faction m) [
    | none ↦ some (null_message, s)
    | some name ↦ add_faction C c name s
  ]
