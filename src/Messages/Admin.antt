-- ===== src/Messages/Admin.antt =====
-- The messages of administrators: src/msgs/Admin.cpp, and `Game::spawnObject` (src/game/Game.cpp).
use proj8315server.Base.{
  ℕ, Bool, Option, none, some, String, string_eq, ltb, ℤ, find, put, if◌then◌else◌, ◌>>=◌,
}
use proj8315server.World.{World}
use proj8315server.World.Spawn.{spawn_object}
use proj8315server.World.Terrain.{set_tile_area}
use proj8315server.Common.{Common, TerrainMod}
use proj8315server.Session.{Client, Sys, get_user}
use proj8315server.Messages.{Reply, null_message}
use proj8315server.Messages.Factions.{nonempty}

module _ (C : Common) where
  abbrev pub Answer : Type 0
  Answer = Option (Reply C × Sys C)

  abbrev pub with_world : Sys C → World → Sys C
  with_world s g = record s { world = g }

  -- `_factions[name]` makes an entry where there is none.
  unfoldable pub touch_faction : String → Sys C → Sys C
  touch_faction name s = elim (find name s.factions) [
    | none ↦ record s { factions = put name C.default_faction s.factions }
    | some _ ↦ s
  ]

  unfoldable pub game_spawn_object : String → ℕ → ℤ → ℤ → Sys C → Option (Bool × Sys C)
  game_spawn_object name type_id x y s = spawn_object C.env s.world x y type_id name >>= λ r.
      some (r.1, with_world (touch_faction name s) r.0)

  abbrev pub spawn_faction : C.User → String
  spawn_faction u = if nonempty (C.user_faction_name u) then C.user_faction_name u else "Neutral"

  unfoldable pub spawn_object_msg : Client → C.Msg → Sys C → Answer
  spawn_object_msg c m s = elim (C.read_spawn m) [
    | none ↦ some (null_message, s)
    | some (type_id, x, y) ↦
        let u = get_user C c s in
        if C.user_is_admin u
        then (game_spawn_object (spawn_faction u) type_id x y s >>= λ r. some (null_message, r.1))
        else some (null_message, s)
  ]

  -- A value above its maximum is refused.
  unfoldable pub modify_terrain : TerrainMod → Sys C → Answer
  modify_terrain t s =
      if ltb C.max_terr_elevation t.elevation
      then some (null_message, s)
      else if ltb C.max_temperature t.temperature
      then some (null_message, s)
      else if ltb C.max_terr_type t.terrain_type
      then some (null_message, s)
      else (set_tile_area C.env s.world t.radius t.target_x t.target_y t.elevation t.temperature
            t.terrain_type
          >>= λ g. some (null_message, with_world s g))

  unfoldable pub terrain_modification : Client → C.Msg → Sys C → Answer
  terrain_modification c m s = elim (C.read_terrain_mod m) [
    | none ↦ some (null_message, s)
    | some t ↦
        if C.user_is_admin (get_user C c s) then modify_terrain t s else some (null_message, s)
  ]
