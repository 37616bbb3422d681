-- ===== src/Messages/Permissions.antt =====
-- Who may change the world by a message, and how far (src/msgs/Admin.cpp).
use proj8315server.Base.{
  ℕ, ℤ, String, string_eq, find, ◌≡◌, refl, ◌≤◌, true, Option, none, some, ◌⊎◌, inl, inr, ltb,
  Bool-cases, Option-cases, ◌>>=◌, arith,
}
use proj8315server.World.{World}
use proj8315server.World.Spawn.{spawn_object}
use proj8315server.World.Frames.{IsSafe}
use proj8315server.World.Spawning.Cases.{IsSpawned, spawn_object-cases}
use proj8315server.World.Terrain.{set_tile_area}
use proj8315server.Common.{Common, TerrainMod}
use proj8315server.Session.{Client, Sys, get_user}
use proj8315server.Messages.{Reply, null_message}
use proj8315server.Messages.Admin.{
  with_world, touch_faction, game_spawn_object, spawn_faction, spawn_object_msg, modify_terrain,
  terrain_modification,
}

module _ (C : Common) where
  -- Everything but the world and the factions is as it was.
  abbrev pub SameRest : Sys C → Sys C → Type 0
  SameRest s t = (t.server ≡ s.server) × (t.pointer ≡ s.pointer) × (t.db ≡ s.db)

  -- Values that the submodule's maxima allow.
  abbrev pub WithinLimits : TerrainMod → Type 0
  WithinLimits t =
      (t.elevation ≤ C.max_terr_elevation)
      × (t.temperature ≤ C.max_temperature)
      × (t.terrain_type ≤ C.max_terr_type)

  -- The area write that a request asks for.
  abbrev pub asked : TerrainMod → World → Option World
  asked t g =
      set_tile_area C.env g t.radius t.target_x t.target_y t.elevation t.temperature t.terrain_type

  -- What an accepted or refused request leads to.
  abbrev pub Shaped : TerrainMod → Sys C → Sys C → Type 0
  Shaped t s u =
      WithinLimits t × (asked t s.world ≡ some u.world) × (u.factions ≡ s.factions) × SameRest s u

  unchanged :
      {s u : Sys C} {r : Reply C}
      → ◌≡◌ {A = Option (Reply C × Sys C)} (some (null_message, s)) (some (r, u))
      → u ≡ s
  unchanged h = cc

  written :
      (t : TerrainMod) (s u : Sys C) (r : Reply C)
      → WithinLimits t
      → ◌≡◌ {A = Option (Reply C × Sys C)}
          (asked t s.world >>= λ g. some (null_message, record s { world = g }))
          (some (r, u))
      → Shaped t s u
  written t s u r w e = elim (Option-cases (asked t s.world)) [
    | inl f ↦
        let gone : ◌≡◌ {A = Option (Reply C × Sys C)} none (some (r, u)) = rw f at e in
        absurd (no gone)
    | inr (g, f) ↦
        let same : ◌≡◌ {A = Option (Reply C × Sys C)} (some (null_message, record s { world = g }))
            (some (r, u)) =
          rw f at e in
        let is = unchanged same in rw is (w, f, refl, (refl, refl, refl))
  ]
    where
      no : ◌≡◌ {A = Option (Reply C × Sys C)} none (some (r, u)) → ⊥
      no h = cc

  within_limits :
      (t : TerrainMod) (s u : Sys C) (r : Reply C)
      → modify_terrain C t s ≡ some (r, u)
      → (u ≡ s) ⊎ Shaped t s u
  unfolding modify_terrain
  within_limits t s u r e = elim (Bool-cases (ltb C.max_terr_elevation t.elevation)) [
    | inl p ↦ inl (unchanged (rw (p, modify_terrain) at e))
    | inr p ↦ elim (Bool-cases (ltb C.max_temperature t.temperature)) [
      | inl q ↦ inl (unchanged (rw (p, q, modify_terrain) at e))
      | inr q ↦ elim (Bool-cases (ltb C.max_terr_type t.terrain_type)) [
        | inl v ↦ inl (unchanged (rw (p, q, v, modify_terrain) at e))
        | inr v ↦ inr (
            written t s u r (ground arith, ground arith, ground arith)
              (rw (p, q, v, modify_terrain) at e))
      ]
    ]
  ]

-- Where the handler of a terrain modification returns, either nothing changed, or the sender is an
-- administrator, the elevation, temperature and terrain type that the request names are at most
-- their maxima, the world is the one after the area write it asks for, and nothing else changed.
pub terrain_modification-allowed :
    (C : Common) (c : Client) (m : C.Msg) (s u : Sys C) (r : Reply C)
    → terrain_modification C c m s ≡ some (r, u)
    → (u ≡ s)
      ⊎ ((C.user_is_admin (get_user C c s) ≡ true)
          × ((t : TerrainMod) × (C.read_terrain_mod m ≡ some t) × Shaped C t s u))
unfolding terrain_modification
terrain_modification-allowed C c m s u r e = elim (Option-cases (C.read_terrain_mod m)) [
  | inl f ↦ inl (unchanged C (rw (f, terrain_modification) at e))
  | inr (t, f) ↦ elim (Bool-cases (C.user_is_admin (get_user C c s))) [
    | inr refused ↦ inl (unchanged C (rw (f, refused, terrain_modification) at e))
    | inl admin ↦ elim (within_limits C t s u r (rw (f, admin, terrain_modification) at e)) [
      | inl same ↦ inl same
      | inr shaped ↦ inr (admin, (t, f, shaped))
    ]
  ]
]

touch_faction-SameRest :
    (C : Common) (name : String) (s : Sys C) (g : World)
    → SameRest C s (with_world C (touch_faction C name s) g)
unfolding touch_faction
touch_faction-SameRest C name s g = elim (Option-cases (find name s.factions)) [
  | inl e ↦ rw (e, touch_faction) (refl, refl, refl)
  | inr (f, e) ↦ rw (e, touch_faction) (refl, refl, refl)
]

-- The sender is an administrator, and the world is the one after the spawn that the message asks for,
-- of a known type on a tile that held no thing.
abbrev pub IsGranted : (C : Common) → Client → C.Msg → Sys C → Sys C → Type 0
IsGranted C c m s u =
    (C.user_is_admin (get_user C c s) ≡ true)
    × ((type_id : ℕ) × (x : ℤ) × (z : ℤ) × (C.read_spawn m ≡ some (type_id, x, z))
        × IsSpawned C.env s.world x z type_id (spawn_faction C (get_user C c s)) u.world)

-- Where the world is safe and the handler of a spawn request returns, the clients, the users, the
-- connection and the database are as they were, and either the world is too, or the sender is an
-- administrator and the world has one more object, of the type and at the place that the request
-- names and of the sender's faction, whose tile held no thing and has the type's initial state on top
-- of its own.
pub spawn_object_msg-allowed :
    (C : Common) (c : Client) (m : C.Msg) (s u : Sys C) (r : Reply C)
    → IsSafe s.world
    → spawn_object_msg C c m s ≡ some (r, u)
    → SameRest C s u × ((u.world ≡ s.world) ⊎ IsGranted C c m s u)
unfolding spawn_object_msg game_spawn_object
spawn_object_msg-allowed C c m s u r safe e = elim (Option-cases (C.read_spawn m)) [
  | inl f ↦ refused (unchanged C (rw (f, spawn_object_msg) at e))
  | inr ((type_id, x, z), f) ↦ elim (Bool-cases (C.user_is_admin (get_user C c s))) [
    | inr player ↦ refused (unchanged C (rw (f, player, spawn_object_msg) at e))
    | inl admin ↦ elim (Option-cases (spawn_object C.env s.world x z type_id faction)) [
      | inl lost ↦
          let gone : ◌≡◌ {A = Option (Reply C × Sys C)} none (some (r, u)) =
            rw (f, admin, spawn_object_msg, game_spawn_object, lost) at e in
          cc
      | inr ((g, b), run) ↦
          let same : ◌≡◌ {A = Option (Reply C × Sys C)}
              (some (null_message, with_world C (touch_faction C faction s) g)) (some (r, u)) =
            rw (f, admin, spawn_object_msg, game_spawn_object, run) at e in
          let is : with_world C (touch_faction C faction s) g ≡ u = cc in
          rw (← is) (
            touch_faction-SameRest C faction s g,
            elim (spawn_object-cases C.env s.world x z type_id faction g b safe run) [
              | inl kept ↦ inl kept
              | inr made ↦ inr (admin, (type_id, x, z, f, made))
            ],
          )
    ]
  ]
]
  where
    faction : String
    faction = spawn_faction C (get_user C c s)

    refused : u ≡ s → SameRest C s u × ((u.world ≡ s.world) ⊎ IsGranted C c m s u)
    refused same = rw same ((refl, refl, refl), inl refl)
