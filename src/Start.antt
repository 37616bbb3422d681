-- ===== src/Start.antt =====
-- The constructor of Game (src/game/Game.cpp): the object library, the world, the factions of the
-- database and the units of a test. The answers of the database are arguments; the log and the size
-- of the library in bytes are left out. `none` is a fault,
-- and `some none` means that fuel did not last.
pub mod Laws
use proj8315server.Base.{
  ℕ, zero, suc, ◌+◌, ◌-◌, ◌*◌, Bool, true, false, Option, none, some, List, [], ◌∷◌, ◌++◌, map,
  length, replicate, pos, if◌then◌else◌, ◌>>=◌, Dict, find, put, string_eq, String,
}
use proj8315server.World.{World}
use proj8315server.World.Spawn.{spawn_object_named}
use proj8315server.Common.{Common}
use proj8315server.Database.{Rows, QueryResult}
use proj8315server.Library.{Loading, info_of, load_obj_info_db}
use proj8315server.Generation.{Gen, Random, draw}
use proj8315server.Generation.Elevation.{mod_int}
use proj8315server.Generation.Composition.{Plan, generate_world}

module _ (G : Gen) (L : Loading) where
  -- `_objectInfo`, `_pWorld` full of 0, and no objects yet.
  unfoldable pub empty_world : ℕ → QueryResult → World
  empty_world w q = record {
    world_width = w;
    tiles = replicate (w * w) 0;
    objects = [];
    object_info = map info_of (load_obj_info_db (record L { env = G.env }) q);
    delta_time = 0;
  }

-- The arguments of `generate_world`; the fuel is that of its loops.
abbrev pub game_plan : ℕ → ℕ → Plan
game_plan flood_fuel wave_fuel = record {
  max = 31;
  seed = 4718;
  equator = pos 128;
  flood_fuel = flood_fuel;
  wave_fuel = wave_fuel;
  manager = true;
}

module _ (G : Gen) where
  -- n more units of the test; `_testUnits` holds their numbers.
  unfoldable pub spawn_test_units :
      ℕ → ℕ → World → Random → List ℕ → Option (World × Random × List ℕ)
  spawn_test_units zero w g r units = some (g, r, units)
  spawn_test_units (suc n) w g r units = do
    let (a, r1) = draw G r
    let (b, r2) = draw G r1
    x ← mod_int a w
    y ← mod_int b w
    (g', spawned) ← spawn_object_named G.env g (pos x) (pos y) "Unit Test" "Neutral"
    let units' = if spawned then units ++ (length g'.objects - 1) ∷ [] else units
    spawn_test_units n w g' r2 units'

module _ (C : Common) where
  -- `_factions.insert(std::make_pair(name, faction))` for n rows from the i-th on.
  unfoldable pub load_factions : Rows → ℕ → ℕ → Dict String C.Faction → Dict String C.Faction
  load_factions rows i zero factions = factions
  load_factions rows i (suc n) factions =
      let name = rows.text_at i 2 in
      let faction = C.make_faction (rows.text_at i 0) name in
      load_factions rows (i + 1) n
        (elim (find name factions) [ none ↦ put name faction factions | some _ ↦ factions ])

  -- `_factions["Neutral"]`, which adds a missing faction.
  unfoldable pub ensure_neutral : Dict String C.Faction → Dict String C.Faction
  ensure_neutral factions = elim (find "Neutral" factions) [
    | none ↦ put "Neutral" C.default_faction factions
    | some _ ↦ factions
  ]

  pub record NewGame : Type 0 where
    pub world : World
    pub random : Random
    pub factions : Dict String C.Faction
    pub test_units : List ℕ

  -- No faction is loaded yet when the world is generated.
  unfoldable pub new_game :
      Gen → Loading → ℕ → ℕ → ℕ → QueryResult → QueryResult → Option (Option NewGame)
  new_game G L flood_fuel wave_fuel w objects_result factions_result = do
    made ← generate_world G (game_plan flood_fuel wave_fuel) none (empty_world G L w objects_result)
    let rows = factions_result.result
    let factions = ensure_neutral (load_factions rows 0 rows.size [])
    elim made [
      | none ↦ some none
      | some (g, r) ↦ spawn_test_units G 1000 w g r [] >>= λ t.
          some (some (record { world = t.0; random = t.1; factions = factions; test_units = t.2 }))
    ]
