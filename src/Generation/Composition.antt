-- ===== src/Generation/Composition.antt =====
-- A new world from its generators: `generate_world` of src/game/world/WorldGenerator.cpp, with the
-- places of the pools that `generate_world_waters` of src/game/world/WaterGenerator.cpp draws.
pub mod Laws
pub mod Null
use proj8315server.Base.{
  ℕ, zero, suc, ◌*◌, Bool, Option, none, some, List, [], ◌∷◌, ℤ, pos, ◌>>=◌, String, Dict,
}
use proj8315server.World.{World}
use proj8315server.Water.{Node, generate_world_waters}
use proj8315server.Generation.{Gen, water, Random, draw, srand}
use proj8315server.Generation.Elevation.{mod_int, generate_world_elevation}
use proj8315server.Generation.Cliffs.{generate_world_cliffs}
use proj8315server.Generation.Temperature.{generate_temperature_effect}
use proj8315server.Generation.Environment.Growth.{generate_environment}

-- `rx` and `ry` of each pool.
unfoldable pub draw_starts : Gen → ℕ → ℕ → Random → Option (List Node × Random)
draw_starts G w zero r = some ([], r)
draw_starts G w (suc n) r = do
  let (a, r1) = draw G r
  let (b, r2) = draw G r1
  x ← mod_int a w
  y ← mod_int b w
  (starts, r3) ← draw_starts G w n r2
  some ((pos x, pos y) ∷ starts, r3)

-- What the world is made by: `maxElevationVal`, `seed` and `equatorYPos`, the fuel of the searches
-- for pools and of the waves, and whether `pObjManager` is not null.
pub record Plan : Type 0 where
  pub max : ℕ
  pub seed : ℕ
  pub equator : ℤ
  pub flood_fuel : ℕ
  pub wave_fuel : ℕ
  pub manager : Bool

module _ (G : Gen) (p : Plan) (neutral : Option String) where
  -- The generators after the water.
  unfoldable pub finish_world :
      World → List ℕ → Dict ℕ ℕ → Random → Option (Option (World × Random))
  finish_world g ts sizes r = do
    (us, r') ← generate_world_cliffs G g.world_width 4 (ts, r)
    vs ← generate_temperature_effect G g.world_width p.equator us
    generate_environment G g.world_width p.wave_fuel neutral p.manager sizes []
        (record g { tiles = vs }) r'

  -- `some none` means that fuel did not last.
  unfoldable pub generate_world : World → Option (Option (World × Random))
  generate_world g = do
    (ts, _) ← generate_world_elevation G g.world_width p.max p.seed g.tiles
    (starts, r) ← draw_starts G g.world_width 2048 (srand 666)
    made ← generate_world_waters G.env (G.ground water) g.world_width p.flood_fuel starts ts []
    elim made [ none ↦ some none | some (us, sizes) ↦ finish_world g us sizes r ]
