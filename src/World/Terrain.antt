-- ===== src/World/Terrain.antt =====
-- The area write of an administrator, `Game::setTileState` with a radius (src/game/Game.cpp).
use proj8315server.Base.{
  ℕ, ◌+◌, Bool, ◌&&◌, if◌then◌else◌, ◌+ℤ◌, Option, none, some, List, ℤ, pos, ◌-ℤ◌, ◌>>=◌,
}
use proj8315server.World.{Env, World, area, tile_index, is_int, index_fits, checked, load, store}
use proj8315server.World.Loops.{for_range}

-- The bounds of a loop from c - r to c + r, with the value that ends it, are values of an `int`.
abbrev pub bounds_fit : ℕ → ℤ → Bool
bounds_fit r c = is_int (c -ℤ pos r) && is_int (c +ℤ pos (r + 1))

module _ (E : Env) where
  unfoldable pub shape_tile : ℕ → ℕ → ℕ → ℕ → ℕ
  shape_tile elevation temperature terrain_type t =
      E.set_terrtype (E.set_temperature (E.set_terrelevation t elevation) temperature) terrain_type

  -- The body of the two loops; an index that overflows is a fault.
  unfoldable pub shape_at : World → (ℕ → ℕ) → ℤ → ℤ → List ℕ → Option (List ℕ)
  shape_at g f z x ts =
      if index_fits g.world_width x z
      then elim (checked (area g) (tile_index g.world_width x z)) [
        | none ↦ some ts
        | some i ↦ load ts (pos i) >>= λ t. store ts (pos i) (f t)
      ]
      else none

  unfoldable pub shape_area : World → ℕ → ℤ → ℤ → (ℕ → ℕ) → Option (List ℕ)
  shape_area g radius x z f =
      if bounds_fit radius x && bounds_fit radius z
      then for_range (z -ℤ pos radius) (radius + radius + 1)
          (λ j. for_range (x -ℤ pos radius) (radius + radius + 1) (shape_at g f j)) g.tiles
      else none

  unfoldable pub set_tile_area : World → ℕ → ℤ → ℤ → ℕ → ℕ → ℕ → Option World
  set_tile_area g radius x z elevation temperature terrain_type =
      shape_area g radius x z (shape_tile elevation temperature terrain_type) >>= λ ts.
      some (record g { tiles = ts })
