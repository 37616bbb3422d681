-- ===== src/Generation/Cliffs.antt =====
-- Cliffs and their ramps: `generate_world_cliffs` of src/game/world/ElevationGenerator.cpp.
pub mod Laws
use proj8315server.Base.{
  ℕ, suc, ◌+◌, ◌*◌, ◌%◌, Bool, true, false, Option, none, some, List, ◌==◌, leb, ℤ, pos, negsuc,
  ◌+ℤ◌, ◌-ℤ◌, if◌then◌else◌, ◌>>=◌,
}
use proj8315server.World.{Env, tile_index, checked, load, store}
use proj8315server.World.Loops.{for_range, for_count}
use proj8315server.Generation.{Gen, Ground, rock, dirt, Random, draw}
use proj8315server.Generation.Ramps.{create_ramp}

-- The array and the state of `std::rand`.
abbrev pub Land : Type 0
Land = List ℕ × Random

module _ (G : Gen) where
  -- `set_tile_terrtype(pWorld[i], g)`.
  unfoldable pub paint : Ground → ℕ → List ℕ → Option (List ℕ)
  paint g i ts = load ts (pos i) >>= λ t. store ts (pos i) (G.env.set_terrtype t (G.ground g))

  unfoldable pub paint_both : Ground → ℕ → ℕ → List ℕ → Option (List ℕ)
  paint_both g i j ts = paint g i ts >>= paint g j

  -- One cliff in twenty gets a ramp, which begins at the upper tile and is painted as dirt.
  unfoldable pub roll_ramp : ℕ → ℕ → ℕ → ℤ → ℤ → Random → List ℕ → Option Land
  roll_ramp w i j x2 y2 r ts =
      let (dice1, r1) = draw G r in
      let (dice2, r2) = draw G r1 in
      if dice1 % 20 == 1
      then (create_ramp G.env w x2 y2 (dice2 % 5 + 1) ts >>= λ us.
          paint_both dirt i j us >>= λ vs. some (vs, r2))
      else some (ts, r2)

  -- The body of the inner loops, at the tile i and a place near it.
  unfoldable pub cliff_at : ℕ → ℕ → ℕ → ℕ → ℤ → ℤ → Land → Option Land
  cliff_at w threshold i low y2 x2 (ts, r) = elim (checked (w * w) (tile_index w x2 y2)) [
    | none ↦ some (ts, r)
    | some j ↦ load ts (pos j) >>= λ t.
        if leb (low + threshold) (G.env.terrelevation t)
        then (paint_both rock i j ts >>= roll_ramp w i j x2 y2 r)
        else some (ts, r)
  ]

  unfoldable pub cliffs_near : ℕ → ℕ → ℤ → ℤ → Land → Option Land
  cliffs_near w threshold y x (ts, r) = elim (tile_index w x y) [
    | negsuc i ↦ none
    | pos i ↦ load ts (pos i) >>= λ t.
        for_range (y -ℤ pos 1) 3
          (λ y2. for_range (x -ℤ pos 1) 3 (cliff_at w threshold i (G.env.terrelevation t) y2))
          (ts, r)
  ]

  unfoldable pub generate_world_cliffs : ℕ → ℕ → Land → Option Land
  generate_world_cliffs w threshold =
      for_count 0 w (λ y. for_count 0 w (λ x. cliffs_near w threshold (pos y) (pos x)))
