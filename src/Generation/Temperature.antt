-- ===== src/Generation/Temperature.antt =====
-- The climate of a new world: src/game/world/TemperatureGenerator.cpp. `none` is an access outside
-- the array.
pub mod Scores
pub mod Laws
use proj8315server.Base.{
  ℕ, suc, ◌+◌, ◌*◌, Bool, true, false, ◌&&◌, not, Option, none, some, List, [], ◌∷◌, get_elem?,
  ◌==◌, ltb, ℤ, pos, negsuc, ◌+ℤ◌, ◌-ℤ◌, if◌then◌else◌, ◌>>=◌,
}
use proj8315server.World.{tile_index, checked, load, store, float_zero, float_half}
use proj8315server.World.Loops.{for_range, for_count}
use proj8315server.Generation.{
  Gen, Warmth, rock, water, dunes, freezing, cold, chilly, mild, warm, hot, burning,
}

-- `std::abs` and `std::max(i, 0)` of an `int`.
unfoldable pub distance : ℤ → ℕ
distance (pos n) = n
distance (negsuc n) = suc n

unfoldable pub at_least_zero : ℤ → ℕ
at_least_zero (pos n) = n
at_least_zero (negsuc n) = 0

abbrev pub warmths : List Warmth
warmths = freezing ∷ cold ∷ chilly ∷ mild ∷ warm ∷ hot ∷ burning ∷ []

module _ (G : Gen) where
  -- `std::min` and `std::max` of `float`.
  unfoldable pub float_min : ℕ → ℕ → ℕ
  float_min a b = if G.less b a then b else a

  unfoldable pub float_max : ℕ → ℕ → ℕ
  float_max a b = if G.less a b then b else a

  -- `(distScore + elevationScore) * 0.5f`.
  unfoldable pub climate_score : ℤ → ℕ → ℕ → ℕ
  climate_score equator y elevation =
      let dist = G.of_int (pos (distance (pos y -ℤ equator))) in
      let dist_score = float_min (G.div dist (G.of_int (pos 49))) (G.of_int (pos 6)) in
      let elevation_score =
        float_max (G.div (G.of_int (pos elevation)) (G.of_int (pos 6))) float_zero in
      G.mul (G.add dist_score elevation_score) float_half

  -- `totalTemperatureScore`.
  unfoldable pub temperature_score : ℤ → ℕ → ℕ → ℕ
  temperature_score equator y elevation =
      at_least_zero (pos 6 -ℤ G.to_int (climate_score equator y elevation))

  -- `tempMapping[k]`; a missing key is added with the value 0.
  unfoldable pub temp_mapping : ℕ → ℕ
  temp_mapping k = elim (get_elem? warmths k) [ none ↦ 0 | some h ↦ G.warmth h ]

  unfoldable pub count_water_at : ℕ → List ℕ → ℤ → ℤ → ℕ → Option ℕ
  count_water_at w ts y2 x2 n = elim (checked (w * w) (tile_index w x2 y2)) [
    | none ↦ some n
    | some i ↦ load ts (pos i) >>= λ t. some (if G.terrtype t == G.ground water then n + 1 else n)
  ]

  -- `nearWaterCount`: the rounds before the last of each radius.
  unfoldable pub near_water_count : ℕ → List ℕ → ℕ → ℕ → Option ℕ
  near_water_count w ts y x =
      for_range (pos y -ℤ pos 3) 6 (λ y2. for_range (pos x -ℤ pos 3) 6 (count_water_at w ts y2)) 0

  -- A burning tile without water around turns to dunes.
  unfoldable pub dry_out : ℕ → ℕ → ℕ → ℕ → ℕ → ℕ → List ℕ → Option (List ℕ)
  dry_out w y x i heat t ts =
      if heat == G.warmth burning && not (G.terrtype t == G.ground rock)
      then (near_water_count w ts y x >>= λ n.
          if ltb n 3 then store ts (pos i) (G.env.set_terrtype t (G.ground dunes)) else some ts)
      else some ts

  unfoldable pub heat_tile : ℕ → ℤ → ℕ → ℕ → List ℕ → Option (List ℕ)
  heat_tile w equator y x ts = do
    let i = x + y * w
    t ← load ts (pos i)
    let heat = temp_mapping (temperature_score equator y (G.env.terrelevation t))
    let t' = G.env.set_temperature t heat
    ts' ← store ts (pos i) t'
    dry_out w y x i heat t' ts'

  unfoldable pub generate_temperature_effect : ℕ → ℤ → List ℕ → Option (List ℕ)
  generate_temperature_effect w equator = for_count 0 w (λ y. for_count 0 w (heat_tile w equator y))
