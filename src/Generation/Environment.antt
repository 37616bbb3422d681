-- ===== src/Generation/Environment.antt =====
-- Fertile ground and plants: src/game/world/EnvironmentGenerator.cpp. The world is given its tiles
-- by the other generators; `none` is an access outside an array, an absent pool size or the use of
-- a faction that is null. `maxFertScore`, which nothing reads, is left out.
pub mod Growth
pub mod Planting
pub mod Shores
pub mod Weights
pub mod Waves
pub mod Laws
use proj8315server.Base.{
  ℕ, zero, suc, ◌+◌, ◌*◌, ◌/◌, ◌%◌, Bool, true, false, ◌&&◌, ◌||◌, not, Option, none, some, List,
  [], ◌∷◌, ◌==◌, leb, ℤ, pos, ◌+ℤ◌, ◌-ℤ◌, if◌then◌else◌, ◌>>=◌, Dict, find, put, String,
}
use proj8315server.World.{
  World, tile_index, checked, load, read_tile, write_tile, float_zero, float_one,
}
use proj8315server.World.Loops.{for_range, for_count}
use proj8315server.World.Spawn.{spawn_object_named}
use proj8315server.Water.{number_eq}
use proj8315server.Generation.{
  Gen, rock, water, fertile, freezing, cold, chilly, mild, warm, hot, burning, Random, draw,
}
use proj8315server.Generation.Ramps.{is_diagonal}

-- `std::unordered_set<int>`, as a list of its members.
abbrev pub has : ℕ → List ℕ → Bool
has v [] = false
has v (u ∷ us) = u == v || has v us

abbrev pub insert : ℕ → List ℕ → List ℕ
insert v us = if has v us then us else v ∷ us

abbrev pub insert_all : List ℕ → List ℕ → List ℕ
insert_all [] us = us
insert_all (v ∷ vs) us = insert_all vs (insert v us)

abbrev pub erase_all : List ℕ → List ℕ → List ℕ
erase_all vs [] = []
erase_all vs (u ∷ us) = if has u vs then erase_all vs us else u ∷ erase_all vs us

-- The bit pattern of 0.1f.
abbrev pub float_tenth : ℕ
float_tenth = 0x3dcc_cccd

-- `fertilityWeights` and `tilesToCheck`.
pub record Shore : Type 0 where
  pub weights : Dict ℕ ℕ
  pub to_check : List ℕ

module _ (G : Gen) where
  -- `objName`, by the temperature.
  unfoldable pub plant_name : ℕ → Random → String × Random
  plant_name temperature r =
      let (dice, r1) = draw G r in
      if temperature == G.warmth mild
      then (if dice % 5 == 0 then "Spruce Tree" else "Tree", r1)
      else if temperature == G.warmth hot || temperature == G.warmth burning
      then ("Palm Tree", r)
      else if temperature == G.warmth chilly
          || temperature == G.warmth cold
          || temperature == G.warmth freezing
      then ("Spruce Tree", r)
      else ("Tree", r)

  -- The faction is that of `accessFaction("Neutral")`, where `none` is a null pointer.
  unfoldable pub attempt_plant_environment_object :
      Option String → ℕ → ℕ → ℕ → World → Random → Option (World × Random)
  attempt_plant_environment_object neutral temperature w i g r =
      let (dice, r1) = draw G r in
      let (name, r2) = plant_name temperature r1 in
      if leb 16 (dice % 20)
      then elim neutral [
        | none ↦ none
        | some faction ↦
            (spawn_object_named G.env g (pos (i % w)) (pos (i / w)) name faction >>= λ s.
            some (s.0, r2))
      ]
      else some (g, r2)

  abbrev pub is_water : ℕ → Bool
  is_water t = G.terrtype t == G.ground water

  module _ (w : ℕ) where
    -- A place around the water tile i.
    unfoldable pub shore_at : List ℕ → Dict ℕ ℕ → ℕ → ℤ → ℤ → Shore → Option Shore
    shore_at ts sizes i y2 x2 s = elim (checked (w * w) (tile_index w x2 y2)) [
      | none ↦ some s
      | some j ↦ load ts (pos j) >>= λ t.
          if is_water t
          then (find i sizes >>= λ n.
              some (record s { weights = put i (G.mul (G.of_int (pos n)) float_tenth) s.weights }))
          else some (record s { to_check = insert j s.to_check })
    ]

    unfoldable pub shore_of : List ℕ → Dict ℕ ℕ → ℕ → ℕ → Shore → Option Shore
    shore_of ts sizes y x s = do
      let i = x + y * w
      t ← load ts (pos i)
      if is_water t
          then (for_range (pos y -ℤ pos 1) 3
              (λ y2. for_range (pos x -ℤ pos 1) 3 (shore_at ts sizes i y2))
              (record s { weights = put i float_zero s.weights }))
          else some s

    -- The weights of the water and the first wave.
    unfoldable pub find_shores : List ℕ → Dict ℕ ℕ → Dict ℕ ℕ → Option Shore
    find_shores ts sizes weights =
        for_count 0 w (λ y. for_count 0 w (shore_of ts sizes y))
          (record { weights = weights; to_check = [] })
