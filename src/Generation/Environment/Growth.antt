-- ===== src/Generation/Environment/Growth.antt =====
-- The waves of fertile ground: `generate_environment` of src/game/world/EnvironmentGenerator.cpp.
-- `none` is a fault as in the module above; `maxFertScore`, which nothing reads, is left out.
use proj8315server.Base.{
  ℕ, zero, suc, ◌+◌, ◌*◌, Bool, true, false, ◌&&◌, ◌||◌, not, Option, none, some, List, [], ◌∷◌,
  ◌==◌, ℤ, pos, ◌+ℤ◌, ◌-ℤ◌, if◌then◌else◌, ◌>>=◌, Dict, find, put, String,
}
use proj8315server.World.{World, checked, load, read_tile, write_tile, float_zero, float_one}
use proj8315server.Water.{number_eq}
use proj8315server.Generation.{
  Gen, rock, fertile, freezing, cold, chilly, mild, warm, hot, burning, Random,
}
use proj8315server.Generation.Ramps.{is_diagonal}
use proj8315server.Generation.Environment.{
  has, insert, insert_all, erase_all, attempt_plant_environment_object, is_water, find_shores,
}

-- `m[k]`, which adds a missing key with the value 0.
abbrev or_zero : Option ℕ → ℕ
or_zero none = float_zero
or_zero (some v) = v

-- The bit patterns of 2.0f, 3.0f and 5.0f.
abbrev pub float_two : ℕ
float_two = 0x4000_0000

abbrev pub float_three : ℕ
float_three = 0x4040_0000

abbrev pub float_five : ℕ
float_five = 0x40a0_0000

-- `score`, `count` and `potentialNewTiles`.
pub record Score : Type 0 where
  pub score : ℕ
  pub count : ℕ
  pub potential : List ℕ

abbrev pub blank_score : Score
blank_score = record { score = float_zero; count = float_zero; potential = [] }

-- What a wave changes: the world, the numbers of `std::rand`, the weights, `newWaveTiles` and
-- `toRemoveIndices`.
pub record Wave : Type 0 where
  pub world : World
  pub random : Random
  pub weights : Dict ℕ ℕ
  pub new_tiles : List ℕ
  pub to_remove : List ℕ

module _ (G : Gen) (w : ℕ) where
  -- `temperatureNegEffectMul[t]`.
  unfoldable pub neg_effect : ℕ → ℕ
  neg_effect t =
      let effects =
        (G.warmth mild, float_one)
        ∷ (G.warmth chilly, float_one)
        ∷ (G.warmth cold, float_one)
        ∷ (G.warmth freezing, float_one)
        ∷ (G.warmth warm, float_one)
        ∷ (G.warmth hot, float_three)
        ∷ (G.warmth burning, float_five)
        ∷ [] in
      or_zero (find t effects)

  -- `deg` of the i-th neighbour.
  unfoldable pub degree : Bool → ℕ → ℕ
  degree first i =
      if is_diagonal G.env w i then float_two else if first then float_zero else float_one

  -- `adjacentTileIndices`.
  unfoldable pub adjacent_indices : ℕ → List ℤ
  adjacent_indices i =
      (pos i -ℤ pos w)
      ∷ (pos i -ℤ pos w +ℤ pos 1)
      ∷ (pos i +ℤ pos 1)
      ∷ (pos i +ℤ pos w +ℤ pos 1)
      ∷ (pos i +ℤ pos w)
      ∷ (pos i +ℤ pos w -ℤ pos 1)
      ∷ (pos i -ℤ pos 1)
      ∷ (pos i -ℤ pos w -ℤ pos 1)
      ∷ []

  -- A neighbour in the array that is not of this wave.
  unfoldable pub score_neighbour : List ℕ → Dict ℕ ℕ → List ℕ → Bool → ℕ → ℕ → Score → Option Score
  score_neighbour ts weights to_check first i j s = do
    t ← load ts (pos j)
    elim (find j weights) [
      | none ↦ some (
          if not (is_water G t) && not (has j to_check)
          then record s { potential = insert j s.potential }
          else s)
      | some f ↦ some (record s {
        score = G.add s.score (G.sub f (G.mul (degree first i) (neg_effect (G.temperature t))));
        count = G.add s.count float_one;
      })
    ]

  unfoldable pub score_at : List ℕ → Dict ℕ ℕ → List ℕ → Bool → ℕ → ℤ → Score → Option Score
  score_at ts weights to_check first i a s = elim (checked (w * w) a) [
    | none ↦ some s
    | some j ↦ if has j to_check then some s else score_neighbour ts weights to_check first i j s
  ]

  -- The loop over the neighbours, from the i-th on.
  unfoldable pub score_tile : List ℕ → Dict ℕ ℕ → List ℕ → Bool → ℕ → List ℤ → Score → Option Score
  score_tile ts weights to_check first i [] s = some s
  score_tile ts weights to_check first i (a ∷ as') s =
      score_at ts weights to_check first i a s >>= λ s'.
      score_tile ts weights to_check first (i + 1) as' s'

  -- The tile of a positive score: ground that is not water or rock gets fertile, and a chance of a
  -- plant.
  unfoldable pub grow : Option String → ℕ → Wave → Option Wave
  grow neutral i v = do
    t ← read_tile v.world (pos i)
    let fertile_t = G.env.set_terrtype t (G.ground fertile)
    if is_water G t || G.terrtype t == G.ground rock then some v else (do
      g ← write_tile v.world (pos i) fertile_t
      planted ← attempt_plant_environment_object G neutral (G.temperature fertile_t) w i g v.random
      some (record v { world = planted.0; random = planted.1 }))

  unfoldable pub check_tile : Option String → List ℕ → Bool → ℕ → Wave → Option Wave
  check_tile neutral to_check first i v = do
    s ← score_tile v.world.tiles v.weights to_check first 0 (adjacent_indices i) blank_score
    let final_score = G.div s.score s.count
    v' ←
        if G.less float_zero final_score
        then grow neutral i (record v {
          weights = put i final_score v.weights;
          new_tiles = insert_all s.potential v.new_tiles;
        })
        else some v
    some (record v' { to_remove = insert i v'.to_remove })

  unfoldable pub check_tiles : Option String → List ℕ → Bool → List ℕ → Wave → Option Wave
  check_tiles neutral to_check first [] v = some v
  check_tiles neutral to_check first (i ∷ is) v =
      check_tile neutral to_check first i v >>= λ v'. check_tiles neutral to_check first is v'

  -- The waves. `some none` means that the fuel did not last.
  unfoldable pub spread :
      ℕ
      → Option String
      → Bool
      → List ℕ
      → World
      → Random
      → Dict ℕ ℕ
      → Option (Option (World × Random))
  spread zero neutral first to_check g r weights = some none
  spread (suc fuel) neutral first [] g r weights = some (some (g, r))
  spread (suc fuel) neutral first (i ∷ is) g r weights =
      let next = spread fuel neutral false in
      let to_check = i ∷ is in
      check_tiles neutral to_check first (G.walk to_check)
        (record { world = g; random = r; weights = weights; new_tiles = []; to_remove = [] })
      >>= λ v.
          next (erase_all v.to_remove (insert_all v.new_tiles to_check)) v.world v.random v.weights

  -- `manager` is false for a null `pObjManager`; the weights are those of the static map.
  unfoldable pub generate_environment :
      ℕ
      → Option String
      → Bool
      → Dict ℕ ℕ
      → Dict ℕ ℕ
      → World
      → Random
      → Option (Option (World × Random))
  generate_environment fuel neutral manager sizes weights g r =
      if manager
      then (find_shores G w g.tiles sizes weights >>= λ s.
          spread fuel neutral true s.to_check g r s.weights)
      else some (some (g, r))
