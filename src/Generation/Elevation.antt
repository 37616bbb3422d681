-- ===== src/Generation/Elevation.antt =====
-- The shape of a new world: src/utils/Algorithm.cpp (noise) and `create_heightmap` and
-- `generate_world_elevation` of src/game/world/ElevationGenerator.cpp. `none` is an access outside
-- an array, or a division of an `int` by 0.
pub mod Perlin
pub mod Laws
use proj8315server.Base.{
  ℕ, zero, suc, ◌+◌, ◌-◌, ◌*◌, ◌/◌, ◌%◌, ◌^◌, Bool, true, false, Option, none, some, List, [], ◌∷◌,
  ◌==◌, length, replicate, ℤ, pos, negsuc, if◌then◌else◌, ◌>>=◌,
}
use proj8315server.World.{Env, load, store, float_zero, float_one}
use proj8315server.World.Loops.{for_count}
use proj8315server.Generation.{Gen, Random, draw, srand}

-- The bit patterns of 0.25f, 0.05f, 0.4f and the greatest `float`.
abbrev pub float_quarter : ℕ
float_quarter = 0x3e80_0000

abbrev pub float_twentieth : ℕ
float_twentieth = 0x3d4c_cccd

abbrev pub float_two_fifths : ℕ
float_two_fifths = 0x3ecc_cccd

abbrev pub float_max_value : ℕ
float_max_value = 0x7f7f_ffff

-- `a / b` and `a % b` of `int`s that are not negative.
abbrev pub div_int : ℕ → ℕ → Option ℕ
div_int a b = if b == 0 then none else some (a / b)

abbrev pub mod_int : ℕ → ℕ → Option ℕ
mod_int a b = if b == 0 then none else some (a % b)

-- `noiseVal`, `scaleFactor` and `count`.
pub record Noise : Type 0 where
  pub value : ℕ
  pub scale : ℕ
  pub count : ℤ

-- `result` and `minVal`.
pub record Heights : Type 0 where
  pub result : List ℕ
  pub min_val : ℕ

module _ (G : Gen) where
  unfoldable pub lerp : ℕ → ℕ → ℕ → ℕ
  lerp v1 v2 amount = G.add (G.mul (G.sub float_one amount) v1) (G.mul amount v2)

  -- `count += s` of an `int` and a `float`.
  unfoldable pub add_count : ℤ → ℕ → ℤ
  add_count count s = G.to_int (G.add (G.of_int count) s)

  -- The samples around a coordinate: `samplePos1`, `samplePos2` and `lerpAmount`.
  unfoldable pub sample : ℕ → ℕ → ℕ → Option (ℕ × ℕ × ℕ)
  sample width interval x = do
    cell ← div_int x interval
    let pos1 = cell * interval
    pos2 ← mod_int (pos1 + interval) width
    some (pos1, pos2, G.div (G.of_int (pos (x - pos1))) (G.of_int (pos interval)))

  -- A round of the loop over the octaves, on a row of samples.
  unfoldable pub octave : List ℕ → ℕ → ℕ → ℕ → Noise → Option Noise
  octave seeds scaling x o n = do
    (pos1, pos2, amount) ← sample (length seeds) (length seeds / 2 ^ o) x
    a ← load seeds (pos pos1)
    b ← load seeds (pos pos2)
    let scale' = G.div n.scale scaling
    some (record {
      value = G.add n.value (G.mul (lerp a b amount) n.scale);
      scale = scale';
      count = add_count n.count scale';
    })

  unfoldable pub noise_at : List ℕ → ℕ → ℕ → ℕ → List ℕ → Option (List ℕ)
  noise_at seeds octaves scaling x result = do
    n ←
        for_count 0 octaves (octave seeds scaling x)
          (record { value = float_zero; scale = float_one; count = pos 0 })
    store result (pos x) (G.div n.value (G.of_int n.count))

  unfoldable pub generate_perlin : List ℕ → ℕ → ℕ → Option (List ℕ)
  generate_perlin seeds octaves scaling =
      for_count 0 (length seeds) (noise_at seeds octaves scaling)
        (replicate (length seeds) float_zero)

  -- The value between two samples of a row.
  unfoldable pub row_value : List ℕ → ℕ → ℕ → ℕ → ℕ → ℕ → Option ℕ
  row_value seeds width amount x1 x2 y = do
    a ← load seeds (pos (x1 + y * width))
    b ← load seeds (pos (x2 + y * width))
    some (G.add (G.mul (G.sub float_one amount) a) (G.mul amount b))

  unfoldable pub octave2 : List ℕ → ℕ → ℕ → ℕ → ℕ → ℕ → Noise → Option Noise
  octave2 seeds width scaling x y o n = do
    let interval = width / 2 ^ o
    (x1, x2, amount_x) ← sample width interval x
    (y1, y2, amount_y) ← sample width interval y
    top ← row_value seeds width amount_x x1 x2 y1
    bottom ← row_value seeds width amount_x x1 x2 y2
    some (record {
      value = G.add n.value (G.mul (lerp top bottom amount_y) n.scale);
      scale = G.div n.scale scaling;
      count = add_count n.count n.scale;
    })

  unfoldable pub noise_at2 : List ℕ → ℕ → ℕ → ℕ → ℕ → ℕ → Heights → Option Heights
  noise_at2 seeds width octaves scaling x y h = do
    n ←
        for_count 0 octaves (octave2 seeds width scaling x y)
          (record { value = float_zero; scale = float_one; count = pos 1 })
    let final_val = G.div n.value (G.of_int n.count)
    result ← store h.result (pos (x + y * width)) final_val
    some (record {
      result = result;
      min_val = if G.less final_val h.min_val then final_val else h.min_val;
    })

  unfoldable pub generate_perlin2d : List ℕ → ℕ → ℕ → ℕ → Option Heights
  generate_perlin2d seeds width octaves scaling =
      for_count 0 width (λ x. for_count 0 width (noise_at2 seeds width octaves scaling x))
        (record { result = replicate (width * width) float_zero; min_val = float_max_value })

  -- `seedArr` from its i-th number on, of n more.
  unfoldable pub draw_seeds : ℕ → ℕ → Random → Option (List ℕ × Random)
  draw_seeds max zero r = some ([], r)
  draw_seeds max (suc n) r = do
    let (dice, r1) = draw G r
    v ← mod_int dice max
    (vs, r2) ← draw_seeds max n r1
    some (G.div (G.of_int (pos v)) (G.of_int (pos max)) ∷ vs, r2)

  unfoldable pub create_heightmap : ℕ → ℕ → ℕ → ℕ → ℕ → Option (List ℕ × Random)
  create_heightmap width seed octaves scale_divisor max = do
    (seeds, r) ← draw_seeds max (width * width) (srand seed)
    heights ← generate_perlin2d seeds width octaves scale_divisor
    some (heights.result, r)

  unfoldable pub raise_tile : List ℕ → List ℕ → ℕ → ℕ → ℕ → ℕ → List ℕ → Option (List ℕ)
  raise_tile map1 map2 levels w y x ts = do
    let i = x + y * w
    a ← load map1 (pos i)
    b ← load map2 (pos i)
    t ← load ts (pos i)
    let height = lerp a b float_quarter
    let h = G.round_byte (G.div height (G.div float_one (G.of_int (pos levels)))) 4
    store ts (pos i) (G.env.set_terrelevation t h)

  unfoldable pub generate_world_elevation : ℕ → ℕ → ℕ → List ℕ → Option (List ℕ × Random)
  generate_world_elevation w max seed ts = do
    (map1, r1) ← create_heightmap w seed 5 float_two_fifths max
    (map2, r2) ← create_heightmap w ((seed + 1) % 2 ^ 32) 7 float_twentieth max
    let levels = G.floor (G.div (G.of_int (pos max)) (G.of_int (pos 4)))
    us ← for_count 0 w (λ y. for_count 0 w (raise_tile map1 map2 levels w y)) ts
    some (us, r2)
