-- ===== src/Tests/Terrains.antt =====
-- The theorems on the generators at small maps.
use proj8315server.Base.{
  ℕ, zero, suc, ◌≤◌, ◌<◌, ◌≡◌, refl, true, false, none, some, List, [], ◌∷◌, length,
  length-replicate, get_elem?, get_elem?-replicate, replicate, pos, ◌+ℤ◌, ◌-ℤ◌, ◌*ℤ◌, Dict, find,
  arith, Pointwise, put,
}
use proj8315server.World.{World, tile_index}
use proj8315server.World.Frames.{IsSafe}
use proj8315server.World.Spawning.{KeptSafe}
use proj8315server.Water.{
  number_eq, generate_world_waters, generate_water_area, flood, flood_round, visit, scan,
  compare_height, visited_before, height, fill, record_sizes, water_height,
}
use proj8315server.Water.Sizes.{Pooled}
use proj8315server.Generation.{Random}
use proj8315server.Generation.Ramps.{create_ramp}
use proj8315server.Generation.Ramps.Bounds.{Lowered, create_ramp-Lowered}
use proj8315server.Generation.Cliffs.{Land, generate_world_cliffs}
use proj8315server.Generation.Cliffs.Laws.{Weathered, generate_world_cliffs-Weathered}
use proj8315server.Generation.Elevation.{generate_perlin2d, generate_world_elevation}
use proj8315server.Generation.Elevation.Perlin.{generate_perlin2d-narrow}
use proj8315server.Generation.Elevation.Laws.{Raised, generate_world_elevation-Raised}
use proj8315server.Generation.Temperature.{distance, generate_temperature_effect}
use proj8315server.Generation.Temperature.Scores.{exact}
use proj8315server.Generation.Temperature.Laws.{Heated, generate_temperature_effect-Heated}
use proj8315server.Generation.Environment.{is_water}
use proj8315server.Generation.Environment.Growth.{generate_environment}
use proj8315server.Generation.Environment.Laws.{generate_environment-IsSafe}
use proj8315server.Generation.Composition.{Plan, generate_world}
use proj8315server.Generation.Composition.Laws.{generate_world-IsSafe}
use proj8315server.Tests.Samples.{sample_info}
use proj8315server.Tests.Layouts.{
  sample_gen, sample-compass, sample-GroundLaws, sample-ClimateLaws, sample-FloatLaws,
  sample-GenLaws,
}

abbrev start : Random
start = record { seed = 3; drawn = 0 }

-- A plateau beside lower ground, three by three.
abbrev hill : List ℕ
hill = 0 ∷ 0 ∷ 0 ∷ 8 ∷ 8 ∷ 8 ∷ 8 ∷ 8 ∷ 8 ∷ []

near : (y : ℕ) → y < 64 → distance (pos y -ℤ pos 128) ≤ exact
unfolding distance ◌-ℤ◌
near y lt = ground arith

create_ramp-Lowered_example :
    (us : List ℕ) × (create_ramp sample_gen.env 3 (pos 1) (pos 1) 2 hill ≡ some us)
    × Pointwise (Lowered sample_gen.env 8) hill us
unfolding tile_index ◌+ℤ◌ ◌*ℤ◌
create_ramp-Lowered_example =
    create_ramp-Lowered sample_gen.env 3 2 (pos 1) (pos 1) hill 4 8 sample-compass
      (λ a u h le. omega arith) refl refl refl

generate_world_cliffs-Weathered_example :
    (l : Land) × (generate_world_cliffs sample_gen 3 4 (hill, start) ≡ some l)
    × (length l.0 ≡ 9)
    × Pointwise (Weathered sample_gen) hill l.0
generate_world_cliffs-Weathered_example =
    generate_world_cliffs-Weathered sample_gen 3 4 hill start sample-GroundLaws refl

generate_temperature_effect-Heated_example :
    (us : List ℕ) × (generate_temperature_effect sample_gen 3 (pos 128) hill ≡ some us)
    × Pointwise (Heated sample_gen) hill us
generate_temperature_effect-Heated_example =
    generate_temperature_effect-Heated sample_gen 3 (pos 128) hill sample-FloatLaws
      sample-ClimateLaws refl (λ y lt. near y (omega (arith, lt)))

generate_perlin2d-narrow_example : generate_perlin2d sample_gen hill 3 5 7 ≡ none
generate_perlin2d-narrow_example =
    generate_perlin2d-narrow sample_gen 3 5 7 2 hill refl (omega arith) (omega arith) (omega arith)

-- A flat world of 64 by 64 tiles, without a thing.
abbrev pub plain : World
plain = record {
  world_width = 64;
  tiles = replicate 4096 0;
  objects = [];
  object_info = sample_info;
  delta_time = 0;
}

plain-IsSafe : IsSafe plain
plain-IsSafe = record {
  ready = record {
    size = length-replicate {A = ℕ} 4096 0;
    wide = omega arith;
    typed = omega arith;
    speeds = (omega arith, (omega arith, tt));
  };
  placed = tt;
}

plain_dry : (i t : ℕ) → get_elem? plain.tiles i ≡ some t → is_water sample_gen t ≡ false
plain_dry i t e = rw (get_elem?-replicate 4096 0 i t e) refl

generate_world_elevation-Raised_example :
    (us : List ℕ) × (r : Random) × (generate_world_elevation sample_gen 64 31 4718 plain.tiles
      ≡ some (us, r))
    × Pointwise (Raised sample_gen) plain.tiles us
generate_world_elevation-Raised_example =
    generate_world_elevation-Raised sample_gen 64 31 4718 plain.tiles (omega arith) (omega arith)
      (length-replicate {A = ℕ} 4096 0)

abbrev pub plan : Plan
plan = record {
  max = 31;
  seed = 4718;
  equator = pos 128;
  flood_fuel = 10000000;
  wave_fuel = 5000;
  manager = true;
}

generate_world-IsSafe_example :
    (h : World) × (r : Random) × (generate_world sample_gen plan (some "Neutral") plain
      ≡ some (some (h, r)))
    × KeptSafe plain h
generate_world-IsSafe_example =
    generate_world-IsSafe sample_gen plan "Neutral" plain sample-GenLaws plain-IsSafe (omega arith)
      (omega arith) plain_dry near (omega arith) (omega arith)

-- A corner of water in a world of four tiles.
abbrev lake : World
lake = record {
  world_width = 2;
  tiles = 0 ∷ 0 ∷ 0 ∷ 96 ∷ [];
  objects = [];
  object_info = sample_info;
  delta_time = 0;
}

lake-IsSafe : IsSafe lake
lake-IsSafe = record {
  ready = record {
    size = refl;
    wide = omega arith;
    typed = omega arith;
    speeds = (omega arith, (omega arith, tt));
  };
  placed = tt;
}

abbrev lake_sizes : Dict ℕ ℕ
lake_sizes = (3, 1) ∷ []

lake-Pooled : Pooled (is_water sample_gen) lake.tiles lake_sizes
unfolding find
lake-Pooled zero t e wet = absurd (ground arith)
lake-Pooled (suc zero) t e wet = absurd (ground arith)
lake-Pooled (suc (suc zero)) t e wet = absurd (ground arith)
lake-Pooled (suc (suc (suc zero))) t e wet = (1, refl)
lake-Pooled (suc (suc (suc (suc i)))) t e wet = absurd cc

generate_environment-IsSafe_example :
    (h : World) × (r : Random) × (generate_environment sample_gen 2 6
        (some "Neutral")
        true
        lake_sizes
        []
        lake
        start
      ≡ some (some (h, r)))
    × KeptSafe lake h
generate_environment-IsSafe_example =
    generate_environment-IsSafe sample_gen 2 6 "Neutral" true lake_sizes lake start (λ i us. refl)
      lake-IsSafe refl lake-Pooled (omega arith)

-- A pool that takes a whole world of four tiles.
abbrev dry_land : List ℕ
dry_land = 0 ∷ 0 ∷ 0 ∷ 0 ∷ []

abbrev pool : List ℕ
pool = 96 ∷ 96 ∷ 96 ∷ 96 ∷ []

abbrev pool_sizes : Dict ℕ ℕ
pool_sizes = (1, 4) ∷ (3, 4) ∷ (2, 4) ∷ (0, 4) ∷ []

pool_made :
    generate_world_waters sample_gen.env 3 2 30 ((pos 0, pos 0) ∷ []) dry_land []
    ≡ some (some (pool, pool_sizes))
unfolding generate_world_waters generate_water_area flood flood_round visit scan compare_height
    visited_before height fill record_sizes water_height put tile_index ◌+ℤ◌ ◌-ℤ◌ ◌*ℤ◌
pool_made = refl
