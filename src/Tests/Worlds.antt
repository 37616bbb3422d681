-- ===== src/Tests/Worlds.antt =====
-- The theorems on the world at the sample world.
use proj8315server.Base.{
  Dict, List, ℕ, ◌≡◌, refl, none, some, [], ◌∷◌, length, pos, ◌+ℤ◌, ◌*ℤ◌, ◌-ℤ◌, negsuc, replicate,
  ◌++◌, Bool, arith,
}
use proj8315server.World.{World, tile_index, index_fits}
use proj8315server.World.Actions.{Outcome, move_action}
use proj8315server.World.Update.{game_frame}
use proj8315server.World.Spawn.{spawn_object}
use proj8315server.World.Terrain.{set_tile_area}
use proj8315server.World.Safety.{InWorld, IsReady}
use proj8315server.World.Frames.{IsSafe, game_frame-IsSafe}
use proj8315server.World.Spawning.{spawn_object-IsSafe}
use proj8315server.World.Moves.{ThingLaws, occupied, move_action-Even}
use proj8315server.World.Areas.{set_tile_area-IsSafe}
use proj8315server.World.Snapshot.{get_world_state}
use proj8315server.World.Observing.{rows, get_world_state_lem, get_world_state-overflow}
use proj8315server.Water.{
  height, flood, flood_round, visit, scan, compare_height, visited_before, generate_water_area,
  generate_world_waters,
}
use proj8315server.Water.Pools.{generate_world_waters-ends}
use proj8315server.Water.Flood.{Settled, generate_water_area-Settled}
use proj8315server.Tests.Samples.{sample_env, sample_world, sample_obj}

sample-IsReady : IsReady sample_world
sample-IsReady = record {
  size = refl;
  wide = omega arith;
  typed = omega arith;
  speeds = (omega arith, (omega arith, tt));
}

sample-place : InWorld 2 (pos 1) (pos 0)
unfolding tile_index ◌+ℤ◌ ◌*ℤ◌
sample-place = (1, refl, omega arith)

pub sample-IsSafe : IsSafe sample_world
sample-IsSafe = record {
  ready = sample-IsReady;
  placed = (record { place = sample-place; orders = (omega arith, tt) }, tt);
}

sample-laws : ThingLaws sample_env
sample-laws = record {
  taken = λ a b. omega arith;
  given = λ a b. omega arith;
  acting = λ t v. omega arith;
  facing = λ t v. omega arith;
}

game_frame-IsSafe_example :
    (h : World) × (game_frame sample_env (λ _. 3) 7 sample_world ≡ some h)
    × IsSafe h
    × (length h.objects ≡ 1)
game_frame-IsSafe_example =
    game_frame-IsSafe sample_env (λ _. 3) 7 sample_world (omega arith) sample-IsSafe

move_action-Even_example :
    (r : Outcome) × (move_action sample_env 4 sample_obj sample_world ≡ some r)
    × (occupied sample_env r.world.tiles ≡ 1)
move_action-Even_example =
    move_action-Even sample_env 4 sample_obj sample_world sample-laws sample-IsReady sample-place

spawn_object-IsSafe_example :
    (h : World) × (b : Bool) × (spawn_object sample_env sample_world (pos 0) (pos 1) 1 "Neutral"
      ≡ some (h, b))
    × IsSafe h
unfolding index_fits tile_index ◌+ℤ◌ ◌*ℤ◌
spawn_object-IsSafe_example =
    spawn_object-IsSafe sample_env sample_world (pos 0) (pos 1) 1 "Neutral" sample-IsSafe
      (omega arith) refl

set_tile_area-IsSafe_example :
    (h : World) × (set_tile_area sample_env sample_world 1 (pos 0) (pos 0) 3 0 0 ≡ some h)
    × IsSafe h
    × (h.objects ≡ sample_obj ∷ [])
    × (h.object_info ≡ sample_world.object_info)
set_tile_area-IsSafe_example =
    set_tile_area-IsSafe sample_env sample_world 1 (pos 0) (pos 0) 3 0 0 sample-IsSafe (omega arith)
      (omega arith) (omega arith)

get_world_state_lem_example :
    get_world_state 10 sample_world (pos 1) (pos 0) (pos 1)
    ≡ some (record {
      center_x = pos 1;
      center_z = pos 0;
      observed = rows sample_world (pos 0) (negsuc 0) 3 3 ++ replicate 1 0;
    })
unfolding ◌+ℤ◌ ◌-ℤ◌
get_world_state_lem_example = get_world_state_lem sample_world 10 1 1 (pos 1) (pos 0) refl refl

-- The tiles that this observer is sent.
rows_example : rows sample_world (pos 0) (negsuc 0) 3 3 ≡ 0 ∷ 0 ∷ 0 ∷ 0 ∷ 4 ∷ 0 ∷ 0 ∷ 0 ∷ 0 ∷ []
unfolding tile_index ◌+ℤ◌ ◌*ℤ◌
rows_example = refl

get_world_state-overflow_example : get_world_state 0 sample_world (pos 1) (pos 1) (pos 0) ≡ none
get_world_state-overflow_example =
    get_world_state-overflow sample_world 0 0 1 1 refl (omega arith) (omega arith) (omega arith)

generate_water_area-Settled_example :
    Settled sample_env 2 sample_world.tiles refl 0
      (generate_water_area sample_env 2 sample_world.tiles 30 (pos 1, pos 1) none)
unfolding height tile_index ◌+ℤ◌ ◌*ℤ◌
generate_water_area-Settled_example =
    generate_water_area-Settled sample_env 2 30 0 sample_world.tiles (pos 1, pos 1) none refl refl
      refl (omega arith)

generate_world_waters-ends_example :
    (ts' : List ℕ) × (sizes' : Dict ℕ ℕ) × (generate_world_waters sample_env 7 2 6000
        ((pos 1, pos 1) ∷ [])
        sample_world.tiles
        []
      ≡ some (some (ts', sizes')))
    × (length ts' ≡ 4)
generate_world_waters-ends_example =
    generate_world_waters-ends sample_env 7 2 6000 ((pos 1, pos 1) ∷ []) sample_world.tiles []
      (λ t. omega arith) (refl, tt) refl (omega arith)

-- A pool of the four level tiles of a map of two by two, without a level.
four_tiles_example :
    generate_water_area sample_env 2 (0 ∷ 0 ∷ 0 ∷ 0 ∷ []) 30 (pos 0, pos 0) none
    ≡ some (some (record { stack = []; visited = 1 ∷ 3 ∷ 2 ∷ 0 ∷ []; level = none }))
unfolding generate_water_area flood flood_round visit scan compare_height visited_before height
    tile_index ◌+ℤ◌ ◌-ℤ◌ ◌*ℤ◌
four_tiles_example = refl
