-- ===== src/World/Spawn.antt =====
-- `ObjectManager`'s spawning and access (src/game/objects/ObjectManager.cpp).
use proj8315server.Base.{
  ℕ, Bool, true, false, Option, none, some, [], ◌∷◌, ◌++◌, get_elem?, ◌==◌, ℤ, pos, bit_or,
  if◌then◌else◌, ◌>>=◌, String,
}
use proj8315server.World.{
  Env, Obj, World, area, tile_index, index_fits, checked, new_obj, get_tile_state_at,
  set_tile_state_at, get_obj_info_named,
}

abbrev pub add_object : World → Obj → World
add_object g o = record g { objects = g.objects ++ o ∷ [] }

module _ (E : Env) where
  -- The new object and the new state of its tile.
  unfoldable pub occupy : World → ℤ → ℤ → ℕ → String → Option (World × Bool)
  occupy g x z state faction =
      set_tile_state_at (add_object g (new_obj E x z state faction)) (tile_index g.world_width x z)
        state
      >>= λ g'. some (g', true)

  -- The branch on a tile that is in the world: its state decides.
  unfoldable pub place_object : World → ℤ → ℤ → ℕ → String → Option (World × Bool)
  place_object g x z initial faction = do
    let index = tile_index g.world_width x z
    original ← get_tile_state_at g index
    if E.thingid original == 0
        then occupy g x z (bit_or original initial) faction
        else some (g, false)

  -- The index is that of coordinates for which no `int` overflows: `spawn_object`, through which those
  -- of a client come, checks it, and the generators and the constructor name places on the map.
  unfoldable pub spawn_object_raw : World → ℤ → ℤ → ℕ → String → Option (World × Bool)
  spawn_object_raw g x z initial faction = elim (checked (area g) (tile_index g.world_width x z)) [
    | none ↦ some (g, false)
    | some _ ↦ place_object g x z initial faction
  ]

  -- By type: type 0 is refused, and any other is looked up with no check of its range. The
  -- coordinates may come from a client: where the index of their tile overflows, it is a fault.
  unfoldable pub spawn_object : World → ℤ → ℤ → ℕ → String → Option (World × Bool)
  spawn_object g x z lib_index faction =
      if lib_index == 0
      then some (g, false)
      else (get_elem? g.object_info lib_index >>= λ info.
          if index_fits g.world_width x z
          then spawn_object_raw g x z info.initial_state faction
          else none)

  -- By name, for the constructor's places, which are on the map: an initial state of 0 means that there is no such object.
  unfoldable pub spawn_object_named : World → ℤ → ℤ → String → String → Option (World × Bool)
  spawn_object_named g x z name faction = get_obj_info_named g name >>= λ info.
      if info.initial_state == 0
      then some (g, false)
      else spawn_object_raw g x z info.initial_state faction

unfoldable pub access_object : World → ℤ → Option Obj
access_object g (pos i) = get_elem? g.objects i
access_object g _ = none
