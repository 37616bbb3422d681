-- ===== src/World/Edges.antt =====
-- The linear tile index at the edges of the world: src/game/Game.h, validCoords, and the place of an
-- idle object: src/game/objects/actions/CommonActions.cpp.
use native.Mathlib.Nat.{mul-lt-mul_of_pos_right}
use proj8315server.Base.{
  ℕ, ◌+◌, ◌*◌, ◌<◌, ◌≡◌, refl, true, some, length, get_elem?, get_elem?-some, set,
  get_elem?-set_self, lt→ltb, pos, +ℤ_pos, *ℤ_pos, arith,
}
use proj8315server.World.{Env, Obj, World, tile_index, valid_coords, get_tile_state, set_pos, load}
use proj8315server.World.Actions.{Outcome, success, idle_action}
use proj8315server.World.Safety.{InWorld, IsReady}

-- The coordinates one past the last column of a row, but the last, are valid: they stand for the
-- first tile of the next row, and reading either gives the same tile.
valid_coords-edge :
    (g : World) (z : ℕ)
    → 0 < g.world_width
    → z + 1 < g.world_width
    → (valid_coords g (pos g.world_width) (pos z) ≡ true)
      × (get_tile_state g (pos g.world_width) (pos z) ≡ get_tile_state g (pos 0) (pos (z + 1)))
unfolding valid_coords get_tile_state tile_index
valid_coords-edge g z wide below =
    let w = g.world_width in
    let same : w + z * w ≡ 0 + (z + 1) * w = omega (arith, distr z w) in
    let inside : 0 + (z + 1) * w < w * w = omega (arith, mul-lt-mul_of_pos_right below wide) in
    rw
      (
        *ℤ_pos z w,
        +ℤ_pos w (z * w),
        *ℤ_pos (z + 1) w,
        +ℤ_pos 0 ((z + 1) * w),
        same,
        valid_coords,
        load,
        get_tile_state,
        lt→ltb (0 + (z + 1) * w) (w * w) inside,
      )
      (refl, refl)
  where
    distr : (a b : ℕ) → (a + 1) * b ≡ a * b + b
    distr a b = grind arith

-- In a world whose arrays have their sizes, an idle object that stands in it ends at the place
-- (0, 0) without a fault, and its state is then that of the tile it stood on.
idle_action-origin :
    (E : Env) (o : Obj) (g : World)
    → IsReady g
    → InWorld g.world_width o.x o.z
    → (r : Outcome) × (i : ℕ) × (idle_action E o g ≡ some r)
      × (r.obj.x ≡ pos 0)
      × (r.obj.z ≡ pos 0)
      × (tile_index g.world_width o.x o.z ≡ pos i)
      × (get_elem? r.world.tiles i ≡ some r.obj.state)
unfolding idle_action set_pos
idle_action-origin E o g ready placed =
    let here : placed.0 < length g.tiles = rw ready.size placed.2 in
    let own = get_elem?-some g.tiles placed.0 here in
    let tile = E.set_action own.0 0 in
    let r : Outcome = record {
      status = success;
      obj = set_pos o (pos 0) (pos 0) tile;
      world = record g { tiles = set g.tiles placed.0 tile };
    } in
    (
      r,
      placed.0,
      rw (placed.1, own.1, idle_action, lt→ltb placed.0 (length g.tiles) here) refl,
      refl,
      refl,
      placed.1,
      get_elem?-set_self g.tiles placed.0 tile here,
    )
