-- ===== src/World/Actions.antt =====
-- The actions of objects: src/game/objects/Action.h and src/game/objects/actions/. A fault, `none`,
-- is an access outside an array.
use proj8315server.Base.{
  ℕ, ◌+◌, ◌-◌, Bool, true, false, ◌&&◌, ◌||◌, Option, none, some, List, [], ◌∷◌, get_elem?, ◌==◌,
  leb, ℤ, pos, negsuc, ◌+ℤ◌, ◌-ℤ◌, eq_ℤ, if◌then◌else◌, ◌>>=◌,
}
use proj8315server.World.{
  Env, Obj, World, dir_n, dir_ne, dir_e, dir_se, dir_s, dir_sw, dir_w, dir_nw, area, tile_index,
  checked, load, store, read_tile, write_tile, get_obj_info, set_pos, set_state, float_zero,
  float_half, float_one,
}
use proj8315server.World.Loops.{for_range}
use proj8315server.World.Spawn.{spawn_object}

-- ACTION_STATUS_PENDING, ACTION_STATUS_SUCCESS and ACTION_STATUS_FAILURE.
pub data Status : Type 0 where
  pending success failure : Status

-- What a run yields: its status, the object that acted, and the world.
pub record Outcome : Type 0 where
  pub status : Status
  pub obj : Obj
  pub world : World

abbrev pub Run : Type 0
Run = Obj → World → Option Outcome

abbrev pub fail_action : Run
fail_action o g =
    some (record { status = failure; obj = record o { action_progress = float_zero }; world = g })

-- `radius > 1`, and the rounds of a loop from z - radius up to z + radius, the end left out.
above_one : ℤ → Bool
above_one (pos r) = leb 2 r
above_one (negsuc r) = false

scan_rounds : ℤ → ℕ
scan_rounds (pos r) = r + r
scan_rounds (negsuc r) = 0

-- The places of a dug square that keep their ground.
unfoldable pub spared : Obj → ℤ → ℤ → Bool
spared o x y =
    eq_ℤ x o.x && eq_ℤ y o.z
    || eq_ℤ x (o.x +ℤ pos 2) && eq_ℤ y (o.z +ℤ pos 2)
    || eq_ℤ x (o.x +ℤ pos 2) && eq_ℤ y o.z
    || eq_ℤ x o.x && eq_ℤ y (o.z +ℤ pos 2)

module _ (E : Env) where
  unfoldable pub idle_action : Run
  idle_action o g = do
    let index = tile_index g.world_width o.x o.z
    tile ← read_tile g index
    let tile' = E.set_action tile 0
    g' ← write_tile g index tile'
    some (record { status = success; obj = set_pos o (pos 0) (pos 0) tile'; world = g' })

  is_free : World → ℤ → Option Bool
  is_free g index = read_tile g index >>= λ t. some (E.thingid t == 0)

  -- The scan of a radius above 1. Both loops run over z.
  area_is_free : World → ℤ → ℤ → Option Bool
  area_is_free g z radius =
      let first = z -ℤ radius in
      for_range first (scan_rounds radius)
        (λ j clear.
          for_range first (scan_rounds radius)
            (λ i still. elim (checked (area g) (tile_index g.world_width i j)) [
              | none ↦ some still
              | some k ↦ is_free g (pos k) >>= λ f. some (still && f)
            ])
            clear)
        true

  unfoldable pub validate_move : World → ℤ → ℤ → ℤ → Option Bool
  unfolding is_free area_is_free above_one scan_rounds
  validate_move g x z radius =
      if above_one radius
      then area_is_free g z radius
      else elim (checked (area g) (tile_index g.world_width x z)) [
        | none ↦ some false
        | some i ↦ is_free g (pos i)
      ]

  -- `_statFloatMapping["speed"]`.
  abbrev pub speed_mapping : List ℕ
  speed_mapping = float_zero ∷ float_half ∷ float_one ∷ []

  unfoldable pub move_speed : World → ℕ → Option ℕ
  move_speed g obj_type =
      get_obj_info g (pos obj_type) >>= λ info. get_elem? speed_mapping info.speed

  -- The step of a direction: the `switch` on `_dir`, which leaves the place for any other value.
  unfoldable pub shift : ℕ → ℤ × ℤ → ℤ × ℤ
  shift dir (x, z) =
      if dir == E.dir_macro dir_n
      then (x, z -ℤ pos 1)
      else if dir == E.dir_macro dir_ne
      then (x +ℤ pos 1, z -ℤ pos 1)
      else if dir == E.dir_macro dir_e
      then (x +ℤ pos 1, z)
      else if dir == E.dir_macro dir_se
      then (x +ℤ pos 1, z +ℤ pos 1)
      else if dir == E.dir_macro dir_s
      then (x, z +ℤ pos 1)
      else if dir == E.dir_macro dir_sw
      then (x -ℤ pos 1, z +ℤ pos 1)
      else if dir == E.dir_macro dir_w
      then (x -ℤ pos 1, z)
      else if dir == E.dir_macro dir_nw
      then (x -ℤ pos 1, z -ℤ pos 1)
      else (x, z)

  -- The progress that a pending action has made after this frame.
  unfoldable pub advance : World → Obj → ℕ → ℕ
  advance g o speed = E.float_add o.action_progress (E.float_mul speed g.delta_time)

  -- The step to a free tile, once the progress has reached 1.
  unfoldable pub finish_move : ℤ → ℤ → Run
  finish_move x z o g = do
    let start = tile_index g.world_width o.x o.z
    let destination = tile_index g.world_width x z
    from ← read_tile g start
    to ← read_tile g destination
    let (from', to') = E.transfer from to
    g' ← write_tile g start from'
    g'' ← write_tile g' destination to'
    let o' = record o { action_progress = float_zero }
    some (record { status = success; obj = set_pos o' x z to'; world = g'' })

  -- A frame of a move, or of a vertical move, that is still under way.
  unfoldable pub continue_action : ℕ → ℕ → Run
  continue_action dir act o g = do
    let index = tile_index g.world_width o.x o.z
    tile ← read_tile g index
    speed ← move_speed g (E.thingid tile)
    let tile' = E.set_facingdir (E.set_action tile act) dir
    g' ← write_tile g index tile'
    let o' = record (set_state E o tile') { action_progress = advance g o speed }
    some (record { status = pending; obj = o'; world = g' })

  -- The attempt to step to a place.
  unfoldable pub move_to : ℕ → ℤ × ℤ → Run
  move_to dir (x, z) o g = elim (checked (area g) (tile_index g.world_width x z)) [
    | none ↦ fail_action o g
    | some _ ↦ validate_move g x z (pos 1) >>= λ free.
        if free
        then (if E.float_ge o.action_progress float_one
            then finish_move x z o g
            else continue_action dir E.action_move o g)
        else fail_action o g
  ]

  unfoldable pub move_action : ℕ → Run
  move_action dir o g = move_to dir (shift dir (o.x, o.z)) o g

  -- One tile of the ground below a descent: lower by one, and dirt.
  unfoldable pub dig_tile : ℕ → List ℕ → Option (List ℕ)
  dig_tile i ts = do
    tile ← load ts (pos i)
    let elevation = E.terrelevation tile
    let lower = if leb 1 elevation then E.set_terrelevation tile (elevation - 1) else tile
    store ts (pos i) (E.set_terrtype lower 0)

  unfoldable pub dig : World → Obj → ℤ → ℤ → List ℕ → Option (List ℕ)
  dig g o y x ts = elim (checked (area g - 1) (tile_index g.world_width x y)) [
    | none ↦ some ts
    | some i ↦ if spared o x y then some ts else dig_tile i ts
  ]

  unfoldable pub dig_area : World → Obj → Option (List ℕ)
  dig_area g o = for_range (o.z -ℤ pos 2) 5 (λ y. for_range (o.x -ℤ pos 2) 5 (dig g o y)) g.tiles

  -- The end of a vertical move: the ground is dug, and the object's tile made idle.
  unfoldable pub land_on : ℕ → Obj → World → List ℕ → Option Outcome
  land_on obj_type o g dug = do
    let index = tile_index g.world_width o.x o.z
    ground ← load dug index
    let tile' = E.set_thingid (E.set_action ground 0) obj_type
    dug' ← store dug index tile'
    let o' = record (set_state E o tile') { action_progress = float_zero }
    some (record { status = success; obj = o'; world = record g { tiles = dug' } })

  unfoldable pub land : ℕ → Run
  land obj_type o g = dig_area g o >>= land_on obj_type o g

  unfoldable pub move_vertical_action : ℕ → Run
  move_vertical_action dir o g = do
    let index = tile_index g.world_width o.x o.z
    tile ← read_tile g index
    let obj_type = E.thingid tile
    if E.float_ge o.action_progress float_one
        then land obj_type o g
        else continue_action dir E.action_move_vertical o g

  -- A spawn around the ship, over the square of radius 2; the slot of the deployments stays 0.
  unfoldable pub deploy_at : Obj → ℤ → ℤ → World → Option World
  deploy_at o y x g = do
    let type_id = (E.faction o.faction_ref).deployment 0
    if type_id == 0 then some g else (spawn_object E g x y type_id o.faction_ref >>= λ r. some r.0)

  unfoldable pub run_ship_deploy : Run
  run_ship_deploy o g =
      if (E.faction o.faction_ref).is_null
      then some (record { status = failure; obj = o; world = g })
      else (do
        g' ← for_range (o.z -ℤ pos 2) 5 (λ y. for_range (o.x -ℤ pos 2) 5 (deploy_at o y)) g
        some (record { status = success; obj = o; world = g' }))

  unfoldable pub class_action0 : Run
  class_action0 o g =
      if o.obj_type == 3
      then run_ship_deploy o g
      else some (record { status = failure; obj = o; world = g })
