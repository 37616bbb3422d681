-- ===== src/World/Safety.antt =====
-- Accesses to arrays by the actions of a frame: src/game/objects/actions/.
use proj8315server.Base.{
  ℕ, ◌-◌, ◌*◌, ◌<◌, ◌≡◌, refl, sym, ap, ◌∙◌, inl, inr, Bool, true, false, some, List, length,
  get_elem?, set, length-set, get_elem?-some, All, All-get_elem?, lt→ltb, Bool-cases, Option-cases,
  ◌==◌, if◌then◌else◌, ℤ, pos, negsuc, *ℤ_pos, +ℤ_pos, arith,
}
use proj8315server.World.{
  Env, Obj, ObjectInfo, World, area, tile_index, checked, get_obj_info, set_pos, set_state,
  float_one,
}
use proj8315server.World.Loops.{for_range-Returns, Returns, Returns->>=}
use proj8315server.World.Actions.{
  Outcome, land_on, idle_action, move_action, move_vertical_action, validate_move, move_speed,
  finish_move, move_to, dig_tile, spared, continue_action, speed_mapping, land, dig, dig_area,
  shift, fail_action,
}

-- The place of an object has a tile.
abbrev pub InWorld : ℕ → ℤ → ℤ → Type 0
InWorld w x z = (i : ℕ) × (tile_index w x z ≡ pos i) × (i < w * w)

-- What an action other than `ClassAction0` leaves alone.
pub record SameFrame (g h : World) : Type 0 where
  pub width : h.world_width ≡ g.world_width
  pub types : h.object_info ≡ g.object_info
  pub objs : h.objects ≡ g.objects
  pub size : length h.tiles ≡ length g.tiles

pub record IsReady (g : World) : Type 0 where
  pub size : length g.tiles ≡ area g
  pub wide : 0 < g.world_width
  pub typed : 0 < length g.object_info
  pub speeds : All (λ i. i.speed < 3) g.object_info

pub record Acted (o : Obj) (g : World) (r : Outcome) : Type 0 where
  pub frame : SameFrame g r.world
  pub place : InWorld g.world_width r.obj.x r.obj.z
  pub queue : r.obj.action_queue ≡ o.action_queue

pub checked-some : (n : ℕ) (k : ℤ) (i : ℕ) → checked n k ≡ some i → (k ≡ pos i) × (i < n)
checked-some n (pos j) i e = ground arith
checked-some n (negsuc j) i e = cc

origin-InWorld : (w : ℕ) → 0 < w → InWorld w (pos 0) (pos 0)
unfolding tile_index
origin-InWorld w h =
    (0, rw (*ℤ_pos 0 w) (rw (+ℤ_pos 0 (0 * w)) (ap pos (omega arith))), grind arith)

module _ (E : Env) (o : Obj) (g : World) (ready : IsReady g)
    (placed : InWorld g.world_width o.x o.z) where
  here : placed.0 < length g.tiles
  here = rw ready.size placed.2

  own : (t : ℕ) × (get_elem? g.tiles placed.0 ≡ some t)
  own = get_elem?-some g.tiles placed.0 here

  pub idle_action-Acted : Returns (Acted o g) (idle_action E o g)
  unfolding idle_action set_pos
  idle_action-Acted =
      rw (placed.1, own.1, lt→ltb _ _ here)
        (record {
          frame = record {
            width = refl;
            types = refl;
            objs = refl;
            size = length-set g.tiles placed.0 _;
          };
          place = origin-InWorld g.world_width ready.wide;
          queue = refl;
        })

  slow_type :
      (i : ℕ)
      → i < length g.object_info
      → (t : ObjectInfo) × (get_elem? g.object_info i ≡ some t) × (t.speed < 3)
  slow_type i h =
      let t = get_elem?-some g.object_info i h in
      (t.0, t.1, All-get_elem? (λ u. u.speed < 3) g.object_info i t.0 ready.speeds t.1)

  get_obj_info-some : (k : ℤ) → (t : ObjectInfo) × (get_obj_info g k ≡ some t) × (t.speed < 3)
  unfolding get_obj_info
  get_obj_info-some k = elim (Option-cases (checked (length g.object_info) k)) [
    | inl e ↦ rw (e, get_obj_info) (slow_type 0 ready.typed)
    | inr (i, e) ↦ rw (e, get_obj_info) (slow_type i (checked-some _ k i e).1)
  ]

  pub move_speed-some : (t : ℕ) → (v : ℕ) × (move_speed E g t ≡ some v)
  unfolding move_speed
  move_speed-some t =
      let i = get_obj_info-some (pos t) in
      let v = get_elem?-some (speed_mapping E) i.0.speed i.2 in (v.0, rw i.1 v.1)

  fail_action-Acted : Returns (Acted o g) (fail_action o g)
  fail_action-Acted = record {
    frame = record { width = refl; types = refl; objs = refl; size = refl };
    place = placed;
    queue = refl;
  }

  continue_action-Acted : (dir act : ℕ) → Returns (Acted o g) (continue_action E dir act o g)
  unfolding continue_action set_state
  continue_action-Acted dir act =
      rw (placed.1, own.1, (move_speed-some (E.thingid own.0)).1, lt→ltb _ _ here)
        (record {
          frame = record {
            width = refl;
            types = refl;
            objs = refl;
            size = length-set g.tiles placed.0 _;
          };
          place = placed;
          queue = refl;
        })

  validate_move-some :
      (x z : ℤ) (i : ℕ)
      → tile_index g.world_width x z ≡ pos i
      → i < area g
      → (b : Bool) × (validate_move E g x z (pos 1) ≡ some b)
  unfolding validate_move
  validate_move-some x z i e h =
      let t = get_elem?-some g.tiles i (rw ready.size h) in
      (E.thingid t.0 == 0, rw (e, lt→ltb _ _ h, t.1))

  finish_move-Acted :
      (x z : ℤ) → InWorld g.world_width x z → Returns (Acted o g) (finish_move E x z o g)
  unfolding finish_move set_pos
  finish_move-Acted x z to =
      let there = get_elem?-some g.tiles to.0 (rw ready.size to.2) in
      let moved = E.transfer own.0 there.0 in
      let left = length-set g.tiles placed.0 moved.0 in
      rw
        (
          placed.1,
          own.1,
          to.1,
          there.1,
          lt→ltb _ _ here,
          lt→ltb to.0 (length (set g.tiles placed.0 moved.0)) (rw (left, ready.size) to.2),
        )
        (record {
          frame = record {
            width = refl;
            types = refl;
            objs = refl;
            size = length-set (set g.tiles placed.0 moved.0) to.0 moved.1 ∙ left;
          };
          place = to;
          queue = refl;
        })

  move_to-Acted : (dir : ℕ) (x z : ℤ) → Returns (Acted o g) (move_to E dir (x, z) o g)
  unfolding move_to
  move_to-Acted dir x z = elim (Option-cases (checked (area g) (tile_index g.world_width x z))) [
    | inl e ↦ rw (e, move_to) fail_action-Acted
    | inr (i, e) ↦
        let at = checked-some _ _ i e in
        let free = validate_move-some x z i at.0 at.1 in
        rw (e, free.1, move_to) (decided free.0 (i, at.0, at.1))
  ]
    where
      decided :
          (b : Bool)
          → InWorld g.world_width x z
          → Returns (Acted o g) (
              if b
              then (if E.float_ge o.action_progress float_one
                  then finish_move E x z o g
                  else continue_action E dir E.action_move o g)
              else fail_action o g)
      decided false to = fail_action-Acted
      decided true to = elim (Bool-cases (E.float_ge o.action_progress float_one)) [
        | inl e ↦ rw e (finish_move-Acted x z to)
        | inr e ↦ rw e (continue_action-Acted dir E.action_move)
      ]

  pub move_action-Acted : (dir : ℕ) → Returns (Acted o g) (move_action E dir o g)
  unfolding move_action
  move_action-Acted dir = move_to-Acted dir (shift E dir (o.x, o.z)).0 (shift E dir (o.x, o.z)).1

  -- The ground keeps its size.
  dig_tile-Returns :
      (i : ℕ) (ts : List ℕ)
      → i < length ts
      → length ts ≡ area g
      → Returns (λ us. length us ≡ area g) (dig_tile E i ts)
  unfolding dig_tile
  dig_tile-Returns i ts lt h =
      rw ((get_elem?-some ts i lt).1, lt→ltb _ _ lt) (length-set ts i _ ∙ h)

  dig-Returns :
      (y x : ℤ) (ts : List ℕ)
      → length ts ≡ area g
      → Returns (λ us. length us ≡ area g) (dig E g o y x ts)
  unfolding dig
  dig-Returns y x ts h = elim (Option-cases (checked (area g - 1) (tile_index g.world_width x y))) [
    | inl e ↦ rw (e, dig) h
    | inr (i, e) ↦
        let at = checked-some (area g - 1) (tile_index g.world_width x y) i e in
        elim (Bool-cases (spared o x y)) [
          | inl kept ↦ rw (e, dig, kept) h
          | inr dug ↦ rw (e, dig, dug) (dig_tile-Returns i ts (omega (arith, at.1)) h)
        ]
  ]

  dig_area-Returns : Returns (λ us. length us ≡ area g) (dig_area E g o)
  unfolding dig_area
  dig_area-Returns =
      for_range-Returns (λ us. length us ≡ area g) _
        (λ y ts h.
          for_range-Returns (λ us. length us ≡ area g) _ (λ x us k. dig-Returns y x us k) 5 _ ts h)
        5 _ g.tiles ready.size

  land_on-Acted :
      (obj_type : ℕ) (us : List ℕ)
      → length us ≡ area g
      → Returns (Acted o g) (land_on E obj_type o g us)
  unfolding land_on set_state
  land_on-Acted obj_type us size =
      let lt : placed.0 < length us = rw size placed.2 in
      rw (placed.1, (get_elem?-some us placed.0 lt).1, lt→ltb _ _ lt)
        (record {
          frame = record {
            width = refl;
            types = refl;
            objs = refl;
            size = length-set us placed.0 _ ∙ size ∙ sym ready.size;
          };
          place = placed;
          queue = refl;
        })

  land-Acted : (obj_type : ℕ) → Returns (Acted o g) (land E obj_type o g)
  unfolding land
  land-Acted obj_type =
      Returns->>= (λ us. length us ≡ area g) (Acted o g) (dig_area E g o) (land_on E obj_type o g)
        dig_area-Returns (land_on-Acted obj_type)

  pub move_vertical_action-Acted : (dir : ℕ) → Returns (Acted o g) (move_vertical_action E dir o g)
  unfolding move_vertical_action
  move_vertical_action-Acted dir = elim (Bool-cases (E.float_ge o.action_progress float_one)) [
    | inl e ↦ rw (placed.1, own.1, e) (land-Acted (E.thingid own.0))
    | inr e ↦ rw (placed.1, own.1, e) (continue_action-Acted dir E.action_move_vertical)
  ]
