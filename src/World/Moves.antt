-- ===== src/World/Moves.antt =====
-- Moves and the things on tiles: src/game/objects/actions/MovementActions.cpp.
use proj8315server.Base.{
  ℕ, zero, suc, ◌+◌, ◌<◌, ◌≡◌, ◌≢◌, refl, sym, ap, ◌∙◌, inl, inr, Bool, true, false, some, List, [],
  ◌∷◌, length, get_elem?, set, length-set, get_elem?-set_self, get_elem?-set_ne, get_elem?-some,
  lt→ltb, ◌==◌, ==_iff, Bool-cases, Option-cases, ℤ, pos, if◌then◌else◌, arith,
}
use proj8315server.World.{Env, Obj, World, area, tile_index, checked, set_pos, set_state, float_one}
use proj8315server.World.Loops.{Returns, Returns-some}
use proj8315server.World.Actions.{
  Outcome, move_action, move_to, validate_move, finish_move, continue_action, fail_action, shift,
}
use proj8315server.World.Safety.{InWorld, IsReady, checked-some, move_speed-some}

-- What the server relies on of Tile.h: which operations keep the thing of a tile.
pub record ThingLaws (E : Env) : Type 0 where
  pub taken : (a b : ℕ) → E.thingid (E.transfer a b).0 ≡ 0
  pub given : (a b : ℕ) → E.thingid (E.transfer a b).1 ≡ E.thingid a
  pub acting : (t v : ℕ) → E.thingid (E.set_action t v) ≡ E.thingid t
  pub facing : (t v : ℕ) → E.thingid (E.set_facingdir t v) ≡ E.thingid t

-- The tiles that hold a thing.
abbrev pub weight : Env → ℕ → ℕ
weight E t = if E.thingid t == 0 then 0 else 1

abbrev pub occupied : Env → List ℕ → ℕ
occupied E [] = 0
occupied E (t ∷ ts) = weight E t + occupied E ts

weight-eq : (E : Env) (a b : ℕ) → E.thingid a ≡ E.thingid b → weight E a ≡ weight E b
weight-eq E a b h = ap {B = ℕ} (λ (n : ℕ). if n == 0 then 0 else 1) h

weight-free : (E : Env) (t : ℕ) → E.thingid t ≡ 0 → weight E t ≡ 0
weight-free E t h = rw h

occupied-set :
    (E : Env) (ts : List ℕ) (i t v : ℕ)
    → get_elem? ts i ≡ some t
    → occupied E (set ts i v) + weight E t ≡ occupied E ts + weight E v
occupied-set E [] i t v e = cc
occupied-set E (x ∷ ts) zero t v e = let same : x ≡ t = ground arith in rw same (omega arith)
occupied-set E (x ∷ ts) (suc i) t v e = omega (arith, occupied-set E ts i t v e)

-- A move to a tile of the world looks at the thing of that tile.
pub validate_read :
    (E : Env) (g : World) (x z : ℤ) (j to : ℕ)
    → tile_index g.world_width x z ≡ pos j
    → j < area g
    → get_elem? g.tiles j ≡ some to
    → validate_move E g x z (pos 1) ≡ some (E.thingid to == 0)
unfolding validate_move
validate_read E g x z j to e lt found = rw (e, lt→ltb j (area g) lt, found)

module _ (E : Env) (laws : ThingLaws E) (o : Obj) (g : World) (ready : IsReady g)
    (placed : InWorld g.world_width o.x o.z) where
  abbrev Even : Outcome → Type 0
  Even r = occupied E r.world.tiles ≡ occupied E g.tiles

  own : (t : ℕ) × (get_elem? g.tiles placed.0 ≡ some t)
  own = get_elem?-some g.tiles placed.0 (rw ready.size placed.2)

  continue_action-Even : (dir act : ℕ) → Returns Even (continue_action E dir act o g)
  unfolding continue_action set_state
  continue_action-Even dir act =
      let t = own.0 in
      let t' = E.set_facingdir (E.set_action t act) dir in
      let same : E.thingid t' ≡ E.thingid t = laws.facing _ dir ∙ laws.acting t act in
      let counted = occupied-set E g.tiles placed.0 t t' own.1 in
      rw
        (
          placed.1,
          own.1,
          (move_speed-some E o g ready placed (E.thingid t)).1,
          lt→ltb placed.0 (length g.tiles) (rw ready.size placed.2),
        )
        (omega (arith, counted, weight-eq E t' t same))

  finish_move-Even :
      (x z : ℤ) (j to : ℕ)
      → tile_index g.world_width x z ≡ pos j
      → j < area g
      → get_elem? g.tiles j ≡ some to
      → E.thingid to ≡ 0
      → Returns Even (finish_move E x z o g)
  unfolding finish_move set_pos
  finish_move-Even x z j to e lt found free =
      let i = placed.0 in
      let from = own.0 in
      let moved = E.transfer from to in
      let here : i < length g.tiles = rw ready.size placed.2 in
      let there : j < length (set g.tiles i moved.0) =
        rw (length-set g.tiles i moved.0, ready.size) lt in
      rw (placed.1, own.1, e, found, lt→ltb i (length g.tiles) here, lt→ltb j _ there)
        (elim (Bool-cases (i == j)) [
          | inl same ↦ overlap ((==_iff i j).0 same)
          | inr other ↦
              let apart : i ≢ j = ground arith in
              omega (
                arith,
                occupied-set E g.tiles i from moved.0 own.1,
                occupied-set E (set g.tiles i moved.0) j to moved.1
                    (get_elem?-set_ne g.tiles i j moved.0 apart ∙ found),
                weight-free E to free,
                weight-free E moved.0 (laws.taken from to),
                weight-eq E moved.1 from (laws.given from to),
              )
        ])
    where
      overlap :
          placed.0 ≡ j
          → occupied E
              (set (set g.tiles placed.0 (E.transfer own.0 to).0) j (E.transfer own.0 to).1)
            ≡ occupied E g.tiles
      overlap same =
          let moved = E.transfer own.0 to in
          let here : placed.0 < length g.tiles = rw ready.size placed.2 in
          let back : get_elem? (set g.tiles placed.0 moved.0) j ≡ some moved.0 =
            rw (← same) (get_elem?-set_self g.tiles placed.0 moved.0 here) in
          let alike : some own.0 ≡ some to = sym own.1 ∙ rw (← same) at found in
          let eq : own.0 ≡ to = cc in
          let bare : E.thingid own.0 ≡ 0 = ap E.thingid eq ∙ free in
          omega (
            arith,
            occupied-set E g.tiles placed.0 own.0 moved.0 own.1,
            occupied-set E (set g.tiles placed.0 moved.0) j moved.0 moved.1 back,
            weight-free E own.0 bare,
            weight-eq E moved.1 own.0 (laws.given own.0 to),
          )

  move_to-Even : (dir : ℕ) (x z : ℤ) → Returns Even (move_to E dir (x, z) o g)
  unfolding move_to
  move_to-Even dir x z = elim (Option-cases (checked (area g) (tile_index g.world_width x z))) [
    | inl e ↦ rw (e, move_to) refl
    | inr (j, e) ↦
        let at = checked-some (area g) (tile_index g.world_width x z) j e in
        let to = get_elem?-some g.tiles j (rw ready.size at.1) in
        rw (e, validate_read E g x z j to.0 at.0 at.1 to.1, move_to)
          (tried (E.thingid to.0 == 0) j to.0 refl at.0 at.1 to.1)
  ]
    where
      tried :
          (b : Bool) (j to : ℕ)
          → (E.thingid to == 0) ≡ b
          → tile_index g.world_width x z ≡ pos j
          → j < area g
          → get_elem? g.tiles j ≡ some to
          → Returns Even (
              if b
              then (if E.float_ge o.action_progress float_one
                  then finish_move E x z o g
                  else continue_action E dir E.action_move o g)
              else fail_action o g)
      tried false j to f at lt found = refl
      tried true j to f at lt found = elim (Bool-cases (E.float_ge o.action_progress float_one)) [
        | inl p ↦ rw p (finish_move-Even x z j to at lt found ((==_iff (E.thingid to) 0).0 f))
        | inr p ↦ rw p (continue_action-Even dir E.action_move)
      ]

-- Where the functions of Tile.h keep the things of tiles as `ThingLaws` says, in a world whose
-- arrays have their sizes, a move of an object that stands in it, in any direction, ends without a fault and keeps the number of tiles that hold a thing, whether it
-- starts, goes on, arrives or fails.
pub move_action-Even :
    (E : Env) (dir : ℕ) (o : Obj) (g : World)
    → ThingLaws E
    → IsReady g
    → InWorld g.world_width o.x o.z
    → (r : Outcome) × (move_action E dir o g ≡ some r)
      × (occupied E r.world.tiles ≡ occupied E g.tiles)
unfolding move_action
move_action-Even E dir o g laws ready placed =
    let step = shift E dir (o.x, o.z) in
    Returns-some _ (move_to E dir step o g) (move_to-Even E laws o g ready placed dir step.0 step.1)
