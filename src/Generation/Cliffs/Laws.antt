-- ===== src/Generation/Cliffs/Laws.antt =====
-- Laws of cliffs: src/game/world/ElevationGenerator.cpp.
use proj8315server.Base.{
  ℕ, ◌+◌, ◌*◌, ◌%◌, ◌<◌, ◌≡◌, refl, ◌∙◌, ◌⊎◌, inl, inr, Bool, true, false, some, List, length,
  get_elem?-some, ◌==◌, leb, lt→ltb, Option-cases, ℤ, pos, ◌-ℤ◌, if◌then◌else◌, ◌>>=◌, Pointwise,
  Pointwise-set, Pointwise-refl, length-Pointwise,
}
use proj8315server.World.{Dir, tile_index, checked}
use proj8315server.World.Loops.{for_range-Returns, Returns, Returns->>=, Returns-some}
use proj8315server.World.Safety.{checked-some}
use proj8315server.Generation.{Gen, Ground, rock, dirt, Random, draw}
use proj8315server.Generation.Grid.{tile_index-inside, grid-Returns}
use proj8315server.Generation.Ramps.{create_ramp}
use proj8315server.Generation.Ramps.Bounds.{create_ramp-Pointwise}
use proj8315server.Generation.Cliffs.{
  Land, paint, paint_both, roll_ramp, cliff_at, cliffs_near, generate_world_cliffs,
}

module _ (G : Gen) (compass : (d : Dir) → G.env.dir_value d < 8) (w : ℕ) (os : List ℕ)
    (size : length os ≡ w * w) (R : ℕ → ℕ → Type 0)
    (raised : (a u h : ℕ) → R a u → R a (G.env.set_terrelevation u h))
    (painted : (g : Ground) (a u : ℕ)
      → (g ≡ rock) ⊎ (g ≡ dirt)
      → R a u
      → R a (G.env.set_terrtype u (G.ground g))) where
  -- The array is related to the one at the beginning.
  abbrev Grown : List ℕ → Type 0
  Grown ts = Pointwise R os ts

  abbrev GrownLand : Land → Type 0
  GrownLand l = Grown l.0

  long : (ts : List ℕ) → Grown ts → length ts ≡ w * w
  long ts h = length-Pointwise R os ts h ∙ size

  paint-Grown :
      (g : Ground) (i : ℕ) (ts : List ℕ)
      → (g ≡ rock) ⊎ (g ≡ dirt)
      → i < w * w
      → Grown ts
      → Returns Grown (paint G g i ts)
  unfolding paint
  paint-Grown g i ts which lt h =
      let inside : i < length ts = rw (long ts h) lt in
      let t = get_elem?-some ts i inside in
      rw (t.1, paint, lt→ltb i (length ts) inside)
        (Pointwise-set R os ts i t.0 _ t.1 (λ a r. painted g a t.0 which r) h)

  paint_both-Grown :
      (g : Ground) (i j : ℕ) (ts : List ℕ)
      → (g ≡ rock) ⊎ (g ≡ dirt)
      → i < w * w
      → j < w * w
      → Grown ts
      → Returns Grown (paint_both G g i j ts)
  unfolding paint_both
  paint_both-Grown g i j ts which lt lt' h =
      Returns->>= Grown Grown (paint G g i ts) _ (paint-Grown g i ts which lt h)
        (λ us k. paint-Grown g j us which lt' k)

  roll_ramp-Grown :
      (i j : ℕ) (x2 y2 : ℤ) (r : Random) (ts : List ℕ)
      → i < w * w
      → j < w * w
      → tile_index w x2 y2 ≡ pos j
      → Grown ts
      → Returns GrownLand (roll_ramp G w i j x2 y2 r ts)
  unfolding roll_ramp
  roll_ramp-Grown i j x2 y2 r ts lt lt' at h = rolled ((draw G r).0 % 20 == 1)
    where
      dice2 : ℕ
      dice2 = (draw G (draw G r).1).0

      r2 : Random
      r2 = (draw G (draw G r).1).1

      rolled :
          (b : Bool)
          → Returns GrownLand (
              if b
              then (create_ramp G.env w x2 y2 (dice2 % 5 + 1) ts >>= λ us.
                  paint_both G dirt i j us >>= λ vs. some (vs, r2))
              else some (ts, r2))
      rolled false = h
      rolled true =
          let t = get_elem?-some ts j (rw (long ts h) lt') in
          Returns->>= Grown GrownLand (create_ramp G.env w x2 y2 (dice2 % 5 + 1) ts) _
            (create_ramp-Pointwise G.env w (dice2 % 5 + 1) x2 y2 os ts j t.0 R compass size at t.1
              (λ a u h' le q. raised a u h' q) h)
            (λ us k.
              Returns->>= Grown GrownLand (paint_both G dirt i j us) _
                (paint_both-Grown dirt i j us (inr refl) lt lt' k) (λ vs g. g))

  cliff_at-Grown :
      (threshold i low : ℕ) (y2 x2 : ℤ) (l : Land)
      → i < w * w
      → GrownLand l
      → Returns GrownLand (cliff_at G w threshold i low y2 x2 l)
  unfolding cliff_at
  cliff_at-Grown threshold i low y2 x2 (ts, r) lt h =
      elim (Option-cases (checked (w * w) (tile_index w x2 y2))) [
        | inl e ↦ rw (e, cliff_at) h
        | inr (j, e) ↦
            let at = checked-some (w * w) (tile_index w x2 y2) j e in
            let t = get_elem?-some ts j (rw (long ts h) at.1) in
            rw (e, t.1, cliff_at)
              (steep j (leb (low + threshold) (G.env.terrelevation t.0)) at.0 at.1)
      ]
    where
      steep :
          (j : ℕ) (b : Bool)
          → tile_index w x2 y2 ≡ pos j
          → j < w * w
          → Returns GrownLand
              (if b then (paint_both G rock i j ts >>= roll_ramp G w i j x2 y2 r) else some (ts, r))
      steep j false at lt' = h
      steep j true at lt' =
          Returns->>= Grown GrownLand (paint_both G rock i j ts) _
            (paint_both-Grown rock i j ts (inl refl) lt lt' h)
            (λ us k. roll_ramp-Grown i j x2 y2 r us lt lt' at k)

  cliffs_near-Grown :
      (threshold y x : ℕ) (l : Land)
      → y < w
      → x < w
      → GrownLand l
      → Returns GrownLand (cliffs_near G w threshold (pos y) (pos x) l)
  unfolding cliffs_near
  cliffs_near-Grown threshold y x (ts, r) below beside h =
      let at = tile_index-inside w x y beside below in
      let t = get_elem?-some ts (x + y * w) (rw (long ts h) at.1) in
      rw (at.0, cliffs_near, t.1)
        (for_range-Returns GrownLand _
          (λ y2 l k.
            for_range-Returns GrownLand _
              (λ x2 m g.
                cliff_at-Grown threshold (x + y * w) (G.env.terrelevation t.0) y2 x2 m at.1 g)
              3 (pos x -ℤ pos 1) l k)
          3 (pos y -ℤ pos 1) (ts, r) h)

  generate_world_cliffs-Grown :
      (threshold : ℕ) (l : Land)
      → GrownLand l
      → Returns GrownLand (generate_world_cliffs G w threshold l)
  unfolding generate_world_cliffs
  generate_world_cliffs-Grown threshold l h =
      grid-Returns GrownLand w (λ y x. cliffs_near G w threshold (pos y) (pos x))
        (λ y x m lt lt' g. cliffs_near-Grown threshold y x m lt lt' g) l h

-- What the generators rely on of Tile.h for the type of the ground.
pub record GroundLaws (G : Gen) : Type 0 where
  pub compass : (d : Dir) → G.env.dir_value d < 8
  pub typed : (u : ℕ) (g : Ground) → G.terrtype (G.env.set_terrtype u (G.ground g)) ≡ G.ground g
  pub raised : (u h : ℕ) → G.terrtype (G.env.set_terrelevation u h) ≡ G.terrtype u

-- The type of a tile after the cliffs are made: that before, rock or dirt.
abbrev pub Weathered : Gen → ℕ → ℕ → Type 0
Weathered G a b =
    (G.terrtype b ≡ G.terrtype a) ⊎ (G.terrtype b ≡ G.ground rock) ⊎ (G.terrtype b ≡ G.ground dirt)

-- Where the functions of Tile.h treat types as `GroundLaws` says and the array has its size, making
-- cliffs with any threshold and any numbers from `std::rand` ends without a fault; the array keeps its size, and each tile
-- of it keeps the type of its ground, or is rock or dirt.
pub generate_world_cliffs-Weathered :
    (G : Gen) (w threshold : ℕ) (ts : List ℕ) (r : Random)
    → GroundLaws G
    → length ts ≡ w * w
    → (l : Land) × (generate_world_cliffs G w threshold (ts, r) ≡ some l)
      × (length l.0 ≡ w * w)
      × Pointwise (Weathered G) ts l.0
generate_world_cliffs-Weathered G w threshold ts r laws size =
    let R = Weathered G in
    let (l, e, h) = Returns-some _ (generate_world_cliffs G w threshold (ts, r)) (
      generate_world_cliffs-Grown G laws.compass w ts size R raised painted threshold (ts, r)
        (Pointwise-refl R (λ a. inl refl) ts)) in
    (l, e, length-Pointwise R ts l.0 h ∙ size, h)
  where
    raised : (a u h : ℕ) → Weathered G a u → Weathered G a (G.env.set_terrelevation u h)
    raised a u h k = rw (laws.raised u h) k

    painted :
        (g : Ground) (a u : ℕ)
        → (g ≡ rock) ⊎ (g ≡ dirt)
        → Weathered G a u
        → Weathered G a (G.env.set_terrtype u (G.ground g))
    painted g a u (inl e) k = rw (laws.typed u g, e) (inr (inl refl))
    painted g a u (inr e) k = rw (laws.typed u g, e) (inr (inr refl))
