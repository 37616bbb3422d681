-- ===== src/Generation/Elevation/Laws.antt =====
-- Laws of the elevation: src/game/world/ElevationGenerator.cpp.
use proj8315server.Base.{
  ℕ, zero, suc, ◌+◌, ◌*◌, ◌%◌, ◌^◌, ◌≤◌, ◌<◌, ◌≡◌, refl, sym, ap, false, some, List, ◌==◌, length,
  get_elem?-some, lt→ltb, arith, Pointwise, Swept, Swept-refl, length-Swept, Swept-set,
  Swept-Pointwise,
}
use proj8315server.World.Loops.{Returns, Returns->>=, Returns-some}
use proj8315server.Generation.{Gen, Random, draw, srand}
use proj8315server.Generation.Grid.{tile_index-inside, grid-Steps}
use proj8315server.Generation.Elevation.{
  generate_perlin2d, draw_seeds, create_heightmap, raise_tile, generate_world_elevation,
  float_twentieth, float_two_fifths,
}
use proj8315server.Generation.Elevation.Perlin.{Full, generate_perlin2d-ends}

draw_seeds-Returns :
    (G : Gen) (max n : ℕ) (r : Random)
    → 0 < max
    → Returns (λ s. length s.0 ≡ n) (draw_seeds G max n r)
unfolding draw_seeds
draw_seeds-Returns G max zero r high = refl
draw_seeds-Returns G max (suc n) r high =
    let divisible : (max == 0) ≡ false = ground arith in
    rw (divisible, draw_seeds)
      (Returns->>= (λ s. length s.0 ≡ n) (λ s. length s.0 ≡ suc n) (draw_seeds G max n (draw G r).1)
        _ (draw_seeds-Returns G max n (draw G r).1 high) (λ s h. ap suc h))

create_heightmap-Returns :
    (G : Gen) (w seed octaves scale max : ℕ)
    → 0 < max
    → 2 ^ octaves ≤ 2 * w
    → Returns (λ s. length s.0 ≡ w * w) (create_heightmap G w seed octaves scale max)
unfolding create_heightmap
create_heightmap-Returns G w seed octaves scale max high wide =
    Returns->>= (λ s. length s.0 ≡ w * w) (λ s. length s.0 ≡ w * w)
      (draw_seeds G max (w * w) (srand seed)) _ (draw_seeds-Returns G max (w * w) (srand seed) high)
      (λ s h.
        Returns->>= (Full G w) (λ s. length s.0 ≡ w * w) (generate_perlin2d G s.0 w octaves scale) _
          (let (k, e, full) = generate_perlin2d-ends G w octaves scale s.0 h wide in rw e full)
          (λ k full. full))

-- A tile after its elevation is set.
abbrev pub Raised : Gen → ℕ → ℕ → Type 0
Raised G a b = (h : ℕ) × (b ≡ G.env.set_terrelevation a h)

raise_tile-Swept :
    (G : Gen) (w levels : ℕ) (os map1 map2 : List ℕ) (y x : ℕ) (ts : List ℕ)
    → length os ≡ w * w
    → length map1 ≡ w * w
    → length map2 ≡ w * w
    → y < w
    → x < w
    → Swept (Raised G) (x + y * w) os ts
    → Returns (Swept (Raised G) (suc (x + y * w)) os) (raise_tile G map1 map2 levels w y x ts)
unfolding raise_tile
raise_tile-Swept G w levels os map1 map2 y x ts size size1 size2 below beside s =
    let i = x + y * w in
    let lt = (tile_index-inside w x y beside below).1 in
    let inside : i < length ts = rw (length-Swept (Raised G) i os ts s, size) lt in
    let a = get_elem?-some map1 i (rw size1 lt) in
    let b = get_elem?-some map2 i (rw size2 lt) in
    let t = get_elem?-some ts i inside in
    rw (a.1, b.1, t.1, lt→ltb i (length ts) inside, raise_tile)
      (Swept-set (Raised G) i os ts t.0 _ t.1 (_, refl) s)

-- In a world of a width of at least 64, with a maximum above 0, setting the elevations ends without a
-- fault, and each tile of the array is then what it was but for its elevation.
pub generate_world_elevation-Raised :
    (G : Gen) (w max seed : ℕ) (ts : List ℕ)
    → 64 ≤ w
    → 0 < max
    → length ts ≡ w * w
    → (us : List ℕ) × (r : Random) × (generate_world_elevation G w max seed ts ≡ some (us, r))
      × Pointwise (Raised G) ts us
unfolding generate_world_elevation
generate_world_elevation-Raised G w max seed ts wide high size =
    let (p, e, h) = Returns-some (λ s. Pointwise (Raised G) ts s.0) _ elevated in (p.0, p.1, e, h)
  where
    elevated :
        Returns {S = List ℕ × Random}
          (λ s. Pointwise (Raised G) ts s.0)
          (generate_world_elevation G w max seed ts)
    elevated =
        Returns->>= (λ s. length s.0 ≡ w * w) _ (create_heightmap G w seed 5 float_two_fifths max) _
          (create_heightmap-Returns G w seed 5 float_two_fifths max high (omega arith))
          (λ map1 h1.
            Returns->>= (λ s. length s.0 ≡ w * w) _
              (create_heightmap G w ((seed + 1) % 2 ^ 32) 7 float_twentieth max) _
              (create_heightmap-Returns G w ((seed + 1) % 2 ^ 32) 7 float_twentieth max high
                (omega arith))
              (λ map2 h2.
                Returns->>= (Swept (Raised G) (w * w) ts) _ _ _
                  (grid-Steps (λ k. Swept (Raised G) k ts) w _
                    (λ y x us lt lt' s.
                      raise_tile-Swept G w _ ts map1.0 map2.0 y x us size h1 h2 lt lt' s)
                    ts (Swept-refl (Raised G) ts))
                  (λ us s. Swept-Pointwise (Raised G) (w * w) ts us (sym size) s)))
