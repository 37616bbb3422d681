-- ===== src/Water/Pools.antt =====
-- Laws of the loop over the pools: src/game/world/WaterGenerator.cpp.
use proj8315server.Base.{
  ℕ, ◌+◌, ◌*◌, ◌≤◌, ◌<◌, ◌≡◌, refl, ◌∙◌, true, none, some, List, [], ◌∷◌, length, length-set, set,
  All, get_elem?-some, lt→ltb, Dict, arith,
}
use native.Mathlib.Nat.{mul-le-mul_right}
use proj8315server.World.{Env}
use proj8315server.World.Loops.{Returns, Returns-some}
use proj8315server.Water.{
  Node, on_map, fill, water_height, record_sizes, generate_world_waters, number_eq,
}
use proj8315server.Water.Flood.{IsLevel, on_map-AtHeight, height-tile, generate_water_area-Settled}

fill-Returns :
    (E : Env) (water h n a w : ℕ) (ts vs tiles : List ℕ) (size : length ts ≡ w * w)
    → All (IsLevel E w ts size a) vs
    → length tiles ≡ w * w
    → Returns (λ t. length t ≡ w * w) (fill E water h vs tiles)
unfolding fill
fill-Returns E water h n a w ts [] tiles size ok e = e
fill-Returns E water h n a w ts (v ∷ vs) tiles size ok e =
    let inside : v < length tiles = omega (arith, e, ok.0.0) in
    let t = get_elem?-some tiles v inside in
    rw (t.1, fill, lt→ltb v (length tiles) inside)
      (fill-Returns E water h n a w ts vs (set tiles v _) size ok.1 (length-set tiles v _ ∙ e))

-- Where heights are bytes, as in Tile.h, the tile array of a world of width w has its size and
-- every pool begins on the map, making all pools ends without a fault, with fuel for
-- 255 * (5 * w * w + 2) + 5 * w * w + 2 rounds per pool, and the array keeps its size.
pub generate_world_waters-ends :
    (E : Env) (water w fuel : ℕ) (starts : List Node) (ts : List ℕ) (sizes : Dict ℕ ℕ)
    → ((t : ℕ) → E.terrelevation t < 256)
    → All (λ n. on_map w n ≡ true) starts
    → length ts ≡ w * w
    → 255 * (5 * (w * w) + 2) + 5 * (w * w) + 1 < fuel
    → (ts' : List ℕ) × (sizes' : Dict ℕ ℕ) × (generate_world_waters E water w fuel starts ts sizes
        ≡ some (some (ts', sizes')))
      × (length ts' ≡ w * w)
unfolding generate_world_waters
generate_world_waters-ends E water w fuel [] ts sizes byte there size enough =
    (ts, sizes, refl, size)
generate_world_waters-ends E water w fuel (start ∷ starts) ts sizes byte there size enough =
    let (h, at) = on_map-AtHeight E w ts size start there.0 in
    let tile = height-tile E w ts size h at.0 start at.1 at.3 in
    let low : h ≤ 255 = omega (arith, byte tile.0, tile.2) in
    let bound : h * (5 * (w * w) + 2) ≤ 255 * (5 * (w * w) + 2) = mul-le-mul_right _ low in
    let (p, a, run, empty, under, dry) =
      generate_water_area-Settled E w fuel h ts start none size there.0 at.3
        (omega (arith, bound, enough)) in
    let (ts', filled, kept) =
      Returns-some _ (fill E water (water_height p.level) p.visited ts)
        (fill-Returns E water (water_height p.level) 0 a w ts p.visited ts size dry size) in
    let (ts'', sizes'', more, sized) =
      generate_world_waters-ends E water w fuel starts ts'
        (record_sizes (length p.visited) p.visited sizes) byte there.1 kept enough in
    (ts'', sizes'', rw (run, filled, generate_world_waters) more, sized)
