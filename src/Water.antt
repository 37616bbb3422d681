-- ===== src/Water.antt =====
-- The pools of water of a new world: src/game/world/WaterGenerator.h and WaterGenerator.cpp.
pub mod Flood
pub mod Pools
pub mod Sizes
use proj8315server.Base.{
  ℕ, zero, suc, ◌+◌, ◌-◌, ◌*◌, ◌/◌, ◌%◌, Bool, true, false, ◌&&◌, Option, none, some, List, [], ◌∷◌,
  ◌==◌, ltb, leb, length, get_elem?, set, ℤ, pos, negsuc, ◌+ℤ◌, ◌-ℤ◌, if◌then◌else◌, ◌>>=◌, Dict,
  put, Eq, ==_iff,
}
use proj8315server.World.{Env, tile_index, load, store}

-- Numbers as keys.
instance abbrev pub number_eq : Eq ℕ
number_eq = record { beq = ◌==◌; beq_iff = ==_iff }

-- A `PoolSearchNode` without the field that is not used.
abbrev pub Node : Type 0
Node = ℤ × ℤ

-- `visited.find(index) != visited.end()`; the set is a list of the numbers put into it.
unfoldable pub visited_before : ℤ → List ℕ → Bool
visited_before k [] = false
visited_before (negsuc i) (v ∷ vs) = false
visited_before (pos i) (v ∷ vs) = if v == i then true else visited_before (pos i) vs

abbrev pub below : ℕ → ℤ → Bool
below w (pos i) = ltb i w
below w (negsuc i) = false

abbrev pub on_map : ℕ → Node → Bool
on_map w (x, y) = below w x && below w y

-- `waterLevel` after a higher neighbour: -1, here `none`, stands for no level yet.
abbrev pub raise : Option ℕ → ℕ → Option ℕ
raise none h = some h
raise (some l) h = some (if ltb h l then h else l)

-- The variables of the search.
pub record Pool : Type 0 where
  pub stack : List Node
  pub visited : List ℕ
  pub level : Option ℕ

-- What the scan of the neighbours comes to: a lower one, or the new stack and water level.
pub data Scan : Type 0 where
  leaks : Node → Option ℕ → Scan
  scanned : List Node → Option ℕ → Scan

abbrev pub neighbours : Node → List Node
neighbours (x, y) = (x -ℤ pos 1, y) ∷ (x +ℤ pos 1, y) ∷ (x, y -ℤ pos 1) ∷ (x, y +ℤ pos 1) ∷ []

module _ (E : Env) (w : ℕ) (ts : List ℕ) where
  -- `get_tile_terrelevation(*(pWorld + index))`.
  unfoldable pub height : Node → Option ℕ
  height (x, y) = load ts (tile_index w x y) >>= λ t. some (E.terrelevation t)

  -- A neighbour on the map: pushed where it is level, and the end of the scan where it is lower.
  unfoldable pub compare_height :
      ℕ → ℕ → Node → (List Node → Option ℕ → Option Scan) → List Node → Option ℕ → Option Scan
  compare_height h a n next stack level =
      if a == h
      then next (n ∷ stack) level
      else if ltb a h
      then some (leaks n level)
      else next stack (raise level a)

  unfoldable pub scan : ℕ → List ℕ → List Node → List Node → Option ℕ → Option Scan
  scan h visited [] stack level = some (scanned stack level)
  scan h visited (n ∷ ns) stack level =
      let next = scan h visited ns in
      if visited_before (tile_index w n.0 n.1) visited
      then next stack level
      else if on_map w n
      then (height n >>= λ a. compare_height h a n next stack level)
      else next stack level

  -- The round of the loop for the node on top of the stack, whose head is the vector's back. The
  -- recursion for a leak begins again at the lower tile, with nothing visited.
  unfoldable pub visit : ℕ → Node → Pool → Option Pool
  visit i n p = do
    h ← height n
    r ← scan h p.visited (neighbours n) p.stack p.level
    elim r [
      | leaks m l ↦ some (record { stack = m ∷ []; visited = []; level = l })
      | scanned stack l ↦ some (record { stack = stack; visited = i ∷ p.visited; level = l })
    ]

  unfoldable pub flood_round : Node → Pool → Option Pool
  flood_round n p =
      if visited_before (tile_index w n.0 n.1) p.visited
      then some p
      else elim (tile_index w n.0 n.1) [ negsuc i ↦ none | pos i ↦ visit i n p ]

  -- The loop; `none` is an access outside the array, `some none` means that the fuel did not last.
  unfoldable pub flood : ℕ → Pool → Option (Option Pool)
  flood zero p = some none
  flood (suc fuel) p = elim p.stack [
    | [] ↦ some (some p)
    | n ∷ stack ↦ flood_round n (record p { stack = stack }) >>= λ q. flood fuel q
  ]

  unfoldable pub generate_water_area : ℕ → Node → Option ℕ → Option (Option Pool)
  generate_water_area fuel start level =
      flood fuel (record { stack = start ∷ []; visited = []; level = level })

-- The height of a pool's tiles: one below its level, where a level of -1 is taken for 0 and the
-- level is cut to a byte.
unfoldable pub water_height : Option ℕ → ℕ
water_height none = 0
water_height (some l) = l % 256 - 1

-- The tiles of a pool become water; `water` is TILE_STATE_terrTypeWater.
unfoldable pub fill : Env → ℕ → ℕ → List ℕ → List ℕ → Option (List ℕ)
fill E water h [] tiles = some tiles
fill E water h (v ∷ vs) tiles = do
  t ← load tiles (pos v)
  tiles' ← store tiles (pos v) (E.set_terrelevation (E.set_terrtype t water) h)
  fill E water h vs tiles'

-- The sizes of the pools by the numbers of their tiles.
unfoldable pub record_sizes : ℕ → List ℕ → Dict ℕ ℕ → Dict ℕ ℕ
record_sizes size [] sizes = sizes
record_sizes size (v ∷ vs) sizes = record_sizes size vs (put v size sizes)

-- The loop over the pools, which begin at the places that `std::rand` chose: the tiles and the
-- sizes afterwards, where `some none` means that the fuel of a search did not last.
unfoldable pub generate_world_waters :
    Env → ℕ → ℕ → ℕ → List Node → List ℕ → Dict ℕ ℕ → Option (Option (List ℕ × Dict ℕ ℕ))
generate_world_waters E water w fuel [] ts sizes = some (some (ts, sizes))
generate_world_waters E water w fuel (start ∷ starts) ts sizes =
    let rest = generate_world_waters E water w fuel starts in
    elim (generate_water_area E w ts fuel start none) [
      | none ↦ none
      | some none ↦ some none
      | some (some p) ↦
          (fill E water (water_height p.level) p.visited ts >>= λ ts'.
          rest ts' (record_sizes (length p.visited) p.visited sizes))
    ]
