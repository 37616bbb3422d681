-- ===== src/Generation.antt =====
-- The generation of a new world: src/game/world/. The tile layout, the enumerators of Tile.h,
-- `std::rand` and the `float` operations are outside the sources and enter by `Gen`.
pub mod Grid
pub mod Elevation
pub mod Ramps
pub mod Cliffs
pub mod Temperature
pub mod Environment
pub mod Composition
use proj8315server.Base.{ℕ, ◌+◌, Bool, ℤ, List}
use proj8315server.World.{Env}

-- TileStateTerrType, as far as the generators name it.
pub data Ground : Type 0 where
  dirt fertile rock water dunes : Ground

-- TileStateTemperature.
pub data Warmth : Type 0 where
  freezing cold chilly mild warm hot burning : Warmth

pub record Gen : Type 0 where
  pub env : Env
  pub terrtype : ℕ → ℕ
  pub temperature : ℕ → ℕ
  pub ground : Ground → ℕ
  pub warmth : Warmth → ℕ
  -- The number that `std::rand` returns at its k-th call after `std::srand(seed)`.
  pub rand : ℕ → ℕ → ℕ
  -- `float` values are bit patterns.
  pub of_int : ℤ → ℕ
  pub add : ℕ → ℕ → ℕ
  pub sub : ℕ → ℕ → ℕ
  pub mul : ℕ → ℕ → ℕ
  pub div : ℕ → ℕ → ℕ
  pub less : ℕ → ℕ → Bool
  pub to_int : ℕ → ℤ
  -- `(GC_ubyte)(std::round(x) * m)` and `std::floor` as an `int`.
  pub round_byte : ℕ → ℕ → ℕ
  pub floor : ℕ → ℕ
  -- The order in which an `std::unordered_set` with these members is walked.
  pub walk : List ℕ → List ℕ

-- The state of `std::rand`.
pub record Random : Type 0 where
  pub seed : ℕ
  pub drawn : ℕ

module _ (G : Gen) where
  unfoldable pub draw : Random → ℕ × Random
  draw r = (G.rand r.seed r.drawn, record r { drawn = r.drawn + 1 })

abbrev pub srand : ℕ → Random
srand seed = record { seed = seed; drawn = 0 }
