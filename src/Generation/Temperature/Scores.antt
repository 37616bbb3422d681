-- ===== src/Generation/Temperature/Scores.antt =====
-- The scores of the climate: src/game/world/TemperatureGenerator.cpp.
use proj8315server.Base.{
  ℕ, ◌+◌, ◌≤◌, ◌<◌, ◌≡◌, refl, ◌⊎◌, Bool, true, false, get_elem?-some, ℤ, pos, ◌-ℤ◌, if◌then◌else◌,
  arith,
}
use proj8315server.World.{float_zero, float_half}
use proj8315server.Generation.{Gen, Warmth}
use proj8315server.Generation.Temperature.{
  distance, at_least_zero, float_min, float_max, climate_score, temperature_score, temp_mapping,
  warmths,
}

-- A `float` from 0 up to a whole number.
abbrev pub Within : Gen → ℕ → ℕ → Type 0
Within G m x =
    (G.less x float_zero ≡ false) × ((G.less x (G.of_int (pos m)) ≡ true) ⊎ (x ≡ G.of_int (pos m)))

-- Whole numbers up to this are exact in `float`.
abbrev pub exact : ℕ
exact = 0x100_0000

-- What the generators rely on of IEEE 754 single precision.
pub record FloatLaws (G : Gen) : Type 0 where
  pub made : (n : ℕ) → n ≤ exact → Within G n (G.of_int (pos n))
  pub divided :
      (m x d : ℕ)
      → m ≤ exact
      → 0 < d
      → d ≤ exact
      → Within G m x
      → Within G m (G.div x (G.of_int (pos d)))
  pub capped :
      (m n x : ℕ) → n ≤ exact → Within G m x → G.less (G.of_int (pos n)) x ≡ false → Within G n x
  pub added :
      (m n x y : ℕ) → m + n ≤ exact → Within G m x → Within G n y → Within G (m + n) (G.add x y)
  pub halved : (m x : ℕ) → m ≤ exact → Within G m x → Within G m (G.mul x float_half)
  pub truncated : (m x : ℕ) → m ≤ exact → Within G m x → (n : ℕ) × (G.to_int x ≡ pos n) × (n ≤ m)

at_least_zero-le : (n : ℕ) → at_least_zero (pos 6 -ℤ pos n) ≤ 6
unfolding at_least_zero ◌-ℤ◌
at_least_zero-le n = ground arith

module _ (G : Gen) (floats : FloatLaws G) where
  climate_score-Within :
      (equator : ℤ) (y elevation : ℕ)
      → distance (pos y -ℤ equator) ≤ exact
      → elevation < 256
      → Within G (6 + elevation) (climate_score G equator y elevation)
  unfolding climate_score float_min float_max
  climate_score-Within equator y elevation near low =
      floats.halved (6 + elevation) _ (omega arith)
        (floats.added 6 elevation _ _ (omega arith) (dist (G.less (G.of_int (pos 6)) d) refl) high)
    where
      d : ℕ
      d = G.div (G.of_int (pos (distance (pos y -ℤ equator)))) (G.of_int (pos 49))

      e : ℕ
      e = G.div (G.of_int (pos elevation)) (G.of_int (pos 6))

      dist :
          (b : Bool)
          → G.less (G.of_int (pos 6)) d ≡ b
          → Within G 6 (if b then G.of_int (pos 6) else d)
      dist true h = floats.made 6 (omega arith)
      dist false h =
          floats.capped _ 6 d (omega arith)
            (floats.divided _ _ 49 near (omega arith) (omega arith)
              (floats.made (distance (pos y -ℤ equator)) near))
            h

      high : Within G elevation (if G.less e float_zero then float_zero else e)
      high =
          let small =
            floats.divided elevation _ 6 (omega arith) (omega arith) (omega arith)
              (floats.made elevation (omega arith)) in
          rw (small.0) small

  -- The key is one of the seven.
  pub temperature_score-le :
      (equator : ℤ) (y elevation : ℕ)
      → distance (pos y -ℤ equator) ≤ exact
      → elevation < 256
      → temperature_score G equator y elevation ≤ 6
  unfolding temperature_score
  temperature_score-le equator y elevation near low =
      let (n, e, le) =
        floats.truncated (6 + elevation) _ (omega arith)
          (climate_score-Within equator y elevation near low) in
      rw e (at_least_zero-le n)

pub temp_mapping-Warmth : (G : Gen) (k : ℕ) → k ≤ 6 → (h : Warmth) × (temp_mapping G k ≡ G.warmth h)
unfolding temp_mapping
temp_mapping-Warmth G k le =
    let h = get_elem?-some warmths k (omega arith) in (h.0, rw (h.1, temp_mapping) refl)
