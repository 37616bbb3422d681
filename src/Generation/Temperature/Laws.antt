-- ===== src/Generation/Temperature/Laws.antt =====
-- Laws of the climate: src/game/world/TemperatureGenerator.cpp.
use proj8315server.Base.{
  ℕ, suc, ◌+◌, ◌*◌, ◌≤◌, ◌<◌, ◌≡◌, ◌≢◌, sym, ◌∙◌, ◌⊎◌, inl, inr, Bool, true, false, ◌&&◌, not, some,
  List, length, length-set, get_elem?, get_elem?-some, set, ◌==◌, ==_iff, ltb, lt→ltb, Bool-cases,
  Option-cases, ℤ, pos, ◌-ℤ◌, if◌then◌else◌, arith, Pointwise, Swept, Swept-refl, length-Swept,
  Swept-set, Swept-Pointwise, set-set_self,
}
use proj8315server.World.{tile_index, checked, store}
use proj8315server.World.Loops.{for_range-Returns, Returns, Returns->>=, Returns-some}
use proj8315server.World.Safety.{checked-some}
use proj8315server.Generation.{Gen, Ground, Warmth, rock, dunes, burning}
use proj8315server.Generation.Grid.{tile_index-inside, grid-Steps}
use proj8315server.Generation.Temperature.{
  distance, temperature_score, count_water_at, near_water_count, dry_out, heat_tile,
  generate_temperature_effect,
}
use proj8315server.Generation.Temperature.Scores.{
  exact, FloatLaws, temperature_score-le, temp_mapping-Warmth,
}

near_water_count-Returns :
    (G : Gen) (w y x : ℕ) (ts : List ℕ)
    → length ts ≡ w * w
    → Returns (λ n. Unit {0}) (near_water_count G w ts y x)
unfolding near_water_count count_water_at
near_water_count-Returns G w y x ts size =
    for_range-Returns (λ n. Unit {0}) _
      (λ y2 m u.
        for_range-Returns (λ n. Unit {0}) _ (λ x2 n v. counted y2 x2 n) 6 (pos x -ℤ pos 3) m tt)
      6 (pos y -ℤ pos 3) 0 tt
  where
    counted : (y2 x2 : ℤ) (n : ℕ) → Returns (λ m. Unit {0}) (count_water_at G w ts y2 x2 n)
    counted y2 x2 n = elim (Option-cases (checked (w * w) (tile_index w x2 y2))) [
      | inl e ↦ rw (e, count_water_at) tt
      | inr (i, e) ↦
          let at = checked-some (w * w) (tile_index w x2 y2) i e in
          let t = get_elem?-some ts i (rw size at.1) in rw (e, t.1, count_water_at) tt
    ]

-- What the generators rely on of Tile.h for the temperature.
pub record ClimateLaws (G : Gen) : Type 0 where
  pub low : (u : ℕ) → G.env.terrelevation u < 256
  pub warmed :
      (u : ℕ) (h : Warmth) → G.temperature (G.env.set_temperature u (G.warmth h)) ≡ G.warmth h
  pub grounded : (u h : ℕ) → G.terrtype (G.env.set_temperature u h) ≡ G.terrtype u
  pub covered :
      (u : ℕ) (g : Ground) → G.temperature (G.env.set_terrtype u (G.ground g)) ≡ G.temperature u
  pub turned : (u : ℕ) (g : Ground) → G.terrtype (G.env.set_terrtype u (G.ground g)) ≡ G.ground g

-- A tile after its temperature is set: one of the seven, and the ground as before, or dunes in place
-- of what is not rock where it burns.
abbrev pub Heated : Gen → ℕ → ℕ → Type 0
Heated G a b =
    ((h : Warmth) × (G.temperature b ≡ G.warmth h))
    × ((G.terrtype b ≡ G.terrtype a)
        ⊎ (G.terrtype b ≡ G.ground dunes)
          × (G.temperature b ≡ G.warmth burning)
          × (G.terrtype a ≢ G.ground rock))

module _ (G : Gen) (floats : FloatLaws G) (laws : ClimateLaws G) (w : ℕ) (os : List ℕ)
    (size : length os ≡ w * w) where
  dry_out-Heated :
      (y x i t u : ℕ) (h : Warmth) (ts : List ℕ)
      → i < w * w
      → get_elem? ts i ≡ some t
      → G.temperature u ≡ G.warmth h
      → G.terrtype u ≡ G.terrtype t
      → Swept (Heated G) i os ts
      → Returns (Swept (Heated G) (suc i) os) (dry_out G w y x i (G.warmth h) u (set ts i u))
  unfolding dry_out
  dry_out-Heated y x i t u h ts lt at hot_u same s =
      elim (Bool-cases (G.warmth h == G.warmth burning && not (G.terrtype u == G.ground rock))) [
        | inr e ↦ rw (e, dry_out) kept
        | inl e ↦
            rw (e, dry_out)
              (Returns->>= (λ n. Unit {0}) (Swept (Heated G) (suc i) os)
                (near_water_count G w (set ts i u) y x) _
                (near_water_count-Returns G w y x (set ts i u) long)
                (λ n _.
                  dried (ltb n 3) ((==_iff (G.warmth h) (G.warmth burning)).0 (ground arith))
                    (λ r. absurd (bare e (same ∙ r)))))
      ]
    where
      kept : Swept (Heated G) (suc i) os (set ts i u)
      kept = Swept-set (Heated G) i os ts t u at ((h, hot_u), inl same) s

      long : length (set ts i u) ≡ w * w
      long = length-set ts i u ∙ length-Swept (Heated G) i os ts s ∙ size

      bare :
          (G.warmth h == G.warmth burning && not (G.terrtype u == G.ground rock)) ≡ true
          → G.terrtype u ≢ G.ground rock
      bare e r = ground (arith, e, (==_iff (G.terrtype u) (G.ground rock)).1 r)

      dried :
          (b : Bool)
          → G.warmth h ≡ G.warmth burning
          → G.terrtype t ≢ G.ground rock
          → Returns (Swept (Heated G) (suc i) os) (
              if b
              then store (set ts i u) (pos i) (G.env.set_terrtype u (G.ground dunes))
              else some (set ts i u))
      dried false burns r = kept
      dried true burns r =
          let d = G.env.set_terrtype u (G.ground dunes) in
          let burnt : G.temperature d ≡ G.warmth h = laws.covered u dunes ∙ hot_u in
          rw (lt→ltb i (length (set ts i u)) (rw long lt), set-set_self ts i u d)
            (Swept-set (Heated G) i os ts t d at
              ((h, burnt), inr (laws.turned u dunes, burnt ∙ burns, r)) s)

  heat_tile-Heated :
      (equator : ℤ) (y x : ℕ) (ts : List ℕ)
      → distance (pos y -ℤ equator) ≤ exact
      → y < w
      → x < w
      → Swept (Heated G) (x + y * w) os ts
      → Returns (Swept (Heated G) (suc (x + y * w)) os) (heat_tile G w equator y x ts)
  unfolding heat_tile
  heat_tile-Heated equator y x ts near below beside s =
      let i = x + y * w in
      let lt = (tile_index-inside w x y beside below).1 in
      let inside : i < length ts = rw (length-Swept (Heated G) i os ts s, size) lt in
      let t = get_elem?-some ts i inside in
      let k = temperature_score G equator y (G.env.terrelevation t.0) in
      let h =
        temp_mapping-Warmth G k
          (temperature_score-le G floats equator y (G.env.terrelevation t.0) near (laws.low t.0)) in
      rw (t.1, h.1, lt→ltb i (length ts) inside, heat_tile)
        (dry_out-Heated y x i t.0 (G.env.set_temperature t.0 (G.warmth h.0)) h.0 ts lt t.1
          (laws.warmed t.0 h.0) (laws.grounded t.0 (G.warmth h.0)) s)

-- Where floats behave as `FloatLaws` says, the functions of Tile.h as `ClimateLaws` says, the array
-- has its size and no row is further than 2^24 from the equator, setting the temperatures
-- ends without a fault; each tile of the array then has one of the seven temperatures, and keeps
-- its ground, or is burning dunes in place of ground that was not rock.
pub generate_temperature_effect-Heated :
    (G : Gen) (w : ℕ) (equator : ℤ) (ts : List ℕ)
    → FloatLaws G
    → ClimateLaws G
    → length ts ≡ w * w
    → ((y : ℕ) → y < w → distance (pos y -ℤ equator) ≤ exact)
    → (us : List ℕ) × (generate_temperature_effect G w equator ts ≡ some us)
      × Pointwise (Heated G) ts us
unfolding generate_temperature_effect
generate_temperature_effect-Heated G w equator ts floats laws size near =
    let (us, e, h) = Returns-some _ (generate_temperature_effect G w equator ts) (
      grid-Steps (λ k. Swept (Heated G) k ts) w (heat_tile G w equator)
        (λ y x vs lt lt' s.
          heat_tile-Heated G floats laws w ts size equator y x vs (near y lt) lt lt' s)
        ts (Swept-refl (Heated G) ts)) in
    (us, e, Swept-Pointwise (Heated G) (w * w) ts us (sym size) h)
