-- ===== src/Generation/Composition/Null.antt =====
-- A new world without a neutral faction: src/game/world/WorldGenerator.cpp and
-- src/game/world/EnvironmentGenerator.cpp.
use proj8315server.Base.{
  ℕ, zero, suc, ◌%◌, ◌≡◌, refl, ap, ◌∙◌, ◌⊎◌, inl, inr, Bool, true, false, ◌||◌, Option, none, some,
  List, [], ◌∷◌, ◌==◌, leb, Bool-cases, pos, if◌then◌else◌, ◌>>=◌, Dict, String, put,
}
use proj8315server.World.{World, read_tile, write_tile, float_zero}
use proj8315server.Water.{generate_world_waters, number_eq}
use proj8315server.Generation.{Gen, Random, draw, srand, water, rock, fertile}
use proj8315server.Generation.Elevation.{generate_world_elevation}
use proj8315server.Generation.Cliffs.{generate_world_cliffs}
use proj8315server.Generation.Temperature.{generate_temperature_effect}
use proj8315server.Generation.Environment.{
  is_water, insert_all, attempt_plant_environment_object, find_shores,
}
use proj8315server.Generation.Environment.Growth.{
  Wave, score_tile, adjacent_indices, blank_score, grow, check_tile, check_tiles, spread,
  generate_environment,
}
use proj8315server.Generation.Composition.{Plan, draw_starts, finish_world, generate_world}

-- A fault, or the same.
abbrev pub Refines {ℓ} : {S : Type ℓ} → Option S → Option S → Type ℓ
Refines a b = (a ≡ none) ⊎ (a ≡ b)

Refines->>= {ℓ κ} :
    {S : Type ℓ} {T : Type κ} (a b : Option S) (f g : S → Option T)
    → Refines a b
    → ((s : S) → Refines (f s) (g s))
    → Refines (a >>= f) (b >>= g)
Refines->>= a b f g (inl e) h = inl (ap (λ o. o >>= f) e)
Refines->>= a none f g (inr e) h = inl (ap (λ o. o >>= f) e)
Refines->>= a (some s) f g (inr e) h = elim (h s) [
  | inl k ↦ inl (ap (λ o. o >>= f) e ∙ k)
  | inr k ↦ inr (ap (λ o. o >>= f) e ∙ k)
]

module _ (G : Gen) (faction : String) (w : ℕ) where
  attempt_plant-Refines :
      (temperature i : ℕ) (g : World) (r : Random)
      → Refines
          (attempt_plant_environment_object G none temperature w i g r)
          (attempt_plant_environment_object G (some faction) temperature w i g r)
  unfolding attempt_plant_environment_object
  attempt_plant-Refines temperature i g r = elim (Bool-cases (leb 16 ((draw G r).0 % 20))) [
    | inl e ↦ inl (rw (e, attempt_plant_environment_object) refl)
    | inr e ↦ inr (rw (e, attempt_plant_environment_object) refl)
  ]

  grow-Refines : (i : ℕ) (v : Wave) → Refines (grow G w none i v) (grow G w (some faction) i v)
  unfolding grow
  grow-Refines i v =
      Refines->>= (read_tile v.world (pos i)) (read_tile v.world (pos i)) _ _ (inr refl)
        (λ t. planted t (is_water G t || G.terrtype t == G.ground rock))
    where
      planted :
          (t : ℕ) (b : Bool)
          → Refines
              (if b
                then some v
                else (write_tile v.world (pos i) (G.env.set_terrtype t (G.ground fertile)) >>= λ g.
                    attempt_plant_environment_object G none
                      (G.temperature (G.env.set_terrtype t (G.ground fertile)))
                      w
                      i
                      g
                      v.random
                    >>= λ p. some (record v { world = p.0; random = p.1 })))
              (if b
                then some v
                else (write_tile v.world (pos i) (G.env.set_terrtype t (G.ground fertile)) >>= λ g.
                    attempt_plant_environment_object G
                      (some faction)
                      (G.temperature (G.env.set_terrtype t (G.ground fertile)))
                      w
                      i
                      g
                      v.random
                    >>= λ p. some (record v { world = p.0; random = p.1 })))
      planted t true = inr refl
      planted t false =
          let u = G.env.set_terrtype t (G.ground fertile) in
          Refines->>= (write_tile v.world (pos i) u) (write_tile v.world (pos i) u) _ _ (inr refl)
            (λ g.
              Refines->>= (attempt_plant_environment_object G none (G.temperature u) w i g v.random)
                _ _ _ (attempt_plant-Refines (G.temperature u) i g v.random) (λ p. inr refl))

  check_tile-Refines :
      (to_check : List ℕ) (first : Bool) (i : ℕ) (v : Wave)
      → Refines
          (check_tile G w none to_check first i v)
          (check_tile G w (some faction) to_check first i v)
  unfolding check_tile
  check_tile-Refines to_check first i v =
      let scores =
        score_tile G w v.world.tiles v.weights to_check first 0 (adjacent_indices G w i)
          blank_score in
      Refines->>= scores scores _ _ (inr refl) (λ s.
        Refines->>= _ _ _ _
          (scored
            (record v {
              weights = put i (G.div s.score s.count) v.weights;
              new_tiles = insert_all s.potential v.new_tiles;
            })
            (G.less float_zero (G.div s.score s.count)))
          (λ u. inr refl))
    where
      scored :
          (grown : Wave) (b : Bool)
          → Refines
              (if b then grow G w none i grown else some v)
              (if b then grow G w (some faction) i grown else some v)
      scored grown true = grow-Refines i grown
      scored grown false = inr refl

  check_tiles-Refines :
      (to_check : List ℕ) (first : Bool) (is : List ℕ) (v : Wave)
      → Refines
          (check_tiles G w none to_check first is v)
          (check_tiles G w (some faction) to_check first is v)
  unfolding check_tiles
  check_tiles-Refines to_check first [] v = inr refl
  check_tiles-Refines to_check first (i ∷ is) v =
      Refines->>= (check_tile G w none to_check first i v) _ _ _
        (check_tile-Refines to_check first i v) (λ u. check_tiles-Refines to_check first is u)

  spread-Refines :
      (fuel : ℕ) (first : Bool) (to_check : List ℕ) (g : World) (r : Random) (weights : Dict ℕ ℕ)
      → Refines
          (spread G w fuel none first to_check g r weights)
          (spread G w fuel (some faction) first to_check g r weights)
  unfolding spread
  spread-Refines zero first to_check g r weights = inr refl
  spread-Refines (suc fuel) first [] g r weights = inr refl
  spread-Refines (suc fuel) first (i ∷ is) g r weights =
      Refines->>= (check_tiles G w none (i ∷ is) first (G.walk (i ∷ is)) _) _ _ _
        (check_tiles-Refines (i ∷ is) first (G.walk (i ∷ is)) _)
        (λ v. spread-Refines fuel false _ v.world v.random v.weights)

  generate_environment-Refines :
      (fuel : ℕ) (manager : Bool) (sizes weights : Dict ℕ ℕ) (g : World) (r : Random)
      → Refines
          (generate_environment G w fuel none manager sizes weights g r)
          (generate_environment G w fuel (some faction) manager sizes weights g r)
  unfolding generate_environment
  generate_environment-Refines fuel false sizes weights g r = inr refl
  generate_environment-Refines fuel true sizes weights g r =
      Refines->>= (find_shores G w g.tiles sizes weights) (find_shores G w g.tiles sizes weights) _
        _ (inr refl) (λ s. spread-Refines fuel true s.to_check g r s.weights)

module _ (G : Gen) (p : Plan) (faction : String) (g : World) where
  finish_world-Refines :
      (ts : List ℕ) (sizes : Dict ℕ ℕ) (r : Random)
      → Refines (finish_world G p none g ts sizes r) (finish_world G p (some faction) g ts sizes r)
  unfolding finish_world
  finish_world-Refines ts sizes r =
      let cliffs = generate_world_cliffs G g.world_width 4 (ts, r) in
      Refines->>= cliffs cliffs _ _ (inr refl) (λ l.
        let climate = generate_temperature_effect G g.world_width p.equator l.0 in
        Refines->>= climate climate _ _ (inr refl) (λ us.
          generate_environment-Refines G faction g.world_width p.wave_fuel p.manager sizes []
            (record g { tiles = us }) l.1))

  made-Refines :
      (r : Random) (made : Option (List ℕ × Dict ℕ ℕ))
      → Refines
          (elim made [ none ↦ some none | some (us, sizes) ↦ finish_world G p none g us sizes r ])
          (elim made [
            | none ↦ some none
            | some (us, sizes) ↦ finish_world G p (some faction) g us sizes r
          ])
  made-Refines r none = inr refl
  made-Refines r (some (us, sizes)) = finish_world-Refines us sizes r

-- With a null pointer for the neutral faction the generators either fault, or make exactly the world
-- that they make with any faction.
pub generate_world-Refines :
    (G : Gen) (p : Plan) (faction : String) (g : World)
    → (generate_world G p none g ≡ none)
      ⊎ (generate_world G p none g ≡ generate_world G p (some faction) g)
unfolding generate_world
generate_world-Refines G p faction g =
    let w = g.world_width in
    let raised = generate_world_elevation G w p.max p.seed g.tiles in
    let starts = draw_starts G w 2048 (srand 666) in
    Refines->>= raised raised _ _ (inr refl) (λ e. Refines->>= starts starts _ _ (inr refl) (λ s.
      let waters = generate_world_waters G.env (G.ground water) w p.flood_fuel s.0 e.0 [] in
      Refines->>= waters waters _ _ (inr refl) (λ made. made-Refines G p faction g s.1 made)))
