-- ===== src/Generation/Environment/Waves.antt =====
-- Laws of the waves of fertile ground: src/game/world/EnvironmentGenerator.cpp.
use proj8315server.Base.{
  ℕ, ◌+◌, ◌*◌, ◌≤◌, ◌<◌, ◌≡◌, ◌≢◌, refl, sym, ap, subst, ◌∙◌, ◌⊎◌, inl, inr, Bool, true, false,
  ◌&&◌, ◌||◌, not, none, some, List, [], ◌∷◌, ◌==◌, ==_iff, length, get_elem?-some, Bool-cases,
  Option-cases, ℤ, Dict, find, put, String, arith,
}
use proj8315server.World.{World, area, checked, float_zero}
use proj8315server.World.Loops.{Returns, Returns->>=, Returns-some, Returns-weaken}
use proj8315server.World.Safety.{checked-some}
use proj8315server.World.Frames.{IsSafe}
use proj8315server.World.Spawning.{KeptSafe}
use proj8315server.Water.{number_eq}
use proj8315server.Generation.{Gen, Random, rock, fertile}
use proj8315server.Generation.Environment.{
  has, insert, insert_all, is_water, attempt_plant_environment_object,
}
use proj8315server.Generation.Environment.Growth.{
  Score, Wave, score_neighbour, score_at, score_tile, adjacent_indices, grow, check_tile,
  check_tiles, blank_score,
}
use proj8315server.Generation.Environment.Planting.{
  has-insert, insert-has, has-insert_all, write_tile-IsSafe, attempt_plant-IsSafe,
}
use proj8315server.Generation.Environment.Weights.{
  unweighted, put-unweighted, put-unweighted_lt, find-put_bare,
}

module _ (G : Gen) (w : ℕ) (faction : String) (to_check : List ℕ) (first : Bool)
    (inside : (i : ℕ) → has i to_check ≡ true → i < w * w) where
  -- A tile for the next wave.
  abbrev pub Next : Dict ℕ ℕ → ℕ → Type 0
  Next weights i = (i < w * w) × (find i weights ≡ none) × (has i to_check ≡ false)

  abbrev pub Scored : Dict ℕ ℕ → Score → Type 0
  Scored weights s = (i : ℕ) → has i s.potential ≡ true → Next weights i

  module _ (ts : List ℕ) (size : length ts ≡ w * w) (weights : Dict ℕ ℕ) where
    score_neighbour-Scored :
        (i j : ℕ) (s : Score)
        → j < w * w
        → has j to_check ≡ false
        → Scored weights s
        → Returns (Scored weights) (score_neighbour G w ts weights to_check first i j s)
    unfolding score_neighbour
    score_neighbour-Scored i j s lt away h =
        let t = get_elem?-some ts j (rw size lt) in
        elim (Option-cases (find j weights)) [
          | inr (f, e) ↦ rw (t.1, score_neighbour, e) h
          | inl e ↦ elim (Bool-cases (not (is_water G t.0) && not (has j to_check))) [
            | inr q ↦ rw (t.1, score_neighbour, e, q) h
            | inl q ↦
                rw (t.1, score_neighbour, e, q)
                  (λ k m. elim (has-insert k j s.potential m) [
                    | inl p ↦ rw p (lt, e, away)
                    | inr p ↦ h k p
                  ])
          ]
        ]

    score_at-Scored :
        (i : ℕ) (a : ℤ) (s : Score)
        → Scored weights s
        → Returns (Scored weights) (score_at G w ts weights to_check first i a s)
    unfolding score_at
    score_at-Scored i a s h = elim (Option-cases (checked (w * w) a)) [
      | inl e ↦ rw (e, score_at) h
      | inr (j, e) ↦ elim (Bool-cases (has j to_check)) [
        | inl f ↦ rw (e, f, score_at) h
        | inr f ↦
            rw (e, f, score_at) (score_neighbour-Scored i j s (checked-some (w * w) a j e).1 f h)
      ]
    ]

    score_tile-Scored :
        (i : ℕ) (as' : List ℤ) (s : Score)
        → Scored weights s
        → Returns (Scored weights) (score_tile G w ts weights to_check first i as' s)
    unfolding score_tile
    score_tile-Scored i [] s h = h
    score_tile-Scored i (a ∷ as') s h =
        Returns->>= (Scored weights) (Scored weights) (score_at G w ts weights to_check first i a s)
          _ (score_at-Scored i a s h) (λ s' h'. score_tile-Scored (i + 1) as' s' h')

  -- Growing changes nothing but the world and the numbers of `std::rand`.
  grow-IsSafe :
      (i : ℕ) (v : Wave)
      → i < area v.world
      → IsSafe v.world
      → (h : World) × (r : Random) × (grow G w (some faction) i v
          ≡ some (record v { world = h; random = r }))
        × KeptSafe v.world h
  unfolding grow
  grow-IsSafe i v lt safe =
      let t = get_elem?-some v.world.tiles i (rw (safe.ready.size) lt) in
      let u = G.env.set_terrtype t.0 (G.ground fertile) in
      let (g, written, kept) = write_tile-IsSafe v.world i u safe lt in
      let (p, planted, kept') =
        Returns-some _
          (attempt_plant_environment_object G (some faction) (G.temperature u) w i g v.random)
          (attempt_plant-IsSafe G g kept.0 faction (G.temperature u) w i v.random) in
      elim (Bool-cases (is_water G t.0 || G.terrtype t.0 == G.ground rock)) [
        | inl e ↦ (v.world, v.random, rw (t.1, grow, e) refl, (safe, refl))
        | inr e ↦ (p.0, p.1, rw (t.1, grow, e, written, planted) refl, (kept'.0, kept'.1 ∙ kept.1))
      ]

  -- The wave has found no tiles for the next, or has given a weight to a tile that had none.
  abbrev pub Progress : ℕ → Wave → Type 0
  Progress c v =
      ((v.new_tiles ≡ [])
        × ((i : ℕ) → has i to_check ≡ true → find i v.weights ≡ none)
        × (unweighted (w * w) v.weights ≤ c))
      ⊎ (unweighted (w * w) v.weights < c)

  abbrev pub InWave : ℕ → Wave → Type 0
  InWave c v =
      IsSafe v.world
      × (v.world.world_width ≡ w)
      × ((i : ℕ) → has i v.new_tiles ≡ true → Next v.weights i)
      × Progress c v

  still-Next :
      (i k f : ℕ) (weights : Dict ℕ ℕ)
      → has i to_check ≡ true
      → Next weights k
      → Next (put i f weights) k
  still-Next i k f weights mine (lt, bare, away) =
      (lt, find-put_bare k i f weights apart bare, away)
    where
      apart : k ≢ i
      apart e = ground (arith, mine, subst (λ j. has j to_check ≡ false) e away)

  put-Progress :
      (c i f : ℕ) (v : Wave)
      → has i to_check ≡ true
      → Progress c v
      → unweighted (w * w) (put i f v.weights) < c
  put-Progress c i f v mine (inl (none_yet, bare, le)) =
      omega (arith, put-unweighted_lt (w * w) i f v.weights (inside i mine) (bare i mine), le)
  put-Progress c i f v mine (inr lt) = omega (arith, put-unweighted (w * w) i f v.weights, lt)

  check_tile-InWave :
      (c i : ℕ) (v : Wave)
      → has i to_check ≡ true
      → InWave c v
      → Returns
          (λ u. InWave c u × (u.to_remove ≡ insert i v.to_remove))
          (check_tile G w (some faction) to_check first i v)
  unfolding check_tile
  check_tile-InWave c i v mine (safe, width, fresh, progress) =
      let size : length v.world.tiles ≡ w * w = safe.ready.size ∙ ap (λ n. n * n) width in
      let (s, scored, near) =
        Returns-some _
          (score_tile G w v.world.tiles v.weights to_check first 0 (adjacent_indices G w i)
            blank_score)
          (score_tile-Scored v.world.tiles size v.weights 0 (adjacent_indices G w i) blank_score
            (λ k m. absurd cc)) in
      let final_score = G.div s.score s.count in
      let grown : Wave = record v {
        weights = put i final_score v.weights;
        new_tiles = insert_all s.potential v.new_tiles;
      } in
      let (h, r, e, kept) = grow-IsSafe i grown (rw width (inside i mine)) safe in
      let joined : (k : ℕ) → has k grown.new_tiles ≡ true → Next grown.weights k = λ k m.
        still-Next i k final_score v.weights mine
          (elim (has-insert_all k s.potential v.new_tiles m) [
            | inl p ↦ near k p
            | inr p ↦ fresh k p
          ]) in
      elim (Bool-cases (G.less float_zero final_score)) [
        | inr q ↦ rw (scored, q, check_tile) ((safe, width, fresh, progress), refl)
        | inl q ↦
            rw (scored, q, e, check_tile)
              (
                (
                  kept.0,
                  kept.1 ∙ width,
                  joined,
                  inr (put-Progress c i final_score v mine progress),
                ),
                refl,
              )
      ]

  pub check_tiles-InWave :
      (c : ℕ) (is : List ℕ) (v : Wave)
      → ((i : ℕ) → has i is ≡ true → has i to_check ≡ true)
      → InWave c v
      → Returns
          (λ u.
            InWave c u
            × ((i : ℕ) → (has i is ≡ true) ⊎ (has i v.to_remove ≡ true) → has i u.to_remove ≡ true))
          (check_tiles G w (some faction) to_check first is v)
  unfolding check_tiles
  check_tiles-InWave c [] v mine h = (h, λ i m. elim m [ inl e ↦ absurd cc | inr e ↦ e ])
  check_tiles-InWave c (i ∷ is) v mine h =
      Returns->>= (λ u. InWave c u × (u.to_remove ≡ insert i v.to_remove)) _
        (check_tile G w (some faction) to_check first i v) _
        (check_tile-InWave c i v (mine i (rw ((==_iff i i).1 refl) refl)) h)
        (λ u k.
          Returns-weaken _ _ (check_tiles G w (some faction) to_check first is u)
            (check_tiles-InWave c is u (λ j m. mine j (ground arith)) k.0)
            (λ x g. (g.0, λ j m. g.1 j (walked u k.1 j m))))
    where
      walked :
          (u : Wave)
          → u.to_remove ≡ insert i v.to_remove
          → (j : ℕ) → (has j (i ∷ is) ≡ true) ⊎ (has j v.to_remove ≡ true)
          → (has j is ≡ true) ⊎ (has j u.to_remove ≡ true)
      walked u e j (inr m) = inr (rw e (insert-has j i v.to_remove (inr m)))
      walked u e j (inl m) = elim (Bool-cases (i == j)) [
        | inl q ↦ inr (rw e (insert-has j i v.to_remove (inl (sym ((==_iff i j).0 q)))))
        | inr q ↦ inl (ground arith)
      ]
