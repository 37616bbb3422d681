-- ===== src/Generation/Environment/Laws.antt =====
-- Laws of the environment: src/game/world/EnvironmentGenerator.cpp.
use proj8315server.Base.{
  ℕ, zero, suc, ◌+◌, ◌*◌, ◌<◌, ◌≡◌, refl, sym, ap, ◌∙◌, ◌⊎◌, inl, inr, Bool, true, false, none,
  some, List, [], ◌∷◌, ==_iff, get_elem?, Dict, find, String, arith,
}
use proj8315server.World.{World}
use proj8315server.World.Loops.{Returns, Returns-some, Returns->>=}
use proj8315server.World.Frames.{IsSafe}
use proj8315server.World.Spawning.{KeptSafe}
use proj8315server.Water.{number_eq}
use proj8315server.Generation.{Gen, Random}
use proj8315server.Generation.Environment.{has, insert_all, erase_all, is_water, find_shores}
use proj8315server.Generation.Environment.Growth.{Wave, check_tiles, spread, generate_environment}
use proj8315server.Generation.Environment.Planting.{has-insert_all, has-erase_all}
use proj8315server.Generation.Environment.Shores.{find_shores-Lined}
use proj8315server.Generation.Environment.Weights.{unweighted, unweighted-le}
use proj8315server.Generation.Environment.Waves.{Progress, check_tiles-InWave}

-- `std::unordered_set` is walked over its members.
abbrev pub WalkLaw : Gen → Type 0
WalkLaw G = (i : ℕ) (us : List ℕ) → has i (G.walk us) ≡ has i us

no_members : (us : List ℕ) → ((i : ℕ) → has i us ≡ true → ⊥) → us ≡ []
no_members [] h = refl
no_members (u ∷ us) h = absurd (h u (rw ((==_iff u u).1 refl) refl))

module _ (G : Gen) (walk : WalkLaw G) (w : ℕ) (faction : String) where
  -- The tiles of a wave, in the array and without a weight.
  abbrev Ready : List ℕ → Dict ℕ ℕ → Type 0
  Ready to_check weights = (i : ℕ) → has i to_check ≡ true → (i < w * w) × (find i weights ≡ none)

  abbrev next_wave : Wave → List ℕ → List ℕ
  next_wave v to_check = erase_all v.to_remove (insert_all v.new_tiles to_check)

  -- What is left to check after a wave are its new tiles.
  next_wave-new :
      (v : Wave) (to_check : List ℕ)
      → ((i : ℕ) → has i to_check ≡ true → has i v.to_remove ≡ true)
      → (i : ℕ) → has i (next_wave v to_check) ≡ true
      → has i v.new_tiles ≡ true
  next_wave-new v to_check removed i m =
      let r = has-erase_all i v.to_remove (insert_all v.new_tiles to_check) m in
      elim (has-insert_all i v.new_tiles to_check r.0) [
        | inl e ↦ e
        | inr e ↦ absurd (ground (arith, removed i e, r.1))
      ]

  goes_on :
      (fuel c : ℕ) (first : Bool) (v : Wave) (to_check : List ℕ)
      → (inside : (i : ℕ) → has i to_check ≡ true → i < w * w)
      → ((j : ℕ) → has j to_check ≡ true → has j v.to_remove ≡ true)
      → c < fuel
      → Progress G w faction to_check first inside c v
      → (next_wave v to_check ≡ []) × (0 < fuel) ⊎ (unweighted (w * w) v.weights + 1 < fuel)
  goes_on fuel c first v to_check inside removed lt (inl (none_yet, bare, le)) = inl (
    no_members (next_wave v to_check)
        (λ j m. let new = rw none_yet at (next_wave-new v to_check removed j m) in absurd cc),
    omega (arith, lt),
  )
  goes_on fuel c first v to_check inside removed lt (inr fewer) = inr (omega (arith, fewer, lt))

  -- A safe world of the width.
  abbrev Fine : World × Random → Type 0
  Fine p = IsSafe p.0 × (p.0.world_width ≡ w)

  spread-IsSafe :
      (fuel : ℕ) (first : Bool) (to_check : List ℕ) (g : World) (r : Random) (weights : Dict ℕ ℕ)
      → IsSafe g
      → g.world_width ≡ w
      → Ready to_check weights
      → (to_check ≡ []) × (0 < fuel) ⊎ (unweighted (w * w) weights + 1 < fuel)
      → Returns (Returns Fine) (spread G w fuel (some faction) first to_check g r weights)
  unfolding spread
  spread-IsSafe zero first to_check g r weights safe width ready (inl h) =
      absurd (omega (arith, h.1))
  spread-IsSafe zero first to_check g r weights safe width ready (inr lt) =
      absurd (omega (arith, lt))
  spread-IsSafe (suc fuel) first [] g r weights safe width ready enough = (safe, width)
  spread-IsSafe (suc fuel) first (i ∷ is) g r weights safe width ready (inl h) = absurd cc
  spread-IsSafe (suc fuel) first (i ∷ is) g r weights safe width ready (inr lt) =
      let to_check = i ∷ is in
      let start : Wave = record {
        world = g;
        random = r;
        weights = weights;
        new_tiles = [];
        to_remove = [];
      } in
      let inside : (j : ℕ) → has j to_check ≡ true → j < w * w = λ j m. (ready j m).0 in
      Returns->>= _ (Returns Fine)
        (check_tiles G w (some faction) to_check first (G.walk to_check) start) _
        (check_tiles-InWave G w faction to_check first inside (unweighted (w * w) weights)
          (G.walk to_check) start (λ j m. sym (walk j to_check) ∙ m)
          (safe, width, (λ j m. absurd cc), inl (refl, (λ j m. (ready j m).1), omega arith)))
        (λ v k.
          let inv = k.0 in
          let all_removed : (j : ℕ) → has j to_check ≡ true → has j v.to_remove ≡ true =
            λ j m. k.1 j (inl (walk j to_check ∙ m)) in
          spread-IsSafe fuel false (next_wave v to_check) v.world v.random v.weights inv.0 inv.1
            (λ j m. let n = inv.2 j (next_wave-new v to_check all_removed j m) in (n.0, n.1))
            (goes_on fuel (unweighted (w * w) weights) first v to_check inside all_removed
              (omega (arith, lt)) inv.3))

  generate_environment-Fine :
      (fuel : ℕ) (manager : Bool) (sizes : Dict ℕ ℕ) (g : World) (r : Random)
      → IsSafe g
      → g.world_width ≡ w
      → ((i t : ℕ)
          → get_elem? g.tiles i ≡ some t
          → is_water G t ≡ true
          → (n : ℕ) × (find i sizes ≡ some n))
      → w * w + 1 < fuel
      → Returns (Returns Fine) (generate_environment G w fuel (some faction) manager sizes [] g r)
  unfolding generate_environment
  generate_environment-Fine fuel false sizes g r safe width pooled enough = (safe, width)
  generate_environment-Fine fuel true sizes g r safe width pooled enough =
      Returns->>= _ (Returns Fine) (find_shores G w g.tiles sizes []) _
        (find_shores-Lined G w g.tiles (safe.ready.size ∙ ap (λ n. n * n) width) sizes pooled)
        (λ s ready.
          spread-IsSafe fuel true s.to_check g r s.weights safe width ready
            (inr (omega (arith, unweighted-le (w * w) s.weights, enough))))

-- Where `std::unordered_set` is walked over its members, in a safe world in which every tile of water
-- has the size of its pool, with a neutral faction, no weights from before and fuel for w * w + 2
-- waves, making the environment ends without a fault, in a safe world of the same width.
pub generate_environment-IsSafe :
    (G : Gen) (w fuel : ℕ) (faction : String) (manager : Bool) (sizes : Dict ℕ ℕ) (g : World)
    (r : Random)
    → WalkLaw G
    → IsSafe g
    → g.world_width ≡ w
    → ((i t : ℕ)
        → get_elem? g.tiles i ≡ some t
        → is_water G t ≡ true
        → (n : ℕ) × (find i sizes ≡ some n))
    → w * w + 1 < fuel
    → (h : World) × (r' : Random) × (generate_environment G w fuel
          (some faction)
          manager
          sizes
          []
          g
          r
        ≡ some (some (h, r')))
      × KeptSafe g h
generate_environment-IsSafe G w fuel faction manager sizes g r walk safe width pooled enough =
    let (o, e, fine) = Returns-some (Returns (Fine G walk w faction)) _ (
      generate_environment-Fine G walk w faction fuel manager sizes g r safe width pooled enough) in
    let (p, f, kept) = Returns-some (Fine G walk w faction) o fine in
    (p.0, p.1, e ∙ ap some f, (kept.0, kept.1 ∙ sym width))
