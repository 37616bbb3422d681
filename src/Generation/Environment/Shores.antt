-- ===== src/Generation/Environment/Shores.antt =====
-- Laws of the shores of the water: src/game/world/EnvironmentGenerator.cpp.
use proj8315server.Base.{
  ℕ, ◌+◌, ◌*◌, ◌<◌, ◌≡◌, sym, ◌∙◌, ◌⊎◌, inl, inr, Bool, true, false, none, some, List, [], ◌==◌,
  ==_iff, length, get_elem?, get_elem?-some, Bool-cases, Option-cases, ℤ, pos, ◌-ℤ◌, Dict, find,
  put, find-put, arith, subst,
}
use proj8315server.World.{tile_index, checked}
use proj8315server.World.Loops.{for_range-Returns, Returns, Returns-weaken}
use proj8315server.World.Safety.{checked-some}
use proj8315server.Water.{number_eq}
use proj8315server.Generation.{Gen}
use proj8315server.Generation.Grid.{tile_index-inside, grid-Returns}
use proj8315server.Generation.Environment.{Shore, has, is_water, shore_at, shore_of, find_shores}
use proj8315server.Generation.Environment.Planting.{has-insert}

module _ (G : Gen) (w : ℕ) (ts : List ℕ) (size : length ts ≡ w * w) (sizes : Dict ℕ ℕ)
    (pooled : (i t : ℕ)
      → get_elem? ts i ≡ some t
      → is_water G t ≡ true
      → (n : ℕ) × (find i sizes ≡ some n)) where
  -- Tile i is of water, or not.
  abbrev IsWet : Bool → ℕ → Type 0
  IsWet b i = (t : ℕ) × (get_elem? ts i ≡ some t) × (is_water G t ≡ b)

  -- Only water has weights, and only ground of the array is to be checked.
  abbrev Lined : Shore → Type 0
  Lined s =
      ((i n : ℕ) → find i s.weights ≡ some n → IsWet true i)
      × ((i : ℕ) → has i s.to_check ≡ true → (i < w * w) × IsWet false i)

  put-Lined :
      (i v : ℕ) (s : Shore)
      → IsWet true i
      → Lined s
      → Lined (record s { weights = put i v s.weights })
  put-Lined i v s wet h = (λ j n e. weighted j n (Bool-cases (i == j)) e, h.1)
    where
      weighted :
          (j n : ℕ)
          → ((i == j) ≡ true) ⊎ ((i == j) ≡ false)
          → find j (put i v s.weights) ≡ some n
          → IsWet true j
      weighted j n (inl f) e = rw (← (==_iff i j).0 f) wet
      weighted j n (inr f) e = h.0 j n (rw (find-put i j v s.weights, f) at e)

  shore_at-Lined :
      (i : ℕ) (y2 x2 : ℤ) (s : Shore)
      → IsWet true i
      → Lined s
      → Returns Lined (shore_at G w ts sizes i y2 x2 s)
  unfolding shore_at
  shore_at-Lined i y2 x2 s wet h = elim (Option-cases (checked (w * w) (tile_index w x2 y2))) [
    | inl e ↦ rw (e, shore_at) h
    | inr (j, e) ↦
        let at = checked-some (w * w) (tile_index w x2 y2) j e in
        let t = get_elem?-some ts j (rw size at.1) in
        elim (Bool-cases (is_water G t.0)) [
          | inl f ↦
              let n = pooled i wet.0 wet.1 wet.2 in
              rw (e, t.1, shore_at, f, n.1) (put-Lined i _ s wet h)
          | inr f ↦
              rw (e, t.1, shore_at, f)
                (
                  h.0,
                  λ k m. elim (has-insert k j s.to_check m) [
                    | inl q ↦ rw q (at.1, (t.0, t.1, f))
                    | inr q ↦ h.1 k q
                  ],
                )
        ]
  ]

  shore_of-Lined :
      (y x : ℕ) (s : Shore) → y < w → x < w → Lined s → Returns Lined (shore_of G w ts sizes y x s)
  unfolding shore_of
  shore_of-Lined y x s below beside h =
      let i = x + y * w in
      let t = get_elem?-some ts i (rw size (tile_index-inside w x y beside below).1) in
      elim (Bool-cases (is_water G t.0)) [
        | inr f ↦ rw (t.1, shore_of, f) h
        | inl f ↦
            let wet : IsWet true i = (t.0, t.1, f) in
            rw (t.1, shore_of, f)
              (for_range-Returns Lined _
                (λ y2 l k.
                  for_range-Returns Lined _ (λ x2 m g. shore_at-Lined i y2 x2 m wet g) 3
                    (pos x -ℤ pos 1) l k)
                3 (pos y -ℤ pos 1) _ (put-Lined i _ s wet h))
      ]

  -- The first wave is of ground without a weight.
  pub find_shores-Lined :
      Returns
        (λ s. (i : ℕ) → has i s.to_check ≡ true → (i < w * w) × (find i s.weights ≡ none))
        (find_shores G w ts sizes [])
  unfolding find_shores find
  find_shores-Lined =
      Returns-weaken Lined _ (find_shores G w ts sizes [])
        (grid-Returns Lined w (shore_of G w ts sizes)
          (λ y x s lt lt' h. shore_of-Lined y x s lt lt' h) (record { weights = []; to_check = [] })
          ((λ i n e. absurd (empty i n e)), (λ i e. absurd cc)))
        (λ s h i m. ((h.1 i m).0, bare s h i m (Option-cases (find i s.weights))))
    where
      empty : (i n : ℕ) → find i [] ≡ some n → ⊥
      empty i n e = cc

      bare :
          (s : Shore)
          → Lined s
          → (i : ℕ) → has i s.to_check ≡ true
          → (find i s.weights ≡ none) ⊎ ((n : ℕ) × (find i s.weights ≡ some n))
          → find i s.weights ≡ none
      bare s h i m (inl e) = e
      bare s h i m (inr (n, e)) =
          let (t, at, wet) = h.0 i n e in
          let (u, at', dry) = (h.1 i m).1 in
          let same : some t ≡ some u = sym at ∙ at' in
          let eq : t ≡ u = cc in
          absurd (ground (arith, wet, subst (λ v. is_water G v ≡ false) (sym eq) dry))
