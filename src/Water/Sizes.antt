-- ===== src/Water/Sizes.antt =====
-- The tiles of water and the sizes of their pools: src/game/world/WaterGenerator.cpp.
use proj8315server.Base.{
  ℕ, ◌≡◌, ◌≢◌, sym, ◌∙◌, ◌⊎◌, inl, inr, Bool, true, false, none, some, List, [], ◌∷◌, length,
  get_elem?, set, get_elem?-set_ne, ltb, ◌==◌, Bool-cases, Option-cases, pos, Dict, find, put,
  find-put, arith,
}
use proj8315server.World.{Env}
use proj8315server.Water.{
  Node, visited_before, fill, water_height, record_sizes, generate_water_area,
  generate_world_waters, number_eq,
}

-- Filling leaves every other tile as it is.
fill-other :
    (E : Env) (water h i : ℕ) (vs tiles us : List ℕ)
    → visited_before (pos i) vs ≡ false
    → fill E water h vs tiles ≡ some us
    → get_elem? us i ≡ get_elem? tiles i
unfolding fill visited_before
fill-other E water h i [] tiles us away e = let same : tiles ≡ us = cc in rw same
fill-other E water h i (v ∷ vs) tiles us away e = elim (Option-cases (get_elem? tiles v)) [
  | inl f ↦ let bad : none ≡ some us = rw f at e in absurd cc
  | inr (t, f) ↦ elim (Bool-cases (ltb v (length tiles))) [
    | inr q ↦ let bad : none ≡ some us = rw (f, q) at e in absurd cc
    | inl q ↦
        let apart : v ≢ i = ground arith in
        let rest : visited_before (pos i) vs ≡ false = ground arith in
        fill-other E water h i vs (set tiles v _) us rest (rw (f, q) at e)
        ∙ get_elem?-set_ne tiles v i _ apart
  ]
]

-- A size that is known stays known, and the tiles of the pool get theirs.
record_sizes-known :
    (size i : ℕ) (vs : List ℕ) (sizes : Dict ℕ ℕ)
    → (visited_before (pos i) vs ≡ true) ⊎ ((n : ℕ) × (find i sizes ≡ some n))
    → (n : ℕ) × (find i (record_sizes size vs sizes) ≡ some n)
unfolding record_sizes visited_before
record_sizes-known size i [] sizes (inl e) = absurd cc
record_sizes-known size i [] sizes (inr h) = h
record_sizes-known size i (v ∷ vs) sizes h =
    record_sizes-known size i vs (put v size sizes) (elim (Bool-cases (v == i)) [
      | inl e ↦ inr (size, rw (find-put v i size sizes, e))
      | inr e ↦ elim h [
        | inl m ↦ inl (rw e at m)
        | inr (n, f) ↦ inr (n, rw (find-put v i size sizes, e) f)
      ]
    ])

-- Every tile of water has the size of its pool.
abbrev pub Pooled : (ℕ → Bool) → List ℕ → Dict ℕ ℕ → Type 0
Pooled is_water ts sizes =
    (i t : ℕ) → get_elem? ts i ≡ some t → is_water t ≡ true → (n : ℕ) × (find i sizes ≡ some n)

filled-Pooled :
    (E : Env) (is_water : ℕ → Bool) (water h size : ℕ) (vs ts us : List ℕ) (sizes : Dict ℕ ℕ)
    → Pooled is_water ts sizes
    → fill E water h vs ts ≡ some us
    → Pooled is_water us (record_sizes size vs sizes)
filled-Pooled E is_water water h size vs ts us sizes known e i t at wet =
    record_sizes-known size i vs sizes (elim (Bool-cases (visited_before (pos i) vs)) [
      | inl m ↦ inl m
      | inr m ↦ inr (known i t (sym (fill-other E water h i vs ts us m e) ∙ at) wet)
    ])

-- If every tile of water has the size of its pool before pools are made, at any places and with
-- any fuel, and they are made without a fault, then every tile of water has the size of its pool
-- after them.
pub generate_world_waters-Pooled :
    (E : Env) (is_water : ℕ → Bool) (water w fuel : ℕ) (starts : List Node) (ts us : List ℕ)
    (sizes sizes' : Dict ℕ ℕ)
    → Pooled is_water ts sizes
    → generate_world_waters E water w fuel starts ts sizes ≡ some (some (us, sizes'))
    → Pooled is_water us sizes'
unfolding generate_world_waters
generate_world_waters-Pooled E is_water water w fuel [] ts us sizes sizes' h e =
    let same : ts ≡ us = cc in let same' : sizes ≡ sizes' = cc in rw (← same, ← same') h
generate_world_waters-Pooled E is_water water w fuel (start ∷ starts) ts us sizes sizes' h e =
    elim (Option-cases (generate_water_area E w ts fuel start none)) [
      | inl f ↦
          let bad : none ≡ some (some (us, sizes')) = rw (f, generate_world_waters) at e in
          absurd cc
      | inr (none, f) ↦
          let bad : some none ≡ some (some (us, sizes')) = rw (f, generate_world_waters) at e in
          absurd cc
      | inr (some p, f) ↦ elim (Option-cases (fill E water (water_height p.level) p.visited ts)) [
        | inl q ↦
            let bad : none ≡ some (some (us, sizes')) = rw (f, q, generate_world_waters) at e in
            absurd cc
        | inr (ts', q) ↦
            generate_world_waters-Pooled E is_water water w fuel starts ts' us
              (record_sizes (length p.visited) p.visited sizes) sizes'
              (filled-Pooled E is_water water (water_height p.level) (length p.visited) p.visited ts
                ts' sizes h q)
              (rw (f, q, generate_world_waters) at e)
      ]
    ]
