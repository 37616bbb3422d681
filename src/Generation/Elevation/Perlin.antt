-- ===== src/Generation/Elevation/Perlin.antt =====
-- Laws of noise: src/utils/Algorithm.cpp.
use native.Mathlib.Nat.{mod-lt, div-mul-le_self, le-div_iff_mul-le, pow-le-pow_right, one-le-pow}
use native.Mathlib.Numerals.{unary_clauses}
use proj8315server.Base.{
  ℕ, zero, suc, ◌+◌, ◌*◌, ◌/◌, ◌^◌, ◌≤◌, ◌<◌, ◌≡◌, refl, sym, ◌∙◌, inl, inr, false, Option, none,
  some, List, ◌==◌, ==_iff, length, length-set, get_elem?-some, lt→ltb, Bool-cases, Option-cases,
  replicate, pos, if◌then◌else◌, ◌>>=◌, arith, length-replicate,
}
use proj8315server.World.{store, float_zero, float_one}
use proj8315server.World.Loops.{for_count, Returns, Returns->>=, Returns-some}
use proj8315server.Generation.{Gen}
use proj8315server.Generation.Grid.{tile_index-inside, for_count-Steps, grid-Returns}
use proj8315server.Generation.Elevation.{
  Noise, Heights, sample, row_value, octave2, noise_at2, generate_perlin2d, float_max_value,
}

-- A round of a loop that has no result leaves none to the loop.
for_count-none {ℓ} :
    {S : Type ℓ} (body : ℕ → S → Option S) (k : ℕ)
    → ((s : S) → body k s ≡ none)
    → (n i : ℕ) (s : S) → i ≤ k
    → k < i + n
    → for_count i n body s ≡ none
unfolding for_count
for_count-none body k fails zero i s le lt = absurd (omega (arith, le, lt))
for_count-none body k fails (suc n) i s le lt = elim (Option-cases (body i s)) [
  | inl e ↦ rw (e, for_count)
  | inr (t, e) ↦ elim (Bool-cases (i == k)) [
    | inl same ↦
        let bad : none ≡ some t = sym (fails s) ∙ rw ((==_iff i k).0 same) at e in absurd cc
    | inr other ↦
        rw (e, for_count)
          (for_count-none body k fails n (i + 1) t (ground arith) (omega (arith, lt)))
  ]
]

unit_interval : (o octaves width : ℕ) → o < octaves → 2 ^ octaves ≤ 2 * width → 0 < width / 2 ^ o
unit_interval o octaves width lt le =
    let pow : 2 ^ suc o ≤ 2 ^ octaves = pow-le-pow_right (omega arith) lt in
    let double : 2 ^ suc o ≡ 2 ^ o * 2 = simp unary_clauses in
    (le-div_iff_mul-le (one-le-pow o 2 (omega arith))).1 (omega (arith, pow, double, le))

no_interval : (o width : ℕ) → width < 2 ^ o → width / 2 ^ o ≡ 0
no_interval o width lt = elim (Bool-cases (width / 2 ^ o == 0)) [
  | inl e ↦ (==_iff (width / 2 ^ o) 0).0 e
  | inr e ↦
      let least : 1 ≤ width / 2 ^ o = ground arith in
      absurd (omega (arith, (le-div_iff_mul-le (one-le-pow o 2 (omega arith))).0 least, lt))
]

module _ (G : Gen) (w : ℕ) where
  sample-Returns :
      (interval x : ℕ)
      → 0 < interval
      → x < w
      → Returns (λ s. (s.0 < w) × (s.1 < w)) (sample G w interval x)
  unfolding sample
  sample-Returns interval x some_cells lt =
      let first : (interval == 0) ≡ false = ground arith in
      let second : (w == 0) ≡ false = ground arith in
      rw (first, second, sample)
        (
          omega (arith, div-mul-le_self x interval, lt),
          mod-lt (x / interval * interval + interval) (omega (arith, lt)),
        )

  sample-none : (x : ℕ) → sample G w 0 x ≡ none
  unfolding sample
  sample-none x = refl

  abbrev pub Full : Heights → Type 0
  Full h = length h.result ≡ w * w

  module _ (seeds : List ℕ) (size : length seeds ≡ w * w) where
    row_value-Returns :
        (amount x1 x2 y : ℕ)
        → x1 < w
        → x2 < w
        → y < w
        → Returns (λ v. Unit {0}) (row_value G seeds w amount x1 x2 y)
    unfolding row_value
    row_value-Returns amount x1 x2 y h k l =
        let a = get_elem?-some seeds (x1 + y * w) (rw size (tile_index-inside w x1 y h l).1) in
        let b = get_elem?-some seeds (x2 + y * w) (rw size (tile_index-inside w x2 y k l).1) in
        rw (a.1, b.1, row_value) tt

    octave2-Returns :
        (scaling x y o : ℕ) (n : Noise)
        → 0 < w / 2 ^ o
        → x < w
        → y < w
        → Returns (λ n. Unit {0}) (octave2 G seeds w scaling x y o n)
    unfolding octave2
    octave2-Returns scaling x y o n cells h k =
        Returns->>= _ (λ n. Unit {0}) (sample G w (w / 2 ^ o) x) _
          (sample-Returns (w / 2 ^ o) x cells h)
          (λ s i.
            Returns->>= _ (λ n. Unit {0}) (sample G w (w / 2 ^ o) y) _
              (sample-Returns (w / 2 ^ o) y cells k)
              (λ t j.
                Returns->>= _ (λ n. Unit {0}) (row_value G seeds w s.2 s.0 s.1 t.0) _
                  (row_value-Returns s.2 s.0 s.1 t.0 i.0 i.1 j.0)
                  (λ top _.
                    Returns->>= _ (λ n. Unit {0}) (row_value G seeds w s.2 s.0 s.1 t.1) _
                      (row_value-Returns s.2 s.0 s.1 t.1 i.0 i.1 j.1) (λ bottom _. tt))))

    octave2-none :
        (scaling x y o : ℕ) (n : Noise) → w < 2 ^ o → octave2 G seeds w scaling x y o n ≡ none
    unfolding octave2
    octave2-none scaling x y o n narrow = rw (no_interval o w narrow, sample-none x, octave2)

    noise_at2-Returns :
        (octaves scaling x y : ℕ) (h : Heights)
        → 2 ^ octaves ≤ 2 * w
        → x < w
        → y < w
        → length h.result ≡ w * w
        → Returns Full (noise_at2 G seeds w octaves scaling x y h)
    unfolding noise_at2
    noise_at2-Returns octaves scaling x y h wide lt lt' sized =
        Returns->>= (λ n. Unit {0}) Full (for_count 0 octaves (octave2 G seeds w scaling x y) _) _
          (for_count-Steps (λ i n. Unit {0}) (octave2 G seeds w scaling x y) octaves
            (λ o n below _.
              octave2-Returns scaling x y o n (unit_interval o octaves w below wide) lt lt')
            octaves 0 _ (omega arith) tt)
          (λ n _. stored n)
      where
        stored :
            (n : Noise)
            → Returns Full (
                store h.result (pos (x + y * w)) (G.div n.value (G.of_int n.count)) >>= λ result.
                some (record {
                  result = result;
                  min_val =
                      if G.less (G.div n.value (G.of_int n.count)) h.min_val
                      then G.div n.value (G.of_int n.count)
                      else h.min_val;
                }))
        stored n =
            rw (lt→ltb (x + y * w) (length h.result) (rw sized (tile_index-inside w x y lt lt').1))
              (length-set h.result (x + y * w) _ ∙ sized)

-- Where the array of the seeds has its size and 2^(octaves - 1) is not above the width, making noise
-- ends without a fault: no index is outside its array and no division is by 0.
-- The result has as many numbers.
pub generate_perlin2d-ends :
    (G : Gen) (w octaves scaling : ℕ) (seeds : List ℕ)
    → length seeds ≡ w * w
    → 2 ^ octaves ≤ 2 * w
    → (h : Heights) × (generate_perlin2d G seeds w octaves scaling ≡ some h)
      × (length h.result ≡ w * w)
unfolding generate_perlin2d
generate_perlin2d-ends G w octaves scaling seeds size wide = Returns-some (Full G w) _ (
    grid-Returns (Full G w) w (noise_at2 G seeds w octaves scaling)
      (λ x y h lt lt' full. noise_at2-Returns G w seeds size octaves scaling x y h wide lt lt' full)
      (record { result = replicate (w * w) float_zero; min_val = float_max_value })
      (length-replicate (w * w) float_zero))

-- In a world of at least one tile that is narrower than 2^o, for an o below the number of octaves,
-- making noise is a fault: the division of the first coordinate by the interval 0.
pub generate_perlin2d-narrow :
    (G : Gen) (w octaves scaling o : ℕ) (seeds : List ℕ)
    → length seeds ≡ w * w
    → 0 < w
    → w < 2 ^ o
    → o < octaves
    → generate_perlin2d G seeds w octaves scaling ≡ none
unfolding generate_perlin2d noise_at2
generate_perlin2d-narrow G w octaves scaling o seeds size some_tiles narrow below =
    for_count-none _ 0
      (λ h. for_count-none _ 0 (λ k. first k) w 0 h (omega arith) (omega (arith, some_tiles))) w 0 _
      (omega arith) (omega (arith, some_tiles))
  where
    first : (k : Heights) → noise_at2 G seeds w octaves scaling 0 0 k ≡ none
    first k =
        let stops =
          for_count-none (octave2 G seeds w scaling 0 0) o
            (λ n. octave2-none G w seeds size scaling 0 0 o n narrow) octaves 0
            (record { value = float_zero; scale = float_one; count = pos 1 }) (omega arith)
            (omega (arith, below)) in
        rw (stops, noise_at2)
