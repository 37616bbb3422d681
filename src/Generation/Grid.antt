-- ===== src/Generation/Grid.antt =====
-- Loops over the rows and columns of the world, which all the generators have.
use native.Mathlib.Nat.{mul-le-mul_right}
use proj8315server.Base.{
  ℕ, zero, suc, ◌+◌, ◌*◌, ◌≤◌, ◌<◌, ◌≡◌, refl, subst, arith, Option, some, pos, +ℤ_pos, *ℤ_pos,
}
use proj8315server.World.{tile_index}
use proj8315server.World.Loops.{for_count, Returns, Returns->>=}

-- The place of a row and a column below the width is in the array.
pub tile_index-inside :
    (w x y : ℕ)
    → x < w
    → y < w
    → (tile_index w (pos x) (pos y) ≡ pos (x + y * w)) × (x + y * w < w * w)
unfolding tile_index
tile_index-inside w x y h k =
    let within : suc y * w ≤ w * w = mul-le-mul_right w k in
    let step : suc y * w ≡ y * w + w = grind arith in
    (rw (*ℤ_pos y w, +ℤ_pos x (y * w)) refl, omega (arith, step, within))

-- The rule of a loop whose body is run on numbers below its end, with an invariant of the rounds.
pub for_count-Steps {ℓ} :
    {S : Type ℓ} (P : ℕ → S → Type 0) (body : ℕ → S → Option S) (end : ℕ)
    → ((i : ℕ) (s : S) → i < end → P i s → Returns (P (suc i)) (body i s))
    → (n i : ℕ) (s : S) → i + n ≡ end
    → P i s
    → Returns (P end) (for_count i n body s)
unfolding for_count
for_count-Steps P body end keep zero i s e h = subst (λ m. Returns (P m) (some s)) (omega arith) h
for_count-Steps P body end keep (suc n) i s e h =
    Returns->>= (P (suc i)) (P end) (body i s) _ (keep i s (omega arith) h) (λ t ht.
      for_count-Steps P body end keep n (i + 1) t (omega arith)
        (subst (λ m. P m t) (omega arith) ht))

-- The rule of the two loops over the world.
pub grid-Returns {ℓ} :
    {S : Type ℓ} (P : S → Type 0) (w : ℕ) (body : ℕ → ℕ → S → Option S)
    → ((y x : ℕ) (s : S) → y < w → x < w → P s → Returns P (body y x s))
    → (s : S) → P s
    → Returns P (for_count 0 w (λ y. for_count 0 w (body y)) s)
grid-Returns P w body keep s h =
    for_count-Steps (λ i. P) (λ y. for_count 0 w (body y)) w
      (λ y t lt k.
        for_count-Steps (λ i. P) (body y) w (λ x u lt' g. keep y x u lt lt' g) w 0 t (omega arith)
          k)
      w 0 s (omega arith) h

-- The same with an invariant of the number of tiles that were visited.
pub grid-Steps {ℓ} :
    {S : Type ℓ} (P : ℕ → S → Type 0) (w : ℕ) (body : ℕ → ℕ → S → Option S)
    → ((y x : ℕ) (s : S)
        → y < w
        → x < w
        → P (x + y * w) s
        → Returns (P (suc (x + y * w))) (body y x s))
    → (s : S) → P 0 s
    → Returns (P (w * w)) (for_count 0 w (λ y. for_count 0 w (body y)) s)
grid-Steps P w body keep s h =
    for_count-Steps (λ y. P (y * w)) (λ y. for_count 0 w (body y)) w
      (λ y t lt k.
        subst (λ m. Returns (P m) (for_count 0 w (body y) t)) (next y)
          (for_count-Steps (λ x. P (x + y * w)) (body y) w
            (λ x u lt' g. subst (λ m. Returns (P m) (body y x u)) (step x y) (keep y x u lt lt' g))
            w 0 t (omega arith) (subst (λ m. P m t) (omega arith) k)))
      w 0 s (omega arith) (subst (λ m. P m s) (omega arith) h)
  where
    step : (x y : ℕ) → suc (x + y * w) ≡ suc x + y * w
    step x y = omega arith

    next : (y : ℕ) → w + y * w ≡ suc y * w
    next y = grind arith
