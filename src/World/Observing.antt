-- ===== src/World/Observing.antt =====
-- What an observer is sent: the tiles of the square around its user (src/game/Game.cpp,
-- Game::getWorldState).
use mathlib.Core.List.{append_assoc, append-nil}
use native.Mathlib.Nat.{mul-le-mul_right}
use proj8315server.Base.{
  ℕ, zero, suc, ◌+◌, ◌-◌, ◌*◌, ◌≤◌, ◌<◌, ◌≡◌, refl, sym, ap, ◌∙◌, true, false, ◌&&◌, none, some,
  List, [], ◌∷◌, ◌++◌, length, length-append, set, get_elem?-some, replicate, ltb, lt→ltb,
  Bool-cases, inl, inr, ℤ, pos, negsuc, ◌+ℤ◌, ◌-ℤ◌, +ℤ_pos, *ℤ_pos, if◌then◌else◌, arith,
}
use proj8315server.World.{World, area, tile_index, load}
use proj8315server.World.Loops.{for_range}
use proj8315server.World.Snapshot.{below_width, Buffer, copy_tile, copy_rows, get_world_state}

-- The tile at a place, or 0 beside the world.
abbrev pub seen : World → ℤ → ℤ → ℕ
seen g x z =
    if below_width g x && below_width g z
    then elim (load g.tiles (tile_index g.world_width x z)) [ none ↦ 0 | some t ↦ t ]
    else 0

-- The n tiles of a row from a place on, and m such rows.
abbrev pub row : World → ℤ → ℤ → ℕ → List ℕ
row g x z zero = []
row g x z (suc n) = seen g x z ∷ row g (x +ℤ pos 1) z n

abbrev pub rows : World → ℤ → ℤ → ℕ → ℕ → List ℕ
rows g x z n zero = []
rows g x z n (suc m) = row g x z n ++ rows g x (z +ℤ pos 1) n m

-- A buffer whose first slots are written.
abbrev fresh : List ℕ → ℕ → Buffer
fresh ws k = (ws ++ replicate k 0, length ws)

length-row : (g : World) (x z : ℤ) (n : ℕ) → length (row g x z n) ≡ n
length-row g x z zero = refl
length-row g x z (suc n) = ap suc (length-row g (x +ℤ pos 1) z n)

set-append : (ws ys : List ℕ) (y t : ℕ) → set (ws ++ y ∷ ys) (length ws) t ≡ (ws ++ t ∷ []) ++ ys
set-append [] ys y t = refl
set-append (w ∷ ws) ys y t = ap (λ v. w ∷ v) (set-append ws ys y t)

skip-append : (ws ys : List ℕ) (y : ℕ) → ws ++ y ∷ ys ≡ (ws ++ y ∷ []) ++ ys
skip-append [] ys y = refl
skip-append (w ∷ ws) ys y = ap (λ v. w ∷ v) (skip-append ws ys y)

module _ (g : World) (size : length g.tiles ≡ area g) where
  -- A place with both coordinates in the world has a tile.
  tile_at :
      (x z : ℤ)
      → (below_width g x && below_width g z) ≡ true
      → (t : ℕ) × (load g.tiles (tile_index g.world_width x z) ≡ some t)
  unfolding tile_index
  tile_at (negsuc i) z h = absurd cc
  tile_at (pos i) (negsuc j) h = absurd (ground arith)
  tile_at (pos i) (pos j) h =
      let w = g.world_width in
      let here : i < w = ground arith in
      let there : j < w = ground arith in
      let within : suc j * w ≤ w * w = mul-le-mul_right w there in
      let step : suc j * w ≡ j * w + w = grind arith in
      let inside : i + j * w < length g.tiles = omega (arith, size, step, within) in
      let t = get_elem?-some g.tiles (i + j * w) inside in
      (t.0, rw (*ℤ_pos j w, +ℤ_pos i (j * w)) t.1)

  copied :
      (x z : ℤ) (ws : List ℕ) (n : ℕ)
      → copy_tile g z x (fresh ws (suc n))
        ≡ some ((ws ++ seen g x z ∷ []) ++ replicate n 0, length ws + 1)
  unfolding copy_tile
  copied x z ws n = elim (Bool-cases (below_width g x && below_width g z)) [
    | inr e ↦
        rw (e, copy_tile) (ap (λ v. some (v, length ws + 1)) (skip-append ws (replicate n 0) 0))
    | inl e ↦
        let t = tile_at x z e in
        let room : length ws < length (ws ++ 0 ∷ replicate n 0) =
          omega (arith, length-append ws (0 ∷ replicate n 0)) in
        rw (e, t.1, copy_tile, lt→ltb (length ws) (length (ws ++ 0 ∷ replicate n 0)) room)
          (ap (λ v. some (v, length ws + 1)) (set-append ws (replicate n 0) 0 t.0))
  ]

  copy_tile-append :
      (x z : ℤ) (ws : List ℕ) (n : ℕ)
      → copy_tile g z x (fresh ws (suc n)) ≡ some (fresh (ws ++ seen g x z ∷ []) n)
  copy_tile-append x z ws n =
      copied x z ws n
      ∙ ap (λ l. some ((ws ++ seen g x z ∷ []) ++ replicate n 0, l))
          (sym (length-append ws (seen g x z ∷ [])))

  row-append :
      (n k t : ℕ) (x z : ℤ) (ws : List ℕ)
      → t ≡ n + k
      → for_range x n (copy_tile g z) (fresh ws t) ≡ some (fresh (ws ++ row g x z n) k)
  unfolding for_range
  row-append zero k t x z ws e = let same : t ≡ k = omega arith in rw (same, append-nil ws)
  row-append (suc n) k zero x z ws e = absurd (omega arith)
  row-append (suc n) k (suc t) x z ws e = rw (copy_tile-append x z ws t) (
      row-append n k t (x +ℤ pos 1) z (ws ++ seen g x z ∷ []) (omega arith)
      ∙ ap (λ v. some (fresh v k)) (sym (skip-append ws (row g (x +ℤ pos 1) z n) (seen g x z))))

  rows-append :
      (m n k t : ℕ) (x z : ℤ) (ws : List ℕ)
      → t ≡ m * n + k
      → for_range z m (λ j. for_range x n (copy_tile g j)) (fresh ws t)
        ≡ some (fresh (ws ++ rows g x z n m) k)
  unfolding for_range
  rows-append zero n k t x z ws e = let same : t ≡ k = omega arith in rw (same, append-nil ws)
  rows-append (suc m) n k t x z ws e =
      let step : suc m * n ≡ n + m * n = grind arith in
      rw (row-append n (m * n + k) t x z ws (omega (arith, step))) (
        rows-append m n k (m * n + k) x (z +ℤ pos 1) (ws ++ row g x z n) refl
        ∙ ap (λ v. some (fresh v k)) (append_assoc ws (row g x z n) (rows g x (z +ℤ pos 1) n m)))

-- Where the tile array has its size and the buffer has a slot for every tile of the square, the
-- message of an observer is built without a fault: it holds the rows of the square from the lowest
-- coordinates on, each tile of the world in its slot, 0 for each place beside the world, and 0 in
-- the slots behind the square.
pub get_world_state_lem :
    (g : World) (slots r rest : ℕ) (x z : ℤ)
    → length g.tiles ≡ area g
    → slots ≡ (r + r + 1) * (r + r + 1) + rest
    → get_world_state slots g x z (pos r)
      ≡ some (record {
        center_x = x;
        center_z = z;
        observed = rows g (x -ℤ pos r) (z -ℤ pos r) (r + r + 1) (r + r + 1) ++ replicate rest 0;
      })
unfolding get_world_state copy_rows
get_world_state_lem g slots r rest x z size fits = rw (
  rows-append g size (r + r + 1) (r + r + 1) rest slots (x -ℤ pos r) (z -ℤ pos r) [] fits,
  get_world_state,
)

module _ (g : World) (size : length g.tiles ≡ area g) where
  full :
      (a b : ℕ) (ws : List ℕ)
      → a < g.world_width
      → b < g.world_width
      → copy_tile g (pos b) (pos a) (fresh ws 0) ≡ none
  unfolding copy_tile
  full a b ws ha hb =
      let visible : (below_width g (pos a) && below_width g (pos b)) ≡ true = ground arith in
      let t = tile_at g size (pos a) (pos b) visible in
      let beyond : ltb (length ws) (length (ws ++ [])) ≡ false =
        let nil : List ℕ = [] in ground (arith, length-append ws nil) in
      rw (visible, t.1, copy_tile, beyond)

  row-full :
      (n t a b : ℕ) (ws : List ℕ)
      → t < n
      → a + n ≤ g.world_width
      → b < g.world_width
      → for_range (pos a) n (copy_tile g (pos b)) (fresh ws t) ≡ none
  unfolding for_range
  row-full zero t a b ws lt ha hb = absurd (omega arith)
  row-full (suc n) zero a b ws lt ha hb = rw (full a b ws (omega arith) hb)
  row-full (suc n) (suc t) a b ws lt ha hb =
      rw (copy_tile-append g size (pos a) (pos b) ws t, +ℤ_pos a 1)
        (row-full n t (a + 1) b (ws ++ seen g (pos a) (pos b) ∷ []) (omega arith) (omega arith) hb)

  rows-full :
      (m n t a b : ℕ) (ws : List ℕ)
      → t < m * n
      → a + n ≤ g.world_width
      → b + m ≤ g.world_width
      → for_range (pos b) m (λ j. for_range (pos a) n (copy_tile g j)) (fresh ws t) ≡ none
  unfolding for_range
  rows-full zero n t a b ws lt ha hb = absurd (omega arith)
  rows-full (suc m) n t a b ws lt ha hb = elim (Bool-cases (ltb t n)) [
    | inl e ↦ rw (row-full n t a b ws (ground arith) ha (omega arith))
    | inr e ↦
        let rest = t - n in
        let split : t ≡ n + rest = ground arith in
        let step : suc m * n ≡ n + m * n = grind arith in
        rw (row-append g size n rest t (pos a) (pos b) ws split, +ℤ_pos b 1)
          (rows-full m n rest a (b + 1) (ws ++ row g (pos a) (pos b) n) (omega (arith, step, split))
            ha (omega arith))
  ]

back : (p q : ℕ) → pos (p + q) -ℤ pos q ≡ pos p
unfolding ◌-ℤ◌
back p q = ground arith

-- Where the tile array has its size, the square lies in the world and it has more tiles than the
-- buffer has slots, building the message is a fault: it writes behind the buffer.
pub get_world_state-overflow :
    (g : World) (slots r a b : ℕ)
    → length g.tiles ≡ area g
    → slots < (r + r + 1) * (r + r + 1)
    → a + (r + r + 1) ≤ g.world_width
    → b + (r + r + 1) ≤ g.world_width
    → get_world_state slots g (pos (a + r)) (pos (b + r)) (pos r) ≡ none
unfolding get_world_state copy_rows
get_world_state-overflow g slots r a b size few ha hb = rw (
  back a r,
  back b r,
  rows-full g size (r + r + 1) (r + r + 1) slots a b [] few ha hb,
  get_world_state,
)
