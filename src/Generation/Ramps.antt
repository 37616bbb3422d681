-- ===== src/Generation/Ramps.antt =====
-- Ramps in cliffs: `create_ramp` of src/game/world/ElevationGenerator.cpp. A list of eight stands
-- for each of its arrays; `none` is an access outside an array.
pub mod Arrays
pub mod Bounds
use proj8315server.Base.{
  ℕ, zero, suc, ◌+◌, ◌-◌, ◌*◌, ◌/◌, Bool, true, false, ◌&&◌, ◌||◌, not, Option, none, some, List,
  [], ◌∷◌, ◌==◌, ltb, leb, replicate, ℤ, pos, ◌+ℤ◌, ◌-ℤ◌, eq_ℤ, if◌then◌else◌, ◌>>=◌,
}
use proj8315server.World.{
  Env, Dir, dir_n, dir_ne, dir_e, dir_se, dir_s, dir_sw, dir_w, dir_nw, tile_index, load, store,
}
use proj8315server.World.Loops.{for_range, for_count}
use proj8315server.Water.{on_map}

-- `dirWeights`, `dirHeights` and `dirHeightsIndex`.
pub record Survey : Type 0 where
  pub weights : List ℕ
  pub heights : List ℕ
  pub next : ℕ

abbrev pub blank : Survey
blank = record { weights = replicate 8 0; heights = replicate 8 0; next = 0 }

-- `swapTarget`.
abbrev pub swap_target : List ℕ
swap_target = 1 ∷ 2 ∷ 4 ∷ 7 ∷ 6 ∷ 5 ∷ 3 ∷ 0 ∷ []

unfoldable pub sort_heights : List ℕ → List ℕ → Option (List ℕ)
sort_heights hs [] = some []
sort_heights hs (i ∷ is) = do h ← load hs (pos i); rest ← sort_heights hs is; some (h ∷ rest)

-- The first of the greatest values, with its number.
unfoldable pub highest : ℕ → List ℕ → ℕ × ℕ → ℕ × ℕ
highest i [] best = best
highest i (v ∷ vs) best = highest (i + 1) vs (if ltb best.0 v then (v, i) else best)

-- `if (dirWeights[i] > 0) dirWeights[i] += 1` at each number of a list.
unfoldable pub prioritize : List ℕ → List ℕ → Option (List ℕ)
prioritize [] ws = some ws
prioritize (i ∷ is) ws = do
  v ← load ws (pos i)
  ws' ← store ws (pos i) (if ltb 0 v then v + 1 else v)
  prioritize is ws'

module _ (E : Env) (w : ℕ) where
  -- `dirWeights[d] += 1 + dirWeights[d]`.
  unfoldable pub bump : Bool → Dir → List ℕ → Option (List ℕ)
  bump b d ws =
      if b
      then (load ws (pos (E.dir_value d)) >>= λ v. store ws (pos (E.dir_value d)) (v + (1 + v)))
      else some ws

  -- The weights that a lower neighbour adds to.
  unfoldable pub weigh : ℤ → ℤ → ℤ → ℤ → List ℕ → Option (List ℕ)
  weigh px py y x ws = do
    let north = eq_ℤ y (py -ℤ pos 1)
    ws1 ← bump north dir_n ws
    ws2 ← bump (not north && eq_ℤ y (py +ℤ pos 1)) dir_s ws1
    ws3 ← bump (eq_ℤ x (px +ℤ pos 1)) dir_e ws2
    bump (eq_ℤ x (px -ℤ pos 1)) dir_w ws3

  -- A neighbour on the map: the body of the two loops behind its `continue`.
  unfoldable pub survey_neighbour : List ℕ → ℕ → ℤ → ℤ → ℤ → ℤ → Survey → Option Survey
  survey_neighbour ts begin px py y x s = do
    t ← load ts (tile_index w x y)
    let h = E.terrelevation t
    hs ← store s.heights (pos s.next) h
    ws ← if leb (h + 2) begin then weigh px py y x s.weights else some s.weights
    some (record { weights = ws; heights = hs; next = s.next + 1 })

  unfoldable pub survey_at : List ℕ → ℕ → ℤ → ℤ → ℤ → ℤ → Survey → Option Survey
  survey_at ts begin px py y x s =
      if on_map w (x, y) && not (eq_ℤ x px && eq_ℤ y py)
      then survey_neighbour ts begin px py y x s
      else some s

  unfoldable pub survey : List ℕ → ℕ → ℤ → ℤ → Option Survey
  survey ts begin px py =
      for_range (py -ℤ pos 1) 3 (λ y. for_range (px -ℤ pos 1) 3 (survey_at ts begin px py y)) blank

  -- `dirWeights[d] = (dirWeights[a] + dirWeights[b]) / 2`.
  unfoldable pub mean : Dir → Dir → Dir → List ℕ → Option (List ℕ)
  mean d a b ws = do
    v ← load ws (pos (E.dir_value a))
    u ← load ws (pos (E.dir_value b))
    store ws (pos (E.dir_value d)) ((v + u) / 2)

  unfoldable pub diagonal_weights : List ℕ → Option (List ℕ)
  diagonal_weights ws = do
    ws1 ← mean dir_ne dir_n dir_e ws
    ws2 ← mean dir_se dir_s dir_e ws1
    ws3 ← mean dir_sw dir_s dir_w ws2
    ws4 ← mean dir_nw dir_n dir_w ws3
    prioritize (1 ∷ 3 ∷ 5 ∷ 7 ∷ []) ws4

  abbrev pub is_dir : Dir → ℕ → Bool
  is_dir d n = n == E.dir_value d

  unfoldable pub is_diagonal : ℕ → Bool
  is_diagonal n = is_dir dir_ne n || is_dir dir_se n || is_dir dir_sw n || is_dir dir_nw n

  -- The place of a step j and a column i of the ramp, and its `steepnessModifier`.
  unfoldable pub ramp_place : ℕ → ℕ → ℤ → ℤ → ℕ → ℕ → ℤ × ℤ × ℕ
  ramp_place dir breadth px py j i =
      if is_dir dir_n dir
      then (px +ℤ pos i, py -ℤ pos j, j * 2)
      else if is_dir dir_w dir
      then (px -ℤ pos j, py +ℤ pos i, j * 2)
      else if is_dir dir_e dir
      then (px +ℤ pos j, py +ℤ pos i, j * 2)
      else if is_dir dir_ne dir
      then (px +ℤ pos (i + j) -ℤ pos (breadth / 2), py -ℤ pos j, j * 2 + i)
      else if is_dir dir_se dir
      then (px +ℤ pos (i + j) -ℤ pos (breadth / 2), py +ℤ pos j, j * 2 + i)
      else if is_dir dir_sw dir
      then (
        px -ℤ pos (breadth - 1 - i) -ℤ pos j +ℤ pos (breadth / 2),
        py +ℤ pos j,
        j * 2 + (breadth - 1 - i),
      )
      else if is_dir dir_nw dir
      then (px -ℤ pos (i + j) +ℤ pos (breadth / 2), py -ℤ pos j, j * 2 + i)
      else (px +ℤ pos i, py +ℤ pos j, j * 2)

  -- A tile of the ramp, if it is on the map and not below the target.
  unfoldable pub lower_tile : ℕ → ℕ → ℤ × ℤ × ℕ → List ℕ → Option (List ℕ)
  lower_tile begin target (x, y, steep) ts =
      if on_map w (x, y) && leb (target + steep) begin
      then (load ts (tile_index w x y) >>= λ t.
          store ts (tile_index w x y) (E.set_terrelevation t (begin - steep)))
      else some ts

  unfoldable pub build_ramp : ℕ → ℕ → ℕ → ℕ → ℤ → ℤ → List ℕ → Option (List ℕ)
  build_ramp begin target dir breadth px py ts =
      for_count 0 begin
        (λ j. for_count 0 breadth (λ i. lower_tile begin target (ramp_place dir breadth px py j i)))
        ts

  -- The width and the corner of a ramp, by its direction.
  unfoldable pub centre_ramp : ℕ → ℕ → ℕ → ℕ → ℤ → ℤ → List ℕ → Option (List ℕ)
  centre_ramp begin target dir breadth px py ts =
      let breadth' = if is_diagonal dir then breadth + 1 else breadth in
      let px' = if is_dir dir_n dir || is_dir dir_s dir then px -ℤ pos (breadth' / 2) else px in
      let py' = if is_dir dir_e dir || is_dir dir_w dir then py -ℤ pos (breadth' / 2) else py in
      build_ramp begin target dir breadth' px' py' ts

  unfoldable pub create_ramp : ℤ → ℤ → ℕ → List ℕ → Option (List ℕ)
  create_ramp px py breadth ts = do
    t ← load ts (tile_index w px py)
    let begin = E.terrelevation t
    s ← survey ts begin px py
    sorted ← sort_heights s.heights swap_target
    ws ← diagonal_weights s.weights
    let dir = (highest 0 ws (0, 0)).1
    target ← load sorted (pos dir)
    centre_ramp begin target dir breadth px py ts
