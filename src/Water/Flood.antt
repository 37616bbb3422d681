-- ===== src/Water/Flood.antt =====
-- Laws of the search for a pool: src/game/world/WaterGenerator.cpp.
use native.Mathlib.Nat.{mul-le-mul_right}
use proj8315server.Base.{
  ℕ, zero, suc, ◌+◌, ◌*◌, ◌≤◌, ◌<◌, ◌≡◌, refl, sym, ap, subst, ◌∙◌, true, false, Option, none, some,
  List, [], ◌∷◌, length, All, get_elem?, get_elem?-some, ltb, ◌==◌, ==_iff, Bool-cases, List-cases,
  Option-cases, inl, inr, pos, negsuc, ◌+ℤ◌, ◌*ℤ◌, +ℤ_pos, *ℤ_pos, if◌then◌else◌, arith,
}
use proj8315server.World.{Env, tile_index}
use proj8315server.World.Loops.{Returns, Returns->>=, Returns-some}
use proj8315server.Water.{
  Node, visited_before, on_map, raise, Pool, Scan, leaks, scanned, neighbours, height,
  compare_height, scan, visit, flood_round, flood, generate_water_area,
}

-- The numbers below n that are not among the visited ones.
abbrev left : List ℕ → ℕ → ℕ
left vs zero = 0
left vs (suc n) = (if visited_before (pos n) vs then 0 else 1) + left vs n

left-above : (i : ℕ) (vs : List ℕ) (n : ℕ) → n ≤ i → left (i ∷ vs) n ≡ left vs n
unfolding visited_before
left-above i vs zero h = refl
left-above i vs (suc n) h =
    let other : (i == n) ≡ false = ground arith in
    rw other
      (ap (λ k. (if visited_before (pos n) vs then 0 else 1) + k) (left-above i vs n (omega arith)))

left-visit :
    (i : ℕ) (vs : List ℕ) (n : ℕ)
    → i < n
    → visited_before (pos i) vs ≡ false
    → suc (left (i ∷ vs) n) ≡ left vs n
unfolding visited_before
left-visit i vs zero h new = absurd (omega arith)
left-visit i vs (suc n) h new = elim (Bool-cases (i == n)) [
  | inl e ↦
      let same : i ≡ n = (==_iff i n).0 e in
      let fresh : visited_before (pos n) vs ≡ false = rw (← same) new in
      rw (e, fresh) (omega (arith, left-above i vs n (omega (arith, same))))
  | inr e ↦
      let less : i < n = ground arith in
      elim (Bool-cases (visited_before (pos n) vs)) [
        | inl f ↦ rw (e, f) (omega (arith, left-visit i vs n less new))
        | inr f ↦ rw (e, f) (omega (arith, left-visit i vs n less new))
      ]
]

left-all : (vs : List ℕ) (n : ℕ) → left vs n ≤ n
left-all vs zero = omega arith
left-all vs (suc n) = elim (Bool-cases (visited_before (pos n) vs)) [
  | inl e ↦ rw e (omega (arith, left-all vs n))
  | inr e ↦ rw e (omega (arith, left-all vs n))
]

module _ (E : Env) (w : ℕ) (ts : List ℕ) (size : length ts ≡ w * w) where
  -- A node on the map, with the height of its tile.
  abbrev pub AtHeight : ℕ → Node → Type 0
  AtHeight h n = (i : ℕ) × (tile_index w n.0 n.1 ≡ pos i) × (i < w * w) × (height E w ts n ≡ some h)

  pub on_map-AtHeight : (n : Node) → on_map w n ≡ true → (h : ℕ) × AtHeight h n
  unfolding tile_index height
  on_map-AtHeight (negsuc x, y) e = absurd cc
  on_map-AtHeight (pos x, negsuc y) e = absurd (ground arith)
  on_map-AtHeight (pos x, pos y) e =
      let here : x < w = ground arith in
      let there : y < w = ground arith in
      let within : suc y * w ≤ w * w = mul-le-mul_right w there in
      let step : suc y * w ≡ y * w + w = grind arith in
      let t = get_elem?-some ts (x + y * w) (omega (arith, size, step, within)) in
      let at : pos x +ℤ pos y *ℤ w ≡ pos (x + y * w) = rw (*ℤ_pos y w, +ℤ_pos x (y * w)) refl in
      (E.terrelevation t.0, (x + y * w, at, omega (arith, step, within), rw (at, t.1)))

  -- What a scan from height h may yield.
  abbrev ScanIsGood : ℕ → ℕ → Scan → Type 0
  ScanIsGood h bound (leaks m l) = (a : ℕ) × (a < h) × AtHeight a m
  ScanIsGood h bound (scanned stack l) = All (AtHeight h) stack × (length stack ≤ bound)

  scan-IsGood :
      (h : ℕ) (vs : List ℕ) (ns stack : List Node) (level : Option ℕ) (bound : ℕ)
      → All (AtHeight h) stack
      → length ns + length stack ≤ bound
      → Returns (ScanIsGood h bound) (scan E w ts h vs ns stack level)
  unfolding scan compare_height
  scan-IsGood h vs [] stack level bound ok fits = (ok, omega arith)
  scan-IsGood h vs (n ∷ ns) stack level bound ok fits =
      elim (Bool-cases (visited_before (tile_index w n.0 n.1) vs)) [
        | inl e ↦ rw (e, scan) (scan-IsGood h vs ns stack level bound ok (omega arith))
        | inr e ↦ elim (Bool-cases (on_map w n)) [
          | inr f ↦ rw (e, f, scan) (scan-IsGood h vs ns stack level bound ok (omega arith))
          | inl f ↦
              let (a, at) = on_map-AtHeight n f in
              elim (Bool-cases (a == h)) [
                | inl g ↦
                    let level_with : AtHeight h n =
                      subst (λ b. AtHeight b n) ((==_iff a h).0 g) at in
                    rw (e, f, at.3, g, scan)
                      (scan-IsGood h vs ns (n ∷ stack) level bound (level_with, ok) (omega arith))
                | inr g ↦ elim (Bool-cases (ltb a h)) [
                  | inl d ↦ rw (e, f, at.3, g, d, scan) (a, ground arith, at)
                  | inr d ↦
                      rw (e, f, at.3, g, d, scan)
                        (scan-IsGood h vs ns stack (raise level a) bound ok (omega arith))
                ]
              ]
        ]
      ]

  -- A number of a tile of the map with a height.
  abbrev pub IsLevel : ℕ → ℕ → Type 0
  IsLevel h v = (v < w * w) × ((t : ℕ) × (get_elem? ts v ≡ some t) × (E.terrelevation t ≡ h))

  -- What holds between the rounds, and how many more there can be at most.
  pub record PoolIsGood (h : ℕ) (p : Pool) : Type 0 where
    pub waiting : All (AtHeight h) p.stack
    pub dry : All (IsLevel h) p.visited

  abbrev pub remaining : ℕ → Pool → ℕ
  remaining h p = h * (5 * (w * w) + 2) + 5 * left p.visited (w * w) + length p.stack

  -- A round from a pool at height h: the pool after it is good at its height, and nearer the end.
  abbrev Nearer : ℕ → ℕ → Pool → Type 0
  Nearer h bound q = (a : ℕ) × (a ≤ h) × PoolIsGood a q × (remaining a q < bound)

  pub height-tile :
      (h i : ℕ) (n : Node)
      → tile_index w n.0 n.1 ≡ pos i
      → height E w ts n ≡ some h
      → (t : ℕ) × (get_elem? ts i ≡ some t) × (E.terrelevation t ≡ h)
  unfolding height
  height-tile h i n at e = elim (Option-cases (get_elem? ts i)) [
    | inl f ↦ let gone : ◌≡◌ {A = Option ℕ} none (some h) = rw (at, f, height) at e in absurd cc
    | inr (t, f) ↦
        let same : ◌≡◌ {A = Option ℕ} (some (E.terrelevation t)) (some h) =
          rw (at, f, height) at e in
        (t, f, cc)
  ]

  leak_less : (a h : ℕ) → a < h → a * (5 * (w * w) + 2) + (5 * (w * w) + 2) ≤ h * (5 * (w * w) + 2)
  leak_less a h lt =
      let within : suc a * (5 * (w * w) + 2) ≤ h * (5 * (w * w) + 2) =
        mul-le-mul_right (5 * (w * w) + 2) lt in
      let step : suc a * (5 * (w * w) + 2) ≡ a * (5 * (w * w) + 2) + (5 * (w * w) + 2) =
        grind arith in
      omega (arith, step, within)

  visit-Nearer :
      (h i : ℕ) (n : Node) (p : Pool)
      → AtHeight h n
      → tile_index w n.0 n.1 ≡ pos i
      → i < w * w
      → visited_before (pos i) p.visited ≡ false
      → PoolIsGood h p
      → Returns (Nearer h (suc (remaining h p))) (visit E w ts i n p)
  unfolding visit
  visit-Nearer h i n p at here lt new good =
      rw (at.3, visit)
        (Returns->>= (ScanIsGood h (4 + length p.stack)) (Nearer h (suc (remaining h p)))
          (scan E w ts h p.visited (neighbours n) p.stack p.level) _
          (scan-IsGood h p.visited (neighbours n) p.stack p.level (4 + length p.stack) good.waiting
            (omega arith))
          after)
    where
      after :
          (r : Scan)
          → ScanIsGood h (4 + length p.stack) r
          → Returns (Nearer h (suc (remaining h p))) (elim r [
            | leaks m l ↦ some (record { stack = m ∷ []; visited = []; level = l })
            | scanned stack l ↦ some (record { stack = stack; visited = i ∷ p.visited; level = l })
          ])
      after (leaks m l) (a, less, below_it) = (
        a,
        omega arith,
        record { waiting = (below_it, tt); dry = tt },
        omega (arith, leak_less a h less, left-all [] (w * w)),
      )
      after (scanned stack l) (ok, fits) = (
        h,
        omega arith,
        record { waiting = ok; dry = ((lt, height-tile h i n here at.3), good.dry) },
        omega (arith, left-visit i p.visited (w * w) lt new),
      )

  flood_round-Nearer :
      (h : ℕ) (n : Node) (stack : List Node) (p : Pool)
      → p.stack ≡ n ∷ stack
      → PoolIsGood h p
      → Returns (Nearer h (remaining h p)) (flood_round E w ts n (record p { stack = stack }))
  unfolding flood_round
  flood_round-Nearer h n stack p e good =
      let all : All (AtHeight h) (n ∷ stack) = subst (All (AtHeight h)) e good.waiting in
      let (i, here, lt, at) = all.0 in
      let p' : Pool = record p { stack = stack } in
      let good' : PoolIsGood h p' = record { waiting = all.1; dry = good.dry } in
      let size_of : length p.stack ≡ suc (length stack) = ap length e in
      let same : suc (remaining h p') ≡ remaining h p = omega (arith, size_of) in
      elim (Bool-cases (visited_before (tile_index w n.0 n.1) p.visited)) [
        | inl f ↦ rw (f, flood_round) (h, omega arith, good', omega (arith, same))
        | inr f ↦
            let new : visited_before (pos i) p.visited ≡ false = rw (← here) f in
            rw (here, new, flood_round)
              (subst (λ b. Returns (Nearer h b) (visit E w ts i n p')) same
                (visit-Nearer h i n p' all.0 here lt new good'))
      ]

  -- How a search ends: every tile of the pool is level.
  abbrev pub Settled : ℕ → Option (Option Pool) → Type 0
  Settled h r =
      (q : Pool) × (a : ℕ) × (r ≡ some (some q))
      × (q.stack ≡ [])
      × (a ≤ h)
      × All (IsLevel a) q.visited

  flood-Settled :
      (fuel h : ℕ) (p : Pool)
      → PoolIsGood h p
      → remaining h p < fuel
      → Settled h (flood E w ts fuel p)
  unfolding flood
  flood-Settled zero h p good lt = absurd (omega arith)
  flood-Settled (suc fuel) h p good lt = elim (List-cases p.stack) [
    | inl e ↦ (p, h, simp (e, flood), e, omega arith, good.dry)
    | inr (n, stack, e) ↦
        let round = flood_round E w ts n (record p { stack = stack }) in
        let (q, f, (a, less, good', nearer)) =
          Returns-some (Nearer h (remaining h p)) round (flood_round-Nearer h n stack p e good) in
        let (r, b, g, empty, under, dry) = flood-Settled fuel a q good' (omega arith) in
        (r, b, rw (e, f, flood) g, empty, omega arith, dry)
  ]

-- On a map whose array has its size, the search for a pool that starts on the map, at height h,
-- ends without a fault within h * (5 * w * w + 2) + 5 * w * w + 2 rounds, where w is the width: its
-- stack is empty, and the tiles it found are on the map, all at one height, which is at most h.
pub generate_water_area-Settled :
    (E : Env) (w fuel h : ℕ) (ts : List ℕ) (start : Node) (level : Option ℕ)
    (size : length ts ≡ w * w)
    → on_map w start ≡ true
    → height E w ts start ≡ some h
    → h * (5 * (w * w) + 2) + 5 * (w * w) + 1 < fuel
    → Settled E w ts size h (generate_water_area E w ts fuel start level)
unfolding generate_water_area
generate_water_area-Settled E w fuel h ts start level size there known enough =
    let (b, found) = on_map-AtHeight E w ts size start there in
    let same : b ≡ h = unique (sym found.3 ∙ known) in
    let at : AtHeight E w ts size h start = subst (λ c. AtHeight E w ts size c start) same found in
    flood-Settled E w ts size fuel h (record { stack = start ∷ []; visited = []; level = level })
      (record { waiting = (at, tt); dry = tt }) (omega (arith, left-all [] (w * w), enough))
  where
    unique : {b c : ℕ} → some b ≡ some c → b ≡ c
    unique e = cc
