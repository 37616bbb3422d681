-- ===== src/Generation/Ramps/Bounds.antt =====
-- Laws of ramps: src/game/world/ElevationGenerator.cpp.
use proj8315server.Base.{
  ℕ, suc, ◌+◌, ◌-◌, ◌*◌, ◌≤◌, ◌<◌, ◌≡◌, refl, ◌∙◌, ◌⊎◌, inl, inr, Bool, true, false, ◌&&◌, not,
  some, List, length, get_elem?, get_elem?-some, leb, lt→ltb, Bool-cases, ℤ, pos, ◌+ℤ◌, ◌-ℤ◌, eq_ℤ,
  int_laws, if◌then◌else◌, arith, Pointwise, Pointwise-refl, Pointwise-set, length-Pointwise,
}
use proj8315server.World.{Env, Dir, tile_index, load, store}
use proj8315server.World.Loops.{
  for_range, for_range-Steps, for_count-Returns, Returns, Returns->>=, Returns-some,
}
use proj8315server.Water.{on_map}
use proj8315server.Water.Flood.{on_map-AtHeight}
use proj8315server.Generation.Ramps.{
  Survey, blank, swap_target, sort_heights, highest, weigh, survey_neighbour, survey_at, survey,
  diagonal_weights, lower_tile, build_ramp, centre_ramp, create_ramp,
}
use proj8315server.Generation.Ramps.Arrays.{
  Eight, load-Eight, store-Eight, sort_heights-Returns, highest-lt, weigh-Eight,
  diagonal_weights-Eight,
}

module _ (E : Env) (compass : (d : Dir) → E.dir_value d < 8) (w : ℕ) where
  -- The survey after at most k neighbours on the map.
  abbrev Surveyed : ℕ → Survey → Type 0
  Surveyed k s = Eight s.weights × Eight s.heights × (s.next ≤ k)

  module _ (ts : List ℕ) (size : length ts ≡ w * w) (begin : ℕ) (px py : ℤ) where
    survey_neighbour-Surveyed :
        (k : ℕ) (y x : ℤ) (s : Survey)
        → k < 8
        → on_map w (x, y) ≡ true
        → Surveyed k s
        → Returns (Surveyed (suc k)) (survey_neighbour E w ts begin px py y x s)
    unfolding survey_neighbour
    survey_neighbour-Surveyed k y x s lt m (e, f, n) =
        let (h, (i, at, inside, known)) = on_map-AtHeight E w ts size (x, y) m in
        let t = get_elem?-some ts i (rw size inside) in
        rw (at, t.1, survey_neighbour)
          (Returns->>= Eight (Surveyed (suc k)) (store s.heights (pos s.next) (E.terrelevation t.0))
            _ (store-Eight s.heights s.next (E.terrelevation t.0) f (omega arith))
            (λ hs g.
              Returns->>= Eight (Surveyed (suc k))
                (if leb (E.terrelevation t.0 + 2) begin
                  then weigh E w px py y x s.weights
                  else some s.weights)
                _ (weighed (leb (E.terrelevation t.0 + 2) begin)) (λ ws v. (v, g, omega arith))))
      where
        weighed :
            (b : Bool) → Returns Eight (if b then weigh E w px py y x s.weights else some s.weights)
        weighed true = weigh-Eight E compass w px py y x s.weights e
        weighed false = e

    survey_at-Surveyed :
        (k : ℕ) (y x : ℤ) (s : Survey)
        → k < 8
        → Surveyed k s
        → Returns (Surveyed (suc k)) (survey_at E w ts begin px py y x s)
    unfolding survey_at
    survey_at-Surveyed k y x s lt h =
        elim (Bool-cases (on_map w (x, y) && not (eq_ℤ x px && eq_ℤ y py))) [
          | inr e ↦ rw (e, survey_at) (h.0, h.1, omega (arith, h.2))
          | inl e ↦ rw (e, survey_at) (survey_neighbour-Surveyed k y x s lt (ground arith) h)
        ]

    -- The tile itself is passed over.
    survey_at_self :
        (k : ℕ) (y x : ℤ) (s : Survey)
        → x ≡ px
        → y ≡ py
        → Surveyed k s
        → Returns (Surveyed k) (survey_at E w ts begin px py y x s)
    unfolding survey_at
    survey_at_self k y x s e f h =
        let skipped : (on_map w (x, y) && not (eq_ℤ x px && eq_ℤ y py)) ≡ false =
          rw (e, f) (same (on_map w (px, py)) px py) in
        rw (skipped, survey_at) h
      where
        same : (b : Bool) (a c : ℤ) → (b && not (eq_ℤ a a && eq_ℤ c c)) ≡ false
        same b a c = ground arith

    survey_row :
        (k : ℕ) (y x : ℤ) (s : Survey)
        → k + 3 ≤ 8
        → Surveyed k s
        → Returns (Surveyed (k + 3)) (for_range x 3 (survey_at E w ts begin px py y) s)
    survey_row k y x s fits h =
        for_range-Steps Surveyed (survey_at E w ts begin px py y) (k + 3)
          (λ i z r lt g. survey_at-Surveyed i y z r (omega arith) g) 3 k x s refl h

    survey_middle :
        (y : ℤ) (s : Survey)
        → y ≡ py
        → Surveyed 3 s
        → Returns (Surveyed 5) (for_range (px -ℤ pos 1) 3 (survey_at E w ts begin px py y) s)
    unfolding for_range
    survey_middle y s e h =
        let back : px -ℤ pos 1 +ℤ pos 1 ≡ px = grind int_laws in
        Returns->>= (Surveyed 4) (Surveyed 5) (survey_at E w ts begin px py y (px -ℤ pos 1) s) _
          (survey_at-Surveyed 3 y (px -ℤ pos 1) s (omega arith) h)
          (λ r g.
            Returns->>= (Surveyed 4) (Surveyed 5)
              (survey_at E w ts begin px py y (px -ℤ pos 1 +ℤ pos 1) r) _
              (survey_at_self 4 y (px -ℤ pos 1 +ℤ pos 1) r back e g)
              (λ q f.
                Returns->>= (Surveyed 5) (Surveyed 5)
                  (survey_at E w ts begin px py y (px -ℤ pos 1 +ℤ pos 1 +ℤ pos 1) q) _
                  (survey_at-Surveyed 4 y (px -ℤ pos 1 +ℤ pos 1 +ℤ pos 1) q (omega arith) f)
                  (λ p d. d)))

    survey-Surveyed : Returns (Surveyed 8) (survey E w ts begin px py)
    unfolding survey for_range
    survey-Surveyed =
        let back : py -ℤ pos 1 +ℤ pos 1 ≡ py = grind int_laws in
        let row = λ (y : ℤ). for_range (px -ℤ pos 1) 3 (survey_at E w ts begin px py y) in
        Returns->>= (Surveyed 3) (Surveyed 8) (row (py -ℤ pos 1) blank) _
          (survey_row 0 (py -ℤ pos 1) (px -ℤ pos 1) blank (omega arith) (refl, refl, omega arith))
          (λ r g.
            Returns->>= (Surveyed 5) (Surveyed 8) (row (py -ℤ pos 1 +ℤ pos 1) r) _
              (survey_middle (py -ℤ pos 1 +ℤ pos 1) r back g)
              (λ q f.
                Returns->>= (Surveyed 8) (Surveyed 8) (row (py -ℤ pos 1 +ℤ pos 1 +ℤ pos 1) q) _
                  (survey_row 5 (py -ℤ pos 1 +ℤ pos 1 +ℤ pos 1) (px -ℤ pos 1) q (omega arith) f)
                  (λ p d. d)))

  module _ (R : ℕ → ℕ → Type 0) (begin : ℕ) (os : List ℕ) (size : length os ≡ w * w)
      (lowers : (a u h : ℕ) → h ≤ begin → R a u → R a (E.set_terrelevation u h)) where
    lower_tile-Pointwise :
        (target : ℕ) (p : ℤ × ℤ × ℕ) (us : List ℕ)
        → Pointwise R os us
        → Returns (Pointwise R os) (lower_tile E w begin target p us)
    unfolding lower_tile
    lower_tile-Pointwise target (x, y, steep) us h =
        elim (Bool-cases (on_map w (x, y) && leb (target + steep) begin)) [
          | inr e ↦ rw (e, lower_tile) h
          | inl e ↦
              let long : length us ≡ w * w = length-Pointwise R os us h ∙ size in
              let (_, (i, at, inside, known)) = on_map-AtHeight E w us long (x, y) (ground arith) in
              let t = get_elem?-some us i (rw long inside) in
              rw (e, at, t.1, lower_tile, lt→ltb i (length us) (rw long inside))
                (Pointwise-set R os us i t.0 _ t.1
                  (λ a r. lowers a t.0 (begin - steep) (omega arith) r) h)
        ]

    centre_ramp-Pointwise :
        (target dir breadth : ℕ) (px py : ℤ) (ts : List ℕ)
        → Pointwise R os ts
        → Returns (Pointwise R os) (centre_ramp E w begin target dir breadth px py ts)
    unfolding centre_ramp build_ramp
    centre_ramp-Pointwise target dir breadth px py ts h =
        for_count-Returns (Pointwise R os) _
          (λ j us k.
            for_count-Returns (Pointwise R os) _ (λ i vs g. lower_tile-Pointwise target _ vs g) _ 0
              us k)
          begin 0 ts h

-- What relates an earlier array to the one before a ramp is made, and is kept by writing an elevation
-- not above that of the ramp's beginning, relates it to the array after.
pub create_ramp-Pointwise :
    (E : Env) (w breadth : ℕ) (px py : ℤ) (os ts : List ℕ) (i t : ℕ) (R : ℕ → ℕ → Type 0)
    → ((d : Dir) → E.dir_value d < 8)
    → length os ≡ w * w
    → tile_index w px py ≡ pos i
    → get_elem? ts i ≡ some t
    → ((a u h : ℕ) → h ≤ E.terrelevation t → R a u → R a (E.set_terrelevation u h))
    → Pointwise R os ts
    → Returns (Pointwise R os) (create_ramp E w px py breadth ts)
unfolding create_ramp
create_ramp-Pointwise E w breadth px py os ts i t R compass size at found lowers h =
    let begin = E.terrelevation t in
    let long : length ts ≡ w * w = length-Pointwise R os ts h ∙ size in
    rw (at, found, create_ramp)
      (Returns->>= (Surveyed E compass w 8) (Pointwise R os) (survey E w ts begin px py) _
        (survey-Surveyed E compass w ts long begin px py)
        (λ s g.
          Returns->>= (λ rs. length rs ≡ 8) (Pointwise R os) (sort_heights s.heights swap_target) _
            (sort_heights-Returns s.heights swap_target (omega arith) g.1)
            (λ rs e.
              Returns->>= Eight (Pointwise R os) (diagonal_weights E w s.weights) _
                (diagonal_weights-Eight E compass w s.weights g.0)
                (λ ws f.
                  Returns->>= (λ v. Unit {0}) (Pointwise R os)
                    (load rs (pos (highest 0 ws (0, 0)).1)) _
                    (load-Eight rs (highest 0 ws (0, 0)).1 e
                      (highest-lt 0 ws (0, 0) 8 (omega (arith, f)) (omega arith)))
                    (λ target _.
                      centre_ramp-Pointwise E compass w R begin os size lowers target _ breadth px
                        py ts h)))))

-- A tile after a ramp from an elevation: the tile before, or one not above that elevation.
abbrev pub Lowered : Env → ℕ → ℕ → ℕ → Type 0
Lowered E begin a b = (b ≡ a) ⊎ (E.terrelevation b ≤ begin)

-- Where the enumerators of the directions are below 8, an elevation that is written, and is not above
-- that of some tile, is not above what was written when it is read back, the array has its size and
-- the ramp begins on a tile of it, making a ramp of any width ends without a fault; each
-- tile of the array is unchanged, or its elevation is then not above that of the ramp's beginning.
pub create_ramp-Lowered :
    (E : Env) (w breadth : ℕ) (px py : ℤ) (ts : List ℕ) (i t : ℕ)
    → ((d : Dir) → E.dir_value d < 8)
    → ((a u h : ℕ) → h ≤ E.terrelevation a → E.terrelevation (E.set_terrelevation u h) ≤ h)
    → length ts ≡ w * w
    → tile_index w px py ≡ pos i
    → get_elem? ts i ≡ some t
    → (us : List ℕ) × (create_ramp E w px py breadth ts ≡ some us)
      × Pointwise (Lowered E (E.terrelevation t)) ts us
create_ramp-Lowered E w breadth px py ts i t compass kept size at found =
    let R = Lowered E (E.terrelevation t) in
    Returns-some _ (create_ramp E w px py breadth ts) (
      create_ramp-Pointwise E w breadth px py ts ts i t R compass size at found
        (λ a u h le r. inr (omega (arith, kept t u h le, le)))
        (Pointwise-refl R (λ a. inl refl) ts))
