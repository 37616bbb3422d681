-- ===== src/Generation/Ramps/Arrays.antt =====
-- The arrays of eight of a ramp: src/game/world/ElevationGenerator.cpp.
use proj8315server.Base.{
  ℕ, suc, ◌+◌, ◌/◌, ◌≤◌, ◌<◌, ◌≡◌, refl, ap, ◌∙◌, inl, inr, Bool, true, false, List, [], ◌∷◌,
  length, length-set, get_elem?-some, set, All, ltb, lt→ltb, Bool-cases, ℤ, pos, ◌>>=◌, arith,
}
use proj8315server.World.{
  Env, Dir, dir_n, dir_ne, dir_e, dir_se, dir_s, dir_sw, dir_w, dir_nw, load, store,
}
use proj8315server.World.Loops.{Returns, Returns->>=}
use proj8315server.Generation.Ramps.{
  sort_heights, highest, prioritize, bump, weigh, mean, diagonal_weights,
}

abbrev pub Eight : List ℕ → Type 0
Eight ws = length ws ≡ 8

pub load-Eight :
    (ws : List ℕ) (i : ℕ) → Eight ws → i < 8 → Returns (λ v. Unit {0}) (load ws (pos i))
load-Eight ws i e lt = let v = get_elem?-some ws i (omega (arith, e)) in rw v.1 tt

pub store-Eight : (ws : List ℕ) (i v : ℕ) → Eight ws → i < 8 → Returns Eight (store ws (pos i) v)
store-Eight ws i v e lt = rw (lt→ltb i (length ws) (omega (arith, e))) (length-set ws i v ∙ e)

-- A read and a write of an array of eight.
update-Eight :
    (ws : List ℕ) (i j : ℕ) (f : ℕ → ℕ)
    → Eight ws
    → i < 8
    → j < 8
    → Returns Eight (load ws (pos i) >>= λ v. store ws (pos j) (f v))
update-Eight ws i j f e lt lt' =
    Returns->>= (λ v. Unit {0}) Eight (load ws (pos i)) (λ v. store ws (pos j) (f v))
      (load-Eight ws i e lt) (λ v _. store-Eight ws j (f v) e lt')

pub prioritize-Eight :
    (is ws : List ℕ) → All (λ i. i < 8) is → Eight ws → Returns Eight (prioritize is ws)
unfolding prioritize
prioritize-Eight [] ws h e = e
prioritize-Eight (i ∷ is) ws h e =
    let v = get_elem?-some ws i (omega (arith, e, h.0)) in
    rw (v.1, lt→ltb i (length ws) (omega (arith, e, h.0)), prioritize)
      (prioritize-Eight is (set ws i _) h.1 (length-set ws i _ ∙ e))

pub sort_heights-Returns :
    (hs is : List ℕ)
    → All (λ i. i < 8) is
    → Eight hs
    → Returns (λ rs. length rs ≡ length is) (sort_heights hs is)
unfolding sort_heights
sort_heights-Returns hs [] h e = refl
sort_heights-Returns hs (i ∷ is) h e =
    let v = get_elem?-some hs i (omega (arith, e, h.0)) in
    rw (v.1, sort_heights)
      (Returns->>= (λ rs. length rs ≡ length is) (λ rs. length rs ≡ suc (length is))
        (sort_heights hs is) _ (sort_heights-Returns hs is h.1 e) (λ rs k. ap suc k))

pub highest-lt :
    (i : ℕ) (vs : List ℕ) (best : ℕ × ℕ) (n : ℕ)
    → i + length vs ≤ n
    → best.1 < n
    → (highest i vs best).1 < n
unfolding highest
highest-lt i [] best n fits lt = lt
highest-lt i (v ∷ vs) best n fits lt = elim (Bool-cases (ltb best.0 v)) [
  | inl e ↦ rw (e, highest) (highest-lt (i + 1) vs (v, i) n (omega arith) (omega arith))
  | inr e ↦ rw (e, highest) (highest-lt (i + 1) vs best n (omega arith) lt)
]

module _ (E : Env) (compass : (d : Dir) → E.dir_value d < 8) (w : ℕ) where
  bump-Eight : (b : Bool) (d : Dir) (ws : List ℕ) → Eight ws → Returns Eight (bump E w b d ws)
  unfolding bump
  bump-Eight true d ws e =
      update-Eight ws (E.dir_value d) (E.dir_value d) (λ v. v + (1 + v)) e (compass d) (compass d)
  bump-Eight false d ws e = e

  pub weigh-Eight :
      (px py y x : ℤ) (ws : List ℕ) → Eight ws → Returns Eight (weigh E w px py y x ws)
  unfolding weigh
  weigh-Eight px py y x ws e =
      Returns->>= Eight Eight (bump E w _ dir_n ws) _ (bump-Eight _ dir_n ws e) (λ ws1 e1.
        Returns->>= Eight Eight (bump E w _ dir_s ws1) _ (bump-Eight _ dir_s ws1 e1) (λ ws2 e2.
          Returns->>= Eight Eight (bump E w _ dir_e ws2) _ (bump-Eight _ dir_e ws2 e2)
            (λ ws3 e3. bump-Eight _ dir_w ws3 e3)))

  mean-Eight : (d a b : Dir) (ws : List ℕ) → Eight ws → Returns Eight (mean E w d a b ws)
  unfolding mean
  mean-Eight d a b ws e =
      Returns->>= (λ v. Unit {0}) Eight (load ws (pos (E.dir_value a))) _
        (load-Eight ws (E.dir_value a) e (compass a))
        (λ v _.
          update-Eight ws (E.dir_value b) (E.dir_value d) (λ u. (v + u) / 2) e (compass b)
            (compass d))

  pub diagonal_weights-Eight : (ws : List ℕ) → Eight ws → Returns Eight (diagonal_weights E w ws)
  unfolding diagonal_weights
  diagonal_weights-Eight ws e =
      Returns->>= Eight Eight (mean E w dir_ne dir_n dir_e ws) _ (mean-Eight _ _ _ ws e) (λ ws1 e1.
        Returns->>= Eight Eight (mean E w dir_se dir_s dir_e ws1) _ (mean-Eight _ _ _ ws1 e1)
          (λ ws2 e2.
            Returns->>= Eight Eight (mean E w dir_sw dir_s dir_w ws2) _ (mean-Eight _ _ _ ws2 e2)
              (λ ws3 e3.
                Returns->>= Eight Eight (mean E w dir_nw dir_n dir_w ws3) _
                  (mean-Eight _ _ _ ws3 e3)
                  (λ ws4 e4. prioritize-Eight (1 ∷ 3 ∷ 5 ∷ 7 ∷ []) ws4 (omega arith) e4))))
