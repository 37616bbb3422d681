-- ===== src/Generation/Environment/Weights.antt =====
-- The tiles that have no weight yet: src/game/world/EnvironmentGenerator.cpp, `fertilityWeights`.
use proj8315server.Base.{
  ℕ, zero, suc, ◌+◌, ◌≤◌, ◌<◌, ◌≡◌, ◌≢◌, inl, inr, false, none, some, ◌==◌, ==_iff, Bool-cases,
  Option-cases, Dict, find, put, find-put, arith,
}
use proj8315server.Water.{number_eq}

-- The tiles below n that have no weight.
abbrev pub unweighted : ℕ → Dict ℕ ℕ → ℕ
unweighted zero m = 0
unweighted (suc n) m = elim (find n m) [ none ↦ 1 | some _ ↦ 0 ] + unweighted n m

pub unweighted-le : (n : ℕ) (m : Dict ℕ ℕ) → unweighted n m ≤ n
unweighted-le zero m = omega arith
unweighted-le (suc n) m = elim (Option-cases (find n m)) [
  | inl e ↦ rw e (omega (arith, unweighted-le n m))
  | inr (v, e) ↦ rw e (omega (arith, unweighted-le n m))
]

pub put-unweighted : (n k v : ℕ) (m : Dict ℕ ℕ) → unweighted n (put k v m) ≤ unweighted n m
put-unweighted zero k v m = omega arith
put-unweighted (suc n) k v m = elim (Bool-cases (k == n)) [
  | inl e ↦ rw (find-put k n v m, e) (omega (arith, put-unweighted n k v m))
  | inr e ↦ rw (find-put k n v m, e) (omega (arith, put-unweighted n k v m))
]

-- A new weight leaves fewer tiles without one.
pub put-unweighted_lt :
    (n k v : ℕ) (m : Dict ℕ ℕ) → k < n → find k m ≡ none → unweighted n (put k v m) < unweighted n m
put-unweighted_lt zero k v m lt e = absurd (omega (arith, lt))
put-unweighted_lt (suc n) k v m lt e = elim (Bool-cases (k == n)) [
  | inl f ↦
      let bare : find n m ≡ none = rw (← (==_iff k n).0 f) e in
      rw (find-put k n v m, f, bare) (omega (arith, put-unweighted n k v m))
  | inr f ↦
      rw (find-put k n v m, f)
        (omega (arith, put-unweighted_lt n k v m (ground (arith, ==_iff k n)) e))
]

pub find-put_bare : (i k v : ℕ) (m : Dict ℕ ℕ) → i ≢ k → find i m ≡ none → find i (put k v m) ≡ none
find-put_bare i k v m apart e =
    let other : (k == i) ≡ false = ground arith in rw (find-put k i v m, other) e
