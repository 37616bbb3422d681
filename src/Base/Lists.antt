-- ===== src/Base/Lists.antt =====
-- Lists measured and indexed by native numbers, under the library's names.
use Prim.Native.Nat.{ℕ, zero, suc, ◌+◌, ◌<◌}
use mathlib.Core.Path.{◌≡◌, refl, ap, subst}
use mathlib.Core.Logic.{◌≢◌}
use mathlib.Core.List.{List, [], ◌∷◌, ◌++◌}
use mathlib.Core.Option.{Option, none, some}
use native.Mathlib.Omega.{arith}

module _ {ℓ} {A : Type ℓ} where
  abbrev pub length : List A → ℕ
  length [] = 0
  length (x ∷ xs) = suc (length xs)

  abbrev pub get_elem? : List A → ℕ → Option A
  get_elem? [] i = none
  get_elem? (x ∷ xs) zero = some x
  get_elem? (x ∷ xs) (suc i) = get_elem? xs i

  -- A write out of bounds changes nothing.
  abbrev pub set : List A → ℕ → A → List A
  set [] i v = []
  set (x ∷ xs) zero v = v ∷ xs
  set (x ∷ xs) (suc i) v = x ∷ set xs i v

  abbrev pub drop : ℕ → List A → List A
  drop zero xs = xs
  drop (suc n) [] = []
  drop (suc n) (x ∷ xs) = drop n xs

  abbrev pub take : ℕ → List A → List A
  take zero xs = []
  take (suc n) [] = []
  take (suc n) (x ∷ xs) = x ∷ take n xs

  abbrev pub replicate : ℕ → A → List A
  replicate zero v = []
  replicate (suc n) v = v ∷ replicate n v

  pub length-append : (xs ys : List A) → length (xs ++ ys) ≡ length xs + length ys
  length-append [] ys = omega arith
  length-append (x ∷ xs) ys = omega (arith, length-append xs ys)

  pub length-replicate : (n : ℕ) (v : A) → length (replicate n v) ≡ n
  length-replicate zero v = refl
  length-replicate (suc n) v = ap suc (length-replicate n v)

  pub get_elem?-replicate :
      (n : ℕ) (v : A) (i : ℕ) (t : A) → get_elem? (replicate n v) i ≡ some t → t ≡ v
  get_elem?-replicate zero v i t e = absurd cc
  get_elem?-replicate (suc n) v zero t e = cc
  get_elem?-replicate (suc n) v (suc i) t e = get_elem?-replicate n v i t e

  pub length-set : (xs : List A) (i : ℕ) (v : A) → length (set xs i v) ≡ length xs
  length-set [] i v = refl
  length-set (x ∷ xs) zero v = refl
  length-set (x ∷ xs) (suc i) v = ap suc (length-set xs i v)

  pub set-set_self : (xs : List A) (i : ℕ) (u v : A) → set (set xs i u) i v ≡ set xs i v
  set-set_self [] i u v = refl
  set-set_self (x ∷ xs) zero u v = refl
  set-set_self (x ∷ xs) (suc i) u v = ap (λ ys. x ∷ ys) (set-set_self xs i u v)

  pub get_elem?-set_self :
      (xs : List A) (i : ℕ) (v : A) → i < length xs → get_elem? (set xs i v) i ≡ some v
  get_elem?-set_self [] i v h = elim h [ ]
  get_elem?-set_self (x ∷ xs) zero v h = refl
  get_elem?-set_self (x ∷ xs) (suc i) v h = get_elem?-set_self xs i v (omega arith)

  pub get_elem?-set_ne :
      (xs : List A) (i j : ℕ) (v : A) → i ≢ j → get_elem? (set xs i v) j ≡ get_elem? xs j
  get_elem?-set_ne [] i j v h = refl
  get_elem?-set_ne (x ∷ xs) zero zero v h = absurd (h refl)
  get_elem?-set_ne (x ∷ xs) zero (suc j) v h = refl
  get_elem?-set_ne (x ∷ xs) (suc i) zero v h = refl
  get_elem?-set_ne (x ∷ xs) (suc i) (suc j) v h = get_elem?-set_ne xs i j v (λ e. h (ap suc e))

  pub get_elem?-some : (xs : List A) (i : ℕ) → i < length xs → (v : A) × (get_elem? xs i ≡ some v)
  get_elem?-some [] i h = elim h [ ]
  get_elem?-some (x ∷ xs) zero h = (x, refl)
  get_elem?-some (x ∷ xs) (suc i) h = get_elem?-some xs i (omega arith)

  -- A predicate on every element, by recursion.
  abbrev pub All {κ} : (A → Type κ) → List A → Type κ
  All P [] = Unit
  All P (x ∷ xs) = P x × All P xs

  pub All-append {κ} : (P : A → Type κ) (xs ys : List A) → All P xs → All P ys → All P (xs ++ ys)
  All-append P [] ys hx hy = hy
  All-append P (x ∷ xs) ys hx hy = (hx.0, All-append P xs ys hx.1 hy)

  pub All-get_elem? {κ} :
      (P : A → Type κ) (xs : List A) (i : ℕ) (v : A) → All P xs → get_elem? xs i ≡ some v → P v
  All-get_elem? P [] i v h e = cc
  All-get_elem? P (x ∷ xs) zero v h e = subst P (ground arith) h.0
  All-get_elem? P (x ∷ xs) (suc i) v h e = All-get_elem? P xs i v h.1 e

  pub All-set {κ} :
      (P : A → Type κ) (xs : List A) (i : ℕ) (v : A) → All P xs → P v → All P (set xs i v)
  All-set P [] i v h p = h
  All-set P (x ∷ xs) zero v h p = (p, h.1)
  All-set P (x ∷ xs) (suc i) v h p = (h.0, All-set P xs i v h.1 p)

-- Two lists of one length whose elements are related place by place.
module _ {ℓ} {A : Type ℓ} (R : A → A → Type 0) where
  abbrev pub Pointwise : List A → List A → Type 0
  Pointwise [] [] = Unit
  Pointwise (x ∷ xs) (y ∷ ys) = R x y × Pointwise xs ys
  Pointwise xs ys = ⊥

  pub Pointwise-refl : ((x : A) → R x x) → (xs : List A) → Pointwise xs xs
  Pointwise-refl r [] = tt
  Pointwise-refl r (x ∷ xs) = (r x, Pointwise-refl r xs)

  pub length-Pointwise : (xs ys : List A) → Pointwise xs ys → length ys ≡ length xs
  length-Pointwise [] [] h = refl
  length-Pointwise [] (y ∷ ys) h = elim h [ ]
  length-Pointwise (x ∷ xs) [] h = elim h [ ]
  length-Pointwise (x ∷ xs) (y ∷ ys) h = ap suc (length-Pointwise xs ys h.1)

  -- A write keeps the relation where the new element is related to all that the old one was to.
  pub Pointwise-set :
      (xs ys : List A) (i : ℕ) (y v : A)
      → get_elem? ys i ≡ some y
      → ((x : A) → R x y → R x v)
      → Pointwise xs ys
      → Pointwise xs (set ys i v)
  Pointwise-set [] [] i y v e r h = cc
  Pointwise-set [] (z ∷ ys) i y v e r h = elim h [ ]
  Pointwise-set (x ∷ xs) [] i y v e r h = elim h [ ]
  Pointwise-set (x ∷ xs) (z ∷ ys) zero y v e r h = (r x (subst (R x) (ground arith) h.0), h.1)
  Pointwise-set (x ∷ xs) (z ∷ ys) (suc i) y v e r h = (h.0, Pointwise-set xs ys i y v e r h.1)

  pub Pointwise-back :
      (xs ys : List A) (i : ℕ) (y : A)
      → get_elem? ys i ≡ some y
      → Pointwise xs ys
      → (x : A) × (get_elem? xs i ≡ some x) × R x y
  Pointwise-back [] [] i y e h = absurd cc
  Pointwise-back [] (z ∷ ys) i y e h = elim h [ ]
  Pointwise-back (z ∷ xs) [] i y e h = elim h [ ]
  Pointwise-back (x ∷ xs) (z ∷ ys) zero y e h = (x, refl, subst (R x) (ground arith) h.0)
  Pointwise-back (x ∷ xs) (z ∷ ys) (suc i) y e h = Pointwise-back xs ys i y e h.1

-- The progress of a loop that writes each place of a list once, in order.
module _ {A : Type 0} (R : A → A → Type 0) where
  -- Of two lists of one length, the first k elements are related and the others the same.
  abbrev pub Swept : ℕ → List A → List A → Type 0
  Swept k [] [] = Unit
  Swept zero (x ∷ xs) (y ∷ ys) = (y ≡ x) × Swept zero xs ys
  Swept (suc k) (x ∷ xs) (y ∷ ys) = R x y × Swept k xs ys
  Swept k xs ys = ⊥

  pub Swept-refl : (xs : List A) → Swept 0 xs xs
  Swept-refl [] = tt
  Swept-refl (x ∷ xs) = (refl, Swept-refl xs)

  pub length-Swept : (k : ℕ) (xs ys : List A) → Swept k xs ys → length ys ≡ length xs
  length-Swept k [] [] h = refl
  length-Swept zero [] (y ∷ ys) h = elim h [ ]
  length-Swept (suc k) [] (y ∷ ys) h = elim h [ ]
  length-Swept zero (x ∷ xs) [] h = elim h [ ]
  length-Swept (suc k) (x ∷ xs) [] h = elim h [ ]
  length-Swept zero (x ∷ xs) (y ∷ ys) h = ap suc (length-Swept zero xs ys h.1)
  length-Swept (suc k) (x ∷ xs) (y ∷ ys) h = ap suc (length-Swept k xs ys h.1)

  -- The next write of a sweep.
  pub Swept-set :
      (k : ℕ) (xs ys : List A) (y v : A)
      → get_elem? ys k ≡ some y
      → R y v
      → Swept k xs ys
      → Swept (suc k) xs (set ys k v)
  Swept-set k [] [] y v e r h = cc
  Swept-set zero [] (z ∷ ys) y v e r h = elim h [ ]
  Swept-set (suc k) [] (z ∷ ys) y v e r h = elim h [ ]
  Swept-set zero (x ∷ xs) [] y v e r h = elim h [ ]
  Swept-set (suc k) (x ∷ xs) [] y v e r h = elim h [ ]
  Swept-set zero (x ∷ xs) (z ∷ ys) y v e r h =
      let same : y ≡ x = ground (arith, h.0) in (subst (λ u. R u v) same r, h.1)
  Swept-set (suc k) (x ∷ xs) (z ∷ ys) y v e r h = (h.0, Swept-set k xs ys y v e r h.1)

  -- A sweep of the whole list.
  pub Swept-Pointwise : (k : ℕ) (xs ys : List A) → k ≡ length xs → Swept k xs ys → Pointwise R xs ys
  Swept-Pointwise k [] [] e h = tt
  Swept-Pointwise zero [] (y ∷ ys) e h = elim h [ ]
  Swept-Pointwise (suc k) [] (y ∷ ys) e h = elim h [ ]
  Swept-Pointwise zero (x ∷ xs) ys e h = absurd (omega (arith, e))
  Swept-Pointwise (suc k) (x ∷ xs) [] e h = elim h [ ]
  Swept-Pointwise (suc k) (x ∷ xs) (y ∷ ys) e h =
      (h.0, Swept-Pointwise k xs ys (omega (arith, e)) h.1)
