-- ===== src/Memory/Laws.antt =====
-- Laws of a block that was allocated last.
use mathlib.Core.List.{append-nil}
use proj8315server.Base.{
  ℕ, zero, suc, ◌+◌, ◌≤◌, ◌<◌, ◌≡◌, refl, sym, ap, ◌∙◌, true, Option, none, some, List, [], ◌∷◌,
  ◌++◌, length, length-append, get_elem?, set, take, drop, map, leb, arith, Bool-cases, inl, inr,
}
use proj8315server.Memory.{Cell, Memory, block, splice, write, read, release}

pub le→leb : (a b : ℕ) → a ≤ b → leb a b ≡ true
le→leb a b h = ground arith

module _ {ℓ} {A : Type ℓ} where
  get_elem?-last : (xs : List A) (v : A) → get_elem? (xs ++ v ∷ []) (length xs) ≡ some v
  get_elem?-last [] v = refl
  get_elem?-last (x ∷ xs) v = get_elem?-last xs v

  set-last : (xs : List A) (v w : A) → set (xs ++ v ∷ []) (length xs) w ≡ xs ++ w ∷ []
  set-last [] v w = refl
  set-last (x ∷ xs) v w = ap (λ ys. x ∷ ys) (set-last xs v w)

  pub get_elem?-append :
      (xs ys : List A) (i : ℕ) (v : A) → get_elem? xs i ≡ some v → get_elem? (xs ++ ys) i ≡ some v
  get_elem?-append [] ys i v h = absurd (cc)
  get_elem?-append (x ∷ xs) ys zero v h = h
  get_elem?-append (x ∷ xs) ys (suc i) v h = get_elem?-append xs ys i v h

  pub take_all : (n : ℕ) (xs : List A) → length xs ≤ n → take n xs ≡ xs
  take_all zero [] h = refl
  take_all zero (x ∷ xs) h = absurd (omega arith)
  take_all (suc n) [] h = refl
  take_all (suc n) (x ∷ xs) h = ap (λ ys. x ∷ ys) (take_all n xs (omega arith))

  pub drop_all : (n : ℕ) (xs : List A) → length xs ≤ n → drop n xs ≡ []
  drop_all zero [] h = refl
  drop_all zero (x ∷ xs) h = absurd (omega arith)
  drop_all (suc n) [] h = refl
  drop_all (suc n) (x ∷ xs) h = drop_all n xs (omega arith)

  pub take-append : (xs ys : List A) → take (length xs) (xs ++ ys) ≡ xs
  take-append [] ys = refl
  take-append (x ∷ xs) ys = ap (λ zs. x ∷ zs) (take-append xs ys)

  pub length-take : (n : ℕ) (xs : List A) → n ≤ length xs → length (take n xs) ≡ n
  length-take zero xs h = refl
  length-take (suc n) [] h = absurd (omega arith)
  length-take (suc n) (x ∷ xs) h = ap suc (length-take n xs (omega arith))

  pub length-map {κ} : {B : Type κ} (f : A → B) (xs : List A) → length (map f xs) ≡ length xs
  length-map f [] = refl
  length-map f (x ∷ xs) = ap suc (length-map f xs)

pub splice_whole : (cells b : List Cell) → length cells ≡ length b → splice 0 cells b ≡ cells
unfolding splice
splice_whole cells b h =
    ap (λ r. cells ++ r) (drop_all (0 + length cells) b (omega (arith, h))) ∙ append-nil cells

-- The second part of a block, behind a first that is there.
pub splice_behind :
    (first cells b : List Cell)
    → length cells ≡ length b
    → splice (length first) cells (first ++ b) ≡ first ++ cells
unfolding splice
splice_behind first cells b h =
    ap (λ p. p ++ (cells ++ drop (length first + length cells) (first ++ b))) (take-append first b)
    ∙ ap (λ r. first ++ (cells ++ r))
        (drop_all (length first + length cells) (first ++ b)
          (omega (arith, length-append {A = Cell} first b, h)))
    ∙ ap (λ r. first ++ r) (append-nil cells)

module _ (mem : Memory) (b : List Cell) where
  pub block-last : block (length mem) (mem ++ some b ∷ []) ≡ some b
  unfolding block
  block-last = rw (get_elem?-last mem (some b)) refl

  pub write-last :
      (offset : ℕ) (cells : List Cell)
      → offset + length cells ≤ length b
      → write (length mem) offset cells (mem ++ some b ∷ [])
        ≡ some (mem ++ some (splice offset cells b) ∷ [])
  unfolding write
  write-last offset cells h =
      rw (block-last, le→leb (offset + length cells) (length b) h)
        (ap some (set-last mem (some b) (some (splice offset cells b))))

  pub read-last : (n : ℕ) → length b ≡ n → read (length mem) n (mem ++ some b ∷ []) ≡ some b
  unfolding read
  read-last n h =
      rw (block-last, le→leb n (length b) (omega arith)) (ap some (take_all n b (omega arith)))

  pub release-last : release (length mem) (mem ++ some b ∷ []) ≡ some (mem ++ none ∷ [])
  unfolding release
  release-last = rw block-last (ap some (set-last mem (some b) none))

pub set-append :
    (c : Option (List Cell)) (xs : Memory) (i : ℕ)
    → i < length xs
    → set (xs ++ c ∷ []) i none ≡ set xs i none ++ c ∷ []
set-append c [] i h = absurd (omega arith)
set-append c (x ∷ xs) zero h = refl
set-append c (x ∷ xs) (suc i) h = ap (λ ys. x ∷ ys) (set-append c xs i (omega arith))

pub get_elem?-lt {ℓ} :
    {A : Type ℓ} (xs : List A) (i : ℕ) (v : A) → get_elem? xs i ≡ some v → i < length xs
get_elem?-lt [] i v h = absurd (cc)
get_elem?-lt (x ∷ xs) zero v h = omega arith
get_elem?-lt (x ∷ xs) (suc i) v h = omega (arith, get_elem?-lt xs i v h)

-- What was read is there, and is read again after an allocation.
pub read-block :
    (a n : ℕ) (mem : Memory) (cells : List Cell)
    → read a n mem ≡ some cells
    → (b : List Cell) × (get_elem? mem a ≡ some (some b))
      × (length cells ≡ n)
      × ((ys : Memory) → read a n (mem ++ ys) ≡ some cells)
unfolding read block
read-block a n mem cells e = by_slot (get_elem? mem a) refl
  where
    by_slot :
        (o : Option (Option (List Cell)))
        → get_elem? mem a ≡ o
        → (b : List Cell) × (get_elem? mem a ≡ some (some b))
          × (length cells ≡ n)
          × ((ys : Memory) → read a n (mem ++ ys) ≡ some cells)
    by_slot none f = let no : none ≡ some cells = rw (f, read, block) at e in absurd (cc)
    by_slot (some none) f = let no : none ≡ some cells = rw (f, read, block) at e in absurd (cc)
    by_slot (some (some b)) f = elim (Bool-cases (leb n (length b))) [
      | inr short ↦ let no : none ≡ some cells = rw (f, short, read, block) at e in absurd (cc)
      | inl fits ↦
          let taken : some (take n b) ≡ some cells = rw (f, fits, read, block) at e in
          let eq : take n b ≡ cells = cc in
          (
            b,
            f,
            sym (ap (λ l. length l) eq) ∙ length-take n b (ground arith),
            λ ys. rw (get_elem?-append mem ys a (some b) f, fits, read, block) taken,
          )
    ]
