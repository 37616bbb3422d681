-- ===== src/Base/Maps.antt =====
-- `std::unordered_map` as an association list without a second entry for a key.
use Prim.Native.Nat.{ℕ}
use Prim.Native.String.{String}
use mathlib.Core.Path.{◌≡◌, refl, ◌∙◌}
use mathlib.Core.Logic.{◌↔◌, inl, inr}
use mathlib.Core.Bool.{Bool, true, false, ◌&&◌}
use mathlib.Core.Option.{Option, none, some}
use mathlib.Core.List.{List, [], ◌∷◌}
use native.Mathlib.Omega.{arith}
use text.Mathlib.Text.{◌==◌ as str_eq}
use text.Mathlib.TextEquality.{eq_iff}
use proj8315server.Base.Tests.{if◌then◌else◌, ◌==◌, ==_iff, Bool-cases}
use proj8315server.Base.Lists.{All}

-- A test of keys for equality.
pub record Eq {ℓ} (K : Type ℓ) : Type ℓ where
  pub beq : K → K → Bool
  pub beq_iff : (a b : K) → (beq a b ≡ true) ↔ (a ≡ b)

instance abbrev pub string_eq : Eq String
string_eq = record { beq = str_eq; beq_iff = eq_iff }

-- Texts that the program walks are lists of their characters' codes.
abbrev pub text_beq : List ℕ → List ℕ → Bool
text_beq [] [] = true
text_beq [] (b ∷ bs) = false
text_beq (a ∷ as') [] = false
text_beq (a ∷ as') (b ∷ bs) = a == b && text_beq as' bs

text_beq-eq : (s t : List ℕ) → text_beq s t ≡ true → s ≡ t
text_beq-eq [] [] h = refl
text_beq-eq [] (b ∷ bs) h = cc
text_beq-eq (a ∷ as') [] h = cc
text_beq-eq (a ∷ as') (b ∷ bs) h = ground (arith, text_beq-eq as' bs)

text_beq_refl : (s : List ℕ) → text_beq s s ≡ true
text_beq_refl [] = refl
text_beq_refl (a ∷ as') = rw ((==_iff a a).1 refl, text_beq_refl as')

pub text_beq_iff : (s t : List ℕ) → (text_beq s t ≡ true) ↔ (s ≡ t)
text_beq_iff s t = (text_beq-eq s t, λ e. rw e (text_beq_refl t))

instance abbrev pub text_eq : Eq (List ℕ)
text_eq = record { beq = text_beq; beq_iff = text_beq_iff }

pub beq_refl {ℓ} : {K : Type ℓ} ⦃e : Eq K⦄ (k : K) → e.beq k k ≡ true
beq_refl ⦃e⦄ k = (e.beq_iff k k).1 refl

abbrev pub Dict {ℓ κ} : Type ℓ → Type κ → Type (ℓ ⊔ κ)
Dict K V = List (K × V)

module _ {ℓ κ} {K : Type ℓ} {V : Type κ} ⦃e : Eq K⦄ where
  -- `find`.
  unfoldable pub find : K → Dict K V → Option V
  find k [] = none
  find k ((j, v) ∷ m) = if e.beq j k then some v else find k m

  -- `m[k] = v`: the old entry, if there is one, is overwritten.
  unfoldable pub put : K → V → Dict K V → Dict K V
  put k v [] = (k, v) ∷ []
  put k v ((j, w) ∷ m) = if e.beq j k then (j, v) ∷ m else (j, w) ∷ put k v m

  -- `erase`.
  unfoldable pub remove : K → Dict K V → Dict K V
  remove k [] = []
  remove k ((j, v) ∷ m) = let rest = remove k m in if e.beq j k then rest else (j, v) ∷ rest

  pub find-put :
      (k j : K) (v : V) (m : Dict K V)
      → find j (put k v m) ≡ (if e.beq k j then some v else find j m)
  unfolding find put
  find-put k j v [] = refl
  find-put k j v ((i, w) ∷ m) =
      ground (arith, e.beq_iff k j, e.beq_iff i k, e.beq_iff i j, find-put k j v m)

  pub find-remove :
      (k j : K) (m : Dict K V) → find j (remove k m) ≡ (if e.beq k j then none else find j m)
  unfolding find remove
  find-remove k j [] = ground arith
  find-remove k j ((i, w) ∷ m) =
      ground (arith, e.beq_iff k j, e.beq_iff i k, e.beq_iff i j, find-remove k j m)

  pub All-put {ι} :
      (P : K × V → Type ι) (k : K) (v : V) (m : Dict K V) → P (k, v) → All P m → All P (put k v m)
  unfolding put
  All-put P k v [] p h = (p, tt)
  All-put P k v ((j, w) ∷ m) p h = elim (Bool-cases (e.beq j k)) [
    | inl same ↦ rw same (rw (← (e.beq_iff j k).0 same) at p, h.1)
    | inr other ↦ rw other (h.0, All-put P k v m p h.1)
  ]

  pub All-remove {ι} : (P : K × V → Type ι) (k : K) (m : Dict K V) → All P m → All P (remove k m)
  unfolding remove
  All-remove P k [] h = tt
  All-remove P k ((j, w) ∷ m) h = elim (Bool-cases (e.beq j k)) [
    | inl same ↦ rw same (All-remove P k m h.1)
    | inr other ↦ rw other (h.0, All-remove P k m h.1)
  ]

  -- No key has a second entry.
  abbrev pub Distinct : Dict K V → Type κ
  Distinct [] = Unit
  Distinct ((k, v) ∷ m) = (find k m ≡ none) × Distinct m

  pub put-Distinct : (k : K) (v : V) (m : Dict K V) → Distinct m → Distinct (put k v m)
  unfolding put find
  put-Distinct k v [] h = (refl, tt)
  put-Distinct k v ((j, w) ∷ m) h = elim (Bool-cases (e.beq j k)) [
    | inl same ↦ rw same h
    | inr other ↦
        let apart : e.beq k j ≡ false = ground (arith, e.beq_iff k j, e.beq_iff j k) in
        rw other (find-put k j v m ∙ rw apart h.0, put-Distinct k v m h.1)
  ]

  pub remove-Distinct : (k : K) (m : Dict K V) → Distinct m → Distinct (remove k m)
  unfolding remove
  remove-Distinct k [] h = tt
  remove-Distinct k ((j, w) ∷ m) h = elim (Bool-cases (e.beq j k)) [
    | inl same ↦ rw same (remove-Distinct k m h.1)
    | inr other ↦
        let apart : e.beq k j ≡ false = ground (arith, e.beq_iff k j, e.beq_iff j k) in
        rw other (find-remove k j m ∙ rw apart h.0, remove-Distinct k m h.1)
  ]
