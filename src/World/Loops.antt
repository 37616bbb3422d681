-- ===== src/World/Loops.antt =====
-- Counted `for` loops over `int`, and what it is to succeed.
use proj8315server.Base.{
  ℕ, zero, suc, ◌+◌, ◌<◌, ◌≡◌, refl, subst, arith, Option, none, some, ℤ, pos, negsuc, ◌+ℤ◌, ◌>>=◌,
}

-- `for (int i = first; i < first + count; ++i)`; `none` from the body is a fault.
unfoldable pub for_range {ℓ} : {S : Type ℓ} → ℤ → ℕ → (ℤ → S → Option S) → S → Option S
for_range i zero body s = some s
for_range i (suc n) body s = body i s >>= λ t. for_range (i +ℤ pos 1) n body t

-- The rounds of a loop from c - r to c + r.
abbrev pub rounds : ℤ → ℕ
rounds (pos r) = r + r + 1
rounds (negsuc r) = 0

-- The computation ends without a fault, in a state of which `P` holds.
abbrev pub Returns {ℓ} : {S : Type ℓ} → (S → Type 0) → Option S → Type 0
Returns P none = ⊥
Returns P (some s) = P s

pub Returns->>= {ℓ κ} :
    {S : Type ℓ} {T : Type κ} (P : S → Type 0) (Q : T → Type 0) (m : Option S) (f : S → Option T)
    → Returns P m
    → ((s : S) → P s → Returns Q (f s))
    → Returns Q (m >>= f)
Returns->>= P Q none f h k = absurd h
Returns->>= P Q (some s) f h k = k s h

-- The rule of a loop: an invariant that the body keeps without a fault holds at the end.
pub for_range-Returns {ℓ} :
    {S : Type ℓ} (P : S → Type 0) (body : ℤ → S → Option S)
    → ((i : ℤ) (s : S) → P s → Returns P (body i s))
    → (n : ℕ) (i : ℤ) (s : S) → P s
    → Returns P (for_range i n body s)
unfolding for_range
for_range-Returns P body keep zero i s h = h
for_range-Returns P body keep (suc n) i s h =
    Returns->>= P P (body i s) _ (keep i s h)
      (λ t ht. for_range-Returns P body keep n (i +ℤ pos 1) t ht)

pub Returns-some {ℓ} :
    {S : Type ℓ} (P : S → Type 0) (m : Option S) → Returns P m → (s : S) × (m ≡ some s) × P s
Returns-some P none h = absurd h
Returns-some P (some s) h = (s, refl, h)

pub Returns-weaken {ℓ} :
    {S : Type ℓ} (P Q : S → Type 0) (m : Option S)
    → Returns P m
    → ((s : S) → P s → Q s)
    → Returns Q m
Returns-weaken P Q none h k = absurd h
Returns-weaken P Q (some s) h k = k s h

-- The same from a number on.
unfoldable pub for_count {ℓ} : {S : Type ℓ} → ℕ → ℕ → (ℕ → S → Option S) → S → Option S
for_count i zero body s = some s
for_count i (suc n) body s = body i s >>= λ t. for_count (i + 1) n body t

pub for_count-Returns {ℓ} :
    {S : Type ℓ} (P : S → Type 0) (body : ℕ → S → Option S)
    → ((i : ℕ) (s : S) → P s → Returns P (body i s))
    → (n i : ℕ) (s : S) → P s
    → Returns P (for_count i n body s)
unfolding for_count
for_count-Returns P body keep zero i s h = h
for_count-Returns P body keep (suc n) i s h =
    Returns->>= P P (body i s) _ (keep i s h) (λ t ht. for_count-Returns P body keep n (i + 1) t ht)

-- The rule of a loop whose invariant counts the rounds, of which k came before.
pub for_range-Steps {ℓ} :
    {S : Type ℓ} (P : ℕ → S → Type 0) (body : ℤ → S → Option S) (end : ℕ)
    → ((k : ℕ) (i : ℤ) (s : S) → k < end → P k s → Returns (P (suc k)) (body i s))
    → (n k : ℕ) (i : ℤ) (s : S) → k + n ≡ end
    → P k s
    → Returns (P end) (for_range i n body s)
unfolding for_range
for_range-Steps P body end keep zero k i s e h = subst (λ m. Returns (P m) (some s)) (omega arith) h
for_range-Steps P body end keep (suc n) k i s e h =
    Returns->>= (P (suc k)) (P end) (body i s) _ (keep k i s (omega arith) h)
      (λ t ht. for_range-Steps P body end keep n (suc k) (i +ℤ pos 1) t (omega arith) ht)

-- The rule of a loop from a number on whose invariant counts the rounds.
pub for_count-Steps {ℓ} :
    {S : Type ℓ} (P : ℕ → S → Type 0) (body : ℕ → S → Option S) (end : ℕ)
    → ((k : ℕ) (s : S) → k < end → P k s → Returns (P (k + 1)) (body k s))
    → (n k : ℕ) (s : S) → k + n ≡ end
    → P k s
    → Returns (P end) (for_count k n body s)
unfolding for_count
for_count-Steps P body end keep zero k s e h = subst (λ m. Returns (P m) (some s)) (omega arith) h
for_count-Steps P body end keep (suc n) k s e h =
    Returns->>= (P (k + 1)) (P end) (body k s) _ (keep k s (omega arith) h)
      (λ t ht. for_count-Steps P body end keep n (k + 1) t (omega arith) ht)
