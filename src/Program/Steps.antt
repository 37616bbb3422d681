-- ===== src/Program/Steps.antt =====
-- Interleavings: runs of the five threads, and the rule for an invariant of their common state.
use proj8315server.Base.{◌≡◌}
use proj8315server.Common.{Common}
use proj8315server.Program.{Outcome, blocked, fault, went, Choice, Machine, step}

-- What comes next, if anything does, is something of which `P` holds.
abbrev pub Moves {ℓ κ} : {A : Type ℓ} → (A → Type κ) → Outcome A → Type κ
Moves P blocked = Unit
Moves P fault = Unit
Moves P (went a) = P a

-- A step of one thread, and any number of them in any order.
pub data Step (C : Common) (m : Machine C) (m' : Machine C) : Type 0 where
  by : (ch : Choice) → step C ch m ≡ went m' → Step C m m'

pub data Reach (C : Common) (m : Machine C) : Machine C → Type 0 where
  here : Reach C m m
  later : {t u : Machine C} → Reach C m t → Step C t u → Reach C m u

pub Reach-keeps :
    {C : Common} (P : Machine C → Type 0)
    → ((ch : Choice) (m : Machine C) → P m → Moves P (step C ch m))
    → {m m' : Machine C} → Reach C m m'
    → P m
    → P m'
Reach-keeps P keep here h = h
Reach-keeps {C} P keep (later {t} {u} r (by ch e)) h =
    let next : Moves P (went u) = rw e at (keep ch t (Reach-keeps P keep r h)) in next
