-- ===== src/Base/Effects.antt =====
-- Code that changes a state and may fault: `none` is undefined behaviour of the source.
use mathlib.Core.Bool.{Bool, true, false}
use mathlib.Core.Option.{Option, none, some}
use proj8315server.Base.Tests.{if◌then◌else◌}

abbrev pub Effect : Type 0 → Type 0 → Type 0
Effect S A = S → Option (A × S)

abbrev pub pure : {S A : Type 0} → A → Effect S A
pure a s = some (a, s)

infixl 5 ◌>>=◌ ◌>>◌
abbrev pub ◌>>=◌ : {S A B : Type 0} → Effect S A → (A → Effect S B) → Effect S B
◌>>=◌ m f s = elim (m s) [ none ↦ none | some (a, t) ↦ f a t ]

abbrev pub ◌>>◌ : {S B : Type 0} → Effect S (Unit {0}) → Effect S B → Effect S B
◌>>◌ m k s = elim (m s) [ none ↦ none | some (_, t) ↦ k t ]

abbrev pub modify : {S : Type 0} → (S → S) → Effect S (Unit {0})
modify f s = some (tt, f s)

-- A value read from the state.
abbrev pub gets : {S A : Type 0} → (S → A) → Effect S A
gets f s = some (f s, s)

-- If the code ends without a fault, its state is one of which `P` holds.
abbrev pub Holds : {S A : Type 0} → (S → Type 0) → Option (A × S) → Type 0
Holds P none = Unit
Holds P (some (a, t)) = P t

pub Holds->>= :
    {S A B : Type 0} (P Q : S → Type 0) (m : Option (A × S)) (f : A → Effect S B)
    → Holds P m
    → ((a : A) (t : S) → P t → Holds Q (f a t))
    → Holds Q (elim m [ none ↦ none | some (a, t) ↦ f a t ])
Holds->>= P Q none f h k = tt
Holds->>= P Q (some (a, t)) f h k = k a t h

pub Holds-if :
    {S A : Type 0} (P : S → Type 0) (b : Bool) (x y : Option (A × S))
    → Holds P x
    → Holds P y
    → Holds P (if b then x else y)
Holds-if P true x y hx hy = hx
Holds-if P false x y hx hy = hy

pub Holds-if_run :
    {S A : Type 0} (P : S → Type 0) (b : Bool) (f g : Effect S A) (s : S)
    → Holds P (f s)
    → Holds P (g s)
    → Holds P ((if b then f else g) s)
Holds-if_run P true f g s hf hg = hf
Holds-if_run P false f g s hf hg = hg
