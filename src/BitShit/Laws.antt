-- ===== src/BitShit/Laws.antt =====
-- What the areas of src/BitShit.hpp keep and move.
use proj8315server.Base.{
  ℕ, zero, suc, ◌+◌, ◌-◌, ◌<◌, ◌≤◌, ◌≡◌, ◌≢◌, ◌⊎◌, inl, inr, refl, sym, ap, ◌∙◌, Bool, true, false,
  not, ◌&&◌, ◌||◌, some, ltb, leb, ◌==◌, if◌then◌else◌, arith, lt→ltb,
}
use proj8315server.World.Loops.{Returns, Returns->>=, for_count-Steps}
use proj8315server.BitShit.{
  Word, bit_at, wider, word_and, word_or, word_not, shift_left, shift_right, cast, of_bool, any_bit,
  to_bool, is_set, overwrite, set_area_step, set_area,
}

and_at : (a b : Word) (i : ℕ) → bit_at (word_and a b) i ≡ bit_at a i && bit_at b i
unfolding bit_at word_and wider
and_at a b i = grind arith

or_at : (a b : Word) (i : ℕ) → bit_at (word_or a b) i ≡ bit_at a i || bit_at b i
unfolding bit_at word_or wider
or_at a b i = grind arith

pub cast_at : (w : ℕ) (v : Word) (i : ℕ) → bit_at (cast w v) i ≡ ltb i w && bit_at v i
unfolding bit_at cast
cast_at w v i = refl

not_at : (v : Word) (i : ℕ) → bit_at (word_not v) i ≡ ltb i v.width && not (bit_at v i)
unfolding bit_at word_not
not_at v i = refl

bit_at-width : (v : Word) (i : ℕ) → bit_at v i ≡ ltb i v.width && bit_at v i
unfolding bit_at
bit_at-width v i = grind arith

written :
    (i k w : ℕ) (t n v : Bool)
    → k < w
    → t ≡ ltb i w && t
    → ltb i w && ((t && (n && not ((i == k) && true))) || ((i == k) && v))
      ≡ (if i == k then v else (n && t))
written i k w t n v h e = grind arith

pub overwrite_at :
    (t m b : Word) (k : ℕ) (v : Bool)
    → k < t.width
    → ((i : ℕ) → bit_at m i ≡ (i == k) && true)
    → ((i : ℕ) → bit_at b i ≡ (i == k) && v)
    → (i : ℕ) → bit_at (overwrite t m b) i ≡ (if i == k then v else (ltb i m.width && bit_at t i))
unfolding overwrite
overwrite_at t m b k v kt hm hb i =
    rw
      (
        cast_at t.width (word_or (word_and t (word_not m)) b) i,
        or_at (word_and t (word_not m)) b i,
        and_at t (word_not m) i,
        not_at m i,
        hm i,
        hb i,
      )
      (written i k t.width (bit_at t i) (ltb i m.width) v kt (bit_at-width t i))

pub chosen : (k : ℕ) (x v : Bool) → (if k == k then v else x) ≡ v
chosen k x v = ground arith

pub kept : (i k : ℕ) (x v : Bool) → i ≢ k → (if i == k then v else x) ≡ x
kept i k x v n = ground arith

-- A word with the bit at one position, and no other.
pub record IsBit (w k : ℕ) (v : Bool) (s : Word) : Type 0 where
  pub wide : s.width ≡ w
  pub at : (i : ℕ) → bit_at s i ≡ (i == k) && v

-- A word after a bit of it is written.
record Changes (t : Word) (k : ℕ) (v : Bool) (w : Word) : Type 0 where
  wide : w.width ≡ t.width
  here : bit_at w k ≡ v
  other : (i : ℕ) → i ≢ k → bit_at w i ≡ bit_at t i

overwrite-Changes :
    (t m b : Word) (k : ℕ) (v : Bool)
    → k < t.width
    → IsBit t.width k true m
    → ((i : ℕ) → bit_at b i ≡ (i == k) && v)
    → Changes t k v (overwrite t m b)
unfolding overwrite cast
overwrite-Changes t m b k v kt hm hb = record {
  wide = refl;
  here = at k ∙ chosen k (ltb k m.width && bit_at t k) v;
  other = λ i n.
      at i ∙ kept i k (ltb i m.width && bit_at t i) v n ∙ rw hm.wide (sym (bit_at-width t i));
}
  where
    at :
        (i : ℕ) → bit_at (overwrite t m b) i ≡ (if i == k then v else (ltb i m.width && bit_at t i))
    at i = overwrite_at t m b k v kt hm.at hb i

shifted :
    (w k i : ℕ) (v : Bool)
    → k < w
    → ltb i w && (leb k i && (ltb (i - k) w && ((i - k == 0) && v))) ≡ (i == k) && v
shifted w k i v h = ground arith

pub one_at : (w k : ℕ) (v : Bool) → k < w → Returns (IsBit w k v) (shift_left (of_bool w v) k)
unfolding shift_left of_bool bit_at
one_at w k v h = rw (lt→ltb k w h) (record { wide = refl; at = λ i. shifted w k i v h })

above : (n : ℕ) (c : Bool) → (suc n == 0) && c ≡ false
above n c = ground arith

any_bit-first :
    (n : ℕ) (f : ℕ → Bool) (c : Bool) → ((i : ℕ) → f i ≡ (i == 0) && c) → any_bit (suc n) f ≡ c
unfolding any_bit
any_bit-first zero f c h = grind arith
any_bit-first (suc n) f c h =
    ap (λ b. b || any_bit (suc n) f) (h (suc n) ∙ above n c) ∙ any_bit-first n f c h

to_bool-first :
    (v : Word) (c : Bool) → 0 < v.width → ((i : ℕ) → bit_at v i ≡ (i == 0) && c) → to_bool v ≡ c
unfolding to_bool
to_bool-first v c p h = positive v.width p
  where
    positive : (n : ℕ) → 0 < n → any_bit n (bit_at v) ≡ c
    positive zero q = absurd (omega arith)
    positive (suc n) q = any_bit-first n (bit_at v) c h

-- What `val >> k` is where it is defined.
abbrev pub moved : Word → ℕ → Word
moved v k = record { width = v.width; bits = λ i. bit_at v (i + k) }

lowest :
    (i k w : ℕ) (f : ℕ → Bool) (c : Bool)
    → k < w
    → (i ≡ 0 → f (i + k) ≡ c)
    → (ltb i w && f (i + k)) && (ltb i 32 && ((i == 0) && true)) ≡ (i == 0) && c
lowest zero k w f c h e = rw (e refl) grind arith
lowest (suc i) k w f c h e = grind arith

pub moved_at :
    (v : Word) (k : ℕ)
    → k < v.width
    → (i : ℕ) → bit_at (word_and (moved v k) (of_bool 32 true)) i ≡ (i == 0) && bit_at v k
unfolding of_bool bit_at
moved_at v k h i =
    and_at (moved v k) (of_bool 32 true) i
    ∙ lowest i k v.width (bit_at v) (bit_at v k) h (λ e. ap (bit_at v) (omega arith))

wide_enough : (w : ℕ) → 0 < wider w 32
unfolding wider
wide_enough w = ground arith

is_set-bit_at : (v : Word) (k : ℕ) → k < v.width → is_set v k ≡ some (bit_at v k)
unfolding is_set shift_right word_and of_bool
is_set-bit_at v k h = rw (lt→ltb k v.width h) (
    ap some (
      to_bool-first (word_and (moved v k) (of_bool 32 true)) (bit_at v k) (wide_enough v.width)
        (moved_at v k h)))

pub last_or_before : (i k : ℕ) → i < k + 1 → (i < k) ⊎ (i ≡ k)
last_or_before i k h = ground arith

-- Some bits of the input are laid over those of the target, from a position on.
pub record IsOverlaid (target input : Word) (first count : ℕ) (v : Word) : Type 0 where
  pub wide : v.width ≡ target.width
  pub inside : (i : ℕ) → i < count → bit_at v (i + first) ≡ bit_at input i
  pub before : (i : ℕ) → i < first → bit_at v i ≡ bit_at target i
  pub behind : (i : ℕ) → first + count ≤ i → bit_at v i ≡ bit_at target i

module _ (target input : Word) (first count : ℕ) where
  set_area_step-IsOverlaid :
      first + count ≤ target.width
      → count ≤ input.width
      → (k : ℕ) (v : Word) → k < count
      → IsOverlaid target input first k v
      → Returns (IsOverlaid target input first (k + 1)) (set_area_step input first k v)
  unfolding set_area_step
  set_area_step-IsOverlaid fits has k v kc h = rw (is_set-bit_at input k (omega arith)) (
      Returns->>= (IsBit v.width (k + first) true) _ (shift_left (of_bool v.width true) (k + first))
        _ (one_at v.width (k + first) true inside_v)
        (λ m hm.
          Returns->>= (IsBit v.width (k + first) (bit_at input k)) _
            (shift_left (of_bool v.width (bit_at input k)) (k + first)) _
            (one_at v.width (k + first) (bit_at input k) inside_v)
            (λ b hb.
              overlaid (overwrite-Changes v m b (k + first) (bit_at input k) inside_v hm hb.at))))
    where
      inside_v : k + first < v.width
      inside_v = rw h.wide (omega arith)

      overlaid :
          {w : Word}
          → Changes v (k + first) (bit_at input k) w
          → IsOverlaid target input first (k + 1) w
      overlaid {w} c = record {
        wide = c.wide ∙ h.wide;
        inside = λ i l. elim (last_or_before i k l) [
          | inr e ↦ rw e (ap (bit_at w) (omega arith) ∙ c.here)
          | inl n ↦ c.other (i + first) (λ e. absurd (omega arith)) ∙ h.inside i n
        ];
        before = λ i l. c.other i (λ e. absurd (omega arith)) ∙ h.before i l;
        behind = λ i l. c.other i (λ e. absurd (omega arith)) ∙ h.behind i (omega arith);
      }

  -- A run of bits that lies within the input and, from its first position on, within the target is
  -- laid over the target without a fault: the result has the width of the target, the bits of the
  -- input in that run, and those of the target below and behind it.
  pub set_area-IsOverlaid :
      first + count ≤ target.width
      → count ≤ input.width
      → Returns (IsOverlaid target input first count) (set_area target input first count)
  unfolding set_area
  set_area-IsOverlaid fits has =
      for_count-Steps (IsOverlaid target input first) (set_area_step input first) count
        (set_area_step-IsOverlaid fits has) count 0 target (omega arith)
        (record {
          wide = refl;
          inside = λ i l. absurd (omega arith);
          before = λ i l. refl;
          behind = λ i l. refl;
        })
