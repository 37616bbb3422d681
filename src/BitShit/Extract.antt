-- ===== src/BitShit/Extract.antt =====
-- What `convert_area` of src/BitShit.hpp reads, and what it does of an area that `set_area` wrote.
use proj8315server.Base.{
  ℕ, ◌+◌, ◌-◌, ◌<◌, ◌≤◌, ◌≡◌, ◌≢◌, inl, inr, refl, ap, ◌∙◌, Bool, true, false, ◌&&◌, ltb, leb, ◌==◌,
  if◌then◌else◌, ◌>>=◌, arith, lt→ltb,
}
use proj8315server.World.Loops.{Returns, Returns->>=, Returns-weaken, for_count-Steps}
use proj8315server.BitShit.{
  Word, bit_at, word_and, shift_left, shift_right, cast, of_bool, overwrite, set_area,
  convert_area_step, convert_area,
}
use proj8315server.BitShit.Laws.{
  IsBit, overwrite_at, cast_at, one_at, moved, moved_at, chosen, kept, last_or_before, IsOverlaid,
  set_area-IsOverlaid,
}

lowest_at : (w i : ℕ) (v : Bool) → 0 < w → ltb i w && ((i == 0) && v) ≡ (i == 0) && v
lowest_at w i v h = ground arith

shifted_at :
    (w k i : ℕ) (v : Bool) → k < w → ltb i w && (leb k i && ((i - k == 0) && v)) ≡ (i == k) && v
shifted_at w k i v h = ground arith

-- A single bit shifted to its place.
shift_left-IsBit :
    (s : Word) (k : ℕ) (v : Bool)
    → k < s.width
    → ((i : ℕ) → bit_at s i ≡ (i == 0) && v)
    → Returns (IsBit s.width k v) (shift_left s k)
unfolding shift_left bit_at
shift_left-IsBit s k v h e = rw (lt→ltb k s.width h) (record {
  wide = refl;
  at = λ i. ap (λ b. ltb i s.width && (leb k i && b)) (e (i - k)) ∙ shifted_at s.width k i v h;
})

not_below : (i w : ℕ) (b : Bool) → w ≤ i → ltb i w && b ≡ false
not_below i w b h = ground arith

-- The first bits of the output are those of the input from a position on; the others are the
-- output's, as far as the input is wide, and 0 behind that.
pub record IsExtracted (input output : Word) (first count : ℕ) (v : Word) : Type 0 where
  pub wide : v.width ≡ output.width
  pub inside : (i : ℕ) → i < count → bit_at v i ≡ bit_at input (i + first)
  pub behind : (i : ℕ) → count ≤ i → i < input.width → bit_at v i ≡ bit_at output i
  pub beyond : (i : ℕ) → 0 < count → input.width ≤ i → bit_at v i ≡ false

module _ (input output : Word) (first count : ℕ) where
  convert_area_step-IsExtracted :
      first + count ≤ input.width
      → count ≤ output.width
      → (k : ℕ) (v : Word) → k < count
      → IsExtracted input output first k v
      → Returns (IsExtracted input output first (k + 1)) (convert_area_step input first k v)
  unfolding convert_area_step shift_right cast overwrite
  convert_area_step-IsExtracted has fits k v kc h =
      rw (lt→ltb (first + k) input.width (omega arith)) (
        Returns->>= (IsBit input.width k true) _ (shift_left (of_bool input.width true) k) _
          (one_at input.width k true (omega arith))
          (λ m hm.
            Returns->>= (IsBit input.width k (bit_at input (first + k))) _ (shift_left bit k) _
              (shift_left-IsBit bit k (bit_at input (first + k)) (omega arith) bit_first)
              (λ b hb. extracted m b hm hb)))
    where
      bit : Word
      bit = cast input.width (word_and (moved input (first + k)) (of_bool 32 true))

      bit_first : (i : ℕ) → bit_at bit i ≡ (i == 0) && bit_at input (first + k)
      bit_first i =
          cast_at input.width (word_and (moved input (first + k)) (of_bool 32 true)) i
          ∙ ap (λ b. ltb i input.width && b) (moved_at input (first + k) (omega arith) i)
          ∙ lowest_at input.width i (bit_at input (first + k)) (omega arith)

      extracted :
          (m b : Word)
          → IsBit input.width k true m
          → IsBit input.width k (bit_at input (first + k)) b
          → IsExtracted input output first (k + 1) (overwrite v m b)
      extracted m b hm hb = record {
        wide = h.wide;
        inside = λ i l. elim (last_or_before i k l) [
          | inr e ↦ rw e (at k ∙ chosen k _ _ ∙ ap (bit_at input) (omega arith))
          | inl n ↦ other i (λ e. absurd (omega arith)) ∙ within i (omega arith) ∙ h.inside i n
        ];
        behind =
            λ i l n. other i (λ e. absurd (omega arith)) ∙ within i n ∙ h.behind i (omega arith) n;
        beyond = λ i l n. other i (λ e. absurd (omega arith)) ∙ past i n;
      }
        where
          at :
              (i : ℕ)
              → bit_at (overwrite v m b) i
                ≡ (if i == k then bit_at input (first + k) else (ltb i m.width && bit_at v i))
          at i =
              overwrite_at v m b k (bit_at input (first + k)) (rw h.wide (omega arith)) hm.at hb.at
                i

          other : (i : ℕ) → i ≢ k → bit_at (overwrite v m b) i ≡ ltb i input.width && bit_at v i
          other i n = at i ∙ kept i k _ _ n ∙ ap (λ w. ltb i w && bit_at v i) hm.wide

          within : (i : ℕ) → i < input.width → ltb i input.width && bit_at v i ≡ bit_at v i
          within i n = rw (lt→ltb i input.width n) refl

          past : (i : ℕ) → input.width ≤ i → ltb i input.width && bit_at v i ≡ false
          past i n = not_below i input.width (bit_at v i) n

  -- A run of bits that lies within the input and begins at a position of it is read without a fault,
  -- if the output is wide enough: the result has the width of the output and the run as its first
  -- bits, the output's bits behind them as far as the input is wide, and 0 from there on.
  pub convert_area-IsExtracted :
      first + count ≤ input.width
      → count ≤ output.width
      → Returns (IsExtracted input output first count) (convert_area input output first count)
  unfolding convert_area
  convert_area-IsExtracted has fits =
      for_count-Steps (IsExtracted input output first) (convert_area_step input first) count
        (convert_area_step-IsExtracted has fits) count 0 output (omega arith)
        (record {
          wide = refl;
          inside = λ i l. absurd (omega arith);
          behind = λ i l n. refl;
          beyond = λ i l n. absurd (omega arith);
        })

-- A run of bits that is laid over a word, within both words, and read back from the same position into
-- a word that is wide enough gives the run again, in the width of that word, without a fault.
pub convert_area-set_area :
    (target input output : Word) (first count : ℕ)
    → first + count ≤ target.width
    → count ≤ input.width
    → count ≤ output.width
    → Returns
        (λ v. (v.width ≡ output.width) × ((i : ℕ) → i < count → bit_at v i ≡ bit_at input i))
        (set_area target input first count >>= λ w. convert_area w output first count)
convert_area-set_area target input output first count fits has room =
    Returns->>= (IsOverlaid target input first count) _ (set_area target input first count) _
      (set_area-IsOverlaid target input first count fits has)
      (λ w laid.
        Returns-weaken (IsExtracted w output first count) _ (convert_area w output first count)
          (convert_area-IsExtracted w output first count (rw laid.wide fits) room)
          (λ v got. (got.wide, λ i l. got.inside i l ∙ laid.inside i l)))
