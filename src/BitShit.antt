-- ===== src/BitShit.antt =====
-- The templates of src/BitShit.hpp, for unsigned types that are not promoted. Positions are not
-- negative. `none` is a shift by the width of its operand or more, which C++ leaves undefined.
pub mod Laws
pub mod Extract
use proj8315server.Base.{
  ℕ, zero, suc, ◌+◌, ◌-◌, Bool, true, false, not, ◌&&◌, ◌||◌, Option, none, some, ltb, leb, ◌==◌,
  if◌then◌else◌, ◌>>=◌,
}
use proj8315server.World.Loops.{for_count}

-- A value of an unsigned type of `width` bits, the lowest bit at 0.
pub record Word : Type 0 where
  pub width : ℕ
  pub bits : ℕ → Bool

-- The bit at a position, which is 0 past the width.
unfoldable pub bit_at : Word → ℕ → Bool
bit_at v i = ltb i v.width && v.bits i

-- The wider of two types, to which `&` and `|` convert both operands.
unfoldable pub wider : ℕ → ℕ → ℕ
wider a b = if ltb a b then b else a

unfoldable pub word_and : Word → Word → Word
word_and a b = record { width = wider a.width b.width; bits = λ i. bit_at a i && bit_at b i }

unfoldable pub word_or : Word → Word → Word
word_or a b = record { width = wider a.width b.width; bits = λ i. bit_at a i || bit_at b i }

unfoldable pub word_not : Word → Word
word_not a = record { width = a.width; bits = λ i. not (bit_at a i) }

unfoldable pub shift_left : Word → ℕ → Option Word
shift_left v k =
    if ltb k v.width
    then some (record { width = v.width; bits = λ i. leb k i && bit_at v (i - k) })
    else none

unfoldable pub shift_right : Word → ℕ → Option Word
shift_right v k =
    if ltb k v.width then some (record { width = v.width; bits = λ i. bit_at v (i + k) }) else none

-- A conversion to a type of another width.
unfoldable pub cast : ℕ → Word → Word
cast w v = record { width = w; bits = bit_at v }

-- `(T)bit`, `(T)1` and `0x1`.
unfoldable pub of_bool : ℕ → Bool → Word
of_bool w bit = record { width = w; bits = λ i. (i == 0) && bit }

-- Whether some of the lowest bits is set.
unfoldable pub any_bit : ℕ → (ℕ → Bool) → Bool
any_bit zero f = false
any_bit (suc n) f = f n || any_bit n f

-- The conversion to `bool`.
unfoldable pub to_bool : Word → Bool
to_bool v = any_bit v.width (bit_at v)

unfoldable pub is_set : Word → ℕ → Option Bool
is_set val position = do
  shifted ← shift_right val position
  some (to_bool (word_and shifted (of_bool 32 true)))

-- `target = ((target & ~mask) | bit << i)`, as the three writers below have it.
unfoldable pub overwrite : Word → Word → Word → Word
overwrite target mask bit = cast target.width (word_or (word_and target (word_not mask)) bit)

unfoldable pub set_bit : Word → ℕ → Bool → Option Word
set_bit target position bit = do
  mask ← shift_left (of_bool target.width true) position
  let bit_t = of_bool target.width bit
  shifted ← shift_left bit_t position
  some (overwrite target mask shifted)

unfoldable pub set_area_step : Word → ℕ → ℕ → Word → Option Word
set_area_step input start_pos j target = do
  let i = j + start_pos
  bit ← is_set input j
  let bit_a = of_bool target.width bit
  mask_a ← shift_left (of_bool target.width true) i
  shifted ← shift_left bit_a i
  some (overwrite target mask_a shifted)

unfoldable pub set_area : Word → Word → ℕ → ℕ → Option Word
set_area target input start_pos bit_count =
    for_count 0 bit_count (set_area_step input start_pos) target

unfoldable pub convert_area_step : Word → ℕ → ℕ → Word → Option Word
convert_area_step input position i output = do
  let j = position + i
  moved ← shift_right input j
  let bit = cast input.width (word_and moved (of_bool 32 true))
  mask ← shift_left (of_bool input.width true) i
  shifted ← shift_left bit i
  some (overwrite output mask shifted)

unfoldable pub convert_area : Word → Word → ℕ → ℕ → Option Word
convert_area input output position bit_count =
    for_count 0 bit_count (convert_area_step input position) output
