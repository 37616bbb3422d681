-- ===== src/ByteBuffer.antt =====
-- src/ByteBuffer.h and src/ByteBuffer.cpp: a block of bytes with the kind of value that it was made
-- of. Integers stand in memory as they do on a little-endian machine.
pub mod Laws
use proj8315server.Base.{
  ℕ, zero, suc, ◌+◌, ◌-◌, ◌/◌, ◌%◌, ◌^◌, Bool, true, false, Option, none, some, List, [], ◌∷◌,
  length, drop, replicate, leb, if◌then◌else◌, ◌>>=◌, ℤ, pos, negsuc,
}
use proj8315server.Memory.{Cell, Memory, allocate, splice, write, read, release, outside}

pub data DataType : Type 0 where
  empty byte int32 text : DataType

-- `_type`, `_data` and `_size`.
pub record ByteBuffer : Type 0 where
  pub data_type : DataType
  pub bytes : Option ℕ
  pub size : ℕ

-- The bytes of an `int32_t`, the lowest first.
abbrev pub int32_word : ℤ → ℕ
int32_word (pos n) = n
int32_word (negsuc n) = 2 ^ 32 - n - 1

unfoldable pub int32_cells : ℤ → List Cell
int32_cells v =
    let n = int32_word v in
    some (n % 2 ^ 8)
    ∷ some (n / 2 ^ 8 % 2 ^ 8)
    ∷ some (n / 2 ^ 16 % 2 ^ 8)
    ∷ some (n / 2 ^ 24 % 2 ^ 8)
    ∷ []

-- `new`, `memset` to 0 and `memcpy`, which the constructors have in common.
unfoldable pub filled : DataType → ℕ → List Cell → Memory → Option (ByteBuffer × Memory)
filled t n cells mem =
    let r = allocate n mem in
    write r.0 0 (replicate n (some 0)) r.1 >>= λ cleared. write r.0 0 cells cleared >>= λ copied.
    some (record { data_type = t; bytes = some r.0; size = n }, copied)

unfoldable pub of_byte : ℕ → Memory → Option (ByteBuffer × Memory)
of_byte b mem = filled byte 1 (some b ∷ []) mem

abbrev pub no_bytes : ByteBuffer
no_bytes = record { data_type = empty; bytes = none; size = 0 }

-- `cStr` is null or points to so many bytes.
unfoldable pub of_text : Option (List ℕ) → ℤ → Memory → Option (ByteBuffer × Memory)
of_text (some s) (pos (suc n)) mem = outside s (suc n) >>= λ cells. filled text (suc n) cells mem
of_text _ _ mem = some (no_bytes, mem)

unfoldable pub of_nothing : Memory → Option (ByteBuffer × Memory)
of_nothing mem = of_text none (pos 0) mem

unfoldable pub of_int32 : ℤ → Memory → Option (ByteBuffer × Memory)
of_int32 v mem = filled int32 4 (int32_cells v) mem

-- The cells that a buffer holds; `memcpy` of no bytes reads nothing, also from a null pointer.
unfoldable pub contents : ByteBuffer → Memory → Option (List Cell)
contents b mem = elim b.bytes [
  | none ↦ if leb b.size 0 then some [] else none
  | some a ↦ read a b.size mem
]

-- The copy constructor.
unfoldable pub copy : ByteBuffer → Memory → Option (ByteBuffer × Memory)
copy other mem =
    let r = allocate other.size mem in
    contents other r.1 >>= λ cells. write r.0 0 cells r.1 >>= λ copied.
    some (record { data_type = other.data_type; bytes = some r.0; size = other.size }, copied)

-- The destructor.
unfoldable pub destroy : ByteBuffer → Memory → Option Memory
destroy b mem = elim b.bytes [ none ↦ some mem | some a ↦ release a mem ]

unfoldable pub is_empty : ByteBuffer → Bool
is_empty b = elim b.data_type [ empty ↦ true | _ ↦ false ]

unfoldable pub get_string : ByteBuffer → Memory → Option (List Cell)
get_string b mem = contents b mem

-- `getVal<T>` for a T of n bytes; what is not copied is indeterminate, and a buffer that is larger
-- than T is written behind the end of the value.
unfoldable pub get_val : ℕ → ByteBuffer → Memory → Option (List Cell)
get_val n b mem = elim b.data_type [
  | text ↦ some (replicate n (some 0))
  | _ ↦ contents b mem >>= λ cells.
      if leb (length cells) n then some (splice 0 cells (replicate n none)) else none
]

-- `get_val<T>(buffer, pos)`.
unfoldable pub get_val_at : ℕ → List ℕ → ℕ → Option (List Cell)
get_val_at n buffer position = outside (drop position buffer) n
