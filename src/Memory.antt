-- ===== src/Memory.antt =====
-- Blocks of bytes on the heap, as `new[]`, `delete[]`, `memset` and `memcpy` use them in
-- src/ByteBuffer.cpp and src/Responses.cpp. An address is the number of a block. `none` is undefined
-- behaviour: an access outside a block, or to one that is gone.
pub mod Laws
use proj8315server.Base.{
  ℕ, zero, suc, ◌+◌, Option, none, some, List, [], ◌∷◌, ◌++◌, length, get_elem?, set, take, drop,
  replicate, map, leb, if◌then◌else◌, ◌>>=◌,
}

-- A byte, or one that nothing was written to.
abbrev pub Cell : Type 0
Cell = Option ℕ

-- A block that was deleted stays as `none`.
abbrev pub Memory : Type 0
Memory = List (Option (List Cell))

-- `new char[n]`.
unfoldable pub allocate : ℕ → Memory → ℕ × Memory
allocate n mem = (length mem, mem ++ some (replicate n none) ∷ [])

unfoldable pub block : ℕ → Memory → Option (List Cell)
block a mem = get_elem? mem a >>= λ b. b

-- Cells written over those of a block from an offset on.
unfoldable pub splice : ℕ → List Cell → List Cell → List Cell
splice offset cells b = take offset b ++ (cells ++ drop (offset + length cells) b)

-- `memcpy(block + offset, cells, n)`, where `cells` are the n that are read.
unfoldable pub write : ℕ → ℕ → List Cell → Memory → Option Memory
write a offset cells mem = block a mem >>= λ b.
    if leb (offset + length cells) (length b)
    then some (set mem a (some (splice offset cells b)))
    else none

-- The first n cells of a block.
unfoldable pub read : ℕ → ℕ → Memory → Option (List Cell)
read a n mem = block a mem >>= λ b. if leb n (length b) then some (take n b) else none

-- `delete[]`.
unfoldable pub release : ℕ → Memory → Option Memory
release a mem = block a mem >>= λ b. some (set mem a none)

-- A pointer to bytes outside these blocks, of which n are read.
unfoldable pub outside : List ℕ → ℕ → Option (List Cell)
outside bytes n = if leb n (length bytes) then some (map some (take n bytes)) else none
