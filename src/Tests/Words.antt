-- ===== src/Tests/Words.antt =====
-- The theorems on bits, buffers and responses at small values.
use proj8315server.Base.{
  ℕ, ◌+◌, ◌<◌, ◌≡◌, refl, false, not, none, some, List, [], ◌∷◌, map, ◌==◌, ◌>>=◌, arith,
}
use proj8315server.World.Loops.{Returns}
use proj8315server.BitShit.{Word, bit_at, set_area, convert_area}
use proj8315server.BitShit.Extract.{convert_area-set_area}
use proj8315server.Config.{find_delim}
use proj8315server.Memory.{Memory, block, read}
use proj8315server.ByteBuffer.{ByteBuffer, text, contents, copy, destroy, get_string}
use proj8315server.ByteBuffer.Laws.{copy-destroy}
use proj8315server.Response.{response}
use proj8315server.Response.Laws.{blank_line, header_lines, response-find_delim}

abbrev clear_byte : Word
clear_byte = record { width = 8; bits = λ i. false }

-- The number 5.
abbrev three_bits : Word
three_bits = record { width = 3; bits = λ i. not (i == 1) }

abbrev sixteen_zeros : Word
sixteen_zeros = record { width = 16; bits = λ i. false }

convert_area-set_area_example :
    Returns
      (λ v. (v.width ≡ 16) × ((i : ℕ) → i < 3 → bit_at v i ≡ bit_at three_bits i))
      (set_area clear_byte three_bits 2 3 >>= λ w. convert_area w sixteen_zeros 2 3)
convert_area-set_area_example =
    convert_area-set_area clear_byte three_bits sixteen_zeros 2 3 (omega arith) (omega arith)
      (omega arith)

-- A buffer of two bytes in block 1, behind a block that was deleted.
abbrev two_bytes : ByteBuffer
two_bytes = record { data_type = text; bytes = some 1; size = 2 }

abbrev used_memory : Memory
used_memory = none ∷ some (some 65 ∷ some 66 ∷ []) ∷ []

copy-destroy_example :
    (c : ByteBuffer) × (with_copy : Memory) × (left : Memory) × (copy two_bytes used_memory
      ≡ some (c, with_copy))
    × (destroy two_bytes with_copy ≡ some left)
    × (get_string c left ≡ get_string two_bytes used_memory)
    × ((m : Memory) × (destroy c left ≡ some m))
unfolding contents read block
copy-destroy_example = copy-destroy two_bytes used_memory (some 65 ∷ some 66 ∷ [], refl, refl)

-- The decimal text of a number below 10.
abbrev digit : ℕ → List ℕ
digit n = (48 + n) ∷ []

response-find_delim_example :
    Returns
      (λ r.
        (sent : List ℕ) × (read r.0.address r.0.total_size r.1 ≡ some (map some sent))
        × (find_delim blank_line sent ≡ some (header_lines (digit 2), 10 ∷ 10 ∷ [])))
      (response digit (some (10 ∷ 10 ∷ [])) 2 used_memory)
response-find_delim_example = response-find_delim digit (10 ∷ 10 ∷ []) used_memory (omega arith, tt)
