-- ===== src/ByteBuffer/Laws.antt =====
-- Values in byte buffers, and copies of these: src/ByteBuffer.h and src/ByteBuffer.cpp.
use proj8315server.Base.{
  ℕ, ◌+◌, ◌<◌, ◌^◌, ◌≡◌, refl, sym, ap, subst, ◌∙◌, Option, none, some, List, [], ◌∷◌, ◌++◌, length,
  length-replicate, length-set, set, ltb, lt→ltb, false, ◌*◌, ◌/◌, ◌%◌, ◌-◌, replicate, ℤ, pos,
  negsuc, ◌>>=◌, arith,
}
use proj8315server.World.Loops.{Returns}
use proj8315server.Handler.{int32_at}
use proj8315server.Memory.{Cell, Memory, allocate, splice, read, block, release}
use proj8315server.Memory.Laws.{
  splice_whole, get_elem?-append, write-last, read-last, release-last, set-append, get_elem?-lt,
  read-block,
}
use proj8315server.ByteBuffer.{
  DataType, int32, ByteBuffer, int32_cells, filled, of_int32, contents, copy, destroy, get_string,
  get_val,
}

filled_lem :
    (t : DataType) (n : ℕ) (cells : List Cell) (mem : Memory)
    → length cells ≡ n
    → filled t n cells mem
      ≡ some (record { data_type = t; bytes = some (length mem); size = n }, mem ++ some cells ∷ [])
unfolding filled allocate
filled_lem t n cells mem e =
    let zeros : List Cell = replicate n (some 0) in
    let fresh : List Cell = replicate n none in
    let size : length zeros ≡ n = length-replicate n (some 0) in
    let size' : length fresh ≡ n = length-replicate n none in
    rw
      (
        write-last mem fresh 0 zeros (omega (arith, size, size')),
        splice_whole zeros fresh (size ∙ sym size'),
        write-last mem zeros 0 cells (omega (arith, size, e)),
        splice_whole cells zeros (e ∙ sym size),
      )
      refl

-- The bytes of a value that is wholly written.
abbrev pub determined : List Cell → Option (List ℕ)
determined [] = some []
determined (none ∷ cells) = none
determined (some b ∷ cells) = determined cells >>= λ bs. some (b ∷ bs)

-- The values of an `int32_t`.
abbrev pub IsInt32 : ℤ → Type 0
IsInt32 (pos n) = n < 2 ^ 31
IsInt32 (negsuc n) = n < 2 ^ 31

joined :
    (w : ℕ)
    → w < 2 ^ 32
    → w % 2 ^ 8
        + w / 2 ^ 8 % 2 ^ 8 * 2 ^ 8
        + w / 2 ^ 16 % 2 ^ 8 * 2 ^ 16
        + w / 2 ^ 24 % 2 ^ 8 * 2 ^ 24
      ≡ w
joined w h = omega arith

int32_cells-int32_at : (v : ℤ) → IsInt32 v → (determined (int32_cells v) >>= int32_at) ≡ some v
unfolding int32_cells int32_at
int32_cells-int32_at (pos n) h = rw (joined n (omega arith), lt→ltb n (2 ^ 31) h) refl
int32_cells-int32_at (negsuc n) h =
    let high : ltb (2 ^ 32 - n - 1) (2 ^ 31) ≡ false = ground arith in
    rw (joined (2 ^ 32 - n - 1) (omega arith), high) (ap (λ k. some (negsuc k)) (omega arith))

-- A buffer that is made of an `int32_t` yields that value as an `int32_t`, in any memory.
pub of_int32-get_val :
    (v : ℤ) (mem : Memory)
    → IsInt32 v
    → Returns
        (λ r.
          (cells : List Cell) × (get_val 4 r.0 r.1 ≡ some cells)
          × ((determined cells >>= int32_at) ≡ some v))
        (of_int32 v mem)
unfolding of_int32 get_val contents int32_cells splice
of_int32-get_val v mem h =
    rw (filled_lem int32 4 (int32_cells v) mem refl)
      (int32_cells v, rw (read-last mem (int32_cells v) 4 refl) refl, int32_cells-int32_at v h)

-- A buffer's block is there, with its size.
abbrev pub IsHeld : ByteBuffer → Memory → Type 0
IsHeld b mem = (cells : List Cell) × (contents b mem ≡ some cells) × (length cells ≡ b.size)

contents-append :
    (b : ByteBuffer) (mem ys : Memory) (cells : List Cell)
    → contents b mem ≡ some cells
    → contents b (mem ++ ys) ≡ some cells
unfolding contents
contents-append b mem ys cells e = by_pointer b.bytes refl
  where
    by_pointer : (o : Option ℕ) → b.bytes ≡ o → contents b (mem ++ ys) ≡ some cells
    by_pointer none f = rw (f, contents) (rw (f, contents) at e)
    by_pointer (some a) f =
        rw (f, contents) ((read-block a b.size mem cells (rw (f, contents) at e)).3 ys)

-- The destruction of a buffer whose block stands before the last one.
destroy-before :
    (b : ByteBuffer) (mem : Memory) (cells last : List Cell)
    → contents b mem ≡ some cells
    → (rest : Memory) × (destroy b (mem ++ some last ∷ []) ≡ some (rest ++ some last ∷ []))
      × (length rest ≡ length mem)
unfolding destroy contents release block
destroy-before b mem cells last e = by_pointer b.bytes refl
  where
    by_pointer :
        (o : Option ℕ)
        → b.bytes ≡ o
        → (rest : Memory) × (destroy b (mem ++ some last ∷ []) ≡ some (rest ++ some last ∷ []))
          × (length rest ≡ length mem)
    by_pointer none f = (mem, rw (f, destroy) refl, refl)
    by_pointer (some a) f =
        let (c, there, size, again) = read-block a b.size mem cells (rw (f, contents) at e) in
        (
          set mem a none,
          rw (f, destroy, release, block, get_elem?-append mem (some last ∷ []) a (some c) there)
              (ap {A = Memory} {B = Option Memory} (λ ys. some ys)
                (set-append (some last) mem a (get_elem?-lt mem a (some c) there))),
          length-set mem a none,
        )

-- A buffer whose block is there is copied without a fault. Once the original is destroyed, without a
-- fault too, the copy still has the original's text, and its own destruction is no fault.
pub copy-destroy :
    (b : ByteBuffer) (mem : Memory)
    → IsHeld b mem
    → (c : ByteBuffer) × (with_copy : Memory) × (left : Memory) × (copy b mem ≡ some (c, with_copy))
      × (destroy b with_copy ≡ some left)
      × (get_string c left ≡ get_string b mem)
      × ((m : Memory) × (destroy c left ≡ some m))
unfolding copy get_string allocate contents destroy
copy-destroy b mem (cells, held, size) =
    let fresh : List Cell = replicate b.size none in
    let size' : length fresh ≡ b.size = length-replicate b.size none in
    let (rest, gone, len) = destroy-before b mem cells cells held in
    let c : ByteBuffer = record {
      data_type = b.data_type;
      bytes = some (length mem);
      size = b.size;
    } in
    (
      c,
      mem ++ some cells ∷ [],
      rest ++ some cells ∷ [],
      rw
          (
            contents-append b mem (some fresh ∷ []) cells held,
            write-last mem fresh 0 cells (omega (arith, size, size')),
            splice_whole cells fresh (size ∙ sym size'),
          )
          refl,
      gone,
      subst (λ k. read k b.size (rest ++ some cells ∷ []) ≡ some cells) len
            (read-last rest cells b.size size)
          ∙ sym held,
      (
        rest ++ none ∷ [],
        subst (λ k. release k (rest ++ some cells ∷ []) ≡ some (rest ++ none ∷ [])) len
            (release-last rest cells),
      ),
    )
