-- ===== src/Response/Laws.antt =====
-- What a client reads of a response: src/Responses.cpp.
use mathlib.Core.List.{append_assoc, append-nil}
use proj8315server.Base.{
  ℕ, zero, suc, ◌+◌, ◌≡◌, ◌≢◌, refl, sym, ap, ◌∙◌, false, Option, none, some, List, [], ◌∷◌, ◌++◌,
  map, length, length-append, length-replicate, replicate, drop, All, ◌==◌, arith,
}
use proj8315server.World.Loops.{Returns}
use proj8315server.Config.{Text, strip, find_delim}
use proj8315server.Memory.{Cell, Memory, allocate, splice, write, read, outside}
use proj8315server.Memory.Laws.{le→leb, take_all, length-map, splice_behind, write-last, read-last}
use proj8315server.Response.{codes, default_header, create_header, add_content, response}

-- The end of a header.
abbrev pub blank_line : Text
blank_line = 10 ∷ 10 ∷ []

-- What stands before the end of the header of a response.
abbrev pub header_lines : Text → Text
header_lines digits = default_header ++ (codes "Content-Length: " ++ digits)

-- A line without a break ends at the break behind it.
find_delim-line :
    (s rest : Text)
    → All (λ c. c ≢ 10) s
    → find_delim blank_line (s ++ (blank_line ++ rest)) ≡ some (s, rest)
unfolding find_delim strip
find_delim-line [] rest h = refl
find_delim-line (c ∷ s) rest h =
    let other : (10 == c) ≡ false = ground (arith, h.0) in
    rw (other, find_delim-line s rest h.1, find_delim) refl

-- The first blank line of a response is the end of its header.
find_delim-header :
    (digits rest : Text)
    → All (λ c. c ≢ 10) digits
    → find_delim blank_line
        (default_header ++ (codes "Content-Length: " ++ (digits ++ (blank_line ++ rest))))
      ≡ some (header_lines digits, rest)
unfolding find_delim strip
find_delim-header digits rest h = rw (find_delim-line digits rest h) refl

drop-replicate : {A : Type 0} (k n : ℕ) (v : A) → drop k (replicate (k + n) v) ≡ replicate n v
drop-replicate zero n v = ap (λ m. replicate m v) (omega arith)
drop-replicate (suc k) n v =
    let e : suc k + n ≡ suc (k + n) = omega arith in rw e (drop-replicate k n v)

map-append : (s t : Text) → map {A = ℕ} {B = Cell} some (s ++ t) ≡ map some s ++ map some t
map-append [] t = refl
map-append (c ∷ s) t = ap (λ r. some c ∷ r) (map-append s t)

module _ (header : Text) (mem : Memory) where
  abbrev head_cells : List Cell
  head_cells = map some header

  write-header :
      (n : ℕ)
      → write (length mem) 0 head_cells (mem ++ some (replicate (length header + n) none) ∷ [])
        ≡ some (mem ++ some (head_cells ++ replicate n none) ∷ [])
  unfolding splice
  write-header n =
      let size : length head_cells ≡ length header = length-map {A = ℕ} some header in
      write-last mem (replicate (length header + n) none) 0 head_cells
        (omega (arith, size, length-replicate {A = Cell} (length header + n) none))
      ∙ ap {A = List Cell} {B = Option Memory} (λ r. some (mem ++ some (head_cells ++ r) ∷ []))
          (ap (λ (k : ℕ). drop k (replicate {A = Cell} (length header + n) none))
              (omega (arith, size))
            ∙ drop-replicate (length header) n none)

  -- The content, if there is any, behind the header.
  add_content-behind :
      (bytes : List ℕ)
      → add_content
          (length mem)
          (length header)
          (some bytes)
          (length bytes)
          (mem ++ some (head_cells ++ replicate (length bytes) none) ∷ [])
        ≡ some (mem ++ some (map some (header ++ bytes)) ∷ [])
  unfolding add_content outside
  add_content-behind [] =
      ap {A = List Cell} {B = Option Memory} (λ r. some (mem ++ some r ∷ []))
        (append-nil head_cells ∙ ap (λ t. map some t) (sym (append-nil header)))
  add_content-behind (b ∷ bs) =
      let size : length head_cells ≡ length header = length-map {A = ℕ} some header in
      let content : List Cell = map some (b ∷ bs) in
      let size' : length content ≡ suc (length bs) = length-map {A = ℕ} some (b ∷ bs) in
      let room : List Cell = replicate (suc (length bs)) none in
      let size'' : length room ≡ suc (length bs) =
        length-replicate {A = Cell} (suc (length bs)) none in
      rw
        (
          le→leb (suc (length bs)) (suc (length bs)) (omega arith),
          take_all (length bs) bs (omega arith),
        )
        (write-last mem (head_cells ++ room) (length header) content
            (omega (arith, size, size', size'', length-append {A = Cell} head_cells room))
          ∙ ap {A = List Cell} {B = Option Memory} (λ r. some (mem ++ some r ∷ []))
              (ap (λ (k : ℕ). splice k content (head_cells ++ room)) (sym size)
                ∙ splice_behind head_cells content room (size' ∙ sym size'')
                ∙ sym (map-append header (b ∷ bs))))

-- A response to some bytes, given with their number, is made without a fault where the text of the
-- number has no line break. What is read of it up to its size ends its header at its first blank
-- line, with the number in the last line of the header, and has exactly the bytes behind it.
pub response-find_delim :
    (to_string : ℕ → Text) (bytes : List ℕ) (mem : Memory)
    → All (λ c. c ≢ 10) (to_string (length bytes))
    → Returns
        (λ r.
          (sent : Text) × (read r.0.address r.0.total_size r.1 ≡ some (map some sent))
          × (find_delim blank_line sent ≡ some (header_lines (to_string (length bytes)), bytes)))
        (response to_string (some bytes) (length bytes) mem)
unfolding response allocate create_header
response-find_delim to_string bytes mem h =
    let header : Text = create_header to_string (length bytes) in
    rw (write-header header mem (length bytes), add_content-behind header mem bytes)
      (
        header ++ bytes,
        read-last mem (map some (header ++ bytes)) (length header + length bytes)
            (length-map {A = ℕ} some (header ++ bytes) ∙ length-append header bytes),
        ap (find_delim blank_line) (
              append_assoc default_header
                (codes "Content-Length: " ++ (to_string (length bytes) ++ blank_line)) bytes
              ∙ ap (λ t. default_header ++ t)
                  (append_assoc (codes "Content-Length: ") (to_string (length bytes) ++ blank_line)
                      bytes
                    ∙ ap (λ t. codes "Content-Length: " ++ t)
                        (append_assoc (to_string (length bytes)) blank_line bytes)))
            ∙ find_delim-header (to_string (length bytes)) bytes h,
      )
