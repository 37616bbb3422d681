-- ===== src/Library/Files.antt =====
-- The library's file: src/game/objects/Object.cpp, `load_obj_info_file`.
use mathlib.Core.List.{append_assoc, append-nil}
use proj8315server.Base.{
  ℕ, zero, suc, ◌+◌, ◌%◌, ◌<◌, ◌≡◌, refl, sym, ap, ◌∙◌, false, some, List, [], ◌∷◌, ◌++◌, length,
  get_elem?, All, pos, String, str_eq, arith,
}
use proj8315server.Library.{
  Loading, Entry, to_byte, raw_infos, elements, read_info, read_infos, load_obj_info_file,
}

-- What a file says of an object.
pub record Described : Type 0 where
  pub name : String
  pub description : String
  pub actions : List String
  pub speed : ℕ

-- The lines of an object before its delimiter, and those of a file.
abbrev pub info_lines : (ℕ → String) → Described → List String
info_lines show d = d.name ∷ d.description ∷ (d.actions ++ show d.speed ∷ [])

abbrev pub file_lines : (ℕ → String) → List Described → List String
file_lines show [] = []
file_lines show (d ∷ ds) = info_lines show d ++ "---" ∷ file_lines show ds

-- The entries, whose types are numbered from i on.
abbrev pub numbered : Loading → ℕ → List Described → List Entry
numbered L i [] = []
numbered L i (d ∷ ds) =
    record {
      name = d.name;
      description = d.description;
      actions = d.actions;
      speed = d.speed;
      initial_state = L.env.set_thingid 0 (L.thing_of_int (pos i));
    }
    ∷ numbered L (i + 1) ds

-- A line that is not the delimiter.
abbrev Plain : String → Type 0
Plain l = str_eq l "---" ≡ false

-- An object that a file can hold.
pub record IsWritable (L : Loading) (show : ℕ → String) (d : Described) : Type 0 where
  pub plain : All Plain (info_lines show d)
  pub all_actions : length d.actions ≡ L.max_action + 1
  pub small : d.speed < 256
  pub read_back : L.stoi (show d.speed) ≡ some (pos d.speed)

raw_infos-append :
    (ls rest current : List String)
    → All Plain ls
    → raw_infos (ls ++ "---" ∷ rest) current ≡ (current ++ ls) ∷ raw_infos rest []
unfolding raw_infos
raw_infos-append [] rest current h = ap (λ c. c ∷ raw_infos rest []) (sym (append-nil current))
raw_infos-append (l ∷ ls) rest current h =
    rw (h.0, raw_infos)
      (raw_infos-append ls rest (current ++ l ∷ []) h.1
        ∙ ap (λ c. c ∷ raw_infos rest []) (append_assoc current (l ∷ []) ls))

get_elem?-append :
    (xs ys : List String) (y : String) → get_elem? (xs ++ y ∷ ys) (length xs) ≡ some y
get_elem?-append [] ys y = refl
get_elem?-append (x ∷ xs) ys y = get_elem?-append xs ys y

elements-cons :
    (b : String) (raw : List String) (n i : ℕ) → elements (suc i) n (b ∷ raw) ≡ elements i n raw
unfolding elements
elements-cons b raw zero i = refl
elements-cons b raw (suc n) i =
    let rest : elements (suc i + 1) n (b ∷ raw) ≡ elements (i + 1) n raw =
      ap (λ k. elements k n (b ∷ raw)) (omega arith) ∙ elements-cons b raw n (i + 1) in
    rw rest

elements-append : (xs after : List String) → elements 0 (length xs) (xs ++ after) ≡ some xs
unfolding elements
elements-append [] after = refl
elements-append (x ∷ xs) after =
    rw (elements-cons x (xs ++ after) (length xs) 0, elements-append xs after)

read_info_lem :
    (L : Loading) (show : ℕ → String) (i : ℕ) (d : Described)
    → IsWritable L show d
    → read_info L i (info_lines show d)
      ≡ some (record {
        name = d.name;
        description = d.description;
        actions = d.actions;
        speed = d.speed;
        initial_state = L.env.set_thingid 0 (L.thing_of_int (pos i));
      })
unfolding read_info to_byte
read_info_lem L show i d w =
    let tail = d.actions ++ show d.speed ∷ [] in
    let acts : elements 2 (L.max_action + 1) (d.name ∷ d.description ∷ tail) ≡ some d.actions =
      elements-cons d.name (d.description ∷ tail) (L.max_action + 1) 1
      ∙ elements-cons d.description tail (L.max_action + 1) 0
      ∙ ap (λ n. elements 0 n tail) (sym w.all_actions)
      ∙ elements-append d.actions (show d.speed ∷ []) in
    let at : 2 + (L.max_action + 1) ≡ suc (suc (length d.actions)) = omega (arith, w.all_actions) in
    let speed : get_elem? (d.name ∷ d.description ∷ tail) (2 + (L.max_action + 1))
        ≡ some (show d.speed) =
      ap (λ n. get_elem? (d.name ∷ d.description ∷ tail) n) at
      ∙ get_elem?-append d.actions [] (show d.speed) in
    let same : d.speed % 256 ≡ d.speed = omega (arith, w.small) in
    rw (acts, speed, w.read_back, same, read_info)

read_infos_lem :
    (L : Loading) (show : ℕ → String) (i : ℕ) (ds : List Described)
    → All (IsWritable L show) ds
    → read_infos L i (raw_infos (file_lines show ds) []) ≡ some (numbered L i ds)
unfolding read_infos raw_infos
read_infos_lem L show i [] w = refl
read_infos_lem L show i (d ∷ ds) w = rw (
  raw_infos-append (info_lines show d) (file_lines show ds) [] w.0.plain,
  read_infos,
  read_info_lem L show i d w.0,
  read_infos_lem L show (i + 1) ds w.1,
)

-- The objects of a file that is written with a delimiter behind each are read back with all their
-- fields, and their types are numbered in their order, where none of their lines is the delimiter,
-- each has all its actions, the speeds are bytes and `std::stoi` reads each speed as it was written.
pub load_obj_info_file-file_lines :
    (L : Loading) (show : ℕ → String) (ds : List Described)
    → All (IsWritable L show) ds
    → load_obj_info_file L (some (file_lines show ds)) ≡ some (numbered L 0 ds)
unfolding load_obj_info_file
load_obj_info_file-file_lines L show ds w = read_infos_lem L show 0 ds w
