-- ===== src/Response.antt =====
-- src/Responses.h and src/Responses.cpp: a block with a header and behind it the content. A text is
-- the list of its characters' codes; `std::to_string` is an argument.
pub mod Laws
use Prim.Native.Char.{code}
use Prim.Native.String.{String}
use proj8315server.Base.{
  ℕ, zero, suc, ◌+◌, Option, none, some, List, [], ◌∷◌, ◌++◌, map, length, ◌>>=◌,
}
use proj8315server.Config.{Text}
use proj8315server.Memory.{Cell, Memory, allocate, write, release, outside}

abbrev pub codes : String → Text
codes String.[] = []
codes (String.◌∷◌ c s) = code c ∷ codes s

-- `_defaultHeader`. The number of bytes goes behind it, so that it is in the last line of a header.
abbrev pub default_header : Text
default_header =
    codes
      "HTTP/1.1 200 OK\nContent-Type: application/octet-stream\nAccess-Control-Allow-Origin: *\n"

-- `_pData`, `_contentSize` and `_totalSize`.
pub record Response : Type 0 where
  pub address : ℕ
  pub content_size : ℕ
  pub total_size : ℕ

-- The content behind the header, unless the pointer is null or the size is 0.
unfoldable pub add_content : ℕ → ℕ → Option (List ℕ) → ℕ → Memory → Option Memory
add_content a header_size (some content) (suc n) mem =
    outside content (suc n) >>= λ cells. write a header_size cells mem
add_content a header_size _ _ mem = some mem

module _ (to_string : ℕ → Text) where
  unfoldable pub create_header : ℕ → Text
  create_header content_length =
      default_header ++ (codes "Content-Length: " ++ (to_string content_length ++ codes "\n\n"))

  -- The constructor.
  unfoldable pub response : Option (List ℕ) → ℕ → Memory → Option (Response × Memory)
  response content size mem =
      let header = create_header size in
      let r = allocate (length header + size) mem in
      write r.0 0 (map some header) r.1 >>= λ headed.
      add_content r.0 (length header) content size headed >>= λ made.
      some (record { address = r.0; content_size = size; total_size = length header + size }, made)

-- The destructor.
unfoldable pub destroy_response : Response → Memory → Option Memory
destroy_response r mem = release r.address mem
