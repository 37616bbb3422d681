-- ===== src/Tests/Starts.antt =====
-- The theorems on the start of the server at a small library and a flat world.
use proj8315server.Base.{
  ℕ, ◌≡◌, refl, ◌⊎◌, none, some, [], ◌∷◌, ◌==◌, pos, if◌then◌else◌, String, str_eq, arith,
}
use proj8315server.World.Frames.{IsSafe}
use proj8315server.Database.{QueryResult, ok, committed}
use proj8315server.Common.{Common}
use proj8315server.Library.{Loading, to_byte, load_obj_info_file}
use proj8315server.Library.Files.{
  Described, IsWritable, file_lines, numbered, load_obj_info_file-file_lines,
}
use proj8315server.Generation.Composition.{generate_world}
use proj8315server.Generation.Composition.Null.{generate_world-Refines}
use proj8315server.Start.{empty_world, game_plan, NewGame, new_game}
use proj8315server.Start.Laws.{IsStocked, new_game-IsSafe}
use proj8315server.Tests.Samples.{sample_rows, sample_common}
use proj8315server.Tests.Layouts.{sample_gen, sample-GenLaws, int_part}
use proj8315server.Tests.Terrains.{plain, plan}

-- Numbers as far as the sample has them.
abbrev show : ℕ → String
show n = if n == 2 then "2" else "0"

abbrev loading : Loading
loading = record {
  env = sample_gen.env;
  max_action = 0;
  stoi = λ t. some (if str_eq t "2" then pos 2 else pos 0);
  thing_of_int = int_part;
  as_array = λ i j. none;
}

abbrev tree : Described
tree = record { name = "Tree"; description = "It grows"; actions = "none" ∷ []; speed = 0 }

abbrev ship : Described
ship = record { name = "Ship"; description = "It flies"; actions = "deploy" ∷ []; speed = 2 }

tree-IsWritable : IsWritable loading show tree
tree-IsWritable = record {
  plain = (refl, (refl, (refl, (refl, tt))));
  all_actions = refl;
  small = omega arith;
  read_back = refl;
}

ship-IsWritable : IsWritable loading show ship
ship-IsWritable = record {
  plain = (refl, (refl, (refl, (refl, tt))));
  all_actions = refl;
  small = omega arith;
  read_back = refl;
}

load_obj_info_file-file_lines_example :
    load_obj_info_file loading (some (file_lines show (tree ∷ ship ∷ [])))
    ≡ some (numbered loading 0 (tree ∷ ship ∷ []))
load_obj_info_file-file_lines_example =
    load_obj_info_file-file_lines loading show (tree ∷ ship ∷ [])
      (tree-IsWritable, (ship-IsWritable, tt))

generate_world-Refines_example :
    (generate_world sample_gen plan none plain ≡ none)
    ⊎ (generate_world sample_gen plan none plain
        ≡ generate_world sample_gen plan (some "Neutral") plain)
generate_world-Refines_example = generate_world-Refines sample_gen plan "Neutral" plain

abbrev usual_start : Common
usual_start = sample_common (λ k. 4) (λ sql. committed sample_rows)

abbrev stock : QueryResult
stock = record { status = ok; result = sample_rows; error_msg = "" }

stock-IsStocked : IsStocked stock
unfolding to_byte
stock-IsStocked = record { succeeded = refl; rows = omega arith; slow = λ i lt. omega arith }

new_game-IsSafe_example :
    (generate_world sample_gen
        (game_plan 10000000 5000)
        none
        (empty_world sample_gen loading 64 stock)
      ≡ none)
    ⊎ ((n : NewGame usual_start) × (new_game usual_start sample_gen loading 10000000 5000 64 stock
            stock
          ≡ some (some n))
        × IsSafe n.world
        × (n.world.world_width ≡ 64))
new_game-IsSafe_example =
    new_game-IsSafe usual_start sample_gen loading 10000000 5000 64 stock stock sample-GenLaws
      stock-IsStocked refl (omega arith) (omega arith) (omega arith) (omega arith)
