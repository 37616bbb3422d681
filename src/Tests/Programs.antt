-- ===== src/Tests/Programs.antt =====
-- The theorems on the whole program at a server with one client and one object.
use proj8315server.Base.{
  ℕ, ◌≡◌, refl, true, false, none, some, [], ◌∷◌, pos, find, remove, put, string_eq, arith, ◌+ℤ◌,
  ◌*ℤ◌,
}
use proj8315server.World.{tile_index, index_fits, get_tile_state_at, set_tile_state_at, new_obj}
use proj8315server.World.Spawn.{spawn_object, spawn_object_raw, place_object, occupy}
use proj8315server.World.Spawning.{spawned}
use proj8315server.Database.{opened, connected, connect}
use proj8315server.Start.{NewGame}
use proj8315server.Session.{
  Client, Sys, get_user, accept_client, disconnect_client, exec, login_user, set_user, sql,
}
use proj8315server.Session.Users.{user_at, client_at}
use proj8315server.Messages.{login_response}
use proj8315server.Messages.General.{
  user_login, login_rows, login_account, enter_account, login_faction,
}
use proj8315server.Handler.{process_message, message_at, int32_at, find_kind, handler_of}
use proj8315server.Program.{
  GameLoop, walking, Reader, Broadcast, checking, fault, trigger, Machine, game_step, step,
  trigger_shutdown, start_main, begin_game, begin_msg_handler, begin_broadcast, new_server,
  server_state,
}
use proj8315server.Program.Steps.{by, Reach, here, later}
use proj8315server.Program.Sound.{IsSound}
use proj8315server.Program.Interleavings.{Reach-IsSound}
use proj8315server.Program.Joins.{IsRunning, IsLooping, IsBeforeJoin}
use proj8315server.Program.Launch.{Goes, Reach-game_step, start_main-Reach}
use proj8315server.Program.Races.{Reach-orphan, Reach-spawned}
use proj8315server.Tests.Samples.{SampleUser, sample_env, sample_world}
use proj8315server.Tests.Worlds.{sample-IsSafe}
use proj8315server.Tests.Messages.{
  usual, ann, player, captain, seated, four, row, sample-NamelessLaws, seated-IsNameless,
}

-- The message thread stands before a message of type `kind`, the faction broadcast before the same
-- client, and the game before its only object.
abbrev busy : SampleUser → ℕ → Machine usual
busy u kind = record {
  sys = seated four row u;
  game_run = true;
  handler_run = true;
  shutting_down = false;
  main = checking;
  game = walking 0 1;
  handler = Reader.batch ann (kind ∷ 0 ∷ 0 ∷ 0 ∷ []) 4 0 [];
  world_state = Broadcast.waiting;
  factions = Broadcast.visiting (("a", ann) ∷ []);
}

abbrev stopping : Machine usual
stopping = record (busy player 2) { shutting_down = true }

to_stopping : Reach usual (busy player 2) stopping
unfolding step trigger_shutdown
to_stopping = later here (by trigger refl)

busy-IsSound : IsSound usual (busy player 2).sys
unfolding find
busy-IsSound = record {
  safe = sample-IsSafe;
  keyed = (refl, tt);
  once = (refl, tt);
  nameless = seated-IsNameless;
  linked = refl;
}

busy-IsRunning : IsRunning usual (busy player 2)
busy-IsRunning = record { flag = refl; looping = tt; before = tt }

Reach-IsSound_example : IsSound usual stopping.sys
Reach-IsSound_example =
    Reach-IsSound usual sample-NamelessLaws (omega arith) to_stopping busy-IsSound

Reach-game_step_example : Goes usual (λ _. 3) 7 stopping
Reach-game_step_example =
    Reach-game_step usual sample-NamelessLaws (omega arith) to_stopping busy-IsSound busy-IsRunning
      (λ _. 3) 7

abbrev sample_game : NewGame usual
sample_game = record {
  world = sample_world;
  random = record { seed = 4718; drawn = 0 };
  factions = [];
  test_units = [];
}

abbrev ready : Machine usual
ready = record {
  sys = record {
    server = record { clients = []; client_user_mapping = []; closed = [] };
    world = sample_world;
    factions = [];
    pointer = connected;
    db = 0;
  };
  game_run = true;
  handler_run = true;
  shutting_down = false;
  main = checking;
  game = GameLoop.resting;
  handler = Reader.between;
  world_state = Broadcast.waiting;
  factions = Broadcast.waiting;
}

abbrev told : Machine usual
told = record ready { shutting_down = true }

start_main-Reach_example : IsSound usual told.sys × IsLooping told.game × IsBeforeJoin told.main
unfolding step trigger_shutdown start_main begin_game begin_msg_handler begin_broadcast new_server
    server_state connect
start_main-Reach_example =
    start_main-Reach usual opened 0 sample_game {m = ready} {m' = told} sample-NamelessLaws
      (omega arith) sample-IsSafe refl (later here (by trigger refl))

-- The user of the login, and the server after it.
abbrev entered : SampleUser
entered = record player { id = "7"; name = "7"; radius = pos 0 }

abbrev half_open : Sys usual
half_open = record (seated four row player) {
  server = record { clients = []; client_user_mapping = ("a", entered) ∷ []; closed = 3 ∷ [] };
  db = 3;
}

Reach-orphan_example :
    (m' : Machine usual) × Reach usual (busy player 2) m'
    × (user_at usual "a" m'.sys ≡ some entered)
    × (client_at usual "a" m'.sys ≡ none)
    × ((n : Client)
        → n.address ≡ "a"
        → get_user usual n (accept_client usual (some n) m'.sys) ≡ entered)
unfolding message_at int32_at process_message find_kind handler_of user_login login_rows
    login_account enter_account login_faction exec login_user set_user disconnect_client sql find
    remove put
Reach-orphan_example =
    Reach-orphan usual (busy player 2) ann ann (2 ∷ 0 ∷ 0 ∷ 0 ∷ []) 4 0 4 [] [] (pos 2)
      (login_response true false (pos 0) (pos 0) (usual.make_faction "7" "7") "") half_open entered
      refl refl refl (omega arith) refl refl refl

Reach-spawned_example :
    (m' : Machine usual) × Reach usual (busy captain 9) m'
    × ((rand : ℕ → ℕ) (elapsed : ℕ) → game_step usual rand elapsed m' ≡ fault)
unfolding message_at int32_at find_kind get_user spawn_object spawn_object_raw place_object
    index_fits tile_index ◌+ℤ◌ ◌*ℤ◌ find get_tile_state_at occupy set_tile_state_at new_obj
Reach-spawned_example =
    Reach-spawned usual (busy captain 9) ann (9 ∷ 0 ∷ 0 ∷ 0 ∷ []) 4 0 4 0 1 (pos 0) (pos 0) []
      (pos 9) (spawned sample_env sample_world 0 (pos 0) (pos 0) 1 "Neutral") sample-IsSafe refl
      refl (omega arith) refl refl refl refl refl
