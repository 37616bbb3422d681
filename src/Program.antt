-- ===== src/Program.antt =====
-- The program as a whole: src/Main.cpp, the threads of src/Server.cpp and the loops of
-- src/game/Game.cpp and src/MessageHandler.cpp as the main thread and four others run them at once.
-- A choice names the thread that goes next and what comes in from outside.
pub mod Steps
pub mod Sound
pub mod Interleavings
pub mod Joins
pub mod Launch
pub mod Races
use proj8315server.Base.{
  ℕ, zero, suc, ◌+◌, Bool, true, false, Option, none, some, List, [], ◌∷◌, ◌++◌, String, length,
  take, replicate, ltb, leb, ◌==◌, if◌then◌else◌, Dict,
}
use proj8315server.World.{World}
use proj8315server.World.Update.{order_at, update_object}
use proj8315server.Database.{Pointer, null_pointer, Opening, connect}
use proj8315server.Common.{Common}
use proj8315server.Session.{
  Client, Sys, is_connected, admit_client, disconnect_client, close_clients,
}
use proj8315server.Messages.Factions.{get_changed_factions, reset_changed_factions_status}
use proj8315server.Start.{NewGame}
use proj8315server.Handler.{process_message, message_at, observe_client, is_sent, max_recv_buf_len}

-- Where the main thread is: before and in `Server::run`, where `admitting` stands between the look at
-- the clients and the mutex, and in `Server::shutdown` before each join,
-- at the clients, and behind it.
pub data Main : Type 0 where
  checking accepting joining_game closing : Main
  admitting : Client → Main
  joining_handler joining_world_state joining_factions ended : Main

-- Where `Game::run` is. `unlaunched` is `_gameThread == nullptr`; `ordering i n` and `walking i n`, in
-- the loop that gives orders and in the one that updates, stand before object i of the n that
-- `_allObjects` had when the loop began. `ordered` is between the two loops.
pub data GameLoop : Type 0 where
  unlaunched resting ordered returned : GameLoop
  ordering walking : ℕ → ℕ → GameLoop

-- Where `handleClientMessages` is: `batch` stands at an offset of what one client sent, and each of
-- the last two keeps the clients that are left of the round.
pub data Reader : Type 0 where
  unlaunched between returned : Reader
  visiting : Dict String Client → Reader
  batch : Client → List ℕ → ℕ → ℕ → Dict String Client → Reader

-- Where a broadcast is.
pub data Broadcast : Type 0 where
  unlaunched waiting returned : Broadcast
  visiting : Dict String Client → Broadcast

-- What a step comes to: the thread cannot go, it is undefined, or there is a next state.
pub data Outcome {ℓ} (A : Type ℓ) : Type ℓ where
  blocked fault : Outcome A
  went : A → Outcome A

abbrev pub of_option {ℓ κ} : {A : Type ℓ} {B : Type κ} → (A → B) → Option A → Outcome B
of_option f none = fault
of_option f (some a) = went (f a)

-- Which thread goes, and what comes from outside: what `accept` returns, the random numbers and the
-- time of a frame, what `read` yields, and whether `send` sent anything. `trigger` is
-- a call of `trigger_shutdown`.
pub data Choice : Type 0 where
  go_main : Option Client → Choice
  go_game : (ℕ → ℕ) → ℕ → Choice
  go_handler : List ℕ → Choice
  go_world_state : ℕ → Bool → Choice
  go_factions : Bool → Choice
  trigger : Choice

-- `_pRecvBuf`, cleared after each client, with what `read` put there.
abbrev pub recv_buf : List ℕ → List ℕ
recv_buf received = take max_recv_buf_len (received ++ replicate max_recv_buf_len 0)

module _ (C : Common) where
  pub record Machine : Type 0 where
    pub sys : Sys C
    -- `Game::_run`, `MessageHandler::_run` and `Server::s_shutdown`.
    pub game_run : Bool
    pub handler_run : Bool
    pub shutting_down : Bool
    pub main : Main
    pub game : GameLoop
    pub handler : Reader
    pub world_state : Broadcast
    pub factions : Broadcast

module _ (C : Common) where
  -- What a step does to the world alone.
  abbrev pub on_world : Machine C → World → GameLoop → Machine C
  on_world m g l = record m { sys = record (m.sys) { world = g }; game = l }

  -- A step of one of the two loops over `_allObjects`: the body for object i, or what comes after the
  -- last. Where the vector has grown since the loop began, its iterators are invalid.
  unfoldable pub walk_step :
      (ℕ → ℕ → GameLoop)
      → (ℕ → World → Option World)
      → Machine C
      → ℕ
      → ℕ
      → Machine C
      → Outcome (Machine C)
  walk_step place body behind i n m =
      if length m.sys.world.objects == n
      then if ltb i n
        then of_option (λ g. on_world m g (place (i + 1) n)) (body i m.sys.world)
        else went behind
      else fault

  unfoldable pub game_step : (ℕ → ℕ) → ℕ → Machine C → Outcome (Machine C)
  game_step rand elapsed m = elim m.game [
    | unlaunched ↦ blocked
    | returned ↦ blocked
    | resting ↦
        if m.game_run
        then went (record m { game = GameLoop.ordering 0 (length m.sys.world.objects) })
        else went (record m { game = GameLoop.returned })
    | ordering i n ↦
        walk_step GameLoop.ordering (order_at rand) (record m { game = GameLoop.ordered }) i n m
    | ordered ↦ went (record m { game = GameLoop.walking 0 (length m.sys.world.objects) })
    | walking i n ↦
        walk_step GameLoop.walking (update_object C.env)
          (on_world m (record (m.sys.world) { delta_time = elapsed }) GameLoop.resting) i n m
  ]

  unfoldable pub handler_step : List ℕ → Machine C → Outcome (Machine C)
  handler_step received m = elim m.handler [
    | unlaunched ↦ blocked
    | returned ↦ blocked
    | between ↦ went (record m {
      handler = if m.handler_run then Reader.visiting m.sys.server.clients else Reader.returned;
    })
    | visiting cs ↦ elim cs [
      | [] ↦ went (record m { handler = Reader.between })
      | (a, c) ∷ rest ↦ went (record m {
        handler =
            Reader.batch c (recv_buf received) (length (take max_recv_buf_len received)) 0 rest;
      })
    ]
    | batch c b k offset rest ↦
        if ltb offset k
        then elim (message_at C b offset) [
          | none ↦ fault
          | some (size, q) ↦
              of_option
                (λ r. record m { sys = r.1; handler = Reader.batch c b k (offset + size) rest })
                (process_message C c q m.sys)
        ]
        else went (record m { handler = Reader.visiting rest })
  ]

  unfoldable pub world_state_step : ℕ → Bool → Machine C → Outcome (Machine C)
  world_state_step slots sent m = elim m.world_state [
    | unlaunched ↦ blocked
    | returned ↦ blocked
    | waiting ↦ went (record m {
      world_state =
          if m.handler_run then Broadcast.visiting m.sys.server.clients else Broadcast.returned;
    })
    | visiting cs ↦ elim cs [
      | [] ↦ went (record m { world_state = Broadcast.waiting })
      | (a, c) ∷ rest ↦
          of_option (λ r. record m { sys = r.1; world_state = Broadcast.visiting rest })
            (observe_client C slots (λ _. sent) c m.sys)
    ]
  ]

  -- The round begins only where some faction has changed.
  unfoldable pub factions_step : Bool → Machine C → Outcome (Machine C)
  factions_step sent m = elim m.factions [
    | unlaunched ↦ blocked
    | returned ↦ blocked
    | waiting ↦ went (record m {
      factions =
          if m.handler_run
          then if is_sent C (get_changed_factions C m.sys)
            then Broadcast.visiting m.sys.server.clients
            else Broadcast.waiting
          else Broadcast.returned;
    })
    | visiting cs ↦ elim cs [
      | [] ↦
          went
            (record m { sys = reset_changed_factions_status C m.sys; factions = Broadcast.waiting })
      | (a, c) ∷ rest ↦ went (record m {
        sys = if sent then m.sys else disconnect_client C c m.sys;
        factions = Broadcast.visiting rest;
      })
    ]
  ]

  abbrev pub to_main : Machine C → Main → Outcome (Machine C)
  to_main m p = went (record m { main = p })

  -- `if (p) p->join();`
  abbrev pub join_broadcast : Broadcast → Outcome (Machine C) → Outcome (Machine C)
  join_broadcast unlaunched next = next
  join_broadcast returned next = next
  join_broadcast _ next = blocked

  abbrev pub join_handler : Reader → Outcome (Machine C) → Outcome (Machine C)
  join_handler unlaunched next = next
  join_handler returned next = next
  join_handler _ next = blocked

  abbrev pub join_game : GameLoop → Outcome (Machine C) → Outcome (Machine C)
  join_game unlaunched next = next
  join_game returned next = next
  join_game _ next = blocked

  -- `while (!server.is_shutting_down()) server.run();` and `server.shutdown()`.
  unfoldable pub main_step : Option Client → Machine C → Outcome (Machine C)
  main_step accepted m = elim m.main [
    | checking ↦ to_main m (if m.shutting_down then joining_game else accepting)
    | accepting ↦ elim accepted [
      | none ↦ to_main m checking
      | some c ↦ to_main m (if is_connected C c m.sys then checking else admitting c)
    ]
    | admitting c ↦ went (record m { sys = admit_client C c m.sys; main = checking })
    | joining_game ↦ join_game m.game (to_main m closing)
    | closing ↦
        of_option (λ s. record m { sys = s; main = joining_handler })
          (close_clients C m.sys.server.clients m.sys)
    | joining_handler ↦ join_handler m.handler (to_main m joining_world_state)
    | joining_world_state ↦ join_broadcast m.world_state (to_main m joining_factions)
    | joining_factions ↦ join_broadcast m.factions (to_main m ended)
    | ended ↦ blocked
  ]

  unfoldable pub trigger_shutdown : Machine C → Machine C
  trigger_shutdown m = record m { shutting_down = true }

  unfoldable pub step : Choice → Machine C → Outcome (Machine C)
  step (go_main accepted) m = main_step accepted m
  step (go_game rand elapsed) m = game_step rand elapsed m
  step (go_handler received) m = handler_step received m
  step (go_world_state slots sent) m = world_state_step slots sent m
  step (go_factions sent) m = factions_step sent m
  step trigger m = went (trigger_shutdown m)

  unfoldable pub begin_broadcast : Broadcast → Broadcast
  begin_broadcast unlaunched = waiting
  begin_broadcast b = b

  unfoldable pub begin_msg_handler : Machine C → Machine C
  begin_msg_handler m = record m {
    handler = elim m.handler [ unlaunched ↦ between | r ↦ r ];
    world_state = begin_broadcast m.world_state;
    factions = begin_broadcast m.factions;
  }

  unfoldable pub begin_game : Machine C → Machine C
  begin_game m = record m { game = elim m.game [ unlaunched ↦ resting | l ↦ l ] }

  -- A constructed server, before its threads.
  unfoldable pub new_server : Sys C → Machine C
  new_server s = record {
    sys = s;
    game_run = true;
    handler_run = true;
    shutting_down = false;
    main = checking;
    game = GameLoop.unlaunched;
    handler = Reader.unlaunched;
    world_state = Broadcast.unlaunched;
    factions = Broadcast.unlaunched;
  }

  -- The state that `Server`'s constructor makes of the game's.
  unfoldable pub server_state : Pointer → C.Db → NewGame C → Sys C
  server_state p db n = record {
    server = record { clients = []; client_user_mapping = []; closed = [] };
    world = n.world;
    factions = n.factions;
    pointer = p;
    db = db;
  }

  -- `main` up to its loop: `none` is its return of 1. The constructor of the game is an argument.
  unfoldable pub start_main : Opening → C.Db → NewGame C → Option (Machine C)
  start_main how db n =
      let r = connect how null_pointer in
      if r.1
      then some (begin_game (begin_msg_handler (new_server (server_state r.0 db n))))
      else none
