-- ===== src/Program/Joins.antt =====
-- The shutdown as a whole: src/Main.cpp, src/Server.cpp and the loops of src/game/Game.cpp.
use proj8315server.Base.{
  ℕ, ◌+◌, ◌≡◌, refl, Bool, true, false, Option, none, some, List, [], ◌∷◌, inl, inr, Bool-cases,
  Option-cases, length, ◌==◌, ltb, if◌then◌else◌,
}
use proj8315server.World.{World}
use proj8315server.Common.{Common}
use proj8315server.Session.{Client, is_connected}
use proj8315server.Handler.{process_message, message_at, observe_client}
use proj8315server.Program.{
  Main, checking, accepting, joining_game, closing, joining_handler, joining_world_state,
  joining_factions, ended, admitting, GameLoop, Reader, Broadcast, Outcome, blocked, fault, went,
  of_option, Choice, go_main, go_game, go_handler, go_world_state, go_factions, trigger, Machine,
  game_step, handler_step, world_state_step, factions_step, main_step, step, trigger_shutdown,
  walk_step,
}
use proj8315server.Program.Steps.{Moves, Reach, Reach-keeps}

-- The main thread has not passed the first join of the shutdown.
abbrev pub IsBeforeJoin : Main → Type 0
IsBeforeJoin checking = Unit
IsBeforeJoin accepting = Unit
IsBeforeJoin (admitting c) = Unit
IsBeforeJoin joining_game = Unit
IsBeforeJoin _ = ⊥

-- `Game::run` was launched and has not returned.
abbrev pub IsLooping : GameLoop → Type 0
IsLooping GameLoop.resting = Unit
IsLooping GameLoop.ordered = Unit
IsLooping (GameLoop.ordering i n) = Unit
IsLooping (GameLoop.walking i n) = Unit
IsLooping _ = ⊥

module _ (C : Common) where
  pub record IsRunning (m : Machine C) : Type 0 where
    pub flag : m.game_run ≡ true
    pub looping : IsLooping m.game
    pub before : IsBeforeJoin m.main

  -- A step of a thread that is neither the game's nor the main one.
  abbrev SameThreads : Machine C → Machine C → Type 0
  SameThreads m t = (t.game_run ≡ m.game_run) × (t.game ≡ m.game) × (t.main ≡ m.main)

  SameThreads-IsRunning : (m t : Machine C) → SameThreads m t → IsRunning m → IsRunning t
  SameThreads-IsRunning m t e h = record {
    flag = rw e.0 h.flag;
    looping = rw e.1 h.looping;
    before = rw e.2 h.before;
  }

  all_went :
      {A : Type 0} (P : Machine C → Type 0) (f : A → Machine C) (o : Option A)
      → ((a : A) → P (f a))
      → Moves P (of_option f o)
  all_went P f none k = tt
  all_went P f (some a) k = k a

  walk_step-IsRunning :
      (place : ℕ → ℕ → GameLoop) (body : ℕ → World → Option World) (behind : Machine C) (i n : ℕ)
      (m : Machine C)
      → ((j k : ℕ) → IsLooping (place j k))
      → IsRunning behind
      → IsRunning m
      → Moves IsRunning (walk_step C place body behind i n m)
  unfolding walk_step
  walk_step-IsRunning place body behind i n m inside k h =
      elim (Bool-cases (length m.sys.world.objects == n)) [
        | inr grown ↦ rw (grown, walk_step) tt
        | inl same ↦ elim (Bool-cases (ltb i n)) [
          | inr over ↦ rw (same, over, walk_step) k
          | inl more ↦
              rw (same, more, walk_step)
                (all_went IsRunning _ (body i m.sys.world)
                  (λ g. record { flag = h.flag; looping = inside (i + 1) n; before = h.before }))
        ]
      ]

  game_step-IsRunning :
      (rand : ℕ → ℕ) (elapsed : ℕ) (m : Machine C)
      → IsRunning m
      → Moves IsRunning (game_step C rand elapsed m)
  unfolding game_step
  game_step-IsRunning rand elapsed m h = by_loop m.game refl
    where
      by_loop : (l : GameLoop) → m.game ≡ l → Moves IsRunning (game_step C rand elapsed m)
      by_loop GameLoop.unlaunched e = rw (e, game_step) tt
      by_loop GameLoop.returned e = rw (e, game_step) tt
      by_loop GameLoop.ordered e =
          rw (e, game_step) (record { flag = h.flag; looping = tt; before = h.before })
      by_loop GameLoop.resting e =
          rw (e, h.flag, game_step) (record { flag = refl; looping = tt; before = h.before })
      by_loop (GameLoop.ordering i n) e =
          rw (e, game_step)
            (walk_step-IsRunning _ _ _ i n m (λ j k. tt)
              (record { flag = h.flag; looping = tt; before = h.before }) h)
      by_loop (GameLoop.walking i n) e =
          rw (e, game_step)
            (walk_step-IsRunning _ _ _ i n m (λ j k. tt)
              (record { flag = h.flag; looping = tt; before = h.before }) h)

  handler_step-same :
      (received : List ℕ) (m : Machine C) → Moves (SameThreads m) (handler_step C received m)
  unfolding handler_step
  handler_step-same received m = by_place m.handler refl
    where
      by_place : (l : Reader) → m.handler ≡ l → Moves (SameThreads m) (handler_step C received m)
      by_place Reader.unlaunched e = rw (e, handler_step) tt
      by_place Reader.returned e = rw (e, handler_step) tt
      by_place Reader.between e = rw (e, handler_step) (refl, refl, refl)
      by_place (Reader.visiting []) e = rw (e, handler_step) (refl, refl, refl)
      by_place (Reader.visiting ((a, c) ∷ rest)) e = rw (e, handler_step) (refl, refl, refl)
      by_place (Reader.batch c b k offset rest) e = elim (Bool-cases (ltb offset k)) [
        | inr over ↦ rw (e, over, handler_step) (refl, refl, refl)
        | inl more ↦ elim (Option-cases (message_at C b offset)) [
          | inl cut ↦ rw (e, more, cut, handler_step) tt
          | inr ((size, q), found) ↦
              rw (e, more, found, handler_step)
                (all_went (SameThreads m) _ (process_message C c q m.sys) (λ r. (refl, refl, refl)))
        ]
      ]

  world_state_step-same :
      (slots : ℕ) (sent : Bool) (m : Machine C)
      → Moves (SameThreads m) (world_state_step C slots sent m)
  unfolding world_state_step
  world_state_step-same slots sent m = by_place m.world_state refl
    where
      by_place :
          (l : Broadcast)
          → m.world_state ≡ l
          → Moves (SameThreads m) (world_state_step C slots sent m)
      by_place Broadcast.unlaunched e = rw (e, world_state_step) tt
      by_place Broadcast.returned e = rw (e, world_state_step) tt
      by_place Broadcast.waiting e = rw (e, world_state_step) (refl, refl, refl)
      by_place (Broadcast.visiting []) e = rw (e, world_state_step) (refl, refl, refl)
      by_place (Broadcast.visiting ((a, c) ∷ rest)) e =
          rw (e, world_state_step)
            (all_went (SameThreads m) _ (observe_client C slots (λ _. sent) c m.sys)
              (λ r. (refl, refl, refl)))

  factions_step-same :
      (sent : Bool) (m : Machine C) → Moves (SameThreads m) (factions_step C sent m)
  unfolding factions_step
  factions_step-same sent m = by_place m.factions refl
    where
      by_place : (l : Broadcast) → m.factions ≡ l → Moves (SameThreads m) (factions_step C sent m)
      by_place Broadcast.unlaunched e = rw (e, factions_step) tt
      by_place Broadcast.returned e = rw (e, factions_step) tt
      by_place Broadcast.waiting e = rw (e, factions_step) (refl, refl, refl)
      by_place (Broadcast.visiting []) e = rw (e, factions_step) (refl, refl, refl)
      by_place (Broadcast.visiting ((a, c) ∷ rest)) e = rw (e, factions_step) (refl, refl, refl)

  main_step-IsRunning :
      (accepted : Option Client) (m : Machine C)
      → IsRunning m
      → Moves IsRunning (main_step C accepted m)
  unfolding main_step
  main_step-IsRunning accepted m h = by_place m.main m.game refl refl h.looping h.before
    where
      next : (b : Bool) → IsBeforeJoin (if b then joining_game else accepting)
      next true = tt
      next false = tt

      entered : (c : Client) (b : Bool) → IsBeforeJoin (if b then checking else admitting c)
      entered c true = tt
      entered c false = tt

      looked : (o : Option Client) → m.main ≡ accepting → Moves IsRunning (main_step C o m)
      looked none e = rw (e, main_step) (record { flag = h.flag; looping = h.looping; before = tt })
      looked (some c) e =
          rw (e, main_step)
            (record {
              flag = h.flag;
              looping = h.looping;
              before = entered c (is_connected C c m.sys);
            })

      by_place :
          (p : Main) (l : GameLoop)
          → m.main ≡ p
          → m.game ≡ l
          → IsLooping l
          → IsBeforeJoin p
          → Moves IsRunning (main_step C accepted m)
      by_place checking l e f g k =
          rw (e, main_step)
            (record { flag = h.flag; looping = h.looping; before = next m.shutting_down })
      by_place accepting l e f g k = looked accepted e
      by_place (admitting c) l e f g k =
          rw (e, main_step) (record { flag = h.flag; looping = h.looping; before = tt })
      by_place joining_game GameLoop.resting e f g k = rw (e, f, main_step) tt
      by_place joining_game GameLoop.ordered e f g k = rw (e, f, main_step) tt
      by_place joining_game (GameLoop.ordering i n) e f g k = rw (e, f, main_step) tt
      by_place joining_game (GameLoop.walking i n) e f g k = rw (e, f, main_step) tt
      by_place joining_game GameLoop.unlaunched e f g k = absurd g
      by_place joining_game GameLoop.returned e f g k = absurd g
      by_place closing l e f g k = absurd k
      by_place joining_handler l e f g k = absurd k
      by_place joining_world_state l e f g k = absurd k
      by_place joining_factions l e f g k = absurd k
      by_place ended l e f g k = absurd k

  SameThreads-Moves :
      (m : Machine C) (o : Outcome (Machine C))
      → Moves (SameThreads m) o
      → IsRunning m
      → Moves IsRunning o
  SameThreads-Moves m blocked s h = tt
  SameThreads-Moves m fault s h = tt
  SameThreads-Moves m (went t) s h = SameThreads-IsRunning m t s h

  step-IsRunning : (ch : Choice) (m : Machine C) → IsRunning m → Moves IsRunning (step C ch m)
  unfolding step trigger_shutdown
  step-IsRunning (go_main accepted) m h = main_step-IsRunning accepted m h
  step-IsRunning (go_game rand elapsed) m h = game_step-IsRunning rand elapsed m h
  step-IsRunning (go_handler received) m h = SameThreads-Moves m _ (handler_step-same received m) h
  step-IsRunning (go_world_state slots sent) m h =
      SameThreads-Moves m _ (world_state_step-same slots sent m) h
  step-IsRunning (go_factions sent) m h = SameThreads-Moves m _ (factions_step-same sent m) h
  step-IsRunning trigger m h = record { flag = h.flag; looping = h.looping; before = h.before }

  pub Reach-IsRunning : {m m' : Machine C} → Reach C m m' → IsRunning m → IsRunning m'
  Reach-IsRunning r h = Reach-keeps IsRunning step-IsRunning r h
