-- ===== src/Program/Launch.antt =====
-- What the threads do once main has launched them: src/Main.cpp and the loop of src/game/Game.cpp.
use proj8315server.Base.{
  ℕ, ◌+◌, ◌<◌, ◌≡◌, ◌≢◌, refl, ==_iff, ltb→lt, find, Option, none, some, inl, inr, Bool-cases,
  length, ◌==◌, ltb, ◌⊎◌, arith,
}
use proj8315server.World.{World}
use proj8315server.World.Update.{update_object, order_at}
use proj8315server.Database.{connected, Opening, opened, not_open, threw, connect}
use proj8315server.Start.{NewGame}
use proj8315server.Common.{Common}
use proj8315server.Program.{
  GameLoop, fault, went, Machine, game_step, walk_step, on_world, start_main, begin_game,
  begin_msg_handler, new_server, server_state,
}
use proj8315server.Handler.Sessions.{NamelessLaws}
use proj8315server.World.Loops.{Returns}
use proj8315server.World.Frames.{IsSafe, order_at-Returns, update_object-Returns}
use proj8315server.Program.Sound.{IsSound}
use proj8315server.Program.Interleavings.{Reach-IsSound}
use proj8315server.Program.Joins.{IsBeforeJoin, IsLooping, IsRunning, Reach-IsRunning}
use proj8315server.Program.Steps.{Reach}

-- The game thread stands in one of its loops over the objects, which began with another number of
-- them.
abbrev pub IsOutgrown : (C : Common) → Machine C → Type 0
IsOutgrown C m =
    (i : ℕ) × (n : ℕ) × ((m.game ≡ GameLoop.ordering i n) ⊎ (m.game ≡ GameLoop.walking i n))
    × (length m.sys.world.objects ≢ n)

-- Either the game thread has a next step that is no fault, or one of its loops is outgrown, and
-- then its next step is a fault.
abbrev pub Goes : (C : Common) → (ℕ → ℕ) → ℕ → Machine C → Type 0
Goes C rand elapsed m =
    ((t : Machine C) × (game_step C rand elapsed m ≡ went t))
    ⊎ IsOutgrown C m × (game_step C rand elapsed m ≡ fault)

module _ (C : Common) (m : Machine C) (place : ℕ → ℕ → GameLoop) (body : ℕ → World → Option World)
    (behind : Machine C) where
  -- A step of a loop over the objects of a safe world.
  walk_step-Goes :
      (i n : ℕ)
      → ((j : ℕ) → j < length m.sys.world.objects → (h : World) × (body j m.sys.world ≡ some h))
      → ((t : Machine C) × (walk_step C place body behind i n m ≡ went t))
        ⊎ ((length m.sys.world.objects ≢ n) × (walk_step C place body behind i n m ≡ fault))
  unfolding walk_step
  walk_step-Goes i n returns = elim (Bool-cases (length m.sys.world.objects == n)) [
    | inr grown ↦ inr ((λ q. ground arith), rw (grown, walk_step) refl)
    | inl same ↦ elim (Bool-cases (ltb i n)) [
      | inr over ↦ inl (behind, rw (same, over, walk_step) refl)
      | inl more ↦
          let size = (==_iff (length m.sys.world.objects) n).0 same in
          let run = returns i (rw size (ltb→lt i n more)) in
          inl (on_world C m run.0 (place (i + 1) n), rw (same, more, run.1, walk_step) refl)
    ]
  ]

-- Where the methods of User keep to their documentation and the idle action is among the first
-- eleven: in every state that the threads reach from a sound one with the game thread in its loop and
-- the main thread not past the first join of the shutdown, the game thread has a next step that is no
-- fault, unless it stands in a loop over the objects, the one that gives orders or the one that
-- updates, that began with another number of them; then its next step is a fault.
pub Reach-game_step :
    (C : Common)
    → NamelessLaws C
    → C.env.action_idle < 11
    → {m m' : Machine C} → Reach C m m'
    → IsSound C m.sys
    → IsRunning C m
    → (rand : ℕ → ℕ) (elapsed : ℕ) → Goes C rand elapsed m'
unfolding game_step
Reach-game_step C laws idle_known {m} {m'} r sound running rand elapsed =
    by_loop m'.game refl k.looping
  where
    k : IsRunning C m'
    k = Reach-IsRunning C r running

    h : IsSound C m'.sys
    h = Reach-IsSound C laws idle_known r sound

    found :
        (o : Option World)
        → Returns (λ g. IsSafe g × (length g.objects ≡ length m'.sys.world.objects)) o
        → (g : World) × (o ≡ some g)
    found none h = absurd h
    found (some g) h = (g, refl)

    by_loop : (l : GameLoop) → m'.game ≡ l → IsLooping l → Goes C rand elapsed m'
    by_loop GameLoop.unlaunched e g = absurd g
    by_loop GameLoop.returned e g = absurd g
    by_loop GameLoop.resting e g = inl (
      record m' { game = GameLoop.ordering 0 (length m'.sys.world.objects) },
      rw (e, k.flag, game_step) refl,
    )
    by_loop GameLoop.ordered e g = inl (
      record m' { game = GameLoop.walking 0 (length m'.sys.world.objects) },
      rw (e, game_step) refl,
    )
    by_loop (GameLoop.ordering i n) e g =
        elim (walk_step-Goes C m' GameLoop.ordering (order_at rand)
          (record m' { game = GameLoop.ordered }) i n
          (λ j lt. found _ (order_at-Returns C.env rand j m'.sys.world idle_known lt h.safe))) [
            | inl (t, s) ↦ inl (t, rw (e, game_step) s)
            | inr (grown, s) ↦ inr ((i, n, inl e, grown), rw (e, game_step) s)
          ]
    by_loop (GameLoop.walking i n) e g =
        elim (walk_step-Goes C m' GameLoop.walking (update_object C.env)
          (on_world C m' (record (m'.sys.world) { delta_time = elapsed }) GameLoop.resting) i n
          (λ j lt. found _ (update_object-Returns C.env idle_known j m'.sys.world lt h.safe))) [
            | inl (t, s) ↦ inl (t, rw (e, game_step) s)
            | inr (grown, s) ↦ inr ((i, n, inr e, grown), rw (e, game_step) s)
          ]

module _ (C : Common) (db : C.Db) (n : NewGame C) (safe : IsSafe n.world) where
  -- The state in which main enters its loop.
  abbrev begun : Machine C
  begun = begin_game C (begin_msg_handler C (new_server C (server_state C connected db n)))

  begun-IsSound : IsSound C begun.sys
  unfolding begin_game begin_msg_handler new_server server_state find
  begun-IsSound = record {
    safe = safe;
    keyed = tt;
    once = tt;
    nameless = λ a u e. cc;
    linked = refl;
  }

  begun-IsRunning : IsRunning C begun
  unfolding begin_game begin_msg_handler new_server server_state
  begun-IsRunning = record { flag = refl; looping = tt; before = tt }

  start_main_lem :
      (how : Opening) (m : Machine C)
      → start_main C how db n ≡ some m
      → IsSound C m.sys × IsRunning C m
  unfolding start_main connect
  start_main_lem opened m e = let eq : begun ≡ m = cc in rw (← eq) (begun-IsSound, begun-IsRunning)
  start_main_lem not_open m e = absurd (cc)
  start_main_lem threw m e = absurd (cc)

-- Where the methods of User keep to their documentation, the idle action is among the first eleven
-- and the game was constructed with a safe world: if main gets to its loop, then in every state that
-- the threads reach from there the state they share is sound, the game thread is in its loop, and the
-- main thread has not passed the first join of the shutdown, also where a shutdown was triggered.
pub start_main-Reach :
    (C : Common) (how : Opening) (db : C.Db) (n : NewGame C) {m m' : Machine C}
    → NamelessLaws C
    → C.env.action_idle < 11
    → IsSafe n.world
    → start_main C how db n ≡ some m
    → Reach C m m'
    → IsSound C m'.sys × IsLooping m'.game × IsBeforeJoin m'.main
start_main-Reach C how db n {m} laws idle_known safe e r =
    let (sound, running) = start_main_lem C db n safe how m e in
    let k = Reach-IsRunning C r running in
    (Reach-IsSound C laws idle_known r sound, k.looping, k.before)
