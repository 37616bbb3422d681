-- ===== src/Program/Interleavings.antt =====
-- The state of the program under all interleavings of its threads: src/Main.cpp, src/Server.cpp,
-- src/game/Game.cpp, src/MessageHandler.cpp.
use proj8315server.Base.{
  ℕ, ◌<◌, ◌≡◌, refl, Bool, true, false, Option, none, some, List, [], ◌∷◌, inl, inr, Option-cases,
  Bool-cases, string_eq, length, ◌==◌, ltb, ltb→lt, ==_iff, if◌then◌else◌,
}
use proj8315server.Base.Effects.{Holds}
use proj8315server.World.{World}
use proj8315server.World.Loops.{Returns}
use proj8315server.World.Frames.{IsSafe, order_at-Returns, update_object-Returns}
use proj8315server.Messages.Factions.{reset_changed_factions_status}
use proj8315server.Common.{Common}
use proj8315server.Session.{Client, Sys, disconnect_client, close_clients}
use proj8315server.Handler.{observe_client, process_message, message_at}
use proj8315server.Handler.Sessions.{NamelessLaws, process_message-Holds}
use proj8315server.Program.{
  Main, checking, accepting, joining_game, closing, joining_handler, joining_world_state,
  joining_factions, ended, admitting, GameLoop, Reader, Broadcast, Outcome, of_option, Choice,
  go_main, go_game, go_handler, go_world_state, go_factions, trigger, Machine, game_step,
  handler_step, world_state_step, factions_step, main_step, step, trigger_shutdown, walk_step,
  to_main, join_broadcast, join_handler, join_game,
}
use proj8315server.Program.Steps.{Moves, Reach, Reach-keeps}
use proj8315server.Program.Sound.{
  IsSound, IsSound-IsKept, admit_client-IsSound, disconnect_client-IsSound, close_clients-IsSound,
  observe_client-Holds,
}

of_option-Returns :
    {A B : Type 0} (P : A → Type 0) (Q : B → Type 0) {f : A → B} (o : Option A)
    → Returns P o
    → ((a : A) → P a → Q (f a))
    → Moves Q (of_option f o)
of_option-Returns P Q none h k = tt
of_option-Returns P Q (some a) h k = k a h

of_option-Holds :
    {A B S : Type 0} (P : S → Type 0) (Q : B → Type 0) {f : A × S → B} (o : Option (A × S))
    → Holds P o
    → ((r : A × S) → P r.1 → Q (f r))
    → Moves Q (of_option f o)
of_option-Holds P Q none h k = tt
of_option-Holds P Q (some r) h k = k r h

of_option-known :
    {A B : Type 0} (Q : B → Type 0) (f : A → B) (o : Option A)
    → ((a : A) → o ≡ some a → Q (f a))
    → Moves Q (of_option f o)
of_option-known Q f none k = tt
of_option-known Q f (some a) k = k a refl

delta_time-IsSafe : (g : World) (t : ℕ) → IsSafe g → IsSafe (record g { delta_time = t })
delta_time-IsSafe g t h = record {
  ready = record {
    size = h.ready.size;
    wide = h.ready.wide;
    typed = h.ready.typed;
    speeds = h.ready.speeds;
  };
  placed = h.placed;
}

module _ (C : Common) (laws : NamelessLaws C) (idle_known : C.env.action_idle < 11) where
  abbrev After : Outcome (Machine C) → Type 0
  After = Moves (λ m. IsSound C m.sys)

  with_world-IsSound :
      (s : Sys C) (g : World) → IsSound C s → IsSafe g → IsSound C (record s { world = g })
  with_world-IsSound s g h k = record {
    safe = k;
    keyed = h.keyed;
    once = h.once;
    nameless = h.nameless;
    linked = h.linked;
  }

  -- The body of a loop over the objects keeps the world safe.
  abbrev Keeps : (ℕ → World → Option World) → Type 0
  Keeps body =
      (i : ℕ) (g : World)
      → i < length g.objects
      → IsSafe g
      → Returns (λ h. IsSafe h × (length h.objects ≡ length g.objects)) (body i g)

  walk_step-IsSound :
      (place : ℕ → ℕ → GameLoop) (body : ℕ → World → Option World) (behind : Machine C) (i n : ℕ)
      (m : Machine C)
      → Keeps body
      → IsSound C behind.sys
      → IsSound C m.sys
      → After (walk_step C place body behind i n m)
  unfolding walk_step
  walk_step-IsSound place body behind i n m keep k h =
      elim (Bool-cases (length m.sys.world.objects == n)) [
        | inr grown ↦ rw (grown, walk_step) tt
        | inl same ↦ elim (Bool-cases (ltb i n)) [
          | inr over ↦ rw (same, over, walk_step) k
          | inl more ↦
              let size = (==_iff (length m.sys.world.objects) n).0 same in
              rw (same, more, walk_step)
                (of_option-Returns (λ g. IsSafe g × (length g.objects ≡ length m.sys.world.objects))
                  _ _ (keep i m.sys.world (rw size (ltb→lt i n more)) h.safe)
                  (λ g r. with_world-IsSound m.sys g h r.0))
        ]
      ]

  game_step-IsSound :
      (rand : ℕ → ℕ) (elapsed : ℕ) (m : Machine C)
      → IsSound C m.sys
      → After (game_step C rand elapsed m)
  unfolding game_step
  game_step-IsSound rand elapsed m h = by_loop m.game refl
    where
      by_loop : (l : GameLoop) → m.game ≡ l → After (game_step C rand elapsed m)
      by_loop GameLoop.unlaunched e = rw (e, game_step) tt
      by_loop GameLoop.returned e = rw (e, game_step) tt
      by_loop GameLoop.ordered e = rw (e, game_step) h
      by_loop GameLoop.resting e = elim (Bool-cases m.game_run) [
        | inl on ↦ rw (e, on, game_step) h
        | inr off ↦ rw (e, off, game_step) h
      ]
      by_loop (GameLoop.ordering i n) e =
          rw (e, game_step)
            (walk_step-IsSound _ _ _ i n m
              (λ j g lt safe. order_at-Returns C.env rand j g idle_known lt safe) h h)
      by_loop (GameLoop.walking i n) e =
          rw (e, game_step)
            (walk_step-IsSound _ _ _ i n m (update_object-Returns C.env idle_known)
              (with_world-IsSound m.sys _ h (delta_time-IsSafe m.sys.world elapsed h.safe)) h)

  handler_step-IsSound :
      (received : List ℕ) (m : Machine C) → IsSound C m.sys → After (handler_step C received m)
  unfolding handler_step
  handler_step-IsSound received m h = by_place m.handler refl
    where
      by_place : (l : Reader) → m.handler ≡ l → After (handler_step C received m)
      by_place Reader.unlaunched e = rw (e, handler_step) tt
      by_place Reader.returned e = rw (e, handler_step) tt
      by_place Reader.between e = rw (e, handler_step) h
      by_place (Reader.visiting []) e = rw (e, handler_step) h
      by_place (Reader.visiting ((a, c) ∷ rest)) e = rw (e, handler_step) h
      by_place (Reader.batch c b k offset rest) e = elim (Bool-cases (ltb offset k)) [
        | inr over ↦ rw (e, over, handler_step) h
        | inl more ↦ elim (Option-cases (message_at C b offset)) [
          | inl cut ↦ rw (e, more, cut, handler_step) tt
          | inr ((size, q), found) ↦
              rw (e, more, found, handler_step)
                (of_option-Holds (IsSound C) _ (process_message C c q m.sys)
                  (process_message-Holds C c (IsSound C) (IsSound-IsKept C laws c) q m.sys h)
                  (λ r k. k))
        ]
      ]

  world_state_step-IsSound :
      (slots : ℕ) (sent : Bool) (m : Machine C)
      → IsSound C m.sys
      → After (world_state_step C slots sent m)
  unfolding world_state_step
  world_state_step-IsSound slots sent m h = by_place m.world_state refl
    where
      by_place : (l : Broadcast) → m.world_state ≡ l → After (world_state_step C slots sent m)
      by_place Broadcast.unlaunched e = rw (e, world_state_step) tt
      by_place Broadcast.returned e = rw (e, world_state_step) tt
      by_place Broadcast.waiting e = rw (e, world_state_step) h
      by_place (Broadcast.visiting []) e = rw (e, world_state_step) h
      by_place (Broadcast.visiting ((a, c) ∷ rest)) e =
          rw (e, world_state_step)
            (of_option-Holds (IsSound C) _ (observe_client C slots (λ _. sent) c m.sys)
              (observe_client-Holds C laws slots sent c m.sys h) (λ r k. k))

  factions_step-IsSound :
      (sent : Bool) (m : Machine C) → IsSound C m.sys → After (factions_step C sent m)
  unfolding factions_step reset_changed_factions_status
  factions_step-IsSound sent m h = by_place m.factions refl
    where
      dropped :
          (c : Client) (b : Bool) → IsSound C (if b then m.sys else disconnect_client C c m.sys)
      dropped c true = h
      dropped c false = disconnect_client-IsSound C laws c m.sys h

      by_place : (l : Broadcast) → m.factions ≡ l → After (factions_step C sent m)
      by_place Broadcast.unlaunched e = rw (e, factions_step) tt
      by_place Broadcast.returned e = rw (e, factions_step) tt
      by_place Broadcast.waiting e = rw (e, factions_step) h
      by_place (Broadcast.visiting []) e =
          rw (e, factions_step)
            (record {
              safe = h.safe;
              keyed = h.keyed;
              once = h.once;
              nameless = h.nameless;
              linked = h.linked;
            })
      by_place (Broadcast.visiting ((a, c) ∷ rest)) e = rw (e, factions_step) (dropped c sent)

  main_step-IsSound :
      (accepted : Option Client) (m : Machine C) → IsSound C m.sys → After (main_step C accepted m)
  unfolding main_step
  main_step-IsSound accepted m h = by_place m.main refl
    where
      joined : (b : Broadcast) (p : Main) → After (join_broadcast C b (to_main C m p))
      joined Broadcast.unlaunched p = h
      joined Broadcast.returned p = h
      joined Broadcast.waiting p = tt
      joined (Broadcast.visiting cs) p = tt

      joined_handler : (r : Reader) → After (join_handler C r (to_main C m joining_world_state))
      joined_handler Reader.unlaunched = h
      joined_handler Reader.returned = h
      joined_handler Reader.between = tt
      joined_handler (Reader.visiting cs) = tt
      joined_handler (Reader.batch c b k offset rest) = tt

      joined_game : (l : GameLoop) → After (join_game C l (to_main C m closing))
      joined_game GameLoop.unlaunched = h
      joined_game GameLoop.returned = h
      joined_game GameLoop.resting = tt
      joined_game GameLoop.ordered = tt
      joined_game (GameLoop.ordering i n) = tt
      joined_game (GameLoop.walking i n) = tt

      looked : (o : Option Client) → m.main ≡ accepting → After (main_step C o m)
      looked none e = rw (e, main_step) h
      looked (some c) e = rw (e, main_step) h

      by_place : (p : Main) → m.main ≡ p → After (main_step C accepted m)
      by_place checking e = rw (e, main_step) h
      by_place accepting e = looked accepted e
      by_place (admitting c) e = rw (e, main_step) (admit_client-IsSound C laws c m.sys h)
      by_place joining_game e = rw (e, main_step) (joined_game m.game)
      by_place closing e =
          rw (e, main_step)
            (of_option-known _ _ (close_clients C m.sys.server.clients m.sys)
              (λ s k. close_clients-IsSound C laws m.sys.server.clients m.sys s k h))
      by_place joining_handler e = rw (e, main_step) (joined_handler m.handler)
      by_place joining_world_state e = rw (e, main_step) (joined m.world_state joining_factions)
      by_place joining_factions e = rw (e, main_step) (joined m.factions ended)
      by_place ended e = rw (e, main_step) tt

  step-IsSound : (ch : Choice) (m : Machine C) → IsSound C m.sys → After (step C ch m)
  unfolding step trigger_shutdown
  step-IsSound (go_main accepted) m h = main_step-IsSound accepted m h
  step-IsSound (go_game rand elapsed) m h = game_step-IsSound rand elapsed m h
  step-IsSound (go_handler received) m h = handler_step-IsSound received m h
  step-IsSound (go_world_state slots sent) m h = world_state_step-IsSound slots sent m h
  step-IsSound (go_factions sent) m h = factions_step-IsSound sent m h
  step-IsSound trigger m h = h

-- Where the methods of User keep to their documentation and the idle action is among the first
-- eleven: in every state that the threads reach from a sound one, in whatever order their steps come
-- and whatever clients, network and database do, the world is safe, each client is in the map under
-- its own address and no address twice, no logged in user has the name of a faction, and the connection is there.
pub Reach-IsSound :
    (C : Common)
    → NamelessLaws C
    → C.env.action_idle < 11
    → {m m' : Machine C} → Reach C m m'
    → IsSound C m.sys
    → IsSound C m'.sys
Reach-IsSound C laws idle_known r h =
    Reach-keeps (λ m. IsSound C m.sys) (step-IsSound C laws idle_known) r h
