-- ===== src/Program/Races.antt =====
-- What may go wrong between the threads: a client that is disconnected before its message is
-- handled (src/MessageHandler.cpp), and objects that are spawned during a frame (src/msgs/Admin.cpp,
-- src/game/objects/ObjectManager.cpp).
use proj8315server.Base.{
  ℕ, ◌+◌, ◌<◌, ◌≡◌, refl, ◌∙◌, ap, true, false, Option, none, some, List, [], ◌∷◌, inl, inr,
  Option-cases, String, ℤ, string_eq, beq_refl, find, length, lt→ltb, ◌==◌, arith,
}
use proj8315server.Base.Effects.{Holds}
use proj8315server.World.{World}
use proj8315server.World.Spawn.{spawn_object}
use proj8315server.World.Frames.{IsSafe}
use proj8315server.Common.{Common, spawn_request}
use proj8315server.Session.{
  Client, Sys, login_user, set_user, update_user_data, forget_user, accept_client, is_connected,
  admit_client, get_user, disconnect_client,
}
use proj8315server.Session.Users.{user_at, client_at, disconnect_client_lem}
use proj8315server.Messages.{Reply}
use proj8315server.Messages.Invariants.{IsKept}
use proj8315server.Handler.{process_message, message_at, find_kind, kinds, handler_of}
use proj8315server.World.Spawning.{spawn_object-grows}
use proj8315server.Messages.Admin.{
  with_world, touch_faction, game_spawn_object, spawn_faction, spawn_object_msg,
}
use proj8315server.Handler.Sessions.{process_message-Holds}
use proj8315server.Program.{
  GameLoop, Reader, Broadcast, fault, go_handler, go_factions, Machine, game_step, walk_step,
  handler_step, factions_step, step,
}
use proj8315server.Program.Steps.{Step, by, Reach, here, later}

module _ (C : Common) (c : Client) where
  -- The handling of messages connects and disconnects nobody.
  client_at-IsKept : (a : String) (o : Option Client) → IsKept C c (λ s. client_at C a s ≡ o)
  unfolding login_user update_user_data set_user forget_user
  client_at-IsKept a o = record {
    elsewhere = λ s t e h. ap (λ v. find a v.clients) e.server ∙ h;
    entered = λ _ s h. h;
    left = λ s h. h;
    moved = λ x z r s h. h;
  }

  process_message-client_at :
      (a : String) (q : C.Msg) (s t : Sys C) (r : Reply C)
      → process_message C c q s ≡ some (r, t)
      → client_at C a t ≡ client_at C a s
  process_message-client_at a q s t r e =
      let kept : Holds (λ u. client_at C a u ≡ client_at C a s) (some (r, t)) = rw e at (
        process_message-Holds C c (λ u. client_at C a u ≡ client_at C a s)
          (client_at-IsKept a (client_at C a s)) q s refl) in
      kept

  -- A client that comes to an address with a user is that user.
  accept_client-get_user :
      (d : Client) (u : C.User) (s : Sys C)
      → d.address ≡ c.address
      → user_at C c.address s ≡ some u
      → get_user C d (accept_client C (some d) s) ≡ u
  unfolding accept_client is_connected admit_client get_user
  accept_client-get_user d u s same at =
      let there : user_at C d.address s ≡ some u = rw same at in
      elim (Option-cases (client_at C d.address s)) [
        | inl e ↦ rw (e, there, accept_client, is_connected, get_user)
        | inr (k, e) ↦ rw (e, there, accept_client, is_connected, get_user)
      ]

-- If the message thread is about to handle a message of a client, and the thread of the faction
-- broadcast is about to send to that client, which is connected, then the send may fail first: if the
-- message, handled after that, leaves a user at the client's address, the threads reach a state in
-- which this user is logged in and no client is connected there, and any client that is accepted from
-- that address next is this user, without a login.
pub Reach-orphan :
    (C : Common) (m : Machine C) (c d : Client) (b : List ℕ) (k offset size : ℕ)
    (rest others : List (String × Client)) (q : C.Msg) (r : Reply C) (t : Sys C) (u : C.User)
    → m.handler ≡ Reader.batch c b k offset rest
    → m.factions ≡ Broadcast.visiting ((c.address, c) ∷ others)
    → client_at C c.address m.sys ≡ some d
    → offset < k
    → message_at C b offset ≡ some (size, q)
    → process_message C c q (disconnect_client C c m.sys) ≡ some (r, t)
    → user_at C c.address t ≡ some u
    → (m' : Machine C) × Reach C m m'
      × (user_at C c.address m'.sys ≡ some u)
      × (client_at C c.address m'.sys ≡ none)
      × ((n : Client) → n.address ≡ c.address → get_user C n (accept_client C (some n) m'.sys) ≡ u)
unfolding step handler_step factions_step
Reach-orphan C m c d b k offset size rest others q r t u reading sending seated more found run at =
    (
      handled,
      later (later here dropping) handling,
      at,
      process_message-client_at C c c.address q (disconnect_client C c m.sys) t r run
          ∙ (disconnect_client_lem C c m.sys d seated c.address).0
          ∙ rw (beq_refl c.address) refl,
      λ n same. accept_client-get_user C c n u t same at,
    )
  where
    dropped : Machine C
    dropped = record m { sys = disconnect_client C c m.sys; factions = Broadcast.visiting others }

    handled : Machine C
    handled = record m {
      sys = t;
      handler = Reader.batch c b k (offset + size) rest;
      factions = Broadcast.visiting others;
    }

    dropping : Step C m dropped
    dropping = by (go_factions false) (rw (sending, factions_step) refl)

    handling : Step C dropped handled
    handling =
        by (go_handler []) (rw (reading, lt→ltb offset k more, found, run, handler_step) refl)

-- In a safe world in the middle of a walk over its objects, if the message thread is about to handle
-- a spawn request of an administrator that succeeds, the threads reach a state in which the next step
-- of the game thread is a fault: the vector that is walked has grown.
pub Reach-spawned :
    (C : Common) (m : Machine C) (c : Client) (b : List ℕ) (k offset size i type_id : ℕ) (x z : ℤ)
    (rest : List (String × Client)) (q : C.Msg) (g : World)
    → IsSafe m.sys.world
    → m.game ≡ GameLoop.walking i (length m.sys.world.objects)
    → m.handler ≡ Reader.batch c b k offset rest
    → offset < k
    → message_at C b offset ≡ some (size, q)
    → find_kind C (C.msg_type q) kinds ≡ some spawn_request
    → C.read_spawn q ≡ some (type_id, x, z)
    → C.user_is_admin (get_user C c m.sys) ≡ true
    → spawn_object C.env m.sys.world x z type_id (spawn_faction C (get_user C c m.sys))
      ≡ some (g, true)
    → (m' : Machine C) × Reach C m m'
      × ((rand : ℕ → ℕ) (elapsed : ℕ) → game_step C rand elapsed m' ≡ fault)
unfolding step handler_step game_step walk_step process_message handler_of spawn_object_msg
    game_spawn_object
Reach-spawned C m c b k offset size i type_id x z rest q g safe walk reading more found kind asked
      admin spawned =
    (handled, later here handling, λ rand elapsed. rw (walk, game_step, grown, walk_step) refl)
  where
    after : Sys C
    after = with_world C (touch_faction C (spawn_faction C (get_user C c m.sys)) m.sys) g

    handled : Machine C
    handled = record m { sys = after; handler = Reader.batch c b k (offset + size) rest }

    handling : Step C m handled
    handling = by (go_handler []) (
        rw
          (
            reading,
            lt→ltb offset k more,
            found,
            kind,
            process_message,
            asked,
            admin,
            spawned,
            handler_step,
            spawn_object_msg,
            game_spawn_object,
          )
          refl)

    grown : (length g.objects == length m.sys.world.objects) ≡ false
    grown =
        let one = spawn_object-grows C.env m.sys.world x z type_id _ g safe spawned in ground arith
