-- ===== src/Tests/Messages.antt =====
-- The theorems on messages and sessions at a server with one client, "a", whose user is logged in.
use proj8315server.Base.{
  ℕ, ◌≡◌, refl, ◌⊎◌, inl, inr, true, false, Option, none, some, List, [], ◌∷◌, String, str_eq, find,
  string_eq, ℤ, pos, arith, if◌then◌else◌, Bool-cases, ◌+ℤ◌, ◌*ℤ◌, ◌-ℤ◌, Dict, put,
}
use proj8315server.Base.Effects.{Holds}
use proj8315server.Common.{Common, TerrainMod}
use proj8315server.Database.{
  Transaction, committed, other_thrown, QueryResult, result_of, connected,
}
use proj8315server.Session.{Client, Sys, exec, get_user, login_user, set_user, sql, shutdown}
use proj8315server.Session.Users.{user_at, client_at, IsMapped}
use proj8315server.Session.Logins.{login_account-half}
use proj8315server.Messages.{null_message, create_faction_response}
use proj8315server.Messages.Factions.{get_changed_factions, add_faction}
use proj8315server.Messages.General.{Account, user_of, login_account, login_reply}
use proj8315server.Messages.Admin.{
  with_world, touch_faction, game_spawn_object, spawn_object_msg, terrain_modification,
}
use proj8315server.Messages.Permissions.{
  Shaped, SameRest, IsGranted, terrain_modification-allowed, spawn_object_msg-allowed,
}
use proj8315server.Handler.{out_of_fuel, int32_at, handle_batch, find_kind, message_at}
use proj8315server.Handler.Sessions.{
  handle_batch-IsMapped, NamelessLaws, IsNameless, founded, add_faction_again,
}
use proj8315server.Handler.Batches.{IsOver, handle_batch-ends, handle_batch-stuck}
use proj8315server.World.{tile_index, index_fits, get_tile_state_at, set_tile_state_at, new_obj}
use proj8315server.World.Spawn.{spawn_object, spawn_object_raw, place_object, occupy}
use proj8315server.World.Spawning.{spawned}
use proj8315server.Tests.Samples.{sample_env}
use proj8315server.Tests.Worlds.{sample-IsSafe}
use proj8315server.World.Loops.{for_range}
use proj8315server.World.Terrain.{shape_tile, shape_at, bounds_fit, shape_area, set_tile_area}
use proj8315server.Messages.Admin.{modify_terrain}
use proj8315server.Tests.Samples.{SampleUser, sample_common, sample_rows, sample_world, sample_mod}
use proj8315server.Session.Shutdown.{shutdown-clients}
use proj8315server.Session.Seats.{
  accepted, logged_in, dropped, hall, SameSeats, serve_all, reseat, reseat_all, AreLegal,
  serve_all-Refines,
}
use proj8315server.Handler.{is_sent, broadcast_faction_states}
use proj8315server.Handler.Rounds.{kept_seat, broadcast_faction_states-seats}

abbrev pub four : ℤ → ℕ
four t = 4

-- Every statement yields the row; all but the recording of a login fail.
abbrev pub row : String → Transaction
row q = committed sample_rows

abbrev half : String → Transaction
half q =
    if str_eq q "UPDATE users SET logged_in=TRUE WHERE id='7';"
    then committed sample_rows
    else other_thrown "lost"

abbrev pub usual : Common
usual = sample_common four row

abbrev lossy : Common
lossy = sample_common four half

-- Messages of size 0.
abbrev sizeless : Common
sizeless = sample_common (λ t. 0) row

abbrev pub ann : Client
ann = record { address = "a"; conn_sd = 3 }

abbrev pub player : SampleUser
player = record {
  id = "5";
  name = "ann";
  faction = "";
  admin = false;
  x = pos 0;
  z = pos 0;
  radius = pos 1;
}

abbrev pub seated :
    (sizes : ℤ → ℕ) (answer : String → Transaction) → SampleUser → Sys (sample_common sizes answer)
seated sizes answer u = record {
  server = record { clients = ("a", ann) ∷ []; client_user_mapping = ("a", u) ∷ []; closed = [] };
  world = sample_world;
  factions = [];
  pointer = connected;
  db = 0;
}

-- A server information request, then a login.
abbrev two_messages : List ℕ
two_messages = 1 ∷ 0 ∷ 0 ∷ 0 ∷ 2 ∷ 0 ∷ 0 ∷ 0 ∷ []

seated-IsMapped : IsMapped usual (seated four row player)
unfolding find
seated-IsMapped a u e = by_key (Bool-cases (str_eq "a" a))
  where
    by_key :
        (str_eq "a" a ≡ true) ⊎ (str_eq "a" a ≡ false)
        → (k : Client) × (client_at usual a (seated four row player) ≡ some k)
    by_key (inl h) = (ann, rw (h, find) refl)
    by_key (inr h) = absurd (none_some (rw (h, find) at e))
      where
        none_some : ◌≡◌ {A = Option SampleUser} none (some u) → ⊥
        none_some k = cc

pub seated-IsNameless : IsNameless usual (seated four row player)
unfolding find
seated-IsNameless a u e = elim (Bool-cases (str_eq "a" a)) [
  | inl h ↦
      let is : ◌≡◌ {A = Option SampleUser} (some player) (some u) = rw (h, find) at e in
      let same : player ≡ u = cc in rw (← same) refl
  | inr h ↦ let no : ◌≡◌ {A = Option SampleUser} none (some u) = rw (h, find) at e in absurd cc
]

pub sample-NamelessLaws : NamelessLaws usual
sample-NamelessLaws = record {
  fresh = λ i n b x z. refl;
  default = refl;
  nobody = refl;
  observing = λ u x z r. refl;
}

handle_batch-IsMapped_example :
    Holds
      (λ t. (client_at usual "a" t ≡ some ann) × IsMapped usual t)
      (handle_batch usual 9 ann two_messages 8 0 (seated four row player))
unfolding find
handle_batch-IsMapped_example =
    handle_batch-IsMapped usual ann ann 9 two_messages 8 0 (seated four row player) refl
      seated-IsMapped

handle_batch-ends_example :
    IsOver usual (handle_batch usual 9 ann two_messages 8 0 (seated four row player))
    × (handle_batch usual 20 ann two_messages 8 0 (seated four row player)
        ≡ handle_batch usual 9 ann two_messages 8 0 (seated four row player))
handle_batch-ends_example =
    handle_batch-ends usual ann 8 19 two_messages 8 0 (seated four row player) (λ t. omega arith)
      (omega arith) (omega arith)

-- What the statements answer.
abbrev answered : String → QueryResult
answered q = result_of (row q)

abbrev red : Sys usual
red = founded usual "Reds" (answered "") (record (seated four row player) { db = 1 })

add_faction_again_example :
    (u : Sys usual) × (add_faction usual ann "Reds" (seated four row player)
      ≡ some (create_faction_response true "" (usual.make_faction "7" "Reds"), u))
    × ((w : Sys usual) × (add_faction usual ann "Blues" u
          ≡ some (create_faction_response true "" (usual.make_faction "7" "Blues"), w))
        × (find "Reds" w.factions ≡ some (usual.make_faction "7" "Reds"))
        × (find "Blues" w.factions ≡ some (usual.make_faction "7" "Blues")))
unfolding find put get_user exec
add_faction_again_example =
    add_faction_again usual ann "Reds" "Blues" (seated four row player)
      (record (seated four row player) { db = 1 }) (record red { db = 2 }) (answered "")
      (answered "") sample-NamelessLaws seated-IsNameless refl refl refl refl refl refl refl refl
      refl refl refl

handle_batch-stuck_example :
    handle_batch sizeless 5 ann (77 ∷ 0 ∷ 0 ∷ 0 ∷ []) 4 0 (seated (λ t. 0) row player)
    ≡ some (out_of_fuel, seated (λ t. 0) row player)
unfolding message_at int32_at find_kind
handle_batch-stuck_example =
    handle_batch-stuck sizeless ann 5 (77 ∷ 0 ∷ 0 ∷ 0 ∷ []) 4 0 (pos 77)
      (seated (λ t. 0) row player) (omega arith) refl refl

abbrev sample_account : Account
sample_account = record { id = "7"; name = "ann"; admin = false; tile_x = pos 0; tile_z = pos 0 }

abbrev lost_answer : QueryResult
lost_answer = result_of (other_thrown "lost")

login_account-half_example :
    (login_account lossy ann sample_account (seated four half player)
      ≡ some (
        login_reply lossy sample_account false lossy.null_faction "Internal server error",
        record (login_user lossy ann
            (user_of lossy sample_account)
            (record (seated four half player) { db = 1 })) { db = 2 },
      ))
    × (user_at lossy "a"
          (record (login_user lossy ann
            (user_of lossy sample_account)
            (record (seated four half player) { db = 1 })) { db = 2 })
        ≡ some (user_of lossy sample_account))
unfolding exec sql login_user set_user
login_account-half_example =
    login_account-half lossy ann sample_account (seated four half player)
      (record (seated four half player) { db = 1 })
      (record (login_user lossy ann (user_of lossy sample_account)
        (record (seated four half player) { db = 1 })) { db = 2 })
      (answered "") lost_answer refl refl refl refl

abbrev pub captain : SampleUser
captain = record player { admin = true }

-- The world after the area write: all four tiles have the elevation.
abbrev raised : Sys usual
raised = record (seated four row captain) {
  world = record sample_world { tiles = 0x300_0000 ∷ 0x300_0004 ∷ 0x300_0000 ∷ 0x300_0000 ∷ [] };
}

terrain_modification-allowed_example :
    (raised ≡ seated four row captain)
    ⊎ ((usual.user_is_admin (get_user usual ann (seated four row captain)) ≡ true)
        × ((t : TerrainMod) × (some sample_mod ≡ some t)
            × Shaped usual t (seated four row captain) raised))
unfolding terrain_modification modify_terrain set_tile_area shape_area bounds_fit shape_at
    index_fits shape_tile for_range tile_index ◌+ℤ◌ ◌-ℤ◌ ◌*ℤ◌ get_user find
terrain_modification-allowed_example =
    terrain_modification-allowed usual ann (pos 10) (seated four row captain) raised null_message
      refl

-- The server after the spawn of an object of type 1 beside the first.
abbrev crowded : Sys usual
crowded =
    with_world usual (touch_faction usual "Neutral" (seated four row captain))
      (spawned sample_env sample_world 0 (pos 0) (pos 0) 1 "Neutral")

spawn_object_msg-allowed_example :
    SameRest usual (seated four row captain) crowded
    × ((crowded.world ≡ sample_world)
        ⊎ IsGranted usual ann (pos 9) (seated four row captain) crowded)
unfolding spawn_object_msg game_spawn_object touch_faction spawn_object spawn_object_raw
    place_object occupy get_tile_state_at set_tile_state_at new_obj index_fits tile_index ◌+ℤ◌ ◌*ℤ◌
    get_user find
spawn_object_msg-allowed_example =
    spawn_object_msg-allowed usual ann (pos 9) (seated four row captain) crowded null_message
      sample-IsSafe refl

-- A server with one faction, which is marked.
abbrev marked : Sys usual
marked = record (seated four row player) { factions = ("Reds", usual.make_faction "7" "Reds") ∷ [] }

shutdown-clients_example :
    ((seated four row player).server.clients ≡ [])
      × (shutdown usual (seated four row player) ≡ some (seated four row player))
    ⊎ (e : String × Client) × (rest : Dict String Client) × ((seated four row player).server.clients
        ≡ e ∷ rest)
      × (shutdown usual (seated four row player) ≡ none)
shutdown-clients_example = shutdown-clients usual (seated four row player) (refl, tt)

-- Another client comes, and ann leaves.
abbrev ben : Client
ben = record { address = "b"; conn_sd = 4 }

serve_all-Refines_example :
    SameSeats usual
      (hall usual (
        serve_all usual
          (accepted (some ben) ∷ logged_in ben captain ∷ dropped ann ∷ [])
          (seated four row player)))
      (reseat_all usual
        (accepted (some ben) ∷ logged_in ben captain ∷ dropped ann ∷ [])
        (hall usual (seated four row player)))
    × IsMapped usual (
        serve_all usual
          (accepted (some ben) ∷ logged_in ben captain ∷ dropped ann ∷ [])
          (seated four row player))
unfolding AreLegal reseat find
serve_all-Refines_example =
    serve_all-Refines usual (accepted (some ben) ∷ logged_in ben captain ∷ dropped ann ∷ [])
      (seated four row player) seated-IsMapped (tt, (tt, (tt, tt)))

broadcast_faction_states-seats_example :
    SameSeats usual (hall usual (broadcast_faction_states usual (λ c. false) marked).1) (λ a.
      if is_sent usual (get_changed_factions usual marked)
      then kept_seat (λ c. false) usual (hall usual marked a)
      else hall usual marked a)
unfolding find
broadcast_faction_states-seats_example =
    broadcast_faction_states-seats usual (λ c. false) marked (refl, tt) (refl, tt)
