-- ===== src/Session.antt =====
-- The connected clients and their users: src/Client.h, src/Client.cpp and src/Server.cpp. The state
-- that all message handlers share is `Sys`; each method but `Server::run` holds the server's mutex to
-- its end.
pub mod Users
pub mod Logins
pub mod Shutdown
pub mod Seats
use Prim.Native.String.{◌++◌ as str_append}
use proj8315server.Base.{
  ℕ, Bool, true, false, ◌&&◌, not, Option, none, some, List, [], ◌∷◌, ◌++◌, String, str_eq,
  string_eq, ◌==◌, ℤ, Dict, find, put, remove, if◌then◌else◌,
}
use proj8315server.Base.Effects.{Effect, pure, ◌>>=◌, ◌>>◌}
use proj8315server.World.{World}
use proj8315server.Database.{
  QueryStatus, ok, QueryResult, Pointer, null_pointer, connected, dangling, result_of,
  connection_error, no_rows,
}
use proj8315server.Common.{Common}

pub record Client : Type 0 where
  pub address : String
  pub conn_sd : ℕ

-- `Client::operator==`.
unfoldable pub client_eq : Client → Client → Bool
client_eq a b = str_eq a.address b.address && a.conn_sd == b.conn_sd

-- The text of a statement from its parts.
unfoldable pub sql : List String → String
sql [] = ""
sql (s ∷ ss) = str_append s (sql ss)

-- What a query yields without a connection.
abbrev pub no_connection : QueryResult
no_connection = record { status = connection_error; result = no_rows; error_msg = "" }

abbrev pub succeeded : QueryResult → Bool
succeeded r = elim r.status [ ok ↦ true | _ ↦ false ]

module _ (C : Common) where
  -- The part of `Server` that changes, with the sockets that it closed.
  pub record Server : Type 0 where
    pub clients : Dict String Client
    pub client_user_mapping : Dict String C.User
    pub closed : List ℕ

  -- All that a message handler can change.
  pub record Sys : Type 0 where
    pub server : Server
    pub world : World
    pub factions : Dict String C.Faction
    pub pointer : Pointer
    pub db : C.Db

module _ (C : Common) where
  abbrev pub with_server : Sys C → Server C → Sys C
  with_server s v = record s { server = v }

  -- `DatabaseManager::exec_query` on the program's connection.
  unfoldable pub exec : String → Effect (Sys C) QueryResult
  exec statement s = elim s.pointer [
    | connected ↦
        let (db', t) = C.transact s.db statement in some (result_of t, record s { db = db' })
    | null_pointer ↦ some (no_connection, s)
    | dangling ↦ none
  ]

  -- What `Server::run` does behind `accept`: it looks for the address, without the mutex, and puts a
  -- client whose address is new into the map, with the mutex.
  unfoldable pub is_connected : Client → Sys C → Bool
  is_connected c s = elim (find c.address s.server.clients) [ none ↦ false | some _ ↦ true ]

  unfoldable pub admit_client : Client → Sys C → Sys C
  admit_client c s =
      with_server s (record (s.server) { clients = put c.address c s.server.clients })

  -- Both at once, where no other thread comes between.
  unfoldable pub accept_client : Option Client → Sys C → Sys C
  accept_client none s = s
  accept_client (some c) s = if is_connected c s then s else admit_client c s

  unfoldable pub get_user : Client → Sys C → C.User
  get_user c s = elim (find c.address s.server.client_user_mapping) [
    | none ↦ C.null_user
    | some u ↦ u
  ]

  unfoldable pub set_user : Client → C.User → Sys C → Sys C
  set_user c u s =
      with_server s
        (record (s.server) { client_user_mapping = put c.address u s.server.client_user_mapping })

  unfoldable pub login_user : Client → C.User → Sys C → Sys C
  login_user c u s = set_user c u s

  unfoldable pub forget_user : Client → Sys C → Sys C
  forget_user c s =
      with_server s
        (record (s.server) { client_user_mapping = remove c.address s.server.client_user_mapping })

  abbrev pub logout_statement : C.User → String
  logout_statement u = sql ("UPDATE users SET logged_in=FALSE WHERE id='" ∷ C.user_id u ∷ "';" ∷ [])

  -- The user is forgotten only once the database has recorded the logout.
  unfoldable pub logout_user : Client → C.User → Effect (Sys C) Bool
  logout_user c u s = elim (find c.address s.server.clients) [
    | none ↦ pure false s
    | some _ ↦ elim (find c.address s.server.client_user_mapping) [
      | none ↦ pure false s
      | some _ ↦
          (do
            r ← exec (logout_statement u)
            λ t. if succeeded r then some (true, forget_user c t) else some (false, t))
            s
    ]
  ]

  unfoldable pub disconnect_client : Client → Sys C → Sys C
  disconnect_client c s = elim (find c.address s.server.clients) [
    | none ↦ s
    | some _ ↦ with_server s (record {
      clients = remove c.address s.server.clients;
      client_user_mapping = remove c.address s.server.client_user_mapping;
      closed = s.server.closed ++ c.conn_sd ∷ [];
    })
  ]

  -- The loop of `shutdown` over the clients that are left. Each call erases the entry that the loop
  -- stands on; the step from an erased entry is a fault.
  unfoldable pub close_clients : Dict String Client → Sys C → Option (Sys C)
  close_clients [] s = some s
  close_clients ((a, c) ∷ rest) s =
      let s' = disconnect_client c s in
      let next = close_clients rest s' in
      elim (find a s'.server.clients) [ none ↦ none | some _ ↦ next ]

  unfoldable pub shutdown : Sys C → Option (Sys C)
  shutdown s = close_clients s.server.clients s

  -- `_clientUserMapping[address]` makes a default user where there is none.
  unfoldable pub user_or_default : Client → Sys C → C.User
  user_or_default c s = elim (find c.address s.server.client_user_mapping) [
    | none ↦ C.default_user
    | some v ↦ v
  ]

  unfoldable pub update_user_data : Client → ℤ → ℤ → ℤ → Sys C → Sys C
  update_user_data c x z r s =
      set_user c (C.update_observe_properties (user_or_default c s) x z r) s

  -- `updateUserFaction` has no effect.
  unfoldable pub update_user_faction : C.User → C.Faction → Sys C → Sys C
  update_user_faction u f s = s
