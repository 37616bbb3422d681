-- ===== src/Messages/General.antt =====
-- The general client messages: src/msgs/General.cpp. A reply `null_message` is not sent.
use proj8315server.Base.{
  Bool, true, false, none, some, [], ◌∷◌, String, str_eq, ◌==◌, ltb, ℤ, pos, string_eq,
  if◌then◌else◌,
}
use proj8315server.Base.Effects.{Effect, pure, modify, gets, ◌>>=◌, ◌>>◌}
use proj8315server.Database.{
  QueryStatus, incomplete, ok, connection_error, syntax_error, unique_violation, unexpected_error,
  QueryResult, Rows,
}
use proj8315server.Common.{Common}
use proj8315server.Session.{
  Client, Sys, sql, exec, succeeded, get_user, login_user, logout_user, update_user_data,
}
use proj8315server.Messages.{
  Reply, null_message, server_info_response, login_response, logout_response,
  user_register_response, obj_info_lib_response,
}
use proj8315server.Messages.Factions.{nonempty}

abbrev pub internal_error : String
internal_error = "Internal server error"

-- The account that the row of a login names.
pub record Account : Type 0 where
  pub id : String
  pub name : String
  pub admin : Bool
  pub tile_x : ℤ
  pub tile_z : ℤ

abbrev pub account_of : Rows → Account
account_of r = record {
  id = r.text_at 0 0;
  name = r.text_at 0 1;
  admin = r.flag_at 0 4;
  tile_x = r.int_at 0 5;
  tile_z = r.int_at 0 6;
}

module _ (C : Common) where
  abbrev pub Handle : Type 0
  Handle = Client → C.Msg → Effect (Sys C) (Reply C)

  unfoldable pub get_server_info : Handle
  get_server_info c m = do
    r ← exec C "SELECT * FROM server_info;"
    pure (
        server_info_response (
          if succeeded r
          then (if r.result.size == 1 then r.result.text_at 0 1 else "error")
          else "error"))

  abbrev pub login_statement : String → String → String
  login_statement name passwd =
      sql ("SELECT * FROM users WHERE name='" ∷ name ∷ "' AND password='" ∷ passwd ∷ "';" ∷ [])

  abbrev pub logged_in_statement : String → String
  logged_in_statement id = sql ("UPDATE users SET logged_in=TRUE WHERE id='" ∷ id ∷ "';" ∷ [])

  abbrev pub user_faction_statement : String → String
  user_faction_statement id = sql ("SELECT * FROM factions WHERE user_id = '" ∷ id ∷ "';" ∷ [])

  abbrev pub login_reply : Account → Bool → C.Faction → String → Reply C
  login_reply a success faction error =
      login_response success a.admin a.tile_x a.tile_z faction error

  -- A login that is refused before the account is read.
  abbrev pub refused : String → Reply C
  refused error = login_response false false (pos 0) (pos 0) C.null_faction error

  -- The reply by the faction of the account, once the login is recorded.
  unfoldable pub login_faction : Account → QueryResult → Reply C
  login_faction a f =
      if succeeded f
      then (if ltb 1 f.result.size
          then login_reply a false C.null_faction internal_error
          else if f.result.size == 1
          then (if nonempty (f.result.text_at 0 2)
              then (if nonempty (f.result.text_at 0 0)
                  then login_reply a true
                      (C.make_faction (f.result.text_at 0 0) (f.result.text_at 0 2)) ""
                  else login_reply a false C.null_faction internal_error)
              else login_reply a false C.null_faction internal_error)
          else login_reply a true C.null_faction "")
      else login_reply a false C.null_faction internal_error

  abbrev pub user_of : Account → C.User
  user_of a = C.make_user a.id a.name a.admin a.tile_x a.tile_z

  -- The rest of a login that the database has recorded. The faction's name is set on the handler's
  -- own copy of the user, which ends with the call.
  unfoldable pub enter_account : Client → Account → Effect (Sys C) (Reply C)
  enter_account c a = do
    modify (login_user C c (user_of a))
    f ← exec C (user_faction_statement a.id)
    pure (login_faction a f)

  unfoldable pub login_account : Client → Account → Effect (Sys C) (Reply C)
  login_account c a = do
    r ← exec C (logged_in_statement a.id)
    if succeeded r
        then enter_account c a
        else pure (
            login_reply a false C.null_faction "Database error: Failed to assign user login status")

  -- What a failed query tells the client; some failures have no text.
  abbrev pub login_failure : QueryStatus → String
  login_failure syntax_error = internal_error
  login_failure connection_error = internal_error
  login_failure unexpected_error = internal_error
  login_failure _ = ""

  unfoldable pub login_rows : Client → QueryResult → Effect (Sys C) (Reply C)
  login_rows c r =
      if succeeded r
      then (if r.result.size == 0
          then pure (refused "Invalid username or password")
          else if r.result.size == 1
          then (if r.result.flag_at 0 3
              then pure (refused "Failed to login")
              else login_account c (account_of r.result))
          else pure null_message)
      else pure (refused (login_failure r.status))

  unfoldable pub user_login : Handle
  user_login c m = elim (C.read_login m) [
    | none ↦ pure null_message
    | some (name, passwd) ↦ (do r ← exec C (login_statement name passwd); login_rows c r)
  ]

  abbrev pub position_statement : C.User → String
  position_statement u = sql (
      "UPDATE users SET tile_x='"
      ∷ C.to_string (C.user_x u)
      ∷ "', tile_z='"
      ∷ C.to_string (C.user_z u)
      ∷ "' WHERE id='"
      ∷ C.user_id u
      ∷ "';"
      ∷ [])

  -- The last position is saved first; whether that succeeds is not looked at.
  unfoldable pub logout_known : Client → C.User → Effect (Sys C) (Reply C)
  logout_known c u = do
    r ← exec C (position_statement u)
    done ← logout_user C c u
    pure (if done then logout_response else null_message)

  unfoldable pub user_logout : Handle
  user_logout c m = if C.is_null_msg m then pure null_message else (do
    u ← gets (get_user C c)
    if C.is_null_user u then pure null_message else logout_known c u)

  abbrev pub register_statement : String → String → String
  register_statement name passwd =
      sql ("INSERT INTO users(name, password) VALUES('" ∷ name ∷ "', '" ∷ passwd ∷ "');" ∷ [])

  abbrev pub register_reply : QueryStatus → Reply C
  register_reply ok = user_register_response true ""
  register_reply unique_violation = user_register_response false "Invalid username"
  register_reply syntax_error = user_register_response false internal_error
  register_reply connection_error = user_register_response false internal_error
  register_reply unexpected_error = user_register_response false internal_error
  register_reply incomplete = user_register_response false ""

  unfoldable pub user_register : Handle
  user_register c m = elim (C.read_register m) [
    | none ↦ pure null_message
    | some (name, passwd, again) ↦
        if str_eq passwd again
        then (do r ← exec C (register_statement name passwd); pure (register_reply r.status))
        else pure (user_register_response false "Passwords needs to match")
  ]

  unfoldable pub fetch_obj_type_lib : Handle
  fetch_obj_type_lib c m = gets (λ s. obj_info_lib_response s.world.object_info)

  -- The user is read, and written back in another critical section.
  unfoldable pub update_observer : Handle
  update_observer c m s =
      if C.is_null_user (get_user C c s) then some (null_message, s) else elim (C.read_observer m) [
        | none ↦ some (null_message, s)
        | some (x, z, r) ↦ some (null_message, update_user_data C c x z r s)
      ]
