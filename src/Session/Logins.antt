-- ===== src/Session/Logins.antt =====
-- Logins and logouts: src/Server.cpp and src/msgs/General.cpp.
use proj8315server.Base.{
  ◌≡◌, refl, ap, ◌∙◌, true, false, Option, none, some, String, find, string_eq, beq_refl,
}
use proj8315server.Base.Effects.{◌>>=◌}
use proj8315server.Database.{QueryResult, Pointer, connected, null_pointer, dangling}
use proj8315server.Common.{Common}
use proj8315server.Session.{Client, Sys, exec, succeeded, login_user}
use proj8315server.Session.Users.{user_at, user_at-set_user}
use proj8315server.Messages.General.{
  Account, user_of, enter_account, login_account, login_reply, login_faction, logged_in_statement,
  user_faction_statement,
}

module _ (C : Common) where
  -- A query leaves the server and the factions alone.
  abbrev SameHall : Sys C → Sys C → Type 0
  SameHall s t = (t.server ≡ s.server) × (t.factions ≡ s.factions)

  pub exec-SameHall :
      (q : String) (s t : Sys C) (r : QueryResult) → exec C q s ≡ some (r, t) → SameHall s t
  unfolding exec
  exec-SameHall q s t r = by_pointer s.pointer refl
    where
      kept :
          (x : QueryResult) (u : Sys C)
          → SameHall s u
          → ◌≡◌ {A = Option (QueryResult × Sys C)} (some (x, u)) (some (r, t))
          → SameHall s t
      kept x u h e = let same : t ≡ u = cc in rw same h

      lost : ◌≡◌ {A = Option (QueryResult × Sys C)} none (some (r, t)) → SameHall s t
      lost e = absurd cc

      by_pointer : (p : Pointer) → s.pointer ≡ p → exec C q s ≡ some (r, t) → SameHall s t
      by_pointer connected e h = kept _ _ (refl, refl) (rw (e, exec) at h)
      by_pointer null_pointer e h = kept _ _ (refl, refl) (rw (e, exec) at h)
      by_pointer dangling e h = lost (rw (e, exec) at h)

  -- Once the database has recorded a login, a failed query for the user's faction answers the
  -- client that the login failed, and leaves the user of the account logged in at its address.
  pub login_account-half :
      (c : Client) (a : Account) (s t u : Sys C) (r f : QueryResult)
      → exec C (logged_in_statement C a.id) s ≡ some (r, t)
      → succeeded r ≡ true
      → exec C (user_faction_statement C a.id) (login_user C c (user_of C a) t) ≡ some (f, u)
      → succeeded f ≡ false
      → (login_account C c a s
          ≡ some (login_reply C a false C.null_faction "Internal server error", u))
        × (user_at C c.address u ≡ some (user_of C a))
  unfolding login_account enter_account login_faction login_user
  login_account-half c a s t u r f answer good failed bad = (
    rw (◌>>=◌, answer, good, login_account, failed, bad, enter_account, login_faction),
    ap {B = Option C.User} (λ v. find c.address v.client_user_mapping)
          (exec-SameHall (user_faction_statement C a.id) (login_user C c (user_of C a) t) u f
            failed).0
        ∙ (user_at-set_user C c.address c (user_of C a) t ∙ rw (beq_refl c.address)),
  )
