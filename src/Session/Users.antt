-- ===== src/Session/Users.antt =====
-- Who is logged in: the map from the addresses of clients to users, under each method of `Server`.
use proj8315server.Base.{
  ◌≡◌, refl, sym, ◌∙◌, inl, inr, Option, none, some, [], ◌∷◌, ◌++◌, String, str_eq, string_eq, find,
  find-put, find-remove, Bool-cases, if◌then◌else◌,
}
use proj8315server.Common.{Common}
use proj8315server.Session.{Client, Sys, set_user, forget_user, disconnect_client}

module _ (C : Common) where
  abbrev pub user_at : String → Sys C → Option C.User
  user_at a s = find a s.server.client_user_mapping

  abbrev pub client_at : String → Sys C → Option Client
  client_at a s = find a s.server.clients

  pub user_at-set_user :
      (a : String) (c : Client) (u : C.User) (s : Sys C)
      → user_at a (set_user C c u s) ≡ (if str_eq c.address a then some u else user_at a s)
  unfolding set_user
  user_at-set_user a c u s = find-put c.address a u s.server.client_user_mapping

  pub client_at-set_user :
      (a : String) (c : Client) (u : C.User) (s : Sys C)
      → client_at a (set_user C c u s) ≡ client_at a s
  unfolding set_user
  client_at-set_user a c u s = refl

  -- Every logged in user belongs to a connected client.
  abbrev pub IsMapped : Sys C → Type 0
  IsMapped s =
      (a : String) (u : C.User) → user_at a s ≡ some u → (c : Client) × (client_at a s ≡ some c)

  pub set_user-IsMapped :
      (c d : Client) (u : C.User) (s : Sys C)
      → client_at c.address s ≡ some d
      → IsMapped s
      → IsMapped (set_user C c u s)
  set_user-IsMapped c d u s there m a v e = elim (Bool-cases (str_eq c.address a)) [
    | inl same ↦
        (d, client_at-set_user a c u s ∙ (rw (← (string_eq.beq_iff c.address a).0 same) there))
    | inr other ↦
        let old : user_at a s ≡ some v = rw other at (sym (user_at-set_user a c u s) ∙ e) in
        let (k, at) = m a v old in (k, client_at-set_user a c u s ∙ at)
  ]

  pub user_at-forget_user :
      (a : String) (c : Client) (s : Sys C)
      → user_at a (forget_user C c s) ≡ (if str_eq c.address a then none else user_at a s)
  unfolding forget_user
  user_at-forget_user a c s = find-remove c.address a s.server.client_user_mapping

  pub client_at-forget_user :
      (a : String) (c : Client) (s : Sys C) → client_at a (forget_user C c s) ≡ client_at a s
  unfolding forget_user
  client_at-forget_user a c s = refl

  pub user_at-forget_some :
      (a : String) (c : Client) (s : Sys C) (u : C.User)
      → user_at a (forget_user C c s) ≡ some u
      → user_at a s ≡ some u
  user_at-forget_some a c s u e = elim (Bool-cases (str_eq c.address a)) [
    | inl same ↦ let gone : none ≡ some u = rw same at (sym (user_at-forget_user a c s) ∙ e) in cc
    | inr other ↦ rw other at (sym (user_at-forget_user a c s) ∙ e)
  ]

  pub forget_user-IsMapped : (c : Client) (s : Sys C) → IsMapped s → IsMapped (forget_user C c s)
  unfolding forget_user
  forget_user-IsMapped c s m a v e =
      let (k, at) = m a v (user_at-forget_some a c s v e) in (k, client_at-forget_user a c s ∙ at)

  -- Disconnecting a connected client forgets it and its user, closes the socket of the client that
  -- was given, and leaves every other client and user alone.
  pub disconnect_client_lem :
      (c : Client) (s : Sys C) (d : Client)
      → client_at c.address s ≡ some d
      → (a : String)
      → (client_at a (disconnect_client C c s)
          ≡ (if str_eq c.address a then none else client_at a s))
        × (user_at a (disconnect_client C c s) ≡ (if str_eq c.address a then none else user_at a s))
        × ((disconnect_client C c s).server.closed ≡ s.server.closed ++ c.conn_sd ∷ [])
  unfolding disconnect_client
  disconnect_client_lem c s d e a =
      rw (e, disconnect_client)
        (
          find-remove c.address a s.server.clients,
          find-remove c.address a s.server.client_user_mapping,
          refl,
        )
