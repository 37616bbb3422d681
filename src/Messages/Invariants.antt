-- ===== src/Messages/Invariants.antt =====
-- Predicates on the server under the handlers of src/msgs/. A predicate is given with what the four
-- changes that a handler can make of the server do to it.
use proj8315server.Base.{
  ◌≡◌, refl, Bool, ◌&&◌, Option, none, some, String, str_eq, inl, inr, Option-cases, ◌==◌, ltb, ℤ,
  find, string_eq, ◌>>=◌ as opt_bind,
}
use proj8315server.Base.Effects.{Holds, Holds->>=, Holds-if, Holds-if_run}
use proj8315server.World.{World}
use proj8315server.World.Frames.{IsSafe}
use proj8315server.World.Spawning.{spawn_object-Holds}
use proj8315server.World.Areas.{set_tile_area-Holds}
use proj8315server.World.Spawn.{spawn_object}
use proj8315server.World.Terrain.{set_tile_area}
use proj8315server.Database.{QueryResult, Pointer, connected, null_pointer, dangling}
use proj8315server.Common.{Common}
use proj8315server.Session.{
  Client, Sys, exec, succeeded, get_user, login_user, forget_user, logout_user, logout_statement,
  update_user_data, update_user_faction,
}
use proj8315server.Messages.{Reply, null_message}
use proj8315server.Messages.Factions.{
  nonempty, faction_statement, record_faction, create_faction, add_faction,
}
use proj8315server.Messages.General.{
  Account, user_of, get_server_info, login_statement, logged_in_statement, user_faction_statement,
  enter_account, login_account, login_rows, user_login, logout_known, user_logout, user_register,
  update_observer, account_of, position_statement, register_statement,
}
use proj8315server.Messages.Admin.{
  with_world, touch_faction, game_spawn_object, spawn_faction, spawn_object_msg, modify_terrain,
  terrain_modification,
}
use proj8315server.Messages.WorldState.{create_new_faction}

module _ (C : Common) (c : Client) where
  -- What a handler may change besides the server: the database, the factions, and the world, which
  -- stays safe if it was.
  pub record Elsewhere (s t : Sys C) : Type 0 where
    pub server : t.server ≡ s.server
    pub pointer : t.pointer ≡ s.pointer
    pub world : IsSafe s.world → IsSafe t.world

  -- The world is not touched.
  beside :
      (s t : Sys C)
      → t.server ≡ s.server
      → t.pointer ≡ s.pointer
      → t.world ≡ s.world
      → Elsewhere s t
  beside s t e f g = record { server = e; pointer = f; world = λ k. rw g k }

  -- What the handling of a message from `c` may do to the server without breaking `P`.
  pub record IsKept (P : Sys C → Type 0) : Type 0 where
    pub elsewhere : (s t : Sys C) → Elsewhere s t → P s → P t
    pub entered : (a : Account) (s : Sys C) → P s → P (login_user C c (user_of C a) s)
    pub left : (s : Sys C) → P s → P (forget_user C c s)
    pub moved : (x z r : ℤ) (s : Sys C) → P s → P (update_user_data C c x z r s)

  module _ (P : Sys C → Type 0) (kept : IsKept P) where
    pub exec-Holds : (q : String) (s : Sys C) → P s → Holds P (exec C q s)
    unfolding exec
    exec-Holds q s h = by_pointer s.pointer refl
      where
        by_pointer : (p : Pointer) → s.pointer ≡ p → Holds P (exec C q s)
        by_pointer connected e = rw (e, exec) (kept.elsewhere s _ (beside s _ refl refl refl) h)
        by_pointer null_pointer e = rw (e, exec) h
        by_pointer dangling e = rw (e, exec) tt

    pub record_faction-Holds :
        (u : C.User) (n : String) (r : QueryResult) (s : Sys C)
        → P s
        → Holds P (record_faction C u n r s)
    unfolding record_faction update_user_faction
    record_faction-Holds u n r s h =
        Holds-if P (succeeded r && r.result.size == 1) _ _
          (kept.elsewhere s _ (beside s _ refl refl refl) h) h

    pub add_faction-Holds : (n : String) (s : Sys C) → P s → Holds P (add_faction C c n s)
    unfolding add_faction create_faction
    add_faction-Holds n s h = elim (Option-cases (find n s.factions)) [
      | inl e ↦
          rw (e, add_faction)
            (Holds-if P (C.is_null_user u) _ _ h (
              Holds-if P (nonempty (C.user_faction_name u)) _ _ h (
                Holds->>= P P (exec C (faction_statement C u n) s) _ (exec-Holds _ s h)
                  (λ r t k. record_faction-Holds u n r t k))))
      | inr (f, e) ↦ rw (e, add_faction) h
    ]
      where
        u : C.User
        u = get_user C c s

    pub get_server_info-Holds : (m : C.Msg) (s : Sys C) → P s → Holds P (get_server_info C c m s)
    unfolding get_server_info
    get_server_info-Holds m s h =
        Holds->>= P P (exec C "SELECT * FROM server_info;" s) _ (exec-Holds _ s h) (λ r t k. k)

    pub enter_account-Holds : (a : Account) (s : Sys C) → P s → Holds P (enter_account C c a s)
    unfolding enter_account
    enter_account-Holds a s h =
        Holds->>= P P (exec C (user_faction_statement C a.id) (login_user C c (user_of C a) s)) _
          (exec-Holds _ _ (kept.entered a s h)) (λ r t k. k)

    pub login_account-Holds : (a : Account) (s : Sys C) → P s → Holds P (login_account C c a s)
    unfolding login_account
    login_account-Holds a s h =
        Holds->>= P P (exec C (logged_in_statement C a.id) s) _ (exec-Holds _ s h)
          (λ r t k. Holds-if_run P (succeeded r) _ _ t (enter_account-Holds a t k) k)

    pub login_rows-Holds : (r : QueryResult) (s : Sys C) → P s → Holds P (login_rows C c r s)
    unfolding login_rows
    login_rows-Holds r s h =
        Holds-if_run P (succeeded r) _ _ s
          (Holds-if_run P (r.result.size == 0) _ _ s h (
            Holds-if_run P (r.result.size == 1) _ _ s
              (Holds-if_run P (r.result.flag_at 0 3) _ _ s h
                (login_account-Holds (account_of r.result) s h))
              h))
          h

    pub user_login-Holds : (m : C.Msg) (s : Sys C) → P s → Holds P (user_login C c m s)
    unfolding user_login
    user_login-Holds m s h = elim (Option-cases (C.read_login m)) [
      | inl e ↦ rw (e, user_login) h
      | inr ((n, w), e) ↦
          rw (e, user_login)
            (Holds->>= P P (exec C (login_statement C n w) s) _ (exec-Holds _ s h)
              (λ r t k. login_rows-Holds r t k))
    ]

    pub logout_user-Holds : (u : C.User) (s : Sys C) → P s → Holds P (logout_user C c u s)
    unfolding logout_user
    logout_user-Holds u s h = elim (Option-cases (find c.address s.server.clients)) [
      | inl e ↦ rw (e, logout_user) h
      | inr (d, e) ↦ elim (Option-cases (find c.address s.server.client_user_mapping)) [
        | inl e' ↦ rw (e, e', logout_user) h
        | inr (v, e') ↦
            rw (e, e', logout_user)
              (Holds->>= P P (exec C (logout_statement C u) s) _ (exec-Holds _ s h)
                (λ r t k. Holds-if P (succeeded r) _ _ (kept.left t k) k))
      ]
    ]

    pub user_logout-Holds : (m : C.Msg) (s : Sys C) → P s → Holds P (user_logout C c m s)
    unfolding user_logout logout_known
    user_logout-Holds m s h = Holds-if_run P (C.is_null_msg m) _ _ s h (
        Holds-if_run P (C.is_null_user u) _ _ s h (
          Holds->>= P P (exec C (position_statement C u) s) _ (exec-Holds _ s h) (λ r t k.
            Holds->>= P P (logout_user C c u t) _ (logout_user-Holds u t k) (λ b t' k'. k'))))
      where
        u : C.User
        u = get_user C c s

    pub user_register-Holds : (m : C.Msg) (s : Sys C) → P s → Holds P (user_register C c m s)
    unfolding user_register
    user_register-Holds m s h = elim (Option-cases (C.read_register m)) [
      | inl e ↦ rw (e, user_register) h
      | inr ((n, w, w'), e) ↦
          rw (e, user_register)
            (Holds-if_run P (str_eq w w') _ _ s
              (Holds->>= P P (exec C (register_statement C n w) s) _ (exec-Holds _ s h)
                (λ r t k. k))
              h)
    ]

    pub update_observer-Holds : (m : C.Msg) (s : Sys C) → P s → Holds P (update_observer C c m s)
    unfolding update_observer
    update_observer-Holds m s h = elim (Option-cases (C.read_observer m)) [
      | inl e ↦ rw (e, update_observer) (Holds-if P (C.is_null_user (get_user C c s)) _ _ h h)
      | inr ((x, z, r), e) ↦
          rw (e, update_observer)
            (Holds-if P (C.is_null_user (get_user C c s)) _ _ h (kept.moved x z r s h))
    ]

    -- The world and the factions are outside the server.
    touch_faction-Elsewhere :
        (n : String) (s : Sys C) (g : World)
        → (IsSafe s.world → IsSafe g)
        → Elsewhere s (with_world C (touch_faction C n s) g)
    unfolding touch_faction
    touch_faction-Elsewhere n s g k = elim (Option-cases (find n s.factions)) [
      | inl e ↦ rw (e, touch_faction) (record { server = refl; pointer = refl; world = k })
      | inr (f, e) ↦ rw (e, touch_faction) (record { server = refl; pointer = refl; world = k })
    ]

    pub spawn_object_msg-Holds : (m : C.Msg) (s : Sys C) → P s → Holds P (spawn_object_msg C c m s)
    unfolding spawn_object_msg game_spawn_object
    spawn_object_msg-Holds m s h = elim (Option-cases (C.read_spawn m)) [
      | inl e ↦ rw (e, spawn_object_msg) h
      | inr ((t, x, y), e) ↦
          rw (e, spawn_object_msg)
            (Holds-if P (C.user_is_admin u) _ _
              (spawned (spawn_object C.env s.world x y t (spawn_faction C u))
                (spawn_object-Holds C.env s.world x y t (spawn_faction C u)))
              h)
    ]
      where
        u : C.User
        u = get_user C c s

        spawned :
            (o : Option (World × Bool))
            → ((g : World) (b : Bool) → o ≡ some (g, b) → IsSafe s.world → IsSafe g)
            → Holds P (
                opt_bind {A = Bool × Sys C} {B = Reply C × Sys C}
                  (opt_bind o
                    (λ r. some (r.1, with_world C (touch_faction C (spawn_faction C u) s) r.0)))
                  (λ r. some (null_message, r.1)))
        spawned none k = tt
        spawned (some (g, b)) k =
            kept.elsewhere s _ (touch_faction-Elsewhere (spawn_faction C u) s g (k g b refl)) h

    pub terrain_modification-Holds :
        (m : C.Msg) (s : Sys C) → P s → Holds P (terrain_modification C c m s)
    unfolding terrain_modification modify_terrain
    terrain_modification-Holds m s h = elim (Option-cases (C.read_terrain_mod m)) [
      | inl e ↦ rw (e, terrain_modification) h
      | inr (t, e) ↦
          rw (e, terrain_modification)
            (Holds-if P (C.user_is_admin (get_user C c s)) _ _
              (Holds-if P (ltb C.max_terr_elevation t.elevation) _ _ h (
                Holds-if P (ltb C.max_temperature t.temperature) _ _ h (
                  Holds-if P (ltb C.max_terr_type t.terrain_type) _ _ h (
                    shaped
                      (set_tile_area C.env s.world t.radius t.target_x t.target_y t.elevation
                        t.temperature t.terrain_type)
                      (set_tile_area-Holds C.env s.world t.radius t.target_x t.target_y t.elevation
                        t.temperature t.terrain_type)))))
              h)
    ]
      where
        shaped :
            (o : Option World)
            → ((g : World) → o ≡ some g → IsSafe s.world → IsSafe g)
            → Holds P (
                opt_bind {A = World} {B = Reply C × Sys C} o
                  (λ g. some (null_message, with_world C s g)))
        shaped none k = tt
        shaped (some g) k =
            kept.elsewhere s _ (record { server = refl; pointer = refl; world = k g refl }) h

    pub create_new_faction-Holds :
        (m : C.Msg) (s : Sys C) → P s → Holds P (create_new_faction C c m s)
    unfolding create_new_faction
    create_new_faction-Holds m s h = elim (Option-cases (C.read_create_faction m)) [
      | inl e ↦ rw (e, create_new_faction) h
      | inr (n, e) ↦ rw (e, create_new_faction) (add_faction-Holds n s h)
    ]
