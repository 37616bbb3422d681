-- ===== src/Handler/Sessions.antt =====
-- The messages of a client and the logged in users: src/MessageHandler.cpp.
use proj8315server.Base.{
  ℕ, zero, suc, ◌+◌, ◌≡◌, sym, ◌∙◌, ap, Bool, true, false, Option, none, some, List, String, str_eq,
  inl, inr, Bool-cases, Option-cases, ltb, ℤ, find, put, find-put, string_eq, ==_iff, beq_refl,
}
use proj8315server.Base.Effects.{Holds, ◌>>=◌}
use proj8315server.Database.{QueryResult}
use proj8315server.Common.{
  Common, Kind, server_info, login_request, logout_request, register_request, obj_info_lib_request,
  create_faction_request, update_observer, faction_list_request, spawn_request, terrain_mod_request,
}
use proj8315server.Session.{
  Client, Sys, exec, succeeded, get_user, set_user, login_user, update_user_data, user_or_default,
  update_user_faction,
}
use proj8315server.Session.Logins.{exec-SameHall}
use proj8315server.Session.Users.{
  user_at, client_at, user_at-set_user, client_at-set_user, IsMapped, set_user-IsMapped,
  forget_user-IsMapped, user_at-forget_some, client_at-forget_user,
}
use proj8315server.Messages.{Reply, create_faction_response}
use proj8315server.Messages.Factions.{
  add_faction, create_faction, record_faction, faction_statement,
}
use proj8315server.Messages.General.{fetch_obj_type_lib}
use proj8315server.Messages.WorldState.{get_all_factions_msg}
use proj8315server.Messages.Invariants
use proj8315server.Messages.Invariants.{IsKept, Elsewhere}
use proj8315server.Handler.{
  Loop, kinds, handler_of, find_kind, process_message, message_at, handle_batch, handle_rest,
  join_replies,
}

module _ (C : Common) (c : Client) (P : Sys C → Type 0) (kept : IsKept C c P) where
  handler_of-Holds : (k : Kind) (m : C.Msg) (s : Sys C) → P s → Holds P (handler_of C k c m s)
  unfolding handler_of fetch_obj_type_lib get_all_factions_msg
  handler_of-Holds server_info m s h = Invariants.get_server_info-Holds C c P kept m s h
  handler_of-Holds login_request m s h = Invariants.user_login-Holds C c P kept m s h
  handler_of-Holds logout_request m s h = Invariants.user_logout-Holds C c P kept m s h
  handler_of-Holds register_request m s h = Invariants.user_register-Holds C c P kept m s h
  handler_of-Holds obj_info_lib_request m s h = h
  handler_of-Holds create_faction_request m s h =
      Invariants.create_new_faction-Holds C c P kept m s h
  handler_of-Holds update_observer m s h = Invariants.update_observer-Holds C c P kept m s h
  handler_of-Holds faction_list_request m s h = h
  handler_of-Holds spawn_request m s h = Invariants.spawn_object_msg-Holds C c P kept m s h
  handler_of-Holds terrain_mod_request m s h =
      Invariants.terrain_modification-Holds C c P kept m s h

  pub process_message-Holds : (m : C.Msg) (s : Sys C) → P s → Holds P (process_message C c m s)
  unfolding process_message
  process_message-Holds m s h = elim (Option-cases (find_kind C (C.msg_type m) kinds)) [
    | inl e ↦ rw (e, process_message) h
    | inr (k, e) ↦ rw (e, process_message) (handler_of-Holds k m s h)
  ]

  handle_rest-Holds :
      (next : Sys C → Option (Loop (List (Reply C)) × Sys C)) (o : Option (Reply C × Sys C))
      → ((t : Sys C) → P t → Holds P (next t))
      → Holds P o
      → Holds P (handle_rest C next o)
  unfolding handle_rest join_replies
  handle_rest-Holds next none ih h = tt
  handle_rest-Holds next (some (r, t)) ih h = joined (next t) (ih t h)
    where
      joined :
          (o : Option (Loop (List (Reply C)) × Sys C)) → Holds P o → Holds P (join_replies C r o)
      joined none k = tt
      joined (some (rs, u)) k = k

  handle_batch-Holds :
      (fuel : ℕ) (buf : List ℕ) (n offset : ℕ) (s : Sys C)
      → P s
      → Holds P (handle_batch C fuel c buf n offset s)
  unfolding handle_batch
  handle_batch-Holds zero buf n offset s h = h
  handle_batch-Holds (suc fuel) buf n offset s h = elim (Bool-cases (ltb offset n)) [
    | inr e ↦ rw (e, handle_batch) h
    | inl e ↦ elim (Option-cases (message_at C buf offset)) [
      | inl e' ↦ rw (e, e', handle_batch) tt
      | inr ((size, m), e') ↦
          rw (e, e', handle_batch)
            (handle_rest-Holds (handle_batch C fuel c buf n (offset + size))
              (process_message C c m s) (handle_batch-Holds fuel buf n (offset + size))
              (process_message-Holds m s h))
    ]
  ]

module _ (C : Common) (c : Client) where
  -- A connected client stays connected while its own messages are handled.
  abbrev pub IsSeated : Client → Sys C → Type 0
  IsSeated d s = (client_at C c.address s ≡ some d) × IsMapped C s

  IsSeated-Elsewhere : (d : Client) (s t : Sys C) → Elsewhere C c s t → IsSeated d s → IsSeated d t
  IsSeated-Elsewhere d s t moved (there, m) = (
    ap (λ v. find c.address v.clients) moved.server ∙ there,
    λ a u h.
        let (k, at) = m a u (sym (ap (λ v. find a v.client_user_mapping) moved.server) ∙ h) in
        (k, ap (λ v. find a v.clients) moved.server ∙ at),
  )

  IsSeated-IsKept : (d : Client) → IsKept C c (IsSeated d)
  unfolding login_user update_user_data
  IsSeated-IsKept d = record {
    elsewhere = IsSeated-Elsewhere d;
    entered =
        λ a s h. (client_at-set_user C c.address c _ s ∙ h.0, set_user-IsMapped C c d _ s h.0 h.1);
    left = λ s h. (client_at-forget_user C c.address c s ∙ h.0, forget_user-IsMapped C c s h.1);
    moved = λ x z r s h.
        (client_at-set_user C c.address c _ s ∙ h.0, set_user-IsMapped C c d _ s h.0 h.1);
  }

-- If a client is connected and every logged in user belongs to a connected client, then both hold
-- after the handling of any messages of this client, with any fuel, that ends without a fault.
pub handle_batch-IsMapped :
    (C : Common) (c d : Client) (fuel : ℕ) (buf : List ℕ) (n offset : ℕ) (s : Sys C)
    → client_at C c.address s ≡ some d
    → IsMapped C s
    → Holds
        (λ t. (client_at C c.address t ≡ some d) × IsMapped C t)
        (handle_batch C fuel c buf n offset s)
handle_batch-IsMapped C c d fuel buf n offset s there m =
    handle_batch-Holds C c (IsSeated C c d) (IsSeated-IsKept C c d) fuel buf n offset s (there, m)

-- What the documentation of `User` says of its faction's name: a user has none until one is set.
pub record NamelessLaws (C : Common) : Type 0 where
  pub fresh : (i n : String) (b : Bool) (x z : ℤ) → C.user_faction_name (C.make_user i n b x z) ≡ ""
  pub default : C.user_faction_name C.default_user ≡ ""
  pub nobody : C.user_faction_name C.null_user ≡ ""
  pub observing :
      (u : C.User) (x z r : ℤ)
      → C.user_faction_name (C.update_observe_properties u x z r) ≡ C.user_faction_name u

-- No logged in user has the name of a faction.
abbrev pub IsNameless : (C : Common) → Sys C → Type 0
IsNameless C s = (a : String) (u : C.User) → user_at C a s ≡ some u → C.user_faction_name u ≡ ""

module _ (C : Common) (laws : NamelessLaws C) where
  set_user-IsNameless :
      (c : Client) (u : C.User) (s : Sys C)
      → C.user_faction_name u ≡ ""
      → IsNameless C s
      → IsNameless C (set_user C c u s)
  set_user-IsNameless c u s none_set h a v e = elim (Bool-cases (str_eq c.address a)) [
    | inl same ↦
        let is : some u ≡ some v = rw same at (sym (user_at-set_user C a c u s) ∙ e) in
        let eq : u ≡ v = cc in rw (← eq) none_set
    | inr other ↦ h a v (rw other at (sym (user_at-set_user C a c u s) ∙ e))
  ]

  user_or_default-nameless :
      (c : Client) (s : Sys C) → IsNameless C s → C.user_faction_name (user_or_default C c s) ≡ ""
  unfolding user_or_default
  user_or_default-nameless c s h = elim (Option-cases (user_at C c.address s)) [
    | inl e ↦ rw (e, user_or_default) laws.default
    | inr (u, e) ↦ rw (e, user_or_default) (h c.address u e)
  ]

  get_user-nameless :
      (c : Client) (s : Sys C) → IsNameless C s → C.user_faction_name (get_user C c s) ≡ ""
  unfolding get_user
  get_user-nameless c s h = elim (Option-cases (user_at C c.address s)) [
    | inl e ↦ rw (e, get_user) laws.nobody
    | inr (u, e) ↦ rw (e, get_user) (h c.address u e)
  ]

  pub IsNameless-IsKept : (c : Client) → IsKept C c (IsNameless C)
  unfolding login_user update_user_data
  IsNameless-IsKept c = record {
    elsewhere = λ s t e h a u k. h a u (sym (ap (λ v. find a v.client_user_mapping) e.server) ∙ k);
    entered =
        λ a s h. set_user-IsNameless c _ s (laws.fresh a.id a.name a.admin a.tile_x a.tile_z) h;
    left = λ s h a v e. h a v (user_at-forget_some C a c s v e);
    moved = λ x z r s h.
        set_user-IsNameless c _ s (laws.observing _ x z r ∙ user_or_default-nameless c s h) h;
  }

-- If the methods of User keep to their documentation and no logged in user has the name of a
-- faction, then none has after the handling of any messages of any client, with any fuel, that ends
-- without a fault, whatever the database answers.
handle_batch-IsNameless :
    (C : Common) (c : Client) (fuel : ℕ) (buf : List ℕ) (n offset : ℕ) (s : Sys C)
    → NamelessLaws C
    → IsNameless C s
    → Holds (IsNameless C) (handle_batch C fuel c buf n offset s)
handle_batch-IsNameless C c fuel buf n offset s laws h =
    handle_batch-Holds C c (IsNameless C) (IsNameless-IsKept C laws c) fuel buf n offset s h

create_faction_one :
    (C : Common) (u : C.User) (name : String) (s t : Sys C) (r : QueryResult)
    → exec C (faction_statement C u name) s ≡ some (r, t)
    → succeeded r ≡ true
    → r.result.size ≡ 1
    → create_faction C u name s
      ≡ some (
        create_faction_response true "" (C.make_faction (r.result.text_at 0 0) name),
        record t { factions = put name (C.make_faction (r.result.text_at 0 0) name) t.factions },
      )
unfolding create_faction record_faction update_user_faction
create_faction_one C u name s t r answer good one =
    rw (answer, good, (==_iff r.result.size 1).1 one, create_faction, ◌>>=◌)

-- The state after a faction was founded, from the database's answer and the state behind it.
abbrev pub founded : (C : Common) → String → QueryResult → Sys C → Sys C
founded C name r t = record t {
  factions = put name (C.make_faction (r.result.text_at 0 0) name) t.factions;
}

-- What a client whose user is logged in without a faction's name gets for a name not taken.
add_faction-founded :
    (C : Common) (c : Client) (name : String) (s t : Sys C) (r : QueryResult)
    → C.user_faction_name (get_user C c s) ≡ ""
    → C.is_null_user (get_user C c s) ≡ false
    → find name s.factions ≡ none
    → exec C (faction_statement C (get_user C c s) name) s ≡ some (r, t)
    → succeeded r ≡ true
    → r.result.size ≡ 1
    → add_faction C c name s
      ≡ some (
        create_faction_response true "" (C.make_faction (r.result.text_at 0 0) name),
        founded C name r t,
      )
unfolding add_faction
add_faction-founded C c name s t r unnamed known free answer good one =
    rw (free, known, unnamed, add_faction)
      (create_faction_one C (get_user C c s) name s t r answer good one)

-- If the methods of User keep to their documentation and no logged in user has the name of a
-- faction, a client with a user that asks for two factions, one after the other, of different names
-- that are not taken, and whose statements are both answered with a success and one row, gets both:
-- that it has the first does not refuse the second, and then both are among the factions.
pub add_faction_again :
    (C : Common) (c : Client) (name next : String) (s t v : Sys C) (r q : QueryResult)
    → NamelessLaws C
    → IsNameless C s
    → C.is_null_user (get_user C c s) ≡ false
    → find name s.factions ≡ none
    → find next s.factions ≡ none
    → str_eq next name ≡ false
    → str_eq name next ≡ false
    → exec C (faction_statement C (get_user C c s) name) s ≡ some (r, t)
    → succeeded r ≡ true
    → r.result.size ≡ 1
    → exec C (faction_statement C (get_user C c s) next) (founded C name r t) ≡ some (q, v)
    → succeeded q ≡ true
    → q.result.size ≡ 1
    → (u : Sys C) × (add_faction C c name s
        ≡ some (create_faction_response true "" (C.make_faction (r.result.text_at 0 0) name), u))
      × ((w : Sys C) × (add_faction C c next u
            ≡ some
                (create_faction_response true "" (C.make_faction (q.result.text_at 0 0) next), w))
          × (find name w.factions ≡ some (C.make_faction (r.result.text_at 0 0) name))
          × (find next w.factions ≡ some (C.make_faction (q.result.text_at 0 0) next)))
unfolding get_user
add_faction_again C c name next s t v r q laws h known free free' other other' answer good one
      answer' good' one' =
    (
      founded C name r t,
      add_faction-founded C c name s t r unnamed known free answer good one,
      (
        founded C next q v,
        add_faction-founded C c next (founded C name r t) v q (rw same unnamed) (rw same known)
            vacant (rw same answer') good' one',
        stays,
        find-put next next _ v.factions ∙ rw (beq_refl next),
      ),
    )
  where
    before : (t.server ≡ s.server) × (t.factions ≡ s.factions)
    before = exec-SameHall C (faction_statement C (get_user C c s) name) s t r answer

    after : (v.server ≡ t.server) × (v.factions ≡ (founded C name r t).factions)
    after =
        exec-SameHall C (faction_statement C (get_user C c s) next) (founded C name r t) v q answer'

    unnamed : C.user_faction_name (get_user C c s) ≡ ""
    unnamed = get_user-nameless C laws c s h

    same : get_user C c (founded C name r t) ≡ get_user C c s
    same =
        ap (λ w. elim (find c.address w.client_user_mapping) [ none ↦ C.null_user | some u ↦ u ])
          before.0

    there : find name v.factions ≡ some (C.make_faction (r.result.text_at 0 0) name)
    there =
        ap (λ fs. find name fs) after.1
        ∙ (find-put name name (C.make_faction (r.result.text_at 0 0) name) t.factions
            ∙ rw (beq_refl name))

    stays :
        find name (founded C next q v).factions ≡ some (C.make_faction (r.result.text_at 0 0) name)
    stays =
        find-put next name (C.make_faction (q.result.text_at 0 0) next) v.factions ∙ rw other there

    vacant : find next (founded C name r t).factions ≡ none
    vacant =
        find-put name next (C.make_faction (r.result.text_at 0 0) name) t.factions
        ∙ rw other' (ap (λ fs. find next fs) before.1 ∙ free')
