-- ===== src/Session/Seats.antt =====
-- What the two maps of src/Server.cpp, of clients and of users, are together: for each address a
-- seat, which is free or taken by a client, with or without a user.
use mathlib.Core.Path.{fun_ext}
use proj8315server.Base.{
  ◌≡◌, refl, sym, ◌∙◌, ap, inl, inr, Option, none, some, List, [], ◌∷◌, String, str_eq, string_eq,
  find-put, Bool-cases, Option-cases, ℤ, if◌then◌else◌,
}
use proj8315server.Common.{Common}
use proj8315server.Session.{
  Client, Sys, accept_client, is_connected, admit_client, set_user, login_user, forget_user,
  disconnect_client, user_or_default, update_user_data,
}
use proj8315server.Session.Users.{
  user_at, client_at, user_at-set_user, client_at-set_user, user_at-forget_user,
  client_at-forget_user, IsMapped, set_user-IsMapped, forget_user-IsMapped, disconnect_client_lem,
}

-- The calls of Server's methods that change the maps.
pub data Event (C : Common) : Type 0 where
  accepted : Option Client → Event C
  logged_in : Client → C.User → Event C
  logged_out : Client → Event C
  dropped : Client → Event C
  observed : Client → ℤ → ℤ → ℤ → Event C

module _ (C : Common) where
  unfoldable pub serve : Event C → Sys C → Sys C
  serve (accepted o) s = accept_client C o s
  serve (logged_in c u) s = login_user C c u s
  serve (logged_out c) s = forget_user C c s
  serve (dropped c) s = disconnect_client C c s
  serve (observed c x z r) s = update_user_data C c x z r s

  unfoldable pub serve_all : List (Event C) → Sys C → Sys C
  serve_all [] s = s
  serve_all (e ∷ es) s = serve_all es (serve e s)

  -- A free seat is `none`.
  abbrev pub Seat : Type 0
  Seat = Option (Client × Option C.User)

  abbrev pub Hall : Type 0
  Hall = String → Seat

  abbrev pub seat_of : Option Client → Option C.User → Seat
  seat_of none u = none
  seat_of (some c) u = some (c, u)

  abbrev pub hall : Sys C → Hall
  hall s a = seat_of (client_at C a s) (user_at C a s)

  -- What becomes of a seat.
  abbrev pub with_user : (Option C.User → Option C.User) → Seat → Seat
  with_user f none = none
  with_user f (some (c, u)) = some (c, f u)

  abbrev pub sit : Client → Seat → Seat
  sit c none = some (c, none)
  sit c (some seat) = some seat

  abbrev pub or_default : Option C.User → C.User
  or_default none = C.default_user
  or_default (some u) = u

  abbrev pub at_seat : String → (Seat → Seat) → Hall → Hall
  at_seat k f h a = if str_eq k a then f (h a) else h a

  -- Each event changes one seat at most, and knows nothing but that seat.
  unfoldable pub reseat : Event C → Hall → Hall
  reseat (accepted none) h = h
  reseat (accepted (some c)) h = at_seat c.address (sit c) h
  reseat (logged_in c u) h = at_seat c.address (with_user (λ _. some u)) h
  reseat (logged_out c) h = at_seat c.address (with_user (λ _. none)) h
  reseat (dropped c) h = at_seat c.address (λ _. none) h
  reseat (observed c x z r) h =
      at_seat c.address (with_user (λ u. some (C.update_observe_properties (or_default u) x z r))) h

  unfoldable pub reseat_all : List (Event C) → Hall → Hall
  reseat_all [] h = h
  reseat_all (e ∷ es) h = reseat_all es (reseat e h)

  abbrev pub IsTaken : Seat → Type 0
  IsTaken none = ⊥
  IsTaken (some seat) = Unit

  -- Only a client that is connected is given a user.
  abbrev pub IsLegal : Event C → Hall → Type 0
  IsLegal (logged_in c u) h = IsTaken (h c.address)
  IsLegal (observed c x z r) h = IsTaken (h c.address)
  IsLegal _ h = Unit

  unfoldable pub AreLegal : List (Event C) → Hall → Type 0
  AreLegal [] h = Unit
  AreLegal (e ∷ es) h = IsLegal e h × AreLegal es (reseat e h)

  -- Two halls with the same seats.
  abbrev pub SameSeats : Hall → Hall → Type 0
  SameSeats g h = (a : String) → g a ≡ h a

  seat_of-with_user :
      (f : Option C.User → Option C.User) (o : Option Client) (v w : Option C.User)
      → f v ≡ w
      → seat_of o w ≡ with_user f (seat_of o v)
  seat_of-with_user f none v w e = refl
  seat_of-with_user f (some c) v w e = rw e refl

  unmapped_user :
      (a : String) (s : Sys C) → IsMapped C s → client_at C a s ≡ none → user_at C a s ≡ none
  unmapped_user a s m e = elim (Option-cases (user_at C a s)) [
    | inl f ↦ f
    | inr (u, f) ↦ let no : none ≡ some (m a u f).0 = sym e ∙ (m a u f).1 in absurd (cc)
  ]

  set_user-seat :
      (c : Client) (u : C.User) (f : Option C.User → Option C.User) (s : Sys C)
      → f (user_at C c.address s) ≡ some u
      → SameSeats (hall (set_user C c u s)) (at_seat c.address (with_user f) (hall s))
  set_user-seat c u f s e a = elim (Bool-cases (str_eq c.address a)) [
    | inl same ↦
        let eq = (string_eq.beq_iff c.address a).0 same in
        rw (client_at-set_user C a c u s, user_at-set_user C a c u s, same)
          (seat_of-with_user f (client_at C a s) (user_at C a s) (some u) (rw eq at e))
    | inr other ↦ rw (client_at-set_user C a c u s, user_at-set_user C a c u s, other) refl
  ]

  forget_user-seat :
      (c : Client) (s : Sys C)
      → SameSeats (hall (forget_user C c s)) (at_seat c.address (with_user (λ _. none)) (hall s))
  forget_user-seat c s a = elim (Bool-cases (str_eq c.address a)) [
    | inl same ↦
        rw (client_at-forget_user C a c s, user_at-forget_user C a c s, same)
          (seat_of-with_user (λ _. none) (client_at C a s) (user_at C a s) none refl)
    | inr other ↦ rw (client_at-forget_user C a c s, user_at-forget_user C a c s, other) refl
  ]

  pub disconnect_client-seat :
      (c : Client) (s : Sys C)
      → SameSeats (hall (disconnect_client C c s)) (at_seat c.address (λ _. none) (hall s))
  unfolding disconnect_client
  disconnect_client-seat c s a = elim (Option-cases (client_at C c.address s)) [
    | inl free ↦
        rw (free, disconnect_client)
          (elim (Bool-cases (str_eq c.address a)) [
            | inl same ↦
                let eq = (string_eq.beq_iff c.address a).0 same in
                let none_here : client_at C a s ≡ none = rw eq at free in rw (same, none_here) refl
            | inr other ↦ rw other refl
          ])
    | inr (d, e) ↦
        let after = disconnect_client_lem C c s d e a in
        elim (Bool-cases (str_eq c.address a)) [
          | inl same ↦ rw (after.0, after.1, same) refl
          | inr other ↦ rw (after.0, after.1, other) refl
        ]
  ]

  accept_client-seat :
      (c : Client) (s : Sys C)
      → IsMapped C s
      → SameSeats (hall (accept_client C (some c) s)) (at_seat c.address (sit c) (hall s))
  unfolding accept_client is_connected admit_client
  accept_client-seat c s m a = elim (Option-cases (client_at C c.address s)) [
    | inl free ↦
        rw (free, accept_client, is_connected, find-put c.address a c s.server.clients)
          (elim (Bool-cases (str_eq c.address a)) [
            | inl same ↦
                let eq = (string_eq.beq_iff c.address a).0 same in
                let none_here : client_at C a s ≡ none = rw eq at free in
                rw (same, none_here, unmapped_user a s m none_here) refl
            | inr other ↦ rw other refl
          ])
    | inr (d, e) ↦
        rw (e, accept_client, is_connected)
          (elim (Bool-cases (str_eq c.address a)) [
            | inl same ↦
                let eq = (string_eq.beq_iff c.address a).0 same in
                let there : client_at C a s ≡ some d = rw eq at e in rw (same, there) refl
            | inr other ↦ rw other refl
          ])
  ]

  or_default-user_or_default :
      (c : Client) (s : Sys C) → or_default (user_at C c.address s) ≡ user_or_default C c s
  unfolding user_or_default
  or_default-user_or_default c s = elim (Option-cases (user_at C c.address s)) [
    | inl e ↦ rw (e, user_or_default) refl
    | inr (u, e) ↦ rw (e, user_or_default) refl
  ]

  accept_client-none : (s : Sys C) → accept_client C none s ≡ s
  unfolding accept_client
  accept_client-none s = refl

  serve-seat :
      (e : Event C) (s : Sys C) → IsMapped C s → SameSeats (hall (serve e s)) (reseat e (hall s))
  unfolding serve reseat login_user update_user_data
  serve-seat (accepted none) s m a = ap (λ t. hall t a) (accept_client-none s)
  serve-seat (accepted (some c)) s m a = accept_client-seat c s m a
  serve-seat (logged_in c u) s m a = set_user-seat c u (λ _. some u) s refl a
  serve-seat (logged_out c) s m a = forget_user-seat c s a
  serve-seat (dropped c) s m a = disconnect_client-seat c s a
  serve-seat (observed c x z r) s m a =
      set_user-seat c _ (λ u. some (C.update_observe_properties (or_default u) x z r)) s
        (ap (λ v. some (C.update_observe_properties v x z r)) (or_default-user_or_default c s)) a

  taken_client :
      (o : Option Client) (v : Option C.User) → IsTaken (seat_of o v) → (d : Client) × (o ≡ some d)
  taken_client none v h = absurd h
  taken_client (some d) v h = (d, refl)

  accept_client-IsMapped :
      (c : Client) (s : Sys C) → IsMapped C s → IsMapped C (accept_client C (some c) s)
  unfolding accept_client is_connected admit_client
  accept_client-IsMapped c s m = elim (Option-cases (client_at C c.address s)) [
    | inr (d, e) ↦ rw (e, accept_client, is_connected) m
    | inl free ↦
        rw (free, accept_client, is_connected)
          (λ a u h. elim (Bool-cases (str_eq c.address a)) [
            | inl same ↦ (c, find-put c.address a c s.server.clients ∙ rw same refl)
            | inr other ↦
                let (k, at) = m a u h in (k, find-put c.address a c s.server.clients ∙ rw other at)
          ])
  ]

  disconnect_client-IsMapped :
      (c : Client) (s : Sys C) → IsMapped C s → IsMapped C (disconnect_client C c s)
  unfolding disconnect_client
  disconnect_client-IsMapped c s m = elim (Option-cases (client_at C c.address s)) [
    | inl free ↦ rw (free, disconnect_client) m
    | inr (d, e) ↦ λ a u h.
        let after = disconnect_client_lem C c s d e a in
        elim (Bool-cases (str_eq c.address a)) [
          | inl same ↦ let no : none ≡ some u = rw same at (sym after.1 ∙ h) in absurd (cc)
          | inr other ↦
              let (k, at) = m a u (rw other at (sym after.1 ∙ h)) in (k, after.0 ∙ rw other at)
        ]
  ]

  serve-IsMapped :
      (e : Event C) (s : Sys C) → IsLegal e (hall s) → IsMapped C s → IsMapped C (serve e s)
  unfolding serve login_user update_user_data
  serve-IsMapped (accepted none) s l m = rw (accept_client-none s) m
  serve-IsMapped (accepted (some c)) s l m = accept_client-IsMapped c s m
  serve-IsMapped (logged_in c u) s l m =
      let (d, there) = taken_client (client_at C c.address s) (user_at C c.address s) l in
      set_user-IsMapped C c d u s there m
  serve-IsMapped (logged_out c) s l m = forget_user-IsMapped C c s m
  serve-IsMapped (dropped c) s l m = disconnect_client-IsMapped c s m
  serve-IsMapped (observed c x z r) s l m =
      let (d, there) = taken_client (client_at C c.address s) (user_at C c.address s) l in
      set_user-IsMapped C c d _ s there m

-- Where every logged in user belongs to a connected client: under any calls of the methods that
-- accept clients, log users in and out, disconnect clients and move what users observe, in any order,
-- of which only those that give a user to a seat that is taken are allowed to give one, the two maps
-- are at each address what the seats become that the calls change one by one, and every logged in
-- user still belongs to a connected client.
pub serve_all-Refines :
    (C : Common) (es : List (Event C)) (s : Sys C)
    → IsMapped C s
    → AreLegal C es (hall C s)
    → SameSeats C (hall C (serve_all C es s)) (reseat_all C es (hall C s))
      × IsMapped C (serve_all C es s)
unfolding serve_all reseat_all AreLegal
serve_all-Refines C [] s m l = (λ a. refl, m)
serve_all-Refines C (e ∷ es) s m l =
    let same : hall C (serve C e s) ≡ reseat C e (hall C s) = fun_ext (serve-seat C e s m) in
    let next = serve_all-Refines C es (serve C e s) (serve-IsMapped C e s l.0 m) (rw same l.1) in
    (λ a. next.0 a ∙ ap (λ h. reseat_all C es h a) same, next.1)
