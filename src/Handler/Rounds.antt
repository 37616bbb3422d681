-- ===== src/Handler/Rounds.antt =====
-- A round of the faction broadcast of src/MessageHandler.cpp as seen from the seats of the server.
use proj8315server.Base.{
  ◌≡◌, refl, ◌∙◌, ap, inl, inr, Bool, true, false, not, ◌&&◌, ◌||◌, Option, none, some, [], ◌∷◌,
  String, str_eq, string_eq, find, Distinct, All, Bool-cases, if◌then◌else◌, Dict,
}
use proj8315server.Common.{Common}
use proj8315server.Session.{Client, Sys, disconnect_client}
use proj8315server.Session.Shutdown.{Keyed}
use proj8315server.Session.Seats.{Seat, seat_of, hall, SameSeats, disconnect_client-seat}
use proj8315server.Messages.Factions.{get_changed_factions, reset_changed_factions_status}
use proj8315server.Handler.{is_sent, drop_unsent, broadcast_faction_states}

or_false : (b : Bool) → b || false ≡ b
or_false true = refl
or_false false = refl

and_false : (b : Bool) → b && false ≡ false
and_false true = refl
and_false false = refl

and_true : (b : Bool) → b && true ≡ b
and_true true = refl
and_true false = refl

-- One seat is freed after another.
freed_twice {ℓ} :
    {A : Type ℓ} (p q : Bool) (x : Option A)
    → (if q then none else (if p then none else x)) ≡ (if p || q then none else x)
freed_twice true true x = refl
freed_twice true false x = refl
freed_twice false true x = refl
freed_twice false false x = refl

module _ (sent : Client → Bool) where
  -- Some client of that address got nothing.
  abbrev unsent_at : String → Dict String Client → Bool
  unsent_at a [] = false
  unsent_at a ((k, c) ∷ m) = (str_eq c.address a && not (sent c)) || unsent_at a m

  abbrev unsent : Option Client → Bool
  unsent none = false
  unsent (some c) = not (sent c)

  unsent_at-find :
      (a : String) (m : Dict String Client)
      → All Keyed m
      → Distinct m
      → unsent_at a m ≡ unsent (find a m)
  unfolding find
  unsent_at-find a [] keyed once = refl
  unsent_at-find a ((k, c) ∷ m) keyed once = elim (Bool-cases (str_eq k a)) [
    | inl same ↦
        let eq = (string_eq.beq_iff k a).0 same in
        let gone : find a m ≡ none = rw eq at once.0 in
        rw (own, same, unsent_at-find a m keyed.1 once.1, gone) (or_false (not (sent c)))
    | inr other ↦ rw (own, other) (unsent_at-find a m keyed.1 once.1)
  ]
    where
      own : str_eq c.address a ≡ str_eq k a
      own = ap (λ x. str_eq x a) keyed.0

  -- A seat is left to a client that something was sent to.
  abbrev pub kept_seat : (C : Common) → Seat C → Seat C
  kept_seat C none = none
  kept_seat C (some (c, u)) = if sent c then some (c, u) else none

  module _ (C : Common) where
    drop_unsent-seat :
        (m : Dict String Client) (s : Sys C)
        → SameSeats C
            (hall C (drop_unsent C sent m s))
            (λ a. if unsent_at a m then none else hall C s a)
    unfolding drop_unsent
    drop_unsent-seat [] s a = refl
    drop_unsent-seat ((k, c) ∷ m) s a =
        by_answer (sent c) (drop_unsent-seat m s a) (drop_unsent-seat m (disconnect_client C c s) a)
      where
        here : Bool
        here = str_eq c.address a

        by_answer :
            (b : Bool)
            → hall C (drop_unsent C sent m s) a ≡ (if unsent_at a m then none else hall C s a)
            → hall C (drop_unsent C sent m (disconnect_client C c s)) a
              ≡ (if unsent_at a m then none else hall C (disconnect_client C c s) a)
            → hall C (drop_unsent C sent m (if b then s else disconnect_client C c s)) a
              ≡ (if (here && not b) || unsent_at a m then none else hall C s a)
        by_answer true kept lost = rw (and_false here) kept
        by_answer false kept lost = rw (and_true here) (
            lost
            ∙ ap (λ x. if unsent_at a m then none else x) (disconnect_client-seat C c s a)
            ∙ freed_twice here (unsent_at a m) (hall C s a))

    kept_seat-unsent :
        (o : Option Client) (u : Option C.User)
        → (if unsent o then none else seat_of C o u) ≡ kept_seat C (seat_of C o u)
    kept_seat-unsent none u = refl
    kept_seat-unsent (some c) u = elim (Bool-cases (sent c)) [
      | inl got ↦ rw got refl
      | inr lost ↦ rw lost refl
    ]

-- Where the map of clients has each client under its own address and no address twice: a round of the
-- faction broadcast leaves every seat as it is where no faction has changed, and otherwise leaves
-- exactly the seats whose clients got the message, whatever the order in which the map is walked.
pub broadcast_faction_states-seats :
    (C : Common) (sent : Client → Bool) (s : Sys C)
    → All Keyed s.server.clients
    → Distinct s.server.clients
    → SameSeats C (hall C (broadcast_faction_states C sent s).1) (λ a.
      if is_sent C (get_changed_factions C s) then kept_seat sent C (hall C s a) else hall C s a)
unfolding broadcast_faction_states reset_changed_factions_status
broadcast_faction_states-seats C sent s keyed once a =
    elim (Bool-cases (is_sent C (get_changed_factions C s))) [
      | inr quiet ↦ rw (quiet, broadcast_faction_states) refl
      | inl changed ↦
          rw (changed, broadcast_faction_states)
            (drop_unsent-seat sent C s.server.clients s a
              ∙ ap (λ (b : Bool). if b then none else hall C s a)
                  (unsent_at-find sent a s.server.clients keyed once)
              ∙ kept_seat-unsent sent C (find a s.server.clients)
                  (find a s.server.client_user_mapping))
    ]
