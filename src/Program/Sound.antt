-- ===== src/Program/Sound.antt =====
-- The state under all interleavings of the threads: src/Server.cpp, src/game/Game.cpp,
-- src/MessageHandler.cpp.
use proj8315server.Base.{
  ℕ, ◌≡◌, refl, ◌∙◌, Bool, true, false, Option, none, some, List, [], ◌∷◌, inl, inr, Option-cases,
  String, All, All-put, All-remove, Distinct, put-Distinct, remove-Distinct, find, string_eq, Dict,
  if◌then◌else◌,
}
use proj8315server.Base.Effects.{Holds, Holds-if}
use proj8315server.World.Frames.{IsSafe}
use proj8315server.Database.{connected}
use proj8315server.Common.{Common}
use proj8315server.Session.{
  Client, Sys, set_user, forget_user, login_user, update_user_data, disconnect_client, admit_client,
  close_clients, get_user,
}
use proj8315server.Session.Shutdown.{Keyed}
use proj8315server.Messages.Invariants.{IsKept}
use proj8315server.World.Snapshot.{Snapshot, get_world_state}
use proj8315server.Handler.{observe_client}
use proj8315server.Handler.Sessions.{NamelessLaws, IsNameless, IsNameless-IsKept}

module _ (C : Common) where
  -- What the parts promise of the state that the threads share: a safe world, clients under their own
  -- addresses and no address twice, users without factions, and a connection to the database.
  pub record IsSound (s : Sys C) : Type 0 where
    pub safe : IsSafe s.world
    pub keyed : All Keyed s.server.clients
    pub once : Distinct s.server.clients
    pub nameless : IsNameless C s
    pub linked : s.pointer ≡ connected

module _ (C : Common) (laws : NamelessLaws C) where
  pub IsSound-IsKept : (c : Client) → IsKept C c (IsSound C)
  unfolding login_user update_user_data set_user forget_user
  IsSound-IsKept c = record {
    elsewhere = λ s t e h. record {
      safe = e.world h.safe;
      keyed = rw e.server h.keyed;
      once = rw e.server h.once;
      nameless = nameless_kept.elsewhere s t e h.nameless;
      linked = e.pointer ∙ h.linked;
    };
    entered = λ a s h. record {
      safe = h.safe;
      keyed = h.keyed;
      once = h.once;
      nameless = nameless_kept.entered a s h.nameless;
      linked = h.linked;
    };
    left = λ s h. record {
      safe = h.safe;
      keyed = h.keyed;
      once = h.once;
      nameless = nameless_kept.left s h.nameless;
      linked = h.linked;
    };
    moved = λ x z r s h. record {
      safe = h.safe;
      keyed = h.keyed;
      once = h.once;
      nameless = nameless_kept.moved x z r s h.nameless;
      linked = h.linked;
    };
  }
    where
      nameless_kept : IsKept C c (IsNameless C)
      nameless_kept = IsNameless-IsKept C laws c

  pub admit_client-IsSound : (c : Client) (s : Sys C) → IsSound C s → IsSound C (admit_client C c s)
  unfolding admit_client
  admit_client-IsSound c s h = record {
    safe = h.safe;
    keyed = All-put Keyed c.address c s.server.clients refl h.keyed;
    once = put-Distinct c.address c s.server.clients h.once;
    nameless = h.nameless;
    linked = h.linked;
  }

  pub disconnect_client-IsSound :
      (c : Client) (s : Sys C) → IsSound C s → IsSound C (disconnect_client C c s)
  unfolding disconnect_client forget_user
  disconnect_client-IsSound c s h = elim (Option-cases (find c.address s.server.clients)) [
    | inl e ↦ rw (e, disconnect_client) h
    | inr (d, e) ↦
        rw (e, disconnect_client)
          (record {
            safe = h.safe;
            keyed = All-remove Keyed c.address s.server.clients h.keyed;
            once = remove-Distinct c.address s.server.clients h.once;
            nameless = (IsNameless-IsKept C laws c).left s h.nameless;
            linked = h.linked;
          })
  ]

  pub close_clients-IsSound :
      (cs : Dict String Client) (s t : Sys C)
      → close_clients C cs s ≡ some t
      → IsSound C s
      → IsSound C t
  unfolding close_clients
  close_clients-IsSound [] s t e h = let eq : s ≡ t = cc in rw (← eq) h
  close_clients-IsSound ((a, c) ∷ rest) s t e h =
      let k = disconnect_client-IsSound c s h in
      elim (Option-cases (find a (disconnect_client C c s).server.clients)) [
        | inl gone ↦ let no_end : none ≡ some t = rw (gone, close_clients) at e in cc
        | inr (d, there) ↦
            close_clients-IsSound rest (disconnect_client C c s) t (rw (there, close_clients) at e)
              k
      ]

  pub observe_client-Holds :
      (slots : ℕ) (sent : Bool) (c : Client) (s : Sys C)
      → IsSound C s
      → Holds (IsSound C) (observe_client C slots (λ _. sent) c s)
  unfolding observe_client
  observe_client-Holds slots sent c s h =
      Holds-if (IsSound C) (C.is_null_user u) _ _ h
        (seen (get_world_state slots s.world (C.user_x u) (C.user_z u) (C.observe_radius u)) sent)
    where
      u : C.User
      u = get_user C c s

      seen :
          (o : Option Snapshot) (b : Bool)
          → Holds (IsSound C) (elim o as (λ _. Option (List Snapshot × Sys C)) [
            | none ↦ none
            | some w ↦ some (w ∷ [], if b then s else disconnect_client C c s)
          ])
      seen none b = tt
      seen (some w) true = h
      seen (some w) false = disconnect_client-IsSound c s h
