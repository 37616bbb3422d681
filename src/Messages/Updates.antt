-- ===== src/Messages/Updates.antt =====
-- The broadcast of changed factions (src/game/Game.cpp, src/MessageHandler.cpp).
use proj8315server.Base.{
  ◌≡◌, refl, false, none, some, [], ◌∷◌, String, if◌then◌else◌, Bool-cases, inl, inr, Dict, find,
  string_eq, str_eq,
}
use proj8315server.Common.{Common}
use proj8315server.Session.{Sys}
use proj8315server.Messages.{null_message}
use proj8315server.Messages.Factions.{
  changed, clear_updated, get_changed_factions, reset_changed_factions_status, access_faction,
}

module _ (C : Common)
    (clears : (f : C.Faction) → C.is_updated (C.mark_updated false f) ≡ false) where
  cleared : (m : Dict String C.Faction) → changed C (clear_updated C m) ≡ []
  unfolding changed clear_updated
  cleared [] = refl
  cleared ((k, f) ∷ m) = elim (Bool-cases (C.is_updated f)) [
    | inl e ↦ rw (e, clears f, changed, clear_updated) (cleared m)
    | inr e ↦ rw (e, changed, clear_updated, e) (cleared m)
  ]

find-clear :
    (C : Common) (a : String) (m : Dict String C.Faction)
    → find a (clear_updated C m) ≡ elim (find a m) [
      | none ↦ none
      | some f ↦ some (if C.is_updated f then C.mark_updated false f else f)
    ]
unfolding clear_updated find
find-clear C a [] = refl
find-clear C a ((k, f) ∷ m) = elim (Bool-cases (str_eq k a)) [
  | inl e ↦ rw (e, clear_updated, find)
  | inr e ↦ rw (e, clear_updated, find) (find-clear C a m)
]

-- Where `markUpdated(false)` clears the mark, after a reset there is no message of changed
-- factions, and each name has the faction that it had, unmarked if it was marked.
reset-get_changed :
    (C : Common) (s : Sys C) (a : String)
    → ((f : C.Faction) → C.is_updated (C.mark_updated false f) ≡ false)
    → (get_changed_factions C (reset_changed_factions_status C s) ≡ null_message)
      × (access_faction C a (reset_changed_factions_status C s) ≡ elim (access_faction C a s) [
        | none ↦ none
        | some f ↦ some (if C.is_updated f then C.mark_updated false f else f)
      ])
unfolding get_changed_factions reset_changed_factions_status access_faction
reset-get_changed C s a clears =
    (rw (cleared C clears s.factions, get_changed_factions), find-clear C a s.factions)
