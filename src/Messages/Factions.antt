-- ===== src/Messages/Factions.antt =====
-- The factions of the game: `Game`'s `_factions` and its methods (src/game/Game.cpp).
use proj8315server.Base.{
  Bool, true, false, ◌&&◌, Option, none, some, List, [], ◌∷◌, map, String, str_eq, string_eq, ◌==◌,
  Dict, find, put, if◌then◌else◌,
}
use proj8315server.Base.Effects.{Effect, ◌>>=◌}
use proj8315server.Database.{QueryResult}
use proj8315server.Common.{Common}
use proj8315server.Session.{Client, Sys, sql, exec, succeeded, get_user, update_user_faction}
use proj8315server.Messages.{
  Reply, null_message, create_faction_response, faction_list_response, updated_factions_msg,
}

-- A text is not empty.
abbrev pub nonempty : String → Bool
nonempty s = if str_eq s "" then false else true

module _ (C : Common) where
  abbrev pub faction_statement : C.User → String → String
  faction_statement u name = sql (
      "INSERT INTO factions(user_id, name) VALUES('"
      ∷ C.user_id u
      ∷ "', '"
      ∷ name
      ∷ "') RETURNING id;"
      ∷ [])

  -- The answer of the database decides on the new faction.
  unfoldable pub record_faction : C.User → String → QueryResult → Effect (Sys C) (Reply C)
  record_faction owner name r s =
      if succeeded r && r.result.size == 1
      then (let faction = C.make_faction (r.result.text_at 0 0) name in
          some (
            create_faction_response true "" faction,
            update_user_faction C owner faction
                (record s { factions = put name faction s.factions }),
          ))
      else some (create_faction_response false "Internal server error" C.null_faction, s)

  unfoldable pub create_faction : C.User → String → Effect (Sys C) (Reply C)
  create_faction owner name = do
    r ← exec C (faction_statement owner name)
    record_faction owner name r

  -- `addFaction`. The second read of the user, under the same lock, yields the same user.
  unfoldable pub add_faction : Client → String → Effect (Sys C) (Reply C)
  add_faction c name s = elim (find name s.factions) [
    | none ↦
        let owner = get_user C c s in
        if C.is_null_user owner
        then some (null_message, s)
        else if nonempty (C.user_faction_name owner)
        then some (create_faction_response false "User already has a faction" C.null_faction, s)
        else create_faction owner name s
    | some _ ↦
        some
          (create_faction_response false "Faction with this name already exists" C.null_faction, s)
  ]

  unfoldable pub get_faction : String → Sys C → C.Faction
  get_faction name s = elim (find name s.factions) [ none ↦ C.null_faction | some f ↦ f ]

  unfoldable pub access_faction : String → Sys C → Option C.Faction
  access_faction name s = find name s.factions

  unfoldable pub get_all_factions : Sys C → Reply C
  get_all_factions s = faction_list_response (map (λ p. p.1) s.factions)

  unfoldable pub changed : Dict String C.Faction → List C.Faction
  changed [] = []
  changed ((k, f) ∷ m) = if C.is_updated f then f ∷ changed m else changed m

  unfoldable pub get_changed_factions : Sys C → Reply C
  get_changed_factions s = elim (changed s.factions) [
    | [] ↦ null_message
    | f ∷ fs ↦ updated_factions_msg (f ∷ fs)
  ]

  unfoldable pub clear_updated : Dict String C.Faction → Dict String C.Faction
  clear_updated [] = []
  clear_updated ((k, f) ∷ m) =
      (k, if C.is_updated f then C.mark_updated false f else f) ∷ clear_updated m

  unfoldable pub reset_changed_factions_status : Sys C → Sys C
  reset_changed_factions_status s = record s { factions = clear_updated s.factions }
