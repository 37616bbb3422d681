-- ===== src/Handler.antt =====
-- The message loop and the broadcasts: src/MessageHandler.h and MessageHandler.cpp. Each function
-- is one round of the loop of its thread.
pub mod Sessions
pub mod Batches
pub mod Rounds
use proj8315server.Base.{
  ℕ, zero, suc, ◌+◌, ◌*◌, ◌-◌, ◌^◌, ◌≤◌, ◌<◌, Bool, true, false, Option, none, some, List, [], ◌∷◌,
  ◌++◌, length, String, get_elem?, ltb, leb, ℤ, pos, negsuc, eq_ℤ, drop, if◌then◌else◌, Dict,
}
use proj8315server.Base.Effects.{Effect, pure, modify, gets, ◌>>=◌, ◌>>◌}
use proj8315server.World.{World}
use proj8315server.World.Snapshot.{Snapshot, get_world_state}
use proj8315server.Common.{
  Common, Kind, server_info, login_request, logout_request, register_request, obj_info_lib_request,
  create_faction_request, update_observer, faction_list_request, spawn_request, terrain_mod_request,
}
use proj8315server.Session.{Client, Sys, get_user, disconnect_client}
use proj8315server.Messages.{Reply, null_message}
use proj8315server.Messages.Factions.{get_changed_factions, reset_changed_factions_status}
use proj8315server.Messages.General
use proj8315server.Messages.General.{Handle}
use proj8315server.Messages.Admin
use proj8315server.Messages.WorldState

-- The entries of `_msgFuncMapping`, in the order of their insertion.
abbrev pub kinds : List Kind
kinds =
    server_info ∷ login_request ∷ logout_request ∷ register_request ∷ obj_info_lib_request
    ∷ create_faction_request ∷ update_observer ∷ faction_list_request ∷ spawn_request
    ∷ terrain_mod_request ∷ []

-- `_maxRecvBufLen`.
abbrev pub max_recv_buf_len : ℕ
max_recv_buf_len = 512

-- A loop on fuel: what it yields, or that the fuel did not last.
pub data Loop (A : Type 0) : Type 0 where
  finished : A → Loop A
  out_of_fuel : Loop A

-- `*((int32_t*)p)` on a little-endian machine; `none` is a read behind the buffer.
unfoldable pub int32_at : List ℕ → Option ℤ
int32_at (a ∷ b ∷ c ∷ d ∷ rest) =
    let n = a + b * 2 ^ 8 + c * 2 ^ 16 + d * 2 ^ 24 in
    some (if ltb n (2 ^ 31) then pos n else negsuc (2 ^ 32 - n - 1))
int32_at _ = none

module _ (C : Common) where
  unfoldable pub handler_of : Kind → Handle C
  handler_of server_info = General.get_server_info C
  handler_of login_request = General.user_login C
  handler_of logout_request = General.user_logout C
  handler_of register_request = General.user_register C
  handler_of obj_info_lib_request = General.fetch_obj_type_lib C
  handler_of create_faction_request = WorldState.create_new_faction C
  handler_of update_observer = General.update_observer C
  handler_of faction_list_request = WorldState.get_all_factions_msg C
  handler_of spawn_request = Admin.spawn_object_msg C
  handler_of terrain_mod_request = Admin.terrain_modification C

  unfoldable pub find_kind : ℤ → List Kind → Option Kind
  find_kind t [] = none
  find_kind t (k ∷ ks) = if eq_ℤ (C.kind_value k) t then some k else find_kind t ks

  unfoldable pub process_message : Handle C
  process_message c m = elim (find_kind (C.msg_type m) kinds) [
    | none ↦ pure null_message
    | some k ↦ handler_of k c m
  ]

  -- NULL_MESSAGE is not sent.
  abbrev pub is_sent : Reply C → Bool
  is_sent null_message = false
  is_sent _ = true

  abbrev pub keep_reply : Reply C → Loop (List (Reply C)) → Loop (List (Reply C))
  keep_reply r out_of_fuel = out_of_fuel
  keep_reply r (finished rs) = finished (if is_sent r then r ∷ rs else rs)

  -- The type and the text of the message at an offset, which has the size of its type. A size that
  -- reaches behind the buffer makes `Message` read there: a fault.
  unfoldable pub message_at : List ℕ → ℕ → Option (ℕ × C.Msg)
  message_at buf offset = elim (int32_at (drop offset buf)) [
    | none ↦ none
    | some t ↦
        if leb (C.message_size t) (length (drop offset buf))
        then some (C.message_size t, C.make_message (drop offset buf) (C.message_size t))
        else none
  ]

  unfoldable pub join_replies :
      Reply C → Option (Loop (List (Reply C)) × Sys C) → Option (Loop (List (Reply C)) × Sys C)
  join_replies r none = none
  join_replies r (some (rs, u)) = some (keep_reply r rs, u)

  -- The messages behind one that was processed.
  unfoldable pub handle_rest :
      (Sys C → Option (Loop (List (Reply C)) × Sys C))
      → Option (Reply C × Sys C)
      → Option (Loop (List (Reply C)) × Sys C)
  handle_rest next none = none
  handle_rest next (some (r, t)) = join_replies r (next t)

  -- The messages of one read, from an offset on, with the replies that are sent.
  unfoldable pub handle_batch :
      ℕ → Client → List ℕ → ℕ → ℕ → Sys C → Option (Loop (List (Reply C)) × Sys C)
  handle_batch zero c buf read_bytes offset s = some (out_of_fuel, s)
  handle_batch (suc fuel) c buf read_bytes offset s = elim (ltb offset read_bytes) [
    | false ↦ some (finished [], s)
    | true ↦ elim (message_at buf offset) [
      | none ↦ none
      | some (size, m) ↦
          handle_rest (handle_batch fuel c buf read_bytes (offset + size)) (process_message c m s)
    ]
  ]

  -- The round of `broadcastWorldState` for one client. `sent` says whether `send` sent anything;
  -- a client to whom nothing was sent is disconnected.
  unfoldable pub observe_client : ℕ → (Client → Bool) → Client → Effect (Sys C) (List Snapshot)
  observe_client slots sent c s =
      let u = get_user C c s in
      if C.is_null_user u
      then some ([], s)
      else elim (get_world_state slots s.world (C.user_x u) (C.user_z u) (C.observe_radius u)) [
        | none ↦ none
        | some w ↦ some (w ∷ [], if sent c then s else disconnect_client C c s)
      ]

  unfoldable pub observe_clients :
      ℕ → (Client → Bool) → Dict String Client → Effect (Sys C) (List Snapshot)
  observe_clients slots sent [] = pure []
  observe_clients slots sent ((a, c) ∷ cs) = do
    w ← observe_client slots sent c
    ws ← observe_clients slots sent cs
    pure (w ++ ws)

  -- The clients are those that were connected when the round began.
  unfoldable pub broadcast_world_state : ℕ → (Client → Bool) → Effect (Sys C) (List Snapshot)
  broadcast_world_state slots sent s = observe_clients slots sent s.server.clients s

  unfoldable pub drop_unsent : (Client → Bool) → Dict String Client → Sys C → Sys C
  drop_unsent sent [] s = s
  drop_unsent sent ((a, c) ∷ cs) s =
      drop_unsent sent cs (if sent c then s else disconnect_client C c s)

  -- The message that goes to every client, and the state after the round.
  unfoldable pub broadcast_faction_states : (Client → Bool) → Sys C → Reply C × Sys C
  broadcast_faction_states sent s =
      let r = get_changed_factions C s in
      if is_sent r
      then (r, reset_changed_factions_status C (drop_unsent sent s.server.clients s))
      else (r, s)
