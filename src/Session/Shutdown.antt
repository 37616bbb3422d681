-- ===== src/Session/Shutdown.antt =====
-- The shutdown of the server: src/Server.cpp.
use proj8315server.Base.{
  ◌≡◌, refl, ◌⊎◌, inl, inr, none, some, [], ◌∷◌, All, List-cases, Dict, String, str_eq, string_eq,
  find, find-remove, beq_refl, true, ap, ◌∙◌,
}
use proj8315server.Common.{Common}
use proj8315server.Session.{Client, Sys, disconnect_client, close_clients, shutdown}

-- An entry of the map of clients under the client's own address.
abbrev pub Keyed : String × Client → Type 0
Keyed e = e.1.address ≡ e.0

module _ (C : Common) where
  -- A connected client is not found after it was disconnected.
  disconnect_client-gone :
      (a : String) (c : Client) (s : Sys C) (rest : Dict String Client)
      → c.address ≡ a
      → s.server.clients ≡ (a, c) ∷ rest
      → find a (disconnect_client C c s).server.clients ≡ none
  unfolding disconnect_client find
  disconnect_client-gone a c s rest own e =
      let same : str_eq a c.address ≡ true = rw own (beq_refl a) in
      let same' : str_eq c.address a ≡ true = rw own (beq_refl a) in
      let there : find c.address s.server.clients ≡ some c = rw (e, find, same) refl in
      rw (there, disconnect_client, find-remove c.address a s.server.clients, same') refl

-- Where each client is in the map under its own address, the loop of the shutdown over the clients
-- ends without a fault and changes nothing if no client is connected, and is a fault if one is.
pub shutdown-clients :
    (C : Common) (s : Sys C)
    → All Keyed s.server.clients
    → (s.server.clients ≡ []) × (shutdown C s ≡ some s)
      ⊎ (e : String × Client) × (rest : Dict String Client) × (s.server.clients ≡ e ∷ rest)
        × (shutdown C s ≡ none)
unfolding shutdown close_clients
shutdown-clients C s keyed = elim (List-cases s.server.clients) [
  | inl e ↦ inl (e, rw e refl)
  | inr ((a, c), rest, e) ↦
      let own : All Keyed ((a, c) ∷ rest) = rw e at keyed in
      let gone = disconnect_client-gone C a c s rest own.0 e in
      inr ((a, c), rest, e, ap (λ l. close_clients C l s) e ∙ rw (gone, close_clients))
]
