-- ===== src/Servers.antt =====
-- The order in which a control service tries its signalling servers (`orderSignalGatewayServers` in
-- shared/src/signalGateway/status.ts).
pub mod Order
pub mod Tests
use uurc_web_new.Prelude.{ℕ, suc, Option, none, some, List, ◌∷◌, ◌++◌, take, drop, get_elem?}
use uurc_web_new.Prelude.Int.{pos, Numeric, number}

abbrev pub servers_from : {A : Type 0} → List A → ℕ → Option A → List A
servers_from servers index none = servers
servers_from servers index (some preferred) =
    preferred ∷ (take index servers ++ drop (suc index) servers)

-- An index that is no integer, negative or past the end is left aside.
unfoldable pub order_servers : {A : Type 0} → List A → Option Numeric → List A
order_servers servers (some (number (pos index))) =
    servers_from servers index (get_elem? servers index)
order_servers servers _ = servers
