-- ===== src/Server/Roster.antt =====
-- What the server promises of its events: the specification of the event callback, which knows
-- neither maps nor connections.
pub mod Refinement
pub mod Ids
use rift_net.Base.{
  ℕ, ◌+◌, Bool, true, false, ◌==◌, ◌||◌, if◌then◌else◌, Option, none, some, ◌>>=◌, List, [], ◌∷◌,
  ◌++◌,
}
use rift_net.Connection.{NetworkEndpoint}
use rift_net.Server.{
  ServerOutput, client_connected, client_disconnected, packet_received, send_data,
}

-- The next id, the ids that were announced, and those that are connected.
pub record Roster : Type 0 where
  pub next : ℕ
  pub announced : ℕ → Bool
  pub live : ℕ → Bool

abbrev pub empty_roster : Roster
empty_roster = record { next = 1; announced = λ j. false; live = λ j. false }

-- After a client has connected, and after one has disconnected.
abbrev pub joined : Roster → ℕ → Roster
joined r id = record {
  next = id + 1;
  announced = λ j. j == id || r.announced j;
  live = λ j. j == id || r.live j;
}

abbrev pub parted : Roster → ℕ → Roster
parted r id = record r { live = λ j. if j == id then false else r.live j }

-- Whether an event may come, and what it changes: a new client has the next id, a packet comes
-- from a client that was announced, and a client that disconnects was connected.
abbrev pub follow_event : Roster → ServerOutput → Option Roster
follow_event r (client_connected id) = if id == r.next then some (joined r id) else none
follow_event r (client_disconnected id) = if r.live id then some (parted r id) else none
follow_event r (packet_received id payload) = if r.announced id then some r else none
follow_event r (send_data endpoint bytes) = some r

unfoldable pub follow : Roster → List ServerOutput → Option Roster
follow r [] = some r
follow r (event ∷ events) = follow_event r event >>= λ r'. follow r' events

-- The ids of the clients that an event sequence announces, and of those that it ends.
abbrev pub connected_ids : List ServerOutput → List ℕ
connected_ids [] = []
connected_ids (client_connected id ∷ events) = id ∷ connected_ids events
connected_ids (client_disconnected id ∷ events) = connected_ids events
connected_ids (packet_received id payload ∷ events) = connected_ids events
connected_ids (send_data endpoint bytes ∷ events) = connected_ids events

abbrev pub disconnected_ids : List ServerOutput → List ℕ
disconnected_ids [] = []
disconnected_ids (client_connected id ∷ events) = disconnected_ids events
disconnected_ids (client_disconnected id ∷ events) = id ∷ disconnected_ids events
disconnected_ids (packet_received id payload ∷ events) = disconnected_ids events
disconnected_ids (send_data endpoint bytes ∷ events) = disconnected_ids events
