-- ===== src/Server/Timeouts.antt =====
-- A round of `Update`: who is disconnected.
use rift_net.Base.{ℕ, Bool, false, ◌||◌, ◌==◌, List, [], ◌∷◌}
use rift_net.Base.Dict.{Dict, number_key}
use rift_net.Connection.{Platform, Connection, update, is_timed_out}
use rift_net.Server.{Server, idle_timeout}
use rift_net.Server.Endpoint.{endpoint_key}

-- Whether an id is in a list.
abbrev has : ℕ → List ℕ → Bool
has j [] = false
has j (i ∷ ids) = j == i || has j ids

module _ (platform : Platform) where
  abbrev State : Type 0
  State = Server platform

  -- Whether a connection times out, once updated.
  unfoldable pub times_out : Connection platform → ℕ → Bool
  times_out c now = is_timed_out platform (update platform c now).0 now (idle_timeout platform)

  -- When the connection last took in a packet, in nanoseconds.
  abbrev pub heard_at : Connection platform → ℕ
  heard_at c = c.reliability.last_packet_received_time
