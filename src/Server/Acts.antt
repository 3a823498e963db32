-- ===== src/Server/Acts.antt =====
-- The elementary changes of the server's state, of which all its operations consist.
pub mod Operations
use rift_net.Base.{
  ℕ, ◌+◌, ◌<◌, ◌^◌, ◌≡◌, inl, inr, refl, sym, Bool, true, false, not, if◌then◌else◌, Bool-cases,
  Option-cases, ◌>>=◌, Option, none, some, List, [], ◌∷◌, ◌++◌, map, is_empty, append_assoc, length,
  arith,
}
use mathlib.Core.Path.{subst}
use rift_net.Base.Counts.{count_of, remove}
use rift_net.Base.Dict.{Dict, number_key, lookup}
use rift_net.Connection.{
  Platform, Connection, NetworkEndpoint, Output, send_application_data, process_incoming_raw_packet,
  update,
}
use rift_net.Connection.Emissions.{Does}
use rift_net.Server.Endpoint.{endpoint_key}
use rift_net.Server.{Server, ServerOutput, of_output}
use rift_net.Server.Maps.{put}
use rift_net.Server.Maps.Change.{enter, leave}

-- From one state to another with the given calls of the callback and of `SendData`: connection
-- objects are used, new clients whose
-- endpoints are heard of enter the maps, clients leave them and are reported, and `Stop` empties them.
pub data Acts (platform : Platform) (heard : NetworkEndpoint → Type 0)
    : Server platform → List ServerOutput → Server platform → Type 0 where
  done : {s : Server platform} → Acts platform heard s [] s
  used :
      {s s' : Server platform} {more : List ServerOutput} (pointer : ℕ)
      (old new : Connection platform) (out : List Output)
      → lookup pointer s.objects ≡ some old
      → Does platform old out new
      → Acts platform heard (put s pointer new) more s'
      → Acts platform heard s (map (of_output pointer) out ++ more) s'
  entered :
      {s s' : Server platform} {more : List ServerOutput} (c : Connection platform)
      → heard c.endpoint
      → lookup c.endpoint s.clients_by_endpoint ≡ none
      → Acts platform heard (enter s c.endpoint c) more s'
      → Acts platform heard s (ServerOutput.client_connected s.next_client_id ∷ more) s'
  left :
      {s s' : Server platform} {more : List ServerOutput} (id pointer : ℕ) (c : Connection platform)
      → lookup id s.clients_by_id ≡ some pointer
      → lookup pointer s.objects ≡ some c
      → Acts platform heard (leave s id c.endpoint) more s'
      → Acts platform heard s more s'
  reported :
      {s s' : Server platform} {more : List ServerOutput} (id : ℕ)
      → 0 < count_of id s.leaving
      → Acts platform heard (record s { leaving = remove id s.leaving }) more s'
      → Acts platform heard s (ServerOutput.client_disconnected id ∷ more) s'
  marked :
      {s s' : Server platform} {more : List ServerOutput} (running thread : Bool)
      → Acts platform heard (record s { is_running = running; has_update_thread = thread }) more s'
      → Acts platform heard s more s'
  emptied :
      {s s' : Server platform} {more : List ServerOutput}
      → Acts platform heard (record s { clients_by_id = []; clients_by_endpoint = [] }) more s'
      → Acts platform heard s more s'

pub Acts-append :
    {platform : Platform} {heard : NetworkEndpoint → Type 0} {s1 s2 s3 : Server platform}
    {out more : List ServerOutput}
    → Acts platform heard s1 out s2
    → Acts platform heard s2 more s3
    → Acts platform heard s1 (out ++ more) s3
Acts-append done next = next
Acts-append {platform = platform} {heard = heard} {s1 = s1} {s3 = s3} {more = more}
      (used {more = between} pointer old new out held does rest) next =
    subst (λ events. Acts platform heard s1 events s3)
      (sym (append_assoc (map (of_output pointer) out) between more))
      (used pointer old new out held does (Acts-append rest next))
Acts-append (entered c from free rest) next = entered c from free (Acts-append rest next)
Acts-append (left id pointer c registered held rest) next =
    left id pointer c registered held (Acts-append rest next)
Acts-append (reported id among rest) next = reported id among (Acts-append rest next)
Acts-append (marked running thread rest) next = marked running thread (Acts-append rest next)
Acts-append (emptied rest) next = emptied (Acts-append rest next)
