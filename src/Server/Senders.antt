-- ===== src/Server/Senders.antt =====
-- Where the server sends.
use mathlib.Core.Path.{subst}
use rift_net.Base.{
  ℕ, ◌≡◌, inl, inr, sym, ◌∙◌, Bool, ◌==◌, Bool-cases, some, List, [], ◌∷◌, ◌++◌, map, arith, All,
}
use rift_net.Base.Dict.{number_key, lookup, insert, lookup-insert_ne, lookup-insert}
use rift_net.Connection.{Platform, Connection, NetworkEndpoint, Output}
use rift_net.Security.Encryptor.{Encryptor}
use rift_net.Connection.Emissions.{Emits, done, handed, silent, rekeyed, hello, frame, unsent}
use rift_net.Server.{
  Server, ServerOutput, of_output, new_server, client_connected, client_disconnected,
  packet_received, send_data,
}
use rift_net.Server.Acts.{Acts, used, entered, left, reported, marked, emptied}
use rift_net.Server.Calls.{ServerCall, Heard, run_calls, run_calls-Acts}

-- The endpoints that datagrams are handed to the network layer for.
abbrev pub destinations : List ServerOutput → List NetworkEndpoint
destinations [] = []
destinations (client_connected id ∷ events) = destinations events
destinations (client_disconnected id ∷ events) = destinations events
destinations (packet_received id payload ∷ events) = destinations events
destinations (send_data endpoint bytes ∷ events) = endpoint ∷ destinations events

-- One connection sends to its own peer.
pub Emits-destinations :
    {platform : Platform} {endpoint : NetworkEndpoint}
    {e1 e2 : Encryptor platform.crypto.KeyPair platform.crypto.Cipher} {b1 b2 : Bool} {n1 n2 : ℕ}
    {out : List Output} {nonces : List ℕ} (P : NetworkEndpoint → Type 0) (id : ℕ)
    (more : List ServerOutput)
    → Emits platform endpoint e1 b1 n1 out nonces e2 b2 n2
    → P endpoint
    → All P (destinations more)
    → All P (destinations (map (of_output id) out ++ more))
Emits-destinations P id more done p rest = rest
Emits-destinations P id more (handed payload next) p rest = Emits-destinations P id more next p rest
Emits-destinations P id more (silent next) p rest = Emits-destinations P id more next p rest
Emits-destinations P id more (rekeyed remote next) p rest = Emits-destinations P id more next p rest
Emits-destinations P id more (hello new size next) p rest =
    (p, Emits-destinations P id more next p rest)
Emits-destinations P id more (frame packet sealed next) p rest =
    (p, Emits-destinations P id more next p rest)
Emits-destinations P id more (unsent next) p rest = Emits-destinations P id more next p rest

module _ {platform : Platform} (heard : NetworkEndpoint → Type 0) where
  -- Every connection object is one of an endpoint that was heard of.
  abbrev Known : Server platform → Type 0
  Known s =
      (pointer : ℕ) (c : Connection platform) → lookup pointer s.objects ≡ some c → heard c.endpoint

  insert-Known :
      (s : Server platform) (pointer : ℕ) (new : Connection platform)
      → heard new.endpoint
      → Known s
      → (p : ℕ) (c : Connection platform) → lookup p (insert pointer new s.objects) ≡ some c
      → heard c.endpoint
  insert-Known s pointer new from v p c e = elim (Bool-cases (p == pointer)) [
    | inl at ↦
        let same : c ≡ new = ground (arith, lookup-insert pointer p new s.objects) in
        subst (λ c. heard c.endpoint) (sym same) from
    | inr n ↦ v p c (sym (lookup-insert_ne pointer p new s.objects (ground arith)) ∙ e)
  ]

  Acts-destinations :
      {s s' : Server platform} {out : List ServerOutput}
      → Acts platform heard s out s'
      → Known s
      → All heard (destinations out)
  Acts-destinations Acts.done v = tt
  Acts-destinations {s = s} (used {more = more} pointer old new out held does rest) v =
      let (same, nonces, emits) = does in
      let from = v pointer old held in
      let after = subst heard (sym same) from in
      Emits-destinations heard pointer more emits from
        (Acts-destinations rest (insert-Known s pointer new after v))
  Acts-destinations {s = s} (entered c from free rest) v =
      Acts-destinations rest (insert-Known s s.next_client_id c from v)
  Acts-destinations (left id pointer c registered held rest) v = Acts-destinations rest v
  Acts-destinations (reported id among rest) v = Acts-destinations rest v
  Acts-destinations (marked running thread rest) v = Acts-destinations rest v
  Acts-destinations (emptied rest) v = Acts-destinations rest v

-- Whatever calls are made of a new server, in whatever order, every datagram that it hands to the
-- network layer is for an endpoint from which a datagram came: any property of endpoints that
-- those of the calls of `FindOrCreateConnection` have, the destinations have.
pub run_calls-destinations :
    (platform : Platform) (heard : NetworkEndpoint → Type 0) (s' : Server platform)
    (calls : List (ServerCall platform)) (out : List ServerOutput)
    → All (Heard platform heard) calls
    → run_calls platform (new_server platform) calls ≡ some (s', out)
    → All heard (destinations out)
unfolding new_server lookup
run_calls-destinations platform heard s' calls out from h =
    Acts-destinations heard
      (run_calls-Acts platform heard (new_server platform) s' calls out from h)
      (λ pointer c e. cc e)
