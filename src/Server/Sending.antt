-- ===== src/Server/Sending.antt =====
-- `Send` and `Broadcast`.
use rift_net.Base.{
  ℕ, ◌≡◌, ◌⊎◌, inl, inr, refl, sym, ap, ◌∙◌, Bool, true, false, not, Bool-cases, Option-cases,
  Option, none, some, List, [], ◌∷◌, ◌++◌, map, is_empty, append-nil, arith, All, All-map,
}
use mathlib.Core.Path.{subst}
use rift_net.Base.Dict.{Dict, number_key, lookup, IsDict, IsDict-lookup}
use rift_net.Client.{success, error_invalid_parameter}
use rift_net.Connection.{Platform, Connection, NetworkEndpoint, send_application_data}
use rift_net.Connection.Emissions.Operations.{send_application_data-Does}
use rift_net.Server.Endpoint.{endpoint_key}
use rift_net.Server.{
  Server, ServerOutput, of_output, send, send_found, send_to, send_to_all, broadcast,
}
use rift_net.Server.Maps.{Registered, Sound}
use rift_net.Server.Senders.{destinations, Emits-destinations}

-- The ids of the clients, in the order of the map.
abbrev pub keys : Dict ℕ ℕ → List ℕ
keys [] = []
keys ((id, pointer) ∷ clients) = id ∷ keys clients

-- Whether there is something to send.
abbrev pub holds_bytes : Option (List ℕ) → Bool
holds_bytes none = false
holds_bytes (some bytes) = not (is_empty bytes)

module _ (platform : Platform) where
  abbrev State : Type 0
  State = Server platform

  -- What `Broadcast` is to do: a `Send` to each client in turn.
  unfoldable pub send_each : State → List ℕ → Option (List ℕ) → Bool → ℕ → State × List ServerOutput
  send_each s [] bytes reliable now = (s, [])
  send_each s (id ∷ ids) bytes reliable now =
      let (s1, _, out) = send platform s id bytes reliable now in
      let (s2, more) = send_each s1 ids bytes reliable now in (s2, out ++ more)

  send_each_nothing :
      (s : State) (ids : List ℕ) (bytes : Option (List ℕ)) (reliable : Bool) (now : ℕ)
      → holds_bytes bytes ≡ false
      → send_each s ids bytes reliable now ≡ (s, [])
  unfolding send_each send
  send_each_nothing s [] bytes reliable now h = refl
  send_each_nothing s (id ∷ ids) none reliable now h = send_each_nothing s ids none reliable now h
  send_each_nothing s (id ∷ ids) (some bytes) reliable now h =
      let e : is_empty bytes ≡ true = ground arith in
      simp e (send_each_nothing s ids (some bytes) reliable now h)

  send_to-clients :
      (s : State) (pointer : ℕ) (bytes : List ℕ) (reliable : Bool) (now : ℕ)
      → (send_to platform s pointer bytes reliable now).0.clients_by_id ≡ s.clients_by_id
  unfolding send_to
  send_to-clients s pointer bytes reliable now = elim (Option-cases (lookup pointer s.objects)) [
    | inl e ↦ rw (e, send_to) refl
    | inr (c, e) ↦ rw (e, send_to) refl
  ]

  send_known :
      (s : State) (id pointer : ℕ) (bytes : List ℕ) (reliable : Bool) (now : ℕ)
      → lookup id s.clients_by_id ≡ some pointer
      → is_empty bytes ≡ false
      → let after = send_to platform s pointer bytes reliable now in
        send platform s id (some bytes) reliable now ≡ (after.0, success, after.1)
  unfolding send send_found
  send_known s id pointer bytes reliable now h n = simp (n, h) refl

  send_to_all-send_each :
      (s : State) (clients : Dict ℕ ℕ) (bytes : List ℕ) (reliable : Bool) (now : ℕ)
      → is_empty bytes ≡ false
      → All (λ (id, pointer). lookup id s.clients_by_id ≡ some pointer) clients
      → send_to_all platform s clients bytes reliable now
        ≡ send_each s (keys clients) (some bytes) reliable now
  unfolding send_to_all send_each
  send_to_all-send_each s [] bytes reliable now n h = refl
  send_to_all-send_each s ((id, pointer) ∷ clients) bytes reliable now n (found, h) =
      let after = send_to platform s pointer bytes reliable now in
      let same = send_to-clients s pointer bytes reliable now in
      let rest =
        send_to_all-send_each after.0 clients bytes reliable now n
          (All-map clients (λ (j, p) e. ap (lookup j) same ∙ e) h) in
      simp (send_known s id pointer bytes reliable now found n)
        (ap (λ r. (r.0, after.1 ++ r.1)) rest)

  -- `Broadcast` is a `Send` to each client, in the order of the map, whatever the data is: with no
  -- data nothing happens. (In the map, no id stands twice.)
  pub broadcast-send_each :
      (s : State) (bytes : Option (List ℕ)) (reliable : Bool) (now : ℕ)
      → IsDict s.clients_by_id
      → broadcast platform s bytes reliable now
        ≡ send_each s (keys s.clients_by_id) bytes reliable now
  unfolding broadcast
  broadcast-send_each s none reliable now h =
      sym (send_each_nothing s (keys s.clients_by_id) none reliable now refl)
  broadcast-send_each s (some bytes) reliable now h = elim (Bool-cases (is_empty bytes)) [
    | inl e ↦
        simp e (
          sym (send_each_nothing s (keys s.clients_by_id) (some bytes) reliable now (ground arith)))
    | inr n ↦ simp n (
        send_to_all-send_each s s.clients_by_id bytes reliable now n
          (IsDict-lookup s.clients_by_id h))
  ]

  send_to-destinations :
      (s : State) (pointer : ℕ) (c : Connection platform) (bytes : List ℕ) (reliable : Bool)
      (now : ℕ)
      → lookup pointer s.objects ≡ some c
      → All
          (λ endpoint. endpoint ≡ c.endpoint)
          (destinations (send_to platform s pointer bytes reliable now).1)
  unfolding send_to
  send_to-destinations s pointer c bytes reliable now e =
      let out = (send_application_data platform c bytes reliable now).1 in
      let (_, _, emits) = send_application_data-Does platform c bytes reliable now in
      let own : NetworkEndpoint → Type 0 = λ endpoint. endpoint ≡ c.endpoint in
      rw (e, send_to)
        (subst (λ events. All own (destinations events)) (append-nil (map (of_output pointer) out))
          (Emits-destinations own pointer [] emits refl tt))

  -- `Send` succeeds exactly if there is data and the id is that of a connected client, with a
  -- connection of its own; it then sends to that client's endpoint only. Else it is refused as an
  -- invalid parameter, and does nothing. (The maps agree.)
  pub send_lem :
      (s : State) (id : ℕ) (bytes : Option (List ℕ)) (reliable : Bool) (now : ℕ)
      → Sound s
      → let (s', result, out) = send platform s id bytes reliable now in
        ((holds_bytes bytes ≡ true)
          × (c : Connection platform) × Registered s id c
          × (result ≡ success)
          × All (λ endpoint. endpoint ≡ c.endpoint) (destinations out))
        ⊎ (((holds_bytes bytes ≡ false) ⊎ (lookup id s.clients_by_id ≡ none))
            × (result ≡ error_invalid_parameter)
            × (s' ≡ s)
            × (out ≡ []))
  unfolding send send_found
  send_lem s id none reliable now v = inr (inl refl, refl, refl, refl)
  send_lem s id (some bytes) reliable now v = elim (Bool-cases (is_empty bytes)) [
    | inl e ↦ simp e (inr (inl refl, refl, refl, refl))
    | inr n ↦ elim (Option-cases (lookup id s.clients_by_id)) [
      | inl e ↦ simp (n, e) (inr (inr refl, refl, refl, refl))
      | inr (pointer, e) ↦
          let (is_id, c, r) = v.of_id id pointer e in
          let held : lookup pointer s.objects ≡ some c =
            ap (λ p. lookup p s.objects) is_id ∙ r.object in
          simp (n, e)
            (inl (refl, c, r, refl, send_to-destinations s pointer c bytes reliable now held))
    ]
  ]
