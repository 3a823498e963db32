-- ===== src/Server/Acts/Operations.antt =====
-- The operations of the server, as elementary changes.
use rift_net.Base.{
  ℕ, ltb, arith, ◌≡◌, inl, inr, refl, Bool, true, false, ◌&&◌, ◌||◌, if◌then◌else◌, Bool-cases,
  Option-cases, ◌>>=◌, Option, none, some, List, [], ◌∷◌, map, is_empty, append-nil,
}
use mathlib.Core.Path.{subst}
use rift_net.Base.Counts.{count_of}
use rift_net.Base.Dict.{Dict, number_key, lookup}
use rift_net.Connection.{
  Platform, Connection, NetworkEndpoint, Output, send_application_data, process_incoming_raw_packet,
  update, new_connection, set_send_callback, set_app_data_callback,
}
use rift_net.Connection.Emissions.{Does}
use rift_net.Connection.Emissions.Operations.{
  send_application_data-Does, process_incoming_raw_packet-Does, update-Does, DoesIfDefined,
}
use rift_net.Server.Endpoint.{endpoint_key}
use rift_net.Server.{
  Server, ServerOutput, Fresh, of_output, fresh_connection, create_connection,
  find_or_create_connection, process_on, send_to, send_to_all, broadcast, update_on, update_all,
  remove_client, raise_disconnected, disconnect_found, start, stop, send, send_found,
}
use rift_net.Server.Maps.{put}
use rift_net.Server.Acts.{Acts, Acts-append, done, used, entered, left, reported, marked, emptied}

module _ (platform : Platform) (heard : NetworkEndpoint → Type 0) where
  abbrev pub State : Type 0
  State = Server platform

  -- One use of a connection object.
  one_use :
      (s : State) (pointer : ℕ) (old new : Connection platform) (out : List Output)
      → lookup pointer s.objects ≡ some old
      → Does platform old out new
      → Acts platform heard s (map (of_output pointer) out) (put s pointer new)
  one_use s pointer old new out held does =
      subst (λ events. Acts platform heard s events (put s pointer new))
        (append-nil (map (of_output pointer) out)) (used pointer old new out held does done)

  if-Acts :
      (s : State) (t : Bool) (x y : State × List ServerOutput)
      → (t ≡ true → Acts platform heard s x.1 x.0)
      → (t ≡ false → Acts platform heard s y.1 y.0)
      → Acts platform heard s (if t then x else y).1 (if t then x else y).0
  if-Acts s true x y dx dy = dx refl
  if-Acts s false x y dx dy = dy refl

  pub start-Acts :
      (s : State) (init_succeeds start_succeeds : Bool)
      → Acts platform heard s [] (start platform s init_succeeds start_succeeds).0
  unfolding start
  start-Acts s init_succeeds start_succeeds =
      elim (Bool-cases (s.is_running || s.has_update_thread)) [
        | inl busy ↦ simp busy done
        | inr idle ↦ elim (Bool-cases init_succeeds) [
          | inr failed ↦ simp (idle, failed) done
          | inl ready ↦ elim (Bool-cases start_succeeds) [
            | inr failed ↦ simp (idle, ready, failed) done
            | inl started ↦ simp (idle, ready, started) (marked true true done)
          ]
        ]
      ]

  pub stop-Acts :
      (s : State) (self_call : Bool) → Acts platform heard s [] (stop platform s self_call)
  unfolding stop
  stop-Acts s self_call = marked false (s.has_update_thread && self_call) (emptied done)

  pub find-Acts :
      (s : State) (endpoint : NetworkEndpoint) (w : Fresh platform)
      → heard endpoint
      → let after = find_or_create_connection platform s endpoint w in
        Acts platform heard s after.2 after.0
  unfolding find_or_create_connection create_connection new_connection set_send_callback
      set_app_data_callback
  find-Acts s endpoint w from = elim (Option-cases (lookup endpoint s.clients_by_endpoint)) [
    | inr (pointer, e) ↦ rw (e, find_or_create_connection) done
    | inl free ↦
        rw (free, find_or_create_connection)
          (entered (fresh_connection platform endpoint w) from free done)
  ]

  pub send_to-Acts :
      (s : State) (pointer : ℕ) (bytes : List ℕ) (reliable : Bool) (now : ℕ)
      → let after = send_to platform s pointer bytes reliable now in
        Acts platform heard s after.1 after.0
  unfolding send_to
  send_to-Acts s pointer bytes reliable now = elim (Option-cases (lookup pointer s.objects)) [
    | inl e ↦ rw (e, send_to) done
    | inr (c, e) ↦
        let after = send_application_data platform c bytes reliable now in
        rw (e, send_to)
          (one_use s pointer c after.0 after.1 e
            (send_application_data-Does platform c bytes reliable now))
  ]

  pub send-Acts :
      (s : State) (id : ℕ) (bytes : Option (List ℕ)) (reliable : Bool) (now : ℕ)
      → let after = send platform s id bytes reliable now in Acts platform heard s after.2 after.0
  unfolding send send_found
  send-Acts s id none reliable now = done
  send-Acts s id (some bytes) reliable now = elim (Bool-cases (is_empty bytes)) [
    | inl e ↦ simp e done
    | inr n ↦ elim (Option-cases (lookup id s.clients_by_id)) [
      | inl e ↦ simp (n, e) done
      | inr (pointer, e) ↦ simp (n, e) (send_to-Acts s pointer bytes reliable now)
    ]
  ]

  send_to_all-Acts :
      (s : State) (clients : Dict ℕ ℕ) (bytes : List ℕ) (reliable : Bool) (now : ℕ)
      → let after = send_to_all platform s clients bytes reliable now in
        Acts platform heard s after.1 after.0
  unfolding send_to_all
  send_to_all-Acts s [] bytes reliable now = done
  send_to_all-Acts s ((id, pointer) ∷ clients) bytes reliable now =
      Acts-append (send_to-Acts s pointer bytes reliable now) (
        send_to_all-Acts (send_to platform s pointer bytes reliable now).0 clients bytes reliable
          now)

  pub broadcast-Acts :
      (s : State) (bytes : Option (List ℕ)) (reliable : Bool) (now : ℕ)
      → let after = broadcast platform s bytes reliable now in Acts platform heard s after.1 after.0
  unfolding broadcast
  broadcast-Acts s none reliable now = done
  broadcast-Acts s (some bytes) reliable now =
      if-Acts s (is_empty bytes) _ _ (λ e. done)
        (λ n. send_to_all-Acts s s.clients_by_id bytes reliable now)

  update_on-Acts :
      (s : State) (pointer now : ℕ)
      → let after = update_on platform s pointer now in Acts platform heard s after.2 after.0
  unfolding update_on
  update_on-Acts s pointer now = elim (Option-cases (lookup pointer s.objects)) [
    | inl e ↦ rw (e, update_on) done
    | inr (c, e) ↦
        let after = update platform c now in
        rw (e, update_on) (one_use s pointer c after.0 after.1 e (update-Does platform c now))
  ]

  pub update_all-Acts :
      (s : State) (clients : Dict ℕ ℕ) (now : ℕ)
      → let after = update_all platform s clients now in Acts platform heard s after.2 after.0
  unfolding update_all
  update_all-Acts s [] now = done
  update_all-Acts s ((id, pointer) ∷ clients) now =
      Acts-append (update_on-Acts s pointer now)
        (update_all-Acts (update_on platform s pointer now).0 clients now)

  pub remove_client-Acts :
      (s : State) (id : ℕ) → Acts platform heard s [] (remove_client platform s id).0
  unfolding remove_client disconnect_found
  remove_client-Acts s id = elim (Option-cases (lookup id s.clients_by_id)) [
    | inl e ↦ simp e done
    | inr (pointer, e) ↦ elim (Option-cases (lookup pointer s.objects)) [
      | inl none_held ↦ simp e (rw (none_held, disconnect_found) done)
      | inr (c, held) ↦ simp e (rw (held, disconnect_found) (left id pointer c e held done))
    ]
  ]

  pub raise_disconnected-Acts :
      (s : State) (id : ℕ)
      → let after = raise_disconnected platform s id in Acts platform heard s after.1 after.0
  unfolding raise_disconnected
  raise_disconnected-Acts s id =
      if-Acts s (ltb 0 (count_of id s.leaving)) _ _ (λ e. reported id (ground arith) done)
        (λ e. done)

  -- The same of a result that may be undefined behaviour.
  abbrev pub ActsIfDefined : State → Option (State × List ServerOutput) → Type 0
  ActsIfDefined s none = Unit
  ActsIfDefined s (some (s', out)) = Acts platform heard s out s'

  process_found-Acts :
      (s : State) (pointer : ℕ) (c : Connection platform)
      (result : Option (Connection platform × List Output))
      → lookup pointer s.objects ≡ some c
      → DoesIfDefined platform c result
      → ActsIfDefined s
          (result >>= λ (c', out). some (put s pointer c', map (of_output pointer) out))
  process_found-Acts s pointer c none e does = tt
  process_found-Acts s pointer c (some (c', out)) e does = one_use s pointer c c' out e does

  pub process_on-Acts :
      (s : State) (pointer : ℕ) (bytes : List ℕ) (now : ℕ)
      → ActsIfDefined s (process_on platform s pointer bytes now)
  unfolding process_on
  process_on-Acts s pointer bytes now = elim (Option-cases (lookup pointer s.objects)) [
    | inl e ↦ rw (e, process_on) done
    | inr (c, e) ↦
        rw (e, process_on)
          (process_found-Acts s pointer c (process_incoming_raw_packet platform c bytes now) e
            (process_incoming_raw_packet-Does platform c bytes now))
  ]
