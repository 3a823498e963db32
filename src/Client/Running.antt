-- ===== src/Client/Running.antt =====
-- A client that runs has a connection and an update thread.
use mathlib.Core.Option.{some-injective}
use mathlib.Core.Path.{subst}
use rift_net.Base.{
  ℕ, ◌≡◌, refl, Bool, true, false, not, ◌||◌, if◌then◌else◌, >>=-eq-some, Option, none, some, List,
  [], ◌∷◌, is_empty, arith, Bool-cases, inl, inr,
}
use rift_net.Connection.{Platform, Connection, process_incoming_raw_packet, update, is_timed_out}
use rift_net.Client.{
  keep_alive, Client, ClientOutput, Surroundings, new_client, connect, disconnect, send, send_on,
  on_raw_data_received, receive_on, update_client, tick_on, ClientCall, call_client, prepend_client,
  run_client, connect_to, disconnect_from, send_bytes, raw_data, round,
}

module _ (platform : Platform) where
  -- Whenever the client runs, it has a connection and a thread.
  pub record IsReady (c : Client platform) : Type 0 where
    pub connection : Connection platform
    pub connected : c.server_connection ≡ some connection
    pub threaded : c.has_update_thread ≡ true

  abbrev Sound : Client platform → Type 0
  Sound c = c.is_running ≡ true → IsReady c

  if-Sound :
      {A : Type 0} (t : Bool) (x y : Client platform × A)
      → (t ≡ false → Sound x.0 → Sound y.0)
      → Sound x.0
      → Sound (if t then x else y).0
  if-Sound true x y dy dx = dx
  if-Sound false x y dy dx = dy refl dx

  connect-Sound :
      (c : Client platform) (host : Option (List ℕ)) (port : ℕ) (w : Surroundings platform)
      (now : ℕ)
      → Sound c
      → Sound (connect platform c host port w now).0
  unfolding connect
  connect-Sound c none port w now v = v
  connect-Sound c (some host) port w now v =
      elim (Bool-cases (c.is_running || c.has_update_thread)) [
        | inl busy ↦ simp busy v
        | inr idle ↦ elim (Bool-cases w.init_succeeds) [
          | inr no_socket ↦ simp (idle, no_socket) v
          | inl bound ↦ elim (Bool-cases w.start_succeeds) [
            | inr no_start ↦
                simp (idle, bound, no_start) (λ running. absurd (ground (arith, idle, running)))
            | inl started ↦
                simp (idle, bound, started)
                  (λ running. record { connection = _; connected = refl; threaded = refl })
          ]
        ]
      ]

  send-Sound :
      (c : Client platform) (bytes : Option (List ℕ)) (reliable : Bool) (now : ℕ)
      → Sound c
      → Sound (send platform c bytes reliable now).0
  unfolding send send_on
  send-Sound c none reliable now v = v
  send-Sound c (some bytes) reliable now v = elim (Bool-cases (is_empty bytes)) [
    | inl none_given ↦ simp none_given v
    | inr given ↦ elim (Bool-cases c.is_running) [
      | inr idle ↦ simp (given, idle) (λ running. cc running)
      | inl running ↦ simp (given, running) (on c.server_connection)
    ]
  ]
    where
      on : (o : Option (Connection platform)) → Sound (send_on platform c o bytes reliable now).0
      on none = v
      on (some connection) =
          λ running. record { connection = _; connected = refl; threaded = (v running).threaded }

  if-Keeps :
      (c : Client platform) (t : Bool) (x y : Option (Client platform × List ClientOutput))
      (r : Client platform × List ClientOutput)
      → (x ≡ some r → Sound r.0)
      → (y ≡ some r → Sound r.0)
      → (if t then x else y) ≡ some r
      → Sound r.0
  if-Keeps c true x y r dx dy h = dx h
  if-Keeps c false x y r dx dy h = dy h

  on_raw_data_received-Sound :
      (c : Client platform) (bytes : List ℕ) (now : ℕ) (r : Client platform × List ClientOutput)
      → on_raw_data_received platform c bytes now ≡ some r
      → Sound c
      → Sound r.0
  unfolding on_raw_data_received receive_on
  on_raw_data_received-Sound c bytes now r h v =
      if-Keeps c (not c.is_running) _ _ r
        (λ e.
          subst (λ (r : Client platform × List ClientOutput). Sound r.0) (some-injective _ _ e) v)
        (on c.server_connection) h
    where
      on :
          (o : Option (Connection platform))
          → receive_on platform c o bytes now ≡ some r
          → Sound r.0
      on none e =
          subst (λ (r : Client platform × List ClientOutput). Sound r.0) (some-injective _ _ e) v
      on (some connection) e =
          let ((connection', out), did, result) =
            >>=-eq-some (process_incoming_raw_packet platform connection bytes now) _ e in
          subst (λ (r : Client platform × List ClientOutput). Sound r.0) (some-injective _ _ result)
            (λ running. record {
              connection = connection';
              connected = refl;
              threaded = (v running).threaded;
            })

  update_client-Sound :
      (c : Client platform) (now : ℕ) → Sound c → Sound (update_client platform c now).0
  unfolding update_client tick_on
  update_client-Sound c now v =
      if-Sound {A = List ClientOutput} (not c.is_running) _ _ (λ _ _. on c.server_connection) v
    where
      on : (o : Option (Connection platform)) → Sound (tick_on platform c o now).0
      on none = v
      on (some connection) =
          let kept = (keep_alive platform c (update platform connection now).0 now).0 in
          elim (Bool-cases (is_timed_out platform kept now 30)) [
            | inl idle ↦ simp idle (λ running. cc running)
            | inr active ↦ simp active (λ running. record {
              connection = kept;
              connected = refl;
              threaded = (v running).threaded;
            })
          ]

  call_client-Sound :
      (c : Client platform) (call : ClientCall platform) (now : ℕ)
      (r : Client platform × List ClientOutput)
      → call_client platform c call now ≡ some r
      → Sound c
      → Sound r.0
  unfolding call_client disconnect
  call_client-Sound c (connect_to host port w) now r h v =
      subst (λ (r : Client platform × List ClientOutput). Sound r.0) (some-injective _ _ h)
        (connect-Sound c host port w now v)
  call_client-Sound c (disconnect_from self_call) now r h v =
      subst (λ (r : Client platform × List ClientOutput). Sound r.0) (some-injective _ _ h)
        (λ running. cc running)
  call_client-Sound c (send_bytes bytes reliable) now r h v =
      subst (λ (r : Client platform × List ClientOutput). Sound r.0) (some-injective _ _ h)
        (send-Sound c bytes reliable now v)
  call_client-Sound c (raw_data bytes) now r h v = on_raw_data_received-Sound c bytes now r h v
  call_client-Sound c round now r h v =
      subst (λ (r : Client platform × List ClientOutput). Sound r.0) (some-injective _ _ h)
        (update_client-Sound c now v)

  prepend-Sound :
      (out : List ClientOutput) (o : Option (Client platform × List ClientOutput))
      (r : Client platform × List ClientOutput)
      → ((r' : Client platform × List ClientOutput) → o ≡ some r' → Sound r'.0)
      → prepend_client platform out o ≡ some r
      → Sound r.0
  unfolding prepend_client
  prepend-Sound out none r rest h = cc h
  prepend-Sound out (some r') r rest h =
      subst (λ (r : Client platform × List ClientOutput). Sound r.0) (some-injective _ _ h)
        (rest r' refl)

  run_client-Sound :
      (calls : List (ClientCall platform × ℕ)) (c : Client platform)
      (r : Client platform × List ClientOutput)
      → run_client platform c calls ≡ some r
      → Sound c
      → Sound r.0
  unfolding run_client
  run_client-Sound [] c r h v =
      subst (λ (r : Client platform × List ClientOutput). Sound r.0) (some-injective _ _ h) v
  run_client-Sound ((call, now) ∷ calls) c r h v =
      let ((c1, out), did, later) = >>=-eq-some (call_client platform c call now) _ h in
      prepend-Sound out (run_client platform c1 calls) r
        (λ r' e. run_client-Sound calls c1 r' e (call_client-Sound c call now (c1, out) did v))
        later

  -- After any sequence of calls of a new client, if it runs, then it has a connection, and its
  -- update thread has been started and not joined: the null checks of the methods never decide while
  -- it runs.
  pub run_client-IsReady :
      (calls : List (ClientCall platform × ℕ)) (c : Client platform) (out : List ClientOutput)
      → run_client platform (new_client platform) calls ≡ some (c, out)
      → c.is_running ≡ true
      → IsReady c
  unfolding new_client
  run_client-IsReady calls c out h =
      run_client-Sound calls (new_client platform) (c, out) h (λ running. cc running)
