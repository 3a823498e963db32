-- ===== src/Client/Connecting.antt =====
-- What a successful `Connect` does.
use rift_net.Base.{ℕ, ◌≡◌, refl, ap, Bool, true, false, some, List, [], ◌∷◌, map, length}
use rift_net.Connection.{
  Platform, Connection, NetworkEndpoint, Output, transmit, new_connection, set_send_callback,
  set_app_data_callback, send_application_data, queue_application_data,
}
use rift_net.Connection.Establish.{begin_handshake_first, public_key_new}
use rift_net.Security.Encryptor.{new_encryptor}
use rift_net.Security.Handshake.{build_hello}
use rift_net.Client.{
  Client, ClientOutput, Surroundings, RiftResult, connect, primer, of_output, with_callbacks,
}

module _ (platform : Platform) where
  abbrev fresh : NetworkEndpoint → platform.crypto.KeyPair → Bool → ℕ → Connection platform
  fresh endpoint keys ready now =
      with_callbacks platform (new_connection platform endpoint false (some keys) ready now)

  pub primer_queued :
      (endpoint : NetworkEndpoint) (keys : platform.crypto.KeyPair) (ready : Bool) (now : ℕ)
      → length (platform.crypto.get_public_key keys) ≡ 32
      → (send_application_data platform (fresh endpoint keys ready now) primer true now).1
        ≡ transmit endpoint (build_hello (platform.crypto.get_public_key keys)) ∷ []
  unfolding send_application_data queue_application_data new_connection set_send_callback
      set_app_data_callback new_encryptor
  primer_queued endpoint keys ready now size =
      ap (λ r. r.1)
        (begin_handshake_first platform (fresh endpoint keys ready now)
          (platform.crypto.get_public_key keys) refl refl (public_key_new platform keys false) size)

  -- A client that is neither running nor still has an update thread connects if the network layer
  -- starts: it then runs with its thread, reports `connected`, and sends the server exactly one
  -- datagram, the HELLO of its 32-byte public key. (The five bytes that prime the reliable
  -- path wait for the channel.)
  pub connect-success :
      (c : Client platform) (host : List ℕ) (port : ℕ) (w : Surroundings platform) (now : ℕ)
      (keys : platform.crypto.KeyPair)
      → c.is_running ≡ false
      → c.has_update_thread ≡ false
      → w.init_succeeds ≡ true
      → w.start_succeeds ≡ true
      → w.generated ≡ some keys
      → length (platform.crypto.get_public_key keys) ≡ 32
      → let (c', result, out) = connect platform c (some host) port w now in
        (result ≡ RiftResult.success)
        × (c'.is_running ≡ true)
        × (c'.has_update_thread ≡ true)
        × (out
            ≡ ClientOutput.client_connected
              ∷ ClientOutput.send_data
                  (record { ip_address = host; port = port })
                  (build_hello (platform.crypto.get_public_key keys))
              ∷ [])
  unfolding connect
  connect-success c host port w now keys idle no_thread bound started generated size =
      let endpoint : NetworkEndpoint = record { ip_address = host; port = port } in
      simp (idle, no_thread, bound, started, generated)
        (
          refl,
          refl,
          refl,
          ap (λ (out : List Output). ClientOutput.client_connected ∷ map of_output out)
              (primer_queued endpoint keys w.compressor_ready now size),
        )
