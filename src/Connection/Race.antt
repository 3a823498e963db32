-- ===== src/Connection/Race.antt =====
-- RiftNet/src/core/connection/Connection::SendPacket called by several threads at once. RiftClient
-- sends on the application's thread and updates on another, and the server's calls of a connection
-- are not all under one lock.
use rift_net.Base.{
  ℕ, ◌+◌, ◌*◌, ◌%◌, ◌<◌, ◌^◌, ◌≡◌, refl, sym, ap, ◌∙◌, true, false, List, [], ◌∷◌, ◌++◌, map,
  append-nil, append_assoc, length, is_empty, All, arith,
}
use rift_net.Base.Bytes.{le_bytes}
use rift_net.Security.Encryptor.{host_to_be64, encrypt}
use rift_net.Connection.{Platform, Connection, Output, transmit, begin_send, finish_send}

-- A step of some thread in `SendPacket`: it comes in, loads the nonce and encrypts a packet; or the
-- one that came in first of those still in goes on to its end.
pub data SendStep : Type 0 where
  loads : List ℕ → SendStep
  finishes : SendStep

module _ (platform : Platform) where
  abbrev State : Type 0
  State = Connection platform

  -- The connection with the nonce and the sealed packet that each thread inside holds.
  unfoldable pub perform_send :
      State → List (ℕ × List ℕ) → SendStep → State × List (ℕ × List ℕ) × List Output
  perform_send c held (loads packet) = (c, held ++ (begin_send platform c packet ∷ []), [])
  perform_send c [] finishes = (c, [], [])
  perform_send c ((nonce, sealed) ∷ held) finishes =
      let (c', out) = finish_send platform c nonce sealed in (c', held, out)

  unfoldable pub run_sends :
      State → List (ℕ × List ℕ) → List SendStep → State × List (ℕ × List ℕ) × List Output
  run_sends c held [] = (c, held, [])
  run_sends c held (step ∷ steps) =
      let (c1, held1, out) = perform_send c held step in
      let (c2, held2, more) = run_sends c1 held1 steps in (c2, held2, out ++ more)

  -- The frame of a packet under a nonce.
  abbrev pub frame_under : State → ℕ → List ℕ → Output
  frame_under c nonce packet =
      transmit c.endpoint
        (le_bytes 8 (host_to_be64 nonce) ++ encrypt platform.crypto c.encryptor packet nonce)

  abbrev pub Sealable : State → List ℕ → Type 0
  Sealable c packet = is_empty (encrypt platform.crypto c.encryptor packet c.tx_nonce) ≡ false

  -- The connection with another nonce to come.
  abbrev at_nonce : State → ℕ → State
  at_nonce c nonce = record c { tx_nonce = nonce }

  finish_send-sealed :
      (c : State) (nonce : ℕ) (packet : List ℕ)
      → c.has_send_callback ≡ true
      → Sealable c packet
      → finish_send platform
          (at_nonce c nonce)
          c.tx_nonce
          (encrypt platform.crypto c.encryptor packet c.tx_nonce)
        ≡ (at_nonce c ((nonce + 2) % 2 ^ 64), frame_under c c.tx_nonce packet ∷ [])
  finish_send-sealed c nonce packet set sealed = simp (sealed, set) refl

  run_sends-finishes :
      (c : State) (nonce : ℕ) (packets : List (List ℕ))
      → c.has_send_callback ≡ true
      → All (Sealable c) packets
      → nonce < 2 ^ 64
      → run_sends
          (at_nonce c nonce)
          (map (begin_send platform c) packets)
          (map (λ _. finishes) packets)
        ≡ (
          at_nonce c ((nonce + 2 * length packets) % 2 ^ 64),
          [],
          map (frame_under c c.tx_nonce) packets,
        )
  unfolding run_sends perform_send
  run_sends-finishes c nonce [] set sealed small =
      let kept : nonce ≡ (nonce + 0) % 2 ^ 64 = omega arith in ap (λ n. (at_nonce c n, [], [])) kept
  run_sends-finishes c nonce (packet ∷ packets) set (one, rest) small =
      let moved : ((nonce + 2) % 2 ^ 64 + 2 * length packets) % 2 ^ 64
          ≡ (nonce + 2 * length (packet ∷ packets)) % 2 ^ 64 =
        omega arith in
      let next = run_sends-finishes c ((nonce + 2) % 2 ^ 64) packets set rest (omega arith) in
      let first = finish_send-sealed c nonce packet set one in
      rw first (
        rw next
          (ap (λ n. (at_nonce c n, [], map (frame_under c c.tx_nonce) (packet ∷ packets))) moved))

  run_sends-loads :
      (c : State) (held : List (ℕ × List ℕ)) (packets : List (List ℕ)) (steps : List SendStep)
      → run_sends c held (map loads packets ++ steps)
        ≡ run_sends c (held ++ map (begin_send platform c) packets) steps
  unfolding run_sends perform_send
  run_sends-loads c held [] steps = ap (λ h. run_sends c h steps) (sym (append-nil held))
  run_sends-loads c held (packet ∷ packets) steps =
      run_sends-loads c (held ++ (begin_send platform c packet ∷ [])) packets steps
      ∙ ap (λ h. run_sends c h steps)
          (append_assoc held (begin_send platform c packet ∷ [])
            (map (begin_send platform c) packets))

  -- When several threads send and each loads the nonce before the first has advanced it, on a
  -- connection with a send callback whose encryptor seals their packets: every one of the packets
  -- goes out in a frame under the same nonce, and the nonce then moves on by 2 for each. With two
  -- packets or more, one nonce is used for several packets. (The nonce has 64 bits.)
  pub run_sends-same_nonce :
      (c : State) (packets : List (List ℕ))
      → c.has_send_callback ≡ true
      → All (Sealable c) packets
      → c.tx_nonce < 2 ^ 64
      → run_sends c [] (map loads packets ++ map (λ _. finishes) packets) ≡ (
        record c { tx_nonce = (c.tx_nonce + 2 * length packets) % 2 ^ 64 },
        [],
        map (frame_under c c.tx_nonce) packets,
      )
  run_sends-same_nonce c packets set sealed small =
      run_sends-loads c [] packets (map (λ _. finishes) packets)
      ∙ run_sends-finishes c c.tx_nonce packets set sealed small
