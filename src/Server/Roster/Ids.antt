-- ===== src/Server/Roster/Ids.antt =====
-- What follows from the specification of the events, whatever obeys it.
use mathlib.Core.HLevel.{⊥_prop}
use mathlib.Core.Logic.Or
use mathlib.Core.List.{Mem, Nodup, Nodup-cons, Nodup-nil, not-mem-nil, mem-cons}
use mathlib.Core.Option.{some-injective}
use rift_net.Base.{
  ap₂, ◌^◌, ℕ, zero, suc, ◌+◌, ◌<◌, ◌≡◌, ap, refl, ◌∙◌, Bool, true, false, ◌==◌, if◌then◌else◌,
  none, some, List, [], ◌∷◌, length, >>=-eq-some, arith,
}
use rift_net.Connection.{Platform}
use rift_net.Server.{
  Server, ServerOutput, new_server, client_connected, client_disconnected, packet_received,
  send_data,
}
use rift_net.Server.Calls.{ServerCall, run_calls}
use rift_net.Server.Roster.{
  Roster, empty_roster, follow, follow_event, joined, parted, connected_ids, disconnected_ids,
}
use rift_net.Server.Roster.Refinement.{run_calls-follow}

abbrev pub count_up : ℕ → ℕ → List ℕ
count_up start zero = []
count_up start (suc n) = start ∷ count_up (start + 1) n

-- Only ids that were given are live.
abbrev IsBounded : Roster → Type 0
IsBounded r = (j : ℕ) → r.live j ≡ true → j < r.next

if-some :
    {A : Type 0} (t : Bool) (a b : A) → (if t then some a else none) ≡ some b → (t ≡ true) × (a ≡ b)
if-some true a b h = (refl, some-injective a b h)
if-some false a b h = cc h

-- One event, and the rest.
module _ (r r' : Roster) (id : ℕ) (out : List ServerOutput) where
  after-client_connected :
      follow r (client_connected id ∷ out) ≡ some r'
      → (id ≡ r.next) × (follow (joined r id) out ≡ some r')
  unfolding follow
  after-client_connected h =
      let (r1, first, rest) = >>=-eq-some (follow_event r (client_connected id)) _ h in
      let (test, same) = if-some (id == r.next) (joined r id) r1 first in
      (ground arith, ap (λ r. follow r out) same ∙ rest)

  after-client_disconnected :
      follow r (client_disconnected id ∷ out) ≡ some r'
      → (r.live id ≡ true) × (follow (parted r id) out ≡ some r')
  unfolding follow
  after-client_disconnected h =
      let (r1, first, rest) = >>=-eq-some (follow_event r (client_disconnected id)) _ h in
      let (test, same) = if-some (r.live id) (parted r id) r1 first in
      (test, ap (λ r. follow r out) same ∙ rest)

  after-packet_received :
      (payload : List ℕ)
      → follow r (packet_received id payload ∷ out) ≡ some r'
      → (r.announced id ≡ true) × (follow r out ≡ some r')
  unfolding follow
  after-packet_received payload h =
      let (r1, first, rest) = >>=-eq-some (follow_event r (packet_received id payload)) _ h in
      let (test, same) = if-some (r.announced id) r r1 first in
      (test, ap (λ r. follow r out) same ∙ rest)

connected_ids-follow :
    (r r' : Roster) (out : List ServerOutput)
    → follow r out ≡ some r'
    → connected_ids out ≡ count_up r.next (length (connected_ids out))
unfolding follow
connected_ids-follow r r' [] h = refl
connected_ids-follow r r' (client_connected id ∷ out) h =
    let (at, rest) = after-client_connected r r' id out h in
    ap₂ (◌∷◌) at (
      connected_ids-follow (joined r id) r' out rest
      ∙ ap (λ n. count_up (n + 1) (length (connected_ids out))) at)
connected_ids-follow r r' (client_disconnected id ∷ out) h =
    connected_ids-follow (parted r id) r' out (after-client_disconnected r r' id out h).1
connected_ids-follow r r' (packet_received id payload ∷ out) h =
    connected_ids-follow r r' out (after-packet_received r r' id out payload h).1
connected_ids-follow r r' (send_data endpoint bytes ∷ out) h = connected_ids-follow r r' out h

-- An id that was given and is not connected is not in what follows.
abbrev Gone : Roster → List ServerOutput → Type 0
Gone r out = (j : ℕ) → j < r.next → r.live j ≡ false → ¬ Mem j (disconnected_ids out)

disconnected_ids-follow :
    (r r' : Roster) (out : List ServerOutput)
    → IsBounded r
    → follow r out ≡ some r'
    → Nodup (disconnected_ids out) × Gone r out
unfolding follow
disconnected_ids-follow r r' [] b h = (Nodup-nil, λ j below dead. not-mem-nil)
disconnected_ids-follow r r' (client_connected id ∷ out) b h =
    let (at, rest) = after-client_connected r r' id out h in
    let (once, gone) =
      disconnected_ids-follow (joined r id) r' out (λ j alive. ground (arith, b j)) rest in
    (once, λ j below dead. gone j (omega arith) (ground arith))
disconnected_ids-follow r r' (client_disconnected id ∷ out) b h =
    let (alive, rest) = after-client_disconnected r r' id out h in
    let (once, gone) =
      disconnected_ids-follow (parted r id) r' out (λ j alive. ground (arith, b j)) rest in
    (
      Nodup-cons.1 (gone id (b id alive) (ground arith), once),
      λ j below dead mem.
          Or.elim ⊥_prop (mem-cons.0 mem) (λ e. ground (arith, ap r.live e))
            (gone j below (ground arith)),
    )
disconnected_ids-follow r r' (packet_received id payload ∷ out) b h =
    disconnected_ids-follow r r' out b (after-packet_received r r' id out payload h).1
disconnected_ids-follow r r' (send_data endpoint bytes ∷ out) b h =
    disconnected_ids-follow r r' out b h

-- Over any calls of a new server, from any threads and in any order, while fewer than 2^64 - 1
-- clients connect and no undefined behaviour is met: the clients that the events announce have the
-- ids 1, 2, 3 and so on, none left out or given twice, and no client is reported as disconnected
-- twice.
pub run_calls-ids :
    (platform : Platform) (s' : Server platform) (calls : List (ServerCall platform))
    (out : List ServerOutput)
    → run_calls platform (new_server platform) calls ≡ some (s', out)
    → 1 + length (connected_ids out) < 2 ^ 64
    → (connected_ids out ≡ count_up 1 (length (connected_ids out))) × Nodup (disconnected_ids out)
run_calls-ids platform s' calls out h bound =
    let (r, followed, same_next, live_of) = run_calls-follow platform s' calls out h bound in
    (
      connected_ids-follow empty_roster r out followed,
      (disconnected_ids-follow empty_roster r out (λ j alive. cc alive) followed).0,
    )
