-- ===== src/Server/Roster/Refinement.antt =====
-- The server keeps to the specification of its events, whatever calls are made of it and in
-- whatever order.
use mathlib.Core.Option.{some-injective}
use mathlib.Core.Path.{subst}
use rift_net.Base.{
  ℕ, ◌+◌, ◌^◌, ◌<◌, ◌≤◌, ◌≢◌, ◌≡◌, inl, inr, refl, sym, ap, ◌∙◌, Bool, true, ◌==◌, Bool-cases, none,
  some, List, [], ◌∷◌, ◌++◌, map, length, arith,
}
use rift_net.Base.Counts.{count_of, remove, count_of-remove}
use rift_net.Base.Dict.{
  number_key, lookup, lookup-insert, lookup-insert_ne, erase, lookup-erase, lookup-erase_self,
  lookup-erase_ne,
}
use rift_net.Connection.{Platform, Connection, NetworkEndpoint, Output, transmit, deliver}
use rift_net.Server.Endpoint.{endpoint_key}
use rift_net.Server.{Server, ServerOutput, of_output, new_server}
use rift_net.Server.Maps.{Registered, Sound, put, put-Sound, new_server-Sound}
use rift_net.Server.Maps.Change.{
  enter, leave, enter-Sound, leave-Sound, leaving-Sound, mark-Sound, empty-Sound,
}
use rift_net.Server.Acts.{Acts, done, used, entered, left, reported, marked, emptied}
use rift_net.Server.Calls.{ServerCall, run_calls, run_calls-Acts, Heard-anywhere}
use rift_net.Server.Roster.{Roster, empty_roster, follow, joined, parted, connected_ids}

connected_ids-of_output :
    (pointer : ℕ) (out : List Output) (more : List ServerOutput)
    → connected_ids (map (of_output pointer) out ++ more) ≡ connected_ids more
connected_ids-of_output pointer [] more = refl
connected_ids-of_output pointer (transmit endpoint bytes ∷ out) more =
    connected_ids-of_output pointer out more
connected_ids-of_output pointer (deliver payload ∷ out) more =
    connected_ids-of_output pointer out more

-- The use of an announced client's connection changes nothing.
follow-of_output :
    (r : Roster) (pointer : ℕ) (out : List Output) (more : List ServerOutput)
    → r.announced pointer ≡ true
    → follow r (map (of_output pointer) out ++ more) ≡ follow r more
unfolding follow
follow-of_output r pointer [] more known = refl
follow-of_output r pointer (transmit endpoint bytes ∷ out) more known =
    follow-of_output r pointer out more known
follow-of_output r pointer (deliver payload ∷ out) more known =
    rw known (follow-of_output r pointer out more known)

follow-client_connected :
    (r : Roster) (id : ℕ) (more : List ServerOutput)
    → id ≡ r.next
    → follow r (ServerOutput.client_connected id ∷ more) ≡ follow (joined r id) more
unfolding follow
follow-client_connected r id more h = elim (Bool-cases (id == r.next)) [
  | inl e ↦ simp e refl
  | inr n ↦ absurd (ground arith)
]

follow-client_disconnected :
    (r : Roster) (id : ℕ) (more : List ServerOutput)
    → r.live id ≡ true
    → follow r (ServerOutput.client_disconnected id ∷ more) ≡ follow (parted r id) more
unfolding follow
follow-client_disconnected r id more h = simp h refl

module _ {platform : Platform} where
  -- The roster stands for the state.
  pub record Simulates (r : Roster) (s : Server platform) : Type 0 where
    pub sound : Sound s
    pub same_next : r.next ≡ s.next_client_id
    pub live_of : (id pointer : ℕ) → lookup id s.clients_by_id ≡ some pointer → r.live id ≡ true
    pub announced_of :
        (pointer : ℕ) (c : Connection platform)
        → lookup pointer s.objects ≡ some c
        → r.announced pointer ≡ true
    pub leaving_of :
        (id : ℕ)
        → 0 < count_of id s.leaving
        → (r.live id ≡ true) × (lookup id s.clients_by_id ≡ none) × (id < s.next_client_id)
    pub leaving_once : (id : ℕ) → count_of id s.leaving ≤ 1

  put-Simulates :
      (r : Roster) (s : Server platform) (pointer : ℕ) (old new : Connection platform)
      → lookup pointer s.objects ≡ some old
      → new.endpoint ≡ old.endpoint
      → Simulates r s
      → Simulates r (put s pointer new)
  put-Simulates r s pointer old new held same v = record {
    sound = put-Sound s pointer old new held same v.sound;
    same_next = v.same_next;
    live_of = v.live_of;
    announced_of = λ p c e. ground (
      arith,
      v.announced_of p c,
      v.announced_of pointer old held,
      lookup-insert pointer p new s.objects,
    );
    leaving_of = v.leaving_of;
    leaving_once = v.leaving_once;
  }

  enter-Simulates :
      (r : Roster) (s : Server platform) (c : Connection platform)
      → lookup c.endpoint s.clients_by_endpoint ≡ none
      → s.next_client_id + 1 < 2 ^ 64
      → Simulates r s
      → Simulates (joined r s.next_client_id) (enter s c.endpoint c)
  enter-Simulates r s c free bound v =
      let next = s.next_client_id in
      record {
        sound = enter-Sound s c free bound v.sound;
        same_next = omega arith;
        live_of =
            λ id p e. ground (arith, v.live_of id p, lookup-insert next id next s.clients_by_id);
        announced_of =
            λ p d e. ground (arith, v.announced_of p d, lookup-insert next p c s.objects);
        leaving_of = λ id among.
            let (alive, out, under) = v.leaving_of id among in
            (
              ground arith,
              lookup-insert_ne next id next s.clients_by_id (ground arith) ∙ out,
              omega arith,
            );
        leaving_once = v.leaving_once;
      }

  -- A client that has left the maps is connected for the specification until it is reported.
  leave-Simulates :
      (r : Roster) (s : Server platform) (id : ℕ) (c : Connection platform)
      → Registered s id c
      → Simulates r s
      → Simulates r (leave s id c.endpoint)
  leave-Simulates r s id c gone v = record {
    sound = leave-Sound s id c gone v.sound;
    same_next = v.same_next;
    live_of = λ j p e. ground (arith, v.live_of j p, lookup-erase id j s.clients_by_id);
    announced_of = v.announced_of;
    leaving_of = λ j among. elim (Bool-cases (j == id)) [
      | inl e ↦
          let at : j ≡ id = ground arith in
          (
            ap r.live at ∙ v.live_of id id gone.by_id,
            ap (λ i. lookup i (erase id s.clients_by_id)) at ∙ lookup-erase_self id s.clients_by_id,
            subst (λ i. i < s.next_client_id) (sym at) (v.sound.below id c gone.object),
          )
      | inr n ↦
          let (alive, out, under) = v.leaving_of j (ground arith) in
          (alive, lookup-erase_ne id j s.clients_by_id (ground arith) ∙ out, under)
    ];
    leaving_once = λ j. ground (arith, v.leaving_once j, v.leaving_of id, gone.by_id);
  }

  report-Simulates :
      (r : Roster) (s : Server platform) (id : ℕ)
      → 0 < count_of id s.leaving
      → Simulates r s
      → Simulates (parted r id) (record s { leaving = remove id s.leaving })
  report-Simulates r s id among v = record {
    sound = leaving-Sound s (remove id s.leaving) v.sound;
    same_next = v.same_next;
    live_of = λ j p e.
        let (_, out, _) = v.leaving_of id among in
        let apart : j ≢ id = λ at. ground (arith, ap (λ i. lookup i s.clients_by_id) at) in
        ground (arith, v.live_of j p);
    announced_of = v.announced_of;
    leaving_of = λ j still.
        let count = count_of-remove j id s.leaving in
        let apart : j ≢ id = λ at. ground (arith, v.leaving_once j) in
        let (alive, out, under) = v.leaving_of j (ground arith) in (ground arith, out, under);
    leaving_once = λ j. ground (arith, v.leaving_once j, count_of-remove j id s.leaving);
  }

  mark-Simulates :
      (r : Roster) (s : Server platform) (running thread : Bool)
      → Simulates r s
      → Simulates r (record s { is_running = running; has_update_thread = thread })
  mark-Simulates r s running thread v = record {
    sound = mark-Sound s running thread v.sound;
    same_next = v.same_next;
    live_of = v.live_of;
    announced_of = v.announced_of;
    leaving_of = v.leaving_of;
    leaving_once = v.leaving_once;
  }

  empty-Simulates :
      (r : Roster) (s : Server platform)
      → Simulates r s
      → Simulates r (record s { clients_by_id = []; clients_by_endpoint = [] })
  unfolding lookup
  empty-Simulates r s v = record {
    sound = empty-Sound s v.sound;
    same_next = v.same_next;
    live_of = λ id p e. cc e;
    announced_of = v.announced_of;
    leaving_of =
        λ id among. let (alive, out, under) = v.leaving_of id among in (alive, refl, under);
    leaving_once = v.leaving_once;
  }

  -- `follow` takes the roster on, to one that stands for the state afterwards.
  abbrev Follows : Roster → List ServerOutput → Server platform → Type 0
  Follows r out s' = (r' : Roster) × (follow r out ≡ some r') × Simulates r' s'

  Acts-Follows :
      {heard : NetworkEndpoint → Type 0} {s s' : Server platform} {out : List ServerOutput}
      (r : Roster)
      → Acts platform heard s out s'
      → s.next_client_id + length (connected_ids out) < 2 ^ 64
      → Simulates r s
      → Follows r out s'
  unfolding follow
  Acts-Follows r done bound v = (r, refl, v)
  Acts-Follows {s = s} r (used {more = more} pointer old new out held does rest) bound v =
      let (r', followed, v') =
        Acts-Follows r rest
          (subst (λ ids. s.next_client_id + length ids < 2 ^ 64)
            (connected_ids-of_output pointer out more) bound)
          (put-Simulates r s pointer old new held does.0 v) in
      (r', follow-of_output r pointer out more (v.announced_of pointer old held) ∙ followed, v')
  Acts-Follows {s = s} r (entered {more = more} c from free rest) bound v =
      let next = s.next_client_id in
      let (r', followed, v') =
        Acts-Follows (joined r next) rest (omega arith)
          (enter-Simulates r s c free (omega arith) v) in
      (r', follow-client_connected r next more (sym v.same_next) ∙ followed, v')
  Acts-Follows {s = s} r (left {more = more} id pointer c registered held rest) bound v =
      let (is_id, d, entry) = v.sound.of_id id pointer registered in
      let same : d ≡ c =
        some-injective d c (sym entry.object ∙ ap (λ p. lookup p s.objects) (sym is_id) ∙ held) in
      Acts-Follows r rest bound (leave-Simulates r s id c (subst (Registered s id) same entry) v)
  Acts-Follows {s = s} r (reported {more = more} id among rest) bound v =
      let (r', followed, v') =
        Acts-Follows (parted r id) rest bound (report-Simulates r s id among v) in
      (r', follow-client_disconnected r id more (v.leaving_of id among).0 ∙ followed, v')
  Acts-Follows {s = s} r (marked running thread rest) bound v =
      Acts-Follows r rest bound (mark-Simulates r s running thread v)
  Acts-Follows {s = s} r (emptied rest) bound v = Acts-Follows r rest bound (empty-Simulates r s v)

empty_roster-Simulates : (platform : Platform) → Simulates empty_roster (new_server platform)
unfolding new_server lookup
empty_roster-Simulates platform = record {
  sound = new_server-Sound;
  same_next = refl;
  live_of = λ id pointer e. cc e;
  announced_of = λ pointer c e. cc e;
  leaving_of = λ id among. absurd (omega arith);
  leaving_once = λ id. omega arith;
}

-- Whatever calls are made of a new server, from whatever threads and in whatever order, while fewer
-- than 2^64 - 1 clients connect and no undefined behaviour is met: the events follow the
-- specification, which ends with the id that the server gives next, and the specification's
-- connected clients include those of the server's maps.
pub run_calls-follow :
    (platform : Platform) (s' : Server platform) (calls : List (ServerCall platform))
    (out : List ServerOutput)
    → run_calls platform (new_server platform) calls ≡ some (s', out)
    → 1 + length (connected_ids out) < 2 ^ 64
    → (r : Roster) × (follow empty_roster out ≡ some r)
      × (r.next ≡ s'.next_client_id)
      × ((id pointer : ℕ) → lookup id s'.clients_by_id ≡ some pointer → r.live id ≡ true)
unfolding new_server
run_calls-follow platform s' calls out h bound =
    let acts =
      run_calls-Acts platform (λ endpoint. Unit) (new_server platform) s' calls out
        (Heard-anywhere platform calls) h in
    let (r, followed, v) = Acts-Follows empty_roster acts bound (empty_roster-Simulates platform) in
    (r, followed, v.same_next, v.live_of)

-- Under the same conditions the maps agree afterwards: an id has an entry exactly if its
-- connection's endpoint has one, and both entries are the same connection.
pub run_calls-Sound :
    (platform : Platform) (s' : Server platform) (calls : List (ServerCall platform))
    (out : List ServerOutput)
    → run_calls platform (new_server platform) calls ≡ some (s', out)
    → 1 + length (connected_ids out) < 2 ^ 64
    → Sound s'
unfolding new_server
run_calls-Sound platform s' calls out h bound =
    let acts =
      run_calls-Acts platform (λ endpoint. Unit) (new_server platform) s' calls out
        (Heard-anywhere platform calls) h in
    let (r, followed, v) = Acts-Follows empty_roster acts bound (empty_roster-Simulates platform) in
    v.sound
