-- ===== src/Server/Maps/Change.antt =====
-- A client enters both maps at once, and leaves both.
use mathlib.Core.Option.{some-injective}
use mathlib.Core.Path.{subst}
use rift_net.Base.{
  ℕ, ◌+◌, ◌%◌, ◌^◌, ◌<◌, ◌≡◌, ◌≢◌, inl, inr, sym, ap, ◌∙◌, Bool, Bool-cases, none, some, List, [],
  ◌∷◌, arith, ◌==◌,
}
use rift_net.Base.Dict.{
  number_key, lookup, insert, erase, lookup-insert_self, lookup-insert_ne, lookup-erase_self,
  lookup-erase_ne, insert-IsDict, erase-IsDict,
}
use rift_net.Connection.{Platform, Connection, NetworkEndpoint}
use rift_net.Server.Endpoint.{endpoint_key, same_endpoint, same_endpoint_iff}
use rift_net.Server.{Server}
use rift_net.Server.Maps.{Registered, Sound}

module _ {platform : Platform} where
  -- What `FindOrCreateConnection` does to the maps, and the locked half of `DisconnectClient`.
  abbrev pub enter : Server platform → NetworkEndpoint → Connection platform → Server platform
  enter s endpoint c =
      let id = s.next_client_id in
      record s {
        next_client_id = (id + 1) % 2 ^ 64;
        objects = insert id c s.objects;
        clients_by_id = insert id id s.clients_by_id;
        clients_by_endpoint = insert endpoint id s.clients_by_endpoint;
      }

  abbrev pub leave : Server platform → ℕ → NetworkEndpoint → Server platform
  leave s id endpoint = record s {
    clients_by_endpoint = erase endpoint s.clients_by_endpoint;
    clients_by_id = erase id s.clients_by_id;
    leaving = id ∷ s.leaving;
  }

  -- One that was registered stays so.
  enter-Registered :
      (s : Server platform) (endpoint : NetworkEndpoint) (new : Connection platform) (id : ℕ)
      (c : Connection platform)
      → lookup endpoint s.clients_by_endpoint ≡ none
      → id < s.next_client_id
      → Registered s id c
      → Registered (enter s endpoint new) id c
  enter-Registered s endpoint new id c free old r =
      let apart : id ≢ s.next_client_id = ground arith in
      record {
        by_id =
            lookup-insert_ne s.next_client_id id s.next_client_id s.clients_by_id apart ∙ r.by_id;
        object = lookup-insert_ne s.next_client_id id new s.objects apart ∙ r.object;
        by_endpoint =
            lookup-insert_ne endpoint c.endpoint s.next_client_id s.clients_by_endpoint (λ at.
              ground (arith, free, r.by_endpoint, ap (λ a. lookup a s.clients_by_endpoint) at))
            ∙ r.by_endpoint;
      }

  entered-Registered :
      (s : Server platform) (new : Connection platform)
      → Registered (enter s new.endpoint new) s.next_client_id new
  entered-Registered s new = record {
    by_id = lookup-insert_self s.next_client_id s.next_client_id s.clients_by_id;
    object = lookup-insert_self s.next_client_id new s.objects;
    by_endpoint = lookup-insert_self new.endpoint s.next_client_id s.clients_by_endpoint;
  }

  pub enter-Sound :
      (s : Server platform) (new : Connection platform)
      → lookup new.endpoint s.clients_by_endpoint ≡ none
      → s.next_client_id + 1 < 2 ^ 64
      → Sound s
      → Sound (enter s new.endpoint new)
  enter-Sound s new free bound v =
      let next = s.next_client_id in
      record {
        distinct = insert-IsDict next next s.clients_by_id v.distinct;
        of_id = λ id p e. elim (Bool-cases (id == next)) [
          | inl e' ↦
              let at : id ≡ next = ground arith in
              let clients = insert next next s.clients_by_id in
              let one : p ≡ next = some-injective p next (
                sym e
                ∙ ap (λ i. lookup i clients) at
                ∙ lookup-insert_self next next s.clients_by_id) in
              subst
                (λ j.
                  (p ≡ j) × (c : Connection platform) × Registered (enter s new.endpoint new) j c)
                (sym at) (one, new, entered-Registered s new)
          | inr n ↦
              let old = sym (lookup-insert_ne next id next s.clients_by_id (ground arith)) ∙ e in
              let (is_id, c, r) = v.of_id id p old in
              (is_id, c, enter-Registered s new.endpoint new id c free (v.below id c r.object) r)
        ];
        of_endpoint = λ a p e. elim (Bool-cases (same_endpoint a new.endpoint)) [
          | inl e' ↦
              let at : a ≡ new.endpoint = (same_endpoint_iff a new.endpoint).0 e' in
              let clients = insert new.endpoint next s.clients_by_endpoint in
              let one : p ≡ next = some-injective p next (
                sym e
                ∙ ap (λ a. lookup a clients) at
                ∙ lookup-insert_self new.endpoint next s.clients_by_endpoint) in
              (
                new,
                sym at,
                subst (λ j. Registered (enter s new.endpoint new) j new) (sym one)
                    (entered-Registered s new),
              )
          | inr n ↦
              let apart : a ≢ new.endpoint = ground (arith, same_endpoint_iff a new.endpoint) in
              let old =
                sym (lookup-insert_ne new.endpoint a next s.clients_by_endpoint apart) ∙ e in
              let (c, at, r) = v.of_endpoint a p old in
              (c, at, enter-Registered s new.endpoint new p c free (v.below p c r.object) r)
        ];
        below = λ p c e. elim (Bool-cases (p == next)) [
          | inl at ↦ ground arith
          | inr n ↦
              let old = sym (lookup-insert_ne next p new s.objects (ground arith)) ∙ e in
              ground (arith, v.below p c old)
        ];
      }

  -- The others stay.
  leave-Registered :
      (s : Server platform) (id j : ℕ) (c d : Connection platform)
      → Registered s id c
      → Registered s j d
      → j ≢ id
      → Registered (leave s id c.endpoint) j d
  leave-Registered s id j c d gone r apart = record {
    by_id = lookup-erase_ne id j s.clients_by_id apart ∙ r.by_id;
    object = r.object;
    by_endpoint =
        lookup-erase_ne c.endpoint d.endpoint s.clients_by_endpoint (λ at. apart (
          some-injective j id
            (sym r.by_endpoint ∙ ap (λ a. lookup a s.clients_by_endpoint) at ∙ gone.by_endpoint)))
        ∙ r.by_endpoint;
  }

  pub leave-Sound :
      (s : Server platform) (id : ℕ) (c : Connection platform)
      → Registered s id c
      → Sound s
      → Sound (leave s id c.endpoint)
  leave-Sound s id c gone v = record {
    distinct = erase-IsDict id s.clients_by_id v.distinct;
    of_id = λ j p e.
        let apart : j ≢ id = λ at. ground (
          arith,
          sym e
              ∙ ap (λ i. lookup i (erase id s.clients_by_id)) at
              ∙ lookup-erase_self id s.clients_by_id,
        ) in
        let (is_id, d, r) = v.of_id j p (sym (lookup-erase_ne id j s.clients_by_id apart) ∙ e) in
        (is_id, d, leave-Registered s id j c d gone r apart);
    of_endpoint = λ a p e.
        let clients = erase c.endpoint s.clients_by_endpoint in
        let apart : a ≢ c.endpoint = λ at. ground (
          arith,
          sym e
              ∙ ap (λ i. lookup i clients) at
              ∙ lookup-erase_self c.endpoint s.clients_by_endpoint,
        ) in
        let (d, at, r) =
          v.of_endpoint a p (sym (lookup-erase_ne c.endpoint a s.clients_by_endpoint apart) ∙ e) in
        let other : p ≢ id = λ one.
          let held : some d ≡ some c =
            sym r.object ∙ ap (λ i. lookup i s.objects) one ∙ gone.object in
          apart (sym at ∙ ap (λ c. c.endpoint) (some-injective d c held)) in
        (d, at, leave-Registered s id p c d gone r other);
    below = v.below;
  }

  -- The two flags are not in the maps.
  pub mark-Sound :
      (s : Server platform) (running thread : Bool)
      → Sound s
      → Sound (record s { is_running = running; has_update_thread = thread })
  mark-Sound s running thread v = record {
    distinct = v.distinct;
    of_id = λ id p e.
        let (is_id, c, r) = v.of_id id p e in
        (is_id, c, record { by_id = r.by_id; object = r.object; by_endpoint = r.by_endpoint });
    of_endpoint = λ a p e.
        let (c, at, r) = v.of_endpoint a p e in
        (c, at, record { by_id = r.by_id; object = r.object; by_endpoint = r.by_endpoint });
    below = v.below;
  }

  -- Nor are the ids that are leaving.
  pub leaving-Sound :
      (s : Server platform) (ids : List ℕ) → Sound s → Sound (record s { leaving = ids })
  leaving-Sound s ids v = record {
    distinct = v.distinct;
    of_id = λ id p e.
        let (is_id, c, r) = v.of_id id p e in
        (is_id, c, record { by_id = r.by_id; object = r.object; by_endpoint = r.by_endpoint });
    of_endpoint = λ a p e.
        let (c, at, r) = v.of_endpoint a p e in
        (c, at, record { by_id = r.by_id; object = r.object; by_endpoint = r.by_endpoint });
    below = v.below;
  }

  pub empty-Sound :
      (s : Server platform)
      → Sound s
      → Sound (record s { clients_by_id = []; clients_by_endpoint = [] })
  unfolding lookup
  empty-Sound s v = record {
    distinct = tt;
    of_id = λ id p e. cc e;
    of_endpoint = λ a p e. cc e;
    below = v.below;
  }
