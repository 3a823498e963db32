-- ===== src/Server/Maps.antt =====
-- How the two maps of the server agree.
pub mod Change
use rift_net.Base.{
  ℕ, suc, ◌+◌, ◌%◌, ◌^◌, ◌<◌, ◌≤◌, ◌≡◌, ◌≢◌, ◌⊎◌, inl, inr, refl, sym, ap, ◌∙◌, Bool, true, false,
  not, if◌then◌else◌, Bool-cases, Option-cases, ◌>>=◌, >>=-eq-some, Option, none, some, List, [],
  ◌∷◌, ◌++◌, map, is_empty, arith, ◌==◌,
}
use mathlib.Core.Option.{some-injective}
use mathlib.Core.Path.{subst}
use rift_net.Base.Dict.{
  Dict, number_key, lookup, insert, erase, IsDict, lookup-insert, lookup-erase, lookup-insert_self,
  lookup-insert_ne, lookup-erase_self, lookup-erase_ne, insert-IsDict, erase-IsDict,
}
use rift_net.Connection.{
  Platform, Connection, NetworkEndpoint, send_application_data, process_incoming_raw_packet, update,
  set_send_callback, set_app_data_callback, new_connection,
}
use rift_net.Connection.Emissions.Operations.{
  send_application_data-Does, process_incoming_raw_packet-Does, update-Does, DoesIfDefined,
}
use rift_net.Server.Endpoint.{endpoint_key, same_endpoint}
use rift_net.Server.{
  Server, Fresh, fresh_connection, create_connection, find_or_create_connection, process_on,
  send_to, send_to_all, broadcast, update_on, update_all, disconnect_client, disconnect_found,
  start, stop, new_server, send, send_found,
}

module _ {platform : Platform} where
  -- The client `id` has the connection `c`: the map of ids points to its object, and so does the map
  -- of endpoints at the connection's endpoint.
  pub record Registered (s : Server platform) (id : ℕ) (c : Connection platform) : Type 0 where
    pub by_id : lookup id s.clients_by_id ≡ some id
    pub object : lookup id s.objects ≡ some c
    pub by_endpoint : lookup c.endpoint s.clients_by_endpoint ≡ some id

  -- What holds of the server whenever its mutex is free.
  pub record Sound (s : Server platform) : Type 0 where
    pub distinct : IsDict s.clients_by_id
    pub of_id :
        (id pointer : ℕ)
        → lookup id s.clients_by_id ≡ some pointer
        → (pointer ≡ id) × (c : Connection platform) × Registered s id c
    pub of_endpoint :
        (endpoint : NetworkEndpoint) (pointer : ℕ)
        → lookup endpoint s.clients_by_endpoint ≡ some pointer
        → (c : Connection platform) × (c.endpoint ≡ endpoint) × Registered s pointer c
    pub below :
        (pointer : ℕ) (c : Connection platform)
        → lookup pointer s.objects ≡ some c
        → pointer < s.next_client_id

  pub new_server-Sound : Sound (new_server platform)
  unfolding new_server lookup
  new_server-Sound = record {
    distinct = tt;
    of_id = λ id pointer h. cc h;
    of_endpoint = λ endpoint pointer h. cc h;
    below = λ pointer c h. cc h;
  }

  -- An object is replaced by one with the same endpoint.
  abbrev pub put : Server platform → ℕ → Connection platform → Server platform
  put s pointer c = record s { objects = insert pointer c s.objects }

  put-Registered :
      (s : Server platform) (pointer id : ℕ) (old new c : Connection platform)
      → lookup pointer s.objects ≡ some old
      → new.endpoint ≡ old.endpoint
      → Registered s id c
      → (c' : Connection platform) × (c'.endpoint ≡ c.endpoint)
        × Registered (put s pointer new) id c'
  put-Registered s pointer id old new c h same r = elim (Bool-cases (id == pointer)) [
    | inl e ↦
        let at : id ≡ pointer = ground arith in
        let held : some c ≡ some old = sym r.object ∙ ap (λ i. lookup i s.objects) at ∙ h in
        let one : c ≡ old = some-injective c old held in
        let stays : new.endpoint ≡ c.endpoint = same ∙ ap (λ c. c.endpoint) (sym one) in
        (
          new,
          stays,
          record {
            by_id = r.by_id;
            object =
                ap (λ i. lookup i (insert pointer new s.objects)) at
                ∙ lookup-insert_self pointer new s.objects;
            by_endpoint = ap (λ a. lookup a s.clients_by_endpoint) stays ∙ r.by_endpoint;
          },
        )
    | inr n ↦
        let apart : id ≢ pointer = ground arith in
        (
          c,
          refl,
          record {
            by_id = r.by_id;
            object = lookup-insert_ne pointer id new s.objects apart ∙ r.object;
            by_endpoint = r.by_endpoint;
          },
        )
  ]

  pub put-Sound :
      (s : Server platform) (pointer : ℕ) (old new : Connection platform)
      → lookup pointer s.objects ≡ some old
      → new.endpoint ≡ old.endpoint
      → Sound s
      → Sound (put s pointer new)
  put-Sound s pointer old new h same v = record {
    distinct = v.distinct;
    of_id = λ id p e.
        let (is_id, c, r) = v.of_id id p e in
        let (c', _, r') = put-Registered s pointer id old new c h same r in (is_id, c', r');
    of_endpoint = λ endpoint p e.
        let (c, at, r) = v.of_endpoint endpoint p e in
        let (c', at', r') = put-Registered s pointer p old new c h same r in (c', at' ∙ at, r');
    below = λ p c e. elim (Bool-cases (p == pointer)) [
      | inl at ↦ ground (arith, v.below pointer old h)
      | inr n ↦ v.below p c (sym (lookup-insert_ne pointer p new s.objects (ground arith)) ∙ e)
    ];
  }
