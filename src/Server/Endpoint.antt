-- ===== src/Server/Endpoint.antt =====
-- RiftNet/src/core/networkio/NetworkEndpoint.hpp: the equality and the order of endpoints.
use rift_net.Base.{
  ℕ, ◌≡◌, ◌↔◌, ◌⊎◌, Bool, true, false, ◌&&◌, ◌||◌, ◌==◌, ==_self, ltb, if◌then◌else◌, List, [], ◌∷◌,
  bytes_eq, bytes_eq→eq, bytes_eq_self, arith,
}
use rift_net.Base.Dict.{Key}
use rift_net.Connection.{NetworkEndpoint}

-- `operator==`
abbrev pub same_endpoint : NetworkEndpoint → NetworkEndpoint → Bool
same_endpoint a b = bytes_eq a.ip_address b.ip_address && a.port == b.port

pub same_endpoint_iff : (a b : NetworkEndpoint) → (same_endpoint a b ≡ true) ↔ (a ≡ b)
same_endpoint_iff a b = (
  λ h.
      let ip = bytes_eq→eq a.ip_address b.ip_address (ground arith) in
      let port : a.port ≡ b.port = ground arith in λ i. record { ip_address = ip i; port = port i },
  λ e. rw e (rw (bytes_eq_self b.ip_address) (==_self b.port)),
)

instance abbrev pub endpoint_key : Key NetworkEndpoint
endpoint_key = record { equals = same_endpoint; equals_iff = same_endpoint_iff }

-- `std::string`'s order.
unfoldable pub bytes_less : List ℕ → List ℕ → Bool
bytes_less [] [] = false
bytes_less [] (y ∷ ys) = true
bytes_less (x ∷ xs) [] = false
bytes_less (x ∷ xs) (y ∷ ys) = let rest = bytes_less xs ys in ltb x y || (x == y && rest)

-- `operator<`
unfoldable pub less_endpoint : NetworkEndpoint → NetworkEndpoint → Bool
less_endpoint a b =
    if bytes_less a.ip_address b.ip_address
    then true
    else (if bytes_less b.ip_address a.ip_address then false else ltb a.port b.port)

bytes_less_trichotomy :
    (xs ys : List ℕ)
    → ((bytes_less xs ys ≡ true) × (bytes_eq xs ys ≡ false) × (bytes_less ys xs ≡ false))
      ⊎ ((bytes_less xs ys ≡ false) × (bytes_eq xs ys ≡ true) × (bytes_less ys xs ≡ false))
      ⊎ ((bytes_less xs ys ≡ false) × (bytes_eq xs ys ≡ false) × (bytes_less ys xs ≡ true))
unfolding bytes_less
bytes_less_trichotomy [] [] = ground arith
bytes_less_trichotomy [] (y ∷ ys) = ground arith
bytes_less_trichotomy (x ∷ xs) [] = ground arith
bytes_less_trichotomy (x ∷ xs) (y ∷ ys) = ground (arith, bytes_less_trichotomy xs ys)

-- Of two endpoints exactly one is before the other, or they are equal: the order and the equality
-- of endpoints agree.
pub less_endpoint_trichotomy :
    (a b : NetworkEndpoint)
    → ((less_endpoint a b ≡ true) × (same_endpoint a b ≡ false) × (less_endpoint b a ≡ false))
      ⊎ ((less_endpoint a b ≡ false) × (same_endpoint a b ≡ true) × (less_endpoint b a ≡ false))
      ⊎ ((less_endpoint a b ≡ false) × (same_endpoint a b ≡ false) × (less_endpoint b a ≡ true))
unfolding less_endpoint
less_endpoint_trichotomy a b = ground (arith, bytes_less_trichotomy a.ip_address b.ip_address)
