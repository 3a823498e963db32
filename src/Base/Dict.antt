-- ===== src/Base/Dict.antt =====
-- Hash maps: `std::unordered_map` as a list of entries. Where the code iterates over a map, the
-- order is that of the list, which may be any.
use Prim.Native.Nat.{ℕ}
use mathlib.Core.Path.{◌≡◌, ◌∙◌, refl, ap}
use mathlib.Core.Logic.{◌↔◌, ◌≢◌}
use mathlib.Core.Bool.{Bool, true}
use mathlib.Core.Option.{Option, none, some}
use mathlib.Core.List.{List, [], ◌∷◌}
use native.Mathlib.Omega.{arith}
use rift_net.Base.Tests.{◌==◌, ==_iff, if◌then◌else◌}
use rift_net.Base.Lists.{All, All-map}

-- The equality of a type of keys.
pub record Key {ℓ} (K : Type ℓ) : Type ℓ where
  pub equals : K → K → Bool
  pub equals_iff : (a b : K) → (equals a b ≡ true) ↔ (a ≡ b)

instance abbrev pub number_key : Key ℕ
number_key = record { equals = ◌==◌; equals_iff = ==_iff }

abbrev pub Dict {ℓ κ} : Type ℓ → Type κ → Type (ℓ ⊔ κ)
Dict K V = List (K × V)

module _ {ℓ κ} {K : Type ℓ} {V : Type κ} ⦃key : Key K⦄ where
  unfoldable pub lookup : K → Dict K V → Option V
  lookup k [] = none
  lookup k ((j, v) ∷ d) = if key.equals k j then some v else lookup k d

  -- `d[k] = v`
  unfoldable pub insert : K → V → Dict K V → Dict K V
  insert k v [] = (k, v) ∷ []
  insert k v ((j, w) ∷ d) =
      let rest = insert k v d in if key.equals k j then (k, v) ∷ d else (j, w) ∷ rest

  unfoldable pub erase : K → Dict K V → Dict K V
  erase k [] = []
  erase k ((j, w) ∷ d) = let rest = erase k d in if key.equals k j then rest else (j, w) ∷ rest

  pub lookup-insert :
      (k j : K) (v : V) (d : Dict K V)
      → lookup j (insert k v d) ≡ (if key.equals j k then some v else lookup j d)
  unfolding lookup insert
  lookup-insert k j v [] = refl
  lookup-insert k j v ((i, w) ∷ d) =
      ground
        (arith, lookup-insert k j v d, key.equals_iff k i, key.equals_iff j i, key.equals_iff j k)

  pub lookup-erase :
      (k j : K) (d : Dict K V)
      → lookup j (erase k d) ≡ (if key.equals j k then none else lookup j d)
  unfolding lookup erase
  lookup-erase k j [] = ground arith
  lookup-erase k j ((i, w) ∷ d) =
      ground (arith, lookup-erase k j d, key.equals_iff k i, key.equals_iff j i, key.equals_iff j k)

  pub lookup-insert_self : (k : K) (v : V) (d : Dict K V) → lookup k (insert k v d) ≡ some v
  lookup-insert_self k v d = lookup-insert k k v d ∙ rw ((key.equals_iff k k).1 refl) refl

  pub lookup-insert_ne :
      (k j : K) (v : V) (d : Dict K V) → j ≢ k → lookup j (insert k v d) ≡ lookup j d
  lookup-insert_ne k j v d h = ground (arith, lookup-insert k j v d, key.equals_iff j k)

  pub lookup-erase_self : (k : K) (d : Dict K V) → lookup k (erase k d) ≡ none
  lookup-erase_self k d = ground (arith, lookup-erase k k d, key.equals_iff k k)

  pub lookup-erase_ne : (k j : K) (d : Dict K V) → j ≢ k → lookup j (erase k d) ≡ lookup j d
  lookup-erase_ne k j d h = ground (arith, lookup-erase k j d, key.equals_iff j k)

  -- No key stands twice.
  abbrev pub IsDict : Dict K V → Type κ
  IsDict [] = Unit
  IsDict ((k, v) ∷ d) = (lookup k d ≡ none) × IsDict d

  pub insert-IsDict : (k : K) (v : V) (d : Dict K V) → IsDict d → IsDict (insert k v d)
  unfolding lookup insert
  insert-IsDict k v [] h = (refl, tt)
  insert-IsDict k v ((i, w) ∷ d) h = ground (
    arith,
    insert-IsDict k v d h.1,
    lookup-insert k i v d,
    key.equals_iff k i,
    key.equals_iff i k,
  )

  pub erase-IsDict : (k : K) (d : Dict K V) → IsDict d → IsDict (erase k d)
  unfolding erase
  erase-IsDict k [] h = tt
  erase-IsDict k ((i, w) ∷ d) h =
      ground (arith, erase-IsDict k d h.1, lookup-erase k i d, key.equals_iff k i)

  -- Every entry is the one that its key finds.
  pub IsDict-lookup : (d : Dict K V) → IsDict d → All (λ (k, v). lookup k d ≡ some v) d
  unfolding lookup
  IsDict-lookup [] h = tt
  IsDict-lookup ((k, v) ∷ d) (fresh, rest) = (
    ground (arith, key.equals_iff k k),
    All-map d (λ (j, w) e. ground (arith, key.equals_iff j k, fresh, ap (λ j. lookup j d)))
        (IsDict-lookup d rest),
  )
