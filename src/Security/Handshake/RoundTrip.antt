-- ===== src/Security/Handshake/RoundTrip.antt =====
-- A HELLO is parsed exactly if it was built.
use rift_net.Base.{ℕ, ◌≡◌, ◌↔◌, refl, none, some, List, [], ◌∷◌, length, take_all, arith}
use rift_net.Security.Handshake.{build_hello, try_parse_hello}

built : (key : List ℕ) → length key ≡ 32 → build_hello key ≡ 82 ∷ 70 ∷ 78 ∷ 84 ∷ 1 ∷ 1 ∷ key
unfolding build_hello
built key h = ground arith

parsed_long :
    (a b c d e f : ℕ) (rest key : List ℕ)
    → try_parse_hello (some (a ∷ b ∷ c ∷ d ∷ e ∷ f ∷ rest)) ≡ some key
    → (length key ≡ 32) × (a ∷ b ∷ c ∷ d ∷ e ∷ f ∷ rest ≡ 82 ∷ 70 ∷ 78 ∷ 84 ∷ 1 ∷ 1 ∷ key)
unfolding try_parse_hello
parsed_long a b c d e f rest key h = ground (arith, take_all 32 rest)

parsed :
    (bytes key : List ℕ)
    → try_parse_hello (some bytes) ≡ some key
    → (length key ≡ 32) × (bytes ≡ 82 ∷ 70 ∷ 78 ∷ 84 ∷ 1 ∷ 1 ∷ key)
parsed [] key h = unfold try_parse_hello in cc h
parsed (a ∷ []) key h = unfold try_parse_hello in cc h
parsed (a ∷ b ∷ []) key h = unfold try_parse_hello in cc h
parsed (a ∷ b ∷ c ∷ []) key h = unfold try_parse_hello in cc h
parsed (a ∷ b ∷ c ∷ d ∷ []) key h = unfold try_parse_hello in cc h
parsed (a ∷ b ∷ c ∷ d ∷ e ∷ []) key h = unfold try_parse_hello in cc h
parsed (a ∷ b ∷ c ∷ d ∷ e ∷ f ∷ rest) key h = parsed_long a b c d e f rest key h

parse_built :
    (key : List ℕ)
    → length key ≡ 32
    → try_parse_hello (some (82 ∷ 70 ∷ 78 ∷ 84 ∷ 1 ∷ 1 ∷ key)) ≡ some key
unfolding try_parse_hello
parse_built key h = ground (arith, take_all 32 key)

-- A buffer parses as a HELLO with a key exactly if that key has 32 bytes and the buffer is the HELLO
-- that is built from it; a null pointer never parses.
pub try_parse_hello-build_hello :
    (try_parse_hello none ≡ none)
    × ((bytes key : List ℕ)
        → (try_parse_hello (some bytes) ≡ some key)
          ↔ ((length key ≡ 32) × (bytes ≡ build_hello key)))
unfolding try_parse_hello
try_parse_hello-build_hello = (
  refl,
  λ bytes key. (
    λ h. let (size, e) = parsed bytes key h in (size, rw (built key size) e),
    λ (size, e). rw (e, built key size) (parse_built key size),
  ),
)
