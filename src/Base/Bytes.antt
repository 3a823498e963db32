-- ===== src/Base/Bytes.antt =====
-- Numbers as bytes, and bytes as numbers, at any width.
use Prim.Native.Nat.{ℕ, zero, suc, ◌+◌, ◌*◌, ◌/◌, ◌%◌, ◌^◌, ◌<◌}
use mathlib.Core.Path.{◌≡◌, refl, sym, ap, ap₂, ◌∙◌}
use mathlib.Core.List.{List, [], ◌∷◌, ◌++◌, reverse, reverse-cons, reverse-reverse}
use native.Mathlib.Nat.{pow-suc}
use native.Mathlib.Omega.{arith}
use rift_net.Base.Lists.{length, length-append, All}

-- The `w` bytes of a number in memory, lowest first.
unfoldable pub le_bytes : ℕ → ℕ → List ℕ
le_bytes zero x = []
le_bytes (suc w) x = x % 256 ∷ le_bytes w (x / 256)

-- The number whose bytes in memory these are.
unfoldable pub of_le_bytes : List ℕ → ℕ
of_le_bytes [] = 0
of_le_bytes (b ∷ bs) = b + 256 * of_le_bytes bs

pub length-le_bytes : (w x : ℕ) → length (le_bytes w x) ≡ w
unfolding le_bytes
length-le_bytes zero x = refl
length-le_bytes (suc w) x = ap suc (length-le_bytes w (x / 256))

pub of_le_bytes-le_bytes : (w x : ℕ) → x < 256 ^ w → of_le_bytes (le_bytes w x) ≡ x
unfolding le_bytes of_le_bytes
of_le_bytes-le_bytes zero x h = omega arith
of_le_bytes-le_bytes (suc w) x h =
    omega (arith, of_le_bytes-le_bytes w (x / 256) (omega (arith, pow-suc 256 w)))

abbrev pub IsByte : ℕ → Type 0
IsByte b = b < 256

pub le_bytes-IsByte : (w x : ℕ) → All IsByte (le_bytes w x)
unfolding le_bytes
le_bytes-IsByte zero x = tt
le_bytes-IsByte (suc w) x = (omega arith, le_bytes-IsByte w (x / 256))

pub le_bytes-of_le_bytes :
    (bs : List ℕ) → All IsByte bs → le_bytes (length bs) (of_le_bytes bs) ≡ bs
unfolding le_bytes of_le_bytes
le_bytes-of_le_bytes [] h = refl
le_bytes-of_le_bytes (b ∷ bs) h = ap₂ ◌∷◌ (omega arith) (rest ∙ le_bytes-of_le_bytes bs h.1)
  where
    rest :
        le_bytes (length bs) ((b + 256 * of_le_bytes bs) / 256)
        ≡ le_bytes (length bs) (of_le_bytes bs)
    rest = ap (le_bytes (length bs)) (omega (arith, h.0))

pub length-reverse : (xs : List ℕ) → length (reverse xs) ≡ length xs
length-reverse [] = refl
length-reverse (x ∷ xs) =
    omega
      (arith, ap length (reverse-cons x xs), length-append (reverse xs) (x ∷ []), length-reverse xs)

-- `_byteswap_uint64` at `w` = 8: the bytes in memory the other way round.
unfoldable pub byte_swap : ℕ → ℕ → ℕ
byte_swap w x = of_le_bytes (reverse (le_bytes w x))

All-append : (xs ys : List ℕ) → All IsByte xs → All IsByte ys → All IsByte (xs ++ ys)
All-append [] ys hx hy = hy
All-append (x ∷ xs) ys hx hy = (hx.0, All-append xs ys hx.1 hy)

All-reverse : (xs : List ℕ) → All IsByte xs → All IsByte (reverse xs)
All-reverse [] h = tt
All-reverse (x ∷ xs) h =
    rw (reverse-cons x xs) (All-append (reverse xs) (x ∷ []) (All-reverse xs h.1) (h.0, tt))

-- A swapped number lies in memory highest byte first.
pub le_bytes-byte_swap : (w x : ℕ) → le_bytes w (byte_swap w x) ≡ reverse (le_bytes w x)
unfolding byte_swap
le_bytes-byte_swap w x =
    let size : length (reverse (le_bytes w x)) ≡ w =
      length-reverse (le_bytes w x) ∙ length-le_bytes w x in
    ap (λ (v : ℕ). le_bytes v (of_le_bytes (reverse (le_bytes w x)))) (sym size)
    ∙ le_bytes-of_le_bytes (reverse (le_bytes w x))
        (All-reverse (le_bytes w x) (le_bytes-IsByte w x))

-- Swapping twice gives the number back.
pub byte_swap_twice : (w x : ℕ) → x < 256 ^ w → byte_swap w (byte_swap w x) ≡ x
byte_swap_twice w x h =
    unfold byte_swap in
    ap (λ (bs : List ℕ). of_le_bytes (reverse bs)) (le_bytes-byte_swap w x)
    ∙ ap of_le_bytes (reverse-reverse (le_bytes w x))
    ∙ of_le_bytes-le_bytes w x h

of_le_bytes-lt : (bs : List ℕ) → All IsByte bs → of_le_bytes bs < 256 ^ length bs
unfolding of_le_bytes
of_le_bytes-lt [] h = omega arith
of_le_bytes-lt (b ∷ bs) h = omega (arith, h.0, of_le_bytes-lt bs h.1, pow-suc 256 (length bs))

pub byte_swap-lt : (w x : ℕ) → byte_swap w x < 256 ^ w
unfolding byte_swap
byte_swap-lt w x =
    let size : length (reverse (le_bytes w x)) ≡ w =
      length-reverse (le_bytes w x) ∙ length-le_bytes w x in
    rw size at
      (of_le_bytes-lt (reverse (le_bytes w x)) (All-reverse (le_bytes w x) (le_bytes-IsByte w x)))
