-- ===== src/Base/Bits.antt =====
-- The bits of a number, and what the shifts, `|` and `& 1` of an unsigned 32-bit word do to them.
mod Step
use Prim.Native.Nat.{ℕ, zero, suc, ◌+◌, ◌-◌, ◌*◌, ◌/◌, ◌%◌, ◌^◌, ◌≤◌, ◌<◌, max, bit_and, bit_or}
use mathlib.Core.Path.{◌≡◌, refl, sym, ap, ap₂, ◌∙◌}
use mathlib.Core.Bool.{Bool, true, false}
use native.Mathlib.Nat.{
  pow-suc, div-div-eq-div-mul, one-le-pow, div-add-mod, mod-lt, mod-eq_of_lt, add-mul-mod_self_left,
}
use native.Mathlib.Omega.{arith}
use rift_net.Base.Tests.{ltb, leb, ◌==◌, if◌then◌else◌}
use Step.{bit_or_step, bit_and_step, bit_and-zero, bit_or-zero}

-- The bit of weight 2 ^ k, as 0 or 1.
pub bit : ℕ → ℕ → ℕ
bit x zero = x % 2
bit x (suc k) = bit (x / 2) k

pub bit_le_one : (x k : ℕ) → bit x k ≤ 1
unfolding bit
bit_le_one x zero = omega arith
bit_le_one x (suc k) = bit_le_one (x / 2) k

pub bit-zero : (k : ℕ) → bit 0 k ≡ 0
unfolding bit
bit-zero zero = refl
bit-zero (suc k) = bit-zero k

-- `(x >> k) & 1`.
pub shift_right-bit : (x k : ℕ) → bit_and (x / 2 ^ k) 1 ≡ bit x k
unfolding bit
shift_right-bit x zero =
    let whole : x / 2 ^ 0 ≡ x = omega arith in
    ap (λ (y : ℕ). bit_and y 1) whole ∙ omega (arith, bit_and_step x 1, bit_and-zero (x / 2))
shift_right-bit x (suc k) =
    let halves : x / 2 / 2 ^ k ≡ x / 2 ^ suc k =
      div-div-eq-div-mul x 2 (2 ^ k) ∙ ap (λ (d : ℕ). x / d) (omega (arith, pow-suc 2 k)) in
    ap (λ (y : ℕ). bit_and y 1) (sym halves) ∙ shift_right-bit (x / 2) k

pub bit-or : (x y k : ℕ) → bit (bit_or x y) k ≡ max (bit x k) (bit y k)
unfolding bit
bit-or x y zero = omega (arith, bit_or_step x y)
bit-or x y (suc k) =
    let low : bit_or x y / 2 ≡ bit_or (x / 2) (y / 2) = omega (arith, bit_or_step x y) in
    ap (λ (z : ℕ). bit z k) low ∙ bit-or (x / 2) (y / 2) k

-- `x << d`, at any width: zeros come in below, and the bits of `x` move up.
module _ (x : ℕ) where
  halve : (d : ℕ) → x * 2 ^ suc d / 2 ≡ x * 2 ^ d
  halve d = omega (arith, ap (λ (p : ℕ). x * p) (pow-suc 2 d))

  pub bit-shift_left_low : (d k : ℕ) → k < d → bit (x * 2 ^ d) k ≡ 0
  unfolding bit
  bit-shift_left_low zero k h = absurd (omega arith)
  bit-shift_left_low (suc d) zero h = omega (arith, ap (λ (p : ℕ). x * p) (pow-suc 2 d))
  bit-shift_left_low (suc d) (suc k) h =
      ap (λ (y : ℕ). bit y k) (halve d) ∙ bit-shift_left_low d k (omega arith)

  pub bit-shift_left_high : (d k : ℕ) → d ≤ k → bit (x * 2 ^ d) k ≡ bit x (k - d)
  unfolding bit
  bit-shift_left_high zero k h =
      let whole : x * 2 ^ 0 ≡ x = omega arith in
      let all : k ≡ k - 0 = omega arith in ap₂ bit whole all
  bit-shift_left_high (suc d) zero h = absurd (omega arith)
  bit-shift_left_high (suc d) (suc k) h =
      let same : k - d ≡ suc k - suc d = omega arith in
      ap (λ (y : ℕ). bit y k) (halve d) ∙ bit-shift_left_high d k (omega arith) ∙ ap (bit x) same

-- The remainder by a double: the lowest digit stays.
mod_double : (x p : ℕ) → 0 < p → x % (p * 2) ≡ x / 2 % p * 2 + x % 2
mod_double x p h =
    let rest : ℕ = x / 2 % p * 2 + x % 2 in
    let quotient : ℕ = x / 2 / p in
    let small : x / 2 % p < p = mod-lt (x / 2) h in
    let split : x ≡ rest + p * 2 * quotient =
      omega (arith, ap (λ (y : ℕ). 2 * y) (div-add-mod (x / 2) p)) in
    ap (λ (y : ℕ). y % (p * 2)) split
    ∙ add-mul-mod_self_left rest (p * 2) quotient
    ∙ mod-eq_of_lt (omega arith)

mod_pow-suc : (w x : ℕ) → x % 2 ^ suc w ≡ x / 2 % 2 ^ w * 2 + x % 2
mod_pow-suc w x =
    ap (λ (y : ℕ). x % y) (pow-suc 2 w) ∙ mod_double x (2 ^ w) (one-le-pow w 2 (omega arith))

-- The cut to `w` bits keeps the bits below `w`.
pub bit-mod : (w x k : ℕ) → k < w → bit (x % 2 ^ w) k ≡ bit x k
unfolding bit
bit-mod zero x k h = absurd (omega arith)
bit-mod (suc w) x zero h = omega (arith, mod_pow-suc w x)
bit-mod (suc w) x (suc k) h =
    let half : x % 2 ^ suc w / 2 ≡ x / 2 % 2 ^ w = omega (arith, mod_pow-suc w x) in
    ap (λ (y : ℕ). bit y k) half ∙ bit-mod w (x / 2) k (omega arith)

-- `1 << d`.
pub bit-pow : (d k : ℕ) → bit (2 ^ d) k ≡ (if d == k then 1 else 0)
unfolding bit
bit-pow zero zero = refl
bit-pow zero (suc k) = ground (arith, bit-zero k)
bit-pow (suc d) zero = ground (arith, pow-suc 2 d)
bit-pow (suc d) (suc k) =
    let half : 2 ^ suc d / 2 ≡ 2 ^ d = omega (arith, pow-suc 2 d) in
    ap (λ (y : ℕ). bit y k) half ∙ bit-pow d k ∙ ground arith

pub bit_or-lt : (w x y : ℕ) → x < 2 ^ w → y < 2 ^ w → bit_or x y < 2 ^ w
bit_or-lt zero x y hx hy =
    omega
      (arith, ap₂ bit_or {x = x} {y = 0} {u = y} {v = 0} (omega arith) (omega arith), bit_or-zero 0)
bit_or-lt (suc w) x y hx hy = omega (
  arith,
  pow-suc 2 w,
  bit_or_step x y,
  bit_or-lt w (x / 2) (y / 2) (omega (arith, pow-suc 2 w)) (omega (arith, pow-suc 2 w)),
)
