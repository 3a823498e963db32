-- ===== src/Base/Counts.antt =====
-- How often a number is in a list, and the list without its first occurrence.
use Prim.Native.Nat.{ℕ, ◌+◌, ◌-◌}
use mathlib.Core.Path.{◌≡◌}
use mathlib.Core.List.{List, [], ◌∷◌, ◌++◌}
use native.Mathlib.Omega.{arith}
use rift_net.Base.Tests.{◌==◌, if◌then◌else◌}

abbrev pub count_of : ℕ → List ℕ → ℕ
count_of x [] = 0
count_of x (y ∷ ys) = (if x == y then 1 else 0) + count_of x ys

unfoldable pub remove : ℕ → List ℕ → List ℕ
remove x [] = []
remove x (y ∷ ys) = let rest = remove x ys in if x == y then ys else y ∷ rest

pub count_of-append :
    (x : ℕ) (xs ys : List ℕ) → count_of x (xs ++ ys) ≡ count_of x xs + count_of x ys
count_of-append x [] ys = omega arith
count_of-append x (y ∷ xs) ys = omega (arith, count_of-append x xs ys)

pub count_of-remove :
    (x y : ℕ) (xs : List ℕ) → count_of x (remove y xs) ≡ count_of x xs - (if x == y then 1 else 0)
unfolding remove
count_of-remove x y [] = ground arith
count_of-remove x y (z ∷ xs) = ground (arith, count_of-remove x y xs)
