-- ===== src/Common/Counts.antt =====
-- How often a number stands in a list, and taking its first occurrence out.
use Prim.Native.Nat.{ℕ, ◌+◌, ◌-◌}
use mathlib.Core.Path.{◌≡◌}
use mathlib.Core.List.{List, [], ◌∷◌, ◌++◌}
use native.Mathlib.Omega.{arith}
use open_mx.Common.Tests.{◌==◌, if◌then◌else◌}

unfoldable pub count : ℕ → List ℕ → ℕ
count i [] = 0
count i (j ∷ js) = (if i == j then 1 else 0) + count i js

pub count-append : (i : ℕ) (xs ys : List ℕ) → count i (xs ++ ys) ≡ count i xs + count i ys
unfolding count
count-append i [] ys = omega arith
count-append i (x ∷ xs) ys = omega (arith, count-append i xs ys)

-- list_del, of the element with this number.
unfoldable pub remove : ℕ → List ℕ → List ℕ
remove i [] = []
remove i (j ∷ js) = if i == j then js else j ∷ remove i js

pub count-remove :
    (i j : ℕ) (xs : List ℕ) → count i (remove j xs) ≡ count i xs - (if i == j then 1 else 0)
unfolding count remove
count-remove i j [] = ground arith
count-remove i j (x ∷ xs) = ground (arith, count-remove i j xs)

pub count-snoc :
    (i j : ℕ) (xs : List ℕ) → count i (xs ++ j ∷ []) ≡ count i xs + (if i == j then 1 else 0)
unfolding count
count-snoc i j xs = omega (arith, count-append i xs (j ∷ []))
