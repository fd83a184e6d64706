-- ===== src/Base/Bytes.antt =====
-- Byte strings: Go's `string` and `[]byte`, a byte a number below 256.
use Prim.Native.Char.{code}
use Prim.Native.Nat.{ℕ}
use Prim.Native.String.{String}
use mathlib.Core.Path.{◌≡◌, refl}
use mathlib.Core.Logic.{◌↔◌, ◌⊎◌}
use mathlib.Core.Bool.{Bool, true, false, ◌&&◌, ◌||◌}
use mathlib.Core.List.{List, [], ◌∷◌, ◌++◌}
use native.Mathlib.Omega.{arith}
use svcdoctor.Base.Tests.{◌==◌, ltb, if◌then◌else◌}

abbrev pub Bytes : Type 0
Bytes = List ℕ

-- The code points of a text literal: its bytes, as each literal here is ASCII.
abbrev pub codes : String → Bytes
codes String.[] = []
codes (String.◌∷◌ c s) = code c ∷ codes s

-- Go's `==` on strings.
unfoldable pub eqb : Bytes → Bytes → Bool
eqb [] [] = true
eqb (x ∷ xs) (y ∷ ys) = x == y && eqb xs ys
eqb _ _ = false

-- Go's `<` on strings: bytewise, a proper prefix first.
unfoldable pub less : Bytes → Bytes → Bool
less [] [] = false
less [] (y ∷ ys) = true
less (x ∷ xs) [] = false
less (x ∷ xs) (y ∷ ys) = ltb x y || (x == y && less xs ys)

-- A key of a Go map used as a set.
unfoldable pub member : Bytes → List Bytes → Bool
member x [] = false
member x (y ∷ ys) = eqb y x || member x ys

-- `slices.Sort` of strings, as an insertion sort.
unfoldable pub insert_sorted : Bytes → List Bytes → List Bytes
insert_sorted x [] = x ∷ []
insert_sorted x (y ∷ ys) = if less y x then y ∷ insert_sorted x ys else x ∷ y ∷ ys

unfoldable pub sort : List Bytes → List Bytes
unfolding insert_sorted
sort [] = []
sort (x ∷ xs) = insert_sorted x (sort xs)

pub eqb_iff : (a b : Bytes) → (eqb a b ≡ true) ↔ (a ≡ b)
unfolding eqb
eqb_iff [] [] = ground arith
eqb_iff (x ∷ a) (y ∷ b) = ground (arith, eqb_iff a b)
eqb_iff _ _ = ground arith

pub eqb_refl : (a : Bytes) → eqb a a ≡ true
eqb_refl a = (eqb_iff a a).1 refl

pub member-cons :
    (x y : Bytes) (ys : List Bytes) → member x (y ∷ ys) ≡ true → (y ≡ x) ⊎ (member x ys ≡ true)
unfolding member
member-cons x y ys h = ground (arith, eqb_iff y x)

pub member-insert_sorted :
    (x y : Bytes) (ys : List Bytes) → member x (insert_sorted y ys) ≡ (eqb y x || member x ys)
unfolding member insert_sorted
member-insert_sorted x y [] = refl
member-insert_sorted x y (z ∷ ys) = ground (arith, member-insert_sorted x y ys)

-- Sorting keeps the members.
pub member-sort : (x : Bytes) (ys : List Bytes) → member x (sort ys) ≡ member x ys
unfolding sort member
member-sort x [] = refl
member-sort x (y ∷ ys) = ground (arith, member-sort x ys, member-insert_sorted x y (sort ys))

pub member-append :
    (x : Bytes) (xs ys : List Bytes) → member x (xs ++ ys) ≡ (member x xs || member x ys)
unfolding member
member-append x [] ys = refl
member-append x (y ∷ xs) ys = ground (arith, member-append x xs ys)

-- A member of a list with one element more at its end.
pub member-concat :
    (x y : Bytes) (ys : List Bytes) → member x (ys ++ y ∷ []) ≡ (member x ys || eqb y x)
unfolding member
member-concat x y [] = ground arith
member-concat x y (z ∷ ys) = ground (arith, member-concat x y ys)
