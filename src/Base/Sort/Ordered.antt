-- ===== src/Base/Sort/Ordered.antt =====
-- The order of Go's strings, and of what `slices.Sort` makes of them.
use Prim.Native.Nat.{compare, Ordering}
use mathlib.Core.Path.{◌≡◌, refl}
use mathlib.Core.Logic.{◌⊎◌, inl, inr}
use mathlib.Core.Bool.{true, false}
use mathlib.Core.List.{List, [], ◌∷◌, Perm}
use mathlib.Core.List.Perm
use native.Mathlib.Omega.{arith}
use svcdoctor.Base.Tests.{Bool-cases}
use svcdoctor.Base.Bytes.{Bytes, less, insert_sorted, sort}
use svcdoctor.Base.Sort.{then_by, compare_bytes}

-- Equal, or before it in the order of strings.
abbrev pub AtMost : Bytes → Bytes → Type 0
AtMost a b = (a ≡ b) ⊎ (less a b ≡ true)

-- What a comparison of strings says.
pub data Compared (a b : Bytes) (o : Ordering) : Type 0 where
  before : o ≡ Ordering.lt → less a b ≡ true → Compared a b o
  same : o ≡ Ordering.eq → a ≡ b → Compared a b o
  behind : o ≡ Ordering.gt → less b a ≡ true → Compared a b o

pub compare_bytes-Compared : (a b : Bytes) → Compared a b (compare_bytes a b)
unfolding compare_bytes less
compare_bytes-Compared [] [] = same refl refl
compare_bytes-Compared [] (y ∷ ys) = before refl refl
compare_bytes-Compared (x ∷ xs) [] = behind refl refl
compare_bytes-Compared (x ∷ xs) (y ∷ ys) =
    heads (compare x y) refl (compare_bytes xs ys) (compare_bytes-Compared xs ys)
  where
    heads :
        (o : Ordering)
        → compare x y ≡ o
        → (p : Ordering) → Compared xs ys p
        → Compared (x ∷ xs) (y ∷ ys) (then_by o p)
    heads Ordering.lt e p c = before refl (ground (arith, e))
    heads Ordering.gt e p c = behind refl (ground (arith, e))
    heads Ordering.eq e p (before h l) = before h (ground (arith, e, l))
    heads Ordering.eq e p (same h l) = same h (let n : x ≡ y = ground (arith, e) in cc)
    heads Ordering.eq e p (behind h l) = behind h (ground (arith, e, l))

-- Of two strings, one is at most the other.
AtMost-not_less : (a b : Bytes) → less b a ≡ false → AtMost a b
AtMost-not_less a b h = elim (compare_bytes-Compared a b) [
  | before _ l ↦ inr l
  | same _ e ↦ inl e
  | behind _ l ↦ absurd (ground (arith, h, l))
]

module _ {A : Type 0} (R : A → A → Type 0) where
  abbrev pub First : A → List A → Type 0
  First a [] = Unit {0}
  First a (x ∷ xs) = R a x

  -- Each element stands in the relation to its right neighbour.
  abbrev pub Chained : List A → Type 0
  Chained [] = Unit {0}
  Chained (x ∷ xs) = First x xs × Chained xs

insert_sorted-First :
    (a x : Bytes) (ys : List Bytes)
    → First AtMost a ys
    → AtMost a x
    → First AtMost a (insert_sorted x ys)
unfolding insert_sorted
insert_sorted-First a x [] b h = h
insert_sorted-First a x (y ∷ ys) b h = elim (Bool-cases (less y x)) [
  | inl lower ↦ rw lower b
  | inr other ↦ rw other h
]

insert_sorted-Chained :
    (x : Bytes) (ys : List Bytes) → Chained AtMost ys → Chained AtMost (insert_sorted x ys)
unfolding insert_sorted
insert_sorted-Chained x [] h = (tt, tt)
insert_sorted-Chained x (y ∷ ys) h = elim (Bool-cases (less y x)) [
  | inl lower ↦
      rw lower (insert_sorted-First y x ys h.0 (inr lower), insert_sorted-Chained x ys h.1)
  | inr other ↦ rw other (AtMost-not_less x y other, h)
]

-- The sorted strings are in order.
pub sort-Chained : (xs : List Bytes) → Chained AtMost (sort xs)
unfolding sort
sort-Chained [] = tt
sort-Chained (x ∷ xs) = insert_sorted-Chained x (sort xs) (sort-Chained xs)

insert_sorted-Perm : (x : Bytes) (ys : List Bytes) → Perm (insert_sorted x ys) (x ∷ ys)
unfolding insert_sorted
insert_sorted-Perm x [] = Perm.refl (x ∷ [])
insert_sorted-Perm x (y ∷ ys) = elim (Bool-cases (less y x)) [
  | inl lower ↦ rw lower (Perm.trans (Perm.cons y (insert_sorted-Perm x ys)) (Perm.swap x y ys))
  | inr other ↦ rw other (Perm.refl (x ∷ y ∷ ys))
]

-- The sorted strings are those given, rearranged.
pub sort-Perm : (xs : List Bytes) → Perm (sort xs) xs
unfolding sort
sort-Perm [] = Perm.refl []
sort-Perm (x ∷ xs) = Perm.trans (insert_sorted-Perm x (sort xs)) (Perm.cons x (sort-Perm xs))
