-- ===== src/Base/Sort.antt =====
-- Go's `cmp.Compare` chains and `slices.SortStableFunc`, as a stable insertion sort.
pub mod Kept
pub mod Ordered
use Prim.Native.Nat.{ℕ, compare, Ordering}
use mathlib.Core.Path.{◌≡◌, refl, ap}
use mathlib.Core.Logic.{◌≢◌}
use mathlib.Core.Bool.{Bool, true, false}
use mathlib.Core.List.{List, [], ◌∷◌, Perm}
use mathlib.Core.List.Perm
use native.Mathlib.Omega.{arith}
use svcdoctor.Base.Bytes.{Bytes}

abbrev pub flip_order : Ordering → Ordering
flip_order Ordering.lt = Ordering.gt
flip_order Ordering.eq = Ordering.eq
flip_order Ordering.gt = Ordering.lt

-- `if c := first; c != 0 { return c }; return second`
abbrev pub then_by : Ordering → Ordering → Ordering
then_by Ordering.lt o = Ordering.lt
then_by Ordering.eq o = o
then_by Ordering.gt o = Ordering.gt

-- `cmp.Compare` on strings
unfoldable pub compare_bytes : Bytes → Bytes → Ordering
compare_bytes [] [] = Ordering.eq
compare_bytes [] (y ∷ ys) = Ordering.lt
compare_bytes (x ∷ xs) [] = Ordering.gt
compare_bytes (x ∷ xs) (y ∷ ys) = then_by (compare x y) (compare_bytes xs ys)

pub flip-then_by :
    (a b : Ordering) → flip_order (then_by a b) ≡ then_by (flip_order a) (flip_order b)
flip-then_by Ordering.lt b = refl
flip-then_by Ordering.eq b = refl
flip-then_by Ordering.gt b = refl

pub flip-compare : (a b : ℕ) → flip_order (compare a b) ≡ compare b a
flip-compare a b = ground arith

pub flip-compare_bytes : (a b : Bytes) → flip_order (compare_bytes a b) ≡ compare_bytes b a
unfolding compare_bytes
flip-compare_bytes [] [] = refl
flip-compare_bytes [] (y ∷ ys) = refl
flip-compare_bytes (x ∷ xs) [] = refl
flip-compare_bytes (x ∷ xs) (y ∷ ys) = rw (flip-then_by, flip-compare, flip-compare_bytes xs ys)

abbrev is_lt : Ordering → Bool
is_lt Ordering.lt = true
is_lt _ = false

module _ {A : Type 0} (cmp : A → A → Ordering) where
  unfoldable pub insert_by : A → List A → List A
  insert_by x [] = x ∷ []
  insert_by x (y ∷ ys) = elim (cmp y x) [
    | Ordering.lt ↦ y ∷ insert_by x ys
    | Ordering.eq ↦ x ∷ y ∷ ys
    | Ordering.gt ↦ x ∷ y ∷ ys
  ]

  unfoldable pub sort_by : List A → List A
  unfolding insert_by
  sort_by [] = []
  sort_by (x ∷ xs) = insert_by x (sort_by xs)

  -- No element compares above its right neighbour.
  abbrev pub Below : A → List A → Type 0
  Below a [] = Unit
  Below a (x ∷ xs) = cmp a x ≢ Ordering.gt

  abbrev pub Ascending : List A → Type 0
  Ascending [] = Unit
  Ascending (x ∷ xs) = Below x xs × Ascending xs

  pub insert_by-Perm : (x : A) (ys : List A) → Perm (insert_by x ys) (x ∷ ys)
  unfolding insert_by
  insert_by-Perm x [] = Perm.refl (x ∷ [])
  insert_by-Perm x (y ∷ ys) = cases (cmp y x) (insert_by-Perm x ys)
    where
      cases :
          (o : Ordering)
          → Perm (insert_by x ys) (x ∷ ys)
          → Perm
              (elim o [
                | Ordering.lt ↦ y ∷ insert_by x ys
                | Ordering.eq ↦ x ∷ y ∷ ys
                | Ordering.gt ↦ x ∷ y ∷ ys
              ])
              (x ∷ y ∷ ys)
      cases Ordering.lt ih = Perm.trans (Perm.cons y ih) (Perm.swap x y ys)
      cases Ordering.eq ih = Perm.refl (x ∷ y ∷ ys)
      cases Ordering.gt ih = Perm.refl (x ∷ y ∷ ys)

  -- The sort rearranges its input.
  pub sort_by-Perm : (xs : List A) → Perm (sort_by xs) xs
  unfolding sort_by
  sort_by-Perm [] = Perm.refl []
  sort_by-Perm (x ∷ xs) = Perm.trans (insert_by-Perm x (sort_by xs)) (Perm.cons x (sort_by-Perm xs))

  module _ (flip-cmp : (a b : A) → flip_order (cmp a b) ≡ cmp b a) where
    Below-insert_by :
        (a x : A) (ys : List A) → Below a ys → cmp a x ≢ Ordering.gt → Below a (insert_by x ys)
    unfolding insert_by
    Below-insert_by a x [] b h = h
    Below-insert_by a x (y ∷ ys) b h = cases (cmp y x)
      where
        cases :
            (o : Ordering)
            → Below a (elim o [
              | Ordering.lt ↦ y ∷ insert_by x ys
              | Ordering.eq ↦ x ∷ y ∷ ys
              | Ordering.gt ↦ x ∷ y ∷ ys
            ])
        cases Ordering.lt = b
        cases Ordering.eq = h
        cases Ordering.gt = h

    not_gt-of-ne_lt :
        (a b : A) (o : Ordering) → cmp a b ≡ o → o ≢ Ordering.lt → cmp b a ≢ Ordering.gt
    not_gt-of-ne_lt a b Ordering.lt e h g = h refl
    not_gt-of-ne_lt a b Ordering.eq e h g = cc (flip-cmp a b, ap flip_order e)
    not_gt-of-ne_lt a b Ordering.gt e h g = cc (flip-cmp a b, ap flip_order e)

    insert_by-Ascending : (x : A) (ys : List A) → Ascending ys → Ascending (insert_by x ys)
    unfolding insert_by
    insert_by-Ascending x [] h = (tt, tt)
    insert_by-Ascending x (y ∷ ys) h = cases (cmp y x) refl (insert_by-Ascending x ys h.1)
      where
        cases :
            (o : Ordering)
            → cmp y x ≡ o
            → Ascending (insert_by x ys)
            → Ascending (elim o [
              | Ordering.lt ↦ y ∷ insert_by x ys
              | Ordering.eq ↦ x ∷ y ∷ ys
              | Ordering.gt ↦ x ∷ y ∷ ys
            ])
        cases Ordering.lt e ih = (Below-insert_by y x ys h.0 (λ g. cc), ih)
        cases Ordering.eq e ih = (not_gt-of-ne_lt y x Ordering.eq e (λ g. cc), h)
        cases Ordering.gt e ih = (not_gt-of-ne_lt y x Ordering.gt e (λ g. cc), h)

    -- The sort leaves no element above its right neighbour.
    pub sort_by-Ascending : (xs : List A) → Ascending (sort_by xs)
    unfolding sort_by
    sort_by-Ascending [] = tt
    sort_by-Ascending (x ∷ xs) = insert_by-Ascending x (sort_by xs) (sort_by-Ascending xs)
