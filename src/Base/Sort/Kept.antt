-- ===== src/Base/Sort/Kept.antt =====
-- What the sort of Base/Sort keeps: a predicate on every element, and the elements of the parts.
use Prim.Native.Nat.{Ordering, ◌+◌}
use mathlib.Core.Path.{◌≡◌, refl, ap, ap₂, ◌∙◌}
use mathlib.Core.Bool.{Bool, Bool-set, ◌||◌}
use mathlib.Core.Logic.{∥∥₁_elim}
use mathlib.Core.List.{List, [], ◌∷◌, ◌++◌, map, append_assoc, Perm, Permᴰ, perm_append_comm}
use mathlib.Core.List.Perm
use native.Mathlib.Omega.{arith}
use svcdoctor.Base.Lists.{All, any, flatten, one, count}
use svcdoctor.Base.Sort.{insert_by, sort_by}

-- The second list moves in front.
pub Perm-swap_front {ℓ} :
    {A : Type ℓ} (xs ys zs : List A) → Perm (xs ++ (ys ++ zs)) (ys ++ (xs ++ zs))
Perm-swap_front {A} xs ys zs =
    rw (← append_assoc xs ys zs, ← append_assoc ys xs zs)
      (Perm.append_right zs (perm_append_comm xs ys))

any-Permᴰ {ℓ} : {A : Type ℓ} (p : A → Bool) {xs ys : List A} → Permᴰ xs ys → any p xs ≡ any p ys
any-Permᴰ p Permᴰ.nil = refl
any-Permᴰ p (Permᴰ.cons e d) = ap₂ ◌||◌ (ap p e) (any-Permᴰ p d)
any-Permᴰ p (Permᴰ.swap {a} {b} {l} e f) =
    exchange (p a) (p b) (any p l) ∙ ap₂ (λ x y. x || (y || any p l)) (ap p f) (ap p e)
  where
    exchange : (x y z : Bool) → (x || (y || z)) ≡ (y || (x || z))
    exchange x y z = ground arith
any-Permᴰ p (Permᴰ.trans d e) = any-Permᴰ p d ∙ any-Permᴰ p e

-- The same elements pass the test in any order.
pub any-Perm {ℓ} : {A : Type ℓ} (p : A → Bool) {xs ys : List A} → Perm xs ys → any p xs ≡ any p ys
any-Perm p d = ∥∥₁_elim d (Bool-set _ _) (λ e. any-Permᴰ p e)

module _ {A : Type 0} (cmp : A → A → Ordering) where
  insert_by-All {κ} :
      (P : A → Type κ) (x : A) (ys : List A) → P x → All P ys → All P (insert_by cmp x ys)
  unfolding insert_by
  insert_by-All P x [] h k = (h, tt)
  insert_by-All P x (y ∷ ys) h k = cases (cmp y x) (insert_by-All P x ys h k.1)
    where
      cases :
          (o : Ordering)
          → All P (insert_by cmp x ys)
          → All P (elim o [
            | Ordering.lt ↦ y ∷ insert_by cmp x ys
            | Ordering.eq ↦ x ∷ y ∷ ys
            | Ordering.gt ↦ x ∷ y ∷ ys
          ])
      cases Ordering.lt ih = (k.0, ih)
      cases Ordering.eq ih = (h, k)
      cases Ordering.gt ih = (h, k)

  pub sort_by-All {κ} : (P : A → Type κ) (xs : List A) → All P xs → All P (sort_by cmp xs)
  unfolding sort_by
  sort_by-All P [] h = tt
  sort_by-All P (x ∷ xs) h = insert_by-All P x (sort_by cmp xs) h.0 (sort_by-All P xs h.1)

  insert_by-any :
      (p : A → Bool) (x : A) (ys : List A) → any p (insert_by cmp x ys) ≡ (p x || any p ys)
  unfolding insert_by
  insert_by-any p x [] = refl
  insert_by-any p x (y ∷ ys) = cases (cmp y x) (insert_by-any p x ys)
    where
      cases :
          (o : Ordering)
          → any p (insert_by cmp x ys) ≡ (p x || any p ys)
          → any p (elim o [
            | Ordering.lt ↦ y ∷ insert_by cmp x ys
            | Ordering.eq ↦ x ∷ y ∷ ys
            | Ordering.gt ↦ x ∷ y ∷ ys
          ])
            ≡ (p x || any p (y ∷ ys))
      cases Ordering.lt ih = ground (arith, ih)
      cases Ordering.eq ih = refl
      cases Ordering.gt ih = refl

  pub sort_by-any : (p : A → Bool) (xs : List A) → any p (sort_by cmp xs) ≡ any p xs
  unfolding sort_by
  sort_by-any p [] = refl
  sort_by-any p (x ∷ xs) =
      insert_by-any p x (sort_by cmp xs) ∙ ap (λ b. p x || b) (sort_by-any p xs)

  insert_by-count :
      (p : A → Bool) (x : A) (ys : List A) → count p (insert_by cmp x ys) ≡ one (p x) + count p ys
  unfolding insert_by
  insert_by-count p x [] = refl
  insert_by-count p x (y ∷ ys) = cases (cmp y x) (insert_by-count p x ys)
    where
      cases :
          (o : Ordering)
          → count p (insert_by cmp x ys) ≡ one (p x) + count p ys
          → count p (elim o [
            | Ordering.lt ↦ y ∷ insert_by cmp x ys
            | Ordering.eq ↦ x ∷ y ∷ ys
            | Ordering.gt ↦ x ∷ y ∷ ys
          ])
            ≡ one (p x) + count p (y ∷ ys)
      cases Ordering.lt ih = omega (arith, ih)
      cases Ordering.eq ih = refl
      cases Ordering.gt ih = refl

  pub sort_by-count : (p : A → Bool) (xs : List A) → count p (sort_by cmp xs) ≡ count p xs
  unfolding sort_by
  sort_by-count p [] = refl
  sort_by-count p (x ∷ xs) =
      insert_by-count p x (sort_by cmp xs) ∙ ap (λ n. one (p x) + n) (sort_by-count p xs)

  -- A map that keeps the comparison commutes with the sort.
  module _ (f : A → A) (same : (a b : A) → cmp (f a) (f b) ≡ cmp a b) where
    insert_by-map :
        (x : A) (ys : List A) → insert_by cmp (f x) (map f ys) ≡ map f (insert_by cmp x ys)
    unfolding insert_by
    insert_by-map x [] = refl
    insert_by-map x (y ∷ ys) = rw (same y x) (cases (cmp y x) (insert_by-map x ys))
      where
        cases :
            (o : Ordering)
            → insert_by cmp (f x) (map f ys) ≡ map f (insert_by cmp x ys)
            → (elim o [
              | Ordering.lt ↦ f y ∷ insert_by cmp (f x) (map f ys)
              | Ordering.eq ↦ f x ∷ f y ∷ map f ys
              | Ordering.gt ↦ f x ∷ f y ∷ map f ys
            ])
              ≡ map f (elim o [
                | Ordering.lt ↦ y ∷ insert_by cmp x ys
                | Ordering.eq ↦ x ∷ y ∷ ys
                | Ordering.gt ↦ x ∷ y ∷ ys
              ])
        cases Ordering.lt ih = ap (◌∷◌ (f y)) ih
        cases Ordering.eq ih = refl
        cases Ordering.gt ih = refl

    pub sort_by-map : (xs : List A) → sort_by cmp (map f xs) ≡ map f (sort_by cmp xs)
    unfolding sort_by
    sort_by-map [] = refl
    sort_by-map (x ∷ xs) =
        ap (insert_by cmp (f x)) (sort_by-map xs) ∙ insert_by-map x (sort_by cmp xs)

  module _ {B : Type 0} (f : A → List B) where
    insert_by-flatten :
        (x : A) (ys : List A)
        → Perm (flatten (map f (insert_by cmp x ys))) (f x ++ flatten (map f ys))
    unfolding insert_by
    insert_by-flatten x [] = Perm.refl _
    insert_by-flatten x (y ∷ ys) = cases (cmp y x) (insert_by-flatten x ys)
      where
        cases :
            (o : Ordering)
            → Perm (flatten (map f (insert_by cmp x ys))) (f x ++ flatten (map f ys))
            → Perm
                (flatten (
                  map f (elim o [
                    | Ordering.lt ↦ y ∷ insert_by cmp x ys
                    | Ordering.eq ↦ x ∷ y ∷ ys
                    | Ordering.gt ↦ x ∷ y ∷ ys
                  ])))
                (f x ++ (f y ++ flatten (map f ys)))
        cases Ordering.lt ih =
            Perm.trans (Perm.append_left (f y) ih)
              (Perm-swap_front (f y) (f x) (flatten (map f ys)))
        cases Ordering.eq ih = Perm.refl _
        cases Ordering.gt ih = Perm.refl _

    -- The parts of a sorted list hold the same elements.
    pub sort_by-flatten :
        (xs : List A) → Perm (flatten (map f (sort_by cmp xs))) (flatten (map f xs))
    unfolding sort_by
    sort_by-flatten [] = Perm.refl []
    sort_by-flatten (x ∷ xs) =
        Perm.trans (insert_by-flatten x (sort_by cmp xs))
          (Perm.append_left (f x) (sort_by-flatten xs))
