-- ===== src/Diagnosis/Groups/Kept.antt =====
-- What every group of internal/diagnosis/converge.go keeps: it has a member, and each member
-- belongs under its key.
use svcdoctor.Base.{
  Bool, true, false, ◌&&◌, ◌||◌, List, [], ◌∷◌, ◌++◌, All, All-append, ◌≡◌, ◌≢◌, ◌⊎◌, refl, inl,
  inr, arith, Bool-cases,
}
use svcdoctor.Domain.Vocabulary.{Layer, layer_rank, SubjectKind, subject_kind_rank}
use svcdoctor.Diagnosis.Groups.{Attributed, Groups, append_group, group, delete_group}

append-ne_nil {ℓ} : {A : Type ℓ} (xs ys : List A) → xs ≢ [] → (xs ++ ys) ≢ []
append-ne_nil [] ys h = absurd (h refl)
append-ne_nil (x ∷ xs) ys h = λ e. cc

pub layer_rank_injective : (a b : Layer) → layer_rank a ≡ layer_rank b → a ≡ b
layer_rank_injective a b h = ground arith

pub subject_kind_rank_injective :
    (a b : SubjectKind) → subject_kind_rank a ≡ subject_kind_rank b → a ≡ b
subject_kind_rank_injective a b h = ground arith

module _ {K : Type 0} (same : K → K → Bool) where
  unfoldable pub has_key : Groups K → K → Bool
  has_key [] key = false
  has_key ((k, items) ∷ groups) key = same k key || has_key groups key

  pub has_key-append_group :
      (groups : Groups K) (host key : K) (items : List Attributed)
      → has_key groups key ≡ true
      → has_key (append_group same groups host items) key ≡ true
  unfolding has_key append_group
  has_key-append_group [] host key items h = cc
  has_key-append_group ((k, old) ∷ groups) host key items h =
      ground (arith, has_key-append_group groups host key items)

  pub has_key-delete_group :
      (groups : Groups K) (gone key : K)
      → ((k : K) → (same k key && same k gone) ≡ false)
      → has_key groups key ≡ true
      → has_key (delete_group same groups gone) key ≡ true
  unfolding has_key delete_group
  has_key-delete_group [] gone key apart h = cc
  has_key-delete_group ((k, old) ∷ groups) gone key apart h =
      ground (arith, apart k, has_key-delete_group groups gone key apart)

  -- The entry has a member, and each member belongs under the key.
  abbrev pub Kept : (K → Attributed → Type 0) → K × List Attributed → Type 0
  Kept P g = (g.1 ≢ []) × All (P g.0) g.1

  module _ (P : K → Attributed → Type 0) where
    pub append_group-Kept :
        (groups : Groups K) (key : K) (items : List Attributed)
        → ((k : K) → same k key ≡ true → All (P k) items)
        → All (P key) items
        → ((items ≢ []) ⊎ (has_key groups key ≡ true))
        → All (Kept P) groups
        → All (Kept P) (append_group same groups key items)
    unfolding append_group has_key
    append_group-Kept [] key items fit own (inl filled) h = ((filled, own), tt)
    append_group-Kept [] key items fit own (inr there) h = absurd (cc)
    append_group-Kept ((k, old) ∷ groups) key items fit own some_left h =
        elim (Bool-cases (same k key)) [
          | inl here ↦
              rw here (
                (append-ne_nil old items h.0.0, All-append (P k) old items h.0.1 (fit k here)),
                h.1,
              )
          | inr later ↦
              rw later (h.0, append_group-Kept groups key items fit own (left later some_left) h.1)
        ]
      where
        left :
            same k key ≡ false
            → ((items ≢ []) ⊎ ((same k key || has_key groups key) ≡ true))
            → ((items ≢ []) ⊎ (has_key groups key ≡ true))
        left later (inl filled) = inl filled
        left later (inr there) = inr (ground arith)

    pub delete_group-Kept :
        (groups : Groups K) (key : K)
        → All (Kept P) groups
        → All (Kept P) (delete_group same groups key)
    unfolding delete_group
    delete_group-Kept [] key h = tt
    delete_group-Kept ((k, old) ∷ groups) key h = elim (Bool-cases (same k key)) [
      | inl here ↦ rw here h.1
      | inr later ↦ rw later (h.0, delete_group-Kept groups key h.1)
    ]

    pub group-All :
        (Q : Attributed → Type 0) (groups : Groups K) (key : K)
        → ((k : K) → same k key ≡ true → (a : Attributed) → P k a → Q a)
        → All (Kept P) groups
        → All Q (group same groups key)
    unfolding group
    group-All Q [] key fit h = tt
    group-All Q ((k, old) ∷ groups) key fit h = elim (Bool-cases (same k key)) [
      | inl here ↦ rw here (each old (fit k here) h.0.1)
      | inr later ↦ rw later (group-All Q groups key fit h.1)
    ]
      where
        each :
            (items : List Attributed)
            → ((a : Attributed) → P k a → Q a)
            → All (P k) items
            → All Q items
        each [] f p = tt
        each (a ∷ items) f p = (f a p.0, each items f p.1)
