-- ===== src/Diagnosis/Groups/Permuted.antt =====
-- The groups of internal/diagnosis/converge.go hold every finding that went in, as often.
use svcdoctor.Base.{
  Bool, true, false, not, ◌&&◌, List, [], ◌∷◌, ◌++◌, map, append-nil, append_assoc, flatten,
  flatten-append, All, ◌≡◌, refl, inl, inr, arith, Bool-cases,
}
use Prim.Native.Nat.{Ordering}
use mathlib.Core.List.{Perm, perm_append_comm, perm-append_left_iff}
use mathlib.Core.List.Perm
use svcdoctor.Base.Bytes.{eqb, eqb_iff}
use svcdoctor.Base.Sort.Kept.{Perm-swap_front, sort_by-flatten}
use svcdoctor.Diagnosis.Groups.{
  Attributed, Groups, MergeKey, mergeable, same_claim, same_key, append_group, group, delete_group,
  sorted_groups, hosts_of, Buckets, join_host, fold_silent, bucket_all, keys_of, compare_keys,
  partition_by_compatibility,
}

-- All the findings of the groups.
abbrev pub items_of : {K : Type 0} → Groups K → List Attributed
items_of groups = flatten (map (λ g. g.1) groups)

module _ {K : Type 0} (same : K → K → Bool) where
  pub append_group-Perm :
      (groups : Groups K) (key : K) (items : List Attributed)
      → Perm (items_of (append_group same groups key items)) (items_of groups ++ items)
  unfolding append_group
  append_group-Perm [] key items = rw append-nil (Perm.refl items)
  append_group-Perm ((k, old) ∷ groups) key items = elim (Bool-cases (same k key)) [
    | inl here ↦
        rw (here, append_assoc old items, append_assoc old (items_of groups))
          (Perm.append_left old (perm_append_comm items (items_of groups)))
    | inr later ↦
        rw (later, append_assoc old (items_of groups))
          (Perm.append_left old (append_group-Perm groups key items))
  ]

  delete_group-Perm :
      (groups : Groups K) (key : K)
      → Perm (items_of groups) (group same groups key ++ items_of (delete_group same groups key))
  unfolding group delete_group
  delete_group-Perm [] key = Perm.refl []
  delete_group-Perm ((k, items) ∷ groups) key = elim (Bool-cases (same k key)) [
    | inl here ↦ rw here (Perm.refl _)
    | inr later ↦ rw later (
        Perm.trans (Perm.append_left items (delete_group-Perm groups key))
          (Perm-swap_front items (group same groups key) (items_of (delete_group same groups key))))
  ]

  -- A group under another key stays.
  group-append_group :
      (groups : Groups K) (host key : K) (items : List Attributed)
      → same host key ≡ false
      → ((k : K) → (same k host && same k key) ≡ false)
      → group same (append_group same groups host items) key ≡ group same groups key
  unfolding group append_group
  group-append_group [] host key items ne apart = rw ne refl
  group-append_group ((k, old) ∷ groups) host key items ne apart =
      ground (arith, apart k, group-append_group groups host key items ne apart)

  -- Moving one group to the end of another keeps the findings.
  pub move_group-Perm :
      (groups : Groups K) (host key : K)
      → same host key ≡ false
      → ((k : K) → (same k host && same k key) ≡ false)
      → Perm
          (items_of (delete_group same (append_group same groups host (group same groups key)) key))
          (items_of groups)
  move_group-Perm groups host key ne apart =
      let moved = group same groups key in
      let grown = append_group same groups host moved in
      let out = delete_group-Perm grown key in
      let kept = group-append_group groups host key moved ne apart in
      let split : Perm (items_of grown) (moved ++ items_of (delete_group same grown key)) =
        rw kept at out in
      let joined =
        Perm.trans (append_group-Perm groups host moved)
          (perm_append_comm (items_of groups) moved) in
      (perm-append_left_iff moved).0 (Perm.trans (Perm.symm split) joined)

pub sorted_groups-Perm :
    {K : Type 0} (cmp : K → K → Ordering) (groups : Groups K)
    → Perm (flatten (sorted_groups cmp groups)) (items_of groups)
unfolding sorted_groups
sorted_groups-Perm cmp groups = sort_by-flatten (λ g h. cmp g.0 h.0) (λ g. g.1) groups

-- A host asks a question about the claim on which the silent key agrees.
abbrev pub Host : MergeKey → MergeKey → Type 0
Host key host = (eqb host.discriminator [] ≡ false) × (same_claim host key ≡ true)

pub hosts_of-Host : (key : MergeKey) (keys : List MergeKey) → All (Host key) (hosts_of key keys)
unfolding hosts_of
hosts_of-Host key [] = tt
hosts_of-Host key (other ∷ keys) = elim (Bool-cases (asks other)) [
  | inl yes_host ↦ rw yes_host (host other yes_host, hosts_of-Host key keys)
  | inr not_host ↦ rw not_host (hosts_of-Host key keys)
]
  where
    asks : MergeKey → Bool
    asks other = not (eqb other.discriminator []) && same_claim other key

    host : (other : MergeKey) → asks other ≡ true → Host key other
    host other h = ground arith

-- No key is at once the silent key and its host.
pub apart :
    (key host : MergeKey)
    → eqb key.discriminator [] ≡ true
    → eqb host.discriminator [] ≡ false
    → (k : MergeKey) → (same_key k host && same_key k key) ≡ false
apart key host silent asks k = elim (Bool-cases (eqb k.discriminator host.discriminator)) [
  | inl e ↦
      let same = (eqb_iff k.discriminator host.discriminator).0 e in
      let empty = (eqb_iff key.discriminator []).0 silent in
      let other : eqb k.discriminator key.discriminator ≡ false = rw (same, empty) asks in
      ground (arith, other)
  | inr ne ↦ ground (arith, ne)
]

host_ne :
    (key host : MergeKey)
    → eqb key.discriminator [] ≡ true
    → eqb host.discriminator [] ≡ false
    → same_key host key ≡ false
host_ne key host silent asks =
    let empty = (eqb_iff key.discriminator []).0 silent in
    let other : eqb host.discriminator key.discriminator ≡ false = rw empty asks in
    ground (arith, other)

join_host-Perm :
    (key : MergeKey) (buckets : Buckets) (hosts : List MergeKey)
    → eqb key.discriminator [] ≡ true
    → All (Host key) hosts
    → Perm (items_of (join_host key buckets hosts)) (items_of buckets)
join_host-Perm key buckets [] silent h = Perm.refl _
join_host-Perm key buckets (host ∷ []) silent h =
    move_group-Perm same_key buckets host key (host_ne key host silent h.0.0)
      (apart key host silent h.0.0)
join_host-Perm key buckets (host ∷ other ∷ hosts) silent h = Perm.refl _

fold_silent-Perm :
    (keys todo : List MergeKey) (buckets : Buckets)
    → Perm (items_of (fold_silent keys todo buckets)) (items_of buckets)
unfolding fold_silent
fold_silent-Perm keys [] buckets = Perm.refl _
fold_silent-Perm keys (key ∷ todo) buckets = elim (Bool-cases (eqb key.discriminator [])) [
  | inl silent ↦ rw silent (
      Perm.trans (fold_silent-Perm keys todo (join_host key buckets (hosts_of key keys)))
        (join_host-Perm key buckets (hosts_of key keys) silent (hosts_of-Host key keys)))
  | inr asks ↦ rw asks (fold_silent-Perm keys todo buckets)
]

bucket_all-Perm :
    (buckets : Buckets) (group : List Attributed)
    → Perm (items_of (bucket_all buckets group)) (items_of buckets ++ group)
unfolding bucket_all
bucket_all-Perm buckets [] = rw append-nil (Perm.refl _)
bucket_all-Perm buckets (af ∷ rest) =
    let key = mergeable af.finding in
    let one : List Attributed = af ∷ [] in
    let grown = append_group same_key buckets key one in
    let first = Perm.append_right rest (append_group-Perm same_key buckets key one) in
    Perm.trans (bucket_all-Perm grown rest) (rw append_assoc at first)

-- The parts of a group hold its findings.
pub partition_by_compatibility-Perm :
    (group : List Attributed) → Perm (flatten (partition_by_compatibility group)) group
unfolding partition_by_compatibility
partition_by_compatibility-Perm [] = Perm.refl []
partition_by_compatibility-Perm (af ∷ []) = Perm.refl (af ∷ [])
partition_by_compatibility-Perm (af ∷ bf ∷ rest) =
    let buckets = bucket_all [] (af ∷ bf ∷ rest) in
    let folded = fold_silent (keys_of buckets) (keys_of buckets) buckets in
    Perm.trans (sorted_groups-Perm compare_keys folded) (
      Perm.trans (fold_silent-Perm (keys_of buckets) (keys_of buckets) buckets)
        (bucket_all-Perm [] (af ∷ bf ∷ rest)))

-- Partitioning every group keeps the findings.
pub partitioned-Perm :
    (groups : List (List Attributed))
    → Perm (flatten (flatten (map partition_by_compatibility groups))) (flatten groups)
partitioned-Perm [] = Perm.refl []
partitioned-Perm (group ∷ groups) =
    rw
      (flatten-append (partition_by_compatibility group)
        (flatten (map partition_by_compatibility groups)))
      (Perm.append (partition_by_compatibility-Perm group) (partitioned-Perm groups))
