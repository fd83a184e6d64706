-- ===== src/Diagnosis/Groups.antt =====
-- internal/diagnosis/converge.go: the identity of a finding, its merge key, and the groups of
-- findings that may be merged. A Go map with the slice of its keys in order of arrival is one
-- association list.
pub mod Permuted
pub mod Kept
pub mod Compatible
use svcdoctor.Base.{
  ℕ, Bool, true, false, not, ◌&&◌, List, [], ◌∷◌, ◌++◌, map, Option, none, some, ◌==◌,
  if◌then◌else◌,
}
use Prim.Native.Nat.{compare, Ordering}
use svcdoctor.Base.Bytes.{Bytes, eqb}
use svcdoctor.Base.Sort.{then_by, compare_bytes, sort_by}
use svcdoctor.Domain.Vocabulary.{Layer, layer_rank, subject_kind_rank}
use svcdoctor.Domain.Evidence.{Subject}
use svcdoctor.Domain.Finding.{Finding}

pub record SemanticIdentity : Type 0 where
  pub code : Bytes
  pub subject : Subject

abbrev pub identity_of : Finding → SemanticIdentity
identity_of f = record { code = f.code; subject = f.subject }

-- `==` on identities
abbrev pub same_identity : SemanticIdentity → SemanticIdentity → Bool
same_identity a b =
    eqb a.code b.code
    && (subject_kind_rank a.subject.kind == subject_kind_rank b.subject.kind
        && eqb a.subject.ref b.subject.ref)

unfoldable pub compare_identities : SemanticIdentity → SemanticIdentity → Ordering
compare_identities a b = then_by (compare_bytes a.code b.code) (
    then_by (compare (subject_kind_rank a.subject.kind) (subject_kind_rank b.subject.kind))
      (compare_bytes a.subject.ref b.subject.ref))

-- `AttributedFinding`
pub record Attributed : Type 0 where
  pub rule : Bytes
  pub finding : Finding

pub record MergeKey : Type 0 where
  pub layer : Layer
  pub summary : Bytes
  pub detail : Bytes
  pub discriminator : Bytes

abbrev pub mergeable : Finding → MergeKey
mergeable f = record {
  layer = f.layer;
  summary = f.summary;
  detail = f.detail;
  discriminator = f.discriminator;
}

abbrev pub same_claim : MergeKey → MergeKey → Bool
same_claim a b =
    layer_rank a.layer == layer_rank b.layer && (eqb a.summary b.summary && eqb a.detail b.detail)

-- `==` on merge keys
abbrev pub same_key : MergeKey → MergeKey → Bool
same_key a b = same_claim a b && eqb a.discriminator b.discriminator

unfoldable pub compare_keys : MergeKey → MergeKey → Ordering
compare_keys a b = then_by (compare (layer_rank a.layer) (layer_rank b.layer)) (
    then_by (compare_bytes a.summary b.summary)
      (then_by (compare_bytes a.detail b.detail) (compare_bytes a.discriminator b.discriminator)))

-- `map[K][]AttributedFinding`
abbrev pub Groups : Type 0 → Type 0
Groups K = List (K × List Attributed)

module _ {K : Type 0} where
  -- `groups[key] = append(groups[key], items...)`
  unfoldable pub append_group : (K → K → Bool) → Groups K → K → List Attributed → Groups K
  append_group same [] key items = (key, items) ∷ []
  append_group same ((k, old) ∷ groups) key items =
      if same k key
      then (k, old ++ items) ∷ groups
      else (k, old) ∷ append_group same groups key items

  -- `groups[key]`, nil on a missing key
  unfoldable pub group : (K → K → Bool) → Groups K → K → List Attributed
  group same [] key = []
  group same ((k, items) ∷ groups) key = if same k key then items else group same groups key

  -- `delete(groups, key)`
  unfoldable pub delete_group : (K → K → Bool) → Groups K → K → Groups K
  delete_group same [] key = []
  delete_group same ((k, items) ∷ groups) key =
      if same k key then groups else (k, items) ∷ delete_group same groups key

  -- The groups in the order of their keys.
  unfoldable pub sorted_groups : (K → K → Ordering) → Groups K → List (List Attributed)
  unfolding sort_by
  sorted_groups cmp groups = map (λ g. g.1) (sort_by (λ g h. cmp g.0 h.0) groups)

-- The keys with a discriminator that agree with `key` about all else.
unfoldable pub hosts_of : MergeKey → List MergeKey → List MergeKey
hosts_of key [] = []
hosts_of key (other ∷ keys) =
    let hosts = hosts_of key keys in
    if not (eqb other.discriminator []) && same_claim other key then other ∷ hosts else hosts

abbrev pub Buckets : Type 0
Buckets = Groups MergeKey

-- A silent group joins its host, if there is one host.
abbrev pub join_host : MergeKey → Buckets → List MergeKey → Buckets
join_host key buckets (host ∷ []) =
    delete_group same_key (append_group same_key buckets host (group same_key buckets key)) key
join_host key buckets _ = buckets

-- The second pass of `partitionByCompatibility`, over the keys still to visit.
unfoldable pub fold_silent : List MergeKey → List MergeKey → Buckets → Buckets
unfolding append_group group delete_group hosts_of
fold_silent keys [] buckets = buckets
fold_silent keys (key ∷ todo) buckets =
    fold_silent keys todo
      (if eqb key.discriminator [] then join_host key buckets (hosts_of key keys) else buckets)

-- The first pass of `partitionByCompatibility`.
unfoldable pub bucket_all : Buckets → List Attributed → Buckets
unfolding append_group
bucket_all buckets [] = buckets
bucket_all buckets (af ∷ rest) =
    bucket_all (append_group same_key buckets (mergeable af.finding) (af ∷ [])) rest

abbrev pub keys_of : {K : Type 0} → Groups K → List K
keys_of groups = map (λ g. g.0) groups

abbrev pub partition_buckets : Buckets → List (List Attributed)
partition_buckets buckets =
    sorted_groups compare_keys (fold_silent (keys_of buckets) (keys_of buckets) buckets)

unfoldable pub partition_by_compatibility : List Attributed → List (List Attributed)
unfolding bucket_all fold_silent sorted_groups
partition_by_compatibility [] = [] ∷ []
partition_by_compatibility (af ∷ []) = (af ∷ []) ∷ []
partition_by_compatibility (af ∷ bf ∷ rest) = partition_buckets (bucket_all [] (af ∷ bf ∷ rest))
