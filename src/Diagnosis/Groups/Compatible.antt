-- ===== src/Diagnosis/Groups/Compatible.antt =====
-- `partitionByCompatibility` of internal/diagnosis/converge.go: the findings of one part state one
-- claim and ask at most one question.
use svcdoctor.Base.{
  true, false, not, ◌&&◌, List, [], ◌∷◌, map, All, ◌≡◌, ◌≢◌, ◌⊎◌, refl, sym, ap, ◌∙◌, inl, inr,
  arith, Bool-cases,
}
use svcdoctor.Base.Bytes.{Bytes, eqb, eqb_iff, eqb_refl}
use svcdoctor.Base.Sort.Kept.{sort_by-All}
use svcdoctor.Base.Sort.{sort_by}
use svcdoctor.Diagnosis.Groups.{
  Attributed, SemanticIdentity, same_identity, MergeKey, mergeable, same_claim, same_key,
  append_group, group, sorted_groups, hosts_of, Buckets, join_host, fold_silent, bucket_all,
  keys_of, compare_keys, partition_by_compatibility,
}
use svcdoctor.Diagnosis.Groups.Permuted.{Host, hosts_of-Host, apart}
use svcdoctor.Diagnosis.Groups.Kept.{
  layer_rank_injective, subject_kind_rank_injective, has_key, has_key-append_group,
  has_key-delete_group, Kept, append_group-Kept, delete_group-Kept, group-All,
}

pub same_identity→eq : (a b : SemanticIdentity) → same_identity a b ≡ true → a ≡ b
same_identity→eq a b h = ground (
  arith,
  eqb_iff a.code b.code,
  eqb_iff a.subject.ref b.subject.ref,
  subject_kind_rank_injective a.subject.kind b.subject.kind,
)

pub same_key→eq : (a b : MergeKey) → same_key a b ≡ true → a ≡ b
same_key→eq a b h = ground (
  arith,
  eqb_iff a.summary b.summary,
  eqb_iff a.detail b.detail,
  eqb_iff a.discriminator b.discriminator,
  layer_rank_injective a.layer b.layer,
)

same_key_refl : (a : MergeKey) → same_key a a ≡ true
same_key_refl a = ground (arith, eqb_refl a.summary, eqb_refl a.detail, eqb_refl a.discriminator)

-- The finding states the claim of the key, and asks its question or none.
abbrev pub Belongs : MergeKey → Attributed → Type 0
Belongs k a =
    (a.finding.layer ≡ k.layer)
    × (a.finding.summary ≡ k.summary)
    × (a.finding.detail ≡ k.detail)
    × ((a.finding.discriminator ≡ k.discriminator) ⊎ (a.finding.discriminator ≡ []))

-- A silent finding that agrees with the host on the claim belongs under the host.
silent-Belongs :
    (key host k : MergeKey) (a : Attributed)
    → eqb key.discriminator [] ≡ true
    → same_claim host key ≡ true
    → same_key k key ≡ true
    → Belongs k a
    → Belongs host a
silent-Belongs key host k a silent agrees e (layer, summary, detail, question) =
    let same = same_key→eq k key e in
    let empty = (eqb_iff key.discriminator []).0 silent in
    (
      layer ∙ ap (λ k. k.layer) same ∙ sym (claim host key agrees).0,
      summary ∙ ap (λ k. k.summary) same ∙ sym (claim host key agrees).1,
      detail ∙ ap (λ k. k.detail) same ∙ sym (claim host key agrees).2,
      inr (quiet (ap (λ k. k.discriminator) same ∙ empty) question),
    )
  where
    claim :
        (a b : MergeKey)
        → same_claim a b ≡ true
        → (a.layer ≡ b.layer) × (a.summary ≡ b.summary) × (a.detail ≡ b.detail)
    claim a b h = ground (
      arith,
      eqb_iff a.summary b.summary,
      eqb_iff a.detail b.detail,
      layer_rank_injective a.layer b.layer,
    )

    quiet : {d e : Bytes} → e ≡ [] → ((d ≡ e) ⊎ (d ≡ [])) → d ≡ []
    quiet p (inl q) = q ∙ p
    quiet p (inr q) = q

-- Every key that asks a question has its entry.
abbrev Asked : Buckets → List MergeKey → Type 0
Asked buckets = All λ k. eqb k.discriminator [] ≡ false → has_key same_key buckets k ≡ true

join_host-Asked :
    (key : MergeKey) (buckets : Buckets) (hosts keys : List MergeKey)
    → eqb key.discriminator [] ≡ true
    → Asked buckets keys
    → Asked (join_host key buckets hosts) keys
join_host-Asked key buckets [] keys silent h = h
join_host-Asked key buckets (host ∷ []) keys silent h = each keys h
  where
    each :
        (keys : List MergeKey) → Asked buckets keys → Asked (join_host key buckets (host ∷ [])) keys
    each [] h = tt
    each (k ∷ keys) h = (
      λ asks.
          has_key-delete_group same_key
            (append_group same_key buckets host (group same_key buckets key)) key k
            (apart key k silent asks)
            (has_key-append_group same_key buckets host k (group same_key buckets key) (h.0 asks)),
      each keys h.1,
    )
join_host-Asked key buckets (host ∷ other ∷ hosts) keys silent h = h

hosts_of-Asked :
    (key : MergeKey) (buckets : Buckets) (keys : List MergeKey)
    → Asked buckets keys
    → Asked buckets (hosts_of key keys)
unfolding hosts_of
hosts_of-Asked key buckets [] h = tt
hosts_of-Asked key buckets (k ∷ keys) h =
    elim (Bool-cases (not (eqb k.discriminator []) && same_claim k key)) [
      | inl found ↦ rw found (h.0, hosts_of-Asked key buckets keys h.1)
      | inr other ↦ rw other (hosts_of-Asked key buckets keys h.1)
    ]

keys_of-Asked : (buckets : Buckets) → Asked buckets (keys_of buckets)
keys_of-Asked buckets = each buckets buckets (λ k h. h)
  where
    each :
        (buckets part : Buckets)
        → ((k : MergeKey) → has_key same_key part k ≡ true → has_key same_key buckets k ≡ true)
        → Asked buckets (keys_of part)
    each buckets [] within = tt
    each buckets ((k, items) ∷ part) within = (
      λ asks. within k (unfold has_key in ground (arith, same_key_refl k)),
      each buckets part (λ j h. within j (unfold has_key in ground (arith, h))),
    )

-- The findings of a group that may be merged.
abbrev pub Part : List Attributed → Type 0
Part part = (k : MergeKey) × (part ≢ []) × All (Belongs k) part

module _ (Q : Attributed → Type 0) where
  -- Each member belongs under its key and satisfies `Q`.
  abbrev Fits : MergeKey → Attributed → Type 0
  Fits k a = Belongs k a × Q a

  abbrev AllKept : Buckets → Type 0
  AllKept = All (Kept same_key Fits)

  bucket_all-Kept :
      (buckets : Buckets) (items : List Attributed)
      → All Q items
      → AllKept buckets
      → AllKept (bucket_all buckets items)
  unfolding bucket_all
  bucket_all-Kept buckets [] q h = h
  bucket_all-Kept buckets (af ∷ rest) q h =
      let key = mergeable af.finding in
      bucket_all-Kept (append_group same_key buckets key (af ∷ [])) rest q.1 (
        append_group-Kept same_key Fits buckets key (af ∷ [])
          (λ k e. ((fits k (same_key→eq k key e), q.0), tt))
          (((refl, refl, refl, inl refl), q.0), tt) (inl (λ e. cc)) h)
    where
      fits : (k : MergeKey) → k ≡ mergeable af.finding → Belongs k af
      fits k e = (
        sym (ap (λ k. k.layer) e),
        sym (ap (λ k. k.summary) e),
        sym (ap (λ k. k.detail) e),
        inl (sym (ap (λ k. k.discriminator) e)),
      )

  join_host-Kept :
      (key : MergeKey) (buckets : Buckets) (hosts : List MergeKey)
      → eqb key.discriminator [] ≡ true
      → All (Host key) hosts
      → Asked buckets hosts
      → AllKept buckets
      → AllKept (join_host key buckets hosts)
  join_host-Kept key buckets [] silent hosts asked h = h
  join_host-Kept key buckets (host ∷ []) silent hosts asked h =
      let moved = group same_key buckets key in
      let belong : All (Fits host) moved =
        group-All same_key Fits (Fits host) buckets key
          (λ k e a b. (silent-Belongs key host k a silent hosts.0.1 e b.0, b.1)) h in
      delete_group-Kept same_key Fits (append_group same_key buckets host moved) key (
        append_group-Kept same_key Fits buckets host moved (λ k e. rw (same_key→eq k host e) belong)
          belong (inr (asked.0 hosts.0.0)) h)
  join_host-Kept key buckets (host ∷ other ∷ hosts) silent all asked h = h

  fold_silent-Kept :
      (keys todo : List MergeKey) (buckets : Buckets)
      → Asked buckets keys
      → AllKept buckets
      → AllKept (fold_silent keys todo buckets)
  unfolding fold_silent
  fold_silent-Kept keys [] buckets asked h = h
  fold_silent-Kept keys (key ∷ todo) buckets asked h =
      elim (Bool-cases (eqb key.discriminator [])) [
        | inl silent ↦
            let hosts = hosts_of key keys in
            rw silent (
              fold_silent-Kept keys todo (join_host key buckets hosts)
                (join_host-Asked key buckets hosts keys silent asked)
                (join_host-Kept key buckets hosts silent (hosts_of-Host key keys)
                  (hosts_of-Asked key buckets keys asked) h))
        | inr asks ↦ rw asks (fold_silent-Kept keys todo buckets asked h)
      ]

  -- Every part of a group that has a member is compatible.
  pub partition_by_compatibility-Part :
      (group : List Attributed)
      → group ≢ []
      → All Q group
      → All (λ part. Part part × All Q part) (partition_by_compatibility group)
  unfolding partition_by_compatibility sorted_groups
  partition_by_compatibility-Part [] h q = absurd (h refl)
  partition_by_compatibility-Part (af ∷ []) h q =
      (((mergeable af.finding, h, ((refl, refl, refl, inl refl), tt)), q), tt)
  partition_by_compatibility-Part (af ∷ bf ∷ rest) h q =
      let buckets = bucket_all [] (af ∷ bf ∷ rest) in
      let folded = fold_silent (keys_of buckets) (keys_of buckets) buckets in
      parts (sort_by (λ g h. compare_keys g.0 h.0) folded) (
        sort_by-All (λ g h. compare_keys g.0 h.0) (Kept same_key Fits) folded
          (fold_silent-Kept (keys_of buckets) (keys_of buckets) buckets (keys_of-Asked buckets)
            (bucket_all-Kept [] (af ∷ bf ∷ rest) q tt)))
    where
      both :
          (k : MergeKey) (items : List Attributed)
          → All (Fits k) items
          → All (Belongs k) items × All Q items
      both k [] h = (tt, tt)
      both k (a ∷ items) h = let (b, q) = both k items h.1 in ((h.0.0, b), (h.0.1, q))

      parts :
          (groups : Buckets)
          → AllKept groups
          → All (λ part. Part part × All Q part) (map (λ g. g.1) groups)
      parts [] h = tt
      parts ((k, items) ∷ groups) h =
          let (b, q) = both k items h.0.1 in (((k, h.0.0, b), q), parts groups h.1)
