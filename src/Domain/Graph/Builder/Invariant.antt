-- ===== src/Domain/Graph/Builder/Invariant.antt =====
-- What holds of every builder of internal/domain/graphbuilder.go, after any calls.
use svcdoctor.Base.{
  true, false, List, [], ◌∷◌, ◌++◌, none, some, All, if◌then◌else◌, ◌≡◌, refl, sym, inl, inr, arith,
  Bool-cases, Option-cases,
}
use svcdoctor.Base.Bytes.{eqb, member, eqb_iff}
use svcdoctor.Domain.Vocabulary.{is_skipped}
use svcdoctor.Domain.Evidence.{Evidence}
use svcdoctor.Domain.Graph.Relation.{EvidenceId, Relation, add_member, add_to_set}
use svcdoctor.Domain.Graph.Acyclic.{Acyclic}
use svcdoctor.Domain.Graph.Builder.{Nodes, node, has, state_of, GraphBuilder}

-- An edge from `from` leads to a present id other than `from`.
abbrev pub EdgeOk : Nodes → EvidenceId → EvidenceId → Type 0
EdgeOk nodes from to = (has nodes to ≡ true) × (eqb to from ≡ false)

abbrev pub EntryOk : Nodes → EvidenceId × List EvidenceId → Type 0
EntryOk nodes entry = (has nodes entry.0 ≡ true) × All (EdgeOk nodes entry.0) entry.1

abbrev pub SkippedEntry : Nodes → EvidenceId × List EvidenceId → Type 0
SkippedEntry nodes entry = is_skipped (state_of nodes entry.0) ≡ true

pub record WellFormed (b : GraphBuilder) : Type 0 where
  -- Every node stands under its own id.
  pub keyed : (id : EvidenceId) (e : Evidence) → node b.nodes id ≡ some e → e.id ≡ id
  -- Every edge joins two present ids.
  pub parents_present : All (EntryOk b.nodes) b.parents
  pub blocked_by_present : All (EntryOk b.nodes) b.blocked_by
  -- Only skipped evidence is blocked.
  pub blocked_skipped : All (SkippedEntry b.nodes) b.blocked_by
  pub parents_acyclic : Acyclic b.parents
  pub blocked_by_acyclic : Acyclic b.blocked_by

-- A present id keeps its evidence when another is added.
node-append :
    (nodes : Nodes) (e : Evidence) (id : EvidenceId)
    → node (nodes ++ (e.id, e) ∷ []) id
      ≡ elim (node nodes id) [ none ↦ (if eqb e.id id then some e else none) | some f ↦ some f ]
unfolding node
node-append [] e id = refl
node-append ((k, f) ∷ nodes) e id = ground (arith, node-append nodes e id)

has-append :
    (nodes : Nodes) (e : Evidence) (id : EvidenceId)
    → has nodes id ≡ true
    → (has (nodes ++ (e.id, e) ∷ []) id ≡ true)
      × (state_of (nodes ++ (e.id, e) ∷ []) id ≡ state_of nodes id)
has-append nodes e id h = ground (arith, node-append nodes e id)

module _ (nodes : Nodes) (e : Evidence) where
  EdgeOk-append :
      (from : EvidenceId) (tos : List EvidenceId)
      → All (EdgeOk nodes from) tos
      → All (EdgeOk (nodes ++ (e.id, e) ∷ []) from) tos
  EdgeOk-append from [] h = tt
  EdgeOk-append from (to ∷ tos) h =
      (((has-append nodes e to h.0.0).0, h.0.1), EdgeOk-append from tos h.1)

  pub EntryOk-append :
      (rel : Relation) → All (EntryOk nodes) rel → All (EntryOk (nodes ++ (e.id, e) ∷ [])) rel
  EntryOk-append [] h = tt
  EntryOk-append ((k, tos) ∷ rel) h =
      (((has-append nodes e k h.0.0).0, EdgeOk-append k tos h.0.1), EntryOk-append rel h.1)

  pub SkippedEntry-append :
      (rel : Relation)
      → All (EntryOk nodes) rel
      → All (SkippedEntry nodes) rel
      → All (SkippedEntry (nodes ++ (e.id, e) ∷ [])) rel
  SkippedEntry-append [] p h = tt
  SkippedEntry-append ((k, tos) ∷ rel) p h =
      (rw ((has-append nodes e k p.0.0).1) h.0, SkippedEntry-append rel p.1 h.1)

  pub keyed-append :
      ((id : EvidenceId) (f : Evidence) → node nodes id ≡ some f → f.id ≡ id)
      → (id : EvidenceId) (f : Evidence) → node (nodes ++ (e.id, e) ∷ []) id ≡ some f
      → f.id ≡ id
  keyed-append old id f h = elim (Option-cases (node nodes id)) [
    | inr (g, at) ↦ old id f (ground (arith, node-append nodes e id))
    | inl free ↦ elim (Bool-cases (eqb e.id id)) [
      | inl same ↦
          let at_e : e ≡ f = ground (arith, node-append nodes e id) in
          rw (← at_e) ((eqb_iff e.id id).0 same)
      | inr other ↦ absurd (ground (arith, node-append nodes e id))
    ]
  ]

module _ (nodes : Nodes) (from to : EvidenceId) where
  EdgeOk-add_member :
      (tos : List EvidenceId)
      → EdgeOk nodes from to
      → All (EdgeOk nodes from) tos
      → All (EdgeOk nodes from) (add_member to tos)
  unfolding add_member
  EdgeOk-add_member tos new h = elim (Bool-cases (member to tos)) [
    | inl old ↦ rw old h
    | inr fresh ↦ rw fresh (at_end tos h)
  ]
    where
      at_end :
          (xs : List EvidenceId)
          → All (EdgeOk nodes from) xs
          → All (EdgeOk nodes from) (xs ++ to ∷ [])
      at_end [] h = (new, tt)
      at_end (x ∷ xs) h = (h.0, at_end xs h.1)

pub EntryOk-add_to_set :
    (nodes : Nodes) (from to : EvidenceId) (rel : Relation)
    → has nodes from ≡ true
    → EdgeOk nodes from to
    → All (EntryOk nodes) rel
    → All (EntryOk nodes) (add_to_set rel from to)
unfolding add_to_set
EntryOk-add_to_set nodes from to [] p new h = ((p, (new, tt)), tt)
EntryOk-add_to_set nodes from to ((k, tos) ∷ rel) p new h = elim (Bool-cases (eqb k from)) [
  | inl same ↦
      let e : from ≡ k = sym ((eqb_iff k from).0 same) in
      let new' : EdgeOk nodes k to = rw e at new in
      rw same ((h.0.0, EdgeOk-add_member nodes k to tos new' h.0.1), h.1)
  | inr other ↦ rw other (h.0, EntryOk-add_to_set nodes from to rel p new h.1)
]

pub SkippedEntry-add_to_set :
    (nodes : Nodes) (from to : EvidenceId) (rel : Relation)
    → is_skipped (state_of nodes from) ≡ true
    → All (SkippedEntry nodes) rel
    → All (SkippedEntry nodes) (add_to_set rel from to)
unfolding add_to_set
SkippedEntry-add_to_set nodes from to [] p h = (p, tt)
SkippedEntry-add_to_set nodes from to ((k, tos) ∷ rel) p h = elim (Bool-cases (eqb k from)) [
  | inl same ↦ rw same h
  | inr other ↦ rw other (h.0, SkippedEntry-add_to_set nodes from to rel p h.1)
]
