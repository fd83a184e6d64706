-- ===== src/Domain/Graph/Builder/Frozen.antt =====
-- `Freeze` of internal/domain/graphbuilder.go on a well-formed builder: it succeeds, and the graph
-- holds the builder's relations, with `children` the inverse of `parents`.
use svcdoctor.Base.{
  true, false, ◌||◌, ◌&&◌, List, [], ◌∷◌, All, ◌≡◌, refl, sym, ◌∙◌, inl, inr, arith, Bool-cases,
}
use svcdoctor.Base.Bytes.{eqb, member, sort, eqb_iff, member-sort, member-concat}
use svcdoctor.Base.Result.{ok}
use svcdoctor.Domain.Graph.Relation.{EvidenceId, Relation, targets}
use svcdoctor.Domain.Graph.Acyclic.{Acyclic}
use svcdoctor.Domain.Graph.FindCycle.{Outcome, done, find_cycle}
use svcdoctor.Domain.Graph.FindCycle.Correct.{find_cycle_iff, is_done}
use svcdoctor.Domain.Graph.Builder.Invariant.{EdgeOk, EntryOk, SkippedEntry, WellFormed}
use svcdoctor.Domain.Graph.Builder.{
  Nodes, node, has, GraphBuilder, Frozen, Graph, check_targets, freeze_entries, no_cycle,
  freeze_relation, check_skipped, append_child, append_parents, derive_children, sort_entries,
  node_ids, freeze,
}

check_targets-ok :
    (nodes : Nodes) (from : EvidenceId) (tos : List EvidenceId)
    → All (EdgeOk nodes from) tos
    → check_targets nodes from tos ≡ ok tt
unfolding check_targets
check_targets-ok nodes from [] h = refl
check_targets-ok nodes from (to ∷ tos) h = rw (h.0.0, h.0.1) (check_targets-ok nodes from tos h.1)

freeze_entries-ok :
    (nodes : Nodes) (rel : Relation)
    → All (EntryOk nodes) rel
    → freeze_entries nodes rel ≡ ok (sort_entries rel)
unfolding freeze_entries sort_entries
freeze_entries-ok nodes [] h = refl
freeze_entries-ok nodes ((from, tos) ∷ rel) h =
    rw (h.0.0, check_targets-ok nodes from tos h.0.1, freeze_entries-ok nodes rel h.1)

no_cycle-ok : (o : Outcome) → is_done o ≡ true → no_cycle o ≡ ok tt
no_cycle-ok (done marks) h = refl
no_cycle-ok _ h = cc

freeze_relation-ok :
    (nodes : Nodes) (rel : Relation)
    → All (EntryOk nodes) rel
    → Acyclic rel
    → freeze_relation nodes rel ≡ ok (sort_entries rel)
unfolding freeze_relation
freeze_relation-ok nodes rel h acyclic =
    rw
      (freeze_entries-ok nodes rel h, no_cycle-ok (find_cycle rel) ((find_cycle_iff rel).1 acyclic))

check_skipped-ok :
    (nodes : Nodes) (rel : Relation)
    → All (SkippedEntry nodes) rel
    → check_skipped nodes rel ≡ ok tt
unfolding check_skipped
check_skipped-ok nodes [] h = refl
check_skipped-ok nodes ((id, tos) ∷ rel) h = rw (h.0) (check_skipped-ok nodes rel h.1)

targets-sort_entries :
    (rel : Relation) (x y : EvidenceId)
    → member y (targets (sort_entries rel) x) ≡ member y (targets rel x)
unfolding targets sort_entries
targets-sort_entries [] x y = refl
targets-sort_entries ((k, tos) ∷ rel) x y =
    ground (arith, targets-sort_entries rel x y, member-sort y tos)

targets-append_child :
    (children : Frozen) (parent child x y : EvidenceId)
    → member y (targets (append_child children parent child) x)
      ≡ (member y (targets children x) || (eqb parent x && eqb child y))
unfolding append_child targets member
targets-append_child [] parent child x y = ground arith
targets-append_child ((k, cs) ∷ children) parent child x y = ground (
  arith,
  targets-append_child children parent child x y,
  member-concat y child cs,
  eqb_iff k parent,
  eqb_iff k x,
  eqb_iff parent x,
)

pub targets-append_parents :
    (children : Frozen) (child : EvidenceId) (parents : List EvidenceId) (x y : EvidenceId)
    → member y (targets (append_parents children child parents) x)
      ≡ (member y (targets children x) || (member x parents && eqb child y))
unfolding append_parents member
targets-append_parents children child [] x y = ground arith
targets-append_parents children child (parent ∷ parents) x y = ground (
  arith,
  targets-append_parents (append_child children parent child) child parents x y,
  targets-append_child children parent child x y,
)

targets-derive_children :
    (children parents : Frozen) (order : List EvidenceId) (x y : EvidenceId)
    → member y (targets (derive_children children parents order) x)
      ≡ (member y (targets children x) || (member y order && member x (targets parents y)))
unfolding derive_children member
targets-derive_children children parents [] x y = ground arith
targets-derive_children children parents (child ∷ order) x y = ground (
  arith,
  targets-derive_children (append_parents children child (targets parents child)) parents order x y,
  targets-append_parents children child (targets parents child) x y,
  eqb_iff child y,
)

member-node_ids : (nodes : Nodes) (id : EvidenceId) → member id (node_ids nodes) ≡ has nodes id
unfolding member node_ids node
member-node_ids [] id = refl
member-node_ids ((k, e) ∷ nodes) id = ground (arith, member-node_ids nodes id)

-- A key of a relation of a well-formed builder is present.
source_present :
    (nodes : Nodes) (rel : Relation) (x y : EvidenceId)
    → All (EntryOk nodes) rel
    → member y (targets rel x) ≡ true
    → has nodes x ≡ true
unfolding targets member
source_present nodes [] x y h m = cc
source_present nodes ((k, tos) ∷ rel) x y h m = elim (Bool-cases (eqb k x)) [
  | inl same ↦ rw (← (eqb_iff k x).0 same) h.0.0
  | inr other ↦ source_present nodes rel x y h.1 (rw other at m)
]

-- What the frozen graph says, read off the builder.
pub record Freezes (b : GraphBuilder) (g : Graph) : Type 0 where
  pub same_nodes : g.nodes ≡ b.nodes
  pub order_lists : (id : EvidenceId) → member id g.order ≡ has b.nodes id
  pub parents_kept :
      (x y : EvidenceId) → member y (targets g.parents x) ≡ member y (targets b.parents x)
  pub blocked_by_kept :
      (x y : EvidenceId) → member y (targets g.blocked_by x) ≡ member y (targets b.blocked_by x)
  pub children_inverse :
      (x y : EvidenceId) → member y (targets g.children x) ≡ member x (targets g.parents y)

abbrev frozen : GraphBuilder → Graph
frozen b =
    let order = sort (node_ids b.nodes) in
    record {
      order = order;
      nodes = b.nodes;
      parents = sort_entries b.parents;
      children = sort_entries (derive_children [] (sort_entries b.parents) order);
      blocked_by = sort_entries b.blocked_by;
    }

no_targets : (y x : EvidenceId) → member y (targets [] x) ≡ false
unfolding member targets
no_targets y x = refl

children_inverse_lem :
    (b : GraphBuilder)
    → WellFormed b
    → (x y : EvidenceId)
    → member y (targets (frozen b).children x) ≡ member x (targets (sort_entries b.parents) y)
children_inverse_lem b w x y =
    let parents = sort_entries b.parents in
    let order = sort (node_ids b.nodes) in
    targets-sort_entries (derive_children [] parents order) x y
    ∙ targets-derive_children [] parents order x y
    ∙ (elim (Bool-cases (member x (targets parents y))) [
      | inl edge ↦
          let old : member x (targets b.parents y) ≡ true =
            sym (targets-sort_entries b.parents y x) ∙ edge in
          let here : member y order ≡ true =
            member-sort y (node_ids b.nodes)
            ∙ member-node_ids b.nodes y
            ∙ source_present b.nodes b.parents y x w.parents_present old in
          rw (edge, here, no_targets y x)
      | inr apart ↦ ground (arith, no_targets y x)
    ])

freeze-ok : (b : GraphBuilder) → WellFormed b → freeze b ≡ ok (frozen b)
unfolding freeze
freeze-ok b w = rw (
  freeze_relation-ok b.nodes b.parents w.parents_present w.parents_acyclic,
  freeze_relation-ok b.nodes b.blocked_by w.blocked_by_present w.blocked_by_acyclic,
  check_skipped-ok b.nodes b.blocked_by w.blocked_skipped,
)

-- `Freeze` accepts every well-formed builder. The graph has its nodes, lists exactly their ids,
-- keeps the two relations edge by edge, and its `children` is the inverse of its `parents`.
pub freeze-WellFormed :
    (b : GraphBuilder) → WellFormed b → (g : Graph) × (freeze b ≡ ok g) × Freezes b g
freeze-WellFormed b w = (
  frozen b,
  freeze-ok b w,
  record {
    same_nodes = refl;
    order_lists = λ id. member-sort id (node_ids b.nodes) ∙ member-node_ids b.nodes id;
    parents_kept = targets-sort_entries b.parents;
    blocked_by_kept = targets-sort_entries b.blocked_by;
    children_inverse = children_inverse_lem b w;
  },
)
