-- ===== src/Domain/Graph/Builder/Preserved.antt =====
-- Every operation of the builder keeps the invariant, so every builder is well-formed.
use svcdoctor.Base.{true, false, [], ◌∷◌, ◌++◌, ◌≡◌, refl, ◌↔◌, arith}
use svcdoctor.Base.Bytes.{eqb, member, eqb_iff}
use svcdoctor.Base.Result.{ok}
use svcdoctor.Domain.Vocabulary.{is_skipped}
use svcdoctor.Domain.Evidence.{Evidence, evidence_is_zero, new_evidence}
use svcdoctor.Domain.Evidence.Accepted.{new_evidence-Recorded}
use svcdoctor.Domain.Graph.Relation.{EvidenceId, Relation, targets, add_to_set, reachable}
use svcdoctor.Domain.Graph.Walk.{Walk}
use svcdoctor.Domain.Graph.Reachable.{reachable_iff}
use svcdoctor.Domain.Graph.Acyclic.{add_to_set-Acyclic}
use svcdoctor.Domain.Graph.Builder.Invariant.{
  WellFormed, EntryOk-append, SkippedEntry-append, keyed-append, EntryOk-add_to_set,
  SkippedEntry-add_to_set,
}
use svcdoctor.Domain.Graph.Builder.{
  has, state_of, node, GraphBuilder, new_graph_builder, add_evidence, add_parent, add_blocked_by,
}

-- What an accepted call has checked, and the builder that it leaves.
pub add_evidence-ok :
    (b b' : GraphBuilder) (e : Evidence)
    → add_evidence b e ≡ ok b'
    → (evidence_is_zero e ≡ false)
      × (has b.nodes e.id ≡ false)
      × (b' ≡ record b { nodes = b.nodes ++ (e.id, e) ∷ [] })
unfolding add_evidence
add_evidence-ok b b' e h = ground arith

pub add_parent-ok :
    (b b' : GraphBuilder) (child parent : EvidenceId)
    → add_parent b child parent ≡ ok b'
    → (has b.nodes child ≡ true)
      × (has b.nodes parent ≡ true)
      × (eqb child parent ≡ false)
      × (reachable b.parents parent child ≡ false)
      × (b' ≡ record b { parents = add_to_set b.parents child parent })
unfolding add_parent
add_parent-ok b b' child parent h = ground arith

pub add_blocked_by-ok :
    (b b' : GraphBuilder) (skipped blocker : EvidenceId)
    → add_blocked_by b skipped blocker ≡ ok b'
    → (has b.nodes skipped ≡ true)
      × (has b.nodes blocker ≡ true)
      × (eqb skipped blocker ≡ false)
      × (is_skipped (state_of b.nodes skipped) ≡ true)
      × (reachable b.blocked_by blocker skipped ≡ false)
      × (b' ≡ record b { blocked_by = add_to_set b.blocked_by skipped blocker })
unfolding add_blocked_by
add_blocked_by-ok b b' skipped blocker h = ground arith

eqb_flip : (a b : EvidenceId) → eqb a b ≡ false → eqb b a ≡ false
eqb_flip a b h = ground (arith, eqb_iff a b, eqb_iff b a)

no-Walk : (rel : Relation) (a b : EvidenceId) → reachable rel a b ≡ false → Walk rel a b → ⊥
no-Walk rel a b h w = cc ((reachable_iff rel a b).1 w)

no_edge : (u v : EvidenceId) → member v (targets [] u) ≡ true → ⊥
unfolding member targets
no_edge u v m = cc

new_graph_builder-WellFormed : WellFormed new_graph_builder
unfolding new_graph_builder
new_graph_builder-WellFormed = record {
  keyed = λ id e h. absurd (unfold node in cc);
  parents_present = tt;
  blocked_by_present = tt;
  blocked_skipped = tt;
  parents_acyclic = λ u v m w. absurd (no_edge u v m);
  blocked_by_acyclic = λ u v m w. absurd (no_edge u v m);
}

pub add_evidence-WellFormed :
    (b b' : GraphBuilder) (e : Evidence) → add_evidence b e ≡ ok b' → WellFormed b → WellFormed b'
add_evidence-WellFormed b b' e h w =
    let (_, _, after) = add_evidence-ok b b' e h in
    rw after (record {
      keyed = keyed-append b.nodes e w.keyed;
      parents_present = EntryOk-append b.nodes e b.parents w.parents_present;
      blocked_by_present = EntryOk-append b.nodes e b.blocked_by w.blocked_by_present;
      blocked_skipped =
          SkippedEntry-append b.nodes e b.blocked_by w.blocked_by_present w.blocked_skipped;
      parents_acyclic = w.parents_acyclic;
      blocked_by_acyclic = w.blocked_by_acyclic;
    })

pub add_parent-WellFormed :
    (b b' : GraphBuilder) (child parent : EvidenceId)
    → add_parent b child parent ≡ ok b'
    → WellFormed b
    → WellFormed b'
add_parent-WellFormed b b' child parent h w =
    let (hc, hp, ne, apart, after) = add_parent-ok b b' child parent h in
    rw after (record {
      keyed = w.keyed;
      parents_present =
          EntryOk-add_to_set b.nodes child parent b.parents hc (hp, eqb_flip child parent ne)
            w.parents_present;
      blocked_by_present = w.blocked_by_present;
      blocked_skipped = w.blocked_skipped;
      parents_acyclic =
          add_to_set-Acyclic b.parents child parent (no-Walk b.parents parent child apart)
            w.parents_acyclic;
      blocked_by_acyclic = w.blocked_by_acyclic;
    })

pub add_blocked_by-WellFormed :
    (b b' : GraphBuilder) (skipped blocker : EvidenceId)
    → add_blocked_by b skipped blocker ≡ ok b'
    → WellFormed b
    → WellFormed b'
add_blocked_by-WellFormed b b' skipped blocker h w =
    let (hs, hb, ne, is, apart, after) = add_blocked_by-ok b b' skipped blocker h in
    rw after (record {
      keyed = w.keyed;
      parents_present = w.parents_present;
      blocked_by_present =
          EntryOk-add_to_set b.nodes skipped blocker b.blocked_by hs
            (hb, eqb_flip skipped blocker ne) w.blocked_by_present;
      blocked_skipped =
          SkippedEntry-add_to_set b.nodes skipped blocker b.blocked_by is w.blocked_skipped;
      parents_acyclic = w.parents_acyclic;
      blocked_by_acyclic =
          add_to_set-Acyclic b.blocked_by skipped blocker
            (no-Walk b.blocked_by blocker skipped apart) w.blocked_by_acyclic;
    })

-- The builders that accepted calls lead to; a refused call leaves the builder as it was.
pub data Built : GraphBuilder → Type 0 where
  empty : Built new_graph_builder
  evidence : {b b' : GraphBuilder} (e : Evidence) → Built b → add_evidence b e ≡ ok b' → Built b'
  parent :
      {b b' : GraphBuilder} (child parent : EvidenceId)
      → Built b
      → add_parent b child parent ≡ ok b'
      → Built b'
  blocker :
      {b b' : GraphBuilder} (skipped blocker : EvidenceId)
      → Built b
      → add_blocked_by b skipped blocker ≡ ok b'
      → Built b'

-- Every builder that a sequence of accepted calls reaches is well-formed: nodes under their own
-- ids, edges between present ids, only skipped evidence blocked, and no cycle in either relation.
pub Built-WellFormed : {b : GraphBuilder} → Built b → WellFormed b
Built-WellFormed empty = new_graph_builder-WellFormed
Built-WellFormed (evidence {b} {b'} e r h) = add_evidence-WellFormed b b' e h (Built-WellFormed r)
Built-WellFormed (parent {b} {b'} c p r h) = add_parent-WellFormed b b' c p h (Built-WellFormed r)
Built-WellFormed (blocker {b} {b'} s k r h) =
    add_blocked_by-WellFormed b b' s k h (Built-WellFormed r)

-- Evidence that `NewEvidence` accepted is added to a builder exactly when its id is not there yet.
pub new_evidence-add_evidence :
    (b : GraphBuilder) (e out : Evidence)
    → new_evidence e ≡ ok out
    → ((b' : GraphBuilder) × (add_evidence b out ≡ ok b')) ↔ (has b.nodes out.id ≡ false)
unfolding add_evidence
new_evidence-add_evidence b e out h =
    let (same, r) = new_evidence-Recorded e out h in
    let not_zero : evidence_is_zero out ≡ false = rw same r.not_zero in
    (
      λ (b', added). (add_evidence-ok b b' out added).1,
      λ free. (record b { nodes = b.nodes ++ (out.id, out) ∷ [] }, rw (not_zero, free) refl),
    )
