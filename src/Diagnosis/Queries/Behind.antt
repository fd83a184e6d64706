-- ===== src/Diagnosis/Queries/Behind.antt =====
-- `BlockedChain` of internal/diagnosis/graphquery.go finds all that an id blocks, directly or not.
use svcdoctor.Base.{
  ℕ, zero, suc, ◌+◌, ◌≤◌, ◌<◌, true, false, not, ◌&&◌, ◌||◌, List, [], ◌∷◌, any, some, length, ◌≡◌,
  ◌↔◌, refl, sym, ◌∙◌, inl, inr, arith, Bool-cases, List-cases, subst,
}
use svcdoctor.Base.Bytes.{eqb, member, eqb_iff, eqb_refl, member-sort}
use svcdoctor.Domain.Evidence.{Evidence}
use svcdoctor.Domain.Graph.Relation.{EvidenceId, targets, edge_count}
use svcdoctor.Domain.Graph.Walk.{Walk, here, step}
use svcdoctor.Domain.Graph.Builder.{Graph, Frozen, append_parents}
use svcdoctor.Domain.Graph.Builder.Frozen.{targets-append_parents}
use svcdoctor.Domain.Summary.{nodes_of}
use svcdoctor.Diagnosis.Queries.{
  blocks_of, Chain, visit_blocked, chain_loop, chain_from, blocked_chain,
}
use svcdoctor.Diagnosis.Queries.Rounds.{
  ends, length-ends, targets-ends, unseen, visit_blocked_lem, visit_blocked_measure,
}

-- The loop, between two rounds.
record Inv (blocks : Frozen) (start : EvidenceId) (c : Chain) : Type 0 where
  marked : (x : EvidenceId) → member x c.visited ≡ (eqb start x || member x c.out)
  queued : (x : EvidenceId) → member x c.queue ≡ true → member x c.visited ≡ true
  start_out : member start c.out ≡ false
  reached : (x : EvidenceId) → member x c.visited ≡ true → Walk blocks start x
  closed :
      (x : EvidenceId)
      → member x c.visited ≡ true
      → member x c.queue ≡ false
      → (y : EvidenceId) → member y (targets blocks x) ≡ true
      → member y c.visited ≡ true

-- Once the queue is empty, the visited ids are those that a walk reaches.
Walk-visited :
    (blocks : Frozen) (start : EvidenceId) (c : Chain)
    → Inv blocks start c
    → c.queue ≡ []
    → (x : EvidenceId) → Walk blocks start x
    → member x c.visited ≡ true
Walk-visited blocks start c inv empty x here = rw (inv.marked x, eqb_refl x) refl
Walk-visited blocks start c inv empty x (step {u} w m) =
    inv.closed u (Walk-visited blocks start c inv empty u w) (rw empty (unfold member in refl)) x m

module _ (blocks : Frozen) (start current : EvidenceId) (queue : List EvidenceId) (c : Chain)
    (inv : Inv blocks start c) (next : c.queue ≡ current ∷ queue) where
  abbrev popped : Chain
  popped = record c { queue = queue }

  abbrev visited_next : Chain
  visited_next = visit_blocked popped (targets blocks current)

  current_visited : member current c.visited ≡ true
  current_visited = inv.queued current (rw next (unfold member in ground (arith, eqb_refl current)))

  added :
      (x : EvidenceId)
      → (member x visited_next.visited ≡ (member x c.visited || member x (targets blocks current)))
        × (member x visited_next.out
            ≡ (member x c.out || (member x (targets blocks current) && not (member x c.visited))))
        × (member x visited_next.queue
            ≡ (member x queue || (member x (targets blocks current) && not (member x c.visited))))
  added x = visit_blocked_lem popped (targets blocks current) x

  in_queue : (x : EvidenceId) → member x c.queue ≡ (eqb current x || member x queue)
  in_queue x = rw next (unfold member in refl)

  reach_next : (x : EvidenceId) → member x visited_next.visited ≡ true → Walk blocks start x
  reach_next x m = elim (Bool-cases (member x c.visited)) [
    | inl before ↦ inv.reached x before
    | inr new ↦ step (inv.reached current current_visited) (let a = added x in ground (arith, new))
  ]

  closed_next :
      (x : EvidenceId)
      → member x visited_next.visited ≡ true
      → member x visited_next.queue ≡ false
      → (y : EvidenceId) → member y (targets blocks x) ≡ true
      → member y visited_next.visited ≡ true
  closed_next x m n y t = elim (Bool-cases (eqb current x)) [
    | inl e ↦
        let same = (eqb_iff current x).0 e in
        let t' : member y (targets blocks current) ≡ true = rw same t in
        let a = added y in ground (arith, t')
    | inr ne ↦
        let a = added x in
        let before : member x c.visited ≡ true = ground (arith, a) in
        let out_of_queue : member x c.queue ≡ false = let q = in_queue x in ground (arith, a) in
        let old = inv.closed x before out_of_queue y t in let b = added y in ground (arith, old)
  ]

  start_visited : member start c.visited ≡ true
  start_visited = rw (inv.marked start, eqb_refl start) refl

  queued_next :
      (x : EvidenceId) → member x visited_next.queue ≡ true → member x visited_next.visited ≡ true
  queued_next x m = elim (Bool-cases (member x queue)) [
    | inl waits ↦
        let q = in_queue x in
        let before = inv.queued x (ground (arith, waits)) in
        let a = added x in ground (arith, before)
    | inr new ↦ let a = added x in ground (arith, new)
  ]

  visit_blocked-Inv : Inv blocks start visited_next
  visit_blocked-Inv = record {
    marked = λ x. let a = added x in let k = inv.marked x in ground arith;
    queued = queued_next;
    start_out = let a = added start in let k = inv.start_out in ground (arith, start_visited);
    reached = reach_next;
    closed = closed_next;
  }

chain_loop_lem :
    (fuel : ℕ) (blocks : Frozen) (start : EvidenceId) (c : Chain)
    → Inv blocks start c
    → unseen c.visited (ends blocks) + length c.queue < fuel
    → (d : Chain) × (chain_loop fuel blocks c ≡ some d.out) × Inv blocks start d × (d.queue ≡ [])
unfolding chain_loop
chain_loop_lem zero blocks start c inv enough = absurd (omega arith)
chain_loop_lem (suc fuel) blocks start c inv enough = elim (List-cases c.queue) [
  | inl empty ↦ (c, rw empty refl, inv, empty)
  | inr (current, queue, next) ↦
      let smaller =
        visit_blocked_measure (ends blocks) (popped blocks start current queue c inv next)
          (targets blocks current) (targets-ends blocks current) in
      let long : length c.queue ≡ suc (length queue) = rw next refl in
      let (d, returns, final, empty) =
        chain_loop_lem fuel blocks start (visited_next blocks start current queue c inv next)
          (visit_blocked-Inv blocks start current queue c inv next) (omega arith) in
      (d, rw next returns, final, empty)
]

unseen-le-length : (visited us : List EvidenceId) → unseen visited us ≤ length us
unfolding unseen
unseen-le-length visited [] = omega arith
unseen-le-length visited (u ∷ us) = ground (arith, unseen-le-length visited us)

chain_from-Inv : (blocks : Frozen) (id : EvidenceId) → Inv blocks id (chain_from id)
chain_from-Inv blocks id = record {
  marked = λ x. unfold member in refl;
  queued = λ x m. m;
  start_out = unfold member in refl;
  reached = λ x m.
      let same : id ≡ x = unfold member in ground (arith, m, eqb_iff id x) in
      subst (Walk blocks id) same here;
  closed = λ x m n y t. absurd (cc);
}

-- The fuel is enough, and what returns are the ids that a walk reaches from `id`.
blocked_chain-Walk :
    (g : Graph) (id x : EvidenceId)
    → (member x (blocked_chain g id) ≡ true)
      ↔ ((eqb id x ≡ false) × Walk (blocks_of g [] (nodes_of g)) id x)
unfolding blocked_chain
blocked_chain-Walk g id x =
    let blocks = blocks_of g [] (nodes_of g) in
    let (d, returns, inv, empty) =
      chain_loop_lem (edge_count blocks + 2) blocks id (chain_from id) (chain_from-Inv blocks id)
        (omega (arith, unseen-le-length (id ∷ []) (ends blocks), length-ends blocks)) in
    let same : member x (blocked_chain g id) ≡ member x d.out = rw returns (member-sort x d.out) in
    (
      λ m.
          let visited : member x d.visited ≡ true =
            let k = inv.marked x in
            let inside : member x d.out ≡ true = sym same ∙ m in ground (arith, inside) in
          (away d.out inv.start_out (sym same ∙ m), inv.reached x visited),
      λ (other, w).
          let visited = Walk-visited blocks id d inv empty x w in
          let inside : member x d.out ≡ true =
            let k = inv.marked x in ground (arith, other, visited) in
          same ∙ inside,
    )
  where
    away : (out : List EvidenceId) → member id out ≡ false → member x out ≡ true → eqb id x ≡ false
    away out outside inside = elim (Bool-cases (eqb id x)) [
      | inl e ↦ absurd (let moved : member x out ≡ false = rw (← (eqb_iff id x).0 e) outside in cc)
      | inr ne ↦ ne
    ]

-- The ids that are blocked by `id`, directly or not: the frozen nodes whose `BlockedBy` leads to it.
pub data Behind (g : Graph) (id : EvidenceId) : EvidenceId → Type 0 where
  itself : Behind g id id
  next :
      {u v : EvidenceId}
      → Behind g id u
      → any (λ e. eqb e.id v) (nodes_of g) ≡ true
      → member u (targets g.blocked_by v) ≡ true
      → Behind g id v

targets-blocks_of :
    (g : Graph) (blocks : Frozen) (nodes : List Evidence) (u v : EvidenceId)
    → member v (targets (blocks_of g blocks nodes) u) ≡ (
        member v (targets blocks u)
        || (any (λ e. eqb e.id v) nodes && member u (targets g.blocked_by v)))
unfolding blocks_of
targets-blocks_of g blocks [] u v = ground arith
targets-blocks_of g blocks (node ∷ nodes) u v = ground (
  arith,
  targets-blocks_of g (append_parents blocks node.id (targets g.blocked_by node.id)) nodes u v,
  targets-append_parents blocks node.id (targets g.blocked_by node.id) u v,
  eqb_iff node.id v,
)

module _ (g : Graph) (id : EvidenceId) where
  abbrev blocks : Frozen
  blocks = blocks_of g [] (nodes_of g)

  Walk-Behind : {x : EvidenceId} → Walk blocks id x → Behind g id x
  Walk-Behind here = itself
  Walk-Behind (step {u} {v} w m) =
      let known = targets-blocks_of g [] (nodes_of g) u v in
      let none : member v (targets [] u) ≡ false = unfold targets member in refl in
      next (Walk-Behind w) (ground (arith, m)) (ground (arith, m))

  Behind-Walk : {x : EvidenceId} → Behind g id x → Walk blocks id x
  Behind-Walk itself = here
  Behind-Walk (next {u} {v} b present edge) =
      let known = targets-blocks_of g [] (nodes_of g) u v in
      step (Behind-Walk b) (ground (arith, present, edge))

-- The chain behind an id is computed for every graph, cycles included: it holds an id exactly if
-- that is another id, of a node of the graph, which is blocked by the first, directly or through
-- others.
pub blocked_chain-Behind :
    (g : Graph) (id x : EvidenceId)
    → (member x (blocked_chain g id) ≡ true) ↔ ((eqb id x ≡ false) × Behind g id x)
blocked_chain-Behind g id x =
    let walks = blocked_chain-Walk g id x in
    (
      λ m. let (other, w) = walks.0 m in (other, Walk-Behind g id w),
      λ (other, b). walks.1 (other, Behind-Walk g id b),
    )
