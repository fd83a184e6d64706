-- ===== src/Domain/Graph/Reachable.antt =====
-- `reachable` of internal/domain/graphbuilder.go against walks along a relation.
pub mod Rounds
use svcdoctor.Base.{
  ℕ, zero, suc, ◌+◌, ◌≤◌, ◌<◌, true, false, ◌||◌, List, [], ◌∷◌, none, some, length, if◌then◌else◌,
  ◌≡◌, refl, sym, ◌∙◌, subst, ◌↔◌, inl, inr, arith, Bool-cases, Option-cases,
}
use svcdoctor.Base.Bytes.{eqb, member, eqb_iff, eqb_refl}
use svcdoctor.Domain.Graph.Relation.{
  EvidenceId, Relation, targets, push_all, reach_loop, edge_count, reachable,
}
use svcdoctor.Domain.Graph.Walk.{Walk, here, step}
use svcdoctor.Domain.Graph.Reachable.Rounds.{
  unseen, unseen-empty, unseen_visit, push_all-some, reach_loop_skip, reach_loop_hit,
  reach_loop_push, reach_loop_sound,
}

-- What a search that found nothing has seen.
record Closed (rel : Relation) (target : EvidenceId) (s : List EvidenceId) : Type 0 where
  closed :
      (x y : EvidenceId)
      → member x s ≡ true
      → member y (targets rel x) ≡ true
      → (member y s ≡ true) × (eqb y target ≡ false)

-- Every successor of a seen id is seen or on the stack, and is not the target.
abbrev Pending : Relation → EvidenceId → List EvidenceId → List EvidenceId → Type 0
Pending rel target seen stack =
    (x y : EvidenceId)
    → member x seen ≡ true
    → member y (targets rel x) ≡ true
    → ((member y seen || member y stack) ≡ true) × (eqb y target ≡ false)

abbrev Covered : List EvidenceId → List EvidenceId → List EvidenceId → Type 0
Covered seen stack s =
    (x : EvidenceId) → (member x seen || member x stack) ≡ true → member x s ≡ true

Pending-skip :
    (rel : Relation) (target c : EvidenceId) (seen stack : List EvidenceId)
    → member c seen ≡ true
    → Pending rel target seen (c ∷ stack)
    → Pending rel target seen stack
unfolding member
Pending-skip rel target c seen stack old inv x y mx my = ground (arith, inv x y mx my, eqb_iff c y)

Pending-push :
    (rel : Relation) (target c : EvidenceId) (seen stack pushed : List EvidenceId)
    → member target (targets rel c) ≡ false
    → ((x : EvidenceId) → member x pushed ≡ (member x (targets rel c) || member x stack))
    → Pending rel target seen (c ∷ stack)
    → Pending rel target (c ∷ seen) pushed
unfolding member
Pending-push rel target c seen stack pushed free mem inv x y mx my = elim (Bool-cases (eqb c x)) [
  | inl same ↦
      let e : c ≡ x = (eqb_iff c x).0 same in
      let my' : member y (targets rel c) ≡ true = rw e my in (ground (arith, mem y), not_target my')
  | inr other ↦
      let old : member x seen ≡ true = ground arith in
      (ground (arith, mem y, inv x y old my), (inv x y old my).1)
]
  where
    not_target : member y (targets rel c) ≡ true → eqb y target ≡ false
    not_target my' = elim (Bool-cases (eqb y target)) [
      | inl hit ↦ absurd (ground (arith, (eqb_iff y target).0 hit))
      | inr miss ↦ miss
    ]

reach_loop_complete :
    (fuel : ℕ) (rel : Relation) (target : EvidenceId) (seen stack : List EvidenceId)
    → Pending rel target seen stack
    → length stack + unseen rel seen < fuel
    → reach_loop fuel rel target seen stack ≡ false
    → (s : List EvidenceId) × Closed rel target s × Covered seen stack s
unfolding reach_loop
reach_loop_complete zero rel target seen stack inv h e = absurd (omega arith)
reach_loop_complete (suc fuel) rel target seen [] inv h e =
    (seen, record { closed = λ x y mx my. nothing_left x y mx my }, λ x m. seen_only x m)
  where
    seen_only : (x : EvidenceId) → (member x seen || member x []) ≡ true → member x seen ≡ true
    seen_only x m = unfold member in ground arith

    nothing_left :
        (x y : EvidenceId)
        → member x seen ≡ true
        → member y (targets rel x) ≡ true
        → (member y seen ≡ true) × (eqb y target ≡ false)
    nothing_left x y mx my = (seen_only y (inv x y mx my).0, (inv x y mx my).1)
reach_loop_complete (suc fuel) rel target seen (c ∷ stack) inv h e =
    elim (Bool-cases (member c seen)) [
      | inl old ↦
          let (s, closed, cover) =
            reach_loop_complete fuel rel target seen stack
              (Pending-skip rel target c seen stack old inv) (omega arith)
              (rw (reach_loop_skip fuel rel target seen c stack old) at e) in
          (s, closed, λ x m. cover x (Covered-skip x old m))
      | inr new ↦ elim (Option-cases (push_all target (targets rel c) stack)) [
        | inl hit ↦ absurd (cc (reach_loop_hit fuel rel target seen c stack new hit))
        | inr (pushed, more) ↦
            let (len, free, mem) = push_all-some target (targets rel c) stack pushed more in
            let (s, closed, cover) =
              reach_loop_complete fuel rel target (c ∷ seen) pushed
                (Pending-push rel target c seen stack pushed free mem inv)
                (omega (arith, len, unseen_visit rel seen c new))
                (rw (reach_loop_push fuel rel target seen c stack pushed new more) at e) in
            (s, closed, λ x m. cover x (Covered-push x pushed mem m))
      ]
    ]
  where
    Covered-skip :
        (x : EvidenceId)
        → member c seen ≡ true
        → (member x seen || member x (c ∷ stack)) ≡ true
        → (member x seen || member x stack) ≡ true
    Covered-skip x old m = unfold member in ground (arith, eqb_iff c x)

    Covered-push :
        (x : EvidenceId) (pushed : List EvidenceId)
        → ((y : EvidenceId) → member y pushed ≡ (member y (targets rel c) || member y stack))
        → (member x seen || member x (c ∷ stack)) ≡ true
        → (member x (c ∷ seen) || member x pushed) ≡ true
    Covered-push x pushed mem m = unfold member in ground (arith, mem x)

module _ (rel : Relation) where
  Closed-Walk :
      {s : List EvidenceId} {target a b : EvidenceId}
      → Closed rel target s
      → Walk rel a b
      → member a s ≡ true
      → member b s ≡ true
  Closed-Walk k here m = m
  Closed-Walk k (step {u} {v} w e) m = (k.closed u v (Closed-Walk k w m) e).0

  Closed-no_Walk :
      {s : List EvidenceId} {target a b : EvidenceId}
      → Closed rel target s
      → Walk rel a b
      → member a s ≡ true
      → eqb a target ≡ false
      → eqb b target ≡ false
  Closed-no_Walk k here m ne = ne
  Closed-no_Walk k (step {u} {v} w e) m ne = (k.closed u v (Closed-Walk k w m) e).1

  reachable-of-Walk : (a b : EvidenceId) → Walk rel a b → reachable rel a b ≡ true
  unfolding reachable
  reachable-of-Walk a b w = elim (Bool-cases (eqb a b)) [
    | inl same ↦ rw same
    | inr differ ↦ elim (Bool-cases (reach_loop (suc (suc (edge_count rel))) rel b [] (a ∷ []))) [
      | inl found ↦ rw (differ, found)
      | inr missed ↦
          let (s, closed, cover) =
            reach_loop_complete (suc (suc (edge_count rel))) rel b [] (a ∷ [])
              (λ x y m. absurd (unfold member in cc)) (omega (arith, unseen-empty rel)) missed in
          let in_s : member a s ≡ true = cover a (unfold member in ground (arith, eqb_refl a)) in
          absurd (ground (arith, Closed-no_Walk closed w in_s differ, eqb_refl b))
    ]
  ]

  -- `reachable` holds exactly when there is a walk along the relation, of any length, from the
  -- first id to the second: the search never misses a walk and never runs out of rounds.
  pub reachable_iff : (a b : EvidenceId) → (reachable rel a b ≡ true) ↔ Walk rel a b
  unfolding reachable
  reachable_iff a b = (λ e. sound e, reachable-of-Walk a b)
    where
      start_walk : (x : EvidenceId) → member x (a ∷ []) ≡ true → Walk rel a x
      start_walk x m = subst (Walk rel a) ((eqb_iff a x).0 (unfold member in ground arith)) here

      sound : reachable rel a b ≡ true → Walk rel a b
      sound e = elim (Bool-cases (eqb a b)) [
        | inl same ↦ subst (Walk rel a) ((eqb_iff a b).0 same) here
        | inr differ ↦
            reach_loop_sound (suc (suc (edge_count rel))) rel a b [] (a ∷ []) start_walk
              (rw differ at e)
      ]
