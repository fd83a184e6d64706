-- ===== src/Domain/Graph/Reachable/Rounds.antt =====
-- The rounds of `reachable`: what each does to the stack, and why a hit is a walk.
use svcdoctor.Base.{
  ℕ, zero, suc, ◌+◌, ◌≤◌, true, false, ◌||◌, List, [], ◌∷◌, none, some, length, if◌then◌else◌, ◌≡◌,
  refl, sym, ◌∙◌, inl, inr, arith, Bool-cases, Option-cases,
}
use svcdoctor.Base.Bytes.{eqb, member, eqb_iff, eqb_refl}
use svcdoctor.Domain.Graph.Relation.{
  EvidenceId, Relation, targets, push_all, reach_loop, edge_count,
}
use svcdoctor.Domain.Graph.Walk.{Walk, step}

-- The edges that leave unvisited ids.
pub unseen : Relation → List EvidenceId → ℕ
unseen [] seen = 0
unseen ((from, tos) ∷ rel) seen = (if member from seen then 0 else length tos) + unseen rel seen

pub unseen-empty : (rel : Relation) → unseen rel [] ≡ edge_count rel
unfolding unseen edge_count member
unseen-empty [] = refl
unseen-empty ((from, tos) ∷ rel) = omega (arith, unseen-empty rel)

unseen_mono :
    (rel : Relation) (seen : List EvidenceId) (c : EvidenceId)
    → unseen rel (c ∷ seen) ≤ unseen rel seen
unfolding unseen member
unseen_mono [] seen c = omega arith
unseen_mono ((from, tos) ∷ rel) seen c = ground (arith, unseen_mono rel seen c)

pub unseen_visit :
    (rel : Relation) (seen : List EvidenceId) (c : EvidenceId)
    → member c seen ≡ false
    → unseen rel (c ∷ seen) + length (targets rel c) ≤ unseen rel seen
unfolding unseen member targets
unseen_visit [] seen c h = omega arith
unseen_visit ((from, tos) ∷ rel) seen c h =
    ground
      (arith, unseen_visit rel seen c h, unseen_mono rel seen c, eqb_iff from c, eqb_iff c from)

-- What `push_all` leaves.
pub push_all-some :
    (target : EvidenceId) (nexts stack pushed : List EvidenceId)
    → push_all target nexts stack ≡ some pushed
    → (length pushed ≡ length nexts + length stack)
      × (member target nexts ≡ false)
      × ((x : EvidenceId) → member x pushed ≡ (member x nexts || member x stack))
unfolding push_all member
push_all-some target [] stack pushed e =
    let same : stack ≡ pushed = cc in rw (← same) (omega arith, refl, λ x. refl)
push_all-some target (next ∷ nexts) stack pushed e = elim (Bool-cases (eqb next target)) [
  | inl hit ↦ absurd (ground arith)
  | inr miss ↦
      let (len, free, mem) = push_all-some target nexts (next ∷ stack) pushed (rw miss at e) in
      (omega (arith, len), ground arith, λ x. ground (arith, mem x))
]

push_all_none :
    (target : EvidenceId) (nexts stack : List EvidenceId)
    → push_all target nexts stack ≡ none
    → member target nexts ≡ true
unfolding push_all member
push_all_none target [] stack e = cc
push_all_none target (next ∷ nexts) stack e =
    ground (arith, push_all_none target nexts (next ∷ stack))

-- One round of the loop, in its three cases.
module _ (fuel : ℕ) (rel : Relation) (target : EvidenceId) (seen : List EvidenceId) where
  module _ (c : EvidenceId) (stack : List EvidenceId) where
    pub reach_loop_skip :
        member c seen ≡ true
        → reach_loop (suc fuel) rel target seen (c ∷ stack) ≡ reach_loop fuel rel target seen stack
    unfolding reach_loop
    reach_loop_skip h = rw h

    pub reach_loop_hit :
        member c seen ≡ false
        → push_all target (targets rel c) stack ≡ none
        → reach_loop (suc fuel) rel target seen (c ∷ stack) ≡ true
    unfolding reach_loop
    reach_loop_hit h e = rw (h, e)

    pub reach_loop_push :
        (pushed : List EvidenceId)
        → member c seen ≡ false
        → push_all target (targets rel c) stack ≡ some pushed
        → reach_loop (suc fuel) rel target seen (c ∷ stack)
          ≡ reach_loop fuel rel target (c ∷ seen) pushed
    unfolding reach_loop
    reach_loop_push pushed h e = rw (h, e)

member-here : (c : EvidenceId) (stack : List EvidenceId) → member c (c ∷ stack) ≡ true
unfolding member
member-here c stack = ground (arith, eqb_refl c)

member-there :
    (x c : EvidenceId) (stack : List EvidenceId)
    → member x stack ≡ true
    → member x (c ∷ stack) ≡ true
unfolding member
member-there x c stack h = ground arith

-- Every id on the stack is reached, so a hit is a walk.
pub reach_loop_sound :
    (fuel : ℕ) (rel : Relation) (start target : EvidenceId) (seen stack : List EvidenceId)
    → ((x : EvidenceId) → member x stack ≡ true → Walk rel start x)
    → reach_loop fuel rel target seen stack ≡ true
    → Walk rel start target
unfolding reach_loop
reach_loop_sound zero rel start target seen stack w e = cc
reach_loop_sound (suc fuel) rel start target seen [] w e = cc
reach_loop_sound (suc fuel) rel start target seen (c ∷ stack) w e =
    elim (Bool-cases (member c seen)) [
      | inl old ↦
          reach_loop_sound fuel rel start target seen stack (λ x m. w x (member-there x c stack m))
            (rw (reach_loop_skip fuel rel target seen c stack old) at e)
      | inr new ↦ elim (Option-cases (push_all target (targets rel c) stack)) [
        | inl hit ↦
            step (w c (member-here c stack)) (push_all_none target (targets rel c) stack hit)
        | inr (pushed, more) ↦
            let (_, _, mem) = push_all-some target (targets rel c) stack pushed more in
            reach_loop_sound fuel rel start target (c ∷ seen) pushed
              (λ x m. pushed_walk x (sym (mem x) ∙ m))
              (rw (reach_loop_push fuel rel target seen c stack pushed new more) at e)
      ]
    ]
  where
    pushed_walk :
        (x : EvidenceId) → (member x (targets rel c) || member x stack) ≡ true → Walk rel start x
    pushed_walk x h = elim (Bool-cases (member x (targets rel c))) [
      | inl m ↦ step (w c (member-here c stack)) m
      | inr n ↦ w x (member-there x c stack (ground arith))
    ]
