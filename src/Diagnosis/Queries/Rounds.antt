-- ===== src/Diagnosis/Queries/Rounds.antt =====
-- What one round of the loop of `BlockedChain` of internal/diagnosis/graphquery.go does.
use svcdoctor.Base.{
  ℕ, ◌+◌, ◌≤◌, ◌<◌, Bool, true, false, not, ◌&&◌, ◌||◌, List, [], ◌∷◌, ◌++◌, map, flatten, length,
  length-append, ◌≡◌, refl, ap, inl, inr, arith, Bool-cases, if◌then◌else◌,
}
use svcdoctor.Base.Bytes.{eqb, member, eqb_iff, eqb_refl, member-append, member-concat}
use svcdoctor.Domain.Graph.Relation.{EvidenceId, targets, edge_count}
use svcdoctor.Domain.Graph.Builder.{Frozen}
use svcdoctor.Diagnosis.Queries.{Chain, visit_blocked}

-- Every id that the map gives.
abbrev pub ends : Frozen → List EvidenceId
ends blocks = flatten (map (λ e. e.1) blocks)

pub length-ends : (blocks : Frozen) → length (ends blocks) ≡ edge_count blocks
unfolding edge_count
length-ends [] = refl
length-ends ((k, tos) ∷ blocks) =
    omega (arith, length-append {0} tos (ends blocks), length-ends blocks)

pub targets-ends :
    (blocks : Frozen) (x y : EvidenceId)
    → member y (targets blocks x) ≡ true
    → member y (ends blocks) ≡ true
unfolding targets
targets-ends [] x y m = m
targets-ends ((k, tos) ∷ blocks) x y m = elim (Bool-cases (eqb k x)) [
  | inl found ↦ rw (member-append y tos (ends blocks)) (left (member y tos) _ (rw found at m))
  | inr other ↦
      rw (member-append y tos (ends blocks))
        (right (member y tos) _ (targets-ends blocks x y (rw other at m)))
]
  where
    left : (a b : Bool) → a ≡ true → (a || b) ≡ true
    left a b h = ground arith

    right : (a b : Bool) → b ≡ true → (a || b) ≡ true
    right a b h = ground arith

-- The ids of `us` that are not visited, with repetition.
unfoldable pub unseen : List EvidenceId → List EvidenceId → ℕ
unseen visited [] = 0
unseen visited (u ∷ us) = (if member u visited then 0 else 1) + unseen visited us

unseen-cons-le :
    (id : EvidenceId) (visited us : List EvidenceId) → unseen (id ∷ visited) us ≤ unseen visited us
unfolding unseen member
unseen-cons-le id visited [] = omega arith
unseen-cons-le id visited (u ∷ us) = ground (arith, unseen-cons-le id visited us)

unseen-cons-lt :
    (id : EvidenceId) (visited us : List EvidenceId)
    → member id visited ≡ false
    → member id us ≡ true
    → unseen (id ∷ visited) us < unseen visited us
unfolding unseen member
unseen-cons-lt id visited [] fresh m = absurd (cc)
unseen-cons-lt id visited (u ∷ us) fresh m = elim (Bool-cases (eqb u id)) [
  | inl e ↦
      let same = (eqb_iff u id).0 e in
      rw same (ground (arith, unseen-cons-le id visited us, eqb_refl id, fresh))
  | inr ne ↦ ground (arith, unseen-cons-lt id visited us, eqb_iff u id, eqb_iff id u)
]

-- The state after a new id.
abbrev grown : Chain → EvidenceId → Chain
grown c id = record { visited = id ∷ c.visited; out = c.out ++ id ∷ []; queue = c.queue ++ id ∷ [] }

visit_blocked-seen :
    (c : Chain) (id : EvidenceId) (ids : List EvidenceId)
    → member id c.visited ≡ true
    → visit_blocked c (id ∷ ids) ≡ visit_blocked c ids
unfolding visit_blocked
visit_blocked-seen c id ids seen = ap (λ b. visit_blocked (if b then c else grown c id) ids) seen

visit_blocked-fresh :
    (c : Chain) (id : EvidenceId) (ids : List EvidenceId)
    → member id c.visited ≡ false
    → visit_blocked c (id ∷ ids) ≡ visit_blocked (grown c id) ids
unfolding visit_blocked
visit_blocked-fresh c id ids fresh = ap (λ b. visit_blocked (if b then c else grown c id) ids) fresh

-- What one round adds.
pub visit_blocked_lem :
    (c : Chain) (ids : List EvidenceId) (x : EvidenceId)
    → (member x (visit_blocked c ids).visited ≡ (member x c.visited || member x ids))
      × (member x (visit_blocked c ids).out
          ≡ (member x c.out || (member x ids && not (member x c.visited))))
      × (member x (visit_blocked c ids).queue
          ≡ (member x c.queue || (member x ids && not (member x c.visited))))
unfolding visit_blocked
visit_blocked_lem c [] x = unfold member in ground arith
visit_blocked_lem c (id ∷ ids) x = elim (Bool-cases (member id c.visited)) [
  | inl seen ↦ rw (visit_blocked-seen c id ids seen) (old (visit_blocked_lem c ids x) seen)
  | inr fresh ↦
      rw (visit_blocked-fresh c id ids fresh) (new fresh (visit_blocked_lem (grown c id) ids x))
]
  where
    old :
        {v o q : Bool}
        → (v ≡ (member x c.visited || member x ids))
          × (o ≡ (member x c.out || (member x ids && not (member x c.visited))))
          × (q ≡ (member x c.queue || (member x ids && not (member x c.visited))))
        → member id c.visited ≡ true
        → (v ≡ (member x c.visited || member x (id ∷ ids)))
          × (o ≡ (member x c.out || (member x (id ∷ ids) && not (member x c.visited))))
          × (q ≡ (member x c.queue || (member x (id ∷ ids) && not (member x c.visited))))
    old h seen = elim (Bool-cases (eqb id x)) [
      | inl e ↦
          let here : member x c.visited ≡ true = rw (← (eqb_iff id x).0 e) seen in
          unfold member in ground (arith, h, here, e)
      | inr ne ↦ unfold member in ground (arith, h, ne)
    ]

    new :
        {v o q : Bool}
        → member id c.visited ≡ false
        → (v ≡ (member x (id ∷ c.visited) || member x ids))
          × (o ≡ (member x (c.out ++ id ∷ []) || (member x ids && not (member x (id ∷ c.visited)))))
          × (q ≡ (
              member x (c.queue ++ id ∷ []) || (member x ids && not (member x (id ∷ c.visited)))))
        → (v ≡ (member x c.visited || member x (id ∷ ids)))
          × (o ≡ (member x c.out || (member x (id ∷ ids) && not (member x c.visited))))
          × (q ≡ (member x c.queue || (member x (id ∷ ids) && not (member x c.visited))))
    new fresh h = elim (Bool-cases (eqb id x)) [
      | inl e ↦
          let away : member x c.visited ≡ false = rw (← (eqb_iff id x).0 e) fresh in
          unfold member in
          ground (arith, h, away, e, member-concat x id c.out, member-concat x id c.queue)
      | inr ne ↦
          unfold member in
          ground (arith, h, ne, member-concat x id c.out, member-concat x id c.queue)
    ]

pub visit_blocked_measure :
    (us : List EvidenceId) (c : Chain) (ids : List EvidenceId)
    → ((x : EvidenceId) → member x ids ≡ true → member x us ≡ true)
    → unseen (visit_blocked c ids).visited us + length (visit_blocked c ids).queue
      ≤ unseen c.visited us + length c.queue
unfolding visit_blocked
visit_blocked_measure us c [] h = omega arith
visit_blocked_measure us c (id ∷ ids) h = elim (Bool-cases (member id c.visited)) [
  | inl seen ↦
      rw (visit_blocked-seen c id ids seen)
        (visit_blocked_measure us c ids (λ x m. h x (later x m)))
  | inr fresh ↦ rw (visit_blocked-fresh c id ids fresh) (
      omega (
        arith,
        visit_blocked_measure us (grown c id) ids (λ x m. h x (later x m)),
        unseen-cons-lt id c.visited us fresh (h id first),
        length-append {0} c.queue (id ∷ []),
      ))
]
  where
    later : (x : EvidenceId) → member x ids ≡ true → member x (id ∷ ids) ≡ true
    later x m = unfold member in ground (arith, m)

    first : member id (id ∷ ids) ≡ true
    first = unfold member in ground (arith, eqb_refl id)
