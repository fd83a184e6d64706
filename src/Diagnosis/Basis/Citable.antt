-- ===== src/Diagnosis/Basis/Citable.antt =====
-- What a basis that `Freeze` of internal/diagnosis/basis.go accepts may cite.
use svcdoctor.Base.{
  Bool, true, false, not, ◌&&◌, ◌||◌, List, [], ◌∷◌, ◌++◌, ◌≡◌, refl, sym, ap, ◌∙◌, inl, inr, arith,
  Bool-cases, if◌then◌else◌,
}
use svcdoctor.Base.Bytes.{Bytes, eqb, member, sort, eqb_iff, member-sort, member-concat}
use svcdoctor.Base.Result.{Result, ok, ◌>>=◌, >>=-eq-ok, >>-eq-ok, reject-eq-ok}
use svcdoctor.Domain.Finding.Refs.{Increasing, Distinct, sort-Increasing, Distinct-concat}
use svcdoctor.Domain.Graph.Relation.{EvidenceId}
use svcdoctor.Domain.Graph.Builder.{Graph, has}
use svcdoctor.Diagnosis.Basis.{
  EvidenceBasis, BasisError, both_relations, nothing_blocks, did_not_run, collect_distinct,
  check_node, normalize_basis_ids, normalize_missing, check_disjoint, is_blocked, check_blocked,
  check_ran, freeze_basis, check_step,
}

module _ (check : Bytes → Result BasisError (Unit {0})) where
  collect_distinct-cons :
      (out ids found : List Bytes) (id : Bytes)
      → collect_distinct check out (id ∷ ids) ≡ ok found
      → (check id ≡ ok tt)
        × (collect_distinct check (if member id out then out else out ++ id ∷ []) ids ≡ ok found)
  unfolding collect_distinct
  collect_distinct-cons out ids found id h = >>-eq-ok (check id) _ h

  -- The loop keeps each id once, and every id passed the check.
  collect_distinct_lem :
      (ids out found : List Bytes)
      → Distinct out
      → ((x : Bytes) → member x out ≡ true → check x ≡ ok tt)
      → collect_distinct check out ids ≡ ok found
      → Distinct found
        × ((x : Bytes) → member x found ≡ (member x out || member x ids))
        × ((x : Bytes) → member x found ≡ true → check x ≡ ok tt)
  unfolding collect_distinct
  collect_distinct_lem [] out found d passed h =
      let e : out ≡ found = cc in rw (← e) (d, λ x. unfold member in ground arith, passed)
  collect_distinct_lem (id ∷ ids) out found d passed h =
      let (good, rest) = collect_distinct-cons out ids found id h in
      elim (Bool-cases (member id out)) [
        | inl dup ↦
            let (d', all, fine) = collect_distinct_lem ids out found d passed (rw dup at rest) in
            (d', λ x. old x (all x) dup, fine)
        | inr fresh ↦
            let (d', all, fine) =
              collect_distinct_lem ids (out ++ id ∷ []) found (Distinct-concat id out fresh d)
                (λ x m. pass x good (sym (member-concat x id out) ∙ m)) (rw fresh at rest) in
            (d', λ x. new x (all x), fine)
      ]
    where
      old :
          (x : Bytes) {b : Bool}
          → b ≡ (member x out || member x ids)
          → member id out ≡ true
          → b ≡ (member x out || member x (id ∷ ids))
      old x e dup = unfold member in ground (arith, e, eqb_iff id x)

      new :
          (x : Bytes) {b : Bool}
          → b ≡ (member x (out ++ id ∷ []) || member x ids)
          → b ≡ (member x out || member x (id ∷ ids))
      new x e = unfold member in ground (arith, e, member-concat x id out)

      pass : (x : Bytes) → check id ≡ ok tt → (member x out || eqb id x) ≡ true → check x ≡ ok tt
      pass x good m = elim (Bool-cases (member x out)) [
        | inl before ↦ passed x before
        | inr not_yet ↦ let e : id ≡ x = ground (arith, eqb_iff id x) in rw (← e) good
      ]

  normalize_lem :
      (ids out : List Bytes)
      → ((collect_distinct check [] ids) >>= λ found. ok (sort found)) ≡ ok out
      → Increasing out
        × ((x : Bytes) → member x out ≡ member x ids)
        × ((x : Bytes) → member x out ≡ true → check x ≡ ok tt)
  normalize_lem ids out h =
      let (found, collected, e) = >>=-eq-ok (collect_distinct check [] ids) _ h in
      let (d, all, fine) =
        collect_distinct_lem ids [] found tt (λ x m. absurd (unfold member in cc)) collected in
      let same : sort found ≡ out = ground arith in
      let to_found = λ (x : Bytes). ap (member x) (sym same) ∙ member-sort x found in
      (
        rw (← same) (sort-Increasing found d),
        λ x. to_found x ∙ all x ∙ nothing x,
        λ x m. fine x (sym (to_found x) ∙ m),
      )
    where
      nothing : (x : Bytes) → (member x [] || member x ids) ≡ member x ids
      nothing x = unfold member in refl

check_disjoint-ok :
    (left right : List EvidenceId)
    → check_disjoint left right ≡ ok tt
    → (x : EvidenceId) → (member x left && member x right) ≡ false
unfolding check_disjoint member
check_disjoint-ok [] right h x = refl
check_disjoint-ok (id ∷ left) right h x =
    let (apart, h) = reject-eq-ok (member id right) both_relations _ h in
    let ih = check_disjoint-ok left right h x in
    elim (Bool-cases (eqb id x)) [
      | inl e ↦ let same = (eqb_iff id x).0 e in rw (← same, apart) (ground arith)
      | inr ne ↦ ground arith
    ]

check_blocked-ok :
    (g : Graph) (ids : List EvidenceId)
    → check_blocked g ids ≡ ok tt
    → (x : EvidenceId) → member x ids ≡ true
    → is_blocked g x ≡ true
unfolding check_blocked member
check_blocked-ok g [] h x m = absurd (cc)
check_blocked-ok g (id ∷ ids) h x m =
    let (stuck, h) = reject-eq-ok (not (is_blocked g id)) nothing_blocks _ h in
    elim (Bool-cases (eqb id x)) [
      | inl e ↦ let same = (eqb_iff id x).0 e in rw (← same) (ground arith)
      | inr ne ↦ check_blocked-ok g ids h x (ground arith)
    ]

check_ran-ok :
    (g : Graph) (ids : List EvidenceId)
    → check_ran g ids ≡ ok tt
    → (x : EvidenceId) → member x ids ≡ true
    → is_blocked g x ≡ false
unfolding check_ran member
check_ran-ok g [] h x m = absurd (cc)
check_ran-ok g (id ∷ ids) h x m =
    let (ran, h) = reject-eq-ok (is_blocked g id) did_not_run _ h in
    elim (Bool-cases (eqb id x)) [
      | inl e ↦ let same = (eqb_iff id x).0 e in rw (← same) (ran)
      | inr ne ↦ check_ran-ok g ids h x (ground arith)
    ]

-- The ids of one relation, against those that were given.
pub record Cited (g : Graph) (given ids : List EvidenceId) : Type 0 where
  pub increase : Increasing ids
  pub kept : (x : EvidenceId) → member x ids ≡ member x given
  pub in_graph : (x : EvidenceId) → member x ids ≡ true → has g.nodes x ≡ true

pub record Citable (g : Graph) (given b : EvidenceBasis) : Type 0 where
  pub supporting_cited : Cited g given.supporting b.supporting
  pub contradicting_cited : Cited g given.contradicting b.contradicting
  pub blocked_cited : Cited g given.blocked b.blocked
  pub one_relation :
      (x : EvidenceId)
      → ((member x b.supporting && member x b.contradicting)
          || (member x b.supporting && member x b.blocked)
          || (member x b.contradicting && member x b.blocked))
        ≡ false
  pub blocked_by_something : (x : EvidenceId) → member x b.blocked ≡ true → is_blocked g x ≡ true
  pub observed :
      (x : EvidenceId)
      → (member x b.supporting || member x b.contradicting) ≡ true
      → is_blocked g x ≡ false
  pub steps_increase : Increasing b.missing
  pub steps_kept : (x : Bytes) → member x b.missing ≡ member x given.missing

normalize_basis_ids-Cited :
    (g : Graph) (given ids : List EvidenceId)
    → normalize_basis_ids g given ≡ ok ids
    → Cited g given ids
unfolding normalize_basis_ids
normalize_basis_ids-Cited g given ids h =
    let (increase, kept, fine) = normalize_lem (check_node g) given ids h in
    record { increase = increase; kept = kept; in_graph = λ x m. there x (fine x m) }
  where
    there : (x : EvidenceId) → check_node g x ≡ ok tt → has g.nodes x ≡ true
    there x e = ground (arith, e)

-- In a basis that was accepted, supporting, contradicting and blocked evidence and missing steps
-- are those given, each once and in increasing order. All the evidence is in the graph, none
-- stands in two relations, the graph records a blocker of each blocked node, and none of a
-- supporting or contradicting one.
pub freeze_basis-Citable :
    (g : Graph) (given b : EvidenceBasis) → freeze_basis g given ≡ ok b → Citable g given b
unfolding freeze_basis
freeze_basis-Citable g given b h =
    let (s, es, h) = >>=-eq-ok (normalize_basis_ids g given.supporting) _ h in
    let (c, ec, h) = >>=-eq-ok (normalize_basis_ids g given.contradicting) _ h in
    let (k, ek, h) = >>=-eq-ok (normalize_basis_ids g given.blocked) _ h in
    let (sc, h) = >>-eq-ok (check_disjoint s c) _ h in
    let (sk, h) = >>-eq-ok (check_disjoint s k) _ h in
    let (ck, h) = >>-eq-ok (check_disjoint c k) _ h in
    let (stuck, h) = >>-eq-ok (check_blocked g k) _ h in
    let (ran_s, h) = >>-eq-ok (check_ran g s) _ h in
    let (ran_c, h) = >>-eq-ok (check_ran g c) _ h in
    let (m, em, h) = >>=-eq-ok (normalize_missing given.missing) _ h in
    let steps = normalize_lem check_step given.missing m (unfold normalize_missing in em) in
    let made : record { supporting = s; contradicting = c; blocked = k; missing = m } ≡ b = cc in
    rw (← made) (record {
      supporting_cited = normalize_basis_ids-Cited g given.supporting s es;
      contradicting_cited = normalize_basis_ids-Cited g given.contradicting c ec;
      blocked_cited = normalize_basis_ids-Cited g given.blocked k ek;
      one_relation = λ x. ground (
        arith,
        check_disjoint-ok s c sc x,
        check_disjoint-ok s k sk x,
        check_disjoint-ok c k ck x,
      );
      blocked_by_something = check_blocked-ok g k stuck;
      observed = λ x. either x (check_ran-ok g s ran_s x) (check_ran-ok g c ran_c x);
      steps_increase = steps.0;
      steps_kept = steps.1;
    })
  where
    either :
        (x : EvidenceId) {p q r : Bool}
        → (p ≡ true → r ≡ false)
        → (q ≡ true → r ≡ false)
        → (p || q) ≡ true
        → r ≡ false
    either x {p = true} left right e = left refl
    either x {p = false} left right e = right e
