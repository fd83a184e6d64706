-- ===== src/Domain/Finding/Refs.antt =====
-- `normalizeEvidenceRefs` of internal/domain/finding.go: the references of a finding are a set.
use svcdoctor.Base.{
  Bool, true, false, ◌||◌, List, [], ◌∷◌, ◌++◌, ◌≡◌, refl, sym, ap, ◌∙◌, inl, inr, ◌≢◌, arith,
  Bool-cases,
}
use svcdoctor.Base.Bytes.{
  Bytes, eqb, less, member, insert_sorted, sort, eqb_iff, eqb_refl, member-sort, member-concat,
}
use svcdoctor.Base.Result.{ok, >>=-eq-ok, >>-eq-ok}
use svcdoctor.Domain.Names.{validate_identifier}
use svcdoctor.Domain.Finding.{collect_refs, normalize_evidence_refs, in_text}

less_total : (a b : Bytes) → less a b ≡ false → eqb a b ≡ false → less b a ≡ true
unfolding less eqb
less_total [] [] h e = cc
less_total [] (y ∷ b) h e = cc
less_total (x ∷ a) [] h e = refl
less_total (x ∷ a) (y ∷ b) h e = ground (arith, less_total a b)

-- Each id is less than the next: sorted, with none twice.
abbrev Below : Bytes → List Bytes → Type 0
Below a [] = Unit
Below a (x ∷ xs) = less a x ≡ true

abbrev pub Increasing : List Bytes → Type 0
Increasing [] = Unit
Increasing (x ∷ xs) = Below x xs × Increasing xs

Below-insert_sorted :
    (a x : Bytes) (ys : List Bytes) → Below a ys → less a x ≡ true → Below a (insert_sorted x ys)
unfolding insert_sorted
Below-insert_sorted a x [] b h = h
Below-insert_sorted a x (y ∷ ys) b h = ground arith

insert_sorted-Increasing :
    (x : Bytes) (ys : List Bytes)
    → member x ys ≡ false
    → Increasing ys
    → Increasing (insert_sorted x ys)
unfolding insert_sorted member
insert_sorted-Increasing x [] m h = (tt, tt)
insert_sorted-Increasing x (y ∷ ys) m h = elim (Bool-cases (less y x)) [
  | inl before ↦
      rw before
        (Below-insert_sorted y x ys h.0 before, insert_sorted-Increasing x ys (ground arith) h.1)
  | inr after ↦ rw after (less_total y x after (ground arith), h)
]

-- No id stands twice in the list.
abbrev pub Distinct : List Bytes → Type 0
Distinct [] = Unit
Distinct (x ∷ xs) = (member x xs ≡ false) × Distinct xs

pub sort-Increasing : (xs : List Bytes) → Distinct xs → Increasing (sort xs)
unfolding sort
sort-Increasing [] d = tt
sort-Increasing (x ∷ xs) d =
    insert_sorted-Increasing x (sort xs) (member-sort x xs ∙ d.0) (sort-Increasing xs d.1)

pub Distinct-concat :
    (y : Bytes) (ys : List Bytes) → member y ys ≡ false → Distinct ys → Distinct (ys ++ y ∷ [])
unfolding member
Distinct-concat y [] m d = (refl, tt)
Distinct-concat y (z ∷ ys) m d = (
  ground (arith, member-concat z y ys, eqb_iff y z, eqb_iff z y),
  Distinct-concat y ys (ground arith) d.1,
)

-- `seen` and `out` hold the same ids throughout the loop.
collect_refs_lem :
    (ids seen out found : List Bytes)
    → ((x : Bytes) → member x seen ≡ member x out)
    → Distinct out
    → collect_refs seen out ids ≡ ok found
    → Distinct found × ((x : Bytes) → member x found ≡ (member x out || member x ids))
unfolding collect_refs
collect_refs_lem [] seen out found same d h =
    let e : out ≡ found = cc in rw (← e) (d, λ x. unfold member in ground arith)
collect_refs_lem (id ∷ ids) seen out found same d h =
    let (valid, rest) = >>-eq-ok (in_text (validate_identifier id)) _ h in
    elim (Bool-cases (member id seen)) [
      | inl dup ↦
          let (d', all) = collect_refs_lem ids seen out found same d (rw dup at rest) in
          (d', λ x. old x (all x) dup)
      | inr fresh ↦
          let (d', all) =
            collect_refs_lem ids (id ∷ seen) (out ++ id ∷ []) found
              (λ x. unfold member in ground (arith, same x, member-concat x id out))
              (Distinct-concat id out (sym (same id) ∙ fresh) d) (rw fresh at rest) in
          (d', λ x. new x (all x))
    ]
  where
    old :
        (x : Bytes) {b : Bool}
        → b ≡ (member x out || member x ids)
        → member id seen ≡ true
        → b ≡ (member x out || member x (id ∷ ids))
    old x e dup = unfold member in ground (arith, e, same x, eqb_iff id x)

    new :
        (x : Bytes) {b : Bool}
        → b ≡ (member x (out ++ id ∷ []) || member x ids)
        → b ≡ (member x out || member x (id ∷ ids))
    new x e = unfold member in ground (arith, e, member-concat x id out)

-- The references that `normalizeEvidenceRefs` accepts are at least one, and become those given,
-- each once, in increasing order.
pub normalize_evidence_refs_lem :
    (ids out : List Bytes)
    → normalize_evidence_refs ids ≡ ok out
    → (out ≢ []) × Increasing out × ((x : Bytes) → member x out ≡ member x ids)
unfolding normalize_evidence_refs member
normalize_evidence_refs_lem [] out h = absurd (cc)
normalize_evidence_refs_lem (id ∷ ids) out h =
    let (found, collected, e) = >>=-eq-ok (collect_refs [] [] (id ∷ ids)) _ h in
    let (d, all) = collect_refs_lem (id ∷ ids) [] [] found (λ x. refl) tt collected in
    let same : sort found ≡ out = cc in
    let members = λ (x : Bytes). ap (member x) (sym same) ∙ member-sort x found ∙ all x in
    (λ empty. absurd (nonempty empty (members id)), rw (← same) (sort-Increasing found d), members)
  where
    nonempty : out ≡ [] → member id out ≡ (member id [] || member id (id ∷ ids)) → ⊥
    nonempty empty e = unfold member in ground (arith, ap (member id) empty, eqb_refl id)
