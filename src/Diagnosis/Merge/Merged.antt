-- ===== src/Diagnosis/Merge/Merged.antt =====
-- `mergeGroup` of internal/diagnosis/converge.go: what the merged finding of a group is.
use svcdoctor.Base.{
  ℕ, Bool, true, false, not, ◌&&◌, ◌||◌, List, [], ◌∷◌, any, All, ltb, ◌≡◌, ◌≢◌, ◌⊎◌, refl, sym, ap,
  subst, ◌∙◌, inl, inr, arith, ◌==◌, if◌then◌else◌, ==_iff,
}
use svcdoctor.Base.Bytes.{Bytes, eqb, member, eqb_iff, eqb_refl}
use svcdoctor.Base.Sort.{sort_by}
use svcdoctor.Base.Sort.Kept.{sort_by-All, sort_by-any}
use svcdoctor.Base.Result.{ok}
use svcdoctor.Domain.Names.{validate_identifier}
use svcdoctor.Domain.Vocabulary.{severity_rank, confidence_rank}
use svcdoctor.Domain.Recommendation.{Recommendation}
use svcdoctor.Domain.Finding.{Finding, in_text, is_confirmed, new_finding}
use svcdoctor.Domain.Finding.Valid.{Valid, Valid-new_finding, new_finding-Valid}
use svcdoctor.Diagnosis.Groups.{Attributed, SemanticIdentity, identity_of, MergeKey}
use svcdoctor.Diagnosis.Groups.Compatible.{Belongs, Part}
use svcdoctor.Diagnosis.Merge.{
  seen_recommendation, absorb_all, by_content, merge_start, settle, merge_members, merge_group,
}
use svcdoctor.Diagnosis.Merge.Reconciled.{
  absorb_all_fixed, absorb_all-refs, absorb_all-vantage, absorb_all-kind, absorb_all-advice,
  Highest, max_rank, max_rank-Highest, absorb_all-severity, absorb_all-confidence,
}
use svcdoctor.Diagnosis.Merge.Members.{
  ValidMember, any-All, All-map, check_claims-ok, Fine, OneOf, common_discriminator-ok, Sound,
  absorb_all-Sound,
}

-- The finding states what the member states.
abbrev pub States : Finding → Attributed → Type 0
States f a =
    (f.code ≡ a.finding.code)
    × (f.subject ≡ a.finding.subject)
    × (f.layer ≡ a.finding.layer)
    × (f.summary ≡ a.finding.summary)
    × (f.detail ≡ a.finding.detail)

-- A group and the finding that it becomes.
pub record Merges (group : List Attributed) (f : Finding) : Type 0 where
  pub claim : All (States f) group
  pub severity : Highest (λ a. severity_rank a.finding.severity) group (severity_rank f.severity)
  pub confidence :
      Highest (λ a. confidence_rank a.finding.confidence) group (confidence_rank f.confidence)
  pub kind : is_confirmed f.kind ≡ any (λ a. is_confirmed a.finding.kind) group
  pub vantage : f.vantage_dependent ≡ any (λ a. a.finding.vantage_dependent) group
  pub refs :
      (x : Bytes) → member x f.evidence_refs ≡ any (λ a. member x a.finding.evidence_refs) group
  pub advice :
      (r : Recommendation)
      → seen_recommendation r f.recommendations
        ≡ any (λ a. seen_recommendation r a.finding.recommendations) group
  pub settled : is_confirmed f.kind ≡ true → f.discriminator ≡ []
  pub question :
      is_confirmed f.kind ≡ false
      → All
          (λ a. (a.finding.discriminator ≡ f.discriminator) ⊎ (a.finding.discriminator ≡ []))
          group

settled_of : (f : Finding) → Valid f → is_confirmed f.kind ≡ true → f.discriminator ≡ []
settled_of f v c = (eqb_iff f.discriminator []).0 (quiet (is_confirmed f.kind) v.plain c)
  where
    quiet : (b : Bool) {d : Bool} → (b && not d) ≡ false → b ≡ true → d ≡ true
    quiet true h c = ground arith
    quiet false h c = cc

or_false : (b : Bool) → (b || false) ≡ b
or_false b = ground arith

-- A group of one.
single-Merges : (af : Attributed) → Valid af.finding → Merges (af ∷ []) af.finding
single-Merges af v = record {
  claim = ((refl, refl, refl, refl, refl), tt);
  severity = ground arith;
  confidence = ground arith;
  kind = sym (or_false (is_confirmed af.finding.kind));
  vantage = sym (or_false af.finding.vantage_dependent);
  refs = λ x. sym (or_false (member x af.finding.evidence_refs));
  advice = λ r. sym (or_false (seen_recommendation r af.finding.recommendations));
  settled = settled_of af.finding v;
  question = λ c. (inl refl, tt);
}

Highest-sort_by :
    (rank : Attributed → ℕ) (group : List Attributed) (top : ℕ)
    → Highest rank (sort_by by_content group) top
    → Highest rank group top
Highest-sort_by rank group top (above, reached) = (
  sym (sort_by-any by_content (λ a. ltb top (rank a)) group) ∙ above,
  sym (sort_by-any by_content (λ a. rank a == top) group) ∙ reached,
)

module _ (id : SemanticIdentity) (k : MergeKey) (rep : Attributed) (rest : List Attributed)
    (same : All (λ a. identity_of a.finding ≡ id) (rep ∷ rest))
    (belong : All (Belongs k) (rep ∷ rest)) (valid : All ValidMember (rep ∷ rest)) (d : Bytes) where
  abbrev sorted : List Attributed
  sorted = sort_by by_content (rep ∷ rest)

  abbrev absorbed : Finding
  absorbed = absorb_all (merge_start rep.finding d) sorted

  fixed :
      (absorbed.code ≡ rep.finding.code)
      × (absorbed.layer ≡ rep.finding.layer)
      × (absorbed.subject ≡ rep.finding.subject)
      × (absorbed.summary ≡ rep.finding.summary)
      × (absorbed.detail ≡ rep.finding.detail)
      × (absorbed.discriminator ≡ d)
  fixed = absorb_all_fixed (merge_start rep.finding d) sorted

  refs_union :
      (x : Bytes)
      → member x absorbed.evidence_refs ≡ any (λ a. member x a.finding.evidence_refs) (rep ∷ rest)
  refs_union x =
      absorb_all-refs x (merge_start rep.finding d) sorted
      ∙ (unfold member in
          sort_by-any by_content (λ a. member x a.finding.evidence_refs) (rep ∷ rest))

  advice_union :
      (r : Recommendation)
      → seen_recommendation r absorbed.recommendations
        ≡ any (λ a. seen_recommendation r a.finding.recommendations) (rep ∷ rest)
  advice_union r =
      absorb_all-advice r (merge_start rep.finding d) sorted
      ∙ (unfold seen_recommendation in
          sort_by-any by_content (λ a. seen_recommendation r a.finding.recommendations)
            (rep ∷ rest))

  or_head : (p : Attributed → Bool) → (p rep || any p sorted) ≡ any p (rep ∷ rest)
  or_head p =
      ap (λ b. p rep || b) (sort_by-any by_content p (rep ∷ rest)) ∙ twice (p rep) (any p rest)
    where
      twice : (a b : Bool) → (a || (a || b)) ≡ (a || b)
      twice a b = ground arith

  kind_union : is_confirmed absorbed.kind ≡ any (λ a. is_confirmed a.finding.kind) (rep ∷ rest)
  kind_union =
      absorb_all-kind (merge_start rep.finding d) sorted
      ∙ or_head (λ a. is_confirmed a.finding.kind)

  vantage_union : absorbed.vantage_dependent ≡ any (λ a. a.finding.vantage_dependent) (rep ∷ rest)
  vantage_union =
      absorb_all-vantage (merge_start rep.finding d) sorted
      ∙ or_head (λ a. a.finding.vantage_dependent)

  head_rank : (rank : Attributed → ℕ) → any (λ a. rank a == rank rep) sorted ≡ true
  head_rank rank =
      sort_by-any by_content (λ a. rank a == rank rep) (rep ∷ rest)
      ∙ ap (λ b. b || any (λ a. rank a == rank rep) rest) ((==_iff (rank rep) (rank rep)).1 refl)

  top_severity :
      Highest (λ a. severity_rank a.finding.severity) (rep ∷ rest) (severity_rank absorbed.severity)
  top_severity =
      let rank = λ (a : Attributed). severity_rank a.finding.severity in
      subst (Highest rank (rep ∷ rest))
        (sym (absorb_all-severity (merge_start rep.finding d) sorted))
        (Highest-sort_by rank (rep ∷ rest) (max_rank rank (rank rep) sorted)
          (max_rank-Highest rank (rank rep) sorted (head_rank rank)))

  top_confidence :
      Highest
        (λ a. confidence_rank a.finding.confidence)
        (rep ∷ rest)
        (confidence_rank absorbed.confidence)
  top_confidence =
      let rank = λ (a : Attributed). confidence_rank a.finding.confidence in
      subst (Highest rank (rep ∷ rest))
        (sym (absorb_all-confidence (merge_start rep.finding d) sorted))
        (Highest-sort_by rank (rep ∷ rest) (max_rank rank (rank rep) sorted)
          (max_rank-Highest rank (rank rep) sorted (head_rank rank)))

  sound : Sound absorbed
  sound =
      let v = valid.0 in
      absorb_all-Sound (merge_start rep.finding d) sorted
        (v.kind_ok, v.severity_ok, v.confidence_ok, tt)
        (sort_by-All by_content ValidMember (rep ∷ rest) valid)

  some_ref : absorbed.evidence_refs ≢ []
  some_ref e =
      has_one rep.finding.evidence_refs valid.0.cites (λ x m. rw e at (refs_union x ∙ here x m))
    where
      here :
          (x : Bytes)
          → member x rep.finding.evidence_refs ≡ true
          → any (λ a. member x a.finding.evidence_refs) (rep ∷ rest) ≡ true
      here x m = rw m refl

      has_one :
          (refs : List Bytes)
          → refs ≢ []
          → ((x : Bytes) → member x refs ≡ true → member x [] ≡ true)
          → ⊥
      has_one [] h f = h refl
      has_one (x ∷ refs) h f = unfold member in cc (f x (rw (eqb_refl x) refl))

  refs_fine :
      (x : Bytes) → member x absorbed.evidence_refs ≡ true → in_text (validate_identifier x) ≡ ok tt
  refs_fine x m =
      any-All (λ a. member x a.finding.evidence_refs) (in_text (validate_identifier x) ≡ ok tt)
        (rep ∷ rest) (sym (refs_union x) ∙ m)
        (All-map ValidMember
          (λ a. member x a.finding.evidence_refs ≡ true → in_text (validate_identifier x) ≡ ok tt)
          (rep ∷ rest) (λ a v. v.refs_ok x) valid)

  input_Valid : Fine d → Valid (settle absorbed)
  input_Valid fine =
      let v = valid.0 in
      record {
        code_ok = rw (fixed.0) v.code_ok;
        kind_ok = sound.0;
        severity_ok = sound.1;
        confidence_ok = sound.2;
        layer_ok = rw (fixed.1) v.layer_ok;
        subject_ok = rw (fixed.2) v.subject_ok;
        summary_ok = rw (fixed.3) v.summary_ok;
        detail_ok = rw (fixed.4) v.detail_ok;
        discriminator_ok = rw (fixed.5) (settled_fine (is_confirmed absorbed.kind));
        plain = settled_plain (is_confirmed absorbed.kind) absorbed.discriminator;
        cites = some_ref;
        refs_ok = refs_fine;
        acts = sound.3;
      }
    where
      settled_fine : (b : Bool) → Fine (if b then [] else d)
      settled_fine true = unfold eqb in refl
      settled_fine false = fine

      settled_plain : (b : Bool) (e : Bytes) → (b && not (eqb (if b then [] else e) [])) ≡ false
      settled_plain true e = unfold eqb in refl
      settled_plain false e = refl

  -- The finding of a group of two or more.
  members_Merges :
      (f : Finding)
      → Fine d
      → (is_confirmed absorbed.kind ≡ false
          → All (λ a. (a.finding.discriminator ≡ d) ⊎ (a.finding.discriminator ≡ [])) (rep ∷ rest))
      → new_finding (settle absorbed) ≡ ok f
      → Merges (rep ∷ rest) f × Valid f
  members_Merges f fine ask made =
      let (same_fields, kept, increase, v) = new_finding-Valid (settle absorbed) f made in
      let kinds = ap (λ (x : Finding). is_confirmed x.kind) same_fields in
      let asked : f.discriminator ≡ (if is_confirmed absorbed.kind then [] else d) =
        ap (λ (x : Finding). x.discriminator) same_fields
        ∙ ap (λ t. if is_confirmed absorbed.kind then [] else t) (fixed.5) in
      (
        record {
          claim =
              stated f (ap (λ (x : Finding). x.code) same_fields ∙ fixed.0)
                (ap (λ (x : Finding). x.subject) same_fields ∙ fixed.2)
                (ap (λ (x : Finding). x.layer) same_fields ∙ fixed.1)
                (ap (λ (x : Finding). x.summary) same_fields ∙ fixed.3)
                (ap (λ (x : Finding). x.detail) same_fields ∙ fixed.4) (rep ∷ rest) same belong;
          severity =
              subst (Highest (λ a. severity_rank a.finding.severity) (rep ∷ rest))
                (sym (ap (λ (x : Finding). severity_rank x.severity) same_fields)) top_severity;
          confidence =
              subst (Highest (λ a. confidence_rank a.finding.confidence) (rep ∷ rest))
                (sym (ap (λ (x : Finding). confidence_rank x.confidence) same_fields))
                top_confidence;
          kind = kinds ∙ kind_union;
          vantage = ap (λ (x : Finding). x.vantage_dependent) same_fields ∙ vantage_union;
          refs = λ x. kept x ∙ refs_union x;
          advice = λ r.
              ap (λ (x : Finding). seen_recommendation r x.recommendations) same_fields
              ∙ advice_union r;
          settled = settled_of f v;
          question = λ c.
              let open_question = sym kinds ∙ c in
              let e : f.discriminator ≡ d = asked ∙ ap (λ b. if b then [] else d) open_question in
              subst
                (λ t.
                  All (λ a. (a.finding.discriminator ≡ t) ⊎ (a.finding.discriminator ≡ []))
                    (rep ∷ rest))
                (sym e) (ask open_question);
        },
        v,
      )
    where
      stated :
          (f : Finding)
          → f.code ≡ rep.finding.code
          → f.subject ≡ rep.finding.subject
          → f.layer ≡ rep.finding.layer
          → f.summary ≡ rep.finding.summary
          → f.detail ≡ rep.finding.detail
          → (items : List Attributed) → All (λ a. identity_of a.finding ≡ id) items
          → All (Belongs k) items
          → All (States f) items
      stated f code subject layer summary detail [] i b = tt
      stated f code subject layer summary detail (a ∷ items) i b = (
        (
          code ∙ ap (λ (j : SemanticIdentity). j.code) (same.0 ∙ sym i.0),
          subject ∙ ap (λ (j : SemanticIdentity). j.subject) (same.0 ∙ sym i.0),
          layer ∙ belong.0.0 ∙ sym b.0.0,
          summary ∙ belong.0.1 ∙ sym b.0.1,
          detail ∙ belong.0.2 ∙ sym b.0.2,
        ),
        stated f code subject layer summary detail items i.1 b.1,
      )

turn :
    (k : MergeKey) {x d : Bytes}
    → ((x ≡ k.discriminator) ⊎ (x ≡ []))
    → d ≡ k.discriminator
    → ((x ≡ d) ⊎ (x ≡ []))
turn k (inl q) e = inl (q ∙ sym e)
turn k (inr q) e = inr q

-- A group of valid findings that share an identity and one claim is merged, into a valid finding.
pub merge_group-Merges :
    (id : SemanticIdentity) (group : List Attributed)
    → Part group
    → All (λ a. identity_of a.finding ≡ id) group
    → All ValidMember group
    → (f : Finding) × (merge_group group ≡ ok f) × Merges group f × Valid f
unfolding merge_group merge_members
merge_group-Merges id [] (k, filled, belong) same valid = absurd (filled refl)
merge_group-Merges id (af ∷ []) (k, filled, belong) same valid =
    (af.finding, refl, single-Merges af valid.0, valid.0)
merge_group-Merges id (af ∷ bf ∷ rest) (k, filled, belong) same valid =
    let (d, found, one, fine, silent) =
      common_discriminator-ok k [] (af ∷ bf ∷ rest) (inr refl) (unfold eqb in refl) belong valid in
    let checked = check_claims-ok k af (af ∷ bf ∷ rest) belong.0 belong in
    let input = settle (absorbed id k af (bf ∷ rest) same belong valid d) in
    let (f, made) =
      Valid-new_finding input (input_Valid id k af (bf ∷ rest) same belong valid d fine) in
    let (merges, v) =
      members_Merges id k af (bf ∷ rest) same belong valid d f fine
        (λ c. asks d one (λ e. (silent e).1)) made in
    (f, rw (checked, found, made) refl, merges, v)
  where
    asks :
        (d : Bytes)
        → OneOf k d
        → (d ≡ [] → All (λ a. a.finding.discriminator ≡ []) (af ∷ bf ∷ rest))
        → All (λ a. (a.finding.discriminator ≡ d) ⊎ (a.finding.discriminator ≡ [])) (af ∷ bf ∷ rest)
    asks d (inl e) silent =
        All-map (Belongs k) (λ a. (a.finding.discriminator ≡ d) ⊎ (a.finding.discriminator ≡ []))
          (af ∷ bf ∷ rest) (λ a b. turn k b.3 e) belong
    asks d (inr e) silent =
        All-map (λ a. a.finding.discriminator ≡ [])
          (λ a. (a.finding.discriminator ≡ d) ⊎ (a.finding.discriminator ≡ [])) (af ∷ bf ∷ rest)
          (λ a q. inr q) (silent e)
