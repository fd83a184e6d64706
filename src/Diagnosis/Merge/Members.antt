-- ===== src/Diagnosis/Merge/Members.antt =====
-- What `mergeGroup` of internal/diagnosis/converge.go hands to `NewFinding` is valid, if its members
-- are valid and state one claim.
use svcdoctor.Base.{
  Bool, true, false, not, ◌&&◌, List, [], ◌∷◌, ◌++◌, any, All, All-append, ltb, ◌≡◌, ◌⊎◌, refl, sym,
  ap, ◌∙◌, inl, inr, arith, Bool-cases, if◌then◌else◌, ==_iff,
}
use svcdoctor.Base.Bytes.{Bytes, eqb, eqb_iff, eqb_refl}
use svcdoctor.Base.Result.{ok}
use svcdoctor.Domain.Names.{validate_identifier}
use svcdoctor.Domain.Vocabulary.{
  layer_rank, severity_rank, severity_valid, confidence_rank, confidence_valid, finding_kind_valid,
  confirmed,
}
use svcdoctor.Domain.Recommendation.{Recommendation}
use svcdoctor.Domain.Finding.{Finding, in_text, is_confirmed, unless}
use svcdoctor.Domain.Finding.Valid.{HasAction, Valid}
use svcdoctor.Diagnosis.Groups.{Attributed, MergeKey}
use svcdoctor.Diagnosis.Groups.Compatible.{Belongs}
use svcdoctor.Diagnosis.Merge.{
  check_claims, common_discriminator, seen_recommendation, add_recommendations, absorb, absorb_all,
}

abbrev pub ValidMember : Attributed → Type 0
ValidMember a = Valid a.finding

pub any-All :
    {A : Type 0} (p : A → Bool) (Q : Type 0) (items : List A)
    → any p items ≡ true
    → All (λ a. p a ≡ true → Q) items
    → Q
any-All p Q [] h f = absurd (cc)
any-All p Q (a ∷ items) h f = elim (Bool-cases (p a)) [
  | inl here ↦ f.0 here
  | inr later ↦ any-All p Q items (ground (arith, later)) f.1
]

pub All-map {ℓ κ} :
    {A : Type 0} (P : A → Type ℓ) (Q : A → Type κ) (items : List A)
    → ((a : A) → P a → Q a)
    → All P items
    → All Q items
All-map P Q [] f h = tt
All-map P Q (a ∷ items) f h = (f a h.0, All-map P Q items f h.1)

-- Members of one key pass the check of the first loop.
pub check_claims-ok :
    (k : MergeKey) (rep : Attributed) (items : List Attributed)
    → Belongs k rep
    → All (Belongs k) items
    → check_claims rep.finding items ≡ ok tt
unfolding check_claims
check_claims-ok k rep [] r h = refl
check_claims-ok k rep (a ∷ items) r h =
    let layer : a.finding.layer ≡ rep.finding.layer = h.0.0 ∙ sym r.0 in
    let summary : a.finding.summary ≡ rep.finding.summary = h.0.1 ∙ sym r.1 in
    let detail : a.finding.detail ≡ rep.finding.detail = h.0.2 ∙ sym r.2 in
    rw
      (
        layer,
        summary,
        detail,
        (==_iff (layer_rank rep.finding.layer) (layer_rank rep.finding.layer)).1 refl,
        eqb_refl rep.finding.summary,
        eqb_refl rep.finding.detail,
      )
      (check_claims-ok k rep items r h.1)

-- A discriminator that `NewFinding` accepts.
abbrev pub Fine : Bytes → Type 0
Fine d = unless (eqb d []) (in_text (validate_identifier d)) ≡ ok tt

abbrev pub OneOf : MergeKey → Bytes → Type 0
OneOf k d = (d ≡ k.discriminator) ⊎ (d ≡ [])

nonempty : (got : Bytes) → eqb got [] ≡ false → got ≡ [] → ⊥
nonempty got asks e = cc (eqb_refl [], ap (λ t. eqb t []) e)

-- Members of one key agree on a discriminator, which is empty only if no member has one.
pub common_discriminator-ok :
    (k : MergeKey) (d : Bytes) (items : List Attributed)
    → OneOf k d
    → Fine d
    → All (Belongs k) items
    → All ValidMember items
    → (e : Bytes) × (common_discriminator d items ≡ ok e)
      × OneOf k e
      × Fine e
      × (e ≡ [] → (d ≡ []) × All (λ a. a.finding.discriminator ≡ []) items)
unfolding common_discriminator
common_discriminator-ok k d [] one fine h v = (d, refl, one, fine, λ e. (e, tt))
common_discriminator-ok k d (a ∷ items) one fine h v =
    let got = a.finding.discriminator in
    elim (Bool-cases (eqb got [])) [
      | inl silent ↦
          let (e, made, one', fine', empty) = common_discriminator-ok k d items one fine h.1 v.1 in
          rw silent (
            e,
            made,
            one',
            fine',
            λ q. let (p, all) = empty q in (p, ((eqb_iff got []).0 silent, all)),
          )
      | inr asks ↦
          let (e, made, one', fine', empty) =
            common_discriminator-ok k got items h.0.3 v.0.discriminator_ok h.1 v.1 in
          rw (asks, agree d got one h.0.3 asks)
            (e, made, one', fine', λ q. absurd (nonempty got asks (empty q).0))
    ]
  where
    agree :
        (d got : Bytes)
        → OneOf k d
        → OneOf k got
        → eqb got [] ≡ false
        → (not (eqb d []) && not (eqb d got)) ≡ false
    agree d got (inr p) q asks = rw (p, eqb_refl []) refl
    agree d got (inl p) (inl q) asks = rw (p, q, eqb_refl k.discriminator) (ground arith)
    agree d got (inl p) (inr q) asks = absurd (nonempty got asks q)

add_recommendations-All :
    (P : Recommendation → Type 0) (out rs : List Recommendation)
    → All P out
    → All P rs
    → All P (add_recommendations out rs)
unfolding add_recommendations
add_recommendations-All P out [] h k = h
add_recommendations-All P out (r ∷ rs) h k = elim (Bool-cases (seen_recommendation r out)) [
  | inl dup ↦ rw dup (add_recommendations-All P out rs h k.1)
  | inr fresh ↦
      rw fresh
        (add_recommendations-All P (out ++ r ∷ []) rs (All-append P out (r ∷ []) h (k.0, tt)) k.1)
]

-- The enumerations and the advice of what the loop makes are valid.
abbrev pub Sound : Finding → Type 0
Sound f =
    (finding_kind_valid f.kind ≡ true)
    × (severity_valid f.severity ≡ true)
    × (confidence_valid f.confidence ≡ true)
    × All HasAction f.recommendations

absorb-Sound : (f g : Finding) → Sound f → Valid g → Sound (absorb f g)
unfolding absorb
absorb-Sound f g s v = (
  kind (is_confirmed g.kind),
  severity (ltb (severity_rank f.severity) (severity_rank g.severity)),
  confidence (ltb (confidence_rank f.confidence) (confidence_rank g.confidence)),
  add_recommendations-All HasAction f.recommendations g.recommendations s.3 v.acts,
)
  where
    kind : (b : Bool) → finding_kind_valid (if b then confirmed else f.kind) ≡ true
    kind true = refl
    kind false = s.0

    severity : (b : Bool) → severity_valid (if b then g.severity else f.severity) ≡ true
    severity true = v.severity_ok
    severity false = s.1

    confidence : (b : Bool) → confidence_valid (if b then g.confidence else f.confidence) ≡ true
    confidence true = v.confidence_ok
    confidence false = s.2

pub absorb_all-Sound :
    (f : Finding) (items : List Attributed)
    → Sound f
    → All ValidMember items
    → Sound (absorb_all f items)
unfolding absorb_all
absorb_all-Sound f [] s v = s
absorb_all-Sound f (a ∷ items) s v =
    absorb_all-Sound (absorb f a.finding) items (absorb-Sound f a.finding s v.0) v.1
