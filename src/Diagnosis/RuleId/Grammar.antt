-- ===== src/Diagnosis/RuleId/Grammar.antt =====
-- The grammar of a rule identity, against the scan of internal/diagnosis/ruleid.go.
use svcdoctor.Base.{
  ℕ, ◌≤◌, true, false, [], ◌∷◌, ◌++◌, none, some, length, ltb, ◌==◌, ◌≡◌, refl, ap, ◌↔◌, arith,
  Bool-cases, Option-cases, inl, inr,
}
use svcdoctor.Base.Bytes.{Bytes, eqb}
use svcdoctor.Base.Result.{ok, reject-eq-ok, >>-eq-ok}
use svcdoctor.Diagnosis.RuleId.{
  two_slashes, empty_part, long_part, cut_slash, contains_slash, is_lower, is_digit, check_bytes,
  validate_rule_id_part, new_rule_id, max_rule_id_part,
}

-- `[a-z0-9]*(-[a-z0-9]+)*`
pub data Rest : Bytes → Type 0 where
  stop : Rest []
  letter : {c : ℕ} {s : Bytes} → is_lower c ≡ true → Rest s → Rest (c ∷ s)
  digit : {c : ℕ} {s : Bytes} → is_digit c ≡ true → Rest s → Rest (c ∷ s)
  hyphen_letter : {h c : ℕ} {s : Bytes} → h ≡ b'-' → is_lower c ≡ true → Rest s → Rest (h ∷ c ∷ s)
  hyphen_digit : {h c : ℕ} {s : Bytes} → h ≡ b'-' → is_digit c ≡ true → Rest s → Rest (h ∷ c ∷ s)

-- `[a-z][a-z0-9]*(-[a-z0-9]+)*`
pub data Words : Bytes → Type 0 where
  words : {c : ℕ} {s : Bytes} → is_lower c ≡ true → Rest s → Words (c ∷ s)

-- After a hyphen stands a letter or a digit.
data AfterHyphen : Bytes → Type 0 where
  then_letter : {c : ℕ} {s : Bytes} → is_lower c ≡ true → Rest s → AfterHyphen (c ∷ s)
  then_digit : {c : ℕ} {s : Bytes} → is_digit c ≡ true → Rest s → AfterHyphen (c ∷ s)

hyphen : {h : ℕ} {s : Bytes} → h ≡ b'-' → AfterHyphen s → Rest (h ∷ s)
hyphen e (then_letter l r) = hyphen_letter e l r
hyphen e (then_digit d r) = hyphen_digit e d r

check_bytes-cons :
    (p c : ℕ) (s : Bytes) → check_bytes (some p) (c ∷ s) ≡ ok tt → check_bytes (some c) s ≡ ok tt
unfolding check_bytes
check_bytes-cons p c s h = ground arith

-- The scan, from a byte that is not a hyphen and from one that is.
mutual
  unfolding check_bytes eqb

  check_bytes-Rest :
      (p : ℕ) (s : Bytes) → (p == b'-') ≡ false → check_bytes (some p) s ≡ ok tt → Rest s
  check_bytes-Rest p [] n h = stop
  check_bytes-Rest p (c ∷ s) n h = elim (Bool-cases (is_lower c)) [
    | inl low ↦ letter low (check_bytes-Rest c s (ground arith) (check_bytes-cons p c s h))
    | inr other ↦ elim (Bool-cases (is_digit c)) [
      | inl dig ↦ digit dig (check_bytes-Rest c s (ground arith) (check_bytes-cons p c s h))
      | inr neither ↦
          hyphen (ground arith)
            (check_bytes-AfterHyphen c s (ground arith) (ground arith) (check_bytes-cons p c s h))
    ]
  ]

  check_bytes-AfterHyphen :
      (p : ℕ) (s : Bytes)
      → p ≡ b'-'
      → eqb s [] ≡ false
      → check_bytes (some p) s ≡ ok tt
      → AfterHyphen s
  check_bytes-AfterHyphen p [] n some_left h = absurd (cc)
  check_bytes-AfterHyphen p (c ∷ s) n some_left h = elim (Bool-cases (is_lower c)) [
    | inl low ↦ then_letter low (check_bytes-Rest c s (ground arith) (check_bytes-cons p c s h))
    | inr other ↦ elim (Bool-cases (is_digit c)) [
      | inl dig ↦ then_digit dig (check_bytes-Rest c s (ground arith) (check_bytes-cons p c s h))
      | inr neither ↦ absurd (ground arith)
    ]
  ]

Rest-check_bytes :
    (p : ℕ) (s : Bytes) → (p == b'-') ≡ false → Rest s → check_bytes (some p) s ≡ ok tt
unfolding check_bytes eqb
Rest-check_bytes p s n stop = refl
Rest-check_bytes p s n (letter {c} {s = t} low r) =
    let rest = Rest-check_bytes c t (ground arith) r in ground arith
Rest-check_bytes p s n (digit {c} {s = t} dig r) =
    let rest = Rest-check_bytes c t (ground arith) r in ground arith
Rest-check_bytes p s n (hyphen_letter {h} {c} {s = t} e low r) =
    let rest = Rest-check_bytes c t (ground arith) r in ground arith
Rest-check_bytes p s n (hyphen_digit {h} {c} {s = t} e dig r) =
    let rest = Rest-check_bytes c t (ground arith) r in ground arith

-- A half of an identity that is accepted: words of at most 48 bytes.
abbrev pub Part : Bytes → Type 0
Part s = Words s × (length s ≤ max_rule_id_part)

validate_rule_id_part-Part : (s : Bytes) → validate_rule_id_part s ≡ ok tt → Part s
unfolding validate_rule_id_part
validate_rule_id_part-Part [] h = absurd (unfold eqb in cc)
validate_rule_id_part-Part (c ∷ s) h =
    let (filled, h) = reject-eq-ok (eqb (c ∷ s) []) empty_part _ h in
    let (short, h) = reject-eq-ok (ltb max_rule_id_part (length (c ∷ s))) long_part _ h in
    (words (first c s h) (check_bytes-Rest c s (other c s h) (later c s h)), ground arith)
  where
    first : (c : ℕ) (s : Bytes) → check_bytes none (c ∷ s) ≡ ok tt → is_lower c ≡ true
    first c s h = unfold check_bytes in ground arith

    other : (c : ℕ) (s : Bytes) → check_bytes none (c ∷ s) ≡ ok tt → (c == b'-') ≡ false
    other c s h = unfold check_bytes in ground arith

    later : (c : ℕ) (s : Bytes) → check_bytes none (c ∷ s) ≡ ok tt → check_bytes (some c) s ≡ ok tt
    later c s h = unfold check_bytes in ground arith

Part-validate_rule_id_part : (s : Bytes) → Part s → validate_rule_id_part s ≡ ok tt
unfolding validate_rule_id_part eqb check_bytes
Part-validate_rule_id_part s (words {c} {s = t} low r, short) =
    let rest = Rest-check_bytes c t (ground arith) r in ground arith

-- A half of an identity has no slash.
Rest-contains_slash : (s : Bytes) → Rest s → contains_slash s ≡ false
unfolding contains_slash
Rest-contains_slash s stop = refl
Rest-contains_slash s (letter {s = t} low r) = ground (arith, Rest-contains_slash t r)
Rest-contains_slash s (digit {s = t} dig r) = ground (arith, Rest-contains_slash t r)
Rest-contains_slash s (hyphen_letter {s = t} e low r) = ground (arith, Rest-contains_slash t r)
Rest-contains_slash s (hyphen_digit {s = t} e dig r) = ground (arith, Rest-contains_slash t r)

Words-contains_slash : (s : Bytes) → Words s → contains_slash s ≡ false
unfolding contains_slash
Words-contains_slash s (words {s = t} low r) = ground (arith, Rest-contains_slash t r)

cut_slash-concat :
    (s t : Bytes) → contains_slash s ≡ false → cut_slash (s ++ b'/' ∷ t) ≡ some (s, t)
unfolding cut_slash contains_slash
cut_slash-concat [] t n = refl
cut_slash-concat (c ∷ s) t n = ground (arith, cut_slash-concat s t)

cut_slash-some :
    (s before after : Bytes) → cut_slash s ≡ some (before, after) → s ≡ before ++ b'/' ∷ after
unfolding cut_slash
cut_slash-some [] before after h = cc
cut_slash-some (c ∷ s) before after h = elim (Bool-cases (c == b'/')) [
  | inl slash ↦ ground (arith)
  | inr other ↦ elim (Option-cases (cut_slash s)) [
    | inl missing ↦ absurd (ground arith)
    | inr ((b, a), e) ↦
        let same : (c ∷ b ≡ before) × (a ≡ after) = ground arith in
        rw (← same.0, ← same.1) (ap (◌∷◌ c) (cut_slash-some s b a e))
  ]
]

-- An identity: an owner and a name, each lower-case words joined by single hyphens.
abbrev pub IsRuleId : Bytes → Type 0
IsRuleId s = (owner : Bytes) × (name : Bytes) × (s ≡ owner ++ b'/' ∷ name) × Part owner × Part name

new_rule_id-IsRuleId : (s id : Bytes) → new_rule_id s ≡ ok id → (id ≡ s) × IsRuleId s
unfolding new_rule_id
new_rule_id-IsRuleId s id h = elim (Option-cases (cut_slash s)) [
  | inl missing ↦ absurd (ground arith)
  | inr ((owner, name), e) ↦
      let (one, h) = reject-eq-ok (contains_slash name) two_slashes _ (rw e at h) in
      let (left, h) = >>-eq-ok (validate_rule_id_part owner) _ h in
      let (right, h) = >>-eq-ok (validate_rule_id_part name) _ h in
      (
        cc,
        (
          owner,
          name,
          cut_slash-some s owner name e,
          validate_rule_id_part-Part owner left,
          validate_rule_id_part-Part name right,
        ),
      )
]

-- A string is accepted as the identity of a rule, unchanged, exactly if it is an owner and a
-- name joined by one slash, each of at most 48 bytes and of the form
-- `[a-z][a-z0-9]*(-[a-z0-9]+)*`.
pub new_rule_id_iff : (s id : Bytes) → (new_rule_id s ≡ ok id) ↔ ((id ≡ s) × IsRuleId s)
unfolding new_rule_id
new_rule_id_iff s id = (
  new_rule_id-IsRuleId s id,
  λ (same, (owner, name, e, left, right)).
      let split = cut_slash-concat owner name (Words-contains_slash owner left.0) in
      rw
        (
          same,
          e,
          split,
          Words-contains_slash name right.0,
          Part-validate_rule_id_part owner left,
          Part-validate_rule_id_part name right,
        )
        refl,
)
