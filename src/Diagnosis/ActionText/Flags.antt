-- ===== src/Diagnosis/ActionText/Flags.antt =====
-- Words with a single hyphen at their front, for `ValidateActionText` of
-- internal/diagnosis/advice.go.
use svcdoctor.Base.{
  ℕ, Bool, true, false, not, ◌&&◌, ◌||◌, List, [], ◌∷◌, ◌++◌, any, ◌==◌, ◌≡◌, ◌↔◌, refl, sym, ap,
  ◌∙◌, inl, inr, arith, Bool-cases, append-nil, append_assoc,
}
use svcdoctor.Base.Bytes.{codes, eqb}
use svcdoctor.Base.Runes.{fields, push_word, starts_with}
use svcdoctor.Base.Utf8.{is_space}
use svcdoctor.Diagnosis.ActionText.{is_flag}

-- The runes before are none, at the start, or end in a space.
abbrev pub AtStart : Bool → List ℕ → Type 0
AtStart start [] = start ≡ true
AtStart start (r ∷ before) = AtStart (is_space r) before

-- A word starts with a single hyphen.
abbrev pub Flagged : Bool → List ℕ → Type 0
Flagged start rs =
    (before : List ℕ) × (after : List ℕ) × (rs ≡ before ++ b'-' ∷ after)
    × AtStart start before
    × (starts_with (codes "-") after ≡ false)

scan : Bool → List ℕ → Bool
scan start [] = false
scan start (r ∷ rs) =
    (start && r == b'-' && not (starts_with (codes "-") rs)) || scan (is_space r) rs

scan-Flagged : (start : Bool) (rs : List ℕ) → scan start rs ≡ true → Flagged start rs
unfolding scan
scan-Flagged start [] h = absurd (cc)
scan-Flagged start (r ∷ rs) h =
    elim (Bool-cases (start && r == b'-' && not (starts_with (codes "-") rs))) [
      | inl found ↦
          let hyphen : r ≡ b'-' = ground (arith, found) in
          ([], rs, ap (λ c. c ∷ rs) hyphen, ground (arith, found), ground (arith, found))
      | inr other ↦
          let (before, after, e, s, f) = scan-Flagged (is_space r) rs (ground (arith, h, other)) in
          (r ∷ before, after, ap (◌∷◌ r) e, s, f)
    ]

Flagged-scan :
    (start : Bool) (before after : List ℕ)
    → AtStart start before
    → starts_with (codes "-") after ≡ false
    → scan start (before ++ b'-' ∷ after) ≡ true
unfolding scan
Flagged-scan start [] after s f = ground (arith, s, f)
Flagged-scan start (r ∷ before) after s f =
    ground (arith, Flagged-scan (is_space r) before after s f)

-- The word that has begun is a flag, once the rest is read.
abbrev open_flag : List ℕ → List ℕ → Bool
open_flag word rs = starts_with (codes "-") word && not (starts_with (codes "--") (word ++ rs))

open_flag-space :
    (word : List ℕ) (r : ℕ) (rs : List ℕ)
    → is_space r ≡ true
    → open_flag word (r ∷ rs) ≡ is_flag word
unfolding starts_with is_space
open_flag-space [] r rs h = refl
open_flag-space (a ∷ []) r rs h = ground (arith, h)
open_flag-space (a ∷ b ∷ word) r rs h = ground arith

any-push_word :
    (word : List ℕ) (words : List (List ℕ))
    → any is_flag (push_word word words) ≡ (is_flag word || any is_flag words)
unfolding starts_with
any-push_word [] words = refl
any-push_word (r ∷ word) words = refl

open_flag-rune :
    (word : List ℕ) (r : ℕ) (rs : List ℕ)
    → open_flag (word ++ r ∷ []) rs
      ≡ (open_flag word (r ∷ rs) || (eqb word [] && r == b'-' && not (starts_with (codes "-") rs)))
unfolding starts_with eqb
open_flag-rune [] r rs = ground arith
open_flag-rune (a ∷ word) r rs =
    rw (append_assoc word (r ∷ []) rs) (no_more (open_flag (a ∷ word) (r ∷ rs)))
  where
    no_more : (b : Bool) → b ≡ (b || false)
    no_more b = ground arith

not_hyphen : (r : ℕ) → is_space r ≡ true → (r == b'-') ≡ false
unfolding is_space
not_hyphen r h = ground (arith, h)

snoc_full : (word : List ℕ) (r : ℕ) → eqb (word ++ r ∷ []) [] ≡ false
unfolding eqb
snoc_full [] r = refl
snoc_full (a ∷ word) r = refl

fields-scan :
    (word rs : List ℕ) → any is_flag (fields word rs) ≡ (open_flag word rs || scan (eqb word []) rs)
unfolding fields scan starts_with eqb
fields-scan word [] = rw (any-push_word word [], append-nil word) refl
fields-scan word (r ∷ rs) = elim (Bool-cases (is_space r)) [
  | inl space ↦
      rw
        (
          space,
          any-push_word word (fields [] rs),
          fields-scan [] rs,
          open_flag-space word r rs space,
          not_hyphen r space,
        )
        (at_space (is_flag word) (eqb word []) (not (starts_with (codes "-") rs)) (scan true rs))
  | inr inside ↦
      rw (inside, fields-scan (word ++ r ∷ []) rs, open_flag-rune word r rs, snoc_full word r)
        (inside_word (open_flag word (r ∷ rs)) (eqb word []) (r == b'-')
          (not (starts_with (codes "-") rs)) (scan false rs))
]
  where
    at_space : (a b c d : Bool) → (a || (false || d)) ≡ (a || (b && false && c || d))
    at_space a b c d = ground arith

    inside_word : (a b c d e : Bool) → ((a || b && c && d) || e) ≡ (a || (b && c && d || e))
    inside_word a b c d e = ground arith

-- A field of the text is a flag exactly if a word of it starts with a single hyphen.
pub fields-Flagged : (rs : List ℕ) → (any is_flag (fields [] rs) ≡ true) ↔ Flagged true rs
fields-Flagged rs =
    let read : any is_flag (fields [] rs) ≡ scan true rs =
      fields-scan [] rs ∙ unfold starts_with eqb in refl in
    (
      λ h. scan-Flagged true rs (sym read ∙ h),
      λ (before, after, e, s, f). read ∙ ap (scan true) e ∙ Flagged-scan true before after s f,
    )
