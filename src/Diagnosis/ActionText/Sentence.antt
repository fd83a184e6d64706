-- ===== src/Diagnosis/ActionText/Sentence.antt =====
-- What `ValidateActionText` of internal/diagnosis/advice.go calls a sentence.
use svcdoctor.Base.{
  ℕ, Bool, true, false, ◌||◌, List, [], ◌∷◌, ◌++◌, map, any, ◌≡◌, ◌≢◌, ◌↔◌, refl, sym, ap, ◌∙◌, inl,
  inr, arith, Bool-cases,
}
use svcdoctor.Base.Bytes.{Bytes, codes, eqb, member, eqb_iff}
use svcdoctor.Base.Result.{ok}
use svcdoctor.Base.Runes.{decode, fields, before_space, lower, upper, contains}
use svcdoctor.Base.Utf8.{trim_space, is_space}
use svcdoctor.Diagnosis.ActionText.{
  command_words, sql_words, is_metacharacter, is_flag, trim_marks, check_first,
  validate_action_text,
}
use svcdoctor.Diagnosis.ActionText.Flags.{Flagged, fields-Flagged}

-- The rest of a text after a word.
abbrev WordEnd : List ℕ → Type 0
WordEnd [] = Unit
WordEnd (r ∷ rest) = is_space r ≡ true

-- The first word, without the marks around it, does not open an SQL statement.
record NotSql (word rs : List ℕ) : Type 0 where
  not_capital : word ≢ map upper word
  not_select : map lower word ≡ codes "select" → contains (codes " from ") (map lower rs) ≡ false

pub record Sentence (action : Bytes) : Type 0 where
  trimmed : trim_space (decode 0 action) ≡ decode 0 action
  not_blank : decode 0 action ≢ []
  no_shell : any is_metacharacter action ≡ false
  no_flag : ¬ Flagged true (decode 0 action)
  no_command :
      (word rest : List ℕ)
      → decode 0 action ≡ word ++ rest
      → any is_space word ≡ false
      → WordEnd rest
      → member (map lower (trim_marks word)) command_words ≡ false
  no_sql :
      (word rest : List ℕ)
      → decode 0 action ≡ word ++ rest
      → any is_space word ≡ false
      → WordEnd rest
      → member (map lower (trim_marks word)) sql_words ≡ true
      → NotSql (trim_marks word) (decode 0 action)

before_space-word :
    (word rest : List ℕ)
    → any is_space word ≡ false
    → WordEnd rest
    → before_space (word ++ rest) ≡ word
unfolding before_space
before_space-word [] [] h e = refl
before_space-word [] (r ∷ rest) h e = rw e refl
before_space-word (r ∷ word) rest h e =
    let clean : is_space r ≡ false = first (is_space r) (any is_space word) h in
    rw clean
      (ap (◌∷◌ r) (before_space-word word rest (second (is_space r) (any is_space word) h) e))
  where
    first : (a b : Bool) → (a || b) ≡ false → a ≡ false
    first a b h = ground arith

    second : (a b : Bool) → (a || b) ≡ false → b ≡ false
    second a b h = ground arith

before_space-split :
    (rs : List ℕ)
    → (rest : List ℕ) × (rs ≡ before_space rs ++ rest)
      × (any is_space (before_space rs) ≡ false)
      × WordEnd rest
unfolding before_space
before_space-split [] = ([], refl, refl, tt)
before_space-split (r ∷ rs) = elim (Bool-cases (is_space r)) [
  | inl space ↦ (r ∷ rs, rw space refl, rw space refl, space)
  | inr inside ↦
      let (rest, e, clean, end) = before_space-split rs in
      (rest, rw inside (ap (◌∷◌ r) e), rw (inside, inside) clean, end)
]

not_empty : (word : List ℕ) → member (map lower word) sql_words ≡ true → eqb word [] ≡ false
unfolding member eqb
not_empty [] known = absurd (cc)
not_empty (r ∷ word) known = refl

eqb-false : (a b : Bytes) → a ≢ b → eqb a b ≡ false
eqb-false a b differ = elim (Bool-cases (eqb a b)) [
  | inl same ↦ absurd (differ ((eqb_iff a b).0 same))
  | inr other ↦ other
]

-- The checks on the first word.
check_first_iff :
    (word rs : List ℕ)
    → (check_first word rs ≡ ok tt) ↔ (
        (member (map lower word) command_words ≡ false)
        × (member (map lower word) sql_words ≡ true → NotSql word rs))
check_first_iff word rs = (
  λ h. (
    ground (arith, h),
    λ known. record {
      not_capital = λ same.
          let capital = (eqb_iff word (map upper word)).1 same in
          let full = not_empty word known in ground (arith, h, known, capital, full);
      not_select = λ e.
          let select = (eqb_iff (map lower word) (codes "select")).1 e in
          let full = not_empty word known in ground (arith, h, known, select, full);
    },
  ),
  λ (fine, sql). elim (Bool-cases (member (map lower word) sql_words)) [
    | inl known ↦
        let n = sql known in
        let small = eqb-false word (map upper word) n.not_capital in
        elim (Bool-cases (eqb (map lower word) (codes "select"))) [
          | inl e ↦
              let far = n.not_select ((eqb_iff (map lower word) (codes "select")).0 e) in
              ground (arith, fine, known, small, e, far)
          | inr e ↦ ground (arith, fine, known, small, e)
        ]
    | inr other ↦ ground (arith, fine, other)
  ],
)

module _ (action : Bytes) where
  abbrev text : List ℕ
  text = decode 0 action

  -- An action is accepted exactly if it is a sentence: it is not blank, has no space around it, no
  -- shell metacharacter, no word with a single hyphen at its front, and its first word, without the
  -- marks around it, is no command and opens no SQL statement.
  pub validate_action_text-Sentence : (validate_action_text action ≡ ok tt) ↔ Sentence action
  unfolding validate_action_text
  validate_action_text-Sentence = (
    λ h.
        let first : check_first (trim_marks (before_space text)) text ≡ ok tt = ground (arith, h) in
        let (command, sql) = (check_first_iff (trim_marks (before_space text)) text).0 first in
        let whole : eqb (trim_space text) text ≡ true = ground (arith, h) in
        let some_text : eqb (trim_space text) [] ≡ false = ground (arith, h) in
        record {
          trimmed = (eqb_iff (trim_space text) text).0 whole;
          not_blank = λ e. blank some_text (((eqb_iff (trim_space text) text).0 whole) ∙ e);
          no_shell = ground (arith, h);
          no_flag = λ f. let bad = (fields-Flagged text).1 f in ground (arith, h, bad);
          no_command = λ word rest e clean end. rw (← (first_word word rest e clean end)) command;
          no_sql = λ word rest e clean end. rw (← (first_word word rest e clean end)) sql;
        },
    λ s.
        let (rest, e, clean, end) = before_space-split text in
        let first : check_first (trim_marks (before_space text)) text ≡ ok tt =
          (check_first_iff (trim_marks (before_space text)) text).1 (
            s.no_command (before_space text) rest e clean end,
            s.no_sql (before_space text) rest e clean end,
          ) in
        let whole = (eqb_iff (trim_space text) text).1 s.trimmed in
        let some_text =
          eqb-false (trim_space text) [] (λ empty. s.not_blank (sym s.trimmed ∙ empty)) in
        let no_flags : any is_flag (fields [] text) ≡ false =
          elim (Bool-cases (any is_flag (fields [] text))) [
            | inl flag ↦ absurd (s.no_flag ((fields-Flagged text).0 flag))
            | inr none ↦ none
          ] in
        let quiet = s.no_shell in ground (arith, first, whole, some_text, no_flags, quiet),
  )
    where
      blank : eqb (trim_space text) [] ≡ false → trim_space text ≡ [] → ⊥
      blank full empty = let same = (eqb_iff (trim_space text) []).1 empty in cc

      first_word :
          (word rest : List ℕ)
          → text ≡ word ++ rest
          → any is_space word ≡ false
          → WordEnd rest
          → before_space text ≡ word
      first_word word rest e clean end = ap before_space e ∙ before_space-word word rest clean end
