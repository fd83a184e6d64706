-- ===== src/Scram/Parse/Attributes.antt =====
-- What the walk of internal/sasl/scram/parse.go finds in the server's first message.
use svcdoctor.Base.{
  ℕ, zero, suc, ◌≤◌, Bool, false, List, [], ◌∷◌, ◌++◌, any, Option, none, some, length, ◌==◌, ◌≡◌,
  refl, sym, ap, subst, ◌∙◌, inl, inr, arith, Bool-cases, Option-cases, append-nil, append_assoc,
  if◌then◌else◌,
}
use svcdoctor.Base.Bytes.{Bytes}
use svcdoctor.Base.Result.{ok, >>=-eq-ok}
use svcdoctor.Scram.Parse.{cut_comma, read_attribute, attributes, Seen, visit_first}

abbrev pub Attribute : Type 0
Attribute = ℕ × Bytes

abbrev pub has_comma : Bytes → Bool
has_comma s = any (λ c. c == b',') s

-- A message is its attributes, a key, `=` and a value each, with commas between them.
pub data Written : Bytes → List Attribute → Type 0 where
  last : {k : ℕ} {v : Bytes} → has_comma (k ∷ v) ≡ false → Written (k ∷ b'=' ∷ v) ((k, v) ∷ [])
  next :
      {k : ℕ} {v rest : Bytes} {attrs : List Attribute}
      → has_comma (k ∷ v) ≡ false
      → Written rest attrs
      → Written (k ∷ b'=' ∷ (v ++ b',' ∷ rest)) ((k, v) ∷ attrs)

-- The values under a key, in their order.
abbrev pub values_of : ℕ → List Attribute → List Bytes
values_of key [] = []
values_of key ((k, v) ∷ attrs) = if k == key then v ∷ values_of key attrs else values_of key attrs

abbrev pub opened : Option Bytes → Bytes
opened none = []
opened (some s) = b',' ∷ s

pub cut_comma_lem :
    (raw : Bytes)
    → (raw ≡ (cut_comma raw).0 ++ opened (cut_comma raw).1) × (has_comma (cut_comma raw).0 ≡ false)
unfolding cut_comma
cut_comma_lem [] = (refl, refl)
cut_comma_lem (c ∷ s) = elim (Bool-cases (c == b',')) [
  | inl comma ↦ let e : c ≡ b',' = ground (arith, comma) in rw comma (ap (λ x. x ∷ s) e, refl)
  | inr other ↦ let (e, clean) = cut_comma_lem s in rw other (ap (◌∷◌ c) e, rw other clean)
]

pub read_attribute-eq-ok :
    (s : Bytes) (k : ℕ) (v : Bytes) → read_attribute s ≡ ok (k, v) → s ≡ k ∷ b'=' ∷ v
read_attribute-eq-ok [] k v h = absurd (cc)
read_attribute-eq-ok (c ∷ []) k v h = absurd (cc)
read_attribute-eq-ok (c ∷ d ∷ s) k v h = ground (arith, h)

abbrev pub as_list : Option Bytes → List Bytes
as_list none = []
as_list (some v) = v ∷ []

-- What is kept of the keys `r`, `s` and `i` grows by the values that are met; `m` is not met.
pub record Kept (before after : Seen) (attrs : List Attribute) : Type 0 where
  pub r : as_list after.r ≡ as_list before.r ++ values_of b'r' attrs
  pub s : as_list after.s ≡ as_list before.s ++ values_of b's' attrs
  pub i : as_list after.i ≡ as_list before.i ++ values_of b'i' attrs
  pub m : values_of b'm' attrs ≡ []

visit_first-Kept :
    (key : ℕ) (value : Bytes) (before after : Seen)
    → visit_first key value before ≡ ok after
    → Kept before after ((key, value) ∷ [])
unfolding visit_first
visit_first-Kept key value before after h = record {
  r = elim (Option-cases before.r) [
    | inl fresh ↦ ground (arith, h, fresh, append-nil (as_list before.r))
    | inr (old, known) ↦ ground (arith, h, known, append-nil (as_list before.r))
  ];
  s = elim (Option-cases before.s) [
    | inl fresh ↦ ground (arith, h, fresh, append-nil (as_list before.s))
    | inr (old, known) ↦ ground (arith, h, known, append-nil (as_list before.s))
  ];
  i = elim (Option-cases before.i) [
    | inl fresh ↦ ground (arith, h, fresh, append-nil (as_list before.i))
    | inr (old, known) ↦ ground (arith, h, known, append-nil (as_list before.i))
  ];
  m = ground (arith, h);
}

values_of-append :
    (key : ℕ) (xs ys : List Attribute)
    → values_of key (xs ++ ys) ≡ values_of key xs ++ values_of key ys
values_of-append key [] ys = refl
values_of-append key ((k, v) ∷ xs) ys = ground (arith, values_of-append key xs ys)

grown :
    (key : ℕ) (a b c : List Bytes) (x : Attribute) (attrs : List Attribute)
    → b ≡ a ++ values_of key (x ∷ [])
    → c ≡ b ++ values_of key attrs
    → c ≡ a ++ values_of key (x ∷ attrs)
grown key a b c x attrs first rest =
    rest
    ∙ ap (λ l. l ++ values_of key attrs) first
    ∙ append_assoc a (values_of key (x ∷ [])) (values_of key attrs)
    ∙ ap (◌++◌ a) (sym (values_of-append key (x ∷ []) attrs))

Kept-trans :
    (a b c : Seen) (x : Attribute) (attrs : List Attribute)
    → Kept a b (x ∷ [])
    → Kept b c attrs
    → Kept a c (x ∷ attrs)
Kept-trans a b c x attrs first rest = record {
  r = grown b'r' _ _ _ x attrs first.r rest.r;
  s = grown b's' _ _ _ x attrs first.s rest.s;
  i = grown b'i' _ _ _ x attrs first.i rest.i;
  m = values_of-append b'm' (x ∷ []) attrs ∙ ap (λ l. l ++ values_of b'm' attrs) first.m ∙ rest.m;
}

key_clean :
    (b : Bytes) (k : ℕ) (v : Bytes)
    → b ≡ k ∷ b'=' ∷ v
    → has_comma b ≡ false
    → has_comma (k ∷ v) ≡ false
key_clean b k v text clean =
    let moved : has_comma (k ∷ b'=' ∷ v) ≡ false = ap has_comma (sym text) ∙ clean in
    ground (arith, moved)

Written-last :
    (raw b : Bytes) (k : ℕ) (v : Bytes)
    → raw ≡ b ++ []
    → b ≡ k ∷ b'=' ∷ v
    → has_comma b ≡ false
    → Written raw ((k, v) ∷ [])
Written-last raw b k v split text clean =
    rw (split ∙ append-nil b ∙ text) (last (key_clean b k v text clean))

Written-next :
    (raw b rest : Bytes) (k : ℕ) (v : Bytes) (attrs : List Attribute)
    → raw ≡ b ++ b',' ∷ rest
    → b ≡ k ∷ b'=' ∷ v
    → has_comma b ≡ false
    → Written rest attrs
    → Written raw ((k, v) ∷ attrs)
Written-next raw b rest k v attrs split text clean written =
    rw (split ∙ ap (λ x. x ++ b',' ∷ rest) text) (next (key_clean b k v text clean) written)

-- A walk that succeeds has met all attributes of the message.
pub attributes-Kept :
    (left : ℕ) (raw : Bytes) (before after : Seen)
    → attributes visit_first left raw before ≡ ok after
    → (attrs : List Attribute) × Written raw attrs × (length attrs ≤ left) × Kept before after attrs
unfolding attributes
attributes-Kept zero raw before after h = absurd (cc)
attributes-Kept (suc left) raw before after h =
    let (split, clean) = cut_comma_lem raw in
    let ((key, value), read, h1) = >>=-eq-ok (read_attribute (cut_comma raw).0) _ h in
    let (kept, visited, h2) = >>=-eq-ok (visit_first key value before) _ h1 in
    let first = visit_first-Kept key value before kept visited in
    let text = read_attribute-eq-ok (cut_comma raw).0 key value read in
    elim (Option-cases (cut_comma raw).1) [
      | inl end ↦
          let same : ok kept ≡ ok after = rw end at h2 in
          let same_kept : kept ≡ after = cc in
          let whole : raw ≡ (cut_comma raw).0 ++ [] = rw end at split in
          (
            (key, value) ∷ [],
            Written-last raw (cut_comma raw).0 key value whole text clean,
            one left,
            subst (λ x. Kept before x ((key, value) ∷ [])) same_kept first,
          )
      | inr (rest, more) ↦
          let goes_on : attributes visit_first left rest kept ≡ ok after = rw more at h2 in
          let whole : raw ≡ (cut_comma raw).0 ++ b',' ∷ rest = rw more at split in
          let (attrs, written, few, later) = attributes-Kept left rest kept after goes_on in
          (
            (key, value) ∷ attrs,
            Written-next raw (cut_comma raw).0 rest key value attrs whole text clean written,
            one_more (length attrs) left few,
            Kept-trans before kept after (key, value) attrs first later,
          )
    ]
  where
    one : (n : ℕ) → 1 ≤ suc n
    one n = omega arith

    one_more : (n m : ℕ) → n ≤ m → suc n ≤ suc m
    one_more n m h = omega arith
