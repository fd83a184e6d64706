-- ===== src/Rabbitmq/Table/Moves.antt =====
-- What a round of the walk over a field table (internal/adapter/rabbitmq/wire/table.go) takes.
use svcdoctor.Base.{
  ℕ, ◌+◌, ◌≤◌, Bool, true, false, [], ◌∷◌, ◌++◌, Option, none, some, length, ltb, ◌==◌,
  if◌then◌else◌, All, append_assoc, length-append, Bool-cases, Option-cases, inl, inr, ◌≡◌, refl,
  sym, ap, ◌∙◌, arith,
}
use svcdoctor.Base.Bytes.{Bytes, eqb}
use svcdoctor.Base.Result.{
  ok-injective, Result, ok, err, ◌>>=◌, ◌>>◌, reject, >>=-eq-ok, reject-eq-ok,
}
use svcdoctor.Base.ReadFull.{read_bytes, read_bytes-some}
use svcdoctor.Rabbitmq.Table.{
  Cursor, FieldError, past_end, unknown_type, remaining, take_bytes, uint_of, u32, longstr,
  fixed_field_size, var_field_type, wanted, Fields, put, read_value, walk_field,
}

-- From `c` to `c'` the cursor took at least `least` bytes.
pub record Moves (least : ℕ) (c c' : Cursor) : Type 0 where
  pub front : Bytes
  pub split : c.rest ≡ front ++ c'.rest
  pub moved : c'.off ≡ c.off + length front
  pub enough : least ≤ length front

pub Moves-trans : (a b : ℕ) {c d e : Cursor} → Moves a c d → Moves b d e → Moves (a + b) c e
Moves-trans a b {c} {d} {e} m n = record {
  front = m.front ++ n.front;
  split =
      m.split
      ∙ ap (λ (x : Bytes). m.front ++ x) n.split
      ∙ sym (append_assoc m.front n.front e.rest);
  moved = omega (arith, length-append m.front n.front, m.moved, n.moved);
  enough = omega (arith, length-append m.front n.front, m.enough, n.enough);
}

take_bytes-Moves :
    (n : ℕ) (c c' : Cursor) (got : Bytes) → take_bytes n c ≡ ok (got, c') → Moves n c c'
unfolding take_bytes
take_bytes-Moves n c c' got h = elim (Option-cases (read_bytes n c.rest)) [
  | inl short ↦ absurd (ground arith)
  | inr ((got', rest), e) ↦
      let (split, size) = read_bytes-some n c.rest got' rest e in
      let after : record { rest = rest; off = c.off + n } ≡ c' = ground arith in
      rw (← after) (record {
        front = got';
        split = split;
        moved = omega (arith, size);
        enough = omega (arith, size);
      })
]

uint_of-Moves :
    (width : ℕ) (c c' : Cursor) (n : ℕ) → uint_of width c ≡ ok (n, c') → Moves width c c'
unfolding uint_of
uint_of-Moves width c c' n h =
    let ((got, d), e, h') = >>=-eq-ok (take_bytes width c) _ h in
    rw (← (ok-injective h').1) (take_bytes-Moves width c d got e)

pub Moves-weaken : (a b : ℕ) {c d : Cursor} → b ≤ a → Moves a c d → Moves b c d
Moves-weaken a b le m = record {
  front = m.front;
  split = m.split;
  moved = m.moved;
  enough = omega (arith, le, m.enough);
}

longstr-Moves : (c c' : Cursor) (v : Bytes) → longstr c ≡ ok (v, c') → Moves 0 c c'
unfolding longstr
longstr-Moves c c' v h =
    let ((n, d), e, h) = >>=-eq-ok (uint_of 4 c) _ h in
    let (_, h) = reject-eq-ok (ltb (remaining d) n) past_end _ h in
    Moves-weaken (4 + n) 0 (omega arith)
      (Moves-trans 4 n (uint_of-Moves 4 c d n e) (take_bytes-Moves n d c' v h))

-- Only wanted names are kept.
abbrev pub Wanted : Bytes × Bytes → Type 0
Wanted entry = wanted entry.0 ≡ true

put-Wanted :
    (name v : Bytes) (out : Fields)
    → wanted name ≡ true
    → All Wanted out
    → All Wanted (put name v out)
unfolding put
put-Wanted name v [] w h = (w, tt)
put-Wanted name v ((k, old) ∷ out) w h = elim (Bool-cases (eqb k name)) [
  | inl same ↦ rw same h
  | inr other ↦ rw other (h.0, put-Wanted name v out w h.1)
]

keep-Wanted :
    (name v : Bytes) (out : Fields)
    → All Wanted out
    → All Wanted (if wanted name then put name v out else out)
keep-Wanted name v out h = elim (Bool-cases (wanted name)) [
  | inl w ↦ rw w (put-Wanted name v out w h)
  | inr plain ↦ rw plain h
]

read_value-Moves :
    (name : Bytes) (type : ℕ) (out out' : Fields) (c c' : Cursor)
    → read_value name type out c ≡ ok (out', c')
    → Moves 0 c c' × (All Wanted out → All Wanted out')
unfolding read_value
read_value-Moves name type out out' c c' h =
    by_kind (type == b'S') (var_field_type type) (fixed_field_size type) h
  where
    by_kind :
        (text var : Bool) (fixed : Option ℕ)
        → (if text
            then ◌>>=◌ {B = Fields × Cursor}
                (longstr c)
                (λ x. ok (if wanted name then put name x.0 out else out, x.1))
            else if var
            then ◌>>=◌ {B = Fields × Cursor} (u32 c) (λ x.
              reject (ltb (remaining x.1) x.0) past_end
              >> (◌>>=◌ {B = Fields × Cursor} (take_bytes x.0 x.1) (λ y. ok (out, y.1))))
            else elim fixed [
              | none ↦ err unknown_type
              | some width ↦ ◌>>=◌ {B = Fields × Cursor} (take_bytes width c) (λ x. ok (out, x.1))
            ])
          ≡ ok (out', c')
        → Moves 0 c c' × (All Wanted out → All Wanted out')
    by_kind true var fixed h =
        let ((v, d), e, h) = >>=-eq-ok (longstr c) _ h in
        let (made, after) = ok-injective h in
        (rw (← after) (longstr-Moves c d v e), λ w. rw (← made) (keep-Wanted name v out w))
    by_kind false true fixed h =
        let ((n, d), e, h) = >>=-eq-ok (uint_of 4 c) _ h in
        let (_, h) = reject-eq-ok (ltb (remaining d) n) past_end _ h in
        let ((skipped, d'), e', h) = >>=-eq-ok (take_bytes n d) _ h in
        let (made, after) = ok-injective h in
        (
          rw (← after) (
              Moves-weaken (4 + n) 0 (omega arith)
                (Moves-trans 4 n (uint_of-Moves 4 c d n e) (take_bytes-Moves n d d' skipped e'))),
          λ w. rw (← made) w,
        )
    by_kind false false none h = cc
    by_kind false false (some width) h =
        let ((skipped, d), e, h) = >>=-eq-ok (take_bytes width c) _ h in
        let (made, after) = ok-injective h in
        (
          rw (← after) (Moves-weaken width 0 (omega arith) (take_bytes-Moves width c d skipped e)),
          λ w. rw (← made) w,
        )

pub walk_field-Moves :
    (out out' : Fields) (c c' : Cursor)
    → walk_field out c ≡ ok (out', c')
    → Moves 2 c c' × (All Wanted out → All Wanted out')
unfolding walk_field
walk_field-Moves out out' c c' h =
    let ((n, c₁), e₁, h) = >>=-eq-ok (uint_of 1 c) _ h in
    let ((name, c₂), e₂, h) = >>=-eq-ok (take_bytes n c₁) _ h in
    let ((type, c₃), e₃, h) = >>=-eq-ok (uint_of 1 c₂) _ h in
    let (value, kept) = read_value-Moves name type out out' c₃ c' h in
    let start = Moves-trans 1 n (uint_of-Moves 1 c c₁ n e₁) (take_bytes-Moves n c₁ c₂ name e₂) in
    let all =
      Moves-trans (1 + n + 1) 0 (Moves-trans (1 + n) 1 start (uint_of-Moves 1 c₂ c₃ type e₃))
        value in
    (Moves-weaken (1 + n + 1 + 0) 2 (omega arith) all, kept)

-- A round that succeeds takes two bytes or more.
abbrev pub TakesTwo : Cursor → Result FieldError (Fields × Cursor) → Type 0
TakesTwo c (err e) = Unit {0}
TakesTwo c (ok (out, c')) = Moves 2 c c'

pub walk_field-TakesTwo : (out : Fields) (c : Cursor) → TakesTwo c (walk_field out c)
walk_field-TakesTwo out c =
    by_result (walk_field out c) (λ out' c' h. (walk_field-Moves out out' c c' h).0)
  where
    by_result :
        (r : Result FieldError (Fields × Cursor))
        → ((out' : Fields) (c' : Cursor) → r ≡ ok (out', c') → Moves 2 c c')
        → TakesTwo c r
    by_result (err e) h = tt
    by_result (ok (out', c')) h = h out' c' refl
