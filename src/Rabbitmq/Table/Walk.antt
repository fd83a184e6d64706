-- ===== src/Rabbitmq/Table/Walk.antt =====
-- The walk over a field table ends, and takes exactly the bytes that the table declares.
use svcdoctor.Base.{
  ℕ, zero, suc, ◌+◌, ◌*◌, ◌≤◌, ◌<◌, Bool, true, false, not, [], ◌++◌, length, ltb, ◌==◌, All,
  Bool-cases, inl, inr, ◌≡◌, ◌≢◌, refl, sym, ap, ◌∙◌, arith,
}
use svcdoctor.Base.Bytes.{Bytes}
use svcdoctor.Base.Result.{
  ok-injective, Result, ok, err, ◌>>=◌, ◌>>◌, reject, Result-cases, >>=-eq-ok, reject-eq-ok,
}
use svcdoctor.Rabbitmq.Table.{
  Cursor, FieldError, remaining, Fields, walk_field, TableError, too_long, overran, out_of_fuel,
  in_table, walk_fields, walk_top_level_table,
}
use svcdoctor.Rabbitmq.Table.Moves.{
  Moves, Moves-trans, Moves-weaken, Wanted, walk_field-Moves, TakesTwo, walk_field-TakesTwo,
}

in_table-ok : {A : Type 0} (r : Result FieldError A) {a : A} → in_table r ≡ ok a → r ≡ ok a
in_table-ok (ok a) h = ground arith
in_table-ok (err e) h = cc

walk_fields-Moves :
    (fuel end : ℕ) (out out' : Fields) (c c' : Cursor)
    → walk_fields fuel end out c ≡ ok (out', c')
    → All Wanted out
    → Moves 0 c c' × All Wanted out'
unfolding walk_fields
walk_fields-Moves zero end out out' c c' h w = cc
walk_fields-Moves (suc fuel) end out out' c c' h w = elim (Bool-cases (ltb c.off end)) [
  | inl more ↦
      let ((out₁, c₁), e, h) =
        >>=-eq-ok (in_table (walk_field out c)) _ (rw (more, walk_fields) at h) in
      let (first, kept) = walk_field-Moves out out₁ c c₁ (in_table-ok (walk_field out c) e) in
      let (rest, w₂) = walk_fields-Moves fuel end out₁ out' c₁ c' h (kept w) in
      (Moves-weaken (2 + 0) 0 (omega arith) (Moves-trans 2 0 first rest), w₂)
  | inr over ↦
      let (made, after) = ok-injective (rw (over, walk_fields) at h) in
      (
        rw (← after)
            (record { front = []; split = refl; moved = omega arith; enough = omega arith }),
        rw (← made) w,
      )
]

-- A table that is accepted took exactly the bytes that it declares from the payload, whatever its
-- fields are, and only wanted names are kept of it.
pub walk_top_level_table-ok :
    (c c' : Cursor) (size : ℕ) (out : Fields)
    → walk_top_level_table c size ≡ ok (out, c')
    → (c'.off ≡ c.off + size)
      × ((front : Bytes) × (c.rest ≡ front ++ c'.rest) × (length front ≡ size))
      × All Wanted out
unfolding walk_top_level_table
walk_top_level_table-ok c c' size out h =
    let (_, h) = reject-eq-ok (ltb (remaining c) size) too_long _ h in
    let ((out₁, c₁), e, h) = >>=-eq-ok (walk_fields (suc size) (c.off + size) [] c) _ h in
    let (at_end, h) = reject-eq-ok (not (c₁.off == c.off + size)) overran _ h in
    let (made, after) = ok-injective h in
    let (m, w) = walk_fields-Moves (suc size) (c.off + size) [] out₁ c c₁ e tt in
    let off : c₁.off ≡ c.off + size = ground arith in
    (
      ap (λ (x : Cursor). x.off) (sym after) ∙ off,
      (
        m.front,
        m.split ∙ ap (λ (x : Cursor). m.front ++ x.rest) after,
        omega (arith, m.moved, off),
      ),
      rw (← made) w,
    )

enough_rounds :
    (fuel end : ℕ) (out : Fields) (c : Cursor)
    → 0 < fuel
    → end + 2 ≤ c.off + 2 * fuel
    → walk_fields fuel end out c ≢ err out_of_fuel
unfolding walk_fields
enough_rounds zero end out c left room h = absurd (omega arith)
enough_rounds (suc fuel) end out c left room h = elim (Bool-cases (ltb c.off end)) [
  | inl more ↦ elim (Result-cases (walk_field out c)) [
    | inl ((out₁, c₁), e) ↦
        let (m, kept) = walk_field-Moves out out₁ c c₁ e in
        enough_rounds fuel end out₁ c₁ (ground arith) (ground (arith, m.moved, m.enough))
          (rw (more, e, walk_fields) at h)
    | inr (f, e) ↦ absurd (cc (rw (more, e, walk_fields) at h))
  ]
  | inr over ↦ absurd (cc (rw (over, walk_fields) at h))
]

-- With enough rounds, their number makes no difference.
same_rounds :
    (fuel fuel' end : ℕ) (out : Fields) (c : Cursor)
    → 0 < fuel
    → end + 2 ≤ c.off + 2 * fuel
    → 0 < fuel'
    → end + 2 ≤ c.off + 2 * fuel'
    → walk_fields fuel end out c ≡ walk_fields fuel' end out c
unfolding walk_fields
same_rounds zero fuel' end out c left room left' room' = absurd (omega arith)
same_rounds (suc fuel) zero end out c left room left' room' = absurd (omega arith)
same_rounds (suc fuel) (suc fuel') end out c left room left' room' =
    elim (Bool-cases (ltb c.off end)) [
      | inl more ↦ elim (Result-cases (walk_field out c)) [
        | inl ((out₁, c₁), e) ↦
            let (m, kept) = walk_field-Moves out out₁ c c₁ e in
            rw (more, e, walk_fields)
              (same_rounds fuel fuel' end out₁ c₁ (ground arith) (ground (arith, m.moved, m.enough))
                (ground arith) (ground (arith, m.moved, m.enough)))
        | inr (f, e) ↦ rw (more, e, walk_fields) refl
      ]
      | inr over ↦ rw (over, walk_fields) refl
    ]

-- The walk over a table always ends. Each round that succeeds takes two bytes or more, whatever the
-- fields so far; half as many rounds as the table declares bytes, and one, do not run out and
-- already give what the rounds of the walk give.
pub walk_top_level_table-total :
    (c : Cursor) (size fuel : ℕ)
    → size + 2 ≤ 2 * fuel
    → (out : Fields) (d : Cursor)
    → TakesTwo d (walk_field out d)
      × (walk_top_level_table c size ≢ err out_of_fuel)
      × (walk_fields fuel (c.off + size) [] c ≢ err out_of_fuel)
      × (walk_fields (suc size) (c.off + size) [] c ≡ walk_fields fuel (c.off + size) [] c)
unfolding walk_top_level_table
walk_top_level_table-total c size fuel half out d = (
  walk_field-TakesTwo out d,
  checked (ltb (remaining c) size) (walk_fields (suc size) (c.off + size) [] c)
      (enough_rounds (suc size) (c.off + size) [] c (omega arith) (omega arith)),
  enough_rounds fuel (c.off + size) [] c (omega arith) (omega arith),
  same_rounds (suc size) fuel (c.off + size) [] c (omega arith) (omega arith) (omega arith)
      (omega arith),
)
  where
    ended : (b : Bool) (x : Fields × Cursor) → (reject b overran >> ok x) ≢ err out_of_fuel
    ended true x h = cc
    ended false x h = cc

    checked :
        (b : Bool) (r : Result TableError (Fields × Cursor))
        → r ≢ err out_of_fuel
        → (reject b too_long
            >> ◌>>=◌ {B = Fields × Cursor} r
                (λ x. reject (not (x.1.off == c.off + size)) overran >> ok (x.0, x.1)))
          ≢ err out_of_fuel
    checked true r ne h = cc
    checked false (ok x) ne h = ended (not (x.1.off == c.off + size)) x h
    checked false (err e) ne h = ne h
