-- ===== src/Redis/Resp/Overflow.antt =====
-- The length of a bulk string, near the largest 64-bit integer.
use svcdoctor.Base.{
  ℕ, ◌+◌, ◌-◌, ◌≤◌, ◌<◌, Bool, true, false, not, [], ◌∷◌, Option, none, some, ltb, drop, take, ◌≡◌,
  ◌≢◌, sym, ap, ◌∙◌, ◌↔◌, Bool-cases, inl, inr, arith,
}
use svcdoctor.Base.Bytes.{Bytes, eqb}
use svcdoctor.Base.Int.{ℤ, pos, negsuc}
use svcdoctor.Base.Result.{Result, ok, err, ◌>>◌, reject, >>=-eq-err}
use svcdoctor.Base.ReadFull.{read_bytes}
use svcdoctor.Redis.Resp.{
  ReplyError, connection, malformed, too_large, panicked, Reply, bulk, Reader, spend, read_line,
  parse_int, plus_two, read_body, bulk_of, read_bulk,
}

-- A negative size passes the budget and reaches `make`.
negative_size :
    (n : ℕ) (k : ℕ) (r : Reader) → plus_two n ≡ negsuc k → bulk_of (pos n) r ≡ err panicked
unfolding bulk_of spend read_body
negative_size n k r e = rw e

read_body-calm : (n : ℕ) (r : Reader) → read_body (pos n) r ≢ err panicked
unfolding read_body
read_body-calm n r h = by_bytes (read_bytes n r.bytes) h
  where
    by_bytes :
        (got : Option (Bytes × Bytes))
        → ◌≡◌ {A = Result ReplyError (Bytes × Reader)}
            (elim got [
              | none ↦ err (connection r.ended)
              | some (body, rest) ↦ ok (body, record r { bytes = rest })
            ])
            (err panicked)
        → ⊥
    by_bytes none h = cc
    by_bytes (some (body, rest)) h = cc

guard-calm : (b : Bool) (x : Reply × Reader) → (reject b malformed >> ok x) ≢ err panicked
guard-calm true x h = cc
guard-calm false x h = cc

spend-calm : (k : ℕ) (r : Reader) → spend (pos k) r ≢ err panicked
unfolding spend
spend-calm k r h = by_test (ltb r.remaining k) h
  where
    by_test :
        (b : Bool)
        → (reject b too_large >> ok (record r { remaining = r.remaining - k })) ≡ err panicked
        → ⊥
    by_test true h = cc
    by_test false h = cc

positive_size : (n : ℕ) (k : ℕ) (r : Reader) → plus_two n ≡ pos k → bulk_of (pos n) r ≢ err panicked
unfolding bulk_of
positive_size n k r e h = elim (>>=-eq-err (spend (pos k) r) _ (rw e at h)) [
  | inl first ↦ spend-calm k r first
  | inr (s, paid, h) ↦ elim (>>=-eq-err (read_body (pos k) s) _ h) [
    | inl second ↦ read_body-calm k s second
    | inr ((body, u), got, h) ↦
        guard-calm (not (eqb (drop n body) (13 ∷ 10 ∷ []))) (bulk (take n body), u) h
  ]
]

plus_two-wraps : (n : ℕ) → 9223372036854775806 ≤ n → (k : ℕ) × (plus_two n ≡ negsuc k)
unfolding plus_two
plus_two-wraps n h = (18446744073709551615 - (n + 2), ground arith)

plus_two-fits : (n : ℕ) → n < 9223372036854775806 → plus_two n ≡ pos (n + 2)
unfolding plus_two
plus_two-fits n h = ground arith

-- Reading a bulk string whose length line is a number that is not negative panics exactly when
-- that number and two more do not fit in a signed 64-bit integer.
pub read_bulk_panics_iff :
    (r s : Reader) (line : Bytes) (n : ℕ)
    → read_line r ≡ ok (line, s)
    → parse_int line ≡ some (pos n)
    → (read_bulk r ≡ err panicked) ↔ (9223372036854775806 ≤ n)
unfolding read_bulk
read_bulk_panics_iff r s line n read number = (λ h. only (sym known ∙ h), λ h. known ∙ wraps h)
  where
    sized : Option ℤ → Result ReplyError (Reply × Reader)
    sized m = elim m [ none ↦ err malformed | some k ↦ bulk_of k s ]

    known : read_bulk r ≡ bulk_of (pos n) s
    known = rw read (ap sized number)

    only : bulk_of (pos n) s ≡ err panicked → 9223372036854775806 ≤ n
    only h = elim (Bool-cases (ltb n 9223372036854775806)) [
      | inl small ↦ absurd (positive_size n (n + 2) s (plus_two-fits n (ground (arith, small))) h)
      | inr large ↦ ground (arith, large)
    ]

    wraps : 9223372036854775806 ≤ n → bulk_of (pos n) s ≡ err panicked
    wraps h = let (k, e) = plus_two-wraps n h in negative_size n k s e
