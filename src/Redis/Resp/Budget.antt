-- ===== src/Redis/Resp/Budget.antt =====
-- A reply that is read took from the budget exactly the bytes that it took from the connection, and
-- is not nested deeper than the reader allows.
use svcdoctor.Base.{
  ℕ, zero, suc, ◌+◌, ◌-◌, ◌≤◌, Bool, true, false, not, [], ◌∷◌, ◌++◌, Option, none, some, length,
  drop, ltb, ◌==◌, if◌then◌else◌, append_assoc, length-append, Option-cases, inl, inr, ◌≡◌, refl,
  sym, ap, ◌∙◌, arith,
}
use svcdoctor.Base.Bytes.{Bytes, eqb}
use svcdoctor.Base.Int.{ℤ, pos, negsuc}
use svcdoctor.Base.Result.{ok-injective, Result, ok, err, ◌>>=◌, >>=-eq-ok, reject-eq-ok}
use svcdoctor.Base.ReadFull.{read_bytes, read_bytes-some}
use svcdoctor.Redis.Resp.{
  max_reply_size, max_array_elements, max_depth, ReplyError, connection, malformed, too_large,
  Reply, simple_string, error, integer, bulk, null_bulk, null_array, array, Replies, end, reply,
  Reader, begin, spend, read_byte, strip_return, line_loop, read_line, parse_int, plus_two,
  read_body, bulk_of, read_bulk, read_elements, array_of, read_array, integer_of, read_kind,
  read_frame, read_reply,
}

-- The bytes that were taken, and what they cost.
pub record Spent (r r' : Reader) : Type 0 where
  pub front : Bytes
  pub split : r.bytes ≡ front ++ r'.bytes
  pub paid : r'.remaining + length front ≡ r.remaining

Spent-refl : (r : Reader) → Spent r r
Spent-refl r = record { front = []; split = refl; paid = omega arith }

Spent-trans : {r s t : Reader} → Spent r s → Spent s t → Spent r t
Spent-trans {r} {s} {t} p q = record {
  front = p.front ++ q.front;
  split =
      p.split
      ∙ ap (λ (x : Bytes). p.front ++ x) q.split
      ∙ sym (append_assoc p.front q.front t.bytes);
  paid = omega (arith, length-append p.front q.front, p.paid, q.paid);
}

read_byte-Spent : (r r' : Reader) (b : ℕ) → read_byte r ≡ ok (b, r') → Spent r r'
unfolding read_byte spend
read_byte-Spent r r' b h = by_bytes r.bytes refl h
  where
    by_bytes :
        (bs : Bytes)
        → r.bytes ≡ bs
        → (elim bs [
          | [] ↦ err (connection r.ended)
          | c ∷ cs ↦
              ◌>>=◌ {B = ℕ × Reader} (spend (pos 1) (record r { bytes = cs })) (λ s. ok (c, s))
        ])
          ≡ ok (b, r')
        → Spent r r'
    by_bytes [] e h = cc
    by_bytes (c ∷ cs) e h =
        let (s, paid, h) = >>=-eq-ok (spend (pos 1) (record r { bytes = cs })) _ h in
        let (enough, paid) = reject-eq-ok (ltb r.remaining 1) too_large _ paid in
        let after : record r { bytes = cs; remaining = r.remaining - 1 } ≡ r' = cc in
        rw (← after) (record { front = c ∷ []; split = e; paid = ground (arith, enough) })

line_loop-Spent :
    (rounds : ℕ) (line text : Bytes) (r r' : Reader)
    → line_loop rounds line r ≡ ok (text, r')
    → Spent r r'
unfolding line_loop
line_loop-Spent zero line text r r' h = cc
line_loop-Spent (suc rounds) line text r r' h =
    let ((b, s), e, h) = >>=-eq-ok (read_byte r) _ h in
    Spent-trans (read_byte-Spent r s b e)
      (by_end b s (λ e. line_loop-Spent rounds (line ++ b ∷ []) text s r' e) (b == 10) h)
  where
    by_end :
        (b : ℕ) (s : Reader)
        → (line_loop rounds (line ++ b ∷ []) s ≡ ok (text, r') → Spent s r')
        → (stop : Bool)
        → (elim stop [
          | true ↦ ◌>>=◌ {B = Bytes × Reader} (strip_return line) (λ t. ok (t, s))
          | false ↦ line_loop rounds (line ++ b ∷ []) s
        ])
          ≡ ok (text, r')
        → Spent s r'
    by_end b s rest true h =
        let (t, e, h) = >>=-eq-ok (strip_return line) _ h in
        rw (← (ok-injective h).1) (Spent-refl s)
    by_end b s rest false h = rest h

read_line-Spent : (r r' : Reader) (line : Bytes) → read_line r ≡ ok (line, r') → Spent r r'
unfolding read_line
read_line-Spent r r' line h = line_loop-Spent (suc (length r.bytes)) [] line r r' h

body-Spent :
    (size : ℤ) (r s r' : Reader) (body : Bytes)
    → spend size r ≡ ok s
    → read_body size s ≡ ok (body, r')
    → Spent r r'
unfolding spend read_body
body-Spent (negsuc n) r s r' body p h = cc
body-Spent (pos n) r s r' body p h = elim (Option-cases (read_bytes n s.bytes)) [
  | inl short ↦ absurd (ground arith)
  | inr ((got, rest), e) ↦
      let (enough, p) = reject-eq-ok (ltb r.remaining n) too_large _ p in
      let spent : record r { remaining = r.remaining - n } ≡ s = cc in
      let after : record s { bytes = rest } ≡ r' = ground arith in
      let (split, size) = read_bytes-some n s.bytes got rest e in
      let same_bytes : r.bytes ≡ s.bytes = ap (λ (x : Reader). x.bytes) spent in
      let left : r.remaining - n ≡ s.remaining = ap (λ (x : Reader). x.remaining) spent in
      rw (← after) (record {
        front = got;
        split = same_bytes ∙ split;
        paid = ground (arith, enough, size, left);
      })
]

-- A reply is nested in at most so many levels.
unfoldable mutual
  pub Within : ℕ → Reply → Type 0
  Within zero x = ⊥
  Within (suc n) (simple_string s) = Unit
  Within (suc n) (error s) = Unit
  Within (suc n) (integer i) = Unit
  Within (suc n) (bulk s) = Unit
  Within (suc n) null_bulk = Unit
  Within (suc n) null_array = Unit
  Within (suc n) (array xs) = AllWithin n xs

  pub AllWithin : ℕ → Replies → Type 0
  AllWithin n end = Unit
  AllWithin n (reply x xs) = Within n x × AllWithin n xs

-- What reading a frame with so many levels left does.
abbrev Reads : ℕ → (Reader → Result ReplyError (Reply × Reader)) → Type 0
Reads n read = (r r' : Reader) (x : Reply) → read r ≡ ok (x, r') → Spent r r' × Within n x

bulk_of-Reads : (n : ℕ) (size : ℤ) → Reads (suc n) (bulk_of size)
unfolding bulk_of Within
bulk_of-Reads n (negsuc zero) r r' x h =
    let (made, after) = ok-injective h in (rw (← after) (Spent-refl r), rw (← made) tt)
bulk_of-Reads n (negsuc (suc k)) r r' x h = cc
bulk_of-Reads n (pos k) r r' x h =
    let (s, paid, h) = >>=-eq-ok (spend (plus_two k) r) _ h in
    let ((body, u), e, h) = >>=-eq-ok (read_body (plus_two k) s) _ h in
    let (_, h) = reject-eq-ok (not (eqb (drop k body) (13 ∷ 10 ∷ []))) malformed _ h in
    let (made, after) = ok-injective h in
    (rw (← after) (body-Spent (plus_two k) r s u body paid e), rw (← made) tt)

read_bulk-Reads : (n : ℕ) → Reads (suc n) read_bulk
unfolding read_bulk
read_bulk-Reads n r r' x h =
    let ((line, s), e, h) = >>=-eq-ok (read_line r) _ h in
    let (spent, within) = by_number s (parse_int line) h in
    (Spent-trans (read_line-Spent r s line e) spent, within)
  where
    by_number :
        (s : Reader) (size : Option ℤ)
        → (elim size [ none ↦ err malformed | some k ↦ bulk_of k s ]) ≡ ok (x, r')
        → Spent s r' × Within (suc n) x
    by_number s none h = cc
    by_number s (some k) h = bulk_of-Reads n k s r' x h

module _ (n : ℕ) (read : Reader → Result ReplyError (Reply × Reader)) (reads : Reads n read) where
  read_elements-Reads :
      (count : ℕ) (r r' : Reader) (xs : Replies)
      → read_elements read count r ≡ ok (xs, r')
      → Spent r r' × AllWithin n xs
  unfolding read_elements Within
  read_elements-Reads zero r r' xs h =
      let (made, after) = ok-injective h in (rw (← after) (Spent-refl r), rw (← made) tt)
  read_elements-Reads (suc count) r r' xs h =
      let ((x, s), e, h) = >>=-eq-ok (read r) _ h in
      let ((rest, u), e', h) = >>=-eq-ok (read_elements read count s) _ h in
      let (made, after) = ok-injective h in
      let (first, within) = reads r s x e in
      let (more, all) = read_elements-Reads count s u rest e' in
      (rw (← after) (Spent-trans first more), rw (← made) (within, all))

  array_of-Reads : (size : ℤ) → Reads (suc n) (array_of read size)
  unfolding array_of Within
  array_of-Reads (negsuc zero) r r' x h =
      let (made, after) = ok-injective h in (rw (← after) (Spent-refl r), rw (← made) tt)
  array_of-Reads (negsuc (suc k)) r r' x h = cc
  array_of-Reads (pos k) r r' x h =
      let (_, h) = reject-eq-ok (ltb max_array_elements k) too_large _ h in
      let ((xs, u), e, h) = >>=-eq-ok (read_elements read k r) _ h in
      let (made, after) = ok-injective h in
      let (spent, all) = read_elements-Reads k r u xs e in (rw (← after) spent, rw (← made) all)

  read_array-Reads : Reads (suc n) (read_array read)
  unfolding read_array
  read_array-Reads r r' x h =
      let ((line, s), e, h) = >>=-eq-ok (read_line r) _ h in
      let (spent, within) = by_number s (parse_int line) h in
      (Spent-trans (read_line-Spent r s line e) spent, within)
    where
      by_number :
          (s : Reader) (size : Option ℤ)
          → (elim size [ none ↦ err malformed | some k ↦ array_of read k s ]) ≡ ok (x, r')
          → Spent s r' × Within (suc n) x
      by_number s none h = cc
      by_number s (some k) h = array_of-Reads k s r' x h

  plain-Reads : (y : Reply) → Within (suc n) y → Reads (suc n) (λ s. ok (y, s))
  plain-Reads y w r r' x h =
      let (made, after) = ok-injective h in (rw (← after) (Spent-refl r), rw (← made) w)

  integer_of-Reads : (line : Bytes) → Reads (suc n) (integer_of line)
  unfolding Within
  integer_of-Reads line r r' x h = by_number (parse_int line) h
    where
      by_number :
          (i : Option ℤ)
          → ◌≡◌ {A = Result ReplyError (Reply × Reader)}
              (elim i [ none ↦ err malformed | some k ↦ ok (integer k, r) ])
              (ok (x, r'))
          → Spent r r' × Within (suc n) x
      by_number none h = cc
      by_number (some k) h = plain-Reads (integer k) tt r r' x h

  line-Reads :
      (make : Bytes → Reader → Result ReplyError (Reply × Reader))
      → ((line : Bytes) → Reads (suc n) (make line))
      → (r r' : Reader) (x : Reply)
      → (read_line r >>= λ (l : Bytes × Reader). make l.0 l.1) ≡ ok (x, r')
      → Spent r r' × Within (suc n) x
  line-Reads make made r r' x h =
      let ((line, s), e, h) = >>=-eq-ok (read_line r) _ h in
      let (spent, within) = made line s r' x h in
      (Spent-trans (read_line-Spent r s line e) spent, within)

  read_kind-Reads : (prefix : ℕ) → Reads (suc n) (read_kind read prefix)
  unfolding read_kind Within
  read_kind-Reads prefix r r' x h =
      by_prefix (prefix == b'+') (prefix == b'-') (prefix == b':') (prefix == b'$') (prefix == b'*')
        h
    where
      by_prefix :
          (s e i b a : Bool)
          → (if s
              then ◌>>=◌ {B = Reply × Reader} (read_line r) (λ l. ok (simple_string l.0, l.1))
              else if e
              then ◌>>=◌ {B = Reply × Reader} (read_line r) (λ l. ok (error l.0, l.1))
              else if i
              then ◌>>=◌ {B = Reply × Reader} (read_line r) (λ l. integer_of l.0 l.1)
              else if b
              then read_bulk r
              else if a
              then read_array read r
              else err malformed)
            ≡ ok (x, r')
          → Spent r r' × Within (suc n) x
      by_prefix true e i b a h =
          line-Reads (λ l s. ok (simple_string l, s)) (λ l. plain-Reads (simple_string l) tt) r r' x
            h
      by_prefix false true i b a h =
          line-Reads (λ l s. ok (error l, s)) (λ l. plain-Reads (error l) tt) r r' x h
      by_prefix false false true b a h = line-Reads integer_of integer_of-Reads r r' x h
      by_prefix false false false true a h = read_bulk-Reads n r r' x h
      by_prefix false false false false true h = read_array-Reads r r' x h
      by_prefix false false false false false h = cc

read_frame-Reads : (levels : ℕ) → Reads levels (read_frame levels)
unfolding read_frame
read_frame-Reads zero r r' x h = cc
read_frame-Reads (suc levels) r r' x h =
    let ((prefix, s), e, h) = >>=-eq-ok (read_byte r) _ h in
    let (spent, within) =
      read_kind-Reads levels (read_frame levels) (read_frame-Reads levels) prefix s r' x h in
    (Spent-trans (read_byte-Spent r s prefix e) spent, within)

-- A reply that is read after `begin` took at most 65536 bytes from the front of the connection,
-- left the rest, and paid one unit of the budget for each; it is nested in at most four levels.
pub read_reply-bounded :
    (r r' : Reader) (x : Reply)
    → read_reply (begin r) ≡ ok (x, r')
    → ((front : Bytes) × (r.bytes ≡ front ++ r'.bytes)
        × (r'.remaining + length front ≡ max_reply_size)
        × (length front ≤ max_reply_size))
      × Within max_depth x
unfolding read_reply
read_reply-bounded r r' x h =
    let (spent, within) = read_frame-Reads max_depth (begin r) r' x h in
    ((spent.front, spent.split, spent.paid, omega (arith, spent.paid)), within)
