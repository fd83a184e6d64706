-- ===== src/Redis/Resp/Line.antt =====
-- A line that stands complete on the connection is read.
use svcdoctor.Base.{
  ℕ, zero, suc, ◌+◌, ◌-◌, ◌≤◌, Bool, true, false, not, ◌&&◌, [], ◌∷◌, ◌++◌, length, ltb, ◌==◌,
  append-nil, append_assoc, length-append, ◌≡◌, refl, ap, ◌∙◌, arith,
}
use svcdoctor.Base.Bytes.{Bytes}
use svcdoctor.Base.Result.{ok, ◌>>=◌}
use svcdoctor.Redis.Resp.{Reader, spend, read_byte, strip_return, line_loop, read_line}

-- No byte is a line feed.
abbrev pub no_feed : Bytes → Bool
no_feed [] = true
no_feed (b ∷ bs) = not (b == 10) && no_feed bs

-- The reader when `n` bytes more are read and `rest` is left.
abbrev pub after : Reader → ℕ → Bytes → Reader
after r n rest = record r { bytes = rest; remaining = r.remaining - n }

strip_return-concat : (line : Bytes) → strip_return (line ++ 13 ∷ []) ≡ ok line
strip_return-concat [] = refl
strip_return-concat (b ∷ []) = refl
strip_return-concat (b ∷ c ∷ line) = rw (strip_return-concat (c ∷ line)) refl

read_byte-of :
    (r : Reader) (b : ℕ) (bs : Bytes)
    → r.bytes ≡ b ∷ bs
    → 1 ≤ r.remaining
    → read_byte r ≡ ok (b, after r 1 bs)
unfolding read_byte spend
read_byte-of r b bs e enough =
    let room : ltb r.remaining 1 ≡ false = ground (arith, enough) in rw (e, room) refl

-- One round, on a byte of the line and on the line feed.
loop_byte :
    (rounds : ℕ) (line : Bytes) (r : Reader) (b : ℕ) (bs : Bytes)
    → r.bytes ≡ b ∷ bs
    → 1 ≤ r.remaining
    → (b == 10) ≡ false
    → line_loop (suc rounds) line r ≡ line_loop rounds (line ++ b ∷ []) (after r 1 bs)
unfolding line_loop
loop_byte rounds line r b bs e enough ne = rw (read_byte-of r b bs e enough) (chosen (b == 10) ne)
  where
    chosen :
        (stop : Bool)
        → stop ≡ false
        → (elim stop [
          | true ↦ ◌>>=◌ {B = Bytes × Reader} (strip_return line) (λ text. ok (text, after r 1 bs))
          | false ↦ line_loop rounds (line ++ b ∷ []) (after r 1 bs)
        ])
          ≡ line_loop rounds (line ++ b ∷ []) (after r 1 bs)
    chosen true no_stop = cc
    chosen false no_stop = refl

loop_feed :
    (rounds : ℕ) (line : Bytes) (r : Reader) (bs : Bytes)
    → r.bytes ≡ 10 ∷ bs
    → 1 ≤ r.remaining
    → line_loop (suc rounds) (line ++ 13 ∷ []) r ≡ ok (line, after r 1 bs)
unfolding line_loop
loop_feed rounds line r bs e enough =
    rw (read_byte-of r 10 bs e enough, strip_return-concat line) refl

-- Bytes read one after another are read together.
after-after :
    (r : Reader) (n k : ℕ) (bs rest : Bytes) → after (after r n bs) k rest ≡ after r (n + k) rest
after-after r n k bs rest = ap (λ (m : ℕ). record r { bytes = rest; remaining = m }) the_same
  where
    the_same : r.remaining - n - k ≡ r.remaining - (n + k)
    the_same = omega arith

line_loop-of :
    (rounds : ℕ) (line text rest : Bytes) (r : Reader)
    → r.bytes ≡ text ++ 13 ∷ 10 ∷ rest
    → no_feed text ≡ true
    → length text + 2 ≤ r.remaining
    → length text + 2 ≤ rounds
    → line_loop rounds line r ≡ ok (line ++ text, after r (length text + 2) rest)
line_loop-of zero line text rest r e plain enough room = absurd (omega (arith, room))
line_loop-of (suc zero) line text rest r e plain enough room = absurd (omega (arith, room))
line_loop-of (suc (suc rounds)) line [] rest r e plain enough room =
    loop_byte (suc rounds) line r 13 (10 ∷ rest) e (omega (arith, enough)) refl
    ∙ loop_feed rounds line (after r 1 (10 ∷ rest)) rest refl (omega (arith, enough))
    ∙ rw (append-nil line, after-after r 1 1 (10 ∷ rest) rest) refl
line_loop-of (suc (suc rounds)) line (b ∷ text) rest r e plain enough room =
    let more : Bytes = text ++ 13 ∷ 10 ∷ rest in
    loop_byte (suc rounds) line r b more e (omega (arith, enough)) (ground (arith, plain))
    ∙ line_loop-of (suc rounds) (line ++ b ∷ []) text rest (after r 1 more) refl
        (ground (arith, plain)) (omega (arith, enough)) (omega (arith, room))
    ∙ rw (append_assoc line (b ∷ []) text, after-after r 1 (length text + 2) more rest)
        (ap (λ (n : ℕ). ok (line ++ b ∷ text, after r n rest)) (omega arith))

-- A line that ends with a carriage return and a line feed, and holds no line feed itself, is read
-- without the two when the budget covers it: what follows stays on the connection, and the budget
-- pays for the line and its two bytes.
pub read_line-of :
    (r : Reader) (text rest : Bytes)
    → r.bytes ≡ text ++ 13 ∷ 10 ∷ rest
    → no_feed text ≡ true
    → length text + 2 ≤ r.remaining
    → read_line r ≡ ok (text, after r (length text + 2) rest)
unfolding read_line
read_line-of r text rest e plain enough =
    line_loop-of (suc (length r.bytes)) [] text rest r e plain enough room
  where
    room : length text + 2 ≤ suc (length r.bytes)
    room = rw e (omega (arith, length-append text (13 ∷ 10 ∷ rest)))
