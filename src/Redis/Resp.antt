-- ===== src/Redis/Resp.antt =====
-- internal/adapter/redis/wire/resp.go: the reader of RESP2 replies, under a budget of bytes.
pub mod Line
pub mod Budget
pub mod Overflow
use svcdoctor.Base.{
  ℕ, zero, suc, ◌+◌, ◌-◌, ◌*◌, Bool, true, false, not, ◌&&◌, List, [], ◌∷◌, ◌++◌, Option, none,
  some, length, take, drop, leb, ltb, ◌==◌, if◌then◌else◌,
}
use svcdoctor.Base.Bytes.{Bytes, eqb}
use svcdoctor.Base.Int.{ℤ, pos, negsuc, is_neg}
use svcdoctor.Base.Result.{Result, ok, err, ◌>>=◌, ◌>>◌, reject}
use svcdoctor.Base.ReadFull.{read_bytes}

abbrev pub max_reply_size : ℕ
max_reply_size = 65536

abbrev pub max_array_elements : ℕ
max_array_elements = 16384

-- `maxDepth`; a frame at depth `d` has `4 - d` levels below it.
abbrev pub max_depth : ℕ
max_depth = 4

-- The end of the bytes, or any other error of the connection.
pub data ConnectionError : Type 0 where
  peer_closed other : ConnectionError

-- `panicked` is a panic of the runtime.
pub data ReplyError : Type 0 where
  connection : ConnectionError → ReplyError
  malformed too_large panicked : ReplyError

-- One constructor for each kind of reply, and for the null forms of the last two.
mutual
  pub data Reply : Type 0 where
    simple_string : Bytes → Reply
    error : Bytes → Reply
    integer : ℤ → Reply
    bulk : Bytes → Reply
    null_bulk null_array : Reply
    array : Replies → Reply

  pub data Replies : Type 0 where
    end : Replies
    reply : Reply → Replies → Replies

-- The bytes that the connection still gives, the error behind them, and the budget.
pub record Reader : Type 0 where
  pub bytes : Bytes
  pub ended : ConnectionError
  pub remaining : ℕ

-- `begin`
abbrev pub begin : Reader → Reader
begin r = record r { remaining = max_reply_size }

-- `spend`: a negative number is no more than what remains, and adds to it. That this sum wraps
-- around is not written out, since the only caller with a negative number panics next.
unfoldable pub spend : ℤ → Reader → Result ReplyError Reader
spend (pos n) r = do
  reject (ltb r.remaining n) too_large
  ok (record r { remaining = r.remaining - n })
spend (negsuc n) r = ok (record r { remaining = r.remaining + suc n })

-- `ReadByte`, and `spend(1)`
unfoldable pub read_byte : Reader → Result ReplyError (ℕ × Reader)
unfolding spend
read_byte r = elim r.bytes [
  | [] ↦ err (connection r.ended)
  | b ∷ bs ↦ do r ← spend (pos 1) (record r { bytes = bs }); ok (b, r)
]

-- What `readLine` returns for the bytes before a line feed.
abbrev pub strip_return : Bytes → Result ReplyError Bytes
strip_return [] = err malformed
strip_return (b ∷ []) = if b == 13 then ok [] else err malformed
strip_return (b ∷ c ∷ line) = do rest ← strip_return (c ∷ line); ok (b ∷ rest)

-- The loop of `readLine`, with `line`; one round for each byte that is left, and one more.
unfoldable pub line_loop : ℕ → Bytes → Reader → Result ReplyError (Bytes × Reader)
unfolding read_byte
line_loop zero line r = err (connection r.ended)
line_loop (suc rounds) line r = do
  (b, r) ← read_byte r
  elim (b == 10) [
    | true ↦ do text ← strip_return line; ok (text, r)
    | false ↦ line_loop rounds (line ++ b ∷ []) r
  ]

unfoldable pub read_line : Reader → Result ReplyError (Bytes × Reader)
unfolding line_loop
read_line r = line_loop (suc (length r.bytes)) [] r

-- `strconv.ParseInt(line, 10, 64)` and, on 64-bit machines, `strconv.Atoi`
unfoldable pub digits : ℕ → Bytes → Option ℕ
digits acc [] = some acc
digits acc (c ∷ s) = elim (leb b'0' c && leb c b'9') [
  | true ↦ digits (acc * 10 + (c - b'0')) s
  | false ↦ none
]

abbrev pub negated : ℕ → ℤ
negated zero = pos 0
negated (suc n) = negsuc n

abbrev pub in_range : Bool → ℕ → Option ℤ
in_range true n = if leb n 9223372036854775808 then some (negated n) else none
in_range false n = if ltb n 9223372036854775808 then some (pos n) else none

abbrev pub number : Bool → Bytes → Option ℤ
number minus [] = none
number minus (c ∷ s) = elim (digits 0 (c ∷ s)) [ none ↦ none | some n ↦ in_range minus n ]

unfoldable pub parse_int : Bytes → Option ℤ
unfolding digits
parse_int [] = none
parse_int (c ∷ s) =
    if c == b'-' then number true s else if c == b'+' then number false s else number false (c ∷ s)

-- `n + 2` in a signed 64-bit integer, for an `n` that is not negative
unfoldable pub plus_two : ℕ → ℤ
plus_two n =
    if ltb (n + 2) 9223372036854775808 then pos (n + 2) else negsuc (18446744073709551615 - (n + 2))

-- `make([]byte, size)`, which panics on a negative size, and `io.ReadFull` into it
unfoldable pub read_body : ℤ → Reader → Result ReplyError (Bytes × Reader)
unfolding read_bytes
read_body (negsuc n) r = err panicked
read_body (pos n) r = elim (read_bytes n r.bytes) [
  | none ↦ err (connection r.ended)
  | some (got, rest) ↦ ok (got, record r { bytes = rest })
]

-- `readBulk` after its length is parsed
unfoldable pub bulk_of : ℤ → Reader → Result ReplyError (Reply × Reader)
unfolding plus_two spend read_body
bulk_of (negsuc zero) r = ok (null_bulk, r)
bulk_of (negsuc (suc n)) r = err malformed
bulk_of (pos n) r = do
  let size = plus_two n
  r ← spend size r
  (body, r) ← read_body size r
  reject (not (eqb (drop n body) (13 ∷ 10 ∷ []))) malformed
  ok (bulk (take n body), r)

unfoldable pub read_bulk : Reader → Result ReplyError (Reply × Reader)
unfolding read_line parse_int bulk_of
read_bulk r = do
  (line, r) ← read_line r
  elim (parse_int line) [ none ↦ err malformed | some n ↦ bulk_of n r ]

-- The loop of `readArray`; `read` is `readFrame` one level down.
unfoldable pub read_elements :
    (Reader → Result ReplyError (Reply × Reader))
    → ℕ
    → Reader
    → Result ReplyError (Replies × Reader)
read_elements read zero r = ok (end, r)
read_elements read (suc n) r = do
  (first, r) ← read r
  (rest, r) ← read_elements read n r
  ok (reply first rest, r)

-- `readArray` after its length is parsed
unfoldable pub array_of :
    (Reader → Result ReplyError (Reply × Reader)) → ℤ → Reader → Result ReplyError (Reply × Reader)
unfolding read_elements
array_of read (negsuc zero) r = ok (null_array, r)
array_of read (negsuc (suc n)) r = err malformed
array_of read (pos n) r = do
  reject (ltb max_array_elements n) too_large
  (elements, r) ← read_elements read n r
  ok (array elements, r)

unfoldable pub read_array :
    (Reader → Result ReplyError (Reply × Reader)) → Reader → Result ReplyError (Reply × Reader)
unfolding read_line parse_int array_of
read_array read r = do
  (line, r) ← read_line r
  elim (parse_int line) [ none ↦ err malformed | some n ↦ array_of read n r ]

abbrev pub integer_of : Bytes → Reader → Result ReplyError (Reply × Reader)
integer_of line r = elim (parse_int line) [ none ↦ err malformed | some n ↦ ok (integer n, r) ]

-- The `switch` of `readFrame`.
unfoldable pub read_kind :
    (Reader → Result ReplyError (Reply × Reader)) → ℕ → Reader → Result ReplyError (Reply × Reader)
unfolding read_line read_bulk read_array parse_int
read_kind read prefix r =
    if prefix == b'+'
    then (do (line, r) ← read_line r; ok (simple_string line, r))
    else if prefix == b'-'
    then (do (line, r) ← read_line r; ok (error line, r))
    else if prefix == b':'
    then (do (line, r) ← read_line r; integer_of line r)
    else if prefix == b'$'
    then read_bulk r
    else if prefix == b'*'
    then read_array read r
    else err malformed

-- `readFrame`, with the levels that are left
unfoldable pub read_frame : ℕ → Reader → Result ReplyError (Reply × Reader)
unfolding read_byte read_kind
read_frame zero r = err too_large
read_frame (suc levels) r = do (prefix, r) ← read_byte r; read_kind (read_frame levels) prefix r

unfoldable pub read_reply : Reader → Result ReplyError (Reply × Reader)
unfolding read_frame
read_reply r = read_frame max_depth r
