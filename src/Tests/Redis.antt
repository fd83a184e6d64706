-- ===== src/Tests/Redis.antt =====
-- Replies of one line, of an array, and of a length near the largest integer, and the theorems on the
-- reader applied to them.
use svcdoctor.Base.{◌+◌, ◌≤◌, [], ◌++◌, length, ◌≡◌, refl, ◌↔◌, some}
use svcdoctor.Base.Bytes.{Bytes, codes, eqb}
use svcdoctor.Base.Int.{pos}
use svcdoctor.Base.Result.{ok, err}
use svcdoctor.Base.ReadFull.{read_bytes}
use svcdoctor.Redis.Resp.{
  max_reply_size, max_depth, peer_closed, too_large, panicked, Reply, bulk, integer, array, end,
  reply, Reader, begin, spend, read_byte, line_loop, read_line, digits, parse_int, plus_two,
  read_body, bulk_of, read_bulk, read_elements, array_of, read_array, read_kind, read_frame,
  read_reply,
}
use svcdoctor.Redis.Resp.Budget.{Within, read_reply-bounded}
use svcdoctor.Redis.Resp.Overflow.{read_bulk_panics_iff}

-- `*2`, `:7`, `$2`, `ok`, each with its line end, and one byte of the next reply
abbrev pair : Reader
pair = record { bytes = codes "*2\r\n:7\r\n$2\r\nok\r\n+"; ended = peer_closed; remaining = 0 }

abbrev pair_read : Reply
pair_read = array (reply (integer (pos 7)) (reply (bulk (codes "ok")) end))

abbrev pair_left : Reader
pair_left = record { bytes = codes "+"; ended = peer_closed; remaining = 65520 }

pair_accepted : read_reply (begin pair) ≡ ok (pair_read, pair_left)
unfolding read_reply read_frame read_kind read_array array_of read_elements read_bulk bulk_of
    read_body plus_two parse_int digits read_line line_loop read_byte spend read_bytes eqb
pair_accepted = refl

read_reply-bounded_example :
    ((front : Bytes) × (pair.bytes ≡ front ++ pair_left.bytes)
      × (pair_left.remaining + length front ≡ max_reply_size)
      × (length front ≤ max_reply_size))
    × Within max_depth pair_read
read_reply-bounded_example = read_reply-bounded pair pair_left pair_read pair_accepted

-- Five arrays in one another are one too many.
too_deep :
    read_reply (begin (record pair { bytes = codes "*1\r\n*1\r\n*1\r\n*1\r\n*1\r\n" }))
    ≡ err too_large
unfolding read_reply read_frame read_kind read_array array_of read_elements parse_int digits
    read_line line_loop read_byte spend
too_deep = refl

abbrev huge : Reader
huge = record pair { bytes = codes "9223372036854775807\r\n"; remaining = 65536 }

abbrev huge_left : Reader
huge_left = record { bytes = []; ended = peer_closed; remaining = 65515 }

huge_line : read_line huge ≡ ok (codes "9223372036854775807", huge_left)
unfolding read_line line_loop read_byte spend
huge_line = refl

huge_number : parse_int (codes "9223372036854775807") ≡ some (pos 9223372036854775807)
unfolding parse_int digits
huge_number = refl

read_bulk_panics_iff_example :
    (read_bulk huge ≡ err panicked) ↔ (9223372036854775806 ≤ 9223372036854775807)
read_bulk_panics_iff_example =
    read_bulk_panics_iff huge huge_left (codes "9223372036854775807") 9223372036854775807 huge_line
      huge_number

-- One line from a server is enough.
huge_reply :
    read_reply (begin (record pair { bytes = codes "$9223372036854775807\r\n" })) ≡ err panicked
unfolding read_reply read_frame read_kind read_bulk bulk_of read_body plus_two parse_int digits
    read_line line_loop read_byte spend
huge_reply = refl

abbrev greeting : Reader
greeting = record { bytes = codes "PONG\r\n+"; ended = peer_closed; remaining = 65535 }
