-- ===== src/Tests/Rabbitmq.antt =====
-- A frame and a table of two fields, and the theorems on the codec applied to them.
use svcdoctor.Base.{◌+◌, ◌≤◌, [], ◌∷◌, ◌++◌, length, All, ◌≡◌, ◌≢◌, refl, arith}
use svcdoctor.Base.Bytes.{Bytes, codes, eqb}
use svcdoctor.Base.ReadFull.{read_bytes}
use svcdoctor.Base.Result.{ok, err}
use svcdoctor.Rabbitmq.Frame.{
  Stream, peer_closed, too_large, Frame, new_ceiling, encode_method, big_endian, read_full,
  read_frame,
}
use svcdoctor.Rabbitmq.Frame.Correct.{read_frame-encode_method, read_frame-ok}
use svcdoctor.Rabbitmq.Table.{
  Cursor, Fields, take_bytes, uint_of, longstr, fixed_field_size, wanted, put, read_value,
  walk_field, out_of_fuel, walk_fields, walk_top_level_table,
}
use svcdoctor.Rabbitmq.Table.Moves.{Wanted, TakesTwo}
use svcdoctor.Rabbitmq.Table.Walk.{walk_top_level_table-ok, walk_top_level_table-total}
use svcdoctor.Rabbitmq.Tune.{Tune, select_tune}

abbrev payload : Bytes
payload = 7 ∷ 8 ∷ 9 ∷ []

abbrev wire : Stream
wire = record { bytes = encode_method 11 payload ++ 1 ∷ 2 ∷ []; ended = peer_closed }

abbrev left : Stream
left = record { bytes = 1 ∷ 2 ∷ []; ended = peer_closed }

abbrev start_ok : Frame
start_ok = record { class_id = 10; method_id = 11; fields = payload }

read_frame-encode_method_example : read_frame new_ceiling wire ≡ ok (start_ok, left)
read_frame-encode_method_example =
    read_frame-encode_method new_ceiling 11 payload (1 ∷ 2 ∷ []) wire refl (omega arith)
      (omega arith) (omega arith)

wire_read : read_frame new_ceiling wire ≡ ok (start_ok, left)
unfolding read_frame read_full read_bytes big_endian encode_method
wire_read = refl

-- A declared size above the ceiling is refused before its bytes are read.
oversized :
    read_frame new_ceiling (record wire { bytes = 1 ∷ 0 ∷ 0 ∷ 0 ∷ 1 ∷ 0 ∷ 0 ∷ [] }) ≡ err too_large
unfolding read_frame read_full read_bytes big_endian
oversized = refl

read_frame-ok_example :
    (4 + length start_ok.fields ≤ new_ceiling)
    × ((front : Bytes) × (wire.bytes ≡ front ++ left.bytes)
        × (length front ≡ 12 + length start_ok.fields))
read_frame-ok_example = read_frame-ok new_ceiling wire left start_ok wire_read

-- `version: "4"`, and a flag that is skipped.
abbrev table : Bytes
table = 7 ∷ codes "version" ++ (b'S' ∷ 0 ∷ 0 ∷ 0 ∷ 1 ∷ b'4' ∷ 1 ∷ b'x' ∷ b't' ∷ 1 ∷ [])

abbrev before : Cursor
before = record { rest = table ++ 99 ∷ []; off = 6 }

abbrev after : Cursor
after = record { rest = 99 ∷ []; off = 24 }

abbrev kept : Fields
kept = (codes "version", codes "4") ∷ []

table_walked : walk_top_level_table before 18 ≡ ok (kept, after)
unfolding walk_top_level_table walk_fields walk_field read_value longstr uint_of take_bytes
    read_bytes big_endian fixed_field_size wanted put eqb
table_walked = refl

walk_top_level_table-ok_example :
    (after.off ≡ before.off + 18)
    × ((front : Bytes) × (before.rest ≡ front ++ after.rest) × (length front ≡ 18))
    × All Wanted kept
walk_top_level_table-ok_example = walk_top_level_table-ok before after 18 kept table_walked

walk_top_level_table-total_example :
    TakesTwo before (walk_field [] before)
    × (walk_top_level_table before 18 ≢ err out_of_fuel)
    × (walk_fields 10 24 [] before ≢ err out_of_fuel)
    × (walk_fields 19 24 [] before ≡ walk_fields 10 24 [] before)
walk_top_level_table-total_example = walk_top_level_table-total before 18 10 (omega arith) [] before

abbrev offer : Tune
offer = record { channel_max = 2047; frame_max = 131072; heartbeat = 60 }

abbrev selected : Tune
selected = record { channel_max = 1; frame_max = 8192; heartbeat = 0 }

offer_taken : select_tune offer ≡ ok selected
unfolding select_tune
offer_taken = refl
