-- ===== src/Rabbitmq/Table.antt =====
-- internal/adapter/rabbitmq/wire/table.go: the cursor over a payload and the walk over a field
-- table. A cursor holds the bytes from `off` on; `c.b` itself never changes.
pub mod Moves
pub mod Walk
use svcdoctor.Base.{
  ℕ, zero, suc, ◌+◌, Bool, true, false, not, ◌||◌, List, [], ◌∷◌, Option, none, some, length, ltb,
  ◌==◌, if◌then◌else◌,
}
use svcdoctor.Base.Bytes.{Bytes, codes, eqb}
use svcdoctor.Base.Result.{Result, ok, err, ◌>>=◌, ◌>>◌, reject}
use svcdoctor.Base.ReadFull.{read_bytes}
use svcdoctor.Rabbitmq.Frame.{big_endian}

pub record Cursor : Type 0 where
  pub rest : Bytes
  pub off : ℕ

-- Each wraps `ErrMalformedFrame`.
pub data FieldError : Type 0 where
  past_end unknown_type : FieldError

abbrev pub remaining : Cursor → ℕ
remaining c = length c.rest

-- `c.take(n)`; a length is never negative here.
unfoldable pub take_bytes : ℕ → Cursor → Result FieldError (Bytes × Cursor)
unfolding read_bytes
take_bytes n c = elim (read_bytes n c.rest) [
  | none ↦ err past_end
  | some (got, rest) ↦ ok (got, record { rest = rest; off = c.off + n })
]

unfoldable pub uint_of : ℕ → Cursor → Result FieldError (ℕ × Cursor)
unfolding take_bytes big_endian
uint_of width c = do (got, c) ← take_bytes width c; ok (big_endian 0 got, c)

abbrev pub u8 : Cursor → Result FieldError (ℕ × Cursor)
u8 = uint_of 1

abbrev pub u32 : Cursor → Result FieldError (ℕ × Cursor)
u32 = uint_of 4

unfoldable pub shortstr : Cursor → Result FieldError (Bytes × Cursor)
unfolding take_bytes uint_of
shortstr c = do (n, c) ← u8 c; take_bytes n c

unfoldable pub longstr : Cursor → Result FieldError (Bytes × Cursor)
unfolding take_bytes uint_of
longstr c = do (n, c) ← u32 c; reject (ltb (remaining c) n) past_end; take_bytes n c

unfoldable pub fixed_field_size : ℕ → Option ℕ
fixed_field_size t =
    if t == b't' || t == b'b' || t == b'B'
    then some 1
    else if t == b's' || t == b'u'
    then some 2
    else if t == b'I' || t == b'i' || t == b'f'
    then some 4
    else if t == b'l' || t == b'L' || t == b'd' || t == b'T'
    then some 8
    else if t == b'D'
    then some 5
    else if t == b'V'
    then some 0
    else none

abbrev pub var_field_type : ℕ → Bool
var_field_type t = t == b'S' || t == b'x' || t == b'A' || t == b'F'

unfoldable pub wanted : Bytes → Bool
wanted name =
    eqb name (codes "product")
    || eqb name (codes "version")
    || eqb name (codes "platform")
    || eqb name (codes "cluster_name")

-- `map[string]string`
abbrev pub Fields : Type 0
Fields = List (Bytes × Bytes)

-- `out[name] = v`
unfoldable pub put : Bytes → Bytes → Fields → Fields
put name v [] = (name, v) ∷ []
put name v ((k, old) ∷ out) = if eqb k name then (k, v) ∷ out else (k, old) ∷ put name v out

-- The `switch` on the type of a field.
unfoldable pub read_value : Bytes → ℕ → Fields → Cursor → Result FieldError (Fields × Cursor)
unfolding take_bytes uint_of longstr fixed_field_size wanted put
read_value name type out c =
    if type == b'S'
    then (do (v, c) ← longstr c; ok (if wanted name then put name v out else out, c))
    else if var_field_type type
    then (do
      (n, c) ← u32 c
      reject (ltb (remaining c) n) past_end
      (_, c) ← take_bytes n c
      ok (out, c))
    else elim (fixed_field_size type) [
      | none ↦ err unknown_type
      | some width ↦ do (_, c) ← take_bytes width c; ok (out, c)
    ]

-- One round of the loop of `walkTopLevelTable`.
unfoldable pub walk_field : Fields → Cursor → Result FieldError (Fields × Cursor)
unfolding take_bytes uint_of read_value
walk_field out c = do
  (name_len, c) ← u8 c
  (name, c) ← take_bytes name_len c
  (type, c) ← u8 c
  read_value name type out c

pub data TableError : Type 0 where
  field : FieldError → TableError
  too_long overran out_of_fuel : TableError

abbrev pub in_table {ℓ} : {A : Type ℓ} → Result FieldError A → Result TableError A
in_table (ok a) = ok a
in_table (err e) = err (field e)

unfoldable pub walk_fields : ℕ → ℕ → Fields → Cursor → Result TableError (Fields × Cursor)
unfolding walk_field
walk_fields zero end out c = err out_of_fuel
walk_fields (suc fuel) end out c = elim (ltb c.off end) [
  | false ↦ ok (out, c)
  | true ↦ do (out, c) ← in_table (walk_field out c); walk_fields fuel end out c
]

-- Each round moves the cursor forward, so `size` rounds are enough.
unfoldable pub walk_top_level_table : Cursor → ℕ → Result TableError (Fields × Cursor)
unfolding walk_fields
walk_top_level_table c size = do
  reject (ltb (remaining c) size) too_long
  let end = c.off + size
  (out, c) ← walk_fields (suc size) end [] c
  reject (not (c.off == end)) overran
  ok (out, c)
