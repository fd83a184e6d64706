-- ===== src/Rabbitmq/Frame.antt =====
-- internal/adapter/rabbitmq/wire/frame.go: method frames, written and read.
pub mod Correct
use svcdoctor.Base.{
  ℕ, zero, suc, ◌+◌, ◌*◌, ◌/◌, ◌%◌, Bool, not, List, [], ◌∷◌, ◌++◌, Option, none, some, length,
  take, drop, ltb, ◌==◌, if◌then◌else◌,
}
use svcdoctor.Base.Bytes.{Bytes}
use svcdoctor.Base.ReadFull.{read_bytes}
use svcdoctor.Base.Result.{Result, ok, err, ◌>>=◌, ◌>>◌, reject}

-- `ended` is what the connection answers behind its last byte: the peer closed it, or another
-- error of the connection.
pub data FrameError : Type 0 where
  peer_closed connection_error : FrameError
  too_large bad_end too_short : FrameError
  not_a_method wrong_channel : FrameError

-- `io.Reader`: the bytes still to come, and the error behind them.
pub record Stream : Type 0 where
  pub bytes : Bytes
  pub ended : FrameError

abbrev pub frame_overhead : ℕ
frame_overhead = 8

abbrev pub payload_max : ℕ
payload_max = 8184

-- `binary.BigEndian.AppendUint16` and `AppendUint32`, which wrap around
abbrev pub append_uint16 : ℕ → Bytes → Bytes
append_uint16 n rest = n / 256 % 256 ∷ n % 256 ∷ rest

abbrev pub append_uint32 : ℕ → Bytes → Bytes
append_uint32 n rest = n / 16777216 % 256 ∷ n / 65536 % 256 ∷ n / 256 % 256 ∷ n % 256 ∷ rest

-- `binary.BigEndian.Uint16` and `Uint32`
unfoldable pub big_endian : ℕ → Bytes → ℕ
big_endian acc [] = acc
big_endian acc (b ∷ bs) = big_endian (acc * 256 + b) bs

-- `class` is 10; the method is a `uint16`.
unfoldable pub encode_method : ℕ → Bytes → Bytes
encode_method method payload =
    1
    ∷ append_uint16 0 (
        append_uint32 (4 + length payload)
          (append_uint16 10 (append_uint16 method (payload ++ 0xCE ∷ []))))

pub record Frame : Type 0 where
  pub class_id : ℕ
  pub method_id : ℕ
  pub fields : Bytes

unfoldable pub read_full : ℕ → Stream → Result FrameError (Bytes × Stream)
unfolding read_bytes
read_full n s = elim (read_bytes n s.bytes) [
  | none ↦ err s.ended
  | some (got, rest) ↦ ok (got, record s { bytes = rest })
]

-- `newReader(src).ceiling`
abbrev pub new_ceiling : ℕ
new_ceiling = payload_max

-- `negotiated`: the ceiling of the reader after the tuning.
unfoldable pub negotiated : ℕ → ℕ → ℕ
negotiated ceiling offered =
    let offered' = if ltb payload_max offered then payload_max else offered in
    if ltb ceiling offered' then offered' else ceiling

unfoldable pub read_frame : ℕ → Stream → Result FrameError (Frame × Stream)
unfolding read_full big_endian
read_frame ceiling s = do
  (hdr, s) ← read_full 7 s
  let size = big_endian 0 (drop 3 hdr)
  reject (ltb ceiling size) too_large
  reject (not (big_endian 0 (take 1 hdr) == 1)) not_a_method
  reject (not (big_endian 0 (take 2 (drop 1 hdr)) == 0)) wrong_channel
  reject (ltb size 4) too_short
  (payload, s) ← read_full size s
  (end, s) ← read_full 1 s
  reject (not (big_endian 0 end == 0xCE)) bad_end
  ok (
    record {
      class_id = big_endian 0 (take 2 payload);
      method_id = big_endian 0 (take 2 (drop 2 payload));
      fields = drop 4 payload;
    },
    s,
  )
