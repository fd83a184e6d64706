-- ===== src/Rabbitmq/Tune.antt =====
-- internal/adapter/rabbitmq/wire/connection.go: `SelectTune`.
use svcdoctor.Base.{ℕ, not, ◌&&◌, ◌≤◌, ◌-◌, ◌≡◌, ◌⊎◌, ltb, ◌==◌, if◌then◌else◌, arith}
use svcdoctor.Base.Result.{Result, ok, ◌>>◌, reject}
use svcdoctor.Rabbitmq.Frame.{frame_overhead, new_ceiling, negotiated}

pub record Tune : Type 0 where
  pub channel_max : ℕ
  pub frame_max : ℕ
  pub heartbeat : ℕ

pub data TuneError : Type 0 where
  tune_unsupported : TuneError

-- `Selected` has the fields of `Tune`.
unfoldable pub select_tune : Tune → Result TuneError Tune
select_tune offer = do
  let frame_max =
      if not (offer.frame_max == 0) && ltb offer.frame_max 8192 then offer.frame_max else 8192
  reject (ltb frame_max 4096) tune_unsupported
  ok (record { channel_max = 1; frame_max = frame_max; heartbeat = 0 })

-- A selected frame size never exceeds an offer that sets a limit, lies between 4096 and 8192, and
-- leaves the ceiling of a new reader where it was.
pub select_tune-bounds :
    (offer selected : Tune)
    → select_tune offer ≡ ok selected
    → ((offer.frame_max ≡ 0) ⊎ (selected.frame_max ≤ offer.frame_max))
      × (4096 ≤ selected.frame_max)
      × (selected.frame_max ≤ 8192)
      × (negotiated new_ceiling (selected.frame_max - frame_overhead) ≡ new_ceiling)
unfolding select_tune negotiated
select_tune-bounds offer selected h = ground arith
