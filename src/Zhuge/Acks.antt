-- ===== src/Zhuge/Acks.antt =====
-- `OnRecv_snddev` and `SendPkt` of network-queue-zhuge.cc: an ACK on its way to the sender is held
-- back by the delay that the data direction has gained. Times are in nanoseconds.
pub mod Order
use zhuge.Prelude.{ℕ, Bool, true, false, ◌&&◌, Option, none, some, ◌==◌, if◌then◌else◌, ◌>>=◌}
use zhuge.Prelude.Int.{ℤ, pos, ◌+ℤ◌, ◌-ℤ◌, ltb_ℤ, min_ℤ}
use zhuge.Delay.{DeltaDelay, Env, sample_delta_delay}
use zhuge.Zhuge.{Packet, State, max_actual_delay, tcp}

-- The hold-back is capped at `kMaxActualDelay`.
pub capped : State → ℕ → ℤ × DeltaDelay → State
capped s now (sent, delta) = record s {
  delta_ack_delay = delta;
  last_ack_arrv = pos now;
  last_ack_sent = min_ℤ (pos now +ℤ max_actual_delay) sent;
}

-- `SendPkt` is scheduled for this time.
pub departure : State → ℕ → ℤ
departure s now =
    if s.wirtc_enable && ltb_ℤ (pos now) s.last_ack_sent then s.last_ack_sent else pos now

pub first_ack : State → ℕ → State
first_ack s now = record s {
  is_first_ack = false;
  last_ack_arrv = pos now;
  last_ack_sent = pos now;
}

module _ (env : Env) where
  -- `curAckSent` before the cap: a base time and a sample. `none` is the assertion of
  -- `SampleDeltaDelay`.
  pub add_sample : State → ℕ → ℤ → ℤ → Option (ℤ × DeltaDelay)
  add_sample s now base least = do
    (d, delta) ← sample_delta_delay env s.delta_ack_delay now least
    some (base +ℤ d, delta)

  -- An ACK that is not the first: in a new burst, or behind the last one by as much as it came.
  pub uncapped : State → ℕ → Option (ℤ × DeltaDelay)
  uncapped s now =
      let base = pos now +ℤ (s.last_ack_sent -ℤ s.last_ack_arrv) in
      if ltb_ℤ s.last_ack_sent (pos now)
      then add_sample s now (pos now) (pos 0)
      else add_sample s now base (s.last_ack_sent -ℤ base)

  pub next_ack : State → ℕ → Option (State × ℤ)
  next_ack s now = do r ← uncapped s now; let s' = capped s now r; some (s', departure s' now)

  pub forward_ack : State → ℕ → Option (State × ℤ)
  forward_ack s now = if s.is_first_ack then some (first_ack s now, pos now) else next_ack s now

  -- A packet that is no TCP packet for the sender is dropped.
  unfoldable pub on_recv_snddev : State → ℕ → Packet → Option (State × Option ℤ)
  on_recv_snddev s now p =
      if p.dst == s.send_ip && p.protocol == tcp
      then forward_ack s now >>= (λ r. some (r.0, some r.1))
      else some (s, none)
