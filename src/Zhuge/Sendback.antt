-- ===== src/Zhuge/Sendback.antt =====
-- `Sendback` of network-queue-zhuge.cc: the access point reports a media packet to the sender
-- ahead of the receiver. `none` is `NS_FATAL_ERROR`.
pub mod Laws
use zhuge.Prelude.{
  ℕ, ◌+◌, ◌-◌, ◌*◌, ◌/◌, ◌%◌, ◌^◌, Bool, true, false, not, ◌||◌, Option, none, some, List, [], ◌∷◌,
  ltb, ◌==◌, if◌then◌else◌, ◌>>=◌, length,
}
use zhuge.Prelude.Words.{u32, add_w, sub_w}
use zhuge.Zhuge.{Packet, Queue, State}
use zhuge.Zhuge.QueueDelay.{Rounding, calculate_total_delay_ms}

-- The content of the `NetStatePacket`: the bandwidth in units of 1024 bit/s, the step from the last
-- reported id, and the receive time in microseconds that is predicted for the packet.
pub record Feedback : Type 0 where
  pub bandwidth : ℕ
  pub loss_seq : ℕ
  pub pkt_id : ℕ
  pub rx_time : ℕ
  pub size : ℕ

-- `id > last_id || last_id - id > 32768`: the difference is one of unsigned 32-bit words.
pub is_newer : ℕ → ℕ → Bool
is_newer last id = ltb last id || ltb 32768 (sub_w 32 last id)

pub feedback : State → ℕ → ℕ → Packet → Feedback
feedback s now_us delay_ms p = record {
  bandwidth = s.cur_tx_rate_bps / 2 ^ 10;
  loss_seq = (p.global_id + 65536 - s.last_id) % 65536;
  pkt_id = p.global_id;
  rx_time = u32 (now_us + u32 (delay_ms * 1000));
  size = p.app_size;
}

-- The report is sent only where the option is on; the id is noted in any case.
pub report : State → ℕ → ℕ → Packet → State × Option Feedback
report s now_us delay_ms p =
    if is_newer s.last_id p.global_id
    then (
      record s { last_id = p.global_id },
      if s.wirtc_enable then some (feedback s now_us delay_ms p) else none,
    )
    else (s, none)

pub answer : State → ℕ → ℕ → Option Packet → State × Option Feedback
answer s now_us delay_ms none = (s, none)
answer s now_us delay_ms (some p) = if p.is_data then report s now_us delay_ms p else (s, none)

module _ (r : Rounding) where
  unfoldable pub sendback : State → ℕ → ℕ → Queue → Option (State × Option Feedback)
  sendback s now_us qdisc_bytes q =
      let s' = record s { schedule_flag = false } in
      if length s.tx_bytes_list == 0
      then some (s', none)
      else calculate_total_delay_ms r s' qdisc_bytes q s'.extra_bytes
        >>= (λ c. some (answer c.1 now_us c.0 s'.sndback_pkt))
