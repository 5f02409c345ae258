-- ===== src/Zhuge/QueueDelay.antt =====
-- `CalculateTotalDelayMs` and `SetAckDelay` of network-queue-zhuge.cc: the delay that a packet
-- arriving now will see, and its change since the last packet. `none` is `NS_FATAL_ERROR`.
pub mod Laws
use mathlib.Core.List.{reverse}
use zhuge.Prelude.{
  ℕ, ◌+◌, ◌*◌, ◌/◌, ◌≤◌, ◌≡◌, Bool, true, false, ◌&&◌, Option, none, some, List, [], ◌∷◌, ltb, leb,
  ◌==◌, if◌then◌else◌, ◌>>=◌,
}
use zhuge.Prelude.Int.{ℤ, pos, negsuc}
use zhuge.Prelude.Words.{u32, add_w, sub_w, to_int32}
use zhuge.Delay.{DeltaDelay, add_delta_delay, ms}
use zhuge.Zhuge.{Packet, Queue, State, ampdu_max_wait_ms, udp}

-- `uint32_t (1000 * (double (a) / double (b)))`, which floating point computes. It depends on
-- bits and rate only, is 0 for an empty queue, and does not fall as the queue grows.
pub record Rounding : Type 0 where
  pub delay_ms : ℕ → ℕ → ℕ
  pub delay_ms_zero : (b : ℕ) → delay_ms 0 b ≡ 0
  pub delay_ms_mono : (a c b : ℕ) → a ≤ c → delay_ms a b ≤ delay_ms c b

abbrev pub is_of_flow : ℕ → Packet → Bool
is_of_flow port p = p.protocol == udp && p.src_port == port

-- The loop from the tail of the device queue: every packet is taken off the size, up to and with
-- the last one of the flow.
pub strip_tail : ℕ → List Packet → ℕ → ℕ
strip_tail port [] size = size
strip_tail port (p ∷ ps) size =
    let rest = strip_tail port ps (sub_w 32 size p.size) in
    if is_of_flow port p then sub_w 32 size p.size else rest

-- `m_curQSizeByte`, from the bytes in the queue disc and the device queue.
unfoldable pub queue_size : State → ℕ → Queue → ℕ → Option ℕ
queue_size s qdisc_bytes q extra =
    if ltb qdisc_bytes extra
    then some (strip_tail s.send_port (reverse q.packets) q.n_bytes)
    else if s.mode == 0
    then some (sub_w 32 (add_w 32 qdisc_bytes q.n_bytes) extra)
    else if s.mode == 1
    then some (sub_w 32 (add_w 32 qdisc_bytes q.n_bytes) extra)
    else none

-- A queue that may leave in one aggregated frame and is not draining.
unfoldable pub fits_one_ampdu : State → ℕ → Bool
fits_one_ampdu s size =
    s.mode == 0
    && leb size (u32 (ampdu_max_wait_ms * s.cur_tx_rate_bps) / 1000 / 8)
    && leb s.last_q_size_byte size

-- `MilliSeconds (int32_t (…))`, in nanoseconds.
abbrev pub time_of_ms : ℤ → ℤ
time_of_ms (pos n) = pos (n * ms)
time_of_ms (negsuc n) = negsuc (n * ms + 999999)

unfoldable pub note_delay : ℕ → ℕ → State → State
note_delay now cur s = record s {
  delta_ack_delay =
      if s.cur_q_size_byte == 0 && s.last_q_size_byte == 0
      then s.delta_ack_delay
      else add_delta_delay s.delta_ack_delay now
          (time_of_ms (to_int32 (sub_w 32 cur s.last_total_delay_ms)));
  last_total_delay_ms = cur;
  last_q_size_byte = s.cur_q_size_byte;
}

module _ (r : Rounding) where
  pub queue_delay : State → ℕ → ℕ
  queue_delay s size =
      if fits_one_ampdu s size then 0 else r.delay_ms (u32 (size * 8)) s.cur_tx_rate_bps

  pub total_delay : State → ℕ → ℕ
  total_delay s size =
      let head_time = if s.mode == 0 then s.cur_q_head_time_ms else 0 in
      add_w 32 (add_w 32 (queue_delay s size) head_time) (s.cur_tx_delay_us / 1000)

  unfoldable pub calculate_total_delay_ms : State → ℕ → Queue → ℕ → Option (ℕ × State)
  calculate_total_delay_ms s qdisc_bytes q extra = do
    size ← queue_size s qdisc_bytes q extra
    some (total_delay s size, record s { cur_q_size_byte = size })

  unfoldable pub set_ack_delay : State → ℕ → ℕ → Queue → Option State
  set_ack_delay s now qdisc_bytes q = do
    (cur, s') ← calculate_total_delay_ms s qdisc_bytes q 0
    some (note_delay now cur s')
