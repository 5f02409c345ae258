-- ===== src/Zhuge/Sendback/Laws.antt =====
-- Which packets `Sendback` of network-queue-zhuge.cc reports.
use zhuge.Prelude.{
  ℕ, ◌+◌, ◌%◌, ◌^◌, ◌≤◌, ◌<◌, ◌≡◌, ◌⊎◌, inl, inr, refl, false, Option, none, some, arith,
  Bool-cases, if◌then◌else◌,
}
use zhuge.Zhuge.{Packet, Queue, State}
use zhuge.Zhuge.QueueDelay.{Rounding, calculate_total_delay_ms}
use zhuge.Zhuge.Sendback.{Feedback, is_newer, feedback, report, answer, sendback}

-- With ids below 2^16. If the option is on, a media packet is reported, and its id noted, exactly if
-- its id is above the last one or more than 32768 below it, and the report's step leads, modulo 2^16,
-- from the last id to this one; a packet that is not reported leaves the last id. If the option is
-- off, nothing is reported, and the id is noted in the same cases.
pub report-exact :
    (s : State) (now_us delay_ms : ℕ) (p : Packet)
    → s.last_id < 2 ^ 16
    → p.global_id < 2 ^ 16
    → let (s', f) = report s now_us delay_ms p in
      (((s.last_id < p.global_id) ⊎ (p.global_id + 32768 < s.last_id))
        × (s'.last_id ≡ p.global_id)
        × (f ≡ (if s.wirtc_enable then some (feedback s now_us delay_ms p) else none))
        × ((s.last_id + (feedback s now_us delay_ms p).loss_seq) % 2 ^ 16 ≡ p.global_id))
      ⊎ ((p.global_id ≤ s.last_id)
          × (s.last_id ≤ p.global_id + 32768)
          × (s'.last_id ≡ s.last_id)
          × (f ≡ none))
unfolding report is_newer feedback
report-exact s now_us delay_ms p h k = elim (Bool-cases (is_newer s.last_id p.global_id)) [
  | inl newer ↦ rw newer (inl (ground arith, refl, refl, ground arith))
  | inr older ↦ rw older (inr (ground arith, ground arith, refl, refl))
]

-- The test is not symmetric: after the id has wrapped, a late packet from before the wrap is
-- taken for a new one, and the report jumps forward by nearly the whole range. It holds of every
-- last id below 2^15 and every id at least 2^15 above it.
pub report-stale :
    (s : State) (now_us delay_ms : ℕ) (p : Packet)
    → s.last_id + 32768 ≤ p.global_id
    → p.global_id < 2 ^ 16
    → ((report s now_us delay_ms p).0.last_id ≡ p.global_id)
      × (32768 ≤ (feedback s now_us delay_ms p).loss_seq)
unfolding report is_newer feedback
report-stale s now_us delay_ms p h k = ground arith

-- `Sendback` always clears the flag that a report is due, so that the next packet schedules one.
pub sendback-flag :
    (r : Rounding) (s : State) (now_us qdisc_bytes : ℕ) (q : Queue) {s' : State}
    {f : Option Feedback}
    → sendback r s now_us qdisc_bytes q ≡ some (s', f)
    → s'.schedule_flag ≡ false
unfolding sendback calculate_total_delay_ms answer report
sendback-flag r s now_us qdisc_bytes q e = ground arith
