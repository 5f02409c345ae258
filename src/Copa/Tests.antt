-- ===== src/Copa/Tests.antt =====
-- Instances of the properties of Copa, with a delta in thousandths and times of a run's start.
use zhuge.Prelude.{
  ℕ, ◌+◌, ◌*◌, ◌/◌, ◌≡◌, ◌↔◌, refl, true, false, List, [], ◌∷◌, some, ltb, leb, arith,
}
use zhuge.Prelude.Int.{pos}
use zhuge.Copa.{RttWindow, new_rtt_sample, tcp_detected, back}
use zhuge.Copa.Samples.{IsValid, Sampled, new_rtt_sample-Samples}
use zhuge.Copa.Detect.{IsFilled, tcp_detected-Filled}
use zhuge.Copa.Detect.Range.{recent}
use zhuge.Copa.Velocity.{VelocityState, up}
use zhuge.Copa.Velocity.Laws.{Report, run, IsPaced, slow, run-IsPaced}
use zhuge.Copa.Control.{
  Doubles, Sample, Copa, default, tcp_coop, capped, loss_cycle, report_measurement, on_report,
}
use zhuge.Copa.Control.Laws.{Taken, on_report-Taken, report_measurement-early}

-- Three samples of 50 ms, from 20 ms to 12 s.
abbrev sampled : RttWindow
sampled = record {
  copa_rtts = 50000 ∷ 52000 ∷ 51000 ∷ [];
  copa_times = 20000 ∷ 40000 ∷ 12000000 ∷ [];
  copa_increase = 20000 ∷ [];
  copa_num_increase = pos 1;
}

sampled-IsValid : IsValid 12000000 sampled
sampled-IsValid = record {
  even = refl;
  ascending = ((omega arith, (omega arith, tt)), ((omega arith, tt), (tt, tt)));
  past = (omega arith, (omega arith, (omega arith, tt)));
  count = refl;
  few = omega arith;
}

new_rtt_sample-Samples_example :
    Sampled 50000000 50000000 12050000000 sampled
      (new_rtt_sample 50000000 50000000 12050000000 sampled)
new_rtt_sample-Samples_example =
    new_rtt_sample-Samples 50000000 50000000 12050000000 sampled 12000000 sampled-IsValid
      (omega arith)

tcp_detected-Filled_example :
    (tcp_detected 50000000 50000000 sampled ≡ true)
    ↔ IsFilled 50000000 (recent 11500000 sampled.copa_times sampled.copa_rtts)
unfolding back
tcp_detected-Filled_example =
    tcp_detected-Filled 50000000 50000000 sampled (omega arith) refl (omega arith) (omega arith)
      (omega arith) (omega arith, (omega arith, (omega arith, tt)))
      (omega arith, (omega arith, (omega arith, tt))) (omega arith)

abbrev steady : VelocityState
steady = record {
  velocity = 1;
  direction = up;
  last_recorded_cwnd_bytes = 10000;
  last_cwnd_record_time = 1000;
  time_since_direction = 900;
  total_acked_bytes = 9000;
}

-- The window grows twice, after more than three round trips of 20.
abbrev growing : List Report
growing =
    record { time = 1010; cwnd = 12000; acked = 4000 }
    ∷ record { time = 1030; cwnd = 14000; acked = 14000 }
    ∷ []

run-IsPaced_example : (w : VelocityState) × (run 20 growing steady ≡ some w) × IsPaced 20 w
run-IsPaced_example = run-IsPaced 20 growing steady (omega arith, (omega arith, tt)) (slow refl)

abbrev thousandths : Doubles
thousandths = record {
  Real = ℕ;
  loss_rate = λ l n. l * 1000 / n;
  is_lossy = λ r. leb 100 r;
  twice = λ d. 2 * d;
  shrink = λ d. 1000 * d / (1000 + d);
  default_delta = 500;
  is_above_default = λ d. ltb 500 d;
  reaches = λ mss delay d cwnd standing. leb (cwnd * delay * d) (1000 * mss * standing);
  divide = λ n d cwnd. n * 1000 / (d * cwnd);
  half = λ t. t / 2;
}

-- 100 ms after the start, with round trips of 50 ms.
abbrev early_window : RttWindow
early_window = record {
  copa_rtts = 50000 ∷ [];
  copa_times = 100000 ∷ [];
  copa_increase = [];
  copa_num_increase = pos 0;
}

abbrev copa : Copa thousandths
copa = record {
  window = early_window;
  velocity_state = steady;
  use_rtt_standing = false;
  is_slow_start = true;
  copa_mode_switch = true;
  last_cwnd_double_time = 0;
  copa_cur_mode = default;
  delta_param = 500;
  cur_num_acked = 0;
  cur_num_losses = 0;
  prev_loss_cycle = 0;
  prev_loss_rate = 0;
  report_acked_bytes = 14480;
  report_lost_bytes = 0;
  last_report_time = 0;
  c_wnd = 14480;
  ss_thresh = 14480;
}

abbrev sample : Sample
sample = record {
  now = 100000000;
  rtt = 60000000;
  srtt = 50000000;
  acked_sacked = 1448;
  bytes_loss = 0;
  rtt_min = 50000000;
  rtt_standing = 55000000;
  segment_size = 1448;
}

on_report-Taken_example : Taken thousandths sample copa (on_report thousandths sample copa)
on_report-Taken_example =
    on_report-Taken thousandths sample copa (omega arith) (omega arith) (omega arith) (omega arith)
      (omega arith)

lossless :
    thousandths.is_lossy (loss_cycle thousandths 100000000 50000000 14480 0 copa).prev_loss_rate
    ≡ false
unfolding loss_cycle
lossless = refl

report_measurement-early_example :
    ((report_measurement thousandths 100000000 50000000 50000000 14480 0 copa).copa_cur_mode
      ≡ tcp_coop)
    × ((report_measurement thousandths 100000000 50000000 50000000 14480 0 copa).delta_param
        ≡ capped thousandths 333)
unfolding back
report_measurement-early_example =
    report_measurement-early thousandths 100000000 50000000 50000000 14480 copa lossless refl
      (omega arith) (omega arith, tt) (omega arith) (omega arith) (omega arith)
