-- ===== src/Copa/Control/Laws.antt =====
-- What a report leaves of the window and the mode.
use zhuge.Prelude.{
  ℕ, ◌+◌, ◌*◌, ◌/◌, ◌^◌, ◌<◌, ◌≤◌, ◌≡◌, refl, ap, ◌∙◌, inl, inr, Bool, true, false, Option, some,
  min, max, Bool-cases, arith, length, All,
}
use zhuge.Copa.{us, back}
use zhuge.Copa.Detect.{tcp_detected-early}
use zhuge.Copa.Velocity.{VelocityState}
use zhuge.Copa.Control.{
  Doubles, Sample, Copa, tcp_coop, loss_cycle, current_mode, capped, next_delta, report_measurement,
  decrease, increase_cwnd, steer, adjust, clear_report, on_report,
}
use zhuge.Copa.Control.Steps.{
  steer-total, increase-Grown, decrease-Shrunk, Untouched, measured-Untouched, change_of-some,
  loss_cycle_same, measured, smallest,
}

module _ (doubles : Doubles) where
  -- A report that has been taken.
  pub record Taken (x : Sample) (s : Copa doubles) (m : Option (Copa doubles)) : Type 0 where
    pub next : Copa doubles
    pub takes : m ≡ some next
    pub cleared : next.report_acked_bytes + next.report_lost_bytes ≡ 0
    pub time : next.last_report_time ≡ x.now
    pub threshold : next.ss_thresh ≡ next.c_wnd
    pub grown :
        increase_cwnd doubles x (measured doubles x s) ≡ true
        → (s.c_wnd ≤ next.c_wnd)
          × (next.c_wnd ≤ s.c_wnd + max s.c_wnd s.report_acked_bytes)
          × (next.is_slow_start ≡ s.is_slow_start)
    pub shrunk :
        increase_cwnd doubles x (measured doubles x s) ≡ false
        → (next.is_slow_start ≡ false)
          × (next.c_wnd ≤ max s.c_wnd (smallest x))
          × (s.is_slow_start ≡ false → smallest x ≤ next.c_wnd)
          × (s.is_slow_start ≡ true → next.c_wnd ≤ s.c_wnd / 2)
          × (min (s.c_wnd / 2) (smallest x) ≤ next.c_wnd)

  module _ (x : Sample) (s : Copa doubles) (l : s.velocity_state.last_cwnd_record_time ≤ x.now)
      (w : s.c_wnd < 2 ^ 31) where
    untouched : Untouched doubles s (measured doubles x s)
    untouched = measured-Untouched doubles x s

    steered :
        (grows : Bool)
        → (v : VelocityState) × (steer doubles x grows (measured doubles x s)
            ≡ some (record (measured doubles x s) { velocity_state = v }))
    steered grows =
        steer-total doubles x grows (measured doubles x s)
          (omega (arith, l, ap (λ (v : VelocityState). v.last_cwnd_record_time) untouched.velocity))

    on_report-grows :
        0 < x.segment_size
        → s.report_acked_bytes < 2 ^ 31
        → increase_cwnd doubles x (measured doubles x s) ≡ true
        → Taken x s (on_report doubles x s)
    unfolding on_report adjust clear_report
    on_report-grows one a grows =
        let v = (steered true).0 in
        let t = record (measured doubles x s) { velocity_state = v } in
        let u = untouched in
        let change = change_of-some doubles x t one in
        let g =
          increase-Grown doubles x change.0 t change.2 (omega (arith, u.c_wnd))
            (omega (arith, u.acked)) in
        record {
          next = clear_report doubles x.now g.next;
          takes = rw (grows, (steered true).1, change.1, g.grows) refl;
          cleared = refl;
          time = refl;
          threshold = refl;
          grown = λ _. (
            omega (arith, g.least, u.c_wnd),
            omega (arith, g.most, u.c_wnd, u.acked),
            g.slow_start ∙ u.slow,
          );
          shrunk = λ no. absurd (cc);
        }

    on_report-shrinks :
        0 < x.segment_size
        → smallest x < 2 ^ 32
        → increase_cwnd doubles x (measured doubles x s) ≡ false
        → Taken x s (on_report doubles x s)
    unfolding on_report adjust clear_report
    on_report-shrinks one seg shrinks =
        let v = (steered false).0 in
        let t = record (measured doubles x s) { velocity_state = v } in
        let u = untouched in
        let change = change_of-some doubles x t one in
        let g = decrease-Shrunk doubles x change.0 t seg in
        record {
          next = clear_report doubles x.now (decrease doubles x change.0 t);
          takes = rw (shrinks, (steered false).1, change.1) refl;
          cleared = refl;
          time = refl;
          threshold = refl;
          grown = λ yes. absurd (cc);
          shrunk = λ _. (
            g.slow_start,
            omega (arith, g.most, u.c_wnd),
            λ e. g.kept (u.slow ∙ e),
            λ e. omega (arith, g.at_most_half (u.slow ∙ e), u.c_wnd),
            omega (arith, g.halved, u.c_wnd),
          );
        }

  -- If the last window was recorded before now, the window and the acknowledged bytes are below
  -- 2^31, and a segment is not empty and four of them are below 2^32, a report never fails. It
  -- clears the counters, notes the time and sets the threshold to the window. An increase keeps the
  -- phase and adds at most the window or the acknowledged bytes. A decrease ends slow start and
  -- leaves at most the window or four segments, at least half the window or four segments, outside
  -- slow start at least four segments, and in slow start at most half the window.
  pub on_report-Taken :
      (x : Sample) (s : Copa doubles)
      → s.velocity_state.last_cwnd_record_time ≤ x.now
      → s.c_wnd < 2 ^ 31
      → s.report_acked_bytes < 2 ^ 31
      → 0 < x.segment_size
      → smallest x < 2 ^ 32
      → Taken x s (on_report doubles x s)
  on_report-Taken x s l w a one seg =
      elim (Bool-cases (increase_cwnd doubles x (measured doubles x s))) [
        | inl grows ↦ on_report-grows x s l w one a grows
        | inr shrinks ↦ on_report-shrinks x s l w one seg shrinks
      ]

  -- If no bytes are reported lost, the loss rate is low, the mode switch is on, a sample is recorded,
  -- and the last time is before ten round trips, with times and the smallest round trip below 2^62:
  -- whatever the round trips are, the mode is the one that competes with flows that fill buffers, and
  -- delta shrinks.
  pub report_measurement-early :
      (now srtt rtt_min acked : ℕ) (s : Copa doubles)
      → doubles.is_lossy (loss_cycle doubles now rtt_min acked 0 s).prev_loss_rate ≡ false
      → s.copa_mode_switch ≡ true
      → 0 < length s.window.copa_rtts
      → All (λ (t : ℕ). t < 2 ^ 62) s.window.copa_times
      → back s.window.copa_times < us srtt * 10
      → us srtt * 10 < 2 ^ 63
      → us rtt_min < 2 ^ 62
      → ((report_measurement doubles now srtt rtt_min acked 0 s).copa_cur_mode ≡ tcp_coop)
        × ((report_measurement doubles now srtt rtt_min acked 0 s).delta_param
            ≡ capped doubles (doubles.shrink s.delta_param))
  unfolding report_measurement current_mode next_delta
  report_measurement-early now srtt rtt_min acked s lossless switch any times early small least =
      let same = loss_cycle_same doubles now rtt_min acked 0 s in
      let found = tcp_detected-early srtt rtt_min s.window any times early small least in
      rw (lossless, same.0, found, same.1 ∙ switch)
        (refl, ap (λ d. capped doubles (doubles.shrink d)) same.2)
