-- ===== src/Copa/Control/Steps.antt =====
-- The steps of a report.
use zhuge.Prelude.{
  ℕ, ◌+◌, ◌-◌, ◌*◌, ◌/◌, ◌^◌, ◌<◌, ◌≤◌, ◌≡◌, refl, inl, inr, Bool, true, false, ◌&&◌, Option, some,
  ltb, ◌==◌, min, max, Bool-cases, if_both, arith,
}
use zhuge.Prelude.Words.{add_w, sub_w}
use zhuge.Copa.Velocity.{VelocityState, check_and_update_direction}
use zhuge.Copa.Control.{
  Doubles, Sample, Copa, loss_cycle, report_measurement, add_and_check_overflow, increase_slow,
  turned, increase, decrease, change_of, acked_packets, change_bytes, steer,
}

not_empty : (n : ℕ) → 0 < n → (n == 0) ≡ false
not_empty n h = ground arith

not_before : (a b : ℕ) → b ≤ a → ltb a b ≡ false
not_before a b h = ground arith

abbrev pub smallest : Sample → ℕ
smallest x = 4 * x.segment_size

check-total :
    (t srtt cwnd acked : ℕ) (v : VelocityState)
    → v.last_cwnd_record_time ≤ t
    → (w : VelocityState) × (check_and_update_direction t srtt cwnd acked v ≡ some w)
unfolding check_and_update_direction
check-total t srtt cwnd acked v l = elim (Bool-cases (v.last_cwnd_record_time == 0)) [
  | inl zero ↦ rw zero (_, refl)
  | inr started ↦ rw (started, not_before t v.last_cwnd_record_time l) (_, refl)
]

module _ (doubles : Doubles) where
  add-fits : (a b : ℕ) → a + b < 2 ^ 32 → add_and_check_overflow doubles a b ≡ some (a + b)
  unfolding add_and_check_overflow
  add-fits a b h = ground arith

  pub steer-total :
      (x : Sample) (grows : Bool) (s : Copa doubles)
      → s.velocity_state.last_cwnd_record_time ≤ x.now
      → (v : VelocityState) × (steer doubles x grows s ≡ some (record s { velocity_state = v }))
  unfolding steer
  steer-total x grows s l =
      let c = check-total x.now x.srtt s.c_wnd s.report_acked_bytes s.velocity_state l in
      elim (Bool-cases (grows && s.is_slow_start)) [
        | inl slow ↦ rw slow (s.velocity_state, refl)
        | inr runs ↦ rw (runs, c.1) (c.0, refl)
      ]

  -- The window after a growth.
  pub record Grown (w acked : ℕ) (slow : Bool) (m : Option (Copa doubles)) : Type 0 where
    pub next : Copa doubles
    pub grows : m ≡ some next
    pub slow_start : next.is_slow_start ≡ slow
    pub least : w ≤ next.c_wnd
    pub most : next.c_wnd ≤ w + max w acked

  increase_slow-Grown :
      (x : Sample) (s : Copa doubles)
      → s.c_wnd + s.report_acked_bytes < 2 ^ 32
      → Grown s.c_wnd s.report_acked_bytes s.is_slow_start (increase_slow doubles x s)
  unfolding increase_slow
  increase_slow-Grown x s h = elim (Bool-cases (s.last_cwnd_double_time == 0)) [
    | inl first ↦ rw first (record {
      next = record s { last_cwnd_double_time = x.now };
      grows = refl;
      slow_start = refl;
      least = omega arith;
      most = omega arith;
    })
    | inr later ↦ elim (Bool-cases (ltb x.srtt (x.now - s.last_cwnd_double_time))) [
      | inl due ↦
          rw (later, due, add-fits s.c_wnd s.report_acked_bytes h)
            (record {
              next = record s {
                c_wnd = s.c_wnd + s.report_acked_bytes;
                last_cwnd_double_time = x.now;
              };
              grows = refl;
              slow_start = refl;
              least = omega arith;
              most = omega arith;
            })
      | inr early ↦
          rw (later, early)
            (record {
              next = s;
              grows = refl;
              slow_start = refl;
              least = omega arith;
              most = omega arith;
            })
    ]
  ]

  pub increase-Grown :
      (x : Sample) (change : ℕ) (s : Copa doubles)
      → change ≤ s.c_wnd
      → s.c_wnd < 2 ^ 31
      → s.report_acked_bytes < 2 ^ 31
      → Grown s.c_wnd s.report_acked_bytes s.is_slow_start (increase doubles x change s)
  unfolding increase
  increase-Grown x change s c l a =
      if_both (Grown s.c_wnd s.report_acked_bytes s.is_slow_start) s.is_slow_start
        (increase_slow-Grown x s (omega arith))
        (rw (add-fits s.c_wnd change (omega arith)) (record {
          next = record s {
            velocity_state = turned doubles x.now true s;
            c_wnd = s.c_wnd + change;
          };
          grows = refl;
          slow_start = refl;
          least = omega arith;
          most = omega arith;
        }))

  -- The window after a shrinking.
  pub record Shrunk (w least : ℕ) (slow : Bool) (t : Copa doubles) : Type 0 where
    pub slow_start : t.is_slow_start ≡ false
    pub most : t.c_wnd ≤ max w least
    pub kept : slow ≡ false → least ≤ t.c_wnd
    pub at_most_half : slow ≡ true → t.c_wnd ≤ w / 2
    pub halved : min (w / 2) least ≤ t.c_wnd

  pub decrease-Shrunk :
      (x : Sample) (change : ℕ) (s : Copa doubles)
      → smallest x < 2 ^ 32
      → Shrunk s.c_wnd (smallest x) s.is_slow_start (decrease doubles x change s)
  unfolding decrease
  decrease-Shrunk x change s l = record {
    slow_start = refl;
    most = if_both (λ w. w ≤ max s.c_wnd (smallest x)) s.is_slow_start (omega arith) (omega arith);
    kept = λ e. rw e (omega arith);
    at_most_half = λ e. rw e (omega arith);
    halved =
        if_both (λ w. min (s.c_wnd / 2) (smallest x) ≤ w) s.is_slow_start (omega arith)
          (omega arith);
  }

  -- The state when the window is adjusted.
  abbrev pub measured : Sample → Copa doubles → Copa doubles
  measured x s =
      report_measurement doubles x.now x.srtt x.rtt_min s.report_acked_bytes s.report_lost_bytes s

  -- What the measurement does not touch.
  pub record Untouched (s t : Copa doubles) : Type 0 where
    pub c_wnd : t.c_wnd ≡ s.c_wnd
    pub acked : t.report_acked_bytes ≡ s.report_acked_bytes
    pub slow : t.is_slow_start ≡ s.is_slow_start
    pub velocity : t.velocity_state ≡ s.velocity_state

  pub measured-Untouched : (x : Sample) (s : Copa doubles) → Untouched s (measured x s)
  unfolding report_measurement loss_cycle
  measured-Untouched x s =
      elim (Bool-cases (ltb (s.prev_loss_cycle + x.rtt_min + x.rtt_min) x.now)) [
        | inl new ↦ rw new (record { c_wnd = refl; acked = refl; slow = refl; velocity = refl })
        | inr old ↦ rw old (record { c_wnd = refl; acked = refl; slow = refl; velocity = refl })
      ]

  pub change_of-some :
      (x : Sample) (s : Copa doubles)
      → 0 < x.segment_size
      → (c : ℕ) × (change_of doubles x s ≡ some c) × (c ≤ s.c_wnd)
  unfolding change_of acked_packets change_bytes
  change_of-some x s one =
      let acked = sub_w 32 (add_w 32 s.report_acked_bytes x.segment_size) 1 / x.segment_size in
      (change_bytes doubles x acked s, rw (not_empty x.segment_size one) refl, omega arith)

  pub loss_cycle_same :
      (now rtt_min acked lost : ℕ) (s : Copa doubles)
      → ((loss_cycle doubles now rtt_min acked lost s).window ≡ s.window)
        × ((loss_cycle doubles now rtt_min acked lost s).copa_mode_switch ≡ s.copa_mode_switch)
        × ((loss_cycle doubles now rtt_min acked lost s).delta_param ≡ s.delta_param)
  unfolding loss_cycle
  loss_cycle_same now rtt_min acked lost s =
      elim (Bool-cases (ltb (s.prev_loss_cycle + rtt_min + rtt_min) now)) [
        | inl new ↦ rw new (refl, refl, refl)
        | inr old ↦ rw old (refl, refl, refl)
      ]
