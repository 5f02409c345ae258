-- ===== src/Copa/Control.antt =====
-- `ReportMeasurement` and `CongControl` of tcp-copa.cc. What is computed in `double` and what the
-- filters of ns-3 answer are parameters. `none` is a failed assertion or a division by
-- zero. Left out: the pacing rate and the bit rate, which nothing here reads.
pub mod Steps
pub mod Laws
use zhuge.Prelude.{
  ℕ, ◌+◌, ◌-◌, ◌*◌, ◌/◌, ◌%◌, ◌^◌, Bool, true, false, not, ◌&&◌, ◌||◌, Option, none, some, ltb, leb,
  ◌==◌, if◌then◌else◌, ◌>>=◌, min, max,
}
use zhuge.Prelude.Words.{add_w, sub_w, u32, u64}
use zhuge.Copa.{RttWindow, us, new_rtt_sample, tcp_detected}
use zhuge.Copa.Velocity.{
  VelocityState, up, down, is_same, check_and_update_direction, change_direction,
}

pub data CopaMode : Type 0 where
  default : CopaMode
  tcp_coop : CopaMode
  tcp_loss : CopaMode

-- The computations in `double`, `Real` for the type: the loss rate of two counts and its test
-- against 0.1; twice a delta, 1 / (1 + 1 / delta), and its test against the default; the test of
-- the target rate of a segment, a delay and a delta against the current rate of a window and a
-- round trip; a number over a delta and a window, as `uint32_t`; half a round trip.
pub record Doubles : Type 1 where
  pub Real : Type 0
  pub loss_rate : ℕ → ℕ → Real
  pub is_lossy : Real → Bool
  pub twice : Real → Real
  pub shrink : Real → Real
  pub default_delta : Real
  pub is_above_default : Real → Bool
  pub reaches : ℕ → ℕ → Real → ℕ → ℕ → Bool
  pub divide : ℕ → Real → ℕ → ℕ
  pub half : ℕ → ℕ

-- What `CongControl` is told: the sample of the rate, the socket and the filters' best round trips.
pub record Sample : Type 0 where
  pub now : ℕ
  pub rtt : ℕ
  pub srtt : ℕ
  pub acked_sacked : ℕ
  pub bytes_loss : ℕ
  pub rtt_min : ℕ
  pub rtt_standing : ℕ
  pub segment_size : ℕ

abbrev pub k_min_cwnd_segment : ℕ
k_min_cwnd_segment = 4

module _ (doubles : Doubles) where
  pub record Copa : Type 0 where
    pub window : RttWindow
    pub velocity_state : VelocityState
    pub use_rtt_standing : Bool
    pub is_slow_start : Bool
    pub copa_mode_switch : Bool
    pub last_cwnd_double_time : ℕ
    pub copa_cur_mode : CopaMode
    pub delta_param : doubles.Real
    pub cur_num_acked : ℕ
    pub cur_num_losses : ℕ
    pub prev_loss_cycle : ℕ
    pub prev_loss_rate : doubles.Real
    pub report_acked_bytes : ℕ
    pub report_lost_bytes : ℕ
    pub last_report_time : ℕ
    -- `m_cWnd` and `m_ssThresh` of the socket.
    pub c_wnd : ℕ
    pub ss_thresh : ℕ

  -- Once in two round trips the loss rate is taken anew.
  unfoldable pub loss_cycle : ℕ → ℕ → ℕ → ℕ → Copa → Copa
  loss_cycle now rtt_min acked lost s =
      let a = add_w 32 s.cur_num_acked acked in
      let l = add_w 32 s.cur_num_losses lost in
      if ltb (s.prev_loss_cycle + rtt_min + rtt_min) now
      then record s {
        prev_loss_rate =
            if ltb 0 (add_w 32 l a) then doubles.loss_rate l (add_w 32 l a) else s.prev_loss_rate;
        cur_num_losses = 0;
        cur_num_acked = 0;
        prev_loss_cycle = now;
      }
      else record s { cur_num_acked = a; cur_num_losses = l }

  unfoldable pub current_mode : ℕ → ℕ → Copa → CopaMode
  current_mode srtt rtt_min s =
      if doubles.is_lossy s.prev_loss_rate
      then tcp_loss
      else if tcp_detected srtt rtt_min s.window
      then tcp_coop
      else default

  unfoldable pub capped : doubles.Real → doubles.Real
  capped d = if doubles.is_above_default d then doubles.default_delta else d

  -- Without the switch every mode has the default delta.
  unfoldable pub next_delta : Bool → CopaMode → ℕ → doubles.Real → doubles.Real
  next_delta switch default lost d = doubles.default_delta
  next_delta switch tcp_coop lost d =
      if not switch
      then doubles.default_delta
      else capped (if ltb 0 lost then doubles.twice d else doubles.shrink d)
  next_delta switch tcp_loss lost d =
      if not switch
      then doubles.default_delta
      else capped (if ltb 0 lost then doubles.twice d else d)

  unfoldable pub report_measurement : ℕ → ℕ → ℕ → ℕ → ℕ → Copa → Copa
  report_measurement now srtt rtt_min acked lost s =
      let s' = loss_cycle now rtt_min acked lost s in
      let mode = current_mode srtt rtt_min s' in
      record s' {
        copa_cur_mode = mode;
        delta_param = next_delta s'.copa_mode_switch mode lost s'.delta_param;
      }

  unfoldable pub add_and_check_overflow : ℕ → ℕ → Option ℕ
  add_and_check_overflow value to_add =
      if ltb (2 ^ 32 - 1 - to_add) value then none else some (add_w 32 value to_add)

  -- The current rate does not reach the target: the window grows. In slow start it is doubled once
  -- in a round trip.
  unfoldable pub increase_slow : Sample → Copa → Option Copa
  increase_slow x s =
      if s.last_cwnd_double_time == 0
      then some (record s { last_cwnd_double_time = x.now })
      else if ltb x.srtt (x.now - s.last_cwnd_double_time)
      then (add_and_check_overflow s.c_wnd s.report_acked_bytes
          >>= (λ w. some (record s { c_wnd = w; last_cwnd_double_time = x.now })))
      else some s

  -- A high velocity that was meant for the other direction is reset.
  unfoldable pub turned : ℕ → Bool → Copa → VelocityState
  turned now grows s =
      let d = if grows then up else down in
      if not (is_same s.velocity_state.direction d) && ltb 1 s.velocity_state.velocity
      then change_direction now d s.c_wnd s.velocity_state
      else s.velocity_state

  unfoldable pub increase : Sample → ℕ → Copa → Option Copa
  increase x change s =
      let slow = increase_slow x s in
      if s.is_slow_start
      then slow
      else (add_and_check_overflow s.c_wnd change
          >>= (λ w. some (record s { velocity_state = turned x.now true s; c_wnd = w })))

  unfoldable pub decrease : Sample → ℕ → Copa → Copa
  decrease x change s =
      let w = max (s.c_wnd - change) (u32 (k_min_cwnd_segment * x.segment_size)) in
      record s {
        velocity_state = turned x.now false s;
        c_wnd = if s.is_slow_start then min (s.c_wnd / 2) w else w;
        is_slow_start = false;
      }

  -- The queueing delay, in microseconds.
  unfoldable pub delay_us : Sample → Copa → ℕ
  delay_us x s = sub_w 64 (us (if s.use_rtt_standing then x.rtt_standing else x.rtt)) (us x.rtt_min)

  unfoldable pub increase_cwnd : Sample → Copa → Bool
  increase_cwnd x s =
      (delay_us x s == 0)
      || doubles.reaches x.segment_size (delay_us x s) s.delta_param s.c_wnd (us x.rtt_standing)

  -- The number of segments acknowledged, of 32 bits: a division by the size of a segment.
  unfoldable pub acked_packets : Sample → Copa → Option ℕ
  acked_packets x s =
      if x.segment_size == 0
      then none
      else some (sub_w 32 (add_w 32 s.report_acked_bytes x.segment_size) 1 / x.segment_size)

  -- `change`: a product of 32 bits, times the velocity; never more than the window.
  unfoldable pub change_bytes : Sample → ℕ → Copa → ℕ
  change_bytes x acked s =
      let segments = u32 (acked * x.segment_size * x.segment_size) in
      let n = u64 (segments * s.velocity_state.velocity) in
      min (doubles.divide n s.delta_param s.c_wnd) s.c_wnd

  unfoldable pub change_of : Sample → Copa → Option ℕ
  change_of x s = acked_packets x s >>= (λ acked. some (change_bytes x acked s))

  unfoldable pub steer : Sample → Bool → Copa → Option Copa
  steer x grows s =
      if grows && s.is_slow_start
      then some s
      else (check_and_update_direction x.now x.srtt s.c_wnd s.report_acked_bytes s.velocity_state
          >>= (λ v. some (record s { velocity_state = v })))

  unfoldable pub adjust : Sample → Bool → Copa → Option Copa
  adjust x grows s =
      change_of x s
      >>= (λ change. if grows then increase x change s else some (decrease x change s))

  unfoldable pub clear_report : ℕ → Copa → Copa
  clear_report now s = record s {
    last_report_time = now;
    report_acked_bytes = 0;
    report_lost_bytes = 0;
    ss_thresh = s.c_wnd;
  }

  -- A report, once the samples are recorded.
  unfoldable pub on_report : Sample → Copa → Option Copa
  on_report x s =
      let s' =
        report_measurement x.now x.srtt x.rtt_min s.report_acked_bytes s.report_lost_bytes s in
      let grows = increase_cwnd x s' in
      steer x grows s' >>= adjust x grows >>= (λ t. some (clear_report x.now t))

  -- `CongControl`, on every acknowledgement.
  unfoldable pub cong_control : Sample → Copa → Option Copa
  cong_control x s =
      let due = ltb 0 x.now && ltb (s.last_report_time + doubles.half x.srtt) x.now in
      new_rtt_sample x.rtt x.rtt_min x.now s.window >>= (λ window.
        let s' = record s {
          window = window;
          report_acked_bytes = add_w 32 s.report_acked_bytes x.acked_sacked;
          report_lost_bytes = add_w 32 s.report_lost_bytes x.bytes_loss;
        } in
        if not due
        then some s'
        else if (x.rtt_min == 0) || (x.rtt_standing == 0)
        then none
        else if ltb x.rtt_standing x.rtt_min
        then some s'
        else on_report x s')
