-- ===== src/Copa/Velocity.antt =====
-- `VelocityState` of tcp-copa.h, with `CheckAndUpdateDirection` and `ChangeDirection` of tcp-copa.cc.
-- `none` is a failed assertion. A time since a later time is 0 here and negative in the code: neither
-- is over three round trips.
pub mod Laws
use zhuge.Prelude.{
  ℕ, ◌+◌, ◌-◌, ◌*◌, ◌%◌, ◌^◌, Bool, true, false, not, ◌&&◌, Option, none, some, ltb, leb, ◌==◌,
  if◌then◌else◌,
}
use zhuge.Prelude.Words.{add_w}

-- `None`, `Up` and `Down`.
pub data Direction : Type 0 where
  unset : Direction
  up : Direction
  down : Direction

abbrev pub is_same : Direction → Direction → Bool
is_same unset unset = true
is_same up up = true
is_same down down = true
is_same _ _ = false

-- `total_acked_bytes` is `m_TotalAckedBytes` of the class, which no constructor sets.
pub record VelocityState : Type 0 where
  pub velocity : ℕ
  pub direction : Direction
  pub last_recorded_cwnd_bytes : ℕ
  pub last_cwnd_record_time : ℕ
  pub time_since_direction : ℕ
  pub total_acked_bytes : ℕ

unfoldable pub init : ℕ → VelocityState
init total = record {
  velocity = 1;
  direction = unset;
  last_recorded_cwnd_bytes = 0;
  last_cwnd_record_time = 0;
  time_since_direction = 0;
  total_acked_bytes = total;
}

-- The direction of a window, from the one at its start.
unfoldable pub new_direction : ℕ → VelocityState → Direction
new_direction cwnd_bytes v = if ltb v.last_recorded_cwnd_bytes cwnd_bytes then up else down

-- Once a window of bytes is acknowledged.
unfoldable pub end_window : ℕ → ℕ → ℕ → VelocityState → VelocityState
end_window event_time srtt cwnd_bytes v =
    let d = new_direction cwnd_bytes v in
    let same = is_same d v.direction in
    let long = ltb (3 * srtt) (event_time - v.time_since_direction) in
    record {
      velocity =
          if same && long then 2 * v.velocity % 2 ^ 64 else if not same then 1 else v.velocity;
      direction = d;
      last_recorded_cwnd_bytes = cwnd_bytes;
      last_cwnd_record_time = event_time;
      time_since_direction = if not same then event_time else v.time_since_direction;
      total_acked_bytes = 0;
    }

unfoldable pub check_and_update_direction : ℕ → ℕ → ℕ → ℕ → VelocityState → Option VelocityState
check_and_update_direction event_time srtt cwnd_bytes acked_bytes v =
    let total = add_w 32 v.total_acked_bytes acked_bytes in
    let v' = record v { total_acked_bytes = total } in
    if v.last_cwnd_record_time == 0
    then some
        (record v { last_cwnd_record_time = event_time; last_recorded_cwnd_bytes = cwnd_bytes })
    else if ltb event_time v.last_cwnd_record_time
    then none
    else some (if leb cwnd_bytes total then end_window event_time srtt cwnd_bytes v' else v')

unfoldable pub change_direction : ℕ → Direction → ℕ → VelocityState → VelocityState
change_direction event_time d cwnd_bytes v = if is_same d v.direction then v else record v {
  direction = d;
  velocity = 1;
  time_since_direction = event_time;
  last_recorded_cwnd_bytes = cwnd_bytes;
}
