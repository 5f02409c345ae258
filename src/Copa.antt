-- ===== src/Copa.antt =====
-- ns-3.34-diff/src/internet/model/tcp-copa.cc: the round trips that Copa keeps, and its detection of
-- flows that fill buffers. Times are ns-3 times in nanoseconds, far below 2^63. `none` is a failed
-- assertion.
pub mod Samples
pub mod Detect
pub mod Velocity
pub mod Control
mod Tests
use zhuge.Prelude.{
  ℕ, ◌+◌, ◌-◌, ◌*◌, ◌/◌, ◌^◌, Bool, true, false, ◌&&◌, ◌||◌, List, [], ◌∷◌, ◌++◌, Option, none,
  some, ltb, ◌==◌, if◌then◌else◌, length, drop, ◌>>=◌, min, max,
}
use zhuge.Prelude.Int.{ℤ, pos, ◌+ℤ◌, ◌-ℤ◌}
use zhuge.Prelude.Words.{sub_w, u64}

-- The deques of `TcpCopa`, with their times in microseconds.
pub record RttWindow : Type 0 where
  pub copa_rtts : List ℕ
  pub copa_times : List ℕ
  pub copa_increase : List ℕ
  pub copa_num_increase : ℤ

unfoldable pub init : RttWindow
init = record { copa_rtts = []; copa_times = []; copa_increase = []; copa_num_increase = pos 0 }

-- `Time::GetMicroSeconds`.
abbrev pub us : ℕ → ℕ
us t = t / 1000

abbrev pub copa_max_time : ℕ
copa_max_time = 10000000

-- `back` of a deque, which the code asks of no empty one.
unfoldable pub back : List ℕ → ℕ
back [] = 0
back (x ∷ []) = x
back (x ∷ y ∷ xs) = back (y ∷ xs)

-- The first loop of `clear_old_hist`, at a time in microseconds: the times and the round trips.
unfoldable pub pop_old : ℕ → List ℕ → List ℕ → List ℕ × List ℕ
pop_old now [] rs = ([], rs)
pop_old now (t ∷ ts) rs =
    let rest = pop_old now ts (drop 1 rs) in
    if ltb copa_max_time now && ltb 1 (length (t ∷ ts)) && ltb t (now - copa_max_time)
    then rest
    else (t ∷ ts, rs)

-- The second loop.
unfoldable pub pop_increase : List ℕ → ℤ → List ℕ × ℤ
pop_increase [] n = ([], n)
pop_increase (t ∷ ts) n =
    let rest = pop_increase ts (n -ℤ pos 1) in
    if ltb 40 (length (t ∷ ts)) then rest else (t ∷ ts, n)

unfoldable pub clear_old_hist : ℕ → RttWindow → Option RttWindow
clear_old_hist now s =
    let (times, rtts) = pop_old (us now) s.copa_times s.copa_rtts in
    let (increase, n) = pop_increase s.copa_increase s.copa_num_increase in
    if length s.copa_rtts == length s.copa_times
    then some record {
      copa_rtts = rtts;
      copa_times = times;
      copa_increase = increase;
      copa_num_increase = n;
    }
    else none

-- An increase is counted at most once in two round trips; the subtraction wraps.
unfoldable pub is_increase : ℕ → ℕ → RttWindow → Bool
is_increase rtt_min now s =
    (length s.copa_increase == 0) || ltb (back s.copa_increase) (sub_w 64 (us now) (2 * us rtt_min))

unfoldable pub note_increase : ℕ → ℕ → RttWindow → RttWindow
note_increase rtt_min now s =
    if is_increase rtt_min now s
    then record s {
      copa_num_increase = s.copa_num_increase +ℤ pos 1;
      copa_increase = s.copa_increase ++ us now ∷ [];
    }
    else s

unfoldable pub push_sample : ℕ → ℕ → RttWindow → RttWindow
push_sample rtt now s = record s {
  copa_rtts = s.copa_rtts ++ us rtt ∷ [];
  copa_times = s.copa_times ++ us now ∷ [];
}

unfoldable pub new_rtt_sample : ℕ → ℕ → ℕ → RttWindow → Option RttWindow
new_rtt_sample rtt rtt_min now s =
    if length s.copa_rtts == length s.copa_times
    then clear_old_hist now (note_increase rtt_min now (push_sample rtt now s))
    else none

-- The loop of `tcp_detected`: the smallest and the largest round trip of the samples after a time.
unfoldable pub rtt_range : ℕ → List ℕ → List ℕ → ℕ → ℕ → ℕ × ℕ
rtt_range since [] rs min1 max1 = (min1, max1)
rtt_range since (t ∷ ts) [] min1 max1 = (min1, max1)
rtt_range since (t ∷ ts) (r ∷ rs) min1 max1 =
    if ltb since t
    then rtt_range since ts rs (min min1 r) (max max1 r)
    else rtt_range since ts rs min1 max1

-- `copa_times.back() - srtt * 10`, which wraps.
unfoldable pub window_start : ℕ → RttWindow → ℕ
window_start srtt s = sub_w 64 (back s.copa_times) (us srtt * 10)

unfoldable pub threshold : ℕ → ℕ → ℕ
threshold rtt_min max1 = u64 (us rtt_min + sub_w 64 max1 (us rtt_min) / 10 + 100)

unfoldable pub tcp_detected : ℕ → ℕ → RttWindow → Bool
tcp_detected srtt rtt_min s =
    let range = rtt_range (window_start srtt s) s.copa_times s.copa_rtts (2 ^ 64 - 1) 0 in
    if length s.copa_rtts == 0 then false else ltb (threshold rtt_min range.1) range.0
