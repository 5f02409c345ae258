-- ===== src/Copa/Detect.antt =====
-- When Copa's detection of flows that fill buffers answers yes.
pub mod Range
use mathlib.Core.Path.{subst}
use mathlib.Core.Path.{subst}
use zhuge.Prelude.{
  ℕ, ◌+◌, ◌==◌, ◌-◌, ◌*◌, ◌/◌, ◌^◌, ◌<◌, ◌≤◌, ◌≡◌, refl, ap, ◌↔◌, ◌⊎◌, inl, inr, ◌⊎◌, inl, inr,
  Bool, true, false, List, [], ◌∷◌, ltb, if◌then◌else◌, length, All, arith, ltb→lt, lt→ltb, min,
  max, Bool-cases, if_both,
}
use zhuge.Copa.{RttWindow, us, back, rtt_range, window_start, threshold, tcp_detected}
use zhuge.Copa.Detect.Range.{
  recent, rtt_range-below, rtt_range-above, rtt_range-at, rtt_range-least, recent-none, All-weaken,
  recent-All,
}

window_start-wraps :
    (srtt : ℕ) (s : RttWindow)
    → back s.copa_times < us srtt * 10
    → us srtt * 10 < 2 ^ 63
    → 2 ^ 62 ≤ window_start srtt s
unfolding window_start
window_start-wraps srtt s early small = omega arith

threshold-empty : (rtt_min : ℕ) → us rtt_min < 2 ^ 62 → threshold rtt_min 0 < 2 ^ 64 - 1
unfolding threshold
threshold-empty rtt_min least = omega arith

not_zero : (n : ℕ) → 0 < n → (n == 0) ≡ false
not_zero n h = ground arith

-- In the first ten round trips of a run the start of the window wraps to a time that no sample is
-- after, and `tcp_detected` answers yes on any path.
pub tcp_detected-early :
    (srtt rtt_min : ℕ) (s : RttWindow)
    → 0 < length s.copa_rtts
    → All (λ (t : ℕ). t < 2 ^ 62) s.copa_times
    → back s.copa_times < us srtt * 10
    → us srtt * 10 < 2 ^ 63
    → us rtt_min < 2 ^ 62
    → tcp_detected srtt rtt_min s ≡ true
unfolding tcp_detected
tcp_detected-early srtt rtt_min s any times early small least =
    let start = window_start-wraps srtt s early small in
    let none_recent = recent-none (window_start srtt s) s.copa_times s.copa_rtts (
      All-weaken (λ t. t < 2 ^ 62) (λ t. t ≤ window_start srtt s) s.copa_times (λ t l. omega arith)
        times) in
    rw (not_zero (length s.copa_rtts) any, none_recent)
      (lt→ltb (threshold rtt_min 0) (2 ^ 64 - 1) (threshold-empty rtt_min least))

-- A recent round trip is longer than the threshold that the longest `q` gives.
abbrev pub IsOver : ℕ → ℕ → ℕ → Type 0
IsOver rtt_min q r = us rtt_min + (q - us rtt_min) / 10 + 100 < r

abbrev pub IsFilled : ℕ → List ℕ → Type 0
IsFilled rtt_min rs = All (λ (r : ℕ). All (λ (q : ℕ). IsOver rtt_min q r) rs) rs

threshold_lem :
    (rtt_min q : ℕ)
    → us rtt_min ≤ q
    → q < 2 ^ 62
    → threshold rtt_min q ≡ us rtt_min + (q - us rtt_min) / 10 + 100
unfolding threshold
threshold_lem rtt_min q l h = omega arith

-- What is over the threshold of each is over that of a value among them.
Filled-at :
    (rtt_min k : ℕ) (xs : List ℕ)
    → ((P : ℕ → Type 0) → P 0 → All P xs → P k)
    → IsFilled rtt_min xs
    → All (λ (r : ℕ). IsOver rtt_min k r) xs
Filled-at rtt_min k [] at h = tt
Filled-at rtt_min k (x ∷ xs) at h =
    All-weaken (λ r. All (λ q. IsOver rtt_min q r) (x ∷ xs)) (λ r. IsOver rtt_min k r) (x ∷ xs)
      (λ r a. at (λ q. IsOver rtt_min q r) (omega (arith, a.0)) a) h

module _ (rtt_min since : ℕ) (ts rs : List ℕ) (bounded : All (λ (r : ℕ). r < 2 ^ 62) rs)
    (least : All (λ (r : ℕ). us rtt_min ≤ r) rs) (even : length rs ≡ length ts)
    (last : since < back ts) (bounded_min : us rtt_min < 2 ^ 62) where
  abbrev largest : ℕ
  largest = (rtt_range since ts rs (2 ^ 64 - 1) 0).1

  largest-bounded : largest < 2 ^ 62
  largest-bounded =
      rtt_range-at (λ r. r < 2 ^ 62) since ts rs (2 ^ 64 - 1) 0 (omega arith)
        (recent-All (λ r. r < 2 ^ 62) since ts rs bounded)

  at_largest : threshold rtt_min largest ≡ us rtt_min + (largest - us rtt_min) / 10 + 100
  at_largest =
      threshold_lem rtt_min largest
        (rtt_range-least (us rtt_min) since ts rs (2 ^ 64 - 1) 0 even last least) largest-bounded

  over-Filled :
      threshold rtt_min largest < (rtt_range since ts rs (2 ^ 64 - 1) 0).0
      → IsFilled rtt_min (recent since ts rs)
  over-Filled h =
      let above = (rtt_range-above since ts rs (2 ^ 64 - 1) 0).1 in
      All-weaken (λ r. threshold rtt_min largest < r)
        (λ r. All (λ q. IsOver rtt_min q r) (recent since ts rs)) (recent since ts rs)
        (λ r l.
          All-weaken (λ q. q ≤ largest) (λ q. IsOver rtt_min q r) (recent since ts rs)
            (λ q le. omega (arith, at_largest)) above)
        ((rtt_range-below (threshold rtt_min largest) since ts rs (2 ^ 64 - 1) 0).0 h).1

  Filled-over :
      IsFilled rtt_min (recent since ts rs)
      → threshold rtt_min largest < (rtt_range since ts rs (2 ^ 64 - 1) 0).0
  Filled-over h =
      let xs = recent since ts rs in
      (rtt_range-below (threshold rtt_min largest) since ts rs (2 ^ 64 - 1) 0).1 (
        omega (arith, at_largest, largest-bounded, bounded_min),
        All-weaken (λ r. IsOver rtt_min largest r) (λ r. threshold rtt_min largest < r) xs
            (λ r l. omega (arith, at_largest, l))
            (Filled-at rtt_min largest xs (λ P p a. rtt_range-at P since ts rs (2 ^ 64 - 1) 0 p a)
              h),
      )

window_start_lem :
    (srtt : ℕ) (s : RttWindow)
    → us srtt * 10 ≤ back s.copa_times
    → back s.copa_times < 2 ^ 62
    → window_start srtt s ≡ back s.copa_times - us srtt * 10
unfolding window_start
window_start_lem srtt s late small = omega arith

-- Where a sample is recorded, round trips and times are as many, the last time is not before ten
-- round trips of at least a microsecond, no round trip is below the smallest one, and all are below
-- 2^62: `tcp_detected` answers yes exactly if every sample of the last ten round trips is above the
-- smallest round trip, by more than 0.1 ms and a tenth of the excess of any of these samples.
pub tcp_detected-Filled :
    (srtt rtt_min : ℕ) (s : RttWindow)
    → 0 < length s.copa_rtts
    → length s.copa_rtts ≡ length s.copa_times
    → 0 < us srtt
    → us srtt * 10 ≤ back s.copa_times
    → back s.copa_times < 2 ^ 62
    → All (λ (r : ℕ). r < 2 ^ 62) s.copa_rtts
    → All (λ (r : ℕ). us rtt_min ≤ r) s.copa_rtts
    → us rtt_min < 2 ^ 62
    → (tcp_detected srtt rtt_min s ≡ true)
      ↔ IsFilled rtt_min (recent (back s.copa_times - us srtt * 10) s.copa_times s.copa_rtts)
unfolding tcp_detected
tcp_detected-Filled srtt rtt_min s any even moving late small bounded least minimum =
    let ts = s.copa_times in
    let rs = s.copa_rtts in
    let since = back ts - us srtt * 10 in
    let last : since < back ts = omega arith in
    rw (not_zero (length rs) any, window_start_lem srtt s late small)
      (
        λ h. over-Filled rtt_min since ts rs bounded least even last minimum (ltb→lt _ _ h),
        λ f. lt→ltb _ _ (Filled-over rtt_min since ts rs bounded least even last minimum f),
      )
