-- ===== src/Zhuge/Rate/Laws.antt =====
-- The bounds of the dequeue rate and the transmission delay of `UpdateTxRate`.
use zhuge.Prelude.{
  ℕ, zero, suc, ◌+◌, ◌-◌, ◌*◌, ◌/◌, ◌^◌, ◌≤◌, ◌<◌, ◌≡◌, refl, inl, inr, List, [], ◌∷◌, arith, ltb,
  length, drop, length-drop, Bool-cases,
}
use zhuge.Prelude.Int.{ℤ, pos, negsuc}
use zhuge.Prelude.Words.{u32, add_w}
use zhuge.Zhuge.{Queue, State, min_tx_rate_bps}
use zhuge.Zhuge.Rate.{trim, Sums, no_sums, count_slot, sums, tx_delay, estimate, record_slot}

-- The loop drops from the front exactly what does not fit.
pub trim-eq-drop : (window : ℕ) (l : List ℤ) → trim window l ≡ drop (length l - window) l
unfolding trim
trim-eq-drop window [] = nothing (0 - window)
  where
    nothing : (n : ℕ) → ◌≡◌ {A = List ℤ} [] (drop n [])
    nothing zero = refl
    nothing (suc n) = refl
trim-eq-drop window (x ∷ xs) = elim (Bool-cases (ltb window (length (x ∷ xs)))) [
  | inl long ↦
      rw (long, trim-eq-drop window xs)
        (step (suc (length xs) - window) (length xs - window) (ground arith))
  | inr fits ↦ rw fits (keep (suc (length xs) - window) (ground arith))
]
  where
    step : (m n : ℕ) → m ≡ n + 1 → drop n xs ≡ drop m (x ∷ xs)
    step zero n e = absurd (omega arith)
    step (suc m) n e = let e' : n ≡ m = omega arith in rw e'

    keep : (m : ℕ) → m ≡ 0 → x ∷ xs ≡ drop m (x ∷ xs)
    keep zero e = refl
    keep (suc m) e = absurd (omega arith)

pub length-trim-le : (window : ℕ) (l : List ℤ) → length (trim window l) ≤ window
length-trim-le window l =
    rw (trim-eq-drop window l, length-drop (length l - window) l) (omega arith)

-- The passes over the window count each slot once, as busy, idle or sending.
pub sums_bound :
    (t : Sums) (l : List ℤ)
    → t.idle + t.busy + length l < 2 ^ 32
    → (t.idle ≤ (sums t l).idle)
      × (t.busy ≤ (sums t l).busy)
      × ((sums t l).idle + (sums t l).busy ≤ t.idle + t.busy + length l)
unfolding sums count_slot
sums_bound t [] h = omega arith
sums_bound t (pos zero ∷ xs) h =
    omega (arith, sums_bound (record t { busy = add_w 32 t.busy 1 }) xs (omega arith))
sums_bound t (pos (suc n) ∷ xs) h =
    omega (arith, sums_bound (record t { bytes = add_w 32 t.bytes (suc n) }) xs (omega arith))
sums_bound t (negsuc n ∷ xs) h =
    omega (arith, sums_bound (record t { idle = add_w 32 t.idle 1 }) xs (omega arith))

div-le : (a b : ℕ) → a / b ≤ a
div-le a b = grind arith

le-div : (m n d : ℕ) → 0 < d → m * d ≤ n → m ≤ n / d
le-div m n d p h = grind arith

-- The transmission delay is never above the window, and is at least a slot of one millisecond.
pub tx_delay_bounds :
    (window size : ℕ) (t : Sums)
    → size ≤ window
    → window < 2 ^ 16
    → t.idle < size
    → t.idle + t.busy ≤ size
    → (1000 ≤ tx_delay window size t) × (tx_delay window size t ≤ window * 1000)
unfolding tx_delay
tx_delay_bounds window size t sw w i tot = elim (Bool-cases (ltb t.busy (size - t.idle))) [
  | inl sending ↦ rw sending (quotient (size - t.idle) t.busy (ground arith) (omega arith))
  | inr stuck ↦ rw stuck (omega arith)
]
  where
    quotient :
        (n b : ℕ)
        → b < n
        → n ≤ window
        → (1000 ≤ u32 (1000 * n / (n - b))) × (u32 (1000 * n / (n - b)) ≤ window * 1000)
    quotient n b lt le =
        let low : 1000 ≤ 1000 * n / (n - b) =
          le-div 1000 (1000 * n) (n - b) (omega arith) (omega arith) in
        omega (arith, div-le (1000 * n) (n - b), low)

-- What one run of `UpdateTxRate` relies on: a window of 16 bits.
pub record IsValid (s : State) : Type 0 where
  pub window : s.tx_bytes_list_window < 2 ^ 16
  pub slots : length s.tx_bytes_list ≤ s.tx_bytes_list_window
  pub rate : min_tx_rate_bps ≤ s.cur_tx_rate_bps
  pub delay : s.cur_tx_delay_us ≤ s.tx_bytes_list_window * 1000

pub record_slot-IsValid : (s : State) (q : Queue) → IsValid s → IsValid (record_slot s q)
unfolding record_slot
record_slot-IsValid s q v = record {
  window = v.window;
  slots = length-trim-le s.tx_bytes_list_window _;
  rate = v.rate;
  delay = v.delay;
}

pub estimate-delay :
    (s : State) (l : List ℤ)
    → length l ≤ s.tx_bytes_list_window
    → s.tx_bytes_list_window < 2 ^ 16
    → s.cur_tx_delay_us ≤ s.tx_bytes_list_window * 1000
    → (estimate s l).cur_tx_delay_us ≤ s.tx_bytes_list_window * 1000
unfolding estimate
estimate-delay s [] h w d = d
estimate-delay s (x ∷ xs) h w d =
    let t = sums no_sums (x ∷ xs) in
    elim (Bool-cases (ltb t.idle (length (x ∷ xs)))) [
      | inl some_sent ↦
          rw some_sent
            (tx_delay_bounds s.tx_bytes_list_window (length (x ∷ xs)) t h w (ground arith)
              (omega (arith, sums_bound no_sums (x ∷ xs) (omega arith)))).1
      | inr all_idle ↦ rw all_idle d
    ]

pub estimate-frame :
    (s : State) (l : List ℤ)
    → ((estimate s l).tx_bytes_list ≡ s.tx_bytes_list) × ((estimate s l).config ≡ s.config)
unfolding estimate
estimate-frame s [] = (refl, refl)
estimate-frame s (x ∷ xs) = ground arith
