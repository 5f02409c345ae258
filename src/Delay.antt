-- ===== src/Delay.antt =====
-- ns-3.34-diff/src/zhuge/model/delta-delay.h and delta-delay.cc: the distribution of delay changes
-- that the feedback path replays. Times are in nanoseconds; the simulator's clock is an argument.
pub mod Clear
pub mod Tokens
pub mod Sample
pub mod Middle
mod Tests
use zhuge.Prelude.{
  ℕ, ◌+◌, ◌-◌, ◌*◌, ◌≤◌, ◌<◌, Bool, true, false, Option, none, some, List, [], ◌∷◌, ◌++◌, ltb,
  if◌then◌else◌, length, get_or,
}
use zhuge.Prelude.Int.{ℤ, pos, negsuc, ◌+ℤ◌, ◌-ℤ◌, ◌≤ℤ◌, ltb_ℤ, max_ℤ, min_ℤ}

-- An entry of the deques: `std::pair<Time, Time>`.
pub record Entry : Type 0 where
  pub stamp : ℕ
  pub delay : ℤ

pub record DeltaDelay : Type 0 where
  pub history_deltas : List Entry
  pub history_tokens : List Entry
  pub lastwnd_pkt : List Entry
  pub pop_tokens : List Entry
  pub history_len : ℕ
  pub delay_token : ℤ

abbrev pub ms : ℕ
ms = 1000000

abbrev pub max_delay : ℤ
max_delay = pos (10 * ms)

pub init : DeltaDelay
init = record {
  history_deltas = [];
  history_tokens = [];
  lastwnd_pkt = [];
  pop_tokens = [];
  history_len = 40 * ms;
  delay_token = pos 0;
}

-- What one call of `SampleDeltaDelay` takes from ns-3 and from the machine: the next draw of the
-- uniform variable, an integer from 0 to a bound, inclusive, and the product of a time with a
-- quotient of two counts in `double`. The variable is a stream, so every call has its own `Env`.
pub record Env : Type 0 where
  pub get_integer : ℕ → ℕ
  pub get_integer_le : (n : ℕ) → get_integer n ≤ n
  pub scale : ℕ → ℕ → ℤ → ℤ
  pub scale_pos : (a b : ℕ) (t : ℤ) → a < b → pos 0 ≤ℤ t → pos 0 ≤ℤ scale a b t
  pub scale_le : (a b : ℕ) (t : ℤ) → a < b → pos 0 ≤ℤ t → scale a b t ≤ℤ t

-- The loop that the four `ClearAged` functions share: entries older than the window leave at the
-- front and are appended to a second deque. A stamp ahead of the clock is not old: `-` gives 0.
pub pop_aged : ℕ → ℕ → List Entry → List Entry → List Entry × List Entry
pop_aged window now [] out = ([], out)
pop_aged window now (e ∷ es) out =
    let rest = pop_aged window now es (out ++ e ∷ []) in
    if ltb window (now - e.stamp) then rest else (e ∷ es, out)

pub clear_aged_deltas : ℕ → DeltaDelay → DeltaDelay
clear_aged_deltas now s =
    let (kept, out) = pop_aged s.history_len now s.history_deltas s.lastwnd_pkt in
    record s { history_deltas = kept; lastwnd_pkt = out }

pub clear_aged_tokens : ℕ → DeltaDelay → DeltaDelay
clear_aged_tokens now s =
    let (kept, out) = pop_aged s.history_len now s.history_tokens s.lastwnd_pkt in
    record s { history_tokens = kept; lastwnd_pkt = out }

pub clear_aged_pop_tokens : ℕ → DeltaDelay → DeltaDelay
clear_aged_pop_tokens now s =
    let (kept, out) = pop_aged s.history_len now s.pop_tokens s.lastwnd_pkt in
    record s { pop_tokens = kept; lastwnd_pkt = out }

-- What leaves here is dropped.
pub clear_aged_lastwnd_pkt : ℕ → DeltaDelay → DeltaDelay
clear_aged_lastwnd_pkt now s = record s {
  lastwnd_pkt = (pop_aged (2 * s.history_len) now s.lastwnd_pkt []).0;
}

pub clear_aged : ℕ → DeltaDelay → DeltaDelay
clear_aged now s =
    clear_aged_lastwnd_pkt now
      (clear_aged_pop_tokens now (clear_aged_tokens now (clear_aged_deltas now s)))

-- The loop over the tokens: a delay is paid by tokens, oldest first. The result is the tokens
-- left, the delay left, and the deque of tokens used up.
pub take_tokens : List Entry → ℤ → List Entry → List Entry × ℤ × List Entry
take_tokens [] res popped = ([], res, popped)
take_tokens (t ∷ ts) res popped =
    let rest = take_tokens ts (res -ℤ t.delay) (popped ++ t ∷ []) in
    if ltb_ℤ t.delay res then rest else (record t { delay = t.delay -ℤ res } ∷ ts, pos 0, popped)

abbrev pub no_entry : Entry
no_entry = record { stamp = 0; delay = pos 0 }

-- `NS_ASSERT (resDeltaDelay <= MilliSeconds (10))`: a failed assertion is `none`.
pub checked : ℤ → DeltaDelay → Option (ℤ × DeltaDelay)
checked res s = if ltb_ℤ max_delay res then none else some (res, s)

module _ (env : Env) where
  -- The delay after the tokens, scaled down where more packets were seen in the last window.
  pub damped : DeltaDelay → ℤ → ℤ
  damped s res =
      let n = length s.pop_tokens + length s.history_tokens + length s.history_deltas in
      if ltb n (length s.lastwnd_pkt) then env.scale n (length s.lastwnd_pkt) res else res

  -- `SampleDeltaDelay` once the aged entries are gone.
  pub draw : DeltaDelay → ℤ → Option (ℤ × DeltaDelay)
  draw s least =
      let sampled =
        (get_or s.history_deltas (env.get_integer (length s.history_deltas - 1)) no_entry).delay in
      let wanted = if ltb_ℤ sampled least then least else sampled in
      let (tokens, res, popped) = take_tokens s.history_tokens wanted s.pop_tokens in
      let s' = record s { history_tokens = tokens; pop_tokens = popped } in
      checked (damped s' res) s'

  pub sample_delta_delay : DeltaDelay → ℕ → ℤ → Option (ℤ × DeltaDelay)
  sample_delta_delay s now least =
      let s' = clear_aged now s in
      elim s'.history_deltas [ [] ↦ some (least, s') | _ ∷ _ ↦ draw s' least ]

pub add_delta_delay : DeltaDelay → ℕ → ℤ → DeltaDelay
add_delta_delay s now delta =
    let s' = clear_aged now s in
    if ltb_ℤ (negsuc 999) delta
    then record s' {
      history_deltas =
          s'.history_deltas ++ record { stamp = now; delay = min_ℤ max_delay delta } ∷ [];
    }
    else record s' {
      history_tokens =
          s'.history_tokens
          ++ record { stamp = now; delay = min_ℤ max_delay (pos 0 -ℤ delta) } ∷ [];
    }

pub reset : DeltaDelay → DeltaDelay
reset s = record s { history_deltas = []; history_tokens = [] }

pub consume_token : DeltaDelay → ℤ → DeltaDelay
consume_token s consume = record s { delay_token = max_ℤ (s.delay_token -ℤ consume) (pos 0) }
