-- ===== src/Delay/Tests.antt =====
-- Runs of delta-delay.cc at concrete inputs, and instances of its theorems.
use zhuge.Prelude.{ℕ, ◌*◌, ◌≡◌, refl, inr, ◌⊎◌, List, [], ◌∷◌, ◌++◌, some, arith, All}
use zhuge.Prelude.Int.{pos, negsuc, ◌≤ℤ◌, ◌+ℤ◌, ◌-ℤ◌}
use zhuge.Delay.{
  Entry, DeltaDelay, ms, pop_aged, clear_aged, take_tokens, sample_delta_delay, add_delta_delay,
  clear_aged_deltas, clear_aged_tokens, clear_aged_pop_tokens, clear_aged_lastwnd_pkt, draw, damped,
  checked,
}
use zhuge.Delay.Middle.{middle, scale_down}
use zhuge.Delay.Clear.{IsAged, IsFresh, HeadIsFresh, pop_aged_splits}
use zhuge.Delay.Tokens.{InRange, total, take_tokens-account}
use zhuge.Delay.Sample.{
  IsValid, Samples, sample_delta_delay-Samples, add_delta_delay-IsValid, clear_aged-IsFresh,
}

abbrev entry : ℕ → ℕ → Entry
entry t d = record { stamp = t * ms; delay = pos (d * ms) }

abbrev busy : DeltaDelay
busy = record {
  history_deltas = entry 5 2 ∷ entry 60 8 ∷ entry 70 6 ∷ [];
  history_tokens = entry 61 3 ∷ entry 71 4 ∷ [];
  lastwnd_pkt = [];
  pop_tokens = [];
  history_len = 40 * ms;
  delay_token = pos 0;
}

busy-IsValid : IsValid busy
busy-IsValid = record { deltas = omega arith; tokens = omega arith }

-- At 80 ms the first change has aged; of the delay of 8 ms the tokens pay 7.
sample-busy :
    sample_delta_delay middle busy (80 * ms) (pos 0)
    ≡ some (
      pos ms,
      record busy {
        history_deltas = entry 60 8 ∷ entry 70 6 ∷ [];
        history_tokens = [];
        pop_tokens = entry 61 3 ∷ entry 71 4 ∷ [];
        lastwnd_pkt = entry 5 2 ∷ [];
      },
    )
unfolding sample_delta_delay draw damped checked take_tokens pop_aged clear_aged clear_aged_deltas
    clear_aged_tokens clear_aged_pop_tokens clear_aged_lastwnd_pkt ◌-ℤ◌ scale_down
sample-busy = refl

sample_delta_delay-Samples_example :
    Samples (pos 0) (sample_delta_delay middle busy (80 * ms) (pos 0))
sample_delta_delay-Samples_example =
    sample_delta_delay-Samples middle busy (80 * ms) (pos 0) busy-IsValid (omega arith)

add_delta_delay-IsValid_example : IsValid (add_delta_delay busy (80 * ms) (negsuc 4999999))
add_delta_delay-IsValid_example =
    add_delta_delay-IsValid busy (80 * ms) (negsuc 4999999) busy-IsValid (inr (omega arith))

clear_aged-IsFresh_run :
    All (IsFresh (40 * ms) (80 * ms)) (clear_aged (80 * ms) busy).history_deltas
    × All (IsFresh (40 * ms) (80 * ms)) (clear_aged (80 * ms) busy).history_tokens
clear_aged-IsFresh_run = clear_aged-IsFresh (80 * ms) busy (omega arith) (omega arith)

pop_aged_run :
    (removed : List Entry) × (removed ++ (pop_aged (40 * ms) (80 * ms) busy.history_deltas []).0
      ≡ busy.history_deltas)
    × ((pop_aged (40 * ms) (80 * ms) busy.history_deltas []).1 ≡ [] ++ removed)
    × All (IsAged (40 * ms) (80 * ms)) removed
    × HeadIsFresh (40 * ms) (80 * ms) (pop_aged (40 * ms) (80 * ms) busy.history_deltas []).0
pop_aged_run = pop_aged_splits (40 * ms) (80 * ms) busy.history_deltas []

take_tokens-account_example :
    let (ts, res, popped) = take_tokens busy.history_tokens (pos (5 * ms)) [] in
    (total busy.history_tokens +ℤ res ≡ total ts +ℤ pos (5 * ms))
    × ((res ≡ pos 0) ⊎ (ts ≡ []))
    × (pos 0 ≤ℤ res)
    × (res ≤ℤ pos (5 * ms))
    × All InRange ts
take_tokens-account_example =
    take_tokens-account busy.history_tokens (pos (5 * ms)) [] busy-IsValid.tokens (omega arith)
