-- ===== src/Delay/Sample.antt =====
-- `SampleDeltaDelay` and `AddDeltaDelay` of delta-delay.cc: their ranges, and the final assertion.
use zhuge.Prelude.{
  ℕ, ◌+◌, ◌-◌, ◌<◌, ◌≡◌, refl, ◌⊎◌, inl, inr, Option, some, none, List, [], ◌∷◌, arith, All,
  All-append, All-get_or, Bool-cases, true, false, length, get_or,
}
use zhuge.Prelude.Int.{ℤ, pos, negsuc, ◌-ℤ◌, ◌≤ℤ◌, ltb_ℤ, -ℤ_parts, max_ℤ, min_ℤ}
use zhuge.Delay.{
  Entry, DeltaDelay, Env, max_delay, no_entry, init, clear_aged, clear_aged_deltas,
  clear_aged_tokens, clear_aged_pop_tokens, clear_aged_lastwnd_pkt, take_tokens, checked, damped,
  draw, sample_delta_delay, add_delta_delay, reset,
}
use zhuge.Delay.Clear.{IsFresh, Since, pop_aged-All, pop_aged-IsFresh}
use zhuge.Delay.Tokens.{InRange, take_tokens-range}

-- Every recorded change and every token is between 0 and 10 ms.
pub record IsValid (s : DeltaDelay) : Type 0 where
  pub deltas : All InRange s.history_deltas
  pub tokens : All InRange s.history_tokens

-- The assertion held, and the result is between 0 (or `least`, if that is lower) and 10 ms.
abbrev pub Samples : ℤ → Option (ℤ × DeltaDelay) → Type 0
Samples least none = ⊥
Samples least (some (res, s)) = (res ≤ℤ max_delay) × ((pos 0 ≤ℤ res) ⊎ (res ≡ least)) × IsValid s

pub clear_aged-IsValid : (now : ℕ) (s : DeltaDelay) → IsValid s → IsValid (clear_aged now s)
unfolding clear_aged clear_aged_deltas clear_aged_tokens clear_aged_pop_tokens
    clear_aged_lastwnd_pkt
clear_aged-IsValid now s v = record {
  deltas = pop_aged-All InRange s.history_len now s.history_deltas _ v.deltas;
  tokens = pop_aged-All InRange s.history_len now s.history_tokens _ v.tokens;
}

module _ (env : Env) where
  damped_range :
      (s : DeltaDelay) (res : ℤ)
      → pos 0 ≤ℤ res
      → (pos 0 ≤ℤ damped env s res) × (damped env s res ≤ℤ res)
  unfolding damped
  damped_range s res h =
      let n = length s.pop_tokens + length s.history_tokens + length s.history_deltas in
      ground (
        arith,
        env.scale_pos n (length s.lastwnd_pkt) res,
        env.scale_le n (length s.lastwnd_pkt) res,
      )

  checked-Samples :
      (least res : ℤ) (s : DeltaDelay)
      → pos 0 ≤ℤ res
      → res ≤ℤ max_delay
      → IsValid s
      → Samples least (checked res s)
  unfolding checked
  checked-Samples least res s low high v = elim (Bool-cases (ltb_ℤ max_delay res)) [
    | inl over ↦ absurd (ground arith)
    | inr fits ↦ rw fits (high, inl low, v)
  ]

  wanted_range :
      (sampled least : ℤ)
      → (pos 0 ≤ℤ sampled) × (sampled ≤ℤ max_delay)
      → least ≤ℤ max_delay
      → (pos 0 ≤ℤ max_ℤ sampled least) × (max_ℤ sampled least ≤ℤ max_delay)
  wanted_range sampled least h k = elim (Bool-cases (ltb_ℤ sampled least)) [
    | inl raise ↦ rw raise (ground arith)
    | inr keep ↦ rw keep h
  ]

  draw-Samples :
      (s : DeltaDelay) (least : ℤ)
      → IsValid s
      → 0 < length s.history_deltas
      → least ≤ℤ max_delay
      → Samples least (draw env s least)
  unfolding draw
  draw-Samples s least v some_left cap =
      let index = env.get_integer (length s.history_deltas - 1) in
      let e = get_or s.history_deltas index no_entry in
      let in_range =
        All-get_or InRange s.history_deltas index no_entry v.deltas
          (omega (arith, env.get_integer_le (length s.history_deltas - 1))) in
      let wanted = max_ℤ e.delay least in
      let w = wanted_range e.delay least in_range cap in
      let paid = take_tokens s.history_tokens wanted s.pop_tokens in
      let r = take_tokens-range s.history_tokens wanted s.pop_tokens v.tokens w.0 in
      let s' = record s { history_tokens = paid.0; pop_tokens = paid.2 } in
      let d = damped_range s' paid.1 r.0 in
      checked-Samples least (damped env s' paid.1) s' d.0 (omega (arith, d.1, r.1, w.1))
        (record { deltas = v.deltas; tokens = r.2 })

  -- From a state whose recorded changes and tokens lie between 0 and 10 ms, and for a lower bound
  -- of at most 10 ms, the assertion at the end of `SampleDeltaDelay` holds: the sample is at most
  -- 10 ms, is not negative unless it is the lower bound itself, and the state keeps its ranges.
  pub sample_delta_delay-Samples :
      (s : DeltaDelay) (now : ℕ) (least : ℤ)
      → IsValid s
      → least ≤ℤ max_delay
      → Samples least (sample_delta_delay env s now least)
  unfolding sample_delta_delay
  sample_delta_delay-Samples s now least v cap = go (clear_aged now s).history_deltas refl
    where
      valid : IsValid (clear_aged now s)
      valid = clear_aged-IsValid now s v

      go :
          (ds : List Entry)
          → (clear_aged now s).history_deltas ≡ ds
          → Samples least (sample_delta_delay env s now least)
      go [] e = rw (e, sample_delta_delay) (cap, inr refl, valid)
      go (d ∷ ds) e =
          rw (e, sample_delta_delay)
            (draw-Samples (clear_aged now s) least valid (rw e (omega arith)) cap)

-- `AddDeltaDelay` keeps the ranges, for a change that is not strictly between -1 µs and 0.
pub add_delta_delay-IsValid :
    (s : DeltaDelay) (now : ℕ) (delta : ℤ)
    → IsValid s
    → (pos 0 ≤ℤ delta) ⊎ (delta ≤ℤ negsuc 999)
    → IsValid (add_delta_delay s now delta)
unfolding add_delta_delay
add_delta_delay-IsValid s now delta v whole =
    let c = clear_aged-IsValid now s v in
    elim (Bool-cases (ltb_ℤ (negsuc 999) delta)) [
      | inl up ↦ rw up (record {
        deltas = All-append InRange _ _ c.deltas (in_range_up up, tt);
        tokens = c.tokens;
      })
      | inr down ↦ rw down (record {
        deltas = c.deltas;
        tokens = All-append InRange _ _ c.tokens (in_range_down down, tt);
      })
    ]
  where
    in_range_up :
        ltb_ℤ (negsuc 999) delta ≡ true
        → (pos 0 ≤ℤ min_ℤ max_delay delta) × (min_ℤ max_delay delta ≤ℤ max_delay)
    in_range_up up = ground arith

    in_range_down :
        ltb_ℤ (negsuc 999) delta ≡ false
        → (pos 0 ≤ℤ min_ℤ max_delay (pos 0 -ℤ delta))
          × (min_ℤ max_delay (pos 0 -ℤ delta) ≤ℤ max_delay)
    in_range_down down = ground (arith, -ℤ_parts (pos 0) delta)

pub reset-IsValid : (s : DeltaDelay) → IsValid (reset s)
unfolding reset
reset-IsValid s = record { deltas = tt; tokens = tt }

pub init-IsValid : IsValid init
unfolding init
init-IsValid = record { deltas = tt; tokens = tt }

-- A pass over all four deques leaves, of the changes and of the tokens, only those of the last
-- 40 ms (the window of the state), if their stamps are in order.
pub clear_aged-IsFresh :
    (now : ℕ) (s : DeltaDelay)
    → Since 0 s.history_deltas
    → Since 0 s.history_tokens
    → All (IsFresh s.history_len now) (clear_aged now s).history_deltas
      × All (IsFresh s.history_len now) (clear_aged now s).history_tokens
unfolding clear_aged clear_aged_deltas clear_aged_tokens clear_aged_pop_tokens
    clear_aged_lastwnd_pkt
clear_aged-IsFresh now s hd ht = (
  pop_aged-IsFresh s.history_len now 0 s.history_deltas _ hd,
  pop_aged-IsFresh s.history_len now 0 s.history_tokens _ ht,
)
