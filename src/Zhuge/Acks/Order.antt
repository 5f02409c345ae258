-- ===== src/Zhuge/Acks/Order.antt =====
-- The times at which `OnRecv_snddev` of network-queue-zhuge.cc forwards ACKs.
use zhuge.Prelude.{
  ℕ, ◌≡◌, refl, sym, ◌⊎◌, inl, inr, Bool, true, false, Option, none, some, arith, Bool-cases,
  if◌then◌else◌,
}
use mathlib.Core.Path.{subst}
use zhuge.Prelude.Int.{ℤ, pos, ◌+ℤ◌, ◌-ℤ◌, ◌≤ℤ◌, ltb_ℤ, min_ℤ, int_laws, eq_of_parts, parts_of_eq}
use zhuge.Delay.{DeltaDelay, Env, sample_delta_delay, max_delay}
use zhuge.Delay.Sample.{Samples, sample_delta_delay-Samples}
use zhuge.Delay.Sample
use zhuge.Zhuge.{State, max_actual_delay}
use zhuge.Zhuge.Acks.{add_sample, uncapped, capped, departure, first_ack, next_ack, forward_ack}

-- After the first ACK the last one left at most 10 ms after it came.
pub record IsValid (s : State) : Type 0 where
  pub delta : Sample.IsValid s.delta_ack_delay
  pub after : (s.is_first_ack ≡ true) ⊎ (s.last_ack_arrv ≤ℤ s.last_ack_sent)
  pub within : (s.is_first_ack ≡ true) ⊎ (s.last_ack_sent ≤ℤ s.last_ack_arrv +ℤ max_actual_delay)

-- What forwarding an ACK at `now` promises: it succeeds; the time of sending is recorded, is no
-- earlier than `floor`, and is used if the option is on; the ACK leaves between its arrival and
-- 10 ms later.
abbrev pub Forwards : ℤ → ℕ → Option (State × ℤ) → Type 0
Forwards floor now none = ⊥
Forwards floor now (some (s, t)) =
    (pos now ≤ℤ t)
    × (t ≤ℤ pos now +ℤ max_actual_delay)
    × (t ≡ (if s.wirtc_enable then s.last_ack_sent else pos now))
    × (floor ≤ℤ s.last_ack_sent)
    × (s.last_ack_arrv ≡ pos now)
    × (s.is_first_ack ≡ false)
    × IsValid s

abbrev Uncapped : State → ℕ → Option (ℤ × DeltaDelay) → Type 0
Uncapped s now none = ⊥
Uncapped s now (some (sent, delta)) =
    (pos now ≤ℤ sent) × (s.last_ack_sent ≤ℤ sent) × Sample.IsValid delta

not-lt : (a b : ℤ) → ltb_ℤ a b ≡ false → b ≤ℤ a
not-lt a b h = ground arith

is-lt : (a b : ℤ) → ltb_ℤ a b ≡ true → a ≤ℤ b
is-lt a b h = ground arith

burst_late :
    (sent now d : ℤ)
    → sent ≤ℤ now
    → (pos 0 ≤ℤ d) ⊎ (d ≡ pos 0)
    → (now ≤ℤ now +ℤ d) × (sent ≤ℤ now +ℤ d)
burst_late sent now d h (inl k) = (omega int_laws, omega int_laws)
burst_late sent now d h (inr e) = let e' = parts_of_eq _ _ e in (omega int_laws, omega int_laws)

queued_late :
    (sent arrv now d : ℤ)
    → now ≤ℤ sent
    → arrv ≤ℤ sent
    → arrv ≤ℤ now
    → let base = now +ℤ (sent -ℤ arrv) in
      (pos 0 ≤ℤ d) ⊎ (d ≡ sent -ℤ base) → (now ≤ℤ base +ℤ d) × (sent ≤ℤ base +ℤ d)
queued_late sent arrv now d h order clock (inl k) = (omega int_laws, omega int_laws)
queued_late sent arrv now d h order clock (inr e) =
    let e' = parts_of_eq _ _ e in (omega int_laws, omega int_laws)

queued_least : (sent arrv now : ℤ) → arrv ≤ℤ now → sent -ℤ (now +ℤ (sent -ℤ arrv)) ≤ℤ max_delay
queued_least sent arrv now clock = omega int_laws

-- Capping at 10 ms keeps the order, since the last ACK was capped too.
capped_range :
    (arrv last now sent : ℤ)
    → arrv ≤ℤ now
    → last ≤ℤ arrv +ℤ max_actual_delay
    → now ≤ℤ sent
    → last ≤ℤ sent
    → let t = min_ℤ (now +ℤ max_actual_delay) sent in
      (now ≤ℤ t) × (t ≤ℤ now +ℤ max_actual_delay) × (last ≤ℤ t)
capped_range arrv last now sent clock within after order =
    elim (Bool-cases (ltb_ℤ sent (now +ℤ max_actual_delay))) [
      | inl early ↦ let h = is-lt sent (now +ℤ max_actual_delay) early in rw early (after, h, order)
      | inr late ↦
          let h = not-lt sent (now +ℤ max_actual_delay) late in
          rw late (omega int_laws, omega int_laws, omega int_laws)
    ]

departure_eq :
    (s : State) (now : ℕ)
    → pos now ≤ℤ s.last_ack_sent
    → departure s now ≡ (if s.wirtc_enable then s.last_ack_sent else pos now)
unfolding departure
departure_eq s now h = ground (arith, eq_of_parts (pos now) s.last_ack_sent)

-- Whichever way the option is set, the time lies between two bounds that hold of both choices.
departure_bounds :
    (b : Bool) (sent now t : ℤ)
    → t ≡ (if b then sent else now)
    → now ≤ℤ sent
    → sent ≤ℤ now +ℤ max_actual_delay
    → (now ≤ℤ t) × (t ≤ℤ now +ℤ max_actual_delay)
departure_bounds true sent now t e low high = rw e (low, high)
departure_bounds false sent now t e low high = rw e (omega int_laws, omega int_laws)

module _ (env : Env) where
  add_sample-Uncapped :
      (s : State) (now : ℕ) (base least : ℤ)
      → Sample.IsValid s.delta_ack_delay
      → least ≤ℤ max_delay
      → ((d : ℤ)
          → (pos 0 ≤ℤ d) ⊎ (d ≡ least)
          → (pos now ≤ℤ base +ℤ d) × (s.last_ack_sent ≤ℤ base +ℤ d))
      → Uncapped s now (add_sample env s now base least)
  unfolding add_sample
  add_sample-Uncapped s now base least v cap late =
      go (sample_delta_delay env s.delta_ack_delay now least) refl
        (sample_delta_delay-Samples env s.delta_ack_delay now least v cap)
    where
      go :
          (r : Option (ℤ × DeltaDelay))
          → sample_delta_delay env s.delta_ack_delay now least ≡ r
          → Samples least r
          → Uncapped s now (add_sample env s now base least)
      go none e h = absurd h
      go (some (d, delta)) e h = rw (e, add_sample) (((late d h.1).0, (late d h.1).1, h.2))

  uncapped-Uncapped :
      (s : State) (now : ℕ)
      → Sample.IsValid s.delta_ack_delay
      → s.last_ack_arrv ≤ℤ s.last_ack_sent
      → s.last_ack_arrv ≤ℤ pos now
      → Uncapped s now (uncapped env s now)
  unfolding uncapped
  uncapped-Uncapped s now v order clock = elim (Bool-cases (ltb_ℤ s.last_ack_sent (pos now))) [
    | inl burst ↦ rw burst (
        add_sample-Uncapped s now (pos now) (pos 0) v (omega arith)
          (λ d. burst_late s.last_ack_sent (pos now) d (is-lt s.last_ack_sent (pos now) burst)))
    | inr queued ↦ rw queued (
        add_sample-Uncapped s now (pos now +ℤ (s.last_ack_sent -ℤ s.last_ack_arrv))
          (s.last_ack_sent -ℤ (pos now +ℤ (s.last_ack_sent -ℤ s.last_ack_arrv))) v
          (queued_least s.last_ack_sent s.last_ack_arrv (pos now) clock)
          (λ d.
            queued_late s.last_ack_sent s.last_ack_arrv (pos now) d
              (not-lt s.last_ack_sent (pos now) queued) order clock))
  ]

  next_ack-Forwards :
      (s : State) (now : ℕ)
      → Sample.IsValid s.delta_ack_delay
      → s.last_ack_arrv ≤ℤ s.last_ack_sent
      → s.last_ack_sent ≤ℤ s.last_ack_arrv +ℤ max_actual_delay
      → s.last_ack_arrv ≤ℤ pos now
      → s.is_first_ack ≡ false
      → Forwards s.last_ack_sent now (next_ack env s now)
  unfolding next_ack capped
  next_ack-Forwards s now v order within clock not_first =
      go (uncapped env s now) refl (uncapped-Uncapped s now v order clock)
    where
      go :
          (r : Option (ℤ × DeltaDelay))
          → uncapped env s now ≡ r
          → Uncapped s now r
          → Forwards s.last_ack_sent now (next_ack env s now)
      go none e h = absurd h
      go (some (sent, delta)) e h =
          let s' = capped s now (sent, delta) in
          let range =
            capped_range s.last_ack_arrv s.last_ack_sent (pos now) sent clock within h.0 h.1 in
          let eq = departure_eq s' now range.0 in
          let bounds =
            departure_bounds s.wirtc_enable s'.last_ack_sent (pos now) _ eq range.0 range.1 in
          rw (e, next_ack)
            (
              bounds.0,
              bounds.1,
              eq,
              range.2,
              refl,
              not_first,
              record { delta = h.2; after = inr range.0; within = inr range.1 },
            )

  forward_ack-next :
      (s : State) (now : ℕ)
      → IsValid s
      → s.is_first_ack ≡ false
      → s.last_ack_arrv ≤ℤ pos now
      → Forwards s.last_ack_sent now (forward_ack env s now)
  unfolding forward_ack
  forward_ack-next s now v not_first clock =
      subst
        (λ b.
          Forwards s.last_ack_sent now
            (if b then some (first_ack s now, pos now) else next_ack env s now))
        (sym not_first)
        (next_ack-Forwards s now v.delta (known v.after) (known v.within) clock not_first)
    where
      known : {P : Type 0} → (s.is_first_ack ≡ true) ⊎ P → P
      known (inl first) = absurd (cc first)
      known (inr p) = p

  forward_ack-first :
      (s : State) (now : ℕ)
      → IsValid s
      → s.is_first_ack ≡ true
      → Forwards (pos now) now (forward_ack env s now)
  unfolding forward_ack first_ack
  forward_ack-first s now v first =
      subst
        (λ b.
          Forwards (pos now) now
            (if b then some (first_ack s now, pos now) else next_ack env s now))
        (sym first)
        (
          omega arith,
          omega int_laws,
          same s.wirtc_enable,
          omega arith,
          refl,
          refl,
          record { delta = v.delta; after = inr (omega arith); within = inr (omega int_laws) },
        )
    where
      same : (b : Bool) → pos now ≡ (if b then pos now else pos now)
      same true = refl
      same false = refl

  -- From a state whose recorded changes and tokens lie between 0 and 10 ms, and whose last ACK, if
  -- there was one, is recorded as leaving 0 to 10 ms after it came: forwarding an ACK that does not
  -- come before the last one succeeds and keeps the state so. The time that is recorded for it is no
  -- earlier than that of the last one and 0 to 10 ms after its arrival; it leaves at that time if the
  -- option is on, and at its arrival if it is off.
  pub forward_ack-Forwards :
      (s : State) (now : ℕ)
      → IsValid s
      → (s.is_first_ack ≡ true) ⊎ (s.last_ack_arrv ≤ℤ pos now)
      → Forwards (if s.is_first_ack then pos now else s.last_ack_sent) now (forward_ack env s now)
  forward_ack-Forwards s now v clock = elim (Bool-cases s.is_first_ack) [
    | inl first ↦
        subst (λ b. Forwards (if b then pos now else s.last_ack_sent) now (forward_ack env s now))
          (sym first) (forward_ack-first s now v first)
    | inr later ↦
        subst (λ b. Forwards (if b then pos now else s.last_ack_sent) now (forward_ack env s now))
          (sym later) (forward_ack-next s now v later (known clock later))
  ]
    where
      known :
          (s.is_first_ack ≡ true) ⊎ (s.last_ack_arrv ≤ℤ pos now)
          → s.is_first_ack ≡ false
          → s.last_ack_arrv ≤ℤ pos now
      known (inl first) later = absurd (cc)
      known (inr h) later = h

  pub config-forward_ack :
      (s : State) (now : ℕ) {s' : State} {t : ℤ}
      → forward_ack env s now ≡ some (s', t)
      → s'.config ≡ s.config
  unfolding forward_ack first_ack next_ack capped
  config-forward_ack s now e = ground arith
