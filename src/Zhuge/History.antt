-- ===== src/Zhuge/History.antt =====
-- The access point over a whole history: data packets, ACKs and clock ticks in any order, over a
-- point-to-point link.
pub mod Order
use mathlib.Core.Path.{subst}
use zhuge.Prelude.{
  ℕ, ◌+◌, ◌≤◌, ◌≡◌, ◌⊎◌, inl, inr, refl, sym, ◌∙◌, ap, Bool, true, false, ◌&&◌, Option, none, some,
  List, [], ◌∷◌, ◌++◌, ◌==◌, if◌then◌else◌, ◌>>=◌, arith, Bool-cases, some_inj, >>=-eq-some,
}
use zhuge.Prelude.Int.{ℤ, pos, ◌≤ℤ◌, ◌+ℤ◌, int_laws}
use zhuge.Delay.{Env}
use zhuge.Delay.Sample
use zhuge.Zhuge.{Packet, Queue, State, max_actual_delay, tcp}
use zhuge.Zhuge.QueueDelay.{Rounding}
use zhuge.Zhuge.Rate.{update_tx_rate}
use zhuge.Zhuge.Rate.Update.{update_tx_rate-Kept}
use zhuge.Zhuge.Acks.{forward_ack, on_recv_snddev}
use zhuge.Zhuge.Acks.Order.{IsValid, Forwards, forward_ack-Forwards, config-forward_ack}
use zhuge.Zhuge.Receive.{Outcome, on_recv_rcvdev}
use zhuge.Zhuge.Frame.{KeepsAcks, Kept}
use zhuge.Zhuge.Receive.Laws.{KeptBy, on_recv_rcvdev-KeptBy}

-- An event with its time in nanoseconds. That of an ACK has what its call of `SampleDeltaDelay` draws.
pub data Event : Type 0 where
  towards_receiver : ℕ → ℕ → Queue → Packet → Event
  towards_sender : Env → ℕ → Packet → Event
  tick : ℕ → Queue → Event

abbrev pub time : Event → ℕ
time (towards_receiver now qdisc_bytes q p) = now
time (towards_sender env now p) = now
time (tick now q) = now

-- No event is earlier than the one before it, or than `n`.
abbrev pub From : ℕ → List Event → Type 0
From n [] = Unit {0}
From n (e ∷ es) = (n ≤ time e) × From (time e) es

abbrev sent_times : Option ℤ → List ℤ
sent_times none = []
sent_times (some t) = t ∷ []

module _ (r : Rounding) where
  -- One event: the new state and the times for which ACKs are scheduled.
  pub step : State → Event → Option (State × List ℤ)
  step s (towards_receiver now qdisc_bytes q p) =
      on_recv_rcvdev r s now qdisc_bytes q p >>= (λ o. some (o.state, []))
  step s (towards_sender env now p) =
      on_recv_snddev env s now p >>= (λ o. some (o.0, sent_times o.1))
  step s (tick now q) = update_tx_rate s q >>= (λ s'. some (s', []))

  pub run : State → List Event → Option (List ℤ)
  run s [] = some []
  run s (e ∷ es) = do (s', ts) ← step s e; rest ← run s' es; some (ts ++ rest)
