-- ===== src/Zhuge/History/Order.antt =====
-- The times at which ACKs leave over a whole history of network-queue-zhuge.cc.
use mathlib.Core.Path.{subst}
use zhuge.Prelude.{
  ℕ, ◌≤◌, ◌≡◌, ◌⊎◌, inl, inr, refl, sym, ◌∙◌, ap, Bool, true, false, ◌&&◌, Option, none, some, List,
  [], ◌∷◌, ◌++◌, ◌==◌, if◌then◌else◌, ◌>>=◌, arith, Bool-cases,
}
use zhuge.Prelude.Int.{ℤ, pos, ◌≤ℤ◌}
use zhuge.Delay.{Env}
use zhuge.Delay.Sample.{init-IsValid}
use zhuge.Zhuge.{Config, Packet, State, start, tcp}
use zhuge.Zhuge.Frame.{KeepsAcks, Kept}
use zhuge.Zhuge.QueueDelay.{Rounding}
use zhuge.Zhuge.Rate.{update_tx_rate}
use zhuge.Zhuge.Rate.Update.{update_tx_rate-Kept}
use zhuge.Zhuge.Acks.{forward_ack, on_recv_snddev}
use zhuge.Zhuge.Acks.Order.{IsValid, Forwards, forward_ack-Forwards, config-forward_ack}
use zhuge.Zhuge.Receive.{Outcome, on_recv_rcvdev}
use zhuge.Zhuge.Receive.Laws.{KeptBy, on_recv_rcvdev-KeptBy}
use zhuge.Zhuge.History.{
  Event, towards_receiver, towards_sender, tick, time, From, sent_times, step, run,
}

-- The times do not fall, and none is below `floor`. A run that aborted has no times.
abbrev pub Ordered : ℤ → List ℤ → Type 0
Ordered floor [] = Unit {0}
Ordered floor (t ∷ ts) = (floor ≤ℤ t) × Ordered t ts

abbrev pub Runs : ℤ → Option (List ℤ) → Type 0
Runs floor none = ⊥
Runs floor (some ts) = Ordered floor ts

-- What holds between two events, the next of which is at `n` or later.
record Ready (floor : ℤ) (n : ℕ) (s : State) : Type 0 where
  valid : IsValid s
  p2p : s.mode ≡ 1
  on : s.wirtc_enable ≡ true
  clock : (s.is_first_ack ≡ true) ⊎ (s.last_ack_arrv ≤ℤ pos n)
  above : floor ≤ℤ (if s.is_first_ack then pos n else s.last_ack_sent)

-- One event, and then what holds.
abbrev Steps : ℤ → ℕ → Option (State × List ℤ) → Type 0
Steps floor n none = ⊥
Steps floor n (some (s, [])) = Ready floor n s
Steps floor n (some (s, t ∷ [])) = (floor ≤ℤ t) × Ready t n s
Steps floor n (some (s, t ∷ u ∷ ts)) = ⊥

Ready-later : (floor : ℤ) (n m : ℕ) (s : State) → n ≤ m → Ready floor n s → Ready floor m s
Ready-later floor n m s h r = record {
  valid = r.valid;
  p2p = r.p2p;
  on = r.on;
  clock = later r.clock;
  above = higher s.is_first_ack r.above;
}
  where
    later :
        (s.is_first_ack ≡ true) ⊎ (s.last_ack_arrv ≤ℤ pos n)
        → (s.is_first_ack ≡ true) ⊎ (s.last_ack_arrv ≤ℤ pos m)
    later (inl first) = inl first
    later (inr k) = inr (omega arith)

    higher :
        (b : Bool)
        → floor ≤ℤ (if b then pos n else s.last_ack_sent)
        → floor ≤ℤ (if b then pos m else s.last_ack_sent)
    higher true k = omega arith
    higher false k = k

KeepsAcks-Ready :
    (floor : ℤ) (n : ℕ) (s s' : State) → KeepsAcks s s' → Ready floor n s → Ready floor n s'
KeepsAcks-Ready floor n s s' k r = record {
  valid = record {
    delta = k.delta r.valid.delta;
    after = rw (k.first, k.arrv, k.sent) r.valid.after;
    within = rw (k.first, k.arrv, k.sent) r.valid.within;
  };
  p2p = rw k.config r.p2p;
  on = rw k.config r.on;
  clock = rw (k.first, k.arrv) r.clock;
  above = rw (k.first, k.sent) r.above;
}

abbrev noted : Option (State × ℤ) → Option (State × Option ℤ)
noted o = o >>= (λ o. some (o.0, some o.1))

abbrev dropped : State → Option (State × Option ℤ)
dropped s = some (s, none)

module _ (r : Rounding) where
  forward-Steps :
      (env : Env) (floor : ℤ) (now : ℕ) (s : State)
      → Ready floor now s
      → Steps floor now (forward_ack env s now >>= (λ o. some (o.0, o.1 ∷ [])))
  forward-Steps env floor now s ready =
      go (forward_ack env s now) refl (forward_ack-Forwards env s now ready.valid ready.clock)
    where
      go :
          (o : Option (State × ℤ))
          → forward_ack env s now ≡ o
          → Forwards (if s.is_first_ack then pos now else s.last_ack_sent) now o
          → Steps floor now (o >>= (λ o. some (o.0, o.1 ∷ [])))
      go none e f = f
      go (some (s', t)) e f =
          let same = config-forward_ack env s now e in
          let on' : s'.wirtc_enable ≡ true = rw same ready.on in
          let used : t ≡ s'.last_ack_sent =
            f.2 ∙ ap (λ b. if b then s'.last_ack_sent else pos now) on' in
          let above = ready.above in
          (
            rw used (omega (arith, f.3)),
            record {
              valid = f.6;
              p2p = rw same ready.p2p;
              on = on';
              clock = inr (rw f.4 (omega arith));
              above = rw (f.5, used) (omega arith);
            },
          )

  towards_sender-Steps :
      (env : Env) (floor : ℤ) (now : ℕ) (p : Packet) (s : State)
      → Ready floor now s
      → Steps floor now (step r s (towards_sender env now p))
  unfolding step on_recv_snddev
  towards_sender-Steps env floor now p s ready =
      elim (Bool-cases (p.dst == s.send_ip && p.protocol == tcp)) [
        | inl mine ↦
            subst
              (λ b. Steps floor now (
                (if b then forward_ack env s now >>= (λ o. some (o.0, some o.1)) else dropped s)
                >>= (λ o. some (o.0, sent_times o.1))))
              (sym mine) (regroup (forward_ack env s now) (forward-Steps env floor now s ready))
        | inr other ↦
            subst
              (λ b. Steps floor now (
                (if b then forward_ack env s now >>= (λ o. some (o.0, some o.1)) else dropped s)
                >>= (λ o. some (o.0, sent_times o.1))))
              (sym other) ready
      ]
    where
      regroup :
          (o : Option (State × ℤ))
          → Steps floor now (o >>= (λ o. some (o.0, o.1 ∷ [])))
          → Steps floor now (noted o >>= (λ o. some (o.0, sent_times o.1)))
      regroup none h = h
      regroup (some x) h = h

  step-Steps :
      (floor : ℤ) (e : Event) (s : State)
      → Ready floor (time e) s
      → Steps floor (time e) (step r s e)
  unfolding step
  step-Steps floor (towards_receiver now qdisc_bytes q p) s ready =
      go (on_recv_rcvdev r s now qdisc_bytes q p)
        (on_recv_rcvdev-KeptBy r s now qdisc_bytes q p ready.p2p)
    where
      go : (o : Option Outcome) → KeptBy s o → Steps floor now (o >>= (λ o. some (o.state, [])))
      go none k = k
      go (some o) k = KeepsAcks-Ready floor now s o.state k ready
  step-Steps floor (towards_sender env now p) s ready = towards_sender-Steps env floor now p s ready
  step-Steps floor (tick now q) s ready =
      go (update_tx_rate s q) (update_tx_rate-Kept s q ready.p2p)
    where
      go : (o : Option State) → Kept s o → Steps floor now (o >>= (λ s'. some (s', [])))
      go none k = k
      go (some s') k = KeepsAcks-Ready floor now s s' k ready

  -- The rest of the run is given as a function of the state after this event.
  extend :
      (floor : ℤ) (n : ℕ) (o : Option (State × List ℤ)) (rest : State → Option (List ℤ))
      → Steps floor n o
      → ((low : ℤ) (s : State) → Ready low n s → Runs low (rest s))
      → Runs floor (o >>= (λ p. rest p.0 >>= (λ ts. some (p.1 ++ ts))))
  extend floor n none rest k ih = k
  extend floor n (some (s, [])) rest k ih = plain (rest s) (ih floor s k)
    where
      plain : (o : Option (List ℤ)) → Runs floor o → Runs floor (o >>= (λ ts. some ts))
      plain none h = h
      plain (some ts) h = h
  extend floor n (some (s, t ∷ [])) rest k ih = prefix (rest s) (ih t s k.1)
    where
      prefix : (o : Option (List ℤ)) → Runs t o → Runs floor (o >>= (λ ts. some (t ∷ ts)))
      prefix none h = h
      prefix (some ts) h = (k.0, h)
  extend floor n (some (s, t ∷ u ∷ ts)) rest k ih = absurd k

  run-Runs :
      (floor : ℤ) (n : ℕ) (es : List Event) (s : State)
      → Ready floor n s
      → From n es
      → Runs floor (run r s es)
  unfolding run
  run-Runs floor n [] s ready f = tt
  run-Runs floor n (e ∷ es) s ready f =
      extend floor (time e) (step r s e) (λ s'. run r s' es)
        (step-Steps floor e s (Ready-later floor n (time e) s f.0 ready))
        (λ low s' k. run-Runs low (time e) es s' k f.1)

  -- From the start of the access point over a point-to-point link with the option on, any sequence
  -- of data packets, ACKs and ticks whose times do not fall, each ACK with a draw of its own, runs to
  -- its end without an abort or a failed assertion, and the times at which ACKs are sent do not fall
  -- either: holding ACKs back never reorders them.
  pub run-start-Runs :
      (c : Config) (interval garbage : ℕ) (es : List Event)
      → c.mode ≡ 1
      → c.wirtc_enable ≡ true
      → From 0 es
      → Runs (pos 0) (run r (start c interval garbage) es)
  unfolding start
  run-start-Runs c interval garbage es p2p on f =
      run-Runs (pos 0) 0 es (start c interval garbage)
        (record {
          valid = record { delta = init-IsValid; after = inl refl; within = inl refl };
          p2p = p2p;
          on = on;
          clock = inl refl;
          above = omega arith;
        })
        f
