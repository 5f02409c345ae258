-- ===== src/Sender/Metrics/Laws.antt =====
-- What the metrics of sender-based-controller.cc compute.
use mathlib.Core.Path.{subst}
use zhuge.Prelude.{
  ℕ, zero, suc, ◌+◌, ◌≤◌, ◌<◌, ◌≡◌, refl, sym, ◌∙◌, min, Bool, true, false, List, [], ◌∷◌, take,
  Option, none, some, arith, lt→ltb, ltb, leb, if◌then◌else◌, length, All, some_inj,
}
use zhuge.Prelude.Words.{add_w, sub_w}
use zhuge.Sender.{PacketRecord}
use zhuge.Sender.Metrics.{ntab, min_filter, span_loop, rx_us, prune}

-- The least value of a list with a first element.
pub least : (PacketRecord → ℕ) → PacketRecord → List PacketRecord → ℕ
least value p [] = value p
least value p (q ∷ qs) = min (value p) (least value q qs)

least_or : (PacketRecord → ℕ) → ℕ → List PacketRecord → ℕ
least_or value m [] = m
least_or value m (q ∷ qs) = min m (least value q qs)

least_or-step :
    (value : PacketRecord → ℕ) (m : ℕ) (p : PacketRecord) (qs : List PacketRecord)
    → least_or value m (p ∷ qs) ≡ least_or value (min m (value p)) qs
unfolding least_or least
least_or-step value m p [] = refl
least_or-step value m p (q ∷ qs) = omega arith

min_filter-step :
    (value : PacketRecord → ℕ) (iter m : ℕ) (p : PacketRecord) (ps : List PacketRecord)
    → 0 < iter
    → iter + 1 < ntab
    → min_filter value iter m (p ∷ ps) ≡ min_filter value (iter + 1) (min m (value p)) ps
unfolding min_filter
min_filter-step value iter m p ps h k = rw (not_le ntab (iter + 1) k, lt→ltb 0 iter h) refl
  where
    not_le : (a b : ℕ) → b < a → leb a b ≡ false
    not_le a b h = ground arith

min_filter-least_or :
    (value : PacketRecord → ℕ) (k iter m : ℕ) (ps : List PacketRecord)
    → 0 < iter
    → iter + suc k ≡ ntab
    → min_filter value iter m ps ≡ least_or value m (take (suc k) ps)
unfolding min_filter least_or least
min_filter-least_or value k iter m [] h e = refl
min_filter-least_or value zero iter m (p ∷ ps) h e = ground arith
min_filter-least_or value (suc k) iter m (p ∷ ps) h e =
    min_filter-step value iter m p ps h (omega arith)
    ∙ min_filter-least_or value k (iter + 1) (min m (value p)) ps (omega arith) (omega arith)
    ∙ sym (least_or-step value m p (take (suc k) ps))

-- The minimum filter of the queueing delay and of the round trip time gives the least value of the
-- fifteen packets at the front of the list, or of all if they are fewer.
pub min_filter-least :
    (value : PacketRecord → ℕ) (p : PacketRecord) (ps : List PacketRecord)
    → min_filter value 0 0 (p ∷ ps) ≡ least value p (take 14 ps)
unfolding min_filter least least_or
min_filter-least value p ps =
    min_filter-least_or value 13 1 (value p) ps (omega arith) refl ∙ same (take 14 ps)
  where
    same : (qs : List PacketRecord) → least_or value (value p) qs ≡ least value p qs
    same [] = refl
    same (q ∷ qs) = refl

-- The bounds on what `span_loop` answers over a list of `n` packets.
Spans : ℕ → ℕ → ℕ × ℕ × PacketRecord × ℕ → Type 0
Spans last n m = (1000000 ≤ sub_w 64 last m.1) × (1 ≤ m.3) × (m.3 ≤ n)

stop_or :
    (last curr : ℕ) (h : ℕ × ℕ × PacketRecord × ℕ) (n : ℕ) {m : ℕ × ℕ × PacketRecord × ℕ} (x : Bool)
    → ltb (sub_w 64 last curr) 1000000 ≡ x
    → h.1 ≡ curr
    → 1 ≤ h.3
    → h.3 ≤ n
    → (rest : Option (Option (ℕ × ℕ × PacketRecord × ℕ))) → (rest ≡ some (some m) → Spans last n m)
    → (if x then rest else some (some h)) ≡ some (some m)
    → Spans last n m
unfolding Spans
stop_or last curr h n true t c a b rest k q = k q
stop_or last curr h n false t c a b rest k q =
    subst (Spans last n) (some_inj (some_inj q)) (rw c (ground arith), a, b)

-- Where the loop of `getCurrentRecvRate` gives a rate, it is measured over at least a second, and
-- takes one or more packets from the history, and no more than there are.
pub span_loop-second :
    (last curr bytes : ℕ) (ps : List PacketRecord) {m : ℕ × ℕ × PacketRecord × ℕ}
    → span_loop last curr bytes ps ≡ some (some m)
    → (1000000 ≤ sub_w 64 last m.1) × (1 ≤ m.3) × (m.3 ≤ length ps)
unfolding span_loop Spans
span_loop-second last curr bytes [] e = absurd cc
span_loop-second last curr bytes (p ∷ []) e =
    stop_or last curr (bytes, curr, p, 1) 1 (ltb (sub_w 64 last curr) 1000000) refl refl
      (omega arith) (omega arith) (some none) (λ q. absurd cc) e
span_loop-second last curr bytes (p ∷ q ∷ ps) e =
    stop_or last curr (bytes, curr, p, length (p ∷ q ∷ ps)) (length (p ∷ q ∷ ps))
      (ltb (sub_w 64 last curr) 1000000) refl refl (omega arith) (omega arith) _
      (λ k.
        let ih =
          span_loop-second last (if ltb last (rx_us p) then last else rx_us p)
            (add_w 32 bytes p.size) (q ∷ ps) k in
        (ih.0, ih.1, omega (arith, ih.2)))
      e

-- If every record has a smaller number than the target, the loop runs off the end.
pub prune-none :
    (target : ℕ) (ps : List PacketRecord)
    → All (λ p. p.sequence < target) ps
    → prune target ps ≡ none
unfolding prune
prune-none target [] h = refl
prune-none target (p ∷ ps) h = rw (lt→ltb p.sequence target h.0) (prune-none target ps h.1)
