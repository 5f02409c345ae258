-- ===== src/Zhuge/Rate/Update.antt =====
-- `UpdateTxRate` of network-queue-zhuge.cc as a whole.
use zhuge.Prelude.{
  ℕ, zero, suc, ◌+◌, ◌-◌, ◌*◌, ◌/◌, ◌^◌, ◌≤◌, ◌<◌, ◌≡◌, refl, sym, true, Option, none, some, List,
  [], ◌∷◌, arith, if_both, if◌then◌else◌, not, ◌||◌, ◌==◌, length, Option-cases, some_inj,
  >>=-eq-some, ◌>>=◌, inl, inr, ◌↔◌, ◌≢◌, false, Bool-cases,
}
use zhuge.Prelude.Int.{ℤ, pos, negsuc}
use zhuge.Prelude.Words.{u32, add_w, sub_w}
use mathlib.Core.Path.{subst}
use zhuge.Zhuge.{Packet, Queue, State, min_tx_rate_bps}
use zhuge.Zhuge.Frame.{KeepsAcks, KeepsAcks-refl, KeepsAcks-trans, Kept}
use zhuge.Zhuge.Rate.{
  Sums, no_sums, count_slot, sums, tx_rate, estimate, record_slot, update_rate, update_tx_rate,
  head_packet, head_time, first_data, front,
}
use zhuge.Zhuge.Rate.Laws.{IsValid, record_slot-IsValid, estimate-delay, estimate-frame}

-- The reference: what the slots of a window say, as plain sums.
unfoldable pub sent_bytes : List ℤ → ℕ
sent_bytes [] = 0
sent_bytes (pos n ∷ xs) = n + sent_bytes xs
sent_bytes (negsuc n ∷ xs) = sent_bytes xs

unfoldable pub idle_slots : List ℤ → ℕ
idle_slots [] = 0
idle_slots (pos n ∷ xs) = idle_slots xs
idle_slots (negsuc n ∷ xs) = 1 + idle_slots xs

-- The slots in which bytes left, or the queue held some.
unfoldable pub active_slots : List ℤ → ℕ
active_slots [] = 0
active_slots (pos n ∷ xs) = 1 + active_slots xs
active_slots (negsuc n ∷ xs) = active_slots xs

active_lem : (l : List ℤ) → active_slots l + idle_slots l ≡ length l
unfolding active_slots idle_slots
active_lem [] = refl
active_lem (pos n ∷ xs) = omega (arith, active_lem xs)
active_lem (negsuc n ∷ xs) = omega (arith, active_lem xs)

sums_exact :
    (t : Sums) (l : List ℤ)
    → t.bytes + sent_bytes l < 2 ^ 32
    → t.idle + length l < 2 ^ 32
    → ((sums t l).bytes ≡ t.bytes + sent_bytes l) × ((sums t l).idle ≡ t.idle + idle_slots l)
unfolding sums count_slot sent_bytes idle_slots
sums_exact t [] h k = omega arith
sums_exact t (pos zero ∷ xs) h k =
    omega (arith, sums_exact (record t { busy = add_w 32 t.busy 1 }) xs (omega arith) (omega arith))
sums_exact t (pos (suc n) ∷ xs) h k = omega (
  arith,
  sums_exact (record t { bytes = add_w 32 t.bytes (suc n) }) xs (omega arith) (omega arith),
)
sums_exact t (negsuc n ∷ xs) h k =
    omega (arith, sums_exact (record t { idle = add_w 32 t.idle 1 }) xs (omega arith) (omega arith))

u32-id : (a : ℕ) → a < 2 ^ 32 → u32 a ≡ a
u32-id a h = omega arith

-- The estimated rate is a thousand times the bits sent, divided by the slots of one millisecond that
-- were not idle, where the slots for which the window has no entry yet count as not idle: on a full
-- window it is the average over the slots that were not idle. It holds where the bits of the window,
-- a thousand times over, fit in 32 bits, the entries fit in the window, the window is below 2^16, and
-- some entry is not idle.
pub tx_rate-average :
    (window : ℕ) (l : List ℤ)
    → 1000 * (sent_bytes l * 8) < 2 ^ 32
    → length l ≤ window
    → window < 2 ^ 16
    → 0 < active_slots l
    → tx_rate window (sums no_sums l)
      ≡ 1000 * (sent_bytes l * 8 / (active_slots l + (window - length l)))
unfolding tx_rate
tx_rate-average window l fits short w active =
    let a = active_lem l in
    let e = sums_exact no_sums l (omega arith) (omega arith) in
    let n = active_slots l + (window - length l) in
    let same : window - idle_slots l ≡ n = omega (arith, a) in
    rw
      (
        bits (sums no_sums l).bytes (omega (arith, e.0)),
        slots (sums no_sums l).idle (omega (arith, e.1)),
        same,
      )
      (u32-id _ (omega (arith, div-le (sent_bytes l * 8) n)))
  where
    div-le : (a b : ℕ) → a / b ≤ a
    div-le a b = grind arith

    bits : (b : ℕ) → b ≡ sent_bytes l → u32 (b * 8) ≡ sent_bytes l * 8
    bits b h = omega arith

    slots : (i : ℕ) → i ≡ idle_slots l → 1 * sub_w 32 window i ≡ window - idle_slots l
    slots i h = omega (arith, active_lem l)

update_rate-IsValid : (s : State) (q : Queue) → IsValid s → IsValid (update_rate s q)
unfolding update_rate
update_rate-IsValid s q v =
    let r = record_slot s q in
    let w = record_slot-IsValid s q v in
    let same = estimate-frame r r.tx_bytes_list in
    record {
      window = rw same.1 w.window;
      slots = rw (same.0, same.1) w.slots;
      rate = omega arith;
      delay = rw same.1 (estimate-delay r r.tx_bytes_list w.slots w.window w.delay);
    }

head_time-IsValid :
    (s : State) (p : Option Packet) {s' : State} → IsValid s → head_time s p ≡ some s' → IsValid s'
unfolding head_time
head_time-IsValid s none v e = ground arith
head_time-IsValid s (some p) v e = ground arith

-- `UpdateTxRate` keeps the window at its length, the rate at the minimum or above, and the
-- transmission delay within the window.
pub update_tx_rate-IsValid :
    (s : State) (q : Queue) {s' : State} → IsValid s → update_tx_rate s q ≡ some s' → IsValid s'
unfolding update_tx_rate
update_tx_rate-IsValid s q v e =
    let (p, known, e₁) = >>=-eq-some (head_packet s.mode q) _ e in
    let (s₁, timed, e₂) = >>=-eq-some (head_time s p) _ e₁ in
    subst IsValid (some_inj e₂) (update_rate-IsValid s₁ q (head_time-IsValid s p v timed))

head_time-p2p : (s : State) (p : Option Packet) → s.mode ≡ 1 → head_time s p ≢ none
unfolding head_time
head_time-p2p s none m = ground arith
head_time-p2p s (some p) m = ground arith

head_time-wifi : (s : State) (p : Option Packet) → s.mode ≡ 0 → (head_time s p ≡ none) ↔ (p ≢ none)
unfolding head_time
head_time-wifi s none m = (λ e. cc, λ h. absurd (h refl))
head_time-wifi s (some p) m = (λ e. λ h. cc, λ h. ground arith)

head_packet-p2p :
    (mode : ℕ) (q : Queue) → mode ≡ 1 → (p : Option Packet) × (head_packet mode q ≡ some p)
unfolding head_packet
head_packet-p2p mode q m = (front q.packets, rw m)

head_packet-wifi :
    (mode : ℕ) (q : Queue) → mode ≡ 0 → head_packet mode q ≡ some (first_data q.packets)
unfolding head_packet
head_packet-wifi mode q m = rw m

-- In mode 1 `UpdateTxRate` gives a state, whose rate is at least the minimum.
pub update_tx_rate-total :
    (s : State) (q : Queue)
    → s.mode ≡ 1
    → (s' : State) × (update_tx_rate s q ≡ some s') × (min_tx_rate_bps ≤ s'.cur_tx_rate_bps)
unfolding update_tx_rate update_rate
update_tx_rate-total s q m =
    let (p, known) = head_packet-p2p s.mode q m in
    elim (Option-cases (head_time s p)) [
      | inl fatal ↦ absurd (head_time-p2p s p m fatal)
      | inr (s₁, timed) ↦ (update_rate s₁ q, rw (known, timed), omega arith)
    ]

-- A frame that is no action frame stands in the queue.
pub data HasData : List Packet → Type 0 where
  here : {p : Packet} {ps : List Packet} → p.is_action ≡ false → HasData (p ∷ ps)
  there : {p : Packet} {ps : List Packet} → HasData ps → HasData (p ∷ ps)

first_data-HasData : (ps : List Packet) → first_data ps ≢ none → HasData ps
unfolding first_data
first_data-HasData [] h = absurd (h refl)
first_data-HasData (p ∷ ps) h = elim (Bool-cases p.is_action) [
  | inl action ↦ there (first_data-HasData ps (λ e. h (rw action e)))
  | inr no_action ↦ here no_action
]

HasData-first_data : (ps : List Packet) → HasData ps → first_data ps ≢ none
unfolding first_data
HasData-first_data [] h = elim h [ ]
HasData-first_data (p ∷ ps) (here e) = λ n. cc (rw e at n)
HasData-first_data (p ∷ ps) (there h) = elim (Bool-cases p.is_action) [
  | inl action ↦ λ n. HasData-first_data ps h (rw action at n)
  | inr no_action ↦ λ n. cc (rw no_action at n)
]

-- In mode 0 `UpdateTxRate` aborts exactly when some frame of the queue is no action frame.
pub update_tx_rate-mode_wifi :
    (s : State) (q : Queue) → s.mode ≡ 0 → (update_tx_rate s q ≡ none) ↔ HasData q.packets
unfolding update_tx_rate
update_tx_rate-mode_wifi s q m = elim (Option-cases (head_time s (first_data q.packets))) [
  | inl fatal ↦ (
    λ _. first_data-HasData q.packets ((head_time-wifi s (first_data q.packets) m).0 fatal),
    λ _. rw (head_packet-wifi s.mode q m, fatal),
  )
  | inr (s₁, timed) ↦ (
    λ e. absurd (cc (rw (head_packet-wifi s.mode q m, timed) at e)),
    λ h.
        absurd
          (cc ((head_time-wifi s (first_data q.packets) m).1 (HasData-first_data q.packets h))),
  )
]

head_time-Kept : (s : State) (p : Option Packet) → s.mode ≡ 1 → Kept s (head_time s p)
unfolding head_time
head_time-Kept s none m = record {
  config = refl;
  first = refl;
  arrv = refl;
  sent = refl;
  delta = λ v. v;
}
head_time-Kept s (some p) m =
    subst (λ b. Kept s (if b then moved else none)) (sym is_p2p)
      (if_both (Kept s) (not (p.ident == s.last_head_id) || not (p.dst == s.last_head_dst_addr))
        {x = some another} {y = some same}
        (record { config = refl; first = refl; arrv = refl; sent = refl; delta = λ v. v })
        (record { config = refl; first = refl; arrv = refl; sent = refl; delta = λ v. v }))
  where
    is_p2p : (s.mode == 1) ≡ true
    is_p2p = ground arith

    another : State
    another = record s {
      last_head_id = p.ident;
      last_head_dst_addr = p.dst;
      cur_q_head_time_ms = 0;
    }

    same : State
    same = record s { cur_q_head_time_ms = add_w 32 s.cur_q_head_time_ms 1 }

    moved : Option State
    moved =
        if not (p.ident == s.last_head_id) || not (p.dst == s.last_head_dst_addr)
        then some another
        else some same

estimate-KeepsAcks : (s : State) (l : List ℤ) → KeepsAcks s (estimate s l)
unfolding estimate
estimate-KeepsAcks s [] = KeepsAcks-refl s
estimate-KeepsAcks s (x ∷ xs) =
    if_both (KeepsAcks s) _
      (record { config = refl; first = refl; arrv = refl; sent = refl; delta = λ v. v })
      (KeepsAcks-refl s)

update_rate-KeepsAcks : (s : State) (q : Queue) → KeepsAcks s (update_rate s q)
unfolding update_rate record_slot
update_rate-KeepsAcks s q =
    let k = estimate-KeepsAcks (record_slot s q) (record_slot s q).tx_bytes_list in
    record { config = k.config; first = k.first; arrv = k.arrv; sent = k.sent; delta = k.delta }

pub update_tx_rate-Kept : (s : State) (q : Queue) → s.mode ≡ 1 → Kept s (update_tx_rate s q)
unfolding update_tx_rate
update_tx_rate-Kept s q m =
    let (p, known) = head_packet-p2p s.mode q m in
    rw known (go (head_time s p) (head_time-Kept s p m))
  where
    go : (t : Option State) → Kept s t → Kept s (t >>= (λ s'. some (update_rate s' q)))
    go none k = k
    go (some s') k = KeepsAcks-trans s s' (update_rate s' q) k (update_rate-KeepsAcks s' q)
