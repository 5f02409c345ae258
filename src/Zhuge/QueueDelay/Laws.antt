-- ===== src/Zhuge/QueueDelay/Laws.antt =====
-- The size and the delay of `CalculateTotalDelayMs` of network-queue-zhuge.cc, and `SetAckDelay`.
use mathlib.Core.List.{reverse, reverse-cons}
use zhuge.Prelude.{
  ℕ, ◌+◌, ◌-◌, ◌*◌, ◌^◌, ◌≤◌, ◌<◌, ◌≡◌, ◌≢◌, refl, ◌⊎◌, inl, inr, Bool, false, ◌&&◌, ◌||◌, none,
  some, List, [], ◌∷◌, ◌++◌, ◌==◌, if◌then◌else◌, arith, Bool-cases,
}
use zhuge.Prelude.Int.{ℤ, pos, negsuc, ◌≤ℤ◌, sub_ℕ}
use zhuge.Prelude.Words.{u32, sub_w, to_int32}
use zhuge.Delay.Sample
use zhuge.Delay.Sample.{add_delta_delay-IsValid}
use zhuge.Zhuge.{Packet, Queue, State}
use zhuge.Zhuge.QueueDelay.{
  Rounding, is_of_flow, strip_tail, queue_size, fits_one_ampdu, queue_delay,
  calculate_total_delay_ms, time_of_ms, note_delay,
}

unfoldable pub bytes : List Packet → ℕ
bytes [] = 0
bytes (p ∷ ps) = p.size + bytes ps

unfoldable pub has_flow : ℕ → List Packet → Bool
has_flow port [] = false
has_flow port (p ∷ ps) = is_of_flow port p || has_flow port ps

-- The reference: the bytes in front of the last packet of the flow, and 0 if there is none.
unfoldable pub bytes_ahead : ℕ → List Packet → ℕ
bytes_ahead port [] = 0
bytes_ahead port (p ∷ ps) = if has_flow port ps then p.size + bytes_ahead port ps else 0

strip_tail-append :
    (port : ℕ) (xs : List Packet) (p : Packet) (size : ℕ)
    → bytes xs + p.size ≤ size
    → size < 2 ^ 32
    → strip_tail port (xs ++ p ∷ []) size
      ≡ (if has_flow port xs then strip_tail port xs size else size - bytes xs - p.size)
unfolding strip_tail bytes has_flow
strip_tail-append port [] p size h w = ground arith
strip_tail-append port (x ∷ xs) p size h w =
    ground (arith, strip_tail-append port xs p (sub_w 32 size x.size))

bytes-append : (xs ys : List Packet) → bytes (xs ++ ys) ≡ bytes xs + bytes ys
unfolding bytes
bytes-append [] ys = omega arith
bytes-append (x ∷ xs) ys = omega (arith, bytes-append xs ys)

bytes-reverse : (ps : List Packet) → bytes (reverse ps) ≡ bytes ps
unfolding bytes
bytes-reverse [] = refl
bytes-reverse (p ∷ ps) =
    rw (reverse-cons p ps, bytes-append (reverse ps) (p ∷ []), bytes-reverse ps) (omega arith)

has_flow-append :
    (port : ℕ) (xs ys : List Packet)
    → has_flow port (xs ++ ys) ≡ (has_flow port xs || has_flow port ys)
unfolding has_flow
has_flow-append port [] ys = refl
has_flow-append port (x ∷ xs) ys = ground (arith, has_flow-append port xs ys)

has_flow-reverse : (port : ℕ) (ps : List Packet) → has_flow port (reverse ps) ≡ has_flow port ps
unfolding has_flow
has_flow-reverse port [] = refl
has_flow-reverse port (p ∷ ps) =
    rw (reverse-cons p ps, has_flow-append port (reverse ps) (p ∷ []), has_flow-reverse port ps)
      (ground arith)

strip_tail-reverse :
    (port : ℕ) (ps : List Packet) (c size : ℕ)
    → size ≡ c + bytes ps
    → size < 2 ^ 32
    → strip_tail port (reverse ps) size ≡ (if has_flow port ps then c + bytes_ahead port ps else c)
unfolding bytes bytes_ahead has_flow strip_tail
strip_tail-reverse port [] c size e w = omega arith
strip_tail-reverse port (p ∷ ps) c size e w =
    rw
      (
        reverse-cons p ps,
        strip_tail-append port (reverse ps) p size (omega (arith, bytes-reverse ps)) w,
        has_flow-reverse port ps,
        bytes-reverse ps,
      )
      (ground (arith, strip_tail-reverse port ps (c + p.size) size (omega arith)))

bytes_ahead_none :
    (port : ℕ) (ps : List Packet) → has_flow port ps ≡ false → bytes_ahead port ps ≡ 0
unfolding bytes_ahead has_flow
bytes_ahead_none port [] h = refl
bytes_ahead_none port (p ∷ ps) h = ground arith

-- The device queue of `CalculateTotalDelayMs` in the case that the bytes behind the packet
-- exceed the queue disc: the loop from the tail, in words of 32 bits, finds the bytes in front of
-- the last packet of the flow, if the byte counter agrees with the packets.
pub strip_tail-eq-bytes_ahead :
    (port : ℕ) (ps : List Packet)
    → bytes ps < 2 ^ 32
    → strip_tail port (reverse ps) (bytes ps) ≡ bytes_ahead port ps
strip_tail-eq-bytes_ahead port ps w =
    ground
      (arith, strip_tail-reverse port ps 0 (bytes ps) (omega arith) w, bytes_ahead_none port ps)

-- Where the bytes behind the packet do not exceed the queue disc, the size is what stands in both
-- queues less the bytes that came later: nothing wraps, if the two counters together fit in 32
-- bits.
pub queue_size_exact :
    (s : State) (qdisc_bytes : ℕ) (q : Queue) (extra : ℕ)
    → (s.mode ≡ 0) ⊎ (s.mode ≡ 1)
    → extra ≤ qdisc_bytes
    → qdisc_bytes + q.n_bytes < 2 ^ 32
    → queue_size s qdisc_bytes q extra ≡ some (qdisc_bytes + q.n_bytes - extra)
unfolding queue_size
queue_size_exact s qdisc_bytes q extra (inl m) h w = ground arith
queue_size_exact s qdisc_bytes q extra (inr m) h w = ground arith

-- `CalculateTotalDelayMs` aborts only where the queue disc is consulted in an unknown mode.
pub calculate_total_delay_ms-none :
    (r : Rounding) (s : State) (qdisc_bytes : ℕ) (q : Queue) (extra : ℕ)
    → calculate_total_delay_ms r s qdisc_bytes q extra ≡ none
    → (extra ≤ qdisc_bytes) × (s.mode ≢ 0) × (s.mode ≢ 1)
unfolding calculate_total_delay_ms queue_size
calculate_total_delay_ms-none r s qdisc_bytes q extra e = ground arith

-- A longer queue never has a lower estimate: for the queue part of two sizes of which neither is
-- taken to fit in one aggregated frame, and no size overflows when counted in bits.
pub queue_delay_mono :
    (r : Rounding) (s : State) (a b : ℕ)
    → a ≤ b
    → b * 8 < 2 ^ 32
    → fits_one_ampdu s b ≡ false
    → queue_delay r s a ≤ queue_delay r s b
unfolding queue_delay
queue_delay_mono r s a b h w big =
    ground (arith, r.delay_ms_mono (u32 (a * 8)) (u32 (b * 8)) s.cur_tx_rate_bps)

time_of_ms_whole : (t : ℤ) → (pos 0 ≤ℤ time_of_ms t) ⊎ (time_of_ms t ≤ℤ negsuc 999)
time_of_ms_whole (pos n) = inl (omega arith)
time_of_ms_whole (negsuc n) = inr (omega arith)

pub note_delay-IsValid :
    (now cur : ℕ) (s : State)
    → Sample.IsValid s.delta_ack_delay
    → Sample.IsValid (note_delay now cur s).delta_ack_delay
unfolding note_delay
note_delay-IsValid now cur s v =
    elim (Bool-cases (s.cur_q_size_byte == 0 && s.last_q_size_byte == 0)) [
      | inl empty ↦ rw empty v
      | inr busy ↦ rw busy (
          add_delta_delay-IsValid s.delta_ack_delay now _ v
            (time_of_ms_whole (to_int32 (sub_w 32 cur s.last_total_delay_ms))))
    ]

-- `SetAckDelay` records the change as the difference of two consecutive estimates: if both are
-- below 2^31, the change read as milliseconds gives back the new estimate from the old.
pub delay_change_exact :
    (old cur : ℕ) → old < 2 ^ 31 → cur < 2 ^ 31 → to_int32 (sub_w 32 cur old) ≡ sub_ℕ cur old
delay_change_exact old cur h k = ground arith
