-- ===== src/Sender/Metrics.antt =====
-- The metrics of sender-based-controller.cc and the look-ups in the history of sent packets. `none`
-- is a failed assertion or an access out of range.
pub mod Laws
use mathlib.Core.List.{reverse}
use zhuge.Prelude.{
  ℕ, zero, suc, ◌+◌, ◌-◌, ◌*◌, ◌%◌, ◌^◌, min, Bool, true, false, not, ◌&&◌, ◌||◌, List, [], ◌∷◌,
  ◌++◌, drop, Option, none, some, ltb, leb, ◌==◌, if◌then◌else◌, ◌>>=◌, length,
}
use zhuge.Prelude.Words.{u16, u32, u64, add_w, sub_w}
use zhuge.Sender.{less_than, PacketRecord, Controller, last_record, min_packet_loglen}

abbrev pub ntab : ℕ
ntab = 15

-- The loop of the minimum filters, over the history from its end.
pub min_filter : (PacketRecord → ℕ) → ℕ → ℕ → List PacketRecord → ℕ
min_filter value iter least [] = least
min_filter value iter least (p ∷ ps) =
    let least' = if ltb 0 iter then min least (value p) else value p in
    let rest = min_filter value (iter + 1) least' ps in if leb ntab (iter + 1) then least' else rest

pub filtered : (PacketRecord → ℕ) → List PacketRecord → Option ℕ
filtered value [] = none
filtered value (p ∷ ps) = some (min_filter value 0 0 (reverse (p ∷ ps)))

-- `none`: there is no history, and the call returns false.
pub current_qdelay : Controller → Option ℕ
current_qdelay s = filtered (λ p. sub_w 64 p.owd_us s.base_delay_us) s.packet_history

pub current_rtt : Controller → Option ℕ
current_rtt s = filtered (λ p. p.rtt_us) s.packet_history

-- The packets lost and sent over the history. The loss ratio is their quotient.
pub loss_info : List PacketRecord → Option (Option (ℕ × ℕ))
loss_info [] = some none
loss_info (p ∷ ps) = last_record (p ∷ ps) >>= (λ q.
    let span = sub_w 16 (1 + q.sequence) p.sequence in
    if leb (length (p ∷ ps)) span then some (some (span - length (p ∷ ps), span)) else none)

unfoldable pub rx_us : PacketRecord → ℕ
rx_us p = add_w 64 p.tx_timestamp_us p.owd_us

-- The loop over the received packets from the newest one: it stops once it has gone back a second.
-- `some none`: it reaches the oldest one, and the call returns false.
unfoldable pub span_loop :
    ℕ → ℕ → ℕ → List PacketRecord → Option (Option (ℕ × ℕ × PacketRecord × ℕ))
span_loop last curr bytes [] = none
span_loop last curr bytes (p ∷ []) =
    if ltb (sub_w 64 last curr) 1000000 then some none else some (some (bytes, curr, p, 1))
span_loop last curr bytes (p ∷ q ∷ ps) =
    let next = if ltb last (rx_us p) then last else rx_us p in
    let rest = span_loop last next (add_w 32 bytes p.size) (q ∷ ps) in
    if ltb (sub_w 64 last curr) 1000000
    then rest
    else some (some (bytes, curr, p, length (p ∷ q ∷ ps)))

-- The bytes and the microseconds whose quotient is the rate; the packets before them leave.
pub measured :
    Controller → ℕ → PacketRecord → ℕ × ℕ × PacketRecord × ℕ → Option (Controller × Option (ℕ × ℕ))
measured s last front (bytes, curr, p, n) =
    let bytes' = if ltb p.size bytes then bytes - p.size else bytes in
    if leb front.size s.pkt_size_sum
    then some (record s { recv_history = drop n s.recv_history }, some (bytes', sub_w 64 last curr))
    else none

pub recv_rate_over : Controller → PacketRecord → PacketRecord → Option (Controller × Option (ℕ × ℕ))
recv_rate_over s front back =
    let first = rx_us front in
    let last = rx_us back in
    if not (less_than 64 first (add_w 64 last 1)) || (sub_w 64 last first == 0)
    then some (s, none)
    else span_loop last last 0 (reverse s.recv_history)
      >>= (λ o. elim o [ none ↦ some (s, none) | some m ↦ measured s last front m ])

pub current_recv_rate : Controller → Option (Controller × Option (ℕ × ℕ))
current_recv_rate s = elim s.packet_history [
  | [] ↦ some (s, none)
  | p ∷ ps ↦ last_record (p ∷ ps) >>= (λ q. recv_rate_over s p q)
]

pub update_loss_rate : Controller → ℕ → Controller
update_loss_rate s loss_q8 = record s { last_fraction_loss = loss_q8 }

pub set_history_length : Controller → ℕ → Controller
set_history_length s len_us = record s { history_length_us = len_us }

-- The loop reads the front of the deque without asking whether there is one.
pub prune : ℕ → List PacketRecord → Option (List PacketRecord)
prune target [] = none
prune target (p ∷ ps) =
    let rest = prune target ps in if ltb p.sequence target then rest else some (p ∷ ps)

pub prune_transit_history : Controller → ℕ → Option Controller
prune_transit_history s target =
    prune target s.packet_transit_history
    >>= (λ kept. some (record s { packet_transit_history = kept }))

-- The first record of a number, and -1 as a 64-bit word if there is none.
pub first_with : (PacketRecord → ℕ) → ℕ → List PacketRecord → ℕ
first_with value sequence [] = 2 ^ 64 - 1
first_with value sequence (p ∷ ps) =
    let rest = first_with value sequence ps in if p.sequence == sequence then value p else rest

pub packet_tx_timestamp : Controller → ℕ → ℕ
packet_tx_timestamp s sequence =
    first_with (λ p. p.tx_timestamp_us) sequence (reverse s.packet_transit_history)

pub packet_size : Controller → ℕ → ℕ
packet_size s sequence = first_with (λ p. p.size) sequence s.packet_transit_history

-- The loop of `UpdateDepartureTime`: the last match of either number counts, and 0 if there is none.
pub departures : ℕ → ℕ → ℕ × ℕ → List PacketRecord → ℕ × ℕ
departures prev now t [] = t
departures prev now (a, b) (p ∷ ps) =
    departures prev now
      (
        if p.sequence == prev then p.tx_timestamp_us else a,
        if p.sequence == now then p.tx_timestamp_us else b,
      )
      ps

pub departure_time : Controller → ℕ → ℕ → ℕ
departure_time s prev now =
    let t = departures prev now (0, 0) s.packet_transit_history in sub_w 64 t.1 t.0
