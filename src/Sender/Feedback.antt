-- ===== src/Sender/Feedback.antt =====
-- `processFeedback` and `updateInterLossData` of sender-based-controller.cc.
pub mod Laws
mod Intervals
pub mod Kept
use zhuge.Prelude.{
  ℕ, ◌+◌, ◌*◌, ◌%◌, ◌^◌, Bool, true, false, not, ◌&&◌, ◌||◌, List, [], ◌∷◌, ◌++◌, take, Option,
  none, some, ltb, leb, ◌==◌, if◌then◌else◌, ◌>>=◌, length,
}
use zhuge.Prelude.Words.{u16, u32, u64, add_w, sub_w}
use zhuge.Sender.{
  less_than, PacketRecord, InterLossState, new_inter_loss, Controller, max_inter_packet_time_us,
  last_record,
}

-- `++intervals[0]`.
unfoldable pub grow_first : List ℕ → Option (List ℕ)
grow_first [] = none
grow_first (n ∷ ns) = some (add_w 16 n 1 ∷ ns)

-- A new interval goes to the front, and `pop_back` keeps at most nine.
unfoldable pub push_interval : List ℕ → List ℕ
push_interval ns = if ltb 9 (length (1 ∷ ns)) then take (length ns) (1 ∷ ns) else 1 ∷ ns

unfoldable pub update_inter_loss : Bool → InterLossState → PacketRecord → Option InterLossState
update_inter_loss history_empty il p =
    let il' = if history_empty then record new_inter_loss { expected_seq = p.sequence } else il in
    if p.sequence == il'.expected_seq
    then grow_first il'.intervals
      >>= (λ ns. some (record il' { intervals = ns; expected_seq = add_w 16 il'.expected_seq 1 }))
    else if less_than 16 il'.expected_seq p.sequence
    then some (record {
      intervals = push_interval il'.intervals;
      expected_seq = add_w 16 p.sequence 1;
      initialized = true;
    })
    else none

-- The records before the acknowledged one leave, counted; what is left starts with the front.
unfoldable pub drop_before :
    ℕ → List PacketRecord → ℕ → Option (PacketRecord × List PacketRecord × ℕ)
drop_before sequence [] n = none
drop_before sequence (p ∷ ps) n =
    let rest = drop_before sequence ps (n + 1) in
    if less_than 16 p.sequence sequence then rest else some (p, ps, n)

-- The bytes that were sent up to the packet since the last acknowledged one, within a second.
unfoldable pub pseudo_size : ℕ → ℕ → ℕ → List PacketRecord → ℕ
pseudo_size last now sequence [] = 0
pseudo_size last now sequence (p ∷ ps) =
    let rest = pseudo_size last now sequence ps in
    if ltb last p.sequence
      && leb p.sequence sequence
      && ltb (sub_w 64 now p.tx_timestamp_us) 1000000
    then add_w 32 p.size rest
    else rest

-- The loop that keeps the history within its length in time.
unfoldable pub collect : ℕ → ℕ → List PacketRecord → ℕ → Option (List PacketRecord × ℕ)
collect len last [] sum = none
collect len last (p ∷ ps) sum =
    let rest = collect len last ps (sub_w 32 sum p.size) in
    if less_than 64 last p.tx_timestamp_us
    then none
    else if less_than 64 last (u64 (p.tx_timestamp_us + len))
    then some (p ∷ ps, sum)
    else if leb p.size sum
    then rest
    else none

unfoldable pub is_empty : List PacketRecord → Bool
is_empty [] = true
is_empty (p ∷ ps) = false

-- The delays of a packet, and its size as the sender counts it.
unfoldable pub with_delays : PacketRecord → ℕ → ℕ → PacketRecord
with_delays p now rx = record p {
  owd_us = sub_w 64 rx p.tx_timestamp_us;
  rtt_us = sub_w 64 now p.tx_timestamp_us;
}

unfoldable pub with_size : Controller → ℕ → PacketRecord → PacketRecord
with_size s now p = record p {
  size = pseudo_size s.last_recv_sequence now p.sequence s.packet_transit_history;
}

unfoldable pub base_delay : Controller → PacketRecord → ℕ
base_delay s p =
    if is_empty s.packet_history || less_than 64 p.owd_us s.base_delay_us
    then p.owd_us
    else s.base_delay_us

-- The packet is put into the histories, which are then cut.
unfoldable pub measure : Controller → ℕ → ℕ → PacketRecord → Option (Controller × Bool)
measure s now rx p =
    let p₁ = with_delays p now rx in
    let p₂ = with_size s now p₁ in
    if (p.owd_us == 0) && (p.rtt_us == 0)
    then update_inter_loss (is_empty s.packet_history) s.il_state p₁ >>= (λ il.
      collect s.history_length_us p₂.tx_timestamp_us (s.packet_history ++ p₂ ∷ [])
        (add_w 32 s.pkt_size_sum p₂.size)
      >>= (λ h. some (
        record s {
          base_delay_us = base_delay s p₁;
          il_state = il;
          last_recv_sequence = p.sequence;
          packet_history = h.0;
          recv_history = s.recv_history ++ p₂ ∷ [];
          pkt_size_sum = h.1;
        },
        true,
      )))
    else none

unfoldable pub obsolete : Controller → Controller
obsolete s = record s { packet_history = []; pkt_size_sum = 0 }

-- Against the newest packet of the history.
unfoldable pub acknowledge :
    Option PacketRecord → Controller → ℕ → ℕ → PacketRecord → Option (Controller × Bool)
acknowledge none s now rx p = measure s now rx p
acknowledge (some q) s now rx p =
    if less_than 64 p.tx_timestamp_us q.tx_timestamp_us
    then some (s, false)
    else if less_than 64 (u64 (q.tx_timestamp_us + max_inter_packet_time_us)) p.tx_timestamp_us
    then measure (obsolete s) now rx p
    else measure s now rx p

-- `m_lost` is a `uint32_t`. `loss_counter` is an `int`, kept as its word of 32 bits: it wraps where
-- the overflow of an `int` is undefined.
unfoldable pub count_lost : Controller → ℕ → List PacketRecord → Controller
count_lost s n rest = record s {
  lost = n % 2 ^ 32;
  loss_counter = add_w 32 s.loss_counter n;
  in_transit_packets = rest;
}

unfoldable pub take_feedback :
    Controller → ℕ → ℕ → ℕ → PacketRecord × List PacketRecord × ℕ → Option (Controller × Bool)
take_feedback s now sequence rx (p, rest, n) =
    if less_than 16 sequence p.sequence
    then some (count_lost s n (p ∷ rest), true)
    else if sequence == p.sequence
    then acknowledge (last_record s.packet_history) (count_lost s n rest) now rx p
    else none

unfoldable pub process_feedback : Controller → ℕ → ℕ → ℕ → Option (Controller × Bool)
process_feedback s now sequence rx =
    if less_than 16 s.last_sequence sequence
    then some (s, false)
    else if is_empty s.in_transit_packets
    then some (s, true)
    else last_record s.in_transit_packets >>= (λ b.
      if b.sequence == s.last_sequence
      then drop_before sequence s.in_transit_packets 0 >>= take_feedback s now sequence rx
      else none)
