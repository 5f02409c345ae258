-- ===== src/Zhuge/Rate.antt =====
-- `UpdateTxRate` of network-queue-zhuge.cc: every millisecond, the time that the packet at the
-- head has waited, and the dequeue rate over a window of slots. `none` is `NS_FATAL_ERROR`.
pub mod Laws
pub mod Update
use zhuge.Prelude.{
  ℕ, zero, suc, ◌+◌, ◌-◌, ◌*◌, ◌/◌, ◌≤◌, ◌<◌, Bool, true, false, not, ◌||◌, Option, none, some,
  List, [], ◌∷◌, ◌++◌, max, ◌>>=◌, ltb, ◌==◌, if◌then◌else◌, length, drop,
}
use zhuge.Prelude.Int.{ℤ, pos, negsuc}
use zhuge.Prelude.Words.{u32, add_w, sub_w, to_int32}
use zhuge.Zhuge.{Packet, Queue, State, min_tx_rate_bps}

-- The search of mode 0 for the first frame that is no action frame.
pub first_data : List Packet → Option Packet
first_data [] = none
first_data (p ∷ ps) = if p.is_action then first_data ps else some p

abbrev pub front {ℓ} : {A : Type ℓ} → List A → Option A
front [] = none
front (p ∷ ps) = some p

-- The packet at the head, by mode. The outer `none` is an unknown mode.
pub head_packet : ℕ → Queue → Option (Option Packet)
head_packet mode q =
    if mode == 1
    then some (front q.packets)
    else if mode == 0
    then some (first_data q.packets)
    else none

-- The link header is removed in mode 1 only: the branch that was meant for mode 0 tests for mode 1
-- a second time, so that a packet in mode 0 ends in the fatal error.
pub head_time : State → Option Packet → Option State
head_time s none = some (record s { cur_q_head_time_ms = 0 })
head_time s (some p) =
    if s.mode == 1
    then if not (p.ident == s.last_head_id) || not (p.dst == s.last_head_dst_addr)
      then some
          (record s { last_head_id = p.ident; last_head_dst_addr = p.dst; cur_q_head_time_ms = 0 })
      else some (record s { cur_q_head_time_ms = add_w 32 s.cur_q_head_time_ms 1 })
    else none

-- The entry for one slot: the bytes that left, 0 if none left a queue that holds bytes, and -1 if
-- none left an empty queue.
pub slot : ℕ → ℕ → ℕ → ℤ
slot last cur n_bytes =
    if ltb last cur then to_int32 (sub_w 32 cur last) else if ltb 0 n_bytes then pos 0 else negsuc 0

-- `while (size () > window) pop_front ()`.
pub trim : ℕ → List ℤ → List ℤ
trim window [] = []
trim window (x ∷ xs) = if ltb window (length (x ∷ xs)) then trim window xs else x ∷ xs

-- The sums of one pass over the window.
pub record Sums : Type 0 where
  pub bytes : ℕ
  pub idle : ℕ
  pub busy : ℕ

abbrev pub no_sums : Sums
no_sums = record { bytes = 0; idle = 0; busy = 0 }

pub count_slot : Sums → ℤ → Sums
count_slot t (pos zero) = record t { busy = add_w 32 t.busy 1 }
count_slot t (pos (suc n)) = record t { bytes = add_w 32 t.bytes (suc n) }
count_slot t (negsuc n) = record t { idle = add_w 32 t.idle 1 }

pub sums : Sums → List ℤ → Sums
sums t [] = t
sums t (x ∷ xs) = sums (count_slot t x) xs

pub tx_rate : ℕ → Sums → ℕ
tx_rate window t = u32 (1000 * (u32 (t.bytes * 8) / (1 * sub_w 32 window t.idle)))

pub tx_delay : ℕ → ℕ → Sums → ℕ
tx_delay window size t =
    if ltb t.busy (size - t.idle)
    then u32 (1000 * (size - t.idle) / (size - t.idle - t.busy))
    else u32 (window * 1000)

-- The rate and the delay change only if some slot of the window was not idle.
pub estimate : State → List ℤ → State
estimate s [] = s
estimate s (x ∷ xs) =
    let t = sums no_sums (x ∷ xs) in
    if ltb t.idle (length (x ∷ xs))
    then record s {
      cur_tx_rate_bps = tx_rate s.tx_bytes_list_window t;
      cur_tx_delay_us = tx_delay s.tx_bytes_list_window (length (x ∷ xs)) t;
    }
    else s

pub record_slot : State → Queue → State
record_slot s q =
    let cur = sub_w 32 q.total_received_bytes q.n_bytes in
    record s {
      tx_bytes_list =
          trim s.tx_bytes_list_window
            (s.tx_bytes_list ++ slot s.last_total_tx_bytes cur q.n_bytes ∷ []);
      last_total_tx_bytes = cur;
    }

pub update_rate : State → Queue → State
update_rate s q =
    let s' = record_slot s q in
    let e = estimate s' s'.tx_bytes_list in
    record e { cur_tx_rate_bps = max e.cur_tx_rate_bps min_tx_rate_bps }

pub update_tx_rate : State → Queue → Option State
update_tx_rate s q = do p ← head_packet s.mode q; s' ← head_time s p; some (update_rate s' q)
