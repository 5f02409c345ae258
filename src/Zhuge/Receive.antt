-- ===== src/Zhuge/Receive.antt =====
-- `OnRecv_rcvdev` of network-queue-zhuge.cc: a packet that enters the access point on its way to
-- the receiver. `none` is `NS_FATAL_ERROR`.
pub mod Laws
use zhuge.Prelude.{
  ℕ, ◌*◌, Bool, true, false, not, ◌&&◌, Option, none, some, List, [], ◌∷◌, ◌++◌, ltb, ◌==◌,
  if◌then◌else◌, ◌>>=◌,
}
use zhuge.Prelude.Words.{add_w, sub_w}
use zhuge.Delay.{ms}
use zhuge.Zhuge.{Packet, Queue, State, tcp, udp, tcp_ack}
use zhuge.Zhuge.QueueDelay.{Rounding, set_ack_delay}

-- What the handler leaves: the state, its result (true: the packet is not passed on), and whether
-- it scheduled `Sendback` a millisecond from now.
pub record Outcome : Type 0 where
  pub state : State
  pub consumed : Bool
  pub scheduled : Bool

-- The length of an IPv4 header without options.
abbrev pub ip_header : ℕ
ip_header = 20

pub add_extra : State → ℕ → State
add_extra s n = if s.schedule_flag then record s { extra_bytes = add_w 32 s.extra_bytes n } else s

pub note_head : State → Packet → State
note_head s p = record s { last_head_id = p.ident; last_head_dst_addr = p.dst }

pub other_flow : State → Packet → Outcome
other_flow s p =
    if not s.cc_create
    then record {
      state = add_extra s (sub_w 32 p.size ip_header);
      consumed = false;
      scheduled = false;
    }
    else record { state = s; consumed = true; scheduled = false }

pub remember : State → Packet → State
remember s p =
    if p.tcp_flags == tcp_ack && ltb 20 p.payload_size && s.fast_ack_rtx
    then record s { cache = s.cache ++ p ∷ [] }
    else s

pub schedule_sendback : State → Packet → State
schedule_sendback s p = record s { sndback_pkt = some p; extra_bytes = 0; schedule_flag = true }

pub on_udp : State → Packet → Outcome
on_udp s p =
    let size = sub_w 32 p.size ip_header in
    if not (p.src_port == s.send_port)
    then record { state = add_extra s size; consumed = false; scheduled = false }
    else if s.schedule_flag
    then record { state = add_extra s size; consumed = true; scheduled = false }
    else record { state = schedule_sendback s p; consumed = true; scheduled = true }

module _ (r : Rounding) where
  -- The feedback delay is shaped only after three seconds.
  pub on_tcp : State → ℕ → ℕ → Queue → Packet → Option Outcome
  on_tcp s now qdisc_bytes q p =
      (if ltb (3000 * ms) now && p.tcp_flags == tcp_ack
        then set_ack_delay r s now qdisc_bytes q
        else some s)
      >>= (λ s'. some (record { state = remember s' p; consumed = false; scheduled = false }))

  pub of_interest : State → ℕ → ℕ → Queue → Packet → Option Outcome
  of_interest s now qdisc_bytes q p =
      if s.cc_create
      then if p.protocol == tcp && p.dst == s.recv_ip
        then on_tcp s now qdisc_bytes q p
        else some (record { state = s; consumed = true; scheduled = false })
      else if p.protocol == udp
      then some (on_udp s p)
      else some (record { state = s; consumed = true; scheduled = false })

  pub on_recv_rcvdev : State → ℕ → ℕ → Queue → Packet → Option Outcome
  on_recv_rcvdev s now qdisc_bytes q p =
      if not (p.src == s.send_ip && p.dst == s.recv_ip)
      then some (other_flow s p)
      else of_interest (note_head s p) now qdisc_bytes q p
