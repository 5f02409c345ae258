-- ===== src/Zhuge/Receive/Laws.antt =====
-- `OnRecv_rcvdev` of network-queue-zhuge.cc over a point-to-point link.
use zhuge.Prelude.{
  ℕ, ◌*◌, ◌≡◌, refl, ◌∙◌, if_both, true, false, not, ◌&&◌, Option, none, some, ltb, ◌==◌, ◌>>=◌,
  arith,
}
use zhuge.Prelude.Words.{add_w, sub_w}
use zhuge.Delay.{ms}
use zhuge.Zhuge.{Packet, Queue, State, tcp, udp, tcp_ack}
use zhuge.Zhuge.Frame.{KeepsAcks, KeepsAcks-refl, Kept}
use zhuge.Zhuge.QueueDelay.{
  Rounding, set_ack_delay, calculate_total_delay_ms, queue_size, note_delay,
}
use zhuge.Zhuge.QueueDelay.Laws.{note_delay-IsValid}
use zhuge.Zhuge.Receive.{
  Outcome, add_extra, note_head, other_flow, remember, schedule_sendback, on_udp, on_tcp,
  of_interest, on_recv_rcvdev,
}

abbrev pub KeptBy : State → Option Outcome → Type 0
KeptBy s none = ⊥
KeptBy s (some o) = KeepsAcks s o.state

abbrev KeepsBy : State → Outcome → Type 0
KeepsBy s o = KeepsAcks s o.state

queue_size-p2p :
    (s : State) (qdisc_bytes : ℕ) (q : Queue)
    → s.mode ≡ 1
    → (n : ℕ) × (queue_size s qdisc_bytes q 0 ≡ some n)
unfolding queue_size
queue_size-p2p s qdisc_bytes q m = (sub_w 32 (add_w 32 qdisc_bytes q.n_bytes) 0, ground arith)

note_delay-KeepsAcks : (now cur : ℕ) (s : State) → KeepsAcks s (note_delay now cur s)
unfolding note_delay
note_delay-KeepsAcks now cur s = record {
  config = refl;
  first = refl;
  arrv = refl;
  sent = refl;
  delta = note_delay-IsValid now cur s;
}

set_ack_delay-Kept :
    (r : Rounding) (s : State) (now qdisc_bytes : ℕ) (q : Queue)
    → s.mode ≡ 1
    → Kept s (set_ack_delay r s now qdisc_bytes q)
unfolding set_ack_delay calculate_total_delay_ms
set_ack_delay-Kept r s now qdisc_bytes q m =
    let (n, e) = queue_size-p2p s qdisc_bytes q m in
    let k = note_delay-KeepsAcks now _ (record s { cur_q_size_byte = n }) in
    rw e
      (record { config = k.config; first = k.first; arrv = k.arrv; sent = k.sent; delta = k.delta })

remember-KeepsAcks : (s s' : State) (p : Packet) → KeepsAcks s s' → KeepsAcks s (remember s' p)
unfolding remember
remember-KeepsAcks s s' p k =
    if_both (KeepsAcks s) _
      (record { config = k.config; first = k.first; arrv = k.arrv; sent = k.sent; delta = k.delta })
      k

add_extra-KeepsAcks : (s : State) (n : ℕ) → KeepsAcks s (add_extra s n)
unfolding add_extra
add_extra-KeepsAcks s n =
    if_both (KeepsAcks s) s.schedule_flag
      (record { config = refl; first = refl; arrv = refl; sent = refl; delta = λ v. v })
      (KeepsAcks-refl s)

on_udp-KeepsAcks : (s : State) (p : Packet) → KeepsAcks s (on_udp s p).state
unfolding on_udp schedule_sendback
on_udp-KeepsAcks s p =
    let size = sub_w 32 p.size 20 in
    if_both (KeepsBy s) _ (add_extra-KeepsAcks s size) (
      if_both (KeepsBy s) s.schedule_flag (add_extra-KeepsAcks s size)
        (record { config = refl; first = refl; arrv = refl; sent = refl; delta = λ v. v }))

Kept-KeptBy :
    (s : State) (p : Packet) (m : Option State)
    → Kept s m
    → KeptBy s
        (m >>= (λ s'. some (record { state = remember s' p; consumed = false; scheduled = false })))
Kept-KeptBy s p none k = k
Kept-KeptBy s p (some s') k = remember-KeepsAcks s s' p k

on_tcp-KeptBy :
    (r : Rounding) (s : State) (now qdisc_bytes : ℕ) (q : Queue) (p : Packet)
    → s.mode ≡ 1
    → KeptBy s (on_tcp r s now qdisc_bytes q p)
unfolding on_tcp
on_tcp-KeptBy r s now qdisc_bytes q p m = Kept-KeptBy s p _ (
    if_both (Kept s) (ltb (3000 * ms) now && p.tcp_flags == tcp_ack) {y = some s}
      (set_ack_delay-Kept r s now qdisc_bytes q m) (KeepsAcks-refl s))

of_interest-KeptBy :
    (r : Rounding) (s : State) (now qdisc_bytes : ℕ) (q : Queue) (p : Packet)
    → s.mode ≡ 1
    → KeptBy s (of_interest r s now qdisc_bytes q p)
unfolding of_interest
of_interest-KeptBy r s now qdisc_bytes q p m =
    if_both (KeptBy s) s.cc_create
      (if_both (KeptBy s) (p.protocol == tcp && p.dst == s.recv_ip) {y = ignored}
        (on_tcp-KeptBy r s now qdisc_bytes q p m) (KeepsAcks-refl s))
      (if_both (KeptBy s) (p.protocol == udp) {x = some (on_udp s p)} {y = ignored}
        (on_udp-KeepsAcks s p) (KeepsAcks-refl s))
  where
    ignored : Option Outcome
    ignored = some (record { state = s; consumed = true; scheduled = false })

other_flow-KeepsAcks : (s : State) (p : Packet) → KeepsAcks s (other_flow s p).state
unfolding other_flow
other_flow-KeepsAcks s p = if_both (KeepsBy s) _ (add_extra-KeepsAcks s _) (KeepsAcks-refl s)

note_head-KeptBy :
    (s : State) (p : Packet) (o : Option Outcome) → KeptBy (note_head s p) o → KeptBy s o
unfolding note_head
note_head-KeptBy s p none k = k
note_head-KeptBy s p (some o) k = record {
  config = k.config;
  first = k.first;
  arrv = k.arrv;
  sent = k.sent;
  delta = k.delta;
}

mode-note_head : (s : State) (p : Packet) → (note_head s p).mode ≡ s.mode
unfolding note_head
mode-note_head s p = refl

-- Over a point-to-point link the handler never aborts, and no packet towards the receiver changes
-- what is recorded of the ACKs, or brings a recorded change out of range.
pub on_recv_rcvdev-KeptBy :
    (r : Rounding) (s : State) (now qdisc_bytes : ℕ) (q : Queue) (p : Packet)
    → s.mode ≡ 1
    → KeptBy s (on_recv_rcvdev r s now qdisc_bytes q p)
unfolding on_recv_rcvdev
on_recv_rcvdev-KeptBy r s now qdisc_bytes q p m =
    if_both (KeptBy s) (not (p.src == s.send_ip && p.dst == s.recv_ip)) {x = some (other_flow s p)}
      (other_flow-KeepsAcks s p)
      (note_head-KeptBy s p _
        (of_interest-KeptBy r (note_head s p) now qdisc_bytes q p (mode-note_head s p ∙ m)))
