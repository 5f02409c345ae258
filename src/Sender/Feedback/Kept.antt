-- ===== src/Sender/Feedback/Kept.antt =====
-- `processFeedback` of sender-based-controller.cc and the invariant of its class.
use mathlib.Core.Path.{subst}
use zhuge.Prelude.{
  ℕ, ◌+◌, ◌%◌, ◌^◌, ◌≡◌, refl, sym, ◌∙◌, Bool, true, false, ◌&&◌, List, [], ◌∷◌, ◌++◌, Option, none,
  some, arith, leb, ◌==◌, if◌then◌else◌, All, Bool-cases, inl, inr, ◌>>=◌, >>=-eq-some, some_inj,
}
use zhuge.Prelude.Words.{u64, add_w, sub_w}
use zhuge.Sender.{
  less_than, PacketRecord, InterLossState, Controller, max_inter_packet_time_us, last_record,
}
use zhuge.Sender.Invariant.{Consecutive, Consecutive-tail, IsUnacked, IsValid, total_size}
use zhuge.Sender.Feedback.{
  update_inter_loss, drop_before, collect, is_empty, with_delays, with_size, base_delay, measure,
  obsolete, acknowledge, count_lost, take_feedback, process_feedback,
}
use zhuge.Sender.Feedback.Intervals.{update_inter_loss-Bounded}

-- What the loop over the packets in transit leaves is the end of a run.
drop_before-kept :
    (sequence last n : ℕ) (ps : List PacketRecord) {r : PacketRecord × List PacketRecord × ℕ}
    → drop_before sequence ps n ≡ some r
    → Consecutive last ps
    → All IsUnacked ps
    → Consecutive last (r.0 ∷ r.1) × All IsUnacked (r.0 ∷ r.1)
unfolding drop_before
drop_before-kept sequence last n [] e c u = absurd cc
drop_before-kept sequence last n (p ∷ ps) {r} e c u =
    go (λ q. drop_before-kept sequence last (n + 1) ps q (Consecutive-tail last p ps c) u.1)
      (less_than 16 p.sequence sequence) e
  where
    Kept : PacketRecord × List PacketRecord × ℕ → Type 0
    Kept r = Consecutive last (r.0 ∷ r.1) × All IsUnacked (r.0 ∷ r.1)

    go :
        (drop_before sequence ps (n + 1) ≡ some r → Kept r)
        → (x : Bool) → (if x then drop_before sequence ps (n + 1) else some (p, ps, n)) ≡ some r
        → Kept r
    go ih true q = ih q
    go ih false q = subst Kept (some_inj q) (c, u)

-- The count of bytes is that of the history, modulo 2^32, whatever leaves it.
collect-total :
    (len last : ℕ) (ps : List PacketRecord) (sum : ℕ) {h : List PacketRecord × ℕ}
    → collect len last ps sum ≡ some h
    → sum ≡ total_size ps % 2 ^ 32
    → h.1 ≡ total_size h.0 % 2 ^ 32
unfolding collect total_size
collect-total len last [] sum e t = absurd cc
collect-total len last (p ∷ ps) sum {h} e t =
    go (λ q. collect-total len last ps (sub_w 32 sum p.size) q (omega (arith, t)))
      (less_than 64 last p.tx_timestamp_us) (less_than 64 last (u64 (p.tx_timestamp_us + len)))
      (leb p.size sum) e
  where
    go :
        (collect len last ps (sub_w 32 sum p.size) ≡ some h → h.1 ≡ total_size h.0 % 2 ^ 32)
        → (x y z : Bool)
        → (if x
            then none
            else if y
            then some (p ∷ ps, sum)
            else if z
            then collect len last ps (sub_w 32 sum p.size)
            else none)
          ≡ some h
        → h.1 ≡ total_size h.0 % 2 ^ 32
    go ih true y z q = absurd cc
    go ih false true z q = subst (λ h. h.1 ≡ total_size h.0 % 2 ^ 32) (some_inj q) t
    go ih false false true q = ih q
    go ih false false false q = absurd cc

total_size-append :
    (ps : List PacketRecord) (q : PacketRecord) → total_size (ps ++ q ∷ []) ≡ total_size ps + q.size
unfolding total_size
total_size-append [] q = omega arith
total_size-append (p ∷ ps) q = omega (arith, total_size-append ps q)

measure-IsValid :
    (s : Controller) (now rx : ℕ) (p : PacketRecord) {r : Controller × Bool}
    → IsValid s
    → measure s now rx p ≡ some r
    → IsValid r.0
unfolding measure
measure-IsValid s now rx p {r} v e = go ((p.owd_us == 0) && (p.rtt_us == 0)) e
  where
    p₁ : PacketRecord
    p₁ = with_delays p now rx

    p₂ : PacketRecord
    p₂ = with_size s now p₁

    after : InterLossState → List PacketRecord × ℕ → Controller × Bool
    after il h = (
      record s {
        base_delay_us = base_delay s p₁;
        il_state = il;
        last_recv_sequence = p.sequence;
        packet_history = h.0;
        recv_history = s.recv_history ++ p₂ ∷ [];
        pkt_size_sum = h.1;
      },
      true,
    )

    go :
        (x : Bool)
        → (if x
            then update_inter_loss (is_empty s.packet_history) s.il_state p₁ >>= (λ il.
              collect s.history_length_us p₂.tx_timestamp_us
                (s.packet_history ++ p₂ ∷ [])
                (add_w 32 s.pkt_size_sum p₂.size)
              >>= (λ h. some (after il h)))
            else none)
          ≡ some r
        → IsValid r.0
    go false q = absurd cc
    go true q =
        let m = >>=-eq-some (update_inter_loss (is_empty s.packet_history) s.il_state p₁) _ q in
        let n =
          >>=-eq-some
            (collect s.history_length_us p₂.tx_timestamp_us (s.packet_history ++ p₂ ∷ [])
              (add_w 32 s.pkt_size_sum p₂.size))
            _ m.2 in
        subst (λ r. IsValid r.0) (some_inj n.2)
          (record {
            run = v.run;
            unacked = v.unacked;
            first = v.first;
            total =
                collect-total s.history_length_us p₂.tx_timestamp_us (s.packet_history ++ p₂ ∷ []) _
                  n.1 (omega (arith, v.total, total_size-append s.packet_history p₂));
            intervals =
                update_inter_loss-Bounded (is_empty s.packet_history) s.il_state p₁ m.1 v.intervals;
          })

obsolete-IsValid : (s : Controller) → IsValid s → IsValid (obsolete s)
unfolding obsolete total_size
obsolete-IsValid s v = record {
  run = v.run;
  unacked = v.unacked;
  first = v.first;
  total = refl;
  intervals = v.intervals;
}

acknowledge-IsValid :
    (newest : Option PacketRecord) (s : Controller) (now rx : ℕ) (p : PacketRecord)
    {r : Controller × Bool}
    → IsValid s
    → acknowledge newest s now rx p ≡ some r
    → IsValid r.0
unfolding acknowledge
acknowledge-IsValid none s now rx p v e = measure-IsValid s now rx p v e
acknowledge-IsValid (some q) s now rx p {r} v e =
    go (less_than 64 p.tx_timestamp_us q.tx_timestamp_us)
      (less_than 64 (u64 (q.tx_timestamp_us + max_inter_packet_time_us)) p.tx_timestamp_us) e
  where
    go :
        (x y : Bool)
        → (if x
            then some (s, false)
            else if y
            then measure (obsolete s) now rx p
            else measure s now rx p)
          ≡ some r
        → IsValid r.0
    go true y k = subst (λ r. IsValid r.0) (some_inj k) v
    go false true k = measure-IsValid (obsolete s) now rx p (obsolete-IsValid s v) k
    go false false k = measure-IsValid s now rx p v k

count_lost-IsValid :
    (s : Controller) (n : ℕ) (rest : List PacketRecord)
    → IsValid s
    → s.first_send ≡ false
    → Consecutive s.last_sequence rest
    → All IsUnacked rest
    → IsValid (count_lost s n rest)
unfolding count_lost
count_lost-IsValid s n rest v f c u = record {
  run = c;
  unacked = u;
  first = λ h. absurd cc;
  total = v.total;
  intervals = v.intervals;
}

take_feedback-IsValid :
    (s : Controller) (now sequence rx : ℕ) (t : PacketRecord × List PacketRecord × ℕ)
    {r : Controller × Bool}
    → IsValid s
    → s.first_send ≡ false
    → Consecutive s.last_sequence (t.0 ∷ t.1) × All IsUnacked (t.0 ∷ t.1)
    → take_feedback s now sequence rx t ≡ some r
    → IsValid r.0
unfolding take_feedback
take_feedback-IsValid s now sequence rx (p, rest, n) {r} v f k e =
    go (less_than 16 sequence p.sequence) (sequence == p.sequence) e
  where
    go :
        (x y : Bool)
        → (if x
            then some (count_lost s n (p ∷ rest), true)
            else if y
            then acknowledge (last_record s.packet_history) (count_lost s n rest) now rx p
            else none)
          ≡ some r
        → IsValid r.0
    go true y q =
        subst (λ r. IsValid r.0) (some_inj q) (count_lost-IsValid s n (p ∷ rest) v f k.0 k.1)
    go false true q =
        acknowledge-IsValid (last_record s.packet_history) (count_lost s n rest) now rx p
          (count_lost-IsValid s n rest v f (Consecutive-tail s.last_sequence p rest k.0) k.1.1) q
    go false false q = absurd cc

-- Where the numbers in transit are one run that ends at the last number sent, the count of bytes
-- is that of the packet history modulo 2^32, and one to nine loss intervals are kept, the same
-- holds after any feedback, on every path on which `processFeedback` returns.
pub process_feedback-IsValid :
    (s : Controller) (now sequence rx : ℕ) {s' : Controller} {ok : Bool}
    → IsValid s
    → process_feedback s now sequence rx ≡ some (s', ok)
    → IsValid s'
unfolding process_feedback is_empty
process_feedback-IsValid s now sequence rx {s'} {ok} v e =
    go s.in_transit_packets refl (less_than 16 s.last_sequence sequence) e
  where
    go :
        (ps : List PacketRecord)
        → s.in_transit_packets ≡ ps
        → (x : Bool)
        → (if x
            then some (s, false)
            else if is_empty ps
            then some (s, true)
            else last_record ps >>= (λ b.
              if b.sequence == s.last_sequence
              then drop_before sequence ps 0 >>= take_feedback s now sequence rx
              else none))
          ≡ some (s', ok)
        → IsValid s'
    go ps same true q = subst (λ r. IsValid r.0) (some_inj q) v
    go [] same false q = subst (λ r. IsValid r.0) (some_inj q) v
    go (p ∷ ps) same false q =
        let m = >>=-eq-some (last_record (p ∷ ps)) _ q in
        checked p ps same (m.0.sequence == s.last_sequence) m.2
      where
        later :
            (p : PacketRecord) (ps : List PacketRecord)
            → s.in_transit_packets ≡ p ∷ ps
            → s.first_send ≡ false
        later p ps same = elim (Bool-cases s.first_send) [
          | inl first ↦ let k = sym same ∙ v.first first in absurd cc
          | inr l ↦ l
        ]

        checked :
            (p : PacketRecord) (ps : List PacketRecord)
            → s.in_transit_packets ≡ p ∷ ps
            → (x : Bool)
            → (if x
                then drop_before sequence (p ∷ ps) 0 >>= take_feedback s now sequence rx
                else none)
              ≡ some (s', ok)
            → IsValid s'
        checked p ps same false q = absurd cc
        checked p ps same true q =
            let m = >>=-eq-some (drop_before sequence (p ∷ ps) 0) _ q in
            take_feedback-IsValid s now sequence rx m.0 v (later p ps same)
              (drop_before-kept sequence s.last_sequence 0 (p ∷ ps) m.1
                (subst (Consecutive s.last_sequence) same v.run)
                (subst (All IsUnacked) same v.unacked))
              m.2
