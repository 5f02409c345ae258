-- ===== src/Sender/Send/Laws.antt =====
-- `processSendPacket` of sender-based-controller.cc and the invariant of its class.
use mathlib.Core.Path.{subst}
use zhuge.Prelude.{
  ℕ, ◌+◌, ◌*◌, ◌^◌, ◌<◌, ◌≡◌, refl, Bool, true, false, not, List, [], ◌∷◌, ◌++◌, none, some, arith,
  ◌==◌, if◌then◌else◌, All, All-append, Bool-cases, inl, inr, ◌>>=◌, >>=-eq-some, some_inj,
}
use zhuge.Prelude.Words.{u64}
use zhuge.Sender.{less_than, PacketRecord, Controller, max_inter_packet_time_us}
use zhuge.Sender.Serial.{less_than-later}
use zhuge.Sender.Invariant.{Consecutive, Consecutive-tail, Consecutive-append, IsUnacked, IsValid}
use zhuge.Sender.Send.{drop_old, has_sequence, sent, next_sequence, expect, process_send}

-- A property of the record that was just sent, at the end, stops the loop: the deque is not emptied.
pub drop_old-end :
    (now : ℕ) (ps : List PacketRecord) (q : PacketRecord)
    → now < 2 ^ 64
    → q.tx_timestamp_us ≡ now
    → (kept : List PacketRecord) × (drop_old now (ps ++ q ∷ []) ≡ some (kept ++ q ∷ []))
unfolding drop_old
drop_old-end now [] q h e =
    ([], rw (e, less_than-later now (10 * max_inter_packet_time_us) (omega arith) h) refl)
drop_old-end now (p ∷ ps) q h e =
    elim (Bool-cases (less_than 64 (u64 (p.tx_timestamp_us + 10 * max_inter_packet_time_us)) now)) [
      | inl old ↦ rw old (drop_old-end now ps q h e)
      | inr fresh ↦ (p ∷ ps, rw fresh refl)
    ]

-- What stays of a run is a run, and keeps what holds of its records.
drop_old-kept :
    (now last : ℕ) (ps : List PacketRecord) {kept : List PacketRecord}
    → drop_old now ps ≡ some kept
    → Consecutive last ps
    → All IsUnacked ps
    → Consecutive last kept × All IsUnacked kept
unfolding drop_old
drop_old-kept now last [] e c u = absurd cc
drop_old-kept now last (p ∷ ps) {kept} e c u =
    go (λ q. drop_old-kept now last ps q (Consecutive-tail last p ps c) u.1)
      (less_than 64 (u64 (p.tx_timestamp_us + 10 * max_inter_packet_time_us)) now) e
  where
    go :
        (drop_old now ps ≡ some kept → Consecutive last kept × All IsUnacked kept)
        → (x : Bool) → (if x then drop_old now ps else some (p ∷ ps)) ≡ some kept
        → Consecutive last kept × All IsUnacked kept
    go ih true q = ih q
    go ih false q = subst (λ l. Consecutive last l × All IsUnacked l) (some_inj q) (c, u)

-- If the number is the expected one and the history has no record of it, the send is accepted, and
-- the newest record in transit is the one of the packet: dropping old records does not empty the
-- deque.
pub process_send-accepts :
    (s : Controller) (now n size : ℕ)
    → now < 2 ^ 64
    → n ≡ next_sequence s n
    → has_sequence n s.packet_transit_history ≡ false
    → (kept : List PacketRecord) × (process_send s now n size
        ≡ some (
          record s {
            first_send = false;
            last_sequence = n;
            in_transit_packets = kept ++ sent n now size ∷ [];
            packet_transit_history = s.packet_transit_history ++ sent n now size ∷ [];
          },
          true,
        ))
unfolding process_send expect sent
process_send-accepts s now n size h e new =
    let k = drop_old-end now s.in_transit_packets (sent n now size) h refl in
    (k.0, rw (← e, same n, new, k.1) refl)
  where
    same : (n : ℕ) → (n == n) ≡ true
    same n = ground arith

-- An accepted send keeps the invariant: the numbers in transit stay one run that ends at the last
-- number sent.
pub process_send-IsValid :
    (s : Controller) (now n size : ℕ) {s' : Controller}
    → IsValid s
    → process_send s now n size ≡ some (s', true)
    → IsValid s'
unfolding process_send expect sent next_sequence
process_send-IsValid s now n size {s'} v e =
    go (n == (expect s n).last_sequence)
      (has_sequence (expect s n).last_sequence s.packet_transit_history) e
  where
    p : PacketRecord
    p = sent (expect s n).last_sequence now size

    grown : Consecutive p.sequence (s.in_transit_packets ++ p ∷ [])
    grown = elim (Bool-cases s.first_send) [
      | inl first ↦ rw (v.first first) refl
      | inr later ↦ Consecutive-append s.last_sequence s.in_transit_packets p (rw later refl) v.run
    ]

    after : List PacketRecord → Controller × Bool
    after kept = (
      record (expect s n) {
        in_transit_packets = kept;
        packet_transit_history = s.packet_transit_history ++ p ∷ [];
      },
      true,
    )

    go :
        (x y : Bool)
        → (if not x
            then some (expect s n, false)
            else if y
            then none
            else drop_old now (s.in_transit_packets ++ p ∷ []) >>= (λ kept. some (after kept)))
          ≡ some (s', true)
        → IsValid s'
    go false y q = absurd cc
    go true true q = absurd cc
    go true false q =
        let m = >>=-eq-some (drop_old now (s.in_transit_packets ++ p ∷ [])) _ q in
        let k =
          drop_old-kept now p.sequence (s.in_transit_packets ++ p ∷ []) m.1 grown
            (All-append IsUnacked s.in_transit_packets (p ∷ []) v.unacked ((refl, refl), tt)) in
        subst (λ r. IsValid r.0) (some_inj m.2)
          (record {
            run = k.0;
            unacked = k.1;
            first = λ h. absurd cc;
            total = v.total;
            intervals = v.intervals;
          })
