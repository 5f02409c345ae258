-- ===== src/Sender/Feedback/Laws.antt =====
-- The loop of `processFeedback` of sender-based-controller.cc over the packets in transit.
use mathlib.Core.Path.{subst}
use zhuge.Prelude.{
  ℕ, ◌+◌, ◌≡◌, ◌≢◌, refl, ap, sym, ◌∙◌, true, false, List, [], ◌∷◌, ◌++◌, none, some, arith, ◌==◌,
  ==_iff, length, All, Bool-cases, inl, inr,
}
use zhuge.Sender.{less_than, PacketRecord, Controller, last_record}
use zhuge.Sender.Invariant.{Consecutive, last_record-Consecutive, IsValid}
use zhuge.Sender.Send.{next_sequence, process_send, expect}
use zhuge.Sender.Feedback.{drop_before, is_empty, take_feedback, process_feedback}

-- The records that leave, the one that is looked at, and the rest are the records in transit, and
-- each that leaves has a smaller number than the acknowledged one; they are counted.
pub record Dropped (sequence : ℕ) (ps : List PacketRecord) (n : ℕ)
    (r : PacketRecord × List PacketRecord × ℕ) : Type 0 where
  pub lost : List PacketRecord
  pub split : lost ++ r.0 ∷ r.1 ≡ ps
  pub before : All (λ p. less_than 16 p.sequence sequence ≡ true) lost
  pub count : r.2 ≡ n + length lost
  pub stop : less_than 16 r.0.sequence sequence ≡ false

-- If the acknowledged number is not after the last one sent, the loop stops at a record.
pub drop_before-Dropped :
    (sequence last n : ℕ) (p : PacketRecord) (ps : List PacketRecord)
    → Consecutive last (p ∷ ps)
    → less_than 16 last sequence ≡ false
    → (r : PacketRecord × List PacketRecord × ℕ) × (drop_before sequence (p ∷ ps) n ≡ some r)
      × Dropped sequence (p ∷ ps) n r
unfolding drop_before
drop_before-Dropped sequence last n p [] c h = (
  (p, [], n),
  rw (c, h) refl,
  record { lost = []; split = refl; before = tt; count = omega arith; stop = rw c h },
)
drop_before-Dropped sequence last n p (q ∷ ps) c h =
    elim (Bool-cases (less_than 16 p.sequence sequence)) [
      | inl old ↦
          let ih = drop_before-Dropped sequence last (n + 1) q ps c.1 h in
          (
            ih.0,
            rw old ih.1,
            record {
              lost = p ∷ ih.2.lost;
              split = ap (λ l. p ∷ l) ih.2.split;
              before = (old, ih.2.before);
              count = omega (arith, ih.2.count);
              stop = ih.2.stop;
            },
          )
      | inr new ↦ (
        (p, q ∷ ps, n),
        rw new refl,
        record { lost = []; split = refl; before = tt; count = omega arith; stop = new },
      )
    ]

-- A send that is refused, from a state that keeps the invariant and with packets in transit, still
-- moves the last number on: every later feedback for a number that is not after it fails an
-- assertion.
pub process_send-jams :
    (s : Controller) (now n size : ℕ) (p : PacketRecord) (ps : List PacketRecord)
    → IsValid s
    → s.in_transit_packets ≡ p ∷ ps
    → n ≢ next_sequence s n
    → process_send s now n size ≡ some (expect s n, false)
      × ((now' sequence rx : ℕ)
          → less_than 16 (expect s n).last_sequence sequence ≡ false
          → process_feedback (expect s n) now' sequence rx ≡ none)
unfolding process_send expect process_feedback next_sequence is_empty
process_send-jams s now n size p ps v e ne =
    (rw wrong refl, λ now' sequence rx h. rw (h, e, end.1, moved) refl)
  where
    wrong : (n == next_sequence s n) ≡ false
    wrong = elim (Bool-cases (n == next_sequence s n)) [
      | inl same ↦ absurd (ne ((==_iff n (next_sequence s n)).0 same))
      | inr other ↦ other
    ]

    later : s.first_send ≡ false
    later = elim (Bool-cases s.first_send) [
      | inl first ↦ let k = sym e ∙ v.first first in absurd cc
      | inr l ↦ l
    ]

    end : (b : PacketRecord) × (last_record (p ∷ ps) ≡ some b) × (b.sequence ≡ s.last_sequence)
    end = last_record-Consecutive s.last_sequence p ps (subst (Consecutive s.last_sequence) e v.run)

    moved : (end.0.sequence == next_sequence s n) ≡ false
    moved = rw (end.2, later) (ground arith)

-- From a state that keeps the invariant, for a number that is not after the last one sent and with
-- packets in transit: the loop of `processFeedback` over them ends at a record, having counted the
-- records of smaller numbers before it, and the call goes on with that record.
pub process_feedback-stops :
    (s : Controller) (now sequence rx : ℕ) (p : PacketRecord) (ps : List PacketRecord)
    → IsValid s
    → s.in_transit_packets ≡ p ∷ ps
    → less_than 16 s.last_sequence sequence ≡ false
    → (r : PacketRecord × List PacketRecord × ℕ) × (process_feedback s now sequence rx
        ≡ take_feedback s now sequence rx r)
      × Dropped sequence s.in_transit_packets 0 r
unfolding process_feedback is_empty
process_feedback-stops s now sequence rx p ps v e h =
    let c = subst (Consecutive s.last_sequence) e v.run in
    let b = last_record-Consecutive s.last_sequence p ps c in
    let d = drop_before-Dropped sequence s.last_sequence 0 p ps c h in
    (
      d.0,
      rw (h, e, b.1, b.2, same s.last_sequence, d.1) refl,
      subst (λ l. Dropped sequence l 0 d.0) (sym e) d.2,
    )
  where
    same : (n : ℕ) → (n == n) ≡ true
    same n = ground arith
