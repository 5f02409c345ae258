-- ===== src/Receiver/Loss.antt =====
-- `Feedback_NetState` of packet-receiver-udp.cc: what the ids of the record say of losses.
use zhuge.Prelude.{
  ℕ, zero, suc, ◌+◌, ◌-◌, ◌%◌, ◌^◌, ◌≤◌, ◌<◌, ◌≡◌, refl, List, [], ◌∷◌, ◌==◌, if◌then◌else◌, arith,
  Bool-cases, inl, inr, ==_iff,
}
use zhuge.Prelude.Int.{ℤ, pos, negsuc}
use zhuge.Receiver.{less_than_simple}
use zhuge.Prelude.Words.{u16, add_w, sub_w}

-- `(id - prev_id + 65536) % 65536` on unsigned words of 32 bits.
unfoldable pub step : ℕ → ℕ → ℕ
step prev id = add_w 32 (sub_w 32 id prev) 65536 % 65536

-- The count that is written for a gap, `1 - step` converted to `int`.
unfoldable pub gap : ℕ → ℤ
gap zero = pos 1
gap (suc zero) = pos 0
gap (suc (suc n)) = negsuc n

-- The loop over the record: the sequence of runs and gaps, and the count of losses. The last run is
-- written only if the last packet goes on with it.
unfoldable pub loss_loop : ℕ → ℕ → List ℕ → List ℤ
loss_loop prev run [] = []
loss_loop prev run (id ∷ []) =
    if step prev id == 1 then pos (run + 1) ∷ [] else pos run ∷ gap (step prev id) ∷ []
loss_loop prev run (id ∷ j ∷ ids) =
    let next = loss_loop id (run + 1) (j ∷ ids) in
    let anew = loss_loop id 1 (j ∷ ids) in
    if step prev id == 1 then next else pos run ∷ gap (step prev id) ∷ anew

pub losses : ℕ → ℕ → List ℕ → ℕ
losses prev sum [] = sum
losses prev sum (id ∷ ids) =
    losses id (if step prev id == 1 then sum else add_w 32 sum (sub_w 32 (sub_w 32 id prev) 1)) ids

unfoldable pub loss_seq : List ℕ → List ℤ
loss_seq [] = []
loss_seq (id ∷ ids) = loss_loop (sub_w 32 id 1) 0 (id ∷ ids)

-- The ids of the receive times that are reported, newer than the last one reported, and the last one.
pub recv_sample : ℕ → List ℕ → List ℕ × ℕ
recv_sample last [] = ([], last)
recv_sample last (id ∷ ids) =
    let new = recv_sample id ids in
    let old = recv_sample last ids in if less_than_simple last id then (id ∷ new.0, new.1) else old

pub losses_in_wnd : List ℕ → ℕ
losses_in_wnd [] = 0
losses_in_wnd (id ∷ ids) = losses (sub_w 32 id 1) 0 (id ∷ ids)

pub last_id : ℕ → List ℕ → ℕ
last_id prev [] = prev
last_id prev (id ∷ ids) = last_id id ids

pub pkts_in_wnd : List ℕ → ℕ
pkts_in_wnd [] = 0
pkts_in_wnd (id ∷ []) = 0
pkts_in_wnd (id ∷ j ∷ ids) = u16 (add_w 32 (sub_w 32 (last_id j ids) id) 65537 % 65536)

-- The distance that an entry stands for.
pub distance : ℤ → ℕ
distance (pos n) = n
distance (negsuc n) = n + 1

pub total_distance : List ℤ → ℕ
total_distance [] = 0
total_distance (x ∷ xs) = distance x + total_distance xs

-- The run that is not written: a packet at the end that follows a gap.
pub unwritten : ℕ → List ℕ → ℕ
unwritten prev [] = 0
unwritten prev (id ∷ []) = if step prev id == 1 then 0 else 1
unwritten prev (id ∷ j ∷ ids) = unwritten id (j ∷ ids)

gap-distance : (n : ℕ) → 1 ≤ n → distance (gap n) + 1 ≡ n
unfolding gap distance
gap-distance zero h = absurd (omega arith)
gap-distance (suc zero) h = refl
gap-distance (suc (suc n)) h = omega arith

step_lem : (prev id : ℕ) → (prev + step prev id) % 65536 ≡ id % 65536
unfolding step
step_lem prev id = omega arith

-- The ids of the record differ from one to the next.
abbrev pub IsOrdered : ℕ → List ℕ → Type 0
IsOrdered prev [] = Unit {0}
IsOrdered prev (id ∷ ids) = (1 ≤ step prev id) × IsOrdered id ids

loss_loop-distance :
    (prev run id : ℕ) (ids : List ℕ)
    → IsOrdered prev (id ∷ ids)
    → (total_distance (loss_loop prev run (id ∷ ids)) + unwritten prev (id ∷ ids) + prev) % 65536
      ≡ (run + last_id id ids) % 65536
unfolding loss_loop total_distance distance unwritten last_id
loss_loop-distance prev run id [] h = elim (Bool-cases (step prev id == 1)) [
  | inl next ↦ rw next (omega (arith, step_lem prev id, (==_iff (step prev id) 1).0 next))
  | inr other ↦ rw other (omega (arith, step_lem prev id, gap-distance (step prev id) h.0))
]
loss_loop-distance prev run id (j ∷ ids) h =
    let next = loss_loop-distance id (run + 1) j ids h.1 in
    let anew = loss_loop-distance id 1 j ids h.1 in
    elim (Bool-cases (step prev id == 1)) [
      | inl one ↦ rw one (omega (arith, step_lem prev id, (==_iff (step prev id) 1).0 one, next))
      | inr other ↦
          rw other (omega (arith, step_lem prev id, gap-distance (step prev id) h.0, anew))
    ]

-- If ids of the record that follow each other differ modulo 2^16, the loss sequence accounts for
-- every id: the runs and the gaps add up to the distance from the first id to the last, both
-- counted, modulo 2^16, but for a packet at the end that follows a gap.
pub loss_seq-distance :
    (id : ℕ) (ids : List ℕ)
    → IsOrdered id ids
    → (total_distance (loss_seq (id ∷ ids)) + unwritten (sub_w 32 id 1) (id ∷ ids) + id) % 65536
      ≡ (last_id id ids + 1) % 65536
unfolding loss_seq step
loss_seq-distance id ids h =
    let d = loss_loop-distance (sub_w 32 id 1) 0 id ids (first, h) in omega (arith, d)
  where
    first : 1 ≤ step (sub_w 32 id 1) id
    first = omega arith

-- Where an id is below the one before it, with a gap of at least one between them, the count of
-- losses for this step is 2^16 too small, modulo 2^32: it is not reduced modulo 2^16, as the gap
-- in the sequence is.
pub losses-wrap :
    (sum prev id : ℕ)
    → sum < 2 ^ 16
    → prev < 2 ^ 16
    → id < prev
    → 2 ≤ step prev id
    → (losses prev sum (id ∷ []) + 65536) % 2 ^ 32 ≡ sum + (step prev id - 1)
unfolding losses step
losses-wrap sum prev id h k l m = ground arith
