-- ===== src/Wire/NetState.antt =====
-- `NetStatePacketHeader`, the receiver's report. The loss rate is a `double` that only passes
-- through: its type and its two conversions to the wire are parameters.
use zhuge.Prelude.{
  ℕ, zero, suc, ◌+◌, ◌*◌, ◌^◌, ◌<◌, ◌≡◌, List, [], ◌∷◌, ◌++◌, map, append-nil, append_assoc, Option,
  some, ◌>>=◌, length, arith, All, ltb, if◌then◌else◌,
}
use zhuge.Prelude.Int.{ℤ, pos, negsuc}
use zhuge.Wire.{Buffer, u16-id, u32-id}
use zhuge.Wire.Lists.{write_all, read_all, read_all-write_all, length-write_all}

pub record RcvTime : Type 0 where
  pub pkt_id : ℕ
  pub rt_us : ℕ
  pub pkt_size : ℕ

pub record NetStates (R : Type 0) : Type 0 where
  pub loss_rate : R
  pub throughput_kbps : ℕ
  pub fec_group_delay_us : ℕ
  pub loss_seq : List ℤ
  pub recvtime_hist : List RcvTime

abbrev pub minus : ℕ → ℤ
minus zero = pos 0
minus (suc n) = negsuc n

module _ (b : Buffer) where
  open b use {write16, write32, read16, read32}

  -- A run of losses is negative, and is written as a 0 and its length.
  pub write_loss : ℤ → List ℕ → List ℕ
  write_loss (pos n) rest = write16 1 (write16 n rest)
  write_loss (negsuc n) rest = write16 0 (write16 (suc n) rest)

  pub read_loss : List ℕ → Option (ℤ × List ℕ)
  read_loss bytes = do
    (sig, bytes) ← read16 bytes
    (value, bytes) ← read16 bytes
    some (if ltb 0 sig then pos value else minus value, bytes)

  pub write_rcv : RcvTime → List ℕ → List ℕ
  write_rcv t rest = write32 t.pkt_id (write32 t.rt_us rest)

  pub read_rcv : List ℕ → Option (RcvTime × List ℕ)
  read_rcv bytes = do
    (pkt_id, bytes) ← read32 bytes
    (rt_us, bytes) ← read32 bytes
    some (record { pkt_id = pkt_id; rt_us = rt_us; pkt_size = 0 }, bytes)

  module _ {R : Type 0} (to_wire : R → ℕ) (of_wire : ℕ → R) where
    pub serialize_net_state : NetStates R → List ℕ → List ℕ
    serialize_net_state n rest = write16 (to_wire n.loss_rate) (
        write32 n.throughput_kbps (
          write16 n.fec_group_delay_us (
            write16 (length n.loss_seq) (
              write_all write_loss n.loss_seq
                (write16 (length n.recvtime_hist) (write_all write_rcv n.recvtime_hist rest))))))

    pub deserialize_net_state : List ℕ → Option (NetStates R × List ℕ)
    deserialize_net_state bytes = do
      (rate, bytes) ← read16 bytes
      (throughput, bytes) ← read32 bytes
      (delay, bytes) ← read16 bytes
      (losses, bytes) ← read16 bytes
      (loss_seq, bytes) ← read_all read_loss losses [] bytes
      (times, bytes) ← read16 bytes
      (hist, bytes) ← read_all read_rcv times [] bytes
      some (
        record {
          loss_rate = of_wire rate;
          throughput_kbps = throughput;
          fec_group_delay_us = delay;
          loss_seq = loss_seq;
          recvtime_hist = hist;
        },
        bytes,
      )

-- A run of losses or of packets received is shorter than 2^16.
abbrev pub FitsLoss : ℤ → Type 0
FitsLoss (pos n) = n < 2 ^ 16
FitsLoss (negsuc n) = suc n < 2 ^ 16

-- The id and the time that go on the wire. The size, which the receiver fills in, may be any.
abbrev pub FitsRcv : RcvTime → Type 0
FitsRcv t = (t.pkt_id < 2 ^ 32) × (t.rt_us < 2 ^ 32)

-- An entry as it comes off the wire: without its size.
abbrev pub unsized : RcvTime → RcvTime
unsized t = record t { pkt_size = 0 }

pub record FitsNetState {R : Type 0} (to_wire : R → ℕ) (n : NetStates R) : Type 0 where
  pub rate : to_wire n.loss_rate < 2 ^ 16
  pub throughput : n.throughput_kbps < 2 ^ 32
  pub delay : n.fec_group_delay_us < 2 ^ 16
  pub losses : length n.loss_seq < 2 ^ 16
  pub times : length n.recvtime_hist < 2 ^ 16
  pub loss : All FitsLoss n.loss_seq
  pub rcv : All FitsRcv n.recvtime_hist

module _ (b : Buffer) where
  open b use {read16-write16, read32-write32, length-write16, length-write32}

  read_loss-write_loss :
      (x : ℤ) (rest : List ℕ) → FitsLoss x → read_loss b (write_loss b x rest) ≡ some (x, rest)
  unfolding read_loss write_loss
  read_loss-write_loss (pos n) rest f = simp (read16-write16) (rw (u16-id n f))
  read_loss-write_loss (negsuc n) rest f = simp (read16-write16) (rw (u16-id (suc n) f))

  length-write_loss : (x : ℤ) (rest : List ℕ) → length (write_loss b x rest) ≡ 4 + length rest
  unfolding write_loss
  length-write_loss (pos n) rest = simp (length-write16) (omega arith)
  length-write_loss (negsuc n) rest = simp (length-write16) (omega arith)

  read_rcv-write_rcv :
      (t : RcvTime) (rest : List ℕ)
      → FitsRcv t
      → read_rcv b (write_rcv b t rest) ≡ some (unsized t, rest)
  unfolding read_rcv write_rcv
  read_rcv-write_rcv t rest f = simp (read32-write32) (ground arith)

  read_all-write_all_rcv :
      (ts out : List RcvTime) (rest : List ℕ)
      → All FitsRcv ts
      → read_all (read_rcv b) (length ts) out (write_all (write_rcv b) ts rest)
        ≡ some (out ++ map unsized ts, rest)
  unfolding read_all write_all
  read_all-write_all_rcv [] out rest h = rw append-nil
  read_all-write_all_rcv (t ∷ ts) out rest h =
      rw (read_rcv-write_rcv t (write_all (write_rcv b) ts rest) h.0)
        (rw (read_all-write_all_rcv ts (out ++ unsized t ∷ []) rest h.1) (rw append_assoc))

  length-write_rcv : (t : RcvTime) (rest : List ℕ) → length (write_rcv b t rest) ≡ 8 + length rest
  unfolding write_rcv
  length-write_rcv t rest = simp (length-write32) (omega arith)

  module _ {R : Type 0} (to_wire : R → ℕ) (of_wire : ℕ → R) where
    -- Reading back a report whose fields and counts are in range gives the report and the rest, with
    -- its loss rate as the two conversions leave it, and with the sizes of the packets lost: they are
    -- 0, whatever they were, since they do not go on the wire. It takes the announced number of bytes:
    -- 12, and 4 for each run and 8 for each receive time.
    pub deserialize_net_state-serialize_net_state :
        (n : NetStates R) (rest : List ℕ)
        → FitsNetState to_wire n
        → (deserialize_net_state b to_wire of_wire (serialize_net_state b to_wire of_wire n rest)
            ≡ some (
              record n {
                loss_rate = of_wire (to_wire n.loss_rate);
                recvtime_hist = map unsized n.recvtime_hist;
              },
              rest,
            ))
          × (length (serialize_net_state b to_wire of_wire n rest)
              ≡ 12 + length n.loss_seq * 4 + length n.recvtime_hist * 8 + length rest)
    unfolding serialize_net_state deserialize_net_state
    deserialize_net_state-serialize_net_state n rest f =
        let tail =
          b.write16 (length n.recvtime_hist) (write_all (write_rcv b) n.recvtime_hist rest) in
        (
          simp (read16-write16, read32-write32)
              (rw (
                u16-id (to_wire n.loss_rate) f.rate,
                u32-id n.throughput_kbps f.throughput,
                u16-id n.fec_group_delay_us f.delay,
                u16-id (length n.loss_seq) f.losses,
                read_all-write_all FitsLoss (write_loss b) (read_loss b) read_loss-write_loss
                    n.loss_seq [] tail f.loss,
                read16-write16 (length n.recvtime_hist)
                    (write_all (write_rcv b) n.recvtime_hist rest),
                u16-id (length n.recvtime_hist) f.times,
                read_all-write_all_rcv n.recvtime_hist [] rest f.rcv,
              )),
          simp (length-write16, length-write32)
              (omega (
                arith,
                length-write_all FitsLoss (write_loss b) (read_loss b) 4 length-write_loss
                    n.loss_seq tail,
                length-write16 (length n.recvtime_hist)
                    (write_all (write_rcv b) n.recvtime_hist rest),
                length-write_all FitsRcv (write_rcv b) (read_rcv b) 8 length-write_rcv
                    n.recvtime_hist rest,
              )),
        )
