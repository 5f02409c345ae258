-- ===== src/Transmit/Retransmit/Again.antt =====
-- What the loop over a group in `RetransmitGroup` of packet-sender-udp.cc keeps of the packets, and
-- what queueing keeps of the FEC packets.
use mathlib.Core.Path.{subst}
use zhuge.Prelude.{ℕ, suc, ◌≡◌, refl, sym, ◌∙◌, List, [], ◌∷◌, length, arith}
use zhuge.Prelude.Words.{u8}
use zhuge.Wire.Lists.{DataPktDigest}
use zhuge.Transmit.{VideoPacket, Store, deref, digests, modify, clear_fec_batch}
use zhuge.Transmit.Batch.{Numbers}
use zhuge.Transmit.Batch.Extra.{IsExtra, AllExtra}
use zhuge.Transmit.Batch.Again.{IsOfGroup, AllOfGroup}
use zhuge.Transmit.Frames.Blocks.{Agrees, AllAgree-pointwise, digests-Agrees}
use zhuge.Transmit.Retransmit.{again, again_all}

again-IsOfGroup :
    (g tx now r q : ℕ) (s : Store)
    → IsOfGroup g (s.at q)
    → IsOfGroup g ((modify r (again tx now) s).at q)
unfolding modify again clear_fec_batch
again-IsOfGroup g tx now r q s h = record {
  data_packet = ground (arith, h.data_packet);
  set = ground (arith, h.set);
  group = ground (arith, h.group);
}

AllOfGroup-again :
    (g tx now r : ℕ) (s : Store) (rs : List ℕ)
    → AllOfGroup g s rs
    → AllOfGroup g (modify r (again tx now) s) rs
AllOfGroup-again g tx now r s [] h = tt
AllOfGroup-again g tx now r s (q ∷ rs) h =
    (again-IsOfGroup g tx now r q s h.0, AllOfGroup-again g tx now r s rs h.1)

pub AllOfGroup-again_all :
    (g tx now : ℕ) (qs : List ℕ) (s : Store) (rs : List ℕ)
    → AllOfGroup g s rs
    → AllOfGroup g (again_all tx now qs s) rs
unfolding again_all
AllOfGroup-again_all g tx now [] s rs h = h
AllOfGroup-again_all g tx now (q ∷ qs) s rs h =
    AllOfGroup-again_all g tx now qs (modify q (again tx now) s) rs
      (AllOfGroup-again g tx now q s rs h)

-- The packet has the frame, and the numbers of its group and batch, that it had.
abbrev pub Named : VideoPacket → VideoPacket → Type 0
Named p q =
    (p.frame_id ≡ q.frame_id)
    × (p.group_data_num ≡ q.group_data_num)
    × (p.batch_fec_num ≡ q.batch_fec_num)
    × (p.group_id ≡ q.group_id)

again-Named : (tx now r q : ℕ) (s : Store) → Named ((modify r (again tx now) s).at q) (s.at q)
unfolding modify again clear_fec_batch
again-Named tx now r q s = (ground arith, ground arith, ground arith, ground arith)

pub again_all-Named :
    (tx now : ℕ) (qs : List ℕ) (s : Store) (q : ℕ) → Named ((again_all tx now qs s).at q) (s.at q)
unfolding again_all
again_all-Named tx now [] s q = (refl, refl, refl, refl)
again_all-Named tx now (r ∷ qs) s q =
    let a = again_all-Named tx now qs (modify r (again tx now) s) q in
    let b = again-Named tx now r q s in (a.0 ∙ b.0, a.1 ∙ b.1, a.2 ∙ b.2, a.3 ∙ b.3)

pub again_all-next_ref :
    (tx now : ℕ) (qs : List ℕ) (s : Store) → (again_all tx now qs s).next_ref ≡ s.next_ref
unfolding again_all modify
again_all-next_ref tx now [] s = refl
again_all-next_ref tx now (r ∷ qs) s = again_all-next_ref tx now qs (modify r (again tx now) s)

IsExtra-Agrees :
    (now : ℕ) (ds : List DataPktDigest) (n : Numbers) (tx k : ℕ) (p q : VideoPacket)
    → Agrees p q
    → IsExtra now ds n tx k q
    → IsExtra now ds n tx k p
IsExtra-Agrees now ds n tx k p q (τ, e) h = subst (IsExtra now ds n tx k) (sym e) (record {
  covers = (h.covers.0, h.covers.1, h.covers.2);
  tx_count_lem = h.tx_count_lem;
  batch_id = h.batch_id;
  batch_data_num = h.batch_data_num;
  batch_fec_num = h.batch_fec_num;
  pkt_id_in_batch = h.pkt_id_in_batch;
  group_id = h.group_id;
  group_data_num = h.group_data_num;
  group_fec_num = h.group_fec_num;
  pkt_id_in_group = h.pkt_id_in_group;
})

AllExtra-Agrees :
    (now : ℕ) (ds : List DataPktDigest) (n : Numbers) (tx k : ℕ) (s t : Store) (fs : List ℕ)
    → ((q : ℕ) → Agrees (t.at q) (s.at q))
    → AllExtra now ds n tx s.at k fs
    → AllExtra now ds n tx t.at k fs
AllExtra-Agrees now ds n tx k s t [] a h = tt
AllExtra-Agrees now ds n tx k s t (f ∷ fs) a h = (
  IsExtra-Agrees now ds n tx k (t.at f) (s.at f) (a f) h.0,
  AllExtra-Agrees now ds n tx (suc k) s t fs a h.1,
)

-- The FEC packets of a batch, once the packets are queued.
pub extra_queued :
    (now : ℕ) (n : Numbers) (tx : ℕ) (s t : Store) (rs fs : List ℕ)
    → ((q : ℕ) → Agrees (t.at q) (s.at q))
    → AllExtra now (digests (deref s rs)) n tx s.at (length rs) fs
    → AllExtra now (digests (deref t rs)) n tx t.at (length rs) fs
extra_queued now n tx s t rs fs a h =
    subst (λ ds. AllExtra now ds n tx t.at (length rs) fs)
      (sym (digests-Agrees s t rs (AllAgree-pointwise s t rs a)))
      (AllExtra-Agrees now (digests (deref s rs)) n tx (length rs) s t fs a h)

again-tx_count :
    (tx now r q : ℕ) (s : Store)
    → (s.at q).tx_count ≡ u8 tx
    → ((modify r (again tx now) s).at q).tx_count ≡ u8 tx
unfolding modify again clear_fec_batch
again-tx_count tx now r q s e = ground (arith, e)

again_all-tx_count :
    (tx now : ℕ) (qs : List ℕ) (s : Store) (q : ℕ)
    → (s.at q).tx_count ≡ u8 tx
    → ((again_all tx now qs s).at q).tx_count ≡ u8 tx
unfolding again_all
again_all-tx_count tx now [] s q e = e
again_all-tx_count tx now (r ∷ qs) s q e =
    again_all-tx_count tx now qs (modify r (again tx now) s) q (again-tx_count tx now r q s e)

-- The first packet is sent as many times as was asked for.
pub again_all-first :
    (tx now r : ℕ) (qs : List ℕ) (s : Store) → ((again_all tx now (r ∷ qs) s).at r).tx_count ≡ u8 tx
unfolding again_all modify again clear_fec_batch
again_all-first tx now r qs s =
    again_all-tx_count tx now qs (modify r (again tx now) s) r (ground arith)
