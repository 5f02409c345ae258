-- ===== src/Transmit/Batch.antt =====
-- `CreatePacketBatch`, `CreateFirstPacketBatch` and `CreateRTXPacketBatch` of packet-sender-udp.cc:
-- the ids of a batch of data packets, and its FEC packets. `none` is a failed assertion.
pub mod Laws
pub mod First
pub mod Whole
pub mod Extra
pub mod Again
use zhuge.Prelude.{
  ℕ, zero, suc, ◌+◌, Bool, true, false, not, ◌&&◌, List, [], ◌∷◌, ◌++◌, Option, none, some, ◌==◌,
  if◌then◌else◌, ◌>>=◌, length,
}
use zhuge.Prelude.Words.{add_w, u16}
use zhuge.Transmit.{
  VideoPacket, Store, modify, alloc, deref, set_fec_group, set_fec_batch, new_fec_packet,
}
use zhuge.Transmit.History.{is_data}

-- What `GetNextGroupId` and `GetNextBatchId` count, and the objects.
pub record Ids : Type 0 where
  pub group_id : ℕ
  pub batch_id : ℕ
  pub send_group_cnt : ℕ
  pub store : Store

-- The numbers of a batch and of its group.
pub record Numbers : Type 0 where
  pub batch : ℕ
  pub batch_data_num : ℕ
  pub batch_fec_num : ℕ
  pub group : ℕ
  pub group_data_num : ℕ
  pub group_fec_num : ℕ

pub rtx_fec_group_id : ℕ
rtx_fec_group_id = 65535

-- What the loops pass on: the objects and the next ids in the batch and in the group.
pub record Next : Type 0 where
  pub store : Store
  pub in_batch : ℕ
  pub in_group : ℕ

unfoldable pub assign_one : Numbers → Bool → ℕ → Next → Option Next
assign_one n new_group r x =
    let p = x.store.at r in
    let batched =
      modify r (set_fec_batch n.batch n.batch_data_num n.batch_fec_num x.in_batch) x.store in
    if not (is_data p.packet_type)
    then none
    else if not new_group && p.group_info_set_flag
    then (if p.group_id == n.group
        then some (record x { store = batched; in_batch = add_w 16 x.in_batch 1 })
        else none)
    else some (record {
      store = modify r (set_fec_group n.group n.group_data_num n.group_fec_num x.in_group) batched;
      in_batch = add_w 16 x.in_batch 1;
      in_group = add_w 16 x.in_group 1;
    })

unfoldable pub assign : Numbers → Bool → List ℕ → Next → Option Next
assign n new_group [] x = some x
assign n new_group (r ∷ rs) x = assign_one n new_group r x >>= assign n new_group rs

-- One FEC packet. It has the encoding time of its making.
unfoldable pub fec_packet : ℕ → ℕ → Numbers → Bool → ℕ → List VideoPacket → Next → VideoPacket
fec_packet unset now n is_rtx tx_count ps x =
    record (set_fec_group n.group n.group_data_num n.group_fec_num
      (if is_rtx then rtx_fec_group_id else x.in_group)
      (set_fec_batch n.batch n.batch_data_num n.batch_fec_num x.in_batch
        (new_fec_packet unset tx_count ps))) { encode_time = now }

unfoldable pub add_fec : ℕ → ℕ → Numbers → Bool → ℕ → List ℕ → ℕ → Next → Next × List ℕ
add_fec unset now n is_rtx tx_count rs zero x = (x, [])
add_fec unset now n is_rtx tx_count rs (suc i) x =
    let (s, r) = alloc (fec_packet unset now n is_rtx tx_count (deref x.store rs) x) x.store in
    let (x', more) = add_fec unset now n is_rtx tx_count rs i (record {
      store = s;
      in_batch = add_w 16 x.in_batch 1;
      in_group = if is_rtx then x.in_group else add_w 16 x.in_group 1;
    }) in
    (x', r ∷ more)

-- `fec_count n` is `round (n * fec_rate)`.
module _ (unset now : ℕ) (fec_count : ℕ → ℕ) where
  -- The numbers, with the ids that they take. The FEC number of a known group is read from the
  -- batch of the first packet.
  unfoldable pub numbers : Bool → ℕ → VideoPacket → ℕ → Ids → Numbers
  numbers new_group group_id first size i =
      let data_num = u16 size in
      let fec_num = u16 (fec_count data_num) in
      record {
        batch = i.batch_id;
        batch_data_num = data_num;
        batch_fec_num = fec_num;
        group = if new_group then i.group_id else group_id;
        group_data_num = if new_group then data_num else first.group_data_num;
        group_fec_num = if new_group then fec_num else first.batch_fec_num;
      }

  unfoldable pub create_packet_batch : Bool → ℕ → Bool → List ℕ → Ids → Option (Ids × List ℕ)
  create_packet_batch new_group group_id is_rtx [] i = none
  create_packet_batch new_group group_id is_rtx (r ∷ rs) i =
      let first = i.store.at r in
      let n = numbers new_group group_id first (length (r ∷ rs)) i in
      assign n new_group (r ∷ rs) (record { store = i.store; in_batch = 0; in_group = 0 }) >>= (λ x.
        let (x', fecs) = add_fec unset now n is_rtx first.tx_count (r ∷ rs) n.batch_fec_num x in
        some (
          record i {
            group_id = if new_group then add_w 32 i.group_id 1 else i.group_id;
            batch_id = add_w 32 i.batch_id 1;
            store = x'.store;
          },
          (r ∷ rs) ++ fecs,
        ))

  unfoldable pub create_first_packet_batch : List ℕ → Ids → Option (Ids × List ℕ)
  create_first_packet_batch rs i =
      create_packet_batch true 0 false rs i
      >>= (λ b. some (record b.0 { send_group_cnt = add_w 64 b.0.send_group_cnt 1 }, b.1))

  -- The group is that of the first packet.
  unfoldable pub create_rtx_packet_batch : ℕ → List ℕ → Ids → Option (Ids × List ℕ)
  create_rtx_packet_batch fec_group_size [] i = none
  create_rtx_packet_batch fec_group_size (r ∷ rs) i =
      if length (r ∷ rs) == fec_group_size
      then create_packet_batch false (i.store.at r).group_id true (r ∷ rs) i
      else none
