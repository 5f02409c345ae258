-- ===== src/Transmit/Frames.antt =====
-- `CreateFrame`, `SendPackets` and `GetFECParam` of packet-sender-udp.cc: the packets of a frame in
-- batches with their FEC packets, into the queue and the history. `none` is a failed assertion.
pub mod Parts
pub mod Blocks
pub mod Ready
pub mod Laws
pub mod Whole
pub mod Divide
pub mod Sent
pub mod Created
use zhuge.Prelude.{
  ℕ, zero, suc, ◌+◌, ◌*◌, Bool, true, false, List, [], ◌∷◌, ◌++◌, Option, none, some, ltb, ◌==◌,
  if◌then◌else◌, ◌>>=◌, length, take, drop,
}
use zhuge.Prelude.Int.{ℤ, pos, ◌-ℤ◌}
use zhuge.Prelude.Words.{u8, u16}
use zhuge.Group.{find, put}
use zhuge.Transmit.{VideoPacket, Store, modify, alloc}
use zhuge.Transmit.Fragment.{Encoded, create_frame_packets}
use zhuge.Transmit.Batch.{Ids, create_first_packet_batch, create_rtx_packet_batch}
use zhuge.Transmit.History.{Kept, store_packets}
use zhuge.Transmit.Window.{Window, send_frame, send_rtx}

-- `fec_count n` is `round (n * fec_rate)`.
pub record FecParam : Type 0 where
  pub fec_group_size : ℕ
  pub fec_count : ℕ → ℕ

-- What the FEC policy is asked: the most packets, the time left in nanoseconds, whether the group
-- size is fixed, whether this is a retransmission, and the size of the frame.
pub record Asked : Type 0 where
  pub max_group_size : ℕ
  pub ddl_left : ℤ
  pub fix_group_size : Bool
  pub is_rtx : Bool
  pub frame_size : ℕ

pub record State : Type 0 where
  pub window : Window
  pub kept : Kept
  pub group_id : ℕ
  pub batch_id : ℕ
  pub send_group_cnt : ℕ
  pub frame_data_pkt_cnt : List (ℕ × ℕ)

unfoldable pub ids : State → Ids
ids s = record {
  group_id = s.group_id;
  batch_id = s.batch_id;
  send_group_cnt = s.send_group_cnt;
  store = s.window.store;
}

unfoldable pub with_ids : Ids → State → State
with_ids i s = record s {
  group_id = i.group_id;
  batch_id = i.batch_id;
  send_group_cnt = i.send_group_cnt;
  window = record s.window { store = i.store };
}

unfoldable pub set_enqueue : ℕ → List ℕ → Store → Store
set_enqueue now [] s = s
set_enqueue now (r ∷ rs) s = set_enqueue now rs (modify r (λ p. record p { enqueue_time = now }) s)

unfoldable pub alloc_all : List VideoPacket → Store → Store × List ℕ
alloc_all [] s = (s, [])
alloc_all (p ∷ ps) s = let (s₁, r) = alloc p s in let (s₂, rs) = alloc_all ps s₁ in (s₂, r ∷ rs)

-- The policy, with the network statistics that it reads, and the rest of what the sender is set to.
module _ (policy : Asked → FecParam) (net_size : VideoPacket → ℕ) (cc_enable : Bool)
    (limit delay_ddl one_way_dispersion unset now : ℕ) where
  -- The frame's number of packets was stored as one of 8 bits.
  unfoldable pub get_fec_param : ℕ → ℤ → Bool → Bool → ℕ → State → Option FecParam
  get_fec_param size ddl_left fix is_rtx frame_id s = find frame_id s.frame_data_pkt_cnt >>= (λ n.
      some (
        policy (record {
          max_group_size = u16 size;
          ddl_left = ddl_left;
          fix_group_size = fix;
          is_rtx = is_rtx;
          frame_size = n;
        })))

  -- The loop that divides the packets into groups: the batches, and the packets that are left.
  unfoldable pub send_groups : ℕ → FecParam → List ℕ → Ids → Option (Ids × List ℕ × List ℕ)
  send_groups zero fp rs i = none
  send_groups (suc fuel) fp rs i =
      let more = do
        (i₁, batch) ← create_first_packet_batch unset now fp.fec_count (take fp.fec_group_size rs) i
        (i₂, batches, rest) ← send_groups fuel fp (drop fp.fec_group_size rs) i₁
        some (i₂, batch ++ batches, rest)
      in if ltb (length rs) fp.fec_group_size then some (i, [], rs) else more

  unfoldable pub first_groups : List ℕ → ℤ → ℕ → State → Option (State × List ℕ × List ℕ)
  first_groups rs ddl_left frame_id s = do
    fp ← get_fec_param (length rs) ddl_left false false frame_id s
    (i, batches, rest) ← send_groups (suc (length rs)) fp rs (ids s)
    some (with_ids i s, batches, rest)

  unfoldable pub last_batch : Bool → FecParam → List ℕ → Ids → Option (Ids × List ℕ)
  last_batch true fp rs i = create_rtx_packet_batch unset now fp.fec_count fp.fec_group_size rs i
  last_batch false fp rs i = create_first_packet_batch unset now fp.fec_count rs i

  -- The packets that are left form one group.
  unfoldable pub last_group : List ℕ → ℤ → ℕ → Bool → State → Option (State × List ℕ)
  last_group [] ddl_left frame_id is_rtx s = some (s, [])
  last_group (r ∷ rs) ddl_left frame_id is_rtx s = do
    fp ← get_fec_param (length (r ∷ rs)) ddl_left true is_rtx frame_id s
    (i, batch) ← last_batch is_rtx fp (r ∷ rs) (ids s)
    some (with_ids i s, batch)

  unfoldable pub enqueue : Bool → List ℕ → Window → Option Window
  enqueue true rs w = send_rtx net_size cc_enable limit now rs w
  enqueue false rs w = send_frame net_size cc_enable limit now rs w

  unfoldable pub send_out : Bool → List ℕ → State → Option State
  send_out is_rtx [] s = some s
  send_out is_rtx (r ∷ rs) s =
      let w = record s.window { store = set_enqueue now (r ∷ rs) s.window.store } in
      enqueue is_rtx (r ∷ rs) w >>= (λ w'. some (record s {
        window = w';
        kept = if is_rtx then s.kept else store_packets w'.store (r ∷ rs) s.kept;
      }))

  unfoldable pub send_packets : List ℕ → ℤ → ℕ → Bool → State → Option State
  send_packets rs ddl_left frame_id true s = do
    (s₁, last) ← last_group rs ddl_left frame_id true s
    send_out true last s₁
  send_packets rs ddl_left frame_id false s = do
    (s₁, batches, rest) ← first_groups rs ddl_left frame_id s
    (s₂, last) ← last_group rest ddl_left frame_id false s₁
    send_out false (batches ++ last) s₂

  -- The packets of a frame, made in the store; there is at least one.
  unfoldable pub send_new : Encoded → Store × List ℕ → State → Option State
  send_new f a s =
      let sent =
        send_packets a.1 (pos delay_ddl -ℤ pos (length a.1 * one_way_dispersion)) f.frame_id false
          (record s {
            window = record s.window { store = a.0 };
            frame_data_pkt_cnt = put f.frame_id (u8 f.pkt_num) s.frame_data_pkt_cnt;
          }) in
      if length a.1 == 0 then none else sent

  unfoldable pub create_frame : Encoded → ℕ → State → Option State
  create_frame f pkt_id s =
      create_frame_packets f pkt_id >>= (λ ps. send_new f (alloc_all ps s.window.store) s)
