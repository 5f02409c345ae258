-- ===== src/Transmit/Retransmit/Laws.antt =====
-- `RetransmitGroup` of packet-sender-udp.cc.
use mathlib.Core.Path.{subst}
use zhuge.Prelude.{
  ℕ, ◌+◌, ◌<◌, ◌≤◌, ◌≡◌, refl, sym, ap, ◌∙◌, Bool, true, List, [], ◌∷◌, ◌++◌, Option, some, length,
  length-append, arith, All, map,
}
use zhuge.Prelude.Words.{u8, u16}
use zhuge.Prelude.Int.{ℤ, pos, ◌-ℤ◌}
use zhuge.Group.{find}
use zhuge.Transmit.{VideoPacket, PacketFrame, deref, digests}
use zhuge.Transmit.Batch.{Ids, Numbers}
use zhuge.Transmit.Batch.First.{Below}
use zhuge.Transmit.Batch.Extra.{AllExtra}
use zhuge.Transmit.Batch.Again.{AllOfGroup, rtx_numbers, create_rtx_packet_batch-Resent}
use zhuge.Transmit.Frames.Blocks.{Agrees, set_enqueue-Agrees}
use zhuge.Transmit.Window.{send_rtx, new_frame, schedule}
use zhuge.Transmit.Window.Step.{queued, IsFilled, calculated}
use zhuge.Transmit.Frames.{
  Asked, FecParam, State, ids, with_ids, set_enqueue, get_fec_param, last_batch, last_group,
  enqueue, send_out, send_packets,
}
use zhuge.Transmit.Retransmit.Again.{
  AllOfGroup-again_all, again_all-Named, again_all-next_ref, again_all-first, extra_queued,
}
use zhuge.Transmit.Retransmit.{
  NetStat, again_all, first_encode_time, retransmit_refs, retransmit_group,
}

module _ (iterate : List (ℕ × ℕ) → List (ℕ × ℕ)) (policy : Asked → FecParam)
    (fixed : (a : Asked) → a.fix_group_size ≡ true → (policy a).fec_group_size ≡ a.max_group_size)
    (net_size : VideoPacket → ℕ) (cc_enable : Bool) (limit delay_ddl unset now : ℕ)
    (n : NetStat) where
  -- What the numbers have of the first packet: its group, the group's number of data packets and the
  -- number of FEC packets of the last batch that it was in; and its count of sendings, with this one.
  abbrev pub IsFirst : List ℕ → State → Numbers → ℕ → Type 0
  IsFirst [] s m tx = Unit {0}
  IsFirst (r ∷ rs) s m tx =
      let p = s.window.store.at r in
      (m.group ≡ p.group_id)
      × (m.group_data_num ≡ p.group_data_num)
      × (m.group_fec_num ≡ p.batch_fec_num)
      × (tx ≡ u8 (p.tx_count + 1))

  -- A retransmission of the packets `rs`: one frame at the front of the queue.
  pub record Resends (rs : List ℕ) (s : State) (m : Option State) : Type 0 where
    pub next : State
    pub frame : PacketFrame
    pub fecs : List ℕ
    pub sends : m ≡ some next
    pub queue : next.window.queue ≡ frame ∷ s.window.queue
    pub packets : frame.packets_in_frame ≡ rs ++ fecs
    pub fresh : All (λ (r : ℕ). s.window.store.next_ref ≤ r) fecs
    pub question : Asked
    pub rtx : (question.is_rtx ≡ true) × (question.fix_group_size ≡ true)
    pub count : length fecs ≡ u16 ((policy question).fec_count (u16 (length rs)))
    pub numbers : Numbers
    pub tx_count : ℕ
    pub batch : numbers.batch ≡ s.batch_id
    pub batch_data_num : numbers.batch_data_num ≡ u16 (length rs)
    pub batch_fec_num : numbers.batch_fec_num ≡ length fecs
    pub extra :
        AllExtra now
          (digests (deref next.window.store rs))
          numbers
          tx_count
          next.window.store.at
          (length rs)
          fecs
    pub first : IsFirst rs s numbers tx_count
    pub marked : frame.retransmission ≡ true
    pub kept : next.kept ≡ s.kept
    pub scheduled : next.window.scheduled ≡ s.window.scheduled + 1

  record Queues (rs : List ℕ) (s : State) (m : Option State) : Type 0 where
    next : State
    frame : PacketFrame
    sends : m ≡ some next
    queue : next.window.queue ≡ frame ∷ s.window.queue
    packets : frame.packets_in_frame ≡ rs
    agrees : (q : ℕ) → Agrees (next.window.store.at q) (s.window.store.at q)
    marked : frame.retransmission ≡ true
    kept : next.kept ≡ s.kept
    scheduled : next.window.scheduled ≡ s.window.scheduled + 1

  send_out-Queues :
      (r : ℕ) (rs : List ℕ) (s : State)
      → IsFilled s.window.queue
      → length (r ∷ rs) + length (queued s.window.queue) < 4294967296
      → Queues (r ∷ rs) s (
          send_out policy net_size cc_enable limit delay_ddl n.one_way_dispersion unset now true
            (r ∷ rs)
            s)
  unfolding send_out enqueue send_rtx schedule new_frame
  send_out-Queues r rs s filled few =
      let w = record s.window { store = set_enqueue now (r ∷ rs) s.window.store } in
      let f = new_frame net_size cc_enable limit now w r rs true in
      let c =
        calculated net_size cc_enable limit now (record w { queue = f ∷ w.queue })
          (omega arith, filled)
          (omega (arith, few, length-append f.packets_in_frame (queued w.queue))) in
      record {
        next = record s {
          window = schedule (record w { queue = f ∷ w.queue; pacing_interval = c.0 });
        };
        frame = f;
        sends = rw c.1 refl;
        queue = refl;
        packets = refl;
        agrees = λ q. set_enqueue-Agrees now (r ∷ rs) s.window.store q;
        marked = refl;
        kept = refl;
        scheduled = refl;
      }

  asked : ℕ → ℤ → ℕ → Asked
  asked size d c = record {
    max_group_size = u16 size;
    ddl_left = d;
    fix_group_size = true;
    is_rtx = true;
    frame_size = c;
  }

  abbrev first_of : List ℕ → ℕ
  first_of [] = 0
  first_of (r ∷ rs) = r

  -- The one batch of a retransmission.
  record Batches (rs : List ℕ) (d : ℤ) (frame_id : ℕ) (s : State) : Type 0 where
    next : Ids
    fecs : List ℕ
    batches :
        last_group policy net_size cc_enable limit delay_ddl n.one_way_dispersion unset now rs d
          frame_id true s
        ≡ some (with_ids next s, rs ++ fecs)
    few : length fecs < 65536
    question : Asked
    rtx : (question.is_rtx ≡ true) × (question.fix_group_size ≡ true)
    count : length fecs ≡ u16 ((policy question).fec_count (u16 (length rs)))
    extra :
        AllExtra now
          (digests (deref next.store rs))
          (rtx_numbers s.batch_id (s.window.store.at (first_of rs)) (length rs) (length fecs))
          (s.window.store.at (first_of rs)).tx_count
          next.store.at
          (length rs)
          fecs
    fresh : All (λ (r : ℕ). s.window.store.next_ref ≤ r) fecs

  last_group-Batches :
      (r : ℕ) (rs : List ℕ) (d : ℤ) (frame_id c g : ℕ) (s : State)
      → find frame_id s.frame_data_pkt_cnt ≡ some c
      → AllOfGroup g s.window.store (r ∷ rs)
      → length (r ∷ rs) < 65536
      → Below s.window.store.next_ref (r ∷ rs)
      → Batches (r ∷ rs) d frame_id s
  unfolding last_group last_batch get_fec_param ids asked
  last_group-Batches r rs d frame_id c g s e h l old =
      let a = asked (length (r ∷ rs)) d c in
      let size : (policy a).fec_group_size ≡ length (r ∷ rs) = fixed a refl ∙ omega (arith, l) in
      let b =
        create_rtx_packet_batch-Resent unset now (policy a).fec_count (policy a).fec_group_size r rs
          (ids s) size (subst (λ j. AllOfGroup j s.window.store (r ∷ rs)) (sym h.0.group) h) old in
      record {
        next = b.next;
        fecs = b.fecs;
        batches = rw (e, b.creates) refl;
        few = b.few;
        question = a;
        rtx = (refl, refl);
        count = b.count;
        extra = b.extra;
        fresh = b.fresh;
      }

  retransmit_group-found :
      (g : ℕ) (s : State) (inner : List (ℕ × ℕ))
      → find g s.kept.packets ≡ some inner
      → retransmit_group iterate policy net_size cc_enable limit delay_ddl unset now n g s
        ≡ retransmit_refs iterate policy net_size cc_enable limit delay_ddl unset now n
            (map (λ (e : ℕ × ℕ). e.1) (iterate inner))
            s
  unfolding retransmit_group
  retransmit_group-found g s inner e = ground (arith, e)

  -- `RetransmitGroup`, for a group with a packet in the history, puts one frame at the front of the
  -- queue, marked as a retransmission: the packets of the group that the history still has, in the
  -- order in which its map is read, and then as many new packets, modulo 2^16, as the FEC policy's
  -- answer for a retransmission of fixed size asks for. Each of these is an FEC packet made now
  -- with the digests of exactly the packets sent again, as they are queued. They have the next
  -- batch id, the batch's numbers of data and FEC packets, ids in the batch that count on, modulo
  -- 2^16, from the number of data packets, the id in the group that is kept for them, and of the
  -- first packet the group, its number of data packets and, as the group's number of FEC packets,
  -- the one of the packet's last batch; their count of sendings is that of the first packet, with
  -- this one, modulo 2^8. One more call of `SendPacket` is scheduled, the rest of the queue and the
  -- history stay. The packets are data packets of the group in the store, fewer than 2^16, and
  -- their frame's size is known; no frame of the queue is empty and the queue has at most 2^31
  -- packets; for a fixed group size the FEC policy answers the size asked for.
  pub retransmit_group-Resends :
      (g : ℕ) (s : State) (inner : List (ℕ × ℕ)) (r c : ℕ) (rs : List ℕ)
      → find g s.kept.packets ≡ some inner
      → map (λ (e : ℕ × ℕ). e.1) (iterate inner) ≡ r ∷ rs
      → AllOfGroup g s.window.store (r ∷ rs)
      → length (r ∷ rs) < 65536
      → Below s.window.store.next_ref (r ∷ rs)
      → find (s.window.store.at r).frame_id s.frame_data_pkt_cnt ≡ some c
      → IsFilled s.window.queue
      → length (queued s.window.queue) ≤ 2147483648
      → Resends
          (r ∷ rs)
          s
          (retransmit_group iterate policy net_size cc_enable limit delay_ddl unset now n g s)
  unfolding retransmit_refs send_packets with_ids
  retransmit_group-Resends g s inner r c rs e m h l old k filled few =
      let store = s.window.store in
      let tx = (store.at r).tx_count + 1 in
      let s₁ = record s { window = record s.window { store = again_all tx now (r ∷ rs) store } } in
      let d = pos delay_ddl -ℤ (pos now -ℤ pos (first_encode_time store (r ∷ rs))) in
      let b =
        last_group-Batches r rs d (store.at r).frame_id c g s₁ k
          (AllOfGroup-again_all g tx now (r ∷ rs) store (r ∷ rs) h) l
          (subst (λ m. Below m (r ∷ rs)) (sym (again_all-next_ref tx now (r ∷ rs) store)) old) in
      let q =
        send_out-Queues r (rs ++ b.fecs) (with_ids b.next s₁) filled
          (omega (arith, b.few, l, few, length-append rs b.fecs)) in
      let p = s₁.window.store.at r in
      let named = again_all-Named tx now (r ∷ rs) store r in
      record {
        next = q.next;
        frame = q.frame;
        fecs = b.fecs;
        question = b.question;
        rtx = b.rtx;
        count = b.count;
        numbers = rtx_numbers s.batch_id p (length (r ∷ rs)) (length b.fecs);
        tx_count = p.tx_count;
        batch = refl;
        batch_data_num = refl;
        batch_fec_num = refl;
        extra =
            extra_queued now (rtx_numbers s.batch_id p (length (r ∷ rs)) (length b.fecs)) p.tx_count
              b.next.store q.next.window.store (r ∷ rs) b.fecs q.agrees b.extra;
        first = (named.3, named.1, named.2, again_all-first tx now r rs store);
        sends =
            retransmit_group-found g s inner e
            ∙ ap
                (λ qs.
                  retransmit_refs iterate policy net_size cc_enable limit delay_ddl unset now n qs
                    s)
                m
            ∙ rw b.batches q.sends;
        queue = q.queue;
        packets = q.packets;
        fresh =
            subst (λ m. All (λ (q : ℕ). m ≤ q) b.fecs) (again_all-next_ref tx now (r ∷ rs) store)
              b.fresh;
        marked = q.marked;
        kept = q.kept;
        scheduled = q.scheduled;
      }
