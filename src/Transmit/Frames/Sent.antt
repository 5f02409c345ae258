-- ===== src/Transmit/Frames/Sent.antt =====
-- `SendPackets` of packet-sender-udp.cc for the packets of a new frame, from their groups to the queue.
use mathlib.Core.Path.{subst}
use zhuge.Prelude.{
  ℕ, ◌+◌, ◌<◌, ◌≤◌, ◌≡◌, refl, sym, ap, ap₂, ◌∙◌, Bool, false, List, [], ◌∷◌, ◌++◌, Option, some,
  length, length-append, arith,
}
use zhuge.Prelude.Int.{ℤ}
use zhuge.Transmit.{VideoPacket, Store, PacketFrame}
use zhuge.Transmit.Batch.Laws.{AllData, IsSame, IsSame-trans}
use zhuge.Transmit.History.{store_packets}
use zhuge.Transmit.Window.Step.{queued, IsFilled}
use zhuge.Transmit.Frames.{Asked, FecParam, State, set_enqueue, enqueue, send_out, send_packets}
use zhuge.Transmit.Frames.Ready.{IsReady, AllData-same}
use zhuge.Transmit.Frames.Parts.{below, below-append}
use zhuge.Transmit.Frames.Blocks.{
  Agrees, set_enqueue-Agrees, packets_of, packets_of-append, data_of, data_of-append, Blocks,
  Blocks-both,
}
use zhuge.Group.{find}
use zhuge.Transmit.Frames.Whole.{set_enqueue-IsSame, send_frame-Appends}
use zhuge.Transmit.Frames.Divide.{first_groups-Batches, last_group-Last}

module _ (policy : Asked → FecParam)
    (sized : (a : Asked) → (0 < (policy a).fec_group_size) × ((policy a).fec_group_size < 32768))
    (rated : (a : Asked) (k : ℕ) → k < 32768 → k + (policy a).fec_count k < 65536)
    (net_size : VideoPacket → ℕ) (cc_enable : Bool)
    (limit delay_ddl one_way_dispersion unset now : ℕ) (n : ℕ) where
  -- Packets as one frame in the queue and in the history.
  record Out (rs : List ℕ) (s : State) (m : Option State) : Type 0 where
    next : State
    frame : PacketFrame
    sends : m ≡ some next
    queue : next.window.queue ≡ s.window.queue ++ frame ∷ []
    packets : frame.packets_in_frame ≡ rs
    unmarked : frame.retransmission ≡ false
    agrees : (q : ℕ) → Agrees (next.window.store.at q) (s.window.store.at q)
    same : (q : ℕ) → q < n → IsSame (next.window.store.at q) (s.window.store.at q)
    kept : next.kept ≡ store_packets next.window.store frame.packets_in_frame s.kept
    scheduled : next.window.scheduled ≡ s.window.scheduled + 1

  send_out-Out :
      (rs : List ℕ) (s : State)
      → 0 < length rs
      → IsFilled s.window.queue
      → length (queued s.window.queue) + length rs < 4294967296
      → Out rs s (
          send_out policy net_size cc_enable limit delay_ddl one_way_dispersion unset now false rs
            s)
  unfolding send_out enqueue
  send_out-Out [] s l filled few = absurd (omega arith)
  send_out-Out (r ∷ rs) s l filled few =
      let w = record s.window { store = set_enqueue now (r ∷ rs) s.window.store } in
      let a = send_frame-Appends net_size cc_enable limit now r rs w filled few in
      record {
        next = record s { window = a.next; kept = store_packets a.next.store (r ∷ rs) s.kept };
        frame = a.frame;
        sends = rw a.sends refl;
        queue = a.queue;
        packets = a.packets;
        unmarked = a.unmarked;
        agrees = λ q.
            subst (λ (t : Store). Agrees (t.at q) (s.window.store.at q)) (sym a.store)
              (set_enqueue-Agrees now (r ∷ rs) s.window.store q);
        same = λ q k.
            subst (λ (t : Store). IsSame (t.at q) (s.window.store.at q)) (sym a.store)
              (set_enqueue-IsSame now (r ∷ rs) s.window.store q);
        kept = ap (λ qs. store_packets a.next.store qs s.kept) (sym a.packets);
        scheduled = a.scheduled;
      }

  length-below : (rs : List ℕ) → length (below n rs) ≤ length rs
  length-below [] = omega arith
  length-below (r ∷ rs) = ground (arith, length-below rs)

  -- The packets of a frame in the queue, in groups with their FEC packets, and in the history.
  pub record Framed (rs : List ℕ) (s : State) (m : Option State) : Type 0 where
    pub next : State
    pub frame : PacketFrame
    pub sends : m ≡ some next
    pub queue : next.window.queue ≡ s.window.queue ++ frame ∷ []
    pub parts : below n frame.packets_in_frame ≡ rs
    pub blocks : List (List ℕ × List ℕ)
    pub packets : frame.packets_in_frame ≡ packets_of blocks
    pub data_parts : data_of blocks ≡ rs
    pub formed : Blocks policy now next.window.store blocks
    pub all_data : AllData next.window.store rs
    pub unmarked : frame.retransmission ≡ false
    pub same : (q : ℕ) → q < n → IsSame (next.window.store.at q) (s.window.store.at q)
    pub kept : next.kept ≡ store_packets next.window.store frame.packets_in_frame s.kept
    pub scheduled : next.window.scheduled ≡ s.window.scheduled + 1

  -- `SendPackets` for new packets of a frame.
  pub send_packets-Framed :
      (r : ℕ) (rs : List ℕ) (d : ℤ) (frame_id c : ℕ) (s : State)
      → find frame_id s.frame_data_pkt_cnt ≡ some c
      → IsReady n s.window.store (r ∷ rs)
      → length (r ∷ rs) < 32768
      → IsFilled s.window.queue
      → length (queued s.window.queue) ≤ 1073741824
      → Framed (r ∷ rs) s (
          send_packets policy net_size cc_enable limit delay_ddl one_way_dispersion unset now
            (r ∷ rs)
            d
            frame_id
            false
            s)
  unfolding send_packets
  send_packets-Framed r rs d frame_id c s e h l filled few =
      let g =
        first_groups-Batches policy sized rated net_size cc_enable limit delay_ddl
          one_way_dispersion unset now n (r ∷ rs) d frame_id c s e h in
      let k =
        last_group-Last policy sized rated net_size cc_enable limit delay_ddl one_way_dispersion
          unset now n g.rest d frame_id c g.next (ap (find frame_id) g.counts ∙ e) g.short
          g.ready in
      let all = g.batches ++ k.batch in
      let parts : below n all ≡ r ∷ rs =
        below-append n g.batches k.batch ∙ ap (λ qs. below n g.batches ++ qs) k.parts ∙ g.parts in
      let queue = k.queue ∙ g.queue in
      let o =
        send_out-Out all k.next (omega (arith, ap length parts, length-below all))
          (subst IsFilled (sym queue) filled)
          (omega (
            arith,
            ap (λ q. length (queued q)) queue,
            few,
            l,
            g.few,
            k.few,
            length-append g.batches k.batch,
          )) in
      let same = λ (q : ℕ) (u : q < n).
        IsSame-trans (o.next.window.store.at q) (k.next.window.store.at q) (s.window.store.at q)
          (o.same q u)
          (IsSame-trans (k.next.window.store.at q) (g.next.window.store.at q) (s.window.store.at q)
            (k.same q u) (g.same q u)) in
      record {
        next = o.next;
        frame = o.frame;
        sends = rw (g.sends, k.sends) o.sends;
        queue = o.queue ∙ ap (λ q. q ++ o.frame ∷ []) queue;
        parts = ap (below n) o.packets ∙ parts;
        blocks = g.blocks ++ k.blocks;
        packets =
            o.packets
            ∙ ap₂ (λ xs ys. xs ++ ys) g.packets k.packets
            ∙ sym (packets_of-append g.blocks k.blocks);
        data_parts =
            data_of-append g.blocks k.blocks
            ∙ ap (λ qs. data_of g.blocks ++ qs) k.data_parts
            ∙ g.data_parts;
        formed =
            Blocks-both policy now g.next.window.store k.next.window.store o.next.window.store
              g.blocks k.blocks g.batches g.rest k.others g.packets g.apart g.formed k.formed
              o.agrees;
        all_data = AllData-same s.window.store o.next.window.store n (r ∷ rs) same h.old h.all_data;
        unmarked = o.unmarked;
        same = same;
        kept =
            o.kept
            ∙ ap (store_packets o.next.window.store o.frame.packets_in_frame) (k.kept ∙ g.kept);
        scheduled = o.scheduled ∙ ap (λ m. m + 1) (k.scheduled ∙ g.scheduled);
      }
