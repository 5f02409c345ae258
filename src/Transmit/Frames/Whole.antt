-- ===== src/Transmit/Frames/Whole.antt =====
-- `SendPackets` of packet-sender-udp.cc for the packets of a new frame.
use mathlib.Core.Path.{subst}
use zhuge.Prelude.{
  ℕ, ◌+◌, ◌<◌, ◌≡◌, refl, sym, ap, ◌∙◌, Bool, false, List, [], ◌∷◌, ◌++◌, some, length,
  length-append, arith, All-append, append-nil, append_assoc,
}
use zhuge.Transmit.{VideoPacket, Store, PacketFrame, modify}
use zhuge.Transmit.Batch.Laws.{IsSame, IsSame-refl, IsSame-trans, IsSame-modify}
use zhuge.Transmit.Window.{Window, send_frame, update_goodput_ratio, new_frame, schedule}
use zhuge.Transmit.Window.Step.{queued, IsFilled, calculated}
use zhuge.Transmit.Frames.{set_enqueue}

queued-append : (fs gs : List PacketFrame) → queued (fs ++ gs) ≡ queued fs ++ queued gs
queued-append [] gs = refl
queued-append (f ∷ fs) gs =
    ap (λ rs. f.packets_in_frame ++ rs) (queued-append fs gs)
    ∙ sym (append_assoc f.packets_in_frame (queued fs) (queued gs))

pub set_enqueue-IsSame :
    (now : ℕ) (rs : List ℕ) (s : Store) (q : ℕ) → IsSame ((set_enqueue now rs s).at q) (s.at q)
unfolding set_enqueue
set_enqueue-IsSame now [] s q = IsSame-refl (s.at q)
set_enqueue-IsSame now (r ∷ rs) s q =
    let f = λ (p : VideoPacket). record p { enqueue_time = now } in
    IsSame-trans ((set_enqueue now (r ∷ rs) s).at q) ((modify r f s).at q) (s.at q)
      (set_enqueue-IsSame now rs (modify r f s) q)
      (IsSame-modify r q f s (λ p. record {
        packet_type = refl;
        payload_size = refl;
        tx_count = refl;
        frame_id = refl;
        encode_time = refl;
      }))

module _ (net_size : VideoPacket → ℕ) (cc_enable : Bool) (limit now : ℕ) where
  -- A frame at the end of the queue.
  pub record Appends (rs : List ℕ) (w : Window) : Type 0 where
    pub next : Window
    pub frame : PacketFrame
    pub sends : send_frame net_size cc_enable limit now rs w ≡ some next
    pub queue : next.queue ≡ w.queue ++ frame ∷ []
    pub packets : frame.packets_in_frame ≡ rs
    pub unmarked : frame.retransmission ≡ false
    pub store : next.store ≡ w.store
    pub scheduled : next.scheduled ≡ w.scheduled + 1

  ratio-keeps :
      (w : Window)
      → let u = update_goodput_ratio net_size cc_enable limit now w in
        (u.queue ≡ w.queue) × (u.store ≡ w.store) × (u.scheduled ≡ w.scheduled)
  unfolding update_goodput_ratio
  ratio-keeps w = (ground arith, ground arith, ground arith)

  pub send_frame-Appends :
      (r : ℕ) (rs : List ℕ) (w : Window)
      → IsFilled w.queue
      → length (queued w.queue) + length (r ∷ rs) < 4294967296
      → Appends (r ∷ rs) w
  unfolding send_frame schedule new_frame
  send_frame-Appends r rs w filled few =
      let u = update_goodput_ratio net_size cc_enable limit now w in
      let k = ratio-keeps w in
      let f = new_frame net_size cc_enable limit now u r rs false in
      let c =
        calculated net_size cc_enable limit now (record u { queue = u.queue ++ f ∷ [] })
          (All-append (λ (g : PacketFrame). 0 < length g.packets_in_frame) u.queue (f ∷ [])
            (subst IsFilled (sym k.0) filled) (omega arith, tt))
          (omega (
            arith,
            few,
            ap length (queued-append u.queue (f ∷ [])),
            length-append (queued u.queue) (queued (f ∷ [])),
            ap length (append-nil (r ∷ rs)),
            ap (λ q. length (queued q)) k.0,
          )) in
      record {
        next = schedule (record u { queue = u.queue ++ f ∷ []; pacing_interval = c.0 });
        frame = f;
        sends = rw c.1 refl;
        queue = ap (λ q. q ++ f ∷ []) k.0;
        packets = refl;
        unmarked = refl;
        store = k.1;
        scheduled = ap (λ m. m + 1) k.2;
      }
