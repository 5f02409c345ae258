-- ===== src/Transmit/Window/Step.antt =====
-- One call of `SendPacket` of packet-sender-udp.cc, and the queue.
use zhuge.Prelude.{
  ℕ, ◌+◌, ◌-◌, ◌/◌, ◌%◌, ◌<◌, ◌≤◌, ◌≡◌, refl, sym, ap, ◌∙◌, Bool, true, false, ◌&&◌, List, [], ◌∷◌,
  ◌++◌, some, ltb, length, length-append, arith, All,
}
use zhuge.Prelude.Words.{add_w}
use zhuge.Transmit.{VideoPacket, PacketFrame, Store, modify}
use zhuge.Transmit.Window.{
  Window, Sums, emit, slide, send_packet, send_from, shorten, schedule, pace_frame, pace,
  calculate_pacing_rate,
}
use zhuge.Transmit.Window.Goodput.{History}
use zhuge.Transmit.Window.Laws.{
  Holds, IsWindow, Holds-drop, Holds-trim, emit-Holds, slid, oldest_at,
}

abbrev pub queued : List PacketFrame → List ℕ
queued [] = []
queued (f ∷ fs) = f.packets_in_frame ++ queued fs

-- No frame of the queue is empty.
abbrev pub IsFilled : List PacketFrame → Type 0
IsFilled fs = All (λ (f : PacketFrame). 0 < length f.packets_in_frame) fs

record Paced (limit now : ℕ) (f : PacketFrame) (left interval : ℕ) : Type 0 where
  next : ℕ × ℕ
  paces : pace_frame limit now f (left, interval) ≡ some next
  no_more : next.1 ≤ interval
  counted : next.0 ≤ left + length f.packets_in_frame

pace_frame-Paced :
    (limit now : ℕ) (f : PacketFrame) (left interval : ℕ)
    → 0 < length f.packets_in_frame
    → left + length f.packets_in_frame < 4294967296
    → Paced limit now f left interval
unfolding pace_frame
pace_frame-Paced limit now f left interval filled l =
    go f.retransmission
      (ltb 0 (limit + f.frame_encode_time - now)
        && ltb ((limit + f.frame_encode_time - now) / add_w 32 left (length f.packets_in_frame))
            interval)
      refl refl
  where
    go :
        (rtx less : Bool)
        → f.retransmission ≡ rtx
        → (ltb 0 (limit + f.frame_encode_time - now)
            && ltb
                ((limit + f.frame_encode_time - now) / add_w 32 left (length f.packets_in_frame))
                interval)
          ≡ less
        → Paced limit now f left interval
    go true less e d = record {
      next = (left, interval);
      paces = rw e refl;
      no_more = omega arith;
      counted = omega arith;
    }
    go false true e d = record {
      next = (
        add_w 32 left (length f.packets_in_frame),
        (limit + f.frame_encode_time - now) / add_w 32 left (length f.packets_in_frame),
      );
      paces = ground (arith, e, d, filled, l);
      no_more = ground (arith, d);
      counted = omega (arith, l);
    }
    go false false e d = record {
      next = (add_w 32 left (length f.packets_in_frame), interval);
      paces = ground (arith, e, d, filled, l);
      no_more = omega arith;
      counted = omega (arith, l);
    }

-- The rate is computed for every queue of filled frames, and the interval does not grow.
pub pace-total :
    (limit now : ℕ) (fs : List PacketFrame) (left interval : ℕ)
    → IsFilled fs
    → left + length (queued fs) < 4294967296
    → (a : ℕ × ℕ) × (pace limit now fs (left, interval) ≡ some a) × (a.1 ≤ interval)
unfolding pace
pace-total limit now [] left interval h l = ((left, interval), refl, omega arith)
pace-total limit now (f ∷ fs) left interval h l =
    let n : length (queued (f ∷ fs)) ≡ length f.packets_in_frame + length (queued fs) =
      length-append f.packets_in_frame (queued fs) in
    let s = pace_frame-Paced limit now f left interval h.0 (omega (arith, n, l)) in
    let r = pace-total limit now fs s.next.0 s.next.1 h.1 (omega (arith, n, l, s.counted)) in
    (r.0, rw s.paces r.1, omega (arith, r.2, s.no_more))

abbrev pub stamp : ℕ → ℕ → VideoPacket → VideoPacket
stamp now id q = record q { send_time = now; global_id = id }

modify-same : (r : ℕ) (f : VideoPacket → VideoPacket) (s : Store) → (modify r f s).at r ≡ f (s.at r)
unfolding modify
modify-same r f s = ground arith

module _ (net_size : VideoPacket → ℕ) (cc_enable : Bool) (limit now : ℕ) where
  -- The first packet of the queue is sent.
  pub record Sends (w : Window) (r : ℕ) (rest : List ℕ) : Type 0 where
    pub next : Window
    pub sends : send_packet net_size cc_enable limit now w ≡ some next
    pub window : IsWindow next
    pub queue : queued next.queue ≡ rest
    pub filled : IsFilled next.queue
    pub store : next.store ≡ modify r (stamp now w.ip_id_counter) w.store
    pub socket : next.socket ≡ stamp now w.ip_id_counter (w.store.at r) ∷ w.socket
    pub counter : next.ip_id_counter ≡ (w.ip_id_counter + 1) % 65536
    pub growth : length next.goodput_wnd ≤ length w.goodput_wnd + 1
    pub scheduled : next.scheduled ≡ w.scheduled + 1
    pub interval : next.pacing_interval ≤ w.pacing_interval
    pub in_time :
        (dropped : List ℕ) × (w.goodput_wnd ++ w.ip_id_counter ∷ [] ≡ dropped ++ next.goodput_wnd)

  record Slides (w : Window) (r : ℕ) : Type 0 where
    sums : Sums
    trimmed : List ℕ × History
    slides :
        slide net_size cc_enable limit now (emit net_size cc_enable limit now r w)
        ≡ some (slid (emit net_size cc_enable limit now r w) sums trimmed)
    window :
        Holds 10000
          ((w.ip_id_counter + 1) % 65536)
          trimmed.1
          trimmed.0
          sums.wnd
          sums.total
          sums.goodput
    dropped : List ℕ
    split : w.goodput_wnd ++ w.ip_id_counter ∷ [] ≡ dropped ++ sums.wnd

  emit-goodput_wnd :
      (w : Window) (r : ℕ)
      → (emit net_size cc_enable limit now r w).goodput_wnd ≡ w.goodput_wnd ++ w.ip_id_counter ∷ []
  unfolding emit
  emit-goodput_wnd w r = refl

  suffix_short :
      (is dropped good : List ℕ) (c : ℕ)
      → is ++ c ∷ [] ≡ dropped ++ good
      → length good ≤ length is + 1
  suffix_short is dropped good c e =
      omega (arith, ap length e, length-append is (c ∷ []), length-append dropped good)

  emit-Slides : (w : Window) (r : ℕ) → IsWindow w → length w.goodput_wnd < 10000 → Slides w r
  unfolding slide
  emit-Slides w r v few =
      let e = emit net_size cc_enable limit now r w in
      let d =
        Holds-drop (emit-Holds net_size cc_enable limit now r w v) (oldest_at now) (omega arith) in
      let split : w.goodput_wnd ++ w.ip_id_counter ∷ [] ≡ d.2.dropped ++ d.0.wnd =
        sym (emit-goodput_wnd w r) ∙ d.2.split in
      let short = suffix_short w.goodput_wnd d.2.dropped d.0.wnd w.ip_id_counter split in
      let t = Holds-trim {limit = 10000} e.send_wnd d.3 (omega (arith, short, few)) in
      record {
        sums = d.0;
        trimmed = t.0;
        slides = rw (d.1, t.1) refl;
        window = t.2;
        dropped = d.2.dropped;
        split = split;
      }

  pub calculated :
      (w : Window)
      → IsFilled w.queue
      → length (queued w.queue) < 4294967296
      → (i : ℕ) × (calculate_pacing_rate limit now w ≡ some (record w { pacing_interval = i }))
        × (i ≤ w.pacing_interval)
  unfolding calculate_pacing_rate
  calculated w h l =
      let a = pace-total limit now w.queue 0 w.pacing_interval h (omega (arith, l)) in
      (a.0.1, rw a.1 refl, a.2)

  -- What `shorten` makes of the queue.
  record Shortens (f : PacketFrame) (rs : List ℕ) (fs : List PacketFrame) (w : Window)
      : Type 0 where
    queue : List PacketFrame
    interval : ℕ
    shortens :
        shorten limit now f rs fs w ≡ some (record w { queue = queue; pacing_interval = interval })
    keeps : queued queue ≡ rs ++ queued fs
    filled : IsFilled queue
    no_more : interval ≤ w.pacing_interval

  shorten-Shortens :
      (f : PacketFrame) (rs : List ℕ) (fs : List PacketFrame) (w : Window)
      → IsFilled fs
      → length (queued fs) < 4294967296
      → Shortens f rs fs w
  unfolding shorten
  shorten-Shortens f [] fs w h l =
      let c = calculated (record w { queue = fs }) h l in
      record { queue = fs; interval = c.0; shortens = c.1; keeps = refl; filled = h; no_more = c.2 }
  shorten-Shortens f (r ∷ rs) fs w h l = record {
    queue = record f { packets_in_frame = r ∷ rs } ∷ fs;
    interval = w.pacing_interval;
    shortens = refl;
    keeps = refl;
    filled = (omega arith, h);
    no_more = omega arith;
  }

  pub send_from-Sends :
      (w : Window) (f : PacketFrame) (fs : List PacketFrame) (r : ℕ) (rs : List ℕ)
      → IsWindow w
      → IsFilled fs
      → length (queued fs) < 4294967296
      → length w.goodput_wnd < 10000
      → send_packet net_size cc_enable limit now w
        ≡ send_from net_size cc_enable limit now f (r ∷ rs) fs w
      → Sends w r (rs ++ queued fs)
  unfolding send_from schedule emit
  send_from-Sends w f fs r rs v h l few e =
      let s = emit-Slides w r v few in
      let g = slid (emit net_size cc_enable limit now r w) s.sums s.trimmed in
      let q = shorten-Shortens f rs fs g h l in
      record {
        next = schedule (record g { queue = q.queue; pacing_interval = q.interval });
        sends = e ∙ rw (s.slides, q.shortens) refl;
        window = s.window;
        queue = q.keeps;
        filled = q.filled;
        store = refl;
        socket = ap (λ p. p ∷ w.socket) (modify-same r (stamp now w.ip_id_counter) w.store);
        counter = refl;
        growth = suffix_short w.goodput_wnd s.dropped s.sums.wnd w.ip_id_counter s.split;
        scheduled = refl;
        interval = q.no_more;
        in_time = (s.dropped, s.split);
      }
