-- ===== src/Transmit/Window/Drain.antt =====
-- `SendPacket` of packet-sender-udp.cc, called until the queue is empty. Pacing is off, as in the
-- constructor, so each call schedules the next one for the same time.
use mathlib.Core.Path.{subst}
use zhuge.Prelude.{
  ℕ, zero, suc, ◌+◌, ◌%◌, ◌<◌, ◌≤◌, ◌≡◌, refl, sym, ap, ◌∙◌, Bool, List, [], ◌∷◌, ◌++◌, Option,
  some, ◌>>=◌, length, length-append, arith,
}
use zhuge.Transmit.{VideoPacket, PacketFrame, Store, modify}
use zhuge.Transmit.Window.{Window, send_packet, send_first, send_from}
use zhuge.Transmit.Window.Laws.{IsWindow}
use zhuge.Transmit.Window.Step.{queued, IsFilled, stamp, Sends, send_from-Sends}

-- The packets on the wire, the last first, if they are sent in the order of `rs` and take the ids
-- from `id` on.
abbrev pub on_wire : ℕ → ℕ → List ℕ → Store → List VideoPacket → List VideoPacket
on_wire now id [] s out = out
on_wire now id (r ∷ rs) s out =
    on_wire now ((id + 1) % 65536) rs (modify r (stamp now id) s) (stamp now id (s.at r) ∷ out)

module _ (net_size : VideoPacket → ℕ) (cc_enable : Bool) (limit now : ℕ) where
  unfoldable pub drain : ℕ → Window → Option Window
  drain zero w = some w
  drain (suc n) w = send_packet net_size cc_enable limit now w >>= drain n

  -- `SendPacket` on a queue whose first frame has a packet sends that packet, with the next global id
  -- and the time, and takes it from the queue. The windows stay consistent: the send window has the
  -- last ids in order, at most 10000, and the history their packets; the goodput window is the end of
  -- the send window, less its oldest packets; the two sums are the sizes of its packets. No frame of
  -- the queue becomes empty, the counter goes up by one modulo 2^16, one more call is scheduled, and
  -- the pacing interval does not grow. Before, the windows are consistent, no other frame is empty,
  -- the others have fewer than 2^32 packets, and the goodput window has fewer than 10000.
  pub send_packet-Sends :
      (w : Window) (f : PacketFrame) (fs : List PacketFrame) (r : ℕ) (rs : List ℕ)
      → w.queue ≡ f ∷ fs
      → f.packets_in_frame ≡ r ∷ rs
      → IsWindow w
      → IsFilled fs
      → length (queued fs) < 4294967296
      → length w.goodput_wnd < 10000
      → Sends net_size cc_enable limit now w r (rs ++ queued fs)
  unfolding send_packet send_first
  send_packet-Sends w f fs r rs e d v h l few =
      send_from-Sends net_size cc_enable limit now w f fs r rs v h l few (
        ap (λ q. send_first net_size cc_enable limit now q w) e
        ∙ ap (λ is. send_from net_size cc_enable limit now f is fs w) d)

  -- The result of sending all of `rs`.
  pub record Drains (w : Window) (rs : List ℕ) : Type 0 where
    pub last : Window
    pub drains : drain (length rs) w ≡ some last
    pub empty : last.queue ≡ []
    pub window : IsWindow last
    pub socket : last.socket ≡ on_wire now w.ip_id_counter rs w.store w.socket

  drain-next :
      (w : Window) (r : ℕ) (rs : List ℕ) (s : Sends net_size cc_enable limit now w r rs)
      → Drains s.next rs
      → Drains w (r ∷ rs)
  unfolding drain
  drain-next w r rs s d = record {
    last = d.last;
    drains = rw s.sends d.drains;
    empty = d.empty;
    window = d.window;
    socket =
        d.socket
        ∙ ap (λ id. on_wire now id rs s.next.store s.next.socket) s.counter
        ∙ ap (λ t. on_wire now ((w.ip_id_counter + 1) % 65536) rs t s.next.socket) s.store
        ∙ ap
            (on_wire now ((w.ip_id_counter + 1) % 65536) rs
              (modify r (stamp now w.ip_id_counter) w.store))
            s.socket;
  }

  -- A queue of filled frames starts with a packet, if it has one.
  first_frame :
      (fs : List PacketFrame) (r : ℕ) (rs : List ℕ)
      → IsFilled fs
      → queued fs ≡ r ∷ rs
      → (f : PacketFrame) × (gs : List PacketFrame) × (is : List ℕ) × (fs ≡ f ∷ gs)
        × (f.packets_in_frame ≡ r ∷ is)
        × IsFilled gs
        × (rs ≡ is ++ queued gs)
  first_frame [] r rs h e = absurd (cc)
  first_frame (f ∷ gs) r rs h e = go f.packets_in_frame refl h.0 e
    where
      go :
          (is : List ℕ)
          → f.packets_in_frame ≡ is
          → 0 < length is
          → is ++ queued gs ≡ r ∷ rs
          → (f' : PacketFrame) × (gs' : List PacketFrame) × (is' : List ℕ) × (f ∷ gs ≡ f' ∷ gs')
            × (f'.packets_in_frame ≡ r ∷ is')
            × IsFilled gs'
            × (rs ≡ is' ++ queued gs')
      go [] d l q = absurd (omega arith)
      go (i ∷ is) d l q = (f, gs, is, refl, d ∙ cc (q), h.1, cc (q))

  empty-queue : (fs : List PacketFrame) → IsFilled fs → queued fs ≡ [] → fs ≡ []
  empty-queue [] h e = refl
  empty-queue (f ∷ fs) h e =
      absurd (omega (arith, ap length e, length-append f.packets_in_frame (queued fs), h.0))

  -- `SendPacket`, called as often as the queue has packets, sends them all, in the order of the queue
  -- and under consecutive global ids modulo 2^16, and leaves the queue empty. No call fails, and the
  -- windows stay consistent. Before, the windows are consistent, no frame of the queue is empty, and
  -- the goodput window and the queue together have at most 10000 packets.
  pub drain-Drains :
      (w : Window) (rs : List ℕ)
      → queued w.queue ≡ rs
      → IsWindow w
      → IsFilled w.queue
      → length w.goodput_wnd + length rs ≤ 10000
      → Drains w rs
  unfolding drain
  drain-Drains w [] e v h few = record {
    last = w;
    drains = refl;
    empty = empty-queue w.queue h e;
    window = v;
    socket = refl;
  }
  drain-Drains w (r ∷ rs) e v h few =
      let q = first_frame w.queue r rs h e in
      let s : Sends net_size cc_enable limit now w r rs =
        subst (Sends net_size cc_enable limit now w r) (sym q.6) (
          send_packet-Sends w q.0 q.1 r q.2 q.3 q.4 v q.5
            (omega (arith, few, ap length q.6, length-append q.2 (queued q.1)))
            (omega (arith, few))) in
      drain-next w r rs s
        (drain-Drains s.next rs s.queue s.window s.filled (omega (arith, few, s.growth)))
