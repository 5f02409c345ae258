-- ===== src/Transmit/Fragment.antt =====
-- The loop of `PacketSenderUdp::CreateFrame` of packet-sender-udp.cc, which cuts an encoded frame
-- into data packets. `data_ptr` and `pkt_id` wrap as in the source; `none` means that the fuel ran
-- out before the loop ended.
use mathlib.Core.Path.{subst}
use zhuge.Prelude.{
  ℕ, zero, suc, ◌+◌, ◌-◌, ◌*◌, ◌≤◌, ◌<◌, ◌≡◌, refl, false, List, [], ◌∷◌, Option, none, some, ltb,
  if◌then◌else◌, ◌>>=◌, length, arith, Bool-cases, inl, inr, ◌⊎◌, min, All, ltb→lt, lt→ltb,
}
use zhuge.Prelude.Words.{add_w}
use zhuge.Group.{data_pkt}
use zhuge.Transmit.{VideoPacket, new_packet, new_data_packet}

-- What the loop reads and does not change.
pub record Encoded : Type 0 where
  pub frame_id : ℕ
  pub max_payload : ℕ
  pub pkt_num : ℕ
  pub data_size : ℕ
  pub now : ℕ
  pub unset : ℕ

-- One turn: the packet for the bytes from `data_ptr` on.
unfoldable pub cut : Encoded → ℕ → ℕ → VideoPacket
cut f data_ptr pkt_id = record (new_data_packet f.unset f.frame_id f.pkt_num pkt_id) {
  encode_time = f.now;
  payload_size = min f.max_payload (f.data_size - data_ptr);
}

unfoldable pub fragments : ℕ → Encoded → ℕ → ℕ → Option (List VideoPacket)
fragments zero f data_ptr pkt_id = none
fragments (suc fuel) f data_ptr pkt_id =
    let rest =
      fragments fuel f (add_w 32 data_ptr f.max_payload) (add_w 16 pkt_id 1)
      >>= (λ ps. some (cut f data_ptr pkt_id ∷ ps)) in
    if ltb data_ptr f.data_size then rest else some []

-- The fuel is one more than the turns that the loop can make.
pub create_frame_packets : Encoded → ℕ → Option (List VideoPacket)
create_frame_packets f pkt_id = fragments (suc f.data_size) f 0 pkt_id

abbrev pub payload_total : List VideoPacket → ℕ
payload_total [] = 0
payload_total (p ∷ ps) = p.payload_size + payload_total ps

-- The ids in the frame count on from the first, and wrap.
abbrev pub Numbered : ℕ → List VideoPacket → Type 0
Numbered id [] = Unit {0}
Numbered id (p ∷ ps) = (p.pkt_id_in_frame ≡ id) × Numbered (add_w 16 id 1) ps

-- Packets of one frame that share `left` bytes, each as full as it can be.
pub record Shares (f : Encoded) (left id : ℕ) (ps : List VideoPacket) : Type 0 where
  pub total : payload_total ps ≡ left
  pub sizes : All (λ (p : VideoPacket). (0 < p.payload_size) × (p.payload_size ≤ f.max_payload)) ps
  pub enough : left ≤ length ps * f.max_payload
  pub no_more : length ps * f.max_payload < left + f.max_payload
  pub numbered : Numbered id ps
  pub unsent : All (λ (p : VideoPacket). (p.packet_type ≡ data_pkt) × (p.tx_count ≡ 0)) ps
  pub of_frame :
      All (λ (p : VideoPacket). (p.frame_id ≡ f.frame_id) × (p.frame_pkt_num ≡ f.pkt_num)) ps

suc-mul : (n m : ℕ) → suc n * m ≡ m + n * m
suc-mul n m = grind arith

multiple : (n m : ℕ) → (n * m ≡ 0) ⊎ (m ≤ n * m)
multiple zero m = inl (grind arith)
multiple (suc n) m = inr (omega (arith, suc-mul n m))

module _ (f : Encoded) (positive : 0 < f.max_payload)
    (fits : f.data_size + f.max_payload ≤ 4294967296) where
  Shares-cut :
      (ptr id : ℕ) (ps : List VideoPacket)
      → ptr < f.data_size
      → Shares f (f.data_size - add_w 32 ptr f.max_payload) (add_w 16 id 1) ps
      → Shares f (f.data_size - ptr) id (cut f ptr id ∷ ps)
  unfolding cut new_data_packet new_packet
  Shares-cut ptr id ps more s = record {
    total = omega (arith, s.total);
    sizes = ((omega arith, omega arith), s.sizes);
    enough = omega (arith, s.enough, suc-mul (length ps) f.max_payload);
    no_more =
        omega
          (arith, s.no_more, suc-mul (length ps) f.max_payload, multiple (length ps) f.max_payload);
    numbered = (refl, s.numbered);
    unsent = ((refl, refl), s.unsent);
    of_frame = ((refl, refl), s.of_frame);
  }

  Shares-end : (ptr id : ℕ) → ltb ptr f.data_size ≡ false → Shares f (f.data_size - ptr) id []
  Shares-end ptr id over = record {
    total = ground arith;
    sizes = tt;
    enough = ground arith;
    no_more = ground (arith, over);
    numbered = tt;
    unsent = tt;
    of_frame = tt;
  }

  fragments-Shares :
      (fuel ptr id : ℕ)
      → f.data_size - ptr < fuel
      → (ps : List VideoPacket) × (fragments fuel f ptr id ≡ some ps)
        × Shares f (f.data_size - ptr) id ps
  unfolding fragments
  fragments-Shares zero ptr id h = elim h [ ]
  fragments-Shares (suc fuel) ptr id h = elim (Bool-cases (ltb ptr f.data_size)) [
    | inl more ↦
        let r = fragments-Shares fuel (add_w 32 ptr f.max_payload) (add_w 16 id 1) (ground arith) in
        (cut f ptr id ∷ r.0, rw (more, r.1) refl, Shares-cut ptr id r.0 (ltb→lt _ _ more) r.2)
    | inr over ↦ ([], rw over refl, Shares-end ptr id over)
  ]

  -- The loop of `CreateFrame` ends for every frame when the payload limit is positive and the
  -- frame's size plus the limit is at most 2^32. Its packets' payloads are positive, at most the
  -- limit, and add up to the frame's size; there are no more packets than that takes, so their
  -- number is the size over the limit, rounded up. Each is a data packet that was not sent yet, has
  -- the frame's id and packet number, and the ids in the frame count on from the given id modulo
  -- 2^16.
  pub create_frame_packets-Shares :
      (id : ℕ)
      → (ps : List VideoPacket) × (create_frame_packets f id ≡ some ps) × Shares f f.data_size id ps
  unfolding create_frame_packets
  create_frame_packets-Shares id =
      subst
        (λ n.
          (ps : List VideoPacket) × (fragments (suc f.data_size) f 0 id ≡ some ps)
          × Shares f n id ps)
        (omega arith) (fragments-Shares (suc f.data_size) 0 id (omega arith))

-- With the payload limit zero the loop of `CreateFrame` does not end on a frame that has a byte.
pub fragments-none :
    (f : Encoded)
    → f.max_payload ≡ 0
    → (fuel ptr id : ℕ) → ptr < f.data_size
    → f.data_size < 4294967296
    → fragments fuel f ptr id ≡ none
unfolding fragments
fragments-none f stuck zero ptr id more fits = refl
fragments-none f stuck (suc fuel) ptr id more fits =
    rw
      (
        lt→ltb _ _ more,
        fragments-none f stuck fuel (add_w 32 ptr f.max_payload) (add_w 16 id 1)
            (omega (arith, stuck)) fits,
      )
      refl
