-- ===== src/Transmit/Batch/Laws.antt =====
-- The two loops of `CreatePacketBatch` of packet-sender-udp.cc, for the batch of a new group.
use mathlib.Core.Path.{subst}
use zhuge.Prelude.{
  ℕ, suc, ◌+◌, ◌<◌, ◌≡◌, refl, sym, ap, ◌∙◌, true, false, List, [], ◌∷◌, some, ◌==◌, length, arith,
  All, Bool-cases, inl, inr,
}
use zhuge.Prelude.Words.{add_w}
use zhuge.Group.{contains}
use zhuge.Transmit.{VideoPacket, Store, modify, set_fec_group, set_fec_batch}
use zhuge.Transmit.History.{is_data}
use zhuge.Transmit.Batch.{Numbers, Next, assign_one, assign}

-- No packet stands twice in a batch.
abbrev pub Distinct : List ℕ → Type 0
Distinct [] = Unit {0}
Distinct (r ∷ rs) = (contains r rs ≡ false) × Distinct rs

-- The packet has the numbers, and the id `k` in its batch and in its group.
pub record IsNumbered (n : Numbers) (k : ℕ) (p : VideoPacket) : Type 0 where
  pub batch_id : p.batch_id ≡ n.batch
  pub batch_data_num : p.batch_data_num ≡ n.batch_data_num
  pub batch_fec_num : p.batch_fec_num ≡ n.batch_fec_num
  pub pkt_id_in_batch : p.pkt_id_in_batch ≡ k
  pub group_id : p.group_id ≡ n.group
  pub group_data_num : p.group_data_num ≡ n.group_data_num
  pub group_fec_num : p.group_fec_num ≡ n.group_fec_num
  pub pkt_id_in_group : p.pkt_id_in_group ≡ k

-- The ids count on from `k`.
abbrev pub Placed : (ℕ → VideoPacket) → Numbers → ℕ → List ℕ → Type 0
Placed at n k [] = Unit {0}
Placed at n k (r ∷ rs) = IsNumbered n k (at r) × Placed at n (suc k) rs

abbrev pub AllData : Store → List ℕ → Type 0
AllData s rs = All (λ r. is_data (s.at r).packet_type ≡ true) rs

after_one : Numbers → ℕ → Next → Next
after_one n r x = record {
  store =
      modify r (set_fec_group n.group n.group_data_num n.group_fec_num x.in_group)
        (modify r (set_fec_batch n.batch n.batch_data_num n.batch_fec_num x.in_batch) x.store);
  in_batch = add_w 16 x.in_batch 1;
  in_group = add_w 16 x.in_group 1;
}

assign_one-new :
    (n : Numbers) (r : ℕ) (x : Next)
    → is_data (x.store.at r).packet_type ≡ true
    → assign_one n true r x ≡ some (after_one n r x)
unfolding assign_one after_one
assign_one-new n r x d = rw d refl

after_one_self :
    (n : Numbers) (r k : ℕ) (x : Next)
    → x.in_batch ≡ k
    → x.in_group ≡ k
    → IsNumbered n k ((after_one n r x).store.at r)
unfolding after_one modify set_fec_group set_fec_batch
after_one_self n r k x b g = record {
  batch_id = ground arith;
  batch_data_num = ground arith;
  batch_fec_num = ground arith;
  pkt_id_in_batch = ground (arith, b);
  group_id = ground arith;
  group_data_num = ground arith;
  group_fec_num = ground arith;
  pkt_id_in_group = ground (arith, g);
}

after_one-other :
    (n : Numbers) (r q : ℕ) (x : Next)
    → (q == r) ≡ false
    → (after_one n r x).store.at q ≡ x.store.at q
unfolding after_one modify
after_one-other n r q x h = ground (arith, h)

AllData-after :
    (n : Numbers) (r : ℕ) (x : Next) (rs : List ℕ)
    → contains r rs ≡ false
    → AllData x.store rs
    → AllData (after_one n r x).store rs
unfolding contains
AllData-after n r x [] h d = tt
AllData-after n r x (q ∷ rs) h d = (
  ap (λ (p : VideoPacket). is_data p.packet_type) (after_one-other n r q x (ground (arith, h)))
      ∙ d.0,
  AllData-after n r x rs (ground (arith, h)) d.1,
)

-- What the ids of a packet leave alone.
pub record IsSame (p q : VideoPacket) : Type 0 where
  pub packet_type : p.packet_type ≡ q.packet_type
  pub payload_size : p.payload_size ≡ q.payload_size
  pub tx_count : p.tx_count ≡ q.tx_count
  pub frame_id : p.frame_id ≡ q.frame_id
  pub encode_time : p.encode_time ≡ q.encode_time

pub IsSame-refl : (p : VideoPacket) → IsSame p p
IsSame-refl p = record {
  packet_type = refl;
  payload_size = refl;
  tx_count = refl;
  frame_id = refl;
  encode_time = refl;
}

pub IsSame-trans : (p q r : VideoPacket) → IsSame p q → IsSame q r → IsSame p r
IsSame-trans p q r a b = record {
  packet_type = a.packet_type ∙ b.packet_type;
  payload_size = a.payload_size ∙ b.payload_size;
  tx_count = a.tx_count ∙ b.tx_count;
  frame_id = a.frame_id ∙ b.frame_id;
  encode_time = a.encode_time ∙ b.encode_time;
}

pub IsSame-modify :
    (r q : ℕ) (f : VideoPacket → VideoPacket) (s : Store)
    → ((p : VideoPacket) → IsSame (f p) p)
    → IsSame ((modify r f s).at q) (s.at q)
unfolding modify
IsSame-modify r q f s h = elim (Bool-cases (q == r)) [
  | inl e ↦ rw e (h (s.at q))
  | inr e ↦ rw e (IsSame-refl (s.at q))
]

after_one-IsSame :
    (n : Numbers) (r q : ℕ) (x : Next) → IsSame ((after_one n r x).store.at q) (x.store.at q)
unfolding after_one set_fec_group set_fec_batch
after_one-IsSame n r q x =
    let batched =
      modify r (set_fec_batch n.batch n.batch_data_num n.batch_fec_num x.in_batch) x.store in
    IsSame-trans
      ((modify r (set_fec_group n.group n.group_data_num n.group_fec_num x.in_group) batched).at q)
      (batched.at q) (x.store.at q)
      (IsSame-modify r q (set_fec_group n.group n.group_data_num n.group_fec_num x.in_group) batched
        (λ p. record {
          packet_type = refl;
          payload_size = refl;
          tx_count = refl;
          frame_id = refl;
          encode_time = refl;
        }))
      (IsSame-modify r q (set_fec_batch n.batch n.batch_data_num n.batch_fec_num x.in_batch) x.store
        (λ p. record {
          packet_type = refl;
          payload_size = refl;
          tx_count = refl;
          frame_id = refl;
          encode_time = refl;
        }))

module _ (n : Numbers) (r k : ℕ) (x : Next) where
  after_id : x.in_batch ≡ k → k < 65535 → (after_one n r x).in_batch ≡ suc k
  unfolding after_one
  after_id b l = omega (arith, b, l)

  after_group : x.in_group ≡ k → k < 65535 → (after_one n r x).in_group ≡ suc k
  unfolding after_one
  after_group g l = omega (arith, g, l)

after_next : (n : Numbers) (r : ℕ) (x : Next) → (after_one n r x).store.next_ref ≡ x.store.next_ref
unfolding after_one modify
after_next n r x = refl

pub record Assigned (n : Numbers) (k : ℕ) (rs : List ℕ) (x : Next) : Type 0 where
  pub next : Next
  pub assigns : assign n true rs x ≡ some next
  pub in_batch : next.in_batch ≡ k + length rs
  pub in_group : next.in_group ≡ k + length rs
  pub next_ref : next.store.next_ref ≡ x.store.next_ref
  pub placed : Placed next.store.at n k rs
  pub others : (q : ℕ) → contains q rs ≡ false → next.store.at q ≡ x.store.at q
  pub same : (q : ℕ) → IsSame (next.store.at q) (x.store.at q)

-- The loop over the data packets.
pub assign-Assigned :
    (n : Numbers) (k : ℕ) (rs : List ℕ) (x : Next)
    → Distinct rs
    → AllData x.store rs
    → x.in_batch ≡ k
    → x.in_group ≡ k
    → k + length rs < 65536
    → Assigned n k rs x
unfolding assign contains
assign-Assigned n k [] x u d b g l = record {
  next = x;
  assigns = refl;
  in_batch = omega (arith, b);
  in_group = omega (arith, g);
  next_ref = refl;
  placed = tt;
  others = λ q h. refl;
  same = λ q. IsSame-refl (x.store.at q);
}
assign-Assigned n k (r ∷ rs) x u d b g l =
    let r' =
      assign-Assigned n (suc k) rs (after_one n r x) u.1 (AllData-after n r x rs u.0 d.1)
        (after_id n r k x b (omega (arith, l))) (after_group n r k x g (omega (arith, l)))
        (omega (arith, l)) in
    record {
      next = r'.next;
      assigns = rw (assign_one-new n r x d.0) r'.assigns;
      in_batch = omega (arith, r'.in_batch);
      in_group = omega (arith, r'.in_group);
      next_ref = r'.next_ref ∙ after_next n r x;
      placed =
          (subst (IsNumbered n k) (sym (r'.others r u.0)) (after_one_self n r k x b g), r'.placed);
      others = λ q h. r'.others q (ground (arith, h)) ∙ after_one-other n r q x (ground (arith, h));
      same = λ q.
          IsSame-trans (r'.next.store.at q) ((after_one n r x).store.at q) (x.store.at q)
            (r'.same q) (after_one-IsSame n r q x);
    }
