-- ===== src/Group/Frames/Laws.antt =====
-- The batches of a `PacketGroup` of packet-group.cc under `AddPacket`.
use mathlib.Core.Path.{subst}
use zhuge.Prelude.{
  ℕ, ◌≡◌, refl, ap, sym, ◌∙◌, Bool, true, false, ◌||◌, List, Option, none, some, ◌==◌,
  if◌then◌else◌, Bool-cases, ◌⊎◌, inl, inr, >>=-eq-some, some_inj, ==_iff,
}
use zhuge.Group.{VideoPacket, contains, has_key, find}
use zhuge.Group.Sets.{has_key-put, find-put, find-erase}
use zhuge.Group.Batch.{PacketBatch, add_packet, new_batch, hand_over}
use zhuge.Group.Batch.Recover.{IsSettled, DigestsDiffer, new_batch-IsSettled}
use zhuge.Group.Batch.Laws.{IsBegin, hand_over-Unique}
use zhuge.Group.Frames.{
  PacketGroup, new_group, statistics, batch_with, store, is_useless, decode, group_add,
}
use zhuge.Group.Frames.Statistics.{core, statistics-core}

-- Nothing waits in an incomplete batch, and no batch is both complete and incomplete.
pub record IsValid (g : PacketGroup) : Type 0 where
  pub settled : (id : ℕ) (b : PacketBatch) → find id g.incomplete_batches ≡ some b → IsSettled b
  pub disjoint :
      (id : ℕ) → has_key id g.complete_batches ≡ true → find id g.incomplete_batches ≡ none

-- A group starts without batches.
pub new_group-IsValid : (unset i n t : ℕ) → IsValid (new_group unset i n t)
unfolding new_group find has_key
new_group-IsValid unset i n t = record { settled = λ id b q. absurd cc; disjoint = λ id q. refl }

module _ (begin : List (ℕ × VideoPacket) → Option VideoPacket) (law : IsBegin begin) where
  core-IsValid : (g h : PacketGroup) → core h ≡ core g → IsValid g → IsValid h
  core-IsValid g h e v = record {
    settled = λ id b q. v.settled id b (sym (ap (λ c. find id c.incomplete) e) ∙ q);
    disjoint = λ id q.
        ap (λ c. find id c.incomplete) e
        ∙ v.disjoint id (sym (ap (λ c. has_key id c.complete) e) ∙ q);
  }

  -- A batch that stays incomplete is put back, and one that is complete moves.
  store-IsValid :
      (g : PacketGroup) (id : ℕ) (b : PacketBatch) (out : List VideoPacket) (complete : Bool)
      → has_key id g.complete_batches ≡ false
      → (complete ≡ false → IsSettled b)
      → IsValid g
      → IsValid (store g id b out complete)
  unfolding store
  store-IsValid g id b out true new s v = record {
    settled = λ j c q. left j c (j == id) (sym (find-erase j id g.incomplete_batches) ∙ q);
    disjoint = λ j q.
        find-erase j id g.incomplete_batches
        ∙ gone j (j == id) (sym (has_key-put j id b g.complete_batches) ∙ q);
  }
    where
      left :
          (j : ℕ) (c : PacketBatch) (x : Bool)
          → (if x then none else find j g.incomplete_batches) ≡ some c
          → IsSettled c
      left j c true q = absurd cc
      left j c false q = v.settled j c q

      gone :
          (j : ℕ) (x : Bool)
          → (x || has_key j g.complete_batches) ≡ true
          → (if x then none else find j g.incomplete_batches) ≡ none
      gone j true q = refl
      gone j false q = v.disjoint j q
  store-IsValid g id b out false new s v = record {
    settled = λ j c q. pick j c (j == id) (sym (find-put j id b g.incomplete_batches) ∙ q);
    disjoint = λ j q. find-put j id b g.incomplete_batches ∙ apart j q (Bool-cases (j == id));
  }
    where
      pick :
          (j : ℕ) (c : PacketBatch) (x : Bool)
          → (if x then some b else find j g.incomplete_batches) ≡ some c
          → IsSettled c
      pick j c true q = subst IsSettled (some_inj q) (s refl)
      pick j c false q = v.settled j c q

      apart :
          (j : ℕ)
          → has_key j g.complete_batches ≡ true
          → ((j == id) ≡ true) ⊎ ((j == id) ≡ false)
          → (if j == id then some b else find j g.incomplete_batches) ≡ none
      apart j q (inl same) =
          absurd (ne (subst (λ k. has_key k g.complete_batches ≡ true) ((==_iff j id).0 same) q))
        where
          ne : has_key id g.complete_batches ≡ true → ⊥
          ne k = cc
      apart j q (inr other) = rw other (v.disjoint j q)

  -- The batch of a packet is one in which nothing waits, with the packet added.
  IsSettled-number :
      (b : PacketBatch) (n : ℕ) → IsSettled b → IsSettled (record b { group_fec_num = n })
  IsSettled-number b n h =
      (record { waiting = h.0.waiting; known = h.0.known; differ = h.0.differ }, h.1)

  batch_with-IsSettled :
      (g : PacketGroup) (p : VideoPacket) (b : PacketBatch)
      → IsValid g
      → batch_with g p ≡ some b
      → (b₀ : PacketBatch) × IsSettled b₀ × (add_packet b₀ p ≡ b)
  unfolding batch_with
  batch_with-IsSettled g p b v e = go (find p.batch_id g.incomplete_batches) refl e
    where
      go :
          (o : Option PacketBatch)
          → find p.batch_id g.incomplete_batches ≡ o
          → (elim o [
            | none ↦ new_batch g.group_id g.data_num g.fec_num p
            | some b₀ ↦ some (add_packet (record b₀ { group_fec_num = g.fec_num }) p)
          ])
            ≡ some b
          → (b₀ : PacketBatch) × IsSettled b₀ × (add_packet b₀ p ≡ b)
      go none at q = new_batch-IsSettled g.group_id g.data_num g.fec_num p q
      go (some b₀) at q = (
        record b₀ { group_fec_num = g.fec_num },
        IsSettled-number b₀ g.fec_num (v.settled p.batch_id b₀ at),
        some_inj q,
      )

  decode-IsValid :
      (g : PacketGroup) (now : ℕ) (p : VideoPacket) (g' : PacketGroup)
      → has_key p.batch_id g.complete_batches ≡ false
      → DigestsDiffer p
      → IsValid g
      → decode begin g now p ≡ some g'
      → IsValid g'
  unfolding decode
  decode-IsValid g now p g' new d v e =
      let m = >>=-eq-some (batch_with g p) _ e in
      let n = >>=-eq-some (hand_over begin m.0 now) _ m.2 in
      let s = batch_with-IsSettled g p m.0 v m.1 in
      let u =
        hand_over-Unique begin law s.0 now p s.1 d (ap (λ b. hand_over begin b now) s.2 ∙ n.1) in
      subst IsValid (some_inj n.2) (store-IsValid g p.batch_id n.0.0 n.0.1 n.0.2 new u.2 v)

  -- Where nothing waits in an incomplete batch of a group and no batch is both complete and
  -- incomplete, the same holds after the group has taken a packet, whose digests, if it has any,
  -- name different packets.
  pub group_add-IsValid :
      (g : PacketGroup) (now : ℕ) (p : VideoPacket) {g' : PacketGroup}
      → DigestsDiffer p
      → IsValid g
      → group_add begin g now p ≡ some g'
      → IsValid g'
  unfolding group_add is_useless
  group_add-IsValid g now p {g'} d v e =
      pick (has_key p.batch_id h.complete_batches) (contains p.pkt_id_in_group h.decoded_pkts)
        (λ new q. decode-IsValid h now p g' new d w q) e
    where
      h : PacketGroup
      h = statistics g p

      w : IsValid h
      w = core-IsValid g h (statistics-core g p) v

      pick :
          (x y : Bool)
          → (x ≡ false → decode begin h now p ≡ some g' → IsValid g')
          → (if x || y then some h else decode begin h now p) ≡ some g'
          → IsValid g'
      pick true y k q = subst IsValid (some_inj q) w
      pick false true k q = subst IsValid (some_inj q) w
      pick false false k q = k refl q
