-- ===== src/Transmit/History/Stored.antt =====
-- `StorePackets` of packet-sender-udp.cc, and the order of the keys.
use zhuge.Prelude.{ℕ, ◌≤◌, ◌≡◌, refl, false, ◌||◌, List, [], ◌∷◌, ◌++◌, some, if◌then◌else◌, arith}
use zhuge.Wire.Lists.{GroupPacketInfo}
use zhuge.Transmit.History.{Kept, look, store}
use zhuge.Transmit.History.Laws.{is_key, member, look-store}
use zhuge.Transmit.History.Runs.{Packets, NoneBefore, Ordered, IsQueue}

pub member-append :
    (g p : ℕ) (ks js : List GroupPacketInfo)
    → member g p (ks ++ js) ≡ (member g p ks || member g p js)
member-append g p [] js = refl
member-append g p (k ∷ ks) js = ground (arith, member-append g p ks js)

-- `k` is a new key, and `r` the newest packet.
module _ (encode : ℕ → ℕ) (k : GroupPacketInfo) (r : ℕ) (m m' : Packets)
    (stored : (g p : ℕ) → look g p m' ≡ (if is_key k g p then some r else look g p m)) where
  look-new :
      (j : GroupPacketInfo) (q : ℕ)
      → is_key j k.group_id k.pkt_in_group ≡ false
      → look j.group_id j.pkt_in_group m' ≡ some q
      → look j.group_id j.pkt_in_group m ≡ some q
  look-new j q h e = ground (arith, stored j.group_id j.pkt_in_group, e, h)

  look_self : look k.group_id k.pkt_in_group m' ≡ some r
  look_self = ground (arith, stored k.group_id k.pkt_in_group)

  NoneBefore-store :
      (t : ℕ) (ks : List GroupPacketInfo)
      → member k.group_id k.pkt_in_group ks ≡ false
      → t ≤ encode r
      → NoneBefore encode t ks m
      → NoneBefore encode t (ks ++ k ∷ []) m'
  NoneBefore-store t [] new l h = (λ q e. ground (arith, l, look_self, e), tt)
  NoneBefore-store t (j ∷ ks) new l h = (
    λ q e. h.0 q (look-new j q (ground (arith, new)) e),
    NoneBefore-store t ks (ground (arith, new)) l h.1,
  )

  Ordered-store :
      (ks : List GroupPacketInfo)
      → member k.group_id k.pkt_in_group ks ≡ false
      → ((g p q : ℕ) → look g p m ≡ some q → encode q ≤ encode r)
      → Ordered encode ks m
      → Ordered encode (ks ++ k ∷ []) m'
  Ordered-store [] new l h = (λ q e. tt, tt)
  Ordered-store (j ∷ ks) new l h = (
    λ q e.
        let e' = look-new j q (ground (arith, new)) e in
        NoneBefore-store (encode q) ks (ground (arith, new)) (l j.group_id j.pkt_in_group q e')
          (h.0 q e'),
    Ordered-store ks (ground (arith, new)) l h.1,
  )

pub store-IsQueue :
    (encode : ℕ → ℕ) (k : GroupPacketInfo) (r : ℕ) (h : Kept)
    → member k.group_id k.pkt_in_group h.key ≡ false
    → ((g p q : ℕ) → look g p h.packets ≡ some q → encode q ≤ encode r)
    → IsQueue encode h
    → IsQueue encode (store k r h)
unfolding store
store-IsQueue encode k r h new l v = record {
  ordered =
      Ordered-store encode k r h.packets (store k r h).packets (look-store k r h) h.key new l
        v.ordered;
  covered = λ g p e.
      ground (arith, look-store k r h g p, member-append g p h.key (k ∷ []), v.covered g p, e);
}
