-- ===== src/Transmit/History/Laws.antt =====
-- The operations on the history of packet-sender-udp.cc, as changes of a set of packets.
use zhuge.Prelude.{
  ℕ, ◌≡◌, refl, ap, Bool, true, false, ◌&&◌, ◌||◌, List, [], ◌∷◌, none, some, ◌==◌, if◌then◌else◌,
  ◌>>=◌, arith, Bool-cases, Option-cases, inl, inr, ==_iff,
}
use zhuge.Wire.Lists.{GroupPacketInfo}
use zhuge.Group.{find, put, erase}
use zhuge.Group.Sets.{find-put, find-erase}
use zhuge.Transmit.History.{Kept, look, group_or_empty, store, put_or_erase, remove}

abbrev pub is_key : GroupPacketInfo → ℕ → ℕ → Bool
is_key k g p = (g == k.group_id) && (p == k.pkt_in_group)

abbrev pub member : ℕ → ℕ → List GroupPacketInfo → Bool
member g p [] = false
member g p (k ∷ ks) = is_key k g p || member g p ks

pub look-store :
    (k : GroupPacketInfo) (r : ℕ) (h : Kept) (g p : ℕ)
    → look g p (store k r h).packets ≡ (if is_key k g p then some r else look g p h.packets)
unfolding look store group_or_empty find
look-store k r h g p =
    rw
      (find-put g k.group_id (put k.pkt_in_group r (group_or_empty k.group_id h.packets)) h.packets)
      (elim (Bool-cases (g == k.group_id)) [
        | inl same ↦
            rw (same, find-put p k.pkt_in_group r (group_or_empty k.group_id h.packets))
              (ground (arith, (==_iff g k.group_id).0 same))
        | inr other ↦ rw other refl
      ])

look-put_or_erase :
    (g j p : ℕ) (inner : List (ℕ × ℕ)) (m : List (ℕ × List (ℕ × ℕ)))
    → look j p (put_or_erase g inner m) ≡ (if j == g then find p inner else look j p m)
unfolding look put_or_erase find
look-put_or_erase g j p [] m = rw (find-erase j g m) (ground arith)
look-put_or_erase g j p (e ∷ inner) m = rw (find-put j g (e ∷ inner) m) (ground arith)

remove-none :
    (k : GroupPacketInfo) (m : List (ℕ × List (ℕ × ℕ))) → find k.group_id m ≡ none → remove k m ≡ m
unfolding remove
remove-none k m e = ground (arith, e)

remove-some :
    (k : GroupPacketInfo) (m : List (ℕ × List (ℕ × ℕ))) (inner : List (ℕ × ℕ))
    → find k.group_id m ≡ some inner
    → remove k m ≡ put_or_erase k.group_id (erase k.pkt_in_group inner) m
unfolding remove
remove-some k m inner e = ground (arith, e)

look-same :
    (g j p : ℕ) (m : List (ℕ × List (ℕ × ℕ))) → (g == j) ≡ true → look g p m ≡ (find j m >>= find p)
unfolding look
look-same g j p m same = ap (λ i. find i m >>= find p) ((==_iff g j).0 same)

pub look-remove :
    (k : GroupPacketInfo) (m : List (ℕ × List (ℕ × ℕ))) (g p : ℕ)
    → look g p (remove k m) ≡ (if is_key k g p then none else look g p m)
look-remove k m g p = elim (Option-cases (find k.group_id m)) [
  | inl gone ↦ ground (arith, remove-none k m gone, gone, look-same g k.group_id p m)
  | inr found ↦ ground (
    arith,
    found.1,
    remove-some k m found.0 found.1,
    look-same g k.group_id p m,
    look-put_or_erase k.group_id g p (erase k.pkt_in_group found.0) m,
    find-erase p k.pkt_in_group found.0,
  )
]
