-- ===== src/Sender/Invariant.antt =====
-- The invariant of `SenderBasedController`.
use zhuge.Prelude.{
  ℕ, ◌+◌, ◌%◌, ◌^◌, ◌≤◌, ◌≡◌, refl, true, List, [], ◌∷◌, ◌++◌, some, arith, length, All,
}
use zhuge.Sender.{PacketRecord, Controller, new_controller, new_inter_loss, last_record}

-- The sequence numbers run one by one, modulo 2^16, and end at `last`.
abbrev pub Consecutive : ℕ → List PacketRecord → Type 0
Consecutive last [] = Unit {0}
Consecutive last (p ∷ []) = p.sequence ≡ last
Consecutive last (p ∷ q ∷ ps) = (q.sequence ≡ (p.sequence + 1) % 2 ^ 16) × Consecutive last (q ∷ ps)

-- A record that has not been acknowledged has no delays yet.
abbrev pub IsUnacked : PacketRecord → Type 0
IsUnacked p = (p.owd_us ≡ 0) × (p.rtt_us ≡ 0)

unfoldable pub total_size : List PacketRecord → ℕ
total_size [] = 0
total_size (p ∷ ps) = p.size + total_size ps

pub record IsValid (s : Controller) : Type 0 where
  pub run : Consecutive s.last_sequence s.in_transit_packets
  pub unacked : All IsUnacked s.in_transit_packets
  pub first : s.first_send ≡ true → s.in_transit_packets ≡ []
  pub total : s.pkt_size_sum ≡ total_size s.packet_history % 2 ^ 32
  pub intervals : (1 ≤ length s.il_state.intervals) × (length s.il_state.intervals ≤ 9)

pub new_controller-IsValid : IsValid new_controller
unfolding new_controller new_inter_loss total_size
new_controller-IsValid = record {
  run = tt;
  unacked = tt;
  first = λ h. refl;
  total = refl;
  intervals = (omega arith, omega arith);
}

-- The tail of a run is a run.
pub Consecutive-tail :
    (last : ℕ) (p : PacketRecord) (ps : List PacketRecord)
    → Consecutive last (p ∷ ps)
    → Consecutive last ps
Consecutive-tail last p [] h = tt
Consecutive-tail last p (q ∷ ps) h = h.1

-- A run grows by the next number.
pub Consecutive-append :
    (last : ℕ) (ps : List PacketRecord) (q : PacketRecord)
    → q.sequence ≡ (last + 1) % 2 ^ 16
    → Consecutive last ps
    → Consecutive q.sequence (ps ++ q ∷ [])
Consecutive-append last [] q e h = refl
Consecutive-append last (p ∷ []) q e h = (rw h e, refl)
Consecutive-append last (p ∷ r ∷ ps) q e h = (h.0, Consecutive-append last (r ∷ ps) q e h.1)

-- The last number of a run that is not empty.
pub last_record-Consecutive :
    (last : ℕ) (p : PacketRecord) (ps : List PacketRecord)
    → Consecutive last (p ∷ ps)
    → (b : PacketRecord) × (last_record (p ∷ ps) ≡ some b) × (b.sequence ≡ last)
unfolding last_record
last_record-Consecutive last p [] h = (p, refl, h)
last_record-Consecutive last p (q ∷ ps) h = last_record-Consecutive last q ps h.1
