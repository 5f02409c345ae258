-- ===== src/Zhuge/Frame.antt =====
-- What an operation that is not about ACKs leaves alone.
use zhuge.Prelude.{◌≡◌, refl, Option, none, some, ◌∙◌}
use zhuge.Delay.Sample
use zhuge.Zhuge.{State}

-- Two states that hold the same of the ACKs and of the set-up; the recorded changes stay in range.
pub record KeepsAcks (s s' : State) : Type 0 where
  pub config : s'.config ≡ s.config
  pub first : s'.is_first_ack ≡ s.is_first_ack
  pub arrv : s'.last_ack_arrv ≡ s.last_ack_arrv
  pub sent : s'.last_ack_sent ≡ s.last_ack_sent
  pub delta : Sample.IsValid s.delta_ack_delay → Sample.IsValid s'.delta_ack_delay

pub KeepsAcks-refl : (s : State) → KeepsAcks s s
KeepsAcks-refl s = record { config = refl; first = refl; arrv = refl; sent = refl; delta = λ v. v }

abbrev pub Kept : State → Option State → Type 0
Kept s none = ⊥
Kept s (some s') = KeepsAcks s s'

pub KeepsAcks-trans : (s t u : State) → KeepsAcks s t → KeepsAcks t u → KeepsAcks s u
KeepsAcks-trans s t u h k = record {
  config = k.config ∙ h.config;
  first = k.first ∙ h.first;
  arrv = k.arrv ∙ h.arrv;
  sent = k.sent ∙ h.sent;
  delta = λ v. k.delta (h.delta v);
}
