-- ===== src/Transmit/Frames/Ready.antt =====
-- The packets of a new frame that wait for their group in `SendPackets` of packet-sender-udp.cc.
use zhuge.Prelude.{ℕ, ◌<◌, ◌≤◌, ◌≡◌, ap, ◌∙◌, true, List, [], ◌∷◌, ◌++◌, arith}
use zhuge.Transmit.{Store}
use zhuge.Transmit.History.{is_data}
use zhuge.Transmit.Batch.Laws.{Distinct, AllData, IsSame}
use zhuge.Transmit.Batch.First.{Below}
use zhuge.Transmit.Frames.Parts.{Distinct-left, Distinct-right, All-left, All-right}

-- Packets of the frame that wait for their batch: each once, data packets, below `n`.
pub record IsReady (n : ℕ) (s : Store) (rs : List ℕ) : Type 0 where
  pub distinct : Distinct rs
  pub all_data : AllData s rs
  pub old : Below n rs
  pub room : n ≤ s.next_ref

pub AllData-same :
    (s t : Store) (n : ℕ) (rs : List ℕ)
    → ((q : ℕ) → q < n → IsSame (t.at q) (s.at q))
    → Below n rs
    → AllData s rs
    → AllData t rs
AllData-same s t n [] same b d = tt
AllData-same s t n (r ∷ rs) same b d =
    (ap is_data (same r b.0).packet_type ∙ d.0, AllData-same s t n rs same b.1 d.1)

module _ (n : ℕ) where
  pub IsReady-left : (s : Store) (rs qs : List ℕ) → IsReady n s (rs ++ qs) → IsReady n s rs
  IsReady-left s rs qs h = record {
    distinct = Distinct-left rs qs h.distinct;
    all_data = All-left (λ r. is_data (s.at r).packet_type ≡ true) rs qs h.all_data;
    old = All-left (λ r. r < n) rs qs h.old;
    room = h.room;
  }

  pub IsReady-right :
      (s t : Store) (rs qs : List ℕ)
      → ((q : ℕ) → q < n → IsSame (t.at q) (s.at q))
      → s.next_ref ≤ t.next_ref
      → IsReady n s (rs ++ qs)
      → IsReady n t qs
  IsReady-right s t rs qs same l h = record {
    distinct = Distinct-right rs qs h.distinct;
    all_data =
        AllData-same s t n qs same (All-right (λ r. r < n) rs qs h.old)
          (All-right (λ r. is_data (s.at r).packet_type ≡ true) rs qs h.all_data);
    old = All-right (λ r. r < n) rs qs h.old;
    room = omega (arith, h.room, l);
  }
