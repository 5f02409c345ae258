-- ===== src/Transmit/Frames/Blocks.antt =====
-- The groups of a new frame in packet-sender-udp.cc: each has data packets and then the FEC packets
-- that protect them.
use mathlib.Core.Path.{subst}
use zhuge.Prelude.{
  ℕ, suc, ◌≡◌, refl, sym, ap, ap₂, ◌∙◌, List, [], ◌∷◌, ◌++◌, append_assoc, length, All, ◌==◌, true,
  false, ◌<◌, Bool-cases, inl, inr,
}
use zhuge.Group.{contains}
use zhuge.Wire.Lists.{DataPktDigest}
use zhuge.Transmit.{VideoPacket, Store, deref, digest, digests, modify}
use zhuge.Transmit.Batch.{Numbers}
use zhuge.Transmit.Batch.Laws.{IsNumbered, Placed}
use zhuge.Transmit.Batch.First.{Covers}
use zhuge.Transmit.Frames.{Asked, FecParam, set_enqueue}
use zhuge.Transmit.Frames.Parts.{All-left, All-right, Apart}

-- The packets differ at most in the time at which they were queued.
abbrev pub Agrees : VideoPacket → VideoPacket → Type 0
Agrees p q = (τ : ℕ) × (p ≡ record q { enqueue_time = τ })

pub Agrees-refl : (p q : VideoPacket) → p ≡ q → Agrees p q
Agrees-refl p q e = (q.enqueue_time, e)

pub IsNumbered-Agrees :
    (n : Numbers) (k : ℕ) (p q : VideoPacket) → Agrees p q → IsNumbered n k q → IsNumbered n k p
IsNumbered-Agrees n k p q (τ, e) h = subst (IsNumbered n k) (sym e) (record {
  batch_id = h.batch_id;
  batch_data_num = h.batch_data_num;
  batch_fec_num = h.batch_fec_num;
  pkt_id_in_batch = h.pkt_id_in_batch;
  group_id = h.group_id;
  group_data_num = h.group_data_num;
  group_fec_num = h.group_fec_num;
  pkt_id_in_group = h.pkt_id_in_group;
})

Covers-Agrees :
    (now : ℕ) (ds : List DataPktDigest) (p q : VideoPacket)
    → Agrees p q
    → Covers now ds q
    → Covers now ds p
Covers-Agrees now ds p q (τ, e) h = subst (Covers now ds) (sym e) (h.0, h.1, h.2)

digest-Agrees : (p q : VideoPacket) → Agrees p q → digest p ≡ digest q
unfolding digest
digest-Agrees p q (τ, e) = ap digest e

-- Every packet of a list agrees in two stores.
abbrev pub AllAgree : Store → Store → List ℕ → Type 0
AllAgree t s rs = All (λ (q : ℕ). Agrees (t.at q) (s.at q)) rs

pub digests-Agrees :
    (s t : Store) (rs : List ℕ) → AllAgree t s rs → digests (deref t rs) ≡ digests (deref s rs)
unfolding digests deref
digests-Agrees s t [] a = refl
digests-Agrees s t (r ∷ rs) a =
    ap₂ (λ d ds. d ∷ ds) (digest-Agrees (t.at r) (s.at r) a.0) (digests-Agrees s t rs a.1)

pub Covers-AllAgree :
    (now : ℕ) (ds : List DataPktDigest) (s t : Store) (fs : List ℕ)
    → AllAgree t s fs
    → All (λ (q : ℕ). Covers now ds (s.at q)) fs
    → All (λ (q : ℕ). Covers now ds (t.at q)) fs
Covers-AllAgree now ds s t [] a h = tt
Covers-AllAgree now ds s t (f ∷ fs) a h =
    (Covers-Agrees now ds (t.at f) (s.at f) a.0 h.0, Covers-AllAgree now ds s t fs a.1 h.1)

Placed-Agrees :
    (s t : Store) (n : Numbers) (k : ℕ) (rs : List ℕ)
    → AllAgree t s rs
    → Placed s.at n k rs
    → Placed t.at n k rs
Placed-Agrees s t n k [] a h = tt
Placed-Agrees s t n k (r ∷ rs) a h =
    (IsNumbered-Agrees n k (t.at r) (s.at r) a.0 h.0, Placed-Agrees s t n (suc k) rs a.1 h.1)

-- Queueing a packet changes nothing else of it.
pub set_enqueue-Agrees :
    (now : ℕ) (rs : List ℕ) (s : Store) (q : ℕ) → Agrees ((set_enqueue now rs s).at q) (s.at q)
unfolding set_enqueue modify
set_enqueue-Agrees now [] s q = ((s.at q).enqueue_time, refl)
set_enqueue-Agrees now (r ∷ rs) s q =
    let f = λ (p : VideoPacket). record p { enqueue_time = now } in
    let a = set_enqueue-Agrees now rs (modify r f s) q in
    let one : (q == r) ≡ true → (modify r f s).at q ≡ f (s.at q) = λ same. rw same refl in
    let two : (q == r) ≡ false → (modify r f s).at q ≡ s.at q = λ other. rw other refl in
    elim (Bool-cases (q == r)) [
      | inl same ↦ (a.0, a.1 ∙ ap (λ (p : VideoPacket). record p { enqueue_time = a.0 }) (one same))
      | inr other ↦
          (a.0, a.1 ∙ ap (λ (p : VideoPacket). record p { enqueue_time = a.0 }) (two other))
    ]

pub AllAgree-pointwise :
    (s t : Store) (rs : List ℕ) → ((q : ℕ) → Agrees (t.at q) (s.at q)) → AllAgree t s rs
AllAgree-pointwise s t [] h = tt
AllAgree-pointwise s t (r ∷ rs) h = (h r, AllAgree-pointwise s t rs h)

-- What changes no packet below `m` but those of `qs` leaves the packets apart from them.
pub AllAgree-Apart :
    (s t : Store) (m : ℕ) (qs rs : List ℕ)
    → ((q : ℕ) → q < m → contains q qs ≡ false → t.at q ≡ s.at q)
    → Apart m qs rs
    → AllAgree t s rs
AllAgree-Apart s t m qs [] h a = tt
AllAgree-Apart s t m qs (r ∷ rs) h a =
    (Agrees-refl (t.at r) (s.at r) (h r a.0.0 a.0.1), AllAgree-Apart s t m qs rs h a.1)

-- The packets of groups, each given by its data packets and its FEC packets, and the data packets.
abbrev pub packets_of : List (List ℕ × List ℕ) → List ℕ
packets_of [] = []
packets_of (b ∷ bs) = (b.0 ++ b.1) ++ packets_of bs

abbrev pub data_of : List (List ℕ × List ℕ) → List ℕ
data_of [] = []
data_of (b ∷ bs) = b.0 ++ data_of bs

pub packets_of-append :
    (bs cs : List (List ℕ × List ℕ)) → packets_of (bs ++ cs) ≡ packets_of bs ++ packets_of cs
packets_of-append [] cs = refl
packets_of-append (b ∷ bs) cs =
    ap (λ qs. (b.0 ++ b.1) ++ qs) (packets_of-append bs cs)
    ∙ sym (append_assoc (b.0 ++ b.1) (packets_of bs) (packets_of cs))

pub data_of-append :
    (bs cs : List (List ℕ × List ℕ)) → data_of (bs ++ cs) ≡ data_of bs ++ data_of cs
data_of-append [] cs = refl
data_of-append (b ∷ bs) cs =
    ap (λ qs. b.0 ++ qs) (data_of-append bs cs) ∙ sym (append_assoc b.0 (data_of bs) (data_of cs))

module _ (policy : Asked → FecParam) (now : ℕ) where
  -- A group: the policy asks for the number of FEC packets, all packets have the group's numbers and
  -- count on, and each FEC packet has the digests of the data packets and was made now.
  pub record Block (t : Store) (ds fs : List ℕ) : Type 0 where
    pub asked : Asked
    pub count : length fs ≡ (policy asked).fec_count (length ds)
    pub numbers : Numbers
    pub batch_data_num : numbers.batch_data_num ≡ length ds
    pub batch_fec_num : numbers.batch_fec_num ≡ length fs
    pub group_data_num : numbers.group_data_num ≡ length ds
    pub group_fec_num : numbers.group_fec_num ≡ length fs
    pub placed : Placed t.at numbers 0 (ds ++ fs)
    pub covers : All (λ (q : ℕ). Covers now (digests (deref t ds)) (t.at q)) fs

  abbrev pub Blocks : Store → List (List ℕ × List ℕ) → Type 0
  Blocks t bs = All (λ (b : List ℕ × List ℕ). Block t b.0 b.1) bs

  pub Block-Agrees :
      (s t : Store) (ds fs : List ℕ) → AllAgree t s (ds ++ fs) → Block s ds fs → Block t ds fs
  Block-Agrees s t ds fs a b =
      let same = λ (q : ℕ). Agrees (t.at q) (s.at q) in
      record {
        asked = b.asked;
        count = b.count;
        numbers = b.numbers;
        batch_data_num = b.batch_data_num;
        batch_fec_num = b.batch_fec_num;
        group_data_num = b.group_data_num;
        group_fec_num = b.group_fec_num;
        placed = Placed-Agrees s t b.numbers 0 (ds ++ fs) a b.placed;
        covers =
            subst (λ e. All (λ (q : ℕ). Covers now e (t.at q)) fs)
              (sym (digests-Agrees s t ds (All-left same ds fs a)))
              (Covers-AllAgree now (digests (deref s ds)) s t fs (All-right same ds fs a) b.covers);
      }

  pub Blocks-Agrees :
      (s t : Store) (bs : List (List ℕ × List ℕ))
      → AllAgree t s (packets_of bs)
      → Blocks s bs
      → Blocks t bs
  Blocks-Agrees s t [] a h = tt
  Blocks-Agrees s t (b ∷ bs) a h =
      let same = λ (q : ℕ). Agrees (t.at q) (s.at q) in
      (
        Block-Agrees s t b.0 b.1 (All-left same (b.0 ++ b.1) (packets_of bs) a) h.0,
        Blocks-Agrees s t bs (All-right same (b.0 ++ b.1) (packets_of bs) a) h.1,
      )

  pub Blocks-append :
      (t : Store) (bs cs : List (List ℕ × List ℕ)) → Blocks t bs → Blocks t cs → Blocks t (bs ++ cs)
  Blocks-append t [] cs h k = k
  Blocks-append t (b ∷ bs) cs h k = (h.0, Blocks-append t bs cs h.1 k)

  -- Groups that were formed one after the other, and then queued.
  pub Blocks-both :
      (s t u : Store) (bs cs : List (List ℕ × List ℕ)) (batches rest : List ℕ)
      → ((q : ℕ) → q < s.next_ref → contains q rest ≡ false → t.at q ≡ s.at q)
      → batches ≡ packets_of bs
      → Apart s.next_ref rest batches
      → Blocks s bs
      → Blocks t cs
      → ((q : ℕ) → Agrees (u.at q) (t.at q))
      → Blocks u (bs ++ cs)
  Blocks-both s t u bs cs batches rest others e apart h k agrees =
      Blocks-Agrees t u (bs ++ cs) (AllAgree-pointwise t u (packets_of (bs ++ cs)) agrees) (
        Blocks-append t bs cs
          (Blocks-Agrees s t bs
            (AllAgree-Apart s t s.next_ref rest (packets_of bs) others
              (subst (Apart s.next_ref rest) e apart))
            h)
          k)
