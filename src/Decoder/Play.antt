-- ===== src/Decoder/Play.antt =====
-- The frames that are played in a row.
use mathlib.Core.Path.{subst}
use zhuge.Prelude.{
  ℕ, zero, suc, ◌+◌, ◌-◌, ◌<◌, ◌≤◌, ◌≡◌, ◌≢◌, refl, sym, ap, ◌∙◌, ◌⊎◌, inl, inr, Bool, true, false,
  List, [], ◌∷◌, ◌++◌, map, append_assoc, append-nil, none, some, ◌==◌, if◌then◌else◌, Bool-cases,
  Option-cases, ==_iff, some_inj, if_both, arith,
}
use zhuge.Group.{find, erase}
use zhuge.Group.Sets.{find-put, find-erase}
use zhuge.Decoder.{VideoFrame, is_complete, VideoDecoder, play, acknowledge, play_run}

-- `k` ids in a row.
abbrev pub range : ℕ → ℕ → List ℕ
range idx zero = []
range idx (suc k) = idx ∷ range (suc idx) k

abbrev pub ids : List (ℕ × ℕ) → List ℕ
ids = map (λ (a : ℕ × ℕ). a.0)

-- A complete frame waits under an id.
pub record Ready (j : ℕ) (d : VideoDecoder) : Type 0 where
  pub frame : VideoFrame
  pub waits : find j d.unplayed_frames ≡ some frame
  pub complete : is_complete frame ≡ true

-- What playing from `idx` does: the frames in a row are played, each as it was; the frames before
-- `idx` are not touched; what comes next is not ready; each played frame is acknowledged in order.
pub record Plays (reply : Bool) (n idx : ℕ) (d r : VideoDecoder) : Type 0 where
  pub k : ℕ
  pub fits : k ≤ n
  pub played :
      (j : ℕ)
      → idx ≤ j
      → j < idx + k
      → (a : Ready j d) × (find j r.played_frames ≡ some (some a.frame))
  pub before : (j : ℕ) → j < idx → find j r.played_frames ≡ find j d.played_frames
  pub gone : (j : ℕ) → idx ≤ j → j < idx + k → find j r.unplayed_frames ≡ none
  pub left : (j : ℕ) → j < idx → find j r.unplayed_frames ≡ find j d.unplayed_frames
  pub stops : (k ≡ n) ⊎ ((j : ℕ) → j ≡ idx + k → Ready j d → ⊥)
  pub last : r.last_played_frame_id ≡ (if k == 0 then d.last_played_frame_id else idx + k - 1)
  pub acks : ids r.acks ≡ ids d.acks ++ (if reply then range idx k else [])
  pub highest : r.max_frame_id ≡ d.max_frame_id

pub not_same : (j idx : ℕ) → j ≢ idx → (j == idx) ≡ false
not_same j idx h = ground arith

ids-snoc : (xs : List (ℕ × ℕ)) (i t : ℕ) → ids (xs ++ (i, t) ∷ []) ≡ ids xs ++ i ∷ []
ids-snoc [] i t = refl
ids-snoc (x ∷ xs) i t = ap (λ ys. x.0 ∷ ys) (ids-snoc xs i t)

pub same_id : (i : ℕ) → (i == i) ≡ true
same_id i = ground arith

-- The state after one frame.
module _ (reply : Bool) (idx : ℕ) (f : VideoFrame) (d : VideoDecoder) where
  unfoldable next : VideoDecoder
  next = acknowledge reply idx f (play idx f d)

  next_unplayed : (j : ℕ) → j ≢ idx → find j next.unplayed_frames ≡ find j d.unplayed_frames
  unfolding next acknowledge play
  next_unplayed j h =
      let e : find j (erase idx d.unplayed_frames) ≡ find j d.unplayed_frames =
        find-erase j idx d.unplayed_frames ∙ rw (not_same j idx h) refl in
      if_both (λ (x : VideoDecoder). find j x.unplayed_frames ≡ find j d.unplayed_frames) reply e e

  next_gone : find idx next.unplayed_frames ≡ none
  unfolding next acknowledge play
  next_gone =
      let e : find idx (erase idx d.unplayed_frames) ≡ none =
        find-erase idx idx d.unplayed_frames ∙ rw (same_id idx) refl in
      if_both (λ (x : VideoDecoder). find idx x.unplayed_frames ≡ none) reply e e

  next_played :
      (j : ℕ)
      → find j next.played_frames ≡ (if j == idx then some (some f) else find j d.played_frames)
  unfolding next acknowledge play
  next_played j =
      let e = find-put j idx (some f) d.played_frames in
      if_both
        (λ (x : VideoDecoder).
          find j x.played_frames ≡ (if j == idx then some (some f) else find j d.played_frames))
        reply e e

  next_last : next.last_played_frame_id ≡ idx
  unfolding next acknowledge play
  next_last = if_both (λ (x : VideoDecoder). x.last_played_frame_id ≡ idx) reply refl refl

  next_highest : next.max_frame_id ≡ d.max_frame_id
  unfolding next acknowledge play
  next_highest = if_both (λ (x : VideoDecoder). x.max_frame_id ≡ d.max_frame_id) reply refl refl

  next_acks : ids next.acks ≡ ids d.acks ++ (if reply then idx ∷ [] else [])
  unfolding next acknowledge play
  next_acks = elim (Bool-cases reply) [
    | inl replies ↦ rw replies (ids-snoc d.acks idx f.encode_time)
    | inr silent ↦ rw silent (sym (append-nil (ids d.acks)))
  ]

Plays-none :
    (reply : Bool) (n idx : ℕ) (d : VideoDecoder)
    → ((0 ≡ n) ⊎ ((j : ℕ) → j ≡ idx + 0 → Ready j d → ⊥))
    → Plays reply n idx d d
Plays-none reply n idx d stops = record {
  k = 0;
  fits = omega arith;
  played = λ j l h. absurd (omega arith);
  before = λ j l. refl;
  gone = λ j l h. absurd (omega arith);
  left = λ j l. refl;
  stops = stops;
  last = refl;
  acks =
      if_both (λ (xs : List ℕ). ids d.acks ≡ ids d.acks ++ xs) reply (sym (append-nil (ids d.acks)))
        (sym (append-nil (ids d.acks)));
  highest = refl;
}

first_if : {A : Type 0} (b : Bool) (x y : A) → b ≡ true → (if b then x else y) ≡ x
first_if b x y h = rw h refl

second_if : {A : Type 0} (b : Bool) (x y : A) → b ≡ false → (if b then x else y) ≡ y
second_if b x y h = rw h refl

acks_join :
    (reply : Bool) (idx k : ℕ) (xs ys : List ℕ)
    → ys ≡ xs ++ (if reply then idx ∷ [] else [])
    → ys ++ (if reply then range (suc idx) k else [])
      ≡ xs ++ (if reply then range idx (suc k) else [])
acks_join true idx k xs ys h =
    ap (λ zs. zs ++ range (suc idx) k) h ∙ append_assoc xs (idx ∷ []) (range (suc idx) k)
acks_join false idx k xs ys h = ap (λ zs. zs ++ []) h ∙ append-nil (xs ++ [])

≤-cases : (a b : ℕ) → a ≤ b → (b ≡ a) ⊎ (a < b)
≤-cases a b h = omega arith

module _ (reply : Bool) (n idx : ℕ) (f : VideoFrame) (d r : VideoDecoder)
    (waits : find idx d.unplayed_frames ≡ some f) (complete : is_complete f ≡ true)
    (p : Plays reply n (suc idx) (next reply idx f d) r) where
  unfoldable Played : ℕ → Type 0
  Played j = (a : Ready j d) × (find j r.played_frames ≡ some (some a.frame))

  first-Played : Played idx
  unfolding Played
  first-Played = (
    record { frame = f; waits = waits; complete = complete },
    p.before idx (omega arith) ∙ (next_played reply idx f d idx ∙ rw (same_id idx) refl),
  )

  later-Played : (j : ℕ) → idx < j → j < idx + suc p.k → Played j
  unfolding Played
  later-Played j l h =
      let a = p.played j (omega arith) (omega arith) in
      (
        record {
          frame = a.0.frame;
          waits = sym (next_unplayed reply idx f d j (λ e. omega arith)) ∙ a.0.waits;
          complete = a.0.complete;
        },
        a.1,
      )

  last_id : r.last_played_frame_id ≡ idx + suc p.k - 1
  last_id = elim (Bool-cases (p.k == 0)) [
    | inl zero_k ↦
        let e : r.last_played_frame_id ≡ idx =
          p.last ∙ (first_if (p.k == 0) _ _ zero_k ∙ next_last reply idx f d) in
        omega (arith, e, (==_iff p.k 0).0 zero_k)
    | inr more ↦
        let e : r.last_played_frame_id ≡ suc idx + p.k - 1 =
          p.last ∙ second_if (p.k == 0) _ _ more in
        omega (arith, e)
  ]

  last_lem :
      r.last_played_frame_id ≡ (if suc p.k == 0 then d.last_played_frame_id else idx + suc p.k - 1)
  last_lem =
      last_id
      ∙ sym (
          second_if (suc p.k == 0) d.last_played_frame_id (idx + suc p.k - 1)
            (not_same (suc p.k) 0 (λ e. omega arith)))

  acks_lem : ids r.acks ≡ ids d.acks ++ (if reply then range idx (suc p.k) else [])
  acks_lem = p.acks ∙ acks_join reply idx p.k (ids d.acks) _ (next_acks reply idx f d)

  Plays-one : Plays reply (suc n) idx d r
  unfolding Played
  Plays-one = record {
    k = suc p.k;
    fits = omega (arith, p.fits);
    played = λ j l h. elim (≤-cases idx j l) [
      | inl same ↦ subst Played (sym same) first-Played
      | inr later ↦ later-Played j later h
    ];
    before = λ j l.
        p.before j (omega arith)
        ∙ (next_played reply idx f d j ∙ rw (not_same j idx (λ e. omega arith)) refl);
    gone = λ j l h. elim (≤-cases idx j l) [
      | inl same ↦
          subst (λ (i : ℕ). find i r.unplayed_frames ≡ none) (sym same)
            (p.left idx (omega arith) ∙ next_gone reply idx f d)
      | inr later ↦ p.gone j (omega arith) (omega arith)
    ];
    left = λ j l. p.left j (omega arith) ∙ next_unplayed reply idx f d j (λ e. omega arith);
    stops = elim p.stops [
      | inl e ↦ inl (omega arith)
      | inr blocked ↦ inr (λ j e a. blocked j (omega arith) (record {
        frame = a.frame;
        waits = next_unplayed reply idx f d j (λ q. omega arith) ∙ a.waits;
        complete = a.complete;
      }))
    ];
    last = last_lem;
    acks = acks_lem;
    highest = p.highest ∙ next_highest reply idx f d;
  }

module _ (reply : Bool) (n idx : ℕ) (d : VideoDecoder) where
  play_run_missing : find idx d.unplayed_frames ≡ none → play_run reply (suc n) idx d ≡ d
  unfolding play_run
  play_run_missing h = rw (play_run, h) refl

  play_run_found :
      (f : VideoFrame)
      → find idx d.unplayed_frames ≡ some f
      → play_run reply (suc n) idx d
        ≡ (if is_complete f then play_run reply n (suc idx) (next reply idx f d) else d)
  unfolding play_run next
  play_run_found f h = rw (play_run, h) refl

true-neq-false : true ≡ false → ⊥
true-neq-false h = cc

not-Ready :
    (i j : ℕ) (d : VideoDecoder)
    → j ≡ i + 0
    → ((f : VideoFrame) → find i d.unplayed_frames ≡ some f → is_complete f ≡ false)
    → Ready j d
    → ⊥
not-Ready i j d e partial a =
    let same : j ≡ i = omega arith in
    let w : find i d.unplayed_frames ≡ some a.frame =
      ap (λ x. find x d.unplayed_frames) (sym same) ∙ a.waits in
    let c = partial a.frame w in absurd (true-neq-false (sym a.complete ∙ c))

-- Playing ends with a row of complete frames played, in order and once each.
pub play_run-Plays :
    (reply : Bool) (n idx : ℕ) (d : VideoDecoder) → Plays reply n idx d (play_run reply n idx d)
unfolding play_run
play_run-Plays reply zero idx d = Plays-none reply 0 idx d (inl refl)
play_run-Plays reply (suc n) idx d = elim (Option-cases (find idx d.unplayed_frames)) [
  | inl missing ↦
      subst (Plays reply (suc n) idx d) (sym (play_run_missing reply n idx d missing))
        (Plays-none reply (suc n) idx d (inr (λ j e a. not-Ready idx j d e (λ f h. absurd (cc)) a)))
  | inr (f, waits) ↦ elim (Bool-cases (is_complete f)) [
    | inl complete ↦
        let p = play_run-Plays reply n (suc idx) (next reply idx f d) in
        subst (Plays reply (suc n) idx d)
          (sym (play_run_found reply n idx d f waits ∙ first_if (is_complete f) _ _ complete))
          (Plays-one reply n idx f d _ waits complete p)
    | inr partial ↦
        subst (Plays reply (suc n) idx d)
          (sym (play_run_found reply n idx d f waits ∙ second_if (is_complete f) _ _ partial))
          (Plays-none reply (suc n) idx d (
            inr (λ j e a.
              not-Ready idx j d e (λ g h. ap is_complete (some_inj (sym h ∙ waits)) ∙ partial) a)))
  ]
]
