-- ===== src/Decoder/Discard.antt =====
-- What the loop over late frames does.
use zhuge.Prelude.{
  ℕ, zero, suc, ◌-◌, ◌<◌, ◌≡◌, refl, ap, ◌∙◌, ◌⊎◌, inl, inr, false, none, some, arith,
}
use zhuge.Group.{find, put, erase}
use zhuge.Group.Sets.{find-put, find-erase}
use zhuge.Decoder.{VideoDecoder, discard_one, discard}
use zhuge.Decoder.Play.{Ready, Plays, not_same, same_id, play_run-Plays}

0<-cases : (k : ℕ) → (k ≡ 0) ⊎ (0 < k)
0<-cases k = omega arith

module _ (idx : ℕ) (d : VideoDecoder) where
  -- The late frame itself leaves.
  unfoldable dropped : VideoDecoder
  dropped = record d {
    played_frames = put idx (find idx d.unplayed_frames) d.played_frames;
    unplayed_frames = erase idx d.unplayed_frames;
    last_played_frame_id = idx;
  }

  row : Plays false (d.max_frame_id - idx) (suc idx) dropped (discard_one idx d)
  unfolding discard_one dropped
  row = play_run-Plays false (d.max_frame_id - idx) (suc idx) dropped

  -- No frame before the late one is touched.
  one_before : (j : ℕ) → j < idx → find j (discard_one idx d).played_frames ≡ find j d.played_frames
  unfolding dropped
  one_before j l =
      row.before j (omega arith)
      ∙ (find-put j idx (find idx d.unplayed_frames) d.played_frames
          ∙ rw (not_same j idx (λ e. omega arith)) refl)

  -- It is stored as it waited.
  one_at : find idx (discard_one idx d).played_frames ≡ some (find idx d.unplayed_frames)
  unfolding dropped
  one_at =
      row.before idx (omega arith)
      ∙ (find-put idx idx (find idx d.unplayed_frames) d.played_frames ∙ rw (same_id idx) refl)

  dropped-Ready : (j : ℕ) → idx < j → Ready j d → Ready j dropped
  unfolding dropped
  dropped-Ready j l a = record {
    frame = a.frame;
    waits =
        find-erase j idx d.unplayed_frames
        ∙ (rw (not_same j idx (λ e. omega arith)) refl ∙ a.waits);
    complete = a.complete;
  }

  -- A complete frame behind the late one is played with it, and leaves.
  one_gone :
      Ready (suc idx) d
      → idx < d.max_frame_id
      → find (suc idx) (discard_one idx d).unplayed_frames ≡ none
  one_gone a l = row.gone (suc idx) (omega arith) (elim row.stops [
    | inl all ↦ omega (arith, all)
    | inr blocked ↦ elim (0<-cases row.k) [
      | inl none_played ↦
          absurd (blocked (suc idx) (omega arith) (dropped-Ready (suc idx) (omega arith) a))
      | inr more ↦ omega arith
    ]
  ])

discard-before :
    (n idx j : ℕ) (d : VideoDecoder)
    → j < idx
    → find j (discard n idx d).played_frames ≡ find j d.played_frames
unfolding discard
discard-before zero idx j d l = refl
discard-before (suc n) idx j d l =
    discard-before n (suc idx) j (discard_one idx d) (omega arith) ∙ one_before idx d j l

-- The loop over late frames, when the frame right after the first late one is complete, known and
-- late as well: that frame is played with the first one, and then the next turn of the loop stores
-- a null pointer in its place.
pub discard-forgets :
    (n idx : ℕ) (d : VideoDecoder)
    → Ready (suc idx) d
    → idx < d.max_frame_id
    → find (suc idx) (discard (suc (suc n)) idx d).played_frames ≡ some none
unfolding discard
discard-forgets n idx d a l =
    discard-before n (suc (suc idx)) (suc idx) (discard_one (suc idx) (discard_one idx d))
      (omega arith)
    ∙ (one_at (suc idx) (discard_one idx d) ∙ ap some (one_gone idx d a l))
