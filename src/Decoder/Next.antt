-- ===== src/Decoder/Next.antt =====
-- `DecodeDataPacket` for the packet that completes the next frame.
use zhuge.Prelude.{
  ℕ, zero, suc, ◌+◌, ◌-◌, ◌/◌, ◌<◌, ◌≡◌, refl, sym, ap, true, false, some, ltb, if_both, arith,
}
use zhuge.Prelude.Words.{add_w}
use zhuge.Group.{VideoPacket, has_key, find}
use zhuge.Decoder.{
  VideoFrame, is_complete, VideoDecoder, discard, discard_late, file, store, play_run,
  play_complete, decode_packet,
}
use zhuge.Decoder.Play.{Plays, not_same, same_id, play_run-Plays}

discard_none : (n idx : ℕ) (d : VideoDecoder) → n ≡ 0 → discard n idx d ≡ d
unfolding discard
discard_none zero idx d h = refl
discard_none (suc n) idx d h = absurd (omega (arith, h))

module _ (p : VideoPacket) (d : VideoDecoder)
    (next : p.frame_id ≡ add_w 32 d.last_played_frame_id 1) (later : 0 < p.frame_id)
    (deadline : 0 < d.delay_ddl_ms / d.frame_interval) where
  abbrev pub filed : VideoFrame
  filed = file p (find p.frame_id d.unplayed_frames)

  abbrev pub stored : VideoDecoder
  stored = store p filed d

  on_time : discard_late p.frame_id d ≡ d
  unfolding discard_late
  on_time =
      if_both (λ (x : VideoDecoder). x ≡ d) (ltb p.frame_id (d.delay_ddl_ms / d.frame_interval))
        refl (discard_none _ _ d (omega (arith, next)))

  plays :
      play_complete p.frame_id filed stored
      ≡ play_run true (stored.max_frame_id + 1 - p.frame_id) p.frame_id stored
  unfolding play_complete store
  plays = rw (not_same p.frame_id 0 (λ e. omega arith), sym next, same_id p.frame_id) refl

  -- The packet that completes the frame after the last one played, a frame that is not the first and
  -- was not played, where the deadline is at least one frame long: the frame and the complete frames
  -- that follow it in a row are played, each once and in order, and each is acknowledged.
  pub decode_packet-Plays :
      has_key p.frame_id d.played_frames ≡ false
      → 0 < d.frame_interval
      → is_complete filed ≡ true
      → (r : VideoDecoder) × (decode_packet p d ≡ some r)
        × Plays true (stored.max_frame_id + 1 - p.frame_id) p.frame_id stored r
  unfolding decode_packet
  decode_packet-Plays new interval complete = (
    play_run true (stored.max_frame_id + 1 - p.frame_id) p.frame_id stored,
    rw (on_time, new, not_same d.frame_interval 0 (λ e. omega arith), complete) (ap some plays),
    play_run-Plays true (stored.max_frame_id + 1 - p.frame_id) p.frame_id stored,
  )
