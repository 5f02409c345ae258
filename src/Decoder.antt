-- ===== src/Decoder.antt =====
-- ns-3.34-diff/src/bitrate-ctrl/model/video-decoder.cc: `VideoFrame` and the playing order of
-- `VideoDecoder`. Ids of frames are below 2^32 - 1. `none` is a division by zero; a frame of the
-- map of played frames is `none` where the code stores a null pointer.
pub mod Play
pub mod Discard
pub mod Next
mod Tests
use zhuge.Prelude.{
  ℕ, zero, suc, ◌+◌, ◌-◌, ◌/◌, ◌%◌, ◌^◌, Bool, true, false, not, ◌&&◌, List, [], ◌∷◌, ◌++◌, Option,
  none, some, ltb, leb, ◌==◌, if◌then◌else◌, length, ◌>>=◌, min, max,
}
use zhuge.Prelude.Words.{add_w}
use zhuge.Group.{VideoPacket, insert, has_key, find, put, erase}

pub record VideoFrame : Type 0 where
  pub group_ids : List ℕ
  pub data_pkt_num : ℕ
  pub encode_time : ℕ
  pub first_pkt_rcv_time : ℕ
  pub last_pkt_rcv_time : ℕ
  pub pkts : List ℕ

unfoldable pub add_packet : VideoPacket → VideoFrame → VideoFrame
add_packet p f = record f {
  last_pkt_rcv_time = max f.last_pkt_rcv_time p.rcv_time;
  encode_time = min f.encode_time p.encode_time;
  pkts = insert p.pkt_id_in_frame f.pkts;
}

unfoldable pub new_frame : VideoPacket → VideoFrame
new_frame p = add_packet p (record {
  group_ids = p.group_id ∷ [];
  data_pkt_num = p.frame_pkt_num;
  encode_time = p.encode_time;
  first_pkt_rcv_time = p.rcv_time;
  last_pkt_rcv_time = p.rcv_time;
  pkts = [];
})

-- The counts are `uint16_t`.
unfoldable pub is_complete : VideoFrame → Bool
is_complete f = f.data_pkt_num == length f.pkts % 2 ^ 16

-- `acks` is what was passed to `ReplyFrameAck`, in order.
pub record VideoDecoder : Type 0 where
  pub delay_ddl_ms : ℕ
  pub unplayed_frames : List (ℕ × VideoFrame)
  pub played_frames : List (ℕ × Option VideoFrame)
  pub min_frame_id : ℕ
  pub max_frame_id : ℕ
  pub last_played_frame_id : ℕ
  pub frame_interval : ℕ
  pub exclude_ten_played_frames : List ℕ
  pub acks : List (ℕ × ℕ)

unfoldable pub new_decoder : ℕ → ℕ → Option VideoDecoder
new_decoder delay_ddl_ms fps =
    if fps == 0
    then none
    else some (record {
      delay_ddl_ms = delay_ddl_ms;
      unplayed_frames = [];
      played_frames = [];
      min_frame_id = 0;
      max_frame_id = 0;
      last_played_frame_id = 2 ^ 32 - 1;
      frame_interval = 1000 / fps;
      exclude_ten_played_frames = [];
      acks = [];
    })

-- A frame is played: it changes maps.
unfoldable pub play : ℕ → VideoFrame → VideoDecoder → VideoDecoder
play idx f d = record d {
  played_frames = put idx (some f) d.played_frames;
  unplayed_frames = erase idx d.unplayed_frames;
  last_played_frame_id = idx;
}

-- And acknowledged, but not when late frames are discarded.
unfoldable pub acknowledge : Bool → ℕ → VideoFrame → VideoDecoder → VideoDecoder
acknowledge reply idx f d =
    if reply
    then record d {
      exclude_ten_played_frames =
          if leb 10 idx
          then insert idx d.exclude_ten_played_frames
          else d.exclude_ten_played_frames;
      acks = d.acks ++ (idx, f.encode_time) ∷ [];
    }
    else d

-- The loop over the frames from `idx` on, of which there are `n` up to the last one known: it stops
-- at the first that is missing or not complete.
unfoldable pub play_run : Bool → ℕ → ℕ → VideoDecoder → VideoDecoder
play_run reply zero idx d = d
play_run reply (suc n) idx d = elim (find idx d.unplayed_frames) [
  | none ↦ d
  | some f ↦
      let rest = play_run reply n (suc idx) (acknowledge reply idx f (play idx f d)) in
      if is_complete f then rest else d
]

-- One turn of the loop over late frames. `operator[]` makes a null pointer of a missing frame.
unfoldable pub discard_one : ℕ → VideoDecoder → VideoDecoder
discard_one idx d =
    let d' = record d {
      played_frames = put idx (find idx d.unplayed_frames) d.played_frames;
      unplayed_frames = erase idx d.unplayed_frames;
      last_played_frame_id = idx;
    } in
    play_run false (d.max_frame_id - idx) (suc idx) d'

unfoldable pub discard : ℕ → ℕ → VideoDecoder → VideoDecoder
discard zero idx d = d
discard (suc n) idx d = discard n (suc idx) (discard_one idx d)

-- The late frames: those up to the deadline's number of frames before this one.
unfoldable pub discard_late : ℕ → VideoDecoder → VideoDecoder
discard_late frame_id d =
    let late = d.delay_ddl_ms / d.frame_interval in
    let idx = add_w 32 d.last_played_frame_id 1 in
    if ltb frame_id late then d else discard (frame_id - late + 1 - idx) idx d

unfoldable pub file : VideoPacket → Option VideoFrame → VideoFrame
file p none = new_frame p
file p (some f) = add_packet p f

unfoldable pub store : VideoPacket → VideoFrame → VideoDecoder → VideoDecoder
store p f d = record d {
  max_frame_id = max d.max_frame_id p.frame_id;
  min_frame_id = min d.min_frame_id p.frame_id;
  unplayed_frames = put p.frame_id f d.unplayed_frames;
}

-- What a complete frame starts.
unfoldable pub play_complete : ℕ → VideoFrame → VideoDecoder → VideoDecoder
play_complete frame_id f d =
    if frame_id == 0
    then play frame_id f d
    else if frame_id == add_w 32 d.last_played_frame_id 1
    then play_run true (d.max_frame_id + 1 - frame_id) frame_id d
    else d

unfoldable pub decode_packet : VideoPacket → VideoDecoder → Option VideoDecoder
decode_packet p d =
    let d' = discard_late p.frame_id d in
    let f = file p (find p.frame_id d'.unplayed_frames) in
    let d'' = store p f d' in
    if has_key p.frame_id d.played_frames
    then some d
    else if d.frame_interval == 0
    then none
    else some (if is_complete f then play_complete p.frame_id f d'' else d'')

-- `DecodeDataPacket`.
unfoldable pub decode_data_packet : List VideoPacket → VideoDecoder → Option VideoDecoder
decode_data_packet [] d = some d
decode_data_packet (p ∷ ps) d = decode_packet p d >>= decode_data_packet ps
