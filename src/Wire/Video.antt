-- ===== src/Wire/Video.antt =====
-- The headers of fixed length: `NetworkPacketHeader`, `VideoPacketHeader`, `DataPacketHeader` and
-- `FrameAckPacketHeader`. Times are in nanoseconds.
use zhuge.Prelude.{ℕ, ◌+◌, ◌*◌, ◌/◌, ◌^◌, ◌<◌, ◌≡◌, List, Option, some, ◌>>=◌, length, arith}
use zhuge.Wire.{Buffer}

pub record NetworkPacketHeader : Type 0 where
  pub packet_type : ℕ

pub record VideoPacketHeader : Type 0 where
  pub encode_time : ℕ
  pub global_id : ℕ
  pub group_id : ℕ
  pub group_data_num : ℕ
  pub group_fec_num : ℕ
  pub pkt_id_in_group : ℕ
  pub batch_id : ℕ
  pub batch_data_num : ℕ
  pub batch_fec_num : ℕ
  pub pkt_id_in_batch : ℕ
  pub tx_count : ℕ

pub record DataPacketHeader : Type 0 where
  pub frame_id : ℕ
  pub frame_size : ℕ
  pub frame_pkt_num : ℕ
  pub pkt_id_in_frame : ℕ

pub record FrameAckPacketHeader : Type 0 where
  pub acked_frame : ℕ
  pub frame_encode_time : ℕ

module _ (b : Buffer) where
  open b use {
    write8, write16, write32, write64, read8, read16, read32, read64, read8-write8, read16-write16,
    read32-write32, read64-write64, length-write8, length-write16, length-write32, length-write64,
  }

  pub serialize_type : NetworkPacketHeader → List ℕ → List ℕ
  serialize_type h rest = write32 h.packet_type rest

  pub deserialize_type : List ℕ → Option (NetworkPacketHeader × List ℕ)
  deserialize_type bytes = do (t, bytes) ← read32 bytes; some (record { packet_type = t }, bytes)

  -- `encode_time.GetMilliSeconds ()` goes on the wire.
  pub serialize_video : VideoPacketHeader → List ℕ → List ℕ
  serialize_video h rest = write64 (h.encode_time / 1000000) (
      write16 h.global_id (
        write32 h.group_id (
          write16 h.group_data_num (
            write16 h.group_fec_num (
              write16 h.pkt_id_in_group (
                write32 h.batch_id (
                  write16 h.batch_data_num (
                    write16 h.batch_fec_num
                      (write16 h.pkt_id_in_batch (write8 h.tx_count rest))))))))))

  pub deserialize_video : List ℕ → Option (VideoPacketHeader × List ℕ)
  deserialize_video bytes = do
    (encode_ms, bytes) ← read64 bytes
    (global_id, bytes) ← read16 bytes
    (group_id, bytes) ← read32 bytes
    (group_data_num, bytes) ← read16 bytes
    (group_fec_num, bytes) ← read16 bytes
    (pkt_id_in_group, bytes) ← read16 bytes
    (batch_id, bytes) ← read32 bytes
    (batch_data_num, bytes) ← read16 bytes
    (batch_fec_num, bytes) ← read16 bytes
    (pkt_id_in_batch, bytes) ← read16 bytes
    (tx_count, bytes) ← read8 bytes
    some (
      record {
        encode_time = encode_ms * 1000000;
        global_id = global_id;
        group_id = group_id;
        group_data_num = group_data_num;
        group_fec_num = group_fec_num;
        pkt_id_in_group = pkt_id_in_group;
        batch_id = batch_id;
        batch_data_num = batch_data_num;
        batch_fec_num = batch_fec_num;
        pkt_id_in_batch = pkt_id_in_batch;
        tx_count = tx_count;
      },
      bytes,
    )

  unfoldable pub serialize_data : DataPacketHeader → List ℕ → List ℕ
  serialize_data h rest =
      write32 h.frame_id
        (write32 h.frame_size (write16 h.frame_pkt_num (write16 h.pkt_id_in_frame rest)))

  pub deserialize_data : List ℕ → Option (DataPacketHeader × List ℕ)
  deserialize_data bytes = do
    (frame_id, bytes) ← read32 bytes
    (frame_size, bytes) ← read32 bytes
    (frame_pkt_num, bytes) ← read16 bytes
    (pkt_id_in_frame, bytes) ← read16 bytes
    some (
      record {
        frame_id = frame_id;
        frame_size = frame_size;
        frame_pkt_num = frame_pkt_num;
        pkt_id_in_frame = pkt_id_in_frame;
      },
      bytes,
    )

  pub serialize_frame_ack : FrameAckPacketHeader → List ℕ → List ℕ
  serialize_frame_ack h rest = write32 h.acked_frame (write64 (h.frame_encode_time / 1000) rest)

  pub deserialize_frame_ack : List ℕ → Option (FrameAckPacketHeader × List ℕ)
  deserialize_frame_ack bytes = do
    (frame_id, bytes) ← read32 bytes
    (encode_us, bytes) ← read64 bytes
    some (record { acked_frame = frame_id; frame_encode_time = encode_us * 1000 }, bytes)

  -- `GetSerializedSize`: 31 bytes for the media header.
  abbrev pub video_size : ℕ
  video_size = 8 + 2 + 4 + 2 + 2 + 2 + 4 + 2 + 2 + 2 + 1

-- The fields of a header are in range of their types.
pub record FitsVideo (h : VideoPacketHeader) : Type 0 where
  pub encode_time : h.encode_time < 2 ^ 64
  pub global_id : h.global_id < 2 ^ 16
  pub group_id : h.group_id < 2 ^ 32
  pub group_data_num : h.group_data_num < 2 ^ 16
  pub group_fec_num : h.group_fec_num < 2 ^ 16
  pub pkt_id_in_group : h.pkt_id_in_group < 2 ^ 16
  pub batch_id : h.batch_id < 2 ^ 32
  pub batch_data_num : h.batch_data_num < 2 ^ 16
  pub batch_fec_num : h.batch_fec_num < 2 ^ 16
  pub pkt_id_in_batch : h.pkt_id_in_batch < 2 ^ 16
  pub tx_count : h.tx_count < 2 ^ 8

-- What is read back of a header: all of it, but the encoding time in whole milliseconds.
abbrev pub in_ms : VideoPacketHeader → VideoPacketHeader
in_ms h = record h { encode_time = h.encode_time / 1000000 * 1000000 }

module _ (b : Buffer) where
  open b use {
    read8-write8, read16-write16, read32-write32, read64-write64, length-write8, length-write16,
    length-write32, length-write64,
  }

  -- Reading back a media header that was written, in front of anything, gives the header with its
  -- encoding time cut to whole milliseconds, and leaves the rest; and it takes the announced 31
  -- bytes. It holds where each field is in the range of its type.
  pub deserialize_video-serialize_video :
      (h : VideoPacketHeader) (rest : List ℕ)
      → FitsVideo h
      → (deserialize_video b (serialize_video b h rest) ≡ some (in_ms h, rest))
        × (length (serialize_video b h rest) ≡ video_size b + length rest)
  unfolding serialize_video deserialize_video
  deserialize_video-serialize_video h rest f = (
    simp (read8-write8, read16-write16, read32-write32, read64-write64) (ground arith),
    simp (length-write8, length-write16, length-write32, length-write64) (omega arith),
  )

  -- So for the header of a data packet, in 12 bytes.
  pub deserialize_data-serialize_data :
      (h : DataPacketHeader) (rest : List ℕ)
      → h.frame_id < 2 ^ 32
      → h.frame_size < 2 ^ 32
      → h.frame_pkt_num < 2 ^ 16
      → h.pkt_id_in_frame < 2 ^ 16
      → (deserialize_data b (serialize_data b h rest) ≡ some (h, rest))
        × (length (serialize_data b h rest) ≡ 12 + length rest)
  unfolding serialize_data deserialize_data
  deserialize_data-serialize_data h rest f s n i = (
    simp (read16-write16, read32-write32) (ground arith),
    simp (length-write16, length-write32) (omega arith),
  )

  -- So for the acknowledgement of a frame, in 12 bytes, with its time cut to whole microseconds.
  pub deserialize_frame_ack-serialize_frame_ack :
      (h : FrameAckPacketHeader) (rest : List ℕ)
      → h.acked_frame < 2 ^ 32
      → h.frame_encode_time < 2 ^ 64
      → (deserialize_frame_ack b (serialize_frame_ack b h rest)
          ≡ some (record h { frame_encode_time = h.frame_encode_time / 1000 * 1000 }, rest))
        × (length (serialize_frame_ack b h rest) ≡ 12 + length rest)
  unfolding serialize_frame_ack deserialize_frame_ack
  deserialize_frame_ack-serialize_frame_ack h rest f t = (
    simp (read32-write32, read64-write64) (ground arith),
    simp (length-write32, length-write64) (omega arith),
  )
