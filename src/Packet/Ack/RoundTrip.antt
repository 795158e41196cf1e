-- ===== src/Packet/Ack/RoundTrip.antt =====
-- An acknowledgement packet, encoded and decoded.
use maid_safe_transport.Base.{ℕ, ◌≤◌, ◌<◌, ◌≡◌, ◌∙◌, true, inl, arith}
use maid_safe_transport.Base.{some, if◌then◌else◌}
use maid_safe_transport.Packet.Wire.{Memory, Buffer, decode_uint32, encode_uint32}
use maid_safe_transport.Packet.Wire.Words.{
  encode_uint32_frame, decode_uint32-encode_uint32, decode_uint32_frame,
}
use maid_safe_transport.Packet.Control.{base_memory}
use maid_safe_transport.Packet.Control.Codec.{decode_base-base_memory, is_valid_base-base_memory}
use maid_safe_transport.Packet.Ack.{AckPacket, IsValid, is_valid, decode, decode_body, encode}
use maid_safe_transport.Packet.Ack.{
  encode_body, optional_memory, packet_type, packet_size, optional_packet_size,
}

-- What the fields that go over the wire of a decoded packet are: those of the packet that was
-- encoded, and for a short packet the old optional fields.
abbrev pub received : AckPacket → AckPacket → AckPacket
received self p =
    if p.has_optional_fields
    then p
    else record self { base = p.base; packet_sequence_number = p.packet_sequence_number }

optional_memory_frame : (p : AckPacket) (m : Memory) (j : ℕ) → j < 20 → optional_memory p m j ≡ m j
unfolding optional_memory
optional_memory_frame p m j h =
    encode_uint32_frame _ _ 36 j (inl (omega arith))
    ∙ encode_uint32_frame _ _ 32 j (inl (omega arith))
    ∙ encode_uint32_frame _ _ 28 j (inl (omega arith))
    ∙ encode_uint32_frame _ _ 24 j (inl (omega arith))
    ∙ encode_uint32_frame _ _ 20 j (inl h)

-- The fields stand behind the header.
pub encode_body_frame : (p : AckPacket) (m : Memory) (j : ℕ) → j < 16 → encode_body p m j ≡ m j
unfolding encode_body
encode_body_frame p m j h =
    let seqnum = encode_uint32 p.packet_sequence_number m 16 in
    ground (
      arith,
      optional_memory_frame p seqnum j,
      encode_uint32_frame p.packet_sequence_number m 16 j (inl h),
    )

optional_words :
    (p : AckPacket) (m : Memory)
    → IsValid p
    → (decode_uint32 (optional_memory p m) 16 ≡ decode_uint32 m 16)
      × (decode_uint32 (optional_memory p m) 20 ≡ p.round_trip_time)
      × (decode_uint32 (optional_memory p m) 24 ≡ p.round_trip_time_variance)
      × (decode_uint32 (optional_memory p m) 28 ≡ p.available_buffer_size)
      × (decode_uint32 (optional_memory p m) 32 ≡ p.packets_receiving_rate)
      × (decode_uint32 (optional_memory p m) 36 ≡ p.estimated_link_capacity)
unfolding optional_memory
optional_words p m v = grind (arith, decode_uint32_frame, decode_uint32-encode_uint32)

-- `Decode` behind its guards reads the fields that `Encode` wrote behind the header.
decode_body-encode_body :
    (self p : AckPacket) (m : Memory)
    → IsValid p
    → decode_body self
        (record {
          size = (if p.has_optional_fields then optional_packet_size else packet_size);
          memory = encode_body p m;
        })
        p.base
      ≡ received self p
unfolding decode_body encode_body
decode_body-encode_body self p m v =
    let seqnum = encode_uint32 p.packet_sequence_number m 16 in
    ground (
      arith,
      optional_words p seqnum v,
      decode_uint32-encode_uint32 p.packet_sequence_number m 16 v.seqnum_fits,
    )

-- `Encode` of a packet of its class into a buffer that has room, and `Decode` of the bytes that it
-- wrote into any packet object: the answer is the size, the fields of the packet come back, and of
-- a packet without optional fields those of the object stay as they were.
pub decode-encode_ack :
    (self p : AckPacket) (b : Buffer)
    → IsValid p
    → p.base.type ≡ packet_type
    → optional_packet_size ≤ b.size
    → let (n, b') = encode p b in
      (n ≡ (if p.has_optional_fields then optional_packet_size else packet_size))
      × (decode self (record b' { size = n }) ≡ some (received self p))
unfolding encode decode is_valid
decode-encode_ack self p b v t h =
    let m = base_memory p.base b.memory in
    ground (
      arith,
      is_valid_base-base_memory p.base b.memory (encode_body p m) v.base_valid
          (encode_body_frame p m) 20 packet_type,
      decode_base-base_memory p.base b.memory (encode_body p m) v.base_valid (encode_body_frame p m)
          self.base 20 packet_type,
      is_valid_base-base_memory p.base b.memory (encode_body p m) v.base_valid
          (encode_body_frame p m) 40 packet_type,
      decode_base-base_memory p.base b.memory (encode_body p m) v.base_valid (encode_body_frame p m)
          self.base 40 packet_type,
      decode_body-encode_body self p m v,
    )

-- A packet with optional fields that is encoded into a buffer of 20 to 39 bytes is not refused: the
-- answer is larger than the buffer, so the writes behind it ran past the end.
pub encode_overruns :
    (p : AckPacket) (b : Buffer)
    → p.has_optional_fields ≡ true
    → packet_size ≤ b.size
    → b.size < optional_packet_size
    → b.size < (encode p b).0
unfolding encode
encode_overruns p b e lo hi = ground arith
