-- ===== src/Packet/Handshake/RoundTrip.antt =====
-- A handshake packet, encoded and decoded.
use maid_safe_transport.Base.{ℕ, ◌+◌, ◌≤◌, ◌<◌, ◌≡◌, ◌∙◌, inl, arith, ap, some}
use maid_safe_transport.Packet.Address.{AddressOps}
use maid_safe_transport.Packet.Wire.{Memory, Buffer, decode_uint32}
use maid_safe_transport.Packet.Wire.{bytes_from}
use maid_safe_transport.Packet.Wire.Words.{
  encode_uint32_frame, decode_uint32-encode_uint32, decode_uint32_frame, decode_uint32_congr,
  copy_to_frame, bytes_from-copy_to,
}
use maid_safe_transport.Packet.Control.{base_memory}
use maid_safe_transport.Packet.Control.Codec.{decode_base-base_memory, is_valid_base-base_memory}
use maid_safe_transport.Packet.Handshake.{HandshakePacket, IsValid, is_valid, decode, encode}
use maid_safe_transport.Packet.Handshake.{words_memory, body_memory, packet_type, packet_size}

words_memory_frame :
    {V : Type 0} (p : HandshakePacket V) (m : Memory) (j : ℕ) → j < 16 → words_memory p m j ≡ m j
unfolding words_memory
words_memory_frame p m j h =
    encode_uint32_frame _ _ 44 j (inl (omega arith))
    ∙ encode_uint32_frame _ _ 40 j (inl (omega arith))
    ∙ encode_uint32_frame _ _ 36 j (inl (omega arith))
    ∙ encode_uint32_frame _ _ 32 j (inl (omega arith))
    ∙ encode_uint32_frame _ _ 28 j (inl (omega arith))
    ∙ encode_uint32_frame _ _ 24 j (inl (omega arith))
    ∙ encode_uint32_frame _ _ 20 j (inl (omega arith))
    ∙ encode_uint32_frame _ _ 16 j (inl h)

words_memory_words :
    {V : Type 0} (p : HandshakePacket V) (m : Memory)
    → IsValid p
    → let q = words_memory p m in
      (decode_uint32 q 16 ≡ p.rudp_version)
      × (decode_uint32 q 20 ≡ p.socket_type)
      × (decode_uint32 q 24 ≡ p.initial_packet_sequence_number)
      × (decode_uint32 q 28 ≡ p.maximum_packet_size)
      × (decode_uint32 q 32 ≡ p.maximum_flow_window_size)
      × (decode_uint32 q 36 ≡ p.connection_type)
      × (decode_uint32 q 40 ≡ p.socket_id)
      × (decode_uint32 q 44 ≡ p.syn_cookie)
unfolding words_memory
words_memory_words p m v = grind (arith, decode_uint32_frame, decode_uint32-encode_uint32)

module _ (ops : AddressOps) where
  open ops use {AddressV6, to_bytes, from_bytes, length-to_bytes, from_bytes-to_bytes, scope_id}

  body_memory_low :
      (p : HandshakePacket AddressV6) (m : Memory) (j : ℕ)
      → j < 48
      → body_memory ops p m j ≡ words_memory p m j
  unfolding body_memory
  body_memory_low p m j h = copy_to_frame (to_bytes p.ip_address) (words_memory p m) 48 j (inl h)

  body_memory_words :
      (p : HandshakePacket AddressV6) (m : Memory) (i : ℕ)
      → i + 3 < 48
      → decode_uint32 (body_memory ops p m) i ≡ decode_uint32 (words_memory p m) i
  body_memory_words p m i h =
      decode_uint32_congr _ _ i (body_memory_low p m i (omega arith))
        (body_memory_low p m (i + 1) (omega arith)) (body_memory_low p m (i + 2) (omega arith))
        (body_memory_low p m (i + 3) h)

  body_memory_address :
      (p : HandshakePacket AddressV6) (m : Memory)
      → scope_id p.ip_address ≡ 0
      → from_bytes (bytes_from (body_memory ops p m) 48 16) ≡ p.ip_address
  unfolding body_memory
  body_memory_address p m scopeless =
      ap from_bytes (
        rw (length-to_bytes p.ip_address) at
          (bytes_from-copy_to (to_bytes p.ip_address) (words_memory p m) 48))
      ∙ from_bytes-to_bytes p.ip_address scopeless

  -- `Encode` of a handshake packet into a buffer of 64 bytes or more answers 64, and `Decode` of
  -- those bytes gives every field back, the address included, if the address has no scope id: the
  -- byte form has no room for one.
  pub decode-encode_handshake :
      (self p : HandshakePacket AddressV6) (b : Buffer)
      → IsValid p
      → p.base.type ≡ packet_type
      → scope_id p.ip_address ≡ 0
      → packet_size ≤ b.size
      → let (n, b') = encode ops p b in
        (n ≡ packet_size) × (decode ops self (record b' { size = n }) ≡ some p)
  unfolding encode decode is_valid
  decode-encode_handshake self p b v t scopeless room =
      let m = base_memory p.base b.memory in
      let M = body_memory ops p m in
      let keep =
        λ (j : ℕ) (h : j < 16). body_memory_low p m j (omega arith) ∙ words_memory_frame p m j h in
      ground (
        arith,
        is_valid_base-base_memory p.base b.memory M v.base_valid keep 64 packet_type,
        decode_base-base_memory p.base b.memory M v.base_valid keep self.base 64 packet_type,
        words_memory_words p m v,
        body_memory_words p m 16 (omega arith),
        body_memory_words p m 20 (omega arith),
        body_memory_words p m 24 (omega arith),
        body_memory_words p m 28 (omega arith),
        body_memory_words p m 32 (omega arith),
        body_memory_words p m 36 (omega arith),
        body_memory_words p m 40 (omega arith),
        body_memory_words p m 44 (omega arith),
        body_memory_address p m scopeless,
      )
