-- ===== src/Packet/Data/RoundTrip.antt =====
-- A data packet, encoded and decoded.
use maid_safe_transport.Base.{ℕ, ◌+◌, ◌-◌, ◌*◌, ◌/◌, ◌%◌, ◌^◌, ◌≤◌, ◌<◌, ◌≡◌, ◌∙◌, refl, inl, arith}
use maid_safe_transport.Base.{not, some, ◌==◌, length}
use maid_safe_transport.Base.{bit_and, le→ltb_false}
use maid_safe_transport.Base.Bits.{and_mask, and_bit}
use maid_safe_transport.Packet.Wire.{Memory, Buffer, IsByte, decode_uint32}
use maid_safe_transport.Packet.Wire.{bytes_from}
use maid_safe_transport.Packet.Wire.Words.{
  encode_uint32_frame, decode_uint32-encode_uint32, decode_uint32_frame, decode_uint32_congr,
  append_byte, word_of, copy_to_frame, bytes_from-copy_to, mask_byte,
}
use maid_safe_transport.Packet.Data.{DataPacket, IsValid, is_valid, decode, encode, join_bytes}
use maid_safe_transport.Packet.Data.{flags_byte, numbers_memory, packet_memory, header_size}
use maid_safe_transport.Packet.Data.Flags.{with_flags_parts}

pub join_bytes-word_of :
    (high : ℕ) (p : Memory) (i : ℕ)
    → high < 128
    → IsByte (p i)
    → IsByte (p (i + 1))
    → IsByte (p (i + 2))
    → join_bytes high p i ≡ word_of high (p i) (p (i + 1)) (p (i + 2))
unfolding join_bytes
join_bytes-word_of high p i h ha hb hc =
    rw
      (
        append_byte high (p i) (omega arith) ha,
        append_byte (high * 256 + p i) (p (i + 1)) (omega arith) hb,
        append_byte ((high * 256 + p i) * 256 + p (i + 1)) (p (i + 2)) (omega arith) hc,
      )
      (omega arith)

numbers_memory_bytes :
    (self : DataPacket) (p : Memory)
    → let n = self.packet_sequence_number in
      let m = self.message_number in
      let q = numbers_memory self p in
      (q 0 ≡ n / 2 ^ 24 % 128)
      × (q 1 ≡ n / 2 ^ 16 % 256)
      × (q 2 ≡ n / 2 ^ 8 % 256)
      × (q 3 ≡ n % 256)
      × (q 4 ≡ flags_byte self)
      × (q 5 ≡ m / 2 ^ 16 % 256)
      × (q 6 ≡ m / 2 ^ 8 % 256)
      × (q 7 ≡ m % 256)
unfolding numbers_memory
numbers_memory_bytes self p =
    let n = self.packet_sequence_number in
    let m = self.message_number in
    (
      and_mask 7 (n / 2 ^ 24),
      mask_byte (n / 2 ^ 16),
      mask_byte (n / 2 ^ 8),
      mask_byte n,
      refl,
      mask_byte (m / 2 ^ 16),
      mask_byte (m / 2 ^ 8),
      mask_byte m,
    )

flags_byte_parts :
    (self : DataPacket)
    → self.message_number < 2 ^ 29
    → let byte = flags_byte self in
      (not (bit_and byte 0x80 == 0) ≡ self.first_packet_in_message)
      × (not (bit_and byte 0x40 == 0) ≡ self.last_packet_in_message)
      × (not (bit_and byte 0x20 == 0) ≡ self.in_order)
      × (bit_and byte 0x1f ≡ self.message_number / 2 ^ 24)
      × (byte < 256)
unfolding flags_byte
flags_byte_parts self h =
    let e : self.message_number / 2 ^ 24 % 32 ≡ self.message_number / 2 ^ 24 = omega arith in
    rw (and_mask 5 (self.message_number / 2 ^ 24), e)
      (with_flags_parts _ _ _ (self.message_number / 2 ^ 24) (omega arith))

-- The later writes leave the first eight bytes.
packet_memory_head :
    (self : DataPacket) (p : Memory) (j : ℕ)
    → j < 8
    → packet_memory self p j ≡ numbers_memory self p j
unfolding packet_memory
packet_memory_head self p j h =
    copy_to_frame self.payload _ 16 j (inl (omega arith))
    ∙ encode_uint32_frame _ _ 12 j (inl (omega arith))
    ∙ encode_uint32_frame _ _ 8 j (inl h)

packet_memory_words :
    (self : DataPacket) (p : Memory)
    → IsValid self
    → (decode_uint32 (packet_memory self p) 8 ≡ self.time_stamp)
      × (decode_uint32 (packet_memory self p) 12 ≡ self.destination_socket_id)
unfolding packet_memory
packet_memory_words self p v =
    let bs = self.payload in
    let low = λ (m : Memory) (j : ℕ) (h : j < 16). copy_to_frame bs m 16 j (inl h) in
    (
      decode_uint32_congr _ _ 8 (low _ 8 (omega arith)) (low _ 9 (omega arith))
            (low _ 10 (omega arith)) (low _ 11 (omega arith))
          ∙ decode_uint32_frame _ _ 12 8 (inl (omega arith))
          ∙ decode_uint32-encode_uint32 _ _ 8 v.stamp_fits,
      decode_uint32_congr _ _ 12 (low _ 12 (omega arith)) (low _ 13 (omega arith))
            (low _ 14 (omega arith)) (low _ 15 (omega arith))
          ∙ decode_uint32-encode_uint32 _ _ 12 v.id_fits,
    )

packet_memory_payload :
    (self : DataPacket) (p : Memory)
    → bytes_from (packet_memory self p) 16 (length self.payload) ≡ self.payload
unfolding packet_memory
packet_memory_payload self p = bytes_from-copy_to self.payload _ 16

packet_memory_bytes :
    (self : DataPacket) (p : Memory)
    → let n = self.packet_sequence_number in
      let m = self.message_number in
      let q = packet_memory self p in
      (q 0 ≡ n / 2 ^ 24 % 128)
      × (q 1 ≡ n / 2 ^ 16 % 256)
      × (q 2 ≡ n / 2 ^ 8 % 256)
      × (q 3 ≡ n % 256)
      × (q 4 ≡ flags_byte self)
      × (q 5 ≡ m / 2 ^ 16 % 256)
      × (q 6 ≡ m / 2 ^ 8 % 256)
      × (q 7 ≡ m % 256)
packet_memory_bytes self p =
    let (e₀, e₁, e₂, e₃, e₄, e₅, e₆, e₇) = numbers_memory_bytes self p in
    let head = packet_memory_head self p in
    (
      head 0 (omega arith) ∙ e₀,
      head 1 (omega arith) ∙ e₁,
      head 2 (omega arith) ∙ e₂,
      head 3 (omega arith) ∙ e₃,
      head 4 (omega arith) ∙ e₄,
      head 5 (omega arith) ∙ e₅,
      head 6 (omega arith) ∙ e₆,
      head 7 (omega arith) ∙ e₇,
    )

packet_memory-seqnum :
    (self : DataPacket) (p : Memory)
    → IsValid self
    → join_bytes (bit_and (packet_memory self p 0) 0x7f) (packet_memory self p) 1
      ≡ self.packet_sequence_number
packet_memory-seqnum self p v =
    let (e₀, e₁, e₂, e₃, e₄, e₅, e₆, e₇) = packet_memory_bytes self p in
    let q = packet_memory self p in
    let high : bit_and (q 0) 0x7f ≡ self.packet_sequence_number / 2 ^ 24 =
      and_mask 7 (q 0) ∙ omega (arith, v.seqnum_fits) in
    rw high (
      join_bytes-word_of (self.packet_sequence_number / 2 ^ 24) q 1 (omega (arith, v.seqnum_fits))
        (omega arith) (omega arith) (omega arith)
      ∙ omega arith)

packet_memory-message :
    (self : DataPacket) (p : Memory)
    → IsValid self
    → join_bytes (bit_and (packet_memory self p 4) 0x1f) (packet_memory self p) 5
      ≡ self.message_number
packet_memory-message self p v =
    let (e₀, e₁, e₂, e₃, e₄, e₅, e₆, e₇) = packet_memory_bytes self p in
    let (f₀, f₁, f₂, f₃, f₄) = flags_byte_parts self v.message_fits in
    let q = packet_memory self p in
    let high : bit_and (q 4) 0x1f ≡ self.message_number / 2 ^ 24 = rw e₄ f₃ in
    rw high (
      join_bytes-word_of (self.message_number / 2 ^ 24) q 5 (omega (arith, v.message_fits))
        (omega arith) (omega arith) (omega arith)
      ∙ omega arith)

-- The top bit of the first byte is clear: a data packet is no control packet.
pub packet_memory_top : (self : DataPacket) (p : Memory) → bit_and (packet_memory self p 0) 0x80 ≡ 0
packet_memory_top self p =
    let (e₀, e₁, e₂, e₃, e₄, e₅, e₆, e₇) = packet_memory_bytes self p in
    and_bit 7 (packet_memory self p 0) ∙ omega arith

-- `Encode` answers the size of the packet, and `Decode` of that many bytes of a buffer that had
-- room gives the packet back, its flags, its numbers and its payload.
pub decode-encode_data :
    (p : DataPacket) (b : Buffer)
    → IsValid p
    → header_size + length p.payload ≤ b.size
    → let (n, b') = encode p b in
      (n ≡ header_size + length p.payload) × (decode (record b' { size = n }) ≡ some p)
unfolding encode decode is_valid
decode-encode_data p b v h =
    let m = b.memory in
    let (e₀, e₁, e₂, e₃, e₄, e₅, e₆, e₇) = packet_memory_bytes p m in
    let (f₀, f₁, f₂, f₃, f₄) = flags_byte_parts p v.message_fits in
    let (w₀, w₁) = packet_memory_words p m v in
    let len : 16 + length p.payload - 16 ≡ length p.payload = omega arith in
    rw (le→ltb_false b.size (16 + length p.payload) h) (
      refl,
      rw
          (
            len,
            packet_memory-seqnum p m v,
            packet_memory-message p m v,
            w₀,
            w₁,
            packet_memory_payload p m,
            packet_memory_top p m,
            e₄,
            f₀,
            f₁,
            f₂,
          )
          (ground arith),
    )
