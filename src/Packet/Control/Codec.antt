-- ===== src/Packet/Control/Codec.antt =====
-- The header of a control packet, written and read back.
use maid_safe_transport.Base.{ℕ, ◌+◌, ◌*◌, ◌/◌, ◌%◌, ◌^◌, ◌<◌, ◌≤◌, ◌≡◌, ◌∙◌, refl}
use maid_safe_transport.Base.{none, some, arith, bit_and, bit_or, inl}
use maid_safe_transport.Base.{leb, ◌==◌, if◌then◌else◌, ◌&&◌, not}
use maid_safe_transport.Base.Bits.{and_mask, and_bit, or_bit, or_shifted}
use maid_safe_transport.Packet.Wire.{Memory, Buffer, decode_uint32}
use maid_safe_transport.Packet.Wire.Words.{
  encode_uint32_frame, decode_uint32-encode_uint32, decode_uint32_frame, decode_uint32_congr,
}
use maid_safe_transport.Packet.Control.{ControlPacket, IsValid, is_valid_base, decode_base}
use maid_safe_transport.Packet.Control.{base_memory, encode_base, header_size}

-- The two bytes that hold the type: the top bit marks a control packet.
pub base_memory_head :
    (p : ControlPacket) (m : Memory)
    → p.type < 2 ^ 15
    → (base_memory p m 0 ≡ p.type / 256 + 128) × (base_memory p m 1 ≡ p.type % 256)
unfolding base_memory
base_memory_head p m h = (
  encode_uint32_frame _ _ 12 0 (inl (omega arith))
      ∙ encode_uint32_frame _ _ 8 0 (inl (omega arith))
      ∙ encode_uint32_frame _ _ 4 0 (inl (omega arith))
      ∙ rw (and_mask 7 (p.type / 256)) (or_bit 7 (p.type / 256 % 128) (omega arith) ∙ omega arith),
  encode_uint32_frame _ _ 12 1 (inl (omega arith))
      ∙ encode_uint32_frame _ _ 8 1 (inl (omega arith))
      ∙ encode_uint32_frame _ _ 4 1 (inl (omega arith))
      ∙ and_mask 8 p.type,
)

pub base_memory_words :
    (p : ControlPacket) (m : Memory)
    → IsValid p
    → (decode_uint32 (base_memory p m) 4 ≡ p.additional_info)
      × (decode_uint32 (base_memory p m) 8 ≡ p.time_stamp)
      × (decode_uint32 (base_memory p m) 12 ≡ p.destination_socket_id)
unfolding base_memory
base_memory_words p m v = (
  decode_uint32_frame _ _ 12 4 (inl (omega arith))
      ∙ decode_uint32_frame _ _ 8 4 (inl (omega arith))
      ∙ decode_uint32-encode_uint32 _ _ 4 v.info_fits,
  decode_uint32_frame _ _ 12 8 (inl (omega arith)) ∙ decode_uint32-encode_uint32 _ _ 8 v.stamp_fits,
  decode_uint32-encode_uint32 _ _ 12 v.id_fits,
)

-- `IsValidBase` in plain arithmetic.
pub is_valid_base_lem :
    (b : Buffer) (t : ℕ)
    → is_valid_base b t ≡ (
        leb 16 b.size
        && not (b.memory 0 / 128 % 2 * 128 == 0)
        && b.memory 0 % 128 == t / 256 % 128
        && b.memory 1 == t % 256)
unfolding is_valid_base
is_valid_base_lem b t =
    rw (and_bit 7 (b.memory 0), and_mask 7 (b.memory 0), and_mask 7 (t / 256), and_mask 8 t)

-- Two memories that hold the same header.
abbrev pub SameHeader : Memory → Memory → Type 0
SameHeader M m = (j : ℕ) → j < 16 → M j ≡ m j

module _ (p : ControlPacket) (m M : Memory) (v : IsValid p)
    (same : SameHeader M (base_memory p m)) where
  pub is_valid_base-base_memory :
      (s t : ℕ)
      → 16 ≤ s
      → t < 2 ^ 15
      → is_valid_base (record { size = s; memory = M }) t ≡ (t == p.type)
  is_valid_base-base_memory s t hs ht =
      is_valid_base_lem (record { size = s; memory = M }) t
      ∙ ground (
        arith,
        v.type_fits,
        same 0 (omega arith),
        same 1 (omega arith),
        base_memory_head p m v.type_fits,
      )

  word_at : (j : ℕ) → j + 3 < 16 → decode_uint32 M j ≡ decode_uint32 (base_memory p m) j
  word_at j h =
      decode_uint32_congr M (base_memory p m) j (same j (omega arith)) (same (j + 1) (omega arith))
        (same (j + 2) (omega arith)) (same (j + 3) (omega arith))

  type_word : bit_or (bit_and (M 0) 0x7f * 2 ^ 8) (M 1) % 2 ^ 16 ≡ p.type
  type_word =
      let (e₀, e₁) = base_memory_head p m v.type_fits in
      let masked : (p.type / 256 + 128) % 128 ≡ p.type / 256 = omega (arith, v.type_fits) in
      rw
        (
          same 0 (omega arith),
          same 1 (omega arith),
          e₀,
          e₁,
          and_mask 7 (p.type / 256 + 128),
          masked,
        )
        (rw (or_shifted 8 (p.type / 256) (p.type % 256) (omega arith)) (omega (arith, v.type_fits)))

  -- `DecodeBase` reads back every field from a header that `EncodeBase` wrote, whatever follows
  -- it, and answers false to every other type.
  pub decode_base-base_memory :
      (self : ControlPacket) (s t : ℕ)
      → 16 ≤ s
      → t < 2 ^ 15
      → decode_base self (record { size = s; memory = M }) t
        ≡ (if t == p.type then some p else none)
  unfolding decode_base
  decode_base-base_memory self s t hs ht =
      let (e₁, e₂, e₃) = base_memory_words p m v in
      rw (is_valid_base-base_memory s t hs ht, type_word)
        (ground (
          arith,
          word_at 4 (omega arith),
          word_at 8 (omega arith),
          word_at 12 (omega arith),
          e₁,
          e₂,
          e₃,
        ))

-- `EncodeBase` into a buffer with room for a header answers 16, and `DecodeBase` of those bytes
-- gives the packet back under its own type and is refused under every other type.
pub decode_base-encode_base :
    (self p : ControlPacket) (b : Buffer) (t : ℕ)
    → IsValid p
    → t < 2 ^ 15
    → header_size ≤ b.size
    → let (n, b') = encode_base p b in
      (n ≡ header_size)
      × (decode_base self (record b' { size = n }) t ≡ (if t == p.type then some p else none))
unfolding encode_base
decode_base-encode_base self p b t v ht room =
    ground
      (arith, decode_base-base_memory p b.memory (base_memory p b.memory) v (λ j h. refl) self 16 t)
