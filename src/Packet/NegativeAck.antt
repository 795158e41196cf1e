-- ===== src/Packet/NegativeAck.antt =====
-- src/maidsafe/transport/rudp_negative_ack_packet.{h,cc}.
pub mod Ranges
pub mod RoundTrip
use maid_safe_transport.Base.{
  ℕ, zero, suc, ◌+◌, ◌-◌, ◌*◌, ◌/◌, ◌%◌, ◌^◌, ◌<◌, Bool, true, false, not,
}
use maid_safe_transport.Base.{◌&&◌, ◌||◌, Option, none, some, List, [], ◌∷◌, ◌++◌, length, All}
use maid_safe_transport.Base.{bit_and, bit_or, ltb, leb, ◌==◌, if◌then◌else◌}
use maid_safe_transport.Packet.Wire.{Memory, Buffer, IsWord, decode_uint32, encode_uint32}
use maid_safe_transport.Packet.Control
use maid_safe_transport.Packet.Control.{ControlPacket, control_packet, is_valid_base, decode_base}
use maid_safe_transport.Packet.Control.{encode_base, header_size}

pub record NegativeAckPacket : Type 0 where
  pub base : ControlPacket
  pub sequence_numbers : List ℕ

abbrev pub packet_type : ℕ
packet_type = 3

pub record IsValid (p : NegativeAckPacket) : Type 0 where
  pub base_valid : Control.IsValid p.base
  pub words : All IsWord p.sequence_numbers

unfoldable pub negative_ack_packet : NegativeAckPacket
unfolding control_packet
negative_ack_packet = record { base = control_packet packet_type; sequence_numbers = [] }

unfoldable pub add_sequence_number : ℕ → NegativeAckPacket → NegativeAckPacket
add_sequence_number n p = record p { sequence_numbers = p.sequence_numbers ++ n ∷ [] }

unfoldable pub add_sequence_numbers : ℕ → ℕ → NegativeAckPacket → NegativeAckPacket
add_sequence_numbers first last p = record p {
  sequence_numbers = (p.sequence_numbers ++ bit_or first 0x80000000 ∷ []) ++ last ∷ [];
}

unfoldable pub is_valid : Buffer → Bool
unfolding is_valid_base
is_valid b =
    is_valid_base b packet_type && ltb header_size b.size && (b.size - header_size) % 4 == 0

-- The test of one entry that is a range.
unfoldable pub in_range : ℕ → ℕ → ℕ → Bool
in_range first last n =
    if leb first last
    then leb first n && leb n last
    else (leb first n && leb n 0x7fffffff) || leb n last

-- The loop over the entries. Behind a range its second word is looked at again, as an entry.
unfoldable pub any_contains : List ℕ → ℕ → Bool
unfolding in_range
any_contains [] n = false
any_contains (v ∷ []) n = bit_and v 0x7fffffff == n
any_contains (v ∷ w ∷ rest) n =
    (if not (bit_and v 0x80000000 == 0)
      then in_range (bit_and v 0x7fffffff) (bit_and w 0x7fffffff) n
      else bit_and v 0x7fffffff == n)
    || any_contains (w ∷ rest) n

unfoldable pub contains_sequence_number : NegativeAckPacket → ℕ → Bool
unfolding any_contains
contains_sequence_number p n = any_contains p.sequence_numbers n

unfoldable pub has_sequence_numbers : NegativeAckPacket → Bool
has_sequence_numbers p = not (length p.sequence_numbers == 0)

-- The words at offsets `i`, `i + 4` and on: `for (size_t i = 0; i < length; i += 4)`.
unfoldable pub decode_words : ℕ → Memory → ℕ → List ℕ
decode_words zero p i = []
decode_words (suc n) p i = decode_uint32 p i ∷ decode_words n p (i + 4)

unfoldable pub encode_words : List ℕ → Memory → ℕ → Memory
encode_words [] p i = p
encode_words (w ∷ ws) p i = encode_words ws (encode_uint32 w p i) (i + 4)

unfoldable pub decode : NegativeAckPacket → Buffer → Option NegativeAckPacket
unfolding is_valid decode_base decode_words
decode self b = if not (is_valid b) then none else elim (decode_base self.base b packet_type) [
  | none ↦ none
  | some header ↦ some (record {
    base = header;
    sequence_numbers = decode_words ((b.size - header_size) / 4) b.memory header_size;
  })
]

unfoldable pub encode : NegativeAckPacket → Buffer → ℕ × Buffer
unfolding encode_base encode_words
encode self b =
    let size = header_size + length self.sequence_numbers * 4 in
    let (written, b') = encode_base self.base b in
    if ltb b.size size
    then (0, b)
    else if written == 0
    then (0, b')
    else (size, record b' { memory = encode_words self.sequence_numbers b'.memory header_size })
