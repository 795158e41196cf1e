-- ===== src/Packet/Ack.antt =====
-- src/maidsafe/transport/rudp_ack_packet.{h,cc}.
pub mod RoundTrip
use maid_safe_transport.Base.{ℕ, Bool, true, false, not, ◌&&◌, ◌||◌, Option, none, some}
use maid_safe_transport.Base.{ltb, ◌==◌, if◌then◌else◌, Option-cases}
use maid_safe_transport.Packet.Wire.{Memory, Buffer, IsWord, decode_uint32, encode_uint32}
use maid_safe_transport.Packet.Control
use maid_safe_transport.Packet.Control.{ControlPacket, control_packet, is_valid_base, decode_base}
use maid_safe_transport.Packet.Control.{base_memory, encode_base, header_size}
use maid_safe_transport.Packet.Control.{set_additional_info}

pub record AckPacket : Type 0 where
  pub base : ControlPacket
  pub packet_sequence_number : ℕ
  pub has_optional_fields : Bool
  pub round_trip_time : ℕ
  pub round_trip_time_variance : ℕ
  pub available_buffer_size : ℕ
  pub packets_receiving_rate : ℕ
  pub estimated_link_capacity : ℕ

abbrev pub packet_size : ℕ
packet_size = 20

abbrev pub optional_packet_size : ℕ
optional_packet_size = 40

abbrev pub packet_type : ℕ
packet_type = 2

pub record IsValid (p : AckPacket) : Type 0 where
  pub base_valid : Control.IsValid p.base
  pub seqnum_fits : IsWord p.packet_sequence_number
  pub rtt_fits : IsWord p.round_trip_time
  pub variance_fits : IsWord p.round_trip_time_variance
  pub buffer_fits : IsWord p.available_buffer_size
  pub rate_fits : IsWord p.packets_receiving_rate
  pub capacity_fits : IsWord p.estimated_link_capacity

unfoldable pub ack_packet : AckPacket
unfolding control_packet
ack_packet = record {
  base = control_packet packet_type;
  packet_sequence_number = 0;
  has_optional_fields = false;
  round_trip_time = 0;
  round_trip_time_variance = 0;
  available_buffer_size = 0;
  packets_receiving_rate = 0;
  estimated_link_capacity = 0;
}

-- The fields that the receiver fills in, with the setters of the source in the order of its calls.
unfoldable pub ack_sequence_number : AckPacket → ℕ
ack_sequence_number p = p.base.additional_info

unfoldable pub set_ack_sequence_number : ℕ → AckPacket → AckPacket
unfolding set_additional_info
set_ack_sequence_number n p = record p { base = set_additional_info n p.base }

unfoldable pub is_valid : Buffer → Bool
unfolding is_valid_base
is_valid b =
    is_valid_base b packet_type && (b.size == packet_size || b.size == optional_packet_size)

-- `Decode` behind its guards, on the decoded header. A short packet leaves the optional fields of
-- the object as they were, `has_optional_fields_` among them.
unfoldable pub decode_body : AckPacket → Buffer → ControlPacket → AckPacket
decode_body self b header =
    let p = b.memory in
    let seqnum = decode_uint32 p 16 in
    if b.size == optional_packet_size
    then record {
      base = header;
      packet_sequence_number = seqnum;
      has_optional_fields = true;
      round_trip_time = decode_uint32 p 20;
      round_trip_time_variance = decode_uint32 p 24;
      available_buffer_size = decode_uint32 p 28;
      packets_receiving_rate = decode_uint32 p 32;
      estimated_link_capacity = decode_uint32 p 36;
    }
    else record self { base = header; packet_sequence_number = seqnum }

unfoldable pub decode : AckPacket → Buffer → Option AckPacket
unfolding is_valid decode_base decode_body
decode self b = if not (is_valid b) then none else elim (decode_base self.base b packet_type) [
  | none ↦ none
  | some header ↦ some (decode_body self b header)
]

unfoldable pub optional_memory : AckPacket → Memory → Memory
optional_memory self p =
    let p₀ = encode_uint32 self.round_trip_time p 20 in
    let p₁ = encode_uint32 self.round_trip_time_variance p₀ 24 in
    let p₂ = encode_uint32 self.available_buffer_size p₁ 28 in
    let p₃ = encode_uint32 self.packets_receiving_rate p₂ 32 in
    encode_uint32 self.estimated_link_capacity p₃ 36

unfoldable pub encode_body : AckPacket → Memory → Memory
unfolding optional_memory
encode_body self p =
    let p₀ = encode_uint32 self.packet_sequence_number p 16 in
    if self.has_optional_fields then optional_memory self p₀ else p₀

-- The first guard lets a buffer pass that has no room for the optional fields.
unfoldable pub encode : AckPacket → Buffer → ℕ × Buffer
unfolding encode_base encode_body
encode self b =
    let (written, b') = encode_base self.base b in
    if ltb b.size packet_size then (0, b) else if written == 0 then (0, b') else (
      (if self.has_optional_fields then optional_packet_size else packet_size),
      record b' { memory = encode_body self b'.memory },
    )
