-- ===== src/Packet/Control.antt =====
-- src/maidsafe/transport/rudp_control_packet.{h,cc}, and the control packets that add no field of
-- their own: rudp_keepalive_packet.cc, rudp_shutdown_packet.cc and rudp_ack_of_ack_packet.cc.
-- A decoder returns the packet as it leaves it, and `none` where the source answers false, with
-- the packet untouched. An encoder returns the answer of the source and the buffer behind it.
pub mod Codec
use maid_safe_transport.Base.{ℕ, ◌*◌, ◌%◌, ◌^◌, ◌<◌, Bool, not, ◌&&◌, Option, none, some}
use maid_safe_transport.Base.{bit_and, bit_or, ltb, leb, ◌==◌, if◌then◌else◌}
use maid_safe_transport.Packet.Wire.{Memory, Buffer, IsWord, shr, store}
use maid_safe_transport.Packet.Wire.{decode_uint32, encode_uint32}

pub record ControlPacket : Type 0 where
  pub type : ℕ
  pub additional_info : ℕ
  pub time_stamp : ℕ
  pub destination_socket_id : ℕ

-- The ranges of the fields: `SetType` asserts the first, the others are the types' ranges.
pub record IsValid (p : ControlPacket) : Type 0 where
  pub type_fits : p.type < 2 ^ 15
  pub info_fits : IsWord p.additional_info
  pub stamp_fits : IsWord p.time_stamp
  pub id_fits : IsWord p.destination_socket_id

abbrev pub header_size : ℕ
header_size = 16

-- A new packet with the type that its class sets.
unfoldable pub control_packet : ℕ → ControlPacket
control_packet t = record {
  type = t;
  additional_info = 0;
  time_stamp = 0;
  destination_socket_id = 0;
}

unfoldable pub set_additional_info : ℕ → ControlPacket → ControlPacket
set_additional_info n p = record p { additional_info = n }

unfoldable pub set_destination_socket_id : ℕ → ControlPacket → ControlPacket
set_destination_socket_id n p = record p { destination_socket_id = n }

unfoldable pub is_valid_base : Buffer → ℕ → Bool
is_valid_base b expected =
    let p = b.memory in
    leb header_size b.size
    && not (bit_and (p 0) 0x80 == 0)
    && bit_and (p 0) 0x7f == bit_and (shr expected 8) 0x7f
    && p 1 == bit_and expected 0xff

-- `type_` is a uint16_t.
unfoldable pub decode_base : ControlPacket → Buffer → ℕ → Option ControlPacket
unfolding is_valid_base
decode_base self b expected =
    let p = b.memory in
    let high = bit_and (p 0) 0x7f in
    let decoded : ControlPacket = record {
      type = bit_or (high * 2 ^ 8) (p 1) % 2 ^ 16;
      additional_info = decode_uint32 p 4;
      time_stamp = decode_uint32 p 8;
      destination_socket_id = decode_uint32 p 12;
    } in
    if not (is_valid_base b expected) then none else some decoded

-- The memory behind the writes of `EncodeBase`.
unfoldable pub base_memory : ControlPacket → Memory → Memory
base_memory self p =
    let p₀ = store p 0 (bit_and (shr self.type 8) 0x7f) in
    let p₁ = store p₀ 0 (bit_or (p₀ 0) 0x80) in
    let p₂ = store p₁ 1 (bit_and self.type 0xff) in
    let p₃ = store (store p₂ 3 0) 2 0 in
    let p₄ = encode_uint32 self.additional_info p₃ 4 in
    let p₅ = encode_uint32 self.time_stamp p₄ 8 in encode_uint32 self.destination_socket_id p₅ 12

unfoldable pub encode_base : ControlPacket → Buffer → ℕ × Buffer
unfolding base_memory
encode_base self b =
    if ltb b.size header_size
    then (0, b)
    else (header_size, record b { memory = base_memory self b.memory })

abbrev pub keepalive_type : ℕ
keepalive_type = 1

abbrev pub shutdown_type : ℕ
shutdown_type = 5

abbrev pub ack_of_ack_type : ℕ
ack_of_ack_type = 6

unfoldable pub keepalive_packet : ControlPacket
unfolding control_packet
keepalive_packet = control_packet keepalive_type

unfoldable pub shutdown_packet : ControlPacket
unfolding control_packet
shutdown_packet = control_packet shutdown_type

unfoldable pub ack_of_ack_packet : ControlPacket
unfolding control_packet
ack_of_ack_packet = control_packet ack_of_ack_type

-- `IsValid` of the keepalive, the shutdown and the ack-of-ack packet.
unfoldable pub keepalive_is_valid : Buffer → Bool
unfolding is_valid_base
keepalive_is_valid b = is_valid_base b keepalive_type && b.size == header_size

unfoldable pub shutdown_is_valid : Buffer → Bool
unfolding is_valid_base
shutdown_is_valid b = is_valid_base b shutdown_type && b.size == header_size

unfoldable pub ack_of_ack_is_valid : Buffer → Bool
unfolding is_valid_base
ack_of_ack_is_valid b = is_valid_base b ack_of_ack_type && b.size == header_size

unfoldable pub keepalive_decode : ControlPacket → Buffer → Option ControlPacket
unfolding keepalive_is_valid decode_base
keepalive_decode self b =
    if not (keepalive_is_valid b) then none else decode_base self b keepalive_type

unfoldable pub shutdown_decode : ControlPacket → Buffer → Option ControlPacket
unfolding shutdown_is_valid decode_base
shutdown_decode self b =
    if not (shutdown_is_valid b) then none else decode_base self b shutdown_type

-- Alone of the three it does not ask for `IsValid`.
unfoldable pub ack_of_ack_decode : ControlPacket → Buffer → Option ControlPacket
unfolding decode_base
ack_of_ack_decode self b = decode_base self b ack_of_ack_type

unfoldable pub ack_sequence_number : ControlPacket → ℕ
ack_sequence_number p = p.additional_info

unfoldable pub set_ack_sequence_number : ℕ → ControlPacket → ControlPacket
unfolding set_additional_info
set_ack_sequence_number n p = set_additional_info n p
