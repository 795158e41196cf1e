-- ===== src/Packet/Data.antt =====
-- src/maidsafe/transport/rudp_data_packet.{h,cc}.
pub mod Flags
pub mod RoundTrip
use maid_safe_transport.Base.{
  ℕ, zero, suc, ◌+◌, ◌-◌, ◌*◌, ◌%◌, ◌^◌, ◌<◌, Bool, true, false, not, ◌&&◌,
}
use maid_safe_transport.Base.{Option, none, some, List, [], ◌∷◌, All, length}
use maid_safe_transport.Base.{bit_and, bit_or, ltb, leb, ◌==◌, if◌then◌else◌}
use maid_safe_transport.Packet.Wire.{Memory, Buffer, IsByte, IsWord, shl, shr, store}
use maid_safe_transport.Packet.Wire.{decode_uint32, encode_uint32, copy_to, bytes_from}

pub record DataPacket : Type 0 where
  pub packet_sequence_number : ℕ
  pub first_packet_in_message : Bool
  pub last_packet_in_message : Bool
  pub in_order : Bool
  pub message_number : ℕ
  pub time_stamp : ℕ
  pub destination_socket_id : ℕ
  pub payload : List ℕ

abbrev pub header_size : ℕ
header_size = 16

-- What the setters assert, and the ranges of the other fields' types.
pub record IsValid (p : DataPacket) : Type 0 where
  pub seqnum_fits : p.packet_sequence_number < 2 ^ 31
  pub message_fits : p.message_number < 2 ^ 29
  pub stamp_fits : IsWord p.time_stamp
  pub id_fits : IsWord p.destination_socket_id
  pub bytes : All IsByte p.payload

unfoldable pub data_packet : DataPacket
data_packet = record {
  packet_sequence_number = 0;
  first_packet_in_message = false;
  last_packet_in_message = false;
  in_order = false;
  message_number = 0;
  time_stamp = 0;
  destination_socket_id = 0;
  payload = [];
}

unfoldable pub is_valid : Buffer → Bool
is_valid b = leb header_size b.size && bit_and (b.memory 0) 0x80 == 0

-- Three more bytes below a first one, as `Decode` shifts them in.
unfoldable pub join_bytes : ℕ → Memory → ℕ → ℕ
join_bytes high p i =
    let n₁ = bit_or (shl high 8) (p i) in
    let n₂ = bit_or (shl n₁ 8) (p (i + 1)) in bit_or (shl n₂ 8) (p (i + 2))

-- `Decode` assigns every field, so nothing of the object remains.
unfoldable pub decode : Buffer → Option DataPacket
unfolding is_valid join_bytes
decode b =
    let p = b.memory in
    if not (is_valid b)
    then none
    else some (record {
      packet_sequence_number = join_bytes (bit_and (p 0) 0x7f) p 1;
      first_packet_in_message = not (bit_and (p 4) 0x80 == 0);
      last_packet_in_message = not (bit_and (p 4) 0x40 == 0);
      in_order = not (bit_and (p 4) 0x20 == 0);
      message_number = join_bytes (bit_and (p 4) 0x1f) p 5;
      time_stamp = decode_uint32 p 8;
      destination_socket_id = decode_uint32 p 12;
      payload = bytes_from p 16 (b.size - 16);
    })

-- `byte |= (flag ? bit : 0)`
abbrev pub or_flag : ℕ → Bool → ℕ → ℕ
or_flag byte flag bit = bit_or byte (if flag then bit else 0)

unfoldable pub flags_byte : DataPacket → ℕ
flags_byte self =
    let b₀ = bit_and (shr self.message_number 24) 0x1f in
    let b₁ = or_flag b₀ self.first_packet_in_message 0x80 in
    let b₂ = or_flag b₁ self.last_packet_in_message 0x40 in or_flag b₂ self.in_order 0x20

-- The first eight bytes.
unfoldable pub numbers_memory : DataPacket → Memory → Memory
unfolding flags_byte
numbers_memory self p =
    let n = self.packet_sequence_number in
    let m = self.message_number in
    let p₀ = store p 0 (bit_and (shr n 24) 0x7f) in
    let p₁ = store p₀ 1 (bit_and (shr n 16) 0xff) in
    let p₂ = store p₁ 2 (bit_and (shr n 8) 0xff) in
    let p₃ = store p₂ 3 (bit_and n 0xff) in
    let p₄ = store p₃ 4 (flags_byte self) in
    let p₅ = store p₄ 5 (bit_and (shr m 16) 0xff) in
    let p₆ = store p₅ 6 (bit_and (shr m 8) 0xff) in store p₆ 7 (bit_and m 0xff)

unfoldable pub packet_memory : DataPacket → Memory → Memory
unfolding numbers_memory
packet_memory self p =
    let p₀ = numbers_memory self p in
    let p₁ = encode_uint32 self.time_stamp p₀ 8 in
    let p₂ = encode_uint32 self.destination_socket_id p₁ 12 in copy_to p₂ header_size self.payload

unfoldable pub encode : DataPacket → Buffer → ℕ × Buffer
unfolding packet_memory
encode self b =
    let size = header_size + length self.payload in
    if ltb b.size size then (0, b) else (size, record b { memory = packet_memory self b.memory })
