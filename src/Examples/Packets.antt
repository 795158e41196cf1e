-- ===== src/Examples/Packets.antt =====
-- Packets of src/maidsafe/transport/rudp_*_packet.cc, encoded and decoded.
use maid_safe_transport.Base.{◌+◌, ◌*◌, ◌<◌, ◌≡◌, [], ◌∷◌}
use maid_safe_transport.Base.{none, some, arith, refl, if◌then◌else◌, ◌==◌}
use maid_safe_transport.Packet.Wire.{decode_uint32, encode_uint32}
use maid_safe_transport.Packet.Wire.Words.{decode_uint32-encode_uint32}
use maid_safe_transport.Packet.Control
use maid_safe_transport.Packet.Control.{decode_base, encode_base}
use maid_safe_transport.Packet.Control.Codec.{decode_base-encode_base}
use maid_safe_transport.Packet.Data
use maid_safe_transport.Packet.Data.RoundTrip.{decode-encode_data}
use maid_safe_transport.Packet.Ack
use maid_safe_transport.Packet.Ack.RoundTrip.{decode-encode_ack, encode_overruns}
use maid_safe_transport.Packet.NegativeAck
use maid_safe_transport.Packet.NegativeAck.{contains_sequence_number, negative_ack_packet}
use maid_safe_transport.Packet.NegativeAck.RoundTrip.{decode-encode_negative_ack}
use maid_safe_transport.Packet.NegativeAck.Ranges.{
  single, range, add_all, covered, contains-add_all,
}
use maid_safe_transport.Packet.Handshake
use maid_safe_transport.Packet.Handshake.RoundTrip.{decode-encode_handshake}
use maid_safe_transport.Examples.Fixtures.{address_ops, buffer, header, packet, ack, negative_ack}
use maid_safe_transport.Examples.Fixtures.{handshake}

decode_uint32-encode_uint32_example :
    decode_uint32 (encode_uint32 0x12345678 (λ i. 7) 3) 3 ≡ 0x12345678
decode_uint32-encode_uint32_example =
    decode_uint32-encode_uint32 0x12345678 (λ i. 7) 3 (omega arith)

header-IsValid : Control.IsValid (header 5)
header-IsValid = omega arith

decode_base-encode_base_example :
    let (n, b') = encode_base (header 5) buffer in
    (n ≡ 16)
    × (decode_base (header 1) (record b' { size = n }) 5
        ≡ (if 5 == 5 then some (header 5) else none))
decode_base-encode_base_example =
    decode_base-encode_base (header 1) (header 5) buffer 5 header-IsValid (omega arith)
      (omega arith)

packet_IsValid : Data.IsValid packet
packet_IsValid = ground arith

decode-encode_data_example :
    let (n, b') = Data.encode packet buffer in
    (n ≡ 16 + 3) × (Data.decode (record b' { size = n }) ≡ some packet)
decode-encode_data_example = decode-encode_data packet buffer packet_IsValid (omega arith)

ack-IsValid : Ack.IsValid ack
ack-IsValid = ground arith

decode-encode_ack_example :
    let (n, b') = Ack.encode ack buffer in
    (n ≡ 40) × (Ack.decode Ack.ack_packet (record b' { size = n }) ≡ some ack)
decode-encode_ack_example =
    decode-encode_ack Ack.ack_packet ack buffer ack-IsValid refl (omega arith)

encode_overruns_example : 20 < (Ack.encode ack (record buffer { size = 20 })).0
encode_overruns_example =
    encode_overruns ack (record buffer { size = 20 }) refl (omega arith) (omega arith)

negative_ack-IsValid : NegativeAck.IsValid negative_ack
negative_ack-IsValid = ground arith

decode-encode_negative_ack_example :
    let (n, b') = NegativeAck.encode negative_ack buffer in
    (n ≡ 16 + 3 * 4)
    × (NegativeAck.decode negative_ack_packet (record b' { size = n }) ≡ some negative_ack)
decode-encode_negative_ack_example =
    decode-encode_negative_ack negative_ack_packet negative_ack buffer negative_ack-IsValid refl
      (omega arith) (omega arith)

contains-add_all_example :
    contains_sequence_number
      (add_all (range 0x7ffffff0 4 ∷ single 9 ∷ []) negative_ack_packet)
      0x7fffffff
    ≡ covered (range 0x7ffffff0 4 ∷ single 9 ∷ []) 0x7fffffff
contains-add_all_example =
    contains-add_all (range 0x7ffffff0 4 ∷ single 9 ∷ []) 0x7fffffff (omega arith) (omega arith)

handshake-IsValid : Handshake.IsValid handshake
handshake-IsValid = ground arith

decode-encode_handshake_example :
    let (n, b') = Handshake.encode address_ops handshake buffer in
    (n ≡ 64)
    × (Handshake.decode address_ops
          (Handshake.handshake_packet address_ops)
          (record b' { size = n })
        ≡ some handshake)
decode-encode_handshake_example =
    decode-encode_handshake address_ops (Handshake.handshake_packet address_ops) handshake buffer
      handshake-IsValid refl refl (omega arith)
