-- ===== src/Packet/Handshake.antt =====
-- src/maidsafe/transport/rudp_handshake_packet.{h,cc}.
pub mod RoundTrip
use maid_safe_transport.Base.{ℕ, Bool, true, false, not, ◌&&◌, Option, none, some}
use maid_safe_transport.Base.{ltb, ◌==◌, if◌then◌else◌}
use maid_safe_transport.Packet.Address.{AddressOps}
use maid_safe_transport.Packet.Wire.{Memory, Buffer, IsWord, decode_uint32, encode_uint32}
use maid_safe_transport.Packet.Wire.{copy_to, bytes_from}
use maid_safe_transport.Packet.Control
use maid_safe_transport.Packet.Control.{ControlPacket, control_packet, is_valid_base, decode_base}
use maid_safe_transport.Packet.Control.{encode_base, set_destination_socket_id}

pub record HandshakePacket (V : Type 0) : Type 0 where
  pub base : ControlPacket
  pub rudp_version : ℕ
  pub socket_type : ℕ
  pub initial_packet_sequence_number : ℕ
  pub maximum_packet_size : ℕ
  pub maximum_flow_window_size : ℕ
  pub connection_type : ℕ
  pub socket_id : ℕ
  pub syn_cookie : ℕ
  pub ip_address : V

abbrev pub packet_size : ℕ
packet_size = 64

abbrev pub packet_type : ℕ
packet_type = 0

abbrev pub stream_socket_type : ℕ
stream_socket_type = 0

pub record IsValid {V : Type 0} (p : HandshakePacket V) : Type 0 where
  pub base_valid : Control.IsValid p.base
  pub version_fits : IsWord p.rudp_version
  pub socket_type_fits : IsWord p.socket_type
  pub seqnum_fits : IsWord p.initial_packet_sequence_number
  pub size_fits : IsWord p.maximum_packet_size
  pub window_fits : IsWord p.maximum_flow_window_size
  pub connection_fits : IsWord p.connection_type
  pub id_fits : IsWord p.socket_id
  pub cookie_fits : IsWord p.syn_cookie

unfoldable pub is_valid : Buffer → Bool
unfolding is_valid_base
is_valid b = is_valid_base b packet_type && b.size == packet_size

-- The eight words behind the header.
unfoldable pub words_memory : {V : Type 0} → HandshakePacket V → Memory → Memory
words_memory self p =
    let p₀ = encode_uint32 self.rudp_version p 16 in
    let p₁ = encode_uint32 self.socket_type p₀ 20 in
    let p₂ = encode_uint32 self.initial_packet_sequence_number p₁ 24 in
    let p₃ = encode_uint32 self.maximum_packet_size p₂ 28 in
    let p₄ = encode_uint32 self.maximum_flow_window_size p₃ 32 in
    let p₅ = encode_uint32 self.connection_type p₄ 36 in
    let p₆ = encode_uint32 self.socket_id p₅ 40 in encode_uint32 self.syn_cookie p₆ 44

module _ (ops : AddressOps) where
  open ops use {
    Address, AddressV6, is_v4, v4_compatible, to_v6, is_v4_compatible, to_v4, of_v6, unspecified,
    to_bytes, from_bytes,
  }

  unfoldable pub handshake_packet : HandshakePacket AddressV6
  unfolding control_packet
  handshake_packet = record {
    base = control_packet packet_type;
    rudp_version = 0;
    socket_type = 0;
    initial_packet_sequence_number = 0;
    maximum_packet_size = 0;
    maximum_flow_window_size = 0;
    connection_type = 0;
    socket_id = 0;
    syn_cookie = 0;
    ip_address = unspecified;
  }

  -- What `SetIpAddress` stores.
  unfoldable pub stored_address : Address → AddressV6
  stored_address a = if is_v4 a then v4_compatible a else to_v6 a

  -- What `IpAddress` makes of the address that is stored.
  unfoldable pub shown_address : HandshakePacket AddressV6 → Address
  shown_address self =
      if is_v4_compatible self.ip_address then to_v4 self.ip_address else of_v6 self.ip_address

  unfoldable pub decode : HandshakePacket AddressV6 → Buffer → Option (HandshakePacket AddressV6)
  unfolding is_valid decode_base
  decode self b =
      let p = b.memory in
      if not (is_valid b) then none else elim (decode_base self.base b packet_type) [
        | none ↦ none
        | some header ↦ some (record {
          base = header;
          rudp_version = decode_uint32 p 16;
          socket_type = decode_uint32 p 20;
          initial_packet_sequence_number = decode_uint32 p 24;
          maximum_packet_size = decode_uint32 p 28;
          maximum_flow_window_size = decode_uint32 p 32;
          connection_type = decode_uint32 p 36;
          socket_id = decode_uint32 p 40;
          syn_cookie = decode_uint32 p 44;
          ip_address = from_bytes (bytes_from p 48 16);
        })
      ]

  unfoldable pub body_memory : HandshakePacket AddressV6 → Memory → Memory
  unfolding words_memory
  body_memory self p = copy_to (words_memory self p) 48 (to_bytes self.ip_address)

  unfoldable pub encode : HandshakePacket AddressV6 → Buffer → ℕ × Buffer
  unfolding encode_base body_memory
  encode self b =
      let (written, b') = encode_base self.base b in
      if ltb b.size packet_size
      then (0, b)
      else if written == 0
      then (0, b')
      else (packet_size, record b' { memory = body_memory self b'.memory })
