-- ===== src/Examples/Fixtures.antt =====
-- Times as numbers of microseconds, addresses with one bit of content, the products with 0.9 and 1.5
-- rounded down, and values of the state types, for the code of src/maidsafe/transport/rudp_*.
use maid_safe_transport.Base.{ℕ, zero, suc, ◌+◌, ◌-◌, ◌*◌, ◌/◌, ◌^◌, ◌≡◌, refl, Bool, true, false}
use maid_safe_transport.Base.{List, [], ◌∷◌, length, ltb, leb, ◌==◌}
use maid_safe_transport.Time.{TimeOps}
use maid_safe_transport.Packet.Address.{AddressOps}
use maid_safe_transport.Packet.Wire.{Buffer}
use maid_safe_transport.Packet.Control.{ControlPacket}
use maid_safe_transport.Packet.Data.{DataPacket}
use maid_safe_transport.Packet.Ack.{AckPacket}
use maid_safe_transport.Packet.NegativeAck.{NegativeAckPacket}
use maid_safe_transport.Packet.Handshake.{HandshakePacket}
use maid_safe_transport.Window.{Window, reset}
use maid_safe_transport.Congestion.{DoubleOps, Congestion, new_congestion}
use maid_safe_transport.Session.{Session, Link, State, Mode}
use maid_safe_transport.Sender.{Sender, UnackedPacket}
use maid_safe_transport.Receiver.{Receiver, UnreadPacket}
use maid_safe_transport.Stream.Network.{System}

abbrev pub time_ops : TimeOps
time_ops = record {
  Time = ℕ;
  Duration = ℕ;
  not_a_date_time = 0;
  pos_infin = 2 ^ 63;
  later = λ t d. t + d;
  since = λ t u. t - u;
  before = λ t u. ltb t u;
  up_to = λ t u. leb t u;
  same_time = λ t u. t == u;
  milliseconds = λ n. n * 1000;
  microseconds = λ n. n;
  plus = λ d e. d + e;
  longer = λ d e. ltb e d;
  total_milliseconds = λ d. d / 1000;
  total_microseconds = λ d. d;
}

abbrev pub double_ops : DoubleOps
double_ops = record { nine_tenths = λ n. n * 9 / 10; three_halves = λ n. n * 3 / 2 }

abbrev zeros : ℕ → List ℕ
zeros zero = []
zeros (suc n) = 0 ∷ zeros n

abbrev to_bytes : Bool → List ℕ
to_bytes true = 1 ∷ zeros 15
to_bytes false = 0 ∷ zeros 15

abbrev from_bytes : List ℕ → Bool
from_bytes [] = false
from_bytes (x ∷ xs) = x == 1

pub length-to_bytes : (a : Bool) → length (to_bytes a) ≡ 16
length-to_bytes true = refl
length-to_bytes false = refl

pub from_bytes-to_bytes : (a : Bool) → ◌≡◌ {A = ℕ} 0 0 → from_bytes (to_bytes a) ≡ a
from_bytes-to_bytes true h = refl
from_bytes-to_bytes false h = refl

abbrev pub address_ops : AddressOps
address_ops = record {
  Address = Bool;
  AddressV6 = Bool;
  is_v4 = λ a. false;
  v4_compatible = λ a. a;
  to_v6 = λ a. a;
  is_v4_compatible = λ a. false;
  to_v4 = λ a. a;
  of_v6 = λ a. a;
  unspecified = false;
  scope_id = λ a. 0;
  to_bytes = to_bytes;
  from_bytes = from_bytes;
  length-to_bytes = length-to_bytes;
  from_bytes-to_bytes = from_bytes-to_bytes;
}

abbrev pub buffer : Buffer
buffer = record { size = 1500; memory = λ i. 7 }

abbrev pub header : ℕ → ControlPacket
header type = record {
  type = type;
  additional_info = 5;
  time_stamp = 0xfedcba98;
  destination_socket_id = 77;
}

abbrev pub packet : DataPacket
packet = record {
  packet_sequence_number = 0x7fffffff;
  first_packet_in_message = true;
  last_packet_in_message = false;
  in_order = true;
  message_number = 0x12345678;
  time_stamp = 1;
  destination_socket_id = 2;
  payload = 10 ∷ 20 ∷ 30 ∷ [];
}

abbrev pub ack : AckPacket
ack = record {
  base = header 2;
  packet_sequence_number = 0;
  has_optional_fields = true;
  round_trip_time = 1000;
  round_trip_time_variance = 10;
  available_buffer_size = 8192;
  packets_receiving_rate = 50;
  estimated_link_capacity = 60;
}

abbrev pub negative_ack : NegativeAckPacket
negative_ack = record { base = header 3; sequence_numbers = 0xffffffff ∷ 1 ∷ 9 ∷ [] }

abbrev pub handshake : HandshakePacket Bool
handshake = record {
  base = header 0;
  rudp_version = 4;
  socket_type = 0;
  initial_packet_sequence_number = 100;
  maximum_packet_size = 25980;
  maximum_flow_window_size = 512;
  connection_type = 1;
  socket_id = 3;
  syn_cookie = 1;
  ip_address = true;
}

-- Two numbers, the largest and 0.
abbrev pub window : Window ℕ
window = record { items = 11 ∷ 22 ∷ []; maximum_size = 16; begin = 0x7fffffff; end = 1 }

abbrev pub congestion : Congestion ℕ ℕ
congestion = new_congestion time_ops

abbrev pub unacked : UnackedPacket ℕ
unacked = record { packet = packet; lost = true; last_send_time = 0 }

-- Two packets in the window, the second not lost.
abbrev pub sender : Sender ℕ ℕ
sender = record {
  unacked_packets = record {
    items = unacked ∷ record unacked { lost = false } ∷ [];
    maximum_size = 16;
    begin = 0x7fffffff;
    end = 1;
  };
  send_timeout = 2 ^ 63;
  congestion = congestion;
  expires_at = 2 ^ 63;
  sent = [];
}

abbrev pub unread : UnreadPacket ℕ
unread = record { packet = packet; lost = false; bytes_read = 1; reserve_time = 0 }

-- A packet that is half read, and a lost one.
abbrev pub receiver : Receiver ℕ ℕ
receiver = record {
  unread_packets = record {
    items = unread ∷ record unread { lost = true; bytes_read = 0 } ∷ [];
    maximum_size = 16;
    begin = 0x7fffffff;
    end = 1;
  };
  acks = record {
    items = record { packet = ack; send_time = 0 } ∷ [];
    maximum_size = 16;
    begin = 5;
    end = 6;
  };
  last_ack_packet_sequence_number = 0x7fffffff;
  ack_sent_time = 0;
  congestion = congestion;
  expires_at = 2 ^ 63;
  sent = [];
}

abbrev pub session : Mode → State → Session
session mode state = record {
  id = 1;
  sending_sequence_number = 100;
  receiving_sequence_number = 200;
  peer_connection_type = 0;
  mode = mode;
  state = state;
}

abbrev pub link : Mode → State → ℕ → Link Bool Bool ℕ
link mode state peer_id = record {
  session = session mode state;
  peer = record { address = true; id = peer_id };
  expires_at = 2 ^ 63;
  sent = [];
}

-- The two ends of a connection that has just opened at the largest number.
abbrev pub opened : System time_ops
opened = record {
  sender = record sender { unacked_packets = reset 0x7fffffff };
  receiver = record receiver { unread_packets = reset 0x7fffffff };
  accepted = [];
  delivered = [];
  numbered = 0;
}
