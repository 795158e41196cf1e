-- ===== src/Examples/Connections.antt =====
-- Connections of src/maidsafe/transport/rudp_connection.cc that send and receive a message of three
-- bytes, and an empty one.
use maid_safe_transport.Base.{
  ℕ, ◌+◌, ◌≡◌, refl, arith, true, false, List, [], ◌∷◌, take, drop, ◌==◌,
}
use maid_safe_transport.Congestion.{new_congestion}
use maid_safe_transport.Socket.{Socket, Answers, no_error, complete, async_wait}
use maid_safe_transport.Connection.{
  ConnectionOps, Connection, receiving, stopped, loaded, encode_data, size_of, is_slow,
}
use maid_safe_transport.Connection.Steps.{handle_read_size, handle_read_data}
use maid_safe_transport.Connection.Messages.{read_all, AllRead, bytes_read, message_arrives}
use maid_safe_transport.Connection.Empty.{empty_message_stays}
use maid_safe_transport.Examples.Sockets.{socket_ops, socket, answers}

abbrev connection_ops : ConnectionOps
connection_ops = record { socket_ops = socket_ops; same_duration = λ d e. d == e }

-- A connection whose socket has read the four bytes of a size.
abbrev connection : Connection connection_ops
connection = record {
  transport = true;
  socket = record socket {
    waiting_read_bytes = 0 ∷ 0 ∷ 0 ∷ 3 ∷ [];
    waiting_read_bytes_transferred = 4;
  };
  timer = 0;
  response_deadline = 0;
  remote_endpoint = true;
  buffer = 9 ∷ 9 ∷ 9 ∷ 9 ∷ [];
  read_offset = 0;
  data_size = 0;
  data_received = 0;
  timeout_for_response = 1000;
  timeout_state = receiving;
  errors = [];
  answers = [];
  posted = 0;
  messages = [];
  removed = 0;
}

abbrev message : List ℕ
message = 7 ∷ 8 ∷ 9 ∷ []

abbrev reads : List (Answers ℕ × Socket socket_ops)
reads =
    (answers, record socket { waiting_read_bytes = 7 ∷ 8 ∷ []; waiting_read_bytes_transferred = 2 })
    ∷ (answers, record socket { waiting_read_bytes = 9 ∷ []; waiting_read_bytes_transferred = 1 })
    ∷ []

goes_on : stopped connection_ops connection ≡ false
unfolding stopped
goes_on = refl

size_read :
    loaded connection_ops connection
    ≡ take 4 (encode_data connection_ops 5 message connection).buffer
unfolding encode_data
size_read = refl

message_read :
    bytes_read connection_ops reads
    ≡ drop 4 (encode_data connection_ops 5 message connection).buffer
unfolding encode_data
message_read = refl

reads-AllRead : AllRead connection_ops reads (handle_read_size connection_ops 6 no_error connection)
unfolding handle_read_size handle_read_data is_slow new_congestion
reads-AllRead = (
  record {
    open_still = refl;
    counted = refl;
    some_bytes = omega arith;
    has_room = omega arith;
    not_slow = refl;
  },
  (
    record {
      open_still = refl;
      counted = refl;
      some_bytes = omega arith;
      has_room = omega arith;
      not_slow = refl;
    },
    tt,
  ),
)

message_arrives_example :
    let c = read_all connection_ops reads (handle_read_size connection_ops 6 no_error connection) in
    (c.buffer ≡ message) × (c.posted ≡ 0 + 1)
message_arrives_example =
    message_arrives connection_ops message 5 6 connection connection reads (omega arith)
      (omega arith) goes_on size_read reads-AllRead message_read

abbrev emptied : Connection connection_ops
emptied = record connection {
  socket = record socket {
    waiting_read_bytes = 0 ∷ 0 ∷ 0 ∷ 0 ∷ [];
    waiting_read_bytes_transferred = 4;
  };
}

emptied_goes_on : stopped connection_ops emptied ≡ false
unfolding stopped
emptied_goes_on = refl

empty_size : size_of (loaded connection_ops emptied) ≡ 0
unfolding size_of
empty_size = refl

empty_message_stays_example :
    let c' = handle_read_size connection_ops 6 no_error emptied in
    let count = c'.socket.waiting_read_bytes_transferred in
    (c'.socket.waiting_read ≡ complete no_error (async_wait socket.waiting_read))
    × (count ≡ 4)
    × ((handle_read_data connection_ops answers no_error count c').posted ≡ 0)
empty_message_stays_example =
    empty_message_stays connection_ops 6 answers emptied emptied_goes_on empty_size refl
