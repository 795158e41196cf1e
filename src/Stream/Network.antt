-- ===== src/Stream/Network.antt =====
-- A sender (src/maidsafe/transport/rudp_sender.cc) and a receiver (rudp_receiver.cc) on the two ends
-- of a connection, and a network between them that loses, repeats and reorders data packets: one
-- that was sent can arrive any number of times, at any later step. The sender is given any
-- acknowledgements, and both are given any clock.
use maid_safe_transport.Base.{ℕ, ◌+◌, ◌-◌, ◌^◌, ◌<◌, ◌≡◌, Bool, List, [], ◌∷◌, ◌++◌, take}
use maid_safe_transport.Time.{TimeOps}
use maid_safe_transport.Packet.Ack.{AckPacket}
use maid_safe_transport.Packet.Control.{ControlPacket}
use maid_safe_transport.Packet.Data.{DataPacket}
use maid_safe_transport.Packet.NegativeAck.{NegativeAckPacket}
use maid_safe_transport.Congestion.{DoubleOps}
use maid_safe_transport.Window.{size, reset}
use maid_safe_transport.Sender
use maid_safe_transport.Sender.{Sent, data_sent}
use maid_safe_transport.Receiver

-- The two ends, the bytes that `AddData` took and those that `ReadData` copied out, and how many
-- packets `AddData` made.
pub record Network (Time Duration : Type 0) : Type 0 where
  pub sender : Sender.Sender Time Duration
  pub receiver : Receiver.Receiver Time Duration
  pub accepted : List ℕ
  pub delivered : List ℕ
  pub numbered : ℕ

module _ (ops : TimeOps) where
  open ops use {Time, Duration}

  abbrev pub System : Type 0
  System = Network Time Duration

  -- `AddData` of some bytes.
  unfoldable pub written : Time → (ℕ → Bool) → ℕ → List ℕ → System → System
  written now succeeds peer_id bytes s =
      let (taken, t) = Sender.add_data ops now succeeds peer_id bytes s.sender in
      record s {
        sender = t;
        accepted = s.accepted ++ take taken bytes;
        numbered = s.numbered + (size t.unacked_packets - size s.sender.unacked_packets);
      }

  -- `ReadData` into a buffer of some size.
  unfoldable pub read : ℕ → System → System
  read room s =
      let (bytes, t) = Receiver.read_data ops room s.receiver in
      record s { receiver = t; delivered = s.delivered ++ bytes }

  abbrev pub at_sender : System → Sender.State ops → System
  at_sender s t = record s { sender = t }

  abbrev pub at_receiver : System → Receiver.State ops → System
  at_receiver s t = record s { receiver = t }

  -- What can happen. `acked` is the only step that asks something of what arrives: the number of an
  -- acknowledgement is one of 32 bits.
  pub data Step : System → System → Type 0 where
    wrote :
        (now : Time) (succeeds : ℕ → Bool) (peer_id : ℕ) (bytes : List ℕ) (s : System)
        → Step s (written now succeeds peer_id bytes s)
    acked :
        (d : DoubleOps) (now : Time) (succeeds : ℕ → Bool) (peer_id : ℕ) (p : AckPacket)
        (s : System)
        → p.packet_sequence_number < 2 ^ 32
        → Step s (at_sender s (Sender.handle_ack ops d now succeeds peer_id p s.sender))
    refused :
        (now : Time) (succeeds : ℕ → Bool) (p : NegativeAckPacket) (s : System)
        → Step s (at_sender s (Sender.handle_negative_ack ops now succeeds p s.sender))
    sender_ticked :
        (now : Time) (now_at : ℕ → Time) (now' : Time) (succeeds : ℕ → Bool) (s : System)
        → Step s (at_sender s (Sender.handle_tick ops now now_at now' succeeds s.sender))
    arrived :
        (now_at : ℕ → Time) (now now' now'' : Time) (before after : List Sent) (p : DataPacket)
        (s : System)
        → s.sender.sent ≡ before ++ data_sent p ∷ after
        → Step s (at_receiver s (Receiver.handle_data ops now_at now now' now'' p s.receiver))
    answered :
        (now : Time) (p : ControlPacket) (s : System)
        → Step s (at_receiver s (Receiver.handle_ack_of_ack ops now p s.receiver))
    receiver_ticked :
        (sort : List ℕ → List ℕ) (peer_id : ℕ) (now : Time) (outer_now inner_now : ℕ → Time)
        (now' : Time) (s : System)
        → Step s (
            at_receiver s
              (Receiver.handle_tick ops sort peer_id now outer_now inner_now now' s.receiver))
    was_read : (room : ℕ) (s : System) → Step s (read room s)

  pub data Reach (s : System) : System → Type 0 where
    here : Reach s s
    after : {t u : System} → Reach s t → Step t u → Reach s u

  -- A connection that has just opened: both windows are empty and begin at the same number.
  pub record IsOpened (start : ℕ) (s : System) : Type 0 where
    pub unacked : s.sender.unacked_packets ≡ reset start
    pub unread : s.receiver.unread_packets ≡ reset start
    pub none_sent : s.sender.sent ≡ []
    pub none_accepted : s.accepted ≡ []
    pub none_delivered : s.delivered ≡ []
    pub none_numbered : s.numbered ≡ 0
