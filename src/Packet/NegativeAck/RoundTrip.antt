-- ===== src/Packet/NegativeAck/RoundTrip.antt =====
-- A negative acknowledgement packet, encoded and decoded.
use maid_safe_transport.Base.{ℕ, ◌+◌, ◌-◌, ◌*◌, ◌/◌, ◌≤◌, ◌<◌, ◌≡◌, ◌∙◌, refl, inl, arith}
use maid_safe_transport.Base.{some, List, [], ◌∷◌, length, All, ap₂}
use maid_safe_transport.Packet.Wire.{Memory, Buffer, IsWord, encode_uint32}
use maid_safe_transport.Packet.Wire.Words.{
  encode_uint32_frame, decode_uint32-encode_uint32, decode_uint32_congr,
}
use maid_safe_transport.Packet.Control.{base_memory, header_size}
use maid_safe_transport.Packet.Control.Codec.{decode_base-base_memory, is_valid_base-base_memory}
use maid_safe_transport.Packet.NegativeAck.{NegativeAckPacket, IsValid, is_valid, decode, encode}
use maid_safe_transport.Packet.NegativeAck.{encode_words, decode_words, packet_type}

encode_words_frame : (ws : List ℕ) (p : Memory) (i j : ℕ) → j < i → encode_words ws p i j ≡ p j
unfolding encode_words
encode_words_frame [] p i j h = refl
encode_words_frame (w ∷ ws) p i j h =
    encode_words_frame ws (encode_uint32 w p i) (i + 4) j (omega arith)
    ∙ encode_uint32_frame w p i j (inl h)

decode_words-encode_words :
    (ws : List ℕ) (p : Memory) (i : ℕ)
    → All IsWord ws
    → decode_words (length ws) (encode_words ws p i) i ≡ ws
unfolding encode_words decode_words
decode_words-encode_words [] p i h = refl
decode_words-encode_words (w ∷ ws) p i (hw, hws) =
    let q = encode_uint32 w p i in
    let keep = λ (j : ℕ) (h : j < i + 4). encode_words_frame ws q (i + 4) j h in
    ap₂ ◌∷◌
      (decode_uint32_congr (encode_words ws q (i + 4)) q i (keep i (omega arith))
          (keep (i + 1) (omega arith)) (keep (i + 2) (omega arith)) (keep (i + 3) (omega arith))
        ∙ decode_uint32-encode_uint32 w p i hw)
      (decode_words-encode_words ws q (i + 4) hws)

-- A packet that names a sequence number at least is encoded into a buffer with room at the size
-- that `Encode` answers, and `Decode` of those bytes gives it back, entry by entry.
pub decode-encode_negative_ack :
    (self p : NegativeAckPacket) (b : Buffer)
    → IsValid p
    → p.base.type ≡ packet_type
    → 0 < length p.sequence_numbers
    → header_size + length p.sequence_numbers * 4 ≤ b.size
    → let (n, b') = encode p b in
      (n ≡ header_size + length p.sequence_numbers * 4)
      × (decode self (record b' { size = n }) ≡ some p)
unfolding encode decode is_valid
decode-encode_negative_ack self p b v t some_number room =
    let ws = p.sequence_numbers in
    let m = base_memory p.base b.memory in
    let s = 16 + length ws * 4 in
    let count : (s - 16) / 4 ≡ length ws = omega arith in
    let keep = λ (j : ℕ) (h : j < 16). encode_words_frame ws m 16 j h in
    ground (
      arith,
      count,
      is_valid_base-base_memory p.base b.memory (encode_words ws m 16) v.base_valid keep s
          packet_type,
      decode_base-base_memory p.base b.memory (encode_words ws m 16) v.base_valid keep self.base s
          packet_type,
      decode_words-encode_words ws m 16 v.words,
    )
