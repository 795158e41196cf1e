-- ===== src/Packet/NegativeAck/Ranges.antt =====
-- The set of sequence numbers that a negative acknowledgement names.
use maid_safe_transport.Base.{ℕ, ◌+◌, ◌-◌, ◌%◌, ◌^◌, ◌<◌, ◌≡◌, ◌∙◌, refl, arith}
use maid_safe_transport.Base.{Bool, false, ◌||◌, List, [], ◌∷◌, ◌++◌, All, ap}
use maid_safe_transport.Base.{bit_and, bit_or, leb, ◌==◌, append_assoc, append-nil, sym}
use maid_safe_transport.Base.Bits.{and_mask, and_bit, or_bit}
use maid_safe_transport.Packet.NegativeAck.{NegativeAckPacket, negative_ack_packet}
use maid_safe_transport.Packet.NegativeAck.{add_sequence_number, add_sequence_numbers, in_range}
use maid_safe_transport.Packet.NegativeAck.{any_contains, contains_sequence_number}

-- A call of `AddSequenceNumber` or of `AddSequenceNumbers`.
pub data Entry : Type 0 where
  single : ℕ → Entry
  range : ℕ → ℕ → Entry

-- The calls' assertions.
abbrev pub IsEntry : Entry → Type 0
IsEntry (single n) = n < 2 ^ 31
IsEntry (range first last) = (first < 2 ^ 31) × (last < 2 ^ 31)

unfoldable pub add : Entry → NegativeAckPacket → NegativeAckPacket
unfolding add_sequence_number add_sequence_numbers
add (single n) p = add_sequence_number n p
add (range first last) p = add_sequence_numbers first last p

unfoldable pub add_all : List Entry → NegativeAckPacket → NegativeAckPacket
unfolding add
add_all [] p = p
add_all (e ∷ es) p = add_all es (add e p)

-- How far `n` lies behind `first` on the circle of the sequence numbers.
abbrev pub distance : ℕ → ℕ → ℕ
distance first n = (n + 2 ^ 31 - first) % 2 ^ 31

-- A range names the numbers that are met on the way from its first to its last.
abbrev pub covers : Entry → ℕ → Bool
covers (single m) n = m == n
covers (range first last) n = leb (distance first n) (distance first last)

abbrev pub covered : List Entry → ℕ → Bool
covered [] n = false
covered (e ∷ es) n = covers e n || covered es n

abbrev words : Entry → List ℕ
words (single n) = n ∷ []
words (range first last) = bit_or first 0x80000000 ∷ last ∷ []

abbrev all_words : List Entry → List ℕ
all_words [] = []
all_words (e ∷ es) = words e ++ all_words es

add_all-words :
    (es : List Entry) (p : NegativeAckPacket)
    → (add_all es p).sequence_numbers ≡ p.sequence_numbers ++ all_words es
unfolding add_all add
add_all-words [] p = sym (append-nil p.sequence_numbers)
add_all-words (single n ∷ es) p =
    add_all-words es _ ∙ append_assoc p.sequence_numbers (n ∷ []) (all_words es)
add_all-words (range f l ∷ es) p =
    add_all-words es _
    ∙ append_assoc (p.sequence_numbers ++ bit_or f 0x80000000 ∷ []) (l ∷ []) (all_words es)
    ∙ append_assoc p.sequence_numbers (bit_or f 0x80000000 ∷ []) (l ∷ all_words es)

in_range-distance :
    (f l n : ℕ)
    → f < 2 ^ 31
    → l < 2 ^ 31
    → n < 2 ^ 31
    → in_range f l n ≡ leb (distance f n) (distance f l)
unfolding in_range
in_range-distance f l n hf hl hn = ground arith

low_digits : (m : ℕ) → m < 2 ^ 31 → (bit_and m 0x7fffffff ≡ m) × (bit_and m 0x80000000 ≡ 0)
low_digits m h = (and_mask 31 m ∙ omega arith, and_bit 31 m ∙ omega arith)

marked_digits :
    (f : ℕ)
    → f < 2 ^ 31
    → (bit_and (bit_or f 0x80000000) 0x7fffffff ≡ f)
      × (bit_and (bit_or f 0x80000000) 0x80000000 ≡ 2 ^ 31)
marked_digits f h =
    rw (or_bit 31 f h)
      (and_mask 31 (f + 2 ^ 31) ∙ omega arith, and_bit 31 (f + 2 ^ 31) ∙ omega arith)

any_contains-single :
    (m n : ℕ) (ws : List ℕ) → m < 2 ^ 31 → any_contains (m ∷ ws) n ≡ (m == n) || any_contains ws n
unfolding any_contains
any_contains-single m n [] h = ground (arith, low_digits m h)
any_contains-single m n (w ∷ ws) h = ground (arith, low_digits m h)

any_contains-range :
    (f l n : ℕ) (ws : List ℕ)
    → f < 2 ^ 31
    → l < 2 ^ 31
    → n < 2 ^ 31
    → any_contains (bit_or f 0x80000000 ∷ l ∷ ws) n
      ≡ leb (distance f n) (distance f l) || any_contains ws n
unfolding any_contains
any_contains-range f l n ws hf hl hn = ground (
  arith,
  marked_digits f hf,
  low_digits l hl,
  in_range-distance f l n hf hl hn,
  any_contains-single l n ws hl,
)

any_contains-words :
    (es : List Entry) (n : ℕ)
    → All IsEntry es
    → n < 2 ^ 31
    → any_contains (all_words es) n ≡ covered es n
any_contains-words [] n h hn = unfold any_contains in refl
any_contains-words (single m ∷ es) n (h, hs) hn =
    any_contains-single m n (all_words es) h ∙ ap ((m == n) ||◌) (any_contains-words es n hs hn)
any_contains-words (range f l ∷ es) n ((hf, hl), hs) hn =
    any_contains-range f l n (all_words es) hf hl hn
    ∙ ap (leb (distance f n) (distance f l) ||◌) (any_contains-words es n hs hn)

-- A packet that was filled by any calls of `AddSequenceNumber` and `AddSequenceNumbers` contains
-- exactly the sequence numbers that the calls name: a range those on the way round from its first
-- to its last, past the largest number where it wraps.
pub contains-add_all :
    (es : List Entry) (n : ℕ)
    → All IsEntry es
    → n < 2 ^ 31
    → contains_sequence_number (add_all es negative_ack_packet) n ≡ covered es n
unfolding contains_sequence_number negative_ack_packet
contains-add_all es n h hn =
    rw (add_all-words es (unfold negative_ack_packet in negative_ack_packet))
      (any_contains-words es n h hn)
