-- ===== src/Packet/Wire/Words.antt =====
-- Words and byte strings read back from memory.
use maid_safe_transport.Base.{ℕ, suc, ◌+◌, ◌*◌, ◌/◌, ◌%◌, ◌^◌, ◌<◌, ◌≤◌, ◌≡◌, ◌∙◌, arith}
use maid_safe_transport.Base.{bit_and, bit_or, ◌⊎◌, refl, List, [], ◌∷◌, length}
use maid_safe_transport.Base.Bits.{and_mask, or_shifted}
use maid_safe_transport.Packet.Wire.{Memory, IsByte, IsWord, store, shl, copy_to, bytes_from}
use maid_safe_transport.Packet.Wire.{decode_uint32, encode_uint32}

pub mask_byte : (n : ℕ) → bit_and n 0xff ≡ n % 256
mask_byte n = and_mask 8 n

-- One step of `DecodeUint32`: the byte goes below the digits that are there.
pub append_byte : (n b : ℕ) → n < 2 ^ 24 → IsByte b → bit_or (shl n 8) b ≡ n * 256 + b
append_byte n b hn hb =
    let e : n * 256 % 2 ^ 32 ≡ n * 256 = omega arith in rw e (or_shifted 8 n b hb)

-- The value of four bytes in network order.
abbrev pub word_of : ℕ → ℕ → ℕ → ℕ → ℕ
word_of a b c d = a * 2 ^ 24 + b * 2 ^ 16 + c * 2 ^ 8 + d

pub decode_uint32-word_of :
    (p : Memory) (i : ℕ)
    → IsByte (p i)
    → IsByte (p (i + 1))
    → IsByte (p (i + 2))
    → IsByte (p (i + 3))
    → decode_uint32 p i ≡ word_of (p i) (p (i + 1)) (p (i + 2)) (p (i + 3))
unfolding decode_uint32
decode_uint32-word_of p i ha hb hc hd =
    rw
      (
        append_byte (p i) (p (i + 1)) (omega arith) hb,
        append_byte (p i * 256 + p (i + 1)) (p (i + 2)) (omega arith) hc,
        append_byte ((p i * 256 + p (i + 1)) * 256 + p (i + 2)) (p (i + 3)) (omega arith) hd,
      )
      (omega arith)

-- The bytes that `EncodeUint32` leaves, and the memory round them.
pub encode_uint32_bytes :
    (n : ℕ) (p : Memory) (i : ℕ)
    → (encode_uint32 n p i i ≡ n / 2 ^ 24 % 256)
      × (encode_uint32 n p i (i + 1) ≡ n / 2 ^ 16 % 256)
      × (encode_uint32 n p i (i + 2) ≡ n / 2 ^ 8 % 256)
      × (encode_uint32 n p i (i + 3) ≡ n % 256)
unfolding encode_uint32
encode_uint32_bytes n p i =
    ground
      (arith, mask_byte (n / 2 ^ 24), mask_byte (n / 2 ^ 16), mask_byte (n / 2 ^ 8), mask_byte n)

pub encode_uint32_frame :
    (n : ℕ) (p : Memory) (i j : ℕ) → (j < i) ⊎ (i + 4 ≤ j) → encode_uint32 n p i j ≡ p j
unfolding encode_uint32
encode_uint32_frame n p i j h = ground arith

-- A word that was encoded at an offset is what is decoded there.
pub decode_uint32-encode_uint32 :
    (n : ℕ) (p : Memory) (i : ℕ) → IsWord n → decode_uint32 (encode_uint32 n p i) i ≡ n
decode_uint32-encode_uint32 n p i h =
    let (a, b, c, d) = encode_uint32_bytes n p i in
    decode_uint32-word_of (encode_uint32 n p i) i (omega arith) (omega arith) (omega arith)
      (omega arith)
    ∙ omega arith

-- It is not touched by a word that is encoded elsewhere.
pub decode_uint32_congr :
    (p q : Memory) (i : ℕ)
    → p i ≡ q i
    → p (i + 1) ≡ q (i + 1)
    → p (i + 2) ≡ q (i + 2)
    → p (i + 3) ≡ q (i + 3)
    → decode_uint32 p i ≡ decode_uint32 q i
unfolding decode_uint32
decode_uint32_congr p q i a b c d = rw (a, b, c, d)

pub decode_uint32_frame :
    (n : ℕ) (p : Memory) (i j : ℕ)
    → (j + 4 ≤ i) ⊎ (i + 4 ≤ j)
    → decode_uint32 (encode_uint32 n p i) j ≡ decode_uint32 p j
decode_uint32_frame n p i j h =
    decode_uint32_congr (encode_uint32 n p i) p j (encode_uint32_frame n p i j (omega arith))
      (encode_uint32_frame n p i (j + 1) (omega arith))
      (encode_uint32_frame n p i (j + 2) (omega arith))
      (encode_uint32_frame n p i (j + 3) (omega arith))

pub decode_uint32-IsWord :
    (p : Memory) (i : ℕ) → ((j : ℕ) → IsByte (p j)) → IsWord (decode_uint32 p i)
decode_uint32-IsWord p i h =
    let a = h i in
    let b = h (i + 1) in
    let c = h (i + 2) in let d = h (i + 3) in omega (arith, decode_uint32-word_of p i a b c d)

pub copy_to_frame :
    (bs : List ℕ) (p : Memory) (i j : ℕ) → (j < i) ⊎ (i + length bs ≤ j) → copy_to p i bs j ≡ p j
unfolding copy_to
copy_to_frame [] p i j h = refl
copy_to_frame (b ∷ bs) p i j h =
    copy_to_frame bs (store p i b) (suc i) j (omega arith) ∙ ground arith

-- What was copied to an offset is what is read from there.
pub bytes_from-copy_to :
    (bs : List ℕ) (p : Memory) (i : ℕ) → bytes_from (copy_to p i bs) i (length bs) ≡ bs
unfolding copy_to bytes_from
bytes_from-copy_to [] p i = refl
bytes_from-copy_to (b ∷ bs) p i =
    ground
      (arith, copy_to_frame bs (store p i b) (suc i) i, bytes_from-copy_to bs (store p i b) (suc i))
