-- ===== src/Packet/Wire.antt =====
-- src/maidsafe/transport/rudp_packet.cc: 32-bit words in network order, and the buffers that they
-- stand in. A buffer is its size and its memory; a write past the end of it would be undefined in
-- C++, and the codecs test the size first.
pub mod Words
use maid_safe_transport.Base.{ℕ, zero, suc, ◌+◌, ◌*◌, ◌/◌, ◌%◌, ◌^◌, ◌<◌, ◌≡◌}
use maid_safe_transport.Base.{bit_and, bit_or, ltb, ◌==◌, if◌then◌else◌, Bool, Option, none, some}
use maid_safe_transport.Base.{List, [], ◌∷◌}

-- What `unsigned char *` points to: the byte at each offset.
abbrev pub Memory : Type 0
Memory = ℕ → ℕ

pub record Buffer : Type 0 where
  pub size : ℕ
  pub memory : Memory

-- The values of `uint8_t` and `uint32_t`.
abbrev pub IsByte : ℕ → Type 0
IsByte b = b < 256

abbrev pub IsWord : ℕ → Type 0
IsWord n = n < 2 ^ 32

abbrev pub HoldsBytes : Buffer → Type 0
HoldsBytes b = (i : ℕ) → IsByte (b.memory i)

-- `n << k` on uint32_t, and `n >> k`.
abbrev pub shl : ℕ → ℕ → ℕ
shl n k = n * 2 ^ k % 2 ^ 32

abbrev pub shr : ℕ → ℕ → ℕ
shr n k = n / 2 ^ k

-- `p[i] = v`
abbrev pub store : Memory → ℕ → ℕ → Memory
store p i v = λ j. if j == i then v else p j

-- `memcpy(p + i, bytes, size)`
unfoldable pub copy_to : Memory → ℕ → List ℕ → Memory
copy_to p i [] = p
copy_to p i (b ∷ bs) = copy_to (store p i b) (suc i) bs

-- The `n` bytes from offset `i` on.
unfoldable pub bytes_from : Memory → ℕ → ℕ → List ℕ
bytes_from p i zero = []
bytes_from p i (suc n) = p i ∷ bytes_from p (suc i) n

unfoldable pub decode_uint32 : Memory → ℕ → ℕ
decode_uint32 p i =
    let n₀ = p i in
    let n₁ = bit_or (shl n₀ 8) (p (i + 1)) in
    let n₂ = bit_or (shl n₁ 8) (p (i + 2)) in bit_or (shl n₂ 8) (p (i + 3))

unfoldable pub encode_uint32 : ℕ → Memory → ℕ → Memory
encode_uint32 n p i =
    let p₀ = store p i (bit_and (shr n 24) 0xff) in
    let p₁ = store p₀ (i + 1) (bit_and (shr n 16) 0xff) in
    let p₂ = store p₁ (i + 2) (bit_and (shr n 8) 0xff) in store p₂ (i + 3) (bit_and n 0xff)

-- `DecodeDestinationSocketId`; `none` stands for the answer false.
unfoldable pub decode_destination_socket_id : Buffer → Option ℕ
decode_destination_socket_id b = if ltb b.size 16 then none else some (decode_uint32 b.memory 12)
