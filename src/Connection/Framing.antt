-- ===== src/Connection/Framing.antt =====
-- Messages and their sizes, in src/maidsafe/transport/rudp_connection.cc.
use maid_safe_transport.Base.{
  ℕ, zero, suc, ◌+◌, ◌-◌, ◌*◌, ◌/◌, ◌%◌, ◌^◌, ◌≤◌, ◌<◌, ◌≡◌, ◌∙◌, refl, ap, arith, List, ◌++◌, take,
  length, lt→ltb, length-append,
}
use maid_safe_transport.Base.Pieces.{take-append_le, length-take, take-take}
use maid_safe_transport.Packet.Wire.Words.{append_byte}
use maid_safe_transport.Connection.{size_bytes, size_of, zeros, resize}

pub size_of-size_bytes : (n : ℕ) → n < 2 ^ 31 → size_of (size_bytes n) ≡ n
unfolding size_of size_bytes
size_of-size_bytes n h =
    let d₀ = n / 2 ^ 24 % 256 in
    let d₁ = n / 2 ^ 16 % 256 in
    let d₂ = n / 2 ^ 8 % 256 in
    let d₃ = n % 256 in
    let whole : ((d₀ * 256 + d₁) * 256 + d₂) * 256 + d₃ ≡ n = omega arith in
    rw
      (
        append_byte d₀ d₁ (omega arith) (omega arith),
        append_byte (d₀ * 256 + d₁) d₂ (omega arith) (omega arith),
        append_byte ((d₀ * 256 + d₁) * 256 + d₂) d₃ (omega arith) (omega arith),
        whole,
        lt→ltb n (2 ^ 31) h,
      )
      refl

length-zeros : (n : ℕ) → length (zeros n) ≡ n
length-zeros zero = refl
length-zeros (suc n) = ap suc (length-zeros n)

pub length-resize : (n : ℕ) (xs : List ℕ) → length (resize n xs) ≡ n
length-resize n xs =
    length-take n (xs ++ zeros (n - length xs))
      (omega (arith, length-append xs (zeros (n - length xs)), length-zeros (n - length xs)))

pub take-resize : (k n : ℕ) (xs : List ℕ) → k ≤ length xs → k ≤ n → take k (resize n xs) ≡ take k xs
take-resize k n xs hk hn =
    take-take k n (xs ++ zeros (n - length xs)) hn ∙ take-append_le k xs (zeros (n - length xs)) hk
