-- ===== src/Window/Circle.antt =====
-- Arithmetic on the circle of the 2^31 sequence numbers.
use maid_safe_transport.Base.{ℕ, suc, ◌+◌, ◌-◌, ◌%◌, ◌^◌, ◌<◌, ◌≡◌, ◌&&◌, arith, ltb}
use maid_safe_transport.Window.{next, is_in_range}

abbrev pub modulus : ℕ
modulus = 2 ^ 31

-- `k` steps behind `n`.
abbrev pub ahead : ℕ → ℕ → ℕ
ahead n k = (n + k) % modulus

-- How far `n` is ahead of `begin`.
abbrev pub offset : ℕ → ℕ → ℕ
offset begin n = (n + modulus - begin) % modulus

pub next-ahead : (n k : ℕ) → n < modulus → next (ahead n k) ≡ ahead n (suc k)
unfolding next
next-ahead n k h = ground arith

pub next-lt : (n : ℕ) → n < modulus → next n < modulus
unfolding next
next-lt n h = ground arith

pub ahead-offset : (b n : ℕ) → b < modulus → n < modulus → ahead b (offset b n) ≡ n
ahead-offset b n hb hn = omega arith

pub offset-ahead : (b k : ℕ) → b < modulus → k < modulus → offset b (ahead b k) ≡ k
offset-ahead b k hb hk = omega arith

-- The range from `b` to `k` steps ahead holds the numbers that are less than `k` ahead of `b`.
pub is_in_range-offset :
    (b k n : ℕ)
    → b < modulus
    → k < modulus
    → n < 2 ^ 32
    → is_in_range b (ahead b k) n ≡ (ltb n modulus && ltb (offset b n) k)
unfolding is_in_range
is_in_range-offset b k n hb hk hn = ground arith
