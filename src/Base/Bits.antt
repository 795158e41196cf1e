-- ===== src/Base/Bits.antt =====
-- The bitwise operations of C++ on unsigned words, as arithmetic. `bit_and` and `bit_or` are the
-- native operations; the masks of the packet codecs cut a word at one binary digit.
use Prim.Native.Nat.{ℕ, zero, suc, ◌+◌, ◌-◌, ◌*◌, ◌/◌, ◌%◌, ◌^◌, ◌≤◌, ◌<◌, min, max}
use Prim.Native.Nat.{bit_and, bit_or, digits, bit_and-bitwise, bit_or-bitwise}
use mathlib.Core.Path.{◌≡◌, refl, sym, ap, ◌∙◌}
use mathlib.Core.Logic.{inl, inr}
use maid_safe_transport.Base.Tests.{leb, leb→le, leb_false→lt, Bool-cases}
use native.Mathlib.Nat.{pow-suc, div-add-mod', mod-lt}
use native.Mathlib.Omega.{arith}

-- The operations are recursions on fuel. A round more than the first operand needs changes nothing,
-- so the fuel can be the operand itself, and the recursion is one equation for the lowest digit.
module _ (else_ : ℕ → ℕ) (digit : ℕ → ℕ → ℕ) where
  spare_round :
      (fuel x y : ℕ) → x ≤ fuel → digits else_ digit (suc fuel) x y ≡ digits else_ digit fuel x y
  spare_round zero zero y h = refl
  spare_round zero (suc x) y h = absurd (omega arith)
  spare_round (suc fuel) zero y h = refl
  spare_round (suc fuel) (suc x) y h =
      ap (λ high. high * 2 + digit (suc x % 2) (y % 2))
        (spare_round fuel (suc x / 2) (y / 2) (omega arith))

  own_fuel : (fuel x y : ℕ) → x ≤ fuel → digits else_ digit fuel x y ≡ digits else_ digit x x y
  own_fuel zero zero y h = refl
  own_fuel zero (suc x) y h = absurd (omega arith)
  own_fuel (suc fuel) x y h = elim (Bool-cases (leb x fuel)) [
    | inl spare ↦
        let le : x ≤ fuel = leb→le x fuel spare in spare_round fuel x y le ∙ own_fuel fuel x y le
    | inr exact ↦
        ap (λ k. digits else_ digit k x y) {x = suc fuel} (omega (arith, leb_false→lt x fuel exact))
  ]

and_lowest : (x y : ℕ) → bit_and x y ≡ bit_and (x / 2) (y / 2) * 2 + min (x % 2) (y % 2)
and_lowest zero y = ground (arith, bit_and-bitwise 0 y, bit_and-bitwise 0 (y / 2))
and_lowest (suc x) y =
    bit_and-bitwise (suc x) y
    ∙ ap (λ high. high * 2 + min (suc x % 2) (y % 2))
        (own_fuel (λ b. zero) min x (suc x / 2) (y / 2) (omega arith)
          ∙ sym (bit_and-bitwise (suc x / 2) (y / 2)))

or_lowest : (x y : ℕ) → bit_or x y ≡ bit_or (x / 2) (y / 2) * 2 + max (x % 2) (y % 2)
or_lowest zero y = ground (arith, bit_or-bitwise 0 y, bit_or-bitwise 0 (y / 2))
or_lowest (suc x) y =
    bit_or-bitwise (suc x) y
    ∙ ap (λ high. high * 2 + max (suc x % 2) (y % 2))
        (own_fuel (λ b. b) max x (suc x / 2) (y / 2) (omega arith)
          ∙ sym (bit_or-bitwise (suc x / 2) (y / 2)))

-- An operation on binary digits works on the digits from `k` on and on those below apart.
module _ (op f : ℕ → ℕ → ℕ) (step : (a b : ℕ) → op a b ≡ op (a / 2) (b / 2) * 2 + f (a % 2) (b % 2))
    (op_zero : op 0 0 ≡ 0) where
  split_at :
      (k a b c d : ℕ)
      → b < 2 ^ k
      → d < 2 ^ k
      → op (a * 2 ^ k + b) (c * 2 ^ k + d) ≡ op a c * 2 ^ k + op b d
  split_at zero a b c d hb hd =
      let hb' : b ≡ 0 = omega arith in
      let hd' : d ≡ 0 = omega arith in
      let ea : a * 1 + 0 ≡ a = omega arith in
      let ec : c * 1 + 0 ≡ c = omega arith in rw (hb', hd', ea, ec) (omega (arith, op_zero))
  split_at (suc k) a b c d hb hd =
      step (a * 2 ^ suc k + b) (c * 2 ^ suc k + d)
      ∙ rw (half a b, half c d, digit a b, digit c d)
          (omega (
            arith,
            split_at k a (b / 2) c (d / 2) (omega (arith, pow-suc 2 k))
                (omega (arith, pow-suc 2 k)),
            step b d,
            ap (λ t. op a c * t) (pow-suc 2 k),
          ))
    where
      half : (x y : ℕ) → (x * 2 ^ suc k + y) / 2 ≡ x * 2 ^ k + y / 2
      half x y = omega (arith, ap (λ t. x * t) (pow-suc 2 k))

      digit : (x y : ℕ) → (x * 2 ^ suc k + y) % 2 ≡ y % 2
      digit x y = omega (arith, ap (λ t. x * t) (pow-suc 2 k))

  -- With 0 on the right such an operation is the function with the same equation.
  at_zero :
      (h : ℕ → ℕ)
      → h 0 ≡ 0
      → ((n : ℕ) → h n ≡ h (n / 2) * 2 + f (n % 2) 0)
      → (bound n : ℕ) → n ≤ bound
      → op n 0 ≡ h n
  at_zero h start lowest bound zero le = op_zero ∙ sym start
  at_zero h start lowest zero (suc n) le = absurd (omega arith)
  at_zero h start lowest (suc bound) (suc n) le =
      step (suc n) 0
      ∙ ap (λ high. high * 2 + f (suc n % 2) 0)
          (at_zero h start lowest bound (suc n / 2) (omega arith))
      ∙ sym (lowest (suc n))

and_split :
    (k a b c d : ℕ)
    → b < 2 ^ k
    → d < 2 ^ k
    → bit_and (a * 2 ^ k + b) (c * 2 ^ k + d) ≡ bit_and a c * 2 ^ k + bit_and b d
and_split = split_at bit_and min and_lowest refl

or_split :
    (k a b c d : ℕ)
    → b < 2 ^ k
    → d < 2 ^ k
    → bit_or (a * 2 ^ k + b) (c * 2 ^ k + d) ≡ bit_or a c * 2 ^ k + bit_or b d
or_split = split_at bit_or max or_lowest refl

or_of_zero : (y : ℕ) → bit_or 0 y ≡ y
or_of_zero y = bit_or-bitwise 0 y

pub bit_and-zero : (x : ℕ) → bit_and x 0 ≡ 0
bit_and-zero x =
    at_zero bit_and min and_lowest refl (λ n. 0) refl (λ n. omega arith) x x (omega arith)

pub bit_or-zero : (x : ℕ) → bit_or x 0 ≡ x
bit_or-zero x = at_zero bit_or max or_lowest refl (λ n. n) refl (λ n. omega arith) x x (omega arith)

pow_pos : (k : ℕ) → 0 < 2 ^ k
pow_pos zero = omega arith
pow_pos (suc k) = omega (arith, pow-suc 2 k, pow_pos k)

ones_keep : (k n : ℕ) → n < 2 ^ k → bit_and n (2 ^ k - 1) ≡ n
ones_keep zero n h = omega (arith, bit_and-zero n)
ones_keep (suc k) n h =
    and_lowest n (2 ^ suc k - 1)
    ∙ rw (halved, odd)
        (omega (arith, ones_keep k (n / 2) (omega (arith, pow-suc 2 k)), pow-suc 2 k))
  where
    halved : (2 ^ suc k - 1) / 2 ≡ 2 ^ k - 1
    halved = omega (arith, pow-suc 2 k, pow_pos k)

    odd : (2 ^ suc k - 1) % 2 ≡ 1
    odd = omega (arith, pow-suc 2 k, pow_pos k)

-- `n & (2^k - 1)` keeps the lowest `k` digits.
pub and_mask : (k n : ℕ) → bit_and n (2 ^ k - 1) ≡ n % 2 ^ k
and_mask k n =
    let e : 0 * 2 ^ k + (2 ^ k - 1) ≡ 2 ^ k - 1 = omega arith in
    omega (
      arith,
      rw (div-add-mod' n (2 ^ k), e) at
          (and_split k (n / 2 ^ k) (n % 2 ^ k) 0 (2 ^ k - 1) (mod-lt n (pow_pos k))
            (omega (arith, pow_pos k))),
      ap (λ (t : ℕ). t * 2 ^ k) (bit_and-zero (n / 2 ^ k)),
      ones_keep k (n % 2 ^ k) (mod-lt n (pow_pos k)),
    )

-- `n & 2^k` is not zero exactly if digit `k` is set.
pub and_bit : (k n : ℕ) → bit_and n (2 ^ k) ≡ n / 2 ^ k % 2 * 2 ^ k
and_bit k n =
    let e : 1 * 2 ^ k + 0 ≡ 2 ^ k = omega arith in
    omega (
      arith,
      rw (div-add-mod' n (2 ^ k), e) at
          (and_split k (n / 2 ^ k) (n % 2 ^ k) 1 0 (mod-lt n (pow_pos k)) (pow_pos k)),
      ap (λ (t : ℕ). t * 2 ^ k) (and_mask 1 (n / 2 ^ k)),
      bit_and-zero (n % 2 ^ k),
    )

-- `(n << k) | b` on digits that fit the gap.
pub or_shifted : (k a b : ℕ) → b < 2 ^ k → bit_or (a * 2 ^ k) b ≡ a * 2 ^ k + b
or_shifted k a b h =
    let ea : a * 2 ^ k + 0 ≡ a * 2 ^ k = omega arith in
    let e0 : 0 * 2 ^ k + b ≡ b = omega arith in
    omega (
      arith,
      rw (ea, e0) at (or_split k a 0 0 b (pow_pos k) h),
      bit_or-zero a,
      or_of_zero b,
      ap (λ (t : ℕ). t * 2 ^ k) (bit_or-zero a),
    )

-- `n | 2^k` sets digit `k` above a number of `k` digits.
pub or_bit : (k n : ℕ) → n < 2 ^ k → bit_or n (2 ^ k) ≡ n + 2 ^ k
or_bit k n h =
    let e : 1 * 2 ^ k + 0 ≡ 2 ^ k = omega arith in
    let e' : 0 * 2 ^ k + n ≡ n = omega arith in
    omega (arith, rw (e, e') at (or_split k 0 n 1 0 h (pow_pos k)), bit_or-zero n)
