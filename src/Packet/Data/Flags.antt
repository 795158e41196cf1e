-- ===== src/Packet/Data/Flags.antt =====
-- The byte that holds the three flags of a data packet above five digits of its message number.
use maid_safe_transport.Base.{ℕ, zero, suc, ◌/◌, ◌<◌, ◌≡◌, Bool, true, false, not, ◌&&◌}
use maid_safe_transport.Base.{bit_and, ◌==◌, arith, refl}
use maid_safe_transport.Packet.Data.{or_flag}

-- The byte that `Encode` builds from the digits and the flags.
abbrev pub with_flags : ℕ → Bool → Bool → Bool → ℕ
with_flags n first last ordered = or_flag (or_flag (or_flag n first 0x80) last 0x40) ordered 0x20

abbrev same : Bool → Bool → Bool
same true b = b
same false b = not b

-- The masks of `Decode` give the parts back, and the byte is one.
reads_back : Bool → Bool → Bool → ℕ → Bool
reads_back f l o n =
    let byte = with_flags n f l o in
    same f (not (bit_and byte 0x80 == 0))
    && same l (not (bit_and byte 0x40 == 0))
    && same o (not (bit_and byte 0x20 == 0))
    && bit_and byte 0x1f == n
    && byte / 256 == 0

all_below : ℕ → (ℕ → Bool) → Bool
all_below zero p = true
all_below (suc n) p = p n && all_below n p

all_below-at : (n : ℕ) (p : ℕ → Bool) (x : ℕ) → all_below n p ≡ true → x < n → p x ≡ true
unfolding all_below
all_below-at zero p x h lt = absurd (omega arith)
all_below-at (suc n) p x h lt = ground (arith, all_below-at n p x)

reads_back_all : (f l o : Bool) → all_below 32 (reads_back f l o) ≡ true
unfolding all_below reads_back
reads_back_all true true true = refl
reads_back_all true true false = refl
reads_back_all true false true = refl
reads_back_all true false false = refl
reads_back_all false true true = refl
reads_back_all false true false = refl
reads_back_all false false true = refl
reads_back_all false false false = refl

pub with_flags_parts :
    (f l o : Bool) (n : ℕ)
    → n < 32
    → let byte = with_flags n f l o in
      (not (bit_and byte 0x80 == 0) ≡ f)
      × (not (bit_and byte 0x40 == 0) ≡ l)
      × (not (bit_and byte 0x20 == 0) ≡ o)
      × (bit_and byte 0x1f ≡ n)
      × (byte < 256)
unfolding reads_back
with_flags_parts f l o n h =
    ground (arith, all_below-at 32 (reads_back f l o) n (reads_back_all f l o) h)
