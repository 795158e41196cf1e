-- ===== src/Window/Index.antt =====
-- The invariant of the window, and where a sequence number stands in it.
use maid_safe_transport.Base.{ℕ, ◌-◌, ◌^◌, ◌≤◌, ◌<◌, ◌≡◌, refl, arith}
use maid_safe_transport.Base.{true, false, ◌&&◌, List, [], ◌∷◌}
use maid_safe_transport.Base.{length, tail, ltb, length-append, length-set}
use maid_safe_transport.Window.{Window, next, reset, contains}
use maid_safe_transport.Window.{set_maximum_size, size, is_empty, is_full, append, remove}
use maid_safe_transport.Window.{sequence_number_to_index, set_item, maximum_window_size}
use maid_safe_transport.Window.Circle.{modulus, ahead, offset, next-ahead}
use maid_safe_transport.Window.Circle.{is_in_range-offset}

module _ {ℓ} {T : Type ℓ} where
  -- The end lies as many numbers ahead of the beginning as there are items, and the window never
  -- outgrows the largest size.
  pub record IsValid (w : Window T) : Type 0 where
    pub begin_fits : w.begin < modulus
    pub end_ahead : w.end ≡ ahead w.begin (size w)
    pub size_fits : size w ≤ maximum_window_size
    pub limit_fits : w.maximum_size ≤ maximum_window_size

  -- `Reset` to a sequence number leaves a valid and empty window that begins there.
  pub reset-IsValid : (n : ℕ) → n < modulus → IsValid (reset {T = T} n)
  unfolding reset
  reset-IsValid n h = record {
    begin_fits = h;
    end_ahead = omega arith;
    size_fits = omega arith;
    limit_fits = omega arith;
  }

  pub set_maximum_size-IsValid : (s : ℕ) (w : Window T) → IsValid w → IsValid (set_maximum_size s w)
  unfolding set_maximum_size
  set_maximum_size-IsValid s w v = ground arith

  -- `Append` keeps a valid window that is not full valid.
  pub append-IsValid :
      (t : T) (w : Window T) → IsValid w → is_full w ≡ false → IsValid (append t w).1
  unfolding append is_full
  append-IsValid t w v h =
      ground (arith, length-append w.items (t ∷ []), next-ahead w.begin (size w) v.begin_fits)

  pub length-tail : (xs : List T) → length (tail xs) ≡ length xs - 1
  length-tail [] = refl
  length-tail (x ∷ xs) = omega arith

  -- `Remove` keeps a valid window that is not empty valid.
  pub remove-IsValid : (w : Window T) → IsValid w → is_empty w ≡ false → IsValid (remove w)
  unfolding remove is_empty next
  remove-IsValid w v h = ground (arith, length-tail w.items)

  pub set_item-IsValid : (n : ℕ) (t : T) (w : Window T) → IsValid w → IsValid (set_item n t w)
  unfolding set_item
  set_item-IsValid n t w v = ground (arith, length-set w.items (sequence_number_to_index w n) t)

  -- The window contains the numbers that are less than its size ahead of its beginning.
  pub contains-offset :
      (w : Window T) (n : ℕ)
      → IsValid w
      → n < 2 ^ 32
      → contains w n ≡ (ltb n modulus && ltb (offset w.begin n) (size w))
  unfolding contains
  contains-offset w n v h =
      rw v.end_ahead
        (is_in_range-offset w.begin (size w) n v.begin_fits (omega (arith, v.size_fits)) h)

  -- The index of a number that a valid window contains is its distance from the beginning, and lies in
  -- the deque.
  pub index-offset :
      (w : Window T) (n : ℕ)
      → IsValid w
      → n < 2 ^ 32
      → contains w n ≡ true
      → (sequence_number_to_index w n ≡ offset w.begin n) × (offset w.begin n < size w)
  unfolding sequence_number_to_index
  index-offset w n v h c = ground (arith, contains-offset w n v h)

  pub item-ahead :
      (w : Window T) (k : ℕ)
      → IsValid w
      → k < size w
      → (contains w (ahead w.begin k) ≡ true) × (sequence_number_to_index w (ahead w.begin k) ≡ k)
  item-ahead w k v h =
      ground (arith, contains-offset w (ahead w.begin k) v, index-offset w (ahead w.begin k) v)
