-- ===== src/Window.antt =====
-- src/maidsafe/transport/rudp_sliding_window.h: the window of items that sequence numbers name.
-- The numbers run from 0 to 2^31 - 1 and start again from 0.
pub mod Circle
pub mod Index
pub mod Lookup
pub mod Walk
use maid_safe_transport.Base.{
  ℕ, zero, suc, ◌+◌, ◌-◌, ◌%◌, ◌^◌, ◌≤◌, ◌<◌, Bool, ◌&&◌, ◌||◌, Option, none, some,
}
use maid_safe_transport.Base.{
  List, [], ◌∷◌, ◌++◌, length, get_elem?, set, tail, ltb, leb, ◌==◌, if◌then◌else◌,
}

abbrev pub max_sequence_number : ℕ
max_sequence_number = 0x7fffffff

-- src/maidsafe/transport/rudp_parameters.cc
abbrev pub default_window_size : ℕ
default_window_size = 16

abbrev pub maximum_window_size : ℕ
maximum_window_size = 512

unfoldable pub next : ℕ → ℕ
next n = if n == max_sequence_number then 0 else n + 1

unfoldable pub is_in_range : ℕ → ℕ → ℕ → Bool
is_in_range begin end n =
    if leb begin end
    then leb begin n && ltb n end
    else ltb n end || (leb begin n && leb n max_sequence_number)

-- uint32_t subtraction
abbrev pub sub32 : ℕ → ℕ → ℕ
sub32 a b = (a + 2 ^ 32 - b) % 2 ^ 32

module _ {ℓ} (T : Type ℓ) where
  pub record Window : Type ℓ where
    pub items : List T
    pub maximum_size : ℕ
    pub begin : ℕ
    pub end : ℕ

module _ {ℓ} {T : Type ℓ} where
  unfoldable pub reset : ℕ → Window T
  reset n = record { items = []; maximum_size = default_window_size; begin = n; end = n }

  unfoldable pub contains : Window T → ℕ → Bool
  unfolding is_in_range
  contains w n = is_in_range w.begin w.end n

  unfoldable pub is_coming_soon : Window T → ℕ → Bool
  unfolding is_in_range
  is_coming_soon w n =
      is_in_range w.end ((w.end + maximum_window_size) % 2 ^ 32 % (max_sequence_number + 1)) n

  unfoldable pub set_maximum_size : ℕ → Window T → Window T
  set_maximum_size size w = record w {
    maximum_size = (if ltb size maximum_window_size then size else maximum_window_size);
  }

  abbrev pub size : Window T → ℕ
  size w = length w.items

  unfoldable pub is_empty : Window T → Bool
  is_empty w = size w == 0

  unfoldable pub is_full : Window T → Bool
  is_full w = leb w.maximum_size (size w)

  -- `Append` puts a new item, made by T's constructor, at the end and returns its number.
  unfoldable pub append : T → Window T → ℕ × Window T
  unfolding next
  append t w = (w.end, record w { items = w.items ++ t ∷ []; end = next w.end })

  -- `Remove`; on an empty window its assertion fails, and here nothing is removed.
  unfoldable pub remove : Window T → Window T
  unfolding next
  remove w = record w { items = tail w.items; begin = next w.begin }

  unfoldable pub sequence_number_to_index : Window T → ℕ → ℕ
  sequence_number_to_index w n =
      if leb w.begin w.end
      then sub32 n w.begin
      else if ltb n w.end
      then (sub32 max_sequence_number w.begin + n + 1) % 2 ^ 32
      else sub32 n w.begin

  -- `operator[]`, read and written; `none` is a read outside of the deque.
  unfoldable pub item : Window T → ℕ → Option T
  item w n = get_elem? w.items (sequence_number_to_index w n)

  unfoldable pub set_item : ℕ → T → Window T → Window T
  set_item n t w = record w { items = set w.items (sequence_number_to_index w n) t }

  abbrev pub head? : List T → Option T
  head? [] = none
  head? (x ∷ xs) = some x

  abbrev pub last? : List T → Option T
  last? [] = none
  last? (x ∷ []) = some x
  last? (x ∷ y ∷ xs) = last? (y ∷ xs)

  unfoldable pub front : Window T → Option T
  front w = head? w.items

  -- `Back()` of a window that is not const returns `items_.front()`.
  unfoldable pub back : Window T → Option T
  back w = head? w.items

  -- `Back() const`
  unfoldable pub back_const : Window T → Option T
  back_const w = last? w.items
