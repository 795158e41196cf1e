-- ===== src/Examples/Windows.antt =====
-- Windows of src/maidsafe/transport/rudp_sliding_window.h whose numbers start again from 0.
use maid_safe_transport.Base.{ℕ, ◌<◌, ◌≡◌, true, false, ◌&&◌}
use maid_safe_transport.Base.{some, arith, refl, if◌then◌else◌, ◌==◌, ltb}
use maid_safe_transport.Window.{contains, is_empty, is_full, append}
use maid_safe_transport.Window.{item, set_item, sequence_number_to_index, back}
use maid_safe_transport.Window.{back_const}
use maid_safe_transport.Window.Circle.{modulus, offset}
use maid_safe_transport.Window.Index.{IsValid, contains-offset}
use maid_safe_transport.Window.Index.{index-offset}
use maid_safe_transport.Window.Lookup.{item-some}
use maid_safe_transport.Window.Lookup.{item-set_item}
use maid_safe_transport.Window.Lookup.{back-append}
use maid_safe_transport.Examples.Fixtures.{window}

window-IsValid : IsValid window
window-IsValid = omega arith

window-not_full : is_full window ≡ false
unfolding is_full
window-not_full = refl

window-not_empty : is_empty window ≡ false
unfolding is_empty
window-not_empty = refl

window-contains_zero : contains window 0 ≡ true
unfolding contains
window-contains_zero = refl

window-contains_largest : contains window 0x7fffffff ≡ true
unfolding contains
window-contains_largest = refl

contains-offset_example : contains window 1 ≡ (ltb 1 modulus && ltb (offset 0x7fffffff 1) 2)
contains-offset_example = contains-offset window 1 window-IsValid (omega arith)

index-offset_example :
    (sequence_number_to_index window 0 ≡ offset 0x7fffffff 0) × (offset 0x7fffffff 0 < 2)
index-offset_example = index-offset window 0 window-IsValid (omega arith) window-contains_zero

item-some_example : (t : ℕ) × (item window 0 ≡ some t)
item-some_example = item-some window 0 window-IsValid (omega arith) window-contains_zero

item-set_item_example :
    item (set_item 0x7fffffff 5 window) 0 ≡ (if 0 == 0x7fffffff then some 5 else item window 0)
item-set_item_example =
    item-set_item window 0x7fffffff 0 5 window-IsValid (omega arith) (omega arith)
      window-contains_largest window-contains_zero

back-append_example :
    (back_const (append 33 window).1 ≡ some 33) × (back (append 33 window).1 ≡ back window)
back-append_example = back-append 33 window window-not_empty
