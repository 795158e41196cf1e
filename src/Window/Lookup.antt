-- ===== src/Window/Lookup.antt =====
-- The window as a finite map from sequence numbers to items.
use maid_safe_transport.Base.{ℕ, suc, ◌^◌, ◌<◌, ◌≡◌, ◌∙◌, refl, arith}
use maid_safe_transport.Base.{true, false, not, ◌&&◌, ◌||◌, some, List, [], ◌∷◌, ◌++◌}
use maid_safe_transport.Base.{Bool-cases, ==→eq, ==_false→ne, inl, inr}
use maid_safe_transport.Base.{tail, get_elem?, ◌==◌, if◌then◌else◌, length-append}
use maid_safe_transport.Base.{get_elem?-append_left, get_elem?-append_cons, get_elem?-set_self}
use maid_safe_transport.Base.{get_elem?-set_ne, get_elem?-lt, ap, sym}
use maid_safe_transport.Window.{Window, next, contains, is_coming_soon, last?}
use maid_safe_transport.Window.{is_empty, is_full, append, remove, item, back, back_const}
use maid_safe_transport.Window.{sequence_number_to_index, set_item, maximum_window_size}
use maid_safe_transport.Window.Circle.{modulus, offset, is_in_range-offset}
use maid_safe_transport.Window.Index.{IsValid, contains-offset, index-offset}
use maid_safe_transport.Window.Index.{length-tail, append-IsValid, remove-IsValid}

module _ {ℓ} {T : Type ℓ} where
  get_elem?-tail : (xs : List T) (i : ℕ) → get_elem? (tail xs) i ≡ get_elem? xs (suc i)
  get_elem?-tail [] i = refl
  get_elem?-tail (x ∷ xs) i = refl

  last-append : (xs : List T) (t : T) → last? (xs ++ t ∷ []) ≡ some t
  last-append [] t = refl
  last-append (x ∷ []) t = refl
  last-append (x ∷ y ∷ xs) t = last-append (y ∷ xs) t

  -- Every number that the window contains names an item.
  pub item-some :
      (w : Window T) (n : ℕ)
      → IsValid w
      → n < 2 ^ 32
      → contains w n ≡ true
      → (t : T) × (item w n ≡ some t)
  unfolding item
  item-some w n v h c =
      let (e, k) = index-offset w n v h c in rw e (get_elem?-lt w.items (offset w.begin n) k)

  -- A valid window that is not full contains after `Append` the numbers that it contained and its old end.
  pub contains-append :
      (t : T) (w : Window T) (n : ℕ)
      → IsValid w
      → is_full w ≡ false
      → n < 2 ^ 32
      → contains (append t w).1 n ≡ contains w n || n == w.end
  unfolding append
  contains-append t w n v f h = ground (
    arith,
    v,
    contains-offset w n v h,
    contains-offset (append t w).1 n (append-IsValid t w v f) h,
    length-append w.items (t ∷ []),
  )

  -- After `Append` to a valid window that is not full, its old end names the new item, and every
  -- other number that it contains names what it named.
  pub item-append :
      (t : T) (w : Window T) (n : ℕ)
      → IsValid w
      → is_full w ≡ false
      → n < 2 ^ 32
      → contains (append t w).1 n ≡ true
      → item (append t w).1 n ≡ (if n == w.end then some t else item w n)
  unfolding append item
  item-append t w n v f h c =
      let (e', k') = index-offset (append t w).1 n (append-IsValid t w v f) h c in
      elim (Bool-cases (n == w.end)) [
        | inl last ↦
            rw (last, e')
              (get_elem?-append_cons w.items [] t (offset w.begin n)
                (omega (arith, v, ==→eq n w.end last)))
        | inr other ↦
            let old : contains w n ≡ true = ground (arith, contains-append t w n v f h, c, other) in
            let (e, k) = index-offset w n v h old in
            rw (other, e', e) (get_elem?-append_left w.items (t ∷ []) (offset w.begin n) k)
      ]

  -- A valid window that is not empty contains after `Remove` the numbers that it contained but the first.
  pub contains-remove :
      (w : Window T) (n : ℕ)
      → IsValid w
      → is_empty w ≡ false
      → n < 2 ^ 32
      → contains (remove w) n ≡ contains w n && not (n == w.begin)
  unfolding remove next
  contains-remove w n v e h = ground (
    arith,
    v,
    contains-offset w n v h,
    contains-offset (remove w) n (remove-IsValid w v e) h,
    length-tail w.items,
  )

  -- Every number that a valid window still contains after `Remove` names the item that it named.
  pub item-remove :
      (w : Window T) (n : ℕ)
      → IsValid w
      → is_empty w ≡ false
      → n < 2 ^ 32
      → contains (remove w) n ≡ true
      → item (remove w) n ≡ item w n
  unfolding remove item next
  item-remove w n v e h c =
      let w' = remove w in
      let v' = remove-IsValid w v e in
      let old : contains w n ≡ true =
        ground
          (arith, v, length-tail w.items, contains-offset w n v h, contains-offset w' n v' h) in
      let (e', k') = index-offset w' n v' h c in
      let (e, k) = index-offset w n v h old in
      let shift : offset w.begin n ≡ suc (offset (next w.begin) n) =
        ground (arith, v, c, contains-offset w' n v' h, length-tail w.items) in
      rw (e', e)
        (get_elem?-tail w.items (offset (next w.begin) n) ∙ ap (get_elem? w.items) (sym shift))

  -- A write through `operator[]` at a number of the window is read back there, and leaves the items
  -- under the other numbers.
  pub item-set_item :
      (w : Window T) (n m : ℕ) (t : T)
      → IsValid w
      → n < 2 ^ 32
      → m < 2 ^ 32
      → contains w n ≡ true
      → contains w m ≡ true
      → item (set_item n t w) m ≡ (if m == n then some t else item w m)
  unfolding set_item item sequence_number_to_index
  item-set_item w n m t v hn hm cn cm =
      let (en, kn) = index-offset w n v hn cn in
      let (em, km) = index-offset w m v hm cm in
      elim (Bool-cases (m == n)) [
        | inl same ↦
            let e : m ≡ n = ==→eq m n same in
            rw (same, e, en) (get_elem?-set_self w.items (offset w.begin n) t kn)
        | inr other ↦
            rw (other, en, em)
              (get_elem?-set_ne w.items (offset w.begin n) (offset w.begin m) t
                (omega (arith, v, inside, ==_false→ne m n other)))
      ]
    where
      inside : (n < modulus) × (m < modulus)
      inside = ground (arith, contains-offset w n v hn, contains-offset w m v hm)

  -- A number that is coming soon is not in a valid window yet.
  pub coming_soon-not_contained :
      (w : Window T) (n : ℕ)
      → IsValid w
      → n < 2 ^ 32
      → is_coming_soon w n ≡ true
      → contains w n ≡ false
  unfolding is_coming_soon
  coming_soon-not_contained w n v h c = ground (
    arith,
    v,
    is_in_range-offset w.end maximum_window_size n (omega (arith, v.end_ahead)) (omega arith) h,
    contains-offset w n v h,
  )

  -- After `Append` behind other items the const `Back()` returns the new item, and the one that is
  -- not const still returns the oldest.
  pub back-append :
      (t : T) (w : Window T)
      → is_empty w ≡ false
      → (back_const (append t w).1 ≡ some t) × (back (append t w).1 ≡ back w)
  unfolding append is_empty back back_const
  back-append t w h = (last-append w.items t, ground arith)
