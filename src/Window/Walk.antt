-- ===== src/Window/Walk.antt =====
-- The loops `for (n = w.Begin(); n != w.End(); n = w.Next(n))` over the numbers of a window. Each
-- takes as many rounds of fuel as there are items, and the theorems show that it ends by its test.
use maid_safe_transport.Base.{ℕ, zero, suc, ◌≤◌, ◌<◌, ◌≡◌, ◌≢◌, ◌∙◌, refl, arith}
use maid_safe_transport.Base.{Bool, true, false, none, some, List, [], ◌∷◌, ◌++◌, ap}
use maid_safe_transport.Base.{
  length, get_elem?, set, ◌==◌, if◌then◌else◌, append_assoc, length-append,
}
use maid_safe_transport.Base.{
  get_elem?-append_cons, set-append_cons, ne→==_false, eq→==, Bool-cases, inl, inr,
}
use maid_safe_transport.Window.{Window, next, item, set_item, size, sequence_number_to_index}
use maid_safe_transport.Window.Circle.{modulus, ahead, next-ahead, next-lt}
use maid_safe_transport.Window.Index.{IsValid, item-ahead}

-- A loop whose body changes a state and leaves the ends of the window alone.
unfoldable pub walk {ℓ} : {S : Type ℓ} (fuel end : ℕ) (body : ℕ → S → S) (n : ℕ) → S → S
walk zero end body n s = s
walk (suc fuel) end body n s =
    let rest = walk fuel end body (next n) (body n s) in if n == end then s else rest

-- The body at `k` numbers from `n` on, each once and in order.
unfoldable pub visits {ℓ} : {S : Type ℓ} → ℕ → (ℕ → S → S) → ℕ → S → S
visits zero body n s = s
visits (suc k) body n s = visits k body (next n) (body n s)

-- A loop `while (n != end && !stop(n)) n = Next(n)`: where it stands when it ends.
unfoldable pub seek : ℕ → ℕ → (ℕ → Bool) → ℕ → ℕ
seek zero end stop n = n
seek (suc fuel) end stop n =
    let rest = seek fuel end stop (next n) in if n == end then n else if stop n then n else rest

pub next-ahead_one : (n k : ℕ) → n < modulus → ahead (next n) k ≡ ahead n (suc k)
unfolding next
next-ahead_one n k h = ground arith

pub ahead-ne : (n k : ℕ) → n < modulus → suc k < modulus → n ≢ ahead n (suc k)
ahead-ne n k h hk = omega arith

-- The loop runs its body at each number of the window once, in order, and ends by its test: more
-- fuel than there are numbers changes nothing.
pub walk-visits {ℓ} :
    {S : Type ℓ} (fuel k : ℕ) (body : ℕ → S → S) (n : ℕ) (s : S)
    → n < modulus
    → k < modulus
    → k ≤ fuel
    → walk fuel (ahead n k) body n s ≡ visits k body n s
unfolding walk visits
walk-visits zero zero body n s hn hk h = refl
walk-visits zero (suc k) body n s hn hk h = absurd (omega arith)
walk-visits (suc fuel) zero body n s hn hk h = rw (eq→== n (ahead n 0) (omega arith))
walk-visits (suc fuel) (suc k) body n s hn hk h =
    rw (ne→==_false n (ahead n (suc k)) (ahead-ne n k hn hk), ← next-ahead_one n k hn)
      (walk-visits fuel k body (next n) (body n s) (next-lt n hn) (omega arith) (omega arith))

-- Where `seek` ends: at the first number that stops it, or at the end.
pub record Stops (stop : ℕ → Bool) (n k j : ℕ) : Type 0 where
  pub within : j ≤ k
  pub passed : (i : ℕ) → i < j → stop (ahead n i) ≡ false
  pub stopped : j < k → stop (ahead n j) ≡ true

pub seek-Stops :
    (fuel k : ℕ) (stop : ℕ → Bool) (n : ℕ)
    → n < modulus
    → k < modulus
    → k ≤ fuel
    → (j : ℕ) × (seek fuel (ahead n k) stop n ≡ ahead n j) × Stops stop n k j
unfolding seek
seek-Stops zero zero stop n hn hk h = (
  0,
  omega arith,
  record {
    within = omega arith;
    passed = λ i p. absurd (omega arith);
    stopped = λ p. absurd (omega arith);
  },
)
seek-Stops zero (suc k) stop n hn hk h = absurd (omega arith)
seek-Stops (suc fuel) zero stop n hn hk h = (
  0,
  rw (eq→== n (ahead n 0) (omega arith)) (omega arith),
  record {
    within = omega arith;
    passed = λ i p. absurd (omega arith);
    stopped = λ p. absurd (omega arith);
  },
)
seek-Stops (suc fuel) (suc k) stop n hn hk h = elim (Bool-cases (stop n)) [
  | inl here ↦ (
    0,
    rw (ne→==_false n (ahead n (suc k)) (ahead-ne n k hn hk), here) (omega arith),
    record {
      within = omega arith;
      passed = λ i p. absurd (omega arith);
      stopped = λ p. let e : ahead n 0 ≡ n = omega arith in rw e here;
    },
  )
  | inr not_here ↦
      let (j, e, s) = seek-Stops fuel k stop (next n) (next-lt n hn) (omega arith) (omega arith) in
      (
        suc j,
        rw
            (
              ne→==_false n (ahead n (suc k)) (ahead-ne n k hn hk),
              not_here,
              ← next-ahead_one n k hn,
              ← next-ahead_one n j hn,
            )
            e,
        record {
          within = omega (arith, s.within);
          passed = passed_from not_here s.passed;
          stopped = λ p. rw (← next-ahead_one n j hn) (s.stopped (omega arith));
        },
      )
]
  where
    passed_from :
        {j : ℕ}
        → stop n ≡ false
        → ((i : ℕ) → i < j → stop (ahead (next n) i) ≡ false)
        → (i : ℕ) → i < suc j
        → stop (ahead n i) ≡ false
    passed_from e more zero p = let e' : ahead n 0 ≡ n = omega arith in rw e' e
    passed_from e more (suc i) p = rw (← next-ahead_one n i hn) (more i (omega arith))

module _ {T : Type 0} where
  -- One round of a loop that rewrites the item at each number.
  unfoldable pub update_at : (ℕ → T → T) → ℕ → Window T → Window T
  update_at f n w = elim (item w n) [ none ↦ w | some t ↦ set_item n (f n t) w ]

  unfoldable pub update_all : (ℕ → T → T) → Window T → Window T
  unfolding walk update_at
  update_all f w = walk (size w) w.end (update_at f) w.begin w

  -- The items from number `n` on, each rewritten at its number.
  abbrev pub map_numbered : (ℕ → T → T) → ℕ → List T → List T
  map_numbered f n [] = []
  map_numbered f n (t ∷ ts) = f n t ∷ map_numbered f (next n) ts

  pub length-map_numbered :
      (f : ℕ → T → T) (n : ℕ) (ts : List T) → length (map_numbered f n ts) ≡ length ts
  length-map_numbered f n [] = refl
  length-map_numbered f n (t ∷ ts) = ap suc (length-map_numbered f (next n) ts)

  abbrev pub with_items : Window T → List T → Window T
  with_items w ts = record w { items = ts }

  pub same_length :
      (w : Window T) (xs ys : List T)
      → length ys ≡ length xs
      → IsValid (with_items w xs)
      → IsValid (with_items w ys)
  same_length w xs ys e v = ground arith

  pub index-here :
      (w : Window T) (done : List T) (t : T) (rest : List T)
      → IsValid (with_items w (done ++ t ∷ rest))
      → sequence_number_to_index (with_items w (done ++ t ∷ rest)) (ahead w.begin (length done))
        ≡ length done
  index-here w done t rest v =
      (item-ahead (with_items w (done ++ t ∷ rest)) (length done) v
        (omega (arith, length-append done (t ∷ rest)))).1

  pub item-here :
      (w : Window T) (done : List T) (t : T) (rest : List T)
      → IsValid (with_items w (done ++ t ∷ rest))
      → item (with_items w (done ++ t ∷ rest)) (ahead w.begin (length done)) ≡ some t
  unfolding item
  item-here w done t rest v =
      ap (get_elem? (done ++ t ∷ rest)) (index-here w done t rest v)
      ∙ get_elem?-append_cons done rest t (length done) refl

  pub set_item-here :
      (w : Window T) (done : List T) (t u : T) (rest : List T)
      → IsValid (with_items w (done ++ t ∷ rest))
      → set_item (ahead w.begin (length done)) u (with_items w (done ++ t ∷ rest))
        ≡ with_items w (done ++ u ∷ rest)
  unfolding set_item
  set_item-here w done t u rest v =
      ap (λ k. with_items w (set (done ++ t ∷ rest) k u)) (index-here w done t rest v)
      ∙ ap (with_items w) (set-append_cons done rest t u (length done) refl)

  -- The loop does not end at a number that has an item.
  pub before_end :
      (w : Window T) (done : List T) (t : T) (rest : List T)
      → IsValid (with_items w (done ++ t ∷ rest))
      → (ahead w.begin (length done) == w.end) ≡ false
  before_end w done t rest v =
      ne→==_false (ahead w.begin (length done)) w.end
        (omega (arith, v.end_ahead, v.size_fits, v.begin_fits, length-append done (t ∷ rest)))

  update_at-ahead :
      (f : ℕ → T → T) (w : Window T) (done : List T) (t : T) (rest : List T)
      → IsValid (with_items w (done ++ t ∷ rest))
      → let n = ahead w.begin (length done) in
        update_at f n (with_items w (done ++ t ∷ rest)) ≡ with_items w (done ++ f n t ∷ rest)
  unfolding update_at
  update_at-ahead f w done t rest v =
      rw (item-here w done t rest v, update_at) (set_item-here w done t _ rest v)

  visits-map_numbered :
      (f : ℕ → T → T) (w : Window T) (rest done : List T)
      → w.begin < modulus
      → IsValid (with_items w (done ++ rest))
      → let n = ahead w.begin (length done) in
        visits (length rest) (update_at f) n (with_items w (done ++ rest))
        ≡ with_items w (done ++ map_numbered f n rest)
  unfolding visits
  visits-map_numbered f w [] done hb v = refl
  visits-map_numbered f w (t ∷ rest) done hb v =
      let n = ahead w.begin (length done) in
      let shift : (done ++ f n t ∷ []) ++ rest ≡ done ++ f n t ∷ rest =
        append_assoc done (f n t ∷ []) rest in
      let len : length (done ++ f n t ∷ []) ≡ suc (length done) =
        omega (arith, length-append done (f n t ∷ [])) in
      let ih = visits-map_numbered f w rest (done ++ f n t ∷ []) hb (
        rw shift (
          same_length w (done ++ t ∷ rest) (done ++ f n t ∷ rest)
            (omega (arith, length-append done (t ∷ rest), length-append done (f n t ∷ rest))) v)) in
      rw (update_at-ahead f w done t rest v, next-ahead w.begin (length done) hb, visits)
        (rw
          (
            shift,
            len,
            append_assoc done (f n t ∷ [])
                (map_numbered f (ahead w.begin (suc (length done))) rest),
          )
          at ih)

  -- Rewriting the item at every number of a valid window by the loop of the source is rewriting
  -- the list of its items, each with its number.
  pub update_all-map_numbered :
      (f : ℕ → T → T) (w : Window T)
      → IsValid w
      → update_all f w ≡ record w { items = map_numbered f w.begin w.items }
  unfolding update_all
  update_all-map_numbered f w v =
      let start : ahead w.begin 0 ≡ w.begin = omega (arith, v.begin_fits) in
      ap (λ e. walk (size w) e (update_at f) w.begin w) v.end_ahead
      ∙ walk-visits (size w) (size w) (update_at f) w.begin w v.begin_fits
          (omega (arith, v.size_fits)) (omega arith)
      ∙ rw start at (visits-map_numbered f w w.items [] v.begin_fits v)

-- A part of the state on which the loop works by a body of its own.
pub walk-part {ℓ κ} :
    {S : Type ℓ} {R : Type κ} (part : S → R) (body : ℕ → S → S) (body' : ℕ → R → R)
    → ((n : ℕ) (s : S) → part (body n s) ≡ body' n (part s))
    → (fuel end n : ℕ) (s : S) → part (walk fuel end body n s) ≡ walk fuel end body' n (part s)
unfolding walk
walk-part part body body' agree zero end n s = refl
walk-part part body body' agree (suc fuel) end n s = elim (Bool-cases (n == end)) [
  | inl e ↦ rw e
  | inr e ↦ rw (e, ← agree n s) (walk-part part body body' agree fuel end (next n) (body n s))
]

-- A part of the state that the body leaves alone.
pub walk-keeps {ℓ κ} :
    {S : Type ℓ} {R : Type κ} (part : S → R) (body : ℕ → S → S)
    → ((n : ℕ) (s : S) → part (body n s) ≡ part s)
    → (fuel end n : ℕ) (s : S) → part (walk fuel end body n s) ≡ part s
unfolding walk
walk-keeps part body keeps zero end n s = refl
walk-keeps part body keeps (suc fuel) end n s = elim (Bool-cases (n == end)) [
  | inl e ↦ rw e
  | inr e ↦ rw e (walk-keeps part body keeps fuel end (next n) (body n s) ∙ keeps n s)
]

-- What the body keeps, the loop keeps.
pub walk-invariant {ℓ κ} :
    {S : Type ℓ} (P : S → Type κ) (body : ℕ → S → S)
    → ((n : ℕ) (s : S) → P s → P (body n s))
    → (fuel end n : ℕ) (s : S) → P s
    → P (walk fuel end body n s)
unfolding walk
walk-invariant P body keeps zero end n s h = h
walk-invariant P body keeps (suc fuel) end n s h = elim (Bool-cases (n == end)) [
  | inl e ↦ rw e h
  | inr e ↦ rw e (walk-invariant P body keeps fuel end (next n) (body n s) (keeps n s h))
]
