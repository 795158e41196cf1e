-- ===== src/Stream/Entries.antt =====
-- What the entries of the window of src/maidsafe/transport/rudp_receiver.cc hold of the stream.
use maid_safe_transport.Base.{
  ℕ, zero, suc, ◌+◌, ◌≡◌, ◌∙◌, refl, sym, ap, subst, arith, true, false, some, List, [], ◌∷◌, ◌++◌,
  get_elem?, set, take,
}
use mathlib.Core.Option.{some-injective}
use maid_safe_transport.Time.{TimeOps}
use maid_safe_transport.Receiver.{Unread}

module _ (ops : TimeOps) (chunks : List (List ℕ)) where
  -- An entry that is not lost holds the bytes of its place, and a lost one was not read from.
  pub record Holds (k : ℕ) (u : Unread ops) : Type 0 where
    pub chunk : u.lost ≡ false → get_elem? chunks k ≡ some u.packet.payload
    pub unread : u.lost ≡ true → u.bytes_read ≡ 0

  -- The entries from place `k` on, none of which was read from.
  abbrev pub HoldAll : ℕ → List (Unread ops) → Type 0
  HoldAll k [] = Unit
  HoldAll k (u ∷ us) = Holds k u × (u.bytes_read ≡ 0) × HoldAll (suc k) us

  -- The first entry may be read in part.
  abbrev pub Hold : ℕ → List (Unread ops) → Type 0
  Hold k [] = Unit
  Hold k (u ∷ us) = Holds k u × HoldAll (suc k) us

  -- What was read of the first entry.
  abbrev pub started : List (Unread ops) → List ℕ
  started [] = []
  started (u ∷ us) = take u.bytes_read u.packet.payload

  pub started-HoldAll : (k : ℕ) (us : List (Unread ops)) → HoldAll k us → started us ≡ []
  started-HoldAll k [] h = refl
  started-HoldAll k (u ∷ us) (a, b, c) = ap (λ n. take n u.packet.payload) b

  pub Hold-HoldAll : (k : ℕ) (us : List (Unread ops)) → HoldAll k us → Hold k us
  Hold-HoldAll k [] h = tt
  Hold-HoldAll k (u ∷ us) (a, b, c) = (a, c)

  HoldAll-append :
      (k : ℕ) (us : List (Unread ops)) (t : Unread ops)
      → t.lost ≡ true
      → t.bytes_read ≡ 0
      → HoldAll k us
      → HoldAll k (us ++ t ∷ [])
  HoldAll-append k [] t l b h = (record { chunk = λ e. absurd (cc); unread = λ e. b }, b, tt)
  HoldAll-append k (u ∷ us) t l b (x, y, z) = (x, y, HoldAll-append (suc k) us t l b z)

  -- A new entry at the end.
  pub Hold-append :
      (k : ℕ) (us : List (Unread ops)) (t : Unread ops)
      → t.lost ≡ true
      → t.bytes_read ≡ 0
      → Hold k us
      → Hold k (us ++ t ∷ []) × (started (us ++ t ∷ []) ≡ started us)
  Hold-append k [] t l b h = (
    (record { chunk = λ e. absurd (cc); unread = λ e. b }, tt),
    ap (λ n. take n t.packet.payload) b,
  )
  Hold-append k (u ∷ us) t l b (x, y) = ((x, HoldAll-append (suc k) us t l b y), refl)

  -- An entry that can stand for another one at a place.
  pub record Replaces (k : ℕ) (u u' : Unread ops) : Type 0 where
    pub holds : Holds k u'
    pub untouched : u.bytes_read ≡ 0 → u'.bytes_read ≡ 0
    pub same : take u'.bytes_read u'.packet.payload ≡ take u.bytes_read u.packet.payload

  HoldAll-set :
      (i k : ℕ) (us : List (Unread ops)) (u u' : Unread ops)
      → get_elem? us i ≡ some u
      → Replaces (k + i) u u'
      → HoldAll k us
      → HoldAll k (set us i u')
  HoldAll-set i k [] u u' e r h = tt
  HoldAll-set zero k (x ∷ us) u u' e r (a, b, c) = (
    subst (λ j. Holds j u') {x = k + 0} (omega arith) r.holds,
    r.untouched (ap (λ (t : Unread ops). t.bytes_read) (sym (some-injective x u e)) ∙ b),
    c,
  )
  HoldAll-set (suc i) k (x ∷ us) u u' e r (a, b, c) = (
    a,
    b,
    HoldAll-set i (suc k) us u u' e (subst (λ j. Replaces j u u') {x = k + suc i} (omega arith) r)
        c,
  )

  pub Hold-set :
      (i k : ℕ) (us : List (Unread ops)) (u u' : Unread ops)
      → get_elem? us i ≡ some u
      → Replaces (k + i) u u'
      → Hold k us
      → Hold k (set us i u') × (started (set us i u') ≡ started us)
  Hold-set i k [] u u' e r h = (tt, refl)
  Hold-set zero k (x ∷ us) u u' e r (a, c) = (
    (subst (λ j. Holds j u') {x = k + 0} (omega arith) r.holds, c),
    r.same
        ∙ ap (λ (t : Unread ops). take t.bytes_read t.packet.payload) (sym (some-injective x u e)),
  )
  Hold-set (suc i) k (x ∷ us) u u' e r (a, c) = (
    (
      a,
      HoldAll-set i (suc k) us u u' e (subst (λ j. Replaces j u u') {x = k + suc i} (omega arith) r)
          c,
    ),
    refl,
  )

  HoldAll-at :
      (i k : ℕ) (us : List (Unread ops)) (u : Unread ops)
      → get_elem? us i ≡ some u
      → HoldAll k us
      → Holds (k + i) u
  HoldAll-at i k [] u e h = absurd (cc)
  HoldAll-at zero k (x ∷ us) u e (a, b, c) =
      subst (λ j. Holds j u) {x = k} (omega arith) (subst (Holds k) (some-injective x u e) a)
  HoldAll-at (suc i) k (x ∷ us) u e (a, b, c) =
      subst (λ j. Holds j u) {x = suc k + i} (omega arith) (HoldAll-at i (suc k) us u e c)

  pub Hold-at :
      (i k : ℕ) (us : List (Unread ops)) (u : Unread ops)
      → get_elem? us i ≡ some u
      → Hold k us
      → Holds (k + i) u
  Hold-at i k [] u e h = absurd (cc)
  Hold-at zero k (x ∷ us) u e (a, c) =
      subst (λ j. Holds j u) {x = k} (omega arith) (subst (Holds k) (some-injective x u e) a)
  Hold-at (suc i) k (x ∷ us) u e (a, c) =
      subst (λ j. Holds j u) {x = suc k + i} (omega arith) (HoldAll-at i (suc k) us u e c)
