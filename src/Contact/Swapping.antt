-- ===== src/Contact/Swapping.antt =====
-- What MoveLocalEndpointToFirst of src/maidsafe/transport/contact.cc leaves in front.
use maid_safe_transport.Base.{
  ◌≡◌, refl, sym, ◌∙◌, arith, Bool, true, false, if◌then◌else◌, Bool-cases, both_branches, Option,
  none, some, List, [], ◌∷◌, inl, inr,
}
use mathlib.Core.List.{Perm}
use mathlib.Core.List.Perm
use maid_safe_transport.Contact.{
  IpOps, Endpoint, Contact, ip_matches_endpoint, swap_behind, swap_to_front, moved,
  move_local_endpoint_to_first,
}

module _ (ops : IpOps) where
  -- Some of the endpoints has the address.
  unfoldable pub has_ip : ops.Ip → List (Endpoint ops) → Bool
  has_ip ip [] = false
  has_ip ip (e ∷ es) = let rest = has_ip ip es in if ops.same ip e.ip then true else rest

  -- A swap leaves an endpoint with the address in front, and is made exactly if there is one.
  unfoldable pub Swapped : ops.Ip → Bool → Option (List (Endpoint ops)) → Type 0
  Swapped ip b none = b ≡ false
  Swapped ip b (some []) = ⊥
  Swapped ip b (some (e ∷ es)) = (ops.same ip e.ip ≡ true) × (b ≡ true)

  matched :
      (ip : ops.Ip) (b : Bool) (e : Endpoint ops) (es : List (Endpoint ops))
      (o : Option (List (Endpoint ops)))
      → Swapped ip b o
      → Swapped ip
          (if ops.same ip e.ip then true else b)
          (if ip_matches_endpoint ops ip e then some (e ∷ es) else o)
  unfolding Swapped ip_matches_endpoint
  matched ip b e es o h = elim (Bool-cases (ops.same ip e.ip)) [
    | inl agrees ↦ rw agrees (agrees, refl)
    | inr differs ↦ rw differs h
  ]

  behind :
      (ip : ops.Ip) (b : Bool) (e : Endpoint ops) (o : Option (List (Endpoint ops)))
      → Swapped ip b o
      → Swapped ip b
          (elim o [ none ↦ none | some [] ↦ none | some (front ∷ fs) ↦ some (front ∷ e ∷ fs) ])
  unfolding Swapped
  behind ip b e none h = h
  behind ip b e (some []) h = absurd h
  behind ip b e (some (f ∷ fs)) h = h

  swap_behind-Swapped :
      (ip : ops.Ip) (first : Endpoint ops) (es : List (Endpoint ops))
      → Swapped ip (has_ip ip es) (swap_behind ops ip first es)
  unfolding Swapped has_ip swap_behind
  swap_behind-Swapped ip first [] = refl
  swap_behind-Swapped ip first (e ∷ es) =
      matched ip _ e (first ∷ es) _ (behind ip _ e _ (swap_behind-Swapped ip first es))

  pub swap_to_front-Swapped :
      (ip : ops.Ip) (es : List (Endpoint ops)) → Swapped ip (has_ip ip es) (swap_to_front ops ip es)
  unfolding Swapped has_ip swap_to_front
  swap_to_front-Swapped ip [] = refl
  swap_to_front-Swapped ip (e ∷ es) = matched ip _ e es _ (swap_behind-Swapped ip e es)

  -- A swap only exchanges endpoints.
  unfoldable Kept : List (Endpoint ops) → Option (List (Endpoint ops)) → Type 0
  Kept es none = Unit
  Kept es (some fs) = Perm fs es

  behind-Kept :
      (first e : Endpoint ops) (es : List (Endpoint ops)) (o : Option (List (Endpoint ops)))
      → Kept (first ∷ es) o
      → Kept
          (first ∷ e ∷ es)
          (elim o [ none ↦ none | some [] ↦ none | some (front ∷ fs) ↦ some (front ∷ e ∷ fs) ])
  unfolding Kept
  behind-Kept first e es none h = tt
  behind-Kept first e es (some []) h = tt
  behind-Kept first e es (some (f ∷ fs)) h =
      Perm.trans (Perm.swap e f fs) (Perm.trans (Perm.cons e h) (Perm.swap first e es))

  swap_behind-Kept :
      (ip : ops.Ip) (first : Endpoint ops) (es : List (Endpoint ops))
      → Kept (first ∷ es) (swap_behind ops ip first es)
  unfolding Kept swap_behind
  swap_behind-Kept ip first [] = tt
  swap_behind-Kept ip first (e ∷ es) =
      both_branches (Kept (first ∷ e ∷ es)) (ip_matches_endpoint ops ip e) _ _
        (Perm.swap first e es) (behind-Kept first e es _ (swap_behind-Kept ip first es))

  swap_to_front-Kept : (ip : ops.Ip) (es : List (Endpoint ops)) → Kept es (swap_to_front ops ip es)
  unfolding Kept swap_to_front
  swap_to_front-Kept ip [] = tt
  swap_to_front-Kept ip (e ∷ es) =
      both_branches (Kept (e ∷ es)) (ip_matches_endpoint ops ip e) _ _ (Perm.refl (e ∷ es))
        (swap_behind-Kept ip e es)

  -- The first of the endpoints has the address.
  unfoldable pub front_has : ops.Ip → List (Endpoint ops) → Bool
  front_has ip [] = false
  front_has ip (e ∷ es) = ops.same ip e.ip

  not_in_front :
      (ip : ops.Ip) (es : List (Endpoint ops)) → has_ip ip es ≡ false → front_has ip es ≡ false
  unfolding has_ip front_has
  not_in_front ip [] h = refl
  not_in_front ip (e ∷ es) h = ground arith

  -- The endpoints of `c` in another order, the one with the address in front, if there is one.
  unfoldable pub Fronted : ops.Ip → Contact ops → Contact ops → Type 0
  Fronted ip c d =
      (fs : List (Endpoint ops)) × (d ≡ record c { local_endpoints = fs })
      × (front_has ip fs ≡ has_ip ip c.local_endpoints)
      × Perm fs c.local_endpoints

  moved-Fronted :
      (ip : ops.Ip) (c : Contact ops) (o : Option (List (Endpoint ops)))
      → Swapped ip (has_ip ip c.local_endpoints) o
      → Kept c.local_endpoints o
      → Fronted ip c (moved ops c o).1
  unfolding Fronted Swapped Kept moved front_has
  moved-Fronted ip c none h k = (
    c.local_endpoints,
    refl,
    not_in_front ip c.local_endpoints h ∙ sym h,
    Perm.refl c.local_endpoints,
  )
  moved-Fronted ip c (some []) h k = absurd h
  moved-Fronted ip c (some (f ∷ fs)) h k = (f ∷ fs, refl, h.0 ∙ sym h.1, k)

  pub move_local_endpoint_to_first-Fronted :
      (ip : ops.Ip) (c : Contact ops) → Fronted ip c (move_local_endpoint_to_first ops ip c).1
  unfolding move_local_endpoint_to_first
  move_local_endpoint_to_first-Fronted ip c =
      moved-Fronted ip c (swap_to_front ops ip c.local_endpoints)
        (swap_to_front-Swapped ip c.local_endpoints) (swap_to_front-Kept ip c.local_endpoints)
