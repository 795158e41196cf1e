-- ===== src/Contact/Acceptance.antt =====
-- Which contacts `Init` of src/maidsafe/transport/contact.cc accepts.
use maid_safe_transport.Base.{
  ◌≡◌, refl, sym, ap, ◌∙◌, Bool, true, false, not, ◌&&◌, ◌||◌, if◌then◌else◌, ℕ, ◌==◌, eq→==, arith,
  Option, none, some, List, [], ◌∷◌,
}
use maid_safe_transport.Contact.{
  IpOps, Endpoint, Contact, no_contact, is_valid, swap_to_front, moved,
  move_local_endpoint_to_first, same_port, check_first, init,
}
use mathlib.Core.List.{Perm}
use maid_safe_transport.Contact.Swapping.{
  has_ip, front_has, Swapped, Fronted, swap_to_front-Swapped, move_local_endpoint_to_first-Fronted,
}

module _ (ops : IpOps) where
  -- All endpoints are valid and have the port.
  unfoldable pub all_valid : ℕ → List (Endpoint ops) → Bool
  all_valid port [] = true
  all_valid port (e ∷ es) = is_valid ops e && e.port == port && all_valid port es

  -- What Init asks of a contact, without the order in which it looks.
  unfoldable pub accepted : Contact ops → Bool
  accepted c = elim c.local_endpoints [
    | [] ↦ false
    | first ∷ rest ↦
        is_valid ops c.endpoint
        && all_valid first.port c.local_endpoints
        && (not (c.tcp443 || c.tcp80)
            || (not (is_valid ops c.rendezvous_endpoint)
                && has_ip ops c.endpoint.ip c.local_endpoints))
  ]

  tested :
      (valid same rest rest' : Bool)
      → rest ≡ rest'
      → (if not valid || not same then false else rest) ≡ (valid && same && rest')
  tested false same r r' h = refl
  tested true false r r' h = refl
  tested true true r r' h = h

  same_port-all_valid :
      (port : ℕ) (es : List (Endpoint ops)) → same_port ops port es ≡ all_valid port es
  unfolding same_port all_valid
  same_port-all_valid port [] = refl
  same_port-all_valid port (e ∷ es) =
      tested (is_valid ops e) (e.port == port) _ _ (same_port-all_valid port es)

  -- The contact `c` is left if `b` is true, and cleared if it is not.
  unfoldable Decides : Contact ops → Bool → Bool × Contact ops → Type 0
  Decides c b r = r ≡ (if b then (true, c) else (false, no_contact ops))

  refuses : (c : Contact ops) → Decides c false (false, no_contact ops)
  unfolding Decides
  refuses c = refl

  accepts : (c : Contact ops) → Decides c true (true, c)
  unfolding Decides
  accepts c = refl

  checked :
      (tcp b differs : Bool) (c : Contact ops)
      → differs ≡ not b
      → Decides c (not tcp || b) (if tcp && differs then (false, no_contact ops) else (true, c))
  checked false b differs c h = accepts c
  checked true true differs c h = rw h (accepts c)
  checked true false differs c h = rw h (refuses c)

  check_first-moved :
      (c : Contact ops) (o : Option (List (Endpoint ops))) (b : Bool)
      → Swapped ops c.endpoint.ip b o
      → (b ≡ false
          → elim c.local_endpoints [ [] ↦ false | e ∷ es ↦ not (ops.same c.endpoint.ip e.ip) ]
            ≡ true)
      → Decides
          (moved ops c o).1
          (not (c.tcp443 || c.tcp80) || b)
          (check_first ops (moved ops c o).1)
  unfolding Swapped check_first moved
  check_first-moved c none b h first =
      checked (c.tcp443 || c.tcp80) b _ c (first h ∙ ap not (sym h))
  check_first-moved c (some []) b h first = absurd h
  check_first-moved c (some (f ∷ fs)) b h first =
      checked (c.tcp443 || c.tcp80) b _ (record c { local_endpoints = f ∷ fs })
        (ap not (h.0 ∙ sym h.1))

  guarded :
      (endpoint first tcp rendezvous ports : Bool) (b : Bool) (c : Contact ops)
      (r : Bool × Contact ops)
      → Decides c (not tcp || b) r
      → Decides c (endpoint && (first && ports) && (not tcp || (not rendezvous && b))) (
          if not endpoint || not first
          then (false, no_contact ops)
          else if tcp && rendezvous
          then (false, no_contact ops)
          else if not ports
          then (false, no_contact ops)
          else r)
  guarded false first tcp rendezvous ports b c r h = refuses c
  guarded true false tcp rendezvous ports b c r h = refuses c
  guarded true true true true false b c r h = refuses c
  guarded true true true true true b c r h = refuses c
  guarded true true true false false b c r h = refuses c
  guarded true true true false true b c r h = h
  guarded true true false rendezvous false b c r h = refuses c
  guarded true true false rendezvous true b c r h = h

  differs_first :
      (ip : ops.Ip) (first : Endpoint ops) (rest : List (Endpoint ops))
      → has_ip ops ip (first ∷ rest) ≡ false
      → not (ops.same ip first.ip) ≡ true
  unfolding has_ip
  differs_first ip first rest h = ground arith

  test_dropped : (a b c d : Bool) → b ≡ true → c ≡ d → (a && b && c) ≡ (a && d)
  test_dropped false b c d h k = refl
  test_dropped true b c d h k = rw h k

  first_valid :
      (first : Endpoint ops) (rest : List (Endpoint ops))
      → all_valid first.port (first ∷ rest) ≡ (is_valid ops first && same_port ops first.port rest)
  unfolding all_valid
  first_valid first rest =
      test_dropped _ _ _ _ (eq→== first.port first.port refl)
        (sym (same_port-all_valid first.port rest))

  init-by :
      (e : Endpoint ops) (es : List (Endpoint ops)) (r : Endpoint ops) (t443 t80 prefer : Bool)
      → let c : Contact ops = record {
        endpoint = e;
        local_endpoints = es;
        rendezvous_endpoint = r;
        tcp443 = t443;
        tcp80 = t80;
        prefer_local = prefer;
      } in
        Decides (move_local_endpoint_to_first ops e.ip c).1 (accepted c) (init ops c)
  unfolding init accepted move_local_endpoint_to_first
  init-by e [] r t443 t80 prefer = refuses _
  init-by e (first ∷ rest) r t443 t80 prefer = rw (first_valid first rest) (
      guarded (is_valid ops e) (is_valid ops first) (t443 || t80) (is_valid ops r)
        (same_port ops first.port rest) (has_ip ops e.ip (first ∷ rest)) _ _
        (check_first-moved _ (swap_to_front ops e.ip (first ∷ rest)) _
          (swap_to_front-Swapped ops e.ip (first ∷ rest)) (differs_first e.ip first rest)))

  -- Init accepts a contact that has a local endpoint, whose own and local endpoints are valid, the
  -- local ones on one port, and which with TCP endpoints has its own address among the local ones
  -- and no valid rendezvous endpoint. It leaves it with the same local endpoints, of which one with
  -- its own address is in front, if there is one, and with nothing else changed. It clears every
  -- other contact. A contact without TCP endpoints is accepted with a rendezvous endpoint, also if
  -- its own endpoint is its first local one.
  pub init_lem :
      (c : Contact ops)
      → (fs : List (Endpoint ops)) × (front_has ops c.endpoint.ip fs
          ≡ has_ip ops c.endpoint.ip c.local_endpoints)
        × Perm fs c.local_endpoints
        × (init ops c ≡ (
            if accepted c
            then (true, record c { local_endpoints = fs })
            else (false, no_contact ops)))
  unfolding Decides Fronted
  init_lem c =
      let (fs, d, front, same) = move_local_endpoint_to_first-Fronted ops c.endpoint.ip c in
      (
        fs,
        front,
        same,
        init-by c.endpoint c.local_endpoints c.rendezvous_endpoint c.tcp443 c.tcp80 c.prefer_local
            ∙ ap (λ (x : Contact ops). if accepted c then (true, x) else (false, no_contact ops)) d,
      )
