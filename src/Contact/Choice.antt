-- ===== src/Contact/Choice.antt =====
-- Which endpoint of a contact (src/maidsafe/transport/contact.cc) is preferred.
use maid_safe_transport.Base.{
  ◌≡◌, refl, ◌∙◌, Bool, true, false, not, if◌then◌else◌, Option, none, some, List, [], ◌∷◌,
}
use maid_safe_transport.Contact.{
  IpOps, Endpoint, Contact, swap_to_front, moved, move_local_endpoint_to_first, prefer_local_if,
  set_preferred_endpoint, preferred_endpoint,
}
use maid_safe_transport.Contact.Swapping.{Swapped, swap_to_front-Swapped}

module _ (ops : IpOps) (same_comm : (a b : ops.Ip) → ops.same a b ≡ ops.same b a) where
  -- The answer tells whether the preferred endpoint has the address.
  unfoldable Tells : ops.Ip → Bool × Contact ops → Type 0
  Tells ip r = ops.same (preferred_endpoint ops r.1).ip ip ≡ r.0

  moved-Tells :
      (ip : ops.Ip) (c : Contact ops) (b : Bool) (o : Option (List (Endpoint ops)))
      → Swapped ops ip b o
      → ops.same c.rendezvous_endpoint.ip ops.unset ≡ true
      → ops.same c.endpoint.ip ip ≡ false
      → c.prefer_local ≡ false
      → Tells ip (prefer_local_if ops (moved ops c o))
  unfolding moved Swapped Tells prefer_local_if preferred_endpoint
  moved-Tells ip c b none h unset other plain = rw (unset, plain) other
  moved-Tells ip c b (some []) h unset other plain = absurd h
  moved-Tells ip c b (some (e ∷ es)) h unset other plain = rw unset (same_comm e.ip ip ∙ h.0)

  own-Tells :
      (ip : ops.Ip) (c : Contact ops)
      → ops.same c.rendezvous_endpoint.ip ops.unset ≡ true
      → c.prefer_local ≡ false
      → ops.same c.endpoint.ip ip ≡ true
      → Tells ip (true, c)
  unfolding Tells preferred_endpoint
  own-Tells ip c unset plain same = rw (unset, plain) same

  branch-Tells :
      (ip : ops.Ip) (c : Contact ops) (unset own : Bool)
      → ops.same c.rendezvous_endpoint.ip ops.unset ≡ unset
      → ops.same c.endpoint.ip ip ≡ own
      → Tells ip (
          if not unset
          then (ops.same c.rendezvous_endpoint.ip ip, c)
          else if own
          then (true, record c { prefer_local = false })
          else prefer_local_if ops
              (move_local_endpoint_to_first ops ip (record c { prefer_local = false })))
  unfolding Tells preferred_endpoint move_local_endpoint_to_first
  branch-Tells ip c false own h k = rw h refl
  branch-Tells ip c true true h k = own-Tells ip (record c { prefer_local = false }) h refl k
  branch-Tells ip c true false h k =
      moved-Tells ip (record c { prefer_local = false }) _ (swap_to_front ops ip c.local_endpoints)
        (swap_to_front-Swapped ops ip c.local_endpoints) h k refl

  -- SetPreferredEndpoint answers true exactly if the preferred endpoint afterwards has the address,
  -- where the comparison of addresses is symmetric.
  pub set_preferred_endpoint_lem :
      (ip : ops.Ip) (c : Contact ops)
      → ops.same (preferred_endpoint ops (set_preferred_endpoint ops ip c).1).ip ip
        ≡ (set_preferred_endpoint ops ip c).0
  unfolding Tells set_preferred_endpoint
  set_preferred_endpoint_lem ip c = branch-Tells ip c _ _ refl refl
