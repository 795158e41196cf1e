-- ===== src/Examples/Contacts.antt =====
-- A contact of src/maidsafe/transport/contact.cc with two local endpoints, addresses being numbers
-- and 0 being IP().
use maid_safe_transport.Base.{ℕ, ◌≡◌, refl, arith, true, false, if◌then◌else◌, List, [], ◌∷◌, ◌==◌}
use mathlib.Core.List.{Perm}
use maid_safe_transport.Contact.{
  IpOps, Endpoint, Contact, no_endpoint, new_contact, set_preferred_endpoint, preferred_endpoint,
  init, is_directly_connected, is_valid, no_contact,
}
use maid_safe_transport.Contact.Acceptance.{accepted, all_valid, init_lem}
use maid_safe_transport.Contact.Swapping.{has_ip, front_has}
use maid_safe_transport.Contact.Choice.{set_preferred_endpoint_lem}

abbrev ip_ops : IpOps
ip_ops = record { Ip = ℕ; unset = 0; same = λ a b. a == b }

==_comm : (a b : ℕ) → (a == b) ≡ (b == a)
==_comm a b = ground arith

abbrev outside : Endpoint ip_ops
outside = record { ip = 9; port = 5483 }

abbrev inside : Endpoint ip_ops
inside = record { ip = 7; port = 5000 }

abbrev inside_too : Endpoint ip_ops
inside_too = record { ip = 8; port = 5000 }

abbrev contact : Contact ip_ops
contact = record {
  endpoint = outside;
  local_endpoints = inside ∷ inside_too ∷ [];
  rendezvous_endpoint = record { ip = 0; port = 0 };
  tcp443 = false;
  tcp80 = false;
  prefer_local = false;
}

contact-new_contact :
    new_contact ip_ops outside (inside ∷ inside_too ∷ []) (no_endpoint ip_ops) false false ≡ contact
unfolding new_contact init no_endpoint
contact-new_contact = refl

contact-is_directly_connected : is_directly_connected ip_ops contact ≡ false
unfolding is_directly_connected
contact-is_directly_connected = refl

-- The second local endpoint is moved to the front and preferred.
preferred_inside :
    preferred_endpoint ip_ops (set_preferred_endpoint ip_ops 8 contact).1 ≡ inside_too
unfolding preferred_endpoint set_preferred_endpoint
preferred_inside = refl

set_preferred_endpoint_lem_example :
    ((preferred_endpoint ip_ops (set_preferred_endpoint ip_ops 8 contact).1).ip == 8)
    ≡ (set_preferred_endpoint ip_ops 8 contact).0
set_preferred_endpoint_lem_example = set_preferred_endpoint_lem ip_ops ==_comm 8 contact

contact-accepted : accepted ip_ops contact ≡ true
unfolding accepted all_valid has_ip is_valid
contact-accepted = refl

-- On TCP port 443 the address of the contact has to be one of the local ones.
abbrev contact_443 : Contact ip_ops
contact_443 = record contact { tcp443 = true }

contact_443-accepted : accepted ip_ops contact_443 ≡ false
unfolding accepted all_valid has_ip is_valid
contact_443-accepted = refl

-- Its own endpoint is a local one, which makes it directly connected, and it has a rendezvous
-- endpoint: Init accepts it.
abbrev direct : Contact ip_ops
direct = record contact {
  endpoint = inside_too;
  rendezvous_endpoint = record { ip = 4; port = 5483 };
}

direct-accepted : accepted ip_ops direct ≡ true
unfolding accepted all_valid has_ip is_valid
direct-accepted = refl

direct-is_directly_connected : is_directly_connected ip_ops (init ip_ops direct).1 ≡ true
unfolding is_directly_connected init
direct-is_directly_connected = refl

init_lem_example :
    (fs : List (Endpoint ip_ops)) × (front_has ip_ops 8 fs ≡ has_ip ip_ops 8 direct.local_endpoints)
    × Perm fs direct.local_endpoints
    × (init ip_ops direct ≡ (
        if accepted ip_ops direct
        then (true, record direct { local_endpoints = fs })
        else (false, no_contact ip_ops)))
init_lem_example = init_lem ip_ops direct
