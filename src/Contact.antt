-- ===== src/Contact.antt =====
-- src/maidsafe/transport/contact.{h,cc}: the endpoints of a node, the check that they belong
-- together, and the choice of the preferred one. An address is a parameter, with `==` and IP().
-- A change answers the Boolean of the method and the contact that it leaves.
pub mod Acceptance
pub mod Choice
pub mod Swapping
use maid_safe_transport.Base.{
  ℕ, ◌==◌, Bool, true, false, not, ◌&&◌, ◌||◌, if◌then◌else◌, Option, none, some, List, [], ◌∷◌,
}

pub record IpOps : Type 1 where
  pub Ip : Type 0
  pub unset : Ip
  pub same : Ip → Ip → Bool

pub record Endpoint (ops : IpOps) : Type 0 where
  pub ip : ops.Ip
  pub port : ℕ

pub record Contact (ops : IpOps) : Type 0 where
  pub endpoint : Endpoint ops
  pub local_endpoints : List (Endpoint ops)
  pub rendezvous_endpoint : Endpoint ops
  pub tcp443 : Bool
  pub tcp80 : Bool
  pub prefer_local : Bool

module _ (ops : IpOps) where
  unfoldable pub no_endpoint : Endpoint ops
  no_endpoint = record { ip = ops.unset; port = 0 }

  unfoldable pub is_valid : Endpoint ops → Bool
  is_valid e = not (ops.same e.ip ops.unset || (e.port == 0))

  -- The default constructor; `Clear` leaves the same fields.
  unfoldable pub no_contact : Contact ops
  unfolding no_endpoint
  no_contact = record {
    endpoint = no_endpoint;
    local_endpoints = [];
    rendezvous_endpoint = no_endpoint;
    tcp443 = false;
    tcp80 = false;
    prefer_local = false;
  }

  unfoldable pub tcp443endpoint : Contact ops → Endpoint ops
  unfolding no_endpoint
  tcp443endpoint c = if c.tcp443 then record { ip = c.endpoint.ip; port = 443 } else no_endpoint

  unfoldable pub tcp80endpoint : Contact ops → Endpoint ops
  unfolding no_endpoint
  tcp80endpoint c = if c.tcp80 then record { ip = c.endpoint.ip; port = 80 } else no_endpoint

  unfoldable pub ip_matches_endpoint : ops.Ip → Endpoint ops → Bool
  ip_matches_endpoint ip e = ops.same ip e.ip

  -- `find_if` and `iter_swap` behind the first endpoint: the first match changes places with it.
  unfoldable pub swap_behind :
      ops.Ip → Endpoint ops → List (Endpoint ops) → Option (List (Endpoint ops))
  unfolding ip_matches_endpoint
  swap_behind ip first [] = none
  swap_behind ip first (e ∷ es) =
      let rest = swap_behind ip first es in
      if ip_matches_endpoint ip e
      then some (e ∷ first ∷ es)
      else elim rest [ none ↦ none | some [] ↦ none | some (front ∷ fs) ↦ some (front ∷ e ∷ fs) ]

  unfoldable pub swap_to_front : ops.Ip → List (Endpoint ops) → Option (List (Endpoint ops))
  unfolding ip_matches_endpoint swap_behind
  swap_to_front ip [] = none
  swap_to_front ip (e ∷ es) =
      if ip_matches_endpoint ip e then some (e ∷ es) else swap_behind ip e es

  unfoldable pub moved : Contact ops → Option (List (Endpoint ops)) → Bool × Contact ops
  moved c none = (false, c)
  moved c (some es) = (true, record c { local_endpoints = es })

  unfoldable pub move_local_endpoint_to_first : ops.Ip → Contact ops → Bool × Contact ops
  unfolding moved swap_to_front
  move_local_endpoint_to_first ip c = moved c (swap_to_front ip c.local_endpoints)

  unfoldable pub prefer_local_if : Bool × Contact ops → Bool × Contact ops
  prefer_local_if (result, c) = (result, if result then record c { prefer_local = true } else c)

  unfoldable pub set_preferred_endpoint : ops.Ip → Contact ops → Bool × Contact ops
  unfolding move_local_endpoint_to_first prefer_local_if
  set_preferred_endpoint ip c =
      if not (ops.same c.rendezvous_endpoint.ip ops.unset)
      then (ops.same c.rendezvous_endpoint.ip ip, c)
      else let d = record c { prefer_local = false } in
        if ops.same d.endpoint.ip ip
        then (true, d)
        else prefer_local_if (move_local_endpoint_to_first ip d)

  unfoldable pub preferred_endpoint : Contact ops → Endpoint ops
  preferred_endpoint c =
      if not (ops.same c.rendezvous_endpoint.ip ops.unset)
      then c.rendezvous_endpoint
      else if c.prefer_local
      then elim c.local_endpoints [ [] ↦ c.endpoint | e ∷ es ↦ e ]
      else c.endpoint

  unfoldable pub is_directly_connected : Contact ops → Bool
  is_directly_connected c =
      c.tcp443
      || c.tcp80
      || (not c.prefer_local
          && elim c.local_endpoints [ [] ↦ false | e ∷ es ↦ ops.same e.ip c.endpoint.ip ])

  -- The loop of `Init` over the endpoints behind the first.
  unfoldable pub same_port : ℕ → List (Endpoint ops) → Bool
  unfolding is_valid
  same_port port [] = true
  same_port port (e ∷ es) =
      let rest = same_port port es in
      if not (is_valid e) || not (e.port == port) then false else rest

  -- The end of `Init`: the first local endpoint after the move, where there are TCP endpoints.
  unfoldable pub check_first : Contact ops → Bool × Contact ops
  unfolding no_contact
  check_first c =
      if (c.tcp443 || c.tcp80)
        && elim c.local_endpoints [ [] ↦ false | e ∷ es ↦ not (ops.same c.endpoint.ip e.ip) ]
      then (false, no_contact)
      else (true, c)

  unfoldable pub init : Contact ops → Bool × Contact ops
  unfolding is_valid no_contact same_port move_local_endpoint_to_first check_first
  init c = elim c.local_endpoints [
    | [] ↦ (false, no_contact)
    | first ∷ rest ↦
        if not (is_valid c.endpoint) || not (is_valid first)
        then (false, no_contact)
        else if (c.tcp443 || c.tcp80) && is_valid c.rendezvous_endpoint
        then (false, no_contact)
        else if not (same_port first.port rest)
        then (false, no_contact)
        else check_first (move_local_endpoint_to_first c.endpoint.ip c).1
  ]

  -- The constructor with arguments; the answer of `Init` is not looked at.
  unfoldable pub new_contact :
      Endpoint ops → List (Endpoint ops) → Endpoint ops → Bool → Bool → Contact ops
  unfolding init
  new_contact e es r tcp443 tcp80 =
      (init (record {
        endpoint = e;
        local_endpoints = es;
        rendezvous_endpoint = r;
        tcp443 = tcp443;
        tcp80 = tcp80;
        prefer_local = false;
      })).1
