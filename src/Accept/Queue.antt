-- ===== src/Accept/Queue.antt =====
-- The acceptor of src/maidsafe/transport/rudp_acceptor.cc is a queue of requests that meets a queue
-- of sockets.
use maid_safe_transport.Base.{
  ℕ, ◌≡◌, arith, length, length-append, Option-cases, ◌⊎◌, inl, inr, ◌∙◌, refl, sym, ap, Option,
  none, some, List, [], ◌∷◌, ◌++◌, append-nil, append_assoc,
}
use maid_safe_transport.Packet.Address.{AddressOps}
use maid_safe_transport.Packet.Wire.{Buffer}
use maid_safe_transport.Packet.Handshake.{handshake_packet, decode}
use maid_safe_transport.Accept.{
  Acceptor, PendingRequest, new_acceptor, async_accept, handle_request, handle_receive_from,
}

-- What happens at an acceptor: a socket is handed to `AsyncAccept`, or a packet arrives.
pub data Event (E P : Type 0) : Type 0 where
  offered : P → Event E P
  arrived : Buffer → E → Event E P

module _ {E : Type 0} (ops : AddressOps) where
  abbrev pub request : Buffer → E → Option (PendingRequest E)
  request buffer endpoint = elim (decode ops (handshake_packet ops) buffer) [
    | none ↦ none
    | some p ↦ some (record { remote_id = p.socket_id; remote_endpoint = endpoint })
  ]

module _ {E P : Type 0} where
  -- The first socket with the first request, and so on.
  abbrev pub pairs : List P → List (PendingRequest E) → List (P × PendingRequest E)
  pairs [] rs = []
  pairs (p ∷ ps) [] = []
  pairs (p ∷ ps) (r ∷ rs) = (p, r) ∷ pairs ps rs

  pairs_nil : (ps : List P) → pairs ps [] ≡ []
  pairs_nil [] = refl
  pairs_nil (p ∷ ps) = refl

  abbrev pub sockets_of : List (Event E P) → List P
  sockets_of [] = []
  sockets_of (offered socket ∷ es) = socket ∷ sockets_of es
  sockets_of (arrived buffer endpoint ∷ es) = sockets_of es

  abbrev waiting : Acceptor E P → List P
  waiting a = elim a.waiting_socket [ none ↦ [] | some p ↦ p ∷ [] ]

  module _ (ops : AddressOps) where
    abbrev pub requests_of : List (Event E P) → List (PendingRequest E)
    requests_of [] = []
    requests_of (offered socket ∷ es) = requests_of es
    requests_of (arrived buffer endpoint ∷ es) = elim (request ops buffer endpoint) [
      | none ↦ requests_of es
      | some r ↦ r ∷ requests_of es
    ]

    abbrev pub handle : Event E P → Acceptor E P → Acceptor E P
    handle (offered socket) a = async_accept socket a
    handle (arrived buffer endpoint) a = handle_receive_from ops buffer endpoint a

    abbrev pub handle_all : List (Event E P) → Acceptor E P → Acceptor E P
    handle_all [] a = a
    handle_all (e ∷ es) a = handle_all es (handle e a)

    -- What `StartAccept` asserts: no socket waits when one is offered.
    abbrev pub IsAlone : Event E P → Acceptor E P → Type 0
    IsAlone (offered socket) a = a.waiting_socket ≡ none
    IsAlone (arrived buffer endpoint) a = Unit

    abbrev pub OneAtATime : List (Event E P) → Acceptor E P → Type 0
    OneAtATime [] a = Unit
    OneAtATime (e ∷ es) a = IsAlone e a × OneAtATime es (handle e a)

    -- A socket waits only while no request does, and each wait is pending or was answered once.
    record Inv (a : Acceptor E P) : Type 0 where
      one_side : (a.waiting_socket ≡ none) ⊎ (a.pending_requests ≡ [])
      pending_waits : a.waits ≡ length (waiting a)
      answered : a.due ≡ length a.peers_set

    -- What the rest of the events will add.
    abbrev to_come : List (Event E P) → Acceptor E P → List (P × PendingRequest E)
    to_come es a =
        a.peers_set ++ pairs (waiting a ++ sockets_of es) (a.pending_requests ++ requests_of es)

    abbrev acceptor :
        Option P → List (PendingRequest E) → ℕ → ℕ → List (P × PendingRequest E) → Acceptor E P
    acceptor w rs n d log = record {
      waiting_socket = w;
      pending_requests = rs;
      waits = n;
      due = d;
      peers_set = log;
    }

    async_accept-Inv :
        (socket : P) (w : Option P) (rs : List (PendingRequest E)) (n d : ℕ)
        (log : List (P × PendingRequest E))
        → w ≡ none
        → Inv (acceptor w rs n d log)
        → Inv (async_accept socket (acceptor w rs n d log))
    unfolding async_accept
    async_accept-Inv socket none [] n d log alone h = record {
      one_side = inr refl;
      pending_waits = omega (arith, h.pending_waits);
      answered = h.answered;
    }
    async_accept-Inv socket none (r ∷ rs) n d log alone h = record {
      one_side = inl refl;
      pending_waits = refl;
      answered = omega (arith, h.answered, h.pending_waits, length-append log ((socket, r) ∷ []));
    }
    async_accept-Inv socket (some p) rs n d log alone h = absurd (cc)

    handle_request-Inv :
        (r : PendingRequest E) (w : Option P) (rs : List (PendingRequest E)) (n d : ℕ)
        (log : List (P × PendingRequest E))
        → Inv (acceptor w rs n d log)
        → Inv (handle_request r (acceptor w rs n d log))
    unfolding handle_request
    handle_request-Inv r none rs n d log h = record {
      one_side = inl refl;
      pending_waits = h.pending_waits;
      answered = h.answered;
    }
    handle_request-Inv r (some p) rs n d log h = record {
      one_side = inl refl;
      pending_waits = refl;
      answered = omega (arith, h.answered, h.pending_waits, length-append log ((p, r) ∷ []));
    }

    async_accept-to_come :
        (socket : P) (es : List (Event E P)) (w : Option P) (rs : List (PendingRequest E)) (n d : ℕ)
        (log : List (P × PendingRequest E))
        → w ≡ none
        → to_come es (async_accept socket (acceptor w rs n d log))
          ≡ to_come (offered socket ∷ es) (acceptor w rs n d log)
    unfolding async_accept
    async_accept-to_come socket es none [] n d log alone = refl
    async_accept-to_come socket es none (r ∷ rs) n d log alone =
        append_assoc log ((socket, r) ∷ []) _
    async_accept-to_come socket es (some p) rs n d log alone = absurd (cc)

    handle_request-to_come :
        (r : PendingRequest E) (ps : List P) (qs : List (PendingRequest E)) (w : Option P)
        (rs : List (PendingRequest E)) (n d : ℕ) (log : List (P × PendingRequest E))
        → (w ≡ none) ⊎ (rs ≡ [])
        → let a = handle_request r (acceptor w rs n d log) in
          a.peers_set ++ pairs (waiting a ++ ps) (a.pending_requests ++ qs)
          ≡ log ++ pairs (waiting (acceptor w rs n d log) ++ ps) (rs ++ r ∷ qs)
    unfolding handle_request
    handle_request-to_come r ps qs none rs n d log h =
        ap (λ xs. log ++ pairs ps xs) (append_assoc rs (r ∷ []) qs)
    handle_request-to_come r ps qs (some p) [] n d log h = append_assoc log ((p, r) ∷ []) _
    handle_request-to_come r ps qs (some p) (x ∷ rs) n d log (inl h) = absurd (cc)
    handle_request-to_come r ps qs (some p) (x ∷ rs) n d log (inr h) = absurd (cc)

    handle-Inv : (e : Event E P) (a : Acceptor E P) → IsAlone e a → Inv a → Inv (handle e a)
    unfolding handle_receive_from
    handle-Inv (offered socket) a alone h =
        async_accept-Inv socket a.waiting_socket a.pending_requests a.waits a.due a.peers_set alone
          h
    handle-Inv (arrived buffer endpoint) a alone h =
        elim (Option-cases (decode ops (handshake_packet ops) buffer)) [
          | inl e ↦ rw (e, handle_receive_from) h
          | inr (p, e) ↦
              rw (e, handle_receive_from)
                (handle_request-Inv _ a.waiting_socket a.pending_requests a.waits a.due a.peers_set
                  h)
        ]

    handle-to_come :
        (e : Event E P) (es : List (Event E P)) (a : Acceptor E P)
        → IsAlone e a
        → Inv a
        → to_come es (handle e a) ≡ to_come (e ∷ es) a
    unfolding handle_receive_from
    handle-to_come (offered socket) es a alone h =
        async_accept-to_come socket es a.waiting_socket a.pending_requests a.waits a.due a.peers_set
          alone
    handle-to_come (arrived buffer endpoint) es a alone h =
        elim (Option-cases (decode ops (handshake_packet ops) buffer)) [
          | inl e ↦ rw (e, handle_receive_from, requests_of)
          | inr (p, e) ↦
              rw (e, handle_receive_from, requests_of)
                (handle_request-to_come _ (sockets_of es) (requests_of es) a.waiting_socket
                  a.pending_requests a.waits a.due a.peers_set h.one_side)
        ]

    nothing_left :
        (w : Option P) (rs : List (PendingRequest E))
        → (w ≡ none) ⊎ (rs ≡ [])
        → pairs (waiting (acceptor w rs 0 0 []) ++ []) (rs ++ []) ≡ []
    nothing_left none rs h = refl
    nothing_left (some p) [] h = refl
    nothing_left (some p) (r ∷ rs) (inl h) = absurd (cc)
    nothing_left (some p) (r ∷ rs) (inr h) = absurd (cc)

    handle_all-Inv :
        (es : List (Event E P)) (a : Acceptor E P) → OneAtATime es a → Inv a → Inv (handle_all es a)
    handle_all-Inv [] a alone h = h
    handle_all-Inv (e ∷ es) a (x, alone) h =
        handle_all-Inv es (handle e a) alone (handle-Inv e a x h)

    handle_all-to_come :
        (es : List (Event E P)) (a : Acceptor E P)
        → OneAtATime es a
        → Inv a
        → to_come [] (handle_all es a) ≡ to_come es a
    handle_all-to_come [] a alone h = refl
    handle_all-to_come (e ∷ es) a (x, alone) h =
        handle_all-to_come es (handle e a) alone (handle-Inv e a x h) ∙ handle-to_come e es a x h

    -- An acceptor pairs the sockets that it is handed, one at a time, with the requests that arrive,
    -- both in order, and each pair answers one wait; no other wait is answered.
    pub handle_all_lem :
        (es : List (Event E P))
        → OneAtATime es new_acceptor
        → let a = handle_all es new_acceptor in
          (a.peers_set ≡ pairs (sockets_of es) (requests_of es)) × (a.due ≡ length a.peers_set)
    unfolding new_acceptor
    handle_all_lem es alone =
        let start : Inv new_acceptor = record {
          one_side = inl refl;
          pending_waits = refl;
          answered = refl;
        } in
        let a = handle_all es new_acceptor in
        let h = handle_all-Inv es new_acceptor alone start in
        let e = handle_all-to_come es new_acceptor alone start in
        (
          sym (append-nil a.peers_set)
              ∙ ap (a.peers_set ++◌)
                  (sym (nothing_left a.waiting_socket a.pending_requests h.one_side))
              ∙ e,
          h.answered,
        )
