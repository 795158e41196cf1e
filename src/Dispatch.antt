-- ===== src/Dispatch.antt =====
-- src/maidsafe/transport/rudp_dispatcher.{h,cc}: which socket a packet goes to. The map of the
-- dispatcher is an association list. What its sockets and its acceptor do with a packet is passed
-- in, as functions on a state of the caller's.
pub mod Routing
use maid_safe_transport.Base.{
  ℕ, zero, suc, Bool, true, false, ◌||◌, Option, none, some, List, [], ◌∷◌, ◌==◌, is_some,
  if◌then◌else◌,
}
use maid_safe_transport.Packet.Wire.{Buffer, decode_destination_socket_id}

module _ {P : Type 0} where
  abbrev pub find : ℕ → List (ℕ × P) → Option P
  find id [] = none
  find id (kp ∷ m) = if kp.0 == id then some kp.1 else find id m

  abbrev pub erase : ℕ → List (ℕ × P) → List (ℕ × P)
  erase id [] = []
  erase id (kp ∷ m) = let rest = erase id m in if kp.0 == id then rest else kp ∷ rest

  -- An id that `AddSocket` cannot take.
  abbrev pub is_refused : ℕ → List (ℕ × P) → Bool
  is_refused id m = id == 0 || is_some (find id m)

  -- The loop of `AddSocket`, where `random n` is the n-th answer of `RandomUint32()`; `none` when the
  -- fuel is used up.
  unfoldable pub unique_id : (ℕ → ℕ) → ℕ → ℕ → ℕ → List (ℕ × P) → Option ℕ
  unique_id random zero n id m = none
  unique_id random (suc fuel) n id m =
      let more = unique_id random fuel (suc n) (random n) m in
      if is_refused id m then more else some id

-- The acceptor and the sockets, by what points to them.
pub record Dispatcher (P Q : Type 0) : Type 0 where
  pub acceptor : Option Q
  pub sockets : List (ℕ × P)

unfoldable pub new_dispatcher : {P Q : Type 0} → Dispatcher P Q
new_dispatcher = record { acceptor = none; sockets = [] }

module _ {P Q : Type 0} where
  unfoldable pub set_acceptor : Option Q → Dispatcher P Q → Dispatcher P Q
  set_acceptor a d = record d { acceptor = a }

  -- The id, and the dispatcher with the socket.
  unfoldable pub add_socket : (ℕ → ℕ) → ℕ → P → Dispatcher P Q → Option (ℕ × Dispatcher P Q)
  add_socket random fuel socket d = elim (unique_id random fuel 0 0 d.sockets) [
    | none ↦ none
    | some id ↦ some (id, record d { sockets = (id, socket) ∷ erase id d.sockets })
  ]

  unfoldable pub remove_socket : ℕ → Dispatcher P Q → Dispatcher P Q
  remove_socket id d = if id == 0 then d else record d { sockets = erase id d.sockets }

  unfoldable pub handle_receive_from :
      {S : Type 0} → (Q → S → S) → (P → S → S) → Buffer → Dispatcher P Q → S → S
  unfolding decode_destination_socket_id
  handle_receive_from on_acceptor on_socket buffer d s =
      elim (decode_destination_socket_id buffer) [
        | none ↦ s
        | some id ↦
            if id == 0
            then elim d.acceptor [ none ↦ s | some q ↦ on_acceptor q s ]
            else elim (find id d.sockets) [ none ↦ s | some p ↦ on_socket p s ]
      ]
