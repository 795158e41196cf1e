-- ===== src/Dispatch/Routing.antt =====
-- Ids are unique, and a packet goes to the socket whose id it carries.
use maid_safe_transport.Base.{
  ℕ, zero, suc, ◌+◌, ◌≤◌, ◌<◌, ◌≡◌, ◌≢◌, ◌∙◌, refl, sym, ap, arith, Bool, false, ◌||◌, Option, none,
  some, List, [], ◌∷◌, ◌==◌, is_some, if◌then◌else◌, Bool-cases, subst, both_branches, Option-cases,
  inl, inr, eq→==, ne→==_false, ltb, length,
}
use mathlib.Core.Option
use mathlib.Core.Option.{some-injective}
use maid_safe_transport.Packet.Wire.{Buffer, decode_destination_socket_id}
use maid_safe_transport.Packet.Data
use maid_safe_transport.Packet.Data.{DataPacket, is_valid}
use maid_safe_transport.Packet.Data.RoundTrip.{decode-encode_data}
use maid_safe_transport.Dispatch.{
  Dispatcher, find, erase, is_refused, unique_id, add_socket, remove_socket, handle_receive_from,
}

module _ {P : Type 0} where
  find-erase :
      (id k : ℕ) (m : List (ℕ × P)) → find k (erase id m) ≡ (if k == id then none else find k m)
  find-erase id k [] = both_branches (λ x. none ≡ x) (k == id) none none refl refl
  find-erase id k (kp ∷ m) = ground (arith, find-erase id k m)

  -- The loop ends at an answer that can be taken, if one comes within the fuel.
  unique_id_lem :
      (random : ℕ → ℕ) (fuel n id j : ℕ) (m : List (ℕ × P))
      → is_refused (random (n + j)) m ≡ false
      → j + 1 < fuel
      → (k : ℕ) × (unique_id random fuel n id m ≡ some k) × (is_refused k m ≡ false)
  unfolding unique_id
  unique_id_lem random zero n id j m free h = absurd (omega arith)
  unique_id_lem random (suc zero) n id j m free h = absurd (omega arith)
  unique_id_lem random (suc (suc fuel)) n id zero m free h =
      let here : is_refused (random n) m ≡ false =
        subst (λ k. is_refused (random k) m ≡ false) {x = n + 0} (omega arith) free in
      elim (Bool-cases (is_refused id m)) [
        | inl e ↦ (random n, rw (e, here, unique_id) refl, here)
        | inr e ↦ (id, rw (e, unique_id) refl, e)
      ]
  unique_id_lem random (suc (suc fuel)) n id (suc j) m free h =
      elim (Bool-cases (is_refused id m)) [
        | inl e ↦
            let (k, a, b) =
              unique_id_lem random (suc fuel) (suc n) (random n) j m
                (subst (λ k. is_refused (random k) m ≡ false) {x = n + suc j} (omega arith) free)
                (omega arith) in
            (
              k,
              ap (λ b. if b then unique_id random (suc fuel) (suc n) (random n) m else some id) e
                  ∙ a,
              b,
            )
        | inr e ↦ (id, rw (e, unique_id) refl, e)
      ]

  unique_id-free :
      (random : ℕ → ℕ) (fuel n id k : ℕ) (m : List (ℕ × P))
      → unique_id random fuel n id m ≡ some k
      → is_refused k m ≡ false
  unfolding unique_id
  unique_id-free random zero n id k m h = absurd (cc)
  unique_id-free random (suc fuel) n id k m h = elim (Bool-cases (is_refused id m)) [
    | inl e ↦ unique_id-free random fuel (suc n) (random n) k m (rw (e, unique_id) at h)
    | inr e ↦ subst (λ i. is_refused i m ≡ false) (some-injective id k (rw (e, unique_id) at h)) e
  ]

  free_not_zero : (id : ℕ) (m : List (ℕ × P)) → is_refused id m ≡ false → id ≢ 0
  free_not_zero id m h z = ground arith

  none_found : (found : Option P) → is_some found ≡ false → found ≡ none
  none_found none h = refl
  none_found (some p) h = cc

  free_unused : (id : ℕ) (m : List (ℕ × P)) → is_refused id m ≡ false → find id m ≡ none
  free_unused id m h = none_found (find id m) (second (id == 0) (is_some (find id m)) h)
    where
      second : (a b : Bool) → a || b ≡ false → b ≡ false
      second a b h = ground arith

module _ {P Q : Type 0} where
  -- `AddSocket` ends when `RandomUint32` answers an id that is neither 0 nor taken, and it answers
  -- such an id. The dispatcher then has the socket under it, and the other sockets as before.
  pub add_socket_lem :
      (random : ℕ → ℕ) (fuel j : ℕ) (socket : P) (d : Dispatcher P Q)
      → is_refused (random j) d.sockets ≡ false
      → j + 1 < fuel
      → (id : ℕ) × (d' : Dispatcher P Q) × (add_socket random fuel socket d ≡ some (id, d'))
        × (id ≢ 0)
        × (find id d.sockets ≡ none)
        × ((k : ℕ) → find k d'.sockets ≡ (if k == id then some socket else find k d.sockets))
        × (d'.acceptor ≡ d.acceptor)
  unfolding add_socket
  add_socket_lem random fuel j socket d free h =
      let (id, a, b) =
        unique_id_lem random fuel 0 0 j d.sockets
          (subst (λ k. is_refused (random k) d.sockets ≡ false) {x = j} (omega arith) free) h in
      (
        id,
        record d { sockets = (id, socket) ∷ erase id d.sockets },
        rw (a, add_socket) refl,
        free_not_zero id d.sockets b,
        free_unused id d.sockets b,
        λ k. ground (arith, find-erase id k d.sockets),
        refl,
      )

-- What a data packet says of its destination is what the dispatcher reads.
destination-decode :
    (b : Buffer) (p : DataPacket)
    → Data.decode b ≡ some p
    → decode_destination_socket_id b ≡ some p.destination_socket_id
unfolding Data.decode decode_destination_socket_id is_valid
destination-decode b p h = elim (Bool-cases (is_valid b)) [
  | inl v ↦ elim (Bool-cases (ltb b.size 16)) [
    | inl e ↦ absurd (ground arith)
    | inr e ↦
        rw e
          (ap (Option.map (λ (q : DataPacket). q.destination_socket_id)) (rw (v, Data.decode) at h))
  ]
  | inr v ↦ let h' = rw (v, Data.decode) at h in absurd (cc)
]

module _ {P Q : Type 0} where
  added_found :
      (random : ℕ → ℕ) (fuel id : ℕ) (socket : P) (d d' : Dispatcher P Q)
      → add_socket random fuel socket d ≡ some (id, d')
      → (id ≢ 0) × (find id d'.sockets ≡ some socket)
  unfolding add_socket
  added_found random fuel id socket d d' h =
      elim (Option-cases (unique_id random fuel 0 0 d.sockets)) [
        | inl e ↦ let h' = rw (e, add_socket) at h in absurd (cc)
        | inr (k, e) ↦
            let pair : (k, record d { sockets = (k, socket) ∷ erase k d.sockets }) ≡ (id, d') =
              some-injective _ _ (rw (e, add_socket) at h) in
            let same : k ≡ id = ap (λ x. x.0) pair in
            (
              subst (λ i. i ≢ 0) same
                  (free_not_zero k d.sockets (unique_id-free random fuel 0 0 k d.sockets e)),
              ap (λ x. find id x.1.sockets) (sym pair)
                  ∙ ap (λ b. if b then some socket else find id (erase k d.sockets))
                      (eq→== k id same),
            )
      ]

  pub removed_not_found :
      (id : ℕ) (d : Dispatcher P Q) → id ≢ 0 → find id (remove_socket id d).sockets ≡ none
  unfolding remove_socket
  removed_not_found id d z = rw (ne→==_false id 0 z) (
      find-erase id id d.sockets
      ∙ ap (λ b. if b then none else find id d.sockets) (eq→== id id refl))

module _ {P Q S : Type 0} (on_acceptor : Q → S → S) (on_socket : P → S → S) where
  -- The packet goes to the socket of its destination.
  reaches :
      (b : Buffer) (id : ℕ) (d : Dispatcher P Q) (s : S)
      → decode_destination_socket_id b ≡ some id
      → id ≢ 0
      → handle_receive_from on_acceptor on_socket b d s
        ≡ elim (find id d.sockets) [ none ↦ s | some p ↦ on_socket p s ]
  unfolding handle_receive_from
  reaches b id d s e z = rw (e, handle_receive_from, ne→==_false id 0 z)

  -- A data packet for the id that `AddSocket` answered, encoded into a buffer with room, goes to the
  -- socket that was added, and after `RemoveSocket` of the id to none.
  pub add_socket-receives :
      (random : ℕ → ℕ) (fuel id : ℕ) (socket : P) (d d' : Dispatcher P Q) (p : DataPacket)
      (b : Buffer) (s : S)
      → add_socket random fuel socket d ≡ some (id, d')
      → Data.IsValid p
      → Data.header_size + length p.payload ≤ b.size
      → p.destination_socket_id ≡ id
      → let (n, out) = Data.encode p b in
        let arrived = record out { size = n } in
        (handle_receive_from on_acceptor on_socket arrived d' s ≡ on_socket socket s)
        × (handle_receive_from on_acceptor on_socket arrived (remove_socket id d') s ≡ s)
  add_socket-receives random fuel id socket d d' p b s added v room to =
      let (n, out) = Data.encode p b in
      let arrived = record out { size = n } in
      let (e, f) = decode-encode_data p b v room in
      let dest : decode_destination_socket_id arrived ≡ some id =
        destination-decode arrived p f ∙ ap some to in
      let (z, g) = added_found random fuel id socket d d' added in
      (
        reaches arrived id d' s dest z ∙ rw g,
        reaches arrived id (remove_socket id d') s dest z ∙ rw (removed_not_found id d' z),
      )
