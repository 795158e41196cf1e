-- ===== src/Socket/Decoding.antt =====
-- `HandleReceiveFrom` of src/maidsafe/transport/rudp_socket.cc tries the packet classes one after the
-- other; at most one of them takes a packet.
use maid_safe_transport.Base.{
  ℕ, suc, ◌≡◌, ◌∙◌, refl, sym, ap, arith, Bool, true, false, not, ◌&&◌, Option, none, some, is_some,
  ◌==◌, leb, ◌≢◌, ◌↔◌, if◌then◌else◌, Bool-cases, both_branches, inl, inr, bit_and,
}
use mathlib.Core.Option.{some-injective}
use maid_safe_transport.Packet.Wire.{Buffer}
use maid_safe_transport.Packet.Control.{
  ControlPacket, is_valid_base, decode_base, ack_of_ack_packet, ack_of_ack_decode, shutdown_packet,
  shutdown_decode, shutdown_is_valid, shutdown_type, ack_of_ack_type,
}
use maid_safe_transport.Packet.Data
use maid_safe_transport.Packet.Ack
use maid_safe_transport.Packet.NegativeAck
use maid_safe_transport.Packet.Handshake
use maid_safe_transport.Socket.{SocketOps}
use maid_safe_transport.Socket.Handlers.{
  Packet, decode, or_else, data_arrived, ack_arrived, ack_of_ack_arrived, negative_ack_arrived,
  handshake_arrived, shutdown_arrived, nothing_arrived,
}

pub data Class : Type 0 where
  data_class ack_class ack_of_ack_class negative_ack_class handshake_class shutdown_class : Class

-- The second byte of a control packet of the class, plus one, and 0 for data packets.
abbrev kind_of : Class → ℕ
kind_of data_class = 0
kind_of ack_class = 3
kind_of ack_of_ack_class = 7
kind_of negative_ack_class = 4
kind_of handshake_class = 1
kind_of shutdown_class = 6

abbrev class_at : ℕ → Option Class
class_at n =
    if n == 0
    then some data_class
    else if n == 3
    then some ack_class
    else if n == 7
    then some ack_of_ack_class
    else if n == 4
    then some negative_ack_class
    else if n == 1
    then some handshake_class
    else if n == 6
    then some shutdown_class
    else none

class_at-kind_of : (c : Class) → class_at (kind_of c) ≡ some c
class_at-kind_of data_class = refl
class_at-kind_of ack_class = refl
class_at-kind_of ack_of_ack_class = refl
class_at-kind_of negative_ack_class = refl
class_at-kind_of handshake_class = refl
class_at-kind_of shutdown_class = refl

abbrev kind : Buffer → ℕ
kind b = if bit_and (b.memory 0) 0x80 == 0 then 0 else suc (b.memory 1)

base_kind : (b : Buffer) (type : ℕ) → is_valid_base b type ≡ true → kind b ≡ suc (bit_and type 0xff)
unfolding is_valid_base
base_kind b type h = ground arith

decode_base-none :
    (self : ControlPacket) (b : Buffer) (type : ℕ)
    → is_valid_base b type ≡ false
    → decode_base self b type ≡ none
unfolding decode_base
decode_base-none self b type h = rw (h, decode_base)

not_accepted : {b : Bool} → b ≡ true → b ≡ false → ⊥
not_accepted h e = cc

ap_none :
    {A B : Type 0} {o : Option A} (f : A → B)
    → o ≡ none
    → elim o [ none ↦ none | some a ↦ some (f a) ] ≡ none
ap_none f e = ap (λ o. elim o [ none ↦ none | some a ↦ some (f a) ]) e

and_false : (a : Bool) → a && false ≡ false
and_false true = refl
and_false false = refl

guarded :
    {A : Type 0} (c : Bool) (o : Option A) → o ≡ none → is_some (if c then none else o) ≡ false
guarded c o e = both_branches (λ x. is_some x ≡ false) c none o refl (ap is_some e)

module _ (ops : SocketOps) where
  open ops use {address_ops}

  abbrev pub accepts : Class → Buffer → Bool
  accepts data_class b = is_some (Data.decode b)
  accepts ack_class b = is_some (Ack.decode Ack.ack_packet b)
  accepts ack_of_ack_class b = is_some (ack_of_ack_decode ack_of_ack_packet b)
  accepts negative_ack_class b = is_some (NegativeAck.decode NegativeAck.negative_ack_packet b)
  accepts handshake_class b =
      is_some (Handshake.decode address_ops (Handshake.handshake_packet address_ops) b)
  accepts shutdown_class b = is_some (shutdown_decode shutdown_packet b)

  accepts-kind : (c : Class) (b : Buffer) → accepts c b ≡ true → kind b ≡ kind_of c
  unfolding Data.decode Ack.decode ack_of_ack_decode NegativeAck.decode Handshake.decode
      shutdown_decode
  accepts-kind data_class b h = elim (Bool-cases (bit_and (b.memory 0) 0x80 == 0)) [
    | inl e ↦ ap (λ c. if c then 0 else suc (b.memory 1)) e
    | inr e ↦
        let invalid : Data.is_valid b ≡ false =
          ap (leb Data.header_size b.size &&◌) e ∙ and_false (leb Data.header_size b.size) in
        absurd (not_accepted h (rw invalid refl))
  ]
  accepts-kind ack_class b h = elim (Bool-cases (is_valid_base b Ack.packet_type)) [
    | inl e ↦ base_kind b Ack.packet_type e
    | inr e ↦ absurd (
        not_accepted h (
          guarded (not (Ack.is_valid b)) _
            (ap_none _ (decode_base-none (Ack.ack_packet).base b Ack.packet_type e))))
  ]
  accepts-kind ack_of_ack_class b h = elim (Bool-cases (is_valid_base b ack_of_ack_type)) [
    | inl e ↦ base_kind b ack_of_ack_type e
    | inr e ↦
        let none_base = decode_base-none ack_of_ack_packet b ack_of_ack_type e in
        absurd (not_accepted h (ap is_some none_base))
  ]
  accepts-kind negative_ack_class b h =
      elim (Bool-cases (is_valid_base b NegativeAck.packet_type)) [
        | inl e ↦ base_kind b NegativeAck.packet_type e
        | inr e ↦ absurd (
            not_accepted h (
              guarded (not (NegativeAck.is_valid b)) _ (
                ap_none _ (
                  decode_base-none (NegativeAck.negative_ack_packet).base b NegativeAck.packet_type
                    e))))
      ]
  accepts-kind handshake_class b h = elim (Bool-cases (is_valid_base b Handshake.packet_type)) [
    | inl e ↦ base_kind b Handshake.packet_type e
    | inr e ↦ absurd (
        not_accepted h (
          guarded (not (Handshake.is_valid b)) _ (
            ap_none _ (
              decode_base-none ((Handshake.handshake_packet address_ops)).base b
                Handshake.packet_type e))))
  ]
  accepts-kind shutdown_class b h = elim (Bool-cases (is_valid_base b shutdown_type)) [
    | inl e ↦ base_kind b shutdown_type e
    | inr e ↦ absurd (
        not_accepted h (
          guarded (not (shutdown_is_valid b)) _
            (decode_base-none shutdown_packet b shutdown_type e)))
  ]

  -- A buffer that two classes take is taken by one.
  accepts_unique : (c c' : Class) (b : Buffer) → accepts c b ≡ true → accepts c' b ≡ true → c ≡ c'
  accepts_unique c c' b h h' = some-injective c c' (
      sym (class_at-kind_of c)
      ∙ ap class_at (sym (accepts-kind c b h) ∙ accepts-kind c' b h')
      ∙ class_at-kind_of c')

  abbrev pub class_of : Packet ops → Option Class
  class_of (data_arrived p) = some data_class
  class_of (ack_arrived p) = some ack_class
  class_of (ack_of_ack_arrived p) = some ack_of_ack_class
  class_of (negative_ack_arrived p) = some negative_ack_class
  class_of (handshake_arrived p) = some handshake_class
  class_of (shutdown_arrived p) = some shutdown_class
  class_of nothing_arrived = none

  -- One link of the chain.
  link :
      {A : Type 0} (c c' : Class) (b : Buffer) (o : Option A) (f : A → Packet ops)
      (rest : Packet ops)
      → ((a : A) → class_of (f a) ≡ some c')
      → is_some o ≡ accepts c' b
      → accepts c b ≡ true
      → ((c ≢ c') → class_of rest ≡ some c)
      → class_of (or_else ops o f rest) ≡ some c
  link c c' b none f rest k e h more =
      more (λ z. not_accepted (sym (ap (λ x. accepts x b) z) ∙ h) (sym e))
  link c c' b (some a) f rest k e h more = k a ∙ ap some (accepts_unique c' c b (sym e) h)

  no_class :
      (c : Class)
      → c ≢ data_class
      → c ≢ ack_class
      → c ≢ ack_of_ack_class
      → c ≢ negative_ack_class
      → c ≢ handshake_class
      → c ≢ shutdown_class
      → ⊥
  no_class data_class n₁ n₂ n₃ n₄ n₅ n₆ = n₁ refl
  no_class ack_class n₁ n₂ n₃ n₄ n₅ n₆ = n₂ refl
  no_class ack_of_ack_class n₁ n₂ n₃ n₄ n₅ n₆ = n₃ refl
  no_class negative_ack_class n₁ n₂ n₃ n₄ n₅ n₆ = n₄ refl
  no_class handshake_class n₁ n₂ n₃ n₄ n₅ n₆ = n₅ refl
  no_class shutdown_class n₁ n₂ n₃ n₄ n₅ n₆ = n₆ refl

  first_class : (c : Class) (b : Buffer) → accepts c b ≡ true → class_of (decode ops b) ≡ some c
  unfolding decode
  first_class c b h =
      link c data_class b _ _ _ (λ a. refl) refl h
        (λ n₁.
          link c ack_class b _ _ _ (λ a. refl) refl h
            (λ n₂.
              link c ack_of_ack_class b _ _ _ (λ a. refl) refl h
                (λ n₃.
                  link c negative_ack_class b _ _ _ (λ a. refl) refl h
                    (λ n₄.
                      link c handshake_class b _ _ _ (λ a. refl) refl h
                        (λ n₅.
                          link c shutdown_class b _ _ _ (λ a. refl) refl h
                            (λ n₆. absurd (no_class c n₁ n₂ n₃ n₄ n₅ n₆)))))))

  -- The same link from the other side.
  back :
      {A : Type 0} (c c' : Class) (b : Buffer) (o : Option A) (f : A → Packet ops)
      (rest : Packet ops)
      → ((a : A) → class_of (f a) ≡ some c')
      → is_some o ≡ accepts c' b
      → (class_of rest ≡ some c → accepts c b ≡ true)
      → class_of (or_else ops o f rest) ≡ some c
      → accepts c b ≡ true
  back c c' b none f rest k e more h = more h
  back c c' b (some a) f rest k e more h =
      ap (λ x. accepts x b) (some-injective c c' (sym h ∙ k a)) ∙ sym e

  taken_class : (c : Class) (b : Buffer) → class_of (decode ops b) ≡ some c → accepts c b ≡ true
  unfolding decode
  taken_class c b =
      back c data_class b _ _ _ (λ a. refl) refl
        (back c ack_class b _ _ _ (λ a. refl) refl
          (back c ack_of_ack_class b _ _ _ (λ a. refl) refl
            (back c negative_ack_class b _ _ _ (λ a. refl) refl
              (back c handshake_class b _ _ _ (λ a. refl) refl
                (back c shutdown_class b _ _ _ (λ a. refl) refl (λ h. absurd (cc)))))))

  -- The chain of `HandleReceiveFrom` takes a buffer for a packet of a class exactly when the decoder
  -- of that class accepts it, so that the order of the chain does not matter.
  pub decode-class :
      (c : Class) (b : Buffer) → (accepts c b ≡ true) ↔ (class_of (decode ops b) ≡ some c)
  decode-class c b = (first_class c b, taken_class c b)
