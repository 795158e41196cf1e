-- ===== src/Packet/Address.antt =====
-- The IP addresses of Boost.Asio, which the handshake packet carries and does not implement: the
-- operations that it calls, with what their documentation says of the byte form of an IPv6 address.
use maid_safe_transport.Base.{ℕ, ◌≡◌, List, length, Bool}

pub record AddressOps : Type 1 where
  -- `asio::ip::address` and `asio::ip::address_v6`
  pub Address : Type 0
  pub AddressV6 : Type 0
  pub is_v4 : Address → Bool
  -- `address_v6::v4_compatible(address.to_v4())`
  pub v4_compatible : Address → AddressV6
  pub to_v6 : Address → AddressV6
  -- `address_v6::is_v4_compatible`, `address(address_v6::to_v4())` and `address(address_v6)`
  pub is_v4_compatible : AddressV6 → Bool
  pub to_v4 : AddressV6 → Address
  pub of_v6 : AddressV6 → Address
  -- the default address
  pub unspecified : AddressV6
  pub to_bytes : AddressV6 → List ℕ
  pub from_bytes : List ℕ → AddressV6
  pub scope_id : AddressV6 → ℕ
  -- `bytes_type` is an array of 16 bytes. It holds the address without its scope id, which
  -- `address_v6(bytes)` sets to 0.
  pub length-to_bytes : (a : AddressV6) → length (to_bytes a) ≡ 16
  pub from_bytes-to_bytes : (a : AddressV6) → scope_id a ≡ 0 → from_bytes (to_bytes a) ≡ a
