-- ===== src/Rendezvous/Net.antt =====
-- Internet addresses as std::net has them.
use rustdesk_server_nemo.Base.{ℕ, ◌/◌, ◌^◌, ◌≡◌, ◌↔◌, Bool, true, false, ◌&&◌, ◌==◌, arith}

-- `IpAddr`: the bits of an address as a number.
pub data Ip : Type 0 where
  v4 v6 : ℕ → Ip

-- `SocketAddr`.
pub record Addr : Type 0 where
  pub ip : Ip
  pub port : ℕ

unfoldable pub ip_eq : Ip → Ip → Bool
ip_eq (v4 a) (v4 b) = a == b
ip_eq (v4 a) (v6 b) = false
ip_eq (v6 a) (v4 b) = false
ip_eq (v6 a) (v6 b) = a == b

unfoldable pub addr_eq : Addr → Addr → Bool
unfolding ip_eq
addr_eq a b = ip_eq a.ip b.ip && a.port == b.port

-- `is_loopback`.
unfoldable pub is_loopback : Ip → Bool
is_loopback (v4 a) = a / 2 ^ 24 == 127
is_loopback (v6 a) = a == 1

ip_eq_sound : (a b : Ip) → ip_eq a b ≡ true → a ≡ b
unfolding ip_eq
ip_eq_sound (v4 a) (v4 b) h = ground arith
ip_eq_sound (v4 a) (v6 b) h = absurd (cc)
ip_eq_sound (v6 a) (v4 b) h = absurd (cc)
ip_eq_sound (v6 a) (v6 b) h = ground arith

ip_eq_refl : (a : Ip) → ip_eq a a ≡ true
unfolding ip_eq
ip_eq_refl (v4 a) = ground arith
ip_eq_refl (v6 a) = ground arith

addr_eq_sound : (a b : Addr) → addr_eq a b ≡ true → a ≡ b
unfolding addr_eq
addr_eq_sound a b h = ground (arith, ip_eq_sound a.ip b.ip)

addr_eq_refl : (a : Addr) → addr_eq a a ≡ true
unfolding addr_eq
addr_eq_refl a = ground (arith, ip_eq_refl a.ip)

pub addr_eq_iff : (a b : Addr) → (addr_eq a b ≡ true) ↔ (a ≡ b)
addr_eq_iff a b = (addr_eq_sound a b, λ e. rw e (addr_eq_refl b))

pub ip_eq_iff : (a b : Ip) → (ip_eq a b ≡ true) ↔ (a ≡ b)
ip_eq_iff a b = (ip_eq_sound a b, λ e. rw e (ip_eq_refl b))
