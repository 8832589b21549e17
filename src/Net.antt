-- ===== src/Net.antt =====
-- `std::net`: addresses, and the predicates on them that the program calls.
use aegis_honeypot.Prelude.{ℕ, ◌≡◌, ◌↔◌, Bool, true, false, ◌&&◌, arith, ◌==◌, Eq}

-- The four octets of an IPv4 address.
pub record Ipv4Addr : Type 0 where
  pub o0 : ℕ
  pub o1 : ℕ
  pub o2 : ℕ
  pub o3 : ℕ

-- The eight 16-bit segments of an IPv6 address; octets 2i and 2i + 1 are segment i.
pub record Ipv6Addr : Type 0 where
  pub s0 : ℕ
  pub s1 : ℕ
  pub s2 : ℕ
  pub s3 : ℕ
  pub s4 : ℕ
  pub s5 : ℕ
  pub s6 : ℕ
  pub s7 : ℕ

pub data IpAddr : Type 0 where
  v4 : Ipv4Addr → IpAddr
  v6 : Ipv6Addr → IpAddr

v4_beq : Ipv4Addr → Ipv4Addr → Bool
v4_beq a b = a.o0 == b.o0 && a.o1 == b.o1 && a.o2 == b.o2 && a.o3 == b.o3

v6_beq : Ipv6Addr → Ipv6Addr → Bool
v6_beq a b =
    a.s0 == b.s0
    && a.s1 == b.s1
    && a.s2 == b.s2
    && a.s3 == b.s3
    && a.s4 == b.s4
    && a.s5 == b.s5
    && a.s6 == b.s6
    && a.s7 == b.s7

v4_beq_iff : (a b : Ipv4Addr) → (v4_beq a b ≡ true) ↔ (a ≡ b)
unfolding v4_beq
v4_beq_iff a b = ground arith

v6_beq_iff : (a b : Ipv6Addr) → (v6_beq a b ≡ true) ↔ (a ≡ b)
unfolding v6_beq
v6_beq_iff a b = ground arith

unfoldable pub ip_beq : IpAddr → IpAddr → Bool
unfolding v4_beq v6_beq
ip_beq (v4 a) (v4 b) = v4_beq a b
ip_beq (v4 a) (v6 b) = false
ip_beq (v6 a) (v4 b) = false
ip_beq (v6 a) (v6 b) = v6_beq a b

pub ip_beq_iff : (a b : IpAddr) → (ip_beq a b ≡ true) ↔ (a ≡ b)
unfolding ip_beq
ip_beq_iff (v4 a) (v4 b) = ground (arith, v4_beq_iff a b)
ip_beq_iff (v4 a) (v6 b) = ground arith
ip_beq_iff (v6 a) (v4 b) = ground arith
ip_beq_iff (v6 a) (v6 b) = ground (arith, v6_beq_iff a b)

instance abbrev pub ip_eq : Eq IpAddr
ip_eq = record { beq = ip_beq; beq_iff = ip_beq_iff }
