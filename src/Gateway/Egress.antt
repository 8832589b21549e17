-- ===== src/Gateway/Egress.antt =====
-- crates/aegis-gateway/src/handler.rs and geoip.rs: which addresses the payload fetcher may reach.
-- The predicates on addresses are those of `std::net`; the parser of URLs and the resolver of names
-- are parameters.
pub mod Nets
pub mod Vetting
mod Tests
use aegis_honeypot.Prelude.{
  ℕ, ◌+◌, ◌*◌, ◌/◌, ◌%◌, Bool, true, false, not, ◌&&◌, ◌||◌, List, [], ◌∷◌, Option, none, some, ltb,
  leb, ◌==◌, if◌then◌else◌, find, list_beq,
}
use aegis_honeypot.Prelude.Text.{Text, codes}
use aegis_honeypot.Net.{Ipv4Addr, Ipv6Addr, IpAddr, v4, v6}

abbrev pub is_loopback_v4 : Ipv4Addr → Bool
is_loopback_v4 a = a.o0 == 127

abbrev pub is_private : Ipv4Addr → Bool
is_private a = a.o0 == 10 || a.o0 == 172 && leb 16 a.o1 && leb a.o1 31 || a.o0 == 192 && a.o1 == 168

abbrev pub is_link_local : Ipv4Addr → Bool
is_link_local a = a.o0 == 169 && a.o1 == 254

abbrev pub is_unspecified_v4 : Ipv4Addr → Bool
is_unspecified_v4 a = a.o0 == 0 && a.o1 == 0 && a.o2 == 0 && a.o3 == 0

abbrev pub is_broadcast : Ipv4Addr → Bool
is_broadcast a = a.o0 == 255 && a.o1 == 255 && a.o2 == 255 && a.o3 == 255

abbrev pub is_multicast_v4 : Ipv4Addr → Bool
is_multicast_v4 a = leb 224 a.o0 && leb a.o0 239

-- The tests of the first match arm of `is_blocked_ip`, in their order.
unfoldable pub is_blocked_v4 : Ipv4Addr → Bool
is_blocked_v4 a =
    is_loopback_v4 a
    || is_private a
    || is_link_local a
    || is_unspecified_v4 a
    || is_broadcast a
    || is_multicast_v4 a
    || a.o0 == 0
    || a.o0 == 100 && (leb 64 a.o1 && ltb a.o1 128)
    || a.o0 == 192 && a.o1 == 0 && a.o2 == 2
    || a.o0 == 198 && (leb 18 a.o1 && ltb a.o1 20)
    || a.o0 == 198 && a.o1 == 51 && a.o2 == 100
    || a.o0 == 203 && a.o1 == 0 && a.o2 == 113
    || leb 240 a.o0

abbrev pub high_segments : Ipv6Addr → Bool
high_segments a = a.s0 == 0 && a.s1 == 0 && a.s2 == 0 && a.s3 == 0 && a.s4 == 0

-- `to_ipv4_mapped`: the address `::ffff:a.b.c.d`.
unfoldable pub to_ipv4_mapped : Ipv6Addr → Option Ipv4Addr
to_ipv4_mapped a =
    if high_segments a && a.s5 == 0xffff
    then some (record { o0 = a.s6 / 256; o1 = a.s6 % 256; o2 = a.s7 / 256; o3 = a.s7 % 256 })
    else none

abbrev pub is_loopback_v6 : Ipv6Addr → Bool
is_loopback_v6 a = high_segments a && a.s5 == 0 && a.s6 == 0 && a.s7 == 1

abbrev pub is_unspecified_v6 : Ipv6Addr → Bool
is_unspecified_v6 a = high_segments a && a.s5 == 0 && a.s6 == 0 && a.s7 == 0

abbrev pub is_multicast_v6 : Ipv6Addr → Bool
is_multicast_v6 a = a.s0 / 256 == 0xff

-- The tests of the second arm behind the mapped form. `seg0 & 0xfe00` clears the low 9 bits of a
-- segment, `seg0 & 0xffc0` the low 6.
unfoldable pub is_blocked_v6 : Ipv6Addr → Bool
is_blocked_v6 a =
    is_loopback_v6 a
    || is_unspecified_v6 a
    || is_multicast_v6 a
    || a.s0 / 512 * 512 == 0xfc00
    || a.s0 / 64 * 64 == 0xfe80

abbrev pub blocked_mapped : Option Ipv4Addr → Ipv6Addr → Bool
blocked_mapped (some mapped) a = is_blocked_v4 mapped
blocked_mapped none a = is_blocked_v6 a

unfoldable pub is_blocked_ip : IpAddr → Bool
is_blocked_ip (v4 a) = is_blocked_v4 a
is_blocked_ip (v6 a) = blocked_mapped (to_ipv4_mapped a) a

-- geoip.rs.
unfoldable pub is_private_or_local : IpAddr → Bool
is_private_or_local (v4 a) =
    is_loopback_v4 a || is_unspecified_v4 a || is_private a || is_link_local a
is_private_or_local (v6 a) = is_loopback_v6 a || is_unspecified_v6 a

pub record SocketAddr : Type 0 where
  pub ip : IpAddr
  pub port : ℕ

-- What the code asks of a parsed `reqwest::Url`.
pub record Url : Type 0 where
  pub scheme : Text
  pub host_str : Option Text
  pub port_or_known_default : Option ℕ
  pub path_segments : Option (List Text)

-- Why a target is refused.
pub data Refusal : Type 0 where
  scheme_not_allowed : Text → Refusal
  no_host : Refusal
  no_port : Refusal
  not_resolved : Text → Refusal
  no_addresses : Text → Refusal
  blocked : Text → IpAddr → Refusal

pub data Vetted : Type 0 where
  refused : Refusal → Vetted
  target : SocketAddr → Vetted

abbrev pub vet_bad : Text → SocketAddr → Option SocketAddr → Vetted
vet_bad host first (some bad) = refused (blocked host bad.ip)
vet_bad host first none = target first

abbrev pub vet_addrs : Text → Option (List SocketAddr) → Vetted
vet_addrs host none = refused (not_resolved host)
vet_addrs host (some []) = refused (no_addresses host)
vet_addrs host (some (first ∷ rest)) =
    vet_bad host first (find (λ a. is_blocked_ip a.ip) (first ∷ rest))

abbrev pub vet_port : (Text → ℕ → Option (List SocketAddr)) → Text → Option ℕ → Vetted
vet_port resolve host none = refused no_port
vet_port resolve host (some port) = vet_addrs host (resolve host port)

abbrev pub vet_host : (Text → ℕ → Option (List SocketAddr)) → Option Text → Option ℕ → Vetted
vet_host resolve none port = refused no_host
vet_host resolve (some host) port = vet_port resolve host port

abbrev pub is_http : Text → Bool
is_http scheme = list_beq scheme (codes "http") || list_beq scheme (codes "https")

-- `resolve` is `(host, port).to_socket_addrs()`, `none` where it fails.
unfoldable pub vet_target : (Text → ℕ → Option (List SocketAddr)) → Url → Vetted
vet_target resolve url =
    if is_http url.scheme
    then vet_host resolve url.host_str url.port_or_known_default
    else refused (scheme_not_allowed url.scheme)
