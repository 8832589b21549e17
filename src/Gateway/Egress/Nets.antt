-- ===== src/Gateway/Egress/Nets.antt =====
-- The blocked addresses against a list of networks, and against each other's rules.
use aegis_honeypot.Prelude.{
  ℕ, ◌+◌, ◌-◌, ◌*◌, ◌/◌, ◌^◌, ◌<◌, ◌≡◌, refl, sym, Bool, true, false, ◌||◌, ◌&&◌, List, [], ◌∷◌,
  some, arith, ltb, leb, ◌==◌, any,
}
use aegis_honeypot.Net.{Ipv4Addr, Ipv6Addr, IpAddr, v4, v6}
use aegis_honeypot.Gateway.Egress.{
  is_unspecified_v4, is_broadcast, is_blocked_v4, is_blocked_v6, is_blocked_ip, to_ipv4_mapped,
  is_private_or_local,
}

-- The four octets are bytes.
abbrev pub IsV4 : Ipv4Addr → Type 0
IsV4 a = (a.o0 < 256) × (a.o1 < 256) × (a.o2 < 256) × (a.o3 < 256)

abbrev pub bits : Ipv4Addr → ℕ
bits a = a.o0 * 2 ^ 24 + a.o1 * 2 ^ 16 + a.o2 * 2 ^ 8 + a.o3

-- A network in CIDR notation: its address and the length of its prefix.
pub record Network : Type 0 where
  pub address : Ipv4Addr
  pub prefix : ℕ

abbrev net : ℕ → ℕ → ℕ → ℕ → ℕ → Network
net a b c d n = record { address = record { o0 = a; o1 = b; o2 = c; o3 = d }; prefix = n }

abbrev pub is_in : Ipv4Addr → Network → Bool
is_in a n = bits a / 2 ^ (32 - n.prefix) == bits n.address / 2 ^ (32 - n.prefix)

-- The tests in another order.
reorder :
    (l p1 p2 p3 ll u b m z c t1 bm t2 t3 r : Bool)
    → (u ≡ true → z ≡ true)
    → (b ≡ true → r ≡ true)
    → (z
        || (p1
            || (c
                || (l
                    || (ll
                        || (p2 || (t1 || (p3 || (bm || (t2 || (t3 || (m || (r || false)))))))))))))
      ≡ (l || (p1 || p2 || p3) || ll || u || b || m || z || c || t1 || bm || t2 || t3 || r)
reorder l p1 p2 p3 ll u b m z c t1 bm t2 t3 r hu hb = ground arith

-- The networks of the special-purpose registry that a host on the Internet is not reached at.
abbrev pub special_nets : List Network
special_nets =
    net 0 0 0 0 8
    ∷ net 10 0 0 0 8
    ∷ net 100 64 0 0 10
    ∷ net 127 0 0 0 8
    ∷ net 169 254 0 0 16
    ∷ net 172 16 0 0 12
    ∷ net 192 0 2 0 24
    ∷ net 192 168 0 0 16
    ∷ net 198 18 0 0 15
    ∷ net 198 51 100 0 24
    ∷ net 203 0 113 0 24
    ∷ net 224 0 0 0 4
    ∷ net 240 0 0 0 4
    ∷ []

module _ (a : Ipv4Addr) (h : IsV4 a) where
  prefix_4 : bits a / 2 ^ 28 ≡ a.o0 / 16
  prefix_4 = omega arith

  prefix_8 : bits a / 2 ^ 24 ≡ a.o0
  prefix_8 = omega arith

  prefix_10 : bits a / 2 ^ 22 ≡ a.o0 * 4 + a.o1 / 64
  prefix_10 = omega arith

  prefix_12 : bits a / 2 ^ 20 ≡ a.o0 * 16 + a.o1 / 16
  prefix_12 = omega arith

  prefix_15 : bits a / 2 ^ 17 ≡ a.o0 * 128 + a.o1 / 2
  prefix_15 = omega arith

  prefix_16 : bits a / 2 ^ 16 ≡ a.o0 * 256 + a.o1
  prefix_16 = omega arith

  prefix_24 : bits a / 2 ^ 8 ≡ a.o0 * 65_536 + a.o1 * 256 + a.o2
  prefix_24 = omega arith

  in_10 : is_in a (net 10 0 0 0 8) ≡ (a.o0 == 10)
  in_10 = rw prefix_8 refl

  in_100 : is_in a (net 100 64 0 0 10) ≡ (a.o0 == 100 && (leb 64 a.o1 && ltb a.o1 128))
  in_100 = rw prefix_10 (ground arith)

  in_169 : is_in a (net 169 254 0 0 16) ≡ (a.o0 == 169 && a.o1 == 254)
  in_169 = rw prefix_16 (ground arith)

  in_172 : is_in a (net 172 16 0 0 12) ≡ (a.o0 == 172 && leb 16 a.o1 && leb a.o1 31)
  in_172 = rw prefix_12 (ground arith)

  in_192 : is_in a (net 192 0 2 0 24) ≡ (a.o0 == 192 && a.o1 == 0 && a.o2 == 2)
  in_192 = rw prefix_24 (ground arith)

  in_198 : is_in a (net 198 18 0 0 15) ≡ (a.o0 == 198 && (leb 18 a.o1 && ltb a.o1 20))
  in_198 = rw prefix_15 (ground arith)

  in_224 : is_in a (net 224 0 0 0 4) ≡ (leb 224 a.o0 && leb a.o0 239)
  in_224 = rw prefix_4 (ground arith)

  in_240 : is_in a (net 240 0 0 0 4) ≡ leb 240 a.o0
  in_240 = rw prefix_4 (ground arith)

  in_0 : is_in a (net 0 0 0 0 8) ≡ (a.o0 == 0)
  in_0 = rw prefix_8 refl

  in_127 : is_in a (net 127 0 0 0 8) ≡ (a.o0 == 127)
  in_127 = rw prefix_8 refl

  in_192_168 : is_in a (net 192 168 0 0 16) ≡ (a.o0 == 192 && a.o1 == 168)
  in_192_168 = rw prefix_16 (ground arith)

  in_198_51 : is_in a (net 198 51 100 0 24) ≡ (a.o0 == 198 && a.o1 == 51 && a.o2 == 100)
  in_198_51 = rw prefix_24 (ground arith)

  in_203 : is_in a (net 203 0 113 0 24) ≡ (a.o0 == 203 && a.o1 == 0 && a.o2 == 113)
  in_203 = rw prefix_24 (ground arith)

  special-is_blocked_v4 : any (is_in a) special_nets ≡ is_blocked_v4 a
  unfolding is_blocked_v4
  special-is_blocked_v4 =
      rw
        (
          in_0, in_10, in_100, in_127, in_169, in_172, in_192, in_192_168, in_198, in_198_51,
          in_203, in_224, in_240,
        )
        (reorder (a.o0 == 127) (a.o0 == 10) (a.o0 == 172 && leb 16 a.o1 && leb a.o1 31)
          (a.o0 == 192 && a.o1 == 168) (a.o0 == 169 && a.o1 == 254) (is_unspecified_v4 a)
          (is_broadcast a) (leb 224 a.o0 && leb a.o0 239) (a.o0 == 0)
          (a.o0 == 100 && (leb 64 a.o1 && ltb a.o1 128)) (a.o0 == 192 && a.o1 == 0 && a.o2 == 2)
          (a.o0 == 198 && (leb 18 a.o1 && ltb a.o1 20)) (a.o0 == 198 && a.o1 == 51 && a.o2 == 100)
          (a.o0 == 203 && a.o1 == 0 && a.o2 == 113) (leb 240 a.o0) (ground arith) (ground arith))

  -- An IPv4 address is blocked exactly when it lies in one of the networks of the list, the
  -- address and the networks read as 32-bit numbers with a prefix of so many bits.
  pub is_blocked_ip-special_nets : is_blocked_ip (v4 a) ≡ any (is_in a) special_nets
  unfolding is_blocked_ip
  is_blocked_ip-special_nets = sym special-is_blocked_v4

-- `::ffff:a.b.c.d`.
abbrev pub mapped_form : Ipv4Addr → Ipv6Addr
mapped_form a = record {
  s0 = 0;
  s1 = 0;
  s2 = 0;
  s3 = 0;
  s4 = 0;
  s5 = 0xffff;
  s6 = a.o0 * 256 + a.o1;
  s7 = a.o2 * 256 + a.o3;
}

to_ipv4_mapped-mapped_form : (a : Ipv4Addr) → IsV4 a → to_ipv4_mapped (mapped_form a) ≡ some a
unfolding to_ipv4_mapped
to_ipv4_mapped-mapped_form a h = ground arith

-- Spelling an IPv4 address as an IPv6 one does not change whether it is blocked.
is_blocked_ip-mapped_form :
    (a : Ipv4Addr) → IsV4 a → is_blocked_ip (v6 (mapped_form a)) ≡ is_blocked_ip (v4 a)
unfolding is_blocked_ip
is_blocked_ip-mapped_form a h = rw (to_ipv4_mapped-mapped_form a h) refl

-- The address geoip.rs calls local is one that the fetcher never dials.
is_private_or_local-is_blocked_ip :
    (ip : IpAddr) → is_private_or_local ip ≡ true → is_blocked_ip ip ≡ true
unfolding is_private_or_local is_blocked_ip is_blocked_v4 is_blocked_v6 to_ipv4_mapped
is_private_or_local-is_blocked_ip (v4 a) h = ground arith
is_private_or_local-is_blocked_ip (v6 a) h = ground arith
