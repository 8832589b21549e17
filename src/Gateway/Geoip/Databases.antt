-- ===== src/Gateway/Geoip/Databases.antt =====
-- What a lookup answers, in terms of the files that the configuration names.
use aegis_honeypot.Prelude.{
  Bool-cases, inl, inr, true, ◌≤◌, ◌⊎◌, arith, ◌≡◌, ◌≢◌, ◌↔◌, refl, false, Option, none, some,
  if_ind,
}
use aegis_honeypot.Prelude.Text.{Text}
use aegis_honeypot.Net.{IpAddr, v4, v6}
use aegis_honeypot.Gateway.Egress.{is_private_or_local}
use aegis_honeypot.Gateway.Geoip.{
  Maxmind, GeoIpLookup, City, Asn, flatten, empty_info, tag_city, tag_asn, then_some, decode,
  decode_in, lookup, load_one, load,
}

is_none : {T : Type 0} (o : Option T) → ((x : T) → o ≢ some x) → o ≡ none
is_none none h = refl
is_none (some x) h = elim (h x refl) [ ]

module _ {F R E : Type 0} (db : Maxmind F R E) where
  -- No database that can be opened at the path has a record of the address.
  pub Lacks : {T : Type 0} → (E → Option (Option T)) → Option Text → IpAddr → Type 0
  Lacks {T} kind path ip =
      (p : Text) (reader : R) (x : T)
      → path ≡ some p
      → db.open_readfile p ≡ some (some reader)
      → decode db kind reader ip ≢ some x

  opened-Lacks :
      {T : Type 0} (kind : E → Option (Option T)) (p : Text) (ip : IpAddr) (o : Option (Option R))
      → db.open_readfile p ≡ o
      → (decode_in db kind (flatten o) ip ≡ none) ↔ Lacks kind (some p) ip
  unfolding Lacks
  opened-Lacks kind p ip none e = (λ h p' reader x ep eo ed. cc, λ h. refl)
  opened-Lacks kind p ip (some none) e = (λ h p' reader x ep eo ed. cc, λ h. refl)
  opened-Lacks kind p ip (some (some reader)) e = (
    λ h p' reader' x ep eo ed. cc,
    λ h. is_none (decode db kind reader ip) (λ x ed. h p reader x refl e ed),
  )

  load_one-Lacks :
      {T : Type 0} (kind : E → Option (Option T)) (path : Option Text) (ip : IpAddr)
      → (decode_in db kind (load_one db path) ip ≡ none) ↔ Lacks kind path ip
  unfolding load_one Lacks
  load_one-Lacks kind none ip = (λ h p reader x ep. cc, λ h. refl)
  load_one-Lacks kind (some p) ip = opened-Lacks kind p ip (db.open_readfile p) refl

-- The addresses that are tagged without a database.
abbrev pub IsTagged : IpAddr → Type 0
IsTagged (v4 a) =
    (a.o0 ≡ 10)
    ⊎ (a.o0 ≡ 127)
    ⊎ ((a.o0 ≡ 169) × (a.o1 ≡ 254))
    ⊎ ((a.o0 ≡ 172) × (16 ≤ a.o1) × (a.o1 ≤ 31))
    ⊎ ((a.o0 ≡ 192) × (a.o1 ≡ 168))
    ⊎ ((a.o0 ≡ 0) × (a.o1 ≡ 0) × (a.o2 ≡ 0) × (a.o3 ≡ 0))
IsTagged (v6 a) =
    (a.s0 ≡ 0)
    × (a.s1 ≡ 0)
    × (a.s2 ≡ 0)
    × (a.s3 ≡ 0)
    × (a.s4 ≡ 0)
    × (a.s5 ≡ 0)
    × (a.s6 ≡ 0)
    × (a.s7 ≤ 1)

is_private_or_local-IsTagged : (ip : IpAddr) → is_private_or_local ip ≡ true → IsTagged ip
unfolding is_private_or_local
is_private_or_local-IsTagged (v4 a) h = ground (arith, h)
is_private_or_local-IsTagged (v6 a) h = ground (arith, h)

is_private_or_local_iff : (ip : IpAddr) → (is_private_or_local ip ≡ false) ↔ (IsTagged ip → ⊥)
unfolding is_private_or_local
is_private_or_local_iff (v4 a) = (
  λ h t. ground (arith, h, t),
  λ h. elim (Bool-cases (is_private_or_local (v4 a))) [
    | inl on ↦ elim (h (is_private_or_local-IsTagged (v4 a) on)) [ ]
    | inr off ↦ off
  ],
)
is_private_or_local_iff (v6 a) = (
  λ h t. ground (arith, h, t),
  λ h. elim (Bool-cases (is_private_or_local (v6 a))) [
    | inl on ↦ elim (h (is_private_or_local-IsTagged (v6 a) on)) [ ]
    | inr off ↦ off
  ],
)

tagged_none_iff :
    {F : Type 0} (c : Option (City F)) (a : Option Asn)
    → (then_some (tag_asn a (tag_city c (empty_info, false))) ≡ none) ↔ ((c ≡ none) × (a ≡ none))
tagged_none_iff none none = (λ h. (refl, refl), λ h. refl)
tagged_none_iff none (some a) = (λ h. cc, λ h. cc)
tagged_none_iff (some c) none = (λ h. cc, λ h. cc)
tagged_none_iff (some c) (some a) = (λ h. cc, λ h. cc)

module _ {F R E : Type 0} (db : Maxmind F R E) where
  abbrev found_city : GeoIpLookup R → IpAddr → Option (City F)
  found_city g ip = decode_in db db.decode_city g.city ip

  abbrev found_asn : GeoIpLookup R → IpAddr → Option Asn
  found_asn g ip = decode_in db db.decode_asn g.asn ip

  lookup_none_iff :
      (g : GeoIpLookup R) (ip : IpAddr)
      → (lookup db g ip ≡ none)
        ↔ ((is_private_or_local ip ≡ false) × (found_city g ip ≡ none) × (found_asn g ip ≡ none))
  unfolding lookup
  lookup_none_iff g ip =
      if_ind
        (λ b.
          (b ≡ none)
          ↔ ((is_private_or_local ip ≡ false) × (found_city g ip ≡ none) × (found_asn g ip ≡ none)))
        (is_private_or_local ip) (λ on. (λ h. cc, λ h. cc))
        (λ off. (
          λ h. (
            off,
            ((tagged_none_iff (found_city g ip) (found_asn g ip)).0 h).0,
            ((tagged_none_iff (found_city g ip) (found_asn g ip)).0 h).1,
          ),
          λ (_, no_city, no_asn).
              (tagged_none_iff (found_city g ip) (found_asn g ip)).1 (no_city, no_asn),
        ))

  named_Lacks :
      (city_path asn_path : Option Text) (ip : IpAddr)
      → (is_private_or_local ip ≡ false)
        × (found_city (load db city_path asn_path) ip ≡ none)
        × (found_asn (load db city_path asn_path) ip ≡ none)
      → (is_private_or_local ip ≡ false)
        × Lacks db db.decode_city city_path ip
        × Lacks db db.decode_asn asn_path ip
  unfolding load
  named_Lacks city_path asn_path ip (off, no_city, no_asn) = (
    off,
    (load_one-Lacks db db.decode_city city_path ip).0 no_city,
    (load_one-Lacks db db.decode_asn asn_path ip).0 no_asn,
  )

  -- There is no answer exactly for an address that is not tagged as local and of which no database
  -- that the configuration names, and that can be opened, has a record. Tagged are the networks
  -- 10.0.0.0/8, 127.0.0.0/8, 169.254.0.0/16, 172.16.0.0/12 and 192.168.0.0/16 with 0.0.0.0, and of
  -- IPv6 `::` and `::1` alone. A file that is missing, that is malformed or whose task panics counts
  -- as one that is not configured.
  pub lookup-load :
      (city_path asn_path : Option Text) (ip : IpAddr)
      → (lookup db (load db city_path asn_path) ip ≡ none) ↔ (
          (IsTagged ip → ⊥)
          × Lacks db db.decode_city city_path ip
          × Lacks db db.decode_asn asn_path ip)
  unfolding load
  lookup-load city_path asn_path ip = (
    λ h. (
      (is_private_or_local_iff ip).0 ((lookup_none_iff (load db city_path asn_path) ip).0 h).0,
      (named_Lacks city_path asn_path ip ((lookup_none_iff (load db city_path asn_path) ip).0 h)).1,
      (named_Lacks city_path asn_path ip ((lookup_none_iff (load db city_path asn_path) ip).0 h)).2,
    ),
    λ (off, no_city, no_asn). (lookup_none_iff (load db city_path asn_path) ip).1 (
      (is_private_or_local_iff ip).1 off,
      (load_one-Lacks db db.decode_city city_path ip).1 no_city,
      (load_one-Lacks db db.decode_asn asn_path ip).1 no_asn,
    ),
  )
