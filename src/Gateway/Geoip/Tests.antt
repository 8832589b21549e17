-- ===== src/Gateway/Geoip/Tests.antt =====
-- A small database of cities, the lookups of the crate's own tests, and the theorem over it.
use aegis_honeypot.Prelude.{ℕ, ◌≡◌, ◌↔◌, refl, ◌∷◌, Option, none, some}
use aegis_honeypot.Prelude.Text.{Text, codes}
use aegis_honeypot.Net.{IpAddr, v4}
use aegis_honeypot.Gateway.Egress.{is_private_or_local}
use aegis_honeypot.Gateway.Geoip.{Maxmind, City, local_info, decode, lookup, load_one, load}
use aegis_honeypot.Gateway.Geoip.Databases.{IsTagged, Lacks, lookup-load}

-- Every record is that of Linköping; a path of fewer than three characters cannot be opened.
abbrev linkoping : City ℕ
linkoping = record {
  country_english = some (codes "Sweden");
  iso_code = some (codes "SE");
  city_english = some (codes "Linkoping");
  latitude = some 58;
  longitude = some 15;
}

abbrev opened : Text → Option (Option ℕ)
opened (a ∷ b ∷ c ∷ path) = some (some 0)
opened path = some none

abbrev db : Maxmind ℕ ℕ ℕ
db = record {
  open_readfile = opened;
  entry = λ reader ip. some 1;
  decode_city = λ e. some (some linkoping);
  decode_asn = λ e. some none;
}

abbrev loopback : IpAddr
loopback = v4 (record { o0 = 127; o1 = 0; o2 = 0; o3 = 1 })

abbrev public_ip : IpAddr
public_ip = v4 (record { o0 = 89; o1 = 160; o2 = 20; o3 = 128 })

loopback_is_local : lookup db (load db (some (codes "city")) none) loopback ≡ some local_info
unfolding lookup is_private_or_local
loopback_is_local = refl

found_in_sweden :
    lookup db (load db (some (codes "city")) (some (codes "asn"))) public_ip
    ≡ some (record {
      country = some (codes "Sweden");
      city = some (codes "Linkoping");
      asn = none;
      lat = some 58;
      lon = some 15;
    })
unfolding lookup is_private_or_local load load_one decode
found_in_sweden = refl

missing_file : lookup db (load db (some (codes "x")) none) public_ip ≡ none
unfolding lookup is_private_or_local load load_one decode
missing_file = refl

lookup-load_example : (lookup db (load db (some (codes "x")) none) public_ip ≡ none) ↔ (
    (IsTagged public_ip → ⊥)
    × Lacks db db.decode_city (some (codes "x")) public_ip
    × Lacks db db.decode_asn none public_ip)
lookup-load_example = lookup-load db (some (codes "x")) none public_ip
