-- ===== src/Gateway/Geoip.antt =====
-- crates/aegis-gateway/src/geoip.rs: the tag of a source address. The crate maxminddb is a
-- parameter, log lines are left out.
use aegis_honeypot.Prelude.{ℕ, ◌≡◌, Bool, true, false, ◌++◌, Option, none, some, if◌then◌else◌}
use aegis_honeypot.Prelude.Text.{Text, codes, decimal}
use aegis_honeypot.Net.{IpAddr}
use aegis_honeypot.Common.{GeoIpInfo}
use aegis_honeypot.Gateway.Egress.{is_private_or_local}
mod Databases
mod Tests

-- What the code reads of a City record and of an ASN record.
pub record City (F : Type 0) : Type 0 where
  pub country_english : Option Text
  pub iso_code : Option Text
  pub city_english : Option Text
  pub latitude : Option F
  pub longitude : Option F

pub record Asn : Type 0 where
  pub organization : Option Text
  pub number : Option ℕ

-- maxminddb with readers `R` and entries `E`. `open_readfile` is `none` when the task that runs it
-- panics and `some none` when it answers an error; `entry` is `none` for an error, and a decoder
-- for an error, with `some none` for a record that is absent.
pub record Maxmind (F R E : Type 0) : Type 0 where
  pub open_readfile : Text → Option (Option R)
  pub entry : R → IpAddr → Option E
  pub decode_city : E → Option (Option (City F))
  pub decode_asn : E → Option (Option Asn)

-- `GeoIpLookup`.
pub record GeoIpLookup (R : Type 0) : Type 0 where
  pub city : Option R
  pub asn : Option R

-- The state of `lookup` is `info` and `found`.
abbrev pub Tagging : Type 0 → Type 0
Tagging F = GeoIpInfo F × Bool

abbrev pub flatten : {T : Type 0} → Option (Option T) → Option T
flatten none = none
flatten (some o) = o

abbrev pub or_else : {T : Type 0} → Option T → Option T → Option T
or_else (some x) o = some x
or_else none o = o

abbrev pub empty_info : {F : Type 0} → GeoIpInfo F
empty_info = record { country = none; city = none; asn = none; lat = none; lon = none }

abbrev pub local_info : {F : Type 0} → GeoIpInfo F
local_info = record {
  country = some (codes "Local");
  city = none;
  asn = none;
  lat = none;
  lon = none;
}

abbrev as_name : Option ℕ → Option Text
as_name none = none
as_name (some n) = some (codes "AS" ++ decimal n)

abbrev pub tag_city : {F : Type 0} → Option (City F) → Tagging F → Tagging F
tag_city none t = t
tag_city (some c) (info, found) = (
  record info {
    country = or_else c.country_english c.iso_code;
    city = c.city_english;
    lat = c.latitude;
    lon = c.longitude;
  },
  true,
)

abbrev pub tag_asn : {F : Type 0} → Option Asn → Tagging F → Tagging F
tag_asn none t = t
tag_asn (some a) (info, found) =
    (record info { asn = or_else a.organization (as_name a.number) }, true)

-- `found.then_some(info)`.
abbrev pub then_some : {F : Type 0} → Tagging F → Option (GeoIpInfo F)
then_some (info, true) = some info
then_some (info, false) = none

module _ {F R E : Type 0} (db : Maxmind F R E) where
  abbrev decode_entry : {T : Type 0} → (E → Option (Option T)) → Option E → Option T
  decode_entry kind none = none
  decode_entry kind (some e) = flatten (kind e)

  unfoldable pub decode : {T : Type 0} → (E → Option (Option T)) → R → IpAddr → Option T
  decode kind reader ip = decode_entry kind (db.entry reader ip)

  -- `if let Some(reader) = … { if let Some(record) = decode(reader, ip)`.
  abbrev pub decode_in : {T : Type 0} → (E → Option (Option T)) → Option R → IpAddr → Option T
  decode_in kind none ip = none
  decode_in kind (some reader) ip = decode kind reader ip

  unfoldable pub lookup : GeoIpLookup R → IpAddr → Option (GeoIpInfo F)
  lookup g ip =
      if is_private_or_local ip
      then some local_info
      else then_some (
          tag_asn (decode_in db.decode_asn g.asn ip)
            (tag_city (decode_in db.decode_city g.city ip) (empty_info, false)))

  unfoldable pub load_one : Option Text → Option R
  load_one none = none
  load_one (some path) = flatten (db.open_readfile path)

  unfoldable pub load : Option Text → Option Text → GeoIpLookup R
  load city_path asn_path = record { city = load_one city_path; asn = load_one asn_path }
