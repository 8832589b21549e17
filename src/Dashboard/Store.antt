-- ===== src/Dashboard/Store.antt =====
-- crates/aegis-dashboard/src/store.rs: the in-memory aggregation of the event stream.
-- A `HashSet` is a list without duplicates, the `BTreeMap` of hours a list in order of the hour. A
-- `u64` sum is taken modulo 2 ^ 64. The clock that `bump_hour` reads is an argument, and the two
-- floating-point steps of `bump_geo_point` are the operations of `Grid`.
pub mod Counters
pub mod Archive
pub mod Bounds
pub mod Totals
mod Tests
use aegis_honeypot.Prelude.{
  ℕ, ◌+◌, ◌-◌, ◌*◌, ◌/◌, ◌%◌, ◌^◌, Bool, true, false, not, ◌||◌, List, [], ◌∷◌, ◌++◌, Option, none,
  some, ltb, leb, ◌==◌, if◌then◌else◌, Eq, list_beq, list_eq, length, contains, filter, is_some,
}
use aegis_honeypot.Prelude.HashMap.{HashMap, get, insert, remove, contains_key, update}
use aegis_honeypot.Prelude.Text.{Text, codes, split_whitespace, first_or}
use aegis_honeypot.Net.{IpAddr, ip_eq}
use aegis_honeypot.Common.{
  SessionId, GeoIpInfo, SessionStartEvent, SessionEndEvent, CredentialHarvestEvent, CommandRunEvent,
  PayloadCapturedEvent, TelemetryEvent, session_start, session_end, credential_harvest, command_run,
  syscall_execve, syscall_connect, syscall_memfd_create, payload_captured,
}

abbrev pub recent_cap : ℕ
recent_cap = 500

abbrev pub hourly_window_hours : ℕ
hourly_window_hours = 48

abbrev pub session_archive_cap : ℕ
session_archive_cap = 5000

abbrev pub ioc_cap : ℕ
ioc_cap = 500

abbrev pub command_cap : ℕ
command_cap = 3000

abbrev pub counter_cap : ℕ
counter_cap = 10_000

abbrev pub u64_mod : ℕ
u64_mod = 2 ^ 64

-- `n += 1` on a `u64`.
abbrev pub bump : ℕ → ℕ
bump n = (n + 1) % u64_mod

-- `HashSet::insert`.
abbrev pub set_insert {ℓ} : {A : Type ℓ} ⦃e : Eq A⦄ → A → List A → List A
set_insert a xs = if contains xs a then xs else a ∷ xs

-- The guard and the insertion of `insert_capped`.
unfoldable pub insert_capped {ℓ} : {A : Type ℓ} ⦃e : Eq A⦄ → List A → A → ℕ → List A
insert_capped xs a cap = if contains xs a || ltb (length xs) cap then set_insert a xs else xs

abbrev pub bump_found {ℓ} : {K : Type ℓ} ⦃e : Eq K⦄ → Option ℕ → HashMap K ℕ → K → ℕ → HashMap K ℕ
bump_found (some n) m k cap = insert k (bump n) m
bump_found none m k cap = if ltb (length m) cap then insert k 1 m else m

unfoldable pub bump_capped {ℓ} : {K : Type ℓ} ⦃e : Eq K⦄ → HashMap K ℕ → K → ℕ → HashMap K ℕ
bump_capped m k cap = bump_found (get k m) m k cap

-- `for v in … { insert_capped(…) }`.
unfoldable pub insert_all : List Text → List Text → ℕ → List Text
unfolding insert_capped
insert_all xs [] cap = xs
insert_all xs (v ∷ vs) cap = insert_all (insert_capped xs v cap) vs cap

pub record SessionRecord (F : Type 0) : Type 0 where
  pub session_id : Text
  pub ip : IpAddr
  pub port : ℕ
  pub geo : Option (GeoIpInfo F)
  pub start_time : ℕ
  pub end_time : Option ℕ
  pub duration_secs : Option F
  pub username : Option Text
  pub password : Option Text
  pub command_count : ℕ
  pub payload_count : ℕ

-- `threat_score`.
unfoldable pub threat_score : {F : Type 0} → SessionRecord F → ℕ
threat_score r =
    (r.command_count + (if is_some r.username then 5 else 0) + r.payload_count * 25) % u64_mod

pub record GeoPoint (F : Type 0) : Type 0 where
  pub lat : F
  pub lon : F
  pub country : Option Text
  pub city : Option Text
  pub count : ℕ

-- `(x * 2.0).round() as i32`, as the bit pattern of the `i32`, and `key as f64 / 2.0`.
pub record Grid (F : Type 0) : Type 0 where
  pub cell : F → ℕ
  pub corner : ℕ → F

pub record Store (F : Type 0) : Type 0 where
  pub total_sessions : ℕ
  pub total_commands : ℕ
  pub total_credentials : ℕ
  pub total_payloads : ℕ
  pub unique_ips : List IpAddr
  pub ip_counts : HashMap IpAddr ℕ
  pub country_counts : HashMap Text ℕ
  pub username_counts : HashMap Text ℕ
  pub password_counts : HashMap Text ℕ
  pub command_counts : HashMap Text ℕ
  pub hourly_activity : List (ℕ × ℕ)
  pub recent : List (TelemetryEvent F)
  pub sessions : HashMap Text (SessionRecord F)
  pub session_order : List Text
  pub geo_points : HashMap (List ℕ) (GeoPoint F)
  pub known_ip_iocs : List Text
  pub known_url_iocs : List Text
  pub known_wallet_iocs : List Text
  pub known_full_commands : List Text

unfoldable pub empty : {F : Type 0} → Store F
empty = record {
  total_sessions = 0;
  total_commands = 0;
  total_credentials = 0;
  total_payloads = 0;
  unique_ips = [];
  ip_counts = [];
  country_counts = [];
  username_counts = [];
  password_counts = [];
  command_counts = [];
  hourly_activity = [];
  recent = [];
  sessions = [];
  session_order = [];
  geo_points = [];
  known_ip_iocs = [];
  known_url_iocs = [];
  known_wallet_iocs = [];
  known_full_commands = [];
}

unfoldable pub event_timestamp : {F : Type 0} → TelemetryEvent F → ℕ
event_timestamp (session_start e) = e.timestamp
event_timestamp (session_end e) = e.timestamp
event_timestamp (credential_harvest e) = e.timestamp
event_timestamp (command_run e) = e.timestamp
event_timestamp (syscall_execve e) = e.timestamp
event_timestamp (syscall_connect e) = e.timestamp
event_timestamp (syscall_memfd_create e) = e.timestamp
event_timestamp (payload_captured e) = e.timestamp

unfoldable pub event_ip : {F : Type 0} → TelemetryEvent F → IpAddr
event_ip (session_start e) = e.ip
event_ip (session_end e) = e.ip
event_ip (credential_harvest e) = e.ip
event_ip (command_run e) = e.ip
event_ip (syscall_execve e) = e.ip
event_ip (syscall_connect e) = e.ip
event_ip (syscall_memfd_create e) = e.ip
event_ip (payload_captured e) = e.ip

-- `*entry(hour).or_insert(0) += 1`, in order of the hour.
unfoldable pub count_hour : ℕ → List (ℕ × ℕ) → List (ℕ × ℕ)
count_hour hour [] = (hour, 1) ∷ []
count_hour hour ((h, n) ∷ m) =
    if ltb hour h
    then (hour, 1) ∷ (h, n) ∷ m
    else if hour == h
    then (h, bump n) ∷ m
    else (h, n) ∷ count_hour hour m

unfoldable pub bump_hour : {F : Type 0} → Store F → ℕ → ℕ → Store F
unfolding count_hour
bump_hour s ts now = record s {
  hourly_activity =
      filter (λ e. leb (now / 3600 - hourly_window_hours) e.0)
        (count_hour (ts / 3600) s.hourly_activity);
}

-- The first update of `ingest`: the set of sources and the count of each.
unfoldable pub bump_ip : {F : Type 0} → Store F → IpAddr → Store F
bump_ip s ip = record s {
  unique_ips =
      if contains s.unique_ips ip || ltb (length s.unique_ips) counter_cap
      then set_insert ip s.unique_ips
      else s.unique_ips;
  ip_counts = bump_capped s.ip_counts ip counter_cap;
}

abbrev bumped_point : {F : Type 0} → Option (GeoPoint F) → GeoPoint F → GeoPoint F
bumped_point none p = record p { count = bump 0 }
bumped_point (some q) p = record q { count = bump q.count }

abbrev add_point :
    {F : Type 0}
    → Grid F
    → HashMap (List ℕ) (GeoPoint F)
    → GeoIpInfo F
    → Option F
    → Option F
    → HashMap (List ℕ) (GeoPoint F)
add_point g m geo (some lat) (some lon) =
    let key = g.cell lat ∷ g.cell lon ∷ [] in
    insert key
      (bumped_point (get key m) (record {
        lat = g.corner (g.cell lat);
        lon = g.corner (g.cell lon);
        country = geo.country;
        city = geo.city;
        count = 0;
      }))
      m
add_point g m geo none lon = m
add_point g m geo (some lat) none = m

abbrev add_geo :
    {F : Type 0}
    → Grid F
    → HashMap (List ℕ) (GeoPoint F)
    → Option (GeoIpInfo F)
    → HashMap (List ℕ) (GeoPoint F)
add_geo g m none = m
add_geo g m (some geo) = add_point g m geo geo.lat geo.lon

unfoldable pub bump_geo_point : {F : Type 0} → Grid F → Store F → Option (GeoIpInfo F) → Store F
bump_geo_point g s geo = record s { geo_points = add_geo g s.geo_points geo }

-- The eviction loop of `archive_session_start`: the order and the archive without the oldest
-- sessions.
unfoldable pub evict :
    {F : Type 0}
    → List Text
    → HashMap Text (SessionRecord F)
    → List Text × HashMap Text (SessionRecord F)
evict [] sessions = ([], sessions)
evict (oldest ∷ order) sessions =
    let rest = evict order (remove oldest sessions) in
    if ltb session_archive_cap (length (oldest ∷ order)) then rest else (oldest ∷ order, sessions)

abbrev pub fresh_record : {F : Type 0} → SessionStartEvent F → SessionRecord F
fresh_record e = record {
  session_id = e.session_id;
  ip = e.ip;
  port = e.port;
  geo = e.geo;
  start_time = e.timestamp;
  end_time = none;
  duration_secs = none;
  username = none;
  password = none;
  command_count = 0;
  payload_count = 0;
}

unfoldable pub archive_session_start : {F : Type 0} → Store F → SessionStartEvent F → Store F
archive_session_start s e =
    let kept =
      if contains_key e.session_id s.sessions
      then (s.session_order, s.sessions)
      else evict (s.session_order ++ e.session_id ∷ []) s.sessions in
    record s { session_order = kept.0; sessions = insert e.session_id (fresh_record e) kept.1 }

-- `if let Some(rec) = self.sessions.get_mut(id)`.
abbrev pub with_session :
    {F : Type 0} → Store F → SessionId → (SessionRecord F → SessionRecord F) → Store F
with_session s id f = record s { sessions = update id f s.sessions }

-- The country of a start event, unless it is the synthetic "Local".
abbrev pub count_country : HashMap Text ℕ → Option Text → HashMap Text ℕ
count_country m none = m
count_country m (some country) =
    if list_beq country (codes "Local") then m else bump_capped m country counter_cap

abbrev pub country_of : {F : Type 0} → Option (GeoIpInfo F) → Option Text
country_of none = none
country_of (some g) = g.country

abbrev pub count_password : HashMap Text ℕ → Option Text → HashMap Text ℕ
count_password m none = m
count_password m (some pw) = bump_capped m pw counter_cap

-- The `match` of `ingest`.
unfoldable pub ingest_kind : {F : Type 0} → Grid F → Store F → TelemetryEvent F → Store F
ingest_kind g s (session_start e) =
    archive_session_start
      (bump_geo_point g
        (record s {
          total_sessions = bump s.total_sessions;
          country_counts = count_country s.country_counts (country_of e.geo);
        })
        e.geo)
      e
ingest_kind g s (session_end e) =
    with_session s e.session_id
      λ r. record r { end_time = some e.timestamp; duration_secs = some e.duration_secs }
ingest_kind g s (command_run e) =
    with_session
      (record s {
        total_commands = bump s.total_commands;
        command_counts =
            bump_capped s.command_counts (first_or (split_whitespace e.command) e.command)
              counter_cap;
        known_full_commands = insert_capped s.known_full_commands e.command command_cap;
      })
      e.session_id λ r. record r { command_count = bump r.command_count }
ingest_kind g s (credential_harvest e) =
    with_session
      (record s {
        total_credentials = bump s.total_credentials;
        username_counts = bump_capped s.username_counts e.username counter_cap;
        password_counts = count_password s.password_counts e.password;
      })
      e.session_id λ r. record r { username = some e.username; password = e.password }
ingest_kind g s (payload_captured e) =
    with_session
      (record s {
        total_payloads = bump s.total_payloads;
        known_ip_iocs = insert_all s.known_ip_iocs e.iocs.ip_addresses ioc_cap;
        known_url_iocs = insert_all s.known_url_iocs e.iocs.urls ioc_cap;
        known_wallet_iocs = insert_all s.known_wallet_iocs e.iocs.monero_wallets ioc_cap;
      })
      e.session_id λ r. record r { payload_count = bump r.payload_count }
ingest_kind g s (syscall_execve e) = s
ingest_kind g s (syscall_connect e) = s
ingest_kind g s (syscall_memfd_create e) = s

-- `while self.recent.len() > RECENT_CAP { self.recent.pop_front(); }`.
unfoldable pub drop_oldest {ℓ} : {A : Type ℓ} → ℕ → List A → List A
drop_oldest cap [] = []
drop_oldest cap (x ∷ xs) =
    let rest = drop_oldest cap xs in if ltb cap (length (x ∷ xs)) then rest else x ∷ xs

unfoldable pub push_recent : {F : Type 0} → Store F → TelemetryEvent F → Store F
unfolding drop_oldest
push_recent s e = record s { recent = drop_oldest recent_cap (s.recent ++ e ∷ []) }

-- `now` is the clock when `bump_hour` reads it.
unfoldable pub ingest : {F : Type 0} → Grid F → Store F → ℕ → TelemetryEvent F → Store F
ingest g s now e =
    push_recent (ingest_kind g (bump_ip (bump_hour s (event_timestamp e) now) (event_ip e)) e) e

-- The tailer feeds one event after the other.
unfoldable pub ingest_all : {F : Type 0} → Grid F → Store F → List (ℕ × TelemetryEvent F) → Store F
ingest_all g s [] = s
ingest_all g s ((now, e) ∷ es) = ingest_all g (ingest g s now e) es
