-- ===== src/Dashboard/Queries.antt =====
-- crates/aegis-dashboard/src/store.rs: what the dashboard answers of the store. The
-- texts that the standard library and chrono make of addresses and times, and the lower case of a
-- text, are the operations of `Render`.
pub mod Handlers
pub mod Ranking
pub mod Pages
mod Tests
use aegis_honeypot.Prelude.{
  ℕ, ◌+◌, ◌*◌, ◌%◌, min, Bool, true, false, ◌&&◌, ◌||◌, List, [], ◌∷◌, map, reverse, Option, none,
  some, ltb, leb, ◌==◌, if◌then◌else◌, length, take, drop, filter, list_beq, list_eq, Eq,
}
use aegis_honeypot.Prelude.HashMap.{HashMap, get, insert}
use aegis_honeypot.Prelude.Sorting.{text_le, sort_by}
use aegis_honeypot.Prelude.Text.{Text, codes, has_text}
use aegis_honeypot.Net.{IpAddr, ip_eq}
use aegis_honeypot.Common.{
  GeoIpInfo, TelemetryEvent, session_start, session_end, credential_harvest, command_run,
  syscall_execve, syscall_connect, syscall_memfd_create, payload_captured, session_id,
}
use aegis_honeypot.Dashboard.Store.{u64_mod, SessionRecord, threat_score, GeoPoint, Store, event_ip}

abbrev pub top_n_cap : ℕ
top_n_cap = 10

pub record Render : Type 0 where
  pub ip_text : IpAddr → Text
  pub to_lowercase : Text → Text
  pub rfc3339 : ℕ → Text

pub record Ranked : Type 0 where
  pub value : Text
  pub count : ℕ

-- `b.count.cmp(&a.count).then_with(|| a.value.cmp(&b.value))`: whether `a` may stand before `b`.
abbrev pub rank_le : Ranked → Ranked → Bool
rank_le a b = ltb b.count a.count || a.count == b.count && text_le a.value b.value

abbrev pub ranked_of {ℓ} : {K : Type ℓ} → (K → Text) → HashMap K ℕ → List Ranked
ranked_of show [] = []
ranked_of show ((k, n) ∷ m) = record { value = show k; count = n } ∷ ranked_of show m

-- Both `top_n` and `top_n_ip`, which differ in the text of a key.
unfoldable pub top_ranked {ℓ} : {K : Type ℓ} → (K → Text) → HashMap K ℕ → List Ranked
unfolding sort_by
top_ranked show counts = take top_n_cap (sort_by rank_le (ranked_of show counts))

abbrev pub top_n : HashMap Text ℕ → List Ranked
top_n counts = top_ranked (λ s. s) counts

abbrev pub top_n_ip : Render → HashMap IpAddr ℕ → List Ranked
top_n_ip render counts = top_ranked render.ip_text counts

abbrev pub sorted_vec : List Text → List Text
sorted_vec set = sort_by text_le set

abbrev pub event_kind : {F : Type 0} → TelemetryEvent F → Text
event_kind (session_start e) = codes "SESSION_START"
event_kind (session_end e) = codes "SESSION_END"
event_kind (credential_harvest e) = codes "CREDENTIAL_HARVEST"
event_kind (command_run e) = codes "COMMAND_RUN"
event_kind (syscall_execve e) = codes "SYSCALL_EXECVE"
event_kind (syscall_connect e) = codes "SYSCALL_CONNECT"
event_kind (syscall_memfd_create e) = codes "SYSCALL_MEMFD_CREATE"
event_kind (payload_captured e) = codes "PAYLOAD_CAPTURED"

abbrev to_ascii_lowercase : ℕ → ℕ
to_ascii_lowercase c = if leb 65 c && leb c 90 then c + 32 else c

abbrev pub eq_ignore_ascii_case : Text → Text → Bool
eq_ignore_ascii_case a b = list_beq (map to_ascii_lowercase a) (map to_ascii_lowercase b)

abbrev pub is_kind : {F : Type 0} → Option Text → TelemetryEvent F → Bool
is_kind none e = true
is_kind (some k) e = eq_ignore_ascii_case (event_kind e) k

-- `ip.map(|target| x == target).unwrap_or(true)`.
abbrev pub is_from : Option IpAddr → IpAddr → Bool
is_from none ip = true
is_from (some target) ip = ip_eq.beq ip target

unfoldable pub recent_events :
    {F : Type 0} → Store F → ℕ → Option Text → Option IpAddr → List (TelemetryEvent F)
recent_events s limit kind ip =
    take limit (filter (λ e. is_from ip (event_ip e)) (filter (is_kind kind) (reverse s.recent)))

abbrev is_session : Text → Option Text → Bool
is_session id none = false
is_session id (some other) = list_beq other id

abbrev pub session_events : {F : Type 0} → Store F → Text → List (TelemetryEvent F)
session_events s id = filter (λ e. is_session id (session_id e)) s.recent

pub record SessionSummary (F : Type 0) : Type 0 where
  pub session_id : Text
  pub ip : Text
  pub port : ℕ
  pub geo : Option (GeoIpInfo F)
  pub start_time : Text
  pub end_time : Option Text
  pub duration_secs : Option F
  pub username : Option Text
  pub password : Option Text
  pub command_count : ℕ
  pub payload_count : ℕ
  pub threat_score : ℕ

pub record HourBucket : Type 0 where
  pub hour : Text
  pub count : ℕ

pub record Summary : Type 0 where
  pub total_sessions : ℕ
  pub total_commands : ℕ
  pub total_credentials : ℕ
  pub total_payloads : ℕ
  pub unique_ips : ℕ
  pub top_usernames : List Ranked
  pub top_passwords : List Ranked
  pub top_commands : List Ranked
  pub top_ips : List Ranked
  pub top_countries : List Ranked
  pub top_threat_ips : List Ranked
  pub hourly_activity : List HourBucket

pub record IocRollup : Type 0 where
  pub ip_addresses : List Text
  pub urls : List Text
  pub monero_wallets : List Text

pub record KnownValues : Type 0 where
  pub usernames : List Text
  pub passwords : List Text
  pub commands : List Text

abbrev or_zero : Option ℕ → ℕ
or_zero none = 0
or_zero (some n) = n

abbrev or_empty : Option Text → Text
or_empty none = []
or_empty (some s) = s

abbrev values {ℓ} : {K : Type ℓ} {V : Type 0} → HashMap K V → List V
values [] = []
values ((k, v) ∷ m) = v ∷ values m

abbrev keys {ℓ} : {K : Type ℓ} {V : Type 0} → HashMap K V → List K
keys [] = []
keys ((k, v) ∷ m) = k ∷ keys m

abbrev found_record :
    {F : Type 0} → Option (SessionRecord F) → List (SessionRecord F) → List (SessionRecord F)
found_record none rs = rs
found_record (some r) rs = r ∷ rs

-- `filter_map(|id| self.sessions.get(id))`.
abbrev pub found_records :
    {F : Type 0} → HashMap Text (SessionRecord F) → List Text → List (SessionRecord F)
found_records m [] = []
found_records m (id ∷ ids) = found_record (get id m) (found_records m ids)

-- `sort_by(|a, b| b.count.cmp(&a.count))`.
unfoldable pub geo_points : {F : Type 0} → Store F → List (GeoPoint F)
unfolding sort_by
geo_points s = sort_by (λ a b. leb b.count a.count) (values s.geo_points)

abbrev pub ioc_rollup : {F : Type 0} → Store F → IocRollup
ioc_rollup s = record {
  ip_addresses = sorted_vec s.known_ip_iocs;
  urls = sorted_vec s.known_url_iocs;
  monero_wallets = sorted_vec s.known_wallet_iocs;
}

abbrev pub known_values : {F : Type 0} → Store F → KnownValues
known_values s = record {
  usernames = keys s.username_counts;
  passwords = keys s.password_counts;
  commands = sorted_vec s.known_full_commands;
}

abbrev score_of : {F : Type 0} → SessionRecord F → ℕ
score_of r = threat_score r

-- `*agg.entry(ip).or_insert(0) += score` over the sessions.
abbrev pub threat_sums : {F : Type 0} → List (SessionRecord F) → HashMap IpAddr ℕ → HashMap IpAddr ℕ
threat_sums [] agg = agg
threat_sums (r ∷ rs) agg =
    threat_sums rs (insert r.ip ((or_zero (get r.ip agg) + threat_score r) % u64_mod) agg)

abbrev time_text : Render → Option ℕ → Option Text
time_text render none = none
time_text render (some t) = some (render.rfc3339 t)

abbrev bucket : Render → ℕ × ℕ → HourBucket
bucket render (hour, n) = record { hour = render.rfc3339 (hour * 3600); count = n }

abbrev pub lowered : Render → Option Text → Option Text
lowered render none = none
lowered render (some q) = some (render.to_lowercase q)

module _ (render : Render) {F : Type 0} where
  abbrev pub to_summary : SessionRecord F → SessionSummary F
  to_summary r = record {
    session_id = r.session_id;
    ip = render.ip_text r.ip;
    port = r.port;
    geo = r.geo;
    start_time = render.rfc3339 r.start_time;
    end_time = time_text render r.end_time;
    duration_secs = r.duration_secs;
    username = r.username;
    password = r.password;
    command_count = r.command_count;
    payload_count = r.payload_count;
    threat_score = score_of r;
  }

  abbrev pub top_threat_ips : Store F → List Ranked
  top_threat_ips s = top_n_ip render (threat_sums (values s.sessions) [])

  unfoldable pub summary : Store F → Summary
  unfolding top_ranked get insert threat_score
  summary s = record {
    total_sessions = s.total_sessions;
    total_commands = s.total_commands;
    total_credentials = s.total_credentials;
    total_payloads = s.total_payloads;
    unique_ips = length s.unique_ips;
    top_usernames = top_n s.username_counts;
    top_passwords = top_n s.password_counts;
    top_commands = top_n s.command_counts;
    top_ips = top_n_ip render s.ip_counts;
    top_countries = top_n s.country_counts;
    top_threat_ips = top_threat_ips s;
    hourly_activity = reverse (map (bucket render) (take 24 (reverse s.hourly_activity)));
  }

  abbrev pub is_match : Option Text → SessionRecord F → Bool
  is_match none r = true
  is_match (some n) r =
      has_text n (render.to_lowercase r.session_id)
      || has_text n (render.ip_text r.ip)
      || has_text n (render.to_lowercase (or_empty r.username))
      || has_text n (render.to_lowercase (or_empty r.password))

  -- All sessions that match, newest first.
  abbrev pub all_matches : Store F → Option Text → Option IpAddr → List (SessionRecord F)
  all_matches s q ip = filter (is_match (lowered render q)) (
      filter (λ (r : SessionRecord F). is_from ip r.ip)
        (found_records s.sessions (reverse s.session_order)))

  unfoldable pub sessions :
      Store F → Option Text → Option IpAddr → ℕ → ℕ → List (SessionSummary F) × ℕ
  unfolding get has_text threat_score
  sessions s q ip limit offset =
      let matches = all_matches s q ip in
      (map to_summary (take limit (drop offset matches)), length matches)
