-- ===== src/Dashboard/Store/Bounds.antt =====
-- The store stays bounded, and its archive consistent, whatever the log says.
use aegis_honeypot.Prelude.{ℕ, ◌≤◌, List, [], ◌∷◌, ◌++◌, Option, none, some, arith, length, list_eq}
use aegis_honeypot.Prelude.HashMap.{HashMap}
use aegis_honeypot.Prelude.Text.{Text, split_whitespace, first_or}
use aegis_honeypot.Net.{ip_eq}
use aegis_honeypot.Common.{
  TelemetryEvent, SessionStartEvent, GeoIpInfo, session_start, session_end, credential_harvest,
  command_run, syscall_execve, syscall_connect, syscall_memfd_create, payload_captured,
}
use aegis_honeypot.Dashboard.Store.{
  Store, Grid, SessionRecord, with_session, country_of, recent_cap, ioc_cap, command_cap,
  counter_cap, empty, bump_ip, bump_hour, bump_geo_point, archive_session_start, ingest_kind,
  drop_oldest, push_recent, ingest, ingest_all, count_country, count_password, event_timestamp,
  event_ip,
}
use aegis_honeypot.Dashboard.Store.Counters.{
  length-insert_capped, length-insert_all, length-bump_capped,
}
use aegis_honeypot.Dashboard.Store.Archive.{
  Archived, empty-Archived, update-Archived, archive_session_start-Archived,
}

pub record IsBounded {F : Type 0} (s : Store F) : Type 0 where
  pub recent : length s.recent ≤ recent_cap
  pub unique_ips : length s.unique_ips ≤ counter_cap
  pub ip_counts : length s.ip_counts ≤ counter_cap
  pub country_counts : length s.country_counts ≤ counter_cap
  pub username_counts : length s.username_counts ≤ counter_cap
  pub password_counts : length s.password_counts ≤ counter_cap
  pub command_counts : length s.command_counts ≤ counter_cap
  pub known_ip_iocs : length s.known_ip_iocs ≤ ioc_cap
  pub known_url_iocs : length s.known_url_iocs ≤ ioc_cap
  pub known_wallet_iocs : length s.known_wallet_iocs ≤ ioc_cap
  pub known_full_commands : length s.known_full_commands ≤ command_cap
  pub archived : Archived s.session_order s.sessions

pub length-drop_oldest {ℓ} : {A : Type ℓ} (n : ℕ) (xs : List A) → length (drop_oldest n xs) ≤ n
unfolding drop_oldest
length-drop_oldest n [] = omega arith
length-drop_oldest n (x ∷ xs) = ground (arith, length-drop_oldest n xs)

length-count_country :
    (m : HashMap Text ℕ) (o : Option Text)
    → length m ≤ counter_cap
    → length (count_country m o) ≤ counter_cap
length-count_country m none h = h
length-count_country m (some c) h = ground (arith, length-bump_capped m c counter_cap)

length-count_password :
    (m : HashMap Text ℕ) (o : Option Text)
    → length m ≤ counter_cap
    → length (count_password m o) ≤ counter_cap
length-count_password m none h = h
length-count_password m (some c) h = length-bump_capped m c counter_cap h

module _ {F : Type 0} where
  bump_ip-unique_ips :
      (s : Store F) (e : TelemetryEvent F)
      → length s.unique_ips ≤ counter_cap
      → length (bump_ip s (event_ip e)).unique_ips ≤ counter_cap
  unfolding bump_ip
  bump_ip-unique_ips s e h = ground arith

  bump_ip-IsBounded :
      (s : Store F) (e : TelemetryEvent F) → IsBounded s → IsBounded (bump_ip s (event_ip e))
  unfolding bump_ip
  bump_ip-IsBounded s e b = assumption (
    bump_ip-unique_ips s e b.unique_ips,
    length-bump_capped s.ip_counts (event_ip e) counter_cap b.ip_counts,
  )

  bump_hour-IsBounded : (s : Store F) (ts now : ℕ) → IsBounded s → IsBounded (bump_hour s ts now)
  unfolding bump_hour
  bump_hour-IsBounded s ts now b = assumption

  push_recent-IsBounded :
      (s : Store F) (e : TelemetryEvent F) → IsBounded s → IsBounded (push_recent s e)
  unfolding push_recent
  push_recent-IsBounded s e b = assumption (length-drop_oldest recent_cap (s.recent ++ e ∷ []))

  with_session-IsBounded :
      (s : Store F) (id : Text) (f : SessionRecord F → SessionRecord F)
      → IsBounded s
      → IsBounded (with_session s id f)
  with_session-IsBounded s id f b =
      assumption (update-Archived s.session_order s.sessions id f b.archived)

  archive_session_start-IsBounded :
      (s : Store F) (e : SessionStartEvent F) → IsBounded s → IsBounded (archive_session_start s e)
  unfolding archive_session_start
  archive_session_start-IsBounded s e b = assumption (archive_session_start-Archived s e b.archived)

  bump_geo_point-IsBounded :
      (g : Grid F) (s : Store F) (o : Option (GeoIpInfo F))
      → IsBounded s
      → IsBounded (bump_geo_point g s o)
  unfolding bump_geo_point
  bump_geo_point-IsBounded g s o b = assumption

  ingest_kind-IsBounded :
      (g : Grid F) (s : Store F) (e : TelemetryEvent F)
      → IsBounded s
      → IsBounded (ingest_kind g s e)
  unfolding ingest_kind
  ingest_kind-IsBounded g s (session_start e) b = archive_session_start-IsBounded _ e (
      bump_geo_point-IsBounded g _ e.geo
        (assumption (length-count_country s.country_counts (country_of e.geo) b.country_counts)))
  ingest_kind-IsBounded g s (session_end e) b = with_session-IsBounded s e.session_id _ b
  ingest_kind-IsBounded g s (command_run e) b = with_session-IsBounded _ e.session_id _ (
      assumption (
        length-bump_capped s.command_counts (first_or (split_whitespace e.command) e.command)
            counter_cap b.command_counts,
        length-insert_capped s.known_full_commands e.command command_cap b.known_full_commands,
      ))
  ingest_kind-IsBounded g s (credential_harvest e) b = with_session-IsBounded _ e.session_id _ (
      assumption (
        length-bump_capped s.username_counts e.username counter_cap b.username_counts,
        length-count_password s.password_counts e.password b.password_counts,
      ))
  ingest_kind-IsBounded g s (payload_captured e) b = with_session-IsBounded _ e.session_id _ (
      assumption (
        length-insert_all e.iocs.ip_addresses s.known_ip_iocs ioc_cap b.known_ip_iocs,
        length-insert_all e.iocs.urls s.known_url_iocs ioc_cap b.known_url_iocs,
        length-insert_all e.iocs.monero_wallets s.known_wallet_iocs ioc_cap b.known_wallet_iocs,
      ))
  ingest_kind-IsBounded g s (syscall_execve e) b = b
  ingest_kind-IsBounded g s (syscall_connect e) b = b
  ingest_kind-IsBounded g s (syscall_memfd_create e) b = b

  ingest-IsBounded :
      (g : Grid F) (s : Store F) (now : ℕ) (e : TelemetryEvent F)
      → IsBounded s
      → IsBounded (ingest g s now e)
  unfolding ingest
  ingest-IsBounded g s now e b = push_recent-IsBounded _ e (
      ingest_kind-IsBounded g _ e
        (bump_ip-IsBounded _ e (bump_hour-IsBounded s (event_timestamp e) now b)))

  ingest_all-IsBounded :
      (g : Grid F) (s : Store F) (es : List (ℕ × TelemetryEvent F))
      → IsBounded s
      → IsBounded (ingest_all g s es)
  unfolding ingest_all
  ingest_all-IsBounded g s [] b = b
  ingest_all-IsBounded g s ((now, e) ∷ es) b =
      ingest_all-IsBounded g (ingest g s now e) es (ingest-IsBounded g s now e b)

  empty-IsBounded : IsBounded (empty {F = F})
  unfolding empty
  empty-IsBounded = record {
    recent = omega arith;
    unique_ips = omega arith;
    ip_counts = omega arith;
    country_counts = omega arith;
    username_counts = omega arith;
    password_counts = omega arith;
    command_counts = omega arith;
    known_ip_iocs = omega arith;
    known_url_iocs = omega arith;
    known_wallet_iocs = omega arith;
    known_full_commands = omega arith;
    archived = empty-Archived;
  }

  -- Whatever events a fresh store is fed, in whatever order, each of its collections stays within
  -- its cap, and the archive and its order hold the same session ids, each once.
  pub ingest_all-empty-IsBounded :
      (g : Grid F) (es : List (ℕ × TelemetryEvent F)) → IsBounded (ingest_all g empty es)
  ingest_all-empty-IsBounded g es = ingest_all-IsBounded g empty es empty-IsBounded
