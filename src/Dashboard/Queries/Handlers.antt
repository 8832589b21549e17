-- ===== src/Dashboard/Queries/Handlers.antt =====
-- crates/aegis-dashboard/src/main.rs: the handlers `events` and `sessions`, which bound what a client
-- may ask of the store.
use aegis_honeypot.Prelude.{ℕ, min, List, Option, none, some}
use aegis_honeypot.Prelude.Text.{Text}
use aegis_honeypot.Net.{IpAddr}
use aegis_honeypot.Common.{TelemetryEvent}
use aegis_honeypot.Dashboard.Store.{Store}
use aegis_honeypot.Dashboard.Queries.{Render, SessionSummary, recent_events, sessions}

abbrev pub max_events_limit : ℕ
max_events_limit = 500

abbrev pub max_sessions_limit : ℕ
max_sessions_limit = 200

abbrev pub unwrap_or : ℕ → Option ℕ → ℕ
unwrap_or d none = d
unwrap_or d (some n) = n

unfoldable pub events_page :
    {F : Type 0} → Store F → Option ℕ → Option Text → Option IpAddr → List (TelemetryEvent F)
unfolding recent_events
events_page s limit kind ip = recent_events s (min (unwrap_or 50 limit) max_events_limit) kind ip

unfoldable pub sessions_page :
    {F : Type 0}
    → Render
    → Store F
    → Option Text
    → Option IpAddr
    → Option ℕ
    → Option ℕ
    → List (SessionSummary F) × ℕ
unfolding sessions
sessions_page render s q ip limit offset =
    sessions render s q ip (min (unwrap_or 50 limit) max_sessions_limit) (unwrap_or 0 offset)
