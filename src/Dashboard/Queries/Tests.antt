-- ===== src/Dashboard/Queries/Tests.antt =====
-- The queries at concrete inputs.
use mathlib.Core.List.{Perm}
use aegis_honeypot.Prelude.{
  ℕ, min, ◌≡◌, refl, List, [], ◌∷◌, ◌++◌, none, some, length, list_beq, list_eq,
}
use aegis_honeypot.Prelude.HashMap.{get, insert, remove, HashMap}
use aegis_honeypot.Prelude.Sorting.{sort_by}
use aegis_honeypot.Prelude.Text.{Text, codes, has_text, decimal, starts_with}
use aegis_honeypot.Net.{v4}
use aegis_honeypot.Common.{SessionStartEvent}
use aegis_honeypot.Dashboard.Store.{Store, empty, archive_session_start, evict, threat_score}
use aegis_honeypot.Dashboard.Queries.{
  Render, Ranked, ranked_of, top_ranked, top_n, top_n_cap, sessions, recent_events, summary,
}
use aegis_honeypot.Dashboard.Queries.Handlers.{events_page, sessions_page}
use aegis_honeypot.Dashboard.Queries.Ranking.{IsAbove, IsRanked, top_ranked-IsRanked}

program : Unit {0}
unfolding sort_by get insert remove has_text decimal starts_with list_beq empty
    archive_session_start evict threat_score top_ranked sessions recent_events summary events_page
    sessions_page
program = tt

abbrev counts : HashMap Text ℕ
counts = (codes "admin", 2) ∷ (codes "root", 7) ∷ (codes "pi", 2) ∷ []

abbrev texts : Text → Text
texts s = s

top_ranked-IsRanked_example :
    IsRanked (top_ranked texts counts)
    × (length (top_ranked texts counts) ≡ min top_n_cap (length counts))
    × ((rest : List Ranked) × Perm (top_ranked texts counts ++ rest) (ranked_of texts counts)
        × IsAbove (top_ranked texts counts) rest)
top_ranked-IsRanked_example = top_ranked-IsRanked texts counts

ranked_counts :
    top_n counts
    ≡ record { value = codes "root"; count = 7 }
      ∷ record { value = codes "admin"; count = 2 }
      ∷ record { value = codes "pi"; count = 2 }
      ∷ []
unfolding program
ranked_counts = refl

abbrev render : Render
render = record { ip_text = λ ip. codes "203.0.113.5"; to_lowercase = λ s. s; rfc3339 = decimal }

abbrev start : Text → SessionStartEvent ℕ
start id = record {
  timestamp = 1_000;
  session_id = id;
  ip = v4 (record { o0 = 203; o1 = 0; o2 = 113; o3 = 5 });
  port = 4444;
  geo = none;
}

-- Three sessions.
abbrev archive : Store ℕ
unfolding program
archive =
    archive_session_start
      (archive_session_start (archive_session_start empty (start (codes "a"))) (start (codes "b")))
      (start (codes "c"))

sessions_found : (sessions render archive (some (codes "b")) none 10 0).1 ≡ 1
unfolding program
sessions_found = refl
