-- ===== src/Dashboard/Queries/Pages.antt =====
-- The pages of the session archive and of the recent events.
use aegis_honeypot.Prelude.{
  ℕ, ◌+◌, ◌≤◌, min, ◌≡◌, refl, sym, ap, ◌∙◌, List, ◌++◌, map, Option, arith, length, take, drop,
  take-add, drop-drop, map-append, length-map, length-take, filter, reverse,
}
use aegis_honeypot.Prelude.Text.{Text}
use aegis_honeypot.Net.{IpAddr}
use aegis_honeypot.Dashboard.Store.{Store, SessionRecord, event_ip}
use aegis_honeypot.Dashboard.Queries.{
  Render, sessions, to_summary, all_matches, recent_events, is_kind, is_from,
}
use aegis_honeypot.Dashboard.Queries.Handlers.{events_page, sessions_page, unwrap_or}

-- Two pages that follow each other are the page of both lengths, so that pages of any lengths
-- together show every session that matches once and in order. Each is told the same total, which is
-- the number of the sessions on the page that starts at the first and has the length of the total.
sessions-append :
    {F : Type 0} (render : Render) (s : Store F) (q : Option Text) (ip : Option IpAddr)
    (limit more offset : ℕ)
    → ((sessions render s q ip limit offset).0 ++ (sessions render s q ip more (offset + limit)).0
        ≡ (sessions render s q ip (limit + more) offset).0)
      × ((sessions render s q ip limit offset).1 ≡ (sessions render s q ip more (offset + limit)).1)
      × (length (sessions render s q ip (sessions render s q ip limit offset).1 0).0
          ≡ (sessions render s q ip limit offset).1)
unfolding sessions
sessions-append {F} render s q ip limit more offset =
    let matches : List (SessionRecord F) = all_matches render s q ip in
    (
      sym (
            map-append (to_summary render) (take limit (drop offset matches))
              (take more (drop (offset + limit) matches)))
          ∙ ap (map (to_summary render)) (
              ap (λ z. take limit (drop offset matches) ++ take more z)
                (sym (drop-drop offset limit matches))
              ∙ sym (take-add limit more (drop offset matches))),
      refl,
      length-map (to_summary render) (take (length matches) matches)
          ∙ omega (arith, length-take (length matches) matches),
    )

-- No request gets more than 500 events or 200 sessions, whatever limit it asks for.
events_page-sessions_page :
    {F : Type 0} (render : Render) (s : Store F) (q kind : Option Text) (ip : Option IpAddr)
    (limit offset : Option ℕ)
    → (length (events_page s limit kind ip) ≤ 500)
      × (length (sessions_page render s q ip limit offset).0 ≤ 200)
unfolding events_page sessions_page recent_events sessions
events_page-sessions_page {F} render s q kind ip limit offset = (
  omega (
    arith,
    length-take (min (unwrap_or 50 limit) 500)
        (filter (λ e. is_from ip (event_ip e)) (filter (is_kind kind) (reverse s.recent))),
  ),
  omega (
    arith,
    length-map (to_summary render) (
        take (min (unwrap_or 50 limit) 200)
          (drop (unwrap_or 0 offset) (all_matches render s q ip))),
    length-take (min (unwrap_or 50 limit) 200)
        (drop (unwrap_or 0 offset) (all_matches render s q ip)),
  ),
)
