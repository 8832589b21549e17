-- ===== src/Dashboard/Access/Tests.antt =====
-- The checks on small requests, and the theorems at concrete inputs.
use aegis_honeypot.Prelude.{ℕ, List, ◌≡◌, ◌↔◌, refl, true, false, Option, none, some, list_beq}
use aegis_honeypot.Prelude.Text.{Text, codes, split, starts_with}
use aegis_honeypot.Dashboard.Access.{
  Request, AppState, constant_time_eq, split_once, query_token, require_auth, is_valid_session_id,
  Response, Opened, content, session_cast,
}
use aegis_honeypot.Dashboard.Access.Guard.{Holds, require_auth_iff, IsServed, session_cast-IsServed}

program : Unit {0}
unfolding constant_time_eq split_once query_token require_auth is_valid_session_id session_cast
    split starts_with list_beq
program = tt

abbrev state : AppState
state = record { require_auth = true; token = codes "ab12" }

abbrev stream : Request
stream = record {
  authorization = none;
  path = codes "/api/stream";
  query = some (codes "x=1&token=ab12");
}

by_query : require_auth state stream ≡ true
unfolding program
by_query = refl

elsewhere : require_auth state (record stream { path = codes "/api/events" }) ≡ false
unfolding program
elsewhere = refl

by_header :
    require_auth state (record stream { authorization = some (codes "Bearer ab12"); query = none })
    ≡ true
unfolding program
by_header = refl

-- The decoding of bytes below 128.
abbrev ascii : List ℕ → Text
ascii bytes = bytes

abbrev files : Text → Option Opened
files name = some (content (codes "{}"))

climbing : session_cast ascii files (codes "../x") ≡ (none, Response.bad_request)
unfolding program
climbing = refl

require_auth_iff_example : (require_auth state stream ≡ true) ↔ Holds stream (codes "ab12")
require_auth_iff_example = require_auth_iff state stream refl

session_cast-IsServed_example :
    IsServed ascii files (codes "0a1b") (session_cast ascii files (codes "0a1b"))
session_cast-IsServed_example = session_cast-IsServed ascii files (codes "0a1b")
