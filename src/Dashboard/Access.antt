-- ===== src/Dashboard/Access.antt =====
-- crates/aegis-dashboard/src/main.rs: who may read the dashboard, and which recordings it serves. The
-- handler behind the check, the header's value and the recording's file are parameters.
pub mod Query
pub mod Guard
mod Tests
use aegis_honeypot.Prelude.{
  ℕ, ◌+◌, ◌*◌, Bool, true, false, not, ◌&&◌, ◌||◌, List, [], ◌∷◌, ◌++◌, Option, none, some, ltb,
  leb, ◌==◌, if◌then◌else◌, length, is_empty, take, all, list_beq,
}
use aegis_honeypot.Prelude.Text.{Text, codes, split, strip_prefix, starts_with}

-- `a.len() == b.len()` and the comparison in constant time, which answers whether the bytes are
-- the same.
unfoldable pub constant_time_eq : Text → Text → Bool
constant_time_eq a b = length a == length b && list_beq a b

abbrev pub push_left : ℕ → Option (Text × Text) → Option (Text × Text)
push_left x none = none
push_left x (some p) = some (x ∷ p.0, p.1)

-- `split_once` at a character.
unfoldable pub split_once : ℕ → Text → Option (Text × Text)
split_once c [] = none
split_once c (x ∷ s) =
    let rest = split_once c s in if x == c then some ([], s) else push_left x rest

-- What the closure of `query_token` makes of one `key=value` pair.
abbrev pub token_of : Option (Text × Text) → Option Text
token_of none = none
token_of (some p) = if list_beq p.0 (codes "token") then some p.1 else none

abbrev pub or_else : Option Text → Option Text → Option Text
or_else (some t) o = some t
or_else none o = o

-- `find_map`.
abbrev pub find_token : List Text → Option Text
find_token [] = none
find_token (pair ∷ pairs) = or_else (token_of (split_once 61 pair)) (find_token pairs)

unfoldable pub query_token : Option Text → Option Text
query_token none = none
query_token (some query) = find_token (split 38 query)

-- What the check reads of a request: the value of its `Authorization` header, where it is text,
-- and its URI.
pub record Request : Type 0 where
  pub authorization : Option Text
  pub path : Text
  pub query : Option Text

pub record AppState : Type 0 where
  pub require_auth : Bool
  pub token : Text

abbrev pub bearer : Option Text → Option Text
bearer none = none
bearer (some value) = strip_prefix value (codes "Bearer ")

abbrev pub query_allowed : Text → Bool
query_allowed path = list_beq path (codes "/") || list_beq path (codes "/api/stream")

abbrev pub provided : Request → Option Text
provided r =
    or_else (bearer r.authorization) (if query_allowed r.path then query_token r.query else none)

abbrev pub matches : Option Text → Text → Bool
matches none token = false
matches (some t) token = constant_time_eq t token

-- Whether the request is handed on; the other answer is 401.
unfoldable pub require_auth : AppState → Request → Bool
require_auth state r = if not state.require_auth then true else matches (provided r) state.token

abbrev pub is_ascii_hexdigit : ℕ → Bool
is_ascii_hexdigit c = leb 48 c && leb c 57 || leb 65 c && leb c 70 || leb 97 c && leb c 102

unfoldable pub is_valid_session_id : Text → Bool
is_valid_session_id id = not (is_empty id) && leb (length id) 64 && all is_ascii_hexdigit id

abbrev pub max_cast_response_bytes : ℕ
max_cast_response_bytes = 32 * 1024 * 1024

pub data Response : Type 0 where
  ok : Text → Response
  bad_request not_found server_error : Response

-- A file that is opened: its bytes, or a read that fails.
pub data Opened : Type 0 where
  content : List ℕ → Opened
  broken : Opened

-- `String::from_utf8_lossy`, which turns malformed sequences into U+FFFD, is a parameter.
module _ (from_utf8_lossy : List ℕ → Text) where
  abbrev pub serve : Option Opened → Response
  serve none = Response.not_found
  serve (some broken) = Response.server_error
  serve (some (content bytes)) = Response.ok (from_utf8_lossy (take max_cast_response_bytes bytes))

  -- The name of the file below the directory of sessions, if one is opened, and the answer.
  unfoldable pub session_cast : (Text → Option Opened) → Text → Option Text × Response
  session_cast files id =
      let name = id ++ codes ".cast" in
      if is_valid_session_id id
      then (some name, serve (files name))
      else (none, Response.bad_request)
