-- ===== src/Dashboard/Access/Guard.antt =====
-- What the token check and the check on session ids let through.
use aegis_honeypot.Prelude.{
  ℕ, ◌≤◌, ◌≡◌, ◌↔◌, ◌⊎◌, inl, inr, refl, ap, Bool, true, false, List, [], ◌∷◌, ◌++◌, Option, none,
  some, arith, if◌then◌else◌, length, all, list_beq_iff, Bool-cases, length-take, take, drop, sym,
  take-append-drop,
}
use aegis_honeypot.Prelude.Text.{Text, codes, has_char, starts_with}
use aegis_honeypot.Prelude.Prefix.{strip_prefix_iff, strip_prefix-none_iff}
use aegis_honeypot.Dashboard.Access.Query.{IsNamed, query_token_iff}
use aegis_honeypot.Dashboard.Access.{
  Request, AppState, constant_time_eq, query_token, bearer, or_else, query_allowed, provided,
  matches, require_auth, is_ascii_hexdigit, is_valid_session_id, max_cast_response_bytes, Response,
  ok, Opened, content, broken, serve, session_cast,
}

-- Comparing in constant time is comparing.
constant_time_eq_iff : (a b : Text) → (constant_time_eq a b ≡ true) ↔ (a ≡ b)
unfolding constant_time_eq
constant_time_eq_iff a b = (
  λ h. ground (arith, h, list_beq_iff a b),
  λ e. ground (arith, ap length e, (list_beq_iff a b).1 e),
)

-- The header names no token.
abbrev pub IsBare : Option Text → Type 0
IsBare none = Unit
IsBare (some value) = starts_with value (codes "Bearer ") ≡ false

-- The token stands in the header, or, on the two paths that take it there and where the header
-- names none, in the query.
abbrev pub Holds : Request → Text → Type 0
Holds r token =
    (r.authorization ≡ some (codes "Bearer " ++ token))
    ⊎ (IsBare r.authorization
        × ((r.path ≡ codes "/") ⊎ (r.path ≡ codes "/api/stream"))
        × IsNamed token r.query)

bearer_iff :
    (o : Option Text) (token : Text)
    → (bearer o ≡ some token) ↔ (o ≡ some (codes "Bearer " ++ token))
bearer_iff none token = ground arith
bearer_iff (some value) token = (
  λ e. ap some ((strip_prefix_iff value (codes "Bearer ") token).0 e),
  λ e. (strip_prefix_iff value (codes "Bearer ") token).1 cc,
)

bearer-none_iff : (o : Option Text) → (bearer o ≡ none) ↔ IsBare o
bearer-none_iff none = (λ e. tt, λ h. refl)
bearer-none_iff (some value) = strip_prefix-none_iff value (codes "Bearer ")

query_allowed_iff :
    (path : Text)
    → (query_allowed path ≡ true) ↔ ((path ≡ codes "/") ⊎ (path ≡ codes "/api/stream"))
query_allowed_iff path =
    ground (arith, list_beq_iff path (codes "/"), list_beq_iff path (codes "/api/stream"))

matches_iff : (o : Option Text) (token : Text) → (matches o token ≡ true) ↔ (o ≡ some token)
matches_iff none token = ground arith
matches_iff (some t) token = ground (arith, constant_time_eq_iff t token)

provided_iff :
    (b q : Option Text) (allowed : Bool) (token : Text)
    → (or_else b (if allowed then q else none) ≡ some token)
      ↔ ((b ≡ some token) ⊎ ((b ≡ none) × (allowed ≡ true) × (q ≡ some token)))
provided_iff none q true token = ground arith
provided_iff none q false token = ground arith
provided_iff (some t) q allowed token = ground arith

provided-Holds : (r : Request) (token : Text) → (provided r ≡ some token) ↔ Holds r token
provided-Holds r token =
    (λ e. known ((provided_iff b q a token).0 e), λ h. (provided_iff b q a token).1 (told h))
  where
    b : Option Text
    b = bearer r.authorization

    q : Option Text
    q = query_token r.query

    a : Bool
    a = query_allowed r.path

    known : (b ≡ some token) ⊎ ((b ≡ none) × (a ≡ true) × (q ≡ some token)) → Holds r token
    known (inl e) = inl ((bearer_iff r.authorization token).0 e)
    known (inr (bare, allowed, named)) = inr (
      (bearer-none_iff r.authorization).0 bare,
      (query_allowed_iff r.path).0 allowed,
      (query_token_iff token r.query).0 named,
    )

    told : Holds r token → (b ≡ some token) ⊎ ((b ≡ none) × (a ≡ true) × (q ≡ some token))
    told (inl e) = inl ((bearer_iff r.authorization token).1 e)
    told (inr (bare, allowed, named)) = inr (
      (bearer-none_iff r.authorization).1 bare,
      (query_allowed_iff r.path).1 allowed,
      (query_token_iff token r.query).1 named,
    )

-- Where a token is required, a request is handed on exactly when it holds the token: as the header
-- `Bearer <token>`, or, on the paths `/` and `/api/stream` and where the header does not start so, as
-- the first pair of the query that starts with `token=`.
pub require_auth_iff :
    (state : AppState) (r : Request)
    → state.require_auth ≡ true
    → (require_auth state r ≡ true) ↔ Holds r state.token
unfolding require_auth
require_auth_iff state r h =
    let m = matches_iff (provided r) state.token in
    let p = provided-Holds r state.token in
    (λ e. p.0 (m.0 (ground (arith, h, e))), λ w. ground (arith, h, m.1 (p.1 w)))

all-has_char :
    (c : ℕ) (s : Text)
    → is_ascii_hexdigit c ≡ false
    → all is_ascii_hexdigit s ≡ true
    → has_char c s ≡ false
all-has_char c [] n h = refl
all-has_char c (d ∷ s) n h = ground (arith, all-has_char c s)

-- The file that is opened: the id with `.cast`, where the id has no `/` and no `.`.
abbrev pub IsFileOf : Text → Option Text → Type 0
IsFileOf id none = Unit
IsFileOf id (some name) =
    (name ≡ id ++ codes ".cast") × (has_char 47 id ≡ false) × (has_char 46 id ≡ false)

module _ (from_utf8_lossy : List ℕ → Text) where
  -- What is sent stands for the first bytes of the file, of which it takes no more than
  -- `MAX_CAST_RESPONSE_BYTES`.
  abbrev pub IsCapped : Option Opened → Response → Type 0
  IsCapped (some (content bytes)) (ok body) =
      (read rest : List ℕ) × (bytes ≡ read ++ rest)
      × (length read ≤ max_cast_response_bytes)
      × (body ≡ from_utf8_lossy read)
  IsCapped o (ok body) = ⊥
  IsCapped o other = Unit

  pub record IsServed (files : Text → Option Opened) (id : Text) (a : Option Text × Response)
      : Type 0 where
    pub file : IsFileOf id a.0
    pub body : IsCapped (files (id ++ codes ".cast")) a.1

  bad_request-IsCapped : (o : Option Opened) → IsCapped o Response.bad_request
  bad_request-IsCapped none = tt
  bad_request-IsCapped (some broken) = tt
  bad_request-IsCapped (some (content bytes)) = tt

  serve-IsCapped : (o : Option Opened) → IsCapped o (serve from_utf8_lossy o)
  serve-IsCapped none = tt
  serve-IsCapped (some broken) = tt
  serve-IsCapped (some (content bytes)) = (
    take max_cast_response_bytes bytes,
    drop max_cast_response_bytes bytes,
    sym (take-append-drop max_cast_response_bytes bytes),
    omega (arith, length-take max_cast_response_bytes bytes),
    refl,
  )

  -- Whatever id a client asks for, the only file that is opened is that id with `.cast`, where the id
  -- has no `/` and no `.`, and what is sent stands for no more than the first
  -- `MAX_CAST_RESPONSE_BYTES` bytes of it; the text itself may be longer, since each malformed
  -- sequence in them becomes a character of three bytes.
  pub session_cast-IsServed :
      (files : Text → Option Opened) (id : Text)
      → IsServed files id (session_cast from_utf8_lossy files id)
  unfolding session_cast is_valid_session_id
  session_cast-IsServed files id = elim (Bool-cases (is_valid_session_id id)) [
    | inl valid ↦ rw valid (record {
      file = (
        refl,
        all-has_char 47 id refl (ground (arith, valid)),
        all-has_char 46 id refl (ground (arith, valid)),
      );
      body = serve-IsCapped (files (id ++ codes ".cast"));
    })
    | inr bad ↦
        rw bad (record { file = tt; body = bad_request-IsCapped (files (id ++ codes ".cast")) })
  ]
