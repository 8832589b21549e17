-- ===== src/Dashboard/Store/Totals.antt =====
-- The totals and the counters against the history of events.
use aegis_honeypot.Prelude.{
  ℕ, ◌+◌, ◌≡◌, refl, subst, List, [], ◌∷◌, Option, none, some, inl, arith, length, list_eq,
  if◌then◌else◌, Eq,
}
use aegis_honeypot.Prelude.HashMap.{HashMap, get}
use aegis_honeypot.Prelude.Text.{Text, split_whitespace, first_or}
use aegis_honeypot.Net.{IpAddr, ip_eq}
use aegis_honeypot.Common.{
  TelemetryEvent, session_start, session_end, credential_harvest, command_run, syscall_execve,
  syscall_connect, syscall_memfd_create, payload_captured,
}
use aegis_honeypot.Dashboard.Store.{
  Store, Grid, counter_cap, empty, bump_ip, bump_hour, bump_geo_point, archive_session_start,
  ingest_kind, push_recent, ingest, ingest_all, event_ip, bump_capped,
}
use aegis_honeypot.Dashboard.Store.Counters.{ExactAt, Exact, once_more, bump_capped-Exact}

abbrev pub username_of : {F : Type 0} → TelemetryEvent F → Option Text
username_of (credential_harvest e) = some e.username
username_of (session_start e) = none
username_of (session_end e) = none
username_of (command_run e) = none
username_of (syscall_execve e) = none
username_of (syscall_connect e) = none
username_of (syscall_memfd_create e) = none
username_of (payload_captured e) = none

-- The first word of a command.
abbrev pub verb_of : {F : Type 0} → TelemetryEvent F → Option Text
verb_of (command_run e) = some (first_or (split_whitespace e.command) e.command)
verb_of (session_start e) = none
verb_of (session_end e) = none
verb_of (credential_harvest e) = none
verb_of (syscall_execve e) = none
verb_of (syscall_connect e) = none
verb_of (syscall_memfd_create e) = none
verb_of (payload_captured e) = none

abbrev pub source_of : {F : Type 0} → TelemetryEvent F → Option IpAddr
source_of e = some (event_ip e)

module _ {K : Type 0} ⦃e : Eq K⦄ where
  abbrev pub hits : Option K → K → ℕ
  hits none k = 0
  hits (some j) k = if e.beq j k then 1 else 0

  abbrev count_key : HashMap K ℕ → Option K → HashMap K ℕ
  count_key m none = m
  count_key m (some k) = bump_capped m k counter_cap

  once_more_lem : (j : K) (n : K → ℕ) (k : K) → once_more j n k ≡ n k + hits (some j) k
  once_more_lem j n k = ground arith

  count_key-ExactAt :
      (o : Option K) (m : HashMap K ℕ) (n : K → ℕ)
      → Exact m n counter_cap
      → Exact (count_key m o) (λ k. n k + hits o k) counter_cap
  count_key-ExactAt none m n x k =
      subst (λ z. ExactAt (get k m) z (length m) counter_cap) (omega arith) (x k)
  count_key-ExactAt (some j) m n x k =
      subst
        (λ z.
          ExactAt (get k (bump_capped m j counter_cap)) z (length (bump_capped m j counter_cap))
            counter_cap)
        (once_more_lem j n k) (bump_capped-Exact m n j counter_cap x k)

module _ {F K : Type 0} ⦃e : Eq K⦄ (key : TelemetryEvent F → Option K) where
  -- How many of the events have the key `k`.
  abbrev pub occurrences : List (ℕ × TelemetryEvent F) → K → ℕ
  occurrences [] k = 0
  occurrences ((now, ev) ∷ es) k = hits (key ev) k + occurrences es k

  module _ (g : Grid F) (counts : Store F → HashMap K ℕ)
      (step : (s : Store F) (now : ℕ) (ev : TelemetryEvent F)
        → counts (ingest g s now ev) ≡ count_key (counts s) (key ev)) where
    ingest_all-Exact :
        (s : Store F) (es : List (ℕ × TelemetryEvent F)) (n : K → ℕ)
        → Exact (counts s) n counter_cap
        → Exact (counts (ingest_all g s es)) (λ k. n k + occurrences es k) counter_cap
    unfolding ingest_all
    ingest_all-Exact s [] n x k =
        subst (λ z. ExactAt (get k (counts s)) z (length (counts s)) counter_cap) (omega arith)
          (x k)
    ingest_all-Exact s ((now, ev) ∷ es) n x k =
        subst
          (λ z.
            ExactAt (get k (counts (ingest_all g (ingest g s now ev) es))) z
              (length (counts (ingest_all g (ingest g s now ev) es))) counter_cap)
          (omega arith)
          (ingest_all-Exact (ingest g s now ev) es (λ q. n q + hits (key ev) q)
            (rw (step s now ev) (count_key-ExactAt (key ev) (counts s) n x)) k)

    ingest_all-empty-Exact :
        (es : List (ℕ × TelemetryEvent F))
        → counts empty ≡ []
        → Exact (counts (ingest_all g empty es)) (occurrences es) counter_cap
    unfolding get
    ingest_all-empty-Exact es none_yet k =
        subst
          (λ z.
            ExactAt (get k (counts (ingest_all g empty es))) z
              (length (counts (ingest_all g empty es))) counter_cap)
          (omega arith) (ingest_all-Exact empty es (λ q. 0) (λ q. rw none_yet (inl refl)) k)

module _ {F : Type 0} (g : Grid F) where
  username_step :
      (s : Store F) (now : ℕ) (ev : TelemetryEvent F)
      → (ingest g s now ev).username_counts ≡ count_key s.username_counts (username_of ev)
  unfolding ingest ingest_kind push_recent bump_ip bump_hour bump_geo_point archive_session_start
  username_step s now (session_start e) = refl
  username_step s now _ = refl

  verb_step :
      (s : Store F) (now : ℕ) (ev : TelemetryEvent F)
      → (ingest g s now ev).command_counts ≡ count_key s.command_counts (verb_of ev)
  unfolding ingest ingest_kind push_recent bump_ip bump_hour bump_geo_point archive_session_start
  verb_step s now (session_start e) = refl
  verb_step s now _ = refl

  source_step :
      (s : Store F) (now : ℕ) (ev : TelemetryEvent F)
      → (ingest g s now ev).ip_counts ≡ count_key s.ip_counts (source_of ev)
  unfolding ingest ingest_kind push_recent bump_ip bump_hour bump_geo_point archive_session_start
  source_step s now (session_start e) = refl
  source_step s now _ = refl

  -- The counters of a fresh store that was fed `es`, at one key: what is counted is exact, and
  -- what is not counted never came or came to a full map.
  abbrev pub AllExact : List (ℕ × TelemetryEvent F) → Type 0
  AllExact es =
      Exact (ingest_all g empty es).username_counts (occurrences username_of es) counter_cap
      × Exact (ingest_all g empty es).command_counts (occurrences verb_of es) counter_cap
      × Exact (ingest_all g empty es).ip_counts (occurrences source_of es) counter_cap

  -- Whatever events a fresh store is fed, a username, a command's first word or a source that has
  -- a counter has the exact number of its events, modulo 2 ^ 64; one that has none never came, or
  -- its map holds `COUNTER_CAP` keys.
  pub ingest_all-AllExact : (es : List (ℕ × TelemetryEvent F)) → AllExact es
  unfolding empty
  ingest_all-AllExact es = (
    ingest_all-empty-Exact username_of g (λ s. s.username_counts) username_step es refl,
    ingest_all-empty-Exact verb_of g (λ s. s.command_counts) verb_step es refl,
    ingest_all-empty-Exact source_of g (λ s. s.ip_counts) source_step es refl,
  )
