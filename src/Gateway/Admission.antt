-- ===== src/Gateway/Admission.antt =====
-- crates/aegis-gateway/src/handler.rs, connection admission control: `IpConnectionGuard`.
-- An `Instant` is a number of nanoseconds, handed in where the code reads the clock, and
-- `duration_since` stops at 0 as `-` does. A `u32` sum is taken modulo 2 ^ 32, which is what a
-- release build computes. The lock makes each call one step on the state.
pub mod World
pub mod Window
pub mod Spec
pub mod Invariant
pub mod Limits
mod Tests
use aegis_honeypot.Prelude.{
  ℕ, suc, ◌+◌, ◌-◌, ◌*◌, ◌/◌, ◌%◌, ◌^◌, Bool, true, false, not, ◌&&◌, List, [], ◌∷◌, ◌++◌, Option,
  none, some, ltb, leb, ◌==◌, if◌then◌else◌, length, is_empty, any,
}
use aegis_honeypot.Prelude.HashMap.{HashMap, get, insert, remove, retain, contains_key}
use aegis_honeypot.Net.{IpAddr, v4, v6, ip_eq}

abbrev pub u32_mod : ℕ
u32_mod = 2 ^ 32

-- 60 seconds.
abbrev pub rate_window : ℕ
rate_window = 60_000_000_000

abbrev pub max_tracked_prefixes : ℕ
max_tracked_prefixes = 65_536

-- Octets 8 to 15 are the last four segments.
unfoldable pub admission_key : IpAddr → IpAddr
admission_key (v4 a) = v4 a
admission_key (v6 a) = v6 (record a { s4 = 0; s5 = 0; s6 = 0; s7 = 0 })

pub record IpEntry : Type 0 where
  pub active : ℕ
  pub recent_connects : List ℕ

-- `now.duration_since(t) <= RATE_WINDOW`.
abbrev pub in_window : ℕ → ℕ → Bool
in_window now t = leb (now - t) rate_window

unfoldable pub is_stale : ℕ → IpEntry → Bool
is_stale now e = e.active == 0 && not (any (in_window now) e.recent_connects)

pub record GuardState : Type 0 where
  pub entries : HashMap IpAddr IpEntry
  pub last_sweep : ℕ

pub record IpConnectionGuard : Type 0 where
  pub max_per_ip : ℕ
  pub max_per_minute : ℕ
  pub state : GuardState

unfoldable pub new : ℕ → ℕ → ℕ → IpConnectionGuard
new max_per_ip max_per_minute now = record {
  max_per_ip = max_per_ip;
  max_per_minute = max_per_minute;
  state = record { entries = []; last_sweep = now };
}

-- The sweep runs at most once per window, and on a large table only.
unfoldable pub sweep_is_due : ℕ → GuardState → Bool
sweep_is_due now st =
    leb (max_tracked_prefixes / 2) (length st.entries) && leb rate_window (now - st.last_sweep)

-- The stale-entry sweep of `try_admit`.
unfoldable pub sweep : ℕ → GuardState → GuardState
sweep now st =
    if sweep_is_due now st
    then record { entries = retain (λ e. not (is_stale now e)) st.entries; last_sweep = now }
    else st

-- The `while` loop that drops the expired front of the window.
unfoldable pub prune : ℕ → List ℕ → List ℕ
prune now [] = []
prune now (t ∷ ts) = if ltb rate_window (now - t) then prune now ts else t ∷ ts

-- `entry(key).or_insert_with(…)`.
abbrev pub entry_or_new : Option IpEntry → IpEntry
entry_or_new none = record { active = 0; recent_connects = [] }
entry_or_new (some e) = e

abbrev pub put_entry : IpConnectionGuard → GuardState → IpAddr → IpEntry → IpConnectionGuard
put_entry g st key e = record g { state = record st { entries = insert key e st.entries } }

-- The entry with one more connection, made now.
abbrev pub bumped : ℕ → IpEntry → IpEntry
bumped now e = record {
  active = (e.active + 1) % u32_mod;
  recent_connects = e.recent_connects ++ now ∷ [];
}

-- `try_admit` behind the lookup of the entry, whose window has been pruned.
unfoldable pub admit_entry :
    IpConnectionGuard → GuardState → IpAddr → ℕ → IpEntry → IpConnectionGuard × Bool
admit_entry g st key now e =
    if ltb 0 g.max_per_ip && leb g.max_per_ip e.active
    then (put_entry g st key e, false)
    else if ltb 0 g.max_per_minute && leb g.max_per_minute (length e.recent_connects % u32_mod)
    then (put_entry g st key e, false)
    else (put_entry g st key (bumped now e), true)

abbrev pub pruned : ℕ → IpEntry → IpEntry
pruned now e = record e { recent_connects = prune now e.recent_connects }

-- No room for a key that is not in the table.
abbrev pub is_full : GuardState → IpAddr → Bool
is_full st key = leb max_tracked_prefixes (length st.entries) && not (contains_key key st.entries)

-- `try_admit` behind the sweep.
unfoldable pub admit_swept : IpConnectionGuard → GuardState → IpAddr → ℕ → IpConnectionGuard × Bool
admit_swept g st key now =
    if is_full st key
    then (record g { state = st }, false)
    else admit_entry g st key now (pruned now (entry_or_new (get key st.entries)))

unfoldable pub try_admit : IpConnectionGuard → IpAddr → ℕ → IpConnectionGuard × Bool
try_admit g ip now = admit_swept g (sweep now g.state) (admission_key ip) now

-- `release` once the entry is found; `saturating_sub` is `-`.
unfoldable pub release_entry : IpConnectionGuard → IpAddr → IpEntry → IpConnectionGuard
release_entry g key e =
    let e' : IpEntry = record e { active = e.active - 1 } in
    if e'.active == 0 && is_empty e'.recent_connects
    then record g { state = record g.state { entries = remove key g.state.entries } }
    else put_entry g g.state key e'

abbrev pub release_found : IpConnectionGuard → IpAddr → Option IpEntry → IpConnectionGuard
release_found g key none = g
release_found g key (some e) = release_entry g key e

unfoldable pub release : IpConnectionGuard → IpAddr → IpConnectionGuard
release g ip = release_found g (admission_key ip) (get (admission_key ip) g.state.entries)
