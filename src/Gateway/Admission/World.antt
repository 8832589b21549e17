-- ===== src/Gateway/Admission/World.antt =====
-- The guard under its callers: connections that come, are admitted or refused, and go.
use aegis_honeypot.Prelude.{
  ℕ, ◌-◌, ◌≤◌, ◌<◌, ◌≡◌, Bool, true, List, [], ◌∷◌, ◌++◌, Option, none, some, if◌then◌else◌, length,
  filter, contains, erase,
}
use aegis_honeypot.Net.{IpAddr, ip_eq}
use aegis_honeypot.Gateway.Admission.{
  IpEntry, IpConnectionGuard, u32_mod, in_window, admission_key, new, try_admit, release,
}

-- The guard, the keys of the connections that are open, and the key and time of every admission,
-- oldest first.
pub record World : Type 0 where
  pub guard : IpConnectionGuard
  pub held : List IpAddr
  pub admitted : List (IpAddr × ℕ)
  pub clock : ℕ

abbrev pub start : ℕ → ℕ → ℕ → World
start max_per_ip max_per_minute now = record {
  guard = new max_per_ip max_per_minute now;
  held = [];
  admitted = [];
  clock = now;
}

-- What becomes of a connection from `ip` at `now` once the guard has answered.
abbrev pub connected : World → IpAddr → ℕ → IpConnectionGuard × Bool → World
connected w ip now r = record {
  guard = r.0;
  held = if r.1 then admission_key ip ∷ w.held else w.held;
  admitted = if r.1 then w.admitted ++ (admission_key ip, now) ∷ [] else w.admitted;
  clock = now;
}

-- What `new_client` does with a connection from `ip` at `now`.
abbrev pub connect : World → IpAddr → ℕ → World
connect w ip now = connected w ip now (try_admit w.guard ip now)

-- What happens when a session from `ip` is dropped.
abbrev pub disconnect : World → IpAddr → World
disconnect w ip = record w { guard = release w.guard ip; held = erase (admission_key ip) w.held }

-- The clock does not run backwards, fewer than 2 ^ 32 - 1 connections are open at a time, and only
-- an open connection is released.
pub data Step (w : World) : World → Type 0 where
  connects :
      (ip : IpAddr) (now : ℕ)
      → w.clock ≤ now
      → length w.held < u32_mod - 1
      → Step w (connect w ip now)
  disconnects : (ip : IpAddr) → contains w.held (admission_key ip) ≡ true → Step w (disconnect w ip)

pub data Reach (w : World) : World → Type 0 where
  here : Reach w w
  next : {u v : World} → Reach w u → Step u v → Reach w v

abbrev pub active_of : Option IpEntry → ℕ
active_of none = 0
active_of (some e) = e.active

abbrev pub recents_of : Option IpEntry → List ℕ
recents_of none = []
recents_of (some e) = e.recent_connects

-- When connections with this key were admitted.
abbrev pub times_of : IpAddr → List (IpAddr × ℕ) → List ℕ
times_of k [] = []
times_of k ((j, t) ∷ l) = if ip_eq.beq j k then t ∷ times_of k l else times_of k l

-- How many of them fall in the window that ends at `now`.
abbrev pub window_count : IpAddr → ℕ → List (IpAddr × ℕ) → ℕ
window_count k now l = length (filter (in_window now) (times_of k l))
