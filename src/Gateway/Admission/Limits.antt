-- ===== src/Gateway/Admission/Limits.antt =====
-- What `try_admit` and `release` promise over any history of connections.
use aegis_honeypot.Prelude.{ℕ, ◌≤◌, ◌<◌, ◌≡◌, ◌↔◌, Bool, not, ◌&&◌, arith, length, count}
use aegis_honeypot.Prelude.HashMap.{get}
use aegis_honeypot.Net.{IpAddr, Ipv4Addr, Ipv6Addr, v4, v6, ip_eq}
use aegis_honeypot.Gateway.Admission.{
  IpConnectionGuard, u32_mod, max_tracked_prefixes, is_full, admission_key, sweep, try_admit,
}
use aegis_honeypot.Gateway.Admission.World.{World, start, Reach, window_count, active_of}
use aegis_honeypot.Gateway.Admission.Spec.{spec_admits}
use aegis_honeypot.Gateway.Admission.Invariant.{
  Inv, Outcome, full, limited, admitted, Reach-Inv, try_admit-Outcome,
}

answer :
    {mpi mpm : ℕ} {w : World} {ip : IpAddr} {n : ℕ} {o : IpConnectionGuard × Bool}
    → Inv mpi mpm w
    → Outcome w.guard w.held w.admitted ip n o
    → o.1 ≡ (
        not (is_full (sweep n w.guard.state) (admission_key ip))
        && spec_admits mpi mpm w.held w.admitted (admission_key ip) n)
answer inv (full f e) = ground arith
answer inv (limited f s e) = ground arith
answer inv (admitted f s e) = ground arith

module _ (max_per_ip max_per_minute : ℕ) {now : ℕ} {w : World} (small : max_per_minute < u32_mod)
    (r : Reach (start max_per_ip max_per_minute now) w) where
  -- However connections come and go, no key ever has more than `max_per_ip` of them open, if that
  -- limit is on.
  pub held-le-max_per_ip : (k : IpAddr) → 0 < max_per_ip → count k w.held ≤ max_per_ip
  held-le-max_per_ip = (Reach-Inv small r).capped

  -- However connections come and go, no key is ever admitted more than `max_per_minute` times
  -- within one window of 60 seconds that ends now or later, if that limit is on.
  pub admitted-le-max_per_minute :
      (k : IpAddr) (n : ℕ)
      → w.clock ≤ n
      → 0 < max_per_minute
      → window_count k n w.admitted ≤ max_per_minute
  admitted-le-max_per_minute = (Reach-Inv small r).rated

  -- The `active` counter of a key, 0 where the key has no entry, is the number of its open
  -- connections: none leaks, and neither a sweep nor a removal forgets one.
  pub active-eq-count : (k : IpAddr) → active_of (get k w.guard.state.entries) ≡ count k w.held
  active-eq-count k = ((Reach-Inv small r).agrees.tracks k).active

  -- The table never holds more than `MAX_TRACKED_PREFIXES` entries.
  entries-le-max_tracked_prefixes : length w.guard.state.entries ≤ max_tracked_prefixes
  entries-le-max_tracked_prefixes = (Reach-Inv small r).agrees.bounded

  -- `try_admit` answers yes exactly when the swept table has room for the key, fewer than
  -- `max_per_ip` connections with it are open, and fewer than `max_per_minute` were admitted in
  -- the last 60 seconds, each limit only where it is on.
  pub try_admit-spec_admits :
      (ip : IpAddr) (n : ℕ)
      → w.clock ≤ n
      → (try_admit w.guard ip n).1 ≡ (
          not (is_full (sweep n w.guard.state) (admission_key ip))
          && spec_admits max_per_ip max_per_minute w.held w.admitted (admission_key ip) n)
  try_admit-spec_admits ip n le =
      answer (Reach-Inv small r) (try_admit-Outcome small (Reach-Inv small r) ip n le)

v6_key_iff :
    (a b : Ipv6Addr)
    → (admission_key (v6 a) ≡ admission_key (v6 b))
      ↔ ((a.s0 ≡ b.s0) × (a.s1 ≡ b.s1) × (a.s2 ≡ b.s2) × (a.s3 ≡ b.s3))
unfolding admission_key
v6_key_iff a b = ground arith

v4_key : (c : Ipv4Addr) (ip : IpAddr) → admission_key (v4 c) ≡ admission_key ip → ip ≡ v4 c
unfolding admission_key
v4_key c (v4 d) e = ground arith
v4_key c (v6 d) e = ground arith

-- Two IPv6 sources share a budget exactly when they agree on their first 64 bits, and an IPv4
-- source shares its budget with no other address.
admission_key_iff :
    (a b : Ipv6Addr) (c : Ipv4Addr) (ip : IpAddr)
    → ((admission_key (v6 a) ≡ admission_key (v6 b))
        ↔ ((a.s0 ≡ b.s0) × (a.s1 ≡ b.s1) × (a.s2 ≡ b.s2) × (a.s3 ≡ b.s3)))
      × (admission_key (v4 c) ≡ admission_key ip → ip ≡ v4 c)
admission_key_iff a b c ip = (v6_key_iff a b, v4_key c ip)
