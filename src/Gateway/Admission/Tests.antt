-- ===== src/Gateway/Admission/Tests.antt =====
-- The guard on small histories, and the theorems at concrete inputs.
use aegis_honeypot.Prelude.{ℕ, ◌≤◌, ◌≡◌, refl, true, false, arith, count}
use aegis_honeypot.Prelude.HashMap.{get, insert}
use aegis_honeypot.Net.{IpAddr, Ipv6Addr, v4, ip_beq, ip_eq}
use aegis_honeypot.Gateway.Admission.{
  admission_key, new, sweep, sweep_is_due, prune, admit_entry, admit_swept, try_admit, release,
  release_entry,
}
use aegis_honeypot.Gateway.Admission.World.{
  World, start, connect, disconnect, Reach, here, next, connects, disconnects, window_count,
  active_of,
}
use aegis_honeypot.Gateway.Admission.Limits.{
  held-le-max_per_ip, admitted-le-max_per_minute, active-eq-count, try_admit-spec_admits,
}

program : Unit {0}
unfolding get insert ip_beq admission_key new sweep sweep_is_due prune admit_entry admit_swept
    try_admit release release_entry
program = tt

abbrev host : ℕ → IpAddr
host n = v4 (record { o0 = 198; o1 = 51; o2 = 100; o3 = n })

-- A limit of 2 connections and 3 a minute; host 1 comes twice, and one of the two leaves.
abbrev busy : World
busy = connect (connect (start 2 3 0) (host 1) 5) (host 1) 9

abbrev calmer : World
calmer = disconnect busy (host 1)

third_refused : (try_admit busy.guard (host 1) 10).1 ≡ false
unfolding program
third_refused = refl

freed_again : (try_admit calmer.guard (host 1) 10).1 ≡ true
unfolding program
freed_again = refl

other_admitted : (try_admit busy.guard (host 2) 10).1 ≡ true
unfolding program
other_admitted = refl

busy-Reach : Reach (start 2 3 0) busy
unfolding program
busy-Reach =
    next (next here (connects (host 1) 5 (omega arith) (omega arith)))
      (connects (host 1) 9 (omega arith) (omega arith))

calmer-Reach : Reach (start 2 3 0) calmer
unfolding program
calmer-Reach = next busy-Reach (disconnects (host 1) refl)

held-le-max_per_ip_example : count (host 1) busy.held ≤ 2
held-le-max_per_ip_example = held-le-max_per_ip 2 3 (omega arith) busy-Reach (host 1) (omega arith)

admitted-le-max_per_minute_example : window_count (host 1) 20 calmer.admitted ≤ 3
admitted-le-max_per_minute_example =
    admitted-le-max_per_minute 2 3 (omega arith) calmer-Reach (host 1) 20 (omega arith)
      (omega arith)

active-eq-count_example : active_of (get (host 1) calmer.guard.state.entries) ≡ 1
unfolding program
active-eq-count_example = active-eq-count 2 3 (omega arith) calmer-Reach (host 1)

try_admit-spec_admits_example : (try_admit busy.guard (host 1) 10).1 ≡ false
unfolding program
try_admit-spec_admits_example =
    try_admit-spec_admits 2 3 (omega arith) busy-Reach (host 1) 10 (omega arith)

abbrev lan : ℕ → Ipv6Addr
lan n = record { s0 = 0x2001; s1 = 0xdb8; s2 = 1; s3 = 2; s4 = 0; s5 = 0; s6 = 0; s7 = n }
