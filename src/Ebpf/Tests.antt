-- ===== src/Ebpf/Tests.antt =====
-- A connection to 203.0.113.9:443, seen from the memory of the process to the telemetry event.
use aegis_honeypot.Prelude.{
  ℕ, ◌+◌, ◌*◌, ◌/◌, ◌%◌, ◌^◌, ◌≡◌, refl, true, [], ◌∷◌, none, some, arith, nat_eq,
}
use aegis_honeypot.Prelude.HashMap.{HashMap, get}
use aegis_honeypot.Prelude.Text.{codes, split}
use aegis_honeypot.Net.{v4}
use aegis_honeypot.Common.{SessionId, syscall_connect}
use aegis_honeypot.Ebpf.{Loader, sent, dispatch_kernel_event, drain, unspecified, or_unknown}
use aegis_honeypot.Ebpf.Probes.{SockaddrBytes, Context, Kernel, try_execve, try_connect, try_memfd}
use aegis_honeypot.Ebpf.Wire.{newest, outcome_of, try_connect-dispatch_kernel_event}

program : Unit {0}
unfolding get split dispatch_kernel_event drain try_execve try_connect try_memfd
program = tt

abbrev bytes : SockaddrBytes
bytes = record { f0 = 2; f1 = 0; p0 = 1; p1 = 187; a0 = 203; a1 = 0; a2 = 113; a3 = 9 }

abbrev ctx : Context
ctx = record {
  low_first = true;
  read_at = λ offset. some 4_096;
  read_word = λ p. none;
  read_sockaddr = λ p. some bytes;
  read_str = λ p n. [];
  pid_tgid = 7 * 2 ^ 32 + 7;
  uid_gid = 0;
  has_room = true;
}

abbrev loader : Loader
loader = record { from_utf8 = λ bs. some bs; now = 1_000; low_first = true; is_open = true }

abbrev kernel : Kernel
kernel = record { ring = []; dropped = 0 }

abbrev session_map : HashMap ℕ SessionId
session_map = (7, codes "abc") ∷ []

try_connect-dispatch_kernel_event_example :
    outcome_of {F = ℕ} loader session_map (newest (try_connect ctx kernel).ring)
    ≡ some (
        sent (
          syscall_connect (record {
            timestamp = 1_000;
            session_id = or_unknown (get 0 session_map);
            ip = v4 unspecified;
            pid = (7 * 2 ^ 32 + 7) / 2 ^ 32 % 2 ^ 32;
            dest_ip = v4 (record { o0 = 203; o1 = 0; o2 = 113; o3 = 9 });
            dest_port = 1 * 256 + 187;
          })))
try_connect-dispatch_kernel_event_example =
    try_connect-dispatch_kernel_event ctx loader session_map kernel 4_096 bytes refl refl refl refl
      refl refl refl
      (record {
        p0_byte = omega arith;
        p1_byte = omega arith;
        a0_byte = omega arith;
        a1_byte = omega arith;
        a2_byte = omega arith;
        a3_byte = omega arith;
      })

-- The session of the process is in the map, and the event is of no session all the same.
session_lost : or_unknown (get 0 session_map) ≡ codes "unknown"
unfolding program
session_lost = refl
