-- ===== src/Ebpf/Wire.antt =====
-- What a process connects to, from its memory through the kernel probe to the telemetry event.
use aegis_honeypot.Prelude.{
  ℕ, ◌+◌, ◌*◌, ◌/◌, ◌%◌, ◌^◌, ◌<◌, ◌≡◌, refl, sym, ap, ◌∙◌, Bool, true, false, List, [], ◌∷◌,
  Option, none, some, arith, nat_eq, ◌==◌,
}
use aegis_honeypot.Prelude.HashMap.{HashMap, get}
use aegis_honeypot.Net.{v4}
use aegis_honeypot.Common.{SessionId, syscall_connect}
use aegis_honeypot.Ebpf.{
  KernelEvent, Loader, Outcome, sent, dispatch_kernel_event, from_be16, from_be32, ipv4_of,
  unspecified, or_unknown,
}
use aegis_honeypot.Ebpf.Probes.{SockaddrBytes, Context, Kernel, word16, word32, try_connect}

-- Every byte is one.
pub record IsBytes (b : SockaddrBytes) : Type 0 where
  pub p0_byte : b.p0 < 256
  pub p1_byte : b.p1 < 256
  pub a0_byte : b.a0 < 256
  pub a1_byte : b.a1 < 256
  pub a2_byte : b.a2 < 256
  pub a3_byte : b.a3 < 256

from_be16-word16 :
    (low_first : Bool) (b0 b1 : ℕ)
    → b0 < 256
    → b1 < 256
    → from_be16 low_first (word16 low_first b0 b1) ≡ b0 * 256 + b1
from_be16-word16 true b0 b1 h0 h1 = omega arith
from_be16-word16 false b0 b1 h0 h1 = refl

from_be32-word32 :
    (low_first : Bool) (b0 b1 b2 b3 : ℕ)
    → b0 < 256
    → b1 < 256
    → b2 < 256
    → b3 < 256
    → from_be32 low_first (word32 low_first b0 b1 b2 b3)
      ≡ b0 * 16_777_216 + b1 * 65_536 + b2 * 256 + b3
from_be32-word32 true b0 b1 b2 b3 h0 h1 h2 h3 = omega arith
from_be32-word32 false b0 b1 b2 b3 h0 h1 h2 h3 = refl

ipv4_of-octets :
    (b0 b1 b2 b3 : ℕ)
    → b0 < 256
    → b1 < 256
    → b2 < 256
    → b3 < 256
    → ipv4_of (b0 * 16_777_216 + b1 * 65_536 + b2 * 256 + b3)
      ≡ record { o0 = b0; o1 = b1; o2 = b2; o3 = b3 }
ipv4_of-octets b0 b1 b2 b3 h0 h1 h2 h3 =
    let n : ℕ = b0 * 16_777_216 + b1 * 65_536 + b2 * 256 + b3 in
    let e0 : n / 16_777_216 ≡ b0 = omega arith in
    let e1 : n / 65_536 % 256 ≡ b1 = omega arith in
    let e2 : n / 256 % 256 ≡ b2 = omega arith in
    let e3 : n % 256 ≡ b3 = omega arith in rw e0 (rw e1 (rw e2 (rw e3 refl)))

connect_lem :
    (low_first : Bool) (b0 b1 b2 b3 : ℕ)
    → b0 < 256
    → b1 < 256
    → b2 < 256
    → b3 < 256
    → ipv4_of (from_be32 low_first (word32 low_first b0 b1 b2 b3))
      ≡ record { o0 = b0; o1 = b1; o2 = b2; o3 = b3 }
connect_lem low_first b0 b1 b2 b3 h0 h1 h2 h3 =
    ap ipv4_of (from_be32-word32 low_first b0 b1 b2 b3 h0 h1 h2 h3)
    ∙ ipv4_of-octets b0 b1 b2 b3 h0 h1 h2 h3

-- The newest event of a ring buffer, `none` where it is empty.
abbrev pub newest : List KernelEvent → Option KernelEvent
newest [] = none
newest (e ∷ es) = some e

abbrev pub outcome_of :
    {F : Type 0} → Loader → HashMap ℕ SessionId → Option KernelEvent → Option (Outcome F)
outcome_of l session_map none = none
outcome_of l session_map (some e) = some (dispatch_kernel_event l session_map e)

-- A process that connects to an address of IPv4 is reported with that address and port: their bytes
-- stand in its memory in network order, and probe and loader read them in the order of the machine,
-- whichever it is, when both agree on it, the ring buffer has room and the channel is open. The
-- session is the one that the map holds for process 0, since no probe sets the process of the
-- namespace, and "unknown" without such an entry.
pub try_connect-dispatch_kernel_event :
    {F : Type 0} (ctx : Context) (l : Loader) (session_map : HashMap ℕ SessionId) (k : Kernel)
    (p : ℕ) (b : SockaddrBytes)
    → ctx.low_first ≡ l.low_first
    → ctx.has_room ≡ true
    → l.is_open ≡ true
    → ctx.read_at 16 ≡ some p
    → (p == 0) ≡ false
    → ctx.read_sockaddr p ≡ some b
    → word16 ctx.low_first b.f0 b.f1 ≡ 2
    → IsBytes b
    → outcome_of {F = F} l session_map (newest (try_connect ctx k).ring)
      ≡ some (
          sent (
            syscall_connect (record {
              timestamp = l.now;
              session_id = or_unknown (get 0 session_map);
              ip = v4 unspecified;
              pid = ctx.pid_tgid / 2 ^ 32 % 2 ^ 32;
              dest_ip = v4 (record { o0 = b.a0; o1 = b.a1; o2 = b.a2; o3 = b.a3 });
              dest_port = b.p0 * 256 + b.p1;
            })))
unfolding try_connect dispatch_kernel_event
try_connect-dispatch_kernel_event ctx l session_map k p b order room open_ at there mem family
      bytes =
    rw at (
      rw there (
        rw mem (
          rw family (
            rw room (
              rw open_ (
                rw (sym order) (
                  rw
                    (connect_lem ctx.low_first b.a0 b.a1 b.a2 b.a3 bytes.a0_byte bytes.a1_byte
                      bytes.a2_byte bytes.a3_byte)
                    (rw (from_be16-word16 ctx.low_first b.p0 b.p1 bytes.p0_byte bytes.p1_byte)
                      refl))))))))
