-- ===== src/Ebpf.antt =====
-- crates/aegis-ebpf/src/lib.rs and crates/aegis-common/src/lib.rs: the events of the kernel probes and
-- what the loader makes of them. The order of bytes of the machine is a parameter, `true` where the
-- low byte comes first.
pub mod Probes
pub mod Wire
mod Tests
use aegis_honeypot.Prelude.{
  ℕ, ◌+◌, ◌*◌, ◌/◌, ◌%◌, ◌==◌, ltb, Bool, true, false, not, List, [], ◌∷◌, Option, none, some,
  if◌then◌else◌, filter, is_empty, nat_eq,
}
use aegis_honeypot.Prelude.HashMap.{HashMap, get}
use aegis_honeypot.Prelude.Text.{Text, codes, split}
use aegis_honeypot.Net.{Ipv4Addr, v4}
use aegis_honeypot.Common.{
  SessionId, TelemetryEvent, syscall_execve, syscall_connect, syscall_memfd_create,
}

-- `KernelEventType`.
abbrev pub execve : ℕ
execve = 1

abbrev pub connect : ℕ
connect = 2

abbrev pub memfd_create : ℕ
memfd_create = 3

pub record KernelEvent : Type 0 where
  pub event_type : ℕ
  pub pid : ℕ
  pub ppid : ℕ
  pub uid : ℕ
  pub ns_pid : ℕ
  pub dest_ip : ℕ
  pub dest_port : ℕ
  pub filename : List ℕ
  pub argv : List ℕ

-- `size_of::<KernelEvent>()`.
abbrev pub kernel_event_size : ℕ
kernel_event_size = 412

-- `u16::from_be` and `u32::from_be`.
abbrev pub from_be16 : Bool → ℕ → ℕ
from_be16 low_first n = if low_first then n % 256 * 256 + n / 256 else n

abbrev pub from_be32 : Bool → ℕ → ℕ
from_be32 low_first n =
    if low_first
    then n % 256 * 16_777_216 + n / 256 % 256 * 65_536 + n / 65_536 % 256 * 256 + n / 16_777_216
    else n

-- `Ipv4Addr::from(u32)`.
abbrev pub ipv4_of : ℕ → Ipv4Addr
ipv4_of n = record { o0 = n / 16_777_216; o1 = n / 65_536 % 256; o2 = n / 256 % 256; o3 = n % 256 }

-- The bytes before the first zero.
abbrev pub until_zero : List ℕ → List ℕ
until_zero [] = []
until_zero (b ∷ bytes) = let rest = until_zero bytes in if b == 0 then [] else b ∷ rest

abbrev or_invalid : Option Text → Text
or_invalid none = codes "<invalid>"
or_invalid (some s) = s

abbrev pub or_unknown : Option SessionId → SessionId
or_unknown none = codes "unknown"
or_unknown (some id) = id

-- What `dispatch_kernel_event` ended with.
pub data Outcome (F : Type 0) : Type 0 where
  sent : TelemetryEvent F → Outcome F
  ignored channel_closed : Outcome F

abbrev pub unspecified : Ipv4Addr
unspecified = record { o0 = 0; o1 = 0; o2 = 0; o3 = 0 }

-- The library's decoder of UTF-8, the clock, the byte order and whether the channel is open.
pub record Loader : Type 0 where
  pub from_utf8 : List ℕ → Option Text
  pub now : ℕ
  pub low_first : Bool
  pub is_open : Bool

module _ (l : Loader) where
  abbrev pub text_of : List ℕ → Text
  text_of bytes = or_invalid (l.from_utf8 (until_zero bytes))

  abbrev pub filename_str : KernelEvent → Text
  filename_str ke = text_of ke.filename

  abbrev pub argv_str : KernelEvent → Text
  argv_str ke = text_of ke.argv

  abbrev pub dest_ip_addr : KernelEvent → Ipv4Addr
  dest_ip_addr ke = ipv4_of (from_be32 l.low_first ke.dest_ip)

  module _ {F : Type 0} where
    abbrev execve_event : SessionId → KernelEvent → TelemetryEvent F
    execve_event id ke = syscall_execve (record {
      timestamp = l.now;
      session_id = id;
      ip = v4 unspecified;
      pid = ke.pid;
      filename = filename_str ke;
      argv = filter (λ s. not (is_empty s)) (split 32 (argv_str ke));
    })

    abbrev pub connect_event : SessionId → KernelEvent → TelemetryEvent F
    connect_event id ke = syscall_connect (record {
      timestamp = l.now;
      session_id = id;
      ip = v4 unspecified;
      pid = ke.pid;
      dest_ip = v4 (dest_ip_addr ke);
      dest_port = from_be16 l.low_first ke.dest_port;
    })

    abbrev memfd_event : SessionId → KernelEvent → TelemetryEvent F
    memfd_event id ke = syscall_memfd_create (record {
      timestamp = l.now;
      session_id = id;
      ip = v4 unspecified;
      pid = ke.pid;
      name = filename_str ke;
    })

    abbrev send : TelemetryEvent F → Outcome F
    send e = if l.is_open then sent e else channel_closed

    unfoldable pub dispatch_kernel_event : HashMap ℕ SessionId → KernelEvent → Outcome F
    unfolding get split
    dispatch_kernel_event session_map ke =
        let id = or_unknown (get ke.ns_pid session_map) in
        if ke.event_type == execve
        then send (execve_event id ke)
        else if ke.event_type == connect
        then send (connect_event id ke)
        else if ke.event_type == memfd_create
        then send (memfd_event id ke)
        else ignored

    -- The items of the ring buffer in turn, each with its length: short ones are skipped, and an
    -- error does not end the loop.
    unfoldable pub drain : HashMap ℕ SessionId → List (ℕ × KernelEvent) → List (Outcome F)
    unfolding dispatch_kernel_event
    drain session_map [] = []
    drain session_map ((len, ke) ∷ items) =
        let rest = drain session_map items in
        if ltb len kernel_event_size then rest else dispatch_kernel_event session_map ke ∷ rest
