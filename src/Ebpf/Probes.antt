-- ===== src/Ebpf/Probes.antt =====
-- crates/aegis-ebpf/ebpf/src/main.rs: the probes that run in the kernel. What the helper calls answer is
-- a parameter.
use aegis_honeypot.Prelude.{
  ℕ, ◌+◌, ◌*◌, ◌/◌, ◌%◌, ◌^◌, ◌==◌, Bool, List, ◌∷◌, Option, none, some, if◌then◌else◌, repeat,
}
use aegis_honeypot.Ebpf.{KernelEvent, execve, connect, memfd_create}

-- The first eight bytes of a `sockaddr_in`, as they stand in memory.
pub record SockaddrBytes : Type 0 where
  pub f0 : ℕ
  pub f1 : ℕ
  pub p0 : ℕ
  pub p1 : ℕ
  pub a0 : ℕ
  pub a1 : ℕ
  pub a2 : ℕ
  pub a3 : ℕ

pub record SockaddrIn : Type 0 where
  pub sin_family : ℕ
  pub sin_port : ℕ
  pub sin_addr : ℕ

-- A number of two or four bytes in memory, in the order of the machine.
abbrev pub word16 : Bool → ℕ → ℕ → ℕ
word16 low_first b0 b1 = if low_first then b0 + b1 * 256 else b0 * 256 + b1

abbrev pub word32 : Bool → ℕ → ℕ → ℕ → ℕ → ℕ
word32 low_first b0 b1 b2 b3 =
    if low_first
    then b0 + b1 * 256 + b2 * 65_536 + b3 * 16_777_216
    else b0 * 16_777_216 + b1 * 65_536 + b2 * 256 + b3

abbrev pub sockaddr_of : Bool → SockaddrBytes → SockaddrIn
sockaddr_of low_first b = record {
  sin_family = word16 low_first b.f0 b.f1;
  sin_port = word16 low_first b.p0 b.p1;
  sin_addr = word32 low_first b.a0 b.a1 b.a2 b.a3;
}

-- The context of a call and the helpers: `read_at` an offset of the tracepoint's record, the words,
-- the addresses and the strings of user memory, and whether the ring buffer has room. A string is
-- what the helper leaves in a buffer of the given size.
pub record Context : Type 0 where
  pub low_first : Bool
  pub read_at : ℕ → Option ℕ
  pub read_word : ℕ → Option ℕ
  pub read_sockaddr : ℕ → Option SockaddrBytes
  pub read_str : ℕ → ℕ → List ℕ
  pub pid_tgid : ℕ
  pub uid_gid : ℕ
  pub has_room : Bool

-- The ring buffer, newest first, and the counter of dropped events.
pub record Kernel : Type 0 where
  pub ring : List KernelEvent
  pub dropped : ℕ

-- `note_drop`.
abbrev pub note_drop : Kernel → Kernel
note_drop k = record k { dropped = (k.dropped + 1) % 2 ^ 64 }

module _ (ctx : Context) where
  -- The event of a probe before its own fields are set.
  abbrev pub blank : ℕ → KernelEvent
  blank event_type = record {
    event_type = event_type;
    pid = ctx.pid_tgid / 2 ^ 32 % 2 ^ 32;
    ppid = 0;
    uid = ctx.uid_gid % 2 ^ 32;
    ns_pid = 0;
    dest_ip = 0;
    dest_port = 0;
    filename = repeat 128 0;
    argv = repeat 256 0;
  }

  -- `reserve` and `submit`.
  abbrev pub submit : KernelEvent → Kernel → Kernel
  submit event k = if ctx.has_room then record k { ring = event ∷ k.ring } else note_drop k

  abbrev with_arg0 : ℕ → KernelEvent → KernelEvent
  with_arg0 p event = if p == 0 then event else record event { argv = ctx.read_str p 256 }

  abbrev execve_arg0 : KernelEvent → Option ℕ → Kernel → Kernel
  execve_arg0 event none k = k
  execve_arg0 event (some p) k = submit (with_arg0 p event) k

  abbrev execve_argv : KernelEvent → Option ℕ → Kernel → Kernel
  execve_argv event none k = k
  execve_argv event (some p) k = execve_arg0 event (ctx.read_word p) k

  abbrev execve_filename : Option ℕ → Kernel → Kernel
  execve_filename none k = k
  execve_filename (some p) k =
      execve_argv (record (blank execve) { filename = ctx.read_str p 128 }) (ctx.read_at 16) k

  unfoldable pub try_execve : Kernel → Kernel
  try_execve k = execve_filename (ctx.read_at 8) k

  abbrev connect_ipv4 : SockaddrIn → Kernel → Kernel
  connect_ipv4 sa k =
      if sa.sin_family == 2
      then submit (record (blank connect) { dest_ip = sa.sin_addr; dest_port = sa.sin_port }) k
      else k

  abbrev connect_sockaddr : Option SockaddrBytes → Kernel → Kernel
  connect_sockaddr none k = k
  connect_sockaddr (some b) k = connect_ipv4 (sockaddr_of ctx.low_first b) k

  abbrev connect_pointer : Option ℕ → Kernel → Kernel
  connect_pointer none k = k
  connect_pointer (some p) k = if p == 0 then k else connect_sockaddr (ctx.read_sockaddr p) k

  unfoldable pub try_connect : Kernel → Kernel
  try_connect k = connect_pointer (ctx.read_at 16) k

  abbrev memfd_name : Option ℕ → Kernel → Kernel
  memfd_name none k = k
  memfd_name (some p) k = submit (record (blank memfd_create) { filename = ctx.read_str p 128 }) k

  unfoldable pub try_memfd : Kernel → Kernel
  try_memfd k = memfd_name (ctx.read_at 8) k
