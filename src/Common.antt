-- ===== src/Common.antt =====
-- crates/aegis-common/src/lib.rs: the telemetry events that every crate shares. A time is a number
-- of seconds since 1970, a floating-point number is a type parameter.
use aegis_honeypot.Prelude.{ℕ, List, Option, some}
use aegis_honeypot.Prelude.Text.{Text}
use aegis_honeypot.Net.{IpAddr}

-- `SessionId` is a text.
abbrev pub SessionId : Type 0
SessionId = Text

pub record GeoIpInfo (F : Type 0) : Type 0 where
  pub country : Option Text
  pub city : Option Text
  pub asn : Option Text
  pub lat : Option F
  pub lon : Option F

pub record SessionStartEvent (F : Type 0) : Type 0 where
  pub timestamp : ℕ
  pub session_id : SessionId
  pub ip : IpAddr
  pub port : ℕ
  pub geo : Option (GeoIpInfo F)

pub record SessionEndEvent (F : Type 0) : Type 0 where
  pub timestamp : ℕ
  pub session_id : SessionId
  pub ip : IpAddr
  pub duration_secs : F

pub data AuthMethod : Type 0 where
  password public_key : AuthMethod

pub record CredentialHarvestEvent : Type 0 where
  pub timestamp : ℕ
  pub session_id : SessionId
  pub ip : IpAddr
  pub username : Text
  pub password : Option Text
  pub auth_method : AuthMethod

pub record CommandRunEvent : Type 0 where
  pub timestamp : ℕ
  pub session_id : SessionId
  pub ip : IpAddr
  pub command : Text

pub record SyscallExecveEvent : Type 0 where
  pub timestamp : ℕ
  pub session_id : SessionId
  pub ip : IpAddr
  pub pid : ℕ
  pub filename : Text
  pub argv : List Text

pub record SyscallConnectEvent : Type 0 where
  pub timestamp : ℕ
  pub session_id : SessionId
  pub ip : IpAddr
  pub pid : ℕ
  pub dest_ip : IpAddr
  pub dest_port : ℕ

pub record SyscallMemfdCreateEvent : Type 0 where
  pub timestamp : ℕ
  pub session_id : SessionId
  pub ip : IpAddr
  pub pid : ℕ
  pub name : Text

pub data PayloadFileType : Type 0 where
  elf shell pe unknown : PayloadFileType

pub record IocFindings : Type 0 where
  pub strings_preview : List Text
  pub ip_addresses : List Text
  pub urls : List Text
  pub base64_blobs : List Text
  pub monero_wallets : List Text

pub record PayloadCapturedEvent : Type 0 where
  pub timestamp : ℕ
  pub session_id : SessionId
  pub ip : IpAddr
  pub source_url : Option Text
  pub sha256 : Text
  pub size_bytes : ℕ
  pub quarantine_path : Text
  pub file_type : PayloadFileType
  pub iocs : IocFindings

pub data TelemetryEvent (F : Type 0) : Type 0 where
  session_start : SessionStartEvent F → TelemetryEvent F
  session_end : SessionEndEvent F → TelemetryEvent F
  credential_harvest : CredentialHarvestEvent → TelemetryEvent F
  command_run : CommandRunEvent → TelemetryEvent F
  syscall_execve : SyscallExecveEvent → TelemetryEvent F
  syscall_connect : SyscallConnectEvent → TelemetryEvent F
  syscall_memfd_create : SyscallMemfdCreateEvent → TelemetryEvent F
  payload_captured : PayloadCapturedEvent → TelemetryEvent F

-- `TelemetryEvent::session_id`, which is `Some` of this for every event.
unfoldable pub session_id : {F : Type 0} → TelemetryEvent F → Option SessionId
session_id (session_start e) = some e.session_id
session_id (session_end e) = some e.session_id
session_id (credential_harvest e) = some e.session_id
session_id (command_run e) = some e.session_id
session_id (syscall_execve e) = some e.session_id
session_id (syscall_connect e) = some e.session_id
session_id (syscall_memfd_create e) = some e.session_id
session_id (payload_captured e) = some e.session_id
