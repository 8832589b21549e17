-- ===== src/Gateway/Server.antt =====
-- crates/aegis-gateway/src/handler.rs: `AegisServer::new_client`, which admits a connection or turns it
-- away, the handler that stands for either, and the end of a session. The sandbox, the recorder and
-- the session id are parameters. The semaphore is its number of free permits.
pub mod Slots
mod Tests
use aegis_honeypot.Prelude.{
  ℕ, zero, suc, ◌+◌, ◌-◌, Bool, true, false, List, [], ◌∷◌, Option, none, some, if◌then◌else◌,
}
use aegis_honeypot.Prelude.Text.{Text}
use aegis_honeypot.Net.{IpAddr, v4}
use aegis_honeypot.Gateway.Admission.{IpConnectionGuard, try_admit, release}
use aegis_honeypot.Gateway.Egress.{SocketAddr}
use aegis_honeypot.Gateway.Session.{SessionMeta, ActiveSession, Env, Flow, next, stop, failed}
use aegis_honeypot.Gateway.Session.Handler.{Call, handle, fresh}

pub record AegisServer : Type 0 where
  pub ip_guard : IpConnectionGuard
  pub session_semaphore : ℕ

pub data SessionHandler (A : Type 0) : Type 0 where
  active : A → SessionHandler A
  rejected : SessionHandler A

-- What `new_client` calls on: `provision` is the recorder and the sandbox of a session, `none`
-- where the recorder cannot be opened, and `vfs` the file system on the sandbox's mount.
pub record Provider (V B : Type 0) : Type 0 where
  pub session_id : ℕ → Text
  pub provision : SessionMeta → Option (Option B)
  pub vfs : Option B → V

-- `0.0.0.0:0` stands for an address that is not known.
abbrev pub peer_or_default : Option SocketAddr → SocketAddr
peer_or_default (some addr) = addr
peer_or_default none = record { ip = v4 (record { o0 = 0; o1 = 0; o2 = 0; o3 = 0 }); port = 0 }

-- `ip_guard.release(ip)` on the server's guard.
abbrev pub release_ip : AegisServer → IpAddr → AegisServer
release_ip server ip = record server { ip_guard = release server.ip_guard ip }

abbrev pub meta_of : {V B : Type 0} → Provider V B → SocketAddr → ℕ → SessionMeta
meta_of provider addr now = record {
  session_id = provider.session_id now;
  client_ip = addr.ip;
  client_port = addr.port;
}

module _ {F V B : Type 0} (provider : Provider V B) where
  -- Behind the permit: an error gives both the permit and the slot back.
  abbrev pub provisioned :
      AegisServer
      → SessionMeta
      → Option (Option B)
      → AegisServer × SessionHandler (ActiveSession F V B)
  provisioned server meta (some sandbox) =
      (server, active (fresh meta (provider.vfs sandbox) sandbox))
  provisioned server meta none = (
    release_ip (record server { session_semaphore = server.session_semaphore + 1 }) meta.client_ip,
    rejected,
  )

  -- Behind the guard: `try_acquire_owned`.
  abbrev pub acquire :
      AegisServer → SocketAddr → ℕ → ℕ → AegisServer × SessionHandler (ActiveSession F V B)
  acquire server addr now zero = (release_ip server addr.ip, rejected)
  acquire server addr now (suc permits) =
      provisioned (record server { session_semaphore = permits }) (meta_of provider addr now)
        (provider.provision (meta_of provider addr now))

  abbrev pub guarded :
      AegisServer
      → SocketAddr
      → ℕ
      → IpConnectionGuard × Bool
      → AegisServer × SessionHandler (ActiveSession F V B)
  guarded server addr now (guard, true) =
      acquire (record server { ip_guard = guard }) addr now server.session_semaphore
  guarded server addr now (guard, false) = (record server { ip_guard = guard }, rejected)

  unfoldable pub new_client :
      AegisServer → Option SocketAddr → ℕ → AegisServer × SessionHandler (ActiveSession F V B)
  new_client server peer now =
      guarded server (peer_or_default peer) now
        (try_admit server.ip_guard (peer_or_default peer).ip now)

-- `drop` of a session: its slot is released, and its permit goes back to the semaphore.
unfoldable pub drop_session : {F V B : Type 0} → AegisServer → ActiveSession F V B → AegisServer
drop_session server s =
    release_ip (record server { session_semaphore = server.session_semaphore + 1 }) s.meta.client_ip
