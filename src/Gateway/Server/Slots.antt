-- ===== src/Gateway/Server/Slots.antt =====
-- The slots of a server: permits, and open connections by source.
use aegis_honeypot.Prelude.{
  max, ℕ, zero, suc, ◌+◌, ◌-◌, ◌≤◌, ◌<◌, ◌≡◌, ap, ◌∙◌, subst, Bool, true, false, List, [], ◌∷◌,
  Option, none, some, arith, length, count, contains, erase,
}
use aegis_honeypot.Net.{IpAddr, ip_eq, ip_beq_iff}
use aegis_honeypot.Gateway.Admission.{
  IpConnectionGuard, u32_mod, admission_key, new, try_admit, release,
}
use aegis_honeypot.Gateway.Admission.World.{
  World, start, connected, disconnect, connects, disconnects, Reach, here, next,
}
use aegis_honeypot.Gateway.Admission.Limits.{held-le-max_per_ip}
use aegis_honeypot.Gateway.Egress.{SocketAddr}
use aegis_honeypot.Gateway.Session.{SessionMeta, ActiveSession}
use aegis_honeypot.Gateway.Server.{
  AegisServer, SessionHandler, active, rejected, Provider, peer_or_default, provisioned, meta_of,
  acquire, guarded, new_client, drop_session,
}

-- A server with the keys of its open sessions and the time of the last arrival.
pub record Service : Type 0 where
  pub server : AegisServer
  pub live : List IpAddr
  pub clock : ℕ

abbrev pub opened :
    {F V B : Type 0} → SessionHandler (ActiveSession F V B) → List IpAddr → List IpAddr
opened (active s) live = admission_key s.meta.client_ip ∷ live
opened rejected live = live

abbrev pub arrived :
    {F V B : Type 0}
    → AegisServer × SessionHandler (ActiveSession F V B)
    → List IpAddr
    → ℕ
    → Service
arrived r live now = record { server = r.0; live = opened r.1 live; clock = now }

module _ (F : Type 0) {V B : Type 0} (provider : Provider V B) where
  -- A client arrives, no earlier than the one before, or an open session is dropped.
  pub data Serve (v : Service) : Service → Type 0 where
    arrives :
        (peer : Option SocketAddr) (now : ℕ)
        → v.clock ≤ now
        → length v.live < u32_mod - 1
        → Serve v (arrived (new_client {F = F} provider v.server peer now) v.live now)
    leaves :
        (s : ActiveSession F V B)
        → contains v.live (admission_key s.meta.client_ip) ≡ true
        → Serve v (record {
          server = drop_session v.server s;
          live = erase (admission_key s.meta.client_ip) v.live;
          clock = v.clock;
        })

  pub data History (v : Service) : Service → Type 0 where
    opens : History v v
    goes : {u x : Service} → History v u → Serve u x → History v x

-- A server as it starts, with all its permits; `main` takes one at the least.
abbrev pub idle : ℕ → ℕ → ℕ → ℕ → Service
idle max_per_ip max_per_minute max_sessions now = record {
  server = record {
    ip_guard = new max_per_ip max_per_minute now;
    session_semaphore = max max_sessions 1;
  };
  live = [];
  clock = now;
}

erase_head : (k : IpAddr) (l : List IpAddr) → erase k (k ∷ l) ≡ l
erase_head k l = ground (arith, ip_beq_iff k k)

contains_head : (k : IpAddr) (l : List IpAddr) → contains (k ∷ l) k ≡ true
contains_head k l = ground (arith, ip_beq_iff k k)

length-erase :
    (k : IpAddr) (l : List IpAddr) → contains l k ≡ true → suc (length (erase k l)) ≡ length l
length-erase k [] h = ground arith
length-erase k (j ∷ l) h = ground (arith, length-erase k l)

module _ (max_per_ip max_per_minute max_sessions t0 : ℕ) where
  -- The guard of the service has the history of a world whose open connections are its sessions.
  data Serving : Service → Type 0 where
    serving :
        (w : World) (permits : ℕ)
        → Reach (start max_per_ip max_per_minute t0) w
        → permits + length w.held ≡ max max_sessions 1
        → Serving (record {
          server = record { ip_guard = w.guard; session_semaphore = permits };
          live = w.held;
          clock = w.clock;
        })

  -- A connection that is admitted and then given up leaves things as they were.
  given_up :
      (w : World) (permits : ℕ) (ip : IpAddr) (now : ℕ) (g : IpConnectionGuard)
      → Reach (start max_per_ip max_per_minute t0) (connected w ip now (g, true))
      → permits + length w.held ≡ max max_sessions 1
      → Serving (record {
        server = record { ip_guard = release g ip; session_semaphore = permits };
        live = w.held;
        clock = now;
      })
  given_up w permits ip now g r e =
      let k = admission_key ip in
      subst
        (λ l. Serving (record {
          server = record { ip_guard = release g ip; session_semaphore = permits };
          live = l;
          clock = now;
        }))
        (erase_head k w.held)
        (serving (disconnect (connected w ip now (g, true)) ip) permits
          (next r (disconnects ip (contains_head k w.held)))
          (ap (λ l. permits + length l) (erase_head k w.held) ∙ e))

  module _ (F : Type 0) {V B : Type 0} (provider : Provider V B) where
    provisioned-Serving :
        (w : World) (permits : ℕ) (meta : SessionMeta) (now : ℕ) (g : IpConnectionGuard)
        (o : Option (Option B))
        → Reach (start max_per_ip max_per_minute t0) (connected w meta.client_ip now (g, true))
        → suc permits + length w.held ≡ max max_sessions 1
        → Serving (
            arrived
              (provisioned {F = F} provider
                (record { ip_guard = g; session_semaphore = permits })
                meta
                o)
              w.held
              now)
    provisioned-Serving w permits meta now g none r e =
        given_up w (permits + 1) meta.client_ip now g r (omega (arith, e))
    provisioned-Serving w permits meta now g (some sandbox) r e =
        serving (connected w meta.client_ip now (g, true)) permits r (omega (arith, e))

    acquire-Serving :
        (w : World) (permits : ℕ) (addr : SocketAddr) (now : ℕ) (g : IpConnectionGuard)
        → Reach (start max_per_ip max_per_minute t0) (connected w addr.ip now (g, true))
        → permits + length w.held ≡ max max_sessions 1
        → Serving (
            arrived
              (acquire {F = F} provider
                (record { ip_guard = g; session_semaphore = permits })
                addr
                now
                permits)
              w.held
              now)
    acquire-Serving w zero addr now g r e = given_up w zero addr.ip now g r e
    acquire-Serving w (suc permits) addr now g r e =
        provisioned-Serving w permits (meta_of provider addr now) now g
          (provider.provision (meta_of provider addr now)) r e

    guarded-Serving :
        (w : World) (permits : ℕ) (addr : SocketAddr) (now : ℕ) (a : IpConnectionGuard × Bool)
        → Reach (start max_per_ip max_per_minute t0) (connected w addr.ip now a)
        → permits + length w.held ≡ max max_sessions 1
        → Serving (
            arrived
              (guarded {F = F} provider
                (record { ip_guard = w.guard; session_semaphore = permits })
                addr
                now
                a)
              w.held
              now)
    guarded-Serving w permits addr now (g, true) r e = acquire-Serving w permits addr now g r e
    guarded-Serving w permits addr now (g, false) r e =
        serving (connected w addr.ip now (g, false)) permits r e

    Serve-Serving : {u v : Service} → Serving u → Serve F provider u v → Serving v
    unfolding new_client drop_session
    Serve-Serving (serving w permits r e) (arrives peer now le room) =
        guarded-Serving w permits (peer_or_default peer) now
          (try_admit w.guard (peer_or_default peer).ip now)
          (next r (connects (peer_or_default peer).ip now le room)) e
    Serve-Serving (serving w permits r e) (leaves s h) =
        serving (disconnect w s.meta.client_ip) (permits + 1)
          (next r (disconnects s.meta.client_ip h))
          (omega (arith, e, length-erase (admission_key s.meta.client_ip) w.held h))

    History-Serving :
        {v : Service}
        → History F provider (idle max_per_ip max_per_minute max_sessions t0) v
        → Serving v
    History-Serving opens =
        serving (start max_per_ip max_per_minute t0) (max max_sessions 1) here (omega arith)
    History-Serving (goes h s) = Serve-Serving (History-Serving h) s

    permits_lem :
        {v : Service} → Serving v → v.server.session_semaphore + length v.live ≡ max max_sessions 1
    permits_lem (serving w permits r e) = e

    capped :
        {v : Service}
        → max_per_minute < u32_mod
        → Serving v
        → (k : IpAddr) → 0 < max_per_ip
        → count k v.live ≤ max_per_ip
    capped small (serving w permits r e) k on =
        held-le-max_per_ip max_per_ip max_per_minute small r k on

    -- However clients arrive and sessions end, and whether or not each can be provisioned, the free
    -- permits and the open sessions add up to `max_sessions`, or to 1 where that is 0: no permit leaks,
    -- and no more sessions are ever open.
    pub permits-live :
        {v : Service}
        → History F provider (idle max_per_ip max_per_minute max_sessions t0) v
        → v.server.session_semaphore + length v.live ≡ max max_sessions 1
    permits-live h = permits_lem (History-Serving h)

    -- However clients arrive and sessions end, no source has more than `max_per_ip` sessions open,
    -- if that limit is on.
    pub live-le-max_per_ip :
        {v : Service}
        → max_per_minute < u32_mod
        → History F provider (idle max_per_ip max_per_minute max_sessions t0) v
        → (k : IpAddr) → 0 < max_per_ip
        → count k v.live ≤ max_per_ip
    live-le-max_per_ip small h = capped small (History-Serving h)
