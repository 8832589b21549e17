-- ===== src/Gateway/Session/Handler.antt =====
-- The other handlers of `ActiveSession`, and the histories of calls that a connection can make.
use aegis_honeypot.Prelude.{ℕ, false, List, [], ◌∷◌, ◌++◌, Option, some}
use aegis_honeypot.Prelude.Text.{newline, Text, codes}
use aegis_honeypot.Common.{AuthMethod, TelemetryEvent, session_start, credential_harvest}
use aegis_honeypot.Gateway.Fetch.{truncate_credential}
use aegis_honeypot.Gateway.Session.{
  SessionMeta, emitted, ActiveSession, Env, Flow, next, stop, failed, and_then, act, send_output,
  teardown_session,
}
use aegis_honeypot.Gateway.Session.Editor.{data_received, show_prompt}

-- What is printed at login.
abbrev pub banner : Text
banner =
    newline
    ++ codes "Linux ubuntu-server-01 5.15.0-72-generic #79-Ubuntu SMP x86_64"
    ++ newline
    ++ codes "Welcome to Ubuntu 22.04.2 LTS (GNU/Linux 5.15.0-72-generic x86_64)"
    ++ newline
    ++ newline
    ++ codes " * Documentation:  https://help.ubuntu.com"
    ++ newline
    ++ codes " * Management:     https://landscape.canonical.com"
    ++ newline
    ++ codes " * Support:        https://ubuntu.com/advantage"
    ++ newline
    ++ newline
    ++ codes "Last login: Mon Aug 26 22:14:07 2026 from 192.0.2.100"
    ++ newline
    ++ newline

-- A call that the SSH server makes of the handler.
pub data Call : Type 0 where
  password : Text → Text → Call
  publickey : Text → Text → Text → Call
  shell : Call
  received : List ℕ → Call
  close : Call

module _ {F V B : Type 0} (env : Env F V B) where
  abbrev pub harvest : Text → Text → AuthMethod → ActiveSession F V B → ActiveSession F V B
  harvest user secret method s =
      act
        (emitted (
          credential_harvest (record {
            timestamp = env.now s.trace;
            session_id = s.meta.session_id;
            ip = s.meta.client_ip;
            username = truncate_credential user;
            password = some (truncate_credential secret);
            auth_method = method;
          })))
        s

  -- Every password is accepted.
  unfoldable pub auth_password : Text → Text → ActiveSession F V B → Flow F V B
  auth_password user secret s = next (harvest user secret AuthMethod.password s)

  -- So is every key, of which the algorithm and the fingerprint are kept.
  unfoldable pub auth_publickey : Text → Text → Text → ActiveSession F V B → Flow F V B
  auth_publickey user algorithm fingerprint s = next (
      harvest user (codes "pubkey:" ++ algorithm ++ codes " " ++ fingerprint) AuthMethod.public_key
        s)

  abbrev pub start_event : ActiveSession F V B → TelemetryEvent F
  start_event s = session_start (record {
    timestamp = env.now s.trace;
    session_id = s.meta.session_id;
    ip = s.meta.client_ip;
    port = s.meta.client_port;
    geo = env.lookup s.meta.client_ip;
  })

  unfoldable pub shell_request : ActiveSession F V B → Flow F V B
  shell_request s =
      and_then (send_output env banner (act (emitted (start_event s)) s)) (show_prompt env)

  unfoldable pub channel_close : ActiveSession F V B → Flow F V B
  channel_close s = next (teardown_session env s)

  unfoldable pub handle : Call → ActiveSession F V B → Flow F V B
  handle (password user secret) s = auth_password user secret s
  handle (publickey user algorithm fingerprint) s = auth_publickey user algorithm fingerprint s
  handle shell s = shell_request s
  handle (received bytes) s = data_received env bytes s
  handle close s = channel_close s

  abbrev pub after : Flow F V B → ActiveSession F V B
  after (next s) = s
  after (stop s) = s
  after (failed s) = s

  -- The state after calls in any order, whatever they answer.
  unfoldable pub handle_all : List Call → ActiveSession F V B → ActiveSession F V B
  handle_all [] s = s
  handle_all (call ∷ calls) s = handle_all calls (after (handle call s))

-- The session as `new_client` makes it.
abbrev pub fresh : {F V B : Type 0} → SessionMeta → V → Option B → ActiveSession F V B
fresh meta vfs sandbox = record {
  meta = meta;
  vfs = vfs;
  cmd_buffer = [];
  escape_seq = false;
  escape_len = 0;
  last_byte = 0;
  fetch_count = 0;
  sandbox = sandbox;
  is_ended = false;
  trace = [];
}
