-- ===== src/Gateway/Session.antt =====
-- crates/aegis-gateway/src/handler.rs: `ActiveSession`, the shell session of one connection. Its
-- trace is what the session has done to the world, newest first. A write to the channel may fail:
-- then the handler returns the error at once, as `?` does.
pub mod Editor
pub mod Handler
pub mod Trace
pub mod Invariant
pub mod Limits
pub mod Files
pub mod Recording
mod Tests
use aegis_honeypot.Prelude.{
  ℕ, ◌+◌, ◌-◌, ◌*◌, ◌%◌, Bool, true, false, not, ◌&&◌, ◌||◌, List, [], ◌∷◌, ◌++◌, Option, none,
  some, ltb, leb, ◌==◌, if◌then◌else◌, length, is_empty, list_beq,
}
use aegis_honeypot.Prelude.Text.{Text, codes, join, trim}
use aegis_honeypot.Net.{IpAddr}
use aegis_honeypot.Common.{GeoIpInfo, SessionEndEvent, TelemetryEvent, session_end}
use aegis_honeypot.Gateway.Fetch.{Fetched}

abbrev pub max_command_len : ℕ
max_command_len = 8 * 1024

abbrev pub max_escape_seq_len : ℕ
max_escape_seq_len = 16

pub record SessionMeta : Type 0 where
  pub session_id : Text
  pub client_ip : IpAddr
  pub client_port : ℕ

-- What a session asks of its surroundings. `recorded_output` and `recorded_input` are the calls of
-- the recorder, which may keep less (Collector: its cap) and whose errors are ignored; `fetched` is
-- the start of a payload fetch, whose own writes to the quarantine and to the mount are the effects
-- of Gateway.Fetch.
pub data Action (F : Type 0) : Type 0 where
  sent : Text → Action F
  recorded_output : Text → Action F
  recorded_input : Text → Action F
  emitted : TelemetryEvent F → Action F
  fetched : Text → Action F
  closed_channel : Action F
  flushed_recorder : Action F
  closed_recorder : Action F
  analyzed : Text → Action F
  reclaimed : Text → Action F

pub record ActiveSession (F V B : Type 0) : Type 0 where
  pub meta : SessionMeta
  pub vfs : V
  pub cmd_buffer : Text
  pub escape_seq : Bool
  pub escape_len : ℕ
  pub last_byte : ℕ
  pub fetch_count : ℕ
  pub sandbox : Option B
  pub is_ended : Bool
  pub trace : List (Action F)

-- What the session calls: the shell and the file system of the same crate, the regular
-- expressions, the fetch under its timeout (`none` when it is over), the sandbox, whose teardown
-- may answer an upper directory, the clock at a point of the trace, and the configuration.
-- `accepts` says whether the channel takes the next write or close.
pub record Env (F V B : Type 0) : Type 0 where
  pub dispatch : Text → V → Text × V
  pub current_path : V → List Text
  pub is_download : Text → Bool
  pub urls : Text → List Text
  pub is_pipe_shell : Text → Bool
  pub fetch : Text → Option Fetched
  pub teardown : B → Option Text
  pub now : List (Action F) → ℕ
  pub elapsed : List (Action F) → F
  pub accepts : List (Action F) → Bool
  pub lookup : IpAddr → Option (GeoIpInfo F)
  pub fetch_payloads : Bool
  pub max_fetches_per_session : ℕ

-- The rest of a handler runs on `next`; `stop` is `return Ok(())`, `failed` is `return Err`.
pub data Flow (F V B : Type 0) : Type 0 where
  next stop failed : ActiveSession F V B → Flow F V B

module _ {F V B : Type 0} where
  abbrev pub and_then : Flow F V B → (ActiveSession F V B → Flow F V B) → Flow F V B
  and_then (next s) f = f s
  and_then (stop s) f = stop s
  and_then (failed s) f = failed s

  abbrev pub act : Action F → ActiveSession F V B → ActiveSession F V B
  act a s = record s { trace = a ∷ s.trace }

  module _ (env : Env F V B) where
    -- `session.data(channel, data)?` and `record_output(data)`.
    unfoldable pub send_output : Text → ActiveSession F V B → Flow F V B
    send_output text s =
        if env.accepts s.trace
        then next (act (recorded_output text) (act (sent text) s))
        else failed s

    -- `session.close(channel)?`.
    unfoldable pub close_channel : ActiveSession F V B → Flow F V B
    close_channel s = if env.accepts s.trace then next (act closed_channel s) else failed s

    abbrev prompt_dir : List Text → Text
    prompt_dir [] = codes "/"
    prompt_dir (dir ∷ []) = if list_beq dir (codes "root") then codes "~" else codes "/" ++ dir
    prompt_dir (dir ∷ sub ∷ dirs) =
        if list_beq dir (codes "root")
        then codes "~/" ++ join (codes "/") (sub ∷ dirs)
        else codes "/" ++ join (codes "/") (dir ∷ sub ∷ dirs)

    unfoldable pub get_prompt : ActiveSession F V B → Text
    get_prompt s =
        codes "root@ubuntu-server-01:" ++ prompt_dir (env.current_path s.vfs) ++ codes "# "

    abbrev pub end_event : ActiveSession F V B → SessionEndEvent F
    end_event s = record {
      timestamp = env.now s.trace;
      session_id = s.meta.session_id;
      ip = s.meta.client_ip;
      duration_secs = env.elapsed s.trace;
    }

    abbrev pub analyze : Option Text → ActiveSession F V B → ActiveSession F V B
    analyze none s = s
    analyze (some upper_dir) s = act (reclaimed upper_dir) (act (analyzed upper_dir) s)

    abbrev pub tear_down_sandbox : Option B → ActiveSession F V B → ActiveSession F V B
    tear_down_sandbox none s = s
    tear_down_sandbox (some sandbox) s =
        analyze (env.teardown sandbox) (record s { sandbox = none })

    -- The first statements of `teardown_session`, up to the end of the recording.
    abbrev pub announce_end : ActiveSession F V B → ActiveSession F V B
    announce_end s =
        act closed_recorder
          (act (emitted (session_end (end_event s))) (record s { is_ended = true }))

    unfoldable pub teardown_session : ActiveSession F V B → ActiveSession F V B
    teardown_session s = if s.is_ended then s else tear_down_sandbox s.sandbox (announce_end s)
