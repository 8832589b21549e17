-- ===== src/Gateway/Session/Editor.antt =====
-- `ActiveSession::data`: the line editor and the commands it runs.
use aegis_honeypot.Prelude.{
  ℕ, ◌+◌, ◌%◌, Bool, true, not, ◌&&◌, ◌||◌, List, [], ◌∷◌, ◌++◌, Option, none, some, leb, ◌==◌,
  if◌then◌else◌, length, is_empty, list_beq,
}
use aegis_honeypot.Prelude.Text.{Text, codes, newline, trim, split_whitespace, first_or}
use aegis_honeypot.Common.{PayloadFileType, TelemetryEvent, command_run, payload_captured}
use aegis_honeypot.Gateway.Admission.{u32_mod}
use aegis_honeypot.Gateway.Fetch.{Fetched, Payload, fake_wget_progress}
use aegis_honeypot.Gateway.Session.{
  max_command_len, max_escape_seq_len, emitted, fetched, recorded_input, flushed_recorder,
  ActiveSession, Env, Flow, next, stop, and_then, act, send_output, close_channel, get_prompt,
  teardown_session,
}

abbrev pub is_ascii_graphic : ℕ → Bool
is_ascii_graphic c = leb 33 c && leb c 126

abbrev pub is_ascii_alphabetic : ℕ → Bool
is_ascii_alphabetic c = leb 65 c && leb c 90 || leb 97 c && leb c 122

-- `String::pop`, whose answer the caller does not use.
abbrev pub pop : Text → Text
pop [] = []
pop (c ∷ []) = []
pop (c ∷ d ∷ s) = c ∷ pop (d ∷ s)

abbrev pub is_exit : Text → Bool
is_exit cmd = list_beq (trim cmd) (codes "exit") || list_beq (trim cmd) (codes "logout")

module _ {F V B : Type 0} (env : Env F V B) where
  abbrev pub saw : ℕ → ActiveSession F V B → ActiveSession F V B
  saw byte s = record s { last_byte = byte }

  -- A byte while `escape_seq` is set.
  abbrev pub escape_byte : ℕ → ActiveSession F V B → ActiveSession F V B
  escape_byte byte s = record s {
    escape_seq =
        not (is_ascii_alphabetic byte || byte == 126 || leb max_escape_seq_len (s.escape_len + 1));
    escape_len = s.escape_len + 1;
    last_byte = byte;
  }

  abbrev pub payload_event : ActiveSession F V B → Text → Payload → TelemetryEvent F
  payload_event s url p = payload_captured (record {
    timestamp = env.now s.trace;
    session_id = s.meta.session_id;
    ip = s.meta.client_ip;
    source_url = some url;
    sha256 = p.sha256;
    size_bytes = p.size_bytes;
    quarantine_path = p.quarantine_path;
    file_type = PayloadFileType.unknown;
    iocs = p.iocs;
  })

  abbrev pub report : Option Payload → Text → ActiveSession F V B → ActiveSession F V B
  report none url s = s
  report (some p) url s = act (emitted (payload_event s url p)) s

  abbrev pub install_notice : Text
  install_notice =
      codes "[*] Attempting install..."
      ++ newline
      ++ codes "bash: ./setup.sh: Permission denied"
      ++ newline

  -- What the fetch answered within its 7 seconds; what it writes, also after them, is part of
  -- `fetched`.
  abbrev pub fetch_answer :
      Text → Text → Option Fetched → ActiveSession F V B → Text × ActiveSession F V B
  fetch_answer cmd url none s = (fake_wget_progress url 64, s)
  fetch_answer cmd url (some f) s = (
    if env.is_pipe_shell cmd then f.progress ++ install_notice else f.progress,
    report f.payload url s,
  )

  abbrev pub spent : ActiveSession F V B → Bool
  spent s = not env.fetch_payloads || leb env.max_fetches_per_session s.fetch_count

  abbrev pub count_fetch : Text → ActiveSession F V B → ActiveSession F V B
  count_fetch url s = act (fetched url) (record s { fetch_count = (s.fetch_count + 1) % u32_mod })

  abbrev pub download : Text → List Text → ActiveSession F V B → Text × ActiveSession F V B
  download cmd [] s =
      (first_or (split_whitespace cmd) (codes "wget") ++ codes ": missing URL" ++ newline, s)
  download cmd (url ∷ urls) s =
      if spent s
      then (fake_wget_progress url 64, s)
      else fetch_answer cmd url (env.fetch url) (count_fetch url s)

  abbrev pub run_shell : Text → ActiveSession F V B → Text × ActiveSession F V B
  run_shell cmd s = let answer = env.dispatch cmd s.vfs in (answer.0, record s { vfs = answer.1 })

  -- The answer to a command that is not an exit.
  abbrev pub respond : Text → ActiveSession F V B → Text × ActiveSession F V B
  respond cmd s = if env.is_download cmd then download cmd (env.urls cmd) s else run_shell cmd s

  abbrev pub show_prompt : ActiveSession F V B → Flow F V B
  show_prompt s = send_output env (get_prompt env s) s

  abbrev pub log_out : ActiveSession F V B → Flow F V B
  log_out s =
      and_then (send_output env (codes "logout" ++ newline) s)
        (λ t. and_then (close_channel env t) (λ u. stop (teardown_session env u)))

  abbrev pub command_event : ActiveSession F V B → Text → TelemetryEvent F
  command_event s cmd = command_run (record {
    timestamp = env.now s.trace;
    session_id = s.meta.session_id;
    ip = s.meta.client_ip;
    command = cmd;
  })

  abbrev pub note_command : Text → ActiveSession F V B → ActiveSession F V B
  note_command cmd s =
      let t = act (recorded_input (cmd ++ 10 ∷ [])) s in act (emitted (command_event t cmd)) t

  abbrev pub answer_command : Text × ActiveSession F V B → Flow F V B
  answer_command answer = and_then (send_output env answer.0 answer.1) show_prompt

  unfoldable pub run_command : Text → ActiveSession F V B → Flow F V B
  run_command cmd s =
      if is_exit cmd
      then log_out (note_command cmd s)
      else answer_command (respond cmd (note_command cmd s))

  -- A line that has been ended: the buffer is trimmed and cleared.
  unfoldable pub run_line : ActiveSession F V B → Flow F V B
  run_line s =
      let cmd = trim s.cmd_buffer in
      let t = record s { cmd_buffer = [] } in
      if is_empty cmd then show_prompt t else run_command cmd t

  abbrev pub enter : ℕ → ActiveSession F V B → Flow F V B
  enter byte s =
      if byte == 10 && s.last_byte == 13
      then next (saw byte s)
      else and_then (send_output env newline (saw byte s)) run_line

  abbrev pub backspace : ActiveSession F V B → Flow F V B
  backspace s =
      if is_empty s.cmd_buffer
      then next s
      else send_output env (8 ∷ 32 ∷ 8 ∷ []) (record s { cmd_buffer = pop s.cmd_buffer })

  abbrev pub interrupt : ActiveSession F V B → Flow F V B
  interrupt s =
      and_then (send_output env (codes "^C" ++ newline) (record s { cmd_buffer = [] })) show_prompt

  -- End of transmission; the handler goes on with the next byte.
  abbrev pub end_of_input : ActiveSession F V B → Flow F V B
  end_of_input s =
      if is_empty s.cmd_buffer
      then and_then (send_output env (codes "logout" ++ newline) s)
          (λ t. and_then (close_channel env t) (λ u. next (teardown_session env u)))
      else next s

  abbrev pub type_char : ℕ → ActiveSession F V B → Flow F V B
  type_char byte s =
      if leb max_command_len (length s.cmd_buffer)
      then next s
      else send_output env (byte ∷ []) (record s { cmd_buffer = s.cmd_buffer ++ byte ∷ [] })

  -- The `match byte` of the loop.
  unfoldable pub key : ℕ → ActiveSession F V B → Flow F V B
  key byte s =
      if byte == 13 || byte == 10
      then enter byte s
      else if byte == 0x7f || byte == 0x08
      then backspace (saw byte s)
      else if byte == 0x03
      then interrupt (saw byte s)
      else if byte == 0x04
      then end_of_input (saw byte s)
      else if is_ascii_graphic byte || byte == 32
      then type_char byte (saw byte s)
      else next (saw byte s)

  abbrev pub start_escape : ℕ → ActiveSession F V B → ActiveSession F V B
  start_escape byte s = record s { escape_seq = true; escape_len = 0; last_byte = byte }

  -- One turn of the loop.
  unfoldable pub on_byte : ℕ → ActiveSession F V B → Flow F V B
  on_byte byte s =
      if byte == 0x1b
      then next (start_escape byte s)
      else if s.escape_seq
      then next (escape_byte byte s)
      else key byte s

  -- The handler `data`.
  unfoldable pub data_received : List ℕ → ActiveSession F V B → Flow F V B
  data_received [] s = next (act flushed_recorder s)
  data_received (byte ∷ bytes) s = and_then (on_byte byte s) (data_received bytes)
