-- ===== src/Gateway/Session/Files.antt =====
-- The file system of a session changes by the commands of its shell alone.
use aegis_honeypot.Prelude.{
  ℕ, ◌&&◌, ◌||◌, List, [], ◌∷◌, ◌++◌, Option, none, some, leb, ◌==◌, if_ind, length, is_empty,
}
use aegis_honeypot.Prelude.Text.{Text, newline, codes, trim}
use aegis_honeypot.Gateway.Fetch.{Fetched, Payload}
use aegis_honeypot.Gateway.Session.{
  max_command_len, ActiveSession, Env, Flow, next, stop, failed, send_output, close_channel,
  get_prompt, teardown_session, tear_down_sandbox, announce_end, analyze,
}
use aegis_honeypot.Gateway.Session.Editor.{
  is_ascii_graphic, pop, is_exit, saw, report, spent, count_fetch, fetch_answer, download, respond,
  show_prompt, log_out, note_command, answer_command, run_command, run_line, enter, backspace,
  interrupt, end_of_input, type_char, key, on_byte, data_received,
}
use aegis_honeypot.Gateway.Session.Handler.{
  Call, password, publickey, shell, received, close, banner, auth_password, auth_publickey,
  shell_request, channel_close, handle, after, handle_all,
}
use aegis_honeypot.Gateway.Session.Trace.{Leaves, and_then-Leaves}

module _ {F V B : Type 0} (env : Env F V B) (P : V → Type 0)
    (keeps : (cmd : Text) (v : V) → P v → P (env.dispatch cmd v).1) where
  abbrev Has : ActiveSession F V B → Type 0
  Has s = P s.vfs

  abbrev Keeps : Flow F V B → Type 0
  Keeps f = Leaves Has f

  abbrev HasAnswer : Text × ActiveSession F V B → Type 0
  HasAnswer r = Has r.1

  send_output-Keeps :
      (text : Text) (s : ActiveSession F V B) → Has s → Keeps (send_output env text s)
  unfolding send_output
  send_output-Keeps text s h = if_ind Keeps (env.accepts s.trace) (λ _. h) (λ _. h)

  close_channel-Keeps : (s : ActiveSession F V B) → Has s → Keeps (close_channel env s)
  unfolding close_channel
  close_channel-Keeps s h = if_ind Keeps (env.accepts s.trace) (λ _. h) (λ _. h)

  report-Has :
      (o : Option Payload) (url : Text) (s : ActiveSession F V B) → Has s → Has (report env o url s)
  report-Has none url s h = h
  report-Has (some p) url s h = h

  fetch_answer-Has :
      (cmd url : Text) (o : Option Fetched) (s : ActiveSession F V B)
      → Has s
      → HasAnswer (fetch_answer env cmd url o s)
  fetch_answer-Has cmd url none s h = h
  fetch_answer-Has cmd url (some f) s h = report-Has f.payload url s h

  download-Has :
      (cmd : Text) (urls : List Text) (s : ActiveSession F V B)
      → Has s
      → HasAnswer (download env cmd urls s)
  download-Has cmd [] s h = h
  download-Has cmd (url ∷ urls) s h =
      if_ind HasAnswer (spent env s) (λ _. h)
        (λ _. fetch_answer-Has cmd url (env.fetch url) (count_fetch env url s) h)

  respond-Has : (cmd : Text) (s : ActiveSession F V B) → Has s → HasAnswer (respond env cmd s)
  respond-Has cmd s h =
      if_ind HasAnswer (env.is_download cmd) (λ _. download-Has cmd (env.urls cmd) s h)
        (λ _. keeps cmd s.vfs h)

  analyze-Has : (o : Option Text) (s : ActiveSession F V B) → Has s → Has (analyze env o s)
  analyze-Has none s h = h
  analyze-Has (some upper) s h = h

  tear_down_sandbox-Has :
      (o : Option B) (s : ActiveSession F V B) → Has s → Has (tear_down_sandbox env o s)
  tear_down_sandbox-Has none s h = h
  tear_down_sandbox-Has (some b) s h = analyze-Has (env.teardown b) (record s { sandbox = none }) h

  teardown_session-Has : (s : ActiveSession F V B) → Has s → Has (teardown_session env s)
  unfolding teardown_session
  teardown_session-Has s h =
      if_ind Has s.is_ended (λ _. h) (λ _. tear_down_sandbox-Has s.sandbox (announce_end env s) h)

  log_out-Keeps : (s : ActiveSession F V B) → Has s → Keeps (log_out env s)
  log_out-Keeps s h =
      and_then-Leaves Has _ _ (send_output-Keeps (codes "logout" ++ newline) s h)
        (λ t j. and_then-Leaves Has _ _ (close_channel-Keeps t j) (λ u k. teardown_session-Has u k))

  show_prompt-Keeps : (s : ActiveSession F V B) → Has s → Keeps (show_prompt env s)
  show_prompt-Keeps s h = send_output-Keeps (get_prompt env s) s h

  answer_command-Keeps :
      (r : Text × ActiveSession F V B) → HasAnswer r → Keeps (answer_command env r)
  answer_command-Keeps r h =
      and_then-Leaves Has _ _ (send_output-Keeps r.0 r.1 h) (λ t j. show_prompt-Keeps t j)

  run_command-Keeps : (cmd : Text) (s : ActiveSession F V B) → Has s → Keeps (run_command env cmd s)
  unfolding run_command
  run_command-Keeps cmd s h =
      if_ind Keeps (is_exit cmd) (λ _. log_out-Keeps (note_command env cmd s) h)
        (λ _.
          answer_command-Keeps (respond env cmd (note_command env cmd s))
            (respond-Has cmd (note_command env cmd s) h))

  run_line-Keeps : (s : ActiveSession F V B) → Has s → Keeps (run_line env s)
  unfolding run_line
  run_line-Keeps s h =
      if_ind Keeps (is_empty (trim s.cmd_buffer))
        (λ _. show_prompt-Keeps (record s { cmd_buffer = [] }) h)
        (λ _. run_command-Keeps (trim s.cmd_buffer) (record s { cmd_buffer = [] }) h)

  enter-Keeps : (byte : ℕ) (s : ActiveSession F V B) → Has s → Keeps (enter env byte s)
  enter-Keeps byte s h =
      if_ind Keeps (byte == 10 && s.last_byte == 13) (λ _. h)
        (λ _.
          and_then-Leaves Has _ _ (send_output-Keeps newline (saw env byte s) h)
            (λ t j. run_line-Keeps t j))

  backspace-Keeps : (s : ActiveSession F V B) → Has s → Keeps (backspace env s)
  backspace-Keeps s h =
      if_ind Keeps (is_empty s.cmd_buffer) (λ _. h)
        (λ _. send_output-Keeps (8 ∷ 32 ∷ 8 ∷ []) (record s { cmd_buffer = pop s.cmd_buffer }) h)

  interrupt-Keeps : (s : ActiveSession F V B) → Has s → Keeps (interrupt env s)
  interrupt-Keeps s h =
      and_then-Leaves Has _ _
        (send_output-Keeps (codes "^C" ++ newline) (record s { cmd_buffer = [] }) h)
        (λ t j. show_prompt-Keeps t j)

  end_of_input-Keeps : (s : ActiveSession F V B) → Has s → Keeps (end_of_input env s)
  end_of_input-Keeps s h =
      if_ind Keeps (is_empty s.cmd_buffer)
        (λ _. and_then-Leaves Has _ _ (send_output-Keeps (codes "logout" ++ newline) s h) (λ t j.
          and_then-Leaves Has _ _ (close_channel-Keeps t j) (λ u k. teardown_session-Has u k)))
        (λ _. h)

  type_char-Keeps : (byte : ℕ) (s : ActiveSession F V B) → Has s → Keeps (type_char env byte s)
  type_char-Keeps byte s h =
      if_ind Keeps (leb max_command_len (length s.cmd_buffer)) (λ _. h)
        (λ _. send_output-Keeps (byte ∷ []) (record s { cmd_buffer = s.cmd_buffer ++ byte ∷ [] }) h)

  key-Keeps : (byte : ℕ) (s : ActiveSession F V B) → Has s → Keeps (key env byte s)
  unfolding key
  key-Keeps byte s h =
      if_ind Keeps (byte == 13 || byte == 10) (λ _. enter-Keeps byte s h)
        (λ _.
          if_ind Keeps (byte == 0x7f || byte == 0x08) (λ _. backspace-Keeps (saw env byte s) h)
            (λ _.
              if_ind Keeps (byte == 0x03) (λ _. interrupt-Keeps (saw env byte s) h)
                (λ _.
                  if_ind Keeps (byte == 0x04) (λ _. end_of_input-Keeps (saw env byte s) h)
                    (λ _.
                      if_ind Keeps (is_ascii_graphic byte || byte == 32)
                        (λ _. type_char-Keeps byte (saw env byte s) h) (λ _. h)))))

  on_byte-Keeps : (byte : ℕ) (s : ActiveSession F V B) → Has s → Keeps (on_byte env byte s)
  unfolding on_byte
  on_byte-Keeps byte s h =
      if_ind Keeps (byte == 0x1b) (λ _. h)
        (λ _. if_ind Keeps s.escape_seq (λ _. h) (λ _. key-Keeps byte s h))

  data_received-Keeps :
      (bytes : List ℕ) (s : ActiveSession F V B) → Has s → Keeps (data_received env bytes s)
  unfolding data_received
  data_received-Keeps [] s h = h
  data_received-Keeps (byte ∷ bytes) s h =
      and_then-Leaves Has _ _ (on_byte-Keeps byte s h) (λ t j. data_received-Keeps bytes t j)

  handle-Keeps : (call : Call) (s : ActiveSession F V B) → Has s → Keeps (handle env call s)
  unfolding handle auth_password auth_publickey shell_request channel_close
  handle-Keeps (password user secret) s h = h
  handle-Keeps (publickey user algorithm fingerprint) s h = h
  handle-Keeps shell s h =
      and_then-Leaves Has _ _ (send_output-Keeps banner _ h) (λ t j. show_prompt-Keeps t j)
  handle-Keeps (received bytes) s h = data_received-Keeps bytes s h
  handle-Keeps close s h = teardown_session-Has s h

  after-Has : (f : Flow F V B) → Keeps f → Has (after env f)
  after-Has (next s) h = h
  after-Has (stop s) h = h
  after-Has (failed s) h = h

  -- What every command of the shell keeps of the file system, any calls of the handlers keep.
  pub handle_all-Has :
      (calls : List Call) (s : ActiveSession F V B) → Has s → Has (handle_all env calls s)
  unfolding handle_all
  handle_all-Has [] s h = h
  handle_all-Has (call ∷ calls) s h =
      handle_all-Has calls (after env (handle env call s))
        (after-Has (handle env call s) (handle-Keeps call s h))
