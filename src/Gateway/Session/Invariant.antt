-- ===== src/Gateway/Session/Invariant.antt =====
-- The line editor and the commands keep the invariant of a session.
use aegis_honeypot.Prelude.{
  ℕ, ◌≤◌, ◌<◌, ◌≡◌, refl, false, ◌&&◌, ◌||◌, List, [], ◌∷◌, ◌++◌, Option, none, some, arith, leb,
  ◌==◌, if◌then◌else◌, if_ind, length, is_empty, All, All-append, length-append,
}
use aegis_honeypot.Prelude.Text.{newline, Text, codes, trim, trim-All, length-trim}
use aegis_honeypot.Gateway.Admission.{u32_mod}
use aegis_honeypot.Gateway.Fetch.{Fetched, Payload}
use aegis_honeypot.Gateway.Session.{
  max_command_len, flushed_recorder, recorded_input, emitted, ActiveSession, Env, Flow, act,
  send_output, get_prompt,
}
use aegis_honeypot.Gateway.Session.Editor.{
  is_ascii_graphic, pop, is_exit, saw, escape_byte, report, spent, count_fetch, fetch_answer,
  download, run_shell, respond, show_prompt, log_out, note_command, command_event, payload_event,
  answer_command, run_command, run_line, enter, backspace, interrupt, end_of_input, type_char, key,
  start_escape, on_byte, data_received,
}
use aegis_honeypot.Gateway.Session.Trace.{
  Printable, Inv, Leaves, and_then-Leaves, act-Inv, send_output-Good, close_channel-Good,
  teardown_session-Inv,
}

pop-All : (P : ℕ → Type 0) (s : Text) → All P s → All P (pop s)
pop-All P [] h = tt
pop-All P (c ∷ []) h = tt
pop-All P (c ∷ d ∷ s) h = (h.0, pop-All P (d ∷ s) h.1)

length-pop : (s : Text) → length (pop s) ≤ length s
length-pop [] = omega arith
length-pop (c ∷ []) = omega arith
length-pop (c ∷ d ∷ s) = omega (arith, length-pop (d ∷ s))

nonempty : (s : Text) → is_empty s ≡ false → 1 ≤ length s
nonempty [] h = ground arith
nonempty (c ∷ s) h = omega arith

module _ {F V B : Type 0} (env : Env F V B) (small : env.max_fetches_per_session < u32_mod) where
  -- The fetches a session may make: none where egress is off.
  abbrev pub budget : ℕ
  budget = if env.fetch_payloads then env.max_fetches_per_session else 0

  abbrev pub Ok : ActiveSession F V B → Type 0
  Ok s = Inv budget s

  abbrev pub Keeps : Flow F V B → Type 0
  Keeps f = Leaves Ok f

  abbrev OkAnswer : Text × ActiveSession F V B → Type 0
  OkAnswer r = Ok r.1

  pub say : (text : Text) (s : ActiveSession F V B) → Ok s → Keeps (send_output env text s)
  say = send_output-Good env budget

  report-Inv :
      (o : Option Payload) (url : Text) (s : ActiveSession F V B) → Ok s → Ok (report env o url s)
  report-Inv none url s i = i
  report-Inv (some p) url s i =
      act-Inv env budget (emitted (payload_event env s url p)) s (λ t. (refl, refl, refl, refl)) tt
        i

  fetch_answer-Inv :
      (cmd url : Text) (o : Option Fetched) (s : ActiveSession F V B)
      → Ok s
      → Ok (fetch_answer env cmd url o s).1
  fetch_answer-Inv cmd url none s i = i
  fetch_answer-Inv cmd url (some f) s i = report-Inv f.payload url s i

  count_fetch-Inv :
      (url : Text) (s : ActiveSession F V B)
      → spent env s ≡ false
      → Ok s
      → Ok (count_fetch env url s)
  count_fetch-Inv url s left i = record {
    short = i.short;
    printable = i.printable;
    resyncs = i.resyncs;
    ended_once = i.ended_once;
    counted = ground (arith, left, i.counted, small);
    within = ground (arith, left, small);
    faithful = i.faithful;
    fair = (tt, i.fair);
  }

  download-Inv :
      (cmd : Text) (urls : List Text) (s : ActiveSession F V B)
      → Ok s
      → Ok (download env cmd urls s).1
  download-Inv cmd [] s i = i
  download-Inv cmd (url ∷ urls) s i =
      if_ind OkAnswer (spent env s) (λ _. i)
        (λ left. fetch_answer-Inv cmd url (env.fetch url) _ (count_fetch-Inv url s left i))

  run_shell-Inv : (cmd : Text) (s : ActiveSession F V B) → Ok s → Ok (run_shell env cmd s).1
  run_shell-Inv cmd s i = assumption

  respond-Inv : (cmd : Text) (s : ActiveSession F V B) → Ok s → Ok (respond env cmd s).1
  respond-Inv cmd s i =
      if_ind OkAnswer (env.is_download cmd) (λ _. download-Inv cmd (env.urls cmd) s i)
        (λ _. run_shell-Inv cmd s i)

  pub show_prompt-Inv : (s : ActiveSession F V B) → Ok s → Keeps (show_prompt env s)
  show_prompt-Inv s i = say (get_prompt env s) s i

  log_out-Inv : (s : ActiveSession F V B) → Ok s → Keeps (log_out env s)
  log_out-Inv s i = and_then-Leaves Ok _ _ (say (codes "logout" ++ newline) s i) (λ t j.
      and_then-Leaves Ok _ _ (close_channel-Good env budget t j)
        (λ u k. teardown_session-Inv env budget u k))

  -- A line that may be run as a command.
  abbrev FairLine : Text → Type 0
  FairLine cmd = (1 ≤ length cmd) × (length cmd ≤ max_command_len) × All Printable cmd

  note_command-Inv :
      (cmd : Text) (s : ActiveSession F V B) → FairLine cmd → Ok s → Ok (note_command env cmd s)
  note_command-Inv cmd s f i =
      let t = act (recorded_input (cmd ++ 10 ∷ [])) s in
      act-Inv env budget (emitted (command_event env t cmd)) t (λ u. (refl, refl, refl, refl)) f
        (act-Inv env budget (recorded_input (cmd ++ 10 ∷ [])) s (λ u. (refl, refl, refl, refl)) tt
          i)

  answer_command-Inv : (r : Text × ActiveSession F V B) → Ok r.1 → Keeps (answer_command env r)
  answer_command-Inv r i = and_then-Leaves Ok _ _ (say r.0 r.1 i) show_prompt-Inv

  run_command-Inv :
      (cmd : Text) (s : ActiveSession F V B) → FairLine cmd → Ok s → Keeps (run_command env cmd s)
  unfolding run_command
  run_command-Inv cmd s f i =
      if_ind Keeps (is_exit cmd) (λ _. log_out-Inv _ (note_command-Inv cmd s f i))
        (λ _. answer_command-Inv _ (respond-Inv cmd _ (note_command-Inv cmd s f i)))

  with_buffer :
      (buffer : Text) (s : ActiveSession F V B)
      → length buffer ≤ max_command_len
      → All Printable buffer
      → Ok s
      → Ok (record s { cmd_buffer = buffer })
  with_buffer buffer s h a i = assumption

  cleared : (s : ActiveSession F V B) → Ok s → Ok (record s { cmd_buffer = [] })
  cleared s i = with_buffer [] s (omega arith) tt i

  run_line-Inv : (s : ActiveSession F V B) → Ok s → Keeps (run_line env s)
  unfolding run_line
  run_line-Inv s i =
      if_ind Keeps (is_empty (trim s.cmd_buffer)) (λ _. show_prompt-Inv _ (cleared s i))
        (λ some_text.
          run_command-Inv _ _
            (
              nonempty _ some_text,
              omega (arith, i.short, length-trim s.cmd_buffer),
              trim-All Printable s.cmd_buffer i.printable,
            )
            (cleared s i))

  saw-Inv : (byte : ℕ) (s : ActiveSession F V B) → Ok s → Ok (saw env byte s)
  saw-Inv byte s i = assumption

  enter-Inv : (byte : ℕ) (s : ActiveSession F V B) → Ok s → Keeps (enter env byte s)
  enter-Inv byte s i =
      if_ind Keeps (byte == 10 && s.last_byte == 13) (λ _. saw-Inv byte s i)
        (λ _. and_then-Leaves Ok _ _ (say newline _ (saw-Inv byte s i)) run_line-Inv)

  backspace-Inv : (s : ActiveSession F V B) → Ok s → Keeps (backspace env s)
  backspace-Inv s i =
      if_ind Keeps (is_empty s.cmd_buffer) (λ _. i)
        (λ _. say _ _ (
          with_buffer (pop s.cmd_buffer) s (omega (arith, i.short, length-pop s.cmd_buffer))
            (pop-All Printable s.cmd_buffer i.printable) i))

  interrupt-Inv : (s : ActiveSession F V B) → Ok s → Keeps (interrupt env s)
  interrupt-Inv s i = and_then-Leaves Ok _ _ (say _ _ (cleared s i)) show_prompt-Inv

  end_of_input-Inv : (s : ActiveSession F V B) → Ok s → Keeps (end_of_input env s)
  end_of_input-Inv s i =
      if_ind Keeps (is_empty s.cmd_buffer)
        (λ _. and_then-Leaves Ok _ _ (say (codes "logout" ++ newline) s i) (λ t j.
          and_then-Leaves Ok _ _ (close_channel-Good env budget t j)
            (λ u k. teardown_session-Inv env budget u k)))
        (λ _. i)

  type_char-Inv :
      (byte : ℕ) (s : ActiveSession F V B) → Printable byte → Ok s → Keeps (type_char env byte s)
  type_char-Inv byte s h i =
      if_ind Keeps (leb max_command_len (length s.cmd_buffer)) (λ _. i)
        (λ room. say _ _ (
          with_buffer (s.cmd_buffer ++ byte ∷ []) s
            (ground (arith, room, length-append s.cmd_buffer (byte ∷ [])))
            (All-append Printable s.cmd_buffer (byte ∷ []) i.printable (h, tt)) i))

  key-Inv : (byte : ℕ) (s : ActiveSession F V B) → Ok s → Keeps (key env byte s)
  unfolding key
  key-Inv byte s i =
      if_ind Keeps (byte == 13 || byte == 10) (λ _. enter-Inv byte s i)
        (λ _.
          if_ind Keeps (byte == 0x7f || byte == 0x08) (λ _. backspace-Inv _ (saw-Inv byte s i))
            (λ _.
              if_ind Keeps (byte == 0x03) (λ _. interrupt-Inv _ (saw-Inv byte s i))
                (λ _.
                  if_ind Keeps (byte == 0x04) (λ _. end_of_input-Inv _ (saw-Inv byte s i))
                    (λ _.
                      if_ind Keeps (is_ascii_graphic byte || byte == 32)
                        (λ g. type_char-Inv byte _ (ground (arith, g)) (saw-Inv byte s i))
                        (λ _. saw-Inv byte s i)))))

  start_escape-Inv : (byte : ℕ) (s : ActiveSession F V B) → Ok s → Ok (start_escape env byte s)
  start_escape-Inv byte s i = record {
    short = i.short;
    printable = i.printable;
    resyncs = λ e. omega arith;
    ended_once = i.ended_once;
    counted = i.counted;
    within = i.within;
    faithful = i.faithful;
    fair = i.fair;
  }

  escape_byte-Inv : (byte : ℕ) (s : ActiveSession F V B) → Ok s → Ok (escape_byte env byte s)
  escape_byte-Inv byte s i = record {
    short = i.short;
    printable = i.printable;
    resyncs = λ e. ground (arith, e);
    ended_once = i.ended_once;
    counted = i.counted;
    within = i.within;
    faithful = i.faithful;
    fair = i.fair;
  }

  on_byte-Inv : (byte : ℕ) (s : ActiveSession F V B) → Ok s → Keeps (on_byte env byte s)
  unfolding on_byte
  on_byte-Inv byte s i =
      if_ind Keeps (byte == 0x1b) (λ _. start_escape-Inv byte s i)
        (λ _. if_ind Keeps s.escape_seq (λ _. escape_byte-Inv byte s i) (λ _. key-Inv byte s i))

  pub data_received-Inv :
      (bytes : List ℕ) (s : ActiveSession F V B) → Ok s → Keeps (data_received env bytes s)
  unfolding data_received
  data_received-Inv [] s i =
      act-Inv env budget flushed_recorder s (λ t. (refl, refl, refl, refl)) tt i
  data_received-Inv (byte ∷ bytes) s i =
      and_then-Leaves Ok (on_byte env byte s) (data_received env bytes) (on_byte-Inv byte s i)
        (data_received-Inv bytes)
