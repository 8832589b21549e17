-- ===== src/Gateway/Session/Tests.antt =====
-- A session with small stand-ins for what it calls, and the theorems at concrete inputs.
use aegis_honeypot.Prelude.{
  ℕ, ◌+◌, ◌≤◌, ◌≡◌, refl, Bool, true, false, List, [], ◌∷◌, ◌++◌, none, some, arith, length, All,
  list_beq, if◌then◌else◌,
}
use aegis_honeypot.Prelude.Text.{
  Text, codes, trim, trim_start, is_whitespace, split, split_whitespace, split_at_spaces, decimal,
  join,
}
use aegis_honeypot.Net.{v4}
use aegis_honeypot.Gateway.Fetch.{fake_wget_progress, truncate_credential}
use aegis_honeypot.Gateway.Session.{
  SessionMeta, ActiveSession, Env, send_output, close_channel, get_prompt, teardown_session,
}
use aegis_honeypot.Gateway.Session.Editor.{run_command, run_line, key, on_byte, data_received}
use aegis_honeypot.Gateway.Session.Handler.{
  auth_password, auth_publickey, shell_request, channel_close, Call, password, shell, received,
  handle, after, handle_all,
}
use aegis_honeypot.Gateway.Session.Trace.{ends, fetches, IsFair}
use aegis_honeypot.Gateway.Session.Limits.{
  later, ends-is_ended, fetches-le-budget, trace-IsFair, ends-channel_close,
}
use aegis_honeypot.Gateway.Session.Recording.{Recorded}

program : Unit {0}
unfolding trim trim_start is_whitespace split split_whitespace split_at_spaces decimal join list_beq
    fake_wget_progress truncate_credential send_output close_channel get_prompt teardown_session
    run_command run_line key on_byte data_received auth_password auth_publickey shell_request
    channel_close handle handle_all
program = tt

-- Commands that begin with `w` are downloads of one address; the fetch never answers in time.
abbrev starts_with_w : Text → Bool
starts_with_w [] = false
starts_with_w (c ∷ s) = list_beq (c ∷ []) (codes "w")

abbrev env : Env ℕ ℕ ℕ
env = record {
  dispatch = λ cmd v. (cmd ++ 13 ∷ 10 ∷ [], v + 1);
  current_path = λ v. codes "root" ∷ [];
  is_download = starts_with_w;
  urls = λ cmd. codes "http://evil.example/x" ∷ [];
  is_pipe_shell = λ cmd. false;
  fetch = λ url. none;
  teardown = λ b. some (codes "/overlay/abc/upper");
  now = λ t. 1_000;
  elapsed = λ t. length t;
  accepts = λ t. true;
  lookup = λ ip. none;
  fetch_payloads = true;
  max_fetches_per_session = 1;
}

abbrev meta : SessionMeta
meta = record {
  session_id = codes "abc";
  client_ip = v4 (record { o0 = 203; o1 = 0; o2 = 113; o3 = 5 });
  client_port = 4444;
}

-- A login, two downloads, a line cut by an escape sequence, and `exit`.
abbrev calls : List Call
calls =
    password (codes "root") (codes "123456")
    ∷ shell
    ∷ received (codes "wget x" ++ 13 ∷ 10 ∷ [])
    ∷ received (codes "wget y" ++ 13 ∷ [])
    ∷ received (codes "ls" ++ 27 ∷ 91 ∷ 68 ∷ 13 ∷ [])
    ∷ received (codes "exit" ++ 13 ∷ codes "id" ++ 13 ∷ [])
    ∷ []

abbrev left : ActiveSession ℕ ℕ ℕ
left = later env (omega arith) meta 0 (some 7) calls

one_fetch : fetches left.trace ≡ 1
unfolding program
one_fetch = refl

ended : left.is_ended ≡ true
unfolding program
ended = refl

-- What follows `exit` in the same read is not run.
one_command : left.vfs ≡ 1
unfolding program
one_command = refl

-- What follows an end of transmission in the same read is run, after the end was announced.
abbrev late : ActiveSession ℕ ℕ ℕ
late = later env (omega arith) meta 0 (some 7) (received (4 ∷ codes "id" ++ 13 ∷ []) ∷ [])

late_command : (late.vfs ≡ 1) × (late.is_ended ≡ true)
unfolding program
late_command = (refl, refl)

-- A read that ends within an escape sequence.
abbrev cut : List Call
cut = received (27 ∷ 91 ∷ []) ∷ []

abbrev unfinished : ActiveSession ℕ ℕ ℕ
unfinished = later env (omega arith) meta 0 (some 7) cut

still_open : unfinished.escape_seq ≡ true
unfolding program
still_open = refl

ends-is_ended_example : ends left.trace ≡ (if left.is_ended then 1 else 0)
ends-is_ended_example = ends-is_ended env (omega arith) meta 0 (some 7) calls

fetches-le-budget_example : fetches left.trace ≤ 1
fetches-le-budget_example = fetches-le-budget env (omega arith) meta 0 (some 7) calls

trace-IsFair_example : All IsFair left.trace
trace-IsFair_example = trace-IsFair env (omega arith) meta 0 (some 7) calls

ends-channel_close_example : ends (after env (channel_close env left)).trace ≡ 1
ends-channel_close_example = ends-channel_close env (omega arith) meta 0 (some 7) calls

-- Records are written as they are; the recording holds them all.
abbrev plainly : Recorded ℕ → Text
plainly c = c.text
