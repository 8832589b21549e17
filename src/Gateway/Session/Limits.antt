-- ===== src/Gateway/Session/Limits.antt =====
-- What holds of a session over every history of calls that the SSH server makes of its handler.
use aegis_honeypot.Prelude.{
  ◌≤◌, ◌<◌, ◌≡◌, refl, ap, ◌∙◌, true, List, [], ◌∷◌, Option, arith, if◌then◌else◌, length, All,
}
use aegis_honeypot.Gateway.Admission.{u32_mod}
use aegis_honeypot.Gateway.Session.{
  SessionMeta, max_command_len, max_escape_seq_len, emitted, ActiveSession, Env, Flow, next, stop,
  failed,
}
use aegis_honeypot.Gateway.Session.Handler.{
  banner, start_event, auth_password, auth_publickey, shell_request, channel_close, Call, password,
  publickey, shell, received, close, handle, after, handle_all, fresh,
}
use aegis_honeypot.Gateway.Session.Trace.{
  Printable, ends, fetches, shown, replayed, IsFair, and_then-Leaves, act-Inv, teardown_session-Inv,
  teardown_session_ended,
}
use aegis_honeypot.Gateway.Session.Invariant.{
  budget, Ok, Keeps, say, show_prompt-Inv, data_received-Inv,
}

module _ {F V B : Type 0} (env : Env F V B) (small : env.max_fetches_per_session < u32_mod) where
  handle-Inv :
      (call : Call) (s : ActiveSession F V B) → Ok env small s → Keeps env small (handle env call s)
  unfolding handle auth_password auth_publickey shell_request channel_close
  handle-Inv (password user secret) s i =
      act-Inv env (budget env small) _ s (λ t. (refl, refl, refl, refl)) tt i
  handle-Inv (publickey user algorithm fingerprint) s i =
      act-Inv env (budget env small) _ s (λ t. (refl, refl, refl, refl)) tt i
  handle-Inv shell s i =
      and_then-Leaves (Ok env small) _ _
        (say env small banner _ (
          act-Inv env (budget env small) (emitted (start_event env s)) s
            (λ t. (refl, refl, refl, refl)) tt i))
        (show_prompt-Inv env small)
  handle-Inv (received bytes) s i = data_received-Inv env small bytes s i
  handle-Inv close s i = teardown_session-Inv env (budget env small) s i

  after-Inv : (f : Flow F V B) → Keeps env small f → Ok env small (after env f)
  after-Inv (next s) i = i
  after-Inv (stop s) i = i
  after-Inv (failed s) i = i

  handle_all-Inv :
      (calls : List Call) (s : ActiveSession F V B)
      → Ok env small s
      → Ok env small (handle_all env calls s)
  unfolding handle_all
  handle_all-Inv [] s i = i
  handle_all-Inv (call ∷ calls) s i =
      handle_all-Inv calls _ (after-Inv (handle env call s) (handle-Inv call s i))

  module _ (meta : SessionMeta) (vfs : V) (sandbox : Option B) (calls : List Call) where
    abbrev pub later : ActiveSession F V B
    later = handle_all env calls (fresh meta vfs sandbox)

    later-Inv : Ok env small later
    later-Inv = handle_all-Inv calls (fresh meta vfs sandbox) (record {
      short = omega arith;
      printable = tt;
      resyncs = λ e. ground (arith, e);
      ended_once = refl;
      counted = refl;
      within = omega arith;
      faithful = refl;
      fair = tt;
    })

    -- Whatever the peer sends, in whatever order and pieces, the line being typed has no more than
    -- `MAX_COMMAND_LEN` characters, each a printable one of ASCII.
    cmd_buffer_bounded :
        (length later.cmd_buffer ≤ max_command_len) × All Printable later.cmd_buffer
    cmd_buffer_bounded = (later-Inv.short, later-Inv.printable)

    -- An escape sequence never swallows more than `MAX_ESCAPE_SEQ_LEN` bytes: while one is open,
    -- fewer have been consumed.
    escape_len_bounded : later.escape_seq ≡ true → later.escape_len < max_escape_seq_len
    escape_len_bounded = later-Inv.resyncs

    -- The end of the session is announced once if the session has ended, and else not at all.
    pub ends-is_ended : ends later.trace ≡ (if later.is_ended then 1 else 0)
    ends-is_ended = later-Inv.ended_once

    -- A session starts at most `max_fetches_per_session` payload fetches, and none where
    -- `fetch_payloads` is off.
    pub fetches-le-budget :
        fetches later.trace ≤ (if env.fetch_payloads then env.max_fetches_per_session else 0)
    fetches-le-budget = omega (arith, later-Inv.counted, later-Inv.within)

    -- The recorder is called with exactly what the terminal was shown, in the same order.
    pub shown-eq-replayed : shown later.trace ≡ replayed later.trace
    shown-eq-replayed = later-Inv.faithful

    -- Every command that is reported is a line of printable ASCII of 1 to `MAX_COMMAND_LEN`
    -- characters.
    pub trace-IsFair : All IsFair later.trace
    trace-IsFair = later-Inv.fair

  -- Once the server has closed the channel of a session, whatever came before, its end has been
  -- announced exactly once.
  pub ends-channel_close :
      (meta : SessionMeta) (vfs : V) (sandbox : Option B) (calls : List Call)
      → ends (after env (channel_close env (later meta vfs sandbox calls))).trace ≡ 1
  unfolding channel_close
  ends-channel_close meta vfs sandbox calls =
      (teardown_session-Inv env (budget env small) _ (later-Inv meta vfs sandbox calls)).ended_once
      ∙ ap (λ b. if b then 1 else 0)
          (teardown_session_ended env (budget env small) (later meta vfs sandbox calls))
