-- ===== src/Gateway/Session/Trace.antt =====
-- What holds of a session after every step, and the steps that keep it.
use aegis_honeypot.Prelude.{
  ℕ, suc, ◌≤◌, ◌<◌, ◌≡◌, refl, sym, ap, ◌∙◌, true, false, List, [], ◌∷◌, Option, none, some,
  if◌then◌else◌, if_ind, length, All,
}
use aegis_honeypot.Prelude.Text.{Text}
use aegis_honeypot.Common.{session_end, command_run}
use aegis_honeypot.Gateway.Session.{
  max_command_len, max_escape_seq_len, Action, sent, recorded_output, closed_channel, analyzed,
  reclaimed, emitted, fetched, ActiveSession, Env, Flow, next, stop, failed, and_then, act, analyze,
  tear_down_sandbox, announce_end, send_output, close_channel, teardown_session,
}

-- A graphic character of ASCII or a space.
abbrev pub Printable : ℕ → Type 0
Printable c = (32 ≤ c) × (c ≤ 126)

module _ {F : Type 0} where
  -- How many times the end of the session was announced.
  abbrev pub ends : List (Action F) → ℕ
  ends [] = 0
  ends (emitted (session_end e) ∷ t) = suc (ends t)
  ends (a ∷ t) = ends t

  -- How many fetches were started.
  abbrev pub fetches : List (Action F) → ℕ
  fetches [] = 0
  fetches (fetched url ∷ t) = suc (fetches t)
  fetches (a ∷ t) = fetches t

  -- What went to the terminal, the last first.
  abbrev pub shown : List (Action F) → List Text
  shown [] = []
  shown (sent text ∷ t) = text ∷ shown t
  shown (a ∷ t) = shown t

  -- What the recorder was given as output, the last first.
  abbrev pub replayed : List (Action F) → List Text
  replayed [] = []
  replayed (recorded_output text ∷ t) = text ∷ replayed t
  replayed (a ∷ t) = replayed t

  -- A command that is reported is a printable line, neither empty nor over the limit.
  abbrev pub IsFair : Action F → Type 0
  IsFair (emitted (command_run e)) =
      (1 ≤ length e.command) × (length e.command ≤ max_command_len) × All Printable e.command
  IsFair a = Unit

  pub record Inv {V B : Type 0} (budget : ℕ) (s : ActiveSession F V B) : Type 0 where
    pub short : length s.cmd_buffer ≤ max_command_len
    pub printable : All Printable s.cmd_buffer
    pub resyncs : s.escape_seq ≡ true → s.escape_len < max_escape_seq_len
    pub ended_once : ends s.trace ≡ (if s.is_ended then 1 else 0)
    pub counted : fetches s.trace ≡ s.fetch_count
    pub within : s.fetch_count ≤ budget
    pub faithful : shown s.trace ≡ replayed s.trace
    pub fair : All IsFair s.trace

module _ {F V B : Type 0} where
  -- The property of the state that a handler leaves, however it ends.
  abbrev pub Leaves : (ActiveSession F V B → Type 0) → Flow F V B → Type 0
  Leaves P (next s) = P s
  Leaves P (stop s) = P s
  Leaves P (failed s) = P s

  pub and_then-Leaves :
      (P : ActiveSession F V B → Type 0) (f : Flow F V B) (g : ActiveSession F V B → Flow F V B)
      → Leaves P f
      → ((s : ActiveSession F V B) → P s → Leaves P (g s))
      → Leaves P (and_then f g)
  and_then-Leaves P (next s) g h k = k s h
  and_then-Leaves P (stop s) g h k = h
  and_then-Leaves P (failed s) g h k = h

  module _ (env : Env F V B) (budget : ℕ) where
    abbrev pub Good : Flow F V B → Type 0
    Good f = Leaves (Inv budget) f

    -- An action that no part of the invariant counts.
    abbrev pub Silent : Action F → Type 0
    Silent a =
        (t : List (Action F))
        → (ends (a ∷ t) ≡ ends t)
          × (fetches (a ∷ t) ≡ fetches t)
          × (shown (a ∷ t) ≡ shown t)
          × (replayed (a ∷ t) ≡ replayed t)

    pub act-Inv :
        (a : Action F) (s : ActiveSession F V B)
        → Silent a
        → IsFair a
        → Inv budget s
        → Inv budget (act a s)
    act-Inv a s q f i = record {
      short = i.short;
      printable = i.printable;
      resyncs = i.resyncs;
      ended_once = (q s.trace).0 ∙ i.ended_once;
      counted = (q s.trace).1 ∙ i.counted;
      within = i.within;
      faithful = (q s.trace).2 ∙ i.faithful ∙ sym (q s.trace).3;
      fair = (f, i.fair);
    }

    shown_Inv :
        (text : Text) (s : ActiveSession F V B)
        → Inv budget s
        → Inv budget (act (recorded_output text) (act (sent text) s))
    shown_Inv text s i = assumption (ap (λ l. text ∷ l) i.faithful)

    pub send_output-Good :
        (text : Text) (s : ActiveSession F V B) → Inv budget s → Good (send_output env text s)
    unfolding send_output
    send_output-Good text s i =
        if_ind Good (env.accepts s.trace) (λ takes. shown_Inv text s i) (λ breaks. i)

    pub close_channel-Good : (s : ActiveSession F V B) → Inv budget s → Good (close_channel env s)
    unfolding close_channel
    close_channel-Good s i =
        if_ind Good (env.accepts s.trace)
          (λ takes. act-Inv closed_channel s (λ t. (refl, refl, refl, refl)) tt i) (λ breaks. i)

    analyze-Inv :
        (o : Option Text) (s : ActiveSession F V B) → Inv budget s → Inv budget (analyze env o s)
    analyze-Inv none s i = i
    analyze-Inv (some d) s i =
        act-Inv (reclaimed d) _ (λ t. (refl, refl, refl, refl)) tt
          (act-Inv (analyzed d) s (λ t. (refl, refl, refl, refl)) tt i)

    sandbox_Inv :
        (o : Option B) (s : ActiveSession F V B)
        → Inv budget s
        → Inv budget (tear_down_sandbox env o s)
    sandbox_Inv none s i = i
    sandbox_Inv (some b) s i =
        analyze-Inv (env.teardown b) (record s { sandbox = none }) (assumption)

    announce_Inv :
        (s : ActiveSession F V B)
        → s.is_ended ≡ false
        → Inv budget s
        → Inv budget (announce_end env s)
    announce_Inv s live i = record {
      short = i.short;
      printable = i.printable;
      resyncs = i.resyncs;
      ended_once = ap suc (i.ended_once ∙ ap (λ b. if b then 1 else 0) live);
      counted = i.counted;
      within = i.within;
      faithful = i.faithful;
      fair = (tt, (tt, i.fair));
    }

    pub teardown_session-Inv :
        (s : ActiveSession F V B) → Inv budget s → Inv budget (teardown_session env s)
    unfolding teardown_session
    teardown_session-Inv s i =
        if_ind (Inv budget) s.is_ended (λ over. i)
          (λ live. sandbox_Inv s.sandbox (announce_end env s) (announce_Inv s live i))

    analyze-ended :
        (o : Option Text) (s : ActiveSession F V B) → (analyze env o s).is_ended ≡ s.is_ended
    analyze-ended none s = refl
    analyze-ended (some d) s = refl

    sandbox_ended :
        (o : Option B) (s : ActiveSession F V B) → (tear_down_sandbox env o s).is_ended ≡ s.is_ended
    sandbox_ended none s = refl
    sandbox_ended (some b) s = analyze-ended (env.teardown b) _

    pub teardown_session_ended :
        (s : ActiveSession F V B) → (teardown_session env s).is_ended ≡ true
    unfolding teardown_session
    teardown_session_ended s =
        if_ind (λ (t : ActiveSession F V B). t.is_ended ≡ true) s.is_ended (λ over. over)
          (λ live. sandbox_ended s.sandbox (announce_end env s))
