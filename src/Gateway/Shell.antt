-- ===== src/Gateway/Shell.antt =====
-- crates/aegis-gateway/src/shell.rs: the fake shell. Nothing is executed: a command is a text that is
-- answered with a text, and at most changes the file system of the session.
pub mod Canned
pub mod Replies
pub mod Loops
pub mod Quotes
pub mod Confined
pub mod Unseen
pub mod Typed
mod Tests
use aegis_honeypot.Prelude.{
  ℕ, zero, suc, Bool, true, false, ◌&&◌, List, [], ◌∷◌, ◌++◌, Option, none, some, if◌then◌else◌,
  length, is_empty, list_beq, ◌==◌, not,
}
use aegis_honeypot.Prelude.Text.{
  Text, codes, trim, trim_start, strip_prefix, starts_with, has_char, split, replace_crlf, concat,
}
use aegis_honeypot.Gateway.Vfs.{DiskCall, Disk, VirtualFileSystem}
use aegis_honeypot.Gateway.Vfs.Reading.{cd}
use aegis_honeypot.Gateway.Vfs.Commands.{mkdir, touch, rm, write_file}
use aegis_honeypot.Gateway.Shell.Replies.{World, cut, before, is, reply}

-- What stands before and after the first `>>`.
unfoldable pub cut_append : Text → Option (Text × Text)
cut_append [] = none
cut_append (c ∷ []) = none
cut_append (c ∷ d ∷ s) = if c == 62 && d == 62 then some ([], s) else before c (cut_append (d ∷ s))

-- What stands before and after the last `>`.
abbrev last_cut : ℕ → Text → Option (Text × Text) → Option (Text × Text)
last_cut c s none = if c == 62 then some ([], s) else none
last_cut c s (some (l, r)) = some (c ∷ l, r)

unfoldable pub cut_write : Text → Option (Text × Text)
cut_write [] = none
cut_write (c ∷ s) = last_cut c s (cut_write s)

pub record Redirect : Type 0 where
  pub cmd_part : Text
  pub appends : Bool
  pub file_part : Text

abbrev redirect_write : Option (Text × Text) → Option Redirect
redirect_write none = none
redirect_write (some (l, r)) =
    if starts_with r (codes "=")
    then none
    else some (record { cmd_part = l; appends = false; file_part = r })

abbrev redirect_append : Option (Text × Text) → Option Redirect → Option Redirect
redirect_append none o = o
redirect_append (some (l, r)) o = some (record { cmd_part = l; appends = true; file_part = r })

unfoldable pub parse_redirect : Text → Option Redirect
unfolding cut_append cut_write starts_with
parse_redirect cmd = redirect_append (cut_append cmd) (redirect_write (cut_write cmd))

-- One turn of the loop that strips `sudo`; `none` where it breaks.
abbrev pub sudo_rest : Option Text → Option Text
sudo_rest none = none
sudo_rest (some []) = some []
sudo_rest (some (c ∷ rest)) = if c == 32 then some (trim_start (c ∷ rest)) else none

unfoldable pub strip_once : Text → Option Text
unfolding starts_with trim_start
strip_once cmd = sudo_rest (strip_prefix cmd (codes "sudo"))

abbrev pub stripped : Text → Option Text → (Text → Text) → Text
stripped cmd none f = cmd
stripped cmd (some rest) f = f rest

unfoldable pub strip_sudo : ℕ → Text → Text
unfolding strip_once
strip_sudo zero cmd = cmd
strip_sudo (suc fuel) cmd = stripped cmd (strip_once cmd) (strip_sudo fuel)

module _ (w : World) where
  abbrev pub run_prog : Text → Text → Text → VirtualFileSystem → Text × VirtualFileSystem
  run_prog prog args cmd v =
      if is prog "cd"
      then cd w.disk args v
      else if is prog "mkdir"
      then mkdir w.disk args v
      else if is prog "touch"
      then touch args v
      else if is prog "rm"
      then rm w.disk args v
      else (reply w prog args cmd v, v)

  -- `splitn(2, ' ')`.
  abbrev pub run_words : Text → Option (Text × Text) → VirtualFileSystem → Text × VirtualFileSystem
  run_words cmd none v = run_prog cmd [] cmd v
  run_words cmd (some (prog, args)) v = run_prog prog args cmd v

  unfoldable pub dispatch_pure : Text → VirtualFileSystem → Text × VirtualFileSystem
  unfolding strip_sudo cut cd mkdir touch rm reply list_beq
  dispatch_pure cmd v =
      let stripped_cmd = strip_sudo (length cmd) cmd in
      if is_empty stripped_cmd then ([], v) else run_words stripped_cmd (cut 32 stripped_cmd) v

  abbrev pub redirected : Redirect → VirtualFileSystem → Text × VirtualFileSystem
  redirected r v =
      let answer = dispatch_pure (trim r.cmd_part) v in
      let done = write_file (trim r.file_part) (replace_crlf answer.0) r.appends answer.1 in
      ([], done.1)

  -- Every piece in turn; the answers are joined.
  abbrev pub in_turn :
      (Text → VirtualFileSystem → Text × VirtualFileSystem)
      → List Text
      → VirtualFileSystem
      → Text × VirtualFileSystem
  in_turn run [] v = ([], v)
  in_turn run (c ∷ cs) v =
      let first = run (trim c) v in let rest = in_turn run cs first.1 in (first.0 ++ rest.0, rest.1)

  abbrev pub unredirected :
      (Text → VirtualFileSystem → Text × VirtualFileSystem)
      → Text
      → Option Redirect
      → VirtualFileSystem
      → Text × VirtualFileSystem
  unredirected run cmd none v =
      if has_char 59 cmd then in_turn run (split 59 cmd) v else dispatch_pure cmd v
  unredirected run cmd (some r) v = redirected r v

  -- The body of `dispatch`, with `run` for its call of itself.
  unfoldable pub dispatch_body :
      (Text → VirtualFileSystem → Text × VirtualFileSystem)
      → Text
      → VirtualFileSystem
      → Text × VirtualFileSystem
  unfolding dispatch_pure write_file parse_redirect trim split
  dispatch_body run cmd v = unredirected run (trim cmd) (parse_redirect (trim cmd)) v

  -- On fuel; a call without fuel answers nothing.
  unfoldable pub dispatch_fuel : ℕ → Text → VirtualFileSystem → Text × VirtualFileSystem
  unfolding dispatch_body
  dispatch_fuel zero cmd v = ([], v)
  dispatch_fuel (suc n) cmd v = dispatch_body (dispatch_fuel n) cmd v

  -- A piece between two `;` has no `;` of its own, so two levels are enough.
  unfoldable pub dispatch : Text → VirtualFileSystem → Text × VirtualFileSystem
  unfolding dispatch_fuel
  dispatch cmd v = dispatch_fuel 2 cmd v
