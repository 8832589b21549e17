-- ===== src/Gateway/Shell/Confined.antt =====
-- Whatever is typed, the shell keeps the disk outside the mount of its session as it is.
use aegis_honeypot.Prelude.{
  ℕ, zero, suc, List, [], ◌∷◌, Option, none, some, if_ind, length, is_empty,
}
use aegis_honeypot.Prelude.Text.{PathBuf, Text, trim, has_char, split, replace_crlf}
use aegis_honeypot.Gateway.Vfs.{VirtualFileSystem}
use aegis_honeypot.Gateway.Vfs.Confined.{IsSafe, Kept, write_file-IsSafe, touch-IsSafe}
use aegis_honeypot.Gateway.Vfs.Confined.Making.{mkdir-IsSafe}
use aegis_honeypot.Gateway.Vfs.Confined.Removing.{rm-IsSafe}
use aegis_honeypot.Gateway.Vfs.Confined.Moving.{cd-IsSafe}
use aegis_honeypot.Gateway.Shell.{
  Redirect, parse_redirect, strip_sudo, run_prog, run_words, dispatch_pure, redirected, in_turn,
  unredirected, dispatch_body, dispatch_fuel, dispatch,
}
use aegis_honeypot.Gateway.Shell.Replies.{World, cut, is}

module _ (mount lower : Option PathBuf) (w : World) where
  abbrev K : Text × VirtualFileSystem → Type 0
  K r = Kept mount lower r

  abbrev S : VirtualFileSystem → Type 0
  S v = IsSafe mount lower v

  run_prog-Kept :
      (prog args cmd : Text) (v : VirtualFileSystem) → S v → K (run_prog w prog args cmd v)
  run_prog-Kept prog args cmd v h =
      if_ind K (is prog "cd") (λ _. cd-IsSafe mount lower w.disk args v h)
        (λ _.
          if_ind K (is prog "mkdir") (λ _. mkdir-IsSafe mount lower w.disk args v h)
            (λ _.
              if_ind K (is prog "touch") (λ _. touch-IsSafe mount lower args v h)
                (λ _.
                  if_ind K (is prog "rm") (λ _. rm-IsSafe mount lower w.disk args v h) (λ _. h))))

  run_words-Kept :
      (cmd : Text) (o : Option (Text × Text)) (v : VirtualFileSystem)
      → S v
      → K (run_words w cmd o v)
  run_words-Kept cmd none v h = run_prog-Kept cmd [] cmd v h
  run_words-Kept cmd (some (prog, args)) v h = run_prog-Kept prog args cmd v h

  pub dispatch_pure-Kept : (cmd : Text) (v : VirtualFileSystem) → S v → K (dispatch_pure w cmd v)
  unfolding dispatch_pure
  dispatch_pure-Kept cmd v h =
      if_ind K (is_empty (strip_sudo (length cmd) cmd)) (λ _. h)
        (λ _.
          run_words-Kept (strip_sudo (length cmd) cmd) (cut 32 (strip_sudo (length cmd) cmd)) v h)

  redirected-Kept : (r : Redirect) (v : VirtualFileSystem) → S v → K (redirected w r v)
  redirected-Kept r v h =
      let answer = dispatch_pure w (trim r.cmd_part) v in
      write_file-IsSafe mount lower (trim r.file_part) (replace_crlf answer.0) r.appends answer.1
        (dispatch_pure-Kept (trim r.cmd_part) v h)

  module _ (run : Text → VirtualFileSystem → Text × VirtualFileSystem)
      (keeps : (c : Text) (v : VirtualFileSystem) → S v → K (run c v)) where
    in_turn-Kept : (cs : List Text) (v : VirtualFileSystem) → S v → K (in_turn w run cs v)
    in_turn-Kept [] v h = h
    in_turn-Kept (c ∷ cs) v h = in_turn-Kept cs (run (trim c) v).1 (keeps (trim c) v h)

    unredirected-Kept :
        (cmd : Text) (o : Option Redirect) (v : VirtualFileSystem)
        → S v
        → K (unredirected w run cmd o v)
    unredirected-Kept cmd none v h =
        if_ind K (has_char 59 cmd) (λ _. in_turn-Kept (split 59 cmd) v h)
          (λ _. dispatch_pure-Kept cmd v h)
    unredirected-Kept cmd (some r) v h = redirected-Kept r v h

    dispatch_body-Kept : (cmd : Text) (v : VirtualFileSystem) → S v → K (dispatch_body w run cmd v)
    unfolding dispatch_body
    dispatch_body-Kept cmd v h = unredirected-Kept (trim cmd) (parse_redirect (trim cmd)) v h

  pub dispatch_fuel-Kept :
      (n : ℕ) (cmd : Text) (v : VirtualFileSystem) → S v → K (dispatch_fuel w n cmd v)
  unfolding dispatch_fuel
  dispatch_fuel-Kept zero cmd v h = h
  dispatch_fuel-Kept (suc n) cmd v h =
      dispatch_body-Kept (dispatch_fuel w n) (dispatch_fuel-Kept n) cmd v h

  pub dispatch-IsSafe : (cmd : Text) (v : VirtualFileSystem) → S v → K (dispatch w cmd v)
  unfolding dispatch
  dispatch-IsSafe cmd v h = dispatch_fuel-Kept 2 cmd v h
