-- ===== src/Gateway/Shell/Unseen.antt =====
-- The answers of the shell reveal nothing of the disk outside the two roots of its session.
use aegis_honeypot.Prelude.{
  ℕ, zero, suc, ◌≡◌, refl, ap, List, [], ◌∷◌, Option, none, some, if◌then◌else◌, length, is_empty,
}
use aegis_honeypot.Prelude.Text.{PathBuf, Text, trim, split, split_whitespace, last_or}
use aegis_honeypot.Gateway.Vfs.{Disk, DiskCall, VirtualFileSystem}
use aegis_honeypot.Gateway.Vfs.Confined.{IsSafe, Kept}
use aegis_honeypot.Gateway.Vfs.Unseen.{IsSameBelow, cd_same, cat_same, ls_same, mkdir_same, rm_same}
use aegis_honeypot.Gateway.Shell.{
  Redirect, parse_redirect, strip_sudo, run_prog, run_words, dispatch_pure, in_turn, unredirected,
  dispatch_body, dispatch_fuel, dispatch,
}
use aegis_honeypot.Gateway.Shell.Replies.{World, cut, reply, wc}
use aegis_honeypot.Gateway.Shell.Confined.{dispatch_fuel-Kept, dispatch-IsSafe}

-- A session that answers each command line in turn.
abbrev pub answers : World → List Text → VirtualFileSystem → List Text
answers w [] v = []
answers w (cmd ∷ cmds) v = (dispatch w cmd v).0 ∷ answers w cmds (dispatch w cmd v).1

abbrev pub world_of : (List DiskCall → Text) → Disk → World
world_of date disk = record { disk = disk; date = date }

module _ (mount lower : Option PathBuf) (d e : Disk) (date : List DiskCall → Text)
    (same : IsSameBelow mount lower d e) where
  abbrev before_world : World
  before_world = world_of date d

  abbrev after_world : World
  after_world = world_of date e

  wc_same :
      (args : Text) (v : VirtualFileSystem)
      → IsSafe mount lower v
      → wc before_world args v ≡ wc after_world args v
  wc_same args v h =
      rw (cat_same mount lower d e same (last_or (split_whitespace args) []) v h) refl

  reply_same :
      (prog args cmd : Text) (v : VirtualFileSystem)
      → IsSafe mount lower v
      → reply before_world prog args cmd v ≡ reply after_world prog args cmd v
  unfolding reply
  reply_same prog args cmd v h = rw (ls_same mount lower d e same args v h) (
      rw (cat_same mount lower d e same args v h)
        (rw (cat_same mount lower d e same (last_or (split_whitespace args) []) v h) refl))

  run_prog_same :
      (prog args cmd : Text) (v : VirtualFileSystem)
      → IsSafe mount lower v
      → run_prog before_world prog args cmd v ≡ run_prog after_world prog args cmd v
  run_prog_same prog args cmd v h = rw (cd_same mount lower d e same args v h) (
      rw (mkdir_same mount lower d e same args v h)
        (rw (rm_same mount lower d e same args v h) (rw (reply_same prog args cmd v h) refl)))

  run_words_same :
      (cmd : Text) (o : Option (Text × Text)) (v : VirtualFileSystem)
      → IsSafe mount lower v
      → run_words before_world cmd o v ≡ run_words after_world cmd o v
  run_words_same cmd none v h = run_prog_same cmd [] cmd v h
  run_words_same cmd (some (prog, args)) v h = run_prog_same prog args cmd v h

  dispatch_pure_same :
      (cmd : Text) (v : VirtualFileSystem)
      → IsSafe mount lower v
      → dispatch_pure before_world cmd v ≡ dispatch_pure after_world cmd v
  unfolding dispatch_pure
  dispatch_pure_same cmd v h =
      let rest = strip_sudo (length cmd) cmd in
      ap (λ (r : Text × VirtualFileSystem). if is_empty rest then ([], v) else r)
        (run_words_same rest (cut 32 rest) v h)

  module _ (f g : Text → VirtualFileSystem → Text × VirtualFileSystem)
      (agree : (c : Text) (v : VirtualFileSystem) → IsSafe mount lower v → f c v ≡ g c v)
      (keeps : (c : Text) (v : VirtualFileSystem)
        → IsSafe mount lower v
        → Kept mount lower (g c v)) where
    in_turn_same :
        (cs : List Text) (v : VirtualFileSystem)
        → IsSafe mount lower v
        → in_turn before_world f cs v ≡ in_turn after_world g cs v
    in_turn_same [] v h = refl
    in_turn_same (c ∷ cs) v h =
        rw (agree (trim c) v h) (rw (in_turn_same cs (g (trim c) v).1 (keeps (trim c) v h)) refl)

    unredirected_same :
        (cmd : Text) (o : Option Redirect) (v : VirtualFileSystem)
        → IsSafe mount lower v
        → unredirected before_world f cmd o v ≡ unredirected after_world g cmd o v
    unredirected_same cmd none v h =
        rw (in_turn_same (split 59 cmd) v h) (rw (dispatch_pure_same cmd v h) refl)
    unredirected_same cmd (some r) v h = rw (dispatch_pure_same (trim r.cmd_part) v h) refl

  dispatch_fuel_same :
      (n : ℕ) (cmd : Text) (v : VirtualFileSystem)
      → IsSafe mount lower v
      → dispatch_fuel before_world n cmd v ≡ dispatch_fuel after_world n cmd v
  unfolding dispatch_fuel dispatch_body
  dispatch_fuel_same zero cmd v h = refl
  dispatch_fuel_same (suc n) cmd v h =
      unredirected_same (dispatch_fuel before_world n) (dispatch_fuel after_world n)
        (dispatch_fuel_same n) (dispatch_fuel-Kept mount lower after_world n) (trim cmd)
        (parse_redirect (trim cmd)) v h

  dispatch_same :
      (cmd : Text) (v : VirtualFileSystem)
      → IsSafe mount lower v
      → dispatch before_world cmd v ≡ dispatch after_world cmd v
  unfolding dispatch
  dispatch_same cmd v h = dispatch_fuel_same 2 cmd v h

  -- Two disks that answer alike of every path below the mount root and below the lower root, and
  -- differ elsewhere at will, give the same answers to any sequence of command lines, from a file
  -- system whose current directory has a normal path and which has these roots.
  pub answers-IsSameBelow :
      (cmds : List Text) (v : VirtualFileSystem)
      → IsSafe mount lower v
      → answers (world_of date d) cmds v ≡ answers (world_of date e) cmds v
  answers-IsSameBelow [] v h = refl
  answers-IsSameBelow (cmd ∷ cmds) v h = rw (dispatch_same cmd v h) (
      ap (λ z. (dispatch after_world cmd v).0 ∷ z)
        (answers-IsSameBelow cmds (dispatch after_world cmd v).1
          (dispatch-IsSafe mount lower after_world cmd v h)))
