-- ===== src/Gateway/Shell/Tests.antt =====
-- The shell over small disks, and the theorems at concrete inputs.
use aegis_honeypot.Prelude.{
  ◌≡◌, ◌⊎◌, ℕ, true, inl, inr, refl, Bool, false, List, [], ◌∷◌, ◌++◌, none, some, arith, list_beq,
  if◌then◌else◌,
}
use aegis_honeypot.Prelude.HashMap.{get, insert, remove}
use aegis_honeypot.Prelude.Sorting.{sort_by}
use aegis_honeypot.Prelude.Text.{
  PathBuf, Text, codes, newline, trim, trim_start, is_whitespace, split, split_whitespace,
  split_at_spaces, decimal, join, starts_with, ends_with, has_text,
}
use aegis_honeypot.Gateway.Vfs.{
  Disk, VirtualFileSystem, add_component, add_components, resolve_trimmed, resolve,
  resolve_disk_path_base, modify_dir, get_node, get_dir,
}
use aegis_honeypot.Gateway.Vfs.DefaultFs.{build_default_fs}
use aegis_honeypot.Gateway.Vfs.Reading.{shown, is_dir_at, cd, cat_target, cat_targets, cat}
use aegis_honeypot.Gateway.Vfs.Listing.{ls_target, ls}
use aegis_honeypot.Gateway.Vfs.Commands.{
  make_dirs, mkdir_target, mkdir, touch_target, touch, rm_target, rm, write_file,
}
use aegis_honeypot.Net.{v4}
use aegis_honeypot.Gateway.Session.{ActiveSession, Env}
use aegis_honeypot.Gateway.Session.Handler.{
  Call, received, close, handle_all, fresh as fresh_session,
}
use aegis_honeypot.Gateway.Shell.Typed.{with_shell, handle_all-IsSafe}
use aegis_honeypot.Gateway.Shell.{
  cut_append, cut_write, parse_redirect, strip_once, strip_sudo, dispatch_pure, dispatch_body,
  dispatch_fuel, dispatch,
}
use aegis_honeypot.Gateway.Vfs.Confined.{IsInside, IsSafe}
use aegis_honeypot.Gateway.Vfs.Unseen.{IsSameBelow}
use aegis_honeypot.Gateway.Shell.Unseen.{answers, world_of, answers-IsSameBelow}
use aegis_honeypot.Gateway.Shell.Loops.{strip_sudo-ends, dispatch-dispatch_body}
use aegis_honeypot.Gateway.Shell.Replies.{World, cut, unquote, echo, reply}

program : Unit {0}
unfolding trim trim_start is_whitespace split split_whitespace split_at_spaces decimal join list_beq
    starts_with ends_with has_text get insert remove add_component add_components resolve_trimmed
    resolve resolve_disk_path_base modify_dir get_node get_dir shown is_dir_at cd cat_target
    cat_targets cat sort_by ls_target ls make_dirs mkdir_target mkdir touch_target touch rm_target
    rm write_file cut_append cut_write parse_redirect strip_once strip_sudo dispatch_pure
    dispatch_body dispatch_fuel dispatch cut unquote echo reply
program = tt

-- A disk without any file.
abbrev no_files : Disk
no_files = record {
  exists = λ calls p. false;
  is_dir = λ calls p. false;
  is_file = λ calls p. false;
  file_len = λ calls p. 0;
  read = λ calls p. none;
  list_dir = λ calls p. none;
}

abbrev world : World
world = record { disk = no_files; date = λ calls. codes "now" }

abbrev fresh : VirtualFileSystem
unfolding program
fresh = record {
  current_path = codes "root" ∷ [];
  mount_root = some (codes "mnt" ∷ []);
  lower_root = none;
  root = build_default_fs;
  calls = [];
}

fresh-IsSafe : IsSafe (some (codes "mnt" ∷ [])) none fresh
unfolding program
fresh-IsSafe = record {
  here = ((refl, refl, refl, refl), tt);
  mount_kept = refl;
  lower_kept = refl;
  confined = tt;
}

-- Commands that climb above the root, write and remove.
abbrev lines : List Text
lines =
    codes "cd ../../../tmp"
    ∷ codes "mkdir a; echo x > a"
    ∷ codes "rm -rf ../../.."
    ∷ codes "sudo rm -r ../a"
    ∷ []

-- A disk with one file, which is outside the mount.
abbrev is_secret : PathBuf → Bool
is_secret [] = false
is_secret (c ∷ cs) = list_beq c (codes "secret")

abbrev one_secret : Disk
one_secret = record {
  exists = λ calls p. is_secret p;
  is_dir = λ calls p. false;
  is_file = λ calls p. is_secret p;
  file_len = λ calls p. 0;
  read = λ calls p. if is_secret p then some (codes "key") else none;
  list_dir = λ calls p. none;
}

below_mount :
    (p : PathBuf) → IsInside (some (codes "mnt" ∷ [])) p ⊎ IsInside none p → is_secret p ≡ false
unfolding program
below_mount p (inl (names, n, e)) = rw e refl
below_mount p (inr i) = elim i [ ]

secret_hidden : IsSameBelow (some (codes "mnt" ∷ [])) none one_secret no_files
secret_hidden calls p i = record {
  same_exists = below_mount p i;
  same_is_dir = refl;
  same_is_file = below_mount p i;
  same_len = refl;
  same_read = rw (below_mount p i) refl;
  same_list = refl;
}

abbrev spying : List Text
spying = codes "cat ../../secret" ∷ codes "ls -la /../secret" ∷ []

answers-IsSameBelow_example :
    answers (world_of (λ calls. []) one_secret) spying fresh
    ≡ answers (world_of (λ calls. []) no_files) spying fresh
answers-IsSameBelow_example =
    answers-IsSameBelow (some (codes "mnt" ∷ [])) none one_secret no_files (λ calls. [])
      secret_hidden spying fresh fresh-IsSafe

strip_sudo-ends_example :
    (strip_once (strip_sudo 20 (codes "sudo sudo id")) ≡ none)
    × (strip_sudo 20 (codes "sudo sudo id") ≡ strip_sudo 12 (codes "sudo sudo id"))
strip_sudo-ends_example = strip_sudo-ends 20 (codes "sudo sudo id") (omega arith)

strip_sudo_nested : strip_sudo 12 (codes "sudo sudo id") ≡ codes "id"
unfolding program
strip_sudo_nested = refl

dispatch-dispatch_body_example :
    (dispatch world (codes "whoami; id") fresh
      ≡ dispatch_body world (dispatch world) (codes "whoami; id") fresh)
    × (dispatch_fuel world 7 (codes "whoami; id") fresh ≡ dispatch world (codes "whoami; id") fresh)
dispatch-dispatch_body_example = dispatch-dispatch_body world 5 (codes "whoami; id") fresh

echo_lone_quote : echo (codes "\"") ≡ codes "\"" ++ newline
unfolding program
echo_lone_quote = refl

-- A redirect takes everything before it as one command: here `whoami;` is no command.
redirect_before_semicolon :
    (cat no_files
      (codes "/tmp/f")
      (dispatch world (codes "whoami; id > /tmp/f") (record fresh { mount_root = none })).1)
    ≡ codes "bash: whoami;: command not found" ++ newline
unfolding program
redirect_before_semicolon = refl

-- A session that types two of these lines; its channel takes everything and nothing else answers.
abbrev env : Env ℕ VirtualFileSystem ℕ
env = record {
  dispatch = λ cmd v. ([], v);
  current_path = λ v. [];
  is_download = λ cmd. false;
  urls = λ cmd. [];
  is_pipe_shell = λ cmd. false;
  fetch = λ url. none;
  teardown = λ b. none;
  now = λ t. 0;
  elapsed = λ t. 0;
  accepts = λ t. true;
  lookup = λ ip. none;
  fetch_payloads = false;
  max_fetches_per_session = 0;
}

abbrev session : ActiveSession ℕ VirtualFileSystem ℕ
session =
    fresh_session
      (record {
        session_id = codes "abc";
        client_ip = v4 (record { o0 = 203; o1 = 0; o2 = 113; o3 = 5 });
        client_port = 4444;
      })
      fresh none

abbrev typed : List Call
typed = received (codes "cd ../../../tmp" ++ 13 ∷ codes "rm -r ../a" ++ 13 ∷ []) ∷ close ∷ []

handle_all-IsSafe_example :
    IsSafe (some (codes "mnt" ∷ [])) none (handle_all (with_shell world env) typed session).vfs
handle_all-IsSafe_example =
    handle_all-IsSafe (some (codes "mnt" ∷ [])) none world env typed session fresh-IsSafe
