-- ===== src/Gateway/Vfs/Tests.antt =====
-- The file system at concrete inputs.
use aegis_honeypot.Prelude.{
  ◌≡◌, inl, inr, refl, Bool, true, false, List, [], ◌∷◌, ◌++◌, Option, none, some, list_beq, ◌&&◌,
  list_eq, if◌then◌else◌, is_some,
}
use aegis_honeypot.Prelude.HashMap.{get, insert, remove}
use aegis_honeypot.Prelude.Sorting.{sort_by}
use aegis_honeypot.Prelude.Text.{
  PathBuf, Text, codes, newline, trim, trim_start, is_whitespace, split, split_whitespace,
  split_at_spaces, decimal, join, starts_with, ends_with, has_text,
}
use aegis_honeypot.Gateway.Vfs.{
  file, dir, DirNode, new_dir, new_file, insert_child, Disk, DiskCall, write, append,
  create_dir_all, create_dir, remove_dir_all, remove_file, create_file, VirtualFileSystem,
  add_component, add_components, resolve_trimmed, resolve, resolve_disk_path_base, modify_dir,
  get_node, get_dir,
}
use aegis_honeypot.Gateway.Vfs.Reading.{shown, or_text, is_dir_at, cd, cat_target, cat_targets, cat}
use aegis_honeypot.Gateway.Vfs.Listing.{ls_target, ls}
use aegis_honeypot.Gateway.Vfs.Commands.{
  make_dirs, mkdir_target, mkdir, touch_target, touch, rm_target, rm, write_file,
}
use aegis_honeypot.Gateway.Vfs.Removal.{HasDirsOf, rm-HasDirsOf}
use aegis_honeypot.Gateway.Vfs.Errors.{IsTarget, IsJudged, cd-IsMoved}

program : Unit {0}
unfolding trim trim_start is_whitespace split split_whitespace split_at_spaces decimal join list_beq
    starts_with ends_with has_text get insert remove add_component add_components resolve_trimmed
    resolve resolve_disk_path_base modify_dir get_node get_dir shown is_dir_at cd cat_target
    cat_targets cat sort_by ls_target ls make_dirs mkdir_target mkdir touch_target touch rm_target
    rm write_file
program = tt

abbrev path_beq : PathBuf → PathBuf → Bool
path_beq [] [] = true
path_beq [] (d ∷ ds) = false
path_beq (c ∷ cs) [] = false
path_beq (c ∷ cs) (d ∷ ds) = list_beq c d && path_beq cs ds

-- A disk that holds what was written last, and no directory.
abbrev content_of : List DiskCall → PathBuf → Option Text
content_of [] q = none
content_of (create_dir_all p ∷ cs) q = content_of cs q
content_of (create_dir p ∷ cs) q = content_of cs q
content_of (remove_dir_all p ∷ cs) q = content_of cs q
content_of (remove_file p ∷ cs) q = content_of cs q
content_of (create_file p ∷ cs) q = content_of cs q
content_of (write p s ∷ cs) q = if path_beq p q then some s else content_of cs q
content_of (append p s ∷ cs) q =
    if path_beq p q then some (or_text (content_of cs q) [] ++ s) else content_of cs q

abbrev files : Disk
files = record {
  exists = λ cs p. is_some (content_of cs p);
  is_dir = λ cs p. false;
  is_file = λ cs p. is_some (content_of cs p);
  file_len = λ cs p. 0;
  read = content_of;
  list_dir = λ cs p. none;
}

-- `/root/log` holds a line; the session is in `/root`.
abbrev home : DirNode
home = insert_child (codes "log") (file (new_file (codes "a\n"))) new_dir

abbrev here : VirtualFileSystem
here = record {
  current_path = codes "root" ∷ [];
  mount_root = none;
  lower_root = none;
  root = insert_child (codes "root") (dir home) new_dir;
  calls = [];
}

abbrev mounted : VirtualFileSystem
mounted = record here {
  mount_root = some (codes "mnt" ∷ []);
  calls = write (codes "mnt" ∷ codes "root" ∷ codes "log" ∷ []) (codes "a\n") ∷ [];
}

cat_appended_log :
    cat files (codes "../root/log") (write_file (codes "log") (codes "b\n") true mounted).1
    ≡ codes "a" ++ newline ++ codes "b" ++ newline
unfolding program
cat_appended_log = refl

rm-HasDirsOf_example : HasDirsOf here (rm files (codes "-f . log /") here).1
unfolding program
rm-HasDirsOf_example =
    rm-HasDirsOf files (codes "-f . log /") here
      (inr (refl, refl), (inl refl, (inl refl, (inl refl, tt))))

rm_log :
    cat files (codes "log") (rm files (codes "-f . log /") here).1
    ≡ codes "cat: log: No such file or directory" ++ newline
unfolding program
rm_log = refl

cd-IsMoved_example :
    (parts : List Text) × IsTarget here (trim (codes " log")) parts
    × IsJudged files here parts (cd files (codes " log") here)
cd-IsMoved_example = cd-IsMoved files (codes " log") here
