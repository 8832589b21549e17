-- ===== src/Gateway/Vfs/Commands.antt =====
-- crates/aegis-gateway/src/vfs.rs: the commands that change the file system. Each loop over targets
-- carries the output so far, whose emptiness some of the tests read.
use aegis_honeypot.Prelude.{
  Bool, not, ◌&&◌, ◌||◌, List, [], ◌∷◌, ◌++◌, Option, none, some, if◌then◌else◌, is_empty, list_beq,
  list_eq, any, drop_last,
}
use aegis_honeypot.Prelude.HashMap.{get, insert, remove, contains_key}
use aegis_honeypot.Prelude.Text.{
  PathBuf, Text, codes, newline, split_whitespace, starts_with, has_char, last_or,
}
use aegis_honeypot.Gateway.Vfs.{
  FsNode, file, dir, DirNode, children, insert_child, remove_child, new_file, new_dir, DiskCall,
  create_dir_all, create_dir, remove_dir_all, remove_file, create_file, write, append, Disk,
  VirtualFileSystem, resolve, resolve_upper_path, modify_dir, get_dir,
}
use aegis_honeypot.Gateway.Vfs.Reading.{is_flag, targets_of, complaint}

-- `Path::parent`.
abbrev pub parent_of : PathBuf → Option PathBuf
parent_of [] = none
parent_of (c ∷ cs) = some (drop_last (c ∷ cs))

abbrev pub call : DiskCall → VirtualFileSystem → VirtualFileSystem
call c v = record v { calls = c ∷ v.calls }

-- `if let Some(parent) = upper.parent() { create_dir_all(parent) }`.
abbrev pub create_parent : Option PathBuf → VirtualFileSystem → VirtualFileSystem
create_parent none v = v
create_parent (some parent) v = call (create_dir_all parent) v

abbrev pub name_of : List Text → Text
name_of parts = last_or parts []

-- A change of the directory that holds the last part.
abbrev pub in_parent : List Text → (DirNode → DirNode) → VirtualFileSystem → VirtualFileSystem
in_parent parts f v = record v { root = modify_dir (drop_last parts) f v.root }

-- A target of a command that changes the file system: the output before and after it.
abbrev pub Step : Type 0
Step = Text → Text × VirtualFileSystem → Text × VirtualFileSystem

abbrev pub each : Step → List Text → Text × VirtualFileSystem → Text × VirtualFileSystem
each step [] w = w
each step (t ∷ ts) w = each step ts (step t w)

abbrev pub say : Text → Text × VirtualFileSystem → Text × VirtualFileSystem
say s (output, v) = (output ++ s, v)

abbrev pub say_first : Text → Text × VirtualFileSystem → Text × VirtualFileSystem
say_first s (output, v) = (if is_empty output then s else output, v)

abbrev file_exists : Text → Text
file_exists target =
    complaint (codes "mkdir: cannot create directory '") target (codes "': File exists")

-- `mkdir -p` in memory: every directory on the way that is not there is made.
abbrev ensure_dir : Text → DirNode → DirNode
ensure_dir p d = if contains_key p (children d) then d else insert_child p (dir new_dir) d

unfoldable pub make_dirs : List Text → DirNode → DirNode
unfolding get insert modify_dir
make_dirs [] d = d
make_dirs (p ∷ ps) d = modify_dir (p ∷ []) (make_dirs ps) (ensure_dir p d)

abbrev pub mkdir_in :
    Text → List Text → Option DirNode → Text × VirtualFileSystem → Text × VirtualFileSystem
mkdir_in target parts none w =
    say_first
      (complaint (codes "mkdir: cannot create directory '") target
        (codes "': No such file or directory"))
      w
mkdir_in target parts (some parent) (output, v) =
    if contains_key (name_of parts) (children parent)
    then say_first (file_exists target) (output, v)
    else (output, in_parent parts (insert_child (name_of parts) (dir new_dir)) v)

-- The update in memory.
abbrev pub mkdir_memory :
    Bool → Text → List Text → Text × VirtualFileSystem → Text × VirtualFileSystem
mkdir_memory parents target parts (output, v) =
    if parents
    then (output, record v { root = make_dirs parts v.root })
    else mkdir_in target parts (get_dir (drop_last parts) v.root) (output, v)

-- `else if let Some(parent) = upper.parent()`.
abbrev pub make_under : PathBuf → Option PathBuf → VirtualFileSystem → VirtualFileSystem
make_under p none v = v
make_under p (some parent) v = call (create_dir p) (call (create_dir_all parent) v)

abbrev pub with_parents : Text → Bool
with_parents args = any (λ t. list_beq t (codes "-p")) (split_whitespace args)

abbrev pub touch_disk : Option PathBuf → VirtualFileSystem → VirtualFileSystem
touch_disk none v = v
touch_disk (some p) v = call (create_file p) (create_parent (parent_of p) v)

abbrev pub touch_entry : Text → DirNode → DirNode
touch_entry name d =
    if contains_key name (children d) then d else insert_child name (file (new_file [])) d

unfoldable pub touch_target : Step
unfolding resolve modify_dir get insert
touch_target target (output, v) =
    let parts = resolve v target in
    if is_empty parts then (output, v) else (
      output,
      in_parent parts (touch_entry (name_of parts)) (touch_disk (resolve_upper_path v parts) v),
    )

unfoldable pub touch : Text → VirtualFileSystem → Text × VirtualFileSystem
unfolding touch_target split_whitespace starts_with
touch args v =
    if is_empty (targets_of args)
    then (codes "touch: missing file operand" ++ newline, v)
    else each touch_target (targets_of args) ([], v)

abbrev pub is_recursive : Text → Bool
is_recursive args =
    any (λ t. is_flag t && (has_char 114 t || has_char 82 t)) (split_whitespace args)

abbrev pub is_forced : Text → Bool
is_forced args = any (λ t. is_flag t && has_char 102 t) (split_whitespace args)

abbrev pub cannot_remove : Text → Text → Text
cannot_remove target problem = complaint (codes "rm: cannot remove '") target problem

abbrev pub rm_node :
    Bool
    → Bool
    → Text
    → List Text
    → Option FsNode
    → Text × VirtualFileSystem
    → Text × VirtualFileSystem
rm_node recursive force target parts none w =
    if force then w else say_first (cannot_remove target (codes "': No such file or directory")) w
rm_node recursive force target parts (some (file f)) (output, v) =
    (output, in_parent parts (remove_child (name_of parts)) v)
rm_node recursive force target parts (some (dir d)) (output, v) =
    if recursive
    then (output, in_parent parts (remove_child (name_of parts)) v)
    else if force
    then (output, v)
    else say_first (cannot_remove target (codes "': Is a directory")) (output, v)

abbrev pub rm_in :
    Bool
    → Bool
    → Text
    → List Text
    → Option DirNode
    → Text × VirtualFileSystem
    → Text × VirtualFileSystem
rm_in recursive force target parts none w = w
rm_in recursive force target parts (some parent) w =
    rm_node recursive force target parts (get (name_of parts) (children parent)) w

-- The removal in memory.
abbrev pub rm_memory :
    Bool → Bool → Text → List Text → Text × VirtualFileSystem → Text × VirtualFileSystem
rm_memory recursive force target parts (output, v) =
    rm_in recursive force target parts (get_dir (drop_last parts) v.root) (output, v)

abbrev pub write_disk : Bool → Text → Option PathBuf → VirtualFileSystem → VirtualFileSystem
write_disk appending content none v = v
write_disk appending content (some p) v =
    call (if appending then append p content else write p content) (create_parent (parent_of p) v)

abbrev pub appended : Text → Option FsNode → FsNode
appended content none = file (new_file content)
appended content (some (dir d)) = file (new_file content)
appended content (some (file f)) = file (record f { content = f.content ++ content })

abbrev pub written : Bool → Text → Text → DirNode → DirNode
written appending content name d =
    insert_child name
      (if appending then appended content (get name (children d)) else file (new_file content)) d

unfoldable pub write_file : Text → Text → Bool → VirtualFileSystem → Text × VirtualFileSystem
unfolding resolve modify_dir get insert
write_file target content appending v =
    let parts = resolve v target in
    if is_empty parts then (complaint (codes "bash: ") target (codes ": Is a directory"), v) else (
      [],
      in_parent parts (written appending content (name_of parts))
          (write_disk appending content (resolve_upper_path v parts) v),
    )

module _ (disk : Disk) where
  abbrev pub mkdir_both :
      Bool → Text → List Text → Option PathBuf → Text × VirtualFileSystem → Text × VirtualFileSystem
  mkdir_both parents target parts none w = mkdir_memory parents target parts w
  mkdir_both parents target parts (some p) (output, v) =
      if parents
      then mkdir_memory parents target parts (output, call (create_dir_all p) v)
      else if disk.exists v.calls p
      then (output ++ file_exists target, v)
      else mkdir_memory parents target parts (output, make_under p (parent_of p) v)

  unfoldable pub mkdir_target : Bool → Step
  unfolding resolve modify_dir get_dir make_dirs get insert
  mkdir_target parents target (output, v) =
      let parts = resolve v target in
      if is_empty parts
      then (output ++ file_exists (codes "/"), v)
      else mkdir_both parents target parts (resolve_upper_path v parts) (output, v)

  unfoldable pub mkdir : Text → VirtualFileSystem → Text × VirtualFileSystem
  unfolding mkdir_target split_whitespace starts_with
  mkdir args v =
      if is_empty (targets_of args)
      then (codes "mkdir: missing operand" ++ newline, v)
      else each (mkdir_target (with_parents args)) (targets_of args) ([], v)

  abbrev pub rm_both :
      Bool
      → Bool
      → Text
      → List Text
      → Option PathBuf
      → Text × VirtualFileSystem
      → Text × VirtualFileSystem
  rm_both recursive force target parts none w = rm_memory recursive force target parts w
  rm_both recursive force target parts (some p) (output, v) =
      if not (disk.exists v.calls p)
      then rm_memory recursive force target parts (output, v)
      else if not (disk.is_dir v.calls p)
      then rm_memory recursive force target parts (output, call (remove_file p) v)
      else if recursive
      then rm_memory recursive force target parts (output, call (remove_dir_all p) v)
      else if force
      then rm_memory recursive force target parts (output, v)
      else (output ++ cannot_remove target (codes "': Is a directory"), v)

  unfoldable pub rm_target : Bool → Bool → Step
  unfolding resolve modify_dir get_dir get insert remove
  rm_target recursive force target (output, v) =
      let parts = resolve v target in
      if is_empty parts
      then (output ++ codes "rm: it is dangerous to operate recursively on '/'" ++ newline, v)
      else rm_both recursive force target parts (resolve_upper_path v parts) (output, v)

  unfoldable pub rm : Text → VirtualFileSystem → Text × VirtualFileSystem
  unfolding rm_target split_whitespace starts_with
  rm args v =
      if is_empty (targets_of args)
      then (if is_forced args then [] else codes "rm: missing operand" ++ newline, v)
      else each (rm_target (is_recursive args) (is_forced args)) (targets_of args) ([], v)
