-- ===== src/Gateway/Vfs/Listing.antt =====
-- crates/aegis-gateway/src/vfs.rs: `ls`. An entry is its name, its permissions, its length and
-- whether it is a directory.
use aegis_honeypot.Prelude.{
  ℕ, ◌*◌, Bool, true, false, not, ◌&&◌, ◌||◌, List, [], ◌∷◌, ◌++◌, Option, none, some,
  if◌then◌else◌, length, is_empty, is_some, list_eq, filter, map, drop,
}
use aegis_honeypot.Prelude.HashMap.{HashMap, get, insert}
use aegis_honeypot.Prelude.Sorting.{text_le, sort_by}
use aegis_honeypot.Prelude.Text.{
  PathBuf, Text, codes, newline, split_whitespace, starts_with, has_char, join, last_or, utf8_len,
  decimal, pad_left, concat,
}
use aegis_honeypot.Gateway.Vfs.{
  FsNode, file, dir, dir_node, children, Disk, VirtualFileSystem, resolve, resolve_upper_path,
  resolve_lower_path, get_node,
}
use aegis_honeypot.Gateway.Vfs.Reading.{is_flag, targets_of}

abbrev pub Entry : Type 0
Entry = Text × ℕ × Bool

-- The letters of all flags.
abbrev pub flags_of : Text → Text
flags_of args = concat (map (drop 1) (filter is_flag (split_whitespace args)))

abbrev pub show_hidden : Text → Bool
show_hidden args = has_char 97 (flags_of args) || has_char 65 (flags_of args)

abbrev pub is_long : Text → Bool
is_long args = has_char 108 (flags_of args)

abbrev pub list_targets : Text → VirtualFileSystem → List (List Text)
list_targets args v =
    let targets = targets_of args in
    if is_empty targets then v.current_path ∷ [] else map (resolve v) targets

abbrev long_line : Text → ℕ → ℕ → Text → Text
long_line perms links size name =
    perms
    ++ codes " "
    ++ decimal links
    ++ codes " root root "
    ++ pad_left 5 (decimal size)
    ++ codes " Aug 27 18:00 "
    ++ name
    ++ newline

abbrev file_line : Bool → Text → ℕ → Text
file_line long name size =
    if long then long_line (codes "-rw-r--r--") 1 size name else name ++ newline

abbrev pub node_entry : FsNode → Entry
node_entry (file f) = (f.perms, utf8_len f.content, false)
node_entry (dir (dir_node meta c)) = (meta.perms, 4096, true)

abbrev pub add_nodes : HashMap Text FsNode → HashMap Text Entry → HashMap Text Entry
add_nodes [] m = m
add_nodes ((name, node) ∷ nodes) m = add_nodes nodes (insert name (node_entry node) m)

-- The entries in memory.
abbrev pub memory_entries : Option FsNode → HashMap Text Entry
memory_entries none = []
memory_entries (some (file f)) = []
memory_entries (some (dir d)) = add_nodes (children d) []

abbrev pub disk_entry : ℕ → Bool → Entry
disk_entry size is_dir =
    if is_dir then (codes "drwxr-xr-x", 4096, true) else (codes "-rw-r--r--", size, false)

abbrev pub add_found : Option (List (Text × ℕ × Bool)) → HashMap Text Entry → HashMap Text Entry
add_found none m = m
add_found (some []) m = m
add_found (some ((name, size, is_dir) ∷ found)) m =
    add_found (some found) (insert name (disk_entry size is_dir) m)

abbrev names_of : HashMap Text Entry → List Text
names_of m = map (λ (e : Text × Entry). e.0) m

abbrev hidden_entries : Bool → List (Text × Entry)
hidden_entries hidden =
    if hidden
    then (codes ".", disk_entry 4096 true) ∷ (codes "..", disk_entry 4096 true) ∷ []
    else []

abbrev with_entry : Text → Option Entry → List (Text × Entry) → List (Text × Entry)
with_entry name none es = es
with_entry name (some e) es = (name, e) ∷ es

-- The entries in the order of their names, hidden ones as asked.
abbrev pub listed : Bool → HashMap Text Entry → List Text → List (Text × Entry)
listed hidden m [] = []
listed hidden m (name ∷ names) =
    let es = listed hidden m names in
    if not hidden && starts_with name (codes ".") then es else with_entry name (get name m) es

abbrev pub final_entries : Bool → HashMap Text Entry → List (Text × Entry)
final_entries hidden m = hidden_entries hidden ++ listed hidden m (sort_by text_le (names_of m))

abbrev entry_line : Text × Entry → Text
entry_line (name, (perms, size, is_dir)) = long_line perms (if is_dir then 2 else 1) size name

abbrev pub print_entries : Bool → List (Text × Entry) → Text
print_entries long es =
    if long
    then codes "total " ++ decimal (length es * 4) ++ newline ++ concat (map entry_line es)
    else if is_empty es
    then []
    else join (codes "  ") (map (λ (e : Text × Entry). e.0) es) ++ newline

-- The target as the error names it.
abbrev absolute : List Text → Text
absolute parts = if is_empty parts then codes "/" else codes "/" ++ join (codes "/") parts

abbrev no_such_target : List Text → Text
no_such_target parts =
    codes "ls: cannot access '" ++ absolute parts ++ codes "': No such file or directory" ++ newline

abbrev pub print_dir : Bool → Bool → List Text → Option FsNode → HashMap Text Entry → Text
print_dir hidden long parts node m =
    if is_empty m && not (is_empty parts) && not (is_some node)
    then no_such_target parts
    else print_entries long (final_entries hidden m)

abbrev pub list_unless : Option Text → Option Text → Text → Text
list_unless (some line) o s = line
list_unless none (some line) s = line
list_unless none none s = s

module _ (disk : Disk) where
  -- The line of a target that is a file on one layer of the disk.
  abbrev pub file_on : Bool → VirtualFileSystem → List Text → Option PathBuf → Option Text
  file_on long v parts none = none
  file_on long v parts (some p) =
      if disk.is_file v.calls p
      then some (file_line long (last_or parts (codes "?")) (disk.file_len v.calls p))
      else none

  -- The entries of one layer of the disk, over those so far.
  abbrev pub add_layer :
      VirtualFileSystem → Option PathBuf → HashMap Text Entry → HashMap Text Entry
  add_layer v none m = m
  add_layer v (some p) m =
      if disk.is_dir v.calls p then add_found (disk.list_dir v.calls p) m else m

  abbrev pub entries_map : VirtualFileSystem → List Text → HashMap Text Entry
  entries_map v parts =
      add_layer v (resolve_upper_path v parts)
        (add_layer v (resolve_lower_path v parts) (memory_entries (get_node parts v.root)))

  unfoldable pub ls_target : Bool → Bool → VirtualFileSystem → List Text → Text
  unfolding get_node get insert sort_by starts_with decimal join
  ls_target hidden long v parts =
      list_unless (file_on long v parts (resolve_upper_path v parts))
        (file_on long v parts (resolve_lower_path v parts))
        (print_dir hidden long parts (get_node parts v.root) (entries_map v parts))

  unfoldable pub ls : Text → VirtualFileSystem → Text
  unfolding ls_target split_whitespace starts_with resolve
  ls args v = concat (map (ls_target (show_hidden args) (is_long args) v) (list_targets args v))
