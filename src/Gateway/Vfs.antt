-- ===== src/Gateway/Vfs.antt =====
-- crates/aegis-gateway/src/vfs.rs: the file system that a session shows, the nodes of its tree in
-- memory and the resolution of paths. A path on the disk is the list of its components, so `push`
-- of a name appends it. The calls that change the disk are kept in `calls`, newest first, and
-- what the disk answers may depend on all of them.
pub mod DefaultFs
pub mod Listing
pub mod Reading
pub mod Commands
pub mod Paths
pub mod Tree
pub mod Contents
pub mod Removal
pub mod Errors
pub mod Confined
pub mod Unseen
mod Tests
use aegis_honeypot.Prelude.{
  ℕ, Bool, true, false, ◌&&◌, ◌||◌, List, [], ◌∷◌, ◌++◌, Option, none, some, if◌then◌else◌,
  is_empty, list_beq, list_eq, drop_last,
}
use aegis_honeypot.Prelude.HashMap.{HashMap, get, insert, remove, contains_key}
use aegis_honeypot.Prelude.Text.{
  PathBuf, Text, codes, newline, trim, starts_with, has_char, split, join, trim_start_matches,
}

pub record FileNode : Type 0 where
  pub content : Text
  pub perms : Text
  pub owner : Text
  pub group : Text
  pub mtime : Text
  pub permission_denied : Bool

-- What a `DirNode` holds beside its children.
pub record DirMeta : Type 0 where
  pub perms : Text
  pub owner : Text
  pub group : Text
  pub mtime : Text

mutual
  pub data FsNode : Type 0 where
    file : FileNode → FsNode
    dir : DirNode → FsNode

  pub data DirNode : Type 0 where
    dir_node : DirMeta → Children → DirNode

  pub data Children : Type 0 where
    no_child : Children
    child : Text → FsNode → Children → Children

-- The children as a map, and back.
abbrev pub entries : Children → HashMap Text FsNode
entries no_child = []
entries (child name node rest) = (name, node) ∷ entries rest

abbrev pub children_of : HashMap Text FsNode → Children
children_of [] = no_child
children_of ((name, node) ∷ m) = child name node (children_of m)

abbrev pub children : DirNode → HashMap Text FsNode
children (dir_node meta c) = entries c

abbrev pub set_children : DirNode → HashMap Text FsNode → DirNode
set_children (dir_node meta c) m = dir_node meta (children_of m)

-- `FileNode::new`.
abbrev pub new_file : Text → FileNode
new_file content = record {
  content = content;
  perms = codes "-rw-r--r--";
  owner = codes "root";
  group = codes "root";
  mtime = codes "Aug 27 18:00";
  permission_denied = false;
}

abbrev pub denied : FileNode → FileNode
denied f = record f { permission_denied = true; perms = codes "-rw-r-----"; group = codes "shadow" }

-- `DirNode::new`.
abbrev pub new_dir : DirNode
new_dir =
    dir_node
      (record {
        perms = codes "drwxr-xr-x";
        owner = codes "root";
        group = codes "root";
        mtime = codes "Aug 27 18:00";
      })
      no_child

abbrev pub with_perms : Text → DirNode → DirNode
with_perms p (dir_node meta c) = dir_node (record meta { perms = p }) c

-- `children.insert(name, node)`.
abbrev pub insert_child : Text → FsNode → DirNode → DirNode
insert_child name node d = set_children d (insert name node (children d))

-- `children.remove(name)`.
abbrev pub remove_child : Text → DirNode → DirNode
remove_child name d = set_children d (remove name (children d))

-- The calls that change the disk.
pub data DiskCall : Type 0 where
  create_dir_all create_dir remove_dir_all remove_file create_file : PathBuf → DiskCall
  write append : PathBuf → Text → DiskCall

abbrev pub path_of : DiskCall → PathBuf
path_of (create_dir_all p) = p
path_of (create_dir p) = p
path_of (remove_dir_all p) = p
path_of (remove_file p) = p
path_of (create_file p) = p
path_of (write p s) = p
path_of (append p s) = p

-- What the standard library answers of a path, after the calls made so far. `read` is `none` on
-- an error; `list_dir` gives the name, the length and whether it is a directory.
pub record Disk : Type 0 where
  pub exists : List DiskCall → PathBuf → Bool
  pub is_dir : List DiskCall → PathBuf → Bool
  pub is_file : List DiskCall → PathBuf → Bool
  pub file_len : List DiskCall → PathBuf → ℕ
  pub read : List DiskCall → PathBuf → Option Text
  pub list_dir : List DiskCall → PathBuf → Option (List (Text × ℕ × Bool))

pub record VirtualFileSystem : Type 0 where
  pub current_path : List Text
  pub mount_root : Option PathBuf
  pub lower_root : Option PathBuf
  pub root : DirNode
  pub calls : List DiskCall

abbrev pub current_path_str : VirtualFileSystem → Text
current_path_str v =
    if is_empty v.current_path then codes "/" else codes "/" ++ join (codes "/") v.current_path

-- One component of a path.
unfoldable pub add_component : Text → List Text → List Text
add_component c parts =
    if is_empty c || list_beq c (codes ".")
    then parts
    else if list_beq c (codes "..")
    then drop_last parts
    else parts ++ c ∷ []

unfoldable pub add_components : List Text → List Text → List Text
unfolding add_component
add_components [] parts = parts
add_components (c ∷ cs) parts = add_components cs (add_component c parts)

-- What stands behind `~`.
abbrev pub from_home : Text → List Text
from_home rest =
    if is_empty rest then codes "root" ∷ [] else add_components (split 47 rest) (codes "root" ∷ [])

unfoldable pub resolve_trimmed : VirtualFileSystem → Text → List Text
unfolding add_components starts_with split
resolve_trimmed v path =
    if is_empty path
    then v.current_path
    else if starts_with path (codes "/")
    then add_components (split 47 path) []
    else if starts_with path (codes "~")
    then from_home (trim_start_matches 47 (trim_start_matches 126 path))
    else add_components (split 47 path) v.current_path

unfoldable pub resolve : VirtualFileSystem → Text → List Text
unfolding trim resolve_trimmed
resolve v path = resolve_trimmed v (trim path)

-- The parts that are not names of an entry.
abbrev pub is_skipped : Text → Bool
is_skipped part =
    is_empty part || list_beq part (codes ".") || list_beq part (codes "..") || has_char 47 part

unfoldable pub resolve_disk_path_base : PathBuf → List Text → PathBuf
resolve_disk_path_base base [] = base
resolve_disk_path_base base (part ∷ parts) =
    resolve_disk_path_base (if is_skipped part then base else base ++ part ∷ []) parts

abbrev pub disk_path : Option PathBuf → List Text → Option PathBuf
disk_path none parts = none
disk_path (some base) parts = some (resolve_disk_path_base base parts)

abbrev pub resolve_upper_path : VirtualFileSystem → List Text → Option PathBuf
resolve_upper_path v parts = disk_path v.mount_root parts

abbrev pub resolve_lower_path : VirtualFileSystem → List Text → Option PathBuf
resolve_lower_path v parts = disk_path v.lower_root parts

-- `get_dir_mut(parts).map(f)`: the directory at a path, changed in its place, where there is one.
abbrev pub in_dir : (DirNode → DirNode) → FsNode → FsNode
in_dir f (file n) = file n
in_dir f (dir d) = dir (f d)

abbrev pub put_child : Text → (DirNode → DirNode) → Option FsNode → DirNode → DirNode
put_child name f none d = d
put_child name f (some node) d = insert_child name (in_dir f node) d

unfoldable pub modify_dir : List Text → (DirNode → DirNode) → DirNode → DirNode
unfolding get insert
modify_dir [] f d = f d
modify_dir (p ∷ ps) f d = put_child p (modify_dir ps f) (get p (children d)) d

abbrev pub as_dir : Option FsNode → Option DirNode
as_dir none = none
as_dir (some (file n)) = none
as_dir (some (dir d)) = some d

abbrev pub and_then : {A : Type 0} → Option DirNode → (DirNode → Option A) → Option A
and_then none f = none
and_then (some d) f = f d

-- `get_node_safe`.
unfoldable pub get_node : List Text → DirNode → Option FsNode
unfolding get
get_node [] d = some (dir d)
get_node (p ∷ []) d = get p (children d)
get_node (p ∷ q ∷ ps) d = and_then (as_dir (get p (children d))) (get_node (q ∷ ps))

-- `get_dir_mut`, read.
unfoldable pub get_dir : List Text → DirNode → Option DirNode
unfolding get
get_dir [] d = some d
get_dir (p ∷ ps) d = and_then (as_dir (get p (children d))) (get_dir ps)

abbrev pub pwd : VirtualFileSystem → Text
pwd v = current_path_str v ++ newline
