-- ===== src/Gateway/Vfs/Reading.antt =====
-- crates/aegis-gateway/src/vfs.rs: `cd` and `cat`, which ask the upper layer, the lower layer and
-- the tree in memory, in this order.
use aegis_honeypot.Prelude.{
  Bool, true, false, not, List, [], ◌∷◌, ◌++◌, Option, none, some, if◌then◌else◌, is_empty, list_eq,
  filter,
}
use aegis_honeypot.Prelude.Text.{
  PathBuf, Text, codes, newline, trim, split_whitespace, starts_with, ends_with, has_text,
  replace_crlf, replace_lf,
}
use aegis_honeypot.Gateway.Vfs.{
  FileNode, FsNode, file, dir, Disk, VirtualFileSystem, resolve, resolve_upper_path,
  resolve_lower_path, get_node,
}

abbrev pub is_flag : Text → Bool
is_flag t = starts_with t (codes "-")

-- The tokens of a command that are not flags.
abbrev pub targets_of : Text → List Text
targets_of args = filter (λ t. not (is_flag t)) (split_whitespace args)

-- What a command says of a target.
abbrev pub complaint : Text → Text → Text → Text
complaint command target problem = command ++ target ++ problem ++ newline

-- File content as the terminal shows it.
unfoldable pub shown : Text → Text
unfolding ends_with
shown content =
    let c = replace_lf (replace_crlf content) in if ends_with c newline then c else c ++ newline

abbrev pub node_is_dir : Option FsNode → Option Bool
node_is_dir none = none
node_is_dir (some (file f)) = some false
node_is_dir (some (dir d)) = some true

abbrev pub first_of : Option Bool → Option Bool → Option Bool
first_of none o = o
first_of (some b) o = some b

abbrev pub enter : Text → List Text → VirtualFileSystem → Option Bool → Text × VirtualFileSystem
enter arg parts v none =
    (complaint (codes "bash: cd: ") arg (codes ": No such file or directory"), v)
enter arg parts v (some false) = (complaint (codes "bash: cd: ") arg (codes ": Not a directory"), v)
enter arg parts v (some true) = ([], record v { current_path = parts })

abbrev pub cd_parts : Text → VirtualFileSystem → List Text
cd_parts arg v = if is_empty arg then codes "root" ∷ [] else resolve v arg

abbrev cat_file : Text → FileNode → Text
cat_file target f =
    if f.permission_denied
    then complaint (codes "cat: ") target (codes ": Permission denied")
    else shown f.content

abbrev pub cat_node : Text → Option FsNode → Text
cat_node target none = complaint (codes "cat: ") target (codes ": No such file or directory")
cat_node target (some (dir d)) = complaint (codes "cat: ") target (codes ": Is a directory")
cat_node target (some (file f)) = cat_file target f

abbrev pub or_text : Option Text → Text → Text
or_text none s = s
or_text (some t) s = t

module _ (disk : Disk) where
  -- What one layer of the disk says of a change to a directory: `none` where nothing is there.
  abbrev pub layer_is_dir : VirtualFileSystem → Option PathBuf → Option Bool
  layer_is_dir v none = none
  layer_is_dir v (some p) = if disk.exists v.calls p then some (disk.is_dir v.calls p) else none

  -- What the layers say in their order: the upper one, the lower one, the tree in memory.
  unfoldable pub is_dir_at : VirtualFileSystem → List Text → Option Bool
  unfolding get_node
  is_dir_at v parts =
      first_of (layer_is_dir v (resolve_upper_path v parts)) (
        first_of (layer_is_dir v (resolve_lower_path v parts))
          (node_is_dir (get_node parts v.root)))

  unfoldable pub cd : Text → VirtualFileSystem → Text × VirtualFileSystem
  unfolding trim resolve is_dir_at
  cd args v =
      let parts = cd_parts (trim args) v in
      if is_empty parts
      then ([], record v { current_path = parts })
      else enter (trim args) parts v (is_dir_at v parts)

  abbrev pub read_layer : Text → VirtualFileSystem → PathBuf → Option Text
  read_layer target v p =
      if not (disk.exists v.calls p)
      then none
      else if disk.is_dir v.calls p
      then some (complaint (codes "cat: ") target (codes ": Is a directory"))
      else elim (disk.read v.calls p) [ none ↦ none | some content ↦ some (shown content) ]

  -- What one layer of the disk prints; `none` where the next one is asked.
  abbrev pub cat_layer : Text → VirtualFileSystem → Option PathBuf → Option Text
  cat_layer target v none = none
  cat_layer target v (some p) = read_layer target v p

  unfoldable pub cat_target : VirtualFileSystem → Text → Text
  unfolding shown resolve get_node has_text
  cat_target v target =
      let parts = resolve v target in
      if has_text (codes "shadow") target
      then complaint (codes "cat: ") target (codes ": Permission denied")
      else or_text (cat_layer target v (resolve_upper_path v parts)) (
          or_text (cat_layer target v (resolve_lower_path v parts))
            (cat_node target (get_node parts v.root)))

  unfoldable pub cat_targets : VirtualFileSystem → List Text → Text
  unfolding cat_target
  cat_targets v [] = []
  cat_targets v (t ∷ ts) = cat_target v t ++ cat_targets v ts

  unfoldable pub cat : Text → VirtualFileSystem → Text
  unfolding cat_targets split_whitespace starts_with
  cat args v = cat_targets v (targets_of args)
