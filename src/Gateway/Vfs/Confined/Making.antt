-- ===== src/Gateway/Vfs/Confined/Making.antt =====
-- `mkdir` stays within the mount.
use aegis_honeypot.Prelude.{
  Bool, true, false, List, [], Option, none, some, if_ind, is_empty, drop_last, list_eq,
}
use aegis_honeypot.Prelude.HashMap.{contains_key}
use aegis_honeypot.Prelude.Text.{PathBuf, Text}
use aegis_honeypot.Gateway.Vfs.{
  DirNode, children, create_dir_all, create_dir, Disk, VirtualFileSystem, resolve,
  resolve_upper_path, get_dir,
}
use aegis_honeypot.Gateway.Vfs.Reading.{targets_of}
use aegis_honeypot.Gateway.Vfs.Commands.{
  parent_of, call, mkdir_target, mkdir, with_parents, mkdir_memory, make_under, mkdir_in,
  mkdir_both, name_of,
}
use aegis_honeypot.Gateway.Vfs.Paths.{resolve-IsNormal}
use aegis_honeypot.Gateway.Vfs.Confined.{
  IsEntry, IsTarget, IsParent, parent_of-IsParent, IsInside-of_entry, Safe, Kept, call-Safe,
  in_parent-Safe, upper-IsTarget, each-Kept,
}

module _ (mount lower : Option PathBuf) (disk : Disk) where
  mkdir_in-Kept :
      (target : Text) (parts : List Text) (o : Option DirNode) (w : Text × VirtualFileSystem)
      → Kept mount lower w
      → Kept mount lower (mkdir_in target parts o w)
  mkdir_in-Kept target parts none (output, v) h = h
  mkdir_in-Kept target parts (some parent) (output, v) h =
      if_ind (Kept mount lower) (contains_key (name_of parts) (children parent)) (λ _. h)
        (λ _. in_parent-Safe mount lower parts _ v h)

  mkdir_memory-Kept :
      (parents : Bool) (target : Text) (parts : List Text) (w : Text × VirtualFileSystem)
      → Kept mount lower w
      → Kept mount lower (mkdir_memory parents target parts w)
  mkdir_memory-Kept true target parts (output, v) h = record {
    here = h.here;
    mount_kept = h.mount_kept;
    lower_kept = h.lower_kept;
    confined = h.confined;
  }
  mkdir_memory-Kept false target parts (output, v) h =
      mkdir_in-Kept target parts (get_dir (drop_last parts) v.root) (output, v) h

  make_under-Safe :
      (p : PathBuf) (o : Option PathBuf) (v : VirtualFileSystem)
      → IsEntry mount p
      → IsParent mount o
      → Safe mount lower v
      → Safe mount lower (make_under p o v)
  make_under-Safe p none v t i h = h
  make_under-Safe p (some q) v t i h =
      call-Safe mount lower (create_dir p) (call (create_dir_all q) v) t
        (call-Safe mount lower (create_dir_all q) v i h)

  mkdir_both-Kept :
      (parents : Bool) (target : Text) (parts : List Text) (o : Option PathBuf)
      (w : Text × VirtualFileSystem)
      → IsTarget mount o
      → Kept mount lower w
      → Kept mount lower (mkdir_both disk parents target parts o w)
  mkdir_both-Kept parents target parts none w t h = mkdir_memory-Kept parents target parts w h
  mkdir_both-Kept true target parts (some p) (output, v) t h =
      mkdir_memory-Kept true target parts (output, call (create_dir_all p) v)
        (call-Safe mount lower (create_dir_all p) v (IsInside-of_entry mount p t) h)
  mkdir_both-Kept false target parts (some p) (output, v) t h =
      if_ind (Kept mount lower) (disk.exists v.calls p) (λ _. h)
        (λ _.
          mkdir_memory-Kept false target parts (output, make_under p (parent_of p) v)
            (make_under-Safe p (parent_of p) v t (parent_of-IsParent mount p t) h))

  pub mkdir_target-Kept :
      (parents : Bool) (t : Text) (w : Text × VirtualFileSystem)
      → Kept mount lower w
      → Kept mount lower (mkdir_target disk parents t w)
  unfolding mkdir_target
  mkdir_target-Kept parents t (output, v) h =
      if_ind (Kept mount lower) (is_empty (resolve v t)) (λ _. h)
        (λ filled.
          mkdir_both-Kept parents t (resolve v t) (resolve_upper_path v (resolve v t)) (output, v)
            (upper-IsTarget mount lower v (resolve v t) h (resolve-IsNormal v t h.here) filled) h)

  pub mkdir-IsSafe :
      (args : Text) (v : VirtualFileSystem)
      → Safe mount lower v
      → Kept mount lower (mkdir disk args v)
  unfolding mkdir
  mkdir-IsSafe args v h =
      if_ind (Kept mount lower) (is_empty (targets_of args)) (λ _. h)
        (λ _.
          each-Kept mount lower (mkdir_target disk (with_parents args)) (targets_of args) ([], v)
            (mkdir_target-Kept (with_parents args)) h)
