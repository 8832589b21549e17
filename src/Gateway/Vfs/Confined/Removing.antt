-- ===== src/Gateway/Vfs/Confined/Removing.antt =====
-- `rm` stays strictly below the mount.
use aegis_honeypot.Prelude.{
  Bool, true, false, not, List, [], Option, none, some, if_ind, is_empty, drop_last, list_eq,
}
use aegis_honeypot.Prelude.HashMap.{get}
use aegis_honeypot.Prelude.Text.{PathBuf, Text}
use aegis_honeypot.Gateway.Vfs.{
  FsNode, file, dir, DirNode, children, remove_dir_all, remove_file, Disk, VirtualFileSystem,
  resolve, resolve_upper_path, get_dir,
}
use aegis_honeypot.Gateway.Vfs.Reading.{targets_of}
use aegis_honeypot.Gateway.Vfs.Commands.{
  call, rm_target, rm, is_recursive, is_forced, rm_node, rm_in, rm_memory, rm_both, name_of,
}
use aegis_honeypot.Gateway.Vfs.Paths.{resolve-IsNormal}
use aegis_honeypot.Gateway.Vfs.Confined.{
  IsTarget, Safe, Kept, call-Safe, in_parent-Safe, upper-IsTarget, each-Kept,
}

module _ (mount lower : Option PathBuf) (disk : Disk) where
  rm_node-Kept :
      (recursive force : Bool) (target : Text) (parts : List Text) (o : Option FsNode)
      (w : Text × VirtualFileSystem)
      → Kept mount lower w
      → Kept mount lower (rm_node recursive force target parts o w)
  rm_node-Kept recursive true target parts none (output, v) h = h
  rm_node-Kept recursive false target parts none (output, v) h = h
  rm_node-Kept recursive force target parts (some (file f)) (output, v) h =
      in_parent-Safe mount lower parts _ v h
  rm_node-Kept true force target parts (some (dir d)) (output, v) h =
      in_parent-Safe mount lower parts _ v h
  rm_node-Kept false true target parts (some (dir d)) (output, v) h = h
  rm_node-Kept false false target parts (some (dir d)) (output, v) h = h

  rm_in-Kept :
      (recursive force : Bool) (target : Text) (parts : List Text) (o : Option DirNode)
      (w : Text × VirtualFileSystem)
      → Kept mount lower w
      → Kept mount lower (rm_in recursive force target parts o w)
  rm_in-Kept recursive force target parts none w h = h
  rm_in-Kept recursive force target parts (some d) w h =
      rm_node-Kept recursive force target parts (get (name_of parts) (children d)) w h

  rm_memory-Kept :
      (recursive force : Bool) (target : Text) (parts : List Text) (w : Text × VirtualFileSystem)
      → Kept mount lower w
      → Kept mount lower (rm_memory recursive force target parts w)
  rm_memory-Kept recursive force target parts (output, v) h =
      rm_in-Kept recursive force target parts (get_dir (drop_last parts) v.root) (output, v) h

  rm_both-Kept :
      (recursive force : Bool) (target : Text) (parts : List Text) (o : Option PathBuf)
      (w : Text × VirtualFileSystem)
      → IsTarget mount o
      → Kept mount lower w
      → Kept mount lower (rm_both disk recursive force target parts o w)
  rm_both-Kept recursive force target parts none w t h =
      rm_memory-Kept recursive force target parts w h
  rm_both-Kept recursive force target parts (some p) (output, v) t h =
      if_ind (Kept mount lower) (not (disk.exists v.calls p))
        (λ _. rm_memory-Kept recursive force target parts (output, v) h)
        (λ _.
          if_ind (Kept mount lower) (not (disk.is_dir v.calls p))
            (λ _.
              rm_memory-Kept recursive force target parts (output, call (remove_file p) v)
                (call-Safe mount lower (remove_file p) v t h))
            (λ _.
              if_ind (Kept mount lower) recursive
                (λ _.
                  rm_memory-Kept recursive force target parts (output, call (remove_dir_all p) v)
                    (call-Safe mount lower (remove_dir_all p) v t h))
                (λ _.
                  if_ind (Kept mount lower) force
                    (λ _. rm_memory-Kept recursive force target parts (output, v) h) (λ _. h))))

  pub rm_target-Kept :
      (recursive force : Bool) (t : Text) (w : Text × VirtualFileSystem)
      → Kept mount lower w
      → Kept mount lower (rm_target disk recursive force t w)
  unfolding rm_target
  rm_target-Kept recursive force t (output, v) h =
      if_ind (Kept mount lower) (is_empty (resolve v t)) (λ _. h)
        (λ filled.
          rm_both-Kept recursive force t (resolve v t) (resolve_upper_path v (resolve v t))
            (output, v)
            (upper-IsTarget mount lower v (resolve v t) h (resolve-IsNormal v t h.here) filled) h)

  pub rm-IsSafe :
      (args : Text) (v : VirtualFileSystem) → Safe mount lower v → Kept mount lower (rm disk args v)
  unfolding rm
  rm-IsSafe args v h =
      if_ind (Kept mount lower) (is_empty (targets_of args)) (λ _. h)
        (λ _.
          each-Kept mount lower (rm_target disk (is_recursive args) (is_forced args))
            (targets_of args) ([], v) (rm_target-Kept (is_recursive args) (is_forced args)) h)
