-- ===== src/Gateway/Vfs/Confined/Moving.antt =====
-- `cd` leaves the disk as it is, and leads to a directory that has a normal path.
use aegis_honeypot.Prelude.{Bool, true, false, List, Option, none, some, if_ind, is_empty, list_eq}
use aegis_honeypot.Prelude.Text.{PathBuf, Text, trim}
use aegis_honeypot.Gateway.Vfs.{Disk, VirtualFileSystem}
use aegis_honeypot.Gateway.Vfs.Reading.{cd, is_dir_at, cd_parts, enter}
use aegis_honeypot.Gateway.Vfs.Paths.{IsNormal, root-IsNormal, resolve-IsNormal}
use aegis_honeypot.Gateway.Vfs.Confined.{Safe, Kept}

module _ (mount lower : Option PathBuf) (disk : Disk) where
  moved-Safe :
      (parts : List Text) (v : VirtualFileSystem)
      → IsNormal parts
      → Safe mount lower v
      → Safe mount lower (record v { current_path = parts })
  moved-Safe parts v n h = record {
    here = n;
    mount_kept = h.mount_kept;
    lower_kept = h.lower_kept;
    confined = h.confined;
  }

  enter-Kept :
      (arg : Text) (parts : List Text) (v : VirtualFileSystem) (o : Option Bool)
      → IsNormal parts
      → Safe mount lower v
      → Kept mount lower (enter arg parts v o)
  enter-Kept arg parts v none n h = h
  enter-Kept arg parts v (some true) n h = moved-Safe parts v n h
  enter-Kept arg parts v (some false) n h = h

  cd_parts-IsNormal :
      (arg : Text) (v : VirtualFileSystem) → Safe mount lower v → IsNormal (cd_parts arg v)
  cd_parts-IsNormal arg v h =
      if_ind IsNormal (is_empty arg) (λ _. root-IsNormal) (λ _. resolve-IsNormal v arg h.here)

  pub cd-IsSafe :
      (args : Text) (v : VirtualFileSystem) → Safe mount lower v → Kept mount lower (cd disk args v)
  unfolding cd
  cd-IsSafe args v h =
      if_ind (Kept mount lower) (is_empty (cd_parts (trim args) v))
        (λ _. moved-Safe (cd_parts (trim args) v) v (cd_parts-IsNormal (trim args) v h) h)
        (λ _.
          enter-Kept (trim args) (cd_parts (trim args) v) v
            (is_dir_at disk v (cd_parts (trim args) v)) (cd_parts-IsNormal (trim args) v h) h)
