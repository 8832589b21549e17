-- ===== src/Vmm/Rootfs.antt =====
-- crates/aegis-vmm/src/rootfs.rs: the golden root file system is written once more at every start of a
-- sandbox. `?` ends the run at the first call that fails; a change of a mode may fail silently.
pub mod Contents
pub mod Provisioned
use aegis_honeypot.Prelude.{
  ℕ, Bool, true, false, List, [], ◌∷◌, ◌++◌, Option, none, some, if◌then◌else◌, drop_last, map,
}
use aegis_honeypot.Prelude.Text.{Text, PathBuf, codes, split}
use aegis_honeypot.Vmm.{HostCall, created, wrote, write_failed, set_mode, Run, Host}
use aegis_honeypot.Vmm.Rootfs.Contents.{File, dirs, files, bin_names}

-- `base.join(path)` of a path with several components.
abbrev pub join_path : PathBuf → Text → PathBuf
join_path base path = base ++ split 47 path

abbrev pub parent_of : PathBuf → Option PathBuf
parent_of [] = none
parent_of (c ∷ cs) = some (drop_last (c ∷ cs))

abbrev pub stub_content : Text → Text
stub_content name = codes "#!/bin/sh\n# Aegis sandbox stub: " ++ name ++ codes "\nexit 0\n"

-- The two stubs of a program.
abbrev pub stubs_of : Text → List File
stubs_of name =
    record { path = codes "bin/" ++ name; content = stub_content name; mode = 493 }
    ∷ record { path = codes "usr/bin/" ++ name; content = stub_content name; mode = 493 }
    ∷ []

abbrev pub all_stubs : List Text → List File
all_stubs [] = []
all_stubs (name ∷ names) = stubs_of name ++ all_stubs names

-- Everything that is written, in order.
abbrev pub golden_files : List File
golden_files = files ++ all_stubs bin_names

abbrev pub open_mode : Bool → PathBuf → List HostCall → List HostCall
open_mode there p t = if there then set_mode p 420 ∷ t else t

abbrev pub open_tmp : PathBuf → List HostCall → List HostCall
open_tmp base t =
    set_mode (join_path base (codes "var/tmp")) 1_023
    ∷ set_mode (join_path base (codes "tmp")) 1_023
    ∷ t

-- The rest of a run, unless it has failed.
abbrev pub and_then :
    Run (Option (Unit {0})) → (List HostCall → Run (Option (Unit {0}))) → Run (Option (Unit {0}))
and_then (none, t) f = (none, t)
and_then (some u, t) f = f t

module _ (host : Host) where
  abbrev pub create : Option PathBuf → List HostCall → Run (Option (Unit {0}))
  create none t = (some tt, t)
  create (some p) t = if host.can_create t p then (some tt, created p ∷ t) else (none, t)

  abbrev pub write_open : PathBuf → Text → ℕ → List HostCall → Run (Option (Unit {0}))
  write_open p content mode t =
      if host.can_write t p
      then (some tt, set_mode p mode ∷ wrote p content ∷ t)
      else (none, write_failed p ∷ t)

  abbrev pub write_after : PathBuf → Text → ℕ → Run (Option (Unit {0})) → Run (Option (Unit {0}))
  write_after p content mode (none, t) = (none, t)
  write_after p content mode (some u, t) =
      write_open p content mode (open_mode (host.exists t p) p t)

  unfoldable pub write_file : PathBuf → Text → ℕ → List HostCall → Run (Option (Unit {0}))
  write_file p content mode t = write_after p content mode (create (parent_of p) t)

  abbrev pub create_dirs : PathBuf → List Text → List HostCall → Run (Option (Unit {0}))
  create_dirs base [] t = (some tt, t)
  create_dirs base (d ∷ ds) t = and_then (create (some (join_path base d)) t) (create_dirs base ds)

  unfoldable pub write_files : PathBuf → List File → List HostCall → Run (Option (Unit {0}))
  unfolding write_file
  write_files base [] t = (some tt, t)
  write_files base (f ∷ fs) t =
      and_then (write_file (join_path base f.path) f.content f.mode t) (write_files base fs)

  unfoldable pub ensure_golden_rootfs : PathBuf → List HostCall → Run (Option (Unit {0}))
  unfolding write_files split
  ensure_golden_rootfs base t =
      and_then (create_dirs base dirs t) (λ u. write_files base golden_files (open_tmp base u))
