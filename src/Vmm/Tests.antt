-- ===== src/Vmm/Tests.antt =====
-- Sandboxes on small hosts.
use aegis_honeypot.Prelude.{
  ◌≡◌, refl, true, false, not, [], ◌∷◌, ◌++◌, some, length, All, list_beq, drop_last, ◌&&◌,
}
use aegis_honeypot.Prelude.Text.{Text, PathBuf, codes, starts_with, split, last_or}
use aegis_honeypot.Vmm.{umount_failed, removed, Host, join, setup, teardown, drop, teardown_handle}
use aegis_honeypot.Vmm.Rootfs.{golden_files, write_file, write_files, ensure_golden_rootfs}
use aegis_honeypot.Vmm.Rootfs.Provisioned.{IsWritten, ensure_golden_rootfs-IsWritten}
use aegis_honeypot.Vmm.Spawn.{spawn_sandbox, IsRooted, spawn_sandbox-IsRooted}
use aegis_honeypot.Vmm.Lifecycle.{mounts, umounts, removed_paths, IsWork, life, life-IsBalanced}
use aegis_honeypot.Vmm.Orphans.{session_of, reclaim_entries, reclaim_orphaned_sessions}
use aegis_honeypot.Vmm.Orphans.Settled.{IsReclaimed}
use aegis_honeypot.Vmm.Orphans.Reclaimed.{listed, reclaim_orphaned_sessions-IsReclaimed}

program : Unit {0}
unfolding starts_with split list_beq setup teardown drop teardown_handle write_file write_files
    ensure_golden_rootfs spawn_sandbox life session_of reclaim_entries reclaim_orphaned_sessions
program = tt

abbrev base : PathBuf
base = codes "overlay" ∷ []

abbrev first_of : PathBuf → Text
first_of [] = []
first_of (c ∷ cs) = c

-- A host on which everything can be made and nothing unmounted. It holds two sessions, one of them
-- without an upper directory, and a file.
abbrev host : Host
host = record {
  can_create = λ t p. true;
  can_mount = λ t p. true;
  can_umount = λ t p. false;
  can_write = λ t p. true;
  is_dir = λ t p.
      list_beq (last_or p []) (codes "upper")
      && not (starts_with (last_or (drop_last p) []) (codes "session_b"));
  exists = λ t p. false;
  list_dir = λ t p.
      some
        ((codes "session_a", true) ∷ (codes "session_b", true) ∷ (codes "session_c", false) ∷ []);
}

life-IsBalanced_example :
    (mounts (life host (codes "a") base 2) ≡ umounts (life host (codes "a") base 2))
    × All
        (IsWork (join base (codes "session_" ++ codes "a")))
        (removed_paths (life host (codes "a") base 2))
life-IsBalanced_example = life-IsBalanced host (codes "a") base 2

one_mount : length (mounts (life host (codes "a") base 2)) ≡ 1
unfolding program
one_mount = refl

-- The unmount fails, and the directory below it is removed all the same.
removed_below_mount :
    (teardown host
      (record {
        session_id = codes "a";
        session_dir = base;
        mount_point = join base (codes "mount");
        upper_dir = join base (codes "upper");
        work_dir = join base (codes "work");
        is_mounted = true;
      })
      []).1
    ≡ removed (join base (codes "work"))
      ∷ removed (join base (codes "mount"))
      ∷ umount_failed (join base (codes "mount"))
      ∷ []
unfolding program
removed_below_mount = refl

reclaim_orphaned_sessions-IsReclaimed_example :
    IsReclaimed host base
      (listed (host.list_dir [] base))
      []
      (reclaim_orphaned_sessions host base [])
reclaim_orphaned_sessions-IsReclaimed_example =
    reclaim_orphaned_sessions-IsReclaimed host base [] tt

one_orphan :
    (reclaim_orphaned_sessions host base []).0
    ≡ (codes "a", join (join base (codes "session_a")) (codes "upper")) ∷ []
unfolding program
one_orphan = refl

ensure_golden_rootfs-IsWritten_example :
    IsWritten base golden_files [] (ensure_golden_rootfs host base [])
ensure_golden_rootfs-IsWritten_example = ensure_golden_rootfs-IsWritten host base []

-- No directory can be made below `/overlay`.
abbrev full : Host
full = record host { can_create = λ t p. not (list_beq (first_of p) (codes "overlay")) }

spawn_sandbox-IsRooted_example :
    IsRooted full
      (codes "rootfs" ∷ [])
      (join base (codes "session_" ++ codes "a"))
      (spawn_sandbox full (codes "a") (codes "rootfs" ∷ []) base [])
spawn_sandbox-IsRooted_example =
    spawn_sandbox-IsRooted full (codes "a") (codes "rootfs" ∷ []) base []
