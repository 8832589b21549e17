-- ===== src/Vmm.antt =====
-- crates/aegis-vmm/src/lib.rs: the mount of a session, its handle, and what a start reclaims. The host
-- is a parameter: what it answers may depend on all calls so far, which are kept newest first.
pub mod Rootfs
pub mod Spawn
pub mod Lifecycle
pub mod Orphans
mod Tests
use aegis_honeypot.Prelude.{
  ℕ, Bool, true, false, not, ◌&&◌, List, [], ◌∷◌, ◌++◌, Option, none, some, if◌then◌else◌,
}
use aegis_honeypot.Prelude.Text.{Text, PathBuf, codes, strip_prefix, starts_with}

-- The calls of the host that change it, with the outcome of a mount, of an unmount and of a
-- write; a write that fails may have emptied the file or written a part.
pub data HostCall : Type 0 where
  created removed mounted mount_failed unmounted umount_failed write_failed : PathBuf → HostCall
  wrote : PathBuf → Text → HostCall
  set_mode : PathBuf → ℕ → HostCall
  killed : ℕ → HostCall

-- A program that runs on the host: its answer and the calls so far.
abbrev pub Run : Type 0 → Type 0
Run A = A × List HostCall

pub record Host : Type 0 where
  pub can_create : List HostCall → PathBuf → Bool
  pub can_mount : List HostCall → PathBuf → Bool
  pub can_umount : List HostCall → PathBuf → Bool
  pub can_write : List HostCall → PathBuf → Bool
  pub is_dir : List HostCall → PathBuf → Bool
  pub exists : List HostCall → PathBuf → Bool
  pub list_dir : List HostCall → PathBuf → Option (List (Text × Bool))

pub record OverlayMount : Type 0 where
  pub session_id : Text
  pub session_dir : PathBuf
  pub mount_point : PathBuf
  pub upper_dir : PathBuf
  pub work_dir : PathBuf
  pub is_mounted : Bool

-- `master` is never opened and left out.
pub record SandboxHandle : Type 0 where
  pub session_id : Text
  pub overlay : Option OverlayMount
  pub root_dir : PathBuf
  pub child_pid : Option ℕ

abbrev pub join : PathBuf → Text → PathBuf
join p name = p ++ name ∷ []

abbrev kill_child : Option ℕ → List HostCall → List HostCall
kill_child none t = t
kill_child (some pid) t = killed pid ∷ t

-- The path of the session's files: its mount, its upper directory where the mount failed, and the
-- golden root where the directories of the session could not be made.
abbrev pub root_of : PathBuf → Option OverlayMount → PathBuf
root_of lower_dir none = lower_dir
root_of lower_dir (some o) = if o.is_mounted then o.mount_point else o.upper_dir

abbrev pub unmounted_overlay : Text → PathBuf → OverlayMount
unmounted_overlay session_id session_dir = record {
  session_id = session_id;
  session_dir = session_dir;
  mount_point = join session_dir (codes "mount");
  upper_dir = join session_dir (codes "upper");
  work_dir = join session_dir (codes "work");
  is_mounted = false;
}

module _ (host : Host) where
  -- `create_dir_all(dir)?` of each directory; `none` where one fails.
  abbrev pub create_all : List PathBuf → List HostCall → Run (Option (Unit {0}))
  create_all [] t = (some tt, t)
  create_all (dir ∷ dirs) t =
      let rest = create_all dirs (created dir ∷ t) in
      if host.can_create t dir then rest else (none, t)

  abbrev mounted_overlay : OverlayMount → List HostCall → Run (Option OverlayMount)
  mounted_overlay o t =
      if host.can_mount t o.mount_point
      then (some (record o { is_mounted = true }), mounted o.mount_point ∷ t)
      else (some o, mount_failed o.mount_point ∷ t)

  abbrev pub mount_if : Option (Unit {0}) → OverlayMount → List HostCall → Run (Option OverlayMount)
  mount_if none o t = (none, t)
  mount_if (some u) o t = mounted_overlay o t

  unfoldable pub setup : Text → PathBuf → List HostCall → Run (Option OverlayMount)
  setup session_id overlay_base t =
      let o = unmounted_overlay session_id (join overlay_base (codes "session_" ++ session_id)) in
      let made = create_all (o.session_dir ∷ o.upper_dir ∷ o.work_dir ∷ o.mount_point ∷ []) t in
      mount_if made.0 o made.1

  -- `umount` of the mount point, which may fail.
  abbrev pub umount : PathBuf → List HostCall → List HostCall
  umount p t = if host.can_umount t p then unmounted p ∷ t else umount_failed p ∷ t

  -- `teardown` takes the overlay by reference: the overlay after it, and the upper directory.
  unfoldable pub teardown : OverlayMount → List HostCall → Run (PathBuf × OverlayMount)
  teardown o t =
      let after = if o.is_mounted then umount o.mount_point t else t in
      (
        (o.upper_dir, record o { is_mounted = false }),
        removed o.work_dir ∷ removed o.mount_point ∷ after,
      )

  -- `Drop::drop`.
  unfoldable pub drop : OverlayMount → List HostCall → List HostCall
  drop o t = if not o.is_mounted then t else umount o.mount_point t

  -- The overlay is dropped at the end of `SandboxHandle::teardown`.
  abbrev torn_down : Run (PathBuf × OverlayMount) → Run (Option PathBuf)
  torn_down ((upper, o), t) = (some upper, drop o t)

  abbrev teardown_overlay : Option OverlayMount → List HostCall → Run (Option PathBuf)
  teardown_overlay none t = (none, t)
  teardown_overlay (some o) t = torn_down (teardown o t)

  -- `SandboxHandle::teardown`.
  unfoldable pub teardown_handle : SandboxHandle → List HostCall → Run (Option PathBuf)
  unfolding teardown drop
  teardown_handle h t = teardown_overlay h.overlay (kill_child h.child_pid t)
