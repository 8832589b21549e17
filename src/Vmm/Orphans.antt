-- ===== src/Vmm/Orphans.antt =====
-- crates/aegis-vmm/src/lib.rs: `reclaim_orphaned_sessions`.
pub mod Settled
pub mod Reclaimed
use aegis_honeypot.Prelude.{
  ℕ, suc, ◌+◌, ◌≡◌, ◌⊎◌, inl, inr, refl, ap, ◌∙◌, Bool, true, false, All, All-map, ◌++◌, List, [],
  ◌∷◌, Option, none, some, arith, if◌then◌else◌, if_ind, is_some, length,
}
use aegis_honeypot.Prelude.Prefix.{strip_prefix-append}
use aegis_honeypot.Prelude.Text.{Text, PathBuf, codes, strip_prefix, starts_with}
use aegis_honeypot.Vmm.{
  HostCall, created, removed, mounted, mount_failed, unmounted, umount_failed, write_failed, wrote,
  set_mode, killed, Run, Host, join, umount,
}

-- The identifier of a session, of the name of an entry that is a directory.
unfoldable pub session_of : Text → Bool → Option Text
unfolding starts_with
session_of name is_dir = if is_dir then strip_prefix name (codes "session_") else none

module _ (host : Host) where
  abbrev pub release_mount : PathBuf → List HostCall → List HostCall
  release_mount p t = if host.is_dir t p then umount host p t else t

  abbrev pub Found : Type 0
  Found = List (Text × PathBuf)

  abbrev pub prepend : Text × PathBuf → Run Found → Run Found
  prepend o (os, t) = (o ∷ os, t)

  -- One entry, and what `next` makes of the rest.
  abbrev pub reclaim_entry :
      PathBuf → Option Text → (List HostCall → Run Found) → List HostCall → Run Found
  reclaim_entry path none next t = next t
  reclaim_entry path (some id) next t =
      let after = release_mount (join path (codes "mount")) t in
      if host.is_dir after (join path (codes "upper"))
      then prepend (id, join path (codes "upper")) (next after)
      else next (removed path ∷ after)

  unfoldable pub reclaim_entries : PathBuf → List (Text × Bool) → List HostCall → Run Found
  unfolding session_of
  reclaim_entries base [] t = ([], t)
  reclaim_entries base ((name, is_dir) ∷ es) t =
      reclaim_entry (join base name) (session_of name is_dir) (reclaim_entries base es) t

  abbrev pub reclaim_listed : PathBuf → Option (List (Text × Bool)) → List HostCall → Run Found
  reclaim_listed base none t = ([], t)
  reclaim_listed base (some es) t = reclaim_entries base es t

  unfoldable pub reclaim_orphaned_sessions : PathBuf → List HostCall → Run Found
  unfolding reclaim_entries
  reclaim_orphaned_sessions base t = reclaim_listed base (host.list_dir t base) t
