-- ===== src/Vmm/Spawn.antt =====
-- crates/aegis-vmm/src/lib.rs: `spawn_sandbox`.
use aegis_honeypot.Prelude.{
  ◌≡◌, ◌⊎◌, inl, inr, refl, false, List, [], ◌∷◌, ◌++◌, Option, none, some, arith, if_ind,
}
use aegis_honeypot.Prelude.Text.{Text, PathBuf, codes}
use aegis_honeypot.Vmm.{
  HostCall, created, mounted, mount_failed, Run, Host, OverlayMount, SandboxHandle, join, root_of,
  setup, create_all, mount_if, unmounted_overlay,
}
use aegis_honeypot.Vmm.Rootfs.{ensure_golden_rootfs}

abbrev handle_of : Text → PathBuf → Run (Option OverlayMount) → Run (Option SandboxHandle)
handle_of session_id lower_dir (o, t) = (
  some (record {
    session_id = session_id;
    overlay = o;
    root_dir = root_of lower_dir o;
    child_pid = none;
  }),
  t,
)

module _ (host : Host) where
  abbrev spawn_after :
      Text → PathBuf → PathBuf → Run (Option (Unit {0})) → Run (Option SandboxHandle)
  spawn_after session_id lower_dir overlay_base (none, t) = (none, t)
  spawn_after session_id lower_dir overlay_base (some u, t) =
      handle_of session_id lower_dir (setup host session_id overlay_base t)

  unfoldable pub spawn_sandbox :
      Text → PathBuf → PathBuf → List HostCall → Run (Option SandboxHandle)
  unfolding setup ensure_golden_rootfs
  spawn_sandbox session_id lower_dir overlay_base t =
      spawn_after session_id lower_dir overlay_base (ensure_golden_rootfs host lower_dir t)

-- The host refused one of some directories.
abbrev pub Refused : Host → List HostCall → List PathBuf → Type 0
Refused host t [] = ⊥
Refused host t (p ∷ ps) = (host.can_create t p ≡ false) ⊎ Refused host t ps

-- The last call of the host.
abbrev pub IsLast : HostCall → List HostCall → Type 0
IsLast call t = (before : List HostCall) × (t ≡ call ∷ before)

-- The root of a session with an overlay, by its last call: the mount was made, or it failed.
abbrev pub IsOverlaid : PathBuf → PathBuf → List HostCall → Type 0
IsOverlaid d root t =
    ((root ≡ join d (codes "mount")) × IsLast (mounted (join d (codes "mount"))) t)
    ⊎ ((root ≡ join d (codes "upper")) × IsLast (mount_failed (join d (codes "mount"))) t)

-- The path of a session's files, of a handle, with the directory `d` of the session.
abbrev pub IsRooted : Host → PathBuf → PathBuf → Run (Option SandboxHandle) → Type 0
IsRooted host lower_dir d (none, t) = Unit
IsRooted host lower_dir d (some h, t) =
    ((h.root_dir ≡ lower_dir)
      × Refused host t
          (d ∷ join d (codes "upper") ∷ join d (codes "work") ∷ join d (codes "mount") ∷ []))
    ⊎ IsOverlaid d h.root_dir t

create_all-Refused :
    (host : Host) (ps : List PathBuf) (t : List HostCall)
    → ((create_all host ps t).0 ≡ none)
    → Refused host (create_all host ps t).1 ps
create_all-Refused host [] t = λ e. ground (arith, e)
create_all-Refused host (p ∷ ps) t =
    if_ind (λ (r : Run (Option (Unit {0}))). r.0 ≡ none → Refused host r.1 (p ∷ ps))
      (host.can_create t p) (λ _. λ e. inr (create_all-Refused host ps (created p ∷ t) e))
      (λ off. λ e. inl off)

handle_of-IsRooted :
    (host : Host) (session_id : Text) (lower_dir d : PathBuf) (u : Option (Unit {0}))
    (t : List HostCall)
    → (u ≡ none
        → Refused host t
            (d ∷ join d (codes "upper") ∷ join d (codes "work") ∷ join d (codes "mount") ∷ []))
    → IsRooted host lower_dir d
        (handle_of session_id lower_dir (mount_if host u (unmounted_overlay session_id d) t))
handle_of-IsRooted host session_id lower_dir d none t h = inl (refl, h refl)
handle_of-IsRooted host session_id lower_dir d (some x) t h =
    if_ind
      (λ (r : Run (Option OverlayMount)).
        IsRooted host lower_dir d (handle_of session_id lower_dir r))
      (host.can_mount t (join d (codes "mount"))) (λ _. inr (inl (refl, (t, refl))))
      (λ _. inr (inr (refl, (t, refl))))

spawn_after-IsRooted :
    (host : Host) (session_id : Text) (lower_dir overlay_base : PathBuf)
    (r : Run (Option (Unit {0})))
    → IsRooted host lower_dir
        (join overlay_base (codes "session_" ++ session_id))
        (spawn_after host session_id lower_dir overlay_base r)
unfolding setup
spawn_after-IsRooted host session_id lower_dir overlay_base (none, t) = tt
spawn_after-IsRooted host session_id lower_dir overlay_base (some u, t) =
    let d : PathBuf = join overlay_base (codes "session_" ++ session_id) in
    let ps : List PathBuf =
      d ∷ join d (codes "upper") ∷ join d (codes "work") ∷ join d (codes "mount") ∷ [] in
    let made : Run (Option (Unit {0})) = create_all host ps t in
    handle_of-IsRooted host session_id lower_dir d made.0 made.1 (create_all-Refused host ps t)

-- A sandbox that starts lives in the mount of its session directory when the mount of it was made,
-- and in its upper directory when the mount failed. It lives in the golden root itself, which all
-- sessions share, only when the host refused one of the four directories of the session.
pub spawn_sandbox-IsRooted :
    (host : Host) (session_id : Text) (lower_dir overlay_base : PathBuf) (t : List HostCall)
    → IsRooted host lower_dir
        (join overlay_base (codes "session_" ++ session_id))
        (spawn_sandbox host session_id lower_dir overlay_base t)
unfolding spawn_sandbox
spawn_sandbox-IsRooted host session_id lower_dir overlay_base t =
    spawn_after-IsRooted host session_id lower_dir overlay_base
      (ensure_golden_rootfs host lower_dir t)
