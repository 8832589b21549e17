-- ===== src/Vmm/Rootfs/Provisioned.antt =====
-- What a run of `ensure_golden_rootfs` has written when it ends.
use aegis_honeypot.Prelude.{
  ℕ, zero, suc, ◌<◌, ◌≡◌, ◌⊎◌, inl, inr, refl, ap, ◌∙◌, Bool, true, false, List, [], ◌∷◌, Option,
  none, some, arith, if_ind, length, take, subst,
}
use aegis_honeypot.Prelude.Text.{Text, PathBuf}
use aegis_honeypot.Vmm.{
  HostCall, created, removed, mounted, mount_failed, unmounted, umount_failed, write_failed, wrote,
  set_mode, killed, Run, Host,
}
use aegis_honeypot.Vmm.Rootfs.Contents.{File, dirs}
use aegis_honeypot.Vmm.Rootfs.{
  join_path, golden_files, open_tmp, open_mode, create, create_dirs, and_then, write_after,
  write_file, write_files, ensure_golden_rootfs, parent_of,
}

-- The files that were written whole, newest first.
abbrev pub writes : List HostCall → List (PathBuf × Text)
writes [] = []
writes (wrote p s ∷ t) = (p, s) ∷ writes t
writes (created p ∷ t) = writes t
writes (removed p ∷ t) = writes t
writes (mounted p ∷ t) = writes t
writes (mount_failed p ∷ t) = writes t
writes (unmounted p ∷ t) = writes t
writes (umount_failed p ∷ t) = writes t
writes (write_failed p ∷ t) = writes t
writes (set_mode p m ∷ t) = writes t
writes (killed pid ∷ t) = writes t

-- The same, with some files of a list behind them.
abbrev pub with_files : PathBuf → List File → List (PathBuf × Text) → List (PathBuf × Text)
with_files base [] acc = acc
with_files base (f ∷ fs) acc = with_files base fs ((join_path base f.path, f.content) ∷ acc)

-- All files were written, or the run ended with an error before the last of them.
abbrev pub IsWritten :
    PathBuf → List File → List (PathBuf × Text) → Run (Option (Unit {0})) → Type 0
IsWritten base fs ws r =
    ((r.0 ≡ some tt) × (writes r.1 ≡ with_files base fs ws))
    ⊎ ((r.0 ≡ none) × ((k : ℕ) × (k < length fs) × (writes r.1 ≡ with_files base (take k fs) ws)))

-- One file.
abbrev IsOne : PathBuf → Text → List HostCall → Run (Option (Unit {0})) → Type 0
IsOne p content t (none, u) = writes u ≡ writes t
IsOne p content t (some x, u) = writes u ≡ (p, content) ∷ writes t

module _ (host : Host) where
  writes-open_mode :
      (there : Bool) (p : PathBuf) (t : List HostCall) → writes (open_mode there p t) ≡ writes t
  writes-open_mode true p t = refl
  writes-open_mode false p t = refl

  abbrev IsPlain : List HostCall → Run (Option (Unit {0})) → Type 0
  IsPlain t r = writes r.1 ≡ writes t

  create-IsPlain : (o : Option PathBuf) (t : List HostCall) → IsPlain t (create host o t)
  create-IsPlain none t = refl
  create-IsPlain (some p) t = if_ind (IsPlain t) (host.can_create t p) (λ _. refl) (λ _. refl)

  write_after-IsOne :
      (p : PathBuf) (content : Text) (mode : ℕ) (t : List HostCall) (r : Run (Option (Unit {0})))
      → IsPlain t r
      → IsOne p content t (write_after host p content mode r)
  write_after-IsOne p content mode t (none, u) h = h
  write_after-IsOne p content mode t (some x, u) h =
      let v : List HostCall = open_mode (host.exists u p) p u in
      let same : writes v ≡ writes t = writes-open_mode (host.exists u p) p u ∙ h in
      if_ind (IsOne p content t) (host.can_write v p) (λ _. ap (◌∷◌ (p, content)) same) (λ _. same)

  write_file-IsOne :
      (p : PathBuf) (content : Text) (mode : ℕ) (t : List HostCall)
      → IsOne p content t (write_file host p content mode t)
  unfolding write_file
  write_file-IsOne p content mode t =
      write_after-IsOne p content mode t (create host (parent_of p) t)
        (create-IsPlain (parent_of p) t)

  write_next-IsWritten :
      (base : PathBuf) (f : File) (fs : List File) (t : List HostCall) (r : Run (Option (Unit {0})))
      → IsOne (join_path base f.path) f.content t r
      → ((u : List HostCall) → IsWritten base fs (writes u) (write_files host base fs u))
      → IsWritten base (f ∷ fs) (writes t) (and_then r (write_files host base fs))
  write_next-IsWritten base f fs t (none, u) h next = inr (refl, (zero, omega arith, h))
  write_next-IsWritten base f fs t (some x, u) h next = elim (next u) [
    | inl done ↦ inl (done.0, done.1 ∙ ap (with_files base fs) h)
    | inr (failed, (k, less, e)) ↦
        inr (failed, (suc k, omega arith, e ∙ ap (with_files base (take k fs)) h))
  ]

  write_files-IsWritten :
      (base : PathBuf) (fs : List File) (t : List HostCall)
      → IsWritten base fs (writes t) (write_files host base fs t)
  unfolding write_files
  write_files-IsWritten base [] t = inl (refl, refl)
  write_files-IsWritten base (f ∷ fs) t =
      write_next-IsWritten base f fs t (write_file host (join_path base f.path) f.content f.mode t)
        (write_file-IsOne (join_path base f.path) f.content f.mode t)
        (write_files-IsWritten base fs)

  next_dir :
      (t : List HostCall) (r : Run (Option (Unit {0})))
      (f : List HostCall → Run (Option (Unit {0})))
      → IsPlain t r
      → ((u : List HostCall) → IsPlain u (f u))
      → IsPlain t (and_then r f)
  next_dir t (none, u) f h k = h
  next_dir t (some x, u) f h k = k u ∙ h

  create_dirs-IsPlain :
      (base : PathBuf) (ds : List Text) (t : List HostCall) → IsPlain t (create_dirs host base ds t)
  create_dirs-IsPlain base [] t = refl
  create_dirs-IsPlain base (d ∷ ds) t =
      next_dir t (create host (some (join_path base d)) t) (create_dirs host base ds)
        (create-IsPlain (some (join_path base d)) t) (create_dirs-IsPlain base ds)

  after_dirs :
      (base : PathBuf) (t : List HostCall) (r : Run (Option (Unit {0})))
      → IsPlain t r
      → IsWritten base golden_files
          (writes t)
          (and_then r (λ u. write_files host base golden_files (open_tmp base u)))
  after_dirs base t (none, u) h = inr (refl, (zero, omega arith, h))
  after_dirs base t (some x, u) h =
      subst
        (λ ws.
          IsWritten base golden_files ws (write_files host base golden_files (open_tmp base u)))
        h (write_files-IsWritten base golden_files (open_tmp base u))

-- A run of `ensure_golden_rootfs` that succeeds has written every golden file in its order, each
-- with its content; one that fails has written the files before the one at which it failed, and no
-- other as a whole, whatever the host answers.
pub ensure_golden_rootfs-IsWritten :
    (host : Host) (base : PathBuf) (t : List HostCall)
    → IsWritten base golden_files (writes t) (ensure_golden_rootfs host base t)
unfolding ensure_golden_rootfs
ensure_golden_rootfs-IsWritten host base t =
    after_dirs host base t (create_dirs host base dirs t) (create_dirs-IsPlain host base dirs t)
