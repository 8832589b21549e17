-- ===== src/Vmm/Lifecycle.antt =====
-- The life of one overlay: which mounts are released, and which directories are removed.
use aegis_honeypot.Prelude.{
  ℕ, zero, suc, ◌≡◌, ◌⊎◌, inl, inr, refl, sym, ap, ◌∙◌, Bool, true, false, not, List, [], ◌∷◌, ◌++◌,
  Option, none, some, if◌then◌else◌, if_ind, All, subst,
}
use aegis_honeypot.Prelude.Text.{Text, PathBuf, codes}
use aegis_honeypot.Vmm.{
  HostCall, created, removed, mounted, mount_failed, unmounted, umount_failed, write_failed, wrote,
  set_mode, killed, Run, Host, OverlayMount, join, create_all, mount_if, unmounted_overlay, setup,
  umount, teardown, drop,
}

-- The paths that were mounted, and those that the host was asked to unmount.
abbrev pub mounts : List HostCall → List PathBuf
mounts [] = []
mounts (mounted p ∷ t) = p ∷ mounts t
mounts (created p ∷ t) = mounts t
mounts (removed p ∷ t) = mounts t
mounts (mount_failed p ∷ t) = mounts t
mounts (unmounted p ∷ t) = mounts t
mounts (umount_failed p ∷ t) = mounts t
mounts (write_failed p ∷ t) = mounts t
mounts (wrote p s ∷ t) = mounts t
mounts (set_mode p m ∷ t) = mounts t
mounts (killed pid ∷ t) = mounts t

abbrev pub umounts : List HostCall → List PathBuf
umounts [] = []
umounts (unmounted p ∷ t) = p ∷ umounts t
umounts (umount_failed p ∷ t) = p ∷ umounts t
umounts (created p ∷ t) = umounts t
umounts (removed p ∷ t) = umounts t
umounts (mounted p ∷ t) = umounts t
umounts (mount_failed p ∷ t) = umounts t
umounts (write_failed p ∷ t) = umounts t
umounts (wrote p s ∷ t) = umounts t
umounts (set_mode p m ∷ t) = umounts t
umounts (killed pid ∷ t) = umounts t

-- The directories that were removed.
abbrev pub removed_paths : List HostCall → List PathBuf
removed_paths [] = []
removed_paths (removed p ∷ t) = p ∷ removed_paths t
removed_paths (created p ∷ t) = removed_paths t
removed_paths (mounted p ∷ t) = removed_paths t
removed_paths (mount_failed p ∷ t) = removed_paths t
removed_paths (unmounted p ∷ t) = removed_paths t
removed_paths (umount_failed p ∷ t) = removed_paths t
removed_paths (write_failed p ∷ t) = removed_paths t
removed_paths (wrote p s ∷ t) = removed_paths t
removed_paths (set_mode p m ∷ t) = removed_paths t
removed_paths (killed pid ∷ t) = removed_paths t

-- What is mounted now, of an overlay.
abbrev live : OverlayMount → List PathBuf
live o = if o.is_mounted then o.mount_point ∷ [] else []

-- A directory of a session that holds nothing of the attacker.
abbrev pub IsWork : PathBuf → PathBuf → Type 0
IsWork session_dir p =
    (p ≡ join session_dir (codes "mount")) ⊎ (p ≡ join session_dir (codes "work"))

-- The part of the calls that a life is judged by.
pub record IsLife (session_dir : PathBuf) (o : OverlayMount) (t : List HostCall) : Type 0 where
  pub balance : mounts t ≡ live o ++ umounts t
  pub work_only : All (IsWork session_dir) (removed_paths t)
  pub mount_here : o.mount_point ≡ join session_dir (codes "mount")
  pub work_here : o.work_dir ≡ join session_dir (codes "work")

module _ (host : Host) where
  -- Some calls of `teardown`, then the drop.
  abbrev pub torn_down_times : ℕ → OverlayMount → List HostCall → List HostCall
  torn_down_times zero o t = drop host o t
  torn_down_times (suc n) o t =
      let after : Run (PathBuf × OverlayMount) = teardown host o t in
      torn_down_times n after.0.1 after.1

  -- A whole life, from the setup on.
  abbrev life_of : ℕ → Run (Option OverlayMount) → List HostCall
  life_of n (none, t) = t
  life_of n (some o, t) = torn_down_times n o t

  unfoldable pub life : Text → PathBuf → ℕ → List HostCall
  unfolding setup teardown drop
  life session_id overlay_base n = life_of n (setup host session_id overlay_base [])

  mounts-umount : (p : PathBuf) (t : List HostCall) → mounts (umount host p t) ≡ mounts t
  mounts-umount p t =
      if_ind (λ u. mounts u ≡ mounts t) (host.can_umount t p) (λ _. refl) (λ _. refl)

  umounts-umount : (p : PathBuf) (t : List HostCall) → umounts (umount host p t) ≡ p ∷ umounts t
  umounts-umount p t =
      if_ind (λ u. umounts u ≡ p ∷ umounts t) (host.can_umount t p) (λ _. refl) (λ _. refl)

  removed_paths-umount :
      (p : PathBuf) (t : List HostCall) → removed_paths (umount host p t) ≡ removed_paths t
  removed_paths-umount p t =
      if_ind (λ u. removed_paths u ≡ removed_paths t) (host.can_umount t p) (λ _. refl) (λ _. refl)

  -- The unmount of what is mounted, and no call where nothing is.
  abbrev released : Bool → PathBuf → List HostCall → List HostCall
  released b p t = if b then umount host p t else t

  mounts-released :
      (b : Bool) (p : PathBuf) (t : List HostCall)
      → mounts t ≡ (if b then p ∷ [] else []) ++ umounts t
      → mounts (released b p t) ≡ umounts (released b p t)
  mounts-released true p t h = mounts-umount p t ∙ h ∙ sym (umounts-umount p t)
  mounts-released false p t h = h

  removed_paths-released :
      (b : Bool) (p : PathBuf) (t : List HostCall)
      → removed_paths (released b p t) ≡ removed_paths t
  removed_paths-released true p t = removed_paths-umount p t
  removed_paths-released false p t = refl

  drop-released :
      (o : OverlayMount) (t : List HostCall) → drop host o t ≡ released o.is_mounted o.mount_point t
  unfolding drop
  drop-released o t = turned o.is_mounted
    where
      turned :
          (b : Bool)
          → (if not b then t else umount host o.mount_point t) ≡ released b o.mount_point t
      turned true = refl
      turned false = refl

  teardown-IsLife :
      (d : PathBuf) (o : OverlayMount) (t : List HostCall)
      → IsLife d o t
      → IsLife d (teardown host o t).0.1 (teardown host o t).1
  unfolding teardown
  teardown-IsLife d o t h = record {
    balance = mounts-released o.is_mounted o.mount_point t h.balance;
    work_only = (
      inr h.work_here,
      (
        inl h.mount_here,
        subst (All (IsWork d)) (sym (removed_paths-released o.is_mounted o.mount_point t))
            h.work_only,
      ),
    );
    mount_here = h.mount_here;
    work_here = h.work_here;
  }

  abbrev IsBalanced : PathBuf → List HostCall → Type 0
  IsBalanced d t = (mounts t ≡ umounts t) × All (IsWork d) (removed_paths t)

  torn_down_times-IsBalanced :
      (n : ℕ) (d : PathBuf) (o : OverlayMount) (t : List HostCall)
      → IsLife d o t
      → IsBalanced d (torn_down_times n o t)
  torn_down_times-IsBalanced zero d o t h = rw (drop-released o t) (
    mounts-released o.is_mounted o.mount_point t h.balance,
    subst (All (IsWork d)) (sym (removed_paths-released o.is_mounted o.mount_point t)) h.work_only,
  )
  torn_down_times-IsBalanced (suc n) d o t h =
      torn_down_times-IsBalanced n d (teardown host o t).0.1 (teardown host o t).1
        (teardown-IsLife d o t h)

  -- Directories that are made release and remove nothing.
  abbrev IsQuiet : List HostCall → Type 0
  IsQuiet t = (mounts t ≡ []) × (umounts t ≡ []) × (removed_paths t ≡ [])

  create_all-IsQuiet :
      (dirs : List PathBuf) (t : List HostCall) → IsQuiet t → IsQuiet (create_all host dirs t).1
  create_all-IsQuiet [] t h = h
  create_all-IsQuiet (p ∷ ps) t h =
      if_ind (λ (r : Run (Option (Unit {0}))). IsQuiet r.1) (host.can_create t p)
        (λ _. create_all-IsQuiet ps (created p ∷ t) h) (λ _. h)

  abbrev IsBorn : PathBuf → Run (Option OverlayMount) → Type 0
  IsBorn d (none, t) = IsBalanced d t
  IsBorn d (some o, t) = IsLife d o t

  mount_if-IsBorn :
      (u : Option (Unit {0})) (session_id : Text) (d : PathBuf) (t : List HostCall)
      → IsQuiet t
      → IsBorn d (mount_if host u (unmounted_overlay session_id d) t)
  mount_if-IsBorn none session_id d t h = (h.0 ∙ sym h.1, subst (All (IsWork d)) (sym h.2) tt)
  mount_if-IsBorn (some u) session_id d t h =
      if_ind (IsBorn d) (host.can_mount t (join d (codes "mount")))
        (λ _. record {
          balance = ap (◌∷◌ (join d (codes "mount"))) (h.0 ∙ sym h.1);
          work_only = subst (All (IsWork d)) (sym h.2) tt;
          mount_here = refl;
          work_here = refl;
        })
        (λ _. record {
          balance = h.0 ∙ sym h.1;
          work_only = subst (All (IsWork d)) (sym h.2) tt;
          mount_here = refl;
          work_here = refl;
        })

  life_of-IsBalanced :
      (n : ℕ) (d : PathBuf) (r : Run (Option OverlayMount))
      → IsBorn d r
      → IsBalanced d (life_of n r)
  life_of-IsBalanced n d (none, t) h = h
  life_of-IsBalanced n d (some o, t) h = torn_down_times-IsBalanced n d o t h

  -- From the setup of a session's overlay to its drop, with any number of teardowns between, and
  -- whatever the host answers: the host is asked to unmount exactly what was mounted, once each, and
  -- the only directories that the code asks it to remove are `mount` and `work` of the session.
  pub life-IsBalanced :
      (session_id : Text) (overlay_base : PathBuf) (n : ℕ)
      → (mounts (life session_id overlay_base n) ≡ umounts (life session_id overlay_base n))
        × All
            (IsWork (join overlay_base (codes "session_" ++ session_id)))
            (removed_paths (life session_id overlay_base n))
  unfolding life setup
  life-IsBalanced session_id overlay_base n =
      let d : PathBuf = join overlay_base (codes "session_" ++ session_id) in
      let o : OverlayMount = unmounted_overlay session_id d in
      let made : Run (Option (Unit {0})) =
        create_all host (o.session_dir ∷ o.upper_dir ∷ o.work_dir ∷ o.mount_point ∷ []) [] in
      life_of-IsBalanced n d (mount_if host made.0 o made.1) (
        mount_if-IsBorn made.0 session_id d made.1 (
          create_all-IsQuiet (o.session_dir ∷ o.upper_dir ∷ o.work_dir ∷ o.mount_point ∷ []) []
            (refl, refl, refl)))
