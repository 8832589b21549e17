-- ===== src/Vmm/Orphans/Reclaimed.antt =====
-- What the reconciliation at a start answers and removes.
use aegis_honeypot.Prelude.{
  ◌≡◌, ◌⊎◌, inl, inr, refl, ap, ◌∙◌, Bool, true, false, ◌++◌, List, [], ◌∷◌, Option, none, some,
  arith, if_ind,
}
use aegis_honeypot.Prelude.Text.{Text, PathBuf, codes, starts_with}
use aegis_honeypot.Vmm.{HostCall, removed, Run, Host, join}
use aegis_honeypot.Vmm.Orphans.{
  session_of, release_mount, Found, prepend, reclaim_entry, reclaim_entries, reclaim_listed,
  reclaim_orphaned_sessions,
}
use aegis_honeypot.Vmm.Orphans.Settled.{
  IsCareful, removals, IsIn, IsSettled, IsReclaimed, plain_entry, session_entry, Handed-more,
  IsSettled-more,
}

module _ (host : Host) where
  release_mount-IsCareful :
      (p : PathBuf) (t : List HostCall) → IsCareful host t → IsCareful host (release_mount host p t)
  release_mount-IsCareful p t h =
      if_ind (IsCareful host) (host.is_dir t p)
        (λ _. if_ind (IsCareful host) (host.can_umount t p) (λ _. h) (λ _. h)) (λ _. h)

  removals-release_mount :
      (p : PathBuf) (t : List HostCall) → removals (release_mount host p t) ≡ removals t
  removals-release_mount p t =
      if_ind (λ u. removals u ≡ removals t) (host.is_dir t p)
        (λ _. if_ind (λ u. removals u ≡ removals t) (host.can_umount t p) (λ _. refl) (λ _. refl))
        (λ _. refl)

  release_mount-IsIn :
      (p : PathBuf) (t : List HostCall) (call : HostCall)
      → IsIn call t
      → IsIn call (release_mount host p t)
  release_mount-IsIn p t call h =
      if_ind (IsIn call) (host.is_dir t p)
        (λ _. if_ind (IsIn call) (host.can_umount t p) (λ _. inr h) (λ _. inr h)) (λ _. h)

  abbrev Reclaims : PathBuf → List (Text × Bool) → Type 0
  Reclaims base es =
      (u : List HostCall)
      → IsCareful host u
      → IsReclaimed host base es u (reclaim_entries host base es u)

  skipped :
      (base : PathBuf) (name : Text) (is_dir : Bool) (es : List (Text × Bool)) (t : List HostCall)
      → session_of name is_dir ≡ none
      → IsCareful host t
      → Reclaims base es
      → IsReclaimed host base ((name, is_dir) ∷ es) t (reclaim_entries host base es t)
  skipped base name is_dir es t e h next =
      let r : Run (Found host) = reclaim_entries host base es t in
      let i : IsReclaimed host base es t r = next t h in
      record {
        careful = i.careful;
        settled = (plainly (plain_entry name is_dir e), i.settled);
        handed = Handed-more base (name, is_dir) es r.0 i.handed;
        once = rw e (omega (arith, i.once));
        keeps = i.keeps;
      }
    where
      plainly :
          (is_dir ≡ false) ⊎ (starts_with name (codes "session_") ≡ false)
          → IsSettled base
              (reclaim_entries host base es t).0
              (reclaim_entries host base es t).1
              (name, is_dir)
      plainly (inl a) = inl a
      plainly (inr a) = inr (inl a)

  answered :
      (base : PathBuf) (name id : Text) (is_dir : Bool) (es : List (Text × Bool))
      (t u : List HostCall)
      → session_of name is_dir ≡ some id
      → IsCareful host u
      → removals u ≡ removals t
      → ((call : HostCall) → IsIn call t → IsIn call u)
      → Reclaims base es
      → IsReclaimed host base ((name, is_dir) ∷ es) t (
          prepend host (id, join (join base name) (codes "upper")) (reclaim_entries host base es u))
  answered base name id is_dir es t u e h same old next =
      let r : Run (Found host) = reclaim_entries host base es u in
      let i : IsReclaimed host base es u r = next u h in
      let this : (name ≡ codes "session_" ++ id) × (is_dir ≡ true) =
        session_entry name is_dir id e in
      let o : Text × PathBuf = (id, join (join base name) (codes "upper")) in
      record {
        careful = i.careful;
        settled =
            (inr (inr (id, this.0, inl (inl refl))), IsSettled-more base o r.0 r.1 es i.settled);
        handed = (
          (
            inl (ap (λ n. (n, is_dir)) this.0 ∙ ap (λ b. (codes "session_" ++ id, b)) this.1),
            ap (λ n. join (join base n) (codes "upper")) this.0,
          ),
          Handed-more base (name, is_dir) es r.0 i.handed,
        );
        once = rw e (omega (arith, i.once, same));
        keeps = λ call there. i.keeps call (old call there);
      }

  cleared :
      (base : PathBuf) (name id : Text) (is_dir : Bool) (es : List (Text × Bool))
      (t u : List HostCall)
      → session_of name is_dir ≡ some id
      → host.is_dir u (join (join base name) (codes "upper")) ≡ false
      → IsCareful host u
      → removals u ≡ removals t
      → ((call : HostCall) → IsIn call t → IsIn call u)
      → Reclaims base es
      → IsReclaimed host base
          ((name, is_dir) ∷ es)
          t
          (reclaim_entries host base es (removed (join base name) ∷ u))
  cleared base name id is_dir es t u e gone h same old next =
      let v : List HostCall = removed (join base name) ∷ u in
      let r : Run (Found host) = reclaim_entries host base es v in
      let i : IsReclaimed host base es v r = next v (gone, h) in
      let this : (name ≡ codes "session_" ++ id) × (is_dir ≡ true) =
        session_entry name is_dir id e in
      record {
        careful = i.careful;
        settled = (
          inr (inr (id, this.0, inr (i.keeps (removed (join base name)) (inl refl)))),
          i.settled,
        );
        handed = Handed-more base (name, is_dir) es r.0 i.handed;
        once = rw e (omega (arith, i.once, same));
        keeps = λ call there. i.keeps call (inr (old call there));
      }

  reclaim_entry-IsReclaimed :
      (base : PathBuf) (name : Text) (is_dir : Bool) (es : List (Text × Bool)) (o : Option Text)
      (t : List HostCall)
      → session_of name is_dir ≡ o
      → IsCareful host t
      → Reclaims base es
      → IsReclaimed host base
          ((name, is_dir) ∷ es)
          t
          (reclaim_entry host (join base name) o (reclaim_entries host base es) t)
  reclaim_entry-IsReclaimed base name is_dir es none t e h next =
      skipped base name is_dir es t e h next
  reclaim_entry-IsReclaimed base name is_dir es (some id) t e h next =
      let mount : PathBuf = join (join base name) (codes "mount") in
      let u : List HostCall = release_mount host mount t in
      let careful : IsCareful host u = release_mount-IsCareful mount t h in
      if_ind (IsReclaimed host base ((name, is_dir) ∷ es) t)
        (host.is_dir u (join (join base name) (codes "upper")))
        (λ kept.
          answered base name id is_dir es t u e careful (removals-release_mount mount t)
            (release_mount-IsIn mount t) next)
        (λ gone.
          cleared base name id is_dir es t u e gone careful (removals-release_mount mount t)
            (release_mount-IsIn mount t) next)

  reclaim_entries-IsReclaimed : (base : PathBuf) (es : List (Text × Bool)) → Reclaims base es
  unfolding reclaim_entries
  reclaim_entries-IsReclaimed base [] t h = record {
    careful = h;
    settled = tt;
    handed = tt;
    once = refl;
    keeps = λ call there. there;
  }
  reclaim_entries-IsReclaimed base ((name, is_dir) ∷ es) t h =
      reclaim_entry-IsReclaimed base name is_dir es (session_of name is_dir) t refl h
        (reclaim_entries-IsReclaimed base es)

-- What is listed below the base directory.
abbrev pub listed : Option (List (Text × Bool)) → List (Text × Bool)
listed none = []
listed (some es) = es

-- Whatever the host answers: every listed directory of an earlier session either has its id and its
-- upper directory answered for forensics, or is removed, and no entry counts twice; what is answered
-- belongs to a listed directory of a session; and a directory is removed only when it holds no upper
-- directory at that moment.
pub reclaim_orphaned_sessions-IsReclaimed :
    (host : Host) (base : PathBuf) (t : List HostCall)
    → IsCareful host t
    → IsReclaimed host base
        (listed (host.list_dir t base))
        t
        (reclaim_orphaned_sessions host base t)
unfolding reclaim_orphaned_sessions
reclaim_orphaned_sessions-IsReclaimed host base t h = reclaimed (host.list_dir t base)
  where
    reclaimed :
        (o : Option (List (Text × Bool)))
        → IsReclaimed host base (listed o) t (reclaim_listed host base o t)
    reclaimed none = record {
      careful = h;
      settled = tt;
      handed = tt;
      once = refl;
      keeps = λ call there. there;
    }
    reclaimed (some es) = reclaim_entries-IsReclaimed host base es t h
