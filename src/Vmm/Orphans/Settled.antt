-- ===== src/Vmm/Orphans/Settled.antt =====
-- What is to be said of a reconciliation at a start.
use aegis_honeypot.Prelude.{
  ℕ, suc, ◌+◌, ◌≡◌, ◌⊎◌, inl, inr, refl, Bool, true, false, All, All-map, ◌++◌, List, [], ◌∷◌,
  Option, none, some, arith, if◌then◌else◌, if_ind, is_some, length,
}
use aegis_honeypot.Prelude.Prefix.{strip_prefix-append}
use aegis_honeypot.Prelude.Text.{Text, PathBuf, codes, strip_prefix, starts_with}
use aegis_honeypot.Vmm.{
  HostCall, created, removed, mounted, mount_failed, unmounted, umount_failed, write_failed, wrote,
  set_mode, killed, Run, Host, join,
}
use aegis_honeypot.Vmm.Orphans.{session_of}

module _ (host : Host) where
  -- A directory was removed only when it held no upper directory.
  abbrev pub IsCareful : List HostCall → Type 0
  IsCareful [] = Unit
  IsCareful (removed p ∷ t) = (host.is_dir t (join p (codes "upper")) ≡ false) × IsCareful t
  IsCareful (created p ∷ t) = IsCareful t
  IsCareful (mounted p ∷ t) = IsCareful t
  IsCareful (mount_failed p ∷ t) = IsCareful t
  IsCareful (unmounted p ∷ t) = IsCareful t
  IsCareful (umount_failed p ∷ t) = IsCareful t
  IsCareful (write_failed p ∷ t) = IsCareful t
  IsCareful (wrote p s ∷ t) = IsCareful t
  IsCareful (set_mode p m ∷ t) = IsCareful t
  IsCareful (killed pid ∷ t) = IsCareful t

-- How many directories were removed.
abbrev pub removals : List HostCall → ℕ
removals [] = 0
removals (removed p ∷ t) = suc (removals t)
removals (created p ∷ t) = removals t
removals (mounted p ∷ t) = removals t
removals (mount_failed p ∷ t) = removals t
removals (unmounted p ∷ t) = removals t
removals (umount_failed p ∷ t) = removals t
removals (write_failed p ∷ t) = removals t
removals (wrote p s ∷ t) = removals t
removals (set_mode p m ∷ t) = removals t
removals (killed pid ∷ t) = removals t

-- How many entries are directories of sessions.
abbrev pub session_dirs : List (Text × Bool) → ℕ
session_dirs [] = 0
session_dirs ((name, is_dir) ∷ es) =
    (if is_some (session_of name is_dir) then 1 else 0) + session_dirs es

-- Membership.
abbrev pub IsIn : {A : Type 0} → A → List A → Type 0
IsIn x [] = ⊥
IsIn x (y ∷ ys) = (y ≡ x) ⊎ IsIn x ys

-- What forensics is handed: the id and the upper directory of a listed directory of a session.
abbrev pub Handed : PathBuf → List (Text × Bool) → Text × PathBuf → Type 0
Handed base es (id, path) =
    IsIn (codes "session_" ++ id, true) es
    × (path ≡ join (join base (codes "session_" ++ id)) (codes "upper"))

-- An entry is no directory of a session, or its upper directory is answered, or it was removed.
abbrev pub IsSettled : PathBuf → List (Text × PathBuf) → List HostCall → Text × Bool → Type 0
IsSettled base os t (name, is_dir) =
    (is_dir ≡ false)
    ⊎ (starts_with name (codes "session_") ≡ false)
    ⊎ ((id : Text) × (name ≡ codes "session_" ++ id)
        × (IsIn (id, join (join base name) (codes "upper")) os ⊎ IsIn (removed (join base name)) t))

-- What a run over the entries `es` from the calls `t` has made of them.
pub record IsReclaimed (host : Host) (base : PathBuf) (es : List (Text × Bool)) (t : List HostCall)
    (r : Run (List (Text × PathBuf))) : Type 0 where
  pub careful : IsCareful host r.1
  pub settled : All (IsSettled base r.0 r.1) es
  pub handed : All (Handed base es) r.0
  pub once : length r.0 + removals r.1 ≡ session_dirs es + removals t
  pub keeps : (call : HostCall) → IsIn call t → IsIn call r.1

pub plain_entry :
    (name : Text) (is_dir : Bool)
    → session_of name is_dir ≡ none
    → (is_dir ≡ false) ⊎ (starts_with name (codes "session_") ≡ false)
unfolding session_of
plain_entry name true e = inr (not_stripped name e)
  where
    not_stripped :
        (s : Text)
        → strip_prefix s (codes "session_") ≡ none
        → starts_with s (codes "session_") ≡ false
    not_stripped s =
        if_ind (λ (o : Option Text). o ≡ none → starts_with s (codes "session_") ≡ false)
          (starts_with s (codes "session_")) (λ on. λ e. ground (arith, e)) (λ off. λ e. off)
plain_entry name false e = inl refl

pub session_entry :
    (name : Text) (is_dir : Bool) (id : Text)
    → session_of name is_dir ≡ some id
    → (name ≡ codes "session_" ++ id) × (is_dir ≡ true)
unfolding session_of
session_entry name true id e = (strip_prefix-append name (codes "session_") id e, refl)
session_entry name false id e = ground (arith, e)

pub Handed-more :
    (base : PathBuf) (e : Text × Bool) (es : List (Text × Bool)) (os : List (Text × PathBuf))
    → All (Handed base es) os
    → All (Handed base (e ∷ es)) os
Handed-more base e es os h =
    All-map (Handed base es) (Handed base (e ∷ es)) os (λ o i. (inr i.0, i.1)) h

pub IsSettled-more :
    (base : PathBuf) (o : Text × PathBuf) (os : List (Text × PathBuf)) (t : List HostCall)
    (es : List (Text × Bool))
    → All (IsSettled base os t) es
    → All (IsSettled base (o ∷ os) t) es
IsSettled-more base o os t es h =
    All-map (IsSettled base os t) (IsSettled base (o ∷ os) t) es (λ e i. grown e i) h
  where
    grown : (e : Text × Bool) → IsSettled base os t e → IsSettled base (o ∷ os) t e
    grown (name, is_dir) (inl a) = inl a
    grown (name, is_dir) (inr (inl a)) = inr (inl a)
    grown (name, is_dir) (inr (inr (id, same, inl a))) = inr (inr (id, same, inl (inr a)))
    grown (name, is_dir) (inr (inr (id, same, inr a))) = inr (inr (id, same, inr a))
