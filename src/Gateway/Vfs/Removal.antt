-- ===== src/Gateway/Vfs/Removal.antt =====
-- `rm` without a recursive flag removes files only.
use aegis_honeypot.Prelude.{
  ◌≡◌, ◌⊎◌, ◌&&◌, ◌||◌, arith, All, any, refl, sym, ◌∙◌, subst, Bool, true, false, not, List, [],
  ◌∷◌, Option, none, some, if_ind, is_empty, is_some, list_eq, drop_last,
}
use aegis_honeypot.Prelude.HashMap.{get}
use aegis_honeypot.Prelude.Text.{PathBuf, Text, codes, split_whitespace, starts_with, has_char}
use aegis_honeypot.Gateway.Vfs.{
  FsNode, file, dir, DirNode, children, remove_child, DiskCall, create_dir_all, create_dir,
  remove_dir_all, remove_file, create_file, write, append, Disk, VirtualFileSystem, resolve,
  resolve_upper_path, as_dir, get_dir,
}
use aegis_honeypot.Gateway.Vfs.Reading.{is_flag, targets_of}
use aegis_honeypot.Gateway.Vfs.Commands.{
  each, call, name_of, rm, rm_target, rm_both, rm_memory, rm_in, rm_node, is_forced,
}
use aegis_honeypot.Gateway.Vfs.Tree.{some_inj, remove_child-Stays, modify_dir-Stays}

-- The directories that were removed on the disk with what they hold.
abbrev pub removed_dirs : List DiskCall → List PathBuf
removed_dirs [] = []
removed_dirs (create_dir_all p ∷ cs) = removed_dirs cs
removed_dirs (create_dir p ∷ cs) = removed_dirs cs
removed_dirs (remove_dir_all p ∷ cs) = p ∷ removed_dirs cs
removed_dirs (remove_file p ∷ cs) = removed_dirs cs
removed_dirs (create_file p ∷ cs) = removed_dirs cs
removed_dirs (write p s ∷ cs) = removed_dirs cs
removed_dirs (append p s ∷ cs) = removed_dirs cs

-- What was a directory in memory still is, and none was removed on the disk.
pub record HasDirsOf (old new : VirtualFileSystem) : Type 0 where
  pub in_memory :
      (q : List Text) → is_some (get_dir q old.root) ≡ true → is_some (get_dir q new.root) ≡ true
  pub on_disk : removed_dirs new.calls ≡ removed_dirs old.calls

has_own : (v : VirtualFileSystem) → HasDirsOf v v
has_own v = record { in_memory = λ q s. s; on_disk = refl }

has_next : (u v w : VirtualFileSystem) → HasDirsOf u v → HasDirsOf v w → HasDirsOf u w
has_next u v w f g = record {
  in_memory = λ q s. g.in_memory q (f.in_memory q s);
  on_disk = g.on_disk ∙ f.on_disk;
}

module _ (disk : Disk) (force : Bool) where
  rm_node-HasDirsOf :
      (target : Text) (parts : List Text) (parent : DirNode) (output : Text) (v : VirtualFileSystem)
      (o : Option FsNode)
      → get_dir (drop_last parts) v.root ≡ some parent
      → get (name_of parts) (children parent) ≡ o
      → HasDirsOf v (rm_node false force target parts o (output, v)).1
  rm_node-HasDirsOf target parts parent output v none e h =
      if_ind (λ (r : Text × VirtualFileSystem). HasDirsOf v r.1) force (λ _. has_own v)
        (λ _. has_own v)
  rm_node-HasDirsOf target parts parent output v (some (dir d)) e h =
      if_ind (λ (r : Text × VirtualFileSystem). HasDirsOf v r.1) force (λ _. has_own v)
        (λ _. has_own v)
  rm_node-HasDirsOf target parts parent output v (some (file f)) e h = record {
    in_memory = modify_dir-Stays (drop_last parts) (remove_child (name_of parts)) v.root (λ c there.
        remove_child-Stays (name_of parts) c (
          subst (λ z. is_some (as_dir (get (name_of parts) (children z))) ≡ false)
            (some_inj parent c (sym e ∙ there)) (rw h refl)));
    on_disk = refl;
  }

  rm_in-HasDirsOf :
      (target : Text) (parts : List Text) (output : Text) (v : VirtualFileSystem)
      (o : Option DirNode)
      → get_dir (drop_last parts) v.root ≡ o
      → HasDirsOf v (rm_in false force target parts o (output, v)).1
  rm_in-HasDirsOf target parts output v none e = has_own v
  rm_in-HasDirsOf target parts output v (some d) e =
      rm_node-HasDirsOf target parts d output v (get (name_of parts) (children d)) e refl

  rm_memory-HasDirsOf :
      (target : Text) (parts : List Text) (output : Text) (v : VirtualFileSystem)
      → HasDirsOf v (rm_memory false force target parts (output, v)).1
  rm_memory-HasDirsOf target parts output v =
      rm_in-HasDirsOf target parts output v (get_dir (drop_last parts) v.root) refl

  abbrev Kept : VirtualFileSystem → Text × VirtualFileSystem → Type 0
  Kept v r = HasDirsOf v r.1

  rm_both-HasDirsOf :
      (target : Text) (parts : List Text) (o : Option PathBuf) (output : Text)
      (v : VirtualFileSystem)
      → HasDirsOf v (rm_both disk false force target parts o (output, v)).1
  rm_both-HasDirsOf target parts none output v = rm_memory-HasDirsOf target parts output v
  rm_both-HasDirsOf target parts (some p) output v =
      if_ind (Kept v) (not (disk.exists v.calls p)) (λ _. rm_memory-HasDirsOf target parts output v)
        (λ _.
          if_ind (Kept v) (not (disk.is_dir v.calls p))
            (λ _.
              has_next v (call (remove_file p) v) _
                (record { in_memory = λ q s. s; on_disk = refl })
                (rm_memory-HasDirsOf target parts output (call (remove_file p) v)))
            (λ _.
              if_ind (Kept v) force (λ _. rm_memory-HasDirsOf target parts output v)
                (λ _. has_own v)))

  rm_target-HasDirsOf :
      (t : Text) (w : Text × VirtualFileSystem) → HasDirsOf w.1 (rm_target disk false force t w).1
  unfolding rm_target
  rm_target-HasDirsOf t (output, v) =
      if_ind (Kept v) (is_empty (resolve v t)) (λ _. has_own v)
        (λ _. rm_both-HasDirsOf t (resolve v t) (resolve_upper_path v (resolve v t)) output v)

  each-HasDirsOf :
      (ts : List Text) (w : Text × VirtualFileSystem)
      → HasDirsOf w.1 (each (rm_target disk false force) ts w).1
  each-HasDirsOf [] w = has_own w.1
  each-HasDirsOf (t ∷ ts) w =
      let next : Text × VirtualFileSystem = rm_target disk false force t w in
      has_next w.1 next.1 (each (rm_target disk false force) ts next).1 (rm_target-HasDirsOf t w)
        (each-HasDirsOf ts next)

-- A token that is no flag, or a flag without the letters `r` and `R`.
abbrev pub HasNoR : Text → Type 0
HasNoR token =
    (starts_with token (codes "-") ≡ false)
    ⊎ ((has_char 114 token ≡ false) × (has_char 82 token ≡ false))

not_recursive :
    (tokens : List Text)
    → All HasNoR tokens
    → any (λ t. is_flag t && (has_char 114 t || has_char 82 t)) tokens ≡ false
not_recursive [] h = refl
not_recursive (t ∷ tokens) h = ground (arith, h.0, not_recursive tokens h.1)

-- `rm` removes no directory, in memory or on the disk, when none of the tokens behind it that start
-- with `-` has the letter `r` or `R`, whatever its targets are. (A long flag such as `--force` has
-- one.)
pub rm-HasDirsOf :
    (disk : Disk) (args : Text) (v : VirtualFileSystem)
    → All HasNoR (split_whitespace args)
    → HasDirsOf v (rm disk args v).1
unfolding rm
rm-HasDirsOf disk args v plain =
    if_ind (λ (r : Text × VirtualFileSystem). HasDirsOf v r.1) (is_empty (targets_of args))
      (λ _. has_own v)
      (λ _.
        rw (not_recursive (split_whitespace args) plain)
          (each-HasDirsOf disk (is_forced args) (targets_of args) ([], v)))
