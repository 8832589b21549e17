-- ===== src/Gateway/Vfs/Unseen.antt =====
-- What stands on the disk outside the two roots of a session does not show in any answer.
use aegis_honeypot.Prelude.{
  ◌≡◌, ◌⊎◌, inl, inr, refl, ap, ◌∙◌, Bool, true, false, List, [], ◌∷◌, Option, none, some, map,
  subst,
}
use aegis_honeypot.Prelude.HashMap.{HashMap}
use aegis_honeypot.Prelude.Text.{PathBuf, Text, trim, concat}
use aegis_honeypot.Gateway.Vfs.{
  DiskCall, Disk, VirtualFileSystem, resolve, resolve_disk_path_base, disk_path, resolve_upper_path,
  resolve_lower_path, get_node,
}
use aegis_honeypot.Gateway.Vfs.Reading.{
  targets_of, cd, is_dir_at, layer_is_dir, cd_parts, cat, cat_targets, cat_target, cat_layer,
}
use aegis_honeypot.Gateway.Vfs.Listing.{
  ls, ls_target, file_on, add_layer, entries_map, memory_entries, Entry, show_hidden, is_long,
  list_targets,
}
use aegis_honeypot.Gateway.Vfs.Commands.{
  Step, each, mkdir, mkdir_target, mkdir_both, with_parents, rm, rm_target, rm_both, is_recursive,
  is_forced,
}
use aegis_honeypot.Gateway.Vfs.Paths.{resolve_disk_path_base-IsBelow}
use aegis_honeypot.Gateway.Vfs.Confined.{IsInside, IsSafe, Kept}
use aegis_honeypot.Gateway.Vfs.Confined.Making.{mkdir_target-Kept}
use aegis_honeypot.Gateway.Vfs.Confined.Removing.{rm_target-Kept}

-- Two disks that answer alike of a path.
pub record IsSame (d e : Disk) (calls : List DiskCall) (p : PathBuf) : Type 0 where
  pub same_exists : d.exists calls p ≡ e.exists calls p
  pub same_is_dir : d.is_dir calls p ≡ e.is_dir calls p
  pub same_is_file : d.is_file calls p ≡ e.is_file calls p
  pub same_len : d.file_len calls p ≡ e.file_len calls p
  pub same_read : d.read calls p ≡ e.read calls p
  pub same_list : d.list_dir calls p ≡ e.list_dir calls p

-- Two disks that answer alike of every path below one of the roots.
abbrev pub IsSameBelow : Option PathBuf → Option PathBuf → Disk → Disk → Type 0
IsSameBelow mount lower d e =
    (calls : List DiskCall) (p : PathBuf) → IsInside mount p ⊎ IsInside lower p → IsSame d e calls p

module _ (mount lower : Option PathBuf) (d e : Disk) (same : IsSameBelow mount lower d e) where
  abbrev SameOn : List DiskCall → Option PathBuf → Type 0
  SameOn calls none = Unit
  SameOn calls (some p) = IsSame d e calls p

  disk_path-SameOn :
      (root : Option PathBuf) (parts : List Text) (calls : List DiskCall)
      → ((p : PathBuf) → IsInside root p → IsInside mount p ⊎ IsInside lower p)
      → SameOn calls (disk_path root parts)
  disk_path-SameOn none parts calls f = tt
  disk_path-SameOn (some base) parts calls f =
      same calls (resolve_disk_path_base base parts)
        (f (resolve_disk_path_base base parts) (resolve_disk_path_base-IsBelow base parts))

  upper-SameOn :
      (v : VirtualFileSystem) (parts : List Text)
      → IsSafe mount lower v
      → SameOn v.calls (resolve_upper_path v parts)
  upper-SameOn v parts h =
      disk_path-SameOn v.mount_root parts v.calls
        (λ p i. inl (subst (λ m. IsInside m p) h.mount_kept i))

  lower-SameOn :
      (v : VirtualFileSystem) (parts : List Text)
      → IsSafe mount lower v
      → SameOn v.calls (resolve_lower_path v parts)
  lower-SameOn v parts h =
      disk_path-SameOn v.lower_root parts v.calls
        (λ p i. inr (subst (λ m. IsInside m p) h.lower_kept i))

  layer_is_dir_same :
      (v : VirtualFileSystem) (o : Option PathBuf)
      → SameOn v.calls o
      → layer_is_dir d v o ≡ layer_is_dir e v o
  layer_is_dir_same v none s = refl
  layer_is_dir_same v (some p) s = rw (s.same_exists) (rw (s.same_is_dir) refl)

  is_dir_at_same :
      (v : VirtualFileSystem) (parts : List Text)
      → IsSafe mount lower v
      → is_dir_at d v parts ≡ is_dir_at e v parts
  unfolding is_dir_at
  is_dir_at_same v parts h =
      rw (layer_is_dir_same v (resolve_upper_path v parts) (upper-SameOn v parts h))
        (rw (layer_is_dir_same v (resolve_lower_path v parts) (lower-SameOn v parts h)) refl)

  pub cd_same :
      (args : Text) (v : VirtualFileSystem) → IsSafe mount lower v → cd d args v ≡ cd e args v
  unfolding cd
  cd_same args v h = rw (is_dir_at_same v (cd_parts (trim args) v) h) refl

  cat_layer_same :
      (target : Text) (v : VirtualFileSystem) (o : Option PathBuf)
      → SameOn v.calls o
      → cat_layer d target v o ≡ cat_layer e target v o
  cat_layer_same target v none s = refl
  cat_layer_same target v (some p) s =
      rw (s.same_exists) (rw (s.same_is_dir) (rw (s.same_read) refl))

  cat_target_same :
      (v : VirtualFileSystem) (t : Text)
      → IsSafe mount lower v
      → cat_target d v t ≡ cat_target e v t
  unfolding cat_target
  cat_target_same v t h =
      rw (cat_layer_same t v (resolve_upper_path v (resolve v t)) (upper-SameOn v (resolve v t) h))
        (rw
          (cat_layer_same t v (resolve_lower_path v (resolve v t)) (lower-SameOn v (resolve v t) h))
          refl)

  cat_targets_same :
      (v : VirtualFileSystem) (ts : List Text)
      → IsSafe mount lower v
      → cat_targets d v ts ≡ cat_targets e v ts
  unfolding cat_targets
  cat_targets_same v [] h = refl
  cat_targets_same v (t ∷ ts) h = rw (cat_target_same v t h) (rw (cat_targets_same v ts h) refl)

  pub cat_same :
      (args : Text) (v : VirtualFileSystem) → IsSafe mount lower v → cat d args v ≡ cat e args v
  unfolding cat
  cat_same args v h = cat_targets_same v (targets_of args) h

  file_on_same :
      (long : Bool) (v : VirtualFileSystem) (parts : List Text) (o : Option PathBuf)
      → SameOn v.calls o
      → file_on d long v parts o ≡ file_on e long v parts o
  file_on_same long v parts none s = refl
  file_on_same long v parts (some p) s = rw (s.same_is_file) (rw (s.same_len) refl)

  add_layer_same :
      (v : VirtualFileSystem) (o : Option PathBuf) (m : HashMap Text Entry)
      → SameOn v.calls o
      → add_layer d v o m ≡ add_layer e v o m
  add_layer_same v none m s = refl
  add_layer_same v (some p) m s = rw (s.same_is_dir) (rw (s.same_list) refl)

  entries_map_same :
      (v : VirtualFileSystem) (parts : List Text)
      → IsSafe mount lower v
      → entries_map d v parts ≡ entries_map e v parts
  entries_map_same v parts h =
      let deep : HashMap Text Entry = memory_entries (get_node parts v.root) in
      ap (add_layer d v (resolve_upper_path v parts))
        (add_layer_same v (resolve_lower_path v parts) deep (lower-SameOn v parts h))
      ∙ add_layer_same v (resolve_upper_path v parts)
          (add_layer e v (resolve_lower_path v parts) deep) (upper-SameOn v parts h)

  ls_target_same :
      (hidden long : Bool) (v : VirtualFileSystem) (parts : List Text)
      → IsSafe mount lower v
      → ls_target d hidden long v parts ≡ ls_target e hidden long v parts
  unfolding ls_target
  ls_target_same hidden long v parts h =
      rw (file_on_same long v parts (resolve_upper_path v parts) (upper-SameOn v parts h)) (
        rw (file_on_same long v parts (resolve_lower_path v parts) (lower-SameOn v parts h))
          (rw (entries_map_same v parts h) refl))

  ls_targets_same :
      (hidden long : Bool) (v : VirtualFileSystem) (ts : List (List Text))
      → IsSafe mount lower v
      → concat (map (ls_target d hidden long v) ts) ≡ concat (map (ls_target e hidden long v) ts)
  ls_targets_same hidden long v [] h = refl
  ls_targets_same hidden long v (t ∷ ts) h =
      rw (ls_target_same hidden long v t h) (rw (ls_targets_same hidden long v ts h) refl)

  pub ls_same :
      (args : Text) (v : VirtualFileSystem) → IsSafe mount lower v → ls d args v ≡ ls e args v
  unfolding ls
  ls_same args v h = ls_targets_same (show_hidden args) (is_long args) v (list_targets args v) h

  each_same :
      (f g : Step) (ts : List Text) (w : Text × VirtualFileSystem)
      → ((t : Text) (u : Text × VirtualFileSystem) → Kept mount lower u → f t u ≡ g t u)
      → ((t : Text) (u : Text × VirtualFileSystem) → Kept mount lower u → Kept mount lower (g t u))
      → Kept mount lower w
      → each f ts w ≡ each g ts w
  each_same f g [] w q k h = refl
  each_same f g (t ∷ ts) w q k h = ap (each f ts) (q t w h) ∙ each_same f g ts (g t w) q k (k t w h)

  mkdir_both_same :
      (parents : Bool) (target : Text) (parts : List Text) (o : Option PathBuf) (output : Text)
      (v : VirtualFileSystem)
      → SameOn v.calls o
      → mkdir_both d parents target parts o (output, v)
        ≡ mkdir_both e parents target parts o (output, v)
  mkdir_both_same parents target parts none output v s = refl
  mkdir_both_same true target parts (some p) output v s = refl
  mkdir_both_same false target parts (some p) output v s = rw (s.same_exists) refl

  mkdir_target_same :
      (parents : Bool) (t : Text) (w : Text × VirtualFileSystem)
      → Kept mount lower w
      → mkdir_target d parents t w ≡ mkdir_target e parents t w
  unfolding mkdir_target
  mkdir_target_same parents t (output, v) h =
      rw
        (mkdir_both_same parents t (resolve v t) (resolve_upper_path v (resolve v t)) output v
          (upper-SameOn v (resolve v t) h))
        refl

  pub mkdir_same :
      (args : Text) (v : VirtualFileSystem) → IsSafe mount lower v → mkdir d args v ≡ mkdir e args v
  unfolding mkdir
  mkdir_same args v h =
      rw
        (each_same (mkdir_target d (with_parents args)) (mkdir_target e (with_parents args))
          (targets_of args) ([], v) (mkdir_target_same (with_parents args))
          (mkdir_target-Kept mount lower e (with_parents args)) h)
        refl

  rm_both_same :
      (recursive force : Bool) (target : Text) (parts : List Text) (o : Option PathBuf)
      (output : Text) (v : VirtualFileSystem)
      → SameOn v.calls o
      → rm_both d recursive force target parts o (output, v)
        ≡ rm_both e recursive force target parts o (output, v)
  rm_both_same recursive force target parts none output v s = refl
  rm_both_same recursive force target parts (some p) output v s =
      rw (s.same_exists) (rw (s.same_is_dir) refl)

  rm_target_same :
      (recursive force : Bool) (t : Text) (w : Text × VirtualFileSystem)
      → Kept mount lower w
      → rm_target d recursive force t w ≡ rm_target e recursive force t w
  unfolding rm_target
  rm_target_same recursive force t (output, v) h =
      rw
        (rm_both_same recursive force t (resolve v t) (resolve_upper_path v (resolve v t)) output v
          (upper-SameOn v (resolve v t) h))
        refl

  pub rm_same :
      (args : Text) (v : VirtualFileSystem) → IsSafe mount lower v → rm d args v ≡ rm e args v
  unfolding rm
  rm_same args v h =
      rw
        (each_same (rm_target d (is_recursive args) (is_forced args))
          (rm_target e (is_recursive args) (is_forced args)) (targets_of args) ([], v)
          (rm_target_same (is_recursive args) (is_forced args))
          (rm_target-Kept mount lower e (is_recursive args) (is_forced args)) h)
        refl
