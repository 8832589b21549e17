-- ===== src/Gateway/Vfs/Confined.antt =====
-- No command touches the disk outside the mount of its session, or removes the mount itself.
pub mod Making
pub mod Removing
pub mod Moving
use aegis_honeypot.Prelude.{
  ℕ, ◌≡◌, ◌≢◌, refl, sym, ap, ◌∙◌, Bool, true, false, not, ◌&&◌, ◌||◌, List, [], ◌∷◌, ◌++◌, Option,
  none, some, arith, if_ind, if◌then◌else◌, is_empty, All, All-drop_last, drop_last, subst, filter,
  list_eq,
}
use aegis_honeypot.Prelude.HashMap.{contains_key, get}
use aegis_honeypot.Prelude.Text.{PathBuf, Text, codes, trim, split_whitespace}
use aegis_honeypot.Gateway.Vfs.{
  FsNode, file, dir, DirNode, children, DiskCall, create_dir_all, create_dir, remove_dir_all,
  remove_file, create_file, write, append, Disk, VirtualFileSystem, resolve, resolve_disk_path_base,
  resolve_upper_path, disk_path, get_dir, modify_dir, new_dir, insert_child,
}
use aegis_honeypot.Gateway.Vfs.Reading.{targets_of, cd, is_dir_at, cd_parts, enter}
use aegis_honeypot.Gateway.Vfs.Commands.{
  parent_of, call, create_parent, in_parent, Step, each, mkdir_target, mkdir, with_parents,
  touch_target, touch, rm_target, rm, is_recursive, is_forced, write_file, mkdir_memory, make_under,
  mkdir_in, rm_node, rm_in, rm_memory, mkdir_both, rm_both, touch_disk, write_disk, make_dirs,
  name_of,
}
use aegis_honeypot.Gateway.Vfs.Paths.{
  IsName, IsNormal, IsBelow, root-IsNormal, resolve-IsNormal, resolve_disk_path_base-append,
}

-- Below the mount, or the mount itself.
abbrev pub IsInside : Option PathBuf → PathBuf → Type 0
IsInside none p = ⊥
IsInside (some base) p = IsBelow base p

-- Strictly below the mount.
abbrev pub IsEntry : Option PathBuf → PathBuf → Type 0
IsEntry none p = ⊥
IsEntry (some base) p =
    (name : Text) × (names : List Text) × IsNormal (name ∷ names) × (p ≡ base ++ name ∷ names)

-- Only `create_dir_all` may be called on the mount itself.
abbrev pub IsAllowed : Option PathBuf → DiskCall → Type 0
IsAllowed mount (create_dir_all p) = IsInside mount p
IsAllowed mount (create_dir p) = IsEntry mount p
IsAllowed mount (remove_dir_all p) = IsEntry mount p
IsAllowed mount (remove_file p) = IsEntry mount p
IsAllowed mount (create_file p) = IsEntry mount p
IsAllowed mount (write p s) = IsEntry mount p
IsAllowed mount (append p s) = IsEntry mount p

pub record IsSafe (mount lower : Option PathBuf) (v : VirtualFileSystem) : Type 0 where
  pub here : IsNormal v.current_path
  pub mount_kept : v.mount_root ≡ mount
  pub lower_kept : v.lower_root ≡ lower
  pub confined : All (IsAllowed mount) v.calls

abbrev pub IsTarget : Option PathBuf → Option PathBuf → Type 0
IsTarget mount none = Unit
IsTarget mount (some p) = IsEntry mount p

abbrev pub IsParent : Option PathBuf → Option PathBuf → Type 0
IsParent mount none = Unit
IsParent mount (some p) = IsInside mount p

drop_last-append :
    (xs : List Text) (y : Text) (ys : List Text)
    → drop_last (xs ++ y ∷ ys) ≡ xs ++ drop_last (y ∷ ys)
drop_last-append [] y ys = refl
drop_last-append (x ∷ []) y ys = refl
drop_last-append (x ∷ z ∷ xs) y ys = ap (◌∷◌ x) (drop_last-append (z ∷ xs) y ys)

parent_of-some :
    (c : Text) (xs ys : List Text) → parent_of (xs ++ c ∷ ys) ≡ some (drop_last (xs ++ c ∷ ys))
parent_of-some c [] ys = refl
parent_of-some c (x ∷ xs) ys = refl

pub parent_of-IsParent :
    (mount : Option PathBuf) (p : PathBuf) → IsEntry mount p → IsParent mount (parent_of p)
parent_of-IsParent none p h = elim h [ ]
parent_of-IsParent (some base) p (name, names, n, e) =
    subst (λ q. IsParent (some base) (parent_of q)) (sym e)
      (subst (IsParent (some base)) (sym (parent_of-some name base names)) (
        drop_last (name ∷ names),
        All-drop_last IsName (name ∷ names) n,
        drop_last-append base name names,
      ))

pub IsInside-of_entry : (mount : Option PathBuf) (p : PathBuf) → IsEntry mount p → IsInside mount p
IsInside-of_entry none p h = elim h [ ]
IsInside-of_entry (some base) p (name, names, n, e) = (name ∷ names, n, e)

module _ (mount lower : Option PathBuf) where
  abbrev pub Safe : VirtualFileSystem → Type 0
  Safe v = IsSafe mount lower v

  abbrev pub Kept : Text × VirtualFileSystem → Type 0
  Kept w = IsSafe mount lower w.1

  pub call-Safe :
      (c : DiskCall) (v : VirtualFileSystem) → IsAllowed mount c → Safe v → Safe (call c v)
  call-Safe c v a h = record {
    here = h.here;
    mount_kept = h.mount_kept;
    lower_kept = h.lower_kept;
    confined = (a, h.confined);
  }

  pub in_parent-Safe :
      (parts : List Text) (f : DirNode → DirNode) (v : VirtualFileSystem)
      → Safe v
      → Safe (in_parent parts f v)
  in_parent-Safe parts f v h = record {
    here = h.here;
    mount_kept = h.mount_kept;
    lower_kept = h.lower_kept;
    confined = h.confined;
  }

  pub create_parent-Safe :
      (o : Option PathBuf) (v : VirtualFileSystem)
      → IsParent mount o
      → Safe v
      → Safe (create_parent o v)
  create_parent-Safe none v i h = h
  create_parent-Safe (some p) v i h = call-Safe (create_dir_all p) v i h

  disk_path-IsTarget :
      (root : Option PathBuf) (parts : List Text)
      → root ≡ mount
      → IsNormal parts
      → is_empty parts ≡ false
      → IsTarget mount (disk_path root parts)
  disk_path-IsTarget none parts e n filled = tt
  disk_path-IsTarget (some base) [] e n filled = ground arith
  disk_path-IsTarget (some base) (p ∷ ps) e n filled =
      subst (λ m. IsEntry m (resolve_disk_path_base base (p ∷ ps))) e
        (p, ps, n, resolve_disk_path_base-append base (p ∷ ps) n)

  pub upper-IsTarget :
      (v : VirtualFileSystem) (parts : List Text)
      → Safe v
      → IsNormal parts
      → is_empty parts ≡ false
      → IsTarget mount (resolve_upper_path v parts)
  upper-IsTarget v parts h n filled = disk_path-IsTarget v.mount_root parts h.mount_kept n filled

  -- Every target of a command in its turn.
  pub each-Kept :
      (step : Step) (ts : List Text) (w : Text × VirtualFileSystem)
      → ((t : Text) (u : Text × VirtualFileSystem) → Kept u → Kept (step t u))
      → Kept w
      → Kept (each step ts w)
  each-Kept step [] w f h = h
  each-Kept step (t ∷ ts) w f h = each-Kept step ts (step t w) f (f t w h)

  write_disk-Safe :
      (appends : Bool) (content : Text) (o : Option PathBuf) (v : VirtualFileSystem)
      → IsTarget mount o
      → Safe v
      → Safe (write_disk appends content o v)
  write_disk-Safe appends content none v t h = h
  write_disk-Safe true content (some p) v t h =
      call-Safe (append p content) (create_parent (parent_of p) v) t
        (create_parent-Safe (parent_of p) v (parent_of-IsParent mount p t) h)
  write_disk-Safe false content (some p) v t h =
      call-Safe (write p content) (create_parent (parent_of p) v) t
        (create_parent-Safe (parent_of p) v (parent_of-IsParent mount p t) h)

  pub write_file-IsSafe :
      (target content : Text) (appends : Bool) (v : VirtualFileSystem)
      → Safe v
      → Kept (write_file target content appends v)
  unfolding write_file
  write_file-IsSafe target content appends v h =
      if_ind Kept (is_empty (resolve v target)) (λ _. h)
        (λ filled. in_parent-Safe (resolve v target) _ _ (
          write_disk-Safe appends content (resolve_upper_path v (resolve v target)) v
            (upper-IsTarget v (resolve v target) h (resolve-IsNormal v target h.here) filled) h))

  touch_disk-Safe :
      (o : Option PathBuf) (v : VirtualFileSystem)
      → IsTarget mount o
      → Safe v
      → Safe (touch_disk o v)
  touch_disk-Safe none v t h = h
  touch_disk-Safe (some p) v t h =
      call-Safe (create_file p) (create_parent (parent_of p) v) t
        (create_parent-Safe (parent_of p) v (parent_of-IsParent mount p t) h)

  touch_target-Kept : (t : Text) (w : Text × VirtualFileSystem) → Kept w → Kept (touch_target t w)
  unfolding touch_target
  touch_target-Kept t (output, v) h =
      if_ind Kept (is_empty (resolve v t)) (λ _. h)
        (λ filled. in_parent-Safe (resolve v t) _ _ (
          touch_disk-Safe (resolve_upper_path v (resolve v t)) v
            (upper-IsTarget v (resolve v t) h (resolve-IsNormal v t h.here) filled) h))

  pub touch-IsSafe : (args : Text) (v : VirtualFileSystem) → Safe v → Kept (touch args v)
  unfolding touch
  touch-IsSafe args v h =
      if_ind Kept (is_empty (targets_of args)) (λ _. h)
        (λ _. each-Kept touch_target (targets_of args) ([], v) touch_target-Kept h)
