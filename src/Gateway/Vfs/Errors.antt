-- ===== src/Gateway/Vfs/Errors.antt =====
-- How `cd` answers.
use aegis_honeypot.Prelude.{
  ◌↔◌, if_ind, ap, ◌<◌, ◌≡◌, ◌≢◌, ◌⊎◌, inl, inr, refl, Bool, true, false, List, [], ◌∷◌, Option,
  none, some, arith, if◌then◌else◌, is_empty, length,
}
use aegis_honeypot.Prelude.Text.{PathBuf, Text, codes, trim}
use aegis_honeypot.Gateway.Vfs.{
  FsNode, file, dir, DirNode, Disk, VirtualFileSystem, resolve, resolve_upper_path,
  resolve_lower_path, get_node,
}
use aegis_honeypot.Gateway.Vfs.Reading.{
  cd, is_dir_at, cd_parts, enter, layer_is_dir, node_is_dir, first_of,
}

-- `cd` moved to `parts` and said nothing.
abbrev pub IsMoved : List Text → VirtualFileSystem → Text × VirtualFileSystem → Type 0
IsMoved parts v r = r ≡ ([], record v { current_path = parts })

-- `cd` left everything as it was and printed an error.
abbrev pub IsRefused : VirtualFileSystem → Text × VirtualFileSystem → Type 0
IsRefused v r = (r.1 ≡ v) × (0 < length r.0)

first_iff :
    (a b : Option Bool)
    → (first_of a b ≡ some true) ↔ ((a ≡ some true) ⊎ ((a ≡ none) × (b ≡ some true)))
first_iff none b = ground arith
first_iff (some x) b = ground arith

module _ (disk : Disk) (v : VirtualFileSystem) where
  -- A layer has no entry at a path of the disk, or the session has no such layer.
  abbrev pub IsAbsent : Option PathBuf → Type 0
  IsAbsent none = Unit
  IsAbsent (some p) = disk.exists v.calls p ≡ false

  abbrev pub IsDirOn : Option PathBuf → Type 0
  IsDirOn none = ⊥
  IsDirOn (some p) = (disk.exists v.calls p ≡ true) × (disk.is_dir v.calls p ≡ true)

  -- A directory of the first layer that has an entry at the path: the upper one, the lower one, the
  -- tree in memory.
  abbrev pub IsFirst : List Text → Type 0
  IsFirst parts =
      IsDirOn (resolve_upper_path v parts)
      ⊎ (IsAbsent (resolve_upper_path v parts) × IsDirOn (resolve_lower_path v parts))
      ⊎ (IsAbsent (resolve_upper_path v parts)
          × IsAbsent (resolve_lower_path v parts)
          × ((d : DirNode) × (get_node parts v.root ≡ some (dir d))))

  -- Where `cd` may lead.
  abbrev pub IsOpen : List Text → Type 0
  IsOpen parts = (parts ≡ []) ⊎ IsFirst parts

  layer_is_dir-IsAbsent : (o : Option PathBuf) → (layer_is_dir disk v o ≡ none) ↔ IsAbsent o
  layer_is_dir-IsAbsent none = (λ e. tt, λ h. refl)
  layer_is_dir-IsAbsent (some p) =
      if_ind (λ (o : Option Bool). (o ≡ none) ↔ (disk.exists v.calls p ≡ false))
        (disk.exists v.calls p) (λ on. (λ e. ground (arith, e), λ h. ground (arith, on, h)))
        (λ off. (λ e. off, λ h. refl))

  layer_is_dir-IsDirOn : (o : Option PathBuf) → (layer_is_dir disk v o ≡ some true) ↔ IsDirOn o
  layer_is_dir-IsDirOn none = (λ e. ground (arith, e), λ h. elim h [ ])
  layer_is_dir-IsDirOn (some p) =
      if_ind
        (λ (o : Option Bool).
          (o ≡ some true) ↔ ((disk.exists v.calls p ≡ true) × (disk.is_dir v.calls p ≡ true)))
        (disk.exists v.calls p) (λ on. (λ e. (on, cc), λ h. ap some h.1))
        (λ off. (λ e. ground (arith, e), λ h. ground (arith, off, h.0)))

  memory_dir_iff :
      (o : Option FsNode) → (node_is_dir o ≡ some true) ↔ ((d : DirNode) × (o ≡ some (dir d)))
  memory_dir_iff none = (λ e. ground (arith, e), λ (d, e). ground (arith, e))
  memory_dir_iff (some (file f)) = (λ e. ground (arith, e), λ (d, e). ap node_is_dir e)
  memory_dir_iff (some (dir d)) = (λ e. (d, refl), λ h. refl)

  is_dir_at_iff : (parts : List Text) → (is_dir_at disk v parts ≡ some true) ↔ IsFirst parts
  unfolding is_dir_at
  is_dir_at_iff parts = (λ e. known e, λ h. told h)
    where
      upper : Option Bool
      upper = layer_is_dir disk v (resolve_upper_path v parts)

      lower : Option Bool
      lower = layer_is_dir disk v (resolve_lower_path v parts)

      memory : Option Bool
      memory = node_is_dir (get_node parts v.root)

      known : first_of upper (first_of lower memory) ≡ some true → IsFirst parts
      known e = elim ((first_iff upper (first_of lower memory)).0 e) [
        | inl u ↦ inl ((layer_is_dir-IsDirOn (resolve_upper_path v parts)).0 u)
        | inr (no_upper, r) ↦ elim ((first_iff lower memory).0 r) [
          | inl l ↦ inr (
              inl (
                (layer_is_dir-IsAbsent (resolve_upper_path v parts)).0 no_upper,
                (layer_is_dir-IsDirOn (resolve_lower_path v parts)).0 l,
              ))
          | inr (no_lower, m) ↦ inr (
              inr (
                (layer_is_dir-IsAbsent (resolve_upper_path v parts)).0 no_upper,
                (layer_is_dir-IsAbsent (resolve_lower_path v parts)).0 no_lower,
                (memory_dir_iff (get_node parts v.root)).0 m,
              ))
        ]
      ]

      told : IsFirst parts → first_of upper (first_of lower memory) ≡ some true
      told (inl u) =
          (first_iff upper (first_of lower memory)).1
            (inl ((layer_is_dir-IsDirOn (resolve_upper_path v parts)).1 u))
      told (inr (inl (no_upper, l))) = (first_iff upper (first_of lower memory)).1 (
          inr (
            (layer_is_dir-IsAbsent (resolve_upper_path v parts)).1 no_upper,
            (first_iff lower memory).1
                (inl ((layer_is_dir-IsDirOn (resolve_lower_path v parts)).1 l)),
          ))
      told (inr (inr (no_upper, no_lower, m))) = (first_iff upper (first_of lower memory)).1 (
          inr (
            (layer_is_dir-IsAbsent (resolve_upper_path v parts)).1 no_upper,
            (first_iff lower memory).1 (
                inr (
                  (layer_is_dir-IsAbsent (resolve_lower_path v parts)).1 no_lower,
                  (memory_dir_iff (get_node parts v.root)).1 m,
                )),
          ))

none_ne_some : none ≢ some true
none_ne_some e = ground arith

some_ne_some : some false ≢ some true
some_ne_some e = ground arith

-- The two ends of `cd`, by what the layers say.
enter_lem :
    (arg : Text) (parts : List Text) (v : VirtualFileSystem) (o : Option Bool)
    → ((o ≡ some true) × IsMoved parts v (enter arg parts v o))
      ⊎ ((o ≢ some true) × IsRefused v (enter arg parts v o))
enter_lem arg parts v none = inr (none_ne_some, (refl, omega arith))
enter_lem arg parts v (some false) = inr (some_ne_some, (refl, omega arith))
enter_lem arg parts v (some true) = inl (refl, refl)

-- `cd` with the path `parts` answered `r`.
abbrev pub IsJudged : Disk → VirtualFileSystem → List Text → Text × VirtualFileSystem → Type 0
IsJudged disk v parts r =
    (IsOpen disk v parts × IsMoved parts v r) ⊎ ((IsOpen disk v parts → ⊥) × IsRefused v r)

closed :
    (disk : Disk) (v : VirtualFileSystem) (p : Text) (ps : List Text)
    → (is_dir_at disk v (p ∷ ps) ≢ some true)
    → IsOpen disk v (p ∷ ps)
    → ⊥
closed disk v p ps h (inl e) = ground arith
closed disk v p ps h (inr i) = h ((is_dir_at_iff disk v (p ∷ ps)).1 i)

judged :
    (disk : Disk) (arg : Text) (v : VirtualFileSystem) (parts : List Text)
    → IsJudged disk v parts (
        if is_empty parts
        then ([], record v { current_path = parts })
        else enter arg parts v (is_dir_at disk v parts))
judged disk arg v [] = inl (inl refl, refl)
judged disk arg v (p ∷ ps) = elim (enter_lem arg (p ∷ ps) v (is_dir_at disk v (p ∷ ps))) [
  | inl (there, moved) ↦ inl (inr ((is_dir_at_iff disk v (p ∷ ps)).0 there), moved)
  | inr (not_there, refused) ↦ inr (closed disk v p ps not_there, refused)
]

-- The path that an argument names: `/root` where it is blank.
abbrev pub IsTarget : VirtualFileSystem → Text → List Text → Type 0
IsTarget v arg parts =
    ((arg ≡ []) × (parts ≡ codes "root" ∷ [])) ⊎ ((0 < length arg) × (parts ≡ resolve v arg))

cd_parts-IsTarget : (v : VirtualFileSystem) (arg : Text) → IsTarget v arg (cd_parts arg v)
cd_parts-IsTarget v [] = inl (refl, refl)
cd_parts-IsTarget v (c ∷ arg) = inr (omega arith, refl)

-- `cd` moves without a word exactly when the path that its argument names is `/` or a directory of
-- the first layer that has an entry there, the upper layer of the disk before the lower one and that
-- before the tree in memory. Otherwise it prints an error and the file system is as before.
pub cd-IsMoved :
    (disk : Disk) (args : Text) (v : VirtualFileSystem)
    → (parts : List Text) × IsTarget v (trim args) parts × IsJudged disk v parts (cd disk args v)
unfolding cd
cd-IsMoved disk args v = (
  cd_parts (trim args) v,
  cd_parts-IsTarget v (trim args),
  judged disk (trim args) v (cd_parts (trim args) v),
)
