-- ===== src/Gateway/Vfs/Paths.antt =====
-- Where a path of the terminal leads: its parts, the current directory and the paths on the disk.
use aegis_honeypot.Prelude.{
  ◌≡◌, refl, sym, ap, ◌∙◌, false, not, ◌||◌, List, [], ◌∷◌, ◌++◌, append-nil, append_assoc, inl,
  inr, arith, if_ind, Bool-cases, if◌then◌else◌, ◌==◌, is_empty, list_beq, All, All-append, All-map,
  filter, All-drop_last,
}
use aegis_honeypot.Prelude.Text.{
  PathBuf, Text, codes, trim, has_char, split, split-All, join, starts_with, trim_start_matches,
}
use aegis_honeypot.Gateway.Vfs.{
  VirtualFileSystem, current_path_str, add_component, add_components, from_home, resolve_trimmed,
  resolve, is_skipped, resolve_disk_path_base,
}

-- A text that names an entry of a directory.
abbrev pub IsName : Text → Type 0
IsName part =
    (is_empty part ≡ false)
    × (list_beq part (codes ".") ≡ false)
    × (list_beq part (codes "..") ≡ false)
    × (has_char 47 part ≡ false)

IsName-is_skipped : (part : Text) → is_skipped part ≡ false → IsName part
IsName-is_skipped part h = ground arith

is_skipped-IsName : (part : Text) → IsName part → is_skipped part ≡ false
is_skipped-IsName part n = ground arith

abbrev pub IsNormal : List Text → Type 0
IsNormal parts = All IsName parts

abbrev NoSlash : Text → Type 0
NoSlash c = has_char 47 c ≡ false

pub add_component-IsNormal :
    (c : Text) (parts : List Text) → NoSlash c → IsNormal parts → IsNormal (add_component c parts)
unfolding add_component
add_component-IsNormal c parts h n =
    if_ind IsNormal (is_empty c || list_beq c (codes ".")) (λ _. n)
      (λ plain.
        if_ind IsNormal (list_beq c (codes "..")) (λ _. All-drop_last IsName parts n)
          (λ other. All-append IsName parts (c ∷ []) n (grind arith, tt)))

add_components-IsNormal :
    (cs parts : List Text) → All NoSlash cs → IsNormal parts → IsNormal (add_components cs parts)
unfolding add_components
add_components-IsNormal [] parts h n = n
add_components-IsNormal (c ∷ cs) parts h n =
    add_components-IsNormal cs (add_component c parts) h.1 (add_component-IsNormal c parts h.0 n)

any_of_All : (w : Text) → All (λ c. (c == 47) ≡ false) w → NoSlash w
any_of_All [] h = refl
any_of_All (c ∷ w) h = rw (h.0) (any_of_All w h.1)

split-NoSlash : (s : Text) → All NoSlash (split 47 s)
split-NoSlash s =
    All-map (All (λ c. (c == 47) ≡ false)) NoSlash (split 47 s) any_of_All
      (split-All (λ c. (c == 47) ≡ false) 47 s (λ x e. e))

pub root-IsNormal : IsNormal (codes "root" ∷ [])
unfolding list_beq
root-IsNormal = ((refl, refl, refl, refl), tt)

from_home-IsNormal : (rest : Text) → IsNormal (from_home rest)
from_home-IsNormal rest =
    if_ind IsNormal (is_empty rest) (λ _. root-IsNormal)
      (λ _.
        add_components-IsNormal (split 47 rest) (codes "root" ∷ []) (split-NoSlash rest)
          root-IsNormal)

resolve_trimmed-IsNormal :
    (v : VirtualFileSystem) (path : Text)
    → IsNormal v.current_path
    → IsNormal (resolve_trimmed v path)
unfolding resolve_trimmed
resolve_trimmed-IsNormal v path n =
    if_ind IsNormal (is_empty path) (λ _. n)
      (λ _.
        if_ind IsNormal (starts_with path (codes "/"))
          (λ _. add_components-IsNormal (split 47 path) [] (split-NoSlash path) tt)
          (λ _.
            if_ind IsNormal (starts_with path (codes "~"))
              (λ _. from_home-IsNormal (trim_start_matches 47 (trim_start_matches 126 path)))
              (λ _. add_components-IsNormal (split 47 path) v.current_path (split-NoSlash path) n)))

pub resolve-IsNormal :
    (v : VirtualFileSystem) (path : Text) → IsNormal v.current_path → IsNormal (resolve v path)
unfolding resolve
resolve-IsNormal v path n = resolve_trimmed-IsNormal v (trim path) n

-- The path on the disk is the base with every part pushed that is the name of an entry.
pub resolve_disk_path_base-filter :
    (base : PathBuf) (parts : List Text)
    → resolve_disk_path_base base parts ≡ base ++ filter (λ p. not (is_skipped p)) parts
unfolding resolve_disk_path_base
resolve_disk_path_base-filter base [] = sym (append-nil base)
resolve_disk_path_base-filter base (p ∷ ps) = elim (Bool-cases (is_skipped p)) [
  | inl skipped ↦ rw skipped (resolve_disk_path_base-filter base ps)
  | inr name ↦ rw name (
      resolve_disk_path_base-filter (base ++ p ∷ []) ps
      ∙ append_assoc base (p ∷ []) (filter (λ q. not (is_skipped q)) ps))
]

filter-IsNormal : (parts : List Text) → IsNormal (filter (λ p. not (is_skipped p)) parts)
filter-IsNormal [] = tt
filter-IsNormal (p ∷ ps) = elim (Bool-cases (is_skipped p)) [
  | inl skipped ↦ rw skipped (filter-IsNormal ps)
  | inr name ↦ rw name (IsName-is_skipped p name, filter-IsNormal ps)
]

pub filter_normal :
    (parts : List Text) → IsNormal parts → filter (λ p. not (is_skipped p)) parts ≡ parts
filter_normal [] n = refl
filter_normal (p ∷ ps) n = rw (is_skipped-IsName p n.0) (ap (◌∷◌ p) (filter_normal ps n.1))

-- A path that is a base and names below it.
abbrev pub IsBelow : PathBuf → PathBuf → Type 0
IsBelow base p = (names : List Text) × IsNormal names × (p ≡ base ++ names)

-- Wherever the parts come from, the path on the disk is below the base.
pub resolve_disk_path_base-IsBelow :
    (base : PathBuf) (parts : List Text) → IsBelow base (resolve_disk_path_base base parts)
resolve_disk_path_base-IsBelow base parts = (
  filter (λ p. not (is_skipped p)) parts,
  filter-IsNormal parts,
  resolve_disk_path_base-filter base parts,
)

pub resolve_disk_path_base-append :
    (base : PathBuf) (parts : List Text)
    → IsNormal parts
    → resolve_disk_path_base base parts ≡ base ++ parts
resolve_disk_path_base-append base parts n =
    resolve_disk_path_base-filter base parts ∙ ap (λ z. base ++ z) (filter_normal parts n)

-- Reading back the text of a path.
split_word : (w : Text) → NoSlash w → split 47 w ≡ w ∷ []
unfolding split
split_word [] h = refl
split_word (c ∷ w) h = ground (arith, split_word w)

split-word_append : (w s : Text) → NoSlash w → split 47 (w ++ 47 ∷ s) ≡ w ∷ split 47 s
unfolding split
split-word_append [] s h = refl
split-word_append (c ∷ w) s h = ground (arith, split-word_append w s)

slash_of_name : (w : Text) → IsName w → NoSlash w
slash_of_name w h = grind arith

split-join :
    (p : Text) (ps : List Text) → IsNormal (p ∷ ps) → split 47 (join (codes "/") (p ∷ ps)) ≡ p ∷ ps
unfolding join
split-join p [] n = split_word p (slash_of_name p n.0)
split-join p (q ∷ ps) n =
    split-word_append p (join (codes "/") (q ∷ ps)) (slash_of_name p n.0)
    ∙ ap (◌∷◌ p) (split-join q ps n.1)

add_component_name :
    (c : Text) (parts : List Text) → IsName c → add_component c parts ≡ parts ++ c ∷ []
unfolding add_component
add_component_name c parts n = grind arith

add_components_names : (cs parts : List Text) → IsNormal cs → add_components cs parts ≡ parts ++ cs
unfolding add_components
add_components_names [] parts n = sym (append-nil parts)
add_components_names (c ∷ cs) parts n =
    rw (add_component_name c parts n.0)
      (add_components_names cs (parts ++ c ∷ []) n.1 ∙ append_assoc parts (c ∷ []) cs)

abbrev path_text : List Text → Text
path_text parts = if is_empty parts then codes "/" else codes "/" ++ join (codes "/") parts

resolve_trimmed-path_text :
    (here : VirtualFileSystem) (parts : List Text)
    → IsNormal parts
    → resolve_trimmed here (path_text parts) ≡ parts
unfolding resolve_trimmed add_components add_component starts_with split
resolve_trimmed-path_text here [] n = refl
resolve_trimmed-path_text here (p ∷ ps) n =
    rw (split-join p ps n) (add_components_names (p ∷ ps) [] n)

-- The text that `pwd` prints for a directory leads back to it, from any other directory: when it
-- has no white space at its ends, it is resolved to the parts of that directory, wherever the
-- session is now.
resolve-current_path_str :
    (v here : VirtualFileSystem)
    → IsNormal v.current_path
    → trim (current_path_str v) ≡ current_path_str v
    → resolve here (current_path_str v) ≡ v.current_path
unfolding resolve
resolve-current_path_str v here n t =
    ap (resolve_trimmed here) t ∙ resolve_trimmed-path_text here v.current_path n
