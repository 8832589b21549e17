-- ===== src/Gateway/Vfs/Tree.antt =====
-- The tree in memory: what is written is read back, and `rm` without its flag keeps directories.
use aegis_honeypot.Prelude.{
  ◌≡◌, ◌≢◌, inl, inr, refl, sym, ap, ◌∙◌, subst, true, false, List, [], ◌∷◌, ◌++◌, Option, none,
  some, arith, if◌then◌else◌, Bool-cases, is_some, list_eq, list_beq, list_beq_iff, list_beq_refl,
}
use aegis_honeypot.Prelude.HashMap.{HashMap, get, insert, remove, get-insert, get-remove}
use aegis_honeypot.Prelude.Text.{Text}
use aegis_honeypot.Gateway.Vfs.{
  FsNode, file, dir, DirNode, dir_node, entries, children_of, children, set_children, insert_child,
  remove_child, put_child, modify_dir, as_dir, and_then, get_node, get_dir,
}

pub entries-children_of : (m : HashMap Text FsNode) → entries (children_of m) ≡ m
entries-children_of [] = refl
entries-children_of ((name, node) ∷ m) = ap (◌∷◌ (name, node)) (entries-children_of m)

children-set_children : (d : DirNode) (m : HashMap Text FsNode) → children (set_children d m) ≡ m
children-set_children (dir_node meta c) m = entries-children_of m

get-insert_child :
    (name q : Text) (node : FsNode) (d : DirNode)
    → get q (children (insert_child name node d))
      ≡ (if list_beq name q then some node else get q (children d))
get-insert_child name q node d =
    ap (get q) (children-set_children d (insert name node (children d)))
    ∙ get-insert name q node (children d)

get-remove_child :
    (name q : Text) (d : DirNode)
    → get q (children (remove_child name d))
      ≡ (if list_beq name q then none else get q (children d))
get-remove_child name q d =
    ap (get q) (children-set_children d (remove name (children d))) ∙ get-remove name q (children d)

get_inserted :
    (name : Text) (node : FsNode) (d : DirNode)
    → get name (children (insert_child name node d)) ≡ some node
get_inserted name node d = get-insert_child name name node d ∙ rw (list_beq_refl name) refl

get_node_cons :
    (p : Text) (ps : List Text) (name : Text) (d : DirNode)
    → get_node (p ∷ (ps ++ name ∷ [])) d
      ≡ and_then (as_dir (get p (children d))) (get_node (ps ++ name ∷ []))
unfolding get_node
get_node_cons p [] name d = refl
get_node_cons p (q ∷ ps) name d = refl

true_ne_false : true ≢ false
true_ne_false e = ground arith

pub some_inj : (d e : DirNode) → some d ≡ some e → d ≡ e
some_inj d e h = ground arith

-- What is put under a name in the directory at a path stands there, made of what the directory was.
module _ (name : Text) (node : DirNode → FsNode) (parent : DirNode) where
  abbrev put : DirNode → DirNode
  put c = insert_child name (node c) c

  put_below :
      (p : Text) (ps : List Text) (d : DirNode) (o : Option FsNode)
      → ((c : DirNode)
          → get_dir ps c ≡ some parent
          → get_node (ps ++ name ∷ []) (modify_dir ps put c) ≡ some (node parent))
      → and_then (as_dir o) (get_dir ps) ≡ some parent
      → get_node (p ∷ (ps ++ name ∷ [])) (put_child p (modify_dir ps put) o d) ≡ some (node parent)
  put_below p ps d none f e = ground arith
  put_below p ps d (some (file n)) f e = ground arith
  put_below p ps d (some (dir c)) f e =
      get_node_cons p ps name (insert_child p (dir (modify_dir ps put c)) d)
      ∙ ap (λ z. and_then (as_dir z) (get_node (ps ++ name ∷ [])))
          (get_inserted p (dir (modify_dir ps put c)) d)
      ∙ f c e

  pub get_node-modify_dir :
      (ps : List Text) (d : DirNode)
      → get_dir ps d ≡ some parent
      → get_node (ps ++ name ∷ []) (modify_dir ps put d) ≡ some (node parent)
  unfolding get_dir get_node modify_dir
  get_node-modify_dir [] d e =
      get_inserted name (node d) d ∙ ap (λ c. some (node c)) (some_inj d parent e)
  get_node-modify_dir (p ∷ ps) d e =
      put_below p ps d (get p (children d)) (get_node-modify_dir ps) e

-- Where directories stay directories.
abbrev pub Stays : (DirNode → DirNode) → DirNode → Type 0
Stays f d = (q : List Text) → is_some (get_dir q d) ≡ true → is_some (get_dir q (f d)) ≡ true

and_then_none :
    (o : Option DirNode) (f : DirNode → Option DirNode)
    → is_some o ≡ false
    → is_some (and_then o f) ≡ false
and_then_none none f h = refl
and_then_none (some d) f h = ground arith

pub remove_child-Stays :
    (name : Text) (d : DirNode)
    → is_some (as_dir (get name (children d))) ≡ false
    → Stays (remove_child name) d
unfolding get_dir
remove_child-Stays name d h [] s = refl
remove_child-Stays name d h (p ∷ q) s = elim (Bool-cases (list_beq name p)) [
  | inl here ↦
      let gone : is_some (as_dir (get p (children d))) ≡ false =
        subst (λ n. is_some (as_dir (get n (children d))) ≡ false) ((list_beq_iff name p).0 here)
          h in
      let never : is_some (and_then (as_dir (get p (children d))) (get_dir q)) ≡ false =
        and_then_none (as_dir (get p (children d))) (get_dir q) gone in
      elim (true_ne_false (sym s ∙ never)) [ ]
  | inr there ↦ rw (get-remove_child name p d) (rw there s)
]

-- A change of one child keeps directories where the change of that child does.
put_child-Stays :
    (p : Text) (g : DirNode → DirNode) (d : DirNode) (o : Option FsNode)
    → get p (children d) ≡ o
    → ((c : DirNode) → as_dir o ≡ some c → Stays g c)
    → Stays (put_child p g o) d
unfolding get_dir
put_child-Stays p g d none e k q s = s
put_child-Stays p g d (some node) e k [] s = refl
put_child-Stays p g d (some (file n)) e k (r ∷ q) s = elim (Bool-cases (list_beq p r)) [
  | inl here ↦ rw (get-insert_child p r (file n) d) (
      rw here (
        subst (λ z. is_some (and_then (as_dir z) (get_dir q)) ≡ true)
          (subst (λ z. get z (children d) ≡ some (file n)) ((list_beq_iff p r).0 here) e) s))
  | inr there ↦ rw (get-insert_child p r (file n) d) (rw there s)
]
put_child-Stays p g d (some (dir c)) e k (r ∷ q) s = elim (Bool-cases (list_beq p r)) [
  | inl here ↦ rw (get-insert_child p r (dir (g c)) d) (
      rw here (
        k c refl q (
          subst (λ z. is_some (and_then (as_dir z) (get_dir q)) ≡ true)
            (subst (λ z. get z (children d) ≡ some (dir c)) ((list_beq_iff p r).0 here) e) s)))
  | inr there ↦ rw (get-insert_child p r (dir (g c)) d) (rw there s)
]

pub modify_dir-Stays :
    (ps : List Text) (f : DirNode → DirNode) (d : DirNode)
    → ((c : DirNode) → get_dir ps d ≡ some c → Stays f c)
    → Stays (modify_dir ps f) d
unfolding get_dir modify_dir
modify_dir-Stays [] f d h = h d refl
modify_dir-Stays (p ∷ ps) f d h =
    put_child-Stays p (modify_dir ps f) d (get p (children d)) refl
      (λ c e. modify_dir-Stays ps f c (λ c2 e2. h c2 (ap (λ z. and_then z (get_dir ps)) e ∙ e2)))
