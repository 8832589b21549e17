-- ===== src/Prelude/HashMap.antt =====
-- `std::collections::HashMap` as an association list over keys with an equality. A key stands at
-- most once where the map was built by these operations.
use Prim.Native.Nat.{suc, ◌≤◌}
use mathlib.Core.Path.{◌≡◌, refl}
use mathlib.Core.Bool.{Bool, true}
use mathlib.Core.List.{List, [], ◌∷◌}
use mathlib.Core.Option.{Option, none, some}
use native.Mathlib.Omega.{arith}
use aegis_honeypot.Prelude.Tests.{if◌then◌else◌, Eq, is_some}
use aegis_honeypot.Prelude.Lists.{length}

abbrev pub HashMap {ℓ κ} : Type ℓ → Type κ → Type (ℓ ⊔ κ)
HashMap K V = List (K × V)

abbrev pub keep_if {ℓ} : {V : Type ℓ} → (V → Bool) → Option V → Option V
keep_if p none = none
keep_if p (some v) = if p v then some v else none

abbrev pub map_some {ℓ} : {V : Type ℓ} → (V → V) → Option V → Option V
map_some f none = none
map_some f (some v) = some (f v)

module _ {ℓ κ} {K : Type ℓ} {V : Type κ} ⦃e : Eq K⦄ where
  unfoldable pub get : K → HashMap K V → Option V
  get k [] = none
  get k ((j, v) ∷ m) = if e.beq j k then some v else get k m

  unfoldable pub insert : K → V → HashMap K V → HashMap K V
  insert k v [] = (k, v) ∷ []
  insert k v ((j, w) ∷ m) = if e.beq j k then (k, v) ∷ m else (j, w) ∷ insert k v m

  unfoldable pub remove : K → HashMap K V → HashMap K V
  remove k [] = []
  remove k ((j, w) ∷ m) = if e.beq j k then remove k m else (j, w) ∷ remove k m

  abbrev pub contains_key : K → HashMap K V → Bool
  contains_key k m = is_some (get k m)

  pub get-insert :
      (k q : K) (v : V) (m : HashMap K V)
      → get q (insert k v m) ≡ (if e.beq k q then some v else get q m)
  unfolding get insert
  get-insert k q v [] = refl
  get-insert k q v ((j, w) ∷ m) =
      ground (arith, e.beq_iff k q, e.beq_iff j k, e.beq_iff j q, get-insert k q v m)

  pub get-remove :
      (k q : K) (m : HashMap K V) → get q (remove k m) ≡ (if e.beq k q then none else get q m)
  unfolding get remove
  get-remove k q [] = ground arith
  get-remove k q ((j, w) ∷ m) =
      ground (arith, e.beq_iff k q, e.beq_iff j k, e.beq_iff j q, get-remove k q m)

  pub length-insert :
      (k : K) (v : V) (m : HashMap K V)
      → length (insert k v m) ≡ (if contains_key k m then length m else suc (length m))
  unfolding get insert
  length-insert k v [] = refl
  length-insert k v ((j, w) ∷ m) = ground (arith, length-insert k v m)

  pub length-remove-le : (k : K) (m : HashMap K V) → length (remove k m) ≤ length m
  unfolding remove
  length-remove-le k [] = omega arith
  length-remove-le k ((j, w) ∷ m) = ground (arith, length-remove-le k m)

  -- `retain(|_, v| p(v))`.
  unfoldable pub retain : (V → Bool) → HashMap K V → HashMap K V
  retain p [] = []
  retain p ((j, w) ∷ m) = if p w then (j, w) ∷ retain p m else retain p m

  pub length-retain-le : (p : V → Bool) (m : HashMap K V) → length (retain p m) ≤ length m
  unfolding retain
  length-retain-le p [] = omega arith
  length-retain-le p ((j, w) ∷ m) = ground (arith, length-retain-le p m)

  -- Every key stands at most once.
  abbrev pub NodupKeys : HashMap K V → Type κ
  NodupKeys [] = Unit
  NodupKeys ((j, w) ∷ m) = (get j m ≡ none) × NodupKeys m

  -- An entry that `retain` keeps is read as before; one that it drops is gone.
  pub get-retain :
      (p : V → Bool) (q : K) (m : HashMap K V)
      → NodupKeys m
      → get q (retain p m) ≡ keep_if p (get q m)
  unfolding get retain
  get-retain p q [] d = refl
  get-retain p q ((j, w) ∷ m) d = ground (arith, e.beq_iff j q, get-retain p q m d.1)

  pub insert-NodupKeys : (k : K) (v : V) (m : HashMap K V) → NodupKeys m → NodupKeys (insert k v m)
  unfolding insert get
  insert-NodupKeys k v [] d = (refl, tt)
  insert-NodupKeys k v ((j, w) ∷ m) d =
      ground (arith, e.beq_iff j k, e.beq_iff k j, get-insert k j v m, insert-NodupKeys k v m d.1)

  pub remove-NodupKeys : (k : K) (m : HashMap K V) → NodupKeys m → NodupKeys (remove k m)
  unfolding remove get
  remove-NodupKeys k [] d = tt
  remove-NodupKeys k ((j, w) ∷ m) d = ground (arith, get-remove k j m, remove-NodupKeys k m d.1)

  pub retain-NodupKeys : (p : V → Bool) (m : HashMap K V) → NodupKeys m → NodupKeys (retain p m)
  unfolding retain get
  retain-NodupKeys p [] d = tt
  retain-NodupKeys p ((j, w) ∷ m) d = ground (arith, get-retain p j m d.1, retain-NodupKeys p m d.1)

  -- `if let Some(v) = get_mut(k) { *v = f(*v) }`.
  unfoldable pub update : K → (V → V) → HashMap K V → HashMap K V
  update k f [] = []
  update k f ((j, w) ∷ m) = if e.beq j k then (j, f w) ∷ m else (j, w) ∷ update k f m

  pub get-update :
      (k q : K) (f : V → V) (m : HashMap K V)
      → get q (update k f m) ≡ (if e.beq k q then map_some f (get q m) else get q m)
  unfolding get update
  get-update k q f [] = ground arith
  get-update k q f ((j, w) ∷ m) =
      ground (arith, e.beq_iff k q, e.beq_iff j k, e.beq_iff j q, get-update k q f m)

  pub length-update : (k : K) (f : V → V) (m : HashMap K V) → length (update k f m) ≡ length m
  unfolding update
  length-update k f [] = refl
  length-update k f ((j, w) ∷ m) = ground (arith, length-update k f m)

  pub update-NodupKeys :
      (k : K) (f : V → V) (m : HashMap K V) → NodupKeys m → NodupKeys (update k f m)
  unfolding update get
  update-NodupKeys k f [] d = tt
  update-NodupKeys k f ((j, w) ∷ m) d =
      ground (arith, e.beq_iff k j, e.beq_iff j k, get-update k j f m, update-NodupKeys k f m d.1)

  -- Removing a key that stands once.
  pub remove_absent : (k : K) (m : HashMap K V) → get k m ≡ none → remove k m ≡ m
  unfolding get remove
  remove_absent k [] h = refl
  remove_absent k ((j, w) ∷ m) h = ground (arith, remove_absent k m)

  pub length-remove :
      (k : K) (m : HashMap K V)
      → NodupKeys m
      → contains_key k m ≡ true
      → suc (length (remove k m)) ≡ length m
  unfolding get remove
  length-remove k [] d h = ground arith
  length-remove k ((j, w) ∷ m) d h =
      ground (arith, e.beq_iff j k, remove_absent k m, length-remove k m d.1)
