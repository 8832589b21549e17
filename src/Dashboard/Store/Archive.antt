-- ===== src/Dashboard/Store/Archive.antt =====
-- The session archive: `sessions` and `session_order` hold the same ids.
use aegis_honeypot.Prelude.{
  ◌≤◌, ◌<◌, ◌≡◌, refl, sym, ◌∙◌, true, false, ◌||◌, List, [], ◌∷◌, ◌++◌, arith, ltb, list_eq,
  list_beq, Bool-cases, inl, inr, length, length-append, contains,
}
use aegis_honeypot.Prelude.HashMap.{
  HashMap, get, insert, remove, update, contains_key, get-insert, get-remove, get-update,
  length-insert, length-remove, length-update, NodupKeys, insert-NodupKeys, remove-NodupKeys,
  update-NodupKeys,
}
use aegis_honeypot.Prelude.Text.{Text}
use aegis_honeypot.Common.{SessionStartEvent}
use aegis_honeypot.Dashboard.Store.{
  Store, SessionRecord, session_archive_cap, evict, archive_session_start,
}

abbrev pub NodupList : List Text → Type 0
NodupList [] = Unit {0}
NodupList (x ∷ xs) = (contains xs x ≡ false) × NodupList xs

-- The order lists every archived id once, and nothing else, and is bounded.
pub record Archived {F : Type 0} (order : List Text) (m : HashMap Text (SessionRecord F))
    : Type 0 where
  pub keys : NodupKeys m
  pub once : NodupList order
  pub same : (id : Text) → contains_key id m ≡ contains order id
  pub size : length m ≡ length order
  pub bounded : length order ≤ session_archive_cap

contains-snoc :
    (xs : List Text) (x q : Text) → contains (xs ++ x ∷ []) q ≡ (contains xs q || list_beq x q)
contains-snoc [] x q = ground arith
contains-snoc (y ∷ ys) x q = ground (arith, contains-snoc ys x q)

NodupList-snoc :
    (xs : List Text) (x : Text) → contains xs x ≡ false → NodupList xs → NodupList (xs ++ x ∷ [])
NodupList-snoc [] x h d = (refl, tt)
NodupList-snoc (y ∷ ys) x h d = (
  ground (arith, contains-snoc ys x y, list_eq.beq_iff x y, list_eq.beq_iff y x, d.0, h),
  NodupList-snoc ys x (ground (arith, h)) d.1,
)

module _ {F : Type 0} where
  evict_fits :
      (xs : List Text) (m : HashMap Text (SessionRecord F))
      → length xs ≤ session_archive_cap
      → evict xs m ≡ (xs, m)
  unfolding evict
  evict_fits [] m h = refl
  evict_fits (x ∷ xs) m h = ground arith

  evict_full :
      (x : Text) (xs : List Text) (m : HashMap Text (SessionRecord F))
      → length xs ≡ session_archive_cap
      → evict (x ∷ xs) m ≡ (xs, remove x m)
  unfolding evict
  evict_full x xs m h = ground (arith, evict_fits xs (remove x m))

  -- A new id, with room for it.
  add-Archived :
      (order : List Text) (m : HashMap Text (SessionRecord F)) (id : Text) (r : SessionRecord F)
      → contains_key id m ≡ false
      → length order < session_archive_cap
      → Archived order m
      → Archived (order ++ id ∷ []) (insert id r m)
  add-Archived order m id r new room a = record {
    keys = insert-NodupKeys id r m a.keys;
    once = NodupList-snoc order id (sym (a.same id) ∙ new) a.once;
    same = λ q. ground (arith, get-insert id q r m, contains-snoc order id q, a.same q);
    size = ground (arith, length-insert id r m, length-append order (id ∷ []), a.size);
    bounded = omega (arith, length-append order (id ∷ []));
  }

  -- An id that is archived already.
  again-Archived :
      (order : List Text) (m : HashMap Text (SessionRecord F)) (id : Text) (r : SessionRecord F)
      → contains_key id m ≡ true
      → Archived order m
      → Archived order (insert id r m)
  again-Archived order m id r old a = record {
    keys = insert-NodupKeys id r m a.keys;
    once = a.once;
    same = λ q. ground (arith, get-insert id q r m, list_eq.beq_iff id q, a.same q, a.same id);
    size = ground (arith, length-insert id r m, a.size);
    bounded = a.bounded;
  }

  -- The oldest id goes.
  drop-Archived :
      (x : Text) (xs : List Text) (m : HashMap Text (SessionRecord F))
      → Archived (x ∷ xs) m
      → Archived xs (remove x m)
  drop-Archived x xs m a = record {
    keys = remove-NodupKeys x m a.keys;
    once = a.once.1;
    same = λ q. ground (arith, get-remove x q m, list_eq.beq_iff x q, a.same q, a.once.0);
    size = ground (arith, length-remove x m a.keys, a.size, a.same x, list_eq.beq_iff x x);
    bounded = omega (arith, a.bounded);
  }

  pub update-Archived :
      (order : List Text) (m : HashMap Text (SessionRecord F)) (id : Text)
      (f : SessionRecord F → SessionRecord F)
      → Archived order m
      → Archived order (update id f m)
  update-Archived order m id f a = record {
    keys = update-NodupKeys id f m a.keys;
    once = a.once;
    same = λ q. ground (arith, get-update id q f m, a.same q);
    size = length-update id f m ∙ a.size;
    bounded = a.bounded;
  }

  -- A start event for a new id, with the order as it stands in front of the eviction.
  start_new :
      (order : List Text) (m : HashMap Text (SessionRecord F)) (id : Text) (r : SessionRecord F)
      → contains_key id m ≡ false
      → Archived order m
      → Archived (evict (order ++ id ∷ []) m).0 (insert id r (evict (order ++ id ∷ []) m).1)
  start_new [] m id r new a =
      rw (evict_fits (id ∷ []) m (omega arith)) (add-Archived [] m id r new (omega arith) a)
  start_new (x ∷ xs) m id r new a = elim (Bool-cases (ltb (length (x ∷ xs)) session_archive_cap)) [
    | inl room ↦
        rw (evict_fits (x ∷ xs ++ id ∷ []) m (ground (arith, length-append xs (id ∷ []))))
          (add-Archived (x ∷ xs) m id r new (ground arith) a)
    | inr full ↦
        rw (evict_full x (xs ++ id ∷ []) m (ground (arith, length-append xs (id ∷ []), a.bounded)))
          (add-Archived xs (remove x m) id r (ground (arith, get-remove x id m))
            (omega (arith, a.bounded)) (drop-Archived x xs m a))
  ]

  -- A start event keeps the archive consistent.
  pub archive_session_start-Archived :
      (s : Store F) (e : SessionStartEvent F)
      → Archived s.session_order s.sessions
      → Archived (archive_session_start s e).session_order (archive_session_start s e).sessions
  unfolding archive_session_start
  archive_session_start-Archived s e a = elim (Bool-cases (contains_key e.session_id s.sessions)) [
    | inl old ↦ rw old (again-Archived s.session_order s.sessions e.session_id _ old a)
    | inr new ↦ rw new (start_new s.session_order s.sessions e.session_id _ new a)
  ]

  pub empty-Archived : Archived {F = F} [] []
  unfolding get
  empty-Archived = record {
    keys = tt;
    once = tt;
    same = λ id. refl;
    size = refl;
    bounded = omega arith;
  }
