-- ===== src/Dashboard/Store/Counters.antt =====
-- The capped sets and counters.
use aegis_honeypot.Prelude.{
  ℕ, suc, ◌≤◌, ◌≡◌, refl, List, [], ◌∷◌, Option, none, some, arith, subst, ltb, if◌then◌else◌, Eq,
  list_eq, Bool-cases, inl, inr, ◌⊎◌, ◌%◌, length,
}
use aegis_honeypot.Prelude.HashMap.{HashMap, get, insert, get-insert, length-insert}
use aegis_honeypot.Prelude.Text.{Text}
use aegis_honeypot.Dashboard.Store.{
  insert_capped, insert_all, bump_found, bump_capped, bump, u64_mod,
}

-- What a counter `o` says of a key that came `n` times: the count, if it is tracked; if it is
-- not, then it never came or the map, of `len` keys, is full.
abbrev pub ExactAt : Option ℕ → ℕ → ℕ → ℕ → Type 0
ExactAt none n len top = (n ≡ 0) ⊎ (top ≤ len)
ExactAt (some v) n len top = v ≡ n % u64_mod

ExactAt-grow :
    (o : Option ℕ) (n len len' top : ℕ) → len ≤ len' → ExactAt o n len top → ExactAt o n len' top
ExactAt-grow none n len len' top le x = ground arith
ExactAt-grow (some v) n len len' top le x = x

module _ {ℓ} {A : Type ℓ} ⦃e : Eq A⦄ where
  pub length-insert_capped :
      (xs : List A) (a : A) (top : ℕ) → length xs ≤ top → length (insert_capped xs a top) ≤ top
  unfolding insert_capped
  length-insert_capped xs a top h = ground arith

pub length-insert_all :
    (vs xs : List Text) (top : ℕ) → length xs ≤ top → length (insert_all xs vs top) ≤ top
unfolding insert_all
length-insert_all [] xs top h = h
length-insert_all (v ∷ vs) xs top h =
    length-insert_all vs (insert_capped xs v top) top (length-insert_capped xs v top h)

module _ {ℓ} {K : Type ℓ} ⦃e : Eq K⦄ where
  length-bump_found :
      (o : Option ℕ) (m : HashMap K ℕ) (k : K) (top : ℕ)
      → get k m ≡ o
      → length m ≤ top
      → length (bump_found o m k top) ≤ top
  length-bump_found none m k top h le = ground (arith, length-insert k 1 m)
  length-bump_found (some n) m k top h le = ground (arith, length-insert k (bump n) m)

  pub length-bump_capped :
      (m : HashMap K ℕ) (k : K) (top : ℕ) → length m ≤ top → length (bump_capped m k top) ≤ top
  unfolding bump_capped
  length-bump_capped m k top le = length-bump_found (get k m) m k top refl le

  abbrev pub Exact : HashMap K ℕ → (K → ℕ) → ℕ → Type ℓ
  Exact m n top = (k : K) → ExactAt (get k m) (n k) (length m) top

  -- The number of times that each key came, after `k` came once more.
  abbrev pub once_more : K → (K → ℕ) → K → ℕ
  once_more k n q = if e.beq k q then suc (n q) else n q

  put-Exact :
      (m : HashMap K ℕ) (n : K → ℕ) (k q : K) (v top : ℕ)
      → v ≡ suc (n k) % u64_mod
      → ExactAt (get q m) (n q) (length m) top
      → ExactAt (get q (insert k v m)) (once_more k n q) (length (insert k v m)) top
  put-Exact m n k q v top new x = elim (Bool-cases (e.beq k q)) [
    | inl hit ↦
        rw (get-insert k q v m, hit)
          (subst (λ z. v ≡ suc (n z) % u64_mod) ((e.beq_iff k q).0 hit) new)
    | inr miss ↦
        rw (get-insert k q v m, miss)
          (ExactAt-grow (get q m) (n q) (length m) (length (insert k v m)) top
            (ground (arith, length-insert k v m)) x)
  ]

  refused-Exact :
      (m : HashMap K ℕ) (n : K → ℕ) (k q : K) (top : ℕ)
      → get k m ≡ none
      → top ≤ length m
      → ExactAt (get q m) (n q) (length m) top
      → ExactAt (get q m) (once_more k n q) (length m) top
  refused-Exact m n k q top h le x = elim (Bool-cases (e.beq k q)) [
    | inl hit ↦
        subst (λ z. ExactAt (get z m) (once_more k n q) (length m) top) ((e.beq_iff k q).0 hit)
          (rw h (inr le))
    | inr miss ↦ rw miss x
  ]

  bump_found-Exact :
      (o : Option ℕ) (m : HashMap K ℕ) (n : K → ℕ) (k q : K) (top : ℕ)
      → get k m ≡ o
      → ExactAt o (n k) (length m) top
      → ExactAt (get q m) (n q) (length m) top
      → ExactAt (get q (bump_found o m k top)) (once_more k n q) (length (bump_found o m k top)) top
  bump_found-Exact none m n k q top h xk xq = elim (Bool-cases (ltb (length m) top)) [
    | inl room ↦ rw room (put-Exact m n k q 1 top (ground (arith, xk)) xq)
    | inr full ↦ rw full (refused-Exact m n k q top h (ground arith) xq)
  ]
  bump_found-Exact (some v) m n k q top h xk xq =
      put-Exact m n k q (bump v) top (omega (arith, xk)) xq

  -- One more occurrence keeps the counters exact.
  pub bump_capped-Exact :
      (m : HashMap K ℕ) (n : K → ℕ) (k : K) (top : ℕ)
      → Exact m n top
      → Exact (bump_capped m k top) (once_more k n) top
  unfolding bump_capped
  bump_capped-Exact m n k top x q = bump_found-Exact (get k m) m n k q top refl (x k) (x q)
