-- ===== src/Dashboard/Access/Query.antt =====
-- The token of a query string.
use aegis_honeypot.Prelude.{
  ℕ, ◌≡◌, ◌↔◌, ◌⊎◌, inl, inr, refl, ap, sym, ◌∙◌, true, false, List, [], ◌∷◌, ◌++◌, Option, none,
  some, arith, ◌==◌, if◌then◌else◌, if_ind, list_beq, All,
}
use aegis_honeypot.Prelude.Text.{Text, codes, split, starts_with, strip_prefix}
use aegis_honeypot.Prelude.Prefix.{strip_prefix_iff, strip_prefix-none_iff, strip_prefix-cons}
use aegis_honeypot.Dashboard.Access.{
  push_left, split_once, token_of, or_else, find_token, query_token,
}

-- The value of a pair with the key `k`.
abbrev value_of : Text → Option (Text × Text) → Option Text
value_of k none = none
value_of k (some p) = if list_beq p.0 k then some p.1 else none

token_of-value_of : (o : Option (Text × Text)) → token_of o ≡ value_of (codes "token") o
token_of-value_of none = refl
token_of-value_of (some p) = refl

value_of-push_left :
    (x c : ℕ) (k : Text) (o : Option (Text × Text))
    → value_of (c ∷ k) (push_left x o) ≡ (if x == c then value_of k o else none)
unfolding list_beq
value_of-push_left x c k none = ground arith
value_of-push_left x c k (some p) = ground arith

value_of-keyless : (x : ℕ) (o : Option (Text × Text)) → value_of [] (push_left x o) ≡ none
unfolding list_beq
value_of-keyless x none = refl
value_of-keyless x (some p) = refl

other_char : (x c : ℕ) → (x == 61) ≡ true → (61 == c) ≡ false → (x == c) ≡ false
other_char x c on h = ground arith

-- Before the first `=` stands `k` exactly when the text starts with `k=`.
value_of-split_once :
    (k s : Text)
    → All (λ c. (61 == c) ≡ false) k
    → value_of k (split_once 61 s) ≡ strip_prefix s (k ++ 61 ∷ [])
unfolding split_once list_beq starts_with
value_of-split_once [] [] h = refl
value_of-split_once (c ∷ k) [] h = refl
value_of-split_once [] (x ∷ s) h =
    if_ind (λ (o : Option (Text × Text)). value_of [] o ≡ strip_prefix (x ∷ s) (61 ∷ [])) (x == 61)
      (λ on. sym (strip_prefix-cons x s 61 [] ∙ rw on refl))
      (λ off.
        value_of-keyless x (split_once 61 s) ∙ sym (strip_prefix-cons x s 61 [] ∙ rw off refl))
value_of-split_once (c ∷ k) (x ∷ s) h =
    let rest : Text = k ++ 61 ∷ [] in
    if_ind (λ (o : Option (Text × Text)). value_of (c ∷ k) o ≡ strip_prefix (x ∷ s) (c ∷ rest))
      (x == 61) (λ on. sym (strip_prefix-cons x s c rest ∙ rw (other_char x c on h.0) refl))
      (λ _.
        value_of-push_left x c k (split_once 61 s)
        ∙ ap (λ o. if x == c then o else none) (value_of-split_once k s h.1)
        ∙ sym (strip_prefix-cons x s c rest))

token_of-split_once : (s : Text) → token_of (split_once 61 s) ≡ strip_prefix s (codes "token=")
token_of-split_once s =
    token_of-value_of (split_once 61 s)
    ∙ value_of-split_once (codes "token") s (refl, (refl, (refl, (refl, (refl, tt)))))

-- The first pair with the key `token` has the value `token`.
abbrev pub IsFirst : Text → List Text → Type 0
IsFirst token [] = ⊥
IsFirst token (pair ∷ pairs) =
    (pair ≡ codes "token=" ++ token)
    ⊎ ((starts_with pair (codes "token=") ≡ false) × IsFirst token pairs)

-- So in a query, whose pairs stand between `&`.
abbrev pub IsNamed : Text → Option Text → Type 0
IsNamed token none = ⊥
IsNamed token (some query) = IsFirst token (split 38 query)

pub or_else_iff :
    (a b : Option Text) (t : Text)
    → (or_else a b ≡ some t) ↔ ((a ≡ some t) ⊎ ((a ≡ none) × (b ≡ some t)))
or_else_iff none b t = ground arith
or_else_iff (some s) b t = ground arith

pair_iff :
    (token pair : Text) (pairs : List Text)
    → ((find_token pairs ≡ some token) ↔ IsFirst token pairs)
    → (find_token (pair ∷ pairs) ≡ some token) ↔ IsFirst token (pair ∷ pairs)
pair_iff token pair pairs rest = (λ e. known e, λ h. told h)
  where
    this : Option Text
    this = token_of (split_once 61 pair)

    known : or_else this (find_token pairs) ≡ some token → IsFirst token (pair ∷ pairs)
    known e = elim ((or_else_iff this (find_token pairs) token).0 e) [
      | inl a ↦
          inl
            ((strip_prefix_iff pair (codes "token=") token).0 (sym (token_of-split_once pair) ∙ a))
      | inr (bare, b) ↦ inr (
        (strip_prefix-none_iff pair (codes "token=")).0 (sym (token_of-split_once pair) ∙ bare),
        rest.0 b,
      )
    ]

    told : IsFirst token (pair ∷ pairs) → or_else this (find_token pairs) ≡ some token
    told (inl same) =
        (or_else_iff this (find_token pairs) token).1
          (inl (token_of-split_once pair ∙ (strip_prefix_iff pair (codes "token=") token).1 same))
    told (inr (off, later)) = (or_else_iff this (find_token pairs) token).1 (
        inr (
          token_of-split_once pair ∙ (strip_prefix-none_iff pair (codes "token=")).1 off,
          rest.1 later,
        ))

find_token_iff :
    (token : Text) (pairs : List Text) → (find_token pairs ≡ some token) ↔ IsFirst token pairs
find_token_iff token [] = (λ e. ground (arith, e), λ h. elim h [ ])
find_token_iff token (pair ∷ pairs) = pair_iff token pair pairs (find_token_iff token pairs)

pub query_token_iff :
    (token : Text) (query : Option Text) → (query_token query ≡ some token) ↔ IsNamed token query
unfolding query_token
query_token_iff token none = (λ e. ground (arith, e), λ h. elim h [ ])
query_token_iff token (some query) = find_token_iff token (split 38 query)
