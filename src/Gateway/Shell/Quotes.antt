-- ===== src/Gateway/Shell/Quotes.antt =====
-- `echo`: the quotes it strips.
use aegis_honeypot.Prelude.{
  ℕ, ◌≡◌, ◌⊎◌, inl, inr, refl, sym, ap, ◌∙◌, Bool, true, ◌&&◌, [], ◌∷◌, ◌++◌, reverse, arith, leb,
  Bool-cases, drop, drop_last,
}
use mathlib.Core.List.{reverse-cons, reverse-reverse}
use aegis_honeypot.Prelude.Text.{Text, newline, trim, starts_with, ends_with, utf8_len}
use aegis_honeypot.Gateway.Shell.Replies.{unquote, in_quotes, echo}

-- A text between two quotes of one kind.
abbrev pub IsQuoted : Text → Text → Type 0
IsQuoted s inner = (q : ℕ) × ((q ≡ 34) ⊎ (q ≡ 39)) × (s ≡ q ∷ (inner ++ q ∷ []))

drop_last-append_one : (s : Text) (q : ℕ) → drop_last (s ++ q ∷ []) ≡ s
drop_last-append_one [] q = refl
drop_last-append_one (c ∷ []) q = refl
drop_last-append_one (c ∷ d ∷ s) q = ap (◌∷◌ c) (drop_last-append_one (d ∷ s) q)

starts_at : (s : Text) (q : ℕ) → starts_with s (q ∷ []) ≡ true → s ≡ q ∷ drop 1 s
unfolding starts_with
starts_at [] q h = ground arith
starts_at (c ∷ s) q h = ground arith

ends_at : (s : Text) (q : ℕ) → ends_with s (q ∷ []) ≡ true → s ≡ drop_last s ++ q ∷ []
unfolding ends_with
ends_at s q h =
    let e : s ≡ reverse (drop 1 (reverse s)) ++ q ∷ [] =
      sym (reverse-reverse s)
      ∙ ap reverse (starts_at (reverse s) q h)
      ∙ reverse-cons q (drop 1 (reverse s)) in
    e
    ∙ ap (λ z. z ++ q ∷ [])
        (sym (drop_last-append_one (reverse (drop 1 (reverse s))) q) ∙ ap drop_last (sym e))

both_true : (a b : Bool) → a && b ≡ true → (a ≡ true) × (b ≡ true)
both_true a b h = ground arith

-- A lone quote is too short.
lone_quote : (c q : ℕ) → (q ≡ 34) ⊎ (q ≡ 39) → c ≡ q → leb 2 (utf8_len (c ∷ [])) ≡ true → ⊥
lone_quote c q (inl a) e h = ground arith
lone_quote c q (inr a) e h = ground arith

head_is : (c q : ℕ) (s : Text) → c ∷ s ≡ q ∷ s → c ≡ q
head_is c q s e = ground arith

IsQuoted-inside :
    (s : Text) (q : ℕ)
    → (q ≡ 34) ⊎ (q ≡ 39)
    → leb 2 (utf8_len s) ≡ true
    → in_quotes q s ≡ true
    → IsQuoted s (drop 1 (drop_last s))
IsQuoted-inside [] q k long h = ground arith
IsQuoted-inside (c ∷ []) q k long h =
    let quote : c ≡ q =
      head_is c q [] (starts_at (c ∷ []) q (both_true (starts_with (c ∷ []) (q ∷ [])) _ h).0) in
    elim (lone_quote c q k quote long) [ ]
IsQuoted-inside (c ∷ d ∷ s) q k long h =
    let both : (starts_with (c ∷ d ∷ s) (q ∷ []) ≡ true) × (ends_with (c ∷ d ∷ s) (q ∷ []) ≡ true) =
      both_true (starts_with (c ∷ d ∷ s) (q ∷ [])) (ends_with (c ∷ d ∷ s) (q ∷ [])) h in
    let quote : c ≡ q = head_is c q (d ∷ s) (starts_at (c ∷ d ∷ s) q both.0) in
    (q, k, ends_at (c ∷ d ∷ s) q both.1 ∙ ap (λ z. z ∷ (drop_last (d ∷ s) ++ q ∷ [])) quote)

unquote-IsQuoted : (s : Text) → (unquote s ≡ s) ⊎ IsQuoted s (unquote s)
unfolding unquote
unquote-IsQuoted s = elim (Bool-cases (leb 2 (utf8_len s))) [
  | inr short ↦ inl (rw short refl)
  | inl long ↦ elim (Bool-cases (in_quotes 34 s)) [
    | inl double ↦ rw long (rw double (inr (IsQuoted-inside s 34 (inl refl) long double)))
    | inr other ↦ elim (Bool-cases (in_quotes 39 s)) [
      | inl single ↦
          rw long (rw other (rw single (inr (IsQuoted-inside s 39 (inr refl) long single))))
      | inr bare ↦ inl (rw other (rw bare (rw long refl)))
    ]
  ]
]

-- `echo` prints one line: its argument without the white space around it, and either as it is or
-- without the one quote at each end where the two are of the same kind. A lone quote is printed.
echo-IsQuoted :
    (args : Text)
    → (inner : Text) × (echo args ≡ inner ++ newline)
      × ((inner ≡ trim args) ⊎ IsQuoted (trim args) inner)
unfolding echo
echo-IsQuoted args = (unquote (trim args), refl, unquote-IsQuoted (trim args))
