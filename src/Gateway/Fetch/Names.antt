-- ===== src/Gateway/Fetch/Names.antt =====
-- The names that the fetch writes under, and the length of what is harvested.
use aegis_honeypot.Prelude.{
  ℕ, zero, suc, ◌∙◌, ◌+◌, ◌≤◌, ◌<◌, ◌≡◌, refl, false, [], ◌∷◌, ◌++◌, inl, inr, arith, length,
  is_empty, take, length-append, length-take, take-append_le, take-take, ltb, Bool-cases,
}
use aegis_honeypot.Prelude.Text.{Text, codes, has_char, starts_with}
use aegis_honeypot.Gateway.Egress.{Url}
use aegis_honeypot.Gateway.Fetch.{
  max_credential_len, ellipsis, truncate_credential, last_segment, is_unsafe, safe_filename,
}

-- A name of one file in a directory: not empty, no separator, and no leading dot, so neither `.`
-- nor `..`.
pub record IsFileName (name : Text) : Type 0 where
  pub present : 1 ≤ length name
  pub short : length name ≤ 128
  pub no_slash : has_char 47 name ≡ false
  pub no_backslash : has_char 92 name ≡ false
  pub no_dot : starts_with name (codes ".") ≡ false

take-has_char : (c : ℕ) (n : ℕ) (s : Text) → has_char c s ≡ false → has_char c (take n s) ≡ false
take-has_char c zero s h = refl
take-has_char c (suc n) [] h = refl
take-has_char c (suc n) (d ∷ s) h = ground (arith, take-has_char c n s)

take-starts_with :
    (n : ℕ) (s : Text)
    → starts_with s (codes ".") ≡ false
    → starts_with (take (suc n) s) (codes ".") ≡ false
unfolding starts_with
take-starts_with n [] h = refl
take-starts_with n (d ∷ s) h = ground arith

length_present : (s : Text) → is_empty s ≡ false → 1 ≤ length s
length_present [] h = ground arith
length_present (c ∷ s) h = omega arith

index-IsFileName : IsFileName (codes "index.html")
unfolding starts_with
index-IsFileName = record {
  present = omega arith;
  short = omega arith;
  no_slash = refl;
  no_backslash = refl;
  no_dot = refl;
}

take-IsFileName : (s : Text) → is_unsafe s ≡ false → IsFileName (take 128 s)
take-IsFileName s h = record {
  present = ground (arith, length-take 128 s, length_present s, h);
  short = omega (arith, length-take 128 s);
  no_slash = take-has_char 47 128 s (ground (arith, h));
  no_backslash = take-has_char 92 128 s (ground (arith, h));
  no_dot = take-starts_with 127 s (ground (arith, h));
}

-- Whatever the URL, the name its payload is dropped under is one file name: from 1 to 128
-- characters, no `/`, no `\`, and no dot in front.
pub safe_filename-IsFileName : (url : Url) → IsFileName (safe_filename url)
unfolding safe_filename
safe_filename-IsFileName url = elim (Bool-cases (is_unsafe (last_segment url.path_segments))) [
  | inl bad ↦ rw bad index-IsFileName
  | inr good ↦ rw good (take-IsFileName _ good)
]

long_lem :
    (s : Text)
    → max_credential_len < length s
    → (take max_credential_len (take max_credential_len s ++ ellipsis) ≡ take max_credential_len s)
      × (length (take max_credential_len s ++ ellipsis) ≤ max_credential_len + 1)
      × (length s ≤ max_credential_len → take max_credential_len s ++ ellipsis ≡ s)
long_lem s h = (
  take-append_le max_credential_len (take max_credential_len s) ellipsis
        (omega (arith, length-take max_credential_len s))
      ∙ take-take max_credential_len s,
  omega
      (arith, length-append (take max_credential_len s) ellipsis, length-take max_credential_len s),
  λ le. ground (arith, h, le),
)

-- A harvested field keeps the first 256 characters of what was sent, is longer than that by the
-- ellipsis at most, and is what was sent where that has no more than 256 characters.
truncate_credential_lem :
    (s : Text)
    → (take max_credential_len (truncate_credential s) ≡ take max_credential_len s)
      × (length (truncate_credential s) ≤ max_credential_len + 1)
      × (length s ≤ max_credential_len → truncate_credential s ≡ s)
unfolding truncate_credential
truncate_credential_lem s = elim (Bool-cases (ltb max_credential_len (length s))) [
  | inl long ↦ rw long (long_lem s (ground arith))
  | inr short ↦ rw short (refl, ground arith, λ h. refl)
]
