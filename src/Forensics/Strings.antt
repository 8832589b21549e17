-- ===== src/Forensics/Strings.antt =====
-- `extract_strings` against the printable runs of a payload, and the types of payloads.
use aegis_honeypot.Prelude.{
  ℕ, ◌≡◌, ◌↔◌, refl, sym, ap, ◌∙◌, Bool, true, List, [], ◌∷◌, ◌++◌, arith, leb, if◌then◌else◌,
  if_ind, Bool-cases, inl, inr, length, filter, append-nil, append_assoc,
}
use aegis_honeypot.Prelude.Text.{Text, codes, push_head, starts_with}
use aegis_honeypot.Common.{elf, shell, pe}
use aegis_honeypot.Forensics.{detect_file_type, is_printable, keep_run, scan, extract_strings}

-- The pieces between the bytes that are not printable, empty ones included.
abbrev pub runs : List ℕ → List Text
runs [] = [] ∷ []
runs (b ∷ bytes) = if is_printable b then push_head b (runs bytes) else [] ∷ runs bytes

abbrev glue : List ℕ → List Text → List Text
glue current [] = current ∷ []
glue current (w ∷ ws) = (current ++ w) ∷ ws

abbrev pub is_long : ℕ → Text → Bool
is_long min_len w = leb min_len (length w)

glue_push :
    (b : ℕ) (current : List ℕ) (ws : List Text)
    → glue current (push_head b ws) ≡ glue (current ++ b ∷ []) ws
glue_push b current [] = refl
glue_push b current (w ∷ ws) = ap (λ z. z ∷ ws) (sym (append_assoc current (b ∷ []) w))

glue_head : (b : ℕ) (ws : List Text) → glue [] (push_head b ws) ≡ push_head b ws
glue_head b [] = refl
glue_head b (w ∷ ws) = refl

glue_nil : (bytes : List ℕ) → glue [] (runs bytes) ≡ runs bytes
glue_nil [] = refl
glue_nil (b ∷ bytes) =
    if_ind (λ (ws : List Text). glue [] ws ≡ ws) (is_printable b) (λ _. glue_head b (runs bytes))
      (λ _. refl)

keep_run-filter :
    (min_len : ℕ) (current : List ℕ) (results ws : List Text)
    → keep_run min_len current results ++ filter (is_long min_len) ws
      ≡ results ++ filter (is_long min_len) (current ∷ ws)
keep_run-filter min_len current results ws = elim (Bool-cases (leb min_len (length current))) [
  | inl long ↦ rw long (append_assoc results (current ∷ []) (filter (is_long min_len) ws))
  | inr short ↦ rw short refl
]

scan-runs :
    (min_len : ℕ) (results : List Text) (current bytes : List ℕ)
    → scan min_len results current bytes
      ≡ results ++ filter (is_long min_len) (glue current (runs bytes))
unfolding scan
scan-runs min_len results current [] = rw (append-nil current) (
    sym (append-nil (keep_run min_len current results))
    ∙ keep_run-filter min_len current results [])
scan-runs min_len results current (b ∷ bytes) = elim (Bool-cases (is_printable b)) [
  | inl printable ↦ rw printable (
      scan-runs min_len results (current ++ b ∷ []) bytes
      ∙ ap (λ z. results ++ filter (is_long min_len) z) (sym (glue_push b current (runs bytes))))
  | inr other ↦ rw other (
      scan-runs min_len (keep_run min_len current results) [] bytes
      ∙ ap (λ z. keep_run min_len current results ++ filter (is_long min_len) z) (glue_nil bytes)
      ∙ keep_run-filter min_len current results (runs bytes)
      ∙ ap (λ z. results ++ filter (is_long min_len) (z ∷ runs bytes)) (sym (append-nil current)))
]

-- The strings of a payload are its maximal runs of printable bytes, in order, those of at least
-- the minimal length and no other.
pub extract_strings-runs :
    (bytes : List ℕ) (min_len : ℕ)
    → extract_strings bytes min_len ≡ filter (is_long min_len) (runs bytes)
unfolding extract_strings
extract_strings-runs bytes min_len =
    scan-runs min_len [] [] bytes ∙ ap (filter (is_long min_len)) (glue_nil bytes)

-- The type of a payload depends on its first bytes alone, and the order of the tests does not
-- matter: it is an ELF, a PE or a script exactly when it starts with the magic of one.
detect_file_type_iff :
    (bytes : List ℕ)
    → ((detect_file_type bytes ≡ elf) ↔ (starts_with bytes (0x7f ∷ codes "ELF") ≡ true))
      × ((detect_file_type bytes ≡ pe) ↔ (starts_with bytes (codes "MZ") ≡ true))
      × ((detect_file_type bytes ≡ shell) ↔ (starts_with bytes (codes "#!") ≡ true))
unfolding detect_file_type starts_with
detect_file_type_iff [] = ground arith
detect_file_type_iff (a ∷ []) = ground arith
detect_file_type_iff (a ∷ b ∷ bytes) = ground arith
