-- ===== src/Collector/Sanitize.antt =====
-- `sanitize` lets no control character through and loses nothing.
use aegis_honeypot.Prelude.{
  ℕ, ◌+◌, ◌-◌, ◌*◌, ◌/◌, ◌%◌, ◌<◌, ◌≡◌, refl, ap, ◌∙◌, true, false, [], ◌∷◌, ◌++◌, arith, ltb, ◌==◌,
  if◌then◌else◌, if_ind, All, All-append,
}
use aegis_honeypot.Prelude.Text.{Text}
use aegis_honeypot.Collector.{is_control, hex_digit, hex_byte, hex_utf8, escape_char, sanitize}

-- A character that a terminal shows.
abbrev pub IsShown : ℕ → Type 0
IsShown c = is_control c ≡ false

hex_byte-IsShown : (b : ℕ) → b < 256 → All IsShown (hex_byte b)
hex_byte-IsShown b h = (refl, (refl, (ground arith, (ground arith, tt))))

hex_utf8-IsShown : (c : ℕ) → is_control c ≡ true → All IsShown (hex_utf8 c)
hex_utf8-IsShown c h =
    if_ind (All IsShown) (ltb c 128) (λ low. hex_byte-IsShown c (ground (arith, low)))
      (λ high.
        All-append IsShown (hex_byte (192 + c / 64)) (hex_byte (128 + c % 64))
          (hex_byte-IsShown (192 + c / 64) (ground (arith, h)))
          (hex_byte-IsShown (128 + c % 64) (ground (arith, h))))

escape_char-IsShown : (c : ℕ) → All IsShown (escape_char c)
escape_char-IsShown c =
    if_ind (All IsShown) (c == 92) (λ _. (refl, (refl, tt)))
      (λ _. if_ind (All IsShown) (is_control c) (hex_utf8-IsShown c) (λ shown. (shown, tt)))

-- Whatever an attacker sends, what is printed has no control character.
sanitize-IsShown : (s : Text) → All IsShown (sanitize s)
unfolding sanitize
sanitize-IsShown [] = tt
sanitize-IsShown (c ∷ s) =
    All-append IsShown (escape_char c) (sanitize s) (escape_char-IsShown c) (sanitize-IsShown s)

-- Where a reader of the printed text stands: between characters, behind a backslash, and behind
-- `\x` with no digit or one read.
pub data Place : Type 0 where
  plain slash : Place
  first_digit : Place
  second_digit : ℕ → Place

abbrev digit : ℕ → ℕ
digit c = if ltb c 58 then c - 48 else c - 87

-- The byte of `\xNN`; the lead byte 0xc2 of a two-byte form stands for nothing by itself.
abbrev put_byte : ℕ → Text → Text
put_byte b s = if b == 0xc2 then s else b ∷ s

-- The text that a printed one stands for.
abbrev pub read_from : Place → Text → Text
read_from place [] = []
read_from plain (c ∷ s) = if c == 92 then read_from slash s else c ∷ read_from plain s
read_from slash (c ∷ s) = if c == 92 then 92 ∷ read_from plain s else read_from first_digit s
read_from first_digit (c ∷ s) = read_from (second_digit (digit c)) s
read_from (second_digit h) (c ∷ s) = put_byte (h * 16 + digit c) (read_from plain s)

digit-hex_digit : (n : ℕ) → n < 16 → digit (hex_digit n) ≡ n
digit-hex_digit n h = ground arith

read_hex_byte :
    (b : ℕ) (t : Text)
    → b < 256
    → read_from plain (hex_byte b ++ t) ≡ put_byte b (read_from plain t)
read_hex_byte b t h =
    ap (λ z. put_byte z (read_from plain t))
      (omega
        (arith, digit-hex_digit (b / 16) (omega arith), digit-hex_digit (b % 16) (omega arith)))

read_hex_utf8 :
    (c : ℕ) (t : Text)
    → is_control c ≡ true
    → read_from plain (hex_utf8 c ++ t) ≡ c ∷ read_from plain t
read_hex_utf8 c t h =
    if_ind (λ (u : Text). read_from plain (u ++ t) ≡ c ∷ read_from plain t) (ltb c 128)
      (λ low. read_hex_byte c t (ground (arith, low)) ∙ ground (arith, low))
      (λ high.
        read_hex_byte (192 + c / 64) (hex_byte (128 + c % 64) ++ t) (ground (arith, h))
        ∙ ground (arith, h, high, read_hex_byte (128 + c % 64) t (ground (arith, h))))

read_escape_char : (c : ℕ) (t : Text) → read_from plain (escape_char c ++ t) ≡ c ∷ read_from plain t
read_escape_char c t =
    if_ind (λ (u : Text). read_from plain (u ++ t) ≡ c ∷ read_from plain t) (c == 92)
      (λ is_slash. ground (arith, is_slash))
      (λ other.
        if_ind (λ (u : Text). read_from plain (u ++ t) ≡ c ∷ read_from plain t) (is_control c)
          (λ control. read_hex_utf8 c t control) (λ shown. rw other refl))

-- The printed text determines what was sent: reading it back gives every character.
pub read_from-sanitize : (s : Text) → read_from plain (sanitize s) ≡ s
unfolding sanitize
read_from-sanitize [] = refl
read_from-sanitize (c ∷ s) =
    read_escape_char c (sanitize s) ∙ ap (λ z. c ∷ z) (read_from-sanitize s)
