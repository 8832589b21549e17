-- ===== src/Prelude/Text.antt =====
-- Texts as lists of code points, with the `str` methods that the program calls.
use Prim.Native.Char.{code}
use Prim.Native.String.{String}
use Prim.Native.Nat.{ℕ, zero, suc, ◌+◌, ◌-◌, ◌/◌, ◌%◌, ◌≤◌}
use mathlib.Core.Path.{◌≡◌}
use mathlib.Core.Logic.{inl, inr}
use mathlib.Core.Bool.{Bool, true, false, ◌&&◌, ◌||◌}
use mathlib.Core.Option.{Option, none, some}
use mathlib.Core.List.{List, [], ◌∷◌, ◌++◌, reverse}
use native.Mathlib.Omega.{arith}
use aegis_honeypot.Prelude.Tests.{if_ind, leb, ◌==◌, if◌then◌else◌, Bool-cases}
use aegis_honeypot.Prelude.Lists.{length, drop, All, All-reverse, length-reverse, any, repeat}

abbrev pub Text : Type 0
Text = List ℕ

-- A path is the list of its components.
abbrev pub PathBuf : Type 0
PathBuf = List Text

-- The code points of a literal.
abbrev pub codes : String → Text
codes String.[] = []
codes (String.◌∷◌ c s) = code c ∷ codes s

abbrev pub newline : Text
newline = 13 ∷ 10 ∷ []

-- `char::is_whitespace`: the code points with the property White_Space.
unfoldable pub is_whitespace : ℕ → Bool
is_whitespace c =
    leb 9 c && leb c 13
    || c == 32
    || c == 0x85
    || c == 0xa0
    || c == 0x1680
    || leb 0x2000 c && leb c 0x200a
    || c == 0x2028
    || c == 0x2029
    || c == 0x202f
    || c == 0x205f
    || c == 0x3000

unfoldable pub trim_start : Text → Text
trim_start [] = []
trim_start (c ∷ s) = if is_whitespace c then trim_start s else c ∷ s

unfoldable pub trim : Text → Text
unfolding trim_start is_whitespace
trim s = reverse (trim_start (reverse (trim_start s)))

unfoldable pub starts_with : Text → Text → Bool
starts_with s [] = true
starts_with [] (c ∷ p) = false
starts_with (d ∷ s) (c ∷ p) = elim (d == c) [ true ↦ starts_with s p | false ↦ false ]

-- `strip_prefix`.
abbrev pub strip_prefix : Text → Text → Option Text
strip_prefix s p = if starts_with s p then some (drop (length p) s) else none

unfoldable pub ends_with : Text → Text → Bool
unfolding starts_with
ends_with s p = starts_with (reverse s) (reverse p)

-- `contains` of a character.
abbrev pub has_char : ℕ → Text → Bool
has_char c s = any (λ d. d == c) s

-- `contains` of a text.
unfoldable pub has_text : Text → Text → Bool
unfolding starts_with
has_text p [] = starts_with [] p
has_text p (c ∷ s) = starts_with (c ∷ s) p || has_text p s

abbrev pub push_head : ℕ → List Text → List Text
push_head c [] = (c ∷ []) ∷ []
push_head c (w ∷ ws) = (c ∷ w) ∷ ws

-- `split` at a character: one piece more than there are separators.
unfoldable pub split : ℕ → Text → List Text
split c [] = [] ∷ []
split c (x ∷ s) = let ws = split c s in if x == c then [] ∷ ws else push_head x ws

abbrev pub drop_empty : List Text → List Text
drop_empty [] = []
drop_empty ([] ∷ ws) = drop_empty ws
drop_empty ((c ∷ w) ∷ ws) = (c ∷ w) ∷ drop_empty ws

unfoldable pub split_at_spaces : Text → List Text
unfolding is_whitespace
split_at_spaces [] = [] ∷ []
split_at_spaces (x ∷ s) =
    let ws = split_at_spaces s in if is_whitespace x then [] ∷ ws else push_head x ws

unfoldable pub split_whitespace : Text → List Text
unfolding split_at_spaces
split_whitespace s = drop_empty (split_at_spaces s)

unfoldable pub join : Text → List Text → Text
join sep [] = []
join sep (w ∷ []) = w
join sep (w ∷ v ∷ ws) = w ++ (sep ++ join sep (v ∷ ws))

-- The first piece, the text itself where there is none.
abbrev pub first_or : List Text → Text → Text
first_or [] d = d
first_or (w ∷ ws) d = w

-- A character of a piece is a character of the text, and not the separator.
push_head-All :
    (P : ℕ → Type 0) (c : ℕ) (ws : List Text) → P c → All (All P) ws → All (All P) (push_head c ws)
push_head-All P c [] h a = ((h, tt), tt)
push_head-All P c (w ∷ ws) h a = ((h, a.0), a.1)

pub split-All :
    (P : ℕ → Type 0) (c : ℕ) (s : Text)
    → ((x : ℕ) → (x == c) ≡ false → P x)
    → All (All P) (split c s)
unfolding split
split-All P c [] h = (tt, tt)
split-All P c (x ∷ s) h = elim (Bool-cases (x == c)) [
  | inl sep ↦ rw sep (tt, split-All P c s h)
  | inr other ↦ rw other (push_head-All P x (split c s) (h x other) (split-All P c s h))
]

-- The last piece, the text itself where there is none.
abbrev pub last_or : List Text → Text → Text
last_or [] d = d
last_or (w ∷ ws) d = last_or ws w

-- The digits of a number before `acc`, on fuel that the number itself is enough of.
digits : ℕ → ℕ → Text → Text
digits zero n acc = acc
digits (suc fuel) n acc =
    let rest = digits fuel (n / 10) ((48 + n % 10) ∷ acc) in
    if n / 10 == 0 then (48 + n % 10) ∷ acc else rest

-- A number in decimal.
unfoldable pub decimal : ℕ → Text
unfolding digits
decimal n = digits (suc n) n []

-- `concat` of texts.
abbrev pub concat : List Text → Text
concat [] = []
concat (w ∷ ws) = w ++ concat ws

-- `trim_start_matches` of a character.
abbrev pub trim_start_matches : ℕ → Text → Text
trim_start_matches c [] = []
trim_start_matches c (d ∷ s) = if d == c then trim_start_matches c s else d ∷ s

-- `replace("\r\n", "\n")`.
abbrev pub replace_crlf : Text → Text
replace_crlf [] = []
replace_crlf (c ∷ []) = c ∷ []
replace_crlf (c ∷ d ∷ s) =
    let rest = replace_crlf s in
    let next = replace_crlf (d ∷ s) in if c == 13 && d == 10 then 10 ∷ rest else c ∷ next

-- `replace('\n', "\r\n")`.
abbrev pub replace_lf : Text → Text
replace_lf [] = []
replace_lf (c ∷ s) = let rest = replace_lf s in if c == 10 then 13 ∷ 10 ∷ rest else c ∷ rest

-- `str::len`: the bytes of the encoding.
abbrev pub utf8_len : Text → ℕ
utf8_len [] = 0
utf8_len (c ∷ s) =
    (if leb c 0x7f then 1 else if leb c 0x7ff then 2 else if leb c 0xffff then 3 else 4)
    + utf8_len s

-- `{:>n}`.
abbrev pub pad_left : ℕ → Text → Text
pad_left n s = repeat (n - length s) 32 ++ s

-- `{:<n}`.
abbrev pub pad_right : ℕ → Text → Text
pad_right n s = s ++ repeat (n - length s) 32

-- What holds of all characters of a text holds of all of a trimmed one, which is no longer.
trim_start-All : (P : ℕ → Type 0) (s : Text) → All P s → All P (trim_start s)
unfolding trim_start
trim_start-All P [] h = tt
trim_start-All P (c ∷ s) h = if_ind (All P) (is_whitespace c) (λ _. trim_start-All P s h.1) (λ _. h)

pub length-trim_start : (s : Text) → length (trim_start s) ≤ length s
unfolding trim_start
length-trim_start [] = omega arith
length-trim_start (c ∷ s) = ground (arith, length-trim_start s)

pub trim-All : (P : ℕ → Type 0) (s : Text) → All P s → All P (trim s)
unfolding trim
trim-All P s h = All-reverse P _ (trim_start-All P _ (All-reverse P _ (trim_start-All P s h)))

pub length-trim : (s : Text) → length (trim s) ≤ length s
unfolding trim
length-trim s = omega (
  arith,
  length-trim_start s,
  length-reverse (trim_start s),
  length-trim_start (reverse (trim_start s)),
  length-reverse (trim_start (reverse (trim_start s))),
)
