-- ===== src/Collector.antt =====
-- crates/aegis-collector/src/lib.rs: the terminal rendering of hostile text, the rotation of the log
-- and the session recorder. Files are lists of lines, whose bytes are counted by a parameter; renamings and
-- the removal of a file may fail, the other file operations succeed.
pub mod Sanitize
pub mod Recorder
pub mod Truncation
pub mod Rotation
mod Tests
use aegis_honeypot.Prelude.{
  ℕ, zero, suc, ◌+◌, ◌-◌, ◌*◌, ◌/◌, ◌%◌, Bool, true, false, not, ◌&&◌, ◌||◌, List, [], ◌∷◌, ◌++◌,
  Option, none, some, ltb, leb, ◌==◌, if◌then◌else◌, length, is_some,
}
use aegis_honeypot.Prelude.Text.{Text, codes}

abbrev pub max_log_bytes : ℕ
max_log_bytes = 256 * 1024 * 1024

abbrev pub max_cast_bytes : ℕ
max_cast_bytes = 32 * 1024 * 1024

-- `char::is_control`: below 32, and from 127 to 159.
abbrev pub is_control : ℕ → Bool
is_control c = ltb c 32 || leb 127 c && leb c 159

-- The last digit in lower-case hexadecimal.
abbrev pub hex_digit : ℕ → ℕ
hex_digit n = if ltb n 10 then 48 + n else 87 + n

-- `write!(out, "\\x{b:02x}")`.
abbrev pub hex_byte : ℕ → Text
hex_byte b = 92 ∷ 120 ∷ hex_digit (b / 16) ∷ hex_digit (b % 16) ∷ []

-- The bytes of a control character in UTF-8: one below 128, else two.
abbrev pub hex_utf8 : ℕ → Text
hex_utf8 c = if ltb c 128 then hex_byte c else hex_byte (192 + c / 64) ++ hex_byte (128 + c % 64)

abbrev pub escape_char : ℕ → Text
escape_char c = if c == 92 then 92 ∷ 92 ∷ [] else if is_control c then hex_utf8 c else c ∷ []

unfoldable pub sanitize : Text → Text
sanitize [] = []
sanitize (c ∷ s) = escape_char c ++ sanitize s

-- The log and its older generations, where the files exist.
pub record Logs : Type 0 where
  pub current : Option (List Text)
  pub gen1 : Option (List Text)
  pub gen2 : Option (List Text)
  pub gen3 : Option (List Text)
  pub gen4 : Option (List Text)

abbrev pub log_generations : ℕ
log_generations = 4

-- The file of a generation, of which the log is number 0.
abbrev pub file_of : ℕ → Logs → Option (List Text)
file_of zero l = l.current
file_of (suc zero) l = l.gen1
file_of (suc (suc zero)) l = l.gen2
file_of (suc (suc (suc zero))) l = l.gen3
file_of (suc (suc (suc (suc zero)))) l = l.gen4
file_of (suc (suc (suc (suc (suc n))))) l = none

abbrev pub put_file : ℕ → Option (List Text) → Logs → Logs
put_file zero o l = record l { current = o }
put_file (suc zero) o l = record l { gen1 = o }
put_file (suc (suc zero)) o l = record l { gen2 = o }
put_file (suc (suc (suc zero))) o l = record l { gen3 = o }
put_file (suc (suc (suc (suc zero)))) o l = record l { gen4 = o }
put_file (suc (suc (suc (suc (suc n))))) o l = l

-- The renaming of one generation to the next, which replaces that one, if it works.
abbrev pub rename : ℕ → Bool → Logs → Logs
rename n works l = if works then put_file n none (put_file (suc n) (file_of n l) l) else l

-- The loop from generation `n` down to 1; `works` says of each renaming whether it works, and a
-- failure is ignored.
abbrev pub shift : (ℕ → Bool) → ℕ → Logs → Logs
shift works zero l = l
shift works (suc n) l =
    shift works n (if is_some (file_of (suc n) l) then rename (suc n) (works (suc n)) l else l)

-- `works log_generations` is the removal of the oldest one. Where the last renaming fails, the error
-- is only logged.
unfoldable pub rotate_log : (ℕ → Bool) → Logs → Logs
rotate_log works l =
    rename 0 (works 0)
      (shift works 3 (if works log_generations then put_file log_generations none l else l))

abbrev pub or_empty : Option (List Text) → List Text
or_empty none = []
or_empty (some ls) = ls

-- The bytes of a file, a line break behind every line.
abbrev pub log_bytes : (Text → ℕ) → List Text → ℕ
log_bytes size [] = 0
log_bytes size (l ∷ ls) = size l + 1 + log_bytes size ls

-- `open_log`: the file is made where it is missing, and its size is taken.
abbrev pub open_log : (Text → ℕ) → Logs → Logs × ℕ
open_log size l =
    (record l { current = some (or_empty l.current) }, log_bytes size (or_empty l.current))

-- `run` for one event that is serialised as `line`, which has `size line` bytes, with what works of
-- a rotation behind it.
unfoldable pub collect : (Text → ℕ) → Logs × ℕ → Text × (ℕ → Bool) → Logs × ℕ
unfolding rotate_log
collect size st (line, works) =
    let l = record st.0 { current = some (or_empty st.0.current ++ line ∷ []) } in
    let written = st.1 + size line + 1 in
    if leb max_log_bytes written then open_log size (rotate_log works l) else (l, written)

unfoldable pub collect_all : (Text → ℕ) → Logs × ℕ → List (Text × (ℕ → Bool)) → Logs × ℕ
unfolding collect
collect_all size st [] = st
collect_all size st (event ∷ events) = collect_all size (collect size st event) events

unfoldable pub run : (Text → ℕ) → Logs → List (Text × (ℕ → Bool)) → Logs × ℕ
unfolding collect_all
run size l events = collect_all size (open_log size l) events

-- The recorder, with what it has put in its file.
pub record SessionRecorder : Type 0 where
  pub written : ℕ
  pub truncated : Bool
  pub file : List Text

-- `open`, once the header is written.
unfoldable pub open_recorder : Text → SessionRecorder
open_recorder header = record { written = length header; truncated = false; file = header ∷ [] }

-- `write_record`: `record_line` is the serialised record with its line break, `marker` the
-- truncation notice with its own.
unfoldable pub write_record : Text → SessionRecorder → Text → SessionRecorder
write_record marker r record_line =
    if r.truncated
    then r
    else if ltb max_cast_bytes (r.written + length record_line)
    then record r { truncated = true; file = r.file ++ marker ∷ [] }
    else record r { written = r.written + length record_line; file = r.file ++ record_line ∷ [] }

unfoldable pub write_records : Text → SessionRecorder → List Text → SessionRecorder
write_records marker r [] = r
write_records marker r (l ∷ ls) = write_records marker (write_record marker r l) ls
