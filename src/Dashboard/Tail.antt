-- ===== src/Dashboard/Tail.antt =====
-- crates/aegis-dashboard/src/main.rs: the reader of the growing log. A poll sees the bytes of the file
-- at that moment, or none where there is no file.
pub mod Polls
mod Tests
use aegis_honeypot.Prelude.{
  ℕ, zero, suc, ◌+◌, ◌-◌, ◌*◌, Bool, true, false, List, [], ◌∷◌, ◌++◌, Option, none, some, ltb, leb,
  ◌==◌, if◌then◌else◌, length, take, drop, min, is_empty,
}
use aegis_honeypot.Prelude.Text.{Text, split}

abbrev pub max_tail_chunk_bytes : ℕ
max_tail_chunk_bytes = 8 * 1024 * 1024

-- One more than the position of the last line break (`rposition`), 0 where there is none.
unfoldable pub complete : List ℕ → ℕ
complete [] = 0
complete (b ∷ bytes) =
    let rest = complete bytes in if rest == 0 then (if b == 10 then 1 else 0) else suc rest

-- A file that is shorter than the offset was rotated.
abbrev pub reset : ℕ → List ℕ → ℕ
reset offset file = if ltb (length file) offset then 0 else offset

-- The bytes that one poll reads.
abbrev pub chunk : ℕ → List ℕ → List ℕ
chunk offset file = take (min (length file - offset) max_tail_chunk_bytes) (drop offset file)

-- A poll of a file: the offset, and the complete lines as the bytes that end with them all.
abbrev pub read_from : ℕ → List ℕ → ℕ × List ℕ
read_from offset file = if length file == offset then (offset, []) else (
  offset + complete (chunk offset file),
  take (complete (chunk offset file)) (chunk offset file),
)

-- The bytes of a poll, before they are made into lines.
unfoldable pub read_bytes : Option (List ℕ) → ℕ → ℕ × List ℕ
read_bytes none offset = (offset, [])
read_bytes (some file) offset = read_from (reset offset file) file

-- The polls of `tail_attacks_log`: the offset and all bytes that it was handed.
unfoldable pub poll_all : List (Option (List ℕ)) → ℕ → ℕ × List ℕ
poll_all [] offset = (offset, [])
poll_all (file ∷ files) offset =
    let one = read_bytes file offset in let rest = poll_all files one.0 in (rest.0, one.1 ++ rest.1)

-- A line without the `\r` at its end.
abbrev strip_return : Text → Text
strip_return [] = []
strip_return (c ∷ []) = if c == 13 then [] else c ∷ []
strip_return (c ∷ d ∷ s) = c ∷ strip_return (d ∷ s)

-- The pieces between line breaks, of which the last is no line where it is empty.
abbrev lines_of : List Text → List Text
lines_of [] = []
lines_of (line ∷ []) = if is_empty line then [] else strip_return line ∷ []
lines_of (line ∷ next ∷ rest) = strip_return line ∷ lines_of (next ∷ rest)

-- `str::lines`.
unfoldable pub lines : Text → List Text
lines s = lines_of (split 10 s)

-- `String::from_utf8_lossy` is a parameter.
module _ (from_utf8_lossy : List ℕ → Text) where
  -- Where no line is complete the poll returns before the decoding.
  abbrev pub handed : List ℕ → List Text
  handed [] = []
  handed (b ∷ bytes) = lines (from_utf8_lossy (b ∷ bytes))

  unfoldable pub read_new_lines : Option (List ℕ) → ℕ → ℕ × List Text
  unfolding read_bytes lines
  read_new_lines file offset = let r = read_bytes file offset in (r.0, handed r.1)

  -- The polls of `tail_attacks_log` with the lines that they hand on.
  unfoldable pub tail_attacks_log : List (Option (List ℕ)) → ℕ → ℕ × List Text
  unfolding read_new_lines
  tail_attacks_log [] offset = (offset, [])
  tail_attacks_log (file ∷ files) offset =
      let one = read_new_lines file offset in
      let rest = tail_attacks_log files one.0 in (rest.0, one.1 ++ rest.1)
