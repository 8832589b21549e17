-- ===== src/Collector/Recorder.antt =====
-- The size of a recording.
use aegis_honeypot.Prelude.{
  ℕ, ◌+◌, ◌≤◌, ◌≡◌, List, [], ◌∷◌, ◌++◌, arith, ltb, if◌then◌else◌, if_ind, length,
}
use aegis_honeypot.Prelude.Text.{Text}
use aegis_honeypot.Collector.{
  max_cast_bytes, SessionRecorder, open_recorder, write_record, write_records,
}

-- The bytes of a file.
abbrev pub bytes_of : List Text → ℕ
bytes_of [] = 0
bytes_of (l ∷ ls) = length l + bytes_of ls

pub bytes_of-append : (xs ys : List Text) → bytes_of (xs ++ ys) ≡ bytes_of xs + bytes_of ys
bytes_of-append [] ys = omega arith
bytes_of-append (x ∷ xs) ys = omega (arith, bytes_of-append xs ys)

-- `written` counts the file, less the marker that a truncated one ends with, and is in bounds.
record IsCounted (marker : Text) (r : SessionRecorder) : Type 0 where
  counted : bytes_of r.file ≡ r.written + (if r.truncated then length marker else 0)
  within : r.written ≤ max_cast_bytes

write_record-IsCounted :
    (marker : Text) (r : SessionRecorder) (l : Text)
    → IsCounted marker r
    → IsCounted marker (write_record marker r l)
unfolding write_record
write_record-IsCounted marker r l c =
    if_ind (IsCounted marker) r.truncated (λ _. c)
      (λ live.
        if_ind (IsCounted marker) (ltb max_cast_bytes (r.written + length l))
          (λ over. record {
            counted = ground (arith, live, c.counted, bytes_of-append r.file (marker ∷ []));
            within = c.within;
          })
          (λ room. record {
            counted = ground (arith, live, c.counted, bytes_of-append r.file (l ∷ []));
            within = ground (arith, room);
          }))

write_records-IsCounted :
    (marker : Text) (r : SessionRecorder) (ls : List Text)
    → IsCounted marker r
    → IsCounted marker (write_records marker r ls)
unfolding write_records
write_records-IsCounted marker r [] c = c
write_records-IsCounted marker r (l ∷ ls) c =
    write_records-IsCounted marker (write_record marker r l) ls
      (write_record-IsCounted marker r l c)

open_recorder-IsCounted :
    (marker header : Text)
    → length header ≤ max_cast_bytes
    → IsCounted marker (open_recorder header)
unfolding open_recorder
open_recorder-IsCounted marker header h = record { counted = omega arith; within = h }

-- However much a session records, its file never has more than `MAX_CAST_BYTES` bytes and one
-- truncation marker, if the header has no more than `MAX_CAST_BYTES`.
write_records-bounded :
    (marker header : Text) (ls : List Text)
    → length header ≤ max_cast_bytes
    → bytes_of (write_records marker (open_recorder header) ls).file
      ≤ max_cast_bytes + length marker
write_records-bounded marker header ls h =
    let c =
      write_records-IsCounted marker (open_recorder header) ls
        (open_recorder-IsCounted marker header h) in
    ground (arith, c.counted, c.within)
