-- ===== src/Collector/Truncation.antt =====
-- What a recording holds of the records that it was given.
use aegis_honeypot.Prelude.{
  ◌+◌, ◌<◌, ◌≡◌, ◌⊎◌, inl, inr, refl, sym, ap, ◌∙◌, Bool, true, false, List, [], ◌∷◌, ◌++◌, arith,
  ltb, if_ind, length, append_assoc, append-nil, subst,
}
use aegis_honeypot.Prelude.Text.{Text}
use aegis_honeypot.Collector.{
  max_cast_bytes, SessionRecorder, open_recorder, write_record, write_records,
}
use aegis_honeypot.Collector.Recorder.{bytes_of, bytes_of-append}

-- The file holds all records, or those before the first one that does not fit, with the marker.
abbrev pub IsCut : Text → Text → List Text → List Text → Type 0
IsCut marker header ls file =
    (file ≡ header ∷ ls)
    ⊎ ((kept : List Text) × (l : Text) × (rest : List Text) × (ls ≡ kept ++ l ∷ rest)
        × (max_cast_bytes < bytes_of (header ∷ kept) + length l)
        × (file ≡ header ∷ kept ++ marker ∷ []))

write_record_truncated :
    (marker : Text) (r : SessionRecorder) (l : Text)
    → r.truncated ≡ true
    → write_record marker r l ≡ r
unfolding write_record
write_record_truncated marker r l h =
    if_ind (λ z. z ≡ r) r.truncated (λ _. refl) (λ off. ground (arith, off, h))

clash : {b : Bool} → b ≡ true → b ≡ false → ⊥
clash on off = ground (arith, on, off)

write_records_truncated :
    (marker : Text) (r : SessionRecorder) (ls : List Text)
    → r.truncated ≡ true
    → write_records marker r ls ≡ r
unfolding write_records
write_records_truncated marker r [] h = refl
write_records_truncated marker r (l ∷ ls) h =
    ap (λ z. write_records marker z ls) (write_record_truncated marker r l h)
    ∙ write_records_truncated marker r ls h

-- A recorder that holds the header and some records, and counts them.
record IsOpen (header : Text) (kept : List Text) (r : SessionRecorder) : Type 0 where
  live : r.truncated ≡ false
  file : r.file ≡ header ∷ kept
  counted : r.written ≡ bytes_of (header ∷ kept)

write_records-IsCut :
    (marker header : Text) (kept : List Text) (r : SessionRecorder) (ls : List Text)
    → IsOpen header kept r
    → IsCut marker header (kept ++ ls) (write_records marker r ls).file
unfolding write_records write_record
write_records-IsCut marker header kept r [] i =
    inl (i.file ∙ ap (λ z. header ∷ z) (sym (append-nil kept)))
write_records-IsCut marker header kept r (l ∷ ls) i =
    let room_left : SessionRecorder = record r {
      written = r.written + length l;
      file = r.file ++ l ∷ [];
    } in
    let Goal : SessionRecorder → Type 0 =
      λ z. IsCut marker header (kept ++ l ∷ ls) (write_records marker z ls).file in
    if_ind Goal r.truncated (λ on. elim (clash on i.live) [ ])
      (λ _.
        if_ind Goal (ltb max_cast_bytes (r.written + length l))
          (λ over. inr (
            kept,
            l,
            ls,
            refl,
            ground (arith, over, i.counted),
            ap (λ z. z.file)
                  (write_records_truncated marker
                    (record r { truncated = true; file = r.file ++ marker ∷ [] }) ls refl)
                ∙ ap (λ z. z ++ marker ∷ []) i.file,
          ))
          (λ room.
            subst (λ z. IsCut marker header z (write_records marker room_left ls).file)
              (append_assoc kept (l ∷ []) ls)
              (write_records-IsCut marker header (kept ++ l ∷ []) room_left ls (record {
                live = i.live;
                file = ap (λ z. z ++ l ∷ []) i.file;
                counted = omega (arith, i.counted, bytes_of-append kept (l ∷ []));
              }))))

pub open_recorder-IsCut :
    (marker header : Text) (ls : List Text)
    → IsCut marker header ls (write_records marker (open_recorder header) ls).file
unfolding open_recorder
open_recorder-IsCut marker header ls =
    write_records-IsCut marker header [] (open_recorder header) ls
      (record { live = refl; file = refl; counted = omega arith })
