-- ===== src/Dashboard/Tail/Polls.antt =====
-- What the tail hands on of a log that grows.
use aegis_honeypot.Prelude.{
  ℕ, zero, suc, ◌+◌, ◌-◌, ◌≤◌, ◌≡◌, refl, sym, ap, ◌∙◌, false, List, [], ◌∷◌, ◌++◌, Option, some,
  arith, ltb, ◌==◌, if_ind, length, take, drop, min, append_assoc, append-nil, length-append,
  length-take, length-drop, take-append_le, take_nil, All, subst,
}
use aegis_honeypot.Prelude.Text.{Text}
use aegis_honeypot.Dashboard.Tail.{
  max_tail_chunk_bytes, complete, chunk, read_from, read_bytes, poll_all, read_new_lines,
  tail_attacks_log,
}

take_add : (m n : ℕ) (xs : List ℕ) → take (m + n) xs ≡ take m xs ++ take n (drop m xs)
take_add zero n xs = ap (λ z. take z xs) (omega arith)
take_add (suc m) n [] = take_nil (suc m + n) ∙ sym (take_nil n)
take_add (suc m) n (x ∷ xs) =
    let same : suc m + n ≡ suc (m + n) = omega arith in
    ap (λ z. take z (x ∷ xs)) same ∙ ap (λ z. x ∷ z) (take_add m n xs)

take_le-take : (n m : ℕ) (xs : List ℕ) → n ≤ m → take n (take m xs) ≡ take n xs
take_le-take zero m xs h = refl
take_le-take (suc n) zero xs h = ground arith
take_le-take (suc n) (suc m) [] h = refl
take_le-take (suc n) (suc m) (x ∷ xs) h = ap (λ z. x ∷ z) (take_le-take n m xs (omega arith))

complete-le-length : (bytes : List ℕ) → complete bytes ≤ length bytes
unfolding complete
complete-le-length [] = omega arith
complete-le-length (b ∷ bytes) = ground (arith, complete-le-length bytes)

-- A text of complete lines: empty, or with a line break at its end.
abbrev pub IsLines : List ℕ → Type 0
IsLines [] = Unit
IsLines (b ∷ []) = b ≡ 10
IsLines (b ∷ c ∷ bytes) = IsLines (c ∷ bytes)

IsLines-append : (xs ys : List ℕ) → IsLines xs → IsLines ys → IsLines (xs ++ ys)
IsLines-append [] ys hx hy = hy
IsLines-append (x ∷ []) [] hx hy = hx
IsLines-append (x ∷ []) (y ∷ ys) hx hy = hy
IsLines-append (x ∷ z ∷ xs) ys hx hy = IsLines-append (z ∷ xs) ys hx hy

IsLines-cons :
    (b : ℕ) (bytes : List ℕ) (n : ℕ)
    → 1 ≤ n
    → n ≤ length bytes
    → IsLines (take n bytes)
    → IsLines (b ∷ take n bytes)
IsLines-cons b bytes zero h le l = ground arith
IsLines-cons b [] (suc n) h le l = ground arith
IsLines-cons b (c ∷ bytes) (suc n) h le l = l

complete-IsLines : (bytes : List ℕ) → IsLines (take (complete bytes) bytes)
unfolding complete
complete-IsLines [] = tt
complete-IsLines (b ∷ bytes) =
    if_ind (λ (k : ℕ). IsLines (take k (b ∷ bytes))) (complete bytes == 0)
      (λ _.
        if_ind (λ (k : ℕ). IsLines (take k (b ∷ bytes))) (b == 10) (λ e. ground (arith, e))
          (λ _. tt))
      (λ some_line.
        IsLines-cons b bytes (complete bytes) (ground (arith, some_line)) (complete-le-length bytes)
          (complete-IsLines bytes))

-- One poll of a file that has not shrunk.
record IsPolled (offset : ℕ) (file : List ℕ) (r : ℕ × List ℕ) : Type 0 where
  within : r.0 ≤ length file
  onward : offset ≤ r.0
  joins : take r.0 file ≡ take offset file ++ r.1
  lines : IsLines r.1

chunk_taken :
    (offset : ℕ) (file : List ℕ)
    → take (complete (chunk offset file)) (chunk offset file)
      ≡ take (complete (chunk offset file)) (drop offset file)
chunk_taken offset file =
    take_le-take (complete (chunk offset file)) (min (length file - offset) max_tail_chunk_bytes)
      (drop offset file)
      (omega (
        arith,
        complete-le-length (chunk offset file),
        length-take (min (length file - offset) max_tail_chunk_bytes) (drop offset file),
      ))

read_from-IsPolled :
    (offset : ℕ) (file : List ℕ)
    → offset ≤ length file
    → IsPolled offset file (read_from offset file)
read_from-IsPolled offset file h =
    if_ind (IsPolled offset file) (length file == offset)
      (λ same. record {
        within = h;
        onward = omega arith;
        joins = sym (append-nil (take offset file));
        lines = tt;
      })
      (λ more. record {
        within = omega (
          arith,
          complete-le-length (chunk offset file),
          length-take (min (length file - offset) max_tail_chunk_bytes) (drop offset file),
          length-drop offset file,
        );
        onward = omega arith;
        joins =
            take_add offset (complete (chunk offset file)) file
            ∙ ap (λ z. take offset file ++ z) (sym (chunk_taken offset file));
        lines = complete-IsLines (chunk offset file);
      })

poll-IsPolled :
    (offset : ℕ) (file : List ℕ)
    → offset ≤ length file
    → IsPolled offset file (read_bytes (some file) offset)
unfolding read_bytes
poll-IsPolled offset file h =
    if_ind (λ (o : ℕ). IsPolled offset file (read_from o file)) (ltb (length file) offset)
      (λ shorter. ground (arith, h, shorter)) (λ _. read_from-IsPolled offset file h)

-- The states of a file that is appended to, one for each poll.
abbrev pub growing : List ℕ → List (List ℕ) → List (Option (List ℕ))
growing file [] = []
growing file (piece ∷ pieces) = some (file ++ piece) ∷ growing (file ++ piece) pieces

abbrev pub grown : List ℕ → List (List ℕ) → List ℕ
grown file [] = file
grown file (piece ∷ pieces) = grown (file ++ piece) pieces

-- What the polls of a growing file hand on: complete lines, which are the file from the offset
-- before to the offset after, without a gap, a repetition or a change of order.
pub record IsTailed (offset : ℕ) (file final : List ℕ) (r : ℕ × List ℕ) : Type 0 where
  pub within : r.0 ≤ length final
  pub joins : take r.0 final ≡ take offset file ++ r.1
  pub lines : IsLines r.1

-- However a log grows between polls, from an offset within it, the polls hand on complete lines
-- only, each byte of the log from the old offset to the new one once and in order.
pub poll_all-IsTailed :
    (offset : ℕ) (file : List ℕ) (pieces : List (List ℕ))
    → offset ≤ length file
    → IsTailed offset file (grown file pieces) (poll_all (growing file pieces) offset)
unfolding poll_all
poll_all-IsTailed offset file [] h = record {
  within = h;
  joins = sym (append-nil (take offset file));
  lines = tt;
}
poll_all-IsTailed offset file (piece ∷ pieces) h =
    let longer : offset ≤ length (file ++ piece) = omega (arith, h, length-append file piece) in
    let one = poll-IsPolled offset (file ++ piece) longer in
    let r = read_bytes (some (file ++ piece)) offset in
    let rest = poll_all-IsTailed r.0 (file ++ piece) pieces one.within in
    record {
      within = rest.within;
      joins =
          rest.joins
          ∙ ap (λ z. z ++ (poll_all (growing (file ++ piece) pieces) r.0).1)
              (one.joins ∙ ap (λ z. z ++ r.1) (take-append_le offset file piece h))
          ∙ append_assoc (take offset file) r.1 _;
      lines = IsLines-append r.1 _ one.lines rest.lines;
    }

drop-append : (n : ℕ) (xs ys : List ℕ) → n ≤ length xs → drop n (xs ++ ys) ≡ drop n xs ++ ys
drop-append zero xs ys h = refl
drop-append (suc n) [] ys h = ground arith
drop-append (suc n) (x ∷ xs) ys h = drop-append n xs ys (omega arith)

no_reset : (m n : ℕ) → m ≤ n → ltb n m ≡ false
no_reset m n h = ground arith

chunk_full :
    (offset : ℕ) (file more : List ℕ)
    → offset + max_tail_chunk_bytes ≤ length file
    → chunk offset (file ++ more) ≡ take max_tail_chunk_bytes (drop offset file)
chunk_full offset file more h =
    let full : min (length (file ++ more) - offset) max_tail_chunk_bytes ≡ max_tail_chunk_bytes =
      omega (arith, h, length-append file more) in
    ap (λ z. take z (drop offset (file ++ more))) full
    ∙ ap (take max_tail_chunk_bytes) (drop-append offset file more (omega (arith, h)))
    ∙ take-append_le max_tail_chunk_bytes (drop offset file) more
        (omega (arith, h, length-drop offset file))

complete_unbroken : (bytes : List ℕ) → All (λ b. (b == 10) ≡ false) bytes → complete bytes ≡ 0
unfolding complete
complete_unbroken [] h = refl
complete_unbroken (b ∷ bytes) h = ground (arith, h.0, complete_unbroken bytes h.1)

read_bytes_stuck :
    (offset : ℕ) (file more : List ℕ)
    → offset + max_tail_chunk_bytes ≤ length file
    → All (λ b. (b == 10) ≡ false) (take max_tail_chunk_bytes (drop offset file))
    → read_bytes (some (file ++ more)) offset ≡ (offset, [])
unfolding read_bytes
read_bytes_stuck offset file more h unbroken =
    let unread : complete (chunk offset (file ++ more)) ≡ 0 =
      ap complete (chunk_full offset file more h)
      ∙ complete_unbroken (take max_tail_chunk_bytes (drop offset file)) unbroken in
    let in_range : offset ≤ length (file ++ more) = omega (arith, h, length-append file more) in
    rw (no_reset offset (length (file ++ more)) in_range) (
      if_ind (λ (r : ℕ × List ℕ). r ≡ (offset, [])) (length (file ++ more) == offset) (λ _. refl)
        (λ _. rw unread (ap (λ z. (z, [])) (omega arith))))

-- As long as a log is only appended to, a line that does not end within `MAX_TAIL_CHUNK_BYTES` of the
-- offset keeps the tail where it is: however many polls follow and whatever is appended, they hand
-- on nothing.
pub tail_attacks_log_stuck :
    (from_utf8_lossy : List ℕ → Text) (offset : ℕ) (file : List ℕ) (pieces : List (List ℕ))
    → offset + max_tail_chunk_bytes ≤ length file
    → All (λ b. (b == 10) ≡ false) (take max_tail_chunk_bytes (drop offset file))
    → tail_attacks_log from_utf8_lossy (growing file pieces) offset ≡ (offset, [])
unfolding tail_attacks_log read_new_lines
tail_attacks_log_stuck from_utf8_lossy offset file [] h unbroken = refl
tail_attacks_log_stuck from_utf8_lossy offset file (piece ∷ pieces) h unbroken =
    let longer : offset + max_tail_chunk_bytes ≤ length (file ++ piece) =
      omega (arith, h, length-append file piece) in
    let same : take max_tail_chunk_bytes (drop offset (file ++ piece))
        ≡ take max_tail_chunk_bytes (drop offset file) =
      ap (take max_tail_chunk_bytes) (drop-append offset file piece (omega (arith, h)))
      ∙ take-append_le max_tail_chunk_bytes (drop offset file) piece
          (omega (arith, h, length-drop offset file)) in
    rw (read_bytes_stuck offset file piece h unbroken) (
      tail_attacks_log_stuck from_utf8_lossy offset (file ++ piece) pieces longer
        (subst (All (λ b. (b == 10) ≡ false)) (sym same) unbroken))
