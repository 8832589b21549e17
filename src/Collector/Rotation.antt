-- ===== src/Collector/Rotation.antt =====
-- What the log and its generations hold.
use aegis_honeypot.Prelude.{
  ℕ, zero, suc, ◌+◌, ◌≡◌, refl, sym, ap, ◌∙◌, Bool, true, false, List, [], ◌∷◌, ◌++◌, Option, none,
  some, arith, leb, if_ind, if◌then◌else◌, append_assoc, append-nil, map, subst,
}
use aegis_honeypot.Prelude.Text.{Text}
use aegis_honeypot.Collector.{
  max_log_bytes, Logs, rotate_log, or_empty, log_bytes, open_log, collect, collect_all, run,
}

-- Nothing of a rotation fails.
abbrev pub working : Text → Text × (ℕ → Bool)
working line = (line, λ n. true)

-- The files into which all lines were ever cut: those that are closed, the newest first, and the one
-- that is written.
pub record Archive : Type 0 where
  pub closed : List (List Text)
  pub current : List Text

-- A file is closed behind the line that brings it to `MAX_LOG_BYTES`.
abbrev pub keep : (Text → ℕ) → Archive → Text → Archive
keep size a line =
    if leb max_log_bytes (log_bytes size (a.current ++ line ∷ []))
    then record { closed = (a.current ++ line ∷ []) ∷ a.closed; current = [] }
    else record a { current = a.current ++ line ∷ [] }

abbrev pub keep_all : (Text → ℕ) → Archive → List Text → Archive
keep_all size a [] = a
keep_all size a (line ∷ lines) = keep_all size (keep size a line) lines

-- Number `n` of the closed files.
abbrev pub closed_at : ℕ → List (List Text) → Option (List Text)
closed_at n [] = none
closed_at zero (file ∷ files) = some file
closed_at (suc n) (file ∷ files) = closed_at n files

-- The log is the file that is written, and the four generations are the four newest closed ones.
pub record Holds (l : Logs) (a : Archive) : Type 0 where
  pub log : or_empty l.current ≡ a.current
  pub first : l.gen1 ≡ closed_at 0 a.closed
  pub second : l.gen2 ≡ closed_at 1 a.closed
  pub third : l.gen3 ≡ closed_at 2 a.closed
  pub fourth : l.gen4 ≡ closed_at 3 a.closed

-- All lines, the oldest first.
abbrev pub all_closed : List (List Text) → List Text
all_closed [] = []
all_closed (file ∷ files) = all_closed files ++ file

abbrev pub lines_of : Archive → List Text
lines_of a = all_closed a.closed ++ a.current

abbrev logs : (o o1 o2 o3 o4 : Option (List Text)) → Logs
logs o o1 o2 o3 o4 = record { current = o; gen1 = o1; gen2 = o2; gen3 = o3; gen4 = o4 }

rotate_log_lem :
    (o o1 o2 o3 o4 : Option (List Text))
    → rotate_log (λ n. true) (logs o o1 o2 o3 o4) ≡ logs none o o1 o2 o3
unfolding rotate_log
rotate_log_lem o none none none o4 = refl
rotate_log_lem o none none (some c) o4 = refl
rotate_log_lem o none (some b) none o4 = refl
rotate_log_lem o none (some b) (some c) o4 = refl
rotate_log_lem o (some a) none none o4 = refl
rotate_log_lem o (some a) none (some c) o4 = refl
rotate_log_lem o (some a) (some b) none o4 = refl
rotate_log_lem o (some a) (some b) (some c) o4 = refl

log_bytes-append :
    (size : Text → ℕ) (xs ys : List Text)
    → log_bytes size (xs ++ ys) ≡ log_bytes size xs + log_bytes size ys
log_bytes-append size [] ys = omega arith
log_bytes-append size (x ∷ xs) ys = omega (arith, log_bytes-append size xs ys)

-- `written` is the size of the log.
abbrev IsKept : (Text → ℕ) → Logs × ℕ → Archive → Type 0
IsKept size st a = Holds st.0 a × (st.1 ≡ log_bytes size a.current)

-- One event, by whether the log is full.
abbrev collected : (Text → ℕ) → Bool → ℕ → Logs → Logs × ℕ
collected size full written l =
    if full then open_log size (rotate_log (λ n. true) l) else (l, written)

abbrev kept : Bool → Archive → List Text → Archive
kept full a lines =
    if full
    then record { closed = lines ∷ a.closed; current = [] }
    else record a { current = lines }

collected-IsKept :
    (size : Text → ℕ) (full : Bool) (l : Logs) (a : Archive) (lines : List Text)
    → Holds l a
    → IsKept size
        (collected size full (log_bytes size lines) (record l { current = some lines }))
        (kept full a lines)
collected-IsKept size true l a lines h =
    subst (λ z. IsKept size (open_log size z) (kept true a lines))
      (sym (rotate_log_lem (some lines) l.gen1 l.gen2 l.gen3 l.gen4))
      (
        record { log = refl; first = refl; second = h.first; third = h.second; fourth = h.third },
        refl,
      )
collected-IsKept size false l a lines h = (
  record { log = refl; first = h.first; second = h.second; third = h.third; fourth = h.fourth },
  refl,
)

collect-IsKept :
    (size : Text → ℕ) (st : Logs × ℕ) (a : Archive) (line : Text)
    → IsKept size st a
    → IsKept size (collect size st (working line)) (keep size a line)
unfolding collect
collect-IsKept size st a line (h, e) =
    let lines : List Text = a.current ++ line ∷ [] in
    let same : log_bytes size lines ≡ st.1 + size line + 1 =
      omega (arith, e, log_bytes-append size a.current (line ∷ [])) in
    let at : (n : ℕ) → (ls : List Text) → Logs × ℕ =
      λ n ls. collected size (leb max_log_bytes n) n (record st.0 { current = some ls }) in
    subst (λ (n : ℕ). IsKept size (at n (or_empty st.0.current ++ line ∷ [])) (keep size a line))
      same
      (subst (λ ls. IsKept size (at (log_bytes size lines) (ls ++ line ∷ [])) (keep size a line))
        (sym h.log)
        (collected-IsKept size (leb max_log_bytes (log_bytes size lines)) st.0 a lines h))

lines_of-keep :
    (size : Text → ℕ) (a : Archive) (line : Text)
    → lines_of (keep size a line) ≡ lines_of a ++ line ∷ []
lines_of-keep size a line =
    if_ind (λ b. lines_of b ≡ lines_of a ++ line ∷ [])
      (leb max_log_bytes (log_bytes size (a.current ++ line ∷ [])))
      (λ _. append-nil _ ∙ sym (append_assoc (all_closed a.closed) a.current (line ∷ [])))
      (λ _. sym (append_assoc (all_closed a.closed) a.current (line ∷ [])))

lines_of-keep_all :
    (size : Text → ℕ) (a : Archive) (lines : List Text)
    → lines_of (keep_all size a lines) ≡ lines_of a ++ lines
lines_of-keep_all size a [] = sym (append-nil (lines_of a))
lines_of-keep_all size a (line ∷ lines) =
    lines_of-keep_all size (keep size a line) lines
    ∙ ap (λ z. z ++ lines) (lines_of-keep size a line)
    ∙ append_assoc (lines_of a) (line ∷ []) lines

collect_all-IsKept :
    (size : Text → ℕ) (st : Logs × ℕ) (a : Archive) (lines : List Text)
    → IsKept size st a
    → IsKept size (collect_all size st (map working lines)) (keep_all size a lines)
unfolding collect_all
collect_all-IsKept size st a [] h = h
collect_all-IsKept size st a (line ∷ lines) h =
    collect_all-IsKept size (collect size st (working line)) (keep size a line) lines
      (collect-IsKept size st a line h)

-- From a log and generations that are the newest files of an archive, and with no failure of a
-- rotation, whatever is logged: the log is again the newest file and the generations are the four
-- before it, of the files into which all lines are cut, each closed by the line that brings it to
-- `MAX_LOG_BYTES`; and those files are all lines, in order.
pub run-Holds :
    (size : Text → ℕ) (l : Logs) (a : Archive) (lines : List Text)
    → Holds l a
    → Holds (run size l (map working lines)).0 (keep_all size a lines)
      × (lines_of (keep_all size a lines) ≡ lines_of a ++ lines)
unfolding run
run-Holds size l a lines h = (
  (collect_all-IsKept size (open_log size l) a lines (
    record { log = h.log; first = h.first; second = h.second; third = h.third; fourth = h.fourth },
    ap (log_bytes size) h.log,
  )).0,
  lines_of-keep_all size a lines,
)
