-- ===== src/Collector/Tests.antt =====
-- The collector on small inputs, and the theorems at concrete ones.
use aegis_honeypot.Prelude.{ℕ, map, not, ◌==◌, true, ◌≡◌, refl, [], ◌∷◌, ◌++◌, none, some}
use aegis_honeypot.Prelude.Text.{Text, codes}
use aegis_honeypot.Collector.{
  sanitize, Logs, rotate_log, collect, collect_all, run, open_recorder, write_record, write_records,
}
use aegis_honeypot.Collector.Sanitize.{plain, read_from, read_from-sanitize}
use aegis_honeypot.Collector.Rotation.{working, Archive, keep_all, Holds, lines_of, run-Holds}

program : Unit {0}
unfolding sanitize rotate_log collect collect_all run open_recorder write_record write_records
program = tt

-- An escape sequence, and a control character above 127.
abbrev hostile : Text
hostile = 27 ∷ 91 ∷ 50 ∷ 74 ∷ 0x9b ∷ 92 ∷ []

clean : sanitize hostile ≡ codes "\\x1b[2J\\xc2\\x9b\\\\"
unfolding program
clean = refl

abbrev one_log : Logs
one_log = record {
  current = some (codes "a" ∷ []);
  gen1 = none;
  gen2 = none;
  gen3 = none;
  gen4 = none;
}

-- A line that fills a log.
abbrev size : Text → ℕ
size l = 300_000_000

rotated_twice :
    (run size one_log (map working (codes "b" ∷ codes "c" ∷ []))).0.gen2
    ≡ some (codes "a" ∷ codes "b" ∷ [])
unfolding program
rotated_twice = refl

-- Where the first generation cannot be moved, the log replaces it.
first_replaced :
    (run size one_log ((codes "b", λ n. true) ∷ (codes "c", λ n. not (n == 1)) ∷ [])).0.gen1
    ≡ some (codes "c" ∷ [])
unfolding program
first_replaced = refl

read_from-sanitize_example : read_from plain (sanitize hostile) ≡ hostile
read_from-sanitize_example = read_from-sanitize hostile

abbrev archive : Archive
archive = record { closed = []; current = codes "a" ∷ [] }

run-Holds_example :
    Holds
      (run size one_log (map working (codes "b" ∷ codes "c" ∷ []))).0
      (keep_all size archive (codes "b" ∷ codes "c" ∷ []))
    × (lines_of (keep_all size archive (codes "b" ∷ codes "c" ∷ []))
        ≡ lines_of archive ++ (codes "b" ∷ codes "c" ∷ []))
run-Holds_example =
    run-Holds size one_log archive (codes "b" ∷ codes "c" ∷ [])
      (record { log = refl; first = refl; second = refl; third = refl; fourth = refl })
