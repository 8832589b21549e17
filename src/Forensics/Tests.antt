-- ===== src/Forensics/Tests.antt =====
-- The forensics engine on a small payload, and the theorems at concrete inputs.
use aegis_honeypot.Prelude.{ℕ, ◌≡◌, refl, true, List, [], ◌∷◌, ◌++◌, some, length, filter}
use aegis_honeypot.Prelude.Text.{codes, starts_with, join, decimal}
use aegis_honeypot.Net.{IpAddr, v4}
use aegis_honeypot.Forensics.{
  detect_file_type, scan, extract_strings, Patterns, extract_iocs, ForensicsEngine, Services,
  analyze_file, analyze_payload, analyze_upperdir,
}
use aegis_honeypot.Forensics.Strings.{runs, is_long, extract_strings-runs}

program : Unit {0}
unfolding detect_file_type scan extract_strings extract_iocs analyze_file analyze_payload
    analyze_upperdir starts_with join decimal
program = tt

abbrev script : List ℕ
script = codes "#!/bin/sh" ++ 10 ∷ codes "id" ++ 10 ∷ codes "curl evil" ++ 0 ∷ []

long_runs : extract_strings script 4 ≡ codes "#!/bin/sh" ∷ codes "curl evil" ∷ []
unfolding program
long_runs = refl

abbrev patterns : Patterns
patterns = record { ipv4 = λ t. []; url = λ t. []; base64 = λ t. []; monero = λ t. [] }

abbrev engine : ForensicsEngine
engine = record { quarantine_dir = codes "/q"; string_min_len = 4; max_analysis_bytes = 100 }

abbrev services : Services
services = record {
  patterns = patterns;
  sha256 = λ b. decimal (length b);
  now = 7200;
  size_of = λ path. 24;
  read = λ path. some script;
  stores = λ path. true;
  sends = true;
}

abbrev host : IpAddr
host = v4 (record { o0 = 203; o1 = 0; o2 = 113; o3 = 5 })

one_event : length (analyze_upperdir engine services (codes "abc") host (codes "/up/x" ∷ [])) ≡ 1
unfolding program
one_event = refl

extract_strings-runs_example : extract_strings script 4 ≡ filter (is_long 4) (runs script)
extract_strings-runs_example = extract_strings-runs script 4
