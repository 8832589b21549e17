-- ===== src/Forensics.antt =====
-- crates/aegis-forensics/src/lib.rs: the type of a payload, its printable strings, and the analysis of
-- files. SHA-256, the regular expressions and the clock are parameters; a sink that does not take
-- events is the error of the last step.
pub mod Strings
pub mod Analysis
mod Tests
use aegis_honeypot.Prelude.{
  ℕ, zero, suc, ◌+◌, ◌*◌, Bool, true, false, not, ◌&&◌, ◌||◌, List, [], ◌∷◌, ◌++◌, Option, none,
  some, ltb, leb, ◌==◌, if◌then◌else◌, length, is_empty, take,
}
use aegis_honeypot.Prelude.Text.{Text, codes, starts_with, join}
use aegis_honeypot.Net.{IpAddr}
use aegis_honeypot.Common.{
  IocFindings, PayloadFileType, PayloadCapturedEvent, elf, shell, pe, unknown,
}

-- `data[..n] == magic` behind `data.len() >= n`.
unfoldable pub detect_file_type : List ℕ → PayloadFileType
detect_file_type bytes =
    if starts_with bytes (0x7f ∷ codes "ELF")
    then elf
    else if starts_with bytes (codes "MZ")
    then pe
    else if starts_with bytes (codes "#!")
    then shell
    else unknown

-- `is_ascii_graphic` or a space.
abbrev pub is_printable : ℕ → Bool
is_printable b = leb 33 b && leb b 126 || b == 32

-- A run is kept if it is long enough; a run is ASCII, so `from_utf8` takes it.
abbrev pub keep_run : ℕ → List ℕ → List Text → List Text
keep_run min_len current results =
    if leb min_len (length current) then results ++ current ∷ [] else results

-- The loop of `extract_strings` and its last step.
unfoldable pub scan : ℕ → List Text → List ℕ → List ℕ → List Text
scan min_len results current [] = keep_run min_len current results
scan min_len results current (b ∷ bytes) =
    let longer = scan min_len results (current ++ b ∷ []) bytes in
    let fresh = scan min_len (keep_run min_len current results) [] bytes in
    if is_printable b then longer else fresh

unfoldable pub extract_strings : List ℕ → ℕ → List Text
extract_strings bytes min_len = scan min_len [] [] bytes

-- The matches of the four expressions in a text; the first two are collected through a set.
pub record Patterns : Type 0 where
  pub ipv4 : Text → List Text
  pub url : Text → List Text
  pub base64 : Text → List Text
  pub monero : Text → List Text

unfoldable pub extract_iocs : Patterns → List Text → IocFindings
extract_iocs re strings =
    let haystack = join (codes " ") strings in
    record {
      strings_preview = take 20 strings;
      ip_addresses = re.ipv4 haystack;
      urls = re.url haystack;
      base64_blobs = take 10 (re.base64 haystack);
      monero_wallets = re.monero haystack;
    }

pub record ForensicsEngine : Type 0 where
  pub quarantine_dir : Text
  pub string_min_len : ℕ
  pub max_analysis_bytes : ℕ

-- What the engine calls. `read` is `None` where the file cannot be read, `size_of` is 0 where it
-- has no metadata; `stores` says whether a quarantine file can be written, `sends` whether the
-- channel is open.
pub record Services : Type 0 where
  pub patterns : Patterns
  pub sha256 : List ℕ → Text
  pub now : ℕ
  pub size_of : Text → ℕ
  pub read : Text → Option (List ℕ)
  pub stores : Text → Bool
  pub sends : Bool

-- What an analysis did: the files it wrote to the quarantine and the events it sent, and its
-- answer, `none` for an error.
pub record Analysed (A : Type 0) : Type 0 where
  pub quarantined : List (Text × List ℕ)
  pub events : List PayloadCapturedEvent
  pub answer : Option A

abbrev pub is_interesting : PayloadFileType → Bool
is_interesting elf = true
is_interesting shell = true
is_interesting pe = true
is_interesting unknown = false

module _ (engine : ForensicsEngine) (sv : Services) (session_id : Text) where
  abbrev pub quarantine_path : List ℕ → Text
  quarantine_path bytes = engine.quarantine_dir ++ codes "/" ++ sv.sha256 bytes

  abbrev pub captured : List ℕ → Option Text → IpAddr → PayloadCapturedEvent
  captured bytes source_url ip = record {
    timestamp = sv.now;
    session_id = session_id;
    ip = ip;
    source_url = source_url;
    sha256 = sv.sha256 bytes;
    size_bytes = length bytes;
    quarantine_path = quarantine_path bytes;
    file_type = detect_file_type bytes;
    iocs = extract_iocs sv.patterns (extract_strings bytes engine.string_min_len);
  }

  abbrev pub nothing : {A : Type 0} → Option A → Analysed A
  nothing answer = record { quarantined = []; events = []; answer = answer }

  -- Hash, quarantine, extraction and event, which both analyses end with.
  abbrev pub capture : {A : Type 0} → List ℕ → Option Text → IpAddr → A → Analysed A
  capture bytes source_url ip answer =
      if sv.stores (quarantine_path bytes)
      then record {
        quarantined = (quarantine_path bytes, bytes) ∷ [];
        events = if sv.sends then captured bytes source_url ip ∷ [] else [];
        answer = if sv.sends then some answer else none;
      }
      else nothing none

  abbrev pub analyze_content : IpAddr → Option (List ℕ) → Analysed Bool
  analyze_content ip none = nothing none
  analyze_content ip (some bytes) =
      if is_empty bytes
      then nothing (some false)
      else if not (is_interesting (detect_file_type bytes))
      then nothing (some false)
      else capture bytes none ip true

  unfoldable pub analyze_file : IpAddr → Text → Analysed Bool
  analyze_file ip path =
      if ltb engine.max_analysis_bytes (sv.size_of path)
      then nothing (some false)
      else analyze_content ip (sv.read path)

  unfoldable pub analyze_payload : List ℕ → Option Text → IpAddr → Analysed (Option Text)
  analyze_payload bytes source_url ip =
      if is_empty bytes
      then nothing (some none)
      else capture bytes source_url ip (some (sv.sha256 bytes))

  -- The regular files below the directory, one after another; errors are logged only.
  unfoldable pub analyze_upperdir : IpAddr → List Text → List PayloadCapturedEvent
  analyze_upperdir ip [] = []
  analyze_upperdir ip (path ∷ paths) = (analyze_file ip path).events ++ analyze_upperdir ip paths
