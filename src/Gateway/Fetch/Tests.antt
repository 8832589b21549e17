-- ===== src/Gateway/Fetch/Tests.antt =====
-- The fetch with small stand-ins for the libraries, and the theorems at concrete inputs.
use aegis_honeypot.Prelude.{◌≡◌, refl, List, [], ◌∷◌, none, some, length, All, list_beq}
use aegis_honeypot.Prelude.Text.{codes, split, starts_with, decimal}
use aegis_honeypot.Common.{IocFindings}
use aegis_honeypot.Net.{v4}
use aegis_honeypot.Gateway.Egress.{SocketAddr, Url, vet_target, is_blocked_ip, is_blocked_v4}
use aegis_honeypot.Gateway.Fetch.{
  Read, bytes, Libraries, Fetched, truncate_credential, safe_filename, read_body,
  fetch_payload_blocking, fake_wget_progress,
}
use aegis_honeypot.Gateway.Fetch.Names.{IsFileName, safe_filename-IsFileName}
use aegis_honeypot.Gateway.Fetch.Effects.{Confined, fetch_payload_blocking-Confined}

program : Unit {0}
unfolding truncate_credential safe_filename read_body fetch_payload_blocking fake_wget_progress
    vet_target is_blocked_ip is_blocked_v4 list_beq split starts_with decimal
program = tt

abbrev url : Url
url = record {
  scheme = codes "http";
  host_str = some (codes "evil.example");
  port_or_known_default = some 80;
  path_segments = some (codes "bin" ∷ codes "x.sh" ∷ []);
}

abbrev climbing : Url
climbing = record url { path_segments = some (codes ".." ∷ []) }

climbing_name : safe_filename climbing ≡ codes "index.html"
unfolding program
climbing_name = refl

plain_name : safe_filename url ≡ codes "x.sh"
unfolding program
plain_name = refl

abbrev public : SocketAddr
public = record { ip = v4 (record { o0 = 93; o1 = 184; o2 = 216; o3 = 34 }); port = 80 }

abbrev no_iocs : IocFindings
no_iocs = record {
  strings_preview = [];
  ip_addresses = [];
  urls = [];
  base64_blobs = [];
  monero_wallets = [];
}

abbrev reads : List Read
reads = bytes (1 ∷ 2 ∷ []) ∷ bytes (3 ∷ 4 ∷ []) ∷ bytes (5 ∷ []) ∷ []

abbrev libraries : Libraries
libraries = record {
  parse_url = λ t. some url;
  resolve = λ host port. some (public ∷ []);
  build_client = λ host t. some (λ u. some (record { content_length = none; reads = reads }));
  sha256 = λ b. decimal (length b);
  extract_iocs = λ b. no_iocs;
}

abbrev fetched : Fetched
fetched =
    fetch_payload_blocking libraries (codes "http://evil.example/bin/x.sh") (codes "/q")
      (some (codes "/m")) 3

cut_at_three : read_body 3 [] reads ≡ 1 ∷ 2 ∷ 3 ∷ []
unfolding program
cut_at_three = refl

three_effects : length fetched.effects ≡ 3
unfolding program
three_effects = refl

safe_filename-IsFileName_example : IsFileName (safe_filename climbing)
safe_filename-IsFileName_example = safe_filename-IsFileName climbing

fetch_payload_blocking-Confined_example :
    All
      (Confined libraries (codes "http://evil.example/bin/x.sh") (codes "/q") (some (codes "/m")) 3)
      fetched.effects
fetch_payload_blocking-Confined_example =
    fetch_payload_blocking-Confined libraries (codes "http://evil.example/bin/x.sh") (codes "/q")
      (some (codes "/m")) 3
