-- ===== src/Gateway/Fetch.antt =====
-- crates/aegis-gateway/src/handler.rs: the payload fetch, from the URL to the files written, and the
-- truncation of credentials. The URL parser, the resolver, the HTTP client, SHA-256 and the scan for
-- indicators are parameters; what the function does to the world is a list of effects.
pub mod Names
pub mod Body
pub mod Effects
mod Tests
use aegis_honeypot.Prelude.{
  ℕ, zero, suc, ◌+◌, ◌-◌, ◌*◌, ◌/◌, ◌^◌, Bool, true, false, not, ◌&&◌, ◌||◌, List, [], ◌∷◌, ◌++◌,
  Option, none, some, ltb, leb, ◌==◌, if◌then◌else◌, length, is_empty, take, get_elem?, list_beq,
  min,
}
use aegis_honeypot.Prelude.Text.{
  Text, codes, split, has_char, starts_with, last_or, decimal, concat,
}
use aegis_honeypot.Common.{IocFindings}
use aegis_honeypot.Gateway.Egress.{SocketAddr, Url, Vetted, refused, target, vet_target}

abbrev pub max_credential_len : ℕ
max_credential_len = 256

abbrev pub ellipsis : Text
ellipsis = 0x2026 ∷ []

-- `char_indices().nth(MAX_CREDENTIAL_LEN)` is there when the text has more characters than that.
unfoldable pub truncate_credential : Text → Text
truncate_credential s =
    if ltb max_credential_len (length s) then take max_credential_len s ++ ellipsis else s

abbrev pub last_segment : Option (List Text) → Text
last_segment none = []
last_segment (some segments) = last_or segments []

abbrev pub is_unsafe : Text → Bool
is_unsafe candidate =
    is_empty candidate
    || list_beq candidate (codes ".")
    || list_beq candidate (codes "..")
    || has_char 47 candidate
    || has_char 92 candidate
    || starts_with candidate (codes ".")

unfoldable pub safe_filename : Url → Text
safe_filename url =
    let candidate = last_segment url.path_segments in
    if is_unsafe candidate then codes "index.html" else take 128 candidate

abbrev pub or_default : Option Text → Text → Text
or_default none d = d
or_default (some t) d = t

-- The literal up to the next line break.
abbrev line : Text → Text
line s = s ++ 13 ∷ 10 ∷ []

unfoldable pub fake_wget_progress : Text → ℕ → Text
fake_wget_progress url size_kb =
    let last = last_or (split 47 url) (codes "payload") in
    let filename = if is_empty last then codes "index.html" else last in
    let kb = if size_kb == 0 then 64 else size_kb in
    let host = or_default (get_elem? (split 47 url) 2) (codes "example.com") in
    let size_bytes = kb * 1024 in
    concat (
      line (codes "--2026-08-27 18:25:00--  " ++ url)
      ∷ line (codes "Resolving " ++ host ++ codes " (" ++ host ++ codes ")... 192.0.2.1")
      ∷ line (codes "Connecting to " ++ host ++ codes "|192.0.2.1|:80... connected.")
      ∷ line (codes "HTTP request sent, awaiting response... 200 OK")
      ∷ line (
          codes "Length: "
          ++ decimal size_bytes
          ++ codes " ("
          ++ decimal kb
          ++ codes "K) [application/octet-stream]")
      ∷ line (line (codes "Saving to: '" ++ filename ++ codes "'"))
      ∷ line (
          line (
            filename
            ++ codes "   100%[===================>]  "
            ++ decimal kb
            ++ codes ".00K  --.-KB/s    in 0.1s"))
      ∷ line (
          codes "2026-08-27 18:25:01 (512 KB/s) - '"
          ++ filename
          ++ codes "' saved ["
          ++ decimal size_bytes
          ++ codes "]")
      ∷ [])

-- One call of `read`.
pub data Read : Type 0 where
  bytes : List ℕ → Read
  failed : Read

-- The loop that reads the body, from the answers that `read` gives one after another; after the
-- last one, `read` answers 0 bytes.
unfoldable pub read_body : ℕ → List ℕ → List Read → List ℕ
read_body max body [] = body
read_body max body (failed ∷ reads) = body
read_body max body (bytes [] ∷ reads) = body
read_body max body (bytes (b ∷ bs) ∷ reads) =
    let rest = read_body max (body ++ b ∷ bs) reads in
    if leb (max - length body) (length (b ∷ bs))
    then body ++ take (max - length body) (b ∷ bs)
    else rest

pub record HttpResponse : Type 0 where
  pub content_length : Option ℕ
  pub reads : List Read

-- What the fetch does to the world.
pub data Effect : Type 0 where
  dialled : SocketAddr → Effect
  wrote : Text → List ℕ → Effect

-- The libraries: `Url::parse`, `to_socket_addrs`, the client that is pinned to an address and
-- follows no redirect, SHA-256 in hexadecimal, `extract_iocs_from_bytes`.
pub record Libraries : Type 0 where
  pub parse_url : Text → Option Url
  pub resolve : Text → ℕ → Option (List SocketAddr)
  pub build_client : Text → SocketAddr → Option (Url → Option HttpResponse)
  pub sha256 : List ℕ → Text
  pub extract_iocs : List ℕ → IocFindings

pub record Payload : Type 0 where
  pub sha256 : Text
  pub size_bytes : ℕ
  pub quarantine_path : Text
  pub iocs : IocFindings

pub record Fetched : Type 0 where
  pub progress : Text
  pub payload : Option Payload
  pub effects : List Effect

abbrev pub is_over : ℕ → Option ℕ → Bool
is_over max none = false
is_over max (some len) = ltb max len

-- `<mount>/root/<name>`.
abbrev pub drop_path : Text → Url → Text
drop_path mount url = mount ++ codes "/root/" ++ safe_filename url

abbrev pub drop_copy : Option Text → Url → List ℕ → List Effect
drop_copy none url body = []
drop_copy (some mount) url body = wrote (drop_path mount url) body ∷ []

module _ (lib : Libraries) (url : Text) (quarantine_dir : Text) (mount_root : Option Text)
    (max_bytes : ℕ) where
  -- The attacker is shown a download; the fetch did `effects` and no more.
  abbrev pub decoy : List Effect → Fetched
  decoy effects = record { progress = fake_wget_progress url 64; payload = none; effects = effects }

  abbrev pub quarantine_path_of : List ℕ → Text
  quarantine_path_of body = quarantine_dir ++ codes "/" ++ lib.sha256 body

  -- Behind the read loop. Writes that fail are ignored, as in the code.
  abbrev pub keep : Url → SocketAddr → List ℕ → Fetched
  keep parsed t body = record {
    progress = fake_wget_progress url (length body / 1024);
    payload = some (record {
      sha256 = lib.sha256 body;
      size_bytes = length body;
      quarantine_path = quarantine_path_of body;
      iocs = lib.extract_iocs body;
    });
    effects = dialled t ∷ wrote (quarantine_path_of body) body ∷ drop_copy mount_root parsed body;
  }

  abbrev pub receive : Url → SocketAddr → Option HttpResponse → Fetched
  receive parsed t none = decoy (dialled t ∷ [])
  receive parsed t (some resp) =
      if is_over max_bytes resp.content_length
      then decoy (dialled t ∷ [])
      else keep parsed t (read_body max_bytes [] resp.reads)

  -- `get(parsed).send()` on the client that `build` made, which dials the pinned address only.
  abbrev pub send : Url → SocketAddr → Option (Url → Option HttpResponse) → Fetched
  send parsed t none = decoy []
  send parsed t (some get) = receive parsed t (get parsed)

  abbrev pub fetch_host : Url → SocketAddr → Option Text → Fetched
  fetch_host parsed t none = decoy []
  fetch_host parsed t (some host) = send parsed t (lib.build_client host t)

  abbrev pub fetch_vetted : Url → Vetted → Fetched
  fetch_vetted parsed (refused reason) = decoy []
  fetch_vetted parsed (target t) = fetch_host parsed t parsed.host_str

  abbrev pub fetch_parsed : Option Url → Fetched
  fetch_parsed none = decoy []
  fetch_parsed (some parsed) = fetch_vetted parsed (vet_target lib.resolve parsed)

  unfoldable pub fetch_payload_blocking : Fetched
  fetch_payload_blocking = fetch_parsed (lib.parse_url url)
