-- ===== src/Gateway/Fetch/Effects.antt =====
-- What a fetch may do to the world, and what it tells the attacker.
use aegis_honeypot.Prelude.{
  ℕ, ◌/◌, ◌≤◌, ◌≡◌, refl, List, [], ◌++◌, Option, none, some, inl, inr, length, All, Bool-cases,
  Option-cases,
}
use aegis_honeypot.Prelude.Text.{Text, codes}
use aegis_honeypot.Gateway.Egress.{SocketAddr, Url, Vetted, refused, target, vet_target}
use aegis_honeypot.Gateway.Egress.Vetting.{Allowed, vet_target-Allowed}
use aegis_honeypot.Gateway.Fetch.{
  HttpResponse, Effect, dialled, wrote, Libraries, Payload, Fetched, is_over, receive, fetch_host,
  fetch_vetted, fetch_payload_blocking, read_body, safe_filename, fake_wget_progress, drop_copy,
}
use aegis_honeypot.Gateway.Fetch.Names.{IsFileName, safe_filename-IsFileName}
use aegis_honeypot.Gateway.Fetch.Body.{length-read_body}

module _ (lib : Libraries) (url : Text) (quarantine_dir : Text) (mount_root : Option Text)
    (max_bytes : ℕ) where
  -- An effect that stays within bounds: a dial of an address that `vet_target` is to allow, a
  -- write of a body within the cap to the quarantine, or one to a plain file name in the session's
  -- `root`.
  pub data Confined : Effect → Type 0 where
    dial :
        (parsed : Url) (t : SocketAddr)
        → lib.parse_url url ≡ some parsed
        → Allowed lib.resolve parsed t
        → Confined (dialled t)
    quarantine :
        (body : List ℕ)
        → length body ≤ max_bytes
        → Confined (wrote (quarantine_dir ++ codes "/" ++ lib.sha256 body) body)
    drop_in :
        (mount name : Text) (body : List ℕ)
        → mount_root ≡ some mount
        → IsFileName name
        → length body ≤ max_bytes
        → Confined (wrote (mount ++ codes "/root/" ++ name) body)

  -- What is told of a fetch: without a payload the standard transcript; with one, the transcript of
  -- its size, which is within the cap, and the name and the size of a body.
  abbrev pub Told : Text → Option Payload → Type 0
  Told progress none = progress ≡ fake_wget_progress url 64
  Told progress (some p) =
      (progress ≡ fake_wget_progress url (p.size_bytes / 1024))
      × (p.size_bytes ≤ max_bytes)
      × (body : List ℕ) × (p.size_bytes ≡ length body)
      × (p.quarantine_path ≡ quarantine_dir ++ codes "/" ++ lib.sha256 body)

  abbrev pub IsTold : Fetched → Type 0
  IsTold f = Told f.progress f.payload

  copy-Confined :
      (m : Option Text) (parsed : Url) (body : List ℕ)
      → mount_root ≡ m
      → length body ≤ max_bytes
      → All Confined (drop_copy m parsed body)
  copy-Confined none parsed body e h = tt
  copy-Confined (some mount) parsed body e h =
      (drop_in mount (safe_filename parsed) body e (safe_filename-IsFileName parsed) h, tt)

  module _ (parsed : Url) (t : SocketAddr) (is_url : lib.parse_url url ≡ some parsed)
      (ok : Allowed lib.resolve parsed t) where
    receive-Confined :
        (r : Option HttpResponse)
        → All Confined (receive lib url quarantine_dir mount_root max_bytes parsed t r).effects
    receive-Confined none = (dial parsed t is_url ok, tt)
    receive-Confined (some resp) = elim (Bool-cases (is_over max_bytes resp.content_length)) [
      | inl over ↦ rw over (dial parsed t is_url ok, tt)
      | inr fits ↦ rw fits (
        dial parsed t is_url ok,
        (
          quarantine (read_body max_bytes [] resp.reads) (length-read_body max_bytes resp.reads),
          copy-Confined mount_root parsed (read_body max_bytes [] resp.reads) refl
              (length-read_body max_bytes resp.reads),
        ),
      )
    ]

    host-Confined :
        (h : Option Text)
        → All Confined (fetch_host lib url quarantine_dir mount_root max_bytes parsed t h).effects
    host-Confined none = tt
    host-Confined (some host) = elim (Option-cases (lib.build_client host t)) [
      | inl fails ↦ rw fails tt
      | inr (get, built) ↦ rw built (receive-Confined (get parsed))
    ]

  vetted-Confined :
      (parsed : Url)
      → lib.parse_url url ≡ some parsed
      → (v : Vetted) → vet_target lib.resolve parsed ≡ v
      → All Confined (fetch_vetted lib url quarantine_dir mount_root max_bytes parsed v).effects
  vetted-Confined parsed is_url (refused reason) e = tt
  vetted-Confined parsed is_url (target t) e =
      host-Confined parsed t is_url ((vet_target-Allowed lib.resolve parsed t).0 e) parsed.host_str

  -- Whatever URL the attacker types and whatever the peer answers, the fetch dials no address but
  -- one that `vet_target` is to allow, so never a blocked one, and writes nothing but bodies within
  -- the cap, to the quarantine and under a plain file name in `root` of the session's mount.
  pub fetch_payload_blocking-Confined :
      All Confined (fetch_payload_blocking lib url quarantine_dir mount_root max_bytes).effects
  unfolding fetch_payload_blocking
  fetch_payload_blocking-Confined = elim (Option-cases (lib.parse_url url)) [
    | inl fails ↦ rw fails tt
    | inr (parsed, is_url) ↦ rw is_url (vetted-Confined parsed is_url _ refl)
  ]

  receive-IsTold :
      (parsed : Url) (t : SocketAddr) (r : Option HttpResponse)
      → IsTold (receive lib url quarantine_dir mount_root max_bytes parsed t r)
  receive-IsTold parsed t none = refl
  receive-IsTold parsed t (some resp) = elim (Bool-cases (is_over max_bytes resp.content_length)) [
    | inl over ↦ rw over refl
    | inr fits ↦
        rw fits (
          refl,
          length-read_body max_bytes resp.reads,
          read_body max_bytes [] resp.reads,
          refl,
          refl,
        )
  ]

  host-IsTold :
      (parsed : Url) (t : SocketAddr) (h : Option Text)
      → IsTold (fetch_host lib url quarantine_dir mount_root max_bytes parsed t h)
  host-IsTold parsed t none = refl
  host-IsTold parsed t (some host) = elim (Option-cases (lib.build_client host t)) [
    | inl fails ↦ rw fails refl
    | inr (get, built) ↦ rw built (receive-IsTold parsed t (get parsed))
  ]

  vetted-IsTold :
      (parsed : Url) (v : Vetted)
      → IsTold (fetch_vetted lib url quarantine_dir mount_root max_bytes parsed v)
  vetted-IsTold parsed (refused reason) = refl
  vetted-IsTold parsed (target t) = host-IsTold parsed t parsed.host_str

  -- A fetch that yields no payload shows the attacker one and the same transcript, whatever the
  -- reason; one that yields a payload shows the transcript of its size, reports a size within the
  -- cap, and names the quarantine file by the hash of a body of that size.
  fetch_payload_blocking-IsTold :
      IsTold (fetch_payload_blocking lib url quarantine_dir mount_root max_bytes)
  unfolding fetch_payload_blocking
  fetch_payload_blocking-IsTold = elim (Option-cases (lib.parse_url url)) [
    | inl fails ↦ rw fails refl
    | inr (parsed, is_url) ↦ rw is_url (vetted-IsTold parsed _)
  ]
