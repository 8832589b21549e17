-- ===== src/Startup/Restart.antt =====
-- What a second start finds of the first.
use aegis_honeypot.Prelude.{
  ℕ, ◌≡◌, refl, sym, ap, ◌∙◌, false, List, [], ◌∷◌, Option, none, some, reverse, ◌++◌, All,
  All-reverse, if_ind, is_empty,
}
use mathlib.Core.List.{reverse-reverse}
use aegis_honeypot.Prelude.Text.{Text, is_whitespace, trim_start, trim}
use aegis_honeypot.Startup.{
  Call, Read, contents, not_found, failed, Files, Run, done, fail, restrict, create_dir_all, write,
  set_permissions, call, create_parent_of, persist,
}
use aegis_honeypot.Startup.HostKey.{Keys, save_key, save_pem, key_of, load_or_create_host_key}
use aegis_honeypot.Startup.Token.{Random, generate_token, token_of, load_or_create_token}

abbrev Plain : Text → Type 0
Plain t = All (λ c. is_whitespace c ≡ false) t

trim_start-Plain : (t : Text) → Plain t → trim_start t ≡ t
unfolding trim_start
trim_start-Plain [] h = refl
trim_start-Plain (c ∷ t) h = rw (h.0) refl

trim-Plain : (t : Text) → Plain t → trim t ≡ t
unfolding trim
trim-Plain t h =
    (ap (λ s. reverse (trim_start (reverse s))) (trim_start-Plain t h)
      ∙ ap reverse (trim_start-Plain (reverse t) (All-reverse (λ c. is_whitespace c ≡ false) t h))
      ∙ reverse-reverse t)

-- What holds of a failed run holds of the calls in front of one.
module _ {T : Type 0} (fs : Files) (P : Run T → Type 0)
    (fails : (calls : List Call) → P (fail calls)) where
  call_ind :
      (c : Call) (rest : List Call → Run T) (calls : List Call)
      → P (rest (c ∷ calls))
      → P (call fs c rest calls)
  call_ind c rest calls h = if_ind P (fs.succeeds c calls) (λ _. h) (λ _. fails calls)

  create_parent_of_ind :
      (rest : List Call → Run T)
      → ((calls : List Call) → P (rest calls))
      → (dir : Option Text) (calls : List Call) → P (create_parent_of fs dir rest calls)
  create_parent_of_ind rest holds none calls = holds calls
  create_parent_of_ind rest holds (some dir) calls =
      if_ind P (is_empty dir) (λ _. holds calls)
        (λ _. call_ind (create_dir_all dir) rest calls (holds (create_dir_all dir ∷ calls)))

-- `read_back` and `keeps` are what the file system documents: a file that was written reads as what
-- was written, and a change of the mode, for the owner, leaves that as it is.
module _ (fs : Files)
    (read_back : (path t : Text) (calls : List Call)
      → fs.read path (write path t ∷ calls) ≡ contents t)
    (keeps : (path : Text) (mode : ℕ) (calls : List Call)
      → fs.read path (set_permissions path mode ∷ calls) ≡ fs.read path calls) where
  -- An answer comes with the text in the file.
  IsSaved : {T : Type 0} → Text → Text → T → Run T → Type 0
  IsSaved {T} path text value run =
      (v : T) → run.answer ≡ some v → (v ≡ value) × (fs.read path run.calls ≡ contents text)

  fail-IsSaved :
      {T : Type 0} (path text : Text) (value : T) (calls : List Call)
      → IsSaved path text value (fail calls)
  unfolding IsSaved
  fail-IsSaved path text value calls v h = cc

  persist-IsSaved :
      {T : Type 0} (path text : Text) (value : T) (calls : List Call)
      → IsSaved path text value (persist fs path text value calls)
  unfolding persist IsSaved
  persist-IsSaved path text value calls =
      call_ind fs (IsSaved path text value) (fail-IsSaved path text value) (write path text)
        (restrict fs path value) calls
        (call_ind fs (IsSaved path text value) (fail-IsSaved path text value)
          (set_permissions path 384) (done value) (write path text ∷ calls)
          (λ v h. (cc, keeps path 384 (write path text ∷ calls) ∙ read_back path text calls)))

  reread :
      (path token text : Text) (later : Random) (calls : List Call)
      → fs.read path calls ≡ contents text
      → trim text ≡ token
      → load_or_create_token fs path later calls ≡ done token calls
  unfolding load_or_create_token
  reread path token text later calls e same = rw (e) (ap (λ t. done t calls) same)

  made :
      (path token : Text) (r later : Random) (calls : List Call)
      → Plain (generate_token r)
      → (token ≡ generate_token r) × (fs.read path calls ≡ contents (generate_token r))
      → load_or_create_token fs path later calls ≡ done token calls
  made path token r later calls plain (same, found) =
      reread path token (generate_token r) later calls found
        (trim-Plain (generate_token r) plain ∙ sym same)

  -- The first start, by what it reads.
  again :
      (path token : Text) (r later : Random) (calls : List Call)
      → ((bytes : List ℕ) → Plain (r.encode bytes))
      → (found : Read) → fs.read path calls ≡ found
      → (token_of fs path r found calls).answer ≡ some token
      → load_or_create_token fs path later (token_of fs path r found calls).calls
        ≡ done token (token_of fs path r found calls).calls
  unfolding load_or_create_token generate_token IsSaved
  again path token r later calls plain (contents text) e h = reread path token text later calls e cc
  again path token r later calls plain not_found e h =
      made path token r later _ (plain (r.first ++ r.second)) (
        create_parent_of_ind fs (IsSaved path (generate_token r) (generate_token r))
          (fail-IsSaved path (generate_token r) (generate_token r))
          (persist fs path (generate_token r) (generate_token r))
          (persist-IsSaved path (generate_token r) (generate_token r)) (fs.parent path) calls token
          h)
  again path token r later calls plain failed e h = cc

  -- When a start of the dashboard has a token, whether it read one or made it, each later start has
  -- the same token, whatever the random source answers then, and changes no file.
  pub load_or_create_token-again :
      (path token : Text) (r later : Random) (calls : List Call)
      → ((bytes : List ℕ) → All (λ c. is_whitespace c ≡ false) (r.encode bytes))
      → (load_or_create_token fs path r calls).answer ≡ some token
      → load_or_create_token fs path later (load_or_create_token fs path r calls).calls
        ≡ done token (load_or_create_token fs path r calls).calls
  unfolding load_or_create_token
  load_or_create_token-again path token r later calls plain h =
      again path token r later calls plain (fs.read path calls) refl h

  -- Keys that are decoded as they were encoded, and what the random source answers later.
  module _ {K : Type 0} (keys : Keys K) (later : Option K)
      (decodes : (key : K) (pem : Text)
        → keys.encode_pkcs8_pem key ≡ some pem
        → keys.decode_secret_key pem ≡ some key) where
    IsStable : Text → Run K → Type 0
    IsStable path run =
        (key : K)
        → run.answer ≡ some key
        → load_or_create_host_key fs (record keys { random = later }) (some path) run.calls
          ≡ done key run.calls

    fail-IsStable : (path : Text) (calls : List Call) → IsStable path (fail calls)
    unfolding IsStable
    fail-IsStable path calls key h = cc

    found-IsStable :
        (path pem : Text) (answer : Option K) (calls : List Call)
        → fs.read path calls ≡ contents pem
        → keys.decode_secret_key pem ≡ answer
        → IsStable path (record { answer = answer; calls = calls })
    unfolding IsStable load_or_create_host_key
    found-IsStable path pem answer calls found decoded key h =
        rw (found) (ap (λ a. record { answer = a; calls = calls }) (decoded ∙ h))

    save_pem-IsStable :
        (path : Text) (key : K) (pem : Option Text) (calls : List Call)
        → keys.encode_pkcs8_pem key ≡ pem
        → IsStable path (save_pem fs keys path key pem calls)
    unfolding persist
    save_pem-IsStable path key none calls e = fail-IsStable path calls
    save_pem-IsStable path key (some pem) calls e =
        call_ind fs (IsStable path) (fail-IsStable path) (write path pem) (restrict fs path key)
          calls
          (call_ind fs (IsStable path) (fail-IsStable path) (set_permissions path 384) (done key)
            (write path pem ∷ calls)
            (found-IsStable path pem (some key) (set_permissions path 384 ∷ write path pem ∷ calls)
              (keeps path 384 (write path pem ∷ calls) ∙ read_back path pem calls)
              (decodes key pem e)))

    save_key-IsStable :
        (path : Text) (key : Option K) (calls : List Call)
        → IsStable path (save_key fs keys path key calls)
    save_key-IsStable path none calls = fail-IsStable path calls
    save_key-IsStable path (some key) calls =
        create_parent_of_ind fs (IsStable path) (fail-IsStable path)
          (save_pem fs keys path key (keys.encode_pkcs8_pem key))
          (λ after. save_pem-IsStable path key (keys.encode_pkcs8_pem key) after refl)
          (fs.parent path) calls

    key_of-IsStable :
        (path : Text) (calls : List Call) (found : Read)
        → fs.read path calls ≡ found
        → IsStable path (key_of fs keys path found calls)
    key_of-IsStable path calls (contents pem) e =
        found-IsStable path pem (keys.decode_secret_key pem) calls e refl
    key_of-IsStable path calls not_found e = save_key-IsStable path keys.random calls
    key_of-IsStable path calls failed e = fail-IsStable path calls

    -- When a start of the gateway with a key path has a host key, whether it read one or made it,
    -- each later start has the same key, whatever the random source answers then, and changes no
    -- file.
    pub load_or_create_host_key-again :
        (path : Text) (key : K) (calls : List Call)
        → (load_or_create_host_key fs keys (some path) calls).answer ≡ some key
        → load_or_create_host_key fs
            (record keys { random = later })
            (some path)
            (load_or_create_host_key fs keys (some path) calls).calls
          ≡ done key (load_or_create_host_key fs keys (some path) calls).calls
    unfolding load_or_create_host_key IsStable
    load_or_create_host_key-again path key calls h =
        key_of-IsStable path calls (fs.read path calls) refl key h
