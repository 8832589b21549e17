-- ===== src/Forensics/Analysis.antt =====
-- What an analysis reports, against what it has put in the quarantine.
use aegis_honeypot.Prelude.{
  ℕ, ◌≤◌, ◌≡◌, refl, Bool, true, false, not, List, [], ◌∷◌, Option, none, some, arith, ltb, if_ind,
  length, is_empty, All, All-append,
}
use aegis_honeypot.Prelude.Text.{Text}
use aegis_honeypot.Net.{IpAddr}
use aegis_honeypot.Common.{PayloadCapturedEvent}
use aegis_honeypot.Forensics.{
  detect_file_type, ForensicsEngine, Services, Analysed, is_interesting, quarantine_path, capture,
  analyze_content, analyze_file, analyze_payload, analyze_upperdir,
}

module _ (engine : ForensicsEngine) (sv : Services) (session_id : Text) where
  -- The event tells of the one file in the quarantine: where it is, its size, its hash and its type.
  abbrev pub Tells : List (Text × List ℕ) → PayloadCapturedEvent → Type 0
  Tells quarantined e =
      (bytes : List ℕ) × (quarantined ≡ (e.quarantine_path, bytes) ∷ [])
      × (e.size_bytes ≡ length bytes)
      × (e.sha256 ≡ sv.sha256 bytes)
      × (e.file_type ≡ detect_file_type bytes)
      × (1 ≤ e.size_bytes)

  -- Every event of an analysis tells of its quarantine.
  abbrev pub IsBacked : {A : Type 0} → Analysed A → Type 0
  IsBacked a = All (Tells a.quarantined) a.events

  some_bytes : (bytes : List ℕ) → is_empty bytes ≡ false → 1 ≤ length bytes
  some_bytes [] h = ground arith
  some_bytes (b ∷ bytes) h = omega arith

  capture-IsBacked :
      {A : Type 0} (bytes : List ℕ) (url : Option Text) (ip : IpAddr) (answer : A)
      → is_empty bytes ≡ false
      → IsBacked (capture engine sv session_id bytes url ip answer)
  capture-IsBacked {A} bytes url ip answer h =
      if_ind (IsBacked {A = A}) (sv.stores (quarantine_path engine sv session_id bytes))
        (λ _.
          if_ind (All (Tells ((quarantine_path engine sv session_id bytes, bytes) ∷ []))) sv.sends
            (λ _. ((bytes, refl, refl, refl, refl, some_bytes bytes h), tt)) (λ _. tt))
        (λ _. tt)

  -- An analysis of a captured payload sends no event but one that tells of the file it has put in
  -- the quarantine: where it is, its size, hash and type.
  analyze_payload-IsBacked :
      (bytes : List ℕ) (url : Option Text) (ip : IpAddr)
      → IsBacked (analyze_payload engine sv session_id bytes url ip)
  unfolding analyze_payload
  analyze_payload-IsBacked bytes url ip =
      if_ind (IsBacked {A = Option Text}) (is_empty bytes) (λ _. tt)
        (λ h. capture-IsBacked bytes url ip (some (sv.sha256 bytes)) h)

  -- What the teardown of a session reports of one file.
  abbrev pub IsPayload : PayloadCapturedEvent → Type 0
  IsPayload e =
      (is_interesting e.file_type ≡ true) × (e.source_url ≡ none) × (e.session_id ≡ session_id)

  capture-IsPayload :
      (bytes : List ℕ) (ip : IpAddr)
      → is_interesting (detect_file_type bytes) ≡ true
      → All IsPayload (capture engine sv session_id bytes none ip true).events
  capture-IsPayload bytes ip h =
      if_ind (λ (a : Analysed Bool). All IsPayload a.events)
        (sv.stores (quarantine_path engine sv session_id bytes))
        (λ _. if_ind (All IsPayload) sv.sends (λ _. ((h, refl, refl), tt)) (λ _. tt)) (λ _. tt)

  content-IsPayload :
      (ip : IpAddr) (o : Option (List ℕ))
      → All IsPayload (analyze_content engine sv session_id ip o).events
  content-IsPayload ip none = tt
  content-IsPayload ip (some bytes) =
      if_ind (λ (a : Analysed Bool). All IsPayload a.events) (is_empty bytes) (λ _. tt)
        (λ _.
          if_ind (λ (a : Analysed Bool). All IsPayload a.events)
            (not (is_interesting (detect_file_type bytes))) (λ _. tt)
            (λ h. capture-IsPayload bytes ip (ground (arith, h))))

  file-IsPayload :
      (ip : IpAddr) (path : Text) → All IsPayload (analyze_file engine sv session_id ip path).events
  unfolding analyze_file
  file-IsPayload ip path =
      if_ind (λ (a : Analysed Bool). All IsPayload a.events)
        (ltb engine.max_analysis_bytes (sv.size_of path)) (λ _. tt)
        (λ _. content-IsPayload ip (sv.read path))

  -- Whatever files a session leaves, what its teardown reports of them are payloads of that
  -- session, each an ELF, a PE or a script, with no source URL.
  analyze_upperdir-IsPayload :
      (ip : IpAddr) (paths : List Text)
      → All IsPayload (analyze_upperdir engine sv session_id ip paths)
  unfolding analyze_upperdir
  analyze_upperdir-IsPayload ip [] = tt
  analyze_upperdir-IsPayload ip (path ∷ paths) =
      All-append IsPayload (analyze_file engine sv session_id ip path).events _
        (file-IsPayload ip path) (analyze_upperdir-IsPayload ip paths)
