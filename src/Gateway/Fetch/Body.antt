-- ===== src/Gateway/Fetch/Body.antt =====
-- The read loop of the fetch against the bytes that the peer sends.
use aegis_honeypot.Prelude.{
  ℕ, ◌-◌, ◌≤◌, ◌≡◌, sym, ap, ◌∙◌, List, [], ◌∷◌, ◌++◌, inl, inr, arith, length, take, length-append,
  length-take, take_nil, take-append_le, take-append_ge, append-nil, append_assoc, leb, Bool-cases,
}
use aegis_honeypot.Gateway.Fetch.{Read, bytes, failed, read_body}

-- All that the peer sends before its stream ends or fails.
abbrev pub sent : List Read → List ℕ
sent [] = []
sent (failed ∷ reads) = []
sent (bytes [] ∷ reads) = []
sent (bytes (b ∷ bs) ∷ reads) = (b ∷ bs) ++ sent reads

-- One more read that fits.
read_on :
    (max : ℕ) (body new rest : List ℕ) {out : List ℕ}
    → length new ≤ max - length body
    → out ≡ (body ++ new) ++ take (max - length (body ++ new)) rest
    → out ≡ body ++ take (max - length body) (new ++ rest)
read_on max body new rest h e =
    e
    ∙ (append_assoc body new (take (max - length (body ++ new)) rest))
    ∙ ap (λ z. body ++ (new ++ take z rest)) (omega (arith, length-append body new))
    ∙ ap (λ z. body ++ z) (sym (take-append_ge (max - length body) new rest h))

read_body-sent :
    (max : ℕ) (body : List ℕ) (reads : List Read)
    → length body ≤ max
    → read_body max body reads ≡ body ++ take (max - length body) (sent reads)
unfolding read_body
read_body-sent max body [] h = rw (take_nil (max - length body)) (sym (append-nil body))
read_body-sent max body (failed ∷ reads) h =
    rw (take_nil (max - length body)) (sym (append-nil body))
read_body-sent max body (bytes [] ∷ reads) h =
    rw (take_nil (max - length body)) (sym (append-nil body))
read_body-sent max body (bytes (b ∷ bs) ∷ reads) h =
    elim (Bool-cases (leb (max - length body) (length (b ∷ bs)))) [
      | inl over ↦ rw over (
          ap (λ z. body ++ z)
            (sym (take-append_le (max - length body) (b ∷ bs) (sent reads) (ground (arith, over)))))
      | inr fits ↦ rw fits (
          read_on max body (b ∷ bs) (sent reads) (ground (arith, fits)) (
            read_body-sent max (body ++ b ∷ bs) reads
              (ground (arith, length-append body (b ∷ bs), fits))))
    ]

-- The body that is kept is what the peer sends, cut at the cap, whatever the sizes of the reads.
read_body-take : (max : ℕ) (reads : List Read) → read_body max [] reads ≡ take max (sent reads)
read_body-take max reads =
    read_body-sent max [] reads (omega arith) ∙ ap (λ z. take z (sent reads)) (omega arith)

-- The body that is kept is no longer than the cap.
pub length-read_body : (max : ℕ) (reads : List Read) → length (read_body max [] reads) ≤ max
length-read_body max reads =
    omega (arith, ap length (read_body-take max reads), length-take max (sent reads))
