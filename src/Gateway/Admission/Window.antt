-- ===== src/Gateway/Admission/Window.antt =====
-- The window of one source: pruning it, and what it records of the past.
use aegis_honeypot.Prelude.{
  ℕ, suc, ◌+◌, ◌-◌, ◌≤◌, ◌<◌, ◌%◌, ◌≡◌, refl, sym, ap, ◌∙◌, inl, inr, Bool-cases, true, false, not,
  List, [], ◌∷◌, ◌++◌, Option, none, some, arith, length, filter, filter-append, any, All, All-map,
  All-append,
}
use aegis_honeypot.Prelude.HashMap.{keep_if}
use aegis_honeypot.Gateway.Admission.{
  IpEntry, u32_mod, in_window, rate_window, is_stale, prune, pruned, entry_or_new,
}
use aegis_honeypot.Gateway.Admission.World.{active_of, recents_of}

abbrev pub Ascending : ℕ → List ℕ → Type 0
Ascending lo [] = Unit {0}
Ascending lo (x ∷ xs) = (lo ≤ x) × Ascending x xs

Ascending-mono : (lo hi : ℕ) (xs : List ℕ) → lo ≤ hi → Ascending hi xs → Ascending lo xs
Ascending-mono lo hi [] h a = tt
Ascending-mono lo hi (x ∷ xs) h a = (omega arith, a.1)

Ascending-snoc :
    (lo now : ℕ) (xs : List ℕ)
    → lo ≤ now
    → Ascending lo xs
    → All (λ t. t ≤ now) xs
    → Ascending lo (xs ++ now ∷ [])
Ascending-snoc lo now [] h a b = (h, tt)
Ascending-snoc lo now (x ∷ xs) h a b = (a.0, Ascending-snoc x now xs b.0 a.1 b.1)

filter-Ascending :
    (now x : ℕ) (xs : List ℕ)
    → now - x ≤ rate_window
    → Ascending x xs
    → filter (in_window now) xs ≡ xs
filter-Ascending now x [] h a = refl
filter-Ascending now x (y ∷ ys) h a = ground (arith, filter-Ascending now y ys)

-- On a window in order of time, dropping the expired front drops all that is expired.
pub prune-filter :
    (now lo : ℕ) (xs : List ℕ) → Ascending lo xs → prune now xs ≡ filter (in_window now) xs
unfolding prune
prune-filter now lo [] a = refl
prune-filter now lo (x ∷ xs) a =
    ground (arith, prune-filter now x xs a.1, filter-Ascending now x xs)

filter-prune :
    (now later : ℕ) (xs : List ℕ)
    → now ≤ later
    → filter (in_window later) (prune now xs) ≡ filter (in_window later) xs
unfolding prune
filter-prune now later [] h = refl
filter-prune now later (x ∷ xs) h = ground (arith, filter-prune now later xs h)

prune-Ascending : (now lo : ℕ) (xs : List ℕ) → Ascending lo xs → Ascending lo (prune now xs)
unfolding prune
prune-Ascending now lo [] a = tt
prune-Ascending now lo (x ∷ xs) a =
    ground (arith, prune-Ascending now x xs a.1, Ascending-mono lo x (prune now xs))

prune-All :
    (now clock : ℕ) (xs : List ℕ) → All (λ t. t ≤ clock) xs → All (λ t. t ≤ clock) (prune now xs)
unfolding prune
prune-All now clock [] a = tt
prune-All now clock (x ∷ xs) a = ground (arith, prune-All now clock xs a.1)

filter_drained :
    (now later : ℕ) (xs : List ℕ)
    → now ≤ later
    → any (in_window now) xs ≡ false
    → filter (in_window later) xs ≡ []
filter_drained now later [] h a = refl
filter_drained now later (x ∷ xs) h a = ground (arith, filter_drained now later xs h)

is_stale_lem :
    (now : ℕ) (e : IpEntry)
    → is_stale now e ≡ true
    → (e.active ≡ 0) × (any (in_window now) e.recent_connects ≡ false)
unfolding is_stale
is_stale_lem now e s = ground arith

-- The entry of a source agrees with its history: `h` open connections, admissions at `ts`.
pub record Tracks (h : ℕ) (ts : List ℕ) (clock : ℕ) (o : Option IpEntry) : Type 0 where
  pub active : active_of o ≡ h
  pub ascending : Ascending 0 (recents_of o)
  pub past : All (λ t. t ≤ clock) (recents_of o)
  pub window : (n : ℕ) → clock ≤ n → filter (in_window n) (recents_of o) ≡ filter (in_window n) ts

module _ {h : ℕ} {ts : List ℕ} {clock : ℕ} where
  pub Tracks-later :
      (o : Option IpEntry) (now : ℕ) → clock ≤ now → Tracks h ts clock o → Tracks h ts now o
  Tracks-later o now le t = record {
    active = t.active;
    ascending = t.ascending;
    past = All-map (λ x. x ≤ clock) (λ x. x ≤ now) (recents_of o) (λ x p. omega arith) t.past;
    window = λ n p. t.window n (omega arith);
  }

  pub Tracks-kept :
      (o : Option IpEntry)
      → Tracks h ts clock o
      → Tracks h ts clock (keep_if (λ e. not (is_stale clock e)) o)
  Tracks-kept none t = t
  Tracks-kept (some e) t = elim (Bool-cases (is_stale clock e)) [
    | inl stale ↦ rw stale (record {
      active = sym (is_stale_lem clock e stale).0 ∙ t.active;
      ascending = tt;
      past = tt;
      window = λ n p.
          sym (filter_drained clock n e.recent_connects p (is_stale_lem clock e stale).1)
          ∙ t.window n p;
    })
    | inr fresh ↦ rw fresh t
  ]

  pub Tracks-pruned :
      (o : Option IpEntry)
      → Tracks h ts clock o
      → Tracks h ts clock (some (pruned clock (entry_or_new o)))
  unfolding prune
  Tracks-pruned none t = record { active = t.active; ascending = tt; past = tt; window = t.window }
  Tracks-pruned (some e) t = record {
    active = t.active;
    ascending = prune-Ascending clock 0 e.recent_connects t.ascending;
    past = prune-All clock clock e.recent_connects t.past;
    window = λ n p. filter-prune clock n e.recent_connects p ∙ t.window n p;
  }

  pub Tracks-admit :
      (e : IpEntry)
      → h + 1 < u32_mod
      → Tracks h ts clock (some e)
      → Tracks (suc h) (ts ++ clock ∷ []) clock (
          some (record {
            active = (e.active + 1) % u32_mod;
            recent_connects = e.recent_connects ++ clock ∷ [];
          }))
  Tracks-admit e room t = record {
    active = ground arith;
    ascending = Ascending-snoc 0 clock e.recent_connects (omega arith) t.ascending t.past;
    past = All-append (λ x. x ≤ clock) e.recent_connects (clock ∷ []) t.past (omega arith, tt);
    window = λ n p. ground (
      arith,
      filter-append (in_window n) e.recent_connects (clock ∷ []),
      filter-append (in_window n) ts (clock ∷ []),
      t.window n p,
    );
  }

  pub Tracks-release :
      (e : IpEntry)
      → Tracks (suc h) ts clock (some e)
      → Tracks h ts clock (some (record e { active = e.active - 1 }))
  Tracks-release e t = record {
    active = ground arith;
    ascending = t.ascending;
    past = t.past;
    window = t.window;
  }

  -- How many connections the pruned window of a source counts.
  pub Tracks-length :
      (o : Option IpEntry)
      → Tracks h ts clock o
      → length (pruned clock (entry_or_new o)).recent_connects
        ≡ length (filter (in_window clock) ts)
  unfolding prune
  Tracks-length none t = ap length (t.window clock (omega arith))
  Tracks-length (some e) t =
      ap length (prune-filter clock 0 e.recent_connects t.ascending ∙ t.window clock (omega arith))
