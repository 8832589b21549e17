-- ===== src/Gateway/Admission/Invariant.antt =====
-- The guard's table agrees with the open connections and the history, after every call.
use aegis_honeypot.Prelude.{
  ℕ, suc, ◌-◌, ◌≤◌, ◌<◌, ◌≡◌, refl, sym, ap, ◌∙◌, inl, inr, Bool-cases, Bool, true, false, ◌&&◌,
  List, [], ◌∷◌, ◌++◌, Option, none, some, arith, if◌then◌else◌, length, length-append, filter,
  filter-append, subst, count, contains, erase, is_empty, ◌==◌,
}
use aegis_honeypot.Prelude.HashMap.{get}
use aegis_honeypot.Net.{IpAddr, ip_eq}
use aegis_honeypot.Gateway.Admission.{
  IpEntry, GuardState, IpConnectionGuard, u32_mod, in_window, is_full, bumped, admission_key, new,
  sweep, pruned, entry_or_new, admit_entry, admit_swept, put_entry, try_admit, release,
  release_entry, release_found,
}
use aegis_honeypot.Gateway.Admission.World.{
  World, start, connected, disconnect, Step, connects, disconnects, Reach, here, next, times_of,
  window_count,
}
use aegis_honeypot.Gateway.Admission.Window.{
  Tracks, Tracks-pruned, Tracks-admit, Tracks-release, Tracks-length,
}
use aegis_honeypot.Gateway.Admission.Spec.{
  Agrees, spec_admits, admit_entry_lem, sweep-Agrees, put-Agrees, remove-Agrees, count-le-length,
  count-erase, times_of-snoc,
}

pub record Inv (max_per_ip max_per_minute : ℕ) (w : World) : Type 0 where
  pub per_ip : w.guard.max_per_ip ≡ max_per_ip
  pub per_minute : w.guard.max_per_minute ≡ max_per_minute
  pub agrees : Agrees w.held w.admitted w.clock w.guard.state
  pub capped : (k : IpAddr) → 0 < max_per_ip → count k w.held ≤ max_per_ip
  pub rated :
      (k : IpAddr) (n : ℕ)
      → w.clock ≤ n
      → 0 < max_per_minute
      → window_count k n w.admitted ≤ max_per_minute

window_mono :
    (now n : ℕ) (ts : List ℕ)
    → now ≤ n
    → length (filter (in_window n) ts) ≤ length (filter (in_window now) ts)
window_mono now n [] le = omega arith
window_mono now n (t ∷ ts) le = ground (arith, window_mono now n ts le)

window-snoc :
    (now n : ℕ) (ts : List ℕ)
    → now ≤ n
    → length (filter (in_window n) (ts ++ now ∷ [])) ≤ suc (length (filter (in_window now) ts))
window-snoc now n ts le = rw (filter-append (in_window n) ts (now ∷ [])) (
    ground (
      arith,
      length-append (filter (in_window n) ts) (filter (in_window n) (now ∷ [])),
      window_mono now n ts le,
    ))

-- The three ways a connection fares: no room in the table, refused by a limit, admitted.
pub data Outcome (g : IpConnectionGuard) (held : List IpAddr) (log : List (IpAddr × ℕ))
    (ip : IpAddr) (now : ℕ) (r : IpConnectionGuard × Bool) : Type 0 where
  full :
      is_full (sweep now g.state) (admission_key ip) ≡ true
      → r ≡ (record g { state = sweep now g.state }, false)
      → Outcome g held log ip now r
  limited :
      is_full (sweep now g.state) (admission_key ip) ≡ false
      → spec_admits g.max_per_ip g.max_per_minute held log (admission_key ip) now ≡ false
      → r ≡ (
        put_entry g
            (sweep now g.state)
            (admission_key ip)
            (pruned now (entry_or_new (get (admission_key ip) (sweep now g.state).entries))),
        false,
      )
      → Outcome g held log ip now r
  admitted :
      is_full (sweep now g.state) (admission_key ip) ≡ false
      → spec_admits g.max_per_ip g.max_per_minute held log (admission_key ip) now ≡ true
      → r ≡ (
        put_entry g (sweep now g.state) (admission_key ip) (
            bumped now
              (pruned now (entry_or_new (get (admission_key ip) (sweep now g.state).entries)))),
        true,
      )
      → Outcome g held log ip now r

module _ {mpi mpm : ℕ} (small : mpm < u32_mod) {w : World} (inv : Inv mpi mpm w) (ip : IpAddr)
    (now : ℕ) (le : w.clock ≤ now) where
  abbrev st : GuardState
  st = sweep now w.guard.state

  abbrev key : IpAddr
  key = admission_key ip

  abbrev found : IpEntry
  found = pruned now (entry_or_new (get key st.entries))

  swept : Agrees w.held w.admitted now st
  swept = sweep-Agrees now w.guard.state le inv.agrees

  found-Tracks : Tracks (count key w.held) (times_of key w.admitted) now (some found)
  found-Tracks = Tracks-pruned (get key st.entries) (swept.tracks key)

  found_lem : admit_entry w.guard st key now found ≡ (
      if spec_admits w.guard.max_per_ip w.guard.max_per_minute w.held w.admitted key now
      then (put_entry w.guard st key (bumped now found), true)
      else (put_entry w.guard st key found, false))
  found_lem =
      admit_entry_lem w.guard st key now found w.held w.admitted found-Tracks.active
        (Tracks-length (get key st.entries) (swept.tracks key))
        (λ p. ground (arith, inv.per_minute, inv.rated key now le))

  pub try_admit-Outcome : Outcome w.guard w.held w.admitted ip now (try_admit w.guard ip now)
  unfolding try_admit admit_swept
  try_admit-Outcome = elim (Bool-cases (is_full st key)) [
    | inl f ↦ full f (rw f)
    | inr f ↦
        elim (Bool-cases
          (spec_admits w.guard.max_per_ip w.guard.max_per_minute w.held w.admitted key now)) [
            | inl s ↦ admitted f s (rw f (rw s at found_lem))
            | inr s ↦ limited f s (rw f (rw s at found_lem))
          ]
  ]

  -- What an admission adds to a source's history.
  abbrev log' : List (IpAddr × ℕ)
  log' = w.admitted ++ (key, now) ∷ []

  self : ip_eq.beq key key ≡ true
  self = (ip_eq.beq_iff key key).1 refl

  bumped-Tracks :
      length w.held < u32_mod - 1
      → Tracks (count key (key ∷ w.held)) (times_of key log') now (some (bumped now found))
  bumped-Tracks room =
      rw (times_of-snoc key key now w.admitted, self)
        (Tracks-admit found (omega (arith, count-le-length key w.held)) found-Tracks)

  module _
      (s : spec_admits w.guard.max_per_ip w.guard.max_per_minute w.held w.admitted key now
        ≡ true) where
    capped_self : 0 < mpi → count key (key ∷ w.held) ≤ mpi
    capped_self pos = rw self (ground (arith, inv.per_ip, s))

    below : 0 < mpm → window_count key now w.admitted < mpm
    below pos = ground (arith, inv.per_minute, s)

    rated_self : (n : ℕ) → now ≤ n → 0 < mpm → window_count key n log' ≤ mpm
    rated_self n p pos =
        rw (times_of-snoc key key now w.admitted, self)
          (omega (arith, window-snoc now n (times_of key w.admitted) p, below pos))

    capped_after : (k : IpAddr) → 0 < mpi → count k (key ∷ w.held) ≤ mpi
    capped_after k pos = elim (Bool-cases (ip_eq.beq key k)) [
      | inl hit ↦
          subst (λ q. count q (key ∷ w.held) ≤ mpi) ((ip_eq.beq_iff key k).0 hit) (capped_self pos)
      | inr miss ↦ rw miss (inv.capped k pos)
    ]

    rated_after : (k : IpAddr) (n : ℕ) → now ≤ n → 0 < mpm → window_count k n log' ≤ mpm
    rated_after k n p pos = elim (Bool-cases (ip_eq.beq key k)) [
      | inl hit ↦
          subst (λ q. window_count q n log' ≤ mpm) ((ip_eq.beq_iff key k).0 hit)
            (rated_self n p pos)
      | inr miss ↦ rw (times_of-snoc k key now w.admitted, miss) (inv.rated k n (omega arith) pos)
    ]

  connected-Inv :
      (r : IpConnectionGuard × Bool)
      → length w.held < u32_mod - 1
      → Outcome w.guard w.held w.admitted ip now r
      → Inv mpi mpm (connected w ip now r)
  connected-Inv r room (full f e) = rw e (record {
    per_ip = inv.per_ip;
    per_minute = inv.per_minute;
    agrees = swept;
    capped = inv.capped;
    rated = λ k n p. inv.rated k n (omega arith);
  })
  connected-Inv r room (limited f s e) = rw e (record {
    per_ip = inv.per_ip;
    per_minute = inv.per_minute;
    agrees = put-Agrees w.held w.admitted st key found f swept found-Tracks (λ k _. (refl, refl));
    capped = inv.capped;
    rated = λ k n p. inv.rated k n (omega arith);
  })
  connected-Inv r room (admitted f s e) = rw e (record {
    per_ip = inv.per_ip;
    per_minute = inv.per_minute;
    agrees =
        put-Agrees (key ∷ w.held) log' st key (bumped now found) f swept (bumped-Tracks room)
          (λ k miss. (ground arith, ground (arith, times_of-snoc k key now w.admitted)));
    capped = λ k pos. capped_after s k pos;
    rated = λ k n p pos. rated_after s k n p pos;
  })

release_found_config :
    (g : IpConnectionGuard) (key : IpAddr) (o : Option IpEntry)
    → ((release_found g key o).max_per_ip ≡ g.max_per_ip)
      × ((release_found g key o).max_per_minute ≡ g.max_per_minute)
unfolding release_entry
release_found_config g key none = (refl, refl)
release_found_config g key (some e) = ground arith

is_empty-eq : (xs : List ℕ) → is_empty xs ≡ true → xs ≡ []
is_empty-eq [] h = refl
is_empty-eq (x ∷ xs) h = ground arith

-- An entry with no connection and an empty window says what no entry says.
Tracks-none :
    {h : ℕ} {ts : List ℕ} {clock : ℕ} (e : IpEntry)
    → Tracks h ts clock (some (record e { active = e.active - 1 }))
    → e.active - 1 ≡ 0
    → is_empty e.recent_connects ≡ true
    → Tracks h ts clock none
Tracks-none e t idle drained = record {
  active = sym idle ∙ t.active;
  ascending = tt;
  past = tt;
  window =
      λ n p. ap (filter (in_window n)) (sym (is_empty-eq e.recent_connects drained)) ∙ t.window n p;
}

module _ {mpi mpm : ℕ} {w : World} (inv : Inv mpi mpm w) (ip : IpAddr)
    (is_open : contains w.held (admission_key ip) ≡ true) where
  abbrev left : List IpAddr
  left = erase (admission_key ip) w.held

  open_count : count (admission_key ip) w.held ≡ suc (count (admission_key ip) left)
  open_count = rw (
    count-erase (admission_key ip) (admission_key ip) w.held is_open,
    (ip_eq.beq_iff (admission_key ip) (admission_key ip)).1 refl,
  )

  others : (k : IpAddr) → ip_eq.beq (admission_key ip) k ≡ false → count k left ≡ count k w.held
  others k miss = rw (count-erase k (admission_key ip) w.held is_open, miss)

  erase-le : (k : IpAddr) → count k left ≤ count k w.held
  erase-le k = ground (arith, count-erase k (admission_key ip) w.held is_open)

  has_room :
      (e : IpEntry)
      → get (admission_key ip) w.guard.state.entries ≡ some e
      → is_full w.guard.state (admission_key ip) ≡ false
  has_room e h = rw h (ground arith)

  release_found-Agrees :
      (o : Option IpEntry)
      → get (admission_key ip) w.guard.state.entries ≡ o
      → Tracks
          (suc (count (admission_key ip) left))
          (times_of (admission_key ip) w.admitted)
          w.clock
          o
      → Agrees left w.admitted w.clock (release_found w.guard (admission_key ip) o).state
  unfolding release_entry
  release_found-Agrees none h t = absurd (omega (arith, t.active))
  release_found-Agrees (some e) h t =
      elim (Bool-cases ((e.active - 1) == 0 && is_empty e.recent_connects)) [
        | inl gone ↦
            rw (gone, release_entry)
              (remove-Agrees left w.guard.state (admission_key ip) inv.agrees
                (Tracks-none e (Tracks-release e t) (ground arith) (ground arith)) others)
        | inr stays ↦
            rw (stays, release_entry)
              (put-Agrees left w.admitted w.guard.state (admission_key ip) _ (has_room e h)
                inv.agrees (Tracks-release e t) (λ k miss. (others k miss, refl)))
      ]

  disconnect-Inv : Inv mpi mpm (disconnect w ip)
  unfolding release
  disconnect-Inv = record {
    per_ip = (release_found_config w.guard (admission_key ip) _).0 ∙ inv.per_ip;
    per_minute = (release_found_config w.guard (admission_key ip) _).1 ∙ inv.per_minute;
    agrees = release_found-Agrees _ refl (rw (← open_count) (inv.agrees.tracks (admission_key ip)));
    capped = λ k pos. omega (arith, erase-le k, inv.capped k pos);
    rated = inv.rated;
  }

start-Inv : (mpi mpm now : ℕ) → Inv mpi mpm (start mpi mpm now)
unfolding new get
start-Inv mpi mpm now = record {
  per_ip = refl;
  per_minute = refl;
  agrees = record {
    nodup = tt;
    bounded = omega arith;
    tracks = λ k. record { active = refl; ascending = tt; past = tt; window = λ n p. refl };
  };
  capped = λ k pos. omega arith;
  rated = λ k n p pos. omega arith;
}

Step-Inv : {mpi mpm : ℕ} {w v : World} → mpm < u32_mod → Inv mpi mpm w → Step w v → Inv mpi mpm v
Step-Inv small inv (connects ip now le room) =
    connected-Inv small inv ip now le _ room (try_admit-Outcome small inv ip now le)
Step-Inv small inv (disconnects ip is_open) = disconnect-Inv inv ip is_open

-- So it is in every world that a fresh guard reaches.
pub Reach-Inv :
    {mpi mpm now : ℕ} {w : World} → mpm < u32_mod → Reach (start mpi mpm now) w → Inv mpi mpm w
Reach-Inv {mpi} {mpm} {now} small here = start-Inv mpi mpm now
Reach-Inv small (next r s) = Step-Inv small (Reach-Inv small r) s
