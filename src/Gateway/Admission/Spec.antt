-- ===== src/Gateway/Admission/Spec.antt =====
-- What the guard promises, told by the open connections and the history alone, and the invariant
-- that ties the table to them.
use aegis_honeypot.Prelude.{
  ℕ, suc, ◌≤◌, ◌<◌, ◌≡◌, inl, inr, Bool-cases, Bool, true, false, not, ◌&&◌, List, [], ◌∷◌, ◌++◌,
  none, some, arith, ltb, leb, if◌then◌else◌, length, count, contains, erase,
}
use aegis_honeypot.Prelude.HashMap.{
  get, insert, remove, retain, NodupKeys, get-insert, get-remove, get-retain, length-insert,
  length-remove-le, length-retain-le, insert-NodupKeys, remove-NodupKeys, retain-NodupKeys,
}
use aegis_honeypot.Net.{IpAddr, ip_eq}
use aegis_honeypot.Gateway.Admission.{
  IpEntry, GuardState, IpConnectionGuard, u32_mod, max_tracked_prefixes, is_stale, is_full, bumped,
  sweep_is_due, sweep, admit_entry, put_entry,
}
use aegis_honeypot.Gateway.Admission.World.{times_of, window_count}
use aegis_honeypot.Gateway.Admission.Window.{Tracks, Tracks-later, Tracks-kept}

-- The table of `st` agrees with the connections `held` and the admissions `log`.
pub record Agrees (held : List IpAddr) (log : List (IpAddr × ℕ)) (clock : ℕ) (st : GuardState)
    : Type 0 where
  pub nodup : NodupKeys st.entries
  pub bounded : length st.entries ≤ max_tracked_prefixes
  pub tracks : (k : IpAddr) → Tracks (count k held) (times_of k log) clock (get k st.entries)

pub count-le-length : (k : IpAddr) (l : List IpAddr) → count k l ≤ length l
count-le-length k [] = omega arith
count-le-length k (x ∷ xs) = ground (arith, count-le-length k xs)

pub times_of-snoc :
    (k j : IpAddr) (t : ℕ) (l : List (IpAddr × ℕ))
    → times_of k (l ++ (j, t) ∷ [])
      ≡ (if ip_eq.beq j k then times_of k l ++ t ∷ [] else times_of k l)
times_of-snoc k j t [] = ground arith
times_of-snoc k j t ((i, s) ∷ l) = ground (arith, times_of-snoc k j t l)

pub count-erase :
    (k j : IpAddr) (l : List IpAddr)
    → contains l j ≡ true
    → count k l ≡ (if ip_eq.beq j k then suc (count k (erase j l)) else count k (erase j l))
count-erase k j [] h = ground arith
count-erase k j (x ∷ xs) h =
    ground (arith, ip_eq.beq_iff x j, ip_eq.beq_iff x k, ip_eq.beq_iff j k, count-erase k j xs)

module _ {held : List IpAddr} {log : List (IpAddr × ℕ)} {clock : ℕ} where
  later-Agrees :
      (now : ℕ) (st : GuardState) → clock ≤ now → Agrees held log clock st → Agrees held log now st
  later-Agrees now st le a = record {
    nodup = a.nodup;
    bounded = a.bounded;
    tracks = λ k. Tracks-later (get k st.entries) now le (a.tracks k);
  }

  swept-Agrees :
      (st : GuardState)
      → Agrees held log clock st
      → Agrees held log clock
          (record { entries = retain (λ e. not (is_stale clock e)) st.entries; last_sweep = clock })
  swept-Agrees st a = record {
    nodup = retain-NodupKeys (λ e. not (is_stale clock e)) st.entries a.nodup;
    bounded = omega (arith, length-retain-le (λ e. not (is_stale clock e)) st.entries, a.bounded);
    tracks = λ k.
        rw (get-retain (λ e. not (is_stale clock e)) k st.entries a.nodup)
          (Tracks-kept (get k st.entries) (a.tracks k));
  }

  -- Writing one entry that agrees with a history in which only its key has moved on.
  pub put-Agrees :
      (held' : List IpAddr) (log' : List (IpAddr × ℕ)) (st : GuardState) (key : IpAddr)
      (e : IpEntry)
      → is_full st key ≡ false
      → Agrees held log clock st
      → Tracks (count key held') (times_of key log') clock (some e)
      → ((k : IpAddr)
          → ip_eq.beq key k ≡ false
          → (count k held' ≡ count k held) × (times_of k log' ≡ times_of k log))
      → Agrees held' log' clock (record st { entries = insert key e st.entries })
  put-Agrees held' log' st key e room a t same = record {
    nodup = insert-NodupKeys key e st.entries a.nodup;
    bounded = ground (arith, length-insert key e st.entries, a.bounded);
    tracks = λ k. elim (Bool-cases (ip_eq.beq key k)) [
      | inl hit ↦ rw (get-insert key k e st.entries, hit, ← (ip_eq.beq_iff key k).0 hit) t
      | inr miss ↦
          rw (get-insert key k e st.entries, miss, (same k miss).0, (same k miss).1) (a.tracks k)
    ];
  }

  -- Dropping the entry of a key with nothing left to say.
  pub remove-Agrees :
      (held' : List IpAddr) (st : GuardState) (key : IpAddr)
      → Agrees held log clock st
      → Tracks (count key held') (times_of key log) clock none
      → ((k : IpAddr) → ip_eq.beq key k ≡ false → count k held' ≡ count k held)
      → Agrees held' log clock (record st { entries = remove key st.entries })
  remove-Agrees held' st key a t same = record {
    nodup = remove-NodupKeys key st.entries a.nodup;
    bounded = omega (arith, length-remove-le key st.entries, a.bounded);
    tracks = λ k. elim (Bool-cases (ip_eq.beq key k)) [
      | inl hit ↦ rw (get-remove key k st.entries, hit, ← (ip_eq.beq_iff key k).0 hit) t
      | inr miss ↦ rw (get-remove key k st.entries, miss, same k miss) (a.tracks k)
    ];
  }

pub sweep-Agrees :
    {held : List IpAddr} {log : List (IpAddr × ℕ)} {clock : ℕ} (now : ℕ) (st : GuardState)
    → clock ≤ now
    → Agrees held log clock st
    → Agrees held log now (sweep now st)
unfolding sweep
sweep-Agrees now st le a = elim (Bool-cases (sweep_is_due now st)) [
  | inl due ↦ rw (due, sweep) (swept-Agrees st (later-Agrees now st le a))
  | inr not_due ↦ rw (not_due, sweep) (later-Agrees now st le a)
]

-- Whether a connection with this key is to be admitted, table space apart: by the open connections
-- and the admissions of the last minute.
abbrev pub spec_admits : ℕ → ℕ → List IpAddr → List (IpAddr × ℕ) → IpAddr → ℕ → Bool
spec_admits max_per_ip max_per_minute held log key now =
    not (ltb 0 max_per_ip && leb max_per_ip (count key held))
    && not (ltb 0 max_per_minute && leb max_per_minute (window_count key now log))

pub admit_entry_lem :
    (g : IpConnectionGuard) (st : GuardState) (key : IpAddr) (now : ℕ) (e : IpEntry)
    (held : List IpAddr) (log : List (IpAddr × ℕ))
    → e.active ≡ count key held
    → length e.recent_connects ≡ window_count key now log
    → (0 < g.max_per_minute → window_count key now log < u32_mod)
    → admit_entry g st key now e ≡ (
        if spec_admits g.max_per_ip g.max_per_minute held log key now
        then (put_entry g st key (bumped now e), true)
        else (put_entry g st key e, false))
unfolding admit_entry
admit_entry_lem g st key now e held log active recent small = ground arith
