-- ===== src/Dashboard/Queries/Ranking.antt =====
-- The rankings of the dashboard.
use mathlib.Core.List.{Perm}
use aegis_honeypot.Prelude.{
  ℕ, min, ◌≡◌, ◌<◌, ◌⊎◌, All-map, refl, sym, subst, true, false, List, [], ◌∷◌, ◌++◌, arith, length,
  take, drop, take-append-drop, length-take, All, All-append_left, All-append_right,
}
use aegis_honeypot.Prelude.HashMap.{HashMap}
use aegis_honeypot.Prelude.Sorting.{
  text_le, text_le_total, text_le_trans, sort_by, IsSorted, length-sort_by, sort_by-Perm,
  sort_by-IsSorted,
}
use aegis_honeypot.Prelude.Text.{Text}
use aegis_honeypot.Dashboard.Queries.{Ranked, rank_le, ranked_of, top_ranked, top_n_cap}

rank_le_total : (a b : Ranked) → rank_le a b ≡ false → rank_le b a ≡ true
rank_le_total a b h = ground (arith, text_le_total a.value b.value)

rank_le_trans : (a b c : Ranked) → rank_le a b ≡ true → rank_le b c ≡ true → rank_le a c ≡ true
rank_le_trans a b c h k = ground (arith, text_le_trans a.value b.value c.value)

-- A larger count, or the same count and a text that is not larger.
abbrev pub Outranks : Ranked → Ranked → Type 0
Outranks a b = (b.count < a.count) ⊎ ((a.count ≡ b.count) × (text_le a.value b.value ≡ true))

rank_le-Outranks : (a b : Ranked) → rank_le a b ≡ true → Outranks a b
rank_le-Outranks a b h = ground arith

rank_le-All :
    (a : Ranked) (bs : List Ranked) → All (λ b. rank_le a b ≡ true) bs → All (Outranks a) bs
rank_le-All a bs h = All-map (λ b. rank_le a b ≡ true) (Outranks a) bs (rank_le-Outranks a) h

-- Every element of the first list outranks every one of the second.
abbrev pub IsAbove : List Ranked → List Ranked → Type 0
IsAbove top rest = All (λ a. All (Outranks a) rest) top

-- Every element outranks those after it.
abbrev pub IsRanked : List Ranked → Type 0
IsRanked [] = Unit
IsRanked (a ∷ rest) = All (Outranks a) rest × IsRanked rest

IsSorted-append : (xs ys : List Ranked) → IsSorted rank_le (xs ++ ys) → IsRanked xs × IsAbove xs ys
IsSorted-append [] ys h = (tt, tt)
IsSorted-append (x ∷ xs) ys h =
    let rest : IsRanked xs × IsAbove xs ys = IsSorted-append xs ys h.1 in
    let first : All (Outranks x) (xs ++ ys) = rank_le-All x (xs ++ ys) h.0 in
    (
      (All-append_left (Outranks x) xs ys first, rest.0),
      (All-append_right (Outranks x) xs ys first, rest.1),
    )

length-ranked_of {ℓ} :
    {K : Type ℓ} (show : K → Text) (counts : HashMap K ℕ)
    → length (ranked_of show counts) ≡ length counts
length-ranked_of show [] = refl
length-ranked_of show ((k, n) ∷ m) = omega (arith, length-ranked_of show m)

-- A ranking is in order, the larger counts first and equal counts by their text; it has ten entries,
-- or all where there are fewer; with the entries that it leaves out it is a rearrangement of all
-- counts, and each of its entries ranks above each of those.
pub top_ranked-IsRanked {ℓ} :
    {K : Type ℓ} (show : K → Text) (counts : HashMap K ℕ)
    → IsRanked (top_ranked show counts)
      × (length (top_ranked show counts) ≡ min top_n_cap (length counts))
      × ((rest : List Ranked) × Perm (top_ranked show counts ++ rest) (ranked_of show counts)
          × IsAbove (top_ranked show counts) rest)
unfolding top_ranked
top_ranked-IsRanked show counts =
    let all : List Ranked = sort_by rank_le (ranked_of show counts) in
    let parts : take top_n_cap all ++ drop top_n_cap all ≡ all = take-append-drop top_n_cap all in
    let order : IsRanked (take top_n_cap all) × IsAbove (take top_n_cap all) (drop top_n_cap all) =
      IsSorted-append (take top_n_cap all) (drop top_n_cap all) (
        subst (IsSorted rank_le) (sym parts)
          (sort_by-IsSorted rank_le rank_le_total rank_le_trans (ranked_of show counts))) in
    (
      order.0,
      omega (
        arith,
        length-take top_n_cap all,
        length-sort_by rank_le (ranked_of show counts),
        length-ranked_of show counts,
      ),
      (
        drop top_n_cap all,
        subst (λ z. Perm z (ranked_of show counts)) (sym parts)
            (sort_by-Perm rank_le (ranked_of show counts)),
        order.1,
      ),
    )
