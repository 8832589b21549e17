-- ===== src/Dashboard/Tail/Tests.antt =====
-- The tail on a short log, and the theorems at concrete inputs.
use aegis_honeypot.Prelude.{
  ℕ, ◌≡◌, refl, List, [], ◌∷◌, ◌++◌, arith, length, take, zero, suc, take_all, All, subst, sym,
  ◌==◌, false,
}
use aegis_honeypot.Prelude.Text.{Text, codes, split}
use aegis_honeypot.Dashboard.Tail.{
  max_tail_chunk_bytes, complete, read_bytes, poll_all, lines, read_new_lines, tail_attacks_log,
}
use aegis_honeypot.Dashboard.Tail.Polls.{
  growing, grown, IsTailed, poll_all-IsTailed, tail_attacks_log_stuck,
}

program : Unit {0}
unfolding complete read_bytes poll_all lines read_new_lines tail_attacks_log split
program = tt

abbrev pieces : List (List ℕ)
pieces = (codes "a" ++ 10 ∷ codes "b") ∷ (10 ∷ codes "c") ∷ []

two_lines : poll_all (growing [] pieces) 0 ≡ (4, 97 ∷ 10 ∷ 98 ∷ 10 ∷ [])
unfolding program
two_lines = refl

poll_all-IsTailed_example : IsTailed 0 [] (grown [] pieces) (poll_all (growing [] pieces) 0)
poll_all-IsTailed_example = poll_all-IsTailed 0 [] pieces (omega arith)

-- A line of so many characters that has not ended.
unfoldable letters : ℕ → List ℕ
letters zero = []
letters (suc n) = 97 ∷ letters n

length-letters : (n : ℕ) → length (letters n) ≡ n
unfolding letters
length-letters zero = refl
length-letters (suc n) = omega (arith, length-letters n)

letters_unbroken : (n : ℕ) → All (λ b. (b == 10) ≡ false) (letters n)
unfolding letters
letters_unbroken zero = tt
letters_unbroken (suc n) = (refl, letters_unbroken n)

all_letters : (n : ℕ) → take n (letters n) ≡ letters n
all_letters n = take_all n (letters n) (omega (arith, length-letters n))

-- The decoding of bytes below 128.
abbrev ascii : List ℕ → Text
ascii bytes = bytes

handed_lines : tail_attacks_log ascii (growing [] pieces) 0 ≡ (4, codes "a" ∷ codes "b" ∷ [])
unfolding program
handed_lines = refl

tail_attacks_log_stuck_example :
    tail_attacks_log ascii (growing (letters max_tail_chunk_bytes) ((10 ∷ []) ∷ [])) 0 ≡ (0, [])
tail_attacks_log_stuck_example =
    tail_attacks_log_stuck ascii 0 (letters max_tail_chunk_bytes) ((10 ∷ []) ∷ [])
      (omega (arith, length-letters max_tail_chunk_bytes))
      (subst (All (λ b. (b == 10) ≡ false)) (sym (all_letters max_tail_chunk_bytes))
        (letters_unbroken max_tail_chunk_bytes))
