-- ===== src/Prelude/Prefix.antt =====
-- Prefixes of texts, and what is behind a character that separates.
use aegis_honeypot.Prelude.Tests.{◌==◌, if◌then◌else◌, if_ind}
use aegis_honeypot.Prelude.Lists.{length, drop}
use aegis_honeypot.Prelude.Text.{Text, starts_with, strip_prefix}
use Prim.Native.Nat.{ℕ}
use mathlib.Core.Path.{◌≡◌, refl, ap, ◌∙◌}
use mathlib.Core.Logic.{◌↔◌}
use mathlib.Core.Bool.{true, false}
use mathlib.Core.Option.{Option, none, some}
use mathlib.Core.List.{[], ◌∷◌, ◌++◌}
use native.Mathlib.Omega.{arith}

starts_with-append : (s p : Text) → starts_with s p ≡ true → s ≡ p ++ drop (length p) s
unfolding starts_with
starts_with-append s [] h = refl
starts_with-append [] (c ∷ p) h = ground (arith, h)
starts_with-append (d ∷ s) (c ∷ p) h = ground (arith, h, starts_with-append s p)

starts_with_own : (p t : Text) → starts_with (p ++ t) p ≡ true
unfolding starts_with
starts_with_own [] t = refl
starts_with_own (c ∷ p) t = ground (arith, starts_with_own p t)

drop_own : (p t : Text) → drop (length p) (p ++ t) ≡ t
drop_own [] t = refl
drop_own (c ∷ p) t = drop_own p t

some_same : (s t : Text) → some s ≡ some t → s ≡ t
some_same s t e = cc

-- A prefix that is stripped was there.
pub strip_prefix-append : (s p t : Text) → strip_prefix s p ≡ some t → s ≡ p ++ t
strip_prefix-append s p t =
    if_ind (λ (o : Option Text). o ≡ some t → s ≡ p ++ t) (starts_with s p)
      (λ there. λ e. starts_with-append s p there ∙ ap (λ z. p ++ z) (some_same _ t e))
      (λ off. λ e. ground (arith, e))

pub strip_prefix_own : (p t : Text) → strip_prefix (p ++ t) p ≡ some t
strip_prefix_own p t = rw (starts_with_own p t) (ap some (drop_own p t))

pub strip_prefix_iff : (s p t : Text) → (strip_prefix s p ≡ some t) ↔ (s ≡ p ++ t)
strip_prefix_iff s p t =
    (λ e. strip_prefix-append s p t e, λ e. ap (λ z. strip_prefix z p) e ∙ strip_prefix_own p t)

pub strip_prefix-none_iff : (s p : Text) → (strip_prefix s p ≡ none) ↔ (starts_with s p ≡ false)
strip_prefix-none_iff s p =
    if_ind (λ (o : Option Text). (o ≡ none) ↔ (starts_with s p ≡ false)) (starts_with s p)
      (λ on. (λ e. ground (arith, e), λ h. ground (arith, on, h))) (λ off. (λ e. off, λ h. refl))

pub strip_prefix-cons :
    (d : ℕ) (s : Text) (c : ℕ) (p : Text)
    → strip_prefix (d ∷ s) (c ∷ p) ≡ (if d == c then strip_prefix s p else none)
unfolding starts_with
strip_prefix-cons d s c p = ground arith
