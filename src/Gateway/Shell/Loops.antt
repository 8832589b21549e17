-- ===== src/Gateway/Shell/Loops.antt =====
-- The loops of the shell end: the loop that strips `sudo`, and the calls of `dispatch` on the pieces
-- between `;`.
use aegis_honeypot.Prelude.{
  ℕ, zero, suc, ◌≤◌, ◌<◌, ◌≡◌, refl, sym, ap, false, List, [], ◌∷◌, Option, none, some, arith,
  if_ind, if◌then◌else◌, length, length-drop, ◌==◌, All,
}
use aegis_honeypot.Prelude.Text.{
  Text, codes, trim, trim-All, length-trim_start, has_char, split, split-All, strip_prefix,
  starts_with,
}
use aegis_honeypot.Gateway.Vfs.{VirtualFileSystem}
use aegis_honeypot.Gateway.Shell.{
  Redirect, parse_redirect, sudo_rest, strip_once, stripped, strip_sudo, dispatch_pure, in_turn,
  unredirected, dispatch_body, dispatch_fuel, dispatch,
}
use aegis_honeypot.Gateway.Shell.Replies.{World}

abbrev IsShorter : ℕ → Option Text → Type 0
IsShorter n none = Unit
IsShorter n (some s) = length s < n

sudo_rest-IsShorter : (n : ℕ) (o : Option Text) → IsShorter n o → IsShorter n (sudo_rest o)
sudo_rest-IsShorter n none h = tt
sudo_rest-IsShorter n (some []) h = h
sudo_rest-IsShorter n (some (c ∷ rest)) h =
    if_ind (IsShorter n) (c == 32) (λ _. omega (arith, length-trim_start (c ∷ rest))) (λ _. tt)

strip_once-IsShorter : (cmd : Text) → IsShorter (length cmd) (strip_once cmd)
unfolding strip_once starts_with
strip_once-IsShorter [] = tt
strip_once-IsShorter (c ∷ cmd) =
    sudo_rest-IsShorter (suc (length cmd)) (strip_prefix (c ∷ cmd) (codes "sudo")) (
      if_ind (IsShorter (suc (length cmd))) (starts_with (c ∷ cmd) (codes "sudo"))
        (λ _. omega (arith, length-drop 3 cmd)) (λ _. tt))

strip_sudo-broken :
    (fuel : ℕ) (cmd : Text) (o : Option Text)
    → strip_once cmd ≡ o
    → IsShorter (length cmd) o
    → length cmd ≤ suc fuel
    → ((s : Text) → length s ≤ fuel → strip_once (strip_sudo fuel s) ≡ none)
    → strip_once (stripped cmd o (strip_sudo fuel)) ≡ none
strip_sudo-broken fuel cmd none e s h f = e
strip_sudo-broken fuel cmd (some r) e s h f = f r (omega arith)

ends_at : (fuel : ℕ) (cmd : Text) → length cmd ≤ fuel → strip_once (strip_sudo fuel cmd) ≡ none
unfolding strip_sudo
ends_at zero [] h = refl
ends_at zero (c ∷ cmd) h = ground arith
ends_at (suc n) cmd h =
    strip_sudo-broken n cmd (strip_once cmd) refl (strip_once-IsShorter cmd) h (ends_at n)

same_from :
    (o : Option Text) (cmd : Text) (f g : Text → Text)
    → IsShorter (length cmd) o
    → ((s : Text) → length s < length cmd → f s ≡ g s)
    → stripped cmd o f ≡ stripped cmd o g
same_from none cmd f g h e = refl
same_from (some r) cmd f g h e = e r h

same_at :
    (m n : ℕ) (cmd : Text) → length cmd ≤ m → length cmd ≤ n → strip_sudo m cmd ≡ strip_sudo n cmd
unfolding strip_sudo
same_at zero zero cmd h k = refl
same_at zero (suc n) [] h k = refl
same_at zero (suc n) (c ∷ cmd) h k = ground arith
same_at (suc m) zero [] h k = refl
same_at (suc m) zero (c ∷ cmd) h k = ground arith
same_at (suc m) (suc n) cmd h k =
    same_from (strip_once cmd) cmd (strip_sudo m) (strip_sudo n) (strip_once-IsShorter cmd)
      (λ s l. same_at m n s (omega arith) (omega arith))

-- With as many turns as the command has characters, the loop that strips `sudo` reaches a command at
-- which it breaks, and more turns do not change the answer.
pub strip_sudo-ends :
    (fuel : ℕ) (cmd : Text)
    → length cmd ≤ fuel
    → (strip_once (strip_sudo fuel cmd) ≡ none)
      × (strip_sudo fuel cmd ≡ strip_sudo (length cmd) cmd)
strip_sudo-ends fuel cmd h = (ends_at fuel cmd h, same_at fuel (length cmd) cmd h (omega arith))

abbrev NoSemicolon : Text → Type 0
NoSemicolon s = All (λ c. (c == 59) ≡ false) s

has_char-NoSemicolon : (s : Text) → NoSemicolon s → has_char 59 s ≡ false
has_char-NoSemicolon [] h = refl
has_char-NoSemicolon (c ∷ s) h = rw (h.0) (has_char-NoSemicolon s h.1)

module _ (w : World) where
  abbrev Run : Type 0
  Run = Text → VirtualFileSystem → Text × VirtualFileSystem

  unredirected_alone :
      (f g : Run) (cmd : Text) (o : Option Redirect) (v : VirtualFileSystem)
      → has_char 59 cmd ≡ false
      → unredirected w f cmd o v ≡ unredirected w g cmd o v
  unredirected_alone f g cmd none v h = rw h refl
  unredirected_alone f g cmd (some r) v h = refl

  dispatch_body_alone :
      (f g : Run) (cmd : Text) (v : VirtualFileSystem)
      → NoSemicolon cmd
      → dispatch_body w f cmd v ≡ dispatch_body w g cmd v
  unfolding dispatch_body
  dispatch_body_alone f g cmd v h =
      unredirected_alone f g (trim cmd) (parse_redirect (trim cmd)) v
        (has_char-NoSemicolon (trim cmd) (trim-All (λ c. (c == 59) ≡ false) cmd h))

  module _ (f g : Run)
      (same : (c : Text) (v : VirtualFileSystem) → NoSemicolon c → f c v ≡ g c v) where
    in_turn_same :
        (cs : List Text) (v : VirtualFileSystem)
        → All NoSemicolon cs
        → in_turn w f cs v ≡ in_turn w g cs v
    in_turn_same [] v h = refl
    in_turn_same (c ∷ cs) v h =
        rw (same (trim c) v (trim-All (λ x. (x == 59) ≡ false) c h.0))
          (rw (in_turn_same cs (g (trim c) v).1 h.1) refl)

    unredirected_same :
        (cmd : Text) (o : Option Redirect) (v : VirtualFileSystem)
        → unredirected w f cmd o v ≡ unredirected w g cmd o v
    unredirected_same cmd none v =
        ap (λ (r : Text × VirtualFileSystem). if has_char 59 cmd then r else dispatch_pure w cmd v)
          (in_turn_same (split 59 cmd) v (split-All (λ x. (x == 59) ≡ false) 59 cmd (λ x e. e)))
    unredirected_same cmd (some r) v = refl

  dispatch_fuel_more :
      (n : ℕ) (cmd : Text) (v : VirtualFileSystem)
      → dispatch_fuel w (suc (suc n)) cmd v ≡ dispatch_fuel w 2 cmd v
  unfolding dispatch_fuel dispatch_body
  dispatch_fuel_more n cmd v =
      unredirected_same (dispatch_fuel w (suc n)) (dispatch_fuel w 1)
        (λ c u h. dispatch_body_alone (dispatch_fuel w n) (dispatch_fuel w zero) c u h) (trim cmd)
        (parse_redirect (trim cmd)) v

  -- `dispatch` solves the equation by which the source defines it, with its call of itself on each
  -- piece, and two levels of calls are as good as more.
  pub dispatch-dispatch_body :
      (n : ℕ) (cmd : Text) (v : VirtualFileSystem)
      → (dispatch w cmd v ≡ dispatch_body w (dispatch w) cmd v)
        × (dispatch_fuel w (suc (suc n)) cmd v ≡ dispatch w cmd v)
  unfolding dispatch dispatch_fuel
  dispatch-dispatch_body n cmd v = (sym (dispatch_fuel_more 1 cmd v), dispatch_fuel_more n cmd v)
