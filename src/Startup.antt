-- ===== src/Startup.antt =====
-- The files that the two programs keep over a restart, as crates/aegis-dashboard/src/main.rs and
-- crates/aegis-gateway/src/main.rs read and write them at a start. What tokio::fs answers is a
-- parameter.
use aegis_honeypot.Prelude.{ℕ, Bool, List, ◌∷◌, Option, none, some, if◌then◌else◌, is_empty}
use aegis_honeypot.Prelude.Text.{Text}
pub mod Token
pub mod HostKey
pub mod Restart
mod Tests

pub data Call : Type 0 where
  create_dir_all : Text → Call
  write : Text → Text → Call
  set_permissions : Text → ℕ → Call

-- `read_to_string`: the file's text, an error of kind NotFound, or another error.
pub data Read : Type 0 where
  contents : Text → Read
  not_found : Read
  failed : Read

-- `read` answers after the calls that have succeeded, the last one first, and `succeeds` says
-- whether the next call does. `parent` is `Path::parent`.
pub record Files : Type 0 where
  pub read : Text → List Call → Read
  pub succeeds : Call → List Call → Bool
  pub parent : Text → Option Text

-- A run that may end with an error keeps the calls up to there.
pub record Run (T : Type 0) : Type 0 where
  pub answer : Option T
  pub calls : List Call

abbrev pub fail : {T : Type 0} → List Call → Run T
fail calls = record { answer = none; calls = calls }

abbrev pub done : {T : Type 0} → T → List Call → Run T
done value calls = record { answer = some value; calls = calls }

module _ {T : Type 0} (fs : Files) where
  -- `….await?` with the rest of the function behind it.
  abbrev pub call : Call → (List Call → Run T) → List Call → Run T
  call c rest calls = if fs.succeeds c calls then rest (c ∷ calls) else fail calls

  abbrev create_parent_of : Option Text → (List Call → Run T) → List Call → Run T
  create_parent_of none rest calls = rest calls
  create_parent_of (some dir) rest calls =
      if is_empty dir then rest calls else call (create_dir_all dir) rest calls

  abbrev pub create_parent : Text → (List Call → Run T) → List Call → Run T
  create_parent path rest calls = create_parent_of (fs.parent path) rest calls

  -- Mode 0o600 is 384.
  abbrev pub restrict : Text → T → List Call → Run T
  restrict path value calls = call (set_permissions path 384) (done value) calls

  unfoldable pub persist : Text → Text → T → List Call → Run T
  persist path text value calls = call (write path text) (restrict path value) calls
