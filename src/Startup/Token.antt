-- ===== src/Startup/Token.antt =====
-- crates/aegis-dashboard/src/main.rs: the bearer token. The crates uuid and hex are parameters: the
-- bytes of two random UUIDs, and the encoding.
use aegis_honeypot.Prelude.{ℕ, List, ◌++◌}
use aegis_honeypot.Prelude.Text.{Text, trim}
use aegis_honeypot.Startup.{
  Call, Read, contents, not_found, failed, Files, Run, done, fail, create_parent, persist,
}

pub record Random : Type 0 where
  pub first : List ℕ
  pub second : List ℕ
  pub encode : List ℕ → Text

unfoldable pub generate_token : Random → Text
generate_token r = r.encode (r.first ++ r.second)

module _ (fs : Files) where
  abbrev pub token_of : Text → Random → Read → List Call → Run Text
  token_of path r (contents token) calls = done (trim token) calls
  token_of path r not_found calls =
      create_parent fs path (persist fs path (generate_token r) (generate_token r)) calls
  token_of path r failed calls = fail calls

  unfoldable pub load_or_create_token : Text → Random → List Call → Run Text
  load_or_create_token path r calls = token_of path r (fs.read path calls) calls
