-- ===== src/Startup/HostKey.antt =====
-- crates/aegis-gateway/src/main.rs: the host key. Keys, their generation and their encoding are
-- those of the crate russh and a parameter.
use aegis_honeypot.Prelude.{List, Option, none, some}
use aegis_honeypot.Prelude.Text.{Text}
use aegis_honeypot.Startup.{
  Call, Read, contents, not_found, failed, Files, Run, fail, create_parent, persist,
}

-- `none` is an error.
pub record Keys (K : Type 0) : Type 0 where
  pub random : Option K
  pub decode_secret_key : Text → Option K
  pub encode_pkcs8_pem : K → Option Text

module _ {K : Type 0} (fs : Files) (keys : Keys K) where
  abbrev pub save_pem : Text → K → Option Text → List Call → Run K
  save_pem path key none calls = fail calls
  save_pem path key (some pem) calls = persist fs path pem key calls

  abbrev pub save_key : Text → Option K → List Call → Run K
  save_key path none calls = fail calls
  save_key path (some key) calls =
      create_parent fs path (save_pem path key (keys.encode_pkcs8_pem key)) calls

  abbrev pub key_of : Text → Read → List Call → Run K
  key_of path (contents pem) calls = record { answer = keys.decode_secret_key pem; calls = calls }
  key_of path not_found calls = save_key path keys.random calls
  key_of path failed calls = fail calls

  unfoldable pub load_or_create_host_key : Option Text → List Call → Run K
  load_or_create_host_key none calls = record { answer = keys.random; calls = calls }
  load_or_create_host_key (some path) calls = key_of path (fs.read path calls) calls
