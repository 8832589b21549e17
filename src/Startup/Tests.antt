-- ===== src/Startup/Tests.antt =====
-- Two starts over a disk with one file.
use aegis_honeypot.Prelude.{
  ℕ, ◌≡◌, refl, sym, true, false, List, [], ◌∷◌, some, All, ltb, if◌then◌else◌, if_ind,
}
use aegis_honeypot.Prelude.Text.{Text, codes, is_whitespace, trim}
use aegis_honeypot.Startup.{
  Call, Read, contents, not_found, Files, create_dir_all, write, set_permissions, done, persist,
}
use aegis_honeypot.Startup.Token.{Random, generate_token, load_or_create_token}
use aegis_honeypot.Startup.HostKey.{Keys, load_or_create_host_key}
use aegis_honeypot.Startup.Restart.{load_or_create_token-again, load_or_create_host_key-again}

abbrev read_of : List Call → Read
read_of [] = not_found
read_of (write path text ∷ calls) = contents text
read_of (create_dir_all path ∷ calls) = read_of calls
read_of (set_permissions path mode ∷ calls) = read_of calls

abbrev disk : Files
disk = record {
  read = λ path calls. read_of calls;
  succeeds = λ c calls. true;
  parent = λ path. some (codes "keys");
}

-- One letter for a byte.
abbrev letters : List ℕ → Text
letters [] = []
letters (b ∷ bytes) = (if ltb b 128 then 97 else 98) ∷ letters bytes

letters_plain : (bytes : List ℕ) → All (λ c. is_whitespace c ≡ false) (letters bytes)
unfolding is_whitespace
letters_plain [] = tt
letters_plain (b ∷ bytes) =
    (if_ind (λ c. is_whitespace c ≡ false) (ltb b 128) (λ _. refl) (λ _. refl), letters_plain bytes)

abbrev uuids : Random
uuids = record { first = 1 ∷ 200 ∷ []; second = 255 ∷ 3 ∷ []; encode = letters }

abbrev other_uuids : Random
other_uuids = record { first = 201 ∷ []; second = []; encode = letters }

first_start :
    load_or_create_token disk (codes "keys/token") uuids []
    ≡ done (codes "abba") (
        set_permissions (codes "keys/token") 384
        ∷ write (codes "keys/token") (codes "abba")
        ∷ create_dir_all (codes "keys")
        ∷ [])
unfolding load_or_create_token generate_token persist
first_start = refl

-- A blank file is a token of no characters, which is not replaced.
blank_token :
    (load_or_create_token disk
      (codes "token")
      uuids
      (write (codes "token") (codes " ") ∷ [])).answer
    ≡ some []
unfolding load_or_create_token trim
blank_token = refl

abbrev after_token : List Call
after_token = (load_or_create_token disk (codes "keys/token") uuids []).calls

made_token : (load_or_create_token disk (codes "keys/token") uuids []).answer ≡ some (codes "abba")
unfolding load_or_create_token generate_token persist
made_token = refl

load_or_create_token-again_example :
    load_or_create_token disk (codes "keys/token") other_uuids after_token
    ≡ done (codes "abba") after_token
load_or_create_token-again_example =
    load_or_create_token-again disk (λ path t calls. refl) (λ path mode calls. refl)
      (codes "keys/token") (codes "abba") uuids other_uuids [] letters_plain made_token

-- Keys are texts, encoded as they are.
abbrev plain_keys : Keys Text
plain_keys = record {
  random = some (codes "k1");
  decode_secret_key = λ pem. some pem;
  encode_pkcs8_pem = λ key. some key;
}

abbrev after_key : List Call
after_key = (load_or_create_host_key disk plain_keys (some (codes "keys/host")) []).calls

made_key :
    (load_or_create_host_key disk plain_keys (some (codes "keys/host")) []).answer
    ≡ some (codes "k1")
unfolding load_or_create_host_key persist
made_key = refl

load_or_create_host_key-again_example :
    load_or_create_host_key disk
      (record plain_keys { random = some (codes "k2") })
      (some (codes "keys/host"))
      after_key
    ≡ done (codes "k1") after_key
load_or_create_host_key-again_example =
    load_or_create_host_key-again disk (λ path t calls. refl) (λ path mode calls. refl) plain_keys
      (some (codes "k2")) (λ key pem e. sym e) (codes "keys/host") (codes "k1") [] made_key
