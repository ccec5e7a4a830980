-- ===== src/Auth/Credentials.antt =====
-- src/auth.rs, `load_credentials`, `persist_credentials` and `CredentialStore`: the credentials file, with
-- the faults of its calls, each by the text of its error. What serde makes of the struct is a parameter.
pub mod Roundtrip
use bilbycast_gateway_sdk.Base.{
  ℕ, String, append, Bool, true, false, ◌&&◌, Option, none, some, Result, ok, err, is_some, str_eq,
  if◌then◌else◌, ◌≡◌,
}
use bilbycast_gateway_sdk.Errors.{SdkError, credentials_io, json}

pub record PersistedCredentials : Type 0 where
  pub node_id : Option String
  pub node_secret : Option String
  pub registration_token : Option String

abbrev pub no_credentials : PersistedCredentials
no_credentials = record { node_id = none; node_secret = none; registration_token = none }

unfoldable pub has_credentials : PersistedCredentials → Bool
has_credentials c = is_some c.node_id && is_some c.node_secret

-- `serde_json::to_string_pretty` and `from_str` of the struct.
pub record Codec : Type 0 where
  pub to_string_pretty : PersistedCredentials → String
  pub from_str : String → Option PersistedCredentials

-- The file: its text, and its permissions.
pub data CredentialFile : Type 0 where
  missing : CredentialFile
  stored : String → ℕ → CredentialFile

-- A write can fail before it touches the file, or leave a part of the text in it.
pub data WriteFault : Type 0 where
  no_fault : WriteFault
  fails_before : String → WriteFault
  tears : String → String → WriteFault

pub record Faults : Type 0 where
  pub mkdir : Option String
  pub write : WriteFault
  pub chmod : Option String
  pub read : Option String

-- 0o600
abbrev pub owner_only : ℕ
owner_only = 384

-- `default_mode` is what the umask gives to a new file.
abbrev pub written : ℕ → String → CredentialFile → CredentialFile
written default_mode text missing = stored text default_mode
written default_mode text (stored old mode) = stored text mode

abbrev pub with_mode : ℕ → CredentialFile → CredentialFile
with_mode mode missing = missing
with_mode mode (stored text old) = stored text mode

abbrev io_error : String → String → String → SdkError
io_error what path e = credentials_io (append what (append " " (append path (append ": " e))))

module _ (k : Codec) (faults : Faults) (path : String) where
  open k use {to_string_pretty, from_str}

  unfoldable pub parse_credentials : String → Result SdkError PersistedCredentials
  parse_credentials text = elim (from_str text) [ none ↦ err json | some c ↦ ok c ]

  unfoldable pub load_credentials : CredentialFile → Result SdkError PersistedCredentials
  load_credentials missing = ok no_credentials
  load_credentials (stored text mode) = elim faults.read [
    | some e ↦ err (io_error "read" path e)
    | none ↦ parse_credentials text
  ]

  unfoldable pub set_permissions : CredentialFile → Result SdkError (Unit {0}) × CredentialFile
  set_permissions file = elim faults.chmod [
    | some e ↦ (err (io_error "chmod" path e), file)
    | none ↦ (ok tt, with_mode owner_only file)
  ]

  unfoldable pub write_file :
      ℕ → String → CredentialFile → Result SdkError (Unit {0}) × CredentialFile
  write_file default_mode text file = elim faults.write [
    | no_fault ↦ set_permissions (written default_mode text file)
    | fails_before e ↦ (err (io_error "write" path e), file)
    | tears part e ↦ (err (io_error "write" path e), written default_mode part file)
  ]

  -- The directory is made first, if the path has one.
  unfoldable pub persist_credentials :
      Option String
      → ℕ
      → PersistedCredentials
      → CredentialFile
      → Result SdkError (Unit {0}) × CredentialFile
  persist_credentials none default_mode creds file =
      write_file default_mode (to_string_pretty creds) file
  persist_credentials (some parent) default_mode creds file =
      let go_on = write_file default_mode (to_string_pretty creds) file in
      if str_eq parent ""
      then go_on
      else elim faults.mkdir [ some e ↦ (err (io_error "mkdir" parent e), file) | none ↦ go_on ]

-- `CredentialStore`: a path, and the two calls for it.
pub record CredentialStore : Type 0 where
  pub path : String

module _ (k : Codec) (faults : Faults) (store : CredentialStore) where
  unfoldable pub load : CredentialFile → Result SdkError PersistedCredentials
  load = load_credentials k faults store.path

  unfoldable pub save :
      Option String
      → ℕ
      → PersistedCredentials
      → CredentialFile
      → Result SdkError (Unit {0}) × CredentialFile
  save = persist_credentials k faults store.path
