-- ===== src/Auth/Credentials/Roundtrip.antt =====
-- src/auth.rs: credentials that were saved and are loaded again, and what a save that fails leaves.
use bilbycast_gateway_sdk.Base.{
  ℕ, String, ◌≡◌, refl, sym, ◌⊎◌, inl, inr, ◌∙◌, ap, Option, none, some, Result, ok, err, err≢ok,
  Bool-cases, Option-cases, Result-cases, str_eq,
}
use bilbycast_gateway_sdk.Errors.{SdkError}
use bilbycast_gateway_sdk.Auth.Credentials.{
  PersistedCredentials, Codec, CredentialFile, missing, stored, WriteFault, no_fault, fails_before,
  tears, Faults, owner_only, load_credentials, parse_credentials, set_permissions, write_file,
  persist_credentials, written, with_mode, CredentialStore, load, save,
}

module _ (k : Codec) (faults : Faults) (path : String) where
  -- What a save has come to: the credentials in a file for its owner alone; or an error, and a file
  -- that is as it was, or in which some text was written under the permissions that it had.
  record Persisted (creds : PersistedCredentials) (default_mode : ℕ) (file : CredentialFile)
      (o : Result SdkError (Unit {0}) × CredentialFile) : Type 0 where
    saved : o.0 ≡ ok tt → o.1 ≡ stored (k.to_string_pretty creds) owner_only
    failed :
        (o.0 ≡ ok tt) ⊎ ((o.1 ≡ file) ⊎ ((text : String) × (o.1 ≡ written default_mode text file)))

  set_permissions-Persisted :
      (default_mode : ℕ) (creds : PersistedCredentials) (file : CredentialFile)
      → Persisted creds default_mode file
          (set_permissions k faults path (written default_mode (k.to_string_pretty creds) file))
  unfolding set_permissions
  set_permissions-Persisted default_mode creds file = elim (Option-cases faults.chmod) [
    | inl e ↦
        rw (e, set_permissions) (record { saved = λ h. with_mode-written file; failed = inl refl })
    | inr (x, e) ↦
        rw (e, set_permissions)
          (record {
            saved = λ h. absurd (err≢ok h);
            failed = inr (inr (k.to_string_pretty creds, refl));
          })
  ]
    where
      with_mode-written :
          (f : CredentialFile)
          → with_mode owner_only (written default_mode (k.to_string_pretty creds) f)
            ≡ stored (k.to_string_pretty creds) owner_only
      with_mode-written missing = refl
      with_mode-written (stored text mode) = refl

  write_file-Persisted :
      (default_mode : ℕ) (creds : PersistedCredentials) (file : CredentialFile) (w : WriteFault)
      → faults.write ≡ w
      → Persisted creds default_mode file
          (write_file k faults path default_mode (k.to_string_pretty creds) file)
  unfolding write_file
  write_file-Persisted default_mode creds file no_fault e =
      simp (e, write_file) (set_permissions-Persisted default_mode creds file)
  write_file-Persisted default_mode creds file (fails_before x) e =
      simp (e, write_file) (record { saved = λ h. absurd (err≢ok h); failed = inr (inl refl) })
  write_file-Persisted default_mode creds file (tears part x) e =
      simp (e, write_file)
        (record { saved = λ h. absurd (err≢ok h); failed = inr (inr (part, refl)) })

  persist_credentials-Persisted :
      (parent : Option String) (default_mode : ℕ) (creds : PersistedCredentials)
      (file : CredentialFile)
      → Persisted creds default_mode file
          (persist_credentials k faults path parent default_mode creds file)
  unfolding persist_credentials
  persist_credentials-Persisted none default_mode creds file =
      write_file-Persisted default_mode creds file faults.write refl
  persist_credentials-Persisted (some parent) default_mode creds file =
      elim (Bool-cases (str_eq parent "")) [
        | inl e ↦
            rw (e, persist_credentials)
              (write_file-Persisted default_mode creds file faults.write refl)
        | inr e ↦ elim (Option-cases faults.mkdir) [
          | inl e' ↦
              simp (e, e', persist_credentials)
                (write_file-Persisted default_mode creds file faults.write refl)
          | inr (x, e') ↦
              simp (e, e', persist_credentials)
                (record { saved = λ h. absurd (err≢ok h); failed = inr (inl refl) })
        ]
      ]

-- Where serde reads what it wrote and the file can be read, a store that saved credentials without an
-- error loads the same ones, from a file that only its owner can read; and a store that reports an
-- error leaves the file as it was, or with some text under the permissions that it had (a new file:
-- those of the umask).
pub save-load :
    (k : Codec) (faults : Faults) (store : CredentialStore) (parent : Option String)
    (default_mode : ℕ) (creds : PersistedCredentials) (file : CredentialFile)
    → k.from_str (k.to_string_pretty creds) ≡ some creds
    → faults.read ≡ none
    → ((load k faults store (save k faults store parent default_mode creds file).1 ≡ ok creds)
        × ((save k faults store parent default_mode creds file).1
            ≡ stored (k.to_string_pretty creds) 384))
      ⊎ ((error : SdkError) × ((save k faults store parent default_mode creds file).0 ≡ err error)
          × (((save k faults store parent default_mode creds file).1 ≡ file)
              ⊎ ((text : String) × ((save k faults store parent default_mode creds file).1
                    ≡ written default_mode text file))))
unfolding load save load_credentials parse_credentials
save-load k faults store parent default_mode creds file law readable =
    let o = persist_credentials k faults store.path parent default_mode creds file in
    let v = persist_credentials-Persisted k faults store.path parent default_mode creds file in
    elim (Result-cases o.0) [
      | inl (u, e) ↦ inl (
        ap (load_credentials k faults store.path) (v.saved e)
            ∙ simp (readable, law, load_credentials, parse_credentials) refl,
        v.saved e,
      )
      | inr (x, e) ↦ inr (x, e, elim v.failed [ inl h ↦ absurd (err≢ok (sym e ∙ h)) | inr d ↦ d ])
    ]
