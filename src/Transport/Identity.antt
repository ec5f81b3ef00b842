-- ===== src/Transport/Identity.antt =====
-- packages/rust/armonik-transport/src/config.rs: the client certificate and key.
use armoni_k_api.Common.{ℕ, String, ◌≡◌, ◌≢◌, ◌↔◌, true, false, some, none, List, arith, subst}
use armoni_k_api.Common.Text.{is_empty}
use armoni_k_api.Common.Outcome.{ok, err, map_err, map_err-eq-ok, ok-injective}
use armoni_k_api.Common.Outcome.Chain.{◌>>=◌}
use armoni_k_api.Transport.External.{External}
use armoni_k_api.Transport.Error.{incompatible_options}
use armoni_k_api.Transport.Options.{half_identity, load_identity, read_identity}

module _ (x : External) (cert_path key_path : String) where
  -- A path without the other is refused, whatever the files hold.
  pub read_identity_half :
      is_empty cert_path ≢ is_empty key_path
      → read_identity x cert_path key_path
        ≡ err (incompatible_options (half_identity x cert_path key_path))
  unfolding read_identity
  read_identity_half h = ground arith

  pub record Loads (cert : x.CertificateDer) (key : x.PrivateKeyDer) : Type 0 where
    pub cert_given : is_empty cert_path ≡ false
    pub key_given : is_empty key_path ≡ false
    pub cert_pem : String
    pub key_pem : List ℕ
    pub cert_read : x.read_to_string cert_path ≡ ok cert_pem
    pub key_read : x.read key_path ≡ ok key_pem
    pub cert_decoded : x.cert_from_pem cert_pem ≡ ok cert
    pub key_decoded : x.key_from_pem key_pem ≡ ok key

  load_sound :
      (cert : x.CertificateDer) (key : x.PrivateKeyDer)
      → is_empty cert_path ≡ false
      → is_empty key_path ≡ false
      → load_identity x cert_path key_path ≡ ok (cert, key)
      → Loads cert key
  unfolding load_identity
  load_sound cert key c k = do
    cert_pem ← map_err _ (x.read_to_string cert_path)
    key_pem ← map_err _ (x.read key_path)
    _ ← map_err _ (x.cert_from_pem cert_pem)
    _ ← map_err _ (x.key_from_pem key_pem)
    λ done e4 e3 e2 e1.
        subst (λ (i : x.CertificateDer × x.PrivateKeyDer). Loads i.0 i.1) (ok-injective done)
          (record {
            cert_given = c;
            key_given = k;
            cert_pem = cert_pem;
            key_pem = key_pem;
            cert_read = map_err-eq-ok _ _ e1;
            key_read = map_err-eq-ok _ _ e2;
            cert_decoded = map_err-eq-ok _ _ e3;
            key_decoded = map_err-eq-ok _ _ e4;
          })

  given :
      (identity : x.CertificateDer × x.PrivateKeyDer)
      → read_identity x cert_path key_path ≡ ok (some identity)
      → (is_empty cert_path ≡ false)
        × (is_empty key_path ≡ false)
        × (load_identity x cert_path key_path ≡ ok identity)
  unfolding read_identity
  given identity h = ground arith

  -- An identity is present exactly if both paths are given, both files are read and both decode.
  pub read_identity-iff-Loads :
      (cert : x.CertificateDer) (key : x.PrivateKeyDer)
      → (read_identity x cert_path key_path ≡ ok (some (cert, key))) ↔ Loads cert key
  unfolding read_identity load_identity
  read_identity-iff-Loads cert key = (
    λ h. let (c, k, e) = given (cert, key) h in load_sound cert key c k e,
    λ l. rw (l.cert_given, l.key_given, l.cert_read, l.key_read, l.cert_decoded, l.key_decoded),
  )

  -- No identity is used exactly if neither path is given.
  pub read_identity-none :
      (read_identity x cert_path key_path ≡ ok none)
      ↔ ((is_empty cert_path ≡ true) × (is_empty key_path ≡ true))
  unfolding read_identity
  read_identity-none = (λ h. (ground arith, ground arith), λ h. ground arith)
