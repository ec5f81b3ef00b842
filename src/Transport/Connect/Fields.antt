-- ===== src/Transport/Connect/Fields.antt =====
-- packages/rust/armonik-transport/src/connect.rs: what the connector takes from the configuration.
use armoni_k_api.Common.{
  ◌≡◌, ◌↔◌, refl, sym, subst, unwrap_or, Bool, true, false, not, Option, none, some, List, [], ◌∷◌,
}
use armoni_k_api.Common.Outcome.Chain.{◌>>=◌}
use armoni_k_api.Common.Outcome.{Result, err, ok, bind_ok, map_err, map_err-eq-ok, ok-injective}
use armoni_k_api.Transport.External.{External}
use armoni_k_api.Transport.Config.{ClientConfig}
use armoni_k_api.Transport.Connect.{
  Verifier, insecure, roots, Stack, Connector, Connecting, panic, choose_verifier, choose_identity,
  choose_server_name, https_connector,
}

module _ (x : External) (s : Stack x) where
  -- The server is verified unless the configuration says otherwise, and then against the given CA
  -- certificate, or the system's if none is given.
  abbrev pub Verifies : Bool → Option x.CertificateDer → Verifier s.RootCertStore → Type 0
  Verifies true cacert v = v ≡ insecure
  Verifies false (some cert) v =
      (store : s.RootCertStore) × (s.root_store cert ≡ ok store) × (v ≡ roots store)
  Verifies false none v =
      (store : s.RootCertStore) × (s.native_roots ≡ ok store) × (v ≡ roots store)

  abbrev pub Presents :
      Option (x.CertificateDer × x.PrivateKeyDer)
      → Option (List x.CertificateDer × x.PrivateKeyDer)
      → Type 0
  Presents none auth = auth ≡ none
  Presents (some (cert, key)) auth =
      (auth ≡ some (cert ∷ [], key)) × (s.check_identity (cert ∷ []) key ≡ ok tt)

  -- The name that is resolved and verified is the host of the override target, if there is one.
  abbrev pub Resolves : Option x.Uri → Option s.ServerName → Type 0
  Resolves none name = name ≡ none
  Resolves (some target) name =
      (n : s.ServerName) × (s.parse_server_name (unwrap_or "" (x.host target)) ≡ ok n)
      × (name ≡ some n)

  pub record IsConfigured (c : ClientConfig x) (h : Connector x s) : Type 0 where
    pub verifies : Verifies c.allow_unsafe_connection c.cacert h.verifier
    pub presents : Presents c.identity h.client_auth
    pub resolves : Resolves c.override_target h.server_name
    pub delays : h.nodelay ≡ not c.tcp_nagle_algorithm
    pub keeps_alive : h.keepalive ≡ c.tcp_keepalive
    pub keeps_interval : h.keepalive_interval ≡ c.tcp_keepalive_interval
    pub keeps_retries : h.keepalive_retries ≡ c.tcp_keepalive_retries
    pub times_out : h.connect_timeout ≡ c.connect_timeout
    pub switches_scheme : (h.enforce_http ≡ false) × (h.https_or_http ≡ true)
    pub speaks_both : (h.http1 ≡ true) × (h.http2 ≡ true)

  pub verifier_sound :
      (endpoint : x.Uri) (unsafe : Bool) (cacert : Option x.CertificateDer)
      (v : Verifier s.RootCertStore)
      → choose_verifier x s endpoint unsafe cacert ≡ ok v
      → Verifies unsafe cacert v
  unfolding choose_verifier
  verifier_sound endpoint true cacert v h = sym (ok-injective h)
  verifier_sound endpoint false (some cert) v h =
      bind_ok _ (map_err _ (s.root_store cert)) _
        (λ store e k. (store, map_err-eq-ok _ _ e, sym (ok-injective k))) h
  verifier_sound endpoint false none v h =
      bind_ok _ (map_err _ s.native_roots) _
        (λ store e k. (store, map_err-eq-ok _ _ e, sym (ok-injective k))) h

  pub identity_sound :
      (endpoint : x.Uri) (identity : Option (x.CertificateDer × x.PrivateKeyDer))
      (auth : Option (List x.CertificateDer × x.PrivateKeyDer))
      → choose_identity x s endpoint identity ≡ ok auth
      → Presents identity auth
  unfolding choose_identity
  identity_sound endpoint none auth h = sym (ok-injective h)
  identity_sound endpoint (some (cert, key)) auth h =
      bind_ok _ (map_err _ (s.check_identity (cert ∷ []) key)) _
        (λ u e k. (sym (ok-injective k), map_err-eq-ok _ _ e)) h

  parsed_name :
      (parsed : Result s.ServerName s.InvalidDnsName) (name : Option s.ServerName)
      → ◌≡◌ {A = Connecting x s (Option s.ServerName)}
          (elim parsed [
            | ok n ↦ ok (some n)
            | err _ ↦ err (panic "A valid URI host should be a valid ServerName")
          ])
          (ok name)
      → (n : s.ServerName) × (parsed ≡ ok n) × (name ≡ some n)
  parsed_name (ok n) name h = (n, refl, sym (ok-injective h))
  parsed_name (err e) name h = cc

  server_name_sound :
      (target : Option x.Uri) (name : Option s.ServerName)
      → choose_server_name x s target ≡ ok name
      → Resolves target name
  unfolding choose_server_name
  server_name_sound none name h = sym (ok-injective h)
  server_name_sound (some target) name h =
      parsed_name (s.parse_server_name (unwrap_or "" (x.host target))) name h

  -- A connector that is built verifies the server, presents the identity, resolves the name of the
  -- override target and sets the TCP options as the configuration says; it switches the scheme by the
  -- URI, and speaks both HTTP/1 and HTTP/2.
  pub https_connector-IsConfigured :
      (c : ClientConfig x) (h : Connector x s) → https_connector x s c ≡ ok h → IsConfigured c h
  unfolding https_connector
  https_connector-IsConfigured c h = do
    _ ← map_err _ s.safe_protocols
    v ← choose_verifier x s c.endpoint c.allow_unsafe_connection c.cacert
    auth ← choose_identity x s c.endpoint c.identity
    name ← choose_server_name x s c.override_target
    λ done en ea ev _. subst (IsConfigured c) (ok-injective done) (record {
      verifies = verifier_sound c.endpoint _ c.cacert v ev;
      presents = identity_sound c.endpoint c.identity auth ea;
      resolves = server_name_sound c.override_target name en;
      delays = refl;
      keeps_alive = refl;
      keeps_interval = refl;
      keeps_retries = refl;
      times_out = refl;
      switches_scheme = (refl, refl);
      speaks_both = (refl, refl);
    })

  insecure_iff :
      (unsafe : Bool) (cacert : Option x.CertificateDer) (v : Verifier s.RootCertStore)
      → Verifies unsafe cacert v
      → (v ≡ insecure) ↔ (unsafe ≡ true)
  insecure_iff true cacert v h = (λ _. refl, λ _. h)
  insecure_iff false (some cert) v (store, _, h) = (λ e. cc, λ e. cc)
  insecure_iff false none v (store, _, h) = (λ e. cc, λ e. cc)

  -- In a connector that is built the certificate check is off exactly if the configuration allows it.
  pub insecure-iff-allowed :
      (c : ClientConfig x) (h : Connector x s)
      → https_connector x s c ≡ ok h
      → (h.verifier ≡ insecure) ↔ (c.allow_unsafe_connection ≡ true)
  insecure-iff-allowed c h e =
      insecure_iff c.allow_unsafe_connection c.cacert h.verifier
        (https_connector-IsConfigured c h e).verifies
