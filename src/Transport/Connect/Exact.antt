-- ===== src/Transport/Connect/Exact.antt =====
-- packages/rust/armonik-transport/src/connect.rs: which connector is built of a configuration.
use armoni_k_api.Common.{◌≡◌, ◌↔◌, ap, sym, Bool, true, false, Option, none, some, List}
use armoni_k_api.Common.Outcome.{ok, bind_ok, map_err, map_err-eq-ok}
use armoni_k_api.Transport.External.{External}
use armoni_k_api.Transport.Config.{ClientConfig}
use armoni_k_api.Transport.Connect.{
  Verifier, Stack, Connector, choose_verifier, choose_identity, choose_server_name, https_connector,
  connect, transport_endpoint,
}
use armoni_k_api.Transport.Connect.Fields.{
  Verifies, Presents, Resolves, IsConfigured, https_connector-IsConfigured,
}

module _ (x : External) (s : Stack x) where
  pub verifier_complete :
      (endpoint : x.Uri) (unsafe : Bool) (cacert : Option x.CertificateDer)
      (v : Verifier s.RootCertStore)
      → Verifies x s unsafe cacert v
      → choose_verifier x s endpoint unsafe cacert ≡ ok v
  unfolding choose_verifier
  verifier_complete endpoint true cacert v h = ap ok (sym h)
  verifier_complete endpoint false (some cert) v (store, e, h) = simp (e, h)
  verifier_complete endpoint false none v (store, e, h) = simp (e, h)

  pub identity_complete :
      (endpoint : x.Uri) (identity : Option (x.CertificateDer × x.PrivateKeyDer))
      (auth : Option (List x.CertificateDer × x.PrivateKeyDer))
      → Presents x s identity auth
      → choose_identity x s endpoint identity ≡ ok auth
  unfolding choose_identity
  identity_complete endpoint none auth h = ap ok (sym h)
  identity_complete endpoint (some (cert, key)) auth (h, e) = simp (e, h)

  server_name_complete :
      (target : Option x.Uri) (name : Option s.ServerName)
      → Resolves x s target name
      → choose_server_name x s target ≡ ok name
  unfolding choose_server_name
  server_name_complete none name h = ap ok (sym h)
  server_name_complete (some target) name (n, e, h) = rw h (rw (e, choose_server_name))

  connector_complete :
      (c : ClientConfig x) (h : Connector x s)
      → s.safe_protocols ≡ ok tt
      → IsConfigured x s c h
      → https_connector x s c ≡ ok h
  unfolding https_connector
  connector_complete c h protocols configured =
      simp
        (
          protocols,
          verifier_complete c.endpoint _ c.cacert h.verifier configured.verifies,
          identity_complete c.endpoint c.identity h.client_auth configured.presents,
          server_name_complete c.override_target h.server_name configured.resolves,
        )
        (λ i. ok (record {
          verifier = h.verifier;
          client_auth = h.client_auth;
          https_or_http = sym configured.switches_scheme.1 i;
          server_name = h.server_name;
          enforce_http = sym configured.switches_scheme.0 i;
          nodelay = sym configured.delays i;
          keepalive = sym configured.keeps_alive i;
          keepalive_interval = sym configured.keeps_interval i;
          keepalive_retries = sym configured.keeps_retries i;
          connect_timeout = sym configured.times_out i;
          http1 = sym configured.speaks_both.0 i;
          http2 = sym configured.speaks_both.1 i;
        }))

  connector_protocols :
      (c : ClientConfig x) (h : Connector x s)
      → https_connector x s c ≡ ok h
      → s.safe_protocols ≡ ok tt
  unfolding https_connector
  connector_protocols c h = bind_ok _ (map_err _ s.safe_protocols) _ (λ u e _. map_err-eq-ok _ _ e)

  -- `connect` gives `channel` exactly if rustls has its protocols, and the connector that is configured
  -- as `c` says and the endpoint with the other options of `c` connect to it.
  pub connect_iff :
      (c : ClientConfig x) (channel : s.Channel)
      → (connect x s c ≡ ok channel) ↔ (
          (h : Connector x s) × (s.safe_protocols ≡ ok tt)
          × IsConfigured x s c h
          × (s.connect_with_connector (transport_endpoint x s c) h ≡ ok channel))
  unfolding connect
  connect_iff c channel = (
    bind_ok _ (https_connector x s c) _ (λ h e k. (
      h,
      connector_protocols c h e,
      https_connector-IsConfigured x s c h e,
      map_err-eq-ok _ _ k,
    )),
    λ (h, protocols, configured, k). simp (connector_complete c h protocols configured, k),
  )
