-- ===== src/Transport/Connect/Panics.antt =====
-- packages/rust/armonik-transport/src/connect.rs: where `connect` can panic, and where it cannot.
use armoni_k_api.Common.{
  ℕ, ◌<◌, String, ◌≡◌, ◌≢◌, ◌∙◌, ap, refl, sym, Bool, true, false, Option, none, some, unwrap_or,
  Holds-some,
}
use armoni_k_api.Common.Outcome.{Result, ok, err, ◌>>=◌, map_err, err-injective}
use armoni_k_api.Transport.External.{External, Duration, is_zero}
use armoni_k_api.Transport.Args.{ClientConfigArgs}
use armoni_k_api.Transport.Config.{ClientConfig, from_config_args}
use armoni_k_api.Transport.Accepted.{RateInRange, from_config_args-IsUsable}
use armoni_k_api.Transport.Connect.{
  Stack, ConnectionError, tls, io, Endpoint, Fault, error, panic, Connector, Connecting, tls_error,
  choose_verifier, choose_identity, choose_server_name, https_connector, transport_endpoint,
  transport_fault, connect,
}

module _ (x : External) (s : Stack x) where
  -- `tower`'s rate limiter asserts that neither half of its rate is zero; no other assertion is met.
  abbrev pub AssertsRateOnly : Type 0
  AssertsRateOnly =
      (e : Endpoint x) (h : Connector x s) (m : String)
      → ((n : ℕ) (d : Duration) → e.rate_limit ≡ some (n, d) → (0 < n) × (is_zero d ≡ false))
      → s.connect_with_connector e h ≢ err (panic m)

  abbrev pub NeverPanics {ℓ} : {A : Type ℓ} → Connecting x s A → Type ℓ
  NeverPanics {A} r = (m : String) → ◌≢◌ {A = Connecting x s A} r (err (panic m))

  pub bind-NeverPanics {ℓ κ} :
      {A : Type ℓ} {B : Type κ} (m : Connecting x s A) (f : A → Connecting x s B)
      → NeverPanics m
      → ((a : A) → m ≡ ok a → NeverPanics (f a))
      → NeverPanics (m >>= f)
  bind-NeverPanics (ok a) f hm hf = hf a refl
  bind-NeverPanics (err e) f hm hf = λ t h. hm t (ap err (err-injective h))

  pub ok-NeverPanics {ℓ} : {A : Type ℓ} (a : A) → NeverPanics (ok a)
  ok-NeverPanics a t h = cc

  -- An error that is wrapped as an error is no panic.
  pub map_err-NeverPanics {ℓ} :
      {A : Type ℓ} {E : Type 0} (wrap : E → ConnectionError x s) (r : Result A E)
      → NeverPanics (map_err (λ e. error (wrap e)) r)
  map_err-NeverPanics wrap (ok a) t h = cc
  map_err-NeverPanics wrap (err e) t h = cc

  pub verifier-NeverPanics :
      (endpoint : x.Uri) (unsafe : Bool) (cacert : Option x.CertificateDer)
      → NeverPanics (choose_verifier x s endpoint unsafe cacert)
  unfolding choose_verifier tls_error
  verifier-NeverPanics endpoint true cacert t h = cc
  verifier-NeverPanics endpoint false (some cert) t h =
      bind-NeverPanics _ _ (map_err-NeverPanics (tls endpoint) (s.root_store cert))
        (λ a _. ok-NeverPanics _) t h
  verifier-NeverPanics endpoint false none t h =
      bind-NeverPanics _ _ (map_err-NeverPanics io s.native_roots) (λ a _. ok-NeverPanics _) t h

  pub identity-NeverPanics :
      (endpoint : x.Uri) (identity : Option (x.CertificateDer × x.PrivateKeyDer))
      → NeverPanics (choose_identity x s endpoint identity)
  unfolding choose_identity tls_error
  identity-NeverPanics endpoint none t h = cc
  identity-NeverPanics endpoint (some (cert, key)) t h =
      bind-NeverPanics _ _ (map_err-NeverPanics (tls endpoint) (s.check_identity _ key))
        (λ a _. ok-NeverPanics _) t h

  -- The host of the override target, or the empty text if it has none.
  abbrev pub target_host : x.Uri → String
  target_host target = unwrap_or "" (x.host target)

  abbrev pub NamesServer : Option x.Uri → Type 0
  NamesServer none = Unit {0}
  NamesServer (some target) =
      (name : s.ServerName) × (s.parse_server_name (target_host target) ≡ ok name)

  server_name_ok :
      (target : x.Uri) (name : s.ServerName)
      → s.parse_server_name (target_host target) ≡ ok name
      → choose_server_name x s (some target) ≡ ok (some name)
  unfolding choose_server_name
  server_name_ok target name h = rw (h, choose_server_name)

  server_name-NeverPanics :
      (target : Option x.Uri) → NamesServer target → NeverPanics (choose_server_name x s target)
  unfolding choose_server_name
  server_name-NeverPanics none h t e = cc
  server_name-NeverPanics (some target) (name, h) t e =
      ok-NeverPanics (some name) t (sym (server_name_ok target name h) ∙ e)

  https_connector-NeverPanics :
      (c : ClientConfig x) → NamesServer c.override_target → NeverPanics (https_connector x s c)
  unfolding https_connector tls_error
  https_connector-NeverPanics c named =
      bind-NeverPanics (map_err _ s.safe_protocols) _
        (map_err-NeverPanics (tls c.endpoint) s.safe_protocols)
        λ _ _.
          bind-NeverPanics (choose_verifier x s c.endpoint c.allow_unsafe_connection c.cacert) _
            (verifier-NeverPanics c.endpoint c.allow_unsafe_connection c.cacert)
            λ _ _.
              bind-NeverPanics (choose_identity x s c.endpoint c.identity) _
                (identity-NeverPanics c.endpoint c.identity)
                λ _ _.
                  bind-NeverPanics (choose_server_name x s c.override_target) _
                    (server_name-NeverPanics c.override_target named) λ _ _. ok-NeverPanics _

  transport-panic :
      (endpoint : x.Uri) (r : Result s.Channel (Fault s.TransportError)) (t : String)
      → map_err (transport_fault x s endpoint) r ≡ err (panic t)
      → r ≡ err (panic t)
  unfolding transport_fault
  transport-panic endpoint (ok a) t h = cc
  transport-panic endpoint (err (error e)) t h = cc
  transport-panic endpoint (err (panic m)) t h = cc

  -- On an accepted configuration the channel never panics.
  pub transport-NeverPanics :
      AssertsRateOnly
      → (args : ClientConfigArgs) (c : ClientConfig x) → from_config_args x args ≡ ok c
      → (https : Connector x s)
      → NeverPanics (
          map_err
            (transport_fault x s c.endpoint)
            (s.connect_with_connector (transport_endpoint x s c) https))
  transport-NeverPanics asserts args c accepted https t h =
      asserts (transport_endpoint x s c) https t
        (unfold transport_endpoint in
          λ n d e.
            let (positive, _, nonzero) =
              Holds-some RateInRange c.rate_limit
                (from_config_args-IsUsable x args c accepted).rate_in_range e in
            (positive, nonzero))
        (transport-panic c.endpoint _ t h)

  -- A configuration that `from_config_args` accepts connects or fails with an error, and never panics,
  -- if the host of its override target is a server name and tonic asserts only that rates are positive.
  pub connect-NeverPanics :
      AssertsRateOnly
      → (args : ClientConfigArgs) (c : ClientConfig x) → from_config_args x args ≡ ok c
      → NamesServer c.override_target
      → NeverPanics (connect x s c)
  unfolding connect
  connect-NeverPanics asserts args c accepted named =
      bind-NeverPanics _ _ (https_connector-NeverPanics c named)
        λ https _. transport-NeverPanics asserts args c accepted https
