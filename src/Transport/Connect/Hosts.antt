-- ===== src/Transport/Connect/Hosts.antt =====
-- packages/rust/armonik-transport/src/connect.rs: the `expect` on the host of the override target, and
-- when it is met.
use armoni_k_api.Common.{String, ◌≡◌, ◌↔◌, ap, refl, Option, none, some, List}
use armoni_k_api.Common.Outcome.{Result, ok, err, ◌>>=◌, map_err, map_err-eq-ok, err-injective}
use armoni_k_api.Transport.External.{External}
use armoni_k_api.Transport.Args.{ClientConfigArgs}
use armoni_k_api.Transport.Config.{ClientConfig, from_config_args}
use armoni_k_api.Transport.Connect.{
  Verifier, Stack, tls, panic, Connecting, tls_error, choose_verifier, choose_identity,
  choose_server_name, https_connector, connect,
}
use armoni_k_api.Transport.Connect.Fields.{Verifies, Presents, verifier_sound, identity_sound}
use armoni_k_api.Transport.Connect.Exact.{verifier_complete, identity_complete}
use armoni_k_api.Transport.Connect.Panics.{
  AssertsRateOnly, NeverPanics, ok-NeverPanics, map_err-NeverPanics, verifier-NeverPanics,
  identity-NeverPanics, transport-NeverPanics, target_host,
}

-- The message of the `expect`.
abbrev pub expected : String
expected = "A valid URI host should be a valid ServerName"

module _ (x : External) (s : Stack x) where
  -- What comes before the name of the server goes well: rustls has its protocols, the certificates of
  -- the authority load if they are asked for, and the identity is accepted if there is one.
  pub record ReachesName (c : ClientConfig x) : Type 0 where
    pub protocols : s.safe_protocols ≡ ok tt
    pub verifies :
        (v : Verifier s.RootCertStore) × Verifies x s c.allow_unsafe_connection c.cacert v
    pub presents :
        (auth : Option (List x.CertificateDer × x.PrivateKeyDer)) × Presents x s c.identity auth

  -- There is an override target, and its host, empty if it has none, is no name of a server.
  abbrev pub BadHost : Option x.Uri → Type 0
  BadHost target =
      (t : x.Uri) × (target ≡ some t)
      × (e : s.InvalidDnsName) × (s.parse_server_name (target_host x s t) ≡ err e)

  -- A chain whose first step does not panic panics later.
  panics_later {ℓ κ} :
      {A : Type ℓ} {B : Type κ} (m : Connecting x s A) (f : A → Connecting x s B) (t : String)
      → NeverPanics x s m
      → ◌≡◌ {A = Connecting x s B} (m >>= f) (err (panic t))
      → (a : A) × (m ≡ ok a) × (f a ≡ err (panic t))
  panics_later (ok a) f t never h = (a, refl, h)
  panics_later (err e) f t never h = absurd (never t (ap err (err-injective h)))

  -- A chain whose later steps do not panic panics at its first.
  panics_first {ℓ κ} :
      {A : Type ℓ} {B : Type κ} (m : Connecting x s A) (f : A → Connecting x s B) (t : String)
      → ((a : A) → NeverPanics x s (f a))
      → ◌≡◌ {A = Connecting x s B} (m >>= f) (err (panic t))
      → m ≡ err (panic t)
  panics_first (ok a) f t never h = absurd (never a t h)
  panics_first (err e) f t never h = ap err (err-injective h)

  parse_panics :
      (parsed : Result s.ServerName s.InvalidDnsName) (t : String)
      → ◌≡◌ {A = Connecting x s (Option s.ServerName)}
          (elim parsed [ ok n ↦ ok (some n) | err _ ↦ err (panic expected) ])
          (err (panic t))
      → (t ≡ expected) × (e : s.InvalidDnsName) × (parsed ≡ err e)
  parse_panics (ok n) t h = cc
  parse_panics (err e) t h = (cc, e, refl)

  name_panics :
      (target : Option x.Uri) (t : String)
      → choose_server_name x s target ≡ err (panic t)
      → (t ≡ expected) × BadHost target
  unfolding choose_server_name
  name_panics none t h = cc
  name_panics (some target) t h =
      let (same, e, bad) = parse_panics (s.parse_server_name (target_host x s target)) t h in
      (same, (target, refl, e, bad))

  BadHost-panics :
      (target : Option x.Uri)
      → BadHost target
      → choose_server_name x s target ≡ err (panic expected)
  unfolding choose_server_name
  BadHost-panics target (t, a, e, b) = rw a (rw (b, choose_server_name))

  connector_panics :
      (c : ClientConfig x) (t : String)
      → https_connector x s c ≡ err (panic t)
      → (t ≡ expected) × ReachesName c × BadHost c.override_target
  unfolding https_connector tls_error
  connector_panics c t h =
      let (u, protocols, h1) =
        panics_later (map_err _ s.safe_protocols) _ t
          (map_err-NeverPanics x s (tls c.endpoint) s.safe_protocols) h in
      let (v, ev, h2) =
        panics_later (choose_verifier x s c.endpoint c.allow_unsafe_connection c.cacert) _ t
          (verifier-NeverPanics x s c.endpoint c.allow_unsafe_connection c.cacert) h1 in
      let (auth, ea, h3) =
        panics_later (choose_identity x s c.endpoint c.identity) _ t
          (identity-NeverPanics x s c.endpoint c.identity) h2 in
      let (same, bad) = name_panics c.override_target t (
        panics_first (choose_server_name x s c.override_target) _ t (λ _. ok-NeverPanics x s _)
          h3) in
      (
        same,
        record {
          protocols = map_err-eq-ok _ _ protocols;
          verifies = (v, verifier_sound x s c.endpoint c.allow_unsafe_connection c.cacert v ev);
          presents = (auth, identity_sound x s c.endpoint c.identity auth ea);
        },
        bad,
      )

  panics_connector :
      (c : ClientConfig x)
      → ReachesName c
      → BadHost c.override_target
      → https_connector x s c ≡ err (panic expected)
  unfolding https_connector
  panics_connector c reaches bad =
      let (v, hv) = reaches.verifies in
      let (auth, ha) = reaches.presents in
      simp (
        reaches.protocols,
        verifier_complete x s c.endpoint c.allow_unsafe_connection c.cacert v hv,
        identity_complete x s c.endpoint c.identity auth ha,
        BadHost-panics c.override_target bad,
      )

  -- On a configuration that `from_config_args` accepts, `connect` panics exactly if there is an override
  -- target whose host, empty if it has none, is no server name, and the protocols, the certificates and
  -- the identity before it go well; the message is then that of the `expect`. Here tonic asserts only
  -- that rates are positive.
  pub connect-panics_iff :
      AssertsRateOnly x s
      → (args : ClientConfigArgs) (c : ClientConfig x) → from_config_args x args ≡ ok c
      → (m : String)
      → (connect x s c ≡ err (panic m))
        ↔ ((m ≡ expected) × ReachesName c × BadHost c.override_target)
  unfolding connect
  connect-panics_iff asserts args c accepted m = (
    λ h. connector_panics c m (
        panics_first (https_connector x s c) _ m (transport-NeverPanics x s asserts args c accepted)
          h),
    λ (same, reaches, bad). simp (panics_connector c reaches bad, same),
  )
