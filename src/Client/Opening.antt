-- ===== src/Client/Opening.antt =====
-- packages/rust/armonik/src/client/mod.rs: how a client gets its channel, from the environment or from a
-- configuration, by packages/rust/armonik-transport.
use armoni_k_api.Common.{◌≡◌}
use armoni_k_api.Common.Outcome.{ok, ◌>>=◌, bind_ok, map_err, map_err-eq-ok}
use armoni_k_api.Transport.Env.{Env}
use armoni_k_api.Transport.External.{External}
use armoni_k_api.Transport.Args.{ClientConfigArgs}
use armoni_k_api.Transport.Args as Args
use armoni_k_api.Transport.Args.Reads.{Reads}
use armoni_k_api.Transport.Config.{ClientConfig, from_config_args, from_env}
use armoni_k_api.Transport.Config.Accepts.{Accepts}
use armoni_k_api.Transport.Connect.{
  Stack, config_error, error, Connector, Connecting, connect, transport_endpoint,
}
use armoni_k_api.Transport.Connect.Fields.{IsConfigured}
use armoni_k_api.Transport.Connect.Panics.{
  AssertsRateOnly, NamesServer, NeverPanics, bind-NeverPanics, ok-NeverPanics, map_err-NeverPanics,
  connect-NeverPanics,
}

pub record Client (Channel : Type 0) : Type 0 where
  pub channel : Channel

unfoldable pub with_channel : {Channel : Type 0} → Channel → Client Channel
with_channel channel = record { channel = channel }

module _ (x : External) (s : Stack x) where
  unfoldable pub with_config : ClientConfig x → Connecting x s (Client s.Channel)
  with_config config = do channel ← connect x s config; ok (with_channel channel)

  unfoldable pub new : Env → Connecting x s (Client s.Channel)
  new vars = do config ← map_err (λ e. error (config_error e)) (from_env x vars); with_config config

  -- Everything that stands between the variables of the environment and a channel.
  pub record Opens (vars : Env) (channel : s.Channel) : Type 0 where
    pub args : ClientConfigArgs
    pub reads : Reads x vars args
    pub config : ClientConfig x
    pub accepts : Accepts x args config
    pub protocols : s.safe_protocols ≡ ok tt
    pub connector : Connector x s
    pub configured : IsConfigured x s config connector
    pub connects : s.connect_with_connector (transport_endpoint x s config) connector ≡ ok channel

  -- `Client::new` returns a client or an error and never panics, whatever the environment holds, if the
  -- host of the override target of the configuration that it gives, if it gives one, is a server name and
  -- tonic asserts only that rates are positive.
  pub new-NeverPanics :
      AssertsRateOnly x s
      → (vars : Env)
      → ((c : ClientConfig x) → from_env x vars ≡ ok c → NamesServer x s c.override_target)
      → NeverPanics x s (new vars)
  unfolding new with_config from_env
  new-NeverPanics asserts vars named =
      bind-NeverPanics x s _ _ (map_err-NeverPanics x s config_error (from_env x vars)) λ c got.
        bind-NeverPanics x s (connect x s c) _
          (bind_ok _ (Args.from_env x vars) (from_config_args x)
            (λ args read accepted.
              connect-NeverPanics x s asserts args c accepted (named c (map_err-eq-ok _ _ got)))
            (map_err-eq-ok _ _ got))
          λ _ _. ok-NeverPanics x s _
