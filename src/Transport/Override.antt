-- ===== src/Transport/Override.antt =====
-- packages/rust/armonik-transport/src/config.rs: the name under which the server is verified.
use armoni_k_api.Common.{String, ◌≡◌, sym, subst, ◌∙◌, Option, some}
use armoni_k_api.Common.Outcome.{ok, err, bind_ok, map_err-eq-ok, ok-injective}
use armoni_k_api.Transport.External.{External}
use armoni_k_api.Transport.Options.{
  optional-some, or_else, override_parts, override_uri, read_override_target,
}

-- What `hyper::http::uri::Builder` documents: a URI that it builds has the parts that it was given.
pub record BuildsParts (x : External) : Type 0 where
  pub built_scheme :
      (s : Option x.Scheme) (a : Option x.Authority) (p : Option x.PathAndQuery) (u : x.Uri)
      → x.build_uri s a p ≡ ok u
      → x.scheme u ≡ s
  pub built_authority :
      (s : Option x.Scheme) (a : Option x.Authority) (p : Option x.PathAndQuery) (u : x.Uri)
      → x.build_uri s a p ≡ ok u
      → x.authority u ≡ a
  pub built_path :
      (s : Option x.Scheme) (a : Option x.Authority) (p : x.PathAndQuery) (u : x.Uri)
      → x.build_uri s a (some p) ≡ ok u
      → x.path_and_query u ≡ some p

module _ (x : External) (law : BuildsParts x) (endpoint : x.Uri) (name : String) (u : x.Uri) where
  parts_of :
      read_override_target x endpoint name ≡ ok (some u)
      → (parts : Option x.Authority × Option x.PathAndQuery) × (override_parts x endpoint name
          ≡ ok parts)
        × (x.build_uri (x.scheme endpoint) (or_else x parts.0 (x.authority endpoint)) parts.1
            ≡ ok u)
  unfolding read_override_target
  parts_of h =
      bind_ok _ (override_parts x endpoint name) _ (λ parts e k. (parts, e, map_err-eq-ok _ _ k))
        (optional-some x (override_uri x endpoint) name h).1

  -- The URI that is built from the parts that the name stands for.
  Built : Option x.Authority × Option x.PathAndQuery → Type 0
  Built parts =
      x.build_uri (x.scheme endpoint) (or_else x parts.0 (x.authority endpoint)) parts.1 ≡ ok u

  Built-of :
      (parts : Option x.Authority × Option x.PathAndQuery)
      → override_parts x endpoint name ≡ ok parts
      → read_override_target x endpoint name ≡ ok (some u)
      → Built parts
  unfolding Built
  Built-of parts e h =
      let (parts', e', built) = parts_of h in subst Built (ok-injective (sym e' ∙ e)) built

  -- The scheme is that of the endpoint, however the name is written.
  pub override_scheme :
      read_override_target x endpoint name ≡ ok (some u) → x.scheme u ≡ x.scheme endpoint
  override_scheme h = let (parts, _, built) = parts_of h in law.built_scheme _ _ _ u built

  -- A name that is a host alone replaces the authority of the endpoint and keeps its scheme and path.
  pub override_host :
      (a : x.Authority) (p : x.PathAndQuery)
      → x.parse_authority name ≡ ok a
      → x.path_and_query endpoint ≡ some p
      → read_override_target x endpoint name ≡ ok (some u)
      → (x.scheme u ≡ x.scheme endpoint) × (x.authority u ≡ some a) × (x.path_and_query u ≡ some p)
  unfolding Built override_parts
  override_host a p host path h =
      let built = Built-of (some a, some p) (rw (host, override_parts) (rw path)) h in
      (
        law.built_scheme _ _ _ u built,
        law.built_authority _ _ _ u built,
        law.built_path _ _ p u built,
      )

  -- A name that is no host but a URI brings its path, and its authority if it has one, else the
  -- endpoint's; the scheme is still the endpoint's.
  pub override_whole_uri :
      (e : x.InvalidUri) (v : x.Uri) (p : x.PathAndQuery)
      → x.parse_authority name ≡ err e
      → x.parse_uri name ≡ ok v
      → x.path_and_query v ≡ some p
      → read_override_target x endpoint name ≡ ok (some u)
      → (x.scheme u ≡ x.scheme endpoint)
        × (x.authority u ≡ or_else x (x.authority v) (x.authority endpoint))
        × (x.path_and_query u ≡ some p)
  unfolding Built override_parts
  override_whole_uri e v p no_host whole path h =
      let built =
        Built-of (x.authority v, some p) (rw (no_host, override_parts) (rw (whole, path))) h in
      (
        law.built_scheme _ _ _ u built,
        law.built_authority _ _ _ u built,
        law.built_path _ _ p u built,
      )
