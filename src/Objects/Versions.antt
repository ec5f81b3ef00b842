-- ===== src/Objects/Versions.antt =====
-- packages/rust/armonik/src/objects/versions/list.rs: the versions of the cluster. The request is empty.
use armoni_k_api.Common.{String, ◌≡◌, refl}

pub record Versions : Type 0 where
  pub core : String
  pub api : String

pub record V3Versions : Type 0 where
  pub core : String
  pub api : String

abbrev pub default_versions : Versions
default_versions = record { core = ""; api = "" }

unfoldable pub versions_into : Versions → V3Versions
versions_into r = record { core = r.core; api = r.api }

unfoldable pub versions_from : V3Versions → Versions
versions_from w = record { core = w.core; api = w.api }

pub versions_back : (r : Versions) → versions_from (versions_into r) ≡ r
unfolding versions_from versions_into
versions_back r = refl
