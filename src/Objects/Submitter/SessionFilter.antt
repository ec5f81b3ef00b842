-- ===== src/Objects/Submitter/SessionFilter.antt =====
-- packages/rust/armonik/src/objects/submitter/session_filter.rs: the filter of `list_sessions`. A list of statuses that are selected travels as a list of codes.
pub mod Inverted
use armoni_k_api.Common.{
  ℤ, pos, negsuc, String, ◌≡◌, refl, Bool, true, false, not, ◌||◌, Option, none, some, List, [],
  ◌∷◌, map, ◌==◌,
}
use armoni_k_api.Objects.Convert.{to_option, from_option, into_collect, list-retract}
use armoni_k_api.Objects.Enums.SessionStatus.{SessionStatus, as_i32, from_i32}

pub data SessionFilterStatuses : Type 0 where
  include exclude : List SessionStatus → SessionFilterStatuses

-- `session_filter::Statuses` of the protocol.
pub data V3Statuses : Type 0 where
  included excluded : List ℤ → V3Statuses

-- As the source has it: `Include` is sent as `Excluded`, and `Exclude` as `Included`.
unfoldable pub statuses_into : SessionFilterStatuses → V3Statuses
statuses_into (include statuses) = excluded (map as_i32 statuses)
statuses_into (exclude statuses) = included (map as_i32 statuses)

unfoldable pub statuses_from : V3Statuses → SessionFilterStatuses
statuses_from (excluded codes) = exclude (into_collect from_i32 codes)
statuses_from (included codes) = include (into_collect from_i32 codes)

abbrev pub default_statuses : SessionFilterStatuses
default_statuses = exclude []

pub record SessionFilter : Type 0 where
  pub ids : List String
  pub statuses : SessionFilterStatuses

pub record V3SessionFilter : Type 0 where
  pub sessions : List String
  pub statuses : Option V3Statuses

unfoldable pub filter_into : SessionFilter → V3SessionFilter
unfolding statuses_into
filter_into f = record { sessions = f.ids; statuses = to_option statuses_into f.statuses }

unfoldable pub filter_from : V3SessionFilter → SessionFilter
unfolding statuses_from
filter_from w = record {
  ids = w.sessions;
  statuses = from_option statuses_from default_statuses w.statuses;
}

-- The statuses that a filter selects, as its documentation says; statuses are compared by their codes.
abbrev same_code : ℤ → ℤ → Bool
same_code (pos a) (pos b) = a == b
same_code (negsuc a) (negsuc b) = a == b
same_code _ _ = false

abbrev among : ℤ → List ℤ → Bool
among c [] = false
among c (d ∷ ds) = same_code c d || among c ds

unfoldable pub selects : SessionFilterStatuses → SessionStatus → Bool
selects (include statuses) t = among (as_i32 t) (map as_i32 statuses)
selects (exclude statuses) t = not (among (as_i32 t) (map as_i32 statuses))

-- The statuses that a message selects, as the protocol says.
unfoldable pub v3_selects : V3Statuses → SessionStatus → Bool
v3_selects (included codes) t = among (as_i32 t) codes
v3_selects (excluded codes) t = not (among (as_i32 t) codes)

abbrev pub opposite : SessionFilterStatuses → SessionFilterStatuses
opposite (include statuses) = exclude statuses
opposite (exclude statuses) = include statuses
