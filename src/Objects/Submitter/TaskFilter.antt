-- ===== src/Objects/Submitter/TaskFilter.antt =====
-- packages/rust/armonik/src/objects/submitter/task_filter.rs: the filter of the submitter's calls on
-- tasks. A list of statuses that are selected travels as a list of codes.
pub mod Inverted
use armoni_k_api.Common.{
  ℤ, pos, negsuc, String, ◌≡◌, refl, Bool, true, false, not, ◌||◌, Option, none, some, List, [],
  ◌∷◌, map, ◌==◌,
}
use armoni_k_api.Objects.Convert.{to_option, from_option, into_collect, list-retract}
use armoni_k_api.Objects.Enums.TaskStatus.{TaskStatus, as_i32, from_i32}

pub data TaskFilterIds : Type 0 where
  sessions tasks : List String → TaskFilterIds

pub data V3Ids : Type 0 where
  session task : List String → V3Ids

unfoldable pub ids_into : TaskFilterIds → V3Ids
ids_into (sessions ids) = session ids
ids_into (tasks ids) = task ids

unfoldable pub ids_from : V3Ids → TaskFilterIds
ids_from (session ids) = sessions ids
ids_from (task ids) = tasks ids

pub data TaskFilterStatuses : Type 0 where
  include exclude : List TaskStatus → TaskFilterStatuses

-- `task_filter::Statuses` of the protocol.
pub data V3Statuses : Type 0 where
  included excluded : List ℤ → V3Statuses

-- As the source has it: `Include` is sent as `Excluded`, and `Exclude` as `Included`.
unfoldable pub statuses_into : TaskFilterStatuses → V3Statuses
statuses_into (include statuses) = excluded (map as_i32 statuses)
statuses_into (exclude statuses) = included (map as_i32 statuses)

unfoldable pub statuses_from : V3Statuses → TaskFilterStatuses
statuses_from (excluded codes) = exclude (into_collect from_i32 codes)
statuses_from (included codes) = include (into_collect from_i32 codes)

abbrev pub default_ids : TaskFilterIds
default_ids = sessions []

abbrev pub default_statuses : TaskFilterStatuses
default_statuses = exclude []

pub record TaskFilter : Type 0 where
  pub ids : TaskFilterIds
  pub statuses : TaskFilterStatuses

pub record V3TaskFilter : Type 0 where
  pub ids : Option V3Ids
  pub statuses : Option V3Statuses

unfoldable pub filter_into : TaskFilter → V3TaskFilter
unfolding ids_into statuses_into
filter_into f = record {
  ids = to_option ids_into f.ids;
  statuses = to_option statuses_into f.statuses;
}

unfoldable pub filter_from : V3TaskFilter → TaskFilter
unfolding ids_from statuses_from
filter_from w = record {
  ids = from_option ids_from default_ids w.ids;
  statuses = from_option statuses_from default_statuses w.statuses;
}

-- The statuses that a filter selects, as its documentation says; statuses are compared by their codes.
abbrev same_code : ℤ → ℤ → Bool
same_code (pos a) (pos b) = a == b
same_code (negsuc a) (negsuc b) = a == b
same_code _ _ = false

abbrev among : ℤ → List ℤ → Bool
among c [] = false
among c (d ∷ ds) = same_code c d || among c ds

unfoldable pub selects : TaskFilterStatuses → TaskStatus → Bool
selects (include statuses) t = among (as_i32 t) (map as_i32 statuses)
selects (exclude statuses) t = not (among (as_i32 t) (map as_i32 statuses))

-- The statuses that a message selects, as the protocol says.
unfoldable pub v3_selects : V3Statuses → TaskStatus → Bool
v3_selects (included codes) t = among (as_i32 t) codes
v3_selects (excluded codes) t = not (among (as_i32 t) codes)

abbrev pub opposite : TaskFilterStatuses → TaskFilterStatuses
opposite (include statuses) = exclude statuses
opposite (exclude statuses) = include statuses
