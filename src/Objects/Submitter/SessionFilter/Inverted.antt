-- ===== src/Objects/Submitter/SessionFilter/Inverted.antt =====
-- packages/rust/armonik/src/objects/submitter/session_filter.rs: the two kinds of status filter are
-- exchanged on the way to the protocol, and not on the way back.
use armoni_k_api.Common.{◌≡◌, refl, ap, Bool, true, false, not}
use armoni_k_api.Objects.Convert.{list-retract}
use armoni_k_api.Objects.Enums.SessionStatus.{SessionStatus, as_i32, from_i32, coded}
use armoni_k_api.Objects.Submitter.SessionFilter.{
  SessionFilterStatuses, include, exclude, statuses_into, statuses_from, default_statuses,
  SessionFilter, filter_into, filter_from, selects, v3_selects, opposite,
}

not-not : (b : Bool) → b ≡ not (not b)
not-not true = refl
not-not false = refl

-- The message of a filter selects exactly the statuses that the filter does not select.
pub session_statuses_inverted :
    (f : SessionFilterStatuses) (t : SessionStatus)
    → v3_selects (statuses_into f) t ≡ not (selects f t)
unfolding statuses_into selects v3_selects
session_statuses_inverted (include statuses) t = refl
session_statuses_inverted (exclude statuses) t = not-not _

statuses_from-statuses_into :
    (s : SessionFilterStatuses) → statuses_from (statuses_into s) ≡ opposite s
unfolding statuses_from statuses_into
statuses_from-statuses_into (include l) = ap exclude (list-retract as_i32 from_i32 coded.known l)
statuses_from-statuses_into (exclude l) = ap include (list-retract as_i32 from_i32 coded.known l)

-- A filter that is sent and received comes back with the same sessions, and with its statuses
-- included where they were excluded and excluded where they were included.
pub filter_from-filter_into :
    (f : SessionFilter) → filter_from (filter_into f) ≡ record f { statuses = opposite f.statuses }
unfolding filter_from filter_into
filter_from-filter_into f =
    λ i. record { ids = f.ids; statuses = statuses_from-statuses_into f.statuses i }

-- The filter that selects every status, which is the default, is sent as a message that selects none.
pub default_selects_none :
    (t : SessionStatus)
    → (selects default_statuses t ≡ true) × (v3_selects (statuses_into default_statuses) t ≡ false)
unfolding selects v3_selects statuses_into
default_selects_none t = (refl, refl)
