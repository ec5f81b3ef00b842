-- ===== src/Objects/Submitter/ResultStatuses.antt =====
-- packages/rust/armonik/src/objects/submitter/result_status.rs: the status of each of some results.
use armoni_k_api.Common.{ℤ, String, ◌≡◌, refl, List, [], map, ◌=s=◌, map-map_retract}
use armoni_k_api.Common.HashMap.{HashMap, Iteration, collect}
use armoni_k_api.Objects.Enums.ResultStatus as StatusCodes

pub record ResultStatusRequest : Type 0 where
  pub session_id : String
  pub result_ids : List String

pub record V3ResultStatusRequest : Type 0 where
  pub session_id : String
  pub result_ids : List String

abbrev pub default_result_status_request : ResultStatusRequest
default_result_status_request = record { session_id = ""; result_ids = [] }

unfoldable pub result_status_request_into : ResultStatusRequest → V3ResultStatusRequest
result_status_request_into r = record { session_id = r.session_id; result_ids = r.result_ids }

unfoldable pub result_status_request_from : V3ResultStatusRequest → ResultStatusRequest
result_status_request_from w = record { session_id = w.session_id; result_ids = w.result_ids }

pub result_status_request_back :
    (r : ResultStatusRequest) → result_status_request_from (result_status_request_into r) ≡ r
unfolding result_status_request_from result_status_request_into
result_status_request_back r = refl

pub record ResultStatuses : Type 0 where
  pub statuses : HashMap String StatusCodes.ResultStatus

pub record V3ResultStatusId : Type 0 where
  pub result_id : String
  pub status : ℤ

pub record V3ResultStatuses : Type 0 where
  pub id_statuses : List V3ResultStatusId

abbrev result_statuses_entry_into : String × StatusCodes.ResultStatus → V3ResultStatusId
result_statuses_entry_into (k, v) = record { result_id = k; status = StatusCodes.as_i32 v }

abbrev result_statuses_entry_from : V3ResultStatusId → String × StatusCodes.ResultStatus
result_statuses_entry_from w = (w.result_id, StatusCodes.from_i32 w.status)

result_statuses_entry_back :
    (e : String × StatusCodes.ResultStatus)
    → result_statuses_entry_from (result_statuses_entry_into e) ≡ e
result_statuses_entry_back e = λ i. (e.0, StatusCodes.coded.known e.1 i)

unfoldable pub result_statuses_into : Iteration → ResultStatuses → V3ResultStatuses
result_statuses_into it r = record {
  id_statuses = map result_statuses_entry_into (it.order r.statuses);
}

unfoldable pub result_statuses_from : V3ResultStatuses → ResultStatuses
result_statuses_from w = record {
  statuses = collect ◌=s=◌ (map result_statuses_entry_from w.id_statuses);
}

-- The map is collected again from its entries, in the order in which it was iterated over.
abbrev pub result_statuses_read : Iteration → ResultStatuses → ResultStatuses
result_statuses_read it r = record r { statuses = collect ◌=s=◌ (it.order r.statuses) }

pub result_statuses_back :
    (it : Iteration) (r : ResultStatuses)
    → result_statuses_from (result_statuses_into it r) ≡ result_statuses_read it r
unfolding result_statuses_from result_statuses_into
result_statuses_back it r = λ i. record {
  statuses = collect ◌=s=◌ (
      map-map_retract result_statuses_entry_into result_statuses_entry_from
        result_statuses_entry_back (it.order r.statuses) i);
}
