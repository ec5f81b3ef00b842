-- ===== src/Objects/Tasks/Listed.antt =====
-- packages/rust/armonik/src/objects/tasks: the lists of tasks that are returned, in list.rs,
-- list_detailed.rs and cancel.rs.
use armoni_k_api.Common.{ℤ, pos, String, ◌≡◌, refl, ap₂, List, [], ◌∷◌, map}
use armoni_k_api.Objects.Convert.{into_collect, list-retract}
use armoni_k_api.Objects.Tasks.Summary.{
  Summary, V3TaskSummary, summary_into, summary_from, summary_from-summary_into, output_kept,
}
use armoni_k_api.Objects.Tasks.Raw.{Raw, V3TaskDetailed, raw_into, raw_from, raw_back}

-- A summary on its way: an error with an empty message is read back as a success.
abbrev pub summary_read : Summary → Summary
summary_read s = record s { output = output_kept s.output }

summaries_back :
    (l : List Summary)
    → into_collect summary_from (into_collect summary_into l) ≡ map summary_read l
summaries_back [] = refl
summaries_back (s ∷ l) = ap₂ (λ a b. a ∷ b) (summary_from-summary_into s) (summaries_back l)

pub record ListResponse : Type 0 where
  pub tasks : List Summary
  pub page : ℤ
  pub page_size : ℤ
  pub total : ℤ

pub record V3ListResponse : Type 0 where
  pub tasks : List V3TaskSummary
  pub page : ℤ
  pub page_size : ℤ
  pub total : ℤ

abbrev pub default_list_response : ListResponse
default_list_response = record { tasks = []; page = pos 0; page_size = pos 100; total = pos 0 }

unfoldable pub list_response_into : ListResponse → V3ListResponse
list_response_into r = record {
  tasks = into_collect summary_into r.tasks;
  page = r.page;
  page_size = r.page_size;
  total = r.total;
}

unfoldable pub list_response_from : V3ListResponse → ListResponse
list_response_from w = record {
  tasks = into_collect summary_from w.tasks;
  page = w.page;
  page_size = w.page_size;
  total = w.total;
}

-- What becomes of an answer on its way.
abbrev pub list_response_read : ListResponse → ListResponse
list_response_read r = record r { tasks = map summary_read r.tasks }

pub list_response_back :
    (r : ListResponse) → list_response_from (list_response_into r) ≡ list_response_read r
unfolding list_response_from list_response_into
list_response_back r = λ i. record {
  tasks = summaries_back r.tasks i;
  page = r.page;
  page_size = r.page_size;
  total = r.total;
}

pub record DetailedResponse : Type 0 where
  pub tasks : List Raw
  pub page : ℤ
  pub page_size : ℤ
  pub total : ℤ

pub record V3DetailedResponse : Type 0 where
  pub tasks : List V3TaskDetailed
  pub page : ℤ
  pub page_size : ℤ
  pub total : ℤ

abbrev pub default_detailed_response : DetailedResponse
default_detailed_response = record { tasks = []; page = pos 0; page_size = pos 100; total = pos 0 }

unfoldable pub detailed_response_into : DetailedResponse → V3DetailedResponse
detailed_response_into r = record {
  tasks = into_collect raw_into r.tasks;
  page = r.page;
  page_size = r.page_size;
  total = r.total;
}

unfoldable pub detailed_response_from : V3DetailedResponse → DetailedResponse
detailed_response_from w = record {
  tasks = into_collect raw_from w.tasks;
  page = w.page;
  page_size = w.page_size;
  total = w.total;
}

pub detailed_response_back :
    (r : DetailedResponse) → detailed_response_from (detailed_response_into r) ≡ r
unfolding detailed_response_from detailed_response_into
detailed_response_back r = λ i. record {
  tasks = list-retract raw_into raw_from raw_back r.tasks i;
  page = r.page;
  page_size = r.page_size;
  total = r.total;
}

pub record CancelRequest : Type 0 where
  pub task_ids : List String

pub record V3CancelRequest : Type 0 where
  pub task_ids : List String

abbrev pub default_cancel_request : CancelRequest
default_cancel_request = record { task_ids = [] }

unfoldable pub cancel_request_into : CancelRequest → V3CancelRequest
cancel_request_into r = record { task_ids = r.task_ids }

unfoldable pub cancel_request_from : V3CancelRequest → CancelRequest
cancel_request_from w = record { task_ids = w.task_ids }

pub cancel_request_back : (r : CancelRequest) → cancel_request_from (cancel_request_into r) ≡ r
unfolding cancel_request_from cancel_request_into
cancel_request_back r = refl

pub record CancelResponse : Type 0 where
  pub tasks : List Summary

pub record V3CancelResponse : Type 0 where
  pub tasks : List V3TaskSummary

abbrev pub default_cancel_response : CancelResponse
default_cancel_response = record { tasks = [] }

unfoldable pub cancel_response_into : CancelResponse → V3CancelResponse
cancel_response_into r = record { tasks = into_collect summary_into r.tasks }

unfoldable pub cancel_response_from : V3CancelResponse → CancelResponse
cancel_response_from w = record { tasks = into_collect summary_from w.tasks }

-- What becomes of an answer on its way.
abbrev pub cancel_response_read : CancelResponse → CancelResponse
cancel_response_read r = record r { tasks = map summary_read r.tasks }

pub cancel_response_back :
    (r : CancelResponse) → cancel_response_from (cancel_response_into r) ≡ cancel_response_read r
unfolding cancel_response_from cancel_response_into
cancel_response_back r = λ i. record { tasks = summaries_back r.tasks i }
