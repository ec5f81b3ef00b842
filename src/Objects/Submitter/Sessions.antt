-- ===== src/Objects/Submitter/Sessions.antt =====
-- packages/rust/armonik/src/objects/submitter and configuration.rs: the requests and the answers that are
-- about sessions, and the configuration.
use armoni_k_api.Common.{ℤ, pos, String, ◌≡◌, refl, Option, List, []}
use armoni_k_api.Objects.Convert.{to_option, from_option}
use armoni_k_api.Objects.TaskOptions.{
  TaskOptions, V3TaskOptions, default_task_options, options_into, options_from,
  options_from-options_into,
}
use armoni_k_api.Objects.Submitter.SessionFilter.{
  SessionFilter, V3SessionFilter, filter_into, filter_from, opposite,
}
use armoni_k_api.Objects.Submitter.SessionFilter.Inverted.{filter_from-filter_into}

pub record CreateRequest : Type 0 where
  pub default_task_options : TaskOptions
  pub partition_ids : List String

pub record V3CreateRequest : Type 0 where
  pub default_task_option : Option V3TaskOptions
  pub partition_ids : List String

abbrev pub default_create_request : CreateRequest
default_create_request = record { default_task_options = default_task_options; partition_ids = [] }

unfoldable pub create_request_into : CreateRequest → V3CreateRequest
create_request_into r = record {
  default_task_option = to_option options_into r.default_task_options;
  partition_ids = r.partition_ids;
}

unfoldable pub create_request_from : V3CreateRequest → CreateRequest
create_request_from w = record {
  default_task_options = from_option options_from default_task_options w.default_task_option;
  partition_ids = w.partition_ids;
}

pub create_request_back : (r : CreateRequest) → create_request_from (create_request_into r) ≡ r
unfolding create_request_from create_request_into
create_request_back r = λ i. record {
  default_task_options = options_from-options_into r.default_task_options i;
  partition_ids = r.partition_ids;
}

pub record CreateReply : Type 0 where
  pub session_id : String

pub record V3CreateReply : Type 0 where
  pub session_id : String

abbrev pub default_create_reply : CreateReply
default_create_reply = record { session_id = "" }

unfoldable pub create_reply_into : CreateReply → V3CreateReply
create_reply_into r = record { session_id = r.session_id }

unfoldable pub create_reply_from : V3CreateReply → CreateReply
create_reply_from w = record { session_id = w.session_id }

pub create_reply_back : (r : CreateReply) → create_reply_from (create_reply_into r) ≡ r
unfolding create_reply_from create_reply_into
create_reply_back r = refl

pub record CancelRequest : Type 0 where
  pub session_id : String

pub record V3CancelRequest : Type 0 where
  pub id : String

abbrev pub default_cancel_request : CancelRequest
default_cancel_request = record { session_id = "" }

unfoldable pub cancel_request_into : CancelRequest → V3CancelRequest
cancel_request_into r = record { id = r.session_id }

unfoldable pub cancel_request_from : V3CancelRequest → CancelRequest
cancel_request_from w = record { session_id = w.id }

pub cancel_request_back : (r : CancelRequest) → cancel_request_from (cancel_request_into r) ≡ r
unfolding cancel_request_from cancel_request_into
cancel_request_back r = refl

-- The request of the configuration is the empty message.
pub record Configuration : Type 0 where
  pub data_chunk_max_size : ℤ

pub record V3Configuration : Type 0 where
  pub data_chunk_max_size : ℤ

abbrev pub default_configuration : Configuration
default_configuration = record { data_chunk_max_size = pos 81920 }

unfoldable pub configuration_into : Configuration → V3Configuration
configuration_into r = record { data_chunk_max_size = r.data_chunk_max_size }

unfoldable pub configuration_from : V3Configuration → Configuration
configuration_from w = record { data_chunk_max_size = w.data_chunk_max_size }

pub configuration_back : (r : Configuration) → configuration_from (configuration_into r) ≡ r
unfolding configuration_from configuration_into
configuration_back r = refl

-- `list_sessions::Request`, a filter alone.
pub record SessionsRequest : Type 0 where
  pub filter : SessionFilter

unfoldable pub sessions_request_into : SessionsRequest → V3SessionFilter
sessions_request_into r = filter_into r.filter

unfoldable pub sessions_request_from : V3SessionFilter → SessionsRequest
sessions_request_from w = record { filter = filter_from w }

-- The filter that the server reads has the opposite statuses.
abbrev pub sessions_request_read : SessionsRequest → SessionsRequest
sessions_request_read r = record {
  filter = record r.filter { statuses = opposite r.filter.statuses };
}

pub sessions_request_back :
    (r : SessionsRequest)
    → sessions_request_from (sessions_request_into r) ≡ sessions_request_read r
unfolding sessions_request_from sessions_request_into
sessions_request_back r = λ i. record { filter = filter_from-filter_into r.filter i }

pub record SessionIds : Type 0 where
  pub session_ids : List String

pub record V3SessionIds : Type 0 where
  pub session_ids : List String

abbrev pub default_session_ids : SessionIds
default_session_ids = record { session_ids = [] }

unfoldable pub session_ids_into : SessionIds → V3SessionIds
session_ids_into r = record { session_ids = r.session_ids }

unfoldable pub session_ids_from : V3SessionIds → SessionIds
session_ids_from w = record { session_ids = w.session_ids }

pub session_ids_back : (r : SessionIds) → session_ids_from (session_ids_into r) ≡ r
unfolding session_ids_from session_ids_into
session_ids_back r = refl
