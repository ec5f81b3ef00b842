-- ===== src/Objects/Sessions/Requests.antt =====
-- packages/rust/armonik/src/objects/sessions: the requests and the answers of the calls on one session.
use armoni_k_api.Common.{String, ◌≡◌, refl, Bool, false, Option, List, []}
use armoni_k_api.Objects.Convert.{to_option, from_option}
use armoni_k_api.Objects.TaskOptions.{
  TaskOptions, V3TaskOptions, default_task_options, options_into, options_from,
  options_from-options_into,
}
use armoni_k_api.Objects.Sessions.Raw.{Raw, V3Raw, default_raw, raw_into, raw_from, raw_back}

-- `get::Request`, and the requests of the same shape of `cancel`, `pause`, `resume`, `close`, `purge` and
-- `delete`.
pub record SessionRequest : Type 0 where
  pub session_id : String

pub record V3SessionRequest : Type 0 where
  pub session_id : String

abbrev pub default_session_request : SessionRequest
default_session_request = record { session_id = "" }

unfoldable pub session_request_into : SessionRequest → V3SessionRequest
session_request_into r = record { session_id = r.session_id }

unfoldable pub session_request_from : V3SessionRequest → SessionRequest
session_request_from w = record { session_id = w.session_id }

pub session_request_back : (r : SessionRequest) → session_request_from (session_request_into r) ≡ r
unfolding session_request_from session_request_into
session_request_back r = refl

-- `get::Response`, and the answers of the same shape of the other calls on one session.
pub record SessionReply : Type 0 where
  pub session : Raw

pub record V3SessionReply : Type 0 where
  pub session : Option V3Raw

abbrev pub default_session_reply : SessionReply
default_session_reply = record { session = default_raw }

unfoldable pub session_reply_into : SessionReply → V3SessionReply
session_reply_into r = record { session = to_option raw_into r.session }

unfoldable pub session_reply_from : V3SessionReply → SessionReply
session_reply_from w = record { session = from_option raw_from default_raw w.session }

pub session_reply_back : (r : SessionReply) → session_reply_from (session_reply_into r) ≡ r
unfolding session_reply_from session_reply_into
session_reply_back r = λ i. record { session = raw_back r.session i }

pub record StopRequest : Type 0 where
  pub session_id : String
  pub client : Bool
  pub worker : Bool

pub record V3StopRequest : Type 0 where
  pub session_id : String
  pub client : Bool
  pub worker : Bool

abbrev pub default_stop_request : StopRequest
default_stop_request = record { session_id = ""; client = false; worker = false }

unfoldable pub stop_request_into : StopRequest → V3StopRequest
stop_request_into r = record { session_id = r.session_id; client = r.client; worker = r.worker }

unfoldable pub stop_request_from : V3StopRequest → StopRequest
stop_request_from w = record { session_id = w.session_id; client = w.client; worker = w.worker }

pub stop_request_back : (r : StopRequest) → stop_request_from (stop_request_into r) ≡ r
unfolding stop_request_from stop_request_into
stop_request_back r = refl

pub record CreateRequest : Type 0 where
  pub default_task_options : TaskOptions
  pub partition_ids : List String

pub record V3CreateRequest : Type 0 where
  pub default_task_option : Option V3TaskOptions
  pub partition_ids : List String

abbrev pub default_create_request : CreateRequest
default_create_request = record { default_task_options = default_task_options; partition_ids = [] }

unfoldable pub create_request_into : CreateRequest → V3CreateRequest
create_request_into r = record {
  default_task_option = to_option options_into r.default_task_options;
  partition_ids = r.partition_ids;
}

unfoldable pub create_request_from : V3CreateRequest → CreateRequest
create_request_from w = record {
  default_task_options = from_option options_from default_task_options w.default_task_option;
  partition_ids = w.partition_ids;
}

pub create_request_back : (r : CreateRequest) → create_request_from (create_request_into r) ≡ r
unfolding create_request_from create_request_into
create_request_back r = λ i. record {
  default_task_options = options_from-options_into r.default_task_options i;
  partition_ids = r.partition_ids;
}

pub record CreateReply : Type 0 where
  pub session_id : String

pub record V3CreateReply : Type 0 where
  pub session_id : String

abbrev pub default_create_reply : CreateReply
default_create_reply = record { session_id = "" }

unfoldable pub create_reply_into : CreateReply → V3CreateReply
create_reply_into r = record { session_id = r.session_id }

unfoldable pub create_reply_from : V3CreateReply → CreateReply
create_reply_from w = record { session_id = w.session_id }

pub create_reply_back : (r : CreateReply) → create_reply_from (create_reply_into r) ≡ r
unfolding create_reply_from create_reply_into
create_reply_back r = refl
