-- ===== src/Objects/Results/OwnerTaskId.antt =====
-- packages/rust/armonik/src/objects/results/get_owner_task_id.rs: the task that owns each of some
-- results.
use armoni_k_api.Common.{String, ◌≡◌, refl, List, [], map, ◌=s=◌, map-map_retract}
use armoni_k_api.Common.HashMap.{HashMap, Iteration, collect}

pub record OwnersRequest : Type 0 where
  pub session_id : String
  pub result_ids : List String

pub record V3OwnersRequest : Type 0 where
  pub session_id : String
  pub result_id : List String

abbrev pub default_owners_request : OwnersRequest
default_owners_request = record { session_id = ""; result_ids = [] }

unfoldable pub owners_request_into : OwnersRequest → V3OwnersRequest
owners_request_into r = record { session_id = r.session_id; result_id = r.result_ids }

unfoldable pub owners_request_from : V3OwnersRequest → OwnersRequest
owners_request_from w = record { session_id = w.session_id; result_ids = w.result_id }

pub owners_request_back : (r : OwnersRequest) → owners_request_from (owners_request_into r) ≡ r
unfolding owners_request_from owners_request_into
owners_request_back r = refl

pub record Owners : Type 0 where
  pub result_task : HashMap String String
  pub session_id : String

pub record V3MapResultTask : Type 0 where
  pub result_id : String
  pub task_id : String

pub record V3Owners : Type 0 where
  pub result_task : List V3MapResultTask
  pub session_id : String

abbrev owners_entry_into : String × String → V3MapResultTask
owners_entry_into (k, v) = record { result_id = k; task_id = v }

abbrev owners_entry_from : V3MapResultTask → String × String
owners_entry_from w = (w.result_id, w.task_id)

unfoldable pub owners_into : Iteration → Owners → V3Owners
owners_into it r = record {
  result_task = map owners_entry_into (it.order r.result_task);
  session_id = r.session_id;
}

unfoldable pub owners_from : V3Owners → Owners
owners_from w = record {
  result_task = collect ◌=s=◌ (map owners_entry_from w.result_task);
  session_id = w.session_id;
}

-- The map is collected again from its entries, in the order in which it was iterated over.
abbrev pub owners_read : Iteration → Owners → Owners
owners_read it r = record r { result_task = collect ◌=s=◌ (it.order r.result_task) }

pub owners_back : (it : Iteration) (r : Owners) → owners_from (owners_into it r) ≡ owners_read it r
unfolding owners_from owners_into
owners_back it r = λ i. record {
  result_task =
      collect ◌=s=◌ (
        map-map_retract owners_entry_into owners_entry_from (λ e. refl) (it.order r.result_task) i);
  session_id = r.session_id;
}
