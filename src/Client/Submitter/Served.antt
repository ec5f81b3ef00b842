-- ===== src/Client/Submitter/Served.antt =====
-- The calls of the submitter against the server of packages/rust/armonik/src/server/submitter.rs.
use armoni_k_api.Common.{String, ◌≡◌, refl, sym, ap, subst, Option, List, ◌↔◌}
use armoni_k_api.Common.Outcome.{Result, ok, err, map_err, ◌>>=◌}
use armoni_k_api.Objects.DataChunk.{Output, output_into, output_from, output_from-output_into}
use armoni_k_api.Objects.TaskOptions.{TaskOptions}
use armoni_k_api.Objects.Submitter.CreateTasks.{
  TaskRequest, SmallRequest, small_into, small_from, small_from-small_into, Response, response_into,
  response_from, response_from-response_into,
}
use armoni_k_api.Rpc.Calls.{Status, grpc, Call}
use armoni_k_api.Rpc.Unary.{unary, client_call-unary}
use armoni_k_api.Client.Submitter.{
  done, judge_creation, judge_output, create_small_tasks, try_get_task_output, TaskOutputRequest,
  output_request_into, output_request_from,
}

-- The judgement of an answer is a success only for the task that succeeded.
judged_ok :
    (r : Result Output Status) → (map_err grpc r >>= judge_output) ≡ ok done ↔ r ≡ ok Output.success
unfolding judge_output
judged_ok (ok Output.success) = (λ _. refl, λ _. refl)
judged_ok (ok (Output.error details)) = (λ h. cc, λ h. cc)
judged_ok (err e) = (λ h. cc, λ h. cc)

module _ {S Context : Type 0} (context : Context) where
  -- `create_small_tasks` against a server runs the handler once, on the session, the options and the
  -- tasks that were given, and returns the statuses of its answer, its error, or the message of an
  -- error answer as an internal error.
  pub create_small_tasks-unary :
      (handler : SmallRequest → Context → Call S Status Response) (session : String)
      (options : Option TaskOptions) (tasks : List TaskRequest) (s : S)
      → let request : SmallRequest = record {
        session_id = session;
        task_options = options;
        task_requests = tasks;
      } in
        create_small_tasks
          (λ w. unary small_from response_into handler w context)
          session
          options
          tasks
          s
        ≡ (
          map_err grpc (handler request context s).0 >>= judge_creation,
          (handler request context s).1,
        )
  unfolding create_small_tasks
  create_small_tasks-unary handler session options tasks s =
      ap (λ c. (c.0 >>= judge_creation, c.1))
        (client_call-unary small_into small_from response_into response_from small_from-small_into
          response_from-response_into handler context
          (record { session_id = session; task_options = options; task_requests = tasks }) s)

  -- `try_get_task_output` against a server succeeds exactly when the handler says that the task
  -- succeeded: an error of the call and an error of the task both make it fail.
  pub try_get_task_output-ok_iff :
      (handler : TaskOutputRequest → Context → Call S Status Output) (session task : String) (s : S)
      → (try_get_task_output
            (λ w. unary output_request_from output_into handler w context)
            session
            task
            s).0
          ≡ ok done
        ↔ (handler (record { session_id = session; task_id = task }) context s).0
          ≡ ok Output.success
  unfolding try_get_task_output output_request_into output_request_from
  try_get_task_output-ok_iff handler session task s =
      let request : TaskOutputRequest = record { session_id = session; task_id = task } in
      subst
        (λ c. (c.0 >>= judge_output) ≡ ok done ↔ (handler request context s).0 ≡ ok Output.success)
        (sym (
          client_call-unary output_request_into output_request_from output_into output_from
            (λ _. refl) output_from-output_into handler context request s))
        (judged_ok (handler request context s).0)
