-- ===== src/Objects/Enums/Statuses.antt =====
-- packages/rust/armonik/src/objects/{task,session,result}_status.rs: the codes of the three statuses.
use armoni_k_api.Common.{ℤ, ◌≡◌, ◌≢◌}
use armoni_k_api.Objects.Enums.TaskStatus as TaskCodes
use armoni_k_api.Objects.Enums.TaskStatus.{TaskStatus}
use armoni_k_api.Objects.Enums.SessionStatus as SessionCodes
use armoni_k_api.Objects.Enums.SessionStatus.{SessionStatus}
use armoni_k_api.Objects.Enums.ResultStatus as ResultCodes
use armoni_k_api.Objects.Enums.ResultStatus.{ResultStatus}

-- Each status of a task, a session or a result is sent as the number that the protocol gives to the
-- value of that meaning, and is read back from it.
pub statuses_back :
    (t : TaskStatus) (s : SessionStatus) (r : ResultStatus)
    → (TaskCodes.as_i32 t ≡ TaskCodes.v3_as_i32 (TaskCodes.into_v3 t))
      × (TaskCodes.from_i32 (TaskCodes.as_i32 t) ≡ t)
      × (SessionCodes.as_i32 s ≡ SessionCodes.v3_as_i32 (SessionCodes.into_v3 s))
      × (SessionCodes.from_i32 (SessionCodes.as_i32 s) ≡ s)
      × (ResultCodes.as_i32 r ≡ ResultCodes.v3_as_i32 (ResultCodes.into_v3 r))
      × (ResultCodes.from_i32 (ResultCodes.as_i32 r) ≡ r)
statuses_back t s r = (
  TaskCodes.mirrored.numbers t,
  TaskCodes.coded.known t,
  SessionCodes.mirrored.numbers s,
  SessionCodes.coded.known s,
  ResultCodes.mirrored.numbers r,
  ResultCodes.coded.known r,
)

-- A number that is the code of no status is read as the unspecified status, for each of the three.
pub statuses_unknown :
    (v : ℤ)
    → ((t : TaskStatus) → TaskCodes.as_i32 t ≢ v)
    → ((s : SessionStatus) → SessionCodes.as_i32 s ≢ v)
    → ((r : ResultStatus) → ResultCodes.as_i32 r ≢ v)
    → (TaskCodes.from_i32 v ≡ TaskStatus.unspecified)
      × (SessionCodes.from_i32 v ≡ SessionStatus.unspecified)
      × (ResultCodes.from_i32 v ≡ ResultStatus.unspecified)
statuses_unknown v t s r =
    (TaskCodes.coded.unknown v t, SessionCodes.coded.unknown v s, ResultCodes.coded.unknown v r)
