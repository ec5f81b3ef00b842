-- ===== src/Objects/StatusCount.antt =====
-- packages/rust/armonik/src/objects/status_count.rs: the number of the tasks of a status.
use armoni_k_api.Common.{ℤ, pos, ◌≡◌}
use armoni_k_api.Objects.Enums.TaskStatus as StatusCodes

pub record StatusCount : Type 0 where
  pub status : StatusCodes.TaskStatus
  pub count : ℤ

pub record V3StatusCount : Type 0 where
  pub status : ℤ
  pub count : ℤ

abbrev pub default_status_count : StatusCount
default_status_count = record { status = StatusCodes.default; count = pos 0 }

unfoldable pub status_count_into : StatusCount → V3StatusCount
status_count_into r = record { status = StatusCodes.as_i32 r.status; count = r.count }

unfoldable pub status_count_from : V3StatusCount → StatusCount
status_count_from w = record { status = StatusCodes.from_i32 w.status; count = w.count }

pub status_count_back : (r : StatusCount) → status_count_from (status_count_into r) ≡ r
unfolding status_count_from status_count_into
status_count_back r = λ i. record { status = StatusCodes.coded.known r.status i; count = r.count }
