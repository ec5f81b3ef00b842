-- ===== src/Objects/Count.antt =====
-- packages/rust/armonik/src/objects/count.rs: the number of the tasks of each status.
use armoni_k_api.Common.{ℤ, ◌≡◌, Bool, List, map, map-map_retract}
use armoni_k_api.Common.HashMap.{HashMap, Iteration, collect}
use armoni_k_api.Objects.Enums.TaskStatus as StatusCodes
use armoni_k_api.Objects.StatusCount.{V3StatusCount}
use armoni_k_api.Objects.TaskOptions.{int_eq}

-- The equality that is derived for the keys: that of the numbers.
unfoldable pub status_eq : StatusCodes.TaskStatus → StatusCodes.TaskStatus → Bool
status_eq a b = int_eq (StatusCodes.as_i32 a) (StatusCodes.as_i32 b)

pub record Count : Type 0 where
  pub values : HashMap StatusCodes.TaskStatus ℤ

pub record V3Count : Type 0 where
  pub values : List V3StatusCount

abbrev count_entry_into : StatusCodes.TaskStatus × ℤ → V3StatusCount
count_entry_into (k, v) = record { status = StatusCodes.as_i32 k; count = v }

abbrev count_entry_from : V3StatusCount → StatusCodes.TaskStatus × ℤ
count_entry_from w = (StatusCodes.from_i32 w.status, w.count)

count_entry_back : (e : StatusCodes.TaskStatus × ℤ) → count_entry_from (count_entry_into e) ≡ e
count_entry_back e = λ i. (StatusCodes.coded.known e.0 i, e.1)

unfoldable pub count_into : Iteration → Count → V3Count
count_into it r = record { values = map count_entry_into (it.order r.values) }

unfoldable pub count_from : V3Count → Count
count_from w = record { values = collect status_eq (map count_entry_from w.values) }

-- The map is collected again from its entries, in the order in which it was iterated over.
abbrev pub count_read : Iteration → Count → Count
count_read it r = record r { values = collect status_eq (it.order r.values) }

pub count_back : (it : Iteration) (r : Count) → count_from (count_into it r) ≡ count_read it r
unfolding count_from count_into
count_back it r = λ i. record {
  values =
      collect status_eq
        (map-map_retract count_entry_into count_entry_from count_entry_back (it.order r.values) i);
}
