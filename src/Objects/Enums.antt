-- ===== src/Objects/Enums.antt =====
-- packages/rust/armonik/src/objects: the enums that travel as numbers, one module each.
pub mod TaskStatus
pub mod ResultStatus
pub mod SessionStatus
pub mod SortDirection
pub mod EventsEnum
pub mod HealthStatus
pub mod FilterStringOperator
pub mod FilterNumberOperator
pub mod FilterDateOperator
pub mod FilterDurationOperator
pub mod FilterArrayOperator
pub mod FilterBooleanOperator
pub mod FilterStatusOperator
pub mod TaskOptionField
pub mod SummaryField
pub mod RawField
pub mod Statuses
