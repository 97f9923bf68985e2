-- ===== src/Crm.antt =====
-- The customer relations of backend/app/modules/workflows, and the process overlay of
-- backend/app/modules/process_overlay that guards the moves of their work items.
mod PolicyKeys
mod Policy
mod PolicyDump
mod PolicyLaws
mod Model
mod Repository
mod Guard
mod Consistency
mod GuardLaws
mod Process
mod Following
mod LeadTasks
mod FirstContact
mod ProcessRuns
mod Publication
mod Published
mod WorkItems
mod Moves
mod MovesConsistent
mod Disposition
mod RunsKept
mod StartKept
mod ItemsKept
mod ChangesKept
mod Pipelines
mod PipelinesKept
mod PipelineChanges
mod ConfigurationsKept
mod Calls
mod EveryCall
mod Decoding
mod Scenario
mod Tests
