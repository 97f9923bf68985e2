-- ===== src/Lib.antt =====
-- A model of the business core of the coreops-platform backend (backend/app), with its theorems.
--
-- The backend is a multi-tenant FastAPI service over a SQL database. Each module has a service class
-- whose methods check, change and save rows. Here the tables are records of lists, a method is a
-- function from the tables to a result (`Base.Calls`), an exception is a value, and a query is a
-- selection of rows. Identifiers are numbers that are primary keys, codes are texts, dates are
-- numbers of days, instants numbers of microseconds, and money is an integer of hundredths
-- (`Base.Int`). What is written before an exception is rolled back with the session, which the model
-- shows by a result without tables; where a method commits or rolls back on the way the model says so.
--
-- Platform (backend/app/core/modules.py, core/entitlements.py): `Platform.Guard` is ModuleGuard and
-- `Platform.Entitlements` is EntitlementService, over the rows of `Platform.Defs`; `Platform.Usage`
-- has a theorem on the limits.
--
-- Booking (backend/app/modules/booking): `Booking.Model` has the rows and the inputs,
-- `Booking.Timezone` service/timezone.py, `Booking.Repository` repository.py, `Booking.Orders`
-- service/order.py, `Booking.Availability` service/availability.py and `Booking.Hold`
-- service/hold.py, each function under its method's name. An order holds its items. `create_hold`
-- is `sweep`, up to the commit of the expired holds, then `place_hold`, which gives the tables as the
-- session has them also where it raises, and `commit_hold`, which commits those or rolls them back. `Booking.CartCheck`, `Booking.Intervals`, `Booking.Lifecycle` and `Booking.Safety`
-- have the theorems; `Booking.Scenario` and `Booking.Tests` run the services on a small territory.
-- Time zones are a parameter (`ZoneRules`), as are fresh identifiers and the year of today
-- (`Context`). Row locks and concurrent transactions are not modelled: a call runs alone.
--
-- Finance (backend/app/modules/finance): `Finance.Model` has the rows and the inputs of models.py and
-- schemas.py, `Finance.Rounding` the rounding of a line's total, `Finance.Repository` repository.py,
-- `Finance.Invoices` and `Finance.Payments` the methods of service.py that write, and
-- `Finance.Reports` the receivables and the summary. `Books` holds the tables. A call takes the
-- instant, the dates of today and the fresh identifier from `Moment`; `value.strip().upper()` is the
-- parameter `upper_stripped`. The floats that the sums of the summary pass through
-- are parameters. Products of more than 28 digits and fractions of a hundredth in a payment are not
-- modelled. `Finance.Balance`, `Finance.Billing`, `Finance.Collection` and
-- `Finance.Receivables` have the theorems; `Finance.Scenario`, `Finance.Tests` and
-- `Finance.AllocationTests` run the operations.
--
-- Registry (backend/app/modules/module_registry/service.py): `Registry.Service` has the methods that
-- enable, disable, update and provision the modules of a tenant, over the guard of `Platform.Guard`;
-- `get_tenant_module` of the service is `find_tenant_module`. `Registry.Modes` is `set_module_mode` with
-- the check of backend/app/modules/integrations/service.py that it asks for. `Registry.Seed` is seed.py
-- and its writing to the tables. `Registry.Closure`, `Registry.Runs`, `Registry.Effects`,
-- `Registry.External` and `Registry.Seeded` have the theorems, and `Registry.Tests` and
-- `Registry.SeedTests` run the methods.
--
-- Parties (backend/app/modules/parties/custom_fields.py): `Parties.CustomFields` is CustomFieldService
-- over the rows of models.py, with the conversions of Python's builtins as the parameter `Builtins` of
-- `Parties.Values`. `Parties.FieldRoundTrip` and `Parties.Prepared` have the theorems, and
-- `Parties.Tests` runs the service on two fields.
--
-- Crm (backend/app/modules/workflows and backend/app/modules/process_overlay): `Crm.Model` has the rows
-- of both modules and the requests, `Crm.Repository` both repositories, and the record `Crm` holds all
-- tables. Workflows: `Crm.Pipelines`, `Crm.WorkItems` and `Crm.Moves` are WorkflowService, and `Crm.LeadTasks` is
-- service/lead_automation.py. Process overlay: `Crm.Policy` is policy_schema.py, with the
-- pattern of its forbidden keys in `Crm.PolicyKeys`, `Crm.Guard`
-- service/transitions.py, `Crm.ProcessRuns` service/runs.py, and `Crm.Publication`
-- service/configuration.py and service/publication.py. A move of a work item asks the guard, which
-- reads the policy of the version that the item's active run has pinned, and then tells the run its
-- new stage; the creation of an item starts a run where the pipeline has an active configuration; the
-- start of a run adds the first task. The unique indexes and the foreign keys that a call can run
-- into are checks of the calls. `PipelineStage` is a table of its own, `parse_policy` is
-- parse_policy_snapshot with the parameters of `Python`: what pydantic does before the validators of
-- the source, and its dump of a policy, which `Crm.PolicyDump` describes for `Crm.Published`. The
-- recursion over JSON is structural. `Crm.PolicyLaws`, `Crm.GuardLaws` and `Crm.Published` have the theorems on policies,
-- `Crm.FirstContact` that on the first task, and `Crm.Disposition` that on items opened again;
-- `Crm.Consistency` has the invariant of the tables, `Crm.Process` the process that a policy describes,
-- `Crm.Following`, `Crm.MovesConsistent`, `Crm.RunsKept`, `Crm.StartKept`, `Crm.ItemsKept`,
-- `Crm.ChangesKept`, `Crm.PipelinesKept`, `Crm.PipelineChanges` and `Crm.ConfigurationsKept` what each
-- call does to both, `Crm.Calls` any sequence of calls but publications, and `Crm.EveryCall` any sequence
-- with them. `Crm.Scenario`, `Crm.Decoding` and `Crm.Tests` run the services on a pipeline of three stages. Not modelled:
-- the seeding of templates, the audit trail, fingerprints of policies, and row locks.
--
-- Leads (backend/app/modules/public_leads/rate_limit.py): `Leads.RateLimit` is the sliding-window
-- limiter, `Leads.Buckets` and `Leads.Windows` have the theorems, and `Leads.Tests` runs it. An instant
-- is a number of microseconds. A call reads the clock before it takes the lock, so the instant is an
-- argument of the call, and the order in which calls are processed is the order of the steps. The rest of
-- public_leads is not modelled.
--
-- The recursion of every definition is structural, so no fuel is needed. Not modelled: HTTP routes,
-- Pydantic schemas as parsers, audit records, messages of exceptions, and the other modules of the
-- backend.
pub mod Base
pub mod Platform
pub mod Registry
pub mod Parties
pub mod Crm
pub mod Leads
pub mod Booking
pub mod Finance
