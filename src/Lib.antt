-- ===== src/Lib.antt =====
-- Model Relay: a gateway that sends a Session's requests to language models and decides, for each
-- request, whether and how the provider's prompt cache is used.
--
-- The decision runs in stages, each a pure function of frozen facts. `CacheIntentResolver` screens
-- the mechanisms that a supply's contract and a protocol's profile declare and forecasts the reuse
-- of a prefix. `build_unified_plan` freezes the eligible candidates in one plan. Before dispatch
-- the branches are assessed (tokens counted, resources looked up, costs estimated), and
-- `arbitrate_unified_plan` selects among the frozen branches alone. `prepare_breakpoint_binding`
-- places explicit breakpoints, and `normalize_cache_usage` reads from the provider's usage report
-- what the cache did. Two executors run a Request, one for a caller that waits and one for a worker
-- that holds a lease; what they write of a failure depends on whether the Request was sent.
--
-- Files and the code that they model:
--   Cache/Contracts       app/cache/contracts.py: mechanisms, modes, errors, the trial grant
--   Cache/Planner/Reasons app/cache/planner.py: the two frozen sets of reasons
--   Cache/Planner/Plan    app/cache/planner.py: build_unified_plan, candidate_execution_plan; the
--                         loop's variables are the record Screen, one round is screen_one
--   Cache/Planner/Arbitration
--                         app/cache/planner.py: arbitrate_unified_plan, final_track_facts
--   Cache/Planner/Choice, Screening, Pipeline
--                         theorems on arbitration, on screening, and on both in sequence
--   Cache/Resolver/Admission
--                         app/cache/intent_resolver.py: the loop of CacheIntentResolver.resolve that
--                         admits mechanisms; theorems in Admission/Grants
--   Cache/Resolver/Threshold
--                         the loop of resolve that fills `eligible` and `rejections`; theorems in
--                         Threshold/Evidence
--   Cache/Resolver/Gates  the request's own words, the tests after admission and the refusals at the
--                         end of resolve; theorems in Gates/Policy
--   Cache/Resolver/Request, Resources
--                         the arguments of resolve with the facts derived from them, _none, and the
--                         function resource_economics
--   Cache/Resolver/Unified
--                         resolve as a whole where it returns conditions for a unified plan; theorems
--                         in Unified/Order and Unified/Entitled
--   Cache/Economics/Numbers, Prices
--                         app/cache/economics.py: _nonnegative and the price schedule
--   Cache/Economics/Forecast
--                         estimate_future_reuses, estimate_ttl_bounded_future_reuses
--   Cache/Economics/NewResource, CurrentRead, Relative, Snapshot
--                         evaluate_new_resource, evaluate_current_read_resource,
--                         evaluate_relative_cache_strategy, evaluate_v65_snapshot_cost
--   Cache/Economics/Attachments
--                         stable_attachment_evidence
--   Cache/Economics/Budget, Evidence, Forecast/Bounds, Attachments/Laws
--                         theorems on the evaluators, the forecasts and the attachment signal
--   Cache/Breakpoints     app/cache/breakpoints.py; theorems in Breakpoints/Placement
--   Cache/Usage           app/cache/usage.py; theorems in Usage/Status
--   Cache/Affinity        app/cache/affinity.py: drift_reason; theorems in Affinity/Streak
--   Cache/Prefix          app/cache/prefix.py; theorems in Prefix/Guard
--   Execution/Calls       app/execution/errors.py, and the rows and calls that the executors share
--   Execution/Failure, Inline, Queue
--                         app/execution/inline_executor.py and queue_executor.py: execute, as the list
--                         of the calls of a run; theorems in Inline/Fenced, Queue/Recovery and Agreement
--   Materials/Selector    app/materials/cache_selector.py; theorems in Selector/Distinct, Greedy and
--                         Selection
--   Wire/Json             app/core/context_normalizer.py: canonical_structure, serialize_wire, and the
--                         text of json.dumps
--   Wire/Fragments, Chain, Prefix
--                         app/core/cache_fingerprint.py: _wire_fragments, physical_chain (both
--                         formats), compute_lcp_diff; theorems in Fragments/Partition, Chain/Cover and
--                         Prefix/Agreement
--   Routing/Outcome       the results of app/routing/route_resolver.py
--   Routing/Catalog, Requirements
--                         app/routing/catalog.py: RouteEntry, RouteCatalog, and with
--                         app/control_plane.py the requirements of a capability contract
--   Routing/Resolver, Resolver/Binding
--                         app/routing/route_resolver.py: the tests on candidates, the decision, the
--                         binding and resolve; theorems in Resolver/Positions, Reference, Servable
--                         and Served
--   Routing/SupplyGroup   app/routing/gemini_supply_group.py: materialize_supply_group; theorems in
--                         SupplyGroup/Qualified
--   ModelOptions, ModelOptions/Payload, Contract, Legacy
--                         app/model_options.py: the check of a value, the deprecated payload, the
--                         resolution under a contract and without one; theorems in Rules and Resolved
--   Python/Value, Text, Runtime
--                         the dynamic values that mappings hold, and the interpreter's operations
--   Tests                 the theorems at concrete inputs, with a fixed-point runtime
--
-- How the code is modelled. A configuration mapping is a list of fields, read by `get` and written
-- by `put` and `merge`; a record with fixed keys is a record. An exception is `raised`, with the
-- code and the reason of a `CacheDecisionError`; its message is fixed prose and is left out, and
-- `value_error` stands for the interpreter's own exceptions. Floats are a parameter: the record
-- `Runtime` holds the type of floats with its comparisons, operations and conversions, and no
-- theorem assumes a law of them, so each holds of IEEE arithmetic with its rounding, its infinities
-- and its NaN; an integer that is too large for a float, at which the interpreter raises an
-- `OverflowError`, is outside the model. Integers are unbounded, as in the language. Text is folded
-- and stripped on ASCII characters. The executors are modelled by the calls that they make to the
-- repository, the error recorder and the runtime, whose answers are arguments: a run is the list of
-- its calls, and a call outside the executor's `try` that raises cuts that list short. Digests,
-- differences of times, the interpreter's dict(x), file-name patterns, the settings and the
-- registries that routing asks are parameters. All recursion is structural, on the data that is
-- walked; no fuel is used.
--
-- Not modelled: the plans that CacheIntentResolver.resolve returns for an upgrade before version 4
-- or under the mode legacy_v1; the digests of plans and of evidence keys (hashes of frozen facts),
-- the canonical mappings that are stored, log lines, and everything that talks to a network, a
-- database or a file. The assessments that arbitration reads, and the usage report, are inputs.
pub mod Cache
pub mod Execution
pub mod Materials
pub mod ModelOptions
pub mod Prelude
pub mod Python
pub mod Routing
pub mod Tests
pub mod Wire
