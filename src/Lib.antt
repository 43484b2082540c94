-- ===== src/Lib.antt =====
-- The SRE operator watches SREPolicy objects and reports on virtual machines. This library models its
-- own logic and states what that logic guarantees.
--
-- Parts, and how they interact. The reconciler (internal/controller/srepolicy_controller.go) runs one
-- cycle for a policy: it gathers findings from checks, from the Prometheus client
-- (internal/prometheus) and from the log collector (internal/diagnostics/logcollector.go), lets the
-- remediation engine (internal/remediation/remediation.go) act on them, and writes the sorted, capped
-- and counted findings into the policy's status (api/v1alpha1).
--
-- - Common: texts as lists of bytes, Go maps as association lists, counts, Go's integers.
-- - Api: the structs and constants of api/v1alpha1/srepolicy_types.go and sreglobalconfig_types.go;
--   Memory is Go's slices, with the arrays that they share (`append`, `store`); Copy is the deep copies
--   of zz_generated.deepcopy.go and sreglobalconfig_types.go on objects in memory.
-- - Remediation: Engine is `Engine` (`apply`, `execute_step`) and `AlertDispatcher`; Topology is
--   `topologicalSort` (`build` its maps, `sources` its first queue, `drain` its loop, `relax` the
--   loop inside); Steps is `getStepState` and `setStepStatus`; Workflow is `WorkflowRunner.Run` (`visit_step` the body of its loop, `check_deps`
--   and `decide_step` the dependencies and the run condition, `conclude` its end); Settled has the
--   calls of `Run` as a step relation (`Runs`, `Reaches`).
-- - Controller: Findings is `sortFindingsByPriority`, the cap of `Reconcile` and `countBySeverity`;
--   Conditions is `setCondition` on lists, and its child Shared the same with its writes to memory
--   (`set_condition_in`); Interval is `minimumInterval`; Rotation is `rotateConfigMaps`;
--   Strings is `containsString` and `removeString`; Checks is `runBuiltInChecks` and
--   `runOCPClusterChecks`, with the interfaces of internal/checks/checks.go; Session is the reconciler's
--   own fields, with the reuse of its Prometheus client and `reconcileOTel`; Events is `emitEvents`;
--   World is what a call of `Reconcile` meets, and the calls that it makes (`Effect`); Gather is
--   `runPrometheusChecks` and `runLogCollection`; Cycle is the steps of `Reconcile` with
--   `handleDeletion` and `updatePhase`, and Reconcile their composition: of its children, Calls and
--   Protocol count the calls of a cycle by their kind, Counts is about the numbers of the final
--   status, Endpoint and Sessions about what a cycle leaves in the
--   reconciler's fields, Quiet and Shipped about a cycle
--   with the stubs of internal/checks, internal/diagnostics/stubs.go and internal/prometheus/stubs.go,
--   and Server and Lifecycle about calls one after the other, with what the API server stores.
-- - Diagnostics: Pods is the data of logcollector.go, Lines its functions on texts, Logs the collection,
--   Report `ToCheckResults` and `FormatReport`.
-- - Prometheus: Network is the data of client.go and Client its functions, Stubs is stubs.go.
-- - Telemetry: the provider and the log records of internal/telemetry/telemetry.go; Globals is the
--   process-wide providers that `NewProvider` sets (`install`).
-- - Main: `main` of main.go, as the calls that it makes and its exit status; Running has the calls of
--   `Reconcile` in the program it starts (`Reachable`).
-- - Tests: each theorem at concrete inputs.
--
-- State is passed on explicitly: `Run` takes the state behind its pointer and returns it, `get` returns
-- the client with its new token. Errors are values. The clock, the order in which Go ranges over a map,
-- regular expressions, HTTP, JSON, files, float64 and the API server are arguments: fields of
-- `Environment` in Diagnostics.Pods, of `Network` in Prometheus.Network, of `ConfigMaps` in
-- Controller.Rotation, of `World` in Controller.World. The order of ranging (`iteration`) is any that
-- visits each key as often as it stands among the keys (`Visits`).
--
-- Bounds. The loop of `topologicalSort` runs on fuel, one unit for a step taken from the queue; it is
-- given as many units as there are steps, and each step enters the queue at most once. Counters that
-- the source keeps as `int` are natural numbers or integers without a bound: they count entries of
-- slices in memory; what the status keeps as `int32` is converted (`to_int32`). `int32` fields of the
-- specification are integers as well; nothing is added to them.
--
-- Not modelled: tracing, logging, the texts around wrapped errors of the client, contexts and timeouts,
-- and the registration of types. Objects are values but in Api.Copy and Conditions.Shared, where the
-- array behind the conditions of a status is kept, and the capacity that `append` chooses for a new
-- array is an argument. A cycle carries the telemetry provider of its session; the process-wide
-- providers stand apart from it, as no other code of the program reads them.
pub mod Common
pub mod Api
pub mod Remediation
pub mod Controller
pub mod Diagnostics
pub mod Prometheus
pub mod Telemetry
pub mod Main
pub mod Tests
