-- ===== src/Lib.antt =====
-- The market_cell package of this repository (packages/python/src/market_cell), its execution fabric:
-- a graph of analysis cells is validated, each cell of it is placed on a service binding, the plan of
-- nodes and bindings is validated, its nodes are run level by level on inputs that are resolved by
-- reference, and a planned node is run with retries, fallback bindings, deadlines and concurrency
-- limits.
--
-- Paths are those under packages/python/src/market_cell.
-- - Prelude: Boolean tests, lists over the native numbers, identifiers and sets, results, sorting,
--   dictionaries, blank texts, and the emptiness of lists of issues.
-- - Graph.Models, Graph.Topology, Graph.Closure: graph/models.py and graph/topology.py. A mapping
--   from identifiers to nodes is the list of the nodes in insertion order. Topology.Counts and
--   Topology.Levels carry the invariant of the level search, Topology.Order and Topology.Acyclic
--   what it returns; Closure.Correct is about `dependency_closure`.
-- - Graph.Validation: graph/validation.py. Each `_validate_...` function returns the issues that the
--   source appends. Validation.WellFormed says what a good graph is, without the code;
--   Validation.Nodes, Roots, Dependencies and Organs take the validators one by one, and
--   Validation.Exact puts them together.
-- - Execution.Models, Execution.Outcomes: the records of execution/models.py and execution/executor.py
--   with the checks of their `__post_init__` methods. A constructor that raises is a check that
--   returns an error; Outcomes.Checked is about that of an outcome.
-- - Execution.Control: execution/control.py. Classify: failure classification. Identity: the keys and
--   digests. Environment: what a call of the delegate and the clock may answer. Attempts:
--   `_execute_attempt`. Loop: `execute` with its retries and fallbacks, the attempt records and the
--   control record; an error of a constructor ends both loops and is raised. Admission: the concurrency controller and its leases. Loop.Rule is the rule by
--   which the other modules prove an invariant of the loop.
-- - Execution.Placement: execution/placement.py; Ranks is about its order, Selection and Decisions about
--   what `select` returns. Execution.Catalog: execution/catalog.py, and Catalog.Placed composes the
--   catalog with the placement. Execution.Planner: execution/planner.py, which places cells, lists
--   bindings and composes inputs, and in Planner.Build the plan; any policy is a function of the
--   candidates there, and the reference of the request is given.
-- - Execution.Plans, Execution.Validation: execution/plan_validation.py. The structural rules of a plan
--   are those of its graph: Validation.Structure carries them over, Validation.Kinds and Nodes take
--   the checks of one node, Validation.Uses relates the lists that the checks build to the nodes and
--   references they stand for, Validation.Sound and Exact put them together.
-- - Execution.Traces: the validations of a trace, against its context and (Traces.Planned) against its
--   plan, of execution/executor.py; Traces.Agrees relates the two. Execution.Control.Conformity:
--   the validation of a control record against its context.
-- - Inputs: inputs/models.py and inputs/resolver.py. Inputs.Bundles: the typed inputs of a node.
--   Inputs.Identity: identifiers and references of snapshots, with hashing as a parameter.
--   Inputs.Resolver: the local store; Resolver.Stored is about any sequence of its calls.
-- - Execution.Registry: registry.py. Execution.Router: execution/router.py, with the checked
--   dictionaries of routes and the executors as parameters; Router.Routed is about what it returns.
-- - Execution.Coordinator: execution/coordinator.py. Environment: what it calls. Inputs: the inputs of a
--   node, with the caches of snapshots and requests. Node: the run of one node. Loop: the loops over
--   the levels and the outcome. Order, Visits, Returns and Available prove what the run does. A step
--   returns or raises and keeps the changes of the variables either way.
-- - Tests: small inputs, with the theorems applied to them.
--
-- Numbers are natural numbers: rates are counted in millionths and durations in units of a millionth
-- of a millisecond, to which the source rounds them; that they are not negative is their type.
-- The level search runs on as much fuel as there are nodes, since each level visits one, and the
-- closure on one unit for each root and each listed dependency. The retries and the fallbacks
-- recurse on the retries left and on the list of candidates.
--
-- Not modelled: free metadata, descriptions and message texts; the digest, the clock, the delegate,
-- the executor and the resolver of the coordinator, the reading of a request out of a payload and the
-- cancellation signal, which are parameters; worker threads, of which only the answer in
-- time or the missed deadline is seen. The floating point formulas of the cells, the providers,
-- storage and the command line are outside of this library.
pub mod Prelude
pub mod Execution
pub mod Inputs
pub mod Graph
pub mod Tests
