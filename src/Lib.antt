-- ===== src/Lib.antt =====
-- Scampi, a tool that converges machines to a declared state. A configuration is lexed, parsed,
-- checked and evaluated (internal/lang), linked to step and target kinds (internal/linker), planned
-- and executed (internal/engine) by steps (internal/step) on targets (internal/target); events go
-- through an ordering stage to the output (internal/render). This library models the engine,
-- the lexer, the parser of type expressions, scopes, the assignability of types, the cache of identities, the in-memory target, permissions,
-- the redactor and the ordering stage.
--
-- Spec (internal/spec): the shared vocabulary. Spec.Resource is resource.go, Spec.Execution the
-- planned forms of execution.go. `Check` and `Execute` of an op talk to a target, and their answers
-- are arguments of the schedulers.
--
-- Engine (internal/engine):
--   * Engine.Duplicates, duplicate_provides.go: `detectDuplicateProvides`, which planning runs
--     before the step graph is built.
--   * Engine.Cycles, cycles.go: `detectCycles`. The recursion `dfs` runs on fuel, one unit for each
--     level of its depth. A call that is not answered at once marks a node that was not visited, so
--     a graph of `bound` nodes needs at most `bound + 1` units, which is what it is given.
--   * Engine.StepGraph, step_graph.go: `buildStepGraph`, `addEdge`, `initStepPending`. Nodes are
--     compared by pointer in the source and by index here; the record of a node is found in a store
--     from indices to records. The iteration order of the map `producers` is an argument.
--   * Engine.Planning, plan_cycles.go: `DetectStepCycles`, with `dedupCycles` and `rotationKey` of
--     cycles.go; it runs on the step graph before anything is executed. `ptrKey` is an argument.
--   * Engine.Countdown: the counters that both schedulers of exec.go keep, as one state.
--   * Engine.Steps, exec.go: `executePlan`, and the part of `checkPlan` that schedules, as a
--     relation. Every goroutine's start, stop and locked part is one move, in any order.
--   * Engine.OpGraph, exec.go: `buildPlan`, with its panics as errors. The loop over the queue runs
--     on fuel, one unit for each op of the step: an op enters the queue at most once.
--   * Engine.OpRun, exec.go: `runChecks`, `isDeferred`, `initPending`, `schedule`, and `runStep` as a
--     relation; Engine.OpRun.Report has `validateOpReport`, `buildStepReport` and `emitResult`.
--   * Engine.Hooks, hooks.go: `executeHooks`. The loop over the queue runs on fuel, one unit for each
--     hook id in the plan's lists: an id enters the queue at most once.
--   * Engine.Deploys, deploy_graph.go: `buildDeployGraph` on the indices of deploy blocks, with its
--     search for a cycle and the depths of the levels. Both recursions run on fuel, one unit more than there
--     are blocks: a block that is on the path is not entered again. Engine.Deploys.Run has
--     `runPlansConcurrent` and `runLevel` of engine.go.
-- A step is planned by Engine.OpGraph, run by Engine.OpRun, and scheduled among the others by
-- Engine.Steps over the graph of Engine.StepGraph, once Engine.Duplicates has passed. Engine.Hooks reads
-- the summaries that Engine.OpRun.Report makes, and runs the steps of hooks after the plan's. Each
-- deploy block has a plan of its own, and Engine.Deploys orders the blocks.
--
-- Lang (internal/lang): Lang.Token is token/token.go, Lang.Position token/pos.go, Lang.Lex
-- lex/lex.go. The lexer's state holds the source that is left, `src[pos:]`, beside `pos`; the loop over blanks runs on fuel, one unit more
-- than that source has bytes, since a turn that goes on takes a byte. Conversions to `uint32` keep
-- their remainder; only the texts of comments and identifiers are cut from the source at the offsets
-- themselves, which differs in sources of more than 2^32 bytes. Lang.Parse is parse/types.go with
-- `parseIdent` and `parseDottedName` of parse/decl.go;
-- `parseTypeExpr` runs on fuel, one unit more than there are tokens, since each call of it inside another
-- has fewer. Lang.Scope is check/scope.go, and Lang.Types check/types.go; the comparison of two pointers
-- to types is an argument.
--
-- Target (internal/target): Target.Identity is identity/cache.go; a lock is held throughout each of
-- its operations. Target.Kinds is target.go, and Target.Mem mem.go: one record holds the maps, and
-- Target.Mem.View states what the operations on files mean for partial functions of the path.
--
-- Perm is perm/perm.go, and Secret secret/redactor.go. Regular expressions are tests by clauses, and
-- `strings.ReplaceAll` is written out.
--
-- Render (internal/render): Render.Order is order/order.go. The loop of `advance` runs on fuel, one
-- unit for each block of the lane: a turn deletes one.
--
-- Base holds lists under native indices, stores, maps with a decidable key, and sums. Tests runs the
-- definitions on small plans.
--
-- Not modelled: the text of diagnostics and events, timeouts, the resolution of references between
-- steps (a step may fail to resolve, at any time), and the parts of the program outside the engine
-- that are not named above.
mod Base
pub mod Spec
pub mod Engine
pub mod Lang
pub mod Target
pub mod Render
pub mod Perm
pub mod Secret
mod Tests
