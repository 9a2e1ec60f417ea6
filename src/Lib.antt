-- ===== src/Lib.antt =====
-- The bridge lets two coding agents work in one repository. Its protocol package
-- (shared/protocol/src) fixes the states of a task, the records that cross the bridge and the
-- meaning of a write scope; its control plane (shared/control-plane/src) keeps tasks, leases,
-- deliverables and an event log in an SQLite store, and every service writes through that store in
-- transactions.
--
-- Files, and the code that they are about:
--   Prelude: Boolean tests, lists over native numbers, and `Result`, the outcome of code that may
--     throw a `BridgeError` (errors.ts); a result holds the code of the error.
--   Protocol.Lifecycle, Protocol.Records: types.ts.
--   Protocol.Path, Protocol.Glob, Protocol.Scope: scope.ts. A text is the list of its UTF-16 code
--     units. `globToRegExp` yields a list of pieces, the fragment of regular expressions that the
--     source writes, and `test` is the anchored match of that fragment, with backtracking as a
--     search by structural recursion.
--   Protocol.Chunks: artifact-transport.ts, `splitUtf8`, with the iteration of a text by code points.
--   Protocol.Schema: validate.ts. `Walk` is the interpreter. `Conforms` says what a schema means, by the
--     types of JSON and the value's own properties, and `Accepts` what the validator reads into it,
--     where `undefined` counts as an object and inherited names as properties. `Plain` has the values
--     and schemas on which the two agree, and `Gaps` values on which they do not.
--   Control.Table, Control.Rows, Control.Store: store/state-store.ts and store/sqlite-store.ts. A table is the
--     list of its rows; the statements are functions on the store, with the conflict clause and the
--     order of each.
--   Control.Idempotency: idempotency.ts. `Refused.Replays` is the answer that a key in use gives.
--   Control.Tasks: task-service.ts, with schemas.ts (TaskSpecSchema) at the creation of a task.
--     `History.Call` has one constructor for each operation, and `run` runs a list of calls.
--   Control.Leases: lease-manager.ts. `Writers.LeaseCall` and `run_leases` are its histories.
--   Control.Executions: execution-service.ts. `History.ExecutionCall` and `run_executions` are its
--     histories; which processes are alive is an argument of each call.
--   Control.Deliverables: deliverable-service.ts and verification.ts.
--   Control.Delegation: delegation-operation.ts. `Calls.DelegationCall` and `run_delegations` are its
--     histories; the hash of a contract is a parameter.
--   Protocol.Memory, Control.Memory: memory.ts and memory-service.ts. `Writes.run_writes` runs a list of
--     writes, and `Following.Follows` is a reader that goes on from page to page.
--
-- State and errors. An operation takes the store and gives a `Result` with the store that it
-- commits; on an error the transaction is rolled back, so the caller keeps the old store. `acquire`
-- of a lease commits an event before it throws, and gives a store in both cases. Nested
-- transactions are savepoints whose errors pass on, so they need no step of their own. Where the
-- source reads the store once before its transaction (idempotency, `acquire`), that earlier store
-- is an argument `seen`, and other processes may have committed in between.
--
-- Numbers and texts. Identifiers, idempotency keys, request hashes and agent names are opaque texts
-- that code only compares, and stand as numbers; an empty key counts as no key. Times, versions and
-- lengths are natural numbers; the time is an argument of each operation, and so is each fresh
-- identifier that the random source yields. Messages and details of errors are left out.
--
-- Fuel. `reaches` has one round for each edge of the dependency table and two more: each round
-- takes a task off the stack, and each edge puts one on at most once, when its start is visited.
-- The walks over the lineage of a task have one round for each task and two more, since no round
-- but the last meets a task twice. `none` stands for a search that has not ended.
--
-- Not modelled: attempts and their telemetry; of memory, the record that a write leaves under its
-- idempotency key and the check of a scope; of a delegation, the wait, which polls its row; the
-- orchestrator, which drives asynchronous adapters; the MCP servers and the adapters, which are
-- processes, sockets and streams; migrations and files of the database.
pub mod Prelude
pub mod Protocol
pub mod Control
