-- ===== src/Lib.antt =====
-- sui-effect: the lifecycle of a Sui transaction, from a recipe to an answer about its signed bytes, and
-- the journal that survives a crash on the way (`src/`).
--
-- How the parts interact. `Tx.build` makes bytes of a recipe and refuses what cannot be paid for, and
-- `Tx.sign` signs them. `Tx.submit` writes the signed bytes to the journal, sends them, journals the
-- answer, and asks the chain (`Tx.reconcile`) when no answer came. `Tx.reconcileAll` asks about every
-- entry that a process left unresolved, and may send its bytes again. The journal is an interface with
-- two implementations: a `Map`, and a `KeyValueStore` with one key for each entry and one marker for
-- each settled entry.
--
--   Schemas          src/domain/schemas.ts: expirations, signed transactions, the bounds of a window
--   Journal.Entry    src/domain/journal-entry.ts and the interface of src/services/Journal.ts
--   Journal.Memory   src/services/Journal.ts: `makeMemoryUnsafe`
--   Kv, Kv.Run       the `KeyValueStore` that the repository calls, and runs of programs against it
--   Durable          src/services/JournalKeyValueStore.ts; its proofs are in Durable.Safety,
--                    Durable.Crash, Durable.Scan and Durable.Refines
--   Tx.Bytes         src/services/Tx.ts: what is read back out of bytes (`pinnedRefsOfBytes`,
--                    `gasPaymentKindOf`, `keepsSenderLock`)
--   Tx.Network       the node, the failures and the effects; `SubmitConfig`, as far as it is read
--   Tx.Evidence      src/services/Tx.ts: `inputEvidence`, `expiryClosed`, `historyOf`
--   Tx.Recover       src/services/Tx.ts: `recover`, `reconcileUnjournaled`; proofs in its children
--   Tx.Wording       src/services/Tx.ts: `reasonOf`, `lockConflict`
--   Tx.Submit        src/services/Tx.ts: `send`, `submit`, `settle`, `reconcileSigned`, `journal...`
--   Tx.Resubmit      src/services/Tx.ts: `reconcile`, `resubmit`, `resend`, `reconcileAll`, `submitVia`
--   Fold             src/services/Fold.ts: `planFold` and the recipe of `fold`; proofs in its children
--   Locks            src/services/Tx.ts: `permitsOf` and `senderLocked`, as steps of fibers; proofs in its
--                    children
--   Reads            src/services/Sui.ts: the pagination loops, the batched object reads and their
--                    decoding; proofs in its children
--   Moves            src/domain/bcs.ts: `typeMatches` and `decodeContent`
--   Failures         src/domain/errors.ts and src/services/SuiCore.ts: what a thrown value becomes, and the
--                    retries of a read; proofs in its children
--   Receipts         src/domain/executed.ts: the selections of a receipt; proofs in its child
--   Tx.Build         src/services/Tx.ts, `build`: Resolving (what the SDK will simulate, the attempts to
--                    resolve, and what their failures mean), Window (the default expiration), Checks (the build), Reading (`fromBytes`); proofs in
--                    Criteria, Checked, Accepted, Refusals and Reading
--   Tx.Signing       src/services/Tx.ts, `sign`, `cosign`, `attach`, and the signatures of `run`
--                    (Parties); src/domain/address-alias.ts, `allows`
--   Scenarios        concrete stores, nodes and runs
--
-- How code becomes definitions. An effect of the lifecycle is a function of a `World`: the number of
-- requests so far, the state of the journal, and a trace of what was sent and what was written to the
-- journal. It returns a success or one of the failures. The node is a record of functions of the
-- request's tick, so two requests may be answered by two nodes that do not agree. A program of the durable
-- journal is a tree of requests to the store; `run` gives each request a fate (served, failed without
-- effect, failed after its write) and stops the process where the fates end, so every crash between two
-- requests is a run. The SDK's parser, base58, address normalisation, the JSON codec and the store are
-- records of functions, with what is relied on as fields that are laws. The fibers that share a sender's
-- lock take steps in any order, and the semaphore is a record of functions with laws.
--
-- Bounds. The attempts of a send and the rounds of a reconcile are counted down from
-- `SubmitConfig.resubmitAttempts` and from the number of rechecks, and the attempts of a build's
-- resolution from what its read policy allows. Four loops of the source have no bound of their own and run
-- on fuel, which is an argument: a stream (`paginate`), a tail (`tail_from`), the persistent requests of a
-- tail (`persistently`) and the retries of a read (`retry_from`). A stream needs fuel for the positions
-- that its ledger has left, a read for five attempts under the default policy; a tail has no end, and what
-- is said of it is said for every fuel. A `bigint` or a millisecond count that is never negative is a
-- native number.
--
-- Not modelled: spans, metrics, logs, sleeps, schedules and interruption; the front half of `run`, `sponsored`,
-- `foldCoins` and the approvals of services/Tx.ts; balances, dynamic fields, names, simulation and chain
-- time of `Sui`, and the SDK calls of `SuiCore`; the key handling of signers and the check of a signature,
-- which call the SDK; the codecs, which are effect Schema; the scripts, the examples and the test layers.
-- The reads and removals of one journal operation, which the source runs eight at a time, are made one
-- after another.
pub mod Prelude
pub mod Schemas
pub mod Journal
pub mod Kv
pub mod Durable
pub mod Tx
pub mod Fold
pub mod Locks
pub mod Moves
pub mod Failures
pub mod Receipts
pub mod Reads
pub mod Scenarios
