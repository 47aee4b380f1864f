-- ===== src/Lib.antt =====
-- Verification of browse-gateway: a gateway that lends browser sessions to authenticated consumers,
-- under a policy, and that searches the web through a chain of providers.
--
-- The parts, as the program composes them. A consumer presents a token, which the policy engine
-- resolves (src/policy/index.ts, `PolicyEngine.authenticate`). The session manager
-- (src/gateway/session-manager.ts) admits it under two caps, launches a browser core and registers a
-- session; the engine's guards (`guardFor`, `guardForCredentialHost`, `guardForDiagnostics`) decide
-- every request of that browser by scheme, egress filter, origination boundary and allowlist, and put
-- their verdicts on the audit trail. Documents that a browser downloads are captured into the artifact store
-- (src/artifacts/store.ts), which keeps an account of their count and bytes and hands them out under one
-- response permit; the tracker of src/mcp/http-response-lease.ts ties such a lease to the end of its HTTP
-- response. The search router (src/search/router.ts) is independent of them.
--
-- Which file models which code:
--   Base            helpers: lists over the native numbers, text as code units, sets of identifiers.
--   Host            src/security/url.ts: canonicalizeHost, hostMatchesAnySuffix, cookieBelongsToHost, ...
--   Policy.Allowlist    src/policy/allowlist.ts.
--   Policy.Egress       src/security/egress.ts; Policy.Egress.Ranges its ranges as intervals.
--   Policy.Origination  src/policy/origination.ts.
--   Policy.Audit        src/policy/audit.ts, the in-memory trail.
--   Policy.Consumer     src/policy/consumer.ts; Policy.Consumer.Config src/policy/consumer-config.ts.
--   Policy.Engine       src/policy/index.ts: the state is the audit trail and the out-parameter.
--   Gateway.Session     src/gateway/session.ts.
--   Gateway.Ledger      the orphan records of src/gateway/session-manager.ts: `#orphans`, `#watch`,
--                   finalizeOrphan, sweepOrphan, settleReapedOrphan, enforceWatchCap, watchLaunch.
--   Gateway.Manager     the rest of that file: State has the fields, the counts and acquire; Launch
--                   launchAndRegister and reapLateLaunch; Teardown release, beginTeardown,
--                   drainUnconfirmed and reapIdle.
--   Gateway.Manager.Steps   the manager in its environment: a step for each run between two waits.
--   Search.Router       src/search/router.ts: the breakers and one attempt; Search.Router.Walk the
--                   loops and Search.Router.Create the construction.
--   Secrets             src/security/secrets.ts: the store; Secrets.Redact redactSecrets, and Secrets.Audit
--                   RedactingAuditSink of src/policy/audit.ts over the in-memory trail.
--   Mcp.ResponseLease   src/mcp/http-response-lease.ts: createArtifactLeaseTracker, one function per event.
--   Artifacts.Capacity  src/artifacts/store.ts: the reservations and the counters of the ledger
--                   (`#reserve`, `#shrinkReservation`, `#releaseStage`, `#releaseReservation`);
--                   Artifacts.Capacity.Claims is the same ledger with no counters.
--   Artifacts.Permit    the response permit of that file and its queue (`#releaseResponse`,
--                   `#settleResponses`, yieldPermit).
--   Artifacts.Store     the store: Discard has discardArtifactDetailed and the reaping, Capture the
--                   three runs of capture between its awaits, Responses acquire, complete and the
--                   timer, Close close and `#finishClose`; Artifacts.Store.Runs puts them in any order,
--                   and keeps the captures that wait by their identifier.
--   Artifacts.Window    src/artifacts/index.ts: `#spendRetrieval`, the budget of retrievals.
--   Artifacts.Lineage   the ledger of that file: the end of createOperation, the publication and the
--                   release of an owner, invalidateController, and acquireResponseLease up to its
--                   call of the store.
--
-- How the models correspond. Asynchronous code is cut at its waits: each function is one run of the
-- source between two of them, and what a wait brings (how a launch, a kill or a sweep ended) is an
-- argument. The steps of Gateway.Manager.Steps put these runs in any order that the source allows; a
-- reachable state is one after any sequence of them. Shared mutable records (an orphan record is an
-- object that sets and callbacks share) stand on a heap under identifiers. Times are natural numbers
-- that the caller gives; differences of times are only compared with bounds, so that subtraction that
-- stops at 0 does what the source does. The environment is stated in the steps: identifiers are fresh,
-- a promise settles once, and a core's close or kill resolves only when its processes are dead. A timer
-- fires at just the instant that it was set for.
--
-- Bounds and fuel. `evict` recurses on fuel, and the length of the watch list is enough since each
-- round takes one entry off. `decode_rounds` makes the three rounds of the source. The loop over one
-- search provider has two rounds, since the source retries once. Nothing else runs on fuel.
--
-- Parameters. The URL parser, percent encoding and decoding, the serializers, regular expressions, `isIP` and the number that
-- an address literal writes are arguments; `BlockList` is modelled from its documentation. Letters outside ASCII keep their case in `toLowerCase`.
--
-- Not modelled: the JSON text of the consumer manifest, the console audit sink, a percent encoding
-- that throws, the rounds of `shutdown` after its flag, the removal of directories on disk, log lines, the construction of
-- the artifact store and the system calls behind its proofs of identity, calls of `onDiscard` that enter
-- the store again, the operations of the artifact runtime (invalidateController disposes of those of its lineage after the mark that is modelled), the browser cores, the command line, the rest of the MCP layer, the vault and the verbs.
pub mod Base
pub mod Host
pub mod Policy
pub mod Gateway
pub mod Search
pub mod Artifacts
pub mod Secrets
pub mod Mcp
