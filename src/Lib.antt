-- ===== src/Lib.antt =====
-- ai-agent-runner: the durable execution record of the runner, its controller, the handlers of an
-- execution, its artifact and its recovery.
--
-- The runner polls Redmine for Issues that are ready, locks one, checks it again, and either rejects
-- it or starts an execution; every step that must survive a crash is a write to the custom fields
-- of the Issue that is read back and compared. A started execution gets a workspace, a checkout and
-- a sandbox; what its agent changed is collected, built into an artifact, stored once in S3 and
-- confirmed there before Redmine is told. At a restart the runner settles the executions that still
-- run. The parts and their files:
--
--   Redmine/Domain, FieldNames   src/redmine/domain.ts and the tables of exact field names: an Issue
--                                is a record, a custom field is found by its exact name, once.
--   Redmine/Guard                src/redmine/durable-state-guard.ts, `bind_pristine_...`.
--   Redmine/Client               the shape of every writer: `getIssue`, a plan,
--                                `updateIssueCustomFields`, `getIssue`, a check. Client/Trace reads
--                                the history of calls, Client/Store is a Redmine that stores.
--   Redmine/StartWriter          src/redmine/execution-writer.ts, `persist_and_confirm`.
--   Redmine/FailureFinalizer     src/redmine/execution-finalizer.ts, `finalize_failure`.
--   Redmine/InterruptedFinalizer src/redmine/interrupted-finalizer.ts, `finalize_interrupted`.
--   Redmine/Phase49Finalizer     src/redmine/phase49-finalizer.ts, `finalize_success` and
--                                `finalize_artifact_failure`.
--   Redmine/RejectionWriter      src/redmine/rejection-writer.ts, `reject`.
--   Redmine/FirstWrite           src/redmine/phase49-first-write-verifier.ts, `verify`.
--   Redmine/Adapters             src/redmine/adapters.ts, `refetched_issue`; its candidate source
--                                is Adapters/CandidateSource, `list_ready_for_agent_candidates`.
--   Controller                   src/controller: Lock is local-lock.ts, Calls the interfaces of
--                                types.ts, Polling the cycle of controller.ts, `run_once`, Run its
--                                outer loop, `run`.
--   Repository                   src/repository: Types, Policy is policy.ts, with the allowlist and
--                                the credentials, Handler the handler of phase48-2-handler.ts.
--   Execution                    src/execution: Types, FormalGate is formal-gate.ts; Preparation and
--                                Handler are preparation.ts, from a resolved source to a confirmed
--                                start.
--   Sandbox                      src/sandbox: Handler is phase48-4-handler.ts, `handle`; Capture the
--                                bounded capture of resource-policy.ts.
--   Agent/Handler                src/agent/phase48-5-handler.ts, both of its handlers.
--   Development/ChangeSet        src/development/change-set.ts: the listings of git are read and
--                                merged here, Collect runs git and captures the patch.
--   Artifact                     src/artifact: Types, Contract, with ChangedFiles and Json, and
--                                Document are contract.ts (the builder, the check of a head, and the
--                                reader of a body);
--                                NoChanges is no-changes.ts; Address and Persistence are
--                                s3-persistence.ts (keys and references; the conditional write, its
--                                confirmation and the recovery); Finalization is
--                                phase49-finalization.ts, `finalize`; Provisional is
--                                phase49-provisional-handler.ts, which collects the change set and
--                                finalizes it.
--   Recovery                     src/recovery: Startup is startup-reconciler.ts, `reconcile`; Source
--                                is redmine-source.ts; Artifacts is phase49-artifact-reconciler.ts.
--   Base, Failure, Exec, World   shared names, texts, lists and patterns; what is thrown;
--                                computations with calls; the calls to Redmine and the clock.
--   Tests                        sample values and the theorems at concrete inputs.
--
-- Calls to the outside. A computation carries the history of its calls, and the outside answers each
-- call as a function of that history, so that answers may change over time and other writers may
-- act between two calls. A call is recorded whatever it answers. An asynchronous call is a call:
-- the classes modelled here await each one before the next. `throw` and `catch` are the cases of a
-- result.
--
-- The runtime. UTF-8, SHA-256, base64url, `JSON.parse` and the quoting of texts, and `localeCompare`
-- are the fields of a record, and a theorem that relies on them says which of their laws it uses.
-- `randomUUID`, the class URL, the processes of git and the client of S3 are arguments as well.
-- Artifact/Persistence/Store is a store with the conditional write that S3 documents.
--
-- Numbers are natural numbers: the ids of Redmine and of projects are positive integers. The brief
-- revision is read with the bound 2 ^ 53 - 1 of the source. The loops run over lists. The
-- outer loop of the controller has no bound in the source; `run` takes the most rounds that it goes
-- through, and returns `out_of_rounds` behind the last.
--
-- Not modelled: the HTTP client of Redmine, the git repository, the docker runtime with its workspace
-- and configuration, the Codex process and the AWS client (I/O, whose answers are arguments); the
-- cleanup of orphans (calls to docker and to the file system); the network policy (a file of grants
-- and classes of the runtime); the redaction and the sanitizing of diagnostics (regular expressions;
-- arguments); the agent brief and the requirements fingerprint (their results are answers to the
-- controller); the development handoff of phase49-handoff.ts; the construction of objects from the
-- environment; the conformance tools.
pub mod Agent
pub mod Artifact
pub mod Base
pub mod Controller
pub mod Development
pub mod Exec
pub mod Execution
pub mod Failure
pub mod Recovery
pub mod Redmine
pub mod Repository
pub mod Sandbox
pub mod Tests
pub mod World
