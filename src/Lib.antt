-- ===== src/Lib.antt =====
-- Kuuna Support Agents: a verification library beside the Python code of the backend
-- and of the runtime agent.
--
-- The program answers messages of WhatsApp groups. The gateway (services/gateway) posts every inbound
-- event to the backend, which stores it, decides whether it asks for the agent, and enqueues an
-- execution job. A group is bound to a published version of a template; the answer becomes an outbound
-- intent, which a dispatch job posts back to the gateway. The knowledge that answers draw on is kept in
-- versions, which a job cuts into chunks and embeds. The agent itself (services/runtime-agent) asks a
-- model provider, runs local tools, or runs the image that a build job made of the template version.
-- Operators sign in with a password.
--
-- The files, and the code under backend/src/kuuna_backend that each is about:
--   Models                 db/models.py: the enumerations that two services share. Each service declares
--                          the rows it uses as records with the columns it reads or writes.
--   Templates              domain/templates/service.py: create_template, create_template_version_draft,
--                          publish_template_version, rollback_template_version. Invariant holds what all
--                          of them preserve, Effects what each of them does. Tools is
--                          extract_allowed_tools of domain/templates/tools.py.
--   Knowledge              domain/knowledge/service.py: documents, drafts, publication and rollback.
--   Knowledge.Job          jobs/indexing.py: process_knowledge_version_job, with the enqueueing by the
--                          services above; Knowledge.Reach puts jobs and calls into one history.
--   Indexing               jobs/indexing.py: _split_text and _chunk_markdown on texts.
--   Bindings               domain/bindings/service.py: create_binding, unbind, get_binding; ModelPath is
--                          _build_model_path. A creation calls create_outbound_intent of Outbound.
--   Outbound               domain/outbound/service.py: create_outbound_intent and the four marks.
--   Outbound.Dispatch      jobs/outbound_dispatch.py: dispatch_outbound_intent_job with every exception
--                          branch; Schedule adds the retries that jobs/queue.py asks the queue for.
--   Runtime                domain/runtime/resolve.py: resolve_runtime_target over the tables of
--                          Bindings; Latest is its query of the latest build.
--   Builds                 domain/template_builds/service.py: queue_template_build and the reads; Queue is
--                          what a call stores.
--   Builds.Job             jobs/template_build.py: process_template_build_job with the commits that the
--                          database refuses; Outcome is what it leaves, Tag the name of the image,
--                          History what calls and jobs keep.
--   Execution              jobs/ingest.py: process_inbound_message_job over the tables of Messages, Bindings,
--                          Runtime and Outbound. Candidates is the choice of the models, Commands the tool
--                          commands, Prompts the texts, Remote the call of the runtime agent, Reply the
--                          function _generate_agent_reply, Effect what the job leaves, Answered when it
--                          answers.
--   Audit                  domain/audit/service.py: append_audit_event.
--   Messages               domain/messages/ingest.py and trigger.py: persist_inbound_event and
--                          evaluate_trigger.
--   Auth                   domain/auth/service.py: RateLimiter, Login with the lockout, Password for the
--                          policy, Hashes for hash_password and verify_password.
--   Users                  domain/users/service.py: users with their roles and groups, and the calls of
--                          the administration. Rows holds what a replacement leaves, Invariant what
--                          every call keeps.
--   Catalog                domain/tools/service.py: the catalogue of tools, its default entries and the
--                          upsert; Invariant is what all calls keep, Effects what an upsert stores.
--   Agent                  services/runtime-agent/src, with the types of result_schema.py: Failover is
--                          failover.py, Prompt prompt_builder.py, Tools tool_executor.py, Provider the
--                          dialogue of runner.py with the model provider, Container docker_runner.py, and
--                          Run the function run_agent of runner.py.
--   Common                 shared helpers: lists and table searches, texts, JSON values, results.
--
-- A service is a function from its arguments and the tables to its result and the tables after it; an
-- exception is a value of a type of errors. The tables are lists of rows in the order of insertion. A
-- query is a search by a Boolean test, an update rewrites the rows that pass a test, and a unique
-- constraint is a test before an insertion. Where a call reads before it writes and another session may
-- commit in between, the call takes two stores: `seen`, from which it reads, and `now`, against which the
-- constraints are checked; drafts, documents and bindings are so modelled. Publication and rollback are
-- one transaction each.
--
-- A UUID is a number that is only compared, a text is a list of code points, a time is a number of ticks
-- or, where it is only stored, a text. Nothing in this code computes with integers of a fixed width.
--
-- Parameters: the answers of the gateway and of the model service, the queue, the clock, the ids that
-- are drawn, the pseudo embedding and its floats, `hashlib.scrypt`, Python's `int` of a text, the
-- character tables of Python's `str`, and the HTTP client's test of a status; for the runtime agent and
-- the builds also the answers of the model provider, the commands of docker with their output, Python's
-- texts of JSON values and numbers, the hits of the retrieval, the environment variables, and whether a tool overruns its time.
--
-- Loops are structural recursion, with two exceptions. `_split_text` runs on fuel, one more than the
-- length of the text: each turn takes at least one character off, so the fuel is never used up. The job
-- under retries recurses on the number of retries left, three as jobs/queue.py sets it.
--
-- Not modelled: the listings and statistics of most services, which only read; the queries
-- of the retrieval, the access token; media processing, the HTTP routers, the gateway and the
-- dashboard. They are either input and output or not yet covered. Measured durations and log lines are
-- left out. The locks between threads and the isolation of transactions inside one commit are taken as
-- given; during a build job or an execution job no other session writes its rows.
pub mod Agent
pub mod Audit
pub mod Builds
pub mod Catalog
pub mod Execution
pub mod Auth
pub mod Bindings
pub mod Common
pub mod Messages
pub mod Models
pub mod Indexing
pub mod Knowledge
pub mod Outbound
pub mod Runtime
pub mod Templates
pub mod Users
