-- ===== src/Lib.antt =====
-- A verification library of the migration platform's API server, apps/api, and of the license server
-- that its vendor runs.
--
-- The program. The API process holds one license document in memory. It comes from a file in the
-- license store or from the license server; a background tick reads the store, decides whether a
-- heartbeat is due and exchanges one with the server; a gate stands in front of the operations that
-- produce work. The license server gives each install one trial, attests licenses by signing them
-- again, and keeps revocations. Jobs are started, paused, resumed, cancelled and retried by
-- operators, while their workflows run in Temporal and write the outcome of rows. A job reads a
-- source, which is an upload or a connector of its organisation, and follows a version of a rule
-- template; a schedule starts such jobs from Temporal. A batch does so for an archive of files. The
-- designer is shown a sample of a file.
--
-- The files.
-- Prelude, Text, Time, Int, Json: the shared notation and the parts of the language and its crates
--   that the source computes with. Text is a list of code points; an instant counts nanoseconds.
-- Api: apps/api/src/error.rs.
-- License: apps/api/src/security/license.rs. Types has the document and the state of the process;
--   Validity is validity, problem_for, grace_until and days_remaining; Heartbeat is heartbeat_due,
--   should_adopt and require_licensed; Signing is sign_license and verify_license; Email is
--   validate_trial_email; Client is what one exchange does, from the environment to
--   heartbeat_once; Tick is activate, reload_store_if_changed and heartbeat_tick; Startup is
--   enforce_at_startup, try_load_local and start_trial; Persist is persist_license, over an interface of
--   the file system.
-- Vendor: apps/api/src/license_server.rs. Types has the settings, the tables and the requests; Guards
--   is authorize, normalize_fingerprint and rate_limit; Store is the statements on the tables,
--   revoke and unrevoke; Trial and Heartbeat are the two handlers; Service runs them in any order.
-- Exchange: the route of the heartbeat in apps/api/src/license_server.rs with the JSON that it reads
--   and writes, to which the client of apps/api/src/security/license.rs is connected; Renewal,
--   Withdrawal and Upkeep follow heartbeats from the client to the server and back.
-- Paging: the listings with a cursor that jobs and batches share, and a client that follows the pages.
-- Jobs: apps/api/src/routes/jobs.rs, with require_role of apps/api/src/middleware/auth.rs; Create is
--   create_job, Actions starts, pauses, resumes and cancels, Retries is the retries and the export,
--   Listing is list_jobs and get_job; Source is apps/api/src/job_source.rs.
-- Batches: apps/api/src/routes/batches.rs. Listing is list_batches and get_batch, Create is
--   create_batch.
-- Secrets: apps/api/src/routes/secrets.rs.
-- Specs: apps/api/src/routes/specs.rs. Address is ip_is_private; Schema is validate_openapi,
--   resolve_ref and resolve_schema; Operations is parse_operations.
-- DryRun: apps/api/src/routes/dry_run.rs.
-- Llm: extract_json and redact_value of apps/api/src/routes/llm.rs.
-- Sources: apps/api/src/sources.rs. Request is parse_source_request; Registry is register_upload,
--   resolve and the references of a source; Locations is check_connector_locations.
-- Templates: apps/api/src/rule_template_types.rs and apps/api/src/routes/templates.rs. Types and Shape
--   are a template's data and the JSON of a destination; Refs and Validate are the checks of
--   validate_template; Rows and Table are the table of versions and its handlers.
-- Schedules: apps/api/src/routes/schedules.rs and the schedules of apps/api/src/temporal.rs. Spec is
--   normalise_spec and the bodies of the calls; World is the tables with the calls that the bridge
--   has carried out; Create, Update and Switch are the handlers, written as calls that keep their
--   changes when they end with an error (Handler).
-- Sampling: apps/api/src/sampling. Infer is infer_column_type; Csv is the sample of a CSV file; Json
--   is that of a JSON file, with best_effort_array in Scan; Xml is that of an XML file; Union has the
--   columns that JSON and XML rows are given.
-- Tests: runs at concrete inputs, with a toy of the libraries.
--
-- State is passed explicitly: a handler takes the state and gives its answer with the next state.
-- The process-wide values of the source (clock, environment, fingerprint, files, the answer of the
-- other side of a connection) are arguments: the record World for the license client. RSA, base64,
-- PEM, serde's JSON and chrono's texts are the record Codec of License.Signing, and CodecLaws of
-- License.Signing.Laws states the documented round trips that some theorems assume, as JsonLaws of
-- Exchange.Laws does for serde_json; Tests.Toy and Tests.Wire show that they can hold. Other
-- libraries are arguments of the definitions that use them: the JSON schema's validator and serde's
-- deserializer for templates, the readers of the csv crate, of serde_json and of quick_xml, the
-- cipher of secrets, the parsers of floats, dates, cron and durations, the text that Debug prints,
-- what Temporal's bridge answers, and, for schedules, whether it has carried out a call that failed.
--
-- Bounds. The definitions recur on the structure of their data, with few exceptions. The digits of
-- a number in Text.decimal are given as many steps as the number has at most. The loops of the XML
-- sampler take as many steps as the reader has events, and one more, which suffice; the stack, on
-- which the source decodes nested elements, has no bound here. References in
-- an API specification are followed for as many levels as the source allows (9, and 7 in a schema).
-- The limiter's counter and the heartbeat counts are natural numbers, where the source has u32 and
-- i64 that the guards keep below 21 or that grow by one a request. An instant is a natural number
-- that counts from long before chrono's first one; additions past chrono's last instant, where the
-- source panics, are outside the model.
--
-- Not modelled: metrics and log lines, which are I/O, and audit rows but for templates, schedules,
-- batches and secrets; failures of SQLite, PostgreSQL and of locks, but for the DELETE that takes back
-- the row of a schedule; listing rows, schedules,
-- templates and secrets, the join that adds a batch to a listed job, downloading results and the
-- event stream; what a row of a schedule keeps of its runs, which the orchestrator writes; the
-- table of API specifications, the exchange with the LLM, the other routes, the Go orchestrator,
-- the Python worker and the web client.
pub mod Prelude
pub mod Text
pub mod Time
pub mod Int
pub mod Json
pub mod Paging
pub mod Api
pub mod License
pub mod Vendor
pub mod Exchange
pub mod Jobs
pub mod Sources
pub mod Templates
pub mod Batches
pub mod Specs
pub mod Secrets
pub mod DryRun
pub mod Llm
pub mod Schedules
pub mod Sampling
mod Tests
