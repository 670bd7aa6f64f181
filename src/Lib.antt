-- ===== src/Lib.antt =====
-- A workstation's local AI services and the optimizer that tunes them. Seven parts are modelled here:
-- the gateway before the model server, the model of the server's prefix cache, the exchange of jobs
-- between the optimizer and the controller that owns the GPU, the optimizer's benchmark backend, that
-- controller, the services for images and for retrieval, and the web search.
--
-- Gateway (apps/base/shared-api/boundary.py). `State` has the gateway's state, its counters and the
-- responses; `Body` read_body; `Auth` browser_key; `Control` and `Orders` the control route; `Chat`
-- and `Admission` the chat route up to the backend and from its end; `Route`, `Run` and `Safety`
-- __call__ with its exceptions, and the gateway over time. A request is one call of `call`, which
-- is atomic up to the first wait for the backend; how it then ends is an `Ending`, and `chat_end`
-- is the rest of the code. Python's exceptions are a `Failure`. JSON, the files with the secrets,
-- the clocks and the backend are fields of `World` or arguments. The body arrives as a list of
-- messages; a list that ends too early stands for a read that waits.
--
-- Cache (infrastructure/hyperloom/sglang-owner-adapter/cache_policy_model.py). `Pool` has the tree
-- of states, eviction and trimming; `Requests` prefill, finish, group and replay; `Nodes`, `Use`,
-- `Accounting`, `Held`, `Matching`, `Kept` and `Locks` the proofs. A node is an index into the list of
-- nodes, which only grows, so that the walk to the root takes as many rounds as there are nodes.
-- The completion lengths are fields of the menu's rows.
--
-- Exchange (lib/workstation/hyperloom_exchange.py, lib/workstation/hyperloom_exchange_host.py,
-- and validate_config of lib/workstation/hyperloom_owner_backend.py). `Terms` has the constants
-- and the identities, `Requests` _request, `Store` the two trees as a store, `Submit` and
-- `Write` submit, `Jobs` inspect, claim and validate_result, `Publish` publish_result, `Config`
-- validate_config, `Host` dispatch, `Retain` retain_snapshot up to the files that it writes,
-- `Wait` wait_result; `Validity`, `Claims`, `Outcomes`, `Reach`, `Once`, `Snapshots`, `Replies`,
-- `Submission`, `Prepare`, `Delivery`, `Carried`, `Handover` and `Answer` the proofs. `Board`
-- has an abstract view of the exchange. SHA-256, the canonical JSON text and its decoder are a
-- `Codec`, of which nothing is assumed but, in the theorems that follow a document from a writer
-- to a reader, that the decoder reads that document back. Documents that are written have their
-- keys in the order in which the canonical text has them. The optimizer may write at any time:
-- `take_job` sees an exchange of its own at the inspection, at the second reading and at the
-- claim, and a `Meanwhile` of the job once the reply's directory is there. A wait is what
-- _wait_state finds of the directories (`Roots`) and the list of what its turns before the
-- deadline find. Times are whole milliseconds. The other checks of paths (absolute, resolved, no
-- links, separate trees) and of the arguments that an action does not take are left out, as are
-- file modes.
--
-- Backend (lib/workstation/hyperloom_owner_backend.py and lib/workstation/hyperloom_latency.py).
-- `Binding` has read_binding from the decoded document on, `Reports` validate_report and
-- validate_component, `Samples` and `Latency` the policy and the series of measurements that a
-- report carries, `Screen` source_set, _screen_config, _screen_gate and _begin, `Runs` _submit,
-- start, finish, run and benchmark; `Measured`, `Distinct`, `Series`, `Evidence`, `Accepted`,
-- `Plan`, `Depth`, `Posted`, `Provenance`, `Begun` and `Fresh` the proofs; `Waiting` joins run
-- to the wait of the exchange. A `Desk` is the exchange with the output directories by their
-- paths. What the machine and the other programs do while a run goes on is a field of
-- `Surroundings`, by the output directory: the new job's name, the time, the source files at
-- each of the three readings, and the wait, which the code too takes as an argument. `run` has
-- as fuel the levels of its own calls, of which benchmark gives two. A comparison with wall +
-- 1e-3 is floating-point arithmetic and an argument; the means of the times are left out of a
-- series.
--
-- Controller (infrastructure/hyperloom/sglang-owner-adapter/controller.py). `State` has the
-- controller's state and computations that keep it through an exception, `Calls` _rpc, _cancelled
-- and _park, `Owner` the attempt at a job, `Step` step, _publish and serve; `Changes`, `Clearance`,
-- `Attempts`, `Life`, `Turns`, `Serving`, `Parking` and `Grants` the proofs. An `Environment` has
-- the campaign's grant, the answer to each call, what the clocks show at each reading, and the
-- operations of the owner: what the exchange answers and the operations do is arbitrary. A running
-- operation is an `Execution`, which asks whether its job is cancelled as often as it likes. The
-- loop of serve has fuel, one unit for a pass; every pass that goes on has read the clocks. The
-- checks of __init__, the texts of exceptions and the failures of local writes other than an
-- existing file are left out.
--
-- Tools (apps/base/shared-api/service_tools.py). `Profile` has load_image_profile, `State` the
-- service's state, `Upstream` upstream_json and interrupt, `Requests` the checks of a request and
-- the texts that are sent, `Image` generate and image, `Retrieval` webui_identity and retrieve,
-- `Mcp` mcp, `Browser` browser_search and browser_fetch; `Account`, `Settled`, `Paid`,
-- `Safety`, `Recovery`, `Sizes`, `Credentials`, `Passages` and `Sessions` the proofs. The web search is an
-- interface of two operations. A request uses Gateway's browser_key and read_body. What each await
-- ends with is a field of the `Environment`; the failure `killed` is the end of the process, after
-- which no `finally` runs, so that a request that ends so leaves what a crash leaves. Timeouts are
-- failures of awaits. The operator, who is no code, may take away a marker that is there. The two
-- sizes that load_image_profile lets through are the ones that the split of a size is given for. Two requests overlap only in that the second one finds the service busy.
--
-- Search (apps/base/shared-api/web_search.py). `Policy` has the checks of __init__; `Budget`
-- reserve, and request up to the call of the provider and at its end; `Response` the reading of
-- the response; `Ledger` the service over time; `Pages` public_url and what search asks for,
-- `Results` search and extract around the request, which is an argument of theirs; `Status`
-- status and credential; `Bounds` the proofs on them. Python's urlsplit, its addresses and its
-- text functions are fields of `Python`. The table of SQLite is three lists of named cells, one
-- for each of the prefixes month:, day: and minute:, and reserve is one transaction on it; the
-- names of a moment's periods, the text of the credential's file and what is wrong with the
-- database are arguments.
--
-- Prelude has the shared tests, lists, results, computations with state and text over the native
-- numbers, and Json the values that Python's decoder returns, with its dictionaries and its
-- equality; a finite float is m / 2 ^ k.
--
-- Not modelled: of the backend, the reading of YAML, the reuse of a retained qualification and
-- the command line; the scores of the latency comparison, which are medians, logarithms and
-- roots of floats; the owner's operations, telemetry, profiling, model serving and deployment,
-- most of which drive external programs.
pub mod Prelude
pub mod Json
pub mod Gateway
pub mod Cache
pub mod Exchange
pub mod Backend
pub mod Controller
pub mod Tools
pub mod Search
