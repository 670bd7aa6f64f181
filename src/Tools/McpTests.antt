-- ===== src/Tools/McpTests.antt =====
-- apps/base/shared-api/service_tools.py: one call of the retrieval tool, and each result at it.
use arch_linux_threadripper.Prelude.{
  ℕ, ◌≡◌, ◌≢◌, refl, String, false, Option, none, some, List, [], ◌∷◌, ◌==◌, if◌then◌else◌, Result,
  ok, err, All,
}
use arch_linux_threadripper.Prelude.Int.{pos}
use arch_linux_threadripper.Prelude.Text.{first_chars}
use arch_linux_threadripper.Json.{Json, int, str, arr, obj, nil, cons, end, field}
use arch_linux_threadripper.Gateway.Body.{part, read_body, read_from}
use arch_linux_threadripper.Tools.State.{
  from_gateway, item, as_dictionary, Failure, killed, Tools, Response, Environment,
}
use arch_linux_threadripper.Tools.Upstream.{
  receive, check_status, decode, read_answer, upstream_json, join, poll_again, poll_idle, poll_if,
  interrupt,
}
use arch_linux_threadripper.Tools.Requests.{
  has_infix, read_prompt, read_order, read_call, check_mode, dimensions, change_inputs,
  fill_workflow, generation, only_path, check_path, before_semicolon, check_artifact, check_png,
}
use arch_linux_threadripper.Tools.Retrieval.{
  is_id, check_credential, check_role, webui_identity, read_collection, read_query, read_arguments,
  first_of, characters, iterate, file_of, make_hit, judge_file, read_hit, read_hits, pair_up,
  pair_values, read_passages, retrieve, Hit,
}
use arch_linux_threadripper.Tools.Mcp.{
  check_origin, read_message, read_params, check_identifier, tools_listed, leave_retrieval,
  retrieve_unless, limited_retrieve, require_web_search, read_page_url, use_web, tool_named,
  method_named, run_method, method_reply, run_message, mcp_body, excuse_mcp, mcp, McpCall,
}
use arch_linux_threadripper.Tools.Image.{Reply}
use arch_linux_threadripper.Tools.Safety.{fresh}
use arch_linux_threadripper.Tools.Credentials.{Carries, retrieve_careful}

abbrev arguments : Json
arguments = obj (field "collection" (str "notes") (field "query" (str "what is it") end))

abbrev message : Json
message = obj (
    field "jsonrpc" (str "2.0") (
      field "id" (int (pos 1)) (
        field "method" (str "tools/call") (
          field "params"
            (obj (field "name" (str "retrieve_project_passage") (field "arguments" arguments end)))
            end))))

abbrev found : Json
found = obj (
    field "documents" (arr (cons (arr (cons (str "a passage") nil)) nil)) (
      field "metadatas" (arr (cons (arr (cons (obj (field "file_id" (str "f1") end)) nil)) nil))
        end))

-- The documents that are sent, each under one byte
abbrev loads_example : List ℕ → Option Json
loads_example (n ∷ []) =
    if n == 1
    then some message
    else if n == 2
    then some (obj (field "role" (str "user") end))
    else if n == 3
    then some found
    else some (obj (field "id" (str "f1") end))
loads_example _ = none

abbrev with_document : ℕ → Result Failure Response
with_document n =
    ok (record { status = 200; content_type = "application/json"; parts = ok (n ∷ []) ∷ [] })

-- The answers: the passages, and the file; and before them who the caller is
abbrev answers : ℕ → Result Failure Response
answers n = with_document (if n == 0 then 3 else 4)

abbrev identified : ℕ → Result Failure Response
identified n = with_document (if n == 0 then 2 else if n == 1 then 3 else 4)

abbrev environment : (ℕ → Result Failure Response) → Environment
environment upstream = record {
  webui = "http://webui";
  swarm = "http://swarm";
  gateway = "http://gateway";
  image_profile = end;
  image_workflow = end;
  workflow_sha256 = "";
  upstream = upstream;
  sleep = λ n. ok tt;
  watch = [];
  store = ok tt;
  directory = ok tt;
  loads = loads_example;
  unquote = λ s. s;
  base64 = λ raw. "";
  seed = 5;
  now = 9;
}

abbrev shown : Json → String
shown (str s) = s
shown _ = ""

abbrev dumps : Json → String
dumps v = ""

-- A retrieval of its own, whose first answer is the passages
abbrev retrieved : Result Failure (List Hit) × Tools
retrieved = retrieve (environment answers) shown arguments "Bearer token" fresh

abbrev hits : List Hit
hits = record { snippet = "a passage"; file_id = "f1"; source = "f1" } ∷ []

retrieved_is : retrieved ≡ (ok hits, retrieved.1)
unfolding from_gateway item as_dictionary receive check_status decode read_answer upstream_json join
    poll_again poll_idle poll_if interrupt has_infix read_prompt read_order read_call check_mode
    dimensions change_inputs fill_workflow generation only_path check_path before_semicolon
    check_artifact check_png is_id first_chars check_credential check_role webui_identity
    read_collection read_query read_arguments first_of characters iterate file_of make_hit
    judge_file read_hit read_hits pair_up pair_values read_passages retrieve check_origin
    read_message read_params check_identifier tools_listed leave_retrieval retrieve_unless
    limited_retrieve require_web_search read_page_url use_web tool_named method_named run_method
    method_reply run_message mcp_body excuse_mcp mcp read_body read_from
retrieved_is = refl

retrieve_careful_example : All (Carries "Bearer token") retrieved.1.log
retrieve_careful_example =
    retrieve_careful (environment answers) shown arguments "Bearer token" fresh tt

abbrev call : McpCall
call = record { origin = ""; authorization = "Bearer token"; messages = part (1 ∷ []) false ∷ [] }

abbrev called : Result Failure Reply × Tools
called = mcp (environment identified) "http://public" none shown dumps call fresh

abbrev status_of : Result Failure Reply → ℕ
status_of (ok r) = r.status
status_of (err e) = 0

called_is : status_of called.0 ≡ 200
unfolding from_gateway item as_dictionary receive check_status decode read_answer upstream_json join
    poll_again poll_idle poll_if interrupt has_infix read_prompt read_order read_call check_mode
    dimensions change_inputs fill_workflow generation only_path check_path before_semicolon
    check_artifact check_png is_id first_chars check_credential check_role webui_identity
    read_collection read_query read_arguments first_of characters iterate file_of make_hit
    judge_file read_hit read_hits pair_up pair_values read_passages retrieve check_origin
    read_message read_params check_identifier tools_listed leave_retrieval retrieve_unless
    limited_retrieve require_web_search read_page_url use_web tool_named method_named run_method
    method_reply run_message mcp_body excuse_mcp mcp read_body read_from
called_is = refl

replied : (r : Result Failure Reply) → status_of r ≡ 200 → r ≢ err killed
replied (ok r) h e = cc
replied (err e) h x = absurd (cc h)
