-- ===== src/Tools/Tests.antt =====
-- apps/base/shared-api/service_tools.py: an image that is made, one that is left unfinished, and each result at
-- them.
use arch_linux_threadripper.Prelude.{
  ℕ, ◌≡◌, ◌≢◌, refl, String, Bool, true, false, ◌||◌, Option, none, some, List, [], ◌∷◌, ◌==◌,
  if◌then◌else◌, Result, ok, err, length,
}
use arch_linux_threadripper.Prelude.Int.{pos}
use arch_linux_threadripper.Prelude.Text.{codes}
use arch_linux_threadripper.Json.{
  Json, bool, int, str, arr, obj, nil, cons, Fields, end, field, put,
}
use arch_linux_threadripper.Json.Equality.{
  json_eq, items_eq, fields_within, text_or_number_eq, number_eq,
}
use arch_linux_threadripper.Gateway.State.{Headers}
use arch_linux_threadripper.Gateway.Body.{part, read_body, read_from}
use arch_linux_threadripper.Gateway.Auth.{
  browser_key, compare_digest, check_application, get_codes, expired, as_object, found_record,
  check_key, check_virtual_key, translated,
}
use arch_linux_threadripper.Tools.State.{
  from_gateway, item, as_dictionary, Failure, network, killed, Tools, Response, Environment,
}
use arch_linux_threadripper.Tools.Upstream.{
  receive, check_status, decode, read_answer, upstream_json, join, poll_again, poll_idle, poll_if,
  interrupt,
}
use arch_linux_threadripper.Tools.Requests.{
  has_infix, read_prompt, read_order, read_call, check_mode, dimensions, change_inputs,
  fill_workflow, generation, only_path, check_path, before_semicolon, check_artifact, check_png,
  Call, png,
}
use arch_linux_threadripper.Tools.Image.{
  set_session, place_unless, place_marker, watch_caller, await_task, submit, fetch_artifact,
  open_session, fetch_result, make_image, interrupt_if, close_unless, close_generation, generate,
  release, take_unless, take_order, answer, reply_to, image, Reply, image_document,
}
use arch_linux_threadripper.Tools.Profile.{
  is_profile, node_value, has_class, has_inputs, is_workflow, read_profile, read_workflow,
  load_image_profile, allowed_sizes, text_inputs, sampler_inputs, link,
}
use arch_linux_threadripper.Tools.Mcp.{WebSearch, check_origin, require_web_search}
use arch_linux_threadripper.Tools.Browser.{
  identify, search_body, browser_search_body, excuse_browser, browser_search, read_fetch,
  browser_fetch_body, browser_fetch, IsCaller, browser_search-IsCaller,
}
use arch_linux_threadripper.Prelude.{suc, ap, arith, ◌+◌, ◌≤◌, All}
use arch_linux_threadripper.Tools.Account.{account, submissions}
use arch_linux_threadripper.Tools.Settled.{IsOrder, mark}
use arch_linux_threadripper.Tools.Safety.{
  Reach, start, request, ends, fresh, restart, accounted, Reach-IsSettled,
}
use arch_linux_threadripper.Tools.Recovery.{image-turned_away, turned_away}
use arch_linux_threadripper.Tools.Sizes.{read_call-dimensions}

abbrev service_key : String
service_key = "0123456789abcdef0123456789abcdef"

abbrev caller_headers : Headers
caller_headers =
    ("authorization", codes "Bearer 0123456789abcdef0123456789abcdef")
    ∷ ("x-openwebui-user-id", codes "ana")
    ∷ []

abbrev credentials : Fields
credentials = field "service_key" (str service_key) (
    field "users"
      (obj (
        field "ana" (obj (field "expires_at" (int (pos 1000)) (field "images" (bool true) end)))
          end))
      end)

abbrev sha : String
sha = "aaaaaaaaaaaaaaaaaaaaaaaaaaaaaaaaaaaaaaaaaaaaaaaaaaaaaaaaaaaaaaaa"

abbrev profile : Fields
profile = field "schema" (int (pos 1)) (
    field "id" (str "workstation-sdxl") (
      field "model_repository" (str "stabilityai/stable-diffusion-xl-base-1.0") (
        field "model_revision" (str "aaaaaaaaaaaaaaaaaaaaaaaaaaaaaaaaaaaaaaaa") (
          field "model_sha256" (str sha) (
            field "swarm_model" (str "OfficialStableDiffusion/sd_xl_base_1.0") (
              field "workflow" (str "sdxl-workflow.json") (
                field "sizes" allowed_sizes (
                  field "steps" (int (pos 20)) (
                    field "cfg_scale" (int (pos 7))
                      (field "serving_model" (str "Qwen3.5-9B") end))))))))))

abbrev node : String → Fields → Json
node kind inputs = obj (field "class_type" (str kind) (field "inputs" (obj inputs) end))

abbrev workflow : Fields
workflow =
    field "1"
      (node "CheckpointLoaderSimple"
        (field "ckpt_name" (str "OfficialStableDiffusion/sd_xl_base_1.0.safetensors") end))
      (field "2" (node "CLIPTextEncode" text_inputs) (
        field "3" (node "CLIPTextEncode" text_inputs) (
          field "4"
            (node "EmptyLatentImage" (
              field "width" (int (pos 1024))
                (field "height" (int (pos 1024)) (field "batch_size" (int (pos 1)) end))))
            (field "5" (node "KSampler" (sampler_inputs profile)) (
              field "6"
                (node "VAEDecode" (field "samples" (link "5" 0) (field "vae" (link "1" 2) end)))
                (field "7" (node "SwarmSaveImageWS" (field "images" (link "6" 0) end)) end))))))

abbrev order_document : Fields
order_document = field "model" (str "workstation-sdxl") (field "prompt" (str "a tree") end)

abbrev ready_document : Fields
ready_document =
    field "phase" (str "ready") (field "images" (bool true) (field "model" (str "Qwen3.5-9B") end))

-- The documents that are sent, each under one byte
abbrev loads_example : List ℕ → Option Json
loads_example (n ∷ []) =
    if n == 1
    then some (obj order_document)
    else if n == 2
    then some (obj ready_document)
    else if n == 3
    then some (obj (field "session_id" (str "s") end))
    else if n == 4
    then some (obj (field "images" (arr (cons (str "View/a.png") nil)) end))
    else some (obj end)
loads_example _ = none

abbrev with_body : List ℕ → Response
with_body raw = record { status = 200; content_type = "image/png"; parts = ok raw ∷ [] }

-- The gateway's state, the session, the generation and the artifact
abbrev answers : Bool → ℕ → Result Failure Response
answers works n =
    if n == 0
    then ok (with_body (2 ∷ []))
    else if n == 1
    then ok (with_body (3 ∷ []))
    else if n == 2
    then (if works then ok (with_body (4 ∷ [])) else err network)
    else ok (with_body png)

abbrev environment : Bool → Environment
environment works = record {
  webui = "http://webui";
  swarm = "http://swarm";
  gateway = "http://gateway";
  image_profile = profile;
  image_workflow = workflow;
  workflow_sha256 = sha;
  upstream = answers works;
  sleep = λ n. ok tt;
  watch = ok false ∷ [];
  store = ok tt;
  directory = ok tt;
  loads = loads_example;
  unquote = λ s. s;
  base64 = λ raw. "";
  seed = 5;
  now = 9;
}

abbrev shown : Fields → String
shown d = ""

abbrev call : Call
call = record {
  headers = caller_headers;
  messages = part (1 ∷ []) false ∷ [];
  credentials = ok credentials;
  time = (10, 0);
}

-- An image that is made, and one that the backend loses
abbrev made : Result Failure Reply × Tools
made = image (environment true) shown call fresh

abbrev lost : Result Failure Reply × Tools
lost = image (environment false) shown call fresh

made_is :
    (made.0
      ≡ ok (record {
        status = 200;
        body = image_document (environment true) png;
        headers = ("Cache-Control", "no-store") ∷ [];
      }))
    × (made.1.marker ≡ false)
unfolding from_gateway item as_dictionary receive check_status decode read_answer upstream_json join
    poll_again poll_idle poll_if interrupt has_infix read_prompt read_order read_call check_mode
    dimensions change_inputs fill_workflow generation only_path check_path before_semicolon
    check_artifact check_png set_session place_unless place_marker watch_caller await_task submit
    fetch_artifact open_session fetch_result make_image interrupt_if close_unless close_generation
    generate release take_unless take_order answer reply_to image is_profile node_value has_class
    has_inputs is_workflow read_profile read_workflow load_image_profile json_eq items_eq
    fields_within text_or_number_eq number_eq put browser_key compare_digest check_application
    get_codes expired as_object found_record check_key check_virtual_key translated read_body
    read_from
made_is = (refl, refl)

lost_is : (lost.1.marker ≡ true) × (lost.1.busy ≡ false) × (length (account lost.1).orders ≡ 1)
unfolding from_gateway item as_dictionary receive check_status decode read_answer upstream_json join
    poll_again poll_idle poll_if interrupt has_infix read_prompt read_order read_call check_mode
    dimensions change_inputs fill_workflow generation only_path check_path before_semicolon
    check_artifact check_png set_session place_unless place_marker watch_caller await_task submit
    fetch_artifact open_session fetch_result make_image interrupt_if close_unless close_generation
    generate release take_unless take_order answer reply_to image is_profile node_value has_class
    has_inputs is_workflow read_profile read_workflow load_image_profile json_eq items_eq
    fields_within text_or_number_eq number_eq put browser_key compare_digest check_application
    get_codes expired as_object found_record check_key check_virtual_key translated read_body
    read_from
lost_is = (refl, refl, refl)

abbrev after_loss : Reach (restart lost.1)
after_loss = ends lost.1 (request (environment false) shown call fresh start)

Reach-IsSettled_example :
    (length (submissions (restart lost.1).log)
      ≤ accounted (restart lost.1) after_loss + mark (restart lost.1).marker)
    × All IsOrder (submissions (restart lost.1).log)
Reach-IsSettled_example = Reach-IsSettled (restart lost.1) after_loss

unfinished : lost.1.busy || lost.1.marker ≡ true
unfolding from_gateway item as_dictionary receive check_status decode read_answer upstream_json join
    poll_again poll_idle poll_if interrupt has_infix read_prompt read_order read_call check_mode
    dimensions change_inputs fill_workflow generation only_path check_path before_semicolon
    check_artifact check_png set_session place_unless place_marker watch_caller await_task submit
    fetch_artifact open_session fetch_result make_image interrupt_if close_unless close_generation
    generate release take_unless take_order answer reply_to image is_profile node_value has_class
    has_inputs is_workflow read_profile read_workflow load_image_profile json_eq items_eq
    fields_within text_or_number_eq number_eq put browser_key compare_digest check_application
    get_codes expired as_object found_record check_key check_virtual_key translated read_body
    read_from
unfinished = refl

image-turned_away_example :
    image (environment true) shown call lost.1
    ≡ (reply_to (environment true) (turned_away (read_call (environment true) call)), lost.1)
image-turned_away_example = image-turned_away (environment true) shown call lost.1 unfinished

abbrev has_reply : Result Failure Reply → Bool
has_reply (ok r) = true
has_reply (err e) = false

not_killed : (r : Result Failure Reply) → has_reply r ≡ true → r ≢ err killed
not_killed (ok r) h e = cc
not_killed (err e) h x = cc

lost_replies : has_reply lost.0 ≡ true
unfolding from_gateway item as_dictionary receive check_status decode read_answer upstream_json join
    poll_again poll_idle poll_if interrupt has_infix read_prompt read_order read_call check_mode
    dimensions change_inputs fill_workflow generation only_path check_path before_semicolon
    check_artifact check_png set_session place_unless place_marker watch_caller await_task submit
    fetch_artifact open_session fetch_result make_image interrupt_if close_unless close_generation
    generate release take_unless take_order answer reply_to image is_profile node_value has_class
    has_inputs is_workflow read_profile read_workflow load_image_profile json_eq items_eq
    fields_within text_or_number_eq number_eq put browser_key compare_digest check_application
    get_codes expired as_object found_record check_key check_virtual_key translated read_body
    read_from
lost_replies = refl

abbrev shown_value : Json → String
shown_value (str s) = s
shown_value _ = ""

it_loads : load_image_profile shown_value (obj profile) (obj workflow) ≡ ok (profile, workflow)
unfolding from_gateway item as_dictionary receive check_status decode read_answer upstream_json join
    poll_again poll_idle poll_if interrupt has_infix read_prompt read_order read_call check_mode
    dimensions change_inputs fill_workflow generation only_path check_path before_semicolon
    check_artifact check_png set_session place_unless place_marker watch_caller await_task submit
    fetch_artifact open_session fetch_result make_image interrupt_if close_unless close_generation
    generate release take_unless take_order answer reply_to image is_profile node_value has_class
    has_inputs is_workflow read_profile read_workflow load_image_profile json_eq items_eq
    fields_within text_or_number_eq number_eq put browser_key compare_digest check_application
    get_codes expired as_object found_record check_key check_virtual_key translated read_body
    read_from
it_loads = refl

it_reads : read_call (environment true) call ≡ ok ("a tree", str "1024x1024")
unfolding from_gateway item as_dictionary receive check_status decode read_answer upstream_json join
    poll_again poll_idle poll_if interrupt has_infix read_prompt read_order read_call check_mode
    dimensions change_inputs fill_workflow generation only_path check_path before_semicolon
    check_artifact check_png set_session place_unless place_marker watch_caller await_task submit
    fetch_artifact open_session fetch_result make_image interrupt_if close_unless close_generation
    generate release take_unless take_order answer reply_to image is_profile node_value has_class
    has_inputs is_workflow read_profile read_workflow load_image_profile json_eq items_eq
    fields_within text_or_number_eq number_eq put browser_key compare_digest check_application
    get_codes expired as_object found_record check_key check_virtual_key translated read_body
    read_from
it_reads = refl

read_call-dimensions_example : (dims : ℕ × ℕ) × (dimensions (str "1024x1024") ≡ ok dims)
read_call-dimensions_example =
    read_call-dimensions (environment true) shown_value (obj profile) (obj workflow) call "a tree"
      (str "1024x1024") it_loads it_reads

-- A web search that counts what it is asked
abbrev web : WebSearch
web = record {
  search = λ v s. (ok v, record s { awaits = suc s.awaits });
  extract = λ v s. (ok v, s);
}

abbrev asked : Result Failure Reply × Tools
asked = browser_search (environment true) (some web) "" call fresh

asked_once : asked.1.awaits ≡ 1
unfolding identify search_body browser_search_body excuse_browser browser_search read_fetch
    browser_fetch_body browser_fetch check_origin require_web_search decode from_gateway browser_key
    compare_digest check_application get_codes expired as_object found_record check_key
    check_virtual_key translated read_body read_from
asked_once = refl

browser_search-IsCaller_example : IsCaller call
browser_search-IsCaller_example =
    browser_search-IsCaller (environment true) (some web) "" call fresh
      (λ e. omega (arith, asked_once, ap (λ s. s.awaits) e))
