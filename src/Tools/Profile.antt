-- ===== src/Tools/Profile.antt =====
-- apps/base/shared-api/service_tools.py, `load_image_profile`: the one profile and the one workflow that the
-- service takes from the operator.
use arch_linux_threadripper.Prelude.{
  ℕ, String, Bool, false, not, ◌&&◌, Option, none, some, List, [], ◌∷◌, all, Result, ok, err, ◌>>=◌,
  ◌>>◌, raise_if,
}
use arch_linux_threadripper.Prelude.Int.{pos}
use arch_linux_threadripper.Prelude.Text.{codes}
use arch_linux_threadripper.Json.{
  Json, null, int, float, str, arr, obj, nil, cons, Fields, end, field, get, get_or, eq_str, eq_nat,
  keys_exactly,
}
use arch_linux_threadripper.Json.Equality.{json_eq}
use arch_linux_threadripper.Exchange.Terms.{hex_text, is_exactly}
use arch_linux_threadripper.Tools.State.{Failure, value_error}
use arch_linux_threadripper.Tools.Upstream.{join}

abbrev pub profile_keys : List String
profile_keys =
    "schema" ∷ "id" ∷ "model_repository" ∷ "model_revision" ∷ "model_sha256" ∷ "swarm_model"
    ∷ "workflow" ∷ "sizes" ∷ "steps" ∷ "cfg_scale" ∷ "serving_model" ∷ []

abbrev pub allowed_sizes : Json
allowed_sizes = arr (cons (str "512x512") (cons (str "1024x1024") nil))

-- type(value) in {int, float} and value == 7
abbrev pub is_seven : Json → Bool
is_seven (int n) = eq_nat (int n) 7
is_seven (float n k) = eq_nat (float n k) 7
is_seven _ = false

-- The profile is the one that is supported; `shown` is Python's str.
unfoldable pub is_profile : (Json → String) → Fields → Bool
is_profile shown d =
    is_exactly 1 (get d "schema")
    && eq_str (get_or d "id" null) "workstation-sdxl"
    && eq_str (get_or d "workflow" null) "sdxl-workflow.json"
    && eq_str (get_or d "serving_model" null) "Qwen3.5-9B"
    && eq_str (get_or d "model_repository" null) "stabilityai/stable-diffusion-xl-base-1.0"
    && hex_text 40 (codes (shown (get_or d "model_revision" null)))
    && hex_text 64 (codes (shown (get_or d "model_sha256" null)))
    && eq_str (get_or d "swarm_model" null) "OfficialStableDiffusion/sd_xl_base_1.0"
    && json_eq (get_or d "sizes" null) allowed_sizes
    && is_exactly 20 (get d "steps")
    && is_seven (get_or d "cfg_scale" null)

abbrev pub expected_nodes : List (String × String)
expected_nodes =
    ("1", "CheckpointLoaderSimple")
    ∷ ("2", "CLIPTextEncode")
    ∷ ("3", "CLIPTextEncode")
    ∷ ("4", "EmptyLatentImage")
    ∷ ("5", "KSampler")
    ∷ ("6", "VAEDecode")
    ∷ ("7", "SwarmSaveImageWS")
    ∷ []

-- workflow[node].get(key), of a node that is a dictionary
unfoldable pub node_value : Fields → String → String → Option Json
node_value workflow node key = elim (get workflow node) [
  | some (obj d) ↦ some (get_or d key null)
  | some other ↦ none
  | none ↦ none
]

unfoldable pub has_class : Fields → String × String → Bool
has_class workflow (node, kind) = elim (node_value workflow node "class_type") [
  | some v ↦ eq_str v kind
  | none ↦ false
]

unfoldable pub has_inputs : Fields → String → Fields → Bool
has_inputs workflow node inputs = elim (node_value workflow node "inputs") [
  | some v ↦ json_eq v (obj inputs)
  | none ↦ false
]

-- [node, n]
abbrev pub link : String → ℕ → Json
link node n = arr (cons (str node) (cons (int (pos n)) nil))

abbrev pub text_inputs : Fields
text_inputs = field "text" (str "") (field "clip" (link "1" 1) end)

abbrev pub sampler_inputs : Fields → Fields
sampler_inputs d = field "model" (link "1" 0) (
    field "positive" (link "2" 0) (
      field "negative" (link "3" 0) (
        field "latent_image" (link "4" 0) (
          field "seed" (int (pos 0)) (
            field "steps" (get_or d "steps" null) (
              field "cfg" (get_or d "cfg_scale" null) (
                field "sampler_name" (str "euler")
                  (field "scheduler" (str "normal") (field "denoise" (float (pos 1) 0) end)))))))))

-- profile["swarm_model"] + ".safetensors"
abbrev pub checkpoint_name : Json → Json
checkpoint_name (str s) = str (join s ".safetensors")
checkpoint_name v = v

unfoldable pub is_workflow : Fields → Fields → Bool
is_workflow d workflow =
    keys_exactly ("1" ∷ "2" ∷ "3" ∷ "4" ∷ "5" ∷ "6" ∷ "7" ∷ []) workflow
    && all (has_class workflow) expected_nodes
    && has_inputs workflow "1"
        (field "ckpt_name" (checkpoint_name (get_or d "swarm_model" null)) end)
    && has_inputs workflow "4" (
        field "width" (int (pos 1024))
          (field "height" (int (pos 1024)) (field "batch_size" (int (pos 1)) end)))
    && has_inputs workflow "2" text_inputs
    && has_inputs workflow "3" text_inputs
    && has_inputs workflow "6" (field "samples" (link "5" 0) (field "vae" (link "1" 2) end))
    && has_inputs workflow "7" (field "images" (link "6" 0) end)
    && has_inputs workflow "5" (sampler_inputs d)

unfoldable pub read_profile : (Json → String) → Json → Result Failure Fields
read_profile shown (obj d) = do
  raise_if (not (keys_exactly profile_keys d)) value_error
  raise_if (not (is_profile shown d)) value_error
  ok d
read_profile shown _ = err value_error

unfoldable pub read_workflow : Fields → Json → Result Failure Fields
read_workflow d (obj workflow) = do raise_if (not (is_workflow d workflow)) value_error; ok workflow
read_workflow d _ = err value_error

-- `load_image_profile`, for what the two files decode to
unfoldable pub load_image_profile : (Json → String) → Json → Json → Result Failure (Fields × Fields)
load_image_profile shown profile workflow = do
  d ← read_profile shown profile
  w ← read_workflow d workflow
  ok (d, w)
