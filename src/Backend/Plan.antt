-- ===== src/Backend/Plan.antt =====
-- lib/workstation/hyperloom_owner_backend.py, `validate_config` and `_screen_config`: what is
-- planned for a configuration.
use arch_linux_threadripper.Prelude.{
  ◌⊎◌, inl, inr, ◌+◌, ◌≡◌, refl, String, Bool, true, false, ◌||◌, ◌&&◌, not, Option, none, some, [],
  ◌∷◌, ok, ◌==◌, arith, succeeded, met_requirement, ap, ◌∙◌, sym, str_eq, subst,
}
use arch_linux_threadripper.Json.{
  Json, null, bool, obj, Fields, end, get, get_or, pop, keys_exactly, keys_within,
}
use arch_linux_threadripper.Json.Equality.{json_eq}
use arch_linux_threadripper.Json.Laws.{dict_laws, get-put}
use arch_linux_threadripper.Exchange.Terms.{Codec, Kind, component, dictionary, envelope_seconds}
use arch_linux_threadripper.Exchange.Config.{
  Bound, validate_config, read_component, read_enabled, is_text_or_null, at_least,
}
use arch_linux_threadripper.Exchange.Submit.{Files}
use arch_linux_threadripper.Backend.Reports.{Binding}
use arch_linux_threadripper.Backend.Screen.{
  source_set, screen_config, screen_unless, screen_for, screened_config, screened_benchmark,
  contract, is_component,
}

-- What a configuration that passes has been read as
pub record IsConfigured (config : Fields) (bound : Bound) (kind : Kind) : Type 0 where
  pub given : Fields
  pub enabled : Bool
  pub benchmark : get_or config "benchmark" null ≡ obj given
  pub asked : read_component enabled (get_or given "workstation_component" null) bound ≡ ok kind

config_object : (v : Json) (what : String) (d : Fields) → dictionary v what ≡ ok d → v ≡ obj d
unfolding dictionary
config_object v what d h = ground arith

pub validate_config-IsConfigured :
    (config : Fields) (bound : Bound) (kind : Kind)
    → validate_config config bound ≡ ok kind
    → IsConfigured config bound kind
unfolding validate_config
validate_config-IsConfigured config bound kind h =
    met_requirement (keys_exactly ("benchmark" ∷ []) config) _ _ h λ _ h.
      succeeded
        (dictionary (get_or config "benchmark" null)
          "one explicit benchmark configuration required")
        _ h
        λ given e h. met_requirement (is_text_or_null (get_or given "result_dir" null)) _ _ h λ _ h.
          succeeded
            (dictionary (get_or given "profiler" (obj end))
              "only the bound Kineto profiling route is supported")
            _ h
            λ profiler _ h.
              met_requirement (keys_within ("torch_profiler" ∷ []) profiler) _ _ h λ _ h.
                succeeded
                  (dictionary (get_or profiler "torch_profiler" (obj end))
                    "profiler policy is owner-bound")
                  _ h
                  λ torch _ h. met_requirement (keys_within ("enabled" ∷ []) torch) _ _ h λ _ h.
                    succeeded (read_enabled (get_or torch "enabled" (bool false))) _ h
                      λ enabled _ h.
                        succeeded
                          (read_component enabled (get_or given "workstation_component" null) bound)
                          _ h
                          λ found asked h.
                            met_requirement
                              (json_eq
                                (obj (
                                  pop
                                    (pop (pop (pop given "profiler") "workstation_component")
                                      "timeout_seconds")
                                    "result_dir"))
                                (obj bound.benchmark))
                              _ _ h
                              λ _ h.
                                met_requirement
                                  (at_least (envelope_seconds found (bound.caller_seconds found))
                                    (get_or given "timeout_seconds" null))
                                  _ _ h
                                  λ _ h.
                                    let same : found ≡ kind = cc in
                                    record {
                                      given = given;
                                      enabled = enabled;
                                      benchmark = config_object _ _ given e;
                                      asked = asked ∙ ap ok same;
                                    }

-- A configuration that asks for the component screen.
abbrev pub IsScreen : Fields → Type 0
IsScreen config =
    (given : Fields) × (get config "benchmark" ≡ some (obj given))
    × (get given "workstation_component" ≡ some contract)

read_contract :
    (enabled : Bool) (bound : Bound) (kind : Kind)
    → read_component enabled contract bound ≡ ok kind
    → kind ≡ component
unfolding read_component
read_contract enabled bound kind h =
    met_requirement (json_eq contract contract && not enabled) _ _ h
      λ _ h. met_requirement (bound.caller_seconds component == 2190) _ _ h λ _ h. cc

screen_value :
    (given : Fields)
    → get given "workstation_component" ≡ some contract
    → get_or given "workstation_component" null ≡ contract
screen_value given h = ground arith

pub screen-component :
    (config : Fields) (bound : Bound) (kind : Kind)
    → IsScreen config
    → validate_config config bound ≡ ok kind
    → kind ≡ component
screen-component config bound kind (given, e, f) h =
    let v = validate_config-IsConfigured config bound kind h in
    let same : given ≡ v.given = let b = v.benchmark in ground arith in
    read_contract v.enabled bound kind (
      subst (λ j. read_component v.enabled j bound ≡ ok kind)
        (screen_value v.given (subst (λ g. get g "workstation_component" ≡ some contract) same f))
        v.asked)

screen_for-IsScreen :
    (kind : Kind) (config : Fields) (bound : Bound) (screened : Fields)
    → screen_for kind config bound ≡ ok screened
    → IsScreen screened
unfolding screen_for
screen_for-IsScreen kind config bound screened h =
    succeeded
      (dictionary (get_or config "benchmark" null) "one explicit benchmark configuration required")
      _ h
      λ given _ h.
        met_requirement
          (at_least
            (envelope_seconds kind (bound.caller_seconds kind)
              + envelope_seconds component (bound.caller_seconds component))
            (get_or given "timeout_seconds" null))
          _ _ h
          λ _ h.
            let same : screened_config config given bound ≡ screened = cc in
            subst IsScreen same (
              screened_benchmark given bound,
              get-put config "benchmark" "benchmark" (obj (screened_benchmark given bound)),
              simp dict_laws,
            )

-- A plan: no screen, for a component or for the selected sources; else a screen. The sources are those
-- that were read.
abbrev pub IsPlan : Kind → Binding → Option Fields × String → Type 0
IsPlan kind binding plan =
    ((plan.0 ≡ none) × ((is_component kind || str_eq plan.1 binding.selected_source_set) ≡ true))
    ⊎ ((screened : Fields) × (plan.0 ≡ some screened) × IsScreen screened)

screen_unless-IsPlan :
    (kind : Kind) (config : Fields) (binding : Binding) (current : String) (skip : Bool)
    (plan : Option Fields × String)
    → (is_component kind || str_eq current binding.selected_source_set) ≡ skip
    → screen_unless skip kind config binding.bound current ≡ ok plan
    → (plan.1 ≡ current) × IsPlan kind binding plan
unfolding screen_unless
screen_unless-IsPlan kind config binding current true plan e h =
    let same : ◌≡◌ {A = Option Fields × String} (none, current) plan = cc in
    (
      sym (ap (λ q. q.1) same),
      inl (
        sym (ap (λ q. q.0) same),
        subst (λ q. (is_component kind || str_eq q.1 binding.selected_source_set) ≡ true) same e,
      ),
    )
screen_unless-IsPlan kind config binding current false plan e h =
    succeeded (screen_for kind config binding.bound) _ h λ screened f h.
      let same : ◌≡◌ {A = Option Fields × String} (some screened, current) plan = cc in
      (
        sym (ap (λ q. q.1) same),
        inr (
          screened,
          sym (ap (λ q. q.0) same),
          screen_for-IsScreen kind config binding.bound screened f,
        ),
      )

pub screen_config-IsPlan :
    (c : Codec) (disk : Files) (config : Fields) (binding : Binding) (plan : Option Fields × String)
    → screen_config c disk config binding ≡ ok plan
    → (kind : Kind) × (validate_config config binding.bound ≡ ok kind)
      × (source_set c disk binding ≡ ok plan.1)
      × IsPlan kind binding plan
unfolding screen_config
screen_config-IsPlan c disk config binding plan h =
    succeeded (validate_config config binding.bound) _ h λ kind e h.
      succeeded (source_set c disk binding) _ h λ current f h.
        let (same, plan_is) = screen_unless-IsPlan kind config binding current _ plan refl h in
        (kind, e, f ∙ ap ok (sym same), plan_is)

-- A screen wants no other screen.
pub screen_config_ends :
    (c : Codec) (disk : Files) (config : Fields) (binding : Binding) (plan : Option Fields × String)
    → IsScreen config
    → screen_config c disk config binding ≡ ok plan
    → plan.0 ≡ none
unfolding screen_config screen_unless
screen_config_ends c disk config binding plan i h =
    succeeded (validate_config config binding.bound) _ h λ kind e h.
      succeeded (source_set c disk binding) _ h λ current f h.
        let same = screen-component config binding.bound kind i e in
        screen_unless_component kind binding config current plan same h
  where
    screen_unless_component :
        (kind : Kind) (binding : Binding) (config : Fields) (current : String)
        (plan : Option Fields × String)
        → kind ≡ component
        → screen_unless
            (is_component kind || str_eq current binding.selected_source_set)
            kind
            config
            binding.bound
            current
          ≡ ok plan
        → plan.0 ≡ none
    screen_unless_component kind binding config current plan same h = ground arith
