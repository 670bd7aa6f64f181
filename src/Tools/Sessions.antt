-- ===== src/Tools/Sessions.antt =====
-- apps/base/shared-api/service_tools.py, `mcp`: the count of the retrievals under way.
use arch_linux_threadripper.Prelude.{
  ℕ, suc, ◌≡◌, ◌≢◌, refl, ap, ◌∙◌, String, Bool, true, false, Option, none, some, List, [], ◌∷◌,
  Result, ok, err, arith, Bool-cases, inl, inr, leb,
}
use arch_linux_threadripper.Json.{Json, null, str, Fields, get_or, obj, end, arr, cons, nil, eq_str}
use arch_linux_threadripper.Gateway.Body.{read_body}
use arch_linux_threadripper.Tools.State.{
  Failure, killed, Tools, Environment, M, ◌>>=◌, continue_with, lift_result, as_dictionary,
}
use arch_linux_threadripper.Tools.Upstream.{upstream_json, decode, join}
use arch_linux_threadripper.Tools.Requests.{translate}
use arch_linux_threadripper.Tools.Image.{is_killed}
use arch_linux_threadripper.Tools.Retrieval.{
  Hit, check_credential, check_role, webui_identity, read_collection, read_query, read_arguments,
  file_of, read_hit, read_hits, question, read_passages, retrieve,
}
use arch_linux_threadripper.Tools.Mcp.{
  WebSearch, McpCall, check_origin, read_message, read_params, check_identifier, leave_retrieval,
  retrieve_unless, limited_retrieve, require_web_search, read_page_url, use_web, Method, initialize,
  ping, listing, retrieval, search, page, unknown, method_named, run_method, run_message, mcp_body,
  excuse_mcp, mcp,
}
use arch_linux_threadripper.Tools.Account.{
  account, Quiet, Quiet-bind, lift-first, Quiet-upstream_json,
}
use arch_linux_threadripper.Tools.Credentials.{judge_file-log}
use arch_linux_threadripper.Tools.Recovery.{is_killed-eq}

Quiet-webui_identity : (env : Environment) (auth : String) → Quiet (webui_identity env auth)
unfolding webui_identity
Quiet-webui_identity env auth = lift-first (check_credential auth) _ λ _.
    Quiet-bind (upstream_json env "GET" (join env.webui "/api/v1/auths/") (some auth) none) _
      (Quiet-upstream_json env _ _ _ _)
      λ user. lift-first (as_dictionary user) _ λ d. lift-first (check_role d) _ (λ _ s. refl)

Quiet-read_hit :
    (env : Environment) (shown : Json → String) (auth : String) (content : Json)
    (file : Option String)
    → Quiet (read_hit env shown auth content file)
unfolding read_hit
Quiet-read_hit env shown auth content none s = refl
Quiet-read_hit env shown auth content (some file_id) s =
    let url = join env.webui (join "/api/v1/files/" file_id) in
    ap account
      (judge_file-log shown content file_id (upstream_json env "GET" url (some auth) none s))
    ∙ Quiet-upstream_json env "GET" url (some auth) none s

Quiet-read_hits :
    (env : Environment) (shown : Json → String) (auth : String) (passages : List (Json × Json))
    → Quiet (read_hits env shown auth passages)
unfolding read_hits
Quiet-read_hits env shown auth [] s = refl
Quiet-read_hits env shown auth (passage ∷ rest) s =
    Quiet-bind (read_hit env shown auth passage.0 (file_of passage.1)) _
      (Quiet-read_hit env shown auth passage.0 (file_of passage.1))
      (λ hit.
        Quiet-bind (read_hits env shown auth rest) _ (Quiet-read_hits env shown auth rest)
          (λ later t. refl))
      s

Quiet-retrieve :
    (env : Environment) (shown : Json → String) (args : Json) (auth : String)
    → Quiet (retrieve env shown args auth)
unfolding retrieve
Quiet-retrieve env shown args auth = lift-first (read_arguments args) _ λ d.
    lift-first (read_collection (get_or d "collection" (str ""))) _ λ collection.
      lift-first (read_query (get_or d "query" (str ""))) _ λ query.
        Quiet-bind
          (upstream_json env "POST" (join env.webui "/api/v1/retrieval/query/collection")
            (some auth) (some (question collection query)))
          _ (Quiet-upstream_json env _ _ _ _)
          λ result. lift-first (as_dictionary result) _ λ found.
            lift-first (read_passages found) _ λ passages. Quiet-read_hits env shown auth passages

-- The count is as before, unless the process has ended.
abbrev pub Counts : {A : Type 0} → M A → Type 0
Counts {A} m = (s : Tools) → (m s).0 ≢ err killed → (m s).1.retrievals ≡ s.retrievals

Quiet-Counts : {A : Type 0} (m : M A) → Quiet m → Counts m
Quiet-Counts m q s h = ap (λ a. a.retrievals) (q s)

module _ {A B : Type 0} where
  Counts-continue :
      (k : A → M B) (s : Tools) (r : Result Failure A × Tools)
      → (r.0 ≢ err killed → r.1.retrievals ≡ s.retrievals)
      → ((a : A) → Counts (k a))
      → (continue_with k r).0 ≢ err killed
      → (continue_with k r).1.retrievals ≡ s.retrievals
  Counts-continue k s (ok a, t) c d h = d a t h ∙ c (λ e. cc)
  Counts-continue k s (err e, t) c d h = c (λ x. h (ap err (killed_too x)))
    where
      killed_too : ◌≡◌ {A = Result Failure A} (err e) (err killed) → e ≡ killed
      killed_too x = cc x

  Counts-bind : (m : M A) (k : A → M B) → Counts m → ((a : A) → Counts (k a)) → Counts (m >>= k)
  Counts-bind m k c d s h = Counts-continue k s (m s) (c s) d h

  lift-Counts :
      (r : Result Failure A) (k : A → M B) → ((a : A) → Counts (k a)) → Counts (lift_result r >>= k)
  lift-Counts (ok a) k c s h = c a s h
  lift-Counts (err e) k c s h = refl

leave_retrieval_lem :
    (n : ℕ) (r : Result Failure (List Hit) × Tools)
    → r.1.retrievals ≡ suc n
    → (leave_retrieval r).0 ≢ err killed
    → (leave_retrieval r).1.retrievals ≡ n
unfolding leave_retrieval
leave_retrieval_lem n (ok hits, s) e h = omega (arith, e)
leave_retrieval_lem n (err f, s) e h = elim (Bool-cases (is_killed f)) [
  | inl x ↦ absurd (h (ap err (is_killed-eq f x)))
  | inr x ↦ rw x (omega (arith, e))
]

Counts-retrieve_unless :
    (env : Environment) (shown : Json → String) (args : Json) (auth : String) (b : Bool)
    → Counts (retrieve_unless env shown args auth b)
unfolding retrieve_unless
Counts-retrieve_unless env shown args auth true s h = refl
Counts-retrieve_unless env shown args auth false s h =
    let entered = record s { retrievals = suc s.retrievals } in
    leave_retrieval_lem s.retrievals (retrieve env shown args auth entered)
      (ap (λ a. a.retrievals) (Quiet-retrieve env shown args auth entered)) h

Counts-limited_retrieve :
    (env : Environment) (shown : Json → String) (args : Json) (auth : String)
    → Counts (limited_retrieve env shown args auth)
unfolding limited_retrieve
Counts-limited_retrieve env shown args auth s h =
    Counts-retrieve_unless env shown args auth (leb 2 s.retrievals) s h

-- The web search leaves the count alone.
abbrev pub QuietWeb : Option WebSearch → Type 0
QuietWeb none = Unit {0}
QuietWeb (some web) =
    ((args : Json) → Quiet (web.search args)) × ((urls : Json) → Quiet (web.extract urls))

module _ (env : Environment) (public_webui : String) (shown dumps : Json → String) where
  Counts-use_web :
      (web : WebSearch) (args : Json) (b : Bool) → QuietWeb (some web) → Counts (use_web web args b)
  unfolding use_web
  Counts-use_web web args true q s =
      Quiet-Counts (use_web web args true)
        (Quiet-bind (web.search args) _ (q.0 args) (λ hits t. refl)) s
  Counts-use_web web args false q s =
      Quiet-Counts (use_web web args false)
        (lift-first (read_page_url args) _ λ url.
          Quiet-bind (web.extract (arr (cons url nil))) _ (q.1 (arr (cons url nil)))
            (λ pages t. refl))
        s

  Counts-web :
      (web : Option WebSearch) (args : Json) (b : Bool) (k : Json → M (Option Json))
      → QuietWeb web
      → ((v : Json) → Counts (k v))
      → Counts (lift_result (require_web_search web) >>= λ enabled. use_web enabled args b >>= k)
  unfolding require_web_search
  Counts-web none args b k q c s h = refl
  Counts-web (some web) args b k q c s h =
      Counts-bind (use_web web args b) k (Counts-use_web web args b q) c s h

  Counts-run_method :
      (web : Option WebSearch) (auth : String) (args : Json) (method : Method)
      → QuietWeb web
      → Counts (run_method env public_webui web shown dumps auth args method)
  unfolding run_method
  Counts-run_method web auth args initialize q s h = refl
  Counts-run_method web auth args ping q s h = refl
  Counts-run_method web auth args listing q s h = refl
  Counts-run_method web auth args retrieval q s h =
      Counts-bind (limited_retrieve env shown args auth) _
        (Counts-limited_retrieve env shown args auth) (λ hits t x. refl) s h
  Counts-run_method web auth args search q s h = Counts-web web args true _ q (λ v t x. refl) s h
  Counts-run_method web auth args page q s h = Counts-web web args false _ q (λ v t x. refl) s h
  Counts-run_method web auth args unknown q s h = refl

  Counts-run_message :
      (web : Option WebSearch) (auth : String) (message params : Fields) (b : Bool)
      → QuietWeb web
      → Counts (run_message env public_webui web shown dumps auth message params b)
  unfolding run_message
  Counts-run_message web auth message params true q s h = refl
  Counts-run_message web auth message params false q s h =
      lift-Counts (check_identifier (get_or message "id" null)) _
        (λ _.
          lift-Counts (method_named (get_or message "method" null) (get_or params "name" null)) _
            (λ method.
              Counts-bind
                (run_method env public_webui web shown dumps auth (get_or params "arguments" null)
                  method)
                _ (Counts-run_method web auth (get_or params "arguments" null) method q)
                (λ result t x. refl)))
        s h

  Counts-mcp_body :
      (web : Option WebSearch) (call : McpCall)
      → QuietWeb web
      → Counts (mcp_body env public_webui web shown dumps call)
  unfolding mcp_body
  Counts-mcp_body web call q = lift-Counts (check_origin call.origin) _ λ _.
      Counts-bind (webui_identity env call.authorization) _
        (Quiet-Counts (webui_identity env call.authorization)
          (Quiet-webui_identity env call.authorization))
        λ auth. lift-Counts (translate (read_body 16384 call.messages)) _ λ body.
          lift-Counts (decode env body.0) _ λ value. lift-Counts (read_message value) _ λ message.
            lift-Counts (read_params (get_or message "params" (obj end))) _ λ params.
              Counts-run_message web auth message params
                (eq_str (get_or message "method" null) "notifications/initialized") q

-- However a request for a tool ends, the count of the retrievals under way is what it was before, unless the process
-- itself has ended; the web search, where it is enabled, leaves the service's state alone.
pub mcp_counts :
    (env : Environment) (public_webui : String) (shown dumps : Json → String)
    (web : Option WebSearch) (call : McpCall) (s : Tools)
    → QuietWeb web
    → (mcp env public_webui web shown dumps call s).0 ≢ err killed
    → (mcp env public_webui web shown dumps call s).1.retrievals ≡ s.retrievals
unfolding mcp excuse_mcp
mcp_counts env public_webui shown dumps web call s q h =
    Counts-mcp_body env public_webui shown dumps web call q s (λ e. h (ap excuse_mcp e))
