-- ===== src/Tools/Credentials.antt =====
-- apps/base/shared-api/service_tools.py: whose credential the calls of a retrieval carry, and what it returns.
use arch_linux_threadripper.Prelude.{
  suc, ◌≡◌, refl, String, Option, none, some, List, [], ◌∷◌, Result, ok, err, All, Bool-cases, inl,
  inr,
}
use arch_linux_threadripper.Json.{Json, str, get_or, obj}
use arch_linux_threadripper.Tools.State.{
  Failure, Event, sent, Tools, Response, Environment, M, ◌>>=◌, continue_with, lift_result,
  as_dictionary,
}
use arch_linux_threadripper.Tools.Upstream.{receive, check_status, read_answer, upstream_json, join}
use arch_linux_threadripper.Tools.Retrieval.{
  read_collection, read_query, read_arguments, file_of, is_gone, judge_file, read_hit, read_hits,
  question, read_passages, retrieve,
}

-- A call in which the caller's credential, and no other, is used
abbrev pub Carries : String → Event → Type 0
Carries auth (sent method url credential body) = credential ≡ some auth
Carries auth _ = Unit {0}

abbrev pub Careful : {A : Type 0} → String → M A → Type 0
Careful auth m = (s : Tools) → All (Carries auth) s.log → All (Carries auth) (m s).1.log

module _ {A B : Type 0} (auth : String) where
  Careful-continue :
      (k : A → M B) (r : Result Failure A × Tools)
      → All (Carries auth) r.1.log
      → ((a : A) → Careful auth (k a))
      → All (Carries auth) (continue_with k r).1.log
  Careful-continue k (ok a, t) h c = c a t h
  Careful-continue k (err e, t) h c = h

  Careful-bind :
      (m : M A) (k : A → M B)
      → Careful auth m
      → ((a : A) → Careful auth (k a))
      → Careful auth (m >>= k)
  Careful-bind m k c d s h = Careful-continue k (m s) (c s h) d

  lift-Careful :
      (r : Result Failure A) (k : A → M B)
      → ((a : A) → Careful auth (k a))
      → Careful auth (lift_result r >>= k)
  lift-Careful (ok a) k c s h = c a s h
  lift-Careful (err e) k c s h = h

Careful-read_answer :
    (auth : String) (env : Environment) (response : Response)
    → Careful auth (read_answer env response)
unfolding read_answer
Careful-read_answer auth env response = lift-Careful auth (check_status response.status) _ λ _.
    lift-Careful auth (receive 2097152 "upstream_response_too_large" response.parts []) _
      λ raw s h. h

Careful-upstream_json :
    (auth : String) (env : Environment) (method url : String) (body : Option Json)
    → Careful auth (upstream_json env method url (some auth) body)
unfolding upstream_json
Careful-upstream_json auth env method url body s h =
    lift-Careful auth (env.upstream s.awaits) (read_answer env) (Careful-read_answer auth env)
      (record s { awaits = suc s.awaits; log = sent method url (some auth) body ∷ s.log }) (refl, h)

pub judge_file-log :
    (shown : Json → String) (content : Json) (file_id : String) (r : Result Failure Json × Tools)
    → (judge_file shown content file_id r).1 ≡ r.1
unfolding judge_file
judge_file-log shown content file_id (ok (obj file), s) = refl
judge_file-log shown content file_id (ok other, s) = refl
judge_file-log shown content file_id (err e, s) = elim (Bool-cases (is_gone e)) [
  | inl x ↦ rw x refl
  | inr x ↦ rw x refl
]

Careful-read_hit :
    (auth : String) (env : Environment) (shown : Json → String) (content : Json)
    (file : Option String)
    → Careful auth (read_hit env shown auth content file)
unfolding read_hit
Careful-read_hit auth env shown content none s h = h
Careful-read_hit auth env shown content (some file_id) s h =
    let url = join env.webui (join "/api/v1/files/" file_id) in
    let answer = upstream_json env "GET" url (some auth) none s in
    rw (judge_file-log shown content file_id answer)
      (Careful-upstream_json auth env "GET" url none s h)

Careful-read_hits :
    (auth : String) (env : Environment) (shown : Json → String) (passages : List (Json × Json))
    → Careful auth (read_hits env shown auth passages)
unfolding read_hits
Careful-read_hits auth env shown [] s h = h
Careful-read_hits auth env shown (passage ∷ rest) s h =
    Careful-bind auth (read_hit env shown auth passage.0 (file_of passage.1)) _
      (Careful-read_hit auth env shown passage.0 (file_of passage.1))
      (λ hit.
        Careful-bind auth (read_hits env shown auth rest) _ (Careful-read_hits auth env shown rest)
          (λ later t k. k))
      s h

-- Every call that a retrieval makes carries the caller's own credential: no other one is ever used for it.
pub retrieve_careful :
    (env : Environment) (shown : Json → String) (args : Json) (auth : String) (s : Tools)
    → All (Carries auth) s.log
    → All (Carries auth) (retrieve env shown args auth s).1.log
unfolding retrieve
retrieve_careful env shown args auth = lift-Careful auth (read_arguments args) _ λ d.
    lift-Careful auth (read_collection (get_or d "collection" (str ""))) _ λ collection.
      lift-Careful auth (read_query (get_or d "query" (str ""))) _ λ query.
        Careful-bind auth
          (upstream_json env "POST" (join env.webui "/api/v1/retrieval/query/collection")
            (some auth) (some (question collection query)))
          _ (Careful-upstream_json auth env "POST" _ _)
          λ result. lift-Careful auth (as_dictionary result) _ λ found.
            lift-Careful auth (read_passages found) _
              λ passages. Careful-read_hits auth env shown passages
