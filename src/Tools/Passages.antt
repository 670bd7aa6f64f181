-- ===== src/Tools/Passages.antt =====
-- apps/base/shared-api/service_tools.py, `retrieve`: what it returns.
use arch_linux_threadripper.Prelude.{
  ℕ, suc, ◌≤◌, ◌≡◌, refl, subst, String, true, Option, none, some, List, [], ◌∷◌, take,
  if◌then◌else◌, Result, ok, err, length, arith, All, Bool-cases, inl, inr, length-take-le,
}
use arch_linux_threadripper.Prelude.Text.{codes, length-first_chars}
use arch_linux_threadripper.Prelude.Effects.{Holds, Holds-continue, Holds-after}
use arch_linux_threadripper.Json.{
  Json, null, nan, bool, int, float, infinite, arr, str, Fields, get, get_or, obj, eq_str,
}
use arch_linux_threadripper.Tools.State.{
  Failure, Tools, Environment, M, ◌>>=◌, lift_result, as_dictionary,
}
use arch_linux_threadripper.Tools.Upstream.{upstream_json, join}
use arch_linux_threadripper.Tools.Retrieval.{
  is_id, read_collection, read_query, read_arguments, zip, iterate, first_of, Hit, file_of,
  make_hit, is_gone, judge_file, read_hit, with_hit, read_hits, question, read_passages, pair_up,
  pair_values, retrieve,
}

-- A passage of bounded length, from a file with a proper identity
pub record IsHit (h : Hit) : Type 0 where
  pub file : is_id h.file_id ≡ true
  pub snippet : length (codes h.snippet) ≤ 1600
  pub source : length (codes h.source) ≤ 240

abbrev IsHitIf : Option Hit → Type 0
IsHitIf none = Unit {0}
IsHitIf (some h) = IsHit h

abbrev IsFile : Option String → Type 0
IsFile none = Unit {0}
IsFile (some s) = is_id s ≡ true

file_of-IsFile : (meta : Json) → IsFile (file_of meta)
unfolding file_of
file_of-IsFile (obj d) = named (get d "file_id")
  where
    named :
        (v : Option Json)
        → IsFile (elim v [
          | some (str s) ↦ if is_id s then some s else none
          | some other ↦ none
          | none ↦ none
        ])
    named none = tt
    named (some (str s)) = elim (Bool-cases (is_id s)) [ inl e ↦ rw e e | inr e ↦ rw e tt ]
    named (some null) = tt
    named (some nan) = tt
    named (some (bool b)) = tt
    named (some (int n)) = tt
    named (some (float m k)) = tt
    named (some (infinite b)) = tt
    named (some (arr xs)) = tt
    named (some (obj e)) = tt
file_of-IsFile _ = tt

make_hit-IsHit :
    (shown : Json → String) (content : Json) (file_id : String) (file : Fields)
    → is_id file_id ≡ true
    → IsHitIf (make_hit shown content file_id file)
unfolding make_hit
make_hit-IsHit shown (str content) file_id file h =
    elim (Bool-cases (eq_str (get_or file "id" null) file_id)) [
      | inl e ↦ rw e (record {
        file = h;
        snippet = length-first_chars 1600 content;
        source = length-first_chars 240 (shown (get_or file "filename" (str file_id)));
      })
      | inr e ↦ rw e tt
    ]
make_hit-IsHit shown _ file_id file h = tt

judge_file-IsHit :
    (shown : Json → String) (content : Json) (file_id : String) (r : Result Failure Json × Tools)
    → is_id file_id ≡ true
    → Holds (λ hit _. IsHitIf hit) (judge_file shown content file_id r)
unfolding judge_file
judge_file-IsHit shown content file_id (ok (obj file), s) h =
    make_hit-IsHit shown content file_id file h
judge_file-IsHit shown content file_id (ok other, s) h = tt
judge_file-IsHit shown content file_id (err e, s) h = elim (Bool-cases (is_gone e)) [
  | inl x ↦ rw x tt
  | inr x ↦ rw x tt
]

read_hit-IsHit :
    (env : Environment) (shown : Json → String) (auth : String) (content : Json)
    (file : Option String) (s : Tools)
    → IsFile file
    → Holds (λ hit _. IsHitIf hit) (read_hit env shown auth content file s)
unfolding read_hit
read_hit-IsHit env shown auth content none s h = tt
read_hit-IsHit env shown auth content (some file_id) s h =
    judge_file-IsHit shown content file_id
      (upstream_json env "GET" (join env.webui (join "/api/v1/files/" file_id)) (some auth) none s)
      h

-- At most n hits, each of them proper
abbrev pub AreHits : ℕ → List Hit → Type 0
AreHits n hits = (length hits ≤ n) × All IsHit hits

with_hit-AreHits :
    (n : ℕ) (hit : Option Hit) (hits : List Hit)
    → IsHitIf hit
    → AreHits n hits
    → AreHits (suc n) (with_hit hit hits)
with_hit-AreHits n none hits h (low, all) = (omega (arith, low), all)
with_hit-AreHits n (some x) hits h (low, all) = (omega (arith, low), (h, all))

read_hits-AreHits :
    (env : Environment) (shown : Json → String) (auth : String) (passages : List (Json × Json))
    (s : Tools)
    → Holds (λ hits _. AreHits (length passages) hits) (read_hits env shown auth passages s)
unfolding read_hits
read_hits-AreHits env shown auth [] s = (omega arith, tt)
read_hits-AreHits env shown auth (passage ∷ rest) s =
    let n = length rest in
    Holds-continue (λ hit _. IsHitIf hit) (λ hits _. AreHits (suc n) hits) _
      (read_hit env shown auth passage.0 (file_of passage.1) s)
      (read_hit-IsHit env shown auth passage.0 (file_of passage.1) s (file_of-IsFile passage.1))
      (λ hit t h.
        Holds-continue (λ hits _. AreHits n hits) (λ hits _. AreHits (suc n) hits) _
          (read_hits env shown auth rest t) (read_hits-AreHits env shown auth rest t)
          (λ later u k. with_hit-AreHits n hit later h k))

module _ {A B : Type 0} (Q : B → Tools → Type 0) where
  lift-Holds :
      (r : Result Failure A) (k : A → M B) (s : Tools)
      → ((a : A) → r ≡ ok a → Holds Q (k a s))
      → Holds Q ((lift_result r >>= k) s)
  lift-Holds (ok a) k s g = g a refl
  lift-Holds (err e) k s g = tt

length-pair_up :
    (xs ys : Result Failure (List Json)) (passages : List (Json × Json))
    → pair_up xs ys ≡ ok passages
    → length passages ≤ 3
unfolding pair_up
length-pair_up (err e) ys passages h = absurd (cc h)
length-pair_up (ok xs) (err e) passages h = absurd (cc h)
length-pair_up (ok xs) (ok ys) passages h =
    let same : take 3 (zip xs ys) ≡ passages = cc in
    subst (λ p. length p ≤ 3) same (length-take-le 3 (zip xs ys))

length-pair_values :
    (documents metadata : Result Failure Json) (passages : List (Json × Json))
    → pair_values documents metadata ≡ ok passages
    → length passages ≤ 3
unfolding pair_values
length-pair_values (err e) metadata passages h = absurd (cc h)
length-pair_values (ok documents) (err e) passages h = absurd (cc h)
length-pair_values (ok documents) (ok metadata) passages h =
    length-pair_up (iterate documents) (iterate metadata) passages h

read_passages-length :
    (d : Fields) (passages : List (Json × Json))
    → read_passages d ≡ ok passages
    → length passages ≤ 3
unfolding read_passages
read_passages-length d passages h =
    length-pair_values (first_of (get_or d "documents" null)) (first_of (get_or d "metadatas" null))
      passages h

retrieve-AreHits :
    (env : Environment) (shown : Json → String) (args : Json) (auth : String) (s : Tools)
    → Holds (λ hits _. AreHits 3 hits) (retrieve env shown args auth s)
unfolding retrieve
retrieve-AreHits env shown args auth s =
    let Q : List Hit → Tools → Type 0 = λ hits _. AreHits 3 hits in
    lift-Holds Q (read_arguments args) _ s λ d _.
      lift-Holds Q (read_collection (get_or d "collection" (str ""))) _ s λ collection _.
        lift-Holds Q (read_query (get_or d "query" (str ""))) _ s λ query _.
          Holds-after Q
            (upstream_json env "POST" (join env.webui "/api/v1/retrieval/query/collection")
              (some auth) (some (question collection query)))
            _ s
            λ result t. lift-Holds Q (as_dictionary result) _ t λ found _.
              lift-Holds Q (read_passages found) _ t
                λ passages e. fewer passages t (read_passages-length found passages e)
  where
    fewer :
        (passages : List (Json × Json)) (t : Tools)
        → length passages ≤ 3
        → Holds (λ hits _. AreHits 3 hits) (read_hits env shown auth passages t)
    fewer passages t low =
        at_most (read_hits env shown auth passages t) (read_hits-AreHits env shown auth passages t)
      where
        at_most :
            (r : Result Failure (List Hit) × Tools)
            → Holds (λ hits _. AreHits (length passages) hits) r
            → Holds (λ hits _. AreHits 3 hits) r
        at_most (ok hits, u) (few, all) = (omega (arith, few, low), all)
        at_most (err e, u) h = tt

-- What a retrieval returns are at most three passages, each of at most 1,600 characters, from a source named in at
-- most 240, of a file whose identity is well-formed.
pub retrieve_bounded :
    (env : Environment) (shown : Json → String) (args : Json) (auth : String) (s t : Tools)
    (hits : List Hit)
    → retrieve env shown args auth s ≡ (ok hits, t)
    → AreHits 3 hits
retrieve_bounded env shown args auth s t hits e =
    subst (Holds (λ found _. AreHits 3 found)) e (retrieve-AreHits env shown args auth s)
