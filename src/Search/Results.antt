-- ===== src/Search/Results.antt =====
-- apps/base/shared-api/web_search.py, `search` and `extract`: what they make of the provider's answer.
use arch_linux_threadripper.Prelude.{
  String, Bool, true, false, not, ◌&&◌, Option, none, some, List, [], ◌∷◌, min, take, ltb, leb,
  if◌then◌else◌, Result, ok, err, ◌>>=◌, length, str_eq,
}
use arch_linux_threadripper.Prelude.Int.{pos}
use arch_linux_threadripper.Prelude.Text.{codes, first_chars}
use arch_linux_threadripper.Json.{
  Json, null, bool, int, str, arr, obj, Items, nil, cons, items_list, Fields, end, field, get_or,
  mem_str,
}
use arch_linux_threadripper.Search.Policy.{Fault, refusal, Provider, exa, tavily, Policy}
use arch_linux_threadripper.Search.Pages.{
  Python, public_url, read_search_query, read_count, read_search_arguments, search_request,
  read_rows,
}

pub record Hit : Type 0 where
  pub link : String
  pub title : String
  pub snippet : String

-- "\n".join over the texts of a list
unfoldable pub append : String → String → String
append String.[] b = b
append (String.◌∷◌ c a) b = String.◌∷◌ c (append a b)

unfoldable pub join_lines : List Json → String
join_lines [] = ""
join_lines (str s ∷ []) = s
join_lines (str s ∷ rest) = append s (append "\n" (join_lines rest))
join_lines (_ ∷ rest) = join_lines rest

unfoldable pub texts_of : List Json → List Json
texts_of [] = []
texts_of (str s ∷ rest) = str s ∷ texts_of rest
texts_of (_ ∷ rest) = texts_of rest

unfoldable pub highlights_of : Json → Option String
highlights_of (arr xs) = some (join_lines (texts_of (items_list xs)))
highlights_of _ = none

unfoldable pub text_of : Json → Option String
text_of (str s) = some s
text_of _ = none

unfoldable pub content_of : Provider → Fields → Option String
content_of exa row = highlights_of (get_or row "highlights" null)
content_of tavily row = text_of (get_or row "content" null)

unfoldable pub assemble : Result Fault String → Option String → Option String → Option Hit
assemble (ok url) (some content) (some title) =
    some (record { link = url; title = first_chars 240 title; snippet = first_chars 1600 content })
assemble _ _ _ = none

-- One turn of the loop over the rows
unfoldable pub read_row : Python → Provider → Json → Option Hit
read_row py provider (obj row) =
    assemble (public_url py (get_or row "url" null)) (content_of provider row)
      (text_of (get_or row "title" null))
read_row py provider _ = none

abbrev pub keep : {A : Type 0} → Option A → List A → List A
keep none found = found
keep (some a) found = a ∷ found

unfoldable pub gather : {A : Type 0} → (Json → Option A) → List Json → List A
gather f [] = []
gather f (row ∷ rest) = keep (f row) (gather f rest)

-- `search`; `request` is the request that goes to an endpoint of the provider, with what comes of it.
unfoldable pub search :
    Policy → Python → (String → Json → Result Fault Fields) → Json → Result Fault (List Hit)
search p py request args = do
  d ← read_search_arguments args
  query ← read_search_query py (get_or d "query" (str ""))
  count ← read_count (get_or d "count" (int (pos 3)))
  result ← request "/search" (search_request p.provider query (min count p.max_results))
  rows ← read_rows result
  ok (gather (read_row py p.provider) (take (min count p.max_results) rows))

pub record Page : Type 0 where
  pub content : String
  pub source : String
  pub truncated : Bool

-- Every URL, checked; and each only once, in their order
unfoldable pub public_urls : Python → List Json → Result Fault (List String)
public_urls py [] = ok []
public_urls py (v ∷ rest) = do url ← public_url py v; later ← public_urls py rest; ok (url ∷ later)

unfoldable pub without : String → List String → List String
without s [] = []
without s (t ∷ rest) = let later = without s rest in if str_eq t s then later else t ∷ later

unfoldable pub distinct : List String → List String
distinct [] = []
distinct (s ∷ rest) = s ∷ without s (distinct rest)

unfoldable pub read_urls : Json → Result Fault (List Json)
read_urls (arr xs) =
    if leb 1 (length (items_list xs)) && leb (length (items_list xs)) 3
    then ok (items_list xs)
    else err (refusal 400 "one_to_three_public_urls_required")
read_urls _ = err (refusal 400 "one_to_three_public_urls_required")

abbrev pub url_items : List String → Items
url_items [] = nil
url_items (s ∷ rest) = cons (str s) (url_items rest)

abbrev pub endpoint : Provider → String
endpoint exa = "/contents"
endpoint tavily = "/extract"

abbrev pub content_field : Provider → String
content_field exa = "text"
content_field tavily = "raw_content"

unfoldable pub extract_request : Policy → Provider → List String → Json
extract_request p exa urls = obj (
    field "ids" (arr (url_items urls))
      (field "text" (obj (field "maxCharacters" (int (pos p.max_content)) end)) end))
extract_request p tavily urls = obj (
    field "urls" (arr (url_items urls)) (
      field "extract_depth" (str "basic") (
        field "format" (str "text")
          (field "include_images" (bool false) (field "include_usage" (bool true) end)))))

abbrev pub is_blank : Python → String → Bool
is_blank py text = str_eq (py.strip text) ""

unfoldable pub make_page :
    Policy → Python → List String → Option String → Option String → Option Page
make_page p py urls (some url) (some text) =
    if mem_str url urls && not (is_blank py text)
    then some (record {
      content = first_chars p.max_content text;
      source = url;
      truncated = ltb p.max_content (length (codes text));
    })
    else none
make_page p py urls _ _ = none

unfoldable pub read_page : Policy → Python → List String → Json → Option Page
read_page p py urls (obj row) =
    make_page p py urls (text_of (get_or row "url" null))
      (text_of (get_or row (content_field p.provider) null))
read_page p py urls _ = none

unfoldable pub some_pages : List Page → Result Fault (List Page)
some_pages [] = err (refusal 502 "web_page_not_available")
some_pages (page ∷ rest) = ok (page ∷ rest)

-- `extract`
unfoldable pub extract :
    Policy → Python → (String → Json → Result Fault Fields) → Json → Result Fault (List Page)
extract p py request value = do
  given ← read_urls value
  checked ← public_urls py given
  result ← request (endpoint p.provider) (extract_request p p.provider (distinct checked))
  rows ← read_rows result
  some_pages (gather (read_page p py (distinct checked)) (take (length (distinct checked)) rows))
