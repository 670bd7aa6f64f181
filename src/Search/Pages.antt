-- ===== src/Search/Pages.antt =====
-- apps/base/shared-api/web_search.py: `public_url`, `search` and `extract` around their one request.
use arch_linux_threadripper.Prelude.{
  ℕ, String, Bool, true, false, not, ◌&&◌, ◌||◌, Option, none, some, List, [], ◌∷◌, any, all, ltb,
  leb, ◌==◌, if◌then◌else◌, Result, ok, err, length, str_eq,
}
use arch_linux_threadripper.Prelude.Int.{pos}
use arch_linux_threadripper.Prelude.Text.{codes, has_suffix}
use arch_linux_threadripper.Json.{
  Json, null, bool, int, str, arr, obj, items_list, Fields, end, field, get_or, keys_within,
}
use arch_linux_threadripper.Exchange.Terms.{is_digit}
use arch_linux_threadripper.Search.Policy.{Fault, refusal, Provider, exa, tavily}

-- What urlsplit finds in a URL. `port` raises ValueError for what is no port.
pub record Url : Type 0 where
  pub scheme : String
  pub host : Option String
  pub has_user : Bool
  pub has_password : Bool
  pub port : Result (Unit {0}) (Option ℕ)

-- Python's own functions: str.strip, the lower case of a host without its last dots, str.isspace of a character,
-- urlsplit where it does not raise, and whether the address that a text is, if it is one, is global.
pub record Python : Type 0 where
  pub strip : String → String
  pub host_name : String → String
  pub is_space : ℕ → Bool
  pub urlsplit : String → Option Url
  pub is_global : String → Option Bool

abbrev pub private_suffixes : List String
private_suffixes =
    ".local" ∷ ".localhost" ∷ ".internal" ∷ ".lan" ∷ ".home" ∷ ".test" ∷ ".invalid" ∷ ".onion"
    ∷ ".arpa" ∷ []

abbrev pub host_or_empty : Python → Url → String
host_or_empty py url = elim url.host [ none ↦ "" | some h ↦ py.host_name h ]

unfoldable pub is_web_port : Result (Unit {0}) (Option ℕ) → Bool
is_web_port (ok none) = true
is_web_port (ok (some n)) = n == 80 || n == 443
is_web_port (err e) = false

abbrev pub has_code : ℕ → List ℕ → Bool
has_code c text = any (λ d. d == c) text

-- [a-z0-9], and that or a dot or a dash
abbrev pub is_label_char : ℕ → Bool
is_label_char c = is_digit c || (leb b'a' c && leb c b'z')

abbrev pub is_name_char : ℕ → Bool
is_name_char c = is_label_char c || c == b'.' || c == b'-'

abbrev pub last_is_label : List ℕ → Bool
last_is_label [] = false
last_is_label (c ∷ []) = is_label_char c
last_is_label (c ∷ rest) = last_is_label rest

abbrev pub first_is_label : List ℕ → Bool
first_is_label [] = false
first_is_label (c ∷ rest) = is_label_char c

unfoldable pub has_two_dots : List ℕ → Bool
has_two_dots [] = false
has_two_dots (a ∷ []) = false
has_two_dots (a ∷ b ∷ rest) = (a == b'.' && b == b'.') || has_two_dots (b ∷ rest)

-- host.rsplit(".", 1)[-1]
unfoldable pub last_label : List ℕ → List ℕ
last_label [] = []
last_label (c ∷ rest) =
    let later = last_label rest in
    if has_code b'.' rest then later else if c == b'.' then rest else c ∷ rest

-- A name that is not an address: the last label is not a number. The characters are ASCII by then.
unfoldable pub is_host_name : String → Bool
is_host_name host =
    first_is_label (codes host)
    && last_is_label (codes host)
    && all is_name_char (codes host)
    && not (has_two_dots (codes host))
    && not (all is_digit (last_label (codes host)))

unfoldable pub is_public_host : Python → String → Bool
is_public_host py host = elim (py.is_global host) [ none ↦ is_host_name host | some b ↦ b ]

unfoldable pub is_public : Python → String → Url → Bool
is_public py value url =
    (str_eq url.scheme "http" || str_eq url.scheme "https")
    && not url.has_user
    && not url.has_password
    && is_web_port url.port
    && not (has_code b'\\' (codes value))
    && not (has_code b'%' (codes (host_or_empty py url)))
    && has_code b'.' (codes (host_or_empty py url))
    && not (any (λ s. has_suffix (codes s) (codes (host_or_empty py url))) private_suffixes)
    && is_public_host py (host_or_empty py url)

unfoldable pub is_plain : Python → String → Bool
is_plain py value =
    leb 1 (length (codes value))
    && leb (length (codes value)) 2048
    && not (any (λ c. py.is_space c || ltb c 32) (codes value))

unfoldable pub is_public_url : Python → String → Bool
is_public_url py value =
    is_plain py value
    && (elim (py.urlsplit value) [ none ↦ false | some url ↦ is_public py value url ])

-- `public_url`
unfoldable pub public_url : Python → Json → Result Fault String
public_url py (str value) =
    if is_public_url py value then ok value else err (refusal 400 "public_http_url_required")
public_url py _ = err (refusal 400 "public_http_url_required")

unfoldable pub read_search_query : Python → Json → Result Fault String
read_search_query py (str s) =
    if leb 1 (length (codes (py.strip s)))
      && leb (length (codes (py.strip s))) 512
      && not (any (λ c. ltb c 32) (codes s))
    then ok (py.strip s)
    else err (refusal 400 "invalid_search_query_or_count")
read_search_query py _ = err (refusal 400 "invalid_search_query_or_count")

unfoldable pub read_count : Json → Result Fault ℕ
read_count (int (pos n)) =
    if leb 1 n && leb n 3 then ok n else err (refusal 400 "invalid_search_query_or_count")
read_count _ = err (refusal 400 "invalid_search_query_or_count")

unfoldable pub read_search_arguments : Json → Result Fault Fields
read_search_arguments (obj d) =
    if keys_within ("query" ∷ "count" ∷ []) d
    then ok d
    else err (refusal 400 "invalid_tool_arguments")
read_search_arguments _ = err (refusal 400 "invalid_tool_arguments")

unfoldable pub search_request : Provider → String → ℕ → Json
search_request exa query count = obj (
    field "query" (str query) (
      field "numResults" (int (pos count)) (
        field "type" (str "auto") (
          field "contents"
            (obj (field "highlights" (obj (field "maxCharacters" (int (pos 1600)) end)) end))
            end))))
search_request tavily query count = obj (
    field "query" (str query) (
      field "max_results" (int (pos count)) (
        field "search_depth" (str "basic") (
          field "auto_parameters" (bool false) (
            field "include_answer" (bool false) (
              field "include_raw_content" (bool false)
                (field "include_images" (bool false) (field "include_usage" (bool true) end))))))))

unfoldable pub read_rows : Fields → Result Fault (List Json)
read_rows d = elim (get_or d "results" null) [
  | arr xs ↦ ok (items_list xs)
  | _ ↦ err (refusal 502 "web_search_invalid_response")
]
