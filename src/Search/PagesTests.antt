-- ===== src/Search/PagesTests.antt =====
-- apps/base/shared-api/web_search.py: one search and one page, and each result at them.
use arch_linux_threadripper.Prelude.{
  ◌≤◌, ◌≡◌, refl, String, true, false, none, some, List, [], ◌∷◌, Result, ok, length, All, ◌==◌,
}
use arch_linux_threadripper.Prelude.Text.{first_chars}
use arch_linux_threadripper.Json.{Json, str, arr, obj, nil, cons, Fields, end, field}
use arch_linux_threadripper.Search.Policy.{Fault, tavily, Policy}
use arch_linux_threadripper.Search.Pages.{
  Python, is_web_port, has_two_dots, last_label, is_host_name, is_public_host, is_public, is_plain,
  is_public_url, public_url, read_search_query, read_count, read_search_arguments, search_request,
  read_rows,
}
use arch_linux_threadripper.Search.Results.{
  Hit, Page, append, join_lines, texts_of, highlights_of, text_of, content_of, assemble, read_row,
  gather, search, public_urls, without, distinct, read_urls, extract_request, make_page, read_page,
  some_pages, extract,
}
use arch_linux_threadripper.Search.Bounds.{IsHit, search_bounded}

abbrev policy : Policy
policy = record {
  provider = tavily;
  monthly = 100;
  daily = 10;
  per_minute = 1;
  max_results = 3;
  max_content = 4;
}

abbrev python : Python
python = record {
  strip = λ s. s;
  host_name = λ s. s;
  is_space = λ c. c == 32;
  urlsplit = λ s. some (record {
    scheme = "https";
    host = some "example.org";
    has_user = false;
    has_password = false;
    port = ok none;
  });
  is_global = λ s. none;
}

abbrev row : Json
row = obj (
    field "url" (str "https://example.org/a") (
      field "title" (str "A")
        (field "content" (str "what it says") (field "raw_content" (str "what it says") end))))

abbrev answer : String → Json → Result Fault Fields
answer endpoint body = ok (field "results" (arr (cons row (cons row nil))) end)

abbrev hits : List Hit
hits =
    record { link = "https://example.org/a"; title = "A"; snippet = "what it says" }
    ∷ record { link = "https://example.org/a"; title = "A"; snippet = "what it says" }
    ∷ []

abbrev question : Json
question = obj (field "query" (str "what is it") end)

it_finds : search policy python answer question ≡ ok hits
unfolding is_web_port has_two_dots last_label is_host_name is_public_host is_public is_plain
    is_public_url public_url read_search_query read_count read_search_arguments search_request
    read_rows append join_lines texts_of highlights_of text_of content_of assemble read_row gather
    search public_urls without distinct read_urls extract_request make_page read_page some_pages
    extract first_chars
it_finds = refl

search_bounded_example : (length hits ≤ 3) × (length hits ≤ 3) × All (IsHit python) hits
search_bounded_example = search_bounded policy python answer question hits it_finds

abbrev pages : List Page
pages = record { content = "what"; source = "https://example.org/a"; truncated = true } ∷ []

abbrev urls : Json
urls = arr (cons (str "https://example.org/a") nil)

it_reads : extract policy python answer urls ≡ ok pages
unfolding is_web_port has_two_dots last_label is_host_name is_public_host is_public is_plain
    is_public_url public_url read_search_query read_count read_search_arguments search_request
    read_rows append join_lines texts_of highlights_of text_of content_of assemble read_row gather
    search public_urls without distinct read_urls extract_request make_page read_page some_pages
    extract first_chars
it_reads = refl
