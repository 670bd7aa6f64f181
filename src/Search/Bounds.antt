-- ===== src/Search/Bounds.antt =====
-- apps/base/shared-api/web_search.py: what `search` and `extract` return, whatever the provider answers.
use arch_linux_threadripper.Prelude.{
  ℕ, suc, ◌≤◌, ◌≡◌, refl, subst, sym, String, true, not, ◌&&◌, Option, none, some, List, [], ◌∷◌,
  min, take, Result, ok, err, length, arith, All, Bool-cases, inl, inr, length-take-le, succeeded,
  eq_iff, both_true, str_eq, ltb,
}
use arch_linux_threadripper.Prelude.Text.{codes, first_chars, length-first_chars}
use arch_linux_threadripper.Prelude.Int.{pos}
use arch_linux_threadripper.Json.{Json, null, int, str, arr, obj, Fields, get_or, mem_str}
use arch_linux_threadripper.Search.Policy.{Fault, Provider, Policy}
use arch_linux_threadripper.Search.Pages.{
  Python, is_public_url, public_url, read_search_query, read_count, read_search_arguments,
  search_request, read_rows,
}
use arch_linux_threadripper.Search.Results.{
  Hit, text_of, content_of, assemble, read_row, keep, gather, search, Page, public_urls, without,
  distinct, read_urls, content_field, is_blank, endpoint, extract_request, make_page, read_page,
  some_pages, extract,
}

module _ {A : Type 0} (f : Json → Option A) where
  keep_lem :
      (P : List A → Type 0) (o : Option A) (found : List A)
      → P found
      → ((a : A) → o ≡ some a → P (a ∷ found))
      → P (keep o found)
  keep_lem P none found p g = p
  keep_lem P (some a) found p g = g a refl

  length-gather : (rows : List Json) → length (gather f rows) ≤ length rows
  unfolding gather
  length-gather [] = omega arith
  length-gather (row ∷ rest) =
      keep_lem (λ xs. length xs ≤ suc (length rest)) (f row) (gather f rest)
        (omega (arith, length-gather rest)) (λ a e. omega (arith, length-gather rest))

  All-gather :
      (P : A → Type 0) (rows : List Json)
      → ((row : Json) (a : A) → f row ≡ some a → P a)
      → All P (gather f rows)
  unfolding gather
  All-gather P [] g = tt
  All-gather P (row ∷ rest) g =
      keep_lem (All P) (f row) (gather f rest) (All-gather P rest g)
        (λ a e. (g row a e, All-gather P rest g))

public_url_lem :
    (py : Python) (v : Json) (url : String) → public_url py v ≡ ok url → is_public_url py url ≡ true
unfolding public_url
public_url_lem py (str s) url h = elim (Bool-cases (is_public_url py s)) [
  | inl e ↦ subst (λ u. is_public_url py u ≡ true) (cc (e, h)) e
  | inr e ↦ absurd (cc (e, h))
]
public_url_lem py _ url h = cc

-- A hit is a public URL with a title of at most 240 characters and a snippet of at most 1,600.
pub record IsHit (py : Python) (h : Hit) : Type 0 where
  pub link : is_public_url py h.link ≡ true
  pub title : length (codes h.title) ≤ 240
  pub snippet : length (codes h.snippet) ≤ 1600

assemble-IsHit :
    (py : Python) (v : Json) (url : Result Fault String) (content title : Option String) (h : Hit)
    → url ≡ public_url py v
    → assemble url content title ≡ some h
    → IsHit py h
unfolding assemble
assemble-IsHit py v (ok url) (some content) (some title) h e x =
    let same : record {
      link = url;
      title = first_chars 240 title;
      snippet = first_chars 1600 content;
    }
        ≡ h =
      cc in
    subst (IsHit py) same (record {
      link = public_url_lem py v url (sym e);
      title = length-first_chars 240 title;
      snippet = length-first_chars 1600 content;
    })
assemble-IsHit py v (ok url) (some content) none h e x = absurd (cc x)
assemble-IsHit py v (ok url) none title h e x = absurd (cc x)
assemble-IsHit py v (err f) content title h e x = absurd (cc x)

read_row-IsHit :
    (py : Python) (provider : Provider) (row : Json) (h : Hit)
    → read_row py provider row ≡ some h
    → IsHit py h
unfolding read_row
read_row-IsHit py provider (obj row) h e =
    assemble-IsHit py (get_or row "url" null) (public_url py (get_or row "url" null))
      (content_of provider row) (text_of (get_or row "title" null)) h refl e
read_row-IsHit py provider _ h e = cc

read_count_low : (v : Json) (n : ℕ) → read_count v ≡ ok n → n ≤ 3
unfolding read_count
read_count_low (int (pos m)) n h = ground arith
read_count_low _ n h = cc

-- Whatever the provider answers, a search returns at most three hits and no more than the policy allows, each a
-- public URL with a title of at most 240 characters and a snippet of at most 1,600.
pub search_bounded :
    (p : Policy) (py : Python) (request : String → Json → Result Fault Fields) (args : Json)
    (hits : List Hit)
    → search p py request args ≡ ok hits
    → (length hits ≤ 3) × (length hits ≤ p.max_results) × All (IsHit py) hits
unfolding search
search_bounded p py request args hits h = succeeded (read_search_arguments args) _ h λ d _ h.
    succeeded (read_search_query py (get_or d "query" (str ""))) _ h λ query _ h.
      succeeded (read_count (get_or d "count" (int (pos 3)))) _ h λ count low h.
        succeeded (request "/search" (search_request p.provider query (min count p.max_results))) _
          h
          λ result _ h. succeeded (read_rows result) _ h λ rows _ h.
            let n = min count p.max_results in
            let same : gather (read_row py p.provider) (take n rows) ≡ hits = cc in
            let few = length-gather (read_row py p.provider) (take n rows) in
            subst (λ xs. (length xs ≤ 3) × (length xs ≤ p.max_results) × All (IsHit py) xs) same
              (
                omega (
                  arith,
                  few,
                  length-take-le n rows,
                  read_count_low (get_or d "count" (int (pos 3))) count low,
                ),
                omega (arith, few, length-take-le n rows),
                All-gather (read_row py p.provider) (IsHit py) (take n rows)
                    (read_row-IsHit py p.provider),
              )

-- Three URLs at most, each of them public
abbrev ArePublic : Python → ℕ → List String → Type 0
ArePublic py n urls = (length urls ≤ n) × All (λ u. is_public_url py u ≡ true) urls

without-ArePublic :
    (py : Python) (n : ℕ) (s : String) (urls : List String)
    → ArePublic py n urls
    → ArePublic py n (without s urls)
unfolding without
without-ArePublic py n s [] h = h
without-ArePublic py n s (t ∷ rest) (few, (good, all)) =
    let (low, later) = without-ArePublic py (length rest) s rest (omega arith, all) in
    elim (Bool-cases (str_eq t s)) [
      | inl e ↦ rw e (omega (arith, low, few), later)
      | inr e ↦ rw e (omega (arith, low, few), (good, later))
    ]

distinct-ArePublic :
    (py : Python) (urls : List String)
    → All (λ u. is_public_url py u ≡ true) urls
    → ArePublic py (length urls) (distinct urls)
unfolding distinct
distinct-ArePublic py [] h = (omega arith, tt)
distinct-ArePublic py (s ∷ rest) (good, all) =
    let (low, later) =
      without-ArePublic py (length rest) s (distinct rest) (distinct-ArePublic py rest all) in
    (omega (arith, low), (good, later))

public_urls-ArePublic :
    (py : Python) (given : List Json) (urls : List String)
    → public_urls py given ≡ ok urls
    → ArePublic py (length given) urls
unfolding public_urls
public_urls-ArePublic py [] urls h = subst (ArePublic py 0) {x = []} (cc) (omega arith, tt)
public_urls-ArePublic py (v ∷ rest) urls h = succeeded (public_url py v) _ h λ url e h.
    succeeded (public_urls py rest) _ h λ later f h.
      let (low, all) = public_urls-ArePublic py rest later f in
      let same : url ∷ later ≡ urls = cc in
      subst (ArePublic py (suc (length rest))) same
        (omega (arith, low), (public_url_lem py v url e, all))

read_urls-length : (v : Json) (given : List Json) → read_urls v ≡ ok given → length given ≤ 3
unfolding read_urls
read_urls-length (arr xs) given h = ground arith
read_urls-length _ given h = cc

member_public :
    (py : Python) (url : String) (urls : List String)
    → All (λ u. is_public_url py u ≡ true) urls
    → mem_str url urls ≡ true
    → is_public_url py url ≡ true
member_public py url [] all h = cc
member_public py url (u ∷ urls) (good, all) h = elim (Bool-cases (str_eq u url)) [
  | inl e ↦ subst (λ x. is_public_url py x ≡ true) ((eq_iff u url).0 e) good
  | inr e ↦ member_public py url urls all (rw e at h)
]

-- A page is of a public URL, with no more of its content than the policy allows.
pub record IsPage (py : Python) (p : Policy) (page : Page) : Type 0 where
  pub source : is_public_url py page.source ≡ true
  pub content : length (codes page.content) ≤ p.max_content

make_page-IsPage :
    (p : Policy) (py : Python) (urls : List String) (url text : Option String) (page : Page)
    → All (λ u. is_public_url py u ≡ true) urls
    → make_page p py urls url text ≡ some page
    → IsPage py p page
unfolding make_page
make_page-IsPage p py urls (some url) (some text) page all h =
    elim (Bool-cases (mem_str url urls && not (is_blank py text))) [
      | inl e ↦
          let same : record {
            content = first_chars p.max_content text;
            source = url;
            truncated = ltb p.max_content (length (codes text));
          }
              ≡ page =
            cc (e, h) in
          subst (IsPage py p) same (record {
            source =
                member_public py url urls all
                  (both_true (mem_str url urls) (not (is_blank py text)) e).0;
            content = length-first_chars p.max_content text;
          })
      | inr e ↦ absurd (cc (e, h))
    ]
make_page-IsPage p py urls (some url) none page all h = absurd (cc h)
make_page-IsPage p py urls none text page all h = absurd (cc h)

read_page-IsPage :
    (p : Policy) (py : Python) (urls : List String) (row : Json) (page : Page)
    → All (λ u. is_public_url py u ≡ true) urls
    → read_page p py urls row ≡ some page
    → IsPage py p page
unfolding read_page
read_page-IsPage p py urls (obj row) page all h =
    make_page-IsPage p py urls (text_of (get_or row "url" null))
      (text_of (get_or row (content_field p.provider) null)) page all h
read_page-IsPage p py urls _ page all h = cc

some_pages_lem : (found pages : List Page) → some_pages found ≡ ok pages → found ≡ pages
unfolding some_pages
some_pages_lem [] pages h = absurd (cc h)
some_pages_lem (a ∷ rest) pages h = cc

-- Whatever the provider answers, reading pages returns at most three pages, each of a public
-- URL, with no more of its content than the policy allows.
pub extract_bounded :
    (p : Policy) (py : Python) (request : String → Json → Result Fault Fields) (value : Json)
    (pages : List Page)
    → extract p py request value ≡ ok pages
    → (length pages ≤ 3) × All (IsPage py p) pages
unfolding extract
extract_bounded p py request value pages h = succeeded (read_urls value) _ h λ given a h.
    succeeded (public_urls py given) _ h λ checked b h.
      succeeded (request (endpoint p.provider) (extract_request p p.provider (distinct checked))) _
        h
        λ result _ h. succeeded (read_rows result) _ h λ rows _ h.
          let urls = distinct checked in
          let (low, all) = public_urls-ArePublic py given checked b in
          let (fewer, public) = distinct-ArePublic py checked all in
          let few = length-gather (read_page p py urls) (take (length urls) rows) in
          subst (λ xs. (length xs ≤ 3) × All (IsPage py p) xs)
            (some_pages_lem (gather (read_page p py urls) (take (length urls) rows)) pages h)
            (
              omega (
                arith,
                few,
                length-take-le (length urls) rows,
                fewer,
                low,
                read_urls-length value given a,
              ),
              All-gather (read_page p py urls) (IsPage py p) (take (length urls) rows)
                  (λ row page e. read_page-IsPage p py urls row page public e),
            )
