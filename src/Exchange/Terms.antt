-- ===== src/Exchange/Terms.antt =====
-- lib/workstation/hyperloom_exchange.py: the constants, the identities, the envelope of a job, and the
-- encodings that the exchange is given.
use arch_linux_threadripper.Prelude.{
  ℕ, suc, ◌+◌, String, Bool, true, false, ◌&&◌, ◌||◌, Option, none, some, List, [], ◌∷◌, leb, ◌==◌,
  if◌then◌else◌, Result, ok, err, length, all, str_eq,
}
use arch_linux_threadripper.Prelude.Int.{pos}
use arch_linux_threadripper.Prelude.Text.{codes}
use arch_linux_threadripper.Json.{Json, int, str, obj, Fields}

-- ValueError with its message; FileExistsError; KeyError; TypeError; AttributeError; RuntimeError of a parked
-- campaign; TimeoutError; RecursionError.
pub data Fault : Type 0 where
  refused parked : String → Fault
  already_exists missing_key type_error attribute_error late too_deep : Fault

-- json.dumps in its canonical form, SHA-256 in hexadecimal, and the strict JSON decoder.
pub record Codec : Type 0 where
  pub canonical : Json → List ℕ
  pub digest : List ℕ → String
  pub decode : List ℕ → Result Fault Json

abbrev pub max_json : ℕ
max_json = 2097152

abbrev pub max_result : ℕ
max_result = 16777216

abbrev pub max_source : ℕ
max_source = 4194304

abbrev pub max_source_total : ℕ
max_source_total = 33554432

pub data Kind : Type 0 where
  serving profile component : Kind

-- `kind in KINDS`
unfoldable pub kind_named : String → Option Kind
kind_named s =
    if str_eq s "serving"
    then some serving
    else if str_eq s "profile"
    then some profile
    else if str_eq s "component"
    then some component
    else none

abbrev pub kind_name : Kind → String
kind_name serving = "serving"
kind_name profile = "profile"
kind_name component = "component"

-- POST_RELEASE_SECONDS
abbrev pub post_release_seconds : Kind → ℕ
post_release_seconds component = 120
post_release_seconds _ = 320 + 120

abbrev pub admission_seconds : Kind → ℕ
admission_seconds component = 600
admission_seconds _ = 60

-- `envelope_seconds`, for a recognized kind
unfoldable pub envelope_seconds : Kind → ℕ → ℕ
envelope_seconds kind caller = admission_seconds kind + caller + post_release_seconds kind

abbrev pub is_digit : ℕ → Bool
is_digit c = leb b'0' c && leb c b'9'

abbrev pub is_hex : ℕ → Bool
is_hex c = is_digit c || (leb b'a' c && leb c b'f')

abbrev pub is_alnum : ℕ → Bool
is_alnum c = is_digit c || (leb b'a' c && leb c b'z') || (leb b'A' c && leb c b'Z')

abbrev pub is_name_char : ℕ → Bool
is_name_char c = is_alnum c || c == b'_' || c == b'.' || c == b'-'

abbrev pub hex_text : ℕ → List ℕ → Bool
hex_text n s = length s == n && all is_hex s

-- SHA.fullmatch, JOB_ID.fullmatch and NAME.fullmatch
unfoldable pub is_sha : String → Bool
is_sha s = hex_text 64 (codes s)

unfoldable pub is_job_id : String → Bool
is_job_id s = hex_text 32 (codes s)

abbrev pub name_text : List ℕ → Bool
name_text [] = false
name_text (c ∷ rest) = is_alnum c && all is_name_char rest && leb (length rest) 127

unfoldable pub is_name : String → Bool
is_name s = name_text (codes s)

-- `_identity`
unfoldable pub identity : Option Json → String → Result Fault String
identity (some (str s)) what = if is_sha s then ok s else err (refused what)
identity _ what = err (refused what)

-- `type(value) is int and value > 0`
unfoldable pub positive : Option Json → String → Result Fault ℕ
positive (some (int (pos (suc n)))) what = ok (suc n)
positive _ what = err (refused what)

-- `type(value) is int and value == n`
abbrev pub is_exactly : ℕ → Option Json → Bool
is_exactly n (some (int (pos m))) = m == n
is_exactly n _ = false

abbrev pub is_text : String → Option Json → Bool
is_text t (some (str s)) = str_eq s t
is_text t _ = false

abbrev pub says_false : Option Json → Bool
says_false (some (Json.bool false)) = true
says_false _ = false

abbrev pub says_true : Option Json → Bool
says_true (some (Json.bool true)) = true
says_true _ = false

-- `isinstance(value, dict)`
unfoldable pub dictionary : Json → String → Result Fault Fields
dictionary (obj d) what = ok d
dictionary _ what = err (refused what)
