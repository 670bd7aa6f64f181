-- ===== src/Search/Status.antt =====
-- apps/base/shared-api/web_search.py, `status` and `credential`: what the service says of itself.
use arch_linux_threadripper.Prelude.{
  ℕ, suc, ◌≡◌, refl, String, Bool, false, not, ◌&&◌, ◌||◌, Option, none, some, ltb, leb,
  if◌then◌else◌, Result, ok, err, length, any, succeeded, ap, sym, ◌∙◌,
}
use arch_linux_threadripper.Prelude.Int.{pos, negsuc}
use arch_linux_threadripper.Prelude.Text.{codes}
use arch_linux_threadripper.Prelude.Assoc.{find, find-place_self}
use arch_linux_threadripper.Search.Policy.{Fault, refusal, Policy}
use arch_linux_threadripper.Search.Pages.{Python}
use arch_linux_threadripper.Search.Budget.{
  Cell, whole, other, Usage, Stamp, check_period, next_cell, add_one, reserve_usage,
}

-- `credential`, for what `source.read(4097)` returns, or none where the file cannot be opened.
unfoldable pub credential : Python → Option String → Result Fault String
credential py none = err (refusal 503 "web_search_credential_missing")
credential py (some text) =
    let key = py.strip text in
    if leb 16 (length (codes key))
      && leb (length (codes key)) 4096
      && not (any (λ c. py.is_space c || ltb c 32) (codes key))
    then ok key
    else err (refusal 503 "web_search_credential_invalid")

pub record Status : Type 0 where
  pub code : String
  pub limit : ℕ
  pub reserved : ℕ

-- `except Refusal as exc`
abbrev pub credential_code : Result Fault String → String
credential_code (err (refusal _ code)) = code
credential_code _ = "configured-not-qualified"

-- The row of the month; what is no count is an error of the database.
unfoldable pub month_count : Option Cell → Option ℕ
month_count none = some 0
month_count (some (whole (pos n))) = some n
month_count (some _) = none

abbrev pub with_count : Status → Option ℕ → Status
with_count s none = record s { code = "web_search_accounting_unavailable" }
with_count s (some n) = record s { reserved = n }

abbrev pub first_status : Policy → Result Fault String → Status
first_status p key = record { code = credential_code key; limit = p.monthly; reserved = 0 }

-- `status`; a missing database is an empty table, and `failing` says that SQLite fails on it.
unfoldable pub status : Policy → Result Fault String → Stamp → Bool → Usage → Status
status p key now failing u =
    with_count (first_status p key)
      (if failing then none else month_count (find u.months now.month))

counted :
    (o : Option Cell) (limit : ℕ) (code : String) (t : Unit {0})
    → check_period o limit code ≡ ok t
    → (n : ℕ) × (month_count o ≡ some n) × (month_count (some (next_cell o)) ≡ some (suc n))
unfolding check_period month_count
counted none limit code t h = (0, refl, refl)
counted (some (whole (pos n))) limit code t h = (n, refl, refl)
counted (some (whole (negsuc n))) limit code t h = absurd (cc)
counted (some other) limit code t h = absurd (cc)

-- The status counts what the budget reserves: after a reservation it shows one request more for the
-- month than before, and the same code.
pub status-reserve_usage :
    (p : Policy) (key : Result Fault String) (now : Stamp) (u v : Usage)
    → reserve_usage p now u ≡ ok v
    → ((status p key now false v).reserved ≡ suc (status p key now false u).reserved)
      × ((status p key now false v).code ≡ (status p key now false u).code)
unfolding reserve_usage status add_one
status-reserve_usage p key now u v h =
    succeeded (check_period (find u.months now.month) p.monthly "web_search_month_limit") _ h
      λ a e h.
        succeeded (check_period (find u.days now.day) p.daily "web_search_day_limit") _ h λ _ _ h.
          succeeded
            (check_period (find u.minutes now.minute) p.per_minute "web_search_minute_limit") _ h
            λ _ _ h.
              let (n, before, after) = counted (find u.months now.month) p.monthly _ a e in
              let same : add_one u.months now.month ≡ v.months = cc in
              let found : find v.months now.month ≡ some (next_cell (find u.months now.month)) =
                ap (λ t. find t now.month) (sym same)
                ∙ find-place_self u.months now.month (next_cell (find u.months now.month)) in
              let later : month_count (find v.months now.month) ≡ some (suc n) =
                ap month_count found ∙ after in
              (
                ap (λ o. (with_count (first_status p key) o).reserved) later
                    ∙ ap suc (sym (ap (λ o. (with_count (first_status p key) o).reserved) before)),
                ap (λ o. (with_count (first_status p key) o).code) later
                    ∙ sym (ap (λ o. (with_count (first_status p key) o).code) before),
              )
