-- ===== src/Search/Budget.antt =====
-- apps/base/shared-api/web_search.py, `reserve` and the start and end of `request`: the usage table and
-- the requests under way.
use arch_linux_threadripper.Prelude.{
  ℕ, suc, ◌+◌, ◌-◌, String, Option, none, some, [], leb, Result, ok, err, ◌>>=◌, ◌>>◌, raise_if,
}
use arch_linux_threadripper.Prelude.Int.{ℤ, pos}
use arch_linux_threadripper.Prelude.Assoc.{Assoc, find, place}
use arch_linux_threadripper.Search.Policy.{Fault, refusal, Policy}

-- What the column of a row holds: an integer, or something else that has been put there.
pub data Cell : Type 0 where
  whole : ℤ → Cell
  other : Cell

-- The table, by the three prefixes of a period's name.
pub record Usage : Type 0 where
  pub months : Assoc Cell
  pub days : Assoc Cell
  pub minutes : Assoc Cell

-- The periods of a moment.
pub record Stamp : Type 0 where
  pub month : String
  pub day : String
  pub minute : String

abbrev pub no_usage : Usage
no_usage = record { months = []; days = []; minutes = [] }

-- One turn of the loop over the periods.
unfoldable pub check_period : Option Cell → ℕ → String → Result Fault (Unit {0})
check_period none limit code = ok tt
check_period (some (whole (pos n))) limit code = raise_if (leb limit n) (refusal 429 code)
check_period (some _) limit code = err (refusal 503 "web_search_accounting_unavailable")

-- requests + 1; a cell that is no count does not come this far.
abbrev pub next_cell : Option Cell → Cell
next_cell none = whole (pos 1)
next_cell (some (whole (pos n))) = whole (pos (suc n))
next_cell (some c) = c

-- INSERT … ON CONFLICT DO UPDATE
unfoldable pub add_one : Assoc Cell → String → Assoc Cell
add_one t name = place t name (next_cell (find t name))

unfoldable pub reserve_usage : Policy → Stamp → Usage → Result Fault Usage
reserve_usage p now u = do
  check_period (find u.months now.month) p.monthly "web_search_month_limit"
  check_period (find u.days now.day) p.daily "web_search_day_limit"
  check_period (find u.minutes now.minute) p.per_minute "web_search_minute_limit"
  ok (record {
    months = add_one u.months now.month;
    days = add_one u.days now.day;
    minutes = add_one u.minutes now.minute;
  })

-- What is wrong with the database: it is a link, or SQLite fails on it. A missing file is an empty table.
pub data Obstacle : Type 0 where
  linked failing : Obstacle

unfoldable pub reserve : Policy → Stamp → Option Obstacle → Usage → Result Fault Usage
reserve p now none u = reserve_usage p now u
reserve p now (some linked) u = err (refusal 503 "web_search_accounting_unavailable")
reserve p now (some failing) u = err (refusal 503 "web_search_accounting_unavailable")

pub record Search : Type 0 where
  pub usage : Usage
  pub active : ℕ

-- `request` up to the moment when it goes to the provider. A reservation that fails ends the request.
unfoldable pub begin_request :
    Policy → Result Fault String → Stamp → Option Obstacle → Search → Result Fault Search
begin_request p credential now obstacle s = do
  _ ← credential
  raise_if (leb 2 s.active) (refusal 429 "web_search_busy")
  usage ← reserve p now obstacle s.usage
  ok (record { usage = usage; active = s.active + 1 })

-- The `finally` clause, for a request that has begun.
unfoldable pub end_request : Search → Search
end_request s = record s { active = s.active - 1 }
