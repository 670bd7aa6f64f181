-- ===== src/Search/Ledger.antt =====
-- apps/base/shared-api/web_search.py: the budget over time, against the list of the requests that have
-- gone to the provider.
use arch_linux_threadripper.Prelude.{
  ℕ, suc, ◌+◌, ◌≤◌, ◌≡◌, refl, String, Option, none, some, List, [], ◌∷◌, leb, Result, ok,
  if◌then◌else◌, str_eq, eq_iff, arith, succeeded, passed_guard, subst, Bool-cases, inl, inr,
}
use arch_linux_threadripper.Prelude.Int.{pos, negsuc}
use arch_linux_threadripper.Prelude.Assoc.{Assoc, find, find-place}
use arch_linux_threadripper.Search.Policy.{Fault, Policy, IsBounded}
use arch_linux_threadripper.Search.Budget.{
  Cell, whole, other, Usage, Stamp, no_usage, check_period, next_cell, add_one, reserve_usage,
  reserve, Obstacle, linked, failing, Search, begin_request, end_request,
}

-- How many of the requests fall into a period.
abbrev pub spent : (Stamp → String) → String → List Stamp → ℕ
spent period name [] = 0
spent period name (s ∷ earlier) =
    if str_eq (period s) name then suc (spent period name earlier) else spent period name earlier

-- What a cell says of n requests.
abbrev pub IsCount : ℕ → Option Cell → ℕ → Type 0
IsCount limit none n = n ≡ 0
IsCount limit (some (whole (pos m))) n = (m ≡ n) × (n ≤ limit)
IsCount limit (some _) n = ⊥

-- A table counts the requests of every period, within the limit.
abbrev pub IsLedger : ℕ → Assoc Cell → (Stamp → String) → List Stamp → Type 0
IsLedger limit t period trace =
    (name : String) → IsCount limit (find t name) (spent period name trace)

IsCount-next :
    (limit : ℕ) (o : Option Cell) (n : ℕ) (code : String) (u : Unit {0})
    → 1 ≤ limit
    → IsCount limit o n
    → check_period o limit code ≡ ok u
    → IsCount limit (some (next_cell o)) (suc n)
unfolding check_period
IsCount-next limit none n code u low i h = (ground arith, low_enough i)
  where
    low_enough : n ≡ 0 → suc n ≤ limit
    low_enough e = ground arith
IsCount-next limit (some (whole (pos m))) n code u low i h = ground arith
IsCount-next limit (some (whole (negsuc m))) n code u low i h = absurd i
IsCount-next limit (some other) n code u low i h = absurd i

add_one-IsLedger :
    (limit : ℕ) (t : Assoc Cell) (period : Stamp → String) (now : Stamp) (trace : List Stamp)
    (code : String) (u : Unit {0})
    → 1 ≤ limit
    → IsLedger limit t period trace
    → check_period (find t (period now)) limit code ≡ ok u
    → IsLedger limit (add_one t (period now)) period (now ∷ trace)
unfolding add_one
add_one-IsLedger limit t period now trace code u low i h name =
    let next =
      IsCount-next limit (find t (period now)) (spent period (period now) trace) code u low
        (i (period now)) h in
    elim (Bool-cases (str_eq (period now) name)) [
      | inl e ↦
          let same : period now ≡ name = ground (arith, eq_iff (period now) name) in
          rw (find-place t (period now) name (next_cell (find t (period now)))) (
            rw e (
              subst
                (λ k.
                  IsCount limit (some (next_cell (find t (period now))))
                    (suc (spent period k trace)))
                same next))
      | inr e ↦
          rw (find-place t (period now) name (next_cell (find t (period now)))) (rw e (i name))
    ]

-- The state of the service after the requests of a trace, the latest first. The process may restart,
-- which keeps the table.
pub data Reach (p : Policy) : List Stamp → Search → Type 0 where
  fresh : Reach p [] (record { usage = no_usage; active = 0 })
  began :
      (trace : List Stamp) (s s' : Search) (credential : Result Fault String) (now : Stamp)
      (obstacle : Option Obstacle)
      → Reach p trace s
      → begin_request p credential now obstacle s ≡ ok s'
      → Reach p (now ∷ trace) s'
  ended : (trace : List Stamp) (s : Search) → Reach p trace s → Reach p trace (end_request s)
  restarted :
      (trace : List Stamp) (s : Search) → Reach p trace s → Reach p trace (record s { active = 0 })

pub record IsAccounted (p : Policy) (trace : List Stamp) (s : Search) : Type 0 where
  pub months : IsLedger p.monthly s.usage.months (λ t. t.month) trace
  pub days : IsLedger p.daily s.usage.days (λ t. t.day) trace
  pub minutes : IsLedger p.per_minute s.usage.minutes (λ t. t.minute) trace
  pub few : s.active ≤ 2

reserve_usage-IsLedger :
    (p : Policy) (trace : List Stamp) (s : Search) (now : Stamp) (after : Usage)
    → IsBounded p
    → IsAccounted p trace s
    → s.active ≤ 1
    → reserve_usage p now s.usage ≡ ok after
    → IsAccounted p (now ∷ trace) (record { usage = after; active = s.active + 1 })
unfolding reserve_usage
reserve_usage-IsLedger p trace s now after b a room h =
    let u = s.usage in
    succeeded (check_period (find u.months now.month) p.monthly "web_search_month_limit") _ h
      λ _ e₁ h.
        succeeded (check_period (find u.days now.day) p.daily "web_search_day_limit") _ h λ _ e₂ h.
          succeeded
            (check_period (find u.minutes now.minute) p.per_minute "web_search_minute_limit") _ h
            λ _ e₃ h.
              let counted : Usage = record {
                months = add_one u.months now.month;
                days = add_one u.days now.day;
                minutes = add_one u.minutes now.minute;
              } in
              let same : counted ≡ after = ground arith in
              subst
                (λ (v : Usage).
                  IsAccounted p (now ∷ trace) (record { usage = v; active = s.active + 1 }))
                same
                (record {
                  months =
                      add_one-IsLedger p.monthly u.months (λ t. t.month) now trace _ _ b.month.0
                        a.months e₁;
                  days =
                      add_one-IsLedger p.daily u.days (λ t. t.day) now trace _ _ b.day.0 a.days e₂;
                  minutes =
                      add_one-IsLedger p.per_minute u.minutes (λ t. t.minute) now trace _ _
                        b.minute.0 a.minutes e₃;
                  few = ground arith;
                })

reserve_unobstructed :
    (p : Policy) (now : Stamp) (o : Option Obstacle) (u after : Usage)
    → reserve p now o u ≡ ok after
    → reserve_usage p now u ≡ ok after
unfolding reserve
reserve_unobstructed p now none u after h = h
reserve_unobstructed p now (some linked) u after h = absurd (cc)
reserve_unobstructed p now (some failing) u after h = absurd (cc)

begin_request-IsAccounted :
    (p : Policy) (trace : List Stamp) (s s' : Search) (credential : Result Fault String)
    (now : Stamp) (o : Option Obstacle)
    → IsBounded p
    → IsAccounted p trace s
    → begin_request p credential now o s ≡ ok s'
    → IsAccounted p (now ∷ trace) s'
unfolding begin_request
begin_request-IsAccounted p trace s s' credential now o b a h = succeeded credential _ h λ _ _ h.
    passed_guard (leb 2 s.active) _ _ h λ room h.
      succeeded (reserve p now o s.usage) _ h λ after e h.
        subst (IsAccounted p (now ∷ trace)) {x = record { usage = after; active = s.active + 1 }}
          (ground arith)
          (reserve_usage-IsLedger p trace s now after b a (ground arith)
            (reserve_unobstructed p now o s.usage after e))

-- Under one policy with bounded limits, however requests begin, end, fail and are refused, and whenever
-- the process restarts: the table counts exactly the requests that have gone to the provider in each
-- month, day and minute, none of these counts exceeds the policy's limit, and at most two requests are under way.
pub Reach-IsAccounted :
    (p : Policy) (trace : List Stamp) (s : Search)
    → IsBounded p
    → Reach p trace s
    → IsAccounted p trace s
unfolding end_request find
Reach-IsAccounted p _ _ b fresh = record {
  months = λ n. refl;
  days = λ n. refl;
  minutes = λ n. refl;
  few = ground arith;
}
Reach-IsAccounted p _ _ b (began trace s s' credential now o r h) =
    begin_request-IsAccounted p trace s s' credential now o b (Reach-IsAccounted p trace s b r) h
Reach-IsAccounted p _ _ b (ended trace s r) =
    let a = Reach-IsAccounted p trace s b r in
    record {
      months = a.months;
      days = a.days;
      minutes = a.minutes;
      few = (let few : s.active ≤ 2 = a.few in ground arith);
    }
Reach-IsAccounted p _ _ b (restarted trace s r) =
    let a = Reach-IsAccounted p trace s b r in
    record { months = a.months; days = a.days; minutes = a.minutes; few = ground arith }
