-- ===== src/Exchange/Write.antt =====
-- lib/workstation/hyperloom_exchange.py, `submit`: the job's directory, and the publications in it.
use arch_linux_threadripper.Prelude.{String, none, some, [], ◌∷◌, Result, ok, err}
use arch_linux_threadripper.Prelude.Effects.{Effect, ◌>>◌, return}
use arch_linux_threadripper.Prelude.Assoc.{Assoc, find, place}
use arch_linux_threadripper.Json.{obj}
use arch_linux_threadripper.Exchange.Terms.{Fault, already_exists, Codec}
use arch_linux_threadripper.Exchange.Requests.{Request}
use arch_linux_threadripper.Exchange.Store.{Bytes, Job, Exchange, publish}
use arch_linux_threadripper.Exchange.Submit.{Files, Submission, Prepared, prepare}

abbrev pub empty_job : Job
empty_job = record { request = none; config = none; sources = []; cancelled = none }

-- One publication in the job's directory
abbrev pub stored : (Bytes → Job) → Job → Result Fault Bytes → Result Fault (Unit {0}) × Job
stored f job (err e) = (err e, job)
stored f job (ok raw) = (ok tt, f raw)

unfoldable pub store_config : Bytes → Effect Fault Job (Unit {0})
store_config raw job = stored (λ b. record job { config = some b }) job (publish job.config raw)

unfoldable pub store_source : String → Bytes → Effect Fault Job (Unit {0})
store_source name raw job =
    stored (λ b. record job { sources = place job.sources name b }) job
      (publish (find job.sources name) raw)

unfoldable pub store_request : Bytes → Effect Fault Job (Unit {0})
store_request raw job = stored (λ b. record job { request = some b }) job (publish job.request raw)

unfoldable pub store_sources : Assoc Bytes → Effect Fault Job (Unit {0})
store_sources [] = return tt
store_sources ((name, raw) ∷ rest) = store_source name raw >> store_sources rest

-- The job's files, the request after all others
unfoldable pub write_job : Codec → Prepared → Effect Fault Job (Unit {0})
write_job c p = do
  store_config p.config_raw
  store_sources p.files
  store_request (c.canonical (obj p.request.document))

-- A job that could not be written in full stays as far as it was.
unfoldable pub keep_job :
    Request → Exchange → Result Fault (Unit {0}) × Job → Result Fault Request × Exchange
keep_job r x (ok u, job) = (ok r, record x { jobs = place x.jobs r.id job })
keep_job r x (err f, job) = (err f, record x { jobs = place x.jobs r.id job })

-- job.mkdir(): an existing job raises FileExistsError.
unfoldable pub make_job : Codec → Exchange → Prepared → Result Fault Request × Exchange
make_job c x p = elim (find x.jobs p.request.id) [
  | some job ↦ (err already_exists, x)
  | none ↦ keep_job p.request x (write_job c p empty_job)
]

unfoldable pub submit_prepared :
    Codec → Exchange → Result Fault Prepared → Result Fault Request × Exchange
submit_prepared c x (err f) = (err f, x)
submit_prepared c x (ok p) = make_job c x p

unfoldable pub submit :
    Codec → Files → String → Submission → Exchange → Result Fault Request × Exchange
submit c disk id s x = submit_prepared c x (prepare c disk id s)
