-- ===== src/Exchange/Board.antt =====
-- lib/workstation/hyperloom_exchange_host.py: the exchange as a board of jobs, each open, taken or
-- answered, with a place for the end of the campaign.
use mathlib.Core.Path.{fun_ext}
use arch_linux_threadripper.Prelude.{
  ℕ, ◌≡◌, String, Option, none, some, Result, ok, err, if◌then◌else◌, arith, subst, ap, sym, ◌∙◌,
  str_eq, inl, inr,
}
use arch_linux_threadripper.Prelude.Assoc.{Assoc, find, place, find-place}
use arch_linux_threadripper.Json.{str, Fields}
use arch_linux_threadripper.Exchange.Terms.{Fault, Codec}
use arch_linux_threadripper.Exchange.Requests.{Request}
use arch_linux_threadripper.Exchange.Store.{Bytes, Reply, Exchange}
use arch_linux_threadripper.Exchange.Jobs.{Meanwhile, claim}
use arch_linux_threadripper.Exchange.Config.{Bound}
use arch_linux_threadripper.Exchange.Host.{
  Snapshot, snapshot, claim_snapshot, match_claim, take_job,
}
use arch_linux_threadripper.Exchange.Claims.{IsReserved, claim-cases}
use arch_linux_threadripper.Exchange.Outcomes.{publish_outcome-IsPublished}
use arch_linux_threadripper.Exchange.Reach.{
  Step, optimizer, taken, published, parked, Reach, here, there, park-fresh,
}

-- What the parties may rely on of one job.
pub data Status : Type 0 where
  open_job in_work : Status
  answered : Bytes → Status

pub record Board : Type 0 where
  pub jobs : String → Status
  pub terminal : Option Bytes

abbrev pub update : (String → Status) → String → Status → String → Status
update f id w k = if str_eq id k then w else f k

-- The moves that the exchange promises to make: nothing else changes with a move.
pub data Move : Board → Board → Type 0 where
  idle : (b : Board) → Move b b
  reserve :
      (b : Board) (id : String)
      → b.jobs id ≡ open_job
      → Move b (record b { jobs = update b.jobs id in_work })
  answer :
      (b : Board) (id : String) (raw : Bytes)
      → b.jobs id ≡ in_work
      → Move b (record b { jobs = update b.jobs id (answered raw) })
  close : (b : Board) (raw : Bytes) → b.terminal ≡ none → Move b (record b { terminal = some raw })

pub data Moves : Board → Board → Type 0 where
  stop : (b : Board) → Moves b b
  go : {a b d : Board} → Move a b → Moves b d → Moves a d

abbrev pub reply_status : Option Bytes → Status
reply_status none = in_work
reply_status (some raw) = answered raw

abbrev pub status : Option Reply → Status
status none = open_job
status (some r) = reply_status r.result

-- The board that an exchange shows: the jobs themselves and the claims are not on it.
abbrev pub board : Exchange → Board
board x = record { jobs = λ id. status (find x.replies id); terminal = x.parked }

-- A reply that is placed changes the status of its job alone.
board-place :
    (x y : Exchange) (id : String) (r : Reply)
    → y.replies ≡ place x.replies id r
    → y.parked ≡ x.parked
    → record (board x) { jobs = update (board x).jobs id (reply_status r.result) } ≡ board y
board-place x y id r same kept =
    ap (λ jobs. record { jobs = jobs; terminal = x.parked }) (fun_ext λ k. status_at k)
    ∙ ap (λ t. record { jobs = (board y).jobs; terminal = t }) (sym kept)
  where
    status_at : (k : String) → update (board x).jobs id (reply_status r.result) k ≡ (board y).jobs k
    status_at k =
        let e = find-place x.replies id k r in
        let f : find y.replies k ≡ (if str_eq id k then some r else find x.replies k) =
          ap (λ d. find d k) same ∙ e in
        ground arith

same_board : (x y : Exchange) → y.replies ≡ x.replies → y.parked ≡ x.parked → board x ≡ board y
same_board x y e f =
    ap (λ replies. record { jobs = λ id. status (find replies id); terminal = x.parked }) (sym e)
    ∙ ap (λ t. record { jobs = (board y).jobs; terminal = t }) (sym f)

reserve-Move :
    (c : Codec) (name campaign selection : String) (now : ℕ) (x y : Exchange) (r : Request)
    (config : Fields)
    → IsReserved c name campaign selection now x r config y
    → Move (board x) (board y)
reserve-Move c name campaign selection now x y r config i =
    subst (Move (board x))
      (ap (λ (w : Status). record (board x) { jobs = update (board x).jobs name w })
          (ap reply_status (sym i.no_result))
        ∙ board-place x y name i.reply i.replies i.same_parked)
      (reserve (board x) name (ap status i.fresh))

claim_snapshot-Move :
    (c : Codec) (bound : Bound) (id : String) (now : ℕ) (meanwhile : Meanwhile) (x : Exchange)
    (s : Result Fault Snapshot)
    → Move (board x) (board (claim_snapshot c bound id now meanwhile x s).1)
unfolding claim_snapshot match_claim
claim_snapshot-Move c bound id now meanwhile x (err f) = idle (board x)
claim_snapshot-Move c bound id now meanwhile x (ok s) =
    elim (claim-cases c id bound.campaign bound.selection (str bound.controller) now meanwhile x) [
      | inl (f, e) ↦ rw e (idle (board x))
      | inr (r, config, i, _) ↦
          reserve-Move c id bound.campaign bound.selection now x
            (claim c id bound.campaign bound.selection (str bound.controller) now meanwhile x).1 r
            config i
    ]

-- One step of either side of the exchange is one move on the board: the optimizer's writing is none; a
-- take either leaves the board as it is or takes one open job; a publication answers one job that is in
-- work; the end of the campaign is written where there is none.
pub Step-Move : (c : Codec) (x y : Exchange) → Step c x y → Move (board x) (board y)
unfolding take_job
Step-Move c x y (optimizer _ jobs) = idle (board x)
Step-Move c x y (taken _ a b bound id now meanwhile) =
    claim_snapshot-Move c bound id now meanwhile x (snapshot c bound id a b)
Step-Move c x y (published _ _ bound id result reply h) =
    let i = publish_outcome-IsPublished c bound id result reply x y h in
    let present : find x.replies id ≡ some i.reply = i.present in
    subst (Move (board x))
      (board-place x y id (record i.reply { result = some i.raw }) i.replies i.same_parked)
      (answer (board x) id i.raw (ap status present ∙ ap reply_status i.fresh))
Step-Move c x y (parked _ _ bound result reply now h) =
    let (none_yet, same, _, (raw, now_there)) = park-fresh c bound result reply now x y h in
    subst (Move (board x))
      (ap (λ jobs. record { jobs = jobs; terminal = some raw })
          (ap (λ (b : Assoc Reply). λ id. status (find b id)) (sym same))
        ∙ ap (λ t. record { jobs = (board y).jobs; terminal = t }) (sym now_there))
      (close (board x) raw none_yet)

-- Whatever the optimizer and the controller do, the exchange behaves as the board: what it shows goes
-- from each state to a later one by moves alone. A job is open, then in work, then answered, each at
-- most once and each job on its own, and its answer and the end of the campaign stay.
pub Reach-Moves : (c : Codec) (x y : Exchange) → Reach c x y → Moves (board x) (board y)
Reach-Moves c x y (here _) = stop (board x)
Reach-Moves c x z (there {y = y} s r) = go (Step-Move c x y s) (Reach-Moves c y z r)
