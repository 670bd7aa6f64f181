-- ===== src/Exchange/Store.antt =====
-- lib/workstation/hyperloom_exchange.py: the two trees of the exchange as a store, and the files that
-- are read with a bound and published once.
use arch_linux_threadripper.Prelude.{
  ℕ, String, Bool, true, false, Option, none, some, List, leb, if◌then◌else◌, Result, ok, err,
  length,
}
use arch_linux_threadripper.Prelude.Assoc.{Assoc, find}
use arch_linux_threadripper.Exchange.Terms.{Fault, refused, max_result}

abbrev pub Bytes : Type 0
Bytes = List ℕ

-- A job's directory, written by the optimizer.
pub record Job : Type 0 where
  pub request : Option Bytes
  pub config : Option Bytes
  pub sources : Assoc Bytes
  pub cancelled : Option Bytes

-- A reply's directory, written by the controller.
pub record Reply : Type 0 where
  pub claim : Option Bytes
  pub result : Option Bytes

abbrev pub empty_reply : Reply
empty_reply = record { claim = none; result = none }

pub record Exchange : Type 0 where
  pub jobs : Assoc Job
  pub replies : Assoc Reply
  pub parked : Option Bytes

-- `_read`: a missing file or one past the cap is a ValueError.
unfoldable pub read_file : ℕ → Option Bytes → Result Fault Bytes
read_file cap none = err (refused "unreadable or linked exchange file")
read_file cap (some raw) =
    if leb (length raw) cap then ok raw else err (refused "bounded regular exchange file required")

-- `_publish`: complete bytes, and never over what is there.
unfoldable pub publish : Option Bytes → Bytes → Result Fault Bytes
publish (some old) raw = err (refused "fresh bounded exchange member required")
publish none raw =
    if leb (length raw) max_result
    then ok raw
    else err (refused "fresh bounded exchange member required")

-- `_directory` of a member of a tree
unfoldable pub open_directory {ℓ} : {A : Type ℓ} → Assoc A → String → Result Fault A
open_directory tree name = elim (find tree name) [
  | none ↦ err (refused "canonical exchange directory required")
  | some a ↦ ok a
]

abbrev pub is_there : Option Bytes → Bool
is_there none = false
is_there (some _) = true
