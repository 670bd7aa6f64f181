-- ===== src/Exchange/Carried.antt =====
-- lib/workstation/hyperloom_exchange.py, `submit`: the kind and the sources that a request carries.
use arch_linux_threadripper.Prelude.{
  ◌≡◌, refl, String, true, some, ok, arith, subst, ap, sym, ◌∙◌, eq_iff,
}
use arch_linux_threadripper.Json.{str, get, arr}
use arch_linux_threadripper.Exchange.Terms.{
  Codec, Kind, serving, profile, component, kind_name, kind_named,
}
use arch_linux_threadripper.Exchange.Requests.{Request, read_kind}
use arch_linux_threadripper.Exchange.Store.{Exchange}
use arch_linux_threadripper.Exchange.Validity.{read_request_sound}
use arch_linux_threadripper.Exchange.Submit.{
  Files, Submission, prepare, recognized, inventory, inventory_digest, is_expected,
}
use arch_linux_threadripper.Exchange.Write.{submit}
use arch_linux_threadripper.Exchange.Prepare.{submit_prepared-IsSubmitted, prepare-IsPrepared}

read_kind-name : (k : Kind) → read_kind (some (str (kind_name k))) ≡ ok k
unfolding read_kind kind_named
read_kind-name serving = refl
read_kind-name profile = refl
read_kind-name component = refl

pub recognized-name : (k : Kind) → recognized (str (kind_name k)) ≡ ok k
unfolding recognized kind_named
recognized-name serving = refl
recognized-name profile = refl
recognized-name component = refl

is_expected_sound :
    (wanted found : String) → is_expected (some wanted) found ≡ true → found ≡ wanted
is_expected_sound wanted found h = ground (arith, eq_iff found wanted)

-- A request that was submitted is of the caller's kind and, where the caller expects a source set, of
-- that set.
pub submit_carries :
    (c : Codec) (disk : Files) (id : String) (s : Submission) (x after : Exchange) (r : Request)
    (kind : Kind) (expected : String)
    → submit c disk id s x ≡ (ok r, after)
    → s.kind ≡ str (kind_name kind)
    → s.expected ≡ some expected
    → (r.kind ≡ kind) × (r.source_set ≡ expected)
unfolding submit
submit_carries c disk id s x after r kind expected h named wanted =
    let (p, e, i) = submit_prepared-IsSubmitted c x after r (prepare c disk id s) h in
    let q = prepare-IsPrepared c disk id s p e in
    let (_, valid) = read_request_sound c _ p.request q.accepted in
    let own : read_kind (some (str (kind_name q.kind))) ≡ ok p.request.kind =
      subst (λ d. read_kind (get d "kind") ≡ ok p.request.kind) q.document valid.own_kind in
    let asked : recognized (str (kind_name kind)) ≡ ok q.kind =
      subst (λ v. recognized v ≡ ok q.kind) named q.asked in
    let first = read_kind-name q.kind in
    let second = recognized-name kind in
    let same : p.request.kind ≡ kind = cc in
    let listed : some (arr (inventory c p.files)) ≡ some (arr valid.items) =
      subst (λ d. get d "sources" ≡ some (arr valid.items)) q.document valid.inventory in
    let items : arr valid.items ≡ arr (inventory c p.files) = cc in
    let found =
      is_expected_sound expected (inventory_digest c p.files)
        (subst (λ w. is_expected w (inventory_digest c p.files) ≡ true) wanted q.as_expected) in
    (
      ap (λ (r : Request). r.kind) (sym i.prepared) ∙ same,
      ap (λ (r : Request). r.source_set) (sym i.prepared)
          ∙ valid.digest
          ∙ ap (λ v. c.digest (c.canonical v)) items
          ∙ found,
    )
