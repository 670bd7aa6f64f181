-- ===== src/Cache/Locks.antt =====
-- infrastructure/hyperloom/sglang-owner-adapter/cache_policy_model.py: a locked state is never given
-- up, by eviction or by trimming, while requests run.
use arch_linux_threadripper.Prelude.{
  ℕ, zero, suc, ◌+◌, String, ◌≡◌, refl, subst, true, false, Bool, Option, some, List, [], ◌∷◌, ◌++◌,
  arith, length, min, ltb, str_eq, ok, succeeded, split_if, inl, inr, Option-cases, if◌then◌else◌,
  All-append,
}
use arch_linux_threadripper.Prelude.Int.{ℤ}
use arch_linux_threadripper.Cache.Pool.{
  new_pool, Cap, chunk, Node, Link, Pool, update, allocate, find_link, trim_path, insert,
}
use arch_linux_threadripper.Cache.Requests.{
  has_value, is_hit, best_hit, refresh, match_prompt, chunk_count, stash_chunks, link_position,
  link_node, add_pin, discard_pin, prefill, retire, donate_leaf, finish, Request, Running,
  prefill_all, by_completion, by_id, finish_all, group,
}
use arch_linux_threadripper.Cache.Held.{
  IsHeld, Holds, All-update, value_of, allocate-Holds, trim_path-Holds, insert-Holds,
}
use arch_linux_threadripper.Cache.Matching.{last_of, best_hit_sound}

hit_valued :
    (path : String) (prompt : ℕ) (ns : List Node) (l : Link)
    → is_hit path prompt ns l ≡ true
    → has_value ns l.node ≡ true
hit_valued path prompt ns l h =
    last_of (str_eq l.path path) (has_value ns l.node) (ltb l.position prompt) h

match_prompt-Holds :
    (path : String) (prompt : ℕ) (p : Pool) → Holds p → Holds (match_prompt path prompt p).0
unfolding match_prompt
match_prompt-Holds path prompt p a = elim (Option-cases (best_hit path prompt p.nodes p.chains)) [
  | inl e ↦ rw e a
  | inr (l, e) ↦
      let best = best_hit_sound path prompt p.nodes p.chains l e in
      let v = hit_valued path prompt p.nodes l best.hit in
      rw e (
        All-update (refresh p.clock) l.node p.nodes
          (λ n there h. λ _. value_of p.nodes l.node n v there) a)
]

stash_chunks-Holds :
    (path : String) (prompt left position : ℕ) (held : Option ℕ) (p p' : Pool) (held' : Option ℕ)
    → Holds p
    → stash_chunks path prompt left position held p ≡ ok (p', held')
    → Holds p'
unfolding stash_chunks
stash_chunks-Holds path prompt zero position held p p' held' a h =
    let same : p ≡ p' = ground arith in subst Holds same a
stash_chunks-Holds path prompt (suc zero) position held p p' held' a h =
    let same : p ≡ p' = ground arith in subst Holds same a
stash_chunks-Holds path prompt (suc (suc left)) position held p p' held' a h =
    let at = min (position + chunk) prompt in
    succeeded (insert path at held p) _ h λ r e h₁.
      stash_chunks-Holds path prompt (suc left) at (some r.1) r.0 p' held'
        (insert-Holds path at held p r.0 r.1 a e) h₁

abbrev empty : Cap → Bool → Pool
empty cap leaf = record {
  cap = cap;
  finish_new_leaf = leaf;
  clock = 1;
  nodes = [];
  chains = [];
  pinned = [];
  events = [];
}

prefill-Holds :
    (rid : ℕ) (path : String) (prompt : ℕ) (p p' : Pool) (cached held : ℕ)
    → Holds p
    → prefill rid path prompt p ≡ ok (p', cached, held)
    → Holds p'
unfolding prefill
prefill-Holds rid path prompt p p' cached held a h =
    let (matched, hit) = match_prompt path prompt p in
    let start = link_position hit in
    succeeded (allocate matched) _ h λ room e h₁.
      let started : Pool = record room { pinned = add_pin rid room.pinned } in
      let b = allocate-Holds matched room (match_prompt-Holds path prompt p a) e in
      succeeded (stash_chunks path prompt (chunk_count prompt start) start (link_node hit) started)
        _ h₁
        λ s e' h₂.
          let c =
            stash_chunks-Holds path prompt (chunk_count prompt start) start (link_node hit) started
              s.0 s.1 b e' in
          succeeded (insert path prompt s.1 s.0) _ h₂ λ r e'' h₃.
            let same : r.0 ≡ p' = ground arith in
            subst Holds same (insert-Holds path prompt s.1 s.0 r.0 r.1 c e'')

donate_leaf-Holds :
    (path : String) (prompt completion : ℕ) (p p' : Pool)
    → Holds p
    → donate_leaf path prompt completion p ≡ ok p'
    → Holds p'
unfolding donate_leaf
donate_leaf-Holds path prompt completion p p' a h = succeeded (allocate p) _ h λ room e h₁.
    elim (Option-cases (find_link path prompt room.chains)) [
      | inl not_there ↦ absurd (ground arith)
      | inr (parent, e') ↦
          let leaf : Node = record {
            path = path;
            position = prompt + completion;
            parent = some parent;
            value = true;
            locked = false;
            mru = room.clock;
          } in
          let grown : Pool = record room {
            nodes = room.nodes ++ leaf ∷ [];
            clock = room.clock + 1;
          } in
          let same : trim_path (length room.nodes) grown ≡ p' = ground arith in
          let b = allocate-Holds p room a e in
          subst Holds same (
            trim_path-Holds (length room.nodes) grown
              (All-append IsHeld room.nodes (leaf ∷ []) b ((λ _. refl), tt)))
    ]

finish-Holds :
    (rid : ℕ) (path : String) (prompt completion held : ℕ) (p p' : Pool)
    → Holds p
    → finish rid path prompt completion held p ≡ ok p'
    → Holds p'
unfolding finish
finish-Holds rid path prompt completion held p p' a h =
    succeeded (if p.finish_new_leaf then donate_leaf path prompt completion p else ok p) _ h
      λ grown e h₁.
        let b : Holds grown =
          split_if p.finish_new_leaf _ _ e
            (λ _ d. donate_leaf-Holds path prompt completion p grown a d)
            (λ _ d. let same : p ≡ grown = ground arith in subst Holds same a) in
        let done : Pool = record grown {
          nodes = update held (retire grown.clock) grown.nodes;
          clock = grown.clock + 1;
          pinned = discard_pin rid grown.pinned;
        } in
        let same : done ≡ p' = ground arith in
        subst Holds same
          (All-update (retire grown.clock) held grown.nodes (λ n there k. λ locked. absurd (cc)) b)

prefill_all-Holds :
    (rs : List Request) (p p' : Pool) (running : List Running)
    → Holds p
    → prefill_all rs p ≡ ok (p', running)
    → Holds p'
unfolding prefill_all
prefill_all-Holds [] p p' running a h = let same : p ≡ p' = ground arith in subst Holds same a
prefill_all-Holds (r ∷ rs) p p' running a h =
    succeeded (prefill r.rid r.path r.prompt p) _ h λ s e h₁.
      succeeded (prefill_all rs s.0) _ h₁ λ t e' h₂.
        let b = prefill-Holds r.rid r.path r.prompt p s.0 s.1 s.2 a e in
        let same : t.0 ≡ p' = ground arith in
        subst Holds same (prefill_all-Holds rs s.0 t.0 t.1 b e')

finish_all-Holds : (rs : List Running) (p p' : Pool) → Holds p → finish_all rs p ≡ ok p' → Holds p'
unfolding finish_all
finish_all-Holds [] p p' a h = let same : p ≡ p' = ground arith in subst Holds same a
finish_all-Holds (r ∷ rs) p p' a h =
    let q = r.request in
    succeeded (finish q.rid q.path q.prompt q.completion r.held p) _ h λ s e h₁.
      finish_all-Holds rs s p' (finish-Holds q.rid q.path q.prompt q.completion r.held p s a e) h₁

-- A group of requests keeps every locked state resident.
pub group-Holds :
    (rs : List Request) (p p' : Pool) (running : List Running)
    → Holds p
    → group rs p ≡ ok (p', running)
    → Holds p'
unfolding group
group-Holds rs p p' running a h = succeeded (prefill_all rs p) _ h λ s e h₁.
    succeeded (finish_all (by_completion (by_id s.1)) s.0) _ h₁ λ t e' h₂.
      let b = prefill_all-Holds rs p s.0 s.1 a e in
      let same : t ≡ p' = ground arith in
      subst Holds same (finish_all-Holds (by_completion (by_id s.1)) s.0 t b e')

-- The pool while requests run: they are prefilled and end in any order.
pub data Reach : Pool → Type 0 where
  starts : (cap : ℤ) (leaf : Bool) (p : Pool) → new_pool cap leaf ≡ ok p → Reach p
  prefilled :
      (rid : ℕ) (path : String) (prompt cached held : ℕ) (p q : Pool)
      → prefill rid path prompt p ≡ ok (q, cached, held)
      → Reach p
      → Reach q
  ended :
      (rid : ℕ) (path : String) (prompt completion held : ℕ) (p q : Pool)
      → finish rid path prompt completion held p ≡ ok q
      → Reach p
      → Reach q
