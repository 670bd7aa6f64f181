-- ===== src/Cache/Accounting.antt =====
-- infrastructure/hyperloom/sglang-owner-adapter/cache_policy_model.py: no operation lets the states in
-- use, resident ones and running requests' own, pass the size of the pool.
use arch_linux_threadripper.Prelude.{
  ℕ, zero, suc, ◌+◌, ◌≤◌, String, ◌≡◌, refl, ◌∙◌, subst, Bool, true, false, Option, none, some,
  List, [], ◌∷◌, ◌++◌, arith, length, min, ok, succeeded, split_if, inl, inr, Option-cases,
  if◌then◌else◌,
}
use mathlib.Core.List.{reverse}
use arch_linux_threadripper.Prelude.Int.{ℤ, pos, negsuc}
use arch_linux_threadripper.Cache.Pool.{
  chunk, pool_size, Node, Pool, new_pool, update, resident, used, allocate, find_link, trim_path,
  insert,
}
use arch_linux_threadripper.Cache.Requests.{
  best_hit, refresh, matched_pool, match_prompt, chunk_count, stash_chunks, link_position,
  link_node, add_pin, discard_pin, prefill, retire, donate_leaf, finish, Request, Running,
  prefill_all, by_completion, by_id, finish_all, group, Row, requests_of, replay_groups, replay,
}
use arch_linux_threadripper.Cache.Nodes.{resident-update-le, resident-append}
use arch_linux_threadripper.Cache.Use.{Fits, allocate-used, trim_path-used, insert-Fits}

match_prompt-used :
    (path : String) (prompt : ℕ) (p : Pool)
    → (used (match_prompt path prompt p).0 ≤ used p)
      × ((match_prompt path prompt p).0.pinned ≡ p.pinned)
unfolding match_prompt used
match_prompt-used path prompt p =
    elim (best_hit path prompt p.nodes p.chains)
      as (λ o.
        let q = (matched_pool o p).0 in
        (resident q.nodes + length q.pinned ≤ resident p.nodes + length p.pinned)
        × (q.pinned ≡ p.pinned)) [
          | none ↦ (omega arith, refl)
          | some l ↦ (
            omega (arith, resident-update-le (refresh p.clock) (λ n. omega arith) l.node p.nodes),
            refl,
          )
        ]

stash_chunks-Fits :
    (path : String) (prompt left position : ℕ) (held : Option ℕ) (p p' : Pool) (held' : Option ℕ)
    → Fits p
    → stash_chunks path prompt left position held p ≡ ok (p', held')
    → Fits p' × (p'.pinned ≡ p.pinned)
unfolding stash_chunks
stash_chunks-Fits path prompt zero position held p p' held' fits h = ground arith
stash_chunks-Fits path prompt (suc zero) position held p p' held' fits h = ground arith
stash_chunks-Fits path prompt (suc (suc left)) position held p p' held' fits h =
    let at = min (position + chunk) prompt in
    succeeded (insert path at held p) _ h λ r e h₁.
      let (fits₁, q) = insert-Fits path at held p r.0 r.1 fits e in
      let (fits₂, q') =
        stash_chunks-Fits path prompt (suc left) at (some r.1) r.0 p' held' fits₁ h₁ in
      (fits₂, q' ∙ q)

length-add_pin : (rid : ℕ) (l : List ℕ) → length (add_pin rid l) ≤ length l + 1
unfolding add_pin
length-add_pin rid [] = omega arith
length-add_pin rid (r ∷ l) = ground (arith, length-add_pin rid l)

length-discard_pin : (rid : ℕ) (l : List ℕ) → length (discard_pin rid l) ≤ length l
unfolding discard_pin
length-discard_pin rid [] = omega arith
length-discard_pin rid (r ∷ l) = ground (arith, length-discard_pin rid l)

prefill-Fits :
    (rid : ℕ) (path : String) (prompt : ℕ) (p p' : Pool) (cached held : ℕ)
    → Fits p
    → prefill rid path prompt p ≡ ok (p', cached, held)
    → Fits p'
unfolding prefill used
prefill-Fits rid path prompt p p' cached held fits h =
    let (matched, hit) = match_prompt path prompt p in
    let (m, _) = match_prompt-used path prompt p in
    succeeded (allocate matched) _ h λ room e h₁.
      let (u, _) = allocate-used matched room (omega (arith, m, fits)) e in
      let started : Pool = record room { pinned = add_pin rid room.pinned } in
      let start = link_position hit in
      succeeded (stash_chunks path prompt (chunk_count prompt start) start (link_node hit) started)
        _ h₁
        λ s e' h₂.
          let (fits₁, _) =
            stash_chunks-Fits path prompt (chunk_count prompt start) start (link_node hit) started
              s.0 s.1 (omega (arith, u, length-add_pin rid room.pinned)) e' in
          succeeded (insert path prompt s.1 s.0) _ h₂ λ r e'' h₃.
            let (fits₂, _) = insert-Fits path prompt s.1 s.0 r.0 r.1 fits₁ e'' in
            let same : r.0 ≡ p' = ground arith in subst Fits same fits₂

donate_leaf-Fits :
    (path : String) (prompt completion : ℕ) (p p' : Pool)
    → Fits p
    → donate_leaf path prompt completion p ≡ ok p'
    → Fits p'
unfolding donate_leaf
donate_leaf-Fits path prompt completion p p' fits h = succeeded (allocate p) _ h λ room e h₁.
    let (u, _) = allocate-used p room fits e in
    elim (Option-cases (find_link path prompt room.chains)) [
      | inl not_there ↦ ground arith
      | inr (parent, e') ↦
          let leaf : Node = record {
            path = path;
            position = prompt + completion;
            parent = some parent;
            value = true;
            locked = false;
            mru = room.clock;
          } in
          let grown : Pool = record room {
            nodes = room.nodes ++ leaf ∷ [];
            clock = room.clock + 1;
          } in
          let (t, _) = trim_path-used (length room.nodes) grown in
          let same : trim_path (length room.nodes) grown ≡ p' = ground arith in
          let one : used grown ≡ used room + 1 =
            unfold used in omega (arith, resident-append room.nodes leaf) in
          subst Fits same (omega (arith, t, one, u))
    ]

finish-Fits :
    (rid : ℕ) (path : String) (prompt completion held : ℕ) (p p' : Pool)
    → Fits p
    → finish rid path prompt completion held p ≡ ok p'
    → Fits p'
unfolding finish used
finish-Fits rid path prompt completion held p p' fits h =
    succeeded (if p.finish_new_leaf then donate_leaf path prompt completion p else ok p) _ h
      λ grown e h₁.
        let fits₁ : Fits grown =
          split_if p.finish_new_leaf _ _ e
            (λ _ d. donate_leaf-Fits path prompt completion p grown fits d) (λ _ d. ground arith) in
        let freed = length-discard_pin rid grown.pinned in
        let kept = resident-update-le (retire grown.clock) (λ n. omega arith) held grown.nodes in
        let done : Pool = record grown {
          nodes = update held (retire grown.clock) grown.nodes;
          clock = grown.clock + 1;
          pinned = discard_pin rid grown.pinned;
        } in
        let same : done ≡ p' = ground arith in subst Fits same (omega (arith, freed, kept, fits₁))

prefill_all-Fits :
    (rs : List Request) (p p' : Pool) (running : List Running)
    → Fits p
    → prefill_all rs p ≡ ok (p', running)
    → Fits p'
unfolding prefill_all
prefill_all-Fits [] p p' running fits h = let same : p ≡ p' = ground arith in subst Fits same fits
prefill_all-Fits (r ∷ rs) p p' running fits h =
    succeeded (prefill r.rid r.path r.prompt p) _ h λ s e h₁.
      succeeded (prefill_all rs s.0) _ h₁ λ t e' h₂.
        let fits₁ = prefill-Fits r.rid r.path r.prompt p s.0 s.1 s.2 fits e in
        let fits₂ = prefill_all-Fits rs s.0 t.0 t.1 fits₁ e' in
        let same : t.0 ≡ p' = ground arith in subst Fits same fits₂

finish_all-Fits : (rs : List Running) (p p' : Pool) → Fits p → finish_all rs p ≡ ok p' → Fits p'
unfolding finish_all
finish_all-Fits [] p p' fits h = let same : p ≡ p' = ground arith in subst Fits same fits
finish_all-Fits (r ∷ rs) p p' fits h =
    let q = r.request in
    succeeded (finish q.rid q.path q.prompt q.completion r.held p) _ h λ s e h₁.
      finish_all-Fits rs s p' (finish-Fits q.rid q.path q.prompt q.completion r.held p s fits e) h₁

group-Fits :
    (rs : List Request) (p p' : Pool) (running : List Running)
    → Fits p
    → group rs p ≡ ok (p', running)
    → Fits p'
unfolding group
group-Fits rs p p' running fits h = succeeded (prefill_all rs p) _ h λ s e h₁.
    succeeded (finish_all (by_completion (by_id s.1)) s.0) _ h₁ λ t e' h₂.
      let fits₁ = prefill_all-Fits rs p s.0 s.1 fits e in
      let same : t ≡ p' = ground arith in
      subst Fits same (finish_all-Fits (by_completion (by_id s.1)) s.0 t fits₁ e')

replay_groups-Fits :
    (bound : ℕ → Option Row) (b_first : Bool) (groups : List (List ℕ)) (p p' : Pool)
    (outcomes : List Running)
    → Fits p
    → replay_groups bound b_first groups p ≡ ok (p', outcomes)
    → Fits p'
unfolding replay_groups
replay_groups-Fits bound b_first [] p p' outcomes fits h =
    let same : p ≡ p' = ground arith in subst Fits same fits
replay_groups-Fits bound b_first (g ∷ gs) p p' outcomes fits h =
    succeeded (requests_of bound (if b_first then reverse g else g)) _ h λ rs _ h₁.
      succeeded (group rs p) _ h₁ λ s e h₂.
        succeeded (replay_groups bound b_first gs s.0) _ h₂ λ t e' h₃.
          let fits₁ = group-Fits rs p s.0 s.1 fits e in
          let fits₂ = replay_groups-Fits bound b_first gs s.0 t.0 t.1 fits₁ e' in
          let same : t.0 ≡ p' = ground arith in subst Fits same fits₂

starts : (cap : ℤ) (leaf : Bool) (p : Pool) → new_pool cap leaf ≡ ok p → Fits p
unfolding new_pool used resident
starts (pos zero) leaf p h = cc
starts (pos (suc n)) leaf p h = ground arith
starts (negsuc zero) leaf p h = ground arith
starts (negsuc (suc n)) leaf p h = cc

-- A replay of any menu, in either order of admission and with any cap, ends with at most 19 states
-- in use, resident ones and running requests together.
pub replay-Fits :
    (bound : ℕ → Option Row) (b_first : Bool) (groups : List (List ℕ)) (cap : ℤ) (leaf : Bool)
    (p : Pool) (outcomes : List Running)
    → replay bound b_first groups cap leaf ≡ ok (p, outcomes)
    → used p ≤ pool_size
unfolding replay
replay-Fits bound b_first groups cap leaf p outcomes h =
    succeeded (new_pool cap leaf) _ h λ start e h₁.
      replay_groups-Fits bound b_first groups start p outcomes (starts cap leaf start e) h₁
