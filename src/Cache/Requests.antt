-- ===== src/Cache/Requests.antt =====
-- infrastructure/hyperloom/sglang-owner-adapter/cache_policy_model.py: matching, chunked prefill, the
-- end of a request, and a group of requests.
use arch_linux_threadripper.Prelude.{
  ℕ, zero, suc, ◌+◌, ◌-◌, ◌/◌, String, Bool, true, false, ◌&&◌, Option, none, some, List, [], ◌∷◌,
  ◌++◌, ltb, leb, ◌==◌, if◌then◌else◌, min, Result, ok, err, ◌>>=◌, length, str_eq, map,
}
use mathlib.Core.List.{reverse}
use arch_linux_threadripper.Prelude.Int.{ℤ}
use arch_linux_threadripper.Cache.Pool.{
  new_pool, chunk, PoolError, missing, Node, Link, Pool, node_at, update, allocate, find_link,
  trim_path, insert,
}

abbrev pub has_value : List Node → ℕ → Bool
has_value ns i = elim (node_at ns i) [ none ↦ false | some n ↦ n.value ]

-- A chain's resident state before the last token of the prompt: `position <= prompt - 1` is
-- `position < prompt`.
abbrev pub is_hit : String → ℕ → List Node → Link → Bool
is_hit path prompt ns l = str_eq l.path path && has_value ns l.node && ltb l.position prompt

unfoldable pub better_hit : Bool → Link → Option Link → Option Link
better_hit hit l none = if hit then some l else none
better_hit hit l (some b) = if hit && leb b.position l.position then some l else some b

-- max(hits, key=position)
unfoldable pub best_hit : String → ℕ → List Node → List Link → Option Link
unfolding better_hit node_at
best_hit path prompt ns [] = none
best_hit path prompt ns (l ∷ ls) =
    better_hit (is_hit path prompt ns l) l (best_hit path prompt ns ls)

abbrev pub refresh : ℕ → Node → Node
refresh now n = record n { mru = now; locked = true }

-- `Pool.match`: the matched node, locked before anything is allocated.
abbrev pub matched_pool : Option Link → Pool → Pool × Option Link
matched_pool none p = (p, none)
matched_pool (some l) p =
    (record p { nodes = update l.node (refresh p.clock) p.nodes; clock = p.clock + 1 }, some l)

unfoldable pub match_prompt : String → ℕ → Pool → Pool × Option Link
match_prompt path prompt p = matched_pool (best_hit path prompt p.nodes p.chains) p

-- math.ceil((prompt - cached) / CHUNK), and 0 where the prompt is no longer than what is cached
abbrev pub chunk_count : ℕ → ℕ → ℕ
chunk_count prompt cached = (prompt - cached + (chunk - 1)) / chunk

-- The loop over `range(chunks)`, with the chunks that are left: every chunk but the last is stashed.
unfoldable pub stash_chunks :
    String → ℕ → ℕ → ℕ → Option ℕ → Pool → Result PoolError (Pool × Option ℕ)
stash_chunks path prompt zero position held p = ok (p, held)
stash_chunks path prompt (suc zero) position held p = ok (p, held)
stash_chunks path prompt (suc (suc left)) position held p = do
  let next_position = min (position + chunk) prompt
  (p', i) ← insert path next_position held p
  stash_chunks path prompt (suc left) next_position (some i) p'

abbrev pub link_position : Option Link → ℕ
link_position none = 0
link_position (some l) = l.position

abbrev pub link_node : Option Link → Option ℕ
link_node none = none
link_node (some l) = some l.node

-- set.add
unfoldable pub add_pin : ℕ → List ℕ → List ℕ
add_pin rid [] = rid ∷ []
add_pin rid (r ∷ rs) = if r == rid then r ∷ rs else r ∷ add_pin rid rs

-- set.discard
unfoldable pub discard_pin : ℕ → List ℕ → List ℕ
discard_pin rid [] = []
discard_pin rid (r ∷ rs) = if r == rid then rs else r ∷ discard_pin rid rs

-- `Pool.prefill`: the pool, the cached length, and the node that holds the request's lock.
unfoldable pub prefill : ℕ → String → ℕ → Pool → Result PoolError (Pool × ℕ × ℕ)
prefill rid path prompt p = do
  let (matched, hit) = match_prompt path prompt p
  let cached = link_position hit
  room ← allocate matched
  let started = record room { pinned = add_pin rid room.pinned }
  (stashed, held) ←
      stash_chunks path prompt (chunk_count prompt cached) cached (link_node hit) started
  (done, i) ← insert path prompt held stashed
  ok (done, cached, i)

abbrev pub retire : ℕ → Node → Node
retire now n = record n { locked = false; mru = now }

-- The leaf that a finished output leaves, under the node of its prompt.
unfoldable pub donate_leaf : String → ℕ → ℕ → Pool → Result PoolError Pool
donate_leaf path prompt completion p = do
  room ← allocate p
  elim (find_link path prompt room.chains) [
    | none ↦ err missing
    | some parent ↦
        let leaf : Node = record {
          path = path;
          position = prompt + completion;
          parent = some parent;
          value = true;
          locked = false;
          mru = room.clock;
        } in
        ok (
          trim_path (length room.nodes)
            (record room { nodes = room.nodes ++ leaf ∷ []; clock = room.clock + 1 }))
  ]

-- `Pool.finish`
unfoldable pub finish : ℕ → String → ℕ → ℕ → ℕ → Pool → Result PoolError Pool
finish rid path prompt completion held p = do
  grown ← if p.finish_new_leaf then donate_leaf path prompt completion p else ok p
  ok (record grown {
    nodes = update held (retire grown.clock) grown.nodes;
    clock = grown.clock + 1;
    pinned = discard_pin rid grown.pinned;
  })

pub record Request : Type 0 where
  pub rid : ℕ
  pub path : String
  pub prompt : ℕ
  pub completion : ℕ

-- A prefilled request with its lock and what was cached.
pub record Running : Type 0 where
  pub request : Request
  pub held : ℕ
  pub cached : ℕ

unfoldable pub prefill_all : List Request → Pool → Result PoolError (Pool × List Running)
prefill_all [] p = ok (p, [])
prefill_all (r ∷ rs) p = do
  (p', cached, held) ← prefill r.rid r.path r.prompt p
  (p'', running) ← prefill_all rs p'
  ok (p'', record { request = r; held = held; cached = cached } ∷ running)

-- sorted(requests, key=completion), which is stable
unfoldable pub place : Running → List Running → List Running
place r [] = r ∷ []
place r (s ∷ ss) =
    if leb r.request.completion s.request.completion then r ∷ s ∷ ss else s ∷ place r ss

unfoldable pub by_completion : List Running → List Running
unfolding place
by_completion [] = []
by_completion (r ∷ rs) = place r (by_completion rs)

unfoldable pub finish_all : List Running → Pool → Result PoolError Pool
finish_all [] p = ok p
finish_all (r ∷ rs) p = do
  p' ← finish r.request.rid r.request.path r.request.prompt r.request.completion r.held p
  finish_all rs p'

-- locks[rid] and cached[rid], which the last prefill under that id has written
unfoldable pub latest : Running → List Running → Running
latest r [] = r
latest r (s ∷ ss) =
    let next : Running =
      if s.request.rid == r.request.rid then record r { held = s.held; cached = s.cached } else r in
    latest next ss

-- Every request with what the dictionaries hold for it
abbrev pub by_id : List Running → List Running
by_id rs = map (λ r. latest r rs) rs

-- `Pool.group`: every prefill in the order of admission, then the ends, the shorter output first.
unfoldable pub group : List Request → Pool → Result PoolError (Pool × List Running)
group requests p = do
  (p', running) ← prefill_all requests p
  p'' ← finish_all (by_completion (by_id running)) p'
  ok (p'', by_id running)

-- One row of a derived menu: the salt of the cache, the prompt's tokens, and the completion's, which
-- `completion_for` reads from a table of retained counts.
pub record Row : Type 0 where
  pub salt : String
  pub input_tokens : ℕ
  pub completion : ℕ

unfoldable pub requests_of : (ℕ → Option Row) → List ℕ → Result PoolError (List Request)
requests_of bound [] = ok []
requests_of bound (o ∷ os) = elim (bound o) [
  | none ↦ err missing
  | some row ↦ do
    rest ← requests_of bound os
    ok (
        record { rid = o; path = row.salt; prompt = row.input_tokens; completion = row.completion }
        ∷ rest)
]

-- The loop of `replay` over the groups, "b-first" or "a-first": the pool and each outcome, in the
-- order of admission.
unfoldable pub replay_groups :
    (ℕ → Option Row) → Bool → List (List ℕ) → Pool → Result PoolError (Pool × List Running)
replay_groups bound b_first [] p = ok (p, [])
replay_groups bound b_first (ordinals ∷ rest) p = do
  requests ← requests_of bound (if b_first then reverse ordinals else ordinals)
  (p', outcomes) ← group requests p
  (p'', later) ← replay_groups bound b_first rest p'
  ok (p'', outcomes ++ later)

unfoldable pub replay :
    (ℕ → Option Row) → Bool → List (List ℕ) → ℤ → Bool → Result PoolError (Pool × List Running)
replay bound b_first groups cap leaf = do
  p ← new_pool cap leaf
  replay_groups bound b_first groups p
